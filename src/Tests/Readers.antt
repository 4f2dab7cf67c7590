-- ===== src/Tests/Readers.antt =====
-- Runs of the bit reader, and its theorems at concrete inputs.
use haste.Prelude.{
  ℕ, ◌+◌, ◌<◌, ◌^◌, ◌≡◌, refl, true, false, List, [], ◌∷◌, length, ◌*◌, ◌++◌, Option, some, none,
}
use haste.Outcome.{Outcome, ok}
use haste.BitReader.{
  BitReader, ◌>>=◌, pure, read_ubit64, read_bool, read_byte, read_ubitvar, read_ubitvarfp,
  read_string, string_loop, read_string_to_end,
}
use haste.BitReader.Takes.{Takes}
use haste.BitReader.Keeps.{Post}
use haste.BitReader.Varints.{
  ubitvar_value, read_ubitvar-eq, read_ubitvar-Takes, read_ubitvarfp-Takes,
}
use haste.BitReader.Strings.{chars, fill, read_string-chars, read_string_to_end-chars}
use haste.BitReader.Strings.Terminated.{Terminated, read_string-Terminated}
use haste.Tests.BitList.{ReadError, bit_list, bit_list-Documented, take_bits, take_bit, to_bits}

abbrev reader : List ℕ → BitReader (bit_list true)
reader bytes = record { inner = to_bits bytes; did_check_overflow = false }

abbrev value : {A : Type 0} → Outcome ReadError (A × BitReader (bit_list true)) → Option A
value (ok (a, br)) = some a
value _ = none

-- Six bits 1 0 1 0 | 1 0 give 5 with the flag for four more bits.
ubitvar_small : value (read_ubitvar (reader (0b11_010101 ∷ 0b10 ∷ []))) ≡ some (5 + 16 * 11)
unfolding read_ubitvar read_ubit64 take_bits
ubitvar_small = refl

ubitvarfp_two_bits : value (read_ubitvarfp (reader (0b111 ∷ []))) ≡ some 3
unfolding read_ubitvarfp read_bool read_ubit64 take_bits take_bit
ubitvarfp_two_bits = refl

string_fits :
    value (read_string (9 ∷ 9 ∷ 9 ∷ 9 ∷ []) false (reader (b'h' ∷ b'i' ∷ 0 ∷ b'x' ∷ [])))
    ≡ some (2, b'h' ∷ b'i' ∷ 0 ∷ 9 ∷ [])
unfolding read_string string_loop read_byte take_bits
string_fits = refl

string_too_long :
    value (read_string (9 ∷ 9 ∷ []) false (reader (b'h' ∷ b'i' ∷ 0 ∷ b'x' ∷ []))) ≡ none
unfolding read_string string_loop read_byte take_bits
string_too_long = refl

read_ubitvar-eq_example :
    read_ubitvar (reader (0xd5 ∷ 2 ∷ []))
    ≡ ◌>>=◌ (read_ubit64 6) ubitvar_value (reader (0xd5 ∷ 2 ∷ []))
read_ubitvar-eq_example = read_ubitvar-eq (bit_list-Documented true) (reader (0xd5 ∷ 2 ∷ []))

read_ubitvar-Takes_example : Takes 6 34 (λ v. v < 2 ^ 32) (read_ubitvar {p = bit_list true})
read_ubitvar-Takes_example = read_ubitvar-Takes (bit_list-Documented true)

read_ubitvarfp-Takes_example : Takes 3 35 (λ v. v < 2 ^ 31) (read_ubitvarfp {p = bit_list true})
read_ubitvarfp-Takes_example = read_ubitvarfp-Takes (bit_list-Documented true)

read_string-chars_example :
    read_string (9 ∷ 9 ∷ 9 ∷ []) false (reader (b'h' ∷ b'i' ∷ 0 ∷ []))
    ≡ ◌>>=◌ (chars false) (fill (9 ∷ 9 ∷ 9 ∷ [])) (reader (b'h' ∷ b'i' ∷ 0 ∷ []))
read_string-chars_example = read_string-chars 9 (9 ∷ 9 ∷ []) false (reader (b'h' ∷ b'i' ∷ 0 ∷ []))

read_string_to_end-chars_example :
    read_string_to_end (7 ∷ []) true (reader (b'h' ∷ b'\n' ∷ []))
    ≡ ◌>>=◌ (chars true) (λ cs. pure (length cs, (7 ∷ []) ++ cs)) (reader (b'h' ∷ b'\n' ∷ []))
read_string_to_end-chars_example =
    read_string_to_end-chars (7 ∷ []) true (reader (b'h' ∷ b'\n' ∷ []))

read_string-Terminated_example :
    Post (Terminated (9 ∷ 9 ∷ 9 ∷ [])) (read_string (9 ∷ 9 ∷ 9 ∷ []) false (reader (b'h' ∷ 0 ∷ [])))
read_string-Terminated_example =
    read_string-Terminated (bit_list-Documented true) (9 ∷ 9 ∷ 9 ∷ []) false
      (reader (b'h' ∷ 0 ∷ []))
