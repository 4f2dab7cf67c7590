-- ===== src/Tests/Decoders.antt =====
-- Runs of the field decoders, and their theorems at concrete inputs.
use haste.Prelude.{◌<◌, ◌*◌, ◌^◌, ℕ, ◌+◌, ◌≡◌, refl, arith, Bool, true, false, List, [], ◌∷◌, ◌↔◌}
use haste.Prelude.Int.{pos, ◌*ℤ◌, ◌-ℤ◌}
use haste.Outcome.{ok, success}
use haste.BitReader.{BitReader, ◌>>=◌, pure, num_bits_left, read_ubit64}
use haste.BitReader.FloatReaders.{read_bitangle}
use haste.BitReader.Runs.{Runs}
use haste.FieldValue.{FieldValue, i64, qangle, try_into_signed}
use haste.FieldValue.Conversions.{try_into_signed-exact}
use haste.FieldDecoder.{
  FieldDecodeContext, default_context, string_decoder, qangle_pitch_yaw_decoder, decode, skip,
  skip_bits,
}
use haste.FieldDecoder.Skips.{skip-decode_decoder}
use haste.FieldDecoder.Kinds.{Decoded, decode-Runs}
use haste.FieldDecoder.BitCounts.{skip_bits-decode_decoder}
use haste.Tests.BitList.{number_floats, take_bits}
use haste.Tests.Counted.{counted, counted-Documented, counted-Positions}

abbrev context : FieldDecodeContext number_floats
context = default_context number_floats

abbrev at : ℕ → List Bool → BitReader (counted true)
at n bits = record { inner = (n, bits); did_check_overflow = false }

abbrev text : BitReader (counted true)
text = at 0 (
    true ∷ false ∷ false ∷ false ∷ false ∷ true ∷ true ∷ false ∷ false ∷ false ∷ false ∷ false
    ∷ false ∷ false ∷ false ∷ false ∷ true ∷ [])

decode-Runs_example :
    Runs (Decoded string_decoder context) (decode {p = counted true} string_decoder context)
decode-Runs_example =
    decode-Runs (counted-Documented true) (counted-Positions true) string_decoder context refl

skip-decode_decoder_example :
    skip string_decoder context text ≡ (decode string_decoder context >>= λ r. pure r.1) text
skip-decode_decoder_example = skip-decode_decoder string_decoder context text refl

-- Two angles of two bits.
abbrev angles : BitReader (counted true)
angles = at 5 (true ∷ false ∷ true ∷ true ∷ false ∷ [])

decoded :
    decode (qangle_pitch_yaw_decoder 2) context angles
    ≡ ok ((qangle (pos 90, pos 270, pos 0), context), at 9 (false ∷ []))
unfolding decode read_bitangle read_ubit64 take_bits ◌*ℤ◌
decoded = refl

skip_bits-decode_decoder_example :
    (n : ℕ) × (skip_bits (qangle_pitch_yaw_decoder 2) angles ≡ ok (n, at 9 (false ∷ [])))
    × (num_bits_left (at 9 (false ∷ [])) + n ≡ num_bits_left angles)
skip_bits-decode_decoder_example =
    skip_bits-decode_decoder (counted-Documented true) (counted-Positions true)
      (qangle_pitch_yaw_decoder 2) context angles refl (omega arith) (omega arith) decoded

abbrev wide : FieldValue number_floats
wide = i64 (pos 128)

try_into_signed-exact_example :
    (try_into_signed 7 wide ≡ success (pos 128))
    ↔ ((wide ≡ i64 (pos 128)) × (k : ℕ) × (k < 2 * 2 ^ 7) × (pos 128 ≡ pos k -ℤ pos (2 ^ 7)))
try_into_signed-exact_example = try_into_signed-exact 7 wide (pos 128)
