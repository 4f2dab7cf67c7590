-- ===== src/Tests/Floats.antt =====
-- Runs of the quantized floats and of the type names, and their theorems at concrete inputs.
use haste.Prelude.{ℕ, ◌+◌, ◌≡◌, refl, arith, true, false, ◌&&◌, [], ◌∷◌}
use haste.Prelude.Int.{pos, ◌+ℤ◌, ◌-ℤ◌, ◌*ℤ◌}
use haste.Outcome.{ok, panic}
use haste.BitReader.{BitReader, num_bits_left, read_bool, read_ubit64}
use haste.QuantizedFloat.Bits.{EndsIn, BitsAsked, new-EndsIn}
use haste.QuantizedFloat.{
  new, assign_range_multiplier, QuantizedFloat, zero_f, compute_encode_flags, decode, skip,
  skip_bits,
}
use haste.QuantizedFloat.Flags.{is_consistent, compute_encode_flags-is_consistent}
use haste.QuantizedFloat.Skips.{ignore, skip-decode, skip_bits-decode}
use haste.Tests.BitList.{bit_list, bit_list-Documented, number_floats, take_bits, take_bit}

abbrev reader : BitReader (bit_list true)
reader = record {
  inner = false ∷ false ∷ true ∷ true ∷ false ∷ true ∷ [];
  did_check_overflow = false;
}

-- A flag for rounding down and one for zero, then three bits.
abbrev coarse : QuantizedFloat number_floats
coarse = record {
  bit_count = 3;
  encode_flags = 5;
  low_value = pos 10;
  high_value = pos 20;
  high_low_mul = pos 1;
  decode_mul = pos 1;
}

abbrev behind : BitReader (bit_list true)
behind = record { inner = true ∷ []; did_check_overflow = false }

decoded : decode coarse reader ≡ ok (pos 40, behind)
unfolding decode read_bool read_ubit64 take_bit take_bits ◌+ℤ◌ ◌-ℤ◌ ◌*ℤ◌
decoded = refl

skip-decode_example : skip coarse reader ≡ ignore (decode coarse) reader
skip-decode_example = skip-decode coarse reader

skip_bits-decode_example :
    (n : ℕ) × (skip_bits coarse reader ≡ ok (n, behind))
    × (num_bits_left behind + n ≡ num_bits_left reader)
skip_bits-decode_example =
    skip_bits-decode (bit_list-Documented true) coarse reader (omega arith) decoded

computed : compute_encode_flags number_floats 5 (pos 0) (pos 8) ≡ ok 1
unfolding compute_encode_flags
computed = refl

compute_encode_flags-is_consistent_example :
    is_consistent
      (number_floats.lt (pos 0) (zero_f number_floats)
        && number_floats.lt (zero_f number_floats) (pos 8))
      1
    ≡ true
compute_encode_flags-is_consistent_example =
    compute_encode_flags-is_consistent number_floats 5 (pos 0) (pos 8) computed

new-EndsIn_example : EndsIn (BitsAsked number_floats (pos 8)) (new true (pos 8) 4 (pos 0) (pos 255))
new-EndsIn_example = new-EndsIn number_floats (pos 8) 4 (pos 0) (pos 255)

-- The steps of 31 bits are no positive i32.
thirty_one_bits : new {f = number_floats} true (pos 31) 0 (pos 0) (pos 255) ≡ panic
unfolding new compute_encode_flags assign_range_multiplier ◌+ℤ◌ ◌-ℤ◌ ◌*ℤ◌
thirty_one_bits = refl
