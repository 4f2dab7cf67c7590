-- ===== src/Tests/BitList.antt =====
-- A platform for the tests: a bit buffer that is the list of the bits still to be read, lowest bit
-- first, and whole numbers for floats.
use haste.Prelude.{
  ℕ, zero, suc, ◌+◌, ◌-◌, ◌*◌, ◌%◌, ◌/◌, ◌^◌, ◌≤◌, ◌<◌, ◌≡◌, arith, Bool, List, [], ◌∷◌, ◌++◌,
  subst, length, ◌&&◌, not, if◌then◌else◌, ◌==◌,
}
use native.Mathlib.Nat.{pow-suc}
use haste.Prelude.Int.{ℤ, pos, negsuc, ◌≤ℤ◌, ◌+ℤ◌, ◌-ℤ◌, ◌*ℤ◌, pos_part, neg_part, ltb_ℤ}
use haste.Outcome.{Result, success, failure}
use haste.Platform.{Platform, Documented, Floats}

pub data ReadError : Type 0 where
  end_of_data buffer_too_small try_from_int : ReadError

unfoldable pub take_bits : ℕ → List Bool → Result ReadError (ℕ × List Bool)
take_bits zero bits = success (0, bits)
take_bits (suc n) [] = failure end_of_data
take_bits (suc n) (b ∷ bits) = elim (take_bits n bits) [
  | success (v, rest) ↦ success ((if b then 1 else 0) + 2 * v, rest)
  | failure e ↦ failure e
]

unfoldable pub take_bit : List Bool → Result ReadError (Bool × List Bool)
take_bit [] = failure end_of_data
take_bit (b ∷ bits) = success (b, bits)

-- One byte for each place of the buffer.
unfoldable pub take_bytes : List ℕ → List Bool → Result ReadError (List ℕ × List Bool)
unfolding take_bits
take_bytes [] bits = success ([], bits)
take_bytes (b ∷ bs) bits = elim (take_bits 8 bits) [
  | failure e ↦ failure e
  | success (v, rest) ↦ elim (take_bytes bs rest) [
    | failure e ↦ failure e
    | success (vs, rest') ↦ success (v ∷ vs, rest')
  ]
]

-- Zigzag over eight bits.
unfoldable pub take_signed : List Bool → Result ReadError (ℤ × List Bool)
unfolding take_bits
take_signed bits = elim (take_bits 8 bits) [
  | success (v, rest) ↦ success ((if v % 2 == 0 then pos (v / 2) else negsuc (v / 2)), rest)
  | failure e ↦ failure e
]

unfoldable pub seek_bits : ℤ → List Bool → Result ReadError (List Bool)
unfolding take_bits
seek_bits (pos n) bits = elim (take_bits n bits) [
  | success (v, rest) ↦ success rest
  | failure e ↦ failure e
]
seek_bits (negsuc n) bits = failure end_of_data

abbrev pub byte_bits : ℕ → ℕ → List Bool
byte_bits zero v = []
byte_bits (suc n) v = (v % 2 == 1) ∷ byte_bits n (v / 2)

abbrev pub to_bits : List ℕ → List Bool
to_bits [] = []
to_bits (b ∷ bs) = byte_bits 8 b ++ to_bits bs

-- Whole numbers; a fraction is cut off.
abbrev pub number_floats : Floats
number_floats = record {
  F32 = ℤ;
  F64 = ℤ;
  literal = λ n k. pos (n / 10 ^ k);
  from_bits = λ v. pos v;
  of_ℕ = λ v. pos v;
  of_ℤ = λ v. v;
  to_i32 = λ v. v;
  add = ◌+ℤ◌;
  sub = ◌-ℤ◌;
  mul = ◌*ℤ◌;
  div = λ a b. pos (pos_part a / pos_part b);
  neg = λ a. pos 0 -ℤ a;
  sqrt = λ a. a;
  abs = λ a. pos (pos_part a + neg_part a);
  eq = λ a b. (pos_part a == pos_part b) && (neg_part a == neg_part b);
  lt = ltb_ℤ;
  le = λ a b. not (ltb_ℤ b a);
  of_f32 = λ a. a;
  of_u32 = λ v. pos v;
  to_f32 = λ a. a;
  to_u32 = pos_part;
  mul64 = ◌*ℤ◌;
  div64 = λ a b. pos (pos_part a / pos_part b);
  lt64 = ltb_ℤ;
}

abbrev pub bit_list : Bool → Platform
bit_list checks = record {
  State = List Bool;
  Error = ReadError;
  buffer_too_small = buffer_too_small;
  try_from_int = try_from_int;
  malformed_varint = end_of_data;
  new = to_bits;
  num_bits_left = λ bits. length bits;
  num_bits_read = λ bits. 0;
  read_ubit64 = take_bits;
  read_bool = take_bit;
  read_byte = take_bits 8;
  read_bits = λ buf n bits. failure end_of_data;
  read_bytes = take_bytes;
  is_overflowed = λ bits. success tt;
  seek_relative = seek_bits;
  read_uvarint32 = take_bits 8;
  read_uvarint = take_bits 8;
  read_varint32 = take_signed;
  read_varint64 = take_signed;
  after_failed_ubit64 = λ n s. s;
  after_failed_uvarint32 = λ s. s;
  get_bit_for_bit_num = λ n. 2 ^ n;
  floats = number_floats;
  overflow_checks = checks;
}

abbrev Bounded : ℕ → List Bool → Result ReadError (ℕ × List Bool) → Type 0
Bounded n bits (success (v, rest)) = (v < 2 ^ n) × (length rest + n ≡ length bits)
Bounded n bits (failure e) = Unit {0}

take_bits-Bounded : (n : ℕ) (bits : List Bool) → Bounded n bits (take_bits n bits)
unfolding take_bits
take_bits-Bounded zero bits = omega arith
take_bits-Bounded (suc n) [] = tt
take_bits-Bounded (suc n) (b ∷ bits) = step (take_bits n bits) (take_bits-Bounded n bits)
  where
    step :
        (r : Result ReadError (ℕ × List Bool))
        → Bounded n bits r
        → Bounded (suc n) (b ∷ bits) (elim r [
          | success (v, rest) ↦ success ((if b then 1 else 0) + 2 * v, rest)
          | failure e ↦ failure e
        ])
    step (success (v, rest)) (h, k) = (ground (arith, pow-suc 2 n), omega arith)
    step (failure e) h = tt

take_bits_bounds :
    (n : ℕ) (bits : List Bool) {v : ℕ} {rest : List Bool}
    → take_bits n bits ≡ success (v, rest)
    → (v < 2 ^ n) × (length rest + n ≡ length bits)
take_bits_bounds n bits e = subst (Bounded n bits) e (take_bits-Bounded n bits)

abbrev SignedBounded : List Bool → Result ReadError (ℤ × List Bool) → Type 0
SignedBounded bits (success (v, rest)) =
    (negsuc (2 ^ 31 - 1) ≤ℤ v) × (v ≤ℤ pos (2 ^ 31 - 1)) × (length rest ≤ length bits)
SignedBounded bits (failure e) = Unit {0}

take_signed-Bounded : (bits : List Bool) → SignedBounded bits (take_signed bits)
unfolding take_signed
take_signed-Bounded bits = zigzag (take_bits 8 bits) (take_bits-Bounded 8 bits)
  where
    zigzag :
        (r : Result ReadError (ℕ × List Bool))
        → Bounded 8 bits r
        → SignedBounded bits (elim r [
          | success (v, rest) ↦ success ((if v % 2 == 0 then pos (v / 2) else negsuc (v / 2)), rest)
          | failure e ↦ failure e
        ])
    zigzag (success (v, rest)) (h, k) = ground arith
    zigzag (failure e) h = tt

take_signed_bounds :
    (bits : List Bool) {v : ℤ} {rest : List Bool}
    → take_signed bits ≡ success (v, rest)
    → (negsuc (2 ^ 31 - 1) ≤ℤ v) × (v ≤ℤ pos (2 ^ 31 - 1)) × (length rest ≤ length bits)
take_signed_bounds bits e = subst (SignedBounded bits) e (take_signed-Bounded bits)

take_bit_left :
    (bits : List Bool) {b : Bool} {rest : List Bool}
    → take_bit bits ≡ success (b, rest)
    → length rest + 1 ≡ length bits
unfolding take_bit
take_bit_left [] e = absurd (cc)
take_bit_left (b ∷ bits) {rest = rest} e = let same : bits ≡ rest = cc in rw (← same) (omega arith)

seek_bits_of_take :
    (n : ℕ) (bits : List Bool) {v : ℕ} {rest : List Bool}
    → take_bits n bits ≡ success (v, rest)
    → seek_bits (pos n) bits ≡ success rest
unfolding seek_bits
seek_bits_of_take n bits e = rw (e, seek_bits)

pub bit_list-Documented : (checks : Bool) → Documented (bit_list checks)
bit_list-Documented checks = record {
  read_ubit64_bounds = take_bits_bounds;
  read_bool_left = take_bit_left;
  read_byte_bounds = take_bits_bounds 8;
  read_varint32_bounds = take_signed_bounds;
  seek_relative_of_read = seek_bits_of_take;
}
