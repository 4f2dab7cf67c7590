-- ===== src/Tests/Counted.antt =====
-- A second platform for the tests: the bit list, with the number of bits that were taken.
use haste.Prelude.{
  ℕ, zero, suc, ◌+◌, ◌-◌, ◌*◌, if◌then◌else◌, ◌^◌, ◌≤◌, ◌≡◌, refl, arith, Bool, List, [], ◌∷◌,
  length, subst, sym,
}
use haste.Prelude.Int.{ℤ, pos, negsuc}
use haste.Outcome.{Result, success, failure}
use haste.Platform.{Platform, Documented, Positions, Advances}
use haste.Tests.BitList.{
  ReadError, end_of_data, buffer_too_small, try_from_int, number_floats, bit_list,
  bit_list-Documented, take_bits, take_bit, take_bytes, take_signed, to_bits,
}

abbrev State : Type 0
State = ℕ × List Bool

abbrev count :
    {A : Type 0}
    → (List Bool → Result ReadError (A × List Bool))
    → State
    → Result ReadError (A × State)
count read (n, bits) = elim (read bits) [
  | success (v, rest) ↦ success (v, (n + (length bits - length rest), rest))
  | failure e ↦ failure e
]

abbrev rest_of : ℕ → List Bool → Result ReadError (List Bool)
rest_of zero bits = success bits
rest_of (suc n) [] = failure end_of_data
rest_of (suc n) (b ∷ bits) = rest_of n bits

abbrev seek : ℤ → State → Result ReadError State
seek (pos m) (n, bits) = elim (rest_of m bits) [
  | success rest ↦ success (n + (length bits - length rest), rest)
  | failure e ↦ failure e
]
seek (negsuc m) s = failure end_of_data

-- At most eight bits, into the first byte of the buffer.
abbrev fill_first : List ℕ → ℕ → List Bool → Result ReadError (List ℕ × List Bool)
fill_first [] n bits = failure buffer_too_small
fill_first (b ∷ buf) n bits = elim (take_bits n bits) [
  | success (v, rest) ↦ success (v ∷ buf, rest)
  | failure e ↦ failure e
]

abbrev pub counted : Bool → Platform
counted checks = record {
  State = State;
  Error = ReadError;
  buffer_too_small = buffer_too_small;
  try_from_int = try_from_int;
  malformed_varint = end_of_data;
  new = λ bytes. (0, to_bits bytes);
  num_bits_left = λ s. length s.1;
  num_bits_read = λ s. s.0;
  read_ubit64 = λ n. count (take_bits n);
  read_bool = count take_bit;
  read_byte = count (take_bits 8);
  read_bits = λ buf n. count (fill_first buf n);
  read_bytes = λ buf. count (take_bytes buf);
  is_overflowed = λ s. success tt;
  seek_relative = seek;
  read_uvarint32 = count (take_bits 8);
  read_uvarint = count (take_bits 8);
  read_varint32 = count take_signed;
  read_varint64 = count take_signed;
  after_failed_ubit64 = λ n s. s;
  after_failed_uvarint32 = λ s. s;
  get_bit_for_bit_num = λ n. 2 ^ n;
  floats = number_floats;
  overflow_checks = checks;
}

-- What was read from the list.
count_of :
    {A : Type 0} (read : List Bool → Result ReadError (A × List Bool)) (s : State) {v : A}
    {s' : State}
    → count read s ≡ success (v, s')
    → (read s.1 ≡ success (v, s'.1)) × (s'.0 ≡ s.0 + (length s.1 - length s'.1))
count_of {A} read (n, bits) {v} {s'} e = at_result (read bits) e
  where
    at_result :
        (r : Result ReadError (A × List Bool))
        → count (λ b. r) (n, bits) ≡ success (v, s')
        → (r ≡ success (v, s'.1)) × (s'.0 ≡ n + (length bits - length s'.1))
    at_result (success (w, rest)) e =
        let same : w ≡ v = cc in
        let behind : ◌≡◌ {A = State} (n + (length bits - length rest), rest) s' = cc in
        rw (← same, ← behind) (refl, refl)
    at_result (failure x) e = absurd (cc)

-- A read that takes bits from the list advances.
Advances-count :
    {A : Type 0} (checks : Bool) (read : List Bool → Result ReadError (A × List Bool)) (s : State)
    {v : A} {s' : State}
    → (read s.1 ≡ success (v, s'.1) → length s'.1 ≤ length s.1)
    → count read s ≡ success (v, s')
    → Advances (counted checks) s s'
Advances-count checks read s fewer e =
    let (r, n) = count_of read s e in let le = fewer r in (le, rw n (omega arith))

-- The part of a read that a seek repeats.
abbrev IsRest : {A : Type 0} → ℕ → List Bool → Result ReadError (A × List Bool) → Type 0
IsRest n bits (success (v, rest)) = rest_of n bits ≡ success rest
IsRest n bits (failure e) = Unit {0}

take_bits-IsRest : (n : ℕ) (bits : List Bool) → IsRest n bits (take_bits n bits)
unfolding take_bits
take_bits-IsRest zero bits = refl
take_bits-IsRest (suc n) [] = tt
take_bits-IsRest (suc n) (b ∷ bits) = step (take_bits n bits) (take_bits-IsRest n bits)
  where
    step :
        (r : Result ReadError (ℕ × List Bool))
        → IsRest n bits r
        → IsRest (suc n) (b ∷ bits) (elim r [
          | success (v, rest) ↦ success ((if b then 1 else 0) + 2 * v, rest)
          | failure e ↦ failure e
        ])
    step (success (v, rest)) h = h
    step (failure e) h = tt

rest_of_read :
    {A : Type 0} (n : ℕ) (bits : List Bool) (r : Result ReadError (A × List Bool)) {v : A}
    {rest : List Bool}
    → IsRest n bits r
    → r ≡ success (v, rest)
    → rest_of n bits ≡ success rest
rest_of_read n bits r h e = subst (IsRest n bits) e h

rest_of_again :
    (m n : ℕ) (bits : List Bool) {middle rest : List Bool}
    → rest_of m bits ≡ success middle
    → rest_of n middle ≡ success rest
    → rest_of (m + n) bits ≡ success rest
rest_of_again zero n bits {middle} e r =
    let same : bits ≡ middle = cc in let sum : 0 + n ≡ n = omega arith in rw (sum, same) r
rest_of_again (suc m) n [] e r = absurd (cc)
rest_of_again (suc m) n (b ∷ bits) e r =
    let sum : suc m + n ≡ suc (m + n) = omega arith in rw sum (rest_of_again m n bits e r)

rest_of_fewer :
    (n : ℕ) (bits : List Bool) {rest : List Bool}
    → rest_of n bits ≡ success rest
    → length rest + n ≡ length bits
rest_of_fewer zero bits {rest} e = let same : bits ≡ rest = cc in rw same (omega arith)
rest_of_fewer (suc n) [] e = absurd (cc)
rest_of_fewer (suc n) (b ∷ bits) e = omega (arith, rest_of_fewer n bits e)

take_bytes-IsRest :
    (buf : List ℕ) (bits : List Bool) → IsRest (8 * length buf) bits (take_bytes buf bits)
unfolding take_bytes
take_bytes-IsRest [] bits = refl
take_bytes-IsRest (b ∷ bs) bits =
    first (take_bits 8 bits) (take_bits-IsRest 8 bits) (λ rest. take_bytes-IsRest bs rest)
  where
    second :
        (v : ℕ) (middle : List Bool)
        → rest_of 8 bits ≡ success middle
        → (r : Result ReadError (List ℕ × List Bool)) → IsRest (8 * length bs) middle r
        → IsRest
            (8 * length (b ∷ bs))
            bits
            (elim r [ failure e ↦ failure e | success (vs, rest') ↦ success (v ∷ vs, rest') ])
    second v middle e (success (vs, rest)) h =
        let sum : 8 * length (b ∷ bs) ≡ 8 + 8 * length bs = omega arith in
        rw sum (rest_of_again 8 (8 * length bs) bits e h)
    second v middle e (failure x) h = tt

    first :
        (r : Result ReadError (ℕ × List Bool))
        → IsRest 8 bits r
        → ((rest : List Bool) → IsRest (8 * length bs) rest (take_bytes bs rest))
        → IsRest (8 * length (b ∷ bs)) bits (elim r [
          | failure e ↦ failure e
          | success (v, rest) ↦ elim (take_bytes bs rest) [
            | failure e ↦ failure e
            | success (vs, rest') ↦ success (v ∷ vs, rest')
          ]
        ])
    first (success (v, middle)) e ih = second v middle e (take_bytes bs middle) (ih middle)
    first (failure x) e ih = tt

take_bit-IsRest : (bits : List Bool) → IsRest 1 bits (take_bit bits)
unfolding take_bit
take_bit-IsRest [] = tt
take_bit-IsRest (b ∷ bits) = refl

seek_of_rest :
    (m : ℕ) (s s' : State)
    → rest_of m s.1 ≡ success s'.1
    → s'.0 ≡ s.0 + (length s.1 - length s'.1)
    → seek (pos m) s ≡ success s'
seek_of_rest m (n, bits) (n', rest) e k =
    subst
      (λ (r : Result ReadError (List Bool)).
        ◌≡◌ {A = Result ReadError State}
          (elim r [
            | success rest ↦ success (n + (length bits - length rest), rest)
            | failure e ↦ failure e
          ])
          (success (n', rest)))
      (sym e) (rw (← k) refl)

-- A seek goes where a read goes that takes as many bits.
seek_of_count :
    {A : Type 0} (m : ℕ) (read : List Bool → Result ReadError (A × List Bool)) (s : State) {v : A}
    {s' : State}
    → IsRest m s.1 (read s.1)
    → count read s ≡ success (v, s')
    → seek (pos m) s ≡ success s'
seek_of_count m read s {v} {s'} h e =
    let (r, n) = count_of read s e in seek_of_rest m s s' (rest_of_read m s.1 (read s.1) h r) n

-- And the bits that are left say so.
left_of_count :
    {A : Type 0} (m : ℕ) (read : List Bool → Result ReadError (A × List Bool)) (s : State) {v : A}
    {s' : State}
    → IsRest m s.1 (read s.1)
    → count read s ≡ success (v, s')
    → length s'.1 + m ≡ length s.1
left_of_count m read s h e =
    let (r, n) = count_of read s e in rest_of_fewer m s.1 (rest_of_read m s.1 (read s.1) h r)

Advances-of_count :
    {A : Type 0} (checks : Bool) (m : ℕ) (read : List Bool → Result ReadError (A × List Bool))
    (s : State) {v : A} {s' : State}
    → IsRest m s.1 (read s.1)
    → count read s ≡ success (v, s')
    → Advances (counted checks) s s'
Advances-of_count checks m read s h e =
    let (r, n) = count_of read s e in
    let left = left_of_count m read s h e in (omega arith, rw n (omega arith))

seek_of :
    (m : ℕ) (s : State) {s' : State}
    → seek (pos m) s ≡ success s'
    → (rest_of m s.1 ≡ success s'.1) × (s'.0 ≡ s.0 + (length s.1 - length s'.1))
seek_of m (n, bits) {s'} e = at_result (rest_of m bits) e
  where
    at_result :
        (r : Result ReadError (List Bool))
        → ◌≡◌ {A = Result ReadError State}
            (elim r [
              | success rest ↦ success (n + (length bits - length rest), rest)
              | failure x ↦ failure x
            ])
            (success s')
        → (r ≡ success s'.1) × (s'.0 ≡ n + (length bits - length s'.1))
    at_result (success rest) e =
        let behind : ◌≡◌ {A = State} (n + (length bits - length rest), rest) s' = cc in
        rw (← behind) (refl, refl)
    at_result (failure x) e = absurd (cc)

seek_again :
    (m n : ℕ) (s : State) {s' s'' : State}
    → seek (pos m) s ≡ success s'
    → seek (pos n) s' ≡ success s''
    → seek (pos (m + n)) s ≡ success s''
seek_again m n s {s'} {s''} e r =
    let (x, k) = seek_of m s e in
    let (x', k') = seek_of n s' r in
    let fewer = rest_of_fewer m s.1 x in
    let fewer' = rest_of_fewer n s'.1 x' in
    seek_of_rest (m + n) s s'' (rest_of_again m n s.1 x x') (rw (k', k) (omega arith))

zigzag-fewer :
    (checks : Bool) (bits rest : List Bool) {v : ℤ}
    → take_signed bits ≡ success (v, rest)
    → length rest ≤ length bits
zigzag-fewer checks bits rest e = ((bit_list-Documented checks).read_varint32_bounds bits e).2

pub counted-Documented : (checks : Bool) → Documented (counted checks)
counted-Documented checks = record {
  read_ubit64_bounds = λ n s e. d.read_ubit64_bounds n s.1 (count_of (take_bits n) s e).0;
  read_bool_left = λ s e. d.read_bool_left s.1 (count_of take_bit s e).0;
  read_byte_bounds = λ s e. d.read_byte_bounds s.1 (count_of (take_bits 8) s e).0;
  read_varint32_bounds = λ s e. d.read_varint32_bounds s.1 (count_of take_signed s e).0;
  seek_relative_of_read = λ n s e. seek_of_count n (take_bits n) s (take_bits-IsRest n s.1) e;
}
  where
    d : Documented (bit_list checks)
    d = bit_list-Documented checks

pub counted-Positions : (checks : Bool) → Positions (counted checks)
counted-Positions checks = record {
  read_ubit64_advances =
      λ n s e. Advances-of_count checks n (take_bits n) s (take_bits-IsRest n s.1) e;
  read_bool_advances = λ s e. Advances-of_count checks 1 take_bit s (take_bit-IsRest s.1) e;
  read_byte_advances = byte_advances;
  read_bytes_advances = λ buf s e. (
    Advances-of_count checks (8 * length buf) (take_bytes buf) s (take_bytes-IsRest buf s.1) e,
    left_of_count (8 * length buf) (take_bytes buf) s (take_bytes-IsRest buf s.1) e,
  );
  read_uvarint32_advances = byte_advances;
  read_uvarint_advances = byte_advances;
  read_varint64_advances = signed_advances;
  seek_relative_of_bool = λ s e. seek_of_count 1 take_bit s (take_bit-IsRest s.1) e;
  seek_relative_of_bytes =
      λ buf s e. seek_of_count (8 * length buf) (take_bytes buf) s (take_bytes-IsRest buf s.1) e;
  seek_relative_none = λ s. seek_of_rest 0 s s refl (omega arith);
  seek_relative_again = seek_again;
}
  where
    byte_advances :
        (s : State) {v : ℕ} {s' : State}
        → count (take_bits 8) s ≡ success (v, s')
        → Advances (counted checks) s s'
    byte_advances s e = Advances-of_count checks 8 (take_bits 8) s (take_bits-IsRest 8 s.1) e

    signed_advances :
        (s : State) {v : ℤ} {s' : State}
        → count take_signed s ≡ success (v, s')
        → Advances (counted checks) s s'
    signed_advances s {v} {s'} e =
        Advances-count checks take_signed s (λ r. zigzag-fewer checks s.1 s'.1 r) e
