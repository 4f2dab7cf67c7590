-- ===== src/QuantizedFloat/Bits.antt =====
-- The bits of a quantized float that `QuantizedFloat::new` of
-- crates/haste_core/src/quantizedfloat.rs makes, in a build with overflow checks.
use haste.Prelude.{
  ℕ, zero, suc, ◌+◌, ◌^◌, ◌≤◌, ◌<◌, ◌≡◌, refl, ◌∙◌, arith, Bool, true, false, ◌&&◌, List, [], ◌∷◌,
  if◌then◌else◌, ltb, ltb→lt, Bool-cases, inl, inr, ◌==◌, bit_and,
}
use haste.Prelude.Int.{ℤ, pos, negsuc, ltb_ℤ, ◌-ℤ◌}
use haste.Outcome.{Outcome, ok, err, panic, stuck, ◌>>=◌}
use haste.Platform.{Floats}
use haste.Machine.{as_i32, fits_i32}
use haste.QuantizedFloat.{
  QuantizedFloatError, QuantizedFloat, has, without, num_bits_for_count, compute_encode_flags,
  verify, squeeze, multipliers, high_count, assign_range_multiplier, too_high, shl_one, sub_i32,
  grow, integer_steps, remove_if, remove_flags, exact_at, quantize, zero_f, qfe_rounddown,
  qfe_roundup, qfe_encode_zero_exactly, qfe_encode_integers_exactly, finish, new_of, new,
}

-- It ends, and a value has the property.
abbrev pub EndsIn : {A : Type 0} → (A → Type 0) → Outcome QuantizedFloatError A → Type 0
EndsIn Q (ok a) = Q a
EndsIn Q (err e) = Unit {0}
EndsIn Q panic = Unit {0}
EndsIn Q stuck = ⊥

EndsIn-bind :
    {A B : Type 0} (P : A → Type 0) (Q : B → Type 0) (m : Outcome QuantizedFloatError A)
    (k : A → Outcome QuantizedFloatError B)
    → EndsIn P m
    → ((a : A) → P a → EndsIn Q (k a))
    → EndsIn Q (m >>= k)
EndsIn-bind P Q (ok a) k h f = f a h
EndsIn-bind P Q (err e) k h f = tt
EndsIn-bind P Q panic k h f = tt
EndsIn-bind P Q stuck k h f = absurd h

EndsIn-if :
    {A : Type 0} (Q : A → Type 0) (b : Bool) (m n : Outcome QuantizedFloatError A)
    → (b ≡ true → EndsIn Q m)
    → (b ≡ false → EndsIn Q n)
    → EndsIn Q (if b then m else n)
EndsIn-if Q true m n h k = h refl
EndsIn-if Q false m n h k = k refl

EndsIn-weaken :
    {A : Type 0} (P Q : A → Type 0) (m : Outcome QuantizedFloatError A)
    → EndsIn P m
    → ((a : A) → P a → Q a)
    → EndsIn Q m
EndsIn-weaken P Q (ok a) h f = f a h
EndsIn-weaken P Q (err e) h f = tt
EndsIn-weaken P Q panic h f = tt
EndsIn-weaken P Q stuck h f = h

abbrev Any : {A : Type 0} → A → Type 0
Any a = Unit {0}

-- A shift that succeeds shifts by less than 32.
shl_one-EndsIn : (n : ℕ) → EndsIn (λ v. (n < 32) × (v ≡ as_i32 (2 ^ n))) (shl_one true n)
shl_one-EndsIn n =
    EndsIn-if _ (ltb n 32) (ok (as_i32 (2 ^ n))) panic (λ h. (ltb→lt n 32 h, refl)) (λ _. tt)

sub_i32-EndsIn : (a b : ℤ) → EndsIn (λ v. fits_i32 (a -ℤ b) ≡ true) (sub_i32 true a b)
sub_i32-EndsIn a b = EndsIn-if _ (fits_i32 (a -ℤ b)) (ok (a -ℤ b)) panic (λ h. h) (λ _. tt)

grow-EndsIn :
    (fuel bc : ℕ) (range : ℤ)
    → bc ≤ 32
    → 33 ≤ fuel + bc
    → EndsIn (λ b. (bc ≤ b) × (b < 32)) (grow fuel true bc range)
unfolding grow
grow-EndsIn zero bc range h k = absurd (omega arith)
grow-EndsIn (suc fuel) bc range h k =
    EndsIn-bind (λ v. (bc < 32) × (v ≡ as_i32 (2 ^ bc))) _ (shl_one true bc) _ (shl_one-EndsIn bc)
      (λ power (small, e).
        EndsIn-if _ (ltb_ℤ power range) (grow fuel true (bc + 1) range) (ok bc)
          (λ _.
            wider (grow fuel true (bc + 1) range)
              (grow-EndsIn fuel (bc + 1) range (omega arith) (omega arith)))
          (λ _. (omega arith, small)))
  where
    wider :
        (r : Outcome QuantizedFloatError ℕ)
        → EndsIn (λ b. (bc + 1 ≤ b) × (b < 32)) r
        → EndsIn (λ b. (bc ≤ b) × (b < 32)) r
    wider (ok b) (x, y) = (omega arith, y)
    wider (err e) x = tt
    wider panic x = tt
    wider stuck x = x

-- The bits and the steps that belong to them.
abbrev StepsFit : {A : Type 0} → ℕ → ℕ × ℤ × A → Type 0
StepsFit asked (bit_count, steps, high) =
    (asked ≤ bit_count) × (bit_count < 32) × (steps ≡ as_i32 (2 ^ bit_count))

module _ (f : Floats) where
  integer_steps-EndsIn :
      (n : ℕ) (steps : ℤ) (low high : f.F32)
      → n < 32
      → steps ≡ as_i32 (2 ^ n)
      → EndsIn (StepsFit n) (integer_steps f true n steps low high)
  unfolding integer_steps
  integer_steps-EndsIn n steps low high small fits =
      EndsIn-bind _ (StepsFit {A = f.F32} n) (sub_i32 true (f.to_i32 low) (f.to_i32 high)) _
        (sub_i32-EndsIn _ _)
        (λ difference _.
          of_range (num_bits_for_count (if ltb_ℤ difference (pos 1) then pos 1 else difference)))
    where
      choose :
          (bc : ℕ) (range : ℤ)
          → n ≤ bc
          → bc < 32
          → (more : Bool) → ltb n bc ≡ more
          → EndsIn (StepsFit n) (
              (if more then shl_one true bc else ok steps) >>= λ steps'. ok (
                (if more then bc else n),
                steps',
                f.sub (f.add low (f.of_ℤ range)) (f.div (f.of_ℤ range) (f.of_ℤ steps')),
              ))
      choose bc range x y true e =
          EndsIn-bind _ (StepsFit n) (shl_one true bc) _ (shl_one-EndsIn bc)
            (λ steps' (z, same). (omega arith, y, same))
      choose bc range x y false e = (omega arith, small, fits)

      of_bits :
          (range : ℤ)
          → EndsIn (StepsFit {A = f.F32} n) (
              grow 64 true n range >>= λ bc.
              (if ltb n bc then shl_one true bc else ok steps) >>= λ steps'. ok (
                (if ltb n bc then bc else n),
                steps',
                f.sub (f.add low (f.of_ℤ range)) (f.div (f.of_ℤ range) (f.of_ℤ steps')),
              ))
      of_bits range =
          EndsIn-bind (λ bc. (n ≤ bc) × (bc < 32)) (StepsFit {A = f.F32} n) (grow 64 true n range) _
            (grow-EndsIn 64 n range (omega arith) (omega arith))
            (λ bc (x, y). choose bc range x y (ltb n bc) refl)

      of_range :
          (k : ℕ)
          → EndsIn (StepsFit {A = f.F32} n) (
              shl_one true k >>= λ range. grow 64 true n range >>= λ bc.
              (if ltb n bc then shl_one true bc else ok steps) >>= λ steps'. ok (
                (if ltb n bc then bc else n),
                steps',
                f.sub (f.add low (f.of_ℤ range)) (f.div (f.of_ℤ range) (f.of_ℤ steps')),
              ))
      of_range k =
          EndsIn-bind (λ v. (k < 32) × (v ≡ as_i32 (2 ^ k))) (StepsFit {A = f.F32} n)
            (shl_one true k) _ (shl_one-EndsIn k) (λ range _. of_bits range)

  verify-EndsIn : (efs : ℕ) → EndsIn Any (verify efs efs)
  verify-EndsIn efs = EndsIn-if Any (bit_and efs 3 == 3) _ _ (λ _. tt) (λ _. tt)

  compute_encode_flags-EndsIn :
      (efs : ℕ) (low high : f.F32) → EndsIn Any (compute_encode_flags f efs low high)
  unfolding compute_encode_flags
  compute_encode_flags-EndsIn efs low high =
      EndsIn-if Any (efs == 0) (ok 0) _ (λ _. tt) (λ _. verify-EndsIn _)

  squeeze-EndsIn :
      (ms : List f.F32) (high : ℕ) (range : f.F64) → EndsIn Any (squeeze f ms high range)
  unfolding squeeze
  squeeze-EndsIn [] high range = tt
  squeeze-EndsIn (m ∷ ms) high range =
      EndsIn-if Any (too_high f high range _) (squeeze f ms high range) (ok _)
        (λ _. squeeze-EndsIn ms high range) (λ _. tt)

  high_count-EndsIn : (n : ℕ) → EndsIn Any (high_count f true n)
  high_count-EndsIn n =
      EndsIn-if Any (n == 32) _ _ (λ _. tt)
        (λ _. EndsIn-if Any (ltb n 32) _ panic (λ _. tt) (λ _. tt))

  assign_range_multiplier-EndsIn :
      (n : ℕ) (range : f.F64) → EndsIn Any (assign_range_multiplier f true n range)
  unfolding assign_range_multiplier
  assign_range_multiplier-EndsIn n range =
      EndsIn-bind Any Any (high_count f true n) _ (high_count-EndsIn n) (λ high _.
        EndsIn-if Any (too_high f high range _) (squeeze f (multipliers f) high range) (ok _)
          (λ _. squeeze-EndsIn (multipliers f) high range) (λ _. tt))

  bit_count-remove_if :
      (flag : ℕ) (test : QuantizedFloat f → Bool) (qf : QuantizedFloat f)
      → (remove_if flag test qf).bit_count ≡ qf.bit_count
  bit_count-remove_if flag test qf = either (has qf.encode_flags flag && test qf)
    where
      either :
          (b : Bool)
          → (if b then record qf { encode_flags = without qf.encode_flags flag } else qf).bit_count
            ≡ qf.bit_count
      either true = refl
      either false = refl

  bit_count-remove_flags : (qf : QuantizedFloat f) → (remove_flags qf).bit_count ≡ qf.bit_count
  unfolding quantize
  bit_count-remove_flags qf =
      let q1 = remove_if qfe_rounddown (λ q. exact_at q q.low_value) qf in
      let q2 = remove_if qfe_roundup (λ q. exact_at q q.high_value) q1 in
      bit_count-remove_if qfe_encode_zero_exactly (λ q. f.eq (quantize q (zero_f f)) (zero_f f)) q2
      ∙ bit_count-remove_if qfe_roundup (λ q. exact_at q q.high_value) q1
      ∙ bit_count-remove_if qfe_rounddown (λ q. exact_at q q.low_value) qf

  -- At least as many bits as are asked for, and at most 30.
  abbrev pub BitsFit : ℕ → QuantizedFloat f → Type 0
  BitsFit n qf = (n ≤ qf.bit_count) × (qf.bit_count < 31)

  -- The number of bits that is asked for is positive, and the bits fit it.
  abbrev pub BitsAsked : ℤ → QuantizedFloat f → Type 0
  BitsAsked (pos n) qf = (0 < n) × (n ≤ qf.bit_count) × (qf.bit_count < 31)
  BitsAsked (negsuc n) qf = ⊥

  pub BitsAsked-below : (asked : ℤ) (qf : QuantizedFloat f) → BitsAsked asked qf → qf.bit_count < 31
  BitsAsked-below (pos n) qf (_, _, small) = small
  BitsAsked-below (negsuc n) qf h = absurd h

  -- 2 ^ 31 is no i32, and one less than what stands for it is none either.
  thirty_one : (n : ℕ) → n < 32 → fits_i32 (as_i32 (2 ^ n) -ℤ pos 1) ≡ true → n < 31
  unfolding ◌-ℤ◌
  thirty_one n h e = elim (Bool-cases (n == 31)) [
    | inl top ↦ let same : n ≡ 31 = ground arith in absurd (impossible (rw same at e))
    | inr below ↦ ground arith
  ]
    where
      impossible : fits_i32 (as_i32 (2 ^ 31) -ℤ pos 1) ≡ true → ⊥
      impossible e = absurd (cc)

  finish-EndsIn :
      (asked efs : ℕ) (low : f.F32) (r : ℕ × ℤ × f.F32)
      → StepsFit asked r
      → EndsIn (BitsFit asked) (finish true efs low r)
  finish-EndsIn asked efs low (n, steps, high) (enough, small, same) =
      EndsIn-bind Any (BitsFit asked) (assign_range_multiplier f true n (f.of_f32 (f.sub high low)))
        _ (assign_range_multiplier-EndsIn n _)
        (λ mul _.
          EndsIn-bind (λ v. fits_i32 (steps -ℤ pos 1) ≡ true) (BitsFit asked)
            (sub_i32 true steps (pos 1)) _ (sub_i32-EndsIn steps (pos 1))
            (λ divisor e. bits_fit (made mul divisor) refl (thirty_one n small (rw same at e))))
    where
      made : f.F32 → ℤ → QuantizedFloat f
      made mul divisor = record {
        bit_count = n;
        encode_flags = efs;
        low_value = low;
        high_value = high;
        high_low_mul = mul;
        decode_mul = f.div (f.literal 1 0) (f.of_ℤ divisor);
      }

      bits_fit :
          (qf : QuantizedFloat f) → qf.bit_count ≡ n → n < 31 → BitsFit asked (remove_flags qf)
      bits_fit qf e h =
          (omega (arith, bit_count-remove_flags qf), omega (arith, bit_count-remove_flags qf))

  new_of-EndsIn :
      (n efs : ℕ) (low high : f.F32) → n < 32 → EndsIn (BitsFit n) (new_of true n efs low high)
  new_of-EndsIn n efs low high small =
      EndsIn-bind Any (BitsFit n) (compute_encode_flags f efs low high) _
        (compute_encode_flags-EndsIn efs low high)
        (λ efs' _.
          EndsIn-bind (λ v. (n < 32) × (v ≡ as_i32 (2 ^ n))) (BitsFit n) (shl_one true n) _
            (shl_one-EndsIn n)
            (λ steps (h, same).
              EndsIn-bind (StepsFit {A = f.F32} n) (BitsFit n)
                (if has efs' qfe_encode_integers_exactly
                  then integer_steps f true n steps (low_of efs' steps) (high_of efs' steps)
                  else ok (n, steps, high_of efs' steps))
                _
                (EndsIn-if (StepsFit {A = f.F32} n) (has efs' qfe_encode_integers_exactly) _ _
                  (λ _.
                    integer_steps-EndsIn n steps (low_of efs' steps) (high_of efs' steps) small
                      same)
                  (λ _. (omega arith, small, same)))
                (λ r fits. finish-EndsIn n efs' (low_of efs' steps) r fits)))
    where
      high_of : ℕ → ℤ → f.F32
      high_of e steps =
          if has e qfe_rounddown then f.sub high (f.div (f.sub high low) (f.of_ℤ steps)) else high

      low_of : ℕ → ℤ → f.F32
      low_of e steps =
          if has e qfe_rounddown
          then low
          else if has e qfe_roundup
          then f.add low (f.div (f.sub high low) (f.of_ℤ steps))
          else low

  -- In a build with overflow checks `QuantizedFloat::new` ends on every input, with any floats. If it
  -- succeeds, a positive number of bits was asked for, and the quantized float has at least that many
  -- bits and at most 30; so with 31 bits, which its assertion lets pass, it never succeeds.
  pub new-EndsIn :
      (bit_count : ℤ) (encode_flags : ℕ) (low_value high_value : f.F32)
      → EndsIn (BitsAsked bit_count) (new true bit_count encode_flags low_value high_value)
  unfolding new
  new-EndsIn (negsuc n) efs low high = tt
  new-EndsIn (pos n) efs low high =
      EndsIn-if (BitsAsked (pos n)) (ltb 0 n && ltb n 32) (new_of true n efs low high) panic
        (λ h.
          EndsIn-weaken (BitsFit n) (BitsAsked (pos n)) (new_of true n efs low high)
            (new_of-EndsIn n efs low high (ground arith))
            (λ qf fits. (ground arith, fits.0, fits.1)))
        (λ _. tt)
