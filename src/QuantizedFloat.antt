-- ===== src/QuantizedFloat.antt =====
-- crates/haste_core/src/quantizedfloat.rs. The flags are an i32 that is used as a set of bits: here
-- the number with these 32 bits.
pub mod Skips
pub mod Flags
pub mod Bits
use haste.Prelude.{
  ℕ, zero, suc, ◌+◌, ◌-◌, ◌*◌, ◌%◌, ◌/◌, ◌^◌, ◌≡◌, Bool, true, false, ◌&&◌, ◌||◌, not, List, [],
  ◌∷◌, bit_and, bit_or, ltb, leb, ◌==◌, if◌then◌else◌,
}
use haste.Prelude.Int.{ℤ, pos, negsuc, ltb_ℤ, ◌-ℤ◌}
use haste.Outcome.{Outcome, ok, err, panic, stuck, ◌>>=◌ as bind}
use haste.Platform.{Platform, Floats}
use haste.BitReader.{
  BitReader, Read, ◌>>=◌, ◌>>◌, pure, read_ubit64, read_bool, skip_bits as skip_reader_bits,
}
use haste.Machine.{as_i32, wrap_i32, fits_i32}

pub data QuantizedFloatError : Type 0 where
  invalid_encode_flags invalid_range : QuantizedFloatError

abbrev pub qfe_rounddown : ℕ
qfe_rounddown = 1

abbrev pub qfe_roundup : ℕ
qfe_roundup = 2

abbrev pub qfe_encode_zero_exactly : ℕ
qfe_encode_zero_exactly = 4

abbrev pub qfe_encode_integers_exactly : ℕ
qfe_encode_integers_exactly = 8

-- `efs & flag != 0`, and `efs & !flag` of an i32.
abbrev pub has : ℕ → ℕ → Bool
has efs flag = not (bit_and efs flag == 0)

abbrev pub without : ℕ → ℕ → ℕ
without efs flag = bit_and efs (2 ^ 32 - 1 - flag)

-- "Discard zero flag when encoding min / max set to 0", where `low` and `high` say which is 0.
abbrev pub discard_zero : Bool → Bool → ℕ → ℕ
discard_zero low high efs =
    if (low && has efs qfe_rounddown) || (high && has efs qfe_roundup)
    then without efs qfe_encode_zero_exactly
    else efs

-- "switch to round up / round down instead"
abbrev pub switch_to : Bool → ℕ → ℕ → ℕ
switch_to is_zero round efs =
    if is_zero && has efs qfe_encode_zero_exactly
    then without (bit_or efs round) qfe_encode_zero_exactly
    else efs

-- "If the range doesn't span across zero"
abbrev pub needs_span : Bool → ℕ → ℕ
needs_span spans efs = if not spans then without efs qfe_encode_zero_exactly else efs

-- "only leave integer flag": the mask is QFE_ROUNDUP | QFE_ROUNDDOWN | QFE_ENCODE_ZERO_EXACTLY.
abbrev pub only_integers : ℕ → ℕ
only_integers efs = if has efs qfe_encode_integers_exactly then without efs 7 else efs

-- "Verify that we don't have roundup / rounddown set"
abbrev pub verify : {A : Type 0} → ℕ → A → Outcome QuantizedFloatError A
verify efs a = if bit_and efs 3 == 3 then err invalid_encode_flags else ok a

-- The flags, for the four comparisons with zero.
abbrev pub flags_for : Bool → Bool → Bool → ℕ → ℕ
flags_for low high spans efs = only_integers (
    needs_span spans
      (switch_to high qfe_roundup (switch_to low qfe_rounddown (discard_zero low high efs))))

module _ (f : Floats) where
  abbrev pub zero_f : f.F32
  zero_f = f.literal 0 0

  unfoldable pub compute_encode_flags : ℕ → f.F32 → f.F32 → Outcome QuantizedFloatError ℕ
  compute_encode_flags encode_flags low_value high_value =
      if encode_flags == 0
      then ok 0
      else (let efs =
            flags_for (f.eq low_value zero_f) (f.eq high_value zero_f)
              (f.lt low_value zero_f && f.lt zero_f high_value) encode_flags in
          verify efs efs)

  abbrev pub close_enough : f.F32 → f.F32 → f.F32 → Bool
  close_enough a b epsilon = f.le (f.abs (f.sub a b)) epsilon

  -- Whether the multiplier takes the range above `high_value`.
  abbrev pub too_high : ℕ → f.F64 → f.F32 → Bool
  too_high high_value range mul =
      let product = f.mul64 (f.of_f32 mul) range in
      ltb high_value (f.to_u32 product) || f.lt64 (f.of_u32 high_value) product

  -- `(f64::from(high_value) / range) as f32`
  abbrev pub quotient : ℕ → f.F64 → f.F32
  quotient high_value range = f.to_f32 (f.div64 (f.of_u32 high_value) range)

  abbrev pub multipliers : List f.F32
  multipliers =
      f.literal 9999 4 ∷ f.literal 99 2 ∷ f.literal 9 1 ∷ f.literal 8 1 ∷ f.literal 7 1 ∷ []

  -- The loop over the multipliers: the first that is not too high.
  unfoldable pub squeeze : List f.F32 → ℕ → f.F64 → Outcome QuantizedFloatError f.F32
  squeeze [] high_value range = err invalid_range
  squeeze (m ∷ ms) high_value range =
      let mul = f.mul (quotient high_value range) m in
      let rest = squeeze ms high_value range in
      if too_high high_value range mul then rest else ok mul

  -- `(1 << bit_count) - 1` in u32, or the exception for 32 bits.
  abbrev pub high_count : Bool → ℕ → Outcome QuantizedFloatError ℕ
  high_count checks bit_count =
      if bit_count == 32
      then ok (2 ^ 32 - 2)
      else if ltb bit_count 32
      then ok (2 ^ bit_count - 1)
      else if checks
      then panic
      else ok (2 ^ (bit_count % 32) - 1)

  unfoldable pub assign_range_multiplier : Bool → ℕ → f.F64 → Outcome QuantizedFloatError f.F32
  unfolding squeeze
  assign_range_multiplier checks bit_count range = bind (high_count checks bit_count) (λ high_value.
      let mul =
        if close_enough (f.to_f32 range) zero_f (f.literal 1 3)
        then f.of_ℕ high_value
        else quotient high_value range in
      if too_high high_value range mul then squeeze multipliers high_value range else ok mul)

-- The loop of `num_bits_for_count`, of an i32 that is at least 0; a number below 2 ^ fuel takes at
-- most `fuel` rounds.
unfoldable pub count_bits : ℕ → ℕ → ℕ
count_bits zero n = 0
count_bits (suc fuel) n = let rest = count_bits fuel (n / 2) in if n == 0 then 0 else 1 + rest

abbrev pub num_bits_for_count : ℤ → ℕ
num_bits_for_count (pos n) = count_bits 31 n
num_bits_for_count (negsuc n) = 0

pub record QuantizedFloat (f : Floats) : Type 0 where
  pub bit_count : ℕ
  pub encode_flags : ℕ
  pub low_value : f.F32
  pub high_value : f.F32
  pub high_low_mul : f.F32
  pub decode_mul : f.F32

module _ {f : Floats} where
  unfoldable pub quantize : QuantizedFloat f → f.F32 → f.F32
  quantize qf value =
      if f.lt value qf.low_value
      then qf.low_value
      else if f.lt qf.high_value value
      then qf.high_value
      else (let range = f.sub qf.high_value qf.low_value in
          let i = f.to_i32 (f.mul (f.sub value qf.low_value) qf.high_low_mul) in
          f.add qf.low_value (f.mul range (f.mul (f.of_ℤ i) qf.decode_mul)))

-- `1 << n` in i32, and `a - b` in i32, in a build with or without overflow checks.
abbrev pub shl_one : Bool → ℕ → Outcome QuantizedFloatError ℤ
shl_one checks n =
    if ltb n 32 then ok (as_i32 (2 ^ n)) else if checks then panic else ok (as_i32 (2 ^ (n % 32)))

abbrev pub sub_i32 : Bool → ℤ → ℤ → Outcome QuantizedFloatError ℤ
sub_i32 checks a b =
    let s = a -ℤ b in if fits_i32 s then ok s else if checks then panic else ok (wrap_i32 s)

-- `while (1 << bc) < range { bc += 1; }`
unfoldable pub grow : ℕ → Bool → ℕ → ℤ → Outcome QuantizedFloatError ℕ
grow zero checks bc range = stuck
grow (suc fuel) checks bc range =
    let rest = grow fuel checks (bc + 1) range in
    bind (shl_one checks bc) (λ power. if ltb_ℤ power range then rest else ok bc)

-- Where the flags ask for integers: the bits, the steps and the high value.
unfoldable pub integer_steps :
    (f : Floats) → Bool → ℕ → ℤ → f.F32 → f.F32 → Outcome QuantizedFloatError (ℕ × ℤ × f.F32)
unfolding grow
integer_steps f checks bit_count steps low_value high_value =
    bind (sub_i32 checks (f.to_i32 low_value) (f.to_i32 high_value)) (λ difference.
      let delta = if ltb_ℤ difference (pos 1) then pos 1 else difference in
      bind (shl_one checks (num_bits_for_count delta)) (λ range.
        bind (grow 64 checks bit_count range) (λ bc.
          bind (if ltb bit_count bc then shl_one checks bc else ok steps) (λ steps'. ok (
            (if ltb bit_count bc then bc else bit_count),
            steps',
            f.sub (f.add low_value (f.of_ℤ range)) (f.div (f.of_ℤ range) (f.of_ℤ steps')),
          )))))

module _ {f : Floats} where
  -- "Remove unnecessary flags", one at a time.
  abbrev pub remove_if : ℕ → (QuantizedFloat f → Bool) → QuantizedFloat f → QuantizedFloat f
  remove_if flag unnecessary qf =
      if has qf.encode_flags flag && unnecessary qf
      then record qf { encode_flags = without qf.encode_flags flag }
      else qf

  -- `(self.quantize(value) - value).abs() < 0.0001`
  abbrev pub exact_at : QuantizedFloat f → f.F32 → Bool
  exact_at qf value = f.lt (f.abs (f.sub (quantize qf value) value)) (f.literal 1 4)

  abbrev pub remove_flags : QuantizedFloat f → QuantizedFloat f
  remove_flags qf =
      remove_if qfe_encode_zero_exactly (λ q. f.eq (quantize q (zero_f f)) (zero_f f))
        (remove_if qfe_roundup (λ q. exact_at q q.high_value)
          (remove_if qfe_rounddown (λ q. exact_at q q.low_value) qf))

  -- The multiplier and the divisor, behind the choice of the bits and the steps.
  abbrev pub finish :
      Bool → ℕ → f.F32 → ℕ × ℤ × f.F32 → Outcome QuantizedFloatError (QuantizedFloat f)
  finish checks encode_flags low_value (bit_count, steps, high_value) =
      bind (assign_range_multiplier f checks bit_count (f.of_f32 (f.sub high_value low_value)))
        (λ mul. bind (sub_i32 checks steps (pos 1)) (λ divisor. ok (
          remove_flags (record {
            bit_count = bit_count;
            encode_flags = encode_flags;
            low_value = low_value;
            high_value = high_value;
            high_low_mul = mul;
            decode_mul = f.div (f.literal 1 0) (f.of_ℤ divisor);
          }))))

  -- Behind the assertion on `bit_count`.
  abbrev pub new_of : Bool → ℕ → ℕ → f.F32 → f.F32 → Outcome QuantizedFloatError (QuantizedFloat f)
  new_of checks bit_count encode_flags low_value high_value =
      bind (compute_encode_flags f encode_flags low_value high_value) (λ efs.
        bind (shl_one checks bit_count) (λ steps.
          let offset = f.div (f.sub high_value low_value) (f.of_ℤ steps) in
          let high = if has efs qfe_rounddown then f.sub high_value offset else high_value in
          let low =
            if has efs qfe_rounddown
            then low_value
            else if has efs qfe_roundup
            then f.add low_value offset
            else low_value in
          bind
            (if has efs qfe_encode_integers_exactly
              then integer_steps f checks bit_count steps low high
              else ok (bit_count, steps, high))
            (finish checks efs low)))

  unfoldable pub new : Bool → ℤ → ℕ → f.F32 → f.F32 → Outcome QuantizedFloatError (QuantizedFloat f)
  new checks (negsuc n) encode_flags low_value high_value = panic
  new checks (pos bit_count) encode_flags low_value high_value =
      if ltb 0 bit_count && ltb bit_count 32
      then new_of checks bit_count encode_flags low_value high_value
      else panic

module _ {p : Platform} where
  -- `flag is set && br.read_bool()?`
  abbrev pub flag_bit : QuantizedFloat p.floats → ℕ → Read p Bool
  flag_bit qf flag = if has qf.encode_flags flag then read_bool else pure false

  unfoldable pub decode : QuantizedFloat p.floats → Read p p.floats.F32
  decode qf = do
    down ← flag_bit qf qfe_rounddown
    if down then pure qf.low_value else do
      up ← flag_bit qf qfe_roundup
      if up then pure qf.high_value else do
        at_zero ← flag_bit qf qfe_encode_zero_exactly
        if at_zero then pure (p.floats.literal 0 0) else do
          value ← read_ubit64 qf.bit_count
          pure (
              p.floats.add qf.low_value (
                p.floats.mul (p.floats.sub qf.high_value qf.low_value)
                  (p.floats.mul (p.floats.of_ℕ value) qf.decode_mul)))

  unfoldable pub skip : QuantizedFloat p.floats → Read p (Unit {0})
  skip qf = do
    down ← flag_bit qf qfe_rounddown
    if down then pure tt else do
      up ← flag_bit qf qfe_roundup
      if up then pure tt else do
        at_zero ← flag_bit qf qfe_encode_zero_exactly
        if at_zero then pure tt else do value ← read_ubit64 qf.bit_count; pure tt

  -- A flag that is set counts one bit, and is read.
  abbrev pub counted_bit : QuantizedFloat p.floats → ℕ → ℕ → Read p (ℕ × Bool)
  counted_bit qf flag bits_read =
      if has qf.encode_flags flag
      then (do b ← read_bool; pure (bits_read + 1, b))
      else pure (bits_read, false)

  abbrev pub skip_bits_from : QuantizedFloat p.floats → ℕ → Read p ℕ
  skip_bits_from qf bits_read = do
    (bits_down, down) ← counted_bit qf qfe_rounddown bits_read
    if down then pure bits_down else do
      (bits_up, up) ← counted_bit qf qfe_roundup bits_down
      if up then pure bits_up else do
        (bits_zero, at_zero) ← counted_bit qf qfe_encode_zero_exactly bits_up
        if at_zero
            then pure bits_zero
            else do skip_reader_bits qf.bit_count; pure (bits_zero + qf.bit_count)

  -- How many bits it went over.
  unfoldable pub skip_bits : QuantizedFloat p.floats → Read p ℕ
  skip_bits qf = skip_bits_from qf 0
