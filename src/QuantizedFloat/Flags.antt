-- ===== src/QuantizedFloat/Flags.antt =====
-- The flags that `compute_encode_flags` of crates/haste_core/src/quantizedfloat.rs leaves. Each of its
-- steps reads and writes the four low bits only.
use haste.Prelude.{
  ℕ, ◌-◌, ◌%◌, ◌^◌, ◌<◌, ◌≡◌, refl, sym, ap, ◌∙◌, arith, Bool, true, false, ◌&&◌, ◌||◌, not,
  bit_and, bit_or, ◌==◌, if◌then◌else◌,
}
use haste.Prelude.Bits.{holds_below, holds_below_sound}
use haste.Prelude.LowBits.{bit_and_nibble, bit_or_nibble, bit_and_seen}
use haste.Outcome.{ok, err}
use haste.Platform.{Floats}
use haste.QuantizedFloat.{
  QuantizedFloatError, qfe_rounddown, qfe_roundup, qfe_encode_zero_exactly,
  qfe_encode_integers_exactly, has, without, discard_zero, switch_to, needs_span, only_integers,
  verify, flags_for, zero_f, compute_encode_flags,
}

-- A choice that both sides make.
nibble_if :
    (c : Bool) (x y z w : ℕ)
    → x % 16 ≡ z % 16
    → y % 16 ≡ w % 16
    → (if c then x else y) % 16 ≡ (if c then z else w) % 16
nibble_if true x y z w h k = h
nibble_if false x y z w h k = k

seen : (x flag : ℕ) → flag < 16 → has x flag ≡ has (x % 16) flag
seen x flag h = ap (λ (t : ℕ). not (t == 0)) (bit_and_seen x flag h)

same : (x : ℕ) → x % 16 ≡ x % 16 % 16
same x = omega arith

discard_zero_nibble :
    (l h : Bool) (x : ℕ) → discard_zero l h x % 16 ≡ discard_zero l h (x % 16) % 16
discard_zero_nibble l h x =
    rw (seen x 1 (omega arith), seen x 2 (omega arith))
      (nibble_if ((l && has (x % 16) 1) || (h && has (x % 16) 2)) (without x 4) x
        (without (x % 16) 4) (x % 16) (bit_and_nibble x _) (same x))

switch_to_nibble :
    (zero : Bool) (round x : ℕ) → switch_to zero round x % 16 ≡ switch_to zero round (x % 16) % 16
switch_to_nibble zero round x = rw (seen x 4 (omega arith)) (
    nibble_if (zero && has (x % 16) 4) (without (bit_or x round) 4) x
      (without (bit_or (x % 16) round) 4) (x % 16)
      (bit_and_nibble (bit_or x round) _
        ∙ ap (λ (t : ℕ). bit_and t (2 ^ 32 - 1 - 4) % 16) (bit_or_nibble x round)
        ∙ sym (bit_and_nibble (bit_or (x % 16) round) _))
      (same x))

needs_span_nibble : (s : Bool) (x : ℕ) → needs_span s x % 16 ≡ needs_span s (x % 16) % 16
needs_span_nibble s x =
    nibble_if (not s) (without x 4) x (without (x % 16) 4) (x % 16) (bit_and_nibble x _) (same x)

only_integers_nibble : (x : ℕ) → only_integers x % 16 ≡ only_integers (x % 16) % 16
only_integers_nibble x = rw (seen x 8 (omega arith)) (
    nibble_if (has (x % 16) 8) (without x 7) x (without (x % 16) 7) (x % 16) (bit_and_nibble x _)
      (same x))

-- Two steps, one after the other.
then_nibble :
    (f g : ℕ → ℕ)
    → ((x : ℕ) → f x % 16 ≡ f (x % 16) % 16)
    → ((x : ℕ) → g x % 16 ≡ g (x % 16) % 16)
    → (x : ℕ) → g (f x) % 16 ≡ g (f (x % 16)) % 16
then_nibble f g hf hg x = hg (f x) ∙ ap (λ (t : ℕ). g t % 16) (hf x) ∙ sym (hg (f (x % 16)))

flags_for_nibble : (l h s : Bool) (x : ℕ) → flags_for l h s x % 16 ≡ flags_for l h s (x % 16) % 16
flags_for_nibble l h s =
    then_nibble _ only_integers
      (then_nibble _ (needs_span s)
        (then_nibble _ (switch_to h 2)
          (then_nibble (discard_zero l h) (switch_to l 1) (discard_zero_nibble l h)
            (switch_to_nibble l 1))
          (switch_to_nibble h 2))
        (needs_span_nibble s))
      only_integers_nibble

-- What the decoder relies on: not both rounding flags, no other flag beside the integer flag, and
-- the zero flag only for a range that spans zero.
abbrev pub is_consistent : Bool → ℕ → Bool
is_consistent spans efs =
    not (has efs qfe_rounddown && has efs qfe_roundup)
    && not (
        has efs qfe_encode_integers_exactly
        && (has efs qfe_rounddown || (has efs qfe_roundup || has efs qfe_encode_zero_exactly)))
    && (not (has efs qfe_encode_zero_exactly) || spans)

-- The run on every number of four bits.
nibbles_pass :
    (l h s : Bool)
    → holds_below 16
        (λ n. let r = flags_for l h s n % 16 in (bit_and r 3 == 3) || is_consistent s r)
      ≡ true
unfolding holds_below
nibbles_pass true true true = refl
nibbles_pass true true false = refl
nibbles_pass true false true = refl
nibbles_pass true false false = refl
nibbles_pass false true true = refl
nibbles_pass false true false = refl
nibbles_pass false false true = refl
nibbles_pass false false false = refl

is_consistent_nibble : (s : Bool) (x : ℕ) → is_consistent s x ≡ is_consistent s (x % 16)
is_consistent_nibble s x =
    rw
      (
        seen x 1 (omega arith),
        seen x 2 (omega arith),
        seen x 4 (omega arith),
        seen x 8 (omega arith),
      )
      refl

flags_for_pass :
    (l h s : Bool) (x : ℕ)
    → (bit_and (flags_for l h s x) 3 == 3) || is_consistent s (flags_for l h s x) ≡ true
flags_for_pass l h s x =
    let r = flags_for l h s x in
    let low = holds_below_sound 16 _ (x % 16) (nibbles_pass l h s) (omega arith) in
    rw (bit_and_seen r 3 (omega arith), is_consistent_nibble s r, flags_for_nibble l h s x) low

-- The flags that `compute_encode_flags` accepts are consistent: not both rounding flags, no other of
-- the four flags beside the integer flag, and the zero flag only where the range spans zero.
pub compute_encode_flags-is_consistent :
    (f : Floats) (encode_flags : ℕ) (low_value high_value : f.F32) {r : ℕ}
    → compute_encode_flags f encode_flags low_value high_value ≡ ok r
    → is_consistent (f.lt low_value (zero_f f) && f.lt (zero_f f) high_value) r ≡ true
unfolding compute_encode_flags
compute_encode_flags-is_consistent f encode_flags low_value high_value {r} e =
    either (encode_flags == 0) _
      (flags_for_pass (f.eq low_value (zero_f f)) (f.eq high_value (zero_f f)) spans encode_flags) e
  where
    spans : Bool
    spans = f.lt low_value (zero_f f) && f.lt (zero_f f) high_value

    accepted :
        (bad good : Bool) (efs : ℕ)
        → good ≡ is_consistent spans efs
        → (bad || good) ≡ true
        → (if bad then err QuantizedFloatError.invalid_encode_flags else ok efs) ≡ ok r
        → is_consistent spans r ≡ true
    accepted true good efs g h e = absurd (cc)
    accepted false good efs g h e =
        let fits : efs ≡ r = cc in ap (is_consistent spans) (sym fits) ∙ sym g ∙ h

    either :
        (none : Bool) (efs : ℕ)
        → ((bit_and efs 3 == 3) || is_consistent spans efs) ≡ true
        → (if none then ok 0 else verify efs efs) ≡ ok r
        → is_consistent spans r ≡ true
    either true efs h e = let fits : r ≡ 0 = cc in rw fits (consistent_zero spans)
      where
        consistent_zero : (s : Bool) → is_consistent s 0 ≡ true
        consistent_zero s = refl
    either false efs h e = accepted (bit_and efs 3 == 3) (is_consistent spans efs) efs refl h e
