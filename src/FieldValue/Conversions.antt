-- ===== src/FieldValue/Conversions.antt =====
-- When the conversions of crates/haste_core/src/fieldvalue.rs succeed.
use haste.Prelude.{
  ℕ, suc, ◌*◌, ◌^◌, ◌<◌, arith, ◌-◌, ◌+◌, ◌≡◌, ◌↔◌, refl, Bool, true, false, if◌then◌else◌,
}
use haste.Prelude.Int.{ℤ, pos, negsuc, ◌-ℤ◌}
use haste.Outcome.{success, failure}
use haste.Platform.{Floats}
use haste.FieldValue.{
  FieldValue, i64, u64, f32, boolean, vector3, vector2, vector4, qangle, string, fits_signed,
  try_into_signed, Converted, incompatible_type_or_out_of_range_integer,
}

-- A test, and the value behind it.
tested :
    {A : Type 0} (b : Bool) (m n : A)
    → ◌≡◌ {A = Converted A}
        (if b then success m else failure incompatible_type_or_out_of_range_integer)
        (success n)
    → (m ≡ n) × (b ≡ true)
tested true m n e = (cc, refl)
tested false m n e = absurd (cc)

-- The test of the range against the integers that are counted from `-2 ^ w` on.
in_range :
    (w : ℕ) (n : ℤ)
    → (fits_signed w n ≡ true) ↔ ((k : ℕ) × (k < 2 * 2 ^ w) × (n ≡ pos k -ℤ pos (2 ^ w)))
unfolding ◌-ℤ◌
in_range w (pos m) =
    (λ fits. (m + 2 ^ w, ground arith, ground arith), λ (k, less, same). ground arith)
in_range w (negsuc m) =
    (λ fits. (2 ^ w - suc m, ground arith, ground arith), λ (k, less, same). ground arith)

module _ {f : Floats} where
  signed_there :
      (w : ℕ) (v : FieldValue f) (n : ℤ)
      → try_into_signed w v ≡ success n
      → (v ≡ i64 n) × (fits_signed w n ≡ true)
  unfolding try_into_signed
  signed_there w (i64 m) n e =
      let (same, fits) = tested (fits_signed w m) m n e in (rw same refl, rw (← same) fits)
  signed_there w (u64 m) n e = absurd (cc)
  signed_there w (f32 m) n e = absurd (cc)
  signed_there w (boolean m) n e = absurd (cc)
  signed_there w (vector3 m) n e = absurd (cc)
  signed_there w (vector2 m) n e = absurd (cc)
  signed_there w (vector4 m) n e = absurd (cc)
  signed_there w (qangle m) n e = absurd (cc)
  signed_there w (string m) n e = absurd (cc)

  -- A conversion to the signed integer type of `w + 1` bits succeeds with `n` just if the value is the
  -- i64 `n`, and `n` is one of the 2 ^ (w + 1) integers from -2 ^ w on: no conversion wraps, and none
  -- takes another kind of value.
  pub try_into_signed-exact :
      (w : ℕ) (v : FieldValue f) (n : ℤ)
      → (try_into_signed w v ≡ success n)
        ↔ ((v ≡ i64 n) × (k : ℕ) × (k < 2 * 2 ^ w) × (n ≡ pos k -ℤ pos (2 ^ w)))
  unfolding try_into_signed
  try_into_signed-exact w v n = (
    λ e.
        let (same, fits) = signed_there w v n e in
        let (k, less, offset) = (in_range w n).0 fits in (same, k, less, offset),
    λ (same, k, less, offset). rw same (rw ((in_range w n).1 (k, less, offset)) refl),
  )
