-- ===== src/Outcome.antt =====
-- What a call of the Rust code can come to: a value, an error of the `Result` that it returns, a
-- panic (an index out of range, a failed `assert!`, `unreachable!`, or an arithmetic overflow in a
-- build with overflow checks), or, for a loop that is modelled on fuel, no end within the fuel.
use haste.Prelude.{◌≡◌, refl, arith}

pub data Outcome {ℓ κ} (E : Type ℓ) (A : Type κ) : Type (ℓ ⊔ κ) where
  ok : A → Outcome E A
  err : E → Outcome E A
  panic : Outcome E A
  stuck : Outcome E A

-- The `Result` of a library call, which neither panics nor runs on fuel.
pub data Result {ℓ κ} (E : Type ℓ) (A : Type κ) : Type (ℓ ⊔ κ) where
  success : A → Result E A
  failure : E → Result E A

infixl 5 ◌>>=◌
abbrev pub ◌>>=◌ {ℓ κ λ'} :
    {E : Type ℓ} {A : Type κ} {B : Type λ'} → Outcome E A → (A → Outcome E B) → Outcome E B
ok a >>= f = f a
err e >>= f = err e
panic >>= f = panic
stuck >>= f = stuck

-- Where a chain succeeds, so does its first part, and the rest on the value.
pub >>=-eq-ok {κ₁ κ₂ κ₃} :
    {Err : Type κ₁} {X : Type κ₂} {Y : Type κ₃} (first : Outcome Err X) (rest : X → Outcome Err Y)
    {y : Y}
    → (first >>= rest) ≡ ok y
    → (x : X) × (first ≡ ok x) × (rest x ≡ ok y)
>>=-eq-ok panic rest e = absurd (ground arith)
>>=-eq-ok stuck rest e = absurd (ground arith)
>>=-eq-ok (err x) rest e = absurd (ground arith)
>>=-eq-ok (ok x) rest e = (x, refl, e)

-- `map_err`, and the conversion of an error by `?`.
abbrev pub map_err {ℓ κ λ'} :
    {E : Type ℓ} {F : Type κ} {A : Type λ'} → (E → F) → Outcome E A → Outcome F A
map_err f (ok a) = ok a
map_err f (err e) = err (f e)
map_err f panic = panic
map_err f stuck = stuck

pub map_err-eq-ok {ℓ κ λ'} :
    {E : Type ℓ} {F : Type κ} {A : Type λ'} (wrap : E → F) (r : Outcome E A) {a : A}
    → map_err wrap r ≡ ok a
    → r ≡ ok a
map_err-eq-ok wrap (ok a) e = cc
map_err-eq-ok wrap (err x) e = absurd (cc)
map_err-eq-ok wrap panic e = absurd (cc)
map_err-eq-ok wrap stuck e = absurd (cc)
