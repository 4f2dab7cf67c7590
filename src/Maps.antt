-- ===== src/Maps.antt =====
-- Hash maps as association lists: what the modelled code asks of a map depends on no order.
use haste.Prelude.{
  ℕ, ◌≡◌, refl, ap, sym, ◌∙◌, ◌↔◌, arith, Bool, true, false, List, [], ◌∷◌, Option, none, some,
  ◌==◌, ==_iff, if◌then◌else◌,
}
use haste.Prelude.Int.{ℤ, pos, negsuc, pos_part, neg_part}

-- The keys, which are integers, and how they are compared.
pub record Key (K : Type 0) : Type 0 where
  pub same : K → K → Bool
  pub same_iff : (a b : K) → (same a b ≡ true) ↔ (a ≡ b)

instance abbrev pub nat_key : Key ℕ
nat_key = record { same = ◌==◌; same_iff = ==_iff }

abbrev pub same_ℤ : ℤ → ℤ → Bool
same_ℤ (pos a) (pos b) = a == b
same_ℤ (negsuc a) (negsuc b) = a == b
same_ℤ a b = false

pub same_ℤ_iff : (a b : ℤ) → (same_ℤ a b ≡ true) ↔ (a ≡ b)
same_ℤ_iff (pos a) (pos b) = (λ e. ap pos ((==_iff a b).0 e), λ e. (==_iff a b).1 (ap pos_part e))
same_ℤ_iff (negsuc a) (negsuc b) =
    (λ e. ap negsuc ((==_iff a b).0 e), λ e. (==_iff a b).1 (omega (arith, ap neg_part e)))
same_ℤ_iff (pos a) (negsuc b) = (λ e. absurd (cc), λ e. absurd (cc))
same_ℤ_iff (negsuc a) (pos b) = (λ e. absurd (cc), λ e. absurd (cc))

instance abbrev pub int_key : Key ℤ
int_key = record { same = same_ℤ; same_iff = same_ℤ_iff }

abbrev pub Map : Type 0 → Type 0 → Type 0
Map K V = List (K × V)

module _ {K V : Type 0} ⦃k : Key K⦄ where
  unfoldable pub lookup : K → Map K V → Option V
  lookup i [] = none
  lookup i ((j, v) ∷ m) = if k.same j i then some v else lookup i m

  unfoldable pub insert : K → V → Map K V → Map K V
  insert i v [] = (i, v) ∷ []
  insert i v ((j, w) ∷ m) = if k.same j i then (i, v) ∷ m else (j, w) ∷ insert i v m

  unfoldable pub remove : K → Map K V → Map K V
  remove i [] = []
  remove i ((j, w) ∷ m) = if k.same j i then remove i m else (j, w) ∷ remove i m

  pub lookup-insert :
      (i j : K) (v : V) (m : Map K V)
      → lookup j (insert i v m) ≡ (if k.same i j then some v else lookup j m)
  unfolding lookup insert
  lookup-insert i j v [] = refl
  lookup-insert i j v ((l, w) ∷ m) =
      ground (arith, k.same_iff i j, k.same_iff l i, k.same_iff l j, lookup-insert i j v m)

  pub lookup-remove :
      (i j : K) (m : Map K V) → lookup j (remove i m) ≡ (if k.same i j then none else lookup j m)
  unfolding lookup remove
  lookup-remove i j [] = ground arith
  lookup-remove i j ((l, w) ∷ m) =
      ground (arith, k.same_iff i j, k.same_iff l i, k.same_iff l j, lookup-remove i j m)

  -- A property of all the values, and of one that is put in.
  pub insert-AllValues :
      (P : V → Type 0) (i : K) (v : V) (m : Map K V)
      → P v
      → ((j : K) (w : V) → lookup j m ≡ some w → P w)
      → (j : K) (w : V) → lookup j (insert i v m) ≡ some w
      → P w
  insert-AllValues P i v m pv h j w e = either (k.same i j) (sym (lookup-insert i j v m) ∙ e)
    where
      either : (b : Bool) → ◌≡◌ {A = Option V} (if b then some v else lookup j m) (some w) → P w
      either true r = let hit : v ≡ w = cc in rw (← hit) pv
      either false r = h j w r

  pub lookup-empty : (i : K) {v : V} → lookup i [] ≡ some v → ⊥
  unfolding lookup
  lookup-empty i e = absurd (cc)
