-- ===== src/StringTables/Alike.antt =====
-- Rules for two updates of a string table (crates/haste_core/src/stringtables.rs) that do the same:
-- the values that they return are related.
use haste.Prelude.{◌≡◌, refl, Bool, true, false, if◌then◌else◌}
use haste.Outcome.{Outcome, ok, err, panic, stuck, ◌>>=◌ as bind}
use haste.Platform.{Platform}
use haste.BitReader.{BitReader}
use haste.StringTables.{Snap, StringTableError, Update, ◌>>=◌, pure}
use haste.StringTables.Safe.{Ends, Safe}

module _ {E S A B : Type 0} (R : A → B → Type 0) where
  abbrev pub Same : Outcome E (A × S) → Outcome E (B × S) → Type 0
  Same (ok (a, s)) (ok (b, s')) = R a b × (s ≡ s')
  Same (err e) (err e') = e ≡ e'
  Same panic panic = Unit {0}
  Same stuck stuck = Unit {0}
  Same r r' = ⊥

module _ {p : Platform} {snap : Snap} where
  pub record Alike {A B : Type 0} (R : A → B → Type 0) (u : Update p snap A) (v : Update p snap B)
      : Type 0 where
    pub from : (br : BitReader p) → Same R (u br) (v br)

  pub Alike-pure :
      {A B : Type 0} {R : A → B → Type 0} {a : A} {b : B} → R a b → Alike R (pure a) (pure b)
  Alike-pure r = record { from = λ br. (r, refl) }

  pub Alike-bind :
      {A B C D : Type 0} (R : A → B → Type 0) {S : C → D → Type 0} (u : Update p snap A)
      (v : Update p snap B) {f : A → Update p snap C} {g : B → Update p snap D}
      → Alike R u v
      → ((a : A) (b : B) → R a b → Alike S (f a) (g b))
      → Alike S (u >>= f) (v >>= g)
  Alike-bind {A} {B} {C} {D} R {S} u v {f} {g} s t = record {
    from = λ br. after (u br) (v br) (s.from br);
  }
    where
      after :
          (r : Outcome (StringTableError p snap) (A × BitReader p))
          (r' : Outcome (StringTableError p snap) (B × BitReader p))
          → Same R r r'
          → Same S
              (bind {B = C × BitReader p} r (λ x. f x.0 x.1))
              (bind {B = D × BitReader p} r' (λ x. g x.0 x.1))
      after (ok (a, br)) (ok (b, br')) (h, e) = rw e ((t a b h).from br')
      after (ok x) (err e) h = absurd h
      after (ok x) panic h = absurd h
      after (ok x) stuck h = absurd h
      after (err e) (ok x) h = absurd h
      after (err e) (err e') h = h
      after (err e) panic h = absurd h
      after (err e) stuck h = absurd h
      after panic (ok x) h = absurd h
      after panic (err e) h = absurd h
      after panic panic h = tt
      after panic stuck h = absurd h
      after stuck (ok x) h = absurd h
      after stuck (err e) h = absurd h
      after stuck panic h = absurd h
      after stuck stuck h = tt

  pub Alike-if :
      {A B : Type 0} {R : A → B → Type 0} (b : Bool) {u u' : Update p snap A}
      {v v' : Update p snap B}
      → Alike R u v
      → Alike R u' v'
      → Alike R (if b then u else u') (if b then v else v')
  Alike-if true s t = s
  Alike-if false s t = t

  -- A step does what it does itself, and its value has the property that it ends with.
  pub Alike-self :
      {A : Type 0} {P : A → Type 0} (u : Update p snap A)
      → Safe P u
      → Alike (λ a b. (a ≡ b) × P a) u u
  Alike-self {A} {P} u s = record { from = λ br. same (u br) (s.from br) }
    where
      same :
          (r : Outcome (StringTableError p snap) (A × BitReader p))
          → Ends P r
          → Same (λ a b. (a ≡ b) × P a) r r
      same (ok (a, br)) h = ((refl, h), refl)
      same (err e) h = refl
      same panic h = tt
      same stuck h = absurd h

  pub Same-eq :
      {A : Type 0} (r r' : Outcome (StringTableError p snap) (A × BitReader p))
      → Same (λ (a b : A). a ≡ b) r r'
      → r ≡ r'
  Same-eq (ok (a, br)) (ok (b, br')) (h, e) = rw (h, e) refl
  Same-eq (ok x) (err e) h = absurd h
  Same-eq (ok x) panic h = absurd h
  Same-eq (ok x) stuck h = absurd h
  Same-eq (err e) (ok x) h = absurd h
  Same-eq (err e) (err e') h = rw h refl
  Same-eq (err e) panic h = absurd h
  Same-eq (err e) stuck h = absurd h
  Same-eq panic (ok x) h = absurd h
  Same-eq panic (err e) h = absurd h
  Same-eq panic panic h = refl
  Same-eq panic stuck h = absurd h
  Same-eq stuck (ok x) h = absurd h
  Same-eq stuck (err e) h = absurd h
  Same-eq stuck panic h = absurd h
  Same-eq stuck stuck h = refl
