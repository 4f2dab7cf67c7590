-- ===== src/StringTables/Safe.antt =====
-- Rules for the steps of an update of a string table (crates/haste_core/src/stringtables.rs): a step
-- that ends, and whose value has a property.
use haste.Prelude.{
  ℕ, ◌≤◌, ◌≡◌, ◌⊎◌, refl, Bool, true, false, List, if◌then◌else◌, leb, leb→le, Bool-cases, inl, inr,
  length, take,
}
use haste.Outcome.{Outcome, ok, err, panic, stuck, Result, success, failure, ◌>>=◌ as bind}
use haste.Platform.{Platform}
use haste.BitReader.{BitReader, Read, delegate}
use haste.BitReader.Keeps.{Any, Keeps, Post}
use haste.StringTables.{
  Snap, StringTableError, Update, ◌>>=◌, pure, bits, wrap, snapped, or_panic, prefix,
}

module _ {p : Platform} {snap : Snap} where
  abbrev pub Ends :
      {A : Type 0} → (A → Type 0) → Outcome (StringTableError p snap) (A × BitReader p) → Type 0
  Ends Q (ok (a, br)) = Q a
  Ends Q (err e) = Unit {0}
  Ends Q panic = Unit {0}
  Ends Q stuck = ⊥

  pub record Safe {A : Type 0} (Q : A → Type 0) (u : Update p snap A) : Type 0 where
    pub from : (br : BitReader p) → Ends Q (u br)

  pub Safe-pure : {A : Type 0} {Q : A → Type 0} {a : A} → Q a → Safe Q (pure a)
  Safe-pure q = record { from = λ br. q }

  pub Safe-bind :
      {A B : Type 0} (P : A → Type 0) {Q : B → Type 0} (u : Update p snap A)
      {k : A → Update p snap B}
      → Safe P u
      → ((a : A) → P a → Safe Q (k a))
      → Safe Q (u >>= k)
  Safe-bind {A} {B} P {Q} u {k} s t = record { from = λ br. after (u br) (s.from br) }
    where
      after :
          (r : Outcome (StringTableError p snap) (A × BitReader p))
          → Ends P r
          → Ends Q (bind {B = B × BitReader p} r (λ x. k x.0 x.1))
      after (ok (a, br)) h = (t a h).from br
      after (err e) h = tt
      after panic h = tt
      after stuck h = absurd h

  pub Safe-if :
      {A : Type 0} {Q : A → Type 0} (b : Bool) {u v : Update p snap A}
      → Safe Q u
      → Safe Q v
      → Safe Q (if b then u else v)
  Safe-if true s t = s
  Safe-if false s t = t

  pub Safe-post :
      {A : Type 0} {Q : A → Type 0} (m : Read p A)
      → ((br : BitReader p) → Post Q (m br))
      → Safe Q (bits m)
  Safe-post {A} {Q} m h = record { from = λ br. at_result (m br) (h br) }
    where
      at_result : (r : Outcome p.Error (A × BitReader p)) → Post Q r → Ends Q (wrap r)
      at_result (ok (a, br)) x = x
      at_result (err e) x = tt
      at_result panic x = tt
      at_result stuck x = x

  pub Safe-bits : {A : Type 0} {Q : A → Type 0} {m : Read p A} → Keeps Q m → Safe Q (bits m)
  Safe-bits {A} {Q} {m} t = Safe-post _ (λ br. at_result br (m br) refl)
    where
      at_result : (br : BitReader p) (r : Outcome p.Error (A × BitReader p)) → m br ≡ r → Post Q r
      at_result br (ok (a, br')) e = (t.on_success br a br' e).0
      at_result br (err x) e = tt
      at_result br panic e = tt
      at_result br stuck e = t.ends br e

  pub Safe-delegate :
      {A : Type 0} {Q : A → Type 0} {read : p.State → Result p.Error (A × p.State)}
      → ((s : p.State) (a : A) (s' : p.State) → read s ≡ success (a, s') → Q a)
      → Safe Q (bits (delegate {p = p} read))
  Safe-delegate {A} {Q} {read} h = Safe-post _ (λ br. at_result br (read br.inner) refl)
    where
      at_result :
          (br : BitReader p) (r : Result p.Error (A × p.State))
          → read br.inner ≡ r
          → Post Q (delegate {p = p} (λ s. r) br)
      at_result br (success (a, s)) e = h br.inner a s e
      at_result br (failure x) e = tt

  pub Safe-snapped :
      {A : Type 0} {Q : A → Type 0} {r : Result snap.Error A}
      → ((a : A) → r ≡ success a → Q a)
      → Safe Q (snapped r)
  Safe-snapped {A} {Q} {r} h = record { from = λ br. at_result br r h }
    where
      at_result :
          (br : BitReader p) (r : Result snap.Error A)
          → ((a : A) → r ≡ success a → Q a)
          → Ends Q (snapped r br)
      at_result br (success a) h = h a refl
      at_result br (failure e) h = tt

  pub Safe-prefix :
      (buf : List ℕ) (n : ℕ)
      → Safe (λ s. (n ≤ length buf) × (s ≡ take n buf)) (or_panic (prefix buf n))
  Safe-prefix buf n = record { from = λ br. at_test br (Bool-cases (leb n (length buf))) }
    where
      at_test :
          (br : BitReader p)
          → (leb n (length buf) ≡ true) ⊎ (leb n (length buf) ≡ false)
          → Ends (λ s. (n ≤ length buf) × (s ≡ take n buf)) (or_panic (prefix buf n) br)
      at_test br (inl h) = rw h (leb→le n (length buf) h, refl)
      at_test br (inr h) = rw h tt

  pub Safe-any : {A : Type 0} {Q : A → Type 0} (u : Update p snap A) → Safe Q u → Safe Any u
  Safe-any {A} {Q} u s = record { from = λ br. weaken (u br) (s.from br) }
    where
      weaken : (r : Outcome (StringTableError p snap) (A × BitReader p)) → Ends Q r → Ends Any r
      weaken (ok (a, br)) h = tt
      weaken (err e) h = tt
      weaken panic h = tt
      weaken stuck h = h
