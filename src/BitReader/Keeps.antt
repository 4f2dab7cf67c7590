-- ===== src/BitReader/Keeps.antt =====
-- Rules for a reader that ends, that puts no bits back, and whose value has a property. Half of them
-- are for a value of which nothing is asked; `keeps` collects those that prove a `do` block.
use haste.Prelude.{
  bit_and, ◌==◌, ℕ, ◌^◌, ◌≤◌, ◌<◌, ◌≡◌, ◌≢◌, refl, arith, Bool, true, false, if◌then◌else◌,
}
use haste.Outcome.{Outcome, ok, err, panic, stuck, ◌>>=◌ as bind}
use haste.Platform.{Platform, Documented}
use haste.BitReader.{
  BitReader, Read, ◌>>=◌, >>=-eq-ok, pure, throw, num_bits_left, try_into_u32, ubitvar_tail,
  ubitvar_rest, read_ubit64, read_bool, read_byte, read_ubitvar, read_ubitvarfp, read_varint32,
}
use haste.BitReader.Takes.{
  read_ubit64_bounds, read_byte_bounds, read_bool_left, read_varint32_bounds,
}
use haste.BitReader.Varints.{read_ubitvar-Takes, read_ubitvarfp-Takes}

abbrev pub Any : {A : Type 0} → A → Type 0
Any a = Unit {0}

module _ {p : Platform} where
  pub record Keeps {A : Type 0} (Q : A → Type 0) (m : Read p A) : Type 0 where
    pub on_success :
        (br : BitReader p) (v : A) (br' : BitReader p)
        → m br ≡ ok (v, br')
        → Q v × (num_bits_left br' ≤ num_bits_left br)
    pub ends : (br : BitReader p) → m br ≢ stuck

  pub Keeps-bind :
      {A B : Type 0} {P : A → Type 0} {Q : B → Type 0} {m : Read p A} {k : A → Read p B}
      → Keeps P m
      → ((a : A) → P a → Keeps Q (k a))
      → Keeps Q (m >>= k)
  Keeps-bind {A} {B} {P} {Q} {m} {k} t u = record {
    on_success = λ br v br' h. after br (>>=-eq-ok m k br h);
    ends = λ br. still br (m br) refl;
  }
    where
      after :
          (br : BitReader p) {v : B} {br'' : BitReader p}
          → (a : A) × (br' : BitReader p) × (m br ≡ ok (a, br')) × (k a br' ≡ ok (v, br''))
          → Q v × (num_bits_left br'' ≤ num_bits_left br)
      after br (a, br', e, r) =
          let (pa, x) = t.on_success br a br' e in
          let (q, y) = (u a pa).on_success br' _ _ r in (q, omega arith)

      still :
          (br : BitReader p) (r : Outcome p.Error (A × BitReader p))
          → m br ≡ r
          → bind {B = B × BitReader p} r (λ s. k s.0 s.1) ≢ stuck
      still br (ok (a, br')) e = (u a (t.on_success br a br' e).0).ends br'
      still br (err x) e = λ h. cc
      still br panic e = λ h. cc
      still br stuck e = absurd (t.ends br e)

  pub Keeps-pure : {A : Type 0} {Q : A → Type 0} {v : A} → Q v → Keeps Q (pure {p = p} v)
  Keeps-pure {A} {Q} {v} q = record {
    on_success = λ br w br' h.
        let same : v ≡ w = cc in
        let still : br ≡ br' = cc in (rw same at q, rw still (omega arith));
    ends = λ br h. cc;
  }

  pub Keeps-panic : {A : Type 0} {Q : A → Type 0} → Keeps {A = A} Q (λ br. panic)
  Keeps-panic = record { on_success = λ br v br' h. absurd (cc); ends = λ br h. cc }

  pub Keeps-throw : {A : Type 0} {Q : A → Type 0} {e : p.Error} → Keeps {A = A} Q (throw {p = p} e)
  Keeps-throw = record { on_success = λ br v br' h. absurd (cc); ends = λ br h. cc }

  pub Keeps-if :
      {A : Type 0} {Q : A → Type 0} (b : Bool) {m m' : Read p A}
      → (b ≡ true → Keeps Q m)
      → (b ≡ false → Keeps Q m')
      → Keeps Q (if b then m else m')
  Keeps-if true t u = t refl
  Keeps-if false t u = u refl

  pub Keeps-weaken :
      {A : Type 0} {P Q : A → Type 0} {m : Read p A} → Keeps P m → ((a : A) → P a → Q a) → Keeps Q m
  Keeps-weaken t f = record {
    on_success = λ br v br' h. let (x, y) = t.on_success br v br' h in (f v x, y);
    ends = t.ends;
  }

module _ {p : Platform} where
  -- A run that ends, with `Q` of its value if it gives one.
  abbrev pub Post : {A : Type 0} → (A → Type 0) → Outcome p.Error (A × BitReader p) → Type 0
  Post Q (ok (a, br)) = Q a
  Post Q (err e) = Unit {0}
  Post Q panic = Unit {0}
  Post Q stuck = ⊥

  pub Post-bind :
      {A B : Type 0} {P : A → Type 0} (Q : B → Type 0) {m : Read p A} (k : A → Read p B)
      → Keeps P m
      → (br : BitReader p)
      → ((a : A) (br' : BitReader p)
          → P a
          → m br ≡ ok (a, br')
          → num_bits_left br' ≤ num_bits_left br
          → Post Q (k a br'))
      → Post Q ((m >>= k) br)
  Post-bind {A} {B} {P} Q {m} k t br h = at_result (m br) refl
    where
      at_result :
          (r : Outcome p.Error (A × BitReader p))
          → m br ≡ r
          → Post Q (bind {B = B × BitReader p} r (λ s. k s.0 s.1))
      at_result (ok (a, br')) e = let (x, y) = t.on_success br a br' e in h a br' x e y
      at_result (err e') e = tt
      at_result panic e = tt
      at_result stuck e = t.ends br e

  -- The same, with at most `n` bits left.
  abbrev pub Within : {A : Type 0} → (A → Type 0) → ℕ → Outcome p.Error (A × BitReader p) → Type 0
  Within Q n (ok (a, br)) = Q a × (num_bits_left br ≤ n)
  Within Q n (err e) = Unit {0}
  Within Q n panic = Unit {0}
  Within Q n stuck = ⊥

  pub Within-Post :
      {A : Type 0} (Q : A → Type 0) (n : ℕ) (r : Outcome p.Error (A × BitReader p))
      → Within Q n r
      → Post Q r
  Within-Post Q n (ok (a, br)) h = h.0
  Within-Post Q n (err e) h = tt
  Within-Post Q n panic h = tt
  Within-Post Q n stuck h = h

  pub Within-bind :
      {A B : Type 0} {P : A → Type 0} (Q : B → Type 0) (n : ℕ) {m : Read p A} (k : A → Read p B)
      → Keeps P m
      → (br : BitReader p)
      → ((a : A) (br' : BitReader p)
          → P a
          → m br ≡ ok (a, br')
          → num_bits_left br' ≤ num_bits_left br
          → Within Q n (k a br'))
      → Within Q n ((m >>= k) br)
  Within-bind {A} {B} {P} Q n {m} k t br h = at_result (m br) refl
    where
      at_result :
          (r : Outcome p.Error (A × BitReader p))
          → m br ≡ r
          → Within Q n (bind {B = B × BitReader p} r (λ s. k s.0 s.1))
      at_result (ok (a, br')) e = let (x, y) = t.on_success br a br' e in h a br' x e y
      at_result (err e') e = tt
      at_result panic e = tt
      at_result stuck e = t.ends br e

module _ {p : Platform} (d : Documented p) where
  pub Keeps-read_ubit64 : (n : ℕ) → Keeps (λ v. v < 2 ^ n) (read_ubit64 {p = p} n)
  unfolding read_ubit64
  Keeps-read_ubit64 n = record {
    on_success = λ br v br' h. let (x, y) = read_ubit64_bounds d n br h in (x, omega arith);
    ends = λ br h. ground arith;
  }

  pub Keeps-read_bool : Keeps Any (read_bool {p = p})
  unfolding read_bool
  Keeps-read_bool = record {
    on_success = λ br v br' h. let x = read_bool_left d br h in (tt, omega arith);
    ends = λ br h. ground arith;
  }

  pub Keeps-read_byte : Keeps (λ v. v < 256) (read_byte {p = p})
  unfolding read_byte
  Keeps-read_byte = record {
    on_success = λ br v br' h. let (x, y) = read_byte_bounds d br h in (x, omega arith);
    ends = λ br h. ground arith;
  }

  pub Keeps-read_varint32 : Keeps Any (read_varint32 {p = p})
  unfolding read_varint32
  Keeps-read_varint32 = record {
    on_success = λ br v br' h. let (_, _, x) = read_varint32_bounds d br h in (tt, x);
    ends = λ br h. ground arith;
  }

  read-Any : (n : ℕ) → Keeps Any (read_ubit64 {p = p} n)
  read-Any n = Keeps-weaken (Keeps-read_ubit64 n) (λ v _. tt)

  try-Any : (v : ℕ) → Keeps Any (try_into_u32 {p = p} v)
  try-Any v = Keeps-if _ (λ _. Keeps-pure tt) (λ _. Keeps-throw)

  flag-Any :
      (k : Bool → Read p ℕ) → Keeps Any (k true) → Keeps Any (k false) → Keeps Any (read_bool >>= k)
  flag-Any k t f = Keeps-bind Keeps-read_bool (λ b _. either b)
    where
      either : (b : Bool) → Keeps Any (k b)
      either true = t
      either false = f

  ubitvarfp-Keeps : Keeps Any (read_ubitvarfp {p = p})
  unfolding read_ubitvarfp
  ubitvarfp-Keeps =
      Keeps-bind
        (flag-Any _ (read-Any 2) (
          flag-Any _ (read-Any 4)
            (flag-Any _ (read-Any 10) (flag-Any _ (read-Any 17) (read-Any 31)))))
        (λ v _. try-Any v)

  tail-Any : (first n : ℕ) → Keeps Any (ubitvar_tail {p = p} first n)
  tail-Any first n = Keeps-bind (read-Any n) (λ v _. Keeps-pure tt)

  rest-Any : (first : ℕ) → Keeps Any (ubitvar_rest {p = p} first)
  rest-Any first =
      let flags = bit_and first 48 in
      Keeps-if (flags == 16) (λ _. tail-Any first 4)
        (λ _.
          Keeps-if (flags == 32) (λ _. tail-Any first 8)
            (λ _. Keeps-if (flags == 48) (λ _. tail-Any first 28) (λ _. Keeps-pure tt)))

  ubitvar-Keeps : Keeps Any (read_ubitvar {p = p})
  unfolding read_ubitvar
  ubitvar-Keeps =
      Keeps-bind (read-Any 6) (λ first _. Keeps-bind (rest-Any first) (λ v _. try-Any v))

  pub Keeps-read_ubitvar : Keeps (λ v. v < 2 ^ 32) (read_ubitvar {p = p})
  Keeps-read_ubitvar = record {
    on_success = λ br v br' h.
        let (x, y, _) = (read_ubitvar-Takes d).on_success br v br' h in (x, omega arith);
    ends = ubitvar-Keeps.ends;
  }

  pub Keeps-read_ubitvarfp : Keeps (λ v. v < 2 ^ 31) (read_ubitvarfp {p = p})
  Keeps-read_ubitvarfp = record {
    on_success = λ br v br' h.
        let (x, y, _) = (read_ubitvarfp-Takes d).on_success br v br' h in (x, omega arith);
    ends = ubitvarfp-Keeps.ends;
  }
