-- ===== src/FieldPath/Valid.antt =====
-- The invariant of a field path, crates/haste_core/src/fieldpath.rs: seven bytes, and `last` is the
-- index of one of them; and the basic operations in a build with overflow checks.
use haste.Prelude.{
  ℕ, zero, suc, ◌+◌, ◌-◌, ◌%◌, ◌<◌, ◌≡◌, refl, ◌∙◌, ◌^◌, leb, leb→le, ◌≤◌, arith, Bool, true, List,
  [], ◌∷◌, Option, none, some, ltb, length, length-set, get_elem?, set,
}
use haste.Prelude.Int.{ℤ, pos, ◌+ℤ◌}
use haste.Outcome.{panic}
use haste.Platform.{Platform}
use haste.BitReader.{◌>>=◌}
use haste.BitReader.Keeps.{Any, Keeps, Keeps-bind, Keeps-pure, Keeps-panic, Keeps-if, Keeps-weaken}
use haste.Machine.{low_byte, checked, fits_i32, add_i32, add_usize, sub_usize}
use haste.FieldPath.{FieldPath, default, store, inc_at, inc_last, push, pop_one, pop}

abbrev pub AllBytes : List ℕ → Type 0
AllBytes [] = Unit {0}
AllBytes (b ∷ bs) = (b < 256) × AllBytes bs

pub record IsValid (fp : FieldPath) : Type 0 where
  pub seven : length fp.components ≡ 7
  pub bytes : AllBytes fp.components
  pub in_range : fp.last < 7

pub default-IsValid : IsValid default
default-IsValid = record { seven = refl; bytes = omega arith; in_range = omega arith }

low_byte-lt : (v : ℤ) → low_byte v < 256
low_byte-lt v = ground arith

pub set-AllBytes : (bs : List ℕ) (i b : ℕ) → AllBytes bs → b < 256 → AllBytes (set bs i b)
set-AllBytes [] i b h hb = tt
set-AllBytes (c ∷ bs) zero b (h, t) hb = (hb, t)
set-AllBytes (c ∷ bs) (suc i) b (h, t) hb = (h, set-AllBytes bs i b t hb)

-- What is asked of a path whose `last` is being moved.
abbrev IsStored : FieldPath → Type 0
IsStored fp = (length fp.components ≡ 7) × AllBytes fp.components

module _ {p : Platform} where
  Keeps-store :
      (fp : FieldPath) (i b : ℕ)
      → IsStored fp
      → b < 256
      → Keeps (λ q. IsStored q × (i < 7) × (q.last ≡ fp.last)) (store {p = p} fp i b)
  Keeps-store fp i b (l, bs) hb =
      Keeps-if (ltb i (length fp.components))
        (λ h. Keeps-pure (
          (length-set fp.components i b ∙ l, set-AllBytes fp.components i b bs hb),
          ground arith,
          refl,
        ))
        (λ h. Keeps-panic)

  pub Keeps-add_i32 : (a b : ℤ) → Keeps Any (add_i32 {p = p} a b)
  unfolding add_i32
  Keeps-add_i32 a b =
      Keeps-if (fits_i32 (a +ℤ b)) (λ _. Keeps-pure tt)
        (λ _. Keeps-if p.overflow_checks (λ _. Keeps-panic) (λ _. Keeps-pure tt))

  pub Keeps-inc_at :
      (fp : FieldPath) (i : ℕ) (v : ℤ) → IsValid fp → Keeps IsValid (inc_at {p = p} fp i v)
  unfolding inc_at
  Keeps-inc_at fp i v h = at_elem (get_elem? fp.components i)
    where
      at_elem :
          (o : Option ℕ)
          → Keeps IsValid (elim o [
            | none ↦ λ br. panic
            | some b ↦ add_i32 {p = p} (pos b) v >>= λ sum. store fp i (low_byte sum)
          ])
      at_elem none = Keeps-panic
      at_elem (some b) = Keeps-bind (Keeps-add_i32 (pos b) v) (λ sum _.
          Keeps-weaken (Keeps-store fp i (low_byte sum) (h.seven, h.bytes) (low_byte-lt sum))
            (λ q ((l, bs), _, e). record { seven = l; bytes = bs; in_range = rw e h.in_range }))

  pub Keeps-inc_last : (fp : FieldPath) (v : ℤ) → IsValid fp → Keeps IsValid (inc_last {p = p} fp v)
  unfolding inc_last
  Keeps-inc_last fp v h = Keeps-inc_at fp fp.last v h

-- With overflow checks an operation that succeeds is exact.
module _ {p : Platform} (checks : p.overflow_checks ≡ true) where
  Keeps-checked :
      {A : Type 0} (fits : Bool) (exact wrapped : A)
      → Keeps (λ v. (v ≡ exact) × (fits ≡ true)) (checked {p = p} fits exact wrapped)
  Keeps-checked fits exact wrapped =
      Keeps-if fits (λ h. Keeps-pure (refl, h))
        (λ _. Keeps-if p.overflow_checks (λ _. Keeps-panic) (λ h. absurd (cc checks)))

  pub Keeps-push : (fp : FieldPath) (v : ℤ) → IsValid fp → Keeps IsValid (push {p = p} fp v)
  unfolding push add_usize
  Keeps-push fp v h =
      Keeps-bind (Keeps-checked (ltb (fp.last + 1) (2 ^ 64)) (fp.last + 1) ((fp.last + 1) % 2 ^ 64))
        (λ last _.
          Keeps-weaken
            (Keeps-store (record fp { last = last }) last (low_byte v) (h.seven, h.bytes)
              (low_byte-lt v))
            (λ q ((l, bs), r, e). record { seven = l; bytes = bs; in_range = rw e r }))

  Keeps-pop_one : (fp : FieldPath) → IsValid fp → Keeps IsValid (pop_one {p = p} fp)
  unfolding pop_one sub_usize
  Keeps-pop_one fp h =
      Keeps-bind (Keeps-store fp fp.last 0 (h.seven, h.bytes) (omega arith)) (λ q ((l, bs), r, e).
        Keeps-bind (Keeps-checked (leb 1 q.last) (q.last - 1) (q.last + 2 ^ 64 - 1))
          (λ last (exact, fits).
            Keeps-pure (record { seven = l; bytes = bs; in_range = omega (arith, h.in_range) })))

  pub Keeps-pop : (fp : FieldPath) (n : ℕ) → IsValid fp → Keeps IsValid (pop {p = p} fp n)
  unfolding pop
  Keeps-pop fp zero h = Keeps-pure h
  Keeps-pop fp (suc n) h = Keeps-bind (Keeps-pop_one fp h) (λ q hq. Keeps-pop q n hq)

  pub Keeps-sub_usize : (a b : ℕ) → Keeps (λ v. (v ≡ a - b) × (b ≤ a)) (sub_usize {p = p} a b)
  unfolding sub_usize
  Keeps-sub_usize a b =
      Keeps-weaken (Keeps-checked (leb b a) (a - b) (a + 2 ^ 64 - b))
        (λ v (e, h). (e, leb→le b a h))
