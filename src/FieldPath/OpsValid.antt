-- ===== src/FieldPath/OpsValid.antt =====
-- What the forty operations of crates/haste_core/src/fieldpath.rs share, for the invariant of a
-- field path in a build with overflow checks.
use haste.Prelude.{ℕ, zero, suc, ◌+◌, ◌≡◌, true}
use haste.Prelude.Int.{ℤ, pos, negsuc}
use haste.Platform.{Platform, Documented}
use haste.BitReader.{Read, ◌>>=◌, pure, read_ubit64, read_ubitvar, read_ubitvarfp, read_varint32}
use haste.BitReader.Keeps.{
  Any, Keeps, Keeps-bind, Keeps-pure, Keeps-if, Keeps-weaken, Keeps-read_ubit64, Keeps-read_bool,
  Keeps-read_varint32, Keeps-read_ubitvar, Keeps-read_ubitvarfp,
}
use haste.Machine.{sub_usize, as_i32}
use haste.FieldPath.{FieldPath}
use haste.FieldPath.Ops.{
  FieldOp, varfp, varfp_plus, ubitvar_plus, ubit_plus, varint_plus_one, pack4, push_varfp,
  push_ubit5, push_each, inc_each,
}
use haste.FieldPath.Valid.{IsValid, Keeps-add_i32, Keeps-inc_at, Keeps-push, Keeps-sub_usize}

abbrev pub KeepsValid : {p : Platform} → FieldOp p → Type 0
KeepsValid {p} op = (fp : FieldPath) → IsValid fp → Keeps IsValid (op fp)

module _ {p : Platform} where
  pub then-Any :
      {A B : Type 0} {Q : B → Type 0} {m : Read p A} {k : A → Read p B}
      → Keeps Any m
      → ((a : A) → Keeps Q (k a))
      → Keeps Q (m >>= k)
  then-Any t u = Keeps-bind t (λ a _. u a)

  pub then_valid :
      {B : Type 0} {Q : B → Type 0} {m : Read p FieldPath} {k : FieldPath → Read p B}
      → Keeps IsValid m
      → ((fp : FieldPath) → IsValid fp → Keeps Q (k fp))
      → Keeps Q (m >>= k)
  then_valid t u = Keeps-bind t u

module _ {p : Platform} (d : Documented p) where
  pub Any-ubit64 : (n : ℕ) → Keeps Any (read_ubit64 {p = p} n)
  Any-ubit64 n = Keeps-weaken (Keeps-read_ubit64 d n) (λ v _. tt)

  pub Any-ubitvar : Keeps Any (read_ubitvar {p = p})
  Any-ubitvar = Keeps-weaken (Keeps-read_ubitvar d) (λ v _. tt)

  pub Any-ubitvarfp : Keeps Any (read_ubitvarfp {p = p})
  Any-ubitvarfp = Keeps-weaken (Keeps-read_ubitvarfp d) (λ v _. tt)

  pub Any-varint32 : Keeps Any (read_varint32 {p = p})
  Any-varint32 = Keeps-read_varint32 d

  pub Any-varfp : Keeps Any (varfp {p = p})
  Any-varfp = then-Any Any-ubitvarfp (λ v. Keeps-pure tt)

  pub Any-varfp_plus : (k : ℕ) → Keeps Any (varfp_plus {p = p} k)
  Any-varfp_plus k = then-Any Any-ubitvarfp (λ v. Keeps-add_i32 (as_i32 v) (pos k))

  pub Any-ubitvar_plus : (k : ℕ) → Keeps Any (ubitvar_plus {p = p} k)
  Any-ubitvar_plus k = then-Any Any-ubitvar (λ v. Keeps-add_i32 (as_i32 v) (pos k))

  pub Any-ubit_plus : (n k : ℕ) → Keeps Any (ubit_plus {p = p} n k)
  Any-ubit_plus n k = then-Any (Any-ubit64 n) (λ v. Keeps-add_i32 (as_i32 v) (pos k))

  pub Any-varint_plus_one : Keeps Any (varint_plus_one {p = p})
  Any-varint_plus_one = then-Any Any-varint32 (λ v. Keeps-add_i32 v (pos 1))

  pub Any-pack4 : Keeps Any (pack4 {p = p})
  Any-pack4 = then-Any (Any-ubit64 4) (λ v. Keeps-add_i32 (as_i32 v) (negsuc 6))

  pub valid_inc_each :
      (delta : Read p ℤ) (n i : ℕ) → Keeps Any delta → KeepsValid {p = p} (inc_each delta n i)
  unfolding inc_each
  valid_inc_each delta zero i t fp h = Keeps-pure h
  valid_inc_each delta (suc n) i t fp h = then-Any (Keeps-read_bool d) (λ selected.
      then_valid
        (Keeps-if selected (λ _. then-Any t (λ v. Keeps-inc_at fp i v h)) (λ _. Keeps-pure h))
        (λ q hq. valid_inc_each delta n (i + 1) t q hq))

module _ {p : Platform} (d : Documented p) (checks : p.overflow_checks ≡ true) where
  pub valid_push_varfp : KeepsValid {p = p} push_varfp
  unfolding push_varfp
  valid_push_varfp fp h = then-Any (Any-varfp d) (λ v. Keeps-push checks fp v h)

  pub valid_push_ubit5 : KeepsValid {p = p} push_ubit5
  unfolding push_ubit5
  valid_push_ubit5 fp h = then-Any (Any-ubit64 d 5) (λ v. Keeps-push checks fp (as_i32 v) h)

  pub IsValid-push_each :
      (fp : FieldPath) (n : ℕ) → IsValid fp → Keeps IsValid (push_each {p = p} fp n)
  unfolding push_each
  IsValid-push_each fp zero h = Keeps-pure h
  IsValid-push_each fp (suc n) h =
      then_valid (valid_push_varfp fp h) (λ q hq. IsValid-push_each q n hq)

  pub Any-sub_usize : (a b : ℕ) → Keeps Any (sub_usize {p = p} a b)
  Any-sub_usize a b = Keeps-weaken (Keeps-sub_usize checks a b) (λ v _. tt)

pub IsValid-finish :
    {p : Platform} (fp : FieldPath)
    → IsValid fp
    → Keeps IsValid (pure {p = p} (record fp { finished = true }))
IsValid-finish fp h =
    Keeps-pure (record { seven = h.seven; bytes = h.bytes; in_range = h.in_range })
