-- ===== src/FieldPath.antt =====
-- crates/haste_core/src/fieldpath.rs: `FieldPath` and its operations. A method that changes the
-- path returns the new one. None of those here reads; they are `Read` all the same, so that a panic
-- and a read compose in one `do` block.
pub mod Ops
pub mod Valid
pub mod OpsValid
pub mod TableValid
pub mod PushPop
pub mod Huffman
pub mod Table
pub mod Flat
pub mod Paths
use haste.Prelude.{
  ℕ, zero, suc, ◌+◌, Bool, false, List, [], ◌∷◌, Option, none, some, ltb, if◌then◌else◌, length,
  get_elem?, set, take,
}
use haste.Prelude.Int.{ℤ, pos}
use haste.Outcome.{panic}
use haste.Platform.{Platform}
use haste.BitReader.{Read, ◌>>=◌, pure}
use haste.Machine.{add_i32, add_usize, sub_usize, low_byte}

pub record FieldPath : Type 0 where
  pub components : List ℕ
  pub last : ℕ
  pub finished : Bool

-- `FieldPath::default`
abbrev pub default : FieldPath
default = record { components = 255 ∷ 0 ∷ 0 ∷ 0 ∷ 0 ∷ 0 ∷ 0 ∷ []; last = 0; finished = false }

-- `self.data[i] = b`, with the bounds check.
abbrev pub store : {p : Platform} → FieldPath → ℕ → ℕ → Read p FieldPath
store fp i b =
    if ltb i (length fp.components)
    then pure (record fp { components = set fp.components i b })
    else (λ br. panic)

module _ {p : Platform} where
  unfoldable pub inc_at : FieldPath → ℕ → ℤ → Read p FieldPath
  inc_at fp i v = elim (get_elem? fp.components i) [
    | none ↦ λ br. panic
    | some b ↦ do sum ← add_i32 (pos b) v; store fp i (low_byte sum)
  ]

  unfoldable pub inc_last : FieldPath → ℤ → Read p FieldPath
  inc_last fp v = inc_at fp fp.last v

  unfoldable pub push : FieldPath → ℤ → Read p FieldPath
  push fp v = do last ← add_usize fp.last 1; store (record fp { last = last }) last (low_byte v)

  -- The body of the loop of `pop`.
  unfoldable pub pop_one : FieldPath → Read p FieldPath
  pop_one fp = do
    cleared ← store fp fp.last 0
    last ← sub_usize cleared.last 1
    pure (record cleared { last = last })

  unfoldable pub pop : FieldPath → ℕ → Read p FieldPath
  pop fp zero = pure fp
  pop fp (suc n) = do popped ← pop_one fp; pop popped n

-- `FieldPath::get` and `FieldPath::iter`
unfoldable pub get : FieldPath → ℕ → Option ℕ
get fp index = get_elem? fp.components index

unfoldable pub iter : FieldPath → List ℕ
iter fp = take (fp.last + 1) fp.components
