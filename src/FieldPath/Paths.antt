-- ===== src/FieldPath/Paths.antt =====
-- crates/haste_core/src/fieldpath.rs: `read_field_paths`.
pub mod Hierarchy
pub mod Valid
pub mod Whole
use haste.Prelude.{
  ℕ, zero, suc, ◌+◌, Bool, true, false, List, Option, none, some, ltb, leb, if◌then◌else◌, length,
  get_elem?, set,
}
use haste.Outcome.{panic, stuck}
use haste.Platform.{Platform}
use haste.BitReader.{BitReader, Read, ◌>>=◌, pure, lift, num_bits_left, read_bool}
use haste.FieldPath.{FieldPath, default}
use haste.FieldPath.Flat.{FlatChild, leaf, branch, FlatBranch, FlatTree, build_flat_tree}
use haste.FieldPath.Ops.{FieldOp}
use haste.FieldPath.Table.{fieldop_descriptors}

module _ {p : Platform} where
  -- `&nodes[idx]`, with the bounds check.
  abbrev pub in_bounds : Option (FlatBranch (FieldOp p)) → Read p (FlatBranch (FieldOp p))
  in_bounds none = λ br. panic
  in_bounds (some node) = pure node

  abbrev pub node_at : FlatTree (FieldOp p) → ℕ → Read p (FlatBranch (FieldOp p))
  node_at tree idx = in_bounds (get_elem? tree.nodes idx)

  -- `fps[i] = fp.clone(); i += 1; assert!(i <= fps.len());`
  abbrev pub write_path : List FieldPath → ℕ → FieldPath → Read p (List FieldPath)
  write_path fps i fp =
      if ltb i (length fps)
      then (if leb (i + 1) (length fps) then pure (set fps i fp) else (λ br. panic))
      else (λ br. panic)

  -- Behind an operation: the end of the reading, or the path is written and the loop goes on.
  abbrev pub after_op :
      (FieldPath → ℕ → List FieldPath → Read p (ℕ × List FieldPath))
      → FieldPath
      → ℕ
      → List FieldPath
      → Read p (ℕ × List FieldPath)
  after_op again fp i fps =
      if fp.finished then pure (i, fps) else do fps' ← write_path fps i fp; again fp (i + 1) fps'

  -- The loop, from the branch `node`. It returns the count and the slice as it is left.
  unfoldable pub read_loop :
      FlatTree (FieldOp p)
      → ℕ
      → FlatBranch (FieldOp p)
      → FieldPath
      → ℕ
      → List FieldPath
      → Read p (ℕ × List FieldPath)
  read_loop tree zero node fp i fps = λ br. stuck
  read_loop tree (suc fuel) node fp i fps = do
    bit ← read_bool
    elim (if bit then node.right else node.left) [
      | leaf op ↦ do
        fp' ← op fp
        after_op
            (λ fp'' i' fps'. do
              root ← node_at tree tree.root
              read_loop tree fuel root fp'' i' fps')
            fp' i fps
      | branch idx ↦ do node' ← node_at tree idx; read_loop tree fuel node' fp i fps
    ]

  -- Each round reads a bit, so the bits left bound the rounds.
  abbrev pub read_in : FlatTree (FieldOp p) → List FieldPath → Read p (ℕ × List FieldPath)
  read_in tree fps = do
    node ← node_at tree tree.root
    λ br. read_loop tree (num_bits_left br + 1) node default 0 fps br

  unfoldable pub read_field_paths : List FieldPath → Read p (ℕ × List FieldPath)
  read_field_paths fps = do tree ← lift (build_flat_tree (fieldop_descriptors p)); read_in tree fps
