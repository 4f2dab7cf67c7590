-- ===== src/FieldPath/Flat.antt =====
-- crates/haste_core/src/fieldpath.rs: the Huffman tree as an array, `FlatTree`.
pub mod Represents
use haste.Prelude.{ℕ, zero, suc, ◌+◌, ◌%◌, ◌^◌, List, [], ◌∷◌, ◌++◌, length}
use haste.Outcome.{Outcome, ok, panic, ◌>>=◌}
use haste.FieldPath.Huffman.{Node, FieldOpDescriptor, build_hierarchy}

pub data FlatChild (T : Type 0) : Type 0 where
  leaf : T → FlatChild T
  branch : ℕ → FlatChild T

pub record FlatBranch (T : Type 0) : Type 0 where
  pub left : FlatChild T
  pub right : FlatChild T

pub record FlatTree (T : Type 0) : Type 0 where
  pub nodes : List (FlatBranch T)
  pub root : ℕ

module _ {T : Type 0} where
  -- The end of `flatten_branch`: the branch goes behind the others, and `out.len() as u32` is its
  -- index.
  abbrev pub push_branch : FlatChild T → FlatChild T → List (FlatBranch T) → ℕ × List (FlatBranch T)
  push_branch left right out =
      (length out % 2 ^ 32, out ++ (record { left = left; right = right } ∷ []))

  -- `flatten_child`, with its call of `flatten_branch` on the same node written out.
  unfoldable pub flatten_child : Node T → List (FlatBranch T) → FlatChild T × List (FlatBranch T)
  flatten_child (Node.leaf w n v) out = (leaf v, out)
  flatten_child (Node.branch w n l r) out =
      let (left, out1) = flatten_child l out in
      let (right, out2) = flatten_child r out1 in
      let (idx, out3) = push_branch left right out2 in (branch idx, out3)

  -- `flatten_branch`: `unwrap_left_branch` of a leaf is unreachable.
  unfoldable pub flatten_branch {κ} :
      {E : Type κ} → Node T → List (FlatBranch T) → Outcome E (ℕ × List (FlatBranch T))
  flatten_branch (Node.leaf w n v) out = panic
  flatten_branch (Node.branch w n l r) out =
      let (left, out1) = flatten_child l out in
      let (right, out2) = flatten_child r out1 in ok (push_branch left right out2)

  -- The rest of `FIELDOP_TREE`, behind the building of the hierarchy.
  abbrev pub flatten {κ} : {E : Type κ} → Node T → Outcome E (FlatTree T)
  flatten hierarchy = do
    (root, nodes) ← flatten_branch hierarchy []
    ok (record { nodes = nodes; root = root })

  -- `FIELDOP_TREE`, over any descriptors.
  unfoldable pub build_flat_tree {κ} :
      {E : Type κ} → List (FieldOpDescriptor T) → Outcome E (FlatTree T)
  build_flat_tree ds = do hierarchy ← build_hierarchy ds; flatten hierarchy
