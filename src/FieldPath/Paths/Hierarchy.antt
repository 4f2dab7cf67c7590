-- ===== src/FieldPath/Paths/Hierarchy.antt =====
-- `read_field_paths` of crates/haste_core/src/fieldpath.rs against a walk of the tree of boxed nodes,
-- which the flat array replaces.
use haste.Prelude.{
  ℕ, zero, suc, ◌+◌, ◌≡◌, refl, ◌∙◌, Bool, true, false, List, some, get_elem?, if◌then◌else◌,
}
use haste.Outcome.{stuck}
use haste.Platform.{Platform}
use haste.BitReader.{BitReader, Read, ◌>>=◌, >>=-ext, pure, read_bool}
use haste.FieldPath.{FieldPath}
use haste.FieldPath.Huffman.{Node}
use haste.FieldPath.Flat.{FlatChild, leaf, branch, FlatBranch, FlatTree}
use haste.FieldPath.Flat.Represents.{Represents}
use haste.FieldPath.Ops.{FieldOp}
use haste.FieldPath.Paths.{node_at, write_path, after_op, read_loop}

module _ {p : Platform} where
  after_op-ext :
      (f g : FieldPath → ℕ → List FieldPath → Read p (ℕ × List FieldPath))
      → ((fp : FieldPath) (i : ℕ) (fps : List FieldPath) (br : BitReader p)
          → f fp i fps br ≡ g fp i fps br)
      → (fp : FieldPath) (i : ℕ) (fps : List FieldPath) (br : BitReader p)
      → after_op f fp i fps br ≡ after_op g fp i fps br
  after_op-ext f g h fp i fps br =
      either _ _ fp.finished
        (>>=-ext (write_path fps i fp) _ _ (λ fps' br'. h fp (i + 1) fps' br') br)
    where
      either :
          (m n : Read p (ℕ × List FieldPath)) (b : Bool)
          → m br ≡ n br
          → (if b then pure {p = p} (i, fps) else m) br
            ≡ (if b then pure {p = p} (i, fps) else n) br
      either m n true e = refl
      either m n false e = e

module _ {p : Platform} (root_left root_right : Node (FieldOp p)) where
  -- The walk from a branch with the children `l` and `r`.
  unfoldable pub walk :
      ℕ
      → Node (FieldOp p)
      → Node (FieldOp p)
      → FieldPath
      → ℕ
      → List FieldPath
      → Read p (ℕ × List FieldPath)
  walk zero l r fp i fps = λ br. stuck
  walk (suc fuel) l r fp i fps = do
    bit ← read_bool
    elim (if bit then r else l) [
      | Node.leaf w k op ↦ do fp' ← op fp; after_op (walk fuel root_left root_right) fp' i fps
      | Node.branch w k l' r' ↦ walk fuel l' r' fp i fps
    ]

  abbrev pub walk_child :
      ℕ → Node (FieldOp p) → FieldPath → ℕ → List FieldPath → Read p (ℕ × List FieldPath)
  walk_child fuel n fp i fps = elim n [
    | Node.leaf w k op ↦ op fp >>= λ fp'. after_op (walk fuel root_left root_right) fp' i fps
    | Node.branch w k l r ↦ walk fuel l r fp i fps
  ]

  module _ (tree : FlatTree (FieldOp p)) (root : FlatBranch (FieldOp p))
      (at_root : get_elem? tree.nodes tree.root ≡ some root)
      (root_l : Represents tree.nodes root.left root_left)
      (root_r : Represents tree.nodes root.right root_right) where
    abbrev restart : ℕ → FieldPath → ℕ → List FieldPath → Read p (ℕ × List FieldPath)
    restart fuel fp i fps = node_at tree tree.root >>= λ node. read_loop tree fuel node fp i fps

    abbrev read_child :
        ℕ → FlatChild (FieldOp p) → FieldPath → ℕ → List FieldPath → Read p (ℕ × List FieldPath)
    read_child fuel child fp i fps = elim child [
      | leaf op ↦ op fp >>= λ fp'. after_op (restart fuel) fp' i fps
      | branch idx ↦ node_at tree idx >>= λ node. read_loop tree fuel node fp i fps
    ]

    restart-eq :
        (fuel : ℕ) (fp : FieldPath) (i : ℕ) (fps : List FieldPath) (br : BitReader p)
        → restart fuel fp i fps br ≡ read_loop tree fuel root fp i fps br
    restart-eq fuel fp i fps br = rw at_root

    -- One bit down, in the array and in the tree.
    read_child-walk :
        (fuel : ℕ) (child : FlatChild (FieldOp p)) (n : Node (FieldOp p)) (fp : FieldPath) (i : ℕ)
        (fps : List FieldPath) (br : BitReader p)
        → Represents tree.nodes child n
        → ((node : FlatBranch (FieldOp p)) (l r : Node (FieldOp p)) (fp : FieldPath) (i : ℕ)
              (fps : List FieldPath) (br : BitReader p)
            → Represents tree.nodes node.left l
            → Represents tree.nodes node.right r
            → read_loop tree fuel node fp i fps br ≡ walk fuel l r fp i fps br)
        → read_child fuel child fp i fps br ≡ walk_child fuel n fp i fps br
    read_child-walk fuel child (Node.leaf w k op) fp i fps br h ih = rw h (
        >>=-ext (op fp) _ _
          (λ fp'. after_op-ext (restart fuel) (walk fuel root_left root_right) again fp' i fps) br)
      where
        again :
            (q : FieldPath) (j : ℕ) (qs : List FieldPath) (br : BitReader p)
            → restart fuel q j qs br ≡ walk fuel root_left root_right q j qs br
        again q j qs br =
            restart-eq fuel q j qs br ∙ ih root root_left root_right q j qs br root_l root_r
    read_child-walk fuel child (Node.branch w k l r) fp i fps br (idx, e, fb, at, hl, hr) ih =
        rw (e, at) (ih fb l r fp i fps br hl hr)

    pub read_loop-walk :
        (fuel : ℕ) (node : FlatBranch (FieldOp p)) (l r : Node (FieldOp p)) (fp : FieldPath) (i : ℕ)
        (fps : List FieldPath) (br : BitReader p)
        → Represents tree.nodes node.left l
        → Represents tree.nodes node.right r
        → read_loop tree fuel node fp i fps br ≡ walk fuel l r fp i fps br
    unfolding read_loop walk
    read_loop-walk zero node l r fp i fps br hl hr = refl
    read_loop-walk (suc fuel) node l r fp i fps br hl hr =
        let ih = read_loop-walk fuel in
        >>=-ext read_bool _ _
          (elim [
            | true ↦ λ br'. read_child-walk fuel node.right r fp i fps br' hr ih
            | false ↦ λ br'. read_child-walk fuel node.left l fp i fps br' hl ih
          ])
          br
