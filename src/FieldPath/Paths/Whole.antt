-- ===== src/FieldPath/Paths/Whole.antt =====
-- `read_field_paths` of crates/haste_core/src/fieldpath.rs as a whole: with the tree that it builds.
use haste.Prelude.{ℕ, ◌+◌, ◌%◌, ◌^◌, ◌≤◌, ◌≡◌, refl, arith, true, List, [], some, get_elem?, length}
use haste.Outcome.{ok, panic}
use haste.Platform.{Platform, Documented}
use haste.BitReader.{BitReader, Read, ◌>>=◌, lift, num_bits_left}
use haste.BitReader.Keeps.{Post, Within, Within-Post}
use haste.FieldPath.{FieldPath, default}
use haste.FieldPath.Huffman.{Node, build_hierarchy}
use haste.FieldPath.Huffman.Content.{leaves, build_hierarchy-leaves}
use haste.FieldPath.Huffman.Leaves.{AllOps, build_hierarchy-AllOps}
use haste.FieldPath.Flat.{
  FlatBranch, FlatTree, flatten, flatten_child, flatten_branch, build_flat_tree,
}
use haste.FieldPath.Flat.Represents.{Represents, branches, flatten_child-Represents}
use haste.FieldPath.Ops.{FieldOp}
use haste.FieldPath.OpsValid.{KeepsValid}
use haste.FieldPath.Table.{fieldop_descriptors}
use haste.FieldPath.TableValid.{table_valid}
use haste.FieldPath.Paths.{read_in, read_field_paths}
use haste.FieldPath.Paths.Hierarchy.{walk, read_loop-walk}
use haste.FieldPath.Paths.Valid.{Good, walk-Good}
use haste.FieldPath.Valid.{default-IsValid}

-- The tree that the descriptors give.
record Tree (p : Platform) : Type 0 where
  hierarchy : Node (FieldOp p)
  built : build_hierarchy {E = p.Error} (fieldop_descriptors p) ≡ ok hierarchy
  small : branches hierarchy ≤ 2 ^ 32

module _ {p : Platform} where
  -- Reading by a walk of the boxed tree.
  abbrev pub walk_from : Node (FieldOp p) → List FieldPath → Read p (ℕ × List FieldPath)
  walk_from (Node.leaf w k op) fps = λ br. panic
  walk_from (Node.branch w k l r) fps = λ br. walk l r (num_bits_left br + 1) l r default 0 fps br

  pub read_by_hierarchy : List FieldPath → Read p (ℕ × List FieldPath)
  read_by_hierarchy fps = do
    hierarchy ← lift (build_hierarchy (fieldop_descriptors p))
    walk_from hierarchy fps

  -- Reading by an array that was flattened from the tree.
  abbrev read_flat : Node (FieldOp p) → List FieldPath → Read p (ℕ × List FieldPath)
  read_flat n fps = do tree ← lift (flatten n); read_in tree fps

  leaves-branches : (n : Node (FieldOp p)) → leaves n ≡ branches n + 1
  leaves-branches (Node.leaf w k op) = refl
  leaves-branches (Node.branch w k l r) = omega (arith, leaves-branches l, leaves-branches r)

  read_flat-walk :
      (n : Node (FieldOp p)) (fps : List FieldPath) (br : BitReader p)
      → branches n ≤ 2 ^ 32
      → read_flat n fps br ≡ walk_from n fps br
  unfolding flatten_branch flatten_child
  read_flat-walk (Node.leaf w k op) fps br h = refl
  read_flat-walk (Node.branch w k l r) fps br h =
      let out2 = (flatten_child r (flatten_child l []).1).1 in
      let (idx, e, fb, at, hl, hr) = flatten_child-Represents (Node.branch w k l r) h in
      let same : length out2 % 2 ^ 32 ≡ idx = cc in in_array _ idx _ fb same at hl hr
    where
      in_array :
          (nodes : List (FlatBranch (FieldOp p))) (idx root : ℕ) (fb : FlatBranch (FieldOp p))
          → root ≡ idx
          → get_elem? nodes idx ≡ some fb
          → Represents nodes fb.left l
          → Represents nodes fb.right r
          → read_in {p = p} (record { nodes = nodes; root = root }) fps br
            ≡ walk l r (num_bits_left br + 1) l r default 0 fps br
      in_array nodes idx root fb same at hl hr =
          let tree : FlatTree (FieldOp p) = record { nodes = nodes; root = root } in
          let here : get_elem? nodes root ≡ some fb = rw same at in
          rw here (
            read_loop-walk l r tree fb here hl hr (num_bits_left br + 1) fb l r default 0 fps br hl
              hr)

  the_tree : Tree p
  the_tree =
      let (n, e, c) = build_hierarchy-leaves p.Error _ _ in
      record { hierarchy = n; built = e; small = omega (arith, leaves-branches n, c) }

  -- The reading of field paths in the flat array is the walk of the tree of boxed nodes that the
  -- same descriptors give, on every input: the same count, paths and reader, the same error, and
  -- a panic where that panics.
  pub read_field_paths-hierarchy :
      (fps : List FieldPath) (br : BitReader p) → read_field_paths fps br ≡ read_by_hierarchy fps br
  unfolding read_field_paths read_by_hierarchy build_flat_tree
  read_field_paths-hierarchy fps br =
      let t = the_tree in rw t.built (read_flat-walk t.hierarchy fps br t.small)

module _ {p : Platform} (d : Documented p) (checks : p.overflow_checks ≡ true) where
  walk_from-Good :
      (n : Node (FieldOp p)) (fps : List FieldPath) (br : BitReader p)
      → AllOps KeepsValid n
      → Within (Good fps) (num_bits_left br) (walk_from n fps br)
  walk_from-Good (Node.leaf w k op) fps br h = tt
  walk_from-Good (Node.branch w k l r) fps br (hl, hr) =
      walk-Good d fps l r hl hr (num_bits_left br) (num_bits_left br + 1) l r default 0 fps br hl hr
        (omega arith) (omega arith) default-IsValid
        (record { size = refl; fits = omega arith; valid = tt; kept = refl })

  pub read_field_paths-Within :
      (fps : List FieldPath) (br : BitReader p)
      → Within (Good fps) (num_bits_left br) (read_field_paths fps br)
  unfolding read_by_hierarchy
  read_field_paths-Within fps br =
      let t = the_tree {p = p} in
      let all =
        build_hierarchy-AllOps KeepsValid p.Error (fieldop_descriptors p) (table_valid d checks) in
      rw (read_field_paths-hierarchy fps br, t.built)
        (walk_from-Good t.hierarchy fps br (rw t.built at all))

  -- In a build with overflow checks `read_field_paths` ends on every input. If it succeeds with the
  -- count `n`, then `n` is at most the length of the slice, the first `n` paths are valid (seven
  -- bytes, and `last` below 7), and the rest of the slice is as it was.
  pub read_field_paths-Good :
      (fps : List FieldPath) (br : BitReader p) → Post (Good fps) (read_field_paths fps br)
  read_field_paths-Good fps br =
      Within-Post (Good fps) (num_bits_left br) (read_field_paths fps br)
        (read_field_paths-Within fps br)
