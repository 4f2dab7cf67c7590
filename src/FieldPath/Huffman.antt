-- ===== src/FieldPath/Huffman.antt =====
-- crates/haste_core/src/fieldpath.rs: the Huffman tree, `Node` and `build_fieldop_hierarchy`, for
-- any type of operation. The standard library's `BinaryHeap` is a list whose `pop` takes out a
-- greatest element by `Node::cmp`; nodes of one heap have different numbers, so there is one.
pub mod Content
pub mod Leaves
use haste.Prelude.{
  ℕ, zero, suc, ◌+◌, Bool, true, false, List, [], ◌∷◌, Option, none, some, ltb, ◌==◌, if◌then◌else◌,
  length,
}
use haste.Outcome.{Outcome, ok, panic, stuck}

pub record FieldOpDescriptor (T : Type 0) : Type 0 where
  pub weight : ℕ
  pub op : T

pub data Node (T : Type 0) : Type 0 where
  leaf : ℕ → ℕ → T → Node T
  branch : ℕ → ℕ → Node T → Node T → Node T

pub data Order : Type 0 where
  less equal greater : Order

-- `usize::cmp`
abbrev pub cmp_usize : ℕ → ℕ → Order
cmp_usize a b = if ltb a b then less else if a == b then equal else greater

abbrev pub is_greater : Order → Bool
is_greater greater = true
is_greater _ = false

module _ {T : Type 0} where
  abbrev pub weight : Node T → ℕ
  weight (leaf w n v) = w
  weight (branch w n l r) = w

  abbrev pub num : Node T → ℕ
  num (leaf w n v) = n
  num (branch w n l r) = n

  -- `Node::cmp`: the lighter node is greater, and of two of one weight the later.
  unfoldable pub cmp : Node T → Node T → Order
  cmp a b =
      if weight a == weight b then cmp_usize (num a) (num b) else cmp_usize (weight b) (weight a)

  -- `BinaryHeap::pop`: a greatest element, and the others.
  unfoldable pub pop_node : Node T → List (Node T) → Node T × List (Node T)
  unfolding cmp
  pop_node x [] = (x, [])
  pop_node x (y ∷ ys) =
      let (best, others) = pop_node y ys in
      if is_greater (cmp best x) then (best, x ∷ others) else (x, best ∷ others)

  unfoldable pub pop_heap : List (Node T) → Option (Node T × List (Node T))
  pop_heap [] = none
  pop_heap (x ∷ xs) = some (pop_node x xs)

  -- `for fod in FIELDOP_DESCRIPTORS`: the leaves, numbered from `num`.
  unfoldable pub leaves_from : ℕ → List (FieldOpDescriptor T) → List (Node T)
  leaves_from num [] = []
  leaves_from num (d ∷ ds) = leaf d.weight num d.op ∷ leaves_from (num + 1) ds

  -- `let left = bh.pop().unwrap(); let right = bh.pop().unwrap();`
  unfoldable pub pop_again : Node T × List (Node T) → Option (Node T × Node T × List (Node T))
  unfolding pop_heap
  pop_again (left, heap) = elim (pop_heap heap) [
    | none ↦ none
    | some (right, heap') ↦ some (left, right, heap')
  ]

  unfoldable pub pop_two : List (Node T) → Option (Node T × Node T × List (Node T))
  unfolding pop_heap pop_again
  pop_two heap = elim (pop_heap heap) [ none ↦ none | some popped ↦ pop_again popped ]

  -- `while bh.len() > 1`, with the next number; `fuel` bounds the rounds.
  unfoldable pub merge_all {κ} : {E : Type κ} → ℕ → ℕ → List (Node T) → Outcome E (Node T)
  unfolding pop_two
  merge_all fuel num [] = panic
  merge_all fuel num (x ∷ []) = ok x
  merge_all zero num (x ∷ y ∷ rest) = stuck
  merge_all (suc fuel) num (x ∷ y ∷ rest) = elim (pop_two (x ∷ y ∷ rest)) [
    | none ↦ panic
    | some (left, right, heap) ↦
        merge_all fuel (num + 1) (branch (weight left + weight right) num left right ∷ heap)
  ]

  -- `build_fieldop_hierarchy`, over any descriptors. Each round merges two nodes into one, so there
  -- are fewer rounds than descriptors.
  unfoldable pub build_hierarchy {κ} :
      {E : Type κ} → List (FieldOpDescriptor T) → Outcome E (Node T)
  build_hierarchy ds = merge_all (length ds) (length ds) (leaves_from 0 ds)
