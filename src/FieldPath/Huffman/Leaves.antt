-- ===== src/FieldPath/Huffman/Leaves.antt =====
-- The operations at the leaves of the Huffman tree of crates/haste_core/src/fieldpath.rs, and the
-- order in which `BinaryHeap::pop` takes out the nodes.
use haste.Prelude.{ℕ, zero, suc, ◌+◌, ◌≤◌, arith, Option, none, some, List, [], ◌∷◌, length}
use haste.Outcome.{Outcome, ok, panic}
use haste.FieldPath.Huffman.{
  Node, leaf, branch, FieldOpDescriptor, weight, cmp, pop_node, pop_again, pop_two, leaves_from,
  merge_all, build_hierarchy,
}

module _ {T : Type 0} (P : T → Type 0) where
  abbrev pub AllOps : Node T → Type 0
  AllOps (leaf w n v) = P v
  AllOps (branch w n l r) = AllOps l × AllOps r

  abbrev AllHeap : List (Node T) → Type 0
  AllHeap [] = Unit {0}
  AllHeap (x ∷ xs) = AllOps x × AllHeap xs

  abbrev pub AllDescriptors : List (FieldOpDescriptor T) → Type 0
  AllDescriptors [] = Unit {0}
  AllDescriptors (d ∷ ds) = P d.op × AllDescriptors ds

  pop_node-AllHeap :
      (x : Node T) (xs : List (Node T))
      → AllOps x
      → AllHeap xs
      → AllOps (pop_node x xs).0 × AllHeap (pop_node x xs).1
  unfolding pop_node
  pop_node-AllHeap x [] h t = (h, t)
  pop_node-AllHeap x (y ∷ ys) h (hy, t) = ground (arith, pop_node-AllHeap y ys hy t)

  abbrev AllTwo : Option (Node T × Node T × List (Node T)) → Type 0
  AllTwo none = Unit {0}
  AllTwo (some (l, r, heap)) = AllOps l × AllOps r × AllHeap heap

  abbrev pub AllResult {κ} : {E : Type κ} → Outcome E (Node T) → Type 0
  AllResult (ok n) = AllOps n
  AllResult _ = Unit {0}

  pop_two-AllTwo :
      (x : Node T) (xs : List (Node T)) → AllOps x → AllHeap xs → AllTwo (pop_two (x ∷ xs))
  unfolding pop_two
  pop_two-AllTwo x xs h t = again (pop_node x xs) (pop_node-AllHeap x xs h t)
    where
      again : (r : Node T × List (Node T)) → AllOps r.0 × AllHeap r.1 → AllTwo (pop_again r)
      again (left, []) _ = tt
      again (left, z ∷ zs) (hl, (hz, hzs)) = let (a, b) = pop_node-AllHeap z zs hz hzs in (hl, a, b)

  merge_all-AllOps {κ} :
      (E : Type κ) (fuel k : ℕ) (xs : List (Node T))
      → AllHeap xs
      → AllResult (merge_all {E = E} fuel k xs)
  unfolding merge_all
  merge_all-AllOps E fuel k [] h = tt
  merge_all-AllOps E fuel k (x ∷ []) h = h.0
  merge_all-AllOps E zero k (x ∷ y ∷ ys) h = tt
  merge_all-AllOps E (suc fuel) k (x ∷ y ∷ ys) (hx, t) =
      next (pop_two (x ∷ y ∷ ys)) (pop_two-AllTwo x (y ∷ ys) hx t) (λ l r heap hl hr hh.
        merge_all-AllOps E fuel (k + 1) (branch (weight l + weight r) k l r ∷ heap) ((hl, hr), hh))
    where
      next :
          (o : Option (Node T × Node T × List (Node T)))
          → AllTwo o
          → ((l r : Node T) (heap : List (Node T))
              → AllOps l
              → AllOps r
              → AllHeap heap
              → AllResult
                  (merge_all {E = E} fuel (k + 1) (branch (weight l + weight r) k l r ∷ heap)))
          → AllResult {E = E} (elim o [
            | none ↦ panic
            | some (left, right, heap) ↦
                merge_all {E = E} fuel
                  (k + 1)
                  (branch (weight left + weight right) k left right ∷ heap)
          ])
      next none h ih = tt
      next (some (l, r, heap)) (hl, hr, hh) ih = ih l r heap hl hr hh

  leaves_from-AllHeap :
      (k : ℕ) (ds : List (FieldOpDescriptor T)) → AllDescriptors ds → AllHeap (leaves_from k ds)
  unfolding leaves_from
  leaves_from-AllHeap k [] h = tt
  leaves_from-AllHeap k (d ∷ ds) (h, t) = (h, leaves_from-AllHeap (k + 1) ds t)

  pub build_hierarchy-AllOps {κ} :
      (E : Type κ) (ds : List (FieldOpDescriptor T))
      → AllDescriptors ds
      → AllResult (build_hierarchy {E = E} ds)
  unfolding build_hierarchy
  build_hierarchy-AllOps E ds h =
      merge_all-AllOps E (length ds) (length ds) (leaves_from 0 ds) (leaves_from-AllHeap 0 ds h)

module _ {T : Type 0} where
  -- No node of the list is lighter.
  abbrev pub NoneLighter : Node T → List (Node T) → Type 0
  NoneLighter n [] = Unit {0}
  NoneLighter n (x ∷ xs) = (weight n ≤ weight x) × NoneLighter n xs

  NoneLighter-of_le :
      (m n : Node T) (xs : List (Node T))
      → weight m ≤ weight n
      → NoneLighter n xs
      → NoneLighter m xs
  NoneLighter-of_le m n [] h t = tt
  NoneLighter-of_le m n (x ∷ xs) h (a, t) = (omega arith, NoneLighter-of_le m n xs h t)

  -- `pop` takes out a node such that none that stays is lighter.
  pub pop_node-NoneLighter :
      (x : Node T) (xs : List (Node T)) → NoneLighter (pop_node x xs).0 (pop_node x xs).1
  unfolding pop_node cmp
  pop_node-NoneLighter x [] = tt
  pop_node-NoneLighter x (y ∷ ys) =
      let (best, others) = pop_node y ys in
      ground (arith, pop_node-NoneLighter y ys, NoneLighter-of_le x best others)
