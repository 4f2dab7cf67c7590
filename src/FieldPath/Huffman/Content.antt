-- ===== src/FieldPath/Huffman/Content.antt =====
-- What the Huffman tree of crates/haste_core/src/fieldpath.rs holds: operations and weights.
use mathlib.Core.List.{Perm, append_assoc, append-nil, perm_append_comm}
use mathlib.Core.List.Perm
use haste.Prelude.{
  ℕ, zero, suc, ◌+◌, ◌≤◌, ◌≡◌, refl, ap, ◌∙◌, arith, inl, inr, Bool-cases, some, List, [], ◌∷◌,
  ◌++◌, map, if◌then◌else◌, length,
}
use haste.Outcome.{ok}
use haste.FieldPath.Huffman.{
  Node, leaf, branch, FieldOpDescriptor, weight, cmp, is_greater, pop_node, pop_again, pop_two,
  leaves_from, merge_all, build_hierarchy,
}

module _ {T : Type 0} where
  -- The operations at the leaves, left to right.
  abbrev pub ops : Node T → List T
  ops (leaf w n v) = v ∷ []
  ops (branch w n l r) = ops l ++ ops r

  abbrev pub heap_ops : List (Node T) → List T
  heap_ops [] = []
  heap_ops (x ∷ xs) = ops x ++ heap_ops xs

  swap_front : (a b c : List T) → Perm (a ++ (b ++ c)) (b ++ (a ++ c))
  swap_front a b c =
      rw (← append_assoc a b c, ← append_assoc b a c) (Perm.append_right c (perm_append_comm a b))

  abbrev pub heap_weight : List (Node T) → ℕ
  heap_weight [] = 0
  heap_weight (x ∷ xs) = weight x + heap_weight xs

  -- How many leaves a tree and a heap have.
  abbrev pub leaves : Node T → ℕ
  leaves (leaf w n v) = 1
  leaves (branch w n l r) = leaves l + leaves r

  abbrev heap_leaves : List (Node T) → ℕ
  heap_leaves [] = 0
  heap_leaves (x ∷ xs) = leaves x + heap_leaves xs

  -- `pop` loses nothing: the operations, the sum of the weights and the number of nodes.
  pub record SameContent (xs ys : List (Node T)) : Type 0 where
    pub perm : Perm (heap_ops xs) (heap_ops ys)
    pub sum : heap_weight xs ≡ heap_weight ys
    pub size : length xs ≡ length ys
    pub count : heap_leaves xs ≡ heap_leaves ys

  SameContent-trans :
      {xs ys zs : List (Node T)} → SameContent xs ys → SameContent ys zs → SameContent xs zs
  SameContent-trans a b = record {
    perm = Perm.trans a.perm b.perm;
    sum = a.sum ∙ b.sum;
    size = a.size ∙ b.size;
    count = a.count ∙ b.count;
  }

  SameContent-swap :
      (x best : Node T) (ys others : List (Node T))
      → SameContent ys (best ∷ others)
      → SameContent (x ∷ ys) (best ∷ x ∷ others)
  SameContent-swap x best ys others h = record {
    perm =
        Perm.trans (Perm.append_left (ops x) h.perm)
          (swap_front (ops x) (ops best) (heap_ops others));
    sum = omega (arith, h.sum);
    size = omega (arith, h.size);
    count = omega (arith, h.count);
  }

  SameContent-cons :
      (x : Node T) (ys zs : List (Node T)) → SameContent ys zs → SameContent (x ∷ ys) (x ∷ zs)
  SameContent-cons x ys zs h = record {
    perm = Perm.append_left (ops x) h.perm;
    sum = omega (arith, h.sum);
    size = omega (arith, h.size);
    count = omega (arith, h.count);
  }

  abbrev joined : Node T × List (Node T) → List (Node T)
  joined (n, ns) = n ∷ ns

  pop_node-SameContent :
      (x : Node T) (xs : List (Node T)) → SameContent (x ∷ xs) (joined (pop_node x xs))
  unfolding pop_node
  pop_node-SameContent x [] = record { perm = Perm.refl _; sum = refl; size = refl; count = refl }
  pop_node-SameContent x (y ∷ ys) = pick (pop_node y ys) (pop_node-SameContent y ys)
    where
      pick :
          (r : Node T × List (Node T))
          → SameContent (y ∷ ys) (joined r)
          → SameContent
              (x ∷ y ∷ ys)
              (joined (if is_greater (cmp r.0 x) then (r.0, x ∷ r.1) else (x, r.0 ∷ r.1)))
      pick (best, others) h = elim (Bool-cases (is_greater (cmp best x))) [
        | inl e ↦ rw e (SameContent-swap x best (y ∷ ys) others h)
        | inr e ↦ rw e (SameContent-cons x (y ∷ ys) (best ∷ others) h)
      ]

  -- A tree with the operations and the weight of a heap.
  pub record Holds (n : Node T) (xs : List (Node T)) : Type 0 where
    pub perm : Perm (ops n) (heap_ops xs)
    pub sum : weight n ≡ heap_weight xs
    pub count : leaves n ≡ heap_leaves xs

  pop_two-SameContent :
      (x y : Node T) (ys : List (Node T))
      → (left right : Node T) × (heap : List (Node T)) × (pop_two (x ∷ y ∷ ys)
          ≡ some (left, right, heap))
        × SameContent (x ∷ y ∷ ys) (left ∷ right ∷ heap)
  unfolding pop_two
  pop_two-SameContent x y ys = again (pop_node x (y ∷ ys)) (pop_node-SameContent x (y ∷ ys))
    where
      again :
          (r : Node T × List (Node T))
          → SameContent (x ∷ y ∷ ys) (joined r)
          → (left right : Node T) × (heap : List (Node T)) × (pop_again r
              ≡ some (left, right, heap))
            × SameContent (x ∷ y ∷ ys) (left ∷ right ∷ heap)
      again (left, []) a = absurd (omega (arith, a.size))
      again (left, z ∷ zs) a =
          let b = pop_node-SameContent z zs in
          (
            left,
            (pop_node z zs).0,
            (pop_node z zs).1,
            refl,
            SameContent-trans a (SameContent-cons left _ _ b),
          )

  Holds-step :
      (n left right : Node T) (num : ℕ) (xs heap : List (Node T))
      → SameContent xs (left ∷ right ∷ heap)
      → Holds n (branch (weight left + weight right) num left right ∷ heap)
      → Holds n xs
  Holds-step n left right num xs heap a h = record {
    perm =
        Perm.trans (rw (append_assoc (ops left) (ops right) (heap_ops heap)) at h.perm)
          (Perm.symm a.perm);
    sum = omega (arith, h.sum, a.sum);
    count = omega (arith, h.count, a.count);
  }

  merge_all-Holds {κ} :
      {E : Type κ} (fuel num : ℕ) (x : Node T) (xs : List (Node T))
      → length xs ≤ fuel
      → (n : Node T) × (merge_all {E = E} fuel num (x ∷ xs) ≡ ok n) × Holds n (x ∷ xs)
  unfolding merge_all
  merge_all-Holds fuel num x [] h = (
    x,
    refl,
    record { perm = rw append-nil (Perm.refl _); sum = omega arith; count = omega arith },
  )
  merge_all-Holds zero num x (y ∷ ys) h = absurd (omega arith)
  merge_all-Holds {E} (suc fuel) num x (y ∷ ys) h =
      let (left, right, heap, e, a) = pop_two-SameContent x y ys in
      let merged = branch (weight left + weight right) num left right in
      let (n, done, t) =
        merge_all-Holds {E = E} fuel (num + 1) merged heap (omega (arith, a.size)) in
      (n, rw (e, merge_all) done, Holds-step n left right num _ heap a t)

  abbrev pub total : List (FieldOpDescriptor T) → ℕ
  total [] = 0
  total (d ∷ ds) = d.weight + total ds

  leaves_from-content :
      (num : ℕ) (ds : List (FieldOpDescriptor T))
      → (heap_ops (leaves_from num ds) ≡ map (λ d. d.op) ds)
        × (heap_weight (leaves_from num ds) ≡ total ds)
        × (length (leaves_from num ds) ≡ length ds)
        × (heap_leaves (leaves_from num ds) ≡ length ds)
  unfolding leaves_from
  leaves_from-content num [] = (refl, refl, refl, refl)
  leaves_from-content num (d ∷ ds) =
      let (o, w, l, c) = leaves_from-content (num + 1) ds in
      (ap (λ (os : List T). d.op ∷ os) o, ap (λ (t : ℕ). d.weight + t) w, ap suc l, omega arith)

  build_from {κ} :
      (E : Type κ) (d : FieldOpDescriptor T) (ds : List (FieldOpDescriptor T))
      → (n : Node T) × (build_hierarchy {E = E} (d ∷ ds) ≡ ok n) × Holds n (leaves_from 0 (d ∷ ds))
  unfolding build_hierarchy leaves_from
  build_from E d ds =
      let (_, _, l, _) = leaves_from-content 0 (d ∷ ds) in
      merge_all-Holds {E = E} (length (d ∷ ds)) (length (d ∷ ds)) (leaf d.weight 0 d.op)
        (leaves_from 1 ds) (omega (arith, l))

  -- From at least one descriptor the building ends with a tree. Its leaves are the operations of
  -- the descriptors, each as often as there, and its weight is the sum of theirs.
  pub build_hierarchy-Holds {κ} :
      (E : Type κ) (d : FieldOpDescriptor T) (ds : List (FieldOpDescriptor T))
      → (n : Node T) × (build_hierarchy {E = E} (d ∷ ds) ≡ ok n)
        × Perm (ops n) (map (λ e. e.op) (d ∷ ds))
        × (weight n ≡ total (d ∷ ds))
  build_hierarchy-Holds E d ds =
      let (o, w, _, _) = leaves_from-content 0 (d ∷ ds) in
      let (n, e, h) = build_from E d ds in (n, e, rw o at h.perm, h.sum ∙ w)

  pub build_hierarchy-leaves {κ} :
      (E : Type κ) (d : FieldOpDescriptor T) (ds : List (FieldOpDescriptor T))
      → (n : Node T) × (build_hierarchy {E = E} (d ∷ ds) ≡ ok n) × (leaves n ≡ length (d ∷ ds))
  build_hierarchy-leaves E d ds =
      let (_, _, _, c) = leaves_from-content 0 (d ∷ ds) in
      let (n, e, h) = build_from E d ds in (n, e, h.count ∙ c)
