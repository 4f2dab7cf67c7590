-- ===== src/FieldPath/Flat/Represents.antt =====
-- When an array of branches represents a tree (`flatten_branch` of
-- crates/haste_core/src/fieldpath.rs).
use haste.Prelude.{
  ℕ, zero, suc, ◌+◌, ◌%◌, ◌^◌, ◌≤◌, ◌<◌, ◌≡◌, refl, sym, ap, ◌∙◌, arith, List, [], ◌∷◌, ◌++◌, some,
  length, length-append, get_elem?,
}
use mathlib.Core.List.{append_assoc, append-nil}
use haste.FieldPath.Huffman.{Node}
use haste.FieldPath.Flat.{FlatChild, leaf, branch, FlatBranch, flatten_child}

module _ {T : Type 0} where
  -- `child`, read in `nodes`, is the tree.
  abbrev pub Represents : List (FlatBranch T) → FlatChild T → Node T → Type 0
  Represents nodes child (Node.leaf w n v) = child ≡ leaf v
  Represents nodes child (Node.branch w n l r) =
      (idx : ℕ) × (child ≡ branch idx)
      × (fb : FlatBranch T) × (get_elem? nodes idx ≡ some fb)
      × Represents nodes fb.left l
      × Represents nodes fb.right r

  get_elem?-append :
      (xs ys : List (FlatBranch T)) (i : ℕ) {b : FlatBranch T}
      → get_elem? xs i ≡ some b
      → get_elem? (xs ++ ys) i ≡ some b
  get_elem?-append [] ys i h = absurd (cc)
  get_elem?-append (x ∷ xs) ys zero h = h
  get_elem?-append (x ∷ xs) ys (suc i) h = get_elem?-append xs ys i h

  get_elem?-append_end :
      (xs : List (FlatBranch T)) (b : FlatBranch T)
      → get_elem? (xs ++ (b ∷ [])) (length xs) ≡ some b
  get_elem?-append_end [] b = refl
  get_elem?-append_end (x ∷ xs) b = get_elem?-append_end xs b

  Represents-append :
      (nodes more : List (FlatBranch T)) (child : FlatChild T) (n : Node T)
      → Represents nodes child n
      → Represents (nodes ++ more) child n
  Represents-append nodes more child (Node.leaf w k v) h = h
  Represents-append nodes more child (Node.branch w k l r) (idx, e, fb, at, hl, hr) = (
    idx,
    e,
    fb,
    get_elem?-append nodes more idx at,
    Represents-append nodes more fb.left l hl,
    Represents-append nodes more fb.right r hr,
  )

  -- Flattening puts branches behind those that are there.
  pub record Flattened (out : List (FlatBranch T)) (n : Node T) (child : FlatChild T)
      (out' : List (FlatBranch T)) : Type 0 where
    pub more : List (FlatBranch T)
    pub grows : out' ≡ out ++ more
    pub represents : length out' ≤ 2 ^ 32 → Represents out' child n

  module _ (w k : ℕ) (l r : Node T) (left right : FlatChild T) (out out1 out2 : List (FlatBranch T))
      (fl : Flattened out l left out1) (fr : Flattened out1 r right out2) where
    abbrev here : FlatBranch T
    here = record { left = left; right = right }

    size : length out2 ≡ length out1 + length fr.more
    size = ap length fr.grows ∙ length-append out1 fr.more

    at_end :
        length out2 < 2 ^ 32 → get_elem? (out2 ++ (here ∷ [])) (length out2 % 2 ^ 32) ≡ some here
    at_end h =
        let small : length out2 % 2 ^ 32 ≡ length out2 = omega arith in
        rw small (get_elem?-append_end out2 here)

    left_kept : length out2 < 2 ^ 32 → Represents (out2 ++ (here ∷ [])) left l
    left_kept h =
        let at_first = fl.represents (omega (arith, size)) in
        Represents-append out2 (here ∷ []) left l
          (rw (← fr.grows) at (Represents-append out1 fr.more left l at_first))

    Flattened-branch :
        Flattened out (Node.branch w k l r) (branch (length out2 % 2 ^ 32)) (out2 ++ (here ∷ []))
    Flattened-branch = record {
      more = fl.more ++ (fr.more ++ (here ∷ []));
      grows =
          ap (λ (o : List (FlatBranch T)). o ++ (here ∷ []))
            (fr.grows ∙ ap (λ (o : List (FlatBranch T)). o ++ fr.more) fl.grows)
          ∙ simp append_assoc;
      represents = λ h.
          let fits : length out2 < 2 ^ 32 = omega (arith, length-append out2 (here ∷ [])) in
          (
            length out2 % 2 ^ 32,
            refl,
            here,
            at_end fits,
            left_kept fits,
            Represents-append out2 (here ∷ []) right r (fr.represents (omega arith)),
          );
    }

  flatten_child-Flattened :
      (n : Node T) (out : List (FlatBranch T))
      → Flattened out n (flatten_child n out).0 (flatten_child n out).1
  unfolding flatten_child
  flatten_child-Flattened (Node.leaf w k v) out = record {
    more = [];
    grows = sym (append-nil out);
    represents = λ h. refl;
  }
  flatten_child-Flattened (Node.branch w k l r) out =
      Flattened-branch w k l r _ _ out _ _ (flatten_child-Flattened l out)
        (flatten_child-Flattened r (flatten_child l out).1)

  -- How many branches a tree has.
  abbrev pub branches : Node T → ℕ
  branches (Node.leaf w k v) = 0
  branches (Node.branch w k l r) = branches l + branches r + 1

  pub length-flatten_child :
      (n : Node T) (out : List (FlatBranch T))
      → length (flatten_child n out).1 ≡ length out + branches n
  unfolding flatten_child
  length-flatten_child (Node.leaf w k v) out = omega arith
  length-flatten_child (Node.branch w k l r) out =
      let (left, out1) = flatten_child l out in
      let (right, out2) = flatten_child r out1 in
      omega (
        arith,
        length-append out2 (record { left = left; right = right } ∷ []),
        length-flatten_child r out1,
        length-flatten_child l out,
      )

  -- Flattening a tree into an empty array returns a child that represents the tree in that array,
  -- if the indices of the branches fit a u32.
  pub flatten_child-Represents :
      (n : Node T)
      → branches n ≤ 2 ^ 32
      → Represents (flatten_child n []).1 (flatten_child n []).0 n
  flatten_child-Represents n h =
      (flatten_child-Flattened n []).represents (omega (arith, length-flatten_child n []))
