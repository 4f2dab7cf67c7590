-- ===== src/StringTables/Ring.antt =====
-- The history of keys of `StringTable::parse_update` (crates/haste_core/src/stringtables.rs): a ring of
-- 32 keys, against the list of all the keys of the update.
use haste.Prelude.{
  ℕ, zero, suc, ◌+◌, ◌-◌, ◌%◌, ◌<◌, ◌≤◌, ◌≡◌, ◌⊎◌, inl, inr, refl, sym, ap, ◌∙◌, arith, true, false,
  List, [], ◌∷◌, ◌++◌, Option, length, length-append, length-set, set, get_elem?,
  get_elem?-set_self, get_elem?-set_ne, get_elem?-length-append, bit_and, ltb, ltb→lt,
  if◌then◌else◌, Bool-cases,
}
use haste.Prelude.Bits.{bit_and-thirty_one}
use haste.StringTables.{history_index}

module _ {A : Type 0} where
  get_elem?-append_before :
      (xs ys : List A) (i : ℕ) → i < length xs → get_elem? (xs ++ ys) i ≡ get_elem? xs i
  get_elem?-append_before [] ys i h = absurd (omega arith)
  get_elem?-append_before (x ∷ xs) ys zero h = refl
  get_elem?-append_before (x ∷ xs) ys (suc i) h = get_elem?-append_before xs ys i (omega arith)

-- The key that a position of 5 bits means: of the last 32 keys of the update, or of all while there
-- are fewer, the one with that number, and behind them what an earlier update has left.
abbrev pub recalled : List (List ℕ) → List (List ℕ) → ℕ → Option (List ℕ)
recalled old keys position =
    if ltb position (length keys)
    then get_elem? keys (length keys - 32 + position)
    else get_elem? old position

-- The history holds the last 32 keys of the update, each in the slot of its number.
pub record Ring (old keys history : List (List ℕ)) : Type 0 where
  pub size : length history ≡ 32
  pub recent :
      (n : ℕ)
      → n < length keys
      → length keys ≤ n + 32
      → get_elem? history (n % 32) ≡ get_elem? keys n
  pub earlier : (n : ℕ) → length keys ≤ n → n < 32 → get_elem? history n ≡ get_elem? old n

pub Ring-start : (old : List (List ℕ)) → length old ≡ 32 → Ring old [] old
Ring-start old h = record {
  size = h;
  recent = λ n below near. absurd (omega arith);
  earlier = λ n above below. refl;
}

pub Ring-push :
    (old keys history : List (List ℕ)) (key : List ℕ)
    → Ring old keys history
    → Ring old (keys ++ key ∷ []) (set history (bit_and (length keys) 31) key)
Ring-push old keys history key ring = record {
  size = length-set history (bit_and (length keys) 31) key ∙ ring.size;
  recent = recent;
  earlier = λ n above below.
      get_elem?-set_ne history key (λ e. absurd (omega (arith, e, slot, longer, above, below)))
      ∙ ring.earlier n (omega (arith, longer, above)) below;
}
  where
    slot : bit_and (length keys) 31 ≡ length keys % 32
    slot = bit_and-thirty_one (length keys)

    longer : length (keys ++ key ∷ []) ≡ length keys + 1
    longer = length-append keys (key ∷ [])

    recent :
        (n : ℕ)
        → n < length (keys ++ key ∷ [])
        → length (keys ++ key ∷ []) ≤ n + 32
        → get_elem? (set history (bit_and (length keys) 31) key) (n % 32)
          ≡ get_elem? (keys ++ key ∷ []) n
    recent n below near = elim split [
      | inl e ↦
          rw (e, slot)
            (get_elem?-set_self history (length keys % 32) key (omega (arith, ring.size))
              ∙ sym (get_elem?-length-append keys [] key))
      | inr h ↦
          get_elem?-set_ne history key (λ e. absurd (omega (arith, e, slot, longer, near, h)))
          ∙ ring.recent n h (omega (arith, longer, near))
          ∙ sym (get_elem?-append_before keys (key ∷ []) n h)
    ]
      where
        split : (n ≡ length keys) ⊎ (n < length keys)
        split = ground (arith, longer, below)

history_index-eq : (i position : ℕ) → history_index i position ≡ (i - 32 + position) % 32
history_index-eq i position = bit_and-thirty_one _ ∙ at_test (Bool-cases (ltb 32 i))
  where
    at_test :
        (ltb 32 i ≡ true) ⊎ (ltb 32 i ≡ false)
        → ((if ltb 32 i then bit_and i 31 else 0) + position) % 32 ≡ (i - 32 + position) % 32
    at_test (inl e) = rw (e, bit_and-thirty_one i) (omega (arith, ltb→lt 32 i e))
    at_test (inr e) = let small : i ≤ 32 = ground arith in rw e (omega (arith, small))

-- The slot that the code looks a position up in holds the key that the position means.
pub history_index-recalled :
    (old keys history : List (List ℕ)) (position : ℕ)
    → Ring old keys history
    → position < 32
    → get_elem? history (history_index (length keys) position) ≡ recalled old keys position
history_index-recalled old keys history position ring h =
    ap (λ (i : ℕ). get_elem? history i) (history_index-eq (length keys) position)
    ∙ at_test (Bool-cases (ltb position (length keys)))
  where
    at_test :
        (ltb position (length keys) ≡ true) ⊎ (ltb position (length keys) ≡ false)
        → get_elem? history ((length keys - 32 + position) % 32) ≡ recalled old keys position
    at_test (inl e) =
        rw e (ring.recent (length keys - 32 + position) (ground (arith, e, h)) (omega arith))
    at_test (inr e) =
        let above : length keys ≤ position = ground (arith, e) in
        let here : (length keys - 32 + position) % 32 ≡ position = omega (arith, above, h) in
        rw (here, e) (ring.earlier position above h)
