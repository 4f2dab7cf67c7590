-- ===== src/StringTables/FullUpdate.antt =====
-- What a full update of a string table (crates/haste_core/src/stringtables.rs) makes of its items.
use haste.Prelude.{
  ℕ, zero, suc, ◌+◌, ◌<◌, ◌≤◌, ◌^◌, ◌≡◌, refl, sym, ◌∙◌, ap, arith, Bool, true, false, List, [],
  ◌∷◌, Option, none, some, ltb, if◌then◌else◌, length, get_elem?, ◌⊎◌, inl, inr, ◌&&◌, not,
  same_bytes,
}
use haste.Prelude.Int.{ℤ, pos}
use haste.Machine.{as_i32}
use haste.StringTables.{StringTable, StringTableItem, eqb_ℤ, get_item}
use haste.StringTables.Items.{eqb_ℤ_sound}
use haste.StringTables.Container.{
  IncomingItem, refreshed, refresh_item, refresh_items, IncomingTable, do_full_update_of_table,
}
use haste.Outcome.{Outcome, ok, panic}

get_item-refresh_item :
    (i j : ℤ) (incoming : IncomingItem) (items : List (ℤ × StringTableItem))
    → get_item j (refresh_item i incoming items)
      ≡ (if eqb_ℤ i j then some (refreshed incoming (get_item i items)) else get_item j items)
unfolding get_item refresh_item
get_item-refresh_item i j incoming [] = refl
get_item-refresh_item i j incoming ((k, entry) ∷ rest) = ground (
  arith,
  get_item-refresh_item i j incoming rest,
  eqb_ℤ_sound k i,
  eqb_ℤ_sound k j,
  eqb_ℤ_sound i j,
)

as_i32_small : (i : ℕ) → i < 2 ^ 31 → as_i32 i ≡ pos i
as_i32_small i small = ground arith

-- The item that a full update is to leave: without an incoming item the old one; else one with the
-- incoming user data, and with the old key, if there is an item, or else the incoming key.
abbrev pub refreshed_by : Option IncomingItem → Option StringTableItem → Option StringTableItem
refreshed_by none item = item
refreshed_by (some incoming) none =
    some (record { string = incoming.str; user_data = incoming.user_data })
refreshed_by (some incoming) (some item) =
    some (record { string = item.string; user_data = incoming.user_data })

some-refreshed :
    (incoming : IncomingItem) (item : Option StringTableItem)
    → some (refreshed incoming item) ≡ refreshed_by (some incoming) item
some-refreshed incoming none = refl
some-refreshed incoming (some item) = refl

-- The item at the index of an incoming item, and those at the others.
refresh_here :
    (i j : ℕ) (x : IncomingItem) (items : List (ℤ × StringTableItem))
    → i < 2 ^ 31
    → j ≡ i
    → get_item (pos j) (refresh_item (as_i32 i) x items)
      ≡ some (refreshed x (get_item (pos j) items))
refresh_here i j x items small same =
    let equal : eqb_ℤ (pos i) (pos j) ≡ true = ground arith in
    ap (λ a. get_item (pos j) (refresh_item a x items)) (as_i32_small i small)
    ∙ get_item-refresh_item (pos i) (pos j) x items
    ∙ ap (λ b. if b then some (refreshed x (get_item (pos i) items)) else get_item (pos j) items)
        equal
    ∙ ap (λ k. some (refreshed x (get_item (pos k) items))) (sym same)

refresh_elsewhere :
    (i j : ℕ) (x : IncomingItem) (items : List (ℤ × StringTableItem))
    → i < 2 ^ 31
    → j < i ⊎ i < j
    → get_item (pos j) (refresh_item (as_i32 i) x items) ≡ get_item (pos j) items
refresh_elsewhere i j x items small other =
    let different : eqb_ℤ (pos i) (pos j) ≡ false = ground arith in
    ap (λ a. get_item (pos j) (refresh_item a x items)) (as_i32_small i small)
    ∙ get_item-refresh_item (pos i) (pos j) x items
    ∙ ap (λ b. if b then some (refreshed x (get_item (pos i) items)) else get_item (pos j) items)
        different

get_item-refresh_items_below :
    (i j : ℕ) (incoming : List IncomingItem) (items : List (ℤ × StringTableItem))
    → j < i
    → i + length incoming ≤ 2 ^ 31
    → get_item (pos j) (refresh_items i incoming items) ≡ get_item (pos j) items
unfolding refresh_items
get_item-refresh_items_below i j [] items less room = refl
get_item-refresh_items_below i j (x ∷ xs) items less room =
    get_item-refresh_items_below (suc i) j xs _ (omega arith) (ground arith)
    ∙ refresh_elsewhere i j x items (ground arith) (inl less)

get_item-refresh_items_from :
    (i k : ℕ) (incoming : List IncomingItem) (items : List (ℤ × StringTableItem))
    → i + length incoming ≤ 2 ^ 31
    → get_item (pos (i + k)) (refresh_items i incoming items)
      ≡ refreshed_by (get_elem? incoming k) (get_item (pos (i + k)) items)
unfolding refresh_items
get_item-refresh_items_from i k [] items room = refl
get_item-refresh_items_from i zero (x ∷ xs) items room =
    get_item-refresh_items_below (suc i) (i + 0) xs _ (omega arith) (ground arith)
    ∙ refresh_here i (i + 0) x items (ground arith) (omega arith)
    ∙ some-refreshed x (get_item (pos (i + 0)) items)
get_item-refresh_items_from i (suc k) (x ∷ xs) items room =
    let next : i + suc k ≡ suc i + k = omega arith in
    rw next (
      get_item-refresh_items_from (suc i) k xs _ (ground arith)
      ∙ ap (refreshed_by (get_elem? xs k))
          (refresh_elsewhere i (suc i + k) x items (ground arith) (inr (omega arith))))

-- A full update that succeeds, of fewer than 2 ^ 31 items, gives each item below their number the user
-- data of the incoming one, none if that has none; a new item has the incoming key, an item that is
-- there keeps its own, and the items from there on stay as they are.
pub get_item-do_full_update_of_table :
    {E : Type 0} (checks : Bool) (self next : StringTable) (incoming : IncomingTable) (j : ℕ)
    → length incoming.items < 2 ^ 31
    → do_full_update_of_table {E = E} checks self incoming ≡ ok next
    → get_item (pos j) next.items
      ≡ refreshed_by (get_elem? incoming.items j) (get_item (pos j) self.items)
unfolding do_full_update_of_table
get_item-do_full_update_of_table {E = E} checks self next incoming j room done =
    named (checks && not (same_bytes self.name incoming.table_name))
      (checks && ltb (length incoming.items) (length self.items)) done
  where
    at :
        (m : ℕ)
        → m ≡ j
        → get_item (pos m) (refresh_items 0 incoming.items self.items)
          ≡ refreshed_by (get_elem? incoming.items j) (get_item (pos m) self.items)
        → get_item (pos j) (refresh_items 0 incoming.items self.items)
          ≡ refreshed_by (get_elem? incoming.items j) (get_item (pos j) self.items)
    at m e h = rw e at h

    named :
        (a b : Bool)
        → ◌≡◌ {A = Outcome E StringTable}
            (if a
              then panic
              else if b
              then panic
              else ok (record self { items = refresh_items 0 incoming.items self.items }))
            (ok next)
        → get_item (pos j) next.items
          ≡ refreshed_by (get_elem? incoming.items j) (get_item (pos j) self.items)
    named true b e = absurd (cc)
    named false true e = absurd (cc)
    named false false e =
        let same : record self { items = refresh_items 0 incoming.items self.items } ≡ next = cc in
        ap (λ (t : StringTable). get_item (pos j) t.items) (sym same)
        ∙ at (0 + j) (omega arith)
            (get_item-refresh_items_from 0 j incoming.items self.items (omega arith))
