-- ===== src/StringTables/Container.antt =====
-- `StringTableContainer` of crates/haste_core/src/stringtables.rs, and the full update of a table.
use haste.Prelude.{
  ℕ, suc, Bool, true, false, ◌&&◌, List, [], ◌∷◌, ◌++◌, Option, none, some, ltb, if◌then◌else◌,
  length, get_elem?, same_bytes, not,
}
use haste.Prelude.Int.{ℤ}
use haste.Machine.{as_i32}
use haste.Outcome.{Outcome, ok, panic, ◌>>=◌}
use haste.StringTables.{StringTable, StringTableItem, eqb_ℤ, new}

-- `c_demo_string_tables::ItemsT`, whose `data` is the user data here, and `TableT`.
pub record IncomingItem : Type 0 where
  pub str : Option (List ℕ)
  pub user_data : Option (List ℕ)

pub record IncomingTable : Type 0 where
  pub table_name : List ℕ
  pub items : List IncomingItem

-- What a full update makes of the item at its index, if there is one: the key of an item stays.
abbrev pub refreshed : IncomingItem → Option StringTableItem → StringTableItem
refreshed incoming none = record { string = incoming.str; user_data = incoming.user_data }
refreshed incoming (some existing) = record existing { user_data = incoming.user_data }

-- `self.items.entry(i as i32).and_modify(…).or_insert_with(…)`
unfoldable pub refresh_item :
    ℤ → IncomingItem → List (ℤ × StringTableItem) → List (ℤ × StringTableItem)
refresh_item index incoming [] = (index, refreshed incoming none) ∷ []
refresh_item index incoming ((k, existing) ∷ rest) =
    let others = refresh_item index incoming rest in
    if eqb_ℤ k index then (k, refreshed incoming (some existing)) ∷ rest else (k, existing) ∷ others

-- The loop over the incoming items, from the index `i` on.
unfoldable pub refresh_items :
    ℕ → List IncomingItem → List (ℤ × StringTableItem) → List (ℤ × StringTableItem)
unfolding refresh_item
refresh_items i [] items = items
refresh_items i (incoming ∷ rest) items =
    refresh_items (suc i) rest (refresh_item (as_i32 i) incoming items)

-- `checks` is whether the build has debug assertions.
module _ {E : Type 0} (checks : Bool) where
  unfoldable pub do_full_update_of_table : StringTable → IncomingTable → Outcome E StringTable
  unfolding refresh_items
  do_full_update_of_table self table =
      if checks && not (same_bytes self.name table.table_name)
      then panic
      else if checks && ltb (length table.items) (length self.items)
      then panic
      else ok (record self { items = refresh_items 0 table.items self.items })

  -- `find_table_mut`, and the update of the table that it finds.
  unfoldable pub update_found : List StringTable → IncomingTable → Outcome E (List StringTable)
  unfolding do_full_update_of_table
  update_found [] incoming = ok []
  update_found (table ∷ tables) incoming =
      let rest = update_found tables incoming in
      if same_bytes table.name incoming.table_name
      then (do_full_update_of_table table incoming >>= λ t. ok (t ∷ tables))
      else (rest >>= λ ts. ok (table ∷ ts))

  unfoldable pub do_full_update :
      List StringTable → List IncomingTable → Outcome E (List StringTable)
  unfolding update_found
  do_full_update tables [] = ok tables
  do_full_update tables (incoming ∷ rest) =
      update_found tables incoming >>= λ ts. do_full_update ts rest

unfoldable pub find_table : List ℕ → List StringTable → Option StringTable
find_table name [] = none
find_table name (table ∷ tables) =
    let rest = find_table name tables in if same_bytes table.name name then some table else rest

unfoldable pub get_table : ℕ → List StringTable → Option StringTable
get_table id tables = get_elem? tables id

unfoldable pub has_table : ℕ → List StringTable → Bool
unfolding get_table
has_table id tables = elim (get_table id tables) [ none ↦ false | some table ↦ true ]

-- The new table, and the container with it at the end.
unfoldable pub create_string_table_mut :
    {E : Type 0}
    → Bool
    → List ℕ
    → Bool
    → ℤ
    → ℤ
    → ℕ
    → Bool
    → List StringTable
    → Outcome E (StringTable × List StringTable)
unfolding find_table new
create_string_table_mut checks name fixed size size_bits flags varint tables =
    let table = new name fixed size size_bits flags varint in
    if checks && (elim (find_table name tables) [ none ↦ false | some t ↦ true ])
    then panic
    else ok (table, tables ++ (table ∷ []))
