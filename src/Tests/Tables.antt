-- ===== src/Tests/Tables.antt =====
-- Runs of the string tables, and their theorems at concrete inputs.
use haste.Prelude.{arith, refl, ◌≡◌, true, false, List, [], ◌∷◌, ◌++◌, none, some, if◌then◌else◌}
use haste.Prelude.Int.{ℤ, pos}
use haste.Outcome.{Outcome, success, ok}
use haste.BitReader.{BitReader}
use haste.StringTables.{
  StringTable, StringTableItem, Snap, eqb_ℤ, put_item, get_item, new, parse_update,
}
use haste.StringTables.Container.{IncomingTable, do_full_update_of_table}
use haste.StringTables.FullUpdate.{get_item-do_full_update_of_table}
use haste.StringTables.Items.{updated, get_item-put_item}
use haste.StringTables.Keys.{parse_update-listed_update}
use haste.StringTables.Listed.{listed_update}
use haste.Tests.BitList.{ReadError, bit_list, bit_list-Documented, to_bits}

abbrev items : List (ℤ × StringTableItem)
items =
    (pos 3, record { string = some (b'a' ∷ []); user_data = none })
    ∷ (pos 5, record { string = none; user_data = some (1 ∷ []) })
    ∷ []

get_item-put_item_example : get_item (pos 5) (put_item (pos 5) none (some (2 ∷ [])) items) ≡ (
    if eqb_ℤ (pos 5) (pos 5)
    then some (updated none (some (2 ∷ [])) (get_item (pos 5) items))
    else get_item (pos 5) items)
get_item-put_item_example = get_item-put_item (pos 5) (pos 5) none (some (2 ∷ [])) items

-- A decompressor that leaves its buffer, and finds nothing in it.
abbrev snap : Snap
snap = record {
  Error = ReadError;
  decompress = λ input buf. success buf;
  decompress_len = λ input. success 0;
}

-- Two entries, each at the next index and without user data: the key `k`, and the key that takes its
-- first byte from the first key of the update, with an `x` behind it.
abbrev two_keys : BitReader (bit_list true)
two_keys = record {
  inner =
      true ∷ true ∷ false ∷ to_bits (b'k' ∷ 0 ∷ [])
      ++ (false
          ∷ true
          ∷ true
          ∷ true
          ∷ false
          ∷ false
          ∷ false
          ∷ false
          ∷ false
          ∷ true
          ∷ false
          ∷ false
          ∷ false
          ∷ false
          ∷ to_bits (b'x' ∷ 0 ∷ []))
      ++ (false ∷ []);
  did_check_overflow = false;
}

abbrev keyed_table : StringTable
keyed_table = new (b't' ∷ []) false (pos 0) (pos 0) 0 true

abbrev items_of : {A C : Type 0} → Outcome A (StringTable × C) → List (ℤ × StringTableItem)
items_of (ok (table, br)) = table.items
items_of r = []

two_items :
    items_of (parse_update {snap = snap} keyed_table (pos 2) two_keys)
    ≡ (pos 0, record { string = some (b'k' ∷ []); user_data = none })
      ∷ (pos 1, record { string = some (b'k' ∷ b'x' ∷ []); user_data = none })
      ∷ []
unfolding parse_update new haste.StringTables.parse_entry haste.BitReader.read_bool
    haste.Tests.BitList.take_bit haste.Machine.add_i32 haste.BitReader.read_string
    haste.BitReader.read_byte haste.Tests.BitList.take_bits haste.BitReader.read_ubit64
two_items = refl

parse_update-listed_update_example :
    parse_update {snap = snap} keyed_table (pos 2) two_keys
    ≡ listed_update keyed_table (pos 2) two_keys
unfolding new
parse_update-listed_update_example =
    parse_update-listed_update (bit_list-Documented true) keyed_table (pos 2) two_keys refl

-- An item that is there gets other user data, and a new one comes behind it.
abbrev refreshed_table : StringTable
refreshed_table = record (new (97 ∷ []) false (pos 0) (pos 0) 0 false) {
  items = (pos 0, record { string = some (1 ∷ []); user_data = some (2 ∷ []) }) ∷ [];
}

abbrev snapshot : IncomingTable
snapshot = record {
  table_name = 97 ∷ [];
  items =
      record { str = some (9 ∷ []); user_data = some (3 ∷ []) }
      ∷ record { str = some (4 ∷ []); user_data = none }
      ∷ [];
}

updated_table :
    do_full_update_of_table {E = Unit {0}} true refreshed_table snapshot
    ≡ ok (record refreshed_table {
      items =
          (pos 0, record { string = some (1 ∷ []); user_data = some (3 ∷ []) })
          ∷ (pos 1, record { string = some (4 ∷ []); user_data = none })
          ∷ [];
    })
unfolding do_full_update_of_table new
updated_table = refl

get_item-do_full_update_of_table_example :
    get_item (pos 1) (
      (pos 0, record { string = some (1 ∷ []); user_data = some (3 ∷ []) })
      ∷ (pos 1, record { string = some (4 ∷ []); user_data = none })
      ∷ [])
    ≡ some (record { string = some (4 ∷ []); user_data = none })
unfolding get_item
get_item-do_full_update_of_table_example =
    get_item-do_full_update_of_table true refreshed_table _ snapshot 1 (omega arith) updated_table
