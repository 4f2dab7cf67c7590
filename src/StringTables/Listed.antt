-- ===== src/StringTables/Listed.antt =====
-- A reference for `StringTable::parse_update` of crates/haste_core/src/stringtables.rs that keeps all the
-- keys of the update in a list, and looks none of them up in the ring.
use haste.Prelude.{
  ℕ, zero, suc, ◌+◌, ◌%◌, false, List, [], ◌∷◌, ◌++◌, Option, none, some, length, set, drop,
  if◌then◌else◌,
}
use haste.Prelude.Int.{ℤ, negsuc}
use haste.Platform.{Platform}
use haste.BitReader.{read_bool, read_ubit64, read_string}
use haste.StringTables.{
  Snap, StringTable, Update, ◌>>=◌, pure, bits, or_panic, prefix, entry_of, next_index,
  read_user_data, put_item, as_usize,
}
use haste.StringTables.Ring.{recalled}

module _ {p : Platform} {snap : Snap} where
  -- A key: a string of its own, or the first bytes of a recalled key and a string behind them.
  abbrev pub listed_key : List (List ℕ) → List (List ℕ) → List ℕ → Update p snap (ℕ × List ℕ)
  listed_key old keys buf = do
    from_history ← bits read_bool
    if from_history
        then (do
          position ← bits (read_ubit64 5)
          count ← bits (read_ubit64 5)
          key ← or_panic (entry_of (recalled old keys position))
          target ← or_panic (prefix buf count)
          source ← or_panic (prefix key count)
          (more, rest) ← bits (read_string (drop count buf) false)
          pure (count + more, source ++ rest))
        else bits (read_string buf false)

  -- The keys grow by the first 32 bytes of the buffer.
  abbrev pub listed_string :
      List (List ℕ)
      → List (List ℕ)
      → StringTable
      → Update p snap (Option (List ℕ) × List (List ℕ) × StringTable)
  listed_string old keys table = do
    has_string ← bits read_bool
    if has_string
        then (do
          (size, buf) ← listed_key old keys table.string_buf
          key ← or_panic (prefix buf 32)
          string ← or_panic (prefix buf size)
          pure (
            some string,
            keys ++ key ∷ [],
            record table { string_buf = buf; history = set table.history (length keys % 32) key },
          ))
        else pure (none, keys, table)

  abbrev pub listed_entry :
      ℤ
      → List (List ℕ)
      → List (List ℕ)
      → StringTable
      → Update p snap (ℤ × List (List ℕ) × StringTable)
  listed_entry index old keys table = do
    index' ← next_index index
    (string, keys', table1) ← listed_string old keys table
    (user_data, table2) ← read_user_data table1
    pure (index', keys', record table2 { items = put_item index' string user_data table2.items })

  abbrev pub listed_entries :
      ℕ → ℤ → List (List ℕ) → List (List ℕ) → StringTable → Update p snap StringTable
  listed_entries zero index old keys table = pure table
  listed_entries (suc n) index old keys table = do
    (index', keys', table') ← listed_entry index old keys table
    listed_entries n index' old keys' table'

  abbrev pub listed_update : StringTable → ℤ → Update p snap StringTable
  listed_update table num_entries =
      listed_entries (as_usize num_entries) (negsuc 0) table.history [] table
