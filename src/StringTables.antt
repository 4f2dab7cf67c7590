-- ===== src/StringTables.antt =====
-- crates/haste_core/src/stringtables.rs: `StringTable` and the parsing of an update. The hash map of the
-- items is a list of keys and items, in which a key stands once. The decompressor of the crate snap is
-- a parameter.
pub mod Items
pub mod Safe
pub mod Container
pub mod FullUpdate
pub mod Ring
pub mod Listed
pub mod Alike
pub mod Keys
use haste.Prelude.{
  ℕ, zero, suc, ◌+◌, ◌-◌, ◌%◌, ◌^◌, Bool, true, false, ◌&&◌, List, [], ◌∷◌, ◌++◌, Option, none,
  some, bit_and, ltb, leb, ◌==◌, if◌then◌else◌, length, set, get_elem?, take, drop,
}
use haste.Prelude.Int.{ℤ, pos, negsuc, pos_part, neg_part}
use haste.Outcome.{Outcome, ok, err, panic, stuck, Result, success, failure, ◌>>=◌ as bind}
use haste.Platform.{Platform}
use haste.BitReader.{
  BitReader, Read, read_bool, read_ubit64, read_uvarint32, read_ubitvar, read_bits, read_bytes,
  read_string,
}
use haste.Machine.{as_i32, add_i32}

pub record StringTableItem : Type 0 where
  pub string : Option (List ℕ)
  pub user_data : Option (List ℕ)

pub record StringTable : Type 0 where
  pub name : List ℕ
  pub user_data_fixed_size : Bool
  pub user_data_size : ℤ
  pub user_data_size_bits : ℤ
  pub flags : ℕ
  pub using_varint_bitcounts : Bool
  pub items : List (ℤ × StringTableItem)
  pub history : List (List ℕ)
  pub string_buf : List ℕ
  pub user_data_buf : List ℕ
  pub user_data_uncompressed_buf : List ℕ

abbrev pub repeat : {A : Type 0} → ℕ → A → List A
repeat zero a = []
repeat (suc n) a = a ∷ repeat n a

-- `StringTable::new`
unfoldable pub new : List ℕ → Bool → ℤ → ℤ → ℕ → Bool → StringTable
new name fixed size size_bits flags varint = record {
  name = name;
  user_data_fixed_size = fixed;
  user_data_size = size;
  user_data_size_bits = size_bits;
  flags = flags;
  using_varint_bitcounts = varint;
  items = [];
  history = repeat 32 (repeat 32 0);
  string_buf = repeat 1024 0;
  user_data_buf = repeat (2 ^ 17) 0;
  user_data_uncompressed_buf = repeat (2 ^ 17) 0;
}

-- `snap::raw::Decoder::decompress` into a buffer, which it returns, and `snap::raw::decompress_len`.
pub record Snap : Type 1 where
  pub Error : Type 0
  pub decompress : List ℕ → List ℕ → Result Error (List ℕ)
  pub decompress_len : List ℕ → Result Error ℕ

pub data StringTableError (p : Platform) (snap : Snap) : Type 0 where
  decompress : snap.Error → StringTableError p snap
  bit_reader : p.Error → StringTableError p snap

abbrev pub eqb_ℤ : ℤ → ℤ → Bool
eqb_ℤ a b = (pos_part a == pos_part b) && (neg_part a == neg_part b)

-- `.and_modify`: the user data of an item that is there is replaced, if there is any; its string stays.
abbrev pub modify : Option (List ℕ) → StringTableItem → StringTableItem
modify (some src) entry = record entry { user_data = some src }
modify none entry = entry

-- `self.items.entry(entry_index).and_modify(…).or_insert_with(…)`
unfoldable pub put_item :
    ℤ → Option (List ℕ) → Option (List ℕ) → List (ℤ × StringTableItem) → List (ℤ × StringTableItem)
put_item index string user_data [] = (index, record { string = string; user_data = user_data }) ∷ []
put_item index string user_data ((k, entry) ∷ rest) =
    let others = put_item index string user_data rest in
    if eqb_ℤ k index then (k, modify user_data entry) ∷ rest else (k, entry) ∷ others

unfoldable pub get_item : ℤ → List (ℤ × StringTableItem) → Option StringTableItem
get_item index [] = none
get_item index ((k, entry) ∷ rest) =
    let other = get_item index rest in if eqb_ℤ k index then some entry else other

-- `n as usize` of an i32.
abbrev pub as_usize : ℤ → ℕ
as_usize (pos n) = n
as_usize (negsuc n) = 2 ^ 64 - 1 - n

-- `&buf[..n]`, with the bounds check.
abbrev pub prefix : {E : Type 0} → List ℕ → ℕ → Outcome E (List ℕ)
prefix buf n = if leb n (length buf) then ok (take n buf) else panic

-- The entry of the history that a 5-bit position means.
abbrev pub history_index : ℕ → ℕ → ℕ
history_index history_delta_index position =
    let history_delta_zero =
      if ltb 32 history_delta_index then bit_and history_delta_index 31 else 0 in
    bit_and (history_delta_zero + position) 31

module _ (p : Platform) (snap : Snap) where
  abbrev pub Update : Type 0 → Type 0
  Update A = BitReader p → Outcome (StringTableError p snap) (A × BitReader p)

module _ {p : Platform} {snap : Snap} where
  infixl 5 ◌>>=◌
  abbrev pub ◌>>=◌ : {A B : Type 0} → Update p snap A → (A → Update p snap B) → Update p snap B
  ◌>>=◌ m k br = bind (m br) (λ r. k r.0 r.1)

  abbrev pub pure : {A : Type 0} → A → Update p snap A
  pure a br = ok (a, br)

  -- `?` on a `BitError`, and on an error of the decompressor.
  abbrev pub wrap : {A : Type 0} → Outcome p.Error A → Outcome (StringTableError p snap) A
  wrap (ok a) = ok a
  wrap (err e) = err (bit_reader e)
  wrap panic = panic
  wrap stuck = stuck

  abbrev pub bits : {A : Type 0} → Read p A → Update p snap A
  bits m br = wrap (m br)

  abbrev pub snapped : {A : Type 0} → Result snap.Error A → Update p snap A
  snapped (success a) br = ok (a, br)
  snapped (failure e) br = err (decompress e)

  abbrev pub or_panic : {A : Type 0} → Outcome (StringTableError p snap) A → Update p snap A
  or_panic r br = bind r (λ a. ok (a, br))

  abbrev pub next_index : ℤ → Update p snap ℤ
  next_index entry_index = do
    increment ← bits read_bool
    if increment
        then bits (add_i32 entry_index (pos 1))
        else do v ← bits read_uvarint32; bits (add_i32 (as_i32 v) (pos 1))

  -- `history[index]`
  abbrev pub entry_of : Option (List ℕ) → Outcome (StringTableError p snap) (List ℕ)
  entry_of (some string) = ok string
  entry_of none = panic

  -- The size of the key, and the buffer that holds it.
  abbrev pub read_key : List (List ℕ) → ℕ → List ℕ → Update p snap (ℕ × List ℕ)
  read_key history history_delta_index string_buf = do
    from_history ← bits read_bool
    if from_history
        then (do
          position ← bits (read_ubit64 5)
          bytestocopy ← bits (read_ubit64 5)
          string ←
              or_panic (entry_of (get_elem? history (history_index history_delta_index position)))
          target ← or_panic (prefix string_buf bytestocopy)
          source ← or_panic (prefix string bytestocopy)
          (num_chars, rest) ← bits (read_string (drop bytestocopy string_buf) false)
          pure (bytestocopy + num_chars, source ++ rest))
        else bits (read_string string_buf false)

  -- The key, which goes into the history; with how far the history has come.
  abbrev pub read_entry_string : StringTable → ℕ → Update p snap (Option (List ℕ) × ℕ × StringTable)
  read_entry_string table history_delta_index = do
    has_string ← bits read_bool
    if has_string
        then (do
          (size, string_buf) ← read_key table.history history_delta_index table.string_buf
          she ← or_panic (prefix string_buf 32)
          string ← or_panic (prefix string_buf size)
          pure (
            some string,
            history_delta_index + 1,
            record table {
              string_buf = string_buf;
              history = set table.history (bit_and history_delta_index 31) she;
            },
          ))
        else pure (none, history_delta_index, table)

  abbrev pub read_size : Bool → Update p snap ℕ
  read_size using_varint_bitcounts =
      if using_varint_bitcounts then bits read_ubitvar else bits (read_ubit64 17)

  abbrev pub read_compressed : ℕ → Update p snap Bool
  read_compressed flags = if bit_and flags 1 == 0 then pure false else bits read_bool

  abbrev pub read_fixed : StringTable → Update p snap (List ℕ × StringTable)
  read_fixed table = do
    buf ← bits (read_bits table.user_data_buf (as_usize table.user_data_size_bits))
    data' ← or_panic (prefix buf (as_usize table.user_data_size))
    pure (data', record table { user_data_buf = buf })

  abbrev pub read_sized : StringTable → Update p snap (List ℕ × StringTable)
  read_sized table = do
    is_compressed ← read_compressed table.flags
    size ← read_size table.using_varint_bitcounts
    target ← or_panic (prefix table.user_data_buf size)
    bytes ← bits (read_bytes target)
    if is_compressed
        then (do
          uncompressed ← snapped (snap.decompress bytes table.user_data_uncompressed_buf)
          long ← snapped (snap.decompress_len (bytes ++ drop size table.user_data_buf))
          data' ← or_panic (prefix uncompressed long)
          pure (
            data',
            record table {
              user_data_buf = bytes ++ drop size table.user_data_buf;
              user_data_uncompressed_buf = uncompressed;
            },
          ))
        else pure (bytes, record table { user_data_buf = bytes ++ drop size table.user_data_buf })

  abbrev pub read_user_data : StringTable → Update p snap (Option (List ℕ) × StringTable)
  read_user_data table = do
    has_user_data ← bits read_bool
    if has_user_data
        then (do
          (user_data, table') ←
              (if table.user_data_fixed_size then read_fixed table else read_sized table)
          pure (some user_data, table'))
        else pure (none, table)

  -- One entry: the index, how far the history has come, and the table.
  unfoldable pub parse_entry : ℤ → ℕ → StringTable → Update p snap (ℤ × ℕ × StringTable)
  unfolding put_item
  parse_entry entry_index history_delta_index table = do
    index ← next_index entry_index
    (string, history_delta_index', table1) ← read_entry_string table history_delta_index
    (user_data, table2) ← read_user_data table1
    pure (
      index,
      history_delta_index',
      record table2 { items = put_item index string user_data table2.items },
    )

  unfoldable pub parse_entries : ℕ → ℤ → ℕ → StringTable → Update p snap StringTable
  parse_entries zero entry_index history_delta_index table = pure table
  parse_entries (suc n) entry_index history_delta_index table = do
    (index, history_delta_index', table') ← parse_entry entry_index history_delta_index table
    parse_entries n index history_delta_index' table'

  unfoldable pub parse_update : StringTable → ℤ → Update p snap StringTable
  unfolding parse_entries
  parse_update table num_entries = parse_entries (as_usize num_entries) (negsuc 0) 0 table
