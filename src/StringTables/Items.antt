-- ===== src/StringTables/Items.antt =====
-- The items of a string table (crates/haste_core/src/stringtables.rs).
use haste.Prelude.{ℕ, ◌≡◌, refl, arith, true, List, [], ◌∷◌, Option, none, some, if◌then◌else◌}
use haste.Prelude.Int.{ℤ}
use haste.StringTables.{StringTableItem, eqb_ℤ, modify, put_item, get_item}

pub eqb_ℤ_sound : (a b : ℤ) → eqb_ℤ a b ≡ true → a ≡ b
eqb_ℤ_sound a b h = ground arith

eqb_ℤ_refl : (a : ℤ) → eqb_ℤ a a ≡ true
eqb_ℤ_refl a = ground arith

-- The item that an update is to leave under its index: the key is that of the item before it, if there
-- is one, and the user data are those that were read, or else those before it.
abbrev pub updated : Option (List ℕ) → Option (List ℕ) → Option StringTableItem → StringTableItem
updated string user_data none = record { string = string; user_data = user_data }
updated string none (some entry) = record { string = entry.string; user_data = entry.user_data }
updated string (some src) (some entry) = record { string = entry.string; user_data = some src }

modify-updated :
    (string user_data : Option (List ℕ)) (entry : StringTableItem)
    → modify user_data entry ≡ updated string user_data (some entry)
modify-updated string none entry = refl
modify-updated string (some src) entry = refl

-- An update of the items changes the item under its index only: a new item has the key and the user
-- data that were read; an item that is there keeps its key, and its user data if none was read.
pub get_item-put_item :
    (i j : ℤ) (string user_data : Option (List ℕ)) (items : List (ℤ × StringTableItem))
    → get_item j (put_item i string user_data items)
      ≡ (if eqb_ℤ i j then some (updated string user_data (get_item i items)) else get_item j items)
unfolding get_item put_item
get_item-put_item i j string user_data [] = refl
get_item-put_item i j string user_data ((k, entry) ∷ rest) = ground (
  arith,
  get_item-put_item i j string user_data rest,
  modify-updated string user_data entry,
  eqb_ℤ_sound k i,
  eqb_ℤ_sound k j,
  eqb_ℤ_sound i j,
)
