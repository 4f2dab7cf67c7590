-- ===== src/StringTables/Keys.antt =====
-- `parse_update` of crates/haste_core/src/stringtables.rs against the reference that keeps all keys.
use haste.Prelude.{
  ℕ, zero, suc, ◌+◌, ◌^◌, ◌<◌, ◌≡◌, refl, sym, ap, Bool, false, List, [], ◌∷◌, ◌++◌, Option, none,
  some, length, length-append, set, drop, get_elem?, bit_and, ◌==◌, if◌then◌else◌,
}
use haste.Prelude.Bits.{bit_and-thirty_one}
use haste.Prelude.Int.{ℤ, pos, negsuc}
use haste.Outcome.{Outcome, ok, err, panic, stuck}
use haste.Platform.{Platform, Documented}
use haste.BitReader.{
  BitReader, read_bool, read_ubit64, read_uvarint32, read_ubitvar, read_bits, read_bytes,
  read_string,
}
use haste.BitReader.Keeps.{Any, Post, Keeps-read_bool, Keeps-read_ubit64, Keeps-read_ubitvar}
use haste.BitReader.Strings.Terminated.{Terminated, read_string-Terminated}
use haste.FieldPath.Valid.{Keeps-add_i32}
use haste.Machine.{as_i32}
use haste.StringTables.{
  Snap, StringTable, Update, ◌>>=◌, pure, bits, or_panic, prefix, snapped, next_index, entry_of,
  history_index, read_key, read_entry_string, read_size, read_compressed, read_fixed, read_sized,
  read_user_data, parse_entry, parse_entries, parse_update, as_usize,
}
use haste.StringTables.Safe.{
  Safe, Safe-pure, Safe-bind, Safe-if, Safe-post, Safe-bits, Safe-delegate, Safe-snapped,
  Safe-prefix, Safe-any,
}
use haste.StringTables.Alike.{Alike, Alike-pure, Alike-bind, Alike-if, Alike-self, Same-eq}
use haste.StringTables.Ring.{Ring, Ring-start, Ring-push, history_index-recalled, recalled}
use haste.StringTables.Listed.{
  listed_key, listed_string, listed_entry, listed_entries, listed_update,
}

-- What a step returns leaves the history of a table.
abbrev KeepsHistory : {A : Type 0} → StringTable → A × StringTable → Type 0
KeepsHistory table (a, table') = table'.history ≡ table.history

-- The ring beside the keys of the reference, and the same table.
abbrev Follows :
    {A : Type 0} → List (List ℕ) → A × ℕ × StringTable → A × List (List ℕ) × StringTable → Type 0
Follows old (a, i, table) (a', keys, table') =
    (a ≡ a') × (i ≡ length keys) × (table ≡ table') × Ring old keys table.history

module _ {p : Platform} {snap : Snap} (d : Documented p) where
  flag : Safe {snap = snap} Any (bits (read_bool {p = p}))
  flag = Safe-bits (Keeps-read_bool d)

  next_index-Safe : (i : ℤ) → Safe {p = p} {snap = snap} Any (next_index i)
  unfolding read_uvarint32
  next_index-Safe i = Safe-bind Any (bits read_bool) flag (λ b _.
      Safe-if b (Safe-bits (Keeps-add_i32 i (pos 1))) (
        Safe-bind Any (bits read_uvarint32) (Safe-delegate (λ s a s' e. tt))
          (λ v _. Safe-bits (Keeps-add_i32 (as_i32 v) (pos 1)))))

  string_read : (buf : List ℕ) → Safe {snap = snap} Any (bits (read_string {p = p} buf false))
  string_read buf =
      Safe-post (read_string buf false)
        (λ br. weaken (read_string buf false br) (read_string-Terminated d buf false br))
    where
      weaken :
          (r : Outcome p.Error ((ℕ × List ℕ) × BitReader p)) → Post (Terminated buf) r → Post Any r
      weaken (ok (n, br)) h = tt
      weaken (err e) h = tt
      weaken panic h = tt
      weaken stuck h = h

  prefix_read : (buf : List ℕ) (n : ℕ) → Safe {p = p} {snap = snap} Any (or_panic (prefix buf n))
  prefix_read buf n = Safe-any (or_panic (prefix buf n)) (Safe-prefix buf n)

  read_fixed-KeepsHistory :
      (table : StringTable) → Safe {p = p} {snap = snap} (KeepsHistory table) (read_fixed table)
  unfolding read_bits
  read_fixed-KeepsHistory table =
      let n = as_usize table.user_data_size_bits in
      Safe-bind Any (bits (read_bits table.user_data_buf n)) (Safe-delegate (λ s a s' e. tt))
        (λ buf _.
          Safe-bind Any (or_panic (prefix buf (as_usize table.user_data_size))) (prefix_read buf _)
            (λ value _. Safe-pure refl))

  read_size-Safe : (b : Bool) → Safe {p = p} {snap = snap} Any (read_size b)
  read_size-Safe b =
      Safe-if b (Safe-any (bits read_ubitvar) (Safe-bits (Keeps-read_ubitvar d)))
        (Safe-any (bits (read_ubit64 17)) (Safe-bits (Keeps-read_ubit64 d 17)))

  read_sized-KeepsHistory :
      (table : StringTable) → Safe {p = p} {snap = snap} (KeepsHistory table) (read_sized table)
  unfolding read_bytes
  read_sized-KeepsHistory table =
      Safe-bind Any (read_compressed table.flags)
        (Safe-if (bit_and table.flags 1 == 0) (Safe-pure tt) flag)
        (λ is_compressed _.
          Safe-bind Any (read_size table.using_varint_bitcounts)
            (read_size-Safe table.using_varint_bitcounts)
            (λ size _.
              Safe-bind Any (or_panic (prefix table.user_data_buf size)) (prefix_read _ size)
                (λ target _.
                  Safe-bind Any (bits (read_bytes target)) (Safe-delegate (λ s a s' r. tt))
                    (λ bytes _.
                      Safe-if is_compressed
                        (Safe-bind Any
                          (snapped (snap.decompress bytes table.user_data_uncompressed_buf))
                          (Safe-snapped (λ a r. tt))
                          (λ out _.
                            Safe-bind Any
                              (snapped
                                (snap.decompress_len (bytes ++ drop size table.user_data_buf)))
                              (Safe-snapped (λ a r. tt))
                              (λ count _.
                                Safe-bind Any (or_panic (prefix out count)) (prefix_read out count)
                                  (λ value _. Safe-pure refl))))
                        (Safe-pure refl)))))

  read_user_data-KeepsHistory :
      (table : StringTable) → Safe {p = p} {snap = snap} (KeepsHistory table) (read_user_data table)
  read_user_data-KeepsHistory table = Safe-bind Any (bits read_bool) flag (λ b _.
      Safe-if b
        (Safe-bind (KeepsHistory table)
          (if table.user_data_fixed_size then read_fixed table else read_sized table)
          (Safe-if table.user_data_fixed_size (read_fixed-KeepsHistory table)
            (read_sized-KeepsHistory table))
          (λ r kept. Safe-pure kept))
        (Safe-pure refl))

  -- The rest of a key behind its position.
  abbrev behind : List ℕ → Option (List ℕ) → Update p snap (ℕ × List ℕ)
  behind buf key = do
    count ← bits (read_ubit64 5)
    string ← or_panic (entry_of key)
    target ← or_panic (prefix buf count)
    source ← or_panic (prefix string count)
    (more, rest) ← bits (read_string (drop count buf) false)
    pure (count + more, source ++ rest)

  behind-Safe : (buf : List ℕ) (key : Option (List ℕ)) → Safe Any (behind buf key)
  behind-Safe buf key =
      Safe-bind (λ v. v < 2 ^ 5) (bits (read_ubit64 5)) (Safe-bits (Keeps-read_ubit64 d 5))
        (λ count _. Safe-bind Any (or_panic (entry_of key)) (entry_of-Safe key) (λ string _.
          Safe-bind Any (or_panic (prefix buf count)) (prefix_read buf count) (λ target _.
            Safe-bind Any (or_panic (prefix string count)) (prefix_read string count) (λ source _.
              Safe-bind Any (bits (read_string (drop count buf) false))
                (string_read (drop count buf)) (λ r _. Safe-pure tt)))))
    where
      entry_of-Safe : (o : Option (List ℕ)) → Safe {p = p} {snap = snap} Any (or_panic (entry_of o))
      entry_of-Safe none = record { from = λ br. tt }
      entry_of-Safe (some s) = record { from = λ br. tt }

  key-Alike :
      (old keys history : List (List ℕ)) (buf : List ℕ)
      → Ring old keys history
      → Alike {p = p} {snap = snap}
          (λ a b. (a ≡ b) × Any a)
          (read_key history (length keys) buf)
          (listed_key old keys buf)
  key-Alike old keys history buf ring =
      Alike-bind _ (bits read_bool) (bits read_bool) (Alike-self (bits read_bool) flag)
        (λ b b' (same, _). rw⁻¹ same (
          Alike-if b
            (Alike-bind _ (bits (read_ubit64 5)) (bits (read_ubit64 5))
              (Alike-self {P = λ v. v < 2 ^ 5} (bits (read_ubit64 5))
                (Safe-bits (Keeps-read_ubit64 d 5)))
              (λ position position' (e, below). rw⁻¹ e (looked_up position below)))
            (Alike-self (bits (read_string buf false)) (string_read buf))))
    where
      looked_up :
          (position : ℕ)
          → position < 32
          → Alike
              (λ a b. (a ≡ b) × Any a)
              (behind buf (get_elem? history (history_index (length keys) position)))
              (behind buf (recalled old keys position))
      looked_up position below =
          rw (history_index-recalled old keys history position ring below)
            (Alike-self _ (behind-Safe buf (recalled old keys position)))

  string-Alike :
      (old keys : List (List ℕ)) (table : StringTable)
      → Ring old keys table.history
      → Alike {p = p} {snap = snap}
          (Follows old)
          (read_entry_string table (length keys))
          (listed_string old keys table)
  string-Alike old keys table ring =
      Alike-bind _ (bits read_bool) (bits read_bool) (Alike-self (bits read_bool) flag)
        (λ b b' (same, _). rw⁻¹ same (
          Alike-if b
            (Alike-bind _ (read_key table.history (length keys) table.string_buf)
              (listed_key old keys table.string_buf)
              (key-Alike old keys table.history table.string_buf ring)
              (λ r r' (e, _). rw⁻¹ e (
                Alike-bind _ (or_panic (prefix r.1 32)) (or_panic (prefix r.1 32))
                  (Alike-self (or_panic (prefix r.1 32)) (prefix_read r.1 32))
                  (λ key key' (k, _). rw⁻¹ k (
                    Alike-bind _ (or_panic (prefix r.1 r.0)) (or_panic (prefix r.1 r.0))
                      (Alike-self (or_panic (prefix r.1 r.0)) (prefix_read r.1 r.0))
                      (λ string string' (t, _). Alike-pure (
                        ap (λ (l : List ℕ). some l) t,
                        sym (length-append keys (key ∷ [])),
                        ap
                            (λ (i : ℕ). record table {
                              string_buf = r.1;
                              history = set table.history i key;
                            })
                            (bit_and-thirty_one (length keys)),
                        Ring-push old keys table.history key ring,
                      )))))))
            (Alike-pure (refl, refl, refl, ring))))

  entry-Alike :
      (index : ℤ) (old keys : List (List ℕ)) (table : StringTable)
      → Ring old keys table.history
      → Alike {p = p} {snap = snap}
          (Follows old)
          (parse_entry index (length keys) table)
          (listed_entry index old keys table)
  unfolding parse_entry
  entry-Alike index old keys table ring =
      Alike-bind _ (next_index index) (next_index index)
        (Alike-self (next_index index) (next_index-Safe index))
        (λ i i' (same, _).
          Alike-bind (Follows old) (read_entry_string table (length keys))
            (listed_string old keys table) (string-Alike old keys table ring)
            (λ r r' (s, n, t, ring'). rw⁻¹ t (
              Alike-bind _ (read_user_data r.2) (read_user_data r.2)
                (Alike-self (read_user_data r.2) (read_user_data-KeepsHistory r.2))
                (λ x x' (y, kept). rw⁻¹ (same, s, y) (Alike-pure (refl, n, refl, rw kept ring'))))))

  entries-Alike :
      (n : ℕ) (index : ℤ) (old keys : List (List ℕ)) (table : StringTable)
      → Ring old keys table.history
      → Alike {p = p} {snap = snap}
          (λ a b. a ≡ b)
          (parse_entries n index (length keys) table)
          (listed_entries n index old keys table)
  unfolding parse_entries
  entries-Alike zero index old keys table ring = Alike-pure refl
  entries-Alike (suc n) index old keys table ring =
      Alike-bind (Follows old) (parse_entry index (length keys) table)
        (listed_entry index old keys table) (entry-Alike index old keys table ring)
        (λ r r' (i, l, t, ring'). rw (i, l) (rw⁻¹ t (entries-Alike n r'.0 old r'.1 r.2 ring')))

  -- The parse of an update of a table whose history has 32 keys is what the reference does: a key that
  -- refers to the history takes its first bytes from the key that its position means, which is the
  -- one of that number among the last 32 keys of the update, or among all while there are fewer, and
  -- else the one that the earlier updates have left there.
  pub parse_update-listed_update :
      (table : StringTable) (num_entries : ℤ) (br : BitReader p)
      → length table.history ≡ 32
      → parse_update {p = p} {snap = snap} table num_entries br ≡ listed_update table num_entries br
  unfolding parse_update
  parse_update-listed_update table num_entries br full =
      Same-eq (parse_update table num_entries br) (listed_update table num_entries br) (
        (entries-Alike (as_usize num_entries) (negsuc 0) table.history [] table
            (Ring-start table.history full)).from
          br)
