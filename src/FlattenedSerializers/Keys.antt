-- ===== src/FlattenedSerializers/Keys.antt =====
-- The keys of the fields of crates/haste_core/src/flattenedserializers.rs, against `fkey_from_path` of
-- crates/haste_core/src/entities.rs.
use haste.Prelude.{
  ℕ, ◌≡◌, refl, ◌∙◌, ap, sym, Bool, false, List, [], ◌∷◌, ◌++◌, Option, none, some, ◌==◌,
}
use haste.Outcome.{Outcome, ok, err, panic, stuck, >>=-eq-ok}
use haste.Platform.{Floats}
use haste.FxHash.{hash_bytes, add_u64_to_hash, fkey_from, fkey_from_path}
use haste.Vartype.Tokenizer.{Charsor}
use haste.FieldMetadata.{FieldMetadataError, field_not_found, FieldProperties, get_field_metadata}
use haste.FlattenedSerializers.{
  ProtoField, Message, split_dots, hash_parts, send_node_hash, send_node_and_key, bind_option,
  resolve_sym, new_field, ok_or,
}

-- The parts of a name, joined by dots.
abbrev pub join_dots : List ℕ → List (List ℕ) → List ℕ
join_dots part [] = part
join_dots part (next ∷ parts) = part ++ (b'.' ∷ join_dots next parts)

abbrev pub NoDot : List ℕ → Type 0
NoDot [] = Unit {0}
NoDot (b ∷ bs) = ((b == b'.') ≡ false) × NoDot bs

abbrev pub AllNoDot : List (List ℕ) → Type 0
AllNoDot [] = Unit {0}
AllNoDot (part ∷ parts) = NoDot part × AllNoDot parts

split_part : (part : List ℕ) → NoDot part → split_dots part ≡ (part, [])
unfolding split_dots
split_part [] h = refl
split_part (b ∷ bs) (other, h) = rw (other, split_part bs h) refl

split_join_part :
    (part : List ℕ) (rest : List ℕ)
    → NoDot part
    → split_dots (part ++ (b'.' ∷ rest)) ≡ (part, (split_dots rest).0 ∷ (split_dots rest).1)
unfolding split_dots
split_join_part [] rest h = refl
split_join_part (b ∷ bs) rest (other, h) = rw (other, split_join_part bs rest h) refl

split_dots-join_dots :
    (part : List ℕ) (parts : List (List ℕ))
    → NoDot part
    → AllNoDot parts
    → split_dots (join_dots part parts) ≡ (part, parts)
split_dots-join_dots part [] h hs = split_part part h
split_dots-join_dots part (next ∷ parts) h (h', hs) =
    rw (split_join_part part (join_dots next parts) h, split_dots-join_dots next parts h' hs) refl

-- The loop over the parts of a send node does what that of `fkey_from_path` does.
hash_parts-fkey_from :
    (hash : ℕ) (parts : List (List ℕ)) → hash_parts hash parts ≡ fkey_from hash parts
unfolding hash_parts fkey_from
hash_parts-fkey_from hash [] = refl
hash_parts-fkey_from hash (part ∷ parts) =
    hash_parts-fkey_from (add_u64_to_hash hash (hash_bytes part)) parts

-- The hash of a send node, whose parts have no dots and are joined by dots, is what `fkey_from_path`
-- gives for the parts.
pub send_node_hash-join_dots :
    (part : List ℕ) (parts : List (List ℕ))
    → NoDot part
    → AllNoDot parts
    → fkey_from_path {E = Unit {0}} (part ∷ parts) ≡ ok (send_node_hash (join_dots part parts))
unfolding send_node_hash fkey_from_path
send_node_hash-join_dots part parts h hs =
    rw (split_dots-join_dots part parts h hs)
      (ap ok (sym (hash_parts-fkey_from (hash_bytes part) parts)))

fkey_from-append :
    (hash : ℕ) (parts : List (List ℕ)) (name : List ℕ)
    → fkey_from hash (parts ++ (name ∷ []))
      ≡ add_u64_to_hash (fkey_from hash parts) (hash_bytes name)
unfolding fkey_from
fkey_from-append hash [] name = refl
fkey_from-append hash (part ∷ parts) name =
    fkey_from-append (add_u64_to_hash hash (hash_bytes part)) parts name

-- The path of a field: the parts of its send node, if it has one that is not empty, and its name.
abbrev pub path_of : Option (List ℕ) → List ℕ → List (List ℕ)
path_of none name = name ∷ []
path_of (some []) name = name ∷ []
path_of (some (b ∷ bs)) name = (split_dots (b ∷ bs)).0 ∷ ((split_dots (b ∷ bs)).1 ++ (name ∷ []))

key-path :
    (send_node : Option (List ℕ)) (name : List ℕ)
    → fkey_from_path {E = Unit {0}} (path_of send_node name)
      ≡ ok (send_node_and_key send_node (hash_bytes name)).1
unfolding fkey_from_path send_node_and_key
key-path none name = refl
key-path (some []) name = refl
key-path (some (b ∷ bs)) name =
    let (first, rest) = split_dots (b ∷ bs) in
    ap ok (
      fkey_from-append (hash_bytes first) rest name
      ∙ ap (λ h. add_u64_to_hash h (hash_bytes name))
          (sym (hash_parts-fkey_from (hash_bytes first) rest)))

module _ {f : Floats} (c : Charsor) (checks : Bool) where
  -- The key of a field that is made from a message is what `fkey_from_path` gives for the parts of its
  -- send node, if there is one that is not empty, followed by its name.
  pub key-fkey_from_path :
      (msg : Message f) (proto : ProtoField f) (name : List ℕ) {ps : FieldProperties f}
      → bind_option proto.var_name_sym (resolve_sym msg) ≡ some name
      → new_field c checks msg proto ≡ ok ps
      → fkey_from_path {E = Unit {0}}
          (path_of (bind_option proto.send_node_sym (resolve_sym msg)) name)
        ≡ ok ps.key
  unfolding new_field
  key-fkey_from_path msg proto name {ps} named h =
      let (var_type, _, h1) =
        >>=-eq-ok (ok_or field_not_found (bind_option proto.var_type_sym (resolve_sym msg))) _ h in
      let (name', e, h2) =
        >>=-eq-ok (ok_or field_not_found (bind_option proto.var_name_sym (resolve_sym msg))) _ h1 in
      let (metadata, _, h3) = >>=-eq-ok (get_field_metadata checks c _ var_type) _ h2 in
      let same : name ≡ name' = the_name name' (rw named at e) in
      key-path (bind_option proto.send_node_sym (resolve_sym msg)) name
      ∙ ap
          (λ (n : List ℕ).
            ok
              (send_node_and_key (bind_option proto.send_node_sym (resolve_sym msg))
                (hash_bytes n)).1)
          same
      ∙ ap (key_of (fallback name')) h3
    where
      the_name :
          (n : List ℕ) → ◌≡◌ {A = Outcome FieldMetadataError (List ℕ)} (ok name) (ok n) → name ≡ n
      the_name n e = cc

      fallback : List ℕ → ℕ
      fallback n = 0

      key_of : ℕ → Outcome FieldMetadataError (FieldProperties f) → Outcome (Unit {0}) ℕ
      key_of n (ok x) = ok x.key
      key_of n (err e) = ok n
      key_of n panic = panic
      key_of n stuck = stuck
