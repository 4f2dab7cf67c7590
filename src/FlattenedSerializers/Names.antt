-- ===== src/FlattenedSerializers/Names.antt =====
-- The serializers of crates/haste_core/src/flattenedserializers.rs by their names, and the elements of
-- a fixed array.
use haste.Prelude.{
  ℕ, zero, suc, ◌≡◌, refl, ◌∙◌, sym, subst, arith, Bool, true, false, List, [], ◌∷◌, Option, none,
  some, if◌then◌else◌, ltb,
}
use haste.Outcome.{ok, >>=-eq-ok}
use haste.Platform.{Floats}
use haste.Maps.{lookup, insert, lookup-insert, nat_key}
use haste.FxHash.{hash_bytes}
use haste.Vartype.Tokenizer.{Charsor}
use haste.FieldMetadata.{FieldProperties, FieldSpecialDescriptor, fixed_array}
use haste.FlattenedSerializers.{
  Message, ProtoSerializer, FlattenedSerializer, flattened_serializer, FlattenedSerializerField,
  flattened_field, Fields, no_fields, serializer_name, SerializerMap, FieldMap, parse_fields,
  parse_serializers, parse, by_name_hash, ok_or, bind_option, resolve_sym, symbol_not_found,
  get_field, resize, field_serializer, serializer_by, named_serializer, get_child_of_field,
}

-- Every serializer is kept under the hash of its name.
abbrev pub Named : {f : Floats} → SerializerMap f → Type 0
Named {f} map =
    (hash : ℕ) (s : FlattenedSerializer f) → lookup hash map ≡ some s → serializer_name s ≡ hash

Named-empty : {f : Floats} → Named {f = f} []
unfolding lookup
Named-empty hash s e = absurd (cc)

Named-insert :
    {f : Floats} (hash : ℕ) (fields : Fields f) (map : SerializerMap f)
    → Named map
    → Named (insert hash (flattened_serializer hash fields) map)
Named-insert {f} hash fields map h j s found =
    either (nat_key.same hash j) refl
      (sym (lookup-insert hash j (flattened_serializer hash fields) map) ∙ found)
  where
    either :
        (b : Bool)
        → nat_key.same hash j ≡ b
        → ◌≡◌ {A = Option (FlattenedSerializer f)}
            (if b then some (flattened_serializer hash fields) else lookup j map)
            (some s)
        → serializer_name s ≡ j
    either true same r =
        let hit : flattened_serializer hash fields ≡ s = cc in
        rw (← hit) ((nat_key.same_iff hash j).0 same)
    either false same r = h j s r

module _ {f : Floats} (c : Charsor) (checks : Bool) where
  parse_serializers-Named :
      (msg : Message f) (ss : List ProtoSerializer) (fields : FieldMap f) (map : SerializerMap f)
      {map' : SerializerMap f}
      → Named map
      → parse_serializers c checks msg ss fields map ≡ ok map'
      → Named map'
  unfolding parse_serializers
  parse_serializers-Named msg [] fields map {map'} h e = let same : map ≡ map' = cc in rw (← same) h
  parse_serializers-Named msg (s ∷ ss) fields map h e =
      let (name, _, e1) =
        >>=-eq-ok (ok_or symbol_not_found (bind_option s.serializer_name_sym (resolve_sym msg))) _
          e in
      let (r, _, e2) =
        >>=-eq-ok (parse_fields c checks msg map s.fields_index fields no_fields) _ e1 in
      parse_serializers-Named msg ss r.1
        (insert (hash_bytes name) (flattened_serializer (hash_bytes name) r.0) map)
        (Named-insert (hash_bytes name) r.0 map h) e2

  -- A serializer that the container finds by a hash has that hash as its name.
  pub serializer_name-by_name_hash :
      (msg : Message f) (map : SerializerMap f) (hash : ℕ) (s : FlattenedSerializer f)
      → parse c checks msg ≡ ok map
      → by_name_hash map hash ≡ some s
      → serializer_name s ≡ hash
  unfolding parse by_name_hash
  serializer_name-by_name_hash msg map hash s parsed found =
      parse_serializers-Named msg msg.serializers [] [] Named-empty parsed hash s found

module _ {f : Floats} where
  get_field-resize :
      (n i : ℕ) (x : FlattenedSerializerField f)
      → get_field (resize n x) i ≡ (if ltb i n then some x else none)
  unfolding get_field
  get_field-resize zero i x = ground arith
  get_field-resize (suc n) zero x = ground arith
  get_field-resize (suc n) (suc i) x =
      let same : ltb (suc i) (suc n) ≡ ltb i n = ground arith in rw same (get_field-resize n i x)

  -- A field that is a fixed array has just as many children as its length says, and each is a clone
  -- of it, with the serializer that the field names.
  pub get_child_of_field-fixed_array :
      (map : SerializerMap f) (ps : FieldProperties f) (length i : ℕ)
      → ps.metadata.special_descriptor ≡ some (fixed_array length)
      → get_child_of_field (flattened_field ps (field_serializer map ps)) i
        ≡ (if ltb i length then some (flattened_field ps (named_serializer map ps)) else none)
  unfolding get_child_of_field field_serializer
  get_child_of_field-fixed_array map ps length i e =
      subst
        (λ (o : Option (FieldSpecialDescriptor f)).
          get_child_of_field (flattened_field ps (serializer_by map ps o)) i
          ≡ (if ltb i length then some (flattened_field ps (named_serializer map ps)) else none))
        (sym e) (get_field-resize length i (flattened_field ps (named_serializer map ps)))
