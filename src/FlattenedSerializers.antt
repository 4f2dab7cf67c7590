-- ===== src/FlattenedSerializers.antt =====
-- crates/haste_core/src/flattenedserializers.rs. The messages of the protocol are records of what is
-- read of them; their decoding from bytes is not modelled. A shared serializer (`Arc`) is its value,
-- since none is changed once it is shared.
pub mod Keys
pub mod Names
pub mod Reach
use haste.Prelude.{
  ℕ, zero, suc, ◌^◌, Bool, true, false, List, [], ◌∷◌, Option, none, some, ◌==◌, if◌then◌else◌,
  get_elem?,
}
use haste.Prelude.Int.{ℤ, pos, negsuc}
use haste.Outcome.{Outcome, ok, err, panic, stuck, ◌>>=◌, map_err}
use haste.Platform.{Floats}
use haste.Maps.{Map, lookup, insert, nat_key, int_key}
use haste.FxHash.{hash_bytes, add_u64_to_hash, fkey_from}
use haste.Vartype.Tokenizer.{Charsor}
use haste.FieldDecoder.{FieldDecoder}
use haste.FieldMetadata.{
  FieldMetadataError, field_not_found, FieldSpecialDescriptor, fixed_array, dynamic_array,
  dynamic_serializer_array, pointer_field, FieldMetadata, FieldProperties, default_metadata,
  is_dynamic_array as is_dynamic_array_descriptor, is_fixed_array as is_fixed_array_descriptor,
  is_pointer as is_pointer_descriptor, get_field_metadata, as_usize,
}

-- `ProtoFlattenedSerializerFieldT`
pub record ProtoField (f : Floats) : Type 0 where
  pub var_type_sym : Option ℤ
  pub var_name_sym : Option ℤ
  pub bit_count : Option ℤ
  pub low_value : Option f.F32
  pub high_value : Option f.F32
  pub encode_flags : Option ℤ
  pub field_serializer_name_sym : Option ℤ
  pub send_node_sym : Option ℤ
  pub var_encoder_sym : Option ℤ

-- `ProtoFlattenedSerializerT`
pub record ProtoSerializer : Type 0 where
  pub serializer_name_sym : Option ℤ
  pub fields_index : List ℤ

-- `CsvcMsgFlattenedSerializer`
pub record Message (f : Floats) : Type 0 where
  pub symbols : List (List ℕ)
  pub fields : List (ProtoField f)
  pub serializers : List ProtoSerializer

pub data FlattenedSerializersError : Type 0 where
  field_metadata_error : FieldMetadataError → FlattenedSerializersError
  symbol_not_found : FlattenedSerializersError

-- A field, with the serializer of its children if it has one; a serializer, with its name.
mutual
  pub data FlattenedSerializerField (f : Floats) : Type 0 where
    flattened_field : FieldProperties f → FieldSerializer f → FlattenedSerializerField f

  pub data FieldSerializer (f : Floats) : Type 0 where
    no_serializer : FieldSerializer f
    some_serializer : FlattenedSerializer f → FieldSerializer f

  pub data FlattenedSerializer (f : Floats) : Type 0 where
    flattened_serializer : ℕ → Fields f → FlattenedSerializer f

  pub data Fields (f : Floats) : Type 0 where
    no_fields : Fields f
    one_field : FlattenedSerializerField f → Fields f → Fields f

module _ {f : Floats} where
  abbrev pub properties : FlattenedSerializerField f → FieldProperties f
  properties (flattened_field ps s) = ps

  abbrev pub serializer_name : FlattenedSerializer f → ℕ
  serializer_name (flattened_serializer name _) = name

  unfoldable pub get_field : Fields f → ℕ → Option (FlattenedSerializerField f)
  get_field no_fields i = none
  get_field (one_field x xs) zero = some x
  get_field (one_field x xs) (suc i) = get_field xs i

  -- `FlattenedSerializer::get_child` and `FlattenedSerializerField::get_child`
  unfoldable pub get_child : FlattenedSerializer f → ℕ → Option (FlattenedSerializerField f)
  unfolding get_field
  get_child (flattened_serializer name xs) index = get_field xs index

  unfoldable pub get_child_of_field :
      FlattenedSerializerField f → ℕ → Option (FlattenedSerializerField f)
  unfolding get_child
  get_child_of_field (flattened_field ps no_serializer) index = none
  get_child_of_field (flattened_field ps (some_serializer s)) index = get_child s index

  abbrev pub is_dynamic_array : FlattenedSerializerField f → Bool
  is_dynamic_array x = is_dynamic_array_descriptor (properties x).metadata.special_descriptor

  abbrev pub is_fixed_array : FlattenedSerializerField f → Bool
  is_fixed_array x = is_fixed_array_descriptor (properties x).metadata.special_descriptor

  abbrev pub is_pointer : FlattenedSerializerField f → Bool
  is_pointer x = is_pointer_descriptor (properties x).metadata.special_descriptor

  -- `fields.push(x)`, and `fields.resize(length, x)` of no fields.
  abbrev pub push_field : Fields f → FlattenedSerializerField f → Fields f
  push_field no_fields x = one_field x no_fields
  push_field (one_field y ys) x = one_field y (push_field ys x)

  abbrev pub resize : ℕ → FlattenedSerializerField f → Fields f
  resize zero x = no_fields
  resize (suc n) x = one_field x (resize n x)

-- `split('.')`: the first part, and the parts behind it.
unfoldable pub split_dots : List ℕ → List ℕ × List (List ℕ)
split_dots [] = ([], [])
split_dots (b ∷ bs) =
    let rest = split_dots bs in if b == b'.' then ([], rest.0 ∷ rest.1) else (b ∷ rest.0, rest.1)

-- The hash of a send node, one part after the other.
-- The loop over the parts behind the first.
unfoldable pub hash_parts : ℕ → List (List ℕ) → ℕ
hash_parts hash [] = hash
hash_parts hash (part ∷ parts) = hash_parts (add_u64_to_hash hash (hash_bytes part)) parts

unfoldable pub send_node_hash : List ℕ → ℕ
unfolding split_dots hash_parts
send_node_hash name = let parts = split_dots name in hash_parts (hash_bytes parts.0) parts.1

-- The symbol and the key: an empty send node is none.
unfoldable pub send_node_and_key : Option (List ℕ) → ℕ → Option ℕ × ℕ
unfolding send_node_hash
send_node_and_key none var_name = (none, var_name)
send_node_and_key (some []) var_name = (none, var_name)
send_node_and_key (some (b ∷ bs)) var_name =
    let hash = send_node_hash (b ∷ bs) in (some hash, add_u64_to_hash hash var_name)

-- `ok_or`
abbrev pub ok_or : {E A : Type 0} → E → Option A → Outcome E A
ok_or e none = err e
ok_or e (some a) = ok a

abbrev pub bind_option : {A B : Type 0} → Option A → (A → Option B) → Option B
bind_option none g = none
bind_option (some a) g = g a

abbrev pub hash_option : Option (List ℕ) → Option ℕ
hash_option none = none
hash_option (some name) = some (hash_bytes name)

module _ {f : Floats} where
  abbrev pub resolve_sym : Message f → ℤ → Option (List ℕ)
  resolve_sym msg i = get_elem? msg.symbols (as_usize i)

  module _ (c : Charsor) (checks : Bool) where
    -- `FlattenedSerializerField::new`
    unfoldable pub new_field :
        Message f → ProtoField f → Outcome FieldMetadataError (FieldProperties f)
    unfolding send_node_and_key
    new_field msg proto = do
      var_type ← ok_or field_not_found (bind_option proto.var_type_sym (resolve_sym msg))
      name ← ok_or field_not_found (bind_option proto.var_name_sym (resolve_sym msg))
      let var_name = hash_bytes name
      let node_and_key =
          send_node_and_key (bind_option proto.send_node_sym (resolve_sym msg)) var_name
      let ret : FieldProperties f = record {
        var_type = hash_bytes var_type;
        var_name = var_name;
        bit_count = proto.bit_count;
        low_value = proto.low_value;
        high_value = proto.high_value;
        encode_flags = proto.encode_flags;
        field_serializer_name =
            hash_option (bind_option proto.field_serializer_name_sym (resolve_sym msg));
        send_node = node_and_key.0;
        var_encoder = hash_option (bind_option proto.var_encoder_sym (resolve_sym msg));
        metadata = default_metadata f;
        key = node_and_key.1;
      }
      metadata ← get_field_metadata checks c ret var_type
      ok (record ret { metadata = metadata })

abbrev pub SerializerMap : Floats → Type 0
SerializerMap f = Map ℕ (FlattenedSerializer f)

abbrev pub FieldMap : Floats → Type 0
FieldMap f = Map ℤ (FlattenedSerializerField f)

-- `FlattenedSerializerField::default`, with its metadata.
abbrev pub default_field : {f : Floats} → FieldMetadata f → FieldProperties f
default_field metadata = record {
  var_type = 0;
  var_name = 0;
  bit_count = none;
  low_value = none;
  high_value = none;
  encode_flags = none;
  field_serializer_name = none;
  send_node = none;
  var_encoder = none;
  metadata = metadata;
  key = 0;
}

module _ {f : Floats} where
  abbrev pub of_option : Option (FlattenedSerializer f) → FieldSerializer f
  of_option none = no_serializer
  of_option (some s) = some_serializer s

  -- The serializer that the field names, if it is there by now.
  abbrev pub named_serializer : SerializerMap f → FieldProperties f → FieldSerializer f
  named_serializer map ps =
      of_option (bind_option ps.field_serializer_name (λ hash. lookup hash map))

  -- A serializer with no name of its own.
  abbrev pub unnamed : Fields f → FieldSerializer f
  unnamed xs = some_serializer (flattened_serializer 0 xs)

  -- `field.field_serializer`, by the special descriptor.
  abbrev pub serializer_by :
      SerializerMap f → FieldProperties f → Option (FieldSpecialDescriptor f) → FieldSerializer f
  serializer_by map ps (some (fixed_array length)) =
      unnamed (resize length (flattened_field ps (named_serializer map ps)))
  serializer_by map ps (some (dynamic_array decoder)) = unnamed (
      one_field
        (flattened_field (default_field (record { special_descriptor = none; decoder = decoder }))
          no_serializer)
        no_fields)
  serializer_by map ps (some dynamic_serializer_array) = unnamed (
      one_field (flattened_field (default_field (default_metadata f)) (named_serializer map ps))
        no_fields)
  serializer_by map ps (some pointer_field) = named_serializer map ps
  serializer_by map ps none = named_serializer map ps

  unfoldable pub field_serializer : SerializerMap f → FieldProperties f → FieldSerializer f
  field_serializer map ps = serializer_by map ps ps.metadata.special_descriptor

  -- `&msg.fields[i]`, with the bounds check.
  abbrev pub in_bounds : Option (ProtoField f) → Outcome FlattenedSerializersError (ProtoField f)
  in_bounds none = panic
  in_bounds (some x) = ok x

  module _ (c : Charsor) (checks : Bool) where
    -- A field that is not in the map by now.
    abbrev pub make_field :
        Message f
        → SerializerMap f
        → ℤ
        → Outcome FlattenedSerializersError (FlattenedSerializerField f)
    make_field msg serializers i = do
      proto ← in_bounds (get_elem? msg.fields (as_usize i))
      ps ← map_err field_metadata_error (new_field c checks msg proto)
      ok (flattened_field ps (field_serializer serializers ps))

    -- The field of an index: it is in the map, or it is made.
    abbrev pub field_at :
        Message f
        → SerializerMap f
        → ℤ
        → FieldMap f
        → Option (FlattenedSerializerField f)
        → Outcome FlattenedSerializersError (FlattenedSerializerField f × FieldMap f)
    field_at msg serializers i fields_by_index (some x) = ok (x, fields_by_index)
    field_at msg serializers i fields_by_index none = do
      x ← make_field msg serializers i
      ok (x, insert i x fields_by_index)

    -- The loop over `fields_index`; the fields so far, and the map.
    unfoldable pub parse_fields :
        Message f
        → SerializerMap f
        → List ℤ
        → FieldMap f
        → Fields f
        → Outcome FlattenedSerializersError (Fields f × FieldMap f)
    unfolding new_field field_serializer
    parse_fields msg serializers [] fields_by_index xs = ok (xs, fields_by_index)
    parse_fields msg serializers (i ∷ is) fields_by_index xs = do
      (x, fields_by_index') ← field_at msg serializers i fields_by_index (lookup i fields_by_index)
      parse_fields msg serializers is fields_by_index' (push_field xs x)

    -- The loop over the serializers of the message.
    unfoldable pub parse_serializers :
        Message f
        → List ProtoSerializer
        → FieldMap f
        → SerializerMap f
        → Outcome FlattenedSerializersError (SerializerMap f)
    unfolding parse_fields
    parse_serializers msg [] fields_by_index serializers = ok serializers
    parse_serializers msg (s ∷ ss) fields_by_index serializers = do
      name ← ok_or symbol_not_found (bind_option s.serializer_name_sym (resolve_sym msg))
      (xs, fields_by_index') ← parse_fields msg serializers s.fields_index fields_by_index no_fields
      let hash = hash_bytes name
      parse_serializers msg ss fields_by_index'
          (insert hash (flattened_serializer hash xs) serializers)

    -- `FlattenedSerializerContainer::parse`, of the decoded message.
    unfoldable pub parse : Message f → Outcome FlattenedSerializersError (SerializerMap f)
    unfolding parse_serializers
    parse msg = parse_serializers msg msg.serializers [] []

  unfoldable pub by_name_hash : SerializerMap f → ℕ → Option (FlattenedSerializer f)
  by_name_hash map hash = lookup hash map
