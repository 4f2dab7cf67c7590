-- ===== src/Tests/Entities.antt =====
-- A message, an entity, and the theorems on them at concrete inputs.
use haste.Prelude.{
  ℕ, zero, suc, ◌≡◌, refl, length, arith, Bool, true, false, List, [], ◌∷◌, Option, none, some,
}
use haste.Prelude.Int.{pos}
use haste.Outcome.{ok}
use haste.BitReader.{BitReader, num_bits_left, read_bool}
use haste.FieldPath.{FieldPath, default, inc_at, inc_last}
use haste.FieldPath.Paths.{read_field_paths, read_loop}
use haste.FieldPath.Huffman.{build_hierarchy}
use haste.FieldPath.Flat.{build_flat_tree}
use haste.Machine.{add_i32}
use haste.FieldPath.Huffman.{merge_all, leaves_from, pop_node}
use haste.FieldPath.Flat.{flatten_branch, flatten_child}
use haste.FieldPath.Ops.{plus_one, field_path_encode_finish}
use haste.FxHash.{hash_bytes, add_u64_to_hash}
use haste.Vartype.{new_span}
use haste.Vartype.Tokenizer.{next_token, emit_word}
use haste.Vartype.Parser.{parse, parse_loop}
use haste.Maps.{lookup, insert, nat_key, int_key}
use haste.FieldDecoder.{bool_decoder}
use haste.FieldMetadata.{bytes, FieldProperties, get_field_metadata}
use haste.FlattenedSerializers.{
  ProtoField, Message, FlattenedSerializer, flattened_serializer, flattened_field, one_field,
  no_fields, no_serializer, SerializerMap, new_field, parse as parse_container,
}
use haste.Tests.BitList.{take_bit, number_floats}
use haste.Tests.Cursor.{cursor}
use haste.Tests.Counted.{counted-Documented, counted-Positions}
use haste.Tests.BitList.{ReadError}
use haste.FxHash.{fkey_from_path}
use haste.FlattenedSerializers.{
  by_name_hash, send_node_hash, serializer_name, field_serializer, get_child,
}
use haste.FlattenedSerializers.Keys.{
  path_of, key-fkey_from_path, join_dots, send_node_hash-join_dots,
}
use haste.FlattenedSerializers.Names.{serializer_name-by_name_hash}
use haste.Entities.{find_field}
use haste.Entities.FixedArrays.{find_field-fixed_array}
use haste.FlattenedSerializers.Reach.{SerializerFits, parse-SerializerFits}
use haste.FieldMetadata.{fixed_array}
use haste.FieldValue.{boolean}
use haste.FieldDecoder.{FieldDecodeContext, default_context, decode}
use haste.Settles.{Settles}
use haste.Maps.{lookup-empty}
use haste.Entities.{Entity, Parsing, ◌>>=◌, pure, parse as parse_entity, skip_entity_fields}
use haste.Entities.Tracking.{
  handle_update-handle_create_with_filter, handle_create_with_filter-all,
  handle_update-handle_delete,
}
use haste.Entities.Reached.{skip_entity_fields-parsed_serializer}
use haste.Entities.Settled.{Kept, parse-Kept}
use haste.Entities.Container.{
  Known, State, EntityContainer, new_container, handle_create, handle_create_with_filter,
  handle_update, handle_delete,
}
use haste.Entities.Events.{Sound, run_all, create, update, delete}
use haste.Entities.Soundness.{run_all-Sound}
use haste.Tests.Counted.{counted}

abbrev packet : List Bool → BitReader (counted true)
packet bits = record { inner = (0, bits); did_check_overflow = false }

abbrev slots : List FieldPath
slots = default ∷ []

abbrev first_path : FieldPath
first_path = record { components = 0 ∷ 0 ∷ 0 ∷ 0 ∷ 0 ∷ 0 ∷ 0 ∷ []; last = 0; finished = false }

abbrev append_bits : ℕ → List Bool → List Bool
append_bits zero bits = bits
append_bits (suc n) bits = false ∷ append_bits n bits

-- Plus one, the end, and one bit.
abbrev whole : BitReader (counted true)
whole = packet (false ∷ true ∷ false ∷ true ∷ [])

abbrev behind_paths : BitReader (counted true)
behind_paths = record { inner = (3, true ∷ []); did_check_overflow = false }

abbrev behind : BitReader (counted true)
behind = record { inner = (4, []); did_check_overflow = false }

one_path : read_field_paths {p = counted true} slots whole ≡ ok ((1, first_path ∷ []), behind_paths)
unfolding read_field_paths build_flat_tree build_hierarchy read_loop read_bool take_bit merge_all
    leaves_from pop_node flatten_branch flatten_child plus_one inc_last inc_at add_i32
    field_path_encode_finish
one_path = refl

-- One class, with one field.
abbrev proto : ProtoField number_floats
proto = record {
  var_type_sym = some (pos 0);
  var_name_sym = some (pos 1);
  bit_count = none;
  low_value = none;
  high_value = none;
  encode_flags = none;
  field_serializer_name_sym = none;
  send_node_sym = some (pos 3);
  var_encoder_sym = none;
}

abbrev message : Message number_floats
message = record {
  symbols = bytes "bool" ∷ bytes "m_b" ∷ bytes "C" ∷ bytes "a.b" ∷ [];
  fields = proto ∷ [];
  serializers = record { serializer_name_sym = some (pos 2); fields_index = pos 0 ∷ [] } ∷ [];
}

abbrev made : FieldProperties number_floats
made = record {
  var_type = hash_bytes (bytes "bool");
  var_name = hash_bytes (bytes "m_b");
  bit_count = none;
  low_value = none;
  high_value = none;
  encode_flags = none;
  field_serializer_name = none;
  send_node = some (add_u64_to_hash (hash_bytes (bytes "a")) (hash_bytes (bytes "b")));
  var_encoder = none;
  metadata = record { special_descriptor = none; decoder = bool_decoder };
  key =
      add_u64_to_hash (add_u64_to_hash (hash_bytes (bytes "a")) (hash_bytes (bytes "b")))
        (hash_bytes (bytes "m_b"));
}

abbrev class : FlattenedSerializer number_floats
class =
    flattened_serializer (hash_bytes (bytes "C"))
      (one_field (flattened_field made no_serializer) no_fields)

abbrev serializers : SerializerMap number_floats
serializers = (hash_bytes (bytes "C"), class) ∷ []

parsed_field : new_field cursor true message proto ≡ ok made
unfolding new_field parse hash_bytes add_u64_to_hash get_field_metadata next_token emit_word
    new_span parse_loop
parsed_field = refl

parsed : parse_container cursor true message ≡ ok serializers
unfolding parse_container parse hash_bytes add_u64_to_hash lookup insert get_field_metadata
    next_token emit_word new_span parse_loop
parsed = refl

named_in_map : lookup (hash_bytes (bytes "C")) serializers ≡ some class
unfolding lookup hash_bytes add_u64_to_hash
named_in_map = refl

named : by_name_hash serializers (hash_bytes (bytes "C")) ≡ some class
unfolding by_name_hash lookup hash_bytes add_u64_to_hash
named = refl

key-fkey_from_path_example :
    fkey_from_path {E = Unit {0}} (path_of (some (bytes "a.b")) (bytes "m_b")) ≡ ok made.key
key-fkey_from_path_example =
    key-fkey_from_path cursor true message proto (bytes "m_b") refl parsed_field

send_node_hash-join_dots_example :
    fkey_from_path {E = Unit {0}} (bytes "sky" ∷ bytes "fog" ∷ [])
    ≡ ok (send_node_hash (join_dots (bytes "sky") (bytes "fog" ∷ [])))
send_node_hash-join_dots_example =
    send_node_hash-join_dots (bytes "sky") (bytes "fog" ∷ []) (refl, (refl, (refl, tt)))
      ((refl, (refl, (refl, tt))), tt)

serializer_name-by_name_hash_example : serializer_name class ≡ hash_bytes (bytes "C")
serializer_name-by_name_hash_example =
    serializer_name-by_name_hash cursor true message serializers (hash_bytes (bytes "C")) class
      parsed named

abbrev fixed : FieldProperties number_floats
fixed = record made {
  field_serializer_name = some (hash_bytes (bytes "C"));
  metadata = record { special_descriptor = some (fixed_array 4); decoder = bool_decoder };
}

abbrev outer : FlattenedSerializer number_floats
outer =
    flattened_serializer 0
      (one_field (flattened_field fixed (field_serializer serializers fixed)) no_fields)

first_of_outer :
    get_child outer 0 ≡ some (flattened_field fixed (field_serializer serializers fixed))
unfolding get_child
first_of_outer = refl

first_of_class : get_child class 0 ≡ some (flattened_field made no_serializer)
unfolding get_child
first_of_class = refl

-- The field 0 of the element 2 of the array.
abbrev array_path : FieldPath
array_path = record { components = 0 ∷ 2 ∷ 0 ∷ 0 ∷ 0 ∷ 0 ∷ 0 ∷ []; last = 2; finished = false }

find_field-fixed_array_example :
    find_field {p = counted true} outer array_path
    ≡ ok (
      flattened_field made no_serializer,
      add_u64_to_hash (add_u64_to_hash fixed.key (add_u64_to_hash 0 2)) (add_u64_to_hash 0 0),
    )
find_field-fixed_array_example =
    find_field-fixed_array outer class serializers fixed array_path 4 0 2 0 (hash_bytes (bytes "C"))
      (flattened_field made no_serializer) refl refl named_in_map first_of_outer first_of_class
      (omega arith) refl refl refl refl

parse-SerializerFits_example : SerializerFits class
parse-SerializerFits_example =
    parse-SerializerFits cursor message serializers (hash_bytes (bytes "C")) class (tt, tt) parsed
      named

abbrev pub context : FieldDecodeContext number_floats
context = default_context number_floats

abbrev fresh : Entity number_floats
fresh = record { index = pos 7; fields = []; serializer = class }

abbrev with_field : Entity number_floats
with_field = record fresh { fields = (made.key, boolean true) ∷ [] }

parsed_entity :
    parse_entity {p = counted true} slots (fresh, context) whole
    ≡ ok (((with_field, context), first_path ∷ []), behind)
unfolding read_field_paths build_flat_tree build_hierarchy read_loop read_bool take_bit merge_all
    leaves_from pop_node flatten_branch flatten_child plus_one inc_last inc_at add_i32
    field_path_encode_finish parse_entity insert decode get_child
parsed_entity = refl

skip_entity_fields-parsed_serializer_example :
    skip_entity_fields {p = counted true} class slots whole ≡ ok (first_path ∷ [], behind)
skip_entity_fields-parsed_serializer_example =
    skip_entity_fields-parsed_serializer (counted-Documented true) (counted-Positions true) refl
      cursor message serializers (hash_bytes (bytes "C")) slots (fresh, context) whole (tt, tt)
      parsed named refl (omega arith) parsed_entity

parse-Kept_example :
    Settles
      (λ (r : (Parsing (counted true) × List FieldPath) × BitReader (counted true)).
        Kept (fresh, context) r.0.0 × (length r.0.1 ≡ length slots))
      (parse_entity slots (fresh, context) whole)
parse-Kept_example =
    parse-Kept (counted-Documented true) (counted-Positions true) refl slots (fresh, context) whole
      refl

abbrev pub known : Known number_floats
known = record {
  entity_classes = record { classes = 1; bits = 0; class_infos = hash_bytes (bytes "C") ∷ [] };
  instance_baseline = some (1 ∷ []) ∷ [];
  serializers = serializers;
}

pub start-Sound : Sound (new_container number_floats, context)
start-Sound = record { indexed = λ i e h. absurd (lookup-empty i h); clean = refl; paths = refl }

run_all-Sound_example :
    Settles
      (λ (r : State (counted true) × BitReader (counted true)). Sound r.0)
      (run_all
        (create (pos 7) known ∷ update (pos 7) ∷ delete (pos 7) ∷ [])
        (new_container number_floats, context)
        whole)
run_all-Sound_example =
    run_all-Sound (counted-Documented true) (counted-Positions true) refl
      (create (pos 7) known ∷ update (pos 7) ∷ delete (pos 7) ∷ [])
      (new_container number_floats, context) whole start-Sound

-- The class, the serial number, the varint, and no path.
abbrev creation : BitReader (counted true)
creation = packet (append_bits 25 (true ∷ false ∷ []))

abbrev end_of_creation : BitReader (counted true)
end_of_creation = record { inner = (27, []); did_check_overflow = false }

abbrev stale : EntityContainer number_floats
stale = record {
  entities = [];
  baseline_entities = [];
  skipped_serializers = (pos 7, class) ∷ [];
  field_paths = slots;
}

abbrev tracked : EntityContainer number_floats
tracked = record stale { entities = (pos 7, fresh) ∷ []; baseline_entities = (pos 0, fresh) ∷ [] }

created :
    handle_create_with_filter {p = counted true}
      (pos 7)
      known
      (λ hash. true)
      (stale, context)
      creation
    ≡ ok ((some (pos 7), (tracked, context)), end_of_creation)
unfolding read_field_paths build_flat_tree build_hierarchy read_loop read_bool take_bit merge_all
    leaves_from pop_node flatten_branch flatten_child field_path_encode_finish
    handle_create_with_filter parse_entity insert lookup haste.BitReader.read_ubit64
    haste.Tests.BitList.take_bits haste.Entities.Container.class_by_id by_name_hash hash_bytes
    add_u64_to_hash haste.BitReader.new haste.Entities.Container.baseline_by_id
    haste.BitReader.is_overflowed
created = refl

abbrev second : BitReader (counted true)
second = packet (true ∷ false ∷ [])

skipped :
    handle_update {p = counted true} (pos 7) (tracked, context) second
    ≡ ok ((none, (tracked, context)), record { inner = (2, []); did_check_overflow = false })
unfolding read_field_paths build_flat_tree build_hierarchy read_loop read_bool take_bit merge_all
    leaves_from pop_node flatten_branch flatten_child field_path_encode_finish handle_update
    skip_entity_fields lookup
skipped = refl

handle_update-handle_create_with_filter_example :
    (◌≡◌ {A = Option (Entity number_floats)} none none) × (tracked.entities ≡ tracked.entities)
handle_update-handle_create_with_filter_example =
    handle_update-handle_create_with_filter (pos 7) known (λ hash. true) (stale, context) creation
      second class (unfold lookup in refl) created skipped

handle_create_with_filter-all_example :
    handle_create_with_filter {p = counted true}
      (pos 7)
      known
      (λ hash. true)
      (stale, context)
      creation
    ≡ (handle_create (pos 7) known (stale, context) >>= λ r. pure (some r.0, r.1)) creation
handle_create_with_filter-all_example =
    handle_create_with_filter-all (pos 7) known (λ hash. true) (stale, context) creation
      (λ hash. refl)

handle_update-handle_delete_example :
    handle_update {p = counted true} (pos 7) ((handle_delete (pos 7) tracked).1, context) second
    ≡ ok ((none, ((handle_delete (pos 7) tracked).1, context)), second)
handle_update-handle_delete_example = handle_update-handle_delete (pos 7) (tracked, context) second
