-- ===== src/Entities/Reached.antt =====
-- The decoders that the paths of crates/haste_core/src/entities.rs reach, for serializers that are
-- parsed from a message.
use haste.Prelude.{
  ℕ, zero, suc, ◌+◌, ◌^◌, ◌<◌, ◌≡◌, arith, ap, sym, Bool, true, false, List, Option, none, some,
  if◌then◌else◌,
}
use haste.Outcome.{Outcome, ok, err, panic, stuck, ◌>>=◌ as bind, >>=-eq-ok as bind-eq-ok}
use haste.Platform.{Platform, Floats, Documented, Positions}
use haste.BitReader.{BitReader, num_bits_left}
use haste.FieldPath.{FieldPath}
use haste.FieldPath.Paths.{read_field_paths}
use haste.FieldPath.Paths.Whole.{read_field_paths-Within}
use haste.FieldPath.Paths.Valid.{Good}
use haste.BitReader.Keeps.{Within}
use haste.Vartype.Tokenizer.{Charsor}
use haste.FieldDecoder.SkipBits.{Fits}
use haste.FieldDecoder.Skips.{IsClean}
use haste.FlattenedSerializers.{
  Message, SerializerMap, FlattenedSerializer, FlattenedSerializerField, flattened_field,
  properties, get_child, get_child_of_field, is_dynamic_array, by_name_hash,
  parse as parse_container,
}
use haste.FlattenedSerializers.Reach.{
  FieldFits, SerializerFits, ProtosFit, get_child-Fits, get_child_of_field-Fits,
  parse-SerializerFits,
}
use haste.Entities.{
  Parsing, found, component, descend, descend_from, find_field, parse, skip_entity_fields,
}
use haste.Entities.Skips.{DecodersFit, descend-child, skip_entity_fields-parse}

decoder-Fits :
    {f : Floats} (y : FlattenedSerializerField f)
    → FieldFits y
    → Fits (properties y).metadata.decoder
unfolding FieldFits
decoder-Fits (flattened_field ps s) h = h.0

module _ {p : Platform} where
  found-some : {A : Type 0} (o : Option A) {a : A} → found {p = p} o ≡ ok a → o ≡ some a
  found-some none e = absurd (cc)
  found-some (some b) {a} e = let same : b ≡ a = cc in ap some same

  descend-Fits :
      (fp : FieldPath) (i : ℕ) (x : FlattenedSerializerField p.floats) (key : ℕ)
      {r : FlattenedSerializerField p.floats × ℕ}
      → FieldFits x
      → descend {p = p} fp i x key ≡ ok r
      → FieldFits r.0
  descend-Fits fp i x key {r} h e = either (is_dynamic_array x) (descend-child fp i x r.0 key r.1 e)
    where
      either :
          (b : Bool)
          → (if b
              then found {p = p} (get_child_of_field x 0)
              else bind (component fp i) (λ c. found (get_child_of_field x c)))
            ≡ ok r.0
          → FieldFits r.0
      either true e = get_child_of_field-Fits x 0 h (found-some (get_child_of_field x 0) e)
      either false e =
          let (c, _, e') = bind-eq-ok (component {p = p} fp i) _ e in
          get_child_of_field-Fits x c h (found-some (get_child_of_field x c) e')

  descend_from-Fits :
      (fp : FieldPath) (n i : ℕ) (x : FlattenedSerializerField p.floats) (key : ℕ)
      {r : FlattenedSerializerField p.floats × ℕ}
      → FieldFits x
      → descend_from {p = p} fp n i x key ≡ ok r
      → FieldFits r.0
  unfolding descend_from
  descend_from-Fits fp zero i x key {r} h e =
      let same : ◌≡◌ {A = FlattenedSerializerField p.floats × ℕ} (x, key) r = cc in
      rw (ap (λ (r : FlattenedSerializerField p.floats × ℕ). r.0) (sym same)) h
  descend_from-Fits fp (suc n) i x key h e =
      let (r, e1, e2) = bind-eq-ok (descend {p = p} fp i x key) _ e in
      descend_from-Fits fp n (i + 1) r.0 r.1 (descend-Fits fp i x key h e1) e2

  SerializerFits-DecodersFit :
      (s : FlattenedSerializer p.floats) → SerializerFits s → DecodersFit p s
  unfolding find_field
  SerializerFits-DecodersFit s h fp y key e =
      let (c, _, e1) = bind-eq-ok (component {p = p} fp 0) _ e in
      let (x, e2, e3) = bind-eq-ok (found {p = p} (get_child s c)) _ e1 in
      let first = get_child-Fits s c h (found-some (get_child s c) e2) in
      decoder-Fits y (descend_from-Fits fp fp.last 1 x (properties x).key first e3)

module _ {p : Platform} (d : Documented p) (q : Positions p)
    (checks : p.overflow_checks ≡ true) where
  paths_room :
      (fps : List FieldPath) (br : BitReader p)
      → num_bits_left br < 2 ^ 64
      → (r : ℕ × List FieldPath) (br1 : BitReader p) → read_field_paths fps br ≡ ok (r, br1)
      → num_bits_left br1 < 2 ^ 64
  paths_room fps br room r br1 e =
      at_result (read_field_paths fps br) (read_field_paths-Within d checks fps br) e
    where
      at_result :
          (o : Outcome p.Error ((ℕ × List FieldPath) × BitReader p))
          → Within (Good fps) (num_bits_left br) o
          → o ≡ ok (r, br1)
          → num_bits_left br1 < 2 ^ 64
      at_result (ok (v, br2)) (good, few) e = let same : br2 ≡ br1 = cc in rw (← same) (omega arith)
      at_result (err x) h e = absurd (cc)
      at_result panic h e = absurd (cc)
      at_result stuck h e = absurd (cc)

  -- In a build with overflow checks and debug assertions, let a serializer be parsed from a message in
  -- which every bit count is none or not negative, and let the bits left be a usize. If
  -- `Entity::parse` of an entity with that serializer succeeds with an empty buffer, then
  -- `skip_entity_fields` leaves the same reader and the same slice of paths: an entity that is skipped
  -- takes from the packet just what it takes when it is tracked.
  pub skip_entity_fields-parsed_serializer :
      (c : Charsor) (msg : Message p.floats) (map : SerializerMap p.floats) (hash : ℕ)
      (fps : List FieldPath) (st : Parsing p) (br : BitReader p) {st' : Parsing p}
      {fps' : List FieldPath} {br' : BitReader p}
      → ProtosFit msg.fields
      → parse_container c true msg ≡ ok map
      → by_name_hash map hash ≡ some st.0.serializer
      → IsClean st.1
      → num_bits_left br < 2 ^ 64
      → parse {p = p} fps st br ≡ ok ((st', fps'), br')
      → skip_entity_fields {p = p} st.0.serializer fps br ≡ ok (fps', br')
  skip_entity_fields-parsed_serializer c msg map hash fps st br protos made named clean room h =
      skip_entity_fields-parse d q fps st br clean
        (SerializerFits-DecodersFit st.0.serializer
          (parse-SerializerFits c msg map hash st.0.serializer protos made named))
        (paths_room fps br room) h
