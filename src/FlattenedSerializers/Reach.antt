-- ===== src/FlattenedSerializers/Reach.antt =====
-- The decoders that are reached from a serializer of crates/haste_core/src/flattenedserializers.rs.
use haste.Prelude.{
  ℕ, zero, suc, ◌≡◌, refl, ap, subst, true, List, [], ◌∷◌, Option, none, some, get_elem?,
}
use haste.Prelude.Int.{ℤ}
use haste.Outcome.{Outcome, ok, >>=-eq-ok, map_err, map_err-eq-ok}
use haste.Platform.{Floats}
use haste.Maps.{lookup, lookup-empty, insert, insert-AllValues, nat_key, int_key}
use haste.FxHash.{hash_bytes}
use haste.Vartype.Tokenizer.{Charsor}
use haste.FieldDecoder.SkipBits.{Fits}
use haste.FieldMetadata.{
  FieldProperties, FieldMetadata, FieldSpecialDescriptor, fixed_array, dynamic_array,
  dynamic_serializer_array, pointer_field, FieldMetadataError, field_not_found, get_field_metadata,
  as_usize,
}
use haste.FieldMetadata.Chosen.{DescriptorFits, MetadataFits, BitCountFits, get_field_metadata-Fits}
use haste.FlattenedSerializers.{
  Message, ProtoField, ProtoSerializer, FlattenedSerializer, flattened_serializer,
  FlattenedSerializerField, flattened_field, Fields, no_fields, one_field, FieldSerializer,
  no_serializer, some_serializer, SerializerMap, FieldMap, get_field, get_child, get_child_of_field,
  push_field, resize, of_option, named_serializer, serializer_by, bind_option, new_field, ok_or,
  resolve_sym, make_field, field_at, in_bounds, parse_fields, parse_serializers, parse,
  by_name_hash, symbol_not_found, field_serializer, field_metadata_error, FlattenedSerializersError,
}

-- The bits of a decoder fit, and so do those of the decoders below.
unfoldable mutual
  pub FieldFits : {f : Floats} → FlattenedSerializerField f → Type 0
  FieldFits (flattened_field ps s) = Fits ps.metadata.decoder × ChildrenFit s

  pub ChildrenFit : {f : Floats} → FieldSerializer f → Type 0
  ChildrenFit no_serializer = Unit {0}
  ChildrenFit (some_serializer s) = SerializerFits s

  pub SerializerFits : {f : Floats} → FlattenedSerializer f → Type 0
  SerializerFits (flattened_serializer name xs) = AllFit xs

  pub AllFit : {f : Floats} → Fields f → Type 0
  AllFit no_fields = Unit {0}
  AllFit (one_field x xs) = FieldFits x × AllFit xs

module _ {f : Floats} where
  pub get_field-Fits :
      (xs : Fields f) (i : ℕ) {y : FlattenedSerializerField f}
      → AllFit xs
      → get_field xs i ≡ some y
      → FieldFits y
  unfolding get_field AllFit
  get_field-Fits no_fields i h e = absurd (cc)
  get_field-Fits (one_field x xs) zero {y} (h, hs) e = let same : x ≡ y = cc in rw (← same) h
  get_field-Fits (one_field x xs) (suc i) (h, hs) e = get_field-Fits xs i hs e

  pub get_child-Fits :
      (s : FlattenedSerializer f) (i : ℕ) {y : FlattenedSerializerField f}
      → SerializerFits s
      → get_child s i ≡ some y
      → FieldFits y
  unfolding get_child SerializerFits
  get_child-Fits (flattened_serializer name xs) i h e = get_field-Fits xs i h e

  pub get_child_of_field-Fits :
      (x : FlattenedSerializerField f) (i : ℕ) {y : FlattenedSerializerField f}
      → FieldFits x
      → get_child_of_field x i ≡ some y
      → FieldFits y
  unfolding get_child_of_field FieldFits
  get_child_of_field-Fits (flattened_field ps no_serializer) i h e = absurd (cc)
  get_child_of_field-Fits (flattened_field ps (some_serializer s)) i (_, h) e =
      get_child-Fits s i h e

  pub push_field-Fits :
      (xs : Fields f) (x : FlattenedSerializerField f)
      → AllFit xs
      → FieldFits x
      → AllFit (push_field xs x)
  unfolding AllFit
  push_field-Fits no_fields x h hx = (hx, tt)
  push_field-Fits (one_field y ys) x (h, hs) hx = (h, push_field-Fits ys x hs hx)

  resize-Fits : (n : ℕ) (x : FlattenedSerializerField f) → FieldFits x → AllFit (resize n x)
  unfolding AllFit
  resize-Fits zero x h = tt
  resize-Fits (suc n) x h = (h, resize-Fits n x h)

  abbrev pub MapFits : SerializerMap f → Type 0
  MapFits map = (hash : ℕ) (s : FlattenedSerializer f) → lookup hash map ≡ some s → SerializerFits s

  named-Fits :
      (map : SerializerMap f) (ps : FieldProperties f)
      → MapFits map
      → ChildrenFit (named_serializer map ps)
  unfolding ChildrenFit
  named-Fits map ps h = by_name ps.field_serializer_name
    where
      looked_up :
          (hash : ℕ) (o : Option (FlattenedSerializer f))
          → lookup hash map ≡ o
          → ChildrenFit (of_option o)
      looked_up hash none e = tt
      looked_up hash (some s) e = h hash s e

      by_name : (o : Option ℕ) → ChildrenFit (of_option (bind_option o (λ hash. lookup hash map)))
      by_name none = tt
      by_name (some hash) = looked_up hash (lookup hash map) refl

  pub serializer_by-Fits :
      (map : SerializerMap f) (ps : FieldProperties f) (o : Option (FieldSpecialDescriptor f))
      → MapFits map
      → Fits ps.metadata.decoder
      → DescriptorFits o
      → ChildrenFit (serializer_by map ps o)
  unfolding ChildrenFit
  serializer_by-Fits map ps (some (fixed_array length)) h fits d =
      resize-Fits length (flattened_field ps (named_serializer map ps)) (fits, named-Fits map ps h)
  serializer_by-Fits map ps (some (dynamic_array decoder)) h fits d = ((d, tt), tt)
  serializer_by-Fits map ps (some dynamic_serializer_array) h fits d =
      ((tt, named-Fits map ps h), tt)
  serializer_by-Fits map ps (some pointer_field) h fits d = named-Fits map ps h
  serializer_by-Fits map ps none h fits d = named-Fits map ps h

-- The bit counts of the fields of a message.
abbrev pub ProtosFit : {f : Floats} → List (ProtoField f) → Type 0
ProtosFit [] = Unit {0}
ProtosFit (x ∷ xs) = BitCountFits x.bit_count × ProtosFit xs

get_elem-Fits :
    {f : Floats} (xs : List (ProtoField f)) (i : ℕ) {x : ProtoField f}
    → ProtosFit xs
    → get_elem? xs i ≡ some x
    → BitCountFits x.bit_count
get_elem-Fits [] zero h e = absurd (cc)
get_elem-Fits [] (suc i) h e = absurd (cc)
get_elem-Fits (y ∷ ys) zero {x} (h, hs) e = let same : y ≡ x = cc in rw (← same) h
get_elem-Fits (y ∷ ys) (suc i) (h, hs) e = get_elem-Fits ys i hs e

module _ {f : Floats} (c : Charsor) where
  new_field-Fits :
      (msg : Message f) (proto : ProtoField f) {ps : FieldProperties f}
      → BitCountFits proto.bit_count
      → new_field c true msg proto ≡ ok ps
      → MetadataFits ps.metadata
  unfolding new_field
  new_field-Fits msg proto {ps} h e =
      let (var_type, _, e1) =
        >>=-eq-ok (ok_or field_not_found (bind_option proto.var_type_sym (resolve_sym msg))) _ e in
      let (name, _, e2) =
        >>=-eq-ok (ok_or field_not_found (bind_option proto.var_name_sym (resolve_sym msg))) _ e1 in
      let (m, made, e3) = >>=-eq-ok (get_field_metadata true c _ var_type) _ e2 in
      let fits = get_field_metadata-Fits c _ var_type m h made in subst (MadeFits m) e3 fits
    where
      MadeFits : FieldMetadata f → Outcome FieldMetadataError (FieldProperties f) → Type 0
      MadeFits m (ok x) = MetadataFits x.metadata
      MadeFits m other = Unit {0}

  abbrev FieldMapFits : FieldMap f → Type 0
  FieldMapFits fields =
      (i : ℤ) (x : FlattenedSerializerField f) → lookup i fields ≡ some x → FieldFits x

  in_bounds-some : (o : Option (ProtoField f)) {x : ProtoField f} → in_bounds o ≡ ok x → o ≡ some x
  in_bounds-some none e = absurd (cc)
  in_bounds-some (some y) {x} e = let same : y ≡ x = cc in ap some same

  make_field-Fits :
      (msg : Message f) (map : SerializerMap f) (i : ℤ) {x : FlattenedSerializerField f}
      → ProtosFit msg.fields
      → MapFits map
      → make_field c true msg map i ≡ ok x
      → FieldFits x
  unfolding FieldFits field_serializer
  make_field-Fits msg map i {x} protos h e =
      let (proto, found, e1) = >>=-eq-ok (in_bounds (get_elem? msg.fields (as_usize i))) _ e in
      let (ps, made, e2) =
        >>=-eq-ok (map_err field_metadata_error (new_field c true msg proto)) _ e1 in
      let at = in_bounds-some (get_elem? msg.fields (as_usize i)) found in
      let fits = get_elem-Fits msg.fields (as_usize i) protos at in
      let meta =
        new_field-Fits msg proto fits
          (map_err-eq-ok field_metadata_error (new_field c true msg proto) made) in
      built ps meta e2
    where
      built :
          (ps : FieldProperties f)
          → MetadataFits ps.metadata
          → ◌≡◌ {A = Outcome FlattenedSerializersError (FlattenedSerializerField f)}
              (ok (flattened_field ps (field_serializer map ps)))
              (ok x)
          → FieldFits x
      built ps (fits, d) e =
          let same : flattened_field ps (field_serializer map ps) ≡ x = cc in
          rw (← same) (fits, serializer_by-Fits map ps ps.metadata.special_descriptor h fits d)

  field_at-Fits :
      (msg : Message f) (map : SerializerMap f) (i : ℤ) (fields : FieldMap f)
      (o : Option (FlattenedSerializerField f)) {r : FlattenedSerializerField f × FieldMap f}
      → ProtosFit msg.fields
      → MapFits map
      → FieldMapFits fields
      → lookup i fields ≡ o
      → field_at c true msg map i fields o ≡ ok r
      → FieldFits r.0 × FieldMapFits r.1
  field_at-Fits msg map i fields (some x) {r} protos h k at e =
      let same : ◌≡◌ {A = FlattenedSerializerField f × FieldMap f} (x, fields) r = cc in
      subst (λ (r : FlattenedSerializerField f × FieldMap f). FieldFits r.0 × FieldMapFits r.1) same
        (k i x at, k)
  field_at-Fits msg map i fields none {r} protos h k at e =
      let (x, made, e1) = >>=-eq-ok (make_field c true msg map i) _ e in
      let fits = make_field-Fits msg map i protos h made in added x fits e1
    where
      added :
          (x : FlattenedSerializerField f)
          → FieldFits x
          → ◌≡◌ {A = Outcome FlattenedSerializersError (FlattenedSerializerField f × FieldMap f)}
              (ok (x, insert i x fields))
              (ok r)
          → FieldFits r.0 × FieldMapFits r.1
      added x fits e =
          let same : ◌≡◌ {A = FlattenedSerializerField f × FieldMap f} (x, insert i x fields) r =
            cc in
          subst (λ (r : FlattenedSerializerField f × FieldMap f). FieldFits r.0 × FieldMapFits r.1)
            same (fits, insert-AllValues FieldFits i x fields fits k)

  parse_fields-Fits :
      (msg : Message f) (map : SerializerMap f) (is : List ℤ) (fields : FieldMap f) (xs : Fields f)
      {r : Fields f × FieldMap f}
      → ProtosFit msg.fields
      → MapFits map
      → FieldMapFits fields
      → AllFit xs
      → parse_fields c true msg map is fields xs ≡ ok r
      → AllFit r.0 × FieldMapFits r.1
  unfolding parse_fields
  parse_fields-Fits msg map [] fields xs {r} protos h k all e =
      let same : ◌≡◌ {A = Fields f × FieldMap f} (xs, fields) r = cc in
      subst (λ (r : Fields f × FieldMap f). AllFit r.0 × FieldMapFits r.1) same (all, k)
  parse_fields-Fits msg map (i ∷ is) fields xs protos h k all e =
      let (r, e1, e2) = >>=-eq-ok (field_at c true msg map i fields (lookup i fields)) _ e in
      let (fits, k') = field_at-Fits msg map i fields (lookup i fields) protos h k refl e1 in
      parse_fields-Fits msg map is r.1 (push_field xs r.0) protos h k'
        (push_field-Fits xs r.0 all fits) e2

  parse_serializers-Fits :
      (msg : Message f) (ss : List ProtoSerializer) (fields : FieldMap f) (map : SerializerMap f)
      {map' : SerializerMap f}
      → ProtosFit msg.fields
      → FieldMapFits fields
      → MapFits map
      → parse_serializers c true msg ss fields map ≡ ok map'
      → MapFits map'
  unfolding parse_serializers SerializerFits
  parse_serializers-Fits msg [] fields map {map'} protos k h e =
      let same : map ≡ map' = cc in rw (← same) h
  parse_serializers-Fits msg (s ∷ ss) fields map protos k h e =
      let (name, _, e1) =
        >>=-eq-ok (ok_or symbol_not_found (bind_option s.serializer_name_sym (resolve_sym msg))) _
          e in
      let (r, made, e2) =
        >>=-eq-ok (parse_fields c true msg map s.fields_index fields no_fields) _ e1 in
      let (all, k') =
        parse_fields-Fits msg map s.fields_index fields no_fields protos h k (unfold AllFit in tt)
          made in
      let hash = hash_bytes name in
      parse_serializers-Fits msg ss r.1 (insert hash (flattened_serializer hash r.0) map) protos k'
        (insert-AllValues SerializerFits hash (flattened_serializer hash r.0) map all h) e2

  -- If every bit count in a message is none or not negative, then in a build with overflow checks and
  -- debug assertions the bits of every decoder below every serializer that is parsed from it fit.
  pub parse-SerializerFits :
      (msg : Message f) (map : SerializerMap f) (hash : ℕ) (s : FlattenedSerializer f)
      → ProtosFit msg.fields
      → parse c true msg ≡ ok map
      → by_name_hash map hash ≡ some s
      → SerializerFits s
  unfolding parse by_name_hash
  parse-SerializerFits msg map hash s protos parsed found =
      parse_serializers-Fits msg msg.serializers [] [] protos (λ i x e. absurd (lookup-empty i e))
        (λ i x e. absurd (lookup-empty i e)) parsed hash s found
