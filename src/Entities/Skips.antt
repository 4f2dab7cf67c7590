-- ===== src/Entities/Skips.antt =====
-- `skip_entity_fields` of crates/haste_core/src/entities.rs against `Entity::parse`.
use haste.Prelude.{
  ℕ, zero, suc, ◌+◌, ◌^◌, ◌<◌, ◌≡◌, refl, sym, ap, arith, Bool, true, false, List, [], ◌∷◌,
  if◌then◌else◌,
}
use haste.Outcome.{ok, err, panic, stuck, ◌>>=◌ as bind, >>=-eq-ok as bind-eq-ok, map_err-eq-ok}
use haste.Platform.{Platform, Documented, Positions}
use haste.BitReader.{BitReader, num_bits_left}
use haste.FieldPath.{FieldPath}
use haste.FieldPath.Paths.{read_field_paths}
use haste.Maps.{insert, nat_key}
use haste.FxHash.{add_u64_to_hash}
use haste.FieldValue.{FieldValue}
use haste.FieldDecoder.{FieldDecodeContext, FieldDecoder, decode}
use haste.FieldDecoder.Skips.{IsClean}
use haste.FieldDecoder.SkipBits.{Fits}
use haste.FieldDecoder.BitCounts.{skip_bits-decode_decoder}
use haste.FieldDecoder.Kinds.{Decoded, decode-Runs}
use haste.BitReader.Runs.{Moved}
use haste.FlattenedSerializers.{
  FlattenedSerializerField, FlattenedSerializer, properties, get_child, get_child_of_field,
  is_dynamic_array, is_fixed_array,
}
use haste.Entities.{
  decoder, bit_error, Parse, Step, Parsing, ◌>>=◌, pure, lift, on_bits, on_decoder, found,
  component, descend, descend_from, find_field, descend_to_skip, find_field_to_skip, first_paths,
  parse_field, parse_fields, parse, skip_field, skip_fields, skip_entity_fields,
}

-- The bits of every decoder that a path can reach fit.
abbrev pub DecodersFit : (p : Platform) → FlattenedSerializer p.floats → Type 0
DecodersFit p s =
    (fp : FieldPath) (y : FlattenedSerializerField p.floats) (key : ℕ)
    → find_field {p = p} s fp ≡ ok (y, key)
    → Fits (properties y).metadata.decoder

module _ {p : Platform} where
  pub >>=-eq-ok :
      {A B : Type 0} (m : Parse p A) (k : A → Parse p B) (br : BitReader p) {b : B}
      {br'' : BitReader p}
      → ◌>>=◌ {p = p} m k br ≡ ok (b, br'')
      → (a : A) × (br' : BitReader p) × (m br ≡ ok (a, br')) × (k a br' ≡ ok (b, br''))
  >>=-eq-ok m k br h = let ((a, br'), e, r) = bind-eq-ok (m br) (λ r. k r.0 r.1) h in (a, br', e, r)

  pub lift-eq-ok :
      {A : Type 0} (m : Step p A) (br : BitReader p) {a : A} {br' : BitReader p}
      → lift {p = p} m br ≡ ok (a, br')
      → (m ≡ ok a) × (br ≡ br')
  lift-eq-ok (ok a) br e = (cc, cc)
  lift-eq-ok (err x) br e = absurd (cc)
  lift-eq-ok panic br e = absurd (cc)
  lift-eq-ok stuck br e = absurd (cc)

  pub pure-eq-ok :
      {A : Type 0} (a : A) (br : BitReader p) {b : A} {br' : BitReader p}
      → pure {p = p} a br ≡ ok (b, br')
      → (a ≡ b) × (br ≡ br')
  pure-eq-ok a br e = (cc, cc)

  -- A step down finds the same child.
  pub descend-child :
      (fp : FieldPath) (i : ℕ) (x child : FlattenedSerializerField p.floats) (key key' : ℕ)
      → descend {p = p} fp i x key ≡ ok (child, key')
      → (if is_dynamic_array x
          then found {p = p} (get_child_of_field x 0)
          else bind (component fp i) (λ c. found (get_child_of_field x c)))
        ≡ ok child
  unfolding descend
  descend-child fp i x child key key' h = either (is_dynamic_array x) h
    where
      arrayed :
          ℕ → FlattenedSerializerField p.floats → Step p (FlattenedSerializerField p.floats × ℕ)
      arrayed c y = ok (
        y,
        (if is_fixed_array x
            then add_u64_to_hash key (add_u64_to_hash 0 c)
            else add_u64_to_hash key (properties y).var_name),
      )

      either :
          (b : Bool)
          → (if b
              then bind (found {p = p} (get_child_of_field x 0)) (λ y.
                bind (component fp i) (λ c. ok (y, add_u64_to_hash key (add_u64_to_hash 0 c))))
              else bind (component fp i) (λ c. bind (found (get_child_of_field x c)) (arrayed c)))
            ≡ ok (child, key')
          → (if b
              then found {p = p} (get_child_of_field x 0)
              else bind (component fp i) (λ c. found (get_child_of_field x c)))
            ≡ ok child
      either true e =
          let (y, at, r) = bind-eq-ok (found {p = p} (get_child_of_field x 0)) _ e in
          let (c, _, last) = bind-eq-ok (component {p = p} fp i) _ r in
          let same : y ≡ child = cc in rw (← same) at
      either false e =
          let (c, at, r) = bind-eq-ok (component {p = p} fp i) _ e in
          let (y, at', last) = bind-eq-ok (found {p = p} (get_child_of_field x c)) (arrayed c) r in
          let same : y ≡ child = cc in rw (at, ← same) at'

  descend_from-child :
      (fp : FieldPath) (n i : ℕ) (x : FlattenedSerializerField p.floats) (key : ℕ)
      {y : FlattenedSerializerField p.floats} {key' : ℕ}
      → descend_from {p = p} fp n i x key ≡ ok (y, key')
      → descend_to_skip {p = p} fp n i x ≡ ok y
  unfolding descend_from descend_to_skip
  descend_from-child fp zero i x key {y} h = let same : x ≡ y = cc in rw same refl
  descend_from-child fp (suc n) i x key h =
      let ((child, key1), e, r) = bind-eq-ok (descend {p = p} fp i x key) _ h in
      rw (descend-child fp i x child key key1 e) (descend_from-child fp n (i + 1) child key1 r)

  -- Both loops over the components of a path end at the same field.
  pub find_field-to_skip :
      (s : FlattenedSerializer p.floats) (fp : FieldPath) {y : FlattenedSerializerField p.floats}
      {key : ℕ}
      → find_field {p = p} s fp ≡ ok (y, key)
      → find_field_to_skip {p = p} s fp ≡ ok y
  unfolding find_field find_field_to_skip
  find_field-to_skip s fp h =
      let (c, e, r) = bind-eq-ok (component {p = p} fp 0) _ h in
      let (x, e', r') = bind-eq-ok (found {p = p} (get_child s c)) _ r in
      rw (e, e') (descend_from-child fp fp.last 1 x (properties x).key r')

  -- What a field that was parsed leaves: the context, the serializer, and the bits that it took.
  pub record Field (st st' : Parsing p) (fp : FieldPath) (br br' : BitReader p) : Type 0 where
    pub y : FlattenedSerializerField p.floats
    pub key : ℕ
    pub value : FieldValue p.floats × FieldDecodeContext p.floats
    pub at : find_field {p = p} st.0.serializer fp ≡ ok (y, key)
    pub decoded : decode (properties y).metadata.decoder st.1 br ≡ ok (value, br')
    pub context : st'.1 ≡ value.1
    pub same_serializer : st'.0.serializer ≡ st.0.serializer
    pub same_index : st'.0.index ≡ st.0.index

  pub parse_field-Field :
      (st : Parsing p) (fp : FieldPath) (br : BitReader p) {st' : Parsing p} {br' : BitReader p}
      → parse_field {p = p} st fp br ≡ ok (st', br')
      → Field st st' fp br br'
  unfolding parse_field
  parse_field-Field (entity, ctx) fp br {st'} {br'} h =
      let (r, br1, e, h') = >>=-eq-ok (lift (find_field entity.serializer fp)) _ br h in
      let (at, same) = lift-eq-ok (find_field entity.serializer fp) br e in
      let (v, br2, e', h'') =
        >>=-eq-ok (on_decoder (decode (properties r.0).metadata.decoder ctx)) _ br1 h' in
      let decoded = map_err-eq-ok decoder (decode (properties r.0).metadata.decoder ctx br1) e' in
      let (done, still) = pure-eq-ok _ br2 h'' in built r br1 at same v br2 decoded done still
    where
      built :
          (r : FlattenedSerializerField p.floats × ℕ) (br1 : BitReader p)
          → find_field {p = p} entity.serializer fp ≡ ok r
          → br ≡ br1
          → (v : FieldValue p.floats × FieldDecodeContext p.floats) (br2 : BitReader p)
          → decode (properties r.0).metadata.decoder ctx br1 ≡ ok (v, br2)
          → ◌≡◌ {A = Parsing p} (record entity { fields = insert r.1 v.0 entity.fields }, v.1) st'
          → br2 ≡ br'
          → Field (entity, ctx) st' fp br br'
      built (y, key) br1 at same v br2 decoded done still = record {
        y = y;
        key = key;
        value = v;
        at = at;
        decoded = rw (same, ← still) decoded;
        context = ap (λ (s : Parsing p). s.1) (sym done);
        same_serializer = ap (λ (s : Parsing p). s.0.serializer) (sym done);
        same_index = ap (λ (s : Parsing p). s.0.index) (sym done);
      }

module _ {p : Platform} (d : Documented p) (q : Positions p) where
  -- What the decoder leaves.
  pub Decoded-Moved :
      (dec : FieldDecoder p.floats) (ctx : FieldDecodeContext p.floats) (br : BitReader p)
      {v : FieldValue p.floats × FieldDecodeContext p.floats} {br' : BitReader p}
      → IsClean ctx
      → decode dec ctx br ≡ ok (v, br')
      → Moved (Decoded dec ctx) br (ok (v, br'))
  Decoded-Moved dec ctx br c h = rw h at ((decode-Runs d q dec ctx c).run br)

  skip_field-parse :
      (st : Parsing p) (fp : FieldPath) (br : BitReader p) {st' : Parsing p} {br' : BitReader p}
      → IsClean st.1
      → DecodersFit p st.0.serializer
      → num_bits_left br < 2 ^ 64
      → Field st st' fp br br'
      → skip_field {p = p} st.0.serializer fp br ≡ ok (tt, br')
  unfolding skip_field
  skip_field-parse st fp br c fit room f =
      let (n, at, left) =
        skip_bits-decode_decoder d q (properties f.y).metadata.decoder st.1 br c
          (fit fp f.y f.key f.at) room f.decoded in
      rw (find_field-to_skip st.0.serializer fp f.at, at) refl

  -- Behind the parsing of fields the context and the serializer are as they were, and if their
  -- decoders fit, the skipping of the same fields leaves the same reader.
  pub skip_fields-parse_fields :
      (fps : List FieldPath) (st : Parsing p) (br : BitReader p) {st' : Parsing p}
      {br' : BitReader p}
      → IsClean st.1
      → DecodersFit p st.0.serializer
      → num_bits_left br < 2 ^ 64
      → parse_fields {p = p} fps st br ≡ ok (st', br')
      → skip_fields {p = p} st.0.serializer fps br ≡ ok (tt, br')
  unfolding parse_fields skip_fields
  skip_fields-parse_fields [] st br {st'} {br'} c fit room h =
      let same : br ≡ br' = cc in rw same refl
  skip_fields-parse_fields (fp ∷ fps) st br {st'} {br'} c fit room h =
      let (st1, br1, e, r) = >>=-eq-ok (parse_field st fp) (parse_fields fps) br h in
      let f = parse_field-Field st fp br e in
      let (kind, moved) = Decoded-Moved (properties f.y).metadata.decoder st.1 br c f.decoded in
      let clean : IsClean st1.1 = rw (f.context, kind.1) c in
      let fit' : DecodersFit p st1.0.serializer = rw f.same_serializer fit in
      let rest = skip_fields-parse_fields fps st1 br1 clean fit' (omega (arith, moved.0)) r in
      rw (skip_field-parse st fp br c fit room f) (rw f.same_serializer at rest)

  -- If `Entity::parse` succeeds with an empty buffer, every decoder that a path can reach has bits that
  -- fit, and the bits left behind the paths are a usize, then `skip_entity_fields` with the entity's
  -- serializer leaves the same reader and the same slice of paths.
  pub skip_entity_fields-parse :
      (fps : List FieldPath) (st : Parsing p) (br : BitReader p) {st' : Parsing p}
      {fps' : List FieldPath} {br' : BitReader p}
      → IsClean st.1
      → DecodersFit p st.0.serializer
      → ((r : ℕ × List FieldPath) (br1 : BitReader p)
          → read_field_paths fps br ≡ ok (r, br1)
          → num_bits_left br1 < 2 ^ 64)
      → parse {p = p} fps st br ≡ ok ((st', fps'), br')
      → skip_entity_fields {p = p} st.0.serializer fps br ≡ ok (fps', br')
  unfolding parse skip_entity_fields
  skip_entity_fields-parse fps st br {st'} {fps'} {br'} c fit room h =
      let (r, br1, e, h1) = >>=-eq-ok (on_bits (read_field_paths fps)) _ br h in
      let paths_read = map_err-eq-ok bit_error (read_field_paths fps br) e in
      let (paths, br2, e2, h2) = >>=-eq-ok (lift (first_paths r.0 r.1)) _ br1 h1 in
      let (first, same) = lift-eq-ok (first_paths r.0 r.1) br1 e2 in
      let (st1, br3, e3, h3) = >>=-eq-ok (parse_fields paths st) _ br2 h2 in
      let (done, still) = pure-eq-ok (st1, r.1) br3 h3 in
      built r br1 paths_read (room r br1 paths_read) paths br2 first same st1 br3 e3 done still
    where
      built :
          (r : ℕ × List FieldPath) (br1 : BitReader p)
          → read_field_paths fps br ≡ ok (r, br1)
          → num_bits_left br1 < 2 ^ 64
          → (paths : List FieldPath) (br2 : BitReader p) → first_paths {p = p} r.0 r.1 ≡ ok paths
          → br1 ≡ br2
          → (st1 : Parsing p) (br3 : BitReader p)
          → parse_fields {p = p} paths st br2 ≡ ok (st1, br3)
          → ◌≡◌ {A = Parsing p × List FieldPath} (st1, r.1) (st', fps')
          → br3 ≡ br'
          → skip_entity_fields {p = p} st.0.serializer fps br ≡ ok (fps', br')
      built (n, after) br1 e room paths br2 first same st1 br3 parsed done still =
          let usize : num_bits_left br2 < 2 ^ 64 = rw (← same) room in
          let skipped = skip_fields-parse_fields paths st br2 c fit usize parsed in
          let slice : after ≡ fps' = ap (λ (x : Parsing p × List FieldPath). x.1) done in
          rw (e, first, same, skipped, slice, still) refl
