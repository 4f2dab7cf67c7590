-- ===== src/Entities/Settled.antt =====
-- What `Entity::parse` and `skip_entity_fields` of crates/haste_core/src/entities.rs leave, and that
-- they end.
use haste.Prelude.{
  ℕ, zero, suc, ◌+◌, ◌≡◌, refl, ◌∙◌, ap, true, List, [], ◌∷◌, Option, none, some, length, leb,
  get_elem?,
}
use haste.Outcome.{Outcome, ok, err, panic, stuck}
use haste.Settles.{Settles, Any, Settles-bind, Settles-map_err, Settles-weaken, Settles-if}
use haste.Platform.{Platform, Floats, Documented, Positions}
use haste.BitReader.{BitReader}
use haste.BitReader.Keeps.{Post}
use haste.BitReader.Runs.{Moved}
use haste.FieldPath.{FieldPath}
use haste.FieldPath.Paths.{read_field_paths}
use haste.FieldPath.Paths.Valid.{Good}
use haste.FieldPath.Paths.Whole.{read_field_paths-Good}
use haste.FieldValue.{FieldValue}
use haste.FieldDecoder.{FieldDecodeContext, FieldDecoder, decode, skip_bits}
use haste.FieldDecoder.Skips.{IsClean}
use haste.FieldDecoder.SkipEnds.{Ends-skip_bits}
use haste.FieldDecoder.Kinds.{Decoded, decode-Runs}
use haste.FlattenedSerializers.{
  FlattenedSerializerField, FlattenedSerializer, properties, get_child, get_child_of_field,
  is_dynamic_array,
}
use haste.Entities.{
  Entity, EntityParseError, bit_error, decoder, Step, Parsing, lift, on_bits, on_decoder, found,
  component, descend, descend_from, find_field, first_paths, parse_field, parse_fields, parse,
  descend_to_skip, find_field_to_skip, skip_field, skip_fields, skip_entity_fields,
}

-- Behind an entity and the context: what parsing leaves alone.
abbrev pub Kept :
    {f : Floats} → Entity f × FieldDecodeContext f → Entity f × FieldDecodeContext f → Type 0
Kept st st' = (st'.1 ≡ st.1) × (st'.0.index ≡ st.0.index) × (st'.0.serializer ≡ st.0.serializer)

module _ (p : Platform) where
  Settles-found : {A : Type 0} (o : Option A) → Settles Any (found {p = p} o)
  Settles-found none = tt
  Settles-found (some a) = tt

  Settles-component : (fp : FieldPath) (i : ℕ) → Settles Any (component {p = p} fp i)
  Settles-component fp i = at_result (get_elem? fp.components i)
    where
      at_result :
          (o : Option ℕ)
          → Settles {E = EntityParseError p} {A = ℕ} Any (elim o [ none ↦ panic | some c ↦ ok c ])
      at_result none = tt
      at_result (some c) = tt

  Settles-descend :
      (fp : FieldPath) (i : ℕ) (x : FlattenedSerializerField p.floats) (key : ℕ)
      → Settles Any (descend {p = p} fp i x key)
  unfolding descend
  Settles-descend fp i x key =
      Settles-if Any (is_dynamic_array x) _ _
        (Settles-bind Any Any (found (get_child_of_field x 0)) _
          (Settles-found (get_child_of_field x 0))
          (λ child _. Settles-bind Any Any (component fp i) _ (Settles-component fp i) (λ c _. tt)))
        (Settles-bind Any Any (component fp i) _ (Settles-component fp i) (λ c _.
          Settles-bind Any Any (found (get_child_of_field x c)) _
            (Settles-found (get_child_of_field x c)) (λ child _. tt)))

  Settles-descend_from :
      (fp : FieldPath) (n i : ℕ) (x : FlattenedSerializerField p.floats) (key : ℕ)
      → Settles Any (descend_from {p = p} fp n i x key)
  unfolding descend_from
  Settles-descend_from fp zero i x key = tt
  Settles-descend_from fp (suc n) i x key =
      Settles-bind Any Any (descend fp i x key) _ (Settles-descend fp i x key)
        (λ r _. Settles-descend_from fp n (i + 1) r.0 r.1)

  pub Settles-find_field :
      (s : FlattenedSerializer p.floats) (fp : FieldPath) → Settles Any (find_field {p = p} s fp)
  unfolding find_field
  Settles-find_field s fp = Settles-bind Any Any (component fp 0) _ (Settles-component fp 0) (λ c _.
      Settles-bind Any Any (found (get_child s c)) _ (Settles-found (get_child s c))
        (λ x _. Settles-descend_from fp fp.last 1 x (properties x).key))

  pub Settles-lift :
      {A : Type 0} (Q : A → Type 0) (m : Step p A) (br : BitReader p)
      → Settles Q m
      → Settles (λ (r : A × BitReader p). Q r.0) (lift {p = p} m br)
  Settles-lift Q (ok a) br h = h
  Settles-lift Q (err e) br h = tt
  Settles-lift Q panic br h = tt
  Settles-lift Q stuck br h = h

  pub Settles-first_paths : (n : ℕ) (fps : List FieldPath) → Settles Any (first_paths {p = p} n fps)
  Settles-first_paths n fps = Settles-if Any (leb n (length fps)) _ panic tt tt

module _ {p : Platform} (d : Documented p) (q : Positions p) where
  Settles-decode :
      (dec : FieldDecoder p.floats) (ctx : FieldDecodeContext p.floats) (br : BitReader p)
      → IsClean ctx
      → Settles
          (λ (r : (FieldValue p.floats × FieldDecodeContext p.floats) × BitReader p). r.0.1 ≡ ctx)
          (decode dec ctx br)
  Settles-decode dec ctx br c = onto (decode dec ctx br) ((decode-Runs d q dec ctx c).run br)
    where
      onto :
          (r : Outcome p.Error ((FieldValue p.floats × FieldDecodeContext p.floats) × BitReader p))
          → Moved (Decoded dec ctx) br r
          → Settles
              (λ (r : (FieldValue p.floats × FieldDecodeContext p.floats) × BitReader p).
                r.0.1 ≡ ctx)
              r
      onto (ok (v, br')) (x, y) = x.1
      onto (err e) h = tt
      onto panic h = tt
      onto stuck h = h

  parse_field-Kept :
      (st : Parsing p) (fp : FieldPath) (br : BitReader p)
      → IsClean st.1
      → Settles (λ (r : Parsing p × BitReader p). Kept st r.0) (parse_field {p = p} st fp br)
  unfolding parse_field
  parse_field-Kept (entity, ctx) fp br c =
      Settles-bind Any _ (lift (find_field entity.serializer fp) br) _
        (Settles-lift p Any (find_field entity.serializer fp) br
          (Settles-find_field p entity.serializer fp))
        (λ r _.
          Settles-bind
            (λ (s : (FieldValue p.floats × FieldDecodeContext p.floats) × BitReader p). s.0.1 ≡ ctx)
            _ (on_decoder (decode (properties r.0.0).metadata.decoder ctx) r.1) _
            (Settles-map_err _ decoder (decode (properties r.0.0).metadata.decoder ctx r.1)
              (Settles-decode (properties r.0.0).metadata.decoder ctx r.1 c))
            (λ v e. (e, refl, refl)))

  pub parse_fields-Kept :
      (fps : List FieldPath) (st : Parsing p) (br : BitReader p)
      → IsClean st.1
      → Settles (λ (r : Parsing p × BitReader p). Kept st r.0) (parse_fields {p = p} fps st br)
  unfolding parse_fields
  parse_fields-Kept [] st br c = (refl, refl, refl)
  parse_fields-Kept (fp ∷ fps) st br c =
      Settles-bind (λ (r : Parsing p × BitReader p). Kept st r.0) _ (parse_field st fp br) _
        (parse_field-Kept st fp br c)
        (λ r (x, y, z).
          Settles-weaken _ _ (parse_fields fps r.0 r.1)
            (parse_fields-Kept fps r.0 r.1
              (ap (λ (k : FieldDecodeContext p.floats). k.string_buf) x ∙ c))
            (λ s (x', y', z'). (x' ∙ x, y' ∙ y, z' ∙ z)))

module _ {p : Platform} (d : Documented p) (q : Positions p)
    (checks : p.overflow_checks ≡ true) where
  pub paths-Settles :
      (fps : List FieldPath) (br : BitReader p)
      → Settles
          (λ (r : (ℕ × List FieldPath) × BitReader p). Good fps r.0)
          (on_bits (read_field_paths fps) br)
  paths-Settles fps br =
      Settles-map_err _ bit_error (read_field_paths fps br)
        (onto (read_field_paths fps br) (read_field_paths-Good d checks fps br))
    where
      onto :
          (r : Outcome p.Error ((ℕ × List FieldPath) × BitReader p))
          → Post (Good fps) r
          → Settles (λ (r : (ℕ × List FieldPath) × BitReader p). Good fps r.0) r
      onto (ok (v, br')) h = h
      onto (err e) h = tt
      onto panic h = tt
      onto stuck h = h

  -- In a build with overflow checks `Entity::parse` ends on every input, if the buffer is empty. If it
  -- succeeds, the context of the decoders, the index and the serializer of the entity are as they
  -- were, and the slice of paths has kept its length.
  pub parse-Kept :
      (fps : List FieldPath) (st : Parsing p) (br : BitReader p)
      → IsClean st.1
      → Settles
          (λ (r : (Parsing p × List FieldPath) × BitReader p).
            Kept st r.0.0 × (length r.0.1 ≡ length fps))
          (parse {p = p} fps st br)
  unfolding parse
  parse-Kept fps st br c =
      Settles-bind (λ (r : (ℕ × List FieldPath) × BitReader p). Good fps r.0) _
        (on_bits (read_field_paths fps) br) _ (paths-Settles fps br)
        (λ r good.
          Settles-bind Any _ (lift (first_paths r.0.0 r.0.1) r.1) _
            (Settles-lift p Any (first_paths r.0.0 r.0.1) r.1 (Settles-first_paths p r.0.0 r.0.1))
            (λ paths _.
              Settles-bind (λ (s : Parsing p × BitReader p). Kept st s.0) _
                (parse_fields paths.0 st paths.1) _ (parse_fields-Kept d q paths.0 st paths.1 c)
                (λ s kept. (kept, good.size))))

  Settles-descend_to_skip :
      (fp : FieldPath) (n i : ℕ) (x : FlattenedSerializerField p.floats)
      → Settles Any (descend_to_skip {p = p} fp n i x)
  unfolding descend_to_skip
  Settles-descend_to_skip fp zero i x = tt
  Settles-descend_to_skip fp (suc n) i x =
      Settles-bind Any Any _ (descend_to_skip fp n (i + 1))
        (Settles-if Any (is_dynamic_array x) (found {p = p} (get_child_of_field x 0)) _
          (Settles-found p (get_child_of_field x 0))
          (Settles-bind Any Any (component {p = p} fp i) _ (Settles-component p fp i)
            (λ c _. Settles-found p (get_child_of_field x c))))
        (λ y _. Settles-descend_to_skip fp n (i + 1) y)

  Settles-find_field_to_skip :
      (s : FlattenedSerializer p.floats) (fp : FieldPath)
      → Settles Any (find_field_to_skip {p = p} s fp)
  unfolding find_field_to_skip
  Settles-find_field_to_skip s fp =
      Settles-bind Any Any (component {p = p} fp 0) _ (Settles-component p fp 0) (λ c _.
        Settles-bind Any Any (found {p = p} (get_child s c)) _ (Settles-found p (get_child s c))
          (λ x _. Settles-descend_to_skip fp fp.last 1 x))

  Settles-skip_fields :
      (s : FlattenedSerializer p.floats) (fps : List FieldPath) (br : BitReader p)
      → Settles Any (skip_fields {p = p} s fps br)
  unfolding skip_fields skip_field
  Settles-skip_fields s [] br = tt
  Settles-skip_fields s (fp ∷ fps) br =
      Settles-bind Any Any (skip_field s fp br) _
        (Settles-bind Any Any (lift (find_field_to_skip s fp) br) _
          (Settles-lift p Any (find_field_to_skip s fp) br (Settles-find_field_to_skip s fp))
          (λ r _.
            Settles-bind Any Any (on_decoder (skip_bits (properties r.0).metadata.decoder) r.1) _
              (Settles-map_err Any decoder (skip_bits (properties r.0).metadata.decoder r.1)
                (Ends-skip_bits d q (properties r.0).metadata.decoder r.1))
              (λ n _. tt)))
        (λ r _. Settles-skip_fields s fps r.1)

  -- In a build with overflow checks `skip_entity_fields` ends on every input, and the slice of paths
  -- keeps its length.
  pub skip_entity_fields-Settles :
      (s : FlattenedSerializer p.floats) (fps : List FieldPath) (br : BitReader p)
      → Settles
          (λ (r : List FieldPath × BitReader p). length r.0 ≡ length fps)
          (skip_entity_fields {p = p} s fps br)
  unfolding skip_entity_fields
  skip_entity_fields-Settles s fps br =
      Settles-bind (λ (r : (ℕ × List FieldPath) × BitReader p). Good fps r.0) _
        (on_bits (read_field_paths fps) br) _ (paths-Settles fps br)
        (λ r good.
          Settles-bind Any _ (lift (first_paths r.0.0 r.0.1) r.1) _
            (Settles-lift p Any (first_paths r.0.0 r.0.1) r.1 (Settles-first_paths p r.0.0 r.0.1))
            (λ paths _.
              Settles-bind Any _ (skip_fields s paths.0 paths.1) _
                (Settles-skip_fields s paths.0 paths.1) (λ u _. good.size)))
