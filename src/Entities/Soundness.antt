-- ===== src/Entities/Soundness.antt =====
-- What the handlers of `EntityContainer` of crates/haste_core/src/entities.rs keep.
use haste.Prelude.{
  ℕ, ◌^◌, ltb, ◌≡◌, refl, ◌∙◌, Bool, true, false, List, [], ◌∷◌, Option, none, some, length,
  if◌then◌else◌,
}
use haste.Prelude.Int.{ℤ}
use haste.Outcome.{ok, err, Result, success, failure}
use haste.Settles.{Settles, Any, Settles-bind, Settles-map_err, Settles-weaken, Settles-if}
use haste.Platform.{Platform, Documented, Positions}
use haste.BitReader.{BitReader, new as new_reader, is_overflowed, read_ubit64}
use haste.BitReader.Runs.{Runs-read_ubit64}
use haste.FieldDecoder.SkipEnds.{Ends-Runs}
use haste.Maps.{lookup, insert, int_key}
use haste.FieldPath.{FieldPath}
use haste.FieldDecoder.Skips.{IsClean}
use haste.FlattenedSerializers.{FlattenedSerializer, serializer_name, by_name_hash}
use haste.Entities.{
  Entity, Parsing, EntityParseError, bit_error, ◌>>=◌, pure, lift, on_bits, parse,
  skip_entity_fields,
}
use haste.Entities.Copies.{handle_create-eq}
use haste.Entities.Settled.{parse-Kept, skip_entity_fields-Settles, Settles-lift}
use haste.Entities.Container.{
  Known, State, read_class, create_entity, baseline_entity, parse_baseline, handle_create,
  handle_create_with_filter, skip_create, handle_update, update_known, update_skipped,
  from_baseline, baseline_by_id, check_overflow, class_by_id, try_into_i32, or_malformed,
  unchecked_serial, unchecked_unknown,
}
use haste.Entities.Events.{
  create, create_with_filter, update, delete, leave, clear_all, Event, run, run_all, Sound,
  Indexed-insert, Indexed-remove, Indexed-empty, IsClean-again,
}

module _ {p : Platform} (d : Documented p) (q : Positions p)
    (checks : p.overflow_checks ≡ true) where
  -- Behind a parse of the entity `e`.
  abbrev Parsed : ℤ → (Parsing p × List FieldPath) × BitReader p → Type 0
  Parsed index ((st, fps), br) = (st.0.index ≡ index) × IsClean st.1 × (length fps ≡ 4096)

  parse-Parsed :
      (fps : List FieldPath) (st : Parsing p) (br : BitReader p)
      → IsClean st.1
      → length fps ≡ 4096
      → Settles (Parsed st.0.index) (parse {p = p} fps st br)
  parse-Parsed fps st br c size =
      Settles-weaken _ _ (parse fps st br) (parse-Kept d q checks fps st br c)
        (λ (((st', fps'), br') : _) (kept, same). (kept.1, IsClean-again kept.0 c, same ∙ size))

  -- Behind a handler of which only the state is asked.
  abbrev pub SoundBehind : {A : Type 0} → (A × State p) × BitReader p → Type 0
  SoundBehind r = Sound r.0.1

  entity-Sound :
      (index : ℤ) (st : State p) (br : BitReader p) (entity : Entity p.floats)
      → Sound st
      → entity.index ≡ index
      → Settles
          (λ (r : (Parsing p × List FieldPath) × BitReader p). Sound (
            record st.0 { entities = insert index r.0.0.0 st.0.entities; field_paths = r.0.1 },
            r.0.0.1,
          ))
          (parse {p = p} st.0.field_paths (entity, st.1) br)
  entity-Sound index (self, ctx) br entity s at =
      Settles-weaken _ _ (parse self.field_paths (entity, ctx) br)
        (parse-Parsed self.field_paths (entity, ctx) br s.clean s.paths)
        (λ r (same, clean, size). record {
          indexed = Indexed-insert index r.0.0.0 self.entities (same ∙ at) s.indexed;
          clean = clean;
          paths = size;
        })

  known-Sound :
      (index : ℤ) (st : State p) (br : BitReader p) (o : Option (Entity p.floats))
      → Sound st
      → lookup index st.0.entities ≡ o
      → Settles SoundBehind (update_known {p = p} index st o br)
  known-Sound index st br none s e = s
  known-Sound index (self, ctx) br (some entity) s e =
      Settles-bind _ _ (parse self.field_paths (entity, ctx) br) _
        (entity-Sound index (self, ctx) br entity s (s.indexed index entity e)) (λ r sound. sound)

  skipped-Sound :
      (index : ℤ) (st : State p) (br : BitReader p) (o : Option (FlattenedSerializer p.floats))
      → Sound st
      → Settles SoundBehind (update_skipped {p = p} index st o br)
  skipped-Sound index (self, ctx) br (some serializer) s =
      Settles-bind _ _ (skip_entity_fields serializer self.field_paths br) _
        (skip_entity_fields-Settles d q checks serializer self.field_paths br)
        (λ r size. record { indexed = s.indexed; clean = s.clean; paths = size ∙ s.paths })
  skipped-Sound index st br none s = known-Sound index st br (lookup index st.0.entities) s refl

  pub handle_update-Sound :
      (index : ℤ) (st : State p) (br : BitReader p)
      → Sound st
      → Settles SoundBehind (handle_update {p = p} index st br)
  unfolding handle_update
  handle_update-Sound index st br s =
      skipped-Sound index st br (lookup index st.0.skipped_serializers) s

  check_overflow-Settles : (br : BitReader p) → Settles Any (check_overflow br)
  check_overflow-Settles br = either (is_overflowed br).0
    where
      either :
          (r : Result p.Error (Unit {0}))
          → Settles {E = EntityParseError p} {A = Unit {0}} Any
              (elim r [ success u ↦ ok u | failure e ↦ err (bit_error e) ])
      either (success u) = tt
      either (failure e) = tt

  -- An entity of the index, and a sound state.
  abbrev Based : ℤ → Entity p.floats × State p → Type 0
  Based index b = (b.0.index ≡ index) × Sound b.1

  from_baseline-Based :
      (index : ℤ) (known : Known p.floats) (class_id : ℤ) (s : FlattenedSerializer p.floats)
      (st : State p) (o : Option (Entity p.floats))
      → Sound st
      → Settles (Based index) (from_baseline {p = p} index known class_id s st o)
  unfolding parse_baseline
  from_baseline-Based index known class_id s st (some entity) sound = (refl, sound)
  from_baseline-Based index known class_id s (self, ctx) none sound =
      Settles-bind
        (λ (r : Parsing p × List FieldPath).
          (r.0.0.index ≡ index) × IsClean r.0.1 × (length r.1 ≡ 4096))
        (Based index) (parse_baseline index known.instance_baseline s class_id self.field_paths ctx)
        _
        (Settles-bind (Parsed index) _
          (parse self.field_paths (fresh, ctx)
            (new_reader (baseline_by_id known.instance_baseline class_id)))
          _ (parse-Parsed self.field_paths (fresh, ctx) _ sound.clean sound.paths)
          (λ r parsed.
            Settles-bind Any _ (check_overflow r.1) _ (check_overflow-Settles r.1) (λ u _. parsed)))
        (λ r (at, clean, size).
          (at, record { indexed = sound.indexed; clean = clean; paths = size }))
    where
      fresh : Entity p.floats
      fresh = record { index = index; fields = []; serializer = s }

  create_entity-Sound :
      (index : ℤ) (known : Known p.floats) (class_id : ℤ) (s : FlattenedSerializer p.floats)
      (st : State p) (br : BitReader p)
      → Sound st
      → Settles
          (λ (r : State p × BitReader p). Sound r.0)
          (create_entity {p = p} index known class_id s st br)
  unfolding create_entity baseline_entity
  create_entity-Sound index known class_id s st br sound =
      Settles-bind (λ (b : (Entity p.floats × State p) × BitReader p). Based index b.0) _
        (lift (baseline_entity index known class_id s st) br) _
        (Settles-lift p (Based index) (baseline_entity index known class_id s st) br (
          from_baseline-Based index known class_id s st (lookup class_id st.0.baseline_entities)
            sound))
        (λ b (at, sound').
          Settles-bind _ _ (parse b.0.1.0.field_paths (b.0.0, b.0.1.1) b.1) _
            (entity-Sound index b.0.1 b.1 b.0.0 sound' at) (λ r made. made))

  skip_create-Sound :
      (index : ℤ) (s : FlattenedSerializer p.floats) (st : State p) (br : BitReader p)
      → Sound st
      → Settles (λ (r : State p × BitReader p). Sound r.0) (skip_create {p = p} index s st br)
  unfolding skip_create
  skip_create-Sound index s (self, ctx) br sound =
      Settles-bind _ _ (skip_entity_fields s self.field_paths br) _
        (skip_entity_fields-Settles d q checks s self.field_paths br)
        (λ r size. record {
          indexed = sound.indexed;
          clean = sound.clean;
          paths = size ∙ sound.paths;
        })

  read_class-Settles :
      (known : Known p.floats) (br : BitReader p) → Settles Any (read_class {p = p} known br)
  unfolding read_class
  read_class-Settles known br =
      Settles-bind Any Any (on_bits (read_ubit64 known.entity_classes.bits) br) _
        (Settles-map_err Any bit_error (read_ubit64 known.entity_classes.bits br) (
          Ends-Runs (read_ubit64 known.entity_classes.bits)
            (Runs-read_ubit64 q known.entity_classes.bits) br))
        (λ v _.
          Settles-bind Any Any (lift (try_into_i32 v.0) v.1) _
            (Settles-lift p Any (try_into_i32 v.0) v.1
              (Settles-if Any (ltb v.0 (2 ^ 31)) _ _ tt tt))
            (λ c _. Settles-bind Any Any (unchecked_serial c.1) _ (serial-Settles c.1) (λ a _.
              Settles-bind Any Any (unchecked_unknown a.1) _ (unknown-Settles a.1) (λ b _.
                Settles-bind Any Any
                  (lift (or_malformed (class_by_id known.entity_classes c.0)) b.1) _
                  (looked_up (class_by_id known.entity_classes c.0) b.1)
                  (λ h _.
                    Settles-bind Any Any
                      (lift (or_malformed (by_name_hash known.serializers h.0)) h.1) _
                      (looked_up (by_name_hash known.serializers h.0) h.1) (λ s _. tt))))))
    where
      serial-Settles : (br : BitReader p) → Settles Any (unchecked_serial {p = p} br)
      serial-Settles br = either (p.read_ubit64 17 br.inner)
        where
          either :
              (r : Result p.Error (ℕ × p.State))
              → Settles {E = EntityParseError p} {A = Unit {0} × BitReader p} Any (elim r [
                | success (v, s) ↦ ok (tt, record br { inner = s })
                | failure e ↦ ok (tt, record br { inner = p.after_failed_ubit64 17 br.inner })
              ])
          either (success (v, s)) = tt
          either (failure e) = tt

      unknown-Settles : (br : BitReader p) → Settles Any (unchecked_unknown {p = p} br)
      unknown-Settles br = either (p.read_uvarint32 br.inner)
        where
          either :
              (r : Result p.Error (ℕ × p.State))
              → Settles {E = EntityParseError p} {A = Unit {0} × BitReader p} Any (elim r [
                | success (v, s) ↦ ok (tt, record br { inner = s })
                | failure e ↦ ok (tt, record br { inner = p.after_failed_uvarint32 br.inner })
              ])
          either (success (v, s)) = tt
          either (failure e) = tt

      looked_up :
          {A : Type 0} (o : Option A) (br : BitReader p)
          → Settles Any (lift (or_malformed {p = p} o) br)
      looked_up none br = tt
      looked_up (some a) br = tt

  filtered :
      (index : ℤ) (known : Known p.floats) (track : ℕ → Bool) (st : State p)
      (c : ℤ × FlattenedSerializer p.floats) (br : BitReader p)
      → Sound st
      → (tracked : Bool)
      → Settles (SoundBehind {A = Option ℤ}) (
          (if tracked
              then (create_entity {p = p} index known c.0 c.1 st >>= λ st'. pure (some index, st'))
              else (skip_create index c.1 st >>= λ st'. pure (none, st')))
            br)
  filtered index known track st c br s true =
      Settles-bind _ _ (create_entity index known c.0 c.1 st br) _
        (create_entity-Sound index known c.0 c.1 st br s) (λ r sound. sound)
  filtered index known track st c br s false =
      Settles-bind _ _ (skip_create index c.1 st br) _ (skip_create-Sound index c.1 st br s)
        (λ r sound. sound)

  pub handle_create_with_filter-Sound :
      (index : ℤ) (known : Known p.floats) (track : ℕ → Bool) (st : State p) (br : BitReader p)
      → Sound st
      → Settles SoundBehind (handle_create_with_filter {p = p} index known track st br)
  unfolding handle_create_with_filter
  handle_create_with_filter-Sound index known track st br s =
      Settles-bind Any _ (read_class known br) _ (read_class-Settles known br)
        (λ c _. filtered index known track st c.0 c.1 s (track (serializer_name c.0.1)))

  handle_create-Sound :
      (index : ℤ) (known : Known p.floats) (st : State p) (br : BitReader p)
      → Sound st
      → Settles SoundBehind (handle_create {p = p} index known st br)
  handle_create-Sound index known st br s = rw (handle_create-eq index known st br) (
      Settles-bind Any _ (read_class known br) _ (read_class-Settles known br) (λ c _.
        Settles-bind _ _ (create_entity index known c.0.0 c.0.1 st c.1) _
          (create_entity-Sound index known c.0.0 c.0.1 st c.1 s) (λ r sound. sound)))

  run-Sound :
      (e : Event p.floats) (st : State p) (br : BitReader p)
      → Sound st
      → Settles (λ (r : State p × BitReader p). Sound r.0) (run {p = p} e st br)
  unfolding run handle_create_with_filter
  run-Sound (create index known) st br s =
      Settles-bind SoundBehind _ (handle_create index known st br) _
        (handle_create-Sound index known st br s) (λ r sound. sound)
  run-Sound (create_with_filter index known track) st br s =
      Settles-bind SoundBehind _ (handle_create_with_filter index known track st br) _
        (handle_create_with_filter-Sound index known track st br s) (λ r sound. sound)
  run-Sound (update index) st br s =
      Settles-bind SoundBehind _ (handle_update index st br) _ (handle_update-Sound index st br s)
        (λ r sound. sound)
  run-Sound (delete index) (self, ctx) br s = record {
    indexed = Indexed-remove index self.entities s.indexed;
    clean = s.clean;
    paths = s.paths;
  }
  run-Sound (leave index) (self, ctx) br s = record {
    indexed = Indexed-remove index self.entities s.indexed;
    clean = s.clean;
    paths = s.paths;
  }
  run-Sound clear_all (self, ctx) br s = record {
    indexed = Indexed-empty;
    clean = s.clean;
    paths = s.paths;
  }

  -- In a build with overflow checks any sequence of creations, updates, deletions, leavings and
  -- clearings ends from a sound state, on every input. If it succeeds, every entity is kept at its own
  -- index, the buffer of the decoders is empty, and the slice has its 4096 paths.
  pub run_all-Sound :
      (es : List (Event p.floats)) (st : State p) (br : BitReader p)
      → Sound st
      → Settles (λ (r : State p × BitReader p). Sound r.0) (run_all {p = p} es st br)
  unfolding run_all
  run_all-Sound [] st br s = s
  run_all-Sound (e ∷ es) st br s =
      Settles-bind _ _ (run e st br) _ (run-Sound e st br s)
        (λ r sound. run_all-Sound es r.0 r.1 sound)
