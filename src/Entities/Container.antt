-- ===== src/Entities/Container.antt =====
-- `EntityContainer` of crates/haste_core/src/entities.rs, and what it looks up: `EntityClasses` of
-- crates/haste_core/src/entityclasses.rs and `InstanceBaseline::by_id` of
-- crates/haste_core/src/instancebaseline.rs.
use haste.Prelude.{
  ℕ, zero, suc, ◌^◌, Bool, true, false, List, [], ◌∷◌, Option, none, some, ltb, if◌then◌else◌,
  get_elem?, map, length,
}
use haste.Prelude.Int.{ℤ, pos}
use haste.Outcome.{ok, err, success, failure, ◌>>=◌ as bind}
use haste.Platform.{Platform, Floats}
use haste.BitReader.{BitReader, read_ubit64, is_overflowed, new as new_reader}
use haste.Maps.{Map, lookup, insert, remove, nat_key, int_key}
use haste.FxHash.{hash_bytes}
use haste.FieldPath.{FieldPath, default}
use haste.FieldMetadata.{as_usize}
use haste.FieldDecoder.{FieldDecodeContext}
use haste.FlattenedSerializers.{FlattenedSerializer, SerializerMap, serializer_name, by_name_hash}
use haste.Entities.{
  Entity, Parse, Step, Parsing, bit_error, try_from_int, ◌>>=◌, pure, lift, on_bits, parse,
  skip_entity_fields,
}

-- A `ClassInfo` is its hash; `classes` is the length of the list.
pub record EntityClasses : Type 0 where
  pub classes : ℕ
  pub bits : ℕ
  pub class_infos : List ℕ

-- `parse`, of the network names; `log2_ceil` is `(n as f32).log2().ceil() as usize`.
unfoldable pub parse_classes : (ℕ → ℕ) → List (List ℕ) → EntityClasses
parse_classes log2_ceil names = record {
  classes = length names;
  bits = log2_ceil (length names);
  class_infos = map hash_bytes names;
}

unfoldable pub class_by_id : EntityClasses → ℤ → Option ℕ
class_by_id classes class_id = get_elem? classes.class_infos (as_usize class_id)

-- The bytes of each class, if it has any by now.
abbrev pub InstanceBaseline : Type 0
InstanceBaseline = List (Option (List ℕ))

abbrev or_empty : Option (Option (List ℕ)) → List ℕ
or_empty (some (some bytes)) = bytes
or_empty other = []

unfoldable pub baseline_by_id : InstanceBaseline → ℤ → List ℕ
baseline_by_id baselines class_id = or_empty (get_elem? baselines (as_usize class_id))

pub record EntityContainer (f : Floats) : Type 0 where
  pub entities : Map ℤ (Entity f)
  pub baseline_entities : Map ℤ (Entity f)
  pub skipped_serializers : Map ℤ (FlattenedSerializer f)
  pub field_paths : List FieldPath

abbrev pub default_paths : ℕ → List FieldPath
default_paths zero = []
default_paths (suc n) = default ∷ default_paths n

abbrev pub new_container : (f : Floats) → EntityContainer f
new_container f = record {
  entities = [];
  baseline_entities = [];
  skipped_serializers = [];
  field_paths = default_paths 4096;
}

-- What the handlers are given besides the reader.
pub record Known (f : Floats) : Type 0 where
  pub entity_classes : EntityClasses
  pub instance_baseline : InstanceBaseline
  pub serializers : SerializerMap f

module _ (p : Platform) where
  -- What they change besides the reader.
  abbrev pub State : Type 0
  State = EntityContainer p.floats × FieldDecodeContext p.floats

module _ {p : Platform} where
  -- `try_into` of a u64 to i32.
  abbrev pub try_into_i32 : ℕ → Step p ℤ
  try_into_i32 v = if ltb v (2 ^ 31) then ok (pos v) else err try_from_int

  -- `.ok_or(BitError::MalformedVarint)?`
  abbrev pub or_malformed : {A : Type 0} → Option A → Step p A
  or_malformed none = err (bit_error p.malformed_varint)
  or_malformed (some a) = ok a

  -- A read whose result is not looked at, not even for an error.
  abbrev pub unchecked_serial : Parse p (Unit {0})
  unchecked_serial br = elim (p.read_ubit64 17 br.inner) [
    | success (v, s) ↦ ok (tt, record br { inner = s })
    | failure e ↦ ok (tt, record br { inner = p.after_failed_ubit64 17 br.inner })
  ]

  abbrev pub unchecked_unknown : Parse p (Unit {0})
  unchecked_unknown br = elim (p.read_uvarint32 br.inner) [
    | success (v, s) ↦ ok (tt, record br { inner = s })
    | failure e ↦ ok (tt, record br { inner = p.after_failed_uvarint32 br.inner })
  ]

  -- The class and the serializer of an entity that is created, in `handle_create_with_filter`.
  unfoldable pub read_class : Known p.floats → Parse p (ℤ × FlattenedSerializer p.floats)
  read_class known = on_bits (read_ubit64 known.entity_classes.bits) >>= λ v.
      lift (try_into_i32 v) >>= λ class_id. unchecked_serial >>= λ serial.
      unchecked_unknown >>= λ unknown.
      lift (or_malformed (class_by_id known.entity_classes class_id)) >>= λ network_name_hash.
      lift (or_malformed (by_name_hash known.serializers network_name_hash)) >>= λ serializer.
      pure (class_id, serializer)

  -- `baseline_br.is_overflowed()?`
  abbrev pub check_overflow : BitReader p → Step p (Unit {0})
  check_overflow br = elim (is_overflowed br).0 [ success u ↦ ok u | failure e ↦ err (bit_error e) ]

  -- An entity with no fields, parsed from the bytes of the baseline by a reader of its own.
  unfoldable pub parse_baseline :
      ℤ
      → InstanceBaseline
      → FlattenedSerializer p.floats
      → ℤ
      → List FieldPath
      → FieldDecodeContext p.floats
      → Step p (Parsing p × List FieldPath)
  parse_baseline index baseline serializer class_id fps ctx =
      bind
        (parse fps (record { index = index; fields = []; serializer = serializer }, ctx)
          (new_reader (baseline_by_id baseline class_id)))
        (λ r. bind (check_overflow r.1) (λ u. ok r.0))

  -- The match on the baselines: a copy with the new index, or a new one, which is kept.
  abbrev pub from_baseline :
      ℤ
      → Known p.floats
      → ℤ
      → FlattenedSerializer p.floats
      → State p
      → Option (Entity p.floats)
      → Step p (Entity p.floats × State p)
  from_baseline index known class_id serializer st (some entity) =
      ok (record entity { index = index }, st)
  from_baseline index known class_id serializer (self, ctx) none =
      bind (parse_baseline index known.instance_baseline serializer class_id self.field_paths ctx)
        (λ r. ok (
          r.0.0,
          (
            record self {
              baseline_entities = insert class_id r.0.0 self.baseline_entities;
              field_paths = r.1;
            },
            r.0.1,
          ),
        ))

  unfoldable pub baseline_entity :
      ℤ
      → Known p.floats
      → ℤ
      → FlattenedSerializer p.floats
      → State p
      → Step p (Entity p.floats × State p)
  unfolding parse_baseline
  baseline_entity index known class_id serializer st =
      from_baseline index known class_id serializer st (lookup class_id st.0.baseline_entities)

  -- Behind the class: the entity of the baseline, with the fields that are read.
  unfoldable pub create_entity :
      ℤ → Known p.floats → ℤ → FlattenedSerializer p.floats → State p → Parse p (State p)
  unfolding baseline_entity
  create_entity index known class_id serializer st =
      lift (baseline_entity index known class_id serializer st) >>= λ b.
      parse b.1.0.field_paths (b.0, b.1.1) >>= λ r.
      pure (record b.1.0 { entities = insert index r.0.0 b.1.0.entities; field_paths = r.1 }, r.0.1)

  -- The match on the baselines in `handle_create`, which has a text of its own.
  unfoldable pub baseline_of_create :
      ℤ
      → Known p.floats
      → ℤ
      → FlattenedSerializer p.floats
      → State p
      → Step p (Entity p.floats × State p)
  baseline_of_create index known class_id serializer st =
      elim (lookup class_id st.0.baseline_entities) [
        | some entity ↦ ok (record entity { index = index }, st)
        | none ↦
            bind
              (parse st.0.field_paths
                (record { index = index; fields = []; serializer = serializer }, st.1)
                (new_reader (baseline_by_id known.instance_baseline class_id)))
              (λ r. bind (check_overflow r.1) (λ u.
                let baselines = insert class_id r.0.0.0 st.0.baseline_entities in
                ok (
                  r.0.0.0,
                  (record st.0 { baseline_entities = baselines; field_paths = r.0.1 }, r.0.0.1),
                )))
      ]

  unfoldable pub handle_create : ℤ → Known p.floats → State p → Parse p (ℤ × State p)
  unfolding baseline_of_create
  handle_create index known st = on_bits (read_ubit64 known.entity_classes.bits) >>= λ v.
      lift (try_into_i32 v) >>= λ class_id. unchecked_serial >>= λ serial.
      unchecked_unknown >>= λ unknown.
      lift (or_malformed (class_by_id known.entity_classes class_id)) >>= λ network_name_hash.
      lift (or_malformed (by_name_hash known.serializers network_name_hash)) >>= λ serializer.
      lift (baseline_of_create index known class_id serializer st) >>= λ b.
      parse b.1.0.field_paths (b.0, b.1.1) >>= λ r. pure (
        index,
        (record b.1.0 { entities = insert index r.0.0 b.1.0.entities; field_paths = r.1 }, r.0.1),
      )

  -- An entity that is not tracked: its fields are skipped, and its serializer is kept.
  unfoldable pub skip_create : ℤ → FlattenedSerializer p.floats → State p → Parse p (State p)
  skip_create index serializer (self, ctx) =
      skip_entity_fields serializer self.field_paths >>= λ fps. pure (
        record self {
          skipped_serializers = insert index serializer self.skipped_serializers;
          field_paths = fps;
        },
        ctx,
      )

  unfoldable pub handle_create_with_filter :
      ℤ → Known p.floats → (ℕ → Bool) → State p → Parse p (Option ℤ × State p)
  unfolding read_class create_entity skip_create
  handle_create_with_filter index known should_track st = read_class known >>= λ c.
      if should_track (serializer_name c.1)
      then (create_entity index known c.0 c.1 st >>= λ st'. pure (some index, st'))
      else (skip_create index c.1 st >>= λ st'. pure (none, st'))

  -- Of an entity that is unknown nothing is read.
  abbrev pub update_known :
      ℤ → State p → Option (Entity p.floats) → Parse p (Option (Entity p.floats) × State p)
  update_known index st none = pure (none, st)
  update_known index (self, ctx) (some entity) = parse self.field_paths (entity, ctx) >>= λ r.
      pure (
        some r.0.0,
        (record self { entities = insert index r.0.0 self.entities; field_paths = r.1 }, r.0.1),
      )

  -- Of an entity that was skipped the fields are skipped.
  abbrev pub update_skipped :
      ℤ
      → State p
      → Option (FlattenedSerializer p.floats)
      → Parse p (Option (Entity p.floats) × State p)
  update_skipped index (self, ctx) (some serializer) =
      skip_entity_fields serializer self.field_paths >>= λ fps.
      pure (none, (record self { field_paths = fps }, ctx))
  update_skipped index st none = update_known index st (lookup index st.0.entities)

  unfoldable pub handle_update : ℤ → State p → Parse p (Option (Entity p.floats) × State p)
  handle_update index st = update_skipped index st (lookup index st.0.skipped_serializers)

module _ {f : Floats} where
  -- `handle_delete` and `handle_leave`, which do the same.
  unfoldable pub handle_delete : ℤ → EntityContainer f → Option (Entity f) × EntityContainer f
  handle_delete index self = (
    lookup index self.entities,
    record self {
      skipped_serializers = remove index self.skipped_serializers;
      entities = remove index self.entities;
    },
  )

  unfoldable pub handle_leave : ℤ → EntityContainer f → Option (Entity f) × EntityContainer f
  handle_leave index self = (
    lookup index self.entities,
    record self {
      skipped_serializers = remove index self.skipped_serializers;
      entities = remove index self.entities;
    },
  )

  unfoldable pub get : EntityContainer f → ℤ → Option (Entity f)
  get self index = lookup index self.entities

  unfoldable pub get_baseline : EntityContainer f → ℤ → Option (Entity f)
  get_baseline self index = lookup index self.baseline_entities

  unfoldable pub clear : EntityContainer f → EntityContainer f
  clear self = record self { entities = []; baseline_entities = []; skipped_serializers = [] }

  unfoldable pub is_empty : EntityContainer f → Bool
  is_empty self = elim self.entities [ [] ↦ true | e ∷ es ↦ false ]
