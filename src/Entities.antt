-- ===== src/Entities.antt =====
-- crates/haste_core/src/entities.rs: the entity, its parsing, and the skipping of the fields of one;
-- with crates/haste_core/src/entityclasses.rs and the lookup of
-- crates/haste_core/src/instancebaseline.rs. An error drops the state, as every caller passes it on.
pub mod Container
pub mod Skips
pub mod Settled
pub mod Events
pub mod Copies
pub mod Soundness
pub mod Tracking
pub mod Reached
pub mod FixedArrays
use haste.Prelude.{
  ℕ, zero, suc, ◌+◌, ◌-◌, ◌*◌, ◌^◌, Bool, true, false, ◌||◌, List, [], ◌∷◌, Option, none, some,
  bit_and, ltb, leb, ◌==◌, if◌then◌else◌, length, get_elem?, take, drop,
}
use haste.Prelude.Int.{ℤ, pos, negsuc, ◌-ℤ◌}
use haste.Machine.{as_i32}
use haste.Outcome.{Outcome, ok, err, panic, stuck, Result, success, failure, map_err, ◌>>=◌ as bind}
use haste.Platform.{Platform, Floats}
use haste.BitReader.{BitReader, Read, read_ubit64, read_bits}
use haste.Maps.{Map, lookup, insert, nat_key, int_key}
use haste.FxHash.{hash_bytes, add_u64_to_hash}
use haste.FieldPath.{FieldPath, get, iter}
use haste.FieldPath.Paths.{read_field_paths}
use haste.FieldValue.{FieldValue, Converted, FieldValueConversionError}
use haste.FieldDecoder.{FieldDecodeContext, decode, skip_bits}
use haste.FlattenedSerializers.{
  FlattenedSerializerField, FlattenedSerializer, properties, serializer_name, get_child,
  get_child_of_field, is_dynamic_array, is_fixed_array, bind_option,
}

abbrev pub invalid_networked_ehandle_value : ℕ
invalid_networked_ehandle_value = 2 ^ (14 + 10) - 1

unfoldable pub is_ehandle_valid : ℕ → Bool
is_ehandle_valid handle = if handle == invalid_networked_ehandle_value then false else true

-- `(handle & ((1 << MAX_EDICT_BITS) - 1)) as i32`
unfoldable pub ehandle_to_index : ℕ → ℕ
ehandle_to_index handle = bit_and handle (2 ^ 14 - 1)

pub data EntityParseError (p : Platform) : Type 0 where
  bit_error : p.Error → EntityParseError p
  decoder : p.Error → EntityParseError p
  field_not_found try_from_int : EntityParseError p

pub data GetValueError : Type 0 where
  field_not_exist : GetValueError
  field_value_conversion_error : FieldValueConversionError → GetValueError

-- An `EntityField` is its value.
pub record Entity (f : Floats) : Type 0 where
  pub index : ℤ
  pub fields : Map ℕ (FieldValue f)
  pub serializer : FlattenedSerializer f

module _ (p : Platform) where
  abbrev pub Parse : Type 0 → Type 0
  Parse A = BitReader p → Outcome (EntityParseError p) (A × BitReader p)

  -- A step that does not read.
  abbrev pub Step : Type 0 → Type 0
  Step A = Outcome (EntityParseError p) A

  -- What `parse` changes: the entity, and the context of the decoders.
  abbrev pub Parsing : Type 0
  Parsing = Entity p.floats × FieldDecodeContext p.floats

module _ {p : Platform} where
  infixl 5 ◌>>=◌
  abbrev pub ◌>>=◌ : {A B : Type 0} → Parse p A → (A → Parse p B) → Parse p B
  ◌>>=◌ m k br = bind (m br) (λ r. k r.0 r.1)

  abbrev pub pure : {A : Type 0} → A → Parse p A
  pure a br = ok (a, br)

  abbrev pub lift : {A : Type 0} → Step p A → Parse p A
  lift r br = bind r (λ a. ok (a, br))

  abbrev pub on_bits : {A : Type 0} → Read p A → Parse p A
  on_bits m br = map_err bit_error (m br)

  abbrev pub on_decoder : {A : Type 0} → Read p A → Parse p A
  on_decoder m br = map_err decoder (m br)

  -- `.ok_or(EntityParseError::FieldNotFound)?`
  abbrev pub found : {A : Type 0} → Option A → Step p A
  found none = err field_not_found
  found (some a) = ok a

  -- `fp.data[i]`, with the bounds check.
  abbrev pub component : FieldPath → ℕ → Step p ℕ
  component fp i = elim (get_elem? fp.components i) [ none ↦ panic | some c ↦ ok c ]

module _ {p : Platform} where
  -- The body of the loop over the components in `Entity::parse`.
  unfoldable pub descend :
      FieldPath
      → ℕ
      → FlattenedSerializerField p.floats
      → ℕ
      → Step p (FlattenedSerializerField p.floats × ℕ)
  descend fp i field field_key =
      if is_dynamic_array field
      then bind (found (get_child_of_field field 0)) (λ child.
        bind (component fp i) (λ c. ok (child, add_u64_to_hash field_key (add_u64_to_hash 0 c))))
      else bind (component fp i) (λ c. bind (found (get_child_of_field field c)) (λ child. ok (
        child,
        (if is_fixed_array field
            then add_u64_to_hash field_key (add_u64_to_hash 0 c)
            else add_u64_to_hash field_key (properties child).var_name),
      )))

  -- `for i in 1..=fp.last`: `n` rounds, from `i` on.
  unfoldable pub descend_from :
      FieldPath
      → ℕ
      → ℕ
      → FlattenedSerializerField p.floats
      → ℕ
      → Step p (FlattenedSerializerField p.floats × ℕ)
  unfolding descend
  descend_from fp zero i field field_key = ok (field, field_key)
  descend_from fp (suc n) i field field_key =
      bind (descend fp i field field_key) (λ r. descend_from fp n (i + 1) r.0 r.1)

  -- The field of a path, and its key.
  unfoldable pub find_field :
      FlattenedSerializer p.floats → FieldPath → Step p (FlattenedSerializerField p.floats × ℕ)
  unfolding descend_from
  find_field serializer fp = bind (component fp 0) (λ c.
      bind (found (get_child serializer c))
        (λ field. descend_from fp fp.last 1 field (properties field).key))

  -- The same loop in `skip_entity_fields`, without the key.
  unfoldable pub descend_to_skip :
      FieldPath
      → ℕ
      → ℕ
      → FlattenedSerializerField p.floats
      → Step p (FlattenedSerializerField p.floats)
  descend_to_skip fp zero i field = ok field
  descend_to_skip fp (suc n) i field =
      bind
        (if is_dynamic_array field
          then found (get_child_of_field field 0)
          else bind (component fp i) (λ c. found (get_child_of_field field c)))
        (descend_to_skip fp n (i + 1))

  unfoldable pub find_field_to_skip :
      FlattenedSerializer p.floats → FieldPath → Step p (FlattenedSerializerField p.floats)
  unfolding descend_to_skip
  find_field_to_skip serializer fp =
      bind (component fp 0)
        (λ c. bind (found (get_child serializer c)) (λ field. descend_to_skip fp fp.last 1 field))

  -- `&fps[..fp_count]`, with the bounds check.
  abbrev pub first_paths : ℕ → List FieldPath → Step p (List FieldPath)
  first_paths fp_count fps = if leb fp_count (length fps) then ok (take fp_count fps) else panic

  -- The body of the loop over the paths: a field is decoded, and put at its key.
  unfoldable pub parse_field : Parsing p → FieldPath → Parse p (Parsing p)
  unfolding find_field
  parse_field (entity, ctx) fp = lift (find_field entity.serializer fp) >>= λ r.
      on_decoder (decode (properties r.0).metadata.decoder ctx) >>= λ v.
      pure (record entity { fields = insert r.1 v.0 entity.fields }, v.1)

  unfoldable pub parse_fields : List FieldPath → Parsing p → Parse p (Parsing p)
  unfolding parse_field
  parse_fields [] st = pure st
  parse_fields (fp ∷ fps) st = parse_field st fp >>= parse_fields fps

  -- `Entity::parse`; the slice of paths is written over.
  unfoldable pub parse : List FieldPath → Parsing p → Parse p (Parsing p × List FieldPath)
  unfolding parse_fields
  parse fps st = on_bits (read_field_paths fps) >>= λ r.
      lift (first_paths r.0 r.1) >>= λ paths. parse_fields paths st >>= λ st'. pure (st', r.1)

  unfoldable pub skip_field : FlattenedSerializer p.floats → FieldPath → Parse p (Unit {0})
  unfolding find_field_to_skip
  skip_field serializer fp = lift (find_field_to_skip serializer fp) >>= λ field.
      on_decoder (skip_bits (properties field).metadata.decoder) >>= λ n. pure tt

  unfoldable pub skip_fields : FlattenedSerializer p.floats → List FieldPath → Parse p (Unit {0})
  unfolding skip_field
  skip_fields serializer [] = pure tt
  skip_fields serializer (fp ∷ fps) = skip_field serializer fp >>= λ u. skip_fields serializer fps

  unfoldable pub skip_entity_fields :
      FlattenedSerializer p.floats → List FieldPath → Parse p (List FieldPath)
  unfolding skip_fields
  skip_entity_fields serializer fps = on_bits (read_field_paths fps) >>= λ r.
      lift (first_paths r.0 r.1) >>= λ paths. skip_fields serializer paths >>= λ u. pure r.1

-- The public methods of an entity.
module _ {f : Floats} where
  unfoldable pub get_field_value : Entity f → ℕ → Option (FieldValue f)
  get_field_value entity key = lookup key entity.fields

  -- `get_value` and `try_get_value`, for the conversion to the type that is asked for.
  unfoldable pub get_value : {A : Type 0} → (FieldValue f → Converted A) → Entity f → ℕ → Option A
  get_value convert entity key = elim (lookup key entity.fields) [
    | none ↦ none
    | some value ↦ elim (convert value) [ success a ↦ some a | failure e ↦ none ]
  ]

  unfoldable pub try_get_value :
      {A : Type 0} → (FieldValue f → Converted A) → Entity f → ℕ → Result GetValueError A
  try_get_value convert entity key = elim (lookup key entity.fields) [
    | none ↦ failure field_not_exist
    | some value ↦ elim (convert value) [
      | success a ↦ success a
      | failure e ↦ failure (field_value_conversion_error e)
    ]
  ]

  unfoldable pub serializer_name_heq : Entity f → ℕ → Bool
  serializer_name_heq entity rhs = serializer_name entity.serializer == rhs

  -- `fold` over the components behind the first.
  abbrev pub fold_children :
      List ℕ → Option (FlattenedSerializerField f) → Option (FlattenedSerializerField f)
  fold_children [] field = field
  fold_children (i ∷ is) field = fold_children is (bind_option field (λ x. get_child_of_field x i))

  unfoldable pub get_serializer_field : Entity f → FieldPath → Option (FlattenedSerializerField f)
  get_serializer_field entity path =
      fold_children (drop 1 (iter path))
        (bind_option (get path 0) (λ i. get_child entity.serializer i))

-- The world coordinate of an offset in a cell, with the width and the largest coordinate of deadlock;
-- a cell is a u16, so that neither the product nor the difference overflows.
unfoldable pub coord_from_cell : (f : Floats) → ℕ → ℕ → ℕ → f.F32 → f.F32
unfolding ◌-ℤ◌
coord_from_cell f cell_width max_coord cell vec =
    f.add (f.of_ℤ (as_i32 (cell * cell_width) -ℤ as_i32 max_coord)) vec

unfoldable pub deadlock_coord_from_cell : (f : Floats) → ℕ → f.F32 → f.F32
unfolding coord_from_cell
deadlock_coord_from_cell f cell vec = coord_from_cell f (2 ^ 9) 16384 cell vec

-- A `DeltaHeader` is its byte.
abbrev pub delta_update : ℕ
delta_update = 0

abbrev pub delta_create : ℕ
delta_create = 2

abbrev pub delta_leave : ℕ
delta_leave = 1

abbrev pub delta_delete : ℕ
delta_delete = 3

abbrev pub first_byte : {p : Platform} → List ℕ → Read p ℕ
first_byte [] br = panic
first_byte (b ∷ bs) br = ok (b, br)

unfoldable pub from_bit_reader : {p : Platform} → Read p ℕ
from_bit_reader br = bind (read_bits (0 ∷ []) 2 br) (λ r. first_byte r.0 r.1)
