-- ===== src/Entities/FixedArrays.antt =====
-- The keys of the fields below a fixed array, in `Entity::parse` of
-- crates/haste_core/src/entities.rs, for an array that crates/haste_core/src/flattenedserializers.rs
-- makes.
use haste.Prelude.{
  ℕ, ◌<◌, ◌≡◌, refl, ap, ◌∙◌, arith, true, false, none, some, ltb, get_elem?, if◌then◌else◌,
}
use haste.Outcome.{ok}
use haste.Platform.{Platform}
use haste.FieldPath.{FieldPath}
use haste.Maps.{lookup, nat_key}
use haste.FxHash.{add_u64_to_hash}
use haste.FieldMetadata.{FieldProperties, fixed_array}
use haste.FlattenedSerializers.{
  FlattenedSerializerField, FlattenedSerializer, FieldSerializer, SerializerMap, flattened_field,
  field_serializer, named_serializer, get_child, get_child_of_field, is_dynamic_array,
  is_fixed_array,
}
use haste.FlattenedSerializers.Names.{get_child_of_field-fixed_array}
use haste.Entities.{component, descend, descend_from, find_field}

module _ {p : Platform} where
  component-eq :
      (fp : FieldPath) (j c : ℕ)
      → get_elem? fp.components j ≡ some c
      → component {p = p} fp j ≡ ok c
  component-eq fp j c at = rw (component, at) refl

  -- Below a fixed array the key goes by the index.
  descend-fixed_array :
      (fp : FieldPath) (j c length key : ℕ) (ps : FieldProperties p.floats)
      (fs : FieldSerializer p.floats) (child : FlattenedSerializerField p.floats)
      → ps.metadata.special_descriptor ≡ some (fixed_array length)
      → get_elem? fp.components j ≡ some c
      → get_child_of_field (flattened_field ps fs) c ≡ some child
      → descend {p = p} fp j (flattened_field ps fs) key
        ≡ ok (child, add_u64_to_hash key (add_u64_to_hash 0 c))
  unfolding descend
  descend-fixed_array fp j c length key ps fs child array at there =
      let field = flattened_field ps fs in
      let not_dynamic : is_dynamic_array field ≡ false = rw array refl in
      let fixed : is_fixed_array field ≡ true = rw array refl in
      rw (not_dynamic, component-eq fp j c at, there, fixed) refl

  -- Let a serializer have a field that is a fixed array of `length` elements, made with the serializers
  -- of `map`, and let its elements have the serializer `s` of `map`. Then the path of three components
  -- to the field `k` of the element `i`, with `i` below `length`, leads to that field of `s`, and its
  -- key is made of the array's key, of `i` and of the index `k`, not of the field's name.
  pub find_field-fixed_array :
      (outer s : FlattenedSerializer p.floats) (map : SerializerMap p.floats)
      (ps : FieldProperties p.floats) (fp : FieldPath) (length c i k name : ℕ)
      (child : FlattenedSerializerField p.floats)
      → ps.metadata.special_descriptor ≡ some (fixed_array length)
      → ps.field_serializer_name ≡ some name
      → lookup name map ≡ some s
      → get_child outer c ≡ some (flattened_field ps (field_serializer map ps))
      → get_child s k ≡ some child
      → i < length
      → fp.last ≡ 2
      → get_elem? fp.components 0 ≡ some c
      → get_elem? fp.components 1 ≡ some i
      → get_elem? fp.components 2 ≡ some k
      → find_field {p = p} outer fp
        ≡ ok (
          child,
          add_u64_to_hash (add_u64_to_hash ps.key (add_u64_to_hash 0 i)) (add_u64_to_hash 0 k),
        )
  unfolding find_field descend_from get_child_of_field
  find_field-fixed_array outer s map ps fp length c i k name child array named there below element
        less last at0 at1 at2 =
      let inner = flattened_field ps (named_serializer map ps) in
      let found : get_child_of_field (flattened_field ps (field_serializer map ps)) i ≡ some inner =
        get_child_of_field-fixed_array map ps length i array
        ∙ ap (λ b. if b then some inner else none) (ltb_true i length less) in
      let below_element : get_child_of_field inner k ≡ some child = rw (named, there) element in
      rw
        (
          component-eq fp 0 c at0,
          below,
          last,
          descend-fixed_array fp 1 i length ps.key ps (field_serializer map ps) inner array at1
              found,
          descend-fixed_array fp 2 k length (add_u64_to_hash ps.key (add_u64_to_hash 0 i)) ps
              (named_serializer map ps) child array at2 below_element,
        )
        refl
    where
      ltb_true : (i n : ℕ) → i < n → ltb i n ≡ true
      ltb_true i n h = ground arith
