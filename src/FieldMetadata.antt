-- ===== src/FieldMetadata.antt =====
-- crates/haste_core/src/fieldmetadata.rs, and the constructors of decoders of
-- crates/haste_core/src/fielddecoder.rs: how the type and the encoder of a field choose its decoder.
-- A name is the list of its bytes, a `Symbol` of crates/haste_core/src/flattenedserializers.rs is its
-- hash.
pub mod Chosen
use haste.Prelude.{
  same_bytes, ℕ, zero, suc, ◌-◌, ◌^◌, Bool, true, false, ◌&&◌, ◌||◌, List, [], ◌∷◌, Option, none,
  some, ltb, leb, ◌==◌, if◌then◌else◌,
}
use Prim.Native.String.{String}
use Prim.Native.Char.{code}
use haste.Prelude.Int.{ℤ, pos, negsuc}
use haste.Outcome.{Outcome, ok, err, panic, stuck, ◌>>=◌, map_err}
use haste.Platform.{Floats}
use haste.FxHash.{hash_bytes}
use haste.Vartype.{Error}
use haste.Vartype.Tokenizer.{Charsor}
use haste.Vartype.Parser.{Expr, ident, lit, pointer, template, array, num, parse}
use haste.QuantizedFloat.{QuantizedFloatError, QuantizedFloat, new as new_quantized_float}
use haste.FieldDecoder.{
  InternalF32Decoder, simulation_time, coord, normal, no_scale, quantized, FieldDecoder,
  invalid_decoder, i64_decoder, u64_decoder, u64_fixed64_decoder, bool_decoder, string_decoder,
  f32_decoder, vector3_decoder, vector3_normal_decoder, vector2_decoder, vector4_decoder,
  qangle_pitch_yaw_decoder, qangle_no_bit_count_decoder, qangle_precise_decoder,
  qangle_bit_count_decoder,
}

-- The bytes of an ASCII text.
abbrev pub bytes : String → List ℕ
bytes String.[] = []
bytes (String.◌∷◌ c s) = code c ∷ bytes s

-- Whether a name is one of some texts.
abbrev pub is_one_of : List String → List ℕ → Bool
is_one_of [] name = false
is_one_of (s ∷ ss) name = same_bytes name (bytes s) || is_one_of ss name

abbrev pub symbol : String → ℕ
symbol s = hash_bytes (bytes s)

pub data FieldMetadataError : Type 0 where
  var_type_parse_error : Error → FieldMetadataError
  field_decoder_construction_error : QuantizedFloatError → FieldMetadataError
  unknown_array_length_ident : List ℕ → FieldMetadataError
  field_not_found : FieldMetadataError

pub data FieldSpecialDescriptor (f : Floats) : Type 0 where
  fixed_array : ℕ → FieldSpecialDescriptor f
  dynamic_array : FieldDecoder f → FieldSpecialDescriptor f
  dynamic_serializer_array pointer_field : FieldSpecialDescriptor f

pub record FieldMetadata (f : Floats) : Type 0 where
  pub special_descriptor : Option (FieldSpecialDescriptor f)
  pub decoder : FieldDecoder f

-- `FlattenedSerializerField`, but for its serializer.
pub record FieldProperties (f : Floats) : Type 0 where
  pub var_type : ℕ
  pub var_name : ℕ
  pub bit_count : Option ℤ
  pub low_value : Option f.F32
  pub high_value : Option f.F32
  pub encode_flags : Option ℤ
  pub field_serializer_name : Option ℕ
  pub send_node : Option ℕ
  pub var_encoder : Option ℕ
  pub metadata : FieldMetadata f
  pub key : ℕ

abbrev pub default_metadata : (f : Floats) → FieldMetadata f
default_metadata f = record { special_descriptor = none; decoder = invalid_decoder }

abbrev pub is_dynamic_array : {f : Floats} → Option (FieldSpecialDescriptor f) → Bool
is_dynamic_array (some (dynamic_array d)) = true
is_dynamic_array (some dynamic_serializer_array) = true
is_dynamic_array d = false

abbrev pub is_fixed_array : {f : Floats} → Option (FieldSpecialDescriptor f) → Bool
is_fixed_array (some (fixed_array length)) = true
is_fixed_array d = false

abbrev pub is_pointer : {f : Floats} → Option (FieldSpecialDescriptor f) → Bool
is_pointer (some pointer_field) = true
is_pointer d = false

abbrev pub unwrap_or : {A : Type 0} → A → Option A → A
unwrap_or a none = a
unwrap_or a (some b) = b

-- The 32 bits of an i32, and `as usize` of one.
abbrev pub bits_of_i32 : ℤ → ℕ
bits_of_i32 (pos n) = n
bits_of_i32 (negsuc n) = 2 ^ 32 - 1 - n

abbrev pub as_usize : ℤ → ℕ
as_usize (pos n) = n
as_usize (negsuc n) = 2 ^ 64 - 1 - n

abbrev pub Made : Type 0 → Type 0
Made A = Outcome FieldMetadataError A

abbrev pub pointers : List String
pointers =
    "CBodyComponentDCGBaseAnimating" ∷ "CBodyComponentBaseAnimating"
    ∷ "CBodyComponentBaseAnimatingOverlay" ∷ "CBodyComponentBaseModelEntity" ∷ "CBodyComponent"
    ∷ "CBodyComponentSkeletonInstance" ∷ "CBodyComponentPoint" ∷ "CLightComponent"
    ∷ "CRenderComponent" ∷ "C_BodyComponentBaseAnimating" ∷ "C_BodyComponentBaseAnimatingOverlay"
    ∷ "CPhysicsComponent" ∷ []

abbrev pub array_length : Expr → Made ℕ
array_length (ident name) =
    if is_one_of ("MAX_ABILITY_DRAFT_ABILITIES" ∷ []) name
    then ok 48
    else err (unknown_array_length_ident name)
array_length (lit (num length)) = ok length
array_length len = panic

abbrev pub is_char : Expr → Bool
is_char (ident name) = is_one_of ("char" ∷ []) name
is_char expr = false

module _ {f : Floats} where
  unfoldable pub var_encoder_heq : FieldProperties f → ℕ → Bool
  var_encoder_heq field rhs = elim field.var_encoder [ none ↦ false | some lhs ↦ lhs == rhs ]

  unfoldable pub new_u64_decoder : FieldProperties f → FieldDecoder f
  unfolding var_encoder_heq
  new_u64_decoder field =
      if var_encoder_heq field (symbol "fixed64") then u64_fixed64_decoder else u64_decoder

  -- Without an encoder that says otherwise: by the bits.
  abbrev pub qangle_by_bits : ℕ → FieldDecoder f
  qangle_by_bits n = if n == 0 then qangle_no_bit_count_decoder else qangle_bit_count_decoder n

  unfoldable pub new_qangle_decoder : FieldProperties f → Made (FieldDecoder f)
  new_qangle_decoder field =
      let bit_count = as_usize (unwrap_or (pos 0) field.bit_count) in
      elim field.var_encoder [
        | none ↦ ok (qangle_by_bits bit_count)
        | some hash ↦
            if hash == symbol "qangle_pitch_yaw"
            then ok (qangle_pitch_yaw_decoder bit_count)
            else if hash == symbol "qangle_precise"
            then ok qangle_precise_decoder
            else if (hash == symbol "qangle") || (hash == symbol "QAngle")
            then ok (qangle_by_bits bit_count)
            else panic
      ]

  abbrev pub non_special : FieldDecoder f → FieldMetadata f
  non_special d = record { special_descriptor = none; decoder = d }

  abbrev pub with_descriptor : FieldSpecialDescriptor f → FieldDecoder f → FieldMetadata f
  with_descriptor s d = record { special_descriptor = some s; decoder = d }

  -- The decoder, or its error.
  abbrev pub non_special_of : {A : Type 0} → (A → FieldDecoder f) → Made A → Made (FieldMetadata f)
  non_special_of make m = do a ← m; ok (non_special (make a))

  -- `of_expr` is the metadata of the items.
  unfoldable pub visit_array : Expr → Made (FieldMetadata f) → Expr → Made (FieldMetadata f)
  visit_array expr of_expr len = if is_char expr then ok (non_special string_decoder) else (do
    length ← array_length len
    m ← of_expr
    ok (with_descriptor (fixed_array length) m.decoder))

  abbrev pub visit_pointer : Made (FieldMetadata f)
  visit_pointer = ok (with_descriptor pointer_field bool_decoder)

-- `checks` is whether the build has overflow checks and debug assertions.
module _ {f : Floats} (checks : Bool) where
  unfoldable pub new_quantized_float_decoder : FieldProperties f → Made (InternalF32Decoder f)
  new_quantized_float_decoder field = do
    qf ← map_err field_decoder_construction_error (
        new_quantized_float {f = f} checks (unwrap_or (pos 0) field.bit_count)
          (bits_of_i32 (unwrap_or (pos 0) field.encode_flags))
          (unwrap_or (f.literal 0 0) field.low_value) (unwrap_or (f.literal 0 0) field.high_value))
    ok (quantized qf)

  -- Without an encoder: by the bits, which are asserted to be at most 32.
  abbrev pub f32_by_bits : FieldProperties f → ℤ → Made (InternalF32Decoder f)
  f32_by_bits field (negsuc n) = if checks then panic else new_quantized_float_decoder field
  f32_by_bits field (pos n) =
      if checks && ltb 32 n
      then panic
      else if (n == 0) || (n == 32)
      then ok no_scale
      else new_quantized_float_decoder field

  unfoldable pub new_f32_decoder : FieldProperties f → Made (InternalF32Decoder f)
  unfolding new_quantized_float_decoder
  new_f32_decoder field =
      if (field.var_name == symbol "m_flSimulationTime")
        || (field.var_name == symbol "m_flAnimTime")
      then ok simulation_time
      else elim field.var_encoder [
        | some hash ↦
            if hash == symbol "coord"
            then ok coord
            else if hash == symbol "normal"
            then ok normal
            else panic
        | none ↦ f32_by_bits field (unwrap_or (pos 0) field.bit_count)
      ]

  unfoldable pub new_vector3_decoder : FieldProperties f → Made (FieldDecoder f)
  unfolding new_f32_decoder var_encoder_heq
  new_vector3_decoder field =
      if var_encoder_heq field (symbol "normal")
      then ok vector3_normal_decoder
      else (do k ← new_f32_decoder field; ok (vector3_decoder k))

  unfoldable pub visit_ident : List ℕ → FieldProperties f → Made (FieldMetadata f)
  unfolding new_u64_decoder new_vector3_decoder new_qangle_decoder
  visit_ident name field =
      if is_one_of ("int8" ∷ "int16" ∷ "int32" ∷ "int64" ∷ []) name
      then ok (non_special i64_decoder)
      else if is_one_of ("bool" ∷ []) name
      then ok (non_special bool_decoder)
      else if is_one_of ("float32" ∷ "CNetworkedQuantizedFloat" ∷ "GameTime_t" ∷ []) name
      then non_special_of f32_decoder (new_f32_decoder field)
      else if is_one_of pointers name
      then ok (with_descriptor pointer_field bool_decoder)
      else if is_one_of ("CUtlSymbolLarge" ∷ "CUtlString" ∷ []) name
      then ok (non_special string_decoder)
      else if is_one_of ("QAngle" ∷ []) name
      then non_special_of (λ d. d) (new_qangle_decoder field)
      else if is_one_of ("Vector" ∷ "VectorWS" ∷ []) name
      then non_special_of (λ d. d) (new_vector3_decoder field)
      else if is_one_of ("Vector2D" ∷ []) name
      then non_special_of vector2_decoder (new_f32_decoder field)
      else if is_one_of ("Vector4D" ∷ []) name
      then non_special_of vector4_decoder (new_f32_decoder field)
      else if is_one_of ("m_SpeechBubbles" ∷ "DOTA_CombatLogQueryProgress" ∷ []) name
      then ok (with_descriptor dynamic_serializer_array u64_decoder)
      else ok (non_special (new_u64_decoder field))

  -- `of_arg` is the metadata of the argument.
  unfoldable pub visit_template :
      Expr → Made (FieldMetadata f) → FieldProperties f → Made (FieldMetadata f)
  unfolding visit_ident
  visit_template (ident name) of_arg field =
      if is_one_of ("CNetworkUtlVectorBase" ∷ "CUtlVectorEmbeddedNetworkVar" ∷ "CUtlVector" ∷ [])
        name
      then elim field.field_serializer_name [
        | some s ↦ ok (with_descriptor dynamic_serializer_array u64_decoder)
        | none ↦ do m ← of_arg; ok (with_descriptor (dynamic_array m.decoder) u64_decoder)
      ]
      else visit_ident name field
  visit_template expr of_arg field = panic

  unfoldable pub visit_any : Expr → FieldProperties f → Made (FieldMetadata f)
  unfolding visit_template visit_array
  visit_any (ident name) field = visit_ident name field
  visit_any (template expr arg) field = visit_template expr (visit_any arg field) field
  visit_any (array expr len) field = visit_array expr (visit_any expr field) len
  visit_any (pointer expr) field = visit_pointer
  visit_any (lit l) field = panic

  unfoldable pub get_field_metadata : Charsor → FieldProperties f → List ℕ → Made (FieldMetadata f)
  unfolding visit_any
  get_field_metadata c field var_type = do
    expr ← map_err var_type_parse_error (parse c checks var_type)
    visit_any expr field
