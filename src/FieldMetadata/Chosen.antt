-- ===== src/FieldMetadata/Chosen.antt =====
-- Which decoders crates/haste_core/src/fieldmetadata.rs chooses.
use haste.Prelude.{
  ℕ, ◌^◌, ◌<◌, ◌≡◌, arith, Bool, true, false, ◌||◌, List, [], ◌∷◌, Option, none, some,
  if◌then◌else◌, ◌==◌,
}
use haste.Prelude.Int.{ℤ, pos, negsuc}
use haste.Outcome.{Outcome, ok, err, panic, stuck, ◌>>=◌ as bind, >>=-eq-ok, map_err}
use haste.Platform.{Floats}
use haste.Vartype.Tokenizer.{Charsor}
use haste.Vartype.Parser.{Expr, ident, lit, pointer, template, array, parse}
use haste.QuantizedFloat.{QuantizedFloat, QuantizedFloatError, new as new_quantized_float}
use haste.QuantizedFloat.Bits.{EndsIn, BitsAsked, BitsAsked-below, new-EndsIn}
use haste.FieldDecoder.{
  coord, normal, quantized, FieldDecoder, i64_decoder, u64_decoder, u64_fixed64_decoder,
  bool_decoder, string_decoder, f32_decoder, vector2_decoder, vector4_decoder,
  qangle_pitch_yaw_decoder, qangle_no_bit_count_decoder, qangle_precise_decoder,
  qangle_bit_count_decoder,
}
use haste.FieldDecoder.SkipBits.{F32Fits, Fits}
use haste.FieldMetadata.{
  Made, FieldMetadata, FieldMetadataError, FieldProperties, field_decoder_construction_error,
  new_f32_decoder, f32_by_bits, new_quantized_float_decoder, new_vector3_decoder,
  new_qangle_decoder, new_u64_decoder, qangle_by_bits, visit_ident, visit_template, visit_array,
  visit_any, get_field_metadata, var_encoder_heq, symbol, is_one_of, unwrap_or, bits_of_i32,
  as_usize, non_special, with_descriptor, array_length, is_char, pointers, pointer_field,
  non_special_of, FieldSpecialDescriptor, dynamic_array, dynamic_serializer_array,
  var_type_parse_error,
}

-- A value, if there is one, has the property.
pub record Gives {E A : Type 0} (Q : A → Type 0) (r : Outcome E A) : Type 0 where
  pub given : (a : A) → r ≡ ok a → Q a

Gives-ok : {E A : Type 0} {Q : A → Type 0} {a : A} → Q a → Gives {E = E} Q (ok a)
Gives-ok {Q = Q} q = record { given = λ b e. let same : _ ≡ b = cc in rw (← same) q }

Gives-err : {E A : Type 0} {Q : A → Type 0} {e : E} → Gives {A = A} Q (err e)
Gives-err = record { given = λ b e. absurd (cc) }

Gives-panic : {E A : Type 0} {Q : A → Type 0} → Gives {E = E} {A = A} Q panic
Gives-panic = record { given = λ b e. absurd (cc) }

Gives-bind :
    {E A B : Type 0} {P : A → Type 0} {Q : B → Type 0} {m : Outcome E A} {k : A → Outcome E B}
    → Gives P m
    → ((a : A) → P a → Gives Q (k a))
    → Gives Q (bind m k)
Gives-bind {m = m} {k = k} t u = record {
  given = λ b e. let (a, h, r) = >>=-eq-ok m k e in (u a (t.given a h)).given b r;
}

Gives-if :
    {E A : Type 0} {Q : A → Type 0} (b : Bool) {m n : Outcome E A}
    → Gives Q m
    → Gives Q n
    → Gives Q (if b then m else n)
Gives-if true t u = t
Gives-if false t u = u

Gives-option :
    {E A B : Type 0} {Q : A → Type 0} (o : Option B) {m : Outcome E A} {k : B → Outcome E A}
    → Gives Q m
    → ((b : B) → Gives Q (k b))
    → Gives Q (elim o [ none ↦ m | some b ↦ k b ])
Gives-option none t u = t
Gives-option (some b) t u = u b

-- The number of bits that a message gives is none, or an i32 that is not negative.
abbrev pub BitCountFits : Option ℤ → Type 0
BitCountFits none = Unit {0}
BitCountFits (some (pos n)) = n < 2 ^ 31
BitCountFits (some (negsuc n)) = ⊥

bit_count-lt : (o : Option ℤ) → BitCountFits o → as_usize (unwrap_or (pos 0) o) < 2 ^ 31
bit_count-lt none h = omega arith
bit_count-lt (some (pos n)) h = h
bit_count-lt (some (negsuc n)) h = absurd h

by_bits-Fits : (f : Floats) (n : ℕ) → n < 2 ^ 31 → Fits {f = f} (qangle_by_bits n)
by_bits-Fits f n small = either (n == 0)
  where
    either :
        (b : Bool)
        → Fits {f = f} (if b then qangle_no_bit_count_decoder else qangle_bit_count_decoder n)
    either true = tt
    either false = omega arith

module _ {f : Floats} where
  Gives-quantized :
      (field : FieldProperties f) → Gives F32Fits (new_quantized_float_decoder true field)
  unfolding new_quantized_float_decoder
  Gives-quantized field =
      of_new
        (new_quantized_float {f = f} true (unwrap_or (pos 0) field.bit_count)
          (bits_of_i32 (unwrap_or (pos 0) field.encode_flags))
          (unwrap_or (f.literal 0 0) field.low_value) (unwrap_or (f.literal 0 0) field.high_value))
        (new-EndsIn f _ _ _ _)
    where
      of_new :
          (r : Outcome QuantizedFloatError (QuantizedFloat f))
          → EndsIn (BitsAsked f (unwrap_or (pos 0) field.bit_count)) r
          → Gives {E = FieldMetadataError} F32Fits
              (bind (map_err field_decoder_construction_error r) (λ qf. ok (quantized qf)))
      of_new (ok qf) h =
          let small = BitsAsked-below f (unwrap_or (pos 0) field.bit_count) qf h in
          Gives-ok (omega arith)
      of_new (err e) h = Gives-err
      of_new panic h = Gives-panic
      of_new stuck h = absurd h

  Gives-by_bits : (field : FieldProperties f) (n : ℤ) → Gives F32Fits (f32_by_bits true field n)
  Gives-by_bits field (negsuc n) = Gives-panic
  Gives-by_bits field (pos n) =
      Gives-if _ Gives-panic (Gives-if _ (Gives-ok tt) (Gives-quantized field))

  Gives-f32 : (field : FieldProperties f) → Gives F32Fits (new_f32_decoder true field)
  unfolding new_f32_decoder
  Gives-f32 field = Gives-if _ (Gives-ok tt) (
      Gives-option field.var_encoder (Gives-by_bits field (unwrap_or (pos 0) field.bit_count))
        (λ hash.
          Gives-if (hash == symbol "coord") (Gives-ok {a = coord} tt)
            (Gives-if (hash == symbol "normal") (Gives-ok {a = normal} tt) Gives-panic)))

  Gives-vector3 : (field : FieldProperties f) → Gives Fits (new_vector3_decoder true field)
  unfolding new_vector3_decoder
  Gives-vector3 field =
      Gives-if _ (Gives-ok tt) (Gives-bind (Gives-f32 field) (λ k fits. Gives-ok fits))

  Gives-qangle :
      (field : FieldProperties f)
      → BitCountFits field.bit_count
      → Gives Fits (new_qangle_decoder field)
  unfolding new_qangle_decoder
  Gives-qangle field h =
      let n = as_usize (unwrap_or (pos 0) field.bit_count) in
      let small = bit_count-lt field.bit_count h in
      Gives-option field.var_encoder (Gives-ok (by_bits-Fits f n small)) (λ hash.
        Gives-if (hash == symbol "qangle_pitch_yaw")
          (Gives-ok {a = qangle_pitch_yaw_decoder n} (omega arith))
          (Gives-if (hash == symbol "qangle_precise") (Gives-ok {a = qangle_precise_decoder} tt) (
            Gives-if ((hash == symbol "qangle") || (hash == symbol "QAngle"))
              (Gives-ok {a = qangle_by_bits n} (by_bits-Fits f n small)) Gives-panic)))

  u64-Fits : (field : FieldProperties f) → Fits (new_u64_decoder field)
  unfolding new_u64_decoder
  u64-Fits field = either (var_encoder_heq field (symbol "fixed64"))
    where
      either : (b : Bool) → Fits {f = f} (if b then u64_fixed64_decoder else u64_decoder)
      either true = tt
      either false = tt

  -- The decoder of the field, and that of the items if the descriptor has one.
  abbrev pub DescriptorFits : Option (FieldSpecialDescriptor f) → Type 0
  DescriptorFits (some (dynamic_array d)) = Fits d
  DescriptorFits o = Unit {0}

  abbrev pub MetadataFits : FieldMetadata f → Type 0
  MetadataFits m = Fits m.decoder × DescriptorFits m.special_descriptor

  Gives-decoder :
      {A : Type 0} {P : A → Type 0} (make : A → FieldDecoder f) {m : Made A}
      → Gives P m
      → ((a : A) → P a → Fits (make a))
      → Gives MetadataFits (non_special_of make m)
  Gives-decoder make t h = Gives-bind t (λ a pa. Gives-ok (h a pa, tt))

  of_vectors :
      (name : List ℕ) (field : FieldProperties f)
      → Gives MetadataFits (
          if is_one_of ("Vector" ∷ "VectorWS" ∷ []) name
          then non_special_of (λ d. d) (new_vector3_decoder true field)
          else if is_one_of ("Vector2D" ∷ []) name
          then non_special_of vector2_decoder (new_f32_decoder true field)
          else if is_one_of ("Vector4D" ∷ []) name
          then non_special_of vector4_decoder (new_f32_decoder true field)
          else if is_one_of ("m_SpeechBubbles" ∷ "DOTA_CombatLogQueryProgress" ∷ []) name
          then ok (with_descriptor dynamic_serializer_array u64_decoder)
          else ok (non_special (new_u64_decoder field)))
  of_vectors name field =
      Gives-if _ (Gives-decoder (λ d. d) (Gives-vector3 field) (λ d fits. fits)) (
        Gives-if _ (Gives-decoder vector2_decoder (Gives-f32 field) (λ k fits. fits)) (
          Gives-if _ (Gives-decoder vector4_decoder (Gives-f32 field) (λ k fits. fits))
            (Gives-if _ (Gives-ok (tt, tt)) (Gives-ok (u64-Fits field, tt)))))

  Gives-ident :
      (name : List ℕ) (field : FieldProperties f)
      → BitCountFits field.bit_count
      → Gives MetadataFits (visit_ident true name field)
  unfolding visit_ident
  Gives-ident name field h =
      Gives-if (is_one_of ("int8" ∷ "int16" ∷ "int32" ∷ "int64" ∷ []) name) (plain i64_decoder tt) (
        Gives-if (is_one_of ("bool" ∷ []) name) (plain bool_decoder tt) (
          Gives-if (is_one_of ("float32" ∷ "CNetworkedQuantizedFloat" ∷ "GameTime_t" ∷ []) name)
            (Gives-decoder f32_decoder (Gives-f32 field) (λ k fits. fits))
            (Gives-if (is_one_of pointers name)
              (Gives-ok {a = with_descriptor pointer_field bool_decoder} (tt, tt))
              (Gives-if (is_one_of ("CUtlSymbolLarge" ∷ "CUtlString" ∷ []) name)
                (plain string_decoder tt)
                (Gives-if (is_one_of ("QAngle" ∷ []) name)
                  (Gives-decoder (λ d. d) (Gives-qangle field h) (λ d fits. fits))
                  (of_vectors name field))))))
    where
      plain :
          (d : FieldDecoder f)
          → Fits d
          → Gives {E = FieldMetadataError} MetadataFits (ok (non_special d))
      plain d fits = Gives-ok (fits, tt)

  Gives-template :
      (expr : Expr) (of_arg : Made (FieldMetadata f)) (field : FieldProperties f)
      → BitCountFits field.bit_count
      → Gives MetadataFits of_arg
      → Gives MetadataFits (visit_template true expr of_arg field)
  unfolding visit_template
  Gives-template (ident name) of_arg field h t =
      Gives-if
        (is_one_of ("CNetworkUtlVectorBase" ∷ "CUtlVectorEmbeddedNetworkVar" ∷ "CUtlVector" ∷ [])
          name)
        (at_name field.field_serializer_name) (Gives-ident name field h)
    where
      at_name :
          (o : Option ℕ)
          → Gives MetadataFits (elim o [
            | some s ↦ ok (with_descriptor dynamic_serializer_array u64_decoder)
            | none ↦ bind of_arg (λ m. ok (with_descriptor (dynamic_array m.decoder) u64_decoder))
          ])
      at_name (some s) = Gives-ok (tt, tt)
      at_name none = Gives-bind t (λ m fits. Gives-ok (tt, fits.0))
  Gives-template (lit l) of_arg field h t = Gives-panic
  Gives-template (pointer e) of_arg field h t = Gives-panic
  Gives-template (template e a) of_arg field h t = Gives-panic
  Gives-template (array e l) of_arg field h t = Gives-panic

  Gives-array :
      (expr : Expr) (of_expr : Made (FieldMetadata f)) (len : Expr)
      → Gives MetadataFits of_expr
      → Gives MetadataFits (visit_array expr of_expr len)
  unfolding visit_array
  Gives-array expr of_expr len t =
      Gives-if (is_char expr) (Gives-ok {a = non_special string_decoder} (tt, tt))
        (Gives-bind (any_length len) (λ length _. Gives-bind t (λ m fits. Gives-ok (fits.0, tt))))
    where
      any_length :
          (len : Expr) → Gives {E = FieldMetadataError} (λ (n : ℕ). Unit {0}) (array_length len)
      any_length len = record { given = λ n e. tt }

  visit_any-Fits :
      (expr : Expr) (field : FieldProperties f)
      → BitCountFits field.bit_count
      → Gives MetadataFits (visit_any true expr field)
  unfolding visit_any
  visit_any-Fits (ident name) field h = Gives-ident name field h
  visit_any-Fits (template expr arg) field h =
      Gives-template expr (visit_any true arg field) field h (visit_any-Fits arg field h)
  visit_any-Fits (array expr len) field h =
      Gives-array expr (visit_any true expr field) len (visit_any-Fits expr field h)
  visit_any-Fits (pointer expr) field h = Gives-ok (tt, tt)
  visit_any-Fits (lit l) field h = Gives-panic

  -- In a build with overflow checks and debug assertions, if a field whose bit count is none or not
  -- negative gets its metadata, then the bits of its decoder, and of the decoder of its items, fit the
  -- seeks of `skip_bits`.
  pub get_field_metadata-Fits :
      (c : Charsor) (field : FieldProperties f) (var_type : List ℕ) (m : FieldMetadata f)
      → BitCountFits field.bit_count
      → get_field_metadata true c field var_type ≡ ok m
      → MetadataFits m
  unfolding get_field_metadata
  get_field_metadata-Fits c field var_type m h e =
      let (expr, _, r) = >>=-eq-ok (map_err var_type_parse_error (parse c true var_type)) _ e in
      (visit_any-Fits expr field h).given m r
