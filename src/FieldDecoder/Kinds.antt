-- ===== src/FieldDecoder/Kinds.antt =====
-- The values that the decoders of crates/haste_core/src/fielddecoder.rs give, and that they end.
use haste.Prelude.{
  ℕ, zero, suc, ◌+◌, ◌≡◌, refl, arith, Bool, true, false, List, [], ◌∷◌, if◌then◌else◌,
}
use haste.Outcome.{Outcome, ok, err, panic, stuck, success}
use haste.Platform.{Platform, Floats, Documented, Positions, Advances}
use haste.BitReader.{
  BitReader, Read, ◌>>=◌, >>=-eq-ok, pure, read_byte, num_bits_left, ends_string, delegate-eq-ok,
}
use haste.BitReader.Keeps.{Any, Post}
use haste.BitReader.Strings.{chars, chars_loop}
use haste.BitReader.Strings.Terminated.{AllChars, chars-Post}
use haste.BitReader.Runs.{
  Runs, Moved, Runs-bind, Runs-pure, Runs-panic, Runs-if, Runs-read_ubit64, Runs-read_bool,
  Runs-read_bytes, Runs-read_uvarint32, Runs-read_uvarint64, Runs-read_varint64, Runs-flagged,
  Runs-read_bitfloat, Runs-read_bitcoord, Runs-read_bitnormal, Runs-read_bitangle,
  Runs-read_bitvec3coord, Runs-read_bitvec3normal,
}
use haste.BitReader.FloatReaders.{flagged, read_bitangle}
use haste.QuantizedFloat.{QuantizedFloat, has, flag_bit, decode as decode_quantized}
use haste.FieldValue.{FieldValue, i64, u64, f32, boolean, vector3, vector2, vector4, qangle, string}
use haste.FieldDecoder.{
  FieldDecodeContext, InternalF32Decoder, simulation_time, coord, normal, no_scale, quantized,
  FieldDecoder, invalid_decoder, i64_decoder, u64_decoder, u64_fixed64_decoder, bool_decoder,
  string_decoder, f32_decoder, vector3_decoder, vector3_normal_decoder, vector2_decoder,
  vector4_decoder, qangle_pitch_yaw_decoder, qangle_no_bit_count_decoder, qangle_precise_decoder,
  qangle_bit_count_decoder, decode_f32, decode, value, precise_value, twice, thrice, four_times,
}
use haste.FieldDecoder.Skips.{IsClean, decode_string-chars}

-- The constructors of values that a decoder gives: which one, and that a string has no zero byte.
abbrev pub HasKind : {f : Floats} → FieldDecoder f → FieldValue f → Type 0
HasKind i64_decoder (i64 v) = Unit {0}
HasKind u64_decoder (u64 v) = Unit {0}
HasKind u64_fixed64_decoder (u64 v) = Unit {0}
HasKind bool_decoder (boolean v) = Unit {0}
HasKind string_decoder (string cs) = AllChars cs
HasKind (f32_decoder k) (f32 v) = Unit {0}
HasKind (vector3_decoder k) (vector3 v) = Unit {0}
HasKind vector3_normal_decoder (vector3 v) = Unit {0}
HasKind (vector2_decoder k) (vector2 v) = Unit {0}
HasKind (vector4_decoder k) (vector4 v) = Unit {0}
HasKind (qangle_pitch_yaw_decoder n) (qangle v) = Unit {0}
HasKind qangle_no_bit_count_decoder (qangle v) = Unit {0}
HasKind qangle_precise_decoder (qangle v) = Unit {0}
HasKind (qangle_bit_count_decoder n) (qangle v) = Unit {0}
HasKind d v = ⊥

-- A value of the decoder's kind, and the context as it was.
abbrev pub Decoded :
    {f : Floats}
    → FieldDecoder f
    → FieldDecodeContext f
    → FieldValue f × FieldDecodeContext f
    → Type 0
Decoded d ctx (v, ctx') = HasKind d v × (ctx' ≡ ctx)

module _ {p : Platform} (q : Positions p) where
  Runs-flag_bit : (qf : QuantizedFloat p.floats) (flag : ℕ) → Runs Any (flag_bit {p = p} qf flag)
  Runs-flag_bit qf flag =
      Runs-if (has qf.encode_flags flag) (λ _. Runs-read_bool q) (λ _. Runs-pure tt)

  Runs-quantized : (qf : QuantizedFloat p.floats) → Runs Any (decode_quantized {p = p} qf)
  unfolding decode_quantized
  Runs-quantized qf = Runs-bind (Runs-flag_bit qf _) (λ down _.
      Runs-if down (λ _. Runs-pure tt)
        (λ _. Runs-bind (Runs-flag_bit qf _) (λ up _.
          Runs-if up (λ _. Runs-pure tt)
            (λ _. Runs-bind (Runs-flag_bit qf _) (λ at_zero _.
              Runs-if at_zero (λ _. Runs-pure tt)
                (λ _. Runs-bind (Runs-read_ubit64 q qf.bit_count) (λ v _. Runs-pure tt)))))))

  pub Runs-decode_f32 :
      (k : InternalF32Decoder p.floats) (ctx : FieldDecodeContext p.floats)
      → Runs Any (decode_f32 {p = p} k ctx)
  unfolding decode_f32
  Runs-decode_f32 simulation_time ctx = Runs-bind (Runs-read_uvarint32 q) (λ v _. Runs-pure tt)
  Runs-decode_f32 coord ctx = Runs-read_bitcoord q
  Runs-decode_f32 normal ctx = Runs-read_bitnormal q
  Runs-decode_f32 no_scale ctx = Runs-read_bitfloat q
  Runs-decode_f32 (quantized qf) ctx = Runs-quantized qf

  Runs-twice : {m : Read p p.floats.F32} → Runs Any m → Runs Any (twice m)
  Runs-twice t = Runs-bind t (λ _ _. Runs-bind t (λ _ _. Runs-pure tt))

  Runs-thrice : {m : Read p p.floats.F32} → Runs Any m → Runs Any (thrice m)
  Runs-thrice t = Runs-bind t (λ _ _. Runs-bind t (λ _ _. Runs-bind t (λ _ _. Runs-pure tt)))

  Runs-four_times : {m : Read p p.floats.F32} → Runs Any m → Runs Any (four_times m)
  Runs-four_times t =
      Runs-bind t
        (λ _ _. Runs-bind t (λ _ _. Runs-bind t (λ _ _. Runs-bind t (λ _ _. Runs-pure tt))))

  Runs-precise_value : (rx ry rz : Bool) → Runs Any (precise_value {p = p} rx ry rz)
  Runs-precise_value rx ry rz =
      Runs-bind (angle rx)
        (λ _ _. Runs-bind (angle ry) (λ _ _. Runs-bind (angle rz) (λ _ _. Runs-pure tt)))
    where
      angle : (b : Bool) → Runs Any (flagged {p = p} b (read_bitangle 20))
      angle b = Runs-flagged q b (Runs-read_bitangle q 20)

  Advances-again :
      (br br1 br2 : BitReader p)
      → Advances p br.inner br1.inner
      → Advances p br1.inner br2.inner
      → Advances p br.inner br2.inner
  Advances-again br br1 br2 (x, y) (x', y') = (omega arith, omega arith)

  byte_of :
      (br : BitReader p) {v : ℕ} {br1 : BitReader p}
      → read_byte br ≡ ok (v, br1)
      → p.read_byte br.inner ≡ success (v, br1.inner)
  unfolding read_byte
  byte_of br e = delegate-eq-ok p.read_byte br e

  chars_loop-Advances :
      (fuel : ℕ) (br : BitReader p) {cs : List ℕ} {br' : BitReader p}
      → chars_loop fuel false br ≡ ok (cs, br')
      → Advances p br.inner br'.inner
  unfolding chars_loop
  chars_loop-Advances zero br h = absurd (cc)
  chars_loop-Advances (suc fuel) br {cs} {br'} h =
      let (val, br1, e, r) = >>=-eq-ok read_byte _ br h in
      Advances-again br br1 br' (q.read_byte_advances br.inner (byte_of br e))
        (ended (ends_string false val) val br1 r (λ cs1 br2 e2. chars_loop-Advances fuel br1 e2))
    where
      ended :
          (b : Bool) (val : ℕ) (br1 : BitReader p)
          → (if b then pure [] else (do rest ← chars_loop fuel false; pure (val ∷ rest))) br1
            ≡ ok (cs, br')
          → ((cs1 : List ℕ) (br2 : BitReader p)
              → chars_loop fuel false br1 ≡ ok (cs1, br2)
              → Advances p br1.inner br2.inner)
          → Advances p br1.inner br'.inner
      ended true val br1 r ih = let same : br1 ≡ br' = cc in rw same (omega arith, refl)
      ended false val br1 r ih =
          let (cs1, br2, e2, r2) = >>=-eq-ok (chars_loop fuel false) _ br1 r in
          let same : br2 ≡ br' = cc in rw (← same) (ih cs1 br2 e2)

module _ {p : Platform} (d : Documented p) (q : Positions p) where
  -- A string ends, has no zero byte, and counts its bits.
  pub Runs-chars : Runs AllChars (chars {p = p} false)
  unfolding chars
  Runs-chars = record { run = λ br. both br (chars false br) refl (chars-Post d false br) }
    where
      both :
          (br : BitReader p) (r : Outcome p.Error (List ℕ × BitReader p))
          → chars false br ≡ r
          → Post AllChars r
          → Moved AllChars br r
      both br (ok (cs, br')) e h = (h, chars_loop-Advances q (num_bits_left br + 1) br e)
      both br (err x) e h = tt
      both br panic e h = tt
      both br stuck e h = h

  valued :
      {A : Type 0} {P : A → Type 0} (dec : FieldDecoder p.floats)
      (ctx : FieldDecodeContext p.floats) (make : A → FieldValue p.floats) {m : Read p A}
      → Runs P m
      → ((a : A) → P a → HasKind dec (make a))
      → Runs (Decoded dec ctx) (value ctx make m)
  valued dec ctx make t h = Runs-bind t (λ a pa. Runs-pure (h a pa, refl))

  -- `decode` of every decoder ends, with an empty buffer. If it succeeds, the value is of the kind of
  -- the decoder (a string has no zero byte), the context is as it was, with the buffer empty again,
  -- and the reader has moved on by the bits that it counts.
  pub decode-Runs :
      (dec : FieldDecoder p.floats) (ctx : FieldDecodeContext p.floats)
      → IsClean ctx
      → Runs (Decoded dec ctx) (decode {p = p} dec ctx)
  unfolding decode
  decode-Runs invalid_decoder ctx c = Runs-panic
  decode-Runs i64_decoder ctx c = valued i64_decoder ctx i64 (Runs-read_varint64 q) (λ _ _. tt)
  decode-Runs u64_decoder ctx c = valued u64_decoder ctx u64 (Runs-read_uvarint64 q) (λ _ _. tt)
  decode-Runs u64_fixed64_decoder ctx c =
      valued u64_fixed64_decoder ctx _ (Runs-read_bytes q _) (λ _ _. tt)
  decode-Runs bool_decoder ctx c = valued bool_decoder ctx boolean (Runs-read_bool q) (λ _ _. tt)
  decode-Runs string_decoder ctx c = record {
    run = λ br.
        rw (decode_string-chars ctx br c)
          ((valued string_decoder ctx string Runs-chars (λ _ h. h)).run br);
  }
  decode-Runs (f32_decoder k) ctx c =
      valued (f32_decoder k) ctx f32 (Runs-decode_f32 q k ctx) (λ _ _. tt)
  decode-Runs (vector3_decoder k) ctx c =
      valued (vector3_decoder k) ctx vector3 (Runs-thrice q (Runs-decode_f32 q k ctx)) (λ _ _. tt)
  decode-Runs vector3_normal_decoder ctx c =
      valued vector3_normal_decoder ctx vector3 (Runs-read_bitvec3normal q) (λ _ _. tt)
  decode-Runs (vector2_decoder k) ctx c =
      valued (vector2_decoder k) ctx vector2 (Runs-twice q (Runs-decode_f32 q k ctx)) (λ _ _. tt)
  decode-Runs (vector4_decoder k) ctx c =
      valued (vector4_decoder k) ctx vector4 (Runs-four_times q (Runs-decode_f32 q k ctx))
        (λ _ _. tt)
  decode-Runs (qangle_pitch_yaw_decoder n) ctx c =
      valued (qangle_pitch_yaw_decoder n) ctx _ (Runs-twice q (Runs-read_bitangle q n)) (λ _ _. tt)
  decode-Runs qangle_no_bit_count_decoder ctx c =
      valued qangle_no_bit_count_decoder ctx qangle (Runs-read_bitvec3coord q) (λ _ _. tt)
  decode-Runs qangle_precise_decoder ctx c =
      valued qangle_precise_decoder ctx qangle
        (Runs-bind (Runs-read_bool q) (λ rx _.
          Runs-bind (Runs-read_bool q)
            (λ ry _. Runs-bind (Runs-read_bool q) (λ rz _. Runs-precise_value q rx ry rz))))
        (λ _ _. tt)
  decode-Runs (qangle_bit_count_decoder n) ctx c =
      valued (qangle_bit_count_decoder n) ctx qangle (Runs-thrice q (Runs-read_bitangle q n))
        (λ _ _. tt)
