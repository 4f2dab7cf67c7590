-- ===== src/FieldDecoder.antt =====
-- crates/haste_core/src/fielddecoder.rs. The structs that implement `FieldDecode` and
-- `InternalFieldDecode<f32>` are the constructors of two types, in place of the boxed trait objects;
-- a struct that only hands on to the one that it boxes is the boxed one. A `DecoderError` of a decode
-- is a wrapped `BitError`, which is the error of the reader.
pub mod Skips
pub mod Kinds
pub mod SkipBits
pub mod BitCounts
pub mod SkipEnds
use haste.Prelude.{
  ℕ, zero, suc, ◌+◌, ◌*◌, ◌%◌, ◌^◌, Bool, true, false, List, [], ◌∷◌, length, take, ltb, leb, ◌==◌,
  if◌then◌else◌,
}
use haste.Outcome.{panic, stuck, ◌>>=◌ as bind}
use haste.Platform.{Platform, Floats}
use haste.BitReader.{
  BitReader, Read, ◌>>=◌, ◌>>◌, pure, num_bits_left, num_bits_read, read_ubit64, read_bool,
  read_byte, read_bytes, read_uvarint32, read_uvarint64, read_varint64, read_string_to_end,
  skip_bits as skip_reader_bits,
}
use haste.BitReader.FloatReaders.{
  read_bitfloat, read_bitcoord, read_bitnormal, read_bitvec3coord, read_bitvec3normal,
  read_bitangle, flagged,
}
use haste.Machine.{add_usize, sub_usize, mul_usize}
use haste.QuantizedFloat.{
  QuantizedFloat, decode as decode_quantized, skip as skip_quantized,
  skip_bits as skip_bits_quantized,
}
use haste.QuantizedFloat.Skips.{ignore}
use haste.FieldValue.{FieldValue, i64, u64, f32, boolean, vector3, vector2, vector4, qangle, string}

pub record FieldDecodeContext (f : Floats) : Type 0 where
  pub tick_interval : f.F32
  pub string_buf : List ℕ

abbrev pub default_context : (f : Floats) → FieldDecodeContext f
default_context f = record { tick_interval = f.literal 0 0; string_buf = [] }

-- `Box<dyn InternalFieldDecode<f32>>`
pub data InternalF32Decoder (f : Floats) : Type 0 where
  simulation_time coord normal no_scale : InternalF32Decoder f
  quantized : QuantizedFloat f → InternalF32Decoder f

-- `Box<dyn FieldDecode>`
pub data FieldDecoder (f : Floats) : Type 0 where
  invalid_decoder i64_decoder u64_decoder u64_fixed64_decoder : FieldDecoder f
  bool_decoder string_decoder vector3_normal_decoder : FieldDecoder f
  f32_decoder vector3_decoder vector2_decoder vector4_decoder :
      InternalF32Decoder f → FieldDecoder f
  qangle_pitch_yaw_decoder qangle_bit_count_decoder : ℕ → FieldDecoder f
  qangle_no_bit_count_decoder qangle_precise_decoder : FieldDecoder f

-- `usize::from(b)`
abbrev pub from_bool : Bool → ℕ
from_bool b = if b then 1 else 0

abbrev pub from_le_bytes : List ℕ → ℕ
from_le_bytes [] = 0
from_le_bytes (b ∷ bs) = b + 256 * from_le_bytes bs

module _ {p : Platform} where
  unfoldable pub decode_f32 :
      InternalF32Decoder p.floats → FieldDecodeContext p.floats → Read p p.floats.F32
  decode_f32 simulation_time ctx = do
    v ← read_uvarint32
    pure (p.floats.mul (p.floats.of_ℕ v) ctx.tick_interval)
  decode_f32 coord ctx = read_bitcoord
  decode_f32 normal ctx = read_bitnormal
  decode_f32 no_scale ctx = read_bitfloat
  decode_f32 (quantized qf) ctx = decode_quantized qf

  -- The default is to decode and to throw the value away.
  unfoldable pub skip_f32 :
      InternalF32Decoder p.floats → FieldDecodeContext p.floats → Read p (Unit {0})
  unfolding decode_f32
  skip_f32 (quantized qf) ctx = skip_quantized qf
  skip_f32 simulation_time ctx = ignore (decode_f32 simulation_time ctx)
  skip_f32 coord ctx = ignore (decode_f32 coord ctx)
  skip_f32 normal ctx = ignore (decode_f32 normal ctx)
  skip_f32 no_scale ctx = ignore (decode_f32 no_scale ctx)

  -- `let start = br.num_bits_read(); ..; Ok(br.num_bits_read() - start)`
  abbrev pub measured : {A : Type 0} → Read p A → Read p ℕ
  measured m br = bind (m br) (λ r. sub_usize {p = p} (num_bits_read r.1) (num_bits_read br) r.1)

  -- Goes over `n` bits, and returns their number.
  abbrev pub counted : ℕ → Read p ℕ
  counted n = do skip_reader_bits n; pure n

  unfoldable pub skip_bits_f32 : InternalF32Decoder p.floats → Read p ℕ
  skip_bits_f32 simulation_time = measured read_uvarint32
  skip_bits_f32 coord = measured read_bitcoord
  skip_bits_f32 normal = counted 12
  skip_bits_f32 no_scale = counted 32
  skip_bits_f32 (quantized qf) = skip_bits_quantized qf

  -- A read for each component of a vector.
  abbrev pub twice : {A : Type 0} → Read p A → Read p (A × A)
  twice m = do x ← m; y ← m; pure (x, y)

  abbrev pub thrice : {A : Type 0} → Read p A → Read p (A × A × A)
  thrice m = do x ← m; y ← m; z ← m; pure (x, y, z)

  abbrev pub four_times : {A : Type 0} → Read p A → Read p (A × A × A × A)
  four_times m = do x ← m; y ← m; z ← m; w ← m; pure (x, y, z, w)

  -- The three flags of `InternalQAnglePreciseDecoder`, then a read for each that is set.
  abbrev pub precise : {A : Type 0} → (Bool → Bool → Bool → Read p A) → Read p A
  precise k = do rx ← read_bool; ry ← read_bool; rz ← read_bool; k rx ry rz

  abbrev pub precise_value :
      Bool → Bool → Bool → Read p (p.floats.F32 × p.floats.F32 × p.floats.F32)
  precise_value rx ry rz = do
    x ← flagged rx (read_bitangle 20)
    y ← flagged ry (read_bitangle 20)
    z ← flagged rz (read_bitangle 20)
    pure (x, y, z)

  abbrev pub when_set : Bool → Read p (Unit {0}) → Read p (Unit {0})
  when_set flag m = if flag then m else pure tt

  -- The assertion on the buffer, the string in the buffer, and the buffer cleared; the slice
  -- `[..n]` panics where it is out of range.
  abbrev pub decode_string :
      FieldDecodeContext p.floats → Read p (FieldValue p.floats × FieldDecodeContext p.floats)
  decode_string ctx =
      if length ctx.string_buf == 0
      then (do
        (n, buf) ← read_string_to_end ctx.string_buf false
        if leb n (length buf)
            then pure (string (take n buf), record ctx { string_buf = [] })
            else λ br. panic)
      else λ br. panic

  -- A decoder that leaves the context alone.
  abbrev pub value :
      {A : Type 0}
      → FieldDecodeContext p.floats
      → (A → FieldValue p.floats)
      → Read p A
      → Read p (FieldValue p.floats × FieldDecodeContext p.floats)
  value ctx make m = do a ← m; pure (make a, ctx)

  unfoldable pub decode :
      FieldDecoder p.floats
      → FieldDecodeContext p.floats
      → Read p (FieldValue p.floats × FieldDecodeContext p.floats)
  unfolding decode_f32
  decode invalid_decoder ctx = λ br. panic
  decode i64_decoder ctx = value ctx i64 read_varint64
  decode u64_decoder ctx = value ctx u64 read_uvarint64
  decode u64_fixed64_decoder ctx =
      value ctx (λ buf. u64 (from_le_bytes buf)) (read_bytes (0 ∷ 0 ∷ 0 ∷ 0 ∷ 0 ∷ 0 ∷ 0 ∷ 0 ∷ []))
  decode bool_decoder ctx = value ctx boolean read_bool
  decode string_decoder ctx = decode_string ctx
  decode (f32_decoder k) ctx = value ctx f32 (decode_f32 k ctx)
  decode (vector3_decoder k) ctx = value ctx vector3 (thrice (decode_f32 k ctx))
  decode vector3_normal_decoder ctx = value ctx vector3 read_bitvec3normal
  decode (vector2_decoder k) ctx = value ctx vector2 (twice (decode_f32 k ctx))
  decode (vector4_decoder k) ctx = value ctx vector4 (four_times (decode_f32 k ctx))
  decode (qangle_pitch_yaw_decoder n) ctx =
      value ctx (λ xy. qangle (xy.0, xy.1, p.floats.literal 0 0)) (twice (read_bitangle n))
  decode qangle_no_bit_count_decoder ctx = value ctx qangle read_bitvec3coord
  decode qangle_precise_decoder ctx = value ctx qangle (precise precise_value)
  decode (qangle_bit_count_decoder n) ctx = value ctx qangle (thrice (read_bitangle n))

  -- The loop over the bytes of a string, up to its terminator.
  unfoldable pub skip_string_loop : ℕ → Read p (Unit {0})
  skip_string_loop zero = λ br. stuck
  skip_string_loop (suc fuel) = do
    val ← read_byte
    let rest = skip_string_loop fuel
    if val == 0 then pure tt else rest

  abbrev pub skip_string : Read p (Unit {0})
  skip_string br = skip_string_loop (num_bits_left br + 1) br

  abbrev pub skip_vector : ℕ → Read p (Unit {0}) → Read p (Unit {0})
  skip_vector zero m = pure tt
  skip_vector (suc n) m = do m; skip_vector n m

  -- The context is left alone.
  abbrev pub same_context :
      FieldDecodeContext p.floats → Read p (Unit {0}) → Read p (FieldDecodeContext p.floats)
  same_context ctx m = do m; pure ctx

  -- Where a decoder has no `skip` of its own, the default of the trait: decode, and drop the value.
  unfoldable pub skip :
      FieldDecoder p.floats → FieldDecodeContext p.floats → Read p (FieldDecodeContext p.floats)
  unfolding decode skip_f32 skip_string_loop
  skip string_decoder ctx = same_context ctx skip_string
  skip (f32_decoder k) ctx = same_context ctx (skip_f32 k ctx)
  skip (vector3_decoder k) ctx = same_context ctx (skip_vector 3 (skip_f32 k ctx))
  skip (vector2_decoder k) ctx = same_context ctx (skip_vector 2 (skip_f32 k ctx))
  skip (vector4_decoder k) ctx = same_context ctx (skip_vector 4 (skip_f32 k ctx))
  skip (qangle_pitch_yaw_decoder n) ctx = same_context ctx (skip_vector 2 (ignore (read_ubit64 n)))
  skip qangle_no_bit_count_decoder ctx = same_context ctx (ignore read_bitvec3coord)
  skip qangle_precise_decoder ctx = same_context ctx (
      precise (λ rx ry rz. do
        when_set rx (ignore (read_ubit64 20))
        when_set ry (ignore (read_ubit64 20))
        when_set rz (ignore (read_ubit64 20))
        pure tt))
  skip (qangle_bit_count_decoder n) ctx = same_context ctx (skip_vector 3 (ignore (read_ubit64 n)))
  skip d ctx = do r ← decode d ctx; pure r.1

  -- `total += self.decoder.skip_bits(br)?`, `n` times.
  abbrev pub total_of : ℕ → Read p ℕ → ℕ → Read p ℕ
  total_of zero m total = pure total
  total_of (suc n) m total = do k ← m; total' ← add_usize total k; total_of n m total'

  -- Three flags, then over the bits of those that are set.
  abbrev pub precise_bits : Bool → Bool → Bool → Read p ℕ
  precise_bits rx ry rz = do
    let value_bits = 20 * (from_bool rx + from_bool ry + from_bool rz)
    skip_reader_bits value_bits
    pure (3 + value_bits)

  -- How many bits it went over.
  unfoldable pub skip_bits : FieldDecoder p.floats → Read p ℕ
  unfolding skip_bits_f32 skip_string_loop
  skip_bits invalid_decoder = λ br. panic
  skip_bits i64_decoder = measured read_varint64
  skip_bits u64_decoder = measured read_uvarint64
  skip_bits u64_fixed64_decoder = counted 64
  skip_bits bool_decoder = counted 1
  skip_bits string_decoder = measured skip_string
  skip_bits (f32_decoder k) = skip_bits_f32 k
  skip_bits (vector3_decoder k) = total_of 3 (skip_bits_f32 k) 0
  skip_bits vector3_normal_decoder = measured read_bitvec3normal
  skip_bits (vector2_decoder k) = total_of 2 (skip_bits_f32 k) 0
  skip_bits (vector4_decoder k) = total_of 4 (skip_bits_f32 k) 0
  skip_bits (qangle_pitch_yaw_decoder n) = do bits ← mul_usize n 2; counted bits
  skip_bits qangle_no_bit_count_decoder = measured read_bitvec3coord
  skip_bits qangle_precise_decoder = precise precise_bits
  skip_bits (qangle_bit_count_decoder n) = do bits ← mul_usize n 3; counted bits
