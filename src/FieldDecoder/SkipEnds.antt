-- ===== src/FieldDecoder/SkipEnds.antt =====
-- `skip_bits` of crates/haste_core/src/fielddecoder.rs ends.
use haste.Prelude.{ℕ, zero, suc, ◌+◌, Bool, true, false, if◌then◌else◌}
use haste.Outcome.{Outcome, ok, err, panic, stuck, Result, success, failure}
use haste.Settles.{Settles, Any, Settles-bind}
use haste.Platform.{Platform, Documented, Positions}
use haste.BitReader.{
  BitReader, Read, ◌>>=◌, pure, num_bits_read, read_bool, read_uvarint32, read_uvarint64,
  read_varint64, skip_bits as skip_reader_bits, as_isize,
}
use haste.BitReader.FloatReaders.{read_bitcoord, read_bitvec3coord, read_bitvec3normal}
use haste.BitReader.Runs.{
  Runs, Moved, Runs-read_bool, Runs-read_uvarint32, Runs-read_uvarint64, Runs-read_varint64,
  Runs-read_bitcoord, Runs-read_bitvec3coord, Runs-read_bitvec3normal,
}
use haste.Machine.{add_usize, sub_usize, mul_usize, checked}
use haste.QuantizedFloat.{
  QuantizedFloat, has, counted_bit, qfe_rounddown, qfe_roundup, qfe_encode_zero_exactly,
  skip_bits as skip_bits_quantized,
}
use haste.FieldDecoder.{
  InternalF32Decoder, simulation_time, coord, normal, no_scale, quantized, FieldDecoder,
  invalid_decoder, i64_decoder, u64_decoder, u64_fixed64_decoder, bool_decoder, string_decoder,
  f32_decoder, vector3_decoder, vector3_normal_decoder, vector2_decoder, vector4_decoder,
  qangle_pitch_yaw_decoder, qangle_no_bit_count_decoder, qangle_precise_decoder,
  qangle_bit_count_decoder, skip_bits_f32, skip_bits, measured, counted, total_of, skip_string,
}
use haste.FieldDecoder.Skips.{Ignores-string}
use haste.FieldDecoder.Kinds.{Runs-chars}
use haste.BitReader.Strings.{chars}

module _ {p : Platform} where
  -- The reader ends.
  abbrev pub Ends : {A : Type 0} → Read p A → Type 0
  Ends {A} m = (br : BitReader p) → Settles {E = p.Error} {A = A × BitReader p} Any (m br)

  pub Ends-Runs : {A : Type 0} {P : A → Type 0} (m : Read p A) → Runs P m → Ends m
  Ends-Runs {A} {P} m t br = onto (m br) (t.run br)
    where
      onto :
          (r : Outcome p.Error (A × BitReader p))
          → Moved P br r
          → Settles {E = p.Error} {A = A × BitReader p} Any r
      onto (ok r) h = tt
      onto (err e) h = tt
      onto panic h = tt
      onto stuck h = h

  Ends-bind :
      {A B : Type 0} (m : Read p A) (k : A → Read p B)
      → Ends m
      → ((a : A) → Ends (k a))
      → Ends (m >>= k)
  Ends-bind m k t u br = Settles-bind Any Any (m br) _ (t br) (λ r _. u r.0 r.1)

  Ends-checked : {A : Type 0} (fits : Bool) (x w : A) → Ends (checked {p = p} fits x w)
  Ends-checked {A} true x w br = tt
  Ends-checked {A} false x w br = either p.overflow_checks
    where
      either :
          (b : Bool)
          → Settles {E = p.Error} {A = A × BitReader p} Any
              ((if b then (λ c. panic) else pure {p = p} w) br)
      either true = tt
      either false = tt

  Ends-sub_usize : (a b : ℕ) → Ends (sub_usize {p = p} a b)
  unfolding sub_usize
  Ends-sub_usize a b = Ends-checked _ _ _

  Ends-add_usize : (a b : ℕ) → Ends (add_usize {p = p} a b)
  unfolding add_usize
  Ends-add_usize a b = Ends-checked _ _ _

  Ends-mul_usize : (a b : ℕ) → Ends (mul_usize {p = p} a b)
  unfolding mul_usize
  Ends-mul_usize a b = Ends-checked _ _ _

  Ends-skip : (n : ℕ) → Ends (skip_reader_bits {p = p} n)
  unfolding skip_reader_bits
  Ends-skip n br = either (p.seek_relative (as_isize n) br.inner)
    where
      either :
          (r : Result p.Error p.State)
          → Settles {E = p.Error} {A = Unit {0} × BitReader p} Any
              (elim r [ success s ↦ ok (tt, record br { inner = s }) | failure e ↦ err e ])
      either (success s) = tt
      either (failure e) = tt

  Ends-counted : (n : ℕ) → Ends (counted {p = p} n)
  Ends-counted n = Ends-bind (skip_reader_bits n) _ (Ends-skip n) (λ u br. tt)

  Ends-measured : {A : Type 0} (m : Read p A) → Ends m → Ends (measured m)
  Ends-measured m t br =
      Settles-bind Any Any (m br) _ (t br)
        (λ r _. Ends-sub_usize (num_bits_read r.1) (num_bits_read br) r.1)

  Ends-total_of : (n : ℕ) (m : Read p ℕ) (total : ℕ) → Ends m → Ends (total_of n m total)
  Ends-total_of zero m total t = λ br. tt
  Ends-total_of (suc n) m total t = Ends-bind m _ t (λ k.
      Ends-bind (add_usize total k) _ (Ends-add_usize total k)
        (λ total'. Ends-total_of n m total' t))

  Ends-angles : (n times : ℕ) → Ends (do bits ← mul_usize {p = p} n times; counted bits)
  Ends-angles n times = Ends-bind (mul_usize n times) _ (Ends-mul_usize n times) Ends-counted

module _ {p : Platform} (d : Documented p) (q : Positions p) where
  flag :
      {B : Type 0} (k : Bool → Read p B)
      → ((b : Bool) → Ends (k b))
      → Ends (read_bool {p = p} >>= k)
  flag k h = Ends-bind read_bool k (Ends-Runs read_bool (Runs-read_bool q)) h

  Ends-counted_bit :
      (qf : QuantizedFloat p.floats) (mask bits : ℕ) → Ends (counted_bit {p = p} qf mask bits)
  Ends-counted_bit qf mask bits = either (has qf.encode_flags mask)
    where
      either :
          (b : Bool)
          → Ends {A = ℕ × Bool}
              (if b then (do x ← read_bool {p = p}; pure (bits + 1, x)) else pure (bits, false))
      either true = flag _ (λ b br. tt)
      either false = λ br. tt

  Ends-if :
      {A : Type 0} (b : Bool) (m m' : Read p A) → Ends m → Ends m' → Ends (if b then m else m')
  Ends-if true m m' t u = t
  Ends-if false m m' t u = u

  Ends-quantized : (qf : QuantizedFloat p.floats) → Ends (skip_bits_quantized {p = p} qf)
  unfolding skip_bits_quantized
  Ends-quantized qf = Ends-bind _ _ (Ends-counted_bit qf qfe_rounddown 0) (λ r.
      Ends-if r.1 _ _ (λ br. tt)
        (Ends-bind _ _ (Ends-counted_bit qf qfe_roundup r.0) (λ s.
          Ends-if s.1 _ _ (λ br. tt)
            (Ends-bind _ _ (Ends-counted_bit qf qfe_encode_zero_exactly s.0) (λ t.
              Ends-if t.1 _ _ (λ br. tt) (Ends-bind _ _ (Ends-skip qf.bit_count) (λ u br. tt)))))))

  Ends-f32 : (k : InternalF32Decoder p.floats) → Ends (skip_bits_f32 {p = p} k)
  unfolding skip_bits_f32
  Ends-f32 simulation_time =
      Ends-measured read_uvarint32 (Ends-Runs read_uvarint32 (Runs-read_uvarint32 q))
  Ends-f32 coord = Ends-measured read_bitcoord (Ends-Runs read_bitcoord (Runs-read_bitcoord q))
  Ends-f32 normal = Ends-counted 12
  Ends-f32 no_scale = Ends-counted 32
  Ends-f32 (quantized qf) = Ends-quantized qf

  Ends-string : Ends (skip_string {p = p})
  Ends-string br = rw (Ignores-string br) (
      Settles-bind Any Any (chars false br) _ (Ends-Runs (chars false) (Runs-chars d q) br)
        (λ r _. tt))

  -- `skip_bits` of every decoder ends.
  pub Ends-skip_bits : (dec : FieldDecoder p.floats) → Ends (skip_bits {p = p} dec)
  unfolding skip_bits
  Ends-skip_bits invalid_decoder = λ br. tt
  Ends-skip_bits i64_decoder =
      Ends-measured read_varint64 (Ends-Runs read_varint64 (Runs-read_varint64 q))
  Ends-skip_bits u64_decoder =
      Ends-measured read_uvarint64 (Ends-Runs read_uvarint64 (Runs-read_uvarint64 q))
  Ends-skip_bits u64_fixed64_decoder = Ends-counted 64
  Ends-skip_bits bool_decoder = Ends-counted 1
  Ends-skip_bits string_decoder = Ends-measured skip_string Ends-string
  Ends-skip_bits (f32_decoder k) = Ends-f32 k
  Ends-skip_bits (vector3_decoder k) = Ends-total_of 3 (skip_bits_f32 k) 0 (Ends-f32 k)
  Ends-skip_bits vector3_normal_decoder =
      Ends-measured read_bitvec3normal (Ends-Runs read_bitvec3normal (Runs-read_bitvec3normal q))
  Ends-skip_bits (vector2_decoder k) = Ends-total_of 2 (skip_bits_f32 k) 0 (Ends-f32 k)
  Ends-skip_bits (vector4_decoder k) = Ends-total_of 4 (skip_bits_f32 k) 0 (Ends-f32 k)
  Ends-skip_bits (qangle_pitch_yaw_decoder n) = Ends-angles n 2
  Ends-skip_bits qangle_no_bit_count_decoder =
      Ends-measured read_bitvec3coord (Ends-Runs read_bitvec3coord (Runs-read_bitvec3coord q))
  Ends-skip_bits qangle_precise_decoder =
      flag _ (λ rx. flag _ (λ ry. flag _ (λ rz. Ends-bind _ _ (Ends-skip _) (λ u br. tt))))
  Ends-skip_bits (qangle_bit_count_decoder n) = Ends-angles n 3
