-- ===== src/FieldDecoder/BitCounts.antt =====
-- `skip_bits` of every decoder of crates/haste_core/src/fielddecoder.rs and its `decode`.
use haste.Prelude.{ℕ, ◌+◌, ◌*◌, ◌^◌, ◌<◌, ◌≡◌, refl, arith, Bool, false, if◌then◌else◌}
use haste.Outcome.{ok}
use haste.Platform.{Platform, Documented, Positions}
use haste.BitReader.{BitReader, Read, ◌>>=◌, >>=-eq-ok, num_bits_left, read_bool, read_uvarint32}
use haste.BitReader.Takes.{read_bool_left}
use haste.BitReader.FloatReaders.{read_bitangle, read_bitcoord}
use haste.BitReader.Runs.{
  Runs, Runs-read_uvarint32, Runs-read_uvarint64, Runs-read_varint64, Runs-read_bitcoord,
  Runs-read_bitvec3coord, Runs-read_bitvec3normal,
}
use haste.BitReader.Seeks.{
  Seeks, Seeks-bind, Seeks-pure, Seeks-eq, Seeks-flagged, Seeks-read_bool, Seeks-read_bytes,
  Seeks-read_bitangle, Seeks-read_bitnormal, Seeks-read_bitfloat, skip_bits-Seeks,
}
use haste.BitReader.Strings.{chars}
use haste.Machine.{mul_usize, mul_usize_fits}
use haste.QuantizedFloat.Skips.{skip_bits-decode as skip_bits-decode_quantized}
use haste.FieldValue.{FieldValue, i64, u64, f32, boolean, vector3, vector2, vector4, qangle, string}
use haste.FieldDecoder.{
  FieldDecodeContext, InternalF32Decoder, simulation_time, coord, normal, no_scale, quantized,
  FieldDecoder, invalid_decoder, i64_decoder, u64_decoder, u64_fixed64_decoder, bool_decoder,
  string_decoder, f32_decoder, vector3_decoder, vector3_normal_decoder, vector2_decoder,
  vector4_decoder, qangle_pitch_yaw_decoder, qangle_no_bit_count_decoder, qangle_precise_decoder,
  qangle_bit_count_decoder, decode_f32, skip_bits_f32, decode, skip_bits, value, measured, counted,
  total_of, precise, precise_value, precise_bits, from_bool, twice, thrice, four_times, skip_string,
}
use haste.FieldDecoder.Skips.{IsClean, Ignores-string, decode_string-chars}
use haste.FieldDecoder.Kinds.{Runs-chars}
use haste.FieldDecoder.SkipBits.{
  F32Fits, Fits, Passed, Over, Over-map, Over-counted, Over-measured, Totals, Totals-pure,
  Totals-bind,
}

module _ {p : Platform} (d : Documented p) (q : Positions p) where
  Over-Totals : {A : Type 0} {m : Read p A} (s : ℕ → Read p ℕ) → Totals m s → Over m (s 0)
  Over-Totals s t = record {
    passes = λ br v br' room h.
        let (n, at, left) = t.adds 0 br v br' (omega arith) h in
        let whole : 0 + n ≡ n = omega arith in (n, rw whole at at, left);
  }

  Over-twice : {m : Read p p.floats.F32} (s : Read p ℕ) → Over m s → Over (twice m) (total_of 2 s 0)
  Over-twice s o =
      Over-Totals (total_of 2 s) (Totals-bind o (λ x. Totals-bind o (λ y. Totals-pure (x, y))))

  Over-thrice :
      {m : Read p p.floats.F32} (s : Read p ℕ) → Over m s → Over (thrice m) (total_of 3 s 0)
  Over-thrice s o =
      Over-Totals (total_of 3 s)
        (Totals-bind o (λ x. Totals-bind o (λ y. Totals-bind o (λ z. Totals-pure (x, y, z)))))

  Over-four_times :
      {m : Read p p.floats.F32} (s : Read p ℕ) → Over m s → Over (four_times m) (total_of 4 s 0)
  Over-four_times s o = Over-Totals (total_of 4 s) (
      Totals-bind o (λ x.
        Totals-bind o (λ y. Totals-bind o (λ z. Totals-bind o (λ w. Totals-pure (x, y, z, w))))))

  -- As many angles as the factor says.
  Over-angles :
      {A : Type 0} (n times : ℕ) {m : Read p A}
      → n * times < 2 ^ 63
      → Seeks (n * times) m
      → Over m (do bits ← mul_usize n times; counted bits)
  Over-angles n times small t = record {
    passes = λ br v br' room h.
        rw (mul_usize_fits n times br (omega arith))
          ((Over-counted (n * times) small t).passes br v br' room h);
  }

  Seeks-precise_value :
      (rx ry rz : Bool)
      → Seeks (20 * (from_bool rx + from_bool ry + from_bool rz)) (precise_value {p = p} rx ry rz)
  Seeks-precise_value rx ry rz = Seeks-eq _ _ (sum rx ry rz) (
      Seeks-bind d q _ _ (Seeks-flagged d q 20 rx angle) (λ x.
        Seeks-bind d q _ _ (Seeks-flagged d q 20 ry angle) (λ y.
          Seeks-bind d q _ 0 (Seeks-flagged d q 20 rz angle) (λ z. Seeks-pure d q (x, y, z)))))
    where
      angle : Seeks 20 (read_bitangle {p = p} 20)
      angle = Seeks-read_bitangle d q 20

      sum :
          (rx ry rz : Bool)
          → (if rx then 20 else 0) + ((if ry then 20 else 0) + ((if rz then 20 else 0) + 0))
            ≡ 20 * (from_bool rx + from_bool ry + from_bool rz)
      sum rx ry rz = ground arith

  Seeks-two_angles : (n : ℕ) → Seeks (n * 2) (twice (read_bitangle {p = p} n))
  Seeks-two_angles n = Seeks-eq (n + (n + 0)) _ (omega arith) (
      Seeks-bind d q n (n + 0) (Seeks-read_bitangle d q n)
        (λ x. Seeks-bind d q n 0 (Seeks-read_bitangle d q n) (λ y. Seeks-pure d q (x, y))))

  Seeks-three_angles : (n : ℕ) → Seeks (n * 3) (thrice (read_bitangle {p = p} n))
  Seeks-three_angles n = Seeks-eq (n + (n + (n + 0))) _ (omega arith) (
      Seeks-bind d q n (n + (n + 0)) (Seeks-read_bitangle d q n) (λ x.
        Seeks-bind d q n (n + 0) (Seeks-read_bitangle d q n)
          (λ y. Seeks-bind d q n 0 (Seeks-read_bitangle d q n) (λ z. Seeks-pure d q (x, y, z)))))

  Over-precise : Over (precise (precise_value {p = p})) (precise precise_bits)
  Over-precise = record { passes = λ br v br' room h. first br v br' (>>=-eq-ok read_bool _ br h) }
    where
      third :
          (rx ry rz : Bool) (br : BitReader p) (v : p.floats.F32 × p.floats.F32 × p.floats.F32)
          (br' : BitReader p)
          → precise_value rx ry rz br ≡ ok (v, br')
          → (n : ℕ) × (precise_bits rx ry rz br ≡ ok (n, br'))
            × (num_bits_left br' + n ≡ num_bits_left br + 3)
      third rx ry rz br v br' h =
          let bits = 20 * (from_bool rx + from_bool ry + from_bool rz) in
          let small : bits < 2 ^ 63 = ground arith in
          let t = (Seeks-precise_value rx ry rz).sought br v br' h in
          (3 + bits, rw (skip_bits-Seeks bits br br' t small) refl, omega (arith, t.1))

      first :
          (br : BitReader p) (v : p.floats.F32 × p.floats.F32 × p.floats.F32) (br' : BitReader p)
          → (rx : Bool) × (br1 : BitReader p) × (read_bool br ≡ ok (rx, br1))
            × ((do ry ← read_bool; rz ← read_bool; precise_value rx ry rz) br1 ≡ ok (v, br'))
          → Passed br br' (precise precise_bits br)
      first br v br' (rx, br1, e1, r1) =
          let (ry, br2, e2, r2) = >>=-eq-ok read_bool _ br1 r1 in
          let (rz, br3, e3, r3) = >>=-eq-ok read_bool _ br2 r2 in
          let (n, at, left) = third rx ry rz br3 v br' r3 in
          (
            n,
            rw (e1, e2, e3) at,
            omega (
              arith,
              left,
              read_bool_left d br e1,
              read_bool_left d br1 e2,
              read_bool_left d br2 e3,
            ),
          )

  Over-f32 :
      (k : InternalF32Decoder p.floats) (ctx : FieldDecodeContext p.floats)
      → F32Fits k
      → Over (decode_f32 {p = p} k ctx) (skip_bits_f32 k)
  unfolding decode_f32 skip_bits_f32
  Over-f32 simulation_time ctx fits =
      Over-map _ (Over-measured read_uvarint32 (Runs-read_uvarint32 q) (λ br v br' h. (v, h)))
  Over-f32 coord ctx fits =
      Over-measured read_bitcoord (Runs-read_bitcoord q) (λ br v br' h. (v, h))
  Over-f32 normal ctx fits = Over-counted 12 (omega arith) (Seeks-read_bitnormal d q)
  Over-f32 no_scale ctx fits = Over-counted 32 (omega arith) (Seeks-read_bitfloat d q)
  Over-f32 (quantized qf) ctx fits = record {
    passes = λ br v br' room h. skip_bits-decode_quantized d qf br fits h;
  }

  self_measured :
      {A : Type 0} {P : A → Type 0} (ctx : FieldDecodeContext p.floats)
      (make : A → FieldValue p.floats) (m : Read p A)
      → Runs P m
      → Over (value ctx make m) (measured m)
  self_measured ctx make m t =
      Over-map (λ a. (make a, ctx)) (Over-measured m t (λ br v br' h. (v, h)))

  valued :
      {A : Type 0} (ctx : FieldDecodeContext p.floats) (make : A → FieldValue p.floats)
      {m : Read p A} {s : Read p ℕ}
      → Over m s
      → Over (value ctx make m) s
  valued ctx make o = Over-map (λ a. (make a, ctx)) o

  decode-Over :
      (dec : FieldDecoder p.floats) (ctx : FieldDecodeContext p.floats)
      → IsClean ctx
      → Fits dec
      → Over (decode {p = p} dec ctx) (skip_bits dec)
  unfolding decode skip_bits
  decode-Over invalid_decoder ctx c fits = record { passes = λ br v br' room h. absurd (cc) }
  decode-Over i64_decoder ctx c fits = self_measured ctx i64 _ (Runs-read_varint64 q)
  decode-Over u64_decoder ctx c fits = self_measured ctx u64 _ (Runs-read_uvarint64 q)
  decode-Over u64_fixed64_decoder ctx c fits =
      valued ctx _ (Over-counted 64 (omega arith) (Seeks-read_bytes d q _))
  decode-Over bool_decoder ctx c fits =
      valued ctx boolean (Over-counted 1 (omega arith) (Seeks-read_bool d q))
  decode-Over string_decoder ctx c fits = record {
    passes = λ br v br' room h.
        string_measured.passes br v br' room (rw (decode_string-chars ctx br c) at h);
  }
    where
      string_measured : Over (value {p = p} ctx string (chars false)) (measured skip_string)
      string_measured = valued ctx string (
          Over-measured skip_string (Runs-chars d q)
            (λ br v br' h. (tt, rw (Ignores-string br, h) refl)))
  decode-Over (f32_decoder k) ctx c fits = valued ctx f32 (Over-f32 k ctx fits)
  decode-Over (vector3_decoder k) ctx c fits =
      valued ctx vector3 (Over-thrice _ (Over-f32 k ctx fits))
  decode-Over vector3_normal_decoder ctx c fits =
      self_measured ctx vector3 _ (Runs-read_bitvec3normal q)
  decode-Over (vector2_decoder k) ctx c fits =
      valued ctx vector2 (Over-twice _ (Over-f32 k ctx fits))
  decode-Over (vector4_decoder k) ctx c fits =
      valued ctx vector4 (Over-four_times _ (Over-f32 k ctx fits))
  decode-Over (qangle_pitch_yaw_decoder n) ctx c fits =
      valued ctx _ (Over-angles n 2 (omega arith) (Seeks-two_angles n))
  decode-Over qangle_no_bit_count_decoder ctx c fits =
      self_measured ctx qangle _ (Runs-read_bitvec3coord q)
  decode-Over qangle_precise_decoder ctx c fits = valued ctx qangle Over-precise
  decode-Over (qangle_bit_count_decoder n) ctx c fits =
      valued ctx qangle (Over-angles n 3 (omega arith) (Seeks-three_angles n))

  -- If `decode` of a decoder succeeds with an empty buffer, the decoder's bits fit, and the bits
  -- left are a usize, then `skip_bits` leaves the same reader, and returns the number of bits that
  -- `decode` took.
  pub skip_bits-decode_decoder :
      (dec : FieldDecoder p.floats) (ctx : FieldDecodeContext p.floats) (br : BitReader p)
      {r : FieldValue p.floats × FieldDecodeContext p.floats} {br' : BitReader p}
      → IsClean ctx
      → Fits dec
      → num_bits_left br < 2 ^ 64
      → decode dec ctx br ≡ ok (r, br')
      → (n : ℕ) × (skip_bits dec br ≡ ok (n, br')) × (num_bits_left br' + n ≡ num_bits_left br)
  skip_bits-decode_decoder dec ctx br {r} {br'} c fits room h =
      (decode-Over dec ctx c fits).passes br r br' room h
