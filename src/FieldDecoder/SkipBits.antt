-- ===== src/FieldDecoder/SkipBits.antt =====
-- Rules for the count that a `skip_bits` of crates/haste_core/src/fielddecoder.rs returns.
use haste.Prelude.{ℕ, ◌+◌, ◌-◌, ◌^◌, ◌<◌, ◌≡◌, refl, arith}
use haste.Outcome.{Outcome, ok}
use haste.Platform.{Platform, Floats, Advances}
use haste.BitReader.{BitReader, Read, ◌>>=◌, >>=-eq-ok, pure, num_bits_left, num_bits_read}
use haste.BitReader.Runs.{Runs, Moved}
use haste.BitReader.Seeks.{Seeks, skip_bits-Seeks}
use haste.Machine.{add_usize, sub_usize, add_usize_fits, sub_usize_fits}
use haste.FieldDecoder.{
  InternalF32Decoder, quantized, FieldDecoder, f32_decoder, vector3_decoder, vector2_decoder,
  vector4_decoder, qangle_pitch_yaw_decoder, qangle_bit_count_decoder, measured, counted,
}

-- The bits fit the integers of the seek.
abbrev pub F32Fits : {f : Floats} → InternalF32Decoder f → Type 0
F32Fits (quantized qf) = qf.bit_count < 2 ^ 63
F32Fits k = Unit {0}

abbrev pub Fits : {f : Floats} → FieldDecoder f → Type 0
Fits (f32_decoder k) = F32Fits k
Fits (vector3_decoder k) = F32Fits k
Fits (vector2_decoder k) = F32Fits k
Fits (vector4_decoder k) = F32Fits k
Fits (qangle_pitch_yaw_decoder n) = n < 2 ^ 60
Fits (qangle_bit_count_decoder n) = n < 2 ^ 60
Fits dec = Unit {0}

module _ {p : Platform} where
  -- A count, the reader behind, and what the count says.
  abbrev pub Passed : BitReader p → BitReader p → Outcome p.Error (ℕ × BitReader p) → Type 0
  Passed br br' r = (n : ℕ) × (r ≡ ok (n, br')) × (num_bits_left br' + n ≡ num_bits_left br)

  -- `s` goes over the bits that `m` reads, and returns their number.
  pub record Over {A : Type 0} (m : Read p A) (s : Read p ℕ) : Type 0 where
    pub passes :
        (br : BitReader p) (v : A) (br' : BitReader p)
        → num_bits_left br < 2 ^ 64
        → m br ≡ ok (v, br')
        → Passed br br' (s br)

  pub Over-map :
      {A B : Type 0} (f : A → B) {m : Read p A} {s : Read p ℕ}
      → Over m s
      → Over (do a ← m; pure (f a)) s
  Over-map {A} {B} f {m} {s} t = record {
    passes = λ br v br' room h. after br v br' room (>>=-eq-ok m _ br h);
  }
    where
      after :
          (br : BitReader p) (v : B) (br' : BitReader p)
          → num_bits_left br < 2 ^ 64
          → (a : A) × (br1 : BitReader p) × (m br ≡ ok (a, br1))
            × (pure {p = p} (f a) br1 ≡ ok (v, br'))
          → Passed br br' (s br)
      after br v br' room (a, br1, e, r) =
          let same : br1 ≡ br' = cc in rw (← same) (t.passes br a br1 room e)

  pub Over-counted :
      {A : Type 0} (n : ℕ) {m : Read p A} → n < 2 ^ 63 → Seeks n m → Over m (counted n)
  Over-counted n small t = record {
    passes = λ br v br' room h.
        let s = t.sought br v br' h in (n, rw (skip_bits-Seeks n br br' s small) refl, s.1);
  }

  -- Where `s` comes to the same reader as `m`.
  pub Over-measured :
      {A B : Type 0} {P : A → Type 0} {m : Read p A} (s : Read p B)
      → Runs P m
      → ((br : BitReader p) (v : A) (br' : BitReader p)
          → m br ≡ ok (v, br')
          → (b : B) × (s br ≡ ok (b, br')))
      → Over m (measured s)
  Over-measured {A} {B} {P} {m} s t e = record {
    passes = λ br v br' room h. at_result br v br' h (t.run br);
  }
    where
      counts :
          (br br' : BitReader p)
          → Advances p br.inner br'.inner
          → Passed br br' (sub_usize {p = p} (num_bits_read br') (num_bits_read br) br')
      counts br br' (x, y) = (
        num_bits_read br' - num_bits_read br,
        sub_usize_fits (num_bits_read br') (num_bits_read br) br' (omega arith),
        omega arith,
      )

      at_result :
          (br : BitReader p) (v : A) (br' : BitReader p)
          → m br ≡ ok (v, br')
          → Moved P br (m br)
          → Passed br br' (measured s br)
      at_result br v br' h moved =
          let (b, same) = e br v br' h in rw same (counts br br' (rw h at moved).1)

  -- The counts of the parts add up, from any total that leaves room.
  pub record Totals {A : Type 0} (m : Read p A) (s : ℕ → Read p ℕ) : Type 0 where
    pub adds :
        (total : ℕ) (br : BitReader p) (v : A) (br' : BitReader p)
        → total + num_bits_left br < 2 ^ 64
        → m br ≡ ok (v, br')
        → (n : ℕ) × (s total br ≡ ok (total + n, br')) × (num_bits_left br' + n ≡ num_bits_left br)

  pub Totals-pure : {A : Type 0} (v : A) → Totals (pure {p = p} v) (λ total. pure total)
  Totals-pure v = record {
    adds = λ total br w br' room h.
        let same : br ≡ br' = cc in
        let whole : total + 0 ≡ total = omega arith in
        (0, rw (← same, whole) refl, rw (← same) (omega arith));
  }

  pub Totals-bind :
      {A B : Type 0} {m : Read p A} {k : A → Read p B} {s : Read p ℕ} {t : ℕ → Read p ℕ}
      → Over m s
      → ((a : A) → Totals (k a) t)
      → Totals (m >>= k) (λ total. do n ← s; total' ← add_usize total n; t total')
  Totals-bind {A} {B} {m} {k} {s} {t} o f = record {
    adds = λ total br v br' room h. after total br v br' room (>>=-eq-ok m k br h);
  }
    where
      after :
          (total : ℕ) (br : BitReader p) (v : B) (br' : BitReader p)
          → total + num_bits_left br < 2 ^ 64
          → (a : A) × (br1 : BitReader p) × (m br ≡ ok (a, br1)) × (k a br1 ≡ ok (v, br'))
          → (n : ℕ) × ((do n ← s; total' ← add_usize total n; t total') br ≡ ok (total + n, br'))
            × (num_bits_left br' + n ≡ num_bits_left br)
      after total br v br' room (a, br1, e, r) =
          let (n, at, left) = o.passes br a br1 (omega arith) e in
          let (n', at', left') = (f a).adds (total + n) br1 v br' (omega arith) r in
          let sum : total + (n + n') ≡ total + n + n' = omega arith in
          (n + n', rw (at, add_usize_fits total n br1 (omega arith), at', sum) refl, omega arith)
