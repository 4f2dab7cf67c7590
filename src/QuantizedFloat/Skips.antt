-- ===== src/QuantizedFloat/Skips.antt =====
-- The three ways over a quantized float of crates/haste_core/src/quantizedfloat.rs: `decode`, `skip`
-- and `skip_bits`.
use haste.Prelude.{
  ℕ, ◌+◌, ◌^◌, ◌<◌, ◌≡◌, refl, sym, ◌∙◌, arith, Bool, true, false, if◌then◌else◌, lt→ltb,
}
use haste.Outcome.{ok, Result, success, failure}
use haste.Platform.{Platform, Documented}
use haste.BitReader.{
  BitReader, Read, ◌>>=◌, ◌>>◌, >>=-assoc, >>=-ext, >>=-eq-ok, pure, read_ubit64, read_bool,
  num_bits_left, skip_bits as skip_reader_bits, delegate, delegate-eq-ok,
}
use haste.BitReader.Takes.{read_bool_left, read_ubit64_bounds}
use haste.QuantizedFloat.{
  QuantizedFloat, has, qfe_rounddown, qfe_roundup, qfe_encode_zero_exactly, flag_bit, counted_bit,
  skip_bits_from, decode, skip, skip_bits,
}

module _ {p : Platform} where
  -- A value that is thrown away.
  abbrev pub ignore : {A : Type 0} → Read p A → Read p (Unit {0})
  ignore m = m >>= λ _. pure tt

  ignored_flag :
      {A : Type 0} (m : Read p Bool) (a : A) (k : Read p A) (s : Read p (Unit {0}))
      → ((br : BitReader p) → s br ≡ ignore k br)
      → (br : BitReader p)
      → (do b ← m; if b then pure tt else s) br ≡ ignore (do b ← m; if b then pure a else k) br
  ignored_flag m a k s e br =
      >>=-ext m (λ b. if b then pure tt else s) (λ b. ignore (if b then pure a else k))
        (elim [ true ↦ λ br'. refl | false ↦ e ]) br
      ∙ sym (>>=-assoc m (λ b. if b then pure a else k) (λ _. pure tt) br)

  -- `skip` does what `decode` does, but for the value: the same reader, the same error.
  pub skip-decode :
      (qf : QuantizedFloat p.floats) (br : BitReader p) → skip qf br ≡ ignore (decode qf) br
  unfolding skip decode
  skip-decode qf = ignored_flag (flag_bit qf qfe_rounddown) _ _ _ (
      ignored_flag (flag_bit qf qfe_roundup) _ _ _ (
        ignored_flag (flag_bit qf qfe_encode_zero_exactly) _ _ _
          (λ br. sym (>>=-assoc (read_ubit64 qf.bit_count) _ (λ _. pure tt) br))))

  -- From any count, `s` goes over the bits that `m` reads, and adds their number.
  pub record Skips {A : Type 0} (m : Read p A) (s : ℕ → Read p ℕ) : Type 0 where
    pub skipped :
        (base : ℕ) (br : BitReader p) (v : A) (br' : BitReader p)
        → m br ≡ ok (v, br')
        → (n : ℕ) × (s base br ≡ ok (base + n, br')) × (num_bits_left br' + n ≡ num_bits_left br)

  Skips-pure : {A : Type 0} (a : A) → Skips (pure {p = p} a) (λ n. pure n)
  Skips-pure a = record {
    skipped = λ base br v br' h.
        let same : br ≡ br' = cc in (0, rw same (ground arith), rw same (omega arith));
  }

module _ {p : Platform} (d : Documented p) where
  Skips-flag :
      {A : Type 0} (qf : QuantizedFloat p.floats) (flag : ℕ) (k : Bool → Read p A)
      (s : ℕ × Bool → Read p ℕ)
      → ((b : Bool) → Skips (k b) (λ n. s (n, b)))
      → Skips (flag_bit qf flag >>= k) (λ n. counted_bit qf flag n >>= s)
  Skips-flag {A} qf flag k s t = either (has qf.encode_flags flag)
    where
      read_it :
          (base : ℕ) (br : BitReader p) (v : A) (br' : BitReader p)
          → (b : Bool) × (br1 : BitReader p) × (read_bool br ≡ ok (b, br1))
            × (k b br1 ≡ ok (v, br'))
          → (n : ℕ) × (((do b ← read_bool; pure (base + 1, b)) >>= s) br ≡ ok (base + n, br'))
            × (num_bits_left br' + n ≡ num_bits_left br)
      read_it base br v br' (b, br1, e, r) =
          let (n, at, left) = (t b).skipped (base + 1) br1 v br' r in
          (1 + n, rw e (at ∙ ground arith), omega (arith, read_bool_left d br e))

      either :
          (set : Bool)
          → Skips
              ((if set then read_bool else pure {p = p} false) >>= k)
              (λ n. (if set then (do b ← read_bool; pure (n + 1, b)) else pure (n, false)) >>= s)
      either true = record {
        skipped = λ base br v br' h. read_it base br v br' (>>=-eq-ok read_bool k br h);
      }
      either false = t false

  Skips-if :
      {A : Type 0} {m : Read p A} {s : ℕ → Read p ℕ} (a : A) (b : Bool)
      → Skips m s
      → Skips (if b then pure a else m) (λ n. if b then pure n else s n)
  Skips-if a true t = Skips-pure a
  Skips-if a false t = t

  skip_of_read :
      (n : ℕ) (br : BitReader p) {v : ℕ} {br' : BitReader p}
      → n < 2 ^ 63
      → read_ubit64 n br ≡ ok (v, br')
      → skip_reader_bits n br ≡ ok (tt, br')
  unfolding skip_reader_bits read_ubit64
  skip_of_read n br {v} {br'} small h =
      let e = d.seek_relative_of_read n br.inner (delegate-eq-ok (p.read_ubit64 n) br h) in
      rw (skip_reader_bits, lt→ltb n (2 ^ 63) small, e) (same_flag (p.read_ubit64 n br.inner) h)
    where
      same_flag :
          (r : Result p.Error (ℕ × p.State))
          → delegate {p = p} (λ s. r) br ≡ ok (v, br')
          → pure {p = p} tt (record br { inner = br'.inner }) ≡ ok (tt, br')
      same_flag (success (a, s)) e = let same : record br { inner = s } ≡ br' = cc in rw (← same)
      same_flag (failure x) e = absurd (cc)

  Skips-value :
      {A : Type 0} (n : ℕ) (join : ℕ → A)
      → n < 2 ^ 63
      → Skips
          (do v ← read_ubit64 {p = p} n; pure (join v))
          (λ base. do skip_reader_bits n; pure (base + n))
  Skips-value {A} n join small = record {
    skipped = λ base br v br' h. after base br v br' (>>=-eq-ok (read_ubit64 n) _ br h);
  }
    where
      after :
          (base : ℕ) (br : BitReader p) (v : A) (br' : BitReader p)
          → (u : ℕ) × (br1 : BitReader p) × (read_ubit64 n br ≡ ok (u, br1))
            × (pure {p = p} (join u) br1 ≡ ok (v, br'))
          → (m : ℕ) × ((do skip_reader_bits n; pure (base + n)) br ≡ ok (base + m, br'))
            × (num_bits_left br' + m ≡ num_bits_left br)
      after base br v br' (u, br1, e, r) =
          let same : br1 ≡ br' = cc in
          (n, rw (skip_of_read n br small e, same), rw (← same) (read_ubit64_bounds d n br e).1)

  decode-Skips :
      (qf : QuantizedFloat p.floats)
      → qf.bit_count < 2 ^ 63
      → Skips (decode {p = p} qf) (skip_bits_from qf)
  unfolding decode
  decode-Skips qf small = Skips-flag qf qfe_rounddown _ _ (λ down. Skips-if qf.low_value down (
      Skips-flag qf qfe_roundup _ _ (λ up. Skips-if qf.high_value up (
        Skips-flag qf qfe_encode_zero_exactly _ _
          (λ at_zero. Skips-if _ at_zero (Skips-value qf.bit_count _ small))))))

  -- If the decoding of a quantized float of fewer than 2 ^ 63 bits succeeds, skip_bits leaves the
  -- same reader, and its count is the number of bits that the decoding took.
  pub skip_bits-decode :
      (qf : QuantizedFloat p.floats) (br : BitReader p) {v : p.floats.F32} {br' : BitReader p}
      → qf.bit_count < 2 ^ 63
      → decode qf br ≡ ok (v, br')
      → (n : ℕ) × (skip_bits qf br ≡ ok (n, br')) × (num_bits_left br' + n ≡ num_bits_left br)
  unfolding skip_bits decode
  skip_bits-decode qf br small h =
      let (n, at, left) = (decode-Skips qf small).skipped 0 br _ _ h in (n, at ∙ ground arith, left)
