-- ===== src/BitReader/Seeks.antt =====
-- Readers of crates/haste_core/src/bitreader.rs that take a fixed number of bits, against a seek by
-- as many.
use haste.Prelude.{
  ℕ, ◌+◌, ◌*◌, ◌^◌, ◌<◌, ◌≡◌, refl, subst, arith, Bool, true, false, List, length, if◌then◌else◌,
  lt→ltb,
}
use haste.Prelude.Int.{pos}
use haste.Outcome.{ok, Result, success, failure}
use haste.Platform.{Platform, Documented, Positions}
use haste.BitReader.{
  BitReader, Read, ◌>>=◌, >>=-eq-ok, pure, throw, delegate, delegate-eq-ok, num_bits_left,
  read_ubit64, read_bool, read_bytes, try_into_u32, skip_bits,
}
use haste.BitReader.FloatReaders.{read_bitfloat, read_bitnormal, read_bitangle, flagged}

module _ {p : Platform} where
  -- The reader behind, but for its position, is the reader before.
  abbrev pub Sought : ℕ → BitReader p → BitReader p → Type 0
  Sought n br br' =
      (p.seek_relative (pos n) br.inner ≡ success br'.inner)
      × (num_bits_left br' + n ≡ num_bits_left br)
      × (br'.did_check_overflow ≡ br.did_check_overflow)

  pub record Seeks {A : Type 0} (n : ℕ) (m : Read p A) : Type 0 where
    pub sought :
        (br : BitReader p) (v : A) (br' : BitReader p) → m br ≡ ok (v, br') → Sought n br br'

  -- The flag is kept by a read that is delegated.
  delegate_flag :
      {A : Type 0} (read : p.State → Result p.Error (A × p.State)) (br : BitReader p) {v : A}
      {br' : BitReader p}
      → delegate {p = p} read br ≡ ok (v, br')
      → br'.did_check_overflow ≡ br.did_check_overflow
  delegate_flag {A} read br {v} {br'} e = at_result (read br.inner) e
    where
      at_result :
          (r : Result p.Error (A × p.State))
          → delegate {p = p} (λ s. r) br ≡ ok (v, br')
          → br'.did_check_overflow ≡ br.did_check_overflow
      at_result (success (a, s)) e = let same : record br { inner = s } ≡ br' = cc in rw (← same)
      at_result (failure x) e = absurd (cc)

  Seeks-delegate :
      {A : Type 0} (n : ℕ) (read : p.State → Result p.Error (A × p.State))
      → ((s : p.State) (v : A) (s' : p.State)
          → read s ≡ success (v, s')
          → (p.seek_relative (pos n) s ≡ success s') × (p.num_bits_left s' + n ≡ p.num_bits_left s))
      → Seeks n (delegate {p = p} read)
  Seeks-delegate n read h = record {
    sought = λ br v br' e.
        let (x, y) = h br.inner v br'.inner (delegate-eq-ok read br e) in
        (x, y, delegate_flag read br e);
  }

  pub Seeks-eq : {A : Type 0} (n n' : ℕ) {m : Read p A} → n ≡ n' → Seeks n m → Seeks n' m
  Seeks-eq n n' {m} e t = subst (λ k. Seeks k m) e t

  Seeks-if :
      {A : Type 0} {n : ℕ} (b : Bool) {m m' : Read p A}
      → Seeks n m
      → Seeks n m'
      → Seeks n (if b then m else m')
  Seeks-if true t u = t
  Seeks-if false t u = u

  Seeks-throw : {A : Type 0} {n : ℕ} {e : p.Error} → Seeks {A = A} n (throw {p = p} e)
  Seeks-throw = record { sought = λ br v br' h. absurd (cc) }

  -- What is skipped is what is read.
  pub skip_bits-Seeks :
      (n : ℕ) (br br' : BitReader p) → Sought n br br' → n < 2 ^ 63 → skip_bits n br ≡ ok (tt, br')
  unfolding skip_bits
  skip_bits-Seeks n br br' (e, left, flag) small =
      rw (skip_bits, lt→ltb n (2 ^ 63) small, e, ← flag) refl

module _ {p : Platform} (d : Documented p) (q : Positions p) where
  pub Seeks-pure : {A : Type 0} (v : A) → Seeks 0 (pure {p = p} v)
  Seeks-pure v = record {
    sought = λ br w br' h.
        let same : br ≡ br' = cc in rw (← same) (q.seek_relative_none br.inner, omega arith, refl);
  }

  pub Seeks-bind :
      {A B : Type 0} (n n' : ℕ) {m : Read p A} {k : A → Read p B}
      → Seeks n m
      → ((a : A) → Seeks n' (k a))
      → Seeks (n + n') (m >>= k)
  Seeks-bind {A} {B} n n' {m} {k} t u = record {
    sought = λ br v br' h. after br v br' (>>=-eq-ok m k br h);
  }
    where
      after :
          (br : BitReader p) (v : B) (br' : BitReader p)
          → (a : A) × (br1 : BitReader p) × (m br ≡ ok (a, br1)) × (k a br1 ≡ ok (v, br'))
          → Sought (n + n') br br'
      after br v br' (a, br1, e, r) =
          let (x, y, z) = t.sought br a br1 e in
          let (x', y', z') = (u a).sought br1 v br' r in
          (q.seek_relative_again n n' br.inner x x', omega arith, rw (z', z) refl)

  pub Seeks-map :
      {A B : Type 0} (n : ℕ) {m : Read p A} (f : A → B) → Seeks n m → Seeks n (do a ← m; pure (f a))
  Seeks-map n f t = Seeks-eq (n + 0) n (omega arith) (Seeks-bind n 0 t (λ a. Seeks-pure (f a)))

  pub Seeks-read_ubit64 : (n : ℕ) → Seeks n (read_ubit64 {p = p} n)
  unfolding read_ubit64
  Seeks-read_ubit64 n =
      Seeks-delegate n (p.read_ubit64 n)
        (λ s v s' e. (d.seek_relative_of_read n s e, (d.read_ubit64_bounds n s e).1))

  pub Seeks-read_bool : Seeks 1 (read_bool {p = p})
  unfolding read_bool
  Seeks-read_bool =
      Seeks-delegate 1 p.read_bool (λ s v s' e. (q.seek_relative_of_bool s e, d.read_bool_left s e))

  pub Seeks-read_bytes : (buf : List ℕ) → Seeks (8 * length buf) (read_bytes {p = p} buf)
  unfolding read_bytes
  Seeks-read_bytes buf =
      Seeks-delegate (8 * length buf) (p.read_bytes buf)
        (λ s v s' e. (q.seek_relative_of_bytes buf s e, (q.read_bytes_advances buf s e).1))

  pub Seeks-read_bitangle : (n : ℕ) → Seeks n (read_bitangle {p = p} n)
  unfolding read_bitangle
  Seeks-read_bitangle n = Seeks-map n _ (Seeks-read_ubit64 n)

  pub Seeks-read_bitnormal : Seeks 12 (read_bitnormal {p = p})
  unfolding read_bitnormal
  Seeks-read_bitnormal =
      Seeks-bind 1 11 Seeks-read_bool (λ sign. Seeks-map 11 _ (Seeks-read_ubit64 11))

  Seeks-try_into_u32 : (v : ℕ) → Seeks 0 (try_into_u32 {p = p} v)
  Seeks-try_into_u32 v = Seeks-if _ (Seeks-pure v) Seeks-throw

  pub Seeks-read_bitfloat : Seeks 32 (read_bitfloat {p = p})
  unfolding read_bitfloat
  Seeks-read_bitfloat =
      Seeks-bind 32 0 (Seeks-read_ubit64 32) (λ bits. Seeks-map 0 _ (Seeks-try_into_u32 bits))

  pub Seeks-flagged :
      (n : ℕ) (b : Bool) {m : Read p p.floats.F32}
      → Seeks n m
      → Seeks (if b then n else 0) (flagged {p = p} b m)
  Seeks-flagged n true t = t
  Seeks-flagged n false t = Seeks-pure _
