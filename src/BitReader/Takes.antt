-- ===== src/BitReader/Takes.antt =====
-- Rules for how many bits a reader of crates/haste_core/src/bitreader.rs takes, and for its value.
use haste.Prelude.{ℕ, ◌+◌, ◌-◌, ◌^◌, ◌≤◌, ◌<◌, ◌≡◌, refl, arith, Bool, true, false, if◌then◌else◌}
use haste.Prelude.Int.{ℤ, pos, negsuc, ◌≤ℤ◌}
use haste.Outcome.{Outcome, ok, err, panic, stuck, ◌>>=◌ as bind}
use haste.Platform.{Platform, Documented}
use haste.BitReader.{
  BitReader, Read, ◌>>=◌, pure, delegate-eq-ok, >>=-eq-ok, num_bits_left, read_ubit64, read_bool,
  read_byte, try_into_u32, read_varint32,
}

module _ {p : Platform} where
  -- A successful read gives a value with the property `Q` and takes `lo` to `hi` bits.
  pub record Takes {A : Type 0} (lo hi : ℕ) (Q : A → Type 0) (m : Read p A) : Type 0 where
    pub on_success :
        (br : BitReader p) (v : A) (br' : BitReader p)
        → m br ≡ ok (v, br')
        → Q v
          × (num_bits_left br' + lo ≤ num_bits_left br)
          × (num_bits_left br ≤ num_bits_left br' + hi)

  pub Takes-weaken :
      {A : Type 0} {Q : A → Type 0} {m : Read p A} (lo hi lo' hi' : ℕ)
      → Takes lo hi Q m
      → lo' ≤ lo
      → hi ≤ hi'
      → Takes lo' hi' Q m
  Takes-weaken lo hi lo' hi' t a b = record {
    on_success =
        λ br v br' h. let (q, x, y) = t.on_success br v br' h in (q, omega arith, omega arith);
  }

  pub Takes-eq :
      {A : Type 0} {Q : A → Type 0} {m m' : Read p A} (lo hi : ℕ)
      → ((br : BitReader p) → m br ≡ m' br)
      → Takes lo hi Q m'
      → Takes lo hi Q m
  Takes-eq lo hi e t = record { on_success = λ br v br' h. t.on_success br v br' (rw (e br) at h) }

  pub Takes-if :
      {A : Type 0} {Q : A → Type 0} {m m' : Read p A} (lo hi : ℕ) (b : Bool)
      → Takes lo hi Q m
      → Takes lo hi Q m'
      → Takes lo hi Q (if b then m else m')
  Takes-if lo hi true t u = t
  Takes-if lo hi false t u = u

  pub Takes-pure :
      {A : Type 0} (hi : ℕ) (Q : A → Type 0) (v : A) → Q v → Takes 0 hi Q (pure {p = p} v)
  Takes-pure hi Q v q = record {
    on_success = λ br w br' h.
        let same : v ≡ w = cc in
        let still : br ≡ br' = cc in (rw same at q, rw still (omega arith), rw still (omega arith));
  }

  pub Takes-bind :
      {A B : Type 0} (lo hi lo' hi' : ℕ) {P : A → Type 0} {Q : B → Type 0} {m : Read p A}
      {k : A → Read p B}
      → Takes lo hi P m
      → ((a : A) → P a → Takes lo' hi' Q (k a))
      → Takes (lo + lo') (hi + hi') Q (m >>= k)
  Takes-bind {A} {B} lo hi lo' hi' {P} {Q} {m} {k} t u = record {
    on_success = λ br v br' h. go br (>>=-eq-ok m k br h);
  }
    where
      go :
          (br : BitReader p) {v : B} {br'' : BitReader p}
          → (a : A) × (br' : BitReader p) × (m br ≡ ok (a, br')) × (k a br' ≡ ok (v, br''))
          → Q v
            × (num_bits_left br'' + (lo + lo') ≤ num_bits_left br)
            × (num_bits_left br ≤ num_bits_left br'' + (hi + hi'))
      go br (a, br', e, r) =
          let (pa, x, x') = t.on_success br a br' e in
          let (q, y, y') = (u a pa).on_success br' _ _ r in (q, omega arith, omega arith)

  -- The checked conversion of a value that fits is the value.
  pub try_into_u32-Takes :
      (lo hi bound : ℕ) {m : Read p ℕ}
      → Takes lo hi (λ v. v < bound) m
      → bound ≤ 2 ^ 32
      → (br : BitReader p) → (m >>= try_into_u32) br ≡ m br
  try_into_u32-Takes lo hi bound {m} t h br = go (m br) refl
    where
      go :
          (r : Outcome p.Error (ℕ × BitReader p))
          → m br ≡ r
          → bind r (λ s. try_into_u32 s.0 s.1) ≡ r
      go (ok (v, br')) e = let (x, _, _) = t.on_success br v br' e in ground arith
      go (err x) e = refl
      go panic e = refl
      go stuck e = refl

module _ {p : Platform} (d : Documented p) where
  pub read_ubit64_bounds :
      (n : ℕ) (br : BitReader p) {v : ℕ} {br' : BitReader p}
      → read_ubit64 n br ≡ ok (v, br')
      → (v < 2 ^ n) × (num_bits_left br' + n ≡ num_bits_left br)
  unfolding read_ubit64
  read_ubit64_bounds n br h =
      d.read_ubit64_bounds n br.inner (delegate-eq-ok (p.read_ubit64 n) br h)

  pub read_bool_left :
      (br : BitReader p) {v : Bool} {br' : BitReader p}
      → read_bool br ≡ ok (v, br')
      → num_bits_left br' + 1 ≡ num_bits_left br
  unfolding read_bool
  read_bool_left br h = d.read_bool_left br.inner (delegate-eq-ok p.read_bool br h)

  pub read_byte_bounds :
      (br : BitReader p) {v : ℕ} {br' : BitReader p}
      → read_byte br ≡ ok (v, br')
      → (v < 256) × (num_bits_left br' + 8 ≡ num_bits_left br)
  unfolding read_byte
  read_byte_bounds br h = d.read_byte_bounds br.inner (delegate-eq-ok p.read_byte br h)

  pub read_varint32_bounds :
      (br : BitReader p) {v : ℤ} {br' : BitReader p}
      → read_varint32 br ≡ ok (v, br')
      → (negsuc (2 ^ 31 - 1) ≤ℤ v)
        × (v ≤ℤ pos (2 ^ 31 - 1))
        × (num_bits_left br' ≤ num_bits_left br)
  unfolding read_varint32
  read_varint32_bounds br h = d.read_varint32_bounds br.inner (delegate-eq-ok p.read_varint32 br h)

  pub Takes-read_ubit64 :
      (n lo hi bound : ℕ)
      → lo ≤ n
      → n ≤ hi
      → 2 ^ n ≤ bound
      → Takes lo hi (λ v. v < bound) (read_ubit64 {p = p} n)
  Takes-read_ubit64 n lo hi bound hl hh hb = record {
    on_success = λ br v br' h. let (x, y) = read_ubit64_bounds n br h in ground arith;
  }

  pub Takes-read_bool :
      (lo hi : ℕ) {B : Type 0} {Q : B → Type 0} (k : Bool → Read p B)
      → Takes lo hi Q (k true)
      → Takes lo hi Q (k false)
      → Takes (1 + lo) (1 + hi) Q (read_bool >>= k)
  Takes-read_bool lo hi {B} {Q} k t f = Takes-bind 1 1 lo hi flag (λ b _. either b)
    where
      flag : Takes 1 1 (λ (b : Bool). Unit {0}) (read_bool {p = p})
      flag = record {
        on_success = λ br v br' h. let y = read_bool_left br h in (tt, omega arith, omega arith);
      }

      either : (b : Bool) → Takes lo hi Q (k b)
      either true = t
      either false = f
