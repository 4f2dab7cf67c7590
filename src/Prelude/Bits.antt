-- ===== src/Prelude/Bits.antt =====
-- Bit operations at variables, as arithmetic: each goes digit by digit.
use Prim.Native.Nat.{min, max, digits, bit_and-bitwise, bit_or-bitwise, bit_xor-bitwise, differ}
use native.Mathlib.Nat.{pow-suc}
use haste.Prelude.{
  ℕ, zero, suc, ◌+◌, ◌*◌, ◌/◌, ◌%◌, ◌^◌, ◌≤◌, ◌<◌, ◌≡◌, refl, ap, arith, Bool, true, ◌&&◌, bit_and,
  bit_or, bit_xor,
}

-- A statement about every number below a small bound, by evaluation.
unfoldable pub holds_below : ℕ → (ℕ → Bool) → Bool
holds_below zero test = true
holds_below (suc n) test = test n && holds_below n test

pub holds_below_sound :
    (n : ℕ) (test : ℕ → Bool) (x : ℕ) → holds_below n test ≡ true → x < n → test x ≡ true
unfolding holds_below
holds_below_sound zero test x h lt = absurd (omega arith)
holds_below_sound (suc n) test x h lt = ground (arith, holds_below_sound n test x)

-- More fuel than the left number changes nothing.
module _ (base : ℕ → ℕ) (join : ℕ → ℕ → ℕ) where
  digits-enough : (m n x y : ℕ) → x ≤ m → x ≤ n → digits base join m x y ≡ digits base join n x y
  digits-enough zero zero zero y hm hn = refl
  digits-enough zero (suc n) zero y hm hn = refl
  digits-enough (suc m) zero zero y hm hn = refl
  digits-enough (suc m) (suc n) zero y hm hn = refl
  digits-enough zero n (suc x) y hm hn = absurd (omega arith)
  digits-enough (suc m) zero (suc x) y hm hn = absurd (omega arith)
  digits-enough (suc m) (suc n) (suc x) y hm hn =
      rw (digits-enough m n (suc x / 2) (y / 2) (omega arith) (omega arith))

  digits-suc :
      (x y : ℕ)
      → digits base join (suc x) (suc x) y
        ≡ digits base join (suc x / 2) (suc x / 2) (y / 2) * 2 + join (suc x % 2) (y % 2)
  digits-suc x y =
      omega (arith, digits-enough x (suc x / 2) (suc x / 2) (y / 2) (omega arith) (omega arith))

pub bit_or-halves : (x y : ℕ) → bit_or x y ≡ bit_or (x / 2) (y / 2) * 2 + max (x % 2) (y % 2)
bit_or-halves zero y = simp bit_or-bitwise (omega arith)
bit_or-halves (suc x) y = simp bit_or-bitwise (digits-suc (λ b. b) max x y)

pub bit_and-halves : (x y : ℕ) → bit_and x y ≡ bit_and (x / 2) (y / 2) * 2 + min (x % 2) (y % 2)
bit_and-halves zero y = simp bit_and-bitwise (omega arith)
bit_and-halves (suc x) y = simp bit_and-bitwise (digits-suc (λ b. 0) min x y)

pub bit_xor-halves : (x y : ℕ) → bit_xor x y ≡ bit_xor (x / 2) (y / 2) * 2 + differ (x % 2) (y % 2)
bit_xor-halves zero y = simp bit_xor-bitwise (omega arith)
bit_xor-halves (suc x) y = simp bit_xor-bitwise (digits-suc (λ b. b) differ x y)

differ_bits :
    (a b : ℕ) → a < 2 → b < 2 → (differ a b < 2) × (differ (differ a b) b ≡ a) × (differ 0 b ≡ b)
differ_bits zero zero ha hb = omega arith
differ_bits zero (suc zero) ha hb = omega arith
differ_bits (suc zero) zero ha hb = omega arith
differ_bits (suc zero) (suc zero) ha hb = omega arith
differ_bits (suc (suc a)) b ha hb = absurd (omega arith)
differ_bits a (suc (suc b)) ha hb = absurd (omega arith)

pub bit_xor-lt : (k x y : ℕ) → x < 2 ^ k → y < 2 ^ k → bit_xor x y < 2 ^ k
bit_xor-lt zero x y hx hy =
    let ex : x ≡ 0 = omega arith in let ey : y ≡ 0 = omega arith in rw (ex, ey) (omega arith)
bit_xor-lt (suc k) x y hx hy = ground (
  arith,
  bit_xor-halves x y,
  pow-suc 2 k,
  differ_bits (x % 2) (y % 2),
  bit_xor-lt k (x / 2) (y / 2) (omega (arith, pow-suc 2 k)) (omega (arith, pow-suc 2 k)),
)

-- Undone by the same operand.
pub bit_xor-bit_xor : (k x y : ℕ) → x < 2 ^ k → y < 2 ^ k → bit_xor (bit_xor x y) y ≡ x
bit_xor-bit_xor zero x y hx hy =
    let ex : x ≡ 0 = omega arith in let ey : y ≡ 0 = omega arith in rw (ex, ey)
bit_xor-bit_xor (suc k) x y hx hy =
    let high =
      bit_xor-bit_xor k (x / 2) (y / 2) (omega (arith, pow-suc 2 k)) (omega (arith, pow-suc 2 k)) in
    let low = differ_bits (x % 2) (y % 2) (omega arith) (omega arith) in
    let d : bit_xor x y / 2 ≡ bit_xor (x / 2) (y / 2) = omega (arith, bit_xor-halves x y) in
    let m : bit_xor x y % 2 ≡ differ (x % 2) (y % 2) = omega (arith, bit_xor-halves x y) in
    rw (bit_xor-halves (bit_xor x y) y, d, m, high, low.1) (omega arith)

differ_comm : (a b : ℕ) → a < 2 → b < 2 → differ a b ≡ differ b a
differ_comm zero zero ha hb = refl
differ_comm zero (suc zero) ha hb = refl
differ_comm (suc zero) zero ha hb = refl
differ_comm (suc zero) (suc zero) ha hb = refl
differ_comm (suc (suc a)) b ha hb = absurd (omega arith)
differ_comm a (suc (suc b)) ha hb = absurd (omega arith)

pub bit_xor_comm : (k x y : ℕ) → x < 2 ^ k → y < 2 ^ k → bit_xor x y ≡ bit_xor y x
bit_xor_comm zero x y hx hy =
    let ex : x ≡ 0 = omega arith in let ey : y ≡ 0 = omega arith in rw (ex, ey)
bit_xor_comm (suc k) x y hx hy = omega (
  arith,
  bit_xor-halves x y,
  bit_xor-halves y x,
  differ_comm (x % 2) (y % 2) (omega arith) (omega arith),
  bit_xor_comm k (x / 2) (y / 2) (omega (arith, pow-suc 2 k)) (omega (arith, pow-suc 2 k)),
)

twice_pow : (k q : ℕ) → q * 2 ^ suc k ≡ 2 * (q * 2 ^ k)
twice_pow k q = omega (arith, ap (λ (t : ℕ). q * t) (pow-suc 2 k))

-- Disjoint fields: `r | (q << k)` is a sum where `r` fits `k` bits.
pub bit_or_low : (k q r : ℕ) → r < 2 ^ k → bit_or r (q * 2 ^ k) ≡ r + q * 2 ^ k
bit_or_low zero q zero h = simp bit_or-bitwise (omega arith)
bit_or_low zero q (suc r) h = absurd (omega arith)
bit_or_low (suc k) q r h =
    ground (arith, bit_or-halves r (q * 2 ^ suc k), twice_pow k q, bit_or_low k q (r / 2))

-- A mask of `k` ones is the remainder by `2 ^ k`.
pub bit_and-zero : (n x : ℕ) → x ≤ n → bit_and x 0 ≡ 0
bit_and-zero n zero h = refl
bit_and-zero zero (suc x) h = absurd (omega arith)
bit_and-zero (suc n) (suc x) h =
    omega (arith, bit_and-halves (suc x) 0, bit_and-zero n (suc x / 2) (omega arith))

bit_and-one : (x : ℕ) → bit_and x 1 ≡ x % 2
bit_and-one x = omega (arith, bit_and-halves x 1, bit_and-zero (x / 2) (x / 2) (omega arith))

bit_and-three : (x : ℕ) → bit_and x 3 ≡ x % 4
bit_and-three x = omega (arith, bit_and-halves x 3, bit_and-one (x / 2))

bit_and-seven : (x : ℕ) → bit_and x 7 ≡ x % 8
bit_and-seven x = omega (arith, bit_and-halves x 7, bit_and-three (x / 2))

pub bit_and-fifteen : (x : ℕ) → bit_and x 15 ≡ x % 16
bit_and-fifteen x = omega (arith, bit_and-halves x 15, bit_and-seven (x / 2))

pub bit_and-thirty_one : (x : ℕ) → bit_and x 31 ≡ x % 32
bit_and-thirty_one x = omega (arith, bit_and-halves x 31, bit_and-fifteen (x / 2))
