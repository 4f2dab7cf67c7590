-- ===== src/Prelude/LowBits.antt =====
-- The low bits of `bit_and` and `bit_or` depend on the low bits of the left number.
use Prim.Native.Nat.{min, max}
use haste.Prelude.{ℕ, zero, suc, ◌+◌, ◌*◌, ◌/◌, ◌%◌, ◌≤◌, ◌<◌, ◌≡◌, ap, arith, bit_and, bit_or}
use haste.Prelude.Bits.{bit_and-zero, bit_and-halves, bit_or-halves}

-- One more digit, for an operation that goes digit by digit.
module _ (op join : ℕ → ℕ → ℕ)
    (halves : (x y : ℕ) → op x y ≡ op (x / 2) (y / 2) * 2 + join (x % 2) (y % 2)) where
  low_two : (x z y : ℕ) → x % 2 ≡ z % 2 → op x y % 2 ≡ op z y % 2
  low_two x z y h =
      let same : join (x % 2) (y % 2) ≡ join (z % 2) (y % 2) = rw h in
      omega (arith, halves x y, halves z y)

  low_four : (x z y : ℕ) → x % 4 ≡ z % 4 → op x y % 4 ≡ op z y % 4
  low_four x z y h =
      let same : join (x % 2) (y % 2) ≡ join (z % 2) (y % 2) =
        ap (λ (t : ℕ). join t (y % 2)) (omega arith) in
      omega (arith, halves x y, halves z y, low_two (x / 2) (z / 2) (y / 2) (omega arith))

  low_eight : (x z y : ℕ) → x % 8 ≡ z % 8 → op x y % 8 ≡ op z y % 8
  low_eight x z y h =
      let same : join (x % 2) (y % 2) ≡ join (z % 2) (y % 2) =
        ap (λ (t : ℕ). join t (y % 2)) (omega arith) in
      omega (arith, halves x y, halves z y, low_four (x / 2) (z / 2) (y / 2) (omega arith))

  low_sixteen : (x z y : ℕ) → x % 16 ≡ z % 16 → op x y % 16 ≡ op z y % 16
  low_sixteen x z y h =
      let same : join (x % 2) (y % 2) ≡ join (z % 2) (y % 2) =
        ap (λ (t : ℕ). join t (y % 2)) (omega arith) in
      omega (arith, halves x y, halves z y, low_eight (x / 2) (z / 2) (y / 2) (omega arith))

bit_and_le_fuel : (n x y : ℕ) → y ≤ n → bit_and x y ≤ y
bit_and_le_fuel zero x y h =
    let e : y ≡ 0 = omega arith in rw (e, bit_and-zero x x (omega arith)) (omega arith)
bit_and_le_fuel (suc n) x y h =
    omega (arith, bit_and-halves x y, bit_and_le_fuel n (x / 2) (y / 2) (omega arith))

bit_and_le : (x y : ℕ) → bit_and x y ≤ y
bit_and_le x y = bit_and_le_fuel y x y (omega arith)

pub bit_and_nibble : (x y : ℕ) → bit_and x y % 16 ≡ bit_and (x % 16) y % 16
bit_and_nibble x y = low_sixteen bit_and min bit_and-halves x (x % 16) y (omega arith)

pub bit_or_nibble : (x y : ℕ) → bit_or x y % 16 ≡ bit_or (x % 16) y % 16
bit_or_nibble x y = low_sixteen bit_or max bit_or-halves x (x % 16) y (omega arith)

-- A mask of at most four bits sees these only.
pub bit_and_seen : (x y : ℕ) → y < 16 → bit_and x y ≡ bit_and (x % 16) y
bit_and_seen x y h = omega (arith, bit_and_nibble x y, bit_and_le x y, bit_and_le (x % 16) y)
