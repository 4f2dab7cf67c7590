-- ===== src/Machine.antt =====
-- Rust's fixed-width arithmetic where the modelled code can overflow: with overflow checks it
-- panics, without them the value wraps.
use haste.Prelude.{
  ℕ, ◌+◌, ◌-◌, ◌*◌, ◌%◌, ◌^◌, ◌≤◌, ◌<◌, ◌≡◌, refl, arith, Bool, true, ltb, leb, lt→ltb,
  if◌then◌else◌, ◌&&◌,
}
use haste.Prelude.Int.{ℤ, pos, negsuc, pos_part, neg_part, ◌+ℤ◌}
use haste.Outcome.{ok, panic}
use haste.Platform.{Platform}
use haste.BitReader.{BitReader, Read, pure}

-- The i32 with the low 32 bits of `v`: `v as i32` of a u32 or a u64.
abbrev pub as_i32 : ℕ → ℤ
as_i32 v = let w = v % 2 ^ 32 in if ltb w (2 ^ 31) then pos w else negsuc (2 ^ 32 - w - 1)

-- The i32 that is congruent to `v` modulo 2 ^ 32.
abbrev pub wrap_i32 : ℤ → ℤ
wrap_i32 (pos n) = as_i32 n
wrap_i32 (negsuc n) = as_i32 (2 ^ 32 - 1 - n % 2 ^ 32)

abbrev pub fits_i32 : ℤ → Bool
fits_i32 v = ltb (pos_part v) (2 ^ 31) && leb (neg_part v) (2 ^ 31)

-- `(v & 0xFF) as u8` of an i32.
abbrev pub low_byte : ℤ → ℕ
low_byte (pos n) = n % 256
low_byte (negsuc n) = 255 - n % 256

-- The result of an operation: exact where it fits, else a panic or the wrapped value.
abbrev pub checked : {p : Platform} {A : Type 0} → Bool → A → A → Read p A
checked {p} fits exact wrapped =
    if fits then pure exact else if p.overflow_checks then (λ br. panic) else pure wrapped

module _ {p : Platform} where
  -- `a + b` in i32.
  unfoldable pub add_i32 : ℤ → ℤ → Read p ℤ
  unfolding ◌+ℤ◌
  add_i32 a b = let s = a +ℤ b in checked (fits_i32 s) s (wrap_i32 s)

  -- `a + b` and `a - b` in usize.
  unfoldable pub add_usize : ℕ → ℕ → Read p ℕ
  add_usize a b = checked (ltb (a + b) (2 ^ 64)) (a + b) ((a + b) % 2 ^ 64)

  unfoldable pub sub_usize : ℕ → ℕ → Read p ℕ
  sub_usize a b = checked (leb b a) (a - b) (a + 2 ^ 64 - b)

  -- `a * b` in usize.
  unfoldable pub mul_usize : ℕ → ℕ → Read p ℕ
  mul_usize a b = checked (ltb (a * b) (2 ^ 64)) (a * b) (a * b % 2 ^ 64)

  pub add_usize_fits :
      (a b : ℕ) (br : BitReader p) → a + b < 2 ^ 64 → add_usize a b br ≡ ok (a + b, br)
  unfolding add_usize
  add_usize_fits a b br h = rw (lt→ltb (a + b) (2 ^ 64) h) refl

  pub sub_usize_fits : (a b : ℕ) (br : BitReader p) → b ≤ a → sub_usize a b br ≡ ok (a - b, br)
  unfolding sub_usize
  sub_usize_fits a b br h = let e : leb b a ≡ true = ground arith in rw e refl

  pub mul_usize_fits :
      (a b : ℕ) (br : BitReader p) → a * b < 2 ^ 64 → mul_usize a b br ≡ ok (a * b, br)
  unfolding mul_usize
  mul_usize_fits a b br h = rw (lt→ltb (a * b) (2 ^ 64) h) refl
