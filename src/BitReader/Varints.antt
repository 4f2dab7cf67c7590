-- ===== src/BitReader/Varints.antt =====
-- The variable-length integers of crates/haste_core/src/bitreader.rs.
use haste.Prelude.{
  ℕ, ◌+◌, ◌*◌, ◌/◌, ◌%◌, ◌^◌, ◌≤◌, ◌<◌, ◌≡◌, refl, arith, true, bit_and, bit_or, ◌==◌, ==_iff,
  if◌then◌else◌,
}
use haste.Prelude.Bits.{bit_or_low, bit_and-fifteen, holds_below, holds_below_sound}
use haste.Outcome.{Outcome, ok, err, panic, stuck, ◌>>=◌ as bind}
use haste.Platform.{Platform, Documented}
use haste.BitReader.{
  BitReader, Read, ◌>>=◌, pure, read_ubit64, read_ubitvar, ubitvar_rest, ubitvar_tail,
  read_ubitvarfp, ubitvarfp_value, try_into_u32,
}
use haste.BitReader.Takes.{
  Takes, Takes-read_ubit64, Takes-read_bool, read_ubit64_bounds, Takes-bind, Takes-pure,
  Takes-weaken, Takes-eq, Takes-if, try_into_u32-Takes,
}

-- How many bits follow the first six, by the two flags.
abbrev pub tail_bits : ℕ → ℕ
tail_bits first =
    if first / 16 == 0 then 0 else if first / 16 == 1 then 4 else if first / 16 == 2 then 8 else 28

-- The value as arithmetic: four low bits, and the bits that follow above them.
abbrev pub ubitvar_value : {p : Platform} → ℕ → Read p ℕ
ubitvar_value first =
    let n = tail_bits first in
    if n == 0 then pure first else do high ← read_ubit64 n; pure (first % 16 + high * 16)

module _ {p : Platform} (d : Documented p) where
  Takes-ubitvarfp_value : Takes 3 35 (λ v. v < 2 ^ 31) (ubitvarfp_value {p = p})
  Takes-ubitvarfp_value =
      Takes-read_bool d 2 34 _ (read 2 2 34 (omega arith) (omega arith) (omega arith)) (
        Takes-read_bool d 1 33 _ (read 4 1 33 (omega arith) (omega arith) (omega arith)) (
          Takes-read_bool d 0 32 _ (read 10 0 32 (omega arith) (omega arith) (omega arith)) (
            Takes-weaken 1 32 0 32
              (Takes-read_bool d 0 31 _ (read 17 0 31 (omega arith) (omega arith) (omega arith))
                (read 31 0 31 (omega arith) (omega arith) (omega arith)))
              (omega arith) (omega arith))))
    where
      read :
          (n lo hi : ℕ)
          → lo ≤ n
          → n ≤ hi
          → 2 ^ n ≤ 2 ^ 31
          → Takes lo hi (λ v. v < 2 ^ 31) (read_ubit64 {p = p} n)
      read n lo hi a b c = Takes-read_ubit64 d n lo hi (2 ^ 31) a b c

  -- The result always fits: the conversion at the end of `read_ubitvarfp` never fails.
  pub read_ubitvarfp-eq : (br : BitReader p) → read_ubitvarfp br ≡ ubitvarfp_value br
  unfolding read_ubitvarfp
  read_ubitvarfp-eq br = try_into_u32-Takes 3 35 (2 ^ 31) Takes-ubitvarfp_value (omega arith) br

  flags_table : holds_below 64 (λ x. bit_and x 48 == x / 16 * 16) ≡ true
  unfolding holds_below
  flags_table = refl

  tail-eq :
      (n first : ℕ) (br : BitReader p)
      → 2 ^ n ≤ 2 ^ 28
      → ubitvar_tail first n br ≡ ◌>>=◌ (read_ubit64 n) (λ high. pure (first % 16 + high * 16)) br
  tail-eq n first br h = go (read_ubit64 n br) refl
    where
      go :
          (r : Outcome p.Error (ℕ × BitReader p))
          → read_ubit64 n br ≡ r
          → bind {B = ℕ × BitReader p} r
              (λ s. ok (bit_or (bit_and first 15) (s.0 * 2 ^ 4 % 2 ^ 64), s.1))
            ≡ bind {B = ℕ × BitReader p} r (λ s. ok (first % 16 + s.0 * 16, s.1))
      go (ok (v, br')) e =
          let (x, _) = read_ubit64_bounds d n br e in
          let fits : v * 2 ^ 4 % 2 ^ 64 ≡ v * 2 ^ 4 = omega arith in
          rw (fits, bit_and-fifteen first, bit_or_low 4 v (first % 16) (omega arith))
      go (err x) e = refl
      go panic e = refl
      go stuck e = refl

  pub rest-eq :
      (first : ℕ) (br : BitReader p) → first < 64 → ubitvar_rest first br ≡ ubitvar_value first br
  rest-eq first br h = ground (
    arith,
    (==_iff _ _).0 (holds_below_sound 64 _ first flags_table h),
    tail-eq 4 first br (omega arith),
    tail-eq 8 first br (omega arith),
    tail-eq 28 first br (omega arith),
  )

  Takes-ubitvar_value :
      (first : ℕ) → first < 64 → Takes 0 28 (λ v. v < 2 ^ 32) (ubitvar_value {p = p} first)
  Takes-ubitvar_value first h =
      let n = tail_bits first in
      Takes-if 0 28 (n == 0) (Takes-pure 28 (λ v. v < 2 ^ 32) first (omega arith)) (
        Takes-bind 0 28 0 0
          (Takes-read_ubit64 d n 0 28 (2 ^ 28) (omega arith) (ground arith) (ground arith))
          (λ high hh. Takes-pure 0 (λ v. v < 2 ^ 32) (first % 16 + high * 16) (omega arith)))

  -- `read_ubitvar` reads six bits, then as many as their two high bits say, and puts the four low
  -- bits below these; the conversion to u32 at its end never fails.
  pub read_ubitvar-eq :
      (br : BitReader p) → read_ubitvar br ≡ ◌>>=◌ (read_ubit64 6) ubitvar_value br
  unfolding read_ubitvar
  read_ubitvar-eq br = go (read_ubit64 6 br) refl
    where
      go :
          (r : Outcome p.Error (ℕ × BitReader p))
          → read_ubit64 6 br ≡ r
          → bind {B = ℕ × BitReader p} r (λ s. ◌>>=◌ (ubitvar_rest s.0) try_into_u32 s.1)
            ≡ bind {B = ℕ × BitReader p} r (λ s. ubitvar_value s.0 s.1)
      go (ok (first, br')) e =
          let (small, _) = read_ubit64_bounds d 6 br e in
          rw (rest-eq first br' small)
            (try_into_u32-Takes 0 28 (2 ^ 32) (Takes-ubitvar_value first small) (omega arith) br')
      go (err x) e = refl
      go panic e = refl
      go stuck e = refl

  -- `read_ubitvar` takes 6 to 34 bits and gives a u32.
  pub read_ubitvar-Takes : Takes 6 34 (λ v. v < 2 ^ 32) (read_ubitvar {p = p})
  read_ubitvar-Takes = Takes-eq 6 34 read_ubitvar-eq (
      Takes-bind 6 6 0 28 (Takes-read_ubit64 d 6 6 6 64 (omega arith) (omega arith) (omega arith))
        Takes-ubitvar_value)

  -- `read_ubitvarfp` takes 3 to 35 bits and gives a number below 2 ^ 31.
  pub read_ubitvarfp-Takes : Takes 3 35 (λ v. v < 2 ^ 31) (read_ubitvarfp {p = p})
  read_ubitvarfp-Takes = Takes-eq 3 35 read_ubitvarfp-eq Takes-ubitvarfp_value
