-- ===== src/BitReader/FloatReaders.antt =====
-- The readers of floats of crates/haste_core/src/bitreader.rs.
use haste.Prelude.{ℕ, ◌+◌, ◌-◌, ◌^◌, Bool, ◌||◌, if◌then◌else◌}
use haste.Platform.{Platform, Floats}
use haste.BitReader.{Read, ◌>>=◌, pure, try_into_u32, read_ubit64, read_bool}

module _ (f : Floats) where
  -- `value` with its sign fixed up.
  abbrev pub with_sign : Bool → f.F32 → f.F32
  with_sign signbit value = if signbit then f.neg value else value

  -- COORD_RESOLUTION is 1 / (1 << COORD_FRACTIONAL_BITS).
  abbrev pub coord_resolution : f.F32
  coord_resolution = f.div (f.literal 1 0) (f.of_ℕ (2 ^ 5))

  -- NORMAL_RESOLUTION is 1 / NORMAL_DENOMINATOR.
  abbrev pub normal_resolution : f.F32
  normal_resolution = f.div (f.literal 1 0) (f.of_ℕ (2 ^ 11 - 1))

  -- The third component of a unit vector, but for its sign.
  abbrev pub normal_z : f.F32 → f.F32 → f.F32
  normal_z x y =
      let one = f.literal 1 0 in
      let fafafbfb = f.add (f.mul x x) (f.mul y y) in
      if f.lt fafafbfb one then f.sqrt (f.sub one fafafbfb) else f.literal 0 0

module _ {p : Platform} where
  unfoldable pub read_bitfloat : Read p p.floats.F32
  read_bitfloat = do bits ← read_ubit64 32; low ← try_into_u32 bits; pure (p.floats.from_bits low)

  -- The integer, moved from [0, MAX - 1] to [1, MAX], if there is one.
  abbrev pub coord_int : Bool → Read p ℕ
  coord_int has_intval = if has_intval then (do v ← read_ubit64 14; pure (v + 1)) else pure 0

  abbrev pub coord_fract : Bool → Read p ℕ
  coord_fract has_fractval = if has_fractval then read_ubit64 5 else pure 0

  -- Behind the two flags, if one of them is set.
  abbrev pub coord_value : Bool → Bool → Read p p.floats.F32
  coord_value has_intval has_fractval = do
    signbit ← read_bool
    intval ← coord_int has_intval
    fractval ← coord_fract has_fractval
    pure (
        with_sign p.floats signbit (
          p.floats.add (p.floats.of_ℕ intval)
            (p.floats.mul (p.floats.of_ℕ fractval) (coord_resolution p.floats))))

  unfoldable pub read_bitcoord : Read p p.floats.F32
  read_bitcoord = do
    has_intval ← read_bool
    has_fractval ← read_bool
    if has_intval || has_fractval
        then coord_value has_intval has_fractval
        else pure (p.floats.literal 0 0)

  unfoldable pub read_bitnormal : Read p p.floats.F32
  read_bitnormal = do
    signbit ← read_bool
    fractval ← read_ubit64 11
    pure (
        with_sign p.floats signbit
          (p.floats.mul (p.floats.of_ℕ fractval) (normal_resolution p.floats)))

  -- A component behind its flag.
  abbrev pub flagged : Bool → Read p p.floats.F32 → Read p p.floats.F32
  flagged flag read = if flag then read else pure (p.floats.literal 0 0)

  unfoldable pub read_bitvec3coord : Read p (p.floats.F32 × p.floats.F32 × p.floats.F32)
  read_bitvec3coord = do
    xflag ← read_bool
    yflag ← read_bool
    zflag ← read_bool
    x ← flagged xflag read_bitcoord
    y ← flagged yflag read_bitcoord
    z ← flagged zflag read_bitcoord
    pure (x, y, z)

  unfoldable pub read_bitvec3normal : Read p (p.floats.F32 × p.floats.F32 × p.floats.F32)
  read_bitvec3normal = do
    xflag ← read_bool
    yflag ← read_bool
    x ← flagged xflag read_bitnormal
    y ← flagged yflag read_bitnormal
    znegative ← read_bool
    pure (x, y, with_sign p.floats znegative (normal_z p.floats x y))

  unfoldable pub read_bitangle : ℕ → Read p p.floats.F32
  read_bitangle num_bits = do
    u ← read_ubit64 num_bits
    pure (
        p.floats.mul (p.floats.of_ℕ u)
          (p.floats.div (p.floats.literal 360 0) (p.floats.of_ℕ (p.get_bit_for_bit_num num_bits))))
