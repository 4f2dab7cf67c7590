-- ===== src/BitReader/FloatBits.antt =====
-- How many bits the readers of floats of crates/haste_core/src/bitreader.rs take.
use haste.Prelude.{ℕ, ◌+◌, ◌^◌, arith, Bool, true, false}
use haste.Platform.{Platform, Documented}
use haste.BitReader.{Read, ◌>>=◌, pure, read_ubit64, read_bool}
use haste.BitReader.Takes.{
  Takes, Takes-bind, Takes-pure, Takes-weaken, Takes-read_ubit64, Takes-read_bool,
}
use haste.BitReader.Keeps.{Any}
use haste.BitReader.FloatReaders.{
  coord_int, coord_fract, coord_value, read_bitcoord, read_bitnormal, flagged, read_bitvec3coord,
}

module _ {p : Platform} (d : Documented p) where
  some_bits : (n : ℕ) → Takes n n Any (read_ubit64 {p = p} n)
  some_bits n = record {
    on_success = λ br v br' h.
        let (_, x, y) =
          (Takes-read_ubit64 d n n n (2 ^ n) (omega arith) (omega arith) (omega arith)).on_success
            br v br' h in
        (tt, x, y);
  }

  Takes-coord_int : (b : Bool) → Takes 0 14 Any (coord_int {p = p} b)
  Takes-coord_int true =
      Takes-weaken 14 14 0 14
        (Takes-bind 14 14 0 0 (some_bits 14) (λ v _. Takes-pure 0 Any (v + 1) tt)) (omega arith)
        (omega arith)
  Takes-coord_int false = Takes-pure 14 Any 0 tt

  Takes-coord_fract : (b : Bool) → Takes 0 5 Any (coord_fract {p = p} b)
  Takes-coord_fract true = Takes-weaken 5 5 0 5 (some_bits 5) (omega arith) (omega arith)
  Takes-coord_fract false = Takes-pure 5 Any 0 tt

  two_parts :
      (i f : Bool) (join : ℕ → ℕ → p.floats.F32)
      → Takes 0 19 Any (do v ← coord_int {p = p} i; w ← coord_fract f; pure (join v w))
  two_parts i f join =
      Takes-bind 0 14 0 5 (Takes-coord_int i)
        (λ v _. Takes-bind 0 5 0 0 (Takes-coord_fract f) (λ w _. Takes-pure 0 Any (join v w) tt))

  Takes-coord_value : (i f : Bool) → Takes 1 20 Any (coord_value {p = p} i f)
  Takes-coord_value i f = Takes-read_bool d 0 19 _ (two_parts i f _) (two_parts i f _)

  Takes-zero : Takes 0 20 Any (pure {p = p} (p.floats.literal 0 0))
  Takes-zero = Takes-pure 20 Any _ tt

  wider : (i f : Bool) → Takes 0 20 Any (coord_value {p = p} i f)
  wider i f = Takes-weaken 1 20 0 20 (Takes-coord_value i f) (omega arith) (omega arith)

  -- `read_bitcoord` takes 2 to 22 bits.
  pub read_bitcoord-Takes : Takes 2 22 Any (read_bitcoord {p = p})
  unfolding read_bitcoord
  read_bitcoord-Takes =
      Takes-read_bool d 1 21 _ (Takes-read_bool d 0 20 _ (wider true true) (wider true false))
        (Takes-read_bool d 0 20 _ (wider false true) Takes-zero)

  -- `read_bitnormal` takes 12 bits.
  pub read_bitnormal-Takes : Takes 12 12 Any (read_bitnormal {p = p})
  unfolding read_bitnormal
  read_bitnormal-Takes = Takes-read_bool d 11 11 _ (fraction _) (fraction _)
    where
      fraction :
          (join : ℕ → p.floats.F32) → Takes 11 11 Any (do v ← read_ubit64 {p = p} 11; pure (join v))
      fraction join = Takes-bind 11 11 0 0 (some_bits 11) (λ v _. Takes-pure 0 Any (join v) tt)

  Takes-flagged :
      (lo hi : ℕ) {m : Read p p.floats.F32} (b : Bool)
      → Takes lo hi Any m
      → Takes 0 hi Any (flagged b m)
  Takes-flagged lo hi true t = Takes-weaken lo hi 0 hi t (omega arith) (omega arith)
  Takes-flagged lo hi false t = Takes-pure hi Any _ tt

  -- `read_bitvec3coord` takes 3 to 69 bits.
  pub read_bitvec3coord-Takes : Takes 3 69 Any (read_bitvec3coord {p = p})
  unfolding read_bitvec3coord
  read_bitvec3coord-Takes = Takes-read_bool d 2 68 _ (second true) (second false)
    where
      coord : (b : Bool) → Takes 0 22 Any (flagged {p = p} b read_bitcoord)
      coord b = Takes-flagged 2 22 b read_bitcoord-Takes

      values :
          (x y z : Bool)
          → Takes {A = p.floats.F32 × p.floats.F32 × p.floats.F32} 0 66 Any (do
            a ← flagged {p = p} x read_bitcoord
            b ← flagged y read_bitcoord
            c ← flagged z read_bitcoord
            pure (a, b, c))
      values x y z = Takes-bind 0 22 0 44 (coord x) (λ a _.
          Takes-bind 0 22 0 22 (coord y)
            (λ b _. Takes-bind 0 22 0 0 (coord z) (λ c _. Takes-pure 0 Any (a, b, c) tt)))

      second :
          (x : Bool)
          → Takes {A = p.floats.F32 × p.floats.F32 × p.floats.F32} 2 68 Any (do
            y ← read_bool
            z ← read_bool
            a ← flagged {p = p} x read_bitcoord
            b ← flagged y read_bitcoord
            c ← flagged z read_bitcoord
            pure (a, b, c))
      second x =
          Takes-read_bool d 1 67 _
            (Takes-read_bool d 0 66 _ (values x true true) (values x true false))
            (Takes-read_bool d 0 66 _ (values x false true) (values x false false))
