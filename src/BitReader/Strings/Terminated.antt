-- ===== src/BitReader/Strings/Terminated.antt =====
-- The buffer that `read_string` of crates/haste_core/src/bitreader.rs leaves.
use haste.Prelude.{
  ℕ, zero, suc, ◌+◌, ◌<◌, ◌≡◌, arith, Bool, true, false, List, [], ◌∷◌, ◌++◌, Bool-cases, inl, inr,
  ltb→lt, ltb, if◌then◌else◌, length, length-append, length-drop, take-length-append,
  get_elem?-length-append, drop, take, get_elem?, some, ◌⊎◌,
}
use haste.Outcome.{Outcome, ok, err, panic, stuck, ◌>>=◌ as bind}
use haste.Platform.{Platform, Documented}
use haste.BitReader.Takes.{read_byte_bounds}
use haste.BitReader.Keeps.{Keeps-read_byte, Post, Post-bind}
use haste.BitReader.{BitReader, ◌>>=◌, pure, num_bits_left, ends_string, read_string}
use haste.BitReader.Strings.{chars_loop, chars, fill, read_string-chars}

-- The characters of a string, as `read_byte` gives them.
abbrev pub AllChars : List ℕ → Type 0
AllChars [] = Unit {0}
AllChars (c ∷ cs) = (0 < c) × (c < 256) × AllChars cs

-- The count and the buffer that are left.
abbrev pub Terminated : List ℕ → ℕ × List ℕ → Type 0
Terminated buf (n, out) =
    (n < length buf)
    × (length out ≡ length buf)
    × AllChars (take n out)
    × (get_elem? out n ≡ some 0)

module _ {p : Platform} (d : Documented p) where
  chars_loop-Post :
      (fuel : ℕ) (line : Bool) (br : BitReader p)
      → num_bits_left br < fuel
      → Post AllChars (chars_loop fuel line br)
  unfolding chars_loop
  chars_loop-Post zero line br h = absurd (omega arith)
  chars_loop-Post (suc fuel) line br h =
      Post-bind AllChars _ (Keeps-read_byte d) br (λ val br' small e le.
        let less = read_byte_bounds d br e in
        go val br' small (Bool-cases (ends_string line val))
          (chars_loop-Post fuel line br' (omega (arith, less.1))))
    where
      go :
          (val : ℕ) (br' : BitReader p)
          → val < 256
          → (ends_string line val ≡ true) ⊎ (ends_string line val ≡ false)
          → Post AllChars (chars_loop fuel line br')
          → Post AllChars (
              (if ends_string line val
                  then pure {p = p} []
                  else (chars_loop fuel line >>= λ cs. pure (val ∷ cs)))
                br')
      go val br' small (inl e) ih = rw e tt
      go val br' small (inr e) ih = rw e (onto (chars_loop fuel line br') ih)
        where
          onto :
              (r : Outcome p.Error (List ℕ × BitReader p))
              → Post AllChars r
              → Post AllChars (bind {B = List ℕ × BitReader p} r (λ s. ok (val ∷ s.0, s.1)))
          onto (ok (cs, br'')) ih = (ground arith, small, ih)
          onto (err x) ih = tt
          onto panic ih = tt
          onto stuck ih = ih

  pub chars-Post : (line : Bool) (br : BitReader p) → Post AllChars (chars line br)
  unfolding chars
  chars-Post line br = chars_loop-Post (num_bits_left br + 1) line br (omega arith)

  -- `read_string` ends on every input. If it succeeds, the count is below the length of the buffer,
  -- which keeps its length, and holds that many characters (each above 0 and below 256) and then a
  -- zero byte.
  pub read_string-Terminated :
      (buf : List ℕ) (line : Bool) (br : BitReader p)
      → Post (Terminated buf) (read_string buf line br)
  read_string-Terminated [] line br = unfold read_string in tt
  read_string-Terminated (b ∷ bs) line br =
      rw read_string-chars (filled (chars line br) (chars-Post line br))
    where
      filled_fits :
          (cs : List ℕ)
          → AllChars cs
          → length cs < length (b ∷ bs)
          → Terminated (b ∷ bs) (length cs, cs ++ (0 ∷ drop (length cs + 1) (b ∷ bs)))
      filled_fits cs h lt =
          let rest = 0 ∷ drop (length cs + 1) (b ∷ bs) in
          (
            lt,
            omega (arith, length-append cs rest, length-drop (length cs + 1) (b ∷ bs)),
            rw (take-length-append cs rest) h,
            get_elem?-length-append cs (drop (length cs + 1) (b ∷ bs)) 0,
          )

      filled :
          (r : Outcome p.Error (List ℕ × BitReader p))
          → Post AllChars r
          → Post (Terminated (b ∷ bs)) (bind r (λ s. fill (b ∷ bs) s.0 s.1))
      filled (ok (cs, br')) h = elim (Bool-cases (ltb (length cs) (length (b ∷ bs)))) [
        | inl fits ↦ rw fits (filled_fits cs h (ltb→lt (length cs) (length (b ∷ bs)) fits))
        | inr full ↦ rw full tt
      ]
      filled (err x) h = tt
      filled panic h = tt
      filled stuck h = h
