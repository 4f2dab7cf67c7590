-- ===== src/BitReader/Strings.antt =====
-- The strings of crates/haste_core/src/bitreader.rs: both readers against the characters up to the
-- terminator.
pub mod Terminated
use haste.Prelude.{
  ℕ, zero, suc, ◌+◌, ◌-◌, ◌≤◌, ◌<◌, ◌≡◌, ◌≢◌, refl, sym, subst, ap, ◌∙◌, arith, Bool, true, false,
  List, [], ◌∷◌, ◌++◌, Bool-cases, inl, inr, ltb→lt, ltb, leb, if◌then◌else◌, length, length-append,
  set, drop, take, get_elem?, Option, some, ◌⊎◌,
}
use mathlib.Core.List.{append_assoc, append-nil}
use haste.Outcome.{Outcome, ok, err, panic, stuck, ◌>>=◌ as bind}
use haste.Platform.{Platform, Documented}
use haste.BitReader.Takes.{read_byte_bounds}
use haste.BitReader.Keeps.{Keeps, Keeps-read_byte, Post, Post-bind}
use haste.BitReader.{
  BitReader, Read, ◌>>=◌, >>=-ext, >>=-assoc, pure, throw, num_bits_left, read_byte, StringState,
  put_char, ends_string, string_loop, finish_string, read_string, string_to_end_loop,
  read_string_to_end,
}

-- Every character is put into the state, in order.
abbrev feed : StringState → List ℕ → StringState
feed s [] = s
feed s (c ∷ cs) = feed (put_char s c) cs

set-append :
    (done rest : List ℕ) (r v : ℕ) → set (done ++ (r ∷ rest)) (length done) v ≡ done ++ (v ∷ rest)
set-append [] rest r v = refl
set-append (d ∷ done) rest r v = ap (λ (l : List ℕ). d ∷ l) (set-append done rest r v)

abbrev state : List ℕ → List ℕ → Bool → StringState
state done rest flag = record { buf = done ++ rest; num_chars = length done; too_small = flag }

put_char-state :
    (done rest : List ℕ) (c r r' : ℕ) (flag : Bool)
    → put_char (state done (r ∷ r' ∷ rest) flag) c ≡ state (done ++ (c ∷ [])) (r' ∷ rest) flag
put_char-state done rest c r r' flag = ground (
  arith,
  set-append done (r' ∷ rest) r c,
  append_assoc done (c ∷ []) (r' ∷ rest),
  length-append done (r ∷ r' ∷ rest),
  length-append done (c ∷ []),
)

feed_fits :
    (cs done rest : List ℕ) (flag : Bool)
    → length cs < length rest
    → feed (state done rest flag) cs ≡ state (done ++ cs) (drop (length cs) rest) flag
feed_fits [] done rest flag h = rw append-nil
feed_fits (c ∷ cs) done [] flag h = absurd (omega arith)
feed_fits (c ∷ cs) done (r ∷ []) flag h = absurd (omega arith)
feed_fits (c ∷ cs) done (r ∷ r' ∷ rest) flag h = rw (put_char-state done rest c r r' flag) (
    feed_fits cs (done ++ (c ∷ [])) (r' ∷ rest) flag (omega arith)
    ∙ rw (append_assoc done (c ∷ []) cs))

feed_stays : (cs : List ℕ) (s : StringState) → s.too_small ≡ true → (feed s cs).too_small ≡ true
feed_stays [] s h = h
feed_stays (c ∷ cs) s h = feed_stays cs (put_char s c) (ground arith)

feed_full :
    (cs done rest : List ℕ) (r : ℕ) (flag : Bool)
    → length rest < length cs
    → (feed (state done (r ∷ rest) flag) cs).too_small ≡ true
feed_full [] done rest r flag h = absurd (omega arith)
feed_full (c ∷ cs) done [] r flag h =
    feed_stays cs (put_char (state done (r ∷ []) flag) c)
      (ground (arith, length-append done (r ∷ [])))
feed_full (c ∷ cs) done (r' ∷ rest) r flag h =
    subst (λ (s : StringState). (feed s cs).too_small ≡ true)
      (sym (put_char-state done rest c r r' flag))
      (feed_full cs (done ++ (c ∷ [])) rest r' flag (omega arith))

drop_cons : (n : ℕ) (xs : List ℕ) → n < length xs → (x : ℕ) × (drop n xs ≡ x ∷ drop (n + 1) xs)
drop_cons n [] h = absurd (omega arith)
drop_cons zero (x ∷ xs) h = (x, refl)
drop_cons (suc n) (x ∷ xs) h =
    let (y, e) = drop_cons n xs (omega arith) in
    let same : suc n + 1 ≡ suc (n + 1) = omega arith in (y, rw same e)

module _ {p : Platform} where
  -- The characters up to the terminator, which is read too.
  unfoldable pub chars_loop : ℕ → Bool → Read p (List ℕ)
  chars_loop zero line = λ br. stuck
  chars_loop (suc fuel) line = do
    val ← read_byte
    let rest = ◌>>=◌ (chars_loop fuel line) (λ cs. pure (val ∷ cs))
    if ends_string line val then pure [] else rest

  unfoldable pub chars : Bool → Read p (List ℕ)
  unfolding chars_loop
  chars line br = chars_loop (num_bits_left br + 1) line br

  -- One round: the loops agree if they do behind the character.
  round :
      {B : Type 0} (stop : Bool) (done : B) (go : Read p B) (more : Read p (List ℕ))
      (f : List ℕ → B) (br : BitReader p)
      → done ≡ f []
      → go br ≡ ◌>>=◌ more (λ cs. pure (f cs)) br
      → (if stop then pure {p = p} done else go) br
        ≡ ◌>>=◌ (if stop then pure {p = p} [] else more) (λ cs. pure (f cs)) br
  round true done go more f br d e = ap (λ (b : _). ok (b, br)) d
  round false done go more f br d e = e

  string_loop-chars :
      (fuel : ℕ) (line : Bool) (s : StringState) (br : BitReader p)
      → string_loop fuel line s br ≡ ◌>>=◌ (chars_loop fuel line) (λ cs. pure (feed s cs)) br
  unfolding string_loop chars_loop
  string_loop-chars zero line s br = refl
  string_loop-chars (suc fuel) line s br =
      >>=-ext read_byte _ _
        (λ val br'.
          round (ends_string line val) s (string_loop fuel line (put_char s val))
            (chars_loop fuel line >>= λ cs. pure (val ∷ cs)) (feed s) br' refl
            (string_loop-chars fuel line (put_char s val) br'
              ∙ sym (>>=-assoc (chars_loop fuel line) _ _ br')))
        br
      ∙ sym (>>=-assoc read_byte _ _ br)

  to_end_loop-chars :
      (fuel : ℕ) (line : Bool) (buf : List ℕ) (n : ℕ) (br : BitReader p)
      → string_to_end_loop fuel line buf n br
        ≡ ◌>>=◌ (chars_loop fuel line) (λ cs. pure (n + length cs, buf ++ cs)) br
  unfolding string_to_end_loop chars_loop
  to_end_loop-chars zero line buf n br = refl
  to_end_loop-chars (suc fuel) line buf n br =
      >>=-ext read_byte _ _
        (λ val br'.
          round (ends_string line val) (n, buf)
            (string_to_end_loop fuel line (buf ++ (val ∷ [])) (n + 1))
            (chars_loop fuel line >>= λ cs. pure (val ∷ cs)) (λ cs. (n + length cs, buf ++ cs)) br'
            (ground (arith, append-nil buf))
            (to_end_loop-chars fuel line (buf ++ (val ∷ [])) (n + 1) br'
              ∙ >>=-ext (chars_loop fuel line) _ _
                  (λ cs br''. ground (arith, append_assoc buf (val ∷ []) cs)) br'
              ∙ sym (>>=-assoc (chars_loop fuel line) _ _ br')))
        br
      ∙ sym (>>=-assoc read_byte _ _ br)

  -- What `read_string` makes of the characters, with a buffer of at least one byte.
  abbrev pub fill : List ℕ → List ℕ → Read p (ℕ × List ℕ)
  fill buf cs =
      if ltb (length cs) (length buf)
      then pure (length cs, cs ++ (0 ∷ drop (length cs + 1) buf))
      else throw p.buffer_too_small

  finish_state :
      (done rest : List ℕ) (r : ℕ) (br : BitReader p)
      → finish_string (state done (r ∷ rest) false) br ≡ ok ((length done, done ++ (0 ∷ rest)), br)
  finish_state done rest r br =
      ground (arith, set-append done rest r 0, length-append done (r ∷ rest))

  finish_too_small :
      (s : StringState) (br : BitReader p)
      → s.too_small ≡ true
      → finish_string s br ≡ err p.buffer_too_small
  finish_too_small s br h = ground arith

  finish_fill :
      (b : ℕ) (bs cs : List ℕ) (br : BitReader p)
      → finish_string (feed (state [] (b ∷ bs) false) cs) br ≡ fill (b ∷ bs) cs br
  finish_fill b bs cs br = elim (Bool-cases (ltb (length cs) (length (b ∷ bs)))) [
    | inl fits ↦
        let h = ltb→lt (length cs) (length (b ∷ bs)) fits in
        let (x, e) = drop_cons (length cs) (b ∷ bs) h in
        subst (λ (s : StringState). finish_string {p = p} s br ≡ fill (b ∷ bs) cs br)
          (sym (feed_fits cs [] (b ∷ bs) false h))
          (rw (fits, e) (finish_state cs (drop (length cs + 1) (b ∷ bs)) x br))
    | inr full ↦ rw full (
        finish_too_small (feed (state [] (b ∷ bs) false) cs) br
          (feed_full cs [] bs b false (ground arith)))
  ]

  -- `read_string` into a buffer of at least one byte reads the characters up to the terminator. If
  -- they and a zero byte fit, it returns their number, and the buffer begins with them and the zero
  -- byte and is as it was behind; if not, it fails with `BufferTooSmall`.
  pub read_string-chars :
      (b : ℕ) (bs : List ℕ) (line : Bool) (br : BitReader p)
      → read_string (b ∷ bs) line br ≡ ◌>>=◌ (chars line) (fill (b ∷ bs)) br
  unfolding read_string chars
  read_string-chars b bs line br =
      let fuel = num_bits_left br + 1 in
      let s : StringState = record { buf = b ∷ bs; num_chars = 0; too_small = false } in
      ap (λ (r : Outcome p.Error (StringState × BitReader p)). bind r (λ t. finish_string t.0 t.1))
        (string_loop-chars fuel line s br)
      ∙ >>=-assoc (chars_loop fuel line) (λ cs. pure (feed s cs)) finish_string br
      ∙ >>=-ext (chars_loop fuel line) _ _ (λ cs br'. finish_fill b bs cs br') br

  -- read_string_to_end appends the characters up to the terminator to its buffer and returns
  -- their number.
  pub read_string_to_end-chars :
      (buf : List ℕ) (line : Bool) (br : BitReader p)
      → read_string_to_end buf line br ≡ ◌>>=◌ (chars line) (λ cs. pure (length cs, buf ++ cs)) br
  unfolding read_string_to_end chars
  read_string_to_end-chars buf line br =
      to_end_loop-chars (num_bits_left br + 1) line buf 0 br
      ∙ >>=-ext (chars_loop (num_bits_left br + 1) line) _ _ (λ cs br'. ground arith) br
