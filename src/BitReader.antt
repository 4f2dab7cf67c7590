-- ===== src/BitReader.antt =====
-- crates/haste_core/src/bitreader.rs. A method that reads takes the reader and returns the value
-- with the reader behind it; `?` is the bind of `Read`. On an error the reader is dropped, as every
-- caller in the crates passes the error on.
pub mod Takes
pub mod Varints
pub mod Keeps
pub mod Strings
pub mod FloatReaders
pub mod FloatBits
pub mod Runs
pub mod Seeks
use haste.Prelude.{
  ℕ, zero, suc, ◌+◌, ◌-◌, ◌*◌, ◌%◌, ◌^◌, ◌≡◌, refl, arith, Bool, true, false, ◌&&◌, ◌||◌, List, [],
  ◌∷◌, ◌++◌, bit_and, bit_or, ltb, leb, ◌==◌, if◌then◌else◌, length, set,
}
use haste.Prelude.Int.{ℤ, pos, negsuc}
use haste.Outcome.{
  Outcome, ok, err, panic, stuck, Result, success, failure, ◌>>=◌ as bind, >>=-eq-ok as bind-eq-ok,
}
use haste.Platform.{Platform, Floats}

pub record BitReader (p : Platform) : Type 0 where
  pub inner : p.State
  pub did_check_overflow : Bool

abbrev pub Read : Platform → Type 0 → Type 0
Read p A = BitReader p → Outcome p.Error (A × BitReader p)

infixl 5 ◌>>=◌
abbrev pub ◌>>=◌ : {p : Platform} {A B : Type 0} → Read p A → (A → Read p B) → Read p B
◌>>=◌ m f br = bind (m br) (λ r. f r.0 r.1)

abbrev pub ◌>>◌ : {p : Platform} {B : Type 0} → Read p (Unit {0}) → Read p B → Read p B
◌>>◌ m k = m >>= λ _. k

abbrev pub pure : {p : Platform} {A : Type 0} → A → Read p A
pure a br = ok (a, br)

abbrev pub throw : {p : Platform} {A : Type 0} → p.Error → Read p A
throw e br = err e

-- A step that does not read.
abbrev pub lift : {p : Platform} {A : Type 0} → Outcome p.Error A → Read p A
lift r br = bind r (λ a. ok (a, br))

-- A method that is delegated to the inner reader.
abbrev pub delegate :
    {p : Platform} {A : Type 0} → (p.State → Result p.Error (A × p.State)) → Read p A
delegate read br = elim (read br.inner) [
  | success (a, s) ↦ ok (a, record br { inner = s })
  | failure e ↦ err e
]

pub >>=-eq-ok :
    {p : Platform} {A B : Type 0} (m : Read p A) (f : A → Read p B) (br : BitReader p) {b : B}
    {br'' : BitReader p}
    → ◌>>=◌ {p = p} m f br ≡ ok (b, br'')
    → (a : A) × (br' : BitReader p) × (m br ≡ ok (a, br')) × (f a br' ≡ ok (b, br''))
>>=-eq-ok m f br h = let ((a, br'), e, r) = bind-eq-ok (m br) (λ r. f r.0 r.1) h in (a, br', e, r)

-- Two continuations that agree on every value.
pub >>=-ext :
    {p : Platform} {A B : Type 0} (m : Read p A) (f g : A → Read p B)
    → ((a : A) (br : BitReader p) → f a br ≡ g a br)
    → (br : BitReader p) → ◌>>=◌ {p = p} m f br ≡ ◌>>=◌ {p = p} m g br
>>=-ext {p} {A} {B} m f g h br = at_result (m br)
  where
    at_result :
        (r : Outcome p.Error (A × BitReader p))
        → bind {B = B × BitReader p} r (λ s. f s.0 s.1)
          ≡ bind {B = B × BitReader p} r (λ s. g s.0 s.1)
    at_result (ok (a, br')) = h a br'
    at_result (err e) = refl
    at_result panic = refl
    at_result stuck = refl

pub >>=-assoc :
    {p : Platform} {A B C : Type 0} (m : Read p A) (f : A → Read p B) (g : B → Read p C)
    (br : BitReader p)
    → ◌>>=◌ {p = p} (◌>>=◌ {p = p} m f) g br ≡ ◌>>=◌ {p = p} m (λ a. ◌>>=◌ {p = p} (f a) g) br
>>=-assoc {p} {A} {B} {C} m f g br = at_result (m br)
  where
    at_result :
        (r : Outcome p.Error (A × BitReader p))
        → bind {B = C × BitReader p}
            (bind {B = B × BitReader p} r (λ s. f s.0 s.1))
            (λ s. g s.0 s.1)
          ≡ bind {B = C × BitReader p} r
              (λ s. bind {B = C × BitReader p} (f s.0 s.1) (λ t. g t.0 t.1))
    at_result (ok (a, br')) = refl
    at_result (err e) = refl
    at_result panic = refl
    at_result stuck = refl

pub delegate-eq-ok :
    {p : Platform} {A : Type 0} (read : p.State → Result p.Error (A × p.State)) (br : BitReader p)
    {a : A} {br' : BitReader p}
    → delegate {p = p} read br ≡ ok (a, br')
    → read br.inner ≡ success (a, br'.inner)
delegate-eq-ok read br h = ground arith

-- `num_bits as isize`
abbrev pub as_isize : ℕ → ℤ
as_isize n = if ltb n (2 ^ 63) then pos n else negsuc (2 ^ 64 - n - 1)

module _ {p : Platform} where
  unfoldable pub new : List ℕ → BitReader p
  new bytes = record { inner = p.new bytes; did_check_overflow = false }

  abbrev pub num_bits_left : BitReader p → ℕ
  num_bits_left br = p.num_bits_left br.inner

  abbrev pub num_bits_read : BitReader p → ℕ
  num_bits_read br = p.num_bits_read br.inner

  unfoldable pub read_ubit64 : ℕ → Read p ℕ
  read_ubit64 n = delegate (p.read_ubit64 n)

  unfoldable pub read_bool : Read p Bool
  read_bool = delegate p.read_bool

  unfoldable pub read_byte : Read p ℕ
  read_byte = delegate p.read_byte

  unfoldable pub read_bits : List ℕ → ℕ → Read p (List ℕ)
  read_bits buf n = delegate (p.read_bits buf n)

  unfoldable pub read_bytes : List ℕ → Read p (List ℕ)
  read_bytes buf = delegate (p.read_bytes buf)

  -- The flag is set on the error path too: the result and the reader are returned apart.
  unfoldable pub is_overflowed : BitReader p → Result p.Error (Unit {0}) × BitReader p
  is_overflowed br = (p.is_overflowed br.inner, record br { did_check_overflow = true })

  unfoldable pub skip_bits : ℕ → Read p (Unit {0})
  skip_bits n br = elim (p.seek_relative (as_isize n) br.inner) [
    | success s ↦ ok (tt, record br { inner = s })
    | failure e ↦ err e
  ]

  unfoldable pub read_uvarint32 : Read p ℕ
  read_uvarint32 = delegate p.read_uvarint32

  unfoldable pub read_uvarint64 : Read p ℕ
  read_uvarint64 = delegate p.read_uvarint

  unfoldable pub read_varint32 : Read p ℤ
  read_varint32 = delegate p.read_varint32

  unfoldable pub read_varint64 : Read p ℤ
  read_varint64 = delegate p.read_varint64

  -- `ret.try_into()` to u32
  abbrev pub try_into_u32 : ℕ → Read p ℕ
  try_into_u32 v = if ltb v (2 ^ 32) then pure v else throw p.try_from_int

  -- `(ret & 15) | (self.read_ubit64(n)? << 4)`
  abbrev pub ubitvar_tail : ℕ → ℕ → Read p ℕ
  ubitvar_tail ret n = do
    high ← read_ubit64 n
    pure (bit_or (bit_and ret 15) (high * 2 ^ 4 % 2 ^ 64))

  abbrev pub ubitvar_rest : ℕ → Read p ℕ
  ubitvar_rest ret =
      let flags = bit_and ret 48 in
      if flags == 16
      then ubitvar_tail ret 4
      else if flags == 32
      then ubitvar_tail ret 8
      else if flags == 48
      then ubitvar_tail ret 28
      else pure ret

  unfoldable pub read_ubitvar : Read p ℕ
  read_ubitvar = do first ← read_ubit64 6; ret ← ubitvar_rest first; try_into_u32 ret

  -- The chain of `else if self.read_bool()?`: a read for each test, until one holds.
  abbrev pub ubitvarfp_value : Read p ℕ
  ubitvarfp_value = do
    b2 ← read_bool
    if b2 then read_ubit64 2 else do
      b4 ← read_bool
      if b4 then read_ubit64 4 else do
        b10 ← read_bool
        if b10
            then read_ubit64 10
            else do b17 ← read_bool; if b17 then read_ubit64 17 else read_ubit64 31

  unfoldable pub read_ubitvarfp : Read p ℕ
  read_ubitvarfp = do ret ← ubitvarfp_value; try_into_u32 ret

-- The state of the loop of `read_string`.
pub record StringState : Type 0 where
  pub buf : List ℕ
  pub num_chars : ℕ
  pub too_small : Bool

-- The two branches behind the test for the end of the string.
abbrev pub put_char : StringState → ℕ → StringState
put_char s val =
    if ltb s.num_chars (length s.buf - 1)
    then record s { buf = set s.buf s.num_chars val; num_chars = s.num_chars + 1 }
    else record s { too_small = true }

-- `val == 0 || (line && val == b'\n')`
abbrev pub ends_string : Bool → ℕ → Bool
ends_string line val = val == 0 || (line && val == b'\n')

module _ {p : Platform} where
  unfoldable pub string_loop : ℕ → Bool → StringState → Read p StringState
  string_loop zero line s = λ br. stuck
  string_loop (suc fuel) line s = do
    val ← read_byte
    let rest = string_loop fuel line (put_char s val)
    if ends_string line val then pure s else rest

  -- Behind the loop: the terminator, and the test whether the string did fit.
  abbrev pub finish_string : StringState → Read p (ℕ × List ℕ)
  finish_string s =
      if leb (length s.buf) s.num_chars
      then throw p.buffer_too_small
      else (let buf = set s.buf s.num_chars 0 in
          if s.too_small then throw p.buffer_too_small else pure (s.num_chars, buf))

  -- Returns the count and the buffer. Each round reads a byte, so the bits left bound the rounds.
  unfoldable pub read_string : List ℕ → Bool → Read p (ℕ × List ℕ)
  unfolding string_loop
  read_string [] line br = throw p.buffer_too_small br
  read_string (b ∷ bs) line br =
      let start : StringState = record { buf = b ∷ bs; num_chars = 0; too_small = false } in
      ◌>>=◌ (string_loop (num_bits_left br + 1) line start) finish_string br

  unfoldable pub string_to_end_loop : ℕ → Bool → List ℕ → ℕ → Read p (ℕ × List ℕ)
  string_to_end_loop zero line buf num_chars = λ br. stuck
  string_to_end_loop (suc fuel) line buf num_chars = do
    val ← read_byte
    let rest = string_to_end_loop fuel line (buf ++ (val ∷ [])) (num_chars + 1)
    if ends_string line val then pure (num_chars, buf) else rest

  unfoldable pub read_string_to_end : List ℕ → Bool → Read p (ℕ × List ℕ)
  unfolding string_to_end_loop
  read_string_to_end buf line br = string_to_end_loop (num_bits_left br + 1) line buf 0 br
