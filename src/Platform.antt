-- ===== src/Platform.antt =====
-- What the crates take from outside: the bit buffer of the crate `dungers` under
-- crates/haste_core/src/bitreader.rs, single precision floats, and whether the build has overflow
-- checks. All of it is one parameter, `Platform`; `Documented` states what the code relies on.
use haste.Prelude.{ℕ, ◌+◌, ◌-◌, ◌*◌, ◌^◌, ◌≤◌, ◌<◌, ◌≡◌, Bool, List, length}
use haste.Prelude.Int.{ℤ, pos, negsuc, ◌≤ℤ◌}
use haste.Outcome.{Result, success}

-- `f32` and `f64`, with the operations and the casts that the modelled code applies to them;
-- `literal n k` is the literal n / 10 ^ k.
pub record Floats : Type 1 where
  pub F32 : Type 0
  pub F64 : Type 0
  pub literal : ℕ → ℕ → F32
  pub from_bits : ℕ → F32
  pub of_ℕ : ℕ → F32
  pub of_ℤ : ℤ → F32
  pub to_i32 : F32 → ℤ
  pub add : F32 → F32 → F32
  pub sub : F32 → F32 → F32
  pub mul : F32 → F32 → F32
  pub div : F32 → F32 → F32
  pub neg : F32 → F32
  pub sqrt : F32 → F32
  pub abs : F32 → F32
  pub eq : F32 → F32 → Bool
  pub lt : F32 → F32 → Bool
  pub le : F32 → F32 → Bool
  pub of_f32 : F32 → F64
  pub of_u32 : ℕ → F64
  pub to_f32 : F64 → F32
  pub to_u32 : F64 → ℕ
  pub mul64 : F64 → F64 → F64
  pub div64 : F64 → F64 → F64
  pub lt64 : F64 → F64 → Bool

-- `dungers::bitbuf::BitReader` is `State`, `BitError` is `Error`; a read returns what it read and
-- the reader behind it; where the code goes on after a read that failed, `after_failed_..` is the reader that
-- is left. `overflow_checks` is the profile's setting: with it an arithmetic overflow
-- panics, without it the value wraps.
pub record Platform : Type 1 where
  pub State : Type 0
  pub Error : Type 0
  pub buffer_too_small : Error
  pub try_from_int : Error
  pub malformed_varint : Error
  pub new : List ℕ → State
  pub num_bits_left : State → ℕ
  pub num_bits_read : State → ℕ
  pub read_ubit64 : ℕ → State → Result Error (ℕ × State)
  pub read_bool : State → Result Error (Bool × State)
  pub read_byte : State → Result Error (ℕ × State)
  pub read_bits : List ℕ → ℕ → State → Result Error (List ℕ × State)
  pub read_bytes : List ℕ → State → Result Error (List ℕ × State)
  pub is_overflowed : State → Result Error (Unit {0})
  pub seek_relative : ℤ → State → Result Error State
  pub read_uvarint32 : State → Result Error (ℕ × State)
  pub read_uvarint : State → Result Error (ℕ × State)
  pub read_varint32 : State → Result Error (ℤ × State)
  pub read_varint64 : State → Result Error (ℤ × State)
  pub after_failed_ubit64 : ℕ → State → State
  pub after_failed_uvarint32 : State → State
  pub get_bit_for_bit_num : ℕ → ℕ
  pub floats : Floats
  pub overflow_checks : Bool

-- What `dungers` documents of the reads that succeed: the range of the value, and how many bits
-- are taken. A seek by `n` bits goes where a read of `n` bits goes.
pub record Documented (p : Platform) : Type 1 where
  pub read_ubit64_bounds :
      (n : ℕ) (s : p.State) {v : ℕ} {s' : p.State}
      → p.read_ubit64 n s ≡ success (v, s')
      → (v < 2 ^ n) × (p.num_bits_left s' + n ≡ p.num_bits_left s)
  pub read_bool_left :
      (s : p.State) {v : Bool} {s' : p.State}
      → p.read_bool s ≡ success (v, s')
      → p.num_bits_left s' + 1 ≡ p.num_bits_left s
  pub read_byte_bounds :
      (s : p.State) {v : ℕ} {s' : p.State}
      → p.read_byte s ≡ success (v, s')
      → (v < 256) × (p.num_bits_left s' + 8 ≡ p.num_bits_left s)
  pub read_varint32_bounds :
      (s : p.State) {v : ℤ} {s' : p.State}
      → p.read_varint32 s ≡ success (v, s')
      → (negsuc (2 ^ 31 - 1) ≤ℤ v)
        × (v ≤ℤ pos (2 ^ 31 - 1))
        × (p.num_bits_left s' ≤ p.num_bits_left s)
  pub seek_relative_of_read :
      (n : ℕ) (s : p.State) {v : ℕ} {s' : p.State}
      → p.read_ubit64 n s ≡ success (v, s')
      → p.seek_relative (pos n) s ≡ success s'

-- Bits are only taken, and what is taken is counted.
abbrev pub Advances : (p : Platform) → p.State → p.State → Type 0
Advances p s s' =
    (p.num_bits_left s' ≤ p.num_bits_left s)
    × (p.num_bits_read s' + p.num_bits_left s' ≡ p.num_bits_read s + p.num_bits_left s)

-- What `dungers` documents of the position: every read advances it, and a seek goes
-- where a read of as many bits goes, in one step or in two.
pub record Positions (p : Platform) : Type 1 where
  pub read_ubit64_advances :
      (n : ℕ) (s : p.State) {v : ℕ} {s' : p.State}
      → p.read_ubit64 n s ≡ success (v, s')
      → Advances p s s'
  pub read_bool_advances :
      (s : p.State) {v : Bool} {s' : p.State} → p.read_bool s ≡ success (v, s') → Advances p s s'
  pub read_byte_advances :
      (s : p.State) {v : ℕ} {s' : p.State} → p.read_byte s ≡ success (v, s') → Advances p s s'
  pub read_bytes_advances :
      (buf : List ℕ) (s : p.State) {v : List ℕ} {s' : p.State}
      → p.read_bytes buf s ≡ success (v, s')
      → Advances p s s' × (p.num_bits_left s' + 8 * length buf ≡ p.num_bits_left s)
  pub read_uvarint32_advances :
      (s : p.State) {v : ℕ} {s' : p.State} → p.read_uvarint32 s ≡ success (v, s') → Advances p s s'
  pub read_uvarint_advances :
      (s : p.State) {v : ℕ} {s' : p.State} → p.read_uvarint s ≡ success (v, s') → Advances p s s'
  pub read_varint64_advances :
      (s : p.State) {v : ℤ} {s' : p.State} → p.read_varint64 s ≡ success (v, s') → Advances p s s'
  pub seek_relative_of_bool :
      (s : p.State) {v : Bool} {s' : p.State}
      → p.read_bool s ≡ success (v, s')
      → p.seek_relative (pos 1) s ≡ success s'
  pub seek_relative_of_bytes :
      (buf : List ℕ) (s : p.State) {v : List ℕ} {s' : p.State}
      → p.read_bytes buf s ≡ success (v, s')
      → p.seek_relative (pos (8 * length buf)) s ≡ success s'
  pub seek_relative_none : (s : p.State) → p.seek_relative (pos 0) s ≡ success s
  pub seek_relative_again :
      (m n : ℕ) (s : p.State) {s' s'' : p.State}
      → p.seek_relative (pos m) s ≡ success s'
      → p.seek_relative (pos n) s' ≡ success s''
      → p.seek_relative (pos (m + n)) s ≡ success s''
