-- ===== src/FieldValue.antt =====
-- crates/haste_core/src/fieldvalue.rs: the values of fields, and their conversions. `Debug` and
-- `Display` only print.
pub mod Conversions
use haste.Prelude.{
  ℕ, zero, suc, ◌^◌, Bool, true, false, ◌&&◌, ◌||◌, List, [], ◌∷◌, ltb, leb, ◌==◌, if◌then◌else◌,
}
use haste.Prelude.Int.{ℤ, pos, negsuc}
use haste.Outcome.{Result, success, failure}
use haste.Platform.{Floats}

-- An i64 is an integer, a u64 a number; a string is a slice of bytes.
pub data FieldValue (f : Floats) : Type 0 where
  i64 : ℤ → FieldValue f
  u64 : ℕ → FieldValue f
  f32 : f.F32 → FieldValue f
  boolean : Bool → FieldValue f
  vector3 : f.F32 × f.F32 × f.F32 → FieldValue f
  vector2 : f.F32 × f.F32 → FieldValue f
  vector4 : f.F32 × f.F32 × f.F32 × f.F32 → FieldValue f
  qangle : f.F32 × f.F32 × f.F32 → FieldValue f
  string : List ℕ → FieldValue f

-- `FromUtf8Error` is not looked into.
pub data FieldValueConversionError : Type 0 where
  incompatible_type_or_out_of_range_integer from_utf8_error : FieldValueConversionError

abbrev pub Converted : Type 0 → Type 0
Converted A = Result FieldValueConversionError A

-- Whether an integer is in the range of the signed type of `w + 1` bits.
abbrev pub fits_signed : ℕ → ℤ → Bool
fits_signed w (pos n) = ltb n (2 ^ w)
fits_signed w (negsuc n) = ltb n (2 ^ w)

module _ {f : Floats} where
  -- To i8, i16, i32 and i64: `w` is 7, 15, 31 and 63.
  unfoldable pub try_into_signed : ℕ → FieldValue f → Converted ℤ
  try_into_signed w (i64 value) =
      if fits_signed w value
      then success value
      else failure incompatible_type_or_out_of_range_integer
  try_into_signed w other = failure incompatible_type_or_out_of_range_integer

  -- To u8, u16, u32 and u64: `w` is 8, 16, 32 and 64.
  unfoldable pub try_into_unsigned : ℕ → FieldValue f → Converted ℕ
  try_into_unsigned w (u64 value) =
      if ltb value (2 ^ w) then success value else failure incompatible_type_or_out_of_range_integer
  try_into_unsigned w other = failure incompatible_type_or_out_of_range_integer

  unfoldable pub try_into_f32 : FieldValue f → Converted f.F32
  try_into_f32 (f32 value) = success value
  try_into_f32 other = failure incompatible_type_or_out_of_range_integer

  unfoldable pub try_into_bool : FieldValue f → Converted Bool
  try_into_bool (boolean value) = success value
  try_into_bool other = failure incompatible_type_or_out_of_range_integer

  unfoldable pub try_into_array2 : FieldValue f → Converted (f.F32 × f.F32)
  try_into_array2 (vector2 value) = success value
  try_into_array2 other = failure incompatible_type_or_out_of_range_integer

  unfoldable pub try_into_array4 : FieldValue f → Converted (f.F32 × f.F32 × f.F32 × f.F32)
  try_into_array4 (vector4 value) = success value
  try_into_array4 other = failure incompatible_type_or_out_of_range_integer

  unfoldable pub try_into_array3 : FieldValue f → Converted (f.F32 × f.F32 × f.F32)
  try_into_array3 (vector3 value) = success value
  try_into_array3 (qangle value) = success value
  try_into_array3 other = failure incompatible_type_or_out_of_range_integer

  unfoldable pub try_into_bytes : FieldValue f → Converted (List ℕ)
  try_into_bytes (string value) = success value
  try_into_bytes other = failure incompatible_type_or_out_of_range_integer

-- `b` is in the range from `lo` to `hi`.
abbrev within : ℕ → ℕ → ℕ → Bool
within lo hi b = leb lo b && leb b hi

-- What may follow the first byte of a character: how many bytes, and the range of the first of them.
abbrev continuation : ℕ → ℕ × ℕ × ℕ
continuation b =
    if within 194 223 b
    then (1, 128, 191)
    else if b == 224
    then (2, 160, 191)
    else if b == 237
    then (2, 128, 159)
    else if within 225 239 b
    then (2, 128, 191)
    else if b == 240
    then (3, 144, 191)
    else if within 241 243 b
    then (3, 128, 191)
    else if b == 244
    then (3, 128, 143)
    else (0, 0, 0)

-- Well-formed UTF-8, where `n` bytes of a character are still to come, the first in a range.
unfoldable pub is_utf8_from : ℕ → ℕ → ℕ → List ℕ → Bool
is_utf8_from zero lo hi [] = true
is_utf8_from (suc n) lo hi [] = false
is_utf8_from zero lo hi (b ∷ bs) =
    let c = continuation b in
    let rest = is_utf8_from c.0 c.1 c.2 bs in
    let same = is_utf8_from 0 0 0 bs in if ltb b 128 then same else ltb 0 c.0 && rest
is_utf8_from (suc n) lo hi (b ∷ bs) = within lo hi b && is_utf8_from n 128 191 bs

module _ {f : Floats} where
  -- `String::from_utf8`; a `String` is its bytes.
  unfoldable pub try_into_string : FieldValue f → Converted (List ℕ)
  unfolding is_utf8_from
  try_into_string (string value) =
      if is_utf8_from 0 0 0 value then success value else failure from_utf8_error
  try_into_string other = failure incompatible_type_or_out_of_range_integer
