-- ===== src/FxHash.antt =====
-- crates/haste_core/src/fxhash.rs, and the field keys that crates/haste_core/src/entities.rs builds
-- by it.
pub mod Injective
use haste.Prelude.{ℕ, ◌*◌, ◌/◌, ◌-◌, ◌%◌, ◌^◌, bit_or, bit_xor, List, [], ◌∷◌}
use haste.Outcome.{Outcome, ok, panic}

abbrev pub golden_ratio : ℕ
golden_ratio = 0x517cc1b727220a95

-- `u64::rotate_left` by `ROTATION_LENGTH`, which is 5.
unfoldable pub rotate_left_5 : ℕ → ℕ
rotate_left_5 h = bit_or (h / 2 ^ 59) (h * 2 ^ 5 % 2 ^ 64)

unfoldable pub add_u64_to_hash : ℕ → ℕ → ℕ
unfolding rotate_left_5
add_u64_to_hash hash value = bit_xor (rotate_left_5 hash) value * golden_ratio % 2 ^ 64

-- The loop of `hash_bytes` over the bytes from `i` on.
unfoldable pub hash_from : ℕ → List ℕ → ℕ
hash_from hash [] = hash
hash_from hash (byte ∷ bytes) = hash_from (add_u64_to_hash hash byte) bytes

unfoldable pub hash_bytes : List ℕ → ℕ
unfolding hash_from
hash_bytes bytes = hash_from 0 bytes

-- The loop of `fkey_from_path` over the parts from `i` on.
unfoldable pub fkey_from : ℕ → List (List ℕ) → ℕ
fkey_from hash [] = hash
fkey_from hash (part ∷ parts) = fkey_from (add_u64_to_hash hash (hash_bytes part)) parts

-- `path[0]` of an empty path panics.
unfoldable pub fkey_from_path {κ} : {E : Type κ} → List (List ℕ) → Outcome E ℕ
unfolding fkey_from
fkey_from_path [] = panic
fkey_from_path (part ∷ parts) = ok (fkey_from (hash_bytes part) parts)
