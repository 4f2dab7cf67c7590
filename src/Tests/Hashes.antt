-- ===== src/Tests/Hashes.antt =====
-- The theorems on the hash at concrete inputs.
use haste.Prelude.{ℕ, ◌≡◌, refl, arith, [], ◌∷◌}
use haste.FxHash.{add_u64_to_hash, hash_bytes}
use haste.FxHash.Injective.{add_u64_to_hash-injective, hash_bytes_one_byte}

hash_of_a : hash_bytes (b'a' ∷ []) ≡ 0xe0456665d3e60275
unfolding hash_bytes add_u64_to_hash
hash_of_a = refl

add_u64_to_hash-injective_example :
    (◌≡◌ {A = ℕ} 1 1 → ◌≡◌ {A = ℕ} 7 7) × (◌≡◌ {A = ℕ} 7 7 → ◌≡◌ {A = ℕ} 1 1)
add_u64_to_hash-injective_example =
    add_u64_to_hash-injective 1 1 7 7 (omega arith) (omega arith) (omega arith) (omega arith) refl

hash_bytes_one_byte_example : ◌≡◌ {A = ℕ} b'x' b'x'
hash_bytes_one_byte_example =
    hash_bytes_one_byte (b'm' ∷ b'_' ∷ []) (b'1' ∷ []) b'x' b'x' (omega arith) (omega arith)
      (omega arith) refl
