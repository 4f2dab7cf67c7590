-- ===== src/FxHash/Injective.antt =====
-- crates/haste_core/src/fxhash.rs: which inputs a step of the hash tells apart.
use haste.Prelude.{
  ℕ, ◌+◌, ◌*◌, ◌/◌, ◌%◌, ◌^◌, ◌<◌, ◌≡◌, refl, sym, ap, ◌∙◌, arith, bit_xor, List, [], ◌∷◌, ◌++◌,
}
use haste.Prelude.Bits.{bit_or_low, bit_xor-lt, bit_xor-bit_xor, bit_xor_comm}
use haste.FxHash.{golden_ratio, rotate_left_5, add_u64_to_hash, hash_from, hash_bytes}

rotate_left_5-eq : (h : ℕ) → h < 2 ^ 64 → rotate_left_5 h ≡ h % 2 ^ 59 * 32 + h / 2 ^ 59
unfolding rotate_left_5
rotate_left_5-eq h small =
    let e : h * 2 ^ 5 % 2 ^ 64 ≡ h % 2 ^ 59 * 2 ^ 5 = omega arith in
    rw (e, bit_or_low 5 (h % 2 ^ 59) (h / 2 ^ 59) (omega arith)) (omega arith)

rotate_left_5-lt : (h : ℕ) → h < 2 ^ 64 → rotate_left_5 h < 2 ^ 64
rotate_left_5-lt h small = rw (rotate_left_5-eq h small) (omega arith)

rotate_left_5-injective :
    (g h : ℕ) → g < 2 ^ 64 → h < 2 ^ 64 → rotate_left_5 g ≡ rotate_left_5 h → g ≡ h
rotate_left_5-injective g h hg hh e = omega (arith, rotate_left_5-eq g hg, rotate_left_5-eq h hh)

-- The inverse of the golden ratio modulo 2 ^ 64.
abbrev inverse : ℕ
inverse = 0x2040003d780970bd

times_golden-inverse : (x : ℕ) → x < 2 ^ 64 → x * golden_ratio % 2 ^ 64 * inverse % 2 ^ 64 ≡ x
times_golden-inverse x h = omega arith

pub add_u64_to_hash-lt : (h v : ℕ) → add_u64_to_hash h v < 2 ^ 64
unfolding add_u64_to_hash
add_u64_to_hash-lt h v = omega arith

module _ (g h v w : ℕ) (hg : g < 2 ^ 64) (hh : h < 2 ^ 64) (hv : v < 2 ^ 64) (hw : w < 2 ^ 64) where
  same_mix :
      add_u64_to_hash g v ≡ add_u64_to_hash h w
      → bit_xor (rotate_left_5 g) v ≡ bit_xor (rotate_left_5 h) w
  unfolding add_u64_to_hash
  same_mix e =
      let a =
        times_golden-inverse _ (bit_xor-lt 64 (rotate_left_5 g) v (rotate_left_5-lt g hg) hv) in
      let b =
        times_golden-inverse _ (bit_xor-lt 64 (rotate_left_5 h) w (rotate_left_5-lt h hh) hw) in
      sym a ∙ ap (λ (t : ℕ). t * inverse % 2 ^ 64) e ∙ b

  same_value : add_u64_to_hash g v ≡ add_u64_to_hash h w → v ≡ w → g ≡ h
  same_value e same =
      let x = bit_xor-bit_xor 64 (rotate_left_5 g) v (rotate_left_5-lt g hg) hv in
      let y = bit_xor-bit_xor 64 (rotate_left_5 h) w (rotate_left_5-lt h hh) hw in
      rotate_left_5-injective g h hg hh (
        sym x
        ∙ ap (λ (t : ℕ). bit_xor t v) (same_mix e)
        ∙ ap (λ (t : ℕ). bit_xor (bit_xor (rotate_left_5 h) w) t) same
        ∙ y)

  same_hash : add_u64_to_hash g v ≡ add_u64_to_hash h w → g ≡ h → v ≡ w
  same_hash e same =
      let a = rotate_left_5 g in
      let b = rotate_left_5 h in
      let x = bit_xor-bit_xor 64 v a hv (rotate_left_5-lt g hg) in
      let y = bit_xor-bit_xor 64 w b hw (rotate_left_5-lt h hh) in
      let p = bit_xor_comm 64 v a hv (rotate_left_5-lt g hg) in
      let q = bit_xor_comm 64 w b hw (rotate_left_5-lt h hh) in
      sym x
      ∙ ap (λ (t : ℕ). bit_xor t a) (p ∙ same_mix e ∙ sym q)
      ∙ ap (λ (t : ℕ). bit_xor (bit_xor w b) (rotate_left_5 t)) same
      ∙ y

  -- A step is one to one in the value and in the hash: if two steps on u64s agree, then their
  -- hashes are equal exactly when their values are.
  pub add_u64_to_hash-injective :
      add_u64_to_hash g v ≡ add_u64_to_hash h w → (g ≡ h → v ≡ w) × (v ≡ w → g ≡ h)
  add_u64_to_hash-injective e = (same_hash e, same_value e)

abbrev pub AllBytes : List ℕ → Type 0
AllBytes [] = Unit {0}
AllBytes (b ∷ bs) = (b < 256) × AllBytes bs

hash_from-lt : (h : ℕ) (bs : List ℕ) → h < 2 ^ 64 → hash_from h bs < 2 ^ 64
unfolding hash_from
hash_from-lt h [] small = small
hash_from-lt h (b ∷ bs) small = hash_from-lt (add_u64_to_hash h b) bs (add_u64_to_hash-lt h b)

hash_from-injective :
    (g h : ℕ) (bs : List ℕ)
    → g < 2 ^ 64
    → h < 2 ^ 64
    → AllBytes bs
    → hash_from g bs ≡ hash_from h bs
    → g ≡ h
unfolding hash_from
hash_from-injective g h [] hg hh t e = e
hash_from-injective g h (b ∷ bs) hg hh (hb, t) e =
    let step =
      hash_from-injective (add_u64_to_hash g b) (add_u64_to_hash h b) bs (add_u64_to_hash-lt g b)
        (add_u64_to_hash-lt h b) t e in
    (add_u64_to_hash-injective g h b b hg hh (omega arith) (omega arith) step).1 refl

hash_from-append : (h : ℕ) (xs ys : List ℕ) → hash_from h (xs ++ ys) ≡ hash_from (hash_from h xs) ys
unfolding hash_from
hash_from-append h [] ys = refl
hash_from-append h (x ∷ xs) ys = hash_from-append (add_u64_to_hash h x) xs ys

-- Two byte strings that differ in one byte at most have equal hashes only if they are equal: the
-- bytes `b` and `c` between the same front and the same end are then the same.
pub hash_bytes_one_byte :
    (front end : List ℕ) (b c : ℕ)
    → AllBytes end
    → b < 256
    → c < 256
    → hash_bytes (front ++ (b ∷ end)) ≡ hash_bytes (front ++ (c ∷ end))
    → b ≡ c
unfolding hash_bytes hash_from
hash_bytes_one_byte front end b c t hb hc e =
    let h = hash_from 0 front in
    let small = hash_from-lt 0 front (omega arith) in
    let split = sym (hash_from-append 0 front (b ∷ end)) ∙ e ∙ hash_from-append 0 front (c ∷ end) in
    let step =
      hash_from-injective (add_u64_to_hash h b) (add_u64_to_hash h c) end (add_u64_to_hash-lt h b)
        (add_u64_to_hash-lt h c) t split in
    (add_u64_to_hash-injective h h b c small small (omega arith) (omega arith) step).0 refl
