-- ===== src/BitReader/Runs.antt =====
-- Rules for a reader that ends, that takes bits and counts them, and whose value has a property; and
-- the readers of crates/haste_core/src/bitreader.rs that the field decoders use.
use haste.Prelude.{
  ℕ, ◌^◌, ◌==◌, ltb, bit_and, ◌≡◌, refl, arith, Bool, true, false, List, ◌||◌, if◌then◌else◌,
}
use haste.Outcome.{Outcome, ok, err, panic, stuck, Result, success, failure, ◌>>=◌ as bind}
use haste.Platform.{Platform, Positions, Advances}
use haste.BitReader.{
  BitReader, Read, ◌>>=◌, pure, throw, delegate, read_ubit64, read_bool, read_byte, read_bytes,
  read_uvarint32, read_uvarint64, read_varint64, try_into_u32, read_ubitvar, ubitvar_rest,
  ubitvar_tail,
}
use haste.BitReader.Keeps.{Any}
use haste.BitReader.FloatReaders.{
  read_bitfloat, read_bitcoord, read_bitnormal, read_bitvec3coord, read_bitvec3normal,
  read_bitangle, flagged, coord_int, coord_fract, coord_value,
}

module _ {p : Platform} where
  -- Where a run from `br` may come to.
  abbrev pub Moved :
      {A : Type 0} → (A → Type 0) → BitReader p → Outcome p.Error (A × BitReader p) → Type 0
  Moved Q br (ok (a, br')) = Q a × Advances p br.inner br'.inner
  Moved Q br (err e) = Unit {0}
  Moved Q br panic = Unit {0}
  Moved Q br stuck = ⊥

  pub record Runs {A : Type 0} (Q : A → Type 0) (m : Read p A) : Type 0 where
    pub run : (br : BitReader p) → Moved Q br (m br)

  pub Runs-bind :
      {A B : Type 0} {P : A → Type 0} {Q : B → Type 0} {m : Read p A} {k : A → Read p B}
      → Runs P m
      → ((a : A) → P a → Runs Q (k a))
      → Runs Q (m >>= k)
  Runs-bind {A} {B} {P} {Q} {m} {k} t u = record { run = λ br. first br (m br) (t.run br) }
    where
      second :
          (br br' : BitReader p)
          → Advances p br.inner br'.inner
          → (r : Outcome p.Error (B × BitReader p)) → Moved Q br' r
          → Moved Q br r
      second br br' (x, y) (ok (b, br'')) (q, (x', y')) = (q, (omega arith, omega arith))
      second br br' s (err e) h = tt
      second br br' s panic h = tt
      second br br' s stuck h = h

      first :
          (br : BitReader p) (r : Outcome p.Error (A × BitReader p))
          → Moved P br r
          → Moved Q br (bind {B = B × BitReader p} r (λ s. k s.0 s.1))
      first br (ok (a, br')) (pa, s) = second br br' s (k a br') ((u a pa).run br')
      first br (err e) h = tt
      first br panic h = tt
      first br stuck h = h

  pub Runs-pure : {A : Type 0} {Q : A → Type 0} {v : A} → Q v → Runs Q (pure {p = p} v)
  Runs-pure q = record { run = λ br. (q, (omega arith, refl)) }

  pub Runs-throw : {A : Type 0} {Q : A → Type 0} {e : p.Error} → Runs {A = A} Q (throw {p = p} e)
  Runs-throw = record { run = λ br. tt }

  pub Runs-panic : {A : Type 0} {Q : A → Type 0} → Runs {A = A} Q (λ br. panic)
  Runs-panic = record { run = λ br. tt }

  pub Runs-if :
      {A : Type 0} {Q : A → Type 0} (b : Bool) {m m' : Read p A}
      → (b ≡ true → Runs Q m)
      → (b ≡ false → Runs Q m')
      → Runs Q (if b then m else m')
  Runs-if true t u = t refl
  Runs-if false t u = u refl

  pub Runs-weaken :
      {A : Type 0} {P Q : A → Type 0} {m : Read p A} → Runs P m → ((a : A) → P a → Q a) → Runs Q m
  Runs-weaken {A} {P} {Q} {m} t f = record { run = λ br. onto br (m br) (t.run br) }
    where
      onto :
          (br : BitReader p) (r : Outcome p.Error (A × BitReader p)) → Moved P br r → Moved Q br r
      onto br (ok (a, br')) (x, y) = (f a x, y)
      onto br (err e) h = tt
      onto br panic h = tt
      onto br stuck h = h

  pub Runs-map :
      {A B : Type 0} {P : A → Type 0} {Q : B → Type 0} {m : Read p A} (f : A → B)
      → Runs P m
      → ((a : A) → P a → Q (f a))
      → Runs Q (m >>= λ a. pure (f a))
  Runs-map f t h = Runs-bind t (λ a pa. Runs-pure (h a pa))

  Runs-delegate :
      {A : Type 0} (read : p.State → Result p.Error (A × p.State))
      → ((s : p.State) (v : A) (s' : p.State) → read s ≡ success (v, s') → Advances p s s')
      → Runs Any (delegate {p = p} read)
  Runs-delegate {A} read h = record { run = λ br. at_result br (read br.inner) refl }
    where
      at_result :
          (br : BitReader p) (r : Result p.Error (A × p.State))
          → read br.inner ≡ r
          → Moved Any br
              (elim r [ success (a, s) ↦ ok (a, record br { inner = s }) | failure e ↦ err e ])
      at_result br (success (v, s)) e = (tt, h br.inner v s e)
      at_result br (failure x) e = tt

module _ {p : Platform} (q : Positions p) where
  pub Runs-read_ubit64 : (n : ℕ) → Runs Any (read_ubit64 {p = p} n)
  unfolding read_ubit64
  Runs-read_ubit64 n = Runs-delegate (p.read_ubit64 n) (λ s v s' e. q.read_ubit64_advances n s e)

  pub Runs-read_bool : Runs Any (read_bool {p = p})
  unfolding read_bool
  Runs-read_bool = Runs-delegate p.read_bool (λ s v s' e. q.read_bool_advances s e)

  pub Runs-read_byte : Runs Any (read_byte {p = p})
  unfolding read_byte
  Runs-read_byte = Runs-delegate p.read_byte (λ s v s' e. q.read_byte_advances s e)

  pub Runs-read_bytes : (buf : List ℕ) → Runs Any (read_bytes {p = p} buf)
  unfolding read_bytes
  Runs-read_bytes buf =
      Runs-delegate (p.read_bytes buf) (λ s v s' e. (q.read_bytes_advances buf s e).0)

  pub Runs-read_uvarint32 : Runs Any (read_uvarint32 {p = p})
  unfolding read_uvarint32
  Runs-read_uvarint32 = Runs-delegate p.read_uvarint32 (λ s v s' e. q.read_uvarint32_advances s e)

  pub Runs-read_uvarint64 : Runs Any (read_uvarint64 {p = p})
  unfolding read_uvarint64
  Runs-read_uvarint64 = Runs-delegate p.read_uvarint (λ s v s' e. q.read_uvarint_advances s e)

  pub Runs-read_varint64 : Runs Any (read_varint64 {p = p})
  unfolding read_varint64
  Runs-read_varint64 = Runs-delegate p.read_varint64 (λ s v s' e. q.read_varint64_advances s e)

  pub Runs-read_ubitvar : Runs Any (read_ubitvar {p = p})
  unfolding read_ubitvar
  Runs-read_ubitvar = Runs-bind (Runs-read_ubit64 6) (λ ret _. Runs-bind (rest ret) (λ v _. fits v))
    where
      tail : (ret n : ℕ) → Runs Any (ubitvar_tail {p = p} ret n)
      tail ret n = Runs-bind (Runs-read_ubit64 n) (λ high _. Runs-pure tt)

      rest : (ret : ℕ) → Runs Any (ubitvar_rest {p = p} ret)
      rest ret =
          let flags = bit_and ret 48 in
          Runs-if (flags == 16) (λ _. tail ret 4)
            (λ _.
              Runs-if (flags == 32) (λ _. tail ret 8)
                (λ _. Runs-if (flags == 48) (λ _. tail ret 28) (λ _. Runs-pure tt)))

      fits : (v : ℕ) → Runs Any (try_into_u32 {p = p} v)
      fits v = Runs-if (ltb v (2 ^ 32)) (λ _. Runs-pure tt) (λ _. Runs-throw)

  any_flag :
      {B : Type 0} {k : Bool → Read p B}
      → ((b : Bool) → Runs Any (k b))
      → Runs Any (read_bool {p = p} >>= k)
  any_flag h = Runs-bind Runs-read_bool (λ b _. h b)

  pub Runs-flagged :
      (b : Bool) {m : Read p p.floats.F32} → Runs Any m → Runs Any (flagged {p = p} b m)
  Runs-flagged b t = Runs-if b (λ _. t) (λ _. Runs-pure tt)

  Runs-try_into_u32 : (v : ℕ) → Runs Any (try_into_u32 {p = p} v)
  Runs-try_into_u32 v = Runs-if _ (λ _. Runs-pure tt) (λ _. Runs-throw)

  pub Runs-read_bitfloat : Runs Any (read_bitfloat {p = p})
  unfolding read_bitfloat
  Runs-read_bitfloat =
      Runs-bind (Runs-read_ubit64 32)
        (λ bits _. Runs-bind (Runs-try_into_u32 bits) (λ v _. Runs-pure tt))

  Runs-coord_int : (b : Bool) → Runs Any (coord_int {p = p} b)
  Runs-coord_int b =
      Runs-if b (λ _. Runs-bind (Runs-read_ubit64 14) (λ v _. Runs-pure tt)) (λ _. Runs-pure tt)

  Runs-coord_fract : (b : Bool) → Runs Any (coord_fract {p = p} b)
  Runs-coord_fract b = Runs-if b (λ _. Runs-read_ubit64 5) (λ _. Runs-pure tt)

  Runs-coord_value : (i f : Bool) → Runs Any (coord_value {p = p} i f)
  Runs-coord_value i f = any_flag (λ sign.
      Runs-bind (Runs-coord_int i) (λ v _. Runs-bind (Runs-coord_fract f) (λ w _. Runs-pure tt)))

  pub Runs-read_bitcoord : Runs Any (read_bitcoord {p = p})
  unfolding read_bitcoord
  Runs-read_bitcoord =
      any_flag
        (λ i. any_flag (λ f. Runs-if (i || f) (λ _. Runs-coord_value i f) (λ _. Runs-pure tt)))

  pub Runs-read_bitnormal : Runs Any (read_bitnormal {p = p})
  unfolding read_bitnormal
  Runs-read_bitnormal = any_flag (λ sign. Runs-bind (Runs-read_ubit64 11) (λ _ _. Runs-pure tt))

  pub Runs-read_bitangle : (n : ℕ) → Runs Any (read_bitangle {p = p} n)
  unfolding read_bitangle
  Runs-read_bitangle n = Runs-bind (Runs-read_ubit64 n) (λ _ _. Runs-pure tt)

  pub Runs-read_bitvec3coord : Runs Any (read_bitvec3coord {p = p})
  unfolding read_bitvec3coord
  Runs-read_bitvec3coord = any_flag (λ x. any_flag (λ y. any_flag (λ z.
      Runs-bind (Runs-flagged x Runs-read_bitcoord) (λ _ _.
        Runs-bind (Runs-flagged y Runs-read_bitcoord)
          (λ _ _. Runs-bind (Runs-flagged z Runs-read_bitcoord) (λ _ _. Runs-pure tt))))))

  pub Runs-read_bitvec3normal : Runs Any (read_bitvec3normal {p = p})
  unfolding read_bitvec3normal
  Runs-read_bitvec3normal = any_flag (λ x. any_flag (λ y.
      Runs-bind (Runs-flagged x Runs-read_bitnormal) (λ _ _.
        Runs-bind (Runs-flagged y Runs-read_bitnormal)
          (λ _ _. Runs-bind Runs-read_bool (λ _ _. Runs-pure tt)))))
