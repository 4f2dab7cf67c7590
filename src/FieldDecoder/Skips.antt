-- ===== src/FieldDecoder/Skips.antt =====
-- `skip` of crates/haste_core/src/fielddecoder.rs against `decode`.
use haste.Prelude.{
  ℕ, zero, suc, ◌+◌, ◌≡◌, refl, sym, subst, ◌∙◌, arith, Bool, true, false, List, [], ◌∷◌, ◌||◌,
  ◌&&◌, ap, length, leb, ◌==◌, if◌then◌else◌, take,
}
use haste.Outcome.{Outcome, ok, err, panic, stuck, ◌>>=◌ as bind}
use haste.Platform.{Platform, Floats}
use haste.BitReader.{
  BitReader, Read, ◌>>=◌, ◌>>◌, >>=-assoc, >>=-ext, pure, read_ubit64, read_bool, read_byte,
  num_bits_left,
}
use haste.BitReader.Strings.{chars, chars_loop, read_string_to_end-chars}
use haste.BitReader.FloatReaders.{read_bitangle, read_bitvec3coord, flagged}
use haste.QuantizedFloat.Skips.{ignore, skip-decode as skip-decode_quantized}
use haste.FieldValue.{FieldValue, string, qangle}
use haste.FieldDecoder.{
  FieldDecodeContext, InternalF32Decoder, simulation_time, coord, normal, no_scale, quantized,
  FieldDecoder, invalid_decoder, i64_decoder, u64_decoder, u64_fixed64_decoder, bool_decoder,
  string_decoder, f32_decoder, vector3_decoder, vector3_normal_decoder, vector2_decoder,
  vector4_decoder, qangle_pitch_yaw_decoder, qangle_no_bit_count_decoder, qangle_precise_decoder,
  qangle_bit_count_decoder, decode_f32, skip_f32, decode, skip, value, same_context, skip_vector,
  skip_string, skip_string_loop, decode_string, precise, precise_value, when_set, twice, thrice,
  four_times,
}

-- Between two decodes the buffer is empty.
abbrev pub IsClean : {f : Floats} → FieldDecodeContext f → Type 0
IsClean ctx = ctx.string_buf ≡ []

take_all : (cs : List ℕ) → take (length cs) cs ≡ cs
take_all [] = refl
take_all (c ∷ cs) = ap (λ ds. c ∷ ds) (take_all cs)

module _ {p : Platform} where
  -- `s` does what `m` does, but for the value.
  abbrev pub Ignores : {A : Type 0} → Read p A → Read p (Unit {0}) → Type 0
  Ignores m s = (br : BitReader p) → s br ≡ ignore m br

  Ignores-bind :
      {A B : Type 0} (m : Read p A) (k : A → Read p B) (s t : Read p (Unit {0}))
      → Ignores m s
      → ((a : A) → Ignores (k a) t)
      → Ignores (m >>= k) (do s; t)
  Ignores-bind {A} {B} m k s t e f br = rw (e br) (at_result (m br))
    where
      at_result :
          (r : Outcome p.Error (A × BitReader p))
          → bind (bind {B = Unit {0} × BitReader p} r (λ x. ok (tt, x.1))) (λ x. t x.1)
            ≡ bind {B = Unit {0} × BitReader p}
                (bind {B = B × BitReader p} r (λ x. k x.0 x.1))
                (λ x. ok (tt, x.1))
      at_result (ok (a, br')) = f a br'
      at_result (err x) = refl
      at_result panic = refl
      at_result stuck = refl

  -- A read that both of them make.
  Ignores-shared :
      {A B : Type 0} (m : Read p A) (k : A → Read p B) (s : A → Read p (Unit {0}))
      → ((a : A) → Ignores (k a) (s a))
      → Ignores (m >>= k) (m >>= s)
  Ignores-shared m k s f br =
      >>=-ext m s (λ a. ignore (k a)) f br ∙ sym (>>=-assoc m k (λ _. pure tt) br)

  -- A value that is made from what is read.
  Ignores-map :
      {A B : Type 0} (m : Read p A) (make : A → B) → Ignores (do a ← m; pure (make a)) (ignore m)
  Ignores-map m make br = sym (>>=-assoc m _ (λ _. pure tt) br)

  Ignores-twice :
      {A : Type 0} (m : Read p A) (s : Read p (Unit {0}))
      → Ignores m s
      → Ignores (twice m) (skip_vector 2 s)
  Ignores-twice m s e = Ignores-bind m _ s _ e (λ x. Ignores-bind m _ s _ e (λ y br. refl))

  Ignores-thrice :
      {A : Type 0} (m : Read p A) (s : Read p (Unit {0}))
      → Ignores m s
      → Ignores (thrice m) (skip_vector 3 s)
  Ignores-thrice m s e =
      Ignores-bind m _ s _ e
        (λ x. Ignores-bind m _ s _ e (λ y. Ignores-bind m _ s _ e (λ z br. refl)))

  Ignores-four_times :
      {A : Type 0} (m : Read p A) (s : Read p (Unit {0}))
      → Ignores m s
      → Ignores (four_times m) (skip_vector 4 s)
  Ignores-four_times m s e = Ignores-bind m _ s _ e (λ x.
      Ignores-bind m _ s _ e
        (λ y. Ignores-bind m _ s _ e (λ z. Ignores-bind m _ s _ e (λ w br. refl))))

  Ignores-angle : (n : ℕ) → Ignores (read_bitangle n) (ignore (read_ubit64 n))
  unfolding read_bitangle
  Ignores-angle n = Ignores-map (read_ubit64 n) _

  Ignores-flagged :
      (b : Bool) → Ignores (flagged b (read_bitangle 20)) (when_set b (ignore (read_ubit64 20)))
  Ignores-flagged true = Ignores-angle 20
  Ignores-flagged false = λ br. refl

  Ignores-precise_value :
      (rx ry rz : Bool)
      → Ignores (precise_value rx ry rz) (do
        when_set rx (ignore (read_ubit64 20))
        when_set ry (ignore (read_ubit64 20))
        when_set rz (ignore (read_ubit64 20))
        pure tt)
  Ignores-precise_value rx ry rz = Ignores-bind _ _ _ _ (Ignores-flagged rx) (λ x.
      Ignores-bind _ _ _ _ (Ignores-flagged ry)
        (λ y. Ignores-bind _ _ _ _ (Ignores-flagged rz) (λ z br. refl)))

  Ignores-precise : Ignores (precise precise_value) (
      precise (λ rx ry rz. do
        when_set rx (ignore (read_ubit64 20))
        when_set ry (ignore (read_ubit64 20))
        when_set rz (ignore (read_ubit64 20))
        pure tt))
  Ignores-precise = Ignores-shared read_bool _ _ (λ rx.
      Ignores-shared read_bool _ _
        (λ ry. Ignores-shared read_bool _ _ (λ rz. Ignores-precise_value rx ry rz)))

  Ignores-f32 :
      (k : InternalF32Decoder p.floats) (ctx : FieldDecodeContext p.floats)
      → Ignores (decode_f32 {p = p} k ctx) (skip_f32 k ctx)
  unfolding decode_f32 skip_f32
  Ignores-f32 (quantized qf) ctx = skip-decode_quantized qf
  Ignores-f32 simulation_time ctx = λ br. refl
  Ignores-f32 coord ctx = λ br. refl
  Ignores-f32 normal ctx = λ br. refl
  Ignores-f32 no_scale ctx = λ br. refl

  -- Which characters are kept does not matter to the loop that skips.
  Ignores-round :
      (val : ℕ) (b : Bool) (more : Read p (List ℕ)) (skip_more : Read p (Unit {0}))
      → Ignores more skip_more
      → Ignores
          (if b || (false && val == b'\n') then pure [] else do cs ← more; pure (val ∷ cs))
          (if b then pure tt else skip_more)
  Ignores-round val true more skip_more e = λ br. refl
  Ignores-round val false more skip_more e = λ br. e br ∙ Ignores-map more (λ cs. val ∷ cs) br

  Ignores-string_loop : (fuel : ℕ) → Ignores (chars_loop {p = p} fuel false) (skip_string_loop fuel)
  unfolding chars_loop skip_string_loop
  Ignores-string_loop zero = λ br. refl
  Ignores-string_loop (suc fuel) = Ignores-shared read_byte _ _ (λ val.
      Ignores-round val (val == 0) (chars_loop fuel false) (skip_string_loop fuel)
        (Ignores-string_loop fuel))

  pub Ignores-string : Ignores (chars {p = p} false) skip_string
  unfolding chars
  Ignores-string br = Ignores-string_loop (num_bits_left br + 1) br

  -- With an empty buffer, a string is the characters up to its terminator.
  pub decode_string-chars :
      (ctx : FieldDecodeContext p.floats) (br : BitReader p)
      → IsClean ctx
      → decode_string ctx br ≡ value {p = p} ctx string (chars false) br
  decode_string-chars ctx br clean =
      subst
        (λ (c : FieldDecodeContext p.floats).
          decode_string {p = p} c br ≡ value {p = p} c string (chars false) br)
        (let same : record ctx { string_buf = [] } ≡ ctx =
            ap (λ b. record ctx { string_buf = b }) (sym clean) in
          same)
        empty
    where
      c0 : FieldDecodeContext p.floats
      c0 = record ctx { string_buf = [] }

      within_buffer : ℕ × List ℕ → Read p (FieldValue p.floats × FieldDecodeContext p.floats)
      within_buffer (n, buf) =
          if leb n (length buf) then pure (string (take n buf), c0) else λ b. panic

      kept :
          (cs : List ℕ) (br' : BitReader p)
          → within_buffer (length cs, cs) br' ≡ ok ((string cs, c0), br')
      kept cs br' = rw (take_all cs) (ground arith)

      empty : decode_string {p = p} c0 br ≡ value {p = p} c0 string (chars false) br
      empty =
          ap
            (λ (r : Outcome p.Error ((ℕ × List ℕ) × BitReader p)).
              bind r (λ x. within_buffer x.0 x.1))
            (read_string_to_end-chars [] false br)
          ∙ >>=-assoc (chars false) (λ cs. pure {A = ℕ × List ℕ} (length cs, cs)) within_buffer br
          ∙ >>=-ext (chars false) _ _ kept br

  -- The context comes back as it was.
  context_back :
      {A : Type 0} (ctx : FieldDecodeContext p.floats) (make : A → FieldValue p.floats)
      (m : Read p A) (s : Read p (Unit {0}))
      → Ignores m s
      → (br : BitReader p) → same_context {p = p} ctx s br ≡ (do r ← value ctx make m; pure r.1) br
  context_back {A} ctx make m s e br = rw (e br) (at_result (m br))
    where
      at_result :
          (r : Outcome p.Error (A × BitReader p))
          → bind
              (bind {B = Unit {0} × BitReader p} r (λ x. ok (tt, x.1)))
              (λ x. pure {p = p} ctx x.1)
            ≡ bind
                (bind {B = (FieldValue p.floats × FieldDecodeContext p.floats) × BitReader p} r
                  (λ x. ok ((make x.0, ctx), x.1)))
                (λ x. ok (x.0.1, x.1))
      at_result (ok (a, br')) = refl
      at_result (err x) = refl
      at_result panic = refl
      at_result stuck = refl

  -- With an empty buffer, `skip` of every decoder does what `decode` does, but for the value: the
  -- same reader and context, and the same error or panic.
  pub skip-decode_decoder :
      (d : FieldDecoder p.floats) (ctx : FieldDecodeContext p.floats) (br : BitReader p)
      → IsClean ctx
      → skip d ctx br ≡ (do r ← decode d ctx; pure r.1) br
  unfolding skip decode
  skip-decode_decoder string_decoder ctx br clean =
      rw (decode_string-chars ctx br clean)
        (context_back ctx string (chars false) skip_string Ignores-string br)
  skip-decode_decoder (f32_decoder k) ctx br clean = context_back ctx _ _ _ (Ignores-f32 k ctx) br
  skip-decode_decoder (vector3_decoder k) ctx br clean =
      context_back ctx _ _ _ (Ignores-thrice _ _ (Ignores-f32 k ctx)) br
  skip-decode_decoder (vector2_decoder k) ctx br clean =
      context_back ctx _ _ _ (Ignores-twice _ _ (Ignores-f32 k ctx)) br
  skip-decode_decoder (vector4_decoder k) ctx br clean =
      context_back ctx _ _ _ (Ignores-four_times _ _ (Ignores-f32 k ctx)) br
  skip-decode_decoder (qangle_pitch_yaw_decoder n) ctx br clean =
      context_back ctx _ _ _ (Ignores-twice _ _ (Ignores-angle n)) br
  skip-decode_decoder qangle_no_bit_count_decoder ctx br clean =
      context_back ctx qangle read_bitvec3coord _ (λ b. refl) br
  skip-decode_decoder qangle_precise_decoder ctx br clean =
      context_back ctx _ _ _ Ignores-precise br
  skip-decode_decoder (qangle_bit_count_decoder n) ctx br clean =
      context_back ctx _ _ _ (Ignores-thrice _ _ (Ignores-angle n)) br
  skip-decode_decoder invalid_decoder ctx br clean = refl
  skip-decode_decoder i64_decoder ctx br clean = refl
  skip-decode_decoder u64_decoder ctx br clean = refl
  skip-decode_decoder u64_fixed64_decoder ctx br clean = refl
  skip-decode_decoder bool_decoder ctx br clean = refl
  skip-decode_decoder vector3_normal_decoder ctx br clean = refl
