-- ===== src/Vartype/Reached.antt =====
-- The loop of the parser (crates/haste_vartype/src/parser.rs) over the tokens of a type name.
use haste.Prelude.{
  ℕ, zero, suc, ◌+◌, ◌<◌, ◌≤◌, ◌≡◌, refl, ◌∙◌, arith, false, List, [], ◌∷◌, none, some,
}
use haste.Outcome.{ok}
use haste.Vartype.{Span, TokenKind, l_angle, r_angle, l_square, r_square, asterisk}
use haste.Vartype.Tokenizer.{Charsor, next_token as next_of_tokenizer}
use haste.Vartype.Parser.{
  Expr, str, num, pointer, template, array, Parser, next_token, expect_token, parse_loop,
  parse_from,
}
use haste.Vartype.Print.{parse_usize-decimal, spell_len, spell, Len, IsTypeName}
use haste.Vartype.Tokens.{Yields}

-- The rounds of the loop that an expression takes at its own level, and with those of its arguments.
abbrev pub rounds : Expr → ℕ
rounds (pointer e) = rounds e + 1
rounds (template e arg) = rounds e + 1
rounds (array e len) = rounds e + 1
rounds _ = 0

abbrev pub size : Expr → ℕ
size (pointer e) = size e + 1
size (template e arg) = size e + size arg + 1
size (array e len) = size e + 1
size _ = 1

pub rounds_lt_size : (e : Expr) → rounds e < size e
rounds_lt_size (Expr.ident s) = omega arith
rounds_lt_size (Expr.lit l) = omega arith
rounds_lt_size (pointer e) = omega (arith, rounds_lt_size e)
rounds_lt_size (template e arg) = omega (arith, rounds_lt_size e)
rounds_lt_size (array e len) = omega (arith, rounds_lt_size e)

module _ (c : Charsor) (bound : ℕ) where
  abbrev pub at_cursor : c.State → Parser c
  at_cursor s = record { cursor = s; prev_token = none }

  -- From the tokens of `e` in front of `ks`, the parsing comes to the loop at `e` and `ks`.
  abbrev pub Reached : ℕ → c.State → Expr → List TokenKind → Type 0
  Reached fuel s e ks =
      (left : ℕ) × (s' : c.State) × (left + rounds e ≡ fuel)
      × (parse_from c false bound fuel (at_cursor s)
          ≡ parse_loop c false bound left e (at_cursor s'))
      × Yields c bound s' ks

  -- One round of the loop, for each token.
  loop_pointer :
      (fuel : ℕ) (e : Expr) (s : c.State) (ks : List TokenKind)
      → Yields c bound s (asterisk ∷ ks)
      → (s' : c.State) × (parse_loop c false bound (suc fuel) e (at_cursor s)
          ≡ parse_loop c false bound fuel (pointer e) (at_cursor s'))
        × Yields c bound s' ks
  unfolding parse_loop next_token
  loop_pointer fuel e s ks (span, s', n, y) = (s', rw (parse_loop, next_token, n) refl, y)

  pub loop_end :
      (fuel : ℕ) (e : Expr) (s : c.State)
      → Yields c bound s []
      → (q : Parser c) × (parse_loop c false bound (suc fuel) e (at_cursor s) ≡ ok (e, q))
  unfolding parse_loop next_token
  loop_end fuel e s (s', n) = (at_cursor s', rw (parse_loop, next_token, n) refl)

  loop_r_angle :
      (fuel : ℕ) (e : Expr) (s : c.State) (ks : List TokenKind)
      → Yields c bound s (r_angle ∷ ks)
      → (span : Span) × (s' : c.State) × (parse_loop c false bound (suc fuel) e (at_cursor s)
          ≡ ok (
            e,
            record { cursor = s'; prev_token = some (record { kind = r_angle; span = span }) },
          ))
        × Yields c bound s' ks
  unfolding parse_loop next_token
  loop_r_angle fuel e s ks (span, s', n, y) = (span, s', rw (parse_loop, next_token, n) refl, y)

  loop_array :
      (fuel : ℕ) (e len : Expr) (s : c.State) (ks : List TokenKind)
      → Len len
      → Yields c bound s (l_square ∷ spell_len len (r_square ∷ ks))
      → (s' : c.State) × (parse_loop c false bound (suc fuel) e (at_cursor s)
          ≡ parse_loop c false bound fuel (array e len) (at_cursor s'))
        × Yields c bound s' ks
  unfolding parse_loop next_token expect_token
  loop_array fuel e (Expr.ident w) s ks h (_, s1, n1, (_, s2, n2, (_, s3, n3, y))) = (
    s3,
    rw (parse_loop, next_token, n1, expect_token, next_token, n2, expect_token, next_token, n3)
        refl,
    y,
  )
  loop_array fuel e (Expr.lit (num n)) s ks h (_, s1, n1, (_, s2, n2, (_, s3, n3, y))) = (
    s3,
    rw (parse_loop, next_token, n1, expect_token, next_token, n2, parse_usize-decimal n h, n3) refl,
    y,
  )
  loop_array fuel e (Expr.lit (str w)) s ks h y = absurd h
  loop_array fuel e (pointer x) s ks h y = absurd h
  loop_array fuel e (template x a) s ks h y = absurd h
  loop_array fuel e (array x a) s ks h y = absurd h

  loop_template :
      (fuel : ℕ) (e arg : Expr) (s1 : c.State) (s : c.State) (ks : List TokenKind) (span : Span)
      → next_of_tokenizer c false bound s ≡ ok (some (record { kind = l_angle; span = span }), s1)
      → size arg ≤ fuel
      → Reached fuel s1 arg (r_angle ∷ ks)
      → (s' : c.State) × (parse_loop c false bound (suc fuel) e (at_cursor s)
          ≡ parse_loop c false bound fuel (template e arg) (at_cursor s'))
        × Yields c bound s' ks
  unfolding parse_loop next_token expect_token parse_from
  loop_template fuel e arg s1 s ks span n small (zero, s2, r, to, y) =
      absurd (omega (arith, rounds_lt_size arg))
  loop_template fuel e arg s1 s ks span n small (suc left, s2, r, to, y) =
      let (span', s3, at, y') = loop_r_angle left arg s2 ks y in
      (s3, rw (parse_loop, next_token, n, to, at) refl, y')

  -- One round more.
  one_more :
      (e e' : Expr) (fuel : ℕ) (s : c.State) (before behind : List TokenKind)
      → rounds e' ≡ rounds e + 1
      → rounds e < fuel
      → ((f : ℕ) (t : c.State)
          → suc f + rounds e ≡ fuel
          → Yields c bound t before
          → (t' : c.State) × (parse_loop c false bound (suc f) e (at_cursor t)
              ≡ parse_loop c false bound f e' (at_cursor t'))
            × Yields c bound t' behind)
      → Reached fuel s e before
      → Reached fuel s e' behind
  one_more e e' fuel s before behind same small step (zero, t, r, to, y) = absurd (omega arith)
  one_more e e' fuel s before behind same small step (suc f, t, r, to, y) =
      let (t', at, y') = step f t r y in (f, t', omega arith, to ∙ at, y')

  -- The tokens of a type name, in front of any tokens, are read as that type name.
  pub spell-Reached :
      (e : Expr) (fuel : ℕ) (s : c.State) (ks : List TokenKind)
      → IsTypeName e
      → size e ≤ fuel
      → Yields c bound s (spell e ks)
      → Reached fuel s e ks
  unfolding parse_from expect_token next_token
  spell-Reached (Expr.ident w) fuel s ks h small (span, s', e, y) =
      (fuel, s', omega arith, rw (parse_from, expect_token, next_token, e) refl, y)
  spell-Reached (Expr.lit l) fuel s ks h small y = absurd h
  spell-Reached (pointer e) fuel s ks h small y =
      one_more e (pointer e) fuel s (asterisk ∷ ks) ks refl (omega (arith, rounds_lt_size e))
        (λ f t r y'. loop_pointer f e t ks y')
        (spell-Reached e fuel s (asterisk ∷ ks) h (omega arith) y)
  spell-Reached (array e len) fuel s ks (h, hl) small y =
      one_more e (array e len) fuel s (l_square ∷ spell_len len (r_square ∷ ks)) ks refl
        (omega (arith, rounds_lt_size e)) (λ f t r y'. loop_array f e len t ks hl y')
        (spell-Reached e fuel s (l_square ∷ spell_len len (r_square ∷ ks)) h (omega arith) y)
  spell-Reached (template e arg) fuel s ks (h, ha) small y =
      one_more e (template e arg) fuel s (l_angle ∷ spell arg (r_angle ∷ ks)) ks refl
        (omega (arith, rounds_lt_size e))
        (λ f t r (span, t1, n, y').
          let fits : size arg ≤ f = omega (arith, rounds_lt_size e) in
          loop_template f e arg t1 t ks span n fits
            (spell-Reached arg f t1 (r_angle ∷ ks) ha fits y'))
        (spell-Reached e fuel s (l_angle ∷ spell arg (r_angle ∷ ks)) h (omega arith) y)
