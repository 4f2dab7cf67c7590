-- ===== src/Vartype/Tokenizer.antt =====
-- crates/haste_vartype/src/tokenizer.rs. `Charsor` of the crate dungers is a parameter: a cursor over
-- the characters of a string.
use haste.Prelude.{
  ℕ, zero, suc, Bool, ◌&&◌, ◌||◌, List, Option, none, some, leb, ◌==◌, if◌then◌else◌,
}
use haste.Outcome.{Outcome, ok, err, stuck, ◌>>=◌}
use haste.Vartype.{
  Error, unknown_char, new_span, TokenKind, l_angle, r_angle, l_square, r_square, asterisk, ident,
  lit, Token, as_u16,
}

pub record Charsor : Type 1 where
  pub State : Type 0
  pub new : List ℕ → State
  pub next : State → Option (ℕ × State)
  pub prev_offset : State → ℕ
  pub offset : State → ℕ
  pub eat_while : (ℕ → Bool) → State → State
  pub slice_range : ℕ → ℕ → State → List ℕ

abbrev pub between : ℕ → ℕ → ℕ → Bool
between lo hi ch = leb lo ch && leb ch hi

abbrev pub is_ascii_digit : ℕ → Bool
is_ascii_digit ch = between 48 57 ch

abbrev pub is_ident_start : ℕ → Bool
is_ident_start ch = between 65 90 ch || between 97 122 ch

abbrev pub is_ident_continue : ℕ → Bool
is_ident_continue ch = is_ident_start ch || (is_ascii_digit ch || ch == b'_')

-- `char::is_whitespace`, the Unicode property White_Space.
abbrev pub is_whitespace : ℕ → Bool
is_whitespace ch =
    between 9 13 ch
    || (ch == 32
        || (ch == 0x85
            || (ch == 0xA0
                || (ch == 0x1680
                    || (between 0x2000 0x200A ch
                        || (between 0x2028 0x2029 ch
                            || (ch == 0x202F || (ch == 0x205F || ch == 0x3000))))))))

-- The next token, the end of the input, or an error; with the cursor behind it.
abbrev pub Next : Charsor → Type 0
Next c = Outcome Error (Option Token × c.State)

module _ (c : Charsor) (checks : Bool) where
  unfoldable pub emit : TokenKind → c.State → Next c
  emit kind cursor = do
    span ← new_span checks (as_u16 (c.prev_offset cursor)) (as_u16 (c.offset cursor))
    ok (some (record { kind = kind; span = span }), cursor)

  -- `emit_ident` and `emit_lit`: the kind is made of the slice.
  unfoldable pub emit_word : (List ℕ → TokenKind) → (ℕ → Bool) → c.State → Next c
  emit_word kind continues cursor =
      let start = c.prev_offset cursor in
      let behind = c.eat_while continues cursor in
      let end = c.offset behind in
      do
        span ← new_span checks (as_u16 start) (as_u16 end)
        ok (some (record { kind = kind (c.slice_range start end behind); span = span }), behind)

  abbrev pub emit_ident : c.State → Next c
  emit_ident = emit_word ident is_ident_continue

  abbrev pub emit_lit : c.State → Next c
  emit_lit = emit_word lit is_ascii_digit

  -- The match on a character; `again` is the next round of the loop.
  abbrev pub on_char : ℕ → c.State → (c.State → Next c) → Next c
  on_char ch cursor again =
      if ch == b'<'
      then emit l_angle cursor
      else if ch == b'>'
      then emit r_angle cursor
      else if ch == b'['
      then emit l_square cursor
      else if ch == b']'
      then emit r_square cursor
      else if ch == b'*'
      then emit asterisk cursor
      else if is_ident_start ch
      then emit_ident cursor
      else if is_ascii_digit ch
      then emit_lit cursor
      else if is_whitespace ch
      then again (c.eat_while is_whitespace cursor)
      else err (unknown_char ch)

  -- `next_token`: a round of its loop reads a character.
  unfoldable pub next_token : ℕ → c.State → Next c
  next_token zero cursor = stuck
  next_token (suc fuel) cursor = elim (c.next cursor) [
    | none ↦ ok (none, cursor)
    | some (ch, behind) ↦ on_char ch behind (next_token fuel)
  ]
