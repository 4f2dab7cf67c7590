-- ===== src/Vartype/Parser.antt =====
-- crates/haste_vartype/src/parser.rs.
use haste.Prelude.{
  ℕ, zero, suc, ◌+◌, ◌-◌, ◌*◌, ◌^◌, Bool, true, false, List, [], ◌∷◌, Option, none, some, ltb,
  if◌then◌else◌, length,
}
use haste.Outcome.{Outcome, ok, err, panic, stuck, ◌>>=◌}
use haste.Vartype.{
  Error, unexpected_eof, unexpected_token, TokenKind, l_angle, r_angle, l_square, r_square,
  asterisk, Token,
}
use haste.Vartype.Tokenizer.{Charsor, next_token as next_of_tokenizer, is_ascii_digit}

pub data Lit : Type 0 where
  str : List ℕ → Lit
  num : ℕ → Lit

pub data Expr : Type 0 where
  ident : List ℕ → Expr
  lit : Lit → Expr
  pointer : Expr → Expr
  template : Expr → Expr → Expr
  array : Expr → Expr → Expr

-- `lit.parse::<usize>()` of digits.
unfoldable pub parse_digits : ℕ → List ℕ → Option ℕ
parse_digits value [] = some value
parse_digits value (d ∷ ds) =
    let next = value * 10 + (d - 48) in
    let rest = parse_digits next ds in
    if is_ascii_digit d then (if ltb next (2 ^ 64) then rest else none) else none

unfoldable pub parse_usize : List ℕ → Option ℕ
unfolding parse_digits
parse_usize [] = none
parse_usize (d ∷ ds) = parse_digits 0 (d ∷ ds)

abbrev pub is_ident : TokenKind → Bool
is_ident (TokenKind.ident s) = true
is_ident _ = false

abbrev pub is_r_angle : TokenKind → Bool
is_r_angle r_angle = true
is_r_angle _ = false

abbrev pub is_r_square : TokenKind → Bool
is_r_square r_square = true
is_r_square _ = false

-- The number that a literal is, or where it stood if it fits no usize.
abbrev pub num_len : Option ℕ → ℕ → Outcome Error Expr
num_len (some n) start = ok (lit (num n))
num_len none start = err (unexpected_token start)

-- The length of an array: an identifier or a number.
abbrev pub array_len : Token → Outcome Error Expr
array_len token = elim token.kind [
  | TokenKind.ident s ↦ ok (Expr.ident s)
  | TokenKind.lit s ↦ num_len (parse_usize s) token.span.start
  | _ ↦ err (unexpected_token token.span.start)
]

pub record Parser (c : Charsor) : Type 0 where
  pub cursor : c.State
  pub prev_token : Option Token

module _ (c : Charsor) (checks : Bool) where
  abbrev pub Step : Type 0 → Type 0
  Step A = Outcome Error (A × Parser c)

  abbrev pub new : List ℕ → Parser c
  new input = record { cursor = c.new input; prev_token = none }

  module _ (bound : ℕ) where
    -- `next_token`; `bound` is the fuel of the tokenizer's loop.
    unfoldable pub next_token : Parser c → Step (Option Token)
    next_token parser = elim parser.prev_token [
      | some token ↦ ok (some token, record parser { prev_token = none })
      | none ↦ do
        (token, cursor) ← next_of_tokenizer c checks bound parser.cursor
        ok (token, record parser { cursor = cursor })
    ]

    abbrev pub is_expected : (TokenKind → Bool) → Option Token × Parser c → Step Token
    is_expected f (some token, parser) =
        if f token.kind then ok (token, parser) else err (unexpected_token token.span.start)
    is_expected f (none, parser) = err unexpected_eof

    unfoldable pub expect_token : (TokenKind → Bool) → Parser c → Step Token
    unfolding next_token
    expect_token f parser = next_token parser >>= is_expected f

    -- `parse`, whose loop is `again`.
    abbrev pub parse_with : (Expr → Parser c → Step Expr) → Parser c → Step Expr
    parse_with again parser = do
      (first, parser1) ← expect_token is_ident parser
      elim first.kind [ TokenKind.ident s ↦ again (ident s) parser1 | _ ↦ panic ]

    -- The match in the loop; `again` is the next round.
    abbrev pub on_token : Token → Expr → Parser c → (Expr → Parser c → Step Expr) → Step Expr
    on_token token expr parser again = elim token.kind [
      | l_angle ↦ do
        (arg, parser1) ← parse_with again parser
        (rangle, parser2) ← expect_token is_r_angle parser1
        again (template expr arg) parser2
      | l_square ↦ do
        (identorlit, parser1) ← expect_token (λ kind. true) parser
        len ← array_len identorlit
        (rsquare, parser2) ← expect_token is_r_square parser1
        again (array expr len) parser2
      | asterisk ↦ again (pointer expr) parser
      | r_angle ↦ ok (expr, record parser { prev_token = some token })
      | r_square ↦ ok (expr, record parser { prev_token = some token })
      | _ ↦ err (unexpected_token token.span.start)
    ]

    abbrev pub on_next : Option Token × Parser c → Expr → (Expr → Parser c → Step Expr) → Step Expr
    on_next (none, parser) expr again = ok (expr, parser)
    on_next (some token, parser) expr again = on_token token expr parser again

    unfoldable pub parse_loop : ℕ → Expr → Parser c → Step Expr
    unfolding expect_token
    parse_loop zero expr parser = stuck
    parse_loop (suc fuel) expr parser =
        next_token parser >>= λ next. on_next next expr (parse_loop fuel)

    unfoldable pub parse_from : ℕ → Parser c → Step Expr
    unfolding expect_token
    parse_from fuel parser = parse_with (parse_loop fuel) parser

  -- `parse`. A round of a loop takes a token, and a token takes a character, so one more than the
  -- characters is enough for both loops.
  unfoldable pub parse : List ℕ → Outcome Error Expr
  unfolding parse_from
  parse input = do
    (expr, parser) ← parse_from (length input + 1) (length input + 1) (new input)
    ok expr
