-- ===== src/Vartype.antt =====
-- crates/haste_vartype/src: `error.rs`, `span.rs` and the tokens of `tokenizer.rs`. A string is the list
-- of its characters, a character is its code.
pub mod Tokenizer
pub mod Parser
pub mod Print
pub mod Tokens
pub mod Reached
pub mod RoundTrip
use haste.Prelude.{ℕ, ◌%◌, ◌^◌, Bool, List, leb, if◌then◌else◌}
use haste.Outcome.{Outcome, ok, panic}

pub data Error : Type 0 where
  unknown_char : ℕ → Error
  unexpected_eof : Error
  unexpected_token : ℕ → Error

pub record Span : Type 0 where
  pub start : ℕ
  pub end : ℕ

-- `Span::new`, with the `debug_assert!` of a build with debug assertions.
unfoldable pub new_span : Bool → ℕ → ℕ → Outcome Error Span
new_span checks start end =
    let span : Span = record { start = start; end = end } in
    if checks then (if leb start end then ok span else panic) else ok span

pub data TokenKind : Type 0 where
  l_angle r_angle l_square r_square asterisk : TokenKind
  ident lit : List ℕ → TokenKind

pub record Token : Type 0 where
  pub kind : TokenKind
  pub span : Span

-- `start as u16`
abbrev pub as_u16 : ℕ → ℕ
as_u16 n = n % 2 ^ 16
