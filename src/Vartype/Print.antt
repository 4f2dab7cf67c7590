-- ===== src/Vartype/Print.antt =====
-- The type names that crates/haste_vartype/src reads, printed: an expression as tokens, and tokens as
-- characters.
use haste.Prelude.{
  ℕ, zero, suc, ◌+◌, ◌/◌, ◌%◌, ◌^◌, ◌<◌, ◌≡◌, arith, Bool, true, List, [], ◌∷◌, ◌++◌, some, ltb,
  if◌then◌else◌,
}
use haste.Vartype.{TokenKind, l_angle, r_angle, l_square, r_square, asterisk, ident, lit}
use haste.Vartype.Tokenizer.{is_ascii_digit, is_ident_start, is_ident_continue}
use haste.Vartype.Parser.{Expr, num, pointer, template, array, parse_digits, parse_usize}

-- The decimal digits of `n` in front of `behind`.
unfoldable pub decimal_onto : ℕ → ℕ → List ℕ → List ℕ
decimal_onto zero n behind = behind
decimal_onto (suc fuel) n behind =
    let rest = decimal_onto fuel (n / 10) ((48 + n % 10) ∷ behind) in
    if ltb n 10 then (48 + n) ∷ behind else rest

abbrev pub decimal : ℕ → List ℕ
decimal n = decimal_onto (n + 1) n []

-- The tokens of an expression, in front of `behind`.
abbrev pub spell_len : Expr → List TokenKind → List TokenKind
spell_len (Expr.ident s) behind = ident s ∷ behind
spell_len (Expr.lit (num n)) behind = lit (decimal n) ∷ behind
spell_len _ behind = behind

abbrev pub spell : Expr → List TokenKind → List TokenKind
spell (Expr.ident s) behind = ident s ∷ behind
spell (Expr.lit l) behind = behind
spell (pointer e) behind = spell e (asterisk ∷ behind)
spell (template e arg) behind = spell e (l_angle ∷ spell arg (r_angle ∷ behind))
spell (array e len) behind = spell e (l_square ∷ spell_len len (r_square ∷ behind))

abbrev pub kind_text : TokenKind → List ℕ
kind_text l_angle = b'<' ∷ []
kind_text r_angle = b'>' ∷ []
kind_text l_square = b'[' ∷ []
kind_text r_square = b']' ∷ []
kind_text asterisk = b'*' ∷ []
kind_text (ident s) = s
kind_text (lit s) = s

abbrev pub text : List TokenKind → List ℕ
text [] = []
text (k ∷ ks) = kind_text k ++ text ks

-- `CHandle<CBaseEntity>[24]`, without spaces.
abbrev pub print : Expr → List ℕ
print e = text (spell e [])

abbrev pub All : (ℕ → Bool) → List ℕ → Type 0
All f [] = Unit {0}
All f (c ∷ cs) = (f c ≡ true) × All f cs

-- A first character, and those that continue it.
abbrev pub Word : (ℕ → Bool) → (ℕ → Bool) → List ℕ → Type 0
Word start continues [] = ⊥
Word start continues (c ∷ cs) = (start c ≡ true) × All continues cs

abbrev pub Ident : List ℕ → Type 0
Ident s = Word is_ident_start is_ident_continue s

-- What `array_len` accepts.
abbrev pub Len : Expr → Type 0
Len (Expr.ident s) = Ident s
Len (Expr.lit (num n)) = n < 2 ^ 64
Len _ = ⊥

-- The expressions that are made of identifiers, pointers, templates and arrays.
abbrev pub IsTypeName : Expr → Type 0
IsTypeName (Expr.ident s) = Ident s
IsTypeName (Expr.lit l) = ⊥
IsTypeName (pointer e) = IsTypeName e
IsTypeName (template e arg) = IsTypeName e × IsTypeName arg
IsTypeName (array e len) = IsTypeName e × Len len

-- `parse_digits` reads the digits of a number that fits.
parse_digits-decimal_onto :
    (fuel n : ℕ) (behind : List ℕ)
    → n < fuel
    → n < 2 ^ 64
    → parse_digits 0 (decimal_onto fuel n behind) ≡ parse_digits n behind
unfolding parse_digits decimal_onto
parse_digits-decimal_onto zero n behind h small = absurd (omega arith)
parse_digits-decimal_onto (suc fuel) n behind h small =
    ground (arith, parse_digits-decimal_onto fuel (n / 10) ((48 + n % 10) ∷ behind))

digits-decimal_onto :
    (fuel n : ℕ) (behind : List ℕ)
    → n < fuel
    → All is_ascii_digit behind
    → Word is_ascii_digit is_ascii_digit (decimal_onto fuel n behind)
unfolding decimal_onto
digits-decimal_onto zero n behind h b = absurd (omega arith)
digits-decimal_onto (suc fuel) n behind h b =
    ground (arith, digits-decimal_onto fuel (n / 10) ((48 + n % 10) ∷ behind))

pub decimal-Word : (n : ℕ) → Word is_ascii_digit is_ascii_digit (decimal n)
decimal-Word n = digits-decimal_onto (n + 1) n [] (omega arith) tt

pub parse_usize-decimal : (n : ℕ) → n < 2 ^ 64 → parse_usize (decimal n) ≡ some n
unfolding parse_usize
parse_usize-decimal n h =
    nonempty (decimal n) (decimal-Word n) (parse_digits-decimal_onto (n + 1) n [] (omega arith) h)
  where
    nonempty :
        (s : List ℕ)
        → Word is_ascii_digit is_ascii_digit s
        → parse_digits 0 s ≡ some n
        → parse_usize s ≡ some n
    nonempty [] w e = absurd w
    nonempty (c ∷ cs) w e = e
