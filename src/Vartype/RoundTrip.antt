-- ===== src/Vartype/RoundTrip.antt =====
-- Printing and parsing a type name (crates/haste_vartype/src/parser.rs).
use haste.Prelude.{
  ℕ, zero, suc, ◌+◌, ◌≤◌, ◌≡◌, refl, arith, Bool, false, List, [], ◌∷◌, length, length-append,
}
use native.Mathlib.Numerals.{add-one}
use haste.Outcome.{ok}
use haste.Vartype.{TokenKind, l_angle, r_angle, l_square, r_square, asterisk}
use haste.Vartype.Tokenizer.{Charsor}
use haste.Vartype.Parser.{Expr, str, num, pointer, template, array, parse}
use haste.Vartype.Print.{
  decimal, decimal-Word, spell_len, spell, text, print, Word, Len, IsTypeName,
}
use haste.Vartype.Tokens.{CharsorLaws, Yields, MarkFirst, IsSpaced, text-Yields}
use haste.Vartype.Reached.{size, rounds_lt_size, Reached, loop_end, spell-Reached}

-- The tokens of a type name are spaced, and its text has a character for each of its parts.
spell_len-IsSpaced :
    (e : Expr) (ks : List TokenKind)
    → Len e
    → MarkFirst ks
    → IsSpaced ks
    → IsSpaced (spell_len e ks)
spell_len-IsSpaced (Expr.ident w) ks h m sp = (h, m, sp)
spell_len-IsSpaced (Expr.lit (num n)) ks h m sp = (decimal-Word n, m, sp)
spell_len-IsSpaced (Expr.lit (str w)) ks h m sp = absurd h
spell_len-IsSpaced (pointer e) ks h m sp = absurd h
spell_len-IsSpaced (template e a) ks h m sp = absurd h
spell_len-IsSpaced (array e a) ks h m sp = absurd h

spell-IsSpaced :
    (e : Expr) (ks : List TokenKind)
    → IsTypeName e
    → MarkFirst ks
    → IsSpaced ks
    → IsSpaced (spell e ks)
spell-IsSpaced (Expr.ident w) ks h m sp = (h, m, sp)
spell-IsSpaced (Expr.lit l) ks h m sp = absurd h
spell-IsSpaced (pointer e) ks h m sp = spell-IsSpaced e (asterisk ∷ ks) h tt sp
spell-IsSpaced (array e len) ks (h, hl) m sp =
    spell-IsSpaced e (l_square ∷ spell_len len (r_square ∷ ks)) h tt
      (spell_len-IsSpaced len (r_square ∷ ks) hl tt sp)
spell-IsSpaced (template e arg) ks (h, ha) m sp =
    spell-IsSpaced e (l_angle ∷ spell arg (r_angle ∷ ks)) h tt
      (spell-IsSpaced arg (r_angle ∷ ks) ha tt sp)

Word-length : (f g : ℕ → Bool) (w : List ℕ) → Word f g w → 1 ≤ length w
Word-length f g [] h = absurd h
Word-length f g (c ∷ cs) h = omega arith

size-le-text :
    (e : Expr) (ks : List TokenKind)
    → IsTypeName e
    → size e + length (text ks) ≤ length (text (spell e ks))
size-le-text (Expr.ident w) ks h = omega (arith, length-append w (text ks), Word-length _ _ w h)
size-le-text (Expr.lit l) ks h = absurd h
size-le-text (pointer e) ks h = omega (arith, size-le-text e (asterisk ∷ ks) h)
size-le-text (array e len) ks (h, hl) =
    omega (
      arith,
      size-le-text e (l_square ∷ spell_len len (r_square ∷ ks)) h,
      longer len (r_square ∷ ks),
    )
  where
    longer : (n : Expr) (js : List TokenKind) → length (text js) ≤ length (text (spell_len n js))
    longer (Expr.ident w) js = omega (arith, length-append w (text js))
    longer (Expr.lit (num n)) js = omega (arith, length-append (decimal n) (text js))
    longer (Expr.lit (str w)) js = omega arith
    longer (pointer x) js = omega arith
    longer (template x a) js = omega arith
    longer (array x a) js = omega arith
size-le-text (template e arg) ks (h, ha) = omega (
  arith,
  size-le-text e (l_angle ∷ spell arg (r_angle ∷ ks)) h,
  size-le-text arg (r_angle ∷ ks) ha,
)

-- In a build without debug assertions, parsing the text of a type name ends with that type name: of
-- an expression that is made of identifiers, pointers, templates and arrays, whose lengths are
-- identifiers or numbers below 2 ^ 64.
pub parse-print :
    {c : Charsor} (laws : CharsorLaws c) (e : Expr) → IsTypeName e → parse c false (print e) ≡ ok e
unfolding parse
parse-print {c} laws e h =
    let n = length (print e) in
    let y : Yields c (n + 1) (c.new (print e)) (spell e []) = rw add-one (
      text-Yields laws n (spell e []) (c.new (print e)) (spell-IsSpaced e [] h tt tt)
        (laws.left_new (print e))) in
    ended (
      spell-Reached c (n + 1) e (n + 1) (c.new (print e)) [] h (omega (arith, size-le-text e [] h))
        y)
  where
    ended :
        Reached c (length (print e) + 1) (length (print e) + 1) (c.new (print e)) e []
        → parse c false (print e) ≡ ok e
    ended (zero, s', r, to, y) = absurd (omega (arith, size-le-text e [] h, rounds_lt_size e))
    ended (suc left, s', r, to, y) =
        let (q, at) = loop_end c (length (print e) + 1) left e s' y in rw (parse, to, at) refl
