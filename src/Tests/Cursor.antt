-- ===== src/Tests/Cursor.antt =====
-- A cursor over a list of characters, and the parser of the type names on it.
use mathlib.Core.List.{append_assoc}
use haste.Prelude.{
  ℕ, ◌-◌, ◌≡◌, refl, ap, ◌∙◌, arith, Bool, true, false, List, [], ◌∷◌, ◌++◌, Option, none, some,
  length, length-append, take, drop, take-length-append,
}
use haste.Outcome.{ok}
use haste.Vartype.{new_span}
use haste.Vartype.Tokenizer.{Charsor, next_token as next_of_tokenizer, emit, emit_word}
use haste.Vartype.Parser.{
  Expr, num, pointer, template, array, parse, parse_from, parse_loop, next_token, expect_token,
}
use haste.Vartype.Print.{print}
use haste.Vartype.Tokens.{CharsorLaws, take_while, drop_while}
use haste.Vartype.RoundTrip.{parse-print}

-- The characters behind the cursor, those before it, and where the last one stands.
pub record Cursor : Type 0 where
  passed : List ℕ
  left : List ℕ
  prev : ℕ

abbrev next_char : Cursor → Option (ℕ × Cursor)
next_char s = elim s.left [
  | [] ↦ none
  | ch ∷ cs ↦
      some (ch, record { passed = s.passed ++ (ch ∷ []); left = cs; prev = length s.passed })
]

abbrev eat : (ℕ → Bool) → Cursor → Cursor
eat f s = record s { passed = s.passed ++ take_while f s.left; left = drop_while f s.left }

abbrev pub cursor : Charsor
cursor = record {
  State = Cursor;
  new = λ input. record { passed = []; left = input; prev = 0 };
  next = next_char;
  prev_offset = λ s. s.prev;
  offset = λ s. length s.passed;
  eat_while = eat;
  slice_range = λ start end s. take (end - start) (drop start (s.passed ++ s.left));
}

drop-length-append : (xs ys : List ℕ) → drop (length xs) (xs ++ ys) ≡ ys
drop-length-append [] ys = refl
drop-length-append (x ∷ xs) ys = drop-length-append xs ys

behind_word :
    (p tw dw : List ℕ) (x : ℕ)
    → take
        (length ((p ++ (x ∷ [])) ++ tw) - length p)
        (drop (length p) (((p ++ (x ∷ [])) ++ tw) ++ dw))
      ≡ x ∷ tw
behind_word p tw dw x =
    let joined : ((p ++ (x ∷ [])) ++ tw) ++ dw ≡ p ++ ((x ∷ tw) ++ dw) =
      ap (λ (l : List ℕ). l ++ dw) (append_assoc p (x ∷ []) tw) ∙ append_assoc p (x ∷ tw) dw in
    let long : length ((p ++ (x ∷ [])) ++ tw) - length p ≡ length (x ∷ tw) =
      omega (arith, length-append (p ++ (x ∷ [])) tw, length-append p (x ∷ [])) in
    rw (joined, long, drop-length-append p ((x ∷ tw) ++ dw)) (take-length-append (x ∷ tw) dw)

slice_word :
    (f : ℕ → Bool) (s s' : Cursor) (ch : ℕ)
    → next_char s ≡ some (ch, s')
    → take
        (length (eat f s').passed - s'.prev)
        (drop s'.prev ((eat f s').passed ++ (eat f s').left))
      ≡ ch ∷ take_while f s'.left
slice_word f s s' ch h = by_left s.left h
  where
    by_left :
        (l : List ℕ)
        → next_char (record s { left = l }) ≡ some (ch, s')
        → take
            (length (eat f s').passed - s'.prev)
            (drop s'.prev ((eat f s').passed ++ (eat f s').left))
          ≡ ch ∷ take_while f s'.left
    by_left [] e = absurd (cc)
    by_left (x ∷ xs) e =
        let behind : Cursor = record {
          passed = s.passed ++ (x ∷ []);
          left = xs;
          prev = length s.passed;
        } in
        let same : behind ≡ s' = cc in
        let first : x ≡ ch = cc in
        rw (← same, ← first) (behind_word s.passed (take_while f xs) (drop_while f xs) x)

cursor-CharsorLaws : CharsorLaws cursor
cursor-CharsorLaws = record {
  left = λ s. s.left;
  left_new = λ input. refl;
  next_end = λ s h. rw h refl;
  next_char = λ s ch cs h. (
    record { passed = s.passed ++ (ch ∷ []); left = cs; prev = length s.passed },
    rw h refl,
    refl,
  );
  left_eat_while = λ f s. refl;
  slice_word = slice_word;
}

-- CHandle<A>[24]
abbrev handles : Expr
handles =
    array (template (Expr.ident (b'C' ∷ b'H' ∷ [])) (Expr.ident (b'A' ∷ []))) (Expr.lit (num 24))

parse-print_example : parse cursor false (print handles) ≡ ok handles
parse-print_example =
    parse-print cursor-CharsorLaws handles (((refl, (refl, tt)), (refl, tt)), omega arith)

-- ` A* `, with spaces.
spaces : parse cursor true (b' ' ∷ b'A' ∷ b'*' ∷ b' ' ∷ []) ≡ ok (pointer (Expr.ident (b'A' ∷ [])))
unfolding parse parse_from parse_loop next_token expect_token next_of_tokenizer emit emit_word
    new_span
spaces = refl

-- Behind a closing bracket at the top the rest of the input is not read.
rest_unread : parse cursor true (b'A' ∷ b'>' ∷ b'?' ∷ []) ≡ ok (Expr.ident (b'A' ∷ []))
unfolding parse parse_from parse_loop next_token expect_token next_of_tokenizer emit emit_word
    new_span
rest_unread = refl
