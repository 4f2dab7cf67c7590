-- ===== src/Vartype/Tokens.antt =====
-- What the tokenizer of crates/haste_vartype/src/tokenizer.rs gives for a text that was put together
-- from tokens.
use haste.Prelude.{
  ℕ, suc, ◌≡◌, refl, ap, ◌∙◌, arith, Bool, true, false, List, [], ◌∷◌, ◌++◌, none, some,
  if◌then◌else◌,
}
use haste.Outcome.{ok}
use haste.Vartype.{
  Span, new_span, TokenKind, l_angle, r_angle, l_square, r_square, asterisk, ident, lit, as_u16,
}
use haste.Vartype.Tokenizer.{
  Charsor, is_ascii_digit, is_ident_start, is_ident_continue, Next, emit, emit_word, on_char,
  next_token,
}
use haste.Vartype.Print.{text, All, Word}

abbrev pub take_while : (ℕ → Bool) → List ℕ → List ℕ
take_while f [] = []
take_while f (c ∷ cs) = if f c then c ∷ take_while f cs else []

abbrev pub drop_while : (ℕ → Bool) → List ℕ → List ℕ
drop_while f [] = []
drop_while f (c ∷ cs) = if f c then drop_while f cs else c ∷ cs

-- What the crate dungers documents of the cursor: the characters that are left, and the slice from
-- before the last character to behind those that were eaten after it.
pub record CharsorLaws (c : Charsor) : Type 1 where
  pub left : c.State → List ℕ
  pub left_new : (input : List ℕ) → left (c.new input) ≡ input
  pub next_end : (s : c.State) → left s ≡ [] → c.next s ≡ none
  pub next_char :
      (s : c.State) (ch : ℕ) (cs : List ℕ)
      → left s ≡ ch ∷ cs
      → (s' : c.State) × (c.next s ≡ some (ch, s')) × (left s' ≡ cs)
  pub left_eat_while : (f : ℕ → Bool) (s : c.State) → left (c.eat_while f s) ≡ drop_while f (left s)
  pub slice_word :
      (f : ℕ → Bool) (s s' : c.State) (ch : ℕ)
      → c.next s ≡ some (ch, s')
      → c.slice_range (c.prev_offset s') (c.offset (c.eat_while f s')) (c.eat_while f s')
        ≡ ch ∷ take_while f (left s')

-- The tokens of a list of kinds, one by one, and then the end.
abbrev pub Yields : (c : Charsor) → ℕ → c.State → List TokenKind → Type 0
Yields c bound s [] = (s' : c.State) × (next_token c false bound s ≡ ok (none, s'))
Yields c bound s (k ∷ ks) =
    (span : Span) × (s' : c.State) × (next_token c false bound s
      ≡ ok (some (record { kind = k; span = span }), s'))
    × Yields c bound s' ks

-- No word stands in front of a word, and the words are words.
abbrev pub IsMark : TokenKind → Type 0
IsMark (ident s) = ⊥
IsMark (lit s) = ⊥
IsMark _ = Unit {0}

abbrev pub MarkFirst : List TokenKind → Type 0
MarkFirst [] = Unit {0}
MarkFirst (k ∷ ks) = IsMark k

abbrev pub IsSpaced : List TokenKind → Type 0
IsSpaced [] = Unit {0}
IsSpaced (ident s ∷ ks) = Word is_ident_start is_ident_continue s × MarkFirst ks × IsSpaced ks
IsSpaced (lit s ∷ ks) = Word is_ascii_digit is_ascii_digit s × MarkFirst ks × IsSpaced ks
IsSpaced (k ∷ ks) = IsSpaced ks

-- A mark ends a word.
abbrev Stops : (ℕ → Bool) → List ℕ → Type 0
Stops f [] = Unit {0}
Stops f (c ∷ cs) = f c ≡ false

take_while-All :
    (f : ℕ → Bool) (xs ys : List ℕ) → All f xs → Stops f ys → take_while f (xs ++ ys) ≡ xs
take_while-All f [] [] a s = refl
take_while-All f [] (y ∷ ys) a s = rw s refl
take_while-All f (x ∷ xs) ys (h, a) s = rw (h, take_while-All f xs ys a s) refl

drop_while-All :
    (f : ℕ → Bool) (xs ys : List ℕ) → All f xs → Stops f ys → drop_while f (xs ++ ys) ≡ ys
drop_while-All f [] [] a s = refl
drop_while-All f [] (y ∷ ys) a s = rw s refl
drop_while-All f (x ∷ xs) ys (h, a) s = rw (h, drop_while-All f xs ys a s) refl

mark-Stops_ident : (ks : List TokenKind) → MarkFirst ks → Stops is_ident_continue (text ks)
mark-Stops_ident [] m = tt
mark-Stops_ident (l_angle ∷ ks) m = refl
mark-Stops_ident (r_angle ∷ ks) m = refl
mark-Stops_ident (l_square ∷ ks) m = refl
mark-Stops_ident (r_square ∷ ks) m = refl
mark-Stops_ident (asterisk ∷ ks) m = refl
mark-Stops_ident (ident s ∷ ks) m = absurd m
mark-Stops_ident (lit s ∷ ks) m = absurd m

mark-Stops_lit : (ks : List TokenKind) → MarkFirst ks → Stops is_ascii_digit (text ks)
mark-Stops_lit [] m = tt
mark-Stops_lit (l_angle ∷ ks) m = refl
mark-Stops_lit (r_angle ∷ ks) m = refl
mark-Stops_lit (l_square ∷ ks) m = refl
mark-Stops_lit (r_square ∷ ks) m = refl
mark-Stops_lit (asterisk ∷ ks) m = refl
mark-Stops_lit (ident s ∷ ks) m = absurd m
mark-Stops_lit (lit s ∷ ks) m = absurd m

-- Which branch of the match a first character takes.
on_ident :
    (c : Charsor) (ch : ℕ) (s : c.State) (again : c.State → Next c)
    → is_ident_start ch ≡ true
    → on_char c false ch s again ≡ emit_word c false ident is_ident_continue s
on_ident c ch s again h = ground arith

on_lit :
    (c : Charsor) (ch : ℕ) (s : c.State) (again : c.State → Next c)
    → is_ascii_digit ch ≡ true
    → on_char c false ch s again ≡ emit_word c false lit is_ascii_digit s
on_lit c ch s again h = ground arith

module _ {c : Charsor} (laws : CharsorLaws c) where
  -- One token in front of a text, and the cursor behind it.
  abbrev First : ℕ → c.State → TokenKind → List ℕ → Type 0
  First bound s k behind =
      (span : Span) × (s' : c.State) × (next_token c false (suc bound) s
        ≡ ok (some (record { kind = k; span = span }), s'))
      × (laws.left s' ≡ behind)

  First-mark :
      (bound ch : ℕ) (k : TokenKind) (s : c.State) (behind : List ℕ)
      → laws.left s ≡ ch ∷ behind
      → ((t : c.State) (again : c.State → Next c) → on_char c false ch t again ≡ emit c false k t)
      → First bound s k behind
  unfolding next_token emit new_span
  First-mark bound ch k s behind h branch =
      let (s', e, left) = laws.next_char s ch behind h in
      let span : Span = record { start = as_u16 (c.prev_offset s'); end = as_u16 (c.offset s') } in
      (span, s', rw (next_token, e, branch s' (next_token c false bound)) refl, left)

  First-Word :
      (bound : ℕ) (kind : List ℕ → TokenKind) (start continues : ℕ → Bool) (w : List ℕ)
      (s : c.State) (behind : List ℕ)
      → Word start continues w
      → Stops continues behind
      → laws.left s ≡ w ++ behind
      → ((ch : ℕ) (t : c.State) (again : c.State → Next c)
          → start ch ≡ true
          → on_char c false ch t again ≡ emit_word c false kind continues t)
      → First bound s (kind w) behind
  unfolding next_token emit_word new_span
  First-Word bound kind start continues [] s behind w stops h branch = absurd w
  First-Word bound kind start continues (ch ∷ cs) s behind (first, all) stops h branch =
      let (s', e, left) = laws.next_char s ch (cs ++ behind) h in
      let slice =
        laws.slice_word continues s s' ch e
        ∙ ap (λ (t : List ℕ). ch ∷ take_while continues t) left
        ∙ ap (λ (t : List ℕ). ch ∷ t) (take_while-All continues cs behind all stops) in
      let span : Span = record {
        start = as_u16 (c.prev_offset s');
        end = as_u16 (c.offset (c.eat_while continues s'));
      } in
      (
        span,
        c.eat_while continues s',
        rw (next_token, e, branch ch s' (next_token c false bound) first, slice) refl,
        laws.left_eat_while continues s'
            ∙ ap (drop_while continues) left
            ∙ drop_while-All continues cs behind all stops,
      )

  -- From the first token to all of them.
  and_then :
      (bound : ℕ) (s : c.State) (k : TokenKind) (ks : List TokenKind)
      → First bound s k (text ks)
      → ((s' : c.State) → laws.left s' ≡ text ks → Yields c (suc bound) s' ks)
      → Yields c (suc bound) s (k ∷ ks)
  and_then bound s k ks (span, s', e, left) ih = (span, s', e, ih s' left)

  pub text-Yields :
      (bound : ℕ) (ks : List TokenKind) (s : c.State)
      → IsSpaced ks
      → laws.left s ≡ text ks
      → Yields c (suc bound) s ks
  unfolding next_token
  text-Yields bound [] s sp h = (s, rw (next_token, laws.next_end s h) refl)
  text-Yields bound (l_angle ∷ ks) s sp h =
      and_then bound s l_angle ks (First-mark bound b'<' l_angle s (text ks) h (λ t again. refl))
        (λ s' left. text-Yields bound ks s' sp left)
  text-Yields bound (r_angle ∷ ks) s sp h =
      and_then bound s r_angle ks (First-mark bound b'>' r_angle s (text ks) h (λ t again. refl))
        (λ s' left. text-Yields bound ks s' sp left)
  text-Yields bound (l_square ∷ ks) s sp h =
      and_then bound s l_square ks (First-mark bound b'[' l_square s (text ks) h (λ t again. refl))
        (λ s' left. text-Yields bound ks s' sp left)
  text-Yields bound (r_square ∷ ks) s sp h =
      and_then bound s r_square ks (First-mark bound b']' r_square s (text ks) h (λ t again. refl))
        (λ s' left. text-Yields bound ks s' sp left)
  text-Yields bound (asterisk ∷ ks) s sp h =
      and_then bound s asterisk ks (First-mark bound b'*' asterisk s (text ks) h (λ t again. refl))
        (λ s' left. text-Yields bound ks s' sp left)
  text-Yields bound (ident w ∷ ks) s (word, mark, sp) h =
      and_then bound s (ident w) ks
        (First-Word bound ident is_ident_start is_ident_continue w s (text ks) word
          (mark-Stops_ident ks mark) h (on_ident c))
        (λ s' left. text-Yields bound ks s' sp left)
  text-Yields bound (lit w ∷ ks) s (word, mark, sp) h =
      and_then bound s (lit w) ks
        (First-Word bound lit is_ascii_digit is_ascii_digit w s (text ks) word
          (mark-Stops_lit ks mark) h (on_lit c))
        (λ s' left. text-Yields bound ks s' sp left)
