-- ===== src/Constraint/Tokens/Fuel.antt =====
-- src/constraint/evaluator.cpp: the loop of tokenize ends, since each round consumes a character.
use Prim.Native.Nat.{ℕ, zero, suc}
use actuator_final.Prelude.{
  Bool, true, ◌≤◌, ◌≡◌, ◌&&◌, ◌||◌, [], ◌∷◌, ◌==◌, if◌then◌else◌, arith, length, length-drop,
  if-holds, Bool-cases, Option-cases, inl, inr,
}
use actuator_final.Text.{
  Text, codes, text_eq, is_space, is_digit, is_alpha, is_alnum, span, length-span, find, trim,
}
use actuator_final.Result.Ending.{Settled, Settled-bind}
use actuator_final.Constraint.Tokens.{
  Round, one_char, two_char, is_two_char_operator, number_or_operator, is_number_char, starts_digit,
  quoted, round, tokens_from, tokenize, is_word_char,
}

-- The round goes on at most `n` characters before the end.
abbrev Consumes : ℕ → Round → Type 0
Consumes n (t, rest) = length rest ≤ n

Consumes-if :
    (n : ℕ) (b : Bool) (x y : Round) → Consumes n x → Consumes n y → Consumes n (if b then x else y)
Consumes-if n b x y hx hy = if-holds (Consumes n) b hx hy

-- A word contains the character that it starts with.
length-word :
    (c : ℕ) (s : Text) → is_word_char c ≡ true → length (span is_word_char (c ∷ s)).1 ≤ length s
unfolding span
length-word c s h = rw h (length-span is_word_char s)

word_start : (c : ℕ) → is_alpha c || (c == b'_') ≡ true → is_word_char c ≡ true
unfolding is_word_char is_alnum
word_start c h = grind arith

Consumes-one_char : (c : ℕ) (s : Text) → Consumes (length s) (one_char c s)
unfolding one_char
Consumes-one_char c s =
    Consumes-if _ ((c == b'<') || ((c == b'>') || ((c == b'=') || (c == b'!')))) _ _ (omega arith)
      (elim (Bool-cases (is_alpha c || (c == b'_'))) [
        | inl e ↦ rw e (length-word c s (word_start c e))
        | inr e ↦ rw e (omega arith)
      ])

Consumes-two_char : (c : ℕ) (s : Text) → Consumes (length s) (two_char c s)
unfolding two_char
Consumes-two_char c [] = Consumes-one_char c []
Consumes-two_char c (d ∷ s) =
    let two = c ∷ d ∷ [] in
    Consumes-if _ (text_eq two (codes "&&")) _ _ (omega arith) (
      Consumes-if _ (text_eq two (codes "||")) _ _ (omega arith)
        (Consumes-if _ (is_two_char_operator two) _ _ (omega arith) (Consumes-one_char c (d ∷ s))))

Consumes-number_or_operator : (c : ℕ) (s : Text) → Consumes (length s) (number_or_operator c s)
unfolding number_or_operator
Consumes-number_or_operator c s =
    Consumes-if _ (is_digit c || ((c == b'-') && starts_digit s)) _ _ (length-span is_number_char s)
      (Consumes-two_char c s)

Consumes-quoted : (c : ℕ) (s : Text) → Consumes (length s) (quoted c s)
unfolding quoted
Consumes-quoted c s = elim (Option-cases (find (c ∷ []) s)) [
  | inl e ↦ rw (length, e) (Consumes-number_or_operator c s)
  | inr (i, e) ↦ rw (length, e) (omega (arith, length-drop (suc i) s))
]

Consumes-round : (c : ℕ) (s : Text) → Consumes (length s) (round c s)
unfolding round
Consumes-round c s = Consumes-if _ (is_space c) _ _ (omega arith) (
    Consumes-if _ (c == b'(') _ _ (omega arith) (
      Consumes-if _ (c == b')') _ _ (omega arith) (
        Consumes-if _ ((c == 39) || (c == 34)) _ _ (Consumes-quoted c s)
          (Consumes-number_or_operator c s))))

-- The tokenizer runs out of text before it runs out of fuel.
Settled-tokens_from : (fuel : ℕ) (s : Text) → length s ≤ fuel → Settled (tokens_from fuel s)
unfolding tokens_from
Settled-tokens_from zero [] h = tt
Settled-tokens_from (suc fuel) [] h = tt
Settled-tokens_from zero (c ∷ s) h = ground arith
Settled-tokens_from (suc fuel) (c ∷ s) h =
    let le : length (round c s).1 ≤ length s = Consumes-round c s in
    Settled-bind (tokens_from fuel (round c s).1) _
      (Settled-tokens_from fuel (round c s).1 (omega (arith, le))) λ ts. tt

pub Settled-tokenize : (expr : Text) → Settled (tokenize expr)
unfolding tokenize
Settled-tokenize expr = Settled-tokens_from (length (trim expr)) (trim expr) (omega arith)
