-- ===== src/Constraint/Tokens.antt =====
-- src/constraint/evaluator.cpp: tokenize. The index `i` into the trimmed text is the suffix that starts
-- there. A round of the loop consumes at least one character, so the length of the text is fuel
-- enough.
pub mod Fuel
use Prim.Native.Nat.{ℕ, zero, suc}
use actuator_final.Prelude.{
  Bool, false, ◌&&◌, ◌||◌, List, [], ◌∷◌, Option, none, some, ◌==◌, if◌then◌else◌, length, take,
  drop,
}
use actuator_final.Result.{Result, ok, err, out_of_fuel, ◌>>=◌}
use actuator_final.Text.{
  Text, codes, text_eq, is_space, is_digit, is_alpha, is_alnum, span, find, trim,
}
use actuator_final.Value.{is_true_word, is_false_word}

pub data TokenType : Type 0 where
  number string identifier operator lparen rparen and or not end : TokenType

pub data Token : Type 0 where
  token : TokenType → Text → Token

-- What one round of the loop pushes, if anything, and the suffix at which it goes on.
abbrev pub Round : Type 0
Round = Option Token × Text

unfoldable is_number_char : ℕ → Bool
is_number_char c = is_digit c || (c == b'.')

unfoldable is_word_char : ℕ → Bool
is_word_char c = is_alnum c || (c == b'_')

unfoldable is_two_char_operator : Text → Bool
is_two_char_operator two =
    text_eq two (codes "==")
    || (text_eq two (codes "!=")
        || (text_eq two (codes "<=")
            || (text_eq two (codes ">=")
                || (text_eq two (codes "<<") || text_eq two (codes ">>")))))

unfoldable pub word_token : Text → Token
unfolding is_true_word is_false_word
word_token word =
    if text_eq word (codes "and") || text_eq word (codes "AND")
    then token TokenType.and (codes "&&")
    else if text_eq word (codes "or") || text_eq word (codes "OR")
    then token TokenType.or (codes "||")
    else if text_eq word (codes "not") || text_eq word (codes "NOT")
    then token TokenType.not (codes "!")
    else if is_true_word word
    then token number (codes "1")
    else if is_false_word word
    then token number (codes "0")
    else token identifier word

-- The last tests of a round: one-character operators, words, and characters that are skipped.
unfoldable one_char : ℕ → Text → Round
unfolding is_word_char word_token
one_char c s =
    let (word, rest) = span is_word_char (c ∷ s) in
    if (c == b'<') || ((c == b'>') || ((c == b'=') || (c == b'!')))
    then (some (token operator (c ∷ [])), s)
    else if is_alpha c || (c == b'_')
    then (some (word_token word), rest)
    else (none, s)

unfoldable two_char : ℕ → Text → Round
unfolding one_char is_two_char_operator
two_char c [] = one_char c []
two_char c (d ∷ s) =
    let two = c ∷ d ∷ [] in
    if text_eq two (codes "&&")
    then (some (token TokenType.and (codes "&&")), s)
    else if text_eq two (codes "||")
    then (some (token TokenType.or (codes "||")), s)
    else if is_two_char_operator two
    then (some (token operator two), s)
    else one_char c (d ∷ s)

unfoldable starts_digit : Text → Bool
starts_digit [] = false
starts_digit (c ∷ s) = is_digit c

unfoldable number_or_operator : ℕ → Text → Round
unfolding two_char is_number_char starts_digit
number_or_operator c s =
    let (digits, rest) = span is_number_char s in
    if is_digit c || ((c == b'-') && starts_digit s)
    then (some (token number (c ∷ digits)), rest)
    else two_char c s

-- A quote with no partner falls through to the tests that follow.
unfoldable quoted : ℕ → Text → Round
unfolding number_or_operator find
quoted c s = elim (find (c ∷ []) s) [
  | some i ↦ (some (token string (take i s)), drop (suc i) s)
  | none ↦ number_or_operator c s
]

-- One round, at the character `c` with `s` behind it.
unfoldable pub round : ℕ → Text → Round
unfolding quoted
round c s =
    if is_space c
    then (none, s)
    else if c == b'('
    then (some (token lparen (codes "(")), s)
    else if c == b')'
    then (some (token rparen (codes ")")), s)
    else if (c == 39) || (c == 34)
    then quoted c s
    else number_or_operator c s

abbrev push : Option Token → List Token → List Token
push none ts = ts
push (some t) ts = t ∷ ts

unfoldable pub tokens_from : ℕ → Text → Result (List Token)
unfolding round
tokens_from fuel [] = ok (token end [] ∷ [])
tokens_from zero (c ∷ s) = err out_of_fuel
tokens_from (suc fuel) (c ∷ s) =
    let (t, rest) = round c s in tokens_from fuel rest >>= λ ts. ok (push t ts)

unfoldable pub tokenize : Text → Result (List Token)
unfolding tokens_from trim
tokenize expr = let trimmed = trim expr in tokens_from (length trimmed) trimmed
