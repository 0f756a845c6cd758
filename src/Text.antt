-- ===== src/Text.antt =====
-- Byte strings: what the source does with std::string, character by character, in the C locale.
-- A text is the list of its bytes; `codes` reads a literal. (A literal that is not ASCII, as some
-- messages are, is kept as its code points: no code looks into it.)
pub mod Numerals
use Prim.Native.Char.{code}
use actuator_final.Prelude.{
  ℕ, zero, suc, ◌+◌, ◌-◌, String, Bool, true, false, ◌&&◌, ◌||◌, List, [], ◌∷◌, ◌++◌, Option, none,
  some, ◌≡◌, refl, ◌↔◌, ap, arith, ltb, leb, ◌==◌, if◌then◌else◌, take, drop, length, ◌≤◌, ◌<◌, ◌⊎◌,
  inl, inr, Bool-cases, if_true, if_false, ◌∙◌,
}

abbrev pub Text : Type 0
Text = List ℕ

abbrev pub codes : String → Text
codes String.[] = []
codes (String.◌∷◌ c s) = code c ∷ codes s

-- operator==
unfoldable pub text_eq : Text → Text → Bool
text_eq [] [] = true
text_eq [] (y ∷ ys) = false
text_eq (x ∷ xs) [] = false
text_eq (x ∷ xs) (y ∷ ys) = (x == y) && text_eq xs ys

pub text_eq_iff : (s t : Text) → (text_eq s t ≡ true) ↔ (s ≡ t)
unfolding text_eq
text_eq_iff [] [] = ground arith
text_eq_iff [] (y ∷ ys) = ground arith
text_eq_iff (x ∷ xs) [] = ground arith
text_eq_iff (x ∷ xs) (y ∷ ys) = ground (arith, text_eq_iff xs ys)

pub text_eq_refl : (s : Text) → text_eq s s ≡ true
text_eq_refl s = (text_eq_iff s s).1 refl

-- operator<, which compares bytes as unsigned char
unfoldable pub text_lt : Text → Text → Bool
text_lt [] [] = false
text_lt [] (y ∷ ys) = true
text_lt (x ∷ xs) [] = false
text_lt (x ∷ xs) (y ∷ ys) = ltb x y || ((x == y) && text_lt xs ys)

abbrev pub is_empty {ℓ} : {A : Type ℓ} → List A → Bool
is_empty [] = true
is_empty (x ∷ xs) = false

-- std::isspace: blank, \t, \n, \v, \f, \r
unfoldable pub is_space : ℕ → Bool
is_space c = (c == 32) || (leb 9 c && leb c 13)

unfoldable pub is_digit : ℕ → Bool
is_digit c = leb b'0' c && leb c b'9'

unfoldable pub is_alpha : ℕ → Bool
is_alpha c = (leb b'a' c && leb c b'z') || (leb b'A' c && leb c b'Z')

unfoldable pub is_alnum : ℕ → Bool
unfolding is_alpha is_digit
is_alnum c = is_alpha c || is_digit c

unfoldable pub to_upper : ℕ → ℕ
to_upper c = if leb b'a' c && leb c b'z' then c - 32 else c

-- The longest prefix whose characters pass the test, and what follows it.
unfoldable pub span : (ℕ → Bool) → Text → Text × Text
span p [] = ([], [])
span p (c ∷ s) = let (word, rest) = span p s in if p c then (c ∷ word, rest) else ([], c ∷ s)

unfoldable pub skip_spaces : Text → Text
unfolding is_space
skip_spaces [] = []
skip_spaces (c ∷ s) = let rest = skip_spaces s in if is_space c then rest else c ∷ s

-- What is left of a text without its leading white space: nothing, or a character and a shorter rest.
pub skip_spaces-cases :
    (s : Text)
    → (skip_spaces s ≡ [])
      ⊎ ((c : ℕ) × (rest : Text) × (skip_spaces s ≡ c ∷ rest) × (length rest < length s))
unfolding skip_spaces
skip_spaces-cases [] = inl refl
skip_spaces-cases (c ∷ s) = elim (Bool-cases (is_space c)) [
  | inr e ↦ inr (c, s, if_false _ _ e, omega arith)
  | inl e ↦ elim (skip_spaces-cases s) [
    | inl e' ↦ inl (if_true _ _ e ∙ e')
    | inr (d, rest, e', lt) ↦ inr (d, rest, if_true _ _ e ∙ e', omega arith)
  ]
]

pub length-skip_spaces : (s : Text) → length (skip_spaces s) ≤ length s
length-skip_spaces s = elim (skip_spaces-cases s) [
  | inl e ↦ rw e (omega arith)
  | inr (c, rest, e, lt) ↦ rw e (omega arith)
]

pub length-span : (p : ℕ → Bool) (s : Text) → length (span p s).1 ≤ length s
unfolding span
length-span p [] = omega arith
length-span p (c ∷ s) = grind (arith, length-span p s)

-- Drops the white space at the end.
unfoldable pub trim_end : Text → Text
unfolding is_space
trim_end [] = []
trim_end (c ∷ s) = let rest = trim_end s in if is_space c && is_empty rest then [] else c ∷ rest

-- trim and trimCopy: the two loops move `start` and `end` inwards.
unfoldable pub trim : Text → Text
unfolding skip_spaces trim_end
trim s = trim_end (skip_spaces s)

unfoldable pub starts_with : Text → Text → Bool
starts_with [] s = true
starts_with (p ∷ ps) [] = false
starts_with (p ∷ ps) (c ∷ s) = (p == c) && starts_with ps s

-- s.find(pattern): the offset of the first occurrence.
unfoldable pub find : Text → Text → Option ℕ
unfolding starts_with
find p [] = if is_empty p then some 0 else none
find p (c ∷ s) =
    let rest = find p s in
    if starts_with p (c ∷ s) then some 0 else elim rest [ none ↦ none | some i ↦ some (suc i) ]

unfoldable pub contains : Text → Text → Bool
unfolding find
contains p s = elim (find p s) [ none ↦ false | some i ↦ true ]

-- s.substr(pos, count) for pos within the text
abbrev pub substr : Text → ℕ → ℕ → Text
substr s pos count = take count (drop pos s)
