-- ===== src/Executor/Expressions.antt =====
-- src/executor/generic_executor.cpp: evaluateValueExpression and the tests that choose its branch.
pub mod Termination
use actuator_final.Prelude.{
  ℕ, ◌-◌, Bool, true, false, ◌&&◌, ◌||◌, List, [], ◌∷◌, none, some, ◌==◌, if◌then◌else◌, leb,
  length, take, drop,
}
use actuator_final.Prelude.Int.{int_of_long}
use actuator_final.Text.{Text, codes, contains, is_empty, trim}
use actuator_final.Result.{Result, ok, ◌>>=◌}
use actuator_final.Value.{Floating, Value, int, double, string, bool, is_true_word, is_false_word}
use actuator_final.Variables.{VariableManager, get, exists}
use actuator_final.Constraint.{evaluate}
use actuator_final.Executor.Expression.{number_literal, parse_numeric}

unfoldable pub contains_any : List Text → Text → Bool
contains_any [] text = false
contains_any (p ∷ ps) text = contains p text || contains_any ps text

unfoldable pub contains_comparison_operator : Text → Bool
contains_comparison_operator = contains_any (
    codes "=="
    ∷ codes "!="
    ∷ codes ">="
    ∷ codes "<="
    ∷ codes ">"
    ∷ codes "<"
    ∷ codes "&&"
    ∷ codes "||"
    ∷ [])

unfoldable pub contains_arithmetic_operator : Text → Bool
contains_arithmetic_operator =
    contains_any (codes "+" ∷ codes "-" ∷ codes "*" ∷ codes "/" ∷ codes "sqrt" ∷ [])

unfoldable pub ends_with_char : ℕ → Text → Bool
ends_with_char q [] = false
ends_with_char q (c ∷ []) = c == q
ends_with_char q (c ∷ d ∷ s) = ends_with_char q (d ∷ s)

unfoldable pub starts_with_char : ℕ → Text → Bool
starts_with_char q [] = false
starts_with_char q (c ∷ s) = c == q

unfoldable pub is_quoted : Text → Bool
is_quoted s =
    leb 2 (length s)
    && ((starts_with_char 34 s && ends_with_char 34 s)
        || (starts_with_char 39 s && ends_with_char 39 s))

module _ {F : Type 0} ⦃fl : Floating F⦄ where
  -- A literal with neither a point nor an exponent is an int.
  unfoldable pub literal_value : Text → F → Value F
  literal_value text x =
      if contains (codes ".") text || (contains (codes "e") text || contains (codes "E") text)
      then double x
      else int (fl.to_int x)

  -- A result within 1e-9 of a whole number is an int.
  unfoldable pub rounded_value : F → Value F
  rounded_value x =
      if fl.lt (fl.abs (fl.sub x (fl.round x))) (fl.literal (codes "1e-9"))
      then int (int_of_long (fl.llround x))
      else double x

  unfoldable pub computed_value : VariableManager F → Text → Result (Value F)
  computed_value vm trimmed = elim (number_literal trimmed) [
    | some x ↦ ok (literal_value trimmed x)
    | none ↦
        if contains_arithmetic_operator trimmed
        then (parse_numeric vm trimmed >>= λ x. ok (rounded_value x))
        else ok (string trimmed)
  ]

  unfoldable pub value_of_trimmed : VariableManager F → Text → Result (Value F)
  value_of_trimmed vm trimmed =
      if is_empty trimmed
      then ok (string [])
      else if is_quoted trimmed
      then ok (string (take (length trimmed - 2) (drop 1 trimmed)))
      else if is_true_word trimmed
      then ok (bool true)
      else if is_false_word trimmed
      then ok (bool false)
      else if exists trimmed vm
      then get trimmed vm
      else if contains_comparison_operator trimmed
      then (evaluate vm trimmed >>= λ holds. ok (bool holds))
      else computed_value vm trimmed

  unfoldable pub evaluate_value_expression : Text → VariableManager F → Result (Value F)
  evaluate_value_expression expression vm = value_of_trimmed vm (trim expression)
