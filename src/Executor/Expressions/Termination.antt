-- ===== src/Executor/Expressions/Termination.antt =====
-- src/executor/generic_executor.cpp: evaluateValueExpression ends.
use actuator_final.Prelude.{Option-cases, inl, inr}
use actuator_final.Text.{Text, trim, is_empty}
use actuator_final.Result.Ending.{Settled, Settled-if, Settled-bind}
use actuator_final.Value.{Floating, is_true_word, is_false_word}
use actuator_final.Variables.{VariableManager, exists}
use actuator_final.Variables.Scopes.{Settled-get}
use actuator_final.Constraint.{evaluate}
use actuator_final.Constraint.Termination.{Settled-evaluate}
use actuator_final.Executor.Expression.{number_literal, parse_numeric}
use actuator_final.Executor.Expression.Termination.{parse_numeric-Settled}
use actuator_final.Executor.Expressions.{
  contains_comparison_operator, contains_arithmetic_operator, is_quoted, computed_value,
  value_of_trimmed, evaluate_value_expression,
}

module _ {F : Type 0} ⦃fl : Floating F⦄ where
  Settled-computed_value : (vm : VariableManager F) (text : Text) → Settled (computed_value vm text)
  unfolding computed_value
  Settled-computed_value vm text = elim (Option-cases (number_literal ⦃fl = fl⦄ text)) [
    | inr (x, e) ↦ rw (Settled, e) tt
    | inl e ↦
        rw (Settled, e)
          (Settled-if (contains_arithmetic_operator text) _ _
            (Settled-bind (parse_numeric vm text) _ (parse_numeric-Settled vm text) λ x. tt) tt)
  ]

  Settled-value_of_trimmed :
      (vm : VariableManager F) (text : Text) → Settled (value_of_trimmed vm text)
  unfolding value_of_trimmed
  Settled-value_of_trimmed vm text = Settled-if (is_empty text) _ _ tt (
      Settled-if (is_quoted text) _ _ tt (
        Settled-if (is_true_word text) _ _ tt (
          Settled-if (is_false_word text) _ _ tt (
            Settled-if (exists text vm) _ _ (Settled-get text vm) (
              Settled-if (contains_comparison_operator text) _ _
                (Settled-bind (evaluate vm text) _ (Settled-evaluate vm text) λ holds. tt)
                (Settled-computed_value vm text))))))

  pub Settled-evaluate_value_expression :
      (expression : Text) (vm : VariableManager F)
      → Settled (evaluate_value_expression expression vm)
  unfolding evaluate_value_expression
  Settled-evaluate_value_expression expression vm = Settled-value_of_trimmed vm (trim expression)
