-- ===== src/Constraint.antt =====
-- src/constraint/evaluator.{h,cpp}: ConstraintEvaluator. It reads the variables and changes nothing;
-- `log` discards its message.
pub mod Tokens
pub mod Compare
pub mod Parser
pub mod Termination
use actuator_final.Prelude.{
  ℕ, ◌+◌, ◌*◌, Bool, true, false, List, [], ◌∷◌, ◌++◌, if◌then◌else◌, length,
}
use actuator_final.Text.{Text, codes}
use actuator_final.Result.{Result, ok, err, thrown, out_of_fuel, ◌>>=◌}
use actuator_final.Value.{Floating, Value}
use actuator_final.Variables.{VariableManager}
use Tokens.{Token, token, end, tokenize}
use Parser.{Parsed, parse_or}

pub record ConstraintResult (F : Type 0) : Type 0 where
  pub satisfied : Bool
  pub message : Text
  pub failed_conditions : List Text
  pub confidence : F

unfoldable pub is_blank : List Token → Bool
is_blank [] = true
is_blank (token end value ∷ []) = true
is_blank _ = false

module _ {F : Type 0} ⦃fl : Floating F⦄ where
  abbrev verdict : Bool → Text → List Text → ConstraintResult F
  verdict b message failed = record {
    satisfied = b;
    message = message;
    failed_conditions = failed;
    confidence = fl.literal (codes "1.0");
  }

  -- The result of the parser, where any C++ exception is caught. A parser that was cut short by the
  -- fuel of the model has no result.
  unfoldable pub verdict_of : Text → Parsed → Result (ConstraintResult F)
  verdict_of expression (ok (true, rest)) = ok (verdict true (codes "All constraints satisfied") [])
  verdict_of expression (ok (false, rest)) =
      ok (verdict false (codes "Constraint not satisfied: " ++ expression) (expression ∷ []))
  verdict_of expression (err (thrown message)) =
      ok (verdict false (codes "Evaluation error: " ++ message) (expression ∷ []))
  verdict_of expression (err out_of_fuel) = err out_of_fuel

  -- parseExpression from the first token. Five calls for each token, and five more, are enough.
  unfoldable pub parse_expression : VariableManager F → List Token → Parsed
  parse_expression vm tokens = parse_or vm (5 * length tokens + 5) tokens

  unfoldable pub evaluate_detailed : VariableManager F → Text → Result (ConstraintResult F)
  unfolding verdict_of
  evaluate_detailed vm expression = tokenize expression >>= λ tokens.
      if is_blank tokens
      then ok (verdict false (codes "Empty expression") (expression ∷ []))
      else verdict_of expression (parse_expression vm tokens)

  unfoldable pub evaluate : VariableManager F → Text → Result Bool
  unfolding evaluate_detailed
  evaluate vm expression = evaluate_detailed vm expression >>= λ result. ok result.satisfied
