-- ===== src/Examples/Expressions.antt =====
-- src/executor/variable_manager.cpp and src/constraint/evaluator.cpp on a small state.
use actuator_final.Prelude.{true, ◌&&◌, List, [], ◌∷◌, if◌then◌else◌, length, ◌≡◌, refl}
use mathlib.Core.Option
use actuator_final.Prelude.Int.{ℤ, pos}
use actuator_final.Text.{Text, codes, text_eq}
use actuator_final.Dict.{Dict, DistinctKeys, lookup, has}
use actuator_final.Value.{int, string}
use actuator_final.Variables.{
  VariableManager, local, param_value, set_from_params, scope_map, create_snapshot,
  restore_snapshot, clear_scope, empty_manager,
}
use actuator_final.Variables.Scopes.{scope_eq, lookup-set_from_params}
use actuator_final.Variables.Snapshots.{with_scopes_of, restore-create}
use actuator_final.Constraint.{parse_expression}
use actuator_final.Constraint.Tokens.{Token, TokenType, token}
use actuator_final.Result.Ending.{Ends}
use actuator_final.Constraint.Termination.{parse_expression-Ends}
use actuator_final.Examples.{whole_numbers}

-- `mode` stands in two scopes.
abbrev some_state : VariableManager ℤ
some_state = record empty_manager {
  global_vars = (codes "mode", int (pos 1)) ∷ [];
  local_vars = (codes "mode", string (codes "fast")) ∷ [];
}

abbrev some_params : Dict Text
some_params = (codes "mode", codes "3") ∷ (codes "site", codes "north") ∷ []

abbrev some_tokens : List Token
some_tokens =
    token TokenType.not (codes "not")
    ∷ token TokenType.lparen (codes "(")
    ∷ token TokenType.identifier (codes "mode")
    ∷ []

kept :
    (clear_scope local (create_snapshot some_state).1).snapshots
    ≡ (create_snapshot some_state).1.snapshots
unfolding clear_scope
kept = refl

restore-create_example :
    restore_snapshot
      (create_snapshot some_state).0
      (clear_scope local (create_snapshot some_state).1)
    ≡ (true, with_scopes_of some_state (clear_scope local (create_snapshot some_state).1))
restore-create_example =
    restore-create some_state (clear_scope local (create_snapshot some_state).1) kept

distinct : DistinctKeys some_params
unfolding lookup text_eq
distinct = (refl, (refl, tt))

lookup-set_from_params_example :
    lookup (codes "mode") (scope_map local (set_from_params some_params local some_state)) ≡ (
      if scope_eq local local && has (codes "mode") some_params
      then Option.map param_value (lookup (codes "mode") some_params)
      else lookup (codes "mode") (scope_map local some_state))
lookup-set_from_params_example =
    lookup-set_from_params some_params (codes "mode") local local some_state distinct

parse_expression-Ends_example : Ends (length some_tokens) (parse_expression some_state some_tokens)
parse_expression-Ends_example = parse_expression-Ends some_state some_tokens
