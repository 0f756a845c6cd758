-- ===== src/Executor/Expression/Termination.antt =====
-- src/executor/generic_executor.cpp: NumericExpressionParser ends. Each call spends a unit of fuel;
-- four units for a character, and four more, always suffice, since a call that returns a factor, a
-- term or an expression has consumed a character.
use Prim.Native.Nat.{ℕ, zero, suc}
use mathlib.Core.Logic.{inl, inr}
use actuator_final.Prelude.{◌+◌, ◌*◌, ◌≤◌, ◌==◌, length, arith}
use actuator_final.Text.{Text, skip_spaces-cases}
use actuator_final.Result.{◌>>=◌}
use actuator_final.Result.Ending.{Ends, Ends-mono, Ends-if, Ends-bind, Settled, Settled-Ends}
use actuator_final.Value.{Floating}
use actuator_final.Variables.{VariableManager}
use actuator_final.Executor.Expression.{
  parse_factor, parse_term, term_loop, parse_expression, expression_loop, finish, parse_numeric,
}
use actuator_final.Executor.Expression.Operands.{Ends-close_with, Ends-divide, Ends-parse_operand}

module _ {F : Type 0} ⦃fl : Floating F⦄ where
  mutual
    unfolding parse_factor

    Ends-parse_factor :
        (vm : VariableManager F) (fuel : ℕ) (s : Text)
        → 4 * length s + 2 ≤ fuel
        → Ends (length s) (parse_factor vm fuel s)
    Ends-parse_factor vm zero s h = omega arith
    Ends-parse_factor vm (suc fuel) s h = elim (skip_spaces-cases s) [
      | inl e ↦ rw (Ends, e) tt
      | inr (c, rest, e, lt) ↦
          rw (Ends, e)
            (Ends-if _ (c == b'+') _ _
              (Ends-mono (length rest) _ _ (omega (arith, lt))
                (Ends-parse_factor vm fuel rest (omega (arith, lt))))
              (Ends-if _ (c == b'-') _ _
                (Ends-bind (length rest) _ _ _ (Ends-parse_factor vm fuel rest (omega (arith, lt)))
                  λ x t lt_t. omega (arith, lt))
                (Ends-if _ (c == b'(') _ _
                  (Ends-bind (length rest) _ _ _
                    (Ends-parse_expression vm fuel rest (omega (arith, lt)))
                    λ x t lt_t. Ends-close_with (length s) _ x t (omega (arith, lt)))
                  (Ends-mono (suc (length rest)) _ _ lt (
                    Ends-parse_operand _ vm c rest
                      λ t le. Ends-parse_expression vm fuel t (omega (arith, lt)))))))
    ]

    Ends-parse_term :
        (vm : VariableManager F) (fuel : ℕ) (s : Text)
        → 4 * length s + 3 ≤ fuel
        → Ends (length s) (parse_term vm fuel s)
    Ends-parse_term vm zero s h = omega arith
    Ends-parse_term vm (suc fuel) s h =
        Ends-bind (length s) _ _ _ (Ends-parse_factor vm fuel s (omega arith))
          λ x rest lt. Ends-mono _ _ _ lt (Ends-term_loop vm fuel x rest (omega arith))

    Ends-parse_expression :
        (vm : VariableManager F) (fuel : ℕ) (s : Text)
        → 4 * length s + 4 ≤ fuel
        → Ends (length s) (parse_expression vm fuel s)
    Ends-parse_expression vm zero s h = omega arith
    Ends-parse_expression vm (suc fuel) s h =
        Ends-bind (length s) _ _ _ (Ends-parse_term vm fuel s (omega arith))
          λ x rest lt. Ends-mono _ _ _ lt (Ends-expression_loop vm fuel x rest (omega arith))

    Ends-term_loop :
        (vm : VariableManager F) (fuel : ℕ) (x : F) (s : Text)
        → 4 * length s + 1 ≤ fuel
        → Ends (suc (length s)) (term_loop vm fuel x s)
    Ends-term_loop vm zero x s h = omega arith
    Ends-term_loop vm (suc fuel) x s h = elim (skip_spaces-cases s) [
      | inl e ↦ rw (Ends, e) (omega arith)
      | inr (c, rest, e, lt) ↦
          rw (Ends, e)
            (Ends-if _ (c == b'*') _ _
              (Ends-bind (length rest) _ _ _ (Ends-parse_factor vm fuel rest (omega (arith, lt)))
                λ y t lt_t.
                  Ends-mono (suc (length t)) _ _ (omega (arith, lt))
                    (Ends-term_loop vm fuel (fl.mul x y) t (omega (arith, lt))))
              (Ends-if _ (c == b'/') _ _
                (Ends-bind (length rest) _ _ _ (Ends-parse_factor vm fuel rest (omega (arith, lt)))
                  λ y t lt_t.
                    Ends-bind (length rest) _ _ _
                      (Ends-mono (suc (length t)) _ _ lt_t
                        (Ends-divide (length t) x y t (omega arith)))
                      λ q u lt_u.
                        Ends-mono (suc (length u)) _ _ (omega (arith, lt))
                          (Ends-term_loop vm fuel q u (omega (arith, lt))))
                (omega (arith, lt))))
    ]

    Ends-expression_loop :
        (vm : VariableManager F) (fuel : ℕ) (x : F) (s : Text)
        → 4 * length s + 1 ≤ fuel
        → Ends (suc (length s)) (expression_loop vm fuel x s)
    Ends-expression_loop vm zero x s h = omega arith
    Ends-expression_loop vm (suc fuel) x s h = elim (skip_spaces-cases s) [
      | inl e ↦ rw (Ends, e) (omega arith)
      | inr (c, rest, e, lt) ↦
          let more : (f : F → F → F)
              → Ends (suc (length s))
                  (parse_term vm fuel rest >>= λ (y, t). expression_loop vm fuel (f x y) t) =
            λ f.
              Ends-bind (length rest) _ _ _ (Ends-parse_term vm fuel rest (omega (arith, lt)))
                λ y t lt_t.
                  Ends-mono (suc (length t)) _ _ (omega (arith, lt))
                    (Ends-expression_loop vm fuel (f x y) t (omega (arith, lt))) in
          rw (Ends, e)
            (Ends-if _ (c == b'+') _ _ (more fl.add)
              (Ends-if _ (c == b'-') _ _ (more fl.sub) (omega (arith, lt))))
    ]

  Settled-finish : (p : F × Text) → Settled (finish p)
  unfolding finish
  Settled-finish (x, s) = elim (skip_spaces-cases s) [
    | inl e ↦ rw (Settled, e) tt
    | inr (c, rest, e, lt) ↦ rw (Settled, e) tt
  ]

  pub parse_numeric-Settled :
      (vm : VariableManager F) (expression : Text) → Settled (parse_numeric vm expression)
  unfolding parse_numeric
  parse_numeric-Settled vm expression =
      Settled-Ends (length expression) _ _ (Ends-parse_expression vm _ expression (omega arith))
        Settled-finish
