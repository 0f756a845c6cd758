-- ===== src/Constraint/Termination.antt =====
-- src/constraint/evaluator.cpp: the parser ends. Each call of the parser spends fuel, and
-- five units for a token, and five more, always suffice; a call that returns has moved forward.
use Prim.Native.Nat.{ℕ, zero, suc}
use actuator_final.Prelude.{
  true, false, if◌then◌else◌, ◌+◌, ◌*◌, ◌≤◌, Bool, ◌&&◌, ◌||◌, List, [], ◌∷◌, ◌++◌, arith, length,
}
use actuator_final.Text.{Text, codes}
use actuator_final.Result.{ok, err, thrown, out_of_fuel, ◌>>=◌}
use actuator_final.Result.Ending.{
  Ends, Ends-mono, Ends-bind, Settled, Settled-if, Settled-bind, Ends-Settled,
}
use actuator_final.Value.{Floating, Value, unknown, int, double, string, bool, as_bool}
use actuator_final.Variables.Scopes.{Settled-get}
use actuator_final.Variables.{VariableManager, get, exists}
use actuator_final.Constraint.{parse_expression, verdict_of, is_blank, evaluate_detailed, evaluate}
use actuator_final.Constraint.Tokens.Fuel.{Settled-tokenize}
use actuator_final.Constraint.Tokens.{
  TokenType, Token, token, number, identifier, operator, lparen, rparen, tokenize,
}
use actuator_final.Constraint.Parser.{
  Parsed, identifier_rest, right_value, close_paren, parse_or, or_loop, parse_and, and_loop,
  parse_not, parse_primary,
}

Ends-close_paren :
    (n : ℕ) (b : Bool) (rest : List Token) → length rest ≤ n → Ends n (close_paren (b, rest))
unfolding close_paren
Ends-close_paren n b (token rparen v ∷ rest) h = omega arith
Ends-close_paren n b _ h = tt

module _ {F : Type 0} where
  Settled-as_bool : (v : Value F) → Settled (as_bool v)
  unfolding as_bool
  Settled-as_bool unknown = tt
  Settled-as_bool (int n) = tt
  Settled-as_bool (double x) = tt
  Settled-as_bool (string s) = tt
  Settled-as_bool (bool b) = tt

Settled-verdict_of :
    (F : Type 0) ⦃fl : Floating F⦄ (n : ℕ) (expression : Text) (p : Parsed)
    → Ends n p
    → Settled (verdict_of {F = F} expression p)
unfolding verdict_of
Settled-verdict_of F n expression (ok (true, rest)) h = tt
Settled-verdict_of F n expression (ok (false, rest)) h = tt
Settled-verdict_of F n expression (err (thrown message)) h = tt
Settled-verdict_of F n expression (err out_of_fuel) h = h

module _ {F : Type 0} ⦃fl : Floating F⦄ where
  Settled-right_value :
      (vm : VariableManager F) (type : TokenType) (value : Text)
      → Settled (right_value vm type value)
  unfolding right_value
  Settled-right_value vm identifier value =
      Settled-if (exists value vm) _ _ (Settled-get value vm) tt
  Settled-right_value vm _ value = tt

  Settled-read :
      (vm : VariableManager F) (name message : Text)
      → Settled (if exists name vm then get name vm else err (thrown message))
  Settled-read vm name message = Settled-if (exists name vm) _ _ (Settled-get name vm) tt

  Ends-truth :
      (vm : VariableManager F) (name : Text) (ts : List Token)
      → Ends (suc (length ts)) (
          (if exists name vm
            then get name vm
            else err (thrown (codes "Variable not found: " ++ name)))
          >>= λ value. as_bool value >>= λ b. ok (b, ts))
  Ends-truth vm name ts =
      Ends-Settled _ _ _ (Settled-read vm name _)
        λ v. Ends-Settled _ (as_bool v) _ (Settled-as_bool v) λ b. omega arith

  Ends-identifier_rest :
      (vm : VariableManager F) (name : Text) (ts : List Token)
      → Ends (suc (length ts)) (identifier_rest vm name ts)
  unfolding identifier_rest
  Ends-identifier_rest vm name (token operator op ∷ []) = tt
  Ends-identifier_rest vm name (token operator op ∷ token type value ∷ rest) =
      Ends-Settled _ _ _ (Settled-right_value vm type value)
        λ r. Ends-Settled _ _ _ (Settled-read vm name _) λ l. omega arith
  Ends-identifier_rest vm name ts = Ends-truth vm name ts

  mutual
    unfolding parse_or

    Ends-parse_or :
        (vm : VariableManager F) (fuel : ℕ) (ts : List Token)
        → 5 * length ts + 4 ≤ fuel
        → Ends (length ts) (parse_or vm fuel ts)
    Ends-parse_or vm zero ts h = omega arith
    Ends-parse_or vm (suc fuel) ts h =
        Ends-bind (length ts) _ _ _ (Ends-parse_and vm fuel ts (omega arith))
          λ b rest lt. Ends-mono _ _ _ lt (Ends-or_loop vm fuel b rest (omega arith))

    Ends-or_loop :
        (vm : VariableManager F) (fuel : ℕ) (b : Bool) (ts : List Token)
        → 5 * length ts + 1 ≤ fuel
        → Ends (suc (length ts)) (or_loop vm fuel b ts)
    Ends-or_loop vm zero b ts h = omega arith
    Ends-or_loop vm (suc fuel) b (token TokenType.or v ∷ ts) h =
        Ends-bind (length ts) _ _ _ (Ends-parse_and vm fuel ts (omega arith)) λ right rest lt.
          Ends-mono (suc (length rest)) _ _ (omega arith)
            (Ends-or_loop vm fuel (b || right) rest (omega arith))
    Ends-or_loop vm (suc fuel) b ts h = omega arith

    Ends-parse_and :
        (vm : VariableManager F) (fuel : ℕ) (ts : List Token)
        → 5 * length ts + 3 ≤ fuel
        → Ends (length ts) (parse_and vm fuel ts)
    Ends-parse_and vm zero ts h = omega arith
    Ends-parse_and vm (suc fuel) ts h =
        Ends-bind (length ts) _ _ _ (Ends-parse_not vm fuel ts (omega arith))
          λ b rest lt. Ends-mono _ _ _ lt (Ends-and_loop vm fuel b rest (omega arith))

    Ends-and_loop :
        (vm : VariableManager F) (fuel : ℕ) (b : Bool) (ts : List Token)
        → 5 * length ts + 1 ≤ fuel
        → Ends (suc (length ts)) (and_loop vm fuel b ts)
    Ends-and_loop vm zero b ts h = omega arith
    Ends-and_loop vm (suc fuel) b (token TokenType.and v ∷ ts) h =
        Ends-bind (length ts) _ _ _ (Ends-parse_not vm fuel ts (omega arith)) λ right rest lt.
          Ends-mono (suc (length rest)) _ _ (omega arith)
            (Ends-and_loop vm fuel (b && right) rest (omega arith))
    Ends-and_loop vm (suc fuel) b ts h = omega arith

    Ends-parse_not :
        (vm : VariableManager F) (fuel : ℕ) (ts : List Token)
        → 5 * length ts + 2 ≤ fuel
        → Ends (length ts) (parse_not vm fuel ts)
    Ends-parse_not vm zero ts h = omega arith
    Ends-parse_not vm (suc fuel) (token TokenType.not v ∷ ts) h =
        Ends-bind (length ts) _ _ _ (Ends-parse_not vm fuel ts (omega arith))
          λ b rest lt. omega arith
    Ends-parse_not vm (suc fuel) ts h = Ends-parse_primary vm fuel ts (omega arith)

    Ends-parse_primary :
        (vm : VariableManager F) (fuel : ℕ) (ts : List Token)
        → 5 * length ts + 1 ≤ fuel
        → Ends (length ts) (parse_primary vm fuel ts)
    Ends-parse_primary vm zero ts h = omega arith
    Ends-parse_primary vm (suc fuel) [] h = tt
    Ends-parse_primary vm (suc fuel) (token lparen v ∷ ts) h =
        Ends-bind (length ts) _ _ _ (Ends-parse_or vm fuel ts (omega arith)) λ b rest lt.
          Ends-mono (length ts) _ _ (omega arith) (Ends-close_paren _ b rest (omega arith))
    Ends-parse_primary vm (suc fuel) (token number v ∷ ts) h = omega arith
    Ends-parse_primary vm (suc fuel) (token identifier v ∷ ts) h = Ends-identifier_rest vm v ts
    Ends-parse_primary vm (suc fuel) (_ ∷ ts) h = tt

  -- Parsing an expression always ends, with a value and tokens left over or with an exception: the
  -- fuel is never used up, whatever the tokens and the variables.
  pub parse_expression-Ends :
      (vm : VariableManager F) (ts : List Token) → Ends (length ts) (parse_expression vm ts)
  unfolding parse_expression
  parse_expression-Ends vm ts = Ends-parse_or vm _ ts (omega arith)

  pub Settled-evaluate_detailed :
      (vm : VariableManager F) (expression : Text) → Settled (evaluate_detailed vm expression)
  unfolding evaluate_detailed
  Settled-evaluate_detailed vm expression =
      Settled-bind (tokenize expression) _ (Settled-tokenize expression) λ tokens.
        Settled-if (is_blank tokens) _ _ tt (
          Settled-verdict_of F (length tokens) expression (parse_expression vm tokens)
            (parse_expression-Ends vm tokens))

  pub Settled-evaluate :
      (vm : VariableManager F) (expression : Text) → Settled (evaluate vm expression)
  unfolding evaluate
  Settled-evaluate vm expression =
      Settled-bind (evaluate_detailed vm expression) _ (Settled-evaluate_detailed vm expression)
        λ result. tt
