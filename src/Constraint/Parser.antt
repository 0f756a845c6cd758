-- ===== src/Constraint/Parser.antt =====
-- src/constraint/evaluator.cpp: the recursive descent over the tokens, which evaluates as it parses. The
-- position `pos` is the list of the tokens from there on: it only moves forward, one token at a time.
use Prim.Native.Nat.{ℕ, zero, suc}
use actuator_final.Prelude.{Bool, ◌&&◌, ◌||◌, List, [], ◌∷◌, ◌++◌, none, some, if◌then◌else◌, not}
use actuator_final.Text.{Text, codes, text_eq, contains}
use actuator_final.Text.Numerals.{stoi}
use actuator_final.Result.{Result, ok, err, thrown, out_of_fuel, ◌>>=◌}
use actuator_final.Value.{Floating, Value, unknown, int, double, string, as_bool}
use actuator_final.Variables.{VariableManager, get, exists}
use actuator_final.Constraint.Tokens.{
  TokenType, Token, token, number, identifier, operator, lparen, rparen,
}
use actuator_final.Constraint.Compare.{compare}

-- The value of a NUMBER token as a condition.
unfoldable pub is_nonzero : Text → Bool
is_nonzero value = not (text_eq value (codes "0")) && not (text_eq value (codes "0.0"))

abbrev not_found {ℓ} : {A : Type ℓ} → Text → Result A
not_found name = err (thrown (codes "Variable not found: " ++ name))

abbrev pub Parsed : Type 0
Parsed = Result (Bool × List Token)

unfoldable pub close_paren : Bool × List Token → Parsed
close_paren (b, token rparen value ∷ rest) = ok (b, rest)
close_paren (b, _) = err (thrown (codes "Missing closing parenthesis"))

module _ {F : Type 0} ⦃fl : Floating F⦄ where
  -- A NUMBER token as an operand: a conversion that throws leaves the text.
  unfoldable pub number_value : Text → Value F
  unfolding contains
  number_value value =
      if contains (codes ".") value
      then elim (fl.stod value) [ some (x, n) ↦ double x | none ↦ string value ]
      else elim (stoi value) [ some (i, n) ↦ int i | none ↦ string value ]

  -- The right operand, at the token behind the operator.
  unfoldable pub right_value : VariableManager F → TokenType → Text → Result (Value F)
  unfolding number_value
  right_value vm number value = ok (number_value value)
  right_value vm TokenType.string value = ok (string value)
  right_value vm identifier value = if exists value vm then get value vm else not_found value
  right_value vm _ value = ok unknown

  -- Behind an identifier: an operator and its right operand, or nothing.
  unfoldable pub identifier_rest : VariableManager F → Text → List Token → Parsed
  unfolding right_value
  identifier_rest vm name (token operator op ∷ []) =
      err (thrown (codes "Expected value after operator"))
  identifier_rest vm name (token operator op ∷ token type value ∷ rest) = do
    right ← right_value vm type value
    left ← if exists name vm then get name vm else not_found name
    ok (compare left op right, rest)
  identifier_rest vm name rest = do
    value ← if exists name vm then get name vm else not_found name
    b ← as_bool value
    ok (b, rest)

  unfoldable mutual
    -- parseOrExpression
    pub parse_or : VariableManager F → ℕ → List Token → Parsed
    parse_or vm zero ts = err out_of_fuel
    parse_or vm (suc fuel) ts = do
      (result, rest) ← parse_and vm fuel ts
      or_loop vm fuel result rest

    pub or_loop : VariableManager F → ℕ → Bool → List Token → Parsed
    or_loop vm zero result ts = err out_of_fuel
    or_loop vm (suc fuel) result (token TokenType.or value ∷ ts) = do
      (right, rest) ← parse_and vm fuel ts
      or_loop vm fuel (result || right) rest
    or_loop vm (suc fuel) result ts = ok (result, ts)

    -- parseAndExpression
    pub parse_and : VariableManager F → ℕ → List Token → Parsed
    parse_and vm zero ts = err out_of_fuel
    parse_and vm (suc fuel) ts = do
      (result, rest) ← parse_not vm fuel ts
      and_loop vm fuel result rest

    pub and_loop : VariableManager F → ℕ → Bool → List Token → Parsed
    and_loop vm zero result ts = err out_of_fuel
    and_loop vm (suc fuel) result (token TokenType.and value ∷ ts) = do
      (right, rest) ← parse_not vm fuel ts
      and_loop vm fuel (result && right) rest
    and_loop vm (suc fuel) result ts = ok (result, ts)

    -- parseNotExpression; parseComparison only calls parsePrimary
    pub parse_not : VariableManager F → ℕ → List Token → Parsed
    parse_not vm zero ts = err out_of_fuel
    parse_not vm (suc fuel) (token TokenType.not value ∷ ts) = do
      (b, rest) ← parse_not vm fuel ts
      ok (not b, rest)
    parse_not vm (suc fuel) ts = parse_primary vm fuel ts

    pub parse_primary : VariableManager F → ℕ → List Token → Parsed
    parse_primary vm zero ts = err out_of_fuel
    parse_primary vm (suc fuel) [] = err (thrown (codes "Unexpected end of expression"))
    parse_primary vm (suc fuel) (token lparen value ∷ ts) = parse_or vm fuel ts >>= close_paren
    parse_primary vm (suc fuel) (token number value ∷ ts) = ok (is_nonzero value, ts)
    parse_primary vm (suc fuel) (token identifier value ∷ ts) = identifier_rest vm value ts
    parse_primary vm (suc fuel) (_ ∷ ts) = err (thrown (codes "Unexpected token"))
