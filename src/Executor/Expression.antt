-- ===== src/Executor/Expression.antt =====
-- src/executor/generic_executor.cpp: NumericExpressionParser. The position `pos_` is the suffix of the
-- expression that starts there. Exceptions leave no trace but the message.
pub mod Operands
pub mod Termination
use Prim.Native.Nat.{ℕ, zero, suc}
use actuator_final.Prelude.{
  ◌+◌, ◌*◌, Bool, true, false, ◌&&◌, ◌||◌, [], ◌∷◌, ◌++◌, Option, none, some, ◌==◌, if◌then◌else◌,
  length, drop, not,
}
use actuator_final.Text.{
  Text, codes, text_eq, skip_spaces, span, is_digit, is_alpha, is_alnum, is_empty, trim,
}
use actuator_final.Result.{Result, ok, err, thrown, out_of_fuel, ◌>>=◌}
use actuator_final.Value.{Floating, Value, unknown, int, double, string, bool}
use actuator_final.Variables.{VariableManager, get, exists}

abbrev pub fail {ℓ} : {A : Type ℓ} → Text → Result A
fail message = err (thrown message)

unfoldable pub is_word_char : ℕ → Bool
is_word_char c = is_alnum c || (c == b'_')

unfoldable pub starts_word : ℕ → Bool
starts_word c = is_alpha c || (c == b'_')

-- The value read, and the suffix behind it.
abbrev pub Numeric : Type 0 → Type 0
Numeric F = Result (F × Text)

module _ {F : Type 0} ⦃fl : Floating F⦄ where
  -- tryParseNumberLiteral
  unfoldable pub number_literal : Text → Option F
  number_literal text =
      let (x, n) = fl.strtod text in
      if not (is_empty text) && (not (n == 0) && (n == length text)) then some x else none

  unfoldable pub numeric_value : Text → Value F → Result F
  numeric_value name (int n) = ok (fl.of_int n)
  numeric_value name (double x) = ok x
  numeric_value name (bool true) = ok (fl.literal (codes "1.0"))
  numeric_value name (bool false) = ok (fl.literal (codes "0.0"))
  numeric_value name (string text) = elim (number_literal (trim text)) [
    | some x ↦ ok x
    | none ↦ fail (codes "variable is not numeric: " ++ name)
  ]
  numeric_value name unknown = fail (codes "unsupported variable type: " ++ name)

  unfoldable pub variable_to_double : VariableManager F → Text → Result F
  variable_to_double vm name =
      if exists name vm
      then get name vm >>= numeric_value name
      else fail (codes "variable not found: " ++ name)

  unfoldable pub parse_number : Text → Numeric F
  parse_number s =
      let (x, n) = fl.strtod s in
      if n == 0 then fail (codes "number expected") else ok (x, drop n s)

  unfoldable pub close_with : Text → F × Text → Numeric F
  close_with message (x, s) = elim (skip_spaces s) [
    | [] ↦ fail message
    | c ∷ rest ↦ if c == b')' then ok (x, rest) else fail message
  ]

  unfoldable pub apply_function : Text → F × Text → Numeric F
  apply_function name (x, s) =
      if text_eq name (codes "sqrt")
      then ok (fl.sqrt x, s)
      else fail (codes "unsupported numeric function: " ++ name)

  -- Behind an identifier: an argument in parentheses makes it a function. `argument` is
  -- parseExpression.
  unfoldable pub parse_name : (Text → Numeric F) → VariableManager F → Text → Text → Numeric F
  parse_name argument vm name s =
      let variable = variable_to_double vm name >>= λ x. ok (x, skip_spaces s) in
      elim (skip_spaces s) [
        | [] ↦ variable
        | c ∷ rest ↦
            let call = do
              inner ← argument rest
              closed ← close_with (codes "missing closing ')' for function: " ++ name) inner
              apply_function name closed
            in if c == b'(' then call else variable
      ]

  -- The last part of parseFactor, at a character that is no sign and no parenthesis.
  unfoldable pub parse_operand : (Text → Numeric F) → VariableManager F → ℕ → Text → Numeric F
  parse_operand argument vm c s =
      let (word, rest) = span is_word_char s in
      if is_digit c || (c == b'.')
      then parse_number (c ∷ s)
      else if starts_word c
      then parse_name argument vm (c ∷ word) rest
      else fail (codes "unexpected token in numeric expression")

  unfoldable pub divide : F → F × Text → Numeric F
  divide x (y, s) =
      if fl.lt (fl.abs y) (fl.literal (codes "1e-12"))
      then fail (codes "division by zero")
      else ok (fl.div x y, s)

  unfoldable mutual
    pub parse_factor : VariableManager F → ℕ → Text → Numeric F
    parse_factor vm zero s = err out_of_fuel
    parse_factor vm (suc fuel) s = elim (skip_spaces s) [
      | [] ↦ fail (codes "unexpected end of numeric expression")
      | c ∷ rest ↦
          let positive = parse_factor vm fuel rest in
          let negative = parse_factor vm fuel rest >>= λ (x, t). ok (fl.neg x, t) in
          let group =
            parse_expression vm fuel rest
            >>= close_with (codes "missing closing ')' in numeric expression") in
          let operand = parse_operand (parse_expression vm fuel) vm c rest in
          if c == b'+'
          then positive
          else if c == b'-'
          then negative
          else if c == b'('
          then group
          else operand
    ]

    pub parse_term : VariableManager F → ℕ → Text → Numeric F
    parse_term vm zero s = err out_of_fuel
    parse_term vm (suc fuel) s = do (x, rest) ← parse_factor vm fuel s; term_loop vm fuel x rest

    pub term_loop : VariableManager F → ℕ → F → Text → Numeric F
    term_loop vm zero x s = err out_of_fuel
    term_loop vm (suc fuel) x s = elim (skip_spaces s) [
      | [] ↦ ok (x, [])
      | c ∷ rest ↦
          let times = parse_factor vm fuel rest >>= λ (y, t). term_loop vm fuel (fl.mul x y) t in
          let over = do
            operand ← parse_factor vm fuel rest
            (q, t) ← divide x operand
            term_loop vm fuel q t
          in if c == b'*' then times else if c == b'/' then over else ok (x, c ∷ rest)
    ]

    pub parse_expression : VariableManager F → ℕ → Text → Numeric F
    parse_expression vm zero s = err out_of_fuel
    parse_expression vm (suc fuel) s = do
      (x, rest) ← parse_term vm fuel s
      expression_loop vm fuel x rest

    pub expression_loop : VariableManager F → ℕ → F → Text → Numeric F
    expression_loop vm zero x s = err out_of_fuel
    expression_loop vm (suc fuel) x s = elim (skip_spaces s) [
      | [] ↦ ok (x, [])
      | c ∷ rest ↦
          let plus = parse_term vm fuel rest >>= λ (y, t). expression_loop vm fuel (fl.add x y) t in
          let minus =
            parse_term vm fuel rest >>= λ (y, t). expression_loop vm fuel (fl.sub x y) t in
          if c == b'+' then plus else if c == b'-' then minus else ok (x, c ∷ rest)
    ]

  unfoldable pub finish : F × Text → Result F
  finish (x, s) = elim (skip_spaces s) [
    | [] ↦ ok x
    | c ∷ rest ↦ fail (codes "numeric expression trailing characters: " ++ c ∷ rest)
  ]

  -- NumericExpressionParser(expression, vm).parse(): four calls for each character are enough.
  unfoldable pub parse_numeric : VariableManager F → Text → Result F
  parse_numeric vm expression =
      parse_expression vm (4 * length expression + 4) expression >>= finish
