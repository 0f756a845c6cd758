-- ===== src/Executor/Expression/Operands.antt =====
-- src/executor/generic_executor.cpp: what NumericExpressionParser does without calling itself ends.
use Prim.Native.Nat.{ℕ, zero, suc}
use mathlib.Core.Logic.{inl, inr}
use actuator_final.Prelude.{
  ◌≤◌, true, false, ◌||◌, ◌∷◌, ◌==◌, if◌then◌else◌, Option-cases, length, length-drop, drop, arith,
  if_false,
}
use actuator_final.Text.{
  Text, codes, text_eq, skip_spaces, span, is_digit, trim, skip_spaces-cases, length-skip_spaces,
  length-span,
}
use actuator_final.Result.{Result, ok, ◌>>=◌}
use actuator_final.Result.Ending.{
  Ends, Ends-mono, Ends-if, Ends-bind, Ends-Settled, Settled, Settled-if, Settled-bind,
}
use actuator_final.Value.{Floating, Value, unknown, int, double, string, bool}
use actuator_final.Variables.{VariableManager, get, exists}
use actuator_final.Variables.Scopes.{Settled-get}
use actuator_final.Executor.Expression.{
  Numeric, fail, is_word_char, number_literal, numeric_value, variable_to_double, parse_number,
  starts_word, close_with, apply_function, parse_name, parse_operand, divide,
}

pub Ends-dropped :
    {F : Type 0} (x : F) (n c : ℕ) (s : Text)
    → Ends
        (suc (length s))
        (if n == 0 then fail (codes "number expected") else ok (x, drop n (c ∷ s)))
Ends-dropped x zero c s = tt
Ends-dropped x (suc n) c s =
    rw (if_false {A = Result (_ × Text)} {b = suc n == 0} _ _ (ground arith))
      (omega (arith, length-drop n s))

pub Ends-parse_number :
    (F : Type 0) ⦃fl : Floating F⦄ (c : ℕ) (s : Text)
    → Ends (suc (length s)) (parse_number ⦃fl = fl⦄ (c ∷ s))
unfolding parse_number
Ends-parse_number F ⦃fl = fl⦄ c s = Ends-dropped (fl.strtod (c ∷ s)).0 (fl.strtod (c ∷ s)).1 c s

module _ {F : Type 0} ⦃fl : Floating F⦄ where
  pub Settled-numeric_value : (name : Text) (v : Value F) → Settled (numeric_value name v)
  unfolding numeric_value
  Settled-numeric_value name unknown = tt
  Settled-numeric_value name (int n) = tt
  Settled-numeric_value name (double x) = tt
  Settled-numeric_value name (bool true) = tt
  Settled-numeric_value name (bool false) = tt
  Settled-numeric_value name (string text) =
      elim (Option-cases (number_literal ⦃fl = fl⦄ (trim text))) [
        | inl e ↦ rw (Settled, e) tt
        | inr (x, e) ↦ rw (Settled, e) tt
      ]

  pub Settled-variable_to_double :
      (vm : VariableManager F) (name : Text) → Settled (variable_to_double vm name)
  unfolding variable_to_double
  Settled-variable_to_double vm name =
      Settled-if (exists name vm) _ _
        (Settled-bind (get name vm) _ (Settled-get name vm) (Settled-numeric_value name)) tt

  pub Ends-close_with :
      (n : ℕ) (message : Text) (x : F) (s : Text)
      → length s ≤ n
      → Ends n (close_with message (x, s))
  unfolding close_with
  Ends-close_with n message x s h = elim (skip_spaces-cases s) [
    | inl e ↦ rw (Ends, e) tt
    | inr (c, rest, e, lt) ↦ rw (Ends, e) (Ends-if n (c == b')') _ _ (omega arith) tt)
  ]

  pub Ends-apply_function :
      (n : ℕ) (name : Text) (x : F) (s : Text)
      → length s ≤ n
      → Ends (suc n) (apply_function name (x, s))
  unfolding apply_function
  Ends-apply_function n name x s h =
      Ends-if (suc n) (text_eq name (codes "sqrt")) _ _ (omega arith) tt

  pub Ends-variable :
      (vm : VariableManager F) (name : Text) (n : ℕ) (s : Text)
      → length s ≤ n
      → Ends (suc n) (variable_to_double vm name >>= λ x. ok (x, s))
  Ends-variable vm name n s h =
      Ends-Settled (suc n) (variable_to_double vm name) _ (Settled-variable_to_double vm name)
        λ x. omega arith

  -- An argument in parentheses is read by a call that ends within the fuel left.
  pub Ends-parse_name :
      (argument : Text → Numeric F) (vm : VariableManager F) (name s : Text)
      → ((t : Text) → suc (length t) ≤ length s → Ends (length t) (argument t))
      → Ends (suc (length s)) (parse_name argument vm name s)
  unfolding parse_name
  Ends-parse_name argument vm name s h = elim (skip_spaces-cases s) [
    | inl e ↦ rw (Ends, e) (Ends-variable vm name (length s) (skip_spaces s) (length-skip_spaces s))
    | inr (c, rest, e, lt) ↦
        rw (Ends, e)
          (Ends-if _ (c == b'(') _ _
            (Ends-bind (length rest) _ (argument rest) _ (h rest lt) λ x t lt_t.
              Ends-bind (length rest) _ _ _ (Ends-close_with (length rest) _ x t (omega arith))
                λ y u lt_u.
                  Ends-mono (suc (length u)) _ _ (omega (arith, lt))
                    (Ends-apply_function _ name y u (omega arith)))
            (Ends-variable vm name (length s) (skip_spaces s) (length-skip_spaces s)))
  ]

  pub Ends-divide : (n : ℕ) (x y : F) (s : Text) → length s ≤ n → Ends (suc n) (divide x (y, s))
  unfolding divide
  Ends-divide n x y s h =
      Ends-if _ (fl.lt (fl.abs y) (fl.literal (codes "1e-12"))) _ _ tt (omega arith)

  pub Ends-parse_operand :
      (argument : Text → Numeric F) (vm : VariableManager F) (c : ℕ) (s : Text)
      → ((t : Text) → suc (length t) ≤ length s → Ends (length t) (argument t))
      → Ends (suc (length s)) (parse_operand argument vm c s)
  unfolding parse_operand
  Ends-parse_operand argument vm c s h =
      let rest = (span is_word_char s).1 in
      let le : length rest ≤ length s = length-span is_word_char s in
      Ends-if _ (is_digit c || (c == b'.')) _ _ (Ends-parse_number F c s) (
        Ends-if _ (starts_word c) _ _
          (Ends-mono (suc (length rest)) _ _ (omega arith)
            (Ends-parse_name argument vm _ rest λ t lt. h t (omega arith)))
          tt)
