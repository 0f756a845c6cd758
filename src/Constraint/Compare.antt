-- ===== src/Constraint/Compare.antt =====
-- src/constraint/evaluator.cpp: compare.
use actuator_final.Prelude.{
  Bool, true, false, ◌||◌, Option, none, some, if◌then◌else◌, not, bool_eq, ◌&&◌,
}
use actuator_final.Prelude.Int.{is_zero}
use actuator_final.Text.{Text, codes, text_eq, text_lt, is_empty}
use actuator_final.Result.{Result, ok, err}
use actuator_final.Value.{
  Floating, Value, unknown, int, double, string, bool, is_bool, is_string, as_double, as_string,
  is_true_word, is_false_word,
}

-- The six comparisons between two operands, in the order in which the code tests for them.
pub record Comparison : Type 0 where
  pub equal : Bool
  pub different : Bool
  pub less : Bool
  pub greater : Bool
  pub at_most : Bool
  pub at_least : Bool

-- The ladder on `op`; `none` if no test matched, and the code goes on below.
unfoldable pub select : Text → Comparison → Option Bool
select op c =
    if text_eq op (codes "==") || text_eq op (codes "=")
    then some c.equal
    else if text_eq op (codes "!=")
    then some c.different
    else if text_eq op (codes "<")
    then some c.less
    else if text_eq op (codes ">")
    then some c.greater
    else if text_eq op (codes "<=")
    then some c.at_most
    else if text_eq op (codes ">=")
    then some c.at_least
    else none

unfoldable pub bool_comparison : Bool → Bool → Comparison
bool_comparison l r = record {
  equal = bool_eq l r;
  different = not (bool_eq l r);
  less = not l && r;
  greater = l && not r;
  at_most = not l || r;
  at_least = l || not r;
}

unfoldable pub text_comparison : Text → Text → Comparison
text_comparison l r = record {
  equal = text_eq l r;
  different = not (text_eq l r);
  less = text_lt l r;
  greater = text_lt r l;
  at_most = not (text_lt r l);
  at_least = not (text_lt l r);
}

module _ {F : Type 0} ⦃fl : Floating F⦄ where
  abbrev epsilon : F
  epsilon = fl.literal (codes "1e-9")

  unfoldable pub number_comparison : F → F → Comparison
  number_comparison l r = record {
    equal = fl.lt (fl.abs (fl.sub l r)) epsilon;
    different = fl.le epsilon (fl.abs (fl.sub l r));
    less = fl.lt l r;
    greater = fl.lt r l;
    at_most = fl.le l r;
    at_least = fl.le r l;
  }

  -- The lambda toBool.
  unfoldable pub to_bool : Value F → Bool
  to_bool (bool b) = b
  to_bool (int n) = not (is_zero n)
  to_bool (double x) = fl.lt epsilon (fl.abs x)
  to_bool (string text) =
      if is_true_word text then true else if is_false_word text then false else not (is_empty text)
  to_bool unknown = false

  -- Both operands as double; a conversion that throws is caught, and the answer is false.
  unfoldable pub compare_numbers : Result F → Text → Result F → Bool
  unfolding number_comparison
  compare_numbers (ok l) op (ok r) = elim (select op (number_comparison l r)) [
    | some b ↦ b
    | none ↦ false
  ]
  compare_numbers (ok l) op (err e) = false
  compare_numbers (err e) op r = false

  unfoldable pub compare_rest : Value F → Text → Value F → Bool
  unfolding compare_numbers text_comparison
  compare_rest left op right =
      let numbers = compare_numbers (as_double left) op (as_double right) in
      if is_string left || is_string right
      then elim (select op (text_comparison (as_string left) (as_string right))) [
        | some b ↦ b
        | none ↦ numbers
      ]
      else numbers

  unfoldable pub compare : Value F → Text → Value F → Bool
  unfolding compare_rest bool_comparison
  compare left op right =
      let rest = compare_rest left op right in
      if is_bool left || is_bool right
      then elim (select op (bool_comparison (to_bool left) (to_bool right))) [
        | some b ↦ b
        | none ↦ rest
      ]
      else rest
