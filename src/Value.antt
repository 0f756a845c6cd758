-- ===== src/Value.antt =====
-- src/executor/variable_manager.h: VariableValue. The type `F` of doubles and the operations on it are
-- not code of the repository: they come as an instance of `Floating`.
use Prim.Native.Nat.{ℕ}
use actuator_final.Prelude.{Bool, true, false, [], Option, not, ◌||◌}
use actuator_final.Prelude.Int.{ℤ, is_zero}
use actuator_final.Text.{Text, codes, is_empty, text_eq}
use actuator_final.Text.Numerals.{int_to_string}
use actuator_final.Result.{Result, ok, err, thrown}

-- The operations of C++ on double that the code calls. `strtod` returns the value and the number of
-- characters read (0: no conversion); `stod` is `none` where std::stod throws.
pub record Floating (F : Type 0) : Type 0 where
  pub literal : Text → F
  pub of_int : ℤ → F
  pub to_int : F → ℤ
  pub neg : F → F
  pub abs : F → F
  pub sqrt : F → F
  pub round : F → F
  pub llround : F → ℤ
  pub add : F → F → F
  pub sub : F → F → F
  pub mul : F → F → F
  pub div : F → F → F
  pub lt : F → F → Bool
  pub le : F → F → Bool
  pub strtod : Text → F × ℕ
  pub stod : Text → Option (F × ℕ)
  pub to_string : F → Text

-- The fields int_val_, double_val_, string_val_, bool_val_ of which `type_` selects one.
pub data Value (F : Type 0) : Type 0 where
  unknown : Value F
  int : ℤ → Value F
  double : F → Value F
  string : Text → Value F
  bool : Bool → Value F

-- enum class VariableValue::Type
pub data ValueType : Type 0 where
  int_type double_type string_type bool_type unknown_type : ValueType

module _ {F : Type 0} where
  unfoldable pub get_type : Value F → ValueType
  get_type unknown = ValueType.unknown_type
  get_type (int n) = ValueType.int_type
  get_type (double x) = ValueType.double_type
  get_type (string s) = ValueType.string_type
  get_type (bool b) = ValueType.bool_type

  unfoldable pub is_bool : Value F → Bool
  is_bool (bool b) = true
  is_bool _ = false

  unfoldable pub is_string : Value F → Bool
  is_string (string s) = true
  is_string _ = false

  unfoldable pub as_bool : Value F → Result Bool
  as_bool (bool b) = ok b
  as_bool (int n) = ok (not (is_zero n))
  as_bool (string s) = ok (not (is_empty s))
  as_bool (double x) = err (thrown (codes "Cannot convert to bool"))
  as_bool unknown = err (thrown (codes "Cannot convert to bool"))

module _ {F : Type 0} ⦃fl : Floating F⦄ where
  unfoldable pub as_double : Value F → Result F
  as_double (double x) = ok x
  as_double (int n) = ok (fl.of_int n)
  as_double (string s) = err (thrown (codes "Cannot convert to double"))
  as_double (bool b) = err (thrown (codes "Cannot convert to double"))
  as_double unknown = err (thrown (codes "Cannot convert to double"))

  unfoldable pub as_string : Value F → Text
  unfolding int_to_string
  as_string (string s) = s
  as_string (int n) = int_to_string n
  as_string (double x) = fl.to_string x
  as_string (bool true) = codes "true"
  as_string (bool false) = codes "false"
  as_string unknown = []

-- The spellings that the code takes for a boolean.
unfoldable pub is_true_word : Text → Bool
is_true_word s = text_eq s (codes "true") || (text_eq s (codes "TRUE") || text_eq s (codes "True"))

unfoldable pub is_false_word : Text → Bool
is_false_word s =
    text_eq s (codes "false") || (text_eq s (codes "FALSE") || text_eq s (codes "False"))
