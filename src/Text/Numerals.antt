-- ===== src/Text/Numerals.antt =====
-- std::to_string and std::stoi on int, as the standard library specifies them.
use actuator_final.Prelude.{
  ℕ, zero, suc, ◌+◌, ◌-◌, ◌*◌, ◌/◌, ◌%◌, ◌^◌, Bool, true, false, List, [], ◌∷◌, ◌++◌, Option, none,
  some, ltb, ◌==◌, if◌then◌else◌, length,
}
use actuator_final.Prelude.Int.{ℤ, pos, negsuc}
use actuator_final.Text.{skip_spaces}

-- The decimal digits of a number below 10 ^ fuel, most significant first.
unfoldable pub digits : ℕ → ℕ → List ℕ
digits zero n = []
digits (suc fuel) n =
    let more = digits fuel (n / 10) in (if ltb n 10 then [] else more) ++ (48 + n % 10) ∷ []

-- std::to_string of a number below 2 ^ 64 (20 digits)
unfoldable pub nat_to_string : ℕ → List ℕ
unfolding digits
nat_to_string n = digits 20 n

unfoldable pub int_to_string : ℤ → List ℕ
unfolding nat_to_string
int_to_string (pos n) = nat_to_string n
int_to_string (negsuc n) = b'-' ∷ nat_to_string (suc n)

-- The value of a run of digits, with the number of digits read.
unfoldable pub read_digits : ℕ → ℕ → List ℕ → ℕ × ℕ
read_digits acc count [] = (acc, count)
read_digits acc count (c ∷ s) =
    let more = read_digits (acc * 10 + (c - 48)) (suc count) s in
    if ltb c 48 then (acc, count) else if ltb 57 c then (acc, count) else more

abbrev int_of_magnitude : Bool → ℕ → Option ℤ
int_of_magnitude false n = if ltb n (2 ^ 31) then some (pos n) else none
int_of_magnitude true zero = some (pos 0)
int_of_magnitude true (suc n) = if ltb n (2 ^ 31) then some (negsuc n) else none

-- After the sign: `none` (an exception) without a digit, or out of the range of int.
unfoldable pub read_int : Bool → ℕ → List ℕ → Option (ℤ × ℕ)
unfolding read_digits
read_int neg before s =
    let (n, count) = read_digits 0 0 s in
    if count == 0
    then none
    else elim (int_of_magnitude neg n) [ none ↦ none | some v ↦ some (v, before + count) ]

-- What follows the white space: an optional sign and digits.
unfoldable pub signed_int : ℕ → List ℕ → Option (ℤ × ℕ)
unfolding read_int
signed_int before [] = none
signed_int before (c ∷ s) =
    if c == b'-'
    then read_int true (suc before) s
    else if c == b'+'
    then read_int false (suc before) s
    else read_int false before (c ∷ s)

-- std::stoi(s, &pos): the value and `pos`; `none` is an exception.
unfoldable pub stoi : List ℕ → Option (ℤ × ℕ)
unfolding signed_int skip_spaces
stoi s = let t = skip_spaces s in signed_int (length s - length t) t
