-- ===== src/Result.antt =====
-- C++ exceptions as values, and code that mutates a state and may throw: what was written before
-- the throw stays written, so the state comes back beside the error too.
pub mod Ending
use actuator_final.Prelude.{Option, none, some}
use actuator_final.Text.{Text}

-- `thrown` carries what(); `out_of_fuel` stands for a recursion cut short, which no call meets.
pub data Error : Type 0 where
  thrown : Text → Error
  out_of_fuel : Error

pub data Result {ℓ} (A : Type ℓ) : Type ℓ where
  ok : A → Result A
  err : Error → Result A

infixl 5 ◌>>=◌
abbrev pub ◌>>=◌ {ℓ κ} : {A : Type ℓ} {B : Type κ} → Result A → (A → Result B) → Result B
ok a >>= f = f a
err e >>= f = err e

abbrev pub or_throw {ℓ} : {A : Type ℓ} → Option A → Text → Result A
or_throw none message = err (thrown message)
or_throw (some a) message = ok a
