-- ===== src/Result/Ending.antt =====
-- Calls that spend fuel: what it says that a call ended before the fuel did. The sources are the
-- recursive parsers of src/constraint/evaluator.cpp and src/executor/generic_executor.cpp.
use Prim.Native.Nat.{ℕ}
use actuator_final.Prelude.{
  Option, none, some, Bool, true, false, ◌≤◌, ◌<◌, List, arith, length, if◌then◌else◌,
}
use actuator_final.Text.{Text}
use actuator_final.Result.{Result, ok, err, thrown, out_of_fuel, or_throw, ◌>>=◌}

module _ {A C : Type 0} where
  -- The call ended: with a result and fewer than `n` items left, or with an exception.
  abbrev pub Ends : ℕ → Result (A × List C) → Type 0
  Ends n (ok (a, rest)) = length rest < n
  Ends n (err (thrown message)) = Unit
  Ends n (err out_of_fuel) = ⊥

  pub Ends-mono : (n k : ℕ) (m : Result (A × List C)) → n ≤ k → Ends n m → Ends k m
  Ends-mono n k (ok (a, rest)) le h = omega arith
  Ends-mono n k (err (thrown message)) le h = tt
  Ends-mono n k (err out_of_fuel) le h = h

  pub Ends-if :
      (n : ℕ) (b : Bool) (p q : Result (A × List C))
      → Ends n p
      → Ends n q
      → Ends n (if b then p else q)
  Ends-if n true p q hp hq = hp
  Ends-if n false p q hp hq = hq

module _ {A B C : Type 0} where
  pub Ends-bind :
      (n k : ℕ) (m : Result (A × List C)) (f : A × List C → Result (B × List C))
      → Ends n m
      → ((a : A) (rest : List C) → length rest < n → Ends k (f (a, rest)))
      → Ends k (m >>= f)
  Ends-bind n k (ok (a, rest)) f h g = g a rest h
  Ends-bind n k (err (thrown message)) f h g = tt
  Ends-bind n k (err out_of_fuel) f h g = h

-- A computation that no lack of fuel cuts short.
abbrev pub Settled : {A : Type 0} → Result A → Type 0
Settled (ok a) = Unit
Settled (err (thrown message)) = Unit
Settled (err out_of_fuel) = ⊥

pub Settled-or_throw : {A : Type 0} (o : Option A) (message : Text) → Settled (or_throw o message)
Settled-or_throw none message = tt
Settled-or_throw (some a) message = tt

pub Settled-if :
    {A : Type 0} (b : Bool) (m n : Result A) → Settled m → Settled n → Settled (if b then m else n)
Settled-if true m n hm hn = hm
Settled-if false m n hm hn = hn

pub Settled-bind :
    {A B : Type 0} (m : Result A) (f : A → Result B)
    → Settled m
    → ((a : A) → Settled (f a))
    → Settled (m >>= f)
Settled-bind (ok a) f h g = g a
Settled-bind (err (thrown message)) f h g = tt
Settled-bind (err out_of_fuel) f h g = h

pub Ends-Settled :
    {A B C : Type 0} (k : ℕ) (m : Result A) (f : A → Result (B × List C))
    → Settled m
    → ((a : A) → Ends k (f a))
    → Ends k (m >>= f)
Ends-Settled k (ok a) f h g = g a
Ends-Settled k (err (thrown message)) f h g = tt
Ends-Settled k (err out_of_fuel) f h g = h

pub Settled-Ends :
    {A B C : Type 0} (n : ℕ) (m : Result (A × List C)) (f : A × List C → Result B)
    → Ends n m
    → ((p : A × List C) → Settled (f p))
    → Settled (m >>= f)
Settled-Ends n (ok p) f h g = g p
Settled-Ends n (err (thrown message)) f h g = tt
Settled-Ends n (err out_of_fuel) f h g = h
