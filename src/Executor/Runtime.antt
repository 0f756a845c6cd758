-- ===== src/Executor/Runtime.antt =====
-- What the commands of generic_executor.cpp change: the variable manager and the process-wide
-- mailbox g_shared_mailbox. `cancel_after` stands for the flag of the execution context, which
-- another thread may set: that many more reads find it false, and all later ones true.
use Prim.Native.Nat.{ℕ, zero, suc}
use actuator_final.Prelude.{Bool, true, false, Option, none, some}
use actuator_final.Text.{Text}
use actuator_final.Dict.{Dict}
use actuator_final.Result.{Result, ok, err}
use actuator_final.Value.{Value}
use actuator_final.Variables.{VariableManager, Scope}
use actuator_final.Variables

pub record Runtime (F : Type 0) : Type 0 where
  pub vars : VariableManager F
  pub mailbox : Dict (Value F)
  pub cancel_after : Option ℕ

-- Code that may throw; what it wrote before the throw stays written.
abbrev pub Exec : Type 0 → Type 0 → Type 0
Exec F A = Runtime F → Result A × Runtime F

module _ {F A : Type 0} where
  abbrev pub pure : A → Exec F A
  pure a s = (ok a, s)

  abbrev pub lift : Result A → Exec F A
  lift r s = (r, s)

  -- A read of the variables that may throw.
  abbrev pub reads : (VariableManager F → Result A) → Exec F A
  reads f s = (f s.vars, s)

module _ {F A B : Type 0} where
  abbrev pub continue : Result A → (A → Exec F B) → Exec F B
  continue (ok a) f s = f a s
  continue (err e) f s = (err e, s)

  infixl 5 ◌>>=◌ ◌>>◌
  unfoldable pub ◌>>=◌ : Exec F A → (A → Exec F B) → Exec F B
  ◌>>=◌ m f s = let (r, s') = m s in continue r f s'

  abbrev pub ◌>>◌ : Exec F A → Exec F B → Exec F B
  m >> k = m >>= λ _. k

module _ {F : Type 0} where
  -- A change of the variables.
  unfoldable pub changes : (VariableManager F → VariableManager F) → Exec F (Unit {0})
  changes f s = (ok tt, record s { vars = f s.vars })

  unfoldable pub set_variable : Text → Value F → Scope → Exec F (Unit {0})
  set_variable name value scope = changes (Variables.set name value scope)

  -- ctx->cancelled.load()
  unfoldable pub cancelled : Exec F Bool
  cancelled s = elim s.cancel_after [
    | none ↦ (ok false, s)
    | some n ↦ elim n [
      | zero ↦ (ok true, s)
      | suc m ↦ (ok false, record s { cancel_after = some m })
    ]
  ]

  unfoldable pub send_packet : Dict (Value F) → Exec F (Unit {0})
  send_packet packet s = (ok tt, record s { mailbox = packet })

  unfoldable pub receive_packet : Exec F (Dict (Value F))
  receive_packet s = (ok s.mailbox, s)
