-- ===== src/Executor/Frame.antt =====
-- What every action of generic_executor.cpp keeps to, with one rule for each way to build an action.
-- The children prove it of the commands and of the nodes of a behaviour tree.
pub mod Commands
pub mod Trees
use actuator_final.Prelude.{
  Bool, true, false, List, [], ◌∷◌, Option, none, some, ◌≡◌, refl, ◌∙◌, if◌then◌else◌, arith, not,
  Bool-cases, inl, inr, ltb, Option-cases,
}
use actuator_final.Text.{Text, is_empty, codes, text_eq, find}
use actuator_final.Dict.{Dict, lookup, merge}
use actuator_final.Result.{Result, ok, err, Error, thrown, out_of_fuel}
use actuator_final.Result.Ending.{Settled}
use actuator_final.Value.{Floating, Value}
use actuator_final.Variables.{VariableManager, Scope, set, local}
use actuator_final.Variables.Scopes.{snapshots-set}
use actuator_final.Behavior.{NodeType, NodeFields, BehaviorNode, Nodes, node, nil, cons}
use actuator_final.Executor.Runtime.{
  Runtime, Exec, pure, reads, changes, set_variable, cancelled, send_packet, receive_packet, ◌>>=◌,
  ◌>>◌, continue,
}
use actuator_final.Executor.Commands.{
  ExecutionResult, evaluates, assign, move_to, packet_of, received, receive_params, receive, report,
  set_var_at, set_var, execute_builtin_command, execute_command,
}
use actuator_final.Executor.Nodes.{
  apply_observation_values, append_params, leave_node, execute_condition, check_precondition,
  enter_node, execute_node, execute_sequence, execute_selector, execute_parallel,
}

-- It leaves the snapshots of the variable manager alone, and no lack of fuel cuts it short.
pub record IsOrderly {F A : Type 0} (m : Exec F A) : Type 0 where
  pub at : (s : Runtime F) → (m s).1.vars.snapshots ≡ s.vars.snapshots
  pub settled : (s : Runtime F) → Settled (m s).0

module _ {F A : Type 0} where
  pub IsOrderly-pure : (a : A) → IsOrderly (pure {F = F} a)
  IsOrderly-pure a = record { at = λ s. refl; settled = λ s. tt }

  pub IsOrderly-reads :
      (f : VariableManager F → Result A)
      → ((vm : VariableManager F) → Settled (f vm))
      → IsOrderly (reads f)
  IsOrderly-reads f h = record { at = λ s. refl; settled = λ s. h s.vars }

  pub IsOrderly-if :
      (b : Bool) (m n : Exec F A) → IsOrderly m → IsOrderly n → IsOrderly (if b then m else n)
  IsOrderly-if true m n km kn = km
  IsOrderly-if false m n km kn = kn

module _ {F A B : Type 0} where
  pub IsOrderly-option :
      (o : Option A) {n : Exec F B} {f : A → Exec F B}
      → IsOrderly n
      → ((a : A) → IsOrderly (f a))
      → IsOrderly (elim o [ none ↦ n | some a ↦ f a ])
  IsOrderly-option none kn kf = kn
  IsOrderly-option (some a) kn kf = kf a

  continue-snapshots :
      (r : Result A) (f : A → Exec F B) (s : Runtime F)
      → ((a : A) → IsOrderly (f a))
      → (continue r f s).1.vars.snapshots ≡ s.vars.snapshots
  continue-snapshots (ok a) f s kf = (kf a).at s
  continue-snapshots (err e) f s kf = refl

  Settled-continue :
      (r : Result A) (f : A → Exec F B) (s : Runtime F)
      → Settled r
      → ((a : A) → IsOrderly (f a))
      → Settled (continue r f s).0
  Settled-continue (ok a) f s h kf = (kf a).settled s
  Settled-continue (err (thrown message)) f s h kf = tt
  Settled-continue (err out_of_fuel) f s h kf = h

  pub IsOrderly-bind :
      (m : Exec F A) (f : A → Exec F B)
      → IsOrderly m
      → ((a : A) → IsOrderly (f a))
      → IsOrderly (m >>= f)
  unfolding ◌>>=◌
  IsOrderly-bind m f km kf = record {
    at = λ s. continue-snapshots (m s).0 f (m s).1 kf ∙ km.at s;
    settled = λ s. Settled-continue (m s).0 f (m s).1 (km.settled s) kf;
  }

module _ {F : Type 0} where
  pub IsOrderly-set_variable :
      (name : Text) (v : Value F) (scope : Scope) → IsOrderly (set_variable name v scope)
  unfolding set_variable changes
  IsOrderly-set_variable name v scope = record {
    at = λ s. snapshots-set name v scope s.vars;
    settled = λ s. tt;
  }

  pub IsOrderly-cancelled : IsOrderly (cancelled {F = F})
  unfolding cancelled
  IsOrderly-cancelled = record { at = λ s. ground arith; settled = λ s. ground arith }

  pub IsOrderly-send_packet : (packet : Dict (Value F)) → IsOrderly (send_packet packet)
  unfolding send_packet
  IsOrderly-send_packet packet = record { at = λ s. refl; settled = λ s. tt }

  pub IsOrderly-receive_packet : IsOrderly (receive_packet {F = F})
  unfolding receive_packet
  IsOrderly-receive_packet = record { at = λ s. refl; settled = λ s. tt }

pub ruleset orderly_rules = (
  IsOrderly-pure, IsOrderly-reads, IsOrderly-if, IsOrderly-bind, IsOrderly-set_variable,
  IsOrderly-cancelled, IsOrderly-send_packet, IsOrderly-receive_packet,
)
