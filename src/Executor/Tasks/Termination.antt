-- ===== src/Executor/Tasks/Termination.antt =====
-- src/executor/generic_executor.cpp: the try block of executeTaskInternal ends.
use actuator_final.Prelude.{Bool, if◌then◌else◌, List, [], ◌∷◌, Bool-cases, inl, inr}
use actuator_final.Text.{Text}
use actuator_final.Dict.{Dict, merge}
use actuator_final.Result.{Result, ok, err, thrown, out_of_fuel}
use actuator_final.Result.Ending.{Settled}
use actuator_final.Value.{Floating, Value}
use actuator_final.Behavior.{BehaviorNode, TaskSegment}
use actuator_final.Behavior.Template.{instantiate}
use actuator_final.Executor.Runtime.{Runtime, Exec, pure, cancelled, changes, ◌>>=◌, ◌>>◌, continue}
use actuator_final.Executor.Commands.{ExecutionResult}
use actuator_final.Executor.Nodes.{execute_node}
use actuator_final.Executor.Frame.{IsOrderly-cancelled}
use actuator_final.Executor.Frame.Trees.{IsOrderly-execute_node}
use actuator_final.Executor.Tasks.{roll_back, run_nodes, run_behavior}

-- An action that no lack of fuel cuts short.
abbrev SettledAction : {F A : Type 0} → Exec F A → Type 0
SettledAction {F} m = (s : Runtime F) → Settled (m s).0

module _ {F : Type 0} where
  Settled-continue :
      {A B : Type 0} (r : Result A) (f : A → Exec F B) (s : Runtime F)
      → Settled r
      → ((a : A) → SettledAction (f a))
      → Settled (continue r f s).0
  Settled-continue (ok a) f s h k = k a s
  Settled-continue (err (thrown message)) f s h k = tt
  Settled-continue (err out_of_fuel) f s h k = h

  SettledAction-bind :
      {A B : Type 0} (m : Exec F A) (f : A → Exec F B)
      → SettledAction m
      → ((a : A) → SettledAction (f a))
      → SettledAction (m >>= f)
  unfolding ◌>>=◌
  SettledAction-bind m f h k s = Settled-continue (m s).0 f (m s).1 (h s) k

  SettledAction-if :
      {A : Type 0} (b : Bool) (m n : Exec F A)
      → SettledAction m
      → SettledAction n
      → SettledAction (if b then m else n)
  SettledAction-if b m n hm hn s = elim (Bool-cases b) [ inl e ↦ rw e (hm s) | inr e ↦ rw e (hn s) ]

module _ {F : Type 0} ⦃fl : Floating F⦄ where
  SettledAction-roll_back :
      (snapshot_id : Text) (result : ExecutionResult F)
      → SettledAction {F = F} (roll_back ⦃fl = fl⦄ snapshot_id >> pure result)
  unfolding roll_back changes ◌>>=◌
  SettledAction-roll_back snapshot_id result s = tt

  SettledAction-run_nodes :
      (rollback : Bool) (snapshot_id : Text) (nodes : List BehaviorNode) (outputs : Dict (Value F))
      → SettledAction (run_nodes rollback snapshot_id nodes outputs)
  unfolding run_nodes
  SettledAction-run_nodes rollback snapshot_id [] outputs = λ s. tt
  SettledAction-run_nodes rollback snapshot_id (n ∷ ns) outputs =
      SettledAction-bind cancelled _ IsOrderly-cancelled.settled λ stop.
        SettledAction-if stop _ _ (λ s. tt)
          (SettledAction-bind (execute_node n) _ (IsOrderly-execute_node n).settled λ result.
            SettledAction-if result.success _ _
              (SettledAction-run_nodes rollback snapshot_id ns (merge outputs result.outputs))
              (SettledAction-if rollback _ _ (SettledAction-roll_back snapshot_id result) λ s. tt))

  -- Running a behaviour always ends, with a result or with a C++ exception: no tokenizer and
  -- no parser that evaluates an expression of its nodes uses up the fuel of the model, whatever the tree, the parameters and
  -- the variables.
  pub run_behavior-Settled :
      (rollback : Bool) (snapshot_id : Text) (task : TaskSegment) (behavior : BehaviorNode)
      (s : Runtime F)
      → Settled (run_behavior rollback snapshot_id task behavior s).0
  unfolding run_behavior changes ◌>>=◌
  run_behavior-Settled rollback snapshot_id task behavior s =
      SettledAction-run_nodes rollback snapshot_id (instantiate behavior task.behavior_params) [] _
