-- ===== src/Executor/Rollback.antt =====
-- src/executor/generic_executor.cpp: what executeTask leaves behind in the variable manager.
use actuator_final.Prelude.{
  Bool, true, false, List, [], ◌∷◌, Option, ◌≡◌, refl, ap, ◌∙◌, if◌then◌else◌, arith, ℕ, Bool-cases,
  inl, inr,
}
use actuator_final.Text.{Text, codes, is_empty}
use actuator_final.Dict.{Dict, merge}
use actuator_final.Result.{Result, ok, err}
use actuator_final.Value.{Floating, Value}
use actuator_final.Variables.{
  VariableManager, local, set, clear_scope, set_from_params, param_value, create_snapshot,
}
use actuator_final.Variables.Snapshots.{restore-create}
use actuator_final.Behavior.{BehaviorNode, Nodes, NodeFields, node, nil, cons, fields, TaskSegment}
use actuator_final.Behavior.Template.{instantiate}
use actuator_final.Executor.Runtime.{Runtime, Exec, pure, cancelled, changes, ◌>>=◌, ◌>>◌, continue}
use actuator_final.Executor.Commands.{ExecutionResult, Failure}
use actuator_final.Executor.Nodes.{execute_node}
use actuator_final.Executor.Frame.{IsOrderly, IsOrderly-cancelled}
use actuator_final.Executor.Frame.Trees.{IsOrderly-execute_node}
use actuator_final.Executor.Tasks.{
  initialize_task_context, node_defaults, behavior_defaults, children_defaults, all_defaults,
  roll_back, run_nodes, run_behavior, catch_exception, clear_task_scopes, execute_task_internal,
  execute_task,
}

module _ {F : Type 0} ⦃fl : Floating F⦄ where
  -- The default values go to the local scope only.
  record LocalOnly (vm vm' : VariableManager F) : Type 0 where
    globals : vm'.global_vars ≡ vm.global_vars
    snapshots : vm'.snapshots ≡ vm.snapshots

  LocalOnly-refl : (vm : VariableManager F) → LocalOnly vm vm
  LocalOnly-refl vm = record { globals = refl; snapshots = refl }

  LocalOnly-trans : {a b c : VariableManager F} → LocalOnly a b → LocalOnly b c → LocalOnly a c
  LocalOnly-trans p q = record {
    globals = q.globals ∙ p.globals;
    snapshots = q.snapshots ∙ p.snapshots;
  }

  LocalOnly-set :
      (name : Text) (v : Value F) (vm : VariableManager F) → LocalOnly vm (set name v local vm)
  unfolding set
  LocalOnly-set name v vm = record { globals = refl; snapshots = refl }

  LocalOnly-params :
      (params : Dict Text) (vm : VariableManager F) → LocalOnly vm (set_from_params params local vm)
  unfolding set_from_params
  LocalOnly-params [] vm = LocalOnly-refl vm
  LocalOnly-params ((name, text) ∷ params) vm =
      LocalOnly-trans (LocalOnly-set name (param_value text) vm) (LocalOnly-params params _)

  LocalOnly-if :
      (b : Bool) (vm next : VariableManager F)
      → LocalOnly vm next
      → LocalOnly vm (if b then vm else next)
  LocalOnly-if true vm next l = LocalOnly-refl vm
  LocalOnly-if false vm next l = l

  LocalOnly-node : (n : NodeFields) (vm : VariableManager F) → LocalOnly vm (node_defaults n vm)
  unfolding node_defaults
  LocalOnly-node n vm =
      LocalOnly-trans (LocalOnly-if (is_empty n.variable_inits) vm _ (LocalOnly-params _ vm))
        (LocalOnly-if (is_empty n.constants) _ _ (LocalOnly-params _ _))

  mutual
    unfolding behavior_defaults

    LocalOnly-behavior :
        (b : BehaviorNode) (vm : VariableManager F) → LocalOnly vm (behavior_defaults b vm)
    LocalOnly-behavior (node n children) vm =
        LocalOnly-trans (LocalOnly-node n vm) (LocalOnly-children children (node_defaults n vm))

    LocalOnly-children :
        (ns : Nodes) (vm : VariableManager F) → LocalOnly vm (children_defaults ns vm)
    LocalOnly-children nil vm = LocalOnly-refl vm
    LocalOnly-children (cons child rest) vm =
        LocalOnly-trans (LocalOnly-behavior child vm)
          (LocalOnly-children rest (behavior_defaults child vm))

  LocalOnly-all :
      (ns : List BehaviorNode) (vm : VariableManager F) → LocalOnly vm (all_defaults ns vm)
  unfolding all_defaults
  LocalOnly-all [] vm = LocalOnly-refl vm
  LocalOnly-all (n ∷ ns) vm =
      LocalOnly-trans (LocalOnly-behavior n vm) (LocalOnly-all ns (behavior_defaults n vm))

  -- How the try block may end: a failure has the saved globals again, and an exception, which is
  -- still to be rolled back, has the snapshots.
  abbrev Reverted : VariableManager F → Result (ExecutionResult F) × Runtime F → Type 0
  Reverted saved (ok r, s) = r.success ≡ false → s.vars.global_vars ≡ saved.global_vars
  Reverted saved (err e, s) = s.vars.snapshots ≡ (create_snapshot saved).1.snapshots

  Reverted-bind :
      {A : Type 0} (saved : VariableManager F) (m : Exec F A) (f : A → Exec F (ExecutionResult F))
      (s : Runtime F)
      → s.vars.snapshots ≡ (create_snapshot saved).1.snapshots
      → IsOrderly m
      → ((a : A)
          → (m s).1.vars.snapshots ≡ (create_snapshot saved).1.snapshots
          → Reverted saved (f a (m s).1))
      → Reverted saved ((m >>= f) s)
  unfolding ◌>>=◌
  Reverted-bind {A} saved m f s e km kf = go (m s).0 (m s).1 (km.at s ∙ e) kf
    where
      go :
          (r : Result A) (s' : Runtime F)
          → s'.vars.snapshots ≡ (create_snapshot saved).1.snapshots
          → ((a : A)
              → s'.vars.snapshots ≡ (create_snapshot saved).1.snapshots
              → Reverted saved (f a s'))
          → Reverted saved (continue r f s')
      go (ok a) s' e' k = k a e'
      go (err x) s' e' k = e'

  vars-cancelled : (s : Runtime F) → (cancelled s).1.vars ≡ s.vars
  unfolding cancelled
  vars-cancelled s = ground arith

  globals-roll_back :
      (saved : VariableManager F) (s : Runtime F)
      → s.vars.snapshots ≡ (create_snapshot saved).1.snapshots
      → (roll_back (create_snapshot saved).0 s).1.vars.global_vars ≡ saved.global_vars
  unfolding roll_back changes
  globals-roll_back saved s e =
      ap (λ (p : Bool × VariableManager F). p.1.global_vars) (restore-create saved s.vars e)

  Reverted-after :
      (saved : VariableManager F) (r : ExecutionResult F) (s : Runtime F)
      → s.vars.snapshots ≡ (create_snapshot saved).1.snapshots
      → Reverted saved (
          (if r.success
              then run_nodes true (create_snapshot saved).0 [] (merge [] r.outputs)
              else (roll_back (create_snapshot saved).0 >> pure r))
            s)
  unfolding run_nodes roll_back changes ◌>>=◌
  Reverted-after saved r s e = elim (Bool-cases r.success) [
    | inl good ↦ rw good (λ bad. cc)
    | inr bad ↦ rw bad (λ _. globals-roll_back saved s e)
  ]

  Reverted-node :
      (saved : VariableManager F) (n : BehaviorNode) (s : Runtime F)
      → LocalOnly (create_snapshot saved).1 s.vars
      → Reverted saved (run_nodes true (create_snapshot saved).0 (n ∷ []) [] s)
  unfolding run_nodes create_snapshot
  Reverted-node saved n s l =
      Reverted-bind saved cancelled _ s l.snapshots IsOrderly-cancelled λ stop e.
        Reverted-stop stop (cancelled s).1
          (ap (λ (vm : VariableManager F). vm.global_vars) (vars-cancelled s) ∙ l.globals) e
    where
      Reverted-stop :
          (stop : Bool) (t : Runtime F)
          → t.vars.global_vars ≡ saved.global_vars
          → t.vars.snapshots ≡ (create_snapshot saved).1.snapshots
          → Reverted saved (
              (if stop then pure (Failure (codes "任务已取消") (fields n).name) else do
                r ← execute_node n
                if r.success
                    then run_nodes true (create_snapshot saved).0 [] (merge [] r.outputs)
                    else (do roll_back (create_snapshot saved).0; pure r))
                t)
      Reverted-stop true t g e = λ _. g
      Reverted-stop false t g e =
          Reverted-bind saved (execute_node n) _ t e (IsOrderly-execute_node n)
            λ r e'. Reverted-after saved r (execute_node n t).1 e'

  Reverted-behavior :
      (saved : VariableManager F) (task : TaskSegment) (behavior : BehaviorNode) (s : Runtime F)
      → s.vars ≡ (create_snapshot saved).1
      → Reverted saved (run_behavior true (create_snapshot saved).0 task behavior s)
  unfolding run_behavior instantiate changes ◌>>=◌
  Reverted-behavior saved task behavior s e = Reverted-node saved _ _ (
      rw e (
        LocalOnly-trans (LocalOnly-all (instantiate behavior task.behavior_params) _)
          (LocalOnly-params task.behavior_params _)))

  globals-catch :
      (saved : VariableManager F) (p : Result (ExecutionResult F) × Runtime F)
      → Reverted saved p
      → (catch_exception (create_snapshot saved).0 p).0.success ≡ false
      → (catch_exception (create_snapshot saved).0 p).1.vars.global_vars ≡ saved.global_vars
  unfolding catch_exception
  globals-catch saved (ok r, s) h failed = h failed
  globals-catch saved (err e, s) h failed = globals-roll_back saved s h

  -- With rollback enabled, a task that does not succeed - by a failing node, an exception or a
  -- cancellation at any point - leaves the global variables as they were once its context was
  -- prepared: nothing that its nodes wrote to them stays. The other two scopes are empty.
  pub failed_task_reverts :
      (cancel_after : Option ℕ) (task : TaskSegment) (behavior : BehaviorNode) (s : Runtime F)
      → (execute_task true cancel_after task behavior s).0.success ≡ false
      → let vm = (execute_task true cancel_after task behavior s).1.vars in
        (vm.global_vars ≡ (initialize_task_context task s.vars).global_vars)
        × (vm.local_vars ≡ [])
        × (vm.intermediate_vars ≡ [])
  unfolding execute_task execute_task_internal clear_task_scopes clear_scope
  failed_task_reverts cancel_after task behavior s failed =
      let saved = initialize_task_context task s.vars in
      (
        globals-catch saved _
            (Reverted-behavior saved task behavior
              (record s { vars = (create_snapshot saved).1; cancel_after = cancel_after }) refl)
            failed,
        refl,
        refl,
      )
