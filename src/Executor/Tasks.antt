-- ===== src/Executor/Tasks.antt =====
-- src/executor/generic_executor.cpp: executeTask and executeTaskInternal, with the preparation of the
-- variables. The runtime mutex makes a task one critical section; `cancel_after` says when, if ever,
-- another thread cancels it. Elapsed time and log lines are not modelled.
pub mod Termination
use Prim.Native.Nat.{ℕ}
use actuator_final.Prelude.{Bool, List, [], ◌∷◌, ◌++◌, Option, if◌then◌else◌}
use actuator_final.Text.{Text, codes, is_empty}
use actuator_final.Dict.{Dict, merge}
use actuator_final.Result.{Error, thrown, out_of_fuel, Result, ok, err}
use actuator_final.Value.{Floating, Value, string}
use actuator_final.Variables.{
  VariableManager, global, local, intermediate, set, set_from_params, clear_scope, create_snapshot,
  restore_snapshot,
}
use actuator_final.Behavior.{NodeFields, BehaviorNode, Nodes, node, nil, cons, fields, TaskSegment}
use actuator_final.Behavior.Template.{instantiate}
use actuator_final.Executor.Runtime.{Runtime, Exec, pure, changes, cancelled, ◌>>=◌, ◌>>◌}
use actuator_final.Executor.Commands.{ExecutionResult, Failure, succeed_with}
use actuator_final.Executor.Nodes.{execute_node}

-- e.what()
unfoldable pub what : Error → Text
what (thrown message) = message
what out_of_fuel = []

module _ {F : Type 0} ⦃fl : Floating F⦄ where
  unfoldable pub initialize_task_context : TaskSegment → VariableManager F → VariableManager F
  initialize_task_context task vm =
      let cleared = clear_scope intermediate (clear_scope local vm) in
      let with_satellite = set (codes "satellite_id") (string task.satellite_id) global cleared in
      let with_task = set (codes "task_id") (string task.task_id) global with_satellite in
      let with_segment = set (codes "segment_id") (string task.segment_id) global with_task in
      set_from_params task.behavior_params local with_segment

  unfoldable pub node_defaults : NodeFields → VariableManager F → VariableManager F
  node_defaults n vm =
      let inits =
        if is_empty n.variable_inits then vm else set_from_params n.variable_inits local vm in
      if is_empty n.constants then inits else set_from_params n.constants local inits

  unfoldable mutual
    -- initializeBehaviorDefaults
    pub behavior_defaults : BehaviorNode → VariableManager F → VariableManager F
    behavior_defaults (node n children) vm = children_defaults children (node_defaults n vm)

    pub children_defaults : Nodes → VariableManager F → VariableManager F
    children_defaults nil vm = vm
    children_defaults (cons child rest) vm = children_defaults rest (behavior_defaults child vm)

  unfoldable pub all_defaults : List BehaviorNode → VariableManager F → VariableManager F
  all_defaults [] vm = vm
  all_defaults (n ∷ ns) vm = all_defaults ns (behavior_defaults n vm)

  -- `var_mgr_.restoreSnapshot(ctx->snapshot_id)`, its result ignored.
  unfoldable pub roll_back : Text → Exec F (Unit {0})
  roll_back snapshot_id = changes (λ vm. (restore_snapshot snapshot_id vm).1)

  -- The loop over the instantiated nodes; `outputs` is result.outputs.
  unfoldable pub run_nodes :
      Bool → Text → List BehaviorNode → Dict (Value F) → Exec F (ExecutionResult F)
  run_nodes rollback snapshot_id [] outputs = pure (succeed_with outputs)
  run_nodes rollback snapshot_id (n ∷ ns) outputs = do
    stop ← cancelled
    if stop then pure (Failure (codes "任务已取消") (fields n).name) else do
      result ← execute_node n
      if result.success
          then run_nodes rollback snapshot_id ns (merge outputs result.outputs)
          else if rollback
          then (do roll_back snapshot_id; pure result)
          else pure result

  -- The try block.
  unfoldable pub run_behavior :
      Bool → Text → TaskSegment → BehaviorNode → Exec F (ExecutionResult F)
  run_behavior rollback snapshot_id task behavior =
      let nodes = instantiate behavior task.behavior_params in
      do
        changes (all_defaults nodes)
        changes (set_from_params task.behavior_params local)
        run_nodes rollback snapshot_id nodes []

  -- catch (const std::exception& e). No behaviour runs out of fuel (Termination).
  unfoldable pub catch_exception :
      Text → Result (ExecutionResult F) × Runtime F → ExecutionResult F × Runtime F
  catch_exception snapshot_id (ok result, s) = (result, s)
  catch_exception snapshot_id (err e, s) =
      (Failure (codes "执行异常: " ++ what e) [], (roll_back snapshot_id s).1)

  unfoldable pub clear_task_scopes : ExecutionResult F × Runtime F → ExecutionResult F × Runtime F
  clear_task_scopes (result, s) =
      (result, record s { vars = clear_scope intermediate (clear_scope local s.vars) })

  -- executeTaskInternal, with config_.enable_rollback as `rollback`
  unfoldable pub execute_task_internal :
      Bool → TaskSegment → BehaviorNode → Runtime F → ExecutionResult F × Runtime F
  execute_task_internal rollback task behavior s =
      let (snapshot_id, vm) = create_snapshot (initialize_task_context task s.vars) in
      clear_task_scopes (
        catch_exception snapshot_id
          (run_behavior rollback snapshot_id task behavior (record s { vars = vm })))

  -- executeTask: a fresh context, whose flag is set after `cancel_after` reads, if at all.
  unfoldable pub execute_task :
      Bool → Option ℕ → TaskSegment → BehaviorNode → Runtime F → ExecutionResult F × Runtime F
  execute_task rollback cancel_after task behavior s =
      execute_task_internal rollback task behavior (record s { cancel_after = cancel_after })
