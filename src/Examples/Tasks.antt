-- ===== src/Examples/Tasks.antt =====
-- src/executor/generic_executor.cpp, executeTask, on a behaviour that fails at its second node.
use actuator_final.Prelude.{true, false, [], none, ◌≡◌, refl}
use actuator_final.Text.{codes}
use actuator_final.Behavior.{BehaviorNode, NodeType, node}
use actuator_final.Executor.Tasks.{execute_task, initialize_task_context}
use actuator_final.Executor.Rollback.{failed_task_reverts}
use actuator_final.Examples.{plain, fails_late, start, segment, whole_numbers}

abbrev pub observe : BehaviorNode
observe = node (plain (codes "root") NodeType.sequence [] []) fails_late

observe_fails : (execute_task true none segment observe start).0.success ≡ false
unfolding execute_task actuator_final.Behavior.Template.default_expression
    actuator_final.Behavior.Template.expand_fields actuator_final.Behavior.Template.expand_node
    actuator_final.Behavior.Template.instantiate actuator_final.Behavior.is_condition
    actuator_final.Executor.Nodes.apply_observation_values
    actuator_final.Executor.Nodes.check_precondition actuator_final.Executor.Nodes.enter_node
    actuator_final.Executor.Nodes.execute_node actuator_final.Executor.Runtime.cancelled
    actuator_final.Executor.Runtime.changes actuator_final.Executor.Runtime.◌>>=◌
    actuator_final.Executor.Tasks.catch_exception actuator_final.Executor.Tasks.clear_task_scopes
    actuator_final.Executor.Tasks.execute_task_internal actuator_final.Executor.Tasks.run_behavior
    actuator_final.Executor.Tasks.run_nodes actuator_final.Behavior.Template.replace_from
    actuator_final.Behavior.Template.replace_values
    actuator_final.Behavior.Template.replace_variables
    actuator_final.Executor.Commands.execute_builtin_command
    actuator_final.Executor.Commands.execute_command actuator_final.Executor.Nodes.leave_node
    actuator_final.Executor.Runtime.set_variable actuator_final.Executor.Tasks.roll_back
    actuator_final.Text.contains actuator_final.Text.find actuator_final.Text.text_eq
    actuator_final.Text.to_upper actuator_final.Text.trim
observe_fails = refl

failed_task_reverts_example :
    let vm = (execute_task true none segment observe start).1.vars in
    (vm.global_vars ≡ (initialize_task_context segment start.vars).global_vars)
    × (vm.local_vars ≡ [])
    × (vm.intermediate_vars ≡ [])
failed_task_reverts_example = failed_task_reverts none segment observe start observe_fails
