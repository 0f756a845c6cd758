-- ===== src/Examples/Composites.antt =====
-- src/executor/generic_executor.cpp, executeSequence, executeSelector and executeParallel, on three nodes
-- of which the second fails.
use actuator_final.Prelude.{true, false, [], none, List, ◌≡◌, refl}
use actuator_final.Prelude.Int.{ℤ}
use actuator_final.Text.{codes, text_eq, trim, to_upper, contains}
use actuator_final.Dict.{insert}
use actuator_final.Result.{ok}
use actuator_final.Variables.{set}
use actuator_final.Behavior.{fields}
use actuator_final.Executor.Runtime.{◌>>=◌, cancelled, changes, set_variable}
use actuator_final.Executor.Commands.{
  ExecutionResult, Failure, Success, execute_command, execute_builtin_command,
}
use actuator_final.Executor.Nodes.{
  execute_sequence, execute_selector, execute_parallel, enter_node, apply_observation_values,
  check_precondition, leave_node, after_child, failed_in,
}
use actuator_final.Executor.Semantics.{
  RunUntil, RunAll, sequence_verdict, selector_verdict, parallel_verdict, first_failure,
  merged_successes, or_else, sequence_runs, selector_runs, parallel_runs,
}
use actuator_final.Examples.{fails_late, start, whole_numbers, after_exit, after_all, refused}

sequence_stops : execute_sequence fails_late [] start ≡ (ok refused, after_exit)
unfolding execute_sequence enter_node cancelled apply_observation_values check_precondition
    execute_command execute_builtin_command text_eq trim to_upper contains set_variable changes
    leave_node after_child failed_in set insert ◌>>=◌
sequence_stops = refl

selector_stops :
    execute_selector (codes "any") fails_late start ≡ (ok (Success (codes "EXIT")), after_exit)
unfolding execute_sequence enter_node cancelled apply_observation_values check_precondition
    execute_command execute_builtin_command text_eq trim to_upper contains set_variable changes
    leave_node after_child failed_in set insert ◌>>=◌
selector_stops = refl

parallel_ends :
    execute_parallel fails_late none [] start
    ≡ (ok (Failure (codes "部分子节点失败") (codes "bad")), after_all)
unfolding execute_sequence enter_node cancelled apply_observation_values check_precondition
    execute_command execute_builtin_command text_eq trim to_upper contains set_variable changes
    leave_node after_child failed_in set insert ◌>>=◌ fields
parallel_ends = refl

sequence_runs_example :
    (rs : List (ExecutionResult ℤ)) × RunUntil false fails_late start rs after_exit
    × (refused ≡ sequence_verdict [] rs)
sequence_runs_example = sequence_runs fails_late [] start sequence_stops

selector_runs_example :
    (rs : List (ExecutionResult ℤ)) × RunUntil true fails_late start rs after_exit
    × (Success (codes "EXIT") ≡ selector_verdict (codes "any") rs)
selector_runs_example = selector_runs (codes "any") fails_late start selector_stops

parallel_runs_example :
    (rs : List (ExecutionResult ℤ)) × RunAll fails_late start rs after_all
    × (Failure (codes "部分子节点失败") (codes "bad")
        ≡ parallel_verdict (or_else none (first_failure fails_late rs)) (merged_successes [] rs))
parallel_runs_example = parallel_runs fails_late none [] start parallel_ends
