-- ===== src/Examples/Workers.antt =====
-- src/executor/generic_executor.cpp: executors with workers, a task in the queue and a shutdown.
use Prim.Native.Nat.{ℕ, zero, suc}
use actuator_final.Prelude.{
  true, false, [], ◌∷◌, List, none, ◌≡◌, ◌<◌, ◌≤◌, refl, arith, length, ◌++◌,
}
use actuator_final.Prelude.Int.{ℤ}
use actuator_final.Text.{codes}
use actuator_final.Result.Ending.{Settled}
use actuator_final.Executor.Tasks.{run_behavior}
use actuator_final.Executor.Tasks.Termination.{run_behavior-Settled}
use actuator_final.Executor.Workers.{
  ExecutorConfig, default_executor_config, worker_count, PendingTask, GenericExecutor, Phase,
  cancelling, joining, closed, lock_free, new_executor, initialize, Turn, worker, caller,
  take_turns,
}
use actuator_final.Executor.Workers.Needs.{turns_of}
use actuator_final.Executor.Workers.Shutdown.{shutdown_returns}
use actuator_final.Executor.Workers.LostWakeup.{lost_turns, shutdown_can_hang}
use actuator_final.Examples.Tasks.{observe}
use actuator_final.Examples.{start, segment, whole_numbers}

run_behavior-Settled_example :
    Settled (run_behavior true (codes "snapshot_0") segment observe start).0
run_behavior-Settled_example = run_behavior-Settled true (codes "snapshot_0") segment observe start

abbrev four_workers : ExecutorConfig
four_workers = default_executor_config (codes "SAT-01")

-- An executor whose four workers have not yet begun when it is shut down, before the notification.
abbrev stopped : GenericExecutor ℤ
stopped = take_turns (caller ∷ caller ∷ []) (initialize (new_executor four_workers start []))

abbrev round_robin : List Turn
round_robin = worker 0 none ∷ worker 1 none ∷ worker 2 none ∷ worker 3 none ∷ []

abbrev four_rounds : List Turn
four_rounds = round_robin ++ round_robin ++ round_robin ++ round_robin

is_cancelling : stopped.phase ≡ cancelling
unfolding take_turns actuator_final.Executor.Workers.cancel_contexts
    actuator_final.Executor.Workers.shutdown_from actuator_final.Executor.Workers.shutdown_turn
    actuator_final.Executor.Workers.take_turn actuator_final.Executor.Workers.worker_count
    default_executor_config initialize lock_free new_executor
is_cancelling = refl

not_running : stopped.running ≡ false
unfolding take_turns actuator_final.Executor.Workers.cancel_contexts
    actuator_final.Executor.Workers.shutdown_from actuator_final.Executor.Workers.shutdown_turn
    actuator_final.Executor.Workers.take_turn actuator_final.Executor.Workers.worker_count
    default_executor_config initialize lock_free new_executor
not_running = refl

free : lock_free stopped.worker_threads ≡ true
unfolding take_turns actuator_final.Executor.Workers.cancel_contexts
    actuator_final.Executor.Workers.shutdown_from actuator_final.Executor.Workers.shutdown_turn
    actuator_final.Executor.Workers.take_turn actuator_final.Executor.Workers.worker_count
    default_executor_config initialize lock_free new_executor
free = refl

each_four : (i : ℕ) → i < 4 → 4 ≤ turns_of i four_rounds
each_four zero h = omega arith
each_four (suc zero) h = omega arith
each_four (suc (suc zero)) h = omega arith
each_four (suc (suc (suc zero))) h = omega arith
each_four (suc (suc (suc (suc i)))) h = omega arith

each_worker : (i : ℕ) → i < length stopped.worker_threads → 4 ≤ turns_of i four_rounds
unfolding take_turns actuator_final.Executor.Workers.cancel_contexts
    actuator_final.Executor.Workers.shutdown_from actuator_final.Executor.Workers.shutdown_turn
    actuator_final.Executor.Workers.take_turn actuator_final.Executor.Workers.worker_count
    default_executor_config initialize lock_free new_executor
each_worker = each_four

shutdown_returns_example : (take_turns (caller ∷ four_rounds ++ caller ∷ []) stopped).phase ≡ closed
shutdown_returns_example =
    shutdown_returns four_rounds stopped is_cancelling not_running free each_worker

four : worker_count four_workers ≡ 4
unfolding worker_count default_executor_config
four = refl

shutdown_can_hang_example :
    (take_turns round_robin
      (take_turns lost_turns (initialize (new_executor {F = ℤ} four_workers start [])))).phase
    ≡ joining
shutdown_can_hang_example = shutdown_can_hang 3 four_workers start four round_robin
