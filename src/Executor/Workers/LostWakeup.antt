-- ===== src/Executor/Workers/LostWakeup.antt =====
-- src/executor/generic_executor.cpp: shutdown clears running_ and notifies without queue_mutex_, so
-- that a worker may be past its test of both and not yet asleep.
use Prim.Native.Nat.{ℕ, zero, suc}
use actuator_final.Prelude.{true, List, [], ◌∷◌, none, ◌≡◌, refl, ap, ◌∙◌}
use actuator_final.Value.{Floating}
use actuator_final.Executor.Runtime.{Runtime}
use actuator_final.Executor.Workers.{
  ExecutorConfig, Worker, waiting, checked, not_called, joining, GenericExecutor, worker_count,
  threads, set_worker, lock_free, notify_all, cancel_contexts, new_executor, initialize,
  check_queue, work, worker_turn, shutdown_from, shutdown_turn, Turn, worker, caller, take_turn,
  take_turns,
}
use actuator_final.Executor.Workers.Shutdown.{asleep_for_good}

-- The first worker finds the queue empty; shutdown clears running_, cancels and notifies; and only
-- then does the worker sleep.
abbrev pub lost_turns : List Turn
lost_turns = worker 0 none ∷ worker 0 none ∷ caller ∷ caller ∷ caller ∷ worker 0 none ∷ []

lock_free-threads : (n : ℕ) → lock_free (threads n) ≡ true
unfolding lock_free
lock_free-threads zero = refl
lock_free-threads (suc n) = lock_free-threads n

module _ {F : Type 0} where
  -- An executor that runs, with no task.
  abbrev idle : ExecutorConfig → Runtime F → List Worker → GenericExecutor F
  idle config runtime ws = record {
    config = config;
    running = true;
    runtime = runtime;
    task_queue = [];
    worker_threads = ws;
    active_contexts = [];
    phase = not_called;
    events = [];
  }

  initialize-idle :
      (n : ℕ) (config : ExecutorConfig) (runtime : Runtime F)
      → worker_count config ≡ n
      → initialize (new_executor config runtime []) ≡ idle config runtime (threads n)
  unfolding initialize new_executor
  initialize-idle n config runtime e = ap (λ k. idle config runtime (threads k)) e

module _ {F : Type 0} ⦃fl : Floating F⦄ where
  test_queue :
      (config : ExecutorConfig) (runtime : Runtime F) (ws : List Worker)
      → lock_free ws ≡ true
      → worker_turn 0 none (idle config runtime (waiting ∷ ws)) ≡ idle config runtime (checked ∷ ws)
  unfolding worker_turn work check_queue set_worker lock_free
  test_queue config runtime ws free = rw free refl

  -- Every executor that initialize gave a worker can be shut down in vain: there are turns after
  -- which shutdown waits for ever for a worker that sleeps, whatever turns follow. (No task is queued.)
  pub shutdown_can_hang :
      (n : ℕ) (config : ExecutorConfig) (runtime : Runtime F)
      → worker_count config ≡ suc n
      → (turns : List Turn)
      → (take_turns turns
          (take_turns lost_turns (initialize (new_executor config runtime [])))).phase
        ≡ joining
  unfolding take_turns take_turn worker_turn work check_queue set_worker shutdown_turn shutdown_from
      notify_all cancel_contexts
  shutdown_can_hang n config runtime one turns =
      ap (λ e. (take_turns turns (take_turns lost_turns e)).phase)
        (initialize-idle (suc n) config runtime one)
      ∙ ap
          (λ e.
            (take_turns turns (take_turns (caller ∷ caller ∷ caller ∷ worker 0 none ∷ []) e)).phase)
          (test_queue config runtime (threads n) (lock_free-threads n))
      ∙ asleep_for_good 0 turns _ refl refl
