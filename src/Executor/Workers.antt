-- ===== src/Executor/Workers.antt =====
-- src/executor/generic_executor.{h,cpp}: the executor around a task - initialize, shutdown and
-- workerLoop. Between two turns of a thread any other may take its turn. `set_value` and the calls of
-- callbacks, which must not throw, are events in their order. The queue is given from the start, since
-- no code fills it. The promises of its tasks are taken to be distinct and without a value: a second
-- value would throw std::future_error and end the process, which is not modelled, nor is a wait that
-- ends with no notification, which the standard permits.
pub mod Turns
pub mod Needs
pub mod Shutdown
pub mod LostWakeup
use Prim.Native.Nat.{ℕ, zero, suc}
use actuator_final.Prelude.{
  Bool, true, false, ◌&&◌, List, [], ◌∷◌, ◌++◌, Option, none, some, ◌==◌, if◌then◌else◌, ltb,
  get_elem?,
}
use actuator_final.Prelude.Int.{ℤ, pos, pos_part}
use actuator_final.Text.{Text, codes, is_empty}
use actuator_final.Dict.{Dict, insert, erase}
use actuator_final.Value.{Floating}
use actuator_final.Behavior.{BehaviorNode, TaskSegment}
use actuator_final.Executor.Runtime.{Runtime}
use actuator_final.Executor.Commands.{ExecutionResult, Failure}
use actuator_final.Executor.Tasks.{execute_task}

pub record ExecutorConfig : Type 0 where
  pub executor_id : Text
  pub satellite_id : Text
  pub async_mode : Bool
  pub max_concurrent_tasks : ℤ
  pub command_timeout_ms : ℤ
  pub enable_rollback : Bool
  pub debug_mode : Bool

-- ExecutorConfig::getDefault
unfoldable pub default_executor_config : Text → ExecutorConfig
default_executor_config sat_id = record {
  executor_id = if is_empty sat_id then codes "EXEC_DEFAULT" else codes "EXEC_" ++ sat_id;
  satellite_id = sat_id;
  async_mode = true;
  max_concurrent_tasks = pos 4;
  command_timeout_ms = pos 30000;
  enable_rollback = true;
  debug_mode = false;
}

-- The number that stands for a promise names the state that it shares with its future.
pub record PendingTask : Type 0 where
  pub task : TaskSegment
  pub behavior : BehaviorNode
  pub promise : Option ℕ
  pub callback : Bool

pub data Event (F : Type 0) : Type 0 where
  value_set : ℕ → ExecutionResult F → Event F
  called_back : Text → ExecutionResult F → Event F

-- Where a worker stands in workerLoop: before the test of the loop; before it locks the queue to test
-- the predicate of the wait; between a predicate that was false and sleep, with the lock; asleep; with
-- a task before executeTask; inside executeTask, with the flag of its context; returned.
pub data Worker : Type 0 where
  at_top waiting checked asleep exited : Worker
  taken : PendingTask → Worker
  entered : PendingTask → Bool → Worker

-- How far shutdown has come: not called, or returned at once; running_ is cleared; the contexts are
-- cancelled; all sleepers are notified; it has returned.
pub data Phase : Type 0 where
  not_called stopping cancelling joining closed : Phase

-- A context is a worker's own; active_contexts_ says by its number which worker's.
pub record GenericExecutor (F : Type 0) : Type 0 where
  pub config : ExecutorConfig
  pub running : Bool
  pub runtime : Runtime F
  pub task_queue : List PendingTask
  pub worker_threads : List Worker
  pub active_contexts : Dict ℕ
  pub phase : Phase
  pub events : List (Event F)

-- How many threads initialize starts.
unfoldable pub worker_count : ExecutorConfig → ℕ
worker_count config = if config.async_mode then pos_part config.max_concurrent_tasks else 0

abbrev pub threads : ℕ → List Worker
threads zero = []
threads (suc n) = at_top ∷ threads n

unfoldable pub set_worker : ℕ → Worker → List Worker → List Worker
set_worker i w [] = []
set_worker zero w (v ∷ ws) = w ∷ ws
set_worker (suc i) w (v ∷ ws) = v ∷ set_worker i w ws

-- Whether queue_mutex_ is free: a worker keeps it until it sleeps.
unfoldable pub lock_free : List Worker → Bool
lock_free [] = true
lock_free (checked ∷ ws) = false
lock_free (w ∷ ws) = lock_free ws

-- context->cancelled.store(true)
unfoldable pub cancel_worker : ℕ → List Worker → List Worker
cancel_worker i [] = []
cancel_worker zero (entered p flag ∷ ws) = entered p true ∷ ws
cancel_worker zero (w ∷ ws) = w ∷ ws
cancel_worker (suc i) (w ∷ ws) = w ∷ cancel_worker i ws

unfoldable pub cancel_contexts : Dict ℕ → List Worker → List Worker
cancel_contexts [] ws = ws
cancel_contexts ((segment_id, i) ∷ contexts) ws = cancel_contexts contexts (cancel_worker i ws)

-- queue_cv_.notify_all()
unfoldable pub notify_all : List Worker → List Worker
notify_all [] = []
notify_all (asleep ∷ ws) = waiting ∷ notify_all ws
notify_all (w ∷ ws) = w ∷ notify_all ws

-- Whether the loop of `join` is over.
unfoldable pub all_exited : List Worker → Bool
all_exited [] = true
all_exited (exited ∷ ws) = all_exited ws
all_exited (w ∷ ws) = false

module _ {F : Type 0} where
  unfoldable pub new_executor : ExecutorConfig → Runtime F → List PendingTask → GenericExecutor F
  new_executor config runtime queue = record {
    config = config;
    running = false;
    runtime = runtime;
    task_queue = queue;
    worker_threads = [];
    active_contexts = [];
    phase = not_called;
    events = [];
  }

  -- It always returns true.
  unfoldable pub initialize : GenericExecutor F → GenericExecutor F
  initialize e = if e.running then e else record e {
    running = true;
    worker_threads = e.worker_threads ++ threads (worker_count e.config);
    phase = not_called;
  }

  unfoldable pub set_value : Option ℕ → ExecutionResult F → List (Event F)
  set_value none result = []
  set_value (some id) result = value_set id result ∷ []

  -- What a worker does with the result of a task.
  unfoldable pub answer : PendingTask → ExecutionResult F → List (Event F)
  answer p result =
      set_value p.promise result
      ++ (if p.callback then called_back p.task.segment_id result ∷ [] else [])

  -- The last loop of shutdown.
  unfoldable pub drain : List PendingTask → List (Event F)
  drain [] = []
  drain (p ∷ ps) = set_value p.promise (Failure (codes "执行器已关闭") []) ++ drain ps

  -- The predicate of the wait, and what follows it.
  unfoldable pub check_queue : List PendingTask → GenericExecutor F → Worker × GenericExecutor F
  check_queue [] e = (if e.running then checked else exited, e)
  check_queue (p ∷ ps) e = (taken p, record e { task_queue = ps })

  unfoldable pub enter_task : ℕ → PendingTask → GenericExecutor F → Worker × GenericExecutor F
  enter_task i p e =
      (entered p false, record e { active_contexts = insert p.task.segment_id i e.active_contexts })

module _ {F : Type 0} ⦃fl : Floating F⦄ where
  -- executeTaskInternal under runtime_mutex_ and what follows it in executeTask and in the loop.
  -- `cancel_after` tells when shutdown sets the flag, unless it was set before.
  unfoldable pub finish_task :
      Option ℕ → PendingTask → Bool → GenericExecutor F → Worker × GenericExecutor F
  finish_task cancel_after p flag e =
      let (result, runtime) =
        execute_task e.config.enable_rollback (if flag then some 0 else cancel_after) p.task
          p.behavior e.runtime in
      (
        at_top,
        record e {
          runtime = runtime;
          active_contexts = erase p.task.segment_id e.active_contexts;
          events = e.events ++ answer p result;
        },
      )

  -- One turn of the worker with the number `i`.
  unfoldable pub work : ℕ → Option ℕ → Worker → GenericExecutor F → Worker × GenericExecutor F
  work i cancel_after at_top e = (if e.running then waiting else exited, e)
  work i cancel_after waiting e =
      if lock_free e.worker_threads then check_queue e.task_queue e else (waiting, e)
  work i cancel_after checked e = (asleep, e)
  work i cancel_after asleep e = (asleep, e)
  work i cancel_after exited e = (exited, e)
  work i cancel_after (taken p) e = enter_task i p e
  work i cancel_after (entered p flag) e = finish_task cancel_after p flag e

  unfoldable pub worker_turn : ℕ → Option ℕ → GenericExecutor F → GenericExecutor F
  worker_turn i cancel_after e = elim (get_elem? e.worker_threads i) [
    | none ↦ e
    | some w ↦
        let (w', e') = work i cancel_after w e in
        record e' { worker_threads = set_worker i w' e'.worker_threads }
  ]

-- One turn of the thread that calls shutdown.
module _ {F : Type 0} where
  unfoldable pub shutdown_from : Phase → GenericExecutor F → GenericExecutor F
  shutdown_from not_called e =
      if e.running then record e { running = false; phase = stopping } else e
  shutdown_from stopping e = record e {
    worker_threads = cancel_contexts e.active_contexts e.worker_threads;
    phase = cancelling;
  }
  shutdown_from cancelling e = record e {
    worker_threads = notify_all e.worker_threads;
    phase = joining;
  }
  shutdown_from joining e =
      if all_exited e.worker_threads
      then record e {
        worker_threads = [];
        task_queue = [];
        phase = closed;
        events = e.events ++ drain e.task_queue;
      }
      else e
  shutdown_from closed e = e

  unfoldable pub shutdown_turn : GenericExecutor F → GenericExecutor F
  shutdown_turn e = shutdown_from e.phase e

pub data Turn : Type 0 where
  worker : ℕ → Option ℕ → Turn
  caller : Turn

module _ {F : Type 0} ⦃fl : Floating F⦄ where
  unfoldable pub take_turn : Turn → GenericExecutor F → GenericExecutor F
  take_turn (worker i cancel_after) e = worker_turn i cancel_after e
  take_turn caller e = shutdown_turn e

  unfoldable pub take_turns : List Turn → GenericExecutor F → GenericExecutor F
  take_turns [] e = e
  take_turns (t ∷ ts) e = take_turns ts (take_turn t e)
