-- ===== src/Simulator/Life.antt =====
-- src/executor/satellite_simulator.{h,cpp}: initialize and shutdown, and executeSingleTask with the executor and the
-- library that they give it. What the streams read from the two files is an argument.
use mathlib.Core.Option
use actuator_final.Prelude.{Bool, false, List, [], Option, none, some, if◌then◌else◌, ◌≡◌, refl}
use actuator_final.Prelude.Int.{pos}
use actuator_final.Text.{Text, is_empty}
use actuator_final.Dict.{Dict}
use actuator_final.Value.{Floating, Value}
use actuator_final.Variables.{VariableManager, empty_manager}
use actuator_final.Variables.Config.{load_from_schedule_config}
use actuator_final.Behavior.{BehaviorNode, TaskSegment}
use actuator_final.Json.{Json, JsonLibrary}
use actuator_final.Input.{parse_behavior_definition}
use actuator_final.Executor.Runtime.{Runtime}
use actuator_final.Executor.Workers.{
  shutdown_from, worker_count, all_exited, cancel_contexts, notify_all, drain, ExecutorConfig,
  default_executor_config, GenericExecutor, Event, new_executor, shutdown_turn, Phase, closed,
  not_called,
}
use actuator_final.Executor.Workers
use actuator_final.Simulator.{Simulator, execute_single_task}

-- SatelliteSimulator, with the members of its configuration that it reads. No executor is `none`.
pub record SatelliteSimulator (F : Type 0) : Type 0 where
  pub satellite_id : Text
  pub schedule_file_path : Text
  pub executor : Option (GenericExecutor F)
  pub behavior_cache : Dict BehaviorNode

-- exec_config of initialize
unfoldable pub executor_config : Text → ExecutorConfig
unfolding default_executor_config
executor_config satellite_id = record (default_executor_config satellite_id) {
  async_mode = false;
  debug_mode = false;
  max_concurrent_tasks = pos 1;
}

module _ {F : Type 0} where
  -- The variables of a new executor: an exception of loadFromScheduleConfig is caught, and what it wrote stays.
  unfoldable pub initial_variables : Option (Json F) → SatelliteSimulator F → VariableManager F
  initial_variables file sim =
      let (returned, vm) = load_from_schedule_config file sim.satellite_id empty_manager in
      if is_empty sim.schedule_file_path then empty_manager else vm

  -- initialize: it always returns true. The mailbox is the process's.
  unfoldable pub initialize :
      Option (Json F) → Dict (Value F) → SatelliteSimulator F → SatelliteSimulator F
  unfolding initial_variables executor_config
  initialize file mailbox sim =
      let runtime : Runtime F = record {
        vars = initial_variables file sim;
        mailbox = mailbox;
        cancel_after = none;
      } in
      record sim {
        executor =
            some (Workers.initialize (new_executor (executor_config sim.satellite_id) runtime []));
      }

  -- A shutdown of the executor from its call to its return, which waits for no worker.
  unfoldable pub shut_down_executor : GenericExecutor F → GenericExecutor F
  shut_down_executor e = shutdown_turn (shutdown_turn (shutdown_turn (shutdown_turn e)))

  -- shutdown: the executor as it is given up, and the simulator without it.
  unfoldable pub shutdown : SatelliteSimulator F → Option (GenericExecutor F) × SatelliteSimulator F
  unfolding shut_down_executor
  shutdown sim = (Option.map shut_down_executor sim.executor, record sim { executor = none })

  -- What executeSingleTask looks at, once there is an executor.
  unfoldable pub view : SatelliteSimulator F → GenericExecutor F → Simulator F
  view sim e = record {
    satellite_id = sim.satellite_id;
    enable_rollback = e.config.enable_rollback;
    executor = e.runtime;
    behavior_cache = sim.behavior_cache;
  }

  unfoldable pub put_back :
      GenericExecutor F → Simulator F → SatelliteSimulator F → SatelliteSimulator F
  put_back e s sim = record sim {
    executor = some (record e { runtime = s.executor });
    behavior_cache = s.behavior_cache;
  }

module _ {F : Type 0} ⦃fl : Floating F⦄ ⦃lib : JsonLibrary F⦄ where
  -- executeSingleTask, with the definitions of the library file
  unfoldable pub execute_task_of :
      Option (Json F) → TaskSegment → SatelliteSimulator F → Bool × SatelliteSimulator F
  execute_task_of library task sim = elim sim.executor [
    | none ↦ (false, sim)
    | some e ↦
        let (task_ok, s) =
          execute_single_task (parse_behavior_definition library) task (view sim e) in
        (task_ok, put_back e s sim)
  ]

module _ {F : Type 0} where
  -- The executor of a simulator has no worker, so that its shutdown waits for none and returns.
  pub initialized_shutdown :
      (file : Option (Json F)) (mailbox : Dict (Value F)) (sim : SatelliteSimulator F)
      → Option.map {B = Phase × List (Event F)}
          (λ (e : GenericExecutor F). (e.phase, e.events))
          (shutdown (initialize file mailbox sim)).0
        ≡ some (closed, [])
  unfolding shutdown initialize shut_down_executor Workers.initialize new_executor shutdown_turn
      shutdown_from executor_config default_executor_config worker_count all_exited cancel_contexts
      notify_all drain
  initialized_shutdown file mailbox sim = refl
