-- ===== src/Simulator.antt =====
-- src/executor/satellite_simulator.{h,cpp}: how a simulator answers a batch of tasks. What it sends is a
-- list, in order, of messages before their serialization to JSON; a payload that cannot be parsed is
-- `none`. Loading a behaviour definition from its file is the parameter `load`, `none` where it throws.
pub mod Answers
pub mod Delivery
pub mod EndToEnd
pub mod Handler
pub mod Cache
pub mod Life
pub mod Exchange
use actuator_final.Prelude.{
  ℕ, zero, suc, ◌+◌, ◌*◌, ◌/◌, ◌%◌, Bool, true, false, ◌&&◌, List, [], ◌∷◌, ◌++◌, Option, none,
  some, if◌then◌else◌, length, ltb,
}
use actuator_final.Prelude.Int.{pos}
use actuator_final.Text.{Text, codes}
use actuator_final.Dict.{Dict, lookup, insert}
use actuator_final.Value.{Floating}
use actuator_final.Behavior.{BehaviorNode, TaskSegment}
use actuator_final.Messages.{
  Priority, TaskStatus, TaskAssignMessage, BatchTaskAssignMessage, BatchTaskAssignAck,
  TaskProgressMessage, TaskCompleteMessage,
}
use actuator_final.Executor.Runtime.{Runtime}
use actuator_final.Executor.Tasks.{execute_task}

pub record Simulator (F : Type 0) : Type 0 where
  pub satellite_id : Text
  pub enable_rollback : Bool
  pub executor : Runtime F
  pub behavior_cache : Dict BehaviorNode

-- The messages to the coordinator, a completion with its priority.
pub data Outgoing : Type 0 where
  progress : TaskProgressMessage → Outgoing
  complete : Priority → TaskCompleteMessage → Outgoing
  acknowledge : BatchTaskAssignAck → Outgoing

-- taskAssignToSegment
unfoldable pub task_to_segment : TaskAssignMessage → Text → TaskSegment
task_to_segment task satellite_id = record {
  segment_id = task.segment_id;
  task_id = task.task_id;
  satellite_id = satellite_id;
  behavior_ref = task.behavior_ref;
  behavior_params = task.behavior_params;
}

-- static_cast<uint8_t>((completed * 100) / std::max(1, task_total))
unfoldable pub percent : ℕ → ℕ → ℕ
percent completed zero = (completed * 100) % 256
percent completed (suc total) = ((completed * 100) / suc total) % 256

unfoldable pub started : TaskSegment → ℕ → ℕ → Outgoing
started task completed total = progress (record {
  segment_id = task.segment_id;
  task_id = task.task_id;
  status = TaskStatus.running;
  progress_percent = percent completed total;
  current_action = codes "execute_task";
  message = codes "task started";
  output_vars = [];
})

unfoldable pub ended : TaskSegment → Bool → Outgoing
ended task task_ok = complete (if task_ok then Priority.normal else Priority.urgent) (record {
  segment_id = task.segment_id;
  task_id = task.task_id;
  success = task_ok;
  actual_start = [];
  actual_end = [];
  actual_profit = pos 0;
  result_summary = if task_ok then codes "task completed" else codes "task failed";
  output_data = [];
})

-- What one task adds to the acknowledgement.
unfoldable pub add_outcome : Text → Bool → BatchTaskAssignAck → BatchTaskAssignAck
add_outcome task_id true ack = record ack {
  accepted_task_ids = ack.accepted_task_ids ++ task_id ∷ [];
}
add_outcome task_id false ack = record ack {
  rejected_task_ids = ack.rejected_task_ids ++ task_id ∷ [];
  rejection_reasons = insert task_id (codes "task execution failed") ack.rejection_reasons;
}

unfoldable pub empty_ack : Text → ℕ → BatchTaskAssignAck
empty_ack sat_id now = record {
  message_id = [];
  satellite_id = sat_id;
  node_id = sat_id;
  timestamp = now;
  accepted = false;
  accepted_task_ids = [];
  rejected_task_ids = [];
  rejection_reasons = [];
}

module _ {F : Type 0} ⦃fl : Floating F⦄ (load : Text → Option BehaviorNode) where
  unfoldable pub run_task : TaskSegment → BehaviorNode → Simulator F → Bool × Simulator F
  run_task task behavior sim =
      let (result, executor) = execute_task sim.enable_rollback none task behavior sim.executor in
      (result.success, record sim { executor = executor })

  -- executeSingleTask, with an executor
  unfoldable pub execute_single_task : TaskSegment → Simulator F → Bool × Simulator F
  execute_single_task task sim = elim (lookup task.behavior_ref sim.behavior_cache) [
    | some behavior ↦ run_task task behavior sim
    | none ↦ elim (load task.behavior_ref) [
      | none ↦ (false, sim)
      | some behavior ↦
          run_task task behavior
            (record sim { behavior_cache = insert task.behavior_ref behavior sim.behavior_cache })
    ]
  ]

  -- The loop over the tasks: what is sent, the acknowledgement and all_success.
  unfoldable pub run_tasks :
      List TaskAssignMessage
      → ℕ
      → ℕ
      → BatchTaskAssignAck
      → Bool
      → Simulator F
      → List Outgoing × BatchTaskAssignAck × Bool × Simulator F
  run_tasks [] completed total ack all_success sim = ([], ack, all_success, sim)
  run_tasks (task_msg ∷ tasks) completed total ack all_success sim =
      let task = task_to_segment task_msg sim.satellite_id in
      let (task_ok, next) = execute_single_task task sim in
      let (sent, last_ack, last_success, last_sim) =
        run_tasks tasks (suc completed) total (add_outcome task.task_id task_ok ack)
          (all_success && task_ok) next in
      (started task completed total ∷ ended task task_ok ∷ sent, last_ack, last_success, last_sim)

  -- handleBatchTaskAssign, behind the parsing of the payload
  unfoldable pub handle_batch_task_assign :
      Option BatchTaskAssignMessage
      → ℕ
      → Simulator F
      → List Outgoing × BatchTaskAssignAck × Simulator F
  handle_batch_task_assign none now sim =
      let ack = record (empty_ack sim.satellite_id now) {
        rejection_reasons = insert (codes "payload") (codes "invalid batch task payload") [];
      } in
      (acknowledge ack ∷ [], ack, sim)
  handle_batch_task_assign (some batch) now sim =
      let begun = record (empty_ack sim.satellite_id now) { message_id = batch.message_id } in
      let (sent, ack, all_success, sim') =
        run_tasks batch.scheduled_tasks 0 (length batch.scheduled_tasks) begun true sim in
      let final = record ack { accepted = all_success } in
      (sent ++ acknowledge final ∷ [], final, sim')
