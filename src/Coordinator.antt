-- ===== src/Coordinator.antt =====
-- src/coordinator/coordinator.cpp: how run tracks the acknowledgements of the satellites. The mutex of the
-- task status makes the setup, each acknowledgement and the end one step each. Which messages arrive
-- before the wait of 60 seconds ends is given as a list; a message whose payload cannot be parsed is
-- `none` there. The counts are natural numbers for the source's int, which holds a list's length.
pub mod Unanswered
pub mod Outcome
pub mod Finished
pub mod Tracking
pub mod Acceptance
pub mod Router
pub mod Dispatch
pub mod Distribution
pub mod Reach
pub mod Setup
pub mod Run
pub mod Close
use actuator_final.Prelude.{
  ℕ, suc, ◌+◌, Bool, true, false, ◌&&◌, List, [], ◌∷◌, Option, none, some, if◌then◌else◌, not, ltb,
  ◌==◌, ◌++◌, map, length,
}
use actuator_final.Prelude.Int.{ℤ}
use actuator_final.Text.{Text, codes}
use actuator_final.Text.Numerals.{nat_to_string}
use actuator_final.Dict.{Dict, lookup, insert}
use actuator_final.Behavior.{TaskSegment}
use actuator_final.Messages.{BatchTaskAssignAck, BatchTaskAssignMessage, TaskAssignMessage}

-- The TaskAssignMessage of one task, and the message of distributeAllTasks for one satellite. The code
-- never sets the profit: `stale` is what it finds there.
unfoldable pub task_assignment : ℤ → TaskSegment → TaskAssignMessage
task_assignment stale task = record {
  segment_id = task.segment_id;
  task_id = task.task_id;
  task_name = task.task_id;
  profit = stale;
  behavior_ref = task.behavior_ref;
  behavior_params = task.behavior_params;
}

unfoldable pub batch_assignment : ℤ → Text → Text → List TaskSegment → ℕ → BatchTaskAssignMessage
batch_assignment stale sat_id node_id tasks now = record {
  message_id = codes "BATCH_" ++ (sat_id ++ (codes "_" ++ nat_to_string now));
  satellite_id = sat_id;
  node_id = node_id;
  plan_id = [];
  timestamp = now;
  scheduled_tasks = map (task_assignment stale) tasks;
  require_ack = true;
  ack_timeout_ms = 60000;
}

-- satellite_task_results_, satellite_task_finished_ and satellite_task_expected_counts_
pub record TaskStatuses : Type 0 where
  pub results : Dict Bool
  pub finished : Dict Bool
  pub expected_counts : Dict ℕ

abbrev pub no_statuses : TaskStatuses
no_statuses = record { results = []; finished = []; expected_counts = [] }

-- One round of the setup loop: a satellite without tasks is not tracked.
unfoldable pub track : Text → Option (List TaskSegment) → TaskStatuses → TaskStatuses
track sat none t = t
track sat (some []) t = t
track sat (some (task ∷ tasks)) t = record {
  results = insert sat false t.results;
  finished = insert sat false t.finished;
  expected_counts = insert sat (length (task ∷ tasks)) t.expected_counts;
}

unfoldable pub track_all : Dict (List TaskSegment) → List Text → TaskStatuses → TaskStatuses
track_all tasks [] t = t
track_all tasks (sat ∷ ids) t = track_all tasks ids (track sat (lookup sat tasks) t)

-- satellite_success of onCoordinatorBatchAck
unfoldable pub satellite_success : ℕ → BatchTaskAssignAck → Bool
satellite_success expected ack =
    let processed = length ack.accepted_task_ids + length ack.rejected_task_ids in
    if ltb 0 expected && (ltb 0 processed && not (processed == expected))
    then false
    else ack.accepted

-- onCoordinatorBatchAck, behind the parsing of the payload
unfoldable pub on_batch_ack : Option BatchTaskAssignAck → TaskStatuses → TaskStatuses
on_batch_ack none t = t
on_batch_ack (some ack) t = elim (lookup ack.satellite_id t.expected_counts) [
  | none ↦ t
  | some expected ↦ record t {
    results = insert ack.satellite_id (satellite_success expected ack) t.results;
    finished = insert ack.satellite_id true t.finished;
  }
]

unfoldable pub on_batch_acks : List (Option BatchTaskAssignAck) → TaskStatuses → TaskStatuses
on_batch_acks [] t = t
on_batch_acks (ack ∷ acks) t = on_batch_acks acks (on_batch_ack ack t)

-- The predicate of the wait.
unfoldable pub all_finished : Dict Bool → Bool
all_finished [] = true
all_finished ((sat, done) ∷ finished) =
    let rest = all_finished finished in if done then rest else false

-- The loop after a timeout, which writes to both maps.
unfoldable pub fail_unfinished : Dict Bool → Dict Bool → Dict Bool
fail_unfinished [] results = results
fail_unfinished ((sat, done) ∷ finished) results =
    fail_unfinished finished (if done then results else insert sat false results)

unfoldable pub finish_all : Dict Bool → Dict Bool
finish_all [] = []
finish_all ((sat, done) ∷ finished) = (sat, true) ∷ finish_all finished

unfoldable pub after_wait : TaskStatuses → TaskStatuses
after_wait t = if all_finished t.finished then t else record t {
  results = fail_unfinished t.finished t.results;
  finished = finish_all t.finished;
}

-- success_satellites
unfoldable pub count_successes : Dict Bool → ℕ
count_successes [] = 0
count_successes ((sat, success) ∷ results) =
    let rest = count_successes results in if success then suc rest else rest

-- What run does to the statuses.
unfoldable pub run_statuses :
    List Text → Dict (List TaskSegment) → List (Option BatchTaskAssignAck) → TaskStatuses
run_statuses ids tasks acks = after_wait (on_batch_acks acks (track_all tasks ids no_statuses))
