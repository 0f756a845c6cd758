-- ===== src/Examples/Batches.antt =====
-- src/coordinator/coordinator.cpp, run, with two satellites of which one answers in time.
use actuator_final.Prelude.{
  false, true, List, [], ◌∷◌, ◌++◌, Option, none, some, ◌≡◌, refl, inl, arith, length, All,
}
use actuator_final.Text.{Text, codes, text_eq, text_lt}
use actuator_final.Dict.{Dict, lookup, insert}
use actuator_final.Behavior.{TaskSegment}
use actuator_final.Messages.{BatchTaskAssignAck}
use actuator_final.Coordinator.{
  run_statuses, track_all, track, on_batch_acks, on_batch_ack, satellite_success, after_wait,
  all_finished, fail_unfinished, finish_all,
}
use actuator_final.Coordinator.Outcome.{Accepts, Some, run_statuses-success}
use actuator_final.Coordinator.Finished.{run_statuses-finishes}
use actuator_final.Coordinator.Acceptance.{run_statuses-answered}
use actuator_final.Prelude.Int.{ℤ, pos}
use actuator_final.Prelude.{◌+◌, ◌↔◌}
use actuator_final.Behavior.{BehaviorNode}
use actuator_final.Coordinator.{batch_assignment}
use actuator_final.Simulator.{Simulator, handle_batch_task_assign}
use actuator_final.Simulator.Answers.{ids_where, outcomes, acknowledgement_accounts}
use actuator_final.Simulator.Cache.{IsCache, IsCache-empty, IsCache-insert, handle_batch-uncached}
use actuator_final.Simulator.Delivery.{delivered_batch}
use actuator_final.Examples.{segment, start, leave_mission, whole_numbers}

abbrev answer : BatchTaskAssignAck
answer = record {
  message_id = codes "BATCH_A";
  satellite_id = codes "A";
  node_id = codes "A";
  timestamp = 10;
  accepted = true;
  accepted_task_ids = codes "T1" ∷ [];
  rejected_task_ids = [];
  rejection_reasons = [];
}

abbrev pub two_satellites : List Text
two_satellites = codes "A" ∷ codes "B" ∷ []

abbrev pub two_batches : Dict (List TaskSegment)
two_batches = (codes "A", segment ∷ []) ∷ (codes "B", segment ∷ segment ∷ []) ∷ []

pub batch_of_a : lookup (codes "A") two_batches ≡ some (segment ∷ [])
unfolding lookup text_eq
batch_of_a = refl

run_statuses-answered_example :
    lookup
      (codes "A")
      (run_statuses two_satellites two_batches ((none ∷ []) ++ some answer ∷ none ∷ [])).results
    ≡ some (satellite_success 1 answer)
run_statuses-answered_example =
    run_statuses-answered two_satellites two_batches (codes "A") (segment ∷ []) (none ∷ [])
      (none ∷ []) answer (inl refl) batch_of_a (omega arith) refl (tt, tt)

a_succeeds :
    lookup (codes "A") (run_statuses two_satellites two_batches (some answer ∷ [])).results
    ≡ some true
unfolding run_statuses track_all track on_batch_acks on_batch_ack satellite_success after_wait
    all_finished fail_unfinished finish_all lookup insert text_eq text_lt
a_succeeds = refl

run_statuses-success_example :
    (ts : List TaskSegment) × (lookup (codes "A") two_batches ≡ some ts)
    × Some (Accepts (codes "A") (length ts)) (some answer ∷ [])
run_statuses-success_example =
    run_statuses-success two_satellites two_batches (some answer ∷ []) (codes "A") a_succeeds

run_statuses-finishes_example :
    (lookup (codes "A") (run_statuses two_satellites two_batches (none ∷ [])).finished ≡ some true)
    × All
        (λ (sat, done). done ≡ true)
        (run_statuses two_satellites two_batches (none ∷ [])).finished
run_statuses-finishes_example =
    run_statuses-finishes two_satellites two_batches (none ∷ []) (codes "A") segment [] (inl refl)
      batch_of_a

abbrev pub load_any : Text → Option BehaviorNode
load_any reference = some leave_mission

abbrev pub satellite_a : Simulator ℤ
satellite_a = record {
  satellite_id = codes "A";
  enable_rollback = true;
  executor = start;
  behavior_cache = [];
}

delivered_batch_example :
    let batch = batch_assignment (pos 7) (codes "A") (codes "NODE_A") (segment ∷ []) 5 in
    let ack = (handle_batch_task_assign load_any (some batch) 10 satellite_a).1 in
    (lookup
        (codes "A")
        (run_statuses two_satellites two_batches ([] ++ some ack ∷ none ∷ [])).results
      ≡ some true)
    ↔ (length ack.rejected_task_ids ≡ 0)
delivered_batch_example =
    delivered_batch load_any two_satellites two_batches (segment ∷ []) (codes "NODE_A") (pos 7) 5 10
      satellite_a [] (none ∷ []) (inl refl) batch_of_a (omega arith) (tt, tt)

acknowledgement_accounts_example :
    let batch = batch_assignment (pos 7) (codes "A") (codes "NODE_A") (segment ∷ []) 5 in
    let ack = (handle_batch_task_assign load_any (some batch) 10 satellite_a).1 in
    let ended = outcomes load_any batch.scheduled_tasks satellite_a in
    (ack.satellite_id ≡ codes "A")
    × (ack.message_id ≡ batch.message_id)
    × (ack.accepted_task_ids ≡ ids_where true ended batch.scheduled_tasks)
    × (ack.rejected_task_ids ≡ ids_where false ended batch.scheduled_tasks)
    × (length ack.accepted_task_ids + length ack.rejected_task_ids ≡ length batch.scheduled_tasks)
    × ((ack.accepted ≡ true) ↔ (length ack.rejected_task_ids ≡ 0))
acknowledgement_accounts_example =
    acknowledgement_accounts load_any
      (batch_assignment (pos 7) (codes "A") (codes "NODE_A") (segment ∷ []) 5) 10 satellite_a

-- The same simulator, when it has run its task before.
abbrev seasoned : Simulator ℤ
seasoned = record satellite_a { behavior_cache = insert (codes "observe") leave_mission [] }

handle_batch-uncached_example :
    let batch = batch_assignment (pos 7) (codes "A") (codes "NODE_A") (segment ∷ []) 5 in
    let (sent, ack, sim) = handle_batch_task_assign load_any (some batch) 10 seasoned in
    let (sent', ack', sim') = handle_batch_task_assign load_any (some batch) 10 satellite_a in
    (sent ≡ sent')
    × (ack ≡ ack')
    × (sim.executor ≡ sim'.executor)
    × IsCache load_any sim.behavior_cache
handle_batch-uncached_example =
    handle_batch-uncached load_any
      (some (batch_assignment (pos 7) (codes "A") (codes "NODE_A") (segment ∷ []) 5)) 10 seasoned
      (IsCache-insert load_any (codes "observe") leave_mission [] refl (IsCache-empty load_any))
