-- ===== src/Simulator/EndToEnd.antt =====
-- src/coordinator/coordinator.cpp and src/executor/satellite_simulator.cpp together, from the batch
-- message to the coordinator's result.
use mathlib.Core.List.{map-append}
use actuator_final.Prelude.{
  ◌<◌, ◌^◌, ℕ, true, List, [], ◌∷◌, ◌++◌, map, Option, some, ◌≡◌, ◌↔◌, sym, ap, ◌∙◌, subst, arith,
  length, All, append_assoc,
}
use actuator_final.Prelude.Int.{ℤ}
use actuator_final.Text.{Text}
use actuator_final.Dict.{Dict, lookup}
use actuator_final.Dict.Sorted.{IsSorted}
use actuator_final.Value.{Floating}
use actuator_final.Behavior.{BehaviorNode, TaskSegment}
use actuator_final.Messages.{Message, TaskAssignMessage, TaskDetails, batch_task_assign_type}
use actuator_final.Json.{JsonLibrary}
use actuator_final.Payloads.Batch.{batch_json, serialize_batch, parse_batch}
use actuator_final.Payloads.Reports.{ack_json}
use actuator_final.Payloads.BatchRoundTrip.{IsInt, IsTask, IsBatch, parse-serialize_batch}
use actuator_final.Coordinator.{task_assignment, batch_assignment, run_statuses}
use actuator_final.Coordinator.Outcome.{Some}
use actuator_final.Coordinator.Acceptance.{NotOf}
use actuator_final.Coordinator.Router.{run_messages, ack_of, run_messages-acks}
use actuator_final.Simulator.{Simulator, handle_batch_task_assign}
use actuator_final.Simulator.Handler.{message_of, handle_message}
use actuator_final.Simulator.Delivery.{delivered_batch}
use actuator_final.Simulator.Exchange.{reports, answers}

-- The parameters of a task of the schedule are a std::map.
abbrev pub HasSortedParams : TaskSegment → Type 0
HasSortedParams task = IsSorted task.behavior_params

assignments-IsTask :
    (stale : ℤ) (tasks : List TaskSegment)
    → IsInt stale
    → All HasSortedParams tasks
    → All IsTask (map (task_assignment stale) tasks)
unfolding task_assignment
assignments-IsTask stale [] fits h = tt
assignments-IsTask stale (task ∷ tasks) fits (first, others) =
    (record { profit = fits; params = first }, assignments-IsTask stale tasks fits others)

pub batch_assignment-IsBatch :
    (stale : ℤ) (satellite_id node_id : Text) (tasks : List TaskSegment) (sent : ℕ)
    → IsInt stale
    → All HasSortedParams tasks
    → sent < 2 ^ 64
    → IsBatch (batch_assignment stale satellite_id node_id tasks sent)
unfolding batch_assignment
batch_assignment-IsBatch stale satellite_id node_id tasks sent fits h time = record {
  timestamp = time;
  ack_timeout_ms = omega arith;
  tasks = assignments-IsTask stale tasks fits h;
}

-- Where the answer stands among the coordinator's messages.
map-around :
    {A B : Type 0} (f : A → B) (before answer later : List A)
    → map f (before ++ (answer ++ later)) ≡ map f before ++ (map f answer ++ map f later)
map-around f before answer later =
    map-append f before (answer ++ later) ∙ ap (λ l. map f before ++ l) (map-append f answer later)

module _ {F : Type 0} ⦃fl : Floating F⦄ ⦃lib : JsonLibrary F⦄
    (load : Text → Option BehaviorNode) where
  -- A satellite of the schedule that has tasks is sent them as a batch message, and its simulator's
  -- messages reach the coordinator, all of them, between others. Then the coordinator records a success
  -- for the satellite just if the simulator's acknowledgement rejects no task. The conditions: profits fit 32 bits,
  -- times fit 64, the JSON library reads back the batch and the acknowledgement as it printed them, and no later
  -- message carries another acknowledgement of that satellite.
  pub delivered_messages :
      (ids : List Text) (schedule : Dict (List TaskSegment)) (tasks : List TaskSegment)
      (node_id : Text) (stale : ℤ) (details : TaskAssignMessage → TaskDetails F) (m : Message)
      (coordinator_id : Text) (sent sequence now : ℕ) (sim : Simulator F)
      (before later : List Message)
      → Some (λ id. id ≡ sim.satellite_id) ids
      → lookup sim.satellite_id schedule ≡ some tasks
      → 0 < length tasks
      → IsInt stale
      → All HasSortedParams tasks
      → sent < 2 ^ 64
      → now < 2 ^ 64
      → let batch = batch_assignment stale sim.satellite_id node_id tasks sent in
        let ack = (handle_batch_task_assign load (some batch) now sim).1 in
        m.header.msg_type ≡ batch_task_assign_type
        → m.payload ≡ serialize_batch details batch
        → lib.parse (lib.dump (batch_json details batch)) ≡ some (batch_json details batch)
        → lib.parse (lib.dump (ack_json ack)) ≡ some (ack_json ack)
        → All (NotOf sim.satellite_id) (map (ack_of F) later)
        → let answer = (handle_message load m coordinator_id sequence now sim).0 in
          (lookup sim.satellite_id
              (run_messages F ids schedule (before ++ (answer ++ later))).results
            ≡ some true)
          ↔ (length ack.rejected_task_ids ≡ 0)
  delivered_messages ids schedule tasks node_id stale details m coordinator_id sent sequence now sim
        before later member found pos fits sorted time time' is_batch carried reads answered
        others =
      let batch = batch_assignment stale sim.satellite_id node_id tasks sent in
      let ack = (handle_batch_task_assign load (some batch) now sim).1 in
      let answer = (handle_message load m coordinator_id sequence now sim).0 in
      let sends =
        map (ack_of F)
          (map (message_of sim coordinator_id sequence now) (reports load batch now sim)) in
      let parsed =
        ap (parse_batch F) carried
        ∙ parse-serialize_batch details batch
            (batch_assignment-IsBatch stale sim.satellite_id node_id tasks sent fits sorted time)
            reads in
      let acks =
        map-around (ack_of F) before answer later
        ∙ ap (λ l. map (ack_of F) before ++ (l ++ map (ack_of F) later))
            (answers load m batch coordinator_id sequence now sim is_batch parsed time' answered)
        ∙ ap (λ l. map (ack_of F) before ++ l)
            (append_assoc sends (some ack ∷ []) (map (ack_of F) later))
        ∙ sym (append_assoc (map (ack_of F) before) sends (some ack ∷ map (ack_of F) later)) in
      let same =
        run_messages-acks F ids schedule (before ++ (answer ++ later))
        ∙ ap (run_statuses ids schedule) acks in
      subst
        (λ s. (lookup sim.satellite_id s.results ≡ some true) ↔ (length ack.rejected_task_ids ≡ 0))
        (sym same)
        (delivered_batch load ids schedule tasks node_id stale sent now sim
          (map (ack_of F) before ++ sends) (map (ack_of F) later) member found pos others)
