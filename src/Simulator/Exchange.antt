-- ===== src/Simulator/Exchange.antt =====
-- src/coordinator/coordinator.cpp and src/executor/satellite_simulator.cpp together, message by message:
-- the batch and its acknowledgement pass through JSON.
use mathlib.Core.List.{map-append}
use actuator_final.Prelude.{
  ◌<◌, ◌^◌, ℕ, Bool, true, false, ◌&&◌, List, [], ◌∷◌, ◌++◌, map, Option, some, ◌≡◌, refl, sym, ap,
  ◌∙◌, subst, arith, length,
}
use actuator_final.Text.{Text}
use actuator_final.Dict.Sorted.{IsSorted, insert-IsSorted}
use actuator_final.Value.{Floating}
use actuator_final.Behavior.{BehaviorNode}
use actuator_final.Messages.{
  Message, TaskAssignMessage, BatchTaskAssignMessage, BatchTaskAssignAck, batch_task_assign_type,
}
use actuator_final.Json.{JsonLibrary}
use actuator_final.Payloads.Batch.{parse_batch}
use actuator_final.Payloads.Reports.{ack_json}
use actuator_final.Payloads.ReportRoundTrip.{IsAck, parse-serialize_ack}
use actuator_final.Coordinator.Router.{ack_of}
use actuator_final.Simulator.{
  Simulator, Outgoing, acknowledge, add_outcome, empty_ack, execute_single_task, run_tasks,
  task_to_segment, handle_batch_task_assign,
}
use actuator_final.Simulator.Handler.{build_message, message_of, handle_message}

-- The acknowledgement stays printable: its reasons stay in order.
add_outcome-IsSorted :
    (id : Text) (ok : Bool) (ack : BatchTaskAssignAck)
    → IsSorted ack.rejection_reasons
    → IsSorted (add_outcome id ok ack).rejection_reasons
unfolding add_outcome
add_outcome-IsSorted id true ack s = s
add_outcome-IsSorted id false ack s = insert-IsSorted id _ ack.rejection_reasons s

timestamp-add_outcome :
    (id : Text) (ok : Bool) (ack : BatchTaskAssignAck)
    → (add_outcome id ok ack).timestamp ≡ ack.timestamp
unfolding add_outcome
timestamp-add_outcome id true ack = refl
timestamp-add_outcome id false ack = refl

module _ {F : Type 0} ⦃fl : Floating F⦄ (load : Text → Option BehaviorNode) where
  run_tasks-IsAck :
      (tasks : List TaskAssignMessage) (completed total : ℕ) (ack : BatchTaskAssignAck) (all : Bool)
      (sim : Simulator F)
      → IsAck ack
      → IsAck (run_tasks load tasks completed total ack all sim).1
  unfolding run_tasks
  run_tasks-IsAck [] completed total ack all sim h = h
  run_tasks-IsAck (task_msg ∷ tasks) completed total ack all sim h =
      let task = task_to_segment task_msg sim.satellite_id in
      let one = execute_single_task load task sim in
      run_tasks-IsAck tasks _ total (add_outcome task.task_id one.0 ack) (all && one.0) one.1
        (record {
          timestamp =
              subst (λ n. n < 2 ^ 64) (sym (timestamp-add_outcome task.task_id one.0 ack))
                h.timestamp;
          reasons = add_outcome-IsSorted task.task_id one.0 ack h.reasons;
        })

  pub handle-IsAck :
      (batch : BatchTaskAssignMessage) (now : ℕ) (sim : Simulator F)
      → now < 2 ^ 64
      → IsAck (handle_batch_task_assign load (some batch) now sim).1
  unfolding handle_batch_task_assign empty_ack
  handle-IsAck batch now sim h =
      let begun = record (empty_ack sim.satellite_id now) { message_id = batch.message_id } in
      let r =
        run_tasks-IsAck batch.scheduled_tasks 0 (length batch.scheduled_tasks) begun true sim
          (record { timestamp = h; reasons = tt }) in
      record { timestamp = r.timestamp; reasons = r.reasons }

  -- What is sent before the acknowledgement.
  pub reports : BatchTaskAssignMessage → ℕ → Simulator F → List Outgoing
  reports batch now sim =
      (run_tasks load batch.scheduled_tasks 0 (length batch.scheduled_tasks)
        (record (empty_ack sim.satellite_id now) { message_id = batch.message_id }) true sim).0

  handle-reports :
      (batch : BatchTaskAssignMessage) (now : ℕ) (sim : Simulator F)
      → (handle_batch_task_assign load (some batch) now sim).0
        ≡ reports batch now sim
          ++ acknowledge (handle_batch_task_assign load (some batch) now sim).1 ∷ []
  unfolding handle_batch_task_assign reports empty_ack
  handle-reports batch now sim = refl

module _ {F : Type 0} ⦃fl : Floating F⦄ ⦃lib : JsonLibrary F⦄
    (load : Text → Option BehaviorNode) where
  handle_message-batch :
      (m : Message) (coordinator_id : Text) (sequence now : ℕ) (sim : Simulator F)
      → m.header.msg_type ≡ batch_task_assign_type
      → (handle_message load m coordinator_id sequence now sim).0
        ≡ map
            (message_of sim coordinator_id sequence now)
            (handle_batch_task_assign load (parse_batch F m.payload) now sim).0
  unfolding handle_message
  handle_message-batch m coordinator_id sequence now sim is_batch = ground arith

  ack_of-acknowledge :
      (sim : Simulator F) (coordinator_id : Text) (sequence now : ℕ) (ack : BatchTaskAssignAck)
      → IsAck ack
      → lib.parse (lib.dump (ack_json ack)) ≡ some (ack_json ack)
      → ack_of F (message_of sim coordinator_id sequence now (acknowledge ack)) ≡ some ack
  unfolding ack_of message_of build_message
  ack_of-acknowledge sim coordinator_id sequence now ack h reads = parse-serialize_ack F ack h reads

  -- The coordinator's view of the simulator's answer: its acknowledgement comes last.
  pub answers :
      (m : Message) (batch : BatchTaskAssignMessage) (coordinator_id : Text) (sequence now : ℕ)
      (sim : Simulator F)
      → m.header.msg_type ≡ batch_task_assign_type
      → parse_batch F m.payload ≡ some batch
      → now < 2 ^ 64
      → let ack = (handle_batch_task_assign load (some batch) now sim).1 in
        lib.parse (lib.dump (ack_json ack)) ≡ some (ack_json ack)
        → map (ack_of F) (handle_message load m coordinator_id sequence now sim).0
          ≡ map
              (ack_of F)
              (map (message_of sim coordinator_id sequence now) (reports load batch now sim))
            ++ some ack ∷ []
  answers m batch coordinator_id sequence now sim is_batch parsed fits reads =
      let ack = (handle_batch_task_assign load (some batch) now sim).1 in
      let send = message_of sim coordinator_id sequence now in
      let last =
        ack_of-acknowledge sim coordinator_id sequence now ack
          (handle-IsAck load batch now sim fits) reads in
      ap (map (ack_of F)) (
        handle_message-batch m coordinator_id sequence now sim is_batch
        ∙ ap (λ o. map send (handle_batch_task_assign load o now sim).0) parsed
        ∙ ap (map send) (handle-reports load batch now sim)
        ∙ map-append send (reports load batch now sim) (acknowledge ack ∷ []))
      ∙ map-append (ack_of F) (map send (reports load batch now sim)) (send (acknowledge ack) ∷ [])
      ∙ ap (λ o. map (ack_of F) (map send (reports load batch now sim)) ++ o ∷ []) last
