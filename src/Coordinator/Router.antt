-- ===== src/Coordinator/Router.antt =====
-- src/coordinator/coordinator.cpp: handleCoordinatorMessage and the handlers that the router names.
use actuator_final.Prelude.{
  List, [], ◌∷◌, map, Option, none, some, if◌then◌else◌, ◌==◌, ◌≡◌, refl, arith, ap, ◌∙◌,
}
use actuator_final.Text.{Text}
use actuator_final.Dict.{Dict}
use actuator_final.Value.{Floating}
use actuator_final.Behavior.{TaskSegment}
use actuator_final.Messages.{
  Message, BatchTaskAssignAck, batch_task_assign_ack_type, task_progress_type, task_complete_type,
}
use actuator_final.Json.{JsonLibrary}
use actuator_final.Payloads.Reports.{parse_ack, parse_progress, parse_complete}
use actuator_final.Coordinator.{
  TaskStatuses, no_statuses, track_all, on_batch_ack, on_batch_acks, after_wait, run_statuses,
}

-- onCoordinatorTaskProgress and onCoordinatorTaskComplete parse the payload and change nothing.
unfoldable pub on_report : {A : Type 0} → Option A → TaskStatuses → TaskStatuses
on_report none t = t
on_report (some report) t = t

module _ (F : Type 0) ⦃fl : Floating F⦄ ⦃lib : JsonLibrary F⦄ where
  -- handleCoordinatorMessage, with the router that initializeMessageRouters sets up
  unfoldable pub handle_coordinator_message : Message → TaskStatuses → TaskStatuses
  unfolding on_report
  handle_coordinator_message message t =
      let type = message.header.msg_type in
      if type == batch_task_assign_ack_type
      then on_batch_ack (parse_ack F message.payload) t
      else if type == task_progress_type
      then on_report (parse_progress F message.payload) t
      else if type == task_complete_type
      then on_report (parse_complete F message.payload) t
      else t

  unfoldable pub handle_coordinator_messages : List Message → TaskStatuses → TaskStatuses
  handle_coordinator_messages [] t = t
  handle_coordinator_messages (m ∷ ms) t =
      handle_coordinator_messages ms (handle_coordinator_message m t)

  -- What run does to the statuses, given the messages that reach the coordinator until the wait ends.
  unfoldable pub run_messages : List Text → Dict (List TaskSegment) → List Message → TaskStatuses
  run_messages ids tasks messages =
      after_wait (handle_coordinator_messages messages (track_all tasks ids no_statuses))

  -- The acknowledgement that a message carries, if it is one and can be parsed.
  unfoldable pub ack_of : Message → Option BatchTaskAssignAck
  ack_of message =
      if message.header.msg_type == batch_task_assign_ack_type
      then parse_ack F message.payload
      else none

  on_report-keeps : {A : Type 0} (r : Option A) (t : TaskStatuses) → on_report r t ≡ t
  unfolding on_report
  on_report-keeps none t = refl
  on_report-keeps (some a) t = refl

  handle-ack_of :
      (m : Message) (t : TaskStatuses) → handle_coordinator_message m t ≡ on_batch_ack (ack_of m) t
  unfolding handle_coordinator_message ack_of on_batch_ack
  handle-ack_of m t = ground (
    arith,
    on_report-keeps (parse_progress F m.payload) t,
    on_report-keeps (parse_complete F m.payload) t,
  )

  handle-acks_of :
      (ms : List Message) (t : TaskStatuses)
      → handle_coordinator_messages ms t ≡ on_batch_acks (map ack_of ms) t
  unfolding handle_coordinator_messages on_batch_acks
  handle-acks_of [] t = refl
  handle-acks_of (m ∷ ms) t =
      ap (handle_coordinator_messages ms) (handle-ack_of m t)
      ∙ handle-acks_of ms (on_batch_ack (ack_of m) t)

  -- Only acknowledgements count: the rest of the traffic leaves the statuses alone.
  pub run_messages-acks :
      (ids : List Text) (tasks : Dict (List TaskSegment)) (ms : List Message)
      → run_messages ids tasks ms ≡ run_statuses ids tasks (map ack_of ms)
  unfolding run_messages run_statuses
  run_messages-acks ids tasks ms =
      ap after_wait (handle-acks_of ms (track_all tasks ids no_statuses))
