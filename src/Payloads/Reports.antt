-- ===== src/Payloads/Reports.antt =====
-- What a satellite reports to the coordinator: progress, completion and acknowledgement. A progress or
-- completion that parses is dropped by the coordinator, so their parsers matter only by their failures.
use actuator_final.Prelude.{ℕ, ◌-◌, ◌%◌, false, List, [], ◌∷◌, Option, some}
use actuator_final.Prelude.Int.{ℤ, pos, negsuc}
use actuator_final.Text.{Text, codes}
use actuator_final.Dict.{Dict}
use actuator_final.Value.{Floating}
use actuator_final.Messages.{
  TaskStatus, BatchTaskAssignAck, TaskProgressMessage, TaskCompleteMessage,
}
use actuator_final.Json.{
  Json, JsonLibrary, boolean, integer, text, object_with, text_object, text_array, get_text,
  get_bool, get_int, get_uint64, value, find_member, ◌>>=◌,
}
use actuator_final.Payloads.{read_params, read_texts}

-- static_cast<int>(status)
unfoldable pub status_code : TaskStatus → ℕ
status_code TaskStatus.pending = 0
status_code TaskStatus.queued = 1
status_code TaskStatus.running = 2
status_code TaskStatus.completed = 3
status_code TaskStatus.failed = 4
status_code TaskStatus.aborted = 5
status_code TaskStatus.cancelled = 6

-- static_cast<uint8_t>
unfoldable pub byte_of_int : ℤ → ℕ
byte_of_int (pos n) = n % 256
byte_of_int (negsuc n) = 255 - n % 256

module _ {F : Type 0} where
  unfoldable pub ack_json : BatchTaskAssignAck → Json F
  unfolding object_with text_object text_array
  ack_json ack = object_with (
      (codes "message_id", text ack.message_id)
      ∷ (codes "satellite_id", text ack.satellite_id)
      ∷ (codes "node_id", text ack.node_id)
      ∷ (codes "timestamp", integer (pos ack.timestamp))
      ∷ (codes "accepted", boolean ack.accepted)
      ∷ (codes "accepted_task_ids", text_array ack.accepted_task_ids)
      ∷ (codes "rejected_task_ids", text_array ack.rejected_task_ids)
      ∷ (codes "rejection_reasons", text_object ack.rejection_reasons)
      ∷ [])

  unfoldable pub progress_json : TaskProgressMessage → Json F
  unfolding object_with text_object status_code
  progress_json p = object_with (
      (codes "segment_id", text p.segment_id)
      ∷ (codes "task_id", text p.task_id)
      ∷ (codes "status", integer (pos (status_code p.status)))
      ∷ (codes "progress_percent", integer (pos p.progress_percent))
      ∷ (codes "current_action", text p.current_action)
      ∷ (codes "message", text p.message)
      ∷ (codes "output_vars", text_object p.output_vars)
      ∷ [])

  unfoldable pub complete_json : TaskCompleteMessage → Json F
  unfolding object_with text_object
  complete_json c = object_with (
      (codes "segment_id", text c.segment_id)
      ∷ (codes "task_id", text c.task_id)
      ∷ (codes "success", boolean c.success)
      ∷ (codes "actual_start", text c.actual_start)
      ∷ (codes "actual_end", text c.actual_end)
      ∷ (codes "actual_profit", integer c.actual_profit)
      ∷ (codes "result_summary", text c.result_summary)
      ∷ (codes "output_data", text_object c.output_data)
      ∷ [])

module _ {F : Type 0} ⦃fl : Floating F⦄ ⦃lib : JsonLibrary F⦄ where
  unfoldable pub read_ack : Json F → Option BatchTaskAssignAck
  read_ack j = do
    message_id ← value get_text (codes "message_id") [] j
    satellite_id ← value get_text (codes "satellite_id") [] j
    node_id ← value get_text (codes "node_id") [] j
    timestamp ← value get_uint64 (codes "timestamp") 0 j
    accepted ← value get_bool (codes "accepted") false j
    accepted_task_ids ← read_texts (find_member (codes "accepted_task_ids") j)
    rejected_task_ids ← read_texts (find_member (codes "rejected_task_ids") j)
    rejection_reasons ← read_params (find_member (codes "rejection_reasons") j)
    some (record {
      message_id = message_id;
      satellite_id = satellite_id;
      node_id = node_id;
      timestamp = timestamp;
      accepted = accepted;
      accepted_task_ids = accepted_task_ids;
      rejected_task_ids = rejected_task_ids;
      rejection_reasons = rejection_reasons;
    })

  unfoldable pub read_complete : Json F → Option TaskCompleteMessage
  read_complete j = do
    segment_id ← value get_text (codes "segment_id") [] j
    task_id ← value get_text (codes "task_id") [] j
    success ← value get_bool (codes "success") false j
    actual_start ← value get_text (codes "actual_start") [] j
    actual_end ← value get_text (codes "actual_end") [] j
    actual_profit ← value get_int (codes "actual_profit") (pos 0) j
    result_summary ← value get_text (codes "result_summary") [] j
    output_data ← read_params (find_member (codes "output_data") j)
    some (record {
      segment_id = segment_id;
      task_id = task_id;
      success = success;
      actual_start = actual_start;
      actual_end = actual_end;
      actual_profit = actual_profit;
      result_summary = result_summary;
      output_data = output_data;
    })

  -- The status as a number: static_cast<TaskStatus> takes any.
  unfoldable pub read_progress : Json F → Option (ℕ × ℕ × Dict Text)
  unfolding byte_of_int
  read_progress j = do
    segment_id ← value get_text (codes "segment_id") [] j
    task_id ← value get_text (codes "task_id") [] j
    status ← value get_int (codes "status") (pos 0) j
    progress_percent ← value get_int (codes "progress_percent") (pos 0) j
    current_action ← value get_text (codes "current_action") [] j
    message ← value get_text (codes "message") [] j
    output_vars ← read_params (find_member (codes "output_vars") j)
    some (byte_of_int status, byte_of_int progress_percent, output_vars)

module _ (F : Type 0) ⦃fl : Floating F⦄ ⦃lib : JsonLibrary F⦄ where
  unfoldable pub serialize_ack : BatchTaskAssignAck → List ℕ
  serialize_ack ack = lib.dump (ack_json ack)

  unfoldable pub serialize_progress : TaskProgressMessage → List ℕ
  serialize_progress p = lib.dump (progress_json p)

  unfoldable pub serialize_complete : TaskCompleteMessage → List ℕ
  serialize_complete c = lib.dump (complete_json c)

  -- parseBatchTaskAssignAckPayload
  unfoldable pub parse_ack : List ℕ → Option BatchTaskAssignAck
  parse_ack payload = lib.parse payload >>= λ j. read_ack j

  -- parseTaskProgressPayload
  unfoldable pub parse_progress : List ℕ → Option (ℕ × ℕ × Dict Text)
  parse_progress payload = lib.parse payload >>= λ j. read_progress j

  -- parseTaskCompletePayload
  unfoldable pub parse_complete : List ℕ → Option TaskCompleteMessage
  parse_complete payload = lib.parse payload >>= λ j. read_complete j
