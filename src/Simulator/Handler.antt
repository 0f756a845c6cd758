-- ===== src/Simulator/Handler.antt =====
-- src/executor/satellite_simulator.cpp: handleMessage, from and to messages with JSON payloads.
use actuator_final.Prelude.{ℕ, ◌%◌, ◌^◌, List, [], map, Option, if◌then◌else◌, ◌==◌, length}
use actuator_final.Text.{Text}
use actuator_final.Value.{Floating}
use actuator_final.Behavior.{BehaviorNode}
use actuator_final.Messages.{
  Message, MessageType, Priority, magic_number, protocol_version, batch_task_assign_type,
  batch_task_assign_ack_type, task_progress_type, task_complete_type,
}
use actuator_final.Json.{JsonLibrary}
use actuator_final.Payloads.Batch.{parse_batch}
use actuator_final.Payloads.Reports.{serialize_ack, serialize_progress, serialize_complete}
use actuator_final.Simulator.{
  Simulator, Outgoing, progress, complete, acknowledge, handle_batch_task_assign,
}

-- buildMessage at time `now`. The sequence number, which the default constructor leaves unset, is
-- zero or any other number: sendMessage replaces a zero.
unfoldable pub build_message : MessageType → Text → Text → Priority → List ℕ → ℕ → ℕ → Message
build_message type source dest priority payload sequence now = record {
  header = record {
    magic = magic_number;
    version = protocol_version;
    msg_type = type;
    sequence_id = sequence;
    timestamp_ms = now;
    source_node_id = source;
    dest_node_id = dest;
    priority = priority;
    payload_size = length payload % 2 ^ 32;
    checksum = 0;
  };
  payload = payload;
}

module _ {F : Type 0} ⦃fl : Floating F⦄ ⦃lib : JsonLibrary F⦄ where
  unfoldable pub message_of : Simulator F → Text → ℕ → ℕ → Outgoing → Message
  message_of sim coordinator_id sequence now (progress p) =
      build_message task_progress_type sim.satellite_id coordinator_id Priority.normal
        (serialize_progress F p) sequence now
  message_of sim coordinator_id sequence now (complete priority c) =
      build_message task_complete_type sim.satellite_id coordinator_id priority
        (serialize_complete F c) sequence now
  message_of sim coordinator_id sequence now (acknowledge ack) =
      build_message batch_task_assign_ack_type sim.satellite_id coordinator_id Priority.normal
        (serialize_ack F ack) sequence now

  -- handleMessage: any other type than a batch is ignored.
  unfoldable pub handle_message :
      (Text → Option BehaviorNode)
      → Message
      → Text
      → ℕ
      → ℕ
      → Simulator F
      → List Message × Simulator F
  handle_message load message coordinator_id sequence now sim =
      let (sent, ack, sim') =
        handle_batch_task_assign load (parse_batch F message.payload) now sim in
      if message.header.msg_type == batch_task_assign_type
      then (map (message_of sim coordinator_id sequence now) sent, sim')
      else ([], sim)
