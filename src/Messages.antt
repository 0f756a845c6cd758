-- ===== src/Messages.antt =====
-- src/coordinator/message_types.h: the enumerations with their numbers, and the messages. The
-- capabilities, address and port of NodeRegisterMessage, which no code reads, are left out.
pub mod Names
use actuator_final.Prelude.{ℕ, Bool, List, ◌==◌}
use actuator_final.Prelude.Int.{ℤ}
use actuator_final.Text.{Text, is_empty}
use actuator_final.Dict.{Dict}

-- MessageType is an enum over uint16_t: any 16-bit number is a value of it.
abbrev pub MessageType : Type 0
MessageType = ℕ

abbrev pub task_progress_type : MessageType
task_progress_type = 0x0104

abbrev pub task_complete_type : MessageType
task_complete_type = 0x0105

abbrev pub batch_task_assign_type : MessageType
batch_task_assign_type = 0x0108

abbrev pub batch_task_assign_ack_type : MessageType
batch_task_assign_ack_type = 0x0109

pub data NodeStatus : Type 0 where
  unknown initializing healthy degraded busy offline fault maintenance : NodeStatus

pub data Priority : Type 0 where
  low normal urgent emergency : Priority

-- static_cast<uint8_t>(priority)
unfoldable pub priority_code : Priority → ℕ
priority_code Priority.low = 4
priority_code Priority.normal = 3
priority_code Priority.urgent = 2
priority_code Priority.emergency = 1

-- The numbers are native ones below the widths of the fields: 32, 16, 16, 32, 64, 32 and 32 bits.
pub record MessageHeader : Type 0 where
  pub magic : ℕ
  pub version : ℕ
  pub msg_type : MessageType
  pub sequence_id : ℕ
  pub timestamp_ms : ℕ
  pub source_node_id : Text
  pub dest_node_id : Text
  pub priority : Priority
  pub payload_size : ℕ
  pub checksum : ℕ

abbrev pub magic_number : ℕ
magic_number = 0x53415443

abbrev pub protocol_version : ℕ
protocol_version = 0x0100

pub record Message : Type 0 where
  pub header : MessageHeader
  pub payload : List ℕ

unfoldable pub is_valid : Message → Bool
is_valid m = m.header.magic == magic_number

unfoldable pub is_broadcast : Message → Bool
is_broadcast m = is_empty m.header.dest_node_id

pub record NodeRegisterMessage : Type 0 where
  pub node_id : Text
  pub node_name : Text
  pub node_type : Text
  pub metadata : Dict Text

pub record ResourceRequirement : Type 0 where
  pub resource_id : Text
  pub usage_type : Text
  pub acquire_at : Text
  pub hold_duration_s : ℤ

pub record TaskStaticConstraint : Type 0 where
  pub name : Text
  pub hard : Bool
  pub deadline : Text

pub record TaskDynamicConstraint : Type 0 where
  pub name : Text
  pub hard : Bool

-- The fields of TaskAssignMessage that are only sent: the target, resources and constraints.
pub record TaskDetails (F : Type 0) : Type 0 where
  pub latitude_deg : F
  pub longitude_deg : F
  pub resource_requirements : List ResourceRequirement
  pub static_constraints : List TaskStaticConstraint
  pub dynamic_constraints : List TaskDynamicConstraint

-- The fields that a receiver reads; the others are in TaskDetails.
pub record TaskAssignMessage : Type 0 where
  pub segment_id : Text
  pub task_id : Text
  pub task_name : Text
  pub profit : ℤ
  pub behavior_ref : Text
  pub behavior_params : Dict Text

pub record BatchTaskAssignMessage : Type 0 where
  pub message_id : Text
  pub satellite_id : Text
  pub node_id : Text
  pub plan_id : Text
  pub timestamp : ℕ
  pub scheduled_tasks : List TaskAssignMessage
  pub require_ack : Bool
  pub ack_timeout_ms : ℕ

pub record BatchTaskAssignAck : Type 0 where
  pub message_id : Text
  pub satellite_id : Text
  pub node_id : Text
  pub timestamp : ℕ
  pub accepted : Bool
  pub accepted_task_ids : List Text
  pub rejected_task_ids : List Text
  pub rejection_reasons : Dict Text

pub data TaskStatus : Type 0 where
  pending queued running completed failed aborted cancelled : TaskStatus

pub record TaskProgressMessage : Type 0 where
  pub segment_id : Text
  pub task_id : Text
  pub status : TaskStatus
  pub progress_percent : ℕ
  pub current_action : Text
  pub message : Text
  pub output_vars : Dict Text

pub record TaskCompleteMessage : Type 0 where
  pub segment_id : Text
  pub task_id : Text
  pub success : Bool
  pub actual_start : Text
  pub actual_end : Text
  pub actual_profit : ℤ
  pub result_summary : Text
  pub output_data : Dict Text
