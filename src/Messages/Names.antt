-- ===== src/Messages/Names.antt =====
-- src/coordinator/message_types.h: the names that the log prints.
use actuator_final.Prelude.{List, [], ◌∷◌, if◌then◌else◌, ◌==◌}
use actuator_final.Text.{Text, codes}
use actuator_final.Messages.{MessageType, NodeStatus, Priority, TaskStatus}

-- MessageType with the names of messageTypeToString.
abbrev message_type_names : List (MessageType × Text)
message_type_names =
    (0x0001, codes "HEARTBEAT")
    ∷ (0x0002, codes "HEARTBEAT_ACK")
    ∷ (0x0003, codes "NODE_REGISTER")
    ∷ (0x0004, codes "NODE_REGISTER_ACK")
    ∷ (0x0005, codes "NODE_UNREGISTER")
    ∷ (0x0006, codes "NODE_STATUS_UPDATE")
    ∷ (0x0101, codes "TASK_ASSIGN")
    ∷ (0x0102, codes "TASK_ASSIGN_ACK")
    ∷ (0x0108, codes "BATCH_TASK_ASSIGN")
    ∷ (0x0109, codes "BATCH_TASK_ASSIGN_ACK")
    ∷ (0x0103, codes "TASK_START")
    ∷ (0x0104, codes "TASK_PROGRESS")
    ∷ (0x0105, codes "TASK_COMPLETE")
    ∷ (0x0106, codes "TASK_ABORT")
    ∷ (0x0107, codes "TASK_CANCEL")
    ∷ (0x0201, codes "STATE_SYNC_REQUEST")
    ∷ (0x0202, codes "STATE_SYNC_RESPONSE")
    ∷ (0x0203, codes "STATE_BROADCAST")
    ∷ (0x0204, codes "BARRIER_WAIT")
    ∷ (0x0205, codes "BARRIER_RELEASE")
    ∷ (0xFF01, codes "ERROR_RESPONSE")
    ∷ (0xFF02, codes "TIMEOUT_NOTIFICATION")
    ∷ []

-- The switch, whose default is UNKNOWN.
unfoldable pub name_in : List (MessageType × Text) → MessageType → Text
name_in [] type = codes "UNKNOWN"
name_in ((code, name) ∷ names) type =
    let rest = name_in names type in if type == code then name else rest

unfoldable pub message_type_to_string : MessageType → Text
unfolding name_in
message_type_to_string type = name_in message_type_names type

unfoldable pub node_status_to_string : NodeStatus → Text
node_status_to_string NodeStatus.unknown = codes "UNKNOWN"
node_status_to_string NodeStatus.initializing = codes "INITIALIZING"
node_status_to_string NodeStatus.healthy = codes "HEALTHY"
node_status_to_string NodeStatus.degraded = codes "DEGRADED"
node_status_to_string NodeStatus.busy = codes "BUSY"
node_status_to_string NodeStatus.offline = codes "OFFLINE"
node_status_to_string NodeStatus.fault = codes "FAULT"
node_status_to_string NodeStatus.maintenance = codes "MAINTENANCE"

unfoldable pub task_status_to_string : TaskStatus → Text
task_status_to_string TaskStatus.pending = codes "PENDING"
task_status_to_string TaskStatus.queued = codes "QUEUED"
task_status_to_string TaskStatus.running = codes "RUNNING"
task_status_to_string TaskStatus.completed = codes "COMPLETED"
task_status_to_string TaskStatus.failed = codes "FAILED"
task_status_to_string TaskStatus.aborted = codes "ABORTED"
task_status_to_string TaskStatus.cancelled = codes "CANCELLED"

unfoldable pub priority_to_string : Priority → Text
priority_to_string Priority.low = codes "LOW"
priority_to_string Priority.normal = codes "NORMAL"
priority_to_string Priority.urgent = codes "URGENT"
priority_to_string Priority.emergency = codes "EMERGENCY"
