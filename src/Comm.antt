-- ===== src/Comm.antt =====
-- src/coordinator/inter_sat_comm.{h,cpp}: the communication module. Its sockets and clocks are arguments of
-- the operations; what it does to the outside is a list of events. A handler is a std::function that
-- is not empty, and stands for itself.
pub mod Queue
pub mod QueueOrder
pub mod Nodes
pub mod Timeouts
pub mod Send
pub mod Receive
pub mod Transport
pub mod Life
use actuator_final.Prelude.{ℕ, Bool, false, List, [], ◌∷◌, Option, none}
use actuator_final.Text.{Text, codes}
use actuator_final.Dict.{Dict}
use actuator_final.Messages.{Message, NodeStatus}

pub record CommConfig : Type 0 where
  pub node_id : Text
  pub node_name : Text
  pub node_type : Text
  pub bind_address : Text
  pub bind_port : ℕ
  pub heartbeat_interval_ms : ℕ
  pub heartbeat_timeout_ms : ℕ
  pub max_missed_heartbeats : ℕ
  pub message_queue_size : ℕ
  pub send_buffer_size : ℕ
  pub recv_buffer_size : ℕ

-- CommConfig::getDefault
abbrev pub default_config : CommConfig
default_config = record {
  node_id = codes "NODE_DEFAULT";
  node_name = codes "Default Node";
  node_type = codes "SATELLITE";
  bind_address = codes "0.0.0.0";
  bind_port = 8800;
  heartbeat_interval_ms = 5000;
  heartbeat_timeout_ms = 15000;
  max_missed_heartbeats = 3;
  message_queue_size = 1000;
  send_buffer_size = 65536;
  recv_buffer_size = 65536;
}

-- INVALID_SOCKET_VALUE is `none`.
abbrev pub Socket : Type 0
Socket = Option ℕ

pub record RemoteNode : Type 0 where
  pub node_id : Text
  pub node_name : Text
  pub node_type : Text
  pub ip_address : Text
  pub port : ℕ
  pub status : NodeStatus
  pub last_heartbeat_time_ms : ℕ
  pub messages_sent : ℕ
  pub messages_received : ℕ
  pub bytes_sent : ℕ
  pub bytes_received : ℕ
  pub connect_time_ms : ℕ
  pub socket_fd : Socket

abbrev pub new_remote_node : RemoteNode
new_remote_node = record {
  node_id = [];
  node_name = [];
  node_type = [];
  ip_address = [];
  port = 0;
  status = NodeStatus.unknown;
  last_heartbeat_time_ms = 0;
  messages_sent = 0;
  messages_received = 0;
  bytes_sent = 0;
  bytes_received = 0;
  connect_time_ms = 0;
  socket_fd = none;
}

-- MessageQueue::PriorityMessage
pub record PriorityMessage : Type 0 where
  pub message : Message
  pub priority : ℕ
  pub timestamp : ℕ

pub record MessageQueue : Type 0 where
  pub queue : List PriorityMessage
  pub max_size : ℕ

abbrev pub empty_queue : ℕ → MessageQueue
empty_queue max_size = record { queue = []; max_size = max_size }

pub record Comm (H : Type 0) : Type 0 where
  pub config : CommConfig
  pub running : Bool
  pub initialized : Bool
  pub nodes : Dict RemoteNode
  pub local_handlers : Dict H
  pub send_queue : MessageQueue
  pub recv_queue : MessageQueue
  pub sequence_id : ℕ
  pub listen_socket : Socket

-- InterSatComm::InterSatComm
abbrev pub new_comm : (H : Type 0) → CommConfig → Comm H
new_comm H config = record {
  config = config;
  running = false;
  initialized = false;
  nodes = [];
  local_handlers = [];
  send_queue = empty_queue config.message_queue_size;
  recv_queue = empty_queue config.message_queue_size;
  sequence_id = 0;
  listen_socket = none;
}

-- A call of a handler, bytes handed to a socket, and a call of closesocket.
pub data Event (H : Type 0) : Type 0 where
  deliver : H → Message → Event H
  transmit : ℕ → List ℕ → Event H
  close : Socket → Event H
