-- ===== src/Examples/Channels.antt =====
-- The communication module: a node with one connection, and a peer that handles what is sent to it.
use actuator_final.Prelude.{
  ◌≤◌, ◌<◌, ℕ, ◌+◌, ◌-◌, ◌^◌, Bool, true, false, ◌&&◌, List, [], ◌∷◌, ◌++◌, none, some, ◌≡◌, ◌↔◌,
  refl, arith, length, if◌then◌else◌, leb, is_some, All,
}
use actuator_final.Text.{codes, text_eq, is_empty}
use actuator_final.Dict.{lookup, DistinctKeys}
use actuator_final.Messages.{Message, Priority, priority_code}
use actuator_final.Wire.{serialize, serialize_header, write_u16, write_u32, write_u64, write_string}
use actuator_final.Wire.RoundTrip.{Fits}
use actuator_final.Wire.Frame.{frame, flatten}
use actuator_final.Simulator.Handler.{build_message}
use actuator_final.Comm.{
  Event, Comm, default_config, RemoteNode, new_remote_node, PriorityMessage, MessageQueue, deliver,
  transmit, new_comm, empty_queue,
}
use actuator_final.Comm.Queue.{
  push, pop, extract, QueueOp, push_op, run_ops, NotBefore, one_if, count,
}
use actuator_final.Comm.QueueOrder.{run_ops_bounded, pop_urgent}
use actuator_final.Comm.Nodes.{accept_step, elapsed, check_node_timeouts}
use actuator_final.Comm.Timeouts.{check_node_timeouts_exact}
use actuator_final.Comm.Send.{send_message, send_step, outbound, target_of, sequence_for}
use actuator_final.Comm.Receive.{receive_frame}
use actuator_final.Comm.Transport.{sent_message, sent_then_handled}
use actuator_final.Comm.Life.{
  Network, bind_socket, close_open, start, stop, halt, Keeps, node_sockets, stop_resets,
  restarts_as_new,
}

abbrev calm : Message
calm = build_message 0x0104 (codes "A") (codes "B") Priority.low (7 ∷ []) 1 5

abbrev alarm : Message
alarm = build_message 0x0104 (codes "A") (codes "B") Priority.emergency [] 2 9

abbrev ops : List QueueOp
ops = push_op calm 1 ∷ push_op alarm 2 ∷ []

run_ops_bounded_example :
    let q = run_ops ops (empty_queue 2) in
    (length q.queue ≤ 2) × (((push calm 3 q).0 ≡ false) ↔ (length q.queue ≡ 2))
run_ops_bounded_example = run_ops_bounded ops 2 calm 3

abbrev calm_left : MessageQueue
calm_left = record {
  queue = record { message = calm; priority = 4; timestamp = 1 } ∷ [];
  max_size = 2;
}

alarm_first : pop (run_ops ops (empty_queue 2)) ≡ some (alarm, calm_left)
unfolding pop run_ops push extract build_message priority_code
alarm_first = refl

abbrev early : PriorityMessage → Bool
early p = leb p.timestamp 1

pop_urgent_example :
    (p : PriorityMessage) × (p.message ≡ alarm)
    × (p.priority ≡ priority_code alarm.header.priority)
    × All (NotBefore p) calm_left.queue
    × (count early (run_ops ops (empty_queue 2)).queue
        ≡ one_if (early p) + count early calm_left.queue)
pop_urgent_example = pop_urgent ops 2 alarm calm_left early alarm_first

abbrev node_b : RemoteNode
node_b = record new_remote_node {
  node_id = codes "B";
  last_heartbeat_time_ms = 100;
  socket_fd = some 4;
}

abbrev sender : Comm ℕ
sender = record (new_comm ℕ default_config) {
  running = true;
  initialized = true;
  nodes = (codes "B", node_b) ∷ [];
  listen_socket = some 3;
}

b_connected : lookup (codes "B") sender.nodes ≡ some node_b
unfolding lookup text_eq
b_connected = refl

b_alone : DistinctKeys sender.nodes
unfolding lookup
b_alone = (refl, tt)

check_node_timeouts_exact_example :
    (lookup (codes "B") (check_node_timeouts 99 sender).1.nodes ≡ (
      if leb (elapsed 99 node_b.last_heartbeat_time_ms) default_config.heartbeat_timeout_ms
      then some node_b
      else none))
    × (elapsed 99 node_b.last_heartbeat_time_ms ≡ (
        if leb node_b.last_heartbeat_time_ms 99
        then 99 - node_b.last_heartbeat_time_ms
        else 2 ^ 64 - (node_b.last_heartbeat_time_ms - 99)))
check_node_timeouts_exact_example =
    check_node_timeouts_exact 99 sender (codes "B") node_b b_alone b_connected (omega arith)
      (omega arith)

abbrev peer : Comm ℕ
peer = record (new_comm ℕ default_config) { local_handlers = (codes "B", 17) ∷ [] }

abbrev sent : Message
sent = sent_message (codes "B") calm 6 sender

abbrev bytes : List ℕ
bytes = write_u32 (length (serialize sent)) ++ serialize sent

sent-Fits : Fits sent
unfolding outbound build_message sequence_for target_of
sent-Fits = record {
  magic = omega arith;
  version = omega arith;
  msg_type = omega arith;
  sequence_id = omega arith;
  timestamp_ms = omega arith;
  source = omega arith;
  dest = omega arith;
  checksum = omega arith;
  size_bound = omega arith;
  size = refl;
}

framed : frame (serialize sent) ≡ some bytes
unfolding frame serialize serialize_header write_u16 write_u32 write_u64 write_string outbound
    build_message sequence_for target_of
framed = refl

at_b : is_empty (target_of (codes "B") calm) ≡ false
unfolding target_of
at_b = refl

remote : lookup (target_of (codes "B") calm) sender.local_handlers ≡ none
unfolding lookup
remote = refl

connected : lookup (target_of (codes "B") calm) sender.nodes ≡ some node_b
unfolding target_of lookup text_eq
connected = refl

handled : lookup (target_of (codes "B") calm) peer.local_handlers ≡ some 17
unfolding target_of lookup text_eq
handled = refl

arrives : flatten (bytes ∷ []) ≡ bytes ++ []
unfolding flatten
arrives = refl

not_empty : 0 < length bytes
unfolding write_u32
not_empty = omega arith

sent_then_handled_example :
    ((send_step true (send_message (codes "B") calm 6 7 sender).2).0 ≡ transmit 4 bytes ∷ [])
    × ((receive_frame (codes "x") 8 (bytes ∷ []) peer).1 ≡ deliver 17 sent ∷ [])
sent_then_handled_example =
    sent_then_handled (codes "B") calm 6 7 1000 4 sender node_b bytes (codes "x") 8 (bytes ∷ []) []
      17 peer at_b remote refl (omega arith) connected refl sent-Fits framed (not_empty, tt) arrives
      handled

-- The accept thread still accepts a client while the module is stopped.
abbrev one_more : Comm ℕ → List (Event ℕ) × Comm ℕ
one_more c = ([], accept_step (some (9, codes "10.0.0.7", 4000)) 8 c)

one_more-Keeps : Keeps (halt sender).1 (one_more (halt sender).1).1
unfolding accept_step
one_more-Keeps = record {
  same_config = refl;
  same_running = refl;
  same_listen_socket = refl;
  same_send_size = refl;
  same_recv_size = refl;
}

stop_resets_example :
    ((stop one_more sender).0
      ≡ (close_open sender.listen_socket ++ node_sockets sender.nodes)
        ++ (one_more (halt sender).1).0)
    × ((stop one_more sender).1 ≡ record (new_comm ℕ default_config) {
      sequence_id = (one_more (halt sender).1).1.sequence_id;
    })
stop_resets_example = stop_resets one_more sender refl refl refl one_more-Keeps

abbrev pub good_network : Network
good_network = record { opened = some 3; address_known = true; bound = true; listening = true }

restarts_as_new_example :
    let ok = is_some good_network.opened && bind_socket good_network default_config in
    start good_network (stop one_more sender).1 ≡ (
      ok,
      record (new_comm ℕ default_config) {
        running = ok;
        initialized = ok;
        listen_socket = good_network.opened;
        sequence_id = (one_more (halt sender).1).1.sequence_id;
      },
    )
restarts_as_new_example = restarts_as_new good_network one_more sender refl refl refl one_more-Keeps
