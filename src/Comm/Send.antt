-- ===== src/Comm/Send.antt =====
-- src/coordinator/inter_sat_comm.cpp: sendMessage, and a round of the sending thread.
use actuator_final.Prelude.{
  ℕ, ◌+◌, ◌%◌, ◌^◌, Bool, true, false, List, [], ◌∷◌, Option, none, some, if◌then◌else◌, ◌==◌,
  length,
}
use actuator_final.Text.{Text, is_empty}
use actuator_final.Dict.{lookup, insert}
use actuator_final.Messages.{Message, magic_number, protocol_version}
use actuator_final.Wire.{serialize}
use actuator_final.Wire.Frame.{frame}
use actuator_final.Comm.{Comm, RemoteNode, Socket, Event, deliver, transmit}
use actuator_final.Comm.Queue.{push, pop}
use actuator_final.Comm.Nodes.{remove_node}

abbrev pub same_socket : Socket → ℕ → Bool
same_socket none s = false
same_socket (some r) s = r == s

-- The socket that is found for a destination, if it is connected.
abbrev pub node_socket : Option RemoteNode → Socket
node_socket none = none
node_socket (some n) = n.socket_fd

-- The outbound header of sendMessage. The Priority of a message is one of the four here, so none is
-- replaced by NORMAL.
unfoldable pub outbound : Text → Text → ℕ → ℕ → Message → Message
outbound target node_id now sequence m = record {
  header = record m.header {
    magic = magic_number;
    version = protocol_version;
    dest_node_id = target;
    source_node_id = if is_empty m.header.source_node_id then node_id else m.header.source_node_id;
    timestamp_ms = if m.header.timestamp_ms == 0 then now else m.header.timestamp_ms;
    sequence_id = sequence;
    payload_size = length m.payload % 2 ^ 32;
    checksum = 0;
  };
  payload = m.payload;
}

unfoldable pub target_of : Text → Message → Text
target_of dest m = if is_empty dest then m.header.dest_node_id else dest

module _ {H : Type 0} where
  -- getNextSequenceId
  unfoldable pub next_sequence_id : Comm H → ℕ × Comm H
  next_sequence_id c = (c.sequence_id, record c { sequence_id = (c.sequence_id + 1) % 2 ^ 32 })

  unfoldable pub sequence_for : Message → Comm H → ℕ × Comm H
  unfolding next_sequence_id
  sequence_for m c =
      if m.header.sequence_id == 0 then next_sequence_id c else (m.header.sequence_id, c)

  -- A message with a local handler goes to it in a thread of its own, any other into the queue.
  unfoldable pub dispatch : Option H → Message → ℕ → Comm H → Bool × List (Event H) × Comm H
  dispatch (some h) m queued c = (true, deliver h m ∷ [], c)
  dispatch none m queued c =
      let (ok, q) = push m queued c.send_queue in (ok, [], record c { send_queue = q })

  -- sendMessage at time `now`, queued at `queued`
  unfoldable pub send_message : Text → Message → ℕ → ℕ → Comm H → Bool × List (Event H) × Comm H
  unfolding target_of sequence_for dispatch
  send_message dest m now queued c =
      let target = target_of dest m in
      let (sequence, c') = sequence_for m c in
      if is_empty target
      then (false, [], c)
      else dispatch (lookup target c.local_handlers)
          (outbound target c.config.node_id now sequence m) queued c'

  unfoldable pub count_sent : Text → ℕ → ℕ → Comm H → Comm H
  count_sent id s bytes c = elim (lookup id c.nodes) [
    | none ↦ c
    | some n ↦
        if same_socket n.socket_fd s
        then record c {
          nodes =
              insert id
                (record n {
                  messages_sent = (n.messages_sent + 1) % 2 ^ 64;
                  bytes_sent = (n.bytes_sent + bytes) % 2 ^ 64;
                })
                c.nodes;
        }
        else c
  ]

  -- sendData of a serialized message, where `sent` says that the socket took it all. What a socket took
  -- of a frame before it failed is left out.
  unfoldable pub send_bytes : Text → ℕ → List ℕ → Bool → Comm H → List (Event H) × Comm H
  send_bytes id s bytes sent c = elim (frame bytes) [
    | none ↦ remove_node id c
    | some framed ↦
        if sent
        then (transmit s framed ∷ [], count_sent id s (length bytes) c)
        else remove_node id c
  ]

  unfoldable pub send_to : Socket → Message → Bool → Comm H → List (Event H) × Comm H
  unfolding send_bytes
  send_to none m sent c = ([], c)
  send_to (some s) m sent c = send_bytes m.header.dest_node_id s (serialize m) sent c

  -- A round of sendThreadFunc
  unfoldable pub send_step : Bool → Comm H → List (Event H) × Comm H
  unfolding send_to
  send_step sent c = elim (pop c.send_queue) [
    | none ↦ ([], c)
    | some (m, q) ↦
        send_to (node_socket (lookup m.header.dest_node_id c.nodes)) m sent
          (record c { send_queue = q })
  ]
