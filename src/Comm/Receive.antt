-- ===== src/Comm/Receive.antt =====
-- src/coordinator/inter_sat_comm.cpp: processReceivedMessage, and a round of the receiving thread.
use actuator_final.Prelude.{
  ℕ, ◌+◌, ◌%◌, ◌^◌, Bool, true, false, List, [], ◌∷◌, ◌++◌, Option, none, some, if◌then◌else◌, ◌&&◌,
  not, length,
}
use actuator_final.Text.{Text, text_eq, is_empty}
use actuator_final.Dict.{Dict, lookup, insert, erase}
use actuator_final.Messages.{Message, is_valid, is_broadcast}
use actuator_final.Wire.{deserialize_message}
use actuator_final.Wire.Frame.{Pieces, receive_data}
use actuator_final.Comm.{Comm, RemoteNode, Event, deliver}
use actuator_final.Comm.Nodes.{remove_nodes}

module _ {H : Type 0} where
  unfoldable pub deliver_all : Message → Dict H → List (Event H)
  deliver_all m [] = []
  deliver_all m ((id, h) ∷ handlers) = deliver h m ∷ deliver_all m handlers

  unfoldable pub deliver_one : Message → Option H → List (Event H)
  deliver_one m none = []
  deliver_one m (some h) = deliver h m ∷ []

  -- processReceivedMessage
  unfoldable pub process_received_message : Message → Comm H → List (Event H)
  unfolding deliver_all deliver_one
  process_received_message m c =
      if is_valid m
      then if is_broadcast m
        then deliver_all m c.local_handlers
        else deliver_one m (lookup m.header.dest_node_id c.local_handlers)
      else []

-- The node that a frame of `bytes` bytes came from, and its entry under the name that the message gives.
unfoldable pub received : ℕ → ℕ → RemoteNode → RemoteNode
received bytes now n = record n {
  messages_received = (n.messages_received + 1) % 2 ^ 64;
  bytes_received = (n.bytes_received + bytes) % 2 ^ 64;
  last_heartbeat_time_ms = now;
}

unfoldable pub renamed : Text → Text → RemoteNode → Dict RemoteNode → Dict RemoteNode
renamed id source n nodes =
    if not (is_empty source) && not (text_eq source id)
    then insert source (record n { node_id = source }) (erase id nodes)
    else insert id n nodes

module _ {H : Type 0} where
  unfoldable pub note_received : Text → ℕ → ℕ → Message → Comm H → Comm H
  unfolding received renamed
  note_received id bytes now m c = elim (lookup id c.nodes) [
    | none ↦ c
    | some n ↦ record c {
      nodes = renamed id m.header.source_node_id (received bytes now n) c.nodes;
    }
  ]

  -- A frame that cannot be deserialized is dropped.
  unfoldable pub receive_message : Text → ℕ → ℕ → Option Message → Comm H → List (Event H) × Comm H
  unfolding note_received process_received_message
  receive_message id bytes now none c = ([], c)
  receive_message id bytes now (some m) c =
      let c' = note_received id bytes now m c in (process_received_message m c', c')

  -- The frame of one node, from the pieces that its socket holds: whether it arrived, what came of it.
  unfoldable pub receive_frame : Text → ℕ → Pieces → Comm H → Bool × List (Event H) × Comm H
  unfolding receive_message
  receive_frame id now pieces c = elim (receive_data pieces) [
    | none ↦ (false, [], c)
    | some (raw, left) ↦
        let (events, c') = receive_message id (length raw) now (deserialize_message raw) c in
        (true, events, c')
  ]

  -- The loop over the nodes whose sockets are ready, with what these hold; the failed nodes come last.
  unfoldable pub receive_frames :
      ℕ → List (Text × Pieces) → Comm H → List Text × List (Event H) × Comm H
  unfolding receive_frame
  receive_frames now [] c = ([], [], c)
  receive_frames now ((id, pieces) ∷ ready) c =
      let (arrived, events, c') = receive_frame id now pieces c in
      let (failed, more, c'') = receive_frames now ready c' in
      (if arrived then failed else id ∷ failed, events ++ more, c'')

  -- A round of receiveThreadFunc, given what `select` reports ready.
  unfoldable pub receive_step : ℕ → List (Text × Pieces) → Comm H → List (Event H) × Comm H
  unfolding receive_frames
  receive_step now ready c =
      let (failed, events, c') = receive_frames now ready c in
      let (closed, c'') = remove_nodes failed c' in (events ++ closed, c'')
