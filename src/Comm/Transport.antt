-- ===== src/Comm/Transport.antt =====
-- src/coordinator/inter_sat_comm.cpp, both ends: what sendMessage is given arrives at the handler of another node.
use actuator_final.Prelude.{
  ◌<◌, ℕ, Bool, true, false, List, [], ◌∷◌, ◌++◌, append-nil, none, some, ◌≡◌, refl, arith, length,
  sym, ap, ◌∙◌, subst,
}
use actuator_final.Text.{Text, is_empty}
use actuator_final.Dict.{lookup}
use actuator_final.Messages.{Message, is_valid, is_broadcast}
use actuator_final.Wire.{serialize, deserialize_message}
use actuator_final.Wire.RoundTrip.{Fits, deserialize-serialize}
use actuator_final.Wire.Frame.{frame, Pieces, NonEmpty, flatten, receive_data, receive_data-frame}
use actuator_final.Comm.{empty_queue, Comm, RemoteNode, MessageQueue, Event, deliver, transmit}
use actuator_final.Comm.Queue.{push, pop, extract}
use actuator_final.Comm.Send.{
  outbound, sequence_for, next_sequence_id, dispatch, target_of, send_message, send_bytes, send_to,
  send_step,
}
use actuator_final.Comm.Receive.{
  receive_frame, receive_message, note_received, process_received_message, deliver_one,
}

pop-push_empty :
    (m : Message) (queued : ℕ) (n : ℕ)
    → 0 < n
    → let q : MessageQueue = record { queue = []; max_size = n } in
      pop (push m queued q).1 ≡ some (m, q)
unfolding pop push extract
pop-push_empty m queued n pos = ground arith

-- What is sent is valid, and addressed to one node.
valid-outbound :
    (target node_id : Text) (now sequence : ℕ) (m : Message)
    → is_valid (outbound target node_id now sequence m) ≡ true
unfolding outbound is_valid
valid-outbound target node_id now sequence m = refl

unicast-outbound :
    (target node_id : Text) (now sequence : ℕ) (m : Message)
    → is_empty target ≡ false
    → is_broadcast (outbound target node_id now sequence m) ≡ false
unfolding outbound is_broadcast
unicast-outbound target node_id now sequence m e = e

module _ {H : Type 0} where
  -- The message that sendMessage makes of its argument.
  abbrev pub sent_message : Text → Message → ℕ → Comm H → Message
  sent_message dest m now c =
      outbound (target_of dest m) c.config.node_id now (sequence_for m c).0 m

  pub send_message-dispatch :
      (dest : Text) (m : Message) (now queued : ℕ) (c : Comm H)
      → is_empty (target_of dest m) ≡ false
      → send_message dest m now queued c
        ≡ dispatch
            (lookup (target_of dest m) c.local_handlers)
            (sent_message dest m now c)
            queued
            (sequence_for m c).1
  unfolding send_message
  send_message-dispatch dest m now queued c e = ground (arith, e)

  dispatch-queued :
      (m : Message) (queued n : ℕ) (c : Comm H)
      → c.send_queue ≡ empty_queue n
      → 0 < n
      → pop (dispatch none m queued c).2.send_queue ≡ some (m, c.send_queue)
  unfolding dispatch
  dispatch-queued m queued n c e pos =
      subst (λ q. pop (push m queued q).1 ≡ some (m, q)) (sym e) (pop-push_empty m queued n pos)

  nodes-dispatch :
      (m : Message) (queued : ℕ) (c : Comm H) → (dispatch none m queued c).2.nodes ≡ c.nodes
  unfolding dispatch
  nodes-dispatch m queued c = refl

  nodes-sequence_for : (m : Message) (c : Comm H) → (sequence_for m c).1.nodes ≡ c.nodes
  unfolding sequence_for next_sequence_id
  nodes-sequence_for m c = ground arith

  queue-sequence_for : (m : Message) (c : Comm H) → (sequence_for m c).1.send_queue ≡ c.send_queue
  unfolding sequence_for next_sequence_id
  queue-sequence_for m c = ground arith

  send_step-popped :
      (c : Comm H) (m : Message) (q : MessageQueue) (n : RemoteNode) (s : ℕ) (framed : List ℕ)
      → pop c.send_queue ≡ some (m, q)
      → lookup m.header.dest_node_id c.nodes ≡ some n
      → n.socket_fd ≡ some s
      → frame (serialize m) ≡ some framed
      → (send_step true c).0 ≡ transmit s framed ∷ []
  unfolding send_step send_to send_bytes
  send_step-popped c m q n s framed popped found open_socket fits =
      rw (send_step, popped, found, open_socket, send_to, send_bytes, fits) refl

  handlers-note_received :
      (id : Text) (bytes now : ℕ) (m : Message) (c : Comm H)
      → (note_received id bytes now m c).local_handlers ≡ c.local_handlers
  unfolding note_received
  handlers-note_received id bytes now m c = ground arith

  process-handled :
      (m : Message) (h : H) (c : Comm H)
      → is_valid m ≡ true
      → is_broadcast m ≡ false
      → lookup m.header.dest_node_id c.local_handlers ≡ some h
      → process_received_message m c ≡ deliver h m ∷ []
  unfolding process_received_message deliver_one
  process-handled m h c valid unicast found = rw (valid, unicast, found) refl

  receive_frame-handled :
      (id : Text) (now : ℕ) (pieces left : Pieces) (raw : List ℕ) (m : Message) (h : H) (c : Comm H)
      → receive_data pieces ≡ some (raw, left)
      → deserialize_message raw ≡ some m
      → is_valid m ≡ true
      → is_broadcast m ≡ false
      → lookup m.header.dest_node_id c.local_handlers ≡ some h
      → (receive_frame id now pieces c).1 ≡ deliver h m ∷ []
  unfolding receive_frame receive_message
  receive_frame-handled id now pieces left raw m h c arrives reads valid unicast found =
      let c' = note_received id (length raw) now m c in
      rw (receive_frame, arrives, reads)
        (process-handled m h c' valid unicast (
          ap (lookup m.header.dest_node_id) (handlers-note_received id (length raw) now m c)
          ∙ found))

  -- A message that is sent to a connected node without a handler here, when nothing else is queued, is put on that
  -- node's socket by the next round of the sending thread. And what arrives at the other end, in whatever
  -- non-empty pieces, is handed to the handler that is registered there for the destination, just as it was sent:
  -- all of the header and the payload. The message must fit its wire format and the largest frame.
  pub sent_then_handled :
      (dest : Text) (m : Message) (now queued n s : ℕ) (c : Comm H) (node : RemoteNode)
      (framed : List ℕ) (from : Text) (now' : ℕ) (pieces : Pieces) (later : List ℕ) (h : H)
      (peer : Comm H)
      → let target = target_of dest m in
        let out = sent_message dest m now c in
        is_empty target ≡ false
        → lookup target c.local_handlers ≡ none
        → c.send_queue ≡ empty_queue n
        → 0 < n
        → lookup target c.nodes ≡ some node
        → node.socket_fd ≡ some s
        → Fits out
        → frame (serialize out) ≡ some framed
        → NonEmpty pieces
        → flatten pieces ≡ framed ++ later
        → lookup target peer.local_handlers ≡ some h
        → ((send_step true (send_message dest m now queued c).2).0 ≡ transmit s framed ∷ [])
          × ((receive_frame from now' pieces peer).1 ≡ deliver h out ∷ [])
  unfolding outbound
  sent_then_handled dest m now queued n s c node framed from now' pieces later h peer named remote
        queue pos found open_socket fits framed_as whole arrives handled =
      let target = target_of dest m in
      let out = sent_message dest m now c in
      let c' = (sequence_for m c).1 in
      let queued_as =
        send_message-dispatch dest m now queued c named
        ∙ ap (λ o. dispatch o out queued c') remote in
      let popped = dispatch-queued out queued n c' (queue-sequence_for m c ∙ queue) pos in
      let (left, got, after) =
        receive_data-frame (serialize out) framed later pieces framed_as whole arrives in
      let nodes = nodes-dispatch out queued c' ∙ nodes-sequence_for m c in
      let reads =
        ap deserialize_message (sym (append-nil (serialize out)))
        ∙ deserialize-serialize out [] fits in
      (
        ap (λ (r : Bool × List (Event H) × Comm H). (send_step true r.2).0) queued_as
            ∙ send_step-popped (dispatch none out queued c').2 out c'.send_queue node s framed
                popped (ap (lookup target) nodes ∙ found) open_socket framed_as,
        receive_frame-handled from now' pieces left (serialize out) out h peer got reads
            (valid-outbound target c.config.node_id now (sequence_for m c).0 m)
            (unicast-outbound target c.config.node_id now (sequence_for m c).0 m named) handled,
      )
