-- ===== src/Comm/Nodes.antt =====
-- src/coordinator/inter_sat_comm.cpp: the connected nodes, their timeouts, and the local handlers.
use actuator_final.Prelude.{
  ℕ, ◌+◌, ◌-◌, ◌%◌, ◌^◌, List, [], ◌∷◌, ◌++◌, Option, none, some, if◌then◌else◌, ltb,
}
use actuator_final.Prelude.Int.{pos}
use actuator_final.Text.{Text, codes, is_empty}
use actuator_final.Text.Numerals.{int_to_string}
use actuator_final.Dict.{Dict, lookup, insert, erase}
use actuator_final.Messages.{NodeStatus}
use actuator_final.Comm.{Comm, RemoteNode, new_remote_node, Event, close}

-- makeEndpointNodeId
unfoldable pub make_endpoint_node_id : Text → ℕ → Text
make_endpoint_node_id ip port = ip ++ (codes ":" ++ int_to_string (pos port))

-- acceptConnection, where `accept` returned a socket.
unfoldable pub accept_connection : ℕ → Text → ℕ → ℕ → RemoteNode → RemoteNode
accept_connection fd ip port now n = record n {
  socket_fd = some fd;
  ip_address = ip;
  port = port;
  node_id = make_endpoint_node_id ip port;
  connect_time_ms = now;
  last_heartbeat_time_ms = now;
  status = NodeStatus.initializing;
}

-- Two times of a 64-bit clock, subtracted as uint64_t.
unfoldable pub elapsed : ℕ → ℕ → ℕ
elapsed now last = (now + 2 ^ 64 - last) % 2 ^ 64

-- The first loop of checkNodeTimeouts
unfoldable pub timed_out_nodes : ℕ → ℕ → Dict RemoteNode → List Text
unfolding elapsed
timed_out_nodes timeout now [] = []
timed_out_nodes timeout now ((id, n) ∷ nodes) =
    let rest = timed_out_nodes timeout now nodes in
    if ltb timeout (elapsed now n.last_heartbeat_time_ms) then id ∷ rest else rest

module _ {H : Type 0} where
  unfoldable pub add_node : RemoteNode → Comm H → Comm H
  add_node n c = record c { nodes = insert n.node_id n c.nodes }

  -- One round of acceptThreadFunc: a client, if one was accepted.
  unfoldable pub accept_step : Option (ℕ × Text × ℕ) → ℕ → Comm H → Comm H
  unfolding add_node accept_connection
  accept_step none now c = c
  accept_step (some (fd, ip, port)) now c =
      add_node (accept_connection fd ip port now new_remote_node) c

  unfoldable pub remove_node : Text → Comm H → List (Event H) × Comm H
  remove_node id c = elim (lookup id c.nodes) [
    | none ↦ ([], c)
    | some n ↦ (close n.socket_fd ∷ [], record c { nodes = erase id c.nodes })
  ]

  unfoldable pub remove_nodes : List Text → Comm H → List (Event H) × Comm H
  unfolding remove_node
  remove_nodes [] c = ([], c)
  remove_nodes (id ∷ ids) c =
      let (closed, c') = remove_node id c in
      let (more, c'') = remove_nodes ids c' in (closed ++ more, c'')

  unfoldable pub check_node_timeouts : ℕ → Comm H → List (Event H) × Comm H
  unfolding remove_nodes timed_out_nodes
  check_node_timeouts now c =
      remove_nodes (timed_out_nodes c.config.heartbeat_timeout_ms now c.nodes) c

  -- registerLocalHandler, where `none` is an empty std::function.
  unfoldable pub register_local_handler : Text → Option H → Comm H → Comm H
  register_local_handler id none c = c
  register_local_handler id (some h) c =
      if is_empty id then c else record c { local_handlers = insert id h c.local_handlers }

  unfoldable pub unregister_local_handler : Text → Comm H → Comm H
  unregister_local_handler id c = record c { local_handlers = erase id c.local_handlers }
