-- ===== src/Comm/Life.antt =====
-- src/coordinator/inter_sat_comm.cpp: initialize, start and stop, on a system other than Windows. The rounds of
-- the threads are the steps of the other modules; what they still do while stop waits for them is an
-- argument of stop.
use actuator_final.Prelude.{
  Bool, true, false, ◌&&◌, ◌||◌, List, [], ◌∷◌, ◌++◌, none, some, if◌then◌else◌, ◌≡◌, refl, arith,
  is_some, ap, ◌∙◌, append-nil,
}
use actuator_final.Text.{codes, text_eq, is_empty}
use actuator_final.Dict.{Dict}
use actuator_final.Comm.{Comm, CommConfig, RemoteNode, Socket, Event, close, new_comm}
use actuator_final.Comm.Queue.{clear}

-- What the system answers: socket(), inet_pton of the address, bind() and listen().
pub record Network : Type 0 where
  pub opened : Socket
  pub address_known : Bool
  pub bound : Bool
  pub listening : Bool

-- bindSocket
unfoldable pub bind_socket : Network → CommConfig → Bool
bind_socket net config =
    let any = is_empty config.bind_address || text_eq config.bind_address (codes "0.0.0.0") in
    (any || net.address_known) && (net.bound && net.listening)

-- A socket that is open is closed, any other is none.
unfoldable pub close_open : {H : Type 0} → Socket → List (Event H)
close_open none = []
close_open (some s) = close (some s) ∷ []

module _ {H : Type 0} where
  -- initializeSocket. A socket that cannot be bound stays open.
  unfoldable pub initialize_socket : Network → Comm H → Bool × Comm H
  unfolding bind_socket
  initialize_socket net c =
      (is_some net.opened && bind_socket net c.config, record c { listen_socket = net.opened })

  unfoldable pub initialize : Network → Comm H → Bool × Comm H
  unfolding initialize_socket
  initialize net c =
      let (ok, c') = initialize_socket net c in
      if c.initialized
      then (true, c)
      else if ok
      then (true, record c' { initialized = true })
      else (false, c')

  unfoldable pub start : Network → Comm H → Bool × Comm H
  unfolding initialize
  start net c =
      let (ok, c') = initialize net c in
      if c.running
      then (true, c)
      else if ok
      then (true, record c' { running = true })
      else (false, c')

  -- cleanupSocket
  unfoldable pub cleanup_socket : Comm H → List (Event H) × Comm H
  unfolding close_open
  cleanup_socket c = (close_open c.listen_socket, record c { listen_socket = none })

  -- The loop of stop that closes the sockets of the nodes.
  unfoldable pub close_nodes : Dict RemoteNode → List (Event H) × Dict RemoteNode
  unfolding close_open
  close_nodes [] = ([], [])
  close_nodes ((id, n) ∷ nodes) =
      let (closed, nodes') = close_nodes nodes in
      (close_open n.socket_fd ++ closed, (id, record n { socket_fd = none }) ∷ nodes')

  -- stop, up to where it waits for the threads.
  unfoldable pub halt : Comm H → List (Event H) × Comm H
  unfolding close_nodes close_open clear
  halt c =
      let (closed, nodes) = close_nodes c.nodes in
      (
        close_open c.listen_socket ++ closed,
        record c {
          running = false;
          listen_socket = none;
          nodes = nodes;
          send_queue = clear c.send_queue;
          recv_queue = clear c.recv_queue;
        },
      )

  -- The rest of stop, when the threads have ended. It closes no socket of a node.
  unfoldable pub release : Comm H → List (Event H) × Comm H
  unfolding cleanup_socket clear
  release c =
      let (closed, cleaned) = cleanup_socket c in
      (
        closed,
        record cleaned {
          nodes = [];
          local_handlers = [];
          send_queue = clear cleaned.send_queue;
          recv_queue = clear cleaned.recv_queue;
          initialized = false;
        },
      )

  -- stop. `threads` is what the threads of the module still do before they have ended: accept one more
  -- client, handle a message, remove a node.
  unfoldable pub stop : (Comm H → List (Event H) × Comm H) → Comm H → List (Event H) × Comm H
  unfolding halt release
  stop threads c =
      let (closed, halted) = halt c in
      let (done, ended) = threads halted in
      let (again, released) = release ended in
      if c.running then (closed ++ (done ++ again), released) else ([], c)

  -- What no thread changes: the configuration, whether the module runs, the listening socket and how many
  -- messages the queues may hold.
  pub record Keeps (before after : Comm H) : Type 0 where
    pub same_config : after.config ≡ before.config
    pub same_running : after.running ≡ before.running
    pub same_listen_socket : after.listen_socket ≡ before.listen_socket
    pub same_send_size : after.send_queue.max_size ≡ before.send_queue.max_size
    pub same_recv_size : after.recv_queue.max_size ≡ before.recv_queue.max_size

  -- The sockets of a module, the listening one first.
  unfoldable pub node_sockets : Dict RemoteNode → List (Event H)
  unfolding close_open
  node_sockets [] = []
  node_sockets ((id, n) ∷ nodes) = close_open n.socket_fd ++ node_sockets nodes

  closes-node_sockets : (nodes : Dict RemoteNode) → (close_nodes nodes).0 ≡ node_sockets nodes
  unfolding close_nodes node_sockets
  closes-node_sockets [] = refl
  closes-node_sockets ((id, n) ∷ nodes) = rw (closes-node_sockets nodes) refl

  release-empty :
      (config : CommConfig) (ended : Comm H)
      → ended.config ≡ config
      → ended.running ≡ false
      → ended.listen_socket ≡ none
      → ended.send_queue.max_size ≡ config.message_queue_size
      → ended.recv_queue.max_size ≡ config.message_queue_size
      → release ended ≡ ([], record (new_comm H config) { sequence_id = ended.sequence_id })
  unfolding release clear cleanup_socket close_open
  release-empty config ended same idle closed send receive =
      rw (same, idle, closed, send, receive) refl

  -- A module that runs, and whose queues have the size that its configuration gives, is stopped; whatever
  -- its threads still do before they have ended changes neither the configuration, the listening socket
  -- nor the sizes of the queues, and does not set it running again. Then stop has closed once, in order,
  -- the listening socket and each open socket of the nodes that were there when it was called; beside
  -- these only the threads have closed any, so that the socket of a node they accepted meanwhile stays
  -- open. The module is then as new, but for the sequence numbers, which go on.
  pub stop_resets :
      (threads : Comm H → List (Event H) × Comm H) (c : Comm H)
      → c.running ≡ true
      → c.send_queue.max_size ≡ c.config.message_queue_size
      → c.recv_queue.max_size ≡ c.config.message_queue_size
      → Keeps (halt c).1 (threads (halt c).1).1
      → ((stop threads c).0
          ≡ (close_open c.listen_socket ++ node_sockets c.nodes) ++ (threads (halt c).1).0)
        × ((stop threads c).1
            ≡ record (new_comm H c.config) { sequence_id = (threads (halt c).1).1.sequence_id })
  unfolding stop halt clear
  stop_resets threads c runs send receive keeps =
      let ended = (threads (halt c).1).1 in
      let released =
        release-empty c.config ended keeps.same_config keeps.same_running keeps.same_listen_socket
          (keeps.same_send_size ∙ send) (keeps.same_recv_size ∙ receive) in
      let nothing = ap (λ (r : List (Event H) × Comm H). r.0) released in
      (
        rw runs (
            ap
              (λ l.
                (close_open c.listen_socket ++ l) ++ ((threads (halt c).1).0 ++ (release ended).0))
              (closes-node_sockets c.nodes)
            ∙ ap
                (λ l.
                  (close_open c.listen_socket ++ node_sockets c.nodes)
                  ++ ((threads (halt c).1).0 ++ l))
                nothing
            ∙ ap (λ l. (close_open c.listen_socket ++ node_sockets c.nodes) ++ l)
                (append-nil (threads (halt c).1).0)),
        rw runs (ap (λ (r : List (Event H) × Comm H). r.1) released),
      )

  start-idle :
      (net : Network) (c : Comm H)
      → c.running ≡ false
      → c.initialized ≡ false
      → let ok = is_some net.opened && bind_socket net c.config in
        start net c ≡ (ok, record c { running = ok; initialized = ok; listen_socket = net.opened })
  unfolding start initialize initialize_socket
  start-idle net c idle raw = ground (arith, idle, raw)

  -- A module that was running, with queues of the size that its configuration gives, and has been stopped can
  -- be started again, where the threads that ended changed neither the configuration, the listening
  -- socket nor the sizes of the queues, and did not set it running again. That succeeds just if the
  -- system opens a socket that can be bound to the configured address and listened on, and the module
  -- then runs as a new one would, with no node, handler or message left, but for the sequence numbers,
  -- which go on.
  pub restarts_as_new :
      (net : Network) (threads : Comm H → List (Event H) × Comm H) (c : Comm H)
      → c.running ≡ true
      → c.send_queue.max_size ≡ c.config.message_queue_size
      → c.recv_queue.max_size ≡ c.config.message_queue_size
      → Keeps (halt c).1 (threads (halt c).1).1
      → let ok = is_some net.opened && bind_socket net c.config in
        start net (stop threads c).1 ≡ (
          ok,
          record (new_comm H c.config) {
            running = ok;
            initialized = ok;
            listen_socket = net.opened;
            sequence_id = (threads (halt c).1).1.sequence_id;
          },
        )
  restarts_as_new net threads c runs send receive keeps =
      ap (start net) (stop_resets threads c runs send receive keeps).1
      ∙ start-idle net
          (record (new_comm H c.config) { sequence_id = (threads (halt c).1).1.sequence_id }) refl
          refl
