-- ===== src/Coordinator/Close/Restart.antt =====
-- src/coordinator/coordinator.cpp: what shutdown leaves, and a coordinator that is initialized again.
use actuator_final.Prelude.{
  ◌++◌, arith, sym, ℕ, Bool, true, false, List, [], ◌∷◌, Option, none, some, ◌≡◌, refl, ap, ◌∙◌,
  if-agree,
}
use actuator_final.Text.{Text}
use actuator_final.Value.{Floating}
use actuator_final.Json.{Json, JsonLibrary}
use actuator_final.Registry.{NodeRegistry, fresh_registry, unregister_node, get_all_node_ids}
use actuator_final.Registry
use actuator_final.Comm.{Comm, Event, new_comm}
use actuator_final.Input.Schedule.{MultiSatSchedule, load_schedule}
use actuator_final.Comm.Life.{Network, Keeps, halt, close_open, node_sockets, stop_resets}
use actuator_final.Comm.Life
use actuator_final.Comm.Nodes.{unregister_local_handler}
use actuator_final.Coordinator.Dispatch.{
  unregister_all, Receiver, register_satellite_nodes, unregister_local_message_handlers,
}
use actuator_final.Coordinator.Setup.{
  Coordinator, new_coordinator, initialize, set_up_registry, set_up_comm, set_up_handlers,
  comm_config,
}
use actuator_final.Coordinator.Run.{stop}
use actuator_final.Coordinator.Close.{
  Threads, close_comm, unregister_nodes, close_registry, shutdown,
}

-- The coordinator that an initialization leads to, if it succeeds.
abbrev pub success : Bool × Coordinator → Option Coordinator
success (true, c) = some c
success (false, c) = none

set_up_comm-comm :
    (net : Network) (comm : Option (Comm Receiver)) (c : Coordinator)
    → success (set_up_comm net (record c { comm = comm })) ≡ success (set_up_comm net c)
unfolding set_up_comm set_up_handlers
set_up_comm-comm net comm c =
    if-agree success (Life.initialize net (new_comm Receiver (comm_config c.coordinator_id))).0 refl
      refl

set_up_registry-former :
    (net : Network) (now : ℕ) (registry : Option NodeRegistry) (comm : Option (Comm Receiver))
    (c : Coordinator)
    → success (set_up_registry net now (record c { registry = registry; comm = comm }))
      ≡ success (set_up_registry net now c)
unfolding set_up_registry
set_up_registry-former net now registry comm c =
    let created = Registry.initialize fresh_registry in
    let nodes = register_satellite_nodes c.schedule.satellites now created.1 in
    if-agree success created.0
      (if-agree success nodes.0 (set_up_comm-comm net comm (record c { registry = some nodes.1 }))
        refl)
      refl

shutdown-former :
    (threads : Threads) (c : Coordinator)
    → c.initialized ≡ true
    → (shutdown threads c).1 ≡ record (new_coordinator c.coordinator_id) {
      schedule = c.schedule;
      registry = close_registry c.registry;
      comm = (close_comm threads (stop c)).1;
      statuses = c.statuses;
    }
unfolding shutdown stop
shutdown-former threads c ready = rw ready refl

-- A new coordinator, but for the statuses of a former run.
abbrev pub renewed : Coordinator → Coordinator
renewed c = record (new_coordinator c.coordinator_id) { statuses = c.statuses }

-- The communication module when shutdown waits for its threads.
abbrev pub halted : Coordinator → Comm Receiver → Comm Receiver
halted c comm =
    (halt (unregister_local_message_handlers c.coordinator_id c.schedule.satellite_ids comm)).1

shutdown-events :
    (threads : Threads) (c : Coordinator)
    → c.initialized ≡ true
    → (shutdown threads c).0 ≡ (close_comm threads c).0
unfolding shutdown stop close_comm
shutdown-events threads c ready = rw ready refl

unregister_nodes-initialized :
    (ids : List Text) (r : NodeRegistry)
    → r.initialized ≡ true
    → (unregister_nodes ids r).initialized ≡ true
unfolding unregister_nodes unregister_node
unregister_nodes-initialized [] r live = live
unregister_nodes-initialized (id ∷ ids) r live =
    unregister_nodes-initialized ids (unregister_node id r).1 (ground (arith, live))

close_registry-fresh :
    (r : NodeRegistry) → r.initialized ≡ true → close_registry (some r) ≡ some fresh_registry
unfolding close_registry Registry.shutdown
close_registry-fresh r live = rw (unregister_nodes-initialized (get_all_node_ids r) r live) refl

unregister_all-only_handlers :
    (ids : List Text) (comm : Comm Receiver)
    → unregister_all ids comm
      ≡ record comm { local_handlers = (unregister_all ids comm).local_handlers }
unfolding unregister_all unregister_local_handler
unregister_all-only_handlers [] comm = refl
unregister_all-only_handlers (id ∷ ids) comm =
    unregister_all-only_handlers ids (unregister_local_handler id comm)

unregister-only_handlers :
    (id : Text) (ids : List Text) (comm : Comm Receiver)
    → unregister_local_message_handlers id ids comm ≡ record comm {
      local_handlers = (unregister_local_message_handlers id ids comm).local_handlers;
    }
unfolding unregister_local_message_handlers unregister_local_handler
unregister-only_handlers id ids comm =
    unregister_all-only_handlers ids (unregister_local_handler id comm)

close_comm-resets :
    (threads : Threads) (c : Coordinator) (comm : Comm Receiver)
    → c.comm ≡ some comm
    → comm.running ≡ true
    → comm.send_queue.max_size ≡ comm.config.message_queue_size
    → comm.recv_queue.max_size ≡ comm.config.message_queue_size
    → Keeps (halted c comm) (threads (halted c comm)).1
    → close_comm threads c ≡ (
      (close_open comm.listen_socket ++ node_sockets comm.nodes) ++ (threads (halted c comm)).0,
      some (record (new_comm Receiver comm.config) {
        sequence_id = (threads (halted c comm)).1.sequence_id;
      }),
    )
unfolding close_comm
close_comm-resets threads c comm there runs send receive keeps =
    let quiet = unregister_local_message_handlers c.coordinator_id c.schedule.satellite_ids comm in
    let same = unregister-only_handlers c.coordinator_id c.schedule.satellite_ids comm in
    let size = sym (ap (λ (x : Comm Receiver). x.config.message_queue_size) same) in
    let reset =
      stop_resets threads quiet (ap (λ (x : Comm Receiver). x.running) same ∙ runs)
        (ap (λ (x : Comm Receiver). x.send_queue.max_size) same ∙ send ∙ size)
        (ap (λ (x : Comm Receiver). x.recv_queue.max_size) same ∙ receive ∙ size) keeps in
    let (done, ended) = threads (halted c comm) in
    rw (there, reset.0, reset.1)
      (ap
        (λ (x : Comm Receiver). (
          (close_open x.listen_socket ++ node_sockets x.nodes) ++ done,
          some (record (new_comm Receiver x.config) { sequence_id = ended.sequence_id }),
        ))
        same)

module _ {F : Type 0} ⦃fl : Floating F⦄ ⦃lib : JsonLibrary F⦄ where
  initialize-former :
      (file : Option (Json F)) (net : Network) (now : ℕ) (schedule : MultiSatSchedule)
      (registry : Option NodeRegistry) (comm : Option (Comm Receiver)) (c : Coordinator)
      → success (
          initialize file net now
            (record (renewed c) { schedule = schedule; registry = registry; comm = comm }))
        ≡ success (initialize file net now (renewed c))
  unfolding initialize
  initialize-former file net now schedule registry comm c =
      let read = record (renewed c) { schedule = (load_schedule file).1 } in
      if-agree success (load_schedule file).0 (set_up_registry-former net now registry comm read)
        refl

  -- An initialized coordinator is shut down. Its registry is initialized, and its communication module runs,
  -- with queues of the size that its configuration gives; the threads of that module, before they have
  -- ended, change neither its configuration, its listening socket nor the sizes of its queues, and do not
  -- set it running again. Then the listening socket and each open socket of the nodes that were there
  -- have been closed once, and beside these only what the threads closed; the registry is as before its
  -- initialization, with no node and no alias; the communication module is as new, but for its
  -- sequence numbers; no simulator is left; and of what the coordinator had, only its id, the schedule and the
  -- statuses of the last run are still there. It can be initialized again just if a new one can, and
  -- is then as the new one would be, but for those statuses.
  pub shut_down_is_new :
      (file : Option (Json F)) (net : Network) (now : ℕ) (threads : Threads) (c : Coordinator)
      (r : NodeRegistry) (comm : Comm Receiver)
      → c.initialized ≡ true
      → c.registry ≡ some r
      → r.initialized ≡ true
      → c.comm ≡ some comm
      → comm.running ≡ true
      → comm.send_queue.max_size ≡ comm.config.message_queue_size
      → comm.recv_queue.max_size ≡ comm.config.message_queue_size
      → Keeps (halted c comm) (threads (halted c comm)).1
      → ((shutdown threads c).0
          ≡ (close_open comm.listen_socket ++ node_sockets comm.nodes)
            ++ (threads (halted c comm)).0)
        × ((shutdown threads c).1 ≡ record (renewed c) {
          schedule = c.schedule;
          registry = some fresh_registry;
          comm = some (record (new_comm Receiver comm.config) {
            sequence_id = (threads (halted c comm)).1.sequence_id;
          });
        })
        × (success (initialize file net now (shutdown threads c).1)
            ≡ success (initialize file net now (renewed c)))
  unfolding stop close_comm
  shut_down_is_new file net now threads c r comm ready listed live there runs send receive keeps =
      let closed = close_comm-resets threads c comm there runs send receive keeps in
      (
        shutdown-events threads c ready ∙ ap (λ p. p.0) closed,
        shutdown-former threads c ready
            ∙ ap
                (λ o. record (renewed c) {
                  schedule = c.schedule;
                  registry = o;
                  comm = (close_comm threads (stop c)).1;
                })
                (ap close_registry listed ∙ close_registry-fresh r live)
            ∙ ap
                (λ (p : List (Event Receiver) × Option (Comm Receiver)). record (renewed c) {
                  schedule = c.schedule;
                  registry = some fresh_registry;
                  comm = p.1;
                })
                closed,
        ap (λ x. success (initialize file net now x)) (shutdown-former threads c ready)
            ∙ initialize-former file net now c.schedule (close_registry c.registry)
                (close_comm threads (stop c)).1 c,
      )
