-- ===== src/Coordinator/Close.antt =====
-- src/coordinator/coordinator.cpp: shutdown.
pub mod Restart
use actuator_final.Prelude.{
  ◌++◌, arith, sym, ℕ, Bool, true, false, List, [], ◌∷◌, Option, none, some, if◌then◌else◌, ◌≡◌,
  refl, ap, ◌∙◌, if-agree,
}
use actuator_final.Text.{Text}
use actuator_final.Value.{Floating}
use actuator_final.Json.{Json, JsonLibrary}
use actuator_final.Registry.{NodeRegistry, fresh_registry, unregister_node, get_all_node_ids}
use actuator_final.Registry
use actuator_final.Comm.{Comm, Event, new_comm}
use actuator_final.Input.Schedule.{MultiSatSchedule, load_schedule}
use actuator_final.Comm.Life.{Network, Keeps, halt, close_open, node_sockets, stop_resets}
use actuator_final.Comm.Life
use actuator_final.Comm.Nodes.{unregister_local_handler}
use actuator_final.Coordinator.Dispatch.{
  unregister_all, Receiver, register_satellite_nodes, unregister_local_message_handlers,
}
use actuator_final.Coordinator.Setup.{
  Coordinator, new_coordinator, initialize, set_up_registry, set_up_comm, set_up_handlers,
  comm_config,
}
use actuator_final.Coordinator.Run.{stop}

-- What the threads of the communication module still do while it is stopped.
abbrev pub Threads : Type 0
Threads = Comm Receiver → List (Event Receiver) × Comm Receiver

-- unregisterLocalMessageHandlers and comm_->stop(), if there is a communication module.
unfoldable pub close_comm : Threads → Coordinator → List (Event Receiver) × Option (Comm Receiver)
close_comm threads c = elim c.comm [
  | none ↦ ([], none)
  | some comm ↦
      let (closed, stopped) =
        Life.stop threads
          (unregister_local_message_handlers c.coordinator_id c.schedule.satellite_ids comm) in
      (closed, some stopped)
]

unfoldable pub unregister_nodes : List Text → NodeRegistry → NodeRegistry
unregister_nodes [] r = r
unregister_nodes (id ∷ ids) r = unregister_nodes ids (unregister_node id r).1

-- Unregisters each node by the id that the registry lists for it, and shuts the registry down.
unfoldable pub close_registry : Option NodeRegistry → Option NodeRegistry
unfolding unregister_nodes
close_registry none = none
close_registry (some r) = some (Registry.shutdown (unregister_nodes (get_all_node_ids r) r))

-- Shutting a simulator down ends its executor, which has no worker and no task in its queue.
unfoldable pub shutdown : Threads → Coordinator → List (Event Receiver) × Coordinator
unfolding close_comm close_registry
shutdown threads c =
    let stopped = stop c in
    let (closed, comm) = close_comm threads stopped in
    if c.initialized
    then (
      closed,
      record stopped {
        initialized = false;
        registry = close_registry c.registry;
        comm = comm;
        simulators = [];
      },
    )
    else ([], c)
