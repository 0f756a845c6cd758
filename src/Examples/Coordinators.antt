-- ===== src/Examples/Coordinators.antt =====
-- src/coordinator/coordinator.cpp: a coordinator that is initialized, run and shut down.
use actuator_final.Coordinator.Setup.{Coordinator, new_coordinator, initialize}
use actuator_final.Examples.Channels.{good_network}
use actuator_final.Input.Schedule.{load_schedule, result_of}
use actuator_final.Comm.Life
use actuator_final.Comm.Life.{initialize_socket, bind_socket, Keeps, close_open, node_sockets}
use actuator_final.Comm.{Comm, Event, new_comm, default_config, new_remote_node}
use actuator_final.Registry
use actuator_final.Registry.{
  NodeRegistry, fresh_registry, node_info, register_node, identities, metadata_or_id,
}
use actuator_final.Coordinator.Dispatch.{
  Receiver, satellite, register_satellite_nodes, register_satellites, register_message,
}
use actuator_final.Coordinator.Setup.{set_up_registry, set_up_comm, comm_config}
use actuator_final.Prelude.{List, ◌++◌, subst, sym, Bool, true, [], ◌∷◌, some, ◌≡◌, refl, inl}
use actuator_final.Prelude.Int.{ℤ}
use actuator_final.Text.{codes, text_eq, text_lt}
use actuator_final.Dict.{lookup, insert}
use actuator_final.Json.{
  Json, Items, Members, array, object, members, find_member, value, get_text, is_object, items,
}
use actuator_final.Input.{parse_scalar_object_to_map, scalars_to_map, members_in}
use actuator_final.Input.Schedule.{
  SatelliteInfo, MultiSatSchedule, parse_satellites, parse_satellite, parse_all_satellites,
  add_satellite, add_info, add_tasks, push_id, push_satellite, put_tasks, satellite_info,
  parse_tasks, parse_task_segment, and_then, array_in,
}
use actuator_final.Input.ScheduleShape.{IsSchedule}
use actuator_final.Coordinator.Outcome.{Some}
use actuator_final.Coordinator.Distribution.{IsDelivery}
use actuator_final.Examples.{whole_numbers}
use actuator_final.Examples.Payloads.{three_values}
use actuator_final.Prelude.{All}
use actuator_final.Coordinator.Run.{run}
use actuator_final.Coordinator.Run.Delivery.{initialized_run-delivers}
use actuator_final.Coordinator.Close.{shutdown}
use actuator_final.Coordinator.Close.Restart.{success, renewed, halted, shut_down_is_new}
use actuator_final.Examples.Schedules.{
  sat_a, task_a, schedule_a, unset, schedule_a-IsSchedule, tasks_of_a,
}

-- The schedule file with one satellite.
abbrev good_file : Json ℤ
good_file =
    object (Members.member (codes "satellites") (array (Items.cons sat_a Items.nil)) Members.end)

abbrev pub coordinator_c : Coordinator
coordinator_c = new_coordinator (codes "C")

good_file_is_schedule_a : (load_schedule (some good_file)).1 ≡ schedule_a
unfolding load_schedule parse_all_satellites parse_satellites parse_satellite add_satellite add_info
    add_tasks push_id push_satellite put_tasks satellite_info parse_tasks parse_task_segment
    and_then array_in value get_text is_object find_member members lookup text_eq insert text_lt
    parse_scalar_object_to_map scalars_to_map members_in items result_of
good_file_is_schedule_a = refl

abbrev set_up : Bool × Coordinator
set_up = initialize (some good_file) good_network 5 coordinator_c

set_up_works : set_up ≡ (true, set_up.1)
unfolding initialize set_up_registry set_up_comm Life.initialize initialize_socket bind_socket
    Registry.initialize register_satellite_nodes register_satellites register_message register_node
    identities metadata_or_id load_schedule parse_all_satellites parse_satellites parse_satellite
    add_satellite add_info add_tasks push_id push_satellite put_tasks satellite_info parse_tasks
    parse_task_segment and_then array_in value get_text is_object find_member members lookup text_eq
    insert text_lt parse_scalar_object_to_map scalars_to_map members_in items result_of comm_config
set_up_works = refl

set_up_schedule : set_up.1.schedule ≡ schedule_a
unfolding initialize set_up_registry set_up_comm Life.initialize initialize_socket bind_socket
    Registry.initialize register_satellite_nodes register_satellites register_message register_node
    identities metadata_or_id load_schedule parse_all_satellites parse_satellites parse_satellite
    add_satellite add_info add_tasks push_id push_satellite put_tasks satellite_info parse_tasks
    parse_task_segment and_then array_in value get_text is_object find_member members lookup text_eq
    insert text_lt parse_scalar_object_to_map scalars_to_map members_in items result_of comm_config
set_up_schedule = refl

a_is_listed : Some (λ i. i ≡ codes "A") set_up.1.schedule.satellite_ids
a_is_listed =
    subst (λ (s : MultiSatSchedule). Some (λ i. i ≡ codes "A") s.satellite_ids)
      (sym set_up_schedule) (inl refl)

a_has_a_task : lookup (codes "A") set_up.1.schedule.satellite_tasks ≡ some (task_a ∷ [])
a_has_a_task =
    subst (λ (s : MultiSatSchedule). lookup (codes "A") s.satellite_tasks ≡ some (task_a ∷ []))
      (sym set_up_schedule) tasks_of_a

initialized_run-delivers_example :
    Some
      (IsDelivery unset (codes "A") (task_a ∷ []))
      (run good_network unset (λ n. 5) [] set_up.1).0
    × All
        (λ (sat, done). done ≡ true)
        (run good_network unset (λ n. 5) [] set_up.1).1.statuses.finished
initialized_run-delivers_example =
    initialized_run-delivers (some good_file) good_network good_network 5 coordinator_c set_up.1
      unset (λ n. 5) [] (codes "A") task_a [] refl
      (subst IsSchedule (sym good_file_is_schedule_a) schedule_a-IsSchedule) set_up_works
      a_is_listed a_has_a_task

abbrev sat_info : SatelliteInfo
sat_info = record { satellite_id = codes "A"; node_id = codes "N"; name = codes "A" }

-- A coordinator that runs, with a node in its registry and a connected satellite.
abbrev busy_registry : NodeRegistry
busy_registry = record {
  nodes = (codes "N", node_info (codes "N") (codes "A") (register_message sat_info) 4) ∷ [];
  alias_to_node_id = (codes "A", codes "N") ∷ (codes "N", codes "N") ∷ [];
  initialized = true;
}

abbrev busy_comm : Comm Receiver
busy_comm = record (new_comm Receiver default_config) {
  running = true;
  initialized = true;
  nodes = (codes "N", record new_remote_node { node_id = codes "N"; socket_fd = some 5 }) ∷ [];
  local_handlers = (codes "A", satellite (codes "A")) ∷ [];
  listen_socket = some 3;
}

abbrev busy : Coordinator
busy = record coordinator_c {
  initialized = true;
  running = true;
  schedule = schedule_a;
  registry = some busy_registry;
  comm = some busy_comm;
}

-- The threads end at once.
abbrev at_rest : Comm Receiver → List (Event Receiver) × Comm Receiver
at_rest c = ([], c)

at_rest-Keeps : Keeps (halted busy busy_comm) (at_rest (halted busy busy_comm)).1
at_rest-Keeps = record {
  same_config = refl;
  same_running = refl;
  same_listen_socket = refl;
  same_send_size = refl;
  same_recv_size = refl;
}

shut_down_is_new_example :
    ((shutdown at_rest busy).0
      ≡ (close_open busy_comm.listen_socket ++ node_sockets busy_comm.nodes) ++ [])
    × ((shutdown at_rest busy).1 ≡ record (renewed busy) {
      schedule = schedule_a;
      registry = some fresh_registry;
      comm = some (record (new_comm Receiver default_config) {
        sequence_id = (halted busy busy_comm).sequence_id;
      });
    })
    × (success (initialize (some good_file) good_network 9 (shutdown at_rest busy).1)
        ≡ success (initialize (some good_file) good_network 9 (renewed busy)))
shut_down_is_new_example =
    shut_down_is_new (some good_file) good_network 9 at_rest busy busy_registry busy_comm refl refl
      refl refl refl refl refl at_rest-Keeps
