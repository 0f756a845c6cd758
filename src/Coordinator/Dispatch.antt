-- ===== src/Coordinator/Dispatch.antt =====
-- src/coordinator/coordinator.cpp: registerSatelliteNodes, initializeSimulators, the local handlers and
-- distributeAllTasks. A handler is named by the one that it calls. A clock gives the time at which a
-- number of satellites is still to be served; all readings of one round are taken to be the same.
use actuator_final.Prelude.{
  ℕ, suc, ◌+◌, Bool, List, [], ◌∷◌, ◌++◌, Option, none, some, if◌then◌else◌, length, ltb, ◌==◌,
}
use actuator_final.Prelude.Int.{ℤ}
use actuator_final.Text.{Text, codes, text_eq, is_empty}
use actuator_final.Dict.{Dict, lookup, insert}
use actuator_final.Behavior.{TaskSegment}
use actuator_final.Value.{Floating}
use actuator_final.Messages.{
  Message, MessageHeader, Priority, NodeRegisterMessage, TaskAssignMessage, TaskDetails,
  batch_task_assign_type,
}
use actuator_final.Json.{JsonLibrary}
use actuator_final.Payloads.Batch.{serialize_batch}
use actuator_final.Registry.{NodeRegistry, register_node}
use actuator_final.Input.Schedule.{SatelliteInfo, MultiSatSchedule}
use actuator_final.Comm.{Comm, Event}
use actuator_final.Comm.Nodes.{register_local_handler, unregister_local_handler}
use actuator_final.Comm.Send.{send_message}
use actuator_final.Coordinator.{batch_assignment}

pub data Receiver : Type 0 where
  coordinator : Receiver
  satellite : Text → Receiver

abbrev pub or_id : Text → Text → Text
or_id t id = if is_empty t then id else t

-- The message of registerSatelliteNodes, without the fields that nothing reads.
unfoldable pub register_message : SatelliteInfo → NodeRegisterMessage
register_message info =
    let comm_node_id = or_id info.node_id info.satellite_id in
    record {
      node_id = comm_node_id;
      node_name = or_id info.name info.satellite_id;
      node_type = codes "SATELLITE";
      metadata =
          insert (codes "node_id") comm_node_id
            (insert (codes "satellite_id") info.satellite_id []);
    }

abbrev pub count_if_some : Option Text → ℕ → ℕ
count_if_some none n = n
count_if_some (some id) n = suc n

-- The loop of registerSatelliteNodes: how many were registered
unfoldable pub register_satellites : List SatelliteInfo → ℕ → NodeRegistry → ℕ × NodeRegistry
unfolding register_message
register_satellites [] now r = (0, r)
register_satellites (info ∷ infos) now r =
    let (assigned, r') = register_node (register_message info) now r in
    let (count, r'') = register_satellites infos now r' in (count_if_some assigned count, r'')

-- registerSatelliteNodes
unfoldable pub register_satellite_nodes :
    List SatelliteInfo → ℕ → NodeRegistry → Bool × NodeRegistry
unfolding register_satellites
register_satellite_nodes infos now r =
    let (count, r') = register_satellites infos now r in (ltb 0 count, r')

-- initializeSimulators, where `ready` says whose simulator could be initialized.
unfoldable pub initialize_simulators :
    (Text → Bool) → List SatelliteInfo → Dict Receiver → Dict Receiver
initialize_simulators ready [] simulators = simulators
initialize_simulators ready (info ∷ infos) simulators =
    let id = info.satellite_id in
    initialize_simulators ready infos
      (if ready id then insert id (satellite id) simulators else simulators)

abbrev pub register_if_some : Text → Option Receiver → Comm Receiver → Comm Receiver
register_if_some id none c = c
register_if_some id (some h) c = register_local_handler id (some h) c

unfoldable pub register_simulators : List Text → Dict Receiver → Comm Receiver → Comm Receiver
register_simulators [] simulators c = c
register_simulators (id ∷ ids) simulators c =
    register_simulators ids simulators (register_if_some id (lookup id simulators) c)

-- registerLocalMessageHandlers
unfoldable pub register_local_message_handlers :
    Text → List Text → Dict Receiver → Comm Receiver → Comm Receiver
unfolding register_simulators
register_local_message_handlers coordinator_id ids simulators c =
    register_simulators ids simulators (register_local_handler coordinator_id (some coordinator) c)

unfoldable pub unregister_all : List Text → Comm Receiver → Comm Receiver
unregister_all [] c = c
unregister_all (id ∷ ids) c = unregister_all ids (unregister_local_handler id c)

-- unregisterLocalMessageHandlers
unfoldable pub unregister_local_message_handlers : Text → List Text → Comm Receiver → Comm Receiver
unfolding unregister_all
unregister_local_message_handlers coordinator_id ids c =
    unregister_all ids (unregister_local_handler coordinator_id c)

-- std::find_if over the satellites of the schedule
unfoldable pub find_satellite : Text → List SatelliteInfo → Option SatelliteInfo
find_satellite id [] = none
find_satellite id (info ∷ infos) =
    if text_eq info.satellite_id id then some info else find_satellite id infos

-- What the code finds in the fields that it does not set: of a new header, and the profit and the details of a task.
pub record Unset (F : Type 0) : Type 0 where
  pub header : MessageHeader
  pub profit : ℤ
  pub details : TaskAssignMessage → TaskDetails F

module _ {F : Type 0} ⦃fl : Floating F⦄ ⦃lib : JsonLibrary F⦄ where
  -- The message for one satellite.
  unfoldable pub batch_message : Unset F → Text → Text → Text → List TaskSegment → ℕ → Message
  batch_message unset coordinator_id sat_id node_id tasks now = record {
    header = record unset.header {
      msg_type = batch_task_assign_type;
      source_node_id = coordinator_id;
      dest_node_id = sat_id;
      priority = Priority.normal;
      timestamp_ms = now;
    };
    payload =
        serialize_batch unset.details (batch_assignment unset.profit sat_id node_id tasks now);
  }

-- The number of tasks to send, and of those sent; the events; and the communication module.
abbrev pub Progress : Type 0
Progress = ℕ × ℕ × List (Event Receiver) × Comm Receiver

module _ {F : Type 0} ⦃fl : Floating F⦄ ⦃lib : JsonLibrary F⦄ where
  -- One round of the loop. No tasks, or no satellite of that id: `continue`.
  unfoldable pub distribute_one :
      Unset F
      → Text
      → Text
      → Option (List TaskSegment)
      → Option SatelliteInfo
      → ℕ
      → Comm Receiver
      → Progress
  unfolding batch_message
  distribute_one unset coordinator_id sat_id none info now c = (0, 0, [], c)
  distribute_one unset coordinator_id sat_id (some []) info now c = (0, 0, [], c)
  distribute_one unset coordinator_id sat_id (some (t ∷ ts)) none now c =
      (length (t ∷ ts), 0, [], c)
  distribute_one unset coordinator_id sat_id (some (t ∷ ts)) (some info) now c =
      let message = batch_message unset coordinator_id sat_id info.node_id (t ∷ ts) now in
      let (ok, events, c') = send_message sat_id message now now c in
      (length (t ∷ ts), if ok then length (t ∷ ts) else 0, events, c')

  unfoldable pub distribute :
      Unset F → Text → MultiSatSchedule → List Text → (ℕ → ℕ) → Comm Receiver → Progress
  unfolding distribute_one find_satellite
  distribute unset coordinator_id schedule [] clock c = (0, 0, [], c)
  distribute unset coordinator_id schedule (id ∷ ids) clock c =
      let (total, sent, events, c') =
        distribute_one unset coordinator_id id (lookup id schedule.satellite_tasks)
          (find_satellite id schedule.satellites) (clock (length (id ∷ ids))) c in
      let (totals, sents, more, c'') = distribute unset coordinator_id schedule ids clock c' in
      (total + totals, sent + sents, events ++ more, c'')

  -- distributeAllTasks
  unfoldable pub distribute_all_tasks :
      Unset F
      → Text
      → MultiSatSchedule
      → (ℕ → ℕ)
      → Comm Receiver
      → Bool × List (Event Receiver) × Comm Receiver
  unfolding distribute
  distribute_all_tasks unset coordinator_id schedule clock c =
      let (total, sent, events, c') =
        distribute unset coordinator_id schedule schedule.satellite_ids clock c in
      (sent == total, events, c')
