-- ===== src/Coordinator/Setup.antt =====
-- src/coordinator/coordinator.cpp: initialize, as a step that stops where the code returns false. The simulators'
-- initialize of src/executor/satellite_simulator.cpp always succeeds, since initialize of an executor does; what it
-- loads into their variables is not part of this state.
use actuator_final.Prelude.{
  ℕ, Bool, true, false, List, [], ◌∷◌, Option, none, some, if◌then◌else◌, ◌≡◌, refl, sym, if-holds,
  if_false, subst, All,
}
use actuator_final.Text.{Text, codes}
use actuator_final.Dict.{Dict}
use actuator_final.Value.{Floating}
use actuator_final.Json.{Json, JsonLibrary}
use actuator_final.Registry.{NodeRegistry, fresh_registry}
use actuator_final.Registry
use actuator_final.Input.Schedule.{SatelliteInfo, MultiSatSchedule, empty_schedule, load_schedule}
use actuator_final.Input.ScheduleShape.{IsSchedule}
use actuator_final.Comm.{Comm, CommConfig, default_config, new_comm}
use actuator_final.Comm.Life.{Network}
use actuator_final.Comm.Life
use actuator_final.Coordinator.{TaskStatuses, no_statuses}
use actuator_final.Coordinator.Dispatch.{
  Receiver, register_satellite_nodes, initialize_simulators, register_local_message_handlers,
}
use actuator_final.Coordinator.Distribution.{IsReachable}
use actuator_final.Coordinator.Reach.{Ready, registered-IsReachable}

-- Coordinator; no registry and no communication module are `none`.
pub record Coordinator : Type 0 where
  pub coordinator_id : Text
  pub initialized : Bool
  pub schedule : MultiSatSchedule
  pub registry : Option NodeRegistry
  pub comm : Option (Comm Receiver)
  pub simulators : Dict Receiver
  pub running : Bool
  pub statuses : TaskStatuses

-- Coordinator::Coordinator
abbrev pub new_coordinator : Text → Coordinator
new_coordinator coordinator_id = record {
  coordinator_id = coordinator_id;
  initialized = false;
  schedule = empty_schedule;
  registry = none;
  comm = none;
  simulators = [];
  running = false;
  statuses = no_statuses;
}

-- The configuration that initialize gives the communication module.
unfoldable pub comm_config : Text → CommConfig
comm_config coordinator_id = record default_config {
  node_id = coordinator_id;
  node_name = codes "Main Coordinator";
  node_type = codes "COORDINATOR";
  bind_address = codes "0.0.0.0";
  bind_port = 50000;
}

-- Steps 5 and after: the simulators and the handlers.
unfoldable pub set_up_handlers : Comm Receiver → Coordinator → Coordinator
set_up_handlers comm c =
    let simulators = initialize_simulators (λ id. true) c.schedule.satellites c.simulators in
    record c {
      initialized = true;
      simulators = simulators;
      comm = some (
          register_local_message_handlers c.coordinator_id c.schedule.satellite_ids simulators
            comm);
    }

-- Step 4: the communication module.
unfoldable pub set_up_comm : Network → Coordinator → Bool × Coordinator
unfolding set_up_handlers comm_config
set_up_comm net c =
    let (ok, comm) = Life.initialize net (new_comm Receiver (comm_config c.coordinator_id)) in
    if ok then (true, set_up_handlers comm c) else (false, record c { comm = some comm })

-- Steps 2 and 3: the registry and its nodes.
unfoldable pub set_up_registry : Network → ℕ → Coordinator → Bool × Coordinator
unfolding set_up_comm
set_up_registry net now c =
    let (ready, registry) = Registry.initialize fresh_registry in
    let (registered, registry') = register_satellite_nodes c.schedule.satellites now registry in
    if ready
    then if registered
      then set_up_comm net (record c { registry = some registry' })
      else (false, record c { registry = some registry' })
    else (false, record c { registry = some registry })

module _ {F : Type 0} ⦃fl : Floating F⦄ ⦃lib : JsonLibrary F⦄ where
  -- initialize
  unfoldable pub initialize : Option (Json F) → Network → ℕ → Coordinator → Bool × Coordinator
  unfolding set_up_registry
  initialize file net now c =
      let (loaded, schedule) = load_schedule file in
      if c.initialized
      then (true, c)
      else if loaded
      then set_up_registry net now (record c { schedule = schedule })
      else (false, record c { schedule = schedule })

-- The handlers of the communication module, if there is one.
abbrev pub handlers_of : Option (Comm Receiver) → Dict Receiver
handlers_of none = []
handlers_of (some comm) = comm.local_handlers

-- A coordinator whose satellites can all be reached.
abbrev pub Reaches : Coordinator → Type 0
Reaches c = All (IsReachable c.schedule (handlers_of c.comm)) c.schedule.satellite_ids

-- What is claimed of an initialization that returns, for a schedule that was read to its end.
abbrev pub ReachesIf : Bool × Coordinator → Type 0
ReachesIf (false, c) = Unit
ReachesIf (true, c) = Reaches c

all-Ready : (infos : List SatelliteInfo) → All (Ready (λ id. true)) infos
all-Ready [] = tt
all-Ready (info ∷ infos) = (refl, all-Ready infos)

set_up_comm-ReachesIf :
    (net : Network) (c : Coordinator) → IsSchedule c.schedule → ReachesIf (set_up_comm net c)
unfolding set_up_comm set_up_handlers
set_up_comm-ReachesIf net c h =
    let ready = Life.initialize net (new_comm Receiver (comm_config c.coordinator_id)) in
    if-holds ReachesIf ready.0
      (registered-IsReachable c.schedule (λ id. true) c.simulators c.coordinator_id ready.1 h
        (all-Ready c.schedule.satellites))
      tt

set_up_registry-ReachesIf :
    (net : Network) (now : ℕ) (c : Coordinator)
    → IsSchedule c.schedule
    → ReachesIf (set_up_registry net now c)
unfolding set_up_registry
set_up_registry-ReachesIf net now c h =
    let created = Registry.initialize fresh_registry in
    let nodes = register_satellite_nodes c.schedule.satellites now created.1 in
    if-holds ReachesIf created.0
      (if-holds ReachesIf nodes.0
        (set_up_comm-ReachesIf net (record c { registry = some nodes.1 }) h) tt)
      tt

module _ {F : Type 0} ⦃fl : Floating F⦄ ⦃lib : JsonLibrary F⦄ where
  ReachesIf-initialize :
      (file : Option (Json F)) (net : Network) (now : ℕ) (c : Coordinator)
      → c.initialized ≡ false
      → IsSchedule (load_schedule file).1
      → ReachesIf (initialize file net now c)
  unfolding initialize
  ReachesIf-initialize file net now c new h =
      let schedule = (load_schedule file).1 in
      let read = record c { schedule = schedule } in
      subst ReachesIf
        (sym (
          if_false (true, c)
            (if (load_schedule file).0 then set_up_registry net now read else (false, read)) new))
        (if-holds ReachesIf (load_schedule file).0 (set_up_registry-ReachesIf net now read h) tt)

  -- A coordinator that was not initialized and whose initialization returns true, from a schedule file that was
  -- read to its end, can reach every satellite of the schedule.
  pub initialized-Reaches :
      (file : Option (Json F)) (net : Network) (now : ℕ) (c c' : Coordinator)
      → c.initialized ≡ false
      → IsSchedule (load_schedule file).1
      → initialize file net now c ≡ (true, c')
      → Reaches c'
  initialized-Reaches file net now c c' new h done =
      subst ReachesIf done (ReachesIf-initialize file net now c new h)
