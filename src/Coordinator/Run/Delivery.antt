-- ===== src/Coordinator/Run/Delivery.antt =====
-- src/coordinator/coordinator.cpp: initialize and run, one after the other.
use actuator_final.Prelude.{
  ℕ, Bool, true, false, List, [], ◌∷◌, Option, none, some, if◌then◌else◌, ◌≡◌, refl, sym, ap, ◌∙◌,
  subst, if-holds, map, if_true, if_false, Bool-cases, inl, inr, All, arith,
}
use actuator_final.Text.{Text, is_empty}
use actuator_final.Dict.{Dict, lookup}
use actuator_final.Value.{Floating}
use actuator_final.Behavior.{TaskSegment}
use actuator_final.Json.{Json, JsonLibrary}
use actuator_final.Messages.{Message}
use actuator_final.Registry.{NodeRegistry, fresh_registry}
use actuator_final.Registry
use actuator_final.Input.Schedule.{load_schedule}
use actuator_final.Input.ScheduleShape.{IsSchedule}
use actuator_final.Comm.{Comm, Event, new_comm}
use actuator_final.Comm.Nodes.{register_local_handler}
use actuator_final.Comm.Life.{Network}
use actuator_final.Comm.Life
use actuator_final.Coordinator.Outcome.{Some, run_statuses-finished}
use actuator_final.Coordinator.Router.{run_messages-acks, ack_of}
use actuator_final.Coordinator.Dispatch.{
  Receiver, coordinator, Unset, register_satellite_nodes, register_local_message_handlers,
  register_simulators, register_if_some,
}
use actuator_final.Coordinator.Distribution.{IsReachable, IsDelivery, distribute_all_tasks-delivers}
use actuator_final.Coordinator.Setup.{
  Coordinator, initialize, initialized-Reaches, set_up_registry, set_up_comm, set_up_handlers,
  comm_config, handlers_of,
}
use actuator_final.Coordinator.Run.{stop, run_started, start_and_run, run}

-- An initialized coordinator, whose communication module has its socket.
record IsStartable (c : Coordinator) : Type 0 where
  initialized : c.initialized ≡ true
  comm : Comm Receiver
  has_comm : c.comm ≡ some comm
  comm_initialized : comm.initialized ≡ true

abbrev IsStartableIf : Bool × Coordinator → Type 0
IsStartableIf (true, c) = IsStartable c
IsStartableIf (false, c) = Unit

initialized-handler :
    (id : Text) (o : Option Receiver) (c : Comm Receiver)
    → (register_if_some id o c).initialized ≡ c.initialized
unfolding register_local_handler
initialized-handler id none c = refl
initialized-handler id (some h) c =
    if-holds (λ (x : Comm Receiver). x.initialized ≡ c.initialized) (is_empty id) refl refl

initialized-register_simulators :
    (ids : List Text) (simulators : Dict Receiver) (c : Comm Receiver)
    → (register_simulators ids simulators c).initialized ≡ c.initialized
unfolding register_simulators
initialized-register_simulators [] simulators c = refl
initialized-register_simulators (id ∷ ids) simulators c =
    initialized-register_simulators ids simulators (register_if_some id (lookup id simulators) c)
    ∙ initialized-handler id (lookup id simulators) c

comm-initialize :
    (net : Network) (c : Comm Receiver)
    → (Life.initialize net c).0 ≡ true
    → (Life.initialize net c).1.initialized ≡ true
unfolding Life.initialize
comm-initialize net c ok = ground arith

-- A module that has its socket starts, and keeps its handlers.
start-initialized :
    (net : Network) (c : Comm Receiver)
    → c.initialized ≡ true
    → ((Life.start net c).0 ≡ true) × ((Life.start net c).1.local_handlers ≡ c.local_handlers)
unfolding Life.start Life.initialize
start-initialized net c ready = (ground (arith, ready), ground (arith, ready))

set_up_comm-IsStartableIf : (net : Network) (c : Coordinator) → IsStartableIf (set_up_comm net c)
unfolding set_up_comm set_up_handlers register_local_message_handlers
set_up_comm-IsStartableIf net c =
    let made : Comm Receiver = new_comm Receiver (comm_config c.coordinator_id) in
    elim (Bool-cases (Life.initialize net made).0) [
      | inl ok ↦
          rw (IsStartableIf, ok)
            (record {
              initialized = refl;
              comm = _;
              has_comm = refl;
              comm_initialized =
                  initialized-register_simulators c.schedule.satellite_ids _ _
                  ∙ initialized-handler c.coordinator_id (some coordinator)
                      (Life.initialize net made).1
                  ∙ comm-initialize net made ok;
            })
      | inr failed ↦ rw (IsStartableIf, failed) tt
    ]

set_up_registry-IsStartableIf :
    (net : Network) (now : ℕ) (c : Coordinator) → IsStartableIf (set_up_registry net now c)
unfolding set_up_registry
set_up_registry-IsStartableIf net now c =
    let created = Registry.initialize fresh_registry in
    let nodes = register_satellite_nodes c.schedule.satellites now created.1 in
    if-holds IsStartableIf created.0
      (if-holds IsStartableIf nodes.0
        (set_up_comm-IsStartableIf net (record c { registry = some nodes.1 })) tt)
      tt

module _ {F : Type 0} ⦃fl : Floating F⦄ ⦃lib : JsonLibrary F⦄ where
  IsStartableIf-initialize :
      (file : Option (Json F)) (net : Network) (now : ℕ) (c : Coordinator)
      → c.initialized ≡ false
      → IsStartableIf (initialize file net now c)
  unfolding initialize
  IsStartableIf-initialize file net now c new =
      let read = record c { schedule = (load_schedule file).1 } in
      subst IsStartableIf
        (sym (
          if_false (true, c)
            (if (load_schedule file).0 then set_up_registry net now read else (false, read)) new))
        (if-holds IsStartableIf (load_schedule file).0 (set_up_registry-IsStartableIf net now read)
          tt)

  -- What run does once the communication module has started.
  run-started :
      (net : Network) (unset : Unset F) (clock : ℕ → ℕ) (messages : List Message) (c : Coordinator)
      (h : IsStartable c)
      → run net unset clock messages c
        ≡ run_started unset clock messages (Life.start net h.comm).1 c
  unfolding run start_and_run
  run-started net unset clock messages c h =
      if_true _ _ h.initialized
      ∙ ap (λ comm. start_and_run net unset clock messages comm c) h.has_comm
      ∙ if_true _ _ (start-initialized net h.comm h.comm_initialized).0

  -- A coordinator that was initialized from a schedule file that was read to its end, and is then run: each
  -- satellite with tasks gets, through its own simulator's handler, a batch message with exactly these
  -- tasks; and when run is over, whatever messages came, every satellite that it tracked is marked finished.
  pub initialized_run-delivers :
      (file : Option (Json F)) (net net' : Network) (now : ℕ) (c c' : Coordinator) (unset : Unset F)
      (clock : ℕ → ℕ) (messages : List Message) (id : Text) (t : TaskSegment)
      (ts : List TaskSegment)
      → c.initialized ≡ false
      → IsSchedule (load_schedule file).1
      → initialize file net now c ≡ (true, c')
      → Some (λ i. i ≡ id) c'.schedule.satellite_ids
      → lookup id c'.schedule.satellite_tasks ≡ some (t ∷ ts)
      → Some (IsDelivery unset id (t ∷ ts)) (run net' unset clock messages c').0
        × All (λ (sat, done). done ≡ true) (run net' unset clock messages c').1.statuses.finished
  unfolding run_started stop
  initialized_run-delivers file net net' now c c' unset clock messages id t ts new read done listed
        tasks =
      let h : IsStartable c' =
        subst IsStartableIf done (IsStartableIf-initialize file net now c new) in
      let comm' = (Life.start net' h.comm).1 in
      let ran = run-started net' unset clock messages c' h in
      let handlers : comm'.local_handlers ≡ handlers_of c'.comm =
        (start-initialized net' h.comm h.comm_initialized).1 ∙ ap handlers_of (sym h.has_comm) in
      let reaches : All (IsReachable c'.schedule comm'.local_handlers) c'.schedule.satellite_ids =
        subst (λ hs. All (IsReachable c'.schedule hs) c'.schedule.satellite_ids) (sym handlers)
          (initialized-Reaches file net now c c' new read done) in
      let sent =
        distribute_all_tasks-delivers unset c'.coordinator_id c'.schedule clock comm' id t ts
          reaches listed tasks in
      let finished =
        run_statuses-finished c'.schedule.satellite_ids c'.schedule.satellite_tasks
          (map (ack_of F) messages) in
      (
        subst (λ (r : List (Event Receiver) × Coordinator). Some (IsDelivery unset id (t ∷ ts)) r.0)
            (sym ran) sent.1,
        subst
            (λ (r : List (Event Receiver) × Coordinator).
              All (λ (sat, done). done ≡ true) r.1.statuses.finished)
            (sym ran)
            (subst (λ s. All (λ (sat, done). done ≡ true) s.finished)
              (sym (
                run_messages-acks F c'.schedule.satellite_ids c'.schedule.satellite_tasks messages))
              finished),
      )
