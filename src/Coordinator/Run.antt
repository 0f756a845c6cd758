-- ===== src/Coordinator/Run.antt =====
-- src/coordinator/coordinator.cpp: run and stop. The messages are those that reach the coordinator before
-- the wait of 60 seconds is over; what the local handlers and the sockets are given is a list of events.
pub mod Delivery
use actuator_final.Prelude.{ℕ, Bool, true, false, List, [], Option, none, some, if◌then◌else◌}
use actuator_final.Value.{Floating}
use actuator_final.Json.{JsonLibrary}
use actuator_final.Messages.{Message}
use actuator_final.Comm.{Comm, Event}
use actuator_final.Comm.Life.{Network}
use actuator_final.Comm.Life
use actuator_final.Coordinator.Dispatch.{Receiver, Unset, distribute_all_tasks}
use actuator_final.Coordinator.Router.{run_messages}
use actuator_final.Coordinator.Setup.{Coordinator}

unfoldable pub stop : Coordinator → Coordinator
stop c = record c { running = false }

module _ {F : Type 0} ⦃fl : Floating F⦄ ⦃lib : JsonLibrary F⦄ where
  -- Behind the start of the communication module: the statuses are set up and the tasks distributed, also
  -- where some could not be sent; then comes the wait.
  unfoldable pub run_started :
      Unset F
      → (ℕ → ℕ)
      → List Message
      → Comm Receiver
      → Coordinator
      → List (Event Receiver) × Coordinator
  unfolding stop
  run_started unset clock messages comm c =
      let (all_sent, events, comm') =
        distribute_all_tasks unset c.coordinator_id c.schedule clock comm in
      (
        events,
        stop (record c {
          comm = some comm';
          statuses = run_messages F c.schedule.satellite_ids c.schedule.satellite_tasks messages;
        }),
      )

  -- An initialized coordinator has a communication module.
  unfoldable pub start_and_run :
      Network
      → Unset F
      → (ℕ → ℕ)
      → List Message
      → Option (Comm Receiver)
      → Coordinator
      → List (Event Receiver) × Coordinator
  unfolding run_started
  start_and_run net unset clock messages none c = ([], c)
  start_and_run net unset clock messages (some comm) c =
      let (ok, comm') = Life.start net comm in
      if ok then run_started unset clock messages comm' c else ([], record c { comm = some comm' })

  unfoldable pub run :
      Network → Unset F → (ℕ → ℕ) → List Message → Coordinator → List (Event Receiver) × Coordinator
  unfolding start_and_run
  run net unset clock messages c =
      if c.initialized then start_and_run net unset clock messages c.comm c else ([], c)
