-- ===== src/Coordinator/Reach.antt =====
-- src/coordinator/coordinator.cpp: the handlers that initializeSimulators and registerLocalMessageHandlers set up
-- reach every satellite of the schedule.
use actuator_final.Prelude.{
  Bool, true, false, List, [], ◌∷◌, map, Option, none, some, if◌then◌else◌, ◌≡◌, inl, inr, refl,
  sym, ◌∙◌, subst, arith, All, if_true, if_false, if-holds, Bool-cases,
}
use actuator_final.Text.{Text, text_eq, text_eq_iff, is_empty}
use actuator_final.Dict.{Dict, lookup, insert, lookup-insert}
use actuator_final.Input.Schedule.{SatelliteInfo, MultiSatSchedule}
use actuator_final.Input.ScheduleShape.{IsSchedule, Named}
use actuator_final.Comm.{Comm}
use actuator_final.Comm.Nodes.{register_local_handler}
use actuator_final.Coordinator.Outcome.{Some}
use actuator_final.Coordinator.Dispatch.{
  Receiver, satellite, coordinator, initialize_simulators, register_simulators, register_if_some,
  register_local_message_handlers, find_satellite,
}
use actuator_final.Coordinator.Distribution.{IsReachable}

-- An entry under an id stays when the satellite of that id is entered again.
lookup-again :
    (id j : Text) (d : Dict Receiver)
    → lookup id d ≡ some (satellite id)
    → lookup id (insert j (satellite j) d) ≡ some (satellite id)
lookup-again id j d e = ground (arith, e, lookup-insert j id (satellite j) d, text_eq_iff j id)

abbrev pub Ready : (Text → Bool) → SatelliteInfo → Type 0
Ready ready info = ready info.satellite_id ≡ true

simulators-kept :
    (ready : Text → Bool) (infos : List SatelliteInfo) (sims : Dict Receiver) (id : Text)
    → lookup id sims ≡ some (satellite id)
    → lookup id (initialize_simulators ready infos sims) ≡ some (satellite id)
unfolding initialize_simulators
simulators-kept ready [] sims id e = e
simulators-kept ready (info ∷ infos) sims id e =
    simulators-kept ready infos
      (if ready info.satellite_id
        then insert info.satellite_id (satellite info.satellite_id) sims
        else sims)
      id
      (if-holds (λ d. lookup id d ≡ some (satellite id)) (ready info.satellite_id)
        (lookup-again id info.satellite_id sims e) e)

lookup-simulators :
    (ready : Text → Bool) (infos : List SatelliteInfo) (sims : Dict Receiver) (id : Text)
    → All (Ready ready) infos
    → Some (λ i. i ≡ id) (map (λ info. info.satellite_id) infos)
    → lookup id (initialize_simulators ready infos sims) ≡ some (satellite id)
unfolding initialize_simulators
lookup-simulators ready [] sims id h m = elim m [ ]
lookup-simulators ready (info ∷ infos) sims id (first, others) (inl same) =
    simulators-kept ready infos
      (if ready info.satellite_id
        then insert info.satellite_id (satellite info.satellite_id) sims
        else sims)
      id
      (ground (
        arith,
        first,
        same,
        lookup-insert info.satellite_id id (satellite info.satellite_id) sims,
        text_eq_iff info.satellite_id id,
      ))
lookup-simulators ready (info ∷ infos) sims id (first, others) (inr m) =
    lookup-simulators ready infos _ id others m

register-other :
    (id j : Text) (sims : Dict Receiver) (c : Comm Receiver) (o : Option Receiver)
    → lookup j sims ≡ o
    → lookup id sims ≡ some (satellite id)
    → lookup id c.local_handlers ≡ some (satellite id)
    → lookup id (register_if_some j o c).local_handlers ≡ some (satellite id)
unfolding register_local_handler
register-other id j sims c none at_j known e = e
register-other id j sims c (some h) at_j known e =
    if-holds (λ (d : Comm Receiver). lookup id d.local_handlers ≡ some (satellite id)) (is_empty j)
      e (ground (arith, at_j, known, e, lookup-insert j id h c.local_handlers, text_eq_iff j id))

register-own :
    (id : Text) (c : Comm Receiver)
    → is_empty id ≡ false
    → lookup id (register_if_some id (some (satellite id)) c).local_handlers ≡ some (satellite id)
unfolding register_local_handler
register-own id c named =
    ground (arith, named, lookup-insert id id (satellite id) c.local_handlers, text_eq_iff id id)

handlers-kept :
    (ids : List Text) (sims : Dict Receiver) (c : Comm Receiver) (id : Text)
    → lookup id sims ≡ some (satellite id)
    → lookup id c.local_handlers ≡ some (satellite id)
    → lookup id (register_simulators ids sims c).local_handlers ≡ some (satellite id)
unfolding register_simulators
handlers-kept [] sims c id known e = e
handlers-kept (j ∷ ids) sims c id known e =
    handlers-kept ids sims (register_if_some j (lookup j sims) c) id known
      (register-other id j sims c (lookup j sims) refl known e)

lookup-registered :
    (ids : List Text) (sims : Dict Receiver) (c : Comm Receiver) (id : Text)
    → is_empty id ≡ false
    → lookup id sims ≡ some (satellite id)
    → Some (λ i. i ≡ id) ids
    → lookup id (register_simulators ids sims c).local_handlers ≡ some (satellite id)
unfolding register_simulators
lookup-registered [] sims c id named known m = elim m [ ]
lookup-registered (j ∷ ids) sims c id named known (inl same) =
    handlers-kept ids sims (register_if_some j (lookup j sims) c) id known (
      subst
        (λ i. lookup id (register_if_some i (lookup i sims) c).local_handlers ≡ some (satellite id))
        (sym same)
        (subst (λ o. lookup id (register_if_some id o c).local_handlers ≡ some (satellite id))
          (sym known) (register-own id c named)))
lookup-registered (j ∷ ids) sims c id named known (inr m) =
    lookup-registered ids sims (register_if_some j (lookup j sims) c) id named known m

find-listed :
    (infos : List SatelliteInfo) (id : Text)
    → Some (λ i. i ≡ id) (map (λ (info : SatelliteInfo). info.satellite_id) infos)
    → (info : SatelliteInfo) × (find_satellite id infos ≡ some info)
unfolding find_satellite
find-listed [] id m = elim m [ ]
find-listed (info ∷ infos) id (inl same) =
    (info, ground (arith, same, text_eq_iff info.satellite_id id))
find-listed (info ∷ infos) id (inr m) =
    let (found, e) = find-listed infos id m in
    elim (Bool-cases (text_eq info.satellite_id id)) [
      | inl own ↦ (info, if_true (some info) (find_satellite id infos) own)
      | inr other ↦ (found, if_false (some info) (find_satellite id infos) other ∙ e)
    ]

All-members :
    {P : Text → Type 0} (ids : List Text)
    → ((id : Text) → Some (λ i. i ≡ id) ids → P id)
    → All P ids
All-members [] h = tt
All-members (id ∷ ids) h = (h id (inl refl), All-members ids (λ j m. h j (inr m)))

All-member :
    (P : Text → Type 0) (ids : List Text) (id : Text) → All P ids → Some (λ i. i ≡ id) ids → P id
All-member P [] id h m = elim m [ ]
All-member P (j ∷ ids) id h (inl same) = subst P same h.0
All-member P (j ∷ ids) id h (inr m) = All-member P ids id h.1 m

-- Once the simulators of a schedule could all be initialized and the handlers are registered, every satellite of a
-- schedule that was read to its end can be reached, whatever simulators and handlers there were before, and whatever the
-- coordinator is called.
pub registered-IsReachable :
    (schedule : MultiSatSchedule) (ready : Text → Bool) (former : Dict Receiver)
    (coordinator_id : Text) (c : Comm Receiver)
    → IsSchedule schedule
    → All (Ready ready) schedule.satellites
    → let ids = schedule.satellite_ids in
      let sims = initialize_simulators ready schedule.satellites former in
      All
        (IsReachable schedule
          (register_local_message_handlers coordinator_id ids sims c).local_handlers)
        ids
unfolding register_local_message_handlers
registered-IsReachable schedule ready former coordinator_id c h all_ready =
    let ids = schedule.satellite_ids in
    let sims = initialize_simulators ready schedule.satellites former in
    All-members ids (λ id m.
      let listed = subst (Some (λ i. i ≡ id)) h.tracks m in
      let named = All-member Named ids id h.named m in
      let (info, found) = find-listed schedule.satellites id listed in
      record {
        named = named;
        handled =
            lookup-registered ids sims (register_local_handler coordinator_id (some coordinator) c)
              id named (lookup-simulators ready schedule.satellites former id all_ready listed) m;
        info = info;
        listed = found;
      })
