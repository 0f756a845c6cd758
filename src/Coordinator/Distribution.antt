-- ===== src/Coordinator/Distribution.antt =====
-- src/coordinator/coordinator.cpp: whom distributeAllTasks reaches.
use actuator_final.Prelude.{
  ℕ, Bool, true, false, List, [], ◌∷◌, ◌++◌, Option, none, some, if◌then◌else◌, length, ==_iff, ◌≡◌,
  ◌⊎◌, inl, inr, refl, sym, ap, if_false, ◌∙◌, subst, arith, All,
}
use actuator_final.Text.{Text, is_empty}
use actuator_final.Dict.{Dict, lookup}
use actuator_final.Behavior.{TaskSegment}
use actuator_final.Value.{Floating}
use actuator_final.Messages.{Message, batch_task_assign_type}
use actuator_final.Json.{JsonLibrary}
use actuator_final.Payloads.Batch.{serialize_batch}
use actuator_final.Input.Schedule.{SatelliteInfo, MultiSatSchedule}
use actuator_final.Comm.{Comm, Event, deliver}
use actuator_final.Comm.Send.{
  outbound, sequence_for, next_sequence_id, dispatch, send_message, target_of,
}
use actuator_final.Comm.Transport.{sent_message, send_message-dispatch}
use actuator_final.Coordinator.{batch_assignment}
use actuator_final.Coordinator.Outcome.{Some}
use actuator_final.Coordinator.Dispatch.{
  Receiver, satellite, Unset, Progress, batch_message, distribute_one, distribute,
  distribute_all_tasks, find_satellite,
}

-- A satellite that can be reached: it has an id, an entry in the schedule, and its own simulator as local handler.
pub record IsReachable (schedule : MultiSatSchedule) (handlers : Dict Receiver) (id : Text)
    : Type 0 where
  pub named : is_empty id ≡ false
  pub handled : lookup id handlers ≡ some (satellite id)
  pub info : SatelliteInfo
  pub listed : find_satellite id schedule.satellites ≡ some info

handlers-sequence_for :
    (m : Message) (c : Comm Receiver) → (sequence_for m c).1.local_handlers ≡ c.local_handlers
unfolding sequence_for next_sequence_id
handlers-sequence_for m c = ground arith

send_message-local :
    (id : Text) (m : Message) (now : ℕ) (c : Comm Receiver)
    → is_empty id ≡ false
    → lookup id c.local_handlers ≡ some (satellite id)
    → send_message id m now now c
      ≡ (true, deliver (satellite id) (sent_message id m now c) ∷ [], (sequence_for m c).1)
unfolding target_of dispatch
send_message-local id m now c named handled =
    let target : target_of id m ≡ id = if_false m.header.dest_node_id id named in
    send_message-dispatch id m now now c (ap is_empty target ∙ named)
    ∙ ap (λ o. dispatch o (sent_message id m now c) now (sequence_for m c).1)
        (ap (λ t. lookup t c.local_handlers) target ∙ handled)

Some-append :
    (P : Event Receiver → Type 0) (xs ys : List (Event Receiver))
    → Some P xs ⊎ Some P ys
    → Some P (xs ++ ys)
Some-append P [] ys (inl h) = elim h [ ]
Some-append P [] ys (inr h) = h
Some-append P (x ∷ xs) ys (inl (inl p)) = inl p
Some-append P (x ∷ xs) ys (inl (inr h)) = inr (Some-append P xs ys (inl h))
Some-append P (x ∷ xs) ys (inr h) = inr (Some-append P xs ys (inr h))

module _ {F : Type 0} ⦃fl : Floating F⦄ ⦃lib : JsonLibrary F⦄ (unset : Unset F) where
  -- The delivery of a batch, addressed to the satellite, to its simulator.
  pub record IsDelivery (id : Text) (ts : List TaskSegment) (e : Event Receiver) : Type 0 where
    pub message : Message
    pub node_id : Text
    pub time : ℕ
    pub delivered : e ≡ deliver (satellite id) message
    pub is_batch : message.header.msg_type ≡ batch_task_assign_type
    pub addressed : message.header.dest_node_id ≡ id
    pub carries :
        message.payload
        ≡ serialize_batch unset.details (batch_assignment unset.profit id node_id ts time)

  -- What a round owes a satellite with these tasks.
  abbrev pub Delivers : Text → Option (List TaskSegment) → List (Event Receiver) → Type 0
  Delivers id none events = Unit
  Delivers id (some []) events = Unit
  Delivers id (some (t ∷ ts)) events = Some (IsDelivery id (t ∷ ts)) events

  delivery :
      (coordinator_id id node_id : Text) (ts : List TaskSegment) (now : ℕ) (c : Comm Receiver)
      → is_empty id ≡ false
      → let m = batch_message unset coordinator_id id node_id ts now in
        IsDelivery id ts (deliver (satellite id) (sent_message id m now c))
  unfolding batch_message outbound target_of
  delivery coordinator_id id node_id ts now c named =
      let m = batch_message unset coordinator_id id node_id ts now in
      record {
        message = sent_message id m now c;
        node_id = node_id;
        time = now;
        delivered = refl;
        is_batch = refl;
        addressed = if_false m.header.dest_node_id id named;
        carries = refl;
      }

  distribute_one-reaches :
      (coordinator_id id : Text) (o : Option (List TaskSegment)) (info : SatelliteInfo) (now : ℕ)
      (c : Comm Receiver)
      → is_empty id ≡ false
      → lookup id c.local_handlers ≡ some (satellite id)
      → let d = distribute_one unset coordinator_id id o (some info) now c in
        (d.1 ≡ d.0) × (d.3.local_handlers ≡ c.local_handlers) × Delivers id o d.2
  unfolding distribute_one
  distribute_one-reaches coordinator_id id none info now c named handled = (refl, refl, tt)
  distribute_one-reaches coordinator_id id (some []) info now c named handled = (refl, refl, tt)
  distribute_one-reaches coordinator_id id (some (t ∷ ts)) info now c named handled =
      let m = batch_message unset coordinator_id id info.node_id (t ∷ ts) now in
      let sent = send_message-local id m now c named handled in
      (
        ap
            (λ (r : Bool × List (Event Receiver) × Comm Receiver).
              if r.0 then length (t ∷ ts) else 0)
            sent,
        ap (λ (r : Bool × List (Event Receiver) × Comm Receiver). r.2.local_handlers) sent
            ∙ handlers-sequence_for m c,
        subst
            (λ (r : Bool × List (Event Receiver) × Comm Receiver).
              Some (IsDelivery id (t ∷ ts)) r.1)
            (sym sent) (inl (delivery coordinator_id id info.node_id (t ∷ ts) now c named)),
      )

  abbrev pub serve : Text → MultiSatSchedule → Text → ℕ → Comm Receiver → Progress
  serve coordinator_id schedule id now c =
      distribute_one unset coordinator_id id (lookup id schedule.satellite_tasks)
        (find_satellite id schedule.satellites) now c

  -- A round for a satellite that can be reached.
  round-reaches :
      (coordinator_id id : Text) (schedule : MultiSatSchedule) (now : ℕ) (c : Comm Receiver)
      → IsReachable schedule c.local_handlers id
      → let o = lookup id schedule.satellite_tasks in
        let d =
          distribute_one unset coordinator_id id o (find_satellite id schedule.satellites) now c in
        (d.1 ≡ d.0) × (d.3.local_handlers ≡ c.local_handlers) × Delivers id o d.2
  round-reaches coordinator_id id schedule now c r =
      let o = lookup id schedule.satellite_tasks in
      subst
        (λ (info : Option SatelliteInfo).
          let d = distribute_one unset coordinator_id id o info now c in
          (d.1 ≡ d.0) × (d.3.local_handlers ≡ c.local_handlers) × Delivers id o d.2)
        (sym r.listed) (distribute_one-reaches coordinator_id id o r.info now c r.named r.handled)

  distribute-sends :
      (coordinator_id : Text) (schedule : MultiSatSchedule) (ids : List Text) (clock : ℕ → ℕ)
      (c : Comm Receiver)
      → All (IsReachable schedule c.local_handlers) ids
      → let d = distribute unset coordinator_id schedule ids clock c in d.1 ≡ d.0
  unfolding distribute
  distribute-sends coordinator_id schedule [] clock c h = refl
  distribute-sends coordinator_id schedule (id ∷ ids) clock c (first, others) =
      let (same, kept, served) =
        round-reaches coordinator_id id schedule (clock (length (id ∷ ids))) c first in
      let c' = (serve coordinator_id schedule id (clock (length (id ∷ ids))) c).3 in
      let rest =
        distribute-sends coordinator_id schedule ids clock c'
          (subst (λ hs. All (IsReachable schedule hs) ids) (sym kept) others) in
      omega (arith, same, rest)

  distribute-delivers :
      (coordinator_id : Text) (schedule : MultiSatSchedule) (ids : List Text) (clock : ℕ → ℕ)
      (c : Comm Receiver) (id : Text) (t : TaskSegment) (ts : List TaskSegment)
      → All (IsReachable schedule c.local_handlers) ids
      → Some (λ i. i ≡ id) ids
      → lookup id schedule.satellite_tasks ≡ some (t ∷ ts)
      → Some (IsDelivery id (t ∷ ts)) (distribute unset coordinator_id schedule ids clock c).2
  unfolding distribute
  distribute-delivers coordinator_id schedule [] clock c id t ts h m e = elim m [ ]
  distribute-delivers coordinator_id schedule (i ∷ ids) clock c id t ts (first, others) (inl is) e =
      let (same, kept, served) =
        round-reaches coordinator_id i schedule (clock (length (i ∷ ids))) c first in
      let d = serve coordinator_id schedule i (clock (length (i ∷ ids))) c in
      let more = (distribute unset coordinator_id schedule ids clock d.3).2 in
      Some-append (IsDelivery id (t ∷ ts)) d.2 more (
        inl (
          subst (λ o. Delivers id o d.2) e
            (subst (λ j. Delivers j (lookup j schedule.satellite_tasks) d.2) is served)))
  distribute-delivers coordinator_id schedule (i ∷ ids) clock c id t ts (first, others) (inr m) e =
      let (same, kept, served) =
        round-reaches coordinator_id i schedule (clock (length (i ∷ ids))) c first in
      let d = serve coordinator_id schedule i (clock (length (i ∷ ids))) c in
      let more = (distribute unset coordinator_id schedule ids clock d.3).2 in
      Some-append (IsDelivery id (t ∷ ts)) d.2 more (
        inr (
          distribute-delivers coordinator_id schedule ids clock d.3 id t ts
            (subst (λ hs. All (IsReachable schedule hs) ids) (sym kept) others) m e))

  -- If every satellite of the schedule can be reached, distributeAllTasks succeeds, and each satellite that has tasks
  -- gets, through its own simulator's handler, a batch message with exactly these tasks in their order.
  pub distribute_all_tasks-delivers :
      (coordinator_id : Text) (schedule : MultiSatSchedule) (clock : ℕ → ℕ) (c : Comm Receiver)
      (id : Text) (t : TaskSegment) (ts : List TaskSegment)
      → All (IsReachable schedule c.local_handlers) schedule.satellite_ids
      → Some (λ i. i ≡ id) schedule.satellite_ids
      → lookup id schedule.satellite_tasks ≡ some (t ∷ ts)
      → let d = distribute_all_tasks unset coordinator_id schedule clock c in
        (d.0 ≡ true) × Some (IsDelivery id (t ∷ ts)) d.1
  unfolding distribute_all_tasks
  distribute_all_tasks-delivers coordinator_id schedule clock c id t ts h m e = (
    (==_iff _ _).1 (distribute-sends coordinator_id schedule schedule.satellite_ids clock c h),
    distribute-delivers coordinator_id schedule schedule.satellite_ids clock c id t ts h m e,
  )
