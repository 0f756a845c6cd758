-- ===== src/Coordinator/Finished.antt =====
-- src/coordinator/coordinator.cpp: the end of run's wait, when no satellite is waited for any more.
use actuator_final.Prelude.{
  Bool, true, false, List, [], ◌∷◌, Option, none, some, ◌≡◌, inl, inr, refl, sym, ap, subst, arith,
  All, Bool-cases, Option-cases,
}
use mathlib.Core.Option.{none-ne-some}
use actuator_final.Text.{Text, text_eq, text_eq_refl}
use actuator_final.Dict.{Dict, lookup, insert, lookup-insert}
use actuator_final.Behavior.{TaskSegment}
use actuator_final.Messages.{BatchTaskAssignAck}
use actuator_final.Coordinator.{
  TaskStatuses, no_statuses, track, track_all, on_batch_ack, on_batch_acks, all_finished,
  finish_all, after_wait, run_statuses,
}
use actuator_final.Coordinator.Outcome.{Some, run_statuses-finished}

-- The satellite has a flag.
abbrev HasFlag : Text → Dict Bool → Type 0
HasFlag sat m = (done : Bool) × (lookup sat m ≡ some done)

HasFlag-insert :
    (sat j : Text) (done : Bool) (m : Dict Bool) → HasFlag sat m → HasFlag sat (insert j done m)
HasFlag-insert sat j done m (b, e) = elim (Bool-cases (text_eq j sat)) [
  | inl same ↦ (done, ground (arith, same, lookup-insert j sat done m))
  | inr other ↦ (b, ground (arith, e, other, lookup-insert j sat done m))
]

HasFlag-track :
    (sat j : Text) (found : Option (List TaskSegment)) (t : TaskStatuses)
    → HasFlag sat t.finished
    → HasFlag sat (track j found t).finished
unfolding track
HasFlag-track sat j none t h = h
HasFlag-track sat j (some []) t h = h
HasFlag-track sat j (some (task ∷ tasks)) t h = HasFlag-insert sat j false t.finished h

HasFlag-track_all :
    (tasks : Dict (List TaskSegment)) (ids : List Text) (sat : Text) (t : TaskStatuses)
    → HasFlag sat t.finished
    → HasFlag sat (track_all tasks ids t).finished
unfolding track_all
HasFlag-track_all tasks [] sat t h = h
HasFlag-track_all tasks (j ∷ ids) sat t h =
    HasFlag-track_all tasks ids sat _ (HasFlag-track sat j (lookup j tasks) t h)

HasFlag-tracked :
    (sat : Text) (task : TaskSegment) (ts : List TaskSegment) (t : TaskStatuses)
    → HasFlag sat (track sat (some (task ∷ ts)) t).finished
unfolding track
HasFlag-tracked sat task ts t =
    (false, ground (arith, text_eq_refl sat, lookup-insert sat sat false t.finished))

track_all-HasFlag :
    (tasks : Dict (List TaskSegment)) (ids : List Text) (sat : Text) (task : TaskSegment)
    (ts : List TaskSegment) (t : TaskStatuses)
    → Some (λ id. id ≡ sat) ids
    → lookup sat tasks ≡ some (task ∷ ts)
    → HasFlag sat (track_all tasks ids t).finished
unfolding track_all
track_all-HasFlag tasks [] sat task ts t m e = elim m [ ]
track_all-HasFlag tasks (id ∷ ids) sat task ts t (inr m) e =
    track_all-HasFlag tasks ids sat task ts _ m e
track_all-HasFlag tasks (id ∷ ids) sat task ts t (inl is_sat) e =
    HasFlag-track_all tasks ids sat _ (
      subst (λ k. HasFlag sat (track k (lookup k tasks) t).finished) (sym is_sat)
        (subst (λ f. HasFlag sat (track sat f t).finished) (sym e) (HasFlag-tracked sat task ts t)))

HasFlag-on_batch_ack :
    (sat : Text) (a : Option BatchTaskAssignAck) (t : TaskStatuses)
    → HasFlag sat t.finished
    → HasFlag sat (on_batch_ack a t).finished
unfolding on_batch_ack
HasFlag-on_batch_ack sat none t h = h
HasFlag-on_batch_ack sat (some ack) t h =
    elim (Option-cases (lookup ack.satellite_id t.expected_counts)) [
      | inl untracked ↦ rw (on_batch_ack, untracked) h
      | inr (n, tracked) ↦
          rw (on_batch_ack, tracked) (HasFlag-insert sat ack.satellite_id true t.finished h)
    ]

HasFlag-on_batch_acks :
    (sat : Text) (acks : List (Option BatchTaskAssignAck)) (t : TaskStatuses)
    → HasFlag sat t.finished
    → HasFlag sat (on_batch_acks acks t).finished
unfolding on_batch_acks
HasFlag-on_batch_acks sat [] t h = h
HasFlag-on_batch_acks sat (a ∷ acks) t h =
    HasFlag-on_batch_acks sat acks (on_batch_ack a t) (HasFlag-on_batch_ack sat a t h)

HasFlag-finish_all : (sat : Text) (m : Dict Bool) → HasFlag sat m → HasFlag sat (finish_all m)
unfolding finish_all lookup
HasFlag-finish_all sat [] (b, e) = elim (none-ne-some b e) [ ]
HasFlag-finish_all sat ((j, done) ∷ m) (b, e) = elim (Bool-cases (text_eq j sat)) [
  | inl same ↦ (true, rw same refl)
  | inr other ↦
      let (b', found) = HasFlag-finish_all sat m (b, ground (arith, e, other)) in
      (b', rw other found)
]

HasFlag-after_wait :
    (sat : Text) (t : TaskStatuses) → HasFlag sat t.finished → HasFlag sat (after_wait t).finished
unfolding after_wait
HasFlag-after_wait sat t h = elim (Bool-cases (all_finished t.finished)) [
  | inl all ↦ rw all h
  | inr pending ↦ rw pending (HasFlag-finish_all sat t.finished h)
]

done-true :
    (sat : Text) (m : Dict Bool)
    → All (λ (sat, done). done ≡ true) m
    → HasFlag sat m
    → lookup sat m ≡ some true
unfolding lookup
done-true sat [] h (b, e) = elim (none-ne-some b e) [ ]
done-true sat ((j, done) ∷ m) (first, others) (b, e) = elim (Bool-cases (text_eq j sat)) [
  | inl same ↦ rw same (ap (λ d. some d) first)
  | inr other ↦ rw other (done-true sat m others (b, ground (arith, e, other)))
]

-- When the wait of run is over, each satellite of the schedule that has tasks is marked finished, and so is
-- every other that run tracked, whichever acknowledgements arrived and in whatever order.
pub run_statuses-finishes :
    (ids : List Text) (tasks : Dict (List TaskSegment)) (acks : List (Option BatchTaskAssignAck))
    (sat : Text) (task : TaskSegment) (ts : List TaskSegment)
    → Some (λ id. id ≡ sat) ids
    → lookup sat tasks ≡ some (task ∷ ts)
    → (lookup sat (run_statuses ids tasks acks).finished ≡ some true)
      × All (λ (sat, done). done ≡ true) (run_statuses ids tasks acks).finished
unfolding run_statuses
run_statuses-finishes ids tasks acks sat task ts listed found =
    let all = run_statuses-finished ids tasks acks in
    let tracked = track_all-HasFlag tasks ids sat task ts no_statuses listed found in
    (done-true sat _ all (HasFlag-after_wait sat _ (HasFlag-on_batch_acks sat acks _ tracked)), all)
