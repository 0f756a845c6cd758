-- ===== src/Coordinator/Outcome.antt =====
-- src/coordinator/coordinator.cpp: which satellites run counts as successful.
use actuator_final.Prelude.{
  ◌<◌, ℕ, ◌+◌, Bool, true, false, List, [], ◌∷◌, Option, none, some, ◌≡◌, ◌⊎◌, inl, inr, refl, sym,
  ◌∙◌, arith, length, All, Bool-cases, Option-cases, ap, subst,
}
use mathlib.Core.Option.{none-ne-some}
use actuator_final.Text.{Text, text_eq, text_eq_iff}
use actuator_final.Dict.{Dict, lookup, lookup-insert}
use actuator_final.Behavior.{TaskSegment}
use actuator_final.Messages.{BatchTaskAssignAck}
use actuator_final.Coordinator.{
  TaskStatuses, no_statuses, track_all, satellite_success, on_batch_ack, on_batch_acks,
  all_finished, finish_all, after_wait, run_statuses,
}
use actuator_final.Coordinator.Unanswered.{
  Counts, Counts-track_all, NoSuccess-track_all, after_wait-success,
}

-- The satellite's own acknowledgement: it accepted, and it lists no task or as many as were sent.
abbrev pub Accepts : Text → ℕ → Option BatchTaskAssignAck → Type 0
Accepts sat expected none = ⊥
Accepts sat expected (some ack) =
    (ack.satellite_id ≡ sat)
    × (ack.accepted ≡ true)
    × ((length ack.accepted_task_ids + length ack.rejected_task_ids ≡ 0)
        ⊎ (length ack.accepted_task_ids + length ack.rejected_task_ids ≡ expected))

abbrev pub Some : {A : Type 0} → (A → Type 0) → List A → Type 0
Some P [] = ⊥
Some P (x ∷ xs) = P x ⊎ Some P xs

satellite_success-Accepts :
    (expected : ℕ) (ack : BatchTaskAssignAck)
    → 0 < expected
    → satellite_success expected ack ≡ true
    → Accepts ack.satellite_id expected (some ack)
unfolding satellite_success
satellite_success-Accepts expected ack h e = (refl, ground arith, ground arith)

-- A success after an acknowledgement was one before, or comes of this acknowledgement.
on_batch_ack-success :
    (a : Option BatchTaskAssignAck) (t : TaskStatuses) (sat : Text)
    → lookup sat (on_batch_ack a t).results ≡ some true
    → (lookup sat t.results ≡ some true)
      ⊎ ((n : ℕ) × (lookup sat t.expected_counts ≡ some n) × (0 < n → Accepts sat n a))
unfolding on_batch_ack
on_batch_ack-success none t sat h = inl h
on_batch_ack-success (some ack) t sat h =
    elim (Option-cases (lookup ack.satellite_id t.expected_counts)) [
      | inl untracked ↦ inl (ground (arith, h, untracked))
      | inr (n, tracked) ↦ elim (Bool-cases (text_eq ack.satellite_id sat)) [
        | inl same ↦
            let is_sat : ack.satellite_id ≡ sat =
              ground (arith, same, text_eq_iff ack.satellite_id sat) in
            let success : satellite_success n ack ≡ true = ground (
              arith,
              h,
              tracked,
              same,
              lookup-insert ack.satellite_id sat (satellite_success n ack) t.results,
            ) in
            inr (
              n,
              ap (λ k. lookup k t.expected_counts) (sym is_sat) ∙ tracked,
              λ positive.
                  let (own, accepted, accounts) =
                    satellite_success-Accepts n ack positive success in
                  (is_sat, accepted, accounts),
            )
        | inr other ↦ inl (
            ground (
              arith,
              h,
              tracked,
              other,
              lookup-insert ack.satellite_id sat (satellite_success n ack) t.results,
            ))
      ]
    ]

pub expected-on_batch_ack :
    (a : Option BatchTaskAssignAck) (t : TaskStatuses)
    → (on_batch_ack a t).expected_counts ≡ t.expected_counts
unfolding on_batch_ack
expected-on_batch_ack none t = refl
expected-on_batch_ack (some ack) t =
    elim (Option-cases (lookup ack.satellite_id t.expected_counts)) [
      | inl untracked ↦ ground (arith, untracked)
      | inr (n, tracked) ↦ ground (arith, tracked)
    ]

on_batch_acks-success :
    (tasks : Dict (List TaskSegment)) (acks : List (Option BatchTaskAssignAck)) (t : TaskStatuses)
    (sat : Text)
    → Counts tasks t
    → lookup sat (on_batch_acks acks t).results ≡ some true
    → (lookup sat t.results ≡ some true)
      ⊎ ((ts : List TaskSegment) × (lookup sat tasks ≡ some ts)
          × Some (Accepts sat (length ts)) acks)
unfolding on_batch_acks
on_batch_acks-success tasks [] t sat c h = inl h
on_batch_acks-success tasks (a ∷ acks) t sat c h =
    elim (on_batch_acks-success tasks acks (on_batch_ack a t) sat
      (λ j n e. c j n (ap (lookup j) (sym (expected-on_batch_ack a t)) ∙ e)) h) [
        | inr (ts, found, later) ↦ inr (ts, found, inr later)
        | inl now ↦ elim (on_batch_ack-success a t sat now) [
          | inl before ↦ inl before
          | inr (n, counted, accepts) ↦
              let (ts, found, is_length, positive) = c sat n counted in
              inr (ts, found, inl (subst (λ k. Accepts sat k a) is_length (accepts positive)))
        ]
      ]

-- A satellite that run counts as successful had tasks in the schedule and sent an acknowledgement that
-- accepted the batch and listed no task or exactly as many as the satellite was sent.
pub run_statuses-success :
    (ids : List Text) (tasks : Dict (List TaskSegment)) (acks : List (Option BatchTaskAssignAck))
    (sat : Text)
    → lookup sat (run_statuses ids tasks acks).results ≡ some true
    → (ts : List TaskSegment) × (lookup sat tasks ≡ some ts) × Some (Accepts sat (length ts)) acks
unfolding run_statuses lookup
run_statuses-success ids tasks acks sat h =
    let counted = Counts-track_all tasks ids no_statuses (λ j n e. elim (none-ne-some n e) [ ]) in
    let none_yet =
      NoSuccess-track_all tasks ids no_statuses (λ j e. elim (none-ne-some true e) [ ]) in
    elim (on_batch_acks-success tasks acks _ sat counted (after_wait-success _ sat h)) [
      | inl before ↦ elim (none_yet sat before) [ ]
      | inr supported ↦ supported
    ]

finish_all-All : (finished : Dict Bool) → All (λ (sat, done). done ≡ true) (finish_all finished)
unfolding finish_all
finish_all-All [] = tt
finish_all-All ((sat, done) ∷ finished) = (refl, finish_all-All finished)

all_finished-All :
    (finished : Dict Bool)
    → all_finished finished ≡ true
    → All (λ (sat, done). done ≡ true) finished
unfolding all_finished
all_finished-All [] h = tt
all_finished-All ((sat, true) ∷ finished) h = (refl, all_finished-All finished h)
all_finished-All ((sat, false) ∷ finished) h = cc

-- When the wait of run is over, every satellite that it tracked is marked finished, whichever
-- acknowledgements arrived.
pub run_statuses-finished :
    (ids : List Text) (tasks : Dict (List TaskSegment)) (acks : List (Option BatchTaskAssignAck))
    → All (λ (sat, done). done ≡ true) (run_statuses ids tasks acks).finished
unfolding run_statuses after_wait
run_statuses-finished ids tasks acks =
    let t = on_batch_acks acks (track_all tasks ids no_statuses) in
    elim (Bool-cases (all_finished t.finished)) [
      | inl all ↦ rw all (all_finished-All t.finished all)
      | inr pending ↦ rw pending (finish_all-All t.finished)
    ]
