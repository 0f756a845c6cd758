-- ===== src/Coordinator/Tracking.antt =====
-- src/coordinator/coordinator.cpp: what run enters for the satellites before it distributes the tasks, and
-- that later steps keep it in order.
use actuator_final.Prelude.{
  ◌<◌, true, false, List, [], ◌∷◌, Option, none, some, ◌≡◌, inl, inr, refl, sym, ◌∙◌, arith, length,
  Bool-cases, Option-cases, ap, subst,
}
use actuator_final.Text.{Text, text_eq, text_eq_iff, text_eq_refl}
use actuator_final.Dict.{Dict, lookup, lookup-insert}
use actuator_final.Dict.Sorted.{IsSorted, insert-IsSorted}
use actuator_final.Behavior.{TaskSegment}
use actuator_final.Messages.{BatchTaskAssignAck}
use actuator_final.Coordinator.{TaskStatuses, track, track_all, on_batch_ack, on_batch_acks}
use actuator_final.Coordinator.Outcome.{Some}

-- The finished flags are kept in the order of the satellites.
pub track-IsSorted :
    (sat : Text) (found : Option (List TaskSegment)) (t : TaskStatuses)
    → IsSorted t.finished
    → IsSorted (track sat found t).finished
unfolding track
track-IsSorted sat none t s = s
track-IsSorted sat (some []) t s = s
track-IsSorted sat (some (task ∷ ts)) t s = insert-IsSorted sat false t.finished s

pub track_all-IsSorted :
    (tasks : Dict (List TaskSegment)) (ids : List Text) (t : TaskStatuses)
    → IsSorted t.finished
    → IsSorted (track_all tasks ids t).finished
unfolding track_all
track_all-IsSorted tasks [] t s = s
track_all-IsSorted tasks (sat ∷ ids) t s =
    track_all-IsSorted tasks ids _ (track-IsSorted sat (lookup sat tasks) t s)

pub on_batch_ack-IsSorted :
    (a : Option BatchTaskAssignAck) (t : TaskStatuses)
    → IsSorted t.finished
    → IsSorted (on_batch_ack a t).finished
unfolding on_batch_ack
on_batch_ack-IsSorted none t s = s
on_batch_ack-IsSorted (some ack) t s =
    let marked = insert-IsSorted ack.satellite_id true t.finished s in
    elim (Option-cases (lookup ack.satellite_id t.expected_counts)) [
      | inl untracked ↦ ground (arith, untracked)
      | inr (n, tracked) ↦ ground (arith, tracked)
    ]

pub on_batch_acks-IsSorted :
    (acks : List (Option BatchTaskAssignAck)) (t : TaskStatuses)
    → IsSorted t.finished
    → IsSorted (on_batch_acks acks t).finished
unfolding on_batch_acks
on_batch_acks-IsSorted [] t s = s
on_batch_acks-IsSorted (a ∷ acks) t s =
    on_batch_acks-IsSorted acks (on_batch_ack a t) (on_batch_ack-IsSorted a t s)

-- Once its count is set up, a satellite keeps it.
pub counted-track :
    (tasks : Dict (List TaskSegment)) (sat j : Text) (ts : List TaskSegment)
    (found : Option (List TaskSegment)) (t : TaskStatuses)
    → lookup sat tasks ≡ some ts
    → lookup j tasks ≡ found
    → lookup sat t.expected_counts ≡ some (length ts)
    → lookup sat (track j found t).expected_counts ≡ some (length ts)
unfolding track
counted-track tasks sat j ts none t e f h = h
counted-track tasks sat j ts (some []) t e f h = h
counted-track tasks sat j ts (some (task ∷ us)) t e f h = elim (Bool-cases (text_eq j sat)) [
  | inl same ↦
      let is_sat : j ≡ sat = ground (arith, same, text_eq_iff j sat) in
      let agree : some (task ∷ us) ≡ some ts = sym f ∙ (ap (λ k. lookup k tasks) is_sat ∙ e) in
      let counts : some (length (task ∷ us)) ≡ some (length ts) =
        ap (λ (o : Option (List TaskSegment)). elim o [ none ↦ none | some l ↦ some (length l) ])
          agree in
      ground (arith, same, counts, lookup-insert j sat (length (task ∷ us)) t.expected_counts)
  | inr other ↦ ground (arith, h, other, lookup-insert j sat (length (task ∷ us)) t.expected_counts)
]

pub counted-track_all :
    (tasks : Dict (List TaskSegment)) (ids : List Text) (sat : Text) (ts : List TaskSegment)
    (t : TaskStatuses)
    → lookup sat tasks ≡ some ts
    → lookup sat t.expected_counts ≡ some (length ts)
    → lookup sat (track_all tasks ids t).expected_counts ≡ some (length ts)
unfolding track_all
counted-track_all tasks [] sat ts t e h = h
counted-track_all tasks (j ∷ ids) sat ts t e h =
    counted-track_all tasks ids sat ts _ e
      (counted-track tasks sat j ts (lookup j tasks) t e refl h)

pub track-counts :
    (sat : Text) (ts : List TaskSegment) (t : TaskStatuses)
    → 0 < length ts
    → lookup sat (track sat (some ts) t).expected_counts ≡ some (length ts)
unfolding track
track-counts sat [] t pos = elim pos [ ]
track-counts sat (task ∷ ts) t pos =
    ground (arith, text_eq_refl sat, lookup-insert sat sat (length (task ∷ ts)) t.expected_counts)

pub track_all-counts :
    (tasks : Dict (List TaskSegment)) (ids : List Text) (sat : Text) (ts : List TaskSegment)
    (t : TaskStatuses)
    → Some (λ id. id ≡ sat) ids
    → lookup sat tasks ≡ some ts
    → 0 < length ts
    → lookup sat (track_all tasks ids t).expected_counts ≡ some (length ts)
unfolding track_all
track_all-counts tasks [] sat ts t m e pos = elim m [ ]
track_all-counts tasks (id ∷ ids) sat ts t (inr m) e pos =
    track_all-counts tasks ids sat ts _ m e pos
track_all-counts tasks (id ∷ ids) sat ts t (inl is_sat) e pos =
    counted-track_all tasks ids sat ts _ e (
      subst (λ k. lookup sat (track k (lookup k tasks) t).expected_counts ≡ some (length ts))
        (sym is_sat)
        (subst (λ f. lookup sat (track sat f t).expected_counts ≡ some (length ts)) (sym e)
          (track-counts sat ts t pos)))
