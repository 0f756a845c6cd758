-- ===== src/Coordinator/Unanswered.antt =====
-- src/coordinator/coordinator.cpp: what run has recorded before any acknowledgement, and what the end of the
-- wait adds: no success.
use actuator_final.Prelude.{
  ◌<◌, ℕ, Bool, true, false, List, [], ◌∷◌, Option, none, some, ◌≡◌, inl, inr, refl, sym, ◌∙◌,
  arith, if◌then◌else◌, length, Bool-cases, ap,
}
use actuator_final.Text.{Text, text_eq, text_eq_iff}
use actuator_final.Dict.{Dict, lookup, insert, lookup-insert}
use actuator_final.Behavior.{TaskSegment}
use actuator_final.Coordinator.{
  TaskStatuses, track, track_all, all_finished, fail_unfinished, after_wait,
}

-- The counts that were set up are those of the schedule.
abbrev pub Counts : Dict (List TaskSegment) → TaskStatuses → Type 0
Counts tasks t =
    (sat : Text) (n : ℕ)
    → lookup sat t.expected_counts ≡ some n
    → (ts : List TaskSegment) × (lookup sat tasks ≡ some ts) × (n ≡ length ts) × (0 < n)

pub Counts-track :
    (tasks : Dict (List TaskSegment)) (sat : Text) (found : Option (List TaskSegment))
    (t : TaskStatuses)
    → lookup sat tasks ≡ found
    → Counts tasks t
    → Counts tasks (track sat found t)
unfolding track
Counts-track tasks sat none t e c = c
Counts-track tasks sat (some []) t e c = c
Counts-track tasks sat (some (task ∷ ts)) t e c = λ j n h. elim (Bool-cases (text_eq sat j)) [
  | inl same ↦
      let is_sat : sat ≡ j = ground (arith, same, text_eq_iff sat j) in
      (
        task ∷ ts,
        ap (λ k. lookup k tasks) (sym is_sat) ∙ e,
        ground (arith, h, same, lookup-insert sat j (length (task ∷ ts)) t.expected_counts),
        ground (arith, h, same, lookup-insert sat j (length (task ∷ ts)) t.expected_counts),
      )
  | inr other ↦
      c j n (ground (arith, h, other, lookup-insert sat j (length (task ∷ ts)) t.expected_counts))
]

pub Counts-track_all :
    (tasks : Dict (List TaskSegment)) (ids : List Text) (t : TaskStatuses)
    → Counts tasks t
    → Counts tasks (track_all tasks ids t)
unfolding track_all
Counts-track_all tasks [] t c = c
Counts-track_all tasks (sat ∷ ids) t c =
    Counts-track_all tasks ids _ (Counts-track tasks sat (lookup sat tasks) t refl c)

-- No result is a success yet.
abbrev pub NoSuccess : TaskStatuses → Type 0
NoSuccess t = (sat : Text) → lookup sat t.results ≡ some true → ⊥

pub NoSuccess-track :
    (sat : Text) (found : Option (List TaskSegment)) (t : TaskStatuses)
    → NoSuccess t
    → NoSuccess (track sat found t)
unfolding track
NoSuccess-track sat none t c = c
NoSuccess-track sat (some []) t c = c
NoSuccess-track sat (some (task ∷ ts)) t c =
    λ j h. c j (ground (arith, h, lookup-insert sat j false t.results))

pub NoSuccess-track_all :
    (tasks : Dict (List TaskSegment)) (ids : List Text) (t : TaskStatuses)
    → NoSuccess t
    → NoSuccess (track_all tasks ids t)
unfolding track_all
NoSuccess-track_all tasks [] t c = c
NoSuccess-track_all tasks (sat ∷ ids) t c =
    NoSuccess-track_all tasks ids _ (NoSuccess-track sat (lookup sat tasks) t c)

pub fail_unfinished-success :
    (finished results : Dict Bool) (sat : Text)
    → lookup sat (fail_unfinished finished results) ≡ some true
    → lookup sat results ≡ some true
unfolding fail_unfinished
fail_unfinished-success [] results sat h = h
fail_unfinished-success ((j, done) ∷ finished) results sat h =
    let before =
      fail_unfinished-success finished (if done then results else insert j false results) sat h in
    ground (arith, before, lookup-insert j sat false results)

pub after_wait-success :
    (t : TaskStatuses) (sat : Text)
    → lookup sat (after_wait t).results ≡ some true
    → lookup sat t.results ≡ some true
unfolding after_wait
after_wait-success t sat h = elim (Bool-cases (all_finished t.finished)) [
  | inl all ↦ ground (arith, all, h)
  | inr pending ↦ fail_unfinished-success t.finished t.results sat (ground (arith, pending, h))
]
