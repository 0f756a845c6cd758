-- ===== src/Coordinator/Acceptance.antt =====
-- src/coordinator/coordinator.cpp: an acknowledgement that arrives in time decides the result.
use mathlib.Core.Option.{none-ne-some}
use actuator_final.Prelude.{
  ◌<◌, ℕ, Bool, true, false, List, [], ◌∷◌, ◌++◌, Option, none, some, ◌≡◌, inl, inr, refl, sym, ◌∙◌,
  arith, if_true, if_false, length, All, Bool-cases, Option-cases, ap, subst,
}
use actuator_final.Text.{Text, text_eq, text_eq_iff, text_eq_refl}
use actuator_final.Dict.{Dict, lookup, insert, lookup-insert}
use actuator_final.Dict.Sorted.{IsSorted, lookup-Before}
use actuator_final.Behavior.{TaskSegment}
use actuator_final.Messages.{BatchTaskAssignAck}
use actuator_final.Coordinator.{
  TaskStatuses, no_statuses, track_all, satellite_success, on_batch_ack, on_batch_acks,
  all_finished, fail_unfinished, after_wait, run_statuses,
}
use actuator_final.Coordinator.Outcome.{Some, expected-on_batch_ack}
use actuator_final.Coordinator.Tracking.{
  track_all-IsSorted, on_batch_ack-IsSorted, on_batch_acks-IsSorted, track_all-counts,
}

-- An acknowledgement that is not the satellite's own, or not readable.
abbrev pub NotOf : Text → Option BatchTaskAssignAck → Type 0
NotOf sat none = Unit
NotOf sat (some ack) = text_eq ack.satellite_id sat ≡ false

-- The satellite has answered, and `success` is what its answer came to.
record Answered (sat : Text) (success : Bool) (t : TaskStatuses) : Type 0 where
  result : lookup sat t.results ≡ some success
  flag : lookup sat t.finished ≡ some true

on_batch_ack-Answered :
    (sat : Text) (n : ℕ) (ack : BatchTaskAssignAck) (t : TaskStatuses)
    → lookup sat t.expected_counts ≡ some n
    → ack.satellite_id ≡ sat
    → Answered sat (satellite_success n ack) (on_batch_ack (some ack) t)
unfolding on_batch_ack
on_batch_ack-Answered sat n ack t e is_sat =
    let own = ap (λ k. lookup k t.expected_counts) is_sat ∙ e in
    let same : text_eq ack.satellite_id sat ≡ true =
      subst (λ k. text_eq ack.satellite_id k ≡ true) is_sat (text_eq_refl ack.satellite_id) in
    record {
      result = ground (
        arith,
        own,
        same,
        lookup-insert ack.satellite_id sat (satellite_success n ack) t.results,
      );
      flag = ground (arith, own, same, lookup-insert ack.satellite_id sat true t.finished);
    }

NotOf-Answered :
    (sat : Text) {success : Bool} (a : Option BatchTaskAssignAck) (t : TaskStatuses)
    → NotOf sat a
    → Answered sat success t
    → Answered sat success (on_batch_ack a t)
unfolding on_batch_ack
NotOf-Answered sat none t other h = h
NotOf-Answered sat (some ack) t other h =
    elim (Option-cases (lookup ack.satellite_id t.expected_counts)) [
      | inl untracked ↦ record {
        result = ground (arith, untracked, h.result);
        flag = ground (arith, untracked, h.flag);
      }
      | inr (n, tracked) ↦ record {
        result = ground (
          arith,
          tracked,
          other,
          h.result,
          lookup-insert ack.satellite_id sat (satellite_success n ack) t.results,
        );
        flag =
            ground
              (arith, tracked, other, h.flag, lookup-insert ack.satellite_id sat true t.finished);
      }
    ]

later-Answered :
    (sat : Text) {success : Bool} (acks : List (Option BatchTaskAssignAck)) (t : TaskStatuses)
    → All (NotOf sat) acks
    → Answered sat success t
    → Answered sat success (on_batch_acks acks t)
unfolding on_batch_acks
later-Answered sat [] t others h = h
later-Answered sat (a ∷ acks) t others h =
    later-Answered sat acks _ others.1 (NotOf-Answered sat a t others.0 h)

expected-on_batch_acks :
    (acks : List (Option BatchTaskAssignAck)) (t : TaskStatuses)
    → (on_batch_acks acks t).expected_counts ≡ t.expected_counts
unfolding on_batch_acks
expected-on_batch_acks [] t = refl
expected-on_batch_acks (a ∷ acks) t =
    expected-on_batch_acks acks (on_batch_ack a t) ∙ expected-on_batch_ack a t

on_batch_acks-append :
    (before later : List (Option BatchTaskAssignAck)) (t : TaskStatuses)
    → on_batch_acks (before ++ later) t ≡ on_batch_acks later (on_batch_acks before t)
unfolding on_batch_acks
on_batch_acks-append [] later t = refl
on_batch_acks-append (a ∷ before) later t = on_batch_acks-append before later (on_batch_ack a t)

-- Only flags that are not set lead to a failure at the end.
fail_unfinished-keeps :
    (finished results : Dict Bool) (sat : Text)
    → IsSorted finished
    → (lookup sat finished ≡ some false → ⊥)
    → lookup sat (fail_unfinished finished results) ≡ lookup sat results
unfolding fail_unfinished lookup
fail_unfinished-keeps [] results sat s h = refl
fail_unfinished-keeps ((j, true) ∷ finished) results sat s h = elim (Bool-cases (text_eq j sat)) [
  | inl same ↦
      let is_sat : j ≡ sat = ground (arith, same, text_eq_iff j sat) in
      let gone : lookup sat finished ≡ none =
        subst (λ k. lookup k finished ≡ none) is_sat (lookup-Before j finished s.0) in
      fail_unfinished-keeps finished results sat s.1
        λ e. elim (none-ne-some false (sym gone ∙ e)) [ ]
  | inr other ↦ fail_unfinished-keeps finished results sat s.1 λ e. h (if_false _ _ other ∙ e)
]
fail_unfinished-keeps ((j, false) ∷ finished) results sat s h = elim (Bool-cases (text_eq j sat)) [
  | inl same ↦ elim (h (if_true _ _ same)) [ ]
  | inr other ↦
      fail_unfinished-keeps finished (insert j false results) sat s.1
        (λ e. h (if_false _ _ other ∙ e))
      ∙ (lookup-insert j sat false results ∙ if_false _ _ other)
]

true-ne-false : some true ≡ some false → ⊥
true-ne-false e = cc

after_wait-result :
    (sat : Text) {success : Bool} (t : TaskStatuses)
    → IsSorted t.finished
    → Answered sat success t
    → lookup sat (after_wait t).results ≡ some success
unfolding after_wait
after_wait-result sat t s h =
    let kept =
      fail_unfinished-keeps t.finished t.results sat s
        λ e. elim (true-ne-false (sym h.flag ∙ e)) [ ] in
    elim (Bool-cases (all_finished t.finished)) [
      | inl all ↦ rw all h.result
      | inr pending ↦ rw pending (kept ∙ h.result)
    ]

-- For a satellite of the schedule that has tasks, run ends with the verdict on the last of its own
-- acknowledgements that could be parsed: neither other satellites, nor the earlier ones, nor a timeout
-- of others change it.
pub run_statuses-answered :
    (ids : List Text) (tasks : Dict (List TaskSegment)) (sat : Text) (ts : List TaskSegment)
    (before later : List (Option BatchTaskAssignAck)) (ack : BatchTaskAssignAck)
    → Some (λ id. id ≡ sat) ids
    → lookup sat tasks ≡ some ts
    → 0 < length ts
    → ack.satellite_id ≡ sat
    → All (NotOf sat) later
    → lookup sat (run_statuses ids tasks (before ++ some ack ∷ later)).results
      ≡ some (satellite_success (length ts) ack)
unfolding run_statuses on_batch_acks on_batch_ack
run_statuses-answered ids tasks sat ts before later ack m e pos own others =
    let tracked = track_all tasks ids no_statuses in
    let t = on_batch_acks before tracked in
    let counts =
      ap (lookup sat) (expected-on_batch_acks before tracked)
      ∙ track_all-counts tasks ids sat ts no_statuses m e pos in
    let accepted = on_batch_ack-Answered sat (length ts) ack t counts own in
    let ended = later-Answered sat later (on_batch_ack (some ack) t) others accepted in
    let sorted = on_batch_acks-IsSorted later (on_batch_ack (some ack) t) (
      on_batch_ack-IsSorted (some ack) t
        (on_batch_acks-IsSorted before tracked (track_all-IsSorted tasks ids no_statuses tt))) in
    subst (λ u. lookup sat (after_wait u).results ≡ some (satellite_success (length ts) ack))
      (sym (on_batch_acks-append before (some ack ∷ later) tracked))
      (after_wait-result sat (on_batch_acks later (on_batch_ack (some ack) t)) sorted ended)
