-- ===== src/Simulator/Delivery.antt =====
-- src/coordinator/coordinator.cpp and src/executor/satellite_simulator.cpp together: a batch goes to a satellite's
-- simulator, and its acknowledgement back to run.
use actuator_final.Prelude.{
  ◌<◌, ℕ, suc, ◌+◌, Bool, true, List, [], ◌∷◌, ◌++◌, Option, some, ◌≡◌, ◌↔◌, refl, sym, ap, ◌∙◌,
  arith, length, map, All,
}
use actuator_final.Prelude.Int.{ℤ}
use actuator_final.Text.{Text}
use actuator_final.Dict.{Dict, lookup}
use actuator_final.Value.{Floating}
use actuator_final.Behavior.{BehaviorNode, TaskSegment}
use actuator_final.Messages.{BatchTaskAssignAck}
use actuator_final.Coordinator.{task_assignment, batch_assignment, satellite_success, run_statuses}
use actuator_final.Coordinator.Outcome.{Some}
use actuator_final.Coordinator.Acceptance.{NotOf, run_statuses-answered}
use actuator_final.Simulator.{Simulator, handle_batch_task_assign}
use actuator_final.Simulator.Answers.{acknowledgement_accounts}

length-assignments :
    (stale : ℤ) (tasks : List TaskSegment)
    → length (map (task_assignment stale) tasks) ≡ length tasks
length-assignments stale [] = refl
length-assignments stale (task ∷ tasks) = ap (λ n. suc n) (length-assignments stale tasks)

satellite_success-exact :
    (n : ℕ) (ack : BatchTaskAssignAck)
    → length ack.accepted_task_ids + length ack.rejected_task_ids ≡ n
    → satellite_success n ack ≡ ack.accepted
unfolding satellite_success
satellite_success-exact n ack e = ground (arith, e)

some-true : (b : Bool) → (some b ≡ some true) ↔ (b ≡ true)
some-true b = (λ e. cc, λ e. ap (λ c. some c) e)

module _ {F : Type 0} ⦃fl : Floating F⦄ (load : Text → Option BehaviorNode) where
  -- A satellite of the schedule that has tasks and answers the batch that was made of them is counted
  -- as successful just if its simulator's acknowledgement rejects no task, provided that no other
  -- acknowledgement of its own that could be parsed comes later.
  pub delivered_batch :
      (ids : List Text) (tasks : Dict (List TaskSegment)) (ts : List TaskSegment) (node_id : Text)
      (stale : ℤ) (sent now : ℕ) (sim : Simulator F)
      (before later : List (Option BatchTaskAssignAck))
      → Some (λ id. id ≡ sim.satellite_id) ids
      → lookup sim.satellite_id tasks ≡ some ts
      → 0 < length ts
      → All (NotOf sim.satellite_id) later
      → let batch = batch_assignment stale sim.satellite_id node_id ts sent in
        let ack = (handle_batch_task_assign load (some batch) now sim).1 in
        (lookup sim.satellite_id (run_statuses ids tasks (before ++ some ack ∷ later)).results
          ≡ some true)
        ↔ (length ack.rejected_task_ids ≡ 0)
  unfolding batch_assignment
  delivered_batch ids tasks ts node_id stale sent now sim before later m e pos others =
      let batch = batch_assignment stale sim.satellite_id node_id ts sent in
      let ack = (handle_batch_task_assign load (some batch) now sim).1 in
      let (own, message, accepted, rejected, counts, accepts) =
        acknowledgement_accounts load batch now sim in
      let result =
        run_statuses-answered ids tasks sim.satellite_id ts before later ack m e pos own others
        ∙ ap (λ b. some b)
            (satellite_success-exact (length ts) ack (counts ∙ length-assignments stale ts)) in
      (
        λ success. accepts.0 ((some-true ack.accepted).0 (sym result ∙ success)),
        λ good. result ∙ (some-true ack.accepted).1 (accepts.1 good),
      )
