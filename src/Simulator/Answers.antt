-- ===== src/Simulator/Answers.antt =====
-- src/executor/satellite_simulator.cpp: what the acknowledgement of a batch says.
use mathlib.Core.List.{append_assoc}
use actuator_final.Prelude.{
  ◌≤◌, ℕ, suc, ◌+◌, Bool, true, false, ◌&&◌, List, [], ◌∷◌, Option, some, ◌≡◌, ◌↔◌, refl, ◌∙◌,
  arith, length, length-append, ◌++◌, append-nil, sym,
}
use actuator_final.Text.{Text}
use actuator_final.Value.{Floating}
use actuator_final.Behavior.{BehaviorNode}
use actuator_final.Messages.{TaskAssignMessage, BatchTaskAssignMessage, BatchTaskAssignAck}
use actuator_final.Simulator.{
  Simulator, add_outcome, empty_ack, execute_single_task, run_tasks, handle_batch_task_assign,
  task_to_segment,
}

-- How an acknowledgement stands after `n` more tasks, all of them successful or not.
record Adds (n : ℕ) (ack last : BatchTaskAssignAck) (all all' : Bool) : Type 0 where
  satellite : last.satellite_id ≡ ack.satellite_id
  message : last.message_id ≡ ack.message_id
  counts :
      length last.accepted_task_ids + length last.rejected_task_ids
      ≡ length ack.accepted_task_ids + length ack.rejected_task_ids + n
  all_good :
      (all' ≡ true) → (all ≡ true) × (length last.rejected_task_ids ≡ length ack.rejected_task_ids)
  none_bad : (length last.rejected_task_ids ≡ length ack.rejected_task_ids) → all' ≡ all
  grows : length ack.rejected_task_ids ≤ length last.rejected_task_ids

Adds-one :
    (id : Text) (ok all : Bool) (ack : BatchTaskAssignAck)
    → Adds 1 ack (add_outcome id ok ack) all (all && ok)
unfolding add_outcome
Adds-one id true all ack = record {
  satellite = refl;
  message = refl;
  counts = omega (arith, length-append ack.accepted_task_ids (id ∷ []));
  all_good = ground arith;
  none_bad = λ e. ground arith;
  grows = omega arith;
}
Adds-one id false all ack = record {
  satellite = refl;
  message = refl;
  counts = omega (arith, length-append ack.rejected_task_ids (id ∷ []));
  all_good = ground arith;
  none_bad = λ e.
      let absurd : ⊥ = omega (arith, e, length-append ack.rejected_task_ids (id ∷ [])) in
      elim absurd [ ];
  grows = omega (arith, length-append ack.rejected_task_ids (id ∷ []));
}

Adds-trans :
    (n m : ℕ) {k : ℕ} {a b c : BatchTaskAssignAck} {x y z : Bool}
    → k ≡ n + m
    → Adds n a b x y
    → Adds m b c y z
    → Adds k a c x z
Adds-trans n m total p q = record {
  satellite = q.satellite ∙ p.satellite;
  message = q.message ∙ p.message;
  counts = omega (arith, total, p.counts, q.counts);
  all_good = λ e. let (y, r) = q.all_good e in let (x, r') = p.all_good y in (x, r ∙ r');
  none_bad = λ e.
      q.none_bad (omega (arith, e, p.grows, q.grows))
      ∙ p.none_bad (omega (arith, e, p.grows, q.grows));
  grows = omega (arith, p.grows, q.grows);
}

-- The ids of the tasks that ended well, or badly.
abbrev pub ids_where : Bool → List Bool → List TaskAssignMessage → List Text
ids_where wanted [] tasks = []
ids_where wanted (ok ∷ oks) [] = []
ids_where true (true ∷ oks) (t ∷ tasks) = t.task_id ∷ ids_where true oks tasks
ids_where true (false ∷ oks) (t ∷ tasks) = ids_where true oks tasks
ids_where false (true ∷ oks) (t ∷ tasks) = ids_where false oks tasks
ids_where false (false ∷ oks) (t ∷ tasks) = t.task_id ∷ ids_where false oks tasks

add_outcome-lists :
    (t : TaskAssignMessage) (ok : Bool) (ack : BatchTaskAssignAck) (oks : List Bool)
    (tasks : List TaskAssignMessage)
    → let next = add_outcome t.task_id ok ack in
      (next.accepted_task_ids ++ ids_where true oks tasks
        ≡ ack.accepted_task_ids ++ ids_where true (ok ∷ oks) (t ∷ tasks))
      × (next.rejected_task_ids ++ ids_where false oks tasks
          ≡ ack.rejected_task_ids ++ ids_where false (ok ∷ oks) (t ∷ tasks))
unfolding add_outcome
add_outcome-lists t true ack oks tasks =
    (append_assoc ack.accepted_task_ids (t.task_id ∷ []) (ids_where true oks tasks), refl)
add_outcome-lists t false ack oks tasks =
    (refl, append_assoc ack.rejected_task_ids (t.task_id ∷ []) (ids_where false oks tasks))

module _ {F : Type 0} ⦃fl : Floating F⦄ (load : Text → Option BehaviorNode) where
  Adds-run_tasks :
      (tasks : List TaskAssignMessage) (completed total : ℕ) (ack : BatchTaskAssignAck) (all : Bool)
      (sim : Simulator F)
      → let r = run_tasks load tasks completed total ack all sim in
        Adds (length tasks) ack r.1 all r.2
  unfolding run_tasks
  Adds-run_tasks [] completed total ack all sim = record {
    satellite = refl;
    message = refl;
    counts = omega arith;
    all_good = λ e. (e, refl);
    none_bad = λ e. refl;
    grows = omega arith;
  }
  Adds-run_tasks (task_msg ∷ tasks) completed total ack all sim =
      let task = task_to_segment task_msg sim.satellite_id in
      let one = execute_single_task load task sim in
      Adds-trans 1 (length tasks) (omega arith) (Adds-one task.task_id one.0 all ack) (
        Adds-run_tasks tasks (suc completed) total (add_outcome task.task_id one.0 ack)
          (all && one.0) one.1)

  -- How the tasks end, one after the other.
  abbrev pub outcomes : List TaskAssignMessage → Simulator F → List Bool
  outcomes [] sim = []
  outcomes (task_msg ∷ tasks) sim =
      let one = execute_single_task load (task_to_segment task_msg sim.satellite_id) sim in
      one.0 ∷ outcomes tasks one.1

  -- The acknowledgement lists behind its former ids those of the tasks that ended well as accepted, and
  -- the others as rejected.
  run_tasks-lists :
      (tasks : List TaskAssignMessage) (completed total : ℕ) (ack : BatchTaskAssignAck) (all : Bool)
      (sim : Simulator F)
      → let last = (run_tasks load tasks completed total ack all sim).1 in
        (last.accepted_task_ids
          ≡ ack.accepted_task_ids ++ ids_where true (outcomes tasks sim) tasks)
        × (last.rejected_task_ids
            ≡ ack.rejected_task_ids ++ ids_where false (outcomes tasks sim) tasks)
  unfolding run_tasks task_to_segment
  run_tasks-lists [] completed total ack all sim =
      (sym (append-nil ack.accepted_task_ids), sym (append-nil ack.rejected_task_ids))
  run_tasks-lists (task_msg ∷ tasks) completed total ack all sim =
      let one = execute_single_task load (task_to_segment task_msg sim.satellite_id) sim in
      let rest =
        run_tasks-lists tasks (suc completed) total (add_outcome task_msg.task_id one.0 ack)
          (all && one.0) one.1 in
      let here = add_outcome-lists task_msg one.0 ack (outcomes tasks one.1) tasks in
      (rest.0 ∙ here.0, rest.1 ∙ here.1)

  -- The acknowledgement of a batch that could be parsed carries the batch's message id and the
  -- satellite's id. It lists, in the order of the batch, the ids of the tasks that ended well as accepted
  -- and those of all others as rejected, so each task once, and accepts the batch just if it
  -- rejects no task.
  pub acknowledgement_accounts :
      (batch : BatchTaskAssignMessage) (now : ℕ) (sim : Simulator F)
      → let ack = (handle_batch_task_assign load (some batch) now sim).1 in
        let ended = outcomes batch.scheduled_tasks sim in
        (ack.satellite_id ≡ sim.satellite_id)
        × (ack.message_id ≡ batch.message_id)
        × (ack.accepted_task_ids ≡ ids_where true ended batch.scheduled_tasks)
        × (ack.rejected_task_ids ≡ ids_where false ended batch.scheduled_tasks)
        × (length ack.accepted_task_ids + length ack.rejected_task_ids
            ≡ length batch.scheduled_tasks)
        × ((ack.accepted ≡ true) ↔ (length ack.rejected_task_ids ≡ 0))
  unfolding handle_batch_task_assign empty_ack
  acknowledgement_accounts batch now sim =
      let begun = record (empty_ack sim.satellite_id now) { message_id = batch.message_id } in
      let total = length batch.scheduled_tasks in
      let a = Adds-run_tasks batch.scheduled_tasks 0 total begun true sim in
      let (accepted, rejected) = run_tasks-lists batch.scheduled_tasks 0 total begun true sim in
      (
        a.satellite,
        a.message,
        accepted,
        rejected,
        omega (arith, a.counts),
        (λ e. (a.all_good e).1, λ e. a.none_bad e),
      )
