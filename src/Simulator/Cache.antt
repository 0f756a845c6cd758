-- ===== src/Simulator/Cache.antt =====
-- src/executor/satellite_simulator.cpp: behavior_cache_ of executeSingleTask.
use actuator_final.Prelude.{
  ℕ, suc, Bool, true, false, ◌&&◌, List, [], ◌∷◌, ◌++◌, Option, none, some, ◌≡◌, refl, sym, ap, ◌∙◌,
  if_true, if_false, subst, arith, length, Option-cases, Bool-cases, inl, inr,
}
use actuator_final.Text.{Text, text_eq, text_eq_iff}
use actuator_final.Dict.{Dict, lookup, insert, lookup-insert}
use actuator_final.Value.{Floating}
use actuator_final.Behavior.{BehaviorNode, TaskSegment}
use actuator_final.Messages.{TaskAssignMessage, BatchTaskAssignMessage, BatchTaskAssignAck}
use actuator_final.Simulator.{
  Simulator, Outgoing, started, ended, acknowledge, add_outcome, empty_ack, task_to_segment,
  run_task, execute_single_task, run_tasks, handle_batch_task_assign,
}

module _ (load : Text → Option BehaviorNode) where
  -- A cache that holds nothing but what is loaded.
  abbrev pub IsCache : Dict BehaviorNode → Type 0
  IsCache cache = (ref : Text) (b : BehaviorNode) → lookup ref cache ≡ some b → load ref ≡ some b

  pub IsCache-empty : IsCache []
  unfolding lookup
  IsCache-empty ref b found = ground arith

  pub IsCache-insert :
      (ref : Text) (b : BehaviorNode) (cache : Dict BehaviorNode)
      → load ref ≡ some b
      → IsCache cache
      → IsCache (insert ref b cache)
  IsCache-insert ref b cache loaded holds j c found = elim (Bool-cases (text_eq ref j)) [
    | inl same ↦
        ap load (sym ((text_eq_iff ref j).0 same))
        ∙ loaded
        ∙ sym (lookup-insert ref j b cache ∙ if_true _ _ same)
        ∙ found
    | inr other ↦ holds j c (sym (lookup-insert ref j b cache ∙ if_false _ _ other) ∙ found)
  ]

module _ {F : Type 0} where
  abbrev with_cache : Dict BehaviorNode → Simulator F → Simulator F
  with_cache cache sim = record sim { behavior_cache = cache }

module _ {F : Type 0} ⦃fl : Floating F⦄ (load : Text → Option BehaviorNode) where
  -- The same with no cache: each behaviour is loaded.
  abbrev loaded_task : TaskSegment → Option BehaviorNode → Simulator F → Bool × Simulator F
  loaded_task task none sim = (false, sim)
  loaded_task task (some behavior) sim = run_task load task behavior sim

  -- What executing a task with a cache amounts to.
  record IsLoaded (task : TaskSegment) (sim : Simulator F) (r : Bool × Simulator F) : Type 0 where
    cache : Dict BehaviorNode
    is_cache : IsCache load cache
    same : r ≡ (
      (loaded_task task (load task.behavior_ref) sim).0,
      with_cache cache (loaded_task task (load task.behavior_ref) sim).1,
    )

  IsLoaded-execute :
      (task : TaskSegment) (sim : Simulator F)
      → IsCache load sim.behavior_cache
      → IsLoaded task sim (execute_single_task load task sim)
  unfolding execute_single_task run_task
  IsLoaded-execute task sim holds =
      elim (Option-cases (lookup task.behavior_ref sim.behavior_cache)) [
        | inr (b, found) ↦ record {
          cache = sim.behavior_cache;
          is_cache = holds;
          same = rw (execute_single_task, found, holds task.behavior_ref b found) refl;
        }
        | inl missing ↦ elim (Option-cases (load task.behavior_ref)) [
          | inl unknown ↦ record {
            cache = sim.behavior_cache;
            is_cache = holds;
            same = rw (execute_single_task, missing, unknown) refl;
          }
          | inr (b, known) ↦ record {
            cache = insert task.behavior_ref b sim.behavior_cache;
            is_cache = IsCache-insert load task.behavior_ref b sim.behavior_cache known holds;
            same = rw (execute_single_task, missing, known) refl;
          }
        ]
      ]

  -- Two runs over the same tasks that differ in their caches only.
  record IsSameRun (r r' : List Outgoing × BatchTaskAssignAck × Bool × Simulator F) : Type 0 where
    sent : r.0 ≡ r'.0
    ack : r.1 ≡ r'.1
    success : r.2 ≡ r'.2
    state : with_cache [] r.3 ≡ with_cache [] r'.3
    is_cache : IsCache load r.3.behavior_cache

  loaded_task-with_cache :
      (task : TaskSegment) (o : Option BehaviorNode) (cache : Dict BehaviorNode) (sim : Simulator F)
      → loaded_task task o (with_cache cache sim)
        ≡ ((loaded_task task o sim).0, with_cache cache (loaded_task task o sim).1)
  unfolding run_task
  loaded_task-with_cache task none cache sim = refl
  loaded_task-with_cache task (some behavior) cache sim = refl

  -- The rest of the loop, behind the execution of its first task.
  abbrev after_task :
      TaskSegment
      → List TaskAssignMessage
      → ℕ
      → ℕ
      → BatchTaskAssignAck
      → Bool
      → Bool × Simulator F
      → List Outgoing × BatchTaskAssignAck × Bool × Simulator F
  after_task task tasks completed total ack all_success (task_ok, next) =
      let (sent, last_ack, last_success, last_sim) =
        run_tasks load tasks (suc completed) total (add_outcome task.task_id task_ok ack)
          (all_success && task_ok) next in
      (started task completed total ∷ ended task task_ok ∷ sent, last_ack, last_success, last_sim)

  run_tasks-cache :
      (tasks : List TaskAssignMessage) (completed total : ℕ) (ack : BatchTaskAssignAck)
      (all_success : Bool) (sim : Simulator F) (cache : Dict BehaviorNode)
      → IsCache load sim.behavior_cache
      → IsCache load cache
      → IsSameRun
          (run_tasks load tasks completed total ack all_success sim)
          (run_tasks load tasks completed total ack all_success (with_cache cache sim))
  unfolding run_tasks
  run_tasks-cache [] completed total ack all_success sim cache holds holds' = record {
    sent = refl;
    ack = refl;
    success = refl;
    state = refl;
    is_cache = holds;
  }
  run_tasks-cache (message ∷ tasks) completed total ack all_success sim cache holds holds' =
      let task = task_to_segment message sim.satellite_id in
      let rest = after_task task tasks completed total ack all_success in
      let first = IsLoaded-execute task sim holds in
      let other = IsLoaded-execute task (with_cache cache sim) holds' in
      let (task_ok, next) = loaded_task task (load task.behavior_ref) sim in
      let alike =
        other.same
        ∙ ap (λ (r : Bool × Simulator F). (r.0, with_cache other.cache r.1))
            (loaded_task-with_cache task (load task.behavior_ref) cache sim) in
      let later =
        run_tasks-cache tasks (suc completed) total (add_outcome task.task_id task_ok ack)
          (all_success && task_ok) (with_cache first.cache next) other.cache first.is_cache
          other.is_cache in
      let same_run : IsSameRun (rest (task_ok, with_cache first.cache next))
          (rest (task_ok, with_cache other.cache next)) =
        record {
          sent = ap (λ sent. started task completed total ∷ ended task task_ok ∷ sent) later.sent;
          ack = later.ack;
          success = later.success;
          state = later.state;
          is_cache = later.is_cache;
        } in
      subst (λ r. IsSameRun (rest r) (rest (execute_single_task load task (with_cache cache sim))))
        (sym first.same)
        (subst (λ r. IsSameRun (rest (task_ok, with_cache first.cache next)) (rest r)) (sym alike)
          same_run)

  -- The cache cannot be noticed: a simulator whose cache holds nothing but what the library holds answers a
  -- batch with the same messages and the same acknowledgement as if its cache were empty, with the same
  -- effect on its executor; and its cache is again such a cache.
  pub handle_batch-uncached :
      (batch : Option BatchTaskAssignMessage) (now : ℕ) (sim : Simulator F)
      → IsCache load sim.behavior_cache
      → let (sent, ack, sim') = handle_batch_task_assign load batch now sim in
        let (sent', ack', sim'') = handle_batch_task_assign load batch now (with_cache [] sim) in
        (sent ≡ sent')
        × (ack ≡ ack')
        × (sim'.executor ≡ sim''.executor)
        × IsCache load sim'.behavior_cache
  unfolding handle_batch_task_assign
  handle_batch-uncached none now sim holds = (refl, refl, refl, holds)
  handle_batch-uncached (some batch) now sim holds =
      let begun = record (empty_ack sim.satellite_id now) { message_id = batch.message_id } in
      let tasks = batch.scheduled_tasks in
      let r = run_tasks load tasks 0 (length tasks) begun true sim in
      let r' = run_tasks load tasks 0 (length tasks) begun true (with_cache [] sim) in
      let run : IsSameRun r r' =
        run_tasks-cache tasks 0 (length tasks) begun true sim [] holds (IsCache-empty load) in
      let acks =
        ap (λ (ack : BatchTaskAssignAck). record ack { accepted = r.2 }) run.ack
        ∙ ap (λ success. record r'.1 { accepted = success }) run.success in
      (
        ap (λ sent. sent ++ acknowledge (record r.1 { accepted = r.2 }) ∷ []) run.sent
            ∙ ap (λ ack. r'.0 ++ acknowledge ack ∷ []) acks,
        acks,
        ap (λ (x : Simulator F). x.executor) run.state,
        run.is_cache,
      )
