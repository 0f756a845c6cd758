-- ===== src/Executor/Workers/Turns.antt =====
-- src/executor/generic_executor.cpp: a turn of one worker - what it leaves alone, and which worker is
-- where after it.
use Prim.Native.Nat.{ℕ, zero, suc}
use mathlib.Core.Option.{none-ne-some, some-injective}
use actuator_final.Prelude.{
  List, [], ◌∷◌, Option, none, some, ◌≡◌, refl, ap, sym, ◌∙◌, ◌⊎◌, inl, inr, ◌≢◌, arith, get_elem?,
  if-holds, Option-cases,
}
use actuator_final.Value.{Floating}
use actuator_final.Executor.Workers.{
  PendingTask, Worker, at_top, waiting, asleep, taken, entered, GenericExecutor, set_worker,
  lock_free, check_queue, enter_task, finish_task, work, worker_turn,
}

-- The worker that is set is the one found there; the others stay.
get-set_worker :
    (i j : ℕ) (w u : Worker) (ws : List Worker)
    → get_elem? (set_worker j w ws) i ≡ some u
    → ((i ≡ j) × (u ≡ w)) ⊎ ((i ≢ j) × (get_elem? ws i ≡ some u))
unfolding set_worker
get-set_worker i j w u [] e = grind arith
get-set_worker zero zero w u (v ∷ ws) e = inl (refl, grind arith)
get-set_worker zero (suc j) w u (v ∷ ws) e = inr (omega arith, e)
get-set_worker (suc i) zero w u (v ∷ ws) e = inr (omega arith, e)
get-set_worker (suc i) (suc j) w u (v ∷ ws) e = elim (get-set_worker i j w u ws e) [
  | inl p ↦ inl (ap suc p.0, p.1)
  | inr p ↦ inr (λ q. p.0 (omega (arith, q)), p.1)
]

set_worker-asleep :
    (i j : ℕ) (w : Worker) (ws : List Worker)
    → get_elem? ws i ≡ some asleep
    → (i ≡ j → w ≡ asleep)
    → get_elem? (set_worker j w ws) i ≡ some asleep
unfolding set_worker
set_worker-asleep i j w [] e h = e
set_worker-asleep zero zero w (v ∷ ws) e h = ap some (h refl)
set_worker-asleep zero (suc j) w (v ∷ ws) e h = e
set_worker-asleep (suc i) zero w (v ∷ ws) e h = e
set_worker-asleep (suc i) (suc j) w (v ∷ ws) e h = set_worker-asleep i j w ws e (λ q. h (ap suc q))

module _ {F : Type 0} where
  -- What a worker's turn leaves alone; the worker itself is put back behind the turn.
  pub record IsLocal (e : GenericExecutor F) (r : Worker × GenericExecutor F) : Type 0 where
    pub others : r.1.worker_threads ≡ e.worker_threads
    pub same_phase : r.1.phase ≡ e.phase
    pub same_running : r.1.running ≡ e.running

  IsLocal-stay : (w : Worker) (e : GenericExecutor F) → IsLocal e (w, e)
  IsLocal-stay w e = record { others = refl; same_phase = refl; same_running = refl }

  IsLocal-check_queue :
      (queue : List PendingTask) (e : GenericExecutor F) → IsLocal e (check_queue queue e)
  unfolding check_queue
  IsLocal-check_queue [] e = IsLocal-stay _ e
  IsLocal-check_queue (p ∷ ps) e = record { others = refl; same_phase = refl; same_running = refl }

module _ {F : Type 0} ⦃fl : Floating F⦄ where
  pub IsLocal-work :
      (i : ℕ) (cancel_after : Option ℕ) (w : Worker) (e : GenericExecutor F)
      → IsLocal e (work i cancel_after w e)
  unfolding work enter_task finish_task
  IsLocal-work i cancel_after at_top e = IsLocal-stay _ e
  IsLocal-work i cancel_after waiting e =
      if-holds (IsLocal e) (lock_free e.worker_threads) (IsLocal-check_queue e.task_queue e)
        (IsLocal-stay waiting e)
  IsLocal-work i cancel_after (taken p) e = record {
    others = refl;
    same_phase = refl;
    same_running = refl;
  }
  IsLocal-work i cancel_after (entered p flag) e = record {
    others = refl;
    same_phase = refl;
    same_running = refl;
  }
  IsLocal-work i cancel_after _ e = IsLocal-stay _ e

  asleep-work :
      (i : ℕ) (cancel_after : Option ℕ) (w : Worker) (e : GenericExecutor F)
      → w ≡ asleep
      → (work i cancel_after w e).0 ≡ asleep
  unfolding work
  asleep-work i cancel_after w e sleeps = rw sleeps refl

  pub worker_turn-none :
      (i : ℕ) (cancel_after : Option ℕ) (e : GenericExecutor F)
      → get_elem? e.worker_threads i ≡ none
      → worker_turn i cancel_after e ≡ e
  unfolding worker_turn
  worker_turn-none i cancel_after e none_there = rw (worker_turn, none_there) refl

  pub worker_turn-some :
      (i : ℕ) (cancel_after : Option ℕ) (e : GenericExecutor F) (w : Worker)
      → get_elem? e.worker_threads i ≡ some w
      → worker_turn i cancel_after e ≡ (
          let (w', e') = work i cancel_after w e in
          record e' { worker_threads = set_worker i w' e'.worker_threads })
  unfolding worker_turn work set_worker
  worker_turn-some i cancel_after e w there = rw (worker_turn, there) refl

  -- What does not depend on the list of workers, and is left alone, is so by a worker's turn.
  pub same-worker_turn :
      {A : Type 0} (f : GenericExecutor F → A) (i : ℕ) (cancel_after : Option ℕ)
      (e : GenericExecutor F)
      → ((w : Worker) → f (work i cancel_after w e).1 ≡ f e)
      → ((x : GenericExecutor F) (ws : List Worker) → f (record x { worker_threads = ws }) ≡ f x)
      → f (worker_turn i cancel_after e) ≡ f e
  same-worker_turn f i cancel_after e kept apart =
      elim (Option-cases (get_elem? e.worker_threads i)) [
        | inl none_there ↦ ap f (worker_turn-none i cancel_after e none_there)
        | inr (w, there) ↦ ap f (worker_turn-some i cancel_after e w there) ∙ apart _ _ ∙ kept w
      ]

  pub phase-worker_turn :
      (i : ℕ) (cancel_after : Option ℕ) (e : GenericExecutor F)
      → (worker_turn i cancel_after e).phase ≡ e.phase
  phase-worker_turn i cancel_after e =
      same-worker_turn (λ (x : GenericExecutor F). x.phase) i cancel_after e
        (λ w. (IsLocal-work i cancel_after w e).same_phase) (λ x ws. refl)

  pub running-worker_turn :
      (i : ℕ) (cancel_after : Option ℕ) (e : GenericExecutor F)
      → (worker_turn i cancel_after e).running ≡ e.running
  running-worker_turn i cancel_after e =
      same-worker_turn (λ (x : GenericExecutor F). x.running) i cancel_after e
        (λ w. (IsLocal-work i cancel_after w e).same_running) (λ x ws. refl)

  -- After the turn of worker `j`, a worker is where that turn took it, or it is another one and where
  -- it was.
  pub get-worker_turn :
      (i j : ℕ) (cancel_after : Option ℕ) (e : GenericExecutor F) (u : Worker)
      → get_elem? (worker_turn j cancel_after e).worker_threads i ≡ some u
      → ((i ≡ j)
          × (w : Worker) × (get_elem? e.worker_threads i ≡ some w)
          × (u ≡ (work j cancel_after w e).0))
        ⊎ ((i ≢ j) × (get_elem? e.worker_threads i ≡ some u))
  get-worker_turn i j cancel_after e u there = elim (Option-cases (get_elem? e.worker_threads j)) [
    | inl none_there ↦
        let same : get_elem? e.worker_threads i ≡ some u =
          sym (
            ap (λ (x : GenericExecutor F). get_elem? x.worker_threads i)
              (worker_turn-none j cancel_after e none_there))
          ∙ there in
        inr (
          λ q.
              elim (none-ne-some u
                (sym none_there ∙ ap (get_elem? e.worker_threads) (sym q) ∙ same)) [ ],
          same,
        )
    | inr (w, w_there) ↦
        let (w', e') = work j cancel_after w e in
        let set : get_elem? (set_worker j w' e'.worker_threads) i ≡ some u =
          sym (
            ap (λ (x : GenericExecutor F). get_elem? x.worker_threads i)
              (worker_turn-some j cancel_after e w w_there))
          ∙ there in
        elim (get-set_worker i j w' u e'.worker_threads set) [
          | inl (q, r) ↦ inl (q, w, ap (get_elem? e.worker_threads) q ∙ w_there, r)
          | inr (q, r) ↦
              inr (q, sym (ap (λ ws. get_elem? ws i) (IsLocal-work j cancel_after w e).others) ∙ r)
        ]
  ]

  -- A worker that sleeps goes on sleeping, whoever has the turn.
  pub asleep-worker_turn :
      (i j : ℕ) (cancel_after : Option ℕ) (e : GenericExecutor F)
      → get_elem? e.worker_threads i ≡ some asleep
      → get_elem? (worker_turn j cancel_after e).worker_threads i ≡ some asleep
  asleep-worker_turn i j cancel_after e sleeps =
      elim (Option-cases (get_elem? e.worker_threads j)) [
        | inl none_there ↦
            ap (λ (x : GenericExecutor F). get_elem? x.worker_threads i)
              (worker_turn-none j cancel_after e none_there)
            ∙ sleeps
        | inr (w, there) ↦
            let (w', e') = work j cancel_after w e in
            let same : get_elem? e'.worker_threads i ≡ some asleep =
              ap (λ ws. get_elem? ws i) (IsLocal-work j cancel_after w e).others ∙ sleeps in
            let stays : i ≡ j → w' ≡ asleep = λ q. asleep-work j cancel_after w e (
              some-injective w asleep
                (sym there ∙ ap (get_elem? e.worker_threads) (sym q) ∙ sleeps)) in
            ap (λ (x : GenericExecutor F). get_elem? x.worker_threads i)
              (worker_turn-some j cancel_after e w there)
            ∙ set_worker-asleep i j w' e'.worker_threads same stays
      ]
