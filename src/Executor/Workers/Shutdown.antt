-- ===== src/Executor/Workers/Shutdown.antt =====
-- src/executor/generic_executor.cpp: when the join of shutdown ends, and when it never does.
use Prim.Native.Nat.{ℕ}
use actuator_final.Prelude.{
  true, false, List, [], ◌∷◌, ◌++◌, Option, some, ◌≡◌, refl, ap, ◌∙◌, inl, inr, ◌≤◌, ◌<◌, length,
  arith, get_elem?, Bool-cases,
}
use actuator_final.Value.{Floating}
use actuator_final.Executor.Workers.{
  asleep, cancelling, joining, closed, GenericExecutor, lock_free, notify_all, all_exited,
  worker_turn, shutdown_from, shutdown_turn, Turn, worker, caller, take_turn, take_turns,
}
use actuator_final.Executor.Workers.Turns.{
  phase-worker_turn, running-worker_turn, get-worker_turn, asleep-worker_turn,
}
use actuator_final.Executor.Workers.Needs.{
  not_exited, turns_of, IsLess-work, HasEnough, lock_free-awake, all_exited-HasEnough,
  get-notify_all, turns_needed_bounded,
}

module _ {F : Type 0} ⦃fl : Floating F⦄ where
  closed_stays :
      (ts : List Turn) (e : GenericExecutor F) → e.phase ≡ closed → (take_turns ts e).phase ≡ closed
  unfolding take_turns take_turn shutdown_turn shutdown_from
  closed_stays [] e p = p
  closed_stays (worker j cancel_after ∷ ts) e p =
      closed_stays ts (worker_turn j cancel_after e) (phase-worker_turn j cancel_after e ∙ p)
  closed_stays (caller ∷ ts) e p =
      closed_stays ts (shutdown_from e.phase e) (ap (λ phase. (shutdown_from phase e).phase) p ∙ p)

  HasEnough-worker_turn :
      (j : ℕ) (cancel_after : Option ℕ) (ts : List Turn) (e : GenericExecutor F)
      → e.running ≡ false
      → HasEnough (worker j cancel_after ∷ ts) e.worker_threads
      → HasEnough ts (worker_turn j cancel_after e).worker_threads
  HasEnough-worker_turn j cancel_after ts e r enough i u there =
      elim (get-worker_turn i j cancel_after e u there) [
        | inl (q, w, w_there, moved) ↦
            let free = lock_free-awake e.worker_threads (λ k v v_there. (enough k v v_there).0) in
            let less = IsLess-work j cancel_after w e r free (enough i w w_there).0 in
            let left = (enough i w w_there).1 in
            rw moved (less.awake, ground (arith, less.fewer, left, q))
        | inr (q, same) ↦
            let left = (enough i u same).1 in ((enough i u same).0, ground (arith, left, q))
      ]

  joined :
      (e : GenericExecutor F)
      → e.phase ≡ joining
      → all_exited e.worker_threads ≡ true
      → (shutdown_turn e).phase ≡ closed
  unfolding shutdown_turn shutdown_from
  joined e p all = ap (λ phase. (shutdown_from phase e).phase) p ∙ rw all refl

  not_joined :
      (e : GenericExecutor F)
      → e.phase ≡ joining
      → all_exited e.worker_threads ≡ false
      → shutdown_turn e ≡ e
  unfolding shutdown_turn shutdown_from
  not_joined e p left = ap (λ phase. shutdown_from phase e) p ∙ rw left refl

  join_ends :
      (ts : List Turn) (e : GenericExecutor F)
      → e.phase ≡ joining
      → e.running ≡ false
      → HasEnough ts e.worker_threads
      → (take_turns (ts ++ caller ∷ []) e).phase ≡ closed
  unfolding take_turns take_turn
  join_ends [] e p r enough = joined e p (all_exited-HasEnough e.worker_threads enough)
  join_ends (worker j cancel_after ∷ ts) e p r enough =
      join_ends ts (worker_turn j cancel_after e) (phase-worker_turn j cancel_after e ∙ p)
        (running-worker_turn j cancel_after e ∙ r)
        (HasEnough-worker_turn j cancel_after ts e r enough)
  join_ends (caller ∷ ts) e p r enough = elim (Bool-cases (all_exited e.worker_threads)) [
    | inl all ↦ closed_stays (ts ++ caller ∷ []) (shutdown_turn e) (joined e p all)
    | inr left ↦
        let same = not_joined e p left in
        ap (λ (x : GenericExecutor F). (take_turns (ts ++ caller ∷ []) x).phase) same
        ∙ join_ends ts e p r enough
  ]

  -- If no worker stands between its test of the queue and its sleep when shutdown notifies the
  -- workers, then shutdown returns, in whatever order the turns are taken, once each worker has had
  -- four turns. The contexts were cancelled and running_ is cleared before.
  pub shutdown_returns :
      (turns : List Turn) (e : GenericExecutor F)
      → e.phase ≡ cancelling
      → e.running ≡ false
      → lock_free e.worker_threads ≡ true
      → ((i : ℕ) → i < length e.worker_threads → 4 ≤ turns_of i turns)
      → (take_turns (caller ∷ turns ++ caller ∷ []) e).phase ≡ closed
  unfolding take_turns take_turn shutdown_turn shutdown_from
  shutdown_returns turns e p r free four =
      let notified : GenericExecutor F = record e {
        worker_threads = notify_all e.worker_threads;
        phase = joining;
      } in
      let enough : HasEnough turns (notify_all e.worker_threads) = λ i w there.
        let (bound, awake) = get-notify_all i e.worker_threads w free there in
        (awake, omega (arith, turns_needed_bounded w, four i bound)) in
      ap (λ phase. (take_turns (turns ++ caller ∷ []) (shutdown_from phase e)).phase) p
      ∙ join_ends turns notified refl r enough

  -- A worker that went to sleep after the notification is never woken.
  pub asleep_for_good :
      (i : ℕ) (turns : List Turn) (e : GenericExecutor F)
      → e.phase ≡ joining
      → get_elem? e.worker_threads i ≡ some asleep
      → (take_turns turns e).phase ≡ joining
  unfolding take_turns take_turn
  asleep_for_good i [] e p sleeps = p
  asleep_for_good i (worker j cancel_after ∷ turns) e p sleeps =
      asleep_for_good i turns (worker_turn j cancel_after e)
        (phase-worker_turn j cancel_after e ∙ p) (asleep-worker_turn i j cancel_after e sleeps)
  asleep_for_good i (caller ∷ turns) e p sleeps =
      ap (λ (x : GenericExecutor F). (take_turns turns x).phase)
        (not_joined e p (not_exited i e.worker_threads sleeps))
      ∙ asleep_for_good i turns e p sleeps
