-- ===== src/Executor/Workers/Needs.antt =====
-- src/executor/generic_executor.cpp: how many turns a worker needs before it returns, once running_ is
-- cleared.
use Prim.Native.Nat.{ℕ, zero, suc}
use mathlib.Core.Option.{some-injective}
use actuator_final.Prelude.{
  Bool, true, false, List, [], ◌∷◌, Option, some, ◌≡◌, refl, subst, ◌≤◌, ◌<◌, ◌-◌, ◌==◌,
  if◌then◌else◌, length, arith, get_elem?,
}
use actuator_final.Value.{Floating}
use actuator_final.Executor.Workers.{
  PendingTask, Worker, at_top, waiting, checked, asleep, exited, taken, entered, GenericExecutor,
  lock_free, notify_all, all_exited, check_queue, enter_task, finish_task, work, Turn, worker,
  caller,
}

-- The join waits for a worker that sleeps.
pub not_exited : (i : ℕ) (ws : List Worker) → get_elem? ws i ≡ some asleep → all_exited ws ≡ false
unfolding all_exited
not_exited i [] sleeps = ground arith
not_exited zero (exited ∷ ws) sleeps = ground arith
not_exited (suc i) (exited ∷ ws) sleeps = not_exited i ws sleeps
not_exited i (_ ∷ ws) sleeps = refl

-- The turns that a worker still needs at most, once running_ is cleared. A worker that sleeps or
-- is about to has no bound.
abbrev pub turns_needed : Worker → ℕ
turns_needed at_top = 1
turns_needed waiting = 4
turns_needed (taken p) = 3
turns_needed (entered p flag) = 2
turns_needed _ = 0

abbrev pub is_awake : Worker → Bool
is_awake checked = false
is_awake asleep = false
is_awake _ = true

-- How many of the turns are this worker's.
abbrev pub turns_of : ℕ → List Turn → ℕ
turns_of i [] = 0
turns_of i (worker j cancel_after ∷ ts) = if i == j then suc (turns_of i ts) else turns_of i ts
turns_of i (caller ∷ ts) = turns_of i ts

-- Whoever is awake stays so when running_ is cleared, and needs a turn less.
pub record IsLess (w u : Worker) : Type 0 where
  pub awake : is_awake u ≡ true
  pub fewer : turns_needed u ≤ turns_needed w - 1

module _ {F : Type 0} where
  pub IsLess-check_queue :
      (queue : List PendingTask) (e : GenericExecutor F)
      → e.running ≡ false
      → IsLess waiting (check_queue queue e).0
  unfolding check_queue
  IsLess-check_queue [] e r = rw r (record { awake = refl; fewer = omega arith })
  IsLess-check_queue (p ∷ ps) e r = record { awake = refl; fewer = omega arith }

module _ {F : Type 0} ⦃fl : Floating F⦄ where
  pub IsLess-work :
      (i : ℕ) (cancel_after : Option ℕ) (w : Worker) (e : GenericExecutor F)
      → e.running ≡ false
      → lock_free e.worker_threads ≡ true
      → is_awake w ≡ true
      → IsLess w (work i cancel_after w e).0
  unfolding work enter_task finish_task check_queue
  IsLess-work i cancel_after at_top e r free a = rw r (record { awake = refl; fewer = omega arith })
  IsLess-work i cancel_after waiting e r free a = rw free (IsLess-check_queue e.task_queue e r)
  IsLess-work i cancel_after (taken p) e r free a = record { awake = refl; fewer = omega arith }
  IsLess-work i cancel_after (entered p flag) e r free a = record {
    awake = refl;
    fewer = omega arith;
  }
  IsLess-work i cancel_after exited e r free a = record { awake = refl; fewer = omega arith }
  IsLess-work i cancel_after _ e r free a = ground arith

-- What every worker needs is there.
abbrev pub HasEnough : List Turn → List Worker → Type 0
HasEnough ts ws =
    (i : ℕ) (w : Worker)
    → get_elem? ws i ≡ some w
    → (is_awake w ≡ true) × (turns_needed w ≤ turns_of i ts)

pub lock_free-awake :
    (ws : List Worker)
    → ((i : ℕ) (w : Worker) → get_elem? ws i ≡ some w → is_awake w ≡ true)
    → lock_free ws ≡ true
unfolding lock_free
lock_free-awake [] awake = refl
lock_free-awake (checked ∷ ws) awake = awake 0 checked refl
lock_free-awake (w ∷ ws) awake = lock_free-awake ws (λ i u e. awake (suc i) u e)

pub all_exited-HasEnough : (ws : List Worker) → HasEnough [] ws → all_exited ws ≡ true
unfolding all_exited
all_exited-HasEnough [] enough = refl
all_exited-HasEnough (exited ∷ ws) enough = all_exited-HasEnough ws (λ i u e. enough (suc i) u e)
all_exited-HasEnough (w ∷ ws) enough = let first = enough 0 w refl in ground (arith, first)

-- Who is notified in time is awake.
pub get-notify_all :
    (i : ℕ) (ws : List Worker) (w : Worker)
    → lock_free ws ≡ true
    → get_elem? (notify_all ws) i ≡ some w
    → (i < length ws) × (is_awake w ≡ true)
unfolding lock_free notify_all
get-notify_all i [] w free e = ground arith
get-notify_all i (checked ∷ ws) w free e = ground arith
get-notify_all zero (asleep ∷ ws) w free e =
    (omega arith, subst (λ u. is_awake u ≡ true) (some-injective waiting w e) refl)
get-notify_all zero (v ∷ ws) w free e =
    (omega arith, subst (λ u. is_awake u ≡ true) (some-injective v w e) refl)
get-notify_all (suc i) (v ∷ ws) w free e =
    let rest = get-notify_all i ws w free e in (omega (arith, rest.0), rest.1)

pub turns_needed_bounded : (w : Worker) → turns_needed w ≤ 4
turns_needed_bounded at_top = omega arith
turns_needed_bounded waiting = omega arith
turns_needed_bounded (taken p) = omega arith
turns_needed_bounded (entered p flag) = omega arith
turns_needed_bounded _ = omega arith
