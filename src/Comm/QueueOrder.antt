-- ===== src/Comm/QueueOrder.antt =====
-- src/coordinator/inter_sat_comm.{h,cpp}: the bound and the order of a MessageQueue, whatever the threads do to it.
use mathlib.Core.Option.{none-ne-some}
use actuator_final.Prelude.{
  ◌↔◌, ◌≤◌, ℕ, ◌+◌, Bool, true, false, List, [], ◌∷◌, some, ◌≡◌, refl, arith, leb, if◌then◌else◌,
  length, All, ap, ◌∙◌, subst,
}
use actuator_final.Messages.{Message, priority_code}
use actuator_final.Comm.{PriorityMessage, MessageQueue, empty_queue}
use actuator_final.Comm.Queue.{
  push, pop, clear, extract, QueueOp, push_op, pop_op, clear_op, after_pop, run_ops, NotBefore,
  one_if, count, length-extract, extract-All, extract-before, count-extract,
}

-- At most max_size messages, each queued with the priority of its header.
pub record IsQueue (q : MessageQueue) : Type 0 where
  pub bounded : length q.queue ≤ q.max_size
  pub tagged : All (λ p. p.priority ≡ priority_code p.message.header.priority) q.queue

pushed :
    (m : Message) (now : ℕ) (q : MessageQueue) (b : Bool)
    → leb q.max_size (length q.queue) ≡ b
    → IsQueue q
    → IsQueue
        (if◌then◌else◌ {A = Bool × MessageQueue} b
          (false, q)
          (
            true,
            record q {
              queue =
                  record {
                    message = m;
                    priority = priority_code m.header.priority;
                    timestamp = now;
                  }
                  ∷ q.queue;
            },
          )).1
pushed m now q true e h = h
pushed m now q false e h = record {
  bounded = ground (arith, e, h.bounded);
  tagged = (refl, h.tagged);
}

push-IsQueue : (m : Message) (now : ℕ) (q : MessageQueue) → IsQueue q → IsQueue (push m now q).1
unfolding push
push-IsQueue m now q h = pushed m now q (leb q.max_size (length q.queue)) refl h

clear-IsQueue : (q : MessageQueue) → IsQueue q → IsQueue (clear q)
unfolding clear
clear-IsQueue q h = record { bounded = omega arith; tagged = tt }

pop-IsQueue :
    (ps : List PriorityMessage) (n : ℕ)
    → let q : MessageQueue = record { queue = ps; max_size = n } in
      IsQueue q → IsQueue (after_pop (pop q) q)
unfolding pop after_pop
pop-IsQueue [] n h = h
pop-IsQueue (x ∷ ps) n h = record {
  bounded = omega (arith, length-extract x ps, h.bounded);
  tagged =
      (extract-All (λ p. p.priority ≡ priority_code p.message.header.priority) x ps h.tagged).1;
}

pub run_ops-IsQueue : (ops : List QueueOp) (q : MessageQueue) → IsQueue q → IsQueue (run_ops ops q)
unfolding run_ops
run_ops-IsQueue [] q h = h
run_ops-IsQueue (push_op m now ∷ ops) q h =
    run_ops-IsQueue ops (push m now q).1 (push-IsQueue m now q h)
run_ops-IsQueue (pop_op ∷ ops) q h =
    run_ops-IsQueue ops (after_pop (pop q) q) (pop-IsQueue q.queue q.max_size h)
run_ops-IsQueue (clear_op ∷ ops) q h = run_ops-IsQueue ops (clear q) (clear-IsQueue q h)

max_size-push : (m : Message) (now : ℕ) (q : MessageQueue) → (push m now q).1.max_size ≡ q.max_size
unfolding push
max_size-push m now q = ground arith

max_size-pop :
    (ps : List PriorityMessage) (n : ℕ)
    → let q : MessageQueue = record { queue = ps; max_size = n } in
      (after_pop (pop q) q).max_size ≡ n
unfolding pop after_pop
max_size-pop [] n = refl
max_size-pop (x ∷ ps) n = refl

max_size-run_ops : (ops : List QueueOp) (q : MessageQueue) → (run_ops ops q).max_size ≡ q.max_size
unfolding run_ops clear
max_size-run_ops [] q = refl
max_size-run_ops (push_op m now ∷ ops) q =
    max_size-run_ops ops (push m now q).1 ∙ max_size-push m now q
max_size-run_ops (pop_op ∷ ops) q =
    max_size-run_ops ops (after_pop (pop q) q) ∙ max_size-pop q.queue q.max_size
max_size-run_ops (clear_op ∷ ops) q = max_size-run_ops ops (clear q)

IsQueue-empty : (n : ℕ) → IsQueue (empty_queue n)
IsQueue-empty n = record { bounded = omega arith; tagged = tt }

-- Whatever is pushed, popped and cleared, in whatever order, a queue that was made for `n` messages never
-- holds more, and a push is refused just if it holds `n`.
pub run_ops_bounded :
    (ops : List QueueOp) (n : ℕ) (m : Message) (now : ℕ)
    → let q = run_ops ops (empty_queue n) in
      (length q.queue ≤ n) × (((push m now q).0 ≡ false) ↔ (length q.queue ≡ n))
unfolding push
run_ops_bounded ops n m now =
    let q = run_ops ops (empty_queue n) in
    let size : q.max_size ≡ n = max_size-run_ops ops (empty_queue n) in
    let bounded : length q.queue ≤ n =
      subst (λ k. length q.queue ≤ k) size
        (run_ops-IsQueue ops (empty_queue n) (IsQueue-empty n)).bounded in
    (bounded, (λ e. ground (arith, e, size, bounded), λ e. ground (arith, e, size)))

popped_first :
    (ps : List PriorityMessage) (n : ℕ) (m : Message) (rest : MessageQueue)
    (f : PriorityMessage → Bool)
    → let q : MessageQueue = record { queue = ps; max_size = n } in
      IsQueue q
      → pop q ≡ some (m, rest)
      → (p : PriorityMessage) × (p.message ≡ m)
        × (p.priority ≡ priority_code m.header.priority)
        × All (NotBefore p) rest.queue
        × (count f q.queue ≡ one_if (f p) + count f rest.queue)
unfolding pop
popped_first [] n m rest f h e = elim (none-ne-some (m, rest) e) [ ]
popped_first (x ∷ ps) n m rest f h e =
    let best = extract x ps in
    let same : best.0.message ≡ m = cc in
    let queue : best.1 ≡ rest.queue = cc in
    (
      best.0,
      same,
      (extract-All (λ p. p.priority ≡ priority_code p.message.header.priority) x ps h.tagged).0
          ∙ ap (λ (k : Message). priority_code k.header.priority) same,
      subst (All (NotBefore best.0)) queue
          (extract-All (NotBefore best.0) x ps (extract-before x ps)).1,
      count-extract f x ps ∙ ap (λ l. one_if (f best.0) + count f l) queue,
    )

-- What is popped, after any pushes, pops and clears, is among the most urgent of the queue, by the
-- priority of its header, and the earliest of these; and the rest of the queue stays in it: for any
-- test, as many of its elements as before pass it, less the popped one.
pub pop_urgent :
    (ops : List QueueOp) (n : ℕ) (m : Message) (rest : MessageQueue) (f : PriorityMessage → Bool)
    → let q = run_ops ops (empty_queue n) in
      pop q ≡ some (m, rest)
      → (p : PriorityMessage) × (p.message ≡ m)
        × (p.priority ≡ priority_code m.header.priority)
        × All (NotBefore p) rest.queue
        × (count f q.queue ≡ one_if (f p) + count f rest.queue)
pop_urgent ops n m rest f e =
    let q = run_ops ops (empty_queue n) in
    popped_first q.queue q.max_size m rest f (run_ops-IsQueue ops (empty_queue n) (IsQueue-empty n))
      e
