-- ===== src/Comm/Queue.antt =====
-- src/coordinator/inter_sat_comm.{h,cpp}: MessageQueue. The std::priority_queue is the list of its
-- elements. `top` is one that no other exceeds; where several qualify, the order of the list decides.
use actuator_final.Prelude.{
  ◌<◌, ◌≤◌, ℕ, ◌+◌, Bool, true, false, List, [], ◌∷◌, Option, none, some, ◌≡◌, ◌⊎◌, refl, arith,
  ltb, leb, ◌==◌, if◌then◌else◌, length, All, inl, inr, sym, Bool-cases, if_true, if_false, subst,
}
use actuator_final.Messages.{Message, priority_code}
use actuator_final.Comm.{PriorityMessage, MessageQueue}

-- PriorityMessage::operator<
unfoldable pub less : PriorityMessage → PriorityMessage → Bool
less a b =
    if a.priority == b.priority then ltb b.timestamp a.timestamp else ltb b.priority a.priority

-- top and pop of the priority queue that holds `x` and `ps`
unfoldable pub extract :
    PriorityMessage → List PriorityMessage → PriorityMessage × List PriorityMessage
unfolding less
extract x [] = (x, [])
extract x (y ∷ ys) =
    let best = extract y ys in if less x best.0 then (best.0, x ∷ best.1) else (x, y ∷ ys)

unfoldable pub push : Message → ℕ → MessageQueue → Bool × MessageQueue
push message now q = if leb q.max_size (length q.queue) then (false, q) else (
  true,
  record q {
    queue =
        record {
          message = message;
          priority = priority_code message.header.priority;
          timestamp = now;
        }
        ∷ q.queue;
  },
)

-- pop with a timeout: `none` where no message came in time.
unfoldable pub pop : MessageQueue → Option (Message × MessageQueue)
unfolding extract
pop q = elim q.queue [
  | [] ↦ none
  | x ∷ ps ↦ let best = extract x ps in some (best.0.message, record q { queue = best.1 })
]

unfoldable pub clear : MessageQueue → MessageQueue
clear q = record q { queue = [] }

-- What several threads do to a queue, in the order in which they hold its mutex.
pub data QueueOp : Type 0 where
  push_op : Message → ℕ → QueueOp
  pop_op clear_op : QueueOp

-- A pop that times out leaves the queue alone.
unfoldable pub after_pop : Option (Message × MessageQueue) → MessageQueue → MessageQueue
after_pop none q = q
after_pop (some (m, rest)) q = rest

unfoldable pub run_ops : List QueueOp → MessageQueue → MessageQueue
run_ops [] q = q
run_ops (push_op m now ∷ ops) q = run_ops ops (push m now q).1
run_ops (pop_op ∷ ops) q = run_ops ops (after_pop (pop q) q)
run_ops (clear_op ∷ ops) q = run_ops ops (clear q)

-- Not after `p` in the queue's order: less urgent, or as urgent and not earlier.
abbrev pub NotBefore : PriorityMessage → PriorityMessage → Type 0
NotBefore p r =
    (p.priority < r.priority) ⊎ ((p.priority ≡ r.priority) × (p.timestamp ≤ r.timestamp))

not_less : (a b : PriorityMessage) → less a b ≡ false → NotBefore a b
unfolding less
not_less a b e = ground (arith, e)

less-NotBefore : (a b : PriorityMessage) → less a b ≡ true → NotBefore b a
unfolding less
less-NotBefore a b e = ground (arith, e)

NotBefore-trans : (a b c : PriorityMessage) → NotBefore a b → NotBefore b c → NotBefore a c
NotBefore-trans a b c h k = ground (arith, h, k)

All-NotBefore :
    (a b : PriorityMessage) (ps : List PriorityMessage)
    → NotBefore a b
    → All (NotBefore b) ps
    → All (NotBefore a) ps
All-NotBefore a b [] h all = tt
All-NotBefore a b (p ∷ ps) h (first, others) =
    (NotBefore-trans a b p h first, All-NotBefore a b ps h others)

-- How many elements pass a test, which says what a queue holds whatever its order.
abbrev pub one_if : Bool → ℕ
one_if true = 1
one_if false = 0

unfoldable pub count : (PriorityMessage → Bool) → List PriorityMessage → ℕ
count f [] = 0
count f (p ∷ ps) = one_if (f p) + count f ps

-- The choice between an element and the best of the others.
NotBefore-refl : (p : PriorityMessage) → NotBefore p p
NotBefore-refl p = inr (refl, omega arith)

pub extract-before :
    (x : PriorityMessage) (ps : List PriorityMessage) → All (NotBefore (extract x ps).0) (x ∷ ps)
unfolding extract
extract-before x [] = (NotBefore-refl x, tt)
extract-before x (y ∷ ys) =
    let best = extract y ys in
    elim (Bool-cases (less x best.0)) [
      | inl e ↦
          subst (λ (r : PriorityMessage × List PriorityMessage). All (NotBefore r.0) (x ∷ y ∷ ys))
            (sym (if_true (best.0, x ∷ best.1) (x, y ∷ ys) e))
            (less-NotBefore x best.0 e, extract-before y ys)
      | inr e ↦
          subst (λ (r : PriorityMessage × List PriorityMessage). All (NotBefore r.0) (x ∷ y ∷ ys))
            (sym (if_false (best.0, x ∷ best.1) (x, y ∷ ys) e))
            (
              NotBefore-refl x,
              All-NotBefore x best.0 (y ∷ ys) (not_less x best.0 e) (extract-before y ys),
            )
    ]

pub count-extract :
    (f : PriorityMessage → Bool) (x : PriorityMessage) (ps : List PriorityMessage)
    → count f (x ∷ ps) ≡ one_if (f (extract x ps).0) + count f (extract x ps).1
unfolding extract count
count-extract f x [] = refl
count-extract f x (y ∷ ys) =
    let best = extract y ys in
    let rest = count-extract f y ys in
    elim (Bool-cases (less x best.0)) [
      | inl e ↦
          rw
            (if_true {A = PriorityMessage × List PriorityMessage} (best.0, x ∷ best.1) (x, y ∷ ys)
              e)
            (omega (arith, rest))
      | inr e ↦
          rw
            (if_false {A = PriorityMessage × List PriorityMessage} (best.0, x ∷ best.1) (x, y ∷ ys)
              e)
            refl
    ]

pub length-extract :
    (x : PriorityMessage) (ps : List PriorityMessage) → length (extract x ps).1 ≡ length ps
unfolding extract
length-extract x [] = refl
length-extract x (y ∷ ys) = ground (arith, length-extract y ys)

pub extract-All :
    (P : PriorityMessage → Type 0) (x : PriorityMessage) (ps : List PriorityMessage)
    → All P (x ∷ ps)
    → P (extract x ps).0 × All P (extract x ps).1
unfolding extract
extract-All P x [] h = h
extract-All P x (y ∷ ys) (first, others) =
    let best = extract y ys in
    let rest = extract-All P y ys others in
    let Both : PriorityMessage × List PriorityMessage → Type 0 = λ r. P r.0 × All P r.1 in
    elim (Bool-cases (less x best.0)) [
      | inl e ↦
          subst Both (sym (if_true (best.0, x ∷ best.1) (x, y ∷ ys) e)) (rest.0, (first, rest.1))
      | inr e ↦ subst Both (sym (if_false (best.0, x ∷ best.1) (x, y ∷ ys) e)) (first, others)
    ]
