-- ===== src/Executor/Semantics.antt =====
-- src/executor/generic_executor.cpp: what executeSequence, executeSelector and executeParallel mean. Which
-- children run, and on which state, is one relation; the result is a function of the children's.
use actuator_final.Prelude.{
  Bool, true, false, List, [], ◌∷◌, Option, none, some, ◌≡◌, refl, sym, ap, ◌∙◌, subst,
  if◌then◌else◌, arith, not, if_true, if_false, inl, inr, ◌⊎◌,
}
use actuator_final.Text.{Text, codes}
use actuator_final.Dict.{Dict, merge}
use actuator_final.Result.{Result, ok, err}
use actuator_final.Value.{Floating, Value}
use actuator_final.Behavior.{BehaviorNode, Nodes, nil, cons, fields}
use actuator_final.Executor.Runtime.{Runtime, Exec, pure, ◌>>=◌, continue}
use actuator_final.Executor.Commands.{ExecutionResult, Failure, succeed_with}
use actuator_final.Executor.Nodes.{
  execute_node, execute_sequence, execute_selector, execute_parallel, after_child, failed_in,
}

abbrev pub or_else : Option Text → Option Text → Option Text
or_else none b = b
or_else (some a) b = some a

module _ {F : Type 0} ⦃fl : Floating F⦄ where
  -- The children run in order, each on the state that the one before left, up to and including the
  -- first whose success is `stop`.
  pub data RunUntil (stop : Bool)
      : Nodes → Runtime F → List (ExecutionResult F) → Runtime F → Type 0 where
    finished : {s : Runtime F} → RunUntil stop nil s [] s
    stopped :
        {child : BehaviorNode} {rest : Nodes} {s s' : Runtime F} {r : ExecutionResult F}
        → execute_node child s ≡ (ok r, s')
        → r.success ≡ stop
        → RunUntil stop (cons child rest) s (r ∷ []) s'
    continued :
        {child : BehaviorNode} {rest : Nodes} {s t s' : Runtime F} {r : ExecutionResult F}
        {rs : List (ExecutionResult F)}
        → execute_node child s ≡ (ok r, t)
        → r.success ≡ not stop
        → RunUntil stop rest t rs s'
        → RunUntil stop (cons child rest) s (r ∷ rs) s'

  -- Every child runs, whatever the others return.
  pub data RunAll : Nodes → Runtime F → List (ExecutionResult F) → Runtime F → Type 0 where
    finished : {s : Runtime F} → RunAll nil s [] s
    continued :
        {child : BehaviorNode} {rest : Nodes} {s t s' : Runtime F} {r : ExecutionResult F}
        {rs : List (ExecutionResult F)}
        → execute_node child s ≡ (ok r, t)
        → RunAll rest t rs s'
        → RunAll (cons child rest) s (r ∷ rs) s'

  -- The failing result, or success with all outputs merged in order.
  pub sequence_verdict : Dict (Value F) → List (ExecutionResult F) → ExecutionResult F
  sequence_verdict outputs [] = succeed_with outputs
  sequence_verdict outputs (r ∷ rs) =
      let more = sequence_verdict (merge outputs r.outputs) rs in if r.success then more else r

  -- The succeeding result, or failure.
  pub selector_verdict : Text → List (ExecutionResult F) → ExecutionResult F
  selector_verdict name [] = Failure (codes "所有分支均失败") name
  selector_verdict name (r ∷ rs) =
      let more = selector_verdict name rs in if r.success then r else more

  abbrev Returns : Result (ExecutionResult F) × Runtime F → ExecutionResult F → Runtime F → Type 0
  Returns p q s' = p ≡ (ok q, s')

  -- A bind that returns splits into two calls that return.
  Returns-bind :
      {A : Type 0} (m : Exec F A) (f : A → Exec F (ExecutionResult F)) (s : Runtime F)
      {q : ExecutionResult F} {s' : Runtime F}
      → (m >>= f) s ≡ (ok q, s')
      → (a : A) × (t : Runtime F) × (m s ≡ (ok a, t)) × (f a t ≡ (ok q, s'))
  unfolding ◌>>=◌
  Returns-bind {A} m f s {q} {s'} h = go (m s) refl h
    where
      go :
          (p : Result A × Runtime F)
          → m s ≡ p
          → continue p.0 f p.1 ≡ (ok q, s')
          → (a : A) × (t : Runtime F) × (m s ≡ (ok a, t)) × (f a t ≡ (ok q, s'))
      go (ok a, t) e k = (a, t, e, k)
      go (err x, t) e k = cc

  if-Returns :
      {A : Type 0} (b : Bool) (m n : Exec F A) (t : Runtime F) {p : Result A × Runtime F}
      → (if b then m else n) t ≡ p
      → ((b ≡ true) × (m t ≡ p)) ⊎ ((b ≡ false) × (n t ≡ p))
  if-Returns true m n t h = inl (refl, h)
  if-Returns false m n t h = inr (refl, h)

  pure-Returns :
      (r : ExecutionResult F) (t : Runtime F) {q : ExecutionResult F} {s' : Runtime F}
      → pure r t ≡ (ok q, s')
      → (q ≡ r) × (t ≡ s')
  pure-Returns r t h = (cc, ap (λ (p : Result (ExecutionResult F) × Runtime F). p.1) h)

  RunUntil-one :
      (stop : Bool) {child : BehaviorNode} (rest : Nodes) {s t s' : Runtime F}
      {r : ExecutionResult F}
      → execute_node child s ≡ (ok r, t)
      → r.success ≡ stop
      → t ≡ s'
      → RunUntil stop (cons child rest) s (r ∷ []) s'
  RunUntil-one stop {child} rest {s} {r = r} e g u =
      subst (λ w. RunUntil stop (cons child rest) s (r ∷ []) w) u (stopped e g)

  -- A sequence that returns has run its children up to the first failure; it fails with that
  -- child's result, or succeeds with the outputs of all children, later ones over earlier ones.
  pub sequence_runs :
      (ns : Nodes) (outputs : Dict (Value F)) (s : Runtime F) {q : ExecutionResult F}
      {s' : Runtime F}
      → execute_sequence ns outputs s ≡ (ok q, s')
      → (rs : List (ExecutionResult F)) × RunUntil false ns s rs s'
        × (q ≡ sequence_verdict outputs rs)
  unfolding execute_sequence sequence_verdict
  sequence_runs nil outputs s h =
      let (v, u) = pure-Returns _ s h in ([], subst (λ t. RunUntil false nil s [] t) u finished, v)
  sequence_runs (cons child rest) outputs s h =
      let (r, t, e, k) = Returns-bind (execute_node child) _ s h in
      elim (if-Returns r.success _ _ t k) [
        | inl (good, k') ↦
            let (rs, run, v) = sequence_runs rest _ t k' in
            (r ∷ rs, continued e good run, v ∙ sym (if_true _ _ good))
        | inr (bad, k') ↦
            let (v, u) = pure-Returns r t k' in
            (r ∷ [], RunUntil-one false rest e bad u, v ∙ sym (if_false _ _ bad))
      ]

  -- A selector that returns has run its children up to the first success, and returns that child's
  -- result; if all failed it fails under its own name.
  pub selector_runs :
      (name : Text) (ns : Nodes) (s : Runtime F) {q : ExecutionResult F} {s' : Runtime F}
      → execute_selector name ns s ≡ (ok q, s')
      → (rs : List (ExecutionResult F)) × RunUntil true ns s rs s' × (q ≡ selector_verdict name rs)
  unfolding execute_selector selector_verdict
  selector_runs name nil s h =
      let (v, u) = pure-Returns _ s h in ([], subst (λ t. RunUntil true nil s [] t) u finished, v)
  selector_runs name (cons child rest) s h =
      let (r, t, e, k) = Returns-bind (execute_node child) _ s h in
      elim (if-Returns r.success _ _ t k) [
        | inl (good, k') ↦
            let (v, u) = pure-Returns r t k' in
            (r ∷ [], RunUntil-one true rest e good u, v ∙ sym (if_true _ _ good))
        | inr (bad, k') ↦
            let (rs, run, v) = selector_runs name rest t k' in
            (r ∷ rs, continued e bad run, v ∙ sym (if_false _ _ bad))
      ]

  -- The name that a failed child gives, and the outputs of the children that succeeded.
  pub first_failure : Nodes → List (ExecutionResult F) → Option Text
  first_failure nil rs = none
  first_failure (cons child rest) [] = none
  first_failure (cons child rest) (r ∷ rs) =
      let more = first_failure rest rs in
      if r.success then more else some (failed_in (fields child).name r)

  pub merged_successes : Dict (Value F) → List (ExecutionResult F) → Dict (Value F)
  merged_successes outputs [] = outputs
  merged_successes outputs (r ∷ rs) =
      merged_successes (if r.success then merge outputs r.outputs else outputs) rs

  pub parallel_verdict : Option Text → Dict (Value F) → ExecutionResult F
  parallel_verdict none outputs = succeed_with outputs
  parallel_verdict (some failed) outputs = Failure (codes "部分子节点失败") failed

  -- A parallel node that returns has run all its children, one after the other. It succeeds if all
  -- did, with their outputs merged, and else names the first that failed.
  pub parallel_runs :
      (ns : Nodes) (failed : Option Text) (outputs : Dict (Value F)) (s : Runtime F)
      {q : ExecutionResult F} {s' : Runtime F}
      → execute_parallel ns failed outputs s ≡ (ok q, s')
      → (rs : List (ExecutionResult F)) × RunAll ns s rs s'
        × (q
            ≡ parallel_verdict (or_else failed (first_failure ns rs)) (merged_successes outputs rs))
  unfolding execute_parallel parallel_verdict first_failure merged_successes after_child
  parallel_runs nil none outputs s h =
      let (v, u) = pure-Returns _ s h in ([], subst (λ t. RunAll nil s [] t) u finished, v)
  parallel_runs nil (some f) outputs s h =
      let (v, u) = pure-Returns _ s h in ([], subst (λ t. RunAll nil s [] t) u finished, v)
  parallel_runs (cons child rest) failed outputs s h =
      let (r, t, e, k) = Returns-bind (execute_node child) _ s h in
      let (rs, run, v) = parallel_runs rest _ _ t k in
      (
        r ∷ rs,
        continued e run,
        v ∙ ap (λ f. parallel_verdict f (merged_successes outputs (r ∷ rs))) (carry failed r rs),
      )
    where
      carry :
          (f : Option Text) (r : ExecutionResult F) (rs : List (ExecutionResult F))
          → or_else (after_child (fields child).name f r) (first_failure rest rs)
            ≡ or_else f (first_failure (cons child rest) (r ∷ rs))
      carry none r rs = ground arith
      carry (some f) r rs = refl
