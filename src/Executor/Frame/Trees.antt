-- ===== src/Executor/Frame/Trees.antt =====
-- src/executor/generic_executor.cpp: executing a node is orderly, whatever the tree.
use actuator_final.Prelude.{[], ◌∷◌, Option, none, some, Option-cases, inl, inr, ◌&&◌, not}
use actuator_final.Text.{Text, is_empty}
use actuator_final.Dict.{Dict, lookup}
use actuator_final.Result.Ending.{Settled, Settled-if}
use actuator_final.Constraint.{evaluate}
use actuator_final.Constraint.Termination.{Settled-evaluate, Settled-evaluate_detailed}
use actuator_final.Value.{Floating, Value}
use actuator_final.Variables.{VariableManager, local, exists}
use actuator_final.Variables.Scopes.{Settled-get}
use actuator_final.Behavior.{NodeType, NodeFields, BehaviorNode, Nodes, node, nil, cons}
use actuator_final.Executor.Runtime.{Exec}
use actuator_final.Executor.Commands.{ExecutionResult}
use actuator_final.Executor.Nodes.{
  observation_alias, observed_value, param_output, apply_observation_values, append_params,
  leave_node, execute_condition, check_precondition, enter_node, execute_node, execute_sequence,
  execute_selector, execute_parallel,
}
use actuator_final.Executor.Frame.Commands.{IsOrderly-execute_command}
use actuator_final.Executor.Frame.{
  IsOrderly, orderly_rules, IsOrderly-pure, IsOrderly-reads, IsOrderly-if, IsOrderly-bind,
  IsOrderly-set_variable, IsOrderly-cancelled,
}

module _ {F : Type 0} ⦃fl : Floating F⦄ where
  Settled-observed_value :
      (name key : Text) (vm : VariableManager F) → Settled (observed_value name key vm)
  unfolding observed_value
  Settled-observed_value name key vm =
      let alias = observation_alias key in
      Settled-if (exists key vm) _ _ (Settled-get key vm) (
        Settled-if (not (is_empty alias) && exists alias vm) _ _ (Settled-get alias vm)
          (Settled-if (exists name vm) _ _ (Settled-get name vm) tt))

  Settled-param_output :
      (outputs : Dict (Value F)) (key text : Text) (vm : VariableManager F)
      → Settled (param_output outputs vm key text)
  unfolding param_output
  Settled-param_output outputs key text vm = elim (Option-cases (lookup key outputs)) [
    | inl e ↦ rw (Settled, e) (Settled-if (exists key vm) _ _ (Settled-get key vm) tt)
    | inr (v, e) ↦ rw (Settled, e) tt
  ]

  IsOrderly-apply_observation_values :
      (observation : Dict Text) → IsOrderly {F = F} (apply_observation_values observation)
  unfolding apply_observation_values
  IsOrderly-apply_observation_values [] = search orderly_rules
  IsOrderly-apply_observation_values ((name, key) ∷ observation) =
      IsOrderly-bind _ _ (IsOrderly-reads _ (Settled-observed_value name key)) λ v.
        IsOrderly-bind _ _ (IsOrderly-set_variable name v local)
          λ _. IsOrderly-apply_observation_values observation

  IsOrderly-append_params :
      (name : Text) (params : Dict Text) (outputs : Dict (Value F))
      → IsOrderly (append_params name params outputs)
  unfolding append_params
  IsOrderly-append_params name [] outputs = search orderly_rules
  IsOrderly-append_params name ((key, text) ∷ params) outputs =
      IsOrderly-bind _ _ (IsOrderly-reads _ (Settled-param_output outputs key text))
        λ v. IsOrderly-append_params name params _

  IsOrderly-leave_node :
      (n : NodeFields) (result : ExecutionResult F) → IsOrderly (leave_node n result)
  unfolding leave_node
  IsOrderly-leave_node n result = search (orderly_rules, IsOrderly-append_params)

  IsOrderly-execute_condition : (n : NodeFields) → IsOrderly {F = F} (execute_condition n)
  unfolding execute_condition
  IsOrderly-execute_condition n =
      let settled : (vm : VariableManager F) → Settled (evaluate vm n.expression) =
        λ vm. Settled-evaluate vm n.expression in
      search (orderly_rules, settled)

  IsOrderly-check_precondition :
      (n : NodeFields) (body : Exec F (ExecutionResult F))
      → IsOrderly body
      → IsOrderly (check_precondition n body)
  unfolding check_precondition
  IsOrderly-check_precondition n body kb = IsOrderly-if (is_empty n.expression) _ _ kb (
      IsOrderly-bind _ _ (IsOrderly-reads _ λ vm. Settled-evaluate_detailed vm n.expression)
        λ checked. IsOrderly-if checked.satisfied _ _ kb (IsOrderly-pure _))

  IsOrderly-enter_node :
      (n : NodeFields) (body : Exec F (ExecutionResult F))
      → IsOrderly body
      → IsOrderly (enter_node n body)
  unfolding enter_node
  IsOrderly-enter_node n body kb = IsOrderly-bind _ _ IsOrderly-cancelled λ stop.
      IsOrderly-if stop _ _ (IsOrderly-pure _) (
        IsOrderly-bind _ _ (IsOrderly-apply_observation_values n.observation)
          λ _. IsOrderly-check_precondition n _ (IsOrderly-bind _ _ kb (IsOrderly-leave_node n)))

  IsOrderly-switch :
      (t : NodeType) {command condition sequence selector parallel : Exec F (ExecutionResult F)}
      → IsOrderly command
      → IsOrderly condition
      → IsOrderly sequence
      → IsOrderly selector
      → IsOrderly parallel
      → IsOrderly (elim t [
        | NodeType.action ↦ command
        | NodeType.condition ↦ condition
        | NodeType.sequence ↦ sequence
        | NodeType.selector ↦ selector
        | NodeType.parallel ↦ parallel
        | NodeType.subtree ↦ command
      ])
  IsOrderly-switch NodeType.action a c s l p = a
  IsOrderly-switch NodeType.condition a c s l p = c
  IsOrderly-switch NodeType.sequence a c s l p = s
  IsOrderly-switch NodeType.selector a c s l p = l
  IsOrderly-switch NodeType.parallel a c s l p = p
  IsOrderly-switch NodeType.subtree a c s l p = a

  mutual
    unfolding execute_node

    pub IsOrderly-execute_node : (b : BehaviorNode) → IsOrderly {F = F} (execute_node b)
    IsOrderly-execute_node (node n children) = IsOrderly-enter_node n _ (
        IsOrderly-switch n.type (IsOrderly-execute_command n.command n.params)
          (IsOrderly-execute_condition n) (IsOrderly-execute_sequence children [])
          (IsOrderly-execute_selector n.name children)
          (IsOrderly-execute_parallel children none []))

    IsOrderly-execute_sequence :
        (ns : Nodes) (outputs : Dict (Value F)) → IsOrderly (execute_sequence ns outputs)
    IsOrderly-execute_sequence nil outputs = search orderly_rules
    IsOrderly-execute_sequence (cons child rest) outputs =
        IsOrderly-bind _ _ (IsOrderly-execute_node child)
          λ r. IsOrderly-if r.success _ _ (IsOrderly-execute_sequence rest _) (IsOrderly-pure r)

    IsOrderly-execute_selector :
        (name : Text) (ns : Nodes) → IsOrderly {F = F} (execute_selector name ns)
    IsOrderly-execute_selector name nil = search orderly_rules
    IsOrderly-execute_selector name (cons child rest) =
        IsOrderly-bind _ _ (IsOrderly-execute_node child)
          λ r. IsOrderly-if r.success _ _ (IsOrderly-pure r) (IsOrderly-execute_selector name rest)

    IsOrderly-execute_parallel :
        (ns : Nodes) (failed : Option Text) (outputs : Dict (Value F))
        → IsOrderly (execute_parallel ns failed outputs)
    IsOrderly-execute_parallel nil none outputs = search orderly_rules
    IsOrderly-execute_parallel nil (some f) outputs = search orderly_rules
    IsOrderly-execute_parallel (cons child rest) failed outputs =
        IsOrderly-bind _ _ (IsOrderly-execute_node child) λ r. IsOrderly-execute_parallel rest _ _
