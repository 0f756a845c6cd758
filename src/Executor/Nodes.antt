-- ===== src/Executor/Nodes.antt =====
-- src/executor/generic_executor.cpp: executeNode and the functions that it calls for each node type.
use actuator_final.Prelude.{
  false, ◌&&◌, ◌||◌, [], ◌∷◌, ◌++◌, Option, none, some, if◌then◌else◌, not,
}
use actuator_final.Text.{Text, codes, text_eq, is_empty, contains}
use actuator_final.Dict.{Dict, lookup, insert, erase, merge}
use actuator_final.Result.{Result, ok}
use actuator_final.Value.{Floating, Value, double, string, bool}
use actuator_final.Variables.{VariableManager, local, get, exists}
use actuator_final.Behavior.{NodeType, NodeFields, BehaviorNode, Nodes, node, nil, cons, fields}
use actuator_final.Constraint.{evaluate, evaluate_detailed}
use actuator_final.Executor.Runtime.{Exec, pure, reads, set_variable, cancelled, ◌>>=◌, ◌>>◌}
use actuator_final.Executor.Commands.{
  ExecutionResult, Success, Failure, succeed_with, execute_command,
}

unfoldable pub observation_alias : Text → Text
observation_alias key =
    if text_eq key (codes "POS_X")
    then codes "x"
    else if text_eq key (codes "POS_Y")
    then codes "y"
    else if text_eq key (codes "POS_Z")
    then codes "z"
    else if text_eq key (codes "TARGET_X")
    then codes "tx"
    else if text_eq key (codes "TARGET_Y")
    then codes "ty"
    else if text_eq key (codes "TARGET_Z")
    then codes "tz"
    else if text_eq key (codes "REC")
    then codes "rec_type"
    else if text_eq key (codes "REC_TRUE")
    then codes "rec_type_true"
    else []

module _ {F : Type 0} ⦃fl : Floating F⦄ where
  unfoldable pub default_observation_value : Text → Value F
  default_observation_value key =
      if contains (codes "REC") key || contains (codes "TYPE") key
      then string []
      else if contains (codes "IS_") key
          || (contains (codes "FLAG") key || contains (codes "LIGHT") key)
      then bool false
      else double (fl.literal (codes "0.0"))

  -- The sensor, else its alias, else the variable itself, else the default. Each read follows an
  -- `exists`, so none throws.
  unfoldable pub observed_value : Text → Text → VariableManager F → Result (Value F)
  observed_value name key vm =
      let alias = observation_alias key in
      if exists key vm
      then get key vm
      else if not (is_empty alias) && exists alias vm
      then get alias vm
      else if exists name vm
      then get name vm
      else ok (default_observation_value key)

  unfoldable pub apply_observation_values : Dict Text → Exec F (Unit {0})
  apply_observation_values [] = pure tt
  apply_observation_values ((name, key) ∷ observation) = do
    value ← reads (observed_value name key)
    set_variable name value local
    apply_observation_values observation

  -- The value that one parameter has in the outputs: its output, else the variable, else the text.
  unfoldable pub param_output : Dict (Value F) → VariableManager F → Text → Text → Result (Value F)
  param_output outputs vm key text = elim (lookup key outputs) [
    | some value ↦ ok value
    | none ↦ if exists key vm then get key vm else ok (string text)
  ]

  -- appendNodeParamsToOutputs
  unfoldable pub append_params : Text → Dict Text → Dict (Value F) → Exec F (Dict (Value F))
  append_params name [] outputs = pure outputs
  append_params name ((key, text) ∷ params) outputs = do
    value ← reads (λ vm. param_output outputs vm key text)
    append_params name params (insert (name ++ (codes "." ++ key)) value outputs)

  unfoldable pub erase_params : Dict Text → Dict (Value F) → Dict (Value F)
  erase_params [] outputs = outputs
  erase_params ((key, text) ∷ params) outputs = erase_params params (erase key outputs)

  -- The end of executeNode: the outputs of a successful node are qualified by its name.
  unfoldable pub leave_node : NodeFields → ExecutionResult F → Exec F (ExecutionResult F)
  leave_node n result =
      let qualified : Exec F (ExecutionResult F) = do
        outputs ← append_params n.name n.params result.outputs
        pure (record result { outputs = erase_params n.params outputs })
      in if result.success && not (is_empty n.params) then qualified else pure result

  unfoldable pub execute_condition : NodeFields → Exec F (ExecutionResult F)
  execute_condition n =
      if is_empty n.expression then pure (Failure (codes "条件节点缺少表达式") n.name) else do
        holds ← reads (λ vm. evaluate vm n.expression)
        pure (if holds then Success (codes "条件为真") else Failure (codes "条件为假") n.name)

  -- The precondition: any node with an expression, whatever its type.
  unfoldable pub check_precondition :
      NodeFields → Exec F (ExecutionResult F) → Exec F (ExecutionResult F)
  check_precondition n body = if is_empty n.expression then body else do
    checked ← reads (λ vm. evaluate_detailed vm n.expression)
    if checked.satisfied then body else pure (Failure (codes "前置条件不满足: " ++ checked.message) n.name)

  -- executeNode around the switch on the node's type, which is `body`.
  unfoldable pub enter_node : NodeFields → Exec F (ExecutionResult F) → Exec F (ExecutionResult F)
  enter_node n body = do
    stop ← cancelled
    if stop
        then pure (Failure (codes "任务已取消") n.name)
        else do apply_observation_values n.observation; check_precondition n (body >>= leave_node n)

  -- The failed node that executeParallel reports.
  unfoldable pub failed_in : Text → ExecutionResult F → Text
  failed_in child result = if is_empty result.failed_node then child else result.failed_node

  unfoldable pub after_child : Text → Option Text → ExecutionResult F → Option Text
  after_child child (some first) result = some first
  after_child child none result = if result.success then none else some (failed_in child result)

  unfoldable mutual
    pub execute_node : BehaviorNode → Exec F (ExecutionResult F)
    execute_node (node n children) =
        let sequence = execute_sequence children [] in
        let selector = execute_selector n.name children in
        let parallel = execute_parallel children none [] in
        enter_node n (elim n.type [
          | NodeType.action ↦ execute_command n.command n.params
          | NodeType.condition ↦ execute_condition n
          | NodeType.sequence ↦ sequence
          | NodeType.selector ↦ selector
          | NodeType.parallel ↦ parallel
          | NodeType.subtree ↦ execute_command n.command n.params
        ])

    -- executeSequence: `outputs` is seq_result.outputs.
    pub execute_sequence : Nodes → Dict (Value F) → Exec F (ExecutionResult F)
    execute_sequence nil outputs = pure (succeed_with outputs)
    execute_sequence (cons child rest) outputs = do
      result ← execute_node child
      let more = execute_sequence rest (merge outputs result.outputs)
      if result.success then more else pure result

    -- executeSelector
    pub execute_selector : Text → Nodes → Exec F (ExecutionResult F)
    execute_selector name nil = pure (Failure (codes "所有分支均失败") name)
    execute_selector name (cons child rest) = do
      result ← execute_node child
      let more = execute_selector name rest
      if result.success then pure result else more

    -- executeParallel: `failed` is first_failed_node, once all_success is false.
    pub execute_parallel : Nodes → Option Text → Dict (Value F) → Exec F (ExecutionResult F)
    execute_parallel nil none outputs = pure (succeed_with outputs)
    execute_parallel nil (some failed) outputs = pure (Failure (codes "部分子节点失败") failed)
    execute_parallel (cons child rest) failed outputs = do
      result ← execute_node child
      execute_parallel rest (after_child (fields child).name failed result)
          (if result.success then merge outputs result.outputs else outputs)
