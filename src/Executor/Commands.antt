-- ===== src/Executor/Commands.antt =====
-- src/executor/generic_executor.cpp: executeCommand and executeBuiltinCommand. Each loop over the
-- parameters is a function that carries `result.outputs`.
use actuator_final.Prelude.{
  ℕ, ◌-◌, Bool, true, false, List, [], ◌∷◌, ◌++◌, none, some, if◌then◌else◌, ltb, map, take, drop,
  not,
}
use actuator_final.Text.{Text, codes, text_eq, is_empty, contains, trim, find, to_upper}
use actuator_final.Dict.{Dict, lookup, insert}
use actuator_final.Value.{Floating, Value, bool}
use actuator_final.Variables.{Scope, global, local, intermediate}
use actuator_final.Executor.Runtime.{
  Exec, pure, reads, ◌>>=◌, ◌>>◌, set_variable, send_packet, receive_packet,
}
use actuator_final.Executor.Expressions.{evaluate_value_expression}

-- ExecutionResult; the elapsed time is not modelled.
pub record ExecutionResult (F : Type 0) : Type 0 where
  pub success : Bool
  pub message : Text
  pub failed_node : Text
  pub outputs : Dict (Value F)

module _ {F : Type 0} where
  abbrev pub Success : Text → ExecutionResult F
  Success message = record { success = true; message = message; failed_node = []; outputs = [] }

  abbrev pub Failure : Text → Text → ExecutionResult F
  Failure message failed = record {
    success = false;
    message = message;
    failed_node = failed;
    outputs = [];
  }

  abbrev pub succeed_with : Dict (Value F) → ExecutionResult F
  succeed_with outputs = record {
    success = true;
    message = [];
    failed_node = [];
    outputs = outputs;
  }

-- result_to_var of RECEIVE
unfoldable pub result_to : Dict Text → Text
result_to params = elim (lookup (codes "result_to") params) [ none ↦ [] | some s ↦ trim s ]

-- kPositionKeys
abbrev pub position_keys : List (Text × Text)
position_keys =
    (codes "x", codes "POS_X") ∷ (codes "y", codes "POS_Y") ∷ (codes "z", codes "POS_Z") ∷ []

module _ {F : Type 0} ⦃fl : Floating F⦄ where
  unfoldable pub evaluates : Text → Exec F (Value F)
  evaluates expression = reads (evaluate_value_expression expression)

  -- ASSIGN (local) and EMIT_COMMAND (intermediate): later expressions see earlier writes.
  unfoldable pub assign : Scope → Dict Text → Dict (Value F) → Exec F (Dict (Value F))
  assign scope [] outputs = pure outputs
  assign scope ((name, expression) ∷ params) outputs = do
    value ← evaluates expression
    set_variable name value scope
    assign scope params (insert name value outputs)

  unfoldable pub move_to : List (Text × Text) → Dict Text → Dict (Value F) → Exec F (Dict (Value F))
  move_to [] params outputs = pure outputs
  move_to ((axis, sensor) ∷ keys) params outputs = elim (lookup axis params) [
    | none ↦ move_to keys params outputs
    | some expression ↦ do
      value ← evaluates expression
      set_variable axis value local
      set_variable sensor value global
      move_to keys params (insert axis value outputs)
  ]

  -- The packet of SEND, which is also its outputs.
  unfoldable pub packet_of : Dict Text → Dict (Value F) → Exec F (Dict (Value F))
  packet_of [] packet = pure packet
  packet_of ((name, expression) ∷ params) packet = do
    value ← evaluates expression
    packet_of params (insert name value packet)

  unfoldable pub received : Dict (Value F) → Text → Text → Exec F (Value F)
  received packet name expression = elim (lookup name packet) [
    | some value ↦ pure value
    | none ↦ evaluates expression
  ]

  unfoldable pub receive_params :
      Dict (Value F) → Dict Text → Dict (Value F) → Exec F (Dict (Value F))
  receive_params packet [] outputs = pure outputs
  receive_params packet ((name, expression) ∷ params) outputs =
      let skip = receive_params packet params outputs in
      let take_value = do
        value ← received packet name expression
        set_variable name value local
        receive_params packet params (insert name value outputs)
      in if text_eq name (codes "result_to") then skip else take_value

  unfoldable pub receive : Dict Text → Exec F (ExecutionResult F)
  receive params = do
    packet ← receive_packet
    outputs ← receive_params packet params []
    let flag = result_to params
    let has_packet : Value F = bool (not (is_empty packet))
    if is_empty flag then pure (succeed_with outputs) else do
      set_variable flag has_packet local
      pure (succeed_with (insert flag has_packet outputs))

  unfoldable pub report : Dict Text → Dict (Value F) → Exec F (Dict (Value F))
  report [] outputs = pure outputs
  report ((name, expression) ∷ params) outputs = do
    value ← evaluates expression
    set_variable (codes "reported_" ++ name) value global
    report params (insert name value outputs)

  -- setvar <name>=<expression>: the offsets are into the command as it was given.
  unfoldable pub set_var_at : Text → ℕ → Exec F (ExecutionResult F)
  set_var_at command eq_pos =
      let name = trim (take (eq_pos - 6) (drop 6 command)) in
      let expression = trim (drop 1 (drop eq_pos command)) in
      if is_empty name then pure (Failure (codes "setvar 缺少变量名") []) else do
        value ← evaluates expression
        set_variable name value global
        pure (succeed_with (insert name value []))

  unfoldable pub set_var : Text → Exec F (ExecutionResult F)
  set_var command =
      let malformed = pure (Failure (codes "setvar 命令格式错误: " ++ command) []) in
      elim (find (codes "=") command) [
        | none ↦ malformed
        | some eq_pos ↦ if ltb 6 eq_pos then set_var_at command eq_pos else malformed
      ]

  unfoldable pub execute_builtin_command : Text → Dict Text → Exec F (ExecutionResult F)
  execute_builtin_command command params =
      let upper = map to_upper (trim command) in
      if text_eq upper (codes "NO_OP")
      then pure (Success (codes "NO_OP"))
      else if text_eq upper (codes "ASSIGN")
      then (do outputs ← assign local params []; pure (succeed_with outputs))
      else if text_eq upper (codes "MOVE_TO")
      then (do outputs ← move_to position_keys params []; pure (succeed_with outputs))
      else if text_eq upper (codes "SEND")
      then (do packet ← packet_of params []; send_packet packet; pure (succeed_with packet))
      else if text_eq upper (codes "RECEIVE")
      then receive params
      else if text_eq upper (codes "EMIT_COMMAND")
      then (do outputs ← assign intermediate params []; pure (succeed_with outputs))
      else if text_eq upper (codes "NEXT_TASK")
      then (do
        set_variable (codes "next_task") (bool true) local
        pure (Success (codes "NEXT_TASK")))
      else if text_eq upper (codes "REPORT_TARGET")
      then (do
        set_variable (codes "target_reported") (bool true) global
        outputs ← report params []
        pure (succeed_with outputs))
      else if text_eq upper (codes "EXIT")
      then (do
        set_variable (codes "mission_exit") (bool true) global
        pure (Success (codes "EXIT")))
      else if contains (codes "SETVAR") upper
      then set_var command
      else pure (Failure (codes "不支持的命令: " ++ command) [])

  unfoldable pub execute_command : Text → Dict Text → Exec F (ExecutionResult F)
  execute_command command params =
      if is_empty command then pure (Success []) else execute_builtin_command command params
