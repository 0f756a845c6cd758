-- ===== src/Executor/Frame/Commands.antt =====
-- src/executor/generic_executor.cpp: the built-in commands are orderly.
use actuator_final.Prelude.{List, [], ◌∷◌}
use actuator_final.Text.{Text, codes, find}
use actuator_final.Dict.{Dict, lookup}
use actuator_final.Value.{Floating, Value}
use actuator_final.Variables.{Scope}
use actuator_final.Executor.Commands.{
  evaluates, assign, move_to, packet_of, received, receive_params, receive, report, set_var_at,
  set_var, execute_builtin_command, execute_command,
}
use actuator_final.Executor.Expressions.Termination.{Settled-evaluate_value_expression}
use actuator_final.Executor.Frame.{
  IsOrderly, orderly_rules, IsOrderly-option, IsOrderly-pure, IsOrderly-reads,
}

module _ {F : Type 0} ⦃fl : Floating F⦄ where
  IsOrderly-evaluates : (e : Text) → IsOrderly {F = F} (evaluates e)
  unfolding evaluates
  IsOrderly-evaluates e = IsOrderly-reads _ (Settled-evaluate_value_expression e)

  IsOrderly-assign :
      (scope : Scope) (params : Dict Text) (outputs : Dict (Value F))
      → IsOrderly (assign scope params outputs)
  unfolding assign
  IsOrderly-assign scope [] outputs = search orderly_rules
  IsOrderly-assign scope ((name, e) ∷ params) outputs =
      let more = IsOrderly-assign scope params in search (orderly_rules, IsOrderly-evaluates, more)

  IsOrderly-move_to :
      (keys : List (Text × Text)) (params : Dict Text) (outputs : Dict (Value F))
      → IsOrderly (move_to keys params outputs)
  unfolding move_to
  IsOrderly-move_to [] params outputs = search orderly_rules
  IsOrderly-move_to ((axis, sensor) ∷ keys) params outputs =
      let more = IsOrderly-move_to keys params in
      IsOrderly-option (lookup axis params) (more outputs)
        (λ e. search (orderly_rules, IsOrderly-evaluates, more))

  IsOrderly-packet_of :
      (params : Dict Text) (packet : Dict (Value F)) → IsOrderly (packet_of params packet)
  unfolding packet_of
  IsOrderly-packet_of [] packet = search orderly_rules
  IsOrderly-packet_of ((name, e) ∷ params) packet =
      let more = IsOrderly-packet_of params in search (orderly_rules, IsOrderly-evaluates, more)

  IsOrderly-received :
      (packet : Dict (Value F)) (name e : Text) → IsOrderly (received packet name e)
  unfolding received
  IsOrderly-received packet name e =
      IsOrderly-option (lookup name packet) (IsOrderly-evaluates e) (λ v. IsOrderly-pure v)

  IsOrderly-receive_params :
      (packet : Dict (Value F)) (params : Dict Text) (outputs : Dict (Value F))
      → IsOrderly (receive_params packet params outputs)
  unfolding receive_params
  IsOrderly-receive_params packet [] outputs = search orderly_rules
  IsOrderly-receive_params packet ((name, e) ∷ params) outputs =
      let more = IsOrderly-receive_params packet params in
      search (orderly_rules, IsOrderly-received, more)

  IsOrderly-receive : (params : Dict Text) → IsOrderly {F = F} (receive params)
  unfolding receive
  IsOrderly-receive params = search (orderly_rules, IsOrderly-receive_params)

  IsOrderly-report :
      (params : Dict Text) (outputs : Dict (Value F)) → IsOrderly (report params outputs)
  unfolding report
  IsOrderly-report [] outputs = search orderly_rules
  IsOrderly-report ((name, e) ∷ params) outputs =
      let more = IsOrderly-report params in search (orderly_rules, IsOrderly-evaluates, more)

  IsOrderly-set_var : (command : Text) → IsOrderly {F = F} (set_var command)
  unfolding set_var set_var_at
  IsOrderly-set_var command =
      IsOrderly-option (find (codes "=") command) (search orderly_rules)
        (λ i. search (orderly_rules, IsOrderly-evaluates))

  ruleset command_rules = (
    orderly_rules, IsOrderly-assign, IsOrderly-move_to, IsOrderly-packet_of, IsOrderly-receive,
    IsOrderly-report, IsOrderly-set_var,
  )

  pub IsOrderly-execute_command :
      (command : Text) (params : Dict Text) → IsOrderly {F = F} (execute_command command params)
  unfolding execute_command execute_builtin_command
  IsOrderly-execute_command command params = search command_rules depth 30
