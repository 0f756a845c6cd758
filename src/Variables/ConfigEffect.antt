-- ===== src/Variables/ConfigEffect.antt =====
-- src/executor/variable_manager.cpp: what loadFromScheduleConfig writes, and which satellite it picks.
use actuator_final.Prelude.{
  Bool, false, List, [], ◌∷◌, ◌++◌, Option, none, some, length, ◌≡◌, refl, ◌∙◌, arith, All,
  if-holds, if_false,
}
use actuator_final.Prelude.Int.{pos, int_of_long}
use actuator_final.Text.{Text, codes, text_eq, text_eq_iff, is_empty}
use actuator_final.Dict.{lookup, lookup-insert}
use actuator_final.Value.{Value, string, int}
use actuator_final.Json.{Json, get_text, find_member, value, elements}
use actuator_final.Variables.{VariableManager}
use actuator_final.Variables.Config.{
  put_global, put_count, put_node_id, put_satellite, load_one, load_satellites, load_member,
  load_from_schedule_config,
}

-- A name that the function does not write.
abbrev pub IsOther : Text → Type 0
IsOther name =
    (text_eq (codes "satellite_id") name ≡ false)
    × (text_eq (codes "node_id") name ≡ false)
    × (text_eq (codes "my_scheduled_task_count") name ≡ false)

module _ {F : Type 0} where
  -- What is kept of a manager.
  abbrev pub Kept : Text → VariableManager F → VariableManager F → Type 0
  Kept name vm after =
      (lookup name after.global_vars ≡ lookup name vm.global_vars)
      × (after.local_vars ≡ vm.local_vars)
      × (after.intermediate_vars ≡ vm.intermediate_vars)

  Kept-put :
      (name key : Text) (v : Value F) (vm after : VariableManager F)
      → text_eq key name ≡ false
      → Kept name vm after
      → Kept name vm (put_global key v after)
  Kept-put name key v vm after e (global, local, intermediate) = (
    lookup-insert key name v after.global_vars
        ∙ if_false (some v) (lookup name after.global_vars) e
        ∙ global,
    local,
    intermediate,
  )

  Kept-count :
      (name : Text) (tasks : Option (Json F)) (vm after : VariableManager F)
      → IsOther name
      → Kept name vm after
      → Kept name vm (put_count tasks after)
  unfolding put_count
  Kept-count name none vm after other h = h
  Kept-count name (some tasks) vm after (a, b, c) h =
      Kept-put name (codes "my_scheduled_task_count")
        (int (int_of_long (pos (length (elements tasks))))) vm after c h

  Kept-node_id :
      (name : Text) (node_id : Option Text) (sat : Json F) (vm after : VariableManager F)
      → IsOther name
      → Kept name vm after
      → Kept name vm (put_node_id node_id sat after).1
  unfolding put_node_id
  Kept-node_id name none sat vm after other h = h
  Kept-node_id name (some node_id) sat vm after (a, b, c) h =
      Kept-count name (find_member (codes "scheduled_tasks") sat) vm
        (put_global (codes "node_id") (string node_id) after) (a, b, c)
        (Kept-put name (codes "node_id") (string node_id) vm after b h)

  Kept-one :
      (name satellite_id : Text) (id : Option Text) (sat : Json F) (rest : Bool × VariableManager F)
      (vm : VariableManager F)
      → IsOther name
      → Kept name vm rest.1
      → Kept name vm (load_one satellite_id id sat rest vm).1
  unfolding load_one put_satellite
  Kept-one name satellite_id none sat rest vm other h = (refl, refl, refl)
  Kept-one name satellite_id (some id) sat rest vm (a, b, c) h =
      if-holds (λ (r : Bool × VariableManager F). Kept name vm r.1) (text_eq id satellite_id)
        (Kept-node_id name (value get_text (codes "node_id") [] sat) sat vm
          (put_global (codes "satellite_id") (string satellite_id) vm) (a, b, c)
          (Kept-put name (codes "satellite_id") (string satellite_id) vm vm a (refl, refl, refl)))
        h

  Kept-satellites :
      (name satellite_id : Text) (sats : List (Json F)) (vm : VariableManager F)
      → IsOther name
      → Kept name vm (load_satellites satellite_id sats vm).1
  unfolding load_satellites
  Kept-satellites name satellite_id [] vm other = (refl, refl, refl)
  Kept-satellites name satellite_id (sat ∷ sats) vm other =
      Kept-one name satellite_id (value get_text (codes "satellite_id") [] sat) sat
        (load_satellites satellite_id sats vm) vm other
        (Kept-satellites name satellite_id sats vm other)

  Kept-member :
      (name satellite_id : Text) (j : Option (Json F)) (vm : VariableManager F)
      → IsOther name
      → Kept name vm (load_member satellite_id j vm).1
  unfolding load_member
  Kept-member name satellite_id none vm other = (refl, refl, refl)
  Kept-member name satellite_id (some j) vm other =
      Kept-satellites name satellite_id (elements j) vm other

  -- Whatever the file holds, and whether or not it throws, the loading of a satellite's state writes
  -- no local and no intermediate variable, and no global one but satellite_id, node_id and my_scheduled_task_count.
  pub load_from_schedule_config-Kept :
      (file : Option (Json F)) (satellite_id name : Text) (vm : VariableManager F)
      → IsOther name
      → Kept name vm (load_from_schedule_config file satellite_id vm).1
  unfolding load_from_schedule_config
  load_from_schedule_config-Kept none satellite_id name vm other = (refl, refl, refl)
  load_from_schedule_config-Kept (some config) satellite_id name vm other =
      if-holds (λ (r : Bool × VariableManager F). Kept name vm r.1) (is_empty satellite_id)
        (refl, refl, refl)
        (Kept-member name satellite_id (find_member (codes "satellites") config) vm other)

  -- The first satellite of the file that has the id is the one that is loaded: those before it, if their ids can be
  -- read, do not count, and nothing behind it matters.
  pub load_satellites-first :
      (satellite_id : Text) (before after : List (Json F)) (sat : Json F) (vm : VariableManager F)
      → All
          (λ (j : Json F).
            (id : Text) × (value get_text (codes "satellite_id") [] j ≡ some id)
            × (text_eq id satellite_id ≡ false))
          before
      → value get_text (codes "satellite_id") [] sat ≡ some satellite_id
      → load_satellites satellite_id (before ++ sat ∷ after) vm ≡ put_satellite satellite_id sat vm
  unfolding load_satellites load_one
  load_satellites-first satellite_id [] after sat vm h own =
      rw own (ground (arith, text_eq_iff satellite_id satellite_id))
  load_satellites-first satellite_id (j ∷ before) after sat vm ((id, reads, other), rest) own =
      rw (reads, other) (load_satellites-first satellite_id before after sat vm rest own)
