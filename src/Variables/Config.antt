-- ===== src/Variables/Config.antt =====
-- src/executor/variable_manager.cpp: loadFromScheduleConfig. What the stream reads from the file is an argument,
-- `none` where it cannot be opened or read. The Boolean says whether the function returns; where it throws,
-- what it wrote before stays.
use actuator_final.Prelude.{
  Bool, true, false, List, [], ◌∷◌, Option, none, some, if◌then◌else◌, length,
}
use actuator_final.Prelude.Int.{pos, int_of_long}
use actuator_final.Text.{Text, codes, text_eq, is_empty}
use actuator_final.Dict.{insert}
use actuator_final.Value.{Value, string, int}
use actuator_final.Json.{Json, get_text, find_member, value, elements}
use actuator_final.Variables.{VariableManager}

module _ {F : Type 0} where
  abbrev pub put_global : Text → Value F → VariableManager F → VariableManager F
  put_global name v vm = record vm { global_vars = insert name v vm.global_vars }

  -- sat["scheduled_tasks"].size() as an int, if it is there
  unfoldable pub put_count : Option (Json F) → VariableManager F → VariableManager F
  unfolding elements
  put_count none vm = vm
  put_count (some tasks) vm =
      put_global (codes "my_scheduled_task_count")
        (int (int_of_long (pos (length (elements tasks))))) vm

  unfoldable pub put_node_id : Option Text → Json F → VariableManager F → Bool × VariableManager F
  unfolding put_count
  put_node_id none sat vm = (false, vm)
  put_node_id (some node_id) sat vm = (
    true,
    put_count (find_member (codes "scheduled_tasks") sat)
        (put_global (codes "node_id") (string node_id) vm),
  )

  unfoldable pub put_satellite : Text → Json F → VariableManager F → Bool × VariableManager F
  unfolding put_node_id
  put_satellite satellite_id sat vm =
      put_node_id (value get_text (codes "node_id") [] sat) sat
        (put_global (codes "satellite_id") (string satellite_id) vm)

  -- One satellite, by its id if that can be read, and the rest of the loop.
  unfoldable pub load_one :
      Text
      → Option Text
      → Json F
      → Bool × VariableManager F
      → VariableManager F
      → Bool × VariableManager F
  unfolding put_satellite
  load_one satellite_id none sat rest vm = (false, vm)
  load_one satellite_id (some id) sat rest vm =
      if text_eq id satellite_id then put_satellite satellite_id sat vm else rest

  unfoldable pub load_satellites :
      Text → List (Json F) → VariableManager F → Bool × VariableManager F
  unfolding load_one
  load_satellites satellite_id [] vm = (true, vm)
  load_satellites satellite_id (sat ∷ sats) vm =
      load_one satellite_id (value get_text (codes "satellite_id") [] sat) sat
        (load_satellites satellite_id sats vm) vm

  unfoldable pub load_member : Text → Option (Json F) → VariableManager F → Bool × VariableManager F
  unfolding load_satellites elements
  load_member satellite_id none vm = (true, vm)
  load_member satellite_id (some j) vm = load_satellites satellite_id (elements j) vm

  unfoldable pub load_from_schedule_config :
      Option (Json F) → Text → VariableManager F → Bool × VariableManager F
  unfolding load_member
  load_from_schedule_config none satellite_id vm = (false, vm)
  load_from_schedule_config (some config) satellite_id vm =
      if is_empty satellite_id
      then (true, vm)
      else load_member satellite_id (find_member (codes "satellites") config) vm
