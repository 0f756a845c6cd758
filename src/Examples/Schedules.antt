-- ===== src/Examples/Schedules.antt =====
-- A schedule of two satellites, one of which has a task, and the same with an entry that is no satellite.
use actuator_final.Variables.{VariableManager, empty_manager}
use actuator_final.Variables.Config.{load_satellites, put_satellite}
use actuator_final.Variables.ConfigEffect.{load_satellites-first}
use actuator_final.Input.{parse_behavior_definition}
use actuator_final.Input.Definitions.{IsDefinition, parse_behavior_definition-IsDefinition}
use actuator_final.Prelude.{OnSome, false, true, [], ◌∷◌, ◌++◌, some, ◌≡◌, refl, inl}
use actuator_final.Prelude.Int.{ℤ, pos}
use actuator_final.Text.{codes, text_eq}
use actuator_final.Dict.{lookup}
use actuator_final.Behavior.{TaskSegment}
use actuator_final.Json.{
  Json, Items, Members, text, integer, array, object, members, items_of, value, get_text,
}
use actuator_final.Input.Schedule.{MultiSatSchedule, parse_all_satellites, result_of}
use actuator_final.Input.ScheduleShape.{IsSchedule, Good, outcome, parse_all_satellites-Good}
use actuator_final.Comm.{Comm, default_config, new_comm}
use actuator_final.Coordinator.Outcome.{Some}
use actuator_final.Coordinator.Dispatch.{
  Receiver, satellite, Unset, distribute_all_tasks, find_satellite,
}
use actuator_final.Coordinator.Distribution.{IsReachable, IsDelivery, distribute_all_tasks-delivers}
use actuator_final.Examples.{whole_numbers}
use actuator_final.Examples.Payloads.{three_values, no_details, to_a}

abbrev task_json : Json ℤ
task_json = object (Members.member (codes "task_id") (text (codes "T1")) Members.end)

abbrev pub sat_a : Json ℤ
sat_a = object (
    Members.member (codes "satellite_id") (text (codes "A")) (
      Members.member (codes "scheduled_tasks") (array (Items.cons task_json Items.nil))
        Members.end))

-- A satellite whose id is a number.
abbrev bad_sat : Json ℤ
bad_sat = object (Members.member (codes "satellite_id") (integer (pos 3)) Members.end)

abbrev file_json : Json ℤ
file_json = object (
    Members.member (codes "satellites") (array (items_of ((sat_a ∷ []) ++ bad_sat ∷ sat_a ∷ [])))
      Members.end)

abbrev pub task_a : TaskSegment
task_a = record {
  segment_id = [];
  task_id = codes "T1";
  satellite_id = codes "A";
  behavior_ref = [];
  behavior_params = [];
}

abbrev pub schedule_a : MultiSatSchedule
schedule_a = record {
  satellite_tasks = (codes "A", task_a ∷ []) ∷ [];
  satellite_ids = codes "A" ∷ [];
  satellites = record { satellite_id = codes "A"; node_id = codes "A"; name = codes "A" } ∷ [];
}

parse_all_satellites-Good_example :
    Good (outcome (some file_json))
    × (parse_all_satellites (some file_json) ≡ result_of (outcome (some file_json)))
parse_all_satellites-Good_example = parse_all_satellites-Good (some file_json)

abbrev pub unset : Unset ℤ
unset = record { header = to_a.header; profit = pos 7; details = no_details }

abbrev hub : Comm Receiver
hub = record (new_comm Receiver default_config) {
  local_handlers = (codes "A", satellite (codes "A")) ∷ [];
}

a-IsReachable : IsReachable schedule_a hub.local_handlers (codes "A")
unfolding lookup text_eq find_satellite
a-IsReachable = record {
  named = refl;
  handled = refl;
  info = record { satellite_id = codes "A"; node_id = codes "A"; name = codes "A" };
  listed = refl;
}

pub tasks_of_a : lookup (codes "A") schedule_a.satellite_tasks ≡ some (task_a ∷ [])
unfolding lookup text_eq
tasks_of_a = refl

distribute_all_tasks-delivers_example :
    let d = distribute_all_tasks unset (codes "C") schedule_a (λ n. 5) hub in
    (d.0 ≡ true) × Some (IsDelivery unset (codes "A") (task_a ∷ [])) d.1
distribute_all_tasks-delivers_example =
    distribute_all_tasks-delivers unset (codes "C") schedule_a (λ n. 5) hub (codes "A") task_a []
      (a-IsReachable, tt) (inl refl) tasks_of_a

pub schedule_a-IsSchedule : IsSchedule schedule_a
schedule_a-IsSchedule = record {
  named = (refl, tt);
  tracks = refl;
  sorted = (tt, tt);
  owned = ((record { owner = refl; params = tt }, tt), tt);
}

abbrev vars : VariableManager ℤ
vars = empty_manager

abbrev sat_b : Json ℤ
sat_b = object (Members.member (codes "satellite_id") (text (codes "B")) Members.end)

b_is_read : value get_text (codes "satellite_id") [] sat_b ≡ some (codes "B")
unfolding value get_text members lookup text_eq
b_is_read = refl

b_is_not_a : text_eq (codes "B") (codes "A") ≡ false
unfolding text_eq
b_is_not_a = refl

a_is_read : value get_text (codes "satellite_id") [] sat_a ≡ some (codes "A")
unfolding value get_text members lookup text_eq
a_is_read = refl

load_satellites-first_example :
    load_satellites (codes "A") ((sat_b ∷ []) ++ sat_a ∷ bad_sat ∷ []) vars
    ≡ put_satellite (codes "A") sat_a vars
load_satellites-first_example =
    load_satellites-first (codes "A") (sat_b ∷ []) (bad_sat ∷ []) sat_a vars
      ((codes "B", b_is_read, b_is_not_a), tt) a_is_read

abbrev library : Json ℤ
library = object (
    Members.member (codes "behavior_definitions")
      (object (Members.member (codes "observe") (object Members.end) Members.end)) Members.end)

parse_behavior_definition-IsDefinition_example :
    OnSome IsDefinition (parse_behavior_definition (some library) (codes "observe"))
parse_behavior_definition-IsDefinition_example =
    parse_behavior_definition-IsDefinition (some library) (codes "observe") refl
