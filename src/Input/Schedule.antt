-- ===== src/Input/Schedule.antt =====
-- src/parser/json_parser.{h,cpp}: ScheduleParser::parseAllSatellites, with what it has filled in when the JSON library
-- throws, and loadSchedule of src/coordinator/coordinator.cpp.
use actuator_final.Prelude.{Bool, List, [], ◌∷◌, ◌++◌, Option, none, some, if◌then◌else◌, not}
use actuator_final.Text.{Text, codes, is_empty}
use actuator_final.Dict.{Dict, insert}
use actuator_final.Value.{Floating}
use actuator_final.Behavior.{TaskSegment}
use actuator_final.Json.{
  Json, JsonLibrary, array, get_text, find_member, value, items, is_object, ◌>>=◌,
}
use actuator_final.Input.{parse_scalar_object_to_map}

pub record SatelliteInfo : Type 0 where
  pub satellite_id : Text
  pub node_id : Text
  pub name : Text

pub record MultiSatSchedule : Type 0 where
  pub satellite_tasks : Dict (List TaskSegment)
  pub satellite_ids : List Text
  pub satellites : List SatelliteInfo

abbrev pub empty_schedule : MultiSatSchedule
empty_schedule = record { satellite_tasks = []; satellite_ids = []; satellites = [] }

-- The elements of a member, if it is an array.
unfoldable pub array_in : {F : Type 0} → Option (Json F) → List (Json F)
unfolding items
array_in (some (array is)) = items is
array_in _ = []

-- Where a satellite stops the parser: not at all, or at an exception, with what was filled in by then.
pub data Parsed : Type 0 where
  parsed thrown : MultiSatSchedule → Parsed

-- What is there after the exception is caught.
unfoldable pub result_of : Parsed → MultiSatSchedule
result_of (parsed s) = s
result_of (thrown s) = s

unfoldable pub push_id : Text → MultiSatSchedule → MultiSatSchedule
push_id id s = record s { satellite_ids = s.satellite_ids ++ id ∷ [] }

unfoldable pub push_satellite : SatelliteInfo → MultiSatSchedule → MultiSatSchedule
push_satellite info s = record s { satellites = s.satellites ++ info ∷ [] }

unfoldable pub put_tasks : Text → List TaskSegment → MultiSatSchedule → MultiSatSchedule
put_tasks id tasks s = record s { satellite_tasks = insert id tasks s.satellite_tasks }

unfoldable pub and_then : Parsed → (MultiSatSchedule → Parsed) → Parsed
and_then (parsed s) next = next s
and_then (thrown s) next = thrown s

-- What follows the push of a satellite, and of its id.
unfoldable pub add_tasks : Option (List TaskSegment) → Text → MultiSatSchedule → Parsed
unfolding put_tasks
add_tasks none sat_id s = thrown s
add_tasks (some tasks) sat_id s = parsed (put_tasks sat_id tasks s)

module _ {F : Type 0} ⦃fl : Floating F⦄ ⦃lib : JsonLibrary F⦄ where
  -- parseTaskSegment
  unfoldable pub parse_task_segment : Json F → Text → Option TaskSegment
  parse_task_segment task_json sat_id = do
    segment_id ← value get_text (codes "segment_id") [] task_json
    task_id ← value get_text (codes "task_id") [] task_json
    behavior_ref ← value get_text (codes "behavior_ref") [] task_json
    some (record {
      segment_id = segment_id;
      task_id = task_id;
      satellite_id = sat_id;
      behavior_ref = behavior_ref;
      behavior_params =
          parse_scalar_object_to_map (find_member (codes "behavior_params") task_json) [];
    })

  -- The loop over the tasks of a satellite.
  unfoldable pub parse_tasks : List (Json F) → Text → Option (List TaskSegment)
  parse_tasks [] sat_id = some []
  parse_tasks (j ∷ js) sat_id =
      let here = parse_task_segment j sat_id in
      let rest = parse_tasks js sat_id in
      if is_object j then (here >>= λ task. rest >>= λ tasks. some (task ∷ tasks)) else rest

  unfoldable pub satellite_info : Json F → Text → Option SatelliteInfo
  satellite_info j sat_id = do
    node_id ← value get_text (codes "node_id") sat_id j
    name ← value get_text (codes "name") sat_id j
    some (record { satellite_id = sat_id; node_id = node_id; name = name })

  unfoldable pub add_info : Option SatelliteInfo → Json F → Text → MultiSatSchedule → Parsed
  unfolding push_satellite add_tasks parse_tasks array_in
  add_info none j sat_id s = thrown s
  add_info (some info) j sat_id s =
      add_tasks (parse_tasks (array_in (find_member (codes "scheduled_tasks") j)) sat_id) sat_id
        (push_satellite info s)

  unfoldable pub add_satellite : Option Text → Json F → MultiSatSchedule → Parsed
  unfolding push_id add_info satellite_info
  add_satellite none j s = thrown s
  add_satellite (some sat_id) j s =
      if is_empty sat_id
      then parsed s
      else add_info (satellite_info j sat_id) j sat_id (push_id sat_id s)

  unfoldable pub parse_satellite : Json F → MultiSatSchedule → Parsed
  unfolding add_satellite
  parse_satellite j s =
      if is_object j
      then add_satellite (value get_text (codes "satellite_id") [] j) j s
      else parsed s

  unfoldable pub parse_satellites : List (Json F) → MultiSatSchedule → Parsed
  unfolding parse_satellite and_then
  parse_satellites [] s = parsed s
  parse_satellites (j ∷ js) s = and_then (parse_satellite j s) (parse_satellites js)

  -- parseAllSatellites
  unfoldable pub parse_all_satellites : Option (Json F) → MultiSatSchedule
  unfolding parse_satellites result_of array_in
  parse_all_satellites none = empty_schedule
  parse_all_satellites (some schedule_json) =
      result_of (
        parse_satellites (array_in (find_member (codes "satellites") schedule_json)) empty_schedule)

  -- loadSchedule
  unfoldable pub load_schedule : Option (Json F) → Bool × MultiSatSchedule
  unfolding parse_all_satellites
  load_schedule file =
      let schedule = parse_all_satellites file in (not (is_empty schedule.satellite_ids), schedule)
