-- ===== src/Input/TaskShape.antt =====
-- src/parser/json_parser.cpp: the tasks that parseTaskSegment makes.
use actuator_final.Prelude.{List, [], ◌∷◌, Option, none, some, ◌≡◌, refl, All, if-holds, OnSome}
use actuator_final.Text.{Text, codes}
use actuator_final.Dict.{Dict}
use actuator_final.Dict.Sorted.{IsSorted, insert-IsSorted}
use actuator_final.Value.{Floating}
use actuator_final.Behavior.{TaskSegment}
use actuator_final.Json.{Json, JsonLibrary, get_text, find_member, value, is_object, ◌>>=◌}
use actuator_final.Input.{
  parse_scalar_object_to_map, scalars_to_map, insert_some, json_scalar_to_string, members_in,
}
use actuator_final.Input.Schedule.{parse_task_segment, parse_tasks}

-- A task of a satellite: it carries the satellite's id, and its parameters are in the order of their keys.
pub record IsTaskOf (sat_id : Text) (task : TaskSegment) : Type 0 where
  pub owner : task.satellite_id ≡ sat_id
  pub params : IsSorted task.behavior_params

pub insert_some-IsSorted :
    (key : Text) (t : Option Text) (out : Dict Text)
    → IsSorted out
    → IsSorted (insert_some key t out)
unfolding insert_some
insert_some-IsSorted key none out s = s
insert_some-IsSorted key (some t) out s = insert-IsSorted key t out s

module _ {F : Type 0} ⦃fl : Floating F⦄ ⦃lib : JsonLibrary F⦄ where
  pub scalars_to_map-IsSorted :
      (d : Dict (Json F)) (out : Dict Text) → IsSorted out → IsSorted (scalars_to_map d out)
  unfolding scalars_to_map
  scalars_to_map-IsSorted [] out s = s
  scalars_to_map-IsSorted ((key, j) ∷ d) out s =
      scalars_to_map-IsSorted d (insert_some key (json_scalar_to_string j) out)
        (insert_some-IsSorted key (json_scalar_to_string j) out s)

-- A task as it is made of its three texts, if all three are there.
made-OnSome :
    (sat_id : Text) (params : Dict Text) (a b c : Option Text)
    → IsSorted params
    → OnSome (IsTaskOf sat_id) (
        a >>= λ segment_id. b >>= λ task_id. c >>= λ behavior_ref. some (record {
          segment_id = segment_id;
          task_id = task_id;
          satellite_id = sat_id;
          behavior_ref = behavior_ref;
          behavior_params = params;
        }))
made-OnSome sat_id params none b c s = tt
made-OnSome sat_id params (some x) none c s = tt
made-OnSome sat_id params (some x) (some y) none s = tt
made-OnSome sat_id params (some x) (some y) (some z) s = record { owner = refl; params = s }

cons-OnSome :
    (P : TaskSegment → Type 0) (here : Option TaskSegment) (rest : Option (List TaskSegment))
    → OnSome P here
    → OnSome (All P) rest
    → OnSome (All P) (here >>= λ task. rest >>= λ tasks. some (task ∷ tasks))
cons-OnSome P none rest h k = tt
cons-OnSome P (some task) none h k = tt
cons-OnSome P (some task) (some tasks) h k = (h, k)

module _ {F : Type 0} ⦃fl : Floating F⦄ ⦃lib : JsonLibrary F⦄ where
  parse_task_segment-IsTaskOf :
      (j : Json F) (sat_id : Text) → OnSome (IsTaskOf sat_id) (parse_task_segment j sat_id)
  unfolding parse_task_segment parse_scalar_object_to_map
  parse_task_segment-IsTaskOf j sat_id =
      let params = members_in (find_member (codes "behavior_params") j) in
      made-OnSome sat_id (scalars_to_map params []) (value get_text (codes "segment_id") [] j)
        (value get_text (codes "task_id") [] j) (value get_text (codes "behavior_ref") [] j)
        (scalars_to_map-IsSorted params [] tt)

  pub parse_tasks-IsTaskOf :
      (js : List (Json F)) (sat_id : Text) → OnSome (All (IsTaskOf sat_id)) (parse_tasks js sat_id)
  unfolding parse_tasks
  parse_tasks-IsTaskOf [] sat_id = tt
  parse_tasks-IsTaskOf (j ∷ js) sat_id =
      let rest = parse_tasks-IsTaskOf js sat_id in
      if-holds (OnSome (All (IsTaskOf sat_id))) (is_object j)
        (cons-OnSome (IsTaskOf sat_id) (parse_task_segment j sat_id) (parse_tasks js sat_id)
          (parse_task_segment-IsTaskOf j sat_id) rest)
        rest
