-- ===== src/Input/ScheduleShape.antt =====
-- src/parser/json_parser.cpp: what parseAllSatellites guarantees of its result, whatever the file holds.
use mathlib.Core.List.{map-append}
use actuator_final.Prelude.{
  false, List, [], ◌∷◌, ◌++◌, Option, none, some, ◌≡◌, refl, sym, ap, ◌∙◌, subst, All, map, ◌⊎◌,
  inl, inr, if-holds, OnSome, Bool-cases, if_true, if_false,
}
use actuator_final.Text.{Text, codes, is_empty}
use actuator_final.Dict.Sorted.{IsSorted, insert-IsSorted, All-insert}
use actuator_final.Value.{Floating}
use actuator_final.Behavior.{TaskSegment}
use actuator_final.Json.{Json, JsonLibrary, get_text, find_member, value, is_object, ◌>>=◌}
use actuator_final.Input.Schedule.{
  SatelliteInfo, MultiSatSchedule, empty_schedule, array_in, Parsed, parsed, thrown, result_of,
  push_id, push_satellite, put_tasks, and_then, parse_tasks, satellite_info, add_tasks, add_info,
  add_satellite, parse_satellite, parse_satellites, parse_all_satellites,
}
use actuator_final.Input.TaskShape.{IsTaskOf, parse_tasks-IsTaskOf}

-- The id of a satellite that is pushed before a throw has no entry in the list of satellites yet.
abbrev pub Tracks : List Text → List SatelliteInfo → Type 0
Tracks ids infos =
    (ids ≡ map (λ info. info.satellite_id) infos)
    ⊎ ((id : Text) × (ids ≡ map (λ info. info.satellite_id) infos ++ id ∷ []))

abbrev pub Named : Text → Type 0
Named id = is_empty id ≡ false

-- What holds while the parser goes on.
pub record IsSchedule (s : MultiSatSchedule) : Type 0 where
  pub named : All Named s.satellite_ids
  pub tracks : s.satellite_ids ≡ map (λ info. info.satellite_id) s.satellites
  pub sorted : IsSorted s.satellite_tasks
  pub owned : All (λ (sat, tasks). All (IsTaskOf sat) tasks) s.satellite_tasks

-- And what still holds when it was thrown out.
pub record IsResult (s : MultiSatSchedule) : Type 0 where
  pub named : All Named s.satellite_ids
  pub tracks : Tracks s.satellite_ids s.satellites
  pub sorted : IsSorted s.satellite_tasks
  pub owned : All (λ (sat, tasks). All (IsTaskOf sat) tasks) s.satellite_tasks

abbrev pub Good : Parsed → Type 0
Good (parsed s) = IsSchedule s
Good (thrown s) = IsResult s

All-snoc {ℓ κ} :
    {A : Type ℓ} (P : A → Type κ) (xs : List A) (x : A) → All P xs → P x → All P (xs ++ x ∷ [])
All-snoc P [] x h p = (p, tt)
All-snoc P (y ∷ ys) x (first, others) p = (first, All-snoc P ys x others p)

add_tasks-Good :
    (tasks : Option (List TaskSegment)) (id : Text) (s : MultiSatSchedule)
    → OnSome (All (IsTaskOf id)) tasks
    → IsSchedule s
    → Good (add_tasks tasks id s)
unfolding add_tasks put_tasks
add_tasks-Good none id s t h = record {
  named = h.named;
  tracks = inl h.tracks;
  sorted = h.sorted;
  owned = h.owned;
}
add_tasks-Good (some tasks) id s t h = record {
  named = h.named;
  tracks = h.tracks;
  sorted = insert-IsSorted id tasks s.satellite_tasks h.sorted;
  owned =
      All-insert (λ (sat, tasks). All (IsTaskOf sat) tasks) id tasks s.satellite_tasks t h.owned;
}

and_then-Good :
    (p : Parsed) (next : MultiSatSchedule → Parsed)
    → Good p
    → ((s : MultiSatSchedule) → IsSchedule s → Good (next s))
    → Good (and_then p next)
unfolding and_then
and_then-Good (parsed s) next h step = step s h
and_then-Good (thrown s) next h step = h

info-id :
    (id : Text) (a b : Option Text)
    → OnSome
        (λ (info : SatelliteInfo). info.satellite_id ≡ id)
        (a >>= λ node_id.
          b >>= λ name. some (record { satellite_id = id; node_id = node_id; name = name }))
info-id id none b = tt
info-id id (some x) none = tt
info-id id (some x) (some y) = refl

module _ {F : Type 0} ⦃fl : Floating F⦄ ⦃lib : JsonLibrary F⦄ where
  satellite_info-id :
      (j : Json F) (id : Text) → OnSome (λ info. info.satellite_id ≡ id) (satellite_info j id)
  unfolding satellite_info
  satellite_info-id j id =
      info-id id (value get_text (codes "node_id") id j) (value get_text (codes "name") id j)

  add_info-Good :
      (info : Option SatelliteInfo) (j : Json F) (id : Text) (s : MultiSatSchedule)
      → OnSome (λ n. n.satellite_id ≡ id) info
      → Named id
      → IsSchedule s
      → Good (add_info info j id (push_id id s))
  unfolding add_info push_id push_satellite
  add_info-Good none j id s same named h = record {
    named = All-snoc Named s.satellite_ids id h.named named;
    tracks = inr (id, ap (λ l. l ++ id ∷ []) h.tracks);
    sorted = h.sorted;
    owned = h.owned;
  }
  add_info-Good (some info) j id s same named h =
      let both : s.satellite_ids ++ id ∷ []
          ≡ map (λ n. n.satellite_id) (s.satellites ++ info ∷ []) =
        ap (λ l. l ++ id ∷ []) h.tracks
        ∙ ap (λ i. map (λ (n : SatelliteInfo). n.satellite_id) s.satellites ++ i ∷ []) (sym same)
        ∙ sym (map-append (λ (n : SatelliteInfo). n.satellite_id) s.satellites (info ∷ [])) in
      add_tasks-Good (parse_tasks (array_in (find_member (codes "scheduled_tasks") j)) id) id
        (push_satellite info (push_id id s))
        (parse_tasks-IsTaskOf (array_in (find_member (codes "scheduled_tasks") j)) id)
        (record {
          named = All-snoc Named s.satellite_ids id h.named named;
          tracks = both;
          sorted = h.sorted;
          owned = h.owned;
        })

  add_satellite-Good :
      (id : Option Text) (j : Json F) (s : MultiSatSchedule)
      → IsSchedule s
      → Good (add_satellite id j s)
  unfolding add_satellite
  add_satellite-Good none j s h = record {
    named = h.named;
    tracks = inl h.tracks;
    sorted = h.sorted;
    owned = h.owned;
  }
  add_satellite-Good (some id) j s h = elim (Bool-cases (is_empty id)) [
    | inl e ↦ subst Good (sym (if_true (parsed s) _ e)) h
    | inr e ↦
        subst Good (sym (if_false (parsed s) _ e))
          (add_info-Good (satellite_info j id) j id s (satellite_info-id j id) e h)
  ]

  parse_satellite-Good :
      (j : Json F) (s : MultiSatSchedule) → IsSchedule s → Good (parse_satellite j s)
  unfolding parse_satellite
  parse_satellite-Good j s h =
      if-holds Good (is_object j)
        (add_satellite-Good (value get_text (codes "satellite_id") [] j) j s h) h

  parse_satellites-Good :
      (js : List (Json F)) (s : MultiSatSchedule) → IsSchedule s → Good (parse_satellites js s)
  unfolding parse_satellites
  parse_satellites-Good [] s h = h
  parse_satellites-Good (j ∷ js) s h =
      and_then-Good (parse_satellite j s) (parse_satellites js) (parse_satellite-Good j s h)
        (parse_satellites-Good js)

  -- How the parsing of a file ends; a file that could not be read is not parsed.
  abbrev pub outcome : Option (Json F) → Parsed
  outcome none = parsed empty_schedule
  outcome (some j) = parse_satellites (array_in (find_member (codes "satellites") j)) empty_schedule

  -- Whatever the schedule file holds: the schedule is what the parser had filled in when it came to the
  -- end or was stopped by an exception. If it came to the end, the list of ids is that of the
  -- satellites in their order; if it was stopped, perhaps with one more id at the end. In both cases
  -- the ids are not empty, the tasks are in the order of the satellites' ids, and those under an id carry
  -- that id, with their parameters in the order of their keys.
  pub parse_all_satellites-Good :
      (file : Option (Json F))
      → Good (outcome file) × (parse_all_satellites file ≡ result_of (outcome file))
  unfolding parse_all_satellites result_of
  parse_all_satellites-Good none =
      (record { named = tt; tracks = refl; sorted = tt; owned = tt }, refl)
  parse_all_satellites-Good (some j) =
      let js = array_in (find_member (codes "satellites") j) in
      (
        parse_satellites-Good js empty_schedule
            (record { named = tt; tracks = refl; sorted = tt; owned = tt }),
        refl,
      )
