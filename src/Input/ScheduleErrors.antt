-- ===== src/Input/ScheduleErrors.antt =====
-- src/parser/json_parser.cpp: what is left of a schedule when the JSON library throws in the middle of it.
use actuator_final.Prelude.{List, [], ◌∷◌, ◌++◌, ◌≡◌, ◌⊎◌}
use actuator_final.Text.{Text}
use actuator_final.Json.{Json}
use actuator_final.Input.Schedule.{MultiSatSchedule, Parsed, parsed, thrown}

-- A property of what was filled in, where the parser is thrown out.
abbrev pub OnThrown : (MultiSatSchedule → Type 0) → Parsed → Type 0
OnThrown P (parsed s) = Unit
OnThrown P (thrown s) = P s

-- The same list, or one more element behind it.
abbrev pub OneMore : {A : Type 0} → List A → List A → Type 0
OneMore {A} xs ys = (ys ≡ xs) ⊎ ((x : A) × (ys ≡ xs ++ x ∷ []))

-- What a satellite that is only partly parsed adds: at most its id and its description, and no tasks.
abbrev pub Partly : MultiSatSchedule → MultiSatSchedule → Type 0
Partly t u =
    OneMore t.satellite_ids u.satellite_ids
    × OneMore t.satellites u.satellites
    × (u.satellite_tasks ≡ t.satellite_tasks)
