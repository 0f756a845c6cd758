-- ===== src/Payloads.antt =====
-- The JSON payloads between coordinator and satellites: MessageSerializer::serializeBatchTaskAssign of
-- src/coordinator/inter_sat_comm.cpp, and the functions with which src/coordinator/coordinator.cpp and
-- src/executor/satellite_simulator.cpp print and parse messages. A parser returns `none` where the code
-- returns false, that is, where the JSON library throws.
pub mod Batch
pub mod Reports
pub mod BatchRoundTrip
pub mod ReportRoundTrip
use actuator_final.Prelude.{ℕ, Bool, true, false, List, [], ◌∷◌, Option, none, some, if◌then◌else◌}
use actuator_final.Prelude.Int.{ℤ, int_of_long}
use actuator_final.Text.{Text, codes}
use actuator_final.Text.Numerals.{int_to_string}
use actuator_final.Dict.{Dict, insert}
use actuator_final.Value.{Floating}
use actuator_final.Json.{
  Json, JsonLibrary, null, boolean, integer, float, text, array, object, get_text, keyed, elements,
  find_member, ◌>>=◌,
}

-- The loop that pushes get<std::string>() of each element.
unfoldable pub collect_texts : {F : Type 0} → List (Json F) → Option (List Text)
unfolding get_text
collect_texts [] = some []
collect_texts (j ∷ js) = do t ← get_text j; ts ← collect_texts js; some (t ∷ ts)

unfoldable pub read_texts : {F : Type 0} → Option (Json F) → Option (List Text)
read_texts none = some []
read_texts (some j) = collect_texts (elements j)

module _ {F : Type 0} ⦃fl : Floating F⦄ ⦃lib : JsonLibrary F⦄ where
  -- jsonValueToString
  unfoldable pub json_to_string : Json F → Text
  json_to_string (text s) = s
  json_to_string (integer n) = int_to_string (int_of_long n)
  json_to_string (float x) = lib.stream x
  json_to_string (boolean true) = codes "true"
  json_to_string (boolean false) = codes "false"
  json_to_string j = lib.dump j

  unfoldable pub collect_params : Dict (Json F) → Dict Text → Dict Text
  collect_params [] out = out
  collect_params ((key, j) ∷ d) out = collect_params d (insert key (json_to_string j) out)

  -- The loop over a member that holds a map, if the member is there.
  unfoldable pub read_params : Option (Json F) → Option (Dict Text)
  unfolding collect_params
  read_params none = some []
  read_params (some j) = do d ← keyed j; some (collect_params d [])
