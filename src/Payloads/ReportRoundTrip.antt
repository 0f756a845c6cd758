-- ===== src/Payloads/ReportRoundTrip.antt =====
-- The coordinator reads acknowledgements and completions as the simulator printed them.
use actuator_final.Prelude.{◌<◌, ◌^◌, List, [], ◌∷◌, some, ◌≡◌, refl, ap, ◌∙◌, map}
use actuator_final.Text.{Text, text_eq, text_lt}
use actuator_final.Dict.{lookup, insert, merge}
use actuator_final.Dict.Sorted.{IsSorted}
use actuator_final.Value.{Floating}
use actuator_final.Messages.{BatchTaskAssignAck, TaskCompleteMessage}
use actuator_final.Json.{
  JsonLibrary, text, members, members_of, text_array, find_member, value, get_text, get_bool,
  get_int, get_uint64, object_with, elements, ◌>>=◌,
}
use actuator_final.Json.Objects.{items-items_of}
use actuator_final.Payloads.{collect_texts, read_texts}
use actuator_final.Payloads.BatchRoundTrip.{
  IsInt, int_of_long-IsInt, uint64_of-pos, read_params-text_object,
}
use actuator_final.Payloads.Reports.{
  ack_json, complete_json, read_ack, read_complete, serialize_ack, serialize_complete, parse_ack,
  parse_complete,
}

module _ (F : Type 0) where
  collect_texts-text : (ts : List Text) → collect_texts {F = F} (map text ts) ≡ some ts
  unfolding collect_texts
  collect_texts-text [] = refl
  collect_texts-text (t ∷ ts) = simp (collect_texts-text ts)

  read_texts-text_array : (ts : List Text) → read_texts {F = F} (some (text_array ts)) ≡ some ts
  unfolding read_texts text_array elements
  read_texts-text_array ts =
      ap (collect_texts {F = F}) (items-items_of (map text ts)) ∙ collect_texts-text ts

-- A 64-bit time, and reasons in the order of their keys, as in a std::map.
pub record IsAck (ack : BatchTaskAssignAck) : Type 0 where
  pub timestamp : ack.timestamp < 2 ^ 64
  pub reasons : IsSorted ack.rejection_reasons

pub record IsCompletion (c : TaskCompleteMessage) : Type 0 where
  pub profit : IsInt c.actual_profit
  pub outputs : IsSorted c.output_data

module _ (F : Type 0) ⦃fl : Floating F⦄ ⦃lib : JsonLibrary F⦄ where
  read_ack-ack_json :
      (ack : BatchTaskAssignAck) → IsAck ack → read_ack (ack_json {F = F} ack) ≡ some ack
  unfolding read_ack ack_json object_with find_member value get_text get_bool get_uint64 insert
      lookup text_eq text_lt merge members members_of
  read_ack-ack_json ack h = simp (
    uint64_of-pos ack.timestamp h.timestamp,
    read_texts-text_array F ack.accepted_task_ids,
    read_texts-text_array F ack.rejected_task_ids,
    read_params-text_object F ack.rejection_reasons h.reasons,
  )

  read_complete-complete_json :
      (c : TaskCompleteMessage) → IsCompletion c → read_complete (complete_json {F = F} c) ≡ some c
  unfolding read_complete complete_json object_with find_member value get_text get_bool get_int
      insert lookup text_eq text_lt merge members members_of
  read_complete-complete_json c h = simp (
    int_of_long-IsInt c.actual_profit h.profit,
    read_params-text_object F c.output_data h.outputs,
  )

  -- An acknowledgement is read by the coordinator as the simulator wrote it, if the JSON library reads back
  -- what it printed.
  pub parse-serialize_ack :
      (ack : BatchTaskAssignAck)
      → IsAck ack
      → lib.parse (lib.dump (ack_json ack)) ≡ some (ack_json ack)
      → parse_ack F (serialize_ack F ack) ≡ some ack
  unfolding parse_ack serialize_ack
  parse-serialize_ack ack h reads = ap (λ o. o >>= λ j. read_ack j) reads ∙ read_ack-ack_json ack h

  -- So is a completion.
  pub parse-serialize_complete :
      (c : TaskCompleteMessage)
      → IsCompletion c
      → lib.parse (lib.dump (complete_json c)) ≡ some (complete_json c)
      → parse_complete F (serialize_complete F c) ≡ some c
  unfolding parse_complete serialize_complete
  parse-serialize_complete c h reads =
      ap (λ o. o >>= λ j. read_complete j) reads ∙ read_complete-complete_json c h
