-- ===== src/Examples/Payloads.antt =====
-- JSON payloads through a library that knows three values: a batch, its acknowledgement and a completion.
use actuator_final.Prelude.{
  ℕ, true, List, [], ◌∷◌, ◌++◌, map, Option, some, ◌≡◌, ◌↔◌, refl, inl, arith, length,
  if◌then◌else◌, ◌==◌,
}
use actuator_final.Prelude.Int.{ℤ, pos}
use actuator_final.Text.{Text, codes, text_eq, text_lt}
use actuator_final.Dict.{lookup, insert, merge}
use actuator_final.Messages.{
  Message, Priority, TaskAssignMessage, BatchTaskAssignMessage, BatchTaskAssignAck,
  TaskCompleteMessage, TaskDetails, batch_task_assign_type,
}
use actuator_final.Json.{
  Json, JsonLibrary, has_member, find_member, members, members_of, object_with,
}
use actuator_final.Payloads.Batch.{batch_json, serialize_batch, parse_batch}
use actuator_final.Payloads.BatchRoundTrip.{parse-serialize_batch}
use actuator_final.Payloads.Reports.{ack_json, complete_json, serialize_ack, parse_ack}
use actuator_final.Payloads.ReportRoundTrip.{parse-serialize_ack}
use actuator_final.Coordinator.{batch_assignment, run_statuses}
use actuator_final.Coordinator.Router.{run_messages, ack_of, run_messages-acks}
use actuator_final.Simulator.{handle_batch_task_assign}
use actuator_final.Simulator.Handler.{build_message, handle_message}
use actuator_final.Simulator.EndToEnd.{delivered_messages, batch_assignment-IsBatch}
use actuator_final.Simulator.Exchange.{handle-IsAck}
use actuator_final.Examples.{segment, whole_numbers}
use actuator_final.Examples.Batches.{two_satellites, two_batches, batch_of_a, load_any, satellite_a}

abbrev batch_a : BatchTaskAssignMessage
batch_a = batch_assignment (pos 7) (codes "A") (codes "NODE_A") (segment ∷ []) 5

abbrev ack_a : BatchTaskAssignAck
ack_a = (handle_batch_task_assign load_any (some batch_a) 10 satellite_a).1

abbrev completion : TaskCompleteMessage
completion = record {
  segment_id = codes "S1";
  task_id = codes "T1";
  success = true;
  actual_start = [];
  actual_end = [];
  actual_profit = pos 12;
  result_summary = codes "done";
  output_data = (codes "power", codes "80") ∷ [];
}

abbrev pub no_details : TaskAssignMessage → TaskDetails ℤ
no_details task = record {
  latitude_deg = pos 0;
  longitude_deg = pos 0;
  resource_requirements = [];
  static_constraints = [];
  dynamic_constraints = [];
}

abbrev parse_one : List ℕ → Option (Json ℤ)
parse_one [] = some (ack_json ack_a)
parse_one (b ∷ bs) =
    if b == 1 then some (batch_json no_details batch_a) else some (complete_json completion)

abbrev dump_one : Json ℤ → Text
dump_one j =
    if has_member (codes "plan_id") j
    then 1 ∷ []
    else if has_member (codes "accepted") j
    then []
    else 2 ∷ []

instance abbrev pub three_values : JsonLibrary ℤ
three_values = record { parse = parse_one; dump = dump_one; stream = λ x. []; to_uint64 = λ x. 0 }

batch_reads :
    parse_one (dump_one (batch_json no_details batch_a)) ≡ some (batch_json no_details batch_a)
unfolding batch_json object_with has_member find_member members members_of merge insert lookup
    text_eq text_lt
batch_reads = refl

ack_reads : parse_one (dump_one (ack_json ack_a)) ≡ some (ack_json ack_a)
unfolding ack_json object_with has_member find_member members members_of merge insert lookup text_eq
    text_lt
ack_reads = refl

completion_reads : parse_one (dump_one (complete_json completion)) ≡ some (complete_json completion)
unfolding complete_json object_with has_member find_member members members_of merge insert lookup
    text_eq text_lt
completion_reads = refl

parse-serialize_batch_example : parse_batch ℤ (serialize_batch no_details batch_a) ≡ some batch_a
parse-serialize_batch_example =
    parse-serialize_batch no_details batch_a
      (batch_assignment-IsBatch (pos 7) (codes "A") (codes "NODE_A") (segment ∷ []) 5 (omega arith)
        ((tt, tt), tt) (omega arith))
      batch_reads

parse-serialize_ack_example : parse_ack ℤ (serialize_ack ℤ ack_a) ≡ some ack_a
parse-serialize_ack_example =
    parse-serialize_ack ℤ ack_a (handle-IsAck load_any batch_a 10 satellite_a (omega arith))
      ack_reads

abbrev pub to_a : Message
to_a =
    build_message batch_task_assign_type (codes "C") (codes "A") Priority.normal
      (serialize_batch no_details batch_a) 1 5

-- A progress report of no content.
abbrev noise : Message
noise = build_message 0x0104 (codes "B") (codes "C") Priority.normal [] 3 4

run_messages-acks_example :
    run_messages ℤ two_satellites two_batches (noise ∷ [])
    ≡ run_statuses two_satellites two_batches (map (ack_of ℤ) (noise ∷ []))
run_messages-acks_example = run_messages-acks ℤ two_satellites two_batches (noise ∷ [])

to_a_is_batch : to_a.header.msg_type ≡ batch_task_assign_type
unfolding build_message
to_a_is_batch = refl

to_a_carries : to_a.payload ≡ serialize_batch no_details batch_a
unfolding build_message
to_a_carries = refl

delivered_messages_example :
    (lookup
        (codes "A")
        (run_messages ℤ two_satellites two_batches (
          (noise ∷ [])
          ++ ((handle_message load_any to_a (codes "C") 2 10 satellite_a).0 ++ []))).results
      ≡ some true)
    ↔ (length ack_a.rejected_task_ids ≡ 0)
delivered_messages_example =
    delivered_messages load_any two_satellites two_batches (segment ∷ []) (codes "NODE_A") (pos 7)
      no_details to_a (codes "C") 5 2 10 satellite_a (noise ∷ []) [] (inl refl) batch_of_a
      (omega arith) (omega arith) ((tt, tt), tt) (omega arith) (omega arith) to_a_is_batch
      to_a_carries batch_reads ack_reads tt
