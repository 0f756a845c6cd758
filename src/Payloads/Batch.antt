-- ===== src/Payloads/Batch.antt =====
-- The batch of tasks: serializeBatchTaskAssign and parseBatchTaskAssignPayload.
use actuator_final.Prelude.{ℕ, false, ◌&&◌, List, [], ◌∷◌, map, Option, none, some, if◌then◌else◌}
use actuator_final.Prelude.Int.{pos}
use actuator_final.Text.{codes, is_empty}
use actuator_final.Dict.{Dict}
use actuator_final.Value.{Floating}
use actuator_final.Messages.{
  TaskAssignMessage, BatchTaskAssignMessage, TaskDetails, ResourceRequirement, TaskStaticConstraint,
  TaskDynamicConstraint,
}
use actuator_final.Json.{
  Json, JsonLibrary, boolean, integer, float, text, array, items_of, object_with, text_object,
  get_text, get_bool, get_int, get_uint64, value, find_member, elements, ◌>>=◌,
}
use actuator_final.Payloads.{read_params}

module _ {F : Type 0} where
  unfoldable pub resource_json : ResourceRequirement → Json F
  unfolding object_with
  resource_json res = object_with (
      (codes "resource_id", text res.resource_id)
      ∷ (codes "usage_type", text res.usage_type)
      ∷ (codes "acquire_at", text res.acquire_at)
      ∷ (codes "hold_duration_s", integer res.hold_duration_s)
      ∷ [])

  unfoldable pub static_json : TaskStaticConstraint → Json F
  unfolding object_with
  static_json sc =
      let deadline =
        if is_empty sc.deadline then [] else (codes "deadline", text sc.deadline) ∷ [] in
      object_with ((codes "name", text sc.name) ∷ (codes "hard", boolean sc.hard) ∷ deadline)

  unfoldable pub dynamic_json : TaskDynamicConstraint → Json F
  unfolding object_with
  dynamic_json dc =
      object_with ((codes "name", text dc.name) ∷ (codes "hard", boolean dc.hard) ∷ [])

  -- The member "constraints", which is left out if there is none.
  unfoldable pub constraints_member : TaskDetails F → Dict (Json F)
  unfolding object_with items_of
  constraints_member details =
      let both = object_with (
        (codes "static", array (items_of (map static_json details.static_constraints)))
        ∷ (codes "dynamic", array (items_of (map dynamic_json details.dynamic_constraints)))
        ∷ []) in
      if is_empty details.static_constraints && is_empty details.dynamic_constraints
      then []
      else (codes "constraints", both) ∷ []

  unfoldable pub task_json : TaskAssignMessage → TaskDetails F → Json F
  unfolding object_with constraints_member text_object
  task_json task details = object_with (
      (codes "segment_id", text task.segment_id)
      ∷ (codes "task_id", text task.task_id)
      ∷ (codes "task_name", text task.task_name)
      ∷ (codes "profit", integer task.profit)
      ∷ (
        codes "target",
        object_with (
            (codes "latitude_deg", float details.latitude_deg)
            ∷ (codes "longitude_deg", float details.longitude_deg)
            ∷ []),
      )
      ∷ (codes "behavior_ref", text task.behavior_ref)
      ∷ (codes "behavior_params", text_object task.behavior_params)
      ∷ (
        codes "resource_requirements",
        array (items_of (map resource_json details.resource_requirements)),
      )
      ∷ constraints_member details)

  -- `details` gives what each task has beside the fields of TaskAssignMessage.
  unfoldable pub task_array :
      (TaskAssignMessage → TaskDetails F) → List TaskAssignMessage → List (Json F)
  unfolding task_json
  task_array details [] = []
  task_array details (task ∷ tasks) = task_json task (details task) ∷ task_array details tasks

  unfoldable pub batch_json : (TaskAssignMessage → TaskDetails F) → BatchTaskAssignMessage → Json F
  unfolding object_with items_of
  batch_json details msg = object_with (
      (codes "message_id", text msg.message_id)
      ∷ (codes "satellite_id", text msg.satellite_id)
      ∷ (codes "node_id", text msg.node_id)
      ∷ (codes "plan_id", text msg.plan_id)
      ∷ (codes "timestamp", integer (pos msg.timestamp))
      ∷ (codes "require_ack", boolean msg.require_ack)
      ∷ (codes "ack_timeout_ms", integer (pos msg.ack_timeout_ms))
      ∷ (codes "scheduled_tasks", array (items_of (task_array details msg.scheduled_tasks)))
      ∷ [])

module _ {F : Type 0} ⦃fl : Floating F⦄ ⦃lib : JsonLibrary F⦄ where
  -- serializeBatchTaskAssign
  unfoldable pub serialize_batch :
      (TaskAssignMessage → TaskDetails F) → BatchTaskAssignMessage → List ℕ
  serialize_batch details msg = lib.dump (batch_json details msg)

  unfoldable pub read_task : Json F → Option TaskAssignMessage
  read_task j = do
    segment_id ← value get_text (codes "segment_id") [] j
    task_id ← value get_text (codes "task_id") [] j
    task_name ← value get_text (codes "task_name") [] j
    profit ← value get_int (codes "profit") (pos 0) j
    behavior_ref ← value get_text (codes "behavior_ref") [] j
    behavior_params ← read_params (find_member (codes "behavior_params") j)
    some (record {
      segment_id = segment_id;
      task_id = task_id;
      task_name = task_name;
      profit = profit;
      behavior_ref = behavior_ref;
      behavior_params = behavior_params;
    })

  unfoldable pub read_tasks : List (Json F) → Option (List TaskAssignMessage)
  read_tasks [] = some []
  read_tasks (j ∷ js) = do task ← read_task j; tasks ← read_tasks js; some (task ∷ tasks)

  unfoldable pub read_task_member : Option (Json F) → Option (List TaskAssignMessage)
  read_task_member none = some []
  read_task_member (some j) = read_tasks (elements j)

  unfoldable pub read_batch : Json F → Option BatchTaskAssignMessage
  read_batch j = do
    message_id ← value get_text (codes "message_id") [] j
    satellite_id ← value get_text (codes "satellite_id") [] j
    node_id ← value get_text (codes "node_id") [] j
    plan_id ← value get_text (codes "plan_id") [] j
    timestamp ← value get_uint64 (codes "timestamp") 0 j
    require_ack ← value get_bool (codes "require_ack") false j
    ack_timeout_ms ← value get_uint64 (codes "ack_timeout_ms") 0 j
    scheduled_tasks ← read_task_member (find_member (codes "scheduled_tasks") j)
    some (record {
      message_id = message_id;
      satellite_id = satellite_id;
      node_id = node_id;
      plan_id = plan_id;
      timestamp = timestamp;
      scheduled_tasks = scheduled_tasks;
      require_ack = require_ack;
      ack_timeout_ms = ack_timeout_ms;
    })

-- parseBatchTaskAssignPayload
unfoldable pub parse_batch :
    (F : Type 0) ⦃fl : Floating F⦄ ⦃lib : JsonLibrary F⦄ → List ℕ → Option BatchTaskAssignMessage
parse_batch F ⦃fl⦄ ⦃lib⦄ payload = lib.parse payload >>= λ j. read_batch j
