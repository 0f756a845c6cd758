-- ===== src/Payloads/BatchRoundTrip.antt =====
-- parseBatchTaskAssignPayload undoes serializeBatchTaskAssign.
use actuator_final.Prelude.{ℕ, ◌<◌, ◌^◌, List, [], ◌∷◌, some, ◌≡◌, refl, ap, ◌∙◌, arith, All}
use actuator_final.Prelude.Int.{ℤ, pos, negsuc, int_of_long, uint64_of}
use actuator_final.Text.{Text, text_eq, text_lt}
use actuator_final.Dict.{Dict, lookup, insert, merge}
use actuator_final.Dict.Sorted.{IsSorted, merge-nil}
use actuator_final.Value.{Floating}
use actuator_final.Messages.{
  TaskAssignMessage, BatchTaskAssignMessage, TaskDetails, ResourceRequirement, TaskStaticConstraint,
  TaskDynamicConstraint,
}
use actuator_final.Json.{
  array, Json, JsonLibrary, members, members_of, texts_of, items_of, text_object, keyed,
  find_member, value, get_text, get_bool, get_int, get_uint64, object_with, elements, ◌>>=◌,
}
use actuator_final.Json.Objects.{items-items_of, members-members_of}
use actuator_final.Payloads.{collect_params, read_params, json_to_string}
use actuator_final.Payloads.Batch.{
  task_json, task_array, constraints_member, batch_json, serialize_batch, read_task, read_tasks,
  read_task_member, read_batch, parse_batch,
}

-- An int fits 32 bits.
abbrev pub IsInt : ℤ → Type 0
IsInt (pos n) = n < 2 ^ 31
IsInt (negsuc n) = n < 2 ^ 31

pub int_of_long-IsInt : (z : ℤ) → IsInt z → int_of_long z ≡ z
unfolding int_of_long
int_of_long-IsInt (pos n) h = ground arith
int_of_long-IsInt (negsuc n) h = ground arith

module _ (F : Type 0) ⦃fl : Floating F⦄ ⦃lib : JsonLibrary F⦄ where
  collect_params-texts_of :
      (d : Dict Text) (out : Dict Text) → collect_params {F = F} (texts_of d) out ≡ merge out d
  unfolding collect_params texts_of merge json_to_string
  collect_params-texts_of [] out = refl
  collect_params-texts_of ((key, t) ∷ d) out = collect_params-texts_of d (insert key t out)

  pub read_params-text_object :
      (d : Dict Text) → IsSorted d → read_params {F = F} (some (text_object d)) ≡ some d
  unfolding read_params text_object keyed
  read_params-text_object d s =
      ap (λ (e : Dict (Json F)). some (collect_params {F = F} e []))
        (members-members_of (texts_of d))
      ∙ ap (λ (e : Dict Text). some e) (collect_params-texts_of d [] ∙ merge-nil d s)

-- What a task needs: a 32-bit profit, and parameters in the order of their keys, as in a std::map.
pub record IsTask (task : TaskAssignMessage) : Type 0 where
  pub profit : IsInt task.profit
  pub params : IsSorted task.behavior_params

module _ {F : Type 0} ⦃fl : Floating F⦄ ⦃lib : JsonLibrary F⦄ where
  -- The members are found whether or not there are constraints.
  read_task-members :
      (task : TaskAssignMessage) (lat lon : F) (res : List ResourceRequirement)
      (static : List TaskStaticConstraint) (dynamic : List TaskDynamicConstraint)
      → IsTask task
      → read_task (
          task_json task (record {
            latitude_deg = lat;
            longitude_deg = lon;
            resource_requirements = res;
            static_constraints = static;
            dynamic_constraints = dynamic;
          }))
        ≡ some task
  unfolding read_task task_json constraints_member object_with find_member value get_text get_int
      insert lookup text_eq text_lt merge members members_of
  read_task-members task lat lon res [] [] h = simp (
    int_of_long-IsInt task.profit h.profit,
    read_params-text_object F task.behavior_params h.params,
  )
  read_task-members task lat lon res [] (d ∷ dynamic) h = simp (
    int_of_long-IsInt task.profit h.profit,
    read_params-text_object F task.behavior_params h.params,
  )
  read_task-members task lat lon res (s ∷ static) dynamic h = simp (
    int_of_long-IsInt task.profit h.profit,
    read_params-text_object F task.behavior_params h.params,
  )

  read_tasks-task_array :
      (details : TaskAssignMessage → TaskDetails F) (tasks : List TaskAssignMessage)
      → All IsTask tasks
      → read_tasks (task_array details tasks) ≡ some tasks
  unfolding read_tasks task_array
  read_tasks-task_array details [] h = refl
  read_tasks-task_array details (task ∷ tasks) (first, others) =
      let d = details task in
      simp (
        read_task-members task d.latitude_deg d.longitude_deg d.resource_requirements
            d.static_constraints d.dynamic_constraints first,
        read_tasks-task_array details tasks others,
      )

  read_task_member-task_array :
      (details : TaskAssignMessage → TaskDetails F) (tasks : List TaskAssignMessage)
      → All IsTask tasks
      → read_task_member (some (array (items_of (task_array details tasks)))) ≡ some tasks
  unfolding read_task_member elements
  read_task_member-task_array details tasks h =
      ap read_tasks (items-items_of (task_array details tasks))
      ∙ read_tasks-task_array details tasks h

-- What a batch needs: 64-bit times and tasks that fit.
pub record IsBatch (msg : BatchTaskAssignMessage) : Type 0 where
  pub timestamp : msg.timestamp < 2 ^ 64
  pub ack_timeout_ms : msg.ack_timeout_ms < 2 ^ 64
  pub tasks : All IsTask msg.scheduled_tasks

pub uint64_of-pos : (n : ℕ) → n < 2 ^ 64 → uint64_of (pos n) ≡ n
unfolding uint64_of
uint64_of-pos n h = omega arith

module _ {F : Type 0} ⦃fl : Floating F⦄ ⦃lib : JsonLibrary F⦄ where
  read_batch-batch_json :
      (details : TaskAssignMessage → TaskDetails F) (msg : BatchTaskAssignMessage)
      → IsBatch msg
      → read_batch (batch_json details msg) ≡ some msg
  unfolding read_batch batch_json object_with find_member value get_text get_bool get_uint64 insert
      lookup text_eq text_lt merge members members_of
  read_batch-batch_json details msg h = simp (
    uint64_of-pos msg.timestamp h.timestamp,
    uint64_of-pos msg.ack_timeout_ms h.ack_timeout_ms,
    read_task_member-task_array details msg.scheduled_tasks h.tasks,
  )

  -- A batch that the coordinator serializes is read by the simulator as it was, if the JSON library reads
  -- back what it printed: all ids, times and flags, and of each task all that the simulator looks at.
  pub parse-serialize_batch :
      (details : TaskAssignMessage → TaskDetails F) (msg : BatchTaskAssignMessage)
      → IsBatch msg
      → lib.parse (lib.dump (batch_json details msg)) ≡ some (batch_json details msg)
      → parse_batch F (serialize_batch details msg) ≡ some msg
  unfolding parse_batch serialize_batch
  parse-serialize_batch details msg h reads =
      ap (λ o. o >>= λ j. read_batch j) reads ∙ read_batch-batch_json details msg h
