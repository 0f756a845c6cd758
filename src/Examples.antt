-- ===== src/Examples.antt =====
-- Concrete inputs on which the theorems of the other modules are applied, and runs of the definitions.
-- Doubles are stood for by whole numbers here.
pub mod Tasks
pub mod Composites
pub mod Frames
pub mod Batches
pub mod Payloads
pub mod Channels
pub mod Schedules
pub mod Workers
pub mod Coordinators
pub mod Logs
pub mod Satellites
pub mod Expressions
use actuator_final.Prelude.{
  ℕ, ◌+◌, ◌-◌, ◌*◌, Bool, true, false, [], ◌∷◌, none, leb, ltb, if◌then◌else◌, not,
}
use actuator_final.Prelude.Int.{ℤ, pos, negsuc, pos_part, neg_part, sub_ℕ, is_zero}
use actuator_final.Text.{Text, codes}
use actuator_final.Dict.{Dict}
use actuator_final.Value.{Floating, bool}
use actuator_final.Variables.{empty_manager}
use actuator_final.Behavior.{
  BehaviorNode, Nodes, NodeFields, NodeType, node, nil, cons, TaskSegment,
}
use actuator_final.Executor.Runtime.{Runtime}
use actuator_final.Executor.Commands.{ExecutionResult, Failure}

abbrev neg : ℤ → ℤ
neg x = sub_ℕ (neg_part x) (pos_part x)

abbrev add : ℤ → ℤ → ℤ
add x y = sub_ℕ (pos_part x + pos_part y) (neg_part x + neg_part y)

abbrev mul : ℤ → ℤ → ℤ
mul x y =
    sub_ℕ (pos_part x * pos_part y + neg_part x * neg_part y)
      (pos_part x * neg_part y + neg_part x * pos_part y)

abbrev less_eq : ℤ → ℤ → Bool
less_eq x y = leb (pos_part x + neg_part y) (pos_part y + neg_part x)

instance abbrev pub whole_numbers : Floating ℤ
whole_numbers = record {
  literal = λ text. pos 0;
  of_int = λ n. n;
  to_int = λ n. n;
  neg = neg;
  abs = λ x. pos (pos_part x + neg_part x);
  sqrt = λ x. x;
  round = λ x. x;
  llround = λ x. x;
  add = add;
  sub = λ x y. add x (neg y);
  mul = mul;
  div = λ x y. x;
  lt = λ x y. not (less_eq y x);
  le = less_eq;
  strtod = λ text. (pos 0, 0);
  stod = λ text. none;
  to_string = λ x. [];
}

abbrev pub plain : Text → NodeType → Text → Dict Text → NodeFields
plain name type command params = record {
  name = name;
  type = type;
  description = [];
  params = params;
  expression = [];
  variables = [];
  command = command;
  constants = [];
  variable_inits = [];
  observation = [];
}

abbrev pub leave_mission : BehaviorNode
leave_mission = node (plain (codes "leave") NodeType.action (codes "EXIT") []) nil

abbrev pub unknown_command : BehaviorNode
unknown_command = node (plain (codes "bad") NodeType.action (codes "FLY") []) nil

abbrev pub next_task : BehaviorNode
next_task = node (plain (codes "next") NodeType.action (codes "NEXT_TASK") []) nil

-- It succeeds at first, with a write to the global variables, and fails then.
abbrev pub fails_late : Nodes
fails_late = cons leave_mission (cons unknown_command (cons next_task nil))

abbrev pub start : Runtime ℤ
start = record { vars = empty_manager; mailbox = []; cancel_after = none }

-- What `leave_mission` leaves behind, the refusal of `unknown_command`, and the end of all three.
abbrev pub after_exit : Runtime ℤ
after_exit = record start {
  vars = record empty_manager { global_vars = (codes "mission_exit", bool true) ∷ [] };
}

abbrev pub refused : ExecutionResult ℤ
refused = Failure (codes "不支持的命令: FLY") []

abbrev pub after_all : Runtime ℤ
after_all = record start {
  vars = record empty_manager {
    global_vars = (codes "mission_exit", bool true) ∷ [];
    local_vars = (codes "next_task", bool true) ∷ [];
  };
}

abbrev pub segment : TaskSegment
segment = record {
  segment_id = codes "S1";
  task_id = codes "T1";
  satellite_id = codes "SAT";
  behavior_ref = codes "observe";
  behavior_params = (codes "mode", codes "fast") ∷ [];
}
