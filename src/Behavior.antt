-- ===== src/Behavior.antt =====
-- src/core/types.h: behaviour trees and task segments. The vector of children is a data type of its own,
-- in one block with the nodes.
pub mod Template
use actuator_final.Prelude.{ℕ, zero, suc, ◌+◌, List, Bool, true, false}
use actuator_final.Text.{Text}
use actuator_final.Dict.{Dict}

pub data NodeType : Type 0 where
  sequence selector parallel action condition subtree : NodeType

-- The fields of BehaviorNode but `children`.
pub record NodeFields : Type 0 where
  pub name : Text
  pub type : NodeType
  pub description : Text
  pub params : Dict Text
  pub expression : Text
  pub variables : List Text
  pub command : Text
  pub constants : Dict Text
  pub variable_inits : Dict Text
  pub observation : Dict Text

mutual
  pub data BehaviorNode : Type 0 where
    node : NodeFields → Nodes → BehaviorNode

  pub data Nodes : Type 0 where
    nil : Nodes
    cons : BehaviorNode → Nodes → Nodes

unfoldable pub fields : BehaviorNode → NodeFields
fields (node n children) = n

unfoldable pub children : BehaviorNode → Nodes
children (node n kids) = kids

pub record TaskSegment : Type 0 where
  pub segment_id : Text
  pub task_id : Text
  pub satellite_id : Text
  pub behavior_ref : Text
  pub behavior_params : Dict Text

unfoldable pub is_condition : NodeType → Bool
is_condition NodeType.condition = true
is_condition _ = false
