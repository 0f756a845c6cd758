-- ===== src/Input.antt =====
-- src/parser/json_parser.{h,cpp}: the maps of strings and the nodes of the behaviour library. What the stream
-- reads from a file is a parameter, and `none` a file that cannot be opened or read. Elsewhere `none`
-- stands for an exception of the JSON library.
pub mod Schedule
pub mod TaskShape
pub mod NodeMaps
pub mod Definitions
pub mod ScheduleShape
pub mod ScheduleErrors
use actuator_final.Prelude.{
  ℕ, Bool, true, false, List, [], ◌∷◌, ◌++◌, Option, none, some, if◌then◌else◌,
}
use actuator_final.Prelude.Int.{ℤ, int64_of}
use actuator_final.Text.{Text, codes, text_eq, is_empty}
use actuator_final.Text.Numerals.{int_to_string}
use actuator_final.Dict.{Dict, lookup, insert, keys}
use actuator_final.Value.{Floating}
use actuator_final.Behavior.{
  NodeType, NodeFields, BehaviorNode, Nodes, node, nil, cons, fields, children,
}
use actuator_final.Json.{
  Json, Items, Members, JsonLibrary, null, boolean, integer, float, text, array, object, end,
  member, get_text, find_member, members, items, value, is_object, ◌>>=◌,
}

-- stringToNodeType
unfoldable pub string_to_node_type : Text → NodeType
string_to_node_type type_str =
    if text_eq type_str (codes "Sequence")
    then NodeType.sequence
    else if text_eq type_str (codes "Selector")
    then NodeType.selector
    else if text_eq type_str (codes "Parallel")
    then NodeType.parallel
    else if text_eq type_str (codes "Action")
    then NodeType.action
    else if text_eq type_str (codes "Condition")
    then NodeType.condition
    else if text_eq type_str (codes "SubTree")
    then NodeType.subtree
    else NodeType.action

-- out[key] = text, where there is a text.
unfoldable pub insert_some : Text → Option Text → Dict Text → Dict Text
insert_some key none out = out
insert_some key (some t) out = insert key t out

unfoldable pub with_children : Option NodeFields → Option Nodes → Option BehaviorNode
with_children (some n) (some kids) = some (node n kids)
with_children _ _ = none

unfoldable pub cons_some : Option BehaviorNode → Option Nodes → Option Nodes
cons_some (some n) (some rest) = some (cons n rest)
cons_some _ _ = none

unfoldable pub named : Text → BehaviorNode → BehaviorNode
named behavior_name (node n kids) =
    if is_empty n.name then node (record n { name = behavior_name }) kids else node n kids

module _ {F : Type 0} where
  unfoldable pub texts_in : List (Json F) → List Text
  texts_in [] = []
  texts_in (text t ∷ js) = t ∷ texts_in js
  texts_in (j ∷ js) = texts_in js

  unfoldable pub parse_observation : Dict (Json F) → Dict Text → Dict Text
  parse_observation [] out = out
  parse_observation ((key, text t) ∷ d) out = parse_observation d (insert key t out)
  parse_observation ((key, j) ∷ d) out = parse_observation d out

  -- The members of a value that must be an object, or none.
  unfoldable pub members_in : Option (Json F) → Dict (Json F)
  unfolding members
  members_in (some (object ms)) = members ms
  members_in _ = []

module _ {F : Type 0} ⦃fl : Floating F⦄ ⦃lib : JsonLibrary F⦄ where
  -- jsonScalarToString: `none` where it does not convert. An unsigned number passes is_number_integer too.
  unfoldable pub json_scalar_to_string : Json F → Option Text
  unfolding int64_of
  json_scalar_to_string (text s) = some s
  json_scalar_to_string (integer n) = some (int_to_string (int64_of n))
  json_scalar_to_string (float x) = some (lib.stream x)
  json_scalar_to_string (boolean true) = some (codes "true")
  json_scalar_to_string (boolean false) = some (codes "false")
  json_scalar_to_string _ = none

  unfoldable pub scalars_to_map : Dict (Json F) → Dict Text → Dict Text
  unfolding insert_some json_scalar_to_string
  scalars_to_map [] out = out
  scalars_to_map ((key, j) ∷ d) out =
      scalars_to_map d (insert_some key (json_scalar_to_string j) out)

  -- parseScalarObjectToMap of a member that may be missing
  unfoldable pub parse_scalar_object_to_map : Option (Json F) → Dict Text → Dict Text
  unfolding scalars_to_map members_in
  parse_scalar_object_to_map j out = scalars_to_map (members_in j) out

  -- The text of a member that may be missing.
  unfoldable pub scalar_of : Option (Json F) → Option Text
  unfolding json_scalar_to_string
  scalar_of none = none
  scalar_of (some j) = json_scalar_to_string j

  unfoldable pub variable_inits : Dict (Json F) → Dict Text → Dict Text
  unfolding insert_some scalar_of
  variable_inits [] out = out
  variable_inits ((key, j) ∷ d) out =
      variable_inits d (insert_some key (scalar_of (find_member (codes "init") j)) out)

  -- parseVariables of a member that may be missing: the variables and their initial values
  unfoldable pub parse_variables : Option (Json F) → List Text × Dict Text
  unfolding variable_inits texts_in members items
  parse_variables (some (object ms)) = (keys (members ms), variable_inits (members ms) [])
  parse_variables (some (array is)) = (texts_in (items is), [])
  parse_variables _ = ([], [])

  -- A definition with a value that does not convert is left out.
  unfoldable pub constant_value : Json F → Option Text
  unfolding json_scalar_to_string
  constant_value j = elim (find_member (codes "value") j) [
    | none ↦ json_scalar_to_string j
    | some v ↦ json_scalar_to_string v
  ]

  unfoldable pub constants_to_map : Dict (Json F) → Dict Text → Dict Text
  unfolding insert_some constant_value
  constants_to_map [] out = out
  constants_to_map ((key, j) ∷ d) out = constants_to_map d (insert_some key (constant_value j) out)

  -- parseConstants
  unfoldable pub parse_constants : Option (Json F) → Dict Text
  unfolding constants_to_map members_in
  parse_constants j = constants_to_map (members_in j) []

  -- What parseNodeFromJson reads but the children.
  unfoldable pub parse_fields : Json F → Option NodeFields
  unfolding string_to_node_type parse_scalar_object_to_map parse_variables parse_constants
      parse_observation members_in
  parse_fields j = do
    name ← value get_text (codes "name") [] j
    type ← value get_text (codes "type") (codes "Action") j
    description ← value get_text (codes "description") [] j
    command ← value get_text (codes "command") [] j
    expression ← value get_text (codes "expression") [] j
    some (record {
      name = name;
      type = string_to_node_type type;
      description = description;
      params = parse_scalar_object_to_map (find_member (codes "params") j) [];
      expression = expression;
      variables = (parse_variables (find_member (codes "variables") j)).0;
      command = command;
      constants = parse_constants (find_member (codes "constants") j);
      variable_inits = (parse_variables (find_member (codes "variables") j)).1;
      observation = parse_observation (members_in (find_member (codes "observation") j)) [];
    })

  -- parseNodeFromJson. The search for the member "children" is part of the recursion.
  unfoldable mutual
    pub parse_node : Json F → Option BehaviorNode
    parse_node (object ms) = with_children (parse_fields (object ms)) (parse_children ms)
    parse_node _ = none

    pub parse_children : Members F → Option Nodes
    parse_children end = some nil
    parse_children (member key j ms) =
        let found = parse_array j in
        let rest = parse_children ms in if text_eq key (codes "children") then found else rest

    pub parse_array : Json F → Option Nodes
    parse_array (array is) = parse_items is
    parse_array _ = some nil

    pub parse_items : Items F → Option Nodes
    parse_items Items.nil = some nil
    parse_items (Items.cons j is) =
        let here = parse_node j in
        let rest = parse_items is in if is_object j then cons_some here rest else rest

  unfoldable pub definition_in : Text → Option (Json F) → Option BehaviorNode
  unfolding parse_node named
  definition_in behavior_name (some (object ms)) =
      parse_node (object ms) >>= λ root. some (named behavior_name root)
  definition_in behavior_name _ = none

  -- BehaviorLibraryParser::parseBehaviorDefinition
  unfoldable pub parse_behavior_definition : Option (Json F) → Text → Option BehaviorNode
  unfolding definition_in members_in
  parse_behavior_definition none behavior_name = none
  parse_behavior_definition (some library_json) behavior_name =
      definition_in behavior_name (
        lookup behavior_name (members_in (find_member (codes "behavior_definitions") library_json)))
