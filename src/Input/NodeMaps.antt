-- ===== src/Input/NodeMaps.antt =====
-- src/parser/json_parser.cpp: the maps of a node that parseNodeFromJson reads.
use actuator_final.Prelude.{List, [], ◌∷◌, Option, none, some, OnSome}
use actuator_final.Text.{Text, codes}
use actuator_final.Dict.{Dict, insert}
use actuator_final.Dict.Sorted.{IsSorted, insert-IsSorted}
use actuator_final.Value.{Floating}
use actuator_final.Behavior.{NodeFields}
use actuator_final.Json.{
  Json, JsonLibrary, null, boolean, integer, float, text, array, object, find_member, value,
  members, get_text, ◌>>=◌,
}
use actuator_final.Input.{
  insert_some, scalar_of, variable_inits, parse_variables, constant_value, constants_to_map,
  parse_constants, parse_observation, members_in, scalars_to_map, parse_scalar_object_to_map,
  parse_fields, string_to_node_type,
}
use actuator_final.Input.TaskShape.{insert_some-IsSorted, scalars_to_map-IsSorted}

-- The maps of a node are in the order of their keys, as std::map keeps them.
pub record HasSortedMaps (n : NodeFields) : Type 0 where
  pub params : IsSorted n.params
  pub constants : IsSorted n.constants
  pub inits : IsSorted n.variable_inits
  pub observation : IsSorted n.observation

module _ {F : Type 0} where
  parse_observation-IsSorted :
      (d : Dict (Json F)) (out : Dict Text) → IsSorted out → IsSorted (parse_observation d out)
  unfolding parse_observation
  parse_observation-IsSorted [] out s = s
  parse_observation-IsSorted ((key, null) ∷ d) out s = parse_observation-IsSorted d out s
  parse_observation-IsSorted ((key, boolean b) ∷ d) out s = parse_observation-IsSorted d out s
  parse_observation-IsSorted ((key, integer n) ∷ d) out s = parse_observation-IsSorted d out s
  parse_observation-IsSorted ((key, float x) ∷ d) out s = parse_observation-IsSorted d out s
  parse_observation-IsSorted ((key, text t) ∷ d) out s =
      parse_observation-IsSorted d (insert key t out) (insert-IsSorted key t out s)
  parse_observation-IsSorted ((key, array is) ∷ d) out s = parse_observation-IsSorted d out s
  parse_observation-IsSorted ((key, object ms) ∷ d) out s = parse_observation-IsSorted d out s

module _ {F : Type 0} ⦃fl : Floating F⦄ ⦃lib : JsonLibrary F⦄ where
  variable_inits-IsSorted :
      (d : Dict (Json F)) (out : Dict Text) → IsSorted out → IsSorted (variable_inits d out)
  unfolding variable_inits
  variable_inits-IsSorted [] out s = s
  variable_inits-IsSorted ((key, j) ∷ d) out s =
      let init = scalar_of (find_member (codes "init") j) in
      variable_inits-IsSorted d (insert_some key init out) (insert_some-IsSorted key init out s)

  parse_variables-IsSorted : (j : Option (Json F)) → IsSorted (parse_variables j).1
  unfolding parse_variables
  parse_variables-IsSorted none = tt
  parse_variables-IsSorted (some null) = tt
  parse_variables-IsSorted (some (boolean b)) = tt
  parse_variables-IsSorted (some (integer n)) = tt
  parse_variables-IsSorted (some (float x)) = tt
  parse_variables-IsSorted (some (text t)) = tt
  parse_variables-IsSorted (some (array is)) = tt
  parse_variables-IsSorted (some (object ms)) = variable_inits-IsSorted (members ms) [] tt

  constants_to_map-IsSorted :
      (d : Dict (Json F)) (out : Dict Text) → IsSorted out → IsSorted (constants_to_map d out)
  unfolding constants_to_map
  constants_to_map-IsSorted [] out s = s
  constants_to_map-IsSorted ((key, j) ∷ d) out s =
      constants_to_map-IsSorted d (insert_some key (constant_value j) out)
        (insert_some-IsSorted key (constant_value j) out s)

-- A node as it is made of its five texts, if all are there.
made-HasSortedMaps :
    (params constants inits observation : Dict Text) (variables : List Text)
    (a b c d e : Option Text)
    → IsSorted params
    → IsSorted constants
    → IsSorted inits
    → IsSorted observation
    → OnSome HasSortedMaps (
        a >>= λ name. b >>= λ type. c >>= λ description. d >>= λ command. e >>= λ expression.
        some (record {
          name = name;
          type = string_to_node_type type;
          description = description;
          params = params;
          expression = expression;
          variables = variables;
          command = command;
          constants = constants;
          variable_inits = inits;
          observation = observation;
        }))
made-HasSortedMaps p k i o v none b c d e sp sk si so = tt
made-HasSortedMaps p k i o v (some x) none c d e sp sk si so = tt
made-HasSortedMaps p k i o v (some x) (some y) none d e sp sk si so = tt
made-HasSortedMaps p k i o v (some x) (some y) (some z) none e sp sk si so = tt
made-HasSortedMaps p k i o v (some x) (some y) (some z) (some w) none sp sk si so = tt
made-HasSortedMaps p k i o v (some x) (some y) (some z) (some w) (some u) sp sk si so = record {
  params = sp;
  constants = sk;
  inits = si;
  observation = so;
}

module _ {F : Type 0} ⦃fl : Floating F⦄ ⦃lib : JsonLibrary F⦄ where
  pub parse_fields-HasSortedMaps : (j : Json F) → OnSome HasSortedMaps (parse_fields j)
  unfolding parse_fields parse_constants parse_scalar_object_to_map
  parse_fields-HasSortedMaps j =
      let params = members_in (find_member (codes "params") j) in
      let constants = members_in (find_member (codes "constants") j) in
      let observation = members_in (find_member (codes "observation") j) in
      let variables = parse_variables (find_member (codes "variables") j) in
      made-HasSortedMaps (scalars_to_map params []) (constants_to_map constants []) variables.1
        (parse_observation observation []) variables.0 (value get_text (codes "name") [] j)
        (value get_text (codes "type") (codes "Action") j)
        (value get_text (codes "description") [] j) (value get_text (codes "command") [] j)
        (value get_text (codes "expression") [] j) (scalars_to_map-IsSorted params [] tt)
        (constants_to_map-IsSorted constants [] tt)
        (parse_variables-IsSorted (find_member (codes "variables") j))
        (parse_observation-IsSorted observation [] tt)
