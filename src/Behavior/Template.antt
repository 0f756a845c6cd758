-- ===== src/Behavior/Template.antt =====
-- src/parser/behavior_parser.cpp: a behaviour definition with its parameters filled in.
use Prim.Native.Nat.{ℕ, zero, suc}
use actuator_final.Prelude.{
  ◌&&◌, List, [], ◌∷◌, ◌++◌, none, some, if◌then◌else◌, length, take, drop, not,
}
use actuator_final.Text.{Text, codes, find, is_empty}
use actuator_final.Dict.{Dict, lookup, merge}
use actuator_final.Behavior.{NodeFields, BehaviorNode, Nodes, node, nil, cons, fields, is_condition}

-- What stands behind "${": the name up to "}", and what follows. The text before `pos` is final, so
-- the loop is a function of the suffix at `pos`, and returns that suffix rewritten.
unfoldable pub substitute : Dict Text → Text → Text
substitute params name = elim (lookup name params) [
  | some value ↦ value
  | none ↦ codes "${" ++ (name ++ codes "}")
]

-- Each round moves behind a "}", so the length of the text is fuel enough.
unfoldable pub replace_from : ℕ → Dict Text → Text → Text
replace_from zero params text = text
replace_from (suc fuel) params text = elim (find (codes "${") text) [
  | none ↦ text
  | some i ↦
      let behind = drop (suc (suc i)) text in
      elim (find (codes "}") behind) [
        | none ↦ text
        | some n ↦
            take i text
            ++ (substitute params (take n behind) ++ replace_from fuel params (drop (suc n) behind))
      ]
]

-- replaceVariables
unfoldable pub replace_variables : Text → Dict Text → Text
replace_variables text params = replace_from (length text) params text

-- Later maps win: the run-time parameters over the constants over the initial values.
unfoldable pub build_template_params : NodeFields → Dict Text → Dict Text
build_template_params definition runtime_params =
    merge (merge (merge [] definition.variable_inits) definition.constants) runtime_params

unfoldable pub replace_values : Dict Text → Dict Text → Dict Text
replace_values params [] = []
replace_values params ((k, v) ∷ m) = (k, replace_variables v params) ∷ replace_values params m

-- A condition with observations and no expression is given the expression "true".
unfoldable pub default_expression : NodeFields → Text → Text
default_expression n expression =
    if is_condition n.type && (is_empty expression && not (is_empty n.observation))
    then codes "true"
    else expression

unfoldable pub expand_fields : Dict Text → NodeFields → NodeFields
expand_fields params n = record n {
  params = replace_values params n.params;
  command = replace_variables n.command params;
  expression = default_expression n (replace_variables n.expression params);
}

unfoldable mutual
  pub expand_node : Dict Text → BehaviorNode → BehaviorNode
  expand_node params (node n children) =
      node (expand_fields params n) (expand_nodes params children)

  pub expand_nodes : Dict Text → Nodes → Nodes
  expand_nodes params nil = nil
  expand_nodes params (cons child rest) = cons (expand_node params child) (expand_nodes params rest)

-- BehaviorTreeParser::instantiate, which returns a vector of one node.
unfoldable pub instantiate : BehaviorNode → Dict Text → List BehaviorNode
instantiate definition params =
    expand_node (build_template_params (fields definition) params) definition ∷ []
