-- ===== src/Input/Definitions.antt =====
-- src/parser/json_parser.cpp: what a behaviour definition is like that parseBehaviorDefinition returns.
use actuator_final.Prelude.{
  Bool, true, false, Option, none, some, if◌then◌else◌, ◌≡◌, refl, OnSome, if-holds,
}
use actuator_final.Text.{Text, codes, text_eq, is_empty}
use actuator_final.Dict.{lookup}
use actuator_final.Value.{Floating}
use actuator_final.Behavior.{NodeFields, BehaviorNode, Nodes, node, nil, cons, fields}
use actuator_final.Json.{
  Json, Items, Members, JsonLibrary, null, boolean, integer, float, text, array, object, end,
  member, find_member, is_object, ◌>>=◌,
}
use actuator_final.Input.{
  members_in, parse_fields, with_children, cons_some, parse_node, parse_children, parse_array,
  parse_items, named, definition_in, parse_behavior_definition,
}
use actuator_final.Input.NodeMaps.{HasSortedMaps, parse_fields-HasSortedMaps}

-- So are those of the whole tree.
unfoldable mutual
  pub IsSortedTree : BehaviorNode → Type 0
  IsSortedTree (node n kids) = HasSortedMaps n × AreSortedTrees kids

  pub AreSortedTrees : Nodes → Type 0
  AreSortedTrees nil = Unit
  AreSortedTrees (cons n rest) = IsSortedTree n × AreSortedTrees rest

with_children-IsSortedTree :
    (n : Option NodeFields) (kids : Option Nodes)
    → OnSome HasSortedMaps n
    → OnSome AreSortedTrees kids
    → OnSome IsSortedTree (with_children n kids)
unfolding with_children IsSortedTree
with_children-IsSortedTree none kids h k = tt
with_children-IsSortedTree (some n) none h k = tt
with_children-IsSortedTree (some n) (some kids) h k = (h, k)

cons_some-AreSortedTrees :
    (n : Option BehaviorNode) (rest : Option Nodes)
    → OnSome IsSortedTree n
    → OnSome AreSortedTrees rest
    → OnSome AreSortedTrees (cons_some n rest)
unfolding cons_some AreSortedTrees
cons_some-AreSortedTrees none rest h k = tt
cons_some-AreSortedTrees (some n) none h k = tt
cons_some-AreSortedTrees (some n) (some rest) h k = (h, k)

-- A tree that has a name, in the order of its maps.
pub record IsDefinition (root : BehaviorNode) : Type 0 where
  pub sorted : IsSortedTree root
  pub titled : is_empty (fields root).name ≡ false

named_by_test :
    (behavior_name : Text) (n : NodeFields) (kids : Nodes) (b : Bool)
    → is_empty n.name ≡ b
    → is_empty behavior_name ≡ false
    → HasSortedMaps n
    → AreSortedTrees kids
    → IsDefinition (if b then node (record n { name = behavior_name }) kids else node n kids)
unfolding IsSortedTree fields
named_by_test behavior_name n kids true empty e maps trees = record {
  sorted = (
    record {
      params = maps.params;
      constants = maps.constants;
      inits = maps.inits;
      observation = maps.observation;
    },
    trees,
  );
  titled = e;
}
named_by_test behavior_name n kids false full e maps trees = record {
  sorted = (maps, trees);
  titled = full;
}

named-IsDefinition :
    (behavior_name : Text) (root : Option BehaviorNode)
    → is_empty behavior_name ≡ false
    → OnSome IsSortedTree root
    → OnSome IsDefinition (root >>= λ n. some (named behavior_name n))
unfolding named IsSortedTree
named-IsDefinition behavior_name none e h = tt
named-IsDefinition behavior_name (some (node n kids)) e (maps, trees) =
    named_by_test behavior_name n kids (is_empty n.name) refl e maps trees

module _ {F : Type 0} ⦃fl : Floating F⦄ ⦃lib : JsonLibrary F⦄ where
  mutual
    unfolding parse_node parse_children parse_array parse_items IsSortedTree AreSortedTrees

    parse_node-IsSortedTree : (j : Json F) → OnSome IsSortedTree (parse_node j)
    parse_node-IsSortedTree (object ms) =
        with_children-IsSortedTree (parse_fields (object ms)) (parse_children ms)
          (parse_fields-HasSortedMaps (object ms)) (parse_children-AreSortedTrees ms)
    parse_node-IsSortedTree null = tt
    parse_node-IsSortedTree (boolean b) = tt
    parse_node-IsSortedTree (integer n) = tt
    parse_node-IsSortedTree (float x) = tt
    parse_node-IsSortedTree (text t) = tt
    parse_node-IsSortedTree (array is) = tt

    parse_children-AreSortedTrees : (ms : Members F) → OnSome AreSortedTrees (parse_children ms)
    parse_children-AreSortedTrees end = tt
    parse_children-AreSortedTrees (member key j ms) =
        if-holds (OnSome AreSortedTrees) (text_eq key (codes "children"))
          (parse_array-AreSortedTrees j) (parse_children-AreSortedTrees ms)

    parse_array-AreSortedTrees : (j : Json F) → OnSome AreSortedTrees (parse_array j)
    parse_array-AreSortedTrees (array is) = parse_items-AreSortedTrees is
    parse_array-AreSortedTrees null = tt
    parse_array-AreSortedTrees (boolean b) = tt
    parse_array-AreSortedTrees (integer n) = tt
    parse_array-AreSortedTrees (float x) = tt
    parse_array-AreSortedTrees (text t) = tt
    parse_array-AreSortedTrees (object ms) = tt

    parse_items-AreSortedTrees : (is : Items F) → OnSome AreSortedTrees (parse_items is)
    parse_items-AreSortedTrees Items.nil = tt
    parse_items-AreSortedTrees (Items.cons j is) =
        if-holds (OnSome AreSortedTrees) (is_object j)
          (cons_some-AreSortedTrees (parse_node j) (parse_items is) (parse_node-IsSortedTree j)
            (parse_items-AreSortedTrees is))
          (parse_items-AreSortedTrees is)

  definition_in-IsDefinition :
      (behavior_name : Text) (j : Option (Json F))
      → is_empty behavior_name ≡ false
      → OnSome IsDefinition (definition_in behavior_name j)
  unfolding definition_in
  definition_in-IsDefinition behavior_name none e = tt
  definition_in-IsDefinition behavior_name (some null) e = tt
  definition_in-IsDefinition behavior_name (some (boolean b)) e = tt
  definition_in-IsDefinition behavior_name (some (integer n)) e = tt
  definition_in-IsDefinition behavior_name (some (float x)) e = tt
  definition_in-IsDefinition behavior_name (some (text t)) e = tt
  definition_in-IsDefinition behavior_name (some (array is)) e = tt
  definition_in-IsDefinition behavior_name (some (object ms)) e =
      named-IsDefinition behavior_name (parse_node (object ms)) e
        (parse_node-IsSortedTree (object ms))

  -- Whatever the library file holds: a definition that is returned for a non-empty name has a non-empty name at
  -- its root, and all maps of all its nodes are in the order of their keys.
  pub parse_behavior_definition-IsDefinition :
      (library : Option (Json F)) (behavior_name : Text)
      → is_empty behavior_name ≡ false
      → OnSome IsDefinition (parse_behavior_definition library behavior_name)
  unfolding parse_behavior_definition
  parse_behavior_definition-IsDefinition none behavior_name e = tt
  parse_behavior_definition-IsDefinition (some j) behavior_name e =
      definition_in-IsDefinition behavior_name
        (lookup behavior_name (members_in (find_member (codes "behavior_definitions") j))) e
