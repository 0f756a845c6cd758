-- ===== src/Examples/Satellites.antt =====
-- src/coordinator/node_registry.cpp: a satellite that is registered under two names.
use actuator_final.Prelude.{
  List, true, false, ◌&&◌, [], ◌∷◌, none, some, if◌then◌else◌, ◌≡◌, refl, inl, inr,
}
use actuator_final.Text.{codes, text_eq, is_empty}
use actuator_final.Dict.{lookup, has}
use actuator_final.Messages.{NodeRegisterMessage}
use actuator_final.Registry.{
  NodeRegistry, identities, metadata_or_id, node_info, register_node, register_node_through,
  unregister_node, get_node_info, resolve,
}
use actuator_final.Registry.Aliases.{IsConsistent, register_node-IsConsistent}
use actuator_final.Registry.{fresh_registry}
use actuator_final.Registry.History.{
  initializes, shuts_down, registers, unregisters, Operation, NeverMoves, apply_all,
  history-IsConsistent,
}
use actuator_final.Registry.Registration.{register_then_found, unregister_exact}

abbrev ready : NodeRegistry
ready = record { nodes = []; alias_to_node_id = []; initialized = true }

ready-IsConsistent : IsConsistent ready
ready-IsConsistent = record { nodes_sorted = tt; aliases_sorted = tt; live = tt }

abbrev satellite : NodeRegisterMessage
satellite = record {
  node_id = codes "NODE_1";
  node_name = codes "one";
  node_type = codes "SATELLITE";
  metadata = (codes "satellite_id", codes "SAT_1") ∷ [];
}

abbrev registered : NodeRegistry
registered = (register_node satellite 100 ready).1

named : (is_empty (identities satellite).0 && is_empty (identities satellite).1) ≡ false
unfolding identities metadata_or_id lookup text_eq
named = refl

second : codes "SAT_1" ≡ (identities satellite).1
unfolding identities metadata_or_id lookup text_eq
second = refl

register_then_found_example :
    ((register_node satellite 100 ready).0 ≡ some (identities satellite).0)
    × (get_node_info (codes "SAT_1") registered
        ≡ some (node_info (identities satellite).0 (identities satellite).1 satellite 100))
register_then_found_example =
    register_then_found satellite 100 ready (codes "SAT_1") refl named (inr (inl second))

unregister_exact_example :
    let id = resolve (codes "SAT_1") registered.alias_to_node_id in
    let r' = (unregister_node (codes "SAT_1") registered).1 in
    ((unregister_node (codes "SAT_1") registered).0 ≡ has id registered.nodes)
    × (lookup (codes "NODE_1") r'.nodes
        ≡ (if text_eq id (codes "NODE_1") then none else lookup (codes "NODE_1") registered.nodes))
    × (lookup (codes "NODE_1") r'.alias_to_node_id
        ≡ elim (lookup (codes "NODE_1") registered.alias_to_node_id) [
          | none ↦ none
          | some t ↦ if has id registered.nodes && text_eq t id then none else some t
        ])
unregister_exact_example =
    unregister_exact (codes "SAT_1") (codes "NODE_1") registered
      (register_node-IsConsistent satellite 100 ready ready-IsConsistent)

-- The satellite registers, and once more under the same id; it is found by its alias.
abbrev seen : List Operation
seen =
    initializes
    ∷ registers satellite 100 (codes "?")
    ∷ registers satellite 200 []
    ∷ unregisters (codes "SAT_1")
    ∷ shuts_down
    ∷ []

seen-NeverMoves : NeverMoves seen fresh_registry
unfolding register_node_through identities metadata_or_id lookup actuator_final.Dict.insert
    actuator_final.Registry.add_aliases actuator_final.Registry.initialize
    actuator_final.Text.text_lt text_eq
seen-NeverMoves = (refl, (refl, tt))

history-IsConsistent_example : IsConsistent (apply_all seen fresh_registry)
history-IsConsistent_example = history-IsConsistent seen seen-NeverMoves
