-- ===== src/Registry/History.antt =====
-- src/coordinator/node_registry.cpp: a registry through any sequence of its operations.
use actuator_final.Prelude.{
  false, true, Option, none, some, ◌≡◌, refl, sym, subst, arith, inl, inr, Option-cases, ℕ, Bool,
  List, [], ◌∷◌, if-holds, not,
}
use actuator_final.Text.{Text, text_eq}
use actuator_final.Dict.{lookup}
use actuator_final.Messages.{NodeRegisterMessage}
use actuator_final.Registry.{
  NodeRegistry, fresh_registry, initialize, shutdown, register_node, register_node_through,
  unregister_node, identities, drop_former, drop_former_through,
}
use actuator_final.Registry.Aliases.{
  IsConsistent, register_node-IsConsistent, unregister_node-IsConsistent,
}

-- The text of a registration is what it would read through a reference into an erased alias.
pub data Operation : Type 0 where
  initializes shuts_down : Operation
  registers : NodeRegisterMessage → ℕ → Text → Operation
  unregisters : Text → Operation

abbrev pub apply : Operation → NodeRegistry → NodeRegistry
apply initializes r = (initialize r).1
apply shuts_down r = shutdown r
apply (registers msg now freed) r = (register_node_through freed msg now r).1
apply (unregisters name) r = (unregister_node name r).1

abbrev pub apply_all : List Operation → NodeRegistry → NodeRegistry
apply_all [] r = r
apply_all (op ∷ ops) r = apply_all ops (apply op r)

-- The satellite of the message is already the alias of another node.
abbrev pub moves : NodeRegisterMessage → NodeRegistry → Bool
moves msg r = elim (lookup (identities msg).1 r.alias_to_node_id) [
  | none ↦ false
  | some former ↦ not (text_eq former (identities msg).0)
]

-- No registration finds its satellite to be the alias of another node.
abbrev pub NeverMoves : List Operation → NodeRegistry → Type 0
NeverMoves [] r = Unit
NeverMoves (registers msg now freed ∷ ops) r =
    (moves msg r ≡ false) × NeverMoves ops (apply (registers msg now freed) r)
NeverMoves (op ∷ ops) r = NeverMoves ops (apply op r)

drop_former_through-still :
    (freed comm satellite : Text) (r : NodeRegistry)
    → elim (lookup satellite r.alias_to_node_id) [
      | none ↦ false
      | some former ↦ not (text_eq former comm)
    ]
      ≡ false
    → drop_former_through freed comm satellite r ≡ drop_former comm satellite r
unfolding drop_former_through drop_former
drop_former_through-still freed comm satellite r still =
    elim (Option-cases (lookup satellite r.alias_to_node_id)) [
      | inl e ↦ rw (drop_former_through, drop_former, e) refl
      | inr (former, e) ↦
          let same : text_eq former comm ≡ true = ground (arith, still, e) in
          rw (drop_former_through, drop_former, e, same) refl
    ]

-- A registration that moves no satellite does not depend on freed text.
register_node_through-still :
    (freed : Text) (msg : NodeRegisterMessage) (now : ℕ) (r : NodeRegistry)
    → moves msg r ≡ false
    → register_node_through freed msg now r ≡ register_node msg now r
unfolding register_node_through register_node
register_node_through-still freed msg now r still =
    let (comm, satellite) = identities msg in
    rw (drop_former_through-still freed comm satellite r still) refl

fresh-IsConsistent : IsConsistent fresh_registry
fresh-IsConsistent = record { nodes_sorted = tt; aliases_sorted = tt; live = tt }

initialize-IsConsistent : (r : NodeRegistry) → IsConsistent r → IsConsistent (initialize r).1
unfolding initialize
initialize-IsConsistent r c =
    if-holds (λ (p : Bool × NodeRegistry). IsConsistent p.1) r.initialized c
      (record { nodes_sorted = c.nodes_sorted; aliases_sorted = c.aliases_sorted; live = c.live })

shutdown-IsConsistent : (r : NodeRegistry) → IsConsistent r → IsConsistent (shutdown r)
unfolding shutdown
shutdown-IsConsistent r c = if-holds IsConsistent (not r.initialized) c fresh-IsConsistent

register_node_through-IsConsistent :
    (freed : Text) (msg : NodeRegisterMessage) (now : ℕ) (r : NodeRegistry)
    → moves msg r ≡ false
    → IsConsistent r
    → IsConsistent (register_node_through freed msg now r).1
register_node_through-IsConsistent freed msg now r still c =
    subst (λ (p : Option Text × NodeRegistry). IsConsistent p.1)
      (sym (register_node_through-still freed msg now r still))
      (register_node-IsConsistent msg now r c)

apply_all-IsConsistent :
    (ops : List Operation) (r : NodeRegistry)
    → NeverMoves ops r
    → IsConsistent r
    → IsConsistent (apply_all ops r)
apply_all-IsConsistent [] r still c = c
apply_all-IsConsistent (initializes ∷ ops) r still c =
    apply_all-IsConsistent ops _ still (initialize-IsConsistent r c)
apply_all-IsConsistent (shuts_down ∷ ops) r still c =
    apply_all-IsConsistent ops _ still (shutdown-IsConsistent r c)
apply_all-IsConsistent (registers msg now freed ∷ ops) r (still, later) c =
    apply_all-IsConsistent ops _ later (register_node_through-IsConsistent freed msg now r still c)
apply_all-IsConsistent (unregisters name ∷ ops) r still c =
    apply_all-IsConsistent ops _ still (unregister_node-IsConsistent name r c)

-- Whatever operations a registry has seen since it was made, in whatever order, if no registration found its
-- satellite to be the alias of another node: nodes and aliases are in the order of their keys, and
-- every alias leads to a node that is registered. A registration that does move a satellite reads freed
-- text, and nothing is stated of what it leaves.
pub history-IsConsistent :
    (ops : List Operation)
    → NeverMoves ops fresh_registry
    → IsConsistent (apply_all ops fresh_registry)
history-IsConsistent ops still = apply_all-IsConsistent ops fresh_registry still fresh-IsConsistent
