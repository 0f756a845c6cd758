-- ===== src/Registry/Aliases.antt =====
-- src/coordinator/node_registry.cpp: the aliases and the nodes stay in step.
use actuator_final.Prelude.{
  ℕ, true, [], ◌∷◌, none, some, ◌≡◌, refl, arith, if◌then◌else◌, All, inl, inr, Bool-cases,
  Option-cases,
}
use actuator_final.Text.{Text, text_eq, text_eq_iff, text_eq_refl, is_empty}
use actuator_final.Dict.{Dict, lookup, insert, erase, has, lookup-insert, lookup-erase}
use actuator_final.Dict.Sorted.{
  IsSorted, Before, insert-IsSorted, erase-IsSorted, lookup-Before, All-insert,
}
use actuator_final.Messages.{NodeRegisterMessage}
use actuator_final.Registry.{
  NodeRegistry, NodeInfo, resolve, erase_aliases, identities, drop_former, node_info, add_aliases,
  add_node, register_node, unregister_node,
}

abbrev Live : Dict NodeInfo → Text × Text → Type 0
Live nodes entry = has entry.1 nodes ≡ true

-- Both maps are ordered, and every alias leads to a node that is there.
pub record IsConsistent (r : NodeRegistry) : Type 0 where
  pub nodes_sorted : IsSorted r.nodes
  pub aliases_sorted : IsSorted r.alias_to_node_id
  pub live : All (Live r.nodes) r.alias_to_node_id

Before-erase_aliases : (j id : Text) (m : Dict Text) → Before j m → Before j (erase_aliases id m)
unfolding erase_aliases
Before-erase_aliases j id [] b = tt
Before-erase_aliases j id ((i, w) ∷ m) b = ground (arith, Before-erase_aliases j id m b.1)

erase_aliases-IsSorted : (id : Text) (m : Dict Text) → IsSorted m → IsSorted (erase_aliases id m)
unfolding erase_aliases
erase_aliases-IsSorted id [] s = tt
erase_aliases-IsSorted id ((i, w) ∷ m) s =
    ground (arith, erase_aliases-IsSorted id m s.1, Before-erase_aliases i id m s.0)

-- Exactly the aliases of one node go.
pub lookup-erase_aliases :
    (id j : Text) (m : Dict Text)
    → IsSorted m
    → lookup j (erase_aliases id m)
      ≡ elim (lookup j m) [ none ↦ none | some t ↦ if text_eq t id then none else some t ]
unfolding erase_aliases lookup
lookup-erase_aliases id j [] s = refl
lookup-erase_aliases id j ((i, w) ∷ m) s =
    ground (arith, text_eq_iff i j, lookup-erase_aliases id j m s.1, lookup-Before i m s.0)

erase_aliases-Live :
    (id : Text) (nodes : Dict NodeInfo) (m : Dict Text)
    → All (Live nodes) m
    → All (Live (erase id nodes)) (erase_aliases id m)
unfolding erase_aliases
erase_aliases-Live id nodes [] h = tt
erase_aliases-Live id nodes ((i, w) ∷ m) h = ground (
  arith,
  text_eq_iff w id,
  text_eq_iff id w,
  lookup-erase id w nodes,
  erase_aliases-Live id nodes m h.1,
)

insert-Live :
    (id : Text) (info : NodeInfo) (nodes : Dict NodeInfo) (m : Dict Text)
    → All (Live nodes) m
    → All (Live (insert id info nodes)) m
insert-Live id info nodes [] h = tt
insert-Live id info nodes ((i, w) ∷ m) h =
    (ground (arith, lookup-insert id w info nodes), insert-Live id info nodes m h.1)

-- Aliases of a node may go while the node stays.
erase_aliases-keep :
    (id : Text) (nodes : Dict NodeInfo) (m : Dict Text)
    → All (Live nodes) m
    → All (Live nodes) (erase_aliases id m)
unfolding erase_aliases
erase_aliases-keep id nodes [] h = tt
erase_aliases-keep id nodes ((i, w) ∷ m) h = ground (arith, erase_aliases-keep id nodes m h.1)

erase_node-IsConsistent :
    (id : Text) (r : NodeRegistry)
    → IsConsistent r
    → IsConsistent (record r {
      nodes = erase id r.nodes;
      alias_to_node_id = erase_aliases id r.alias_to_node_id;
    })
erase_node-IsConsistent id r c = record {
  nodes_sorted = erase-IsSorted id r.nodes c.nodes_sorted;
  aliases_sorted = erase_aliases-IsSorted id r.alias_to_node_id c.aliases_sorted;
  live = erase_aliases-Live id r.nodes r.alias_to_node_id c.live;
}

drop_former-IsConsistent :
    (comm satellite : Text) (r : NodeRegistry)
    → IsConsistent r
    → IsConsistent (drop_former comm satellite r)
unfolding drop_former
drop_former-IsConsistent comm satellite r c =
    elim (Option-cases (lookup satellite r.alias_to_node_id)) [
      | inl e ↦ rw (e, drop_former) c
      | inr (former, e) ↦
          rw (e, drop_former)
            (elim (Bool-cases (text_eq former comm)) [
              | inl same ↦ rw same c
              | inr other ↦ rw other (erase_node-IsConsistent former r c)
            ])
    ]

add_aliases-Live :
    (comm satellite msg_id : Text) (nodes : Dict NodeInfo) (m : Dict Text)
    → has comm nodes ≡ true
    → All (Live nodes) m
    → All (Live nodes) (add_aliases comm satellite msg_id m)
unfolding add_aliases
add_aliases-Live comm satellite msg_id nodes m here h =
    let base = erase_aliases-keep comm nodes m h in
    let own = All-insert (Live nodes) comm comm _ here base in
    let known = All-insert (Live nodes) satellite comm _ here own in
    elim (Bool-cases (is_empty msg_id)) [
      | inl e ↦ rw e known
      | inr e ↦ rw e (All-insert (Live nodes) msg_id comm _ here known)
    ]

add_aliases-IsSorted :
    (comm satellite msg_id : Text) (m : Dict Text)
    → IsSorted m
    → IsSorted (add_aliases comm satellite msg_id m)
unfolding add_aliases
add_aliases-IsSorted comm satellite msg_id m s =
    let base = erase_aliases-IsSorted comm m s in
    let known = insert-IsSorted satellite comm _ (insert-IsSorted comm comm _ base) in
    elim (Bool-cases (is_empty msg_id)) [
      | inl e ↦ rw e known
      | inr e ↦ rw e (insert-IsSorted msg_id comm _ known)
    ]

add_node-IsConsistent :
    (comm satellite : Text) (msg : NodeRegisterMessage) (now : ℕ) (r : NodeRegistry)
    → IsConsistent r
    → IsConsistent (add_node comm satellite msg now r)
unfolding add_node
add_node-IsConsistent comm satellite msg now r c =
    let info = node_info comm satellite msg now in
    record {
      nodes_sorted = insert-IsSorted comm info r.nodes c.nodes_sorted;
      aliases_sorted =
          add_aliases-IsSorted comm satellite msg.node_id r.alias_to_node_id c.aliases_sorted;
      live =
          add_aliases-Live comm satellite msg.node_id _ r.alias_to_node_id
            (ground (arith, lookup-insert comm comm info r.nodes, text_eq_refl comm))
            (insert-Live comm info r.nodes r.alias_to_node_id c.live);
    }

-- Registering keeps the registry consistent, whatever the message.
pub register_node-IsConsistent :
    (msg : NodeRegisterMessage) (now : ℕ) (r : NodeRegistry)
    → IsConsistent r
    → IsConsistent (register_node msg now r).1
unfolding register_node
register_node-IsConsistent msg now r c =
    let (comm, satellite) = identities msg in
    let added =
      add_node-IsConsistent comm satellite msg now _
        (drop_former-IsConsistent comm satellite r c) in
    ground arith

-- So does unregistering, whether the name is known or not.
pub unregister_node-IsConsistent :
    (node_id : Text) (r : NodeRegistry)
    → IsConsistent r
    → IsConsistent (unregister_node node_id r).1
unfolding unregister_node
unregister_node-IsConsistent node_id r c =
    let erased = erase_node-IsConsistent (resolve node_id r.alias_to_node_id) r c in ground arith
