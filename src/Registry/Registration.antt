-- ===== src/Registry/Registration.antt =====
-- src/coordinator/node_registry.cpp: what lookups find after registerNode and unregisterNode.
use actuator_final.Prelude.{
  ℕ, true, false, ◌&&◌, Option, none, some, ◌≡◌, arith, if◌then◌else◌, ◌⊎◌, ap, ◌∙◌,
}
use actuator_final.Text.{Text, text_eq, text_eq_iff, text_eq_refl, is_empty}
use actuator_final.Dict.{Dict, lookup, insert, has, lookup-insert, lookup-erase}
use actuator_final.Messages.{NodeRegisterMessage}
use actuator_final.Registry.{
  NodeRegistry, resolve, erase_aliases, identities, drop_former, node_info, add_aliases, add_node,
  register_node, unregister_node, get_node_info,
}
use actuator_final.Registry.Aliases.{IsConsistent, lookup-erase_aliases}

-- The names under which a registered node is found.
abbrev pub IsNameOf : NodeRegisterMessage → Text → Type 0
IsNameOf msg name =
    (name ≡ (identities msg).0)
    ⊎ ((name ≡ (identities msg).1) ⊎ ((name ≡ msg.node_id) × (is_empty msg.node_id ≡ false)))

resolve-add_aliases :
    (comm satellite msg_id name : Text) (m : Dict Text)
    → (name ≡ comm) ⊎ ((name ≡ satellite) ⊎ ((name ≡ msg_id) × (is_empty msg_id ≡ false)))
    → resolve name (add_aliases comm satellite msg_id m) ≡ comm
unfolding resolve add_aliases
resolve-add_aliases comm satellite msg_id name m known =
    let base = erase_aliases comm m in
    let own = insert comm comm base in
    let both = insert satellite comm own in
    ground (
      arith,
      lookup-insert msg_id name comm both,
      lookup-insert satellite name comm own,
      lookup-insert comm name comm base,
      text_eq_iff msg_id name,
      text_eq_iff satellite name,
      text_eq_iff comm name,
    )

register_node-accepted :
    (msg : NodeRegisterMessage) (now : ℕ) (r : NodeRegistry)
    → r.initialized ≡ true
    → (is_empty (identities msg).0 && is_empty (identities msg).1) ≡ false
    → register_node msg now r ≡ (
      some (identities msg).0,
      add_node
          (identities msg).0
          (identities msg).1
          msg
          now
          (drop_former (identities msg).0 (identities msg).1 r),
    )
unfolding register_node
register_node-accepted msg now r ready named = ground arith

add_node-found :
    (msg : NodeRegisterMessage) (now : ℕ) (name : Text) (r : NodeRegistry)
    → IsNameOf msg name
    → get_node_info name (add_node (identities msg).0 (identities msg).1 msg now r)
      ≡ some (node_info (identities msg).0 (identities msg).1 msg now)
unfolding get_node_info add_node
add_node-found msg now name r known =
    let (comm, satellite) = identities msg in
    let info = node_info comm satellite msg now in
    rw (resolve-add_aliases comm satellite msg.node_id name r.alias_to_node_id known)
      (rw (lookup-insert comm comm info r.nodes, text_eq_refl comm))

-- An initialised registry registers every node that has an id, under the identity that the message
-- gives, and then finds it by its communication id, by its satellite id and by the id of the message,
-- whatever was registered before.
pub register_then_found :
    (msg : NodeRegisterMessage) (now : ℕ) (r : NodeRegistry) (name : Text)
    → r.initialized ≡ true
    → (is_empty (identities msg).0 && is_empty (identities msg).1) ≡ false
    → IsNameOf msg name
    → ((register_node msg now r).0 ≡ some (identities msg).0)
      × (get_node_info name (register_node msg now r).1
          ≡ some (node_info (identities msg).0 (identities msg).1 msg now))
register_then_found msg now r name ready named known =
    let accepted = register_node-accepted msg now r ready named in
    (
      ap (λ (p : Option Text × NodeRegistry). p.0) accepted,
      ap (λ (p : Option Text × NodeRegistry). get_node_info name p.1) accepted
          ∙ add_node-found msg now name _ known,
    )

-- Unregistering a name whose node is there removes that node and the aliases that lead to it, and
-- changes nothing else; a name whose node is not there is refused, and changes nothing.
pub unregister_exact :
    (node_id j : Text) (r : NodeRegistry)
    → IsConsistent r
    → let id = resolve node_id r.alias_to_node_id in
      let r' = (unregister_node node_id r).1 in
      ((unregister_node node_id r).0 ≡ has id r.nodes)
      × (lookup j r'.nodes ≡ (if text_eq id j then none else lookup j r.nodes))
      × (lookup j r'.alias_to_node_id ≡ elim (lookup j r.alias_to_node_id) [
        | none ↦ none
        | some t ↦ if has id r.nodes && text_eq t id then none else some t
      ])
unfolding unregister_node
unregister_exact node_id j r c =
    let id = resolve node_id r.alias_to_node_id in
    (
      ground arith,
      ground (arith, lookup-erase id j r.nodes, text_eq_iff id j),
      ground (arith, lookup-erase_aliases id j r.alias_to_node_id c.aliases_sorted),
    )
