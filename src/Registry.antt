-- ===== src/Registry.antt =====
-- src/coordinator/node_registry.{h,cpp}: NodeRegistry. Every method holds the registry's mutex.
pub mod Aliases
pub mod Registration
pub mod History
use actuator_final.Prelude.{
  ℕ, Bool, true, false, ◌&&◌, List, [], ◌∷◌, Option, none, some, if◌then◌else◌, not,
}
use actuator_final.Text.{Text, codes, text_eq, is_empty}
use actuator_final.Dict.{Dict, lookup, insert, erase, keys, has}
use actuator_final.Messages.{NodeStatus, NodeRegisterMessage}

pub record NodeInfo : Type 0 where
  pub node_id : Text
  pub satellite_id : Text
  pub node_name : Text
  pub node_type : Text
  pub status : NodeStatus
  pub register_time_ms : ℕ
  pub last_heartbeat_ms : ℕ
  pub is_online : Bool

pub record NodeRegistry : Type 0 where
  pub nodes : Dict NodeInfo
  pub alias_to_node_id : Dict Text
  pub initialized : Bool

abbrev pub fresh_registry : NodeRegistry
fresh_registry = record { nodes = []; alias_to_node_id = []; initialized = false }

unfoldable pub initialize : NodeRegistry → Bool × NodeRegistry
initialize r = if r.initialized then (true, r) else (true, record r { initialized = true })

unfoldable pub shutdown : NodeRegistry → NodeRegistry
shutdown r =
    if not r.initialized
    then r
    else record { nodes = []; alias_to_node_id = []; initialized = false }

-- resolveNodeIdLocked
unfoldable pub resolve : Text → Dict Text → Text
resolve node_id aliases = elim (lookup node_id aliases) [ some id ↦ id | none ↦ node_id ]

-- eraseAliasesLocked
unfoldable pub erase_aliases : Text → Dict Text → Dict Text
erase_aliases id [] = []
erase_aliases id ((name, target) ∷ aliases) =
    let rest = erase_aliases id aliases in if text_eq target id then rest else (name, target) ∷ rest

-- A metadata entry, or the message's node id if it is missing or empty.
unfoldable pub metadata_or_id : Text → NodeRegisterMessage → Text
metadata_or_id key msg = elim (lookup key msg.metadata) [
  | none ↦ msg.node_id
  | some value ↦ if is_empty value then msg.node_id else value
]

-- comm_node_id, satellite_id
unfoldable pub identities : NodeRegisterMessage → Text × Text
identities msg =
    let comm = metadata_or_id (codes "node_id") msg in
    let satellite = metadata_or_id (codes "satellite_id") msg in
    (if is_empty comm then satellite else comm, if is_empty satellite then comm else satellite)

-- eraseAliasesLocked, where its argument is a reference to the text `former` in the alias `satellite`:
-- when that alias has been erased, the reference reads `freed`, whatever that may be.
unfoldable pub erase_aliases_through : Text → Text → Text → Dict Text → Dict Text
unfolding erase_aliases
erase_aliases_through former satellite freed [] = []
erase_aliases_through former satellite freed ((name, target) ∷ aliases) =
    let before = erase_aliases_through former satellite freed aliases in
    if text_eq name satellite
    then erase_aliases freed aliases
    else if text_eq target former
    then before
    else (name, target) ∷ before

-- A satellite that was registered under another id: that node and its aliases go, as far as the
-- reference into the erased alias permits.
unfoldable pub drop_former_through : Text → Text → Text → NodeRegistry → NodeRegistry
unfolding erase_aliases_through
drop_former_through freed comm satellite r = elim (lookup satellite r.alias_to_node_id) [
  | none ↦ r
  | some former ↦ if text_eq former comm then r else record r {
    nodes = erase former r.nodes;
    alias_to_node_id = erase_aliases_through former satellite freed r.alias_to_node_id;
  }
]

-- The same, where the freed text still reads as before, as the code means it.
unfoldable pub drop_former : Text → Text → NodeRegistry → NodeRegistry
drop_former comm satellite r = elim (lookup satellite r.alias_to_node_id) [
  | none ↦ r
  | some former ↦ if text_eq former comm then r else record r {
    nodes = erase former r.nodes;
    alias_to_node_id = erase_aliases former r.alias_to_node_id;
  }
]

unfoldable pub node_info : Text → Text → NodeRegisterMessage → ℕ → NodeInfo
node_info comm satellite msg now = record {
  node_id = comm;
  satellite_id = satellite;
  node_name = msg.node_name;
  node_type = msg.node_type;
  status = NodeStatus.healthy;
  register_time_ms = now;
  last_heartbeat_ms = now;
  is_online = true;
}

unfoldable pub add_aliases : Text → Text → Text → Dict Text → Dict Text
add_aliases comm satellite msg_id aliases =
    let known = insert satellite comm (insert comm comm (erase_aliases comm aliases)) in
    if is_empty msg_id then known else insert msg_id comm known

unfoldable pub add_node : Text → Text → NodeRegisterMessage → ℕ → NodeRegistry → NodeRegistry
add_node comm satellite msg now r = record r {
  nodes = insert comm (node_info comm satellite msg now) r.nodes;
  alias_to_node_id = add_aliases comm satellite msg.node_id r.alias_to_node_id;
}

-- registerNode at time `now`: the assigned id, or `none` where the code returns false. `freed` is what is read
-- through the reference into an erased alias.
unfoldable pub register_node_through :
    Text → NodeRegisterMessage → ℕ → NodeRegistry → Option Text × NodeRegistry
unfolding drop_former_through add_node identities
register_node_through freed msg now r =
    let (comm, satellite) = identities msg in
    if not r.initialized
    then (none, r)
    else if is_empty comm && is_empty satellite
    then (none, r)
    else (some comm, add_node comm satellite msg now (drop_former_through freed comm satellite r))

-- The same, where the freed text still reads as before, as the code means it. A registration that erases no
-- alias through the reference does not read freed text.
unfoldable pub register_node : NodeRegisterMessage → ℕ → NodeRegistry → Option Text × NodeRegistry
register_node msg now r =
    let (comm, satellite) = identities msg in
    if not r.initialized
    then (none, r)
    else if is_empty comm && is_empty satellite
    then (none, r)
    else (some comm, add_node comm satellite msg now (drop_former comm satellite r))

unfoldable pub unregister_node : Text → NodeRegistry → Bool × NodeRegistry
unregister_node node_id r =
    let id = resolve node_id r.alias_to_node_id in
    if has id r.nodes
    then (
      true,
      record r { nodes = erase id r.nodes; alias_to_node_id = erase_aliases id r.alias_to_node_id },
    )
    else (false, r)

unfoldable pub get_node_info : Text → NodeRegistry → Option NodeInfo
get_node_info node_id r = lookup (resolve node_id r.alias_to_node_id) r.nodes

unfoldable pub get_all_node_ids : NodeRegistry → List Text
get_all_node_ids r = keys r.nodes
