-- ===== src/Comm/Timeouts.antt =====
-- src/coordinator/inter_sat_comm.cpp: which nodes checkNodeTimeouts removes.
use mathlib.Core.Option.{none-ne-some}
use actuator_final.Prelude.{
  ◌<◌, ℕ, ◌-◌, ◌^◌, Bool, true, false, List, [], ◌∷◌, Option, none, some, ◌≡◌, inl, inr, refl,
  arith, ltb, leb, is_some, if◌then◌else◌, sym, ◌∙◌, Bool-cases, if_true, if_false, subst,
}
use actuator_final.Text.{Text, text_eq, text_eq_iff}
use actuator_final.Dict.{Dict, lookup, lookup-erase, DistinctKeys}
use actuator_final.Comm.{Comm, RemoteNode}
use actuator_final.Comm.Nodes.{
  elapsed, timed_out_nodes, remove_node, remove_nodes, check_node_timeouts,
}

-- std::find over the list of ids
abbrev pub member : Text → List Text → Bool
member id [] = false
member id (j ∷ ids) = if text_eq j id then true else member id ids

module _ {H : Type 0} where
  lookup-remove_node :
      (id j : Text) (c : Comm H)
      → lookup j (remove_node id c).1.nodes ≡ (if text_eq id j then none else lookup j c.nodes)
  unfolding remove_node
  lookup-remove_node id j c = ground (arith, text_eq_iff id j, lookup-erase id j c.nodes)

  lookup-remove_nodes :
      (ids : List Text) (j : Text) (c : Comm H)
      → lookup j (remove_nodes ids c).1.nodes ≡ (if member j ids then none else lookup j c.nodes)
  unfolding remove_nodes
  lookup-remove_nodes [] j c = refl
  lookup-remove_nodes (id ∷ ids) j c =
      ground (arith, lookup-remove_nodes ids j (remove_node id c).1, lookup-remove_node id j c)

timed_out-absent :
    (timeout now : ℕ) (id : Text) (nodes : Dict RemoteNode)
    → lookup id nodes ≡ none
    → member id (timed_out_nodes timeout now nodes) ≡ false
unfolding timed_out_nodes lookup
timed_out-absent timeout now id [] e = refl
timed_out-absent timeout now id ((j, k) ∷ nodes) e =
    ground (arith, e, timed_out-absent timeout now id nodes)

is_some-none : {A : Type 0} (o : Option A) → is_some o ≡ false → o ≡ none
is_some-none none e = refl
is_some-none (some a) e = ground (arith, e)

timed_out-lookup :
    (timeout now : ℕ) (id : Text) (nodes : Dict RemoteNode) (n : RemoteNode)
    → DistinctKeys nodes
    → lookup id nodes ≡ some n
    → member id (timed_out_nodes timeout now nodes)
      ≡ ltb timeout (elapsed now n.last_heartbeat_time_ms)
unfolding timed_out_nodes lookup
timed_out-lookup timeout now id [] n d e = elim (none-ne-some n e) [ ]
timed_out-lookup timeout now id ((j, k) ∷ nodes) n (fresh, distinct) e =
    let gone : lookup j nodes ≡ none = is_some-none (lookup j nodes) fresh in
    elim (Bool-cases (text_eq j id)) [
      | inl same ↦
          let is_id : j ≡ id = (text_eq_iff j id).0 same in
          let first : some k ≡ some n = sym (if_true (some k) (lookup id nodes) same) ∙ e in
          let absent =
            timed_out-absent timeout now id nodes (subst (λ i. lookup i nodes ≡ none) is_id gone) in
          ground (arith, same, first, absent)
      | inr other ↦
          let later : lookup id nodes ≡ some n =
            sym (if_false (some k) (lookup id nodes) other) ∙ e in
          ground (arith, other, timed_out-lookup timeout now id nodes n distinct later)
    ]

module _ {H : Type 0} where
  -- A check of the timeouts at `now` keeps a connected node just if the time since its last message is at
  -- most the timeout. That time is a 64-bit difference: for a message stamped after `now`, which
  -- the receiving thread may store between the reading of the clock and the loop, it is 2 ^ 64 less their distance.
  pub check_node_timeouts_exact :
      (now : ℕ) (c : Comm H) (id : Text) (n : RemoteNode)
      → DistinctKeys c.nodes
      → lookup id c.nodes ≡ some n
      → now < 2 ^ 64
      → n.last_heartbeat_time_ms < 2 ^ 64
      → (lookup id (check_node_timeouts now c).1.nodes ≡ (
          if leb (elapsed now n.last_heartbeat_time_ms) c.config.heartbeat_timeout_ms
          then some n
          else none))
        × (elapsed now n.last_heartbeat_time_ms ≡ (
            if leb n.last_heartbeat_time_ms now
            then now - n.last_heartbeat_time_ms
            else 2 ^ 64 - (n.last_heartbeat_time_ms - now)))
  unfolding check_node_timeouts elapsed
  check_node_timeouts_exact now c id n distinct found now_fits last_fits = (
    ground (
      arith,
      found,
      lookup-remove_nodes (timed_out_nodes c.config.heartbeat_timeout_ms now c.nodes) id c,
      timed_out-lookup c.config.heartbeat_timeout_ms now id c.nodes n distinct found,
    ),
    ground arith,
  )
