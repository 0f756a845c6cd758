-- ===== src/Variables/Snapshots.antt =====
-- src/executor/variable_manager.cpp: createSnapshot and restoreSnapshot together.
use actuator_final.Prelude.{true, ◌≡◌, arith}
use actuator_final.Text.{text_eq_refl}
use actuator_final.Dict.{lookup-insert}
use actuator_final.Variables.{
  VariableManager, Snapshot, next_counter, snapshot_name, create_snapshot, restore_snapshot,
}

module _ {F : Type 0} where
  -- The three scopes of one manager, put into another.
  abbrev pub with_scopes_of : VariableManager F → VariableManager F → VariableManager F
  with_scopes_of saved vm = record vm {
    global_vars = saved.global_vars;
    local_vars = saved.local_vars;
    intermediate_vars = saved.intermediate_vars;
  }

  abbrev snapshot_of : VariableManager F → Snapshot F
  snapshot_of vm = record {
    snapshot_id = snapshot_name (next_counter vm);
    global_vars = vm.global_vars;
    local_vars = vm.local_vars;
    intermediate_vars = vm.intermediate_vars;
  }

  -- Whatever ran since, if it left the snapshots alone, restoring brings back the three scopes.
  pub restore-create :
      (saved vm : VariableManager F)
      → vm.snapshots ≡ (create_snapshot saved).1.snapshots
      → restore_snapshot (create_snapshot saved).0 vm ≡ (true, with_scopes_of saved vm)
  unfolding create_snapshot restore_snapshot
  restore-create saved vm e =
      let id = snapshot_name (next_counter saved) in
      ground (arith, text_eq_refl id, lookup-insert id id (snapshot_of saved) saved.snapshots)
