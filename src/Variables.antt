-- ===== src/Variables.antt =====
-- src/executor/variable_manager.{h,cpp}: the three scopes and the snapshots. Every method holds the
-- object's mutex, so a method is one step on the state.
pub mod Config
pub mod ConfigEffect
pub mod Scopes
pub mod Snapshots
use Prim.Native.Nat.{◌%◌}
use actuator_final.Prelude.{
  ℕ, suc, ◌+◌, ◌^◌, Bool, true, false, ◌||◌, ◌∷◌, [], ◌++◌, Option, none, some, if◌then◌else◌, ◌==◌,
  length, is_some,
}
use actuator_final.Prelude.Int.{ℤ}
use actuator_final.Text.{Text, codes}
use actuator_final.Text.Numerals.{stoi, nat_to_string}
use actuator_final.Dict.{Dict, lookup, insert, has}
use actuator_final.Result.{Result, ok, err, thrown}
use actuator_final.Value.{
  Floating, Value, unknown, int, double, string, bool, is_true_word, is_false_word,
}

pub data Scope : Type 0 where
  global local intermediate : Scope

pub record Snapshot (F : Type 0) : Type 0 where
  pub snapshot_id : Text
  pub global_vars : Dict (Value F)
  pub local_vars : Dict (Value F)
  pub intermediate_vars : Dict (Value F)

pub record VariableManager (F : Type 0) : Type 0 where
  pub global_vars : Dict (Value F)
  pub local_vars : Dict (Value F)
  pub intermediate_vars : Dict (Value F)
  pub snapshots : Dict (Snapshot F)
  pub snapshot_counter : ℕ

abbrev pub empty_manager : {F : Type 0} → VariableManager F
empty_manager = record {
  global_vars = [];
  local_vars = [];
  intermediate_vars = [];
  snapshots = [];
  snapshot_counter = 0;
}

-- generateSnapshotId
unfoldable pub snapshot_name : ℕ → Text
snapshot_name n = codes "snapshot_" ++ nat_to_string n

-- A conversion counts only if it read the whole text.
abbrev whole {ℓ} : {A : Type ℓ} → Text → Option (A × ℕ) → Option A
whole s none = none
whole s (some (a, n)) = if n == length s then some a else none

module _ {F : Type 0} where
  -- getScopeMap, read
  unfoldable pub scope_map : Scope → VariableManager F → Dict (Value F)
  scope_map global vm = vm.global_vars
  scope_map local vm = vm.local_vars
  scope_map intermediate vm = vm.intermediate_vars

  -- getScopeMap, written through
  unfoldable pub with_scope_map : Scope → Dict (Value F) → VariableManager F → VariableManager F
  with_scope_map global m vm = record vm { global_vars = m }
  with_scope_map local m vm = record vm { local_vars = m }
  with_scope_map intermediate m vm = record vm { intermediate_vars = m }

  unfoldable pub set : Text → Value F → Scope → VariableManager F → VariableManager F
  unfolding scope_map with_scope_map
  set name value scope vm = with_scope_map scope (insert name value (scope_map scope vm)) vm

  unfoldable pub get : Text → VariableManager F → Result (Value F)
  get name vm = elim (lookup name vm.local_vars) [
    | some v ↦ ok v
    | none ↦ elim (lookup name vm.intermediate_vars) [
      | some v ↦ ok v
      | none ↦ elim (lookup name vm.global_vars) [
        | some v ↦ ok v
        | none ↦ err (thrown (codes "Variable not found: " ++ name))
      ]
    ]
  ]

  unfoldable pub exists : Text → VariableManager F → Bool
  exists name vm =
      has name vm.local_vars || (has name vm.intermediate_vars || has name vm.global_vars)

  unfoldable pub clear_scope : Scope → VariableManager F → VariableManager F
  unfolding with_scope_map
  clear_scope scope vm = with_scope_map scope [] vm

  -- ++snapshot_counter_ on unsigned int
  unfoldable pub next_counter : VariableManager F → ℕ
  next_counter vm = (vm.snapshot_counter + 1) % 2 ^ 32

  unfoldable pub create_snapshot : VariableManager F → Text × VariableManager F
  create_snapshot vm =
      let id = snapshot_name (next_counter vm) in
      let snapshot : Snapshot F = record {
        snapshot_id = id;
        global_vars = vm.global_vars;
        local_vars = vm.local_vars;
        intermediate_vars = vm.intermediate_vars;
      } in
      (
        id,
        record vm {
          snapshots = insert id snapshot vm.snapshots;
          snapshot_counter = next_counter vm;
        },
      )

  unfoldable pub restore_snapshot : Text → VariableManager F → Bool × VariableManager F
  restore_snapshot id vm = elim (lookup id vm.snapshots) [
    | none ↦ (false, vm)
    | some s ↦ (
      true,
      record vm {
        global_vars = s.global_vars;
        local_vars = s.local_vars;
        intermediate_vars = s.intermediate_vars;
      },
    )
  ]

module _ {F : Type 0} ⦃fl : Floating F⦄ where
  -- The body of the loop of setFromParams: the type that the text of a parameter is given.
  unfoldable pub param_value : Text → Value F
  unfolding is_true_word is_false_word
  param_value s = elim (whole s (stoi s)) [
    | some n ↦ int n
    | none ↦ elim (whole s (fl.stod s)) [
      | some x ↦ double x
      | none ↦
          if is_true_word s then bool true else if is_false_word s then bool false else string s
    ]
  ]

  unfoldable pub set_from_params : Dict Text → Scope → VariableManager F → VariableManager F
  set_from_params [] scope vm = vm
  set_from_params ((key, value) ∷ params) scope vm =
      set_from_params params scope (set key (param_value value) scope vm)
