-- ===== src/Variables/Scopes.antt =====
-- src/executor/variable_manager.cpp: what reads see after writes, scope by scope.
use mathlib.Core.Option
use actuator_final.Prelude.{
  ◌∙◌, ◌++◌, is_some, Bool, true, false, ◌&&◌, ◌∷◌, [], Option, none, some, ◌≡◌, refl, arith,
  if◌then◌else◌,
}
use actuator_final.Text.{Text, codes, text_eq, text_eq_iff}
use actuator_final.Dict.{Dict, DistinctKeys, has, lookup, lookup-insert}
use actuator_final.Result.{or_throw}
use actuator_final.Result.Ending.{Settled, Settled-or_throw}
use actuator_final.Value.{Floating, Value}
use actuator_final.Variables.{
  Scope, global, local, intermediate, VariableManager, scope_map, set, get, exists, clear_scope,
  set_from_params, param_value,
}

abbrev pub scope_eq : Scope → Scope → Bool
scope_eq global global = true
scope_eq local local = true
scope_eq intermediate intermediate = true
scope_eq _ _ = false

module _ {F : Type 0} where
  -- A write is seen under its own name in its own scope, and nowhere else.
  pub lookup-set :
      (k j : Text) (v : Value F) (s t : Scope) (vm : VariableManager F)
      → lookup j (scope_map t (set k v s vm))
        ≡ (if scope_eq s t && text_eq k j then some v else lookup j (scope_map t vm))
  unfolding set
  lookup-set k j v global global vm = lookup-insert k j v vm.global_vars
  lookup-set k j v local local vm = lookup-insert k j v vm.local_vars
  lookup-set k j v intermediate intermediate vm = lookup-insert k j v vm.intermediate_vars
  lookup-set k j v _ _ vm = refl

  pub snapshots-set :
      (k : Text) (v : Value F) (s : Scope) (vm : VariableManager F)
      → (set k v s vm).snapshots ≡ vm.snapshots
  unfolding set
  snapshots-set k v global vm = refl
  snapshots-set k v local vm = refl
  snapshots-set k v intermediate vm = refl

  -- The value that `get` returns: local before intermediate before global.
  abbrev pub visible : Text → VariableManager F → Option (Value F)
  visible name vm = elim (lookup name vm.local_vars) [
    | some v ↦ some v
    | none ↦ elim (lookup name vm.intermediate_vars) [
      | some v ↦ some v
      | none ↦ lookup name vm.global_vars
    ]
  ]

  -- `get` returns the visible value, or throws that there is none; `exists` tells which.
  pub get-visible :
      (name : Text) (vm : VariableManager F)
      → (get name vm ≡ or_throw (visible name vm) (codes "Variable not found: " ++ name))
        × (exists name vm ≡ is_some (visible name vm))
  unfolding exists get
  get-visible name vm = (ground arith, ground arith)

  pub Settled-get : (name : Text) (vm : VariableManager F) → Settled (get name vm)
  Settled-get name vm = rw ((get-visible name vm).0) (Settled-or_throw _ _)

  -- Clearing one scope leaves the others.
  pub lookup-clear_scope :
      (j : Text) (s t : Scope) (vm : VariableManager F)
      → lookup j (scope_map t (clear_scope s vm))
        ≡ (if scope_eq s t then none else lookup j (scope_map t vm))
  unfolding clear_scope lookup scope_map
  lookup-clear_scope j global global vm = refl
  lookup-clear_scope j local local vm = refl
  lookup-clear_scope j intermediate intermediate vm = refl
  lookup-clear_scope j _ _ vm = refl

module _ {F : Type 0} ⦃fl : Floating F⦄ where
  -- Each parameter is stored, converted, under its name in the scope; all else keeps its value.
  pub lookup-set_from_params :
      (params : Dict Text) (j : Text) (s t : Scope) (vm : VariableManager F)
      → DistinctKeys params
      → lookup j (scope_map t (set_from_params params s vm)) ≡ (
          if scope_eq s t && has j params
          then Option.map param_value (lookup j params)
          else lookup j (scope_map t vm))
  unfolding set_from_params lookup
  lookup-set_from_params [] j s t vm d = ground arith
  lookup-set_from_params ((k, v) ∷ params) j s t vm d = ground (
    arith,
    text_eq_iff k j,
    lookup-set_from_params params j s t (set k (param_value v) s vm) d.1,
    lookup-set k j (param_value v) s t vm,
  )

  pub snapshots-set_from_params :
      (params : Dict Text) (s : Scope) (vm : VariableManager F)
      → (set_from_params params s vm).snapshots ≡ vm.snapshots
  unfolding set_from_params
  snapshots-set_from_params [] s vm = refl
  snapshots-set_from_params ((k, v) ∷ params) s vm =
      snapshots-set_from_params params s (set k (param_value v) s vm)
      ∙ snapshots-set k (param_value v) s vm
