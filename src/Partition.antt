-- ===== src/Partition.antt =====
-- `PolicySets` and `partition_policy_set` of src/engine.rs: each policy of a source set is put into
-- the stores that it belongs to, or the whole partition is refused.
pub mod Installed
pub mod Contents
pub mod Targets
pub mod Isolation
pub mod Coherent
use treetop_core.Prelude.{
  ℕ, String, List, [], ◌∷◌, Option, none, some, Bool, true, false, ◌==◌, string_eq, nat_eq, ◌||◌,
  ◌&&◌, not, map, if◌then◌else◌, contains, keep, length, get_elem?, set, replicate, range,
}
use treetop_core.Error.{
  policy_store_config_error, policy_store_routing_error, Result, ok, err, ◌>>=◌, ◌>>◌, fail_if,
  or_fail,
}
use treetop_core.Cedar.{Cedar}
use treetop_core.Types.Identity.{Action}
use treetop_core.Types.Resource.{Resource, Request}
use treetop_core.Store.Layout.{PolicyStoreLayout, PolicyStoreConfig, insert_id, resolve_request}
use treetop_core.Store.Assignment.{
  ExplicitPolicyStore, global, store, explicit_policy_store, policy_candidates, display_policy_id,
}

abbrev pub is_global : Option ExplicitPolicyStore → Bool
is_global (some global) = true
is_global (some (store i)) = false
is_global none = false

abbrev pub is_store : Option ExplicitPolicyStore → Bool
is_store (some global) = false
is_store (some (store i)) = true
is_store none = false

-- `candidates.first().is_some_and(|candidate| *candidate != index)`
abbrev pub first_differs : List ℕ → ℕ → Bool
first_differs [] index = false
first_differs (candidate ∷ _) index = not (candidate == index)

-- The stores of a policy that is not global, from its annotation and its candidates.
unfoldable pub local_targets : Option ExplicitPolicyStore → List ℕ → Result (List ℕ)
local_targets (some (store index)) candidates = do
  fail_if (first_differs candidates index) policy_store_config_error
  ok (index ∷ [])
local_targets none (index ∷ []) = ok (index ∷ [])
local_targets none [] = err policy_store_config_error
local_targets none (i ∷ j ∷ is) = err policy_store_config_error
local_targets (some global) candidates = err policy_store_config_error

abbrev pub is_empty : List String → Bool
is_empty [] = true
is_empty (x ∷ xs) = false

module _ (c : Cedar) where
  open c use {Policy, annotation, PolicySet, new_set_of_policies, policies, add}

  pub data PolicySets : Type 0 where
    monolithic : PolicySet → PolicySets
    scoped : PolicyStoreLayout → List PolicySet → PolicySets

  unfoldable pub layout_of : PolicySets → Option PolicyStoreLayout
  layout_of (monolithic set) = none
  layout_of (scoped layout stores) = some layout

  -- The store whose policies decide a request.
  unfoldable pub resolve_set : PolicySets → Request c → Result PolicySet
  resolve_set (monolithic set) request = ok set
  resolve_set (scoped layout stores) request = do
    index ← resolve_request c layout request.action request.resource
    or_fail (get_elem? stores index) policy_store_routing_error

  -- `PolicySets::iter`
  unfoldable pub all_sets : PolicySets → List PolicySet
  all_sets (monolithic set) = set ∷ []
  all_sets (scoped layout stores) = stores

  unfoldable pub store_ids : PolicySets → Option (List String)
  store_ids (monolithic set) = none
  store_ids (scoped layout stores) = some (map (λ (s : PolicyStoreConfig). s.id) layout.stores)

  -- Whether the policy's `@id` is registered as global.
  unfoldable pub registered_global : PolicyStoreLayout → Policy → Bool
  registered_global layout policy = elim (annotation policy "id") [
    | none ↦ false
    | some id ↦ contains id layout.global_policy_ids
  ]

  -- The stores of a policy, once its registration and its annotation are known.
  unfoldable pub targets_of :
      PolicyStoreLayout → Policy → Bool → Option ExplicitPolicyStore → Result (List ℕ)
  targets_of layout policy registered explicit = do
    fail_if (registered && is_store explicit) policy_store_config_error
    if registered || is_global explicit
        then ok (range 0 (length layout.stores))
        else do candidates ← policy_candidates c layout policy; local_targets explicit candidates

  -- The indexes of the stores that a policy is added to.
  unfoldable pub target_indexes : PolicyStoreLayout → Policy → Result (List ℕ)
  target_indexes layout policy = do
    explicit ← explicit_policy_store c layout policy
    targets_of layout policy (registered_global layout policy) explicit

  -- The loop over `target_indexes`.
  unfoldable pub install : Policy → List ℕ → List PolicySet → Result (List PolicySet)
  install policy [] stores = ok stores
  install policy (i ∷ is) stores = do
    target ← or_fail (get_elem? stores i) policy_store_config_error
    target' ← or_fail (add target policy) policy_store_config_error
    install policy is (set stores i target')

  -- The loop over the source; `found` holds the global ids that were met.
  unfoldable pub assign_all :
      PolicyStoreLayout
      → List Policy
      → List String
      → List PolicySet
      → Result (List String × List PolicySet)
  assign_all layout [] found stores = ok (found, stores)
  assign_all layout (p ∷ ps) found stores = do
    targets ← target_indexes layout p
    stores' ← install p targets stores
    assign_all layout ps
        (if registered_global layout p then insert_id (display_policy_id c p) found else found)
        stores'

  unfoldable pub partition_policy_set : PolicySet → PolicyStoreLayout → Result PolicySets
  partition_policy_set source layout = do
    done ←
        assign_all layout (policies source) []
          (replicate (length layout.stores) new_set_of_policies)
    let missing = keep (λ id. not (contains id done.0)) layout.global_policy_ids
    fail_if (not (is_empty missing)) policy_store_config_error
    ok (scoped layout done.1)
