-- ===== src/Store/Layout.antt =====
-- `PolicyStoreId`, `PolicyStoreConfig` and `PolicyStoreLayout` of src/policy_store.rs, and the
-- routing of requests.
pub mod Disjoint
pub mod Routing
pub mod Ownership
use treetop_core.Prelude.{
  ℕ, suc, String, List, [], ◌∷◌, Option, none, some, Bool, true, false, ◌==◌, string_eq, nat_eq,
  if◌then◌else◌, contains, not,
}
use treetop_core.Prelude.Texts.{is_blank}
use treetop_core.Error.{
  policy_store_config_error, policy_store_routing_error, Result, ok, err, ◌>>=◌, ◌>>◌, fail_if,
  or_fail,
}
use treetop_core.Names.{split_name}
use treetop_core.Cedar.{Cedar}
use treetop_core.Types.Identity.{Action}
use treetop_core.Types.Resource.{Resource}
use treetop_core.Store.Router.{NamespaceNode, default, insert_node, resolve}

-- The id of a store is its text.
unfoldable pub new_store_id : String → Result String
unfolding is_blank
new_store_id value = do
  fail_if (is_blank value) policy_store_config_error
  fail_if (value == "*") policy_store_config_error
  ok value

pub record PolicyStoreConfig : Type 0 where
  pub id : String
  pub namespace : String

pub record PolicyStoreLayout : Type 0 where
  pub stores : List PolicyStoreConfig
  pub global_policy_ids : List String
  pub namespace_router : NamespaceNode

-- The components of a store's namespace.
abbrev pub segments : PolicyStoreConfig → List String
segments store = split_name store.namespace

-- The loop over `ids`: whether every id is new.
unfoldable pub has_fresh_ids : List String → List PolicyStoreConfig → Bool
has_fresh_ids seen [] = true
has_fresh_ids seen (s ∷ ss) =
    let rest = has_fresh_ids (s.id ∷ seen) ss in if contains s.id seen then false else rest

-- The loop that fills the router; `index` counts the stores before.
unfoldable pub register : ℕ → List PolicyStoreConfig → NamespaceNode → Result NamespaceNode
register index [] router = ok router
register index (s ∷ ss) router =
    let (found, router') = insert_node (segments s) index router in
    elim found [
      | none ↦ register (suc index) ss router'
      | some existing ↦ err policy_store_config_error
    ]

abbrev is_empty : List PolicyStoreConfig → Bool
is_empty [] = true
is_empty (s ∷ ss) = false

-- `PolicyStoreLayout::new`
unfoldable pub new_layout : List PolicyStoreConfig → Result PolicyStoreLayout
unfolding has_fresh_ids register
new_layout stores = do
  fail_if (is_empty stores) policy_store_config_error
  fail_if (not (has_fresh_ids [] stores)) policy_store_config_error
  router ← register 0 stores default
  ok (record { stores = stores; global_policy_ids = []; namespace_router = router })

-- Insertion into a `HashSet`.
abbrev pub insert_id : String → List String → List String
insert_id id ids = if contains id ids then ids else id ∷ ids

unfoldable pub add_global_ids : List String → List String → Result (List String)
unfolding is_blank
add_global_ids [] ids = ok ids
add_global_ids (p ∷ ps) ids = do
  fail_if (is_blank p) policy_store_config_error
  add_global_ids ps (insert_id p ids)

unfoldable pub with_global_policy_ids : PolicyStoreLayout → List String → Result PolicyStoreLayout
unfolding add_global_ids
with_global_policy_ids layout policy_ids = do
  ids ← add_global_ids policy_ids layout.global_policy_ids
  ok (record layout { global_policy_ids = ids })

-- `resolve_qualified_name`
unfoldable pub resolve_qualified_name : String → NamespaceNode → Option ℕ
resolve_qualified_name name router = resolve (split_name name) router

-- The last `match` of `resolve_request`, on the stores of the action and of the resource.
unfoldable pub agree : Option ℕ → Option ℕ → Result ℕ
agree (some a) (some r) = if a == r then ok a else err policy_store_routing_error
agree (some a) none = ok a
agree none (some r) = ok r
agree none none = err policy_store_routing_error

module _ (c : Cedar) where
  open c use {parse_type}

  unfoldable pub new_config : String → String → Result PolicyStoreConfig
  unfolding new_store_id
  new_config id namespace = do
    store_id ← new_store_id id
    _ ← or_fail (parse_type namespace) policy_store_config_error
    ok (record { id = store_id; namespace = namespace })

  unfoldable pub resolve_request : PolicyStoreLayout → Action c → Resource c → Result ℕ
  unfolding agree resolve_qualified_name
  resolve_request layout action resource =
      agree (resolve action.namespace layout.namespace_router)
        (resolve_qualified_name resource.kind layout.namespace_router)
