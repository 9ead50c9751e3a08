-- ===== src/Store/Router.antt =====
-- `NamespaceRouter` of src/policy_store.rs: a trie over the components of a namespace.
pub mod Resolve
pub mod Claims
pub mod Overlap
use treetop_core.Prelude.{
  ℕ, String, List, [], ◌∷◌, Option, none, some, ◌==◌, string_eq, if◌then◌else◌,
}

-- The children are a `HashMap<String, NamespaceNode>`: a list of entries, found by key.
mutual
  pub data NamespaceNode : Type 0 where
    node : Option ℕ → Children → NamespaceNode

  pub data Children : Type 0 where
    leaf : Children
    entry : String → NamespaceNode → Children → Children

abbrev pub default : NamespaceNode
default = node none leaf

abbrev pub store_index : NamespaceNode → Option ℕ
store_index (node i kids) = i

-- `children.get`
unfoldable pub get_child : String → Children → Option NamespaceNode
get_child c leaf = none
get_child c (entry k n kids) = if k == c then some n else get_child c kids

-- A write through the slot of `children.entry`.
unfoldable pub put_child : String → NamespaceNode → Children → Children
put_child c m leaf = entry c m leaf
put_child c m (entry k n kids) = if k == c then entry k m kids else entry k n (put_child c m kids)

-- `children.entry(c).or_default()`
abbrev pub or_default : Option NamespaceNode → NamespaceNode
or_default none = default
or_default (some n) = n

abbrev pub or_else : Option ℕ → Option ℕ → Option ℕ
or_else none second = second
or_else (some i) second = some i

-- `HashMap::values` has no fixed order; here it is the order of the entries.
unfoldable mutual
  pub first_store_index : NamespaceNode → Option ℕ
  first_store_index (node i kids) = or_else i (first_in_children kids)

  pub first_in_children : Children → Option ℕ
  first_in_children leaf = none
  first_in_children (entry k n kids) = or_else (first_store_index n) (first_in_children kids)

-- The last step of `insert`, at the node that the walk reached.
unfoldable pub claim : NamespaceNode → ℕ → Option ℕ × NamespaceNode
unfolding first_store_index
claim (node i kids) index = elim (or_else i (first_store_index (node i kids))) [
  | none ↦ (none, node (some index) kids)
  | some existing ↦ (some existing, node i kids)
]

-- The walk of `insert`: the store that owns an ancestor or a descendant of the namespace, or `none`
-- and the trie in which the namespace is claimed. The node comes back as the walk leaves it.
unfoldable pub insert_node : List String → ℕ → NamespaceNode → Option ℕ × NamespaceNode
unfolding claim get_child put_child
insert_node [] index n = claim n index
insert_node (c ∷ cs) index (node (some existing) kids) = (some existing, node (some existing) kids)
insert_node (c ∷ cs) index (node none kids) =
    let (found, below) = insert_node cs index (or_default (get_child c kids)) in
    (found, node none (put_child c below kids))

-- `NamespaceRouter::resolve`: the first store met on the way down. The root is not asked.
unfoldable pub resolve : List String → NamespaceNode → Option ℕ
unfolding get_child
resolve [] n = none
resolve (c ∷ cs) (node i kids) = elim (get_child c kids) [
  | none ↦ none
  | some below ↦ or_else (store_index below) (resolve cs below)
]
