-- ===== src/Store/Layout/Routing.antt =====
-- Which store owns a name: the trie of a layout against a scan of the declared namespaces.
use treetop_core.Prelude.{
  ℕ, suc, String, List, [], ◌∷◌, Option, none, some, string_eq, ◌≡◌, refl, if◌then◌else◌, arith, ap,
  ◌∙◌,
}
use treetop_core.Error.{ok}
use treetop_core.Names.{push, split_name, split_from}
use treetop_core.Store.Router.{
  NamespaceNode, node, default, store_index, or_else, insert_node, resolve,
}
use treetop_core.Store.Router.Resolve.{
  is_prefix, resolve_at, resolve_at-insert_node, resolve_at-default,
}
use treetop_core.Store.Layout.{PolicyStoreConfig, PolicyStoreLayout, segments, register, new_layout}

-- The first store, from `index` on, whose namespace is a prefix of the components.
abbrev pub owner : ℕ → List PolicyStoreConfig → List String → Option ℕ
owner index [] cs = none
owner index (s ∷ ss) cs =
    or_else (if is_prefix (segments s) cs then some index else none) (owner (suc index) ss cs)

or_else_assoc : (a b d : Option ℕ) → or_else (or_else a b) d ≡ or_else a (or_else b d)
or_else_assoc none b d = refl
or_else_assoc (some i) b d = refl

pub register-cons :
    (index : ℕ) (s : PolicyStoreConfig) (ss : List PolicyStoreConfig) (n m : NamespaceNode)
    → register index (s ∷ ss) n ≡ ok m
    → ((insert_node (segments s) index n).0 ≡ none)
      × (register (suc index) ss (insert_node (segments s) index n).1 ≡ ok m)
unfolding register
register-cons index s ss n m h = ground arith

-- Registering more stores adds what a scan of them finds.
resolve_at-register :
    (index : ℕ) (ss : List PolicyStoreConfig) (n m : NamespaceNode) (cs : List String)
    → register index ss n ≡ ok m
    → resolve_at cs m ≡ or_else (resolve_at cs n) (owner index ss cs)
resolve_at-register index [] n m cs h = unfold register in ground arith
resolve_at-register index (s ∷ ss) n m cs h =
    let (free, rest) = register-cons index s ss n m h in
    resolve_at-register (suc index) ss (insert_node (segments s) index n).1 m cs rest
    ∙ ap (λ o. or_else o (owner (suc index) ss cs))
        (resolve_at-insert_node (segments s) cs index n free)
    ∙ or_else_assoc (resolve_at cs n) _ _

-- A text splits into at least one piece.
abbrev IsCons : List String → Type 0
IsCons [] = ⊥
IsCons (s ∷ ss) = Unit

split_from-IsCons : (cur s : String) → IsCons (split_from cur s)
unfolding split_from
split_from-IsCons cur String.[] = tt
split_from-IsCons cur (String.◌∷◌ c String.[]) = tt
split_from-IsCons cur (String.◌∷◌ c (String.◌∷◌ d s)) =
    ground (arith, split_from-IsCons (push cur c) (String.◌∷◌ d s))

-- The root never claims a store: a namespace has at least one component.
store_index-insert_node :
    (ps : List String) (k : ℕ) (n : NamespaceNode)
    → IsCons ps
    → store_index (insert_node ps k n).1 ≡ store_index n
unfolding insert_node
store_index-insert_node (p ∷ ps) k (node (some i) kids) h = refl
store_index-insert_node (p ∷ ps) k (node none kids) h = refl
store_index-insert_node [] k n h = elim h [ ]

store_index-register :
    (index : ℕ) (ss : List PolicyStoreConfig) (n m : NamespaceNode)
    → register index ss n ≡ ok m
    → store_index m ≡ store_index n
store_index-register index [] n m h = unfold register in ground arith
store_index-register index (s ∷ ss) n m h =
    let (free, rest) = register-cons index s ss n m h in
    store_index-register (suc index) ss (insert_node (segments s) index n).1 m rest
    ∙ store_index-insert_node (segments s) index n
        (unfold split_name in split_from-IsCons "" s.namespace)

pub new_layout-register :
    (stores : List PolicyStoreConfig) (l : PolicyStoreLayout)
    → new_layout stores ≡ ok l
    → (register 0 stores default ≡ ok l.namespace_router) × (l.stores ≡ stores)
unfolding new_layout
new_layout-register stores l h = ground arith

-- The router of a layout finds the store that a scan of the declared namespaces finds.
pub resolve-new_layout :
    (stores : List PolicyStoreConfig) (l : PolicyStoreLayout) (cs : List String)
    → new_layout stores ≡ ok l
    → resolve cs l.namespace_router ≡ owner 0 stores cs
resolve-new_layout stores l cs h =
    let (filled, _) = new_layout-register stores l h in
    ground (
      arith,
      resolve_at-register 0 stores default l.namespace_router cs filled,
      store_index-register 0 stores default l.namespace_router filled,
      resolve_at-default cs,
    )
