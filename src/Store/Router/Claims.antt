-- ===== src/Store/Router/Claims.antt =====
-- The stores that the subtrees of `NamespaceRouter` in src/policy_store.rs claim.
use treetop_core.Prelude.{
  ℕ, String, List, [], ◌∷◌, Option, none, some, string_eq, ◌≡◌, refl, arith, eq_iff, Option-cases,
  inl, inr, ◌∙◌, beq_self,
}
use treetop_core.Store.Router.{
  NamespaceNode, node, Children, leaf, entry, default, store_index, get_child, put_child,
  or_default, first_store_index, first_in_children, claim, insert_node,
}
use treetop_core.Store.Router.Resolve.{get_child-put_child}

-- The store that claims exactly this namespace.
unfoldable pub store_at : List String → NamespaceNode → Option ℕ
store_at [] n = store_index n
store_at (c ∷ cs) (node i kids) = elim (get_child c kids) [
  | none ↦ none
  | some below ↦ store_at cs below
]

-- The entries of a `HashMap` have distinct keys.
unfoldable mutual
  pub HasDistinctKeys : NamespaceNode → Type 0
  HasDistinctKeys (node i kids) = AreDistinct kids

  pub AreDistinct : Children → Type 0
  AreDistinct leaf = Unit
  AreDistinct (entry k n kids) = (get_child k kids ≡ none) × HasDistinctKeys n × AreDistinct kids

abbrev pub at_child : List String → Option NamespaceNode → Option ℕ
at_child cs none = none
at_child cs (some n) = store_at cs n

pub store_at-cons :
    (c : String) (cs : List String) (i : Option ℕ) (kids : Children)
    → store_at (c ∷ cs) (node i kids) ≡ at_child cs (get_child c kids)
unfolding store_at
store_at-cons c cs i kids = ground arith

pub store_at-nil : (n : NamespaceNode) → store_at [] n ≡ store_index n
unfolding store_at
store_at-nil n = refl

pub store_at-default : (cs : List String) → store_at cs default ≡ none
unfolding store_at get_child
store_at-default [] = refl
store_at-default (c ∷ cs) = refl

pub at_child-or_default :
    (cs : List String) (o : Option NamespaceNode) → store_at cs (or_default o) ≡ at_child cs o
at_child-or_default cs none = store_at-default cs
at_child-or_default cs (some n) = refl

pub get_child-HasDistinctKeys :
    (c : String) (kids : Children)
    → AreDistinct kids
    → HasDistinctKeys (or_default (get_child c kids))
unfolding HasDistinctKeys get_child
get_child-HasDistinctKeys c leaf h = tt
get_child-HasDistinctKeys c (entry k n kids) h = ground (arith, get_child-HasDistinctKeys c kids)

put_child-AreDistinct :
    (c : String) (m : NamespaceNode) (kids : Children)
    → HasDistinctKeys m
    → AreDistinct kids
    → AreDistinct (put_child c m kids)
unfolding HasDistinctKeys put_child get_child
put_child-AreDistinct c m leaf hm h = (refl, hm, tt)
put_child-AreDistinct c m (entry k n kids) hm h =
    ground (
      arith,
      put_child-AreDistinct c m kids,
      get_child-put_child c k m kids,
      eq_iff k c,
      eq_iff c k,
    )

claim-HasDistinctKeys :
    (n : NamespaceNode) (k : ℕ) → HasDistinctKeys n → HasDistinctKeys (claim n k).1
unfolding claim HasDistinctKeys
claim-HasDistinctKeys (node i kids) k h = ground arith

pub insert_node-HasDistinctKeys :
    (ps : List String) (k : ℕ) (n : NamespaceNode)
    → HasDistinctKeys n
    → HasDistinctKeys (insert_node ps k n).1
unfolding insert_node HasDistinctKeys
insert_node-HasDistinctKeys [] k n h = claim-HasDistinctKeys n k h
insert_node-HasDistinctKeys (p ∷ ps) k (node (some i) kids) h = h
insert_node-HasDistinctKeys (p ∷ ps) k (node none kids) h =
    put_child-AreDistinct p _ kids
      (insert_node-HasDistinctKeys ps k (or_default (get_child p kids))
        (get_child-HasDistinctKeys p kids h))
      h

at_later_entry :
    (k c : String) (q : List String) (n : NamespaceNode) (kids : Children) {e : ℕ}
    → get_child k kids ≡ none
    → at_child q (get_child c kids) ≡ some e
    → at_child q (get_child c (entry k n kids)) ≡ some e
unfolding get_child
at_later_entry k c q n kids absent h = ground (arith, eq_iff k c)

at_first_entry :
    (k : String) (q : List String) (n : NamespaceNode) (kids : Children)
    → at_child q (get_child k (entry k n kids)) ≡ store_at q n
unfolding get_child
at_first_entry k q n kids = rw (beq_self k)

mutual
  unfolding first_store_index HasDistinctKeys

  pub first_store_index_at :
      (n : NamespaceNode) (e : ℕ)
      → HasDistinctKeys n
      → first_store_index n ≡ some e
      → (q : List String) × (store_at q n ≡ some e)
  first_store_index_at (node (some i) kids) e d h = ([], store_at-nil (node (some i) kids) ∙ h)
  first_store_index_at (node none kids) e d h =
      let (c, q, at) = first_in_children_at kids e d h in (c ∷ q, store_at-cons c q none kids ∙ at)

  first_in_children_at :
      (kids : Children) (e : ℕ)
      → AreDistinct kids
      → first_in_children kids ≡ some e
      → (c : String) × (q : List String) × (at_child q (get_child c kids) ≡ some e)
  first_in_children_at leaf e d h = cc
  first_in_children_at (entry k n kids) e d h = elim (Option-cases (first_store_index n)) [
    | inl no_store ↦
        let (c, q, at) = first_in_children_at kids e d.2 (ground arith) in
        (c, q, at_later_entry k c q n kids d.0 at)
    | inr (i, found) ↦
        let (q, at) = first_store_index_at n e d.1 (ground arith) in
        (k, q, at_first_entry k q n kids ∙ at)
  ]

mutual
  unfolding first_store_index store_at get_child

  pub store_at_free :
      (n : NamespaceNode) (q : List String) → first_store_index n ≡ none → store_at q n ≡ none
  store_at_free (node none kids) [] h = refl
  store_at_free (node none kids) (c ∷ q) h = at_child_free kids c q h
  store_at_free (node (some i) kids) q h = cc

  at_child_free :
      (kids : Children) (c : String) (q : List String)
      → first_in_children kids ≡ none
      → at_child q (get_child c kids) ≡ none
  at_child_free leaf c q h = refl
  at_child_free (entry k n kids) c q h = ground (arith, store_at_free n q, at_child_free kids c q)

pub claim_free : (n : NamespaceNode) (k : ℕ) → (claim n k).0 ≡ none → first_store_index n ≡ none
unfolding claim
claim_free (node i kids) k h = ground arith
