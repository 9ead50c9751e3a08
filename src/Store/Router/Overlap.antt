-- ===== src/Store/Router/Overlap.antt =====
-- When `insert` of src/policy_store.rs refuses a namespace: exactly when it is a prefix or an
-- extension of one that is already there.
use treetop_core.Prelude.{
  ℕ, String, List, [], ◌∷◌, none, some, Bool, true, false, ◌==◌, string_eq, ◌≡◌, refl,
  if◌then◌else◌, ◌&&◌, ◌||◌, arith, eq_iff, ◌∙◌, sym, beq_self,
}
use treetop_core.Store.Router.{
  NamespaceNode, node, get_child, put_child, or_default, first_store_index, claim, insert_node,
}
use treetop_core.Store.Router.Resolve.{is_prefix, get_child-put_child}
use treetop_core.Store.Router.Claims.{
  store_at, HasDistinctKeys, store_at-cons, store_at-nil, at_child-or_default,
  get_child-HasDistinctKeys, first_store_index_at, store_at_free, claim_free,
}

-- Two namespaces, one of which owns the other's subtree.
abbrev pub overlaps : List String → List String → Bool
overlaps ps qs = is_prefix ps qs || is_prefix qs ps

abbrev pub same_path : List String → List String → Bool
same_path [] [] = true
same_path (p ∷ ps) (q ∷ qs) = p == q && same_path ps qs
same_path _ _ = false

overlaps-nil : (q : List String) → overlaps q [] ≡ true
overlaps-nil [] = refl
overlaps-nil (c ∷ q) = refl

claim_found : (n : NamespaceNode) (k e : ℕ) → (claim n k).0 ≡ some e → first_store_index n ≡ some e
unfolding claim first_store_index
claim_found (node none kids) k e h = ground arith
claim_found (node (some i) kids) k e h = ground arith

overlaps-cons : (p : String) (qs ps : List String) → overlaps (p ∷ qs) (p ∷ ps) ≡ overlaps qs ps
overlaps-cons p qs ps = rw (beq_self p)

-- A refused namespace overlaps the one of the store that is reported.
pub insert_node-overlaps :
    (ps : List String) (k e : ℕ) (n : NamespaceNode)
    → HasDistinctKeys n
    → (insert_node ps k n).0 ≡ some e
    → (q : List String) × (store_at q n ≡ some e) × (overlaps q ps ≡ true)
unfolding insert_node HasDistinctKeys
insert_node-overlaps [] k e n d h =
    let (q, at) = first_store_index_at n e d (claim_found n k e h) in (q, at, overlaps-nil q)
insert_node-overlaps (p ∷ ps) k e (node (some i) kids) d h = ([], store_at-nil _ ∙ h, refl)
insert_node-overlaps (p ∷ ps) k e (node none kids) d h =
    let below = get_child p kids in
    let (q, at, o) =
      insert_node-overlaps ps k e (or_default below) (get_child-HasDistinctKeys p kids d) h in
    (
      p ∷ q,
      store_at-cons p q none kids ∙ sym (at_child-or_default q below) ∙ at,
      overlaps-cons p q ps ∙ o,
    )

-- A namespace is accepted only where no related one is claimed.
pub insert_node_free :
    (ps q : List String) (k : ℕ) (n : NamespaceNode)
    → (insert_node ps k n).0 ≡ none
    → overlaps q ps ≡ true
    → store_at q n ≡ none
unfolding insert_node
insert_node_free [] q k n h o = store_at_free n q (claim_free n k h)
insert_node_free (p ∷ ps) q k (node (some i) kids) h o = cc
insert_node_free (p ∷ ps) [] k (node none kids) h o = store_at-nil (node none kids)
insert_node_free (p ∷ ps) (c ∷ q) k (node none kids) h o = ground (
  arith,
  insert_node_free ps q k (or_default (get_child p kids)),
  at_child-or_default q (get_child p kids),
  store_at-cons c q none kids,
  eq_iff p c,
  eq_iff c p,
)

claim-store_at :
    (n : NamespaceNode) (k : ℕ) (q : List String)
    → (claim n k).0 ≡ none
    → store_at q (claim n k).1 ≡ (if same_path [] q then some k else store_at q n)
unfolding claim store_at
claim-store_at (node i kids) k [] h = ground arith
claim-store_at (node i kids) k (c ∷ q) h = ground arith

-- An accepted namespace is claimed, and no other claim changes.
pub store_at-insert_node :
    (ps q : List String) (k : ℕ) (n : NamespaceNode)
    → (insert_node ps k n).0 ≡ none
    → store_at q (insert_node ps k n).1 ≡ (if same_path ps q then some k else store_at q n)
unfolding insert_node
store_at-insert_node [] q k n h = claim-store_at n k q h
store_at-insert_node (p ∷ ps) q k (node (some i) kids) h = cc
store_at-insert_node (p ∷ ps) [] k (node none kids) h = store_at-nil _ ∙ sym (store_at-nil _)
store_at-insert_node (p ∷ ps) (c ∷ q) k (node none kids) h =
    let m = or_default (get_child p kids) in
    ground (
      arith,
      store_at-cons c q none (put_child p (insert_node ps k m).1 kids),
      store_at-cons c q none kids,
      get_child-put_child p c (insert_node ps k m).1 kids,
      store_at-insert_node ps q k m,
      at_child-or_default q (get_child p kids),
      eq_iff p c,
    )
