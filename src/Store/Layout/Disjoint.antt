-- ===== src/Store/Layout/Disjoint.antt =====
-- Which lists of stores `PolicyStoreLayout::new` accepts.
use treetop_core.Prelude.{
  ℕ, suc, String, List, [], ◌∷◌, none, some, true, false, string_eq, ◌≡◌, ◌≢◌, refl, if◌then◌else◌,
  arith, eq_iff, Bool-cases, Option-cases, inl, inr, ap, ◌∙◌, sym, subst, ◌⊎◌, ◌↔◌, All, Member,
  contains, contains→Member, Member→contains, beq_self,
}
use treetop_core.Error.{ok}
use treetop_core.Store.Router.{NamespaceNode, default, insert_node}
use treetop_core.Store.Router.Claims.{
  store_at, store_at-default, HasDistinctKeys, insert_node-HasDistinctKeys,
}
use treetop_core.Store.Router.Overlap.{
  overlaps, same_path, insert_node-overlaps, insert_node_free, store_at-insert_node,
}
use treetop_core.Store.Layout.{
  PolicyStoreConfig, PolicyStoreLayout, segments, has_fresh_ids, register, new_layout,
}
use treetop_core.Store.Layout.Routing.{register-cons}

-- A namespace that shares no subtree with those of the stores.
abbrev pub IsApart : List String → List PolicyStoreConfig → Type 0
IsApart ps stores = All (λ s. overlaps ps (segments s) ≡ false) stores

abbrev pub AreDisjoint : List PolicyStoreConfig → Type 0
AreDisjoint [] = Unit
AreDisjoint (s ∷ ss) = IsApart (segments s) ss × AreDisjoint ss

abbrev pub HaveDistinctIds : List PolicyStoreConfig → Type 0
HaveDistinctIds [] = Unit
HaveDistinctIds (s ∷ ss) = All (λ t. s.id ≢ t.id) ss × HaveDistinctIds ss

-- All namespaces claimed in a trie are apart from those of the stores still to come.
abbrev ClaimsApart : NamespaceNode → List PolicyStoreConfig → Type 0
ClaimsApart n ss = (q : List String) (e : ℕ) → store_at q n ≡ some e → IsApart q ss

same_path_refl : (q : List String) → same_path q q ≡ true
same_path_refl [] = refl
same_path_refl (c ∷ q) = rw (beq_self c) (same_path_refl q)

same_path→eq : (p q : List String) → same_path p q ≡ true → p ≡ q
same_path→eq [] [] h = refl
same_path→eq [] (c ∷ q) h = cc
same_path→eq (b ∷ p) [] h = cc
same_path→eq (b ∷ p) (c ∷ q) h = ground (arith, eq_iff b c, same_path→eq p q)

module _ (ps : List String) (k : ℕ) (n : NamespaceNode) (free : (insert_node ps k n).0 ≡ none) where
  store_at-insert_self : store_at ps (insert_node ps k n).1 ≡ some k
  store_at-insert_self =
      store_at-insert_node ps ps k n free
      ∙ ap (λ b. if b then some k else store_at ps n) (same_path_refl ps)

  -- An older claim stays: it is apart from the new one, hence another namespace.
  store_at-insert_old :
      (q : List String) (e : ℕ)
      → store_at q n ≡ some e
      → (d : ℕ) × (store_at q (insert_node ps k n).1 ≡ some d)
  store_at-insert_old q e h = elim (Bool-cases (same_path ps q)) [
    | inl same ↦ (k, ground (arith, store_at-insert_node ps q k n))
    | inr other ↦ (e, ground (arith, store_at-insert_node ps q k n))
  ]

  -- What is claimed afterwards is the new namespace or was claimed before.
  claimed_after :
      (q : List String) (e : ℕ)
      → store_at q (insert_node ps k n).1 ≡ some e
      → (ps ≡ q) ⊎ (store_at q n ≡ some e)
  claimed_after q e h = ground (arith, store_at-insert_node ps q k n, same_path→eq ps q)

-- Registered stores are apart from one another, and from what was claimed before.
register_disjoint :
    (index : ℕ) (ss : List PolicyStoreConfig) (n m : NamespaceNode)
    → register index ss n ≡ ok m
    → ClaimsApart n ss × AreDisjoint ss
register_disjoint index [] n m h = (λ q e at. tt, tt)
register_disjoint index (s ∷ ss) n m h =
    let (free, rest) = register-cons index s ss n m h in
    let n' = (insert_node (segments s) index n).1 in
    let (apart, disjoint) = register_disjoint (suc index) ss n' m rest in
    (
      λ q e at.
          let (d, kept) = store_at-insert_old (segments s) index n free q e at in
          (ground (arith, insert_node_free (segments s) q index n free), apart q d kept),
      (apart (segments s) index (store_at-insert_self (segments s) index n free), disjoint),
    )

register_total :
    (index : ℕ) (ss : List PolicyStoreConfig) (n : NamespaceNode)
    → HasDistinctKeys n
    → ClaimsApart n ss
    → AreDisjoint ss
    → (m : NamespaceNode) × (register index ss n ≡ ok m)
unfolding register
register_total index [] n keys apart disjoint = (n, refl)
register_total index (s ∷ ss) n keys apart disjoint =
    elim (Option-cases (insert_node (segments s) index n).0) [
      | inl free ↦
          let (m, done) =
            register_total (suc index) ss (insert_node (segments s) index n).1
              (insert_node-HasDistinctKeys (segments s) index n keys)
              (λ q e at. elim (claimed_after (segments s) index n free q e at) [
                | inl same ↦ subst (λ p. IsApart p ss) same disjoint.0
                | inr old ↦ (apart q e old).1
              ])
              disjoint.1 in
          (m, ground arith)
      | inr (e, conflict) ↦
          let (q, at, o) = insert_node-overlaps (segments s) index e n keys conflict in
          absurd (ground (arith, (apart q e at).0))
    ]

-- No id of a store has been seen.
abbrev AreUnseen : List String → List PolicyStoreConfig → Type 0
AreUnseen seen ss = All (λ s. ¬ Member s.id seen) ss

AreUnseen-cons :
    (id : String) (seen : List String) (ss : List PolicyStoreConfig)
    → AreUnseen (id ∷ seen) ss ↔ (All (λ t. id ≢ t.id) ss × AreUnseen seen ss)
AreUnseen-cons id seen [] = (λ _. (tt, tt), λ _. tt)
AreUnseen-cons id seen (s ∷ ss) =
    let (there, back) = AreUnseen-cons id seen ss in
    (
      λ h. ((λ e. h.0 (inl (sym e)), (there h.1).0), (λ m. h.0 (inr m), (there h.1).1)),
      λ h. (λ m. elim m [ inl e ↦ h.0.0 (sym e) | inr old ↦ h.1.0 old ], back (h.0.1, h.1.1)),
    )

has_fresh_ids_iff :
    (seen : List String) (ss : List PolicyStoreConfig)
    → (has_fresh_ids seen ss ≡ true) ↔ (AreUnseen seen ss × HaveDistinctIds ss)
unfolding has_fresh_ids
has_fresh_ids_iff seen [] = (λ _. (tt, tt), λ _. refl)
has_fresh_ids_iff seen (s ∷ ss) =
    let (there, back) = has_fresh_ids_iff (s.id ∷ seen) ss in
    let (split, join) = AreUnseen-cons s.id seen ss in
    elim (Bool-cases (contains s.id seen)) [
      | inl dup ↦ (λ h. absurd (ground arith), λ h. absurd (h.0.0 (contains→Member s.id seen dup)))
      | inr new ↦ (
        λ h.
            let (unseen, distinct) = there (ground arith) in
            let (apart, older) = split unseen in
            ((λ m. cc (Member→contains s.id seen m), older), (apart, distinct)),
        λ h. rw new (back (join (h.1.0, h.0.1), h.1.1)),
      )
    ]

AreUnseen-nil : (ss : List PolicyStoreConfig) → AreUnseen [] ss
AreUnseen-nil [] = tt
AreUnseen-nil (s ∷ ss) = (λ m. m, AreUnseen-nil ss)

claims_default : (ss : List PolicyStoreConfig) → ClaimsApart default ss
claims_default ss q e at = absurd (cc (store_at-default q))

default-HasDistinctKeys : HasDistinctKeys default
unfolding HasDistinctKeys
default-HasDistinctKeys = tt

new_layout-eq-ok :
    (stores : List PolicyStoreConfig) (l : PolicyStoreLayout)
    → new_layout stores ≡ ok l
    → (stores ≢ [])
      × (has_fresh_ids [] stores ≡ true)
      × (register 0 stores default ≡ ok l.namespace_router)
unfolding new_layout
new_layout-eq-ok stores l h = (ground arith, ground arith, ground arith)

new_layout_succeeds :
    (stores : List PolicyStoreConfig) (m : NamespaceNode)
    → stores ≢ []
    → has_fresh_ids [] stores ≡ true
    → register 0 stores default ≡ ok m
    → (l : PolicyStoreLayout) × (new_layout stores ≡ ok l)
unfolding new_layout
new_layout_succeeds stores m nonempty fresh filled =
    (record { stores = stores; global_policy_ids = []; namespace_router = m }, ground arith)

-- A layout is accepted exactly when it declares a store, the ids of its stores are pairwise
-- distinct, and no namespace of a store is a prefix, by components, of that of another.
pub new_layout_iff :
    (stores : List PolicyStoreConfig)
    → ((l : PolicyStoreLayout) × (new_layout stores ≡ ok l))
      ↔ ((stores ≢ []) × HaveDistinctIds stores × AreDisjoint stores)
new_layout_iff stores = (
  λ (l, h).
      let (nonempty, fresh, filled) = new_layout-eq-ok stores l h in
      (
        nonempty,
        ((has_fresh_ids_iff [] stores).0 fresh).1,
        (register_disjoint 0 stores default l.namespace_router filled).1,
      ),
  λ (nonempty, distinct, disjoint).
      let (m, filled) =
        register_total 0 stores default default-HasDistinctKeys (claims_default stores) disjoint in
      new_layout_succeeds stores m nonempty
        ((has_fresh_ids_iff [] stores).1 (AreUnseen-nil stores, distinct)) filled,
)
