-- ===== src/Store/Assignment/Exact.antt =====
-- Exactly when `policy_candidates` of src/policy_store.rs returns candidates, and which.
use treetop_core.Prelude.{
  ℕ, ◌<◌, String, List, [], ◌∷◌, some, ◌≡◌, refl, arith, Bool-cases, ◌⊎◌, inl, inr, sym, ap, subst,
  ◌↔◌, Member, nat_eq, ltb, ◌==◌, Option-cases,
}
use treetop_core.Error.{ok}
use treetop_core.Cedar.{Cedar}
use treetop_core.Cedar.Syntax.{Body}
use treetop_core.Store.Router.{NamespaceNode}
use treetop_core.Store.Layout.{PolicyStoreLayout, resolve_qualified_name}
use treetop_core.Store.Assignment.{
  references, insert_index, insert_name_candidate, insert_names, at_most_one, policy_candidates,
}
use treetop_core.Store.Assignment.References.{Member-references_iff}
use treetop_core.Store.Assignment.Candidates.{
  MentionedIn, Member-insert_index, Member-insert_names, policy_candidates-eq-ok,
}

-- The order of a `BTreeSet`.
abbrev IsIncreasing : List ℕ → Type 0
IsIncreasing [] = Unit
IsIncreasing (x ∷ xs) = ((y : ℕ) → Member y xs → x < y) × IsIncreasing xs

insert_index-IsIncreasing :
    (i : ℕ) (is : List ℕ) → IsIncreasing is → IsIncreasing (insert_index i is)
unfolding insert_index
insert_index-IsIncreasing i [] h = ((λ y m. absurd m), tt)
insert_index-IsIncreasing i (k ∷ is) (low, h) = elim (Bool-cases (i == k)) [
  | inl same ↦ rw same (low, h)
  | inr other ↦ elim (Bool-cases (ltb i k)) [
    | inl below ↦
        rw (other, below)
          (
            λ y m. elim m [ inl e ↦ ground arith | inr n ↦ let up = low y n in ground arith ],
            (low, h),
          )
    | inr above ↦
        rw (other, above)
          (
            λ y m. elim ((Member-insert_index i y is).0 m) [
              | inl e ↦ ground arith
              | inr n ↦ low y n
            ],
            insert_index-IsIncreasing i is h,
          )
  ]
]

insert_name_candidate-IsIncreasing :
    (router : NamespaceNode) (name : String) (is : List ℕ)
    → IsIncreasing is
    → IsIncreasing (insert_name_candidate router name is)
unfolding insert_name_candidate
insert_name_candidate-IsIncreasing router name is h =
    elim (Option-cases (resolve_qualified_name name router)) [
      | inl e ↦ rw (e, insert_name_candidate) h
      | inr (i, e) ↦ rw (e, insert_name_candidate) (insert_index-IsIncreasing i is h)
    ]

insert_names-IsIncreasing :
    (router : NamespaceNode) (names : List String) (is : List ℕ)
    → IsIncreasing is
    → IsIncreasing (insert_names router names is)
unfolding insert_names
insert_names-IsIncreasing router [] is h = h
insert_names-IsIncreasing router (name ∷ names) is h =
    insert_names-IsIncreasing router names (insert_name_candidate router name is)
      (insert_name_candidate-IsIncreasing router name is h)

abbrev pub IsAtMostOne : List ℕ → Type 0
IsAtMostOne is = (is ≡ []) ⊎ ((i : ℕ) × (is ≡ i ∷ []))

at_most_one-IsAtMostOne : (found is : List ℕ) → at_most_one found ≡ ok is → IsAtMostOne is
at_most_one-IsAtMostOne [] is h = inl (cc h)
at_most_one-IsAtMostOne (i ∷ []) is h = inr (i, cc h)
at_most_one-IsAtMostOne (i ∷ j ∷ js) is h = cc h

same_members :
    (found : List ℕ) (i : ℕ)
    → IsIncreasing found
    → ((j : ℕ) → Member j found ↔ (j ≡ i))
    → found ≡ i ∷ []
same_members [] i h e = absurd ((e i).1 refl)
same_members (x ∷ []) i h e = ap (λ k. k ∷ []) ((e x).0 (inl refl))
same_members (x ∷ y ∷ ys) i (low, _) e =
    let up = low y (inl refl) in
    let p = (e x).0 (inl refl) in let q = (e y).0 (inr (inl refl)) in absurd (omega arith)

no_members : (found : List ℕ) → ((j : ℕ) → ¬ Member j found) → found ≡ []
no_members [] e = refl
no_members (x ∷ xs) e = absurd (e x (inl refl))

at_most_one_exact :
    (found is : List ℕ)
    → IsIncreasing found
    → IsAtMostOne is
    → ((j : ℕ) → Member j found ↔ Member j is)
    → at_most_one found ≡ ok is
at_most_one_exact found is h (inl none_left) e =
    let empty = no_members found (λ j m. subst (Member j) none_left ((e j).0 m)) in
    rw (empty, none_left) refl
at_most_one_exact found is h (inr (i, one)) e =
    let single = same_members found i h (λ j. (
      λ m. elim (subst (Member j) one ((e j).0 m)) [ inl k ↦ k | inr k ↦ absurd k ],
      λ k. (e j).1 (subst (Member j) (sym one) (inl k)),
    )) in
    rw (single, one) refl

-- Candidates are returned exactly where the policy has a syntax tree and at most one store owns
-- names that occur in it, in a scope constraint or at any depth of the condition of a `when` or
-- `unless` clause; and they are that store, or none.
pub policy_candidates_iff :
    (c : Cedar) (layout : PolicyStoreLayout) (policy : c.Policy) (is : List ℕ)
    → (policy_candidates c layout policy ≡ ok is) ↔ (
        (body : Body) × (c.to_pst policy ≡ some body)
        × IsAtMostOne is
        × ((j : ℕ) → Member j is ↔ MentionedIn layout.namespace_router body j))
unfolding policy_candidates
policy_candidates_iff c layout policy is = (
  λ h.
      let (body, parsed, mentioned, _) = policy_candidates-eq-ok c layout policy is h in
      (
        body,
        parsed,
        at_most_one-IsAtMostOne (insert_names layout.namespace_router (references body) []) is
            (rw (parsed, policy_candidates) at h),
        mentioned,
      ),
  λ (body, parsed, single, mentioned).
      let found = insert_names layout.namespace_router (references body) [] in
      let all : (j : ℕ) → Member j found ↔ Member j is = λ j.
        let (there, back) = Member-insert_names layout.namespace_router (references body) j [] in
        (
          λ m. elim (there m) [
            | inl (name, at, owned) ↦
                (mentioned j).1 (name, (Member-references_iff name body).0 at, owned)
            | inr no_member ↦ absurd no_member
          ],
          λ m.
              let (name, named, owned) = (mentioned j).0 m in
              back (inl (name, (Member-references_iff name body).1 named, owned)),
        ) in
      rw (parsed, policy_candidates)
        (at_most_one_exact found is
          (insert_names-IsIncreasing layout.namespace_router (references body) [] tt) single all),
)
