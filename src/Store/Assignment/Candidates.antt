-- ===== src/Store/Assignment/Candidates.antt =====
-- What `policy_candidates` says of the names in a policy.
use treetop_core.Prelude.{
  ℕ, String, List, [], ◌∷◌, some, ◌≡◌, refl, arith, Option-cases, ◌⊎◌, inl, inr, sym, subst, ◌↔◌,
  Member,
}
use treetop_core.Error.{ok}
use treetop_core.Cedar.{Cedar}
use treetop_core.Cedar.Syntax.{Body}
use treetop_core.Store.Router.{NamespaceNode}
use treetop_core.Store.Layout.{PolicyStoreLayout, resolve_qualified_name}
use treetop_core.Store.Assignment.Occurs.{NamedIn}
use treetop_core.Store.Assignment.References.{Member-references_iff}
use treetop_core.Store.Assignment.{
  references, insert_index, insert_name_candidate, insert_names, at_most_one, policy_candidates,
}

pub Member-insert_index :
    (i j : ℕ) (is : List ℕ) → Member j (insert_index i is) ↔ ((j ≡ i) ⊎ Member j is)
unfolding insert_index
Member-insert_index i j [] = (λ h. h, λ h. h)
Member-insert_index i j (k ∷ is) = ground (arith, Member-insert_index i j is)

-- Some name of the list resolves to the store.
abbrev pub Mentions : NamespaceNode → List String → ℕ → Type 0
Mentions router names j =
    (name : String) × Member name names × (resolve_qualified_name name router ≡ some j)

Member-insert_name_candidate :
    (router : NamespaceNode) (name : String) (j : ℕ) (is : List ℕ)
    → Member j (insert_name_candidate router name is)
      ↔ ((resolve_qualified_name name router ≡ some j) ⊎ Member j is)
unfolding insert_name_candidate
Member-insert_name_candidate router name j is =
    elim (Option-cases (resolve_qualified_name name router)) [
      | inl e ↦ rw (e, insert_name_candidate) (λ m. inr m, λ h. elim h [ inl k ↦ cc | inr m ↦ m ])
      | inr (i, e) ↦
          let (there, back) = Member-insert_index i j is in
          rw (e, insert_name_candidate)
            (
              λ m. elim (there m) [ inl k ↦ inl (cc) | inr old ↦ inr old ],
              λ h. back (elim h [ inl k ↦ inl (cc) | inr old ↦ inr old ]),
            )
    ]

pub Member-insert_names :
    (router : NamespaceNode) (names : List String) (j : ℕ) (is : List ℕ)
    → Member j (insert_names router names is) ↔ (Mentions router names j ⊎ Member j is)
unfolding insert_names
Member-insert_names router [] j is = (inr, λ h. elim h [ inl m ↦ absurd m.1 | inr old ↦ old ])
Member-insert_names router (name ∷ names) j is =
    let (there, back) = Member-insert_names router names j (insert_name_candidate router name is) in
    let (found, add) = Member-insert_name_candidate router name j is in
    (
      λ m. elim (there m) [
        | inl (n, at, e) ↦ inl (n, inr at, e)
        | inr here ↦ elim (found here) [ inl e ↦ inl (name, inl refl, e) | inr old ↦ inr old ]
      ],
      λ h. back (elim h [
        | inl (n, at, e) ↦ elim at [
          | inl same ↦ inr (add (inl (rw same at e)))
          | inr later ↦ inl (n, later, e)
        ]
        | inr old ↦ inr (add (inr old))
      ]),
    )

at_most_one-eq-ok : (is js : List ℕ) → at_most_one is ≡ ok js → js ≡ is
at_most_one-eq-ok [] js h = cc
at_most_one-eq-ok (i ∷ []) js h = cc
at_most_one-eq-ok (i ∷ j ∷ is) js h = cc

at_most_one_unique :
    (is js : List ℕ) (i j : ℕ) → at_most_one is ≡ ok js → Member i is → Member j is → i ≡ j
at_most_one_unique [] js i j h m n = absurd m
at_most_one_unique (k ∷ []) js i j h m n = ground arith
at_most_one_unique (k ∷ l ∷ is) js i j h m n = cc

-- The candidates of a policy are the stores that own a name that was collected, and there is at most
-- one.
pub policy_candidates-references :
    (c : Cedar) (layout : PolicyStoreLayout) (policy : c.Policy) (is : List ℕ)
    → policy_candidates c layout policy ≡ ok is
    → (body : Body) × (c.to_pst policy ≡ some body)
      × ((j : ℕ) → Member j is ↔ Mentions layout.namespace_router (references body) j)
      × ((i j : ℕ) → Member i is → Member j is → i ≡ j)
unfolding policy_candidates
policy_candidates-references c layout policy is h = elim (Option-cases (c.to_pst policy)) [
  | inl e ↦ absurd (ground arith)
  | inr (body, e) ↦
      let found = insert_names layout.namespace_router (references body) [] in
      let one : at_most_one found ≡ ok is = ground arith in
      let same = at_most_one-eq-ok found is one in
      (
        body,
        e,
        λ j.
            let (there, back) =
              Member-insert_names layout.namespace_router (references body) j [] in
            (
              λ m. elim (there (subst (Member j) same m)) [
                | inl k ↦ k
                | inr no_member ↦ absurd no_member
              ],
              λ k. subst (Member j) (sym same) (back (inl k)),
            ),
        λ i j m n.
            at_most_one_unique found is i j one (subst (Member i) same m) (subst (Member j) same n),
      )
]

-- Some name that occurs in the policy resolves to the store.
abbrev pub MentionedIn : NamespaceNode → Body → ℕ → Type 0
MentionedIn router body j =
    (name : String) × NamedIn name body × (resolve_qualified_name name router ≡ some j)

-- Where candidates are returned, the policy has a syntax tree; the candidates are exactly the stores
-- that own a name which occurs in it, in a scope constraint or at any depth of the condition of a
-- `when` or `unless` clause; and there is at most one.
pub policy_candidates-eq-ok :
    (c : Cedar) (layout : PolicyStoreLayout) (policy : c.Policy) (is : List ℕ)
    → policy_candidates c layout policy ≡ ok is
    → (body : Body) × (c.to_pst policy ≡ some body)
      × ((j : ℕ) → Member j is ↔ MentionedIn layout.namespace_router body j)
      × ((i j : ℕ) → Member i is → Member j is → i ≡ j)
policy_candidates-eq-ok c layout policy is h =
    let (body, parsed, mentioned, unique) = policy_candidates-references c layout policy is h in
    (
      body,
      parsed,
      λ j. (
        λ m.
            let (name, at, owned) = (mentioned j).0 m in
            (name, (Member-references_iff name body).0 at, owned),
        λ (name, named, owned).
            (mentioned j).1 (name, (Member-references_iff name body).1 named, owned),
      ),
      unique,
    )
