-- ===== src/Store/Layout/Ownership.antt =====
-- The contract of a layout: which store owns a name, and to which store a request goes.
use treetop_core.Prelude.{
  ℕ, zero, suc, ◌+◌, String, List, [], ◌∷◌, Option, none, some, true, false, string_eq, ◌≡◌, refl,
  arith, eq_iff, Bool-cases, ◌⊎◌, inl, inr, ap, ◌∙◌, sym, subst, get_elem?, ◌↔◌, nat_eq,
}
use treetop_core.Error.{ok, >>=-eq-ok}
use treetop_core.Names.{split_name}
use treetop_core.Cedar.{Cedar}
use treetop_core.Types.Identity.{Action}
use treetop_core.Types.Resource.{Resource}
use treetop_core.Store.Router.{resolve}
use treetop_core.Store.Router.Resolve.{is_prefix}
use treetop_core.Store.Router.Overlap.{overlaps}
use treetop_core.Store.Layout.{
  PolicyStoreConfig, PolicyStoreLayout, segments, new_layout, add_global_ids,
  with_global_policy_ids, agree, resolve_request,
}
use treetop_core.Store.Layout.Routing.{owner, resolve-new_layout, new_layout-register}
use treetop_core.Store.Layout.Disjoint.{IsApart, AreDisjoint, new_layout_iff}

-- Store `i` owns the subtree that a name lies in.
abbrev pub Owns : List PolicyStoreConfig → ℕ → List String → Type 0
Owns stores i cs =
    (s : PolicyStoreConfig) × (get_elem? stores i ≡ some s) × (is_prefix (segments s) cs ≡ true)

-- Two prefixes of one name are comparable.
prefixes_overlap :
    (ps qs cs : List String)
    → is_prefix ps cs ≡ true
    → is_prefix qs cs ≡ true
    → overlaps ps qs ≡ true
prefixes_overlap [] qs cs h k = refl
prefixes_overlap (p ∷ ps) [] cs h k = refl
prefixes_overlap (p ∷ ps) (q ∷ qs) [] h k = cc
prefixes_overlap (p ∷ ps) (q ∷ qs) (c ∷ cs) h k =
    ground (arith, eq_iff p c, eq_iff q c, eq_iff p q, eq_iff q p, prefixes_overlap ps qs cs)

owner_sound :
    (index i : ℕ) (ss : List PolicyStoreConfig) (cs : List String)
    → owner index ss cs ≡ some i
    → (j : ℕ) × (i ≡ index + j) × Owns ss j cs
owner_sound index i [] cs h = cc
owner_sound index i (s ∷ ss) cs h = elim (Bool-cases (is_prefix (segments s) cs)) [
  | inl here ↦ (zero, ground arith, (s, refl, here))
  | inr not_here ↦
      let (j, e, o) = owner_sound (suc index) i ss cs (ground arith) in (suc j, omega arith, o)
]

-- A store apart from a name's owner does not own the name.
IsApart-Owns :
    (ps cs : List String) (ss : List PolicyStoreConfig) (j : ℕ)
    → IsApart ps ss
    → Owns ss j cs
    → is_prefix ps cs ≡ false
IsApart-Owns ps cs [] j a o = cc (o.1)
IsApart-Owns ps cs (s ∷ ss) zero a (t, at, fits) =
    ground (arith, prefixes_overlap ps (segments s) cs)
IsApart-Owns ps cs (s ∷ ss) (suc j) a o = IsApart-Owns ps cs ss j a.1 o

owner_complete :
    (index j : ℕ) (ss : List PolicyStoreConfig) (cs : List String)
    → AreDisjoint ss
    → Owns ss j cs
    → owner index ss cs ≡ some (index + j)
owner_complete index j [] cs d o = cc (o.1)
owner_complete index zero (s ∷ ss) cs d (t, at, fits) = ground arith
owner_complete index (suc j) (s ∷ ss) cs d o =
    ground
      (arith, IsApart-Owns (segments s) cs ss j d.0 o, owner_complete (suc index) j ss cs d.1 o)

-- What every layout that a caller can build satisfies.
pub record IsBuilt (l : PolicyStoreLayout) : Type 0 where
  pub routes : (cs : List String) → resolve cs l.namespace_router ≡ owner 0 l.stores cs
  pub disjoint : AreDisjoint l.stores

pub new_layout-IsBuilt :
    (stores : List PolicyStoreConfig) (l : PolicyStoreLayout) → new_layout stores ≡ ok l → IsBuilt l
new_layout-IsBuilt stores l h =
    let same = (new_layout-register stores l h).1 in
    record {
      routes = λ cs. resolve-new_layout stores l cs h ∙ rw same;
      disjoint = rw same ((new_layout_iff stores).0 (l, h)).2;
    }

pub with_global_policy_ids-IsBuilt :
    (l m : PolicyStoreLayout) (ids : List String)
    → IsBuilt l
    → with_global_policy_ids l ids ≡ ok m
    → IsBuilt m
unfolding with_global_policy_ids
with_global_policy_ids-IsBuilt l m ids b h =
    let (all_ids, _, e) = >>=-eq-ok (add_global_ids ids l.global_policy_ids) _ h in
    let same : record l { global_policy_ids = all_ids } ≡ m = cc e in
    subst IsBuilt same (record { routes = b.routes; disjoint = b.disjoint })

-- In a layout, a name resolves to a store exactly when that store owns it; so no two own it.
pub resolve_iff :
    (l : PolicyStoreLayout) (cs : List String) (i : ℕ)
    → IsBuilt l
    → (resolve cs l.namespace_router ≡ some i) ↔ Owns l.stores i cs
resolve_iff l cs i b = (
  λ h.
      let (j, e, o) = owner_sound 0 i l.stores cs (sym (b.routes cs) ∙ h) in
      let same : i ≡ j = omega (arith, e) in rw same o,
  λ o. b.routes cs ∙ owner_complete 0 i l.stores cs b.disjoint o ∙ ap some (omega arith),
)

agree_iff :
    (a r : Option ℕ) (i : ℕ)
    → (agree a r ≡ ok i)
      ↔ (((a ≡ some i) ⊎ (r ≡ some i)) × ((j : ℕ) → (a ≡ some j) ⊎ (r ≡ some j) → j ≡ i))
unfolding agree
agree_iff none none i = (λ h. cc, λ (e, _). absurd (ground arith))
agree_iff none (some r) i = (λ h. (ground arith, λ j e. ground arith), λ (e, u). ground arith)
agree_iff (some a) none i = (λ h. (ground arith, λ j e. ground arith), λ (e, u). ground arith)
agree_iff (some a) (some r) i =
    (λ h. (ground arith, λ j e. ground arith), λ (e, u). ground (arith, u a, u r))

-- A request goes to store `i` exactly when `i` owns the action's namespace or the resource's type,
-- and no other store owns either of them.
pub resolve_request_iff :
    (c : Cedar) (l : PolicyStoreLayout) (action : Action c) (resource : Resource c) (i : ℕ)
    → IsBuilt l
    → (resolve_request c l action resource ≡ ok i) ↔ (
        (Owns l.stores i action.namespace ⊎ Owns l.stores i (split_name resource.kind))
        × ((j : ℕ)
            → Owns l.stores j action.namespace ⊎ Owns l.stores j (split_name resource.kind)
            → j ≡ i))
unfolding resolve_request
resolve_request_iff c l action resource i b =
    let router = l.namespace_router in
    let by_action = λ (j : ℕ). resolve_iff l action.namespace j b in
    let by_type = λ (j : ℕ). resolve_iff l (split_name resource.kind) j b in
    let (there, back) =
      agree_iff (resolve action.namespace router) (resolve (split_name resource.kind) router) i in
    (
      λ h.
          let (one, unique) = there h in
          (
            elim one [ inl e ↦ inl ((by_action i).0 e) | inr e ↦ inr ((by_type i).0 e) ],
            λ j o.
                unique j
                  (elim o [ inl e ↦ inl ((by_action j).1 e) | inr e ↦ inr ((by_type j).1 e) ]),
          ),
      λ (one, unique). back (
        elim one [ inl e ↦ inl ((by_action i).1 e) | inr e ↦ inr ((by_type i).1 e) ],
        λ j o.
            unique j (elim o [ inl e ↦ inl ((by_action j).0 e) | inr e ↦ inr ((by_type j).0 e) ]),
      ),
    )
