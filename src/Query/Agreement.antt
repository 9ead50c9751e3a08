-- ===== src/Query/Agreement.antt =====
-- The listings by name and the listings by principal ask about the same principal.
use Prim.Native.String
use treetop_core.Prelude.{
  String, List, [], ◌∷◌, map, none, some, true, false, ◌==◌, string_eq, ◌≡◌, ◌≢◌, refl, ap, ◌∙◌,
  Option-cases, Bool-cases, inl, inr,
}
use text.Mathlib.TextLemmas.{append_assoc, nil-append}
use treetop_core.Error.{Result, ok, err, ◌>>=◌, Result-cases}
use treetop_core.Names.{join_name}
use treetop_core.Cedar.{Cedar}
use treetop_core.Types.Identity.{
  Kind, user_kind, group_kind, cedar_type, type_text, validate_namespace_with_type, new_id,
  new_groups, new_user, QualifiedId, Group, user, group,
}
use treetop_core.Query.{
  type_capacity, push_segments, entity_type_text, typed_entity_uid, group_uids, for_user, for_group,
  from_principal,
}

push_segments-join_name :
    (text s : String) (ss : List String)
    → push_segments text false (s ∷ ss) ≡ String.◌++◌ (String.◌++◌ text "::") (join_name (s ∷ ss))
unfolding push_segments join_name
push_segments-join_name text s [] = refl
push_segments-join_name text s (t ∷ ts) =
    push_segments-join_name (String.◌++◌ (String.◌++◌ text "::") s) t ts
    ∙ ap (λ x. String.◌++◌ x (join_name (t ∷ ts))) (append_assoc (String.◌++◌ text "::") s "::")
    ∙ append_assoc (String.◌++◌ text "::") (String.◌++◌ s "::") (join_name (t ∷ ts))
    ∙ ap (String.◌++◌ (String.◌++◌ text "::")) (append_assoc s "::" (join_name (t ∷ ts)))

first_segment-join_name :
    (s : String) (ss : List String) → push_segments "" true (s ∷ ss) ≡ join_name (s ∷ ss)
unfolding push_segments join_name
first_segment-join_name s [] = nil-append s
first_segment-join_name s (t ∷ ts) =
    rw (nil-append s) (push_segments-join_name s t ts ∙ append_assoc s "::" (join_name (t ∷ ts)))

-- No name with a namespace this long can be held.
unfoldable pub Fits : List String → String → Type 0
unfolding type_capacity
Fits [] name = Unit
Fits (s ∷ ss) name = type_capacity (String.len name) (s ∷ ss) ≢ none

module _ (c : Cedar) where
  open c use {parse_type, uid_of}

  entity_type_text-type_text :
      (ss : List String) (name : String)
      → Fits ss name
      → entity_type_text c ss name ≡ ok (type_text ss name)
  unfolding entity_type_text type_text Fits
  entity_type_text-type_text [] name h = refl
  entity_type_text-type_text (s ∷ ss) name h =
      let text = String.◌++◌ (String.◌++◌ (push_segments "" true (s ∷ ss)) "::") name in
      let same : text ≡ String.◌++◌ (join_name (s ∷ ss)) (String.◌++◌ "::" name) =
        ap (λ x. String.◌++◌ (String.◌++◌ x "::") name) (first_segment-join_name s ss)
        ∙ append_assoc (join_name (s ∷ ss)) "::" name in
      elim (Option-cases (type_capacity (String.len name) (s ∷ ss))) [
        | inl e ↦ absurd (h e)
        | inr (size, e) ↦ rw e (ap ok same)
      ]

  -- The uid of an identity, where it can be made.
  typed_entity_uid-new_id :
      (k : Kind) (id : String) (ss : List String)
      → Fits ss (cedar_type k)
      → typed_entity_uid c id ss (cedar_type k)
        ≡ (new_id c k id (some ss) >>= λ (i : QualifiedId c k). ok i.uid)
  unfolding typed_entity_uid new_id validate_namespace_with_type
  typed_entity_uid-new_id k id ss h =
      rw (entity_type_text-type_text ss (cedar_type k) h) (elim (Bool-cases (id == "")) [
        | inl p ↦ rw p refl
        | inr p ↦ rw p (elim (Option-cases (parse_type (type_text ss (cedar_type k)))) [
          | inl e ↦ rw e refl
          | inr (t, e) ↦ rw e refl
        ])
      ])

  abbrev group_uids_of : List (Group c) → List c.Uid
  group_uids_of gs = map (λ (g : Group c). g.uid) gs

  bind_both :
      (m : Result (Group c)) (n : Result (List (Group c)))
      → ((m >>= λ (i : Group c). ok i.uid) >>= λ uid.
          (n >>= λ gs. ok (group_uids_of gs)) >>= λ rest. ok (uid ∷ rest))
        ≡ ((m >>= λ group. n >>= λ rest. ok (group ∷ rest)) >>= λ gs. ok (group_uids_of gs))
  bind_both (err e) n = refl
  bind_both (ok g) (err e) = refl
  bind_both (ok g) (ok gs) = refl

  group_uids-new_groups :
      (gs ss : List String)
      → Fits ss "Group"
      → group_uids c gs ss ≡ (new_groups c gs (some ss) >>= λ groups. ok (group_uids_of groups))
  unfolding group_uids new_groups
  group_uids-new_groups [] ss h = refl
  group_uids-new_groups (g ∷ gs) ss h =
      rw (typed_entity_uid-new_id group_kind g ss h, group_uids-new_groups gs ss h)
        (bind_both (new_id c group_kind g (some ss)) (new_groups c gs (some ss)))

  -- Listing by a user's name and groups asks about the principal that `User::new` makes of them, and
  -- fails where it fails; the capacity of the type texts must fit a `usize`.
  pub for_user-from_principal :
      (id : String) (groups namespace : List String)
      → Fits namespace "User"
      → Fits namespace "Group"
      → for_user c id groups namespace
        ≡ (new_user c id (some groups) (some namespace) >>= λ u. ok (from_principal c (user u)))
  unfolding for_user new_user from_principal
  for_user-from_principal id groups namespace hu hg =
      rw
        (
          typed_entity_uid-new_id user_kind id namespace hu,
          group_uids-new_groups groups namespace hg,
        )
        (elim (Result-cases (new_id c user_kind id (some namespace))) [
          | inl (e, p) ↦ rw (p, new_user) refl
          | inr (i, p) ↦ elim (Result-cases (new_groups c groups (some namespace))) [
            | inl (e, q) ↦ rw (p, q, new_user) refl
            | inr (gs, q) ↦ rw (p, q, new_user) refl
          ]
        ])

  -- Listing by a group's name asks about the principal that `Group::new` makes of it.
  pub for_group-from_principal :
      (id : String) (namespace : List String)
      → Fits namespace "Group"
      → for_group c id namespace
        ≡ (new_id c group_kind id (some namespace) >>= λ g. ok (from_principal c (group g)))
  unfolding for_group from_principal
  for_group-from_principal id namespace h =
      rw (typed_entity_uid-new_id group_kind id namespace h)
        (elim (Result-cases (new_id c group_kind id (some namespace))) [
          | inl (e, p) ↦ rw p refl
          | inr (g, p) ↦ rw p refl
        ])
