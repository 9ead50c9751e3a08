-- ===== src/Types/Users.antt =====
-- Users whose groups are of their own namespace: the constructor, the reader and the `Deserialize`
-- of src/types/user.rs.
use treetop_core.Prelude.{
  String, List, [], ◌∷◌, Option, ◌≡◌, ◌↔◌, inl, inr, refl, sym, ap, subst, ◌∙◌, any, not, Bool,
  true, false, arith, Member, string_eq, eq_iff,
}
use treetop_core.Error.{ok, parse_error, invalid_format, >>=-eq-ok, fail_if-eq-ok, ok-inj}
use treetop_core.Cedar.{Cedar}
use treetop_core.Types.Identity.{
  user_kind, group_kind, QualifiedId, new_id, or_empty, Group, new_groups, User, new_user,
  user_from_repr, same_names,
}
use treetop_core.Types.Parse.{user_from_str, split_string_into_cedar_parts, is_other}
use treetop_core.Types.Scan.{split_user_and_groups}
use treetop_core.Types.Valid.{IsValidId, new_id-IsValidId, new_id-eq-ok}

same_names_iff : (as' bs : List String) → (same_names as' bs ≡ true) ↔ (as' ≡ bs)
same_names_iff [] [] = (λ h. refl, λ h. refl)
same_names_iff [] (b ∷ bs) = (λ h. cc h, λ h. cc h)
same_names_iff (a ∷ as') [] = (λ h. cc h, λ h. cc h)
same_names_iff (a ∷ as') (b ∷ bs) = ground (arith, eq_iff a b, same_names_iff as' bs)

module _ (c : Cedar) where
  -- Every group is valid and of the namespace.
  unfoldable pub AreGroupsOf : List String → List (Group c) → Type 0
  AreGroupsOf ns [] = Unit
  AreGroupsOf ns (g ∷ gs) = (IsValidId c group_kind g) × (g.namespace ≡ ns) × AreGroupsOf ns gs

  unfoldable pub IsValidUser : User c → Type 0
  unfolding AreGroupsOf
  IsValidUser u = IsValidId c user_kind u.id × AreGroupsOf u.id.namespace u.groups

  new_groups-AreGroupsOf :
      (names : List String) (ns : Option (List String)) (gs : List (Group c))
      → new_groups c names ns ≡ ok gs
      → AreGroupsOf (or_empty ns) gs
  unfolding new_groups AreGroupsOf
  new_groups-AreGroupsOf [] ns gs h = subst (AreGroupsOf (or_empty ns)) (ok-inj h) tt
  new_groups-AreGroupsOf (n ∷ names) ns gs h =
      let (g, first, h1) = >>=-eq-ok (new_id c group_kind n ns) _ h in
      let (rest, deep, same) = >>=-eq-ok (new_groups c names ns) _ h1 in
      let (_, _, _, made) = new_id-eq-ok c group_kind n ns first in
      subst (AreGroupsOf (or_empty ns)) (ok-inj same) (
        new_id-IsValidId c group_kind n ns g first,
        ap (λ (x : Group c). x.namespace) (sym made),
        new_groups-AreGroupsOf names ns rest deep,
      )

  -- The constructor returns valid users only.
  pub new_user-IsValidUser :
      (i : String) (names ns : Option (List String)) (u : User c)
      → new_user c i names ns ≡ ok u
      → IsValidUser u
  unfolding new_user IsValidUser
  new_user-IsValidUser i names ns u h =
      let (q, first, h1) = >>=-eq-ok (new_id c user_kind i ns) _ h in
      let (gs, second, same) = >>=-eq-ok (new_groups c (or_empty names) ns) _ h1 in
      let (_, _, _, made) = new_id-eq-ok c user_kind i ns first in
      subst IsValidUser (ok-inj same) (
        new_id-IsValidId c user_kind i ns q first,
        subst (λ (x : QualifiedId c user_kind). AreGroupsOf x.namespace gs) made
            (new_groups-AreGroupsOf (or_empty names) ns gs second),
      )

  -- The reader returns valid users only.
  pub user_from_str-IsValidUser :
      (s : String) (u : User c) → user_from_str c s ≡ ok u → IsValidUser u
  unfolding user_from_str
  user_from_str-IsValidUser s u h =
      let (found, _, h1) = >>=-eq-ok (split_user_and_groups s) _ h in
      let (parts, _, h2) = >>=-eq-ok (split_string_into_cedar_parts c found.0) _ h1 in
      let (_, made) = fail_if-eq-ok (is_other c parts.type_part "User") invalid_format _ h2 in
      new_user-IsValidUser parts.id found.1 parts.namespace u made

  abbrev is_foreign : List String → Group c → Bool
  is_foreign ns g = not (same_names g.namespace ns)

  no_foreign-Member :
      (ns : List String) (gs : List (Group c))
      → any (is_foreign ns) gs ≡ false
      → (g : Group c) → Member g gs
      → g.namespace ≡ ns
  no_foreign-Member ns [] h g m = absurd m
  no_foreign-Member ns (x ∷ gs) h g m = elim m [
    | inl own ↦
        let same : same_names x.namespace ns ≡ true = ground arith in
        ap (λ (y : Group c). y.namespace) own ∙ (same_names_iff x.namespace ns).0 same
    | inr deep ↦ no_foreign-Member ns gs (ground arith) g deep
  ]

  no_foreign :
      (ns : List String) (gs : List (Group c))
      → ((g : Group c) → Member g gs → g.namespace ≡ ns)
      → any (is_foreign ns) gs ≡ false
  no_foreign ns [] h = refl
  no_foreign ns (x ∷ gs) h =
      rw ((same_names_iff x.namespace ns).1 (h x (inl refl)), no_foreign ns gs (λ g m. h g (inr m)))
        refl

  AreGroupsOf-Member :
      (ns : List String) (gs : List (Group c))
      → AreGroupsOf ns gs
      → (g : Group c) → Member g gs
      → g.namespace ≡ ns
  unfolding AreGroupsOf
  AreGroupsOf-Member ns [] h g m = absurd m
  AreGroupsOf-Member ns (x ∷ gs) h g m = elim m [
    | inl own ↦ ap (λ (y : Group c). y.namespace) own ∙ h.1
    | inr deep ↦ AreGroupsOf-Member ns gs h.2 g deep
  ]

  -- The deserializer accepts exactly the users whose groups are of their namespace.
  pub user_from_repr_iff :
      (u : User c)
      → (user_from_repr c u.id u.groups ≡ ok u)
        ↔ ((g : Group c) → Member g u.groups → g.namespace ≡ u.id.namespace)
  unfolding user_from_repr
  user_from_repr_iff u = (
    λ h.
        no_foreign-Member u.id.namespace u.groups
          (fail_if-eq-ok (any (is_foreign u.id.namespace) u.groups) parse_error _ h).0,
    λ all_own. rw (no_foreign u.id.namespace u.groups all_own) refl,
  )

  -- So what is written of a valid user is read back.
  pub user_from_repr-IsValidUser :
      (u : User c) → IsValidUser u → user_from_repr c u.id u.groups ≡ ok u
  unfolding IsValidUser
  user_from_repr-IsValidUser u h =
      (user_from_repr_iff u).1 (AreGroupsOf-Member u.id.namespace u.groups h.1)
