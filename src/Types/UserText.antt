-- ===== src/Types/UserText.antt =====
-- Printing a user with its groups and reading it back: the `Display` of `User` and `Groups` and the
-- `FromStr` of src/types/user.rs.
use Prim.Native.String
use text.Mathlib.TextLemmas.{append_assoc, append-nil, cons-append, nil-append}
use treetop_core.Prelude.{
  String, List, [], ◌∷◌, Option, none, some, ◌≡◌, ◌≢◌, refl, sym, ap, subst, ◌∙◌, map, false,
}
use treetop_core.Prelude.Texts.{trim}
use treetop_core.Error.{ok, >>=-eq-ok, ok-inj}
use treetop_core.Names.Join.{ArePlain}
use treetop_core.Cedar.{Cedar}
use treetop_core.Cedar.Text.{UidText, uid_text}
use treetop_core.Types.Identity.{
  user_kind, group_kind, type_text, QualifiedId, new_id, or_empty, Group, new_groups, User,
  new_user,
}
use treetop_core.Types.Scan.{find_groups, split_user_and_groups}
use treetop_core.Types.Parse.{fmt_qualified, then_some, join_ids, show_groups, user_from_str}
use treetop_core.Types.Quoted.{
  trim-uid_text, trim-uid_text_alone, find_groups-uid_text, keep, keep-none, keep-some,
}
use treetop_core.Types.GroupText.{AreNames, listed, read_groups-join_ids}
use treetop_core.Types.Valid.{new_id-eq-ok}
use treetop_core.Types.RoundTrip.{
  SplitsBack, ArePlain-SplitsBack, split_string_into_cedar_parts-uid_text, snoc-inj,
  or_empty-then_some,
}

or_empty-listed : (gs : List String) → or_empty (listed gs) ≡ gs
or_empty-listed [] = refl
or_empty-listed (g ∷ gs) = refl

module _ (c : Cedar) where
  open c use {TypeName, parse_type, Uid, uid_of, escaped, show_uid}

  new_groups-ids :
      (names : List String) (ns : Option (List String)) (gs : List (Group c))
      → new_groups c names ns ≡ ok gs
      → map (λ (g : Group c). g.id) gs ≡ names
  unfolding new_groups
  new_groups-ids [] ns gs h = ap (map (λ (g : Group c). g.id)) (sym (ok-inj h))
  new_groups-ids (n ∷ names) ns gs h =
      let (g, first, h1) = >>=-eq-ok (new_id c group_kind n ns) _ h in
      let (rest, deep, same) = >>=-eq-ok (new_groups c names ns) _ h1 in
      let (_, _, _, made) = new_id-eq-ok c group_kind n ns first in
      ap (map (λ (x : Group c). x.id)) (sym (ok-inj same))
      ∙ ap (λ x. x ∷ map (λ (y : Group c). y.id) rest) (ap (λ (x : Group c). x.id) (sym made))
      ∙ ap (λ x. n ∷ x) (new_groups-ids names ns rest deep)

  new_groups-or_empty :
      (names : List String) (ns ns' : Option (List String))
      → or_empty ns ≡ or_empty ns'
      → new_groups c names ns ≡ new_groups c names ns'
  unfolding new_groups new_id
  new_groups-or_empty [] ns ns' h = refl
  new_groups-or_empty (n ∷ names) ns ns' h = rw (h, new_groups-or_empty names ns ns' h) refl

  -- The constructor reads its options as lists.
  new_user-or_empty :
      (i : String) (names names' ns ns' : Option (List String))
      → or_empty names ≡ or_empty names'
      → or_empty ns ≡ or_empty ns'
      → new_user c i names ns ≡ new_user c i names' ns'
  unfolding new_user new_id
  new_user-or_empty i names names' ns ns' hn hs =
      rw (hn, new_groups-or_empty (or_empty names') ns ns' hs, hs) refl

  module _ (laws : UidText c) where
    -- A printed uid followed by printed groups is split between them.
    pub split_user_and_groups-show_groups :
        (s : String) (t : TypeName) (i : String) (names : List String)
        → parse_type s ≡ some t
        → AreNames names
        → split_user_and_groups (
            String.◌++◌
              (uid_text s (escaped i))
              (String.◌++◌ "[" (String.◌++◌ (join_ids names) "]")))
          ≡ ok (uid_text s (escaped i), listed names)
    unfolding split_user_and_groups find_groups
    split_user_and_groups-show_groups s t i names h ok_names =
        let uid = uid_text s (escaped i) in
        let tail = String.◌++◌ "[" (String.◌++◌ (join_ids names) "]") in
        let path = laws.type_path s t h in
        let whole : trim (String.◌++◌ uid tail) ≡ String.◌++◌ uid tail =
          subst (λ x. trim (String.◌++◌ uid x) ≡ String.◌++◌ uid x)
            (append_assoc "[" (join_ids names) "]")
            (trim-uid_text s (escaped i) (String.◌++◌ "[" (join_ids names)) _ path
              (laws.type_nonempty s t h) refl) in
        let found : find_groups false false (String.◌++◌ uid tail)
            ≡ ok (some (uid, String.◌++◌ (join_ids names) "]")) =
          find_groups-uid_text s (escaped i) tail path (laws.escaped_quotes i)
          ∙ ap (λ x. keep uid (find_groups false false x))
              (cons-append "[" "" _ ∙ ap (String.◌∷◌ "[") (nil-append _))
          ∙ keep-some uid _ in
        let alone = trim-uid_text_alone s (escaped i) path (laws.type_nonempty s t h) in
        rw (whole, found, read_groups-join_ids names ok_names, alone.0) refl

    pub split_user_and_groups-uid_text :
        (s : String) (t : TypeName) (i : String)
        → parse_type s ≡ some t
        → split_user_and_groups (uid_text s (escaped i)) ≡ ok (uid_text s (escaped i), none)
    unfolding split_user_and_groups find_groups
    split_user_and_groups-uid_text s t i h =
        let uid = uid_text s (escaped i) in
        let path = laws.type_path s t h in
        let alone = trim-uid_text_alone s (escaped i) path (laws.type_nonempty s t h) in
        let found : find_groups false false uid ≡ ok none =
          ap (find_groups false false) (sym (append-nil uid))
          ∙ find_groups-uid_text s (escaped i) "" path (laws.escaped_quotes i)
          ∙ keep-none uid in
        rw (alone.0, found, alone.0) refl

    user_from_str-parts :
        (text : String) (ns : List String) (t : TypeName) (i : String)
        (groups : Option (List String))
        → parse_type (type_text ns "User") ≡ some t
        → i ≢ ""
        → SplitsBack ns "User"
        → split_user_and_groups text ≡ ok (uid_text (type_text ns "User") (escaped i), groups)
        → user_from_str c text ≡ new_user c i groups (some ns)
    unfolding user_from_str SplitsBack
    user_from_str-parts text ns t i groups h ne back split =
        let (same, named) =
          snoc-inj (c.namespace_components t) ns
            (sym (laws.type_segments (type_text ns "User") t h) ∙ back) in
        rw
          (
            split,
            split_string_into_cedar_parts-uid_text c laws (type_text ns "User") t i h ne,
            named,
            same,
          )
          (new_user-or_empty i groups groups (then_some ns) (some ns) refl (or_empty-then_some ns))

    -- What the constructor of a user returns.
    new_user-eq-ok :
        (i : String) (names ns : Option (List String)) (u : User c)
        → new_user c i names ns ≡ ok u
        → (new_id c user_kind i ns ≡ ok u.id) × (new_groups c (or_empty names) ns ≡ ok u.groups)
    unfolding new_user
    new_user-eq-ok i names ns u h =
        let (q, first, h1) = >>=-eq-ok (new_id c user_kind i ns) _ h in
        let (gs, second, same) = >>=-eq-ok (new_groups c (or_empty names) ns) _ h1 in
        (
          first ∙ ap (λ (x : User c). ok x.id) (ok-inj same),
          second ∙ ap (λ (x : User c). ok x.groups) (ok-inj same),
        )

    -- A user printed with its groups is read back, its groups in their order.
    pub user_from_str-show_groups :
        (i : String) (names ns : Option (List String)) (u : User c)
        → new_user c i names ns ≡ ok u
        → AreNames (or_empty names)
        → ArePlain (or_empty ns)
        → user_from_str c (String.◌++◌ (fmt_qualified c u.id) (show_groups c u.groups)) ≡ ok u
    unfolding fmt_qualified show_groups
    user_from_str-show_groups i names ns u h ok_names plain =
        let (of_id, of_groups) = new_user-eq-ok i names ns u h in
        let (ne, t, parses, made) = new_id-eq-ok c user_kind i ns of_id in
        let text = type_text (or_empty ns) "User" in
        let printed : fmt_qualified c u.id ≡ uid_text text (escaped i) =
          ap (λ (x : QualifiedId c user_kind). show_uid x.uid) (sym made)
          ∙ laws.show_uid_text text t i parses in
        rw (printed, new_groups-ids (or_empty names) ns u.groups of_groups)
          (user_from_str-parts _ (or_empty ns) t i (listed (or_empty names)) parses ne
              (ArePlain-SplitsBack (or_empty ns) user_kind plain)
              (split_user_and_groups-show_groups text t i (or_empty names) parses ok_names)
            ∙ new_user-or_empty i (listed (or_empty names)) names (some (or_empty ns)) ns
                (or_empty-listed (or_empty names)) refl
            ∙ h)

    -- `Display` of a user leaves its groups out: the user that is read has none.
    pub user_from_str-fmt_qualified :
        (i : String) (names ns : Option (List String)) (u : User c)
        → new_user c i names ns ≡ ok u
        → ArePlain (or_empty ns)
        → user_from_str c (fmt_qualified c u.id) ≡ ok (record { id = u.id; groups = [] })
    unfolding fmt_qualified new_user new_groups
    user_from_str-fmt_qualified i names ns u h plain =
        let (of_id, of_groups) = new_user-eq-ok i names ns u h in
        let (ne, t, parses, made) = new_id-eq-ok c user_kind i ns of_id in
        let text = type_text (or_empty ns) "User" in
        let printed : fmt_qualified c u.id ≡ uid_text text (escaped i) =
          ap (λ (x : QualifiedId c user_kind). show_uid x.uid) (sym made)
          ∙ laws.show_uid_text text t i parses in
        rw printed (
          user_from_str-parts _ (or_empty ns) t i none parses ne
            (ArePlain-SplitsBack (or_empty ns) user_kind plain)
            (split_user_and_groups-uid_text text t i parses)
          ∙ new_user-or_empty i none none (some (or_empty ns)) ns refl refl
          ∙ rw of_id refl)
