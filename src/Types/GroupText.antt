-- ===== src/Types/GroupText.antt =====
-- The list of group names that the `Display` of src/types/group.rs writes, as the reader of
-- src/types/user.rs takes it apart.
use Prim.Native.String
use text.Mathlib.TextLemmas.{append-nil, nil-append, cons-append}
use treetop_core.Prelude.{
  ℕ, String, Char, code, List, [], ◌∷◌, Option, none, some, ◌≡◌, ◌≢◌, inl, inr, refl, sym, ap,
  subst, ◌∙◌, arith, ◌==◌, string_eq, nat_eq, beq_ne, Bool-cases, Bool, true, false, map, ◌&&◌,
  ◌||◌,
}
use treetop_core.Prelude.Texts.{
  trim, trim_start, trim_end, is_blank, is_whitespace, strip_last, any_code, split_code,
  split_code_from,
}
use treetop_core.Error.{ok}
use treetop_core.Names.{push}
use treetop_core.Names.Join.{push-append}
use treetop_core.Types.Scan.{group_names, read_groups, is_bracket}
use treetop_core.Types.Parse.{join_ids}

pub any_code-append :
    (test : ℕ → Bool) (s t : String)
    → any_code test (String.◌++◌ s t) ≡ any_code test s || any_code test t
unfolding any_code
any_code-append test String.[] t = ap (any_code test) (nil-append t)
any_code-append test (String.◌∷◌ c s) t =
    rw (cons-append c s t, any_code-append test s t) (ground arith)

is_blank-append : (s t : String) → is_blank (String.◌++◌ s t) ≡ is_blank s && is_blank t
unfolding is_blank
is_blank-append String.[] t = ap is_blank (nil-append t)
is_blank-append (String.◌∷◌ c s) t = rw (cons-append c s t, is_blank-append s t) (ground arith)

and-eq-true : (a b : Bool) → (a && b) ≡ true → (a ≡ true) × (b ≡ true)
and-eq-true a b h = (ground arith, ground arith)

trim_start-blank : (s : String) → is_blank s ≡ true → trim_start s ≡ ""
unfolding is_blank
trim_start-blank String.[] h = refl
trim_start-blank (String.◌∷◌ c s) h =
    let (space, rest) = and-eq-true (is_whitespace (code c)) (is_blank s) h in
    rw space (trim_start-blank s rest)

strip_last-append : (s : String) → strip_last b']' (String.◌++◌ s "]") ≡ some s
unfolding strip_last
strip_last-append String.[] = refl
strip_last-append (String.◌∷◌ c String.[]) = rw (cons-append c "" "]") refl
strip_last-append (String.◌∷◌ c (String.◌∷◌ d s)) =
    let deep =
      subst (λ x. strip_last b']' x ≡ some (String.◌∷◌ d s)) (cons-append d s "]")
        (strip_last-append (String.◌∷◌ d s)) in
    rw (cons-append c (String.◌∷◌ d s) "]", cons-append d s "]", deep, strip_last) refl

-- A name that a list of groups can hold: it has no space at its ends, and none of `,`, `[` and `]`.
unfoldable pub IsName : String → Type 0
unfolding trim any_code
IsName g =
    (g ≢ "")
    × (trim g ≡ g)
    × (any_code is_bracket g ≡ false)
    × (any_code (λ n. n == b',') g ≡ false)

unfoldable pub AreNames : List String → Type 0
unfolding IsName
AreNames [] = Unit
AreNames (g ∷ gs) = IsName g × AreNames gs

other :
    (c : Char) (s : String)
    → any_code (λ n. n == b',') (String.◌∷◌ c s) ≡ false
    → (code c == b',') ≡ false
unfolding any_code
other c s h = ground arith

others :
    (c : Char) (s : String)
    → any_code (λ n. n == b',') (String.◌∷◌ c s) ≡ false
    → any_code (λ n. n == b',') s ≡ false
unfolding any_code
others c s h = ground arith

split_code-comma :
    (cur s rest : String)
    → any_code (λ n. n == b',') s ≡ false
    → split_code_from b',' cur (String.◌++◌ s (String.◌++◌ ", " rest))
      ≡ String.◌++◌ cur s ∷ split_code_from b',' " " rest
unfolding split_code_from any_code
split_code-comma cur String.[] rest h =
    rw
      (
        nil-append (String.◌++◌ ", " rest),
        cons-append "," " " rest,
        cons-append " " "" rest,
        nil-append rest,
        append-nil cur,
      )
      refl
split_code-comma cur (String.◌∷◌ c s) rest h =
    rw (cons-append c s (String.◌++◌ ", " rest), other c s h)
      (split_code-comma (push cur c) s rest (others c s h)
        ∙ ap (λ x. x ∷ split_code_from b',' " " rest) (push-append cur c s))

split_code-last :
    (cur s : String)
    → any_code (λ n. n == b',') s ≡ false
    → split_code_from b',' cur s ≡ String.◌++◌ cur s ∷ []
unfolding split_code_from any_code
split_code-last cur String.[] h = ap (λ x. x ∷ []) (sym (append-nil cur))
split_code-last cur (String.◌∷◌ c s) h =
    rw (other c s h)
      (split_code-last (push cur c) s (others c s h) ∙ ap (λ x. x ∷ []) (push-append cur c s))

-- The pieces between the commas of the printed names.
split_code-join_ids :
    (cur g : String) (gs : List String)
    → AreNames (g ∷ gs)
    → split_code_from b',' cur (join_ids (g ∷ gs))
      ≡ String.◌++◌ cur g ∷ map (λ x. String.◌++◌ " " x) gs
unfolding AreNames IsName
split_code-join_ids cur g [] h = split_code-last cur g h.0.3
split_code-join_ids cur g (g' ∷ gs) h =
    split_code-comma cur g (join_ids (g' ∷ gs)) h.0.3
    ∙ ap (λ x. String.◌++◌ cur g ∷ x) (split_code-join_ids " " g' gs h.1)

trim-space : (g : String) → trim (String.◌++◌ " " g) ≡ trim g
unfolding trim
trim-space g = ap trim (cons-append " " "" g ∙ ap (String.◌∷◌ " ") (nil-append g))

group_names-spaced :
    (gs : List String) → AreNames gs → group_names (map (λ x. String.◌++◌ " " x) gs) ≡ ok gs
unfolding AreNames IsName group_names
group_names-spaced [] h = refl
group_names-spaced (g ∷ gs) h =
    rw (trim-space g, h.0.1, beq_ne g "" h.0.0, group_names-spaced gs h.1) refl

name-is_blank : (g : String) → IsName g → is_blank g ≡ false
unfolding IsName trim
name-is_blank g h = elim (Bool-cases (is_blank g)) [
  | inl blank ↦ absurd (h.0 (sym h.1 ∙ ap trim_end (trim_start-blank g blank)))
  | inr solid ↦ solid
]

join_ids-is_blank :
    (g : String) (gs : List String) → AreNames (g ∷ gs) → is_blank (join_ids (g ∷ gs)) ≡ false
unfolding AreNames
join_ids-is_blank g [] h = name-is_blank g h.0
join_ids-is_blank g (g' ∷ gs) h = rw (is_blank-append g _, name-is_blank g h.0) refl

join_ids-is_bracket : (gs : List String) → AreNames gs → any_code is_bracket (join_ids gs) ≡ false
unfolding AreNames IsName any_code
join_ids-is_bracket [] h = refl
join_ids-is_bracket (g ∷ []) h = h.0.2
join_ids-is_bracket (g ∷ g' ∷ gs) h =
    rw
      (
        any_code-append is_bracket g _,
        any_code-append is_bracket ", " _,
        h.0.2,
        join_ids-is_bracket (g' ∷ gs) h.1,
      )
      refl

-- No groups, where the printed list is empty.
abbrev pub listed : List String → Option (List String)
listed [] = none
listed (g ∷ gs) = some (g ∷ gs)

listed_names :
    (g : String) (gs : List String)
    → AreNames (g ∷ gs)
    → group_names (g ∷ map (λ x. String.◌++◌ " " x) gs) ≡ ok (g ∷ gs)
unfolding AreNames IsName group_names
listed_names g gs h = rw (h.0.1, beq_ne g "" h.0.0, group_names-spaced gs h.1) refl

-- The printed names are read back, in their order.
pub read_groups-join_ids :
    (gs : List String) → AreNames gs → read_groups (String.◌++◌ (join_ids gs) "]") ≡ ok (listed gs)
unfolding read_groups split_code
read_groups-join_ids [] h = refl
read_groups-join_ids (g ∷ gs) h =
    rw
      (
        strip_last-append (join_ids (g ∷ gs)),
        join_ids-is_bracket (g ∷ gs) h,
        join_ids-is_blank g gs h,
        split_code-join_ids "" g gs h,
        nil-append g,
        listed_names g gs h,
      )
      refl
