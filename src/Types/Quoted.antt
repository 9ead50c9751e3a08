-- ===== src/Types/Quoted.antt =====
-- The text of a uid, as `trim` and the search for the groups of src/types/user.rs read it.
use Prim.Native.String
use text.Mathlib.TextLemmas.{append_assoc, nil-append, cons-append, cons-ne-nil}
use treetop_core.Prelude.{
  ℕ, String, Char, code, none, some, true, false, ◌≡◌, ◌≢◌, refl, sym, ap, subst, ◌∙◌, arith,
  nat_eq,
}
use treetop_core.Prelude.Texts.{trim, trim_end, is_blank, is_whitespace}
use treetop_core.Error.{ok}
use treetop_core.Cedar.Text.{is_path_code, is_path, is_escaped, uid_text}
use treetop_core.Types.Scan.{Found, keep_char, find_groups}

pub path-is_whitespace : (n : ℕ) → is_path_code n ≡ true → is_whitespace n ≡ false
unfolding is_path_code
path-is_whitespace n h = ground arith

is_blank-last :
    (s : String) (d : Char)
    → is_whitespace (code d) ≡ false
    → is_blank (String.◌++◌ s (String.◌∷◌ d "")) ≡ false
unfolding is_blank
is_blank-last String.[] d h = rw (nil-append (String.◌∷◌ d ""), h) refl
is_blank-last (String.◌∷◌ c s) d h =
    rw (cons-append c s (String.◌∷◌ d ""), is_blank-last s d h) (ground arith)

trim_end-last :
    (s : String) (d : Char)
    → is_whitespace (code d) ≡ false
    → trim_end (String.◌++◌ s (String.◌∷◌ d "")) ≡ String.◌++◌ s (String.◌∷◌ d "")
trim_end-last String.[] d h = rw (nil-append (String.◌∷◌ d ""), h) refl
trim_end-last (String.◌∷◌ c s) d h =
    rw (cons-append c s (String.◌∷◌ d ""), is_blank-last s d h, trim_end-last s d h) (ground arith)

-- A text with no space at its ends is its own trim.
pub trim-solid :
    (c : Char) (s : String) (d : Char)
    → is_whitespace (code c) ≡ false
    → is_whitespace (code d) ≡ false
    → let text = String.◌∷◌ c (String.◌++◌ s (String.◌∷◌ d "")) in trim text ≡ text
unfolding trim
trim-solid c s d hc hd = rw hc (
    subst (λ x. trim_end x ≡ x) (cons-append c s (String.◌∷◌ d ""))
      (trim_end-last (String.◌∷◌ c s) d hd))

unfoldable pub keep : String → Found → Found
keep String.[] found = found
keep (String.◌∷◌ c s) found = keep_char c (keep s found)

pub keep-none : (s : String) → keep s (ok none) ≡ ok none
unfolding keep
keep-none String.[] = refl
keep-none (String.◌∷◌ c s) = ap (keep_char c) (keep-none s)

pub keep-some : (s after : String) → keep s (ok (some ("", after))) ≡ ok (some (s, after))
unfolding keep
keep-some String.[] after = refl
keep-some (String.◌∷◌ c s) after = ap (keep_char c) (keep-some s after)

pub find_groups-path :
    (t rest : String)
    → is_path t ≡ true
    → find_groups false false (String.◌++◌ t rest) ≡ keep t (find_groups false false rest)
unfolding is_path is_path_code keep find_groups
find_groups-path String.[] rest h = rw (nil-append rest) refl
find_groups-path (String.◌∷◌ c t) rest h =
    rw (cons-append c t rest) (ground (arith, find_groups-path t rest))

find_groups-escaped :
    (e rest : String)
    → is_escaped e ≡ true
    → find_groups true false (String.◌++◌ e rest) ≡ keep e (find_groups true false rest)
unfolding is_escaped keep find_groups
find_groups-escaped String.[] rest h = rw (nil-append rest) refl
find_groups-escaped (String.◌∷◌ c String.[]) rest h =
    rw (cons-append c "" rest, nil-append rest) (ground arith)
find_groups-escaped (String.◌∷◌ c (String.◌∷◌ d e)) rest h =
    let deep = find_groups-escaped (String.◌∷◌ d e) rest in
    let deep' =
      subst
        (λ x.
          is_escaped (String.◌∷◌ d e) ≡ true
          → find_groups true false x ≡ keep (String.◌∷◌ d e) (find_groups true false rest))
        (cons-append d e rest) deep in
    rw (cons-append c (String.◌∷◌ d e) rest, cons-append d e rest)
      (ground (arith, find_groups-escaped e rest, deep'))

keep-append : (x y : String) (found : Found) → keep (String.◌++◌ x y) found ≡ keep x (keep y found)
unfolding keep
keep-append String.[] y found = ap (λ s. keep s found) (nil-append y)
keep-append (String.◌∷◌ c x) y found =
    ap (λ s. keep s found) (cons-append c x y) ∙ ap (keep_char c) (keep-append x y found)

abbrev colon : Char
colon = ":"

abbrev mark : Char
mark = "\""

opening :
    (rest : String)
    → String.◌++◌ "::\"" rest ≡ String.◌∷◌ colon (String.◌∷◌ colon (String.◌∷◌ mark rest))
opening rest =
    cons-append colon ":\"" rest
    ∙ ap (String.◌∷◌ colon) (cons-append colon "\"" rest)
    ∙ ap (λ s. String.◌∷◌ colon (String.◌∷◌ colon s)) (cons-append mark "" rest)
    ∙ ap (λ s. String.◌∷◌ colon (String.◌∷◌ colon (String.◌∷◌ mark s))) (nil-append rest)

find_groups-opening :
    (rest : String)
    → find_groups false false (String.◌++◌ "::\"" rest) ≡ keep "::\"" (find_groups true false rest)
unfolding find_groups keep
find_groups-opening rest = ap (find_groups false false) (opening rest)

find_groups-closing :
    (rest : String)
    → find_groups true false (String.◌++◌ "\"" rest) ≡ keep "\"" (find_groups false false rest)
unfolding find_groups keep
find_groups-closing rest =
    ap (find_groups true false) (cons-append mark "" rest ∙ ap (String.◌∷◌ mark) (nil-append rest))

uid_text-append :
    (t e rest : String)
    → String.◌++◌ (uid_text t e) rest
      ≡ String.◌++◌ t (String.◌++◌ "::\"" (String.◌++◌ e (String.◌++◌ "\"" rest)))
unfolding uid_text
uid_text-append t e rest =
    append_assoc t (String.◌++◌ "::\"" (String.◌++◌ e "\"")) rest
    ∙ ap (String.◌++◌ t) (append_assoc "::\"" (String.◌++◌ e "\"") rest)
    ∙ ap (λ s. String.◌++◌ t (String.◌++◌ "::\"" s)) (append_assoc e "\"" rest)

-- The search reads past a uid, whatever its id holds.
pub find_groups-uid_text :
    (t e rest : String)
    → is_path t ≡ true
    → is_escaped e ≡ true
    → find_groups false false (String.◌++◌ (uid_text t e) rest)
      ≡ keep (uid_text t e) (find_groups false false rest)
unfolding uid_text
find_groups-uid_text t e rest ht he =
    let close = String.◌++◌ "\"" rest in
    let found = find_groups false false rest in
    ap (find_groups false false) (uid_text-append t e rest)
    ∙ find_groups-path t (String.◌++◌ "::\"" (String.◌++◌ e close)) ht
    ∙ ap (keep t) (find_groups-opening (String.◌++◌ e close))
    ∙ ap (λ r. keep t (keep "::\"" r)) (find_groups-escaped e close he)
    ∙ ap (λ r. keep t (keep "::\"" (keep e r))) (find_groups-closing rest)
    ∙ sym (
        keep-append t (String.◌++◌ "::\"" (String.◌++◌ e "\"")) found
        ∙ ap (keep t) (keep-append "::\"" (String.◌++◌ e "\"") found)
        ∙ ap (λ r. keep t (keep "::\"" r)) (keep-append e "\"" found))

-- A printed uid is not empty and has no space at its ends, also before a text that ends solidly.
pub trim-uid_text :
    (t e rest : String) (d : Char)
    → is_path t ≡ true
    → t ≢ ""
    → is_whitespace (code d) ≡ false
    → let text = String.◌++◌ (uid_text t e) (String.◌++◌ rest (String.◌∷◌ d "")) in trim text ≡ text
unfolding is_path
trim-uid_text String.[] e rest d h ne hd = absurd (ne refl)
trim-uid_text (String.◌∷◌ c t) e rest d h ne hd =
    let last = String.◌∷◌ d "" in
    let tail = uid_text t e in
    let shape : String.◌++◌ (uid_text (String.◌∷◌ c t) e) (String.◌++◌ rest last)
        ≡ String.◌∷◌ c (String.◌++◌ (String.◌++◌ tail rest) last) =
      uid_text-append (String.◌∷◌ c t) e (String.◌++◌ rest last)
      ∙ cons-append c t _
      ∙ ap (String.◌∷◌ c)
          (sym (uid_text-append t e (String.◌++◌ rest last)) ∙ sym (append_assoc tail rest last)) in
    subst (λ x. trim x ≡ x) (sym shape)
      (trim-solid c (String.◌++◌ tail rest) d (path-is_whitespace (code c) (ground arith)) hd)

pub trim-uid_text_alone :
    (t e : String)
    → is_path t ≡ true
    → t ≢ ""
    → (trim (uid_text t e) ≡ uid_text t e) × (uid_text t e ≢ "")
unfolding is_path uid_text
trim-uid_text_alone String.[] e h ne = absurd (ne refl)
trim-uid_text_alone (String.◌∷◌ c t) e h ne =
    let middle = String.◌++◌ t (String.◌++◌ "::\"" e) in
    let shape : uid_text (String.◌∷◌ c t) e ≡ String.◌∷◌ c (String.◌++◌ middle "\"") =
      cons-append c t _
      ∙ ap (String.◌∷◌ c) (
          ap (String.◌++◌ t) (sym (append_assoc "::\"" e "\""))
          ∙ sym (append_assoc t (String.◌++◌ "::\"" e) "\"")) in
    (
      subst (λ x. trim x ≡ x) (sym shape)
          (trim-solid c middle mark (path-is_whitespace (code c) (ground arith)) refl),
      λ empty. cons-ne-nil c (String.◌++◌ middle "\"") (sym shape ∙ empty),
    )
