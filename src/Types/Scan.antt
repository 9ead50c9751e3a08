-- ===== src/Types/Scan.antt =====
-- `split_user_and_groups` of src/types/user.rs: where the list of groups starts, and its names.
use treetop_core.Prelude.{
  ℕ, String, Char, code, List, [], ◌∷◌, Option, none, some, Bool, true, false, ◌&&◌, ◌||◌, ◌==◌,
  string_eq, nat_eq, if◌then◌else◌, not,
}
use treetop_core.Prelude.Texts.{trim, is_blank, strip_last, any_code, split_code}
use treetop_core.Error.{invalid_format, Result, ok, err, ◌>>=◌, ◌>>◌, fail_if, or_fail}
use treetop_core.Cedar.Text.{quote, backslash}

-- The text before the `[` that starts the groups and the text behind it, if there is one.
abbrev pub Found : Type 0
Found = Result (Option (String × String))

abbrev pub keep_char : Char → Found → Found
keep_char c (err e) = err e
keep_char c (ok none) = ok none
keep_char c (ok (some (before, after))) = ok (some (String.◌∷◌ c before, after))

-- The loop over the characters; the flags are `in_quotes` and `escaped`.
unfoldable pub find_groups : Bool → Bool → String → Found
find_groups in_quotes escaped String.[] = ok none
find_groups in_quotes true (String.◌∷◌ c s) = keep_char c (find_groups in_quotes false s)
find_groups in_quotes false (String.◌∷◌ c s) =
    let escape = keep_char c (find_groups in_quotes true s) in
    let toggle = keep_char c (find_groups (not in_quotes) false s) in
    let next = keep_char c (find_groups in_quotes false s) in
    if code c == backslash && in_quotes
    then escape
    else if code c == quote
    then toggle
    else if code c == b'[' && not in_quotes
    then ok (some ("", s))
    else if code c == b']' && not in_quotes
    then err invalid_format
    else next

abbrev pub is_bracket : ℕ → Bool
is_bracket n = (n == b'[') || (n == b']')

-- The names, none of which may be empty.
unfoldable pub group_names : List String → Result (List String)
unfolding trim
group_names [] = ok []
group_names (g ∷ gs) = do
  fail_if (trim g == "") invalid_format
  rest ← group_names gs
  ok (trim g ∷ rest)

abbrev pub listed_groups : String → Result (Option (List String))
listed_groups group_text = do names ← group_names (split_code b',' group_text); ok (some names)

-- What is behind the `[`, where the whole text ends with `]`: that bracket is behind the `[`.
unfoldable pub read_groups : String → Result (Option (List String))
unfolding strip_last any_code is_blank split_code
read_groups after = do
  group_text ← or_fail (strip_last b']' after) invalid_format
  fail_if (any_code is_bracket group_text) invalid_format
  if is_blank group_text then ok none else listed_groups group_text

unfoldable pub split_user_and_groups : String → Result (String × Option (List String))
unfolding trim find_groups read_groups
split_user_and_groups s = do
  found ← find_groups false false (trim s)
  elim found [
    | none ↦ ok (trim s, none)
    | some (before, after) ↦ do groups ← read_groups after; ok (trim before, groups)
  ]
