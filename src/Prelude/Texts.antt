-- ===== src/Prelude/Texts.antt =====
-- The operations of `str` that the code uses, on texts as lists of characters.
use Prim.Native.String
use Prim.Native.Nat.{ℕ}
use Prim.Native.Char.{Char, code}
use Prim.Native.String.{String}
use mathlib.Core.Option.{Option, none, some}
use mathlib.Core.List.{List, [], ◌∷◌}
use mathlib.Core.Bool.{Bool, true, false, ◌&&◌, ◌||◌}
use treetop_core.Prelude.Tests.{◌==◌, nat_eq, string_eq, leb, if◌then◌else◌}

-- Unicode's `White_Space`, by code point.
abbrev pub is_whitespace : ℕ → Bool
is_whitespace n =
    (leb 0x09 n && leb n 0x0d)
    || (n == 0x20)
    || (n == 0x85)
    || (n == 0xa0)
    || (n == 0x1680)
    || (leb 0x2000 n && leb n 0x200a)
    || (n == 0x2028)
    || (n == 0x2029)
    || (n == 0x202f)
    || (n == 0x205f)
    || (n == 0x3000)

-- `text.trim().is_empty()`
unfoldable pub is_blank : String → Bool
is_blank String.[] = true
is_blank (String.◌∷◌ c s) = is_whitespace (code c) && is_blank s

abbrev is_space : Char → Bool
is_space c = is_whitespace (code c)

abbrev pub trim_start : String → String
trim_start String.[] = ""
trim_start (String.◌∷◌ c s) = let rest = trim_start s in if is_space c then rest else String.◌∷◌ c s

abbrev pub trim_end : String → String
trim_end String.[] = ""
trim_end (String.◌∷◌ c s) =
    let rest = trim_end s in if is_space c && is_blank s then "" else String.◌∷◌ c rest

-- `str::trim`
unfoldable pub trim : String → String
trim s = trim_end (trim_start s)

-- `strip_suffix` of one character.
unfoldable pub strip_last : ℕ → String → Option String
strip_last n String.[] = none
strip_last n (String.◌∷◌ c String.[]) = if code c == n then some "" else none
strip_last n (String.◌∷◌ c (String.◌∷◌ d s)) = elim (strip_last n (String.◌∷◌ d s)) [
  | none ↦ none
  | some rest ↦ some (String.◌∷◌ c rest)
]

unfoldable pub strip_prefix : String → String → Option String
strip_prefix String.[] s = some s
strip_prefix (String.◌∷◌ p ps) String.[] = none
strip_prefix (String.◌∷◌ p ps) (String.◌∷◌ c s) =
    let rest = strip_prefix ps s in if code p == code c then rest else none

-- A line without the `\r` that may end it.
abbrev pub end_line : String → String
end_line s = elim (strip_last 0x0d s) [ none ↦ s | some t ↦ t ]

-- `str::lines`, `cur` being the line so far: an empty last line is not delivered.
unfoldable pub lines_from : String → String → List String
unfolding strip_last
lines_from cur String.[] = if cur == "" then [] else cur ∷ []
lines_from cur (String.◌∷◌ c s) =
    let next = end_line cur ∷ lines_from "" s in
    let same = lines_from (String.◌++◌ cur (String.◌∷◌ c "")) s in
    if code c == 0x0a then next else same

-- Some character of the text passes the test on its code point.
unfoldable pub any_code : (ℕ → Bool) → String → Bool
any_code test String.[] = false
any_code test (String.◌∷◌ c s) = test (code c) || any_code test s

-- The pieces of `cur ++ s` between the characters with code point `n`, `cur` holding none.
unfoldable pub split_code_from : ℕ → String → String → List String
split_code_from n cur String.[] = cur ∷ []
split_code_from n cur (String.◌∷◌ c s) =
    let next = cur ∷ split_code_from n "" s in
    let same = split_code_from n (String.◌++◌ cur (String.◌∷◌ c "")) s in
    if code c == n then next else same

-- `str::split` by one character.
unfoldable pub split_code : ℕ → String → List String
unfolding split_code_from
split_code n s = split_code_from n "" s
