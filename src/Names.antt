-- ===== src/Names.antt =====
-- Qualified names, `A::B::C`, as `str::split("::")` and `[str]::join("::")` read and write them.
pub mod Join
use Prim.Native.String
use treetop_core.Prelude.{
  String, Char, code, List, [], ◌∷◌, Option, none, some, Bool, false, ◌&&◌, ◌||◌, ◌==◌, nat_eq,
  if◌then◌else◌, ◌≡◌, refl,
}

abbrev pub push : String → Char → String
push s c = String.◌++◌ s (String.◌∷◌ c "")

abbrev pub is_colon : Char → Bool
is_colon c = code c == b':'

-- The pieces of `cur ++ s` still to be delivered, `cur` holding no separator.
unfoldable pub split_from : String → String → List String
split_from cur String.[] = cur ∷ []
split_from cur (String.◌∷◌ c String.[]) = push cur c ∷ []
split_from cur (String.◌∷◌ c (String.◌∷◌ d s)) =
    let closed = cur ∷ split_from "" s in
    let longer = split_from (push cur c) (String.◌∷◌ d s) in
    if is_colon c && is_colon d then closed else longer

-- `name.split("::")`
unfoldable pub split_name : String → List String
unfolding split_from
split_name name = split_from "" name

split_name_runs : split_name "App::DNS:::x:" ≡ "App" ∷ "DNS" ∷ ":x:" ∷ []
unfolding split_name
split_name_runs = refl

-- `segments.join("::")`
unfoldable pub join_name : List String → String
join_name [] = ""
join_name (s ∷ []) = s
join_name (s ∷ t ∷ ts) = String.◌++◌ s (String.◌++◌ "::" (join_name (t ∷ ts)))

-- `text.contains("::")`
unfoldable pub has_separator : String → Bool
has_separator String.[] = false
has_separator (String.◌∷◌ c String.[]) = false
has_separator (String.◌∷◌ c (String.◌∷◌ d s)) =
    (is_colon c && is_colon d) || has_separator (String.◌∷◌ d s)

-- `text.rsplit_once("::")`: around the last separator.
unfoldable pub rsplit_name : String → Option (String × String)
rsplit_name String.[] = none
rsplit_name (String.◌∷◌ c String.[]) = none
rsplit_name (String.◌∷◌ c (String.◌∷◌ d s)) = elim (rsplit_name (String.◌∷◌ d s)) [
  | some around ↦ some (String.◌∷◌ c around.0, around.1)
  | none ↦ if is_colon c && is_colon d then some ("", s) else none
]
