-- ===== src/Query/Capacity.antt =====
-- The capacity that src/types/entity_uid.rs adds up before it writes a type's text.
use Prim.Native.String
use text.Mathlib.TextPositions.{len-append}
use treetop_core.Prelude.{ℕ, ◌+◌, ◌≤◌, String, List, [], ◌∷◌, some, ◌≡◌, ◌↔◌, arith}
use treetop_core.Names.{join_name}
use treetop_core.Types.Identity.{type_text}
use treetop_core.Query.{type_capacity, checked_add, usize_max}

-- The bytes of the segments, each with its separator.
abbrev bytes : List String → ℕ
bytes [] = 0
bytes (s ∷ ss) = 2 + String.len s + bytes ss

len-join_name :
    (s : String) (ss : List String) → 2 + String.len (join_name (s ∷ ss)) ≡ bytes (s ∷ ss)
unfolding join_name
len-join_name s [] = ground arith
len-join_name s (t ∷ ts) = ground (
  arith,
  len-append s (String.◌++◌ "::" (join_name (t ∷ ts))),
  len-append "::" (join_name (t ∷ ts)),
  len-join_name t ts,
)

len-type_text :
    (ss : List String) (name : String) → String.len (type_text ss name) ≡ String.len name + bytes ss
unfolding type_text
len-type_text [] name = ground arith
len-type_text (s ∷ ss) name = ground (
  arith,
  len-append (join_name (s ∷ ss)) (String.◌++◌ "::" name),
  len-append "::" name,
  len-join_name s ss,
)

type_capacity-bytes :
    (size n : ℕ) (ss : List String)
    → size ≤ usize_max
    → (type_capacity size ss ≡ some n) ↔ ((size + bytes ss ≡ n) × (n ≤ usize_max))
unfolding type_capacity checked_add
type_capacity-bytes size n [] h = ground arith
type_capacity-bytes size n (s ∷ ss) h =
    ground (arith, type_capacity-bytes (size + 2 + String.len s) n ss)

-- For a name whose length is a `usize`: the capacity is the length of the text, to the byte, and it
-- is refused exactly where that length exceeds `usize::MAX`.
pub type_capacity_iff :
    (ss : List String) (name : String) (n : ℕ)
    → String.len name ≤ usize_max
    → (type_capacity (String.len name) ss ≡ some n)
      ↔ ((String.len (type_text ss name) ≡ n) × (n ≤ usize_max))
type_capacity_iff ss name n h =
    rw (len-type_text ss name) (type_capacity-bytes (String.len name) n ss h)
