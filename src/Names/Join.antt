-- ===== src/Names/Join.antt =====
-- Splitting a qualified name at `::` and joining the pieces are inverse.
use Prim.Native.String
use Prim.Native.Char.{char, IsScalar}
use text.Mathlib.TextLemmas.{append_assoc, nil-append, cons-append, append-nil}
use treetop_core.Prelude.{
  String, Char, List, [], ◌∷◌, Bool, true, false, ◌&&◌, ◌≡◌, ◌≢◌, refl, sym, ap, subst, ◌∙◌, arith,
  Bool-cases, inl, inr, ◌==◌, nat_eq, nat_beq_iff,
}
use treetop_core.Prelude.Texts.{any_code}
use treetop_core.Names.{push, is_colon, split_from, split_name, join_name}

is_colon-eq : (c : Char) → is_colon c ≡ true → c ≡ ":"
is_colon-eq (char n x) h =
    subst (λ m. (y : IsScalar m) → Path Char (char m y) ":") (sym ((nat_beq_iff n 58).0 h))
      (λ y. refl) x

split_from-nonempty : (cur s : String) → split_from cur s ≢ []
unfolding split_from
split_from-nonempty cur String.[] = λ e. cc e
split_from-nonempty cur (String.◌∷◌ c String.[]) = λ e. cc e
split_from-nonempty cur (String.◌∷◌ c (String.◌∷◌ d s)) =
    ground (arith, split_from-nonempty (push cur c) (String.◌∷◌ d s))

join_name-cons :
    (s : String) (ss : List String)
    → ss ≢ []
    → join_name (s ∷ ss) ≡ String.◌++◌ s (String.◌++◌ "::" (join_name ss))
unfolding join_name
join_name-cons s [] ne = absurd (ne refl)
join_name-cons s (t ∷ ts) ne = refl

pub push-append :
    (cur : String) (c : Char) (s : String)
    → String.◌++◌ (push cur c) s ≡ String.◌++◌ cur (String.◌∷◌ c s)
push-append cur c s =
    append_assoc cur (String.◌∷◌ c "") s
    ∙ ap (String.◌++◌ cur) (cons-append c "" s ∙ ap (String.◌∷◌ c) (nil-append s))

separator : (s : String) → String.◌++◌ "::" s ≡ String.◌∷◌ ":" (String.◌∷◌ ":" s)
separator s =
    cons-append ":" ":" s
    ∙ ap (String.◌∷◌ ":") (cons-append ":" "" s ∙ ap (String.◌∷◌ ":") (nil-append s))

join_name-split_from : (cur s : String) → join_name (split_from cur s) ≡ String.◌++◌ cur s
unfolding split_from join_name
join_name-split_from cur String.[] = sym (append-nil cur)
join_name-split_from cur (String.◌∷◌ c String.[]) = refl
join_name-split_from cur (String.◌∷◌ c (String.◌∷◌ d s)) =
    elim (Bool-cases (is_colon c && is_colon d)) [
      | inl h ↦ rw h (
          join_name-cons cur (split_from "" s) (split_from-nonempty "" s)
          ∙ ap (λ x. String.◌++◌ cur (String.◌++◌ "::" x))
              (join_name-split_from "" s ∙ nil-append s)
          ∙ ap (String.◌++◌ cur)
              (separator s ∙ cc (is_colon-eq c (ground arith), is_colon-eq d (ground arith))))
      | inr h ↦
          rw h (
            join_name-split_from (push cur c) (String.◌∷◌ d s) ∙ push-append cur c (String.◌∷◌ d s))
    ]

-- Joining what was split gives the name back.
pub join_name-split_name : (s : String) → join_name (split_name s) ≡ s
unfolding split_name
join_name-split_name s = join_name-split_from "" s ∙ nil-append s

split_from-other :
    (cur : String) (c : Char) (s : String)
    → is_colon c ≡ false
    → split_from cur (String.◌∷◌ c s) ≡ split_from (push cur c) s
unfolding split_from
split_from-other cur c String.[] h = refl
split_from-other cur c (String.◌∷◌ d s) h = rw h refl

abbrev pub has_colon : String → Bool
has_colon s = any_code (λ n. n == b':') s

split_from-separator :
    (cur s rest : String)
    → has_colon s ≡ false
    → split_from cur (String.◌++◌ s (String.◌++◌ "::" rest))
      ≡ String.◌++◌ cur s ∷ split_from "" rest
unfolding split_from any_code
split_from-separator cur String.[] rest h =
    ap (split_from cur) (nil-append (String.◌++◌ "::" rest) ∙ separator rest)
    ∙ ap (λ x. x ∷ split_from "" rest) (sym (append-nil cur))
split_from-separator cur (String.◌∷◌ c s) rest h =
    ap (split_from cur) (cons-append c s (String.◌++◌ "::" rest))
    ∙ split_from-other cur c (String.◌++◌ s (String.◌++◌ "::" rest)) (ground arith)
    ∙ split_from-separator (push cur c) s rest (ground arith)
    ∙ ap (λ x. x ∷ split_from "" rest) (push-append cur c s)

split_from-last : (cur s : String) → has_colon s ≡ false → split_from cur s ≡ String.◌++◌ cur s ∷ []
unfolding split_from any_code
split_from-last cur String.[] h = ap (λ x. x ∷ []) (sym (append-nil cur))
split_from-last cur (String.◌∷◌ c s) h =
    split_from-other cur c s (ground arith)
    ∙ split_from-last (push cur c) s (ground arith)
    ∙ ap (λ x. x ∷ []) (push-append cur c s)

-- No segment holds a colon.
unfoldable pub ArePlain : List String → Type 0
unfolding any_code
ArePlain [] = Unit
ArePlain (s ∷ ss) = (has_colon s ≡ false) × ArePlain ss

-- Splitting what was joined gives the segments back.
pub split_name-join_name :
    (s : String) (ss : List String) → ArePlain (s ∷ ss) → split_name (join_name (s ∷ ss)) ≡ s ∷ ss
unfolding split_name join_name ArePlain
split_name-join_name s [] plain = split_from-last "" s plain.0 ∙ ap (λ x. x ∷ []) (nil-append s)
split_name-join_name s (t ∷ ts) plain =
    split_from-separator "" s (join_name (t ∷ ts)) plain.0
    ∙ ap (λ x. x ∷ split_name (join_name (t ∷ ts))) (nil-append s)
    ∙ ap (λ x. s ∷ x) (split_name-join_name t ts plain.1)
