-- ===== src/Tests/Texts.antt =====
-- An instance of the interface whose types and uids have their texts: three types, and ids in which
-- quotes and backslashes are escaped.
use Prim.Native.String
use text.Mathlib.TextLemmas.{append_assoc, append-nil, nil-append, cons-append}
use treetop_core.Prelude.{
  ℕ, String, Char, code, List, [], ◌∷◌, ◌++◌, Option, none, some, Bool, true, false, ◌≡◌, ◌≢◌, refl,
  sym, ap, subst, ◌∙◌, arith, ◌==◌, nat_eq, string_eq, eq_iff, if◌then◌else◌, ◌||◌, inl, inr,
  Bool-cases,
}
use treetop_core.Names.{split_name}
use treetop_core.Cedar.{Cedar}
use treetop_core.Cedar.Text.{UidText, is_path, is_path_code, is_escaped, uid_text, quote, backslash}
use treetop_core.Tests.Orders.{Pair}
use treetop_core.Tests.Instance.{sample_cedar}

abbrev mark : Char
mark = "\""

abbrev slash : Char
slash = "\\"

abbrev colon : Char
colon = ":"

unfoldable escape : String → String
escape String.[] = ""
escape (String.◌∷◌ c s) =
    let rest = escape s in
    if code c == quote || code c == backslash
    then String.◌∷◌ slash (String.◌∷◌ c rest)
    else String.◌∷◌ c rest

abbrev keep_head : Char → Option String → Option String
keep_head c none = none
keep_head c (some s) = some (String.◌∷◌ c s)

-- The id before a quote that ends the text.
unfoldable unescape : Bool → String → Option String
unescape escaped String.[] = none
unescape true (String.◌∷◌ c s) = keep_head c (unescape false s)
unescape false (String.◌∷◌ c s) =
    let after = unescape true s in
    let same = keep_head c (unescape false s) in
    if code c == backslash
    then after
    else if code c == quote
    then if s == "" then some "" else none
    else same

abbrev parse_known : String → Option String
parse_known t =
    if t == "App::User"
    then some t
    else if t == "App::Group"
    then some t
    else if t == "App::Host"
    then some t
    else none

abbrev known_prefix : String → Option String
known_prefix p =
    if p == "App::User::"
    then some "App::User"
    else if p == "App::Group::"
    then some "App::Group"
    else if p == "App::Host::"
    then some "App::Host"
    else none

abbrev typed_uid : Option String → Option String → Option Pair
typed_uid none i = none
typed_uid (some t) none = none
typed_uid (some t) (some i) = some (t, i)

-- The text up to the first quote, and the id behind it.
unfoldable read_uid : String → String → Option Pair
unfolding unescape
read_uid before String.[] = none
read_uid before (String.◌∷◌ c s) =
    let here = typed_uid (known_prefix before) (unescape false s) in
    let later = read_uid (String.◌++◌ before (String.◌∷◌ c "")) s in
    if code c == quote then here else later

abbrev last_of : List String → String
last_of [] = ""
last_of (s ∷ []) = s
last_of (s ∷ t ∷ ts) = last_of (t ∷ ts)

abbrev init_of : List String → List String
init_of [] = []
init_of (s ∷ []) = []
init_of (s ∷ t ∷ ts) = s ∷ init_of (t ∷ ts)

unfoldable pub text_cedar : Cedar
unfolding split_name read_uid escape uid_text
text_cedar = record sample_cedar {
  parse_type = parse_known;
  namespace_components = λ t. init_of (split_name t);
  basename = λ t. last_of (split_name t);
  parse_uid = read_uid "";
  show_uid = λ u. uid_text u.0 (escape u.1);
  escaped = escape;
}

unescape-escape : (i : String) → unescape false (String.◌++◌ (escape i) "\"") ≡ some i
unfolding unescape escape
unescape-escape String.[] = refl
unescape-escape (String.◌∷◌ c s) = elim (Bool-cases (code c == quote || code c == backslash)) [
  | inl h ↦
      rw (h, cons-append slash (String.◌∷◌ c (escape s)) "\"", cons-append c (escape s) "\"")
        (ap (keep_head c) (unescape-escape s))
  | inr h ↦ rw (h, cons-append c (escape s) "\"") (ground (arith, unescape-escape s))
]

is_escaped-cons :
    (c : Char) (s : String)
    → (code c == quote || code c == backslash) ≡ false
    → is_escaped s ≡ true
    → is_escaped (String.◌∷◌ c s) ≡ true
unfolding is_escaped
is_escaped-cons c String.[] h k = ground arith
is_escaped-cons c (String.◌∷◌ d s) h k = ground arith

escape-is_escaped : (i : String) → is_escaped (escape i) ≡ true
unfolding is_escaped escape
escape-is_escaped String.[] = refl
escape-is_escaped (String.◌∷◌ c s) = elim (Bool-cases (code c == quote || code c == backslash)) [
  | inl h ↦ rw h (escape-is_escaped s)
  | inr h ↦ rw h (is_escaped-cons c (escape s) h (escape-is_escaped s))
]

read_uid-opening :
    (before rest : String)
    → read_uid before (String.◌++◌ "::\"" rest)
      ≡ typed_uid (known_prefix (String.◌++◌ (String.◌++◌ before ":") ":")) (unescape false rest)
unfolding read_uid
read_uid-opening before rest = ap (read_uid before) (
    cons-append colon ":\"" rest
    ∙ ap (String.◌∷◌ colon) (cons-append colon "\"" rest)
    ∙ ap (λ s. String.◌∷◌ colon (String.◌∷◌ colon s))
        (cons-append mark "" rest ∙ ap (String.◌∷◌ mark) (nil-append rest)))

path-quote : (n : ℕ) → is_path_code n ≡ true → (n == quote) ≡ false
unfolding is_path_code
path-quote n h = ground arith

read_uid-path :
    (before t rest : String)
    → is_path t ≡ true
    → read_uid before (String.◌++◌ t (String.◌++◌ "::\"" rest))
      ≡ typed_uid
          (known_prefix (String.◌++◌ (String.◌++◌ (String.◌++◌ before t) ":") ":"))
          (unescape false rest)
unfolding read_uid is_path
read_uid-path before String.[] rest h =
    ap (read_uid before) (nil-append (String.◌++◌ "::\"" rest))
    ∙ read_uid-opening before rest
    ∙ ap (λ x. typed_uid (known_prefix (String.◌++◌ (String.◌++◌ x ":") ":")) (unescape false rest))
        (sym (append-nil before))
read_uid-path before (String.◌∷◌ c t) rest h =
    ap (read_uid before) (cons-append c t (String.◌++◌ "::\"" rest))
    ∙ rw (path-quote (code c) (ground arith)) (
        read_uid-path (String.◌++◌ before (String.◌∷◌ c "")) t rest (ground arith)
        ∙ ap
            (λ x.
              typed_uid (known_prefix (String.◌++◌ (String.◌++◌ x ":") ":")) (unescape false rest))
            (append_assoc before (String.◌∷◌ c "") t
              ∙ ap (String.◌++◌ before) (cons-append c "" t ∙ ap (String.◌∷◌ c) (nil-append t))))

-- To prove something of the types that parse: of each of the three.
known-cases :
    (P : String → Type 0) (s t : String)
    → parse_known s ≡ some t
    → P "App::User"
    → P "App::Group"
    → P "App::Host"
    → P s × (t ≡ s)
known-cases P s t h u g r =
    let same : t ≡ s = ground arith in
    elim (Bool-cases (s == "App::User")) [
      | inl e ↦ (subst P (sym ((eq_iff s "App::User").0 e)) u, same)
      | inr e ↦ elim (Bool-cases (s == "App::Group")) [
        | inl f ↦ (subst P (sym ((eq_iff s "App::Group").0 f)) g, same)
        | inr f ↦
            let last : s ≡ "App::Host" = ground (arith, eq_iff s "App::Host") in
            (subst P (sym last) r, same)
      ]
    ]

reads :
    (s i : String)
    → is_path s ≡ true
    → known_prefix (String.◌++◌ (String.◌++◌ (String.◌++◌ "" s) ":") ":") ≡ some s
    → read_uid "" (uid_text s (escape i)) ≡ some (s, i)
unfolding uid_text
reads s i path known =
    read_uid-path "" s (String.◌++◌ (escape i) "\"") path ∙ rw (known, unescape-escape i) refl

typed_uid-parse_known :
    (p : String) (o : Option String) (u : Pair)
    → typed_uid (known_prefix p) o ≡ some u
    → parse_known u.0 ≡ some u.0
typed_uid-parse_known p none u h = absurd (ground arith)
typed_uid-parse_known p (some i) u h = elim (Bool-cases (p == "App::User::")) [
  | inl e ↦
      let own : "App::User" ≡ u.0 = cc (rw e at h) in subst (λ x. parse_known x ≡ some x) own refl
  | inr e ↦ elim (Bool-cases (p == "App::Group::")) [
    | inl f ↦
        let own : "App::Group" ≡ u.0 = cc (rw (e, f) at h) in
        subst (λ x. parse_known x ≡ some x) own refl
    | inr f ↦ elim (Bool-cases (p == "App::Host::")) [
      | inl g ↦
          let own : "App::Host" ≡ u.0 = cc (rw (e, f, g) at h) in
          subst (λ x. parse_known x ≡ some x) own refl
      | inr g ↦ absurd (cc (rw (e, f, g) at h))
    ]
  ]
]

read_uid-parse_known :
    (before s : String) (u : Pair) → read_uid before s ≡ some u → parse_known u.0 ≡ some u.0
unfolding read_uid
read_uid-parse_known before String.[] u h = absurd (ground arith)
read_uid-parse_known before (String.◌∷◌ c s) u h = elim (Bool-cases (code c == quote)) [
  | inl e ↦ typed_uid-parse_known before (unescape false s) u (rw e at h)
  | inr e ↦ read_uid-parse_known (String.◌++◌ before (String.◌∷◌ c "")) s u (rw e at h)
]

pub differ : (s t : String) → (s == t) ≡ false → s ≢ t
differ s t h e = cc (h, (eq_iff s t).1 e)

abbrev Splits : String → Type 0
Splits s = split_name s ≡ init_of (split_name s) ++ (last_of (split_name s) ∷ [])

pub text_laws : UidText text_cedar
unfolding text_cedar is_path is_path_code split_name uid_text
text_laws = record {
  type_path = λ s t h. (known-cases (λ x. is_path x ≡ true) s t h refl refl refl).0;
  type_nonempty = λ s t h.
      (known-cases (λ x. x ≢ "") s t h (differ "App::User" "" refl) (differ "App::Group" "" refl)
        (differ "App::Host" "" refl)).0;
  type_segments = λ s t h.
      let (splits, same) = known-cases Splits s t h refl refl refl in
      subst (λ x. split_name s ≡ init_of (split_name x) ++ (last_of (split_name x) ∷ [])) (sym same)
        splits;
  escaped_quotes = escape-is_escaped;
  show_uid_text =
      λ s t i h. ap (λ x. uid_text x (escape i)) (known-cases (λ x. Unit {0}) s t h tt tt tt).1;
  parse_uid_text = λ s t i h.
      let (reads_it, same) =
        known-cases (λ x. read_uid "" (uid_text x (escape i)) ≡ some (x, i)) s t h
          (reads "App::User" i refl refl) (reads "App::Group" i refl refl)
          (reads "App::Host" i refl refl) in
      reads_it ∙ ap (λ x. some (x, i)) (sym same);
  parsed_type = λ s u h. (u.0, read_uid-parse_known "" s u h);
}
