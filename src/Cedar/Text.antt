-- ===== src/Cedar/Text.antt =====
-- What the crate `cedar_policy` documents of the texts of entity types and uids: how they are
-- printed, and that the parsers read the normal form that the printers write.
use Prim.Native.String
use treetop_core.Prelude.{
  ℕ, String, code, [], ◌∷◌, ◌++◌, some, Bool, true, false, ◌&&◌, ◌||◌, ◌==◌, nat_eq, leb, ◌≡◌, ◌≢◌,
  if◌then◌else◌,
}
use treetop_core.Names.{split_name}
use treetop_core.Cedar.{Cedar}

-- A letter, a digit, `_` or `:`, in ASCII.
unfoldable pub is_path_code : ℕ → Bool
is_path_code n =
    (leb b'a' n && leb n b'z')
    || (leb b'A' n && leb n b'Z')
    || (leb b'0' n && leb n b':')
    || (n == b'_')

-- The text is made of identifiers and colons.
unfoldable pub is_path : String → Bool
is_path String.[] = true
is_path (String.◌∷◌ c s) = is_path_code (code c) && is_path s

abbrev pub quote : ℕ
quote = b'"'

abbrev pub backslash : ℕ
backslash = b'\\'

-- No quote stands bare in the text, and no backslash ends it.
unfoldable pub is_escaped : String → Bool
is_escaped String.[] = true
is_escaped (String.◌∷◌ c String.[]) = if code c == backslash || code c == quote then false else true
is_escaped (String.◌∷◌ c (String.◌∷◌ d s)) =
    let after = is_escaped s in
    let same = is_escaped (String.◌∷◌ d s) in
    if code c == backslash then after else if code c == quote then false else same

-- `Type::"id"`, from the texts of the type and of the escaped id.
unfoldable pub uid_text : String → String → String
uid_text t e = String.◌++◌ t (String.◌++◌ "::\"" (String.◌++◌ e "\""))

pub record UidText (c : Cedar) : Type 0 where
  -- a type is a nonempty path of identifiers
  pub type_path : (s : String) (t : c.TypeName) → c.parse_type s ≡ some t → is_path s ≡ true
  pub type_nonempty : (s : String) (t : c.TypeName) → c.parse_type s ≡ some t → s ≢ ""
  pub type_segments :
      (s : String) (t : c.TypeName)
      → c.parse_type s ≡ some t
      → split_name s ≡ c.namespace_components t ++ (c.basename t ∷ [])
  -- `EntityId::escaped`
  pub escaped_quotes : (i : String) → is_escaped (c.escaped i) ≡ true
  -- `EntityUid`: its `Display`, and `str::parse` of what that writes
  pub show_uid_text :
      (s : String) (t : c.TypeName) (i : String)
      → c.parse_type s ≡ some t
      → c.show_uid (c.uid_of t i) ≡ uid_text s (c.escaped i)
  pub parse_uid_text :
      (s : String) (t : c.TypeName) (i : String)
      → c.parse_type s ≡ some t
      → c.parse_uid (uid_text s (c.escaped i)) ≡ some (c.uid_of t i)
  -- the type of a parsed uid has a text that parses
  pub parsed_type :
      (s : String) (u : c.Uid)
      → c.parse_uid s ≡ some u
      → (text : String) × (c.parse_type text ≡ some (c.type_name u))
