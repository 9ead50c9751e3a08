-- ===== src/Types/Attr.antt =====
-- src/types/attr_value.rs and src/types/request_context.rs
use treetop_core.Prelude.{String, List, [], ◌∷◌, Option, none, some, Bool, string_eq}
use treetop_core.Prelude.Int.{ℤ}
use treetop_core.Prelude.Assoc.{put}
use treetop_core.Error.{context_error, invalid_format, Result, ok, ◌>>=◌, or_fail}
use treetop_core.Cedar.{Cedar}

-- `AttrValue`; the text of an `ip` is a validated `CedarIp`.
mutual
  pub data AttrValue : Type 0 where
    string : String → AttrValue
    bool : Bool → AttrValue
    long : ℤ → AttrValue
    ip : String → AttrValue
    set : AttrValues → AttrValue

  pub data AttrValues : Type 0 where
    nil : AttrValues
    cons : AttrValue → AttrValues → AttrValues

-- `RequestContext`: a map from keys to values, with no order.
abbrev pub RequestContext : Type 0
RequestContext = List (String × AttrValue)

-- `RequestContext::insert`
unfoldable pub insert : String → AttrValue → RequestContext → RequestContext
unfolding put
insert key value context = put key value context

module _ (c : Cedar) where
  open c use {
    Restricted, new_string, new_bool, new_long, new_ip, new_set, Context, empty_context, from_pairs,
  }

  unfoldable mutual
    pub to_re : AttrValue → Restricted
    to_re (string s) = new_string s
    to_re (bool b) = new_bool b
    to_re (long n) = new_long n
    to_re (ip a) = new_ip a
    to_re (set vs) = new_set (to_re_all vs)

    pub to_re_all : AttrValues → List Restricted
    to_re_all nil = []
    to_re_all (cons v vs) = to_re v ∷ to_re_all vs

  -- `CedarIp::new`: the text is accepted where Cedar accepts it in a context.
  unfoldable pub new_ip_value : String → Result AttrValue
  new_ip_value text = do
    _ ← or_fail (from_pairs (("ip", new_ip text) ∷ [])) invalid_format
    ok (ip text)

  unfoldable pub to_pairs : RequestContext → List (String × Restricted)
  unfolding to_re
  to_pairs [] = []
  to_pairs ((key, value) ∷ rest) = (key, to_re value) ∷ to_pairs rest

  unfoldable pub to_cedar_context : RequestContext → Result Context
  unfolding to_pairs
  to_cedar_context context = or_fail (from_pairs (to_pairs context)) context_error

  -- `build_effective_context` of src/engine.rs
  unfoldable pub build_effective_context : Option RequestContext → Result Context
  unfolding to_cedar_context
  build_effective_context none = ok empty_context
  build_effective_context (some []) = ok empty_context
  build_effective_context (some (entry ∷ rest)) = to_cedar_context (entry ∷ rest)
