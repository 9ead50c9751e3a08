-- ===== src/Types/Resource.antt =====
-- src/types/resource.rs and src/types/request.rs
use treetop_core.Prelude.{String, Option, none, some, ◌==◌, string_eq, if◌then◌else◌}
use treetop_core.Error.{invalid_format, Result, ok, ◌>>=◌, ◌>>◌, fail_if, or_fail}
use treetop_core.Cedar.{Cedar}
use treetop_core.Types.Identity.{Principal, Action}
use treetop_core.Types.Attr.{AttrValue, to_re}

-- `BTreeMap<String, AttrValue>`, read by key.
abbrev pub AttrMap : Type 0
AttrMap = String → Option AttrValue

unfoldable pub remove : String → AttrMap → AttrMap
remove k attrs j = if k == j then none else attrs j

unfoldable pub insert : String → AttrValue → AttrMap → AttrMap
insert k v attrs j = if k == j then some v else attrs j

module _ (c : Cedar) where
  open c use {TypeName, parse_type, type_name, Uid, uid_of, Restricted, new_string}

  pub record Resource : Type 0 where
    pub kind : String
    pub id : String
    pub attrs : AttrMap
    pub uid : Uid

  unfoldable pub new_resource : String → String → Result Resource
  new_resource kind id = do
    fail_if (id == "") invalid_format
    t ← or_fail (parse_type kind) invalid_format
    ok (record { kind = kind; id = id; attrs = λ _. none; uid = uid_of t id })

  unfoldable pub with_attr : String → AttrValue → Resource → Resource
  unfolding insert
  with_attr k v r = record r { attrs = insert k v r.attrs }

  -- `id` is written last, over an attribute of that name.
  unfoldable pub cedar_attr : Resource → String → Option Restricted
  cedar_attr r k =
      if "id" == k
      then some (new_string r.id)
      else elim (r.attrs k) [ none ↦ none | some v ↦ some (to_re c v) ]

  -- `resource_entity_uid` of src/types/entity_uid.rs
  unfoldable pub resource_entity_uid : String → String → Result Uid
  resource_entity_uid kind id = do
    fail_if (id == "") invalid_format
    t ← or_fail (parse_type kind) invalid_format
    ok (uid_of t id)

  pub record Request : Type 0 where
    pub principal : Principal c
    pub action : Action c
    pub resource : Resource
