-- ===== src/Tests/Labels.antt =====
-- A registry with one labeler, and a resource on which its attribute is forged.
use treetop_core.Prelude.{List, [], ◌∷◌, none, some, ◌≡◌, ◌↔◌, refl, arith}
use treetop_core.Prelude.Assoc.{get}
use treetop_core.Prelude.Texts.{is_blank}
use treetop_core.Error.{ok}
use treetop_core.Types.Attr.{string}
use treetop_core.Types.Resource.{Resource, insert}
use treetop_core.Labels.{
  Labeler, RegisteredLabeler, LabelRegistry, LabelRegistryBuilder, registered, scope_of, apply,
  build, or_nil, new_version, checked_version, register_all, push_scope,
}
use treetop_core.Labels.Apply.{AgreeOutside}
use treetop_core.Labels.Registry.{owns, apply-AgreeOutside, apply-unforgeable, apply-apply}
use treetop_core.Labels.Build.{
  HaveDistinctTargets, IsVersion, labelers_of, build_iff, build-labelers_of,
}
use treetop_core.Tests.Instance.{sample_cedar}

abbrev pub sample_labeler : Labeler sample_cedar
sample_labeler = record {
  target = record { resource_type = "App::Host"; attribute = "labels"; entity_type = "App::Host" };
  derive = λ r. r.attrs "name";
}

abbrev pub sample_scope : List (RegisteredLabeler sample_cedar)
sample_scope = registered sample_cedar sample_labeler ∷ []

abbrev pub sample_registry : LabelRegistry sample_cedar
sample_registry = record { version = some "v1"; scopes = ("App::Host", sample_scope) ∷ [] }

abbrev sample_builder : LabelRegistryBuilder sample_cedar
sample_builder = record { version = some "v1"; labelers = sample_labeler ∷ [] }

abbrev pub named_host : Resource sample_cedar
named_host = record {
  kind = "App::Host";
  id = "h1";
  attrs = insert "name" (string "db1") (λ k. none);
  uid = ("App::Host", "h1");
}

abbrev pub forged_host : Resource sample_cedar
forged_host = record {
  kind = "App::Host";
  id = "h1";
  attrs = insert "labels" (string "trusted") (insert "name" (string "db1") (λ k. none));
  uid = ("App::Host", "h1");
}

pub named_host-scope : scope_of sample_cedar sample_registry named_host ≡ some sample_scope
unfolding get
named_host-scope = refl

pub named-forged :
    AgreeOutside sample_cedar (owns sample_cedar sample_registry named_host) named_host forged_host
unfolding owns insert get
named-forged = record { kind = refl; id = refl; uid = refl; attrs = λ j h. ground arith }

apply-unforgeable_example :
    apply sample_cedar sample_registry named_host ≡ apply sample_cedar sample_registry forged_host
apply-unforgeable_example =
    apply-unforgeable sample_cedar sample_registry named_host forged_host named_host-scope
      named-forged

apply-AgreeOutside_example :
    AgreeOutside sample_cedar
      (owns sample_cedar sample_registry forged_host)
      (apply sample_cedar sample_registry forged_host)
      forged_host
apply-AgreeOutside_example = apply-AgreeOutside sample_cedar sample_registry forged_host

apply-apply_example :
    apply sample_cedar sample_registry (apply sample_cedar sample_registry forged_host)
    ≡ apply sample_cedar sample_registry forged_host
apply-apply_example = apply-apply sample_cedar sample_registry forged_host

build_iff_example :
    ((registry : LabelRegistry sample_cedar) × (build sample_cedar sample_builder ≡ ok registry))
    ↔ (IsVersion sample_cedar (some "v1") × HaveDistinctTargets sample_cedar (sample_labeler ∷ []))
build_iff_example = build_iff sample_cedar sample_builder

sample_builder-build : build sample_cedar sample_builder ≡ ok sample_registry
unfolding build checked_version new_version register_all push_scope get is_blank
sample_builder-build = refl

build-labelers_of_example :
    or_nil sample_cedar (get ⦃e = sample_cedar.type_eq⦄ "App::Host" sample_registry.scopes)
    ≡ labelers_of sample_cedar "App::Host" (sample_labeler ∷ [])
build-labelers_of_example =
    build-labelers_of sample_cedar sample_builder sample_registry "App::Host" sample_builder-build
