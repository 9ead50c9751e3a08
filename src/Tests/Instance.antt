-- ===== src/Tests/Instance.antt =====
-- A concrete instance of the interfaces: types are texts, uids are pairs of texts, a policy set is a
-- list read without the policies whose id came before.
use treetop_core.Prelude.{
  String, List, [], ◌∷◌, map, Option, none, some, Bool, true, false, any, ◌≡◌, ◌↔◌, ◌⊎◌, inl, inr,
  refl, sym, ap, subst, ◌∙◌, arith, string_eq, eq_iff, ◌==◌, Member, Bool-cases, if◌then◌else◌,
}
use treetop_core.Cedar.{Cedar}
use treetop_core.Cedar.Syntax.{
  Effect, permit, forbid, PrincipalConstraint, ActionConstraint, ResourceConstraint, Body,
}
use treetop_core.Cedar.Authorization.{Authorization, Response, allow, deny}
use treetop_core.Tests.Orders.{text_order, Pair, pair_eq, pair_order}

pub record SamplePolicy : Type 0 where
  pub id : String
  pub effect : Effect
  pub annotation : String → Option String
  pub principal : PrincipalConstraint Pair String
  pub action : ActionConstraint Pair
  pub resource : ResourceConstraint Pair String
  pub body : Option Body

abbrev pub has_id : String → List SamplePolicy → Bool
has_id i ps = any (λ (p : SamplePolicy). p.id == i) ps

abbrev pub distinct : List SamplePolicy → List SamplePolicy
distinct [] = []
distinct (p ∷ ps) = let rest = distinct ps in if has_id p.id rest then rest else p ∷ rest

abbrev pub add_policy : List SamplePolicy → SamplePolicy → Option (List SamplePolicy)
add_policy ps p = if has_id p.id (distinct ps) then none else some (p ∷ ps)

has_id-Member :
    (i : String) (p : SamplePolicy) (ps : List SamplePolicy)
    → Member p ps
    → p.id ≡ i
    → has_id i ps ≡ true
has_id-Member i p [] at e = absurd at
has_id-Member i p (q ∷ qs) at e = elim at [
  | inl own ↦
      let same : q.id ≡ i = ap (λ (x : SamplePolicy). x.id) (sym own) ∙ e in
      ground (arith, eq_iff q.id i)
  | inr deep ↦ ground (arith, has_id-Member i p qs deep e)
]

has_id-false :
    (i : String) (ps : List SamplePolicy)
    → ((q : SamplePolicy) → Member q ps → ¬ (q.id ≡ i))
    → has_id i ps ≡ false
has_id-false i [] h = refl
has_id-false i (p ∷ ps) h =
    let other : ¬ (p.id ≡ i) = h p (inl refl) in
    ground (arith, eq_iff p.id i, has_id-false i ps (λ q m. h q (inr m)))

pub distinct-identify :
    (ps : List SamplePolicy) (p q : SamplePolicy)
    → Member p (distinct ps)
    → Member q (distinct ps)
    → p.id ≡ q.id
    → p ≡ q
distinct-identify [] p q at at' e = absurd at
distinct-identify (r ∷ rs) p q at at' e = elim (Bool-cases (has_id r.id (distinct rs))) [
  | inl h ↦ distinct-identify rs p q (ground arith) (ground arith) e
  | inr h ↦
      let split : (p ≡ r) ⊎ Member p (distinct rs) = ground arith in
      let split' : (q ≡ r) ⊎ Member q (distinct rs) = ground arith in
      elim split [
        | inl own ↦ elim split' [
          | inl own' ↦ own ∙ sym own'
          | inr deep' ↦ absurd (
              cc (
                h,
                has_id-Member r.id q (distinct rs) deep'
                    (sym e ∙ ap (λ (x : SamplePolicy). x.id) own),
              ))
        ]
        | inr deep ↦ elim split' [
          | inl own' ↦ absurd (
              cc (
                h,
                has_id-Member r.id p (distinct rs) deep (e ∙ ap (λ (x : SamplePolicy). x.id) own'),
              ))
          | inr deep' ↦ distinct-identify rs p q deep deep' e
        ]
      ]
]

pub add_policy-distinct :
    (s t : List SamplePolicy) (p q : SamplePolicy)
    → add_policy s p ≡ some t
    → Member q (distinct t) ↔ ((q ≡ p) ⊎ Member q (distinct s))
add_policy-distinct s t p q h = elim (Bool-cases (has_id p.id (distinct s))) [
  | inl e ↦ absurd (ground arith)
  | inr e ↦
      let same : p ∷ s ≡ t = ground arith in
      let shape : distinct (p ∷ s) ≡ p ∷ distinct s = rw e refl in
      subst (λ u. Member q u ↔ ((q ≡ p) ⊎ Member q (distinct s))) (sym shape ∙ ap distinct same)
        (λ m. m, λ m. m)
]

pub add_policy_fresh :
    (s : List SamplePolicy) (p : SamplePolicy)
    → ((q : SamplePolicy) → Member q (distinct s) → ¬ (q.id ≡ p.id))
    → (t : List SamplePolicy) × (add_policy s p ≡ some t)
add_policy_fresh s p h = (p ∷ s, rw (has_id-false p.id (distinct s) h) refl)

abbrev pub sample_cedar : Cedar
sample_cedar = record {
  TypeName = String;
  type_eq = string_eq;
  parse_type = λ t. if t == "" then none else some t;
  show_type = λ t. t;
  namespace_components = λ t. [];
  basename = λ t. t;
  Uid = Pair;
  uid_eq = pair_eq;
  uid_of = λ t i. (t, i);
  type_name = λ u. u.0;
  entity_id = λ u. u.1;
  parse_uid = λ t. none;
  show_uid = λ u. u.1;
  escaped = λ s. s;
  uid_order = pair_order;
  type_name-uid_of = λ t i. refl;
  entity_id-uid_of = λ t i. refl;
  Restricted = String;
  new_string = λ s. s;
  new_bool = λ b. "bool";
  new_long = λ n. "long";
  new_ip = λ s. s;
  new_set = λ vs. "set";
  new_record = λ fields. some "record";
  Context = List (String × String);
  empty_context = [];
  from_pairs = λ pairs. some pairs;
  Policy = SamplePolicy;
  policy_id = λ (p : SamplePolicy). p.id;
  id_order = text_order;
  effect = λ (p : SamplePolicy). p.effect;
  annotation = λ (p : SamplePolicy). p.annotation;
  principal_constraint = λ (p : SamplePolicy). p.principal;
  action_constraint = λ (p : SamplePolicy). p.action;
  resource_constraint = λ (p : SamplePolicy). p.resource;
  to_pst = λ (p : SamplePolicy). p.body;
  PolicySet = List SamplePolicy;
  new_set_of_policies = [];
  policies = distinct;
  add = add_policy;
  ids_identify = distinct-identify;
  policies-new = refl;
  policies-add = add_policy-distinct;
  add_fresh = add_policy_fresh;
}

abbrev pub no_annotation : String → Option String
no_annotation key = none

-- A permit of everything, whose body names one type.
abbrev pub permit_all : String → String → SamplePolicy
permit_all i type_text = record {
  id = i;
  effect = permit;
  annotation = no_annotation;
  principal = PrincipalConstraint.any;
  action = ActionConstraint.any;
  resource = ResourceConstraint.any;
  body = some (record {
    principal = PrincipalConstraint.any;
    action = ActionConstraint.any;
    resource = ResourceConstraint.is type_text;
    clauses = [];
  });
}

abbrev pub has_permit : List SamplePolicy → Bool
has_permit ps = any (λ (p : SamplePolicy). elim p.effect [ permit ↦ true | forbid ↦ false ]) ps

abbrev pub ids_of : List SamplePolicy → List String
ids_of ps = map (λ (p : SamplePolicy). p.id) ps

abbrev pub respond : List SamplePolicy → Response
respond ps =
    if has_permit ps
    then record { decision = allow; reason = ids_of ps }
    else record { decision = deny; reason = ids_of ps }

abbrev pub sample_authorization : Authorization sample_cedar
sample_authorization = record {
  Json = String;
  member = λ j k. none;
  as_str = λ j. some j;
  parse_json_string = λ t. some t;
  to_json = λ (p : SamplePolicy). some p.id;
  show_policy = λ (p : SamplePolicy). p.id;
  parse_policies = λ t. if t == "" then none else some (permit_all t "App::Host" ∷ []);
  Schema = String;
  parse_schema = λ t. some t;
  validate = λ s schema. record { has_invalid_action = false; passed = true };
  digest = λ t. [];
  CedarRequest = Pair;
  new_request = λ p a r context schema. some (p.1, r.1);
  Entity = Pair × (String → Option String);
  with_uid = λ u. (u, λ k. none);
  new_entity = λ u attrs parents. some (u, attrs);
  Entities = List (Pair × (String → Option String));
  add_entities = λ es schema. some es;
  is_authorized = λ request s es. respond (distinct s);
}
