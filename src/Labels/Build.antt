-- ===== src/Labels/Build.antt =====
-- What `LabelRegistryBuilder::build` of src/labels.rs accepts, and the registry that it builds.
use treetop_core.Prelude.{
  String, List, [], ◌∷◌, ◌++◌, Option, none, some, true, false, string_eq, ◌≡◌, refl, arith, ◌∙◌,
  sym, ap, subst, Bool-cases, inl, inr, ◌↔◌, ◌≢◌, eq_iff, Member, keep, map, any,
}
use treetop_core.Prelude.Assoc.{get, get-put}
use treetop_core.Prelude.Texts.{is_blank}
use treetop_core.Error.{label_config_error, ok, >>=-eq-ok, fail_if-eq-ok}
use treetop_core.Cedar.{Cedar}
use treetop_core.Labels.{
  LabelTarget, Labeler, RegisteredLabeler, LabelRegistry, LabelRegistryBuilder, same_target, or_nil,
  registered, push_scope, register_all, checked_version, build,
}

append_nil {ℓ} : {A : Type ℓ} (xs : List A) → xs ++ [] ≡ xs
append_nil [] = refl
append_nil (x ∷ xs) = ap (λ ys. x ∷ ys) (append_nil xs)

append_assoc {ℓ} : {A : Type ℓ} (xs ys zs : List A) → (xs ++ ys) ++ zs ≡ xs ++ (ys ++ zs)
append_assoc [] ys zs = refl
append_assoc (x ∷ xs) ys zs = ap (λ ws. x ∷ ws) (append_assoc xs ys zs)

module _ (c : Cedar) where
  open c use {TypeName, type_eq}

  -- The labelers of one type, in the order in which they were added.
  unfoldable pub labelers_of : TypeName → List (Labeler c) → List (RegisteredLabeler c)
  labelers_of t ls =
      map (registered c) (keep (λ (l : Labeler c). type_eq.beq l.target.entity_type t) ls)

  -- No two labelers have one target.
  unfoldable pub HaveDistinctTargets : List (Labeler c) → Type 0
  HaveDistinctTargets [] = Unit
  HaveDistinctTargets (l ∷ ls) =
      ((m : Labeler c) → Member m ls → m.target ≢ l.target) × HaveDistinctTargets ls

  target-ext :
      {a b : LabelTarget c}
      → a.resource_type ≡ b.resource_type
      → a.attribute ≡ b.attribute
      → a.entity_type ≡ b.entity_type
      → a ≡ b
  target-ext r a t = λ i. record { resource_type = r i; attribute = a i; entity_type = t i }

  same_target_iff : (a b : LabelTarget c) → (same_target c a b ≡ true) ↔ (a ≡ b)
  same_target_iff a b = (
    λ h.
        target-ext (ground (arith, eq_iff a.resource_type b.resource_type))
          (ground (arith, eq_iff a.attribute b.attribute))
          (ground (arith, type_eq.beq_iff a.entity_type b.entity_type)),
    λ h.
        subst (λ b. same_target c a b ≡ true) h
          (ground (
            arith,
            eq_iff a.resource_type a.resource_type,
            eq_iff a.attribute a.attribute,
            type_eq.beq_iff a.entity_type a.entity_type,
          )),
  )

  any-same_target :
      (t : LabelTarget c) (ts : List (LabelTarget c))
      → (any (same_target c t) ts ≡ false) ↔ ((u : LabelTarget c) → Member u ts → t ≢ u)
  any-same_target t [] = (λ h u m. absurd m, λ h. refl)
  any-same_target t (u ∷ us) =
      let rest = any-same_target t us in
      (
        λ h v m e. elim m [
          | inl p ↦ ground (arith, same_target_iff t u)
          | inr q ↦ rest.0 (ground arith) v q e
        ],
        λ h. elim (Bool-cases (same_target c t u)) [
          | inl p ↦ absurd (h u (inl refl) ((same_target_iff t u).0 p))
          | inr p ↦ rw p (rest.1 (λ v m. h v (inr m)))
        ],
      )

  push_scope-get :
      (l : Labeler c) (scopes : List (TypeName × List (RegisteredLabeler c))) (t : TypeName)
      → or_nil c (get ⦃e = type_eq⦄ t (push_scope c l scopes))
        ≡ or_nil c (get ⦃e = type_eq⦄ t scopes) ++ labelers_of t (l ∷ [])
  unfolding push_scope labelers_of
  push_scope-get l scopes t =
      let own = l.target.entity_type in
      let pushed = or_nil c (get ⦃e = type_eq⦄ own scopes) ++ registered c l ∷ [] in
      rw (get-put ⦃e = type_eq⦄ own t pushed scopes) (elim (Bool-cases (type_eq.beq own t)) [
        | inl p ↦ rw p (
            ap (λ u. or_nil c (get ⦃e = type_eq⦄ u scopes) ++ registered c l ∷ [])
              ((type_eq.beq_iff own t).0 p))
        | inr p ↦ rw p (sym (append_nil (or_nil c (get ⦃e = type_eq⦄ t scopes))))
      ])

  labelers_of-cons :
      (t : TypeName) (l : Labeler c) (ls : List (Labeler c))
      → labelers_of t (l ∷ ls) ≡ labelers_of t (l ∷ []) ++ labelers_of t ls
  unfolding labelers_of
  labelers_of-cons t l ls = elim (Bool-cases (type_eq.beq l.target.entity_type t)) [
    | inl p ↦ rw p refl
    | inr p ↦ rw p refl
  ]

  register_all-get :
      (ls : List (Labeler c)) (targets : List (LabelTarget c))
      (scopes out : List (TypeName × List (RegisteredLabeler c))) (t : TypeName)
      → register_all c ls targets scopes ≡ ok out
      → or_nil c (get ⦃e = type_eq⦄ t out)
        ≡ or_nil c (get ⦃e = type_eq⦄ t scopes) ++ labelers_of t ls
  unfolding register_all labelers_of
  register_all-get [] targets scopes out t h =
      let same : scopes ≡ out = cc h in
      rw same (sym (append_nil (or_nil c (get ⦃e = type_eq⦄ t out))))
  register_all-get (l ∷ ls) targets scopes out t h =
      let (_, h') = fail_if-eq-ok (any (same_target c l.target) targets) label_config_error _ h in
      register_all-get ls (l.target ∷ targets) (push_scope c l scopes) out t h'
      ∙ ap (λ xs. xs ++ labelers_of t ls) (push_scope-get l scopes t)
      ∙ append_assoc (or_nil c (get ⦃e = type_eq⦄ t scopes)) (labelers_of t (l ∷ []))
          (labelers_of t ls)
      ∙ ap (λ xs. or_nil c (get ⦃e = type_eq⦄ t scopes) ++ xs) (sym (labelers_of-cons t l ls))

  -- The loop succeeds where the labelers' targets differ from each other and from those seen.
  register_all_iff :
      (ls : List (Labeler c)) (targets : List (LabelTarget c))
      (scopes : List (TypeName × List (RegisteredLabeler c)))
      → ((out : List (TypeName × List (RegisteredLabeler c))) × (register_all c ls targets scopes
            ≡ ok out))
        ↔ (((m : Labeler c) → Member m ls → (t : LabelTarget c) → Member t targets → m.target ≢ t)
            × HaveDistinctTargets ls)
  unfolding register_all HaveDistinctTargets
  register_all_iff [] targets scopes = (λ h. (λ m a. absurd a, tt), λ h. (scopes, refl))
  register_all_iff (l ∷ ls) targets scopes =
      let seen = any-same_target l.target targets in
      let rest = register_all_iff ls (l.target ∷ targets) (push_scope c l scopes) in
      (
        λ (out, h).
            let (new, h') =
              fail_if-eq-ok (any (same_target c l.target) targets) label_config_error _ h in
            let (fresh, distinct) = rest.0 (out, h') in
            (
              λ m a t b. elim a [
                | inl p ↦ λ e. seen.0 new t b (ap (λ (x : Labeler c). x.target) (sym p) ∙ e)
                | inr q ↦ fresh m q t (inr b)
              ],
              (λ m a. fresh m a l.target (inl refl), distinct),
            ),
        λ (fresh, (own, distinct)).
            let new = seen.1 (fresh l (inl refl)) in
            let (out, h) = rest.1 (
              λ m a t b. elim b [ inl p ↦ λ e. own m a (e ∙ p) | inr q ↦ fresh m (inr a) t q ],
              distinct,
            ) in
            (out, rw new h),
      )

  -- A registry that `build` returns holds, for each type, exactly the labelers added for that type,
  -- in the order in which they were added.
  pub build-labelers_of :
      (b : LabelRegistryBuilder c) (registry : LabelRegistry c) (t : TypeName)
      → build c b ≡ ok registry
      → or_nil c (get ⦃e = type_eq⦄ t registry.scopes) ≡ labelers_of t b.labelers
  unfolding build get
  build-labelers_of b registry t h =
      let (version, _, h1) = >>=-eq-ok (checked_version b.version) _ h in
      let (scopes, run, h2) = >>=-eq-ok (register_all c b.labelers [] []) _ h1 in
      let same : scopes ≡ registry.scopes = cc h2 in
      subst (λ s. or_nil c (get ⦃e = type_eq⦄ t s) ≡ labelers_of t b.labelers) same
        (register_all-get b.labelers [] [] scopes t run)

  -- The version, where one is given, is not blank.
  unfoldable pub IsVersion : Option String → Type 0
  IsVersion none = Unit
  IsVersion (some text) = is_blank text ≡ false

  checked_version_iff :
      (v : Option String) → ((w : Option String) × (checked_version v ≡ ok w)) ↔ IsVersion v
  unfolding checked_version IsVersion
  checked_version_iff none = (λ h. tt, λ h. (none, refl))
  checked_version_iff (some text) = elim (Bool-cases (is_blank text)) [
    | inl p ↦ (λ (w, h). ground arith, λ h. ground arith)
    | inr p ↦ (λ h. p, λ h. (some text, ground arith))
  ]

  -- `build` succeeds exactly when the version, if given, is not blank and no two labelers have one
  -- target.
  pub build_iff :
      (b : LabelRegistryBuilder c)
      → ((registry : LabelRegistry c) × (build c b ≡ ok registry))
        ↔ (IsVersion b.version × HaveDistinctTargets b.labelers)
  unfolding build
  build_iff b =
      let versions = checked_version_iff b.version in
      let loop = register_all_iff b.labelers [] [] in
      (
        λ (registry, h).
            let (version, v, h1) = >>=-eq-ok (checked_version b.version) _ h in
            let (scopes, run, _) = >>=-eq-ok (register_all c b.labelers [] []) _ h1 in
            (versions.0 (version, v), (loop.0 (scopes, run)).1),
        λ (v, distinct).
            let (version, checked) = versions.1 v in
            let (scopes, run) = loop.1 (λ m a t b. absurd b, distinct) in
            (record { version = version; scopes = scopes }, rw (checked, run) refl),
      )
