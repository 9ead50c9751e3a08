-- ===== src/Error.antt =====
-- src/error.rs: the variants of `PolicyError`, and results that may carry one. The message texts
-- are not modelled.
use treetop_core.Prelude.{◌≡◌, ◌⊎◌, inl, inr, refl, Bool, true, false, Option, none, some}

pub data PolicyError : Type 0 where
  parse_error eval_error request_validation_error context_error : PolicyError
  entity_error invalid_format entity_attr_error : PolicyError
  policy_store_config_error policy_store_routing_error label_config_error : PolicyError

pub data Result {ℓ} (V : Type ℓ) : Type ℓ where
  err : PolicyError → Result V
  ok : V → Result V

-- `result.map_err(…)` and `option.ok_or_else(…)`, on a value that may be missing
abbrev pub or_fail {ℓ} : {V : Type ℓ} → Option V → PolicyError → Result V
or_fail none e = err e
or_fail (some v) e = ok v

-- The operator `?`.
infixl 5 ◌>>=◌
abbrev pub ◌>>=◌ {ℓ κ} : {V : Type ℓ} {W : Type κ} → Result V → (V → Result W) → Result W
err e >>= next = err e
ok v >>= next = next v

-- `if test { return Err(e) }`
abbrev pub fail_if : Bool → PolicyError → Result (Unit {0})
fail_if true e = err e
fail_if false e = ok tt

infixl 5 ◌>>◌
abbrev pub ◌>>◌ {ℓ} : {W : Type ℓ} → Result (Unit {0}) → Result W → Result W
check >> rest = check >>= λ _. rest

-- Inversion of a successful bind.
pub >>=-eq-ok {ℓ κ} :
    {V : Type ℓ} {W : Type κ} (first : Result V) (next : V → Result W) {w : W}
    → (first >>= next) ≡ ok w
    → (v : V) × (first ≡ ok v) × (next v ≡ ok w)
>>=-eq-ok (err e) next h = cc
>>=-eq-ok (ok v) next h = (v, refl, h)

pub fail_if-eq-ok {ℓ} :
    {A : Type ℓ} (b : Bool) (e : PolicyError) (k : Result A) {r : A}
    → (fail_if b e >> k) ≡ ok r
    → (b ≡ false) × (k ≡ ok r)
fail_if-eq-ok true e k h = cc
fail_if-eq-ok false e k h = (refl, h)

-- To split on a computed result and keep the equation.
pub Result-cases {ℓ} :
    {A : Type ℓ} (m : Result A) → ((e : PolicyError) × (m ≡ err e)) ⊎ ((a : A) × (m ≡ ok a))
Result-cases (ok a) = inr (a, refl)
Result-cases (err e) = inl (e, refl)

pub ok-inj {ℓ} : {A : Type ℓ} {a b : A} → ok a ≡ ok b → a ≡ b
ok-inj h = cc h

pub or_fail-eq-ok {ℓ} :
    {A : Type ℓ} (o : Option A) (e : PolicyError) {a : A} → or_fail o e ≡ ok a → o ≡ some a
or_fail-eq-ok none e h = cc
or_fail-eq-ok (some x) e h = cc
