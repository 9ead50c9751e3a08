-- ===== src/Prelude/Lists.antt =====
-- Lists measured and indexed by native numbers, with membership as a predicate by recursion.
use Prim.Native.Nat.{ℕ, zero, suc}
use mathlib.Core.Path.{◌≡◌, refl, ap}
use mathlib.Core.Logic.{◌⊎◌, ◌↔◌, inl, inr}
use mathlib.Core.Bool.{Bool, true, false, ◌&&◌, ◌||◌}
use mathlib.Core.Option.{Option, none, some}
use mathlib.Core.List.{List, [], ◌∷◌, ◌++◌}
use native.Mathlib.Omega.{arith}
use treetop_core.Prelude.Tests.{Eq, ◌==◌, if◌then◌else◌, nat_beq}

module _ {ℓ} {A : Type ℓ} where
  abbrev pub length : List A → ℕ
  length [] = 0
  length (x ∷ xs) = suc (length xs)

  abbrev pub get_elem? : List A → ℕ → Option A
  get_elem? [] i = none
  get_elem? (x ∷ xs) zero = some x
  get_elem? (x ∷ xs) (suc i) = get_elem? xs i

  -- A write out of bounds changes nothing.
  abbrev pub set : List A → ℕ → A → List A
  set [] i v = []
  set (x ∷ xs) zero v = v ∷ xs
  set (x ∷ xs) (suc i) v = x ∷ set xs i v

  abbrev pub replicate : ℕ → A → List A
  replicate zero a = []
  replicate (suc n) a = a ∷ replicate n a

  abbrev pub any : (A → Bool) → List A → Bool
  any p [] = false
  any p (x ∷ xs) = p x || any p xs

  abbrev pub all : (A → Bool) → List A → Bool
  all p [] = true
  all p (x ∷ xs) = p x && all p xs

  -- Rust's `Iterator::filter`.
  abbrev pub keep : (A → Bool) → List A → List A
  keep p [] = []
  keep p (x ∷ xs) = if p x then x ∷ keep p xs else keep p xs

-- Membership. The empty type has no level of its own, so the elements stand at the lowest.
abbrev pub Member : {A : Type 0} → A → List A → Type 0
Member a [] = ⊥
Member a (x ∷ xs) = (a ≡ x) ⊎ Member a xs

module _ {ℓ κ} {A : Type ℓ} (P : A → Type κ) where
  abbrev pub All : List A → Type κ
  All [] = Unit
  All (x ∷ xs) = P x × All xs

module _ {A : Type 0} ⦃e : Eq A⦄ where
  -- Rust's `contains`.
  abbrev pub contains : A → List A → Bool
  contains a xs = any (λ x. a == x) xs

  pub contains→Member : (a : A) (xs : List A) → contains a xs ≡ true → Member a xs
  contains→Member a [] h = ground arith
  contains→Member a (x ∷ xs) h = ground (arith, e.beq_iff a x, contains→Member a xs)

  pub Member→contains : (a : A) (xs : List A) → Member a xs → contains a xs ≡ true
  Member→contains a [] h = elim h [ ]
  Member→contains a (x ∷ xs) h = ground (arith, e.beq_iff a x, Member→contains a xs)

module _ {A : Type 0} where
  pub Member-append : (a : A) (xs ys : List A) → Member a (xs ++ ys) ↔ (Member a xs ⊎ Member a ys)
  Member-append a [] ys = (λ h. inr h, λ h. elim h [ inl p ↦ absurd p | inr q ↦ q ])
  Member-append a (x ∷ xs) ys = ground (arith, Member-append a xs ys)

  pub Member-get_elem? : (xs : List A) (i : ℕ) {a : A} → get_elem? xs i ≡ some a → Member a xs
  Member-get_elem? [] i h = ground arith
  Member-get_elem? (x ∷ xs) zero h = ground arith
  Member-get_elem? (x ∷ xs) (suc i) h = inr (Member-get_elem? xs i h)

-- `(start..start + n).collect()`
abbrev pub range : ℕ → ℕ → List ℕ
range start zero = []
range start (suc n) = start ∷ range (suc start) n

module _ {ℓ} {A : Type ℓ} where
  -- A write in bounds, read anywhere.
  pub get_elem?-set :
      (xs : List A) (i j : ℕ) (v : A) {w : A}
      → get_elem? xs i ≡ some w
      → get_elem? (set xs i v) j ≡ (if nat_beq i j then some v else get_elem? xs j)
  get_elem?-set [] i j v h = cc
  get_elem?-set (x ∷ xs) zero zero v h = ground arith
  get_elem?-set (x ∷ xs) zero (suc j) v h = ground arith
  get_elem?-set (x ∷ xs) (suc i) zero v h = ground arith
  get_elem?-set (x ∷ xs) (suc i) (suc j) v h = ground (arith, get_elem?-set xs i j v h)

  pub length-set : (xs : List A) (i : ℕ) (v : A) → length (set xs i v) ≡ length xs
  length-set [] i v = refl
  length-set (x ∷ xs) zero v = refl
  length-set (x ∷ xs) (suc i) v = ap suc (length-set xs i v)

  pub get_elem?-replicate : (n i : ℕ) (a : A) {b : A} → get_elem? (replicate n a) i ≡ some b → b ≡ a
  get_elem?-replicate zero i a h = cc
  get_elem?-replicate (suc n) zero a h = cc
  get_elem?-replicate (suc n) (suc i) a h = get_elem?-replicate n i a h

  pub length-replicate : (n : ℕ) (a : A) → length (replicate n a) ≡ n
  length-replicate zero a = refl
  length-replicate (suc n) a = ap suc (length-replicate n a)
