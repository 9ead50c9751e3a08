-- ===== src/Prelude/Assoc.antt =====
-- Rust's maps as association lists: `get` finds the first entry, `put` replaces it in place.
use mathlib.Core.Path.{◌≡◌, refl}
use mathlib.Core.Option.{Option, none, some}
use mathlib.Core.List.{List, [], ◌∷◌}
use native.Mathlib.Omega.{arith}
use treetop_core.Prelude.Tests.{Eq, ◌==◌, if◌then◌else◌}

module _ {ℓ κ} {K : Type ℓ} {V : Type κ} ⦃e : Eq K⦄ where
  unfoldable pub get : K → List (K × V) → Option V
  get k [] = none
  get k ((j, v) ∷ m) = if j == k then some v else get k m

  unfoldable pub put : K → V → List (K × V) → List (K × V)
  put k v [] = (k, v) ∷ []
  put k v ((j, w) ∷ m) = if j == k then (j, v) ∷ m else (j, w) ∷ put k v m

  pub get-put :
      (k j : K) (v : V) (m : List (K × V))
      → get j (put k v m) ≡ (if k == j then some v else get j m)
  unfolding get put
  get-put k j v [] = refl
  get-put k j v ((i, w) ∷ m) =
      ground (arith, e.beq_iff k j, e.beq_iff i k, e.beq_iff i j, get-put k j v m)
