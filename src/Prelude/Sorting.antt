-- ===== src/Prelude/Sorting.antt =====
-- `Vec::sort` and `Vec::dedup`, and Rust's `Ord` as an interface.
use mathlib.Core.Path.{◌≡◌, refl, sym, ap, subst, ◌∙◌}
use mathlib.Core.Logic.{◌⊎◌, ◌↔◌, inl, inr, ◌≢◌}
use mathlib.Core.Bool.{Bool, true}
use mathlib.Core.List.{List, [], ◌∷◌, map}
use native.Mathlib.Omega.{arith}
use treetop_core.Prelude.Tests.{if◌then◌else◌, Eq, ◌==◌, Bool-cases}
use treetop_core.Prelude.Lists.{Member}

module _ {ℓ} {A : Type ℓ} (le : A → A → Bool) where
  unfoldable pub insert_sorted : A → List A → List A
  insert_sorted a [] = a ∷ []
  insert_sorted a (x ∷ xs) =
      let rest = insert_sorted a xs in if le a x then a ∷ x ∷ xs else x ∷ rest

  -- Insertion from the last element on keeps the order of equal elements.
  unfoldable pub sort : List A → List A
  unfolding insert_sorted
  sort [] = []
  sort (x ∷ xs) = insert_sorted x (sort xs)

-- Of a run of equal elements, one stays.
unfoldable pub dedup {ℓ} : {A : Type ℓ} ⦃e : Eq A⦄ → List A → List A
dedup [] = []
dedup (x ∷ []) = x ∷ []
dedup (x ∷ y ∷ ys) = let rest = dedup (y ∷ ys) in if x == y then rest else x ∷ rest

pub record Order (A : Type 0) : Type 0 where
  pub le : A → A → Bool
  pub le_total : (a b : A) → (le a b ≡ true) ⊎ (le b a ≡ true)
  pub le_trans : (a b d : A) → le a b ≡ true → le b d ≡ true → le a d ≡ true
  pub le_antisym : (a b : A) → le a b ≡ true → le b a ≡ true → a ≡ b

module _ {A : Type 0} where
  Member-insert_sorted :
      (le : A → A → Bool) (a b : A) (xs : List A)
      → Member a (insert_sorted le b xs) ↔ ((a ≡ b) ⊎ Member a xs)
  unfolding insert_sorted
  Member-insert_sorted le a b [] = ground arith
  Member-insert_sorted le a b (x ∷ xs) = ground (arith, Member-insert_sorted le a b xs)

  pub Member-sort : (le : A → A → Bool) (a : A) (xs : List A) → Member a (sort le xs) ↔ Member a xs
  unfolding sort
  Member-sort le a [] = (λ h. h, λ h. h)
  Member-sort le a (x ∷ xs) =
      ground (arith, Member-insert_sorted le a x (sort le xs), Member-sort le a xs)

  pub Member-dedup : ⦃e : Eq A⦄ → (a : A) (xs : List A) → Member a (dedup xs) ↔ Member a xs
  unfolding dedup
  Member-dedup a [] = (λ h. h, λ h. h)
  Member-dedup a (x ∷ []) = (λ h. h, λ h. h)
  Member-dedup ⦃e⦄ a (x ∷ y ∷ ys) =
      let equal = e.beq_iff x y in ground (arith, equal, Member-dedup a (y ∷ ys))

  -- Every element is at most the ones after it, and other than they are.
  abbrev pub IsStrict : Order A → List A → Type 0
  IsStrict o [] = Unit
  IsStrict o (x ∷ xs) = ((a : A) → Member a xs → (o.le x a ≡ true) × (x ≢ a)) × IsStrict o xs

  abbrev pub IsSorted : (A → A → Bool) → List A → Type 0
  IsSorted le [] = Unit
  IsSorted le (x ∷ xs) = ((a : A) → Member a xs → le x a ≡ true) × IsSorted le xs

  module _ (le : A → A → Bool) (le_total : (a b : A) → (le a b ≡ true) ⊎ (le b a ≡ true))
      (le_trans : (a b d : A) → le a b ≡ true → le b d ≡ true → le a d ≡ true) where
    insert_sorted-IsSorted :
        (x : A) (xs : List A) → IsSorted le xs → IsSorted le (insert_sorted le x xs)
    unfolding insert_sorted
    insert_sorted-IsSorted x [] h = (λ a m. absurd m, tt)
    insert_sorted-IsSorted x (y ∷ ys) (low, h) = elim (Bool-cases (le x y)) [
      | inl p ↦ rw p (
        λ a m. elim m [
          | inl e ↦ subst (λ b. le x b ≡ true) (sym e) p
          | inr n ↦ le_trans x y a p (low a n)
        ],
        (low, h),
      )
      | inr p ↦ rw p (
        λ a m. elim ((Member-insert_sorted le a x ys).0 m) [
          | inl e ↦
              subst (λ b. le y b ≡ true) (sym e)
                (elim (le_total x y) [ inl q ↦ absurd (cc (p, q)) | inr q ↦ q ])
          | inr n ↦ low a n
        ],
        insert_sorted-IsSorted x ys h,
      )
    ]

    -- On a total preorder the result is in order.
    pub sort-IsSorted : (xs : List A) → IsSorted le (sort le xs)
    unfolding sort
    sort-IsSorted [] = tt
    sort-IsSorted (x ∷ xs) = insert_sorted-IsSorted x (sort le xs) (sort-IsSorted xs)

  -- What holds between any two elements of a list, in either order, holds after sorting.
  abbrev pub Pairwise : (A → A → Type 0) → List A → Type 0
  Pairwise R [] = Unit
  Pairwise R (x ∷ xs) = ((a : A) → Member a xs → R x a) × Pairwise R xs

  insert_sorted-Pairwise :
      (R : A → A → Type 0) (le : A → A → Bool) (x : A) (xs : List A)
      → ((a b : A) → R a b → R b a)
      → ((a : A) → Member a xs → R x a)
      → Pairwise R xs
      → Pairwise R (insert_sorted le x xs)
  unfolding insert_sorted
  insert_sorted-Pairwise R le x [] flip own h = (λ a m. absurd m, tt)
  insert_sorted-Pairwise R le x (y ∷ ys) flip own (first, h) = elim (Bool-cases (le x y)) [
    | inl p ↦ rw p (own, (first, h))
    | inr p ↦ rw p (
      λ a m. elim ((Member-insert_sorted le a x ys).0 m) [
        | inl e ↦ subst (R y) (sym e) (flip x y (own y (inl refl)))
        | inr n ↦ first a n
      ],
      insert_sorted-Pairwise R le x ys flip (λ a m. own a (inr m)) h,
    )
  ]

  pub sort-Pairwise :
      (R : A → A → Type 0) (le : A → A → Bool) (xs : List A)
      → ((a b : A) → R a b → R b a)
      → Pairwise R xs
      → Pairwise R (sort le xs)
  unfolding sort
  sort-Pairwise R le [] flip h = tt
  sort-Pairwise R le (x ∷ xs) flip (own, h) =
      insert_sorted-Pairwise R le x (sort le xs) flip (λ a m. own a ((Member-sort le a xs).0 m))
        (sort-Pairwise R le xs flip h)

  pub dedup-IsStrict :
      ⦃e : Eq A⦄ → (o : Order A) (xs : List A) → IsSorted o.le xs → IsStrict o (dedup xs)
  unfolding dedup
  dedup-IsStrict o [] h = tt
  dedup-IsStrict o (x ∷ []) h = (λ a m. absurd m, tt)
  dedup-IsStrict ⦃e⦄ o (x ∷ y ∷ ys) (low, (low', h)) = elim (Bool-cases (e.beq x y)) [
    | inl p ↦ rw p (dedup-IsStrict o (y ∷ ys) (low', h))
    | inr p ↦ rw p (
      λ a m.
          let n = (Member-dedup a (y ∷ ys)).0 m in
          (
            low a n,
            λ q. elim n [
              | inl r ↦ absurd (cc (p, (e.beq_iff x y).1 (q ∙ r)))
              | inr r ↦
                  let same =
                    o.le_antisym x y (low y (inl refl))
                      (subst (λ b. o.le y b ≡ true) (sym q) (low' a r)) in
                  absurd (cc (p, (e.beq_iff x y).1 same))
            ],
          ),
      dedup-IsStrict o (y ∷ ys) (low', h),
    )
  ]

module _ {A B : Type 0} (o : Order B) (key : A → B) where
  Member-key : (a : A) (xs : List A) → Member a xs → Member (key a) (map key xs)
  Member-key a [] m = absurd m
  Member-key a (x ∷ xs) (inl same) = inl (ap key same)
  Member-key a (x ∷ xs) (inr m) = inr (Member-key a xs m)

  -- An element of a strict list is its head or comes after it.
  after_head :
      (x a : A) (xs : List A)
      → IsStrict o (map key (x ∷ xs))
      → Member a (x ∷ xs)
      → (a ≡ x) ⊎ ((o.le (key x) (key a) ≡ true) × (key x ≢ key a))
  after_head x a xs (low, _) (inl same) = inl same
  after_head x a xs (low, _) (inr m) = inr (low (key a) (Member-key a xs m))

  same_head :
      (x y : A) (xs ys : List A)
      → IsStrict o (map key (x ∷ xs))
      → IsStrict o (map key (y ∷ ys))
      → Member x (y ∷ ys)
      → Member y (x ∷ xs)
      → x ≡ y
  same_head x y xs ys h k m n = elim (after_head y x ys k m) [
    | inl same ↦ same
    | inr (up, apart) ↦ elim (after_head x y xs h n) [
      | inl same ↦ sym same
      | inr (down, _) ↦ absurd (apart (o.le_antisym (key y) (key x) up down))
    ]
  ]

  Member-tail :
      (x a : A) (xs ys : List A)
      → IsStrict o (map key (x ∷ xs))
      → Member a xs
      → Member a (x ∷ ys)
      → Member a ys
  Member-tail x a xs ys (low, _) m (inl same) =
      absurd ((low (key a) (Member-key a xs m)).1 (ap key (sym same)))
  Member-tail x a xs ys h m (inr n) = n

  -- Lists that are strict in a key and have the same elements are one list.
  pub IsStrict-unique :
      (xs ys : List A)
      → IsStrict o (map key xs)
      → IsStrict o (map key ys)
      → ((a : A) → Member a xs ↔ Member a ys)
      → xs ≡ ys
  IsStrict-unique [] [] h k e = refl
  IsStrict-unique [] (y ∷ ys) h k e = absurd ((e y).1 (inl refl))
  IsStrict-unique (x ∷ xs) [] h k e = absurd ((e x).0 (inl refl))
  IsStrict-unique (x ∷ xs) (y ∷ ys) h k e =
      let same = same_head x y xs ys h k ((e x).0 (inl refl)) ((e y).1 (inl refl)) in
      let k' : IsStrict o (map key (x ∷ ys)) =
        subst (λ z. IsStrict o (map key (z ∷ ys))) (sym same) k in
      let e' : (a : A) → Member a (x ∷ xs) ↔ Member a (x ∷ ys) =
        subst (λ z. (a : A) → Member a (x ∷ xs) ↔ Member a (z ∷ ys)) (sym same) e in
      let rest = IsStrict-unique xs ys h.1 k.1 (λ a. (
        λ m. Member-tail x a xs ys h m ((e' a).0 (inr m)),
        λ m. Member-tail x a ys xs k' m ((e' a).1 (inr m)),
      )) in
      ap (λ z. z ∷ xs) same ∙ ap (λ zs. y ∷ zs) rest
