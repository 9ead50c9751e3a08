-- ===== src/Json/Sorted.antt =====
-- Entries with distinct keys sort alike in whatever order they stand.
use treetop_core.Prelude.{
  Bool, suc, String, List, [], ◌∷◌, ◌++◌, ◌≡◌, ◌≢◌, refl, sym, ap, subst, ◌∙◌, ◌⊎◌, inl, inr, arith,
  Member, length,
}
use treetop_core.Prelude.Sorting.{sort, insert_sorted, Order, Pairwise}
use treetop_core.Json.{Numbers, Keyed, keyed_le}

module _ (num : Numbers) (keys : Order String) where
  abbrev Entry : Type 0
  Entry = Keyed num

  abbrev le : Entry → Entry → Bool
  le = keyed_le num keys

  abbrev pub Differ : Entry → Entry → Type 0
  Differ a b = a.0 ≢ b.0

  insert_sorted_commute :
      (a b : Entry) (xs : List Entry)
      → Differ a b
      → insert_sorted le a (insert_sorted le b xs) ≡ insert_sorted le b (insert_sorted le a xs)
  unfolding insert_sorted
  insert_sorted_commute a b [] ne = ground (arith, keys.le_total a.0 b.0, keys.le_antisym a.0 b.0)
  insert_sorted_commute a b (x ∷ xs) ne = ground (
    arith,
    insert_sorted_commute a b xs,
    keys.le_total a.0 b.0,
    keys.le_antisym a.0 b.0,
    keys.le_total a.0 x.0,
    keys.le_total b.0 x.0,
    keys.le_trans a.0 b.0 x.0,
    keys.le_trans b.0 a.0 x.0,
    keys.le_trans a.0 x.0 b.0,
    keys.le_trans b.0 x.0 a.0,
  )

  -- An entry moves to the front of what is sorted.
  sort_move :
      (xs ys : List Entry) (a : Entry)
      → ((e : Entry) → Member e xs → Differ a e)
      → sort le (xs ++ (a ∷ ys)) ≡ insert_sorted le a (sort le (xs ++ ys))
  unfolding sort
  sort_move [] ys a h = refl
  sort_move (x ∷ xs) ys a h =
      ap (insert_sorted le x) (sort_move xs ys a (λ e m. h e (inr m)))
      ∙ insert_sorted_commute x a (sort le (xs ++ ys)) (λ same. h x (inl refl) (sym same))

  Member-split :
      (a : Entry) (xs : List Entry)
      → Member a xs
      → (l : List Entry) × (r : List Entry) × (xs ≡ l ++ (a ∷ r))
  Member-split a [] m = absurd m
  Member-split a (x ∷ xs) m = elim m [
    | inl own ↦ ([], xs, ap (λ y. y ∷ xs) (sym own))
    | inr deep ↦ let (l, r, e) = Member-split a xs deep in (x ∷ l, r, ap (λ ys. x ∷ ys) e)
  ]

  Member-middle :
      (l r : List Entry) (a e : Entry) → Member e (l ++ (a ∷ r)) → (e ≡ a) ⊎ Member e (l ++ r)
  Member-middle [] r a e m = m
  Member-middle (x ∷ l) r a e m = elim m [
    | inl own ↦ inr (inl own)
    | inr deep ↦ elim (Member-middle l r a e deep) [ inl own ↦ inl own | inr rest ↦ inr (inr rest) ]
  ]

  Member-around : (l r : List Entry) (a e : Entry) → Member e (l ++ r) → Member e (l ++ (a ∷ r))
  Member-around [] r a e m = inr m
  Member-around (x ∷ l) r a e m = elim m [
    | inl own ↦ inl own
    | inr deep ↦ inr (Member-around l r a e deep)
  ]

  Member-here : (l r : List Entry) (a : Entry) → Member a (l ++ (a ∷ r))
  Member-here [] r a = inl refl
  Member-here (x ∷ l) r a = inr (Member-here l r a)

  -- Taking an entry out of distinct ones.
  Pairwise-middle :
      (l r : List Entry) (a : Entry)
      → Pairwise Differ (l ++ (a ∷ r))
      → Pairwise Differ (l ++ r) × ((e : Entry) → Member e l → Differ a e)
  Pairwise-middle [] r a h = (h.1, λ e m. absurd m)
  Pairwise-middle (x ∷ l) r a h =
      let (rest, front) = Pairwise-middle l r a h.1 in
      (
        (λ e m. h.0 e (Member-around l r a e m), rest),
        λ e m. elim m [
          | inl own ↦
              λ same. h.0 a (Member-here l r a) (ap (λ (y : Entry). y.0) (sym own) ∙ sym same)
          | inr deep ↦ front e deep
        ],
      )

  length-middle : (l r : List Entry) (a : Entry) → length (l ++ (a ∷ r)) ≡ suc (length (l ++ r))
  length-middle [] r a = refl
  length-middle (x ∷ l) r a = ap suc (length-middle l r a)

  -- Two lists of one length with distinct keys, the one within the other, sort alike.
  pub sort_same :
      (xs ys : List Entry)
      → Pairwise Differ xs
      → Pairwise Differ ys
      → length xs ≡ length ys
      → ((e : Entry) → Member e xs → Member e ys)
      → sort le xs ≡ sort le ys
  unfolding sort
  sort_same [] [] hx hy n sub = refl
  sort_same [] (y ∷ ys) hx hy n sub = absurd (omega arith)
  sort_same (x ∷ xs) ys hx hy n sub =
      let (l, r, shape) = Member-split x ys (sub x (inl refl)) in
      let (distinct, front) = Pairwise-middle l r x (subst (Pairwise Differ) shape hy) in
      let same_length : length xs ≡ length (l ++ r) =
        let n' = ap length shape in let m' = length-middle l r x in omega arith in
      ap (insert_sorted le x) (
        sort_same xs (l ++ r) hx.1 distinct same_length (λ e m.
          elim (Member-middle l r x e (subst (Member e) shape (sub e (inr m)))) [
            | inl own ↦ absurd (hx.0 e m (ap (λ (y : Entry). y.0) (sym own)))
            | inr rest ↦ rest
          ]))
      ∙ sym (sort_move l r x front)
      ∙ ap (sort le) (sym shape)
