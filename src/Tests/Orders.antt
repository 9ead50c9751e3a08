-- ===== src/Tests/Orders.antt =====
-- The orders of the concrete instance: texts and pairs of texts in lexicographic order.
use treetop_core.Prelude.{
  String, code, Bool, true, false, ◌≡◌, ◌↔◌, refl, ◌⊎◌, inl, inr, arith, ◌&&◌, Eq, string_eq,
  eq_iff, ◌==◌, nat_eq, ltb, ap, if◌then◌else◌,
}
use text.Mathlib.TextEquality.{Char-path}
use treetop_core.Prelude.Sorting.{Order}

abbrev pub text_le : String → String → Bool
text_le String.[] t = true
text_le (String.◌∷◌ c s) String.[] = false
text_le (String.◌∷◌ c s) (String.◌∷◌ d t) =
    if ltb (code c) (code d) then true else if code c == code d then text_le s t else false

pub text_le_total : (s t : String) → (text_le s t ≡ true) ⊎ (text_le t s ≡ true)
text_le_total String.[] t = inl refl
text_le_total (String.◌∷◌ c s) String.[] = inr refl
text_le_total (String.◌∷◌ c s) (String.◌∷◌ d t) = ground (arith, text_le_total s t)

pub text_le_trans : (s t u : String) → text_le s t ≡ true → text_le t u ≡ true → text_le s u ≡ true
text_le_trans String.[] t u h k = refl
text_le_trans (String.◌∷◌ c s) String.[] u h k = cc h
text_le_trans (String.◌∷◌ c s) (String.◌∷◌ d t) String.[] h k = cc k
text_le_trans (String.◌∷◌ c s) (String.◌∷◌ d t) (String.◌∷◌ e u) h k =
    ground (arith, text_le_trans s t u)

pub text_le_antisym : (s t : String) → text_le s t ≡ true → text_le t s ≡ true → s ≡ t
text_le_antisym String.[] String.[] h k = refl
text_le_antisym String.[] (String.◌∷◌ d t) h k = cc k
text_le_antisym (String.◌∷◌ c s) String.[] h k = cc h
text_le_antisym (String.◌∷◌ c s) (String.◌∷◌ d t) h k =
    let same : code c ≡ code d = ground arith in
    let rest : s ≡ t = ground (arith, text_le_antisym s t) in
    λ i. String.◌∷◌ (Char-path c d same i) (rest i)

abbrev pub text_order : Order String
text_order = record {
  le = text_le;
  le_total = text_le_total;
  le_trans = text_le_trans;
  le_antisym = text_le_antisym;
}

abbrev pub Pair : Type 0
Pair = String × String

abbrev pub pair_beq : Pair → Pair → Bool
pair_beq a b = (a.0 == b.0) && (a.1 == b.1)

pub pair_beq_iff : (a b : Pair) → (pair_beq a b ≡ true) ↔ (a ≡ b)
pair_beq_iff a b = (
  λ h.
      let p : a.0 ≡ b.0 = ground (arith, eq_iff a.0 b.0) in
      let q : a.1 ≡ b.1 = ground (arith, eq_iff a.1 b.1) in λ i. (p i, q i),
  λ h.
      let p = ap (λ (x : Pair). x.0) h in
      let q = ap (λ (x : Pair). x.1) h in ground (arith, eq_iff a.0 b.0, eq_iff a.1 b.1),
)

abbrev pub pair_eq : Eq Pair
pair_eq = record { beq = pair_beq; beq_iff = pair_beq_iff }

abbrev pub pair_le : Pair → Pair → Bool
pair_le a b = if a.0 == b.0 then text_le a.1 b.1 else text_le a.0 b.0

pub pair_le_total : (a b : Pair) → (pair_le a b ≡ true) ⊎ (pair_le b a ≡ true)
pair_le_total a b =
    ground (arith, eq_iff a.0 b.0, eq_iff b.0 a.0, text_le_total a.0 b.0, text_le_total a.1 b.1)

pub pair_le_trans : (a b d : Pair) → pair_le a b ≡ true → pair_le b d ≡ true → pair_le a d ≡ true
pair_le_trans a b d h k = ground (
  arith,
  eq_iff a.0 b.0,
  eq_iff b.0 d.0,
  eq_iff a.0 d.0,
  text_le_trans a.0 b.0 d.0,
  text_le_trans a.1 b.1 d.1,
  text_le_antisym a.0 b.0,
)

pub pair_le_antisym : (a b : Pair) → pair_le a b ≡ true → pair_le b a ≡ true → a ≡ b
pair_le_antisym a b h k =
    let p : a.0 ≡ b.0 = ground (arith, eq_iff a.0 b.0, eq_iff b.0 a.0, text_le_antisym a.0 b.0) in
    let q : a.1 ≡ b.1 = ground (arith, eq_iff a.0 b.0, eq_iff b.0 a.0, text_le_antisym a.1 b.1) in
    λ i. (p i, q i)

abbrev pub pair_order : Order Pair
pair_order = record {
  le = pair_le;
  le_total = pair_le_total;
  le_trans = pair_le_trans;
  le_antisym = pair_le_antisym;
}
