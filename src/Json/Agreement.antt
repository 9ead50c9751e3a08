-- ===== src/Json/Agreement.antt =====
-- `Eq` and `Hash` of src/types/policy_json.rs agree: equal values write the same to a hasher.
use treetop_core.Prelude.{
  ◌+◌, String, List, [], ◌∷◌, ◌++◌, Bool, ◌≡◌, ◌≢◌, refl, sym, ap, subst, ◌∙◌, inl, inr, arith,
  Member, true, Bool-cases, length, ◌&&◌, ◌==◌, string_eq, nat_eq, eq_iff, nat_beq_iff,
}
use treetop_core.Prelude.Sorting.{sort, Order, Pairwise}
use treetop_core.Json.{
  Numbers, Keyed, keyed_le, Node, Nodes, Entries, null_node, bool_node, number_node, string_node,
  array_node, object_node, nil_nodes, cons_nodes, nil_entries, cons_entries, nodes_len, entries_len,
  any_entry, node_eq, nodes_eq, all_entries, write_all, write_node, write_nodes, write_entries,
  Written, tag, count, digits, chars,
}
use treetop_core.Json.Sorted.{Differ, sort_same}

and-eq-true : (a b : Bool) → (a && b) ≡ true → (a ≡ true) × (b ≡ true)
and-eq-true a b h = (ground arith, ground arith)

module _ (num : Numbers) where
  -- No entry has the key.
  abbrev IsAbsent : String → Entries num → Type 0
  IsAbsent k nil_entries = Unit
  IsAbsent k (cons_entries j w es) = (k ≢ j) × IsAbsent k es

  -- Every object in the value has distinct keys, as a map has.
  unfoldable mutual
    pub IsMapped : Node num → Type 0
    IsMapped null_node = Unit
    IsMapped (bool_node b) = Unit
    IsMapped (number_node n) = Unit
    IsMapped (string_node s) = Unit
    IsMapped (array_node vs) = AreMapped vs
    IsMapped (object_node es) = HasMap es

    pub AreMapped : Nodes num → Type 0
    AreMapped nil_nodes = Unit
    AreMapped (cons_nodes v vs) = IsMapped v × AreMapped vs

    pub HasMap : Entries num → Type 0
    HasMap nil_entries = Unit
    HasMap (cons_entries k v es) = IsAbsent k es × IsMapped v × HasMap es

  module _ (keys : Order String) where
    abbrev W : Node num → List Written
    W v = write_node num keys v

    length-write_entries :
        (es : Entries num) → length (write_entries num keys es) ≡ entries_len num es
    unfolding write_node entries_len
    length-write_entries nil_entries = refl
    length-write_entries (cons_entries k v es) = ground (arith, length-write_entries es)

    IsAbsent-Differ :
        (k : String) (es : Entries num) (e : Keyed num)
        → IsAbsent k es
        → Member e (write_entries num keys es)
        → k ≢ e.0
    unfolding write_node
    IsAbsent-Differ k nil_entries e h m = absurd m
    IsAbsent-Differ k (cons_entries j w es) e h m = elim m [
      | inl own ↦ λ same. h.0 (same ∙ ap (λ (x : Keyed num). x.0) own)
      | inr deep ↦ IsAbsent-Differ k es e h.1 deep
    ]

    HasMap-Pairwise :
        (es : Entries num) → HasMap es → Pairwise (Differ num keys) (write_entries num keys es)
    unfolding write_node IsMapped
    HasMap-Pairwise nil_entries h = tt
    HasMap-Pairwise (cons_entries k v es) h =
        (λ e m. IsAbsent-Differ k es e h.0 m, HasMap-Pairwise es h.2)

    -- What `any` finds for a value writes the same.
    any_entry-Member :
        (k : String) (v : Node num) (fs : Entries num)
        → ((w : Node num) → IsMapped w → node_eq num v w ≡ true → W v ≡ W w)
        → HasMap fs
        → any_entry num k (λ w. node_eq num v w) fs ≡ true
        → Member (k, W v) (write_entries num keys fs)
    unfolding any_entry write_node IsMapped
    any_entry-Member k v nil_entries ih ok h = absurd (ground arith)
    any_entry-Member k v (cons_entries j w fs) ih ok h =
        elim (Bool-cases (k == j && node_eq num v w)) [
          | inl e ↦
              let named : k ≡ j = ground (arith, eq_iff k j) in
              let same = ih w ok.1 (ground arith) in inl (λ i. (named i, same i))
          | inr e ↦ inr (any_entry-Member k v fs ih ok.2 (rw e at h))
        ]

    mutual
      unfolding node_eq write_node IsMapped nodes_len

      equal_nodes : (v w : Node num) → IsMapped v → IsMapped w → node_eq num v w ≡ true → W v ≡ W w
      equal_nodes null_node w okv okw h = ground arith
      equal_nodes (bool_node b) w okv okw h = ground arith
      equal_nodes (number_node m) (number_node n) okv okw h =
          ap (λ ds. tag 2 ∷ digits ds ∷ []) (num.same-bytes m n h)
      equal_nodes (number_node m) w okv okw h = absurd (ground arith)
      equal_nodes (string_node s) (string_node t) okv okw h =
          ap (λ x. tag 3 ∷ chars x ∷ []) ((eq_iff s t).0 h)
      equal_nodes (string_node s) w okv okw h = absurd (ground arith)
      equal_nodes (array_node vs) (array_node ws) okv okw h =
          let (same, n) = equal_arrays vs ws okv okw h in
          ap (λ k. tag 4 ∷ count k ∷ write_nodes num keys vs) n
          ∙ ap (λ x. tag 4 ∷ count (nodes_len num ws) ∷ x) same
      equal_nodes (array_node vs) w okv okw h = absurd (ground arith)
      equal_nodes (object_node es) (object_node fs) okv okw h =
          let (sizes, within) =
            and-eq-true (entries_len num es == entries_len num fs) (all_entries num es fs) h in
          let n = (nat_beq_iff (entries_len num es) (entries_len num fs)).0 sizes in
          let lengths = length-write_entries es ∙ n ∙ sym (length-write_entries fs) in
          let sorted =
            sort_same num keys (write_entries num keys es) (write_entries num keys fs)
              (HasMap-Pairwise es okv) (HasMap-Pairwise fs okw) lengths
              (equal_objects es fs okv okw within) in
          ap
            (λ k.
              tag 5
              ∷ count k
              ∷ write_all num (sort (keyed_le num keys) (write_entries num keys es)))
            n
          ∙ ap (λ x. tag 5 ∷ count (entries_len num fs) ∷ write_all num x) sorted
      equal_nodes (object_node es) w okv okw h = absurd (ground arith)

      equal_arrays :
          (vs ws : Nodes num)
          → AreMapped vs
          → AreMapped ws
          → nodes_eq num vs ws ≡ true
          → (write_nodes num keys vs ≡ write_nodes num keys ws)
            × (nodes_len num vs ≡ nodes_len num ws)
      equal_arrays nil_nodes nil_nodes okv okw h = (refl, refl)
      equal_arrays nil_nodes (cons_nodes w ws) okv okw h = absurd (ground arith)
      equal_arrays (cons_nodes v vs) nil_nodes okv okw h = absurd (ground arith)
      equal_arrays (cons_nodes v vs) (cons_nodes w ws) okv okw h =
          let (one, others) = and-eq-true (node_eq num v w) (nodes_eq num vs ws) h in
          let first = equal_nodes v w okv.0 okw.0 one in
          let (rest, n) = equal_arrays vs ws okv.1 okw.1 others in
          (
            ap (λ x. x ++ write_nodes num keys vs) first ∙ ap (λ x. W w ++ x) rest,
            ap (λ k. 1 + k) n,
          )

      equal_objects :
          (es fs : Entries num)
          → HasMap es
          → HasMap fs
          → all_entries num es fs ≡ true
          → (e : Keyed num) → Member e (write_entries num keys es)
          → Member e (write_entries num keys fs)
      equal_objects nil_entries fs okv okw h e m = absurd m
      equal_objects (cons_entries k v es) fs okv okw h e m =
          let (found, others) =
            and-eq-true (any_entry num k (λ w. node_eq num v w) fs) (all_entries num es fs) h in
          elim m [
            | inl own ↦
                subst (λ x. Member x (write_entries num keys fs)) (sym own)
                  (any_entry-Member k v fs (λ w okw' same. equal_nodes v w okv.1 okw' same) okw
                    found)
            | inr deep ↦ equal_objects es fs okv.2 okw others e deep
          ]

    -- Equal values, whatever the order of the entries of their objects, write the same to a hasher,
    -- where every object has distinct keys.
    pub node_eq-write_node :
        (v w : Node num)
        → IsMapped v
        → IsMapped w
        → node_eq num v w ≡ true
        → write_node num keys v ≡ write_node num keys w
    node_eq-write_node v w okv okw h = equal_nodes v w okv okw h
