-- ===== src/Store/Router/Resolve.antt =====
-- A trie resolves as a linear scan over the namespaces inserted into it.
use treetop_core.Prelude.{
  ℕ, String, List, [], ◌∷◌, Option, none, some, Bool, true, false, ◌==◌, string_eq, ◌≡◌, refl,
  if◌then◌else◌, ◌&&◌, arith, eq_iff, Bool-cases, inl, inr,
}
use treetop_core.Store.Router.{
  NamespaceNode, node, Children, leaf, entry, default, store_index, get_child, put_child,
  or_default, or_else, first_store_index, first_in_children, claim, insert_node, resolve,
}

-- Segment-wise, so that `A::DNS` is no prefix of `A::DNSAdmin`.
abbrev pub is_prefix : List String → List String → Bool
is_prefix [] cs = true
is_prefix (p ∷ ps) [] = false
is_prefix (p ∷ ps) (c ∷ cs) = p == c && is_prefix ps cs

-- As `resolve`, asking the node itself first.
abbrev pub resolve_at : List String → NamespaceNode → Option ℕ
resolve_at cs n = or_else (store_index n) (resolve cs n)

pub get_child-put_child :
    (c d : String) (m : NamespaceNode) (kids : Children)
    → get_child d (put_child c m kids) ≡ (if c == d then some m else get_child d kids)
unfolding get_child put_child
get_child-put_child c d m leaf = refl
get_child-put_child c d m (entry k n kids) =
    ground (arith, eq_iff c d, eq_iff k c, eq_iff k d, get_child-put_child c d m kids)

abbrev at_child : List String → Option NamespaceNode → Option ℕ
at_child cs none = none
at_child cs (some n) = resolve_at cs n

pub resolve-cons :
    (c : String) (cs : List String) (i : Option ℕ) (kids : Children)
    → resolve (c ∷ cs) (node i kids) ≡ at_child cs (get_child c kids)
unfolding resolve
resolve-cons c cs i kids = ground arith

pub resolve_at-default : (cs : List String) → resolve_at cs default ≡ none
unfolding resolve get_child
resolve_at-default [] = refl
resolve_at-default (c ∷ cs) = refl

at_child-or_default :
    (cs : List String) (o : Option NamespaceNode) → resolve_at cs (or_default o) ≡ at_child cs o
at_child-or_default cs none = resolve_at-default cs
at_child-or_default cs (some n) = refl

-- Below a node with no store anywhere nothing resolves.
mutual
  unfolding first_store_index resolve get_child

  resolve_free :
      (n : NamespaceNode) (cs : List String) → first_store_index n ≡ none → resolve_at cs n ≡ none
  resolve_free (node none kids) [] h = refl
  resolve_free (node none kids) (c ∷ cs) h = at_child_free kids c cs h
  resolve_free (node (some i) kids) cs h = cc

  at_child_free :
      (kids : Children) (c : String) (cs : List String)
      → first_in_children kids ≡ none
      → at_child cs (get_child c kids) ≡ none
  at_child_free leaf c cs h = refl
  at_child_free (entry k n kids) c cs h = ground (arith, resolve_free n cs, at_child_free kids c cs)

claim-resolve :
    (n : NamespaceNode) (k : ℕ) (cs : List String)
    → (claim n k).0 ≡ none
    → (resolve_at cs n ≡ none) × (resolve_at cs (claim n k).1 ≡ some k)
unfolding claim
claim-resolve (node none kids) k cs h = ground (arith, resolve_free (node none kids) cs)
claim-resolve (node (some i) kids) k cs h = cc

-- At a node with no store, a search goes on in one child.
resolve_at-put_child :
    (p c : String) (cs : List String) (m : NamespaceNode) (kids : Children)
    → resolve_at (c ∷ cs) (node none (put_child p m kids))
      ≡ (if p == c then resolve_at cs m else resolve_at (c ∷ cs) (node none kids))
resolve_at-put_child p c cs m kids =
    rw
      (
        resolve-cons c cs none (put_child p m kids),
        resolve-cons c cs none kids,
        get_child-put_child p c m kids,
      )
      (elim (Bool-cases (p == c)) [ inl e ↦ rw e | inr e ↦ rw e ])

resolve_at-nil : (kids : Children) → resolve_at [] (node none kids) ≡ none
unfolding resolve
resolve_at-nil kids = refl

-- What an insertion that meets no conflict adds.
pub resolve_at-insert_node :
    (ps cs : List String) (k : ℕ) (n : NamespaceNode)
    → (insert_node ps k n).0 ≡ none
    → resolve_at cs (insert_node ps k n).1
      ≡ or_else (resolve_at cs n) (if is_prefix ps cs then some k else none)
unfolding insert_node
resolve_at-insert_node [] cs k n h = ground (arith, claim-resolve n k cs)
resolve_at-insert_node (p ∷ ps) cs k (node (some i) kids) h = cc
resolve_at-insert_node (p ∷ ps) [] k (node none kids) h =
    rw (resolve_at-nil kids) (resolve_at-nil _)
resolve_at-insert_node (p ∷ ps) (c ∷ cs) k (node none kids) h =
    let m = or_default (get_child p kids) in
    ground (
      arith,
      resolve_at-put_child p c cs (insert_node ps k m).1 kids,
      resolve_at-insert_node ps cs k m,
      at_child-or_default cs (get_child p kids),
      resolve-cons c cs none kids,
      eq_iff p c,
    )
