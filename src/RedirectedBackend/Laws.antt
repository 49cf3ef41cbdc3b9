-- ===== src/RedirectedBackend/Laws.antt =====
-- A node written through a RedirectedBackend over a SimpleBackend, and read back.
use world_wide_anthropomorph.Base.{
  ◌≡◌, ◌∙◌, ap, refl, true, false, some, [], ◌∷◌, ◌++◌, arith, length, length-append, Bool-cases,
  inl, inr, Result, ok, err, if◌then◌else◌,
}
use world_wide_anthropomorph.Text.{
  Text, slash, text_eq, text_eq_refl, text_eq_iff, is_empty, back, starts_with,
}
use world_wide_anthropomorph.OrderedMap.Laws.{lookup-insert}
use world_wide_anthropomorph.TreeNode.{TreeNode}
use world_wide_anthropomorph.TreeNode.Labels.{add_prefix}
use world_wide_anthropomorph.TreeNode.Labels.RoundTrip.{
  NodeIsOutside, prefixed, prefix_labels_lem, shorten-prefixed,
}
use world_wide_anthropomorph.MemoryTree
use world_wide_anthropomorph.Backend.{Exec, ◌>>◌, pure}
use world_wide_anthropomorph.SimpleBackend.{SimpleBackend, simple_backend}
use world_wide_anthropomorph.SimpleBackend.Laws.{upsert_node-tree}
use world_wide_anthropomorph.RedirectedBackend.{get_node, upsert_node}

>>-pure_state : {S A B : Type 0} (m : Exec S A) (x : B) (s : S) → ((m >> pure x) s).1 ≡ (m s).1
>>-pure_state {S} {A} {B} m x s = go (m s).0
  where
    go :
        (r : Result A)
        → (let p : Result B × S = elim r [ ok a ↦ (ok x, (m s).1) | err e ↦ (err e, (m s).1) ] in
            p.1)
          ≡ (m s).1
    go (ok a) = refl
    go (err e) = refl

module _ (p : Text) (filled : is_empty p ≡ false) (ends : back p ≡ slash) where
  -- The tree after one node is upserted through the redirection.
  upserted_tree :
      (n : TreeNode) (s : SimpleBackend)
      → (upsert_node simple_backend p (n ∷ []) s).1.memory_tree
        ≡ MemoryTree.upsert_node (prefixed p n ∷ []) s.memory_tree
  unfolding upsert_node
  upserted_tree n s =
      rw (prefix_labels_lem p n filled ends, upsert_node)
        (ap (λ (b : SimpleBackend). b.memory_tree)
            (>>-pure_state (simple_backend.upsert_node (prefixed p n ∷ [])) true s)
          ∙ (upsert_node-tree (prefixed p n ∷ []) s).0)

  read_upserted :
      (n : TreeNode) (s : SimpleBackend) (k : Text)
      → MemoryTree.get_node (upsert_node simple_backend p (n ∷ []) s).1.memory_tree k ≡ (
          if text_eq (add_prefix p n.label_rule) k
          then some (prefixed p n)
          else MemoryTree.get_node s.memory_tree k)
  unfolding MemoryTree.get_node MemoryTree.upsert_node
  read_upserted n s k =
      rw (upserted_tree n s)
        (lookup-insert k (add_prefix p n.label_rule) (prefixed p n) s.memory_tree)

added : (p s : Text) → starts_with s p ≡ false → add_prefix p s ≡ p ++ s
unfolding add_prefix
added p s h = rw (h, add_prefix)

kept : (p s : Text) → starts_with s p ≡ true → add_prefix p s ≡ s
unfolding add_prefix
kept p s h = rw (h, add_prefix)

longer_ne : (p s : Text) → is_empty p ≡ false → text_eq s (p ++ s) ≡ false
longer_ne [] s h = cc
longer_ne (x ∷ p) s h = elim (Bool-cases (text_eq s (x ∷ (p ++ s)))) [
  | inl same ↦
      let e : s ≡ x ∷ (p ++ s) = (text_eq_iff s (x ∷ (p ++ s))).0 same in
      absurd (omega (arith, ap (λ (t : Text). length t) e, length-append p s))
  | inr other ↦ other
]

-- Over a SimpleBackend, a node none of whose labels begins with the prefix is read back under its
-- label as it was upserted, also where a callback throws. The prefix is not empty and ends in a
-- slash.
pub get_node-upsert_node_outside :
    (p : Text) (n : TreeNode) (s : SimpleBackend)
    → is_empty p ≡ false
    → back p ≡ slash
    → NodeIsOutside p n
    → get_node simple_backend p (upsert_node simple_backend p (n ∷ []) s).1 n.label_rule
      ≡ ok (some n)
unfolding get_node
get_node-upsert_node_outside p n s filled ends outside =
    let stored : text_eq (add_prefix p n.label_rule) (p ++ n.label_rule) ≡ true =
      rw (added p n.label_rule outside.0) (text_eq_refl (p ++ n.label_rule)) in
    rw (get_node, read_upserted p filled ends n s (p ++ n.label_rule), stored)
      (ap (λ (x : TreeNode). ok (some x)) (shorten-prefixed p n filled outside))

-- A node whose own label begins with the prefix is not stored under it again: reading its label
-- through the redirection gives what it gave before the upsert.
pub get_node-upsert_node_inside :
    (p : Text) (n : TreeNode) (s : SimpleBackend)
    → is_empty p ≡ false
    → back p ≡ slash
    → starts_with n.label_rule p ≡ true
    → get_node simple_backend p (upsert_node simple_backend p (n ∷ []) s).1 n.label_rule
      ≡ get_node simple_backend p s n.label_rule
unfolding get_node
get_node-upsert_node_inside p n s filled ends inside =
    rw
      (
        get_node,
        read_upserted p filled ends n s (p ++ n.label_rule),
        kept p n.label_rule inside,
        longer_ne p n.label_rule filled,
      )
      refl
