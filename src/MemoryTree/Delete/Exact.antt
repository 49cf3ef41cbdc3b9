-- ===== src/MemoryTree/Delete/Exact.antt =====
-- deleteNode as a whole: what is gone afterwards and what stays.
use mathlib.Core.Option.{some-injective}
use world_wide_anthropomorph.Base.{
  Member-keep_if, subst, suc, ◌+◌, ◌<◌, ◌≡◌, ◌∙◌, sym, refl, true, false, none, some, List, reverse,
  arith, length, Bool-cases, inl, inr, ◌⊎◌, ◌≢◌, Member, Member-reverse, Member-reverse_inverse,
}
use world_wide_anthropomorph.Text.{Text, text_eq, text_eq_iff, contains}
use world_wide_anthropomorph.OrderedMap.{lookup, erase}
use world_wide_anthropomorph.TreeNode.{TreeNode}
use world_wide_anthropomorph.TreeNode.Labels.{get_absolute_child_names}
use world_wide_anthropomorph.MemoryTree.{
  MemoryTree, owned_children, delete_loop, weight, delete_node, get_node,
}
use world_wide_anthropomorph.MemoryTree.Delete.Rounds.{weight-erase_le}
use world_wide_anthropomorph.MemoryTree.Delete.Descendants.{
  Descendant, child, below, Pending, Shrunk, Shrunk-erase, lookup-erase_self, lookup-erase_ne,
  delete_loop_closes, delete_loop_gone, delete_loop_takes, delete_loop_leaves,
}

true_ne_false : true ≢ false
true_ne_false h = cc

not_same_text : (j k : Text) → j ≢ k → text_eq k j ≡ false
not_same_text j k d = elim (Bool-cases (text_eq k j)) [
  | inl same ↦ absurd (d (sym ((text_eq_iff k j).0 same)))
  | inr other ↦ other
]

module _ (t : MemoryTree) (label : Text) (node : TreeNode)
    (found : lookup label t ≡ some node) where
  abbrev queue : List Text
  queue = reverse (get_absolute_child_names node)

  abbrev after : MemoryTree
  after = (delete_loop (suc (length queue + weight t)) label queue (erase label t)).1

  delete_node-found : delete_node label t ≡ (true, after)
  unfolding delete_node
  delete_node-found = rw (found, delete_node)

  enough : length queue + weight (erase label t) < suc (length queue + weight t)
  enough = omega (arith, weight-erase_le label t)

  Shrunk-start : Shrunk t label (erase label t)
  Shrunk-start = Shrunk-erase t label label t (λ k. inr refl)

  Pending-start : Pending t label queue (erase label t)
  Pending-start k c n e g d m = elim (Bool-cases (text_eq label k)) [
    | inl same ↦ absurd (d (sym ((text_eq_iff label k).0 same)))
    | inr other ↦ cc (lookup-erase_ne t label label k t other)
  ]

  Member-owned :
      (c : Text) → Member c (owned_children label node) → Member c (get_absolute_child_names node)
  unfolding owned_children
  Member-owned c m =
      (Member-keep_if (λ child. contains child label) c (get_absolute_child_names node) m).0

  child-gone : (c : Text) → Member c (get_absolute_child_names node) → lookup c after ≡ none
  child-gone c m =
      delete_loop_takes t label _ queue (erase label t) c enough
        (Member-reverse c (get_absolute_child_names node) m)

  Descendant-gone : {c : Text} → Descendant t label c → lookup c after ≡ none
  Descendant-gone (child {n} {c} e m) =
      child-gone c (
        subst (λ x. Member c (get_absolute_child_names x)) (some-injective n node (sym e ∙ found))
          m)
  Descendant-gone (below {k} {c} {n} d e m) = elim (Bool-cases (text_eq k label)) [
    | inl same ↦
        let at_label : lookup label t ≡ some n = rw (sym ((text_eq_iff k label).0 same)) e in
        child-gone c (
          Member-owned c (
            subst (λ x. Member c (owned_children label x))
              (some-injective n node (sym at_label ∙ found)) m))
    | inr other ↦
        delete_loop_closes t label _ queue (erase label t) enough Shrunk-start Pending-start k c n e
          (Descendant-gone d) (λ q. true_ne_false (sym ((text_eq_iff k label).1 q) ∙ other)) m
  ]

  others-left : (k : Text) → k ≢ label → (lookup k after ≡ lookup k t) ⊎ Descendant t label k
  others-left k d =
      elim (delete_loop_leaves t label (suc (length queue + weight t)) queue (erase label t) k
        Shrunk-start
        (λ c m. child found (Member-reverse_inverse c (get_absolute_child_names node) m))) [
          | inl same ↦ inl (same ∙ lookup-erase_ne t label label k t (not_same_text k label d))
          | inr h ↦ inr h
        ]

-- deleteNode of a label that is in the tree returns true; the label and all its descendants are
-- gone, and every other label that is no descendant has the node that it had.
pub delete_node-exact :
    (t : MemoryTree) (label : Text) (node : TreeNode)
    → get_node t label ≡ some node
    → ((delete_node label t).0 ≡ true)
      × (get_node (delete_node label t).1 label ≡ none)
      × ((c : Text) → Descendant t label c → get_node (delete_node label t).1 c ≡ none)
      × ((k : Text)
          → k ≢ label
          → (get_node (delete_node label t).1 k ≡ get_node t k) ⊎ Descendant t label k)
unfolding get_node
delete_node-exact t label node found = rw (delete_node-found t label node found) (
  refl,
  delete_loop_gone t label _ _ (erase label t) label (lookup-erase_self t label label t),
  λ c d. Descendant-gone t label node found d,
  λ k d. others-left t label node found k d,
)

-- deleteNode of a label that is not in the tree returns false and changes nothing.
pub delete_node-missing :
    (t : MemoryTree) (label : Text) → get_node t label ≡ none → delete_node label t ≡ (false, t)
unfolding get_node delete_node
delete_node-missing t label e = rw (e, delete_node)
