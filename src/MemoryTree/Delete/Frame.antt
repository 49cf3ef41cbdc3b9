-- ===== src/MemoryTree/Delete/Frame.antt =====
-- What deleteNode does not touch, read off the label rules.
use world_wide_anthropomorph.Base.{
  ◌≡◌, ◌∙◌, sym, true, false, some, List, [], ◌∷◌, ◌++◌, arith, Member, Member-keep_if, map, inl,
  inr, subst, ap,
}
use mathlib.Core.List.{append-nil}
use mathlib.Core.Option.{some-injective}
use world_wide_anthropomorph.Text.{Text, contains, starts_with, slash}
use world_wide_anthropomorph.Text.Search.{starts_with-append}
use world_wide_anthropomorph.TreeNode.{TreeNode}
use world_wide_anthropomorph.TreeNode.Labels.{get_absolute_child_names}
use world_wide_anthropomorph.MemoryTree.{MemoryTree, get_node, delete_node, owned_children}
use world_wide_anthropomorph.MemoryTree.Delete.Descendants.{Descendant, child, below}
use world_wide_anthropomorph.MemoryTree.Delete.Exact.{delete_node-exact}

contains_of_prefix : (s p : Text) → starts_with s p ≡ true → contains s p ≡ true
unfolding contains
contains_of_prefix [] p h = h
contains_of_prefix (x ∷ s) p h = ground arith

contains-append : (p s : Text) → contains (p ++ s) p ≡ true
contains-append p s = contains_of_prefix (p ++ s) p (starts_with-append p s)

contains_self : (p : Text) → contains p p ≡ true
contains_self p = subst (λ x. contains x p ≡ true) (append-nil p) (contains-append p [])

contradict : (label k : Text) → contains k label ≡ true → contains k label ≡ false → ⊥
contradict label k h g = cc

children_contain :
    (label c : Text) (names : List Text)
    → Member c (map (λ child_name. label ++ slash ∷ child_name) names)
    → contains c label ≡ true
children_contain label c [] m = absurd m
children_contain label c (name ∷ names) (inl e) =
    subst (λ x. contains x label ≡ true) (sym e) (contains-append label (slash ∷ name))
children_contain label c (name ∷ names) (inr m) = children_contain label c names m

Descendant-contains :
    (t : MemoryTree) (label : Text) (node : TreeNode)
    → get_node t label ≡ some node
    → node.label_rule ≡ label
    → {c : Text} → Descendant t label c
    → contains c label ≡ true
unfolding get_absolute_child_names owned_children get_node
Descendant-contains t label node found keyed (child {n} {c} e m) =
    let n_is_node : n ≡ node = some-injective n node (sym e ∙ found) in
    let n_label : n.label_rule ≡ label = ap (λ (x : TreeNode). x.label_rule) n_is_node ∙ keyed in
    subst (λ l. contains c l ≡ true) n_label (children_contain n.label_rule c n.child_names m)
Descendant-contains t label node found keyed (below {c = c} {n = n} d e m) =
    (Member-keep_if (λ child. contains child label) c (get_absolute_child_names n) m).1

-- deleteNode of a node that is stored under its own label changes nothing at any label that does
-- not contain the deleted one.
pub delete_node-elsewhere :
    (t : MemoryTree) (label k : Text) (node : TreeNode)
    → get_node t label ≡ some node
    → node.label_rule ≡ label
    → contains k label ≡ false
    → get_node (delete_node label t).1 k ≡ get_node t k
delete_node-elsewhere t label k node found keyed apart =
    elim ((delete_node-exact t label node found).3 k (λ e.
      contradict label k (subst (λ x. contains x label ≡ true) (sym e) (contains_self label))
        apart)) [
          | inl same ↦ same
          | inr d ↦
              absurd (contradict label k (Descendant-contains t label node found keyed d) apart)
        ]
