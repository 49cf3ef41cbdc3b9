-- ===== src/MemoryTree/Delete/Rounds.antt =====
-- The loop of deleteNode ends: each round takes a label off to_delete, and only a round that takes
-- a node out of the tree adds its children.
use world_wide_anthropomorph.Base.{
  ℕ, zero, suc, ◌+◌, ◌≤◌, ◌<◌, ◌≡◌, refl, some, List, [], ◌∷◌, ◌++◌, reverse, arith, length,
  Option-cases, inl, inr, length-append, length-keep_if, map,
}
use mathlib.Core.List.{reverse-append}
use world_wide_anthropomorph.Text.{Text, contains, slash}
use world_wide_anthropomorph.OrderedMap.{lookup, erase}
use world_wide_anthropomorph.TreeNode.{TreeNode}
use world_wide_anthropomorph.TreeNode.Labels.{get_absolute_child_names}
use world_wide_anthropomorph.MemoryTree.{MemoryTree, owned_children, delete_loop, weight}

pub length-reverse : (xs : List Text) → length (reverse xs) ≡ length xs
length-reverse [] = refl
length-reverse (x ∷ xs) =
    rw (reverse-append (x ∷ []) xs)
      (omega (arith, length-append (reverse xs) (x ∷ []), length-reverse xs))

length-map : (n : Text) (xs : List Text) → length (map (λ c. n ++ slash ∷ c) xs) ≡ length xs
length-map n [] = refl
length-map n (x ∷ xs) = omega (arith, length-map n xs)

pub length-owned_children :
    (label_rule : Text) (n : TreeNode) → length (owned_children label_rule n) ≤ length n.child_names
unfolding owned_children
length-owned_children label_rule n = omega (
  arith,
  length-keep_if (λ child. contains child label_rule) (get_absolute_child_names n),
  length-map n.label_rule n.child_names,
)

pub weight-erase_le : (k : Text) (t : MemoryTree) → weight (erase k t) ≤ weight t
unfolding weight erase
weight-erase_le k [] = omega arith
weight-erase_le k ((j, n) ∷ t) = ground (arith, weight-erase_le k t)

pub weight-erase :
    (k : Text) (n : TreeNode) (t : MemoryTree)
    → lookup k t ≡ some n
    → weight (erase k t) + suc (length n.child_names) ≤ weight t
unfolding weight erase lookup
weight-erase k n [] h = cc
weight-erase k n ((j, m) ∷ t) h = ground (arith, weight-erase k n t, weight-erase_le k t)

-- With more rounds than there are labels to delete, nodes in the tree and children of these, the
-- loop of deleteNode ends with nothing left to delete.
pub delete_loop_ends :
    (f : ℕ) (label_rule : Text) (to_delete : List Text) (t : MemoryTree)
    → length to_delete + weight t < f
    → (delete_loop f label_rule to_delete t).0 ≡ []
unfolding delete_loop
delete_loop_ends zero label_rule to_delete t h = elim h [ ]
delete_loop_ends (suc f) label_rule [] t h = refl
delete_loop_ends (suc f) label_rule (current ∷ to_delete) t h =
    elim (Option-cases (lookup current t)) [
      | inl e ↦ rw (e, delete_loop) (delete_loop_ends f label_rule to_delete t (omega arith))
      | inr (node, e) ↦
          rw (e, delete_loop)
            (delete_loop_ends f label_rule _ (erase current t) (
              omega (
                arith,
                length-append (reverse (owned_children label_rule node)) to_delete,
                length-reverse (owned_children label_rule node),
                length-owned_children label_rule node,
                weight-erase current node t e,
              )))
    ]
