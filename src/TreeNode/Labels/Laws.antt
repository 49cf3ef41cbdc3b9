-- ===== src/TreeNode/Labels/Laws.antt =====
-- A label rule is its path followed by its name; prefixing makes all labels start with the prefix.
use world_wide_anthropomorph.Base.{
  take-drop, ℕ, suc, ◌≡◌, refl, true, Option, none, some, List, [], ◌∷◌, ◌++◌, map, arith, take,
  drop, All,
}
use world_wide_anthropomorph.Text.{Text, slash, starts_with, find_last}
use world_wide_anthropomorph.Text.Search.{starts_with-append}
use world_wide_anthropomorph.TreeNode.{TreeNode}
use world_wide_anthropomorph.TreeNode.Labels.{get_node_name, get_node_path, add_prefix}

-- The path of a label rule, up to its last slash, and its name, after that, make up the rule.
pub path-append-name : (n : TreeNode) → get_node_path n ++ get_node_name n ≡ n.label_rule
unfolding get_node_name get_node_path
path-append-name n = go (find_last slash n.label_rule)
  where
    go :
        (o : Option ℕ)
        → (elim o [ some pos ↦ take (suc pos) n.label_rule | none ↦ [] ])
            ++ (elim o [ some pos ↦ drop (suc pos) n.label_rule | none ↦ n.label_rule ])
          ≡ n.label_rule
    go none = refl
    go (some pos) = take-drop (suc pos) n.label_rule

pub starts_with-add_prefix : (p s : Text) → starts_with (add_prefix p s) p ≡ true
unfolding add_prefix
starts_with-add_prefix p s = ground (arith, starts_with-append p s)

All-add_prefix :
    (p : Text) (names : List Text) → All (λ s. starts_with s p ≡ true) (map (add_prefix p) names)
All-add_prefix p [] = tt
All-add_prefix p (s ∷ names) = (starts_with-add_prefix p s, All-add_prefix p names)
