-- ===== src/TreeNode/Labels.antt =====
-- common/backend_cpp/interface/tree_node.cpp: names and paths of label rules, and the change of
-- labels between a mounted tree and the tree that it is mounted in.
pub mod Laws
pub mod RoundTrip
use world_wide_anthropomorph.Base.{
  ℕ, suc, ◌+◌, Bool, true, false, not, Option, none, some, List, [], ◌∷◌, ◌++◌, map, arith, ◌==◌,
  if◌then◌else◌, length, take, drop, Result, ok, err, bad_prefix, ◌>>=◌, map_ok,
}
use world_wide_anthropomorph.Text.{Text, slash, starts_with, find_last, back, is_empty, text_eq}
use world_wide_anthropomorph.TreeNode.{TreeNode, NewNodeVersion, SubTransaction, Transaction}

-- TreeNode::getNodeName
unfoldable pub get_node_name : TreeNode → Text
get_node_name n = elim (find_last slash n.label_rule) [
  | some pos ↦ drop (suc pos) n.label_rule
  | none ↦ n.label_rule
]

-- TreeNode::getNodePath
unfoldable pub get_node_path : TreeNode → Text
get_node_path n = elim (find_last slash n.label_rule) [
  | some pos ↦ take (suc pos) n.label_rule
  | none ↦ []
]

-- TreeNode::getAbsoluteChildNames
unfoldable pub get_absolute_child_names : TreeNode → List Text
get_absolute_child_names n = map (λ child_name. n.label_rule ++ slash ∷ child_name) n.child_names

unfoldable pub add_prefix : Text → Text → Text
add_prefix prefix label = if starts_with label prefix then label else prefix ++ label

unfoldable pub drop_prefix : Text → Text → Text
drop_prefix prefix label = if starts_with label prefix then drop (length prefix) label else label

-- TreeNode::prefixLabels
unfoldable pub prefix_labels : Text → TreeNode → Result TreeNode
unfolding add_prefix
prefix_labels prefix n =
    if is_empty prefix
    then ok n
    else if not (back prefix == slash)
    then err bad_prefix
    else ok (record n {
      label_rule = add_prefix prefix n.label_rule;
      child_names = map (add_prefix prefix) n.child_names;
    })

-- TreeNode::shortenLabels
unfoldable pub shorten_labels : Text → TreeNode → TreeNode
unfolding drop_prefix
shorten_labels prefix n = if is_empty prefix then n else record n {
  label_rule = drop_prefix prefix n.label_rule;
  child_names = map (drop_prefix prefix) n.child_names;
}

abbrev prefix_maybe : Text → Option TreeNode → Result (Option TreeNode)
prefix_maybe prefix none = ok none
prefix_maybe prefix (some n) = prefix_labels prefix n >>= λ m. ok (some m)

-- prefixNewNodeVersionLabels
unfoldable pub prefix_new_node_version : Text → NewNodeVersion → Result NewNodeVersion
unfolding prefix_labels
prefix_new_node_version prefix v =
    if is_empty prefix
    then ok v
    else if not (back prefix == slash)
    then err bad_prefix
    else prefix_maybe prefix v.node >>= λ m.
        ok (record v { label = add_prefix prefix v.label; node = m })

-- shortenNewNodeVersionLabels
unfoldable pub shorten_new_node_version : Text → NewNodeVersion → NewNodeVersion
unfolding shorten_labels
shorten_new_node_version prefix v = if is_empty prefix then v else record v {
  label = drop_prefix prefix v.label;
  node = elim v.node [ none ↦ none | some n ↦ some (shorten_labels prefix n) ];
}

-- prefixSubTransactionLabels
unfoldable pub prefix_sub_transaction : Text → SubTransaction → Result SubTransaction
unfolding prefix_new_node_version
prefix_sub_transaction prefix s =
    if is_empty prefix
    then ok s
    else prefix_new_node_version prefix s.parent >>= λ p.
        map_ok (prefix_new_node_version prefix) s.children >>= λ cs.
        ok (record { parent = p; children = cs })

-- shortenSubTransactionLabels
unfoldable pub shorten_sub_transaction : Text → SubTransaction → SubTransaction
unfolding shorten_new_node_version
shorten_sub_transaction prefix s = if is_empty prefix then s else record {
  parent = shorten_new_node_version prefix s.parent;
  children = map (shorten_new_node_version prefix) s.children;
}

-- prefixTransactionLabels
unfoldable pub prefix_transaction : Text → Transaction → Result Transaction
unfolding prefix_sub_transaction
prefix_transaction prefix ss =
    if is_empty prefix then ok ss else map_ok (prefix_sub_transaction prefix) ss

-- shortenTransactionLabels
unfoldable pub shorten_transaction : Text → Transaction → Transaction
unfolding shorten_sub_transaction
shorten_transaction prefix ss =
    if is_empty prefix then ss else map (shorten_sub_transaction prefix) ss
