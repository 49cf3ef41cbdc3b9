-- ===== src/MemoryTree/Upsert.antt =====
-- upsertNode is a write of each node under its own label, and keeps the map sorted.
use world_wide_anthropomorph.Base.{◌∙◌, ap, ◌≡◌, refl, Option, some, List, [], ◌∷◌, if◌then◌else◌}
use world_wide_anthropomorph.Text.{Text, text_eq}
use world_wide_anthropomorph.OrderedMap.Laws.{lookup-insert}
use world_wide_anthropomorph.OrderedMap.Sorted.{IsSorted, insert-IsSorted}
use world_wide_anthropomorph.TreeNode.{TreeNode}
use world_wide_anthropomorph.MemoryTree.{MemoryTree, get_node, upsert_node}

-- The last node of the list that has the label, or else the one given.
abbrev pub last_labelled : Text → List TreeNode → Option TreeNode → Option TreeNode
last_labelled k [] o = o
last_labelled k (n ∷ nodes) o = last_labelled k nodes (if text_eq n.label_rule k then some n else o)

-- After upsertNode a label has the last of the nodes with that label, and the node that it had
-- before where none of them has it.
pub get_node-upsert_node :
    (k : Text) (nodes : List TreeNode) (t : MemoryTree)
    → get_node (upsert_node nodes t) k ≡ last_labelled k nodes (get_node t k)
unfolding get_node upsert_node
get_node-upsert_node k [] t = refl
get_node-upsert_node k (n ∷ nodes) t =
    get_node-upsert_node k nodes _ ∙ ap (last_labelled k nodes) (lookup-insert k n.label_rule n t)

pub upsert_node-IsSorted :
    (nodes : List TreeNode) (t : MemoryTree) → IsSorted t → IsSorted (upsert_node nodes t)
unfolding upsert_node
upsert_node-IsSorted [] t s = s
upsert_node-IsSorted (n ∷ nodes) t s =
    upsert_node-IsSorted nodes _ (insert-IsSorted n.label_rule n t s)
