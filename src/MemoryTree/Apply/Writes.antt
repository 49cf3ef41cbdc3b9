-- ===== src/MemoryTree/Apply/Writes.antt =====
-- The second loop of applyTransaction refines a list of writes, of which the last at a key counts.
use world_wide_anthropomorph.Base.{
  sym, ◌≡◌, ◌∙◌, ap, refl, Option, none, some, List, [], ◌∷◌, ◌++◌, if◌then◌else◌,
}
use world_wide_anthropomorph.Text.{Text, text_eq}
use world_wide_anthropomorph.OrderedMap.{lookup}
use world_wide_anthropomorph.OrderedMap.Laws.{lookup-insert, lookup-erase}
use world_wide_anthropomorph.OrderedMap.Sorted.{IsSorted, insert-IsSorted, erase-IsSorted}
use world_wide_anthropomorph.TreeNode.{TreeNode, NewNodeVersion, Transaction}
use world_wide_anthropomorph.MemoryTree.{
  MemoryTree, get_node, write, write_children, parent_key, perform_sub_transaction, perform_all,
}

-- A key and what it holds after the write.
abbrev pub Write : Type 0
Write = Text × Option TreeNode

abbrev pub child_writes : List NewNodeVersion → List Write
child_writes [] = []
child_writes (c ∷ cs) = (c.label, c.node) ∷ child_writes cs

-- The writes of a transaction, in order: each parent before its children.
abbrev pub writes : Transaction → List Write
writes [] = []
writes (s ∷ ss) = ((parent_key s.parent, s.parent.node) ∷ child_writes s.children) ++ writes ss

-- What a key holds after the writes, from what it holds before.
abbrev pub after_writes : Text → List Write → Option TreeNode → Option TreeNode
after_writes k [] o = o
after_writes k ((j, n) ∷ ws) o = after_writes k ws (if text_eq j k then n else o)

after_writes-append :
    (k : Text) (vs ws : List Write) (o : Option TreeNode)
    → after_writes k (vs ++ ws) o ≡ after_writes k ws (after_writes k vs o)
after_writes-append k [] ws o = refl
after_writes-append k ((j, n) ∷ vs) ws o = after_writes-append k vs ws _

lookup-write :
    (k j : Text) (n : Option TreeNode) (t : MemoryTree)
    → lookup k (write j n t) ≡ (if text_eq j k then n else lookup k t)
unfolding write
lookup-write k j none t = lookup-erase k j t
lookup-write k j (some n) t = lookup-insert k j n t

lookup-write_children :
    (k : Text) (cs : List NewNodeVersion) (t : MemoryTree)
    → lookup k (write_children cs t) ≡ after_writes k (child_writes cs) (lookup k t)
unfolding write_children
lookup-write_children k [] t = refl
lookup-write_children k (c ∷ cs) t =
    lookup-write_children k cs _
    ∙ ap (after_writes k (child_writes cs)) (lookup-write k c.label c.node t)

-- Performing a transaction leaves at every key what the last of its writes there says, and leaves
-- every other key as it was.
pub get_node-perform_all :
    (k : Text) (transaction : Transaction) (t : MemoryTree)
    → get_node (perform_all transaction t) k ≡ after_writes k (writes transaction) (get_node t k)
unfolding get_node perform_all
get_node-perform_all k [] t = refl
get_node-perform_all k (s ∷ ss) t =
    get_node-perform_all k ss (perform_sub_transaction s t)
    ∙ (ap (after_writes k (writes ss)) (
          lookup-write_children k s.children _
          ∙ ap (after_writes k (child_writes s.children)) (lookup-write k _ s.parent.node t))
        ∙ sym (
            after_writes-append k ((parent_key s.parent, s.parent.node) ∷ child_writes s.children)
              (writes ss) (lookup k t)))

write-IsSorted :
    (j : Text) (n : Option TreeNode) (t : MemoryTree) → IsSorted t → IsSorted (write j n t)
unfolding write
write-IsSorted j none t s = erase-IsSorted j t s
write-IsSorted j (some n) t s = insert-IsSorted j n t s

write_children-IsSorted :
    (cs : List NewNodeVersion) (t : MemoryTree) → IsSorted t → IsSorted (write_children cs t)
unfolding write_children
write_children-IsSorted [] t s = s
write_children-IsSorted (c ∷ cs) t s =
    write_children-IsSorted cs _ (write-IsSorted c.label c.node t s)

-- Performing a transaction on a tree whose keys are in order leaves its keys in order.
pub perform_all-IsSorted :
    (transaction : Transaction) (t : MemoryTree) → IsSorted t → IsSorted (perform_all transaction t)
unfolding perform_all
perform_all-IsSorted [] t s = s
perform_all-IsSorted (x ∷ xs) t s =
    perform_all-IsSorted xs _ (
      write_children-IsSorted x.children _ (write-IsSorted (parent_key x.parent) x.parent.node t s))
