-- ===== src/MemoryTree.antt =====
-- common/backend_cpp/memory/src/memory_tree.cpp: the in-memory tree. Its one member, tree_, is the
-- map from label rules to nodes. A method that changes the tree returns the new one.
pub mod Upsert
pub mod Delete
pub mod Apply
use world_wide_anthropomorph.Base.{
  ℕ, zero, suc, ◌+◌, ◌%◌, ◌≡◌, Bool, true, false, not, Option, none, some, List, [], ◌∷◌, ◌++◌,
  reverse, arith, ◌==◌, if◌then◌else◌, length, keep_if, Result, ok, err, ◌>>=◌,
  transaction_not_valid, trap,
}
use world_wide_anthropomorph.Text.{Text, text_eq, contains}
use world_wide_anthropomorph.OrderedMap.{OrderedMap, lookup, insert, erase, values}
use world_wide_anthropomorph.TreeNode.{TreeNode, NewNodeVersion, SubTransaction, Transaction}
use world_wide_anthropomorph.TreeNode.Version.{next_number}
use world_wide_anthropomorph.TreeNode.Labels.{get_absolute_child_names}

abbrev pub MemoryTree : Type 0
MemoryTree = OrderedMap TreeNode

-- MemoryTree::getNode
unfoldable pub get_node : MemoryTree → Text → Option TreeNode
unfolding lookup
get_node t label_rule = lookup label_rule t

-- MemoryTree::getNodes
unfoldable pub get_nodes : MemoryTree → List Text → List TreeNode
unfolding get_node
get_nodes t [] = []
get_nodes t (label_rule ∷ rules) =
    let rest = get_nodes t rules in
    elim (get_node t label_rule) [ none ↦ rest | some node ↦ node ∷ rest ]

-- MemoryTree::upsertNode (it returns true)
unfoldable pub upsert_node : List TreeNode → MemoryTree → MemoryTree
unfolding insert
upsert_node [] t = t
upsert_node (node ∷ nodes) t = upsert_node nodes (insert node.label_rule node t)

-- MemoryTree::queryNodes
unfoldable pub query_nodes : MemoryTree → Text → List TreeNode
unfolding contains
query_nodes t label_rule = values (keep_if (λ (key, _). contains key label_rule) t)

-- MemoryTree::getFullTree
unfoldable pub get_full_tree : MemoryTree → List TreeNode
get_full_tree t = values t

-- The children that the loop of deleteNode follows: those with the deleted label in their own.
unfoldable pub owned_children : Text → TreeNode → List Text
unfolding get_absolute_child_names contains
owned_children label_rule n =
    keep_if (λ child. contains child label_rule) (get_absolute_child_names n)

-- The loop of deleteNode, on the rounds left, with the back of to_delete first. It returns what is
-- left of to_delete and the tree.
unfoldable pub delete_loop : ℕ → Text → List Text → MemoryTree → List Text × MemoryTree
unfolding lookup erase owned_children
delete_loop zero label_rule to_delete t = (to_delete, t)
delete_loop (suc f) label_rule [] t = ([], t)
delete_loop (suc f) label_rule (current ∷ to_delete) t = elim (lookup current t) [
  | none ↦ delete_loop f label_rule to_delete t
  | some node ↦
      delete_loop f label_rule (reverse (owned_children label_rule node) ++ to_delete)
        (erase current t)
]

-- The nodes of the tree and all their children: no more rounds than these can be needed.
unfoldable pub weight : MemoryTree → ℕ
weight [] = 0
weight ((_, n) ∷ t) = suc (length n.child_names) + weight t

-- MemoryTree::deleteNode, with the value that it returns
unfoldable pub delete_node : Text → MemoryTree → Bool × MemoryTree
unfolding delete_loop weight
delete_node label_rule t = elim (lookup label_rule t) [
  | none ↦ (false, t)
  | some node ↦
      let to_delete = reverse (get_absolute_child_names node) in
      let rounds = suc (length to_delete + weight t) in
      (true, (delete_loop rounds label_rule to_delete (erase label_rule t)).1)
]

abbrev pub maybe_number_eq : Option ℕ → Option ℕ → Bool
maybe_number_eq none none = true
maybe_number_eq none (some b) = false
maybe_number_eq (some a) none = false
maybe_number_eq (some a) (some b) = a == b

abbrev pub node_number : Option TreeNode → Option ℕ
node_number none = none
node_number (some n) = some n.version.version_number

-- One round of the loop over the children in canPerformSubTransaction: the old child, the version
-- that the change expects, and the new child.
unfoldable pub child_matches : Option TreeNode → Option ℕ → Option TreeNode → Bool
child_matches (some old) none (some new) = false
child_matches (some old) none none = true
child_matches (some old) (some v) new = old.version.version_number == v
child_matches none none new = true
child_matches none (some v) new = false

unfoldable pub children_match : MemoryTree → List NewNodeVersion → Bool
unfolding child_matches lookup
children_match t [] = true
children_match t (child ∷ children) =
    let rest = children_match t children in
    if child_matches (lookup child.label t) child.prior child.node then rest else false

-- The checks of canPerformSubTransaction on a parent that is in the tree.
unfoldable pub parent_matches : MemoryTree → SubTransaction → TreeNode → Result Bool
unfolding children_match next_number
parent_matches t s old =
    if not (maybe_number_eq (some old.version.version_number) s.parent.prior)
    then ok false
    else next_number old.version >>= λ next.
        if not (maybe_number_eq (some next) (node_number s.parent.node))
        then ok false
        else ok (children_match t s.children)

-- MemoryTree::canPerformSubTransaction
unfoldable pub can_perform_sub_transaction : MemoryTree → SubTransaction → Result Bool
unfolding parent_matches
can_perform_sub_transaction t s = elim (lookup s.parent.label t) [
  | none ↦ elim s.parent.prior [ none ↦ ok true | some v ↦ ok false ]
  | some old ↦ parent_matches t s old
]

-- One write of performSubTransaction at a key: a node, or its removal.
unfoldable pub write : Text → Option TreeNode → MemoryTree → MemoryTree
unfolding insert erase
write label none t = erase label t
write label (some n) t = insert label n t

unfoldable pub write_children : List NewNodeVersion → MemoryTree → MemoryTree
unfolding write
write_children [] t = t
write_children (child ∷ children) t = write_children children (write child.label child.node t)

-- The key that the parent is written at: the label of the new node, where there is one.
unfoldable pub parent_key : NewNodeVersion → Text
parent_key v = elim v.node [ none ↦ v.label | some n ↦ n.label_rule ]

-- MemoryTree::performSubTransaction (it returns true)
unfoldable pub perform_sub_transaction : SubTransaction → MemoryTree → MemoryTree
unfolding write_children parent_key
perform_sub_transaction s t =
    write_children s.children (write (parent_key s.parent) s.parent.node t)

-- The first loop of applyTransaction.
unfoldable pub check_all : MemoryTree → Transaction → Result (Unit {0})
unfolding can_perform_sub_transaction
check_all t [] = ok tt
check_all t (s ∷ transaction) =
    let rest = check_all t transaction in
    can_perform_sub_transaction t s >>= λ fits. if fits then rest else err transaction_not_valid

-- The second loop of applyTransaction.
unfoldable pub perform_all : Transaction → MemoryTree → MemoryTree
unfolding perform_sub_transaction
perform_all [] t = t
perform_all (s ∷ transaction) t = perform_all transaction (perform_sub_transaction s t)

-- MemoryTree::applyTransaction
unfoldable pub apply_transaction : Transaction → MemoryTree → Result Bool × MemoryTree
unfolding check_all perform_all
apply_transaction transaction t = elim (check_all t transaction) [
  | ok _ ↦ (ok true, perform_all transaction t)
  | err e ↦ (err e, t)
]
