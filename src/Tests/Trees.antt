-- ===== src/Tests/Trees.antt =====
-- Tests of MemoryTree, and examples for its theorems.
use world_wide_anthropomorph.Text.{text_eq, text_lt, Text, bytes, contains}
use world_wide_anthropomorph.Base.{
  ◌+◌, ◌%◌, ◌≡◌, ◌≢◌, ◌<◌, ◌⊎◌, inl, refl, true, false, none, some, [], ◌∷◌, ok, err, Error, arith,
  length, Member, transaction_not_valid,
}
use world_wide_anthropomorph.OrderedMap.Sorted.{IsSorted}
use world_wide_anthropomorph.TreeNode.{SubTransaction, NewNodeVersion}
use world_wide_anthropomorph.MemoryTree.{
  MemoryTree, get_node, delete_node, delete_loop, weight, apply_transaction, perform_all,
  node_number, can_perform_sub_transaction,
}
use world_wide_anthropomorph.MemoryTree.Delete.Rounds.{delete_loop_ends}
use world_wide_anthropomorph.MemoryTree.Delete.Descendants.{Descendant}
use world_wide_anthropomorph.MemoryTree.Delete.Exact.{delete_node-exact}
use world_wide_anthropomorph.MemoryTree.Delete.Frame.{delete_node-elsewhere}
use world_wide_anthropomorph.MemoryTree.Apply.Checks.{apply_transaction-atomic}
use world_wide_anthropomorph.MemoryTree.Apply.Writes.{get_node-perform_all, after_writes, writes}
use world_wide_anthropomorph.MemoryTree.Apply.Versions.{
  apply_transaction-versions, apply_transaction-refused, ChildFits,
}
use world_wide_anthropomorph.Tests.{node_at, home, room, shed, three_nodes, home_change, grow, raze}

abbrev grown : MemoryTree
grown =
    (bytes "a", node_at (bytes "a") (bytes "b" ∷ bytes "d" ∷ []) 1)
    ∷ (bytes "a/b", room)
    ∷ (bytes "a/d", node_at (bytes "a/d") [] 0)
    ∷ (bytes "c", shed)
    ∷ []

delete_three : delete_node (bytes "a") three_nodes ≡ (true, (bytes "c", shed) ∷ [])
unfolding delete_node text_eq
delete_three = refl

apply_grow : apply_transaction (grow ∷ []) three_nodes ≡ (ok true, grown)
unfolding apply_transaction text_eq text_lt
apply_grow = refl

apply_raze : apply_transaction (raze ∷ []) three_nodes ≡ (err transaction_not_valid, three_nodes)
unfolding apply_transaction text_eq
apply_raze = refl

home_found : get_node three_nodes (bytes "a") ≡ some home
unfolding get_node text_eq
home_found = refl

weight_three : length (bytes "a/b" ∷ []) + weight three_nodes < 7
unfolding weight
weight_three = omega arith

delete_loop_ends_example : (delete_loop 7 (bytes "a") (bytes "a/b" ∷ []) three_nodes).0 ≡ []
delete_loop_ends_example =
    delete_loop_ends 7 (bytes "a") (bytes "a/b" ∷ []) three_nodes weight_three

delete_node-exact_example :
    ((delete_node (bytes "a") three_nodes).0 ≡ true)
    × (get_node (delete_node (bytes "a") three_nodes).1 (bytes "a") ≡ none)
    × ((c : Text)
        → Descendant three_nodes (bytes "a") c
        → get_node (delete_node (bytes "a") three_nodes).1 c ≡ none)
    × ((k : Text)
        → k ≢ bytes "a"
        → (get_node (delete_node (bytes "a") three_nodes).1 k ≡ get_node three_nodes k)
          ⊎ Descendant three_nodes (bytes "a") k)
delete_node-exact_example = delete_node-exact three_nodes (bytes "a") home home_found

c_apart : contains (bytes "c") (bytes "a") ≡ false
unfolding contains
c_apart = refl

delete_node-elsewhere_example :
    get_node (delete_node (bytes "a") three_nodes).1 (bytes "c") ≡ get_node three_nodes (bytes "c")
delete_node-elsewhere_example =
    delete_node-elsewhere three_nodes (bytes "a") (bytes "c") home home_found refl c_apart

apply_transaction-atomic_example :
    ((apply_transaction (grow ∷ []) three_nodes ≡ (ok true, perform_all (grow ∷ []) three_nodes))
      × ((s : SubTransaction)
          → Member s (grow ∷ [])
          → can_perform_sub_transaction three_nodes s ≡ ok true))
    ⊎ ((e : Error) × (apply_transaction (grow ∷ []) three_nodes ≡ (err e, three_nodes)))
apply_transaction-atomic_example = apply_transaction-atomic three_nodes (grow ∷ [])

get_node-perform_all_example :
    get_node (perform_all (grow ∷ []) three_nodes) (bytes "a/d")
    ≡ after_writes (bytes "a/d") (writes (grow ∷ [])) (get_node three_nodes (bytes "a/d"))
get_node-perform_all_example = get_node-perform_all (bytes "a/d") (grow ∷ []) three_nodes

three-IsSorted : IsSorted three_nodes
unfolding text_lt
three-IsSorted = ((refl, (refl, tt)), ((refl, tt), (tt, tt)))

apply_transaction-versions_example :
    (home_change.prior ≡ some home.version.version_number)
    × (node_number home_change.node
        ≡ some ((home.version.version_number + 1) % home.version.max_version_sequence))
    × ((c : NewNodeVersion) → Member c grow.children → ChildFits three_nodes c)
apply_transaction-versions_example =
    apply_transaction-versions three_nodes (grow ∷ []) grow home apply_grow (inl refl) home_found

apply_transaction-refused_example :
    (e : Error) × (apply_transaction (raze ∷ []) three_nodes ≡ (err e, three_nodes))
apply_transaction-refused_example =
    apply_transaction-refused three_nodes (raze ∷ []) raze home (inl refl) home_found (inl refl)
