-- ===== src/Tests/Layers.antt =====
-- Tests of TransactionalBackend, and examples for its theorems.
use world_wide_anthropomorph.Base.{
  true, ◌≡◌, refl, arith, none, some, List, [], ◌∷◌, ok, err, Error,
}
use world_wide_anthropomorph.Text.{text_eq, bytes}
use world_wide_anthropomorph.LabelRule.{check_label_rule_overlap}
use world_wide_anthropomorph.TreeNode.{TreeNode, Transaction}
use world_wide_anthropomorph.MemoryTree
use world_wide_anthropomorph.SimpleBackend.{SimpleBackend, simple_backend}
use world_wide_anthropomorph.TransactionalBackend.Stack.{upsert_in_stack}
use world_wide_anthropomorph.TransactionalBackend.{
  TransactionalBackend, upsert_node, get_node, open_transaction_layer, close_transaction_layers,
}
use world_wide_anthropomorph.TransactionalBackend.Isolation.{IsOpen, erased, upsert_node-isolated}
use world_wide_anthropomorph.TransactionalBackend.Reads.{get_node-upsert_node_layer}
use world_wide_anthropomorph.TransactionalBackend.Commit.{
  Edit, upsert, delete, edit_all, close-open_throws,
}
use world_wide_anthropomorph.Tests.{
  home, room, three_backend, grow, home_change, new_child, node_at,
}

abbrev layer : TransactionalBackend SimpleBackend
layer = record { tree = three_backend; transaction_stack = grow ∷ [] }

layer-IsOpen : IsOpen layer
layer-IsOpen e = cc e

abbrev third_home : TreeNode
third_home = node_at (bytes "a") [] 3

abbrev updated_stack : Transaction
updated_stack =
    record { parent = record home_change { node = some third_home }; children = new_child ∷ [] }
    ∷ []

third_fits : upsert_in_stack third_home layer.transaction_stack ≡ some updated_stack
unfolding upsert_in_stack check_label_rule_overlap text_eq
third_fits = refl

-- The layer at a has the node a/d, and still an upsert of a/d is dropped.
child_unfit : upsert_in_stack (node_at (bytes "a/d") [] 7) layer.transaction_stack ≡ none
unfolding upsert_in_stack check_label_rule_overlap text_eq
child_unfit = refl

upsert_node-isolated_example :
    ((upsert_node simple_backend (third_home ∷ room ∷ []) layer).0 ≡ ok true)
    × ((upsert_node simple_backend (third_home ∷ room ∷ []) layer).1.tree ≡ three_backend)
    × (erased (upsert_node simple_backend (third_home ∷ room ∷ []) layer).1.transaction_stack
        ≡ erased (grow ∷ []))
upsert_node-isolated_example =
    upsert_node-isolated simple_backend (third_home ∷ room ∷ []) layer layer-IsOpen

get_node-upsert_node_layer_example :
    get_node simple_backend
      (upsert_node simple_backend (third_home ∷ room ∷ []) layer).1
      (bytes "a")
    ≡ ok (some third_home)
get_node-upsert_node_layer_example =
    get_node-upsert_node_layer simple_backend third_home (room ∷ []) layer third_fits

home_below : MemoryTree.get_node three_backend.memory_tree (bytes "a") ≡ some home
unfolding MemoryTree.get_node text_eq
home_below = refl

abbrev an_edit : List Edit
an_edit = upsert (third_home ∷ []) ∷ delete (bytes "a/b") ∷ []

close-open_throws_example :
    let b : TransactionalBackend SimpleBackend = record {
      tree = three_backend;
      transaction_stack = [];
    } in
    let edited = edit_all an_edit (open_transaction_layer simple_backend home b).1 in
    (e : Error) × (close_transaction_layers simple_backend edited ≡ (err e, edited))
close-open_throws_example =
    close-open_throws home home three_backend an_edit home_below (omega arith) (omega arith)
