-- ===== src/TransactionalBackend.antt =====
-- common/backend_cpp/memory/src/transactional_backend.cpp: layers of uncommitted changes over
-- another backend.
pub mod Stack
pub mod Reads
pub mod Isolation
pub mod Commit
use world_wide_anthropomorph.TransactionalBackend.Stack.{
  labelled, find_child, find_in_sub, find_in_stack, set_child, update_first, upsert_in_sub,
  upsert_in_stack, upsert_loop, delete_in_sub, delete_in_stack, stand_ins, query_results,
  overlaps_stack, layer_prior,
}
use world_wide_anthropomorph.Base.{
  ℕ, Bool, true, false, not, Option, none, some, List, [], ◌∷◌, ◌++◌, if◌then◌else◌, Result, ok,
  err, delete_not_tracked, full_tree_in_transaction, overlap_in_stack, page_node_not_found,
}
use world_wide_anthropomorph.Text.{Text, slash, text_eq}
use world_wide_anthropomorph.TreeNode.{TreeNode, NewNodeVersion, SubTransaction, Transaction}
use world_wide_anthropomorph.TreeNode.Version.{next_number}
use world_wide_anthropomorph.LabelRule.{check_label_rule_overlap}
use world_wide_anthropomorph.Backend.{Backend, NodeListenerCallback, Exec, ◌>>=◌, ◌>>◌, pure}

-- The members: the state of the backend below, and transaction_stack_.
pub record TransactionalBackend (S : Type 0) : Type 0 where
  pub tree : S
  pub transaction_stack : Transaction

-- A method of the backend below.
abbrev pub below : {S A : Type 0} → Exec S A → Exec (TransactionalBackend S) A
below m b = let (r, s) = m b.tree in (r, record b { tree = s })

module _ {S : Type 0} (B : Backend S) where
  -- TransactionalBackend::getNode
  unfoldable pub get_node : TransactionalBackend S → Text → Result (Option TreeNode)
  unfolding find_in_stack
  get_node b label_rule = elim (find_in_stack label_rule b.transaction_stack) [
    | some n ↦ ok (some n)
    | none ↦ B.get_node b.tree label_rule
  ]

  -- TransactionalBackend::upsertNode
  unfoldable pub upsert_node : List TreeNode → Exec (TransactionalBackend S) Bool
  unfolding upsert_loop
  upsert_node nodes b = elim b.transaction_stack [
    | [] ↦ (below (B.upsert_node nodes) >> pure true) b
    | s ∷ stack ↦ (ok true, record b { transaction_stack = upsert_loop nodes (s ∷ stack) })
  ]

  -- TransactionalBackend::deleteNode
  unfoldable pub delete_node : Text → Exec (TransactionalBackend S) Bool
  unfolding delete_in_stack
  delete_node label_rule b = elim b.transaction_stack [
    | [] ↦ (below (B.delete_node label_rule) >> pure true) b
    | s ∷ stack ↦ elim (delete_in_stack label_rule (s ∷ stack)) [
      | some stack' ↦ (ok true, record b { transaction_stack = stack' })
      | none ↦ (err delete_not_tracked, b)
    ]
  ]

  -- The loop over the children in getPageTree.
  unfoldable pub get_page_nodes : TransactionalBackend S → List Text → Result (List TreeNode)
  unfolding get_node
  get_page_nodes b [] = ok []
  get_page_nodes b (child ∷ children) =
      let rest = get_page_nodes b children in
      elim (get_node b child) [
        | err e ↦ err e
        | ok none ↦ rest
        | ok (some n) ↦ elim rest [ ok ns ↦ ok (n ∷ ns) | err e ↦ err e ]
      ]

  -- TransactionalBackend::getPageTree
  unfoldable pub get_page_tree : TransactionalBackend S → Text → Result (List TreeNode)
  unfolding get_page_nodes
  get_page_tree b page_node_label_rule = elim b.transaction_stack [
    | [] ↦ B.get_page_tree b.tree page_node_label_rule
    | s ∷ stack ↦ elim (get_node b page_node_label_rule) [
      | err e ↦ err e
      | ok none ↦ err page_node_not_found
      | ok (some page) ↦ get_page_nodes b page.child_names
    ]
  ]

  -- TransactionalBackend::queryNodes
  unfoldable pub query_nodes : TransactionalBackend S → Text → Result (List TreeNode)
  unfolding query_results
  query_nodes b label_rule = elim b.transaction_stack [
    | [] ↦ B.query_nodes b.tree label_rule
    | s ∷ stack ↦ elim (B.query_nodes b.tree label_rule) [
      | ok nodes ↦ ok (query_results label_rule (s ∷ stack) nodes)
      | err e ↦ err e
    ]
  ]

  -- TransactionalBackend::openTransactionLayer
  unfoldable pub open_transaction_layer : TreeNode → Exec (TransactionalBackend S) Bool
  unfolding overlaps_stack layer_prior
  open_transaction_layer node b =
      if overlaps_stack node.label_rule b.transaction_stack
      then (err overlap_in_stack, b)
      else elim (B.get_node b.tree node.label_rule) [
        | err e ↦ (err e, b)
        | ok old ↦ elim (layer_prior old) [
          | err e ↦ (err e, b)
          | ok prior ↦
              let layer : SubTransaction = record {
                parent = record { prior = prior; label = node.label_rule; node = some node };
                children = [];
              } in
              (ok true, record b { transaction_stack = b.transaction_stack ++ layer ∷ [] })
        ]
      ]

  unfoldable pub clear_stack : Exec (TransactionalBackend S) Bool
  clear_stack b = (ok true, record b { transaction_stack = [] })

  -- TransactionalBackend::closeTransactionLayers
  unfoldable pub close_transaction_layers : Exec (TransactionalBackend S) Bool
  unfolding clear_stack
  close_transaction_layers b = elim b.transaction_stack [
    | [] ↦ (ok true, b)
    | s ∷ stack ↦ (below (B.apply_transaction (s ∷ stack)) >> clear_stack) b
  ]

  -- TransactionalBackend::getFullTree
  unfoldable pub get_full_tree : TransactionalBackend S → Result (List TreeNode)
  get_full_tree b = elim b.transaction_stack [
    | [] ↦ B.get_full_tree b.tree
    | s ∷ stack ↦ err full_tree_in_transaction
  ]

  -- The class as a backend; its wrapped callbacks tell the same.
  abbrev pub transactional_backend : Backend (TransactionalBackend S)
  transactional_backend = record {
    get_node = get_node;
    upsert_node = upsert_node;
    delete_node = delete_node;
    get_page_tree = get_page_tree;
    relative_get_page_tree = λ b node rule. get_page_tree b (node.label_rule ++ slash ∷ rule);
    query_nodes = query_nodes;
    relative_query_nodes = λ b node rule. query_nodes b (node.label_rule ++ slash ∷ rule);
    open_transaction_layer = open_transaction_layer;
    close_transaction_layers = close_transaction_layers;
    apply_transaction = λ transaction. below (B.apply_transaction transaction);
    get_full_tree = get_full_tree;
    register_node_listener = λ name rule child_notify callback.
        below (B.register_node_listener name rule child_notify callback);
    deregister_node_listener = λ name rule. below (B.deregister_node_listener name rule);
    notify_listeners = λ label node. below (B.notify_listeners label node);
    process_notifications = below B.process_notifications;
  }
