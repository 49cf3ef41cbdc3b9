-- ===== src/RedirectedBackend.antt =====
-- common/backend_cpp/structure/redirected_backend.cpp: the part of another backend's tree that
-- lies under a prefix, seen with shorter labels.
pub mod Laws
use world_wide_anthropomorph.Base.{
  Bool, true, false, Option, none, some, List, [], ◌∷◌, ◌++◌, map, if◌then◌else◌, keep_if, length,
  Result, ok, err, map_ok,
}
use world_wide_anthropomorph.Text.{Text, slash, starts_with, substr_from}
use world_wide_anthropomorph.TreeNode.{TreeNode, SubTransaction, Transaction}
use world_wide_anthropomorph.TreeNode.Labels.{prefix_labels, shorten_labels, prefix_sub_transaction}
use world_wide_anthropomorph.Backend.{Backend, NodeListenerCallback, Exec, ◌>>=◌, ◌>>◌, pure}

abbrev shorten_result : Text → Result (List TreeNode) → Result (List TreeNode)
shorten_result prefix (ok nodes) = ok (map (shorten_labels prefix) nodes)
shorten_result prefix (err e) = err e

-- A step on what may have thrown.
abbrev pub lift : {S A B : Type 0} → Result A → (A → Exec S B) → Exec S B
lift r f s = elim r [ ok a ↦ f a s | err e ↦ (err e, s) ]

-- The callback that registerNodeListener wraps around the client's.
unfoldable pub redirect_callback : Text → NodeListenerCallback → NodeListenerCallback
unfolding substr_from shorten_labels
redirect_callback prefix callback label node = elim (substr_from (length prefix) label) [
  | err e ↦ err e
  | ok redirected ↦ elim node [
    | some n ↦ callback redirected (some (shorten_labels prefix n))
    | none ↦ callback redirected none
  ]
]

module _ {S : Type 0} (B : Backend S) (prefix : Text) where
  -- RedirectedBackend::getNode
  unfoldable pub get_node : S → Text → Result (Option TreeNode)
  unfolding shorten_labels
  get_node s label_rule = elim (B.get_node s (prefix ++ label_rule)) [
    | ok (some n) ↦ ok (some (shorten_labels prefix n))
    | ok none ↦ ok none
    | err e ↦ err e
  ]

  -- RedirectedBackend::upsertNode
  unfoldable pub upsert_node : List TreeNode → Exec S Bool
  unfolding prefix_labels
  upsert_node [] = pure true
  upsert_node (node ∷ nodes) =
      let rest = upsert_node nodes in
      lift (prefix_labels prefix node) (λ new_node. B.upsert_node (new_node ∷ []) >> rest)

  -- RedirectedBackend::getPageTree
  unfoldable pub get_page_tree : S → Text → Result (List TreeNode)
  get_page_tree s rule = shorten_result prefix (B.get_page_tree s (prefix ++ rule))

  -- RedirectedBackend::relativeGetPageTree; it computes an absolute label and does not use it.
  unfoldable pub relative_get_page_tree : S → TreeNode → Text → Result (List TreeNode)
  unfolding get_page_tree
  relative_get_page_tree s node page_node_label_rule = get_page_tree s page_node_label_rule

  -- RedirectedBackend::queryNodes
  unfoldable pub query_nodes : S → Text → Result (List TreeNode)
  query_nodes s rule = shorten_result prefix (B.query_nodes s (prefix ++ rule))

  -- RedirectedBackend::relativeQueryNodes
  unfoldable pub relative_query_nodes : S → TreeNode → Text → Result (List TreeNode)
  unfolding query_nodes
  relative_query_nodes s node label_rule = query_nodes s (node.label_rule ++ slash ∷ label_rule)

  -- RedirectedBackend::openTransactionLayer
  unfoldable pub open_transaction_layer : TreeNode → Exec S Bool
  unfolding prefix_labels
  open_transaction_layer node =
      lift (prefix_labels prefix node) (λ new_node. B.open_transaction_layer new_node)

  -- RedirectedBackend::applyTransaction
  unfoldable pub apply_transaction : Transaction → Exec S Bool
  unfolding prefix_sub_transaction
  apply_transaction transaction =
      lift (map_ok (prefix_sub_transaction prefix) transaction)
        (λ mounted. B.apply_transaction mounted)

  -- RedirectedBackend::getFullTree
  unfoldable pub get_full_tree : S → Result (List TreeNode)
  get_full_tree s = elim (B.get_full_tree s) [
    | ok nodes ↦
        ok (map (shorten_labels prefix) (keep_if (λ n. starts_with n.label_rule prefix) nodes))
    | err e ↦ err e
  ]

  -- RedirectedBackend::registerNodeListener
  unfoldable pub register_node_listener :
      Text → Text → Bool → NodeListenerCallback → Exec S (Unit {0})
  unfolding redirect_callback
  register_node_listener name label_rule child_notify callback =
      B.register_node_listener name (prefix ++ label_rule) child_notify
        (redirect_callback prefix callback)

  -- RedirectedBackend::deregisterNodeListener
  unfoldable pub deregister_node_listener : Text → Text → Exec S (Unit {0})
  deregister_node_listener name label_rule = B.deregister_node_listener name (prefix ++ label_rule)

  -- RedirectedBackend::notifyListeners
  unfoldable pub notify_listeners : Text → Option TreeNode → Exec S (Unit {0})
  unfolding prefix_labels
  notify_listeners label_rule none = B.notify_listeners (prefix ++ label_rule) none
  notify_listeners label_rule (some n) =
      lift (prefix_labels prefix n) (λ copy. B.notify_listeners (prefix ++ label_rule) (some copy))

  -- The class as a backend.
  abbrev pub redirected_backend : Backend S
  redirected_backend = record {
    get_node = get_node;
    upsert_node = upsert_node;
    delete_node = λ label_rule. B.delete_node (prefix ++ label_rule);
    get_page_tree = get_page_tree;
    relative_get_page_tree = relative_get_page_tree;
    query_nodes = query_nodes;
    relative_query_nodes = relative_query_nodes;
    open_transaction_layer = open_transaction_layer;
    close_transaction_layers = B.close_transaction_layers;
    apply_transaction = apply_transaction;
    get_full_tree = get_full_tree;
    register_node_listener = register_node_listener;
    deregister_node_listener = deregister_node_listener;
    notify_listeners = notify_listeners;
    process_notifications = B.process_notifications;
  }
