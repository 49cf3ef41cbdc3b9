-- ===== src/SimpleBackend.antt =====
-- common/backend_cpp/memory/src/simple_backend.cpp: a memory tree with listeners.
pub mod Listeners
pub mod ListenersValid
pub mod Notify
pub mod NotifyExact
pub mod Laws
use world_wide_anthropomorph.Base.{
  Bool, true, false, not, ◌&&◌, Option, none, some, List, [], ◌∷◌, ◌++◌, reverse, if◌then◌else◌,
  keep_if, Result, ok, err, layers_not_supported, page_node_not_found,
}
use world_wide_anthropomorph.Text.{Text, slash, text_eq}
use world_wide_anthropomorph.OrderedMap.{OrderedMap, lookup, insert, erase, not_above}
use world_wide_anthropomorph.TreeNode.{TreeNode, NewNodeVersion, SubTransaction, Transaction}
use world_wide_anthropomorph.MemoryTree
use world_wide_anthropomorph.MemoryTree.{MemoryTree}
use world_wide_anthropomorph.LabelRule.{check_label_rule_overlap, partial_label_rule_match}
use world_wide_anthropomorph.Backend.{Backend, Call, NodeListenerCallback, Exec, ◌>>=◌, ◌>>◌, pure}

-- ListenerInfo
pub record ListenerInfo : Type 0 where
  pub name : Text
  pub child_notify : Bool
  pub callback : NodeListenerCallback

-- The members of SimpleBackend, and the calls that the listeners have had, oldest first.
pub record SimpleBackend : Type 0 where
  pub memory_tree : MemoryTree
  pub node_listeners : OrderedMap (List ListenerInfo)
  pub calls : List Call

-- Calls one callback; its wrapper may throw.
unfoldable pub fire : NodeListenerCallback → Text → Option TreeNode → Exec (List Call) (Unit {0})
fire callback label_rule node calls = elim (callback label_rule node) [
  | ok told ↦ (ok tt, calls ++ told)
  | err e ↦ (err e, calls)
]

-- The condition on a listener of the rule `rule` to hear of `label_rule`.
unfoldable pub hears : Text → Text → ListenerInfo → Bool
hears label_rule rule l =
    if text_eq rule label_rule
    then true
    else l.child_notify && check_label_rule_overlap label_rule rule

-- The inner loop of notifyListeners.
unfoldable pub notify_rule :
    Text → Option TreeNode → Text → List ListenerInfo → Exec (List Call) (Unit {0})
unfolding fire hears
notify_rule label_rule _ rule [] = pure tt
notify_rule label_rule node rule (l ∷ listeners) =
    let rest = notify_rule label_rule node rule listeners in
    if hears label_rule rule l then fire l.callback label_rule node >> rest else rest

-- The outer loop of notifyListeners, over the rules from the last that is not above the label
-- down; it ends at the first rule that does not match.
unfoldable pub notify_down :
    Text → Option TreeNode → OrderedMap (List ListenerInfo) → Exec (List Call) (Unit {0})
unfolding notify_rule
notify_down label_rule _ [] = pure tt
notify_down label_rule node ((rule, listeners) ∷ rules) =
    let rest = notify_down label_rule node rules in
    if partial_label_rule_match label_rule rule
    then notify_rule label_rule node rule listeners >> rest
    else pure tt

-- SimpleBackend::notifyListeners
unfoldable pub notify_listeners : Text → Option TreeNode → Exec SimpleBackend (Unit {0})
unfolding notify_down not_above
notify_listeners label_rule node b =
    let (r, calls) =
      notify_down label_rule node (reverse (not_above label_rule b.node_listeners)) b.calls in
    (r, record b { calls = calls })

unfoldable pub notify_nodes : List TreeNode → Exec SimpleBackend (Unit {0})
unfolding notify_listeners
notify_nodes [] = pure tt
notify_nodes (node ∷ nodes) = notify_listeners node.label_rule (some node) >> notify_nodes nodes

-- SimpleBackend::upsertNode
unfoldable pub upsert_node : List TreeNode → Exec SimpleBackend Bool
unfolding notify_nodes
upsert_node nodes b =
    (notify_nodes nodes >> pure true)
      (record b { memory_tree = MemoryTree.upsert_node nodes b.memory_tree })

-- SimpleBackend::deleteNode
unfoldable pub delete_node : Text → Exec SimpleBackend Bool
unfolding notify_listeners
delete_node label_rule b =
    (notify_listeners label_rule none >> pure true)
      (record b { memory_tree = (MemoryTree.delete_node label_rule b.memory_tree).1 })

unfoldable pub notify_changes : List NewNodeVersion → Exec SimpleBackend (Unit {0})
unfolding notify_listeners
notify_changes [] = pure tt
notify_changes (c ∷ changes) = notify_listeners c.label c.node >> notify_changes changes

unfoldable pub notify_transaction : Transaction → Exec SimpleBackend (Unit {0})
unfolding notify_changes
notify_transaction [] = pure tt
notify_transaction (s ∷ transaction) =
    notify_listeners s.parent.label s.parent.node
    >> notify_changes s.children
    >> notify_transaction transaction

-- What applyTransaction does with the outcome of the memory tree.
unfoldable pub notify_applied :
    Transaction → SimpleBackend → Result Bool × MemoryTree → Result Bool × SimpleBackend
unfolding notify_transaction
notify_applied transaction b (ok true, t) =
    (notify_transaction transaction >> pure true) (record b { memory_tree = t })
notify_applied transaction b (ok false, t) = (ok false, record b { memory_tree = t })
notify_applied transaction b (err e, t) = (err e, record b { memory_tree = t })

-- SimpleBackend::applyTransaction
unfoldable pub apply_transaction : Transaction → Exec SimpleBackend Bool
unfolding notify_applied
apply_transaction transaction b =
    notify_applied transaction b (MemoryTree.apply_transaction transaction b.memory_tree)

-- SimpleBackend::getPageTree
unfoldable pub get_page_tree : SimpleBackend → Text → Result (List TreeNode)
get_page_tree b page_node_label_rule =
    elim (MemoryTree.get_node b.memory_tree page_node_label_rule) [
      | none ↦ ok []
      | some page ↦ ok (MemoryTree.get_nodes b.memory_tree page.child_names)
    ]

-- SimpleBackend::relativeGetPageTree
unfoldable pub relative_get_page_tree : SimpleBackend → TreeNode → Text → Result (List TreeNode)
unfolding get_page_tree
relative_get_page_tree b node page_node_label_rule =
    let full_label_rule = node.label_rule ++ slash ∷ page_node_label_rule in
    elim (MemoryTree.get_node b.memory_tree full_label_rule) [
      | none ↦ err page_node_not_found
      | some page ↦ get_page_tree b full_label_rule
    ]

-- SimpleBackend::relativeQueryNodes
unfoldable pub relative_query_nodes : SimpleBackend → TreeNode → Text → Result (List TreeNode)
relative_query_nodes b node label_rule =
    ok (MemoryTree.query_nodes b.memory_tree (node.label_rule ++ slash ∷ label_rule))

-- The listeners of a rule without those of the name.
unfoldable pub without_name : Text → List ListenerInfo → List ListenerInfo
without_name listener_name = keep_if (λ l. not (text_eq l.name listener_name))

abbrev put_listeners :
    Text → List ListenerInfo → OrderedMap (List ListenerInfo) → OrderedMap (List ListenerInfo)
put_listeners rule [] m = erase rule m
put_listeners rule (l ∷ ls) m = insert rule (l ∷ ls) m

-- SimpleBackend::deregisterNodeListener, on the map
unfoldable pub deregister :
    Text → Text → OrderedMap (List ListenerInfo) → OrderedMap (List ListenerInfo)
unfolding without_name
deregister listener_name notification_rule m = elim (lookup notification_rule m) [
  | none ↦ m
  | some listeners ↦ put_listeners notification_rule (without_name listener_name listeners) m
]

-- SimpleBackend::registerNodeListener, on the map
unfoldable pub register :
    Text
    → Text
    → Bool
    → NodeListenerCallback
    → OrderedMap (List ListenerInfo)
    → OrderedMap (List ListenerInfo)
unfolding deregister
register listener_name notification_rule child_notify callback m =
    let m' = deregister listener_name notification_rule m in
    let a_listener : ListenerInfo = record {
      name = listener_name;
      child_notify = child_notify;
      callback = callback;
    } in
    elim (lookup notification_rule m') [
      | none ↦ insert notification_rule (a_listener ∷ []) m'
      | some listeners ↦ insert notification_rule (listeners ++ a_listener ∷ []) m'
    ]

-- The class as a backend. It has no transaction layers, and processNotifications does nothing.
abbrev pub simple_backend : Backend SimpleBackend
simple_backend = record {
  get_node = λ b label_rule. ok (MemoryTree.get_node b.memory_tree label_rule);
  upsert_node = upsert_node;
  delete_node = delete_node;
  get_page_tree = get_page_tree;
  relative_get_page_tree = relative_get_page_tree;
  query_nodes = λ b label_rule. ok (MemoryTree.query_nodes b.memory_tree label_rule);
  relative_query_nodes = relative_query_nodes;
  open_transaction_layer = λ node b. (err layers_not_supported, b);
  close_transaction_layers = λ b. (err layers_not_supported, b);
  apply_transaction = apply_transaction;
  get_full_tree = λ b. ok (MemoryTree.get_full_tree b.memory_tree);
  register_node_listener = λ name rule child_notify callback b. (
    ok tt,
    record b { node_listeners = register name rule child_notify callback b.node_listeners },
  );
  deregister_node_listener =
      λ name rule b. (ok tt, record b { node_listeners = deregister name rule b.node_listeners });
  notify_listeners = notify_listeners;
  process_notifications = λ b. (ok tt, b);
}
