-- ===== src/CompositeBackend.antt =====
-- common/backend_cpp/structure/composite_backend.cpp: backends that are mounted at label rules of
-- a root backend.
pub mod Routing
pub mod Mounting
use world_wide_anthropomorph.Base.{
  out_of_range, ℕ, ◌+◌, Bool, true, false, not, ◌&&◌, Option, none, some, List, [], ◌∷◌, ◌++◌, map,
  if◌then◌else◌, length, ◌==◌, take, drop, Result, ok, err, map_ok, already_mounted, exists_in_root,
  mount_overlaps, different_backends, trap,
}
use world_wide_anthropomorph.Text.{Text, slash, text_eq, starts_with, byte_at, substr_from}
use world_wide_anthropomorph.OrderedMap.{OrderedMap, lookup, insert, not_above, keys}
use world_wide_anthropomorph.TreeNode.{TreeNode, SubTransaction, Transaction}
use world_wide_anthropomorph.TreeNode.Labels.{
  prefix_labels, shorten_labels, shorten_sub_transaction,
}
use world_wide_anthropomorph.LabelRule.{check_label_rule_overlap}
use world_wide_anthropomorph.Backend.{Backend, NodeListenerCallback, Exec, ◌>>=◌, ◌>>◌, pure}
use world_wide_anthropomorph.RedirectedBackend.{lift}

-- The states of root_backend_ and of mounted_backends_, which are taken to be separate objects.
pub record CompositeBackend (S : Type 0) : Type 0 where
  pub root : S
  pub mounted : OrderedMap S

-- The backend that a label belongs to: how much of the label leads to it, and where it is mounted
-- (`none` is the root).
pub record Relevant : Type 0 where
  pub index : ℕ
  pub mount : Option Text

abbrev pub at_root : Relevant
at_root = record { index = 0; mount = none }

unfoldable pub last_entry : {S : Type 0} → OrderedMap S → Option (Text × S)
last_entry [] = none
last_entry (e ∷ []) = some e
last_entry (e ∷ f ∷ m) = last_entry (f ∷ m)

-- The test of getRelevantBackend on the last rule that is not above the label.
unfoldable pub relevant_at : Text → Text → Relevant
relevant_at label_rule mounted_rule =
    if starts_with label_rule mounted_rule
    then if length label_rule == length mounted_rule
      then record { index = length mounted_rule; mount = some mounted_rule }
      else if byte_at label_rule (length mounted_rule) == slash
      then record { index = length mounted_rule + 1; mount = some mounted_rule }
      else at_root
    else at_root

-- CompositeBackend::getRelevantBackend
unfoldable pub get_relevant_backend : {S : Type 0} → OrderedMap S → Text → Relevant
unfolding last_entry relevant_at not_above
get_relevant_backend mounted label_rule = elim (last_entry (not_above label_rule mounted)) [
  | none ↦ at_root
  | some (mounted_rule, _) ↦ relevant_at label_rule mounted_rule
]

-- The state of the relevant backend.
unfoldable pub state_at : {S : Type 0} → CompositeBackend S → Option Text → S
unfolding lookup
state_at c none = c.root
state_at c (some rule) = elim (lookup rule c.mounted) [ some s ↦ s | none ↦ c.root ]

unfoldable pub set_state : {S : Type 0} → Option Text → S → CompositeBackend S → CompositeBackend S
unfolding insert
set_state none s c = record c { root = s }
set_state (some rule) s c = record c { mounted = insert rule s c.mounted }

-- A method of the relevant backend.
unfoldable pub on : {S A : Type 0} → Relevant → Exec S A → Exec (CompositeBackend S) A
unfolding state_at set_state
on at m c = let (r, s) = m (state_at c at.mount) in (r, set_state at.mount s c)

-- prefixLabels on the nodes of a result, where the label was shortened.
unfoldable pub prefix_result : ℕ → Text → Result (List TreeNode) → Result (List TreeNode)
unfolding prefix_labels
prefix_result index prefix (err e) = err e
prefix_result index prefix (ok nodes) =
    if index == 0 then ok nodes else map_ok (prefix_labels prefix) nodes

-- The callback that registerNodeListener wraps around the client's.
unfoldable pub composite_callback : Text → NodeListenerCallback → NodeListenerCallback
unfolding prefix_labels
composite_callback prefix callback relative_label none = callback (prefix ++ relative_label) none
composite_callback prefix callback relative_label (some n) = elim (prefix_labels prefix n) [
  | ok copy ↦ callback (prefix ++ relative_label) (some copy)
  | err e ↦ err e
]

module _ {S : Type 0} (B : Backend S) where
  -- CompositeBackend::getNode
  unfoldable pub get_node : CompositeBackend S → Text → Result (Option TreeNode)
  unfolding get_relevant_backend state_at prefix_labels
  get_node c label_rule =
      let at = get_relevant_backend c.mounted label_rule in
      elim (B.get_node (state_at c at.mount) (drop at.index label_rule)) [
        | err e ↦ err e
        | ok none ↦ ok none
        | ok (some n) ↦
            if at.index == 0
            then ok (some n)
            else elim (prefix_labels (take at.index label_rule) n) [
              | ok m ↦ ok (some m)
              | err e ↦ err e
            ]
      ]

  -- CompositeBackend::upsertNode
  unfoldable pub upsert_node : List TreeNode → Exec (CompositeBackend S) Bool
  unfolding get_relevant_backend on shorten_labels
  upsert_node [] c = (ok true, c)
  upsert_node (node ∷ nodes) c =
      let at = get_relevant_backend c.mounted node.label_rule in
      let new_node = shorten_labels (take at.index node.label_rule) node in
      let (r, c') = on at (B.upsert_node (new_node ∷ [])) c in
      let rest = upsert_node nodes c' in elim r [ ok _ ↦ rest | err e ↦ (err e, c') ]

  -- CompositeBackend::deleteNode
  unfoldable pub delete_node : Text → Exec (CompositeBackend S) Bool
  unfolding get_relevant_backend on
  delete_node label_rule c =
      let at = get_relevant_backend c.mounted label_rule in
      on at (B.delete_node (drop at.index label_rule)) c

  -- CompositeBackend::getPageTree
  unfoldable pub get_page_tree : CompositeBackend S → Text → Result (List TreeNode)
  unfolding get_relevant_backend state_at prefix_result
  get_page_tree c rule =
      let at = get_relevant_backend c.mounted rule in
      prefix_result at.index (take at.index rule)
        (B.get_page_tree (state_at c at.mount) (drop at.index rule))

  -- CompositeBackend::relativeGetPageTree; it computes an absolute label and does not use it.
  unfoldable pub relative_get_page_tree :
      CompositeBackend S → TreeNode → Text → Result (List TreeNode)
  unfolding get_page_tree
  relative_get_page_tree c node page_node_label_rule = get_page_tree c page_node_label_rule

  -- CompositeBackend::queryNodes
  unfoldable pub query_nodes : CompositeBackend S → Text → Result (List TreeNode)
  unfolding get_relevant_backend state_at prefix_result
  query_nodes c rule =
      let at = get_relevant_backend c.mounted rule in
      prefix_result at.index (take at.index rule)
        (B.query_nodes (state_at c at.mount) (drop at.index rule))

  -- CompositeBackend::relativeQueryNodes
  unfoldable pub relative_query_nodes :
      CompositeBackend S → TreeNode → Text → Result (List TreeNode)
  unfolding query_nodes
  relative_query_nodes c node label_rule = query_nodes c (node.label_rule ++ slash ∷ label_rule)

  -- CompositeBackend::openTransactionLayer
  unfoldable pub open_transaction_layer : TreeNode → Exec (CompositeBackend S) Bool
  unfolding get_relevant_backend on shorten_labels
  open_transaction_layer node c =
      let at = get_relevant_backend c.mounted node.label_rule in
      on at (B.open_transaction_layer (shorten_labels (take at.index node.label_rule) node)) c

  -- The loop of closeTransactionLayers over the mounts.
  unfoldable pub close_mounted : OrderedMap S → Result (Unit {0}) × OrderedMap S
  close_mounted [] = (ok tt, [])
  close_mounted ((rule, s) ∷ m) =
      let rest = close_mounted m in
      let (r, s') = B.close_transaction_layers s in
      elim r [
        | ok _ ↦ let (r', m') = rest in (r', (rule, s') ∷ m')
        | err e ↦ (err e, (rule, s') ∷ m)
      ]

  -- CompositeBackend::closeTransactionLayers
  unfoldable pub close_transaction_layers : Exec (CompositeBackend S) Bool
  unfolding close_mounted on
  close_transaction_layers c =
      let (r, m) = close_mounted c.mounted in
      elim r [
        | ok _ ↦ on at_root B.close_transaction_layers (record c { mounted = m })
        | err e ↦ (err e, record c { mounted = m })
      ]

  -- The loop of applyTransaction: each subtransaction belongs to the first one's prefix.
  unfoldable pub shorten_for : OrderedMap S → Text → Transaction → Result Transaction
  unfolding get_relevant_backend shorten_sub_transaction
  shorten_for mounted prefix [] = ok []
  shorten_for mounted prefix (s ∷ transaction) =
      let rest = shorten_for mounted prefix transaction in
      let at = get_relevant_backend mounted s.parent.label in
      let sub_prefix = take at.index s.parent.label in
      if text_eq sub_prefix prefix
      then elim rest [ ok ts ↦ ok (shorten_sub_transaction sub_prefix s ∷ ts) | err e ↦ err e ]
      else err different_backends

  -- CompositeBackend::applyTransaction. It reads the first subtransaction before any test.
  unfoldable pub apply_transaction : Transaction → Exec (CompositeBackend S) Bool
  unfolding get_relevant_backend shorten_for on
  apply_transaction [] c = (err trap, c)
  apply_transaction (s ∷ transaction) c =
      let at = get_relevant_backend c.mounted s.parent.label in
      elim (shorten_for c.mounted (take at.index s.parent.label) (s ∷ transaction)) [
        | ok mounted_transaction ↦ on at (B.apply_transaction mounted_transaction) c
        | err e ↦ (err e, c)
      ]

  -- The loop of getFullTree over the mounts.
  unfoldable pub full_mounted : OrderedMap S → Result (List TreeNode)
  unfolding prefix_labels
  full_mounted [] = ok []
  full_mounted ((rule, s) ∷ m) =
      let rest = full_mounted m in
      elim (B.get_full_tree s) [
        | err e ↦ err e
        | ok nodes ↦ elim (map_ok (prefix_labels (rule ++ slash ∷ [])) nodes) [
          | err e ↦ err e
          | ok relative_tree ↦ elim rest [ ok more ↦ ok (relative_tree ++ more) | err e ↦ err e ]
        ]
      ]

  -- CompositeBackend::getFullTree
  unfoldable pub get_full_tree : CompositeBackend S → Result (List TreeNode)
  unfolding full_mounted
  get_full_tree c = elim (B.get_full_tree c.root) [
    | err e ↦ err e
    | ok nodes ↦ elim (full_mounted c.mounted) [ ok more ↦ ok (nodes ++ more) | err e ↦ err e ]
  ]

  -- CompositeBackend::registerNodeListener
  unfoldable pub register_node_listener :
      Text → Text → Bool → NodeListenerCallback → Exec (CompositeBackend S) (Unit {0})
  unfolding get_relevant_backend on composite_callback
  register_node_listener name label_rule child_notify callback c =
      let at = get_relevant_backend c.mounted label_rule in
      on at
        (B.register_node_listener name (drop at.index label_rule) child_notify
          (composite_callback (take at.index label_rule) callback))
        c

  -- CompositeBackend::deregisterNodeListener
  unfoldable pub deregister_node_listener : Text → Text → Exec (CompositeBackend S) (Unit {0})
  unfolding get_relevant_backend on
  deregister_node_listener name label_rule c =
      let at = get_relevant_backend c.mounted label_rule in
      on at (B.deregister_node_listener name (drop at.index label_rule)) c

  abbrev shorten_maybe : ℕ → Option TreeNode → Option TreeNode
  shorten_maybe index none = none
  shorten_maybe index (some n) = some (shorten_labels (take index n.label_rule) n)

  -- CompositeBackend::notifyListeners
  unfoldable pub notify_listeners : Text → Option TreeNode → Exec (CompositeBackend S) (Unit {0})
  unfolding get_relevant_backend on shorten_labels
  notify_listeners label_rule node c =
      let at = get_relevant_backend c.mounted label_rule in
      on at (B.notify_listeners (drop at.index label_rule) (shorten_maybe at.index node)) c

  -- The check of mountBackend against the rules that are mounted.
  unfoldable pub overlaps_mounted : Text → OrderedMap S → Bool
  overlaps_mounted rule [] = false
  overlaps_mounted rule ((mounted_rule, _) ∷ m) =
      let rest = overlaps_mounted rule m in
      if check_label_rule_overlap rule mounted_rule then true else rest

  -- CompositeBackend::mountBackend
  unfoldable pub mount_backend : Text → S → Exec (CompositeBackend S) (Unit {0})
  unfolding overlaps_mounted lookup insert
  mount_backend rule backend c = elim (lookup rule c.mounted) [
    | some _ ↦ (err already_mounted, c)
    | none ↦ elim (B.get_node c.root rule) [
      | err e ↦ (err e, c)
      | ok (some _) ↦ (err exists_in_root, c)
      | ok none ↦
          if overlaps_mounted rule c.mounted
          then (err mount_overlaps, c)
          else (ok tt, record c { mounted = insert rule backend c.mounted })
    ]
  ]

  -- The loop of processNotifications over the mounts.
  unfoldable pub process_mounted : OrderedMap S → Result (Unit {0}) × OrderedMap S
  process_mounted [] = (ok tt, [])
  process_mounted ((rule, s) ∷ m) =
      let rest = process_mounted m in
      let (r, s') = B.process_notifications s in
      elim r [
        | ok _ ↦ let (r', m') = rest in (r', (rule, s') ∷ m')
        | err e ↦ (err e, (rule, s') ∷ m)
      ]

  unfoldable pub process_mounts : Exec (CompositeBackend S) (Unit {0})
  unfolding process_mounted
  process_mounts c = let (r, m) = process_mounted c.mounted in (r, record c { mounted = m })

  -- CompositeBackend::processNotifications
  unfoldable pub process_notifications : Exec (CompositeBackend S) (Unit {0})
  unfolding process_mounts on
  process_notifications = on at_root B.process_notifications >> process_mounts

  -- The class as a backend.
  abbrev pub composite_backend : Backend (CompositeBackend S)
  composite_backend = record {
    get_node = get_node;
    upsert_node = upsert_node;
    delete_node = delete_node;
    get_page_tree = get_page_tree;
    relative_get_page_tree = relative_get_page_tree;
    query_nodes = query_nodes;
    relative_query_nodes = relative_query_nodes;
    open_transaction_layer = open_transaction_layer;
    close_transaction_layers = close_transaction_layers;
    apply_transaction = apply_transaction;
    get_full_tree = get_full_tree;
    register_node_listener = register_node_listener;
    deregister_node_listener = deregister_node_listener;
    notify_listeners = notify_listeners;
    process_notifications = process_notifications;
  }
