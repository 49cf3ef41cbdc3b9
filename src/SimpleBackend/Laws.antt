-- ===== src/SimpleBackend/Laws.antt =====
-- What the methods of SimpleBackend do to the tree, whatever the callbacks do.
use world_wide_anthropomorph.Base.{
  inl, inr, ◌⊎◌, ◌≡◌, ◌∙◌, refl, true, Option, none, some, List, [], ◌∷◌, Result, ok, err, Error,
}
use world_wide_anthropomorph.Text.{Text}
use world_wide_anthropomorph.TreeNode.{TreeNode, NewNodeVersion, Transaction}
use world_wide_anthropomorph.MemoryTree
use world_wide_anthropomorph.MemoryTree.{MemoryTree}
use world_wide_anthropomorph.MemoryTree.Apply.Checks.{apply_transaction-atomic}
use world_wide_anthropomorph.Backend.{Exec, ◌>>◌, pure}
use world_wide_anthropomorph.SimpleBackend.{
  SimpleBackend, notify_listeners, notify_nodes, notify_changes, notify_transaction, upsert_node,
  delete_node, apply_transaction,
}

-- The two states differ in the calls of listeners at most.
pub record SameTree (a b : SimpleBackend) : Type 0 where
  pub trees : a.memory_tree ≡ b.memory_tree
  pub listeners : a.node_listeners ≡ b.node_listeners

-- The method changes no more than the calls.
abbrev pub OnlyCalls : {A : Type 0} → Exec SimpleBackend A → Type 0
OnlyCalls m = (b : SimpleBackend) → SameTree (m b).1 b

continue_only :
    {A B : Type 0} (r : Result A) (f : A → Exec SimpleBackend B) (a b : SimpleBackend)
    → SameTree a b
    → ((x : A) → OnlyCalls (f x))
    → SameTree
        (let p : Result B × SimpleBackend = elim r [ ok x ↦ f x a | err e ↦ (err e, a) ] in p.1)
        b
continue_only (ok x) f a b h k = record {
  trees = (k x a).trees ∙ h.trees;
  listeners = (k x a).listeners ∙ h.listeners;
}
continue_only (err e) f a b h k = h

>>-only :
    {A B : Type 0} (m : Exec SimpleBackend A) (k : Exec SimpleBackend B)
    → OnlyCalls m
    → OnlyCalls k
    → OnlyCalls (m >> k)
>>-only m k hm hk b = continue_only (m b).0 (λ _. k) (m b).1 b (hm b) (λ _. hk)

pub notify_listeners-only :
    (label : Text) (n : Option TreeNode) → OnlyCalls (notify_listeners label n)
unfolding notify_listeners
notify_listeners-only label n b = record { trees = refl; listeners = refl }

notify_nodes-only : (nodes : List TreeNode) → OnlyCalls (notify_nodes nodes)
unfolding notify_nodes
notify_nodes-only [] b = record { trees = refl; listeners = refl }
notify_nodes-only (n ∷ nodes) b =
    >>-only (notify_listeners n.label_rule (some n)) (notify_nodes nodes)
      (notify_listeners-only n.label_rule (some n)) (notify_nodes-only nodes) b

notify_changes-only : (cs : List NewNodeVersion) → OnlyCalls (notify_changes cs)
unfolding notify_changes
notify_changes-only [] b = record { trees = refl; listeners = refl }
notify_changes-only (c ∷ cs) b =
    >>-only (notify_listeners c.label c.node) (notify_changes cs)
      (notify_listeners-only c.label c.node) (notify_changes-only cs) b

notify_transaction-only : (ss : Transaction) → OnlyCalls (notify_transaction ss)
unfolding notify_transaction
notify_transaction-only [] b = record { trees = refl; listeners = refl }
notify_transaction-only (s ∷ ss) b =
    >>-only (notify_listeners s.parent.label s.parent.node >> notify_changes s.children)
      (notify_transaction ss)
      (>>-only (notify_listeners s.parent.label s.parent.node) (notify_changes s.children)
        (notify_listeners-only s.parent.label s.parent.node) (notify_changes-only s.children))
      (notify_transaction-only ss) b

pure-only : {A : Type 0} (a : A) → OnlyCalls (pure a)
pure-only a b = record { trees = refl; listeners = refl }

-- upsertNode leaves the upserted tree and the same listeners, also where a callback throws.
pub upsert_node-tree :
    (nodes : List TreeNode) (b : SimpleBackend)
    → ((upsert_node nodes b).1.memory_tree ≡ MemoryTree.upsert_node nodes b.memory_tree)
      × ((upsert_node nodes b).1.node_listeners ≡ b.node_listeners)
unfolding upsert_node
upsert_node-tree nodes b =
    let same =
      >>-only (notify_nodes nodes) (pure true) (notify_nodes-only nodes) (pure-only true)
        (record b { memory_tree = MemoryTree.upsert_node nodes b.memory_tree }) in
    (same.trees, same.listeners)

-- deleteNode leaves the tree without the node and its descendants, also where a callback throws.
pub delete_node-tree :
    (label : Text) (b : SimpleBackend)
    → (delete_node label b).1.memory_tree ≡ (MemoryTree.delete_node label b.memory_tree).1
unfolding delete_node
delete_node-tree label b =
    (>>-only (notify_listeners label none) (pure true) (notify_listeners-only label none)
      (pure-only true)
      (record b { memory_tree = (MemoryTree.delete_node label b.memory_tree).1 })).trees

-- applyTransaction either performs all of the transaction, or throws before it changes the tree
-- or calls a listener.
pub apply_transaction-tree :
    (transaction : Transaction) (b : SimpleBackend)
    → ((apply_transaction transaction b).1.memory_tree
        ≡ MemoryTree.perform_all transaction b.memory_tree)
      ⊎ ((e : Error) × (apply_transaction transaction b ≡ (err e, b)))
unfolding apply_transaction
apply_transaction-tree transaction b = elim (apply_transaction-atomic b.memory_tree transaction) [
  | inl (done, _) ↦ inl (
      rw (done, apply_transaction)
        (>>-only (notify_transaction transaction) (pure true) (notify_transaction-only transaction)
          (pure-only true)
          (record b { memory_tree = MemoryTree.perform_all transaction b.memory_tree })).trees)
  | inr (e, thrown) ↦ inr (e, rw (thrown, apply_transaction) refl)
]
