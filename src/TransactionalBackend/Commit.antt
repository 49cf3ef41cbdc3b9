-- ===== src/TransactionalBackend/Commit.antt =====
-- Layers over a SimpleBackend, from openTransactionLayer to closeTransactionLayers.
use world_wide_anthropomorph.Base.{
  ℕ, ◌+◌, ◌%◌, ◌≤◌, ◌<◌, ◌≡◌, ◌≢◌, ◌∙◌, ap, refl, sym, subst, Bool, Option, some, List, [], ◌∷◌,
  arith, inl, inr, Result, ok, err, Error,
}
use world_wide_anthropomorph.Text.{Text}
use world_wide_anthropomorph.TreeNode.{TreeNode, SubTransaction, Transaction}
use world_wide_anthropomorph.TreeNode.Version.Serial.{mod_wrap}
use world_wide_anthropomorph.MemoryTree
use world_wide_anthropomorph.MemoryTree.{MemoryTree}
use world_wide_anthropomorph.MemoryTree.Apply.Versions.{apply_transaction-refused}
use world_wide_anthropomorph.Backend.{Backend}
use world_wide_anthropomorph.SimpleBackend
use world_wide_anthropomorph.SimpleBackend.{SimpleBackend, simple_backend}
use world_wide_anthropomorph.TransactionalBackend.Stack.{layer_prior}
use world_wide_anthropomorph.TransactionalBackend.{
  TransactionalBackend, upsert_node, delete_node, open_transaction_layer, close_transaction_layers,
  clear_stack,
}
use world_wide_anthropomorph.TransactionalBackend.Isolation.{
  IsOpen, expects, expectations, Expectation, upsert_node-isolated, upsert_node-expects,
  delete_node-isolated,
}

-- A call of a client between the opening and the closing of a layer.
pub data Edit : Type 0 where
  upsert : List TreeNode → Edit
  delete : Text → Edit

abbrev State : Type 0
State = TransactionalBackend SimpleBackend

-- A client that goes on after an exception.
unfoldable pub edit_all : List Edit → State → State
edit_all [] b = b
edit_all (upsert nodes ∷ edits) b = edit_all edits (upsert_node simple_backend nodes b).1
edit_all (delete label ∷ edits) b = edit_all edits (delete_node simple_backend label b).1

-- The stack expects just this of the tree below, which is `s`.
abbrev pub Expects : Expectation → SimpleBackend → State → Type 0
Expects x s b = (b.tree ≡ s) × (expectations b.transaction_stack ≡ x ∷ [])

Expects-IsOpen : (x : Expectation) (s : SimpleBackend) (b : State) → Expects x s b → IsOpen b
Expects-IsOpen x s b h empty = cc (h.1, ap expectations empty)

edit_all-Expects :
    (x : Expectation) (s : SimpleBackend) (edits : List Edit) (b : State)
    → Expects x s b
    → Expects x s (edit_all edits b)
unfolding edit_all
edit_all-Expects x s [] b h = h
edit_all-Expects x s (upsert nodes ∷ edits) b h =
    let (answer, tree, _) = upsert_node-isolated simple_backend nodes b (Expects-IsOpen x s b h) in
    let stack = upsert_node-expects simple_backend nodes b (Expects-IsOpen x s b h) in
    edit_all-Expects x s edits _ (tree ∙ h.0, stack ∙ h.1)
edit_all-Expects x s (delete label ∷ edits) b h =
    let (tree, stack) = delete_node-isolated simple_backend label b (Expects-IsOpen x s b h) in
    edit_all-Expects x s edits _ (tree ∙ h.0, stack ∙ h.1)

simple_refused :
    (s : SimpleBackend) (transaction : Transaction) (e : Error)
    → MemoryTree.apply_transaction transaction s.memory_tree ≡ (err e, s.memory_tree)
    → simple_backend.apply_transaction transaction s ≡ (err e, s)
unfolding SimpleBackend.apply_transaction
simple_refused s transaction e h = rw (h, SimpleBackend.apply_transaction) refl

close_throws_at :
    {S : Type 0} (B : Backend S) (tree : S) (t : SubTransaction) (stack : Transaction) (x : Error)
    → B.apply_transaction (t ∷ stack) tree ≡ (err x, tree)
    → close_transaction_layers B (record { tree = tree; transaction_stack = t ∷ stack })
      ≡ (err x, record { tree = tree; transaction_stack = t ∷ stack })
unfolding close_transaction_layers
close_throws_at {S} B tree t stack x h = ap resume h
  where
    resume : Result Bool × S → Result Bool × TransactionalBackend S
    resume (r, s) = elim r [
      | ok _ ↦ clear_stack B (record { tree = s; transaction_stack = t ∷ stack })
      | err y ↦ (err y, record { tree = s; transaction_stack = t ∷ stack })
    ]

close_throws :
    {S : Type 0} (B : Backend S) (b : TransactionalBackend S) (t : SubTransaction)
    (stack : Transaction) (x : Error)
    → b.transaction_stack ≡ t ∷ stack
    → B.apply_transaction (t ∷ stack) b.tree ≡ (err x, b.tree)
    → close_transaction_layers B b ≡ (err x, b)
close_throws {S} B b t stack x e h =
    let is_b : ◌≡◌ {A = TransactionalBackend S}
        (record { tree = b.tree; transaction_stack = t ∷ stack }) b =
      λ i. record { tree = b.tree; transaction_stack = sym e i } in
    subst (λ c. close_transaction_layers B c ≡ (err x, c)) is_b
      (close_throws_at B b.tree t stack x h)

heads : {x y : Expectation} {xs ys : List Expectation} → x ∷ xs ≡ y ∷ ys → x ≡ y
heads h = cc

-- Closing throws where the tree below has the node at another version than the stack expects.
close_refused :
    (label : Text) (prior : Option ℕ) (s : SimpleBackend) (old : TreeNode) (b : State)
    → Expects (label, prior) s b
    → MemoryTree.get_node s.memory_tree label ≡ some old
    → prior ≢ some old.version.version_number
    → (e : Error) × (close_transaction_layers simple_backend b ≡ (err e, b))
close_refused label prior s old b h found stale = go b.transaction_stack refl
  where
    go :
        (stack : Transaction)
        → b.transaction_stack ≡ stack
        → (e : Error) × (close_transaction_layers simple_backend b ≡ (err e, b))
    go [] e = absurd (Expects-IsOpen (label, prior) s b h e)
    go (t ∷ stack) e =
        let same : expects t ≡ (label, prior) = heads (sym (ap expectations e) ∙ h.1) in
        let found_there : MemoryTree.get_node b.tree.memory_tree t.parent.label ≡ some old =
          rw (h.0, ap (λ (x : Expectation). x.0) same) found in
        let (x, thrown) =
          apply_transaction-refused b.tree.memory_tree (t ∷ stack) t old (inl refl) found_there
            (inr (λ q. stale (sym (ap (λ (y : Expectation). y.1) same) ∙ q))) in
        (x, close_throws simple_backend b t stack x e (simple_refused b.tree (t ∷ stack) x thrown))

next_ne : (v m : ℕ) → v < m → 2 ≤ m → some ((v + 1) % m) ≢ some v
next_ne v m h k e = elim (mod_wrap v 1 m h (omega arith)) [
  | inl near ↦ ground arith
  | inr wrapped ↦ ground arith
]

layer_prior-some :
    (old : TreeNode)
    → 2 ≤ old.version.max_version_sequence
    → layer_prior (some old)
      ≡ ok (some ((old.version.version_number + 1) % old.version.max_version_sequence))
unfolding layer_prior
layer_prior-some old long = ground arith

open_on_existing :
    (node old : TreeNode) (s : SimpleBackend)
    → MemoryTree.get_node s.memory_tree node.label_rule ≡ some old
    → 2 ≤ old.version.max_version_sequence
    → Expects
        (
          node.label_rule,
          some ((old.version.version_number + 1) % old.version.max_version_sequence),
        )
        s
        (open_transaction_layer simple_backend node (record { tree = s; transaction_stack = [] })).1
unfolding open_transaction_layer
open_on_existing node old s found long = rw (found, layer_prior-some old long) (refl, refl)

-- Over a SimpleBackend, a layer that is opened alone, on a node which is in the tree with its
-- number in a sequence of length 2 or more, can never be closed: whatever is upserted and deleted
-- in between, closeTransactionLayers throws, and leaves the tree below and the stack as they are.
pub close-open_throws :
    (node old : TreeNode) (s : SimpleBackend) (edits : List Edit)
    → MemoryTree.get_node s.memory_tree node.label_rule ≡ some old
    → old.version.version_number < old.version.max_version_sequence
    → 2 ≤ old.version.max_version_sequence
    → let b : TransactionalBackend SimpleBackend = record { tree = s; transaction_stack = [] } in
      let edited = edit_all edits (open_transaction_layer simple_backend node b).1 in
      (e : Error) × (close_transaction_layers simple_backend edited ≡ (err e, edited))
close-open_throws node old s edits found bound long =
    close_refused node.label_rule _ s old _
      (edit_all-Expects _ s edits _ (open_on_existing node old s found long)) found
      (next_ne old.version.version_number old.version.max_version_sequence bound long)
