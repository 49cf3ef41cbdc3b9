-- ===== src/TransactionalBackend/Isolation.antt =====
-- What upsertNode and deleteNode of transactional_backend.cpp change while a layer is open.
use world_wide_anthropomorph.Base.{
  ℕ, ◌≡◌, ◌≢◌, ap, sym, ◌∙◌, refl, Option, none, some, true, ok, List, [], ◌∷◌, map, arith,
  Option-cases, inl, inr, ◌⊎◌,
}
use world_wide_anthropomorph.Text.{Text}
use world_wide_anthropomorph.TreeNode.{TreeNode, NewNodeVersion, SubTransaction, Transaction}
use world_wide_anthropomorph.Backend.{Backend}
use world_wide_anthropomorph.TransactionalBackend.Stack.{
  labelled, set_child, upsert_in_sub, upsert_in_stack, upsert_loop, delete_in_sub, delete_in_stack,
  update_first,
}
use world_wide_anthropomorph.TransactionalBackend.{TransactionalBackend, upsert_node, delete_node}

-- What a subtransaction expects of the tree: its parent's label and the version there.
abbrev pub Expectation : Type 0
Expectation = Text × Option ℕ

abbrev pub expects : SubTransaction → Expectation
expects s = (s.parent.label, s.parent.prior)

abbrev pub expectations : Transaction → List Expectation
expectations = map expects

-- A change, a subtransaction and a stack without their new nodes: the labels and the versions that
-- are expected there, of the parents and of the children.
abbrev pub erase_node : NewNodeVersion → NewNodeVersion
erase_node c = record c { node = none }

abbrev pub erase_nodes : SubTransaction → SubTransaction
erase_nodes s = record { parent = erase_node s.parent; children = map erase_node s.children }

abbrev pub erased : Transaction → Transaction
erased = map erase_nodes

expectations-erased : (stack : Transaction) → expectations (erased stack) ≡ expectations stack
expectations-erased [] = refl
expectations-erased (s ∷ stack) = ap (λ xs. expects s ∷ xs) (expectations-erased stack)

set_child-erased :
    (label : Text) (new : Option TreeNode) (children children' : List NewNodeVersion)
    → set_child label new children ≡ some children'
    → map erase_node children' ≡ map erase_node children
unfolding set_child
set_child-erased label new [] children' h = cc
set_child-erased label new (c ∷ children) children' h =
    elim (Option-cases (labelled label c.node)) [
      | inl e ↦ elim (Option-cases (set_child label new children)) [
        | inl e' ↦ absurd (ground (arith, e, e'))
        | inr (rest, e') ↦
            let is_rest : children' ≡ c ∷ rest = ground (arith, e, e') in
            rw is_rest (ap (λ cs. erase_node c ∷ cs) (set_child-erased label new children rest e'))
      ]
      | inr (n, e) ↦
          let is_changed : children' ≡ record c { node = new } ∷ children = ground (arith, e) in
          rw is_changed refl
    ]

-- A subtransaction that upsertNode changes gets a new node of its parent, or of a child.
upserted :
    (node : TreeNode) (s s' : SubTransaction) (children : List NewNodeVersion)
    → set_child node.label_rule (some node) s.children ≡ some children
    → upsert_in_sub node s ≡ some s'
    → (s' ≡ record s { parent = record s.parent { node = some node } })
      ⊎ (s' ≡ record s { children = children })
unfolding upsert_in_sub
upserted node s s' children e h = ground (arith, e, h)

upsert_in_sub-erased :
    (node : TreeNode) (s s' : SubTransaction)
    → upsert_in_sub node s ≡ some s'
    → erase_nodes s' ≡ erase_nodes s
unfolding upsert_in_sub
upsert_in_sub-erased node s s' h =
    elim (Option-cases (set_child node.label_rule (some node) s.children)) [
      | inl e ↦ ground (arith, e)
      | inr (children, e) ↦
          let same : map erase_node children ≡ map erase_node s.children =
            set_child-erased node.label_rule (some node) s.children children e in
          elim (upserted node s s' children e h) [
            | inl changed ↦ rw changed refl
            | inr changed ↦
                rw changed (ap (λ cs. record { parent = erase_node s.parent; children = cs }) same)
          ]
    ]

delete_in_sub-expects :
    (label : Text) (s s' : SubTransaction)
    → delete_in_sub label s ≡ some s'
    → expects s' ≡ expects s
unfolding delete_in_sub
delete_in_sub-expects label s s' h = ground arith

update_first-view :
    {X : Type 0} (view : SubTransaction → X) (f : SubTransaction → Option SubTransaction)
    → ((s s' : SubTransaction) → f s ≡ some s' → view s' ≡ view s)
    → (stack stack' : Transaction) → update_first f stack ≡ some stack'
    → map view stack' ≡ map view stack
unfolding update_first
update_first-view view f same [] stack' h = cc
update_first-view view f same (s ∷ stack) stack' h = elim (Option-cases (f s)) [
  | inl e ↦ elim (Option-cases (update_first f stack)) [
    | inl e' ↦ ground (arith, e, e')
    | inr (rest, e') ↦
        let is_rest : stack' ≡ s ∷ rest = ground (arith, e, e') in
        rw is_rest (ap (λ xs. view s ∷ xs) (update_first-view view f same stack rest e'))
  ]
  | inr (s', e) ↦
      let is_changed : stack' ≡ s' ∷ stack = ground (arith, e) in
      rw is_changed (ap (λ x. x ∷ map view stack) (same s s' e))
]

upsert_loop-erased :
    (nodes : List TreeNode) (stack : Transaction) → erased (upsert_loop nodes stack) ≡ erased stack
unfolding upsert_loop upsert_in_stack
upsert_loop-erased [] stack = refl
upsert_loop-erased (node ∷ nodes) stack =
    elim (Option-cases (update_first (upsert_in_sub node) stack)) [
      | inl e ↦ rw (e, upsert_loop, upsert_in_stack) (upsert_loop-erased nodes stack)
      | inr (stack', e) ↦
          rw (e, upsert_loop, upsert_in_stack)
            (update_first-view erase_nodes (upsert_in_sub node) (upsert_in_sub-erased node) stack
              stack' e)
    ]

-- The stack has a layer.
abbrev pub IsOpen : {S : Type 0} → TransactionalBackend S → Type 0
IsOpen b = b.transaction_stack ≢ []

module _ {S : Type 0} (B : Backend S) where
  -- With a layer open, upsertNode returns true, leaves the backend below as it is, and changes
  -- nothing of the stack but new nodes: the subtransactions and their children stay in their number
  -- and order, each with its label and the version that it expects.
  pub upsert_node-isolated :
      (nodes : List TreeNode) (b : TransactionalBackend S)
      → IsOpen b
      → ((upsert_node B nodes b).0 ≡ ok true)
        × ((upsert_node B nodes b).1.tree ≡ b.tree)
        × (erased (upsert_node B nodes b).1.transaction_stack ≡ erased b.transaction_stack)
  unfolding upsert_node
  upsert_node-isolated nodes b open_layer = go b.transaction_stack refl
    where
      go :
          (stack : Transaction)
          → b.transaction_stack ≡ stack
          → ((upsert_node B nodes b).0 ≡ ok true)
            × ((upsert_node B nodes b).1.tree ≡ b.tree)
            × (erased (upsert_node B nodes b).1.transaction_stack ≡ erased b.transaction_stack)
      go [] e = absurd (open_layer e)
      go (s ∷ stack) e = rw (e, upsert_node) (refl, refl, upsert_loop-erased nodes (s ∷ stack))

  -- So the expectations of the parents stay too.
  pub upsert_node-expects :
      (nodes : List TreeNode) (b : TransactionalBackend S)
      → IsOpen b
      → expectations (upsert_node B nodes b).1.transaction_stack ≡ expectations b.transaction_stack
  upsert_node-expects nodes b open_layer =
      let (answer, tree, stack) = upsert_node-isolated nodes b open_layer in
      sym (expectations-erased (upsert_node B nodes b).1.transaction_stack)
      ∙ ap expectations stack
      ∙ expectations-erased b.transaction_stack

  -- With a layer open, deleteNode leaves the backend below and the expectations of the parents as
  -- they are, whether or not it throws.
  pub delete_node-isolated :
      (label : Text) (b : TransactionalBackend S)
      → IsOpen b
      → ((delete_node B label b).1.tree ≡ b.tree)
        × (expectations (delete_node B label b).1.transaction_stack
            ≡ expectations b.transaction_stack)
  unfolding delete_node delete_in_stack
  delete_node-isolated label b open_layer = go b.transaction_stack refl
    where
      go :
          (stack : Transaction)
          → b.transaction_stack ≡ stack
          → ((delete_node B label b).1.tree ≡ b.tree)
            × (expectations (delete_node B label b).1.transaction_stack
                ≡ expectations b.transaction_stack)
      go [] e = absurd (open_layer e)
      go (s ∷ stack) e = elim (Option-cases (update_first (delete_in_sub label) (s ∷ stack))) [
        | inl none_left ↦ rw (e, delete_node, delete_in_stack, none_left) (refl, ap expectations e)
        | inr (stack', found) ↦
            rw (e, delete_node, delete_in_stack, found)
              (
                refl,
                update_first-view expects (delete_in_sub label) (delete_in_sub-expects label)
                    (s ∷ stack) stack' found,
              )
      ]
