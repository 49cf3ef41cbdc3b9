-- ===== src/TransactionalBackend/Reads.antt =====
-- What is read in a layer: the nodes upserted into it, and otherwise the tree below.
use world_wide_anthropomorph.Base.{
  All, ◌≡◌, ◌≢◌, ◌∙◌, ap, refl, true, Option, none, some, List, [], ◌∷◌, arith, Option-cases, inl,
  inr, ok,
}
use world_wide_anthropomorph.Text.{Text, text_eq_refl}
use world_wide_anthropomorph.TreeNode.{TreeNode, NewNodeVersion, SubTransaction, Transaction}
use world_wide_anthropomorph.LabelRule.Overlap.{check_label_rule_overlap_refl}
use world_wide_anthropomorph.Backend.{Backend}
use world_wide_anthropomorph.TransactionalBackend.Stack.{
  find_child, find_in_sub, find_in_stack, set_child, upsert_in_sub, update_first, upsert_in_stack,
  upsert_loop,
}
use world_wide_anthropomorph.TransactionalBackend.{TransactionalBackend, upsert_node, get_node}

find_child-set_child :
    (node : TreeNode) (cs cs' : List NewNodeVersion)
    → set_child node.label_rule (some node) cs ≡ some cs'
    → find_child node.label_rule cs' ≡ some node
unfolding set_child find_child
find_child-set_child node [] cs' h = cc
find_child-set_child node (c ∷ cs) cs' h =
    elim (Option-cases (set_child node.label_rule (some node) cs)) [
      | inl e ↦ ground (arith, e, text_eq_refl node.label_rule)
      | inr (rest, e) ↦
          ground (arith, e, text_eq_refl node.label_rule, find_child-set_child node cs rest e)
    ]

find_child-none :
    (label : Text) (new : Option TreeNode) (cs : List NewNodeVersion)
    → set_child label new cs ≡ none
    → find_child label cs ≡ none
unfolding set_child find_child
find_child-none label new [] h = refl
find_child-none label new (c ∷ cs) h = ground (arith, find_child-none label new cs)

find_in_sub-upsert :
    (node : TreeNode) (s s' : SubTransaction)
    → upsert_in_sub node s ≡ some s'
    → find_in_sub node.label_rule s' ≡ some node
unfolding upsert_in_sub find_in_sub
find_in_sub-upsert node s s' h =
    elim (Option-cases (set_child node.label_rule (some node) s.children)) [
      | inl e ↦
          ground
            (arith, e, text_eq_refl node.label_rule, check_label_rule_overlap_refl node.label_rule)
      | inr (cs, e) ↦ ground (
        arith,
        e,
        text_eq_refl node.label_rule,
        check_label_rule_overlap_refl node.label_rule,
        find_child-set_child node s.children cs e,
      )
    ]

-- Where a subtransaction has nothing to update for the node, it has nothing to find for its label.
find_in_sub-none :
    (node : TreeNode) (s : SubTransaction)
    → upsert_in_sub node s ≡ none
    → find_in_sub node.label_rule s ≡ none
unfolding upsert_in_sub find_in_sub
find_in_sub-none node s h = ground (arith, find_child-none node.label_rule (some node) s.children)

find_in_stack-upsert :
    (node : TreeNode) (stack stack' : Transaction)
    → update_first (upsert_in_sub node) stack ≡ some stack'
    → find_in_stack node.label_rule stack' ≡ some node
unfolding update_first find_in_stack
find_in_stack-upsert node [] stack' h = cc
find_in_stack-upsert node (s ∷ stack) stack' h = elim (Option-cases (upsert_in_sub node s)) [
  | inr (s', e) ↦
      let is_changed : stack' ≡ s' ∷ stack = ground (arith, e) in
      rw (is_changed, find_in_stack, find_in_sub-upsert node s s' e) refl
  | inl e ↦ elim (Option-cases (update_first (upsert_in_sub node) stack)) [
    | inl e' ↦ cc (rw (e, e', update_first) at h)
    | inr (rest, e') ↦
        let is_rest : stack' ≡ s ∷ rest = ground (arith, e, e') in
        rw (is_rest, find_in_stack, find_in_sub-none node s e)
          (find_in_stack-upsert node stack rest e')
  ]
]

upsert_loop-found :
    (node : TreeNode) (nodes : List TreeNode) (stack : Transaction) {stack' : Transaction}
    → upsert_in_stack node stack ≡ some stack'
    → upsert_loop (node ∷ nodes) stack ≡ stack'
unfolding upsert_loop
upsert_loop-found node nodes stack h = rw (h, upsert_loop)

upsert_loop-none :
    (nodes : List TreeNode) (stack : Transaction)
    → All (λ node. upsert_in_stack node stack ≡ none) nodes
    → upsert_loop nodes stack ≡ stack
unfolding upsert_loop
upsert_loop-none [] stack h = refl
upsert_loop-none (node ∷ nodes) stack (h, hs) =
    rw (h, upsert_loop) (upsert_loop-none nodes stack hs)

found-open :
    (node : TreeNode) (stack : Transaction) {stack' : Transaction}
    → upsert_in_stack node stack ≡ some stack'
    → stack ≢ []
unfolding upsert_in_stack
found-open node stack h empty = cc (rw empty at h)

module _ {S : Type 0} (B : Backend S) where
  upsert_node_open :
      (nodes : List TreeNode) (b : TransactionalBackend S)
      → b.transaction_stack ≢ []
      → upsert_node B nodes b
        ≡ (ok true, record b { transaction_stack = upsert_loop nodes b.transaction_stack })
  unfolding upsert_node
  upsert_node_open nodes b open_layer = go b.transaction_stack refl
    where
      go :
          (stack : Transaction)
          → b.transaction_stack ≡ stack
          → upsert_node B nodes b
            ≡ (ok true, record b { transaction_stack = upsert_loop nodes b.transaction_stack })
      go [] e = absurd (open_layer e)
      go (s ∷ stack) e = rw (e, upsert_node)

  -- With a layer open, a node that upsertNode finds a place for in the stack is what getNode
  -- returns for its label afterwards, whatever other nodes are given after it.
  pub get_node-upsert_node_layer :
      (node : TreeNode) (nodes : List TreeNode) (b : TransactionalBackend S) {stack : Transaction}
      → upsert_in_stack node b.transaction_stack ≡ some stack
      → get_node B (upsert_node B (node ∷ nodes) b).1 node.label_rule ≡ ok (some node)
  unfolding get_node
  get_node-upsert_node_layer node nodes b {stack} h =
      rw
        (
          upsert_node_open (node ∷ nodes) b (found-open node b.transaction_stack h),
          upsert_loop-found node nodes b.transaction_stack h,
          get_node,
          find_in_stack-upsert node b.transaction_stack stack (unfold upsert_in_stack in h),
        )
        refl

  -- With a layer open, upsertNode drops all nodes after the first that it finds a place for.
  pub upsert_node-first_only :
      (node : TreeNode) (nodes : List TreeNode) (b : TransactionalBackend S) {stack : Transaction}
      → upsert_in_stack node b.transaction_stack ≡ some stack
      → upsert_node B (node ∷ nodes) b ≡ (ok true, record b { transaction_stack = stack })
  upsert_node-first_only node nodes b h =
      upsert_node_open (node ∷ nodes) b (found-open node b.transaction_stack h)
      ∙ ap (λ x. (ok true, record b { transaction_stack = x }))
          (upsert_loop-found node nodes b.transaction_stack h)

  -- With a layer open, upsertNode of nodes that it finds no place for returns true and changes
  -- nothing, neither the stack nor the backend below.
  pub upsert_node-dropped :
      (nodes : List TreeNode) (b : TransactionalBackend S)
      → b.transaction_stack ≢ []
      → All (λ node. upsert_in_stack node b.transaction_stack ≡ none) nodes
      → upsert_node B nodes b ≡ (ok true, b)
  upsert_node-dropped nodes b open_layer h =
      upsert_node_open nodes b open_layer
      ∙ ap (λ x. (ok true, record b { transaction_stack = x }))
          (upsert_loop-none nodes b.transaction_stack h)
