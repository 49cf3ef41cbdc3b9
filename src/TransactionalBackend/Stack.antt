-- ===== src/TransactionalBackend/Stack.antt =====
-- The loops over transaction_stack_ of transactional_backend.cpp.
use world_wide_anthropomorph.Base.{
  ℕ, Bool, true, false, Option, none, some, List, [], ◌∷◌, ◌++◌, if◌then◌else◌, Result, ok, err,
}
use world_wide_anthropomorph.Text.{Text, text_eq}
use world_wide_anthropomorph.TreeNode.{TreeNode, NewNodeVersion, SubTransaction, Transaction}
use world_wide_anthropomorph.TreeNode.Version.{next_number}
use world_wide_anthropomorph.LabelRule.{check_label_rule_overlap}

-- The new node of a change, if it has the label.
abbrev pub labelled : Text → Option TreeNode → Option TreeNode
labelled label none = none
labelled label (some n) = if text_eq label n.label_rule then some n else none

-- The loop over the children in getNode.
unfoldable pub find_child : Text → List NewNodeVersion → Option TreeNode
find_child label [] = none
find_child label (c ∷ children) =
    let rest = find_child label children in
    elim (labelled label c.node) [ some n ↦ some n | none ↦ rest ]

-- One round of the loop over the stack in getNode.
unfoldable pub find_in_sub : Text → SubTransaction → Option TreeNode
unfolding find_child
find_in_sub label s = elim s.parent.node [
  | none ↦ none
  | some p ↦
      if check_label_rule_overlap label p.label_rule
      then if text_eq label p.label_rule then some p else find_child label s.children
      else none
]

unfoldable pub find_in_stack : Text → Transaction → Option TreeNode
unfolding find_in_sub
find_in_stack label [] = none
find_in_stack label (s ∷ stack) =
    let rest = find_in_stack label stack in
    elim (find_in_sub label s) [ some n ↦ some n | none ↦ rest ]

-- A change of the first child with the label, to `new`.
unfoldable pub set_child :
    Text → Option TreeNode → List NewNodeVersion → Option (List NewNodeVersion)
set_child label new [] = none
set_child label new (c ∷ children) =
    let rest = set_child label new children in
    elim (labelled label c.node) [
      | some n ↦ some (record c { node = new } ∷ children)
      | none ↦ elim rest [ some cs ↦ some (c ∷ cs) | none ↦ none ]
    ]

-- A loop over the stack that ends at the first subtransaction that it changes.
unfoldable pub update_first :
    (SubTransaction → Option SubTransaction) → Transaction → Option Transaction
update_first f [] = none
update_first f (s ∷ stack) =
    let rest = update_first f stack in
    elim (f s) [
      | some s' ↦ some (s' ∷ stack)
      | none ↦ elim rest [ some stack' ↦ some (s ∷ stack') | none ↦ none ]
    ]

-- One round of the loop over the stack in upsertNode, if it updates the subtransaction.
unfoldable pub upsert_in_sub : TreeNode → SubTransaction → Option SubTransaction
unfolding set_child
upsert_in_sub node s = elim s.parent.node [
  | none ↦ none
  | some p ↦
      if check_label_rule_overlap node.label_rule p.label_rule
      then if text_eq node.label_rule p.label_rule
        then some (record s { parent = record s.parent { node = some node } })
        else elim (set_child node.label_rule (some node) s.children) [
          | some cs ↦ some (record s { children = cs })
          | none ↦ none
        ]
      else none
]

unfoldable pub upsert_in_stack : TreeNode → Transaction → Option Transaction
unfolding upsert_in_sub update_first
upsert_in_stack node = update_first (upsert_in_sub node)

-- The loop over the nodes in upsertNode: it returns at the first node that updates the stack.
unfoldable pub upsert_loop : List TreeNode → Transaction → Transaction
unfolding upsert_in_stack
upsert_loop [] stack = stack
upsert_loop (node ∷ nodes) stack =
    let rest = upsert_loop nodes stack in
    elim (upsert_in_stack node stack) [ some stack' ↦ stack' | none ↦ rest ]

-- One round of the loop over the stack in deleteNode, if the parent overlaps with the label.
unfoldable pub delete_in_sub : Text → SubTransaction → Option SubTransaction
unfolding set_child
delete_in_sub label s = elim s.parent.node [
  | none ↦ none
  | some p ↦
      if check_label_rule_overlap label p.label_rule
      then if text_eq label p.label_rule
        then some (record s { parent = record s.parent { node = none } })
        else elim (set_child label none s.children) [
          | some cs ↦ some (record s { children = cs })
          | none ↦ some (record s {
            children = s.children ++ record { prior = none; label = label; node = none } ∷ [];
          })
        ]
      else none
]

unfoldable pub delete_in_stack : Text → Transaction → Option Transaction
unfolding delete_in_sub update_first
delete_in_stack label = update_first (delete_in_sub label)

-- The loop over the stack in queryNodes: what stands in for a node that the query found. A child
-- ends only the inner loop.
unfoldable pub stand_ins : Text → Transaction → List TreeNode
unfolding find_child
stand_ins label_rule [] = []
stand_ins label_rule (s ∷ stack) =
    let rest = stand_ins label_rule stack in
    elim s.parent.node [
      | none ↦ rest
      | some p ↦
          if check_label_rule_overlap label_rule p.label_rule
          then if text_eq label_rule p.label_rule
            then p ∷ []
            else elim (find_child label_rule s.children) [ some c ↦ c ∷ rest | none ↦ rest ]
          else rest
    ]

unfoldable pub query_results : Text → Transaction → List TreeNode → List TreeNode
unfolding stand_ins
query_results label_rule stack [] = []
query_results label_rule stack (node ∷ nodes) =
    let rest = query_results label_rule stack nodes in
    elim (stand_ins label_rule stack) [ [] ↦ node ∷ rest | r ∷ rs ↦ (r ∷ rs) ++ rest ]

-- The overlap check of openTransactionLayer.
unfoldable pub overlaps_stack : Text → Transaction → Bool
overlaps_stack label [] = false
overlaps_stack label (s ∷ stack) =
    let rest = overlaps_stack label stack in
    elim s.parent.node [
      | none ↦ rest
      | some p ↦ if check_label_rule_overlap label p.label_rule then true else rest
    ]

-- The expected version of a layer's parent: the next number of the one in the tree.
unfoldable pub layer_prior : Option TreeNode → Result (Option ℕ)
unfolding next_number
layer_prior none = ok none
layer_prior (some old) = elim (next_number old.version) [ ok n ↦ ok (some n) | err e ↦ err e ]
