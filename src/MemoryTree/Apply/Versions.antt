-- ===== src/MemoryTree/Apply/Versions.antt =====
-- The version checks of an applied transaction, and what they make impossible.
use world_wide_anthropomorph.Base.{
  ap, Bool, ◌∙◌, ℕ, ◌+◌, ◌%◌, ◌≡◌, ◌≢◌, true, Option, none, some, [], ◌∷◌, arith, Member, inl, inr,
  ok, err, Error, List, ◌⊎◌, Bool-cases, refl, subst, sym, Result,
}
use world_wide_anthropomorph.OrderedMap.{lookup}
use world_wide_anthropomorph.TreeNode.{TreeNode, NewNodeVersion, SubTransaction, Transaction}
use world_wide_anthropomorph.MemoryTree.{
  MemoryTree, get_node, apply_transaction, node_number, children_match, child_matches,
}
use world_wide_anthropomorph.MemoryTree.Apply.Checks.{apply_transaction-atomic, can_perform-parent}

-- The change of a child fits the tree: the version that it expects is the one in the tree, or it
-- expects no node and there is none, or it expects no node and removes the one that there is.
abbrev pub ChildFits : MemoryTree → NewNodeVersion → Type 0
ChildFits t c = (c.prior ≡ node_number (get_node t c.label)) ⊎ ((c.prior ≡ none) × (c.node ≡ none))

child_fits :
    (old : Option TreeNode) (prior : Option ℕ) (new : Option TreeNode)
    → child_matches old prior new ≡ true
    → (prior ≡ node_number old) ⊎ ((prior ≡ none) × (new ≡ none))
unfolding child_matches
child_fits (some old) none (some new) h = cc
child_fits (some old) none none h = inr (refl, refl)
child_fits (some old) (some v) new h = inl (ground arith)
child_fits none none new h = inl refl
child_fits none (some v) new h = cc

children_match-Member :
    (t : MemoryTree) (cs : List NewNodeVersion) (c : NewNodeVersion)
    → children_match t cs ≡ true
    → Member c cs
    → ChildFits t c
unfolding children_match get_node
children_match-Member t [] c h m = absurd m
children_match-Member t (d ∷ cs) c h m =
    elim (Bool-cases (child_matches (lookup d.label t) d.prior d.node)) [
      | inl e ↦ elim m [
        | inl same ↦ subst (ChildFits t) (sym same) (child_fits _ _ _ e)
        | inr later ↦ children_match-Member t cs c (rw (e, children_match) at h) later
      ]
      | inr e ↦ cc (rw (e, children_match) at h)
    ]

ok_ne_err : {b : Bool} {e : Error} → ok b ≡ err e → ⊥
ok_ne_err h = cc

-- Where a transaction is applied, each parent that was in the tree had the version that its
-- subtransaction expects, its new node has the next number of the sequence, and each change of a
-- child fits the tree as it was.
pub apply_transaction-versions :
    (t : MemoryTree) (transaction : Transaction) {t' : MemoryTree} (s : SubTransaction)
    (old : TreeNode)
    → apply_transaction transaction t ≡ (ok true, t')
    → Member s transaction
    → get_node t s.parent.label ≡ some old
    → (s.parent.prior ≡ some old.version.version_number)
      × (node_number s.parent.node
          ≡ some ((old.version.version_number + 1) % old.version.max_version_sequence))
      × ((c : NewNodeVersion) → Member c s.children → ChildFits t c)
apply_transaction-versions t transaction s old h m found =
    elim (apply_transaction-atomic t transaction) [
      | inl (_, passed) ↦
          let (prior, next, matches) = can_perform-parent t s old (passed s m) found in
          (prior, next, λ c. children_match-Member t s.children c matches)
      | inr (e, thrown) ↦
          absurd (ok_ne_err (ap (λ (p : Result Bool × MemoryTree). p.0) (sym h ∙ thrown)))
    ]

-- A transaction with a subtransaction that removes a parent which is in the tree, or that expects
-- another version of it than the tree has, throws and changes nothing.
pub apply_transaction-refused :
    (t : MemoryTree) (transaction : Transaction) (s : SubTransaction) (old : TreeNode)
    → Member s transaction
    → get_node t s.parent.label ≡ some old
    → (s.parent.node ≡ none) ⊎ (s.parent.prior ≢ some old.version.version_number)
    → (e : Error) × (apply_transaction transaction t ≡ (err e, t))
apply_transaction-refused t transaction s old m found bad =
    elim (apply_transaction-atomic t transaction) [
      | inl (done, passed) ↦
          let (prior, next, _) = can_perform-parent t s old (passed s m) found in
          elim bad [ inl removal ↦ cc (next, removal) | inr stale ↦ absurd (stale prior) ]
      | inr thrown ↦ thrown
    ]
