-- ===== src/MemoryTree/Apply/Checks.antt =====
-- The first loop of applyTransaction: what a transaction that is applied had to pass.
use world_wide_anthropomorph.Base.{
  first_ok, ap, Result-cases, ℕ, ◌+◌, ◌%◌, ◌≡◌, refl, Bool, true, false, Option, none, some, [],
  ◌∷◌, arith, Member, inl, inr, Result, ok, err, Error, transaction_not_valid, ◌⊎◌, sym, ◌∙◌, subst,
  if◌then◌else◌,
}
use world_wide_anthropomorph.TreeNode.{TreeNode, SubTransaction, Transaction}
use world_wide_anthropomorph.TreeNode.Version.{next_number}
use world_wide_anthropomorph.MemoryTree.{
  MemoryTree, get_node, can_perform_sub_transaction, check_all, perform_all, apply_transaction,
  node_number, maybe_number_eq, children_match,
}

maybe_number_eq_iff : (a b : Option ℕ) → maybe_number_eq a b ≡ true → a ≡ b
maybe_number_eq_iff none none h = refl
maybe_number_eq_iff none (some b) h = cc
maybe_number_eq_iff (some a) none h = cc
maybe_number_eq_iff (some a) (some b) h = ground arith

-- A test that guards the rest of the checks, and passed.
guarded :
    (b : Bool) (rest : Result (Unit {0})) {u : Unit {0}}
    → (if b then rest else err transaction_not_valid) ≡ ok u
    → (b ≡ true) × (rest ≡ ok u)
guarded true rest h = (refl, h)
guarded false rest h = cc

check_all-cons :
    (t : MemoryTree) (s : SubTransaction) (transaction : Transaction) {u : Unit {0}}
    → check_all t (s ∷ transaction) ≡ ok u
    → (can_perform_sub_transaction t s ≡ ok true) × (check_all t transaction ≡ ok u)
unfolding check_all
check_all-cons t s transaction h =
    let (b, passed, more) =
      first_ok (can_perform_sub_transaction t s)
        (λ fits. if fits then check_all t transaction else err transaction_not_valid) h in
    let (yes_b, rest) = guarded b (check_all t transaction) more in (passed ∙ ap ok yes_b, rest)

check_all-Member :
    (t : MemoryTree) (transaction : Transaction) (s : SubTransaction) {u : Unit {0}}
    → check_all t transaction ≡ ok u
    → Member s transaction
    → can_perform_sub_transaction t s ≡ ok true
check_all-Member t [] s h m = absurd m
check_all-Member t (s' ∷ transaction) s h (inl e) =
    subst (λ x. can_perform_sub_transaction t x ≡ ok true) (sym e)
      (check_all-cons t s' transaction h).0
check_all-Member t (s' ∷ transaction) s h (inr m) =
    check_all-Member t transaction s (check_all-cons t s' transaction h).1 m

-- Either all subtransactions pass their checks in the tree as it was, and all are performed, or
-- an exception is thrown and the tree is as it was.
pub apply_transaction-atomic :
    (t : MemoryTree) (transaction : Transaction)
    → ((apply_transaction transaction t ≡ (ok true, perform_all transaction t))
        × ((s : SubTransaction) → Member s transaction → can_perform_sub_transaction t s ≡ ok true))
      ⊎ ((e : Error) × (apply_transaction transaction t ≡ (err e, t)))
unfolding apply_transaction
apply_transaction-atomic t transaction = elim (Result-cases (check_all t transaction)) [
  | inl (u, e) ↦ inl (rw (e, apply_transaction), λ s m. check_all-Member t transaction s e m)
  | inr (e, thrown) ↦ inr (e, rw (thrown, apply_transaction))
]

-- A subtransaction that passes, on a parent that is in the tree, expects the version that the tree has and
-- brings a new node with the next version number, wrapped at the end of its sequence.
pub can_perform-parent :
    (t : MemoryTree) (s : SubTransaction) (old : TreeNode)
    → can_perform_sub_transaction t s ≡ ok true
    → get_node t s.parent.label ≡ some old
    → (s.parent.prior ≡ some old.version.version_number)
      × (node_number s.parent.node
          ≡ some ((old.version.version_number + 1) % old.version.max_version_sequence))
      × (children_match t s.children ≡ true)
unfolding can_perform_sub_transaction get_node next_number
can_perform-parent t s old h found = ground (
  arith,
  maybe_number_eq_iff (some old.version.version_number) s.parent.prior,
  maybe_number_eq_iff (some ((old.version.version_number + 1) % old.version.max_version_sequence))
      (node_number s.parent.node),
)
