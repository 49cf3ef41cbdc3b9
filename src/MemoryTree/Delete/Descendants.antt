-- ===== src/MemoryTree/Delete/Descendants.antt =====
-- deleteNode against an independent description: a node goes exactly if it is the deleted node or
-- one of its descendants.
use world_wide_anthropomorph.Base.{
  subst, length-append, ℕ, zero, suc, ◌+◌, ◌<◌, ◌≡◌, ◌∙◌, sym, refl, false, Option, none, some,
  List, [], ◌∷◌, ◌++◌, reverse, arith, length, Option-cases, Bool-cases, inl, inr, ◌⊎◌, ◌≢◌, Member,
  Member-append_left, Member-append_right, Member-append_cases, Member-reverse,
  Member-reverse_inverse,
}
use world_wide_anthropomorph.Text.{Text, text_eq, text_eq_iff}
use world_wide_anthropomorph.OrderedMap.{lookup, erase}
use world_wide_anthropomorph.OrderedMap.Laws.{lookup-erase}
use world_wide_anthropomorph.TreeNode.{TreeNode}
use world_wide_anthropomorph.TreeNode.Labels.{get_absolute_child_names}
use world_wide_anthropomorph.MemoryTree.{MemoryTree, owned_children, delete_loop, weight}
use world_wide_anthropomorph.MemoryTree.Delete.Rounds.{
  length-reverse, length-owned_children, weight-erase,
}

-- The children of the node with the label; below them, the children of each node that have the
-- label in their own.
pub data Descendant (t : MemoryTree) (label : Text) : Text → Type 0 where
  child :
      {n : TreeNode} {c : Text}
      → lookup label t ≡ some n
      → Member c (get_absolute_child_names n)
      → Descendant t label c
  below :
      {k c : Text} {n : TreeNode}
      → Descendant t label k
      → lookup k t ≡ some n
      → Member c (owned_children label n)
      → Descendant t label c

-- A round that takes a node out needs fewer rounds after it.
fewer_rounds :
    (f : ℕ) (label current : Text) (to_delete : List Text) (t : MemoryTree) (node : TreeNode)
    → length (current ∷ to_delete) + weight t < suc f
    → lookup current t ≡ some node
    → length (reverse (owned_children label node) ++ to_delete) + weight (erase current t) < f
fewer_rounds f label current to_delete t node h e = omega (
  arith,
  length-append (reverse (owned_children label node)) to_delete,
  length-reverse (owned_children label node),
  length-owned_children label node,
  weight-erase current node t e,
)

module _ (before : MemoryTree) (label : Text) where
  -- The tree has lost nodes of the first one, and changed none.
  abbrev pub Shrunk : MemoryTree → Type 0
  Shrunk t = (k : Text) → (lookup k t ≡ none) ⊎ (lookup k t ≡ lookup k before)

  pub Shrunk-erase : (j : Text) (t : MemoryTree) → Shrunk t → Shrunk (erase j t)
  Shrunk-erase j t s k = elim (Bool-cases (text_eq j k)) [
    | inl e ↦ inl (rw lookup-erase (rw e))
    | inr e ↦ rw lookup-erase (rw e (s k))
  ]

  pub lookup-erase_gone :
      (j k : Text) (t : MemoryTree) → lookup k t ≡ none → lookup k (erase j t) ≡ none
  lookup-erase_gone j k t h = rw lookup-erase (ground (arith, h))

  pub lookup-erase_self : (j : Text) (t : MemoryTree) → lookup j (erase j t) ≡ none
  lookup-erase_self j t = rw lookup-erase (ground (arith, text_eq_iff j j))

  pub lookup-erase_ne :
      (j k : Text) (t : MemoryTree) → text_eq j k ≡ false → lookup k (erase j t) ≡ lookup k t
  lookup-erase_ne j k t h = rw lookup-erase (rw h)

  same_node :
      (k : Text) (t : MemoryTree) (n node : TreeNode)
      → Shrunk t
      → lookup k t ≡ some node
      → lookup k before ≡ some n
      → n ≡ node
  same_node k t n node s e e_before = elim (s k) [ inl h ↦ ground arith | inr h ↦ ground arith ]

  -- What the loop still has to reach: a child of a node that is gone is gone, or is to be deleted.
  abbrev pub Pending : List Text → MemoryTree → Type 0
  Pending to_delete t =
      (k c : Text) (n : TreeNode)
      → lookup k before ≡ some n
      → lookup k t ≡ none
      → k ≢ label
      → Member c (owned_children label n)
      → (lookup c t ≡ none) ⊎ Member c to_delete

  abbrev pub Closed : MemoryTree → Type 0
  Closed t =
      (k c : Text) (n : TreeNode)
      → lookup k before ≡ some n
      → lookup k t ≡ none
      → k ≢ label
      → Member c (owned_children label n)
      → lookup c t ≡ none

  skip-Pending :
      (current : Text) (to_delete : List Text) (t : MemoryTree)
      → lookup current t ≡ none
      → Pending (current ∷ to_delete) t
      → Pending to_delete t
  skip-Pending current to_delete t gone p k c n e g d m = elim (p k c n e g d m) [
    | inl h ↦ inl h
    | inr (inl same) ↦ inl (rw same gone)
    | inr (inr later) ↦ inr later
  ]

  take-Pending :
      (current : Text) (to_delete : List Text) (t : MemoryTree) (node : TreeNode)
      → Shrunk t
      → lookup current t ≡ some node
      → Pending (current ∷ to_delete) t
      → Pending (reverse (owned_children label node) ++ to_delete) (erase current t)
  take-Pending current to_delete t node s e p k c n e_before g d m =
      elim (Bool-cases (text_eq current k)) [
        | inl same ↦
            let current_is_k : current ≡ k = (text_eq_iff current k).0 same in
            let n_is_node : n ≡ node = same_node k t n node s (rw (sym current_is_k) e) e_before in
            inr (
              Member-append_left c (reverse (owned_children label node)) to_delete (
                Member-reverse c (owned_children label node)
                  (subst (λ x. Member c (owned_children label x)) n_is_node m)))
        | inr other ↦ elim (p k c n e_before (sym (lookup-erase_ne current k t other) ∙ g) d m) [
          | inl h ↦ inl (lookup-erase_gone current c t h)
          | inr (inl q) ↦ inl (rw q (lookup-erase_self current t))
          | inr (inr later) ↦
              inr (Member-append_right c (reverse (owned_children label node)) to_delete later)
        ]
      ]

  -- The loop ends in a closed tree.
  pub delete_loop_closes :
      (f : ℕ) (to_delete : List Text) (t : MemoryTree)
      → length to_delete + weight t < f
      → Shrunk t
      → Pending to_delete t
      → Closed (delete_loop f label to_delete t).1
  unfolding delete_loop
  delete_loop_closes zero to_delete t h s p = elim h [ ]
  delete_loop_closes (suc f) [] t h s p =
      λ k c n e g d m. elim (p k c n e g d m) [ inl gone ↦ gone | inr m' ↦ absurd m' ]
  delete_loop_closes (suc f) (current ∷ to_delete) t h s p =
      elim (Option-cases (lookup current t)) [
        | inl e ↦
            rw (e, delete_loop)
              (delete_loop_closes f to_delete t (omega arith) s
                (skip-Pending current to_delete t e p))
        | inr (node, e) ↦
            rw (e, delete_loop)
              (delete_loop_closes f (reverse (owned_children label node) ++ to_delete)
                (erase current t) (fewer_rounds f label current to_delete t node h e)
                (Shrunk-erase current t s) (take-Pending current to_delete t node s e p))
      ]

  -- What is gone stays gone.
  pub delete_loop_gone :
      (f : ℕ) (to_delete : List Text) (t : MemoryTree) (k : Text)
      → lookup k t ≡ none
      → lookup k (delete_loop f label to_delete t).1 ≡ none
  unfolding delete_loop
  delete_loop_gone zero to_delete t k g = g
  delete_loop_gone (suc f) [] t k g = g
  delete_loop_gone (suc f) (current ∷ to_delete) t k g = elim (Option-cases (lookup current t)) [
    | inl e ↦ rw (e, delete_loop) (delete_loop_gone f to_delete t k g)
    | inr (node, e) ↦
        rw (e, delete_loop)
          (delete_loop_gone f _ (erase current t) k (lookup-erase_gone current k t g))
  ]

  -- What is to be deleted is gone in the end.
  pub delete_loop_takes :
      (f : ℕ) (to_delete : List Text) (t : MemoryTree) (k : Text)
      → length to_delete + weight t < f
      → Member k to_delete
      → lookup k (delete_loop f label to_delete t).1 ≡ none
  unfolding delete_loop
  delete_loop_takes zero to_delete t k h m = elim h [ ]
  delete_loop_takes (suc f) [] t k h m = absurd m
  delete_loop_takes (suc f) (current ∷ to_delete) t k h m = elim (Option-cases (lookup current t)) [
    | inl e ↦
        rw (e, delete_loop)
          (elim m [
            | inl same ↦ delete_loop_gone f to_delete t k (rw same e)
            | inr later ↦ delete_loop_takes f to_delete t k (omega arith) later
          ])
    | inr (node, e) ↦
        rw (e, delete_loop)
          (elim m [
            | inl same ↦
                delete_loop_gone f _ (erase current t) k (rw same (lookup-erase_self current t))
            | inr later ↦
                delete_loop_takes f _ (erase current t) k
                  (fewer_rounds f label current to_delete t node h e)
                  (Member-append_right k (reverse (owned_children label node)) to_delete later)
          ])
  ]

  descendants_queue :
      (current : Text) (to_delete : List Text) (t : MemoryTree) (node : TreeNode)
      → Shrunk t
      → lookup current t ≡ some node
      → ((c : Text) → Member c (current ∷ to_delete) → Descendant before label c)
      → (c : Text) → Member c (reverse (owned_children label node) ++ to_delete)
      → Descendant before label c
  descendants_queue current to_delete t node s e d c m =
      elim (Member-append_cases c (reverse (owned_children label node)) to_delete m) [
        | inl owned ↦
            below (d current (inl refl)) (elim (s current) [ inl h ↦ cc | inr h ↦ sym h ∙ e ])
              (Member-reverse_inverse c (owned_children label node) owned)
        | inr later ↦ d c (inr later)
      ]

  keeps_but_current :
      (current k : Text) (t : MemoryTree) (o : Option TreeNode)
      → Descendant before label current
      → (o ≡ lookup k (erase current t)) ⊎ Descendant before label k
      → (o ≡ lookup k t) ⊎ Descendant before label k
  keeps_but_current current k t o d (inr h) = inr h
  keeps_but_current current k t o d (inl h) = elim (Bool-cases (text_eq current k)) [
    | inl same ↦ inr (subst (Descendant before label) ((text_eq_iff current k).0 same) d)
    | inr other ↦ inl (h ∙ lookup-erase_ne current k t other)
  ]

  -- What is not a descendant stays as it is.
  pub delete_loop_leaves :
      (f : ℕ) (to_delete : List Text) (t : MemoryTree) (k : Text)
      → Shrunk t
      → ((c : Text) → Member c to_delete → Descendant before label c)
      → (lookup k (delete_loop f label to_delete t).1 ≡ lookup k t) ⊎ Descendant before label k
  unfolding delete_loop
  delete_loop_leaves zero to_delete t k s d = inl refl
  delete_loop_leaves (suc f) [] t k s d = inl refl
  delete_loop_leaves (suc f) (current ∷ to_delete) t k s d =
      elim (Option-cases (lookup current t)) [
        | inl e ↦ rw (e, delete_loop) (delete_loop_leaves f to_delete t k s (λ c m. d c (inr m)))
        | inr (node, e) ↦
            rw (e, delete_loop)
              (keeps_but_current current k t _ (d current (inl refl)) (
                delete_loop_leaves f _ (erase current t) k (Shrunk-erase current t s)
                  (descendants_queue current to_delete t node s e d)))
      ]
