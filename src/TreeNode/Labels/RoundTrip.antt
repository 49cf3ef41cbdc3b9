-- ===== src/TreeNode/Labels/RoundTrip.antt =====
-- Shortening undoes prefixing, for labels that do not begin with the prefix themselves.
use world_wide_anthropomorph.Base.{
  ◌⊎◌, inl, inr, ℕ, ◌≡◌, refl, true, false, Option, none, some, List, [], ◌∷◌, map, arith, drop, ok,
  All, length, drop-append, map_ok,
}
use world_wide_anthropomorph.Text.{Text, slash, starts_with, back, is_empty}
use world_wide_anthropomorph.Text.Search.{starts_with-append, starts_with-split}
use world_wide_anthropomorph.TreeNode.{TreeNode, NewNodeVersion, SubTransaction}
use world_wide_anthropomorph.TreeNode.Labels.{
  add_prefix, drop_prefix, prefix_labels, shorten_labels, prefix_new_node_version,
  shorten_new_node_version, prefix_sub_transaction, shorten_sub_transaction,
}

-- The label does not begin with the prefix.
abbrev pub IsOutside : Text → Text → Type 0
IsOutside p s = starts_with s p ≡ false

-- No label of the node begins with the prefix.
abbrev pub NodeIsOutside : Text → TreeNode → Type 0
NodeIsOutside p n = IsOutside p n.label_rule × All (IsOutside p) n.child_names

-- A prefix that is empty or ends in a slash, as prefixLabels asks for.
abbrev pub IsPrefixLabel : Text → Type 0
IsPrefixLabel p = (is_empty p ≡ true) ⊎ (back p ≡ slash)

drop_prefix-add_prefix : (p s : Text) → IsOutside p s → drop_prefix p (add_prefix p s) ≡ s
unfolding add_prefix drop_prefix
drop_prefix-add_prefix p s h = rw (h, starts_with-append p s) (drop-append p s)

add_prefix-drop_prefix :
    (p s : Text)
    → starts_with s p ≡ true
    → IsOutside p (drop (length p) s)
    → add_prefix p (drop_prefix p s) ≡ s
unfolding add_prefix drop_prefix
add_prefix-drop_prefix p s h out = rw (h, out) (starts_with-split s p h)

map-drop-add :
    (p : Text) (names : List Text)
    → All (IsOutside p) names
    → map (drop_prefix p) (map (add_prefix p) names) ≡ names
map-drop-add p [] h = refl
map-drop-add p (s ∷ names) (h, hs) = cc (drop_prefix-add_prefix p s h, map-drop-add p names hs)

-- The node with every label prefixed.
abbrev pub prefixed : Text → TreeNode → TreeNode
prefixed p n = record n {
  label_rule = add_prefix p n.label_rule;
  child_names = map (add_prefix p) n.child_names;
}

pub prefix_labels_lem :
    (p : Text) (n : TreeNode)
    → is_empty p ≡ false
    → back p ≡ slash
    → prefix_labels p n ≡ ok (prefixed p n)
unfolding prefix_labels
prefix_labels_lem p n filled ends = ground arith

pub shorten-prefixed :
    (p : Text) (n : TreeNode)
    → is_empty p ≡ false
    → NodeIsOutside p n
    → shorten_labels p (prefixed p n) ≡ n
unfolding shorten_labels
shorten-prefixed p n filled h =
    rw (filled, drop_prefix-add_prefix p n.label_rule h.0, map-drop-add p n.child_names h.1)

-- Prefixing a node that has no label with the prefix succeeds, and shortening gives it back, where
-- the prefix is empty or ends in a slash.
pub shorten-prefix_labels :
    (p : Text) (n : TreeNode)
    → IsPrefixLabel p
    → NodeIsOutside p n
    → (m : TreeNode) × (prefix_labels p n ≡ ok m) × (shorten_labels p m ≡ n)
unfolding prefix_labels shorten_labels
shorten-prefix_labels [] n v h = (n, refl, refl)
shorten-prefix_labels (x ∷ p) n (inl e) h = cc
shorten-prefix_labels (x ∷ p) n (inr e) h =
    (prefixed (x ∷ p) n, prefix_labels_lem (x ∷ p) n refl e, shorten-prefixed (x ∷ p) n refl h)

-- Every label of the change, and of its node, is outside the prefix.
abbrev pub ChangeIsOutside : Text → NewNodeVersion → Type 0
ChangeIsOutside p v = IsOutside p v.label × ((n : TreeNode) → v.node ≡ some n → NodeIsOutside p n)

shorten-prefix_change :
    (p : Text) (v : NewNodeVersion)
    → is_empty p ≡ false
    → back p ≡ slash
    → ChangeIsOutside p v
    → (w : NewNodeVersion) × (prefix_new_node_version p v ≡ ok w)
      × (shorten_new_node_version p w ≡ v)
unfolding prefix_new_node_version shorten_new_node_version
shorten-prefix_change p v filled ends h = go v.node refl
  where
    go :
        (o : Option TreeNode)
        → v.node ≡ o
        → (w : NewNodeVersion) × (prefix_new_node_version p v ≡ ok w)
          × (shorten_new_node_version p w ≡ v)
    go none e = (
      record { prior = v.prior; label = add_prefix p v.label; node = none },
      ground arith,
      rw (filled, drop_prefix-add_prefix p v.label h.0) (ground arith),
    )
    go (some n) e = (
      record { prior = v.prior; label = add_prefix p v.label; node = some (prefixed p n) },
      ground (arith, prefix_labels_lem p n),
      rw
          (
            filled,
            drop_prefix-add_prefix p v.label h.0,
            drop_prefix-add_prefix p n.label_rule (h.1 n e).0,
            map-drop-add p n.child_names (h.1 n e).1,
          )
          (ground arith),
    )

shorten-prefix_changes :
    (p : Text) (vs : List NewNodeVersion)
    → is_empty p ≡ false
    → back p ≡ slash
    → All (ChangeIsOutside p) vs
    → (ws : List NewNodeVersion) × (map_ok (prefix_new_node_version p) vs ≡ ok ws)
      × (map (shorten_new_node_version p) ws ≡ vs)
shorten-prefix_changes p [] filled ends h = ([], refl, refl)
shorten-prefix_changes p (v ∷ vs) filled ends (h, hs) =
    let (w, made, undone) = shorten-prefix_change p v filled ends h in
    let (ws, all_made, all_undone) = shorten-prefix_changes p vs filled ends hs in
    (w ∷ ws, rw (made, all_made) refl, cc (undone, all_undone))

sub_made :
    (x : ℕ) (p : Text) (s : SubTransaction) {w : NewNodeVersion} {ws : List NewNodeVersion}
    → prefix_new_node_version (x ∷ p) s.parent ≡ ok w
    → map_ok (prefix_new_node_version (x ∷ p)) s.children ≡ ok ws
    → prefix_sub_transaction (x ∷ p) s ≡ ok (record { parent = w; children = ws })
unfolding prefix_sub_transaction
sub_made x p s made all_made = rw (made, all_made) refl

sub_undone :
    (x : ℕ) (p : Text) (w : NewNodeVersion) (ws : List NewNodeVersion) {v : NewNodeVersion}
    {vs : List NewNodeVersion}
    → shorten_new_node_version (x ∷ p) w ≡ v
    → map (shorten_new_node_version (x ∷ p)) ws ≡ vs
    → shorten_sub_transaction (x ∷ p) (record { parent = w; children = ws })
      ≡ record { parent = v; children = vs }
unfolding shorten_sub_transaction
sub_undone x p w ws undone all_undone = λ i. record { parent = undone i; children = all_undone i }

-- Prefixing all labels of a subtransaction, where none begins with the prefix, succeeds, and
-- shortening them gives the subtransaction back, where the prefix is empty or ends in a slash.
pub shorten-prefix_sub_transaction :
    (p : Text) (s : SubTransaction)
    → IsPrefixLabel p
    → ChangeIsOutside p s.parent
    → All (ChangeIsOutside p) s.children
    → (t : SubTransaction) × (prefix_sub_transaction p s ≡ ok t) × (shorten_sub_transaction p t ≡ s)
shorten-prefix_sub_transaction [] s v h hs =
    unfold prefix_sub_transaction shorten_sub_transaction in (s, refl, refl)
shorten-prefix_sub_transaction (x ∷ p) s (inl e) h hs = cc
shorten-prefix_sub_transaction (x ∷ p) s (inr e) h hs =
    let (w, made, undone) = shorten-prefix_change (x ∷ p) s.parent refl e h in
    let (ws, all_made, all_undone) = shorten-prefix_changes (x ∷ p) s.children refl e hs in
    (
      record { parent = w; children = ws },
      sub_made x p s made all_made,
      sub_undone x p w ws undone all_undone,
    )
