-- ===== src/Tests/Labels.antt =====
-- Tests of versions, labels and label rules, and examples for their theorems.
use world_wide_anthropomorph.Text.{find_char, Text, bytes, starts_with}
use mathlib.Core.Option.{some-injective}
use world_wide_anthropomorph.Base.{
  All, subst, sym, ◌∙◌, ◌≡◌, ◌<◌, ◌==◌, inr, refl, true, false, some, [], ◌∷◌, ok, arith,
}
use world_wide_anthropomorph.TreeNode.{TreeNode, TreeNodeVersion, NewNodeVersion, default_version}
use world_wide_anthropomorph.TreeNode.Version.{increment, version_lt}
use world_wide_anthropomorph.TreeNode.Version.Serial.{version_lt-increment}
use world_wide_anthropomorph.TreeNode.Labels.{prefix_labels, shorten_labels}
use world_wide_anthropomorph.TreeNode.Labels.RoundTrip.{
  NodeIsOutside, ChangeIsOutside, shorten-prefix_labels,
}
use world_wide_anthropomorph.LabelRule.{check_label_rule_overlap}
use world_wide_anthropomorph.LabelRule.Overlap.{overlap_by_length}
use world_wide_anthropomorph.Tests.{home, grow, new_child, node_at}

-- The last version of a sequence.
abbrev last_version : TreeNodeVersion
last_version = record default_version { version_number = 255 }

abbrev wrapped_version : TreeNodeVersion
wrapped_version = record default_version { version_number = 4 }

version_lt-increment_example :
    (w : TreeNodeVersion) × (increment last_version ≡ ok w)
    × (w ≡ record last_version { version_number = w.version_number })
    × (version_lt last_version w ≡ true)
    × (w.version_number < w.max_version_sequence)
version_lt-increment_example = version_lt-increment last_version (omega arith) (omega arith)

abbrev mount_prefix : Text
mount_prefix = bytes "m/"

home_outside : NodeIsOutside mount_prefix home
unfolding starts_with
home_outside = (refl, (refl, tt))

shorten-prefix_labels_example :
    (m : TreeNode) × (prefix_labels mount_prefix home ≡ ok m)
    × (shorten_labels mount_prefix m ≡ home)
shorten-prefix_labels_example = shorten-prefix_labels mount_prefix home (inr refl) home_outside

outside_change :
    (p : Text) (v : NewNodeVersion) (n : TreeNode)
    → v.node ≡ some n
    → starts_with v.label p ≡ false
    → NodeIsOutside p n
    → ChangeIsOutside p v
outside_change p v n e h outside =
    (h, λ m f. subst (NodeIsOutside p) (some-injective n m (sym e ∙ f)) outside)

grow_outside : ChangeIsOutside mount_prefix grow.parent
unfolding starts_with
grow_outside =
    outside_change mount_prefix grow.parent (node_at (bytes "a") (bytes "b" ∷ bytes "d" ∷ []) 1)
      refl refl (refl, (refl, (refl, tt)))

grow_children_outside : All (ChangeIsOutside mount_prefix) grow.children
unfolding starts_with
grow_children_outside =
    (outside_change mount_prefix new_child (node_at (bytes "a/d") [] 0) refl refl (refl, tt), tt)

overlap_by_length_example : check_label_rule_overlap (bytes "p/x") (bytes "p/y/z") ≡ (1 == 1)
unfolding find_char
overlap_by_length_example =
    overlap_by_length (bytes "p") (bytes "x") (bytes "y") (bytes "z") refl refl refl refl
