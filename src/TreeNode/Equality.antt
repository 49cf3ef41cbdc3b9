-- ===== src/TreeNode/Equality.antt =====
-- common/backend_cpp/interface/tree_node.cpp: operator== of TreeNode.
use world_wide_anthropomorph.TreeNode.Version.Serial.{maybe_text_eq_iff, version_eq_iff}
use world_wide_anthropomorph.Base.{
  ◌≡◌, ◌↔◌, refl, Bool, true, ◌&&◌, Option, none, some, List, [], ◌∷◌, arith,
}
use world_wide_anthropomorph.Text.{Text, text_eq, text_eq_iff}
use world_wide_anthropomorph.TreeNode.{TreeNode, PropertyInfo, maybe_text_eq, texts_eq, infos_eq}
use world_wide_anthropomorph.TreeNode.Version.{version_eq}

-- get_with_default("")
abbrev pub or_empty : Option Text → Text
or_empty none = []
or_empty (some s) = s

-- TreeNode::operator==
unfoldable pub node_eq : TreeNode → TreeNode → Bool
unfolding version_eq texts_eq infos_eq
node_eq a b =
    text_eq a.label_rule b.label_rule
    && text_eq a.description b.description
    && infos_eq a.property_infos b.property_infos
    && version_eq a.version b.version
    && texts_eq a.child_names b.child_names
    && text_eq (or_empty a.query_how_to) (or_empty b.query_how_to)
    && maybe_text_eq a.qa_sequence b.qa_sequence
    && text_eq a.property_data b.property_data

texts_eq_iff : (a b : List Text) → (texts_eq a b ≡ true) ↔ (a ≡ b)
unfolding texts_eq
texts_eq_iff [] [] = (λ _. refl, λ _. refl)
texts_eq_iff [] (y ∷ b) = (λ h. cc h, λ h. cc h)
texts_eq_iff (x ∷ a) [] = (λ h. cc h, λ h. cc h)
texts_eq_iff (x ∷ a) (y ∷ b) = ground (arith, text_eq_iff x y, texts_eq_iff a b)

infos_eq_iff : (a b : List PropertyInfo) → (infos_eq a b ≡ true) ↔ (a ≡ b)
unfolding infos_eq
infos_eq_iff [] [] = (λ _. refl, λ _. refl)
infos_eq_iff [] (y ∷ b) = (λ h. cc h, λ h. cc h)
infos_eq_iff (x ∷ a) [] = (λ h. cc h, λ h. cc h)
infos_eq_iff ((s, m) ∷ a) ((t, n) ∷ b) =
    ground (arith, text_eq_iff s t, text_eq_iff m n, infos_eq_iff a b)

-- Two nodes are equal exactly when all their members are, where a missing query_how_to is the same
-- as an empty one.
pub node_eq_iff :
    (a b : TreeNode)
    → (node_eq a b ≡ true) ↔ (
        (a.label_rule ≡ b.label_rule)
        × (a.description ≡ b.description)
        × (a.property_infos ≡ b.property_infos)
        × (a.version ≡ b.version)
        × (a.child_names ≡ b.child_names)
        × (or_empty a.query_how_to ≡ or_empty b.query_how_to)
        × (a.qa_sequence ≡ b.qa_sequence)
        × (a.property_data ≡ b.property_data))
unfolding node_eq
node_eq_iff a b = ground (
  arith,
  text_eq_iff a.label_rule b.label_rule,
  text_eq_iff a.description b.description,
  infos_eq_iff a.property_infos b.property_infos,
  version_eq_iff a.version b.version,
  texts_eq_iff a.child_names b.child_names,
  text_eq_iff (or_empty a.query_how_to) (or_empty b.query_how_to),
  maybe_text_eq_iff a.qa_sequence b.qa_sequence,
  text_eq_iff a.property_data b.property_data,
)
