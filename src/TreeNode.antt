-- ===== src/TreeNode.antt =====
-- common/backend_cpp/interface/tree_node.h: the data of a node, of its version, and of the
-- transactions on nodes. A shared_span<> of property data is the list of its bytes.
pub mod Version
pub mod Labels
pub mod Property
pub mod Equality
pub mod TextForm
use world_wide_anthropomorph.Base.{
  ℕ, ◌≡◌, Bool, true, false, ◌&&◌, Option, none, some, List, [], ◌∷◌, ℤ, int_eq,
}
use world_wide_anthropomorph.Text.{Text, bytes, text_eq}

-- class TreeNodeVersion. The two numbers are uint16_t.
pub record TreeNodeVersion : Type 0 where
  pub version_number : ℕ
  pub max_version_sequence : ℕ
  pub policy : Text
  pub authorial_proof : Option Text
  pub authors : Option Text
  pub readers : Option Text
  pub collision_depth : Option ℤ

-- The member initialisers, and DEFAULT_TREE_NODE_VERSION.
abbrev pub default_version : TreeNodeVersion
default_version = record {
  version_number = 0;
  max_version_sequence = 256;
  policy = bytes "default";
  authorial_proof = none;
  authors = none;
  readers = none;
  collision_depth = none;
}

-- std::pair<type, name>
abbrev pub PropertyInfo : Type 0
PropertyInfo = Text × Text

-- class TreeNode
pub record TreeNode : Type 0 where
  pub label_rule : Text
  pub description : Text
  pub property_infos : List PropertyInfo
  pub version : TreeNodeVersion
  pub child_names : List Text
  pub property_data : List ℕ
  pub query_how_to : Option Text
  pub qa_sequence : Option Text

-- NewNodeVersion: the version that the change expects, the label, and the new node or its removal.
pub record NewNodeVersion : Type 0 where
  pub prior : Option ℕ
  pub label : Text
  pub node : Option TreeNode

-- SubTransaction: a change of a parent and the changes of its descendants.
pub record SubTransaction : Type 0 where
  pub parent : NewNodeVersion
  pub children : List NewNodeVersion

abbrev pub Transaction : Type 0
Transaction = List SubTransaction

-- operator== of fplus::maybe<std::string>
unfoldable pub maybe_text_eq : Option Text → Option Text → Bool
maybe_text_eq none none = true
maybe_text_eq none (some b) = false
maybe_text_eq (some a) none = false
maybe_text_eq (some a) (some b) = text_eq a b

unfoldable pub maybe_int_eq : Option ℤ → Option ℤ → Bool
maybe_int_eq none none = true
maybe_int_eq none (some b) = false
maybe_int_eq (some a) none = false
maybe_int_eq (some a) (some b) = int_eq a b

unfoldable pub texts_eq : List Text → List Text → Bool
texts_eq [] [] = true
texts_eq [] (b ∷ bs) = false
texts_eq (a ∷ as') [] = false
texts_eq (a ∷ as') (b ∷ bs) = text_eq a b && texts_eq as' bs

unfoldable pub infos_eq : List PropertyInfo → List PropertyInfo → Bool
infos_eq [] [] = true
infos_eq [] (b ∷ bs) = false
infos_eq (a ∷ as') [] = false
infos_eq ((s, m) ∷ as') ((t, n) ∷ bs) = (text_eq s t && text_eq m n) && infos_eq as' bs
