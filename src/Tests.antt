-- ===== src/Tests.antt =====
-- Concrete trees and changes, on which the theorems and the methods are tried.
mod Trees
mod Labels
mod Listeners
mod Layers
mod Mounts
mod Properties
mod Messages
mod Wire
mod Client
use world_wide_anthropomorph.Base.{ℕ, Option, none, some, List, [], ◌∷◌}
use world_wide_anthropomorph.Text.{Text, bytes}
use world_wide_anthropomorph.TreeNode.{
  TreeNode, TreeNodeVersion, NewNodeVersion, SubTransaction, default_version,
}
use world_wide_anthropomorph.MemoryTree.{MemoryTree}
use world_wide_anthropomorph.SimpleBackend.{SimpleBackend}

-- A node with these children, at this version number.
abbrev pub node_at : Text → List Text → ℕ → TreeNode
node_at label child_names number = record {
  label_rule = label;
  description = [];
  property_infos = [];
  version = record default_version { version_number = number };
  child_names = child_names;
  property_data = [];
  query_how_to = none;
  qa_sequence = none;
}

abbrev pub home : TreeNode
home = node_at (bytes "a") (bytes "b" ∷ []) 0

abbrev pub room : TreeNode
room = node_at (bytes "a/b") (bytes "z" ∷ []) 0

abbrev pub shed : TreeNode
shed = node_at (bytes "c") [] 0

abbrev pub three_nodes : MemoryTree
three_nodes = (bytes "a", home) ∷ (bytes "a/b", room) ∷ (bytes "c", shed) ∷ []

abbrev pub three_backend : SimpleBackend
three_backend = record { memory_tree = three_nodes; node_listeners = []; calls = [] }

-- A change of `home` to its next version, which adds a child.
abbrev pub home_change : NewNodeVersion
home_change = record {
  prior = some 0;
  label = bytes "a";
  node = some (node_at (bytes "a") (bytes "b" ∷ bytes "d" ∷ []) 1);
}

abbrev pub new_child : NewNodeVersion
new_child = record { prior = none; label = bytes "a/d"; node = some (node_at (bytes "a/d") [] 0) }

abbrev pub grow : SubTransaction
grow = record { parent = home_change; children = new_child ∷ [] }

-- A removal of `home`.
abbrev pub raze : SubTransaction
raze = record { parent = record { prior = some 0; label = bytes "a"; node = none }; children = [] }
