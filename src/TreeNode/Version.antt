-- ===== src/TreeNode/Version.antt =====
-- common/backend_cpp/interface/tree_node.h: the operators of TreeNodeVersion. The numbers wrap at
-- max_version_sequence, and operator< compares them as serial numbers.
pub mod Serial
use world_wide_anthropomorph.Base.{
  ℕ, ◌+◌, ◌-◌, ◌/◌, ◌%◌, ◌≡◌, refl, ◌↔◌, Bool, true, false, not, ◌&&◌, ◌||◌, Option, none, some,
  arith, ltb, leb, ◌==◌, if◌then◌else◌, int_eq_iff, Result, ok, err, trap, List, [], ◌∷◌,
}
use world_wide_anthropomorph.Text.{Text, bytes, text_eq, text_eq_iff}
use world_wide_anthropomorph.TreeNode.{TreeNodeVersion, maybe_text_eq, maybe_int_eq, TreeNode}

-- (version_number + 1) % max_version_sequence; a sequence of length 0 divides by zero.
unfoldable pub next_number : TreeNodeVersion → Result ℕ
next_number v =
    if v.max_version_sequence == 0
    then err trap
    else ok ((v.version_number + 1) % v.max_version_sequence)

-- operator++ of the version (its assert fails where the division would)
unfoldable pub increment : TreeNodeVersion → Result TreeNodeVersion
unfolding next_number
increment v =
    if v.max_version_sequence == 0
    then err trap
    else ok (record v { version_number = (v.version_number + 1) % v.max_version_sequence })

-- operator++ of the node
unfoldable pub increment_node : TreeNode → Result TreeNode
unfolding increment
increment_node n = elim (increment n.version) [
  | ok v ↦ ok (record n { version = v })
  | err e ↦ err e
]

abbrev is_nothing {ℓ} : {A : Type ℓ} → Option A → Bool
is_nothing none = true
is_nothing (some a) = false

unfoldable pub is_default : TreeNodeVersion → Bool
is_default v =
    (v.version_number == 0)
    && (v.max_version_sequence == 256)
    && text_eq v.policy (bytes "default")
    && is_nothing v.authorial_proof
    && is_nothing v.authors
    && is_nothing v.readers
    && is_nothing v.collision_depth

-- operator==
unfoldable pub version_eq : TreeNodeVersion → TreeNodeVersion → Bool
version_eq v w =
    (v.version_number == w.version_number)
    && (v.max_version_sequence == w.max_version_sequence)
    && text_eq v.policy w.policy
    && maybe_text_eq v.authorial_proof w.authorial_proof
    && maybe_text_eq v.authors w.authors
    && maybe_text_eq v.readers w.readers
    && maybe_int_eq v.collision_depth w.collision_depth

-- operator<. The int32_t differences of two uint16_t are written without a sign.
unfoldable pub version_lt : TreeNodeVersion → TreeNodeVersion → Bool
version_lt v w =
    if version_eq v w
    then false
    else let half_max_sequence = v.max_version_sequence / 2 in
      if ltb v.version_number w.version_number
      then leb (w.version_number - v.version_number) half_max_sequence
      else ltb half_max_sequence (v.version_number - w.version_number)

-- operator<=
unfoldable pub version_le : TreeNodeVersion → TreeNodeVersion → Bool
unfolding version_lt
version_le v w = version_lt v w || (v.version_number == w.version_number)

-- operator>=
unfoldable pub version_ge : TreeNodeVersion → TreeNodeVersion → Bool
unfolding version_lt
version_ge v w = not (version_lt v w)

-- operator>
unfoldable pub version_gt : TreeNodeVersion → TreeNodeVersion → Bool
unfolding version_le
version_gt v w = not (version_le v w)
