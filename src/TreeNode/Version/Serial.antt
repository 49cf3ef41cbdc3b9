-- ===== src/TreeNode/Version/Serial.antt =====
-- The order of versions is serial-number arithmetic: it looks at most half a sequence ahead.
use world_wide_anthropomorph.Base.{
  inl, inr, ◌⊎◌, ℕ, ◌+◌, ◌*◌, ◌%◌, ◌<◌, ◌≤◌, ◌≡◌, refl, ◌≢◌, ◌↔◌, true, false, not, none, some,
  arith, ok, Option, int_eq_iff,
}
use native.Mathlib.Nat.{mod-lt, mod-eq_of_lt, mod-eq-sub-mod}
use world_wide_anthropomorph.Text.{text_eq_iff, Text}
use world_wide_anthropomorph.TreeNode.{TreeNodeVersion, maybe_text_eq, maybe_int_eq}
use world_wide_anthropomorph.TreeNode.Version.{
  increment, version_eq, version_lt, version_le, version_ge, version_gt,
}

pub maybe_text_eq_iff : (a b : Option Text) → (maybe_text_eq a b ≡ true) ↔ (a ≡ b)
unfolding maybe_text_eq
maybe_text_eq_iff none none = ground arith
maybe_text_eq_iff none (some b) = ground arith
maybe_text_eq_iff (some a) none = ground arith
maybe_text_eq_iff (some a) (some b) = ground (arith, text_eq_iff a b)

maybe_int_eq_iff : (a b : _) → (maybe_int_eq a b ≡ true) ↔ (a ≡ b)
unfolding maybe_int_eq
maybe_int_eq_iff none none = ground arith
maybe_int_eq_iff none (some b) = ground arith
maybe_int_eq_iff (some a) none = ground arith
maybe_int_eq_iff (some a) (some b) = ground (arith, int_eq_iff a b)

-- operator== holds of two versions exactly when all their fields agree.
pub version_eq_iff : (v w : TreeNodeVersion) → (version_eq v w ≡ true) ↔ (v ≡ w)
unfolding version_eq
version_eq_iff v w = ground (
  arith,
  text_eq_iff v.policy w.policy,
  maybe_text_eq_iff v.authorial_proof w.authorial_proof,
  maybe_text_eq_iff v.authors w.authors,
  maybe_text_eq_iff v.readers w.readers,
  maybe_int_eq_iff v.collision_depth w.collision_depth,
)

-- Versions with different numbers are not equal, so operator< compares the numbers.
version_lt_numbers :
    (v w : TreeNodeVersion) → v.version_number ≢ w.version_number → version_eq v w ≡ false
unfolding version_eq
version_lt_numbers v w h = ground arith

version_eq_number :
    (v w : TreeNodeVersion) → version_eq v w ≡ true → v.version_number ≡ w.version_number
unfolding version_eq
version_eq_number v w h = ground arith

-- The number `k` steps on, where `k` is less than the length of the sequence.
pub mod_wrap :
    (n k m : ℕ)
    → n < m
    → k < m
    → (((n + k) % m ≡ n + k) × (n + k < m)) ⊎ (((n + k) % m + m ≡ n + k) × (m ≤ n + k))
mod_wrap n k m h1 h2 = grind (arith, mod-eq_of_lt, mod-eq-sub-mod)

-- A version that is `k` steps ahead in the same sequence, wrapping at its end, is greater, where
-- 0 < k and 2 * k is less than the length of the sequence.
pub version_lt-ahead :
    (v w : TreeNodeVersion) (k : ℕ)
    → v.version_number < v.max_version_sequence
    → w.version_number ≡ (v.version_number + k) % v.max_version_sequence
    → 0 < k
    → 2 * k < v.max_version_sequence
    → version_lt v w ≡ true
unfolding version_lt
version_lt-ahead v w k bound e pos_k short =
    elim (mod_wrap v.version_number k v.max_version_sequence bound (omega arith)) [
      | inl near ↦ ground (arith, version_lt_numbers v w)
      | inr wrapped ↦ ground (arith, version_lt_numbers v w)
    ]

-- ++ on a version whose number is in its sequence, of length 3 or more, changes the number alone, so
-- that the length of the sequence and all other members stay. The result is greater, and its number
-- is in the sequence again.
pub version_lt-increment :
    (v : TreeNodeVersion)
    → v.version_number < v.max_version_sequence
    → 3 ≤ v.max_version_sequence
    → (w : TreeNodeVersion) × (increment v ≡ ok w)
      × (w ≡ record v { version_number = w.version_number })
      × (version_lt v w ≡ true)
      × (w.version_number < w.max_version_sequence)
unfolding increment
version_lt-increment v bound long =
    let w : TreeNodeVersion = record v {
      version_number = (v.version_number + 1) % v.max_version_sequence;
    } in
    (
      w,
      ground arith,
      refl,
      version_lt-ahead v w 1 bound refl (omega arith) (omega arith),
      mod-lt _ (omega arith),
    )

-- Of two versions of one sequence, with different numbers in its range, exactly one is less than
-- the other.
pub version_lt_total :
    (v w : TreeNodeVersion)
    → v.max_version_sequence ≡ w.max_version_sequence
    → v.version_number ≢ w.version_number
    → version_lt w v ≡ not (version_lt v w)
unfolding version_lt
version_lt_total v w same differ = ground (arith, version_lt_numbers v w, version_lt_numbers w v)

-- Within one sequence the five comparisons agree: > is < with its sides exchanged, >= is its
-- negation, <= adds the equality of the numbers, and == excludes < and >.
pub comparisons_agree :
    (v w : TreeNodeVersion)
    → v.max_version_sequence ≡ w.max_version_sequence
    → (version_gt v w ≡ version_lt w v)
      × (version_ge v w ≡ not (version_lt v w))
      × (version_le v w ≡ not (version_lt w v))
      × (version_eq v w ≡ true → (version_lt v w ≡ false) × (version_gt v w ≡ false))
unfolding version_gt version_ge
comparisons_agree v w same = (
  ground (arith, version_eq_number v w, version_eq_number w v),
  refl,
  ground (arith, version_eq_number v w, version_eq_number w v),
  λ e. ground (arith, version_eq_number v w),
)
