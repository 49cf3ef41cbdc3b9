-- ===== src/LabelRule.antt =====
-- common/backend_cpp/memory/src/simple_backend.cpp: the tests on label rules that the backends share.
pub mod Overlap
pub mod Partial
use world_wide_anthropomorph.Base.{
  ℕ, zero, suc, ◌+◌, Bool, true, false, not, ◌&&◌, ◌||◌, Option, none, some, [], ◌∷◌, ltb, leb,
  ◌==◌, if◌then◌else◌, length, take, drop,
}
use world_wide_anthropomorph.Text.{
  Text, slash, text_eq, starts_with, find_char, find_last, byte_at, is_empty,
}

-- The part of a rule before its first '?'.
unfoldable pub strip_query : Text → Text
unfolding find_char
strip_query label_rule = elim (find_char b'?' label_rule) [
  | none ↦ label_rule
  | some query_pos ↦ take query_pos label_rule
]

-- std::min of two positions, with `none` for npos
abbrev pub min_position : Option ℕ → Option ℕ → Option ℕ
min_position none q = q
min_position (some p) none = some p
min_position (some p) (some q) = if leb p q then some p else some q

-- The comparison of the extensions past the last common slash.
unfoldable pub extensions_overlap : Text → Text → Bool
unfolding find_char
extensions_overlap extension1 extension2 = elim (find_char slash extension1) [
  | none ↦ elim (find_char slash extension2) [
    | none ↦ false
    | some slash_pos_2 ↦ slash_pos_2 == length extension1
  ]
  | some slash_pos_1 ↦ elim (find_char slash extension2) [
    | none ↦ slash_pos_1 == length extension2
    | some _ ↦ false
  ]
]

-- What follows once the lesser of the last slashes is known. At npos the code reads a byte before
-- the text, which is undefined; no slash is taken to stand there.
unfoldable pub overlap_at : Option ℕ → Text → Text → Bool
unfolding extensions_overlap
overlap_at none label1 label2 = false
overlap_at (some i) label1 label2 =
    if not (byte_at label1 i == slash) || not (byte_at label2 i == slash)
    then false
    else if not (text_eq (take i label1) (take i label2))
    then false
    else extensions_overlap (drop (suc i) label1) (drop (suc i) label2)

-- checkLabelRuleOverlap, on rules without their queries
unfoldable pub stripped_overlap : Text → Text → Bool
unfolding overlap_at find_last
stripped_overlap label1 label2 =
    if is_empty label1 || is_empty label2
    then true
    else if text_eq label1 label2
    then true
    else overlap_at (min_position (find_last slash label1) (find_last slash label2)) label1 label2

-- checkLabelRuleOverlap
unfoldable pub check_label_rule_overlap : Text → Text → Bool
unfolding stripped_overlap strip_query
check_label_rule_overlap label_rule_1 label_rule_2 =
    stripped_overlap (strip_query label_rule_1) (strip_query label_rule_2)

-- partialLabelRuleMatch
unfoldable pub partial_label_rule_match : Text → Text → Bool
unfolding strip_query
partial_label_rule_match label_rule notification_rule =
    let stripped = strip_query label_rule in
    if text_eq stripped notification_rule
    then true
    else if ltb (length stripped) (length notification_rule)
    then false
    else starts_with stripped notification_rule
