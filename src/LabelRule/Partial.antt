-- ===== src/LabelRule/Partial.antt =====
-- partialLabelRuleMatch is the prefix test on the rule without its query.
use world_wide_anthropomorph.Base.{◌≤◌, ◌≡◌, refl, true, [], ◌∷◌, arith, length}
use world_wide_anthropomorph.Text.{Text, text_eq, starts_with}
use world_wide_anthropomorph.LabelRule.{strip_query, partial_label_rule_match}

starts_with_of_eq : (s p : Text) → text_eq s p ≡ true → starts_with s p ≡ true
unfolding text_eq starts_with
starts_with_of_eq [] [] h = refl
starts_with_of_eq [] (y ∷ p) h = cc
starts_with_of_eq (x ∷ s) [] h = cc
starts_with_of_eq (x ∷ s) (y ∷ p) h = ground (arith, starts_with_of_eq s p)

starts_with-length : (s p : Text) → starts_with s p ≡ true → length p ≤ length s
unfolding starts_with
starts_with-length s [] h = omega arith
starts_with-length [] (y ∷ p) h = cc
starts_with-length (x ∷ s) (y ∷ p) h = ground (arith, starts_with-length s p)

-- A notification rule matches a label exactly when the label, without its query, begins with it.
pub partial_match-eq-starts_with :
    (label rule : Text) → partial_label_rule_match label rule ≡ starts_with (strip_query label) rule
unfolding partial_label_rule_match
partial_match-eq-starts_with label rule =
    ground (
      arith,
      starts_with_of_eq (strip_query label) rule,
      starts_with-length (strip_query label) rule,
    )
