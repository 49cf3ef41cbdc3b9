-- ===== src/LabelRule/Overlap.antt =====
-- When two label rules overlap: the cases that the test decides as it says, and those that it does not.
use world_wide_anthropomorph.Base.{
  Bool-cases, Option-cases, inl, inr, ℕ, suc, ◌≡◌, ◌≤◌, refl, true, false, none, some, [], ◌∷◌,
  ◌++◌, arith, length, take, drop, take-append, Option, ◌==◌, ap, ◌∙◌, sym,
}
use world_wide_anthropomorph.Text.{
  Text, slash, text_eq, find_char, find_last, byte_at, is_empty, text_eq_iff, text_eq_refl,
}
use world_wide_anthropomorph.Text.Search.{
  IsFree, find_char-append_free, find_last-append, find_last_free, byte_at-append, drop-append_suc,
}
use world_wide_anthropomorph.LabelRule.{
  strip_query, min_position, extensions_overlap, overlap_at, stripped_overlap,
  check_label_rule_overlap,
}

pub strip_query_free : (label : Text) → IsFree b'?' label → strip_query label ≡ label
unfolding strip_query
strip_query_free label h = rw (h, strip_query)

text_eq_comm : (a b : Text) → text_eq a b ≡ text_eq b a
text_eq_comm a b = ground (arith, text_eq_iff a b, text_eq_iff b a)

min_position_comm : (p q : Option ℕ) → min_position p q ≡ min_position q p
min_position_comm none none = refl
min_position_comm none (some q) = refl
min_position_comm (some p) none = refl
min_position_comm (some p) (some q) = ground arith

extensions_overlap_comm : (a b : Text) → extensions_overlap a b ≡ extensions_overlap b a
unfolding extensions_overlap
extensions_overlap_comm a b = ground arith

overlap_at_comm : (o : Option ℕ) (a b : Text) → overlap_at o a b ≡ overlap_at o b a
unfolding overlap_at
overlap_at_comm none a b = refl
overlap_at_comm (some i) a b = ground (
  arith,
  text_eq_comm (take i a) (take i b),
  extensions_overlap_comm (drop (suc i) a) (drop (suc i) b),
)

stripped_overlap_comm : (a b : Text) → stripped_overlap a b ≡ stripped_overlap b a
unfolding stripped_overlap
stripped_overlap_comm a b = ground (
  arith,
  text_eq_comm a b,
  min_position_comm (find_last slash a) (find_last slash b),
  overlap_at_comm (min_position (find_last slash b) (find_last slash a)) a b,
)

-- The test is the same with its sides exchanged.
pub check_label_rule_overlap_comm :
    (a b : Text) → check_label_rule_overlap a b ≡ check_label_rule_overlap b a
unfolding check_label_rule_overlap
check_label_rule_overlap_comm a b = stripped_overlap_comm (strip_query a) (strip_query b)

is_empty-append : (s t : Text) (x : ℕ) → is_empty (s ++ x ∷ t) ≡ false
is_empty-append [] t x = refl
is_empty-append (y ∷ s) t x = refl

find_last_later :
    (s t : Text) → (j : ℕ) × (find_last slash (s ++ slash ∷ t) ≡ some j) × (length s ≤ j)
unfolding find_last
find_last_later [] t = elim (Option-cases (find_last slash t)) [
  | inl e ↦ (0, rw (e, find_last), omega arith)
  | inr (i, e) ↦ (suc i, rw (e, find_last), omega arith)
]
find_last_later (x ∷ s) t =
    let (j, e, le) = find_last_later s t in (suc j, rw (e, find_last), omega arith)

free_ne : (x y z : Text) → IsFree slash x → IsFree slash y → x ≡ y ++ slash ∷ z → ⊥
free_ne x y z fx fy e = cc (fx, find_char-append_free slash y z fy, ap (find_char slash) e)

extensions_by_length :
    (x y z : Text)
    → IsFree slash x
    → IsFree slash y
    → extensions_overlap x (y ++ slash ∷ z) ≡ (length y == length x)
unfolding extensions_overlap
extensions_by_length x y z fx fy = rw (fx, find_char-append_free slash y z fy, extensions_overlap)

module _ (p x y z : Text) (fx : IsFree slash x) (fy : IsFree slash y) where
  abbrev shorter : Text
  shorter = p ++ slash ∷ x

  abbrev longer : Text
  longer = p ++ slash ∷ (y ++ slash ∷ z)

  at_last_slash : min_position (find_last slash shorter) (find_last slash longer) ≡ some (length p)
  at_last_slash =
      let (j, e, le) = find_last_later p (y ++ slash ∷ z) in
      rw (find_last-append slash p x fx, e) (ground arith)

  differ : text_eq shorter longer ≡ false
  differ = elim (Bool-cases (text_eq shorter longer)) [
    | inl same ↦ absurd (
        free_ne x y z fx fy (
          sym (drop-append_suc p x slash)
          ∙ ap (drop (suc (length p))) ((text_eq_iff shorter longer).0 same)
          ∙ drop-append_suc p (y ++ slash ∷ z) slash))
    | inr other ↦ other
  ]

  stripped_by_length : stripped_overlap shorter longer ≡ (length y == length x)
  unfolding stripped_overlap
  stripped_by_length =
      rw
        (
          is_empty-append p x slash,
          is_empty-append p (y ++ slash ∷ z) slash,
          differ,
          at_last_slash,
          stripped_overlap,
          overlap_at,
          byte_at-append p x slash,
          byte_at-append p (y ++ slash ∷ z) slash,
          take-append p (slash ∷ x),
          take-append p (slash ∷ (y ++ slash ∷ z)),
          text_eq_refl p,
          drop-append_suc p x slash,
          drop-append_suc p (y ++ slash ∷ z) slash,
        )
        (extensions_by_length x y z fx fy)

-- A rule p/x and a longer rule p/y/z without queries, where x and y are single names, are judged
-- to overlap exactly when x and y have the same length, whether or not they are the same name.
pub overlap_by_length :
    (p x y z : Text)
    → IsFree slash x
    → IsFree slash y
    → IsFree b'?' (p ++ slash ∷ x)
    → IsFree b'?' (p ++ slash ∷ (y ++ slash ∷ z))
    → check_label_rule_overlap (p ++ slash ∷ x) (p ++ slash ∷ (y ++ slash ∷ z))
      ≡ (length y == length x)
unfolding check_label_rule_overlap
overlap_by_length p x y z fx fy q1 q2 =
    rw (strip_query_free (p ++ slash ∷ x) q1, strip_query_free (p ++ slash ∷ (y ++ slash ∷ z)) q2)
      (stripped_by_length p x y z fx fy)

byte_at-end : (s : Text) → byte_at s (length s) ≡ 0
byte_at-end [] = refl
byte_at-end (x ∷ s) = byte_at-end s

top_differ : (s z : Text) → IsFree slash s → text_eq s (s ++ slash ∷ z) ≡ false
top_differ s z fs = elim (Bool-cases (text_eq s (s ++ slash ∷ z))) [
  | inl same ↦ absurd (free_ne s s z fs fs ((text_eq_iff s (s ++ slash ∷ z)).0 same))
  | inr other ↦ other
]

stripped_top_level :
    (s z : Text)
    → is_empty s ≡ false
    → IsFree slash s
    → IsFree slash z
    → stripped_overlap s (s ++ slash ∷ z) ≡ false
unfolding stripped_overlap
stripped_top_level s z filled fs fz =
    rw
      (
        filled,
        is_empty-append s z slash,
        top_differ s z fs,
        find_last_free slash s fs,
        find_last-append slash s z fz,
        stripped_overlap,
        overlap_at,
        byte_at-end s,
      )
      refl

-- A rule of one name, which is not empty, does not overlap with the rule of a child of it, where
-- neither has a query.
pub overlap_top_level :
    (a : ℕ) (x z : Text)
    → IsFree slash (a ∷ x)
    → IsFree slash z
    → IsFree b'?' (a ∷ x)
    → IsFree b'?' (a ∷ x ++ slash ∷ z)
    → check_label_rule_overlap (a ∷ x) (a ∷ x ++ slash ∷ z) ≡ false
unfolding check_label_rule_overlap
overlap_top_level a x z fx fz q1 q2 =
    rw (strip_query_free (a ∷ x) q1, strip_query_free (a ∷ x ++ slash ∷ z) q2)
      (stripped_top_level (a ∷ x) z refl fx fz)

stripped_overlap_refl : (a : Text) → stripped_overlap a a ≡ true
unfolding stripped_overlap
stripped_overlap_refl a = ground (arith, text_eq_refl a)

-- Every rule overlaps with itself.
pub check_label_rule_overlap_refl : (a : Text) → check_label_rule_overlap a a ≡ true
unfolding check_label_rule_overlap
check_label_rule_overlap_refl a = stripped_overlap_refl (strip_query a)
