-- ===== src/TreeNode/TextForm/RoundTrip.antt =====
-- The text form of a node is read back as the node without its property data.
use world_wide_anthropomorph.Stream.{
  is_space, skip_space, split_word, scan_number, starts_digit, split_sign, digit_of, scan_digits,
  space, read_word, get_byte, read_number,
}
use world_wide_anthropomorph.Text.{text_eq_refl, Text, bytes, text_eq}
use world_wide_anthropomorph.TreeNode.TextForm.Version.{
  read_version-space, after_spaced_label, VersionFits, read_version-put_version, read_word-spaced,
  filled_not_empty, after_label,
}
use world_wide_anthropomorph.Base.{
  first_ok, ℕ, ◌<◌, ◌≡◌, refl, ap, ◌∙◌, true, Option, none, some, [], ◌∷◌, ◌++◌, arith, All, length,
  ok, ◌>>=◌,
}
use world_wide_anthropomorph.TreeNode.{TreeNode}
use world_wide_anthropomorph.Stream.Words.{IsWord, IsWord-cons, read_word-append, read_word-space}
use world_wide_anthropomorph.TreeNode.TextForm.{
  read_span_bytes, line_end, long_values, put_node, read_node, put_version, read_version, put_infos,
  put_names, write_length_string, read_length_string, read_labelled, read_list, read_infos,
  read_names, write_empty_span, read_span, or_empty, read_after_label,
}
use world_wide_anthropomorph.TreeNode.TextForm.Lists.{
  InfoFits, NameFits, read_list-put_infos, read_list-put_names, read_length_string-write,
}

-- A text that is read back as itself where nothing stands for an empty one.
abbrev pub MaybeFilled : Option Text → Type 0
MaybeFilled none = Unit
MaybeFilled (some text) = (0 < length text) × (length text < long_values)

-- What the text form of a node can hold.
pub record NodeFits (n : TreeNode) : Type 0 where
  pub label_word : IsWord n.label_rule
  pub description_fits : length n.description < long_values
  pub infos_fit : All InfoFits n.property_infos
  pub version_fits : VersionFits n.version
  pub names_fit : All NameFits n.child_names
  pub query_fits : MaybeFilled n.query_how_to
  pub sequence_fits : MaybeFilled n.qa_sequence

read_labelled-write :
    (label s out : Text) (o : Option Text)
    → IsWord label
    → MaybeFilled o
    → read_word s ≡ read_word (write_length_string label (or_empty o) out)
    → text_eq label label ≡ true
    → read_labelled label s ≡ ok (o, out)
unfolding read_labelled
read_labelled-write label s out none h fits same e =
    rw (read_labelled, read_length_string-write label [] out s h (omega arith) same, e) refl
read_labelled-write label s out (some text) h fits same e =
    rw
      (
        read_labelled,
        read_length_string-write label text out s h fits.1 same,
        e,
        filled_not_empty text fits.0,
      )
      refl

read_span-write : (out : Text) → read_span (write_empty_span out) ≡ ok ([], line_end ∷ out)
unfolding read_span write_empty_span read_word skip_space split_word read_number scan_number
    starts_digit split_sign digit_of scan_digits read_span_bytes
read_span-write out = refl

-- A node that fulfils the conditions of NodeFits is written, with hide_contents, to a text that is
-- read back as the node without its property data, and nothing after it is read. The conditions: the
-- label has a byte or more and no white space; the description has less than 2 ^ 64 bytes; the type
-- of each property has a byte or more, no white space, no closing bracket in front and no comma at
-- its end, and its name has no white space; the name of each child has no white space and no closing
-- bracket in front; the two numbers of the version are less than 2 ^ 16, its policy and those of its
-- other texts that are there have a byte or more and no white space, and its collision depth is
-- nothing or an int32_t; query_how_to and qa_sequence are nothing, or have a byte or more and less
-- than 2 ^ 64.
pub read_node-put_node :
    (n : TreeNode) (out : Text)
    → NodeFits n
    → (put_node n out >>= λ text. read_node text) ≡ ok (record n { property_data = [] }, out)
unfolding put_node
read_node-put_node n out h =
    let t9 : Text = write_empty_span (bytes ")\n" ++ out) in
    let t8 : Text = write_length_string (bytes "qa_sequence") (or_empty n.qa_sequence) t9 in
    let t7 : Text = write_length_string (bytes "query_how_to") (or_empty n.query_how_to) t8 in
    let t5 : Text = bytes ", child_names: [ " ++ put_names n.child_names (bytes "], " ++ t7) in
    let (v, ev, ev') =
      first_ok (put_version n.version t5) read_version
        (read_version-put_version n.version t5 h.version_fits) in
    let t4 : Text = bytes "version: " ++ v in
    let t3 : Text = bytes "property_infos: [ " ++ put_infos n.property_infos (bytes "], " ++ t4) in
    let t2 : Text = write_length_string (bytes "description") n.description t3 in
    let t1 : Text = bytes "label_rule: " ++ (n.label_rule ++ line_end ∷ t2) in
    let t0 : Text = bytes "TreeNode(\n" ++ t1 in
    let e0 : read_word t0 ≡ ok (bytes "TreeNode(", line_end ∷ t1) =
      read_word-append (bytes "TreeNode(") (line_end ∷ t1)
        (IsWord-cons b'T' (bytes "reeNode(") refl) refl in
    let e1 : read_after_label read_word (line_end ∷ t1) ≡ ok (n.label_rule, line_end ∷ t2) =
      ap (λ r. r >>= λ (label, s). read_word s) (read_word-space line_end t1 refl)
      ∙ after_label read_word (bytes "label_rule:") (space ∷ (n.label_rule ++ line_end ∷ t2))
          (IsWord-cons b'l' (bytes "abel_rule:") refl) refl
      ∙ read_word-spaced n.label_rule (line_end ∷ t2) h.label_word refl in
    let e2 : read_length_string (line_end ∷ t2) ≡ ok ((bytes "description", n.description), t3) =
      read_length_string-write (bytes "description") n.description t3 (line_end ∷ t2)
        (IsWord-cons b'd' (bytes "escription") refl) h.description_fits
        (read_word-space line_end t2 refl) in
    let e3 : read_list read_infos t3 ≡ ok (n.property_infos, space ∷ t4) =
      read_list-put_infos n.property_infos t4 h.infos_fit in
    let e4 : read_after_label read_version (space ∷ t4) ≡ ok (n.version, t5) =
      after_spaced_label read_version (bytes "version:") (space ∷ v)
        (IsWord-cons b'v' (bytes "ersion:") refl) refl
      ∙ read_version-space space v refl
      ∙ ev' in
    let t6 : Text = bytes "child_names: [ " ++ put_names n.child_names (bytes "], " ++ t7) in
    let e5 : read_word t5 ≡ ok (bytes ",", space ∷ t6) =
      read_word-append (bytes ",") (space ∷ t6) (IsWord-cons b',' [] refl) refl in
    let e6 : read_list read_names (space ∷ t6) ≡ ok (n.child_names, space ∷ t7) =
      read_list-put_names n.child_names t7 h.names_fit in
    let e7 : read_labelled (bytes "query_how_to") (space ∷ t7) ≡ ok (n.query_how_to, t8) =
      read_labelled-write (bytes "query_how_to") (space ∷ t7) t8 n.query_how_to
        (IsWord-cons b'q' (bytes "uery_how_to") refl) h.query_fits (read_word-space space t7 refl)
        (text_eq_refl (bytes "query_how_to")) in
    let e8 : read_labelled (bytes "qa_sequence") t8 ≡ ok (n.qa_sequence, t9) =
      read_labelled-write (bytes "qa_sequence") t8 t9 n.qa_sequence
        (IsWord-cons b'q' (bytes "a_sequence") refl) h.sequence_fits refl
        (text_eq_refl (bytes "qa_sequence")) in
    let e9 : read_word (line_end ∷ (bytes ")\n" ++ out)) ≡ ok (bytes ")", line_end ∷ out) =
      read_word-space line_end (bytes ")\n" ++ out) refl
      ∙ read_word-append (bytes ")") (line_end ∷ out) (IsWord-cons b')' [] refl) refl in
    let read : read_node t0 ≡ ok (record n { property_data = [] }, out) =
      unfold read_node get_byte in
      rw (read_node, e0, e1, e2, e3, e4, e5, e6, e7, e8, read_span-write (bytes ")\n" ++ out), e9)
        refl in
    rw ev read

pub read_node-space : (c : ℕ) (s : Text) → is_space c ≡ true → read_node (c ∷ s) ≡ read_node s
unfolding read_node
read_node-space c s h = rw (read_node, read_word-space c s h) refl
