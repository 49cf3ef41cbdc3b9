-- ===== src/TreeNode/TextForm/Ends.antt =====
-- What is written after a node stands at the end of the text.
use world_wide_anthropomorph.Base.{
  subst, policy_empty, suc, if◌then◌else◌, ℕ, ◌≡◌, refl, ap, sym, ◌∙◌, Bool, true, false, Option,
  none, some, List, [], ◌∷◌, ◌++◌, length, ok, err, first_ok, ℤ, pos, negsuc,
}
use mathlib.Core.List.{append_assoc}
use world_wide_anthropomorph.Text.{Text, bytes, is_empty}
use world_wide_anthropomorph.TreeNode.{TreeNode, TreeNodeVersion, PropertyInfo}
use world_wide_anthropomorph.Stream.{space, put_number, put_int}
use world_wide_anthropomorph.Stream.Digits.{put_number-append}
use world_wide_anthropomorph.TreeNode.TextForm.{
  line_end, put_maybe_word, put_maybe_int, put_version, put_infos, put_names, write_length_string,
  write_empty_span, put_node, or_empty,
}

-- A text and what stands before its end.
abbrev pub EndsWith : Text → Text → Type 0
EndsWith out v = (front : Text) × (v ≡ front ++ out)

module _ {out : Text} where
  pub EndsWith-append : (w v : Text) → EndsWith out v → EndsWith out (w ++ v)
  EndsWith-append w v (front, e) = (w ++ front, ap (λ t. w ++ t) e ∙ sym (append_assoc w front out))

  ends_of_ok :
      (b : Bool) (written t : Text)
      → EndsWith out written
      → (if b then err policy_empty else ok written) ≡ ok t
      → EndsWith out t
  ends_of_ok true written t h e = absurd (cc)
  ends_of_ok false written t h e = let same : written ≡ t = cc in subst (EndsWith out) same h

  EndsWith-number : (n : ℕ) (v : Text) → EndsWith out v → EndsWith out (put_number n v)
  EndsWith-number n v h = rw (put_number-append n v) (EndsWith-append (put_number n []) v h)

  EndsWith-int : (i : ℤ) (v : Text) → EndsWith out v → EndsWith out (put_int i v)
  unfolding put_int
  EndsWith-int (pos n) v h = EndsWith-number n v h
  EndsWith-int (negsuc n) v h =
      EndsWith-append (b'-' ∷ []) (put_number (suc n) v) (EndsWith-number (suc n) v h)

  EndsWith-maybe_word :
      (o : Option Text) (v : Text) → EndsWith out v → EndsWith out (put_maybe_word o v)
  unfolding put_maybe_word
  EndsWith-maybe_word none v h = EndsWith-append (bytes "Nothing") v h
  EndsWith-maybe_word (some w) v h =
      EndsWith-append (bytes "Just ") (w ++ v) (EndsWith-append w v h)

  EndsWith-maybe_int : (o : Option ℤ) (v : Text) → EndsWith out v → EndsWith out (put_maybe_int o v)
  unfolding put_maybe_int
  EndsWith-maybe_int none v h = EndsWith-append (bytes "Nothing") v h
  EndsWith-maybe_int (some i) v h =
      EndsWith-append (bytes "Just ") (put_int i v) (EndsWith-int i v h)

  EndsWith-infos :
      (infos : List PropertyInfo) (v : Text) → EndsWith out v → EndsWith out (put_infos infos v)
  unfolding put_infos
  EndsWith-infos [] v h = h
  EndsWith-infos ((type, name) ∷ infos) v h =
      let s1 : Text = bytes "), " ++ put_infos infos v in
      let s2 : Text = bytes " (" ++ (name ++ s1) in
      EndsWith-append type s2 (
        EndsWith-append (bytes " (") (name ++ s1) (
          EndsWith-append name s1
            (EndsWith-append (bytes "), ") (put_infos infos v) (EndsWith-infos infos v h))))

  EndsWith-names :
      (names : List Text) (v : Text) → EndsWith out v → EndsWith out (put_names names v)
  unfolding put_names
  EndsWith-names [] v h = h
  EndsWith-names (name ∷ names) v h =
      EndsWith-append name (bytes ", " ++ put_names names v)
        (EndsWith-append (bytes ", ") (put_names names v) (EndsWith-names names v h))

  EndsWith-length_string :
      (label str v : Text) → EndsWith out v → EndsWith out (write_length_string label str v)
  unfolding write_length_string
  EndsWith-length_string label str v h =
      let s1 : Text = bytes " :\n" ++ (str ++ line_end ∷ v) in
      EndsWith-append label (space ∷ put_number (length str) s1) (
        EndsWith-append (space ∷ []) (put_number (length str) s1) (
          EndsWith-number (length str) s1 (
            EndsWith-append (bytes " :\n") (str ++ line_end ∷ v)
              (EndsWith-append str (line_end ∷ v) (EndsWith-append (line_end ∷ []) v h)))))

  EndsWith-version :
      (n : TreeNodeVersion) (v t : Text) → EndsWith out v → put_version n v ≡ ok t → EndsWith out t
  unfolding put_version
  EndsWith-version n v t h e =
      let t7 : Text = put_maybe_int n.collision_depth (space ∷ v) in
      let t6 : Text = put_maybe_word n.readers (bytes " Collision_Depth: " ++ t7) in
      let t5 : Text = put_maybe_word n.authors (bytes " Readers: " ++ t6) in
      let t4 : Text = put_maybe_word n.authorial_proof (bytes " Authors: " ++ t5) in
      let t3 : Text = n.policy ++ (bytes " Authorial_Proof: " ++ t4) in
      let t2 : Text = put_number n.max_version_sequence (bytes " Policy: " ++ t3) in
      let t1 : Text = put_number n.version_number (bytes " Max_Version: " ++ t2) in
      let h7 : EndsWith out t7 =
        EndsWith-maybe_int n.collision_depth (space ∷ v) (EndsWith-append (space ∷ []) v h) in
      let h6 : EndsWith out t6 =
        EndsWith-maybe_word n.readers (bytes " Collision_Depth: " ++ t7)
          (EndsWith-append (bytes " Collision_Depth: ") t7 h7) in
      let h5 : EndsWith out t5 =
        EndsWith-maybe_word n.authors (bytes " Readers: " ++ t6)
          (EndsWith-append (bytes " Readers: ") t6 h6) in
      let h4 : EndsWith out t4 =
        EndsWith-maybe_word n.authorial_proof (bytes " Authors: " ++ t5)
          (EndsWith-append (bytes " Authors: ") t5 h5) in
      let h3 : EndsWith out t3 =
        EndsWith-append n.policy (bytes " Authorial_Proof: " ++ t4)
          (EndsWith-append (bytes " Authorial_Proof: ") t4 h4) in
      let h2 : EndsWith out t2 =
        EndsWith-number n.max_version_sequence (bytes " Policy: " ++ t3)
          (EndsWith-append (bytes " Policy: ") t3 h3) in
      let h1 : EndsWith out t1 =
        EndsWith-number n.version_number (bytes " Max_Version: " ++ t2)
          (EndsWith-append (bytes " Max_Version: ") t2 h2) in
      ends_of_ok (is_empty n.policy) (bytes "Version: " ++ t1) t
        (EndsWith-append (bytes "Version: ") t1 h1) e

  pub put_node-EndsWith : (n : TreeNode) (t : Text) → put_node n out ≡ ok t → EndsWith out t
  unfolding put_node write_empty_span
  put_node-EndsWith n t e =
      let t9 : Text = write_empty_span (bytes ")\n" ++ out) in
      let t8 : Text = write_length_string (bytes "qa_sequence") (or_empty n.qa_sequence) t9 in
      let t7 : Text = write_length_string (bytes "query_how_to") (or_empty n.query_how_to) t8 in
      let t6 : Text = put_names n.child_names (bytes "], " ++ t7) in
      let (v, ev, ev') = first_ok (put_version n.version (bytes ", child_names: [ " ++ t6)) _ e in
      let t4 : Text = put_infos n.property_infos (bytes "], version: " ++ v) in
      let t3 : Text =
        write_length_string (bytes "description") n.description
          (bytes "property_infos: [ " ++ t4) in
      let h9 : EndsWith out t9 =
        EndsWith-append
          (bytes "shared_span( signal_type: 0 signal_size: 0 data_size: 0 chunk_data: [\n])\n")
          (bytes ")\n" ++ out) (bytes ")\n", refl) in
      let h7 : EndsWith out t7 =
        EndsWith-length_string (bytes "query_how_to") (or_empty n.query_how_to) t8
          (EndsWith-length_string (bytes "qa_sequence") (or_empty n.qa_sequence) t9 h9) in
      let h6 : EndsWith out t6 =
        EndsWith-names n.child_names (bytes "], " ++ t7) (EndsWith-append (bytes "], ") t7 h7) in
      let h5 : EndsWith out v =
        EndsWith-version n.version (bytes ", child_names: [ " ++ t6) v
          (EndsWith-append (bytes ", child_names: [ ") t6 h6) ev in
      let h4 : EndsWith out t4 =
        EndsWith-infos n.property_infos (bytes "], version: " ++ v)
          (EndsWith-append (bytes "], version: ") v h5) in
      let h3 : EndsWith out t3 =
        EndsWith-length_string (bytes "description") n.description
          (bytes "property_infos: [ " ++ t4) (EndsWith-append (bytes "property_infos: [ ") t4 h4) in
      ends_of_ok false (bytes "TreeNode(\nlabel_rule: " ++ (n.label_rule ++ line_end ∷ t3)) t
        (EndsWith-append (bytes "TreeNode(\nlabel_rule: ") (n.label_rule ++ line_end ∷ t3)
          (EndsWith-append n.label_rule (line_end ∷ t3) (EndsWith-append (line_end ∷ []) t3 h3)))
        ev'
