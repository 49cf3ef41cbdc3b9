-- ===== src/TreeNode/TextForm.antt =====
-- common/backend_cpp/interface/tree_node.h and tree_node.cpp, common/transport/include/shared_chunk.h:
-- the text form of a node, of its version and of a span, written and read. What is written stands
-- before the text that follows, and hide_contents is set: the span that is written is empty. Where
-- the code never leaves a loop, since its stream has failed, the model has a `trap`.
pub mod Version
pub mod Lists
pub mod RoundTrip
pub mod Ends
use world_wide_anthropomorph.Base.{
  ◌%◌, out_of_range, ℕ, zero, suc, ◌+◌, ◌-◌, Bool, true, false, not, ◌&&◌, Option, none, some, List,
  [], ◌∷◌, ◌++◌, if◌then◌else◌, ltb, ◌==◌, length, take, drop, Result, ok, err, ◌>>=◌, trap,
  unknown_signal, policy_empty, wrong_label, ℤ,
}
use world_wide_anthropomorph.Text.{Text, bytes, text_eq, is_empty, back, byte_at}
use world_wide_anthropomorph.TreeNode.{TreeNode, TreeNodeVersion, PropertyInfo, default_version}
use world_wide_anthropomorph.Stream.{
  is_space, space, read_word, get_byte, put_number, put_int, read_number, read_int, last_number,
}

abbrev pub line_end : ℕ
line_end = 10

abbrev pub comma : ℕ
comma = b','

abbrev pub short_values : ℕ
short_values = 65536

abbrev pub long_values : ℕ
long_values = 18446744073709551616

-- operator<< of fplus::maybe<std::string> and of fplus::maybe<int>
unfoldable pub put_maybe_word : Option Text → Text → Text
put_maybe_word none out = bytes "Nothing" ++ out
put_maybe_word (some word) out = bytes "Just " ++ (word ++ out)

unfoldable pub put_maybe_int : Option ℤ → Text → Text
put_maybe_int none out = bytes "Nothing" ++ out
put_maybe_int (some i) out = bytes "Just " ++ put_int i out

-- operator>> of fplus::maybe<std::string> and of fplus::maybe<int>
unfoldable pub read_maybe_word : Text → Result (Option Text × Text)
read_maybe_word s = read_word s >>= λ (str, s1).
    if text_eq str (bytes "Nothing")
    then ok (none, s1)
    else read_word s1 >>= λ (value, s2). ok (some value, s2)

unfoldable pub read_maybe_int : Text → Result (Option ℤ × Text)
read_maybe_int s = read_word s >>= λ (str, s1).
    if text_eq str (bytes "Nothing")
    then ok (none, s1)
    else read_int s1 >>= λ (value, s2). ok (some value, s2)

-- operator<< of TreeNodeVersion, which throws without a policy
unfoldable pub put_version : TreeNodeVersion → Text → Result Text
put_version v out =
    if is_empty v.policy
    then err policy_empty
    else ok (
        bytes "Version: "
        ++ put_number v.version_number (
            bytes " Max_Version: "
            ++ put_number v.max_version_sequence (
                bytes " Policy: "
                ++ (v.policy
                    ++ (bytes " Authorial_Proof: "
                        ++ put_maybe_word v.authorial_proof (
                            bytes " Authors: "
                            ++ put_maybe_word v.authors (
                                bytes " Readers: "
                                ++ put_maybe_word v.readers (
                                    bytes " Collision_Depth: "
                                    ++ put_maybe_int v.collision_depth (space ∷ out)))))))))

-- A word that is read and passed over, and then a value.
abbrev pub read_after_label {ℓ} :
    {A : Type ℓ} → (Text → Result (A × Text)) → Text → Result (A × Text)
read_after_label read s = read_word s >>= λ (label, s1). read s1

-- operator>> of TreeNodeVersion
unfoldable pub read_version : Text → Result (TreeNodeVersion × Text)
read_version s0 = read_after_label (read_number short_values) s0 >>= λ (number, s1).
    read_after_label (read_number short_values) s1 >>= λ (max, s2).
    read_after_label read_word s2 >>= λ (policy, s3).
    read_after_label read_maybe_word s3 >>= λ (proof, s4).
    read_after_label read_maybe_word s4 >>= λ (authors, s5).
    read_after_label read_maybe_word s5 >>= λ (readers, s6).
    read_after_label read_maybe_int s6 >>= λ (depth, s7). get_byte s7 >>= λ s8. ok (
      record {
        version_number = number;
        max_version_sequence = max;
        policy = policy;
        authorial_proof = proof;
        authors = authors;
        readers = readers;
        collision_depth = depth;
      },
      s8,
    )

-- write_length_string
unfoldable pub write_length_string : Text → Text → Text → Text
write_length_string label str out =
    label ++ (space ∷ put_number (length str) (bytes " :\n" ++ (str ++ line_end ∷ out)))

-- read(), which fails where fewer bytes are left
abbrev pub read_bytes : ℕ → Text → Result (Text × Text)
read_bytes n s = if ltb (length s) n then err trap else ok (take n s, drop n s)

-- read_length_string
unfoldable pub read_length_string : Text → Result ((Text × Text) × Text)
read_length_string s0 = read_word s0 >>= λ (label, s1). read_number long_values s1 >>= λ (size, s2).
    read_word s2 >>= λ (delimiter, s3). get_byte s3 >>= λ s4.
    read_bytes size s4 >>= λ (str, s5). get_byte s5 >>= λ s6. ok ((label, str), s6)

-- The loops over the properties and over the names of the children in operator<<.
unfoldable pub put_infos : List PropertyInfo → Text → Text
put_infos [] out = out
put_infos ((type, name) ∷ infos) out =
    type ++ (bytes " (" ++ (name ++ (bytes "), " ++ put_infos infos out)))

unfoldable pub put_names : List Text → Text → Text
put_names [] out = out
put_names (name ∷ names) out = name ++ (bytes ", " ++ put_names names out)

-- if (s.back() == ',') s.pop_back()
unfoldable pub without_comma : Text → Text
without_comma [] = []
without_comma (c ∷ []) = if c == comma then [] else c ∷ []
without_comma (c ∷ d ∷ s) = c ∷ without_comma (d ∷ s)

-- if (s.front() == '(' && s.back() == ')') s = s.substr(1, s.size() - 2)
unfoldable pub without_parentheses : Text → Text
without_parentheses [] = []
without_parentheses (c ∷ s) =
    if (c == b'(') && (back (c ∷ s) == b')') then take (length s - 1) s else c ∷ s

-- if (is.peek() == ' ') is.get()
unfoldable pub skip_one_space : Text → Text
skip_one_space [] = []
skip_one_space (c ∷ s) = if c == space then s else c ∷ s

-- peek() == ']'
abbrev pub at_bracket : Text → Bool
at_bracket s = byte_at s 0 == b']'

-- The loop over the properties in operator>>, on the rounds left.
unfoldable pub read_infos : ℕ → Text → Result (List PropertyInfo × Text)
read_infos zero s = err trap
read_infos (suc f) s = elim (at_bracket s) [
  | true ↦ ok ([], s)
  | false ↦ read_word s >>= λ (type, s1). read_word s1 >>= λ (name, s2).
      read_infos f (skip_one_space s2) >>= λ (infos, s3).
      ok ((without_comma type, without_parentheses (without_comma name)) ∷ infos, s3)
]

-- The loop over the names of the children in operator>>, on the rounds left.
unfoldable pub read_names : ℕ → Text → Result (List Text × Text)
read_names zero s = err trap
read_names (suc f) s = elim (at_bracket s) [
  | true ↦ ok ([], s)
  | false ↦ read_word s >>= λ (name, s1).
      read_names f (skip_one_space s1) >>= λ (names, s2). ok (without_comma name ∷ names, s2)
]

-- shared_span::write of a span without chunks
unfoldable pub write_empty_span : Text → Text
write_empty_span out =
    bytes "shared_span( signal_type: 0 signal_size: 0 data_size: 0 chunk_data: [\n])\n" ++ out

-- The loop over the bytes in shared_span::read: two digits that are not white space each, where
-- `high` is the first of the two.
unfoldable pub read_span_bytes : ℕ → Option ℕ → Text → Result (List ℕ × Text)
read_span_bytes zero high s = ok ([], s)
read_span_bytes (suc n) high [] = err out_of_range
read_span_bytes (suc n) none (c ∷ s) =
    if is_space c then read_span_bytes (suc n) none s else read_span_bytes (suc n) (some c) s
read_span_bytes (suc n) (some h) (c ∷ s) =
    let rest = read_span_bytes n none s in
    let later = read_span_bytes (suc n) (some h) s in
    if is_space c
    then later
    else last_number true 4294967296 (h ∷ c ∷ []) >>= λ b. rest >>= λ (bs, t). ok (b ∷ bs, t)

-- shared_span::create_from_data, on what is left after the header
unfoldable pub create_from_data : List ℕ → Result (List ℕ)
create_from_data [] = err trap
create_from_data (signal_type ∷ content) =
    if signal_type == 0
    then ok content
    else if signal_type == 1
    then ok (drop 3 content)
    else if signal_type == 2
    then ok (drop 5 content)
    else err unknown_signal

-- shared_span::read
unfoldable pub read_span : Text → Result (List ℕ × Text)
read_span s0 = read_word s0 >>= λ (label, s1).
    read_after_label (read_number short_values) s1 >>= λ (signal_type, s2).
    read_after_label (read_number long_values) s2 >>= λ (signal_size, s3).
    read_after_label (read_number long_values) s3 >>= λ (data_size, s4).
    read_word s4 >>= λ (label, s5). read_word s5 >>= λ (label, s6).
    let total_size = (signal_size + data_size) % long_values in
    read_span_bytes total_size none s6 >>= λ (content, s7). read_word s7 >>= λ (label, s8).
    if total_size == 0 then ok ([], s8) else create_from_data content >>= λ span. ok (span, s8)

abbrev pub or_empty : Option Text → Text
or_empty none = []
or_empty (some text) = text

-- operator<< of TreeNode with hide_contents
unfoldable pub put_node : TreeNode → Text → Result Text
put_node n out =
    let tail = write_length_string (bytes "query_how_to") (or_empty n.query_how_to) (
      write_length_string (bytes "qa_sequence") (or_empty n.qa_sequence)
        (write_empty_span (bytes ")\n" ++ out))) in
    let names = bytes ", child_names: [ " ++ put_names n.child_names (bytes "], " ++ tail) in
    put_version n.version names >>= λ version. ok (
      bytes "TreeNode(\nlabel_rule: "
      ++ (n.label_rule
          ++ (line_end
              ∷ (write_length_string (bytes "description") n.description (
                  bytes "property_infos: [ "
                  ++ put_infos n.property_infos (bytes "], version: " ++ version))))))

-- The text of a length string with this label, as a value that is nothing where it is empty.
unfoldable pub read_labelled : Text → Text → Result (Option Text × Text)
read_labelled expected s = read_length_string s >>= λ ((label, str), s1).
    if not (text_eq label expected)
    then err wrong_label
    else ok (if is_empty str then none else some str, s1)

-- The loops behind the label, the bracket and a space.
unfoldable pub read_list : {A : Type 0} → (ℕ → Text → Result (A × Text)) → Text → Result (A × Text)
read_list loop s = read_word s >>= λ (label, s1). read_word s1 >>= λ (bracket, s2).
    get_byte s2 >>= λ s3.
    loop (suc (length s3)) s3 >>= λ (values, s4). read_word s4 >>= λ (bracket, s5). ok (values, s5)

-- operator>> of TreeNode
unfoldable pub read_node : Text → Result (TreeNode × Text)
read_node s0 = read_word s0 >>= λ (label, s1). read_after_label read_word s1 >>= λ (label_rule, s2).
    read_length_string s2 >>= λ ((label, description), s3).
    read_list read_infos s3 >>= λ (property_infos, s4).
    read_after_label read_version s4 >>= λ (version, s5). read_word s5 >>= λ (comma, s6).
    read_list read_names s6 >>= λ (child_names, s7).
    read_labelled (bytes "query_how_to") s7 >>= λ (query_how_to, s8).
    read_labelled (bytes "qa_sequence") s8 >>= λ (qa_sequence, s9).
    read_span s9 >>= λ (property_data, s10). read_word s10 >>= λ (label, s11).
    get_byte s11 >>= λ s12. ok (
      record {
        label_rule = label_rule;
        description = description;
        property_infos = property_infos;
        version = version;
        child_names = child_names;
        property_data = property_data;
        query_how_to = query_how_to;
        qa_sequence = qa_sequence;
      },
      s12,
    )
