-- ===== src/TreeMessage/Nodes/Sent.antt =====
-- The chunks that a node is sent in, where what it holds fits its text form, and what is decoded
-- from them.
use world_wide_anthropomorph.Base.{
  ℕ, ◌<◌, ◌≤◌, ◌≡◌, refl, ap, sym, ◌∙◌, subst, false, some, List, [], ◌∷◌, ◌++◌, map, arith, length,
  take, length-append, drop-append, take-append, ltb, ok, first_ok,
}
use world_wide_anthropomorph.TreeMessage.Payloads.{string_limit, length-map_chunks, payloads-map}
use world_wide_anthropomorph.TreeMessage.LongString.{
  decode_long_string-encode_long_string, can_decode_long_string-encode_long_string,
}
use world_wide_anthropomorph.TreeMessage.{
  ChunkList, chunk_of, encode_long_string, decode_long_string, can_decode_long_string,
}
use mathlib.Core.List.{append_assoc}
use world_wide_anthropomorph.TreeNode.TextForm.RoundTrip.{
  read_node-space, NodeFits, read_node-put_node,
}
use world_wide_anthropomorph.Text.{Text, bytes, text_eq}
use world_wide_anthropomorph.Stream.{read_word, put_hex, space}
use world_wide_anthropomorph.Stream.Words.{IsWord-cons, read_word-append}
use world_wide_anthropomorph.SharedSpan.Restrict.{all_bytes}
use world_wide_anthropomorph.TreeNode.{TreeNode}
use world_wide_anthropomorph.TreeNode.TextForm.{put_node, read_node, line_end, long_values}
use world_wide_anthropomorph.TreeNode.TextForm.Ends.{EndsWith, EndsWith-append, put_node-EndsWith}
use world_wide_anthropomorph.TreeMessage.Nodes.{
  count_digits, node_text, decode_maybe_tree_node, decode_property_data,
}
use world_wide_anthropomorph.TreeMessage.Nodes.Tail.{tail_size}
use world_wide_anthropomorph.TreeMessage.Nodes.Found.{read_count_line}

module _ (data_chunks : TreeNode → List (List ℕ)) where
  -- The digits that encode_MaybeTreeNode ends the text of a node with.
  abbrev pub count_text : TreeNode → Text
  count_text node = put_hex count_digits (length (data_chunks node)) []

  -- What a node holds fits its text form, the chunks have its property data, and the text is not so
  -- long that its end spills into a chunk of less than sixteen bytes.
  pub record NodeCodes (node : TreeNode) : Type 0 where
    pub fits : NodeFits node
    pub data_kept : all_bytes (data_chunks node) ≡ node.property_data
    pub few_chunks : length (data_chunks node) < long_values
    pub text : Text
    pub written : node_text data_chunks node ≡ ok text
    pub text_short : length text < string_limit
    pub tail_fits : count_digits ≤ tail_size (length text)

  pub text-EndsWith :
      (node : TreeNode) (text : Text)
      → node_text data_chunks node ≡ ok text
      → EndsWith (count_text node) text
  unfolding node_text
  text-EndsWith node text e =
      let out : Text = line_end ∷ count_text node in
      let (v, ev, ev') = first_ok (put_node node out) _ e in
      let same : bytes "Just " ++ v ≡ text = cc in
      let (front, ef) = put_node-EndsWith node v ev in
      subst (EndsWith (count_text node)) same (
        EndsWith-append (bytes "Just ") v
          (front ++ line_end ∷ [], ef ∙ sym (append_assoc front (line_end ∷ []) (count_text node))))

  -- The text is read back as the node without its data, and the number of chunks is left.
  pub record TextRead (node : TreeNode) (text : Text) : Type 0 where
    pub rest : Text
    pub no_nothing : text_eq text (bytes "Nothing") ≡ false
    pub first : read_word text ≡ ok (bytes "Just", rest)
    pub node_read :
        read_node rest ≡ ok (record node { property_data = [] }, line_end ∷ count_text node)

  pub read_text : (node : TreeNode) (c : NodeCodes node) → TextRead node c.text
  unfolding node_text text_eq
  read_text node c =
      let out : Text = line_end ∷ count_text node in
      let (v, ev, ev') = first_ok (put_node node out) _ c.written in
      let same : bytes "Just " ++ v ≡ c.text = cc in
      let (w, ew, ew') =
        first_ok (put_node node out) read_node (read_node-put_node node out c.fits) in
      let equal : v ≡ w = cc in
      subst (TextRead node) same (record {
        rest = space ∷ v;
        no_nothing = refl;
        first =
            read_word-append (bytes "Just") (space ∷ v) (IsWord-cons b'J' (bytes "ust") refl) refl;
        node_read = read_node-space space v refl ∙ ap read_node equal ∙ ew';
      })

  module _ (r s : ℕ) where
    abbrev pub data_of : TreeNode → ChunkList
    data_of node = map (chunk_of r s) (data_chunks node)

    abbrev pub node_chunks : (node : TreeNode) → NodeCodes node → ChunkList
    node_chunks node c = encode_long_string r s c.text ++ data_of node

    pub decoded_node :
        (node : TreeNode) (c : NodeCodes node) (after : ChunkList)
        → decode_maybe_tree_node (node_chunks node c ++ after)
          ≡ ok (length (node_chunks node c), some node)
    unfolding decode_maybe_tree_node decode_property_data
    decoded_node node c after =
        let enc : ChunkList = encode_long_string r s c.text in
        let tail : ChunkList = data_of node ++ after in
        let t : TextRead node c.text = read_text node c in
        let found : can_decode_long_string 0 (enc ++ tail) ≡ ok (some (length enc)) =
          can_decode_long_string-encode_long_string r s c.text [] tail c.text_short
          ∙ ap (λ k. ok (some k)) (omega arith) in
        let str : decode_long_string (enc ++ tail) ≡ ok (length enc, c.text) =
          decode_long_string-encode_long_string r s c.text tail c.text_short in
        let size : length (data_of node) ≡ length (data_chunks node) =
          length-map_chunks r s (data_chunks node) in
        let there : ltb (length tail) (length (data_chunks node)) ≡ false =
          ground (arith, size, length-append (data_of node) after) in
        let content : all_bytes
              (map (λ chunk. chunk.payload) (take (length (data_chunks node)) tail))
            ≡ node.property_data =
          ap (λ n. all_bytes (map (λ chunk. chunk.payload) (take n tail))) (sym size)
          ∙ ap (λ cs. all_bytes (map (λ chunk. chunk.payload) cs))
              (take-append (data_of node) after)
          ∙ ap all_bytes (payloads-map r s (data_chunks node))
          ∙ c.data_kept in
        ap decode_maybe_tree_node (append_assoc enc (data_of node) after)
        ∙ rw
            (
              decode_maybe_tree_node,
              found,
              str,
              t.no_nothing,
              t.first,
              t.node_read,
              read_count_line (length (data_chunks node)) c.few_chunks,
              drop-append enc tail,
              decode_property_data,
              there,
              content,
            )
            (ap (λ n. ok (n, some node)) (omega (arith, size, length-append enc (data_of node))))
