-- ===== src/TreeMessage/Nodes/Coded.antt =====
-- The chunks of a node or of nothing are coded, where what the node holds fits its text form.
use world_wide_anthropomorph.Base.{
  out_of_range, bad_chunk, All-append, if◌then◌else◌, ℕ, ◌+◌, ◌-◌, ◌<◌, ◌≤◌, ◌≡◌, refl, ap, sym,
  ◌∙◌, true, false, Option, none, some, List, [], ◌++◌, arith, length, take, drop, length-append,
  drop-append, take-append_short, take-append_long, ltb, ok, err, Bool-cases, inl, inr,
}
use world_wide_anthropomorph.TreeMessage.Payloads.{
  length-take_le, ltb-of_lt, ltb-of_le, string_limit, length-map_chunks,
}
use world_wide_anthropomorph.TreeMessage.LongString.{
  head_payload, decode_long_string-encode_long_string, can_decode_long_string-encode_long_string,
}
use world_wide_anthropomorph.TreeMessage.{
  PayloadChunk, ChunkList, chunk_of, encode_long_string, decode_long_string, can_decode_long_string,
  long_payloads,
}
use mathlib.Core.List.{append_assoc}
use world_wide_anthropomorph.Text.{Text, bytes, text_eq}
use world_wide_anthropomorph.Stream.Digits.{length-put_hex}
use world_wide_anthropomorph.TreeNode.{TreeNode}
use world_wide_anthropomorph.TreeNode.TextForm.{long_values}
use world_wide_anthropomorph.TreeMessage.Nodes.{
  count_digits, encode_maybe_tree_node, decode_maybe_tree_node, can_decode_maybe_tree_node,
  can_decode_property_data,
}
use world_wide_anthropomorph.TreeMessage.Nodes.Tail.{
  tail_size, LastPayload, long_payloads-LastPayload, last_payload-end,
}
use world_wide_anthropomorph.TreeMessage.Codec.{
  Codec, IsTagged, map-IsTagged, IsCoded, le-of_ltb, lt-of_ltb,
}
use world_wide_anthropomorph.TreeMessage.Nodes.Found.{
  structure_found, awaited_text, count_found, text_found, short_string,
}
use world_wide_anthropomorph.TreeMessage.Nodes.Sent.{
  count_text, NodeCodes, text-EndsWith, data_of, node_chunks, decoded_node,
}

-- Where the last chunk of a text has less than eight bytes, can_decode_MaybeTreeNode throws as soon
-- as all chunks of the text are there, whatever follows them.
pub can_decode_maybe_tree_node-short_tail :
    (r s : ℕ) (str : Text) (before tail : ChunkList)
    → length str < string_limit
    → tail_size (length str) < 8
    → can_decode_maybe_tree_node (length before) (before ++ (encode_long_string r s str ++ tail))
      ≡ err (if ltb (tail_size (length str)) 6 then bad_chunk else out_of_range)
unfolding can_decode_property_data
can_decode_maybe_tree_node-short_tail r s str before tail short small =
    let l : LastPayload (long_payloads str) (tail_size (length str)) =
      long_payloads-LastPayload str in
    let size : length l.last ≡ tail_size (length str) = l.last_length in
    let sixteen : ltb (length l.last) count_digits ≡ true =
      ltb-of_lt (length l.last) count_digits (omega (arith, size, small)) in
    text_found r s str before tail short
    ∙ rw (can_decode_property_data, sixteen, short_string r s l.last (omega (arith, size, small)))
        refl
    ∙ ap (λ n. err (if ltb n 6 then bad_chunk else out_of_range)) size

module _ (data_chunks : TreeNode → List (List ℕ)) (r s : ℕ) where
  -- The same of the chunks of a node, of which some after the text may be missing.
  node_found :
      (node : TreeNode) (c : NodeCodes data_chunks node) (before tail : ChunkList)
      → length before + length (node_chunks data_chunks r s node c) < long_values
      → let enc = encode_long_string r s c.text in
        let end = length before + length enc + length (data_chunks node) in
        can_decode_maybe_tree_node (length before) (before ++ (enc ++ tail))
        ≡ ok (if ltb (length (before ++ (enc ++ tail))) end then none else some end)
  node_found node c before tail fits =
      let enc : ChunkList = encode_long_string r s c.text in
      let l : LastPayload (long_payloads c.text) (tail_size (length c.text)) =
        long_payloads-LastPayload c.text in
      let (front, front_eq) = text-EndsWith data_chunks node c.text c.written in
      let digits : length (count_text data_chunks node) ≡ count_digits =
        omega (arith, length-put_hex count_digits (length (data_chunks node)) []) in
      let long : count_digits ≤ length l.last = omega (arith, l.last_length, c.tail_fits) in
      text_found r s c.text before tail c.text_short
      ∙ count_found r s (length before + length enc) (length (data_chunks node)) l.last
          (before ++ (enc ++ tail)) long
          (ap (λ n. drop (length l.last - n) l.last) (sym digits)
            ∙ last_payload-end c.text front (count_text data_chunks node) l front_eq
                (omega (arith, digits, long)))
          c.few_chunks
          (omega (
            arith,
            fits,
            length-append enc (data_of data_chunks r s node),
            length-map_chunks r s (data_chunks node),
          ))

  awaited_node :
      (node : TreeNode) (c : NodeCodes data_chunks node) (before : ChunkList) (k : ℕ)
      → length before + length (node_chunks data_chunks r s node c) < long_values
      → k < length (node_chunks data_chunks r s node c)
      → can_decode_maybe_tree_node
          (length before)
          (before ++ take k (node_chunks data_chunks r s node c))
        ≡ ok none
  awaited_node node c before k fits less =
      let enc : ChunkList = encode_long_string r s c.text in
      let content : ChunkList = data_of data_chunks r s node in
      let count : length content ≡ length (data_chunks node) =
        length-map_chunks r s (data_chunks node) in
      elim (Bool-cases (ltb k (length enc))) [
        | inl e ↦
            let short : k < length enc = lt-of_ltb k (length enc) e in
            ap (λ t. can_decode_maybe_tree_node (length before) (before ++ t))
              (take-append_short k enc content (omega (arith, short)))
            ∙ awaited_text r s c.text before k c.text_short short
        | inr e ↦
            let reached : length enc ≤ k = le-of_ltb k (length enc) e in
            let tail : ChunkList = take (k - length enc) content in
            let missing : ltb (length (before ++ (enc ++ tail)))
                  (length before + length enc + length (data_chunks node))
                ≡ true =
              ltb-of_lt (length (before ++ (enc ++ tail)))
                (length before + length enc + length (data_chunks node))
                (omega (
                  arith,
                  count,
                  less,
                  reached,
                  length-append before (enc ++ tail),
                  length-append enc tail,
                  length-append enc content,
                  length-take_le (k - length enc) content,
                )) in
            ap (λ t. can_decode_maybe_tree_node (length before) (before ++ t))
              (take-append_long k enc content reached)
            ∙ node_found node c before tail fits
            ∙ rw missing refl
      ]

  found_node :
      (node : TreeNode) (c : NodeCodes data_chunks node) (before after : ChunkList)
      → length before + length (node_chunks data_chunks r s node c) < long_values
      → can_decode_maybe_tree_node
          (length before)
          (before ++ (node_chunks data_chunks r s node c ++ after))
        ≡ ok (some (length before + length (node_chunks data_chunks r s node c)))
  found_node node c before after fits =
      let enc : ChunkList = encode_long_string r s c.text in
      let content : ChunkList = data_of data_chunks r s node in
      let tail : ChunkList = content ++ after in
      let count : length content ≡ length (data_chunks node) =
        length-map_chunks r s (data_chunks node) in
      let there : ltb (length (before ++ (enc ++ tail)))
            (length before + length enc + length (data_chunks node))
          ≡ false =
        ltb-of_le (length (before ++ (enc ++ tail)))
          (length before + length enc + length (data_chunks node))
          (omega (
            arith,
            count,
            length-append before (enc ++ tail),
            length-append enc tail,
            length-append content after,
          )) in
      ap (λ t. can_decode_maybe_tree_node (length before) (before ++ t))
        (append_assoc enc content after)
      ∙ node_found node c before tail fits
      ∙ rw there (ap (λ n. ok (some n)) (omega (arith, count, length-append enc content)))

  -- The functions of an optional node.
  abbrev pub maybe_node_codec : Codec (Option TreeNode)
  maybe_node_codec = record {
    request_id = r;
    signal = s;
    encode = encode_maybe_tree_node data_chunks r s;
    decode = decode_maybe_tree_node;
    can_decode = can_decode_maybe_tree_node;
  }

  -- The chunks of a node that fulfils the conditions of NodeCodes are coded. The conditions: the node
  -- fulfils those of NodeFits, under which its text form is read back; the payloads given for its
  -- data are the bytes of its property data, and are less than 2 ^ 64; the text, with the count of the
  -- payloads at its end, has less than 2 ^ 31 bytes; and the last chunk of the text has 16 bytes or
  -- more. Coded says that the chunks are what the node is encoded to, one or more, with the given
  -- number and signal; that they are decoded to the node with its property data, whatever follows
  -- them; and that can_decode finds their end behind any chunks before them, and nothing while some
  -- of them are missing, where the chunks before and they are less than 2 ^ 64.
  pub node_chunks-IsCoded :
      (node : TreeNode) (c : NodeCodes data_chunks node)
      → IsCoded maybe_node_codec (some node) (node_chunks data_chunks r s node c)
  unfolding encode_maybe_tree_node encode_long_string
  node_chunks-IsCoded node c = record {
    filled = omega arith;
    tagged =
        All-append (IsTagged r s) (encode_long_string r s c.text) (data_of data_chunks r s node)
          (map-IsTagged r s (long_payloads c.text)) (map-IsTagged r s (data_chunks node));
    encoded = rw (encode_maybe_tree_node, c.written) refl;
    decoded = λ after. decoded_node data_chunks r s node c after;
    found = λ before after fits. found_node node c before after fits;
    awaited = λ before k fits less. awaited_node node c before k fits less;
  }

  abbrev pub nothing_chunks : ChunkList
  nothing_chunks = encode_long_string r s (bytes "Nothing")

  found_nothing :
      (before after : ChunkList)
      → can_decode_maybe_tree_node (length before) (before ++ (nothing_chunks ++ after))
        ≡ ok (some (length before + 1))
  unfolding encode_long_string can_decode_property_data text_eq
  found_nothing before after =
      let last : PayloadChunk = chunk_of r s (head_payload (bytes "Nothing")) in
      structure_found (length before) (length before + 1) last last
        (before ++ (nothing_chunks ++ after)) after after
        (drop-append before (nothing_chunks ++ after)) (omega arith)
        (can_decode_long_string-encode_long_string r s (bytes "Nothing") before after (omega arith))
        (ap (λ n. drop n (before ++ (nothing_chunks ++ after))) (omega arith)
          ∙ drop-append before (nothing_chunks ++ after))
      ∙ rw
          (
            can_decode_property_data,
            decode_long_string-encode_long_string r s (bytes "Nothing") [] (omega arith),
          )
          refl

  decoded_nothing :
      (after : ChunkList) → decode_maybe_tree_node (nothing_chunks ++ after) ≡ ok (1, none)
  unfolding decode_maybe_tree_node text_eq encode_long_string
  decoded_nothing after =
      let found : can_decode_long_string 0 (nothing_chunks ++ after) ≡ ok (some 1) =
        can_decode_long_string-encode_long_string r s (bytes "Nothing") [] after (omega arith) in
      let str : decode_long_string (nothing_chunks ++ after) ≡ ok (1, bytes "Nothing") =
        decode_long_string-encode_long_string r s (bytes "Nothing") after (omega arith) in
      rw (decode_maybe_tree_node, found, str) refl

  -- The chunk of nothing is coded.
  pub nothing_chunks-IsCoded : IsCoded maybe_node_codec none nothing_chunks
  unfolding encode_maybe_tree_node encode_long_string
  nothing_chunks-IsCoded = record {
    filled = omega arith;
    tagged = map-IsTagged r s (long_payloads (bytes "Nothing"));
    encoded = refl;
    decoded = λ after. decoded_nothing after;
    found = λ before after fits. found_nothing before after;
    awaited = λ before k fits less. awaited_text r s (bytes "Nothing") before k (omega arith) less;
  }
