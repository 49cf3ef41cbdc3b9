-- ===== src/TreeMessage/Nodes.antt =====
-- common/backend_cpp/interface/http3_tree_message_helpers.cpp: encode_MaybeTreeNode and
-- encode_VectorTreeNode with their decoders. How the property data of a node lies in chunks is a
-- parameter, since the model of a node has its bytes only.
pub mod Tail
pub mod Found
pub mod Sent
pub mod Coded
use world_wide_anthropomorph.Base.{
  ℕ, zero, suc, ◌+◌, ◌-◌, ◌%◌, Bool, true, false, not, Option, none, some, List, [], ◌∷◌, ◌++◌, map,
  if◌then◌else◌, ltb, ◌==◌, length, take, drop, Result, ok, err, ◌>>=◌, cannot_decode, bad_chunk,
  out_of_range, trap,
}
use world_wide_anthropomorph.Text.{Text, bytes, text_eq}
use world_wide_anthropomorph.Stream.{read_word, put_hex, last_number}
use world_wide_anthropomorph.SharedSpan.Restrict.{all_bytes}
use world_wide_anthropomorph.TreeNode.{TreeNode}
use world_wide_anthropomorph.TreeNode.TextForm.{put_node, read_node, line_end, long_values}
use world_wide_anthropomorph.TreeMessage.{
  PayloadChunk, ChunkList, payload_type, chunk_of, encode_long_string, decode_long_string,
  can_decode_long_string,
}
use world_wide_anthropomorph.TreeMessage.Vectors.{encode_vector, decode_vector, can_decode_vector}

-- The digits that hold the number of chunks of property data.
abbrev pub count_digits : ℕ
count_digits = 16

module _ (data_chunks : TreeNode → List (List ℕ)) where
  -- What encode_MaybeTreeNode writes of a node before its property data.
  unfoldable pub node_text : TreeNode → Result Text
  node_text node =
      put_node node (line_end ∷ put_hex count_digits (length (data_chunks node)) []) >>= λ text.
      ok (bytes "Just " ++ text)

  -- encode_MaybeTreeNode
  unfoldable pub encode_maybe_tree_node : ℕ → ℕ → Option TreeNode → Result ChunkList
  encode_maybe_tree_node request_id signal none =
      ok (encode_long_string request_id signal (bytes "Nothing"))
  encode_maybe_tree_node request_id signal (some node) = node_text node >>= λ text. ok (
      encode_long_string request_id signal text
      ++ map (chunk_of request_id signal) (data_chunks node))

  -- encode_VectorTreeNode
  unfoldable pub encode_vector_tree_node : ℕ → ℕ → List TreeNode → Result ChunkList
  encode_vector_tree_node request_id signal =
      encode_vector (λ node. encode_maybe_tree_node request_id signal (some node)) request_id signal

-- The end of decode_MaybeTreeNode, with the chunks after the text.
unfoldable pub decode_property_data : ℕ → TreeNode → ℕ → ChunkList → Result (ℕ × Option TreeNode)
decode_property_data chunk_start node count chunks =
    if ltb (length chunks) count
    then err trap
    else ok (
      chunk_start + count,
      some (record node {
        property_data = all_bytes (map (λ chunk. chunk.payload) (take count chunks));
      }),
    )

-- decode_MaybeTreeNode
unfoldable pub decode_maybe_tree_node : ChunkList → Result (ℕ × Option TreeNode)
decode_maybe_tree_node encoded = can_decode_long_string 0 encoded >>= λ treenode_chunks.
    elim treenode_chunks [
      | none ↦ err cannot_decode
      | some chunk_start ↦ decode_long_string encoded >>= λ (n, str).
          if text_eq str (bytes "Nothing")
          then ok (chunk_start, none)
          else read_word str >>= λ (label, s1). read_node s1 >>= λ (node, s2).
              last_number true long_values s2 >>= λ count.
              decode_property_data chunk_start node count (drop chunk_start encoded)
    ]

-- The end of can_decode_MaybeTreeNode: the number of chunks of property data is read from the end of
-- the last chunk of the text.
unfoldable pub can_decode_property_data : ℕ → PayloadChunk → ChunkList → Result (Option ℕ)
can_decode_property_data chunk_count last_chunk encoded =
    let size = length last_chunk.payload in
    if ltb size count_digits
    then (decode_long_string (last_chunk ∷ []) >>= λ (n, str).
        ok (if text_eq str (bytes "Nothing") then some chunk_count else none))
    else if not (last_chunk.signal_type == payload_type)
    then err out_of_range
    else last_number true long_values (drop (size - count_digits) last_chunk.payload)
      >>= λ contents_size.
          let end = (chunk_count + contents_size) % long_values in
          ok (if ltb (length encoded) end then none else some end)

-- can_decode_MaybeTreeNode
unfoldable pub can_decode_maybe_tree_node : ℕ → ChunkList → Result (Option ℕ)
can_decode_maybe_tree_node start_chunk encoded = elim (drop start_chunk encoded) [
  | [] ↦ ok none
  | chunk ∷ _ ↦
      if ltb (length chunk.payload) 6
      then err bad_chunk
      else can_decode_long_string start_chunk encoded >>= λ can_decode_structure.
          elim can_decode_structure [
            | none ↦ ok none
            | some chunk_count ↦ elim (drop (chunk_count - 1) encoded) [
              | [] ↦ ok none
              | last_chunk ∷ _ ↦ can_decode_property_data chunk_count last_chunk encoded
            ]
          ]
]

-- A node in a vector, which is there.
unfoldable pub decode_tree_node : ChunkList → Result (ℕ × TreeNode)
decode_tree_node encoded = decode_maybe_tree_node encoded >>= λ (n, maybe_node). elim maybe_node [
  | none ↦ err cannot_decode
  | some node ↦ ok (n, node)
]

-- decode_VectorTreeNode
unfoldable pub decode_vector_tree_node : ChunkList → Result (ℕ × List TreeNode)
decode_vector_tree_node = decode_vector decode_tree_node

-- can_decode_VectorTreeNode
unfoldable pub can_decode_vector_tree_node : ℕ → ChunkList → Result (Option ℕ)
can_decode_vector_tree_node = can_decode_vector can_decode_maybe_tree_node
