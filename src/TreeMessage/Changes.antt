-- ===== src/TreeMessage/Changes.antt =====
-- common/backend_cpp/interface/http3_tree_message_helpers.cpp: encode_SequentialNotification,
-- encode_VectorSequentialNotification and encode_NewNodeVersion with their decoders.
pub mod Coded
use world_wide_anthropomorph.TreeMessage.Vectors.{
  decode_all, decode_size, encode_vector, decode_vector, can_decode_vector,
}
use world_wide_anthropomorph.Base.{
  ℕ, zero, suc, ◌+◌, ◌-◌, Bool, true, false, not, Option, none, some, List, [], ◌∷◌, ◌++◌,
  if◌then◌else◌, ltb, ◌==◌, length, drop, Result, ok, err, ◌>>=◌, cannot_decode, bad_chunk,
}
use world_wide_anthropomorph.Text.{Text, bytes, text_eq, is_empty}
use world_wide_anthropomorph.Stream.{space, read_word, put_number, scan_number}
use world_wide_anthropomorph.TreeNode.{TreeNode, NewNodeVersion}
use world_wide_anthropomorph.TreeNode.TextForm.{long_values, short_values}
use world_wide_anthropomorph.TreeMessage.{
  ChunkList, encode_long_string, decode_long_string, can_decode_long_string, can_decode_label,
}
use world_wide_anthropomorph.TreeMessage.Nodes.{
  encode_maybe_tree_node, decode_maybe_tree_node, can_decode_maybe_tree_node,
}

-- Notification and SequentialNotification
abbrev pub Notification : Type 0
Notification = Text × Option TreeNode

abbrev pub SequentialNotification : Type 0
SequentialNotification = ℕ × Notification

unfoldable pub notification_text : ℕ → Text → Text
notification_text number label = put_number number (space ∷ label)

unfoldable pub version_text : Option ℕ → Text → Text
version_text none label = bytes "Nothing" ++ (space ∷ label)
version_text (some number) label = bytes "Just " ++ put_number number (space ∷ label)

module _ (data_chunks : TreeNode → List (List ℕ)) where
  -- encode_SequentialNotification
  unfoldable pub encode_sequential_notification : ℕ → ℕ → SequentialNotification → Result ChunkList
  encode_sequential_notification request_id signal (number, (label, node)) =
      encode_maybe_tree_node data_chunks request_id signal node >>= λ maybe_tree.
      ok (encode_long_string request_id signal (notification_text number label) ++ maybe_tree)

  -- encode_NewNodeVersion
  unfoldable pub encode_new_node_version : ℕ → ℕ → NewNodeVersion → Result ChunkList
  encode_new_node_version request_id signal change =
      encode_maybe_tree_node data_chunks request_id signal change.node >>= λ maybe_tree.
      ok (
        encode_long_string request_id signal (version_text change.prior change.label) ++ maybe_tree)

  -- encode_VectorSequentialNotification
  unfoldable pub encode_vector_sequential_notification :
      ℕ → ℕ → List SequentialNotification → Result ChunkList
  encode_vector_sequential_notification request_id signal =
      encode_vector (encode_sequential_notification request_id signal) request_id signal

-- The label: what follows the byte at tellg(), which is -1 once a read has failed or has come to
-- the end.
unfoldable pub label_after : Text → Option Text → Text
label_after str none = str
label_after str (some []) = str
label_after str (some (c ∷ rest)) = rest

-- The text at the front of both, which has to be of one chunk.
unfoldable pub decode_one_chunk : ChunkList → Result Text
decode_one_chunk encoded = can_decode_long_string 0 encoded >>= λ chunk_count. elim chunk_count [
  | none ↦ err cannot_decode
  | some n ↦
      if not (n == 1) then err bad_chunk else decode_long_string encoded >>= λ (k, str). ok str
]

-- decode_SequentialNotification
unfoldable pub decode_sequential_notification : ChunkList → Result (ℕ × SequentialNotification)
decode_sequential_notification encoded = decode_one_chunk encoded >>= λ str.
    scan_number false long_values str >>= λ (number, rest).
    decode_maybe_tree_node (drop 1 encoded) >>= λ (n, node).
    if n == 0 then err cannot_decode else ok (1 + n, (number, (label_after str rest, node)))

-- The version at the front of the text, and what is left after it.
unfoldable pub read_prior : Text → Result (Option ℕ × Option Text)
read_prior str = read_word str >>= λ (version_str, s1).
    if text_eq version_str (bytes "Nothing")
    then ok (none, some s1)
    else scan_number false short_values s1 >>= λ (value, rest). ok (some value, rest)

-- decode_NewNodeVersion
unfoldable pub decode_new_node_version : ChunkList → Result (ℕ × NewNodeVersion)
decode_new_node_version encoded = decode_one_chunk encoded >>= λ str.
    read_prior str >>= λ (prior, rest). decode_maybe_tree_node (drop 1 encoded) >>= λ (n, node).
    if n == 0
    then err cannot_decode
    else ok (1 + n, record { prior = prior; label = label_after str rest; node = node })

-- can_decode_SequentialNotification
unfoldable pub can_decode_sequential_notification : ℕ → ChunkList → Result (Option ℕ)
can_decode_sequential_notification start_chunk encoded = elim (drop start_chunk encoded) [
  | [] ↦ ok none
  | chunk ∷ _ ↦
      if ltb (length chunk.payload) 6
      then err bad_chunk
      else can_decode_long_string start_chunk encoded >>= λ structure. elim structure [
        | none ↦ ok none
        | some end ↦
            if not (ltb end (length encoded))
            then ok none
            else can_decode_maybe_tree_node end encoded
      ]
]

-- can_decode_NewNodeVersion
unfoldable pub can_decode_new_node_version : ℕ → ChunkList → Result (Option ℕ)
can_decode_new_node_version start_chunk encoded = elim (drop start_chunk encoded) [
  | [] ↦ ok none
  | chunk ∷ _ ↦
      if ltb (length chunk.payload) 6
      then err bad_chunk
      else can_decode_label start_chunk encoded >>= λ structure. elim structure [
        | none ↦ ok none
        | some end ↦ can_decode_maybe_tree_node end encoded
      ]
]

-- decode_VectorSequentialNotification
unfoldable pub decode_vector_sequential_notification :
    ChunkList → Result (ℕ × List SequentialNotification)
decode_vector_sequential_notification encoded =
    decode_size encoded >>= λ size. decode_all decode_sequential_notification size 1 encoded

-- can_decode_VectorSequentialNotification
unfoldable pub can_decode_vector_sequential_notification : ℕ → ChunkList → Result (Option ℕ)
can_decode_vector_sequential_notification = can_decode_vector can_decode_sequential_notification
