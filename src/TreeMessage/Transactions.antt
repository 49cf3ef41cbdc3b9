-- ===== src/TreeMessage/Transactions.antt =====
-- common/backend_cpp/interface/http3_tree_message_helpers.cpp: encode_SubTransaction and
-- encode_Transaction with their decoders.
pub mod Coded
pub mod Sent
use world_wide_anthropomorph.Base.{
  ℕ, zero, suc, ◌+◌, Option, none, some, List, [], ◌∷◌, ◌++◌, if◌then◌else◌, ◌==◌, length, drop,
  Result, ok, err, ◌>>=◌, cannot_decode,
}
use world_wide_anthropomorph.Stream.{to_string}
use world_wide_anthropomorph.TreeNode.{TreeNode, SubTransaction, Transaction}
use world_wide_anthropomorph.TreeMessage.{ChunkList, encode_label, can_decode_label}
use world_wide_anthropomorph.TreeMessage.Vectors.{
  encode_all, decode_all, can_decode_all, decode_size, encode_vector, decode_vector,
  can_decode_vector,
}
use world_wide_anthropomorph.TreeMessage.Changes.{
  encode_new_node_version, decode_new_node_version, can_decode_new_node_version,
}

module _ (data_chunks : TreeNode → List (List ℕ)) where
  -- encode_SubTransaction
  unfoldable pub encode_sub_transaction : ℕ → ℕ → SubTransaction → Result ChunkList
  encode_sub_transaction request_id signal sub =
      encode_label request_id signal (to_string (length sub.children)) >>= λ size.
      encode_new_node_version data_chunks request_id signal sub.parent >>= λ parent.
      encode_all (encode_new_node_version data_chunks request_id signal) sub.children
      >>= λ children. ok (size ++ (parent ++ children))

  -- encode_Transaction
  unfoldable pub encode_transaction : ℕ → ℕ → Transaction → Result ChunkList
  encode_transaction request_id signal =
      encode_vector (encode_sub_transaction request_id signal) request_id signal

-- decode_SubTransaction
unfoldable pub decode_sub_transaction : ChunkList → Result (ℕ × SubTransaction)
decode_sub_transaction encoded = can_decode_label 0 encoded >>= λ chunk_count. elim chunk_count [
  | none ↦ err cannot_decode
  | some n ↦ decode_size encoded >>= λ size.
      decode_new_node_version (drop 1 encoded) >>= λ (k, parent).
      if k == 0
      then err cannot_decode
      else decode_all decode_new_node_version size (k + 1) encoded >>= λ (end, children).
          ok (end, record { parent = parent; children = children })
]

-- can_decode_SubTransaction
unfoldable pub can_decode_sub_transaction : ℕ → ChunkList → Result (Option ℕ)
can_decode_sub_transaction start_chunk encoded =
    can_decode_label start_chunk encoded >>= λ chunk_count. elim chunk_count [
      | none ↦ ok none
      | some n ↦ decode_size (drop start_chunk encoded) >>= λ size.
          can_decode_new_node_version (start_chunk + 1) encoded >>= λ parent. elim parent [
            | none ↦ ok none
            | some current ↦ can_decode_all can_decode_new_node_version size current encoded
          ]
    ]

-- decode_Transaction
unfoldable pub decode_transaction : ChunkList → Result (ℕ × Transaction)
decode_transaction = decode_vector decode_sub_transaction

-- can_decode_Transaction
unfoldable pub can_decode_transaction : ℕ → ChunkList → Result (Option ℕ)
can_decode_transaction = can_decode_vector can_decode_sub_transaction
