-- ===== src/TreeMessage/Vectors.antt =====
-- common/backend_cpp/interface/http3_tree_message_helpers.cpp: what the encodings of vectors share,
-- which are a label that holds the size and then the elements.
use world_wide_anthropomorph.Base.{
  ℕ, zero, suc, ◌+◌, false, Option, none, some, List, [], ◌∷◌, ◌++◌, if◌then◌else◌, ◌==◌, length,
  drop, Result, ok, err, ◌>>=◌, cannot_decode,
}
use world_wide_anthropomorph.Stream.{to_string, last_number}
use world_wide_anthropomorph.TreeNode.TextForm.{long_values}
use world_wide_anthropomorph.TreeMessage.{ChunkList, encode_label, decode_label, can_decode_label}

-- The loops that append the encoding of each element.
unfoldable pub encode_all : {X : Type 0} → (X → Result ChunkList) → List X → Result ChunkList
encode_all encode [] = ok []
encode_all encode (x ∷ xs) =
    encode x >>= λ first. encode_all encode xs >>= λ rest. ok (first ++ rest)

-- The loops that decode so many elements from an offset on.
unfoldable pub decode_all :
    {X : Type 0} → (ChunkList → Result (ℕ × X)) → ℕ → ℕ → ChunkList → Result (ℕ × List X)
decode_all decode zero offset encoded = ok (offset, [])
decode_all decode (suc count) offset encoded = decode (drop offset encoded) >>= λ (n, x).
    if n == 0
    then err cannot_decode
    else decode_all decode count (offset + n) encoded >>= λ (end, xs). ok (end, x ∷ xs)

-- The loops that look for the end of so many elements from a chunk on.
unfoldable pub can_decode_all :
    (ℕ → ChunkList → Result (Option ℕ)) → ℕ → ℕ → ChunkList → Result (Option ℕ)
can_decode_all can_decode zero current encoded = ok (some current)
can_decode_all can_decode (suc count) current encoded = can_decode current encoded >>= λ next.
    elim next [ none ↦ ok none | some later ↦ can_decode_all can_decode count later encoded ]

-- The size, read from a label.
unfoldable pub decode_size : ChunkList → Result ℕ
decode_size encoded = decode_label encoded >>= λ (n, str). last_number false long_values str

unfoldable pub encode_vector :
    {X : Type 0} → (X → Result ChunkList) → ℕ → ℕ → List X → Result ChunkList
encode_vector encode request_id signal xs =
    encode_label request_id signal (to_string (length xs)) >>= λ size.
    encode_all encode xs >>= λ rest. ok (size ++ rest)

unfoldable pub decode_vector :
    {X : Type 0} → (ChunkList → Result (ℕ × X)) → ChunkList → Result (ℕ × List X)
decode_vector decode encoded = can_decode_label 0 encoded >>= λ count. elim count [
  | none ↦ err cannot_decode
  | some n ↦ decode_size encoded >>= λ size. decode_all decode size 1 encoded
]

unfoldable pub can_decode_vector :
    (ℕ → ChunkList → Result (Option ℕ)) → ℕ → ChunkList → Result (Option ℕ)
can_decode_vector can_decode start_chunk encoded = can_decode_label start_chunk encoded >>= λ count.
    elim count [
      | none ↦ ok none
      | some n ↦ decode_size (drop start_chunk encoded) >>= λ size.
          can_decode_all can_decode size (start_chunk + 1) encoded
    ]
