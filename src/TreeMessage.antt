-- ===== src/TreeMessage.antt =====
-- common/backend_cpp/interface/http3_tree_message_helpers.cpp: labels and long strings as lists of
-- chunks. A chunk holds 1200 bytes, of which its header takes 6.
pub mod Payloads
pub mod LongString
pub mod Vectors
pub mod Nodes
pub mod Changes
pub mod Transactions
pub mod Codec
use world_wide_anthropomorph.Base.{
  not, ℕ, zero, suc, ◌+◌, ◌-◌, ◌%◌, Option, none, some, List, [], ◌∷◌, ◌++◌, map, if◌then◌else◌,
  ltb, leb, ◌==◌, length, take, drop, Result, ok, err, ◌>>=◌, trap, out_of_range, too_long,
  bad_chunk, cannot_decode,
}
use world_wide_anthropomorph.Text.{Text}
use world_wide_anthropomorph.TreeNode.Property.{put_bytes, get_bytes}
use world_wide_anthropomorph.SharedSpan.{restrict}
use world_wide_anthropomorph.SharedSpan.Restrict.{all_bytes}

-- A shared_span of one chunk, with what its header holds. The header of a signal has no data_length,
-- and a chunk without a header has none of the three.
pub record PayloadChunk : Type 0 where
  pub signal_type : ℕ
  pub signal : ℕ
  pub request_id : ℕ
  pub data_length : ℕ
  pub payload : List ℕ

abbrev pub ChunkList : Type 0
ChunkList = List PayloadChunk

-- shared_span<>::chunk_size - sizeof(payload_chunk_header)
abbrev pub max_payload : ℕ
max_payload = 1194

-- What is left of it after a size_t.
abbrev pub first_payload : ℕ
first_payload = 1186

-- payload_chunk_header::GLOBAL_SIGNAL_TYPE
abbrev pub payload_type : ℕ
payload_type = 2

-- The constructor from a header and a span; data_length is a uint16_t.
abbrev pub chunk_of : ℕ → ℕ → List ℕ → PayloadChunk
chunk_of request_id signal payload = record {
  signal_type = payload_type;
  signal = signal;
  request_id = request_id;
  data_length = length payload % 65536;
  payload = payload;
}

-- shared_span::set_request_id
abbrev pub retag : ℕ → PayloadChunk → PayloadChunk
retag request_id chunk = record chunk { request_id = request_id }

-- encode_label
unfoldable pub encode_label : ℕ → ℕ → Text → Result ChunkList
encode_label request_id signal str =
    if ltb max_payload (length str) then err too_long else ok (chunk_of request_id signal str ∷ [])

-- decode_label; it reads the front of the list without a test, which is undefined where the list is
-- empty.
unfoldable pub decode_label : ChunkList → Result (ℕ × Text)
decode_label [] = err trap
decode_label (chunk ∷ _) = ok (1, chunk.payload)

-- can_decode_label, on the list from start_chunk on
unfoldable pub can_decode_label : ℕ → ChunkList → Result (Option ℕ)
can_decode_label start_chunk encoded = elim (drop start_chunk encoded) [
  | [] ↦ ok none
  | chunk ∷ _ ↦
      if not (chunk.signal_type == payload_type)
      then err bad_chunk
      else if ltb (length chunk.payload) chunk.data_length
      then err bad_chunk
      else ok (some (start_chunk + 1))
]

-- The loop of encode_long_string, on the rounds left: the payloads of the chunks after the first.
unfoldable pub split_payloads : ℕ → List ℕ → List (List ℕ)
split_payloads zero str = []
split_payloads (suc f) [] = []
split_payloads (suc f) (x ∷ str) =
    take max_payload (x ∷ str) ∷ split_payloads f (drop max_payload (x ∷ str))

-- The payloads of encode_long_string: the first begins with the size of the string.
unfoldable pub long_payloads : Text → List (List ℕ)
unfolding split_payloads put_bytes
long_payloads str =
    (put_bytes 8 (length str) ++ take first_payload str)
    ∷ split_payloads (length str) (drop first_payload str)

-- encode_long_string
unfoldable pub encode_long_string : ℕ → ℕ → Text → ChunkList
unfolding long_payloads
encode_long_string request_id signal str = map (chunk_of request_id signal) (long_payloads str)

-- The loop of can_decode_long_string, on the rounds left: how many chunks are expected after the
-- first, where string_offset is what its positive part is.
unfoldable pub chunks_after : ℕ → ℕ → ℕ
chunks_after zero string_offset = 0
chunks_after (suc f) string_offset =
    let rest = chunks_after f (string_offset - max_payload) in
    if string_offset == 0 then 0 else suc rest

-- The positive part of string_offset before the loop. It is an int32_t, so that the length and the
-- difference are taken modulo 2 ^ 32, and are negative from 2 ^ 31 on.
unfoldable pub first_offset : ℕ → ℕ
first_offset long_string_length =
    let offset = (long_string_length + (4294967296 - first_payload)) % 4294967296 in
    if ltb offset 2147483648 then offset else 0

-- can_decode_long_string
unfoldable pub can_decode_long_string : ℕ → ChunkList → Result (Option ℕ)
unfolding get_bytes
can_decode_long_string start_chunk encoded = elim (drop start_chunk encoded) [
  | [] ↦ ok none
  | chunk ∷ _ ↦
      if ltb (length chunk.payload) 6
      then err bad_chunk
      else if ltb (length chunk.payload) 8
      then err out_of_range
      else let offset = first_offset (get_bytes (take 8 chunk.payload)) in
        let expected_chunk = start_chunk + 1 + chunks_after offset offset in
        if ltb (length encoded) expected_chunk then ok none else ok (some expected_chunk)
]

-- decode_long_string
unfoldable pub decode_long_string : ChunkList → Result (ℕ × Text)
unfolding can_decode_long_string restrict all_bytes
decode_long_string encoded = can_decode_long_string 0 encoded >>= λ count. elim count [
  | none ↦ err cannot_decode
  | some n ↦
      let payloads = map (λ chunk. chunk.payload) (take n encoded) in
      ok (n, all_bytes (restrict 8 (length (all_bytes payloads)) payloads))
]
