-- ===== src/Http3TreeMessage.antt =====
-- common/backend_cpp/interface/http3_tree_message.h and http3_tree_message.cpp: the state of a
-- message, the chunks that go in and out, and what the encoders and decoders of all methods share.
-- An operation gives the new state, and its value or what it throws; a state that was changed
-- before a throw is kept. The mutexes are not modelled: each operation is one step.
pub mod Signals
pub mod Requests
pub mod Responses
pub mod Transfer
pub mod EndToEnd
pub mod Listeners
pub mod State
use world_wide_anthropomorph.Base.{
  ℕ, ◌%◌, Bool, true, false, not, Option, none, some, List, [], ◌∷◌, ◌++◌, map, if◌then◌else◌, ◌==◌,
  length, Result, ok, err, ◌>>=◌, already_initialized, not_received, unknown_signal, cannot_decode,
  bad_chunk,
}
use world_wide_anthropomorph.TreeMessage.{
  PayloadChunk, ChunkList, payload_type, retag, can_decode_label,
}
use world_wide_anthropomorph.TreeMessage.Nodes.{
  can_decode_maybe_tree_node, can_decode_vector_tree_node,
}
use world_wide_anthropomorph.TreeMessage.Changes.{
  can_decode_sequential_notification, can_decode_vector_sequential_notification,
}
use world_wide_anthropomorph.TreeMessage.Transactions.{can_decode_transaction}
use world_wide_anthropomorph.Http3TreeMessage.Signals.{
  no_header_type, signal_type, close_stream, other_chunk, placeholder, get_node_request,
  get_node_response, upsert_node_request, upsert_node_response, delete_node_request,
  delete_node_response, get_page_tree_request, get_page_tree_response, query_nodes_request,
  query_nodes_response, open_transaction_layer_request, open_transaction_layer_response,
  close_transaction_layers_request, close_transaction_layers_response, apply_transaction_request,
  apply_transaction_response, get_full_tree_request, get_full_tree_response,
  register_listener_request, register_listener_response, deregister_listener_request,
  deregister_listener_response, notify_listeners_request, notify_listeners_response,
  process_notification_request, process_notification_response, get_journal_request,
  get_journal_response,
}

-- class HTTP3TreeMessage
pub record Http3TreeMessage : Type 0 where
  pub request_id : ℕ
  pub signal : ℕ
  pub is_initialized : Bool
  pub request_chunks : ChunkList
  pub is_journal_request : Bool
  pub request_complete : Bool
  pub response_chunks : ChunkList
  pub response_complete : Bool
  pub processing_finished : Bool

-- A new state, and a value or what is thrown.
abbrev pub Outcome : Type 0 → Type 0
Outcome A = Http3TreeMessage × Result A

-- The constructor, with the signal 0
unfoldable pub new_message : ℕ → Http3TreeMessage
new_message request_id = record {
  request_id = request_id;
  signal = 0;
  is_initialized = false;
  request_chunks = [];
  is_journal_request = false;
  request_complete = false;
  response_chunks = [];
  response_complete = false;
  processing_finished = false;
}

-- getRequestId, whose result is a uint8_t
unfoldable pub get_request_id : Http3TreeMessage → ℕ
get_request_id m = m.request_id % 256

-- What each encoder of a request does with its signal and its encoding.
unfoldable pub encode_request : ℕ → (ℕ → Result ChunkList) → Http3TreeMessage → Outcome Unit
encode_request signal encode m =
    if m.is_initialized then (m, err already_initialized) else elim (encode m.request_id) [
      | err thrown ↦ (record m { signal = signal }, err thrown)
      | ok encoded ↦ (
        record m {
          signal = signal;
          request_chunks = m.request_chunks ++ encoded;
          is_initialized = true;
        },
        ok tt,
      )
    ]

-- What each encoder of a response does.
unfoldable pub encode_response : ℕ → (ℕ → Result ChunkList) → Http3TreeMessage → Outcome Unit
encode_response signal encode m = elim (encode m.request_id) [
  | err thrown ↦ (record m { signal = signal }, err thrown)
  | ok encoded ↦ (
    record m {
      signal = signal;
      response_chunks = m.response_chunks ++ encoded;
      response_complete = true;
    },
    ok tt,
  )
]

-- What each decoder of a request does, and each of a response.
unfoldable pub decode_request : {A : Type 0} → (ChunkList → Result A) → Http3TreeMessage → Result A
decode_request decode m =
    if not m.request_complete then err not_received else decode m.request_chunks

unfoldable pub decode_response :
    {A : Type 0} → (ChunkList → Result A) → Http3TreeMessage → Outcome A
decode_response decode m =
    if not m.response_complete then (m, err not_received) else elim (decode m.response_chunks) [
      | err thrown ↦ (m, err thrown)
      | ok a ↦ (record m { processing_finished = true }, ok a)
    ]

-- setup_staticNodeDataRequest, where `allocated` are the bytes of the chunk that is allocated
unfoldable pub setup_static_node_data_request : List ℕ → Http3TreeMessage → Outcome Unit
setup_static_node_data_request allocated m =
    if m.is_initialized
    then (m, err already_initialized)
    else let tag : PayloadChunk = record {
      signal_type = payload_type;
      signal = placeholder;
      request_id = 0;
      data_length = 0;
      payload = allocated;
    } in
      (
        record m {
          signal = other_chunk;
          is_initialized = true;
          request_chunks = m.request_chunks ++ tag ∷ [];
        },
        ok tt,
      )

-- setRequestId
unfoldable pub set_request_id : ℕ → Http3TreeMessage → Http3TreeMessage
set_request_id request_id m = record m {
  request_id = request_id;
  request_chunks =
      map (λ chunk. if chunk.signal_type == payload_type then retag request_id chunk else chunk)
        m.request_chunks;
  request_complete = true;
}

-- popRequestChunk
unfoldable pub pop_request_chunk : Http3TreeMessage → Http3TreeMessage × Option PayloadChunk
pop_request_chunk m = elim m.request_chunks [
  | [] ↦ (m, none)
  | chunk ∷ chunks ↦ (record m { request_chunks = chunks }, some chunk)
]

-- The switch of pushRequestChunk.
unfoldable pub can_decode_request : ℕ → ChunkList → Result (Option ℕ)
can_decode_request signal chunks =
    if signal == get_node_request
    then can_decode_label 0 chunks
    else if signal == upsert_node_request
    then can_decode_vector_tree_node 0 chunks
    else if signal == delete_node_request
    then can_decode_label 0 chunks
    else if signal == get_page_tree_request
    then can_decode_label 0 chunks
    else if signal == query_nodes_request
    then can_decode_label 0 chunks
    else if signal == open_transaction_layer_request
    then can_decode_maybe_tree_node 0 chunks
    else if signal == close_transaction_layers_request
    then can_decode_label 0 chunks
    else if signal == apply_transaction_request
    then can_decode_transaction 0 chunks
    else if signal == get_full_tree_request
    then can_decode_label 0 chunks
    else if signal == register_listener_request
    then can_decode_label 0 chunks
    else if signal == deregister_listener_request
    then can_decode_label 0 chunks
    else if signal == notify_listeners_request
    then (can_decode_label 0 chunks >>= λ label. elim label [
      | none ↦ can_decode_maybe_tree_node 0 chunks
      | some end ↦ can_decode_maybe_tree_node end chunks
    ])
    else if signal == process_notification_request
    then can_decode_label 0 chunks
    else if signal == get_journal_request
    then can_decode_sequential_notification 0 chunks
    else err unknown_signal

-- get_signal_signal, of a chunk with a header
unfoldable pub get_signal : PayloadChunk → Result ℕ
get_signal chunk = if chunk.signal_type == no_header_type then err bad_chunk else ok chunk.signal

-- The chunk at the end, and what the first chunk sets.
unfoldable pub append_request_chunk : PayloadChunk → Http3TreeMessage → Http3TreeMessage
append_request_chunk chunk m =
    let pushed = record m { request_chunks = m.request_chunks ++ chunk ∷ [] } in
    if length (m.request_chunks ++ chunk ∷ []) == 1
    then record pushed { request_id = chunk.request_id; is_initialized = true }
    else pushed

-- The end of pushRequestChunk, behind the switch.
unfoldable pub after_request_push : Http3TreeMessage → Result (Option ℕ) → Outcome Unit
after_request_push pushed (err thrown) = (pushed, err thrown)
after_request_push pushed (ok none) = (pushed, ok tt)
after_request_push pushed (ok (some end)) = (record pushed { request_complete = true }, ok tt)

-- pushRequestChunk
unfoldable pub push_request_chunk : PayloadChunk → Http3TreeMessage → Outcome Unit
push_request_chunk chunk m = elim (get_signal chunk) [
  | err thrown ↦ (m, err thrown)
  | ok signal ↦
      let pushed = append_request_chunk chunk m in
      after_request_push pushed (can_decode_request signal pushed.request_chunks)
]

-- popResponseChunk
unfoldable pub pop_response_chunk : Http3TreeMessage → Http3TreeMessage × Option PayloadChunk
pop_response_chunk m = elim m.response_chunks [
  | [] ↦ (if m.response_complete then record m { processing_finished = true } else m, none)
  | chunk ∷ chunks ↦ (record m { response_chunks = chunks }, some chunk)
]

-- The switch of pushResponseChunk.
unfoldable pub can_decode_response : ℕ → ChunkList → Result (Option ℕ)
can_decode_response signal chunks =
    if signal == get_node_response
    then can_decode_maybe_tree_node 0 chunks
    else if signal == upsert_node_response
    then can_decode_label 0 chunks
    else if signal == delete_node_response
    then can_decode_label 0 chunks
    else if signal == get_page_tree_response
    then can_decode_vector_tree_node 0 chunks
    else if signal == query_nodes_response
    then can_decode_vector_tree_node 0 chunks
    else if signal == open_transaction_layer_response
    then can_decode_label 0 chunks
    else if signal == close_transaction_layers_response
    then can_decode_label 0 chunks
    else if signal == apply_transaction_response
    then can_decode_label 0 chunks
    else if signal == get_full_tree_response
    then can_decode_vector_tree_node 0 chunks
    else if signal == register_listener_response
    then can_decode_label 0 chunks
    else if signal == deregister_listener_response
    then can_decode_label 0 chunks
    else if signal == notify_listeners_response
    then can_decode_label 0 chunks
    else if signal == process_notification_response
    then can_decode_label 0 chunks
    else if signal == get_journal_response
    then can_decode_vector_sequential_notification 0 chunks
    else err unknown_signal

-- The end of pushResponseChunk, behind the switch.
unfoldable pub after_response_push : ℕ → Http3TreeMessage → Result (Option ℕ) → Outcome Unit
after_response_push signal pushed (err thrown) = (pushed, err thrown)
after_response_push signal pushed (ok none) = (pushed, ok tt)
after_response_push signal pushed (ok (some end)) =
    (record pushed { signal = signal; response_complete = true }, ok tt)

-- The part of pushResponseChunk for a chunk with a payload.
unfoldable pub push_response_payload : PayloadChunk → Http3TreeMessage → Outcome Unit
push_response_payload chunk m =
    let pushed = record m { response_chunks = m.response_chunks ++ chunk ∷ [] } in
    after_response_push chunk.signal pushed
      (can_decode_response chunk.signal pushed.response_chunks)

-- pushResponseChunk
unfoldable pub push_response_chunk : PayloadChunk → Http3TreeMessage → Outcome Unit
push_response_chunk chunk m =
    if chunk.signal_type == no_header_type
    then (record m { response_chunks = m.response_chunks ++ chunk ∷ [] }, ok tt)
    else if chunk.signal_type == signal_type
    then (if chunk.signal == close_stream then record m { response_complete = true } else m, ok tt)
    else push_response_payload chunk m

-- reset
unfoldable pub reset : Http3TreeMessage → Http3TreeMessage
reset m = record m {
  request_id = 0;
  is_initialized = false;
  request_complete = false;
  response_complete = false;
  request_chunks = [];
  response_chunks = [];
}
