-- ===== src/Http3ClientBackend/Process.antt =====
-- processHTTP3Response and the handler of a request's stream, in
-- common/backend_cpp/http3_client/http3_client_backend.cpp. Their state is the client and the
-- message of the request.
use world_wide_anthropomorph.Base.{
  ℕ, zero, suc, Bool, true, false, not, ◌&&◌, Option, none, some, List, [], ◌∷◌, ◌++◌,
  if◌then◌else◌, ◌==◌, length, ok,
}
use world_wide_anthropomorph.TreeNode.{TreeNode}
use world_wide_anthropomorph.Backend.{Backend, Exec, ◌>>=◌, ◌>>◌, pure}
use world_wide_anthropomorph.TreeMessage.{PayloadChunk, ChunkList, chunk_of}
use world_wide_anthropomorph.Http3TreeMessage.{
  Http3TreeMessage, Outcome, pop_response_chunk, push_response_chunk,
}
use world_wide_anthropomorph.Http3TreeMessage.Signals
use world_wide_anthropomorph.Http3TreeMessage.Requests
use world_wide_anthropomorph.Http3TreeMessage.Responses
use world_wide_anthropomorph.Http3TreeMessage.Transfer.{pop_all}
use world_wide_anthropomorph.Http3ClientBackend.State.{
  Client, Threads, update, disable_server_sync, enable_server_sync, response_signal,
  set_journal_request_complete,
}
use world_wide_anthropomorph.Http3ClientBackend.{upsert_node, delete_node, set_node_chunks}
use world_wide_anthropomorph.Http3ClientBackend.Journal.{process_journal}

abbrev pub Handler : Type 0 → Type 0 → Type 0
Handler S A = Exec (Client S × Http3TreeMessage) A

abbrev pub on_client : {S A : Type 0} → Exec (Client S) A → Handler S A
on_client f (c, m) = let (r, c') = f c in (r, (c', m))

abbrev pub on_message : {S A : Type 0} → (Http3TreeMessage → Outcome A) → Handler S A
on_message f (c, m) = let (m', r) = f m in (r, (c, m'))

-- The chunk of a signal_chunk_header that closes a stream.
abbrev pub close_chunk : ℕ → PayloadChunk
close_chunk request_id = record {
  signal_type = Signals.signal_type;
  signal = Signals.close_stream;
  request_id = request_id;
  data_length = 0;
  payload = [];
}

-- The signal to a thread that waits, or what is done with a response that no thread waits for.
unfoldable pub signal_or : {S : Type 0} → Exec (Client S) Unit → Exec (Client S) Unit
unfolding response_signal
signal_or otherwise c = if c.blocking_mode then response_signal c else otherwise c

-- A response that is true or false.
unfoldable pub process_bool : {S : Type 0} → (Http3TreeMessage → Outcome Bool) → Handler S Unit
unfolding signal_or
process_bool decode = on_message decode >>= λ success.
    on_client (update (λ c. record c { bool_response = success }) >> signal_or (pure tt))

-- The loop over the chunks of a response without headers, on the rounds left.
unfoldable pub take_chunks : {S : Type 0} → ℕ → Handler S Unit
take_chunks zero (c, m) = (ok tt, (c, m))
take_chunks (suc f) (c, m) = elim (pop_response_chunk m).1 [
  | none ↦ (ok tt, (c, (pop_response_chunk m).0))
  | some chunk ↦
      take_chunks f
        (record c { chunks_response = c.chunks_response ++ chunk ∷ [] }, (pop_response_chunk m).0)
]

-- The loop of the handler that pushes the chunks of a response.
unfoldable pub push_all : {S : Type 0} → ChunkList → Handler S Unit
push_all [] = pure tt
push_all (chunk ∷ chunks) = on_message (push_response_chunk chunk) >> push_all chunks

-- A change by the server, which is not sent back to it.
unfoldable pub unsynced : {S A : Type 0} → Exec (Client S) A → Exec (Client S) Unit
unfolding disable_server_sync enable_server_sync
unsynced change = disable_server_sync >> change >> enable_server_sync

-- A response of nodes.
unfoldable pub process_nodes :
    {S : Type 0} → (List TreeNode → Exec (Client S) Unit) → List TreeNode → Handler S Unit
unfolding signal_or
process_nodes change nodes =
    on_client (update (λ c. record c { vector_tree_response = nodes }) >> signal_or (change nodes))

module _ {S : Type 0} (B : Backend S) (threads : Threads S)
    (data_chunks : TreeNode → List (List ℕ)) where
  -- The case of SIGNAL_OTHER_CHUNK
  unfoldable pub process_other : Handler S Unit
  unfolding take_chunks signal_or unsynced set_node_chunks
  process_other (c, m) =
      (take_chunks (suc (length m.response_chunks))
          >> on_client (signal_or (λ c. unsynced (set_node_chunks B c.chunks_response) c)))
        (c, m)

  -- The case of SIGNAL_WWATP_GET_NODE_RESPONSE, once the node is decoded. Where there is no node, the
  -- label is asked of the request; its chunks have been popped when it was sent, and the front of the
  -- empty list is read, which is undefined (`trap`).
  unfoldable pub answered : Option TreeNode → Handler S Unit
  unfolding unsynced response_signal upsert_node delete_node disable_server_sync enable_server_sync
  answered node = on_client (update (λ c. record c { maybe_tree_response = node })) >> (λ (c, m).
      if c.blocking_mode then on_client response_signal (c, m) else elim node [
        | some n ↦ on_client (unsynced (upsert_node B threads data_chunks (n ∷ []))) (c, m)
        | none ↦
            (on_client disable_server_sync
                >> on_message (λ m. (m, Requests.decode_delete_node_request m))
                >>= λ label_rule.
                    on_client (delete_node B threads data_chunks label_rule >> enable_server_sync))
              (c, m)
      ])

  -- The case of SIGNAL_WWATP_GET_NODE_RESPONSE
  unfoldable pub process_get_node : Handler S Unit
  unfolding answered
  process_get_node = on_message Responses.decode_get_node_response >>= answered

  -- The case of SIGNAL_WWATP_GET_PAGE_TREE_RESPONSE
  unfoldable pub process_page_tree : Handler S Unit
  unfolding unsynced process_nodes upsert_node
  process_page_tree = on_message Responses.decode_get_page_tree_response >>= λ nodes. (λ (c, m).
      if m.is_journal_request
      then on_client
          (unsynced (upsert_node B threads data_chunks nodes)
            >> update (λ c. record c { notification_block = false }))
          (c, m)
      else process_nodes (λ nodes. unsynced (upsert_node B threads data_chunks nodes)) nodes (c, m))

  -- The switch of processHTTP3Response. An unknown signal is only reported.
  unfoldable pub process_signal : ℕ → Handler S Unit
  unfolding unsynced process_nodes process_other process_get_node process_page_tree process_bool
      process_journal upsert_node delete_node signal_or
  process_signal signal =
      if signal == Signals.other_chunk
      then process_other
      else if signal == Signals.get_node_response
      then process_get_node
      else if signal == Signals.upsert_node_response
      then process_bool Responses.decode_upsert_node_response
      else if signal == Signals.delete_node_response
      then process_bool Responses.decode_delete_node_response
      else if signal == Signals.get_page_tree_response
      then process_page_tree
      else if signal == Signals.query_nodes_response
      then (on_message Responses.decode_get_query_nodes_response
          >>= process_nodes (λ nodes. unsynced (upsert_node B threads data_chunks nodes)))
      else if signal == Signals.open_transaction_layer_response
      then process_bool Responses.decode_open_transaction_layer_response
      else if signal == Signals.close_transaction_layers_response
      then process_bool Responses.decode_close_transaction_layers_response
      else if signal == Signals.apply_transaction_response
      then process_bool Responses.decode_apply_transaction_response
      else if signal == Signals.get_full_tree_response
      then (on_message Responses.decode_get_full_tree_response
          >>= process_nodes (λ nodes.
            unsynced
              (delete_node B threads data_chunks [] >> upsert_node B threads data_chunks nodes)))
      else if signal == Signals.register_listener_response
      then process_bool Responses.decode_register_node_listener_response
      else if signal == Signals.deregister_listener_response
      then process_bool Responses.decode_deregister_node_listener_response
      else if signal == Signals.notify_listeners_response
      then process_bool Responses.decode_notify_listeners_response
      else if signal == Signals.process_notification_response
      then (on_message Responses.decode_process_notification_response
          >> on_client (signal_or (pure tt)))
      else if signal == Signals.get_journal_response
      then (on_message Responses.decode_get_journal_response >>= λ notifications.
          on_client (process_journal B threads data_chunks notifications))
      else pure tt

  -- processHTTP3Response
  unfoldable pub process_http3_response : Handler S Unit
  unfolding process_signal
  process_http3_response (c, m) = process_signal m.signal (c, m)

  -- The end of a stream's handler: the response is processed if it is complete, and the stream is
  -- closed if its processing is finished. It returns the chunks to send and whether it is closed.
  unfoldable pub finish_stream : Bool → ℕ → ChunkList → Handler S (ChunkList × Bool)
  unfolding process_http3_response set_journal_request_complete
  finish_stream is_journal_stream logical_id request (c, m) =
      ((if m.response_complete then process_http3_response else pure tt) >> (λ (c, m).
          if not m.processing_finished
          then (ok (request, false), (c, m))
          else (on_client (if is_journal_stream then set_journal_request_complete else pure tt)
                >> pure (request ++ close_chunk logical_id ∷ [], true))
              (c, m)))
        (c, m)

  -- The handler of the stream of a request, and of that of a journal request.
  unfoldable pub message_handler : Bool → ℕ → ChunkList → Handler S (ChunkList × Bool)
  unfolding push_all finish_stream pop_all
  message_handler is_journal_stream logical_id response (c, m) =
      let request = pop_all (length m.request_chunks) m in
      (push_all response >> (λ (c, m). elim (response ++ request) [
        | [] ↦
            if not m.response_complete && c.is_wwatp
            then (ok (chunk_of logical_id Signals.heartbeat [] ∷ [], false), (c, m))
            else finish_stream is_journal_stream logical_id request (c, m)
        | chunk ∷ chunks ↦ finish_stream is_journal_stream logical_id request (c, m)
      ]))
        (c, record m { request_chunks = [] })
