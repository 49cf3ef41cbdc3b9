-- ===== src/Http3ClientBackend.antt =====
-- common/backend_cpp/http3_client/http3_client_backend.h and .cpp: a local backend that is kept in
-- step with a server, by requests that are queued for it and by its responses. Each section under
-- a mutex is one step. The times of journal requests are not modelled, nor the streams of the
-- updater.
pub mod State
pub mod Unsynced
pub mod Journal
pub mod Process
pub mod Replay
pub mod Sending
pub mod Silent
pub mod Failures
pub mod Numbers
use world_wide_anthropomorph.Base.{
  ℕ, Bool, true, false, not, ◌||◌, Option, none, some, List, [], ◌∷◌, ◌++◌, map, if◌then◌else◌,
  Result, ok, err, no_pending_request, trap,
}
use world_wide_anthropomorph.Text.{Text, slash, bytes}
use world_wide_anthropomorph.TreeNode.{TreeNode, Transaction}
use world_wide_anthropomorph.Backend.{Backend, NodeListenerCallback, Exec, ◌>>=◌, ◌>>◌, pure}
use world_wide_anthropomorph.SharedSpan.Restrict.{all_bytes}
use world_wide_anthropomorph.TreeMessage.{PayloadChunk, ChunkList}
use world_wide_anthropomorph.TreeMessage.Changes.{SequentialNotification}
use world_wide_anthropomorph.Http3TreeMessage.{
  Http3TreeMessage, Outcome, new_message, setup_static_node_data_request,
}
use world_wide_anthropomorph.Http3TreeMessage.Requests
use world_wide_anthropomorph.Http3ClientBackend.State.{
  Client, Threads, on_local, update, queue, disable_server_sync, enable_server_sync,
  response_signal, pop_next_request, has_next_request, set_mutable_page_tree_label_rule,
  set_journal_request_complete, await_response, await_bool_response, await_vector_tree_response,
  await_chunks_response, send, tell_server,
}

module _ {S : Type 0} (B : Backend S) where
  -- getNode
  unfoldable pub get_node : Client S → Text → Result (Option TreeNode)
  get_node c label_rule = B.get_node c.local_backend label_rule

  -- getPageTree
  unfoldable pub get_page_tree : Client S → Text → Result (List TreeNode)
  get_page_tree c page_node_label_rule = B.get_page_tree c.local_backend page_node_label_rule

  -- relativeGetPageTree
  unfoldable pub relative_get_page_tree : Client S → TreeNode → Text → Result (List TreeNode)
  unfolding get_page_tree
  relative_get_page_tree c node page_node_label_rule =
      get_page_tree c (node.label_rule ++ slash ∷ page_node_label_rule)

  -- queryNodes
  unfoldable pub query_nodes : Client S → Text → Result (List TreeNode)
  query_nodes c label_rule = B.query_nodes c.local_backend label_rule

  -- relativeQueryNodes
  unfoldable pub relative_query_nodes : Client S → TreeNode → Text → Result (List TreeNode)
  unfolding query_nodes
  relative_query_nodes c node label_rule = query_nodes c (node.label_rule ++ slash ∷ label_rule)

  -- getFullTree
  unfoldable pub get_full_tree : Client S → Result (List TreeNode)
  get_full_tree c = B.get_full_tree c.local_backend

  -- setNodeChunks
  unfoldable pub set_node_chunks : ChunkList → Exec (Client S) Unit
  set_node_chunks chunks c = elim c.static_node [
    | none ↦ (ok tt, c)
    | some node ↦
        let filled = record node {
          property_data = all_bytes (map (λ chunk. chunk.payload) chunks);
        } in
        (on_local (B.upsert_node (filled ∷ [])) >> pure tt) (record c { static_node = some filled })
  ]

  module _ (threads : Threads S) (data_chunks : TreeNode → List (List ℕ)) where
    -- upsertNode
    unfoldable pub upsert_node : List TreeNode → Exec (Client S) Bool
    unfolding send await_bool_response
    upsert_node nodes = on_local (B.upsert_node nodes) >>= λ result.
        send threads (Requests.encode_upsert_node_request data_chunks nodes) result
          (await_bool_response threads)

    -- deleteNode
    unfoldable pub delete_node : Text → Exec (Client S) Bool
    unfolding send await_bool_response
    delete_node label_rule = on_local (B.delete_node label_rule) >>= λ result.
        send threads (Requests.encode_delete_node_request label_rule) result
          (await_bool_response threads)

    -- openTransactionLayer
    unfoldable pub open_transaction_layer : TreeNode → Exec (Client S) Bool
    unfolding send await_bool_response
    open_transaction_layer node = on_local (B.open_transaction_layer node) >>= λ result.
        if not result
        then pure false
        else send threads (Requests.encode_open_transaction_layer_request data_chunks node) result (
            await_bool_response threads >>= λ answer.
            if answer then pure true else (on_local B.close_transaction_layers >> pure false))

    -- closeTransactionLayers
    unfoldable pub close_transaction_layers : Exec (Client S) Bool
    unfolding send await_bool_response
    close_transaction_layers = on_local B.close_transaction_layers >>= λ result.
        send threads Requests.encode_close_transaction_layers_request result
          (await_bool_response threads)

    -- applyTransaction
    unfoldable pub apply_transaction : Transaction → Exec (Client S) Bool
    unfolding tell_server await_bool_response
    apply_transaction transaction =
        tell_server (Requests.encode_apply_transaction_request data_chunks transaction) >> (λ c.
          if not c.blocking_mode || not c.server_sync_on
          then on_local (B.apply_transaction transaction) c
          else (await_bool_response threads >>= λ answer.
                if answer then on_local (B.apply_transaction transaction) else pure false)
              c)

    -- registerNodeListener. The callback that wraps the client's only passes itself as the backend.
    unfoldable pub register_node_listener :
        Text → Text → Bool → NodeListenerCallback → Exec (Client S) Unit
    unfolding tell_server
    register_node_listener listener_name label_rule child_notify callback =
        on_local (B.register_node_listener listener_name label_rule child_notify callback)
        >> tell_server
            (Requests.encode_register_node_listener_request listener_name label_rule child_notify)

    -- deregisterNodeListener
    unfoldable pub deregister_node_listener : Text → Text → Exec (Client S) Unit
    unfolding tell_server
    deregister_node_listener listener_name label_rule =
        on_local (B.deregister_node_listener listener_name label_rule)
        >> tell_server (Requests.encode_deregister_node_listener_request listener_name label_rule)

    -- notifyListeners
    unfoldable pub notify_listeners : Text → Option TreeNode → Exec (Client S) Unit
    unfolding tell_server
    notify_listeners label_rule node =
        on_local (B.notify_listeners label_rule node)
        >> tell_server (Requests.encode_notify_listeners_request data_chunks label_rule node)

    -- The end of processNotifications, after the response in blocking mode.
    unfoldable pub await_notifications : Exec (Client S) Unit
    await_notifications c =
        if c.journal_request_waiting
        then (
          ok tt,
          threads.until_cleared (record (threads.until_cleared c) { notification_block = true }),
        )
        else (ok tt, threads.until_cleared c)

    -- processNotifications
    unfoldable pub process_notifications : Exec (Client S) Unit
    unfolding send await_response await_notifications
    process_notifications =
        update (λ c. record c { notification_block = true })
        >> on_local B.process_notifications
        >> send threads Requests.encode_process_notification_request tt
            (await_response threads >> await_notifications)

    -- requestStaticNodeData, where `allocated` are the bytes of the chunk of its request
    unfoldable pub request_static_node_data : List ℕ → Exec (Client S) Unit
    unfolding queue await_chunks_response set_node_chunks disable_server_sync enable_server_sync
    request_static_node_data allocated = queue (setup_static_node_data_request allocated) >> (λ c.
        if not c.blocking_mode
        then (ok tt, c)
        else (await_chunks_response threads >>= λ chunks.
              disable_server_sync >> set_node_chunks chunks >> enable_server_sync)
            c)

    -- getStaticNode
    unfoldable pub get_static_node : List ℕ → Exec (Client S) (Option TreeNode)
    unfolding request_static_node_data
    get_static_node allocated c =
        ((if c.blocking_mode then request_static_node_data allocated else pure tt)
            >> (λ c. (ok c.static_node, c)))
          c

    -- requestFullTreeSync
    unfoldable pub request_full_tree_sync : List ℕ → Exec (Client S) Unit
    unfolding request_static_node_data queue await_vector_tree_response delete_node upsert_node
        disable_server_sync enable_server_sync
    request_full_tree_sync allocated c = elim c.static_node [
      | some node ↦ request_static_node_data allocated c
      | none ↦
          (queue Requests.encode_get_full_tree_request >> (λ c.
              if not c.blocking_mode
              then (ok tt, c)
              else (await_vector_tree_response threads >>= λ nodes.
                    disable_server_sync
                    >> delete_node []
                    >> upsert_node nodes
                    >> enable_server_sync)
                  c))
            c
    ]

    -- The request of getMutablePageTreeInMode. The label that is set is read into a variable of an
    -- inner block, so that the request always has this one.
    unfoldable pub encode_mutable_page_tree_request : Bool → Http3TreeMessage → Outcome Unit
    encode_mutable_page_tree_request is_journal_request m =
        let (request, r) = Requests.encode_get_page_tree_request (bytes "MutableNodes") m in
        (record request { is_journal_request = is_journal_request }, r)

    -- getMutablePageTreeInMode
    unfoldable pub get_mutable_page_tree_in_mode : Bool → Bool → Exec (Client S) Unit
    unfolding queue await_vector_tree_response upsert_node disable_server_sync enable_server_sync
        encode_mutable_page_tree_request
    get_mutable_page_tree_in_mode blocking_mode is_journal_request =
        queue (encode_mutable_page_tree_request is_journal_request)
        >> (if not blocking_mode
            then pure tt
            else (await_vector_tree_response threads >>= λ nodes.
                disable_server_sync
                >> upsert_node nodes
                >> enable_server_sync
                >> update (λ c. record c { need_mutable_page_tree_sync = false })))

    -- getMutablePageTree
    unfoldable pub get_mutable_page_tree : Exec (Client S) Unit
    unfolding get_mutable_page_tree_in_mode
    get_mutable_page_tree c = get_mutable_page_tree_in_mode c.blocking_mode false c

    -- solicitJournalRequest
    unfoldable pub solicit_journal_request : Client S → Outcome Unit
    solicit_journal_request c =
        Requests.encode_get_journal_request data_chunks c.last_notification (new_message 0)
