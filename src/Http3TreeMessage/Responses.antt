-- ===== src/Http3TreeMessage/Responses.antt =====
-- common/backend_cpp/interface/http3_tree_message.cpp: the encoders and decoders of the responses.
use world_wide_anthropomorph.Base.{ℕ, Bool, true, Option, List, [], ok, err, ◌>>=◌}
use world_wide_anthropomorph.Stream.{put_bool, read_bool}
use world_wide_anthropomorph.TreeNode.{TreeNode}
use world_wide_anthropomorph.TreeMessage.{encode_label, decode_label}
use world_wide_anthropomorph.TreeMessage.Nodes.{
  encode_maybe_tree_node, decode_maybe_tree_node, encode_vector_tree_node, decode_vector_tree_node,
}
use world_wide_anthropomorph.TreeMessage.Changes.{
  SequentialNotification, encode_vector_sequential_notification,
  decode_vector_sequential_notification,
}
use world_wide_anthropomorph.Http3TreeMessage.{
  Http3TreeMessage, Outcome, encode_response, decode_response,
}
use world_wide_anthropomorph.Http3TreeMessage.Signals

-- A response that holds one flag, and its flag.
unfoldable pub encode_bool_response : ℕ → Bool → Http3TreeMessage → Outcome Unit
encode_bool_response signal success =
    encode_response signal (λ id. encode_label id signal (put_bool success))

unfoldable pub decode_bool_response : Http3TreeMessage → Outcome Bool
decode_bool_response = decode_response (λ chunks. decode_label chunks >>= λ (n, str). read_bool str)

-- A response that holds nodes.
unfoldable pub decode_nodes_response : Http3TreeMessage → Outcome (List TreeNode)
decode_nodes_response =
    decode_response (λ chunks. decode_vector_tree_node chunks >>= λ (n, nodes). ok nodes)

-- encode_upsertNodeResponse and decode_upsertNodeResponse
unfoldable pub encode_upsert_node_response : Bool → Http3TreeMessage → Outcome Unit
encode_upsert_node_response = encode_bool_response Signals.upsert_node_response

unfoldable pub decode_upsert_node_response : Http3TreeMessage → Outcome Bool
decode_upsert_node_response = decode_bool_response

-- encode_deleteNodeResponse and decode_deleteNodeResponse
unfoldable pub encode_delete_node_response : Bool → Http3TreeMessage → Outcome Unit
encode_delete_node_response = encode_bool_response Signals.delete_node_response

unfoldable pub decode_delete_node_response : Http3TreeMessage → Outcome Bool
decode_delete_node_response = decode_bool_response

-- encode_openTransactionLayerResponse and decode_openTransactionLayerResponse
unfoldable pub encode_open_transaction_layer_response : Bool → Http3TreeMessage → Outcome Unit
encode_open_transaction_layer_response =
    encode_bool_response Signals.open_transaction_layer_response

unfoldable pub decode_open_transaction_layer_response : Http3TreeMessage → Outcome Bool
decode_open_transaction_layer_response = decode_bool_response

-- encode_closeTransactionLayersResponse and decode_closeTransactionLayersResponse
unfoldable pub encode_close_transaction_layers_response : Bool → Http3TreeMessage → Outcome Unit
encode_close_transaction_layers_response =
    encode_bool_response Signals.close_transaction_layers_response

unfoldable pub decode_close_transaction_layers_response : Http3TreeMessage → Outcome Bool
decode_close_transaction_layers_response = decode_bool_response

-- encode_applyTransactionResponse and decode_applyTransactionResponse
unfoldable pub encode_apply_transaction_response : Bool → Http3TreeMessage → Outcome Unit
encode_apply_transaction_response = encode_bool_response Signals.apply_transaction_response

unfoldable pub decode_apply_transaction_response : Http3TreeMessage → Outcome Bool
decode_apply_transaction_response = decode_bool_response

-- encode_registerNodeListenerResponse and decode_registerNodeListenerResponse
unfoldable pub encode_register_node_listener_response : Bool → Http3TreeMessage → Outcome Unit
encode_register_node_listener_response = encode_bool_response Signals.register_listener_response

unfoldable pub decode_register_node_listener_response : Http3TreeMessage → Outcome Bool
decode_register_node_listener_response = decode_bool_response

-- encode_deregisterNodeListenerResponse and decode_deregisterNodeListenerResponse
unfoldable pub encode_deregister_node_listener_response : Bool → Http3TreeMessage → Outcome Unit
encode_deregister_node_listener_response = encode_bool_response Signals.deregister_listener_response

unfoldable pub decode_deregister_node_listener_response : Http3TreeMessage → Outcome Bool
decode_deregister_node_listener_response = decode_bool_response

-- encode_notifyListenersResponse and decode_notifyListenersResponse
unfoldable pub encode_notify_listeners_response : Bool → Http3TreeMessage → Outcome Unit
encode_notify_listeners_response = encode_bool_response Signals.notify_listeners_response

unfoldable pub decode_notify_listeners_response : Http3TreeMessage → Outcome Bool
decode_notify_listeners_response = decode_bool_response

-- encode_processNotificationResponse and decode_processNotificationResponse
unfoldable pub encode_process_notification_response : Http3TreeMessage → Outcome Unit
encode_process_notification_response =
    encode_response Signals.process_notification_response
      (λ id. encode_label id Signals.process_notification_response [])

unfoldable pub decode_process_notification_response : Http3TreeMessage → Outcome Unit
decode_process_notification_response = decode_response (λ chunks. ok tt)

module _ (data_chunks : TreeNode → List (List ℕ)) where
  -- encode_getNodeResponse
  unfoldable pub encode_get_node_response : Option TreeNode → Http3TreeMessage → Outcome Unit
  encode_get_node_response node =
      encode_response Signals.get_node_response
        (λ id. encode_maybe_tree_node data_chunks id Signals.get_node_response node)

  -- encode_getPageTreeResponse
  unfoldable pub encode_get_page_tree_response : List TreeNode → Http3TreeMessage → Outcome Unit
  encode_get_page_tree_response nodes =
      encode_response Signals.get_page_tree_response
        (λ id. encode_vector_tree_node data_chunks id Signals.get_page_tree_response nodes)

  -- encode_getQueryNodesResponse
  unfoldable pub encode_get_query_nodes_response : List TreeNode → Http3TreeMessage → Outcome Unit
  encode_get_query_nodes_response nodes =
      encode_response Signals.query_nodes_response
        (λ id. encode_vector_tree_node data_chunks id Signals.query_nodes_response nodes)

  -- encode_getFullTreeResponse
  unfoldable pub encode_get_full_tree_response : List TreeNode → Http3TreeMessage → Outcome Unit
  encode_get_full_tree_response nodes =
      encode_response Signals.get_full_tree_response
        (λ id. encode_vector_tree_node data_chunks id Signals.get_full_tree_response nodes)

  -- encode_getJournalResponse
  unfoldable pub encode_get_journal_response :
      List SequentialNotification → Http3TreeMessage → Outcome Unit
  encode_get_journal_response notifications m =
      let sent =
        encode_response Signals.get_journal_response
          (λ id.
            encode_vector_sequential_notification data_chunks id Signals.get_journal_response
              notifications)
          m in
      elim sent.1 [
        | err thrown ↦ sent
        | ok done ↦ (record sent.0 { is_journal_request = true }, ok tt)
      ]

-- decode_getNodeResponse
unfoldable pub decode_get_node_response : Http3TreeMessage → Outcome (Option TreeNode)
decode_get_node_response =
    decode_response (λ chunks. decode_maybe_tree_node chunks >>= λ (n, node). ok node)

-- decode_getPageTreeResponse
unfoldable pub decode_get_page_tree_response : Http3TreeMessage → Outcome (List TreeNode)
decode_get_page_tree_response = decode_nodes_response

-- decode_getQueryNodesResponse
unfoldable pub decode_get_query_nodes_response : Http3TreeMessage → Outcome (List TreeNode)
decode_get_query_nodes_response = decode_nodes_response

-- decode_getFullTreeResponse
unfoldable pub decode_get_full_tree_response : Http3TreeMessage → Outcome (List TreeNode)
decode_get_full_tree_response = decode_nodes_response

-- decode_getJournalResponse
unfoldable pub decode_get_journal_response :
    Http3TreeMessage → Outcome (List SequentialNotification)
decode_get_journal_response m =
    let read =
      decode_response
        (λ chunks.
          decode_vector_sequential_notification chunks >>= λ (n, notifications). ok notifications)
        m in
    elim read.1 [
      | err thrown ↦ read
      | ok notifications ↦ (record read.0 { is_journal_request = true }, ok notifications)
    ]
