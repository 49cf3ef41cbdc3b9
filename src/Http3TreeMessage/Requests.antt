-- ===== src/Http3TreeMessage/Requests.antt =====
-- common/backend_cpp/interface/http3_tree_message.cpp: the encoders and decoders of the requests.
use world_wide_anthropomorph.Base.{
  trap, ℕ, Bool, true, Option, none, some, List, [], ◌∷◌, ◌++◌, if◌then◌else◌, ◌==◌, drop, Result,
  ok, err, ◌>>=◌, cannot_decode, not_received, not,
}
use world_wide_anthropomorph.Text.{Text}
use world_wide_anthropomorph.Stream.{
  is_space, space, skip_space, split_word, read_word, get_byte, put_bool, read_bool,
}
use world_wide_anthropomorph.TreeNode.{TreeNode, Transaction}
use world_wide_anthropomorph.TreeMessage.{encode_label, decode_label}
use world_wide_anthropomorph.TreeMessage.Nodes.{
  encode_maybe_tree_node, decode_maybe_tree_node, encode_vector_tree_node, decode_vector_tree_node,
}
use world_wide_anthropomorph.TreeMessage.Changes.{
  SequentialNotification, Notification, encode_sequential_notification,
  decode_sequential_notification,
}
use world_wide_anthropomorph.TreeMessage.Transactions.{encode_transaction, decode_transaction}
use world_wide_anthropomorph.Http3TreeMessage.{
  Http3TreeMessage, Outcome, encode_request, decode_request,
}
use world_wide_anthropomorph.Http3TreeMessage.Signals

-- A request that holds one label, and its label.
unfoldable pub encode_label_request : ℕ → Text → Http3TreeMessage → Outcome Unit
encode_label_request signal label = encode_request signal (λ id. encode_label id signal label)

unfoldable pub decode_label_request : Http3TreeMessage → Result Text
decode_label_request = decode_request (λ chunks. decode_label chunks >>= λ (n, label). ok label)

-- decode_closeTransactionLayersRequest and decode_getFullTreeRequest, which mark the request only
unfoldable pub mark_complete : Http3TreeMessage → Outcome Unit
mark_complete m = (record m { request_complete = true }, ok tt)

-- encode_getNodeRequest and decode_getNodeRequest
unfoldable pub encode_get_node_request : Text → Http3TreeMessage → Outcome Unit
encode_get_node_request = encode_label_request Signals.get_node_request

unfoldable pub decode_get_node_request : Http3TreeMessage → Result Text
decode_get_node_request = decode_label_request

-- encode_deleteNodeRequest and decode_deleteNodeRequest
unfoldable pub encode_delete_node_request : Text → Http3TreeMessage → Outcome Unit
encode_delete_node_request = encode_label_request Signals.delete_node_request

unfoldable pub decode_delete_node_request : Http3TreeMessage → Result Text
decode_delete_node_request = decode_label_request

-- encode_getPageTreeRequest and decode_getPageTreeRequest
unfoldable pub encode_get_page_tree_request : Text → Http3TreeMessage → Outcome Unit
encode_get_page_tree_request = encode_label_request Signals.get_page_tree_request

unfoldable pub decode_get_page_tree_request : Http3TreeMessage → Result Text
decode_get_page_tree_request = decode_label_request

-- encode_getQueryNodesRequest and decode_getQueryNodesRequest
unfoldable pub encode_get_query_nodes_request : Text → Http3TreeMessage → Outcome Unit
encode_get_query_nodes_request = encode_label_request Signals.query_nodes_request

unfoldable pub decode_get_query_nodes_request : Http3TreeMessage → Result Text
decode_get_query_nodes_request = decode_label_request

-- encode_closeTransactionLayersRequest and decode_closeTransactionLayersRequest
unfoldable pub encode_close_transaction_layers_request : Http3TreeMessage → Outcome Unit
encode_close_transaction_layers_request =
    encode_label_request Signals.close_transaction_layers_request []

unfoldable pub decode_close_transaction_layers_request : Http3TreeMessage → Outcome Unit
decode_close_transaction_layers_request = mark_complete

-- encode_getFullTreeRequest and decode_getFullTreeRequest
unfoldable pub encode_get_full_tree_request : Http3TreeMessage → Outcome Unit
encode_get_full_tree_request = encode_label_request Signals.get_full_tree_request []

unfoldable pub decode_get_full_tree_request : Http3TreeMessage → Outcome Unit
decode_get_full_tree_request = mark_complete

-- encode_processNotificationRequest and decode_processNotificationRequest
unfoldable pub encode_process_notification_request : Http3TreeMessage → Outcome Unit
encode_process_notification_request = encode_label_request Signals.process_notification_request []

unfoldable pub decode_process_notification_request : Http3TreeMessage → Outcome Unit
decode_process_notification_request m =
    if not m.request_complete then (m, err not_received) else mark_complete m

module _ (data_chunks : TreeNode → List (List ℕ)) where
  -- encode_upsertNodeRequest
  unfoldable pub encode_upsert_node_request : List TreeNode → Http3TreeMessage → Outcome Unit
  encode_upsert_node_request nodes =
      encode_request Signals.upsert_node_request
        (λ id. encode_vector_tree_node data_chunks id Signals.upsert_node_request nodes)

  -- encode_openTransactionLayerRequest
  unfoldable pub encode_open_transaction_layer_request : TreeNode → Http3TreeMessage → Outcome Unit
  encode_open_transaction_layer_request node =
      encode_request Signals.open_transaction_layer_request (λ id.
        encode_maybe_tree_node data_chunks id Signals.open_transaction_layer_request (some node))

  -- encode_applyTransactionRequest
  unfoldable pub encode_apply_transaction_request : Transaction → Http3TreeMessage → Outcome Unit
  encode_apply_transaction_request transaction =
      encode_request Signals.apply_transaction_request
        (λ id. encode_transaction data_chunks id Signals.apply_transaction_request transaction)

  -- encode_notifyListenersRequest
  unfoldable pub encode_notify_listeners_request :
      Text → Option TreeNode → Http3TreeMessage → Outcome Unit
  encode_notify_listeners_request label_rule node =
      encode_request Signals.notify_listeners_request (λ id.
        encode_label id Signals.notify_listeners_request label_rule >>= λ label.
        encode_maybe_tree_node data_chunks id Signals.notify_listeners_request node
        >>= λ node_chunk. ok (label ++ node_chunk))

  -- encode_getJournalRequest, which sends the number of the notification only
  unfoldable pub encode_get_journal_request :
      SequentialNotification → Http3TreeMessage → Outcome Unit
  encode_get_journal_request (number, last_notification) m =
      let sent =
        encode_request Signals.get_journal_request
          (λ id.
            encode_sequential_notification data_chunks id Signals.get_journal_request
              (number, ([], none)))
          m in
      elim sent.1 [
        | err thrown ↦ sent
        | ok done ↦ (record sent.0 { is_journal_request = true }, ok tt)
      ]

-- decode_upsertNodeRequest
unfoldable pub decode_upsert_node_request : Http3TreeMessage → Result (List TreeNode)
decode_upsert_node_request =
    decode_request (λ chunks. decode_vector_tree_node chunks >>= λ (n, nodes). ok nodes)

-- decode_openTransactionLayerRequest
unfoldable pub decode_open_transaction_layer_request : Http3TreeMessage → Result TreeNode
decode_open_transaction_layer_request = decode_request (λ chunks.
    decode_maybe_tree_node chunks >>= λ (n, maybe_node). elim maybe_node [
      | none ↦ err cannot_decode
      | some node ↦ ok node
    ])

-- decode_applyTransactionRequest
unfoldable pub decode_apply_transaction_request : Http3TreeMessage → Result Transaction
decode_apply_transaction_request =
    decode_request (λ chunks. decode_transaction chunks >>= λ (n, transaction). ok transaction)

-- A word at the front of a stream, where operator>> leaves the empty text if none is left.
unfoldable pub last_word : Text → Text
last_word s = elim (skip_space s) [ [] ↦ [] | c ∷ t ↦ (split_word (c ∷ t)).0 ]

-- A word that may be empty, where white space stands at the front.
unfoldable pub read_field : Text → Result (Text × Text)
read_field [] = err trap
read_field (c ∷ s) = if is_space c then ok ([], c ∷ s) else read_word (c ∷ s)

-- encode_registerNodeListenerRequest
unfoldable pub encode_register_node_listener_request :
    Text → Text → Bool → Http3TreeMessage → Outcome Unit
encode_register_node_listener_request listener_name label_rule child_notify =
    encode_label_request Signals.register_listener_request
      (listener_name ++ (space ∷ (label_rule ++ (space ∷ put_bool child_notify))))

-- decode_registerNodeListenerRequest
unfoldable pub decode_register_node_listener_request :
    Http3TreeMessage → Result (Text × Text × Bool)
decode_register_node_listener_request = decode_request (λ chunks.
    decode_label chunks >>= λ (n, str). read_field str >>= λ (listener_name, s1).
    get_byte s1 >>= λ s2. read_field s2 >>= λ (label_rule, s3). get_byte s3 >>= λ s4.
    read_bool s4 >>= λ child_notify. ok (listener_name, label_rule, child_notify))

-- encode_deregisterNodeListenerRequest
unfoldable pub encode_deregister_node_listener_request :
    Text → Text → Http3TreeMessage → Outcome Unit
encode_deregister_node_listener_request listener_name label_rule =
    encode_label_request Signals.deregister_listener_request (listener_name ++ (space ∷ label_rule))

-- decode_deregisterNodeListenerRequest
unfoldable pub decode_deregister_node_listener_request : Http3TreeMessage → Result (Text × Text)
decode_deregister_node_listener_request = decode_request (λ chunks.
    decode_label chunks >>= λ (n, str). read_field str >>= λ (listener_name, s1).
    get_byte s1 >>= λ s2. ok (listener_name, last_word s2))

-- decode_notifyListenersRequest
unfoldable pub decode_notify_listeners_request : Http3TreeMessage → Result Notification
decode_notify_listeners_request = decode_request (λ chunks. decode_label chunks >>= λ (n, str).
    decode_maybe_tree_node (drop n chunks) >>= λ (k, node).
    if k == 0 then err cannot_decode else ok (last_word str, node))

-- decode_getJournalRequest
unfoldable pub decode_get_journal_request : Http3TreeMessage → Outcome SequentialNotification
decode_get_journal_request m =
    let read =
      decode_request
        (λ chunks. decode_sequential_notification chunks >>= λ (n, notification).
          if n == 0 then err cannot_decode else ok notification)
        m in
    elim read [
      | err thrown ↦ (m, err thrown)
      | ok notification ↦
          (record m { request_complete = true; is_journal_request = true }, ok notification)
    ]
