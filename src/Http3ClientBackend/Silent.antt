-- ===== src/Http3ClientBackend/Silent.antt =====
-- The requests that processing a response queues.
pub mod Steps
pub mod Cases
use world_wide_anthropomorph.Base.{
  arith, ℕ, zero, suc, ◌≡◌, ◌≢◌, refl, ap, ◌∙◌, Bool, true, false, Option, none, some, List, [],
  ◌∷◌, ◌++◌, ◌==◌, if◌then◌else◌, Bool-cases, inl, inr, Result, ok, err, length, map,
}
use world_wide_anthropomorph.Text.{Text}
use world_wide_anthropomorph.TreeNode.{TreeNode}
use world_wide_anthropomorph.Backend.{Backend, Exec, ◌>>=◌, ◌>>◌, pure}
use world_wide_anthropomorph.SharedSpan.Restrict.{all_bytes}
use world_wide_anthropomorph.TreeMessage.{ChunkList}
use world_wide_anthropomorph.Http3TreeMessage.Responses
use world_wide_anthropomorph.Http3TreeMessage.Requests
use world_wide_anthropomorph.Http3TreeMessage.Signals
use world_wide_anthropomorph.Http3TreeMessage.{Http3TreeMessage, Outcome, pop_response_chunk}
use world_wide_anthropomorph.Http3ClientBackend.State.{
  Client, Threads, on_local, update, disable_server_sync, enable_server_sync, response_signal,
}
use world_wide_anthropomorph.Http3ClientBackend.{upsert_node, delete_node, set_node_chunks}
use world_wide_anthropomorph.Http3ClientBackend.Unsynced.{
  upsert_node-unsynced, delete_node-unsynced,
}
use world_wide_anthropomorph.Http3ClientBackend.Process.{
  Handler, on_client, on_message, signal_or, process_bool, take_chunks, unsynced, process_nodes,
  process_other, answered, process_get_node, process_page_tree, process_signal,
  process_http3_response,
}
use world_wide_anthropomorph.Http3ClientBackend.Silent.Steps.{
  IsSilent, IsSilentOff, IsSilentHandler, bind-pending, bind-off, bind-IsSilent,
  bind-IsSilentHandler, bind-pending_off, bind-IsSilentOff, on_client-IsSilentHandler,
  on_message-IsSilentHandler, pure-IsSilent, signal_or-IsSilent, process_bool-IsSilentHandler,
  taken, take_chunks-IsSilentHandler,
}
use world_wide_anthropomorph.Http3ClientBackend.Silent.Cases.{
  upsert_node-IsSilentOff, delete_node-IsSilentOff, unsynced-IsSilent, static_filled,
  set_node_chunks-IsSilentOff, process_nodes-IsSilentHandler, nodes_changed,
  process_other-IsSilentHandler, page_tree_processed, process_page_tree-IsSilentHandler,
}

module _ {S : Type 0} (B : Backend S) (threads : Threads S)
    (data_chunks : TreeNode → List (List ℕ)) where
  deleted_off :
      (r : Result Text) (c : Client S) (m : Http3TreeMessage)
      → (elim r as (λ x. Result (Unit {0}) × (Client S × Http3TreeMessage)) [
        | ok label_rule ↦
            on_client
              (delete_node B threads data_chunks label_rule >> enable_server_sync)
              (record c { server_sync_on = false }, m)
        | err e ↦ (err e, (record c { server_sync_on = false }, m))
      ]).1.0.pending_requests
        ≡ c.pending_requests
  deleted_off (err e) c m = refl
  deleted_off (ok label_rule) c m =
      bind-pending (λ (c : Client S). c.pending_requests)
        (delete_node B threads data_chunks label_rule (record c { server_sync_on = false }))
        (λ a. enable_server_sync) c.pending_requests
        ((delete_node-IsSilentOff B threads data_chunks label_rule).pending_kept
          (record c { server_sync_on = false }) refl)
        (λ a t. unfold enable_server_sync in refl)

  node_got :
      (b : Bool) (node : Option TreeNode) (c : Client S) (m : Http3TreeMessage)
      → (if b then on_client response_signal (c, m) else elim node [
        | some n ↦ on_client (unsynced (upsert_node B threads data_chunks (n ∷ []))) (c, m)
        | none ↦
            (on_client disable_server_sync
                >> on_message (λ m. (m, Requests.decode_delete_node_request m))
                >>= λ label_rule.
                    on_client (delete_node B threads data_chunks label_rule >> enable_server_sync))
              (c, m)
      ]).1.0.pending_requests
        ≡ c.pending_requests
  unfolding response_signal disable_server_sync
  node_got true n c m = refl
  node_got false (some n) c m = (nodes_changed B threads data_chunks (n ∷ [])).pending_kept c
  node_got false none c m = deleted_off (Requests.decode_delete_node_request m) c m

  process_get_node-IsSilentHandler : IsSilentHandler (process_get_node B threads data_chunks)
  unfolding process_get_node answered
  process_get_node-IsSilentHandler =
      bind-IsSilentHandler (on_message Responses.decode_get_node_response)
        (answered B threads data_chunks)
        (on_message-IsSilentHandler Responses.decode_get_node_response)
        (λ node. record {
          pending_kept =
              λ c m. node_got c.blocking_mode node (record c { maybe_tree_response = node }) m;
        })

  all_changed :
      (nodes : List TreeNode)
      → IsSilent (
          unsynced
            (delete_node B threads data_chunks [] >> upsert_node B threads data_chunks nodes))
  all_changed nodes =
      unsynced-IsSilent B threads data_chunks
        (delete_node B threads data_chunks [] >> upsert_node B threads data_chunks nodes)
        (bind-IsSilentOff (delete_node B threads data_chunks [])
          (λ u. upsert_node B threads data_chunks nodes)
          (delete_node-IsSilentOff B threads data_chunks [])
          (λ u. upsert_node-IsSilentOff B threads data_chunks nodes))

  nodes_kept :
      (decode : Http3TreeMessage → Outcome (List TreeNode))
      (change : List TreeNode → Exec (Client S) Unit)
      → ((nodes : List TreeNode) → IsSilent (change nodes))
      → IsSilentHandler (on_message decode >>= process_nodes change)
  nodes_kept decode change h =
      bind-IsSilentHandler (on_message decode) (process_nodes change)
        (on_message-IsSilentHandler decode)
        (λ nodes. process_nodes-IsSilentHandler B threads data_chunks change nodes (h nodes))

  notified :
      IsSilentHandler {S = S} (
        on_message Responses.decode_process_notification_response
        >> on_client (signal_or (pure tt)))
  notified =
      bind-IsSilentHandler (on_message Responses.decode_process_notification_response)
        (λ u. on_client (signal_or (pure tt)))
        (on_message-IsSilentHandler Responses.decode_process_notification_response)
        (λ u.
          on_client-IsSilentHandler (signal_or (pure tt))
            (signal_or-IsSilent (pure tt) (pure-IsSilent tt)))

  case_silent :
      (b : Bool) {f g : Handler S Unit}
      → IsSilentHandler f
      → IsSilentHandler g
      → IsSilentHandler (if b then f else g)
  case_silent true hf hg = hf
  case_silent false hf hg = hg

  case_skipped :
      (b : Bool) (f g : Handler S Unit)
      → b ≡ false
      → IsSilentHandler g
      → IsSilentHandler (if b then f else g)
  case_skipped true f g e hg = cc
  case_skipped false f g e hg = hg

  process_signal-IsSilentHandler :
      (signal : ℕ)
      → signal ≢ Signals.get_journal_response
      → IsSilentHandler (process_signal B threads data_chunks signal)
  unfolding process_signal
  process_signal-IsSilentHandler signal other =
      let not_journal : (signal == Signals.get_journal_response) ≡ false = ground (arith, other) in
      case_silent (signal == Signals.other_chunk)
        (process_other-IsSilentHandler B threads data_chunks)
        (case_silent (signal == Signals.get_node_response) process_get_node-IsSilentHandler (
          case_silent (signal == Signals.upsert_node_response)
            (process_bool-IsSilentHandler Responses.decode_upsert_node_response)
            (case_silent (signal == Signals.delete_node_response)
              (process_bool-IsSilentHandler Responses.decode_delete_node_response)
              (case_silent (signal == Signals.get_page_tree_response)
                (process_page_tree-IsSilentHandler B threads data_chunks)
                (case_silent (signal == Signals.query_nodes_response)
                  (nodes_kept Responses.decode_get_query_nodes_response
                    (λ nodes. unsynced (upsert_node B threads data_chunks nodes))
                    (nodes_changed B threads data_chunks))
                  (case_silent (signal == Signals.open_transaction_layer_response)
                    (process_bool-IsSilentHandler Responses.decode_open_transaction_layer_response)
                    (case_silent (signal == Signals.close_transaction_layers_response)
                      (process_bool-IsSilentHandler
                        Responses.decode_close_transaction_layers_response)
                      (case_silent (signal == Signals.apply_transaction_response)
                        (process_bool-IsSilentHandler Responses.decode_apply_transaction_response)
                        (case_silent (signal == Signals.get_full_tree_response)
                          (nodes_kept Responses.decode_get_full_tree_response
                            (λ nodes. unsynced (
                              delete_node B threads data_chunks []
                              >> upsert_node B threads data_chunks nodes))
                            all_changed)
                          (case_silent (signal == Signals.register_listener_response)
                            (process_bool-IsSilentHandler
                              Responses.decode_register_node_listener_response)
                            (case_silent (signal == Signals.deregister_listener_response)
                              (process_bool-IsSilentHandler
                                Responses.decode_deregister_node_listener_response)
                              (case_silent (signal == Signals.notify_listeners_response)
                                (process_bool-IsSilentHandler
                                  Responses.decode_notify_listeners_response)
                                (case_silent (signal == Signals.process_notification_response)
                                  notified
                                  (case_skipped (signal == Signals.get_journal_response) _ _
                                    not_journal
                                    (record { pending_kept = λ c m. refl })))))))))))))))

  -- A response to a request for a journal is the only one that queues requests: all others leave
  -- the queue as it was, whether their processing throws or not, so that no change of the server
  -- is sent back to it.
  pub process_http3_response-silent :
      (c : Client S) (m : Http3TreeMessage)
      → m.signal ≢ Signals.get_journal_response
      → (process_http3_response B threads data_chunks (c, m)).1.0.pending_requests
        ≡ c.pending_requests
  unfolding process_http3_response
  process_http3_response-silent c m other =
      (process_signal-IsSilentHandler m.signal other).pending_kept c m
