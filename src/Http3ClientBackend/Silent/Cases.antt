-- ===== src/Http3ClientBackend/Silent/Cases.antt =====
-- The changes of a client that its server asks for, and the responses of chunks and page trees.
use world_wide_anthropomorph.Base.{
  ℕ, suc, ◌≡◌, refl, ap, ◌∙◌, Bool, true, false, Option, none, some, List, [], ◌∷◌, if◌then◌else◌,
  Result, length, map,
}
use world_wide_anthropomorph.Text.{Text}
use world_wide_anthropomorph.TreeNode.{TreeNode}
use world_wide_anthropomorph.Backend.{Backend, Exec, ◌>>◌, pure}
use world_wide_anthropomorph.SharedSpan.Restrict.{all_bytes}
use world_wide_anthropomorph.TreeMessage.{ChunkList}
use world_wide_anthropomorph.Http3TreeMessage.Responses
use world_wide_anthropomorph.Http3TreeMessage.{Http3TreeMessage}
use world_wide_anthropomorph.Http3ClientBackend.State.{
  Client, Threads, on_local, update, disable_server_sync, enable_server_sync,
}
use world_wide_anthropomorph.Http3ClientBackend.{upsert_node, delete_node, set_node_chunks}
use world_wide_anthropomorph.Http3ClientBackend.Unsynced.{
  upsert_node-unsynced, delete_node-unsynced,
}
use world_wide_anthropomorph.Http3ClientBackend.Process.{
  on_client, on_message, signal_or, take_chunks, unsynced, process_nodes, process_other,
  process_page_tree,
}
use world_wide_anthropomorph.Http3ClientBackend.Silent.Steps.{
  IsSilent, IsSilentOff, IsSilentHandler, bind-pending, bind-IsSilentHandler,
  on_message-IsSilentHandler, signal_or-IsSilent, take_chunks-IsSilentHandler,
}

module _ {S : Type 0} (B : Backend S) (threads : Threads S)
    (data_chunks : TreeNode → List (List ℕ)) where
  pub upsert_node-IsSilentOff :
      (nodes : List TreeNode) → IsSilentOff (upsert_node B threads data_chunks nodes)
  upsert_node-IsSilentOff nodes = record {
    pending_kept = λ c off.
        ap (λ p. p.1.pending_requests) (upsert_node-unsynced B threads data_chunks nodes c off);
    off_kept = λ c off.
        ap (λ p. p.1.server_sync_on) (upsert_node-unsynced B threads data_chunks nodes c off) ∙ off;
  }

  pub delete_node-IsSilentOff :
      (label_rule : Text) → IsSilentOff (delete_node B threads data_chunks label_rule)
  delete_node-IsSilentOff label_rule = record {
    pending_kept = λ c off.
        ap (λ p. p.1.pending_requests)
          (delete_node-unsynced B threads data_chunks label_rule c off);
    off_kept = λ c off.
        ap (λ p. p.1.server_sync_on) (delete_node-unsynced B threads data_chunks label_rule c off)
        ∙ off;
  }

  pub unsynced-IsSilent :
      {A : Type 0} (change : Exec (Client S) A) → IsSilentOff change → IsSilent (unsynced change)
  unfolding unsynced disable_server_sync enable_server_sync
  unsynced-IsSilent change h = record {
    pending_kept = λ c.
        bind-pending (λ (c : Client S). c.pending_requests)
          (change (record c { server_sync_on = false })) (λ a. enable_server_sync)
          c.pending_requests (h.pending_kept (record c { server_sync_on = false }) refl)
          (λ a t. refl);
  }

  pub static_filled :
      {X : Type 0} (part : Client S → X) (chunks : ChunkList) (c : Client S)
      (node : Option TreeNode)
      → c.static_node ≡ node
      → ((s : S) (n : Option TreeNode) (d : Client S)
          → part (record d { local_backend = s; static_node = n }) ≡ part d)
      → part (set_node_chunks B chunks c).1 ≡ part c
  unfolding set_node_chunks
  static_filled part chunks c none e h =
      rw (set_node_chunks, e) (ap (λ n. part (record c { static_node = n })) e)
  static_filled part chunks c (some node) e h =
      let filled : TreeNode = record node {
        property_data = all_bytes (map (λ chunk. chunk.payload) chunks);
      } in
      let p : Result Bool × S = B.upsert_node (filled ∷ []) c.local_backend in
      rw (set_node_chunks, e)
        (bind-pending part
            (on_local (B.upsert_node (filled ∷ [])) (record c { static_node = some filled }))
            (λ a. pure tt) (part c) (h p.1 (some filled) c) (λ a t. refl)
          ∙ ap (λ n. part (record c { static_node = n })) e)

  pub set_node_chunks-IsSilentOff : (chunks : ChunkList) → IsSilentOff (set_node_chunks B chunks)
  set_node_chunks-IsSilentOff chunks = record {
    pending_kept = λ c off.
        static_filled (λ (c : Client S). c.pending_requests) chunks c c.static_node refl
          (λ s n d. refl);
    off_kept = λ c off.
        static_filled (λ (c : Client S). c.server_sync_on) chunks c c.static_node refl
          (λ s n d. refl)
        ∙ off;
  }

  pub process_nodes-IsSilentHandler :
      (change : List TreeNode → Exec (Client S) Unit) (nodes : List TreeNode)
      → IsSilent (change nodes)
      → IsSilentHandler (process_nodes change nodes)
  unfolding process_nodes
  process_nodes-IsSilentHandler change nodes h = record {
    pending_kept = λ c m.
        (signal_or-IsSilent (change nodes) h).pending_kept
          (record c { vector_tree_response = nodes });
  }

  pub nodes_changed :
      (nodes : List TreeNode) → IsSilent (unsynced (upsert_node B threads data_chunks nodes))
  nodes_changed nodes =
      unsynced-IsSilent (upsert_node B threads data_chunks nodes) (upsert_node-IsSilentOff nodes)

  pub process_other-IsSilentHandler : IsSilentHandler (process_other B threads data_chunks)
  unfolding process_other
  process_other-IsSilentHandler = record {
    pending_kept = λ c m.
        bind-pending (λ (p : Client S × Http3TreeMessage). p.0.pending_requests)
          (take_chunks (suc (length m.response_chunks)) (c, m))
          (λ u. on_client (signal_or (λ c. unsynced (set_node_chunks B c.chunks_response) c)))
          c.pending_requests
          ((take_chunks-IsSilentHandler (suc (length m.response_chunks))).pending_kept c m)
          (λ u (c', m').
            (signal_or-IsSilent (λ c. unsynced (set_node_chunks B c.chunks_response) c)
                (record {
                  pending_kept = λ c.
                      (unsynced-IsSilent (set_node_chunks B c.chunks_response)
                          (set_node_chunks-IsSilentOff c.chunks_response)).pending_kept
                        c;
                })).pending_kept
              c');
  }

  pub page_tree_processed :
      (nodes : List TreeNode) (c : Client S) (m : Http3TreeMessage) (b : Bool)
      → (if b
          then on_client
              (unsynced (upsert_node B threads data_chunks nodes)
                >> update (λ c. record c { notification_block = false }))
              (c, m)
          else process_nodes
              (λ nodes. unsynced (upsert_node B threads data_chunks nodes))
              nodes
              (c, m)).1.0.pending_requests
        ≡ c.pending_requests
  page_tree_processed nodes c m true =
      bind-pending (λ (c : Client S). c.pending_requests)
        (unsynced (upsert_node B threads data_chunks nodes) c)
        (λ u. update (λ c. record c { notification_block = false })) c.pending_requests
        ((nodes_changed nodes).pending_kept c) (λ u t. refl)
  page_tree_processed nodes c m false =
      (process_nodes-IsSilentHandler (λ nodes. unsynced (upsert_node B threads data_chunks nodes))
          nodes (nodes_changed nodes)).pending_kept
        c m

  pub process_page_tree-IsSilentHandler : IsSilentHandler (process_page_tree B threads data_chunks)
  unfolding process_page_tree
  process_page_tree-IsSilentHandler =
      bind-IsSilentHandler (on_message Responses.decode_get_page_tree_response)
        (λ nodes (c, m).
          if m.is_journal_request
          then on_client
              (unsynced (upsert_node B threads data_chunks nodes)
                >> update (λ c. record c { notification_block = false }))
              (c, m)
          else process_nodes (λ nodes. unsynced (upsert_node B threads data_chunks nodes)) nodes
              (c, m))
        (on_message-IsSilentHandler Responses.decode_get_page_tree_response)
        (λ nodes. record {
          pending_kept = λ c m. page_tree_processed nodes c m m.is_journal_request;
        })
