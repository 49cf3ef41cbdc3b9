-- ===== src/Http3ClientBackend/Unsynced.antt =====
-- The changes of a client whose server synchronization is off reach the local backend alone.
use world_wide_anthropomorph.Base.{◌≡◌, refl, false, List, ℕ, Result, ok, err}
use world_wide_anthropomorph.Text.{Text}
use world_wide_anthropomorph.TreeNode.{TreeNode}
use world_wide_anthropomorph.Backend.{Backend, Exec}
use world_wide_anthropomorph.Http3TreeMessage.{Http3TreeMessage, Outcome}
use world_wide_anthropomorph.Http3TreeMessage.Requests
use world_wide_anthropomorph.Http3ClientBackend.State.{
  Client, Threads, on_local, send, await_bool_response,
}
use world_wide_anthropomorph.Http3ClientBackend.{upsert_node, delete_node}

module _ {S A : Type 0} (threads : Threads S) (encode : A → Http3TreeMessage → Outcome Unit)
    (await : A → Exec (Client S) A) (c : Client S) where
  -- What follows the local backend's answer and its new state.
  abbrev followed : Result A × S → Result A × Client S
  followed (r, s) = elim r [
    | ok a ↦ send threads (encode a) a (await a) (record c { local_backend = s })
    | err e ↦ (err e, record c { local_backend = s })
  ]

  followed-unsynced :
      (p : Result A × S)
      → c.server_sync_on ≡ false
      → followed p ≡ (p.0, record c { local_backend = p.1 })
  unfolding send
  followed-unsynced (ok a, s) off = rw (send, off) refl
  followed-unsynced (err e, s) off = refl

module _ {S : Type 0} (B : Backend S) (threads : Threads S)
    (data_chunks : TreeNode → List (List ℕ)) where
  pub upsert_node-unsynced :
      (nodes : List TreeNode) (c : Client S)
      → c.server_sync_on ≡ false
      → upsert_node B threads data_chunks nodes c ≡ on_local (B.upsert_node nodes) c
  unfolding upsert_node
  upsert_node-unsynced nodes c off =
      followed-unsynced threads (λ result. Requests.encode_upsert_node_request data_chunks nodes)
        (λ result. await_bool_response threads) c (B.upsert_node nodes c.local_backend) off

  pub delete_node-unsynced :
      (label_rule : Text) (c : Client S)
      → c.server_sync_on ≡ false
      → delete_node B threads data_chunks label_rule c ≡ on_local (B.delete_node label_rule) c
  unfolding delete_node
  delete_node-unsynced label_rule c off =
      followed-unsynced threads (λ result. Requests.encode_delete_node_request label_rule)
        (λ result. await_bool_response threads) c (B.delete_node label_rule c.local_backend) off
