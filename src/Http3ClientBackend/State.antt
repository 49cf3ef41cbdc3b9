-- ===== src/Http3ClientBackend/State.antt =====
-- The members of Http3ClientBackend, in common/backend_cpp/http3_client/http3_client_backend.h, its
-- queue of requests, and its waits for responses.
use world_wide_anthropomorph.Base.{
  none, Bool, true, false, not, Option, List, [], ◌∷◌, ◌++◌, if◌then◌else◌, ok, err,
  no_pending_request,
}
use world_wide_anthropomorph.Text.{Text}
use world_wide_anthropomorph.TreeNode.{TreeNode}
use world_wide_anthropomorph.Backend.{Exec, ◌>>◌}
use world_wide_anthropomorph.TreeMessage.{ChunkList}
use world_wide_anthropomorph.TreeMessage.Changes.{SequentialNotification}
use world_wide_anthropomorph.Http3TreeMessage.{Http3TreeMessage, Outcome, new_message}

-- class Http3ClientBackend, over the state of its local backend
pub record Client (S : Type 0) : Type 0 where
  pub local_backend : S
  pub need_mutable_page_tree_sync : Bool
  pub last_notification : SequentialNotification
  pub mutable_page_tree_label_rule : Text
  pub server_sync_on : Bool
  pub blocking_mode : Bool
  pub response_ready : Bool
  pub bool_response : Bool
  pub maybe_tree_response : Option TreeNode
  pub vector_tree_response : List TreeNode
  pub chunks_response : ChunkList
  pub is_wwatp : Bool
  pub pending_requests : List Http3TreeMessage
  pub journal_request_waiting : Bool
  pub static_node : Option TreeNode
  pub notification_block : Bool

-- What the other threads do to a client until a response has been signalled, and until the block
-- of notifications is cleared.
pub record Threads (S : Type 0) : Type 0 where
  pub until_response : Client S → Client S
  pub until_cleared : Client S → Client S

-- A step on the local backend.
abbrev pub on_local : {S A : Type 0} → Exec S A → Exec (Client S) A
on_local f c = let (r, s) = f c.local_backend in (r, record c { local_backend = s })

abbrev pub update : {S : Type 0} → (Client S → Client S) → Exec (Client S) Unit
update f c = (ok tt, f c)

-- A new request at the end of pendingRequests_, if its encoder does not throw.
unfoldable pub queue : {S : Type 0} → (Http3TreeMessage → Outcome Unit) → Exec (Client S) Unit
queue encode c =
    let (request, r) = encode (new_message 0) in
    elim r [
      | err e ↦ (err e, c)
      | ok u ↦ (ok tt, record c { pending_requests = c.pending_requests ++ request ∷ [] })
    ]

-- disableServerSync and enableServerSync
unfoldable pub disable_server_sync : {S : Type 0} → Exec (Client S) Unit
disable_server_sync = update (λ c. record c { server_sync_on = false })

unfoldable pub enable_server_sync : {S : Type 0} → Exec (Client S) Unit
enable_server_sync = update (λ c. record c { server_sync_on = true })

-- responseSignal
unfoldable pub response_signal : {S : Type 0} → Exec (Client S) Unit
response_signal = update (λ c. record c { response_ready = true })

-- popNextRequest
unfoldable pub pop_next_request : {S : Type 0} → Exec (Client S) Http3TreeMessage
pop_next_request c = elim c.pending_requests [
  | [] ↦ (err no_pending_request, c)
  | request ∷ requests ↦ (ok request, record c { pending_requests = requests })
]

-- hasNextRequest
unfoldable pub has_next_request : {S : Type 0} → Client S → Bool
has_next_request c = elim c.pending_requests [ [] ↦ false | request ∷ requests ↦ true ]

-- setMutablePageTreeLabelRule
unfoldable pub set_mutable_page_tree_label_rule : {S : Type 0} → Text → Exec (Client S) Unit
set_mutable_page_tree_label_rule label_rule =
    update (λ c. record c { mutable_page_tree_label_rule = label_rule })

-- setJournalRequestComplete
unfoldable pub set_journal_request_complete : {S : Type 0} → Exec (Client S) Unit
set_journal_request_complete = update (λ c. record c { journal_request_waiting = false })

module _ {S : Type 0} (threads : Threads S) where
  -- awaitResponse
  unfoldable pub await_response : Exec (Client S) Unit
  await_response = update (λ c. threads.until_response (record c { response_ready = false }))

  -- awaitBoolResponse
  unfoldable pub await_bool_response : Exec (Client S) Bool
  unfolding await_response
  await_bool_response =
      await_response >> (λ c. (ok c.bool_response, record c { bool_response = false }))

  -- awaitTreeResponse
  unfoldable pub await_tree_response : Exec (Client S) (Option TreeNode)
  unfolding await_response
  await_tree_response =
      await_response >> (λ c. (ok c.maybe_tree_response, record c { maybe_tree_response = none }))

  -- awaitVectorTreeResponse
  unfoldable pub await_vector_tree_response : Exec (Client S) (List TreeNode)
  unfolding await_response
  await_vector_tree_response =
      await_response >> (λ c. (ok c.vector_tree_response, record c { vector_tree_response = [] }))

  -- awaitChunksResponse
  unfoldable pub await_chunks_response : Exec (Client S) ChunkList
  unfolding await_response
  await_chunks_response =
      await_response >> (λ c. (ok c.chunks_response, record c { chunks_response = [] }))

  -- What follows a change of the local backend: the request to the server, and the wait for its
  -- response in blocking mode.
  unfoldable pub send :
      {A : Type 0} → (Http3TreeMessage → Outcome Unit) → A → Exec (Client S) A → Exec (Client S) A
  unfolding queue
  send encode result await c =
      if not c.server_sync_on
      then (ok result, c)
      else (queue encode >> (λ c. if not c.blocking_mode then (ok result, c) else await c)) c

-- The request to the server of a method that does not wait.
unfoldable pub tell_server : {S : Type 0} → (Http3TreeMessage → Outcome Unit) → Exec (Client S) Unit
unfolding queue
tell_server encode c = if c.server_sync_on then queue encode c else (ok tt, c)
