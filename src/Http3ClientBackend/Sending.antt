-- ===== src/Http3ClientBackend/Sending.antt =====
-- The requests that a client queues, and what a server has of them.
use world_wide_anthropomorph.Base.{
  ℕ, ◌<◌, ◌≡◌, refl, ap, ◌∙◌, true, false, List, [], ◌∷◌, ◌++◌, All, length, ok, not, ◌||◌,
  if◌then◌else◌,
}
use world_wide_anthropomorph.TreeNode.{TreeNode, Transaction}
use world_wide_anthropomorph.TreeNode.TextForm.{long_values}
use world_wide_anthropomorph.Backend.{Backend, ◌>>=◌, pure, bind_ok}
use world_wide_anthropomorph.TreeMessage.Transactions.Coded.{transaction_codec}
use world_wide_anthropomorph.TreeMessage.Transactions.Sent.{
  SubCodes, transaction_chunks, transaction_chunks-IsCoded,
}
use world_wide_anthropomorph.TreeMessage.Codec.{IsCoded}
use world_wide_anthropomorph.Http3TreeMessage.{
  Http3TreeMessage, Outcome, new_message, encode_request,
}
use world_wide_anthropomorph.Http3TreeMessage.Signals
use world_wide_anthropomorph.Http3TreeMessage.Requests.{
  encode_apply_transaction_request, decode_apply_transaction_request,
}
use world_wide_anthropomorph.Http3TreeMessage.EndToEnd.{
  deliver, decode_apply_transaction_request-deliver,
}
use world_wide_anthropomorph.Http3ClientBackend.State.{
  Client, Threads, on_local, await_bool_response, queue, tell_server, pop_next_request,
}
use world_wide_anthropomorph.Http3ClientBackend.{apply_transaction}

-- Requests whose encoders do not throw.
pub queue_ok :
    {S : Type 0} (encode : Http3TreeMessage → Outcome Unit) (c : Client S)
    → (encode (new_message 0)).1 ≡ ok tt
    → queue encode c ≡ (
      ok tt,
      record c { pending_requests = c.pending_requests ++ (encode (new_message 0)).0 ∷ [] },
    )
unfolding queue
queue_ok encode c e = rw (queue, e) refl

tell_server_ok :
    {S : Type 0} (encode : Http3TreeMessage → Outcome Unit) (c : Client S)
    → c.server_sync_on ≡ true
    → (encode (new_message 0)).1 ≡ ok tt
    → tell_server encode c ≡ (
      ok tt,
      record c { pending_requests = c.pending_requests ++ (encode (new_message 0)).0 ∷ [] },
    )
unfolding tell_server
tell_server_ok encode c on e =
    ap (λ b. if b then queue encode c else (ok tt, c)) on ∙ queue_ok encode c e

module _ {S : Type 0} (B : Backend S) (threads : Threads S)
    (data_chunks : TreeNode → List (List ℕ)) where
  abbrev pub transaction_request : Transaction → Http3TreeMessage
  transaction_request transaction =
      (encode_apply_transaction_request data_chunks transaction (new_message 0)).0

  request_encoded :
      (transaction : Transaction) (codes : All (SubCodes data_chunks) transaction)
      → length transaction < long_values
      → (encode_apply_transaction_request data_chunks transaction (new_message 0)).1 ≡ ok tt
  unfolding encode_apply_transaction_request encode_request new_message
  request_encoded transaction codes few =
      let coded : IsCoded (transaction_codec data_chunks 0 Signals.apply_transaction_request)
          transaction
          (transaction_chunks data_chunks Signals.apply_transaction_request 0 transaction codes) =
        transaction_chunks-IsCoded data_chunks Signals.apply_transaction_request 0 transaction codes
          few in
      rw coded.encoded refl

  abbrev queued : Transaction → Client S → Client S
  queued transaction c = record c {
    pending_requests = c.pending_requests ++ transaction_request transaction ∷ [];
  }

  apply_transaction-queued :
      (transaction : Transaction) (codes : All (SubCodes data_chunks) transaction) (c : Client S)
      → length transaction < long_values
      → c.server_sync_on ≡ true
      → c.blocking_mode ≡ false
      → apply_transaction B threads data_chunks transaction c
        ≡ on_local (B.apply_transaction transaction) (queued transaction c)
  unfolding apply_transaction
  apply_transaction-queued transaction codes c few on free =
      bind_ok (tell_server (encode_apply_transaction_request data_chunks transaction))
        (λ u c.
          if not c.blocking_mode || not c.server_sync_on
          then on_local (B.apply_transaction transaction) c
          else (await_bool_response threads >>= λ answer.
                if answer then on_local (B.apply_transaction transaction) else pure false)
              c)
        (tell_server_ok (encode_apply_transaction_request data_chunks transaction) c on
          (request_encoded transaction codes few))
      ∙ ap
          (λ b.
            if not b || not c.server_sync_on
            then on_local (B.apply_transaction transaction) (queued transaction c)
            else (await_bool_response threads >>= λ answer.
                  if answer then on_local (B.apply_transaction transaction) else pure false)
                (queued transaction c))
          free

  -- What a client that does not block, is in step with its server and has no older request does
  -- with a transaction whose parts fit their encodings: its local backend is the one that the
  -- transaction is applied to, the answer is that backend's, and the one request that is popped
  -- then is decoded by a server that gets its chunks, under the number set last, to the transaction.
  pub apply_transaction-reaches_server :
      (transaction : Transaction) (codes : All (SubCodes data_chunks) transaction) (c : Client S)
      (id : ℕ)
      → length transaction < long_values
      → length
          (transaction_chunks data_chunks Signals.apply_transaction_request id transaction codes)
        < long_values
      → c.server_sync_on ≡ true
      → c.blocking_mode ≡ false
      → c.pending_requests ≡ []
      → let applied = B.apply_transaction transaction c.local_backend in
        let (answer, c') = apply_transaction B threads data_chunks transaction c in
        let (popped, c'') = pop_next_request c' in
        (answer ≡ applied.0)
        × (c'.local_backend ≡ applied.1)
        × (c''.pending_requests ≡ [])
        × ((request : Http3TreeMessage) × (popped ≡ ok request)
            × ((deliver id request).request_id ≡ id)
            × (decode_apply_transaction_request (deliver id request) ≡ ok transaction))
  unfolding pop_next_request
  apply_transaction-reaches_server transaction codes c id few fits on free none_pending =
      let e : apply_transaction B threads data_chunks transaction c
          ≡ on_local (B.apply_transaction transaction) (queued transaction c) =
        apply_transaction-queued transaction codes c few on free in
      let (same_id, decoded) =
        decode_apply_transaction_request-deliver data_chunks 0 id transaction codes few fits in
      let pending : (apply_transaction B threads data_chunks transaction c).1.pending_requests
          ≡ transaction_request transaction ∷ [] =
        ap (λ p. p.1.pending_requests) e
        ∙ ap (λ (rs : List Http3TreeMessage). rs ++ transaction_request transaction ∷ [])
            none_pending in
      (
        ap (λ p. p.0) e,
        ap (λ p. p.1.local_backend) e,
        rw (pop_next_request, pending) refl,
        (transaction_request transaction, rw (pop_next_request, pending) refl, same_id, decoded),
      )
