-- ===== src/Http3TreeMessage/EndToEnd.antt =====
-- From the encoder of a request over its chunks to the decoder.
use world_wide_anthropomorph.Base.{ℕ, ◌<◌, ◌≡◌, refl, ap, ◌∙◌, List, All, length, ok}
use world_wide_anthropomorph.TreeNode.{TreeNode, Transaction}
use world_wide_anthropomorph.TreeNode.TextForm.{long_values}
use world_wide_anthropomorph.TreeMessage.{ChunkList}
use world_wide_anthropomorph.TreeMessage.Transactions.Coded.{transaction_codec}
use world_wide_anthropomorph.TreeMessage.Transactions.Sent.{
  SubCodes, transaction_chunks, transaction_chunks-IsCoded, retag-transaction_chunks,
}
use world_wide_anthropomorph.TreeMessage.Codec.{IsCoded}
use world_wide_anthropomorph.Http3TreeMessage.{
  Http3TreeMessage, new_message, set_request_id, encode_request, decode_request, can_decode_request,
}
use world_wide_anthropomorph.Http3TreeMessage.Signals
use world_wide_anthropomorph.Http3TreeMessage.Requests.{
  encode_apply_transaction_request, decode_apply_transaction_request,
}
use world_wide_anthropomorph.Http3TreeMessage.Transfer.{
  receive, pop_all, pop_all-chunks, receive-decode, set_request_id-chunks,
}

-- The message that a server has, once all chunks of a client's message have been popped and pushed.
unfoldable pub deliver : ℕ → Http3TreeMessage → Http3TreeMessage
deliver id m =
    let sent = set_request_id id m in
    (receive (pop_all (length sent.request_chunks) sent) (new_message 0)).0

module _ (data_chunks : TreeNode → List (List ℕ)) where
  sent_chunks :
      (r id : ℕ) (transaction : Transaction) (c : All (SubCodes data_chunks) transaction)
      → length transaction < long_values
      → let m = (encode_apply_transaction_request data_chunks transaction (new_message r)).0 in
        (set_request_id id m).request_chunks
        ≡ transaction_chunks data_chunks Signals.apply_transaction_request id transaction c
  unfolding encode_apply_transaction_request encode_request new_message
  sent_chunks r id transaction c h =
      let s : ℕ = Signals.apply_transaction_request in
      let chunks : ChunkList = transaction_chunks data_chunks s r transaction c in
      let coded : IsCoded (transaction_codec data_chunks r s) transaction chunks =
        transaction_chunks-IsCoded data_chunks s r transaction c h in
      set_request_id-chunks r s id
        ((encode_apply_transaction_request data_chunks transaction (new_message r)).0) chunks
        (rw coded.encoded refl) coded.tagged
      ∙ retag-transaction_chunks data_chunks s id r transaction c

  -- A transaction whose parts fit their encodings, and of fewer chunks than a size_t counts, is the
  -- transaction that the server decodes, under the number that the client gave to the request last.
  pub decode_apply_transaction_request-deliver :
      (r id : ℕ) (transaction : Transaction) (c : All (SubCodes data_chunks) transaction)
      → length transaction < long_values
      → length (transaction_chunks data_chunks Signals.apply_transaction_request id transaction c)
        < long_values
      → let client = (encode_apply_transaction_request data_chunks transaction (new_message r)).0 in
        ((deliver id client).request_id ≡ id)
        × (decode_apply_transaction_request (deliver id client) ≡ ok transaction)
  unfolding deliver decode_apply_transaction_request decode_request new_message can_decode_request
  decode_apply_transaction_request-deliver r id transaction c h fits =
      let s : ℕ = Signals.apply_transaction_request in
      let chunks : ChunkList = transaction_chunks data_chunks s id transaction c in
      let client : Http3TreeMessage =
        (encode_apply_transaction_request data_chunks transaction (new_message r)).0 in
      let sent : Http3TreeMessage = set_request_id id client in
      let e : sent.request_chunks ≡ chunks = sent_chunks r id transaction c h in
      let popped : pop_all (length sent.request_chunks) sent ≡ chunks =
        ap (λ (cs : ChunkList). pop_all (length cs) sent) e ∙ pop_all-chunks sent chunks e in
      let coded : IsCoded (transaction_codec data_chunks id s) transaction chunks =
        transaction_chunks-IsCoded data_chunks s id transaction c h in
      let (complete, same_id, decoded) =
        receive-decode (transaction_codec data_chunks id s) transaction chunks coded fits
          (λ cs. refl) (new_message 0) (refl, refl) in
      let delivered : deliver id client ≡ (receive chunks (new_message 0)).0 =
        ap (λ cs. (receive cs (new_message 0)).0) popped in
      rw delivered
        (same_id, rw (decode_apply_transaction_request, decode_request, complete, decoded) refl)
