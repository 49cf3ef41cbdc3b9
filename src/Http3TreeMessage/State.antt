-- ===== src/Http3TreeMessage/State.antt =====
-- The states that a message goes through between two resets.
use world_wide_anthropomorph.Http3TreeMessage.{
  close_stream, signal_type, retag, payload_type, no_header_type, Http3TreeMessage, new_message,
  encode_request, encode_response, decode_response, setup_static_node_data_request, set_request_id,
  pop_request_chunk, append_request_chunk, push_request_chunk, after_request_push,
  can_decode_request, get_signal, pop_response_chunk, push_response_chunk, push_response_payload,
  after_response_push, can_decode_response,
}
use world_wide_anthropomorph.Base.{
  subst, map, Result-cases, ℕ, suc, ◌<◌, ◌≡◌, refl, ap, sym, ◌⊎◌, inl, inr, Bool, true, Option,
  none, some, List, [], ◌∷◌, ◌++◌, arith, length, length-append, Result, ok, err, Bool-cases, ◌==◌,
  if◌then◌else◌,
}
use world_wide_anthropomorph.TreeMessage.{PayloadChunk, ChunkList}

-- One operation on a message, but for reset. The encoders and decoders of all methods are calls of
-- the shared ones, and marks of a request as complete or as a journal request.
pub data Step (m : Http3TreeMessage) : Http3TreeMessage → Type 1 where
  request_encoded :
      (signal : ℕ) (encode : ℕ → Result ChunkList) → Step m (encode_request signal encode m).0
  response_encoded :
      (signal : ℕ) (encode : ℕ → Result ChunkList) → Step m (encode_response signal encode m).0
  response_decoded :
      {A : Type 0} (decode : ChunkList → Result A) → Step m (decode_response decode m).0
  marked_complete : Step m (record m { request_complete = true })
  marked_journal : (b : Bool) → Step m (record m { is_journal_request = b })
  static_set_up : (allocated : List ℕ) → Step m (setup_static_node_data_request allocated m).0
  number_set : (id : ℕ) → Step m (set_request_id id m)
  request_popped : Step m (pop_request_chunk m).0
  request_pushed : (chunk : PayloadChunk) → Step m (push_request_chunk chunk m).0
  response_popped : Step m (pop_response_chunk m).0
  response_pushed : (chunk : PayloadChunk) → Step m (push_response_chunk chunk m).0

pub data Reach (m : Http3TreeMessage) : Http3TreeMessage → Type 1 where
  here : Reach m m
  next : {n k : Http3TreeMessage} → Reach m n → Step n k → Reach m k

-- A message with request chunks is initialized, and the processing of a response ends only when the
-- response is complete.
pub record IsSound (m : Http3TreeMessage) : Type 0 where
  pub chunks_initialized : 0 < length m.request_chunks → m.is_initialized ≡ true
  pub finished_complete : m.processing_finished ≡ true → m.response_complete ≡ true

-- What one message has reached, the other has too.
pub record Keeps (m n : Http3TreeMessage) : Type 0 where
  pub initialized_kept : m.is_initialized ≡ true → n.is_initialized ≡ true
  pub request_kept : m.request_complete ≡ true → n.request_complete ≡ true
  pub response_kept : m.response_complete ≡ true → n.response_complete ≡ true
  pub finished_kept : m.processing_finished ≡ true → n.processing_finished ≡ true

Keeps-trans : {m n k : Http3TreeMessage} → Keeps m n → Keeps n k → Keeps m k
Keeps-trans a b = record {
  initialized_kept = λ e. b.initialized_kept (a.initialized_kept e);
  request_kept = λ e. b.request_kept (a.request_kept e);
  response_kept = λ e. b.response_kept (a.response_kept e);
  finished_kept = λ e. b.finished_kept (a.finished_kept e);
}

Keeps-refl : (m : Http3TreeMessage) → Keeps m m
Keeps-refl m = ground arith

-- The parts of the two pushes.
after_request_push-Keeps :
    (m : Http3TreeMessage) (r : Result (Option ℕ)) → Keeps m (after_request_push m r).0
unfolding after_request_push
after_request_push-Keeps m (err e) = Keeps-refl m
after_request_push-Keeps m (ok none) = Keeps-refl m
after_request_push-Keeps m (ok (some end)) = ground arith

after_request_push-IsSound :
    (m : Http3TreeMessage) (r : Result (Option ℕ)) → IsSound m → IsSound (after_request_push m r).0
unfolding after_request_push
after_request_push-IsSound m (err e) h = h
after_request_push-IsSound m (ok none) h = h
after_request_push-IsSound m (ok (some end)) h = ground (arith, h)

after_response_push-Keeps :
    (s : ℕ) (m : Http3TreeMessage) (r : Result (Option ℕ)) → Keeps m (after_response_push s m r).0
unfolding after_response_push
after_response_push-Keeps s m (err e) = Keeps-refl m
after_response_push-Keeps s m (ok none) = Keeps-refl m
after_response_push-Keeps s m (ok (some end)) = ground arith

after_response_push-IsSound :
    (s : ℕ) (m : Http3TreeMessage) (r : Result (Option ℕ))
    → IsSound m
    → IsSound (after_response_push s m r).0
unfolding after_response_push
after_response_push-IsSound s m (err e) h = h
after_response_push-IsSound s m (ok none) h = h
after_response_push-IsSound s m (ok (some end)) h = ground (arith, h)

append_request_chunk-Keeps :
    (chunk : PayloadChunk) (m : Http3TreeMessage) → Keeps m (append_request_chunk chunk m)
unfolding append_request_chunk
append_request_chunk-Keeps chunk m = ground arith

append_request_chunk-IsSound :
    (chunk : PayloadChunk) (m : Http3TreeMessage)
    → IsSound m
    → IsSound (append_request_chunk chunk m)
unfolding append_request_chunk
append_request_chunk-IsSound chunk m h =
    ground (arith, h, length-append m.request_chunks (chunk ∷ []))

-- A push of a request chunk leaves the message alone, or adds the chunk and may complete it.
push_request-cases :
    (chunk : PayloadChunk) (m : Http3TreeMessage)
    → ((push_request_chunk chunk m).0 ≡ m)
      ⊎ ((r : Result (Option ℕ)) × ((push_request_chunk chunk m).0
            ≡ (after_request_push (append_request_chunk chunk m) r).0))
unfolding push_request_chunk
push_request-cases chunk m = elim (Result-cases (get_signal chunk)) [
  | inl (s, e) ↦ inr (
    can_decode_request s (append_request_chunk chunk m).request_chunks,
    rw (push_request_chunk, e) refl,
  )
  | inr (t, e) ↦ inl (rw (push_request_chunk, e) refl)
]

push_request-IsSound :
    (chunk : PayloadChunk) (m : Http3TreeMessage)
    → IsSound m
    → IsSound (push_request_chunk chunk m).0
push_request-IsSound chunk m h = elim (push_request-cases chunk m) [
  | inl e ↦ rw e h
  | inr (r, e) ↦ rw e (
      after_request_push-IsSound (append_request_chunk chunk m) r
        (append_request_chunk-IsSound chunk m h))
]

push_request-Keeps :
    (chunk : PayloadChunk) (m : Http3TreeMessage) → Keeps m (push_request_chunk chunk m).0
push_request-Keeps chunk m = elim (push_request-cases chunk m) [
  | inl e ↦ subst (Keeps m) (sym e) (Keeps-refl m)
  | inr (r, e) ↦ subst (Keeps m) (sym e) (
      Keeps-trans (append_request_chunk-Keeps chunk m)
        (after_request_push-Keeps (append_request_chunk chunk m) r))
]

-- The state of a push of a response chunk with a payload, before the switch.
abbrev with_response : PayloadChunk → Http3TreeMessage → Http3TreeMessage
with_response chunk m = record m { response_chunks = m.response_chunks ++ chunk ∷ [] }

push_response-cases :
    (chunk : PayloadChunk) (m : Http3TreeMessage)
    → ((push_response_chunk chunk m).0 ≡ m)
      ⊎ (((push_response_chunk chunk m).0 ≡ record m { response_complete = true })
          ⊎ (((push_response_chunk chunk m).0 ≡ with_response chunk m)
              ⊎ ((r : Result (Option ℕ)) × ((push_response_chunk chunk m).0
                    ≡ (after_response_push chunk.signal (with_response chunk m) r).0))))
unfolding push_response_chunk push_response_payload
push_response-cases chunk m = elim (Bool-cases (chunk.signal_type == no_header_type)) [
  | inl e ↦ rw (push_response_chunk, e) (inr (inr (inl refl)))
  | inr e ↦ elim (Bool-cases (chunk.signal_type == signal_type)) [
    | inl e' ↦ elim (Bool-cases (chunk.signal == close_stream)) [
      | inl e'' ↦ rw (push_response_chunk, e, e', e'') (inr (inl refl))
      | inr e'' ↦ rw (push_response_chunk, e, e', e'') (inl refl)
    ]
    | inr e' ↦
        rw (push_response_chunk, e, e')
          (inr
            (inr (inr (can_decode_response chunk.signal (m.response_chunks ++ chunk ∷ []), refl))))
  ]
]

push_response-IsSound :
    (chunk : PayloadChunk) (m : Http3TreeMessage)
    → IsSound m
    → IsSound (push_response_chunk chunk m).0
push_response-IsSound chunk m h = elim (push_response-cases chunk m) [
  | inl e ↦ rw e h
  | inr (inl e) ↦ rw e (ground (arith, h))
  | inr (inr (inl e)) ↦ rw e (ground (arith, h))
  | inr (inr (inr (r, e))) ↦
      let pushed : IsSound (with_response chunk m) = ground (arith, h) in
      rw e (after_response_push-IsSound chunk.signal (with_response chunk m) r pushed)
]

push_response-Keeps :
    (chunk : PayloadChunk) (m : Http3TreeMessage) → Keeps m (push_response_chunk chunk m).0
push_response-Keeps chunk m = elim (push_response-cases chunk m) [
  | inl e ↦ subst (Keeps m) (sym e) (Keeps-refl m)
  | inr (inl e) ↦ subst (Keeps m) (sym e) (ground arith)
  | inr (inr (inl e)) ↦ subst (Keeps m) (sym e) (ground arith)
  | inr (inr (inr (r, e))) ↦
      let pushed : Keeps m (with_response chunk m) = ground arith in
      subst (Keeps m) (sym e)
        (Keeps-trans pushed (after_response_push-Keeps chunk.signal (with_response chunk m) r))
]

length-map : (f : PayloadChunk → PayloadChunk) (cs : ChunkList) → length (map f cs) ≡ length cs
length-map f [] = refl
length-map f (c ∷ cs) = ap suc (length-map f cs)

set_request_id-IsSound : (id : ℕ) (m : Http3TreeMessage) → IsSound m → IsSound (set_request_id id m)
unfolding set_request_id
set_request_id-IsSound id m h = record {
  chunks_initialized = λ some_chunk. h.chunks_initialized (
      omega (
        arith,
        some_chunk,
        length-map (λ chunk. if chunk.signal_type == payload_type then retag id chunk else chunk)
            m.request_chunks,
      ));
  finished_complete = h.finished_complete;
}

-- One step, for both properties.
Step-Keeps : {m n : Http3TreeMessage} → Step m n → Keeps m n
unfolding encode_request encode_response decode_response setup_static_node_data_request
    set_request_id pop_request_chunk pop_response_chunk
Step-Keeps {m} (request_encoded signal encode) = ground arith
Step-Keeps {m} (response_encoded signal encode) = ground arith
Step-Keeps {m} (response_decoded decode) = ground arith
Step-Keeps {m} marked_complete = ground arith
Step-Keeps {m} (marked_journal b) = ground arith
Step-Keeps {m} (static_set_up allocated) = ground arith
Step-Keeps {m} (number_set id) = ground arith
Step-Keeps {m} request_popped = ground arith
Step-Keeps {m} (request_pushed chunk) = push_request-Keeps chunk m
Step-Keeps {m} response_popped = ground arith
Step-Keeps {m} (response_pushed chunk) = push_response-Keeps chunk m

Step-IsSound : {m n : Http3TreeMessage} → Step m n → IsSound m → IsSound n
unfolding encode_request encode_response decode_response setup_static_node_data_request
    set_request_id pop_request_chunk pop_response_chunk
Step-IsSound {m} (request_encoded signal encode) h = ground (arith, h)
Step-IsSound {m} (response_encoded signal encode) h = ground (arith, h)
Step-IsSound {m} (response_decoded decode) h = ground (arith, h)
Step-IsSound {m} marked_complete h = ground (arith, h)
Step-IsSound {m} (marked_journal b) h = ground (arith, h)
Step-IsSound {m} (static_set_up allocated) h = ground (arith, h)
Step-IsSound {m} (number_set id) h = set_request_id-IsSound id m h
Step-IsSound {m} request_popped h = ground (arith, h)
Step-IsSound {m} (request_pushed chunk) h = push_request-IsSound chunk m h
Step-IsSound {m} response_popped h = ground (arith, h)
Step-IsSound {m} (response_pushed chunk) h = push_response-IsSound chunk m h

-- Between two resets no operation takes back that a message is initialized, complete in its request
-- or its response, or finished, whatever chunks come and in whatever order.
pub Reach-Keeps : {m n : Http3TreeMessage} → Reach m n → Keeps m n
Reach-Keeps {m} here = Keeps-refl m
Reach-Keeps (next r step) = Keeps-trans (Reach-Keeps r) (Step-Keeps step)

-- Of a sound message every operation but reset makes a sound one: one with request chunks is
-- initialized, and a response is processed to its end only once it is complete.
pub Reach-IsSound : {m n : Http3TreeMessage} → IsSound m → Reach m n → IsSound n
Reach-IsSound h here = h
Reach-IsSound h (next r step) = Step-IsSound step (Reach-IsSound h r)

pub new_message-IsSound : (id : ℕ) → IsSound (new_message id)
unfolding new_message
new_message-IsSound id = ground arith
