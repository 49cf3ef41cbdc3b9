-- ===== src/Http3TreeMessage/Transfer.antt =====
-- A request that is sent chunk by chunk: it is complete with its last chunk and not before.
use world_wide_anthropomorph.Base.{
  take-drop, All-take, subst, inr, inl, Bool-cases, length-take, ℕ, zero, suc, ◌+◌, ◌<◌, ◌≤◌, ◌≡◌,
  refl, ap, sym, ◌∙◌, true, false, none, some, [], ◌∷◌, ◌++◌, map, arith, All, length, take, drop,
  length-append, take-append, leb, ◌==◌, if◌then◌else◌, ok, err,
}
use world_wide_anthropomorph.Http3TreeMessage.{
  after_request_push, Http3TreeMessage, Outcome, append_request_chunk, push_request_chunk,
  pop_request_chunk, can_decode_request, get_signal, set_request_id,
}
use mathlib.Core.List.{append_assoc, append-nil}
use world_wide_anthropomorph.TreeNode.TextForm.{long_values}
use world_wide_anthropomorph.TreeMessage.{PayloadChunk, ChunkList, payload_type, retag}
use world_wide_anthropomorph.TreeMessage.Codec.{Codec, IsCoded, IsTagged}

-- The chunks that are pushed one after the other, up to a throw.
unfoldable pub receive : ChunkList → Http3TreeMessage → Outcome Unit
receive [] m = (m, ok tt)
receive (chunk ∷ chunks) m =
    let pushed = push_request_chunk chunk m in
    elim pushed.1 [ err thrown ↦ pushed | ok done ↦ receive chunks pushed.0 ]

-- The chunks that are popped until none is left, on the rounds left.
unfoldable pub pop_all : ℕ → Http3TreeMessage → ChunkList
pop_all zero m = []
pop_all (suc rounds) m =
    let popped = pop_request_chunk m in
    elim popped.1 [ none ↦ [] | some chunk ↦ chunk ∷ pop_all rounds popped.0 ]

-- Popping gives the chunks of a request in their order.
pub pop_all-chunks :
    (m : Http3TreeMessage) (chunks : ChunkList)
    → m.request_chunks ≡ chunks
    → pop_all (length chunks) m ≡ chunks
unfolding pop_all pop_request_chunk
pop_all-chunks m [] e = refl
pop_all-chunks m (c ∷ cs) e =
    let popped : pop_request_chunk m ≡ (record m { request_chunks = cs }, some c) =
      rw (pop_request_chunk, e) refl in
    rw (pop_all, popped)
      (rw popped (ap (λ t. c ∷ t) (pop_all-chunks (record m { request_chunks = cs }) cs refl)))

module _ {X : Type 0} (c : Codec X) (x : X) (chunks : ChunkList) (h : IsCoded c x chunks)
    (fits : length chunks < long_values)
    (accepts : (cs : ChunkList) → can_decode_request c.signal cs ≡ c.can_decode 0 cs) where
  -- A message that has received the first chunks of the request.
  pub record Progress (m : Http3TreeMessage) (part : ChunkList) : Type 0 where
    pub kept : m.request_chunks ≡ part
    pub completion : m.request_complete ≡ leb (length chunks) (length part)
    pub begun : 0 < length part → (m.is_initialized ≡ true) × (m.request_id ≡ c.request_id)

  -- What the switch says of the first chunks.
  found_or_awaited :
      (part tail : ChunkList)
      → part ++ tail ≡ chunks
      → can_decode_request c.signal part
        ≡ ok (if leb (length chunks) (length part) then some (length chunks) else none)
  found_or_awaited part [] e =
      let same : part ≡ chunks = sym (append-nil part) ∙ e in
      let all : leb (length chunks) (length part) ≡ true =
        ground (arith, ap (λ (t : ChunkList). length t) same) in
      accepts part
      ∙ ap (λ t. c.can_decode 0 t) (same ∙ sym (append-nil chunks))
      ∙ h.found [] [] (omega (arith, fits))
      ∙ rw all (ap (λ n. ok (some n)) (omega arith))
  found_or_awaited part (next ∷ tail) e =
      let size : length part + suc (length tail) ≡ length chunks =
        omega (arith, length-append part (next ∷ tail), ap (λ (t : ChunkList). length t) e) in
      let short : leb (length chunks) (length part) ≡ false = ground (arith, size) in
      let same : part ≡ take (length part) chunks =
        sym (take-append part (next ∷ tail)) ∙ ap (take (length part)) e in
      accepts part
      ∙ ap (λ t. c.can_decode 0 t) same
      ∙ h.awaited [] (length part) (omega (arith, fits)) (omega (arith, size))
      ∙ rw short refl

  -- The state behind the switch, where one chunk more has come.
  after_push :
      (pushed : Http3TreeMessage) (part : ChunkList)
      → pushed.request_chunks ≡ part
      → pushed.request_complete ≡ false
      → (pushed.is_initialized ≡ true) × (pushed.request_id ≡ c.request_id)
      → let r =
          after_request_push pushed
            (ok (if leb (length chunks) (length part) then some (length chunks) else none)) in
        (r.1 ≡ ok tt) × Progress r.0 part
  unfolding after_request_push
  after_push pushed part kept open_still begun =
      elim (Bool-cases (leb (length chunks) (length part))) [
        | inl e ↦ rw e (refl, record { kept = kept; completion = rw e refl; begun = λ _. begun })
        | inr e ↦
            rw e (refl, record { kept = kept; completion = rw e open_still; begun = λ _. begun })
      ]

  -- The chunk at the end.
  append_begun :
      (m : Http3TreeMessage) (part : ChunkList) (a : PayloadChunk)
      → Progress m part
      → IsTagged c.request_id c.signal a
      → let pushed = append_request_chunk a m in
        (pushed.request_chunks ≡ part ++ a ∷ [])
        × (pushed.request_complete ≡ m.request_complete)
        × (pushed.is_initialized ≡ true)
        × (pushed.request_id ≡ c.request_id)
  unfolding append_request_chunk
  append_begun m [] a p t = rw (append_request_chunk, p.kept) (refl, refl, refl, t.id_same)
  append_begun m (b ∷ part) a p t =
      let several : (suc (length (part ++ a ∷ [])) == 1) ≡ false =
        ground (arith, length-append part (a ∷ [])) in
      let (started, same) = p.begun (omega arith) in
      rw (append_request_chunk, p.kept, several) (refl, refl, started, same)

  push_step :
      (m : Http3TreeMessage) (part tail : ChunkList) (a : PayloadChunk)
      → Progress m part
      → IsTagged c.request_id c.signal a
      → (part ++ a ∷ []) ++ tail ≡ chunks
      → ((push_request_chunk a m).1 ≡ ok tt) × Progress (push_request_chunk a m).0 (part ++ a ∷ [])
  unfolding push_request_chunk get_signal
  push_step m part tail a p t e =
      let pushed : Http3TreeMessage = append_request_chunk a m in
      let (kept, same, started, id) = append_begun m part a p t in
      let signal : get_signal a ≡ ok c.signal = rw (get_signal, t.type_same, t.signal_same) refl in
      let size : length part + suc (length tail) ≡ length chunks = omega (
        arith,
        length-append (part ++ a ∷ []) tail,
        length-append part (a ∷ []),
        ap (λ (s : ChunkList). length s) e,
      ) in
      let short : leb (length chunks) (length part) ≡ false = ground (arith, size) in
      let whole : push_request_chunk a m
          ≡ after_request_push pushed (
              ok (
                if leb (length chunks) (length (part ++ a ∷ []))
                then some (length chunks)
                else none)) =
        rw (push_request_chunk, signal)
          (ap (λ s. after_request_push pushed (can_decode_request c.signal s)) kept
            ∙ ap (after_request_push pushed) (found_or_awaited (part ++ a ∷ []) tail e)) in
      rw whole (after_push pushed (part ++ a ∷ []) kept (same ∙ p.completion ∙ short) (started, id))

  receive_part :
      (rest part tail : ChunkList) (m : Http3TreeMessage)
      → Progress m part
      → All (IsTagged c.request_id c.signal) rest
      → (part ++ rest) ++ tail ≡ chunks
      → ((receive rest m).1 ≡ ok tt) × Progress (receive rest m).0 (part ++ rest)
  unfolding receive
  receive_part [] part tail m p ts e = (refl, subst (Progress m) (sym (append-nil part)) p)
  receive_part (a ∷ rest) part tail m p (t, ts) e =
      let joined : (part ++ a ∷ []) ++ rest ≡ part ++ (a ∷ rest) =
        append_assoc part (a ∷ []) rest in
      let split : (part ++ a ∷ []) ++ (rest ++ tail) ≡ chunks =
        sym (append_assoc (part ++ a ∷ []) rest tail) ∙ ap (λ s. s ++ tail) joined ∙ e in
      let (fine, next) = push_step m part (rest ++ tail) a p t split in
      let pushed : Http3TreeMessage = (push_request_chunk a m).0 in
      let (done, last) =
        receive_part rest (part ++ a ∷ []) tail pushed next ts (ap (λ s. s ++ tail) joined ∙ e) in
      rw (receive, fine) (done, subst (Progress (receive rest pushed).0) joined last)

  -- A message that has received nothing.
  abbrev pub IsFresh : Http3TreeMessage → Type 0
  IsFresh m = (m.request_chunks ≡ []) × (m.request_complete ≡ false)

  fresh-Progress : (m : Http3TreeMessage) → IsFresh m → Progress m []
  fresh-Progress m (empty, incomplete) =
      let short : leb (length chunks) 0 ≡ false = ground (arith, h.filled) in
      record {
        kept = empty;
        completion = incomplete ∙ sym short;
        begun = λ some_chunk. absurd (omega (arith, some_chunk));
      }

  -- Of a request whose chunks are coded, a message that has received nothing takes any first chunks
  -- without a throw, and is complete where these are all of them and not before.
  pub receive-take :
      (m : Http3TreeMessage) (k : ℕ)
      → IsFresh m
      → k ≤ length chunks
      → ((receive (take k chunks) m).1 ≡ ok tt)
        × ((receive (take k chunks) m).0.request_complete ≡ leb (length chunks) k)
  receive-take m k fresh less =
      let (done, p) =
        receive_part (take k chunks) [] (drop k chunks) m (fresh-Progress m fresh)
          (All-take (IsTagged c.request_id c.signal) k chunks h.tagged) (take-drop k chunks) in
      (done, p.completion ∙ ap (leb (length chunks)) (length-take k chunks less))

  -- After all of its chunks the request is decoded, and has its number.
  pub receive-decode :
      (m : Http3TreeMessage)
      → IsFresh m
      → let received = (receive chunks m).0 in
        (received.request_complete ≡ true)
        × (received.request_id ≡ c.request_id)
        × (c.decode received.request_chunks ≡ ok (length chunks, x))
  receive-decode m fresh =
      let (done, p) =
        receive_part chunks [] [] m (fresh-Progress m fresh) h.tagged (append-nil chunks) in
      let all : leb (length chunks) (length chunks) ≡ true = ground arith in
      (
        p.completion ∙ all,
        (p.begun h.filled).1,
        ap c.decode (p.kept ∙ sym (append-nil chunks)) ∙ h.decoded [],
      )

-- A number that is set replaces the one of each payload chunk.
retag-all :
    (r s id : ℕ) (chunks : ChunkList)
    → All (IsTagged r s) chunks
    → map (λ chunk. if chunk.signal_type == payload_type then retag id chunk else chunk) chunks
      ≡ map (retag id) chunks
retag-all r s id [] ts = refl
retag-all r s id (a ∷ chunks) (t, ts) =
    let payload : (a.signal_type == payload_type) ≡ true = ground (arith, t.type_same) in
    ap
      (λ b.
        (if b then retag id a else a)
        ∷ map (λ chunk. if chunk.signal_type == payload_type then retag id chunk else chunk) chunks)
      payload
    ∙ ap (λ cs. retag id a ∷ cs) (retag-all r s id chunks ts)

pub set_request_id-chunks :
    (r s id : ℕ) (m : Http3TreeMessage) (chunks : ChunkList)
    → m.request_chunks ≡ chunks
    → All (IsTagged r s) chunks
    → (set_request_id id m).request_chunks ≡ map (retag id) chunks
unfolding set_request_id
set_request_id-chunks r s id m chunks e ts = rw e (retag-all r s id chunks ts)
