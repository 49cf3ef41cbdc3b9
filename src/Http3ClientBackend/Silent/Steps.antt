-- ===== src/Http3ClientBackend/Silent/Steps.antt =====
-- Steps that queue no request, and how they follow one another.
use world_wide_anthropomorph.Base.{
  ℕ, zero, suc, ◌≡◌, refl, ap, ◌∙◌, Bool, false, some, List, [], ◌∷◌, ◌++◌, if◌then◌else◌,
  Bool-cases, inl, inr, Result, ok, err,
}
use world_wide_anthropomorph.Backend.{Exec, ◌>>=◌, ◌>>◌, pure}
use world_wide_anthropomorph.TreeMessage.{ChunkList}
use world_wide_anthropomorph.Http3TreeMessage.{Http3TreeMessage, Outcome, pop_response_chunk}
use world_wide_anthropomorph.Http3ClientBackend.State.{Client, update, response_signal}
use world_wide_anthropomorph.Http3ClientBackend.Process.{
  Handler, on_client, on_message, signal_or, process_bool, take_chunks,
}

-- A step that leaves the queue of requests alone, and one that does where the synchronization is
-- off, which it leaves off.
pub record IsSilent {S A : Type 0} (f : Exec (Client S) A) : Type 0 where
  pub pending_kept : (c : Client S) → (f c).1.pending_requests ≡ c.pending_requests

pub record IsSilentOff {S A : Type 0} (f : Exec (Client S) A) : Type 0 where
  pub pending_kept :
      (c : Client S) → c.server_sync_on ≡ false → (f c).1.pending_requests ≡ c.pending_requests
  pub off_kept : (c : Client S) → c.server_sync_on ≡ false → (f c).1.server_sync_on ≡ false

pub record IsSilentHandler {S A : Type 0} (f : Handler S A) : Type 0 where
  pub pending_kept :
      (c : Client S) (m : Http3TreeMessage) → (f (c, m)).1.0.pending_requests ≡ c.pending_requests

module _ {A C : Type 0} where
  -- Steps in a row.
  pub bind-pending :
      {T X : Type 0} (pending : T → X) (p : Result A × T) (k : A → Exec T C) (before : X)
      → pending p.1 ≡ before
      → ((a : A) (t : T) → pending (k a t).1 ≡ pending t)
      → pending (elim p.0 as (λ r. Result C × T) [ ok a ↦ k a p.1 | err e ↦ (err e, p.1) ]).1
        ≡ before
  bind-pending pending (ok a, t) k before e h = h a t ∙ e
  bind-pending pending (err thrown, t) k before e h = e

  pub bind-off :
      {S : Type 0} (p : Result A × Client S) (k : A → Exec (Client S) C)
      → p.1.server_sync_on ≡ false
      → ((a : A) → IsSilentOff (k a))
      → (elim p.0 as (λ r. Result C × Client S) [
        | ok a ↦ k a p.1
        | err e ↦ (err e, p.1)
      ]).1.server_sync_on
        ≡ false
  bind-off (ok a, t) k e h = (h a).off_kept t e
  bind-off (err thrown, t) k e h = e

module _ {S A C : Type 0} where
  pub bind-IsSilent :
      (f : Exec (Client S) A) (k : A → Exec (Client S) C)
      → IsSilent f
      → ((a : A) → IsSilent (k a))
      → IsSilent (f >>= k)
  bind-IsSilent f k hf hk = record {
    pending_kept = λ c.
        bind-pending (λ (c : Client S). c.pending_requests) (f c) k c.pending_requests
          (hf.pending_kept c) (λ a t. (hk a).pending_kept t);
  }

  pub bind-IsSilentHandler :
      (f : Handler S A) (k : A → Handler S C)
      → IsSilentHandler f
      → ((a : A) → IsSilentHandler (k a))
      → IsSilentHandler (f >>= k)
  bind-IsSilentHandler f k hf hk = record {
    pending_kept = λ c m.
        bind-pending (λ (p : Client S × Http3TreeMessage). p.0.pending_requests) (f (c, m)) k
          c.pending_requests (hf.pending_kept c m) (λ a (c', m'). (hk a).pending_kept c' m');
  }

  pub bind-pending_off :
      (p : Result A × Client S) (k : A → Exec (Client S) C) (before : List Http3TreeMessage)
      → p.1.pending_requests ≡ before
      → p.1.server_sync_on ≡ false
      → ((a : A) → IsSilentOff (k a))
      → (elim p.0 as (λ r. Result C × Client S) [
        | ok a ↦ k a p.1
        | err e ↦ (err e, p.1)
      ]).1.pending_requests
        ≡ before
  bind-pending_off (ok a, t) k before e off h = (h a).pending_kept t off ∙ e
  bind-pending_off (err thrown, t) k before e off h = e

  pub bind-IsSilentOff :
      (f : Exec (Client S) A) (k : A → Exec (Client S) C)
      → IsSilentOff f
      → ((a : A) → IsSilentOff (k a))
      → IsSilentOff (f >>= k)
  bind-IsSilentOff f k hf hk = record {
    pending_kept = λ c off.
        bind-pending_off (f c) k c.pending_requests (hf.pending_kept c off) (hf.off_kept c off) hk;
    off_kept = λ c off. bind-off (f c) k (hf.off_kept c off) hk;
  }

module _ {S A : Type 0} where
  pub on_client-IsSilentHandler :
      (f : Exec (Client S) A) → IsSilent f → IsSilentHandler (on_client f)
  on_client-IsSilentHandler f h = record { pending_kept = λ c m. h.pending_kept c }

  pub on_message-IsSilentHandler :
      (f : Http3TreeMessage → Outcome A) → IsSilentHandler (on_message {S = S} f)
  on_message-IsSilentHandler f = record { pending_kept = λ c m. refl }

  pub pure-IsSilent : (a : A) → IsSilent {S = S} (pure a)
  pure-IsSilent a = record { pending_kept = λ c. refl }

module _ {S : Type 0} where
  pub signal_or-IsSilent :
      (otherwise : Exec (Client S) Unit) → IsSilent otherwise → IsSilent (signal_or otherwise)
  unfolding signal_or response_signal
  signal_or-IsSilent otherwise h = record {
    pending_kept = λ c. elim (Bool-cases c.blocking_mode) [
      | inl e ↦ ap (λ b. (if b then response_signal c else otherwise c).1.pending_requests) e
      | inr e ↦
          ap (λ b. (if b then response_signal c else otherwise c).1.pending_requests) e
          ∙ h.pending_kept c
    ];
  }

  pub process_bool-IsSilentHandler :
      (decode : Http3TreeMessage → Outcome Bool) → IsSilentHandler (process_bool {S = S} decode)
  unfolding process_bool
  process_bool-IsSilentHandler decode =
      bind-IsSilentHandler (on_message decode)
        (λ success.
          on_client (update (λ c. record c { bool_response = success }) >> signal_or (pure tt)))
        (on_message-IsSilentHandler decode)
        (λ success. record {
          pending_kept = λ c m.
              (signal_or-IsSilent (pure tt) (pure-IsSilent tt)).pending_kept
                (record c { bool_response = success });
        })

  pub taken :
      (f : ℕ) (c : Client S) (m : Http3TreeMessage) (chunks : ChunkList)
      → IsSilentHandler (take_chunks {S = S} f)
      → m.response_chunks ≡ chunks
      → (take_chunks (suc f) (c, m)).1.0.pending_requests ≡ c.pending_requests
  unfolding take_chunks pop_response_chunk
  taken f c m [] h e = rw (take_chunks, pop_response_chunk, e) refl
  taken f c m (chunk ∷ chunks) h e =
      let popped : (pop_response_chunk m).1 ≡ some chunk = rw (pop_response_chunk, e) refl in
      rw (take_chunks, popped)
        (h.pending_kept (record c { chunks_response = c.chunks_response ++ chunk ∷ [] })
          (pop_response_chunk m).0)

  pub take_chunks-IsSilentHandler : (f : ℕ) → IsSilentHandler (take_chunks {S = S} f)
  unfolding take_chunks
  take_chunks-IsSilentHandler zero = record { pending_kept = λ c m. refl }
  take_chunks-IsSilentHandler (suc f) = record {
    pending_kept = λ c m. taken f c m m.response_chunks (take_chunks-IsSilentHandler f) refl;
  }
