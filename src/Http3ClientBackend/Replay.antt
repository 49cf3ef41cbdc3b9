-- ===== src/Http3ClientBackend/Replay.antt =====
-- A journal response without a gap, against the same changes of the local backend alone.
use world_wide_anthropomorph.Base.{
  ℕ, ◌≡◌, refl, ap, sym, ◌∙◌, Bool, true, false, none, some, List, [], ◌∷◌, ltb, ◌==◌,
  if◌then◌else◌, Bool-cases, inl, inr, Result, ok, err,
}
use world_wide_anthropomorph.TreeNode.{TreeNode}
use world_wide_anthropomorph.Backend.{Backend, Exec, ◌>>◌, pure, bind_ok, bind_steps}
use world_wide_anthropomorph.TreeMessage.Changes.{SequentialNotification}
use world_wide_anthropomorph.Http3ClientBackend.State.{
  Client, Threads, update, disable_server_sync, enable_server_sync,
}
use world_wide_anthropomorph.Http3ClientBackend.{
  get_mutable_page_tree_in_mode, upsert_node, delete_node,
}
use world_wide_anthropomorph.Http3ClientBackend.Unsynced.{
  upsert_node-unsynced, delete_node-unsynced,
}
use world_wide_anthropomorph.Http3ClientBackend.Journal.{
  unsolicited, update_last_notification, notification_gap, last_valid, process_one_notification,
  replay, process_journal,
}

-- What a notification and a journal say of a tree: the changes that are numbered after the last.
unfoldable pub apply_notification : {S : Type 0} → Backend S → SequentialNotification → Exec S Unit
apply_notification B (number, ([], changed)) = pure tt
apply_notification B (number, (b ∷ label_rule, some node)) = B.upsert_node (node ∷ []) >> pure tt
apply_notification B (number, (b ∷ label_rule, none)) = B.delete_node (b ∷ label_rule) >> pure tt

unfoldable pub apply_journal :
    {S : Type 0} → Backend S → ℕ → List SequentialNotification → Exec S Unit
unfolding apply_notification
apply_journal B last [] = pure tt
apply_journal B last (notification ∷ notifications) =
    (if ltb last notification.0 then apply_notification B notification else pure tt)
    >> apply_journal B last notifications

module _ {S : Type 0} (B : Backend S) (threads : Threads S)
    (data_chunks : TreeNode → List (List ℕ)) where
  abbrev unblocked : Exec (Client S) Unit
  unblocked = update (λ c. record c { notification_block = false })

  stored_last :
      (valid : SequentialNotification) (c : Client S)
      → update_last_notification valid (record c { notification_block = false }) ≡ (
        ok tt,
        record c {
          notification_block = false;
          last_notification = if valid.0 == unsolicited then c.last_notification else valid;
        },
      )
  unfolding update_last_notification
  stored_last valid c = elim (Bool-cases (valid.0 == unsolicited)) [
    | inl e ↦ rw (update_last_notification, e) refl
    | inr e ↦ rw (update_last_notification, e) refl
  ]

  -- A change of the local backend between the two switches.
  switched :
      (c : Client S) (change : Exec (Client S) Bool) (p : Result Bool × S) (s : S)
      → c.server_sync_on ≡ true
      → change (record c { server_sync_on = false })
        ≡ (p.0, record c { server_sync_on = false; local_backend = p.1 })
      → (elim p.0 as (λ r. Result (Unit {0}) × S) [ ok a ↦ (ok tt, p.1) | err e ↦ (err e, p.1) ])
        ≡ (ok tt, s)
      → (disable_server_sync >> change >> enable_server_sync) c
        ≡ (ok tt, record c { local_backend = s })
  unfolding disable_server_sync enable_server_sync
  switched c change (err e, t) s on h done = absurd (cc (ap (λ q. q.0) done))
  switched c change (ok a, t) s on h done =
      bind_ok change (λ x. enable_server_sync) h
      ∙ ap (λ b. (ok tt, record c { server_sync_on = b; local_backend = t })) (sym on)
      ∙ ap (λ q. (ok tt, record c { local_backend = q.1 })) done

  process_one_notification-local :
      (notification : SequentialNotification) (c : Client S) (s : S)
      → c.server_sync_on ≡ true
      → apply_notification B notification c.local_backend ≡ (ok tt, s)
      → process_one_notification B threads data_chunks notification c
        ≡ (ok tt, record c { local_backend = s })
  unfolding process_one_notification apply_notification
  process_one_notification-local (number, ([], changed)) c s on done =
      ap (λ q. (ok tt, record c { local_backend = q.1 })) done
  process_one_notification-local (number, (b ∷ label_rule, some node)) c s on done =
      switched c (upsert_node B threads data_chunks (node ∷ []))
        (B.upsert_node (node ∷ []) c.local_backend) s on
        (upsert_node-unsynced B threads data_chunks (node ∷ [])
          (record c { server_sync_on = false }) refl)
        done
  process_one_notification-local (number, (b ∷ label_rule, none)) c s on done =
      switched c (delete_node B threads data_chunks (b ∷ label_rule))
        (B.delete_node (b ∷ label_rule) c.local_backend) s on
        (delete_node-unsynced B threads data_chunks (b ∷ label_rule)
          (record c { server_sync_on = false }) refl)
        done

  replay_one :
      (notification : SequentialNotification) (c : Client S) (s : S)
      → c.server_sync_on ≡ true
      → (if ltb c.last_notification.0 notification.0
            then apply_notification B notification
            else pure tt)
          c.local_backend
        ≡ (ok tt, s)
      → (if ltb c.last_notification.0 notification.0
          then process_one_notification B threads data_chunks notification c
          else (ok tt, c))
        ≡ (ok tt, record c { local_backend = s })
  replay_one notification c s on done =
      elim (Bool-cases (ltb c.last_notification.0 notification.0)) [
        | inl e ↦ rw e (process_one_notification-local notification c s on (cc (rw e at done)))
        | inr e ↦ rw e (ap (λ q. (ok tt, record c { local_backend = q.1 })) (rw e at done))
      ]

  replay-local :
      (notifications : List SequentialNotification) (c : Client S) (s : S)
      → c.server_sync_on ≡ true
      → apply_journal B c.last_notification.0 notifications c.local_backend ≡ (ok tt, s)
      → replay B threads data_chunks notifications c ≡ (ok tt, record c { local_backend = s })
  unfolding replay apply_journal
  replay-local [] c s on done = ap (λ q. (ok tt, record c { local_backend = q.1 })) done
  replay-local (notification ∷ notifications) c s on done =
      let (u, t, first, rest) =
        bind_steps
          (if ltb c.last_notification.0 notification.0
            then apply_notification B notification
            else pure tt)
          (λ u. apply_journal B c.last_notification.0 notifications) done in
      bind_ok
        (λ c.
          if ltb c.last_notification.0 notification.0
          then process_one_notification B threads data_chunks notification c
          else (ok tt, c))
        (λ u. replay B threads data_chunks notifications) (replay_one notification c t on first)
      ∙ replay-local notifications (record c { local_backend = t }) s on rest

  -- Where no number is missing and the changes of the journal do not throw on the local backend,
  -- a client that is in step with its server makes just those that are numbered after its last
  -- notification, in their order. It queues no request, no longer blocks, and keeps the journal's
  -- last solicited notification.
  pub process_journal-replays :
      (front : SequentialNotification) (notifications : List SequentialNotification) (c : Client S)
      (s : S)
      → c.server_sync_on ≡ true
      → notification_gap c.last_notification.0 front notifications ≡ false
      → apply_journal B c.last_notification.0 (front ∷ notifications) c.local_backend ≡ (ok tt, s)
      → let valid = last_valid front notifications in
        process_journal B threads data_chunks (front ∷ notifications) c ≡ (
          ok tt,
          record c {
            local_backend = s;
            notification_block = false;
            last_notification = if valid.0 == unsolicited then c.last_notification else valid;
          },
        )
  unfolding process_journal update_last_notification
  process_journal-replays front notifications c s on no_gap done =
      let replayed : replay B threads data_chunks (front ∷ notifications) c
          ≡ (ok tt, record c { local_backend = s }) =
        replay-local (front ∷ notifications) c s on done in
      ap
        (λ gap.
          ((if gap
                then get_mutable_page_tree_in_mode B threads data_chunks false true
                else (replay B threads data_chunks (front ∷ notifications) >> unblocked))
              >> update_last_notification (last_valid front notifications))
            c)
        no_gap
      ∙ bind_ok (replay B threads data_chunks (front ∷ notifications) >> unblocked)
          (λ u. update_last_notification (last_valid front notifications))
          (bind_ok (replay B threads data_chunks (front ∷ notifications)) (λ u. unblocked) replayed)
      ∙ stored_last (last_valid front notifications) (record c { local_backend = s })
