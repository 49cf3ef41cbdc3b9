-- ===== src/Http3ClientBackend/Journal.antt =====
-- processOneNotification, updateLastNotification, and the case of a journal response of
-- processHTTP3Response, in common/backend_cpp/http3_client/http3_client_backend.cpp.
use world_wide_anthropomorph.Base.{
  ℕ, ◌+◌, ◌%◌, Bool, true, false, none, some, List, [], ◌∷◌, if◌then◌else◌, ◌==◌, ltb, ok, err,
  trap,
}
use world_wide_anthropomorph.TreeNode.{TreeNode}
use world_wide_anthropomorph.TreeNode.TextForm.{long_values}
use world_wide_anthropomorph.Backend.{Backend, Exec, ◌>>◌, pure}
use world_wide_anthropomorph.TreeMessage.Changes.{SequentialNotification}
use world_wide_anthropomorph.Http3ClientBackend.State.{
  Client, Threads, update, disable_server_sync, enable_server_sync,
}
use world_wide_anthropomorph.Http3ClientBackend.{
  upsert_node, delete_node, get_mutable_page_tree_in_mode,
}

-- The number of a notification that nobody asked for, -1 as a uint64_t.
abbrev pub unsolicited : ℕ
unsolicited = 18446744073709551615

-- updateLastNotification
unfoldable pub update_last_notification :
    {S : Type 0} → SequentialNotification → Exec (Client S) Unit
update_last_notification notification c =
    if notification.0 == unsolicited
    then (ok tt, c)
    else (ok tt, record c { notification_block = false; last_notification = notification })

-- The first loop over a journal: whether a number is missing after the current one.
unfoldable pub misses_number : ℕ → List SequentialNotification → Bool
misses_number current [] = false
misses_number current (notification ∷ notifications) =
    let skipped = misses_number current notifications in
    let rest = misses_number notification.0 notifications in
    if notification.0 == unsolicited
    then skipped
    else if ltb ((current + 1) % long_values) notification.0
    then true
    else rest

-- notificationGap
unfoldable pub notification_gap : ℕ → SequentialNotification → List SequentialNotification → Bool
unfolding misses_number
notification_gap last front notifications =
    if ltb last front.0 then true else misses_number front.0 (front ∷ notifications)

-- lastValidNotification after the second loop
unfoldable pub last_valid :
    SequentialNotification → List SequentialNotification → SequentialNotification
last_valid valid [] = valid
last_valid valid (notification ∷ notifications) =
    last_valid (if notification.0 == unsolicited then valid else notification) notifications

module _ {S : Type 0} (B : Backend S) (threads : Threads S)
    (data_chunks : TreeNode → List (List ℕ)) where
  -- processOneNotification
  unfoldable pub process_one_notification : SequentialNotification → Exec (Client S) Unit
  unfolding upsert_node delete_node disable_server_sync enable_server_sync
  process_one_notification (number, ([], changed)) = pure tt
  process_one_notification (number, (b ∷ label_rule, some node)) =
      disable_server_sync >> upsert_node B threads data_chunks (node ∷ []) >> enable_server_sync
  process_one_notification (number, (b ∷ label_rule, none)) =
      disable_server_sync
      >> delete_node B threads data_chunks (b ∷ label_rule)
      >> enable_server_sync

  -- The second loop over a journal, without a gap.
  unfoldable pub replay : List SequentialNotification → Exec (Client S) Unit
  unfolding process_one_notification
  replay [] = pure tt
  replay (notification ∷ notifications) =
      let rest = replay notifications in
      (λ c.
        if ltb c.last_notification.0 notification.0
        then process_one_notification notification c
        else (ok tt, c))
      >> rest

  -- The case of SIGNAL_WWATP_GET_JOURNAL_RESPONSE, once the journal is decoded. The front of an
  -- empty vector is read out of its range there.
  unfoldable pub process_journal : List SequentialNotification → Exec (Client S) Unit
  unfolding replay notification_gap last_valid update_last_notification
      get_mutable_page_tree_in_mode
  process_journal [] c = (err trap, c)
  process_journal (front ∷ notifications) c =
      ((if notification_gap c.last_notification.0 front notifications
            then get_mutable_page_tree_in_mode B threads data_chunks false true
            else (replay (front ∷ notifications)
                >> update (λ c. record c { notification_block = false })))
          >> update_last_notification (last_valid front notifications))
        c
