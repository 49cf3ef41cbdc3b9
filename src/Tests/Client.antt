-- ===== src/Tests/Client.antt =====
-- Tests of Http3ClientBackend, and examples for its theorems.
use world_wide_anthropomorph.Text.{text_eq, Text, bytes}
use world_wide_anthropomorph.TreeMessage.{
  decode_long_string, first_offset, chunks_after, can_decode_long_string, encode_long_string,
}
use world_wide_anthropomorph.TreeMessage.Nodes.{decode_maybe_tree_node}
use world_wide_anthropomorph.Http3TreeMessage.{decode_response, Http3TreeMessage, new_message}
use world_wide_anthropomorph.Base.{
  ◌<◌, ◌≡◌, refl, arith, true, false, none, some, List, [], ◌∷◌, ◌++◌, ok, map, ◌==◌, if◌then◌else◌,
}
use world_wide_anthropomorph.Backend.{Backend, pure}
use world_wide_anthropomorph.TreeMessage.Changes.{SequentialNotification}
use world_wide_anthropomorph.Http3TreeMessage.Signals
use world_wide_anthropomorph.Http3TreeMessage.Requests.{decode_apply_transaction_request}
use world_wide_anthropomorph.Http3TreeMessage.Responses.{decode_get_node_response}
use world_wide_anthropomorph.Http3TreeMessage.EndToEnd.{deliver}
use world_wide_anthropomorph.Http3ClientBackend.State.{Client, Threads, pop_next_request}
use world_wide_anthropomorph.Http3ClientBackend.{apply_transaction}
use world_wide_anthropomorph.Http3ClientBackend.Sending.{apply_transaction-reaches_server}
use world_wide_anthropomorph.Http3ClientBackend.Journal.{
  unsolicited, notification_gap, last_valid, process_journal,
}
use world_wide_anthropomorph.Http3ClientBackend.Replay.{apply_journal, process_journal-replays}
use world_wide_anthropomorph.Http3ClientBackend.Numbers.{
  Numbered, IsRun, numbered, ended, notification_gap-none, notification_gap-IsRun,
}
use world_wide_anthropomorph.Http3ClientBackend.Process.{process_http3_response}
use world_wide_anthropomorph.Http3ClientBackend.Silent.{process_http3_response-silent}
use world_wide_anthropomorph.Tests.{home}
use world_wide_anthropomorph.Tests.Wire.{two_pieces, edit, edit_codes, edit_fits}

-- A backend that keeps the labels that are written and deleted.
abbrev labels : Backend (List Text)
labels = record {
  get_node = λ s label_rule. ok none;
  upsert_node = λ nodes s. (ok true, s ++ map (λ node. node.label_rule) nodes);
  delete_node = λ label_rule s. (ok true, s ++ label_rule ∷ []);
  get_page_tree = λ s rule. ok [];
  relative_get_page_tree = λ s node rule. ok [];
  query_nodes = λ s rule. ok [];
  relative_query_nodes = λ s node rule. ok [];
  open_transaction_layer = λ node. pure false;
  close_transaction_layers = pure false;
  apply_transaction = λ transaction s. (ok true, s ++ map (λ sub. sub.parent.label) transaction);
  get_full_tree = λ s. ok [];
  register_node_listener = λ name rule child callback. pure tt;
  deregister_node_listener = λ name rule. pure tt;
  notify_listeners = λ rule node. pure tt;
  process_notifications = pure tt;
}

-- No other thread runs.
abbrev alone : Threads (List Text)
alone = record { until_response = λ c. c; until_cleared = λ c. c }

abbrev client : Client (List Text)
client = record {
  local_backend = [];
  need_mutable_page_tree_sync = false;
  last_notification = (5, (bytes "a", none));
  mutable_page_tree_label_rule = bytes "MutableNodes";
  server_sync_on = true;
  blocking_mode = false;
  response_ready = false;
  bool_response = false;
  maybe_tree_response = none;
  vector_tree_response = [];
  chunks_response = [];
  is_wwatp = true;
  pending_requests = [];
  journal_request_waiting = true;
  static_node = none;
  notification_block = true;
}

-- A journal of which the client knows the first notification.
abbrev known : SequentialNotification
known = (5, (bytes "a", none))

abbrev news : List SequentialNotification
news = (6, (bytes "a", some home)) ∷ (7, (bytes "b", none)) ∷ []

news-IsRun : IsRun 5 news
news-IsRun = numbered refl refl (omega arith) (numbered refl refl (omega arith) ended)

no_gap : notification_gap 5 known news ≡ false
no_gap = notification_gap-IsRun 5 known news (omega arith) (omega arith) news-IsRun

news_applied : apply_journal labels 5 (known ∷ news) [] ≡ (ok tt, home.label_rule ∷ bytes "b" ∷ [])
unfolding apply_journal
news_applied = refl

process_journal-replays_example : process_journal labels alone two_pieces (known ∷ news) client ≡ (
  ok tt,
  record client {
    local_backend = home.label_rule ∷ bytes "b" ∷ [];
    notification_block = false;
    last_notification =
        if (last_valid known news).0 == unsolicited
        then client.last_notification
        else last_valid known news;
  },
)
process_journal-replays_example =
    process_journal-replays labels alone two_pieces known news client
      (home.label_rule ∷ bytes "b" ∷ []) refl no_gap news_applied

six_kept : 6 < (last_valid known news).0
unfolding last_valid
six_kept = omega arith

notification_gap-none_example : Numbered 6 (known ∷ news)
notification_gap-none_example =
    notification_gap-none 5 6 known news (omega arith) no_gap (omega arith)
      (omega (arith, six_kept))

-- A journal in which the number after the client's last is missing.
abbrev late : SequentialNotification
late = (7, (bytes "b", none))

-- A response that says that there is no node.
abbrev no_node : Http3TreeMessage
no_node = record (new_message 4) {
  signal = Signals.get_node_response;
  response_chunks = encode_long_string 4 Signals.get_node_response (bytes "Nothing");
  response_complete = true;
}

no_node_decoded :
    decode_get_node_response no_node ≡ (record no_node { processing_finished = true }, ok none)
unfolding decode_get_node_response decode_response decode_maybe_tree_node can_decode_long_string
    encode_long_string chunks_after first_offset decode_long_string text_eq
no_node_decoded = refl

process_http3_response-silent_example :
    (process_http3_response labels alone two_pieces (client, no_node)).1.0.pending_requests ≡ []
process_http3_response-silent_example =
    process_http3_response-silent labels alone two_pieces client no_node
      (λ e. absurd (omega (arith, e)))

apply_transaction-reaches_server_example :
    let (answer, c) = apply_transaction labels alone two_pieces edit client in
    let (popped, c') = pop_next_request c in
    (answer ≡ ok true)
    × (c.local_backend ≡ bytes "lib/story" ∷ [])
    × (c'.pending_requests ≡ [])
    × ((request : Http3TreeMessage) × (popped ≡ ok request)
        × ((deliver 300 request).request_id ≡ 300)
        × (decode_apply_transaction_request (deliver 300 request) ≡ ok edit))
apply_transaction-reaches_server_example =
    apply_transaction-reaches_server labels alone two_pieces edit edit_codes client 300
      (omega arith) edit_fits refl refl refl
