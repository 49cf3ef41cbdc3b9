-- ===== src/Http3TreeMessage/Signals.antt =====
-- common/transport/include/shared_chunk.h: the signals of the three kinds of headers.
use world_wide_anthropomorph.Base.{ℕ}

-- GLOBAL_SIGNAL_TYPE of a chunk without a header and of a signal; SIGNAL_CLOSE_STREAM of the latter.
abbrev pub no_header_type : ℕ
no_header_type = 0

abbrev pub signal_type : ℕ
signal_type = 1

abbrev pub close_stream : ℕ
close_stream = 1

abbrev pub other_chunk : ℕ
other_chunk = 0

abbrev pub placeholder : ℕ
placeholder = 255

abbrev pub get_node_request : ℕ
get_node_request = 7

abbrev pub get_node_response : ℕ
get_node_response = 8

abbrev pub upsert_node_request : ℕ
upsert_node_request = 9

abbrev pub upsert_node_response : ℕ
upsert_node_response = 10

abbrev pub delete_node_request : ℕ
delete_node_request = 11

abbrev pub delete_node_response : ℕ
delete_node_response = 12

abbrev pub get_page_tree_request : ℕ
get_page_tree_request = 13

abbrev pub get_page_tree_response : ℕ
get_page_tree_response = 14

abbrev pub query_nodes_request : ℕ
query_nodes_request = 15

abbrev pub query_nodes_response : ℕ
query_nodes_response = 16

abbrev pub open_transaction_layer_request : ℕ
open_transaction_layer_request = 17

abbrev pub open_transaction_layer_response : ℕ
open_transaction_layer_response = 18

abbrev pub close_transaction_layers_request : ℕ
close_transaction_layers_request = 19

abbrev pub close_transaction_layers_response : ℕ
close_transaction_layers_response = 20

abbrev pub apply_transaction_request : ℕ
apply_transaction_request = 21

abbrev pub apply_transaction_response : ℕ
apply_transaction_response = 22

abbrev pub get_full_tree_request : ℕ
get_full_tree_request = 23

abbrev pub get_full_tree_response : ℕ
get_full_tree_response = 24

abbrev pub register_listener_request : ℕ
register_listener_request = 25

abbrev pub register_listener_response : ℕ
register_listener_response = 26

abbrev pub deregister_listener_request : ℕ
deregister_listener_request = 27

abbrev pub deregister_listener_response : ℕ
deregister_listener_response = 28

abbrev pub notify_listeners_request : ℕ
notify_listeners_request = 29

abbrev pub notify_listeners_response : ℕ
notify_listeners_response = 30

abbrev pub process_notification_request : ℕ
process_notification_request = 31

abbrev pub process_notification_response : ℕ
process_notification_response = 32

abbrev pub get_journal_request : ℕ
get_journal_request = 33

abbrev pub get_journal_response : ℕ
get_journal_response = 34

abbrev pub heartbeat : ℕ
heartbeat = 2
