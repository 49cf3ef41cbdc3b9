-- ===== src/Tests/Wire.antt =====
-- Tests of nodes and transactions on the wire, and examples for their theorems.
use world_wide_anthropomorph.Stream.{put_hex, put_int, put_number}
use world_wide_anthropomorph.TreeNode.TextForm.{
  write_empty_span, put_names, put_maybe_int, put_maybe_word, put_infos, write_length_string,
  put_node, read_node, put_version,
}
use world_wide_anthropomorph.TreeMessage.{chunk_of, PayloadChunk, ChunkList, encode_long_string}
use world_wide_anthropomorph.Http3TreeMessage.{
  can_decode_request, Http3TreeMessage, new_message, set_request_id, push_request_chunk,
}
use world_wide_anthropomorph.Base.{
  suc, drop, map, ap, length-append, zero, ℕ, ◌<◌, ◌≤◌, ◌≡◌, refl, arith, true, false, none, some,
  List, [], ◌∷◌, ◌++◌, ok, err, ◌>>=◌, length, take, All, leb, ltb, pos, bad_chunk, out_of_range,
  if◌then◌else◌,
}
use world_wide_anthropomorph.Text.{Text, bytes}
use world_wide_anthropomorph.TreeNode.{TreeNode, NewNodeVersion, Transaction, default_version}
use world_wide_anthropomorph.TreeNode.TextForm.Version.{VersionFits}
use world_wide_anthropomorph.TreeNode.TextForm.RoundTrip.{NodeFits, read_node-put_node}
use world_wide_anthropomorph.Stream.Words.{IsWord-cons}
use world_wide_anthropomorph.SharedSpan.Restrict.{all_bytes}
use world_wide_anthropomorph.TreeMessage.Changes.{version_text}
use world_wide_anthropomorph.TreeMessage.Changes.Coded.{one_chunk, text_chunk}
use world_wide_anthropomorph.TreeMessage.Codec.Vector.{size_chunk}
use world_wide_anthropomorph.TreeMessage.Transactions.{can_decode_transaction}
use world_wide_anthropomorph.TreeMessage.Nodes.Tail.{tail_size}
use world_wide_anthropomorph.TreeMessage.Payloads.{FitsDatagram, encode_long_string-FitsDatagram}
use world_wide_anthropomorph.TreeMessage.Nodes.{node_text, can_decode_maybe_tree_node}
use world_wide_anthropomorph.TreeMessage.Nodes.Sent.{NodeCodes, node_chunks}
use world_wide_anthropomorph.TreeMessage.Nodes.Coded.{
  node_chunks-IsCoded, maybe_node_codec, can_decode_maybe_tree_node-short_tail,
}
use world_wide_anthropomorph.TreeMessage.Codec.{IsCoded}
use world_wide_anthropomorph.TreeMessage.Transactions.Sent.{
  SubCodes, transaction_chunks, transaction_chunks-IsCoded,
}
use world_wide_anthropomorph.TreeMessage.Transactions.Coded.{transaction_codec}
use world_wide_anthropomorph.Http3TreeMessage.Signals
use world_wide_anthropomorph.Http3TreeMessage.Requests.{
  encode_apply_transaction_request, decode_apply_transaction_request,
  encode_register_node_listener_request, decode_register_node_listener_request,
}
use world_wide_anthropomorph.Http3TreeMessage.Transfer.{receive, receive-take}
use world_wide_anthropomorph.Http3TreeMessage.EndToEnd.{
  deliver, decode_apply_transaction_request-deliver,
}
use world_wide_anthropomorph.Http3TreeMessage.Listeners.{
  decode_register_node_listener_request-encode,
}
use world_wide_anthropomorph.Http3TreeMessage.State.{
  Reach, here, next, request_pushed, IsSound, Keeps, Reach-IsSound, Reach-Keeps,
  new_message-IsSound,
}

-- A node with a property of twelve bytes, whose data lies in two chunks.
abbrev story : TreeNode
story = record {
  label_rule = bytes "lib/story";
  description = bytes "a text (with words)";
  property_infos = (bytes "string", bytes "title") ∷ [];
  version = record default_version {
    version_number = 7;
    authors = some (bytes "ann");
    collision_depth = some (pos 2);
  };
  child_names = bytes "page" ∷ bytes "end" ∷ [];
  property_data = 4 ∷ 0 ∷ 0 ∷ 0 ∷ 0 ∷ 0 ∷ 0 ∷ 0 ∷ bytes "tale";
  query_how_to = some (bytes "ask");
  qa_sequence = none;
}

abbrev pub two_pieces : TreeNode → List (List ℕ)
two_pieces node = take 8 node.property_data ∷ drop 8 node.property_data ∷ []

story-VersionFits : VersionFits story.version
story-VersionFits = record {
  number_fits = omega arith;
  max_fits = omega arith;
  policy_word = IsWord-cons b'd' (bytes "efault") refl;
  proof_word = tt;
  authors_word = IsWord-cons b'a' (bytes "nn") refl;
  readers_word = tt;
  depth_fits = omega arith;
}

story-NodeFits : NodeFits story
story-NodeFits = record {
  label_word = IsWord-cons b'l' (bytes "ib/story") refl;
  description_fits = omega arith;
  infos_fit = (
    record {
      type_word = IsWord-cons b's' (bytes "tring") refl;
      type_open = refl;
      type_end = refl;
      name_plain = (refl, (refl, (refl, (refl, (refl, tt)))));
    },
    tt,
  );
  version_fits = story-VersionFits;
  names_fit = (
    record { name_plain = (refl, (refl, (refl, (refl, tt)))); name_open = refl },
    (record { name_plain = (refl, (refl, (refl, tt))); name_open = refl }, tt),
  );
  query_fits = (omega arith, omega arith);
  sequence_fits = tt;
}

read_node-put_node_example :
    (put_node story (bytes "rest") >>= λ text. read_node text)
    ≡ ok (record story { property_data = [] }, bytes "rest")
read_node-put_node_example = read_node-put_node story (bytes "rest") story-NodeFits

-- The text of the node on the wire.
abbrev story_text : Text
story_text =
    bytes
      "Just TreeNode(\nlabel_rule: lib/story\ndescription 19 :\na text (with words)\nproperty_infos: [ string (title), ], version: Version: 7 Max_Version: 256 Policy: default Authorial_Proof: Nothing Authors: Just ann Readers: Nothing Collision_Depth: Just 2 , child_names: [ page, end, ], query_how_to 3 :\nask\nqa_sequence 0 :\n\nshared_span( signal_type: 0 signal_size: 0 data_size: 0 chunk_data: [\n])\n)\n\n0000000000000002"

story_written : node_text two_pieces story ≡ ok story_text
unfolding node_text put_node put_version write_length_string put_number put_infos put_maybe_word
    put_maybe_int put_int put_names write_empty_span put_hex
story_written = refl

story_data : all_bytes (two_pieces story) ≡ story.property_data
unfolding all_bytes
story_data = refl

story_codes : NodeCodes two_pieces story
story_codes = record {
  fits = story-NodeFits;
  data_kept = story_data;
  few_chunks = omega arith;
  text = story_text;
  written = story_written;
  text_short = omega arith;
  tail_fits = omega arith;
}

node_chunks-IsCoded_example :
    IsCoded
      (maybe_node_codec two_pieces 4 8)
      (some story)
      (node_chunks two_pieces 4 8 story story_codes)
node_chunks-IsCoded_example = node_chunks-IsCoded two_pieces 4 8 story story_codes

-- A change that writes the node, and one that removes another.
abbrev write_story : NewNodeVersion
write_story = record { prior = some 6; label = bytes "lib/story"; node = some story }

abbrev drop_page : NewNodeVersion
drop_page = record { prior = none; label = bytes "lib/page"; node = none }

abbrev pub edit : Transaction
edit = record { parent = write_story; children = drop_page ∷ [] } ∷ []

pub edit_codes : All (SubCodes two_pieces) edit
unfolding version_text put_number
edit_codes = (
  record {
    parent_codes = record {
      prior_fits = omega arith;
      label_fits = omega arith;
      node_codes = story_codes;
    };
    few_children = omega arith;
    children_code = (record { prior_fits = tt; label_fits = omega arith; node_codes = tt }, tt);
  },
  tt,
)

abbrev edit_chunks : ℕ → ChunkList
edit_chunks id = transaction_chunks two_pieces Signals.apply_transaction_request id edit edit_codes

-- The chunks of a transaction of two changes, of which the second removes a node.
two_changes :
    (a b c f : PayloadChunk) (e d n : ChunkList)
    → length e ≡ 1
    → length d ≡ 2
    → length n ≡ 1
    → length (a ∷ ((b ∷ ((c ∷ (e ++ d)) ++ ((f ∷ n) ++ []))) ++ [])) ≡ 8
two_changes a b c f e d n h h' h'' = omega (
  arith,
  h,
  h',
  h'',
  length-append ((e ++ d) ++ ((f ∷ n) ++ [])) [],
  length-append (e ++ d) ((f ∷ n) ++ []),
  length-append e d,
  length-append n [],
)

edit_size : length (edit_chunks 300) ≡ 8
unfolding edit_codes story_codes
edit_size =
    two_changes (size_chunk 300 Signals.apply_transaction_request 1)
      (size_chunk 300 Signals.apply_transaction_request 1)
      (text_chunk 300 Signals.apply_transaction_request (version_text (some 6) (bytes "lib/story")))
      (text_chunk 300 Signals.apply_transaction_request (version_text none (bytes "lib/page")))
      (encode_long_string 300 Signals.apply_transaction_request story_text)
      (map (chunk_of 300 Signals.apply_transaction_request) (two_pieces story))
      (encode_long_string 300 Signals.apply_transaction_request (bytes "Nothing"))
      (ap (λ (t : ChunkList). length t)
        (one_chunk 300 Signals.apply_transaction_request story_text (omega arith)))
      refl
      (ap (λ (t : ChunkList). length t)
        (one_chunk 300 Signals.apply_transaction_request (bytes "Nothing") (omega arith)))

transaction_chunks-IsCoded_example :
    IsCoded
      (transaction_codec two_pieces 300 Signals.apply_transaction_request)
      edit
      (edit_chunks 300)
transaction_chunks-IsCoded_example =
    transaction_chunks-IsCoded two_pieces Signals.apply_transaction_request 300 edit edit_codes
      (omega arith)

pub edit_fits : length (edit_chunks 300) < 18446744073709551616
edit_fits = omega (arith, edit_size)

decode_apply_transaction_request-deliver_example :
    let client = (encode_apply_transaction_request two_pieces edit (new_message 0)).0 in
    ((deliver 300 client).request_id ≡ 300)
    × (decode_apply_transaction_request (deliver 300 client) ≡ ok edit)
decode_apply_transaction_request-deliver_example =
    decode_apply_transaction_request-deliver two_pieces 0 300 edit edit_codes (omega arith)
      edit_fits

edit_accepted :
    (cs : ChunkList)
    → can_decode_request Signals.apply_transaction_request cs ≡ can_decode_transaction 0 cs
unfolding can_decode_request
edit_accepted cs = refl

fresh_message : ((new_message 0).request_chunks ≡ []) × ((new_message 0).request_complete ≡ false)
unfolding new_message
fresh_message = (refl, refl)

five_chunks : 5 ≤ length (edit_chunks 300)
five_chunks = omega (arith, edit_size)

receive-take_example :
    ((receive (take 5 (edit_chunks 300)) (new_message 0)).1 ≡ ok tt)
    × ((receive (take 5 (edit_chunks 300)) (new_message 0)).0.request_complete
        ≡ leb (length (edit_chunks 300)) 5)
receive-take_example =
    receive-take (transaction_codec two_pieces 300 Signals.apply_transaction_request) edit
      (edit_chunks 300)
      (transaction_chunks-IsCoded two_pieces Signals.apply_transaction_request 300 edit edit_codes
        (omega arith))
      edit_fits edit_accepted (new_message 0) 5 fresh_message five_chunks

-- A message that has got one chunk.
abbrev first_chunk : PayloadChunk
first_chunk = chunk_of 300 Signals.get_node_request (bytes "lib/story")

abbrev got_one : Http3TreeMessage
got_one = (push_request_chunk first_chunk (new_message 0)).0

one_step : Reach (new_message 0) got_one
one_step = next here (request_pushed first_chunk)

Reach-IsSound_example : IsSound got_one
Reach-IsSound_example = Reach-IsSound (new_message-IsSound 0) one_step

Reach-Keeps_example : Keeps (new_message 0) got_one
Reach-Keeps_example = Reach-Keeps one_step

decode_register_node_listener_request-encode_example :
    let sent = (encode_register_node_listener_request (bytes "ann") [] true (new_message 0)).0 in
    decode_register_node_listener_request (set_request_id 4 sent) ≡ ok (bytes "ann", [], true)
decode_register_node_listener_request-encode_example =
    decode_register_node_listener_request-encode 0 4 (bytes "ann") [] true
      (refl, (refl, (refl, tt))) tt (omega arith)

-- A text of so many bytes.
abbrev repeated : ℕ → Text
repeated zero = []
repeated (suc n) = 97 ∷ repeated n

can_decode_maybe_tree_node-short_tail_example :
    can_decode_maybe_tree_node 0 ([] ++ (encode_long_string 4 8 (repeated 1190) ++ []))
    ≡ err (if ltb (tail_size (length (repeated 1190))) 6 then bad_chunk else out_of_range)
can_decode_maybe_tree_node-short_tail_example =
    can_decode_maybe_tree_node-short_tail 4 8 (repeated 1190) [] [] (omega arith) (omega arith)

encode_long_string-FitsDatagram_example : All FitsDatagram (encode_long_string 4 8 (repeated 1190))
encode_long_string-FitsDatagram_example = encode_long_string-FitsDatagram 4 8 (repeated 1190)
