-- ===== src/TreeMessage/Changes/Coded.antt =====
-- The chunks of a change and of a notification are coded, where their label fits one chunk.
use mathlib.Core.List.{append_assoc}
use world_wide_anthropomorph.Base.{
  All, ℕ, zero, suc, ◌+◌, ◌<◌, ◌≤◌, ◌≡◌, refl, ap, sym, ◌∙◌, true, false, Option, none, some, List,
  [], ◌∷◌, ◌++◌, map, arith, length, take, length-append, drop-append, ltb, ◌==◌, ok,
}
use world_wide_anthropomorph.Text.{Text, bytes, text_eq}
use world_wide_anthropomorph.Stream.{put_number, scan_number, space, starts_digit, digit_of}
use world_wide_anthropomorph.Stream.Words.{IsWord-cons, read_word-append}
use world_wide_anthropomorph.Stream.Numbers.{scan_number-put_number, scan_number-space}
use world_wide_anthropomorph.TreeNode.{TreeNode, NewNodeVersion}
use world_wide_anthropomorph.TreeNode.TextForm.{long_values, short_values}
use world_wide_anthropomorph.TreeMessage.{
  PayloadChunk, ChunkList, chunk_of, first_payload, encode_long_string, decode_long_string,
  can_decode_long_string, split_payloads,
}
use world_wide_anthropomorph.TreeMessage.Payloads.{ltb-of_le, ltb-of_lt}
use world_wide_anthropomorph.TreeMessage.LongString.{
  head_payload, length-head_payload, decode_long_string-encode_long_string,
  can_decode_long_string-encode_long_string,
}
use world_wide_anthropomorph.TreeMessage.Nodes.{can_decode_maybe_tree_node}
use world_wide_anthropomorph.TreeMessage.Nodes.Coded.{maybe_node_codec}
use world_wide_anthropomorph.TreeMessage.Nodes.Tail.{drop_whole, split_none}
use world_wide_anthropomorph.TreeMessage.Codec.{
  Codec, IsTagged, chunk_of-IsTagged, IsCoded, positive_nonzero,
}
use world_wide_anthropomorph.TreeMessage.Codec.Vector.{can_decode_label-chunk_of}
use world_wide_anthropomorph.TreeMessage.Changes.{
  SequentialNotification, notification_text, version_text, encode_sequential_notification,
  encode_new_node_version, label_after, decode_one_chunk, decode_sequential_notification,
  read_prior, decode_new_node_version, can_decode_sequential_notification,
  can_decode_new_node_version,
}

-- The chunk of a text that fits one.
abbrev pub text_chunk : ℕ → ℕ → Text → PayloadChunk
text_chunk r s str = chunk_of r s (head_payload str)

pub one_chunk :
    (r s : ℕ) (str : Text)
    → length str ≤ first_payload
    → encode_long_string r s str ≡ text_chunk r s str ∷ []
unfolding encode_long_string
one_chunk r s str h =
    ap (λ ps. text_chunk r s str ∷ map (chunk_of r s) ps)
      (ap (split_payloads (length str)) (drop_whole first_payload str h) ∙ split_none (length str))

structure_of_one :
    (r s : ℕ) (str : Text) (before after : ChunkList)
    → length str ≤ first_payload
    → can_decode_long_string (length before) (before ++ (text_chunk r s str ∷ after))
      ≡ ok (some (length before + 1))
structure_of_one r s str before after h =
    ap (λ enc. can_decode_long_string (length before) (before ++ (enc ++ after)))
      (sym (one_chunk r s str h))
    ∙ can_decode_long_string-encode_long_string r s str before after (omega (arith, h))
    ∙ ap (λ (enc : ChunkList). ok (some (length before + length enc))) (one_chunk r s str h)

decode_one_chunk-text :
    (r s : ℕ) (str : Text) (after : ChunkList)
    → length str ≤ first_payload
    → decode_one_chunk (text_chunk r s str ∷ after) ≡ ok str
unfolding decode_one_chunk
decode_one_chunk-text r s str after h =
    let str_read : decode_long_string (text_chunk r s str ∷ after) ≡ ok (1, str) =
      ap (λ enc. decode_long_string (enc ++ after)) (sym (one_chunk r s str h))
      ∙ decode_long_string-encode_long_string r s str after (omega (arith, h))
      ∙ ap (λ (enc : ChunkList). ok (length enc, str)) (one_chunk r s str h) in
    rw (decode_one_chunk, structure_of_one r s str [] after h, str_read) refl

-- A value behind a first chunk that the functions pass over.
module _ {X Y : Type 0} (c : Codec X) (d : Codec Y) where
  pub behind_chunk-IsCoded :
      (x : X) (y : Y) (first : PayloadChunk) (chunks : ChunkList)
      → IsCoded d y chunks
      → All (IsTagged c.request_id c.signal) (first ∷ chunks)
      → c.encode x ≡ ok (first ∷ chunks)
      → ((after : ChunkList) → c.decode (first ∷ (chunks ++ after)) ≡ ok (suc (length chunks), x))
      → ((before : ChunkList) → c.can_decode (length before) (before ++ []) ≡ ok none)
      → ((before rest : ChunkList)
          → c.can_decode (length before) (before ++ (first ∷ rest))
            ≡ d.can_decode (length (before ++ first ∷ [])) ((before ++ first ∷ []) ++ rest))
      → IsCoded c x (first ∷ chunks)
  behind_chunk-IsCoded x y first chunks h tagged encoded decoded missing passed = record {
    filled = omega arith;
    tagged = tagged;
    encoded = encoded;
    decoded = decoded;
    found = λ before after fits.
        passed before (chunks ++ after)
        ∙ h.found (before ++ first ∷ []) after
            (omega (arith, fits, length-append before (first ∷ [])))
        ∙ ap (λ n. ok (some n)) (omega (arith, length-append before (first ∷ [])));
    awaited = awaits;
  }
    where
      awaits :
          (before : ChunkList) (k : ℕ)
          → length before + length (first ∷ chunks) < long_values
          → k < length (first ∷ chunks)
          → c.can_decode (length before) (before ++ take k (first ∷ chunks)) ≡ ok none
      awaits before zero fits less = missing before
      awaits before (suc k) fits less =
          passed before (take k chunks)
          ∙ h.awaited (before ++ first ∷ []) k
              (omega (arith, fits, length-append before (first ∷ []))) (omega (arith, less))

-- A missing value is waited for, and so is a first chunk without its successor.
no_change :
    (before : ChunkList) → can_decode_new_node_version (length before) (before ++ []) ≡ ok none
unfolding can_decode_new_node_version
no_change before = rw (can_decode_new_node_version, drop-append before []) refl

no_notification :
    (before : ChunkList)
    → can_decode_sequential_notification (length before) (before ++ []) ≡ ok none
unfolding can_decode_sequential_notification
no_notification before = rw (can_decode_sequential_notification, drop-append before []) refl

module _ (r s : ℕ) (str : Text) where
  past_first :
      (before rest : ChunkList)
      → can_decode_maybe_tree_node (length before + 1) (before ++ (text_chunk r s str ∷ rest))
        ≡ can_decode_maybe_tree_node
            (length (before ++ text_chunk r s str ∷ []))
            ((before ++ text_chunk r s str ∷ []) ++ rest)
  past_first before rest =
      rw
        (
          length-append before (text_chunk r s str ∷ []),
          append_assoc before (text_chunk r s str ∷ []) rest,
        )
        refl

  six : ltb (length (head_payload str)) 6 ≡ false
  six = ltb-of_le (length (head_payload str)) 6 (omega (arith, length-head_payload str))

  passed_change :
      (before rest : ChunkList)
      → can_decode_new_node_version (length before) (before ++ (text_chunk r s str ∷ rest))
        ≡ can_decode_maybe_tree_node
            (length (before ++ text_chunk r s str ∷ []))
            ((before ++ text_chunk r s str ∷ []) ++ rest)
  unfolding can_decode_new_node_version
  passed_change before rest =
      rw
        (
          can_decode_new_node_version,
          drop-append before (text_chunk r s str ∷ rest),
          six,
          can_decode_label-chunk_of r s (head_payload str) before rest,
        )
        (past_first before rest)

  passed_notification :
      (before rest : ChunkList)
      → length str ≤ first_payload
      → can_decode_sequential_notification (length before) (before ++ (text_chunk r s str ∷ rest))
        ≡ can_decode_maybe_tree_node
            (length (before ++ text_chunk r s str ∷ []))
            ((before ++ text_chunk r s str ∷ []) ++ rest)
  unfolding can_decode_sequential_notification can_decode_maybe_tree_node
  passed_notification before [] h =
      let all : ChunkList = before ++ text_chunk r s str ∷ [] in
      let none_left : ltb (length before + 1) (length all) ≡ false =
        ltb-of_le (length before + 1) (length all)
          (omega (arith, length-append before (text_chunk r s str ∷ []))) in
      rw
        (
          can_decode_sequential_notification,
          drop-append before (text_chunk r s str ∷ []),
          six,
          structure_of_one r s str before [] h,
          none_left,
        )
        (rw (can_decode_maybe_tree_node, drop-append all []) refl)
  passed_notification before (next ∷ rest) h =
      let all : ChunkList = before ++ (text_chunk r s str ∷ next ∷ rest) in
      let left : ltb (length before + 1) (length all) ≡ true =
        ltb-of_lt (length before + 1) (length all)
          (omega (arith, length-append before (text_chunk r s str ∷ next ∷ rest))) in
      rw
        (
          can_decode_sequential_notification,
          drop-append before (text_chunk r s str ∷ next ∷ rest),
          six,
          structure_of_one r s str before (next ∷ rest) h,
          left,
        )
        (past_first before (next ∷ rest))

-- A version that is a uint16_t.
abbrev pub PriorFits : Option ℕ → Type 0
PriorFits none = Unit
PriorFits (some number) = number < short_values

-- What is read of the text of a version: the version, and the label behind a space.
read_prior-version_text :
    (prior : Option ℕ) (label : Text)
    → PriorFits prior
    → read_prior (version_text prior label) ≡ ok (prior, some (space ∷ label))
unfolding read_prior version_text text_eq
read_prior-version_text none label h =
    rw
      (
        read_prior,
        read_word-append (bytes "Nothing") (space ∷ label) (IsWord-cons b'N' (bytes "othing") refl)
            refl,
      )
      refl
read_prior-version_text (some n) label h =
    rw
      (
        read_prior,
        read_word-append (bytes "Just") (space ∷ put_number n (space ∷ label))
            (IsWord-cons b'J' (bytes "ust") refl) refl,
        scan_number-space false short_values space (put_number n (space ∷ label)) refl,
        scan_number-put_number short_values n (space ∷ label) h
            (unfold starts_digit digit_of in refl),
      )
      refl

module _ (data_chunks : TreeNode → List (List ℕ)) (r s : ℕ) where
  -- The functions of a change, and of a notification.
  abbrev pub change_codec : Codec NewNodeVersion
  change_codec = record {
    request_id = r;
    signal = s;
    encode = encode_new_node_version data_chunks r s;
    decode = decode_new_node_version;
    can_decode = can_decode_new_node_version;
  }

  abbrev pub notification_codec : Codec SequentialNotification
  notification_codec = record {
    request_id = r;
    signal = s;
    encode = encode_sequential_notification data_chunks r s;
    decode = decode_sequential_notification;
    can_decode = can_decode_sequential_notification;
  }

  -- The chunks of a change are coded where its version is a uint16_t, its label fits the first chunk
  -- and its node is coded.
  pub change-IsCoded :
      (change : NewNodeVersion) (chunks : ChunkList)
      → PriorFits change.prior
      → length (version_text change.prior change.label) ≤ first_payload
      → IsCoded (maybe_node_codec data_chunks r s) change.node chunks
      → IsCoded change_codec change
          (text_chunk r s (version_text change.prior change.label) ∷ chunks)
  unfolding encode_new_node_version decode_new_node_version label_after
  change-IsCoded change chunks prior h node =
      let str : Text = version_text change.prior change.label in
      let one : encode_long_string r s str ≡ text_chunk r s str ∷ [] = one_chunk r s str h in
      let some_chunks : (length chunks == 0) ≡ false =
        positive_nonzero (length chunks) node.filled in
      behind_chunk-IsCoded change_codec (maybe_node_codec data_chunks r s) change change.node
        (text_chunk r s str) chunks node (chunk_of-IsTagged r s (head_payload str), node.tagged)
        (rw (encode_new_node_version, node.encoded, one) refl)
        (λ after.
          rw
            (
              decode_new_node_version,
              decode_one_chunk-text r s str (chunks ++ after) h,
              read_prior-version_text change.prior change.label prior,
              node.decoded after,
              some_chunks,
            )
            (ap (λ n. ok (n, change)) (omega arith)))
        no_change (passed_change r s str)

  -- The chunks of a notification are coded where its number is a uint64_t, its label fits the first
  -- chunk and its node is coded.
  pub notification-IsCoded :
      (number : ℕ) (label : Text) (node : Option TreeNode) (chunks : ChunkList)
      → number < long_values
      → length (notification_text number label) ≤ first_payload
      → IsCoded (maybe_node_codec data_chunks r s) node chunks
      → IsCoded notification_codec
          (number, (label, node))
          (text_chunk r s (notification_text number label) ∷ chunks)
  unfolding encode_sequential_notification decode_sequential_notification label_after
      notification_text
  notification-IsCoded number label node chunks small h coded =
      let str : Text = notification_text number label in
      let one : encode_long_string r s str ≡ text_chunk r s str ∷ [] = one_chunk r s str h in
      let some_chunks : (length chunks == 0) ≡ false =
        positive_nonzero (length chunks) coded.filled in
      let read : scan_number false long_values str ≡ ok (number, some (space ∷ label)) =
        scan_number-put_number long_values number (space ∷ label) small
          (unfold starts_digit digit_of in refl) in
      behind_chunk-IsCoded notification_codec (maybe_node_codec data_chunks r s)
        (number, (label, node)) node (text_chunk r s str) chunks coded
        (chunk_of-IsTagged r s (head_payload str), coded.tagged)
        (rw (encode_sequential_notification, coded.encoded, one) refl)
        (λ after.
          rw
            (
              decode_sequential_notification,
              decode_one_chunk-text r s str (chunks ++ after) h,
              read,
              coded.decoded after,
              some_chunks,
            )
            (ap (λ n. ok (n, (number, (label, node)))) (omega arith)))
        no_notification (λ before rest. passed_notification r s str before rest h)
