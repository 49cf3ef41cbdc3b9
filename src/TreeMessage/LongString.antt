-- ===== src/TreeMessage/LongString.antt =====
-- A long string is decoded from its chunks, and only once all of them are there.
use world_wide_anthropomorph.TreeNode.Property.Layout.{
  byte_limit, get_bytes-put_bytes, length-put_bytes, take_eight, drop_eight,
}
use world_wide_anthropomorph.Base.{
  ℕ, zero, suc, ◌+◌, ◌-◌, ◌<◌, ◌≤◌, ◌≡◌, ◌∙◌, ap, sym, refl, true, false, none, some, List, [], ◌∷◌,
  ◌++◌, map, arith, length, take, drop, length-append, drop-append, take-append, if◌then◌else◌, ok,
  ltb,
}
use world_wide_anthropomorph.Text.{Text}
use world_wide_anthropomorph.TreeNode.Property.{put_bytes, get_bytes}
use world_wide_anthropomorph.SharedSpan.{restrict}
use world_wide_anthropomorph.SharedSpan.Restrict.{all_bytes, restrict_lem, length-drop}
use world_wide_anthropomorph.TreeMessage.{
  PayloadChunk, ChunkList, first_payload, split_payloads, long_payloads, encode_long_string,
  chunks_after, first_offset, can_decode_long_string, decode_long_string,
}
use world_wide_anthropomorph.TreeMessage.Payloads.{
  string_limit, ltb-of_le, ltb-of_lt, first_offset-fits, chunks_after_lem, length-split_payloads,
  take_all, length-take_le, long_payloads-bytes, long_payloads-AllFilled, length-map_chunks,
  payloads-map,
}

-- The first payload of a string.
abbrev pub head_payload : Text → List ℕ
head_payload str = put_bytes 8 (length str) ++ take first_payload str

pub length-head_payload : (str : Text) → 8 ≤ length (head_payload str)
length-head_payload str = omega (
  arith,
  length-append (put_bytes 8 (length str)) (take first_payload str),
  length-put_bytes 8 (length str),
)

length-encode_long_string :
    (r s : ℕ) (str : Text)
    → length str < string_limit
    → length (encode_long_string r s str)
      ≡ suc (chunks_after (first_offset (length str)) (first_offset (length str)))
unfolding encode_long_string long_payloads
length-encode_long_string r s str h =
    let n : ℕ = length str in
    let counted : length (split_payloads n (drop first_payload str))
        ≡ chunks_after n (n - first_payload) =
      length-split_payloads n (drop first_payload str)
      ∙ ap (chunks_after n) (length-drop first_payload str) in
    ap suc (
      length-map_chunks r s (split_payloads n (drop first_payload str))
      ∙ counted
      ∙ chunks_after_lem n (n - first_payload) (omega arith)
      ∙ sym (chunks_after_lem (n - first_payload) (n - first_payload) (omega arith))
      ∙ sym (ap (λ v. chunks_after v v) (first_offset-fits n h)))

-- From the first chunk of a string on, all of its chunks are expected.
expected-chunks :
    (r s : ℕ) (str : Text) (start : ℕ) (encoded : ChunkList) {c : PayloadChunk} {rest : ChunkList}
    → length str < string_limit
    → drop start encoded ≡ c ∷ rest
    → c.payload ≡ head_payload str
    → can_decode_long_string start encoded ≡ (
        if ltb (length encoded) (start + length (encode_long_string r s str))
        then ok none
        else ok (some (start + length (encode_long_string r s str))))
unfolding can_decode_long_string
expected-chunks r s str start encoded {c} {rest} h e p =
    let n : ℕ = length str in
    let six : ltb (length (head_payload str)) 6 ≡ false = ground (arith, length-head_payload str) in
    let eight : ltb (length (head_payload str)) 8 ≡ false =
      ground (arith, length-head_payload str) in
    let size : get_bytes (take 8 (head_payload str)) ≡ n =
      ap get_bytes (take_eight n (take first_payload str))
      ∙ get_bytes-put_bytes 8 n (unfold byte_limit in omega (arith, h)) in
    let sum : start + 1 + chunks_after (first_offset n) (first_offset n)
        ≡ start + length (encode_long_string r s str) =
      omega (arith, length-encode_long_string r s str h) in
    rw (e, p, can_decode_long_string, six, eight, size, sum) refl

-- The chunks of a string that is shorter than 2 ^ 31 are recognised wherever they start, and
-- whatever chunks follow them.
pub can_decode_long_string-encode_long_string :
    (r s : ℕ) (str : Text) (before after : ChunkList)
    → length str < string_limit
    → can_decode_long_string (length before) (before ++ (encode_long_string r s str ++ after))
      ≡ ok (some (length before + length (encode_long_string r s str)))
unfolding encode_long_string long_payloads
can_decode_long_string-encode_long_string r s str before after h =
    let enc : ChunkList = encode_long_string r s str in
    let enough : ltb (length (before ++ (enc ++ after))) (length before + length enc) ≡ false =
      ltb-of_le (length (before ++ (enc ++ after))) (length before + length enc)
        (omega (arith, length-append before (enc ++ after), length-append enc after)) in
    expected-chunks r s str (length before) (before ++ (enc ++ after)) h
      (drop-append before (enc ++ after)) refl
    ∙ rw enough refl

-- Decoding the chunks of a string that is shorter than 2 ^ 31 gives the string and their number,
-- whatever chunks follow them.
pub decode_long_string-encode_long_string :
    (r s : ℕ) (str : Text) (after : ChunkList)
    → length str < string_limit
    → decode_long_string (encode_long_string r s str ++ after)
      ≡ ok (length (encode_long_string r s str), str)
unfolding decode_long_string
decode_long_string-encode_long_string r s str after h =
    let enc : ChunkList = encode_long_string r s str in
    let ready : can_decode_long_string 0 (enc ++ after) ≡ ok (some (length enc)) =
      can_decode_long_string-encode_long_string r s str [] after h
      ∙ ap (λ k. ok (some k)) (omega arith) in
    let payloads : map (λ chunk. chunk.payload) (take (length enc) (enc ++ after))
        ≡ long_payloads str =
      ap (map (λ chunk. chunk.payload)) (take-append enc after)
      ∙ unfold encode_long_string in payloads-map r s (long_payloads str) in
    let total : ℕ = length (all_bytes (long_payloads str)) in
    let sizes : total ≡ length str + 8 =
      ap (λ (b : List ℕ). length b) (long_payloads-bytes str)
      ∙ omega
          (arith, length-append (put_bytes 8 (length str)) str, length-put_bytes 8 (length str)) in
    let restored : all_bytes (restrict 8 total (long_payloads str)) ≡ str =
      restrict_lem 8 total (long_payloads str) (long_payloads-AllFilled str)
        (omega (arith, h, sizes))
      ∙ ap (λ b. take total (drop 8 b)) (long_payloads-bytes str)
      ∙ ap (take total) (drop_eight (length str) str)
      ∙ take_all total str (omega (arith, sizes)) in
    rw (decode_long_string, ready, payloads, restored) refl

-- As long as some chunks of a string that is shorter than 2 ^ 31 are missing at the end, it cannot
-- be decoded yet, and that is no error.
pub can_decode_long_string-take :
    (r s : ℕ) (str : Text) (k : ℕ)
    → length str < string_limit
    → k < length (encode_long_string r s str)
    → can_decode_long_string 0 (take k (encode_long_string r s str)) ≡ ok none
unfolding can_decode_long_string encode_long_string long_payloads
can_decode_long_string-take r s str zero h less = refl
can_decode_long_string-take r s str (suc k) h less =
    let part : ChunkList = take (suc k) (encode_long_string r s str) in
    let short : ltb (length part) (0 + length (encode_long_string r s str)) ≡ true =
      ltb-of_lt (length part) (0 + length (encode_long_string r s str))
        (omega (arith, less, length-take_le (suc k) (encode_long_string r s str))) in
    expected-chunks r s str 0 part h refl refl ∙ rw short refl

-- The same where the chunks come after others.
pub can_decode_long_string-missing :
    (r s : ℕ) (str : Text) (before : ChunkList) (k : ℕ)
    → length str < string_limit
    → k < length (encode_long_string r s str)
    → can_decode_long_string (length before) (before ++ take k (encode_long_string r s str))
      ≡ ok none
unfolding can_decode_long_string encode_long_string long_payloads
can_decode_long_string-missing r s str before zero h less =
    rw (can_decode_long_string, drop-append before []) refl
can_decode_long_string-missing r s str before (suc k) h less =
    let enc : ChunkList = encode_long_string r s str in
    let part : ChunkList = before ++ take (suc k) enc in
    let short : ltb (length part) (length before + length enc) ≡ true =
      ltb-of_lt (length part) (length before + length enc) (
        omega (arith, less, length-take_le (suc k) enc, length-append before (take (suc k) enc))) in
    expected-chunks r s str (length before) part h (drop-append before (take (suc k) enc)) refl
    ∙ rw short refl
