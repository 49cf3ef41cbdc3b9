-- ===== src/TreeMessage/Nodes/Found.antt =====
-- What can_decode_MaybeTreeNode finds in the chunks of a text and of its end.
use world_wide_anthropomorph.Base.{
  out_of_range, bad_chunk, if◌then◌else◌, ℕ, zero, suc, ◌+◌, ◌-◌, ◌%◌, ◌<◌, ◌≤◌, ◌≡◌, refl, ap, sym,
  ◌∙◌, true, false, Option, none, some, List, [], ◌∷◌, ◌++◌, map, arith, length, take, drop,
  length-append, drop-append, ltb, Result, ok, err, Bool-cases, inl, inr,
}
use world_wide_anthropomorph.TreeMessage.Payloads.{ltb-of_lt, ltb-of_le, string_limit}
use world_wide_anthropomorph.TreeMessage.LongString.{
  can_decode_long_string-missing, length-head_payload, head_payload,
  can_decode_long_string-encode_long_string,
}
use world_wide_anthropomorph.TreeMessage.{
  first_payload, split_payloads, PayloadChunk, ChunkList, chunk_of, encode_long_string,
  decode_long_string, can_decode_long_string, long_payloads,
}
use mathlib.Core.List.{map-append, append_assoc}
use world_wide_anthropomorph.Text.{Text}
use world_wide_anthropomorph.Stream.{put_hex, last_number, starts_digit}
use world_wide_anthropomorph.Stream.Digits.{scan_number-put_hex}
use world_wide_anthropomorph.Stream.Numbers.{scan_number-space}
use world_wide_anthropomorph.TreeNode.TextForm.{line_end, long_values}
use world_wide_anthropomorph.TreeMessage.Nodes.{
  count_digits, can_decode_maybe_tree_node, can_decode_property_data,
}
use world_wide_anthropomorph.TreeMessage.Nodes.Tail.{
  tail_size, LastPayload, long_payloads-LastPayload,
}

-- The number of chunks, where it is read.
pub read_count :
    (n : ℕ) → n < long_values → last_number true long_values (put_hex count_digits n []) ≡ ok n
unfolding last_number
read_count n h =
    rw
      (
        last_number,
        scan_number-put_hex 15 long_values n [] (omega (arith, h)) h (unfold starts_digit in refl),
      )
      refl

pub read_count_line :
    (n : ℕ)
    → n < long_values
    → last_number true long_values (line_end ∷ put_hex count_digits n []) ≡ ok n
unfolding last_number
read_count_line n h =
    rw (last_number, scan_number-space true long_values line_end (put_hex count_digits n []) refl)
      (read_count n h)

-- What can_decode_MaybeTreeNode does with a text whose chunks are all there.
pub structure_found :
    (start count : ℕ) (c last : PayloadChunk) (encoded rest rest' : ChunkList)
    → drop start encoded ≡ c ∷ rest
    → 6 ≤ length c.payload
    → can_decode_long_string start encoded ≡ ok (some count)
    → drop (count - 1) encoded ≡ last ∷ rest'
    → can_decode_maybe_tree_node start encoded ≡ can_decode_property_data count last encoded
unfolding can_decode_maybe_tree_node
structure_found start count c last encoded rest rest' e long found e' =
    let six : ltb (length c.payload) 6 ≡ false = ground (arith, long) in
    rw (can_decode_maybe_tree_node, e, six, found)
      (ap
        (λ (d : ChunkList). elim d as (λ x. Result (Option ℕ)) [
          | [] ↦ ok none
          | last_chunk ∷ x ↦ can_decode_property_data count last_chunk encoded
        ])
        e')

-- A text whose chunks are not all there is waited for.
pub awaited_text :
    (r s : ℕ) (str : Text) (before : ChunkList) (k : ℕ)
    → length str < string_limit
    → k < length (encode_long_string r s str)
    → can_decode_maybe_tree_node (length before) (before ++ take k (encode_long_string r s str))
      ≡ ok none
unfolding can_decode_maybe_tree_node encode_long_string
awaited_text r s str before zero h less =
    rw (can_decode_maybe_tree_node, drop-append before []) refl
awaited_text r s str before (suc k) h less =
    let part : ChunkList = take (suc k) (encode_long_string r s str) in
    let six : ltb (length (head_payload str)) 6 ≡ false =
      ltb-of_le (length (head_payload str)) 6 (omega (arith, length-head_payload str)) in
    rw
      (
        can_decode_maybe_tree_node,
        drop-append before part,
        six,
        can_decode_long_string-missing r s str before (suc k) h less,
      )
      refl

-- The number of chunks that the last chunk of the text asks for.
pub count_found :
    (r s count n : ℕ) (last : List ℕ) (encoded : ChunkList)
    → count_digits ≤ length last
    → drop (length last - count_digits) last ≡ put_hex count_digits n []
    → n < long_values
    → count + n < long_values
    → can_decode_property_data count (chunk_of r s last) encoded
      ≡ ok (if ltb (length encoded) (count + n) then none else some (count + n))
unfolding can_decode_property_data
count_found r s count n last encoded long e small fits =
    let size : ltb (length last) count_digits ≡ false = ground (arith, long) in
    let sum : (count + n) % long_values ≡ count + n = omega (arith, fits) in
    rw (can_decode_property_data, size, e, read_count n small, sum) refl

-- The last chunk of a text whose chunks are all there.
pub last_found :
    (r s : ℕ) (str : Text) (before tail : ChunkList)
    → let enc = encode_long_string r s str in
      drop (length before + length enc - 1) (before ++ (enc ++ tail))
      ≡ chunk_of r s (long_payloads-LastPayload str).last ∷ tail
unfolding encode_long_string
last_found r s str before tail =
    let enc : ChunkList = encode_long_string r s str in
    let l : LastPayload (long_payloads str) (tail_size (length str)) =
      long_payloads-LastPayload str in
    let init : ChunkList = map (chunk_of r s) l.init in
    let last : PayloadChunk = chunk_of r s l.last in
    let parts : enc ≡ init ++ last ∷ [] =
      ap (map (chunk_of r s)) l.parts ∙ map-append (chunk_of r s) l.init (l.last ∷ []) in
    let size : length enc ≡ length init + 1 =
      omega (arith, ap (λ (t : ChunkList). length t) parts, length-append init (last ∷ [])) in
    ap (λ n. drop n (before ++ (enc ++ tail))) (omega (arith, size, length-append before init))
    ∙ ap (λ t. drop (length (before ++ init)) (before ++ (t ++ tail))) parts
    ∙ ap (λ t. drop (length (before ++ init)) (before ++ t)) (append_assoc init (last ∷ []) tail)
    ∙ ap (drop (length (before ++ init))) (sym (append_assoc before init (last ∷ tail)))
    ∙ drop-append (before ++ init) (last ∷ tail)

-- With all chunks of a text, its last chunk is asked for the number of chunks.
pub text_found :
    (r s : ℕ) (str : Text) (before tail : ChunkList)
    → length str < string_limit
    → let enc = encode_long_string r s str in
      can_decode_maybe_tree_node (length before) (before ++ (enc ++ tail))
      ≡ can_decode_property_data
          (length before + length enc)
          (chunk_of r s (long_payloads-LastPayload str).last)
          (before ++ (enc ++ tail))
unfolding encode_long_string
text_found r s str before tail short =
    let enc : ChunkList = encode_long_string r s str in
    structure_found (length before) (length before + length enc) (chunk_of r s (head_payload str))
      (chunk_of r s (long_payloads-LastPayload str).last) (before ++ (enc ++ tail))
      (map (chunk_of r s) (split_payloads (length str) (drop first_payload str)) ++ tail) tail
      (drop-append before (enc ++ tail)) (omega (arith, length-head_payload str))
      (can_decode_long_string-encode_long_string r s str before tail short)
      (last_found r s str before tail)

-- A chunk of less than eight bytes is not decoded as a string.
pub short_string :
    (r s : ℕ) (p : List ℕ)
    → length p < 8
    → decode_long_string (chunk_of r s p ∷ [])
      ≡ err (if ltb (length p) 6 then bad_chunk else out_of_range)
unfolding decode_long_string can_decode_long_string
short_string r s p h =
    let eight : ltb (length p) 8 ≡ true = ltb-of_lt (length p) 8 h in
    elim (Bool-cases (ltb (length p) 6)) [
      | inl e ↦ rw (decode_long_string, can_decode_long_string, e) refl
      | inr e ↦ rw (decode_long_string, can_decode_long_string, e, eight) refl
    ]
