-- ===== src/TreeMessage/Codec/Vector.antt =====
-- A vector of coded values is coded.
use mathlib.Core.List.{append_assoc}
use world_wide_anthropomorph.Base.{
  ℕ, zero, suc, ◌+◌, ◌%◌, ◌<◌, ◌≡◌, refl, ap, ◌∙◌, false, none, some, List, [], ◌∷◌, ◌++◌, arith,
  length, take, length-append, drop-append, ltb, ok,
}
use world_wide_anthropomorph.Text.{Text}
use world_wide_anthropomorph.Stream.{to_string, starts_digit}
use world_wide_anthropomorph.Stream.Digits.{length-to_string}
use world_wide_anthropomorph.Stream.Numbers.{last_number-put_number}
use world_wide_anthropomorph.TreeNode.TextForm.{long_values}
use world_wide_anthropomorph.TreeMessage.{
  PayloadChunk, ChunkList, chunk_of, max_payload, encode_label, decode_label, can_decode_label,
}
use world_wide_anthropomorph.TreeMessage.Vectors.{
  can_decode_all, decode_size, encode_vector, decode_vector, can_decode_vector,
}
use world_wide_anthropomorph.TreeMessage.Codec.{
  Codec, chunk_of-IsTagged, IsTagged-AllCoded, IsCoded, AllCoded, encode_all-AllCoded,
  decode_all-AllCoded, can_decode_all-AllCoded, can_decode_all-take,
}

-- The label of a size.
abbrev pub size_chunk : ℕ → ℕ → ℕ → PayloadChunk
size_chunk r s n = chunk_of r s (to_string n)

pub encode_size :
    (r s n : ℕ) → n < long_values → encode_label r s (to_string n) ≡ ok (size_chunk r s n ∷ [])
unfolding encode_label
encode_size r s n h =
    let fits : ltb max_payload (length (to_string n)) ≡ false =
      ground (arith, length-to_string n h) in
    rw fits refl

pub decode_size_chunk :
    (r s n : ℕ) (after : ChunkList)
    → n < long_values
    → decode_size (size_chunk r s n ∷ after) ≡ ok n
unfolding decode_size decode_label to_string
decode_size_chunk r s n after h =
    last_number-put_number long_values n [] h (unfold starts_digit in refl)

-- A chunk with a payload is recognised as a label wherever it stands.
pub can_decode_label-chunk_of :
    (r s : ℕ) (str : Text) (before after : ChunkList)
    → can_decode_label (length before) (before ++ (chunk_of r s str ∷ after))
      ≡ ok (some (length before + 1))
unfolding can_decode_label
can_decode_label-chunk_of r s str before after =
    let whole : ltb (length str) (length str % 65536) ≡ false = ground arith in
    rw (can_decode_label, drop-append before (chunk_of r s str ∷ after), whole) refl

pub can_decode_label-missing :
    (before : ChunkList) → can_decode_label (length before) (before ++ []) ≡ ok none
unfolding can_decode_label
can_decode_label-missing before = rw (can_decode_label, drop-append before []) refl

module _ {X : Type 0} (c : Codec X) where
  abbrev r : ℕ
  r = c.request_id

  abbrev s : ℕ
  s = c.signal

  -- The functions of a vector, from those of its elements.
  abbrev pub vector_codec : Codec (List X)
  vector_codec = record {
    request_id = c.request_id;
    signal = c.signal;
    encode = encode_vector c.encode r s;
    decode = decode_vector c.decode;
    can_decode = can_decode_vector c.can_decode;
  }

  -- What the first chunk leads to, where `before` stands before it.
  after_size :
      (n : ℕ) (rest before : ChunkList)
      → n < long_values
      → can_decode_vector c.can_decode (length before) (before ++ (size_chunk r s n ∷ rest))
        ≡ can_decode_all c.can_decode n
            (length (before ++ size_chunk r s n ∷ []))
            ((before ++ size_chunk r s n ∷ []) ++ rest)
  unfolding can_decode_vector
  after_size n rest before h =
      let all : ChunkList = before ++ (size_chunk r s n ∷ rest) in
      rw
        (
          can_decode_vector,
          can_decode_label-chunk_of r s (to_string n) before rest,
          drop-append before (size_chunk r s n ∷ rest),
          decode_size_chunk r s n rest h,
          length-append before (size_chunk r s n ∷ []),
          append_assoc before (size_chunk r s n ∷ []) rest,
        )
        refl

  found_in_vector :
      (xs : List X) (rest before after : ChunkList)
      → length xs < long_values
      → AllCoded c xs rest
      → length before + suc (length rest) < long_values
      → can_decode_vector c.can_decode
          (length before)
          (before ++ (size_chunk r s (length xs) ∷ (rest ++ after)))
        ≡ ok (some (length before + suc (length rest)))
  found_in_vector xs rest before after h hs fits =
      let first : ChunkList = before ++ size_chunk r s (length xs) ∷ [] in
      after_size (length xs) (rest ++ after) before h
      ∙ can_decode_all-AllCoded c xs rest first after hs
          (omega (arith, fits, length-append before (size_chunk r s (length xs) ∷ [])))
      ∙ ap (λ n. ok (some n))
          (omega (arith, length-append before (size_chunk r s (length xs) ∷ [])))

  awaited_in_vector :
      (xs : List X) (rest before : ChunkList) (k : ℕ)
      → length xs < long_values
      → AllCoded c xs rest
      → length before + suc (length rest) < long_values
      → k < suc (length rest)
      → can_decode_vector c.can_decode
          (length before)
          (before ++ take k (size_chunk r s (length xs) ∷ rest))
        ≡ ok none
  unfolding can_decode_vector
  awaited_in_vector xs rest before zero h hs fits less =
      rw (can_decode_vector, can_decode_label-missing before) refl
  awaited_in_vector xs rest before (suc k) h hs fits less =
      after_size (length xs) (take k rest) before h
      ∙ can_decode_all-take c xs rest (before ++ size_chunk r s (length xs) ∷ []) k hs
          (omega (arith, fits, length-append before (size_chunk r s (length xs) ∷ [])))
          (omega (arith, less))

  decoded_in_vector :
      (xs : List X) (rest after : ChunkList)
      → length xs < long_values
      → AllCoded c xs rest
      → decode_vector c.decode (size_chunk r s (length xs) ∷ (rest ++ after))
        ≡ ok (suc (length rest), xs)
  unfolding decode_vector
  decoded_in_vector xs rest after h hs =
      rw
        (
          decode_vector,
          can_decode_label-chunk_of r s (to_string (length xs)) [] (rest ++ after),
          decode_size_chunk r s (length xs) (rest ++ after) h,
          decode_all-AllCoded c xs rest (size_chunk r s (length xs) ∷ []) after hs,
        )
        (ap (λ n. ok (n, xs)) (omega arith))

  pub vector_codec-IsCoded :
      (xs : List X) (rest : ChunkList)
      → length xs < long_values
      → AllCoded c xs rest
      → IsCoded vector_codec xs (size_chunk c.request_id c.signal (length xs) ∷ rest)
  unfolding encode_vector
  vector_codec-IsCoded xs rest h hs = record {
    filled = omega arith;
    tagged = (chunk_of-IsTagged r s (to_string (length xs)), IsTagged-AllCoded c xs rest hs);
    encoded =
        rw (encode_vector, encode_size r s (length xs) h, encode_all-AllCoded c xs rest hs) refl;
    decoded = λ after. decoded_in_vector xs rest after h hs;
    found = λ before after fits. found_in_vector xs rest before after h hs fits;
    awaited = λ before k fits less. awaited_in_vector xs rest before k h hs fits less;
  }
