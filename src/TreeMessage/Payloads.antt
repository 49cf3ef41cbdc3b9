-- ===== src/TreeMessage/Payloads.antt =====
-- The payloads of a long string, and how many chunks they are.
use world_wide_anthropomorph.TreeMessage.{
  encode_long_string, PayloadChunk, ChunkList, chunk_of, max_payload, first_payload, split_payloads,
  long_payloads, chunks_after, first_offset,
}
use world_wide_anthropomorph.Base.{
  All, take-drop, ℕ, zero, suc, ◌+◌, ◌-◌, ◌/◌, ◌<◌, ◌≤◌, ◌≡◌, ◌∙◌, ap, refl, true, false, List, [],
  ◌∷◌, ◌++◌, map, arith, length, take, drop, length-append, ltb,
}
use mathlib.Core.List.{append_assoc}
use world_wide_anthropomorph.Text.{Text}
use world_wide_anthropomorph.TreeNode.Property.{put_bytes}
use world_wide_anthropomorph.TreeNode.Property.Layout.{length-put_bytes}
use world_wide_anthropomorph.SharedSpan.Restrict.{all_bytes, AllFilled, length-drop}

-- The number of values of an int32_t that are not negative.
abbrev pub string_limit : ℕ
string_limit = 2147483648

pub ltb-of_le : (a b : ℕ) → b ≤ a → ltb a b ≡ false
ltb-of_le a b h = ground (arith, h)

pub ltb-of_lt : (a b : ℕ) → a < b → ltb a b ≡ true
ltb-of_lt a b h = ground (arith, h)

pub first_offset-fits : (n : ℕ) → n < string_limit → first_offset n ≡ n - first_payload
unfolding first_offset
first_offset-fits n h = ground (arith, h)

-- With as many rounds as bytes, the loop counts the chunks that the bytes fill.
pub chunks_after_lem : (f v : ℕ) → v ≤ f → chunks_after f v ≡ (v + 1193) / max_payload
unfolding chunks_after
chunks_after_lem zero v h = omega (arith, h)
chunks_after_lem (suc f) v h = ground (arith, h, chunks_after_lem f (v - max_payload))

pub length-split_payloads :
    (f : ℕ) (str : List ℕ) → length (split_payloads f str) ≡ chunks_after f (length str)
unfolding split_payloads chunks_after
length-split_payloads zero str = refl
length-split_payloads (suc f) [] = refl
length-split_payloads (suc f) (x ∷ str) =
    ap suc (
      length-split_payloads f (drop max_payload (x ∷ str))
      ∙ ap (chunks_after f) (length-drop max_payload (x ∷ str)))
    ∙ ground arith

pub take_all : (n : ℕ) (s : List ℕ) → length s ≤ n → take n s ≡ s
take_all zero [] h = refl
take_all zero (x ∷ s) h = absurd (omega (arith, h))
take_all (suc n) [] h = refl
take_all (suc n) (x ∷ s) h = ap (λ t. x ∷ t) (take_all n s (omega (arith, h)))

pub length-take_le : (n : ℕ) (cs : ChunkList) → length (take n cs) ≤ n
length-take_le zero cs = omega arith
length-take_le (suc n) [] = omega arith
length-take_le (suc n) (c ∷ cs) = omega (arith, length-take_le n cs)

pub split_payloads-bytes :
    (f : ℕ) (str : List ℕ) → length str ≤ f → all_bytes (split_payloads f str) ≡ str
unfolding split_payloads all_bytes
split_payloads-bytes zero [] h = refl
split_payloads-bytes zero (x ∷ str) h = absurd (omega (arith, h))
split_payloads-bytes (suc f) [] h = refl
split_payloads-bytes (suc f) (x ∷ str) h =
    ap (λ b. take max_payload (x ∷ str) ++ b)
      (split_payloads-bytes f (drop max_payload (x ∷ str))
        (omega (arith, h, length-drop max_payload (x ∷ str))))
    ∙ take-drop max_payload (x ∷ str)

pub split_payloads-AllFilled : (f : ℕ) (str : List ℕ) → AllFilled (split_payloads f str)
unfolding split_payloads
split_payloads-AllFilled zero str = tt
split_payloads-AllFilled (suc f) [] = tt
split_payloads-AllFilled (suc f) (x ∷ str) =
    (omega arith, split_payloads-AllFilled f (drop max_payload (x ∷ str)))

pub long_payloads-bytes :
    (str : Text) → all_bytes (long_payloads str) ≡ put_bytes 8 (length str) ++ str
unfolding long_payloads all_bytes
long_payloads-bytes str =
    ap (λ b. (put_bytes 8 (length str) ++ take first_payload str) ++ b)
      (split_payloads-bytes (length str) (drop first_payload str)
        (omega (arith, length-drop first_payload str)))
    ∙ append_assoc (put_bytes 8 (length str)) (take first_payload str) (drop first_payload str)
    ∙ ap (λ b. put_bytes 8 (length str) ++ b) (take-drop first_payload str)

pub long_payloads-AllFilled : (str : Text) → AllFilled (long_payloads str)
unfolding long_payloads
long_payloads-AllFilled str = (
  omega (
    arith,
    length-append (put_bytes 8 (length str)) (take first_payload str),
    length-put_bytes 8 (length str),
  ),
  split_payloads-AllFilled (length str) (drop first_payload str),
)

pub length-map_chunks : (r s : ℕ) (ps : List (List ℕ)) → length (map (chunk_of r s) ps) ≡ length ps
length-map_chunks r s [] = refl
length-map_chunks r s (p ∷ ps) = ap suc (length-map_chunks r s ps)

pub payloads-map :
    (r s : ℕ) (ps : List (List ℕ)) → map (λ chunk. chunk.payload) (map (chunk_of r s) ps) ≡ ps
payloads-map r s [] = refl
payloads-map r s (p ∷ ps) = ap (λ qs. p ∷ qs) (payloads-map r s ps)

-- A chunk that fits a datagram and whose header has its size.
pub record FitsDatagram (chunk : PayloadChunk) : Type 0 where
  pub payload_fits : length chunk.payload ≤ max_payload
  pub length_kept : chunk.data_length ≡ length chunk.payload

chunk_of-FitsDatagram :
    (r s : ℕ) (p : List ℕ) → length p ≤ max_payload → FitsDatagram (chunk_of r s p)
chunk_of-FitsDatagram r s p h = record { payload_fits = h; length_kept = omega (arith, h) }

take_at_most : (n : ℕ) (s : List ℕ) → length (take n s) ≤ n
take_at_most zero s = omega arith
take_at_most (suc n) [] = omega arith
take_at_most (suc n) (x ∷ s) = omega (arith, take_at_most n s)

split_payloads-FitsDatagram :
    (r s f : ℕ) (str : List ℕ) → All FitsDatagram (map (chunk_of r s) (split_payloads f str))
unfolding split_payloads
split_payloads-FitsDatagram r s zero str = tt
split_payloads-FitsDatagram r s (suc f) [] = tt
split_payloads-FitsDatagram r s (suc f) (x ∷ str) = (
  chunk_of-FitsDatagram r s (take max_payload (x ∷ str)) (take_at_most max_payload (x ∷ str)),
  split_payloads-FitsDatagram r s f (drop max_payload (x ∷ str)),
)

-- Every chunk of a string, however long, fits a datagram with its header, and its data_length, a
-- uint16_t, is the number of its bytes.
pub encode_long_string-FitsDatagram :
    (r s : ℕ) (str : Text) → All FitsDatagram (encode_long_string r s str)
unfolding encode_long_string long_payloads
encode_long_string-FitsDatagram r s str = (
  chunk_of-FitsDatagram r s (put_bytes 8 (length str) ++ take first_payload str) (
      omega (
        arith,
        length-append (put_bytes 8 (length str)) (take first_payload str),
        length-put_bytes 8 (length str),
        take_at_most first_payload str,
      )),
  split_payloads-FitsDatagram r s (length str) (drop first_payload str),
)
