-- ===== src/TreeMessage/Codec.antt =====
-- What the three functions of an encoding promise of a value and its chunks, and that the loops over
-- vectors keep the promise of the elements.
use world_wide_anthropomorph.Base.{
  map, All, All-append, take-append_long, take-append_short, ℕ, zero, suc, ◌+◌, ◌-◌, ◌<◌, ◌≤◌, ◌≡◌,
  refl, ap, sym, ◌∙◌, ◌⊎◌, inl, inr, Bool, true, false, Option, none, some, List, [], ◌∷◌, ◌++◌,
  arith, length, take, drop, length-append, drop-append, take-append, ltb, ◌==◌, Result, ok, err,
  ◌>>=◌, Bool-cases,
}
pub mod Vector
use mathlib.Core.List.{append_assoc}
use world_wide_anthropomorph.TreeNode.TextForm.{long_values}
use world_wide_anthropomorph.TreeMessage.{PayloadChunk, ChunkList, payload_type, chunk_of}
use world_wide_anthropomorph.TreeMessage.Vectors.{encode_all, decode_all, can_decode_all}

-- A payload chunk of one request and signal.
pub record IsTagged (request_id signal : ℕ) (chunk : PayloadChunk) : Type 0 where
  pub type_same : chunk.signal_type ≡ payload_type
  pub id_same : chunk.request_id ≡ request_id
  pub signal_same : chunk.signal ≡ signal

pub chunk_of-IsTagged : (r s : ℕ) (p : List ℕ) → IsTagged r s (chunk_of r s p)
chunk_of-IsTagged r s p = record { type_same = refl; id_same = refl; signal_same = refl }

pub map-IsTagged : (r s : ℕ) (ps : List (List ℕ)) → All (IsTagged r s) (map (chunk_of r s) ps)
map-IsTagged r s [] = tt
map-IsTagged r s (p ∷ ps) = (chunk_of-IsTagged r s p, map-IsTagged r s ps)

-- The functions of an encoding, for one request and signal.
pub record Codec (X : Type 0) : Type 0 where
  pub request_id : ℕ
  pub signal : ℕ
  pub encode : X → Result ChunkList
  pub decode : ChunkList → Result (ℕ × X)
  pub can_decode : ℕ → ChunkList → Result (Option ℕ)

-- The chunks of a value are decoded to it whatever follows them, their end is found wherever they
-- start, and as long as the last of them are missing, no end is found and nothing is thrown. The
-- places of the chunks are size_t values.
pub record IsCoded {X : Type 0} (c : Codec X) (x : X) (chunks : ChunkList) : Type 0 where
  pub filled : 0 < length chunks
  pub tagged : All (IsTagged c.request_id c.signal) chunks
  pub encoded : c.encode x ≡ ok chunks
  pub decoded : (after : ChunkList) → c.decode (chunks ++ after) ≡ ok (length chunks, x)
  pub found :
      (before after : ChunkList)
      → length before + length chunks < long_values
      → c.can_decode (length before) (before ++ (chunks ++ after))
        ≡ ok (some (length before + length chunks))
  pub awaited :
      (before : ChunkList) (k : ℕ)
      → length before + length chunks < long_values
      → k < length chunks
      → c.can_decode (length before) (before ++ take k chunks) ≡ ok none

-- The same of a list of values, one after the other.
pub data AllCoded {X : Type 0} (c : Codec X) : List X → ChunkList → Type 0 where
  none_coded : AllCoded c [] []
  more_coded :
      {x : X} {xs : List X} {first rest : ChunkList}
      → IsCoded c x first
      → AllCoded c xs rest
      → AllCoded c (x ∷ xs) (first ++ rest)

pub positive_nonzero : (n : ℕ) → 0 < n → (n == 0) ≡ false
positive_nonzero n h = ground (arith, h)

pub lt-of_ltb : (a b : ℕ) → ltb a b ≡ true → a < b
lt-of_ltb a b h = ground (arith, h)

pub le-of_ltb : (a b : ℕ) → ltb a b ≡ false → b ≤ a
le-of_ltb a b h = ground (arith, h)

module _ {X : Type 0} (c : Codec X) where
  pub IsTagged-AllCoded :
      (xs : List X) (chunks : ChunkList)
      → AllCoded c xs chunks
      → All (IsTagged c.request_id c.signal) chunks
  IsTagged-AllCoded [] chunks none_coded = tt
  IsTagged-AllCoded (x ∷ xs) chunks (more_coded {first = first} {rest = rest} h hs) =
      All-append (IsTagged c.request_id c.signal) first rest h.tagged (IsTagged-AllCoded xs rest hs)

  pub encode_all-AllCoded :
      (xs : List X) (chunks : ChunkList) → AllCoded c xs chunks → encode_all c.encode xs ≡ ok chunks
  unfolding encode_all
  encode_all-AllCoded [] chunks none_coded = refl
  encode_all-AllCoded (x ∷ xs) chunks (more_coded {rest = rest} h hs) =
      rw (encode_all, h.encoded, encode_all-AllCoded xs rest hs) refl

  pub decode_all-AllCoded :
      (xs : List X) (chunks before after : ChunkList)
      → AllCoded c xs chunks
      → decode_all c.decode (length xs) (length before) (before ++ (chunks ++ after))
        ≡ ok (length before + length chunks, xs)
  unfolding decode_all
  decode_all-AllCoded [] chunks before after none_coded = ap (λ n. ok (n, [])) (omega arith)
  decode_all-AllCoded (x ∷ xs) chunks before after (more_coded {first = first} {rest = rest} h hs) =
      let tail : ChunkList = rest ++ after in
      let nonzero : (length first == 0) ≡ false = positive_nonzero (length first) h.filled in
      let later : decode_all c.decode (length xs) (length before + length first)
            (before ++ (first ++ tail))
          ≡ ok (length before + length (first ++ rest), xs) =
        rw (← length-append before first, ← append_assoc before first tail)
          (decode_all-AllCoded xs rest (before ++ first) after hs
            ∙ ap (λ n. ok (n, xs))
                (omega (arith, length-append before first, length-append first rest))) in
      ap (λ s. decode_all c.decode (length (x ∷ xs)) (length before) (before ++ s))
        (append_assoc first rest after)
      ∙ rw (decode_all, drop-append before (first ++ tail), h.decoded tail, nonzero, later) refl

  pub can_decode_all-AllCoded :
      (xs : List X) (chunks before after : ChunkList)
      → AllCoded c xs chunks
      → length before + length chunks < long_values
      → can_decode_all c.can_decode (length xs) (length before) (before ++ (chunks ++ after))
        ≡ ok (some (length before + length chunks))
  unfolding can_decode_all
  can_decode_all-AllCoded [] chunks before after none_coded fits =
      ap (λ n. ok (some n)) (omega arith)
  can_decode_all-AllCoded (x ∷ xs) chunks before after
        (more_coded {first = first} {rest = rest} h hs) fits =
      let tail : ChunkList = rest ++ after in
      let later : can_decode_all c.can_decode (length xs) (length before + length first)
            (before ++ (first ++ tail))
          ≡ ok (some (length before + length (first ++ rest))) =
        rw (← length-append before first, ← append_assoc before first tail)
          (can_decode_all-AllCoded xs rest (before ++ first) after hs
              (omega (arith, fits, length-append before first, length-append first rest))
            ∙ ap (λ n. ok (some n))
                (omega (arith, length-append before first, length-append first rest))) in
      ap (λ s. can_decode_all c.can_decode (length (x ∷ xs)) (length before) (before ++ s))
        (append_assoc first rest after)
      ∙ rw
          (
            can_decode_all,
            h.found before tail (omega (arith, fits, length-append first rest)),
            later,
          )
          refl

  pub can_decode_all-take :
      (xs : List X) (chunks before : ChunkList) (k : ℕ)
      → AllCoded c xs chunks
      → length before + length chunks < long_values
      → k < length chunks
      → can_decode_all c.can_decode (length xs) (length before) (before ++ take k chunks) ≡ ok none
  unfolding can_decode_all
  can_decode_all-take [] chunks before k none_coded fits less = absurd (omega (arith, less))
  can_decode_all-take (x ∷ xs) chunks before k (more_coded {first = first} {rest = rest} h hs) fits
        less =
      elim (Bool-cases (ltb k (length first))) [
        | inl e ↦
            ap (λ s. can_decode_all c.can_decode (length (x ∷ xs)) (length before) (before ++ s))
              (take-append_short k first rest (omega (arith, lt-of_ltb k (length first) e)))
            ∙ rw
                (
                  can_decode_all,
                  h.awaited before k (omega (arith, fits, length-append first rest))
                      (lt-of_ltb k (length first) e),
                )
                refl
        | inr e ↦
            let tail : ChunkList = take (k - length first) rest in
            let reached : length first ≤ k = le-of_ltb k (length first) e in
            let later : can_decode_all c.can_decode (length xs) (length before + length first)
                  (before ++ (first ++ tail))
                ≡ ok none =
              rw (← length-append before first, ← append_assoc before first tail)
                (can_decode_all-take xs rest (before ++ first) (k - length first) hs
                  (omega (arith, fits, length-append before first, length-append first rest))
                  (omega (arith, less, reached, length-append first rest))) in
            ap (λ s. can_decode_all c.can_decode (length (x ∷ xs)) (length before) (before ++ s))
              (take-append_long k first rest reached)
            ∙ rw
                (
                  can_decode_all,
                  h.found before tail (omega (arith, fits, length-append first rest)),
                  later,
                )
                refl
      ]
