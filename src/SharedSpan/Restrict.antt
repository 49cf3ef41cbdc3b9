-- ===== src/SharedSpan/Restrict.antt =====
-- restrict against the bytes of the whole span.
use world_wide_anthropomorph.Base.{
  ◌⊎◌, ℕ, zero, suc, ◌+◌, ◌-◌, ◌<◌, ◌≤◌, ◌%◌, ◌≡◌, ◌∙◌, ap, sym, refl, true, false, List, [], ◌∷◌,
  ◌++◌, arith, length, take, drop, All, Bool-cases, inl, inr, leb,
}
use mathlib.Core.List.{append_assoc, append-nil}
use world_wide_anthropomorph.SharedSpan.{Chunk, size_values, erase_first, restrict_loop, restrict}

-- The bytes of a span.
unfoldable pub all_bytes : List Chunk → List ℕ
all_bytes [] = []
all_bytes (chunk ∷ chunks) = chunk ++ all_bytes chunks

all_bytes-append : (xs ys : List Chunk) → all_bytes (xs ++ ys) ≡ all_bytes xs ++ all_bytes ys
unfolding all_bytes
all_bytes-append [] ys = refl
all_bytes-append (x ∷ xs) ys =
    ap (λ b. x ++ b) (all_bytes-append xs ys) ∙ sym (append_assoc x (all_bytes xs) (all_bytes ys))

take_within : (n : ℕ) (xs ys : List ℕ) → n ≤ length xs → take n (xs ++ ys) ≡ take n xs
take_within zero xs ys h = refl
take_within (suc n) [] ys h = absurd (omega (arith, h))
take_within (suc n) (x ∷ xs) ys h = ap (λ b. x ∷ b) (take_within n xs ys (omega (arith, h)))

drop_within : (n : ℕ) (xs ys : List ℕ) → n ≤ length xs → drop n (xs ++ ys) ≡ drop n xs ++ ys
drop_within zero xs ys h = refl
drop_within (suc n) [] ys h = absurd (omega (arith, h))
drop_within (suc n) (x ∷ xs) ys h = drop_within n xs ys (omega (arith, h))

drop_beyond : (n : ℕ) (xs ys : List ℕ) → length xs ≤ n → drop n (xs ++ ys) ≡ drop (n - length xs) ys
drop_beyond n [] ys h = ap (λ k. drop k ys) (omega arith)
drop_beyond zero (x ∷ xs) ys h = absurd (omega (arith, h))
drop_beyond (suc n) (x ∷ xs) ys h =
    drop_beyond n xs ys (omega (arith, h)) ∙ ap (λ k. drop k ys) (omega (arith, h))

take_beyond :
    (n : ℕ) (xs ys : List ℕ) → length xs ≤ n → take n (xs ++ ys) ≡ xs ++ take (n - length xs) ys
take_beyond n [] ys h = ap (λ k. take k ys) (omega arith)
take_beyond zero (x ∷ xs) ys h = absurd (omega (arith, h))
take_beyond (suc n) (x ∷ xs) ys h =
    ap (λ b. x ∷ b)
      (take_beyond n xs ys (omega (arith, h)) ∙ ap (λ k. xs ++ take k ys) (omega (arith, h)))

pub length-drop : (n : ℕ) (xs : List ℕ) → length (drop n xs) ≡ length xs - n
length-drop zero xs = omega arith
length-drop (suc n) [] = omega arith
length-drop (suc n) (x ∷ xs) = length-drop n xs ∙ omega arith

-- No chunk is empty.
abbrev pub AllFilled : List Chunk → Type 0
AllFilled = All (λ chunk. 0 < length chunk)

-- Chunks are kept only once the range has begun.
abbrev Begun : List Chunk → ℕ → Type 0
Begun kept start = (kept ≡ []) ⊎ (start ≡ 0)

all_bytes-snoc :
    (kept : List Chunk) (chunk : Chunk) → all_bytes (kept ++ chunk ∷ []) ≡ all_bytes kept ++ chunk
unfolding all_bytes
all_bytes-snoc kept chunk =
    all_bytes-append kept (chunk ∷ []) ∙ ap (λ b. all_bytes kept ++ b) (append-nil chunk)

cut_here :
    (start len : ℕ) (chunk : Chunk) (later : List ℕ)
    → start + len ≤ length chunk
    → take len (drop start (chunk ++ later)) ≡ take len (drop start chunk)
cut_here start len chunk later h =
    rw (drop_within start chunk later (omega (arith, h)))
      (take_within len (drop start chunk) later (omega (arith, h, length-drop start chunk)))

cut_later :
    (start len : ℕ) (chunk : Chunk) (later : List ℕ)
    → start ≤ length chunk
    → length chunk ≤ start + len
    → take len (drop start (chunk ++ later))
      ≡ drop start chunk ++ take (len - (length chunk - start)) later
cut_later start len chunk later h past = rw (drop_within start chunk later h) (
    take_beyond len (drop start chunk) later (omega (arith, past, length-drop start chunk))
    ∙ ap (λ k. drop start chunk ++ take (len - k) later) (length-drop start chunk))

nothing_left : (start len : ℕ) → take len (drop {A = ℕ} start []) ≡ []
nothing_left zero zero = refl
nothing_left zero (suc len) = refl
nothing_left (suc start) zero = refl
nothing_left (suc start) (suc len) = refl

restrict_loop_bytes :
    (kept : List Chunk) (start len : ℕ) (chunks : List Chunk)
    → Begun kept start
    → AllFilled chunks
    → start + len < size_values
    → all_bytes (restrict_loop kept start len chunks)
      ≡ all_bytes kept ++ take len (drop start (all_bytes chunks))
unfolding restrict_loop all_bytes erase_first
restrict_loop_bytes kept start len [] begun filled bound =
    sym (append-nil (all_bytes kept)) ∙ ap (λ b. all_bytes kept ++ b) (sym (nothing_left start len))
restrict_loop_bytes kept start len (chunk ∷ chunks) begun (fill, filled) bound =
    elim (Bool-cases (leb ((start + len) % size_values) (length chunk))) [
      | inl ends ↦
          rw (ends, restrict_loop)
            (all_bytes-snoc kept (take len (drop start chunk))
              ∙ ap (λ b. all_bytes kept ++ b)
                  (sym (cut_here start len chunk (all_bytes chunks) (ground (arith, bound)))))
      | inr goes_on ↦ elim (Bool-cases (leb (length chunk) start)) [
        | inl before ↦ elim begun [
          | inl none_kept ↦
              rw (goes_on, before, none_kept, restrict_loop)
                (restrict_loop_bytes [] (start - length chunk) len chunks (inl refl) filled
                    (omega (arith, bound))
                  ∙ ap (λ b. take len b)
                      (sym (drop_beyond start chunk (all_bytes chunks) (ground arith))))
          | inr at_start ↦ absurd (ground arith)
        ]
        | inr here ↦
            let past : length chunk ≤ start + len = ground (arith, bound) in
            let inside : start ≤ length chunk = ground arith in
            rw (goes_on, here, restrict_loop)
              (restrict_loop_bytes (kept ++ drop start chunk ∷ []) 0 (len - (length chunk - start))
                  chunks (inr refl) filled (omega (arith, bound))
                ∙ ap (λ b. b ++ take (len - (length chunk - start)) (all_bytes chunks))
                    (all_bytes-snoc kept (drop start chunk))
                ∙ append_assoc (all_bytes kept) (drop start chunk)
                    (take (len - (length chunk - start)) (all_bytes chunks))
                ∙ ap (λ b. all_bytes kept ++ b)
                    (sym (cut_later start len chunk (all_bytes chunks) inside past)))
      ]
    ]

-- Where no chunk of the span is empty and the end of the range fits in a size_t, restrict gives the
-- bytes of the range, or as many of them as the span has.
pub restrict_lem :
    (start len : ℕ) (chunks : List Chunk)
    → AllFilled chunks
    → start + len < size_values
    → all_bytes (restrict start len chunks) ≡ take len (drop start (all_bytes chunks))
unfolding restrict all_bytes
restrict_lem start len chunks filled bound =
    restrict_loop_bytes [] start len chunks (inl refl) filled bound

-- Where the range goes past the first chunk into an empty one and on into a third, restrict loses
-- what it took of the first.
pub restrict-empty_chunk :
    (first third : Chunk) (start len : ℕ)
    → start < length first
    → length first < start + len
    → start + len < size_values
    → start + len ≤ length first + length third
    → all_bytes (restrict start len (first ∷ [] ∷ third ∷ []))
      ≡ take (len - (length first - start)) third
unfolding restrict restrict_loop erase_first all_bytes
restrict-empty_chunk first third start len h1 h2 h3 h4 =
    let left : ℕ = len - (length first - start) in
    let goes_on : leb ((start + len) % size_values) (length first) ≡ false =
      ground (arith, h2, h3) in
    let inside : leb (length first) start ≡ false = ground (arith, h1) in
    let not_empty : leb ((0 + left) % size_values) 0 ≡ false = ground (arith, h1, h2, h3) in
    let ends : leb ((0 + left) % size_values) (length third) ≡ true =
      ground (arith, h1, h2, h3, h4) in
    rw (goes_on, inside, not_empty, ends, restrict) (append-nil (take left third))
