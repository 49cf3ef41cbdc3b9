-- ===== src/SharedSpan.antt =====
-- common/transport/include/shared_chunk.h: shared_span::restrict and compress, on the bytes that
-- each chunk has in its range. Assertions are not modelled.
pub mod Restrict
use world_wide_anthropomorph.Base.{
  ℕ, ◌+◌, ◌-◌, ◌%◌, Bool, not, List, [], ◌∷◌, ◌++◌, if◌then◌else◌, leb, length, take, drop, keep_if,
}
use world_wide_anthropomorph.Text.{is_empty}

-- The bytes of a chunk that are in its range.
abbrev pub Chunk : Type 0
Chunk = List ℕ

-- The number of values of a size_t.
abbrev pub size_values : ℕ
size_values = 18446744073709551616

-- One erase of the first chunk, where `kept` are the chunks before the current one. The current
-- index stays, so that without kept chunks the current one goes, and else it is passed over.
unfoldable pub erase_first : List Chunk → Chunk → List Chunk
erase_first [] chunk = []
erase_first (k ∷ kept) chunk = kept ++ chunk ∷ []

-- The loop of shared_span::restrict, over the chunks from current_chunk on.
unfoldable pub restrict_loop : List Chunk → ℕ → ℕ → List Chunk → List Chunk
unfolding erase_first
restrict_loop kept start len [] = kept
restrict_loop kept start len (chunk ∷ chunks) =
    let passed = restrict_loop (erase_first kept chunk) (start - length chunk) len chunks in
    let begun =
      restrict_loop (kept ++ drop start chunk ∷ []) 0 (len - (length chunk - start)) chunks in
    if leb ((start + len) % size_values) (length chunk)
    then kept ++ take len (drop start chunk) ∷ []
    else if leb (length chunk) start
    then passed
    else begun

-- shared_span::restrict
unfoldable pub restrict : ℕ → ℕ → List Chunk → List Chunk
unfolding restrict_loop
restrict start len chunks = restrict_loop [] start len chunks

-- shared_span::compress
unfoldable pub compress : List Chunk → List Chunk
compress = keep_if (λ chunk. not (is_empty chunk))
