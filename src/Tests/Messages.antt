-- ===== src/Tests/Messages.antt =====
-- Tests of encoded labels and strings, and examples for their theorems.
use world_wide_anthropomorph.TreeMessage.{
  first_offset, chunks_after, ChunkList, encode_long_string, decode_long_string,
}
use world_wide_anthropomorph.Base.{ℕ, zero, suc, ◌<◌, ◌≡◌, refl, arith, [], ◌∷◌, ◌++◌, ok, length}
use world_wide_anthropomorph.Text.{Text, bytes}
use world_wide_anthropomorph.TreeMessage.LongString.{decode_long_string-encode_long_string}

abbrev other_chunks : ChunkList
other_chunks = encode_long_string 4 7 (bytes "Nothing")

decode_nothing : decode_long_string other_chunks ≡ ok (1, bytes "Nothing")
unfolding decode_long_string encode_long_string chunks_after first_offset
decode_nothing = refl

decode_long_string-encode_long_string_example :
    decode_long_string (encode_long_string 4 7 (bytes "Just a") ++ other_chunks)
    ≡ ok (length (encode_long_string 4 7 (bytes "Just a")), bytes "Just a")
decode_long_string-encode_long_string_example =
    decode_long_string-encode_long_string 4 7 (bytes "Just a") other_chunks (omega arith)

-- A text of so many bytes.
abbrev repeated : ℕ → Text
repeated zero = []
repeated (suc n) = 97 ∷ repeated n

abbrev long_text : Text
long_text = repeated 1200

two_chunks : length (encode_long_string 4 7 long_text) ≡ 2
unfolding encode_long_string
two_chunks = refl

two_missing : 1 < length (encode_long_string 4 7 long_text)
two_missing = omega (arith, two_chunks)

long_fits : length long_text < 2147483648
long_fits = omega arith
