-- ===== src/Stream/Words.antt =====
-- Words without white space are read back.
use world_wide_anthropomorph.Base.{
  not, ◌&&◌, ℕ, ◌<◌, ◌≡◌, refl, ap, Bool, true, false, [], ◌∷◌, ◌++◌, arith, All, length, ok,
}
use world_wide_anthropomorph.Text.{Text}
use world_wide_anthropomorph.Stream.{is_space, skip_space, split_word, read_word}

-- A byte that is no white space.
abbrev pub IsPlain : ℕ → Type 0
IsPlain c = is_space c ≡ false

-- A text that operator>> reads as a whole.
pub record IsWord (w : Text) : Type 0 where
  pub filled : 0 < length w
  pub plain : All IsPlain w

-- A text at whose front a word ends.
abbrev pub Ends : Text → Type 0
Ends [] = Unit
Ends (c ∷ s) = is_space c ≡ true

pub split_word-append :
    (w rest : Text) → All IsPlain w → Ends rest → split_word (w ++ rest) ≡ (w, rest)
unfolding split_word
split_word-append [] [] h e = refl
split_word-append [] (c ∷ rest) h e = rw e refl
split_word-append (c ∷ w) rest (h, hs) e = rw (h, split_word-append w rest hs e) refl

pub read_word-append : (w rest : Text) → IsWord w → Ends rest → read_word (w ++ rest) ≡ ok (w, rest)
unfolding read_word skip_space
read_word-append [] rest h e = absurd (omega (arith, h.filled))
read_word-append (c ∷ w) rest h e =
    rw (read_word, h.plain.0) (ap ok (split_word-append (c ∷ w) rest h.plain e))

-- White space before a word is passed over.
pub read_word-space : (c : ℕ) (s : Text) → is_space c ≡ true → read_word (c ∷ s) ≡ read_word s
unfolding read_word skip_space
read_word-space c s h = rw (read_word, h) refl

-- A literal is a word by a test that computes.
abbrev pub all_plain : Text → Bool
all_plain [] = true
all_plain (c ∷ s) = not (is_space c) && all_plain s

split_test : (a b : Bool) → (not a && b) ≡ true → (a ≡ false) × (b ≡ true)
split_test true b h = absurd (cc)
split_test false b h = (refl, h)

IsPlain-of_test : (s : Text) → all_plain s ≡ true → All IsPlain s
IsPlain-of_test [] h = tt
IsPlain-of_test (c ∷ s) h =
    let (first, later) = split_test (is_space c) (all_plain s) h in (first, IsPlain-of_test s later)

pub IsWord-cons : (c : ℕ) (s : Text) → all_plain (c ∷ s) ≡ true → IsWord (c ∷ s)
IsWord-cons c s h = record { filled = omega arith; plain = IsPlain-of_test (c ∷ s) h }
