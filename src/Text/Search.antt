-- ===== src/Text/Search.antt =====
-- Prefixes and positions: what find, find_last_of and substr return on texts that are put together.
use world_wide_anthropomorph.Base.{
  sym, ap, ◌≢◌, ℕ, suc, ◌≡◌, refl, true, none, some, [], ◌∷◌, ◌++◌, arith, length, drop,
}
use world_wide_anthropomorph.Text.{Text, starts_with, find_char, find_last, byte_at}

pub starts_with-append : (p s : Text) → starts_with (p ++ s) p ≡ true
unfolding starts_with
starts_with-append [] [] = refl
starts_with-append [] (x ∷ s) = refl
starts_with-append (x ∷ p) s = ground (arith, starts_with-append p s)

-- A text that begins with `p` is `p` and what substr(p.size()) leaves.
pub starts_with-split : (s p : Text) → starts_with s p ≡ true → p ++ drop (length p) s ≡ s
unfolding starts_with
starts_with-split s [] h = refl
starts_with-split [] (y ∷ ys) h = cc
starts_with-split (x ∷ xs) (y ∷ ys) h = ground (arith, starts_with-split xs ys)

-- `c` does not occur in the text.
abbrev pub IsFree : ℕ → Text → Type 0
IsFree c s = find_char c s ≡ none

pub find_char-append_free :
    (c : ℕ) (s t : Text) → IsFree c s → find_char c (s ++ c ∷ t) ≡ some (length s)
unfolding find_char
find_char-append_free c [] t h = ground arith
find_char-append_free c (x ∷ s) t h = ground (arith, find_char-append_free c s t)

pub find_last_free : (c : ℕ) (s : Text) → IsFree c s → find_last c s ≡ none
unfolding find_char find_last
find_last_free c [] h = refl
find_last_free c (x ∷ s) h = ground (arith, find_last_free c s)

pub find_last-append :
    (c : ℕ) (s t : Text) → IsFree c t → find_last c (s ++ c ∷ t) ≡ some (length s)
unfolding find_last
find_last-append c [] t h = ground (arith, find_last_free c t h)
find_last-append c (x ∷ s) t h = ground (arith, find_last-append c s t h)

pub byte_at-append : (s t : Text) (x : ℕ) → byte_at (s ++ x ∷ t) (length s) ≡ x
byte_at-append [] t x = refl
byte_at-append (y ∷ s) t x = byte_at-append s t x

pub drop-append_suc : (s t : Text) (x : ℕ) → drop (suc (length s)) (s ++ x ∷ t) ≡ t
drop-append_suc [] t x = refl
drop-append_suc (y ∷ s) t x = drop-append_suc s t x

pub starts_with-append_both : (p s t : Text) → starts_with (p ++ s) (p ++ t) ≡ starts_with s t
unfolding starts_with
starts_with-append_both [] s t = refl
starts_with-append_both (x ∷ p) s t = ground (arith, starts_with-append_both p s t)

-- A text that begins with another and is as long is the same.
pub starts_with-same_length : (s p : Text) → starts_with s p ≡ true → length s ≡ length p → s ≡ p
unfolding starts_with
starts_with-same_length [] [] h e = refl
starts_with-same_length (x ∷ s) [] h e = absurd (omega (arith, e))
starts_with-same_length [] (y ∷ p) h e = cc
starts_with-same_length (x ∷ s) (y ∷ p) h e = ground (arith, starts_with-same_length s p)

-- A text that begins with another, and has the byte `x` right after it, is split there.
pub starts_with-next :
    (s p : Text) (x : ℕ)
    → starts_with s p ≡ true
    → length s ≢ length p
    → byte_at s (length p) ≡ x
    → p ++ x ∷ drop (suc (length p)) s ≡ s
unfolding starts_with
starts_with-next [] [] x h e b = absurd (e refl)
starts_with-next (y ∷ s) [] x h e b = ap (λ z. z ∷ s) (sym b)
starts_with-next [] (z ∷ p) x h e b = cc
starts_with-next (y ∷ s) (z ∷ p) x h e b =
    ground (arith, starts_with-next s p x (ground arith) (λ q. e (ap suc q)) b)
