-- ===== src/Text/Order.antt =====
-- operator< on std::string is a strict total order, with operator== for equality.
use world_wide_anthropomorph.Base.{◌++◌, ℕ, ◌≡◌, refl, true, false, [], ◌∷◌, arith}
use world_wide_anthropomorph.Text.{Text, text_eq, text_lt}

pub text_lt_irrefl : (a : Text) → text_lt a a ≡ false
unfolding text_lt
text_lt_irrefl [] = refl
text_lt_irrefl (x ∷ xs) = ground (arith, text_lt_irrefl xs)

pub text_lt_trans : (a b c : Text) → text_lt a b ≡ true → text_lt b c ≡ true → text_lt a c ≡ true
unfolding text_lt
text_lt_trans [] [] c p q = cc
text_lt_trans [] (y ∷ ys) [] p q = cc
text_lt_trans [] (y ∷ ys) (z ∷ zs) p q = refl
text_lt_trans (x ∷ xs) [] c p q = cc
text_lt_trans (x ∷ xs) (y ∷ ys) [] p q = cc
text_lt_trans (x ∷ xs) (y ∷ ys) (z ∷ zs) p q = ground (arith, text_lt_trans xs ys zs)

-- Of two texts neither of which is less than the other, both are the same.
pub text_lt_total : (a b : Text) → text_lt a b ≡ false → text_lt b a ≡ false → text_eq a b ≡ true
unfolding text_lt text_eq
text_lt_total [] [] p q = refl
text_lt_total [] (y ∷ ys) p q = cc
text_lt_total (x ∷ xs) [] p q = cc
text_lt_total (x ∷ xs) (y ∷ ys) p q = ground (arith, text_lt_total xs ys)

pub text_lt_asymm : (a b : Text) → text_lt a b ≡ true → text_lt b a ≡ false
unfolding text_lt
text_lt_asymm [] [] p = refl
text_lt_asymm [] (y ∷ ys) p = refl
text_lt_asymm (x ∷ xs) [] p = cc
text_lt_asymm (x ∷ xs) (y ∷ ys) p = ground (arith, text_lt_asymm xs ys)

pub text_lt-append_both : (p s t : Text) → text_lt (p ++ s) (p ++ t) ≡ text_lt s t
unfolding text_lt
text_lt-append_both [] s t = refl
text_lt-append_both (x ∷ p) s t = ground (arith, text_lt-append_both p s t)

pub text_lt-append : (s t : Text) (x : ℕ) → text_lt (s ++ x ∷ t) s ≡ false
unfolding text_lt
text_lt-append [] t x = refl
text_lt-append (y ∷ s) t x = ground (arith, text_lt-append s t x)

pub text_lt-longer : (s t : Text) (x : ℕ) → text_lt s (s ++ x ∷ t) ≡ true
unfolding text_lt
text_lt-longer [] t x = refl
text_lt-longer (y ∷ s) t x = ground (arith, text_lt-longer s t x)
