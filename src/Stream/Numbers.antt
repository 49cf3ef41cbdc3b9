-- ===== src/Stream/Numbers.antt =====
-- Printed numbers are read back.
use world_wide_anthropomorph.Stream.{
  is_space, skip_space, put_digits, put_number, put_int, hex_digit, digit_of, scan_digits,
  starts_digit, split_sign, scan_number, read_number, last_number, read_int, int_values,
}
use world_wide_anthropomorph.Base.{
  ltb, inr, inl, Option-cases, ℕ, zero, suc, ◌+◌, ◌/◌, ◌%◌, ◌<◌, ◌≤◌, ◌≡◌, refl, ap, ◌∙◌, sym, Bool,
  true, false, [], ◌∷◌, arith, ok, leb, some, ℤ, pos, negsuc,
}
use world_wide_anthropomorph.Text.{Text}

-- A text that no digit begins.
abbrev pub Stops : Bool → Text → Type 0
Stops hex s = starts_digit hex s ≡ false

digit_of-decimal : (d : ℕ) → d < 10 → digit_of false (48 + d) ≡ some d
unfolding digit_of
digit_of-decimal d h = ground (arith, h)

pub digit_of-hex_digit : (d : ℕ) → d < 16 → digit_of true (hex_digit d) ≡ some d
unfolding digit_of
digit_of-hex_digit d h = ground (arith, h)

Stops-not :
    (hex : Bool) (c : ℕ) (s : Text) (d : ℕ) → digit_of hex c ≡ some d → Stops hex (c ∷ s) → ⊥
unfolding starts_digit
Stops-not hex c s d e h = cc (rw (starts_digit, e) at h)

pub scan_digits-stop : (hex : Bool) (n : ℕ) (s : Text) → Stops hex s → scan_digits hex n s ≡ (n, s)
unfolding scan_digits starts_digit
scan_digits-stop hex n [] h = refl
scan_digits-stop hex n (c ∷ s) h = elim (Option-cases (digit_of hex c)) [
  | inl e ↦ rw (scan_digits, e) refl
  | inr (d, e) ↦ absurd (Stops-not hex c s d e h)
]

scan_digits-put_digits :
    (f n : ℕ) (out : Text)
    → n ≤ f
    → scan_digits false 0 (put_digits f n out) ≡ scan_digits false n out
unfolding put_digits scan_digits
scan_digits-put_digits zero n out h = ap (λ k. scan_digits false k out) (omega (arith, h))
scan_digits-put_digits (suc f) zero out h = refl
scan_digits-put_digits (suc f) (suc n) out h =
    scan_digits-put_digits f (suc n / 10) ((48 + suc n % 10) ∷ out) (omega (arith, h))
    ∙ rw (scan_digits, digit_of-decimal (suc n % 10) (omega arith))
        (ap (λ k. scan_digits false k out) (omega arith))

scan_digits-put_number :
    (n : ℕ) (out : Text) → Stops false out → scan_digits false 0 (put_number n out) ≡ (n, out)
unfolding put_number scan_digits
scan_digits-put_number zero out h =
    rw (scan_digits, digit_of-decimal 0 (omega arith)) (scan_digits-stop false 0 out h)
scan_digits-put_number (suc n) out h =
    scan_digits-put_digits (suc n) (suc n) out (omega arith) ∙ scan_digits-stop false (suc n) out h

-- A text that begins with a decimal digit.
abbrev DigitFirst : Text → Type 0
DigitFirst s = (d : ℕ) × (t : Text) × (d < 10) × (s ≡ (48 + d) ∷ t)

put_digits-DigitFirst : (f n : ℕ) (out : Text) → DigitFirst out → DigitFirst (put_digits f n out)
unfolding put_digits
put_digits-DigitFirst zero n out h = h
put_digits-DigitFirst (suc f) zero out h = h
put_digits-DigitFirst (suc f) (suc n) out h =
    put_digits-DigitFirst f (suc n / 10) ((48 + suc n % 10) ∷ out)
      (suc n % 10, out, omega arith, refl)

put_number-DigitFirst : (n : ℕ) (out : Text) → DigitFirst (put_number n out)
unfolding put_number put_digits
put_number-DigitFirst zero out = (0, out, omega arith, refl)
put_number-DigitFirst (suc n) out =
    put_digits-DigitFirst n (suc n / 10) ((48 + suc n % 10) ∷ out)
      (suc n % 10, out, omega arith, refl)

-- Such a text has no white space and no sign at its front.
digit_unskipped : (s : Text) → DigitFirst s → skip_space s ≡ s
unfolding skip_space
digit_unskipped s (d, t, h, e) = rw e (ground (arith, h))

digit_unsigned : (s : Text) → DigitFirst s → split_sign s ≡ (false, s)
unfolding split_sign
digit_unsigned s (d, t, h, e) = rw e (ground (arith, h))

digit_starts : (s : Text) → DigitFirst s → starts_digit false s ≡ true
unfolding starts_digit
digit_starts s (d, t, h, e) = rw (e, starts_digit, digit_of-decimal d h) refl

-- What scan_number makes of a text that it reads from its front on.
pub scan_number-front :
    (hex : Bool) (limit n c : ℕ) (t out : Text)
    → skip_space (c ∷ t) ≡ c ∷ t
    → split_sign (c ∷ t) ≡ (false, c ∷ t)
    → starts_digit hex (c ∷ t) ≡ true
    → scan_digits hex 0 (c ∷ t) ≡ (n, out)
    → n < limit
    → scan_number hex limit (c ∷ t) ≡ ok (n, some out)
unfolding scan_number
scan_number-front hex limit n c t out e1 e2 e3 e4 h =
    let small : leb limit n ≡ false = ground (arith, h) in
    rw (scan_number, e1, e2, e3, e4, small) refl

-- A printed number that is below the limit is read back, up to what no digit begins.
pub scan_number-put_number :
    (limit n : ℕ) (out : Text)
    → n < limit
    → Stops false out
    → scan_number false limit (put_number n out) ≡ ok (n, some out)
scan_number-put_number limit n out h stops =
    let s : Text = put_number n out in
    let (d, t, small, e) = put_number-DigitFirst n out in
    let first : DigitFirst ((48 + d) ∷ t) = (d, t, small, refl) in
    rw e (
      scan_number-front false limit n (48 + d) t out (digit_unskipped ((48 + d) ∷ t) first)
        (digit_unsigned ((48 + d) ∷ t) first) (digit_starts ((48 + d) ∷ t) first)
        (ap (scan_digits false 0) (sym e) ∙ scan_digits-put_number n out stops) h)

pub read_number-put_number :
    (limit n : ℕ) (out : Text)
    → n < limit
    → Stops false out
    → read_number limit (put_number n out) ≡ ok (n, out)
unfolding read_number
read_number-put_number limit n out h stops =
    rw (read_number, scan_number-put_number limit n out h stops) refl

pub last_number-put_number :
    (limit n : ℕ) (out : Text)
    → n < limit
    → Stops false out
    → last_number false limit (put_number n out) ≡ ok n
unfolding last_number
last_number-put_number limit n out h stops =
    rw (last_number, scan_number-put_number limit n out h stops) refl

-- White space before a number is passed over.
pub scan_number-space :
    (hex : Bool) (limit c : ℕ) (s : Text)
    → is_space c ≡ true
    → scan_number hex limit (c ∷ s) ≡ scan_number hex limit s
unfolding scan_number skip_space
scan_number-space hex limit c s h = rw (scan_number, h) refl

pub read_number-space :
    (limit c : ℕ) (s : Text) → is_space c ≡ true → read_number limit (c ∷ s) ≡ read_number limit s
unfolding read_number
read_number-space limit c s h = rw (read_number, scan_number-space false limit c s h) refl

-- An int that fits is read back.
abbrev pub FitsInt : ℤ → Type 0
FitsInt (pos n) = n < int_values
FitsInt (negsuc n) = n < int_values

pub read_int-put_int :
    (i : ℤ) (out : Text) → FitsInt i → Stops false out → read_int (put_int i out) ≡ ok (i, out)
unfolding read_int put_int
read_int-put_int (pos n) out h stops =
    let first : DigitFirst (put_number n out) = put_number-DigitFirst n out in
    let small : leb int_values n ≡ false = ground (arith, h) in
    rw
      (
        read_int,
        digit_unskipped (put_number n out) first,
        digit_unsigned (put_number n out) first,
        digit_starts (put_number n out) first,
        scan_digits-put_number n out stops,
        small,
      )
      refl
read_int-put_int (negsuc n) out h stops =
    let first : DigitFirst (put_number (suc n) out) = put_number-DigitFirst (suc n) out in
    let small : ltb int_values (suc n) ≡ false = ground (arith, h) in
    let minus : split_sign (skip_space (b'-' ∷ put_number (suc n) out))
        ≡ (true, put_number (suc n) out) =
      unfold split_sign skip_space in refl in
    rw
      (
        read_int,
        minus,
        digit_starts (put_number (suc n) out) first,
        scan_digits-put_number (suc n) out stops,
        small,
      )
      refl

pub read_int-space : (c : ℕ) (s : Text) → is_space c ≡ true → read_int (c ∷ s) ≡ read_int s
unfolding read_int skip_space
read_int-space c s h = rw (read_int, h) refl
