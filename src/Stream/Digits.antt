-- ===== src/Stream/Digits.antt =====
-- Numbers of a fixed count of hexadecimal digits are read back, and how long printed numbers are.
use world_wide_anthropomorph.Stream.{
  to_string, skip_space, put_digits, put_number, put_hex, hex_digit, scan_digits, starts_digit,
  split_sign, scan_number,
}
use mathlib.Core.List.{append_assoc}
use world_wide_anthropomorph.Base.{
  ℕ, zero, suc, ◌+◌, ◌/◌, ◌%◌, ◌<◌, ◌≤◌, ◌≡◌, refl, ap, ◌∙◌, sym, true, false, [], ◌∷◌, ◌++◌, arith,
  length, ok, some,
}
use world_wide_anthropomorph.Text.{Text}
use world_wide_anthropomorph.Stream.Numbers.{
  Stops, digit_of-hex_digit, scan_digits-stop, scan_number-front,
}

-- The numbers that so many hexadecimal digits hold.
abbrev pub FitsHex : ℕ → ℕ → Type 0
FitsHex zero n = n ≡ 0
FitsHex (suc k) n = FitsHex k (n / 16)

pub scan_digits-put_hex :
    (k n : ℕ) (out : Text)
    → FitsHex k n
    → scan_digits true 0 (put_hex k n out) ≡ scan_digits true n out
unfolding put_hex scan_digits
scan_digits-put_hex zero n out h = ap (λ v. scan_digits true v out) (sym h)
scan_digits-put_hex (suc k) n out h =
    scan_digits-put_hex k (n / 16) (hex_digit (n % 16) ∷ out) h
    ∙ rw (scan_digits, digit_of-hex_digit (n % 16) (omega arith))
        (ap (λ v. scan_digits true v out) (omega arith))

-- A text that begins with a hexadecimal digit.
abbrev HexFirst : Text → Type 0
HexFirst s = (d : ℕ) × (t : Text) × (d < 16) × (s ≡ hex_digit d ∷ t)

put_hex-HexFirst : (k n : ℕ) (out : Text) → HexFirst out → HexFirst (put_hex k n out)
unfolding put_hex
put_hex-HexFirst zero n out h = h
put_hex-HexFirst (suc k) n out h =
    put_hex-HexFirst k (n / 16) (hex_digit (n % 16) ∷ out) (n % 16, out, omega arith, refl)

hex_unskipped : (d : ℕ) (t : Text) → d < 16 → skip_space (hex_digit d ∷ t) ≡ hex_digit d ∷ t
unfolding skip_space
hex_unskipped d t h = ground (arith, h)

hex_unsigned : (d : ℕ) (t : Text) → d < 16 → split_sign (hex_digit d ∷ t) ≡ (false, hex_digit d ∷ t)
unfolding split_sign
hex_unsigned d t h = ground (arith, h)

hex_starts : (d : ℕ) (t : Text) → d < 16 → starts_digit true (hex_digit d ∷ t) ≡ true
unfolding starts_digit
hex_starts d t h = rw (starts_digit, digit_of-hex_digit d h) refl

-- A number printed in hexadecimal digits that hold it is read back.
pub scan_number-put_hex :
    (k limit n : ℕ) (out : Text)
    → FitsHex (suc k) n
    → n < limit
    → Stops true out
    → scan_number true limit (put_hex (suc k) n out) ≡ ok (n, some out)
unfolding put_hex
scan_number-put_hex k limit n out fits h stops =
    let s : Text = put_hex (suc k) n out in
    let (d, t, small, e) =
      put_hex-HexFirst k (n / 16) (hex_digit (n % 16) ∷ out) (n % 16, out, omega arith, refl) in
    let e' : s ≡ hex_digit d ∷ t = e in
    rw e' (
      scan_number-front true limit n (hex_digit d) t out (hex_unskipped d t small)
        (hex_unsigned d t small) (hex_starts d t small)
        (ap (scan_digits true 0) (sym e')
          ∙ scan_digits-put_hex (suc k) n out fits
          ∙ scan_digits-stop true n out stops)
        h)

pub length-put_hex : (k n : ℕ) (out : Text) → length (put_hex k n out) ≡ k + length out
unfolding put_hex
length-put_hex zero n out = omega arith
length-put_hex (suc k) n out = omega (arith, length-put_hex k (n / 16) (hex_digit (n % 16) ∷ out))

pub put_hex-append : (k n : ℕ) (out : Text) → put_hex k n out ≡ put_hex k n [] ++ out
unfolding put_hex
put_hex-append zero n out = refl
put_hex-append (suc k) n out =
    put_hex-append k (n / 16) (hex_digit (n % 16) ∷ out)
    ∙ sym (
        ap (λ s. s ++ out) (put_hex-append k (n / 16) (hex_digit (n % 16) ∷ []))
        ∙ append_assoc (put_hex k (n / 16) []) (hex_digit (n % 16) ∷ []) out)

-- The numbers that so many decimal digits hold.
abbrev pub FitsDecimal : ℕ → ℕ → Type 0
FitsDecimal zero n = n ≡ 0
FitsDecimal (suc k) n = FitsDecimal k (n / 10)

length-put_digits :
    (k f n : ℕ) (out : Text) → FitsDecimal k n → length (put_digits f n out) ≤ k + length out
unfolding put_digits
length-put_digits k zero n out h = omega arith
length-put_digits k (suc f) zero out h = omega arith
length-put_digits zero (suc f) (suc n) out h = absurd (omega (arith, h))
length-put_digits (suc k) (suc f) (suc n) out h =
    omega (arith, length-put_digits k f (suc n / 10) ((48 + suc n % 10) ∷ out) h)

-- A size_t has at most twenty digits.
pub length-to_string : (n : ℕ) → n < 18446744073709551616 → length (to_string n) ≤ 20
unfolding to_string put_number
length-to_string zero h = omega arith
length-to_string (suc n) h =
    omega (arith, length-put_digits 20 (suc n) (suc n) [] (omega (arith, h)))

put_digits-append : (f n : ℕ) (out : Text) → put_digits f n out ≡ put_digits f n [] ++ out
unfolding put_digits
put_digits-append zero n out = refl
put_digits-append (suc f) zero out = refl
put_digits-append (suc f) (suc n) out =
    put_digits-append f (suc n / 10) ((48 + suc n % 10) ∷ out)
    ∙ sym (
        ap (λ s. s ++ out) (put_digits-append f (suc n / 10) ((48 + suc n % 10) ∷ []))
        ∙ append_assoc (put_digits f (suc n / 10) []) ((48 + suc n % 10) ∷ []) out)

pub put_number-append : (n : ℕ) (out : Text) → put_number n out ≡ put_number n [] ++ out
unfolding put_number
put_number-append zero out = refl
put_number-append (suc n) out = put_digits-append (suc n) (suc n) out
