-- ===== src/Stream.antt =====
-- std::istream and std::ostream on texts, as tree_node.cpp and the HTTP3 messages use them: the
-- operators on words and numbers. A stream that is read is the text that is left. After a read that
-- fails the code goes on with what its variables hold; where more is read then, the model has a
-- `trap`. A prefix 0x of a hexadecimal number is not read.
pub mod Words
pub mod Numbers
pub mod Digits
use world_wide_anthropomorph.Base.{
  ℕ, zero, suc, ◌+◌, ◌-◌, ◌*◌, ◌/◌, ◌%◌, Bool, true, false, not, ◌&&◌, ◌||◌, Option, none, some,
  List, [], ◌∷◌, ◌++◌, if◌then◌else◌, ltb, leb, ◌==◌, Result, ok, err, ◌>>=◌, trap, ℤ, pos, negsuc,
}
use world_wide_anthropomorph.Text.{Text, is_empty}

abbrev pub space : ℕ
space = b' '

-- std::isspace
abbrev pub is_space : ℕ → Bool
is_space c = (c == space) || (leb 9 c && leb c 13)

unfoldable pub skip_space : Text → Text
skip_space [] = []
skip_space (c ∷ s) = let rest = skip_space s in if is_space c then rest else c ∷ s

-- The bytes up to the next white space, and those from there on.
unfoldable pub split_word : Text → Text × Text
split_word [] = ([], [])
split_word (c ∷ s) =
    let (word, rest) = split_word s in if is_space c then ([], c ∷ s) else (c ∷ word, rest)

-- operator>> into a std::string
unfoldable pub read_word : Text → Result (Text × Text)
read_word s = elim (skip_space s) [ [] ↦ err trap | c ∷ t ↦ ok (split_word (c ∷ t)) ]

-- get()
unfoldable pub get_byte : Text → Result Text
get_byte [] = err trap
get_byte (c ∷ s) = ok s

-- operator<< of an unsigned number, on the rounds left, before the text that follows.
unfoldable pub put_digits : ℕ → ℕ → Text → Text
put_digits zero n out = out
put_digits (suc f) zero out = out
put_digits (suc f) (suc n) out = put_digits f (suc n / 10) ((48 + suc n % 10) ∷ out)

unfoldable pub put_number : ℕ → Text → Text
unfolding put_digits
put_number zero out = 48 ∷ out
put_number (suc n) out = put_digits (suc n) (suc n) out

-- std::to_string
unfoldable pub to_string : ℕ → Text
unfolding put_number
to_string n = put_number n []

unfoldable pub put_int : ℤ → Text → Text
unfolding put_number
put_int (pos n) out = put_number n out
put_int (negsuc n) out = b'-' ∷ put_number (suc n) out

abbrev pub hex_digit : ℕ → ℕ
hex_digit d = if ltb d 10 then 48 + d else 87 + d

-- operator<< with std::hex and std::setfill('0'), of the width that std::setw gives.
unfoldable pub put_hex : ℕ → ℕ → Text → Text
put_hex zero n out = out
put_hex (suc k) n out = put_hex k (n / 16) (hex_digit (n % 16) ∷ out)

-- A digit, where `hex` tells the base.
unfoldable pub digit_of : Bool → ℕ → Option ℕ
digit_of hex c =
    if leb 48 c && leb c 57
    then some (c - 48)
    else if hex && (leb 97 c && leb c 102)
    then some (c - 87)
    else if hex && (leb 65 c && leb c 70)
    then some (c - 55)
    else none

abbrev pub base_of : Bool → ℕ
base_of true = 16
base_of false = 10

-- The digits at the front, after a number that has been read.
unfoldable pub scan_digits : Bool → ℕ → Text → ℕ × Text
scan_digits hex n [] = (n, [])
scan_digits hex n (c ∷ s) = elim (digit_of hex c) [
  | none ↦ (n, c ∷ s)
  | some d ↦ scan_digits hex (n * base_of hex + d) s
]

unfoldable pub starts_digit : Bool → Text → Bool
starts_digit hex [] = false
starts_digit hex (c ∷ s) = elim (digit_of hex c) [ none ↦ false | some d ↦ true ]

-- A sign at the front: whether it is a minus, and what follows.
unfoldable pub split_sign : Text → Bool × Text
split_sign [] = (false, [])
split_sign (c ∷ s) =
    if c == b'-' then (true, s) else if c == b'+' then (false, s) else (false, c ∷ s)

-- operator>> into an unsigned number of `limit` values: the number, and the rest, which is `none`
-- where the read fails. With nothing but white space left the variable keeps what it held: `trap`.
unfoldable pub scan_number : Bool → ℕ → Text → Result (ℕ × Option Text)
scan_number hex limit s = elim (skip_space s) [
  | [] ↦ err trap
  | c ∷ t ↦
      let (minus, digits) = split_sign (c ∷ t) in
      let (n, rest) = scan_digits hex 0 digits in
      if not (starts_digit hex digits)
      then ok (0, none)
      else if leb limit n
      then ok (limit - 1, none)
      else ok (if minus then (limit - n) % limit else n, some rest)
]

-- Such a read that more reads follow.
unfoldable pub read_number : ℕ → Text → Result (ℕ × Text)
read_number limit s =
    scan_number false limit s >>= λ (n, rest). elim rest [ none ↦ err trap | some t ↦ ok (n, t) ]

-- Such a read that ends the use of the stream.
unfoldable pub last_number : Bool → ℕ → Text → Result ℕ
last_number hex limit s = scan_number hex limit s >>= λ (n, rest). ok n

abbrev pub int_values : ℕ
int_values = 2147483648

-- The opposite of a number.
abbrev pub negate : ℕ → ℤ
negate zero = pos 0
negate (suc n) = negsuc n

-- operator>> into an int that more reads follow
unfoldable pub read_int : Text → Result (ℤ × Text)
read_int s =
    let (minus, digits) = split_sign (skip_space s) in
    let (n, rest) = scan_digits false 0 digits in
    if not (starts_digit false digits)
    then err trap
    else if minus
    then (if ltb int_values n then err trap else ok (negate n, rest))
    else if leb int_values n
    then err trap
    else ok (pos n, rest)

-- std::to_string and operator>> of a bool, where nothing more is read
abbrev pub put_bool : Bool → Text
put_bool true = 49 ∷ []
put_bool false = 48 ∷ []

unfoldable pub read_bool : Text → Result Bool
read_bool s = last_number false 9223372036854775808 s >>= λ n. ok (not (n == 0))
