-- ===== src/TreeNode/Property/Layout.antt =====
-- The properties of a node as a list of descriptions with values, and their place in the data.
use mathlib.Core.List.{append_assoc}
use world_wide_anthropomorph.Base.{
  ℕ, zero, suc, ◌+◌, ◌*◌, ◌/◌, ◌<◌, ◌≡◌, ◌∙◌, ap, refl, subst, false, none, some, List, [], ◌∷◌,
  ◌++◌, arith, length, take, drop, length-append, drop-append, take-append, All, ok, Option-cases,
  inl, inr, ltb,
}
use world_wide_anthropomorph.TreeNode.{TreeNode, PropertyInfo}
use world_wide_anthropomorph.TreeNode.Property.{
  size_limit, put_bytes, get_bytes, info_eq, fixed_size, property_size, find_property,
}

-- The first number that does not fit in so many bytes.
unfoldable pub byte_limit : ℕ → ℕ
byte_limit zero = 1
byte_limit (suc k) = 256 * byte_limit k

pub length-put_bytes : (k n : ℕ) → length (put_bytes k n) ≡ k
unfolding put_bytes
length-put_bytes zero n = refl
length-put_bytes (suc k) n = ap suc (length-put_bytes k (n / 256))

-- An integer that fits is read back from its bytes.
pub get_bytes-put_bytes : (k n : ℕ) → n < byte_limit k → get_bytes (put_bytes k n) ≡ n
unfolding get_bytes put_bytes byte_limit
get_bytes-put_bytes zero n h = omega (arith, h)
get_bytes-put_bytes (suc k) n h =
    rw (get_bytes-put_bytes k (n / 256) (omega (arith, h))) (omega arith)

-- A property: its description and its value.
abbrev pub Entry : Type 0
Entry = PropertyInfo × List ℕ

-- The bytes of a property: its value alone, if its type has a fixed size, or else after its size.
unfoldable pub entry_bytes : Entry → List ℕ
entry_bytes (info, value) = elim (fixed_size info.0) [
  | some _ ↦ value
  | none ↦ put_bytes 8 (length value) ++ value
]

unfoldable pub layout : List Entry → List ℕ
layout [] = []
layout (e ∷ es) = entry_bytes e ++ layout es

abbrev pub infos : List Entry → List PropertyInfo
infos [] = []
infos ((info, _) ∷ es) = info ∷ infos es

-- A value of a type of fixed size has that size, and the size of any other fits.
abbrev pub Fits : Entry → Type 0
Fits (info, value) =
    (elim (fixed_size info.0) [ some n ↦ n | none ↦ length value ] ≡ length value)
    × (length value + 8 < size_limit)

-- The node has these properties.
pub record Holds (es : List Entry) (n : TreeNode) : Type 0 where
  pub described : n.property_infos ≡ infos es
  pub stored : n.property_data ≡ layout es
  pub sized : All Fits es

shift : (n k : ℕ) → suc n + k ≡ suc (n + k)
shift n k = omega arith

pub take-past : (xs ys : List ℕ) (k : ℕ) → take (length xs + k) (xs ++ ys) ≡ xs ++ take k ys
take-past [] ys k = ap (λ j. take j ys) (omega arith)
take-past (x ∷ xs) ys k =
    ap (λ j. take j (x ∷ (xs ++ ys))) (shift (length xs) k) ∙ ap (λ zs. x ∷ zs) (take-past xs ys k)

pub drop-past : (xs ys : List ℕ) (k : ℕ) → drop (length xs + k) (xs ++ ys) ≡ drop k ys
drop-past [] ys k = ap (λ j. drop j ys) (omega arith)
drop-past (x ∷ xs) ys k =
    ap (λ j. drop j (x ∷ (xs ++ ys))) (shift (length xs) k) ∙ drop-past xs ys k

pub drop_eight : (n : ℕ) (rest : List ℕ) → drop 8 (put_bytes 8 n ++ rest) ≡ rest
drop_eight n rest =
    subst (λ k. drop k (put_bytes 8 n ++ rest) ≡ rest) (length-put_bytes 8 n)
      (drop-append (put_bytes 8 n) rest)

pub take_eight : (n : ℕ) (rest : List ℕ) → take 8 (put_bytes 8 n ++ rest) ≡ put_bytes 8 n
take_eight n rest =
    subst (λ k. take k (put_bytes 8 n ++ rest) ≡ put_bytes 8 n) (length-put_bytes 8 n)
      (take-append (put_bytes 8 n) rest)

pub entry_fixed : (e : Entry) {k : ℕ} → fixed_size e.0.0 ≡ some k → entry_bytes e ≡ e.1
unfolding entry_bytes
entry_fixed e f = rw (f, entry_bytes)

pub entry_variable :
    (e : Entry) → fixed_size e.0.0 ≡ none → entry_bytes e ≡ put_bytes 8 (length e.1) ++ e.1
unfolding entry_bytes
entry_variable e f = rw (f, entry_bytes)

-- A property takes eight bytes for the size, unless its type has a fixed size, and its value.
pub length-entry_variable :
    (e : Entry) → fixed_size e.0.0 ≡ none → length (entry_bytes e) ≡ length e.1 + 8
length-entry_variable e f =
    rw (entry_variable e f)
      (omega (arith, length-append (put_bytes 8 (length e.1)) e.1, length-put_bytes 8 (length e.1)))

-- cur_size is the length of the property that the data begins with.
pub property_size-entry :
    (e : Entry) (rest : List ℕ)
    → Fits e
    → property_size e.0.0 (entry_bytes e ++ rest) ≡ ok (length (entry_bytes e))
unfolding property_size
property_size-entry e rest (size, bound) = elim (Option-cases (fixed_size e.0.0)) [
  | inr (k, f) ↦ rw (f, property_size, entry_fixed e f) (ap ok (rw f at size))
  | inl f ↦
      let begins : take 8 (entry_bytes e ++ rest) ≡ put_bytes 8 (length e.1) =
        rw (entry_variable e f, append_assoc (put_bytes 8 (length e.1)) e.1 rest)
          (take_eight (length e.1) (e.1 ++ rest)) in
      let enough : ltb (length (entry_bytes e ++ rest)) 8 ≡ false =
        ground (arith, length-append (entry_bytes e) rest, length-entry_variable e f) in
      rw
        (
          f,
          property_size,
          enough,
          begins,
          get_bytes-put_bytes 8 (length e.1) (unfold byte_limit in omega (arith, bound)),
          length-entry_variable e f,
        )
        (ap ok (omega (arith, bound)))
]

pub ltb-sum : (a b : ℕ) → ltb (a + b) a ≡ false
ltb-sum a b = ground arith

-- The loop passes over properties that are not the one that it looks for.
pub find_property-layout :
    (target : PropertyInfo) (front back : List Entry) (total : ℕ)
    → All Fits front
    → All (λ e. info_eq e.0 target ≡ false) front
    → find_property target (infos (front ++ back)) (layout (front ++ back)) total
      ≡ find_property target (infos back) (layout back) (total + length (layout front))
unfolding find_property layout
find_property-layout target [] back total fits others =
    ap (find_property target (infos back) (layout back)) (omega arith)
find_property-layout target (e ∷ front) back total (fit, fits) (other, others) =
    rw
      (
        find_property,
        property_size-entry e (layout (front ++ back)) fit,
        other,
        drop-append (entry_bytes e) (layout (front ++ back)),
        length-append (entry_bytes e) (layout (front ++ back)),
        ltb-sum (length (entry_bytes e)) (length (layout (front ++ back))),
        find_property-layout target front back (total + length (entry_bytes e)) fits others,
      )
      (ap (find_property target (infos back) (layout back))
        (omega (arith, length-append (entry_bytes e) (layout front))))
