-- ===== src/Base/Lists.antt =====
-- Lists measured and cut by native numbers, and the predicates on lists that the modules share.
use Prim.Native.Nat.{ℕ, zero, suc, ◌+◌, ◌-◌, ◌≤◌}
use mathlib.Core.Path.{◌≡◌, refl, ap, sym, subst, ◌∙◌}
use mathlib.Core.Logic.{◌⊎◌, inl, inr}
use mathlib.Core.Bool.{Bool, true, false}
use mathlib.Core.List.{List, [], ◌∷◌, ◌++◌, reverse, reverse-append, reverse-reverse}
use native.Mathlib.Omega.{arith}
use world_wide_anthropomorph.Base.Tests.{if◌then◌else◌, Bool-cases}

module _ {ℓ} {A : Type ℓ} where
  abbrev pub length : List A → ℕ
  length [] = 0
  length (x ∷ xs) = suc (length xs)

  abbrev pub take : ℕ → List A → List A
  take zero xs = []
  take (suc n) [] = []
  take (suc n) (x ∷ xs) = x ∷ take n xs

  abbrev pub drop : ℕ → List A → List A
  drop zero xs = xs
  drop (suc n) [] = []
  drop (suc n) (x ∷ xs) = drop n xs

  abbrev pub get_or : List A → ℕ → A → A
  get_or [] i d = d
  get_or (x ∷ xs) zero d = x
  get_or (x ∷ xs) (suc i) d = get_or xs i d

  -- The elements that pass a Boolean test, in order.
  abbrev pub keep_if : (A → Bool) → List A → List A
  keep_if p [] = []
  keep_if p (x ∷ xs) = let rest = keep_if p xs in if p x then x ∷ rest else rest

  pub length-append : (xs ys : List A) → length (xs ++ ys) ≡ length xs + length ys
  length-append [] ys = omega arith
  length-append (x ∷ xs) ys = omega (arith, length-append xs ys)

  pub length-keep_if : (p : A → Bool) (xs : List A) → length (keep_if p xs) ≤ length xs
  length-keep_if p [] = omega arith
  length-keep_if p (x ∷ xs) = ground (arith, length-keep_if p xs)

module _ {ℓ} {A : Type ℓ} where
  pub take-append : (xs ys : List A) → take (length xs) (xs ++ ys) ≡ xs
  take-append [] ys = refl
  take-append (x ∷ xs) ys = ap (λ zs. x ∷ zs) (take-append xs ys)

  pub take-drop : (n : ℕ) (xs : List A) → take n xs ++ drop n xs ≡ xs
  take-drop zero xs = refl
  take-drop (suc n) [] = refl
  take-drop (suc n) (x ∷ xs) = ap (λ ys. x ∷ ys) (take-drop n xs)

  pub length-take : (n : ℕ) (xs : List A) → n ≤ length xs → length (take n xs) ≡ n
  length-take zero xs h = refl
  length-take (suc n) [] h = absurd (omega (arith, h))
  length-take (suc n) (x ∷ xs) h = omega (arith, length-take n xs (omega (arith, h)))

  pub take-append_short : (k : ℕ) (xs ys : List A) → k ≤ length xs → take k (xs ++ ys) ≡ take k xs
  take-append_short zero xs ys h = refl
  take-append_short (suc k) [] ys h = absurd (omega (arith, h))
  take-append_short (suc k) (x ∷ xs) ys h =
      ap (λ zs. x ∷ zs) (take-append_short k xs ys (omega (arith, h)))

  pub take-append_long :
      (k : ℕ) (xs ys : List A) → length xs ≤ k → take k (xs ++ ys) ≡ xs ++ take (k - length xs) ys
  take-append_long k [] ys h = ap (λ n. take n ys) (omega arith)
  take-append_long zero (x ∷ xs) ys h = absurd (omega (arith, h))
  take-append_long (suc k) (x ∷ xs) ys h =
      ap (λ zs. x ∷ zs)
        (take-append_long k xs ys (omega (arith, h)) ∙ ap (λ n. xs ++ take n ys) (omega arith))

  pub drop-append : (xs ys : List A) → drop (length xs) (xs ++ ys) ≡ ys
  drop-append [] ys = refl
  drop-append (x ∷ xs) ys = drop-append xs ys

module _ {ℓ κ} {A : Type ℓ} where
  abbrev pub All : (A → Type κ) → List A → Type κ
  All P [] = Unit
  All P (x ∷ xs) = P x × All P xs

  pub All-take : (P : A → Type κ) (n : ℕ) (xs : List A) → All P xs → All P (take n xs)
  All-take P zero xs h = tt
  All-take P (suc n) [] h = tt
  All-take P (suc n) (x ∷ xs) (h, hs) = (h, All-take P n xs hs)

  pub All-append : (P : A → Type κ) (xs ys : List A) → All P xs → All P ys → All P (xs ++ ys)
  All-append P [] ys h k = k
  All-append P (x ∷ xs) ys (h, hs) k = (h, All-append P xs ys hs k)

module _ {A : Type 0} where
  -- Membership that can be taken apart by cases.
  abbrev pub Member : A → List A → Type 0
  Member a [] = ⊥
  Member a (x ∷ xs) = (a ≡ x) ⊎ Member a xs

  pub Member-append_left : (a : A) (xs ys : List A) → Member a xs → Member a (xs ++ ys)
  Member-append_left a [] ys h = absurd h
  Member-append_left a (x ∷ xs) ys (inl e) = inl e
  Member-append_left a (x ∷ xs) ys (inr h) = inr (Member-append_left a xs ys h)

  pub Member-append_right : (a : A) (xs ys : List A) → Member a ys → Member a (xs ++ ys)
  Member-append_right a [] ys h = h
  Member-append_right a (x ∷ xs) ys h = inr (Member-append_right a xs ys h)

  pub Member-append_cases :
      (a : A) (xs ys : List A) → Member a (xs ++ ys) → Member a xs ⊎ Member a ys
  Member-append_cases a [] ys h = inr h
  Member-append_cases a (x ∷ xs) ys (inl e) = inl (inl e)
  Member-append_cases a (x ∷ xs) ys (inr h) = elim (Member-append_cases a xs ys h) [
    | inl l ↦ inl (inr l)
    | inr r ↦ inr r
  ]

  pub Member-reverse : (a : A) (xs : List A) → Member a xs → Member a (reverse xs)
  Member-reverse a (x ∷ xs) (inl e) =
      rw (reverse-append (x ∷ []) xs) (Member-append_right a (reverse xs) (x ∷ []) (inl e))
  Member-reverse a (x ∷ xs) (inr h) =
      rw (reverse-append (x ∷ []) xs)
        (Member-append_left a (reverse xs) (x ∷ []) (Member-reverse a xs h))
  Member-reverse a [] h = absurd h

  pub Member-reverse_inverse : (a : A) (xs : List A) → Member a (reverse xs) → Member a xs
  Member-reverse_inverse a xs h = rw reverse-reverse at (Member-reverse a (reverse xs) h)

  pub All-of_members : {P : A → Type 0} (xs : List A) → ((a : A) → Member a xs → P a) → All P xs
  All-of_members [] h = tt
  All-of_members (x ∷ xs) h = (h x (inl refl), All-of_members xs (λ a m. h a (inr m)))

  pub All-member : (P : A → Type 0) (a : A) (xs : List A) → All P xs → Member a xs → P a
  All-member P a [] h m = absurd m
  All-member P a (x ∷ xs) (h, hs) (inl e) = subst P (sym e) h
  All-member P a (x ∷ xs) (h, hs) (inr m) = All-member P a xs hs m

  keep_head :
      (p : A → Bool) (a x : A) (xs : List A)
      → p x ≡ true
      → Member a (keep_if p (x ∷ xs))
      → (a ≡ x) ⊎ Member a (keep_if p xs)
  keep_head p a x xs e m = rw e at m

  keep_tail :
      (p : A → Bool) (a x : A) (xs : List A)
      → p x ≡ false
      → Member a (keep_if p (x ∷ xs))
      → Member a (keep_if p xs)
  keep_tail p a x xs e m = rw e at m

  pub Member-keep_if :
      (p : A → Bool) (a : A) (xs : List A) → Member a (keep_if p xs) → Member a xs × (p a ≡ true)
  Member-keep_if p a [] m = absurd m
  Member-keep_if p a (x ∷ xs) m = elim (Bool-cases (p x)) [
    | inl e ↦ elim (keep_head p a x xs e m) [
      | inl at_head ↦ (inl at_head, rw at_head e)
      | inr in_tail ↦ let (later, passes) = Member-keep_if p a xs in_tail in (inr later, passes)
    ]
    | inr e ↦
        let (later, passes) = Member-keep_if p a xs (keep_tail p a x xs e m) in (inr later, passes)
  ]
