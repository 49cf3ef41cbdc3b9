-- ===== src/OrderedMap/Sorted.antt =====
-- Writes keep the keys in strictly increasing order, and upper_bound splits the map there.
use world_wide_anthropomorph.Text.Order.{
  text_lt_asymm, text_lt_irrefl, text_lt_trans, text_lt_total,
}
use world_wide_anthropomorph.OrderedMap.{text_eq, not_above, lookup, OrderedMap, insert, erase}
use mathlib.Core.Option.{some, some-injective}
use world_wide_anthropomorph.Base.{
  refl, ◌++◌, Bool-cases, inl, inr, subst, sym, ap, ◌≡◌, true, [], ◌∷◌, arith,
}
use world_wide_anthropomorph.Text.{Text, text_lt, text_eq_iff}

module _ {ℓ} {V : Type ℓ} where
  -- All keys of the map are above `k`.
  abbrev pub Above : Text → OrderedMap V → Type 0
  Above k [] = Unit
  Above k ((j, _) ∷ m) = (text_lt k j ≡ true) × Above k m

  abbrev pub IsSorted : OrderedMap V → Type 0
  IsSorted [] = Unit
  IsSorted ((k, _) ∷ m) = Above k m × IsSorted m

  pub Above-trans : (k j : Text) (m : OrderedMap V) → text_lt k j ≡ true → Above j m → Above k m
  Above-trans k j [] h a = tt
  Above-trans k j ((i, _) ∷ m) h (a, rest) = (text_lt_trans k j i h a, Above-trans k j m h rest)

  Above-insert :
      (i k : Text) (v : V) (m : OrderedMap V)
      → text_lt i k ≡ true
      → Above i m
      → Above i (insert k v m)
  unfolding insert
  Above-insert i k v [] h a = (h, tt)
  Above-insert i k v ((j, w) ∷ m) h (a, rest) = ground (arith, Above-insert i k v m h rest)

  Above-erase : (i k : Text) (m : OrderedMap V) → Above i m → Above i (erase k m)
  unfolding erase
  Above-erase i k [] a = tt
  Above-erase i k ((j, w) ∷ m) (a, rest) = ground (arith, Above-erase i k m rest)

  pub insert-IsSorted : (k : Text) (v : V) (m : OrderedMap V) → IsSorted m → IsSorted (insert k v m)
  unfolding insert
  insert-IsSorted k v [] s = (tt, tt)
  insert-IsSorted k v ((j, w) ∷ m) (a, s) = ground (
    arith,
    insert-IsSorted k v m s,
    text_eq_iff j k,
    text_lt_total j k,
    Above-trans k j m,
    Above-insert j k v m,
  )

  pub erase-IsSorted : (k : Text) (m : OrderedMap V) → IsSorted m → IsSorted (erase k m)
  unfolding erase
  erase-IsSorted k [] s = tt
  erase-IsSorted k ((j, w) ∷ m) (a, s) = ground (arith, erase-IsSorted k m s, Above-erase j k m a)

  not_above-Above : (k : Text) (m : OrderedMap V) → Above k m → not_above k m ≡ []
  unfolding not_above
  not_above-Above k [] h = refl
  not_above-Above k ((j, v) ∷ m) (h, hs) = rw (h, not_above)

  Above-lookup :
      (j k : Text) (v : V) (m : OrderedMap V) → Above j m → lookup k m ≡ some v → text_lt j k ≡ true
  unfolding lookup
  Above-lookup j k v [] a h = cc
  Above-lookup j k v ((i, w) ∷ m) (a, rest) h =
      ground (arith, text_eq_iff i k, Above-lookup j k v m rest)

  -- In a sorted map the last entry that is not above a key of the map is that key's own.
  pub not_above-lookup :
      (k : Text) (v : V) (m : OrderedMap V)
      → IsSorted m
      → lookup k m ≡ some v
      → (front : OrderedMap V) × (not_above k m ≡ front ++ (k, v) ∷ [])
  unfolding lookup not_above
  not_above-lookup k v [] s h = cc
  not_above-lookup k v ((j, w) ∷ m) (a, s) h = elim (Bool-cases (text_eq j k)) [
    | inl same ↦
        let j_is_k : j ≡ k = (text_eq_iff j k).0 same in
        (
          [],
          subst (λ x. not_above k ((x, w) ∷ m) ≡ (k, v) ∷ []) (sym j_is_k)
              (rw
                (text_lt_irrefl k, not_above-Above k m (subst (λ x. Above x m) j_is_k a), not_above)
                (ap (λ x. (k, x) ∷ []) (some-injective w v (rw (same, lookup) at h)))),
        )
    | inr other ↦
        let later : lookup k m ≡ some v = rw (other, lookup) at h in
        let (front, e) = not_above-lookup k v m s later in
        ((j, w) ∷ front, rw (text_lt_asymm j k (Above-lookup j k v m a later), e, not_above) refl)
  ]
