-- ===== src/OrderedMap.antt =====
-- std::map with string keys: the entries in key order, as an iteration visits them.
pub mod Laws
pub mod Sorted
use world_wide_anthropomorph.Base.{
  Bool, true, false, not, Option, none, some, List, [], ◌∷◌, ◌++◌, map, reverse, if◌then◌else◌,
}
use world_wide_anthropomorph.Text.{Text, text_eq, text_lt}

abbrev pub OrderedMap {ℓ} : Type ℓ → Type ℓ
OrderedMap V = List (Text × V)

module _ {ℓ} {V : Type ℓ} where
  -- find(k)
  unfoldable pub lookup : Text → OrderedMap V → Option V
  lookup k [] = none
  lookup k ((j, v) ∷ m) = if text_eq j k then some v else lookup k m

  -- m[k] = v
  unfoldable pub insert : Text → V → OrderedMap V → OrderedMap V
  insert k v [] = (k, v) ∷ []
  insert k v ((j, w) ∷ m) =
      let rest = insert k v m in
      if text_eq j k then (k, v) ∷ m else if text_lt k j then (k, v) ∷ (j, w) ∷ m else (j, w) ∷ rest

  -- erase(k)
  unfoldable pub erase : Text → OrderedMap V → OrderedMap V
  erase k [] = []
  erase k ((j, w) ∷ m) = let rest = erase k m in if text_eq j k then rest else (j, w) ∷ rest

  -- The entries before upper_bound(k).
  unfoldable pub not_above : Text → OrderedMap V → OrderedMap V
  not_above k [] = []
  not_above k ((j, v) ∷ m) = let rest = not_above k m in if text_lt k j then [] else (j, v) ∷ rest

  abbrev pub values : OrderedMap V → List V
  values = map (λ (_, v). v)

  abbrev pub keys : OrderedMap V → List Text
  keys = map (λ (k, _). k)
