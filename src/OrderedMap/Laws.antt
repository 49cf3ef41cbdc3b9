-- ===== src/OrderedMap/Laws.antt =====
-- Lookups after writes, in `if` form.
use world_wide_anthropomorph.Base.{◌≡◌, refl, none, some, [], ◌∷◌, arith, if◌then◌else◌}
use world_wide_anthropomorph.Text.{Text, text_eq, text_eq_iff}
use world_wide_anthropomorph.OrderedMap.{OrderedMap, lookup, insert, erase}

module _ {ℓ} {V : Type ℓ} where
  pub lookup-insert :
      (j k : Text) (v : V) (m : OrderedMap V)
      → lookup j (insert k v m) ≡ (if text_eq k j then some v else lookup j m)
  unfolding lookup insert
  lookup-insert j k v [] = refl
  lookup-insert j k v ((i, w) ∷ m) =
      ground (arith, text_eq_iff k j, text_eq_iff i k, text_eq_iff i j, lookup-insert j k v m)

  pub lookup-erase :
      (j k : Text) (m : OrderedMap V)
      → lookup j (erase k m) ≡ (if text_eq k j then none else lookup j m)
  unfolding lookup erase
  lookup-erase j k [] = ground arith
  lookup-erase j k ((i, w) ∷ m) =
      ground (arith, text_eq_iff k j, text_eq_iff i k, text_eq_iff i j, lookup-erase j k m)
