-- ===== src/Base/Errors.antt =====
-- Results of code that may throw: an exception's kind in place of its message, and the monad of
-- code that leaves the state alone.
use mathlib.Core.Path.{◌≡◌, refl}
use mathlib.Core.Logic.{◌⊎◌, inl, inr}
use mathlib.Core.List.{List, [], ◌∷◌}

-- What is thrown, by the statement that throws. `trap` is no exception: it stands where the code has
-- no defined behaviour, as at a division by zero or the front of an empty list, or never ends.
pub data Error : Type 0 where
  transaction_not_valid page_node_not_found layers_not_supported : Error
  delete_not_tracked full_tree_in_transaction overlap_in_stack : Error
  different_backends already_mounted exists_in_root mount_overlaps : Error
  out_of_range bad_prefix property_not_found property_exists : Error
  too_long bad_chunk cannot_decode unknown_signal policy_empty wrong_label : Error
  already_initialized not_received no_pending_request : Error
  trap : Error

-- A value, or what was thrown in place of one.
pub data Result {ℓ} (V : Type ℓ) : Type ℓ where
  ok : V → Result V
  err : Error → Result V

pub Result-cases {ℓ} :
    {V : Type ℓ} (r : Result V) → ((v : V) × (r ≡ ok v)) ⊎ ((e : Error) × (r ≡ err e))
Result-cases (ok v) = inl (v, refl)
Result-cases (err e) = inr (e, refl)

-- The next statement, where the one before has not thrown.
infixl 5 ◌>>=◌
abbrev pub ◌>>=◌ {ℓ κ} : {V : Type ℓ} {W : Type κ} → Result V → (V → Result W) → Result W
r >>= next = elim r [ err thrown ↦ err thrown | ok v ↦ next v ]

-- Where two statements have not thrown, neither has the first.
pub first_ok {ℓ κ} :
    {V : Type ℓ} {W : Type κ} (r : Result V) (next : V → Result W) {w : W}
    → (r >>= next) ≡ ok w
    → (v : V) × (r ≡ ok v) × (next v ≡ ok w)
first_ok (err thrown) next h = cc
first_ok (ok v) next h = (v, refl, h)

-- A loop that rewrites each element and may throw.
module _ {ℓ κ} {A : Type ℓ} {B : Type κ} where
  abbrev pub map_ok : (A → Result B) → List A → Result (List B)
  map_ok f [] = ok []
  map_ok f (x ∷ xs) = let rest = map_ok f xs in f x >>= λ y. rest >>= λ ys. ok (y ∷ ys)
