-- ===== src/CompositeBackend/Mounting.antt =====
-- mountBackend: what it refuses, and what it leaves as it is.
use world_wide_anthropomorph.Base.{
  ◌≡◌, refl, false, none, [], ◌∷◌, arith, Option-cases, Bool-cases, Result-cases, inl, inr, ◌⊎◌, ok,
  err, Error, already_mounted, exists_in_root, mount_overlaps,
}
use world_wide_anthropomorph.Text.{Text}
use world_wide_anthropomorph.OrderedMap.{OrderedMap, lookup, insert}
use world_wide_anthropomorph.LabelRule.{check_label_rule_overlap}
use world_wide_anthropomorph.Backend.{Backend}
use world_wide_anthropomorph.CompositeBackend.{CompositeBackend, mount_backend, overlaps_mounted}

-- No mounted rule overlaps with the rule.
abbrev pub Apart : {S : Type 0} → Text → OrderedMap S → Type 0
Apart rule [] = Unit
Apart rule ((r, _) ∷ m) = (check_label_rule_overlap rule r ≡ false) × Apart rule m

module _ {S : Type 0} (B : Backend S) where
  overlaps_mounted-Apart :
      (rule : Text) (m : OrderedMap S) → overlaps_mounted B rule m ≡ false → Apart rule m
  unfolding overlaps_mounted
  overlaps_mounted-Apart rule [] h = tt
  overlaps_mounted-Apart rule ((r, s) ∷ m) h = ground (arith, overlaps_mounted-Apart rule m)

  -- mountBackend either throws and changes nothing, or mounts the backend at the rule and nowhere
  -- else, where the root has no node, no backend was mounted, and no mounted rule overlaps.
  pub mount_backend-cases :
      (rule : Text) (backend : S) (c : CompositeBackend S)
      → ((mount_backend B rule backend c
            ≡ (ok tt, record c { mounted = insert rule backend c.mounted }))
          × (lookup rule c.mounted ≡ none)
          × (B.get_node c.root rule ≡ ok none)
          × Apart rule c.mounted)
        ⊎ ((e : Error) × (mount_backend B rule backend c ≡ (err e, c)))
  unfolding mount_backend
  mount_backend-cases rule backend c = elim (Option-cases (lookup rule c.mounted)) [
    | inr (s, e) ↦ rw (e, mount_backend) (inr (already_mounted, refl))
    | inl e ↦ elim (Result-cases (B.get_node c.root rule)) [
      | inr (x, f) ↦ rw (e, f, mount_backend) (inr (x, refl))
      | inl (r, f) ↦ elim (Option-cases r) [
        | inr (n, g) ↦ rw (e, f, g, mount_backend) (inr (exists_in_root, refl))
        | inl g ↦ elim (Bool-cases (overlaps_mounted B rule c.mounted)) [
          | inl o ↦ rw (e, f, g, o, mount_backend) (inr (mount_overlaps, refl))
          | inr o ↦
              rw (e, f, g, o, mount_backend)
                (inl (refl, refl, refl, overlaps_mounted-Apart rule c.mounted o))
        ]
      ]
    ]
  ]
