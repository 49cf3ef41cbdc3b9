-- ===== src/TreeNode/Property/Fixed.antt =====
-- Reading and setting a property whose type has a fixed size.
use world_wide_anthropomorph.Base.{
  ℕ, ◌+◌, ◌<◌, ◌≡◌, ◌∙◌, ap, sym, refl, true, false, some, List, [], ◌∷◌, ◌++◌, arith, length,
  drop-append, take-append, All, ok,
}
use world_wide_anthropomorph.Text.{Text}
use world_wide_anthropomorph.TreeNode.{TreeNode}
use world_wide_anthropomorph.TreeNode.Property.{
  size_limit, info_eq, fixed_size, has_info, overwrite, get_property_value, set_property_value,
}
use world_wide_anthropomorph.TreeNode.Property.Layout.{
  Entry, Holds, layout, infos, entry_fixed, drop-past,
}
use world_wide_anthropomorph.TreeNode.Property.Find.{
  layout-append, All-front, All-back, info_eq_refl, find_whole-others, infos_replace, sized_around,
}

has_info-here :
    (front : List Entry) (e : Entry) (back : List Entry)
    → has_info e.0 (infos (front ++ e ∷ back)) ≡ true
unfolding has_info
has_info-here [] e back = rw (info_eq_refl e.0, has_info) refl
has_info-here (f ∷ front) e back = ground (arith, has_info-here front e back)

module _ (type name : Text) (k : ℕ) (front back : List Entry) (fixed : fixed_size type ≡ some k)
    (others : All (λ e. info_eq e.0 (type, name) ≡ false) front) where
  -- On a node whose data is laid out as its property_infos say, getPropertyValue gives the size
  -- and the bytes of a property whose type has a fixed size, where no property before it has its
  -- type and name.
  pub get_property_value_lem :
      (value : List ℕ) (n : TreeNode)
      → Holds (front ++ ((type, name), value) ∷ back) n
      → get_property_value type name n ≡ ok (length value, value)
  unfolding get_property_value
  get_property_value_lem value n h =
      let e : Entry = ((type, name), value) in
      rw
        (
          get_property_value,
          h.described,
          has_info-here front e back,
          h.stored,
          find_whole-others front e back (All-front front (e ∷ back) h.sized)
              (All-back front (e ∷ back) h.sized).0 others,
          entry_fixed e fixed,
          take-append value (layout back),
        )
        refl

  layout_fixed :
      (value : List ℕ)
      → layout (front ++ ((type, name), value) ∷ back) ≡ layout front ++ (value ++ layout back)
  unfolding layout
  layout_fixed value =
      layout-append front (((type, name), value) ∷ back)
      ∙ ap (λ (x : List ℕ). layout front ++ (x ++ layout back))
          (entry_fixed ((type, name), value) fixed)

  -- On a node whose data is laid out as its property_infos say, setPropertyValue replaces the
  -- bytes of a property whose type has a fixed size, and leaves the other properties as they are,
  -- where no property before it has its type and name and the new value has the size of the type.
  pub set_property_value_lem :
      (value new : List ℕ) (n : TreeNode)
      → Holds (front ++ ((type, name), value) ∷ back) n
      → k ≡ length new
      → length new + 8 < size_limit
      → (m : TreeNode) × (set_property_value type name new n ≡ ok m)
        × Holds (front ++ ((type, name), new) ∷ back) m
  unfolding set_property_value overwrite
  set_property_value_lem value new n h sized bound =
      let e : Entry = ((type, name), value) in
      let other : Entry = ((type, name), new) in
      let same : k ≡ length value = rw fixed at (All-back front (e ∷ back) h.sized).0.0 in
      (
        record n { property_data = layout (front ++ other ∷ back) },
        rw
            (
              set_property_value,
              h.described,
              has_info-here front e back,
              h.stored,
              find_whole-others front e back (All-front front (e ∷ back) h.sized)
                  (All-back front (e ∷ back) h.sized).0 others,
              layout_fixed value,
              sym sized,
              same,
              overwrite,
              take-append (layout front) (value ++ layout back),
              drop-past (layout front) (value ++ layout back) (length value),
              drop-append value (layout back),
            )
            (ap
              (λ (d : List ℕ).
                ok (record n { property_infos = infos (front ++ e ∷ back); property_data = d }))
              (sym (layout_fixed new))),
        record {
          described = h.described ∙ infos_replace front e other back refl;
          stored = refl;
          sized = sized_around front e other back h.sized (rw fixed sized, bound);
        },
      )
