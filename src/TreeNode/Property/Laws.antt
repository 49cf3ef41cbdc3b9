-- ===== src/TreeNode/Property/Laws.antt =====
-- Reading, setting, inserting and deleting a property, on a node that holds a list of properties.
use mathlib.Core.List.{append_assoc}
use world_wide_anthropomorph.Base.{
  ℕ, ◌+◌, ◌-◌, ◌<◌, ◌≡◌, ◌∙◌, ap, sym, refl, false, none, some, List, ◌∷◌, ◌++◌, arith, length,
  drop, length-append, drop-append, take-append, ok, ltb,
}
use world_wide_anthropomorph.Text.{Text, text_eq_refl}
use world_wide_anthropomorph.TreeNode.{TreeNode}
use world_wide_anthropomorph.TreeNode.Property.{
  size_limit, put_bytes, fixed_size, find_whole, first_named, overwrite, get_property_value_span,
  set_property_value_span,
}
use world_wide_anthropomorph.TreeNode.Property.Layout.{
  Entry, Holds, layout, entry_variable, take-past, drop-past, length-put_bytes,
  length-entry_variable, take_eight, drop_eight,
}
use world_wide_anthropomorph.TreeNode.Property.Find.{
  Apart, first_named-Apart, find_whole-layout, All-front, All-back, infos_replace, sized_around,
  layout_around,
}

module _ (type name : Text) (value : List ℕ) (front back : List Entry) (n : TreeNode)
    (variable : fixed_size type ≡ none) (apart : Apart name front)
    (h : Holds (front ++ ((type, name), value) ∷ back) n) where
  abbrev here : Entry
  here = ((type, name), value)

  abbrev spanned : List ℕ
  spanned = put_bytes 8 (length value) ++ (value ++ layout back)

  named_here : first_named name n.property_infos ≡ some (type, name)
  unfolding first_named
  named_here =
      rw (h.described, first_named-Apart name front (here ∷ back) apart, text_eq_refl name) refl

  found_here :
      find_whole (type, name) n.property_infos n.property_data
      ≡ ok (length value + 8, length (layout front), spanned)
  found_here =
      rw (h.described, h.stored)
        (find_whole-layout front here back (All-front front (here ∷ back) h.sized)
            (All-back front (here ∷ back) h.sized).0 apart
          ∙ rw (length-entry_variable here variable, entry_variable here variable)
              (ap (λ (s : List ℕ). ok (length value + 8, length (layout front), s))
                (append_assoc (put_bytes 8 (length value)) value (layout back))))

  stored_here : n.property_data ≡ layout front ++ spanned
  stored_here = h.stored ∙ layout_around front back here variable

  -- On a node whose data is laid out as its property_infos say, getPropertyValueSpan gives the
  -- size, the bytes of the size and the value of a property whose type has no fixed size, where no
  -- property before it has its name.
  pub get_property_value_span_lem :
      get_property_value_span name n ≡ ok (length value, put_bytes 8 (length value), value)
  unfolding get_property_value_span
  get_property_value_span_lem =
      let past : ltb (length value + 8) 8 ≡ false = ground arith in
      let size : length value + 8 - 8 ≡ length value = omega arith in
      rw
        (
          get_property_value_span,
          named_here,
          found_here,
          past,
          size,
          take_eight (length value) (value ++ layout back),
          drop_eight (length value) (value ++ layout back),
          take-append value (layout back),
        )
        refl

  set_written :
      (new : List ℕ)
      → overwrite (length (layout front)) (put_bytes 8 (length new)) n.property_data
        ≡ layout front ++ (put_bytes 8 (length new) ++ (value ++ layout back))
  unfolding overwrite
  set_written new =
      rw
        (
          overwrite,
          stored_here,
          take-append,
          drop-past,
          length-put_bytes 8 (length new),
          drop_eight,
        )
        refl

  rest_of :
      (new : List ℕ)
      → drop
          (length (layout front) + (length value + 8))
          (layout front ++ (put_bytes 8 (length new) ++ (value ++ layout back)))
        ≡ layout back
  rest_of new =
      drop-past (layout front) (put_bytes 8 (length new) ++ (value ++ layout back))
        (length value + 8)
      ∙ ap (λ k. drop k (put_bytes 8 (length new) ++ (value ++ layout back)))
          (omega (arith, length-put_bytes 8 (length new)))
      ∙ drop-past (put_bytes 8 (length new)) (value ++ layout back) (length value)
      ∙ drop-append value (layout back)

  -- On a node whose data is laid out as its property_infos say, setPropertyValueSpan replaces the
  -- value of a property whose type has no fixed size, and leaves the other properties as they are,
  -- where no property before it has its name and the size of the new value fits.
  pub set_property_value_span_lem :
      (new : List ℕ)
      → length new + 8 < size_limit
      → (m : TreeNode) × (set_property_value_span name new n ≡ ok m)
        × Holds (front ++ ((type, name), new) ∷ back) m
  unfolding set_property_value_span
  set_property_value_span_lem new fits =
      let other : Entry = ((type, name), new) in
      let long : ltb (length spanned) 8 ≡ false = ground (
        arith,
        length-append (put_bytes 8 (length value)) (value ++ layout back),
        length-put_bytes 8 (length value),
      ) in
      (
        record n { property_data = layout (front ++ other ∷ back) },
        rw
            (
              set_property_value_span,
              named_here,
              found_here,
              long,
              set_written new,
              take-past (layout front) (put_bytes 8 (length new) ++ (value ++ layout back)) 8,
              take_eight (length new) (value ++ layout back),
              rest_of new,
            )
            (ap (λ (d : List ℕ). ok (record n { property_data = d }))
              (append_assoc (layout front) (put_bytes 8 (length new)) (new ++ layout back)
                ∙ sym (layout_around front back other variable))),
        record {
          described = h.described ∙ infos_replace front here other back refl;
          stored = refl;
          sized = sized_around front here other back h.sized (rw variable refl, fits);
        },
      )
