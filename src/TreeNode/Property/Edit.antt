-- ===== src/TreeNode/Property/Edit.antt =====
-- Deleting and inserting a property, on a node that holds a list of properties.
use world_wide_anthropomorph.Base.{
  ℕ, ◌+◌, ◌<◌, ◌≡◌, ◌∙◌, ap, sym, refl, true, false, none, some, List, [], ◌∷◌, ◌++◌, arith, length,
  get_or, drop-append, take-append, All, ok,
}
use world_wide_anthropomorph.Text.{Text, text_eq_refl}
use world_wide_anthropomorph.TreeNode.{TreeNode, PropertyInfo}
use world_wide_anthropomorph.TreeNode.Property.{
  size_limit, info_eq, no_info, fixed_size, find_property, first_named, insert_before, insert_at,
  insert_property_span, delete_property,
}
use world_wide_anthropomorph.TreeNode.Property.Layout.{
  Entry, Fits, Holds, entry_bytes, layout, infos, property_size-entry, find_property-layout,
  entry_variable, drop-past,
}
use world_wide_anthropomorph.TreeNode.Property.Find.{
  Apart, layout-append, All-front, All-back, info_eq_refl, first_named-Apart, erase_named-Apart,
  find_whole-layout,
}

sized_without :
    (front : List Entry) (e : Entry) (back : List Entry)
    → All Fits (front ++ e ∷ back)
    → All Fits (front ++ back)
sized_without [] e back (_, hs) = hs
sized_without (g ∷ front) e back (h, hs) = (h, sized_without front e back hs)

sized_with :
    (front : List Entry) (e : Entry) (back : List Entry)
    → All Fits (front ++ back)
    → Fits e
    → All Fits (front ++ e ∷ back)
sized_with [] e back hs fit = (fit, hs)
sized_with (g ∷ front) e back (h, hs) fit = (h, sized_with front e back hs fit)

-- On a node whose data is laid out as its property_infos say, deleteProperty takes out the first
-- property of the name, with its bytes, and leaves the others as they are.
pub delete_property_lem :
    (front : List Entry) (e : Entry) (back : List Entry) (n : TreeNode)
    → Holds (front ++ e ∷ back) n
    → Apart e.0.1 front
    → (m : TreeNode) × (delete_property e.0.1 n ≡ ok m) × Holds (front ++ back) m
unfolding delete_property first_named layout
delete_property_lem front e back n h apart =
    let whole : n.property_data ≡ layout front ++ (entry_bytes e ++ layout back) =
      h.stored ∙ layout-append front (e ∷ back) in
    let named : first_named e.0.1 n.property_infos ≡ some e.0 =
      rw (h.described, first_named-Apart e.0.1 front (e ∷ back) apart, text_eq_refl e.0.1) refl in
    (
      record n { property_infos = infos (front ++ back); property_data = layout (front ++ back) },
      rw
          (
            delete_property,
            named,
            h.described,
            erase_named-Apart e.0.1 front e back apart refl,
            h.stored,
            find_whole-layout front e back (All-front front (e ∷ back) h.sized)
                (All-back front (e ∷ back) h.sized).0 apart,
            layout-append front (e ∷ back),
            take-append (layout front) (entry_bytes e ++ layout back),
            drop-past (layout front) (entry_bytes e ++ layout back) (length (entry_bytes e)),
            drop-append (entry_bytes e) (layout back),
          )
          (ap
            (λ (d : List ℕ).
              ok (record n { property_infos = infos (front ++ back); property_data = d }))
            (sym (layout-append front back))),
      record { described = refl; stored = refl; sized = sized_without front e back h.sized },
    )

-- The list begins with the property `next`, or is empty.
abbrev pub Begins : PropertyInfo → List Entry → Type 0
Begins next [] = Unit
Begins next (e ∷ _) = info_eq e.0 next ≡ true

find_property-Begins :
    (next : PropertyInfo) (back : List Entry) (total : ℕ)
    → Begins next back
    → All Fits back
    → (cur : ℕ) × (find_property next (infos back) (layout back) total
        ≡ ok (cur, total, layout back))
unfolding find_property layout
find_property-Begins next [] total h fits = (0, refl)
find_property-Begins next (e ∷ back) total h (fit, _) =
    (length (entry_bytes e), rw (find_property, property_size-entry e (layout back) fit, h) refl)

insert_before-Begins :
    (next new : PropertyInfo) (front back : List Entry) (value : List ℕ)
    → All (λ e. info_eq e.0 next ≡ false) front
    → Begins next back
    → insert_before next new (infos (front ++ back)) ≡ infos (front ++ (new, value) ∷ back)
unfolding insert_before
insert_before-Begins next new [] [] value h begins = refl
insert_before-Begins next new [] (e ∷ back) value h begins = rw (begins, insert_before) refl
insert_before-Begins next new (e ∷ front) back value (h, hs) begins =
    rw (h, insert_before)
      (ap (λ is. e.0 ∷ is) (insert_before-Begins next new front back value hs begins))

-- The property that an index stands for is the first one after as many others, or none.
get_or-infos :
    (front back : List Entry)
    → get_or (infos (front ++ back)) (length front) no_info ≡ get_or (infos back) 0 no_info
get_or-infos [] back = refl
get_or-infos (e ∷ front) back = get_or-infos front back

first-Begins : (back : List Entry) → Begins (get_or (infos back) 0 no_info) back
first-Begins [] = tt
first-Begins (e ∷ back) = info_eq_refl e.0

first_named-none :
    (name : Text) (es : List Entry) → Apart name es → first_named name (infos es) ≡ none
unfolding first_named
first_named-none name [] h = refl
first_named-none name (e ∷ es) (h, hs) = rw (h, first_named) (first_named-none name es hs)

-- What both insertions do, where the new bytes are those of the new property.
insert_at_lem :
    (next : PropertyInfo) (new : Entry) (front back : List Entry) (n : TreeNode)
    → Holds (front ++ back) n
    → Fits new
    → All (λ e. info_eq e.0 next ≡ false) front
    → Begins next back
    → (m : TreeNode) × (insert_at next new.0 (entry_bytes new) n ≡ ok m)
      × Holds (front ++ new ∷ back) m
unfolding insert_at layout
insert_at_lem next new front back n h fit others begins =
    let (cur, found) =
      find_property-Begins next back (0 + length (layout front)) begins
        (All-back front back h.sized) in
    let start : 0 + length (layout front) ≡ length (layout front) = omega arith in
    (
      record n {
        property_infos = infos (front ++ new ∷ back);
        property_data = layout (front ++ new ∷ back);
      },
      rw
          (
            insert_at,
            h.described,
            h.stored,
            find_property-layout next front back 0 (All-front front back h.sized) others,
            found,
            insert_before-Begins next new.0 front back new.1 others begins,
            start,
            layout-append front back,
            take-append (layout front) (layout back),
            drop-append (layout front) (layout back),
          )
          (ap
            (λ (d : List ℕ).
              ok (record n { property_infos = infos (front ++ new ∷ back); property_data = d }))
            (sym (layout-append front (new ∷ back)))),
      record { described = refl; stored = refl; sized = sized_with front new back h.sized fit },
    )

-- On a node whose data is laid out as its property_infos say, insertPropertySpan puts a property
-- whose type has no fixed size at the index, or at the end, where no property has its name, none
-- before the index has the description of the one there, and the size of the value fits.
pub insert_property_span_lem :
    (type name : Text) (value : List ℕ) (front back : List Entry) (n : TreeNode)
    → fixed_size type ≡ none
    → length value + 8 < size_limit
    → Holds (front ++ back) n
    → Apart name (front ++ back)
    → All (λ e. info_eq e.0 (get_or (infos back) 0 no_info) ≡ false) front
    → (m : TreeNode) × (insert_property_span (length front) name type value n ≡ ok m)
      × Holds (front ++ ((type, name), value) ∷ back) m
unfolding insert_property_span
insert_property_span_lem type name value front back n variable bound h apart others =
    let next : PropertyInfo = get_or (infos back) 0 no_info in
    let new : Entry = ((type, name), value) in
    let absent : first_named name n.property_infos ≡ none =
      rw h.described (first_named-none name (front ++ back) apart) in
    let at_index : get_or n.property_infos (length front) no_info ≡ next =
      rw h.described (get_or-infos front back) in
    rw (insert_property_span, absent, at_index, sym (entry_variable new variable))
      (insert_at_lem next new front back n h (rw variable refl, bound) others (first-Begins back))
