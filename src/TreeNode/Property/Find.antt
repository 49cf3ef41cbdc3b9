-- ===== src/TreeNode/Property/Find.antt =====
-- Where a property is found in the data of a node.
use mathlib.Core.List.{append_assoc}
use world_wide_anthropomorph.Base.{
  ℕ, ◌≡◌, ◌∙◌, ap, sym, refl, true, false, none, List, [], ◌∷◌, ◌++◌, arith, length, length-append,
  All, ok,
}
use world_wide_anthropomorph.Text.{Text, text_eq, text_eq_refl}
use world_wide_anthropomorph.TreeNode.{PropertyInfo}
use world_wide_anthropomorph.TreeNode.Property.{
  put_bytes, info_eq, fixed_size, find_property, find_whole, first_named, erase_named,
}
use world_wide_anthropomorph.TreeNode.Property.Layout.{
  Entry, Fits, entry_bytes, layout, infos, property_size-entry, find_property-layout,
  entry_variable, ltb-sum,
}

-- None of the properties has the name.
abbrev pub Apart : Text → List Entry → Type 0
Apart name = All (λ e. text_eq e.0.1 name ≡ false)

pub info_eq_refl : (i : PropertyInfo) → info_eq i i ≡ true
info_eq_refl (s, m) = rw (text_eq_refl s, text_eq_refl m) refl

pub info_eq-Apart :
    (i : PropertyInfo) (es : List Entry) → Apart i.1 es → All (λ e. info_eq e.0 i ≡ false) es
info_eq-Apart i [] h = tt
info_eq-Apart (s, m) (((t, n), v) ∷ es) (h, hs) = (ground arith, info_eq-Apart (s, m) es hs)

pub layout-append : (front back : List Entry) → layout (front ++ back) ≡ layout front ++ layout back
unfolding layout
layout-append [] back = refl
layout-append (e ∷ front) back =
    ap (λ x. entry_bytes e ++ x) (layout-append front back)
    ∙ sym (append_assoc (entry_bytes e) (layout front) (layout back))

pub first_named-Apart :
    (name : Text) (front back : List Entry)
    → Apart name front
    → first_named name (infos (front ++ back)) ≡ first_named name (infos back)
unfolding first_named
first_named-Apart name [] back h = refl
first_named-Apart name (e ∷ front) back (h, hs) =
    rw (h, first_named) (first_named-Apart name front back hs)

pub erase_named-Apart :
    (name : Text) (front : List Entry) (e : Entry) (back : List Entry)
    → Apart name front
    → e.0.1 ≡ name
    → erase_named name (infos (front ++ e ∷ back)) ≡ infos (front ++ back)
unfolding erase_named
erase_named-Apart name [] e back h same = rw (same, text_eq_refl name, erase_named) refl
erase_named-Apart name (f ∷ front) e back (h, hs) same =
    rw (h, erase_named) (ap (λ x. f.0 ∷ x) (erase_named-Apart name front e back hs same))

-- Where none of the properties before it has its description, a property is found with its length,
-- the length of those before it, and the data from it on.
pub find_whole-others :
    (front : List Entry) (e : Entry) (back : List Entry)
    → All Fits front
    → Fits e
    → All (λ f. info_eq f.0 e.0 ≡ false) front
    → find_whole e.0 (infos (front ++ e ∷ back)) (layout (front ++ e ∷ back))
      ≡ ok (length (entry_bytes e), length (layout front), entry_bytes e ++ layout back)
unfolding find_whole find_property layout
find_whole-others front e back fits fit others =
    rw
      (
        find_whole,
        find_property-layout e.0 front (e ∷ back) 0 fits others,
        property_size-entry e (layout back) fit,
        info_eq_refl e.0,
        length-append (entry_bytes e) (layout back),
      )
      (rw (ltb-sum (length (entry_bytes e)) (length (layout back))) (
        ap (λ (t : ℕ). ok (length (entry_bytes e), t, entry_bytes e ++ layout back)) (omega arith)))

-- The same, where they have other names.
pub find_whole-layout :
    (front : List Entry) (e : Entry) (back : List Entry)
    → All Fits front
    → Fits e
    → Apart e.0.1 front
    → find_whole e.0 (infos (front ++ e ∷ back)) (layout (front ++ e ∷ back))
      ≡ ok (length (entry_bytes e), length (layout front), entry_bytes e ++ layout back)
find_whole-layout front e back fits fit apart =
    find_whole-others front e back fits fit (info_eq-Apart e.0 front apart)

pub All-front : (front back : List Entry) → All Fits (front ++ back) → All Fits front
All-front [] back h = tt
All-front (e ∷ front) back (h, hs) = (h, All-front front back hs)

pub All-back : (front back : List Entry) → All Fits (front ++ back) → All Fits back
All-back [] back h = h
All-back (e ∷ front) back (h, hs) = All-back front back hs

pub infos_replace :
    (front : List Entry) (e f : Entry) (back : List Entry)
    → e.0 ≡ f.0
    → infos (front ++ e ∷ back) ≡ infos (front ++ f ∷ back)
infos_replace [] e f back same = ap (λ i. i ∷ infos back) same
infos_replace (g ∷ front) e f back same = ap (λ is. g.0 ∷ is) (infos_replace front e f back same)

pub sized_around :
    (front : List Entry) (e f : Entry) (back : List Entry)
    → All Fits (front ++ e ∷ back)
    → Fits f
    → All Fits (front ++ f ∷ back)
sized_around [] e f back (_, hs) fit = (fit, hs)
sized_around (g ∷ front) e f back (h, hs) fit = (h, sized_around front e f back hs fit)

pub layout_around :
    (front back : List Entry) (e : Entry)
    → fixed_size e.0.0 ≡ none
    → layout (front ++ e ∷ back)
      ≡ layout front ++ (put_bytes 8 (length e.1) ++ (e.1 ++ layout back))
unfolding layout
layout_around front back e variable =
    layout-append front (e ∷ back)
    ∙ ap (λ (x : List ℕ). layout front ++ x)
        (rw (entry_variable e variable) (append_assoc (put_bytes 8 (length e.1)) e.1 (layout back)))
