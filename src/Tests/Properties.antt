-- ===== src/Tests/Properties.antt =====
-- Tests of the properties of a node, of its equality and of spans, and examples for their theorems.
use world_wide_anthropomorph.TreeNode.Property.{
  insert_at, first_named, fixed_size, put_bytes, set_property_value_span, insert_property_span,
  insert_property,
}
use world_wide_anthropomorph.TreeNode.Property.Layout.{entry_bytes, Entry, Holds, layout, infos}
use world_wide_anthropomorph.Base.{
  ◌≡◌, ◌↔◌, refl, true, arith, List, [], ◌∷◌, ◌++◌, ok, length, take, drop,
}
use world_wide_anthropomorph.Text.{bytes, text_eq}
use world_wide_anthropomorph.TreeNode.{TreeNode}
use world_wide_anthropomorph.TreeNode.Equality.{node_eq, node_eq_iff, or_empty}
use world_wide_anthropomorph.TreeNode.Property.Laws.{set_property_value_span_lem}
use world_wide_anthropomorph.TreeNode.Property.Edit.{insert_property_span_lem}
use world_wide_anthropomorph.SharedSpan.{Chunk, restrict}
use world_wide_anthropomorph.SharedSpan.Restrict.{all_bytes, restrict_lem}
use world_wide_anthropomorph.Tests.{home, room}

abbrev count : Entry
count = ((bytes "bool", bytes "n"), 1 ∷ [])

abbrev title : Entry
title = ((bytes "string", bytes "t"), 7 ∷ 8 ∷ [])

abbrev note : Entry
note = ((bytes "string", bytes "u"), 9 ∷ [])

-- A node with these properties.
abbrev with_entries : List Entry → TreeNode
with_entries es = record home { property_infos = infos es; property_data = layout es }

abbrev titled : TreeNode
titled = with_entries (count ∷ title ∷ [])

titled-Holds : Holds (count ∷ title ∷ []) titled
unfolding fixed_size text_eq
titled-Holds = record {
  described = refl;
  stored = refl;
  sized = ((refl, omega arith), ((refl, omega arith), tt));
}

title_bytes : titled.property_data ≡ 1 ∷ 2 ∷ 0 ∷ 0 ∷ 0 ∷ 0 ∷ 0 ∷ 0 ∷ 0 ∷ 7 ∷ 8 ∷ []
unfolding layout entry_bytes fixed_size text_eq put_bytes
title_bytes = refl

-- An index past the end puts a value before the last property.
insert_past_end :
    insert_property 5 (bytes "m") (bytes "bool") (0 ∷ []) titled
    ≡ ok (with_entries (count ∷ ((bytes "bool", bytes "m"), 0 ∷ []) ∷ title ∷ []))
unfolding insert_property layout first_named text_eq insert_at fixed_size entry_bytes put_bytes
insert_past_end = refl

set_property_value_span_lem_example :
    (m : TreeNode) × (set_property_value_span (bytes "t") (5 ∷ 5 ∷ 5 ∷ []) titled ≡ ok m)
    × Holds ((count ∷ []) ++ ((bytes "string", bytes "t"), 5 ∷ 5 ∷ 5 ∷ []) ∷ []) m
unfolding fixed_size text_eq
set_property_value_span_lem_example =
    set_property_value_span_lem (bytes "string") (bytes "t") (7 ∷ 8 ∷ []) (count ∷ []) [] titled
      refl (refl, tt) titled-Holds (5 ∷ 5 ∷ 5 ∷ []) (omega arith)

insert_property_span_lem_example :
    (m : TreeNode) × (insert_property_span
        (length (count ∷ []))
        (bytes "u")
        (bytes "string")
        (9 ∷ [])
        titled
      ≡ ok m)
    × Holds ((count ∷ []) ++ ((bytes "string", bytes "u"), 9 ∷ []) ∷ title ∷ []) m
unfolding fixed_size text_eq
insert_property_span_lem_example =
    insert_property_span_lem (bytes "string") (bytes "u") (9 ∷ []) (count ∷ []) (title ∷ []) titled
      refl (omega arith) titled-Holds (refl, (refl, tt)) (refl, tt)

node_eq_iff_example : (node_eq home room ≡ true) ↔ (
    (home.label_rule ≡ room.label_rule)
    × (home.description ≡ room.description)
    × (home.property_infos ≡ room.property_infos)
    × (home.version ≡ room.version)
    × (home.child_names ≡ room.child_names)
    × (or_empty home.query_how_to ≡ or_empty room.query_how_to)
    × (home.qa_sequence ≡ room.qa_sequence)
    × (home.property_data ≡ room.property_data))
node_eq_iff_example = node_eq_iff home room

abbrev first_chunk : Chunk
first_chunk = 1 ∷ 2 ∷ 3 ∷ []

abbrev last_chunk : Chunk
last_chunk = 4 ∷ 5 ∷ []

restrict_lem_example :
    all_bytes (restrict 1 3 (first_chunk ∷ last_chunk ∷ []))
    ≡ take 3 (drop 1 (all_bytes (first_chunk ∷ last_chunk ∷ [])))
restrict_lem_example =
    restrict_lem 1 3 (first_chunk ∷ last_chunk ∷ []) (omega arith, (omega arith, tt)) (omega arith)
