-- ===== src/TreeNode/Property.antt =====
-- common/backend_cpp/interface/tree_node.cpp: the properties of a node, which lie one after the
-- other in property_data. A value of a fixed-size type is its bytes, any other value follows its
-- size. The data is taken to be the node's own: copies of a node that share the chunks of their
-- data are not modelled. A span that ends past the data, and a read past it, is a `trap`.
pub mod Layout
pub mod Find
pub mod Laws
pub mod Edit
pub mod Fixed
use world_wide_anthropomorph.Base.{
  ℕ, zero, suc, ◌+◌, ◌-◌, ◌*◌, ◌/◌, ◌%◌, Bool, true, false, not, ◌&&◌, ◌||◌, Option, none, some,
  List, [], ◌∷◌, ◌++◌, if◌then◌else◌, ltb, leb, ◌==◌, length, take, drop, get_or, Result, ok, err,
  ◌>>=◌, trap, property_not_found, property_exists,
}
use world_wide_anthropomorph.Text.{Text, bytes, text_eq}
use world_wide_anthropomorph.TreeNode.{TreeNode, PropertyInfo}

-- The number of values of a size_t.
abbrev pub size_limit : ℕ
size_limit = 18446744073709551616

-- The bytes of an integer in memory, least first.
unfoldable pub put_bytes : ℕ → ℕ → List ℕ
put_bytes zero n = []
put_bytes (suc k) n = n % 256 ∷ put_bytes k (n / 256)

unfoldable pub get_bytes : List ℕ → ℕ
get_bytes [] = 0
get_bytes (b ∷ bs) = b + 256 * get_bytes bs

abbrev pub info_eq : PropertyInfo → PropertyInfo → Bool
info_eq (s, m) (t, n) = text_eq s t && text_eq m n

-- The sizes that the code gives to the types of fixed_size_types.
unfoldable pub fixed_size : Text → Option ℕ
fixed_size type =
    if text_eq type (bytes "int64") || text_eq type (bytes "uint64")
    then some 8
    else if text_eq type (bytes "float")
    then some 4
    else if text_eq type (bytes "double")
    then some 8
    else if text_eq type (bytes "bool")
    then some 1
    else none

-- cur_size in each of the loops: the bytes of the first property in the data.
unfoldable pub property_size : Text → List ℕ → Result ℕ
property_size type span = elim (fixed_size type) [
  | some n ↦ ok n
  | none ↦ if ltb (length span) 8 then err trap else ok ((get_bytes (take 8 span) + 8) % size_limit)
]

-- The loop over property_infos up to a property: cur_size, total_size and remaining_data.
unfoldable pub find_property :
    PropertyInfo → List PropertyInfo → List ℕ → ℕ → Result (ℕ × ℕ × List ℕ)
unfolding property_size
find_property target [] span total = ok (0, total, span)
find_property target (info ∷ infos) span total = property_size info.0 span >>= λ cur.
    let rest = find_property target infos (drop cur span) (total + cur) in
    if info_eq info target
    then ok (cur, total, span)
    else if ltb (length span) cur
    then err trap
    else rest

-- The same, where the span of the property is read too.
unfoldable pub find_whole : PropertyInfo → List PropertyInfo → List ℕ → Result (ℕ × ℕ × List ℕ)
unfolding find_property
find_whole target infos span = find_property target infos span 0 >>= λ (cur, total, left).
    if ltb (length left) cur then err trap else ok (cur, total, left)

-- The first property with the name.
unfoldable pub first_named : Text → List PropertyInfo → Option PropertyInfo
first_named name [] = none
first_named name (info ∷ infos) =
    let rest = first_named name infos in if text_eq info.1 name then some info else rest

unfoldable pub has_info : PropertyInfo → List PropertyInfo → Bool
has_info target [] = false
has_info target (info ∷ infos) =
    let rest = has_info target infos in if info_eq info target then true else rest

-- TreeNode::getPropertyValue: the size and the bytes of the value of type `type`
unfoldable pub get_property_value : Text → Text → TreeNode → Result (ℕ × List ℕ)
unfolding has_info find_whole
get_property_value type name n =
    if not (has_info (type, name) n.property_infos)
    then err property_not_found
    else find_whole (type, name) n.property_infos n.property_data >>= λ (cur, total, span).
        ok (cur, take cur span)

-- TreeNode::getPropertyValueSpan: the size, the span of the size and the span of the value
unfoldable pub get_property_value_span : Text → TreeNode → Result (ℕ × List ℕ × List ℕ)
unfolding first_named find_whole
get_property_value_span name n = elim (first_named name n.property_infos) [
  | none ↦ err property_not_found
  | some info ↦ find_whole info n.property_infos n.property_data >>= λ (cur, total, span).
      if ltb cur 8 then err trap else ok (cur - 8, take 8 span, take (cur - 8) (drop 8 span))
]

-- A write of bytes into the data.
unfoldable pub overwrite : ℕ → List ℕ → List ℕ → List ℕ
overwrite at bs span = take at span ++ (bs ++ drop (at + length bs) span)

-- TreeNode::setPropertyValue, of a value of type `type` with these bytes
unfoldable pub set_property_value : Text → Text → List ℕ → TreeNode → Result TreeNode
unfolding has_info find_whole overwrite
set_property_value type name value n =
    if not (has_info (type, name) n.property_infos)
    then err property_not_found
    else find_whole (type, name) n.property_infos n.property_data >>= λ (cur, total, span).
        ok (record n { property_data = overwrite total value n.property_data })

-- TreeNode::setPropertyValueSpan. The new size is written before the parts are put together.
unfoldable pub set_property_value_span : Text → List ℕ → TreeNode → Result TreeNode
unfolding first_named find_whole overwrite put_bytes
set_property_value_span name value n = elim (first_named name n.property_infos) [
  | none ↦ err property_not_found
  | some info ↦ find_whole info n.property_infos n.property_data >>= λ (cur, total, span).
      if ltb (length span) 8
      then err trap
      else let written = overwrite total (put_bytes 8 (length value)) n.property_data in
        ok (record n {
          property_data = take (total + 8) written ++ (value ++ drop (total + cur) written);
        })
]

-- std::find on property_infos, and the insertion before what it finds.
unfoldable pub insert_before : PropertyInfo → PropertyInfo → List PropertyInfo → List PropertyInfo
insert_before target new [] = new ∷ []
insert_before target new (info ∷ infos) =
    let rest = insert_before target new infos in
    if info_eq info target then new ∷ (info ∷ infos) else info ∷ rest

-- What both insertions do, before the property `next`: the bytes and the description.
unfoldable pub insert_at : PropertyInfo → PropertyInfo → List ℕ → TreeNode → Result TreeNode
unfolding find_property insert_before
insert_at next new value n =
    find_property next n.property_infos n.property_data 0 >>= λ (cur, total, span). ok (record n {
      property_infos = insert_before next new n.property_infos;
      property_data = take total n.property_data ++ (value ++ drop total n.property_data);
    })

abbrev pub no_info : PropertyInfo
no_info = ([], [])

-- TreeNode::insertProperty, of a value of type `type` with these bytes. An index past the end
-- stands for the last property.
unfoldable pub insert_property : ℕ → Text → Text → List ℕ → TreeNode → Result TreeNode
insert_property index name type value n = elim (first_named name n.property_infos) [
  | some _ ↦ err property_exists
  | none ↦
      let last = length n.property_infos - 1 in
      let next = get_or n.property_infos (if leb index last then index else last) no_info in
      insert_at next (type, name) value n
]

-- TreeNode::insertPropertySpan. An index past the end stands for no property.
unfoldable pub insert_property_span : ℕ → Text → Text → List ℕ → TreeNode → Result TreeNode
insert_property_span index name type value n = elim (first_named name n.property_infos) [
  | some _ ↦ err property_exists
  | none ↦
      insert_at (get_or n.property_infos index no_info) (type, name)
        (put_bytes 8 (length value) ++ value) n
]

-- The infos without the first of the name.
unfoldable pub erase_named : Text → List PropertyInfo → List PropertyInfo
erase_named name [] = []
erase_named name (info ∷ infos) =
    let rest = erase_named name infos in if text_eq info.1 name then infos else info ∷ rest

-- TreeNode::deleteProperty
unfoldable pub delete_property : Text → TreeNode → Result TreeNode
unfolding first_named find_whole erase_named
delete_property name n = elim (first_named name n.property_infos) [
  | none ↦ ok n
  | some info ↦ find_whole info n.property_infos n.property_data >>= λ (cur, total, span).
      ok (record n {
        property_infos = erase_named name n.property_infos;
        property_data = take total n.property_data ++ drop (total + cur) n.property_data;
      })
]
