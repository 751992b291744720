-- ===== src/Utils/OrderedIntSet.antt =====
-- utils/OrderedIntSet.java: a growable list of ints, kept in ascending order by its ordered variant.
pub mod Sequence
pub mod Ordered
use fapra_osm_routing.Prelude.{
  ℕ, ◌+◌, ◌-◌, ◌≡◌, List, Word32, max_value, Run, ok, throw, index_out_of_bounds, ◌>>=◌, load,
  store, copy_of, arraycopy, replicate, length, Bool, true, false, ◌==◌, leb, ltb, if◌then◌else◌,
  Option, none, some, map, take,
}
use fapra_osm_routing.Prelude.Buffer.Shift.{insert_cell, remove_cell}
use fapra_osm_routing.Search.{Position, found, missing, binary_search}

pub record OrderedIntSet : Type 0 where
  pub ordered_by_sorting : Bool
  pub elements : List Word32
  pub element_count : ℕ
  pub size_increase : ℕ

-- What a new cell holds: the ordered variant fills the array with Integer.MAX_VALUE.
abbrev pub blank : Bool → Word32
blank ordered = if ordered then max_value else 0

-- The constructor.
unfoldable pub new : Bool → ℕ → ℕ → OrderedIntSet
new ordered_by_sorting initial_size size_increase = record {
  ordered_by_sorting = ordered_by_sorting;
  elements = replicate initial_size (blank ordered_by_sorting);
  element_count = 0;
  size_increase = size_increase;
}

pub grow : OrderedIntSet → OrderedIntSet
grow s = record s { elements = copy_of s.elements s.size_increase (blank s.ordered_by_sorting) }

-- The test that precedes every insertion.
pub reserve : OrderedIntSet → OrderedIntSet
unfolding grow
reserve s = if s.element_count == length s.elements then grow s else s

-- The part of insertTail behind its test.
pub put_tail : OrderedIntSet → Word32 → Run OrderedIntSet
put_tail s to_add = do
  written ← store s.elements s.element_count to_add
  ok (record s { elements = written; element_count = s.element_count + 1 })

pub insert_tail : OrderedIntSet → Word32 → Run OrderedIntSet
unfolding reserve put_tail
insert_tail s to_add = put_tail (reserve s) to_add

pub remove_at_idx : OrderedIntSet → ℕ → Run OrderedIntSet
remove_at_idx s idx = do
  shifted ← remove_cell s.elements s.element_count idx max_value
  ok (record s { elements = shifted; element_count = s.element_count - 1 })

-- The part of insertAtIdx and of insertSorted that moves the later elements and writes.
pub put_at : OrderedIntSet → Word32 → ℕ → Run OrderedIntSet
put_at s to_add idx = do
  shifted ← insert_cell s.elements s.element_count idx to_add
  ok (record s { elements = shifted; element_count = s.element_count + 1 })

pub insert_at_idx : OrderedIntSet → Word32 → ℕ → Run OrderedIntSet
unfolding reserve put_at
insert_at_idx s to_add idx = put_at (reserve s) to_add idx

-- What insertSorted does with the result of the search; `none` is its result -1.
place : OrderedIntSet → Word32 → Position → Run (Option ℕ × OrderedIntSet)
place s to_add (found i) = ok (none, s)
place s to_add (missing i) = put_at s to_add i >>= λ t. ok (some i, t)

pub insert_sorted : OrderedIntSet → Word32 → Run (Option ℕ × OrderedIntSet)
unfolding reserve place
insert_sorted s to_add = do
  let t = reserve s
  idx ← binary_search t.elements to_add
  place t to_add idx

unfoldable pub get : OrderedIntSet → ℕ → Run Word32
get s idx = if leb s.element_count idx then throw index_out_of_bounds else load s.elements idx

unfoldable pub size : OrderedIntSet → ℕ
size s = s.element_count

unfoldable pub get_idx : OrderedIntSet → Word32 → Run Position
get_idx s element = binary_search s.elements element

pub update_value : OrderedIntSet → Word32 → ℕ → Run OrderedIntSet
update_value s new_val idx = do
  written ← store s.elements idx new_val
  ok (record s { elements = written })

pub make_space : OrderedIntSet → ℕ → OrderedIntSet
make_space s num_of_elements =
    let free_elements = length s.elements - s.element_count in
    if ltb free_elements num_of_elements
    then record s { elements = copy_of s.elements num_of_elements (blank s.ordered_by_sorting) }
    else s

-- The unordered variant leaves the old values behind.
pub clear : OrderedIntSet → OrderedIntSet
clear s = record s {
  element_count = 0;
  elements = if s.ordered_by_sorting then replicate (length s.elements) max_value else s.elements;
}

pub to_array : OrderedIntSet → Run (List Word32)
to_array s = arraycopy s.elements 0 (replicate s.element_count 0) 0 s.element_count
