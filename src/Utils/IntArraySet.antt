-- ===== src/Utils/IntArraySet.antt =====
-- utils/IntArraySet.java: a set of ints as an ascending array.
pub mod Laws
use fapra_osm_routing.Prelude.{
  ℕ, ◌+◌, List, Word32, max_value, Run, ok, ◌>>=◌, copy_of, replicate, length, Bool, true, false,
  ◌==◌, if◌then◌else◌,
}
use fapra_osm_routing.Prelude.Buffer.Shift.{insert_cell}
use fapra_osm_routing.Search.{Position, found, missing, binary_search}

pub record IntArraySet : Type 0 where
  pub elements : List Word32
  pub element_count : ℕ
  pub size_increase : ℕ

-- The constructor.
pub new : ℕ → ℕ → IntArraySet
new size size_increase = record {
  elements = replicate size max_value;
  element_count = 0;
  size_increase = size_increase;
}

pub contains : IntArraySet → Word32 → Run Bool
contains s element = do
  idx ← binary_search s.elements element
  ok (elim idx [ found _ ↦ true | missing _ ↦ false ])

grow : IntArraySet → IntArraySet
grow s = record s { elements = copy_of s.elements s.size_increase max_value }

-- The insertion itself, at the index that the search gave.
put : IntArraySet → Word32 → ℕ → Run IntArraySet
put s to_add idx = do
  shifted ← insert_cell s.elements s.element_count idx to_add
  ok (record s { elements = shifted; element_count = s.element_count + 1 })

-- What `add` does with the result of its search, which came before the array grew.
place : IntArraySet → Word32 → Position → Run IntArraySet
place s to_add (found _) = ok s
place s to_add (missing idx) =
    put (if s.element_count == length s.elements then grow s else s) to_add idx

pub add : IntArraySet → Word32 → Run IntArraySet
unfolding grow put place
add s to_add = binary_search s.elements to_add >>= place s to_add
