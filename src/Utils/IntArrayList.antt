-- ===== src/Utils/IntArrayList.antt =====
-- utils/IntArrayList.java: a growable list of ints.
pub mod Laws
use fapra_osm_routing.Prelude.{
  ℕ, ◌+◌, List, Word32, Run, ok, throw, index_out_of_bounds, ◌>>=◌, load, store, copy_of, replicate,
  length, ◌==◌, leb, if◌then◌else◌,
}

pub record IntArrayList : Type 0 where
  pub elements : List Word32
  pub element_count : ℕ
  pub size_increase : ℕ

-- The constructor.
pub new : ℕ → IntArrayList
new size = record { elements = replicate size 0; element_count = 0; size_increase = size }

pub get : IntArrayList → ℕ → Run Word32
get l idx = if leb l.element_count idx then throw index_out_of_bounds else load l.elements idx

grow : IntArrayList → IntArrayList
grow l = record l { elements = copy_of l.elements l.size_increase 0 }

-- The part of `add` behind its test.
put : IntArrayList → Word32 → Run IntArrayList
put l to_add = do
  written ← store l.elements l.element_count to_add
  ok (record l { elements = written; element_count = l.element_count + 1 })

pub add : IntArrayList → Word32 → Run IntArrayList
unfolding grow put
add l to_add = put (if l.element_count == length l.elements then grow l else l) to_add

pub get_len : IntArrayList → ℕ
get_len l = l.element_count

pub clear : IntArrayList → IntArrayList
clear l = record l { element_count = 0 }
