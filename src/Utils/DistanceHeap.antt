-- ===== src/Utils/DistanceHeap.antt =====
-- utils/DistanceHeap.java: a binary heap of ids, whose distances and positions stand in arrays
-- that are ordered by the ids.
pub mod Ends
pub mod Indexed
pub mod Swap
pub mod Order
pub mod Restored
pub mod Gap
pub mod Contents
pub mod Shrunk
pub mod Removed
pub mod Next
pub mod Filled
pub mod Updated
pub mod Inserted
pub mod Added
pub mod Grown
pub mod Calls
use fapra_osm_routing.Prelude.{
  ℕ, zero, suc, ◌+◌, ◌-◌, ◌*◌, ◌/◌, List, Word32, max_value, minus_one, lt_int, Run, ok, throw,
  out_of_fuel, index_out_of_bounds, ◌>>=◌, load, store, arraycopy, copy_to, fill, replicate, length,
  ◌==◌, ltb, Bool, if◌then◌else◌,
}
use fapra_osm_routing.Prelude.Buffer.Shift.{insert_cell}
use fapra_osm_routing.Search.{Position, found, missing, index_of, binary_search}

pub record DistanceHeap : Type 0 where
  pub size_increase : ℕ
  pub contained_ids : List Word32
  pub distances : List Word32
  pub heap_position : List ℕ
  pub id_heap_array : List Word32
  pub current_size : ℕ

-- The constructor with sizes.
pub new : ℕ → ℕ → DistanceHeap
new initial_size size_increase = record {
  size_increase = size_increase;
  contained_ids = replicate initial_size max_value;
  distances = replicate initial_size 0;
  heap_position = replicate initial_size 0;
  id_heap_array = replicate initial_size 0;
  current_size = 0;
}

pub reset : DistanceHeap → DistanceHeap
reset h = record h { current_size = 0; contained_ids = fill h.contained_ids 0 max_value }

pub is_empty : DistanceHeap → Bool
is_empty h = h.current_size == 0

pub grow : DistanceHeap → DistanceHeap
grow h =
    let old_len = length h.id_heap_array in
    let new_len = old_len + h.size_increase in
    record h {
      id_heap_array = copy_to h.id_heap_array new_len 0;
      distances = copy_to h.distances new_len 0;
      contained_ids = fill (copy_to h.contained_ids new_len 0) old_len max_value;
      heap_position = copy_to h.heap_position new_len 0;
    }

-- The index of the id that stands at a position of the heap.
position_idx : DistanceHeap → ℕ → Run ℕ
position_idx h i = do
  id ← load h.id_heap_array i
  idx ← binary_search h.contained_ids id
  index_of idx

-- 0, 1 or -1.
pub compare_values : DistanceHeap → ℕ → ℕ → Run Word32
unfolding position_idx
compare_values h first_id second_id = do
  idx_1 ← position_idx h first_id
  idx_2 ← position_idx h second_id
  dist_1 ← load h.distances idx_1
  dist_2 ← load h.distances idx_2
  ok (if dist_1 == dist_2 then 0 else if lt_int dist_2 dist_1 then 1 else minus_one)

pub swap : DistanceHeap → ℕ → ℕ → Run DistanceHeap
swap h i j = do
  id_i ← load h.id_heap_array i
  id_j ← load h.id_heap_array j
  half ← store h.id_heap_array i id_j
  ids ← store half j id_i
  let t = record h { id_heap_array = ids }
  idx_i ← position_idx t i
  idx_j ← position_idx t j
  position_i ← load t.heap_position idx_i
  position_j ← load t.heap_position idx_j
  moved ← store t.heap_position idx_i position_j
  positions ← store moved idx_j position_i
  ok (record t { heap_position = positions })

-- The child, where it is on the heap and closer than the smallest position so far.
pub smaller : DistanceHeap → ℕ → ℕ → ℕ → Run ℕ
unfolding compare_values
smaller h n child smallest =
    let compared =
      compare_values h child smallest >>= λ c. ok (if lt_int c 0 then child else smallest) in
    if ltb child n then compared else ok smallest

pub heapify_top_down : ℕ → DistanceHeap → ℕ → ℕ → Run DistanceHeap
unfolding smaller swap
heapify_top_down zero h n root = out_of_fuel
heapify_top_down (suc fuel) h n root = do
  left ← smaller h n (2 * root + 1) root
  smallest ← smaller h n (2 * root + 2) left
  let down = swap h root smallest >>= λ t. heapify_top_down fuel t n smallest
  if smallest == root then ok h else down

pub heapify_bottom_up : ℕ → DistanceHeap → ℕ → Run DistanceHeap
unfolding compare_values swap
heapify_bottom_up zero h node_id = out_of_fuel
heapify_bottom_up (suc fuel) h node_id =
    let parent = (node_id - 1) / 2 in
    let up = swap h node_id parent >>= λ t. heapify_bottom_up fuel t parent in
    let round = compare_values h node_id parent >>= λ c. if lt_int c 0 then up else ok h in
    if node_id == 0 then ok h else round

-- The cells behind `idx` move to the front by one.
close_gap : List ℕ → ℕ → ℕ → Run (List ℕ)
close_gap a idx n = arraycopy a (idx + 1) a idx (n - idx)

-- The part of getNext that takes the id out of the ordered arrays. A negative index throws.
pub remove_id : DistanceHeap → Position → ℕ → Run DistanceHeap
unfolding close_gap
remove_id h (missing i) n = throw index_out_of_bounds
remove_id h (found i) n =
    let shift = do
      ids ← close_gap h.contained_ids i n
      dists ← close_gap h.distances i n
      positions ← close_gap h.heap_position i n
      ok (record h { contained_ids = ids; distances = dists; heap_position = positions })
    in if ltb i n then shift else ok h

-- On an empty heap the new size is -1, and the read at it throws.
pub get_next : DistanceHeap → Run (Word32 × DistanceHeap)
unfolding heapify_top_down remove_id
get_next h = do
  return_value ← load h.id_heap_array 0
  delete_idx ← binary_search h.contained_ids return_value
  let n = h.current_size - 1
  last ← (if h.current_size == 0 then throw index_out_of_bounds else load h.id_heap_array n)
  ids ← store h.id_heap_array 0 last
  position ← binary_search h.contained_ids last
  idx ← index_of position
  positions ← store h.heap_position idx 0
  t ←
      heapify_top_down (n + 1)
        (record h { current_size = n; id_heap_array = ids; heap_position = positions }) n 0
  u ← remove_id t delete_idx n
  contained ← store u.contained_ids n max_value
  ok (return_value, record u { contained_ids = contained })

-- The part of `add` for an id that is on the heap.
pub update : DistanceHeap → Word32 → ℕ → Run DistanceHeap
unfolding heapify_bottom_up
update h distance idx = do
  dists ← store h.distances idx distance
  position ← load h.heap_position idx
  heapify_bottom_up (position + 1) (record h { distances = dists }) position

-- The part of `add` for a new id.
pub insert : DistanceHeap → Word32 → Word32 → ℕ → Run DistanceHeap
unfolding heapify_bottom_up
insert h id distance insert_idx = do
  let n = h.current_size
  contained ← insert_cell h.contained_ids n insert_idx id
  dists ← insert_cell h.distances n insert_idx distance
  ids ← store h.id_heap_array n id
  positions ← insert_cell h.heap_position n insert_idx n
  t ←
      heapify_bottom_up (n + 1)
        (record h {
          contained_ids = contained;
          distances = dists;
          id_heap_array = ids;
          heap_position = positions;
        })
        n
  ok (record t { current_size = n + 1 })

-- What `add` does with the result of its search.
pub place : DistanceHeap → Word32 → Word32 → Position → Run DistanceHeap
unfolding grow update insert
place h id distance (found idx) = update h distance idx
place h id distance (missing idx) =
    insert (if h.current_size == length h.id_heap_array then grow h else h) id distance idx

pub add : DistanceHeap → Word32 → Word32 → Run DistanceHeap
unfolding place
add h id distance = binary_search h.contained_ids id >>= place h id distance
