-- ===== src/Utils/DistanceHeap/Ends.antt =====
-- Every call on the heap ends.
use fapra_osm_routing.Prelude.{
  ℕ, zero, suc, ◌+◌, ◌-◌, ◌*◌, ◌/◌, ◌<◌, ◌≡◌, ◌≢◌, ◌⊎◌, inr, refl, List, Word32, out_of_fuel, Ends,
  ends, fails, Ends-bind, Ends-if, Ends-fueled, Anything, load-Ends, store-Ends, arraycopy-Ends,
  lt_int, ltb, ◌==◌, arith,
}
use fapra_osm_routing.Prelude.Buffer.Shift.{insert_cell-Ends}
use fapra_osm_routing.Search.{Position, found, missing}
use fapra_osm_routing.Search.Ends.{binary_search-Ends, index_of-Ends}
use fapra_osm_routing.Utils.DistanceHeap.{
  DistanceHeap, position_idx, compare_values, swap, smaller, heapify_top_down, heapify_bottom_up,
  close_gap, remove_id, get_next, update, insert, place, add,
}

position_idx-Ends : (h : DistanceHeap) (i : ℕ) → Ends Anything (position_idx h i)
unfolding position_idx
position_idx-Ends h i =
    Ends-bind (load-Ends h.id_heap_array i)
      λ id _. Ends-bind (binary_search-Ends h.contained_ids id) λ p _. index_of-Ends p

compare_values-Ends : (h : DistanceHeap) (i j : ℕ) → Ends Anything (compare_values h i j)
unfolding compare_values
compare_values-Ends h i j = Ends-bind (position_idx-Ends h i) λ idx_1 _.
    Ends-bind (position_idx-Ends h j) λ idx_2 _.
      Ends-bind (load-Ends h.distances idx_1)
        λ d _. Ends-bind (load-Ends h.distances idx_2) λ e _. ends tt

swap-Ends : (h : DistanceHeap) (i j : ℕ) → Ends Anything (swap h i j)
unfolding swap
swap-Ends h i j = Ends-bind (load-Ends h.id_heap_array i) λ id_i _.
    Ends-bind (load-Ends h.id_heap_array j) λ id_j _.
      Ends-bind (store-Ends h.id_heap_array i id_j) λ half _.
        Ends-bind (store-Ends half j id_i) λ ids _.
          let t = record h { id_heap_array = ids } in
          Ends-bind (position_idx-Ends t i) λ idx_i _. Ends-bind (position_idx-Ends t j) λ idx_j _.
            Ends-bind (load-Ends t.heap_position idx_i) λ p _.
              Ends-bind (load-Ends t.heap_position idx_j) λ q _.
                Ends-bind (store-Ends t.heap_position idx_i q)
                  λ moved _. Ends-bind (store-Ends moved idx_j p) λ positions _. ends tt

-- The result is the child, which is on the heap, or the position so far.
smaller-Ends :
    (h : DistanceHeap) (n child smallest : ℕ)
    → Ends (λ r. ((r ≡ child) × (child < n)) ⊎ (r ≡ smallest)) (smaller h n child smallest)
unfolding smaller
smaller-Ends h n child smallest =
    Ends-if (ltb child n)
      (λ inside. Ends-bind (compare_values-Ends h child smallest) λ c _. ends (ground arith))
      (λ outside. ends (inr refl))

-- Each round goes down to a position that is larger and still on the heap.
heapify_top_down-Ends :
    (fuel : ℕ) (h : DistanceHeap) (n root : ℕ)
    → n < fuel + root
    → 0 < fuel
    → Ends Anything (heapify_top_down fuel h n root)
unfolding heapify_top_down
heapify_top_down-Ends zero h n root f p = absurd (omega arith)
heapify_top_down-Ends (suc fuel) h n root f p =
    Ends-bind (smaller-Ends h n (2 * root + 1) root) λ left at_left.
      Ends-bind (smaller-Ends h n (2 * root + 2) left) λ smallest at.
        Ends-if (smallest == root) (λ same. ends tt)
          λ differ.
            Ends-bind (swap-Ends h root smallest)
              λ t _. heapify_top_down-Ends fuel t n smallest (ground arith) (ground arith)

heapify_bottom_up-Ends :
    (fuel : ℕ) (h : DistanceHeap) (node_id : ℕ)
    → node_id < fuel
    → Ends Anything (heapify_bottom_up fuel h node_id)
unfolding heapify_bottom_up
heapify_bottom_up-Ends zero h node_id f = absurd (omega arith)
heapify_bottom_up-Ends (suc fuel) h node_id f =
    Ends-if (node_id == 0) (λ top. ends tt)
      λ below. Ends-bind (compare_values-Ends h node_id ((node_id - 1) / 2)) λ c _.
        Ends-if (lt_int c 0)
          (λ up.
            Ends-bind (swap-Ends h node_id ((node_id - 1) / 2))
              λ t _. heapify_bottom_up-Ends fuel t ((node_id - 1) / 2) (ground arith))
          (λ stay. ends tt)

close_gap-Ends : (a : List ℕ) (idx n : ℕ) → Ends Anything (close_gap a idx n)
unfolding close_gap
close_gap-Ends a idx n = arraycopy-Ends a (idx + 1) a idx (n - idx)

remove_id-Ends : (h : DistanceHeap) (p : Position) (n : ℕ) → Ends Anything (remove_id h p n)
unfolding remove_id
remove_id-Ends h (missing i) n = fails
remove_id-Ends h (found i) n =
    Ends-if (ltb i n)
      (λ inside. Ends-bind (close_gap-Ends h.contained_ids i n) λ ids _.
        Ends-bind (close_gap-Ends h.distances i n)
          λ dists _. Ends-bind (close_gap-Ends h.heap_position i n) λ positions _. ends tt)
      (λ last. ends tt)

get_next-Ends : (h : DistanceHeap) → Ends Anything (get_next h)
unfolding get_next
get_next-Ends h =
    let n = h.current_size - 1 in
    Ends-bind (load-Ends h.id_heap_array 0) λ value _.
      Ends-bind (binary_search-Ends h.contained_ids value) λ delete_idx _.
        Ends-bind
          (Ends-if {P = Anything} (h.current_size == 0) (λ _. fails)
            (λ _. load-Ends h.id_heap_array n))
          λ last _. Ends-bind (store-Ends h.id_heap_array 0 last) λ ids _.
            Ends-bind (binary_search-Ends h.contained_ids last) λ position _.
              Ends-bind (index_of-Ends position) λ idx _.
                Ends-bind (store-Ends h.heap_position idx 0) λ positions _.
                  Ends-bind (heapify_top_down-Ends (n + 1) _ n 0 (omega arith) (omega arith)) λ t _.
                    Ends-bind (remove_id-Ends t delete_idx n)
                      λ u _. Ends-bind (store-Ends u.contained_ids n _) λ contained _. ends tt

update-Ends :
    (h : DistanceHeap) (distance : Word32) (idx : ℕ) → Ends Anything (update h distance idx)
unfolding update
update-Ends h distance idx = Ends-bind (store-Ends h.distances idx distance) λ dists _.
    Ends-bind (load-Ends h.heap_position idx)
      λ position _. heapify_bottom_up-Ends (position + 1) _ position (omega arith)

insert-Ends :
    (h : DistanceHeap) (id distance : Word32) (idx : ℕ) → Ends Anything (insert h id distance idx)
unfolding insert
insert-Ends h id distance idx =
    let n = h.current_size in
    Ends-bind (insert_cell-Ends h.contained_ids n idx id) λ contained _.
      Ends-bind (insert_cell-Ends h.distances n idx distance) λ dists _.
        Ends-bind (store-Ends h.id_heap_array n id) λ ids _.
          Ends-bind (insert_cell-Ends h.heap_position n idx n) λ positions _.
            Ends-bind (heapify_bottom_up-Ends (n + 1) _ n (omega arith)) λ t _. ends tt

place-Ends :
    (h : DistanceHeap) (id distance : Word32) (p : Position) → Ends Anything (place h id distance p)
unfolding place
place-Ends h id distance (found idx) = update-Ends h distance idx
place-Ends h id distance (missing idx) = insert-Ends _ id distance idx

-- On every heap, well formed or not, the recursions of add and of getNext end: neither call runs
-- out of the fuel that it starts them with.
pub heap_calls-Ends :
    (h : DistanceHeap) (id distance : Word32)
    → (add h id distance ≢ out_of_fuel) × (get_next h ≢ out_of_fuel)
unfolding add
heap_calls-Ends h id distance = (
  Ends-fueled (Ends-bind (binary_search-Ends h.contained_ids id) λ p _. place-Ends h id distance p),
  Ends-fueled (get_next-Ends h),
)
