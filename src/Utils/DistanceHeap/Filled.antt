-- ===== src/Utils/DistanceHeap/Filled.antt =====
-- A heap that is put in order holds what it held.
use fapra_osm_routing.Prelude.{
  ℕ, ◌<◌, ◌≡◌, ap, ◌∙◌, List, ◌++◌, Word32, max_value, length, All, arith,
}
use fapra_osm_routing.Search.Sets.{IsSorted}
use fapra_osm_routing.Utils.DistanceHeap.{DistanceHeap}
use fapra_osm_routing.Utils.DistanceHeap.Restored.{IsRestored}
use fapra_osm_routing.Utils.DistanceHeap.Contents.{IsHeap}

-- As IsHeap, but for the order and the size.
pub record IsFilled (h : DistanceHeap) (xs ds : List Word32) (at : ℕ → ℕ) : Type 0 where
  pub spare : List Word32
  pub stored : h.contained_ids ≡ xs ++ spare
  pub filled : All (λ y. y ≡ max_value) spare
  pub sorted : IsSorted xs
  pub paired : length ds ≡ length xs
  pub spare_distances : List Word32
  pub distances : h.distances ≡ ds ++ spare_distances
  pub rooms : length h.distances ≡ length h.contained_ids
  pub positions : length h.heap_position ≡ length h.contained_ids
  pub heap_array : length h.id_heap_array ≡ length h.contained_ids
  pub inside : (p : ℕ) → p < length xs → at p < length xs
  pub onto : (k : ℕ) → k < length xs → (p : ℕ) × (p < length xs) × (at p ≡ k)

pub restored-IsHeap :
    {h : DistanceHeap} {xs ds : List Word32} {at : ℕ → ℕ} (f : IsFilled h xs ds at)
    (t : DistanceHeap) (m : ℕ)
    → IsRestored h (length xs) at t
    → m ≡ length xs
    → IsHeap (record t { current_size = m }) xs ds
restored-IsHeap f t m r size = record {
  size = size;
  spare = f.spare;
  stored = r.contained_ids ∙ f.stored;
  filled = f.filled;
  sorted = f.sorted;
  paired = f.paired;
  spare_distances = f.spare_distances;
  distances = r.distances ∙ f.distances;
  rooms = omega (arith, ap length r.distances, ap length r.contained_ids, f.rooms);
  positions = omega (arith, r.positions, ap length r.contained_ids, f.positions);
  heap_array = omega (arith, r.heap_array, ap length r.contained_ids, f.heap_array);
  at = r.place;
  inside = λ p l. let (q, m, e) = r.adds_none p l in omega (arith, f.inside q m, e);
  onto = λ k l. let (p, m, e) = f.onto k l in let (q, b, d) = r.keeps p m in (q, b, d ∙ e);
  indexed = record {
    in_array = r.indexed.in_array;
    search = r.indexed.search;
    cell = r.indexed.cell;
    has_distance = r.indexed.has_distance;
    has_position = r.indexed.has_position;
    position = r.indexed.position;
  };
  ordered = r.ordered;
}
