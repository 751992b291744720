-- ===== src/Tests/Heap.antt =====
-- A heap of two ids.
use fapra_osm_routing.Prelude.{
  ℕ, zero, suc, ◌<◌, ◌≡◌, refl, [], ◌∷◌, max_value, rank, ok, ◌≤◌, Returns, get_or, arith,
}
use fapra_osm_routing.Search.{binary_search, search_between, search_loop}
use fapra_osm_routing.Utils.DistanceHeap.{DistanceHeap, get_next, add}
use fapra_osm_routing.Utils.DistanceHeap.Indexed.{IsIndexed, find, key}
use fapra_osm_routing.Utils.DistanceHeap.Calls.{IsAdded, add-IsAdded}
use fapra_osm_routing.Utils.DistanceHeap.Order.{IsOrdered}
use fapra_osm_routing.Utils.DistanceHeap.Contents.{IsHeap}
use fapra_osm_routing.Utils.DistanceHeap.Next.{IsNext, get_next-IsNext}

-- The id 7, which is closer than the id 3, is at the top.
abbrev in_order : DistanceHeap
in_order = record {
  size_increase = 5;
  contained_ids = 3 ∷ 7 ∷ max_value ∷ [];
  distances = 5 ∷ 2 ∷ 0 ∷ [];
  heap_position = 1 ∷ 0 ∷ 0 ∷ [];
  id_heap_array = 7 ∷ 3 ∷ 0 ∷ [];
  current_size = 2;
}

abbrev other_place : ℕ → ℕ
other_place zero = 1
other_place (suc zero) = 0
other_place (suc (suc p)) = p

in_order-IsIndexed : IsIndexed in_order 2 other_place
unfolding binary_search search_between search_loop
in_order-IsIndexed = record {
  in_array = omega arith;
  search = places;
  cell = ids;
  has_distance = inside;
  has_position = inside;
  position = positions;
}
  where
    places : (p : ℕ) → p < 2 → find in_order (get_or (7 ∷ 3 ∷ 0 ∷ []) p 0) ≡ ok (other_place p)
    places zero l = refl
    places (suc zero) l = refl
    places (suc (suc p)) l = absurd (omega arith)

    ids :
        (p : ℕ)
        → p < 2
        → get_or (7 ∷ 3 ∷ 0 ∷ []) p 0 ≡ get_or (3 ∷ 7 ∷ max_value ∷ []) (other_place p) 0
    ids zero l = refl
    ids (suc zero) l = refl
    ids (suc (suc p)) l = absurd (omega arith)

    inside : (p : ℕ) → p < 2 → other_place p < 3
    inside zero l = omega arith
    inside (suc zero) l = omega arith
    inside (suc (suc p)) l = absurd (omega arith)

    positions : (p : ℕ) → p < 2 → get_or (1 ∷ 0 ∷ 0 ∷ []) (other_place p) 0 ≡ p
    positions zero l = refl
    positions (suc zero) l = refl
    positions (suc (suc p)) l = absurd (omega arith)

in_order-IsHeap : IsHeap in_order (3 ∷ 7 ∷ []) (5 ∷ 2 ∷ [])
in_order-IsHeap = record {
  size = refl;
  spare = max_value ∷ [];
  stored = refl;
  filled = (refl, tt);
  sorted = record { strict = omega arith; below = omega arith };
  paired = refl;
  spare_distances = 0 ∷ [];
  distances = refl;
  rooms = refl;
  positions = refl;
  heap_array = refl;
  at = other_place;
  inside = inside;
  onto = onto;
  indexed = in_order-IsIndexed;
  ordered = ordered;
}
  where
    inside : (p : ℕ) → p < 2 → other_place p < 2
    inside zero l = omega arith
    inside (suc zero) l = omega arith
    inside (suc (suc p)) l = absurd (omega arith)

    onto : (k : ℕ) → k < 2 → (p : ℕ) × (p < 2) × (other_place p ≡ k)
    onto zero l = (1, omega arith, refl)
    onto (suc zero) l = (0, omega arith, refl)
    onto (suc (suc k)) l = absurd (omega arith)

    ordered : IsOrdered 2 (key in_order other_place)
    ordered zero pos l = absurd (omega arith)
    ordered (suc zero) pos l = omega arith
    ordered (suc (suc p)) pos l = absurd (omega arith)

get_next-IsNext_example : Returns (IsNext (3 ∷ 7 ∷ []) (5 ∷ 2 ∷ [])) (get_next in_order)
get_next-IsNext_example = get_next-IsNext in_order-IsHeap (omega arith)

-- The id 5 is new, and closer than the two others.
add-IsAdded_example : Returns (IsAdded (3 ∷ 7 ∷ []) (5 ∷ 2 ∷ []) 5 1) (add in_order 5 1)
add-IsAdded_example = add-IsAdded 5 1 (omega arith) in_order-IsHeap (omega arith) others
  where
    others :
        (k : ℕ)
        → k < 2
        → get_or {A = ℕ} (3 ∷ 7 ∷ []) k 0 ≡ 5
        → rank 1 ≤ rank (get_or (5 ∷ 2 ∷ []) k 0)
    others zero l e = omega arith
    others (suc zero) l e = omega arith
    others (suc (suc k)) l e = absurd (omega arith)
