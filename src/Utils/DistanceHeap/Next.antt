-- ===== src/Utils/DistanceHeap/Next.antt =====
-- getNext takes an id of least distance from the heap.
use fapra_osm_routing.Prelude.{
  ℕ, suc, ◌+◌, ◌-◌, ◌<◌, ◌≤◌, ◌≡◌, ap, ◌∙◌, List, false, Word32, max_value, rank, Returns, returns,
  Returns-bind, load-ok, store-ok, length, get_or, get_or-append_left, ◌==◌, arith,
}
use fapra_osm_routing.Utils.DistanceHeap.{DistanceHeap, get_next}
use fapra_osm_routing.Utils.DistanceHeap.Indexed.{key}
use fapra_osm_routing.Utils.DistanceHeap.Order.{IsOrdered-first}
use fapra_osm_routing.Utils.DistanceHeap.Restored.{heapify_top_down-IsRestored}
use fapra_osm_routing.Utils.DistanceHeap.Gap.{without, remove_id_lem}
use fapra_osm_routing.Utils.DistanceHeap.Contents.{IsHeap}
use fapra_osm_routing.Utils.DistanceHeap.Shrunk.{
  held, search_at, shrunk, shrunk_at, shrunk-IsIndexed, shrunk-IsOrderedBelow,
}
use fapra_osm_routing.Utils.DistanceHeap.Removed.{
  omit, ids, dists, positions, ids-room, after_removal-IsHeap,
}

-- The result of getNext on a heap of the ids `xs` at the distances `ds`.
pub record IsNext (xs ds : List Word32) (r : Word32 × DistanceHeap) : Type 0 where
  pub index : ℕ
  pub in_range : index < length xs
  pub id : r.0 ≡ get_or xs index 0
  pub least : (k : ℕ) → k < length xs → rank (get_or ds index 0) ≤ rank (get_or ds k 0)
  pub heap : IsHeap r.1 (omit index xs) (omit index ds)

module _ {h : DistanceHeap} {xs ds : List Word32} (w : IsHeap h xs ds) where
  distance_at : (p : ℕ) → p < length xs → key h w.at p ≡ rank (get_or ds (w.at p) 0)
  distance_at p l = ap rank (
      ap (λ a. get_or a (w.at p) 0) w.distances
      ∙ get_or-append_left ds w.spare_distances (w.at p) 0 (omega (arith, w.inside p l, w.paired)))

  first-least :
      0 < length xs → (k : ℕ) → k < length xs → rank (get_or ds (w.at 0) 0) ≤ rank (get_or ds k 0)
  first-least pos k l =
      let (p, m, e) = w.onto k l in
      omega (
        arith,
        distance_at 0 pos,
        distance_at p m,
        ap (λ j. rank (get_or ds j 0)) e,
        IsOrdered-first (length xs) (key h w.at) w.ordered (suc p) p (omega arith) m,
      )

  counted : 0 < length xs → length xs ≡ h.current_size - 1 + 1
  counted pos = omega (arith, w.size)

  -- On a heap in order that holds the ascending ids `xs`, not none, at the distances `ds`, getNext
  -- returns: an id of `xs` whose distance is the least of all, and a heap in order that holds the
  -- other ids, each at its distance.
  pub get_next-IsNext : 0 < length xs → Returns (IsNext xs ds) (get_next h)
  unfolding get_next
  get_next-IsNext pos =
      let n = h.current_size - 1 in
      let count = counted pos in
      let last = get_or h.id_heap_array n 0 in
      let not_empty : (h.current_size == 0) ≡ false = ground (arith, w.size) in
      let r = w.indexed in
      rw
        (
          load-ok h.id_heap_array 0 0 (omega (arith, r.in_array)),
          search_at w n count 0 pos,
          not_empty,
          load-ok h.id_heap_array n 0 (omega (arith, r.in_array)),
          store-ok h.id_heap_array 0 last (omega (arith, r.in_array)),
          search_at w n count n (omega arith),
          store-ok h.heap_position (w.at n) 0 (r.has_position n (omega arith)),
        )
        (Returns-bind
          (heapify_top_down-IsRestored n (n + 1) (shrunk w n count) (shrunk_at w n count) 0
            (shrunk-IsIndexed w n count) (shrunk-IsOrderedBelow w n count) (omega arith)
            (omega arith))
          λ t s.
            let (x, y, z, e) =
              remove_id_lem t (ids w n count t s) (dists w n count t s) (positions w n count t s) in
            rw e (
              rw (store-ok (without (ids w n count t s) x) n max_value (ids-room w n count t s x)) (
                returns (record {
                  index = w.at 0;
                  in_range = w.inside 0 pos;
                  id = held w n count 0 pos;
                  least = first-least pos;
                  heap = after_removal-IsHeap w n count t s x y z;
                }))))
