-- ===== src/Utils/DistanceHeap/Updated.antt =====
-- The part of add for an id that is on the heap: a distance that is not larger.
use fapra_osm_routing.Prelude.{
  ℕ, zero, suc, ◌+◌, ◌<◌, ◌≤◌, ◌≡◌, ◌≢◌, refl, sym, ap, ◌∙◌, subst, List, [], ◌∷◌, ◌++◌, Bool-cases,
  inl, inr, Word32, rank, Returns, Returns-map, load-ok, store-ok, length, length-set,
  length-append, get_or, set, get_or-append_left, ◌==◌, arith,
}
use fapra_osm_routing.Utils.DistanceHeap.{DistanceHeap, update}
use fapra_osm_routing.Utils.DistanceHeap.Indexed.{IsIndexed, key, get_or-set_same, get_or-set_other}
use fapra_osm_routing.Utils.DistanceHeap.Order.{parent, IsOrderedAbove}
use fapra_osm_routing.Utils.DistanceHeap.Restored.{heapify_bottom_up-IsRestored}
use fapra_osm_routing.Utils.DistanceHeap.Contents.{IsHeap}
use fapra_osm_routing.Utils.DistanceHeap.Filled.{IsFilled, restored-IsHeap}

set-append_left : (xs ys : List ℕ) (i v : ℕ) → i < length xs → set (xs ++ ys) i v ≡ set xs i v ++ ys
set-append_left [] ys i v l = absurd (omega arith)
set-append_left (x ∷ xs) ys zero v l = refl
set-append_left (x ∷ xs) ys (suc i) v l = ap (◌∷◌ x) (set-append_left xs ys i v (omega arith))

module _ {h : DistanceHeap} {xs ds : List Word32} (w : IsHeap h xs ds) (idx : ℕ)
    (l : idx < length xs) (distance : Word32)
    (closer : rank distance ≤ rank (get_or ds idx 0)) where
  abbrev changed : DistanceHeap
  changed = record h { distances = set h.distances idx distance }

  position_of : ℕ
  position_of = (w.onto idx l).0

  position_of-bound : position_of < length xs
  unfolding position_of
  position_of-bound = (w.onto idx l).1

  at-position_of : w.at position_of ≡ idx
  unfolding position_of
  at-position_of = (w.onto idx l).2

  distances-bound : idx < length h.distances
  distances-bound =
      omega (arith, ap length w.distances, length-append ds w.spare_distances, w.paired, l)

  changed-IsIndexed : IsIndexed changed (length xs) w.at
  changed-IsIndexed = record {
    in_array = w.indexed.in_array;
    search = w.indexed.search;
    cell = w.indexed.cell;
    has_distance =
        λ p m. omega (arith, w.indexed.has_distance p m, length-set h.distances idx distance);
    has_position = w.indexed.has_position;
    position = w.indexed.position;
  }

  at-other : (p : ℕ) → p < length xs → p ≢ position_of → idx ≢ w.at p
  at-other p m differ e = differ (
      sym (w.indexed.position p m)
      ∙ ap (λ k. get_or h.heap_position k 0) (sym e ∙ sym at-position_of)
      ∙ w.indexed.position position_of position_of-bound)

  key-other : (p : ℕ) → p < length xs → p ≢ position_of → key changed w.at p ≡ key h w.at p
  key-other p m differ =
      ap rank (get_or-set_other h.distances idx (w.at p) distance (at-other p m differ))

  key-smaller : (p : ℕ) → p < length xs → key changed w.at p ≤ key h w.at p
  key-smaller p m = elim (Bool-cases (p == position_of)) [
    | inl same ↦
        let e : w.at p ≡ idx = ap w.at (ground arith) ∙ at-position_of in
        omega (
          arith,
          closer,
          ap (λ k. rank (get_or (set h.distances idx distance) k 0)) e,
          ap (λ k. rank (get_or h.distances k 0)) e,
          ap rank (get_or-set_same h.distances idx distance distances-bound),
          ap rank (
              ap (λ a. get_or a idx 0) w.distances
              ∙ get_or-append_left ds w.spare_distances idx 0 (omega (arith, l, w.paired))),
        )
    | inr other ↦ omega (arith, key-other p m (ground arith))
  ]

  changed-IsOrderedAbove : IsOrderedAbove (length xs) position_of (key changed w.at)
  changed-IsOrderedAbove = record {
    rest = λ p pos m differ.
        omega
          (arith, w.ordered p pos m, key-other p m differ, key-smaller (parent p) (omega arith));
    below = λ p pos m child up. omega (
      arith,
      w.ordered p pos m,
      key-other p m (omega arith),
      w.ordered position_of up position_of-bound,
      ap (key h w.at) child,
      key-smaller (parent position_of) (omega (arith, position_of-bound)),
    );
  }

  -- The heap holds the same ids, and this one at the new distance.
  pub update-IsHeap : Returns (λ t. IsHeap t xs (set ds idx distance)) (update h distance idx)
  unfolding update
  update-IsHeap =
      let located : get_or h.heap_position idx 0 ≡ position_of =
        ap (λ k. get_or h.heap_position k 0) (sym at-position_of)
        ∙ w.indexed.position position_of position_of-bound in
      rw
        (
          store-ok h.distances idx distance distances-bound,
          load-ok h.heap_position idx 0 (
              subst (λ k. k < length h.heap_position) at-position_of
                (w.indexed.has_position position_of position_of-bound)),
          located,
        )
        (Returns-map
          (heapify_bottom_up-IsRestored (length xs) (position_of + 1) changed w.at position_of
            changed-IsIndexed changed-IsOrderedAbove position_of-bound (omega arith))
          λ t r. restored-IsHeap changed-IsFilled t t.current_size r (r.current_size ∙ w.size))
    where
      changed-IsFilled : IsFilled changed xs (set ds idx distance) w.at
      changed-IsFilled = record {
        spare = w.spare;
        stored = w.stored;
        filled = w.filled;
        sorted = w.sorted;
        paired = length-set ds idx distance ∙ w.paired;
        spare_distances = w.spare_distances;
        distances =
            ap (λ a. set a idx distance) w.distances
            ∙ set-append_left ds w.spare_distances idx distance (omega (arith, l, w.paired));
        rooms = length-set h.distances idx distance ∙ w.rooms;
        positions = w.positions;
        heap_array = w.heap_array;
        inside = w.inside;
        onto = w.onto;
      }
