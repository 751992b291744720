-- ===== src/Utils/DistanceHeap/Restored.antt =====
-- heapifyBottomUp and heapifyTopDown restore the order of the heap.
use std.Path.{fun_ext}
use fapra_osm_routing.Prelude.{
  ℕ, zero, suc, ◌+◌, ◌*◌, ◌<◌, ◌≡◌, ◌≢◌, refl, sym, ap, ◌∙◌, subst, true, false, Bool-cases, inl,
  inr, lt_int, rank, Returns, returns, Returns-map, Returns-bind, length, get_or, set, length-set,
  ltb, ◌==◌, arith,
}
use fapra_osm_routing.Utils.DistanceHeap.{
  DistanceHeap, smaller, heapify_top_down, heapify_bottom_up,
}
use fapra_osm_routing.Utils.DistanceHeap.Indexed.{
  IsIndexed, key, swapped, swapped_first, swapped_second, compare_values_lem,
}
use fapra_osm_routing.Utils.DistanceHeap.Swap.{after_swap, after_swap-IsIndexed, swap_lem}
use fapra_osm_routing.Utils.DistanceHeap.Order.{
  parent, IsOrdered, IsOrderedAbove, IsOrderedBelow, above-IsOrdered, above-swapped,
  below-IsOrdered, below-swapped, swapped-map, IsPicked, picked-IsClosest,
}

-- The heap `t` holds the ids of `h`, with their distances, in an order by distance.
pub record IsRestored (h : DistanceHeap) (n : ℕ) (at : ℕ → ℕ) (t : DistanceHeap) : Type 0 where
  pub place : ℕ → ℕ
  pub indexed : IsIndexed t n place
  pub ordered : IsOrdered n (key t place)
  pub keeps : (p : ℕ) → p < n → (q : ℕ) × (q < n) × (place q ≡ at p)
  pub adds_none : (p : ℕ) → p < n → (q : ℕ) × (q < n) × (at q ≡ place p)
  pub contained_ids : t.contained_ids ≡ h.contained_ids
  pub distances : t.distances ≡ h.distances
  pub current_size : t.current_size ≡ h.current_size
  pub positions : length t.heap_position ≡ length h.heap_position
  pub heap_array : length t.id_heap_array ≡ length h.id_heap_array

module _ (n : ℕ) where
  already-IsRestored :
      (h : DistanceHeap) (at : ℕ → ℕ)
      → IsIndexed h n at
      → IsOrdered n (key h at)
      → IsRestored h n at h
  already-IsRestored h at w o = record {
    place = at;
    indexed = w;
    ordered = o;
    keeps = λ p l. (p, l, refl);
    adds_none = λ p l. (p, l, refl);
    contained_ids = refl;
    distances = refl;
    current_size = refl;
    positions = refl;
    heap_array = refl;
  }

  module _ (h : DistanceHeap) (at : ℕ → ℕ) (w : IsIndexed h n at) (i j : ℕ) (a : i < n) (b : j < n)
      (differ : i ≢ j) where
    swapped-keeps : (p : ℕ) → p < n → (q : ℕ) × (q < n) × (swapped i j at q ≡ at p)
    swapped-keeps p l = elim (Bool-cases (p == i)) [
      | inl first ↦ let e : i ≡ p = ground arith in (j, b, swapped_second i j at differ ∙ ap at e)
      | inr not_first ↦ elim (Bool-cases (p == j)) [
        | inl last ↦ let e : j ≡ p = ground arith in (i, a, swapped_first i j at ∙ ap at e)
        | inr not_last ↦ (p, l, ground arith)
      ]
    ]

    swapped-adds_none : (p : ℕ) → p < n → (q : ℕ) × (q < n) × (at q ≡ swapped i j at p)
    swapped-adds_none p l = elim (Bool-cases (p == i)) [
      | inl first ↦ (j, b, ground arith)
      | inr not_first ↦ elim (Bool-cases (p == j)) [
        | inl last ↦ (i, a, ground arith)
        | inr not_last ↦ (p, l, ground arith)
      ]
    ]

    swapped-IsRestored :
        (t : DistanceHeap)
        → IsRestored (after_swap h n at w i j) n (swapped i j at) t
        → IsRestored h n at t
    swapped-IsRestored t r = record {
      place = r.place;
      indexed = r.indexed;
      ordered = r.ordered;
      keeps =
          λ p l. let (q, m, e) = swapped-keeps p l in let (s, k, f) = r.keeps q m in (s, k, f ∙ e);
      adds_none = λ p l.
          let (q, m, e) = r.adds_none p l in let (s, k, f) = swapped-adds_none q m in (s, k, f ∙ e);
      contained_ids = r.contained_ids;
      distances = r.distances;
      current_size = r.current_size;
      positions =
          r.positions
          ∙ length-set (set h.heap_position (at j) i) (at i) j
          ∙ length-set h.heap_position (at j) i;
      heap_array =
          r.heap_array
          ∙ length-set (set h.id_heap_array i (get_or h.id_heap_array j 0)) j
              (get_or h.id_heap_array i 0)
          ∙ length-set h.id_heap_array i (get_or h.id_heap_array j 0);
    }

    key-swapped : key (after_swap h n at w i j) (swapped i j at) ≡ swapped i j (key h at)
    key-swapped = fun_ext (swapped-map (λ k. rank (get_or h.distances k 0)) i j at)

  -- heapifyBottomUp restores the order where it may fail between `c` and its parent only.
  pub heapify_bottom_up-IsRestored :
      (fuel : ℕ) (h : DistanceHeap) (at : ℕ → ℕ) (c : ℕ)
      → IsIndexed h n at
      → IsOrderedAbove n c (key h at)
      → c < n
      → c < fuel
      → Returns (IsRestored h n at) (heapify_bottom_up fuel h c)
  unfolding heapify_bottom_up
  heapify_bottom_up-IsRestored zero h at c w o l f = absurd (omega arith)
  heapify_bottom_up-IsRestored (suc fuel) h at c w o l f = elim (Bool-cases (c == 0)) [
    | inl top ↦ rw top (
        returns (
          already-IsRestored h at w
            (above-IsOrdered n c (key h at) o (λ p. absurd (ground arith)))))
    | inr inner ↦
        let pos : 0 < c = ground arith in
        let q : parent c < n = omega arith in
        let differ : c ≢ parent c = omega arith in
        let (v, e, less, not_less) = compare_values_lem h n at w c (parent c) l q in
        rw inner (
          rw e (elim (Bool-cases (lt_int v 0)) [
            | inl up ↦ rw up (
                rw (swap_lem h n at w c (parent c) l q differ) (
                  Returns-map
                    (heapify_bottom_up-IsRestored fuel (after_swap h n at w c (parent c))
                      (swapped c (parent c) at) (parent c)
                      (after_swap-IsIndexed h n at w c (parent c) l q differ)
                      (subst (IsOrderedAbove n (parent c))
                        (sym (key-swapped h at w c (parent c) l q differ))
                        (above-swapped n c (key h at) pos l (less up) o))
                      q (omega arith))
                    (swapped-IsRestored h at w c (parent c) l q differ)))
            | inr stay ↦ rw stay (
                returns (
                  already-IsRestored h at w
                    (above-IsOrdered n c (key h at) o (λ p. not_less stay))))
          ]))
  ]

  module _ (h : DistanceHeap) (at : ℕ → ℕ) (w : IsIndexed h n at) where
    smaller-IsPicked :
        (child before : ℕ)
        → (child < n → before < n)
        → Returns (IsPicked n (key h at) child before) (smaller h n child before)
    unfolding smaller
    smaller-IsPicked child before inside = elim (Bool-cases (ltb child n)) [
      | inl on_heap ↦
          let l : child < n = ground arith in
          let (v, e, less, not_less) = compare_values_lem h n at w child before l (inside l) in
          rw on_heap (
            rw e (elim (Bool-cases (lt_int v 0)) [
              | inl closer ↦ rw closer (returns (inl (refl, l, less closer)))
              | inr not_closer ↦ rw not_closer (returns (inr (refl, λ _. not_less not_closer)))
            ]))
      | inr off ↦ rw off (returns (inr (refl, λ l. absurd (ground arith))))
    ]

  -- heapifyTopDown restores the order where it may fail between `r` and its children only.
  pub heapify_top_down-IsRestored :
      (fuel : ℕ) (h : DistanceHeap) (at : ℕ → ℕ) (r : ℕ)
      → IsIndexed h n at
      → IsOrderedBelow n r (key h at)
      → n < fuel + r
      → 0 < fuel
      → Returns (IsRestored h n at) (heapify_top_down fuel h n r)
  unfolding heapify_top_down
  heapify_top_down-IsRestored zero h at r w o f g = absurd (omega arith)
  heapify_top_down-IsRestored (suc fuel) h at r w o f g =
      Returns-bind (smaller-IsPicked h at w (2 * r + 1) r (λ l. omega arith)) λ left a.
        Returns-bind (smaller-IsPicked h at w (2 * r + 2) left (λ l. ground arith)) λ m b.
          elim (picked-IsClosest n (key h at) r left m a b) [
            | inl (same, least) ↦
                let e : (m == r) ≡ true = ground arith in
                rw e (returns (already-IsRestored h at w (below-IsOrdered n r (key h at) o least)))
            | inr (pos, l, child, closer, least) ↦
                let e : (m == r) ≡ false = ground arith in
                let q : r < n = omega arith in
                let differ : r ≢ m = omega arith in
                rw e (
                  rw (swap_lem h n at w r m q l differ) (
                    Returns-map
                      (heapify_top_down-IsRestored fuel (after_swap h n at w r m) (swapped r m at) m
                        (after_swap-IsIndexed h n at w r m q l differ)
                        (subst (IsOrderedBelow n m) (sym (key-swapped h at w r m q l differ))
                          (below-swapped n r (key h at) m pos l child closer least o))
                        (omega arith) (omega arith))
                      (swapped-IsRestored h at w r m q l differ)))
          ]
