-- ===== src/Utils/DistanceHeap/Shrunk.antt =====
-- The part of getNext that puts the last id to the top.
use fapra_osm_routing.Prelude.{
  ℕ, zero, suc, ◌+◌, ◌<◌, ◌≡◌, ◌≢◌, refl, sym, ap, ◌∙◌, subst, List, Word32, rank, ok, length,
  length-set, get_or, get_or-append_left, set, arith,
}
use fapra_osm_routing.Search.{found, binary_search}
use fapra_osm_routing.Utils.DistanceHeap.{DistanceHeap}
use fapra_osm_routing.Utils.DistanceHeap.Indexed.{
  IsIndexed, key, find, get_or-set_same, get_or-set_other,
}
use fapra_osm_routing.Utils.DistanceHeap.Order.{parent, IsOrderedBelow}
use fapra_osm_routing.Utils.DistanceHeap.Contents.{IsHeap, binary_search-entry}

module _ {h : DistanceHeap} {xs ds : List Word32} (w : IsHeap h xs ds) (n : ℕ)
    (count : length xs ≡ n + 1) where
  -- The id at a position is the entry at its index.
  pub held : (p : ℕ) → p < length xs → get_or h.id_heap_array p 0 ≡ get_or xs (w.at p) 0
  held p l =
      w.indexed.cell p l
      ∙ ap (λ a. get_or a (w.at p) 0) w.stored
      ∙ get_or-append_left xs w.spare (w.at p) 0 (w.inside p l)

  -- The search of the id at a position.
  pub search_at :
      (p : ℕ)
      → p < length xs
      → binary_search h.contained_ids (get_or h.id_heap_array p 0) ≡ ok (found (w.at p))
  search_at p l =
      ap (binary_search h.contained_ids) (held p l)
      ∙ binary_search-entry h.contained_ids xs w.spare (w.at p) w.stored w.sorted w.filled
          (w.inside p l)

  abbrev pub shrunk : DistanceHeap
  shrunk = record h {
    current_size = n;
    id_heap_array = set h.id_heap_array 0 (get_or h.id_heap_array n 0);
    heap_position = set h.heap_position (w.at n) 0;
  }

  abbrev pub shrunk_at : ℕ → ℕ
  shrunk_at zero = w.at n
  shrunk_at (suc p) = w.at (suc p)

  pub shrunk_at_rest : (p : ℕ) → 0 < p → shrunk_at p ≡ w.at p
  shrunk_at_rest zero l = absurd (omega arith)
  shrunk_at_rest (suc p) l = refl

  pub apart : (p q : ℕ) → p < length xs → q < length xs → p ≢ q → w.at p ≢ w.at q
  apart p q l m differ e = differ (
      sym (w.indexed.position p l)
      ∙ ap (λ k. get_or h.heap_position k 0) e
      ∙ w.indexed.position q m)

  -- What holds of all the positions before holds of those that are left.
  shrunk-all :
      (R : ℕ → ℕ → Type 0)
      → R (get_or h.id_heap_array n 0) (w.at n)
      → ((p : ℕ) → 0 < p → p < n → R (get_or h.id_heap_array p 0) (w.at p))
      → (p : ℕ) → p < n
      → R (get_or shrunk.id_heap_array p 0) (shrunk_at p)
  shrunk-all R last r zero l =
      subst (λ x. R x (w.at n))
        (sym (
          get_or-set_same h.id_heap_array 0 (get_or h.id_heap_array n 0)
            (omega (arith, w.indexed.in_array))))
        last
  shrunk-all R last r (suc p) l =
      subst (λ x. R x (w.at (suc p)))
        (sym
          (get_or-set_other h.id_heap_array 0 (suc p) (get_or h.id_heap_array n 0) (omega arith)))
        (r (suc p) (omega arith) l)

  pub shrunk-IsIndexed : IsIndexed shrunk n shrunk_at
  shrunk-IsIndexed = record {
    in_array =
        omega
          (arith, w.indexed.in_array, length-set h.id_heap_array 0 (get_or h.id_heap_array n 0));
    search =
        shrunk-all (λ id k. find h id ≡ ok k) (w.indexed.search n (omega arith))
          (λ p pos l. w.indexed.search p (omega arith));
    cell =
        shrunk-all (λ id k. id ≡ get_or h.contained_ids k 0) (w.indexed.cell n (omega arith))
          (λ p pos l. w.indexed.cell p (omega arith));
    has_distance =
        shrunk-all (λ id k. k < length h.distances) (w.indexed.has_distance n (omega arith))
          (λ p pos l. w.indexed.has_distance p (omega arith));
    has_position =
        shrunk-all (λ id k. k < length shrunk.heap_position)
          (omega
            (arith, w.indexed.has_position n (omega arith), length-set h.heap_position (w.at n) 0))
          (λ p pos l.
            omega (
              arith,
              w.indexed.has_position p (omega arith),
              length-set h.heap_position (w.at n) 0,
            ));
    position = positions;
  }
    where
      positions : (p : ℕ) → p < n → get_or shrunk.heap_position (shrunk_at p) 0 ≡ p
      positions zero l =
          get_or-set_same h.heap_position (w.at n) 0 (w.indexed.has_position n (omega arith))
      positions (suc p) l =
          get_or-set_other h.heap_position (w.at n) (w.at (suc p)) 0
            (apart n (suc p) (omega arith) (omega arith) (omega arith))
          ∙ w.indexed.position (suc p) (omega arith)

  pub shrunk-IsOrderedBelow : IsOrderedBelow n 0 (key shrunk shrunk_at)
  shrunk-IsOrderedBelow = record {
    rest = λ p pos l other. omega (
      arith,
      w.ordered p pos (omega arith),
      ap (λ k. rank (get_or h.distances k 0)) (shrunk_at_rest p pos),
      ap (λ k. rank (get_or h.distances k 0)) (shrunk_at_rest (parent p) (omega arith)),
    );
    below = λ p pos l child up. absurd (omega arith);
  }
