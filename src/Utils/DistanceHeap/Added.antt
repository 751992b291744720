-- ===== src/Utils/DistanceHeap/Added.antt =====
-- The part of add for a new id.
use fapra_osm_routing.Prelude.{
  ℕ, ◌+◌, ◌-◌, ◌<◌, ◌≤◌, ◌≡◌, sym, ap, ◌∙◌, subst, List, true, false, Bool-cases, inl, inr, Word32,
  max_value, rank, ◌>>=◌, Returns, returns, Returns-bind, store-ok, length, length-set,
  length-append, length-take_le, length-drop, take, drop, take-append-drop, get_or, set,
  get_or-append_left, All, ltb, ◌==◌, if◌then◌else◌, arith,
}
use fapra_osm_routing.Search.{index_of}
use fapra_osm_routing.Search.Sets.{IsSorted}
use fapra_osm_routing.Utils.DistanceHeap.{DistanceHeap, insert}
use fapra_osm_routing.Utils.DistanceHeap.Indexed.{
  IsIndexed, key, find, get_or-set_same, get_or-set_other,
}
use fapra_osm_routing.Utils.DistanceHeap.Order.{parent, IsOrderedAbove}
use fapra_osm_routing.Utils.DistanceHeap.Restored.{IsRestored, heapify_bottom_up-IsRestored}
use fapra_osm_routing.Utils.DistanceHeap.Contents.{IsHeap, binary_search-entry}
use fapra_osm_routing.Utils.DistanceHeap.Filled.{IsFilled, restored-IsHeap}
use fapra_osm_routing.Utils.DistanceHeap.Inserted.{
  put_in, down, length-put_in, get-put_in_new, get-put_in, IsPut, insert_cell-IsPut, get_or-take,
  put-cell, length-put,
}

module _ {h : DistanceHeap} {xs ds : List Word32} (w : IsHeap h xs ds) (id distance : Word32)
    (idx : ℕ) (l : idx ≤ length xs) (sorted : IsSorted (put_in idx id xs))
    (room : length xs < length h.contained_ids) where
  abbrev n : ℕ
  n = h.current_size

  new_at : ℕ → ℕ
  new_at p = if p == n then idx else down idx (w.at p)

  new_at-all :
      (R : ℕ → ℕ → Type 0)
      → R n idx
      → ((p : ℕ) → p < length xs → R p (down idx (w.at p)))
      → (p : ℕ) → p < length xs + 1
      → R p (new_at p)
  unfolding new_at
  new_at-all R last r p m = elim (Bool-cases (p == n)) [
    | inl same ↦ let e : n ≡ p = ground arith in rw same (subst (λ q. R q idx) e last)
    | inr other ↦ rw other (r p (ground (arith, w.size)))
  ]

  new_at-bound : (p : ℕ) → p < length xs + 1 → new_at p < length xs + 1
  new_at-bound =
      new_at-all (λ p k. k < length xs + 1) (omega arith)
        (λ p m. let b = w.inside p m in ground arith)

  module _ {c1 c2 c3 : List ℕ} (i1 : IsPut idx id xs w.spare c1)
      (i2 : IsPut idx distance ds w.spare_distances c2)
      (i3 : IsPut idx n (take n h.heap_position) (drop n h.heap_position) c3) where
    abbrev inserted : DistanceHeap
    inserted = record h {
      contained_ids = c1;
      distances = c2;
      id_heap_array = set h.id_heap_array n id;
      heap_position = c3;
    }

    entry_at :
        (p : ℕ)
        → p < length xs + 1
        → get_or (set h.id_heap_array n id) p 0 ≡ get_or (put_in idx id xs) (new_at p) 0
    entry_at =
        new_at-all (λ p k. get_or (set h.id_heap_array n id) p 0 ≡ get_or (put_in idx id xs) k 0)
          (get_or-set_same h.id_heap_array n id (omega (arith, w.heap_array, w.size, room))
            ∙ sym (get-put_in_new idx id xs l))
          (λ p m.
            get_or-set_other h.id_heap_array n p id (omega (arith, w.size))
            ∙ w.indexed.cell p m
            ∙ ap (λ a. get_or a (w.at p) 0) w.stored
            ∙ get_or-append_left xs w.spare (w.at p) 0 (w.inside p m)
            ∙ sym (get-put_in idx id xs l (w.at p) (w.inside p m)))

    spare-filled : All (λ y. y ≡ max_value) i1.left
    spare-filled = (subst (All (λ y. y ≡ max_value)) i1.taken w.filled).1

    positions-length : length (take n h.heap_position) ≡ length xs
    positions-length = omega (
      arith,
      w.size,
      room,
      w.positions,
      length-take_le n h.heap_position (omega (arith, w.size, room, w.positions)),
    )

    position_at : (p : ℕ) → p < length xs + 1 → get_or c3 (new_at p) 0 ≡ p
    position_at =
        new_at-all (λ p k. get_or c3 k 0 ≡ p)
          (put-cell i3 idx (omega (arith, positions-length, l)) (omega (arith, positions-length, l))
            ∙ get-put_in_new idx n (take n h.heap_position) (omega (arith, positions-length, l)))
          (λ p m.
            let b = w.inside p m in
            put-cell i3 (down idx (w.at p)) (omega (arith, positions-length, l))
              (ground (arith, positions-length))
            ∙ get-put_in idx n (take n h.heap_position) (omega (arith, positions-length, l))
                (w.at p) (omega (arith, positions-length))
            ∙ get_or-take h.heap_position n (w.at p) (omega (arith, w.size))
                (omega (arith, w.size, room, w.positions))
            ∙ w.indexed.position p m)

    inserted-IsIndexed : IsIndexed inserted (length xs + 1) new_at
    inserted-IsIndexed = record {
      in_array = omega (arith, length-set h.id_heap_array n id, w.heap_array, room);
      search = λ p m.
          ap (find inserted) (entry_at p m)
          ∙ ap (λ b. b >>= index_of)
              (binary_search-entry c1 (put_in idx id xs) i1.left (new_at p) i1.stored sorted
                spare-filled (omega (arith, length-put_in idx id xs l, new_at-bound p m)));
      cell = λ p m. entry_at p m ∙ sym (put-cell i1 (new_at p) l (new_at-bound p m));
      has_distance = λ p m. omega (
        arith,
        new_at-bound p m,
        length-put i2 (omega (arith, w.paired, l)),
        w.paired,
        ap length i2.taken,
      );
      has_position = λ p m. omega (
        arith,
        new_at-bound p m,
        length-put i3 (omega (arith, positions-length, l)),
        positions-length,
        ap length i3.taken,
      );
      position = position_at;
    }

    key-old : (p : ℕ) → p < length xs → key inserted new_at p ≡ key h w.at p
    unfolding new_at
    key-old p m =
        let b = w.inside p m in
        let other : (p == n) ≡ false = ground (arith, w.size) in
        ap (λ k. rank (get_or c2 k 0)) (ap (λ b. if b then idx else down idx (w.at p)) other)
        ∙ ap rank (
            put-cell i2 (down idx (w.at p)) (omega (arith, w.paired, l)) (ground (arith, w.paired))
            ∙ get-put_in idx distance ds (omega (arith, w.paired, l)) (w.at p)
                (omega (arith, w.paired))
            ∙ sym (
                ap (λ a. get_or a (w.at p) 0) w.distances
                ∙ get_or-append_left ds w.spare_distances (w.at p) 0 (omega (arith, w.paired))))

    inserted-IsOrderedAbove : IsOrderedAbove (length xs + 1) n (key inserted new_at)
    inserted-IsOrderedAbove = record {
      rest = λ p pos m differ. omega (
        arith,
        w.ordered p pos (omega (arith, w.size)),
        key-old p (omega (arith, w.size)),
        key-old (parent p) (omega (arith, w.size)),
      );
      below = λ p pos m child up. absurd (omega (arith, w.size));
    }

    reached : (k : ℕ) → k < length xs + 1 → (p : ℕ) × (p < length xs + 1) × (new_at p ≡ k)
    unfolding new_at
    reached k m = elim (Bool-cases (k == idx)) [
      | inl new ↦
          let same : (n == n) ≡ true = ground arith in
          (
            n,
            omega (arith, w.size),
            ap (λ b. if b then idx else down idx (w.at n)) same ∙ ground arith,
          )
      | inr old ↦
          let s = if ltb k idx then k else k - 1 in
          let (p, b, e) = w.onto s (ground arith) in
          let other : (p == n) ≡ false = ground (arith, w.size) in
          (
            p,
            omega arith,
            ap (λ b. if b then idx else down idx (w.at p)) other ∙ ap (down idx) e ∙ ground arith,
          )
    ]

    inserted-IsFilled : IsFilled inserted (put_in idx id xs) (put_in idx distance ds) new_at
    inserted-IsFilled = record {
      spare = i1.left;
      stored = i1.stored;
      filled = spare-filled;
      sorted = sorted;
      paired = omega (
        arith,
        length-put_in idx id xs l,
        length-put_in idx distance ds (omega (arith, w.paired, l)),
        w.paired,
      );
      spare_distances = i2.left;
      distances = i2.stored;
      rooms = omega (
        arith,
        c1-length,
        length-put i2 (omega (arith, w.paired, l)),
        ap length w.distances,
        length-append ds w.spare_distances,
        w.rooms,
      );
      positions = omega (
        arith,
        c1-length,
        length-put i3 (omega (arith, positions-length, l)),
        positions-length,
        length-drop n h.heap_position,
        w.positions,
        w.size,
        room,
      );
      heap_array = omega (arith, c1-length, length-set h.id_heap_array n id, w.heap_array);
      inside = λ p m. omega (
        arith,
        length-put_in idx id xs l,
        new_at-bound p (omega (arith, m, length-put_in idx id xs l)),
      );
      onto =
          subst (λ m. (k : ℕ) → k < m → (p : ℕ) × (p < m) × (new_at p ≡ k))
            (sym (length-put_in idx id xs l)) reached;
    }
      where
        c1-length : length c1 ≡ length h.contained_ids
        c1-length = omega (arith, length-put i1 l, ap length w.stored, length-append xs w.spare)

  -- The heap holds the new id, too, at its distance.
  pub insert-IsHeap :
      Returns (λ t. IsHeap t (put_in idx id xs) (put_in idx distance ds)) (insert h id distance idx)
  unfolding insert
  insert-IsHeap =
      Returns-bind
        (insert_cell-IsPut h.contained_ids xs w.spare n idx id w.stored w.size
          (omega (arith, w.size, l))
          (omega (arith, room, ap length w.stored, length-append xs w.spare)))
        λ c1 i1.
          Returns-bind
            (insert_cell-IsPut h.distances ds w.spare_distances n idx distance w.distances
              (omega (arith, w.size, w.paired)) (omega (arith, w.size, l))
              (omega (
                arith,
                room,
                w.rooms,
                w.paired,
                ap length w.distances,
                length-append ds w.spare_distances,
              )))
            λ c2 i2.
              rw (store-ok h.id_heap_array n id (omega (arith, w.heap_array, w.size, room))) (
                Returns-bind
                  (insert_cell-IsPut h.heap_position (take n h.heap_position)
                    (drop n h.heap_position) n idx n (sym (take-append-drop n h.heap_position))
                    (sym
                      (length-take_le n h.heap_position (omega (arith, w.positions, w.size, room))))
                    (omega (arith, w.size, l))
                    (omega (arith, length-drop n h.heap_position, w.positions, w.size, room)))
                  λ c3 i3.
                    Returns-bind
                      (heapify_bottom_up-IsRestored (length xs + 1) (n + 1) (inserted i1 i2 i3)
                        new_at n (inserted-IsIndexed i1 i2 i3) (inserted-IsOrderedAbove i1 i2 i3)
                        (omega (arith, w.size)) (omega arith))
                      λ t r. returns (
                        restored-IsHeap (inserted-IsFilled i1 i2 i3) t (n + 1)
                          (subst (λ m. IsRestored (inserted i1 i2 i3) m new_at t)
                            (sym (length-put_in idx id xs l)) r)
                          (omega (arith, w.size, length-put_in idx id xs l))))
