-- ===== src/Utils/DistanceHeap/Calls.antt =====
-- What add does to the ids and distances that the heap holds.
use fapra_osm_routing.Prelude.{
  ℕ, ◌<◌, ◌≤◌, ◌≡◌, ◌⊎◌, refl, sym, ap, ◌∙◌, subst, List, [], ◌∷◌, ◌++◌, Bool-cases, inl, inr,
  Word32, max_value, rank, Returns, Returns-map, Returns-bind, length, length-append, take, drop,
  take-append, drop-append, get_or, set, ◌==◌, if◌then◌else◌, get_or-append_right, length-replicate,
  replicate, All-replicate, arith,
}
use fapra_osm_routing.Search.{Position, found, missing}
use fapra_osm_routing.Search.Sets.{IsSorted, Answers, IsSorted-insert, binary_search-Answers}
use fapra_osm_routing.Utils.DistanceHeap.{DistanceHeap, new, add, place, grow, insert}
use fapra_osm_routing.Utils.DistanceHeap.Contents.{IsHeap}
use fapra_osm_routing.Utils.DistanceHeap.Inserted.{put_in}
use fapra_osm_routing.Utils.DistanceHeap.Updated.{update-IsHeap}
use fapra_osm_routing.Utils.DistanceHeap.Added.{insert-IsHeap}
use fapra_osm_routing.Utils.DistanceHeap.Grown.{extended-IsHeap, grow_lem}

-- The heap `t` after adding the id: its distance is replaced where it is an entry, and otherwise
-- it is a new entry, at its place in the order of the ids.
abbrev pub IsAdded : List Word32 → List Word32 → Word32 → Word32 → DistanceHeap → Type 0
IsAdded xs ds id distance t =
    (idx : ℕ) × (((idx < length xs) × (get_or xs idx 0 ≡ id) × IsHeap t xs (set ds idx distance))
      ⊎ ((idx ≤ length xs) × IsHeap t (put_in idx id xs) (put_in idx distance ds)))

-- A new heap holds no ids.
pub new-IsHeap : (initial_size size_increase : ℕ) → IsHeap (new initial_size size_increase) [] []
unfolding new
new-IsHeap initial_size size_increase = record {
  size = refl;
  spare = replicate initial_size max_value;
  stored = refl;
  filled = All-replicate (λ y. y ≡ max_value) initial_size max_value refl;
  sorted = record { strict = tt; below = tt };
  paired = refl;
  spare_distances = replicate initial_size 0;
  distances = refl;
  rooms = same;
  positions = same;
  heap_array = same;
  at = λ p. p;
  inside = λ p l. absurd (omega arith);
  onto = λ k l. absurd (omega arith);
  indexed = record {
    in_array = omega arith;
    search = λ p l. absurd (omega arith);
    cell = λ p l. absurd (omega arith);
    has_distance = λ p l. absurd (omega arith);
    has_position = λ p l. absurd (omega arith);
    position = λ p l. absurd (omega arith);
  };
  ordered = λ p pos l. absurd (omega arith);
}
  where
    same :
        length (replicate {A = ℕ} initial_size 0)
        ≡ length (replicate {A = ℕ} initial_size max_value)
    same = omega (
      arith,
      length-replicate {A = ℕ} initial_size 0,
      length-replicate {A = ℕ} initial_size max_value,
    )

module _ {xs ds : List Word32} (id distance : Word32) (small : id < max_value) where
  insert_at-IsHeap :
      {h : DistanceHeap} (w : IsHeap h xs ds) (idx : ℕ)
      → Answers xs id (missing idx)
      → length xs < length h.contained_ids
      → Returns (IsAdded xs ds id distance) (insert h id distance idx)
  insert_at-IsHeap w idx (p, q, e, at, lower, upper) room =
      let front : p ≡ take idx xs = sym (ap (take idx) e ∙ take-append p q idx at) in
      let back : q ≡ drop idx xs = sym (ap (drop idx) e ∙ drop-append p q idx at) in
      let l : idx ≤ length xs = omega (arith, at, ap length e, length-append p q) in
      let sorted : IsSorted (put_in idx id xs) =
        subst (λ a. IsSorted (a ++ id ∷ drop idx xs)) front
          (subst (λ b. IsSorted (p ++ id ∷ b)) back
            (IsSorted-insert p id q (subst IsSorted e w.sorted) small lower upper)) in
      Returns-map (insert-IsHeap w id distance idx l sorted room) λ t heap. (idx, inr (l, heap))

  place-IsAdded :
      {h : DistanceHeap} (w : IsHeap h xs ds) (p : Position)
      → 0 < h.size_increase
      → ((k : ℕ) → k < length xs → get_or xs k 0 ≡ id → rank distance ≤ rank (get_or ds k 0))
      → Answers xs id p
      → Returns (IsAdded xs ds id distance) (place h id distance p)
  unfolding place
  place-IsAdded {h} w (found idx) grows closer (p, q, e, at) =
      let l : idx < length xs = omega (arith, at, ap length e, length-append p (id ∷ q)) in
      let same : get_or xs idx 0 ≡ id =
        ap (λ a. get_or a idx 0) e ∙ get_or-append_right p (id ∷ q) idx 0 0 (omega (arith, at)) in
      Returns-map (update-IsHeap w idx l distance (closer idx l same))
        λ t heap. (idx, inl (l, same, heap))
  place-IsAdded {h} w (missing idx) grows closer answer =
      elim (Bool-cases (h.current_size == length h.id_heap_array)) [
        | inl full ↦
            let larger = replicate h.size_increase max_value in
            subst (λ g. Returns (IsAdded xs ds id distance) (insert g id distance idx))
              (sym (ap (λ b. if b then grow h else h) full ∙ grow_lem w))
              (insert_at-IsHeap (extended-IsHeap w h.size_increase) idx answer (
                omega (
                  arith,
                  grows,
                  ap length w.stored,
                  length-append xs w.spare,
                  length-append h.contained_ids larger,
                  length-replicate {A = ℕ} h.size_increase max_value,
                )))
        | inr room ↦
            subst (λ g. Returns (IsAdded xs ds id distance) (insert g id distance idx))
              (sym (ap (λ b. if b then grow h else h) room))
              (insert_at-IsHeap w idx answer
                (ground (arith, w.size, w.heap_array, w.indexed.in_array)))
      ]

  -- On a heap in order that holds the ascending ids `xs` at the distances `ds` and can grow, for
  -- an id below Integer.MAX_VALUE, whose distance in `ds` is not smaller than the new one where it
  -- is an entry of `xs`: add returns a heap in order that holds the same ids, this one at the new
  -- distance, where the id is an entry; or else the id and its distance, too, put in at one index,
  -- which keeps the ids ascending. This holds also where the arrays have to grow first.
  pub add-IsAdded :
      {h : DistanceHeap}
      → IsHeap h xs ds
      → 0 < h.size_increase
      → ((k : ℕ) → k < length xs → get_or xs k 0 ≡ id → rank distance ≤ rank (get_or ds k 0))
      → Returns (IsAdded xs ds id distance) (add h id distance)
  unfolding add
  add-IsAdded {h} w grows closer =
      Returns-bind
        (binary_search-Answers h.contained_ids xs w.spare id w.stored w.sorted w.filled small)
        λ p answer. place-IsAdded w p grows closer answer
