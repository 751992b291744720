-- ===== src/Utils/DistanceHeap/Removed.antt =====
-- The part of getNext that takes the cells of the id out of the ordered arrays.
use fapra_osm_routing.Prelude.{
  ℕ, zero, suc, ◌+◌, ◌-◌, ◌<◌, ◌≤◌, ◌≡◌, ◌≢◌, refl, sym, ap, ◌∙◌, subst, List, ◌∷◌, ◌++◌, true,
  Bool-cases, inl, inr, Word32, max_value, rank, ok, ◌>>=◌, All, length, length-set, length-append,
  length-take_le, length-drop, take, drop, take-append-drop, split_at, get_or, get_or-append_left,
  set, set-append, All-remove, ltb, ◌==◌, if◌then◌else◌, arith,
}
use fapra_osm_routing.Prelude.Ascending.{IsStrict, IsStrict-remove}
use fapra_osm_routing.Search.{index_of}
use fapra_osm_routing.Search.Sets.{IsSorted}
use fapra_osm_routing.Utils.DistanceHeap.{DistanceHeap}
use fapra_osm_routing.Utils.DistanceHeap.Indexed.{IsIndexed, key, find, get_or-set_other}
use fapra_osm_routing.Utils.DistanceHeap.Order.{parent, IsOrdered}
use fapra_osm_routing.Utils.DistanceHeap.Restored.{IsRestored}
use fapra_osm_routing.Utils.DistanceHeap.Gap.{HasEntry, without, removed}
use fapra_osm_routing.Utils.DistanceHeap.Contents.{
  IsHeap, entry_of, binary_search-entry, get-without_before, get-without_after,
}
use fapra_osm_routing.Utils.DistanceHeap.Shrunk.{shrunk, shrunk_at, shrunk_at_rest, apart}

-- The list without the entry at an index.
abbrev pub omit : ℕ → List ℕ → List ℕ
omit i xs = take i xs ++ drop (suc i) xs

-- The index of the other cells, when the cell at `i` is gone.
abbrev pub closer_up : ℕ → ℕ → ℕ
closer_up i s = if ltb s i then s else s - 1

get-without :
    {a : List ℕ} {i n : ℕ} (e : HasEntry a i n) (z s : ℕ)
    → s ≢ i
    → s ≤ n
    → get_or (without e z) (closer_up i s) 0 ≡ get_or a s 0
get-without {a} {i} e z zero differ l =
    let t : ltb 0 i ≡ true = ground arith in rw t (get-without_before e z 0 (omega arith))
get-without {a} {i} e z (suc s) differ l = elim (Bool-cases (ltb (suc s) i)) [
  | inl before ↦ rw before (get-without_before e z (suc s) (ground arith))
  | inr after ↦ rw after (
      ap (λ k. get_or (without e z) k 0) (omega arith)
      ∙ get-without_after e z s (ground arith) (omega arith))
]

length-without :
    {a : List ℕ} {i n : ℕ} (e : HasEntry a i n) (z : ℕ) → length (without e z) ≡ length a
length-without e z = omega (
  arith,
  ap length e.stored,
  length-append (e.front ++ e.back) (z ∷ e.spare),
  length-append e.front e.back,
  length-append (e.front ++ e.entry ∷ e.back) e.spare,
  length-append e.front (e.entry ∷ e.back),
)

module _ {h : DistanceHeap} {xs ds : List Word32} (w : IsHeap h xs ds) (n : ℕ)
    (count : length xs ≡ n + 1) (t : DistanceHeap)
    (r : IsRestored (shrunk w n count) n (shrunk_at w n count) t) where
  abbrev pub gone : ℕ
  gone = w.at 0

  -- A cell that a position still has is another one.
  place-other : (p : ℕ) → p < n → (r.place p ≢ gone) × (r.place p ≤ n)
  place-other p l =
      let (q, m, e) = r.adds_none p l in
      let (differ, bound) = before q m in (λ f. differ (e ∙ f), omega (arith, bound, e))
    where
      before : (q : ℕ) → q < n → (shrunk_at w n count q ≢ gone) × (shrunk_at w n count q ≤ n)
      before zero m = (
        apart w n count n 0 (omega arith) (omega arith) (omega arith),
        omega (arith, w.inside n (omega arith)),
      )
      before (suc q) m = (
        apart w n count (suc q) 0 (omega arith) (omega arith) (omega arith),
        omega (arith, w.inside (suc q) (omega arith)),
      )

  pub in_range : gone < length xs
  in_range = w.inside 0 (omega arith)

  abbrev pub ids : HasEntry t.contained_ids gone n
  ids = entry_of t.contained_ids xs w.spare gone n (r.contained_ids ∙ w.stored) in_range (sym count)

  abbrev pub dists : HasEntry t.distances gone n
  dists =
      entry_of t.distances ds w.spare_distances gone n (r.distances ∙ w.distances)
        (omega (arith, in_range, w.paired)) (omega (arith, w.paired, count))

  pub positions-bound : length t.heap_position ≡ length xs + length w.spare
  positions-bound = omega (
    arith,
    r.positions,
    length-set h.heap_position (w.at n) 0,
    w.positions,
    ap length w.stored,
    length-append xs w.spare,
  )

  abbrev pub positions : HasEntry t.heap_position gone n
  positions =
      let size : length (take (n + 1) t.heap_position) ≡ n + 1 =
        length-take_le (n + 1) t.heap_position (omega (arith, positions-bound)) in
      entry_of t.heap_position (take (n + 1) t.heap_position) (drop (n + 1) t.heap_position) gone n
        (sym (take-append-drop (n + 1) t.heap_position)) (omega (arith, in_range, size)) (sym size)

  -- The cell behind the remaining ids is in the array.
  pub ids-room : (x : ℕ) → n < length (without ids x)
  ids-room x = omega (
    arith,
    length-without ids x,
    ap length r.contained_ids,
    ap length w.stored,
    count,
    length-append xs w.spare,
  )

  module _ (x y z : ℕ) where
    abbrev pub after_removal : DistanceHeap
    after_removal = record (removed t ids dists positions x y z) {
      contained_ids = set (without ids x) n max_value;
    }

    -- The index of the id at a position.
    abbrev new_place : ℕ → ℕ
    new_place p = closer_up gone (r.place p)

    new_place-bound : (p : ℕ) → p < n → new_place p < n
    new_place-bound p l = let (differ, bound) = place-other p l in ground (arith, in_range)

    omitted-length : length (omit gone xs) ≡ n
    omitted-length = omega (
      arith,
      count,
      in_range,
      length-append (take gone xs) (drop (suc gone) xs),
      length-take_le gone xs (omega (arith, in_range)),
      length-drop (suc gone) xs,
    )

    ids-stored : set (without ids x) n max_value ≡ omit gone xs ++ max_value ∷ w.spare
    ids-stored = set-append (omit gone xs) x w.spare n max_value (sym omitted-length)

    id_at :
        (p : ℕ)
        → p < n
        → get_or t.id_heap_array p 0 ≡ get_or after_removal.contained_ids (new_place p) 0
    id_at p l =
        let (differ, bound) = place-other p l in
        r.indexed.cell p l
        ∙ sym (get-without ids x (r.place p) differ bound)
        ∙ sym (
            get_or-set_other (without ids x) n (new_place p) max_value
              (omega (arith, new_place-bound p l)))

    omitted-IsSorted : IsSorted (omit gone xs)
    omitted-IsSorted =
        let cut = sym (split_at xs gone 0 in_range) in
        record {
          strict =
              IsStrict-remove (take gone xs) (get_or xs gone 0) (drop (suc gone) xs)
                (subst IsStrict cut w.sorted.strict);
          below =
              All-remove (λ v. v < max_value) (take gone xs) (get_or xs gone 0) (drop (suc gone) xs)
                (subst (All (λ v. v < max_value)) cut w.sorted.below);
        }

    search_at_new :
        (p : ℕ) → p < n → find after_removal (get_or t.id_heap_array p 0) ≡ ok (new_place p)
    search_at_new p l =
        let bound : new_place p < length (omit gone xs) =
          omega (arith, new_place-bound p l, omitted-length) in
        ap (find after_removal) (
          id_at p l
          ∙ ap (λ a. get_or a (new_place p) 0) ids-stored
          ∙ get_or-append_left (omit gone xs) (max_value ∷ w.spare) (new_place p) 0 bound)
        ∙ ap (λ b. b >>= index_of)
            (binary_search-entry after_removal.contained_ids (omit gone xs) (max_value ∷ w.spare)
              (new_place p) ids-stored omitted-IsSorted (refl, w.filled) bound)

    after_removal-IsIndexed : IsIndexed after_removal n new_place
    after_removal-IsIndexed = record {
      in_array = r.indexed.in_array;
      search = search_at_new;
      cell = id_at;
      has_distance = λ p l. omega (
        arith,
        new_place-bound p l,
        length-without dists y,
        ap length dists.stored,
        dists.count,
        length-append (dists.front ++ dists.entry ∷ dists.back) dists.spare,
        length-append dists.front (dists.entry ∷ dists.back),
      );
      has_position =
          λ p l. omega (arith, new_place-bound p l, length-without positions z, positions-bound);
      position = λ p l.
          let (differ, bound) = place-other p l in
          get-without positions z (r.place p) differ bound ∙ r.indexed.position p l;
    }

    key-same : (p : ℕ) → p < n → key after_removal new_place p ≡ key t r.place p
    key-same p l =
        let (differ, bound) = place-other p l in
        ap rank (get-without dists y (r.place p) differ bound)

    after_removal-IsOrdered : IsOrdered n (key after_removal new_place)
    after_removal-IsOrdered p pos l =
        omega (arith, r.ordered p pos l, key-same p l, key-same (parent p) (omega arith))

    -- The position that has a cell before the heap was put in order.
    reached_before :
        (s : ℕ) → s < length xs → s ≢ gone → (q : ℕ) × (q < n) × (shrunk_at w n count q ≡ s)
    reached_before s l differ =
        let (p, m, e) = w.onto s l in
        let inner : p ≢ 0 = λ f. differ (sym e ∙ ap w.at f) in
        elim (Bool-cases (p == n)) [
          | inl last ↦ let f : n ≡ p = ground arith in (0, omega arith, ap w.at f ∙ e)
          | inr other ↦ (p, ground arith, shrunk_at_rest w n count p (omega arith) ∙ e)
        ]

    reached : (k : ℕ) → k < n → (p : ℕ) × (p < n) × (new_place p ≡ k)
    reached k l =
        let s = if ltb k gone then k else suc k in
        let (q, m, e) = reached_before s (ground arith) (ground arith) in
        let (p, b, f) = r.keeps q m in (p, b, ap (closer_up gone) (f ∙ e) ∙ back k)
      where
        back : (k : ℕ) → closer_up gone (if ltb k gone then k else suc k) ≡ k
        back k = ground arith

    -- The heap holds the other ids, with their distances.
    pub after_removal-IsHeap : IsHeap after_removal (omit gone xs) (omit gone ds)
    after_removal-IsHeap = record {
      size = r.current_size ∙ sym omitted-length;
      spare = max_value ∷ w.spare;
      stored = ids-stored;
      filled = (refl, w.filled);
      sorted = omitted-IsSorted;
      paired = omega (
        arith,
        omitted-length,
        w.paired,
        count,
        in_range,
        length-append (take gone ds) (drop (suc gone) ds),
        length-take_le gone ds (omega (arith, in_range, w.paired)),
        length-drop (suc gone) ds,
      );
      spare_distances = y ∷ w.spare_distances;
      distances = refl;
      rooms = omega (
        arith,
        length-without dists y,
        ap length r.distances,
        w.rooms,
        length-set (without ids x) n max_value,
        length-without ids x,
        ap length r.contained_ids,
      );
      positions = omega (
        arith,
        length-without positions z,
        positions-bound,
        length-set (without ids x) n max_value,
        length-without ids x,
        ap length r.contained_ids,
        ap length w.stored,
        length-append xs w.spare,
      );
      heap_array = omega (
        arith,
        r.heap_array,
        length-set h.id_heap_array 0 (get_or h.id_heap_array n 0),
        w.heap_array,
        length-set (without ids x) n max_value,
        length-without ids x,
        ap length r.contained_ids,
      );
      at = new_place;
      inside = λ p l.
          omega (arith, omitted-length, new_place-bound p (omega (arith, l, omitted-length)));
      onto =
          subst (λ m. (k : ℕ) → k < m → (p : ℕ) × (p < m) × (new_place p ≡ k)) (sym omitted-length)
            reached;
      indexed =
          subst (λ m. IsIndexed after_removal m new_place) (sym omitted-length)
            after_removal-IsIndexed;
      ordered =
          subst (λ m. IsOrdered m (key after_removal new_place)) (sym omitted-length)
            after_removal-IsOrdered;
    }
