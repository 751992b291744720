-- ===== src/Utils/DistanceHeap/Grown.antt =====
-- Larger arrays hold the same.
use fapra_osm_routing.Prelude.{
  ℕ, ◌+◌, ◌-◌, ◌<◌, ◌≡◌, refl, sym, ap, ◌∙◌, List, ◌++◌, append_assoc, Word32, max_value, rank,
  ◌>>=◌, length, length-append, length-replicate, replicate, take-append, copy_to-copy_of, get_or,
  get_or-append_left, All, All-append, All-replicate, arith,
}
use fapra_osm_routing.Search.{index_of}
use fapra_osm_routing.Utils.DistanceHeap.{DistanceHeap, grow}
use fapra_osm_routing.Utils.DistanceHeap.Indexed.{IsIndexed, key, find}
use fapra_osm_routing.Utils.DistanceHeap.Order.{parent}
use fapra_osm_routing.Utils.DistanceHeap.Contents.{IsHeap, binary_search-entry}

module _ {h : DistanceHeap} {xs ds : List Word32} (w : IsHeap h xs ds) (more : ℕ) where
  abbrev zeros : List ℕ
  zeros = replicate more 0

  abbrev pub extended : DistanceHeap
  extended = record h {
    id_heap_array = h.id_heap_array ++ zeros;
    distances = h.distances ++ zeros;
    contained_ids = h.contained_ids ++ replicate more max_value;
    heap_position = h.heap_position ++ zeros;
  }

  abbrev new_spare : List Word32
  new_spare = w.spare ++ replicate more max_value

  new_stored : extended.contained_ids ≡ xs ++ new_spare
  new_stored =
      ap (λ a. a ++ replicate more max_value) w.stored
      ∙ append_assoc xs w.spare (replicate more max_value)

  new_filled : All (λ y. y ≡ max_value) new_spare
  new_filled =
      All-append (λ y. y ≡ max_value) w.spare (replicate more max_value) w.filled
        (All-replicate (λ y. y ≡ max_value) more max_value refl)

  id_at : (p : ℕ) → p < length xs → get_or extended.id_heap_array p 0 ≡ get_or xs (w.at p) 0
  id_at p l =
      get_or-append_left h.id_heap_array zeros p 0 (omega (arith, w.indexed.in_array))
      ∙ w.indexed.cell p l
      ∙ ap (λ a. get_or a (w.at p) 0) w.stored
      ∙ get_or-append_left xs w.spare (w.at p) 0 (w.inside p l)

  extended-IsIndexed : IsIndexed extended (length xs) w.at
  extended-IsIndexed = record {
    in_array = omega (arith, w.indexed.in_array, length-append h.id_heap_array zeros);
    search = λ p l.
        ap (find extended) (id_at p l)
        ∙ ap (λ b. b >>= index_of)
            (binary_search-entry extended.contained_ids xs new_spare (w.at p) new_stored w.sorted
              new_filled (w.inside p l));
    cell = λ p l.
        id_at p l
        ∙ sym (
            ap (λ a. get_or a (w.at p) 0) new_stored
            ∙ get_or-append_left xs new_spare (w.at p) 0 (w.inside p l));
    has_distance =
        λ p l. omega (arith, w.indexed.has_distance p l, length-append h.distances zeros);
    has_position =
        λ p l. omega (arith, w.indexed.has_position p l, length-append h.heap_position zeros);
    position = λ p l.
        get_or-append_left h.heap_position zeros (w.at p) 0 (w.indexed.has_position p l)
        ∙ w.indexed.position p l;
  }

  key-same : (p : ℕ) → p < length xs → key extended w.at p ≡ key h w.at p
  key-same p l =
      ap rank (get_or-append_left h.distances zeros (w.at p) 0 (w.indexed.has_distance p l))

  pub extended-IsHeap : IsHeap extended xs ds
  extended-IsHeap = record {
    size = w.size;
    spare = new_spare;
    stored = new_stored;
    filled = new_filled;
    sorted = w.sorted;
    paired = w.paired;
    spare_distances = w.spare_distances ++ zeros;
    distances = ap (λ a. a ++ zeros) w.distances ∙ append_assoc ds w.spare_distances zeros;
    rooms = longer h.distances w.rooms;
    positions = longer h.heap_position w.positions;
    heap_array = longer h.id_heap_array w.heap_array;
    at = w.at;
    inside = w.inside;
    onto = w.onto;
    indexed = extended-IsIndexed;
    ordered = λ p pos l.
        omega (arith, w.ordered p pos l, key-same p l, key-same (parent p) (omega arith));
  }
    where
      longer :
          (a : List ℕ)
          → length a ≡ length h.contained_ids
          → length (a ++ zeros) ≡ length extended.contained_ids
      longer a e = omega (
        arith,
        e,
        length-append a zeros,
        length-append h.contained_ids (replicate more max_value),
        length-replicate {A = ℕ} more 0,
        length-replicate {A = ℕ} more max_value,
      )

pub grow_lem :
    {h : DistanceHeap} {xs ds : List Word32} (w : IsHeap h xs ds)
    → grow h ≡ extended w h.size_increase
unfolding grow
grow_lem {h} w =
    let more = h.size_increase in
    let new_len = length h.id_heap_array + more in
    let copied = copy_to-copy_of h.contained_ids more new_len 0 (omega (arith, w.heap_array)) in
    let rest : length (h.contained_ids ++ replicate more 0) - length h.id_heap_array ≡ more =
      omega (
        arith,
        w.heap_array,
        length-append h.contained_ids (replicate more 0),
        length-replicate {A = ℕ} more 0,
      ) in
    rw (
      copied,
      copy_to-copy_of h.id_heap_array more new_len 0 refl,
      copy_to-copy_of h.distances more new_len 0 (omega (arith, w.heap_array, w.rooms)),
      copy_to-copy_of h.heap_position more new_len 0 (omega (arith, w.heap_array, w.positions)),
      take-append h.contained_ids (replicate more 0) (length h.id_heap_array) w.heap_array,
      rest,
    )
