-- ===== src/Utils/DistanceHeap/Indexed.antt =====
-- The positions of the heap and the cells of the ordered arrays that belong to them.
use fapra_osm_routing.Prelude.{
  ℕ, zero, suc, ◌<◌, ◌≤◌, ◌≡◌, ◌≢◌, refl, ap, ◌∙◌, List, [], ◌∷◌, true, false, Word32, rank, lt_int,
  minus_one, Run, ok, ◌>>=◌, load-ok, length, get_or, set, ◌==◌, if◌then◌else◌, arith,
}
use fapra_osm_routing.Search.{index_of, binary_search}
use fapra_osm_routing.Utils.DistanceHeap.{DistanceHeap, position_idx, compare_values}

-- The index of an id in the ordered arrays.
abbrev pub find : DistanceHeap → Word32 → Run ℕ
find h id = binary_search h.contained_ids id >>= index_of

-- The id at each of the `n` positions is found, at the index `at p`, whose cells hold its distance
-- and its position.
pub record IsIndexed (h : DistanceHeap) (n : ℕ) (at : ℕ → ℕ) : Type 0 where
  pub in_array : n ≤ length h.id_heap_array
  pub search : (p : ℕ) → p < n → find h (get_or h.id_heap_array p 0) ≡ ok (at p)
  pub cell : (p : ℕ) → p < n → get_or h.id_heap_array p 0 ≡ get_or h.contained_ids (at p) 0
  pub has_distance : (p : ℕ) → p < n → at p < length h.distances
  pub has_position : (p : ℕ) → p < n → at p < length h.heap_position
  pub position : (p : ℕ) → p < n → get_or h.heap_position (at p) 0 ≡ p

-- The distance of the id at a position, for comparison.
abbrev pub key : DistanceHeap → (ℕ → ℕ) → ℕ → ℕ
key h at p = rank (get_or h.distances (at p) 0)

-- A cell that was written, and another one.
pub get_or-set_same : (xs : List ℕ) (i : ℕ) (v : ℕ) → i < length xs → get_or (set xs i v) i 0 ≡ v
get_or-set_same [] i v h = absurd (omega arith)
get_or-set_same (x ∷ xs) zero v h = refl
get_or-set_same (x ∷ xs) (suc i) v h = get_or-set_same xs i v (omega arith)

pub get_or-set_other :
    (xs : List ℕ) (i j : ℕ) (v : ℕ) → i ≢ j → get_or (set xs i v) j 0 ≡ get_or xs j 0
get_or-set_other [] i j v h = refl
get_or-set_other (x ∷ xs) zero zero v h = absurd (h refl)
get_or-set_other (x ∷ xs) zero (suc j) v h = refl
get_or-set_other (x ∷ xs) (suc i) zero v h = refl
get_or-set_other (x ∷ xs) (suc i) (suc j) v h = get_or-set_other xs i j v (λ e. h (ap suc e))

-- Two values of a function change places.
abbrev pub swapped : ℕ → ℕ → (ℕ → ℕ) → ℕ → ℕ
swapped i j at p = if p == i then at j else if p == j then at i else at p

pub swapped_first : (i j : ℕ) (at : ℕ → ℕ) → swapped i j at i ≡ at j
swapped_first i j at = ground arith

pub swapped_second : (i j : ℕ) (at : ℕ → ℕ) → i ≢ j → swapped i j at j ≡ at i
swapped_second i j at h = ground arith

pub swapped_other : (i j : ℕ) (at : ℕ → ℕ) (p : ℕ) → p ≢ i → p ≢ j → swapped i j at p ≡ at p
swapped_other i j at p h k = ground arith

module _ (h : DistanceHeap) (n : ℕ) (at : ℕ → ℕ) (w : IsIndexed h n at) where
  position_idx_lem : (p : ℕ) → p < n → position_idx h p ≡ ok (at p)
  unfolding position_idx
  position_idx_lem p l =
      ap (λ r. r >>= find h) (load-ok h.id_heap_array p 0 (omega (arith, w.in_array)))
      ∙ w.search p l

  -- The comparison of two positions, as the caller reads it.
  pub compare_values_lem :
      (i j : ℕ)
      → i < n
      → j < n
      → (c : Word32) × (compare_values h i j ≡ ok c)
        × (lt_int c 0 ≡ true → key h at i ≤ key h at j)
        × (lt_int c 0 ≡ false → key h at j ≤ key h at i)
  unfolding compare_values
  compare_values_lem i j p q =
      let d = get_or h.distances (at i) 0 in
      let e = get_or h.distances (at j) 0 in
      (
        (if d == e then 0 else if lt_int e d then 1 else minus_one),
        rw (
          position_idx_lem i p,
          position_idx_lem j q,
          load-ok h.distances (at i) 0 (w.has_distance i p),
          load-ok h.distances (at j) 0 (w.has_distance j q),
        ),
        (λ t. by_value d e t),
        (λ t. by_other d e t),
      )
    where
      by_value :
          (d e : Word32)
          → lt_int (if d == e then 0 else if lt_int e d then 1 else minus_one) 0 ≡ true
          → rank d ≤ rank e
      by_value d e t = ground arith

      by_other :
          (d e : Word32)
          → lt_int (if d == e then 0 else if lt_int e d then 1 else minus_one) 0 ≡ false
          → rank e ≤ rank d
      by_other d e t = ground arith
