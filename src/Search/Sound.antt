-- ===== src/Search/Sound.antt =====
-- A binary search on an ascending array finds the key, or the place where it belongs.
use fapra_osm_routing.Prelude.{
  ℕ, zero, suc, ◌+◌, ◌≤◌, ◌<◌, ◌≡◌, List, Word32, rank, lt_int, load-ok, length, get_or, arith, ltb,
  Returns, returns, Bool-cases, inl, inr,
}
use fapra_osm_routing.Search.{
  Position, found, missing, middle, search_loop, search_between, search_range,
}

-- In ascending order from cell `from` to before cell `to`.
abbrev pub IsAscending : List Word32 → ℕ → ℕ → Type 0
IsAscending a from to =
    (i j : ℕ) → from ≤ i → i ≤ j → j < to → rank (get_or a i 0) ≤ rank (get_or a j 0)

-- What a result says of the cells from `from` to before `to`.
abbrev pub Locates : List Word32 → ℕ → ℕ → Word32 → Position → Type 0
Locates a from to key (found i) = (from ≤ i) × (i < to) × (rank (get_or a i 0) ≡ rank key)
Locates a from to key (missing i) =
    (from ≤ i)
    × (i ≤ to)
    × ((j : ℕ) → from ≤ j → j < i → rank (get_or a j 0) < rank key)
    × ((j : ℕ) → i ≤ j → j < to → rank key < rank (get_or a j 0))

-- The cells left of `lo` are below the key, those from `hi` on are above it.
record Bracket (a : List Word32) (from to : ℕ) (key : Word32) (lo hi : ℕ) : Type 0 where
  start : from ≤ lo
  order : lo ≤ hi
  end : hi ≤ to
  below : (j : ℕ) → from ≤ j → j < lo → rank (get_or a j 0) < rank key
  above : (j : ℕ) → hi ≤ j → j < to → rank key < rank (get_or a j 0)

module _ (a : List Word32) (from to : ℕ) (key : Word32) (asc : IsAscending a from to)
    (fits : to ≤ length a) where
  module _ (lo hi : ℕ) (b : Bracket a from to key lo hi) (more : lo < hi) where
    abbrev cell : ℕ
    cell = rank (get_or a (middle lo hi) 0)

    upper-Bracket : cell < rank key → Bracket a from to key (middle lo hi + 1) hi
    upper-Bracket h = record {
      start = omega (arith, b.start);
      order = omega arith;
      end = b.end;
      below = λ j p q.
          omega
            (arith, b.start, b.end, asc j (middle lo hi) p (omega arith) (omega (arith, b.end)));
      above = b.above;
    }

    lower-Bracket : rank key < cell → Bracket a from to key lo (middle lo hi)
    lower-Bracket h = record {
      start = b.start;
      order = omega arith;
      end = omega (arith, b.end);
      below = b.below;
      above = λ j p q. omega (arith, asc (middle lo hi) j (omega (arith, b.start)) p q);
    }

  search_loop-Locates :
      (fuel lo hi : ℕ)
      → hi < fuel + lo
      → Bracket a from to key lo hi
      → Returns (Locates a from to key) (search_loop fuel a key lo hi)
  unfolding search_loop
  search_loop-Locates zero lo hi f b = absurd (omega (arith, b.order))
  search_loop-Locates (suc fuel) lo hi f b = elim (Bool-cases (ltb lo hi)) [
    | inr done ↦ rw done (
        returns (
          b.start,
          omega (arith, b.order, b.end),
          b.below,
          λ j p q. b.above j (ground (arith, b.order)) q,
        ))
    | inl more ↦
        let h : lo < hi = ground arith in
        rw (more, load-ok a (middle lo hi) 0 (omega (arith, b.end)))
          (elim (Bool-cases (lt_int (get_or a (middle lo hi) 0) key)) [
            | inl less ↦ rw less (
                search_loop-Locates fuel (middle lo hi + 1) hi (omega arith)
                  (upper-Bracket lo hi b h (ground arith)))
            | inr not_less ↦
                rw not_less (elim (Bool-cases (lt_int key (get_or a (middle lo hi) 0))) [
                  | inl greater ↦ rw greater (
                      search_loop-Locates fuel lo (middle lo hi) (omega arith)
                        (lower-Bracket lo hi b h (ground arith)))
                  | inr same ↦
                      rw same (returns (omega (arith, b.start), omega (arith, b.end), ground arith))
                ])
          ])
  ]

  -- On a range in ascending order the search returns, and what it returns is right.
  pub search_between-Locates :
      from ≤ to → Returns (Locates a from to key) (search_between a from to key)
  unfolding search_between
  search_between-Locates h = search_loop-Locates (to + 1) from to (omega arith) (record {
    start = omega arith;
    order = h;
    end = omega arith;
    below = λ j p q. absurd (omega arith);
    above = λ j p q. absurd (omega arith);
  })

  pub search_range-Locates :
      from ≤ to → Returns (Locates a from to key) (search_range a from to key)
  unfolding search_range
  search_range-Locates h = elim (Bool-cases (ltb to from)) [
    | inl above ↦ absurd (ground arith)
    | inr ordered ↦ elim (Bool-cases (ltb (length a) to)) [
      | inl past ↦ absurd (ground arith)
      | inr inside ↦ rw (ordered, inside) (search_between-Locates h)
    ]
  ]
