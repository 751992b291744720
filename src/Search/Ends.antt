-- ===== src/Search/Ends.antt =====
-- The binary search ends.
use fapra_osm_routing.Prelude.{
  ℕ, zero, suc, ◌+◌, ◌<◌, ◌≤◌, List, Word32, lt_int, ltb, length, load-Ends, Ends, ends, fails,
  Ends-bind, Ends-if, Anything, arith,
}
use fapra_osm_routing.Search.{
  Position, found, missing, index_of, middle, search_loop, search_between, binary_search,
}

pub index_of-Ends : (p : Position) → Ends Anything (index_of p)
index_of-Ends (found i) = ends tt
index_of-Ends (missing i) = fails

-- The middle lies inside of the range.
middle-bounds : (lo hi : ℕ) → lo < hi → (lo ≤ middle lo hi) × (middle lo hi < hi)
middle-bounds lo hi h = omega arith

search_loop-Ends :
    (fuel : ℕ) (a : List Word32) (key : Word32) (lo hi : ℕ)
    → hi < fuel + lo
    → 0 < fuel
    → Ends Anything (search_loop fuel a key lo hi)
unfolding search_loop
search_loop-Ends zero a key lo hi f p = absurd (omega arith)
search_loop-Ends (suc fuel) a key lo hi f p =
    let mid = middle lo hi in
    Ends-if (ltb lo hi)
      (λ more.
        let inside = middle-bounds lo hi (ground arith) in
        Ends-bind (load-Ends a mid) λ mid_val _.
          Ends-if (lt_int mid_val key)
            (λ _.
              search_loop-Ends fuel a key (mid + 1) hi (ground (arith, inside))
                (ground (arith, inside)))
            (λ _.
              Ends-if (lt_int key mid_val)
                (λ _.
                  search_loop-Ends fuel a key lo mid (ground (arith, inside))
                    (ground (arith, inside)))
                (λ _. ends tt)))
      (λ done. ends tt)

pub binary_search-Ends : (a : List Word32) (key : Word32) → Ends Anything (binary_search a key)
unfolding binary_search search_between
binary_search-Ends a key =
    search_loop-Ends (length a + 1) a key 0 (length a) (omega arith) (omega arith)
