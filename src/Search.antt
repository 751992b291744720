-- ===== src/Search.antt =====
-- java.util.Arrays.binarySearch, which the containers and the routers call.
-- Its `high` is one less than `hi` here, and may be -1. A result that is not negative is
-- `found`; `missing i` is the negative result -(i + 1).
pub mod Sound
pub mod Sets
pub mod Ends
use fapra_osm_routing.Prelude.{
  ℕ, zero, suc, ◌+◌, ◌-◌, ◌/◌, List, Word32, lt_int, Run, ok, throw, index_out_of_bounds,
  illegal_argument, out_of_fuel, ◌>>=◌, load, length, ltb, if◌then◌else◌,
}

pub data Position : Type 0 where
  found : ℕ → Position
  missing : ℕ → Position

-- A negative result as an index is outside of every array.
abbrev pub index_of : Position → Run ℕ
index_of (found i) = ok i
index_of (missing i) = throw index_out_of_bounds

abbrev pub middle : ℕ → ℕ → ℕ
middle lo hi = (lo + (hi - 1)) / 2

unfoldable pub search_loop : ℕ → List Word32 → Word32 → ℕ → ℕ → Run Position
search_loop zero a key lo hi = out_of_fuel
search_loop (suc fuel) a key lo hi =
    let mid = middle lo hi in
    let upper = search_loop fuel a key (mid + 1) hi in
    let lower = search_loop fuel a key lo mid in
    let round = load a mid >>= λ mid_val.
    if lt_int mid_val key then upper else if lt_int key mid_val then lower else ok (found mid) in
    if ltb lo hi then round else ok (missing lo)

-- The search itself.
unfoldable pub search_between : List Word32 → ℕ → ℕ → Word32 → Run Position
unfolding search_loop
search_between a from to key = search_loop (to + 1) a key from to

-- Arrays.binarySearch(a, from, to, key), which looks at the range first.
unfoldable pub search_range : List Word32 → ℕ → ℕ → Word32 → Run Position
unfolding search_between
search_range a from to key =
    if ltb to from
    then throw illegal_argument
    else if ltb (length a) to
    then throw index_out_of_bounds
    else search_between a from to key

-- Arrays.binarySearch(a, key)
unfoldable pub binary_search : List Word32 → Word32 → Run Position
unfolding search_between
binary_search a key = search_between a 0 (length a) key
