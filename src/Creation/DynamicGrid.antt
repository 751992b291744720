-- ===== src/Creation/DynamicGrid.antt =====
-- hublablecreation/DynamicGrid.java: the edges of the nodes, those of the nodes that are not yet
-- contracted and all that there ever were.
pub mod Changes
pub mod Removal
use fapra_osm_routing.Prelude.{
  ℕ, zero, suc, ◌+◌, ◌-◌, List, Word32, Option, none, some, Run, ok, throw, null_pointer,
  index_out_of_bounds, ◌>>=◌, load, store, map, length, copy_of, ◌==◌, if◌then◌else◌, ltb,
}
use fapra_osm_routing.Creation.Edges.{Edges, get_dest}

-- The array of a node is null when the node was removed.
pub record DynamicGrid : Type 0 where
  pub current_edge_ids : List (Option (List Word32))
  pub current_edge_count : List ℕ
  pub all_edge_ids : List (Option (List Word32))
  pub all_edge_count : List ℕ

unfoldable pub initialize_edges : List (List Word32) → List ℕ → DynamicGrid
initialize_edges edges edge_count = record {
  current_edge_ids = map some edges;
  current_edge_count = edge_count;
  all_edge_ids = map some edges;
  all_edge_count = edge_count;
}

-- A use of an array, which must not be null.
abbrev pub not_null : Option (List Word32) → Run (List Word32)
not_null none = throw null_pointer
not_null (some a) = ok a

unfoldable pub get_current_edges : DynamicGrid → ℕ → Run (Option (List Word32))
get_current_edges g node_id = load g.current_edge_ids node_id

unfoldable pub get_current_edge_count : DynamicGrid → ℕ → Run ℕ
get_current_edge_count g node_id = load g.current_edge_count node_id

unfoldable pub get_all_edges : DynamicGrid → ℕ → Run (Option (List Word32))
get_all_edges g node_id = load g.all_edge_ids node_id

unfoldable pub get_all_edge_count : DynamicGrid → ℕ → Run ℕ
get_all_edge_count g node_id = load g.all_edge_count node_id

-- growCurrent and growAll, where the array is full: twice the length, which is none for none.
unfoldable pub grow : List Word32 → ℕ → List Word32
grow ids count = if length ids == count then copy_of ids (length ids) 0 else ids

unfoldable pub add_edge : DynamicGrid → ℕ → Word32 → Run DynamicGrid
add_edge g node_id edge_id = do
  current_row ← load g.current_edge_ids node_id
  current ← not_null current_row
  current_count ← load g.current_edge_count node_id
  all_row ← load g.all_edge_ids node_id
  all ← not_null all_row
  all_count ← load g.all_edge_count node_id
  current_written ← store (grow current current_count) current_count edge_id
  current_ids ← store g.current_edge_ids node_id (some current_written)
  current_counts ← store g.current_edge_count node_id (current_count + 1)
  all_written ← store (grow all all_count) all_count edge_id
  all_ids ← store g.all_edge_ids node_id (some all_written)
  all_counts ← store g.all_edge_count node_id (all_count + 1)
  ok (record {
    current_edge_ids = current_ids;
    current_edge_count = current_counts;
    all_edge_ids = all_ids;
    all_edge_count = all_counts;
  })

-- The first current edge of `dest_id` that leads to `start_id`, or -1 (`none`).
unfoldable pub find_backwards : Edges → List Word32 → Word32 → ℕ → ℕ → Run (Option ℕ)
find_backwards e ids start_id zero i = ok none
find_backwards e ids start_id (suc left) i =
    let rest = find_backwards e ids start_id left (i + 1) in
    do edge ← load ids i; dest ← get_dest e edge; if dest == start_id then ok (some i) else rest

-- A position of -1 is outside of the array.
unfoldable pub index_or_fail : Option ℕ → Run ℕ
index_or_fail none = throw index_out_of_bounds
index_or_fail (some i) = ok i

unfoldable pub remove_backwards_edge : Edges → ℕ → ℕ → DynamicGrid → Run DynamicGrid
remove_backwards_edge e start_id dest_id g = do
  count ← load g.current_edge_count dest_id
  row ← load g.current_edge_ids dest_id
  ids ← not_null row
  position ← find_backwards e ids start_id count 0
  last ← load ids (count - 1)
  idx ← index_or_fail position
  written ← store ids idx last
  all_ids ← store g.current_edge_ids dest_id (some written)
  counts ← store g.current_edge_count dest_id (count - 1)
  ok (record g { current_edge_ids = all_ids; current_edge_count = counts })

-- The rounds of removeNode, as many as the count at first, which no round raises.
unfoldable pub remove_loop : Edges → ℕ → ℕ → ℕ → DynamicGrid → Run DynamicGrid
remove_loop e node_id zero i g = ok g
remove_loop e node_id (suc left) i g =
    let round = do
      row ← load g.current_edge_ids node_id
      ids ← not_null row
      edge ← load ids i
      dest ← get_dest e edge
      g' ← remove_backwards_edge e node_id dest g
      remove_loop e node_id left (i + 1) g'
    in load g.current_edge_count node_id >>= λ count. if ltb i count then round else ok g

unfoldable pub remove_node : Edges → ℕ → DynamicGrid → Run DynamicGrid
remove_node e node_id g = do
  count ← load g.current_edge_count node_id
  removed ← remove_loop e node_id count 0 g
  counts ← store removed.current_edge_count node_id 0
  ids ← store removed.current_edge_ids node_id none
  ok (record removed { current_edge_ids = ids; current_edge_count = counts })
