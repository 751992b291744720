-- ===== src/Creation/Edges.antt =====
-- hublablecreation/Edges.java: the edges of the graph, and the shortcuts added to it.
-- The ids of the shortcuts follow those of the original edges.
pub mod Shortcuts
use fapra_osm_routing.Prelude.{
  ℕ, ◌+◌, ◌-◌, ◌*◌, ◌/◌, List, Word32, Run, ok, ◌>>=◌, load, store, copy_to, replicate, length, ltb,
  leb, if◌then◌else◌,
}

pub record Edges : Type 0 where
  pub original_edge_start : List Word32
  pub original_edge_dest : List Word32
  pub original_edge_dist : List Word32
  pub num_of_original_edges : ℕ
  pub shortcut_edge_start : List Word32
  pub shortcut_edge_dest : List Word32
  pub shortcut_edge_dist : List Word32
  pub shortcut_edge_parts : List Word32
  pub next_shortcut_id : ℕ
  pub shortcut_edge_size_increase : ℕ

unfoldable pub get_dest : Edges → ℕ → Run Word32
get_dest e i =
    if ltb i e.num_of_original_edges
    then load e.original_edge_dest i
    else load e.shortcut_edge_dest (i - e.num_of_original_edges)

unfoldable pub get_dist : Edges → ℕ → Run Word32
get_dist e i =
    if ltb i e.num_of_original_edges
    then load e.original_edge_dist i
    else load e.shortcut_edge_dist (i - e.num_of_original_edges)

pub initialize_for_shortcut_edges : Edges → ℕ → Edges
initialize_for_shortcut_edges e num_of_original_edges =
    let size_increase = num_of_original_edges / 2 in
    record e {
      num_of_original_edges = num_of_original_edges;
      next_shortcut_id = num_of_original_edges;
      shortcut_edge_size_increase = size_increase;
      shortcut_edge_start = replicate size_increase 0;
      shortcut_edge_dest = replicate size_increase 0;
      shortcut_edge_dist = replicate size_increase 0;
      shortcut_edge_parts = replicate (size_increase * 2) 0;
    }

grow : Edges → Edges
grow e =
    let new_len = length e.shortcut_edge_dist + e.shortcut_edge_size_increase in
    record e {
      shortcut_edge_start = copy_to e.shortcut_edge_start new_len 0;
      shortcut_edge_dest = copy_to e.shortcut_edge_dest new_len 0;
      shortcut_edge_dist = copy_to e.shortcut_edge_dist new_len 0;
      shortcut_edge_parts = copy_to e.shortcut_edge_parts (new_len * 2) 0;
    }

-- The part of addShortcutEdge behind its test.
put : Edges → Word32 → Word32 → Word32 → Word32 → Word32 → Run (ℕ × Edges)
put e start dest dist first_edge_used second_edge_used = do
  let next_array_position = e.next_shortcut_id - e.num_of_original_edges
  starts ← store e.shortcut_edge_start next_array_position start
  dests ← store e.shortcut_edge_dest next_array_position dest
  dists ← store e.shortcut_edge_dist next_array_position dist
  half ← store e.shortcut_edge_parts (next_array_position * 2) first_edge_used
  parts ← store half (next_array_position * 2 + 1) second_edge_used
  ok (
    e.next_shortcut_id,
    record e {
      shortcut_edge_start = starts;
      shortcut_edge_dest = dests;
      shortcut_edge_dist = dists;
      shortcut_edge_parts = parts;
      next_shortcut_id = e.next_shortcut_id + 1;
    },
  )

-- `length - 1 < position` of the source, where the length may be 0, is `length ≤ position`.
pub add_shortcut_edge : Edges → Word32 → Word32 → Word32 → Word32 → Word32 → Run (ℕ × Edges)
unfolding grow put
add_shortcut_edge e start dest dist first_edge_used second_edge_used =
    put
      (if leb (length e.shortcut_edge_dist) (e.next_shortcut_id - e.num_of_original_edges)
        then grow e
        else e)
      start dest dist first_edge_used second_edge_used
