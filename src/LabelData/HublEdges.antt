-- ===== src/LabelData/HublEdges.antt =====
-- hublabeldata/HubLEdges.java: the edges as the router reads them.
pub mod Initialize
pub mod Shortcuts
use fapra_osm_routing.Prelude.{
  ℕ, ◌+◌, ◌-◌, ◌*◌, List, Word32, Bool, Run, ok, ◌>>=◌, load, arraycopy, replicate, leb,
}
use fapra_osm_routing.Creation.Edges.{Edges}

pub record HublEdges : Type 0 where
  pub dest : List Word32
  pub dist : List Word32
  pub first_shortcut_idx : ℕ
  pub shortcut_parts : List Word32

unfoldable pub get_dest : HublEdges → ℕ → Run Word32
get_dest e edge_id = load e.dest edge_id

unfoldable pub get_dist : HublEdges → ℕ → Run Word32
get_dist e edge_id = load e.dist edge_id

-- The pattern of -1 counts as a shortcut here, but not in Java; the reads that follow throw for
-- both.
unfoldable pub is_shortcut : HublEdges → ℕ → Bool
is_shortcut e edge_id = leb e.first_shortcut_idx edge_id

unfoldable pub get_second_shortcut : HublEdges → ℕ → Run Word32
get_second_shortcut e edge_id = load e.shortcut_parts ((edge_id - e.first_shortcut_idx) * 2)

unfoldable pub get_first_shortcut : HublEdges → ℕ → Run Word32
get_first_shortcut e edge_id = load e.shortcut_parts ((edge_id - e.first_shortcut_idx) * 2 + 1)

-- `edge_count - original_edge_count` is not negative, since the ids of shortcuts come after.
pub initialize : Edges → Run HublEdges
initialize e = do
  let edge_count = e.next_shortcut_id
  let original_edge_count = e.num_of_original_edges
  let shortcut_count = edge_count - original_edge_count
  dest ← arraycopy e.original_edge_dest 0 (replicate edge_count 0) 0 original_edge_count
  dist ← arraycopy e.original_edge_dist 0 (replicate edge_count 0) 0 original_edge_count
  dest' ←
      arraycopy e.shortcut_edge_dest 0 dest original_edge_count (edge_count - original_edge_count)
  dist' ←
      arraycopy e.shortcut_edge_dist 0 dist original_edge_count (edge_count - original_edge_count)
  parts ←
      arraycopy e.shortcut_edge_parts 0 (replicate (shortcut_count * 2) 0) 0 (shortcut_count * 2)
  ok (record {
    dest = dest';
    dist = dist';
    first_shortcut_idx = original_edge_count;
    shortcut_parts = parts;
  })
