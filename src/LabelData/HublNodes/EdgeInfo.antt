-- ===== src/LabelData/HublNodes/EdgeInfo.antt =====
-- HubLNodes.initHlLvl, initNodeData and initEdgeInfo in hublabeldata/HubLNodes.java: for a node without
-- labels, the edges to higher nodes. That the data of Nodes and of DynamicGrid is given up is left
-- out.
pub mod Higher
use fapra_osm_routing.Prelude.{
  ℕ, zero, suc, ◌+◌, ◌-◌, List, [], ◌∷◌, Word32, lt_int, Option, none, some, Bool, not, Run, ok,
  throw, illegal_state, out_of_fuel, ◌>>=◌, load, store, arraycopy, replicate, length, ltb, ◌==◌,
  if◌then◌else◌,
}
use fapra_osm_routing.Creation.Nodes.{Nodes}
use fapra_osm_routing.Creation.Edges.{Edges, get_dest}
use fapra_osm_routing.Creation.DynamicGrid.{DynamicGrid, not_null}
use fapra_osm_routing.LabelData.HublNodes.{HublNodes}

unfoldable pub init_hl_lvl : Word32 → HublNodes → HublNodes
init_hl_lvl lvl n = record n { hl_level = lvl }

-- The levels of the nodes; the coordinates are doubles.
unfoldable pub init_node_data : Nodes → HublNodes → HublNodes
init_node_data nodes n = record n { levels = nodes.levels }

-- The edges that are left of a node, and how many were kept of all nodes.
pub record Kept : Type 0 where
  pub edge_array : List Word32
  pub edge_count : ℕ
  pub total_edge_len : ℕ

module _ (e : Edges) (levels : List Word32) where
  -- Each round deletes an edge or passes one.
  unfoldable pub keep_loop : Word32 → ℕ → ℕ → Kept → Run Kept
  keep_loop node_lvl zero j k = out_of_fuel
  keep_loop node_lvl (suc fuel) j k =
      let again : Kept → Run Kept = λ k'. keep_loop node_lvl fuel j k' in
      let next =
        keep_loop node_lvl fuel (j + 1) (record k { total_edge_len = k.total_edge_len + 1 }) in
      let edge_count = k.edge_count - 1 in
      let delete = arraycopy k.edge_array (j + 1) k.edge_array j (edge_count - j) >>= λ moved.
      again (record k { edge_array = moved; edge_count = edge_count }) in
      let round = do
        edge ← load k.edge_array j
        dest ← get_dest e edge
        dest_lvl ← load levels dest
        if lt_int node_lvl dest_lvl then next else delete
      in if ltb j k.edge_count then round else ok k

-- The edges of all nodes, and how many there are.
pub record Grid : Type 0 where
  pub current_grid : List (Option (List Word32))
  pub edge_counts : List ℕ
  pub total_edge_len : ℕ

module _ (e : Edges) (n : HublNodes) where
  unfoldable pub keep_higher : ℕ → Word32 → Grid → Run Grid
  keep_higher i node_lvl s = do
    edge_count ← load s.edge_counts i
    let keep = do
      row ← load s.current_grid i
      edge_array ← not_null row
      kept ← keep_loop e n.levels node_lvl (edge_count + 1) 0 (record {
        edge_array = edge_array;
        edge_count = edge_count;
        total_edge_len = s.total_edge_len;
      })
      grid ← store s.current_grid i (some kept.edge_array)
      counts ← store s.edge_counts i kept.edge_count
      ok (record {
        current_grid = grid;
        edge_counts = counts;
        total_edge_len = kept.total_edge_len;
      })
    if edge_count == 0 then ok s else keep

  -- A node with labels keeps no edges.
  unfoldable pub drop_edges : ℕ → Grid → Run Grid
  drop_edges i s = do
    grid ← store s.current_grid i none
    counts ← store s.edge_counts i 0
    ok (record s { current_grid = grid; edge_counts = counts })

  unfoldable pub filter_loop : ℕ → ℕ → Grid → Run Grid
  filter_loop zero i s = ok s
  filter_loop (suc left) i s = load n.levels i >>= λ node_lvl.
      let filtered =
        if lt_int node_lvl n.hl_level then keep_higher i node_lvl s else drop_edges i s in
      filtered >>= λ s'. filter_loop left (i + 1) s'

-- The offsets and the edges in one array.
pub record Laid : Type 0 where
  pub edges_offset : List Word32
  pub edges : List Word32
  pub next_offset : ℕ

unfoldable pub lay_loop : Grid → ℕ → ℕ → Laid → Run Laid
lay_loop s zero i a = ok a
lay_loop s (suc left) i a = do
  next_edge_count ← load s.edge_counts i
  offsets ← store a.edges_offset i a.next_offset
  let copy = do
    row ← load s.current_grid i
    edge_array ← not_null row
    edges ← arraycopy edge_array 0 a.edges a.next_offset next_edge_count
    ok (record {
      edges_offset = offsets;
      edges = edges;
      next_offset = a.next_offset + next_edge_count;
    })
  a' ← if next_edge_count == 0 then ok (record a { edges_offset = offsets }) else copy
  lay_loop s left (i + 1) a'

-- `has_coordinates` says that initNodeData was called before, which fills the longitudes.
unfoldable pub init_edge_info : Bool → Edges → DynamicGrid → HublNodes → Run HublNodes
init_edge_info has_coordinates e g n =
    let node_count = length g.all_edge_count in
    let init = do
      s ← filter_loop e n node_count 0 (record {
        current_grid = g.all_edge_ids;
        edge_counts = g.all_edge_count;
        total_edge_len = 0;
      })
      laid ← lay_loop s node_count 0 (record {
        edges_offset = replicate (node_count + 1) 0;
        edges = replicate s.total_edge_len 0;
        next_offset = 0;
      })
      offsets ← store laid.edges_offset node_count laid.next_offset
      ok (record n { edges_offset = offsets; edges = laid.edges })
    in if has_coordinates then init else throw illegal_state
