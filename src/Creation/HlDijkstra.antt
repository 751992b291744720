-- ===== src/Creation/HlDijkstra.antt =====
-- hublablecreation/HLDijkstra.java: the labels of a node from those of its higher neighbours. The
-- sets keep a row for each label, at the same index in all three. The message on the console, when
-- two edges lead to the same neighbour, is left out.
pub mod Rows
pub mod Steps
pub mod Walks
pub mod Collected
pub mod Merged
pub mod Pruned
pub mod Published
pub mod Sound
use fapra_osm_routing.Prelude.{
  Option, ℕ, zero, suc, ◌+◌, ◌-◌, List, Word32, minus_one, lt_int, add_int, Bool, true, false, Run,
  ok, out_of_fuel, ◌>>=◌, load, store, replicate, length, ltb, ◌==◌, if◌then◌else◌,
}
use fapra_osm_routing.Search.{Position, found, missing, index_of}
use fapra_osm_routing.Utils.OrderedIntSet.{
  OrderedIntSet, new, insert_sorted, insert_tail, insert_at_idx, remove_at_idx, get, get_idx, size,
  update_value, clear, to_array,
}
use fapra_osm_routing.Creation.Nodes.{Nodes, get_node_lvl}
use fapra_osm_routing.Creation.Edges.{Edges, get_dest, get_dist}
use fapra_osm_routing.Creation.DynamicGrid.{
  DynamicGrid, get_all_edge_count, get_all_edges, not_null,
}
use fapra_osm_routing.Creation.Labels.{Labels, get_labels, add_labels, is_redundant}
use fapra_osm_routing.Creation.Labels

pub record HlDijkstra : Type 0 where
  pub calc_order : List Word32
  pub start_node_idx : ℕ
  pub end_node_idx : ℕ
  pub found_ids : OrderedIntSet
  pub distances : OrderedIntSet
  pub first_edge_id : OrderedIntSet

-- The constructor.
unfoldable pub thread : ℕ → ℕ → List Word32 → HlDijkstra
thread start_node_idx end_node_idx calc_order = record {
  calc_order = calc_order;
  start_node_idx = start_node_idx;
  end_node_idx = end_node_idx;
  found_ids = new true 1000 2000;
  distances = new false 1000 2000;
  first_edge_id = new false 1000 2000;
}

-- The calls at the start of calcLabels.
pub restart : HlDijkstra → Word32 → Run HlDijkstra
restart t node_id = do
  (at, ids) ← insert_sorted (clear t.found_ids) node_id
  dists ← insert_tail (clear t.distances) 0
  edges ← insert_tail (clear t.first_edge_id) minus_one
  ok (record t { found_ids = ids; distances = dists; first_edge_id = edges })

-- A new row in the three sets.
pub insert_row : HlDijkstra → Word32 → Word32 → Word32 → ℕ → Run HlDijkstra
insert_row t id distance edge idx = do
  ids ← insert_at_idx t.found_ids id idx
  dists ← insert_at_idx t.distances distance idx
  edges ← insert_at_idx t.first_edge_id edge idx
  ok (record t { found_ids = ids; distances = dists; first_edge_id = edges })

-- A neighbour that was found already only causes a message.
pub insert_missing : HlDijkstra → Word32 → Word32 → Word32 → Position → Run HlDijkstra
insert_missing t id distance edge (found i) = ok t
insert_missing t id distance edge (missing i) = insert_row t id distance edge i

pub remove_row : HlDijkstra → ℕ → Run HlDijkstra
remove_row t idx = do
  ids ← remove_at_idx t.found_ids idx
  dists ← remove_at_idx t.distances idx
  edges ← remove_at_idx t.first_edge_id idx
  ok (record t { found_ids = ids; distances = dists; first_edge_id = edges })

-- A smaller distance and its first edge replace those of the row.
pub update_row : HlDijkstra → Word32 → Word32 → ℕ → Run HlDijkstra
update_row t new_distance edge idx = do
  old_distance ← get t.distances idx
  let update = do
    dists ← update_value t.distances new_distance idx
    edges ← update_value t.first_edge_id edge idx
    ok (record t { distances = dists; first_edge_id = edges })
  if lt_int new_distance old_distance then update else ok t

pub insert_or_update : HlDijkstra → Word32 → Word32 → Word32 → Position → Run HlDijkstra
insert_or_update t id distance edge (found i) = update_row t distance edge i
insert_or_update t id distance edge (missing i) = insert_row t id distance edge i

-- The thread, and the neighbours found so far.
pub record Neighbours : Type 0 where
  pub search : HlDijkstra
  pub neighbour_ids : List Word32
  pub real_neighbour_count : ℕ

-- The part of the first loop's body behind `continue`.
pub add_neighbour : Edges → Word32 → Word32 → Neighbours → Run Neighbours
add_neighbour e edge_id dest_node s = do
  edge_dist ← get_dist e edge_id
  ids ← store s.neighbour_ids s.real_neighbour_count dest_node
  insert_idx ← get_idx s.search.found_ids dest_node
  t ← insert_missing s.search dest_node edge_dist edge_id insert_idx
  ok (record { search = t; neighbour_ids = ids; real_neighbour_count = s.real_neighbour_count + 1 })

-- An array is only used, and must not be null, where it is read.
module _ (e : Edges) (n : Nodes) (edge_row : Option (List Word32)) (node_lvl : Word32) where
  pub visit_edge : ℕ → Neighbours → Run Neighbours
  visit_edge i s = do
    edge_ids ← not_null edge_row
    edge_id ← load edge_ids i
    dest_node ← get_dest e edge_id
    dest_lvl ← get_node_lvl n dest_node
    if lt_int dest_lvl node_lvl then ok s else add_neighbour e edge_id dest_node s

  -- The rounds that are left, from the index `i` on.
  pub edge_loop : ℕ → ℕ → Neighbours → Run Neighbours
  edge_loop zero i s = ok s
  edge_loop (suc left) i s = visit_edge i s >>= λ s'. edge_loop left (i + 1) s'

module _ (labels : List Word32) (dist_row : Option (List Word32))
    (base_dist base_edge : Word32) where
  pub merge_label : ℕ → HlDijkstra → Run HlDijkstra
  merge_label i t = do
    curr_label_node ← load labels i
    curr_label_idx ← get_idx t.found_ids curr_label_node
    dist ← not_null dist_row
    d ← load dist i
    insert_or_update t curr_label_node (add_int base_dist d) base_edge curr_label_idx

  pub label_loop : ℕ → ℕ → HlDijkstra → Run HlDijkstra
  label_loop zero i t = ok t
  label_loop (suc left) i t = merge_label i t >>= λ t'. label_loop left (i + 1) t'

module _ (l : Labels) where
  pub merge_neighbour : Word32 → HlDijkstra → Run HlDijkstra
  merge_neighbour base_node_id t = do
    position ← get_idx t.found_ids base_node_id
    base_idx ← index_of position
    base_dist ← get t.distances base_idx
    base_edge ← get t.first_edge_id base_idx
    label_row ← get_labels l base_node_id
    labels ← not_null label_row
    dist_row ← Labels.get_dist l base_node_id
    label_loop labels dist_row base_dist base_edge (length labels) 0 t

  pub merge_loop : List Word32 → ℕ → ℕ → HlDijkstra → Run HlDijkstra
  merge_loop neighbour_ids zero j t = ok t
  merge_loop neighbour_ids (suc left) j t = do
    base_node_id ← load neighbour_ids j
    t' ← merge_neighbour base_node_id t
    merge_loop neighbour_ids left (j + 1) t'

  -- The test of removeRedundancies at an index.
  pub is_row_redundant : Word32 → ℕ → HlDijkstra → Run Bool
  is_row_redundant node_id idx t =
      let ask = do
        label_node ← get t.found_ids idx
        distance ← get t.distances idx
        is_redundant l label_node distance t.found_ids t.distances
      in get t.found_ids idx >>= λ label_node. if label_node == node_id then ok false else ask

  -- Each round removes a row or leaves one more behind.
  pub redundancy_loop : Word32 → ℕ → ℕ → HlDijkstra → Run HlDijkstra
  redundancy_loop node_id zero idx t = out_of_fuel
  redundancy_loop node_id (suc fuel) idx t =
      let again : HlDijkstra → Run HlDijkstra = λ t'. redundancy_loop node_id fuel idx t' in
      let next = redundancy_loop node_id fuel (idx + 1) t in
      let round = do
        redundant ← is_row_redundant node_id idx t
        if redundant then remove_row t idx >>= again else next
      in if ltb idx (size t.found_ids) then round else ok t

  unfoldable pub remove_redundancies : Word32 → HlDijkstra → Run HlDijkstra
  remove_redundancies node_id t = redundancy_loop node_id (size t.found_ids + 1) 0 t

  -- addLabels of the thread.
  pub publish : Word32 → HlDijkstra → Run (HlDijkstra × Labels)
  publish node_id t = do
    kept ← remove_redundancies node_id t
    ids ← to_array kept.found_ids
    edges ← to_array kept.first_edge_id
    dists ← to_array kept.distances
    l' ← add_labels l node_id ids edges dists
    ok (kept, l')

module _ (g : DynamicGrid) (e : Edges) (n : Nodes) where
  pub calc_labels : HlDijkstra → Labels → Word32 → Run (HlDijkstra × Labels)
  calc_labels t l node_id = do
    started ← restart t node_id
    edge_count ← get_all_edge_count g node_id
    edge_row ← get_all_edges g node_id
    node_lvl ← get_node_lvl n node_id
    neighbours ← edge_loop e n edge_row node_lvl edge_count 0 (record {
      search = started;
      neighbour_ids = replicate edge_count 0;
      real_neighbour_count = 0;
    })
    merged ←
        merge_loop l neighbours.neighbour_ids neighbours.real_neighbour_count 0 neighbours.search
    publish l node_id merged

  -- The rounds of run that are left.
  pub run_loop : ℕ → ℕ → HlDijkstra → Labels → Run (HlDijkstra × Labels)
  run_loop zero node_idx t l = ok (t, l)
  run_loop (suc left) node_idx t l = do
    node_id ← load t.calc_order node_idx
    (t', l') ← calc_labels t l node_id
    run_loop left (node_idx + 1) t' l'

  unfoldable pub run : HlDijkstra → Labels → Run (HlDijkstra × Labels)
  run t l = run_loop (t.end_node_idx - t.start_node_idx) t.start_node_idx t l
