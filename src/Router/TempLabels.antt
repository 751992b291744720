-- ===== src/Router/TempLabels.antt =====
-- calcTempLabels and addEdges of router/HubLRouter.java: labels that are made for a node without
-- any, by a search over the edges to higher nodes and the labels of the nodes it reaches.
pub mod Rows
pub mod Order
use fapra_osm_routing.Prelude.{
  ℕ, zero, suc, ◌+◌, ◌-◌, ◌%◌, Word32, minus_one, max_value, lt_int, add_int, Bool, Run, ok,
  out_of_fuel, ◌>>=◌, ◌==◌, if◌then◌else◌,
}
use fapra_osm_routing.Search.{Position, found, missing, index_of}
use fapra_osm_routing.Utils.IntStack
use fapra_osm_routing.Utils.IntStack.{IntStack, push, pop_fifo}
use fapra_osm_routing.Utils.DistanceHeap
use fapra_osm_routing.Utils.DistanceHeap.{DistanceHeap, get_next}
use fapra_osm_routing.Utils.OrderedIntSet.{
  OrderedIntSet, get, get_idx, insert_tail, insert_at_idx, update_value, make_space,
}
use fapra_osm_routing.LabelData.HublEdges.{HublEdges, get_dest, get_dist}
use fapra_osm_routing.LabelData.HublNodes.{
  HublNodes, node_has_labels, get_edge_offset, get_edge, get_label_offset, get_label_node,
  get_label_edge, get_label_dist,
}

-- The four lists of one side of the router. The cells at an index belong together.
pub record TempLabels : Type 0 where
  pub label : OrderedIntSet
  pub dist : OrderedIntSet
  pub edge : OrderedIntSet
  pub add_info : OrderedIntSet

-- The state of calcTempLabels.
pub record Search : Type 0 where
  pub heap : DistanceHeap
  pub label_heap : DistanceHeap
  pub labels : TempLabels
  pub max_num_of_labels : Word32

-- The first entry of the search.
insert_first : TempLabels → Word32 → Run TempLabels
insert_first l node_id = do
  label ← insert_tail l.label node_id
  dist ← insert_tail l.dist 0
  edge ← insert_tail l.edge minus_one
  add_info ← insert_tail l.add_info minus_one
  ok (record { label = label; dist = dist; edge = edge; add_info = add_info })

pub insert_entry : TempLabels → Word32 → Word32 → Word32 → Word32 → ℕ → Run TempLabels
insert_entry l node distance edge_id info idx = do
  label ← insert_at_idx l.label node idx
  dist ← insert_at_idx l.dist distance idx
  edge ← insert_at_idx l.edge edge_id idx
  add_info ← insert_at_idx l.add_info info idx
  ok (record { label = label; dist = dist; edge = edge; add_info = add_info })

pub update_entry : TempLabels → Word32 → Word32 → Word32 → ℕ → Run TempLabels
update_entry l distance edge_id info idx = do
  dist ← update_value l.dist distance idx
  edge ← update_value l.edge edge_id idx
  add_info ← update_value l.add_info info idx
  ok (record l { dist = dist; edge = edge; add_info = add_info })

-- `(labelNode * (-1)) - 2`, and the way back, `(info + 2) * (-1)`.
pub node_info : Word32 → Word32
node_info label_node = (8589934590 - label_node) % 4294967296

pub info_node : Word32 → Word32
info_node info = (4294967296 - add_int info 2) % 4294967296

-- A negative sum of label counts makes no space.
pub space : Word32 → ℕ
space max_num_of_labels = if lt_int max_num_of_labels 0 then 0 else max_num_of_labels

module _ (n : HublNodes) (e : HublEdges) where
  queue_node : Search → Word32 → Word32 → Run Search
  queue_node s node distance = do
    heap ← DistanceHeap.add s.heap node distance
    ok (record s { heap = heap })

  queue_label : Search → Word32 → Word32 → Run Search
  queue_label s node distance = do
    label_heap ← DistanceHeap.add s.label_heap node distance
    ok (record s { label_heap = label_heap })

  -- The labels of the node may have to be added in the end.
  count_labels : Search → Word32 → Run Search
  count_labels s node = do
    stop ← get_label_offset n (node + 1)
    start ← get_label_offset n node
    ok (record s {
      max_num_of_labels = (s.max_num_of_labels + stop + (4294967296 - start)) % 4294967296;
    })

  -- What the search does with an edge, whose destination is at the position in the labels.
  relax : Word32 → Word32 → Word32 → Word32 → Word32 → Search → Position → Run Search
  unfolding queue_node queue_label count_labels insert_entry update_entry
  relax curr_node curr_dist edge_id dest_node edge_dist s (missing i) = do
    let initial_dist = add_int curr_dist edge_dist
    has_labels ← node_has_labels n dest_node
    queued ←
        (if has_labels
          then (queue_label s dest_node initial_dist >>= λ t. count_labels t dest_node)
          else queue_node s dest_node initial_dist)
    labels ← insert_entry queued.labels dest_node initial_dist edge_id curr_node i
    ok (record queued { labels = labels })
  relax curr_node curr_dist edge_id dest_node edge_dist s (found i) = do
    prev_dist ← get s.labels.dist i
    let new_dist = add_int curr_dist edge_dist
    let closer = node_has_labels n dest_node >>= λ has_labels.
        (if has_labels then queue_label s dest_node new_dist else queue_node s dest_node new_dist)
        >>= λ queued. update_entry queued.labels new_dist edge_id curr_node i >>= λ labels.
            ok (record queued { labels = labels })
    if lt_int new_dist prev_dist then closer else ok s

  -- The `for` loop over the edges of a node: the number of edges left, and the index.
  relax_edges : ℕ → ℕ → Word32 → Word32 → Search → Run Search
  unfolding relax
  relax_edges zero i curr_node curr_dist s = ok s
  relax_edges (suc left) i curr_node curr_dist s = do
    edge_id ← get_edge n i
    dest_node ← get_dest e edge_id
    edge_dist ← get_dist e edge_id
    insert_idx ← get_idx s.labels.label dest_node
    t ← relax curr_node curr_dist edge_id dest_node edge_dist s insert_idx
    relax_edges left (i + 1) curr_node curr_dist t

  -- The distance of a node that has an entry.
  dist_of : TempLabels → Word32 → Run Word32
  dist_of l node = do position ← get_idx l.label node; idx ← index_of position; get l.dist idx

  search_edges : ℕ → Search → Run Search
  unfolding relax_edges dist_of
  search_edges zero s = out_of_fuel
  search_edges (suc fuel) s =
      let round = do
        (curr_node, heap) ← get_next s.heap
        curr_dist ← dist_of s.labels curr_node
        start ← get_edge_offset n curr_node
        stop ← get_edge_offset n (curr_node + 1)
        t ← relax_edges (stop - start) start curr_node curr_dist (record s { heap = heap })
        search_edges fuel t
      in if DistanceHeap.is_empty s.heap then ok s else round

  -- What is done with a label of a node, which is at the position in the labels.
  merge_label : Word32 → Word32 → ℕ → Word32 → TempLabels → Position → Run TempLabels
  unfolding insert_entry update_entry
  merge_label label_node node_dist curr_idx curr_label_node l (missing i) = do
    label_dist ← get_label_dist n curr_idx
    label_edge ← get_label_edge n curr_idx
    insert_entry l curr_label_node (add_int node_dist label_dist) label_edge (node_info label_node)
        i
  merge_label label_node node_dist curr_idx curr_label_node l (found i) = do
    label_dist ← get_label_dist n curr_idx
    let new_distance = add_int node_dist label_dist
    old_distance ← get l.dist i
    let closer = get_label_edge n curr_idx >>= λ label_edge.
        update_entry l new_distance label_edge (node_info label_node) i
    if lt_int new_distance old_distance then closer else ok l

  -- The `for` loop over the labels of a node: the number of labels left, and the index.
  merge_labels : ℕ → ℕ → Word32 → Word32 → TempLabels → Run TempLabels
  unfolding merge_label
  merge_labels zero i label_node node_dist l = ok l
  merge_labels (suc left) i label_node node_dist l = do
    curr_label_node ← get_label_node n i
    position ← get_idx l.label curr_label_node
    m ← merge_label label_node node_dist i curr_label_node l position
    merge_labels left (i + 1) label_node node_dist m

  search_labels : ℕ → Search → Run Search
  unfolding merge_labels dist_of
  search_labels zero s = out_of_fuel
  search_labels (suc fuel) s =
      let round = do
        (label_node, label_heap) ← get_next s.label_heap
        node_dist ← dist_of s.labels label_node
        stop ← get_label_offset n (label_node + 1)
        start ← get_label_offset n label_node
        labels ← merge_labels (stop - start) start label_node node_dist s.labels
        search_labels fuel (record s { label_heap = label_heap; labels = labels })
      in if DistanceHeap.is_empty s.label_heap then ok s else round

  make_spaces : TempLabels → Word32 → TempLabels
  make_spaces l k = record {
    label = make_space l.label (space k);
    dist = make_space l.dist (space k);
    edge = make_space l.edge (space k);
    add_info = make_space l.add_info (space k);
  }

  -- Both heaps and the lists of one side; the fuel is that of either loop.
  pub calc_temp_labels : ℕ → DistanceHeap → DistanceHeap → TempLabels → Word32 → Run Search
  unfolding insert_first search_edges search_labels make_spaces
  calc_temp_labels fuel heap label_heap labels node_id = do
    first ← insert_first labels node_id
    queued ← DistanceHeap.add (DistanceHeap.reset heap) node_id 0
    found_all ← search_edges fuel (record {
      heap = queued;
      label_heap = DistanceHeap.reset label_heap;
      labels = first;
      max_num_of_labels = 0;
    })
    search_labels fuel
        (record found_all { labels = make_spaces found_all.labels found_all.max_num_of_labels })

-- The `while` loop of addEdges, from the node down to where the search began.
collect_edges : ℕ → TempLabels → Word32 → Word32 → IntStack → Run IntStack
collect_edges zero l node_id stop_id tmp_stack = out_of_fuel
collect_edges (suc fuel) l node_id stop_id tmp_stack =
    let round = do
      position ← get_idx l.label node_id
      node_idx ← index_of position
      edge_id ← get l.edge node_idx
      pushed ← push tmp_stack edge_id
      next ← get l.add_info node_idx
      collect_edges fuel l next stop_id pushed
    in if node_id == stop_id then ok tmp_stack else round

-- `while (!tmpStack.isEmpty()) resultStack.push(tmpStack.popFifo())`
move_all : ℕ → IntStack → IntStack → Run IntStack
move_all zero from to = out_of_fuel
move_all (suc fuel) from to =
    let round = do (x, rest) ← pop_fifo from; pushed ← push to x; move_all fuel rest pushed
    in if IntStack.is_empty from then ok to else round

pub add_edges : ℕ → TempLabels → IntStack → Word32 → Word32 → Run IntStack
unfolding collect_edges move_all
add_edges fuel l result_stack node_id stop_id = do
  tmp_stack ← collect_edges fuel l node_id stop_id (IntStack.new 20)
  move_all fuel tmp_stack result_stack
