-- ===== src/Router/General.antt =====
-- router/HubLRouter.java: the router, its reset, and the four kinds of route.
pub mod Labelled
use fapra_osm_routing.Prelude.{
  ℕ, ◌+◌, Word32, max_value, minus_one, lt_int, Bool, true, false, Option, none, some, Run, ok,
  ◌>>=◌, ◌==◌, ◌&&◌, ◌||◌, not, if◌then◌else◌,
}
use fapra_osm_routing.Search.{index_of}
use fapra_osm_routing.Utils.IntStack
use fapra_osm_routing.Utils.IntStack.{IntStack, push}
use fapra_osm_routing.Utils.DistanceHeap
use fapra_osm_routing.Utils.DistanceHeap.{DistanceHeap}
use fapra_osm_routing.Utils.OrderedIntSet
use fapra_osm_routing.Utils.OrderedIntSet.{OrderedIntSet, get, insert_tail, size}
use fapra_osm_routing.LabelData.HublEdges.{HublEdges, get_dest}
use fapra_osm_routing.LabelData.HublNodes.{HublNodes, node_has_labels, get_label_offset}
use fapra_osm_routing.Router.BestLabel.{Side, Meet, Best, best_common_label}
use fapra_osm_routing.Router.Unpack.{Stacks, calculate_route}
use fapra_osm_routing.Router.TempLabels.{TempLabels, Search, calc_temp_labels, add_edges, info_node}
use fapra_osm_routing.Router.TwoLabels.{
  RoutingResult, no_route, label_side, get_edges, side_edges, drain, route_2_lbl,
}

pub record HublRouter : Type 0 where
  pub heap : DistanceHeap
  pub label_heap : DistanceHeap
  pub stacks : Stacks
  pub left : TempLabels
  pub right : TempLabels

new_side : TempLabels
new_side = record {
  label = OrderedIntSet.new true 1000 1000;
  dist = OrderedIntSet.new false 1000 1000;
  edge = OrderedIntSet.new false 1000 1000;
  add_info = OrderedIntSet.new false 1000 1000;
}

-- The constructor.
pub new : HublRouter
unfolding new_side
new = record {
  heap = DistanceHeap.new 1000 1000;
  label_heap = DistanceHeap.new 1000 1000;
  stacks = record {
    result_nodes = IntStack.new 5000;
    edges_left = IntStack.new 500;
    edges_right = IntStack.new 500;
    edge_calc_stack = IntStack.new 10;
  };
  left = new_side;
  right = new_side;
}

reset_side : TempLabels → TempLabels
reset_side l = record {
  label = OrderedIntSet.clear l.label;
  dist = OrderedIntSet.clear l.dist;
  edge = OrderedIntSet.clear l.edge;
  add_info = OrderedIntSet.clear l.add_info;
}

-- The heap of the labels stays; calcTempLabels resets it.
pub reset : HublRouter → HublRouter
unfolding reset_side
reset r = record {
  heap = DistanceHeap.reset r.heap;
  label_heap = r.label_heap;
  stacks = record {
    result_nodes = IntStack.clear r.stacks.result_nodes;
    edges_left = IntStack.clear r.stacks.edges_left;
    edges_right = IntStack.clear r.stacks.edges_right;
    edge_calc_stack = IntStack.clear r.stacks.edge_calc_stack;
  };
  left = reset_side r.left;
  right = reset_side r.right;
}

-- The temporary labels as a side of the merge.
abbrev pub temp_side : TempLabels → Side
temp_side l = record { node = get l.label; dist = get l.dist }

-- The dummy label behind the others.
with_dummy : TempLabels → Run TempLabels
with_dummy l = do label ← insert_tail l.label max_value; ok (record l { label = label })

module _ (n : HublNodes) (e : HublEdges) (fuel : ℕ) where
  -- The edges of a side with temporary labels, up to the label at the index `idx`.
  temp_side_edges : TempLabels → Word32 → Word32 → ℕ → IntStack → Run IntStack
  temp_side_edges l stop_id highest idx s = do
    info ← get l.add_info idx
    let over_node = add_edges fuel l s (info_node info) stop_id >>= λ added.
        get l.edge idx >>= λ first_edge. push added first_edge >>= λ pushed.
        get_dest e first_edge >>= λ next. get_edges n e fuel next highest pushed
    let over_edges = add_edges fuel l s info stop_id
    if lt_int info minus_one then over_node else if info == minus_one then ok s else over_edges

  -- calculateRoute, and the path from the nodes that it leaves.
  finish : ℕ → ℕ → Word32 → HublRouter → Run (RoutingResult × HublRouter)
  finish start_id dest_id distance r = do
    t ← calculate_route e fuel start_id dest_id r.stacks
    (path, drained) ← drain fuel t.result_nodes
    ok (
      record { path = path; overall_distance = distance; route_found = true },
      record r { stacks = record t { result_nodes = drained } },
    )

  -- The end of the three routes, behind the merge: the edges of both sides in the given order.
  over_best :
      HublRouter
      → Best
      → (Meet → Word32 → Run (RoutingResult × HublRouter))
      → Run (RoutingResult × HublRouter)
  over_best r best path = elim best.meet [
    | none ↦ ok (no_route, r)
    | some m ↦ if m.node == minus_one then ok (no_route, r) else path m best.distance
  ]

  with_edges : HublRouter → IntStack → IntStack → HublRouter
  with_edges r left right = record r {
    stacks = record r.stacks { edges_left = left; edges_right = right };
  }

  pub route_left_lbl : ℕ → ℕ → HublRouter → Run (RoutingResult × HublRouter)
  unfolding temp_side_edges finish over_best with_edges with_dummy
  route_left_lbl start_id dest_id r = do
    found ← calc_temp_labels n e fuel r.heap r.label_heap r.right dest_id
    let s = record r { heap = found.heap; label_heap = found.label_heap; right = found.labels }
    left_idx ← get_label_offset n start_id
    left_max_idx ← get_label_offset n (start_id + 1)
    let right_size = size s.right.label
    if left_idx == left_max_idx || right_size == 0 then ok (no_route, s) else do
      right ← with_dummy s.right
      let t = record s { right = right }
      best ← best_common_label (label_side n) (temp_side right) left_max_idx right_size left_idx 0
      over_best t best λ m distance.
          side_edges n e fuel start_id m.node m.idx_a t.stacks.edges_left >>= λ left_edges.
          temp_side_edges right dest_id m.node m.idx_b t.stacks.edges_right >>= λ right_edges.
          finish start_id dest_id distance (with_edges t left_edges right_edges)

  pub route_right_lbl : ℕ → ℕ → HublRouter → Run (RoutingResult × HublRouter)
  unfolding temp_side_edges finish over_best with_edges with_dummy
  route_right_lbl start_id dest_id r = do
    found ← calc_temp_labels n e fuel r.heap r.label_heap r.left start_id
    let s = record r { heap = found.heap; label_heap = found.label_heap; left = found.labels }
    right_idx ← get_label_offset n dest_id
    right_max_idx ← get_label_offset n (dest_id + 1)
    let left_size = size s.left.label
    if right_idx == right_max_idx || left_size == 0 then ok (no_route, s) else do
      left ← with_dummy s.left
      let t = record s { left = left }
      best ← best_common_label (label_side n) (temp_side left) right_max_idx left_size right_idx 0
      over_best t best λ m distance.
          side_edges n e fuel dest_id m.node m.idx_a t.stacks.edges_right >>= λ right_edges.
          temp_side_edges left start_id m.node m.idx_b t.stacks.edges_left >>= λ left_edges.
          finish start_id dest_id distance (with_edges t left_edges right_edges)

  pub route_0_lbl : ℕ → ℕ → HublRouter → Run (RoutingResult × HublRouter)
  unfolding temp_side_edges finish over_best with_edges with_dummy
  route_0_lbl start_id dest_id r = do
    found_left ← calc_temp_labels n e fuel r.heap r.label_heap r.left start_id
    found ← calc_temp_labels n e fuel found_left.heap found_left.label_heap r.right dest_id
    let s = record r {
      heap = found.heap;
      label_heap = found.label_heap;
      left = found_left.labels;
      right = found.labels;
    }
    let left_size = size s.left.label
    let right_size = size s.right.label
    if left_size == 0 || right_size == 0 then ok (no_route, s) else do
      left ← with_dummy s.left
      right ← with_dummy s.right
      let t = record s { left = left; right = right }
      best ← best_common_label (temp_side left) (temp_side right) left_size right_size 0 0
      over_best t best λ m distance.
          temp_side_edges left start_id m.node m.idx_a t.stacks.edges_left >>= λ left_edges.
          temp_side_edges right dest_id m.node m.idx_b t.stacks.edges_right >>= λ right_edges.
          finish start_id dest_id distance (with_edges t left_edges right_edges)

  -- The route of two nodes with labels, on the router's stacks.
  labelled : ℕ → ℕ → HublRouter → Run (RoutingResult × HublRouter)
  labelled start_id dest_id r = do
    (result, stacks) ← route_2_lbl n e fuel start_id dest_id r.stacks
    ok (result, record r { stacks = stacks })

  pub route_general : ℕ → ℕ → HublRouter → Run (RoutingResult × HublRouter)
  unfolding reset labelled route_left_lbl route_right_lbl route_0_lbl
  route_general start_node_idx dest_node_idx router = do
    let r = reset router
    start_has_labels ← node_has_labels n start_node_idx
    dest_has_labels ← node_has_labels n dest_node_idx
    (if start_has_labels && dest_has_labels
        then labelled start_node_idx dest_node_idx r
        else if not start_has_labels && not dest_has_labels
        then route_0_lbl start_node_idx dest_node_idx r
        else if start_has_labels
        then route_left_lbl start_node_idx dest_node_idx r
        else route_right_lbl start_node_idx dest_node_idx r)
