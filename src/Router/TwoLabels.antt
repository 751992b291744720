-- ===== src/Router/TwoLabels.antt =====
-- route2Lbl of router/HubLRouter.java: a route between two nodes that both have labels.
pub mod Climb
pub mod Shortest
use fapra_osm_routing.Prelude.{
  ℕ, zero, suc, ◌+◌, List, [], ◌∷◌, Word32, Bool, true, false, none, some, Run, ok, throw,
  index_out_of_bounds, out_of_fuel, ◌>>=◌, ◌==◌, ◌||◌, minus_one, Option, if◌then◌else◌,
}
use fapra_osm_routing.Utils.IntStack.{IntStack, push, pop_fifo, is_empty}
use fapra_osm_routing.Search.{index_of, search_range}
use fapra_osm_routing.LabelData.HublEdges.{HublEdges, get_dest}
use fapra_osm_routing.LabelData.HublNodes.{
  HublNodes, get_label_node, get_label_edge, get_label_dist, get_label_offset,
}
use fapra_osm_routing.Router.BestLabel.{Meet, Best, Side, best_common_label}
use fapra_osm_routing.Router.Unpack.{Stacks, calculate_route}

-- router/RoutingResult.java, without the time and the coordinates, which are doubles.
pub record RoutingResult : Type 0 where
  pub path : List Word32
  pub overall_distance : Word32
  pub route_found : Bool

-- RoutingResult(): no route was found.
abbrev pub no_route : RoutingResult
no_route = record { path = []; overall_distance = 0; route_found = false }

-- Arrays.binarySearch over the labels, and its result as an index.
pub find_label : HublNodes → ℕ → ℕ → Word32 → Run ℕ
find_label n from to node = search_range n.label_node from to node >>= index_of

module _ (n : HublNodes) (e : HublEdges) where
  unfoldable pub get_edges : ℕ → ℕ → Word32 → IntStack → Run IntStack
  unfolding find_label
  get_edges zero current highest edge_stack = out_of_fuel
  get_edges (suc fuel) current highest edge_stack =
      let round = do
        start_idx ← get_label_offset n current
        end_idx ← get_label_offset n (current + 1)
        label_idx ← find_label n start_idx end_idx highest
        edge_id ← get_label_edge n label_idx
        next ← get_dest e edge_id
        pushed ← push edge_stack edge_id
        get_edges fuel next highest pushed
      in if current == highest then ok edge_stack else round

  -- One side of the path, from `node` up to the common label at the index `idx`.
  pub side_edges : ℕ → ℕ → Word32 → ℕ → IntStack → Run IntStack
  side_edges fuel node highest idx edge_stack =
      let climb = do
        next_edge ← get_label_edge n idx
        next_node ← get_dest e next_edge
        pushed ← push edge_stack next_edge
        get_edges fuel next_node highest pushed
      in if node == highest then ok edge_stack else climb

-- The labels of a node: both its sides read the same arrays.
abbrev pub label_side : HublNodes → Side
label_side n = record { node = get_label_node n; dist = get_label_dist n }

-- `while (!resultNodes.isEmpty()) path.add(resultNodes.popFifo())`
pub drain : ℕ → IntStack → Run (List Word32 × IntStack)
drain zero s = out_of_fuel
drain (suc fuel) s =
    let round = do (x, t) ← pop_fifo s; (xs, u) ← drain fuel t; ok (x ∷ xs, u)
    in if is_empty s then ok ([], s) else round

module _ (n : HublNodes) (e : HublEdges) (fuel : ℕ) (start_id dest_id : ℕ) (s : Stacks) where
  -- The path over the common label that was found.
  pub path_over : Meet → Word32 → Run (RoutingResult × Stacks)
  path_over m distance = do
    right ← side_edges n e fuel dest_id m.node m.idx_b s.edges_right
    left ← side_edges n e fuel start_id m.node m.idx_a s.edges_left
    t ←
        calculate_route e fuel start_id dest_id
          (record s { edges_right = right; edges_left = left })
    (path, drained) ← drain fuel t.result_nodes
    ok (
      record { path = path; overall_distance = distance; route_found = true },
      record t { result_nodes = drained },
    )

  -- `if(highestLvlNode == -1)`, after the loop.
  abbrev pub over_meet : Option Meet → Word32 → Run (RoutingResult × Stacks)
  over_meet none distance = ok (no_route, s)
  over_meet (some m) distance =
      if m.node == minus_one then ok (no_route, s) else path_over m distance

  pub route_2_lbl : Run (RoutingResult × Stacks)
  unfolding path_over side_edges drain
  route_2_lbl = do
    start_a ← get_label_offset n start_id
    start_b ← get_label_offset n dest_id
    end_a ← get_label_offset n (start_id + 1)
    end_b ← get_label_offset n (dest_id + 1)
    if start_a == end_a || start_b == end_b then ok (no_route, s) else do
      best ← best_common_label (label_side n) (label_side n) end_a end_b start_a start_b
      over_meet best.meet best.distance
