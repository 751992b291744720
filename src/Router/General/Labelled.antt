-- ===== src/Router/General/Labelled.antt =====
-- The route between two nodes with labels, from any state that an earlier request left.
use fapra_osm_routing.Prelude.{
  arith, ℕ, ◌<◌, ◌≤◌, ◌≡◌, [], true, ok, Returns, Returns-bind, returns,
}
use fapra_osm_routing.Utils.IntStack.Deque.{cleared-Holds, new-Holds}
use fapra_osm_routing.LabelData.HublEdges.{HublEdges}
use fapra_osm_routing.LabelData.HublNodes.{HublNodes, node_has_labels}
use fapra_osm_routing.Router.Unpack.Route.{Held}
use fapra_osm_routing.Router.TwoLabels.Climb.{HasLabels}
use fapra_osm_routing.Router.TwoLabels.Shortest.{Leads, node_at, Result, route_2_lbl-Shortest}
use fapra_osm_routing.Router.General.{HublRouter, new, reset, labelled, route_general}

-- Each stack of the router can grow.
pub record CanGrow (r : HublRouter) : Type 0 where
  pub result_nodes : 0 < r.stacks.result_nodes.size_increase
  pub edges_left : 0 < r.stacks.edges_left.size_increase
  pub edges_right : 0 < r.stacks.edges_right.size_increase
  pub edge_calc_stack : 0 < r.stacks.edge_calc_stack.size_increase

pub new-CanGrow : CanGrow new
unfolding new
new-CanGrow = record {
  result_nodes = (new-Holds 5000 (omega arith)).grows;
  edges_left = (new-Holds 500 (omega arith)).grows;
  edges_right = (new-Holds 500 (omega arith)).grows;
  edge_calc_stack = (new-Holds 10 (omega arith)).grows;
}

reset-Held : (r : HublRouter) → CanGrow r → Held (reset r).stacks [] [] []
unfolding reset
reset-Held r g = record {
  on_left = cleared-Holds r.stacks.edges_left g.edges_left;
  on_right = cleared-Holds r.stacks.edges_right g.edges_right;
  on_result = cleared-Holds r.stacks.result_nodes g.result_nodes;
  on_calc = cleared-Holds r.stacks.edge_calc_stack g.edge_calc_stack;
}

module _ (n : HublNodes) (e : HublEdges) (fuel start_id dest_id a₀ a₁ b₀ b₁ : ℕ) where
  -- From any state of the router whose stacks can grow, for two nodes of levels with labels, under
  -- the conditions of route_2_lbl-Shortest on the labels, their edges and the fuel, routeGeneral
  -- returns the route over the common label of least distance, as route_2_lbl-Shortest states it,
  -- or no route where the nodes have no label in common; the stacks are empty again.
  pub route_general-Shortest :
      (r : HublRouter)
      → CanGrow r
      → node_has_labels n start_id ≡ ok true
      → node_has_labels n dest_id ≡ ok true
      → HasLabels n start_id a₀ a₁
      → HasLabels n dest_id b₀ b₁
      → ((i : ℕ) → a₀ ≤ i → i < a₁ → Leads n e fuel start_id (node_at n i))
      → ((j : ℕ) → b₀ ≤ j → j < b₁ → Leads n e fuel dest_id (node_at n j))
      → Returns
          (λ t. Result n e fuel start_id dest_id a₀ a₁ b₀ b₁ (t.0, t.1.stacks))
          (route_general n e fuel start_id dest_id r)
  unfolding route_general labelled
  route_general-Shortest r g has has' la lb reach_a reach_b =
      rw (has, has')
        (Returns-bind
          (route_2_lbl-Shortest n e fuel start_id dest_id a₀ a₁ b₀ b₁ (reset r).stacks la lb reach_a
            reach_b (reset-Held r g))
          λ t result. returns result)
