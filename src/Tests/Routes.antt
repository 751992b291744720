-- ===== src/Tests/Routes.antt =====
-- Runs of the router on the graph of World.
use fapra_osm_routing.Prelude.{
  Bool, true, false, ◌≢◌, out_of_fuel, Word32, refl, [], ◌∷◌, true, minus_one, ok, ◌>>=◌, Returns,
  arith,
}
use fapra_osm_routing.Utils.IntStack
use fapra_osm_routing.Utils.IntStack.Deque
use fapra_osm_routing.Creation.Edges.{add_shortcut_edge}
use fapra_osm_routing.Creation.Edges.Shortcuts.{Added, add_shortcut_edge-Added}
use fapra_osm_routing.LabelData.HublEdges.{initialize}
use fapra_osm_routing.LabelData.HublEdges.Initialize.{Agrees, initialize-Agrees}
use fapra_osm_routing.LabelData.HublEdges.Shortcuts.{add_all, IsCopy, initialize-add_shortcut_edge}
use fapra_osm_routing.Router.BestLabel.{best_common_label}
use fapra_osm_routing.Router.BestLabel.Least.{IsBest, best_common_label-IsBest}
use fapra_osm_routing.Router.Unpack.{calculate_route}
use fapra_osm_routing.Router.Unpack.Layers.{calculate_route-initialize}
use fapra_osm_routing.Router.Unpack.Route.{Held, calculate_route-Held}
use fapra_osm_routing.Router.TwoLabels.{label_side, get_edges, route_2_lbl}
use fapra_osm_routing.Router.TwoLabels.Climb.{labels_of, get_edges-Holds}
use fapra_osm_routing.Router.TwoLabels.Shortest.{Result, route_2_lbl-Shortest}
use fapra_osm_routing.LabelData.HublNodes.{node_has_labels}
use fapra_osm_routing.Utils.DistanceHeap.{DistanceHeap, add, get_next}
use fapra_osm_routing.Utils.DistanceHeap.Ends.{heap_calls-Ends}
use fapra_osm_routing.Utils.OrderedIntSet
use fapra_osm_routing.Utils.OrderedIntSet.{OrderedIntSet, get, get_idx}
use fapra_osm_routing.Utils.OrderedIntSet.Sequence
use fapra_osm_routing.Router.General
use fapra_osm_routing.Router.General.{route_general}
use fapra_osm_routing.Router.General.Labelled.{new-CanGrow, route_general-Shortest}
use fapra_osm_routing.Router.TempLabels.{TempLabels, add_edges, insert_entry}
use fapra_osm_routing.Router.TempLabels.Order.{Descends, bottom, down, add_edges-Holds}
use fapra_osm_routing.Router.TempLabels.Rows.{Row, Aligned, insert_entry-Aligned}
use fapra_osm_routing.Search.{binary_search, search_between, search_loop}
use fapra_osm_routing.Tests.World.{
  to_2, to_0, one_shortcut, one_shortcut-Holds, edges, all_4, empty_stack, empty_stack-Holds,
  left_4, stacks, stacks-Held, stacks_4-Held, labels, labels_0, labels_2, Climbs-4, Leads-0,
  Leads-2,
}

add_shortcut_edge-Added_example :
    Returns (Added one_shortcut (to_2 ∷ []) to_0) (add_shortcut_edge one_shortcut 2 0 12 1 3)
add_shortcut_edge-Added_example = add_shortcut_edge-Added to_0 one_shortcut-Holds

initialize-Agrees_example : Returns (Agrees one_shortcut) (initialize one_shortcut)
initialize-Agrees_example = initialize-Agrees one_shortcut (to_2 ∷ []) one_shortcut-Holds

initialize-add_shortcut_edge_example :
    Returns
      (λ (i, r). IsCopy to_0 i r)
      (do
        (i, added) ← add_shortcut_edge one_shortcut 2 0 12 1 3
        all ← add_all (to_2 ∷ []) added
        r ← initialize all
        ok (i, r))
initialize-add_shortcut_edge_example =
    initialize-add_shortcut_edge to_0 (to_2 ∷ []) one_shortcut-Holds

calculate_route-initialize_example :
    Returns
      (λ t. Held t [] [] (0 ∷ 1 ∷ 2 ∷ []))
      (initialize one_shortcut >>= λ r.
        calculate_route r 6 0 2 (record stacks { edges_left = left_4 }))
calculate_route-initialize_example =
    calculate_route-initialize one_shortcut (to_2 ∷ []) 0 2 (4 ∷ []) [] 6
      (record stacks { edges_left = left_4 }) one_shortcut-Holds (omega arith, omega arith, tt)
      (omega arith, tt) tt (omega arith) (omega arith) (omega arith) (omega arith) stacks_4-Held

calculate_route-Held_example :
    Returns
      (λ t. Held t [] [] (0 ∷ 1 ∷ 2 ∷ []))
      (calculate_route edges 6 0 2 (record stacks { edges_left = left_4 }))
calculate_route-Held_example =
    calculate_route-Held edges 0 2 (4 ∷ []) [] (0 ∷ 2 ∷ []) [] 6
      (record stacks { edges_left = left_4 }) all_4 refl (omega arith) tt (omega arith)
      (omega arith) (omega arith) (omega arith) stacks_4-Held

best_common_label-IsBest_example :
    Returns
      (IsBest (labels_of labels_0) (labels_of labels_2))
      (best_common_label (label_side labels) (label_side labels) 2 6 0 5)
best_common_label-IsBest_example =
    best_common_label-IsBest (labels_of labels_0) (labels_of labels_2)

get_edges-Holds_example :
    Returns (λ t. IntStack.Deque.Holds t (4 ∷ [])) (get_edges labels edges 6 0 2 empty_stack)
get_edges-Holds_example = get_edges-Holds 6 [] Climbs-4 (omega arith) empty_stack-Holds

route_2_lbl-Shortest_example :
    Returns (Result labels edges 6 0 2 0 2 5 6) (route_2_lbl labels edges 6 0 2 stacks)
route_2_lbl-Shortest_example =
    route_2_lbl-Shortest labels edges 6 0 2 0 2 5 6 stacks labels_0 labels_2 Leads-0 Leads-2
      stacks-Held

route_general-Shortest_example :
    Returns
      (λ t. Result labels edges 6 0 2 0 2 5 6 (t.0, t.1.stacks))
      (route_general labels edges 6 0 2 General.new)
unfolding node_has_labels
route_general-Shortest_example =
    route_general-Shortest labels edges 6 0 2 0 2 5 6 General.new new-CanGrow refl refl labels_0
      labels_2 Leads-0 Leads-2

abbrev row_7 : Row
row_7 = record { node = 7; distance = 12; edge_id = 4; info = minus_one }

abbrev row_9 : Row
row_9 = record { node = 9; distance = 30; edge_id = 5; info = 7 }

-- One cell that is taken, and one that is free.
abbrev cells : Word32 → OrderedIntSet
cells x = record {
  ordered_by_sorting = false;
  elements = x ∷ 0 ∷ [];
  element_count = 1;
  size_increase = 1;
}

cells-Holds : (x : Word32) → OrderedIntSet.Sequence.Holds (cells x) (x ∷ [])
cells-Holds x = record {
  spare = 0 ∷ [];
  layout = (refl, refl);
  filled = λ e. absurd (ground arith);
  grows = omega arith;
}

abbrev temp_labels : TempLabels
temp_labels = record { label = cells 9; dist = cells 30; edge = cells 5; add_info = cells 7 }

insert_entry-Aligned_example :
    Returns (λ m. Aligned m (row_7 ∷ row_9 ∷ [])) (insert_entry temp_labels 7 12 4 minus_one 0)
insert_entry-Aligned_example =
    insert_entry-Aligned [] (row_9 ∷ []) row_7 0
      (record {
        labels = cells-Holds 9;
        dists = cells-Holds 30;
        edges = cells-Holds 5;
        infos = cells-Holds 7;
      })
      refl

abbrev heap : DistanceHeap
heap = record {
  size_increase = 1;
  contained_ids = 3 ∷ 8 ∷ [];
  distances = 20 ∷ 10 ∷ [];
  heap_position = 1 ∷ 0 ∷ [];
  id_heap_array = 8 ∷ 3 ∷ [];
  current_size = 2;
}

heap_calls-Ends_example : (add heap 5 7 ≢ out_of_fuel) × (get_next heap ≢ out_of_fuel)
heap_calls-Ends_example = heap_calls-Ends heap 5 7

-- The nodes 3, 5 and 8, of which 3 is the one that the labels are made for.
abbrev three_cells : Word32 → Word32 → Word32 → Bool → OrderedIntSet
three_cells x y z ordered = record {
  ordered_by_sorting = ordered;
  elements = x ∷ y ∷ z ∷ [];
  element_count = 3;
  size_increase = 1;
}

abbrev chain : TempLabels
chain = record {
  label = three_cells 3 5 8 true;
  dist = three_cells 0 10 25 false;
  edge = three_cells minus_one 40 41 false;
  add_info = three_cells minus_one 3 5 false;
}

chain-Descends : Descends chain 3 8 (41 ∷ 40 ∷ [])
unfolding get_idx get binary_search search_between search_loop
chain-Descends =
    down 2 41 5 (λ e. absurd (omega arith)) refl refl refl
      (down 1 40 3 (λ e. absurd (omega arith)) refl refl refl (bottom refl))

add_edges-Holds_example :
    Returns (λ t. IntStack.Deque.Holds t (41 ∷ 40 ∷ [])) (add_edges 3 chain empty_stack 8 3)
add_edges-Holds_example = add_edges-Holds 3 [] chain-Descends (omega arith) empty_stack-Holds
