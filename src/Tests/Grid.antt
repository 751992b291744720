-- ===== src/Tests/Grid.antt =====
-- Runs of the changes of DynamicGrid on the edges of World.
use fapra_osm_routing.Prelude.{List, [], ◌∷◌, map, some, Word32, refl, arith, Returns, ℕ}
use fapra_osm_routing.Creation.Edges.{get_dest}
use fapra_osm_routing.Creation.DynamicGrid.{DynamicGrid, add_edge, remove_backwards_edge}
use fapra_osm_routing.Creation.DynamicGrid.Changes.{
  HasRow, HasEdges, SameElsewhere, add_edge-HasEdges,
}
use fapra_osm_routing.Creation.DynamicGrid.Removal.{remove_backwards_edge-HasEdges}
use fapra_osm_routing.Tests.World.{one_shortcut}

-- Two parallel edges lead from the node 1 to the node 2.
abbrev rows : List (List Word32)
rows = (0 ∷ []) ∷ (2 ∷ 1 ∷ 2 ∷ []) ∷ (3 ∷ []) ∷ []

abbrev counts : List ℕ
counts = 1 ∷ 3 ∷ 1 ∷ []

abbrev grid : DynamicGrid
grid = record {
  current_edge_ids = map some rows;
  current_edge_count = counts;
  all_edge_ids = map some rows;
  all_edge_count = counts;
}

row_1 : HasRow (map some rows) counts 1 (2 ∷ 1 ∷ 2 ∷ [])
row_1 = record {
  array = 2 ∷ 1 ∷ 2 ∷ [];
  count = 3;
  row = refl;
  counted = refl;
  buffer = record { spare = []; stored = refl; counted = refl };
  can_grow = omega arith;
}

grid-HasEdges : HasEdges grid 1 (2 ∷ 1 ∷ 2 ∷ []) (2 ∷ 1 ∷ 2 ∷ [])
grid-HasEdges = record { current_row = row_1; all_row = row_1 }

add_edge-HasEdges_example :
    Returns
      (λ g. HasEdges g 1 (2 ∷ 1 ∷ 2 ∷ 5 ∷ []) (2 ∷ 1 ∷ 2 ∷ 5 ∷ []) × SameElsewhere 1 grid g)
      (add_edge grid 1 5)
add_edge-HasEdges_example = add_edge-HasEdges 5 grid-HasEdges

remove_backwards_edge-HasEdges_example :
    Returns
      (λ g. HasEdges g 1 (2 ∷ 2 ∷ []) (2 ∷ 1 ∷ 2 ∷ []) × SameElsewhere 1 grid g)
      (remove_backwards_edge one_shortcut 0 1 grid)
unfolding get_dest
remove_backwards_edge-HasEdges_example =
    remove_backwards_edge-HasEdges one_shortcut 0 (2 ∷ []) 1 (2 ∷ []) grid-HasEdges
      ((2, refl, (λ e. cc)), tt) refl
