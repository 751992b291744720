-- ===== src/Tests/LabelInfo.antt =====
-- The finished labels of the graph of `HlDijkstra`, as the router gets them.
use fapra_osm_routing.Prelude.{
  ◌==◌, ◌+◌, All, ℕ, zero, suc, ◌<◌, ◌≡◌, refl, inl, inr, List, [], ◌∷◌, Word32, some, minus_one,
  ok, load, Run, lt_int, false, Returns, arith,
}
use fapra_osm_routing.Prelude.Members.{Has}
use fapra_osm_routing.Creation.Nodes.{get_node_lvl}
use fapra_osm_routing.Creation.Edges.{get_dest, get_dist}
use fapra_osm_routing.Creation.DynamicGrid.{get_all_edges, get_all_edge_count}
use fapra_osm_routing.Creation.Labels.{Labels, get_labels}
use fapra_osm_routing.Creation.Labels
use fapra_osm_routing.Creation.HlDijkstra.Rows.{Row, own_row}
use fapra_osm_routing.Creation.HlDijkstra.Walks.{Step, Leaves, stay, IsLabelling}
use fapra_osm_routing.Creation.HlDijkstra.Walks
use fapra_osm_routing.LabelData.HublNodes.{HublNodes}
use fapra_osm_routing.LabelData.HublNodes.LabelInfo.{init_label_info}
use fapra_osm_routing.LabelData.HublNodes.LabelInfo.Routable.{HasCells, init_label_info-HasLabels}
use fapra_osm_routing.LabelData.HublNodes.EdgeInfo.{keep_loop}
use fapra_osm_routing.LabelData.HublNodes.EdgeInfo.Higher.{Decides, IsKept, keep_loop-higher}
use fapra_osm_routing.Router.TwoLabels.Climb.{HasLabels}
use fapra_osm_routing.Tests.HlDijkstra.{graph, levels, grid}

abbrev finished : Labels
finished = record {
  label_nodes = some (0 ∷ 2 ∷ []) ∷ some (0 ∷ 1 ∷ 2 ∷ []) ∷ some (2 ∷ []) ∷ [];
  label_edges =
      some (minus_one ∷ 4 ∷ []) ∷ some (1 ∷ minus_one ∷ 2 ∷ []) ∷ some (minus_one ∷ []) ∷ [];
  label_dist = some (0 ∷ 12 ∷ []) ∷ some (5 ∷ 0 ∷ 7 ∷ []) ∷ some (0 ∷ []) ∷ [];
}

-- A file of which the lines are the ints themselves.
abbrev pub line : Word32 → Word32
line x = x

abbrev pub parse : Word32 → Run Word32
parse x = ok x

abbrev pub blank_nodes : HublNodes
blank_nodes = record {
  hl_level = 0;
  levels = 1 ∷ 0 ∷ 2 ∷ [];
  edges_offset = [];
  edges = [];
  label_offset = [];
  label_node = [];
  label_edge = [];
  label_dist = [];
}

abbrev rows_0 : List Row
rows_0 = own_row 0 ∷ record { id = 2; dist = 12; edge = 4 } ∷ []

abbrev rows_1 : List Row
rows_1 =
    record { id = 0; dist = 5; edge = 1 } ∷ own_row 1 ∷ record { id = 2; dist = 7; edge = 2 } ∷ []

abbrev all_nodes : List Word32
all_nodes = 1 ∷ 0 ∷ 2 ∷ []

-- The label over an edge to a node for that node itself.
direct :
    (v edge u c i from to : Word32) (row : List Word32)
    → get_all_edges grid v ≡ ok (some row)
    → get_all_edge_count grid v ≡ ok 2
    → i < 2
    → load row i ≡ ok edge
    → get_dest graph edge ≡ ok u
    → get_dist graph edge ≡ ok c
    → get_node_lvl levels v ≡ ok from
    → get_node_lvl levels u ≡ ok to
    → lt_int to from ≡ false
    → Leaves grid graph levels v u c edge
direct v edge u c i from to row a b h r d w x y z = record {
  u = u;
  c = c;
  rest = 0;
  step = record {
    row = row;
    count = 2;
    i = i;
    has_row = a;
    has_count = b;
    inside = h;
    at = r;
    leads = d;
    lasts = w;
    level_from = from;
    level_to = to;
    has_level_from = x;
    has_level_to = y;
    not_lower = z;
  };
  walk = stay refl refl;
  sum = omega arith;
}

labels_2 : Walks.HasLabels grid graph levels finished all_nodes 12 2
unfolding get_labels Labels.get_dist
labels_2 = record {
  rows = own_row 2 ∷ [];
  has_ids = refl;
  has_dists = refl;
  has_edges = refl;
  sorted = record { strict = (tt, tt); below = (omega arith, tt) };
  own = inl refl;
  only_own = (λ e. refl, tt);
  sound = (inl refl, tt);
  bounded = (omega arith, tt);
  labelled = (inr (inr (inl refl)), tt);
}

labels_0 : Walks.HasLabels grid graph levels finished all_nodes 12 0
unfolding get_labels Labels.get_dist get_all_edges get_all_edge_count get_dest get_dist get_node_lvl
labels_0 = record {
  rows = rows_0;
  has_ids = refl;
  has_dists = refl;
  has_edges = refl;
  sorted = record {
    strict = ((omega arith, tt), (tt, tt));
    below = (omega arith, (omega arith, tt));
  };
  own = inl refl;
  only_own = (λ e. refl, (λ e. absurd (omega (arith, e)), tt));
  sound = (
    inl refl,
    (
      inr (
          direct 0 4 2 12 1 1 2 (0 ∷ 4 ∷ []) refl refl (omega arith) refl refl refl refl refl refl),
      tt,
    ),
  );
  bounded = (omega arith, (omega arith, tt));
  labelled = (inr (inl refl), (inr (inr (inl refl)), tt));
}

labels_1 : Walks.HasLabels grid graph levels finished all_nodes 12 1
unfolding get_labels Labels.get_dist get_all_edges get_all_edge_count get_dest get_dist get_node_lvl
labels_1 = record {
  rows = rows_1;
  has_ids = refl;
  has_dists = refl;
  has_edges = refl;
  sorted = record {
    strict = ((omega arith, (omega arith, tt)), ((omega arith, tt), (tt, tt)));
    below = (omega arith, (omega arith, (omega arith, tt)));
  };
  own = inr (inl refl);
  only_own = (λ e. absurd (omega (arith, e)), (λ e. refl, (λ e. absurd (omega (arith, e)), tt)));
  sound = (
    inr (direct 1 1 0 5 0 0 1 (1 ∷ 2 ∷ []) refl refl (omega arith) refl refl refl refl refl refl),
    (
      inl refl,
      (
        inr (
            direct 1 2 2 7 1 0 2 (1 ∷ 2 ∷ []) refl refl (omega arith) refl refl refl refl refl
              refl),
        tt,
      ),
    ),
  );
  bounded = (omega arith, (omega arith, (omega arith, tt)));
  labelled = (inr (inl refl), (inl refl, (inr (inr (inl refl)), tt)));
}

finished-IsLabelling : IsLabelling grid graph levels 3 finished all_nodes 12
finished-IsLabelling = record {
  size_nodes = refl;
  size_edges = refl;
  size_dist = refl;
  labels = (labels_1, (labels_0, (labels_2, tt)));
}

every : (v : ℕ) → v < 3 → Has all_nodes v
every zero h = inr (inl refl)
every (suc zero) h = inl refl
every (suc (suc zero)) h = inr (inr (inl refl))
every (suc (suc (suc v))) h = absurd (omega arith)

init_label_info-HasLabels_example :
    Returns
      (λ router.
        (v : ℕ)
        → v < 3
        → (h : Walks.HasLabels grid graph levels finished all_nodes 12 v) × (lo : ℕ) × (hi : ℕ)
          × HasLabels router v lo hi
          × HasCells router lo hi h.rows)
      (init_label_info line parse finished blank_nodes)
init_label_info-HasLabels_example =
    init_label_info-HasLabels line parse (λ x. refl) grid graph levels (omega arith)
      finished-IsLabelling every blank_nodes

-- Of the edges of the node 0, the one to the node 2 leads up.
decides : All (Decides graph (1 ∷ 0 ∷ 2 ∷ []) 1 (λ x. x == 4)) (0 ∷ 4 ∷ [])
unfolding get_dest
decides = (
  record { dest = 1; dest_lvl = 0; leads = refl; has_level = refl; decides = refl },
  (record { dest = 2; dest_lvl = 2; leads = refl; has_level = refl; decides = refl }, tt),
)

keep_loop-higher_example :
    Returns (IsKept graph (1 ∷ 0 ∷ 2 ∷ []) 1 (λ x. x == 4) (4 ∷ []) (3 + 1)) (
      keep_loop graph
        (1 ∷ 0 ∷ 2 ∷ [])
        1
        (2 + 1)
        0
        (record { edge_array = 0 ∷ 4 ∷ 0 ∷ []; edge_count = 2; total_edge_len = 3 }))
keep_loop-higher_example =
    keep_loop-higher graph (1 ∷ 0 ∷ 2 ∷ []) 1 (λ x. x == 4) (0 ∷ 4 ∷ []) (0 ∷ []) 3 decides
