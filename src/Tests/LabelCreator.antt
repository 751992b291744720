-- ===== src/Tests/LabelCreator.antt =====
-- The preprocessing of the graph of `HlDijkstra` as a whole.
use fapra_osm_routing.Prelude.{
  ℕ, zero, suc, ◌<◌, ◌≤◌, ◌≡◌, ◌≢◌, refl, List, [], ◌∷◌, Word32, max_value, some, get_or, load, ok,
  ◌>>=◌, Returns, All, arith,
}
use fapra_osm_routing.Prelude.Members.{Has}
use fapra_osm_routing.Creation.Nodes.{get_node_lvl, get_node_count}
use fapra_osm_routing.Creation.Edges.{get_dest, get_dist}
use fapra_osm_routing.Creation.DynamicGrid.{get_all_edges, get_all_edge_count}
use fapra_osm_routing.Creation.Labels.{initialize}
use fapra_osm_routing.Creation.HlDijkstra.Rows.{Row, ids}
use fapra_osm_routing.Creation.HlDijkstra.Walks.{IsSound}
use fapra_osm_routing.Creation.LabelCreator.{thread_ranges, create_hl_calc_order, calc_labels}
use fapra_osm_routing.Creation.LabelCreator.Changes.{IsCalcOrder, create_hl_calc_order-IsCalcOrder}
use fapra_osm_routing.Creation.LabelCreator.Ready.{IsContracted}
use fapra_osm_routing.Creation.LabelCreator.Iterations.{Tiles, thread_ranges-Tiles}
use fapra_osm_routing.Creation.LabelCreator.Labelled.{
  IsHierarchy, IsComplete, calc_labels-IsComplete, calc_and_init-HasLabels,
}
use fapra_osm_routing.LabelData.HublNodes.LabelInfo.{init_label_info}
use fapra_osm_routing.LabelData.HublNodes.LabelInfo.Routable.{HasCells}
use fapra_osm_routing.Router.TwoLabels.Climb.{HasLabels}
use fapra_osm_routing.Tests.HlDijkstra.{graph, levels, grid}
use fapra_osm_routing.Tests.LabelInfo.{line, parse, blank_nodes}

abbrev level : Word32 → ℕ
level v = get_or (1 ∷ 0 ∷ 2 ∷ []) v 0

below_2 {ℓ} : (P : ℕ → Type ℓ) → P 0 → P 1 → (i : ℕ) → i < 2 → P i
below_2 P p q zero h = p
below_2 P p q (suc zero) h = q
below_2 P p q (suc (suc i)) h = absurd (omega arith)

below_3 {ℓ} : (P : ℕ → Type ℓ) → P 0 → P 1 → P 2 → (i : ℕ) → i < 3 → P i
below_3 P p q r zero h = p
below_3 P p q r (suc zero) h = q
below_3 P p q r (suc (suc zero)) h = r
below_3 P p q r (suc (suc (suc i))) h = absurd (omega arith)

-- Two edges, with what is read over them.
two-IsContracted :
    (v e0 e1 d0 d1 c0 c1 : Word32)
    → get_all_edges grid v ≡ ok (some (e0 ∷ e1 ∷ []))
    → get_all_edge_count grid v ≡ ok 2
    → get_dest graph e0 ≡ ok d0
    → get_dest graph e1 ≡ ok d1
    → get_dist graph e0 ≡ ok c0
    → get_dist graph e1 ≡ ok c1
    → (c0 ≤ 12) × (c1 ≤ 12) × (d0 < 3) × (d1 < 3)
    → level d0 ≢ level v
    → level d1 ≢ level v
    → IsContracted grid graph levels level 3 12 v
two-IsContracted v e0 e1 d0 d1 c0 c1 row count dest0 dest1 dist0 dist1 (a0, a1, b0, b1) l0 l1 =
    record {
      row = e0 ∷ e1 ∷ [];
      edge_count = 2;
      has_row = row;
      has_count = count;
      edge = λ i. get_or (e0 ∷ e1 ∷ []) i 0;
      dest = λ i. get_or (d0 ∷ d1 ∷ []) i 0;
      dist = λ i. get_or (c0 ∷ c1 ∷ []) i 0;
      reads_edge = below_2 (λ i. load (e0 ∷ e1 ∷ []) i ≡ ok (get_or (e0 ∷ e1 ∷ []) i 0)) refl refl;
      reads_dest =
          below_2 (λ i. get_dest graph (get_or (e0 ∷ e1 ∷ []) i 0) ≡ ok (get_or (d0 ∷ d1 ∷ []) i 0))
            dest0 dest1;
      reads_dist =
          below_2 (λ i. get_dist graph (get_or (e0 ∷ e1 ∷ []) i 0) ≡ ok (get_or (c0 ∷ c1 ∷ []) i 0))
            dist0 dist1;
      short = below_2 (λ i. get_or (c0 ∷ c1 ∷ []) i 0 ≤ 12) a0 a1;
      in_range = below_2 (λ i. get_or (d0 ∷ d1 ∷ []) i 0 < 3) b0 b1;
      other_level = below_2 (λ i. level (get_or (d0 ∷ d1 ∷ []) i 0) ≢ level v) l0 l1;
    }

contracted : (v : ℕ) → v < 3 → IsContracted grid graph levels level 3 12 v
unfolding get_all_edges get_all_edge_count get_dest get_dist
contracted =
    below_3 (IsContracted grid graph levels level 3 12)
      (two-IsContracted 0 0 4 1 2 5 12 refl refl refl refl refl refl
        (omega arith, omega arith, omega arith, omega arith) (λ e. omega (arith, e))
        (λ e. omega (arith, e)))
      (two-IsContracted 1 1 2 0 2 5 7 refl refl refl refl refl refl
        (omega arith, omega arith, omega arith, omega arith) (λ e. omega (arith, e))
        (λ e. omega (arith, e)))
      (two-IsContracted 2 3 5 1 0 7 12 refl refl refl refl refl refl
        (omega arith, omega arith, omega arith, omega arith) (λ e. omega (arith, e))
        (λ e. omega (arith, e)))

reads : (v : ℕ) → v < 3 → (get_node_lvl levels v ≡ ok (level v)) × (level v ≤ max_value)
unfolding get_node_lvl
reads =
    below_3 (λ v. (get_node_lvl levels v ≡ ok (level v)) × (level v ≤ max_value))
      (refl, omega arith) (refl, omega arith) (refl, omega arith)

hierarchy : IsHierarchy grid graph levels level 12
unfolding get_node_count
hierarchy = record {
  positive = omega arith;
  fits = omega arith;
  fits_distance = omega arith;
  reads = reads;
  contracted = contracted;
}

thread_ranges-Tiles_example : Tiles 5 (thread_ranges 5 40) 40
thread_ranges-Tiles_example = thread_ranges-Tiles 5 40 (omega arith)

create_hl_calc_order-IsCalcOrder_example :
    Returns (IsCalcOrder level levels (get_node_count levels)) (create_hl_calc_order levels)
unfolding get_node_count
create_hl_calc_order-IsCalcOrder_example =
    create_hl_calc_order-IsCalcOrder level levels (omega arith)
      (reads 0 (omega arith), (reads 1 (omega arith), (reads 2 (omega arith), tt)))

calc_labels-IsComplete_example :
    Returns
      (IsComplete grid graph levels level 12)
      (calc_labels grid graph levels (initialize (get_node_count levels)))
calc_labels-IsComplete_example = calc_labels-IsComplete grid graph levels level 12 hierarchy

calc_and_init-HasLabels_example :
    Returns
      (λ r.
        (v : ℕ)
        → v < get_node_count levels
        → (lo : ℕ) × (hi : ℕ) × (rows : List Row) × HasLabels r v lo hi
          × HasCells r lo hi rows
          × All (IsSound grid graph levels v) rows
          × Has (ids rows) v)
      (calc_labels grid graph levels (initialize (get_node_count levels)) >>= λ l.
        init_label_info line parse l blank_nodes)
calc_and_init-HasLabels_example =
    calc_and_init-HasLabels grid graph levels level 12 hierarchy line parse (λ x. refl) blank_nodes
