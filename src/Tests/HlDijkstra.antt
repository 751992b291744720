-- ===== src/Tests/HlDijkstra.antt =====
-- The labels of the graph of `World`, whose nodes 1, 0 and 2 have the levels 0, 1 and 2.
use fapra_osm_routing.Prelude.{
  ℕ, zero, suc, ◌+◌, ◌<◌, ◌≡◌, refl, inl, inr, List, [], ◌∷◌, Word32, none, some, get_or, lt_int,
  false, ok, load, ◌≤◌, Returns, arith,
}
use fapra_osm_routing.Prelude.Members.{Has}
use fapra_osm_routing.Creation.Nodes.{Nodes, get_node_lvl}
use fapra_osm_routing.Creation.Edges.{Edges, get_dest, get_dist}
use fapra_osm_routing.Creation.DynamicGrid.{DynamicGrid, get_all_edges, get_all_edge_count}
use fapra_osm_routing.Creation.Labels.{initialize}
use fapra_osm_routing.Creation.HlDijkstra.{thread, calc_labels}
use fapra_osm_routing.Creation.HlDijkstra.Walks.{IsNext}
use fapra_osm_routing.Creation.HlDijkstra.Sound.{
  HasLabelled, AreNext, calc_labels-HasLabelled, initialize-IsLabelling, thread-IsThread,
}
use fapra_osm_routing.Tests.World.{one_shortcut}

abbrev pub graph : Edges
graph = record one_shortcut {
  shortcut_edge_start = 0 ∷ 2 ∷ [];
  shortcut_edge_dest = 2 ∷ 0 ∷ [];
  shortcut_edge_dist = 12 ∷ 12 ∷ [];
}

abbrev pub levels : Nodes
levels = record { levels = 1 ∷ 0 ∷ 2 ∷ [] }

abbrev pub grid : DynamicGrid
grid = record {
  current_edge_ids = none ∷ none ∷ some [] ∷ [];
  current_edge_count = 0 ∷ 0 ∷ 0 ∷ [];
  all_edge_ids = some (0 ∷ 4 ∷ []) ∷ some (1 ∷ 2 ∷ []) ∷ some (3 ∷ 5 ∷ []) ∷ [];
  all_edge_count = 2 ∷ 2 ∷ 2 ∷ [];
}

-- Two edges, with what is read over them.
module _ (done : List Word32) (v e0 e1 d0 d1 c0 c1 level l0 l1 : Word32)
    (has_row : get_all_edges grid v ≡ ok (some (e0 ∷ e1 ∷ [])))
    (has_count : get_all_edge_count grid v ≡ ok 2) (has_level : get_node_lvl levels v ≡ ok level)
    (dest0 : get_dest graph e0 ≡ ok d0) (dest1 : get_dest graph e1 ≡ ok d1)
    (dist0 : get_dist graph e0 ≡ ok c0) (dist1 : get_dist graph e1 ≡ ok c1)
    (level0 : get_node_lvl levels d0 ≡ ok l0) (level1 : get_node_lvl levels d1 ≡ ok l1)
    (short0 : c0 ≤ 12) (short1 : c1 ≤ 12) (done0 : lt_int l0 level ≡ false → Has done d0)
    (done1 : lt_int l1 level ≡ false → Has done d1) (fresh : ¬ Has done v) (in_range : v < 3) where
  two {ℓ} : (P : ℕ → Type ℓ) → P 0 → P 1 → (i : ℕ) → i < 2 → P i
  two P p q zero h = p
  two P p q (suc zero) h = q
  two P p q (suc (suc i)) h = absurd (omega arith)

  two_edges : IsNext grid graph levels 3 12 done v
  two_edges = record {
    row = e0 ∷ e1 ∷ [];
    count = 2;
    level = level;
    has_row = has_row;
    has_count = has_count;
    has_level = has_level;
    edge = λ i. get_or (e0 ∷ e1 ∷ []) i 0;
    dest = λ i. get_or (d0 ∷ d1 ∷ []) i 0;
    dist = λ i. get_or (c0 ∷ c1 ∷ []) i 0;
    dest_level = λ i. get_or (l0 ∷ l1 ∷ []) i 0;
    reads_edge = two (λ i. load (e0 ∷ e1 ∷ []) i ≡ ok (get_or (e0 ∷ e1 ∷ []) i 0)) refl refl;
    reads_dest =
        two (λ i. get_dest graph (get_or (e0 ∷ e1 ∷ []) i 0) ≡ ok (get_or (d0 ∷ d1 ∷ []) i 0)) dest0
          dest1;
    reads_dist =
        two (λ i. get_dist graph (get_or (e0 ∷ e1 ∷ []) i 0) ≡ ok (get_or (c0 ∷ c1 ∷ []) i 0)) dist0
          dist1;
    reads_level =
        two (λ i. get_node_lvl levels (get_or (d0 ∷ d1 ∷ []) i 0) ≡ ok (get_or (l0 ∷ l1 ∷ []) i 0))
          level0 level1;
    short = two (λ i. get_or (c0 ∷ c1 ∷ []) i 0 ≤ 12) short0 short1;
    labelled =
        two
          (λ i.
            lt_int (get_or (l0 ∷ l1 ∷ []) i 0) level ≡ false → Has done (get_or (d0 ∷ d1 ∷ []) i 0))
          done0 done1;
    fresh = fresh;
    in_range = in_range;
    small = omega arith;
  }

are_next : AreNext grid graph levels (2 ∷ 0 ∷ 1 ∷ []) 3 12 [] (2 ∷ 0 ∷ 1 ∷ [])
unfolding get_all_edges get_all_edge_count get_node_lvl get_dest get_dist
are_next = (
  two_edges [] 2 3 5 1 0 7 12 2 0 1 refl refl refl refl refl refl refl refl refl (omega arith)
      (omega arith) (λ h. absurd (ground (arith, h))) (λ h. absurd (ground (arith, h))) (λ m. m)
      (omega arith),
  (
    two_edges (2 ∷ []) 0 0 4 1 2 5 12 1 0 2 refl refl refl refl refl refl refl refl refl
        (omega arith) (omega arith) (λ h. absurd (ground (arith, h))) (λ h. inl refl)
        (λ m. ground (arith, m)) (omega arith),
    (
      two_edges (0 ∷ 2 ∷ []) 1 1 2 0 2 5 7 0 1 2 refl refl refl refl refl refl refl refl refl
          (omega arith) (omega arith) (λ h. inl refl) (λ h. inr (inl refl)) (λ m. ground (arith, m))
          (omega arith),
      tt,
    ),
  ),
)

calc_labels-HasLabelled_example :
    Returns
      (HasLabelled grid graph levels (2 ∷ 0 ∷ 1 ∷ []) 3 12 (2 ∷ []) (12 + 0))
      (calc_labels grid graph levels (thread 0 3 (2 ∷ 0 ∷ 1 ∷ [])) (initialize 3) 2)
calc_labels-HasLabelled_example =
    calc_labels-HasLabelled grid graph levels (2 ∷ 0 ∷ 1 ∷ []) 3 12 (omega arith)
      (initialize-IsLabelling grid graph levels (2 ∷ 0 ∷ 1 ∷ []) 3 12) are_next.0
      (thread-IsThread grid graph levels (2 ∷ 0 ∷ 1 ∷ []) 3 12 0 3)
