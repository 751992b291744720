-- ===== src/Creation/HlDijkstra/Walks.antt =====
-- What the labels of the preprocessing are worth: walks over edges that never lead down a level.
use fapra_osm_routing.Prelude.{
  ℕ, ◌+◌, ◌≤◌, ◌<◌, ◌≡◌, ◌⊎◌, inl, inr, sym, ap, subst, List, Word32, max_value, lt_int, some, ok,
  load, length, All, false, arith,
}
use fapra_osm_routing.Prelude.Members.{Has}
use fapra_osm_routing.Search.Sets.{IsSorted}
use fapra_osm_routing.Creation.Nodes.{Nodes, get_node_lvl}
use fapra_osm_routing.Creation.Edges.{Edges, get_dest, get_dist}
use fapra_osm_routing.Creation.DynamicGrid.{DynamicGrid, get_all_edges, get_all_edge_count}
use fapra_osm_routing.Creation.Labels.{Labels, get_labels}
use fapra_osm_routing.Creation.Labels
use fapra_osm_routing.Creation.HlDijkstra.Rows.{Row, ids, dists, edges, own_row}

module _ (g : DynamicGrid) (e : Edges) (n : Nodes) where
  -- An edge of the node `v` to a node `u` that is not lower, of the length `c`.
  pub record Step (v : ℕ) (edge u c : Word32) : Type 0 where
    pub row : List Word32
    pub count : ℕ
    pub i : ℕ
    pub has_row : get_all_edges g v ≡ ok (some row)
    pub has_count : get_all_edge_count g v ≡ ok count
    pub inside : i < count
    pub at : load row i ≡ ok edge
    pub leads : get_dest e edge ≡ ok u
    pub lasts : get_dist e edge ≡ ok c
    pub level_from : Word32
    pub level_to : Word32
    pub has_level_from : get_node_lvl n v ≡ ok level_from
    pub has_level_to : get_node_lvl n u ≡ ok level_to
    pub not_lower : lt_int level_to level_from ≡ false

  -- A sequence of such edges from `v` to `h`, whose lengths add up to `d`.
  pub data Walk (h : Word32) : ℕ → ℕ → Type 0 where
    stay : {v d : ℕ} → v ≡ h → d ≡ 0 → Walk h v d
    go :
        {v total : ℕ} (edge u c d : ℕ)
        → Step v edge u c
        → Walk h u d
        → total ≡ c + d
        → Walk h v total

  -- The label of `v` for itself, or one over a first edge.
  pub record Leaves (v : ℕ) (h d edge : Word32) : Type 0 where
    pub u : Word32
    pub c : Word32
    pub rest : ℕ
    pub step : Step v edge u c
    pub walk : Walk h u rest
    pub sum : d ≡ c + rest

  abbrev pub IsSound : ℕ → Row → Type 0
  IsSound v r = (r ≡ own_row v) ⊎ Leaves v r.id r.dist r.edge

  pub Walk-append : {u h : Word32} {v a b : ℕ} → Walk u v a → Walk h u b → Walk h v (a + b)
  Walk-append {h = h} {a = a} {b = b} (stay at none_left) w =
      let same : b ≡ a + b = omega arith in
      subst (λ x. Walk h x (a + b)) (sym at) (subst (Walk h _) same w)
  Walk-append (go edge u c d s w sum) w' = go edge u c _ s (Walk-append w w') (omega arith)

  pub IsSound-Walk : {v : ℕ} {r : Row} → IsSound v r → Walk r.id v r.dist
  IsSound-Walk (inl own) = stay (sym (ap (λ r. r.id) own)) (ap (λ r. r.dist) own)
  IsSound-Walk (inr l) = go _ l.u l.c l.rest l.step l.walk l.sum

  -- The rows of the node `h` in the arrays: by ascending nodes that have labels themselves, one of
  -- them for `h` at the distance 0, and each as long as a walk over its first edge.
  pub record HasLabels (l : Labels) (done : List Word32) (bound : ℕ) (h : Word32) : Type 0 where
    pub rows : List Row
    pub has_ids : get_labels l h ≡ ok (some (ids rows))
    pub has_dists : Labels.get_dist l h ≡ ok (some (dists rows))
    pub has_edges : load l.label_edges h ≡ ok (some (edges rows))
    pub sorted : IsSorted (ids rows)
    pub own : Has (ids rows) h
    pub only_own : All (λ r. r.id ≡ h → r ≡ own_row h) rows
    pub sound : All (IsSound h) rows
    pub bounded : All (λ r. r.dist ≤ bound) rows
    pub labelled : All (λ r. Has done r.id) rows

  -- The labels of the nodes `done`, in arrays for `node_count` nodes.
  pub record IsLabelling (node_count : ℕ) (l : Labels) (done : List Word32) (bound : ℕ)
      : Type 0 where
    pub size_nodes : length l.label_nodes ≡ node_count
    pub size_edges : length l.label_edges ≡ node_count
    pub size_dist : length l.label_dist ≡ node_count
    pub labels : All (HasLabels l done bound) done

  -- A node without labels whose edges can be read and are not longer than `c`, and whose
  -- neighbours, but the lower ones, have labels.
  pub record IsNext (node_count c : ℕ) (done : List Word32) (v : Word32) : Type 0 where
    pub row : List Word32
    pub count : ℕ
    pub level : Word32
    pub has_row : get_all_edges g v ≡ ok (some row)
    pub has_count : get_all_edge_count g v ≡ ok count
    pub has_level : get_node_lvl n v ≡ ok level
    pub edge : ℕ → Word32
    pub dest : ℕ → Word32
    pub dist : ℕ → Word32
    pub dest_level : ℕ → Word32
    pub reads_edge : (i : ℕ) → i < count → load row i ≡ ok (edge i)
    pub reads_dest : (i : ℕ) → i < count → get_dest e (edge i) ≡ ok (dest i)
    pub reads_dist : (i : ℕ) → i < count → get_dist e (edge i) ≡ ok (dist i)
    pub reads_level : (i : ℕ) → i < count → get_node_lvl n (dest i) ≡ ok (dest_level i)
    pub short : (i : ℕ) → i < count → dist i ≤ c
    pub labelled : (i : ℕ) → i < count → lt_int (dest_level i) level ≡ false → Has done (dest i)
    pub fresh : ¬ Has done v
    pub in_range : v < node_count
    pub small : v < max_value
