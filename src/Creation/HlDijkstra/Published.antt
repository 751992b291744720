-- ===== src/Creation/HlDijkstra/Published.antt =====
-- addLabels of the thread: the rows become the labels of the node, and the others stay.
use fapra_osm_routing.Prelude.{
  ℕ, ◌+◌, ◌<◌, ◌≡◌, ◌≢◌, inl, inr, refl, sym, ◌∙◌, subst, List, [], ◌∷◌, Word32, some, ok,
  load-set_same, load-set_other, store-ok, set, All, length-set, arith, Bool-cases, ◌==◌,
}
use fapra_osm_routing.Prelude.Ascending.{All-imply}
use fapra_osm_routing.Prelude.Members.{Has}
use fapra_osm_routing.Creation.Nodes.{Nodes}
use fapra_osm_routing.Creation.Edges.{Edges}
use fapra_osm_routing.Creation.DynamicGrid.{DynamicGrid}
use fapra_osm_routing.Creation.Labels.{Labels, get_labels, add_labels}
use fapra_osm_routing.Creation.Labels
use fapra_osm_routing.Creation.HlDijkstra.{HlDijkstra}
use fapra_osm_routing.Creation.HlDijkstra.Rows.{Row, ids, dists, edges}
use fapra_osm_routing.Creation.HlDijkstra.Walks.{HasLabels, IsLabelling}
use fapra_osm_routing.Creation.HlDijkstra.Pruned.{IsPruned}

-- The labels after addLabels of the rows.
abbrev pub with_rows : Labels → Word32 → List Row → Labels
with_rows l v rows = record {
  label_nodes = set l.label_nodes v (some (ids rows));
  label_edges = set l.label_edges v (some (edges rows));
  label_dist = set l.label_dist v (some (dists rows));
}

module _ (g : DynamicGrid) (e : Edges) (n : Nodes) (done : List Word32) (v : Word32)
    (node_count bound more : ℕ) (l : Labels) (rows : List Row) (fresh : ¬ Has done v)
    (in_range : v < node_count) (labelling : IsLabelling g e n node_count l done bound) where
  abbrev HasMore : Word32 → Type 0
  HasMore h = HasLabels g e n (with_rows l v rows) (v ∷ done) (more + bound) h

  -- The labels of the other nodes stay.
  others-HasMore : (h : Word32) → Has done h → HasLabels g e n l done bound h → HasMore h
  unfolding get_labels Labels.get_dist
  others-HasMore h there hl =
      let other : v ≢ h = λ at. fresh (subst (Has done) (sym at) there) in
      record {
        rows = hl.rows;
        has_ids = load-set_other l.label_nodes v h (some (ids rows)) other ∙ hl.has_ids;
        has_dists = load-set_other l.label_dist v h (some (dists rows)) other ∙ hl.has_dists;
        has_edges = load-set_other l.label_edges v h (some (edges rows)) other ∙ hl.has_edges;
        sorted = hl.sorted;
        own = hl.own;
        only_own = hl.only_own;
        sound = hl.sound;
        bounded = All-imply hl.rows (λ r b. omega (arith, b)) hl.bounded;
        labelled = All-imply hl.rows (λ r m. inr m) hl.labelled;
      }

  all-HasMore :
      (some_done : List Word32)
      → ((h : Word32) → Has some_done h → Has done h)
      → All (HasLabels g e n l done bound) some_done
      → All HasMore some_done
  all-HasMore [] inside h = tt
  all-HasMore (u ∷ us) inside h =
      (others-HasMore u (inside u (inl refl)) h.0, all-HasMore us (λ x m. inside x (inr m)) h.1)

  module _ {order : List Word32} {t : HlDijkstra}
      (k : IsPruned g e n done v order (more + bound) t rows) where
    in-done : (x : Word32) → (x ≢ v → Has done x) → Has (v ∷ done) x
    in-done x m = elim (Bool-cases (v == x)) [
      | inl same ↦ inl (ground arith)
      | inr differ ↦ inr (m λ at. ground arith)
    ]

    new-HasMore : HasMore v
    unfolding get_labels Labels.get_dist
    new-HasMore = record {
      rows = rows;
      has_ids =
          load-set_same l.label_nodes v (some (ids rows)) (omega (arith, labelling.size_nodes));
      has_dists =
          load-set_same l.label_dist v (some (dists rows)) (omega (arith, labelling.size_dist));
      has_edges =
          load-set_same l.label_edges v (some (edges rows)) (omega (arith, labelling.size_edges));
      sorted = k.carries.has_ids.sorted;
      own = k.has_own;
      only_own = All-imply rows (λ r h. h.only_own) k.good;
      sound = All-imply rows (λ r h. h.sound) k.good;
      bounded = All-imply rows (λ r h. h.bounded) k.good;
      labelled = All-imply rows (λ r h. in-done r.id h.labelled) k.good;
    }

    pub with_rows-IsLabelling :
        IsLabelling g e n node_count (with_rows l v rows) (v ∷ done) (more + bound)
    with_rows-IsLabelling = record {
      size_nodes = length-set l.label_nodes v (some (ids rows)) ∙ labelling.size_nodes;
      size_edges = length-set l.label_edges v (some (edges rows)) ∙ labelling.size_edges;
      size_dist = length-set l.label_dist v (some (dists rows)) ∙ labelling.size_dist;
      labels = (new-HasMore, all-HasMore done (λ h m. m) labelling.labels);
    }

  pub add_labels-with_rows :
      add_labels l v (ids rows) (edges rows) (dists rows) ≡ ok (with_rows l v rows)
  unfolding add_labels
  add_labels-with_rows =
      rw
        (
          store-ok l.label_nodes v (some (ids rows)) (omega (arith, labelling.size_nodes)),
          store-ok l.label_edges v (some (edges rows)) (omega (arith, labelling.size_edges)),
          store-ok l.label_dist v (some (dists rows)) (omega (arith, labelling.size_dist)),
        )
        refl
