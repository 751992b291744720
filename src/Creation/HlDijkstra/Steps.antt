-- ===== src/Creation/HlDijkstra/Steps.antt =====
-- What the calls on the three sets do to the rows.
use fapra_osm_routing.Prelude.{
  ℕ, ◌<◌, ◌≡◌, sym, ◌∙◌, subst, List, [], ◌∷◌, ◌++◌, map-append, Word32, max_value, rank, ok,
  Returns, Returns-bind, returns, load, length, All, arith, get_elem?-append, true, lt_int,
  Bool-cases, inl, inr, Option, none, some, minus_one,
}
use fapra_osm_routing.Search.Sets.{IsSorted, IsSorted-insert, IsSorted-remove}
use fapra_osm_routing.Utils.OrderedIntSet.{get}
use fapra_osm_routing.Utils.OrderedIntSet.Sequence.{
  Holds, insert_at_idx-Holds, insert_tail-Holds, clear-Holds, remove_at_idx-Holds,
  update_value-Holds, get-Holds,
}
use fapra_osm_routing.Utils.OrderedIntSet.Ordered.{IsOrdered, Inserted, insert_sorted-Inserted}
use fapra_osm_routing.Creation.HlDijkstra.{HlDijkstra, restart, insert_row, remove_row, update_row}
use fapra_osm_routing.Creation.HlDijkstra.Rows.{
  Row, ids, dists, edges, own_row, Carries, column-insert, closer, index_in,
}

module _ (p : List Row) (r : Row) (q : List Row) {order : List Word32} {t : HlDijkstra} (idx : ℕ)
    (at : idx ≡ length p) where
  pub reads_id : Carries order t (p ++ r ∷ q) → get t.found_ids idx ≡ ok r.id
  reads_id c = rw (
    get-Holds (ids (p ++ r ∷ q)) idx c.has_ids.holds,
    column-insert (λ r. r.id) p r q,
    get_elem?-append (ids p) r.id (ids q) idx (index_in p idx at λ r. r.id),
    load,
  )

  pub reads_dist : Carries order t (p ++ r ∷ q) → get t.distances idx ≡ ok r.dist
  reads_dist c = rw (
    get-Holds (dists (p ++ r ∷ q)) idx c.has_dists,
    column-insert (λ r. r.dist) p r q,
    get_elem?-append (dists p) r.dist (dists q) idx (index_in p idx at λ r. r.dist),
    load,
  )

  pub reads_edge : Carries order t (p ++ r ∷ q) → get t.first_edge_id idx ≡ ok r.edge
  reads_edge c = rw (
    get-Holds (edges (p ++ r ∷ q)) idx c.has_edges,
    column-insert (λ r. r.edge) p r q,
    get_elem?-append (edges p) r.edge (edges q) idx (index_in p idx at λ r. r.edge),
    load,
  )

  pub insert_row-Carries :
      Carries order t (p ++ q)
      → r.id < max_value
      → All (λ y. rank y < rank r.id) (ids p)
      → All (λ y. rank r.id < rank y) (ids q)
      → Returns (λ t'. Carries order t' (p ++ r ∷ q)) (insert_row t r.id r.dist r.edge idx)
  unfolding insert_row
  insert_row-Carries c small lower upper =
      Returns-bind
        (insert_at_idx-Holds (ids p) (ids q) r.id idx
          (subst (Holds t.found_ids) (map-append (λ r. r.id) p q) c.has_ids.holds)
          (index_in p idx at λ r. r.id))
        λ s0 (h0, v0).
          Returns-bind
            (insert_at_idx-Holds (dists p) (dists q) r.dist idx
              (subst (Holds t.distances) (map-append (λ r. r.dist) p q) c.has_dists)
              (index_in p idx at λ r. r.dist))
            λ s1 (h1, v1).
              Returns-bind
                (insert_at_idx-Holds (edges p) (edges q) r.edge idx
                  (subst (Holds t.first_edge_id) (map-append (λ r. r.edge) p q) c.has_edges)
                  (index_in p idx at λ r. r.edge))
                λ s2 (h2, v2). returns (record {
                  same_order = c.same_order;
                  has_ids = record {
                    holds = subst (Holds s0) (sym (column-insert (λ r. r.id) p r q)) h0;
                    ordered = v0 ∙ c.has_ids.ordered;
                    sorted = subst IsSorted (sym (column-insert (λ r. r.id) p r q)) (
                        IsSorted-insert (ids p) r.id (ids q)
                          (subst IsSorted (map-append (λ r. r.id) p q) c.has_ids.sorted) small lower
                          upper);
                  };
                  has_dists = subst (Holds s1) (sym (column-insert (λ r. r.dist) p r q)) h1;
                  has_edges = subst (Holds s2) (sym (column-insert (λ r. r.edge) p r q)) h2;
                })

  pub remove_row-Carries :
      Carries order t (p ++ r ∷ q) → Returns (λ t'. Carries order t' (p ++ q)) (remove_row t idx)
  unfolding remove_row
  remove_row-Carries c =
      Returns-bind
        (remove_at_idx-Holds (ids p) r.id (ids q) idx
          (subst (Holds t.found_ids) (column-insert (λ r. r.id) p r q) c.has_ids.holds)
          (index_in p idx at λ r. r.id))
        λ s0 (h0, v0).
          Returns-bind
            (remove_at_idx-Holds (dists p) r.dist (dists q) idx
              (subst (Holds t.distances) (column-insert (λ r. r.dist) p r q) c.has_dists)
              (index_in p idx at λ r. r.dist))
            λ s1 (h1, v1).
              Returns-bind
                (remove_at_idx-Holds (edges p) r.edge (edges q) idx
                  (subst (Holds t.first_edge_id) (column-insert (λ r. r.edge) p r q) c.has_edges)
                  (index_in p idx at λ r. r.edge))
                λ s2 (h2, v2). returns (record {
                  same_order = c.same_order;
                  has_ids = record {
                    holds = subst (Holds s0) (sym (map-append (λ r. r.id) p q)) h0;
                    ordered = v0 ∙ c.has_ids.ordered;
                    sorted = subst IsSorted (sym (map-append (λ r. r.id) p q)) (
                        IsSorted-remove (ids p) r.id (ids q)
                          (subst IsSorted (column-insert (λ r. r.id) p r q) c.has_ids.sorted));
                  };
                  has_dists = subst (Holds s1) (sym (map-append (λ r. r.dist) p q)) h1;
                  has_edges = subst (Holds s2) (sym (map-append (λ r. r.edge) p q)) h2;
                })

  pub update_row-Carries :
      (d e : Word32)
      → Carries order t (p ++ r ∷ q)
      → Returns (λ t'. Carries order t' (p ++ closer r d e ∷ q)) (update_row t d e idx)
  unfolding update_row
  update_row-Carries d e c = rw (reads_dist c) (elim (Bool-cases (lt_int d r.dist)) [
    | inr far ↦ rw far (returns c)
    | inl near ↦ rw near (
        Returns-bind
          (update_value-Holds (dists p) r.dist (dists q) d idx
            (subst (Holds t.distances) (column-insert (λ r. r.dist) p r q) c.has_dists)
            (index_in p idx at λ r. r.dist))
          λ s1 (h1, v1).
            Returns-bind
              (update_value-Holds (edges p) r.edge (edges q) e idx
                (subst (Holds t.first_edge_id) (column-insert (λ r. r.edge) p r q) c.has_edges)
                (index_in p idx at λ r. r.edge))
              λ s2 (h2, v2). returns (record {
                same_order = c.same_order;
                has_ids =
                    subst (IsOrdered t.found_ids)
                      (column-insert (λ r. r.id) p r q
                        ∙ sym (
                            column-insert (λ r. r.id) p ((record { id = r.id; dist = d; edge = e }))
                              q))
                      c.has_ids;
                has_dists =
                    subst (Holds s1)
                      (sym (
                        column-insert (λ r. r.dist) p ((record { id = r.id; dist = d; edge = e }))
                          q))
                      h1;
                has_edges =
                    subst (Holds s2)
                      (sym (
                        column-insert (λ r. r.edge) p ((record { id = r.id; dist = d; edge = e }))
                          q))
                      h2;
              }))
  ])

-- A thread between two nodes: sets with any rows, the ids in the ordered variant.
pub record IsThread (order : List Word32) (t : HlDijkstra) : Type 0 where
  pub same_order : t.calc_order ≡ order
  pub old_ids : List Word32
  pub old_dists : List Word32
  pub old_edges : List Word32
  pub holds_ids : Holds t.found_ids old_ids
  pub ordered : t.found_ids.ordered_by_sorting ≡ true
  pub holds_dists : Holds t.distances old_dists
  pub holds_edges : Holds t.first_edge_id old_edges

pub Carries-IsThread :
    {order : List Word32} {t : HlDijkstra} {rows : List Row}
    → Carries order t rows
    → IsThread order t
Carries-IsThread {order} {t} {rows} c = record {
  same_order = c.same_order;
  old_ids = ids rows;
  old_dists = dists rows;
  old_edges = edges rows;
  holds_ids = c.has_ids.holds;
  ordered = c.has_ids.ordered;
  holds_dists = c.has_dists;
  holds_edges = c.has_edges;
}

only_new : (xs : List Word32) (at : Option ℕ) (x : Word32) → Inserted [] x at xs → xs ≡ x ∷ []
only_new xs none x (e, ([], q, at)) = absurd (ground arith)
only_new xs none x (e, (y ∷ p, q, at)) = absurd (ground arith)
only_new xs (some i) x ([], [], e, new, at) = new
only_new xs (some i) x ([], y ∷ q, e, new, at) = absurd (ground arith)
only_new xs (some i) x (y ∷ p, q, e, new, at) = absurd (ground arith)

pub restart-Carries :
    {order : List Word32} {t : HlDijkstra} (node_id : Word32)
    → IsThread order t
    → node_id < max_value
    → Returns (λ t'. Carries order t' (own_row node_id ∷ [])) (restart t node_id)
unfolding restart
restart-Carries {order} {t} node_id h small =
    let (empty, same) = clear-Holds h.holds_ids in
    Returns-bind
      (insert_sorted-Inserted node_id
        (record {
          holds = empty;
          ordered = same ∙ h.ordered;
          sorted = record { strict = tt; below = tt };
        })
        small)
      λ (at, s) (ys, held, new).
        Returns-bind (insert_tail-Holds 0 (clear-Holds h.holds_dists).0) λ s1 (h1, v1).
          Returns-bind (insert_tail-Holds minus_one (clear-Holds h.holds_edges).0) λ s2 (h2, v2).
            returns (record {
              same_order = h.same_order;
              has_ids = subst (IsOrdered s) (only_new ys at node_id new) held;
              has_dists = h1;
              has_edges = h2;
            })
