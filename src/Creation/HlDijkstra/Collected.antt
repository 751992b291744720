-- ===== src/Creation/HlDijkstra/Collected.antt =====
-- The first loop of calcLabels: a row for each neighbour that is not lower.
use fapra_osm_routing.Prelude.{
  some, ℕ, zero, suc, ◌+◌, ◌≤◌, ◌<◌, ◌≡◌, ◌≢◌, inl, inr, refl, sym, subst, List, [], ◌∷◌, ◌++◌,
  Word32, max_value, lt_int, Returns, Returns-bind, Returns-map, returns, length, All, All-append,
  All-insert, false, Bool-cases, arith, map-append,
}
use fapra_osm_routing.Prelude.Ascending.{All-imply}
use fapra_osm_routing.Prelude.Buffer.{IsBuffer, store_in_place}
use fapra_osm_routing.Prelude.Members.{Has, Has-insert, Has-middle}
use fapra_osm_routing.Search.{Position, found, missing}
use fapra_osm_routing.Creation.Nodes.{Nodes}
use fapra_osm_routing.Creation.Edges.{Edges}
use fapra_osm_routing.Creation.DynamicGrid.{DynamicGrid}
use fapra_osm_routing.Creation.HlDijkstra.{
  HlDijkstra, Neighbours, insert_row, insert_missing, add_neighbour, visit_edge, edge_loop,
}
use fapra_osm_routing.Creation.HlDijkstra.Rows.{Row, Carries, Finds, ids, own_row, get_idx-Finds}
use fapra_osm_routing.Creation.HlDijkstra.Steps.{insert_row-Carries}
use fapra_osm_routing.Creation.HlDijkstra.Walks.{Step, stay, IsSound, IsNext}

-- A row more does not hide the others.
pub Has-ids-insert :
    (p : List Row) (r : Row) (q : List Row) (x : Word32)
    → Has (ids (p ++ q)) x
    → Has (ids (p ++ r ∷ q)) x
Has-ids-insert p r q x h =
    subst (λ l. Has l x) (sym (map-append (λ r. r.id) p (r ∷ q)))
      ((Has-insert (ids p) r.id (ids q) x).1
        (inl (subst (λ l. Has l x) (map-append (λ r. r.id) p q) h)))

pub Has-ids-new : (p : List Row) (r : Row) (q : List Row) → Has (ids (p ++ r ∷ q)) r.id
Has-ids-new p r q =
    subst (λ l. Has l r.id) (sym (map-append (λ r. r.id) p (r ∷ q)))
      (Has-middle (ids p) r.id (ids q))

module _ (g : DynamicGrid) (e : Edges) (n : Nodes) (done : List Word32) (v : Word32) where
  -- What is known of a row while the labels of `v` are found.
  pub record IsGood (nbs : List Word32) (near bound : ℕ) (r : Row) : Type 0 where
    pub sound : IsSound g e n v r
    pub only_own : r.id ≡ v → r ≡ own_row v
    pub is_near : Has nbs r.id → r.dist ≤ near
    pub bounded : r.dist ≤ bound
    pub labelled : r.id ≢ v → Has done r.id

  -- The rows found so far, which include `v` and the neighbours `nbs`.
  pub record Progress (order nbs : List Word32) (near bound : ℕ) (t : HlDijkstra) : Type 0 where
    pub rows : List Row
    pub carries : Carries order t rows
    pub good : All (IsGood nbs near bound) rows
    pub has_own : Has (ids rows) v
    pub present : All (λ u. Has (ids rows) u × Has done u) nbs

  -- The state of the first loop, which has added the neighbours `nbs`.
  pub record Collected (order nbs : List Word32) (c : ℕ) (s : Neighbours) : Type 0 where
    pub progress : Progress order [] c c s.search
    pub found_all : All (λ u. Has (ids progress.rows) u × Has done u) nbs
    pub buffer : IsBuffer s.neighbour_ids s.real_neighbour_count nbs

  -- After the first loop all rows are near.
  pub Collected-Progress :
      {order nbs : List Word32} {c : ℕ} {s : Neighbours} (more : ℕ)
      → Collected order nbs c s
      → Progress order nbs c (c + more) s.search
  Collected-Progress more k = record {
    rows = k.progress.rows;
    carries = k.progress.carries;
    good =
        All-imply k.progress.rows
          (λ r h. record {
            sound = h.sound;
            only_own = h.only_own;
            is_near = λ m. h.bounded;
            bounded = omega (arith, h.bounded);
            labelled = h.labelled;
          })
          k.progress.good;
    has_own = k.progress.has_own;
    present = k.found_all;
  }

  -- A new row keeps what is known.
  pub insert_row-Progress :
      {order nbs : List Word32} {near bound : ℕ} {t : HlDijkstra}
      (k : Progress order nbs near bound t) (r : Row) (i : ℕ)
      → r.id < max_value
      → IsGood nbs near bound r
      → Finds k.rows r.id (missing i)
      → Returns
          (λ t'.
            (k' : Progress order nbs near bound t') × Has (ids k'.rows) r.id
            × ((x : Word32) → Has (ids k.rows) x → Has (ids k'.rows) x))
          (insert_row t r.id r.dist r.edge i)
  insert_row-Progress {order} {nbs} {near} {bound} {t} k r i small new
        (p, q, split, at, lower, upper) =
      Returns-map
        (insert_row-Carries p r q i at (subst (Carries order t) split k.carries) small lower upper)
        λ t' held.
          let keeps : (x : Word32) → Has (ids k.rows) x → Has (ids (p ++ r ∷ q)) x =
            λ x h. Has-ids-insert p r q x (subst (λ l. Has (ids l) x) split h) in
          (
            record {
              rows = p ++ r ∷ q;
              carries = held;
              good =
                  All-insert (IsGood nbs near bound) p r q new
                    (subst (All (IsGood nbs near bound)) split k.good);
              has_own = keeps v k.has_own;
              present = All-imply nbs (λ u (h, d). (keeps u h, d)) k.present;
            },
            Has-ids-new p r q,
            keeps,
          )

module _ {g : DynamicGrid} {e : Edges} {n : Nodes} {done : List Word32} {v : Word32}
    {node_count c : ℕ} (order : List Word32) (next : IsNext g e n node_count c done v) where
  -- The row for the neighbour over an edge.
  abbrev neighbour_row : ℕ → Row
  neighbour_row i = record { id = next.dest i; dist = next.dist i; edge = next.edge i }

  module _ (i : ℕ) (inside : i < next.count)
      (high : lt_int (next.dest_level i) next.level ≡ false) where
    neighbour-Step : Step g e n v (next.edge i) (next.dest i) (next.dist i)
    neighbour-Step = record {
      row = next.row;
      count = next.count;
      i = i;
      has_row = next.has_row;
      has_count = next.has_count;
      inside = inside;
      at = next.reads_edge i inside;
      leads = next.reads_dest i inside;
      lasts = next.reads_dist i inside;
      level_from = next.level;
      level_to = next.dest_level i;
      has_level_from = next.has_level;
      has_level_to = next.reads_level i inside;
      not_lower = high;
    }

    other-node : next.dest i ≢ v
    other-node at = next.fresh (subst (Has done) at (next.labelled i inside high))

    neighbour-IsGood : IsGood g e n done v [] c c (neighbour_row i)
    neighbour-IsGood = record {
      sound = inr (record {
        u = next.dest i;
        c = next.dist i;
        rest = 0;
        step = neighbour-Step;
        walk = stay refl refl;
        sum = omega arith;
      });
      only_own = λ at. absurd (other-node at);
      is_near = λ m. absurd m;
      bounded = next.short i inside;
      labelled = λ differ. next.labelled i inside high;
    }

  -- What a round of the first loop keeps: the neighbours found have room in their array.
  abbrev pub Round : ℕ → Neighbours → Type 0
  Round i s =
      (nbs : List Word32) × Collected g e n done v order nbs c s
      × (s.real_neighbour_count ≤ i)
      × (length s.neighbour_ids ≡ next.count)

  module _ (small : (u : Word32) → Has done u → u < max_value) where
    inserted :
        (i : ℕ) (inside : i < next.count)
        → (high : lt_int (next.dest_level i) next.level ≡ false)
        → (s : Neighbours) (k : Progress g e n done v order [] c c s.search)
        → next.dest i < max_value
        → (at : Position) → Finds k.rows (next.dest i) at
        → Returns
            (λ t'.
              (k' : Progress g e n done v order [] c c t') × Has (ids k'.rows) (next.dest i)
              × ((x : Word32) → Has (ids k.rows) x → Has (ids k'.rows) x))
            (insert_missing s.search (next.dest i) (next.dist i) (next.edge i) at)
    unfolding insert_missing
    inserted i inside high s k below (missing j) finds =
        insert_row-Progress g e n done v k (neighbour_row i) j below
          (neighbour-IsGood i inside high) finds
    inserted i inside high s k below (found j) (p, r, q, split, same, at) = returns (
      k,
      subst (Has (ids k.rows)) same (subst (λ l. Has (ids l) r.id) (sym split) (Has-ids-new p r q)),
      λ x h. h,
    )

    collect :
        (i : ℕ)
        → i < next.count
        → lt_int (next.dest_level i) next.level ≡ false
        → (s : Neighbours) → Round i s
        → Returns (Round (i + 1)) (add_neighbour e (next.edge i) (next.dest i) s)
    unfolding add_neighbour
    collect i inside high s (nbs, k, few, room) =
        let in_done = next.labelled i inside high in
        let below = small (next.dest i) in_done in
        rw (next.reads_dist i inside) (
          Returns-bind (store_in_place (next.dest i) k.buffer (omega arith)) λ b (held, same).
            Returns-bind (get_idx-Finds k.progress.carries (next.dest i) below) λ at finds.
              Returns-bind (inserted i inside high s k.progress below at finds)
                λ t (k', new, keeps). returns (
                  nbs ++ next.dest i ∷ [],
                  record {
                    progress = k';
                    found_all =
                        All-append (λ u. Has (ids k'.rows) u × Has done u) nbs _
                          (All-imply nbs (λ u (h, d). (keeps u h, d)) k.found_all)
                          ((new, in_done), tt);
                    buffer = held;
                  },
                  omega arith,
                  omega arith,
                ))

    pub edge_loop-Round :
        (left i : ℕ)
        → left + i ≡ next.count
        → (s : Neighbours) → Round i s
        → Returns (Round next.count) (edge_loop e n (some next.row) next.level left i s)
    unfolding edge_loop visit_edge
    edge_loop-Round zero i total s k =
        let end : i ≡ next.count = omega arith in returns (subst (λ j. Round j s) end k)
    edge_loop-Round (suc left) i total s (nbs, k, few, room) =
        let inside : i < next.count = omega arith in
        rw (next.reads_edge i inside, next.reads_dest i inside, next.reads_level i inside)
          (elim (Bool-cases (lt_int (next.dest_level i) next.level)) [
            | inl low ↦
                rw low (edge_loop-Round left (i + 1) (omega arith) s (nbs, k, omega arith, room))
            | inr high ↦ rw high (
                Returns-bind (collect i inside high s (nbs, k, few, room))
                  λ s' k'. edge_loop-Round left (i + 1) (omega arith) s' k')
          ])
