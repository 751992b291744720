-- ===== src/Creation/HlDijkstra/Pruned.antt =====
-- removeRedundancies keeps what is known of the rows, and the row of the node itself.
use fapra_osm_routing.Prelude.{
  ℕ, zero, suc, ◌+◌, ◌≤◌, ◌<◌, ◌≡◌, ◌≢◌, inl, inr, refl, sym, ◌∙◌, subst, List, [], ◌∷◌, ◌++◌,
  Word32, max_value, ok, Returns, Returns-bind, Returns-map, returns, load-ok, length, length-map,
  length-append, get_or, All, All-get, All-remove, All-split, true, false, Bool-cases, arith,
  append_assoc, ◌==◌, ltb,
}
use fapra_osm_routing.Prelude.Ascending.{All-imply}
use fapra_osm_routing.Prelude.Members.{Has, All-Has}
use fapra_osm_routing.Search.Sets.{IsSorted-get}
use fapra_osm_routing.Utils.OrderedIntSet.{size}
use fapra_osm_routing.Utils.OrderedIntSet.Sequence.{get-Holds}
use fapra_osm_routing.Creation.Nodes.{Nodes}
use fapra_osm_routing.Creation.Edges.{Edges}
use fapra_osm_routing.Creation.DynamicGrid.{DynamicGrid}
use fapra_osm_routing.Creation.Labels.{Labels}
use fapra_osm_routing.Creation.Labels.Redundant.{IsReady, is_redundant-Answered}
use fapra_osm_routing.Creation.HlDijkstra.{
  HlDijkstra, is_row_redundant, remove_row, redundancy_loop, remove_redundancies,
}
use fapra_osm_routing.Creation.HlDijkstra.Rows.{
  Row, Carries, ids, dists, All-column, Has-ids-remove,
}
use fapra_osm_routing.Creation.HlDijkstra.Steps.{reads_id, reads_dist, remove_row-Carries}
use fapra_osm_routing.Creation.HlDijkstra.Walks.{HasLabels}
use fapra_osm_routing.Creation.HlDijkstra.Collected.{IsGood, Progress}

-- The number of rows is the size of the set of ids.
pub Carries-size :
    {order : List Word32} {t : HlDijkstra} {rows : List Row}
    → Carries order t rows
    → size t.found_ids ≡ length rows
unfolding size
Carries-size {rows = rows} c = omega (arith, c.has_ids.holds.layout.1, length-map (λ r. r.id) rows)

module _ (g : DynamicGrid) (e : Edges) (n : Nodes) (done : List Word32) (v : Word32)
    (order : List Word32) (bound : ℕ) where
  abbrev Good : Row → Type 0
  Good = IsGood g e n done v [] 0 bound

  -- The rows that are left while the redundant ones are removed.
  pub record IsPruned (t : HlDijkstra) (rows : List Row) : Type 0 where
    pub carries : Carries order t rows
    pub good : All Good rows
    pub has_own : Has (ids rows) v

  pub Progress-IsPruned :
      {nbs : List Word32} {near : ℕ} {t : HlDijkstra}
      (k : Progress g e n done v order nbs near bound t)
      → IsPruned t k.rows
  Progress-IsPruned k = record {
    carries = k.carries;
    good =
        All-imply k.rows
          (λ r h. record {
            sound = h.sound;
            only_own = h.only_own;
            is_near = λ m. absurd m;
            bounded = h.bounded;
            labelled = h.labelled;
          })
          k.good;
    has_own = k.has_own;
  }

module _ (g : DynamicGrid) (e : Edges) (n : Nodes) (done : List Word32) (v : Word32)
    (order : List Word32) (bound labels_bound : ℕ) (fits : bound < 1073741824)
    (fits_labels : labels_bound < 1073741824) where
  -- Redundancy can be asked for.
  row-IsReady :
      {l : Labels} {t : HlDijkstra} {rows : List Row} (u d : Word32)
      → Carries order t rows
      → All (λ r. r.dist ≤ bound) rows
      → HasLabels g e n l done labels_bound u
      → d ≤ bound
      → IsReady l u d t.found_ids t.distances
  row-IsReady {l} {t} {rows} u d c bounded hl near =
      let count = Carries-size c in
      let count_ids = length-map (λ r. r.id) rows in
      let count_dists = length-map (λ r. r.dist) rows in
      let labels_ids = length-map (λ r. r.id) hl.rows in
      let labels_dists = length-map (λ r. r.dist) hl.rows in
      record {
        nodes = ids hl.rows;
        dists = dists hl.rows;
        has_nodes = hl.has_ids;
        has_dists = hl.has_dists;
        node = λ i. get_or (ids hl.rows) i 0;
        dist = λ i. get_or (dists hl.rows) i 0;
        own_node = λ j. get_or (ids rows) j 0;
        own_dist = λ j. get_or (dists rows) j 0;
        reads_node = λ i h. load-ok (ids hl.rows) i 0 h;
        reads_dist = λ i h. load-ok (dists hl.rows) i 0 (omega arith);
        reads_own_node =
            λ j h. get-Holds (ids rows) j c.has_ids.holds ∙ load-ok (ids rows) j 0 (omega arith);
        reads_own_dist =
            λ j h. get-Holds (dists rows) j c.has_dists ∙ load-ok (dists rows) j 0 (omega arith);
        strict = IsSorted-get hl.sorted;
        own_strict = λ j k p q. IsSorted-get c.has_ids.sorted j k p (omega arith);
        small = λ i h. (
          All-get (λ x. x < max_value) (ids hl.rows) i 0 hl.sorted.below h,
          let b =
                All-get (λ x. x ≤ labels_bound) (dists hl.rows) i 0
                  (All-column (λ x. x ≤ labels_bound) (λ r. r.dist) hl.rows hl.bounded)
                  (omega arith) in
              omega (arith, b),
        );
        own_small = λ j h. (
          All-get (λ x. x < max_value) (ids rows) j 0 c.has_ids.sorted.below (omega arith),
          let b =
                All-get (λ x. x ≤ bound) (dists rows) j 0
                  (All-column (λ x. x ≤ bound) (λ r. r.dist) rows bounded) (omega arith) in
              omega (arith, b),
        );
        small_check = omega arith;
      }

  module _ (l : Labels) (labels : All (HasLabels g e n l done labels_bound) done) where
    asks :
        (p : List Row) (r : Row) (q : List Row) {t : HlDijkstra}
        → IsPruned g e n done v order bound t (p ++ r ∷ q)
        → r.id ≢ v
        → Returns {0, 0} (λ b. Unit) (is_row_redundant l v (length p) t)
    unfolding is_row_redundant
    asks p r q {t} k differ =
        let other : (r.id == v) ≡ false = ground arith in
        let good = (All-split (IsGood g e n done v [] 0 bound) p (r ∷ q) k.good).1.0 in
        let hl =
          All-Has (HasLabels g e n l done labels_bound) done r.id labels (good.labelled differ) in
        rw
          (
            reads_id p r q (length p) refl k.carries,
            other,
            reads_dist p r q (length p) refl k.carries,
          )
          (Returns-map
            (is_redundant-Answered (
              row-IsReady r.id r.dist k.carries (All-imply _ (λ r h. h.bounded) k.good) hl
                good.bounded))
            λ b a. tt)

    keeps_own :
        (p : List Row) (r : Row) (q : List Row) {t : HlDijkstra}
        → IsPruned g e n done v order bound t (p ++ r ∷ q)
        → r.id ≡ v
        → is_row_redundant l v (length p) t ≡ ok false
    unfolding is_row_redundant
    keeps_own p r q k same =
        let own : (r.id == v) ≡ true = ground arith in
        rw (reads_id p r q (length p) refl k.carries, own) refl

    removes :
        (p : List Row) (r : Row) (q : List Row) {t : HlDijkstra}
        → IsPruned g e n done v order bound t (p ++ r ∷ q)
        → r.id ≢ v
        → Returns (λ t'. IsPruned g e n done v order bound t' (p ++ q)) (remove_row t (length p))
    removes p r q k differ =
        Returns-map (remove_row-Carries p r q (length p) refl k.carries) λ t' held. record {
          carries = held;
          good = All-remove (IsGood g e n done v [] 0 bound) p r q k.good;
          has_own = Has-ids-remove p r q v k.has_own differ;
        }

    pub loop-IsPruned :
        (fuel : ℕ) (p todo : List Row) {t : HlDijkstra}
        → length todo < fuel
        → IsPruned g e n done v order bound t (p ++ todo)
        → Returns
            (λ t'. (rows : List Row) × IsPruned g e n done v order bound t' rows)
            (redundancy_loop l v fuel (length p) t)
    unfolding redundancy_loop
    loop-IsPruned zero p todo f k = absurd (omega arith)
    loop-IsPruned (suc fuel) p [] {t} f k =
        let end : ltb (length p) (size t.found_ids) ≡ false =
          ground (arith, Carries-size k.carries, length-append p []) in
        rw end (returns (p ++ [], k))
    loop-IsPruned (suc fuel) p (r ∷ q) {t} f k =
        let more : ltb (length p) (size t.found_ids) ≡ true =
          ground (arith, Carries-size k.carries, length-append p (r ∷ q)) in
        let next : length (p ++ r ∷ []) ≡ length p + 1 = omega (arith, length-append p (r ∷ [])) in
        let skip =
          subst
            (λ j.
              Returns (λ t'. (rows : List Row) × IsPruned g e n done v order bound t' rows)
                (redundancy_loop l v fuel j t))
            next
            (loop-IsPruned fuel (p ++ r ∷ []) q (omega arith)
              (subst (IsPruned g e n done v order bound t) (sym (append_assoc p (r ∷ []) q)) k)) in
        rw more (elim (Bool-cases (r.id == v)) [
          | inl same ↦ rw (keeps_own p r q k (ground arith)) skip
          | inr differ ↦ Returns-bind (asks p r q k (ground arith)) (elim [
            | true ↦ λ u.
                Returns-bind (removes p r q k (ground arith))
                  λ t' k'. loop-IsPruned fuel p q (omega arith) k'
            | false ↦ λ u. skip
          ])
        ])

    pub remove_redundancies-IsPruned :
        {t : HlDijkstra} {rows : List Row}
        → IsPruned g e n done v order bound t rows
        → Returns
            (λ t'. (rows' : List Row) × IsPruned g e n done v order bound t' rows')
            (remove_redundancies l v t)
    unfolding remove_redundancies
    remove_redundancies-IsPruned {t} {rows} k =
        loop-IsPruned (size t.found_ids + 1) [] rows (omega (arith, Carries-size k.carries)) k
