-- ===== src/Creation/HlDijkstra/Sound.antt =====
-- calcLabels as a whole, and run over the nodes of a thread.
use fapra_osm_routing.Prelude.{
  ℕ, suc, ◌+◌, ◌-◌, ◌*◌, ◌<◌, ◌≡◌, inl, inr, refl, sym, ap, ◌∙◌, subst, List, [], ◌∷◌, ◌++◌, Word32,
  max_value, some, none, Returns, Returns-bind, returns, load, length, replicate, length-replicate,
  All, get_elem?, get_elem?-append, append_assoc, length-append, arith, true, false,
}
use native.Mathlib.Nat.{suc-mul}
use fapra_osm_routing.Prelude.Ascending.{All-imply}
use fapra_osm_routing.Prelude.Members.{Has, All-Has}
use fapra_osm_routing.Utils.OrderedIntSet.{new}
use fapra_osm_routing.Utils.OrderedIntSet.Sequence.{to_array-Holds, new-Holds}
use fapra_osm_routing.Creation.Nodes.{Nodes}
use fapra_osm_routing.Creation.Edges.{Edges}
use fapra_osm_routing.Creation.DynamicGrid.{DynamicGrid}
use fapra_osm_routing.Creation.Labels.{Labels, initialize}
use fapra_osm_routing.Creation.HlDijkstra.{
  HlDijkstra, Neighbours, merge_loop, publish, calc_labels, run_loop, run, thread,
}
use fapra_osm_routing.Creation.HlDijkstra.Rows.{Row, Carries, ids, dists, edges, own_row}
use fapra_osm_routing.Creation.HlDijkstra.Steps.{IsThread, Carries-IsThread, restart-Carries}
use fapra_osm_routing.Creation.HlDijkstra.Walks.{HasLabels, IsLabelling, IsNext}
use fapra_osm_routing.Creation.HlDijkstra.Collected.{
  Progress, Collected, Collected-Progress, Round, edge_loop-Round,
}
use fapra_osm_routing.Creation.HlDijkstra.Merged.{merge_loop-Progress}
use fapra_osm_routing.Creation.HlDijkstra.Pruned.{
  IsPruned, Progress-IsPruned, remove_redundancies-IsPruned,
}
use fapra_osm_routing.Creation.HlDijkstra.Published.{with_rows-IsLabelling, add_labels-with_rows}

All-self : (xs ys : List Word32) → ((x : Word32) → Has xs x → Has ys x) → All (Has ys) xs
All-self [] ys h = tt
All-self (x ∷ xs) ys h = (h x (inl refl), All-self xs ys λ y m. h y (inr m))

All-both :
    (P Q : Word32 → Type 0) (xs : List Word32) → All P xs → All Q xs → All (λ x. P x × Q x) xs
All-both P Q [] p q = tt
All-both P Q (x ∷ xs) p q = ((p.0, q.0), All-both P Q xs p.1 q.1)

-- The nodes with labels, after those of a list.
abbrev pub all_done : List Word32 → List Word32 → List Word32
all_done done [] = done
all_done done (v ∷ todo) = all_done (v ∷ done) todo

module _ (g : DynamicGrid) (e : Edges) (n : Nodes) (order : List Word32) (node_count c : ℕ) where
  -- The nodes with labels, and a thread that can go on.
  pub record HasLabelled (done : List Word32) (bound : ℕ) (result : HlDijkstra × Labels)
      : Type 0 where
    pub is_thread : IsThread order result.0
    pub labelling : IsLabelling g e n node_count result.1 done bound

  module _ {done : List Word32} {v : Word32} {bound : ℕ} {l : Labels}
      (fits : c + bound < 1073741824) (labelling : IsLabelling g e n node_count l done bound)
      (next : IsNext g e n node_count c done v) where
    below_max : (u : Word32) → Has done u → u < max_value
    below_max u there =
        let hl = All-Has (HasLabels g e n l done bound) done u labelling.labels there in
        All-Has (λ x. x < max_value) (ids hl.rows) u hl.sorted.below hl.own

    publish-HasLabelled :
        {t : HlDijkstra} {rows : List Row}
        → IsPruned g e n done v order (c + bound) t rows
        → Returns (HasLabelled (v ∷ done) (c + bound)) (publish l v t)
    unfolding publish
    publish-HasLabelled k =
        Returns-bind
          (remove_redundancies-IsPruned g e n done v order (c + bound) bound fits (omega arith) l
            labelling.labels k)
          λ t' (rows, k').
            rw
              (
                to_array-Holds (ids rows) k'.carries.has_ids.holds,
                to_array-Holds (edges rows) k'.carries.has_edges,
                to_array-Holds (dists rows) k'.carries.has_dists,
                add_labels-with_rows g e n done v node_count bound c l rows next.fresh next.in_range
                    labelling,
              )
              (returns (record {
                is_thread = Carries-IsThread k'.carries;
                labelling =
                    with_rows-IsLabelling g e n done v node_count bound c l rows next.fresh
                      next.in_range labelling k';
              }))

    start-Round :
        {t : HlDijkstra}
        → Carries order t (own_row v ∷ [])
        → Round order next 0 (record {
          search = t;
          neighbour_ids = replicate next.count 0;
          real_neighbour_count = 0;
        })
    start-Round k = (
      [],
      record {
        progress = record {
          rows = own_row v ∷ [];
          carries = k;
          good = (
            record {
              sound = inl refl;
              only_own = λ at. refl;
              is_near = λ m. absurd m;
              bounded = omega arith;
              labelled = λ differ. absurd (differ refl);
            },
            tt,
          );
          has_own = inl refl;
          present = tt;
        };
        found_all = tt;
        buffer = record { spare = replicate next.count 0; stored = refl; counted = refl };
      },
      omega arith,
      length-replicate {A = Word32} next.count 0,
    )

    merged :
        (s : Neighbours) (nbs : List Word32) (k : Collected g e n done v order nbs c s)
        → Returns
            (Progress g e n done v order nbs c (c + bound))
            (merge_loop l s.neighbour_ids s.real_neighbour_count 0 s.search)
    merged s nbs k = rw k.buffer.counted (
        merge_loop-Progress g e n done v order nbs c bound next.fresh fits below_max l
          s.neighbour_ids nbs [] k.buffer.spare k.buffer.stored
          (All-both (Has nbs) (HasLabels g e n l done bound) nbs (All-self nbs nbs λ x m. m) (
            All-imply nbs
              (λ u (m, d). All-Has (HasLabels g e n l done bound) done u labelling.labels d)
              k.found_all))
          (Collected-Progress g e n done v bound k))

    -- Where the nodes `done` have sound labels with distances up to a bound, and a node is none of
    -- them, has edges that can be read and are at most `c` long, and has its neighbours, but the
    -- lower ones, among them, where `c` and the bound are below 2^30 together: calcLabels of the
    -- node returns, the thread can go on, and the node and the nodes `done` have sound labels with
    -- distances up to the sum of `c` and the bound: by ascending nodes, one for the node itself at
    -- the distance 0, each for one of these nodes and as long as a walk over its first edge that
    -- never leads to a lower level.
    pub calc_labels-HasLabelled :
        {t : HlDijkstra}
        → IsThread order t
        → Returns (HasLabelled (v ∷ done) (c + bound)) (calc_labels g e n t l v)
    unfolding calc_labels
    calc_labels-HasLabelled h = Returns-bind (restart-Carries v h next.small) λ t k.
        rw (next.has_count, next.has_row, next.has_level)
          (Returns-bind
            (edge_loop-Round order next below_max next.count 0 (omega arith) _ (start-Round k))
            λ s (nbs, collected, few, room).
              Returns-bind (merged s nbs collected)
                λ t' k'. publish-HasLabelled (Progress-IsPruned g e n done v order (c + bound) k'))

  -- The nodes `todo`, one by one: each is ready when the ones before it have labels.
  abbrev pub AreNext : List Word32 → List Word32 → Type 0
  AreNext done [] = Unit
  AreNext done (v ∷ todo) = IsNext g e n node_count c done v × AreNext (v ∷ done) todo

  run_loop-HasLabelled :
      (done todo p q : List Word32) (bound : ℕ) {t : HlDijkstra} {l : Labels}
      → order ≡ p ++ (todo ++ q)
      → length todo * c + bound < 1073741824
      → AreNext done todo
      → IsThread order t
      → IsLabelling g e n node_count l done bound
      → Returns
          (HasLabelled (all_done done todo) (length todo * c + bound))
          (run_loop g e n (length todo) (length p) t l)
  unfolding run_loop
  run_loop-HasLabelled done [] p q bound at fits next h labelling = returns (record {
    is_thread = h;
    labelling = subst (IsLabelling g e n node_count _ done) (omega arith) labelling;
  })
  run_loop-HasLabelled done (v ∷ todo) p q bound {t} {l} at fits next h labelling =
      let here : get_elem? t.calc_order (length p) ≡ some v =
        ap (λ a. get_elem? a (length p)) (h.same_order ∙ at)
        ∙ get_elem?-append p v (todo ++ q) (length p) refl in
      let split : order ≡ (p ++ v ∷ []) ++ (todo ++ q) =
        at ∙ sym (append_assoc p (v ∷ []) (todo ++ q)) in
      let count : length (p ++ v ∷ []) ≡ length p + 1 = omega (arith, length-append p (v ∷ [])) in
      let total : length todo * c + (c + bound) ≡ suc (length todo) * c + bound =
        omega (arith, suc-mul (length todo) c) in
      rw (here, load)
        (Returns-bind (calc_labels-HasLabelled (omega arith) labelling next.0 h) λ (t', l') k.
          subst
            (λ b.
              Returns (HasLabelled (all_done (v ∷ done) todo) b)
                (run_loop g e n (length todo) (length p + 1) t' l'))
            total
            (subst
              (λ j.
                Returns (HasLabelled (all_done (v ∷ done) todo) (length todo * c + (c + bound)))
                  (run_loop g e n (length todo) j t' l'))
              count
              (run_loop-HasLabelled (v ∷ done) todo (p ++ v ∷ []) q (c + bound) split
                (omega (arith, total)) next.1 k.is_thread k.labelling)))

  pub run-HasLabelled :
      (done todo p q : List Word32) (bound : ℕ) {t : HlDijkstra} {l : Labels}
      → order ≡ p ++ (todo ++ q)
      → t.start_node_idx ≡ length p
      → t.end_node_idx ≡ length p + length todo
      → length todo * c + bound < 1073741824
      → AreNext done todo
      → IsThread order t
      → IsLabelling g e n node_count l done bound
      → Returns (HasLabelled (all_done done todo) (length todo * c + bound)) (run g e n t l)
  unfolding run
  run-HasLabelled done todo p q bound {t} {l} at start end fits next h labelling =
      let rounds : t.end_node_idx - t.start_node_idx ≡ length todo = omega arith in
      rw rounds (
        subst
          (λ j.
            Returns (HasLabelled (all_done done todo) (length todo * c + bound))
              (run_loop g e n (length todo) j t l))
          (sym start) (run_loop-HasLabelled done todo p q bound at fits next h labelling))

  -- Before the first node, no node has labels.
  pub initialize-IsLabelling : IsLabelling g e n node_count (initialize node_count) [] 0
  unfolding initialize
  initialize-IsLabelling = record {
    size_nodes = length-replicate node_count none;
    size_edges = length-replicate node_count none;
    size_dist = length-replicate node_count none;
    labels = tt;
  }

  pub thread-IsThread : (from to : ℕ) → IsThread order (thread from to order)
  unfolding thread new
  thread-IsThread from to = record {
    same_order = refl;
    old_ids = [];
    old_dists = [];
    old_edges = [];
    holds_ids = new-Holds true 1000 2000 (omega arith);
    ordered = refl;
    holds_dists = new-Holds false 1000 2000 (omega arith);
    holds_edges = new-Holds false 1000 2000 (omega arith);
  }
