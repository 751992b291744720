-- ===== src/Creation/HlDijkstra/Merged.antt =====
-- The second loop of calcLabels: the labels of the neighbours, over the edges to them.
use fapra_osm_routing.Prelude.{
  ℕ, zero, suc, ◌+◌, ◌≤◌, ◌<◌, ◌≡◌, ◌≢◌, inl, inr, refl, sym, ap, ◌∙◌, subst, List, [], ◌∷◌, ◌++◌,
  Word32, max_value, lt_int, add_int, some, ok, Returns, Returns-bind, Returns-map, Returns-inv,
  get_elem?, get_elem?-append, append_assoc, length-append, returns, load, length, get_or, All,
  All-get, All-append, All-split, Bool-cases, arith, length-map,
}
use fapra_osm_routing.Prelude.Ascending.{All-imply}
use fapra_osm_routing.Prelude.Members.{Has, All-Has}
use fapra_osm_routing.Search.{Position, found, missing}
use fapra_osm_routing.Creation.Nodes.{Nodes}
use fapra_osm_routing.Creation.Edges.{Edges}
use fapra_osm_routing.Creation.DynamicGrid.{DynamicGrid}
use fapra_osm_routing.Creation.Labels.{Labels}
use fapra_osm_routing.Creation.HlDijkstra.{
  HlDijkstra, insert_or_update, merge_label, label_loop, merge_neighbour, merge_loop,
}
use fapra_osm_routing.Creation.HlDijkstra.Rows.{
  Row, Carries, Finds, ids, dists, closer, closer-ids, own_row, load-column, not_between, row_of,
  get_idx-Finds,
}
use fapra_osm_routing.Creation.HlDijkstra.Steps.{update_row-Carries, reads_dist, reads_edge}
use fapra_osm_routing.Creation.HlDijkstra.Walks.{
  Walk-append, IsSound-Walk, Leaves, IsSound, HasLabels,
}
use fapra_osm_routing.Creation.HlDijkstra.Collected.{IsGood, Progress, insert_row-Progress}

module _ (g : DynamicGrid) (e : Edges) (n : Nodes) (done : List Word32) (v : Word32)
    (order nbs : List Word32) (c labels_bound : ℕ) where
  abbrev Good : Row → Type 0
  Good = IsGood g e n done v nbs c (c + labels_bound)

  abbrev pub Progresses : HlDijkstra → Type 0
  Progresses = Progress g e n done v order nbs c (c + labels_bound)

  -- The row that a label of a neighbour offers.
  pub record IsOffer (r : Row) : Type 0 where
    pub leaves : Leaves g e n v r.id r.dist r.edge
    pub in_done : Has done r.id
    pub bounded : r.dist ≤ c + labels_bound
    pub small : r.id < max_value

  module _ (fresh : ¬ Has done v) (fits : c + labels_bound < 1073741824) {t : HlDijkstra}
      (k : Progresses t) (r : Row) (offer : IsOffer r) where
    offer_differs : r.id ≢ v
    offer_differs at = fresh (subst (Has done) at offer.in_done)

    -- Where the smaller distance counts, the row is still good.
    closer-Good : (old : Row) → old.id ≡ r.id → Good old → Good (closer old r.dist r.edge)
    closer-Good old same good = elim (Bool-cases (lt_int r.dist old.dist)) [
      | inr far ↦ rw far good
      | inl near ↦
          let shorter : r.dist ≤ old.dist = ground (arith, good.bounded, offer.bounded) in
          rw near (record {
            sound = inr (subst (λ x. Leaves g e n v x r.dist r.edge) (sym same) offer.leaves);
            only_own = λ at. absurd (offer_differs (sym same ∙ at));
            is_near = λ m. omega (arith, good.is_near m);
            bounded = offer.bounded;
            labelled = good.labelled;
          })
    ]

    merge-Progress :
        (at : Position)
        → Finds k.rows r.id at
        → Returns Progresses (insert_or_update t r.id r.dist r.edge at)
    unfolding insert_or_update
    merge-Progress (missing i) finds =
        let (p, q, split, at, lower, upper) = finds in
        Returns-map
          (insert_row-Progress g e n done v k r i offer.small
            (record {
              sound = inr offer.leaves;
              only_own = λ at. absurd (offer_differs at);
              is_near = λ m. absurd (
                  not_between p q r.id r.id lower upper
                    (subst (λ l. Has (ids l) r.id) split
                      ((All-Has (λ u. Has (ids k.rows) u × Has done u) nbs r.id k.present m).0))
                    refl);
              bounded = offer.bounded;
              labelled = λ differ. offer.in_done;
            })
            finds)
          λ t' (k', new, keeps). k'
    merge-Progress (found i) (p, old, q, split, same, at) =
        Returns-map
          (update_row-Carries p old q i at r.dist r.edge (subst (Carries order t) split k.carries))
          λ t' held.
            let known = subst (All Good) split k.good in
            let new = closer old r.dist r.edge in
            let (left, right) = All-split Good p (old ∷ q) known in
            let stays : (x : Word32) → Has (ids k.rows) x → Has (ids (p ++ new ∷ q)) x = λ x h.
              subst (λ l. Has l x) (closer-ids p old q r.dist r.edge)
                (subst (λ l. Has (ids l) x) split h) in
            record {
              rows = p ++ new ∷ q;
              carries = held;
              good = All-append Good p (new ∷ q) left (closer-Good old same right.0, right.1);
              has_own = stays v k.has_own;
              present = All-imply nbs (λ u (h, d). (stays u h, d)) k.present;
            }

  module _ (fresh : ¬ Has done v) (fits : c + labels_bound < 1073741824)
      (small : (u : Word32) → Has done u → u < max_value) where
    module _ {l : Labels} {u : Word32} (hl : HasLabels g e n l done labels_bound u)
        (base_dist base_edge : Word32) (leaves : Leaves g e n v u base_dist base_edge)
        (near : base_dist ≤ c) where
      abbrev label : ℕ → Row
      label i = get_or hl.rows i (own_row 0)

      abbrev offered : ℕ → Row
      offered i = record {
        id = (label i).id;
        dist = add_int base_dist (label i).dist;
        edge = base_edge;
      }

      offered-IsOffer : (i : ℕ) → i < length hl.rows → IsOffer (offered i)
      offered-IsOffer i inside =
          let bounded =
            All-get (λ r. r.dist ≤ labels_bound) hl.rows i (own_row 0) hl.bounded inside in
          let in_done = All-get (λ r. Has done r.id) hl.rows i (own_row 0) hl.labelled inside in
          record {
            leaves = record {
              u = leaves.u;
              c = leaves.c;
              rest = leaves.rest + (label i).dist;
              step = leaves.step;
              walk = Walk-append g e n leaves.walk (
                  IsSound-Walk g e n
                    (All-get (IsSound g e n u) hl.rows i (own_row 0) hl.sound inside));
              sum = omega (arith, leaves.sum, bounded);
            };
            in_done = in_done;
            bounded = omega (arith, bounded);
            small = small (label i).id in_done;
          }

      label_loop-Progress :
          (left i : ℕ)
          → left + i ≡ length hl.rows
          → {t : HlDijkstra} → Progresses t
          → Returns Progresses
              (label_loop (ids hl.rows) (some (dists hl.rows)) base_dist base_edge left i t)
      unfolding label_loop merge_label
      label_loop-Progress zero i total k = returns k
      label_loop-Progress (suc left) i total k =
          let inside : i < length hl.rows = omega arith in
          let offer = offered-IsOffer i inside in
          rw (load-column (λ r. r.id) hl.rows i inside) (
            Returns-bind
              (Returns-bind (get_idx-Finds k.carries (label i).id offer.small) λ at finds.
                rw (load-column (λ r. r.dist) hl.rows i inside)
                  (merge-Progress fresh fits k (offered i) offer at finds))
              λ t' k'. label_loop-Progress left (i + 1) (omega arith) k')

    module _ (l : Labels) where
      pub merge_neighbour-Progress :
          {t : HlDijkstra} (u : Word32)
          → Has nbs u
          → HasLabels g e n l done labels_bound u
          → Progresses t
          → Returns Progresses (merge_neighbour l u t)
      unfolding merge_neighbour
      merge_neighbour-Progress {t} u neighbour hl k =
          let (in_rows, in_done) =
            All-Has (λ u. Has (ids k.rows) u × Has done u) nbs u k.present neighbour in
          let (at, returned, finds) = Returns-inv (get_idx-Finds k.carries u (small u in_done)) in
          let (i, p, b, q, index, split, same, place) = row_of k.rows u at in_rows finds in
          let held = subst (Carries order t) split k.carries in
          let good = (All-split Good p (b ∷ q) (subst (All Good) split k.good)).1.0 in
          rw
            (
              returned ∙ ap ok index,
              reads_dist p b q i place held,
              reads_edge p b q i place held,
              hl.has_ids,
              hl.has_dists,
            )
            (label_loop-Progress hl b.dist b.edge (over_edge b u same in_done good.sound)
              (good.is_near (subst (Has nbs) (sym same) neighbour)) (length (ids hl.rows)) 0
              (omega (arith, length-map (λ r. r.id) hl.rows)) k)
        where
          over_edge :
              (b : Row) (u : Word32)
              → b.id ≡ u
              → Has done u
              → IsSound g e n v b
              → Leaves g e n v u b.dist b.edge
          over_edge b u same in_done (inl own) =
              absurd (fresh (subst (Has done) (sym same ∙ ap (λ r. r.id) own) in_done))
          over_edge b u same in_done (inr leaves) =
              subst (λ x. Leaves g e n v x b.dist b.edge) same leaves

      pub merge_loop-Progress :
          (cells : List Word32) (todo p : List Word32) (spare : List Word32)
          → cells ≡ (p ++ todo) ++ spare
          → All (λ u. Has nbs u × HasLabels g e n l done labels_bound u) todo
          → {t : HlDijkstra} → Progresses t
          → Returns Progresses (merge_loop l cells (length todo) (length p) t)
      unfolding merge_loop
      merge_loop-Progress cells [] p spare at h k = returns k
      merge_loop-Progress cells (u ∷ todo) p spare at ((neighbour, hl), h) {t} k =
          let here : get_elem? cells (length p) ≡ some u =
            ap (λ a. get_elem? a (length p)) (at ∙ append_assoc p (u ∷ todo) spare)
            ∙ get_elem?-append p u (todo ++ spare) (length p) refl in
          let next : length (p ++ u ∷ []) ≡ length p + 1 =
            omega (arith, length-append p (u ∷ [])) in
          rw (here, load)
            (Returns-bind (merge_neighbour-Progress u neighbour hl k) λ t' k'.
              subst (λ j. Returns Progresses (merge_loop l cells (length todo) j t')) next
                (merge_loop-Progress cells todo (p ++ u ∷ []) spare
                  (at ∙ ap (λ a. a ++ spare) (sym (append_assoc p (u ∷ []) todo))) h k'))
