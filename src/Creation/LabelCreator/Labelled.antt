-- ===== src/Creation/LabelCreator/Labelled.antt =====
-- calcLabels gives labels to all nodes, and the router gets labels that it can use.
use fapra_osm_routing.Prelude.{
  ℕ, zero, suc, ◌+◌, ◌-◌, ◌*◌, ◌≤◌, ◌<◌, ◌≡◌, refl, sym, ap, ◌∙◌, subst, List, [], ◌∷◌, ◌++◌,
  Word32, max_value, ok, Run, Returns, Returns-bind, Returns-map, length, length-append, All,
  All-append, append-nil, ◌>>=◌, arith,
}
use fapra_osm_routing.Prelude.Members.{Has}
use fapra_osm_routing.Utils.OrderedIntSet.{OrderedIntSet, size}
use fapra_osm_routing.Utils.OrderedIntSet.Sequence.{Holds}
use fapra_osm_routing.Creation.Nodes.{Nodes, get_node_lvl, get_node_count}
use fapra_osm_routing.Creation.Edges.{Edges}
use fapra_osm_routing.Creation.DynamicGrid.{DynamicGrid}
use fapra_osm_routing.Creation.Labels.{Labels, initialize}
use fapra_osm_routing.Creation.HlDijkstra.Rows.{Row, ids}
use fapra_osm_routing.Creation.HlDijkstra.Walks.{IsLabelling, IsSound}
use fapra_osm_routing.Creation.HlDijkstra.Sound.{all_done, initialize-IsLabelling}
use fapra_osm_routing.Creation.LabelCreator.{iteration_loop, calc_labels}
use fapra_osm_routing.Creation.LabelCreator.Order.{count, range, Reads}
use fapra_osm_routing.Creation.LabelCreator.Changes.{
  flatten, begins, IsCalcOrder, create_hl_calc_order-IsCalcOrder,
}
use fapra_osm_routing.Creation.LabelCreator.Ready.{
  IsContracted, descending-AreNext, count-Has, count-range,
}
use fapra_osm_routing.Creation.LabelCreator.Iterations.{
  Steps, IsAt, Has-all_done_list, iteration_loop-IsAt,
}
use fapra_osm_routing.LabelData.HublNodes.{HublNodes}
use fapra_osm_routing.LabelData.HublNodes.LabelInfo.{init_label_info}
use fapra_osm_routing.LabelData.HublNodes.LabelInfo.Routable.{HasCells, init_label_info-HasLabels}
use fapra_osm_routing.Router.TwoLabels.Climb.{HasLabels}

begins-Steps :
    (prev from size : ℕ) (blocks : List (List Word32))
    → prev ≤ from
    → from + length (flatten blocks) ≡ size
    → Steps prev (begins from blocks ++ size ∷ []) size
begins-Steps prev from size [] h total = (omega arith, refl)
begins-Steps prev from size (b ∷ blocks) h total = (
  h,
  begins-Steps from (from + length b) size blocks (omega arith)
      (omega (arith, length-append b (flatten blocks))),
)

-- The entries of the range, one by one.
All-range : (P : Word32 → Type 0) (m : ℕ) → ((v : ℕ) → v < m → P v) → All P (range m)
All-range P zero h = tt
All-range P (suc m) h =
    All-append P (range m) (m ∷ []) (All-range P m λ v l. h v (omega arith)) (h m (omega arith), tt)

module _ (g : DynamicGrid) (e : Edges) (n : Nodes) (level : Word32 → ℕ) (c : ℕ) where
  abbrev nodes : ℕ
  nodes = get_node_count n

  -- A graph with its levels: they can be read, and the edges lead to other levels.
  pub record IsHierarchy : Type 0 where
    pub positive : 0 < nodes
    pub fits : nodes < max_value
    pub fits_distance : nodes * c < 1073741824
    pub reads : (v : ℕ) → v < nodes → (get_node_lvl n v ≡ ok (level v)) × (level v ≤ max_value)
    pub contracted : (v : ℕ) → v < nodes → IsContracted g e n level nodes c v

  -- The labels of all nodes.
  pub record IsComplete (l : Labels) : Type 0 where
    pub done : List Word32
    pub labelling : IsLabelling g e n nodes l done (nodes * c)
    pub every : (v : ℕ) → v < nodes → Has done v

  module _ (h : IsHierarchy) where
    finished-IsComplete :
        {order : List Word32} {l : Labels}
        → ((x : Word32) → count x order ≡ count x (range nodes))
        → length order ≡ nodes
        → IsAt g e n order nodes c nodes l
        → IsComplete l
    finished-IsComplete {order} {l} counts sized k = record {
      done = all_done [] k.before;
      labelling =
          subst (λ j. IsLabelling g e n nodes l (all_done [] k.before) (j * c)) k.at k.labelling;
      every = λ v inside. Has-all_done_list v [] k.before (
          subst (λ q. Has q v) same
            (count-Has v order (omega (arith, counts v, count-range v nodes inside))));
    }
      where
        none_left : (q : List Word32) → length q ≡ 0 → k.before ++ q ≡ k.before
        none_left [] e = append-nil k.before
        none_left (x ∷ q) e = absurd (omega arith)

        same : order ≡ k.before
        same =
            k.split
            ∙ none_left k.after
                (omega (arith, ap length k.split, length-append k.before k.after, k.at))

    iterations-IsComplete :
        (order : List Word32) (s : OrderedIntSet)
        → IsCalcOrder level n nodes (order, s)
        → Returns IsComplete (iteration_loop g e n order s (size s - 1) 0 (initialize nodes))
    unfolding size
    iterations-IsComplete order s k = by_blocks k.blocks k.split k.borders
      where
        start : IsAt g e n order nodes c 0 (initialize nodes)
        start = record {
          before = [];
          after = order;
          split = refl;
          at = refl;
          labelling =
              subst (IsLabelling g e n nodes (initialize nodes) []) (omega arith)
                (initialize-IsLabelling g e n order nodes c);
          next =
              descending-AreNext g e n level nodes c order h.fits h.reads h.contracted [] order
                k.descends λ x. omega (arith, k.counts x);
        }

        by_blocks :
            (blocks : List (List Word32))
            → order ≡ flatten blocks
            → Holds s (begins 0 blocks ++ nodes ∷ [])
            → Returns IsComplete (iteration_loop g e n order s (size s - 1) 0 (initialize nodes))
        by_blocks [] split held = absurd (omega (arith, ap length split, k.lengths, h.positive))
        by_blocks (b ∷ blocks) split held =
            let rest = begins (0 + length b) blocks ++ nodes ∷ [] in
            let rounds : s.element_count - 1 ≡ length rest = omega (arith, held.layout.1) in
            subst (λ j. Returns IsComplete (iteration_loop g e n order s j 0 (initialize nodes)))
              (sym rounds)
              (Returns-map
                (iteration_loop-IsAt g e n order nodes c (rw k.lengths h.fits_distance) [] rest 0
                  nodes held
                  (begins-Steps 0 (0 + length b) nodes blocks (omega arith)
                    (omega (arith, ap length split, length-append b (flatten blocks), k.lengths)))
                  (omega (arith, k.lengths)) start)
                λ l' k'. finished-IsComplete k.counts k.lengths k')

    -- On a graph of fewer than 2^31 - 1 nodes, at least one, whose levels and edges can be read,
    -- whose levels are not negative, whose edges, at most `c` long, lead to nodes of other levels,
    -- and where the number of nodes times `c` is below 2^30, calcLabels returns, its threads run
    -- one after the other, and every node has labels that are sound: by ascending nodes, one for
    -- itself at the distance 0, and each as long as a walk over its first edge, not longer than
    -- the number of nodes times `c`.
    pub calc_labels-IsComplete : Returns IsComplete (calc_labels g e n (initialize nodes))
    unfolding calc_labels
    calc_labels-IsComplete =
        Returns-bind
          (create_hl_calc_order-IsCalcOrder level n h.positive
            (All-range (Reads level n) nodes h.reads))
          λ (order, s) k. iterations-IsComplete order s k

    module _ {Line : Type 0} (to_line : Word32 → Line) (parse_int : Line → Run Word32)
        (parses : (x : Word32) → parse_int (to_line x) ≡ ok x) where
      -- On a graph of fewer than 2^31 - 1 nodes, at least one, whose levels and edges can be read,
      -- whose levels are not negative, whose edges, at most `c` long, lead to nodes of other
      -- levels, where the number of nodes times `c` is below 2^30, and with lines of which
      -- parseInt reads back the int: calcLabels and then initLabelInfo return, and in HubLNodes
      -- every node has the range of labels that the router's merge asks for: by strictly ascending
      -- nodes, with distances below 2^30 and a cell behind the last one. Its cells are the rows of
      -- the node, one of them for the node itself, and each row is that of the node itself at the
      -- distance 0 or as long as a walk that begins with the row's edge and never leads to a lower
      -- level.
      pub calc_and_init-HasLabels :
          (router : HublNodes)
          → Returns
              (λ r.
                (v : ℕ)
                → v < nodes
                → (lo : ℕ) × (hi : ℕ) × (rows : List Row) × HasLabels r v lo hi
                  × HasCells r lo hi rows
                  × All (IsSound g e n v) rows
                  × Has (ids rows) v)
              (calc_labels g e n (initialize nodes) >>= λ l.
                init_label_info to_line parse_int l router)
      calc_and_init-HasLabels router = Returns-bind calc_labels-IsComplete λ l k.
          Returns-map
            (init_label_info-HasLabels to_line parse_int parses g e n h.fits_distance k.labelling
              k.every router)
            λ r served v inside.
              let (hl, lo, hi, labels, cells) = served v inside in
              (lo, hi, hl.rows, labels, cells, hl.sound, hl.own)
