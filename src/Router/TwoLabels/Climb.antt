-- ===== src/Router/TwoLabels/Climb.antt =====
-- getEdges follows the first edges of the labels up to the common label.
use fapra_osm_routing.Prelude.{
  ℕ, zero, suc, ◌+◌, ◌≤◌, ◌<◌, ◌≡◌, ◌≢◌, inl, inr, ap, sym, ◌∙◌, subst, List, [], ◌∷◌, ◌++◌,
  append_assoc, append-nil, length, get_or, Word32, max_value, rank, Run, ok, Returns, Returns-inv,
  Returns-map, returns, load-ok, ◌==◌, true, false, Bool-cases, arith,
}
use fapra_osm_routing.Utils.IntStack.{IntStack}
use fapra_osm_routing.Utils.IntStack.Deque.{Holds, push-Holds}
use fapra_osm_routing.Search.{index_of, Position, found, missing}
use fapra_osm_routing.Search.Sound.{Locates, search_range-Locates}
use fapra_osm_routing.LabelData.HublEdges.{HublEdges, get_dest}
use fapra_osm_routing.LabelData.HublNodes.{
  HublNodes, get_label_node, get_label_edge, get_label_dist, get_label_offset,
}
use fapra_osm_routing.Router.BestLabel.Least.{Labels}
use fapra_osm_routing.Router.TwoLabels.{label_side, find_label, get_edges, side_edges}

-- The node `v` has the labels in the cells from `lo` to before `hi`, by ascending nodes.
pub record HasLabels (n : HublNodes) (v lo hi : ℕ) : Type 0 where
  pub offset : get_label_offset n v ≡ ok lo
  pub offset_next : get_label_offset n (v + 1) ≡ ok hi
  pub order : lo ≤ hi
  pub room_node : hi < length n.label_node
  pub room_dist : hi < length n.label_dist
  pub strict :
      (i j : ℕ) → lo ≤ i → i < j → j < hi → get_or n.label_node i 0 < get_or n.label_node j 0
  pub small_node : (i : ℕ) → lo ≤ i → i < hi → get_or n.label_node i 0 < max_value
  pub small_dist : (i : ℕ) → lo ≤ i → i < hi → get_or n.label_dist i 0 < 1073741824

module _ {n : HublNodes} {v lo hi : ℕ} (h : HasLabels n v lo hi) where
  pub reads_node : (i : ℕ) → lo ≤ i → i ≤ hi → get_label_node n i ≡ ok (get_or n.label_node i 0)
  unfolding get_label_node
  reads_node i p q = load-ok n.label_node i 0 (omega (arith, h.room_node))

  pub reads_dist : (i : ℕ) → lo ≤ i → i < hi → get_label_dist n i ≡ ok (get_or n.label_dist i 0)
  unfolding get_label_dist
  reads_dist i p q = load-ok n.label_dist i 0 (omega (arith, h.room_dist))

abbrev pub labels_of :
    {n : HublNodes} {v lo hi : ℕ} → HasLabels n v lo hi → Labels (label_side n) lo hi
labels_of {n} h = record {
  node = λ i. get_or n.label_node i 0;
  dist = λ i. get_or n.label_dist i 0;
  order = h.order;
  reads_node = reads_node h;
  reads_dist = reads_dist h;
  strict = h.strict;
  small_node = h.small_node;
  small_dist = h.small_dist;
}

module _ {n : HublNodes} {v lo hi : ℕ} (h : HasLabels n v lo hi) where
  abbrev label : ℕ → Word32
  label i = get_or n.label_node i 0

  labels-ascending : (i j : ℕ) → lo ≤ i → i ≤ j → j < hi → rank (label i) ≤ rank (label j)
  labels-ascending i j p q r = elim (Bool-cases (i == j)) [
    | inl same ↦ let e : i ≡ j = ground arith in omega (arith, ap (λ k. rank (label k)) e)
    | inr differ ↦ ground (arith, h.strict i j p, h.small_node i p, h.small_node j)
  ]

  label_injective :
      (i j : ℕ) → lo ≤ i → lo ≤ j → i < hi → j < hi → rank (label i) ≡ rank (label j) → i ≡ j
  label_injective i j p q p' q' e =
      ground (arith, h.small_node i p p', h.small_node j q q', h.strict i j p, h.strict j i q)

  -- Among strictly ascending labels the search finds the index of the label.
  search-label :
      (idx : ℕ) (highest : Word32)
      → lo ≤ idx
      → idx < hi
      → label idx ≡ highest
      → find_label n lo hi highest ≡ ok idx
  unfolding find_label
  search-label idx highest p q e =
      let (r, returned, located) = Returns-inv (
        search_range-Locates n.label_node lo hi highest labels-ascending
          (omega (arith, h.room_node)) h.order) in
      rw returned (at_index r located)
    where
      at_index : (r : Position) → Locates n.label_node lo hi highest r → index_of r ≡ ok idx
      at_index (found i) (p', q', same) =
          ap ok (label_injective i idx p' p q' q (omega (arith, ap rank e)))
      at_index (missing i) (_, _, below, above) =
          absurd (ground (arith, below idx p, above idx, ap rank e))

ok_injective : (a b : ℕ) → ◌≡◌ {A = Run ℕ} (ok a) (ok b) → a ≡ b
ok_injective a b e = ground arith

-- From the node `v` the first edges of its labels for `highest`, and of those that follow, lead
-- to `highest`.
pub data Climbs (n : HublNodes) (e : HublEdges) (highest : Word32) : ℕ → List ℕ → Type 0 where
  top : {v : ℕ} → v ≡ highest → Climbs n e highest v []
  up :
      {v : ℕ} {es : List ℕ} (lo hi idx edge next : ℕ)
      → v ≢ highest
      → HasLabels n v lo hi
      → lo ≤ idx
      → idx < hi
      → get_or n.label_node idx 0 ≡ highest
      → get_label_edge n idx ≡ ok edge
      → get_dest e edge ≡ ok next
      → Climbs n e highest next es
      → Climbs n e highest v (edge ∷ es)

module _ {n : HublNodes} {e : HublEdges} {highest : Word32} where
  -- Where the first edges of the labels for `highest` lead from the node `v` over the edges `es`
  -- to `highest`, and the fuel exceeds their number, getEdges returns and appends exactly `es` to
  -- the stack.
  pub get_edges-Holds :
      (fuel : ℕ) (xs : List Word32) {v : ℕ} {es : List ℕ} {s : IntStack}
      → Climbs n e highest v es
      → length es < fuel
      → Holds s xs
      → Returns (λ t. Holds t (xs ++ es)) (get_edges n e fuel v highest s)
  unfolding get_edges
  get_edges-Holds zero xs c f h = absurd (omega arith)
  get_edges-Holds (suc fuel) xs {v} {s = s} (top e') f h =
      let here : (v == highest) ≡ true = ground arith in
      rw here (returns (subst (Holds s) (sym (append-nil xs)) h))
  get_edges-Holds (suc fuel) xs {v} {s = s}
        (up {es = es} lo hi idx edge next differ labels p q e' first leads c) f h =
      let away : (v == highest) ≡ false = ground arith in
      let (t, pushed, held) = Returns-inv (push-Holds edge h) in
      let ih = get_edges-Holds fuel (xs ++ edge ∷ []) c (omega arith) held in
      rw (away, labels.offset, labels.offset_next)
        (rw (search-label labels idx highest p q e', first, leads, pushed)
          (Returns-map ih λ u. subst (Holds u) (append_assoc xs (edge ∷ []) es)))

  -- One side of the path holds the first edge of the label, and what getEdges adds.
  pub side_edges-Holds :
      {v : ℕ} {es : List ℕ} {lo hi : ℕ} (fuel : ℕ) {s : IntStack} (idx : ℕ)
      → Climbs n e highest v es
      → HasLabels n v lo hi
      → lo ≤ idx
      → idx < hi
      → get_or n.label_node idx 0 ≡ highest
      → length es ≤ fuel
      → Holds s []
      → Returns (λ t. Holds t es) (side_edges n e fuel v highest idx s)
  unfolding side_edges
  side_edges-Holds {v} fuel idx (top e') labels p q same f h =
      let here : (v == highest) ≡ true = ground arith in rw here (returns h)
  side_edges-Holds {v} fuel idx (up lo' hi' idx' edge next differ labels' p' q' same' first leads c)
        labels p q same f h =
      let away : (v == highest) ≡ false = ground arith in
      let from = ok_injective _ _ (sym labels'.offset ∙ labels.offset) in
      let to = ok_injective _ _ (sym labels'.offset_next ∙ labels.offset_next) in
      let at : idx' ≡ idx =
        label_injective labels idx' idx (omega arith) p (omega arith) q
          (omega (arith, ap rank same', ap rank same)) in
      let (t, pushed, held) = Returns-inv (push-Holds edge h) in
      rw (away, ← at, first, leads, pushed) (get_edges-Holds fuel (edge ∷ []) c (omega arith) held)
