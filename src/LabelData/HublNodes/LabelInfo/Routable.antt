-- ===== src/LabelData/HublNodes/LabelInfo/Routable.antt =====
-- The labels of the preprocessing are labels that the router can use.
use fapra_osm_routing.Prelude.{
  ℕ, zero, suc, ◌+◌, ◌-◌, ◌≤◌, ◌<◌, ◌≡◌, inl, inr, refl, sym, ap, ◌∙◌, subst, List, [], ◌∷◌, ◌++◌,
  Word32, max_value, minus_one, some, Run, ok, Returns, returns, load, length, get_or,
  get_or-append_left, get_or-append_right, All, All-get, length-append, length-map, append_assoc,
  append-nil, map, map-append, get_elem?, get_elem?-append, get_elem?-append_left, arith,
  Bool-cases, ◌==◌, ltb,
}
use fapra_osm_routing.Prelude.Members.{Has, All-Has}
use fapra_osm_routing.Search.Sets.{IsSorted, IsSorted-get}
use fapra_osm_routing.Creation.Nodes.{Nodes}
use fapra_osm_routing.Creation.Edges.{Edges}
use fapra_osm_routing.Creation.DynamicGrid.{DynamicGrid}
use fapra_osm_routing.Creation.Labels.{Labels, get_labels}
use fapra_osm_routing.Creation.Labels
use fapra_osm_routing.Creation.HlDijkstra.Rows.{Row, ids, dists, edges, All-column}
use fapra_osm_routing.Creation.HlDijkstra.Walks.{IsLabelling}
use fapra_osm_routing.Creation.HlDijkstra.Walks
use fapra_osm_routing.LabelData.HublNodes.{HublNodes, get_label_offset}
use fapra_osm_routing.LabelData.HublNodes.LabelInfo.{init_label_info}
use fapra_osm_routing.LabelData.HublNodes.LabelInfo.Flat.{flat, init_label_info-flat}
use fapra_osm_routing.LabelData.HublNodes.LabelInfo.File.{upto, starts}
use fapra_osm_routing.Router.TwoLabels.Climb.{HasLabels}

module _ (rows : ℕ → List Row) where
  length-starts : (m : ℕ) → length (starts rows m) ≡ m
  length-starts zero = refl
  length-starts (suc m) =
      omega (arith, length-append (starts rows m) (length (upto rows m) ∷ []), length-starts m)

  starts-at : (m v : ℕ) → v < m → get_elem? (starts rows m) v ≡ some (length (upto rows v))
  starts-at zero v h = absurd (omega arith)
  starts-at (suc m) v h = elim (Bool-cases (v == m)) [
    | inl last ↦
        let same : v ≡ m = ground arith in
        ap (λ j. get_elem? (starts rows (suc m)) j) same
        ∙ get_elem?-append (starts rows m) (length (upto rows m)) [] m (sym (length-starts m))
        ∙ ap (λ j. some (length (upto rows j))) (sym same)
    | inr before ↦
        get_elem?-append_left (starts rows m) (length (upto rows m) ∷ []) v
          (ground (arith, length-starts m))
        ∙ starts-at m v (ground arith)
  ]

  upto-split :
      (m v : ℕ) → v < m → (rest : List Row) × (upto rows m ≡ upto rows v ++ (rows v ++ rest))
  upto-split zero v h = absurd (omega arith)
  upto-split (suc m) v h = elim (Bool-cases (v == m)) [
    | inl last ↦
        let same : v ≡ m = ground arith in
        (
          [],
          ap (λ j. upto rows j ++ rows j) (sym same)
              ∙ ap (λ q. upto rows v ++ q) (sym (append-nil (rows v))),
        )
    | inr before ↦
        let (rest, split) = upto-split m v (ground arith) in
        (
          rest ++ rows m,
          ap (λ q. q ++ rows m) split
              ∙ append_assoc (upto rows v) (rows v ++ rest) (rows m)
              ∙ ap (λ q. upto rows v ++ q) (append_assoc (rows v) rest (rows m)),
        )
  ]

  -- A column of all rows, around the rows of `v`.
  column-split_at :
      (f : Row → Word32) (m v : ℕ) (rest : List Row)
      → upto rows m ≡ upto rows v ++ (rows v ++ rest)
      → map f (upto rows m) ++ minus_one ∷ []
        ≡ map f (upto rows v) ++ (map f (rows v) ++ (map f rest ++ minus_one ∷ []))
  column-split_at f m v rest split =
      ap (λ q. q ++ minus_one ∷ [])
        (ap (map f) split
          ∙ map-append f (upto rows v) (rows v ++ rest)
          ∙ ap (λ q. map f (upto rows v) ++ q) (map-append f (rows v) rest))
      ∙ append_assoc (map f (upto rows v)) (map f (rows v) ++ map f rest) (minus_one ∷ [])
      ∙ ap (λ q. map f (upto rows v) ++ q)
          (append_assoc (map f (rows v)) (map f rest) (minus_one ∷ []))

  -- A cell of the rows of `v`.
  cell-split_at :
      (f : Row → Word32) (m v : ℕ) (h : v < m) (i : ℕ)
      → length (upto rows v) ≤ i
      → i < length (upto rows (suc v))
      → get_or (map f (upto rows m) ++ minus_one ∷ []) i 0
        ≡ get_or (map f (rows v)) (i - length (upto rows v)) 0
  cell-split_at f m v h i p q =
      let (rest, split) = upto-split m v h in
      let all = length-append (upto rows v) (rows v) in
      let before = length-map f (upto rows v) in
      let own = length-map f (rows v) in
      ap (λ a. get_or a i 0) (column-split_at f m v rest split)
      ∙ get_or-append_right (map f (upto rows v)) _ i (i - length (upto rows v)) 0 (omega arith)
      ∙ get_or-append_left (map f (rows v)) _ (i - length (upto rows v)) 0 (omega arith)

module _ (rows : ℕ → List Row) (node_count v : ℕ) (n : HublNodes) (inside : v < node_count)
    (bound : ℕ) (fits : bound < 1073741824) (sorted : IsSorted (ids (rows v)))
    (bounded : All (λ r. r.dist ≤ bound) (rows v)) where
  flat-HasLabels :
      HasLabels (flat rows node_count n) v (length (upto rows v)) (length (upto rows (suc v)))
  unfolding get_label_offset
  flat-HasLabels =
      let next : suc v ≡ v + 1 = omega arith in
      let (rest, split) = upto-split rows node_count v inside in
      let total = ap length split in
      let own = length-append (upto rows v) (rows v) in
      let some_more = length-append (upto rows v) (rows v ++ rest) in
      let more = length-append (rows v) rest in
      let ids_length = length-map (λ r. r.id) (upto rows node_count) in
      let dists_length = length-map (λ r. r.dist) (upto rows node_count) in
      let own_ids = length-map (λ r. r.id) (rows v) in
      let own_dists = length-map (λ r. r.dist) (rows v) in
      let at_id = cell-split_at rows (λ r. r.id) node_count v inside in
      let at_dist = cell-split_at rows (λ r. r.dist) node_count v inside in
      record {
        offset = rw (starts-at rows (suc node_count) v (omega arith), load) refl;
        offset_next =
            rw (starts-at rows (suc node_count) (v + 1) (omega arith), load)
              (ap (λ j. ok (length (upto rows j))) (sym next));
        order = omega arith;
        room_node = omega (arith, length-append (ids (upto rows node_count)) (minus_one ∷ []));
        room_dist = omega (arith, length-append (dists (upto rows node_count)) (minus_one ∷ []));
        strict = λ i j p q r. omega (
          arith,
          at_id i p (omega arith),
          at_id j (omega arith) r,
          IsSorted-get sorted (i - length (upto rows v)) (j - length (upto rows v)) (omega arith)
              (omega arith),
        );
        small_node = λ i p q. omega (
          arith,
          at_id i p q,
          All-get (λ x. x < max_value) (ids (rows v)) (i - length (upto rows v)) 0 sorted.below
              (omega arith),
        );
        small_dist = λ i p q. omega (
          arith,
          at_dist i p q,
          All-get (λ x. x ≤ bound) (dists (rows v)) (i - length (upto rows v)) 0
              (All-column (λ x. x ≤ bound) (λ r. r.dist) (rows v) bounded) (omega arith),
        );
      }

-- The router has the rows in the cells from `lo` to before `hi`.
pub record HasCells (router : HublNodes) (lo hi : ℕ) (rows : List Row) : Type 0 where
  pub count : hi ≡ lo + length rows
  pub node_cells :
      (i : ℕ) → i < length rows → get_or router.label_node (lo + i) 0 ≡ get_or (ids rows) i 0
  pub edge_cells :
      (i : ℕ) → i < length rows → get_or router.label_edge (lo + i) 0 ≡ get_or (edges rows) i 0
  pub dist_cells :
      (i : ℕ) → i < length rows → get_or router.label_dist (lo + i) 0 ≡ get_or (dists rows) i 0

flat-HasCells :
    (rows : ℕ → List Row) (node_count v : ℕ) (n : HublNodes)
    → v < node_count
    → HasCells (flat rows node_count n) (length (upto rows v)) (length (upto rows (suc v))) (rows v)
flat-HasCells rows node_count v n inside =
    let own = length-append (upto rows v) (rows v) in
    let at : (f : Row → Word32) (i : ℕ)
        → i < length (rows v)
        → get_or (map f (upto rows node_count) ++ minus_one ∷ []) (length (upto rows v) + i) 0
          ≡ get_or (map f (rows v)) i 0 =
      λ f i h.
        cell-split_at rows f node_count v inside (length (upto rows v) + i) (omega arith)
          (omega arith)
        ∙ ap (λ j. get_or (map f (rows v)) j 0) (omega arith) in
    record {
      count = own;
      node_cells = at λ r. r.id;
      edge_cells = at λ r. r.edge;
      dist_cells = at λ r. r.dist;
    }

module _ {Line : Type 0} (to_line : Word32 → Line) (parse_int : Line → Run Word32)
    (parses : (x : Word32) → parse_int (to_line x) ≡ ok x) (g : DynamicGrid) (e : Edges)
    (levels : Nodes) {node_count bound : ℕ} {done : List Word32} {l : Labels}
    (fits : bound < 1073741824) (labelling : IsLabelling g e levels node_count l done bound)
    (every : (v : ℕ) → v < node_count → Has done v) where
  abbrev Found : Word32 → Type 0
  Found v = Walks.HasLabels g e levels l done bound v

  -- The rows of a node, and what is known of them.
  Found-rows : (v : ℕ) → (rows : List Row) × (v < node_count → (h : Found v) × (h.rows ≡ rows))
  Found-rows v = elim (Bool-cases (ltb v node_count)) [
    | inl inside ↦
        let h = All-Has Found done v labelling.labels (every v (ground arith)) in
        (h.rows, λ p. (h, refl))
    | inr outside ↦ ([], λ p. absurd (ground arith))
  ]

  rows_of : ℕ → List Row
  rows_of v = (Found-rows v).0

  -- Where all nodes have sound labels with distances below 2^30, and parseInt reads back the
  -- lines, initLabelInfo returns, and every node has a range of cells that the router's merge can
  -- use, which hold the nodes, the edges and the distances of the node's labels.
  pub init_label_info-HasLabels :
      (n : HublNodes)
      → Returns
          (λ router.
            (v : ℕ)
            → v < node_count
            → (h : Found v) × (lo : ℕ) × (hi : ℕ) × HasLabels router v lo hi
              × HasCells router lo hi h.rows)
          (init_label_info to_line parse_int l n)
  unfolding rows_of get_labels Labels.get_dist
  init_label_info-HasLabels n =
      rw
        (init_label_info-flat to_line parse_int parses l rows_of n λ i h.
          let (hl, same) = (Found-rows i).1 (omega (arith, labelling.size_nodes)) in
          inr (
            subst (λ q. load l.label_nodes i ≡ ok (some (ids q))) same hl.has_ids,
            subst (λ q. load l.label_edges i ≡ ok (some (edges q))) same hl.has_edges,
            subst (λ q. load l.label_dist i ≡ ok (some (dists q))) same hl.has_dists,
          ))
        (returns λ v inside.
          let (hl, same) = (Found-rows v).1 inside in
          let within : v < length l.label_nodes = omega (arith, labelling.size_nodes) in
          (
            hl,
            length (upto rows_of v),
            length (upto rows_of (suc v)),
            flat-HasLabels rows_of (length l.label_nodes) v n within bound fits
                (subst (λ q. IsSorted (ids q)) same hl.sorted)
                (subst (All (λ r. r.dist ≤ bound)) same hl.bounded),
            subst (HasCells _ _ _) (sym same)
                (flat-HasCells rows_of (length l.label_nodes) v n within),
          ))
