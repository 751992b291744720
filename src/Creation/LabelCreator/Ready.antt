-- ===== src/Creation/LabelCreator/Ready.antt =====
-- In the order by falling levels, the labels of the higher neighbours come first.
use fapra_osm_routing.Prelude.{
  ℕ, zero, suc, ◌+◌, ◌≤◌, ◌<◌, ◌≡◌, ◌≢◌, refl, ap, List, [], ◌∷◌, Word32, max_value, ok, some, load,
  All, arith, false, Bool-cases, inl, inr, ◌==◌,
}
use fapra_osm_routing.Prelude.Members.{Has}
use fapra_osm_routing.Creation.Nodes.{Nodes, get_node_lvl}
use fapra_osm_routing.Creation.Edges.{Edges, get_dest, get_dist}
use fapra_osm_routing.Creation.DynamicGrid.{DynamicGrid, get_all_edges, get_all_edge_count}
use fapra_osm_routing.Creation.HlDijkstra.Walks.{IsNext}
use fapra_osm_routing.Creation.HlDijkstra.Sound.{AreNext}
use fapra_osm_routing.Creation.LabelCreator.Order.{count, count-append, range, IsDescending}

pub count-Has : (x : Word32) (xs : List Word32) → 0 < count x xs → Has xs x
count-Has x [] h = absurd (omega arith)
count-Has x (y ∷ xs) h = elim (Bool-cases (x == y)) [
  | inl same ↦ inl (ground arith)
  | inr differ ↦ inr (count-Has x xs (ground arith))
]

Has-count : (x : Word32) (xs : List Word32) → Has xs x → 0 < count x xs
Has-count x [] h = absurd h
Has-count x (y ∷ xs) (inl same) = ground arith
Has-count x (y ∷ xs) (inr h) = let rest = Has-count x xs h in omega arith

count-absent : (x : Word32) (xs : List Word32) → All (λ y. y ≢ x) xs → count x xs ≡ 0
count-absent x [] h = refl
count-absent x (y ∷ xs) (differ, h) =
    let other : (x == y) ≡ false = ground arith in rw (other, count-absent x xs h) refl

count-range_past : (x m : ℕ) → m ≤ x → count x (range m) ≡ 0
count-range_past x zero h = refl
count-range_past x (suc m) h =
    let other : (x == m) ≡ false = ground arith in
    let e = count-append x (range m) (m ∷ []) in
    let last : count x (m ∷ []) ≡ 0 = rw other refl in
    omega (arith, e, last, count-range_past x m (omega arith))

pub count-range : (x m : ℕ) → x < m → count x (range m) ≡ 1
count-range x zero h = absurd (omega arith)
count-range x (suc m) h = elim (Bool-cases (x == m)) [
  | inl same ↦
      let last : count x (m ∷ []) ≡ 1 = rw same refl in
      omega (arith, count-append x (range m) (m ∷ []), last, count-range_past x m (ground arith))
  | inr differ ↦
      let last : count x (m ∷ []) ≡ 0 = rw differ refl in
      omega (arith, count-append x (range m) (m ∷ []), last, count-range x m (ground arith))
]

module _ (g : DynamicGrid) (e : Edges) (n : Nodes) (level : Word32 → ℕ) (size c : ℕ) where
  -- A node whose edges can be read and are not longer than `c`, of which none leads to a node of
  -- the same level.
  pub record IsContracted (v : Word32) : Type 0 where
    pub row : List Word32
    pub edge_count : ℕ
    pub has_row : get_all_edges g v ≡ ok (some row)
    pub has_count : get_all_edge_count g v ≡ ok edge_count
    pub edge : ℕ → Word32
    pub dest : ℕ → Word32
    pub dist : ℕ → Word32
    pub reads_edge : (i : ℕ) → i < edge_count → load row i ≡ ok (edge i)
    pub reads_dest : (i : ℕ) → i < edge_count → get_dest e (edge i) ≡ ok (dest i)
    pub reads_dist : (i : ℕ) → i < edge_count → get_dist e (edge i) ≡ ok (dist i)
    pub short : (i : ℕ) → i < edge_count → dist i ≤ c
    pub in_range : (i : ℕ) → i < edge_count → dest i < size
    pub other_level : (i : ℕ) → i < edge_count → level (dest i) ≢ level v

  module _ (order : List Word32) (fits : size < max_value)
      (reads : (v : ℕ) → v < size → (get_node_lvl n v ≡ ok (level v)) × (level v ≤ max_value))
      (contracted : (v : ℕ) → v < size → IsContracted v) where
    head-IsNext :
        (done todo : List Word32) (v : Word32)
        → IsDescending level (v ∷ todo)
        → ((x : Word32) → count x done + count x (v ∷ todo) ≡ count x (range size))
        → IsNext g e n size c done v
    head-IsNext done todo v down counts =
        let own : 0 < count v (v ∷ todo) = Has-count v (v ∷ todo) (inl refl) in
        let inside : v < size = ground (arith, counts v, count-range_past v size) in
        let k = contracted v inside in
        record {
          row = k.row;
          count = k.edge_count;
          level = level v;
          has_row = k.has_row;
          has_count = k.has_count;
          has_level = (reads v inside).0;
          edge = k.edge;
          dest = k.dest;
          dist = k.dist;
          dest_level = λ i. level (k.dest i);
          reads_edge = k.reads_edge;
          reads_dest = k.reads_dest;
          reads_dist = k.reads_dist;
          reads_level = λ i h. (reads (k.dest i) (k.in_range i h)).0;
          short = k.short;
          labelled = λ i h high.
              let (_, small) = reads (k.dest i) (k.in_range i h) in
              let higher : level v < level (k.dest i) =
                ground (arith, k.other_level i h, small, (reads v inside).1) in
              let absent =
                count-absent (k.dest i) (v ∷ todo) (lower (k.dest i) v todo down higher) in
              count-Has (k.dest i) done (
                omega
                  (arith, counts (k.dest i), count-range (k.dest i) size (k.in_range i h), absent));
          fresh = λ there.
              omega (arith, counts v, count-range v size inside, own, Has-count v done there);
          in_range = inside;
          small = omega arith;
        }
      where
        below :
            (x u : ℕ) (ys : List Word32)
            → level x < level u
            → All (λ y. level y ≤ level x) ys
            → All (λ y. y ≢ u) ys
        below x u [] h d = tt
        below x u (y ∷ ys) h (a, d) = (λ same. omega (arith, ap level same), below x u ys h d)

        lower :
            (u v : Word32) (todo : List Word32)
            → IsDescending level (v ∷ todo)
            → level v < level u
            → All (λ y. y ≢ u) (v ∷ todo)
        lower u v todo (d, down) h = (λ same. omega (arith, ap level same), below v u todo h d)

    pub descending-AreNext :
        (done todo : List Word32)
        → IsDescending level todo
        → ((x : Word32) → count x done + count x todo ≡ count x (range size))
        → AreNext g e n order size c done todo
    descending-AreNext done [] down counts = tt
    descending-AreNext done (v ∷ todo) down counts = (
      head-IsNext done todo v down counts,
      descending-AreNext (v ∷ done) todo down.1 λ x. omega (arith, counts x),
    )
