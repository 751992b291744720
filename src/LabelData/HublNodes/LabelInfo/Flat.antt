-- ===== src/LabelData/HublNodes/LabelInfo/Flat.antt =====
-- initLabelInfo lays the labels of all nodes end to end.
use fapra_osm_routing.Prelude.{
  ℕ, suc, ◌+◌, ◌<◌, ◌≡◌, refl, sym, ap, ◌∙◌, subst, List, [], ◌∷◌, ◌++◌, Word32, minus_one, Run, ok,
  Returns, Returns-bind, Returns-inv, returns, store, replicate, length, length-append,
  length-replicate, append_assoc, append-nil, map, arith,
}
use fapra_osm_routing.Prelude.Buffer.{IsBuffer, IsBuffer-full, IsBuffer-cast, store_in_place}
use fapra_osm_routing.Creation.Labels.{Labels}
use fapra_osm_routing.Creation.HlDijkstra.Rows.{Row, ids, dists, edges, column-insert}
use fapra_osm_routing.LabelData.HublNodes.{HublNodes}
use fapra_osm_routing.LabelData.HublNodes.LabelInfo.{Columns, read_int, read_loop, init_label_info}
use fapra_osm_routing.LabelData.HublNodes.LabelInfo.File.{
  upto, starts, HasRows, lines, IsWritten, write_loop-IsWritten,
}

-- The arrays of the router for the rows of `node_count` nodes.
abbrev pub flat : (ℕ → List Row) → ℕ → HublNodes → HublNodes
flat rows node_count n =
    let all = upto rows node_count in
    record n {
      label_offset = starts rows (suc node_count);
      label_node = ids all ++ minus_one ∷ [];
      label_edge = edges all ++ minus_one ∷ [];
      label_dist = dists all ++ minus_one ∷ [];
    }

module _ {Line : Type 0} (to_line : Word32 → Line) (parse_int : Line → Run Word32)
    (parses : (x : Word32) → parse_int (to_line x) ≡ ok x) where
  -- The arrays hold the columns of the rows that were read.
  pub record IsRead (p : List Row) (room : ℕ) (a : Columns) : Type 0 where
    pub nodes : IsBuffer a.label_node (length p) (ids p)
    pub edges_held : IsBuffer a.label_edge (length p) (edges p)
    pub dist : IsBuffer a.label_dist (length p) (dists p)
    pub length_nodes : length a.label_node ≡ room
    pub length_edges : length a.label_edge ≡ room
    pub length_dist : length a.label_dist ≡ room

  -- One more cell of a column.
  column_next :
      (f : Row → Word32) (p : List Row) (r : Row) (c : List Word32)
      → IsBuffer c (length p + 1) (map f p ++ f r ∷ [])
      → IsBuffer c (length (p ++ r ∷ [])) (map f (p ++ r ∷ []))
  column_next f p r c held =
      IsBuffer-cast (length (p ++ r ∷ [])) (map f (p ++ r ∷ [])) held
        (omega (arith, length-append p (r ∷ []))) (sym (column-insert f p r []))

  read_loop-IsRead :
      (p todo : List Row) (room : ℕ) (a : Columns)
      → length p + length todo < room
      → IsRead p room a
      → Returns
          (IsRead (p ++ todo) room)
          (read_loop to_line parse_int (length todo) (length p) (lines to_line todo) a)
  unfolding read_loop read_int
  read_loop-IsRead p [] room a fits k =
      returns (subst (λ q. IsRead q room a) (sym (append-nil p)) k)
  read_loop-IsRead p (r ∷ todo) room a fits k =
      let next : length (p ++ r ∷ []) ≡ length p + 1 = omega (arith, length-append p (r ∷ [])) in
      rw (parses r.id) (
        Returns-bind (store_in_place r.id k.nodes (omega (arith, k.length_nodes))) λ c0 (h0, s0).
          rw (parses r.edge) (
            Returns-bind (store_in_place r.edge k.edges_held (omega (arith, k.length_edges)))
              λ c1 (h1, s1). rw (parses r.dist) (
                Returns-bind (store_in_place r.dist k.dist (omega (arith, k.length_dist)))
                  λ c2 (h2, s2).
                    let a' : Columns = record {
                      label_node = c0;
                      label_edge = c1;
                      label_dist = c2;
                    } in
                    let k' : IsRead (p ++ r ∷ []) room a' = record {
                      nodes = column_next (λ r. r.id) p r c0 h0;
                      edges_held = column_next (λ r. r.edge) p r c1 h1;
                      dist = column_next (λ r. r.dist) p r c2 h2;
                      length_nodes = s0 ∙ k.length_nodes;
                      length_edges = s1 ∙ k.length_edges;
                      length_dist = s2 ∙ k.length_dist;
                    } in
                    subst
                      (λ j.
                        Returns (IsRead (p ++ r ∷ todo) room)
                          (read_loop to_line parse_int (length todo) j (lines to_line todo) a'))
                      next
                      (subst
                        (λ q. Returns (IsRead q room) (
                          read_loop to_line parse_int (length todo) (length (p ++ r ∷ []))
                            (lines to_line todo) a'))
                        (append_assoc p (r ∷ []) todo)
                        (read_loop-IsRead (p ++ r ∷ []) todo room a'
                          (omega (arith, length-append p (r ∷ []))) k')))))

  blank : (m : ℕ) → IsBuffer (replicate m 0) 0 []
  blank m = record { spare = replicate m 0; stored = refl; counted = refl }

  -- The last cell of an array.
  closes :
      {a : List Word32} {xs : List Word32} (n : ℕ) (x : Word32)
      → IsBuffer a n xs
      → length a ≡ n + 1
      → store a n x ≡ ok (xs ++ x ∷ [])
  closes n x b size =
      let (c, stored, (held, same)) = Returns-inv (store_in_place x b (omega arith)) in
      stored ∙ ap ok (IsBuffer-full held (omega (arith, same)))

  pub init_label_info-flat :
      (l : Labels) (rows : ℕ → List Row) (n : HublNodes)
      → ((i : ℕ) → i < length l.label_nodes → HasRows l i (rows i))
      → init_label_info to_line parse_int l n ≡ ok (flat rows (length l.label_nodes) n)
  unfolding init_label_info
  init_label_info-flat l rows n has =
      let count = length l.label_nodes in
      let all = upto rows count in
      let (w, written, k) = Returns-inv (
        write_loop-IsWritten to_line parse_int l rows count 0 (count + 1)
          (record { offsets = replicate (count + 1) 0; next_offset = 0; file = [] }) (omega arith)
          (λ j h. has j (omega arith))
          (record {
            offsets = blank (count + 1);
            length_offsets = length-replicate {A = Word32} (count + 1) 0;
            next_offset = refl;
            file = refl;
          })) in
      let to_count : count + 0 ≡ count = omega arith in
      let k' : IsWritten to_line rows (count + 1) count w =
        subst (λ j. IsWritten to_line rows (count + 1) j w) to_count k in
      let columns : Columns = record {
        label_node = replicate (length all + 1) 0;
        label_edge = replicate (length all + 1) 0;
        label_dist = replicate (length all + 1) 0;
      } in
      let size = length-replicate {A = Word32} (length all + 1) 0 in
      let (a, loaded, r) = Returns-inv (
        read_loop-IsRead [] all (length all + 1) columns (omega arith) (record {
          nodes = blank (length all + 1);
          edges_held = blank (length all + 1);
          dist = blank (length all + 1);
          length_nodes = size;
          length_edges = size;
          length_dist = size;
        })) in
      rw
        (
          written,
          closes count w.next_offset k'.offsets k'.length_offsets,
          k'.next_offset,
          k'.file,
          loaded,
          closes (length all) minus_one r.nodes r.length_nodes,
          closes (length all) minus_one r.edges_held r.length_edges,
          closes (length all) minus_one r.dist r.length_dist,
        )
        refl
