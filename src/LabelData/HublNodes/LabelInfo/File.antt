-- ===== src/LabelData/HublNodes/LabelInfo/File.antt =====
-- The temporary file of initLabelInfo holds the rows of all nodes.
use fapra_osm_routing.Prelude.{
  ℕ, zero, suc, ◌+◌, ◌<◌, ◌≡◌, inl, inr, ◌⊎◌, refl, sym, ap, ◌∙◌, subst, List, [], ◌∷◌, ◌++◌,
  Word32, none, some, Run, ok, Returns, Returns-bind, returns, load, length, length-append,
  length-map, append_assoc, append-nil, arith,
}
use fapra_osm_routing.Prelude.Buffer.{IsBuffer, store_in_place}
use fapra_osm_routing.Creation.Labels.{Labels}
use fapra_osm_routing.Creation.HlDijkstra.Rows.{Row, ids, dists, edges, load-insert}
use fapra_osm_routing.LabelData.HublNodes.LabelInfo.{
  Written, write_labels, write_row, write_node, write_loop,
}

-- The rows of the nodes before `i`, and the offsets of these nodes.
abbrev pub upto : (ℕ → List Row) → ℕ → List Row
upto rows zero = []
upto rows (suc i) = upto rows i ++ rows i

abbrev pub starts : (ℕ → List Row) → ℕ → List Word32
starts rows zero = []
starts rows (suc i) = starts rows i ++ length (upto rows i) ∷ []

-- A node has no array and no rows, or arrays with the columns of its rows.
abbrev pub HasRows : Labels → ℕ → List Row → Type 0
HasRows l i rows =
    ((load l.label_nodes i ≡ ok none) × (rows ≡ []))
    ⊎ ((load l.label_nodes i ≡ ok (some (ids rows)))
        × (load l.label_edges i ≡ ok (some (edges rows)))
        × (load l.label_dist i ≡ ok (some (dists rows))))

module _ {Line : Type 0} (to_line : Word32 → Line) where
  abbrev pub lines : List Row → List Line
  lines [] = []
  lines (r ∷ rows) = to_line r.id ∷ to_line r.edge ∷ to_line r.dist ∷ lines rows

  lines-append : (p q : List Row) → lines (p ++ q) ≡ lines p ++ lines q
  lines-append [] q = refl
  lines-append (r ∷ p) q =
      ap (λ t. to_line r.id ∷ to_line r.edge ∷ to_line r.dist ∷ t) (lines-append p q)

  -- The state before the node `i`.
  pub record IsWritten (rows : ℕ → List Row) (room i : ℕ) (w : Written Line) : Type 0 where
    pub offsets : IsBuffer w.offsets i (starts rows i)
    pub length_offsets : length w.offsets ≡ room
    pub next_offset : w.next_offset ≡ length (upto rows i)
    pub file : w.file ≡ lines (upto rows i)

module _ {Line : Type 0} (to_line : Word32 → Line) (parse_int : Line → Run Word32) where
  write_labels-lines :
      (p todo : List Row) (file : List Line)
      → write_labels to_line parse_int
          (ids (p ++ todo))
          (some (edges (p ++ todo)))
          (some (dists (p ++ todo)))
          (length todo)
          (length p)
          file
        ≡ ok (file ++ lines to_line todo)
  unfolding write_labels
  write_labels-lines p [] file = ap ok (sym (append-nil file))
  write_labels-lines p (r ∷ todo) file =
      let next : length (p ++ r ∷ []) ≡ length p + 1 = omega (arith, length-append p (r ∷ [])) in
      let whole : (p ++ r ∷ []) ++ todo ≡ p ++ r ∷ todo = append_assoc p (r ∷ []) todo in
      let ih =
        write_labels-lines (p ++ r ∷ []) todo
          (file ++ to_line r.id ∷ to_line r.edge ∷ to_line r.dist ∷ []) in
      rw
        (
          load-insert (λ r. r.id) p r todo,
          load-insert (λ r. r.edge) p r todo,
          load-insert (λ r. r.dist) p r todo,
        )
        (subst
          (λ rows.
            write_labels to_line parse_int (ids rows) (some (edges rows)) (some (dists rows))
              (length todo) (length p + 1)
              (file ++ to_line r.id ∷ to_line r.edge ∷ to_line r.dist ∷ [])
            ≡ ok (file ++ to_line r.id ∷ to_line r.edge ∷ to_line r.dist ∷ lines to_line todo))
          whole
          (ap
              (λ j.
                write_labels to_line parse_int (ids ((p ++ r ∷ []) ++ todo))
                  (some (edges ((p ++ r ∷ []) ++ todo))) (some (dists ((p ++ r ∷ []) ++ todo)))
                  (length todo) j (file ++ to_line r.id ∷ to_line r.edge ∷ to_line r.dist ∷ []))
              (sym next)
            ∙ ih
            ∙ ap ok (
                append_assoc file (to_line r.id ∷ to_line r.edge ∷ to_line r.dist ∷ [])
                  (lines to_line todo))))

  module _ (l : Labels) (rows : ℕ → List Row) where
    write_node-IsWritten :
        (i room : ℕ) (w : Written Line)
        → HasRows l i (rows i)
        → IsBuffer w.offsets (suc i) (starts rows (suc i))
        → length w.offsets ≡ room
        → w.next_offset ≡ length (upto rows i)
        → w.file ≡ lines to_line (upto rows i)
        → Returns (IsWritten to_line rows room (suc i)) (write_node to_line parse_int l i w)
    unfolding write_node write_row
    write_node-IsWritten i room w (inl (null, empty)) held size next file =
        let same : upto rows i ≡ upto rows (suc i) =
          sym (append-nil (upto rows i)) ∙ ap (λ q. upto rows i ++ q) (sym empty) in
        rw null (
          returns (record {
            offsets = held;
            length_offsets = size;
            next_offset = next ∙ ap length same;
            file = file ∙ ap (lines to_line) same;
          }))
    write_node-IsWritten i room w (inr (has_nodes, has_edges, has_dist)) held size next file =
        let count = length-map (λ r. r.id) (rows i) in
        rw (has_nodes, has_edges, has_dist, count, write_labels-lines [] (rows i) w.file)
          (returns (record {
            offsets = held;
            length_offsets = size;
            next_offset = omega (arith, next, length-append (upto rows i) (rows i), count);
            file =
                ap (λ t. t ++ lines to_line (rows i)) file
                ∙ sym (lines-append to_line (upto rows i) (rows i));
          }))

    pub write_loop-IsWritten :
        (left i room : ℕ) (w : Written Line)
        → left + i < room
        → ((j : ℕ) → j < left + i → HasRows l j (rows j))
        → IsWritten to_line rows room i w
        → Returns (IsWritten to_line rows room (left + i)) (write_loop to_line parse_int l left i w)
    unfolding write_loop
    write_loop-IsWritten zero i room w fits has k =
        let same : i ≡ 0 + i = omega arith in
        returns (subst (λ j. IsWritten to_line rows room j w) same k)
    write_loop-IsWritten (suc left) i room w fits has k =
        let next : suc i ≡ i + 1 = omega arith in
        let total : left + (i + 1) ≡ suc left + i = omega arith in
        Returns-bind (store_in_place w.next_offset k.offsets (omega (arith, k.length_offsets)))
          λ offsets (held, size).
            let held' : IsBuffer offsets (suc i) (starts rows (suc i)) =
              subst (λ x. IsBuffer offsets (suc i) (starts rows i ++ x ∷ [])) k.next_offset
                (subst (λ j. IsBuffer offsets j (starts rows i ++ w.next_offset ∷ [])) (sym next)
                  held) in
            Returns-bind
              (write_node-IsWritten i room (record w { offsets = offsets }) (has i (omega arith))
                held' (size ∙ k.length_offsets) k.next_offset k.file)
              λ w' k'.
                subst
                  (λ j.
                    Returns (IsWritten to_line rows room j)
                      (write_loop to_line parse_int l left (i + 1) w'))
                  total
                  (write_loop-IsWritten left (i + 1) room w' (omega arith)
                    (λ j h. has j (omega arith))
                    (subst (λ j. IsWritten to_line rows room j w') next k'))
