-- ===== src/LabelData/HublNodes/LabelInfo.antt =====
-- HubLNodes.initLabelInfo in hublabeldata/HubLNodes.java: the labels of the preprocessing, by way of
-- a temporary file. The file is the list of its lines; `to_line` writes an int as a line and
-- `parse_int` is Integer.parseInt, which are Java's. An offset is a plain number, since it counts
-- cells of an array. That the arrays of Labels are given up afterwards is left out.
pub mod File
pub mod Flat
pub mod Routable
use fapra_osm_routing.Prelude.{
  ℕ, zero, suc, ◌+◌, ◌-◌, List, [], ◌∷◌, ◌++◌, Word32, minus_one, Option, none, some, Run, ok,
  throw, number_format, ◌>>=◌, load, store, replicate, length,
}
use fapra_osm_routing.Creation.Labels.{Labels, not_null}
use fapra_osm_routing.LabelData.HublNodes.{HublNodes}

-- The offsets and the file while the labels are written.
pub record Written (Line : Type 0) : Type 0 where
  pub offsets : List Word32
  pub next_offset : ℕ
  pub file : List Line

-- The three arrays while the labels are read back.
pub record Columns : Type 0 where
  pub label_node : List Word32
  pub label_edge : List Word32
  pub label_dist : List Word32

module _ {Line : Type 0} (to_line : Word32 → Line) (parse_int : Line → Run Word32) where
  -- The labels of a node from the index `j` on.
  pub write_labels :
      List Word32
      → Option (List Word32)
      → Option (List Word32)
      → ℕ
      → ℕ
      → List Line
      → Run (List Line)
  write_labels nodes edges dist zero j file = ok file
  write_labels nodes edges dist (suc left) j file = do
    node ← load nodes j
    edge_row ← not_null edges
    edge ← load edge_row j
    dist_row ← not_null dist
    d ← load dist_row j
    write_labels nodes edges dist left (j + 1)
        (file ++ to_line node ∷ to_line edge ∷ to_line d ∷ [])

  -- What a node adds to the file, where it has labels.
  pub write_row : Labels → ℕ → Written Line → Option (List Word32) → Run (Written Line)
  write_row l i w none = ok w
  write_row l i w (some nodes) = do
    edges ← load l.label_edges i
    dist ← load l.label_dist i
    file ← write_labels nodes edges dist (length nodes) 0 w.file
    ok (record w { next_offset = w.next_offset + length nodes; file = file })

  pub write_node : Labels → ℕ → Written Line → Run (Written Line)
  write_node l i w = load l.label_nodes i >>= λ row. write_row l i w row

  -- The nodes from `i` on.
  pub write_loop : Labels → ℕ → ℕ → Written Line → Run (Written Line)
  write_loop l zero i w = ok w
  write_loop l (suc left) i w = do
    offsets ← store w.offsets i w.next_offset
    w' ← write_node l i (record w { offsets = offsets })
    write_loop l left (i + 1) w'

  -- Integer.parseInt(reader.readLine()); at the end of the file the line is null.
  pub read_int : List Line → Run (Word32 × List Line)
  read_int [] = throw number_format
  read_int (text ∷ rest) = parse_int text >>= λ x. ok (x, rest)

  pub read_loop : ℕ → ℕ → List Line → Columns → Run Columns
  read_loop zero i file a = ok a
  read_loop (suc left) i file a = do
    (node, file1) ← read_int file
    nodes ← store a.label_node i node
    (edge, file2) ← read_int file1
    edges ← store a.label_edge i edge
    (dist, file3) ← read_int file2
    dists ← store a.label_dist i dist
    read_loop left (i + 1) file3
        (record { label_node = nodes; label_edge = edges; label_dist = dists })

  unfoldable pub init_label_info : Labels → HublNodes → Run HublNodes
  init_label_info l n = do
    let node_count = length l.label_nodes
    written ←
        write_loop l node_count 0
          (record { offsets = replicate (node_count + 1) 0; next_offset = 0; file = [] })
    offsets ← store written.offsets node_count written.next_offset
    let total = written.next_offset
    a ← read_loop total 0 written.file (record {
      label_node = replicate (total + 1) 0;
      label_edge = replicate (total + 1) 0;
      label_dist = replicate (total + 1) 0;
    })
    nodes ← store a.label_node total minus_one
    edges ← store a.label_edge total minus_one
    dists ← store a.label_dist total minus_one
    ok (record n {
      label_offset = offsets;
      label_node = nodes;
      label_edge = edges;
      label_dist = dists;
    })
