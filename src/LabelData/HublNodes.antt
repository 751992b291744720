-- ===== src/LabelData/HublNodes.antt =====
-- hublabeldata/HubLNodes.java: labels and edges of the nodes, in flat arrays behind offsets.
-- The coordinates stand apart, since they are doubles.
pub mod LabelInfo
pub mod EdgeInfo
use fapra_osm_routing.Prelude.{ℕ, List, Word32, Bool, lt_int, not, Run, ok, ◌>>=◌, load}

pub record HublNodes : Type 0 where
  pub hl_level : Word32
  pub levels : List Word32
  pub edges_offset : List Word32
  pub edges : List Word32
  pub label_offset : List Word32
  pub label_node : List Word32
  pub label_edge : List Word32
  pub label_dist : List Word32

unfoldable pub get_label_node : HublNodes → ℕ → Run Word32
get_label_node n idx = load n.label_node idx

unfoldable pub get_label_edge : HublNodes → ℕ → Run Word32
get_label_edge n idx = load n.label_edge idx

unfoldable pub get_label_dist : HublNodes → ℕ → Run Word32
get_label_dist n idx = load n.label_dist idx

unfoldable pub node_has_labels : HublNodes → ℕ → Run Bool
node_has_labels n node_id = load n.levels node_id >>= λ level. ok (not (lt_int level n.hl_level))

unfoldable pub get_label_offset : HublNodes → ℕ → Run Word32
get_label_offset n node_id = load n.label_offset node_id

unfoldable pub get_edge_offset : HublNodes → ℕ → Run Word32
get_edge_offset n node_id = load n.edges_offset node_id

unfoldable pub get_edge : HublNodes → ℕ → Run Word32
get_edge n idx = load n.edges idx
