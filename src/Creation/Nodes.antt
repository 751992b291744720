-- ===== src/Creation/Nodes.antt =====
-- hublablecreation/Nodes.java: the levels of the nodes. The coordinates are doubles and left out, so
-- that the number of nodes is that of the levels.
use fapra_osm_routing.Prelude.{ℕ, List, Word32, Run, ok, ◌>>=◌, load, store, replicate, length}

pub record Nodes : Type 0 where
  pub levels : List Word32

unfoldable pub get_node_lvl : Nodes → ℕ → Run Word32
get_node_lvl n node_id = load n.levels node_id

unfoldable pub set_node_level : Nodes → ℕ → Word32 → Run Nodes
set_node_level n node lvl = do written ← store n.levels node lvl; ok (record { levels = written })

unfoldable pub initialize_lvls : ℕ → Nodes
initialize_lvls node_num = record { levels = replicate node_num 0 }

unfoldable pub get_node_count : Nodes → ℕ
get_node_count n = length n.levels
