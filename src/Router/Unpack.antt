-- ===== src/Router/Unpack.antt =====
-- calculateRoute of router/HubLRouter.java: the edges on the two sides of a path, unpacked into
-- the nodes on the path.
pub mod Original
pub mod Expand
pub mod Route
pub mod Layers
use fapra_osm_routing.Prelude.{
  ℕ, zero, suc, ◌+◌, Word32, Run, ok, out_of_fuel, ◌>>=◌, if◌then◌else◌,
}
use fapra_osm_routing.Utils.IntStack.{IntStack, push, pop, pop_fifo, is_empty}
use fapra_osm_routing.LabelData.HublEdges.{
  HublEdges, get_dest, is_shortcut, get_first_shortcut, get_second_shortcut,
}

module _ (e : HublEdges) (near far : ℕ → Run Word32) where
  -- Both parts of a shortcut; the one that is visited first goes on top.
  push_parts : IntStack → ℕ → Run IntStack
  push_parts calc i = do
    far_part ← far i
    calc' ← push calc far_part
    near_part ← near i
    push calc' near_part

  -- The inner `while` loop: until edgeCalcStack is empty.
  unfoldable pub expand : ℕ → IntStack → IntStack → Run (IntStack × IntStack)
  unfolding push_parts
  expand zero calc result = out_of_fuel
  expand (suc fuel) calc result =
      let round = pop calc >>= λ (current, calc').
      let shortcut = push_parts calc' current >>= λ c. expand fuel c result in
      let original = do d ← get_dest e current; r ← push result d; expand fuel calc' r
      in if is_shortcut e current then shortcut else original in
      if is_empty calc then ok (calc, result) else round

-- The stacks that calculateRoute works on.
pub record Stacks : Type 0 where
  pub result_nodes : IntStack
  pub edges_left : IntStack
  pub edges_right : IntStack
  pub edge_calc_stack : IntStack

-- The outer loops; the second argument is the fuel of each inner loop.
unpack_left : HublEdges → ℕ → ℕ → Stacks → Run Stacks
unpack_left e zero inner s = out_of_fuel
unpack_left e (suc fuel) inner s =
    let round = do
      (edge, left) ← pop_fifo s.edges_left
      calc ← push s.edge_calc_stack edge
      (calc', result) ←
          expand e (get_first_shortcut e) (get_second_shortcut e) inner calc s.result_nodes
      unpack_left e fuel inner
          (record s { result_nodes = result; edges_left = left; edge_calc_stack = calc' })
    in if is_empty s.edges_left then ok s else round

unpack_right : HublEdges → ℕ → ℕ → Stacks → Run Stacks
unpack_right e zero inner s = out_of_fuel
unpack_right e (suc fuel) inner s =
    let round = do
      (edge, right) ← pop s.edges_right
      calc ← push s.edge_calc_stack edge
      (calc', result) ←
          expand e (get_second_shortcut e) (get_first_shortcut e) inner calc s.result_nodes
      unpack_right e fuel inner
          (record s { result_nodes = result; edges_right = right; edge_calc_stack = calc' })
    in if is_empty s.edges_right then ok s else round

-- The node where the sides meet is taken off again, since the right side brings it too.
pub calculate_route : HublEdges → ℕ → Word32 → Word32 → Stacks → Run Stacks
unfolding unpack_left unpack_right
calculate_route e fuel start dest s = do
  pushed ← push s.result_nodes start
  t ← unpack_left e fuel fuel (record s { result_nodes = pushed })
  (_, popped) ← pop t.result_nodes
  u ← unpack_right e fuel fuel (record t { result_nodes = popped })
  finished ← push u.result_nodes dest
  ok (record u { result_nodes = finished })
