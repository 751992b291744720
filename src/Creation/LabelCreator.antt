-- ===== src/Creation/LabelCreator.antt =====
-- hublablecreation/LabelCreator.java: the order in which labels are calculated. `calcOrder` is the
-- list that each function takes and returns.
pub mod Order
pub mod Changes
pub mod Ready
pub mod Iterations
pub mod Labelled
use fapra_osm_routing.Prelude.{
  ℕ, zero, suc, ◌+◌, ◌-◌, ◌/◌, ltb, List, [], ◌∷◌, Word32, lt_int, Run, ok, ◌>>=◌, load, store,
  replicate, length, if◌then◌else◌, false,
}
use fapra_osm_routing.Utils.OrderedIntSet.{OrderedIntSet, new, insert_tail, get, size}
use fapra_osm_routing.Creation.Edges.{Edges}
use fapra_osm_routing.Creation.DynamicGrid.{DynamicGrid}
use fapra_osm_routing.Creation.Labels.{Labels}
use fapra_osm_routing.Creation.HlDijkstra.{thread, run}
use fapra_osm_routing.Creation.Nodes.{Nodes, get_node_lvl, get_node_count}

-- The first loop of createHLCalcOrder, from the index `i` on.
pub fill_order : ℕ → ℕ → List Word32 → Run (List Word32)
fill_order zero i order = ok order
fill_order (suc left) i order = store order i i >>= λ filled. fill_order left (i + 1) filled

module _ (n : Nodes) where
  -- The body of the inner loop of the bubble sort.
  pub swap_lower : ℕ → List Word32 → Run (List Word32)
  swap_lower j order = do
    first ← load order (j - 1)
    second ← load order j
    first_lvl ← get_node_lvl n first
    second_lvl ← get_node_lvl n second
    let swapped = do half ← store order (j - 1) second; store half j first
    if lt_int first_lvl second_lvl then swapped else ok order

  pub sort_pass : ℕ → ℕ → List Word32 → Run (List Word32)
  sort_pass zero j order = ok order
  sort_pass (suc left) j order = swap_lower j order >>= λ swapped. sort_pass left (j + 1) swapped

  -- The rounds that are left, from the round `i` on; a round has j from 1 to before `count - i`.
  pub sort_loop : ℕ → ℕ → ℕ → List Word32 → Run (List Word32)
  sort_loop count zero i order = ok order
  sort_loop count (suc left) i order =
      sort_pass (count - i - 1) 1 order >>= λ passed. sort_loop count left (i + 1) passed

  -- The loop over the indices at which the level falls.
  pub change_loop : List Word32 → ℕ → ℕ → Word32 → OrderedIntSet → Run OrderedIntSet
  change_loop order zero i prev_lvl s = ok s
  change_loop order (suc left) i prev_lvl s = load order i >>= λ node.
      get_node_lvl n node >>= λ curr_lvl.
      let change = insert_tail s i in
      let step = if lt_int curr_lvl prev_lvl then change else ok s in
      step >>= λ s'. change_loop order left (i + 1) curr_lvl s'

  -- The indices at which the next level is reached.
  pub find_changes : List Word32 → Run OrderedIntSet
  find_changes order = do
    started ← insert_tail (new false 650 10) 0
    changes ← change_loop order (length order) 0 0 started
    insert_tail changes (length order)

  pub create_hl_calc_order : Run (List Word32 × OrderedIntSet)
  create_hl_calc_order = do
    let count = get_node_count n
    filled ← fill_order count 0 (replicate count 0)
    order ← sort_loop count count 0 filled
    change_indices ← find_changes order
    ok (order, change_indices)

-- How an iteration is divided among threads, NUM_OF_THREADS of them where there are more nodes.
abbrev pub num_of_threads : ℕ
num_of_threads = 16

pub equal_ranges : ℕ → ℕ → ℕ → ℕ → List (ℕ × ℕ)
equal_ranges zero num_of_nodes thread_start_idx end_idx = (thread_start_idx, end_idx) ∷ []
equal_ranges (suc left) num_of_nodes thread_start_idx end_idx =
    let thread_end_idx = thread_start_idx + num_of_nodes in
    (thread_start_idx, thread_end_idx) ∷ equal_ranges left num_of_nodes thread_end_idx end_idx

pub single_ranges : ℕ → ℕ → List (ℕ × ℕ)
single_ranges zero j = []
single_ranges (suc left) j = (j, j + 1) ∷ single_ranges left (j + 1)

pub thread_ranges : ℕ → ℕ → List (ℕ × ℕ)
thread_ranges start_idx end_idx =
    let min_thread_num = end_idx - start_idx in
    if ltb num_of_threads min_thread_num
    then equal_ranges (num_of_threads - 1) (min_thread_num / num_of_threads) start_idx end_idx
    else single_ranges min_thread_num start_idx

module _ (g : DynamicGrid) (e : Edges) (n : Nodes) where
  -- The threads of an iteration write the labels of different nodes, of one level, and read those
  -- of higher levels only: the model runs them one after the other.
  pub run_threads : List (ℕ × ℕ) → List Word32 → Labels → Run Labels
  run_threads [] order l = ok l
  run_threads ((from, to) ∷ ranges) order l =
      run g e n (thread from to order) l >>= λ (t, l'). run_threads ranges order l'

  -- The iterations that are left, from the iteration `i` on.
  pub iteration_loop : List Word32 → OrderedIntSet → ℕ → ℕ → Labels → Run Labels
  iteration_loop order change_indices zero i l = ok l
  iteration_loop order change_indices (suc left) i l = do
    start_idx ← get change_indices i
    end_idx ← get change_indices (i + 1)
    l' ← run_threads (thread_ranges start_idx end_idx) order l
    iteration_loop order change_indices left (i + 1) l'

  -- All levels get labels: NUM_OF_NO_LABEL_LVLS is 0.
  pub calc_labels : Labels → Run Labels
  calc_labels l = do
    (order, change_indices) ← create_hl_calc_order n
    iteration_loop order change_indices (size change_indices - 1) 0 l
