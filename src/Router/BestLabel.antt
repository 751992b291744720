-- ===== src/Router/BestLabel.antt =====
-- The loop of router/HubLRouter.java that finds the best common label. It stands four times in
-- the source; the accessors of the two sides, `a` and `b`, tell the four apart.
pub mod Least
use fapra_osm_routing.Prelude.{
  ℕ, zero, suc, ◌+◌, Word32, max_value, lt_int, add_int, Option, none, some, Run, ok, out_of_fuel,
  ◌>>=◌, ltb, ◌==◌, ◌&&◌, if◌then◌else◌,
}

pub record Meet : Type 0 where
  pub node : Word32
  pub idx_a : ℕ
  pub idx_b : ℕ

-- `none` is highestLvlNode -1, with both indices -1.
pub record Best : Type 0 where
  pub distance : Word32
  pub meet : Option Meet

pub record Side : Type 0 where
  pub node : ℕ → Run Word32
  pub dist : ℕ → Run Word32

abbrev pub no_label : Best
no_label = record { distance = max_value; meet = none }

-- The test of a common label.
abbrev pub improve : Best → Word32 → Meet → Best
improve best tmp_dist m =
    if lt_int tmp_dist best.distance then record { distance = tmp_dist; meet = some m } else best

module _ (a b : Side) (end_a end_b : ℕ) where
  merge : ℕ → ℕ → ℕ → Word32 → Word32 → Best → Run Best
  merge zero i j node_a node_b best = out_of_fuel
  merge (suc fuel) i j node_a node_b best =
      let common = do
        dist_a ← a.dist i
        dist_b ← b.dist j
        next_a ← a.node (i + 1)
        next_b ← b.node (j + 1)
        merge fuel (i + 1) (j + 1) next_a next_b
            (improve best (add_int dist_a dist_b) (record { node = node_a; idx_a = i; idx_b = j }))
      in let skip_b = b.node (j + 1) >>= λ next_b. merge fuel i (j + 1) node_a next_b best in
        let skip_a = a.node (i + 1) >>= λ next_a. merge fuel (i + 1) j next_a node_b best in
        if ltb i end_a && ltb j end_b
        then (if node_a == node_b then common else if lt_int node_b node_a then skip_b else skip_a)
        else ok best

  -- From the first label of either side on; the loop makes a round for each label at most.
  unfoldable pub best_common_label : ℕ → ℕ → Run Best
  unfolding merge
  best_common_label start_a start_b = do
    node_a ← a.node start_a
    node_b ← b.node start_b
    merge (end_a + end_b + 1) start_a start_b node_a node_b no_label
