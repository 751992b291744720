-- ===== src/Creation/Labels.antt =====
-- hublablecreation/Labels.java: the labels that the preprocessing has found so far, by nodes.
pub mod Redundant
use fapra_osm_routing.Prelude.{
  ℕ, zero, suc, ◌+◌, List, Word32, lt_int, add_int, Option, none, some, Bool, true, false, not, Run,
  ok, throw, null_pointer, out_of_fuel, ◌>>=◌, load, store, replicate, length, ltb, ◌==◌, ◌&&◌,
  if◌then◌else◌,
}
use fapra_osm_routing.Utils.OrderedIntSet.{OrderedIntSet, get, size}

-- An array for each node, or null.
pub record Labels : Type 0 where
  pub label_nodes : List (Option (List Word32))
  pub label_edges : List (Option (List Word32))
  pub label_dist : List (Option (List Word32))

unfoldable pub initialize : ℕ → Labels
initialize node_count = record {
  label_nodes = replicate node_count none;
  label_edges = replicate node_count none;
  label_dist = replicate node_count none;
}

unfoldable pub get_labels : Labels → ℕ → Run (Option (List Word32))
get_labels l node_id = load l.label_nodes node_id

unfoldable pub get_dist : Labels → ℕ → Run (Option (List Word32))
get_dist l node_id = load l.label_dist node_id

unfoldable pub add_labels : Labels → ℕ → List Word32 → List Word32 → List Word32 → Run Labels
add_labels l node_id label_ids edge_ids dists = do
  nodes ← store l.label_nodes node_id (some label_ids)
  edges ← store l.label_edges node_id (some edge_ids)
  all_dists ← store l.label_dist node_id (some dists)
  ok (record { label_nodes = nodes; label_edges = edges; label_dist = all_dists })

-- A use of an array, which must not be null.
abbrev pub not_null : Option (List Word32) → Run (List Word32)
not_null none = throw null_pointer
not_null (some a) = ok a

module _ (l : Labels) (to_check check_dist : Word32) (check_labels : List Word32)
    (labels check_dists : OrderedIntSet) where
  -- The sum of the distances of a common label.
  sum_at : ℕ → ℕ → Run Word32
  unfolding get_dist
  sum_at check_idx label_idx = do
    d ← get check_dists label_idx
    row ← get_dist l to_check
    dists ← not_null row
    d' ← load dists check_idx
    ok (add_int d d')

  redundant_loop : ℕ → ℕ → ℕ → Run Bool
  unfolding sum_at
  redundant_loop zero check_idx label_idx = out_of_fuel
  redundant_loop (suc fuel) check_idx label_idx =
      let both = redundant_loop fuel (check_idx + 1) (label_idx + 1) in
      let next_check = redundant_loop fuel (check_idx + 1) label_idx in
      let next_label = redundant_loop fuel check_idx (label_idx + 1) in
      let round = do
        check_node ← load check_labels check_idx
        label_node ← get labels label_idx
        let common = sum_at check_idx label_idx >>= λ new_dist.
            if not (lt_int check_dist new_dist) && not (check_node == to_check)
            then ok true
            else both
        if check_node == label_node
            then common
            else (if lt_int check_node label_node then next_check else next_label)
      in if ltb check_idx (length check_labels) && ltb label_idx (size labels)
        then round
        else ok false

-- The loop makes a round for each label at most.
pub is_redundant : Labels → Word32 → Word32 → OrderedIntSet → OrderedIntSet → Run Bool
unfolding get_labels redundant_loop
is_redundant l to_check check_dist labels check_dists = do
  row ← get_labels l to_check
  check_labels ← not_null row
  redundant_loop l to_check check_dist check_labels labels check_dists
      (length check_labels + size labels + 1) 0 0
