-- ===== src/Creation/Labels/Redundant.antt =====
-- When isRedundant says that a label is redundant.
use fapra_osm_routing.Prelude.{
  Returns-map, ℕ, zero, suc, ◌+◌, ◌≤◌, ◌<◌, ◌≡◌, ◌≢◌, ◌⊎◌, inl, inr, ap, List, Word32, max_value,
  lt_int, add_int, some, Bool, true, false, not, ok, Returns, returns, load, length, ltb, ◌==◌,
  ◌&&◌, Bool-cases, arith,
}
use fapra_osm_routing.Utils.OrderedIntSet.{OrderedIntSet, get, size}
use fapra_osm_routing.Creation.Labels.{
  Labels, get_labels, get_dist, sum_at, redundant_loop, is_redundant,
}

-- The label to check, and the labels of the original node: both by strictly ascending nodes, with
-- distances of which two can be added without overflow.
pub record IsReady (l : Labels) (to_check check_dist : Word32) (labels check_dists : OrderedIntSet)
    : Type 0 where
  pub nodes : List Word32
  pub dists : List Word32
  pub has_nodes : get_labels l to_check ≡ ok (some nodes)
  pub has_dists : get_dist l to_check ≡ ok (some dists)
  pub node : ℕ → Word32
  pub dist : ℕ → Word32
  pub own_node : ℕ → Word32
  pub own_dist : ℕ → Word32
  pub reads_node : (i : ℕ) → i < length nodes → load nodes i ≡ ok (node i)
  pub reads_dist : (i : ℕ) → i < length nodes → load dists i ≡ ok (dist i)
  pub reads_own_node : (j : ℕ) → j < size labels → get labels j ≡ ok (own_node j)
  pub reads_own_dist : (j : ℕ) → j < size labels → get check_dists j ≡ ok (own_dist j)
  pub strict : (i k : ℕ) → i < k → k < length nodes → node i < node k
  pub own_strict : (j k : ℕ) → j < k → k < size labels → own_node j < own_node k
  pub small : (i : ℕ) → i < length nodes → (node i < max_value) × (dist i < 1073741824)
  pub own_small : (j : ℕ) → j < size labels → (own_node j < max_value) × (own_dist j < 1073741824)
  pub small_check : check_dist ≤ max_value

module _ {l : Labels} {to_check check_dist : Word32} {labels check_dists : OrderedIntSet}
    (r : IsReady l to_check check_dist labels check_dists) where
  -- A common label, other than the node itself, over which the node is as close.
  pub record IsHit (i j : ℕ) : Type 0 where
    pub in_nodes : i < length r.nodes
    pub in_labels : j < size labels
    pub same : r.node i ≡ r.own_node j
    pub other : r.node i ≢ to_check
    pub close : r.own_dist j + r.dist i ≤ check_dist

  -- The answer is right for the pairs of which both are not left of `i` and `j`.
  abbrev pub Answered : ℕ → ℕ → Bool → Type 0
  Answered i j true = (k : ℕ) × (m : ℕ) × IsHit k m
  Answered i j false = (k m : ℕ) → i ≤ k → j ≤ m → ¬ IsHit k m

  old_or_new : (i j k m : ℕ) → ((k < i) ⊎ (m < j)) ⊎ ((i ≤ k) × (j ≤ m))
  old_or_new i j k m = ground arith

  -- The rest answers for all pairs, where those that were passed are no hits.
  widen :
      {i j : ℕ} (i' j' : ℕ)
      → ((k m : ℕ) → i ≤ k → j ≤ m → (k < i') ⊎ (m < j') → ¬ IsHit k m)
      → (b : Bool) → Answered i' j' b
      → Answered i j b
  widen i' j' passed true hit = hit
  widen i' j' passed false none_left = λ k m p q h. elim (old_or_new i' j' k m) [
    | inl old ↦ passed k m p q old h
    | inr (p', q') ↦ none_left k m p' q' h
  ]

  module _ (i j : ℕ) (hi : i < length r.nodes) (hj : j < size labels) where
    skip_check :
        r.node i < r.own_node j → (k m : ℕ) → i ≤ k → j ≤ m → (k < i + 1) ⊎ (m < j) → ¬ IsHit k m
    skip_check e k m p q t h =
        let at : k ≡ i = ground arith in
        ground (arith, r.own_strict j m, h.in_labels, h.same, ap r.node at, ap r.own_node)

    skip_label :
        r.own_node j < r.node i → (k m : ℕ) → i ≤ k → j ≤ m → (k < i) ⊎ (m < j + 1) → ¬ IsHit k m
    skip_label e k m p q t h =
        let at : m ≡ j = ground arith in
        ground (arith, r.strict i k, h.in_nodes, h.same, ap r.own_node at, ap r.node)

    skip_both :
        r.node i ≡ r.own_node j
        → (r.node i ≡ to_check) ⊎ (check_dist < r.own_dist j + r.dist i)
        → (k m : ℕ) → i ≤ k
        → j ≤ m
        → (k < i + 1) ⊎ (m < j + 1)
        → ¬ IsHit k m
    skip_both e miss k m p q t h =
        let at : (k ≡ i) × (m ≡ j) = ground (
          arith,
          r.strict i k,
          r.own_strict j m,
          h.in_nodes,
          h.in_labels,
          h.same,
          ap r.node,
          ap r.own_node,
        ) in
        ground (arith, h.other, h.close, ap r.node at.0, ap r.dist at.0, ap r.own_dist at.1)

  loop-Answered :
      (fuel i j : ℕ)
      → length r.nodes + size labels < fuel + i + j
      → i ≤ length r.nodes
      → j ≤ size labels
      → Returns
          (Answered i j)
          (redundant_loop l to_check check_dist r.nodes labels check_dists fuel i j)
  unfolding redundant_loop sum_at
  loop-Answered zero i j f p q = absurd (omega arith)
  loop-Answered (suc fuel) i j f p q =
      elim (Bool-cases (ltb i (length r.nodes) && ltb j (size labels))) [
        | inr done ↦ rw done (returns λ k m a b h. ground (arith, h.in_nodes, h.in_labels))
        | inl more ↦
            let hi : i < length r.nodes = ground arith in
            let hj : j < size labels = ground arith in
            let (small, small_dist) = r.small i hi in
            let (own_small, own_small_dist) = r.own_small j hj in
            rw (more, r.reads_node i hi, r.reads_own_node j hj)
              (elim (Bool-cases (r.node i == r.own_node j)) [
                | inl same ↦
                    rw (same, r.reads_own_dist j hj, r.has_dists, r.reads_dist i hi)
                      (elim (Bool-cases (
                        not (lt_int check_dist (add_int (r.own_dist j) (r.dist i)))
                        && not (r.node i == to_check))) [
                          | inl hit ↦ rw hit (
                              returns (
                                i,
                                j,
                                record {
                                  in_nodes = hi;
                                  in_labels = hj;
                                  same = ground arith;
                                  other = ground arith;
                                  close = ground (arith, r.small_check);
                                },
                              ))
                          | inr miss ↦ rw miss (
                              Returns-map
                                (loop-Answered fuel (i + 1) (j + 1) (omega arith) (omega arith)
                                  (omega arith))
                                (widen (i + 1) (j + 1) (
                                  skip_both i j hi hj (ground arith)
                                    (ground (arith, r.small_check)))))
                        ])
                | inr differ ↦ rw differ (elim (Bool-cases (lt_int (r.node i) (r.own_node j))) [
                  | inl below ↦ rw below (
                      Returns-map
                        (loop-Answered fuel (i + 1) j (omega arith) (omega arith) (omega arith))
                        (widen (i + 1) j (skip_check i j hi hj (ground arith))))
                  | inr above ↦ rw above (
                      Returns-map
                        (loop-Answered fuel i (j + 1) (omega arith) (omega arith) (omega arith))
                        (widen i (j + 1) (skip_label i j hi hj (ground arith))))
                ])
              ])
      ]

  -- Where the node to check and the original node have labels by strictly ascending nodes below
  -- Integer.MAX_VALUE, with distances below 2^30 that can all be read, and the distance to check
  -- is not negative, isRedundant returns: true together with a common label, other than the node
  -- to check itself, over which that node is at most the distance to check away, or false where
  -- there is no such label.
  pub is_redundant-Answered :
      Returns (Answered 0 0) (is_redundant l to_check check_dist labels check_dists)
  unfolding is_redundant
  is_redundant-Answered = rw r.has_nodes (
      loop-Answered (length r.nodes + size labels + 1) 0 0 (omega arith) (omega arith)
        (omega arith))
