-- ===== src/Router/BestLabel/Least.antt =====
-- The common label that the loop finds has the least distance.
use fapra_osm_routing.Prelude.{
  ℕ, zero, suc, ◌+◌, ◌≤◌, ◌<◌, ◌≡◌, ◌⊎◌, inl, inr, refl, ap, sym, Word32, max_value, lt_int,
  add_int, Option, none, some, ok, Returns, returns, ltb, ◌==◌, ◌&&◌, Bool-cases, arith,
}
use fapra_osm_routing.Router.BestLabel.{
  Meet, Best, Side, no_label, improve, merge, best_common_label,
}

-- The labels of a side, in the cells from `start` to before `end`: ascending nodes, and distances
-- of which two can be added without overflow. There is a node to read at `end` too.
pub record Labels (s : Side) (start end : ℕ) : Type 0 where
  pub node : ℕ → Word32
  pub dist : ℕ → Word32
  pub order : start ≤ end
  pub reads_node : (i : ℕ) → start ≤ i → i ≤ end → s.node i ≡ ok (node i)
  pub reads_dist : (i : ℕ) → start ≤ i → i < end → s.dist i ≡ ok (dist i)
  pub strict : (i j : ℕ) → start ≤ i → i < j → j < end → node i < node j
  pub small_node : (i : ℕ) → start ≤ i → i < end → node i < max_value
  pub small_dist : (i : ℕ) → start ≤ i → i < end → dist i < 1073741824

module _ {a b : Side} {start_a end_a start_b end_b : ℕ} (la : Labels a start_a end_a)
    (lb : Labels b start_b end_b) where
  -- The entry is a label of both sides, over the given distance.
  abbrev pub IsMeet : Word32 → Option Meet → Type 0
  IsMeet d none = d ≡ max_value
  IsMeet d (some m) =
      (start_a ≤ m.idx_a)
      × (m.idx_a < end_a)
      × (start_b ≤ m.idx_b)
      × (m.idx_b < end_b)
      × (la.node m.idx_a ≡ m.node)
      × (lb.node m.idx_b ≡ m.node)
      × (la.dist m.idx_a + lb.dist m.idx_b ≡ d)

  -- The pairs of common labels of which one is left of `i` or `j` are not shorter.
  abbrev pub Bounds : Best → ℕ → ℕ → Type 0
  Bounds best i j =
      (k l : ℕ)
      → start_a ≤ k
      → k < end_a
      → start_b ≤ l
      → l < end_b
      → la.node k ≡ lb.node l
      → (k < i) ⊎ (l < j)
      → best.distance ≤ la.dist k + lb.dist l

  record Inv (best : Best) (i j : ℕ) : Type 0 where
    in_a : (start_a ≤ i) × (i ≤ end_a)
    in_b : (start_b ≤ j) × (j ≤ end_b)
    small : best.distance ≤ max_value
    is_meet : IsMeet best.distance best.meet
    bounds : Bounds best i j

  module _ (best : Best) (i j : ℕ) (inv : Inv best i j) (hi : i < end_a) (hj : j < end_b) where
    sum : Word32
    sum = add_int (la.dist i) (lb.dist j)

    sum-exact : sum ≡ la.dist i + lb.dist j
    unfolding sum
    sum-exact = omega (arith, la.small_dist i inv.in_a.0 hi, lb.small_dist j inv.in_b.0 hj)

    here : Meet
    here = record { node = la.node i; idx_a = i; idx_b = j }

    -- A pair with one side in the new cells is the pair at hand.
    new_pair :
        la.node i ≡ lb.node j
        → (k l : ℕ) → i ≤ k
        → j ≤ l
        → k < end_a
        → l < end_b
        → la.node k ≡ lb.node l
        → (k < i + 1) ⊎ (l < j + 1)
        → la.dist k + lb.dist l ≡ sum
    new_pair e k l p q p' q' f t =
        let same : (k ≡ i) × (l ≡ j) =
          ground (arith, la.strict i k, lb.strict j l, inv.in_a.0, inv.in_b.0, ap la.node) in
        ground (arith, sum-exact, ap la.dist same.0, ap lb.dist same.1)

    old_or_new : (k l : ℕ) → ((k < i) ⊎ (l < j)) ⊎ ((i ≤ k) × (j ≤ l))
    old_or_new k l = ground arith

    common-Inv : la.node i ≡ lb.node j → Inv (improve best sum here) (i + 1) (j + 1)
    unfolding here
    common-Inv e = elim (Bool-cases (lt_int sum best.distance)) [
      | inl less ↦ rw less (record {
        in_a = omega (arith, inv.in_a);
        in_b = omega (arith, inv.in_b);
        small =
            omega (arith, sum-exact, la.small_dist i inv.in_a.0 hi, lb.small_dist j inv.in_b.0 hj);
        is_meet = (inv.in_a.0, hi, inv.in_b.0, hj, refl, sym e, sym sum-exact);
        bounds = λ k l p p' q q' f t. elim (old_or_new k l) [
          | inl old ↦ ground (
            arith,
            inv.bounds k l p p' q q' f old,
            inv.small,
            sum-exact,
            la.small_dist i inv.in_a.0 hi,
            lb.small_dist j inv.in_b.0 hj,
          )
          | inr (r, r') ↦ omega (arith, new_pair e k l r r' p' q' f t)
        ];
      })
      | inr more ↦ rw more (record {
        in_a = omega (arith, inv.in_a);
        in_b = omega (arith, inv.in_b);
        small = inv.small;
        is_meet = inv.is_meet;
        bounds = λ k l p p' q q' f t. elim (old_or_new k l) [
          | inl old ↦ inv.bounds k l p p' q q' f old
          | inr (r, r') ↦ ground (
            arith,
            new_pair e k l r r' p' q' f t,
            inv.small,
            sum-exact,
            la.small_dist i inv.in_a.0 hi,
            lb.small_dist j inv.in_b.0 hj,
          )
        ];
      })
    ]

    skip_b-Inv : lb.node j < la.node i → Inv best i (j + 1)
    skip_b-Inv h = record {
      in_a = inv.in_a;
      in_b = omega (arith, inv.in_b);
      small = inv.small;
      is_meet = inv.is_meet;
      bounds = λ k l p p' q q' f t. elim (old_or_new k l) [
        | inl old ↦ inv.bounds k l p p' q q' f old
        | inr (r, r') ↦
            let at : l ≡ j = ground arith in
            absurd (ground (arith, la.strict i k inv.in_a.0, ap lb.node at))
      ];
    }

    skip_a-Inv : la.node i < lb.node j → Inv best (i + 1) j
    skip_a-Inv h = record {
      in_a = omega (arith, inv.in_a);
      in_b = inv.in_b;
      small = inv.small;
      is_meet = inv.is_meet;
      bounds = λ k l p p' q q' f t. elim (old_or_new k l) [
        | inl old ↦ inv.bounds k l p p' q q' f old
        | inr (r, r') ↦
            let at : k ≡ i = ground arith in
            absurd (ground (arith, lb.strict j l inv.in_b.0, ap la.node at))
      ];
    }

  -- What the loop returns: a common label of least distance, or none where the sides have no
  -- common label.
  pub record IsBest (best : Best) : Type 0 where
    pub is_meet : IsMeet best.distance best.meet
    pub least :
        (k l : ℕ)
        → start_a ≤ k
        → k < end_a
        → start_b ≤ l
        → l < end_b
        → la.node k ≡ lb.node l
        → best.distance ≤ la.dist k + lb.dist l

  merge-IsBest :
      (fuel i j : ℕ) (best : Best)
      → end_a + end_b < fuel + i + j
      → Inv best i j
      → Returns IsBest (merge a b end_a end_b fuel i j (la.node i) (lb.node j) best)
  unfolding merge
  merge-IsBest zero i j best f inv = absurd (omega (arith, inv.in_a, inv.in_b))
  merge-IsBest (suc fuel) i j best f inv = elim (Bool-cases (ltb i end_a && ltb j end_b)) [
    | inr done ↦ rw done (
        returns (record {
          is_meet = inv.is_meet;
          least = λ k l p p' q q' e. inv.bounds k l p p' q q' e (ground arith);
        }))
    | inl more ↦
        let hi : i < end_a = ground arith in
        let hj : j < end_b = ground arith in
        let node_a = la.reads_node (i + 1) (omega (arith, inv.in_a)) (omega arith) in
        let node_b = lb.reads_node (j + 1) (omega (arith, inv.in_b)) (omega arith) in
        rw more (elim (Bool-cases (la.node i == lb.node j)) [
          | inl same ↦
              rw
                (same, la.reads_dist i inv.in_a.0 hi, lb.reads_dist j inv.in_b.0 hj, node_a, node_b)
                (merge-IsBest fuel (i + 1) (j + 1) _ (omega arith)
                  (unfold sum here in common-Inv best i j inv hi hj (ground arith)))
          | inr differ ↦ rw differ (elim (Bool-cases (lt_int (lb.node j) (la.node i))) [
            | inl above ↦
                rw (above, node_b)
                  (merge-IsBest fuel i (j + 1) best (omega arith) (
                    skip_b-Inv best i j inv hi hj (
                      ground
                        (arith, la.small_node i inv.in_a.0 hi, lb.small_node j inv.in_b.0 hj))))
            | inr below ↦
                rw (below, node_a)
                  (merge-IsBest fuel (i + 1) j best (omega arith) (
                    skip_a-Inv best i j inv hi hj (
                      ground
                        (arith, la.small_node i inv.in_a.0 hi, lb.small_node j inv.in_b.0 hj))))
          ])
        ])
  ]

  -- For two sides whose labels stand by strictly ascending nodes below Integer.MAX_VALUE, with
  -- distances below 2^30 and a readable node behind the last label, the loop ends and returns a
  -- common label with the sum of its two distances, or none with Integer.MAX_VALUE; no pair of
  -- common labels has a smaller sum.
  pub best_common_label-IsBest : Returns IsBest (best_common_label a b end_a end_b start_a start_b)
  unfolding best_common_label
  best_common_label-IsBest =
      rw
        (la.reads_node start_a (omega arith) la.order, lb.reads_node start_b (omega arith) lb.order)
        (merge-IsBest (end_a + end_b + 1) start_a start_b no_label (omega arith) (record {
          in_a = (omega arith, la.order);
          in_b = (omega arith, lb.order);
          small = omega arith;
          is_meet = refl;
          bounds = λ k l p p' q q' e t. absurd (ground arith);
        }))
