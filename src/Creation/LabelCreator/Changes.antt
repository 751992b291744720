-- ===== src/Creation/LabelCreator/Changes.antt =====
-- createHLCalcOrder as a whole: the order of the nodes, and where its levels begin.
use fapra_osm_routing.Prelude.{
  ℕ, suc, ◌+◌, ◌≤◌, ◌<◌, ◌≡◌, ◌≢◌, refl, sym, ap, ◌∙◌, subst, List, [], ◌∷◌, ◌++◌, Word32,
  max_value, lt_int, ok, Returns, Returns-bind, Returns-map, Returns-inv, returns, load, length,
  length-append, length-replicate, replicate, All, append_assoc, append-nil, get_elem?,
  get_elem?-append, arith, false, Bool-cases, inl, inr, some, ◌>>=◌,
}
use fapra_osm_routing.Utils.OrderedIntSet.{OrderedIntSet}
use fapra_osm_routing.Utils.OrderedIntSet.Sequence.{Holds, insert_tail-Holds, new-Holds}
use fapra_osm_routing.Creation.Nodes.{Nodes, get_node_count}
use fapra_osm_routing.Creation.LabelCreator.{
  fill_order, sort_loop, change_loop, find_changes, create_hl_calc_order,
}
use fapra_osm_routing.Creation.LabelCreator.Order.{
  count, range, IsDescending, Reads, IsSorting, sort_loop-IsSorting, fill_order-range, length-range,
}

abbrev pub flatten : List (List Word32) → List Word32
flatten [] = []
flatten (b ∷ blocks) = b ++ flatten blocks

-- Where the blocks begin, of which the first begins at `from`.
abbrev pub begins : ℕ → List (List Word32) → List ℕ
begins from [] = []
begins from (b ∷ blocks) = from ∷ begins (from + length b) blocks

module _ (level : Word32 → ℕ) where
  -- Each block has one level, which is below that of the block before it.
  abbrev pub AreBlocks : ℕ → List (List Word32) → Type 0
  AreBlocks above [] = Unit
  AreBlocks above (b ∷ blocks) =
      (at : ℕ) × (at < above) × (b ≢ []) × All (λ x. level x ≡ at) b × AreBlocks at blocks

  -- What the loop adds to the set `held` behind the nodes of the level `prev`.
  abbrev Changed : ℕ → ℕ → List Word32 → List Word32 → OrderedIntSet → Type 0
  Changed prev i todo held t =
      (same : List Word32) × (blocks : List (List Word32)) × (todo ≡ same ++ flatten blocks)
      × All (λ x. level x ≡ prev) same
      × AreBlocks prev blocks
      × Holds t (held ++ begins (i + length same) blocks)

  module _ (n : Nodes) where
    change_loop-Changed :
        (p todo held : List Word32) (i prev : ℕ) (s : OrderedIntSet)
        → i ≡ length p
        → All (Reads level n) todo
        → All (λ y. level y ≤ prev) todo
        → prev ≤ max_value
        → IsDescending level todo
        → Holds s held
        → Returns (Changed prev i todo held) (change_loop n (p ++ todo) (length todo) i prev s)
    unfolding change_loop
    change_loop-Changed p [] held i prev s at reads below small down h =
        returns ([], [], refl, tt, tt, subst (Holds s) (sym (append-nil held)) h)
    change_loop-Changed p (x ∷ todo) held i prev s at (read, reads) (b, below) small (d, down) h =
        let here : get_elem? (p ++ x ∷ todo) i ≡ some x = get_elem?-append p x todo i at in
        let further : i + 1 ≡ length (p ++ x ∷ []) = omega (arith, length-append p (x ∷ [])) in
        rw (here, load, read.0)
          (elim (Bool-cases (lt_int (level x) prev)) [
            | inl falls ↦
                let (t, inserted, (held', _)) = Returns-inv (insert_tail-Holds i h) in
                rw (falls, inserted)
                  (Returns-map
                    (onward p x todo (i + 1) t (
                      change_loop-Changed (p ++ x ∷ []) todo (held ++ i ∷ []) (i + 1) (level x) t
                        further reads d read.1 down held'))
                    λ t' (same, blocks, split, level_same, ordered, k). (
                      [],
                      (x ∷ same) ∷ blocks,
                      ap (λ q. x ∷ q) split,
                      tt,
                      (
                        level x,
                        ground (arith, read.1),
                        λ e. ground (arith, e),
                        (refl, level_same),
                        ordered,
                      ),
                      subst (Holds t')
                          (append_assoc held (i ∷ []) _
                            ∙ ap (λ q. held ++ q) (begins-cons i x same blocks))
                          k,
                    ))
            | inr stays ↦
                let level_x : level x ≡ prev = ground (arith, read.1) in
                rw stays (
                  Returns-map
                    (onward p x todo (i + 1) s (
                      change_loop-Changed (p ++ x ∷ []) todo held (i + 1) (level x) s further reads
                        d read.1 down h))
                    λ t' (same, blocks, split, level_same, ordered, k). (
                      x ∷ same,
                      blocks,
                      ap (λ q. x ∷ q) split,
                      (level_x, subst (λ m. All (λ y. level y ≡ m) same) level_x level_same),
                      subst (λ m. AreBlocks m blocks) level_x ordered,
                      subst (λ j. Holds t' (held ++ begins j blocks)) (omega arith) k,
                    ))
          ])
      where
        onward :
            {Post : OrderedIntSet → Type 0} (p : List Word32) (x : Word32) (todo : List Word32)
            (i : ℕ) (s : OrderedIntSet)
            → Returns Post (change_loop n ((p ++ x ∷ []) ++ todo) (length todo) i (level x) s)
            → Returns Post (change_loop n (p ++ x ∷ todo) (length todo) i (level x) s)
        onward {Post} p x todo i s =
            subst (λ c. Returns Post (change_loop n c (length todo) i (level x) s))
              (append_assoc p (x ∷ []) todo)

        begins-cons :
            (i : ℕ) (x : Word32) (same : List Word32) (blocks : List (List Word32))
            → ◌≡◌ {A = List Word32}
                (i ∷ begins (i + 1 + length same) blocks)
                (begins (i + 0) ((x ∷ same) ∷ blocks))
        begins-cons i x same blocks =
            ap (λ j. i ∷ begins j blocks) (omega arith)
            ∙ ap (λ j. begins j ((x ∷ same) ∷ blocks)) (omega arith)

    -- The node ids in an order by falling levels, as blocks of equal levels with their borders.
    pub record IsCalcOrder (size : ℕ) (result : List Word32 × OrderedIntSet) : Type 0 where
      pub counts : (x : Word32) → count x result.0 ≡ count x (range size)
      pub lengths : length result.0 ≡ size
      pub descends : IsDescending level result.0
      pub blocks : List (List Word32)
      pub split : result.0 ≡ flatten blocks
      pub levels : AreBlocks 2147483648 blocks
      pub borders : Holds result.1 (begins 0 blocks ++ size ∷ [])

    -- The first node does not count as a change, whatever its level.
    find_changes-borders :
        (x : Word32) (todo : List Word32)
        → All (Reads level n) (x ∷ todo)
        → IsDescending level (x ∷ todo)
        → Returns
            (λ t.
              (blocks : List (List Word32)) × (x ∷ todo ≡ flatten blocks)
              × AreBlocks 2147483648 blocks
              × Holds t (begins 0 blocks ++ length (x ∷ todo) ∷ []))
            (find_changes n (x ∷ todo))
    unfolding find_changes change_loop
    find_changes-borders x todo ((read, small), reads) (d, down) =
        let (started, first, (held, _)) =
          Returns-inv (insert_tail-Holds 0 (new-Holds false 650 10 (omega arith))) in
        let stays : lt_int (level x) 0 ≡ false = ground arith in
        let (t, changed, (same, blocks, split, level_same, ordered, k)) = Returns-inv (
          change_loop-Changed (x ∷ []) todo (0 ∷ []) (0 + 1) (level x) started (omega arith) reads d
            small down held) in
        rw (first, read, stays, changed)
          (Returns-map (insert_tail-Holds (suc (length todo)) k) λ t' (held', _). (
            (x ∷ same) ∷ blocks,
            ap (λ q. x ∷ q) split,
            (level x, omega arith, λ e. ground (arith, e), (refl, level_same), ordered),
            subst (λ j. Holds t' ((0 ∷ begins j blocks) ++ suc (length todo) ∷ [])) (omega arith)
                held',
          ))

    -- For at least one node, where the levels can be read and are not negative, createHLCalcOrder
    -- returns: the order has each node id below the number of nodes once, by levels that never
    -- rise, and is a sequence of blocks of one level each, every block below the one before; the
    -- set has the indices at which the blocks begin, and the number of nodes behind them.
    pub create_hl_calc_order-IsCalcOrder :
        0 < get_node_count n
        → All (Reads level n) (range (get_node_count n))
        → Returns (IsCalcOrder (get_node_count n)) (create_hl_calc_order n)
    unfolding create_hl_calc_order
    create_hl_calc_order-IsCalcOrder positive reads =
        let size = get_node_count n in
        let sized = length-replicate {A = Word32} size 0 in
        let whole : size + 0 ≡ size = omega arith in
        let filled : fill_order size 0 (replicate size 0) ≡ ok (range size) =
          fill_order-range size 0 (replicate size 0) (omega arith)
            (record { spare = replicate size 0; stored = refl; counted = refl })
          ∙ ap (λ j. ok (range j)) whole in
        let start : IsSorting level n (range size) (range size) [] = record {
          reads = reads;
          reads_sorted = tt;
          descends = tt;
          above = tt;
          counts = λ x. omega arith;
          lengths = omega arith;
        } in
        let sorted =
          subst
            (λ c.
              Returns (λ order. IsSorting level n (range size) [] order)
                (sort_loop n size size 0 c))
            (append-nil (range size))
            (sort_loop-IsSorting level n size size 0 (range size) (range size) []
              (length-range size) (omega arith) start) in
        rw filled (Returns-bind sorted (and_borders size positive))
      where
        and_borders :
            (size : ℕ)
            → 0 < size
            → (order : List Word32) → IsSorting level n (range size) [] order
            → Returns
                (IsCalcOrder size)
                (find_changes n order >>= λ change_indices. ok (order, change_indices))
        and_borders size positive [] k = absurd (omega (arith, k.lengths, length-range size))
        and_borders size positive (x ∷ todo) k =
            Returns-bind (find_changes-borders x todo k.reads_sorted k.descends)
              λ t (blocks, split, levels, held). returns (record {
                counts = λ y. omega (arith, k.counts y);
                lengths = omega (arith, k.lengths, length-range size);
                descends = k.descends;
                blocks = blocks;
                split = split;
                levels = levels;
                borders =
                    subst (λ j. Holds t (begins 0 blocks ++ j ∷ []))
                      (omega (arith, k.lengths, length-range size)) held;
              })
