-- ===== src/LabelData/HublNodes/EdgeInfo/Higher.antt =====
-- initEdgeInfo keeps, of a node, the edges to higher nodes in their order.
use fapra_osm_routing.Prelude.{
  ℕ, zero, suc, ◌+◌, ◌-◌, ◌<◌, ◌≡◌, refl, sym, ap, ◌∙◌, subst, List, [], ◌∷◌, ◌++◌, Word32, lt_int,
  Bool, true, false, Bool-cases, inl, inr, ok, Returns, Returns-map, returns, load, arraycopy,
  arraycopy-ok, length, length-append, take, drop, take-append, drop-append, append_assoc,
  get_elem?-append, All, ltb, if◌then◌else◌, arith,
}
use fapra_osm_routing.Creation.Edges.{Edges, get_dest}
use fapra_osm_routing.LabelData.HublNodes.EdgeInfo.{Kept, keep_loop}

module _ (e : Edges) (levels : List Word32) (node_lvl : Word32) (is_higher : Word32 → Bool) where
  abbrev pub higher : List Word32 → List Word32
  higher [] = []
  higher (x ∷ xs) = if is_higher x then x ∷ higher xs else higher xs

  -- The test of the edge tells whether its destination is higher.
  pub record Decides (x : Word32) : Type 0 where
    pub dest : Word32
    pub dest_lvl : Word32
    pub leads : get_dest e x ≡ ok dest
    pub has_level : load levels dest ≡ ok dest_lvl
    pub decides : lt_int node_lvl dest_lvl ≡ is_higher x

  -- The array has the edges `xs`, and there are `total` edges so far.
  pub record IsKept (xs : List Word32) (total : ℕ) (k : Kept) : Type 0 where
    pub spare : List Word32
    pub stored : k.edge_array ≡ xs ++ spare
    pub counted : k.edge_count ≡ length xs
    pub totalled : k.total_edge_len ≡ total

  -- The later edges move over a deleted one.
  delete-moves :
      (p : List Word32) (x : Word32) (q spare : List Word32)
      → (rest : List Word32) × (arraycopy
            (p ++ x ∷ (q ++ spare))
            (length p + 1)
            (p ++ x ∷ (q ++ spare))
            (length p)
            (length q)
          ≡ ok (p ++ (q ++ rest)))
  delete-moves p x q spare =
      let a = p ++ x ∷ (q ++ spare) in
      let size = length-append p (x ∷ (q ++ spare)) in
      let more = length-append q spare in
      let behind : drop (length p + 1) a ≡ q ++ spare =
        ap (drop (length p + 1)) (sym (append_assoc p (x ∷ []) (q ++ spare)))
        ∙ drop-append (p ++ x ∷ []) (q ++ spare) (length p + 1)
            (omega (arith, length-append p (x ∷ []))) in
      (
        drop (length p + length q) a,
        arraycopy-ok a (length p + 1) a (length p) (length q) (omega arith) (omega arith)
            ∙ ap ok (
                ap
                  (λ t.
                    (t ++ take (length q) (drop (length p + 1) a)) ++ drop (length p + length q) a)
                  (take-append p (x ∷ (q ++ spare)) (length p) refl)
                ∙ ap (λ t. (p ++ t) ++ drop (length p + length q) a)
                    (ap (take (length q)) behind ∙ take-append q spare (length q) refl)
                ∙ append_assoc p q (drop (length p + length q) a)),
      )

  -- The loop over the edges `todo` behind the kept ones.
  keep_loop-IsKept :
      (fuel : ℕ) (p todo : List Word32) (total : ℕ) (k : Kept)
      → length todo < fuel
      → All Decides todo
      → IsKept (p ++ todo) total k
      → Returns
          (IsKept (p ++ higher todo) (total + length (higher todo)))
          (keep_loop e levels node_lvl fuel (length p) k)
  unfolding keep_loop
  keep_loop-IsKept zero p todo total k f d h = absurd (omega arith)
  keep_loop-IsKept (suc fuel) p [] total k f d h =
      let end : ltb (length p) k.edge_count ≡ false =
        ground (arith, h.counted, length-append p []) in
      let same : total ≡ total + 0 = omega arith in
      rw end (returns (subst (λ t. IsKept (p ++ []) t k) same h))
  keep_loop-IsKept (suc fuel) p (x ∷ todo) total k f (decided, d) h =
      let count = length-append p (x ∷ todo) in
      let more : ltb (length p) k.edge_count ≡ true = ground (arith, h.counted, count) in
      let stored : k.edge_array ≡ p ++ x ∷ (todo ++ h.spare) =
        h.stored ∙ append_assoc p (x ∷ todo) h.spare in
      let here : load k.edge_array (length p) ≡ ok x =
        ap (λ a. load a (length p)) stored
        ∙ rw (get_elem?-append p x (todo ++ h.spare) (length p) refl, load) refl in
      rw (more, here, decided.leads, decided.has_level, decided.decides)
        (elim (Bool-cases (is_higher x)) [
          | inl up ↦
              let next : length (p ++ x ∷ []) ≡ length p + 1 =
                omega (arith, length-append p (x ∷ [])) in
              let k' : Kept = record k { total_edge_len = k.total_edge_len + 1 } in
              let ih =
                keep_loop-IsKept fuel (p ++ x ∷ []) todo (total + 1) k' (omega arith) d (record {
                  spare = h.spare;
                  stored = h.stored ∙ ap (λ t. t ++ h.spare) (sym (append_assoc p (x ∷ []) todo));
                  counted = h.counted ∙ ap length (sym (append_assoc p (x ∷ []) todo));
                  totalled = ap (λ j. j + 1) h.totalled;
                }) in
              rw up (
                subst
                  (λ j.
                    Returns (IsKept (p ++ x ∷ higher todo) (total + length (x ∷ higher todo)))
                      (keep_loop e levels node_lvl fuel j k'))
                  next
                  (Returns-map ih λ k2 r. record {
                    spare = r.spare;
                    stored =
                        r.stored ∙ ap (λ t. t ++ r.spare) (append_assoc p (x ∷ []) (higher todo));
                    counted = r.counted ∙ ap length (append_assoc p (x ∷ []) (higher todo));
                    totalled = omega (arith, r.totalled);
                  }))
          | inr down ↦
              let (rest, moved) = delete-moves p x todo h.spare in
              let left : k.edge_count - 1 - length p ≡ length todo =
                omega (arith, h.counted, count) in
              let moved' : arraycopy k.edge_array (length p + 1) k.edge_array (length p)
                    (k.edge_count - 1 - length p)
                  ≡ ok (p ++ (todo ++ rest)) =
                ap (λ a. arraycopy a (length p + 1) a (length p) (k.edge_count - 1 - length p))
                  stored
                ∙ ap
                    (λ m.
                      arraycopy (p ++ x ∷ (todo ++ h.spare)) (length p + 1)
                        (p ++ x ∷ (todo ++ h.spare)) (length p) m)
                    left
                ∙ moved in
              rw (down, moved')
                (keep_loop-IsKept fuel p todo total
                  (record k { edge_array = p ++ (todo ++ rest); edge_count = k.edge_count - 1 })
                  (omega arith) d
                  (record {
                    spare = rest;
                    stored = sym (append_assoc p todo rest);
                    counted = omega (arith, h.counted, count, length-append p todo);
                    totalled = h.totalled;
                  }))
        ])

  -- Where the test of each of the edges `xs` of a node tells whether its destination is higher,
  -- the loop of initEdgeInfo over them returns: it keeps the edges to higher nodes, in their
  -- order, and counts them.
  pub keep_loop-higher :
      (xs spare : List Word32) (total : ℕ)
      → All Decides xs
      → Returns (IsKept (higher xs) (total + length (higher xs))) (
          keep_loop e levels node_lvl
            (length xs + 1)
            0
            (record { edge_array = xs ++ spare; edge_count = length xs; total_edge_len = total }))
  keep_loop-higher xs spare total d =
      keep_loop-IsKept (length xs + 1) [] xs total _ (omega arith) d
        (record { spare = spare; stored = refl; counted = refl; totalled = refl })
