-- ===== src/Creation/LabelCreator/Order.antt =====
-- The bubble sort of createHLCalcOrder.
use fapra_osm_routing.Prelude.{
  ℕ, zero, suc, ◌+◌, ◌-◌, ◌≤◌, ◌<◌, ◌≡◌, refl, sym, ap, ◌∙◌, subst, List, [], ◌∷◌, ◌++◌, Word32,
  max_value, lt_int, ltb, some, none, throw, index_out_of_bounds, ok, Returns, Returns-bind,
  Returns-map, Returns-inv, returns, load, store-ok, set, set-append, length, length-append, All,
  append_assoc, get_elem?-append, arith, if◌then◌else◌, ◌==◌, true, false, Bool-cases, inl, inr,
}
use fapra_osm_routing.Prelude.Buffer.{IsBuffer, IsBuffer-full, store_in_place}
use fapra_osm_routing.Creation.Nodes.{Nodes, get_node_lvl}
use fapra_osm_routing.Creation.LabelCreator.{fill_order, swap_lower, sort_pass, sort_loop}

-- How often `x` occurs.
abbrev pub count : Word32 → List Word32 → ℕ
count x [] = 0
count x (y ∷ ys) = (if x == y then 1 else 0) + count x ys

pub count-append : (x : Word32) (p q : List Word32) → count x (p ++ q) ≡ count x p + count x q
count-append x [] q = omega arith
count-append x (y ∷ p) q = omega (arith, count-append x p q)

-- 0, 1 and so on to before `m`.
abbrev pub range : ℕ → List Word32
range zero = []
range (suc m) = range m ++ m ∷ []

pub length-range : (m : ℕ) → length (range m) ≡ m
length-range zero = refl
length-range (suc m) = omega (arith, length-append (range m) (m ∷ []), length-range m)

module _ (level : Word32 → ℕ) where
  -- No entry has a lower level than a later one.
  abbrev pub IsDescending : List Word32 → Type 0
  IsDescending [] = Unit
  IsDescending (x ∷ xs) = All (λ y. level y ≤ level x) xs × IsDescending xs

  -- A pass over `a` and the entries behind it leaves `before` and then `last`, the lowest one.
  pub record IsPassed (a : Word32) (behind before : List Word32) (last : Word32) : Type 1 where
    pub same_length : length before ≡ length behind
    pub counts : (x : Word32) → count x before + count x (last ∷ []) ≡ count x (a ∷ behind)
    pub keeps : (P : Word32 → Type 0) → P a → All P behind → All P before × P last
    pub lowest : All (λ y. level last ≤ level y) before
    pub not_above : level last ≤ level a

  module _ (n : Nodes) where
    -- The level of the node can be read.
    abbrev pub Reads : Word32 → Type 0
    Reads x = (get_node_lvl n x ≡ ok (level x)) × (level x ≤ max_value)

    -- The two cells that swapLower compares, and what it writes.
    module _ (p : List Word32) (a b : Word32) (q : List Word32) where
      first_cell : load (p ++ a ∷ b ∷ q) (length p + 1 - 1) ≡ ok a
      first_cell =
          let at : length p + 1 - 1 ≡ length p = omega arith in
          rw (get_elem?-append p a (b ∷ q) (length p + 1 - 1) at, load) refl

      next_cell : load (p ++ a ∷ b ∷ q) (length p + 1) ≡ ok b
      next_cell =
          let at : length p + 1 ≡ length (p ++ a ∷ []) = omega (arith, length-append p (a ∷ [])) in
          ap (λ c. load c (length p + 1)) (sym (append_assoc p (a ∷ []) (b ∷ q)))
          ∙ ap (λ o. elim o [ some x ↦ ok x | none ↦ throw index_out_of_bounds ])
              (get_elem?-append (p ++ a ∷ []) b q (length p + 1) at)

      swap_lower-keeps :
          Reads a
          → Reads b
          → level b ≤ level a
          → swap_lower n (length p + 1) (p ++ a ∷ b ∷ q) ≡ ok (p ++ a ∷ b ∷ q)
      unfolding swap_lower
      swap_lower-keeps (ra, sa) (rb, sb) h =
          let test : lt_int (level a) (level b) ≡ false = ground arith in
          rw (first_cell, next_cell, ra, rb, test) refl

      swap_lower-swaps :
          Reads a
          → Reads b
          → level a < level b
          → swap_lower n (length p + 1) (p ++ a ∷ b ∷ q) ≡ ok (p ++ b ∷ a ∷ q)
      unfolding swap_lower
      swap_lower-swaps (ra, sa) (rb, sb) h =
          let test : lt_int (level a) (level b) ≡ true = ground arith in
          let whole = length-append p (a ∷ b ∷ q) in
          let half = length-append p (b ∷ b ∷ q) in
          let at : length p + 1 - 1 ≡ length p = omega arith in
          let next : length p + 1 ≡ length (p ++ b ∷ []) =
            omega (arith, length-append p (b ∷ [])) in
          rw
            (
              first_cell,
              next_cell,
              ra,
              rb,
              test,
              store-ok (p ++ a ∷ b ∷ q) (length p + 1 - 1) b (omega arith),
              set-append p a (b ∷ q) (length p + 1 - 1) b at,
              store-ok (p ++ b ∷ b ∷ q) (length p + 1) a (omega arith),
            )
            (ap ok (
              ap (λ c. set c (length p + 1) a) (sym (append_assoc p (b ∷ []) (b ∷ q)))
              ∙ set-append (p ++ b ∷ []) b q (length p + 1) a next
              ∙ append_assoc p (b ∷ []) (a ∷ q)))

    -- The order after a pass: the entries `s` behind those of the pass stay.
    abbrev Passed : List Word32 → Word32 → List Word32 → List Word32 → List Word32 → Type 1
    Passed p a behind s order =
        (before : List Word32) × (last : Word32) × (order ≡ p ++ (before ++ last ∷ s))
        × IsPassed a behind before last

    sort_pass-Passed :
        (p : List Word32) (a : Word32) (behind s : List Word32)
        → Reads a
        → All Reads behind
        → Returns
            (Passed p a behind s)
            (sort_pass n (length behind) (length p + 1) (p ++ a ∷ (behind ++ s)))
    unfolding sort_pass
    sort_pass-Passed p a [] s ra rest = returns (
      [],
      a,
      refl,
      record {
        same_length = refl;
        counts = λ x. omega arith;
        keeps = λ P h t. (tt, h);
        lowest = tt;
        not_above = omega arith;
      },
    )
    sort_pass-Passed p a (b ∷ behind) s ra (rb, rest) =
        elim (Bool-cases (ltb (level a) (level b))) [
          | inl rises ↦
              let ih = sort_pass-Passed (p ++ b ∷ []) a behind s ra rest in
              rw (swap_lower-swaps p a b (behind ++ s) ra rb (ground arith)) (
                Returns-map (onward p b (a ∷ (behind ++ s)) (length behind) ih)
                  λ order (before, last, same, k). (
                    b ∷ before,
                    last,
                    same ∙ append_assoc p (b ∷ []) (before ++ last ∷ s),
                    record {
                      same_length = ap suc k.same_length;
                      counts = λ x. omega (arith, k.counts x);
                      keeps = λ P h t. let (l, m) = k.keeps P h t.1 in ((t.0, l), m);
                      lowest = (ground (arith, k.not_above), k.lowest);
                      not_above = k.not_above;
                    },
                  ))
          | inr falls ↦
              let ih = sort_pass-Passed (p ++ a ∷ []) b behind s rb rest in
              rw (swap_lower-keeps p a b (behind ++ s) ra rb (ground arith)) (
                Returns-map (onward p a (b ∷ (behind ++ s)) (length behind) ih)
                  λ order (before, last, same, k). (
                    a ∷ before,
                    last,
                    same ∙ append_assoc p (a ∷ []) (before ++ last ∷ s),
                    record {
                      same_length = ap suc k.same_length;
                      counts = λ x. omega (arith, k.counts x);
                      keeps = λ P h t. let (l, m) = k.keeps P t.0 t.1 in ((h, l), m);
                      lowest = (ground (arith, k.not_above), k.lowest);
                      not_above = ground (arith, k.not_above);
                    },
                  ))
        ]
      where
        onward :
            {Post : List Word32 → Type 1} (p : List Word32) (x : Word32) (q : List Word32)
            (left : ℕ)
            → Returns Post (sort_pass n left (length (p ++ x ∷ []) + 1) ((p ++ x ∷ []) ++ q))
            → Returns Post (sort_pass n left (length p + 1 + 1) (p ++ x ∷ q))
        onward {Post} p x q left h =
            let at : length (p ++ x ∷ []) + 1 ≡ length p + 1 + 1 =
              omega (arith, length-append p (x ∷ [])) in
            subst (λ j. Returns Post (sort_pass n left j (p ++ x ∷ q))) at
              (subst (λ c. Returns Post (sort_pass n left (length (p ++ x ∷ []) + 1) c))
                (append_assoc p (x ∷ []) q) h)

    -- The state of the sort: `u` is still to be sorted, and nothing in it is lower than `s`.
    pub record IsSorting (total : List Word32) (u s : List Word32) : Type 0 where
      pub reads : All Reads u
      pub reads_sorted : All Reads s
      pub descends : IsDescending s
      pub above : All (λ y. All (λ x. level y ≤ level x) u) s
      pub counts : (x : Word32) → count x u + count x s ≡ count x total
      pub lengths : length u + length s ≡ length total

    -- What a list with the same entries in another order keeps.
    All-above :
        {a last : Word32} {behind before : List Word32} (k : IsPassed a behind before last)
        (s : List Word32)
        → All (λ y. All (λ x. level y ≤ level x) (a ∷ behind)) s
        → All (λ y. All (λ x. level y ≤ level x) before) s × All (λ y. level y ≤ level last) s
    All-above k [] h = (tt, tt)
    All-above k (y ∷ s) (h, hs) =
        let (l, m) = k.keeps (λ x. level y ≤ level x) h.0 h.1 in
        let (ls, ms) = All-above k s hs in ((l, ls), (m, ms))

    pub sort_loop-IsSorting :
        (size left i : ℕ) (total u s : List Word32)
        → length u ≡ left
        → size ≡ left + i
        → IsSorting total u s
        → Returns (λ order. IsSorting total [] order) (sort_loop n size left i (u ++ s))
    unfolding sort_loop
    sort_loop-IsSorting size zero i total [] s e total_size k = returns k
    sort_loop-IsSorting size zero i total (a ∷ u) s e total_size k = absurd (omega arith)
    sort_loop-IsSorting size (suc left) i total [] s e total_size k = absurd (omega arith)
    sort_loop-IsSorting size (suc left) i total (a ∷ u) s e total_size k =
        let rounds : size - i - 1 ≡ length u = omega arith in
        rw rounds (
          Returns-bind (sort_pass-Passed [] a u s k.reads.0 k.reads.1)
            λ order (before, last, same, passed).
              let (l, m) = All-above passed s k.above in
              let reads = passed.keeps Reads k.reads.0 k.reads.1 in
              subst
                (λ c. Returns (λ order. IsSorting total [] order) (sort_loop n size left (i + 1) c))
                (sym same)
                (sort_loop-IsSorting size left (i + 1) total before (last ∷ s)
                  (omega (arith, passed.same_length)) (omega arith)
                  (record {
                    reads = reads.0;
                    reads_sorted = (reads.1, k.reads_sorted);
                    descends = (m, k.descends);
                    above = (passed.lowest, l);
                    counts = λ x. omega (arith, passed.counts x, k.counts x);
                    lengths = omega (arith, passed.same_length, k.lengths);
                  })))

-- The first loop writes each index into its cell.
pub fill_order-range :
    (left i : ℕ) (order : List Word32)
    → length order ≡ left + i
    → IsBuffer order i (range i)
    → fill_order left i order ≡ ok (range (left + i))
unfolding fill_order
fill_order-range zero i order size b =
    let end : 0 + i ≡ i = omega arith in ap ok (IsBuffer-full b (omega arith) ∙ ap range (sym end))
fill_order-range (suc left) i order size b =
    let next : i + 1 ≡ suc i = omega arith in
    let total : left + (i + 1) ≡ suc left + i = omega arith in
    let (filled, stored, (held, same)) = Returns-inv (store_in_place i b (omega arith)) in
    let held' : IsBuffer filled (i + 1) (range (i + 1)) =
      subst (λ j. IsBuffer filled (i + 1) (range j)) (sym next) held in
    rw stored
      (fill_order-range left (i + 1) filled (omega arith) held' ∙ ap (λ j. ok (range j)) total)
