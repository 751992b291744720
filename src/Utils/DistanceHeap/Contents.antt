-- ===== src/Utils/DistanceHeap/Contents.antt =====
-- What the heap holds: ids in ascending order, with their distances.
use fapra_osm_routing.Prelude.{
  ℕ, zero, suc, ◌+◌, ◌-◌, ◌<◌, ◌≤◌, ◌≡◌, sym, ap, ◌∙◌, List, [], ◌∷◌, ◌++◌, Bool-cases, inl, inr,
  Word32, max_value, rank, ok, Returns-inv, length, length-append, length-take_le, length-drop,
  take, drop, split_at, get_or, get_or-append_left, get_or-append_right, All, All-get, ltb, arith,
}
use fapra_osm_routing.Prelude.Ascending.{IsStrict}
use fapra_osm_routing.Search.{Position, found, missing, binary_search}
use fapra_osm_routing.Search.Sets.{IsSorted, Answers, binary_search-Answers}
use fapra_osm_routing.Utils.DistanceHeap.{DistanceHeap}
use fapra_osm_routing.Utils.DistanceHeap.Indexed.{IsIndexed, key}
use fapra_osm_routing.Utils.DistanceHeap.Order.{IsOrdered}
use fapra_osm_routing.Utils.DistanceHeap.Gap.{HasEntry, without}

-- The heap holds the ascending ids `xs`, at the distances `ds`, and is in order: the ids stand at
-- the positions below their number, each at exactly one.
pub record IsHeap (h : DistanceHeap) (xs ds : List Word32) : Type 0 where
  pub size : h.current_size ≡ length xs
  pub spare : List Word32
  pub stored : h.contained_ids ≡ xs ++ spare
  pub filled : All (λ y. y ≡ max_value) spare
  pub sorted : IsSorted xs
  pub paired : length ds ≡ length xs
  pub spare_distances : List Word32
  pub distances : h.distances ≡ ds ++ spare_distances
  pub rooms : length h.distances ≡ length h.contained_ids
  pub positions : length h.heap_position ≡ length h.contained_ids
  pub heap_array : length h.id_heap_array ≡ length h.contained_ids
  pub at : ℕ → ℕ
  pub inside : (p : ℕ) → p < length xs → at p < length xs
  pub onto : (k : ℕ) → k < length xs → (p : ℕ) × (p < length xs) × (at p ≡ k)
  pub indexed : IsIndexed h (length xs) at
  pub ordered : IsOrdered (length xs) (key h at)

IsStrict-get :
    (xs : List Word32)
    → IsStrict xs
    → (i j : ℕ) → i < j
    → j < length xs
    → rank (get_or xs i 0) < rank (get_or xs j 0)
IsStrict-get [] s i j p q = absurd (omega arith)
IsStrict-get (x ∷ xs) s i zero p q = absurd (omega arith)
IsStrict-get (x ∷ xs) s zero (suc j) p q = All-get (λ y. rank x < rank y) xs j 0 s.0 (omega arith)
IsStrict-get (x ∷ xs) s (suc i) (suc j) p q = IsStrict-get xs s.1 i j (omega arith) (omega arith)

-- The entries of an ascending list differ.
same_entry :
    (xs : List Word32)
    → IsStrict xs
    → (i j : ℕ) → i < length xs
    → j < length xs
    → get_or xs i 0 ≡ get_or xs j 0
    → i ≡ j
same_entry xs s i j p q e = elim (Bool-cases (ltb i j)) [
  | inl less ↦ absurd (omega (arith, IsStrict-get xs s i j (ground arith) q, ap rank e))
  | inr not_less ↦ elim (Bool-cases (ltb j i)) [
    | inl more ↦ absurd (omega (arith, IsStrict-get xs s j i (ground arith) p, ap rank e))
    | inr not_more ↦ ground arith
  ]
]

get_or-middle :
    (p : List Word32) (x : Word32) (q : List Word32) → get_or (p ++ x ∷ q) (length p) 0 ≡ x
get_or-middle p x q = get_or-append_right p (x ∷ q) (length p) 0 0 (omega arith)

-- The search of an entry finds its index.
pub binary_search-entry :
    (a xs spare : List Word32) (k : ℕ)
    → a ≡ xs ++ spare
    → IsSorted xs
    → All (λ y. y ≡ max_value) spare
    → k < length xs
    → binary_search a (get_or xs k 0) ≡ ok (found k)
binary_search-entry a xs spare k stored sorted filled l =
    let x = get_or xs k 0 in
    let (r, e, answer) = Returns-inv (
      binary_search-Answers a xs spare x stored sorted filled
        (All-get (λ y. y < max_value) xs k 0 sorted.below l)) in
    e ∙ ap ok (by_answer r answer)
  where
    by_answer : (r : Position) → Answers xs (get_or xs k 0) r → r ≡ found k
    by_answer (found i) (p, q, f, at) =
        let m : length p < length xs =
          omega (arith, ap length f, length-append p (get_or xs k 0 ∷ q)) in
        ap found (
          at
          ∙ same_entry xs sorted.strict (length p) k m l
              (ap (λ t. get_or t (length p) 0) f ∙ get_or-middle p (get_or xs k 0) q))
    by_answer (missing i) (p, q, f, at, lower, upper) = elim (Bool-cases (ltb k (length p))) [
      | inl left ↦
          let m : k < length p = ground arith in
          absurd (
            omega (
              arith,
              All-get (λ y. rank y < rank (get_or xs k 0)) p k 0 lower m,
              ap rank (ap (λ t. get_or t k 0) f ∙ get_or-append_left p q k 0 m),
            ))
      | inr right ↦
          let m : length p ≤ k = ground arith in
          absurd (
            omega (
              arith,
              All-get (λ y. rank (get_or xs k 0) < rank y) q (k - length p) 0 upper
                  (omega (arith, ap length f, length-append p q)),
              ap rank (
                  ap (λ t. get_or t k 0) f
                  ∙ get_or-append_right p q k (k - length p) 0 (omega arith)),
            ))
    ]

-- An entry of the first cells of an array.
abbrev pub entry_of :
    (a xs spare : List ℕ) (i n : ℕ)
    → a ≡ xs ++ spare
    → i < length xs
    → n + 1 ≡ length xs
    → HasEntry a i n
entry_of a xs spare i n stored l count = record {
  front = take i xs;
  entry = get_or xs i 0;
  back = drop (suc i) xs;
  spare = spare;
  stored = stored ∙ ap (λ t. t ++ spare) (sym (split_at xs i 0 l));
  index = sym (length-take_le i xs (omega arith));
  count = omega (arith, length-take_le i xs (omega arith), length-drop (suc i) xs);
}

module _ {a : List ℕ} {i n : ℕ} (e : HasEntry a i n) (z : ℕ) where
  pub get-without_before : (j : ℕ) → j < i → get_or (without e z) j 0 ≡ get_or a j 0
  get-without_before j l =
      get_or-append_left (e.front ++ e.back) (z ∷ e.spare) j 0
        (omega (arith, e.index, length-append e.front e.back))
      ∙ get_or-append_left e.front e.back j 0 (omega (arith, e.index))
      ∙ sym (
          ap (λ t. get_or t j 0) e.stored
          ∙ get_or-append_left (e.front ++ e.entry ∷ e.back) e.spare j 0
              (omega (arith, e.index, length-append e.front (e.entry ∷ e.back)))
          ∙ get_or-append_left e.front (e.entry ∷ e.back) j 0 (omega (arith, e.index)))

  pub get-without_after : (j : ℕ) → i ≤ j → j < n → get_or (without e z) j 0 ≡ get_or a (suc j) 0
  get-without_after j l m =
      get_or-append_left (e.front ++ e.back) (z ∷ e.spare) j 0
        (omega (arith, e.count, length-append e.front e.back))
      ∙ get_or-append_right e.front e.back j (j - i) 0 (omega (arith, e.index))
      ∙ sym (
          ap (λ t. get_or t (suc j) 0) e.stored
          ∙ get_or-append_left (e.front ++ e.entry ∷ e.back) e.spare (suc j) 0
              (omega (arith, e.count, length-append e.front (e.entry ∷ e.back)))
          ∙ get_or-append_right e.front (e.entry ∷ e.back) (suc j) (suc (j - i)) 0
              (omega (arith, e.index)))
