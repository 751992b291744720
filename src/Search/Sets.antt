-- ===== src/Search/Sets.antt =====
-- The binary search of the sorted sets, whose arrays end in cells with Integer.MAX_VALUE.
use fapra_osm_routing.Prelude.{
  ℕ, suc, ◌+◌, ◌-◌, ◌≤◌, ◌<◌, ◌≡◌, sym, ap, ◌∙◌, subst, List, ◌∷◌, ◌++◌, Word32, max_value, rank,
  rank_injective, Returns, Returns-map, length, length-append, get_or, get_or-append_left,
  get_or-append_right, take, drop, split_at, take-append-drop, length-take_le, All, All-insert,
  All-remove, All-get, All-take, All-drop, arith, ltb, leb, Bool-cases, inl, inr,
}
use fapra_osm_routing.Prelude.Ascending.{
  IsStrict, IsStrict-insert, IsStrict-remove, IsStrict-get, IsWeak-get, IsWeak-append, All-imply,
}
use fapra_osm_routing.Search.{Position, found, missing, binary_search}
use fapra_osm_routing.Search.Sound.{Locates, search_between-Locates}

-- An ascending list of non-negative numbers below Integer.MAX_VALUE.
pub record IsSorted (xs : List Word32) : Type 0 where
  pub strict : IsStrict xs
  pub below : All (λ x. x < max_value) xs

pub IsSorted-insert :
    (p : List Word32) (x : Word32) (q : List Word32)
    → IsSorted (p ++ q)
    → x < max_value
    → All (λ y. rank y < rank x) p
    → All (λ y. rank x < rank y) q
    → IsSorted (p ++ x ∷ q)
IsSorted-insert p x q s h l u = record {
  strict = IsStrict-insert p x q s.strict l u;
  below = All-insert (λ y. y < max_value) p x q h s.below;
}

pub IsSorted-remove :
    (p : List Word32) (x : Word32) (q : List Word32) → IsSorted (p ++ x ∷ q) → IsSorted (p ++ q)
IsSorted-remove p x q s = record {
  strict = IsStrict-remove p x q s.strict;
  below = All-remove (λ y. y < max_value) p x q s.below;
}

-- The entries ascend as natural numbers, too.
pub IsSorted-get :
    {xs : List Word32}
    → IsSorted xs
    → (i j : ℕ) → i < j
    → j < length xs
    → get_or xs i 0 < get_or xs j 0
IsSorted-get {xs} s i j p q =
    let first = All-get (λ x. x < max_value) xs i 0 s.below (omega arith) in
    let second = All-get (λ x. x < max_value) xs j 0 s.below q in
    omega (arith, IsStrict-get xs s.strict i j p q, first, second)

-- The element with its neighbours, or the place where it belongs.
abbrev pub Answers : List Word32 → Word32 → Position → Type 0
Answers xs x (found i) = (p : List Word32) × (q : List Word32) × (xs ≡ p ++ x ∷ q) × (i ≡ length p)
Answers xs x (missing i) =
    (p : List Word32) × (q : List Word32) × (xs ≡ p ++ q)
    × (i ≡ length p)
    × All (λ y. rank y < rank x) p
    × All (λ y. rank x < rank y) q

module _ (a xs spare : List Word32) (x : Word32) (stored : a ≡ xs ++ spare) (sorted : IsSorted xs)
    (filled : All (λ y. y ≡ max_value) spare) (small : x < max_value) where
  a-length : length a ≡ length xs + length spare
  a-length = omega (arith, ap length stored, length-append xs spare)

  spare-cell : (i : ℕ) → length xs ≤ i → i < length a → get_or a i 0 ≡ max_value
  spare-cell i p q =
      ap (λ t. get_or t i 0) stored
      ∙ get_or-append_right xs spare i (i - length xs) 0 (omega arith)
      ∙ All-get (λ y. y ≡ max_value) spare (i - length xs) 0 filled (omega (arith, a-length))

  held-cell : (i : ℕ) → i < length xs → get_or a i 0 ≡ get_or xs i 0
  held-cell i p = ap (λ t. get_or t i 0) stored ∙ get_or-append_left xs spare i 0 p

  Locates-Answers : (r : Position) → Locates a 0 (length a) x r → Answers xs x r
  Locates-Answers (found i) (_, inside, same) = elim (Bool-cases (ltb i (length xs))) [
    | inr past ↦ absurd (omega (arith, ap rank (spare-cell i (ground arith) inside)))
    | inl held ↦
        let h : i < length xs = ground arith in
        let bound = All-get (λ y. y < max_value) xs i 0 sorted.below h in
        let e : get_or xs i 0 ≡ x =
          rank_injective (get_or xs i 0) x (omega arith) (omega arith)
            (omega (arith, ap rank (held-cell i h))) in
        (
          take i xs,
          drop (suc i) xs,
          sym (subst (λ t. take i xs ++ t ∷ drop (suc i) xs ≡ xs) e (split_at xs i 0 h)),
          sym (length-take_le i xs (omega arith)),
        )
  ]
  Locates-Answers (missing i) (_, inside, below, above) =
      let h : i ≤ length xs = elim (Bool-cases (leb i (length xs))) [
        | inl held ↦ ground arith
        | inr past ↦
            let far : length xs < i = ground arith in
            absurd (
              omega (
                arith,
                below (length xs) (omega arith) far,
                ap rank (spare-cell (length xs) (omega arith) (omega arith)),
              ))
      ] in
      (
        take i xs,
        drop i xs,
        sym (take-append-drop i xs),
        sym (length-take_le i xs h),
        All-take (λ y. rank y < rank x) xs i 0
            (λ j p q. omega (arith, below j (omega arith) p, ap rank (held-cell j q))),
        All-drop (λ y. rank x < rank y) xs i 0
            (λ j p q. omega (arith, above j p (omega (arith, a-length)), ap rank (held-cell j q))),
      )

  pub binary_search-Answers : Returns (Answers xs x) (binary_search a x)
  unfolding binary_search
  binary_search-Answers =
      let weak =
        IsWeak-append max_value xs spare sorted.strict
          (All-imply xs (λ y h. omega arith) sorted.below) filled in
      Returns-map
        (search_between-Locates a 0 (length a) x
          (λ i j _ p q.
            subst (λ t. rank (get_or t i 0) ≤ rank (get_or t j 0)) (sym stored)
              (IsWeak-get (xs ++ spare) weak i j p (subst (λ t. j < length t) stored q)))
          (omega arith) (omega arith))
        Locates-Answers
