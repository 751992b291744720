-- ===== src/Utils/DistanceHeap/Order.antt =====
-- The order of the heap: no position is closer than its parent.
use fapra_osm_routing.Prelude.{
  ℕ, zero, suc, ◌+◌, ◌-◌, ◌*◌, ◌/◌, ◌<◌, ◌≤◌, ◌≡◌, ◌≢◌, ◌⊎◌, refl, sym, subst, Bool, true, false,
  Bool-cases, inl, inr, ◌==◌, if◌then◌else◌, arith,
}
use fapra_osm_routing.Utils.DistanceHeap.Indexed.{swapped}

abbrev pub parent : ℕ → ℕ
parent p = (p - 1) / 2

-- No position below `n` has a larger value than its children.
abbrev pub IsOrdered : ℕ → (ℕ → ℕ) → Type 0
IsOrdered n k = (p : ℕ) → 0 < p → p < n → k (parent p) ≤ k p

-- The order may fail between `c` and its parent only.
pub record IsOrderedAbove (n c : ℕ) (k : ℕ → ℕ) : Type 0 where
  pub rest : (p : ℕ) → 0 < p → p < n → p ≢ c → k (parent p) ≤ k p
  pub below : (p : ℕ) → 0 < p → p < n → parent p ≡ c → 0 < c → k (parent c) ≤ k p

-- The order may fail between `r` and its children only.
pub record IsOrderedBelow (n r : ℕ) (k : ℕ → ℕ) : Type 0 where
  pub rest : (p : ℕ) → 0 < p → p < n → parent p ≢ r → k (parent p) ≤ k p
  pub below : (p : ℕ) → 0 < p → p < n → parent p ≡ r → 0 < r → k (parent r) ≤ k p

module _ (n c : ℕ) (k : ℕ → ℕ) where
  pub above-IsOrdered : IsOrderedAbove n c k → (0 < c → k (parent c) ≤ k c) → IsOrdered n k
  above-IsOrdered o h p pos l = elim (Bool-cases (p == c)) [
    | inl same ↦
        let e : c ≡ p = ground arith in subst (λ q. k (parent q) ≤ k q) e (h (ground arith))
    | inr differ ↦ o.rest p pos l (ground arith)
  ]

  -- One swap upwards.
  pub above-swapped :
      0 < c
      → c < n
      → k c ≤ k (parent c)
      → IsOrderedAbove n c k
      → IsOrderedAbove n (parent c) (swapped c (parent c) k)
  above-swapped pos l h o = record {
    rest = λ p q s differ. grind (arith, o.rest p q s);
    below = λ p q s child up. grind (arith, o.rest p q s, o.rest (parent c), o.below p q s);
  }

module _ (n r : ℕ) (k : ℕ → ℕ) where
  pub below-IsOrdered :
      IsOrderedBelow n r k → ((p : ℕ) → 0 < p → p < n → parent p ≡ r → k r ≤ k p) → IsOrdered n k
  below-IsOrdered o h p pos l = elim (Bool-cases (parent p == r)) [
    | inl child ↦
        let e : parent p ≡ r = ground arith in subst (λ q. k q ≤ k p) (sym e) (h p pos l e)
    | inr other ↦ o.rest p pos l (ground arith)
  ]

  -- One swap downwards, with a closest child.
  pub below-swapped :
      (m : ℕ)
      → 0 < m
      → m < n
      → parent m ≡ r
      → k m ≤ k r
      → ((p : ℕ) → 0 < p → p < n → parent p ≡ r → k m ≤ k p)
      → IsOrderedBelow n r k
      → IsOrderedBelow n m (swapped r m k)
  below-swapped m pos l child h closest o = record {
    rest = λ p q s differ. grind (arith, o.rest p q s, o.below m pos l, closest p q s);
    below = λ p q s at up. grind (arith, o.rest p q s);
  }

-- A function of the values changes places as they do.
pub swapped-map :
    (f : ℕ → ℕ) (i j : ℕ) (at : ℕ → ℕ) (p : ℕ)
    → f (swapped i j at p) ≡ swapped i j (λ q. f (at q)) p
swapped-map f i j at p = by_test (p == i) (p == j)
  where
    by_test :
        (b c : Bool)
        → f (if b then at j else if c then at i else at p)
          ≡ (if b then f (at j) else if c then f (at i) else f (at p))
    by_test true c = refl
    by_test false true = refl
    by_test false false = refl

-- The first position has the least value.
pub IsOrdered-first :
    (n : ℕ) (k : ℕ → ℕ) → IsOrdered n k → (fuel p : ℕ) → p < fuel → p < n → k 0 ≤ k p
IsOrdered-first n k o zero p f l = absurd (omega arith)
IsOrdered-first n k o (suc fuel) zero f l = omega arith
IsOrdered-first n k o (suc fuel) (suc p) f l = omega (
  arith,
  o (suc p) (omega arith) l,
  IsOrdered-first n k o fuel (parent (suc p)) (omega arith) (omega arith),
)

module _ (n : ℕ) (k : ℕ → ℕ) where
  -- The child was taken since it is not farther, or else it is not closer or not on the heap.
  abbrev pub IsPicked : ℕ → ℕ → ℕ → Type 0
  IsPicked child before m =
      ((m ≡ child) × (child < n) × (k child ≤ k before))
      ⊎ ((m ≡ before) × (child < n → k before ≤ k child))

  -- The root, which no child is closer than, or else a child that no other one is closer than.
  abbrev pub IsClosest : ℕ → ℕ → Type 0
  IsClosest r m =
      ((m ≡ r) × ((p : ℕ) → 0 < p → p < n → parent p ≡ r → k r ≤ k p))
      ⊎ ((0 < m)
          × (m < n)
          × (parent m ≡ r)
          × (k m ≤ k r)
          × ((p : ℕ) → 0 < p → p < n → parent p ≡ r → k m ≤ k p))

  picked_one :
      (r m : ℕ)
      → (2 * r + 1 < n → k m ≤ k (2 * r + 1))
      → (2 * r + 2 < n → k m ≤ k (2 * r + 2))
      → (p : ℕ) → 0 < p
      → p < n
      → parent p ≡ r
      → k m ≤ k p
  picked_one r m f g p pos l e = elim (Bool-cases (p == 2 * r + 1)) [
    | inl first ↦ let q : 2 * r + 1 ≡ p = ground arith in subst (λ c. k m ≤ k c) q (f (omega arith))
    | inr other ↦ let q : 2 * r + 2 ≡ p = ground arith in subst (λ c. k m ≤ k c) q (g (omega arith))
  ]

  pub picked-IsClosest :
      (r left m : ℕ) → IsPicked (2 * r + 1) r left → IsPicked (2 * r + 2) left m → IsClosest r m
  picked-IsClosest r left m (inl a) (inl b) = inr (
    omega arith,
    omega arith,
    omega arith,
    grind arith,
    picked_one r m (λ l. grind arith) (λ l. grind arith),
  )
  picked-IsClosest r left m (inl a) (inr b) = inr (
    omega arith,
    omega arith,
    omega arith,
    grind arith,
    picked_one r m (λ l. grind arith) (λ l. grind arith),
  )
  picked-IsClosest r left m (inr a) (inl b) = inr (
    omega arith,
    omega arith,
    omega arith,
    grind arith,
    picked_one r m (λ l. grind arith) (λ l. grind arith),
  )
  picked-IsClosest r left m (inr a) (inr b) =
      inl (omega arith, picked_one r r (λ l. grind arith) (λ l. grind arith))
