-- ===== src/Utils/IntArraySet/Laws.antt =====
-- IntArraySet as a set of numbers.
use fapra_osm_routing.Prelude.{
  ℕ, ◌+◌, ◌<◌, ◌≡◌, ◌≢◌, refl, sym, ap, ◌∙◌, subst, List, [], ◌∷◌, ◌++◌, append_assoc, true, ◌↔◌,
  ◌⊎◌, inl, inr, Word32, max_value, rank, Returns, returns, Returns-bind, Returns-map, length,
  length-append, length-replicate, replicate, All, All-append, All-replicate, arith, ◌==◌, ==_iff,
  Bool-cases,
}
use mathlib.Core.Bool.{false≢true}
use fapra_osm_routing.Prelude.Ascending.{All-imply}
use fapra_osm_routing.Prelude.Members.{Has, Has-middle, Has-insert, All-Has}
use fapra_osm_routing.Prelude.Buffer.Shift.{Layout, insert_cell-Layout}
use fapra_osm_routing.Search.{found, missing, binary_search}
use fapra_osm_routing.Search.Sets.{IsSorted, Answers, binary_search-Answers, IsSorted-insert}
use fapra_osm_routing.Utils.IntArraySet.{IntArraySet, new, contains, grow, put, place, add}

-- The set holds exactly the numbers of the ascending list `xs`.
pub record Holds (s : IntArraySet) (xs : List Word32) : Type 0 where
  pub spare : List Word32
  pub layout : Layout s.elements s.element_count xs spare
  pub filled : All (λ x. x ≡ max_value) spare
  pub sorted : IsSorted xs
  pub grows : 0 < s.size_increase

pub new-Holds : (n k : ℕ) → 0 < k → Holds (new n k) []
unfolding new
new-Holds n k h = record {
  spare = replicate n max_value;
  layout = (refl, refl);
  filled = All-replicate (λ x. x ≡ max_value) n max_value refl;
  sorted = record { strict = tt; below = tt };
  grows = h;
}

module _ {s : IntArraySet} {xs : List Word32} (h : Holds s xs) (x : Word32)
    (small : x < max_value) where
  answers : Returns (Answers xs x) (binary_search s.elements x)
  answers = binary_search-Answers s.elements xs h.spare x h.layout.0 h.sorted h.filled small

  absent :
      (p q : List Word32)
      → xs ≡ p ++ q
      → All (λ y. rank y < rank x) p
      → All (λ y. rank x < rank y) q
      → ¬ Has xs x
  absent p q e l u m =
      All-Has (λ y. rank y ≢ rank x) (p ++ q) x
        (All-append (λ y. rank y ≢ rank x) p q (All-imply p (λ y k. omega arith) l)
          (All-imply q (λ y k. omega arith) u))
        (subst (λ t. Has t x) e m) refl

  -- On a set that holds the list `xs`, and for a number below Integer.MAX_VALUE, contains returns
  -- true exactly if the number is a member of `xs`.
  pub contains_iff : Returns (λ b. (b ≡ true) ↔ Has xs x) (contains s x)
  unfolding contains
  contains_iff = Returns-bind answers (elim [
    | found i ↦
        λ (p, q, e, _). returns (λ _. subst (λ t. Has t x) (sym e) (Has-middle p x q), λ _. refl)
    | missing i ↦
        λ (p, q, e, _, l, u). returns (λ b. absurd (false≢true b), λ m. absurd (absent p q e l u m))
  ])

module _ {s : IntArraySet} {xs : List Word32} (h : Holds s xs) where
  size-Holds : length s.elements ≡ s.element_count + length h.spare
  size-Holds = omega (arith, ap length h.layout.0, length-append xs h.spare, h.layout.1)

  grow-Holds : Holds (grow s) xs
  unfolding grow
  grow-Holds = record {
    spare = h.spare ++ replicate s.size_increase max_value;
    layout = (
      ap (λ c. c ++ replicate s.size_increase max_value) h.layout.0 ∙ append_assoc xs h.spare _,
      h.layout.1,
    );
    filled =
        All-append (λ x. x ≡ max_value) h.spare _ h.filled
          (All-replicate (λ x. x ≡ max_value) s.size_increase max_value refl);
    sorted = h.sorted;
    grows = h.grows;
  }

spare_cons :
    (spare : List Word32) → 0 < length spare → (y : Word32) × (ys : List Word32) × (spare ≡ y ∷ ys)
spare_cons [] h = absurd (omega arith)
spare_cons (y ∷ ys) h = (y, ys, refl)

module _ (p q : List Word32) (x : Word32) (i : ℕ) (at : i ≡ length p)
    (sorted : IsSorted (p ++ x ∷ q)) where
  put-Holds :
      {s : IntArraySet} (h : Holds s (p ++ q))
      → s.element_count < length s.elements
      → Returns (λ t. Holds t (p ++ x ∷ q)) (put s x i)
  unfolding put
  put-Holds {s} h room =
      let (y, ys, e) = spare_cons h.spare (omega (arith, size-Holds h)) in
      Returns-bind
        (insert_cell-Layout p q y ys i x (h.layout.0 ∙ ap (λ t. (p ++ q) ++ t) e, h.layout.1) at)
        λ c d. returns (record {
          spare = ys;
          layout = d;
          filled = (subst (All (λ z. z ≡ max_value)) e h.filled).1;
          sorted = sorted;
          grows = h.grows;
        })

  place-Holds :
      {s : IntArraySet}
      → Holds s (p ++ q)
      → Returns (λ t. Holds t (p ++ x ∷ q)) (place s x (missing i))
  unfolding place grow
  place-Holds {s} h = elim (Bool-cases (s.element_count == length s.elements)) [
    | inl full ↦ rw full (
        put-Holds (grow-Holds h) (
          omega (
            arith,
            (==_iff s.element_count (length s.elements)).0 full,
            length-append s.elements (replicate s.size_increase max_value),
            length-replicate s.size_increase max_value,
            h.grows,
          )))
    | inr free ↦ rw free (put-Holds h (ground (arith, size-Holds h)))
  ]

-- On a set that holds the list `xs`, and for a number below Integer.MAX_VALUE, add returns, and
-- the set holds a list with exactly the members of `xs` and the number.
pub add-Has :
    {s : IntArraySet} {xs : List Word32} (x : Word32)
    → Holds s xs
    → x < max_value
    → Returns
        (λ t. (ys : List Word32) × Holds t ys × ((y : Word32) → Has ys y ↔ (Has xs y ⊎ (y ≡ x))))
        (add s x)
unfolding add place
add-Has {s} {xs} x h small = Returns-bind (answers h x small) (elim [
  | found i ↦ λ (p, q, e, _).
      returns (xs, h, λ y. (inl, elim [ inl m ↦ m | inr k ↦ rw (e, k) (Has-middle p x q) ]))
  | missing i ↦ λ (p, q, e, at, l, u).
      let sorted = IsSorted-insert p x q (subst IsSorted e h.sorted) small l u in
      let members = λ (y : Word32).
        subst (λ t. Has (p ++ x ∷ q) y ↔ (Has t y ⊎ (y ≡ x))) (sym e) (Has-insert p x q y) in
      Returns-map (place-Holds p q x i at sorted (subst (Holds s) e h))
        λ t k. (p ++ x ∷ q, k, members)
])
