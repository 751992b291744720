-- ===== src/Prelude/Buffer/Shift.antt =====
-- A gap opened in an array, or closed, by System.arraycopy within it.
use fapra_osm_routing.Prelude.Lists.{
  length, take, drop, length-append, take-append, drop-append, set-append,
}
use fapra_osm_routing.Prelude.Tests.{ltb, leb, if◌then◌else◌}
use fapra_osm_routing.Prelude.Word.{Word32}
use fapra_osm_routing.Prelude.Java.{
  Run, throw, index_out_of_bounds, ◌>>=◌, Returns, returns, store, arraycopy, store-ok,
  arraycopy-ok, Ends, Ends-if, Ends-bind, Anything, arraycopy-Ends, store-Ends, fails,
}
use Prim.Native.Nat.{ℕ, suc, ◌+◌, ◌-◌}
use mathlib.Core.Path.{◌≡◌, refl, sym, ap, ◌∙◌}
use mathlib.Core.Bool.{false}
use mathlib.Core.List.{List, [], ◌∷◌, ◌++◌, append_assoc}
use native.Mathlib.Omega.{arith}

-- The array `a` is `xs`, of `n` entries, and behind it `spare`.
abbrev pub Layout : List Word32 → ℕ → List Word32 → List Word32 → Type 0
Layout a n xs spare = (a ≡ xs ++ spare) × (n ≡ length xs)

-- arraycopy(a, idx, a, idx + 1, n - idx); a[idx] = v. A negative length throws.
pub insert_cell : List Word32 → ℕ → ℕ → Word32 → Run (List Word32)
insert_cell a n idx v =
    if ltb n idx
    then throw index_out_of_bounds
    else do shifted ← arraycopy a idx a (idx + 1) (n - idx); store shifted idx v

-- arraycopy(a, idx + 1, a, idx, n - 1 - idx); a[n - 1] = v. A negative length throws.
pub remove_cell : List Word32 → ℕ → ℕ → Word32 → Run (List Word32)
remove_cell a n idx v =
    if leb n idx
    then throw index_out_of_bounds
    else do shifted ← arraycopy a (idx + 1) a idx (n - 1 - idx); store shifted (n - 1) v

pub insert_cell-Ends :
    (a : List Word32) (n idx : ℕ) (v : Word32) → Ends Anything (insert_cell a n idx v)
unfolding insert_cell
insert_cell-Ends a n idx v =
    Ends-if (ltb n idx) (λ _. fails)
      λ _.
        Ends-bind (arraycopy-Ends a idx a (idx + 1) (n - idx)) λ shifted _. store-Ends shifted idx v

head_of_append :
    (q : List Word32) (y : Word32) (ys : List Word32)
    → (z : Word32) × (r : List Word32) × (q ++ y ∷ ys ≡ z ∷ r)
head_of_append [] y ys = (y, ys, refl)
head_of_append (z ∷ q) y ys = (z, q ++ y ∷ ys, refl)

last_of : (x : Word32) (l : List Word32) → (z : Word32) × (r : List Word32) × (x ∷ l ≡ r ++ z ∷ [])
last_of x [] = (x, [], refl)
last_of x (y ∷ l) = let (z, r, e) = last_of y l in (z, x ∷ r, ap (◌∷◌ x) e)

module _ (p q : List Word32) (y : Word32) (ys : List Word32) where
  opened :
      (idx m k : ℕ)
      → idx ≡ length p
      → m ≡ length p + 1
      → k ≡ length q
      → (z : Word32) × (take m ((p ++ q) ++ y ∷ ys)
            ++ take k (drop idx ((p ++ q) ++ y ∷ ys))
            ++ drop (m + k) ((p ++ q) ++ y ∷ ys)
          ≡ p ++ z ∷ (q ++ ys))
  opened idx m k hi hm hk =
      let (z, r, e) = head_of_append q y ys in
      let front : (p ++ q) ++ y ∷ ys ≡ (p ++ z ∷ []) ++ r =
        append_assoc p q (y ∷ ys) ∙ ap (λ t. p ++ t) e ∙ sym (append_assoc p (z ∷ []) r) in
      let back : (p ++ q) ++ y ∷ ys ≡ ((p ++ q) ++ y ∷ []) ++ ys =
        sym (append_assoc (p ++ q) (y ∷ []) ys) in
      let first : take m ((p ++ q) ++ y ∷ ys) ≡ p ++ z ∷ [] =
        ap (take m) front
        ∙ take-append (p ++ z ∷ []) r m (omega (arith, length-append p (z ∷ []))) in
      let middle : take k (drop idx ((p ++ q) ++ y ∷ ys)) ≡ q =
        ap (λ t. take k (drop idx t)) (append_assoc p q (y ∷ ys))
        ∙ ap (take k) (drop-append p (q ++ y ∷ ys) idx hi)
        ∙ take-append q (y ∷ ys) k hk in
      let last : drop (m + k) ((p ++ q) ++ y ∷ ys) ≡ ys =
        ap (drop (m + k)) back
        ∙ drop-append ((p ++ q) ++ y ∷ []) ys (m + k)
            (omega (arith, length-append (p ++ q) (y ∷ []), length-append p q)) in
      (z, rw (first, middle, last, append_assoc, append_assoc) refl)

-- A gap opened behind `p` takes one spare cell.
pub insert_cell-Layout :
    {a : List Word32} {n : ℕ} (p q : List Word32) (y : Word32) (ys : List Word32) (idx : ℕ)
    (v : Word32)
    → Layout a n (p ++ q) (y ∷ ys)
    → idx ≡ length p
    → Returns (λ c. Layout c (n + 1) (p ++ v ∷ q) ys) (insert_cell a n idx v)
unfolding insert_cell
insert_cell-Layout {a} {n} p q y ys idx v (stored, counted) h =
    let a' = (p ++ q) ++ y ∷ ys in
    let size = length-append p q in
    let size' : length a' ≡ length (p ++ q) + suc (length ys) = length-append (p ++ q) (y ∷ ys) in
    let inside : ltb n idx ≡ false = ground arith in
    let (z, e) = opened p q y ys idx (idx + 1) (n - idx) h (omega arith) (omega arith) in
    rw
      (
        stored,
        inside,
        arraycopy-ok a' idx a' (idx + 1) (n - idx) (omega arith) (omega arith),
        e,
        store-ok (p ++ z ∷ (q ++ ys)) idx v (omega (arith, length-append p (z ∷ (q ++ ys)))),
      )
      (returns (
        set-append p z (q ++ ys) idx v h ∙ sym (append_assoc p (v ∷ q) ys),
        omega (arith, length-append p (v ∷ q)),
      ))

module _ (p : List Word32) (x : Word32) (q spare : List Word32) where
  abbrev pub whole : List Word32
  whole = (p ++ x ∷ q) ++ spare

  -- The cells behind `x` moved to the front by one.
  pub closed :
      (idx k n : ℕ)
      → idx ≡ length p
      → k ≡ length q
      → n ≡ length p + length q
      → (z : Word32) × (take idx whole ++ take k (drop (idx + 1) whole) ++ drop (idx + k) whole
          ≡ (p ++ q) ++ z ∷ spare)
  closed idx k n hi hk hn =
      let (z, r, e) = last_of x q in
      let front : whole ≡ p ++ (x ∷ q ++ spare) = append_assoc p (x ∷ q) spare in
      let mid : whole ≡ (p ++ x ∷ []) ++ (q ++ spare) =
        front ∙ sym (append_assoc p (x ∷ []) (q ++ spare)) in
      let first : take idx whole ≡ p =
        ap (take idx) front ∙ take-append p (x ∷ q ++ spare) idx hi in
      let middle : take k (drop (idx + 1) whole) ≡ q =
        ap (λ t. take k (drop (idx + 1) t)) mid
        ∙ ap (take k) (
            drop-append (p ++ x ∷ []) (q ++ spare) (idx + 1)
              (omega (arith, length-append p (x ∷ []))))
        ∙ take-append q spare k hk in
      let back : whole ≡ (p ++ r) ++ z ∷ spare =
        ap (λ t. (p ++ t) ++ spare) e
        ∙ ap (λ t. t ++ spare) (sym (append_assoc p r (z ∷ [])))
        ∙ append_assoc (p ++ r) (z ∷ []) spare in
      let last : drop (idx + k) whole ≡ z ∷ spare =
        ap (drop (idx + k)) back
        ∙ drop-append (p ++ r) (z ∷ spare) (idx + k)
            (omega (arith, length-append p r, ap length e, length-append r (z ∷ []))) in
      (z, rw (first, middle, last) refl)

-- The gap that `x` leaves is closed; the last cell that was in use takes the value `v`.
pub remove_cell-Layout :
    {a : List Word32} {n : ℕ} (p : List Word32) (x : Word32) (q spare : List Word32) (idx : ℕ)
    (v : Word32)
    → Layout a n (p ++ x ∷ q) spare
    → idx ≡ length p
    → Returns (λ c. Layout c (n - 1) (p ++ q) (v ∷ spare)) (remove_cell a n idx v)
unfolding remove_cell
remove_cell-Layout {a} {n} p x q spare idx v (stored, counted) h =
    let a' = whole p x q spare in
    let size = length-append p (x ∷ q) in
    let size' : length a' ≡ length (p ++ x ∷ q) + length spare = length-append (p ++ x ∷ q) spare in
    let inside : leb n idx ≡ false = ground arith in
    let (z, e) = closed p x q spare idx (n - 1 - idx) (n - 1) h (omega arith) (omega arith) in
    rw
      (
        stored,
        inside,
        arraycopy-ok a' (idx + 1) a' idx (n - 1 - idx) (omega arith) (omega arith),
        e,
        store-ok ((p ++ q) ++ z ∷ spare) (n - 1) v
            (omega (arith, length-append (p ++ q) (z ∷ spare), length-append p q)),
      )
      (returns (
        set-append (p ++ q) z spare (n - 1) v (omega (arith, length-append p q)),
        omega (arith, length-append p q),
      ))
