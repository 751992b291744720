-- ===== src/Prelude/Ascending.antt =====
-- Ascending lists of ints, as ordered containers and labels keep them.
use Prim.Native.Nat.{ℕ, zero, suc, ◌≤◌, ◌<◌}
use mathlib.Core.Path.{◌≡◌, ap}
use mathlib.Core.List.{List, [], ◌∷◌, ◌++◌}
use native.Mathlib.Omega.{arith}
use fapra_osm_routing.Prelude.Lists.{
  length, get_or, All, All-append, All-get, All-insert, All-remove,
}
use fapra_osm_routing.Prelude.Word.{Word32, rank}

-- Every entry is below all the later ones.
abbrev pub IsStrict : List Word32 → Type 0
IsStrict [] = Unit
IsStrict (x ∷ xs) = All (λ y. rank x < rank y) xs × IsStrict xs

-- No entry is above a later one.
abbrev pub IsWeak : List Word32 → Type 0
IsWeak [] = Unit
IsWeak (x ∷ xs) = All (λ y. rank x ≤ rank y) xs × IsWeak xs

pub IsWeak-get :
    (xs : List Word32)
    → IsWeak xs
    → (i j : ℕ) → i ≤ j
    → j < length xs
    → rank (get_or xs i 0) ≤ rank (get_or xs j 0)
IsWeak-get [] w i j p q = absurd (omega arith)
IsWeak-get (x ∷ xs) w zero zero p q = omega arith
IsWeak-get (x ∷ xs) w zero (suc j) p q = All-get (λ y. rank x ≤ rank y) xs j 0 w.0 (omega arith)
IsWeak-get (x ∷ xs) w (suc i) zero p q = absurd (omega arith)
IsWeak-get (x ∷ xs) w (suc i) (suc j) p q = IsWeak-get xs w.1 i j (omega arith) (omega arith)

pub All-imply {ℓ κ μ} :
    {A : Type ℓ} {P : A → Type κ} {Q : A → Type μ} (xs : List A)
    → ((x : A) → P x → Q x)
    → All P xs
    → All Q xs
All-imply [] f h = tt
All-imply (x ∷ xs) f h = (f x h.0, All-imply xs f h.1)

-- Strict entries not above `m`, and behind them copies of `m`.
pub IsWeak-append :
    (m : Word32) (xs spare : List Word32)
    → IsStrict xs
    → All (λ x. rank x ≤ rank m) xs
    → All (λ x. x ≡ m) spare
    → IsWeak (xs ++ spare)
IsWeak-append m [] [] s b e = tt
IsWeak-append m [] (y ∷ ys) s b e = (
  All-imply ys (λ z h. omega (arith, ap rank e.0, ap rank h)) e.1,
  IsWeak-append m [] ys tt tt e.1,
)
IsWeak-append m (x ∷ xs) spare s b e = (
  All-append (λ y. rank x ≤ rank y) xs spare (All-imply xs (λ y h. omega arith) s.0)
      (All-imply spare (λ y h. omega (arith, ap rank h, b.0)) e),
  IsWeak-append m xs spare s.1 b.1 e,
)

-- The place of a new entry between the smaller and the larger ones.
pub IsStrict-insert :
    (p : List Word32) (x : Word32) (q : List Word32)
    → IsStrict (p ++ q)
    → All (λ y. rank y < rank x) p
    → All (λ y. rank x < rank y) q
    → IsStrict (p ++ x ∷ q)
IsStrict-insert [] x q s l u = (u, s)
IsStrict-insert (y ∷ p) x q s l u =
    (All-insert (λ z. rank y < rank z) p x q l.0 s.0, IsStrict-insert p x q s.1 l.1 u)

pub IsStrict-remove :
    (p : List Word32) (x : Word32) (q : List Word32) → IsStrict (p ++ x ∷ q) → IsStrict (p ++ q)
IsStrict-remove [] x q s = s.1
IsStrict-remove (y ∷ p) x q s =
    (All-remove (λ z. rank y < rank z) p x q s.0, IsStrict-remove p x q s.1)

pub IsStrict-get :
    (xs : List Word32)
    → IsStrict xs
    → (i j : ℕ) → i < j
    → j < length xs
    → rank (get_or xs i 0) < rank (get_or xs j 0)
IsStrict-get [] w i j p q = absurd (omega arith)
IsStrict-get (x ∷ xs) w zero zero p q = absurd (omega arith)
IsStrict-get (x ∷ xs) w zero (suc j) p q = All-get (λ y. rank x < rank y) xs j 0 w.0 (omega arith)
IsStrict-get (x ∷ xs) w (suc i) zero p q = absurd (omega arith)
IsStrict-get (x ∷ xs) w (suc i) (suc j) p q = IsStrict-get xs w.1 i j (omega arith) (omega arith)
