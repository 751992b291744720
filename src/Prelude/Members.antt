-- ===== src/Prelude/Members.antt =====
-- Membership in a list of ints.
use mathlib.Core.Path.{◌≡◌, refl, sym, subst}
use mathlib.Core.Logic.{◌⊎◌, inl, inr, ◌↔◌}
use mathlib.Core.List.{List, [], ◌∷◌, ◌++◌}
use native.Mathlib.Omega.{arith}
use fapra_osm_routing.Prelude.Lists.{All}
use fapra_osm_routing.Prelude.Word.{Word32}

-- The number `x` is an entry of the list.
abbrev pub Has : List Word32 → Word32 → Type 0
Has [] x = ⊥
Has (y ∷ ys) x = (y ≡ x) ⊎ Has ys x

pub Has-middle : (p : List Word32) (x : Word32) (q : List Word32) → Has (p ++ x ∷ q) x
Has-middle [] x q = inl refl
Has-middle (y ∷ p) x q = inr (Has-middle p x q)

pub Has-insert :
    (p : List Word32) (x : Word32) (q : List Word32) (y : Word32)
    → Has (p ++ x ∷ q) y ↔ (Has (p ++ q) y ⊎ (y ≡ x))
Has-insert [] x q y =
    (elim [ inl e ↦ inr (sym e) | inr m ↦ inl m ], elim [ inl m ↦ inr m | inr e ↦ inl (sym e) ])
Has-insert (z ∷ p) x q y = ground (arith, Has-insert p x q y)

pub All-Has {κ} : (P : Word32 → Type κ) (xs : List Word32) (x : Word32) → All P xs → Has xs x → P x
All-Has P [] x h m = absurd m
All-Has P (y ∷ ys) x h (inl e) = subst P e h.0
All-Has P (y ∷ ys) x h (inr m) = All-Has P ys x h.1 m
