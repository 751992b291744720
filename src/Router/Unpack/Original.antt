-- ===== src/Router/Unpack/Original.antt =====
-- The original edges that an edge stands for.
use mathlib.Core.List.{reverse, reverse-append}
use fapra_osm_routing.Prelude.{
  ℕ, ◌<◌, ◌≡◌, ap, ◌∙◌, List, [], ◌∷◌, ◌++◌, length, length-append, Word32, Run, ok, true, false,
  arith,
}
use fapra_osm_routing.LabelData.HublEdges.{HublEdges, is_shortcut}

-- The edge `i` stands for the original edges `es`, in the order in which the parts of a shortcut
-- are visited: the `near` one first.
pub data Unpacks (e : HublEdges) (near far : ℕ → Run Word32) : ℕ → List ℕ → Type 0 where
  original : {i : ℕ} {es : List ℕ} → is_shortcut e i ≡ false → es ≡ i ∷ [] → Unpacks e near far i es
  shortcut :
      {i : ℕ} {es : List ℕ} (n f : ℕ) (ns fs : List ℕ)
      → is_shortcut e i ≡ true
      → near i ≡ ok n
      → far i ≡ ok f
      → Unpacks e near far n ns
      → Unpacks e near far f fs
      → es ≡ ns ++ fs
      → Unpacks e near far i es

module _ {e : HublEdges} {near far : ℕ → Run Word32} where
  pub Unpacks-nonempty : {i : ℕ} {es : List ℕ} → Unpacks e near far i es → 0 < length es
  Unpacks-nonempty (original s h) = omega (arith, ap length h)
  Unpacks-nonempty (shortcut n f ns fs s p q a b h) =
      omega (arith, ap length h, length-append ns fs, Unpacks-nonempty a)

  -- With the parts visited in the other order the edges come in the other order.
  pub Unpacks-reverse :
      {i : ℕ} {es : List ℕ} → Unpacks e near far i es → Unpacks e far near i (reverse es)
  Unpacks-reverse (original s h) = original s (ap reverse h)
  Unpacks-reverse (shortcut n f ns fs s p q a b h) =
      shortcut f n (reverse fs) (reverse ns) s q p (Unpacks-reverse b) (Unpacks-reverse a)
        (ap reverse h ∙ reverse-append ns fs)
