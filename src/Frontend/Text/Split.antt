-- ===== src/Frontend/Text/Split.antt =====
-- A text that is put together around a separator is split into its parts again.
use fapra_osm_routing.Prelude.{ℕ, [], ◌∷◌, ◌++◌, ◌≡◌, refl, true, false, ◌==◌, arith}
use fapra_osm_routing.Frontend.Text.{Text, Lacks, split}

module _ (sep : ℕ) where
  pub split-Lacks : (p : Text) → Lacks sep p → split sep p ≡ p ∷ []
  unfolding split
  split-Lacks [] h = refl
  split-Lacks (c ∷ p) (differ, h) =
      let e : (c == sep) ≡ false = ground arith in rw (e, split-Lacks p h)

  pub split_at_sep :
      (p rest : Text) → Lacks sep p → split sep (p ++ sep ∷ rest) ≡ p ∷ split sep rest
  unfolding split
  split_at_sep [] rest h = let e : (sep == sep) ≡ true = ground arith in rw e
  split_at_sep (c ∷ p) rest (differ, h) =
      let e : (c == sep) ≡ false = ground arith in rw (e, split_at_sep p rest h)
