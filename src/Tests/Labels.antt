-- ===== src/Tests/Labels.antt =====
-- The label 2 of a node with the labels 1, 2 and 7, where 2 has the label 7 as well.
use fapra_osm_routing.Prelude.{
  ℕ, zero, suc, ◌<◌, refl, ◌∙◌, [], ◌∷◌, Word32, false, none, some, get_or, load-ok, max_value,
  Returns, arith,
}
use fapra_osm_routing.Utils.OrderedIntSet.{OrderedIntSet, size}
use fapra_osm_routing.Utils.OrderedIntSet.Sequence.{Holds, get-Holds}
use fapra_osm_routing.Creation.Labels.{Labels, get_labels, get_dist, is_redundant}
use fapra_osm_routing.Creation.Labels.Redundant.{IsReady, Answered, is_redundant-Answered}

abbrev found_labels : Labels
found_labels = record {
  label_nodes = none ∷ none ∷ some (2 ∷ 7 ∷ []) ∷ [];
  label_edges = none ∷ none ∷ some (4294967295 ∷ 3 ∷ []) ∷ [];
  label_dist = none ∷ none ∷ some (0 ∷ 5 ∷ []) ∷ [];
}

abbrev full : Word32 → Word32 → Word32 → OrderedIntSet
full x y z = record {
  ordered_by_sorting = false;
  elements = x ∷ y ∷ z ∷ [];
  element_count = 3;
  size_increase = 1;
}

full-Holds : (x y z : Word32) → Holds (full x y z) (x ∷ y ∷ z ∷ [])
full-Holds x y z = record {
  spare = [];
  layout = (refl, refl);
  filled = λ e. tt;
  grows = omega arith;
}

strict : (i k : ℕ) → i < k → k < 2 → get_or (2 ∷ 7 ∷ []) i 0 < get_or (2 ∷ 7 ∷ []) k 0
strict zero (suc zero) p q = omega arith
strict i k p q = absurd (omega arith)

own_strict : (j k : ℕ) → j < k → k < 3 → get_or (1 ∷ 2 ∷ 7 ∷ []) j 0 < get_or (1 ∷ 2 ∷ 7 ∷ []) k 0
own_strict zero (suc zero) p q = omega arith
own_strict zero (suc (suc zero)) p q = omega arith
own_strict (suc zero) (suc (suc zero)) p q = omega arith
own_strict j k p q = absurd (omega arith)

small :
    (i : ℕ) → i < 2 → (get_or (2 ∷ 7 ∷ []) i 0 < max_value) × (get_or (0 ∷ 5 ∷ []) i 0 < 1073741824)
small zero p = (omega arith, omega arith)
small (suc zero) p = (omega arith, omega arith)
small i p = absurd (omega arith)

own_small :
    (j : ℕ)
    → j < 3
    → (get_or (1 ∷ 2 ∷ 7 ∷ []) j 0 < max_value) × (get_or (0 ∷ 10 ∷ 8 ∷ []) j 0 < 1073741824)
own_small zero p = (omega arith, omega arith)
own_small (suc zero) p = (omega arith, omega arith)
own_small (suc (suc zero)) p = (omega arith, omega arith)
own_small j p = absurd (omega arith)

ready : IsReady found_labels 2 15 (full 1 2 7) (full 0 10 8)
unfolding get_labels get_dist size
ready = record {
  nodes = 2 ∷ 7 ∷ [];
  dists = 0 ∷ 5 ∷ [];
  has_nodes = refl;
  has_dists = refl;
  node = λ i. get_or (2 ∷ 7 ∷ []) i 0;
  dist = λ i. get_or (0 ∷ 5 ∷ []) i 0;
  own_node = λ j. get_or (1 ∷ 2 ∷ 7 ∷ []) j 0;
  own_dist = λ j. get_or (0 ∷ 10 ∷ 8 ∷ []) j 0;
  reads_node = λ i h. load-ok (2 ∷ 7 ∷ []) i 0 h;
  reads_dist = λ i h. load-ok (0 ∷ 5 ∷ []) i 0 h;
  reads_own_node =
      λ j h. get-Holds (1 ∷ 2 ∷ 7 ∷ []) j (full-Holds 1 2 7) ∙ load-ok (1 ∷ 2 ∷ 7 ∷ []) j 0 h;
  reads_own_dist =
      λ j h. get-Holds (0 ∷ 10 ∷ 8 ∷ []) j (full-Holds 0 10 8) ∙ load-ok (0 ∷ 10 ∷ 8 ∷ []) j 0 h;
  strict = strict;
  own_strict = own_strict;
  small = small;
  own_small = own_small;
  small_check = omega arith;
}

is_redundant-Answered_example :
    Returns (Answered ready 0 0) (is_redundant found_labels 2 15 (full 1 2 7) (full 0 10 8))
is_redundant-Answered_example = is_redundant-Answered ready
