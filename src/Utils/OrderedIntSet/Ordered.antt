-- ===== src/Utils/OrderedIntSet/Ordered.antt =====
-- The ordered variant as a set of numbers.
use fapra_osm_routing.Prelude.{
  ℕ, ◌<◌, ◌≡◌, refl, ◌∙◌, subst, List, ◌∷◌, ◌++◌, true, Word32, max_value, Returns, returns,
  Returns-bind, length, Option, none, some,
}
use fapra_osm_routing.Search.{found, missing}
use fapra_osm_routing.Search.Sets.{IsSorted, Answers, IsSorted-insert, binary_search-Answers}
use fapra_osm_routing.Utils.OrderedIntSet.{OrderedIntSet, reserve, place, insert_sorted, get_idx}
use fapra_osm_routing.Utils.OrderedIntSet.Sequence.{Holds, HasRoom, reserve-HasRoom, put_at-Holds}

-- A set of the ordered variant that holds the ascending list `xs`.
pub record IsOrdered (s : OrderedIntSet) (xs : List Word32) : Type 0 where
  pub holds : Holds s xs
  pub ordered : s.ordered_by_sorting ≡ true
  pub sorted : IsSorted xs

-- On a set of the ordered variant that holds the ascending list `xs`, and for an element below
-- Integer.MAX_VALUE, getIdx returns: the index of the element where it is in the list, and
-- otherwise the index where it belongs, with all smaller elements before it and all larger ones
-- behind.
pub get_idx-Answers :
    {s : OrderedIntSet} {xs : List Word32} (x : Word32)
    → IsOrdered s xs
    → x < max_value
    → Returns (Answers xs x) (get_idx s x)
unfolding get_idx
get_idx-Answers {s} {xs} x h small =
    binary_search-Answers s.elements xs h.holds.spare x h.holds.layout.0 h.sorted
      (h.holds.filled h.ordered) small

-- What insertSorted returns, and the list `ys` that the set holds then.
abbrev pub Inserted : List Word32 → Word32 → Option ℕ → List Word32 → Type 0
Inserted xs x none ys = (ys ≡ xs) × ((p : List Word32) × (q : List Word32) × (xs ≡ p ++ x ∷ q))
Inserted xs x (some i) ys =
    (p : List Word32) × (q : List Word32) × (xs ≡ p ++ q) × (ys ≡ p ++ x ∷ q) × (i ≡ length p)

-- On a set of the ordered variant that holds the ascending list `xs`, and for an element below
-- Integer.MAX_VALUE, insertSorted returns: a new element stands in the list afterwards, at the
-- index that is returned, and the list is ascending; for an element of the list -1 is returned
-- (`none`) and the list stays the same.
pub insert_sorted-Inserted :
    {s : OrderedIntSet} {xs : List Word32} (x : Word32)
    → IsOrdered s xs
    → x < max_value
    → Returns
        (λ r. (ys : List Word32) × IsOrdered r.1 ys × Inserted xs x r.0 ys)
        (insert_sorted s x)
unfolding insert_sorted place
insert_sorted-Inserted {s} {xs} x h small =
    let room = reserve-HasRoom h.holds in
    Returns-bind
      (binary_search-Answers (reserve s).elements xs room.holds.spare x room.holds.layout.0 h.sorted
        (room.holds.filled (room.same ∙ h.ordered)) small)
      (elim [
        | found i ↦ λ (p, q, e, _). returns (
          xs,
          record { holds = room.holds; ordered = room.same ∙ h.ordered; sorted = h.sorted },
          (refl, (p, q, e)),
        )
        | missing i ↦ λ (p, q, e, at, lower, upper).
            Returns-bind
              (put_at-Holds p q x i (subst (λ t. HasRoom (reserve s) t s.ordered_by_sorting) e room)
                at)
              λ t (held, same). returns (
                p ++ x ∷ q,
                record {
                  holds = held;
                  ordered = same ∙ h.ordered;
                  sorted = IsSorted-insert p x q (subst IsSorted e h.sorted) small lower upper;
                },
                (p, q, e, refl, at),
              )
      ])
