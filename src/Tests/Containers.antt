-- ===== src/Tests/Containers.antt =====
-- The containers of utils and the edges of the preprocessing.
use fapra_osm_routing.Prelude.{
  ◌≡◌, ◌↔◌, ◌⊎◌, refl, List, [], ◌∷◌, true, Word32, max_value, Returns, arith,
}
use fapra_osm_routing.Prelude.Members.{Has}
use fapra_osm_routing.Search.Sets.{IsSorted, Answers}
use fapra_osm_routing.Utils.IntStack
use fapra_osm_routing.Utils.IntStack.Session.{
  Call, do_push, do_pop, do_pop_fifo, do_clear, session, stop, push_back, pop_back, pop_front,
  reset, session-Holds,
}
use fapra_osm_routing.Utils.IntArrayList
use fapra_osm_routing.Utils.IntArraySet
use fapra_osm_routing.Utils.OrderedIntSet

abbrev calls : List Call
calls = do_push 4 ∷ do_push 5 ∷ do_push 6 ∷ do_pop_fifo ∷ do_pop ∷ do_clear ∷ do_push 7 ∷ []

session-Holds_example :
    Returns
      (λ r. (r.0 ≡ 4 ∷ 6 ∷ []) × IntStack.Deque.Holds r.1 (7 ∷ []))
      (session (IntStack.new 2) calls)
session-Holds_example =
    session-Holds calls (IntStack.new 2) (IntStack.Deque.new-Holds 2 (omega arith)) (
      push_back 4 (
        push_back 5
          (push_back 6 (pop_front 4 (pop_back {live = 5 ∷ []} 6 refl (reset (push_back 7 stop)))))))

-- A list of capacity 2 that is full.
abbrev full_list : IntArrayList.IntArrayList
full_list = record { elements = 5 ∷ 6 ∷ []; element_count = 2; size_increase = 2 }

full_list-Holds : IntArrayList.Laws.Holds full_list (5 ∷ 6 ∷ [])
full_list-Holds = record {
  buffer = record { spare = []; stored = refl; counted = refl };
  grows = omega arith;
}

add-Holds_example :
    Returns (λ m. IntArrayList.Laws.Holds m (5 ∷ 6 ∷ 7 ∷ [])) (IntArrayList.add full_list 7)
add-Holds_example = IntArrayList.Laws.add-Holds 7 full_list-Holds

-- A full set of 3 and 8.
abbrev small_set : IntArraySet.IntArraySet
small_set = record { elements = 3 ∷ 8 ∷ []; element_count = 2; size_increase = 20 }

sorted : IsSorted (3 ∷ 8 ∷ [])
sorted = record { strict = omega arith; below = omega arith }

small_set-Holds : IntArraySet.Laws.Holds small_set (3 ∷ 8 ∷ [])
small_set-Holds = record {
  spare = [];
  layout = (refl, refl);
  filled = tt;
  sorted = sorted;
  grows = omega arith;
}

contains_iff_example :
    Returns (λ b. (b ≡ true) ↔ Has (3 ∷ 8 ∷ []) 8) (IntArraySet.contains small_set 8)
contains_iff_example = IntArraySet.Laws.contains_iff small_set-Holds 8 (omega arith)

add-Has_example :
    Returns
      (λ t.
        (ys : List Word32) × IntArraySet.Laws.Holds t ys
        × ((y : Word32) → Has ys y ↔ (Has (3 ∷ 8 ∷ []) y ⊎ (y ≡ 5))))
      (IntArraySet.add small_set 5)
add-Has_example = IntArraySet.Laws.add-Has 5 small_set-Holds (omega arith)

-- An ordered set with one free cell.
abbrev ordered_set : OrderedIntSet.OrderedIntSet
ordered_set = record {
  ordered_by_sorting = true;
  elements = 3 ∷ 8 ∷ max_value ∷ [];
  element_count = 2;
  size_increase = 2;
}

ordered_set-Holds : OrderedIntSet.Sequence.Holds ordered_set (3 ∷ 8 ∷ [])
ordered_set-Holds = record {
  spare = max_value ∷ [];
  layout = (refl, refl);
  filled = λ e. (refl, tt);
  grows = omega arith;
}

ordered_set-IsOrdered : OrderedIntSet.Ordered.IsOrdered ordered_set (3 ∷ 8 ∷ [])
ordered_set-IsOrdered = record { holds = ordered_set-Holds; ordered = refl; sorted = sorted }

insert_sorted-Inserted_example :
    Returns
      (λ r.
        (ys : List Word32) × OrderedIntSet.Ordered.IsOrdered r.1 ys
        × OrderedIntSet.Ordered.Inserted (3 ∷ 8 ∷ []) 5 r.0 ys)
      (OrderedIntSet.insert_sorted ordered_set 5)
insert_sorted-Inserted_example =
    OrderedIntSet.Ordered.insert_sorted-Inserted 5 ordered_set-IsOrdered (omega arith)

get_idx-Answers_example : Returns (Answers (3 ∷ 8 ∷ []) 8) (OrderedIntSet.get_idx ordered_set 8)
get_idx-Answers_example =
    OrderedIntSet.Ordered.get_idx-Answers 8 ordered_set-IsOrdered (omega arith)
