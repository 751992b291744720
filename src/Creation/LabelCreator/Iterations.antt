-- ===== src/Creation/LabelCreator/Iterations.antt =====
-- calcLabels: the iterations over the levels give labels to all nodes.
use native.Mathlib.Nat.{suc-mul, add-mul, mul-le-mul_right}
use fapra_osm_routing.Prelude.{
  ℕ, zero, suc, ◌+◌, ◌-◌, ◌*◌, ◌/◌, ◌≤◌, ◌<◌, ◌≡◌, refl, sym, ap, ◌∙◌, subst, List, [], ◌∷◌, ◌++◌,
  Word32, ok, Returns, Returns-bind, Returns-map, returns, load, length, length-append, take, drop,
  take-append-drop, length-take_le, append_assoc, get_elem?-append, arith, ltb, Bool-cases, inl,
  inr,
}
use fapra_osm_routing.Prelude.Members.{Has}
use fapra_osm_routing.Utils.OrderedIntSet.{OrderedIntSet, get}
use fapra_osm_routing.Utils.OrderedIntSet.Sequence.{Holds, get-Holds}
use fapra_osm_routing.Creation.Nodes.{Nodes}
use fapra_osm_routing.Creation.Edges.{Edges}
use fapra_osm_routing.Creation.DynamicGrid.{DynamicGrid}
use fapra_osm_routing.Creation.Labels.{Labels}
use fapra_osm_routing.Creation.HlDijkstra.{thread, run}
use fapra_osm_routing.Creation.HlDijkstra.Walks.{IsLabelling}
use fapra_osm_routing.Creation.HlDijkstra.Sound.{
  AreNext, all_done, run-HasLabelled, thread-IsThread,
}
use fapra_osm_routing.Creation.LabelCreator.{
  equal_ranges, single_ranges, thread_ranges, run_threads, iteration_loop, num_of_threads,
}

-- The ranges lie end to end between the two indices.
abbrev pub Tiles : ℕ → List (ℕ × ℕ) → ℕ → Type 0
Tiles from [] to = from ≡ to
Tiles from ((a, b) ∷ ranges) to = (a ≡ from) × (a ≤ b) × Tiles b ranges to

-- The borders ascend from the first index to the last one.
abbrev pub Steps : ℕ → List ℕ → ℕ → Type 0
Steps from [] to = from ≡ to
Steps from (b ∷ borders) to = (from ≤ b) × Steps b borders to

Steps-le : (borders : List ℕ) (a b : ℕ) → Steps a borders b → a ≤ b
Steps-le [] a b same = omega arith
Steps-le (x ∷ borders) a b (up, steps) = omega (arith, Steps-le borders x b steps)

load-append : (p : List ℕ) (x : ℕ) (q : List ℕ) (i : ℕ) → i ≡ length p → load (p ++ x ∷ q) i ≡ ok x
load-append p x q i at = rw (get_elem?-append p x q i at, load) refl

equal_ranges-Tiles :
    (left num from to : ℕ) → from + left * num ≤ to → Tiles from (equal_ranges left num from to) to
unfolding equal_ranges
equal_ranges-Tiles zero num from to h = (refl, omega arith, refl)
equal_ranges-Tiles (suc left) num from to h = (
  refl,
  omega arith,
  equal_ranges-Tiles left num (from + num) to (omega (arith, suc-mul left num)),
)

single_ranges-Tiles :
    (left from to : ℕ) → from + left ≡ to → Tiles from (single_ranges left from) to
unfolding single_ranges
single_ranges-Tiles zero from to h = omega arith
single_ranges-Tiles (suc left) from to h =
    (refl, omega arith, single_ranges-Tiles left (from + 1) to (omega arith))

-- For a start that is not above the end, the ranges of the threads of an iteration lie end to end
-- from the start to the end: each node of the level is calculated by exactly one thread.
pub thread_ranges-Tiles : (from to : ℕ) → from ≤ to → Tiles from (thread_ranges from to) to
unfolding thread_ranges
thread_ranges-Tiles from to h = elim (Bool-cases (ltb num_of_threads (to - from))) [
  | inl many ↦ rw many (equal_ranges-Tiles 15 ((to - from) / 16) from to (omega arith))
  | inr few ↦ rw few (single_ranges-Tiles (to - from) from to (omega arith))
]

all_done-append : (done p q : List Word32) → all_done (all_done done p) q ≡ all_done done (p ++ q)
all_done-append done [] q = refl
all_done-append done (x ∷ p) q = all_done-append (x ∷ done) p q

Has-all_done : (x : Word32) (done p : List Word32) → Has done x → Has (all_done done p) x
Has-all_done x done [] h = h
Has-all_done x done (y ∷ p) h = Has-all_done x (y ∷ done) p (inr h)

pub Has-all_done_list : (x : Word32) (done p : List Word32) → Has p x → Has (all_done done p) x
Has-all_done_list x done [] h = absurd h
Has-all_done_list x done (y ∷ p) (inl same) = Has-all_done x (y ∷ done) p (inl same)
Has-all_done_list x done (y ∷ p) (inr h) = Has-all_done_list x (y ∷ done) p h

module _ (g : DynamicGrid) (e : Edges) (n : Nodes) (order : List Word32) (node_count c : ℕ) where
  abbrev Next : List Word32 → List Word32 → Type 0
  Next = AreNext g e n order node_count c

  AreNext-split :
      (done p q : List Word32) → Next done (p ++ q) → Next done p × Next (all_done done p) q
  AreNext-split done [] q h = (tt, h)
  AreNext-split done (x ∷ p) q h = let (l, r) = AreNext-split (x ∷ done) p q h.1 in ((h.0, l), r)

  -- The nodes before the index `j` of the order have labels, and the others can get them in turn.
  pub record IsAt (j : ℕ) (l : Labels) : Type 0 where
    pub before : List Word32
    pub after : List Word32
    pub split : order ≡ before ++ after
    pub at : length before ≡ j
    pub labelling : IsLabelling g e n node_count l (all_done [] before) (length before * c)
    pub next : Next (all_done [] before) after

  module _ (fits : length order * c < 1073741824) where
    -- A thread over the range from `a` to before `b`.
    range-IsAt :
        (a b : ℕ) {l : Labels}
        → a ≤ b
        → b ≤ length order
        → IsAt a l
        → Returns (λ r. IsAt b r.1) (run g e n (thread a b order) l)
    unfolding thread
    range-IsAt a b {l} h inside k =
        let whole : length order ≡ length k.before + length k.after =
          omega (arith, ap length k.split, length-append k.before k.after) in
        let todo = take (b - a) k.after in
        let rest = drop (b - a) k.after in
        let parts = take-append-drop (b - a) k.after in
        let count : length todo ≡ b - a = length-take_le (b - a) k.after (omega (arith, k.at)) in
        let (next_todo, next_rest) =
          AreNext-split (all_done [] k.before) todo rest
            (subst (Next (all_done [] k.before)) (sym parts) k.next) in
        let split : order ≡ k.before ++ (todo ++ rest) =
          k.split ∙ ap (λ q. k.before ++ q) (sym parts) in
        let sum : length todo + length k.before ≡ length (k.before ++ todo) =
          omega (arith, length-append k.before todo) in
        let up_to : length todo + length k.before ≤ length order = omega (arith, k.at) in
        let total : length todo * c + length k.before * c ≡ length (k.before ++ todo) * c =
          omega (arith, add-mul (length todo) (length k.before) c, ap (λ j. j * c) sum) in
        let bounded : length todo * c + length k.before * c < 1073741824 =
          omega (arith, add-mul (length todo) (length k.before) c, mul-le-mul_right c up_to) in
        Returns-map
          (run-HasLabelled g e n order node_count c (all_done [] k.before) todo k.before rest
            (length k.before * c) {t = thread a b order} split (sym k.at) (omega (arith, k.at))
            bounded next_todo (thread-IsThread g e n order node_count c a b) k.labelling)
          λ r done. record {
            before = k.before ++ todo;
            after = rest;
            split = split ∙ sym (append_assoc k.before todo rest);
            at = omega (arith, length-append k.before todo, k.at);
            labelling =
                subst (λ d. IsLabelling g e n node_count r.1 d (length (k.before ++ todo) * c))
                  (all_done-append [] k.before todo)
                  (subst (IsLabelling g e n node_count r.1 (all_done (all_done [] k.before) todo))
                    total done.labelling);
            next = subst (λ d. Next d rest) (all_done-append [] k.before todo) next_rest;
          }

    run_threads-IsAt :
        (ranges : List (ℕ × ℕ)) (a b : ℕ) {l : Labels}
        → Tiles a ranges b
        → b ≤ length order
        → IsAt a l
        → Returns (IsAt b) (run_threads g e n ranges order l)
    unfolding run_threads
    run_threads-IsAt [] a b {l} same inside k = returns (subst (λ j. IsAt j l) same k)
    run_threads-IsAt ((from, to) ∷ ranges) a b {l} (same, up, tiles) inside k =
        Returns-bind
          (range-IsAt from to up (omega (arith, Tiles-le ranges to b tiles))
            (subst (λ j. IsAt j l) (sym same) k))
          λ (t, l') k'. run_threads-IsAt ranges to b tiles inside k'
      where
        Tiles-le : (ranges : List (ℕ × ℕ)) (a b : ℕ) → Tiles a ranges b → a ≤ b
        Tiles-le [] a b same = omega arith
        Tiles-le ((from, to) ∷ ranges) a b (same, up, tiles) =
            omega (arith, Tiles-le ranges to b tiles)

    pub iteration_loop-IsAt :
        (p rest : List ℕ) (b last : ℕ) {s : OrderedIntSet} {l : Labels}
        → Holds s (p ++ b ∷ rest)
        → Steps b rest last
        → last ≤ length order
        → IsAt b l
        → Returns (IsAt last) (iteration_loop g e n order s (length rest) (length p) l)
    unfolding iteration_loop
    iteration_loop-IsAt p [] b last {l = l} h same inside k = returns (subst (λ j. IsAt j l) same k)
    iteration_loop-IsAt p (b' ∷ rest) b last {s} {l} h (up, steps) inside k =
        let next : length p + 1 ≡ length (p ++ b ∷ []) = omega (arith, length-append p (b ∷ [])) in
        let here : get s (length p) ≡ ok b =
          get-Holds (p ++ b ∷ b' ∷ rest) (length p) h
          ∙ load-append p b (b' ∷ rest) (length p) refl in
        let there : get s (length p + 1) ≡ ok b' =
          get-Holds (p ++ b ∷ b' ∷ rest) (length p + 1) h
          ∙ ap (λ a. load a (length p + 1)) (sym (append_assoc p (b ∷ []) (b' ∷ rest)))
          ∙ load-append (p ++ b ∷ []) b' rest (length p + 1) next in
        rw (here, there)
          (Returns-bind
            (run_threads-IsAt (thread_ranges b b') b b' (thread_ranges-Tiles b b' up)
              (omega (arith, Steps-le rest b' last steps)) k)
            λ l' k'.
              subst (λ j. Returns (IsAt last) (iteration_loop g e n order s (length rest) j l'))
                (sym next)
                (iteration_loop-IsAt (p ++ b ∷ []) rest b' last
                  (subst (Holds s) (sym (append_assoc p (b ∷ []) (b' ∷ rest))) h) steps inside k'))
