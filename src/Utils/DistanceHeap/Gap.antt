-- ===== src/Utils/DistanceHeap/Gap.antt =====
-- The part of getNext that closes the gap of the removed id in the three ordered arrays.
use fapra_osm_routing.Prelude.{
  ℕ, ◌+◌, ◌-◌, ◌≤◌, ◌≡◌, sym, ap, ◌∙◌, List, [], ◌∷◌, ◌++◌, append_assoc, append-nil, Bool-cases,
  inl, inr, ok, length, length-append, length-zero, arraycopy-ok, ltb, arith,
}
use fapra_osm_routing.Prelude.Buffer.Shift.{closed}
use fapra_osm_routing.Search.{found}
use fapra_osm_routing.Utils.DistanceHeap.{DistanceHeap, close_gap, remove_id}

-- The array `a` has the entry `x` at the index `i`, the other entries up to `n`, and spare cells.
pub record HasEntry (a : List ℕ) (i n : ℕ) : Type 0 where
  pub front : List ℕ
  pub entry : ℕ
  pub back : List ℕ
  pub spare : List ℕ
  pub stored : a ≡ (front ++ entry ∷ back) ++ spare
  pub index : i ≡ length front
  pub count : n ≡ length front + length back

abbrev pub without : {a : List ℕ} {i n : ℕ} → HasEntry a i n → ℕ → List ℕ
without e z = (e.front ++ e.back) ++ z ∷ e.spare

close_gap_lem :
    {a : List ℕ} {i n : ℕ} (e : HasEntry a i n) → (z : ℕ) × (close_gap a i n ≡ ok (without e z))
unfolding close_gap
close_gap_lem {a} {i} {n} e =
    let whole = (e.front ++ e.entry ∷ e.back) ++ e.spare in
    let size : length whole ≡ n + 1 + length e.spare = omega (
      arith,
      e.count,
      length-append (e.front ++ e.entry ∷ e.back) e.spare,
      length-append e.front (e.entry ∷ e.back),
    ) in
    let in_range : i ≤ n = omega (arith, e.index, e.count) in
    let (z, f) =
      closed e.front e.entry e.back e.spare i (n - i) n e.index (omega (arith, e.index, e.count))
        e.count in
    (
      z,
      ap (λ b. close_gap b i n) e.stored
          ∙ arraycopy-ok whole (i + 1) whole i (n - i) (omega arith) (omega arith)
          ∙ ap ok f,
    )

-- The last one of the cells needs no shift.
without-last : {a : List ℕ} {i n : ℕ} (e : HasEntry a i n) → n ≤ i → a ≡ without e e.entry
without-last {a} {i} {n} e h =
    let none_left : e.back ≡ [] = length-zero e.back (omega (arith, e.index, e.count)) in
    e.stored
    ∙ ap (λ b. (e.front ++ e.entry ∷ b) ++ e.spare) none_left
    ∙ append_assoc e.front (e.entry ∷ []) e.spare
    ∙ ap (λ f. f ++ e.entry ∷ e.spare) (sym (append-nil e.front))
    ∙ ap (λ b. (e.front ++ b) ++ e.entry ∷ e.spare) (sym none_left)

module _ (h : DistanceHeap) {i n : ℕ} (ids : HasEntry h.contained_ids i n)
    (dists : HasEntry h.distances i n) (positions : HasEntry h.heap_position i n) where
  -- The heap without the entries.
  abbrev pub removed : ℕ → ℕ → ℕ → DistanceHeap
  removed x y z = record h {
    contained_ids = without ids x;
    distances = without dists y;
    heap_position = without positions z;
  }

  pub remove_id_lem : (x : ℕ) × (y : ℕ) × (z : ℕ) × (remove_id h (found i) n ≡ ok (removed x y z))
  unfolding remove_id
  remove_id_lem = elim (Bool-cases (ltb i n)) [
    | inl inner ↦
        let (x, e) = close_gap_lem ids in
        let (y, f) = close_gap_lem dists in
        let (z, g) = close_gap_lem positions in (x, y, z, rw (inner, e, f, g))
    | inr last ↦
        let past : n ≤ i = ground arith in
        (
          ids.entry,
          dists.entry,
          positions.entry,
          rw last (
              ap (λ a. ok (record h { contained_ids = a })) (without-last ids past)
              ∙ ap (λ a. ok (record h { contained_ids = without ids ids.entry; distances = a }))
                  (without-last dists past)
              ∙ ap
                  (λ a. ok (record h {
                    contained_ids = without ids ids.entry;
                    distances = without dists dists.entry;
                    heap_position = a;
                  }))
                  (without-last positions past)),
        )
  ]
