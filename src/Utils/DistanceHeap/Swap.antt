-- ===== src/Utils/DistanceHeap/Swap.antt =====
-- The heap after two positions were swapped: it is indexed as before.
use fapra_osm_routing.Prelude.{
  ℕ, ◌<◌, ◌≡◌, ◌≢◌, sym, ap, ◌∙◌, subst, List, Bool, true, false, Bool-cases, inl, inr, ok, load-ok,
  store-ok, length, get_or, set, length-set, ◌==◌, if◌then◌else◌, arith,
}
use fapra_osm_routing.Utils.DistanceHeap.{DistanceHeap, position_idx, swap}
use fapra_osm_routing.Utils.DistanceHeap.Indexed.{
  find, IsIndexed, get_or-set_same, get_or-set_other, swapped, swapped_first, swapped_second,
  swapped_other,
}

module _ (h : DistanceHeap) (n : ℕ) (at : ℕ → ℕ) (w : IsIndexed h n at) where
  -- The heap after two positions were swapped.
  abbrev pub after_swap : ℕ → ℕ → DistanceHeap
  after_swap i j = record h {
    id_heap_array =
        set (set h.id_heap_array i (get_or h.id_heap_array j 0)) j (get_or h.id_heap_array i 0);
    heap_position = set (set h.heap_position (at j) i) (at i) j;
  }

  apart : (i j : ℕ) → i < n → j < n → i ≢ j → at i ≢ at j
  apart i j p q differ e =
      differ (sym (w.position i p) ∙ ap (λ k. get_or h.heap_position k 0) e ∙ w.position j q)

  -- The ids of the heap change places, too.
  heap-swapped :
      (i j p : ℕ)
      → i < n
      → j < n
      → i ≢ j
      → get_or (after_swap i j).id_heap_array p 0 ≡ swapped i j (λ q. get_or h.id_heap_array q 0) p
  heap-swapped i j p a b differ = elim (Bool-cases (p == j)) [
    | inl last ↦
        let e : p ≡ j = ground arith in
        subst
          (λ r.
            get_or (after_swap i j).id_heap_array r 0
            ≡ swapped i j (λ q. get_or h.id_heap_array q 0) r)
          (sym e)
          (get_or-set_same half j _
              (omega (arith, w.in_array, length-set h.id_heap_array i (get_or h.id_heap_array j 0)))
            ∙ sym (swapped_second i j (λ q. get_or h.id_heap_array q 0) differ))
    | inr not_last ↦ elim (Bool-cases (p == i)) [
      | inl first ↦
          let e : p ≡ i = ground arith in
          subst
            (λ r.
              get_or (after_swap i j).id_heap_array r 0
              ≡ swapped i j (λ q. get_or h.id_heap_array q 0) r)
            (sym e)
            (get_or-set_other half j i _ (λ t. differ (sym t))
              ∙ get_or-set_same h.id_heap_array i _ (omega (arith, w.in_array))
              ∙ sym (swapped_first i j (λ q. get_or h.id_heap_array q 0)))
      | inr not_first ↦
          get_or-set_other half j p _ (ground arith)
          ∙ get_or-set_other h.id_heap_array i p _ (ground arith)
          ∙ sym
              (swapped_other i j (λ q. get_or h.id_heap_array q 0) p (ground arith) (ground arith))
    ]
  ]
    where
      half : List ℕ
      half = set h.id_heap_array i (get_or h.id_heap_array j 0)

  -- A relation of the ids and their indices holds after the swap as before.
  swapped-related :
      (i j p : ℕ) (R : ℕ → ℕ → Type 0)
      → i < n
      → j < n
      → p < n
      → ((q : ℕ) → q < n → R (get_or h.id_heap_array q 0) (at q))
      → R (swapped i j (λ q. get_or h.id_heap_array q 0) p) (swapped i j at p)
  swapped-related i j p R a b l r = by_test (p == i) (p == j)
    where
      heap : ℕ → ℕ
      heap q = get_or h.id_heap_array q 0

      by_test :
          (b c : Bool)
          → R
              (if b then heap j else if c then heap i else heap p)
              (if b then at j else if c then at i else at p)
      by_test true c = r j b
      by_test false true = r i a
      by_test false false = r p l

  id_after_swap :
      (i j p : ℕ)
      → i < n
      → j < n
      → i ≢ j
      → p < n
      → find h (get_or (after_swap i j).id_heap_array p 0) ≡ ok (swapped i j at p)
  id_after_swap i j p a b differ l =
      ap (find h) (heap-swapped i j p a b differ)
      ∙ swapped-related i j p (λ id k. find h id ≡ ok k) a b l w.search

  position_after_swap :
      (i j p : ℕ)
      → i < n
      → j < n
      → i ≢ j
      → p < n
      → get_or (after_swap i j).heap_position (swapped i j at p) 0 ≡ p
  position_after_swap i j p a b differ q = elim (Bool-cases (p == i)) [
    | inl first ↦
        let e : p ≡ i = ground arith in
        subst (λ r. get_or (after_swap i j).heap_position (swapped i j at r) 0 ≡ r) (sym e)
          (ap (λ k. get_or (after_swap i j).heap_position k 0) (swapped_first i j at)
            ∙ get_or-set_other half (at i) (at j) j (apart i j a b differ)
            ∙ get_or-set_same h.heap_position (at j) i (w.has_position j b))
    | inr not_first ↦ elim (Bool-cases (p == j)) [
      | inl last ↦
          let e : p ≡ j = ground arith in
          subst (λ r. get_or (after_swap i j).heap_position (swapped i j at r) 0 ≡ r) (sym e)
            (ap (λ k. get_or (after_swap i j).heap_position k 0) (swapped_second i j at differ)
              ∙ get_or-set_same half (at i) j
                  (omega (arith, w.has_position i a, length-set h.heap_position (at j) i)))
      | inr not_last ↦
          ap (λ k. get_or (after_swap i j).heap_position k 0)
            (swapped_other i j at p (ground arith) (ground arith))
          ∙ get_or-set_other half (at i) (at p) j (apart i p a q (ground arith))
          ∙ get_or-set_other h.heap_position (at j) (at p) i (apart j p b q (ground arith))
          ∙ w.position p q
    ]
  ]
    where
      half : List ℕ
      half = set h.heap_position (at j) i

  pub after_swap-IsIndexed :
      (i j : ℕ) → i < n → j < n → i ≢ j → IsIndexed (after_swap i j) n (swapped i j at)
  after_swap-IsIndexed i j a b differ = record {
    in_array = omega (
      arith,
      w.in_array,
      length-set (set h.id_heap_array i (get_or h.id_heap_array j 0)) j
          (get_or h.id_heap_array i 0),
      length-set h.id_heap_array i (get_or h.id_heap_array j 0),
    );
    search = λ p q. id_after_swap i j p a b differ q;
    cell = λ p q.
        heap-swapped i j p a b differ
        ∙ swapped-related i j p (λ id k. id ≡ get_or h.contained_ids k 0) a b q w.cell;
    has_distance = λ p q.
        swapped_all p (λ k. k < length h.distances) (w.has_distance i a) (w.has_distance j b)
          (w.has_distance p q);
    has_position = λ p q.
        swapped_all p (λ k. k < length (after_swap i j).heap_position)
          (same_length i (w.has_position i a)) (same_length j (w.has_position j b))
          (same_length p (w.has_position p q));
    position = λ p q. position_after_swap i j p a b differ q;
  }
    where
      swapped_all : (p : ℕ) (P : ℕ → Type 0) → P (at i) → P (at j) → P (at p) → P (swapped i j at p)
      swapped_all p P u v x = by_test (p == i) (p == j)
        where
          by_test : (b c : Bool) → P (if b then at j else if c then at i else at p)
          by_test true c = v
          by_test false true = u
          by_test false false = x

      same_length :
          (p : ℕ) → at p < length h.heap_position → at p < length (after_swap i j).heap_position
      same_length p l = omega (
        arith,
        l,
        length-set (set h.heap_position (at j) i) (at i) j,
        length-set h.heap_position (at j) i,
      )

  pub swap_lem : (i j : ℕ) → i < n → j < n → i ≢ j → swap h i j ≡ ok (after_swap i j)
  unfolding swap position_idx
  swap_lem i j a b differ =
      let half = set h.id_heap_array i (get_or h.id_heap_array j 0) in
      let ids = set half j (get_or h.id_heap_array i 0) in
      let e = length-set h.id_heap_array i (get_or h.id_heap_array j 0) in
      let f = length-set half j (get_or h.id_heap_array i 0) in
      rw (
        load-ok h.id_heap_array i 0 (omega (arith, w.in_array)),
        load-ok h.id_heap_array j 0 (omega (arith, w.in_array)),
        store-ok h.id_heap_array i (get_or h.id_heap_array j 0) (omega (arith, w.in_array)),
        store-ok half j (get_or h.id_heap_array i 0) (omega (arith, w.in_array, e)),
        load-ok ids i 0 (omega (arith, w.in_array, e, f)),
        load-ok ids j 0 (omega (arith, w.in_array, e, f)),
        id_after_swap i j i a b differ a ∙ ap ok (swapped_first i j at),
        id_after_swap i j j a b differ b ∙ ap ok (swapped_second i j at differ),
        load-ok h.heap_position (at j) 0 (w.has_position j b),
        load-ok h.heap_position (at i) 0 (w.has_position i a),
        w.position i a,
        w.position j b,
        store-ok h.heap_position (at j) i (w.has_position j b),
        store-ok (set h.heap_position (at j) i) (at i) j
            (omega (arith, w.has_position i a, length-set h.heap_position (at j) i)),
      )
