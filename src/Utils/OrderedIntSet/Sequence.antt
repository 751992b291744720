-- ===== src/Utils/OrderedIntSet/Sequence.antt =====
-- OrderedIntSet as a list: both variants, at positions that the caller chooses.
use fapra_osm_routing.Prelude.{
  ℕ, ◌+◌, ◌-◌, ◌≤◌, ◌<◌, ◌≡◌, refl, sym, ap, ◌∙◌, subst, List, [], ◌∷◌, ◌++◌, append_assoc,
  append-nil, true, false, Bool, Word32, max_value, ok, Returns, returns, Returns-bind, load,
  load-past, store-ok, length, length-append, length-replicate, replicate, set, set-append,
  take-append, arith, ◌==◌, Bool-cases, inl, inr, get_elem?-append_left, leb, ltb, All, All-append,
  All-replicate, arraycopy-ok, drop_past, take,
}
use fapra_osm_routing.Prelude.Buffer.Shift.{Layout, insert_cell-Layout, remove_cell-Layout}
use fapra_osm_routing.Utils.OrderedIntSet.{
  OrderedIntSet, blank, new, grow, reserve, put_tail, insert_tail, remove_at_idx, put_at,
  insert_at_idx, get, update_value, make_space, clear, to_array,
}

-- The set holds `xs`, and the ordered variant has only Integer.MAX_VALUE behind them.
pub record Holds (s : OrderedIntSet) (xs : List Word32) : Type 0 where
  pub spare : List Word32
  pub layout : Layout s.elements s.element_count xs spare
  pub filled : s.ordered_by_sorting ≡ true → All (λ x. x ≡ max_value) spare
  pub grows : 0 < s.size_increase

-- The state after a step of a set of the same variant.
abbrev pub Becomes : OrderedIntSet → List Word32 → OrderedIntSet → Type 0
Becomes s ys t = Holds t ys × (t.ordered_by_sorting ≡ s.ordered_by_sorting)

filled-replicate : (b : Bool) (n : ℕ) → b ≡ true → All (λ x. x ≡ max_value) (replicate n (blank b))
filled-replicate true n e = All-replicate (λ x. x ≡ max_value) n max_value refl
filled-replicate false n e = cc

pub new-Holds : (b : Bool) (n k : ℕ) → 0 < k → Holds (new b n k) []
unfolding new
new-Holds b n k h = record {
  spare = replicate n (blank b);
  layout = (refl, refl);
  filled = filled-replicate b n;
  grows = h;
}

module _ {s : OrderedIntSet} {xs : List Word32} (h : Holds s xs) where
  size-Holds : length s.elements ≡ s.element_count + length h.spare
  size-Holds = omega (arith, ap length h.layout.0, length-append xs h.spare, h.layout.1)

  -- More room at the end changes nothing that is held.
  extend-Holds :
      (n : ℕ)
      → Holds (record s { elements = s.elements ++ replicate n (blank s.ordered_by_sorting) }) xs
  extend-Holds n = record {
    spare = h.spare ++ replicate n (blank s.ordered_by_sorting);
    layout = (
      ap (λ c. c ++ replicate n (blank s.ordered_by_sorting)) h.layout.0
          ∙ append_assoc xs h.spare _,
      h.layout.1,
    );
    filled = λ e.
        All-append (λ x. x ≡ max_value) h.spare _ (h.filled e)
          (filled-replicate s.ordered_by_sorting n e);
    grows = h.grows;
  }

-- A set with a free cell: what the test before an insertion brings about.
pub record HasRoom (s : OrderedIntSet) (xs : List Word32) (b : Bool) : Type 0 where
  pub holds : Holds s xs
  pub cell : Word32
  pub rest : List Word32
  pub split : holds.spare ≡ cell ∷ rest
  pub same : s.ordered_by_sorting ≡ b

room :
    {s : OrderedIntSet} {xs : List Word32} (h : Holds s xs)
    → 0 < length h.spare
    → HasRoom s xs s.ordered_by_sorting
room {s} {xs} h p = go h.spare refl p
  where
    go : (l : List Word32) → h.spare ≡ l → 0 < length l → HasRoom s xs s.ordered_by_sorting
    go [] e q = absurd (omega arith)
    go (y ∷ ys) e q = record { holds = h; cell = y; rest = ys; split = e; same = refl }

pub reserve-HasRoom :
    {s : OrderedIntSet} {xs : List Word32}
    → Holds s xs
    → HasRoom (reserve s) xs s.ordered_by_sorting
unfolding reserve grow extend-Holds
reserve-HasRoom {s} {xs} h = elim (Bool-cases (s.element_count == length s.elements)) [
  | inl full ↦ rw full (
      room (extend-Holds h s.size_increase) (
        omega (
          arith,
          length-append h.spare (replicate s.size_increase (blank s.ordered_by_sorting)),
          length-replicate s.size_increase (blank s.ordered_by_sorting),
          h.grows,
        )))
  | inr free ↦ rw free (room h (ground (arith, size-Holds h)))
]

module _ {s : OrderedIntSet} {b : Bool} where
  put_tail-Holds :
      {xs : List Word32} (x : Word32)
      → HasRoom s xs b
      → Returns (λ t. Holds t (xs ++ x ∷ []) × (t.ordered_by_sorting ≡ b)) (put_tail s x)
  unfolding put_tail
  put_tail-Holds {xs} x h =
      let l = h.holds.layout in
      let e : s.elements ≡ xs ++ h.cell ∷ h.rest = l.0 ∙ ap (λ t. xs ++ t) h.split in
      rw
        (store-ok s.elements s.element_count x
          (omega (arith, ap length e, length-append xs (h.cell ∷ h.rest), l.1)))
        (returns (
          record {
            spare = h.rest;
            layout = (
              ap (λ t. set t s.element_count x) e
                  ∙ set-append xs h.cell h.rest s.element_count x l.1
                  ∙ sym (append_assoc xs (x ∷ []) h.rest),
              omega (arith, length-append xs (x ∷ []), l.1),
            );
            filled = λ o. (subst (All (λ x. x ≡ max_value)) h.split (h.holds.filled o)).1;
            grows = h.holds.grows;
          },
          h.same,
        ))

  pub put_at-Holds :
      (p q : List Word32) (x : Word32) (idx : ℕ)
      → HasRoom s (p ++ q) b
      → idx ≡ length p
      → Returns (λ t. Holds t (p ++ x ∷ q) × (t.ordered_by_sorting ≡ b)) (put_at s x idx)
  unfolding put_at
  put_at-Holds p q x idx h i =
      let l = h.holds.layout in
      Returns-bind
        (insert_cell-Layout p q h.cell h.rest idx x (l.0 ∙ ap (λ t. (p ++ q) ++ t) h.split, l.1) i)
        λ c d. returns (
          record {
            spare = h.rest;
            layout = d;
            filled = λ o. (subst (All (λ x. x ≡ max_value)) h.split (h.holds.filled o)).1;
            grows = h.holds.grows;
          },
          h.same,
        )

-- insertTail appends.
pub insert_tail-Holds :
    {s : OrderedIntSet} {xs : List Word32} (x : Word32)
    → Holds s xs
    → Returns (Becomes s (xs ++ x ∷ [])) (insert_tail s x)
unfolding insert_tail
insert_tail-Holds x h = put_tail-Holds x (reserve-HasRoom h)

-- On a set that holds the list `p` and then `q`, insertAtIdx at the length of `p` returns, and the
-- set of the same variant holds `p`, the element and `q`, also where the array has to grow first.
pub insert_at_idx-Holds :
    {s : OrderedIntSet} (p q : List Word32) (x : Word32) (idx : ℕ)
    → Holds s (p ++ q)
    → idx ≡ length p
    → Returns (Becomes s (p ++ x ∷ q)) (insert_at_idx s x idx)
unfolding insert_at_idx
insert_at_idx-Holds p q x idx h i = put_at-Holds p q x idx (reserve-HasRoom h) i

-- On a set that holds `p`, an element and `q`, removeAtIdx at the length of `p` returns, and the
-- set of the same variant holds `p` and `q`.
pub remove_at_idx-Holds :
    {s : OrderedIntSet} (p : List Word32) (x : Word32) (q : List Word32) (idx : ℕ)
    → Holds s (p ++ x ∷ q)
    → idx ≡ length p
    → Returns (Becomes s (p ++ q)) (remove_at_idx s idx)
unfolding remove_at_idx
remove_at_idx-Holds p x q idx h i =
    Returns-bind (remove_cell-Layout p x q h.spare idx max_value h.layout i) λ c d. returns (
      record {
        spare = max_value ∷ h.spare;
        layout = d;
        filled = λ o. (refl, h.filled o);
        grows = h.grows;
      },
      refl,
    )

-- updateValue overwrites the element behind the first `idx` elements.
pub update_value-Holds :
    {s : OrderedIntSet} (p : List Word32) (x : Word32) (q : List Word32) (v : Word32) (idx : ℕ)
    → Holds s (p ++ x ∷ q)
    → idx ≡ length p
    → Returns (Becomes s (p ++ v ∷ q)) (update_value s v idx)
unfolding update_value
update_value-Holds {s} p x q v idx h i =
    let e : s.elements ≡ p ++ x ∷ (q ++ h.spare) = h.layout.0 ∙ append_assoc p (x ∷ q) h.spare in
    rw
      (store-ok s.elements idx v (omega (arith, ap length e, length-append p (x ∷ (q ++ h.spare)))))
      (returns (
        record {
          spare = h.spare;
          layout = (
            ap (λ t. set t idx v) e
                ∙ set-append p x (q ++ h.spare) idx v i
                ∙ sym (append_assoc p (v ∷ q) h.spare),
            omega (arith, h.layout.1, length-append p (x ∷ q), length-append p (v ∷ q)),
          );
          filled = h.filled;
          grows = h.grows;
        },
        refl,
      ))

-- get reads the list that is held, and throws past its end.
pub get-Holds : {s : OrderedIntSet} (xs : List Word32) (i : ℕ) → Holds s xs → get s i ≡ load xs i
unfolding get
get-Holds {s} xs i h = elim (Bool-cases (leb s.element_count i)) [
  | inl past ↦ rw past (sym (load-past xs i (ground (arith, h.layout.1))))
  | inr inside ↦
      rw (inside, h.layout.0, get_elem?-append_left xs h.spare i (ground (arith, h.layout.1)), load)
]

-- On a set that holds the list `xs`, toArray returns exactly `xs`.
pub to_array-Holds : {s : OrderedIntSet} (xs : List Word32) → Holds s xs → to_array s ≡ ok xs
unfolding to_array
to_array-Holds {s} xs h =
    let c = s.element_count in
    let zeros : length (replicate {A = Word32} c 0) ≡ c = length-replicate c 0 in
    rw
      (
        arraycopy-ok s.elements 0 (replicate c 0) 0 c (omega (arith, size-Holds h)) (omega arith),
        drop_past (0 + c) (replicate {A = Word32} c 0) (omega arith),
        append-nil,
      )
      (ap ok (ap (take c) h.layout.0 ∙ take-append xs h.spare c h.layout.1))

-- On a set that holds the list `xs`, makeSpace keeps the variant and the list, and the array has
-- room for `n` more elements afterwards.
make_space-Holds :
    {s : OrderedIntSet} {xs : List Word32} (n : ℕ)
    → Holds s xs
    → Becomes s xs (make_space s n) × (length xs + n ≤ length (make_space s n).elements)
unfolding make_space
make_space-Holds {s} {xs} n h =
    let size = size-Holds h in
    elim (Bool-cases (ltb (length s.elements - s.element_count) n)) [
      | inl more ↦ rw more (
        (extend-Holds h n, refl),
        omega (
          arith,
          length-append s.elements (replicate n (blank s.ordered_by_sorting)),
          length-replicate n (blank s.ordered_by_sorting),
          h.layout.1,
        ),
      )
      | inr enough ↦ rw enough ((h, refl), ground (arith, h.layout.1))
    ]

pub clear-Holds : {s : OrderedIntSet} {xs : List Word32} → Holds s xs → Becomes s [] (clear s)
unfolding clear
clear-Holds {s} h = (
  record {
    spare = (clear s).elements;
    layout = (refl, refl);
    filled = λ o. rw o (All-replicate (λ x. x ≡ max_value) (length s.elements) max_value refl);
    grows = h.grows;
  },
  refl,
)
