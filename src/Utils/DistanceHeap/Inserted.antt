-- ===== src/Utils/DistanceHeap/Inserted.antt =====
-- A new cell in the ordered arrays.
use fapra_osm_routing.Prelude.{
  ℕ, suc, ◌+◌, ◌-◌, ◌<◌, ◌≤◌, ◌≡◌, sym, ap, ◌∙◌, List, ◌∷◌, ◌++◌, Bool-cases, inl, inr, Returns,
  Returns-map, length, length-append, length-take_le, length-drop, take, drop, take-append-drop,
  get_or, get_or-append_left, get_or-append_right, ltb, if◌then◌else◌, arith,
}
use fapra_osm_routing.Prelude.Buffer.{spare_cons}
use fapra_osm_routing.Prelude.Buffer.Shift.{insert_cell, insert_cell-Layout}

-- The list with a new entry at an index.
abbrev pub put_in : ℕ → ℕ → List ℕ → List ℕ
put_in idx v xs = take idx xs ++ v ∷ drop idx xs

-- The index of a cell from before.
abbrev pub down : ℕ → ℕ → ℕ
down idx s = if ltb s idx then s else suc s

module _ (idx v : ℕ) (xs : List ℕ) (l : idx ≤ length xs) where
  pub length-put_in : length (put_in idx v xs) ≡ length xs + 1
  length-put_in = omega (
    arith,
    length-append (take idx xs) (v ∷ drop idx xs),
    length-take_le idx xs l,
    length-drop idx xs,
  )

  pub get-put_in_new : get_or (put_in idx v xs) idx 0 ≡ v
  get-put_in_new =
      get_or-append_right (take idx xs) (v ∷ drop idx xs) idx 0 0
        (omega (arith, length-take_le idx xs l))

  pub get-put_in : (s : ℕ) → s < length xs → get_or (put_in idx v xs) (down idx s) 0 ≡ get_or xs s 0
  get-put_in s m = elim (Bool-cases (ltb s idx)) [
    | inl before ↦
        let b : s < idx = ground arith in
        rw before (
          get_or-append_left (take idx xs) (v ∷ drop idx xs) s 0
            (omega (arith, length-take_le idx xs l))
          ∙ sym (
              get_or-append_left (take idx xs) (drop idx xs) s 0
                (omega (arith, length-take_le idx xs l)))
          ∙ ap (λ a. get_or a s 0) (take-append-drop idx xs))
    | inr after ↦
        let b : idx ≤ s = ground arith in
        rw after (
          get_or-append_right (take idx xs) (v ∷ drop idx xs) (suc s) (suc (s - idx)) 0
            (omega (arith, length-take_le idx xs l))
          ∙ sym (
              get_or-append_right (take idx xs) (drop idx xs) s (s - idx) 0
                (omega (arith, length-take_le idx xs l)))
          ∙ ap (λ a. get_or a s 0) (take-append-drop idx xs))
  ]

-- The array after the insertion: the first spare cell is in use.
pub record IsPut (idx v : ℕ) (xs spare c : List ℕ) : Type 0 where
  pub first : ℕ
  pub left : List ℕ
  pub taken : spare ≡ first ∷ left
  pub stored : c ≡ put_in idx v xs ++ left

pub insert_cell-IsPut :
    (a xs spare : List ℕ) (n idx v : ℕ)
    → a ≡ xs ++ spare
    → n ≡ length xs
    → idx ≤ n
    → 0 < length spare
    → Returns (IsPut idx v xs spare) (insert_cell a n idx v)
insert_cell-IsPut a xs spare n idx v stored count l room =
    let (y, ys, e) = spare_cons spare room in
    Returns-map
      (insert_cell-Layout (take idx xs) (drop idx xs) y ys idx v
        (
          stored ∙ ap (λ r. xs ++ r) e ∙ ap (λ x. x ++ y ∷ ys) (sym (take-append-drop idx xs)),
          count ∙ ap length (sym (take-append-drop idx xs)),
        )
        (sym (length-take_le idx xs (omega arith))))
      λ c (f, g). record { first = y; left = ys; taken = e; stored = f }

-- The cells of a prefix are the array's.
pub get_or-take :
    (xs : List ℕ) (n k : ℕ) → k < n → n ≤ length xs → get_or (take n xs) k 0 ≡ get_or xs k 0
get_or-take xs n k l m =
    sym (get_or-append_left (take n xs) (drop n xs) k 0 (omega (arith, length-take_le n xs m)))
    ∙ ap (λ a. get_or a k 0) (take-append-drop n xs)

-- A cell that is in use after the insertion.
pub put-cell :
    {idx v : ℕ} {xs spare c : List ℕ} (i : IsPut idx v xs spare c) (k : ℕ)
    → idx ≤ length xs
    → k < length xs + 1
    → get_or c k 0 ≡ get_or (put_in idx v xs) k 0
put-cell {idx} {v} {xs} i k l m =
    ap (λ a. get_or a k 0) i.stored
    ∙ get_or-append_left (put_in idx v xs) i.left k 0 (omega (arith, length-put_in idx v xs l))

-- The array's length stays.
pub length-put :
    {idx v : ℕ} {xs spare c : List ℕ} (i : IsPut idx v xs spare c)
    → idx ≤ length xs
    → length c ≡ length xs + length spare
length-put {idx} {v} {xs} i l = omega (
  arith,
  ap length i.stored,
  ap length i.taken,
  length-append (put_in idx v xs) i.left,
  length-put_in idx v xs l,
)
