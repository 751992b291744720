-- ===== src/Utils/IntArrayList/Laws.antt =====
-- IntArrayList as a list.
use fapra_osm_routing.Prelude.{
  ℕ, ◌<◌, ◌≡◌, refl, sym, load-past, List, [], ◌∷◌, ◌++◌, Word32, Returns, Returns-bind, returns,
  load, length, length-append, length-replicate, replicate, arith, ◌==◌, ==_iff, Bool-cases, inl,
  inr, get_elem?-append_left, leb,
}
use fapra_osm_routing.Prelude.Buffer.{IsBuffer, IsBuffer-length, IsBuffer-grow, store-IsBuffer}
use fapra_osm_routing.Utils.IntArrayList.{IntArrayList, new, get, grow, put, add}

-- The list holds `xs`.
pub record Holds (l : IntArrayList) (xs : List Word32) : Type 0 where
  pub buffer : IsBuffer l.elements l.element_count xs
  pub grows : 0 < l.size_increase

pub new-Holds : (size : ℕ) → 0 < size → Holds (new size) []
unfolding new
new-Holds size h = record {
  buffer = record { spare = _; stored = refl; counted = refl };
  grows = h;
}

put-Holds :
    {l : IntArrayList} {xs : List Word32} (x : Word32)
    → Holds l xs
    → l.element_count < length l.elements
    → Returns (λ m. Holds m (xs ++ x ∷ [])) (put l x)
unfolding put
put-Holds x h room =
    Returns-bind (store-IsBuffer x h.buffer room)
      λ c b. returns (record { buffer = b; grows = h.grows })

-- On a list that holds `xs`, add returns, and the list holds `xs` and behind it the new element,
-- also where the array has to grow first.
pub add-Holds :
    {l : IntArrayList} {xs : List Word32} (x : Word32)
    → Holds l xs
    → Returns (λ m. Holds m (xs ++ x ∷ [])) (add l x)
unfolding add grow
add-Holds {l} x h = elim (Bool-cases (l.element_count == length l.elements)) [
  | inl full ↦ rw full (
      put-Holds {l = grow l} x
        (record { buffer = IsBuffer-grow h.buffer l.size_increase 0; grows = h.grows })
        (omega (
          arith,
          length-append l.elements (replicate l.size_increase 0),
          length-replicate {A = Word32} l.size_increase 0,
          h.grows,
          (==_iff l.element_count (length l.elements)).0 full,
        )))
  | inr room ↦ rw room (put-Holds x h (ground (arith, IsBuffer-length h.buffer)))
]

-- On a list that holds `xs`, get returns the element of `xs` at the index, and throws past the end
-- of `xs`, also where the array goes on.
get-Holds : {l : IntArrayList} (xs : List Word32) (i : ℕ) → Holds l xs → get l i ≡ load xs i
unfolding get
get-Holds {l} xs i h = elim (Bool-cases (leb l.element_count i)) [
  | inl past ↦ rw past (sym (load-past xs i (ground (arith, h.buffer.counted))))
  | inr inside ↦ rw (
    inside,
    h.buffer.stored,
    get_elem?-append_left xs h.buffer.spare i (ground (arith, h.buffer.counted)),
    load,
  )
]
