-- ===== src/Utils/IntStack/Deque.antt =====
-- IntStack as a double-ended queue.
use fapra_osm_routing.Prelude.{
  ℕ, ◌+◌, ◌-◌, ◌<◌, ◌≡◌, refl, ap, ◌∙◌, ◌↔◌, List, [], ◌∷◌, ◌++◌, append_assoc, true, false, Word32,
  Returns, returns, length, length-append, length-replicate, arith, ◌==◌, Bool-cases, ==_iff,
  length-zero, replicate, Returns-bind, inl, inr,
}
use fapra_osm_routing.Prelude.Buffer.{
  IsBuffer, IsBuffer-length, IsBuffer-grow, load-IsBuffer, store-IsBuffer,
}
use fapra_osm_routing.Utils.IntStack.{
  IntStack, new, clear, pop_fifo, pop, grow, put, push, is_empty,
}

-- The stack holds `live`, the oldest element first; `popped` left it in FIFO order.
pub record Holds (s : IntStack) (live : List Word32) : Type 0 where
  pub popped : List Word32
  pub buffer : IsBuffer s.elements s.next_idx (popped ++ live)
  pub left : s.fifo_idx ≡ length popped
  pub grows : 0 < s.size_increase

pub new-Holds : (size : ℕ) → 0 < size → Holds (new size) []
unfolding new
new-Holds size h = record {
  popped = [];
  buffer = record { spare = _; stored = refl; counted = refl };
  left = refl;
  grows = h;
}

-- A cleared stack is empty, whatever it held.
pub cleared-Holds : (s : IntStack) → 0 < s.size_increase → Holds (clear s) []
unfolding clear
cleared-Holds s h = record {
  popped = [];
  buffer = record { spare = _; stored = refl; counted = refl };
  left = refl;
  grows = h;
}

pub clear-Holds : {s : IntStack} {live : List Word32} → Holds s live → Holds (clear s) []
clear-Holds {s} h = cleared-Holds s h.grows

module _ {s : IntStack} {live : List Word32} (h : Holds s live) where
  grow-Holds : Holds (grow s) live
  unfolding grow
  grow-Holds = record {
    popped = h.popped;
    buffer = IsBuffer-grow h.buffer s.size_increase 0;
    left = h.left;
    grows = h.grows;
  }

  put-Holds :
      (x : Word32)
      → s.next_idx < length s.elements
      → Returns (λ t. Holds t (live ++ x ∷ [])) (put s x)
  unfolding put
  put-Holds x room = Returns-bind (store-IsBuffer x h.buffer room) λ c b.
      returns (record {
        popped = h.popped;
        buffer = rw append_assoc at b;
        left = h.left;
        grows = h.grows;
      })

  pub is_empty_iff : (is_empty s ≡ true) ↔ (live ≡ [])
  unfolding is_empty
  is_empty_iff =
      let size = length-append h.popped live in
      let counted = h.buffer.counted in
      let left = h.left in (λ e. length-zero live (ground arith), λ e. ground (arith, ap length e))

-- `push` appends at the end that `pop` takes from.
pub push-Holds :
    {s : IntStack} {live : List Word32} (x : Word32)
    → Holds s live
    → Returns (λ t. Holds t (live ++ x ∷ [])) (push s x)
unfolding push grow
push-Holds {s} x h = elim (Bool-cases (s.next_idx == length s.elements)) [
  | inl full ↦ rw full (
      put-Holds (grow-Holds h) x (
        omega (
          arith,
          length-append s.elements (replicate s.size_increase 0),
          length-replicate {A = Word32} s.size_increase 0,
          h.grows,
          (==_iff s.next_idx (length s.elements)).0 full,
        )))
  | inr room ↦ rw room (put-Holds h x (ground (arith, IsBuffer-length h.buffer)))
]

-- `pop_fifo` takes the oldest element.
pub pop_fifo-Holds :
    {s : IntStack} {live : List Word32} (x : Word32)
    → Holds s (x ∷ live)
    → Returns (λ r. (r.0 ≡ x) × Holds r.1 live) (pop_fifo s)
unfolding pop_fifo
pop_fifo-Holds {s} {live} x h = rw (load-IsBuffer h.popped x live s.fifo_idx h.buffer h.left) (
    returns (
      refl,
      record {
        popped = h.popped ++ x ∷ [];
        buffer = rw append_assoc h.buffer;
        left = omega (arith, length-append h.popped (x ∷ []), h.left);
        grows = h.grows;
      },
    ))

-- `pop` takes the newest element.
pub pop-Holds :
    {s : IntStack} (live : List Word32) (x : Word32)
    → Holds s (live ++ x ∷ [])
    → Returns (λ r. (r.0 ≡ x) × Holds r.1 live) (pop s)
unfolding pop
pop-Holds {s} live x h =
    let b : IsBuffer s.elements s.next_idx ((h.popped ++ live) ++ x ∷ []) =
      rw append_assoc h.buffer in
    let size : s.next_idx ≡ length (h.popped ++ live) + 1 =
      omega (arith, b.counted, length-append (h.popped ++ live) (x ∷ [])) in
    let nonzero : (s.next_idx == 0) ≡ false = ground arith in
    rw (nonzero, load-IsBuffer (h.popped ++ live) x [] (s.next_idx - 1) b (omega arith))
      (returns (
        refl,
        record {
          popped = h.popped;
          buffer = record {
            spare = x ∷ b.spare;
            stored = b.stored ∙ append_assoc (h.popped ++ live) (x ∷ []) b.spare;
            counted = omega arith;
          };
          left = h.left;
          grows = h.grows;
        },
      ))
