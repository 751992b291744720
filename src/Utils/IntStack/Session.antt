-- ===== src/Utils/IntStack/Session.antt =====
-- Sequences of calls on an IntStack, against a list that is taken from at both ends.
use fapra_osm_routing.Prelude.{
  ◌≡◌, refl, ap, ◌∙◌, subst, List, [], ◌∷◌, ◌++◌, Word32, Run, ok, ◌>>=◌, Returns, Returns-bind,
  returns,
}
use fapra_osm_routing.Utils.IntStack.{IntStack, clear, pop_fifo, pop, push}
use fapra_osm_routing.Utils.IntStack.Deque.{
  Holds, clear-Holds, push-Holds, pop_fifo-Holds, pop-Holds,
}

pub data Call : Type 0 where
  do_push : Word32 → Call
  do_pop do_pop_fifo do_clear : Call

-- The calls one after the other; the results of the pops are listed in their order.
pub session : IntStack → List Call → Run (List Word32 × IntStack)
session s [] = ok ([], s)
session s (do_push x ∷ cs) = push s x >>= λ t. session t cs
session s (do_pop ∷ cs) = pop s >>= λ (x, t). session t cs >>= λ (xs, u). ok (x ∷ xs, u)
session s (do_pop_fifo ∷ cs) = pop_fifo s >>= λ (x, t). session t cs >>= λ (xs, u). ok (x ∷ xs, u)
session s (do_clear ∷ cs) = session (clear s) cs

-- The calls on a list: no pop of an empty one. The list after them stands last.
pub data Allowed : List Word32 → List Call → List Word32 → List Word32 → Type 0 where
  stop : {live : List Word32} → Allowed live [] [] live
  push_back :
      {live outs rest : List Word32} {cs : List Call} (x : Word32)
      → Allowed (live ++ x ∷ []) cs outs rest
      → Allowed live (do_push x ∷ cs) outs rest
  pop_back :
      {before live outs rest : List Word32} {cs : List Call} (x : Word32)
      → before ≡ live ++ x ∷ []
      → Allowed live cs outs rest
      → Allowed before (do_pop ∷ cs) (x ∷ outs) rest
  pop_front :
      {live outs rest : List Word32} {cs : List Call} (x : Word32)
      → Allowed live cs outs rest
      → Allowed (x ∷ live) (do_pop_fifo ∷ cs) (x ∷ outs) rest
  reset :
      {live outs rest : List Word32} {cs : List Call}
      → Allowed [] cs outs rest
      → Allowed live (do_clear ∷ cs) outs rest

-- A stack that holds the list `live` answers every sequence of push, pop, popFifo and clear calls
-- that never pops the empty list: the calls return, the results are those of a list that is taken
-- from at both ends, and the stack holds the list that is left.
pub session-Holds :
    {live outs rest : List Word32} (cs : List Call) (s : IntStack)
    → Holds s live
    → Allowed live cs outs rest
    → Returns (λ r. (r.0 ≡ outs) × Holds r.1 rest) (session s cs)
unfolding session
session-Holds _ s h stop = returns (refl, h)
session-Holds _ s h (push_back {cs = cs} x a) =
    Returns-bind (push-Holds x h) λ t k. session-Holds cs t k a
session-Holds _ s h (pop_back {live = live} {cs = cs} x e a) =
    Returns-bind (pop-Holds live x (subst (Holds s) e h)) λ r (same, k).
      Returns-bind (session-Holds cs r.1 k a)
        λ u (outs, held). returns (ap (λ t. t ∷ u.0) same ∙ ap (◌∷◌ x) outs, held)
session-Holds _ s h (pop_front {cs = cs} x a) = Returns-bind (pop_fifo-Holds x h) λ r (same, k).
    Returns-bind (session-Holds cs r.1 k a)
      λ u (outs, held). returns (ap (λ t. t ∷ u.0) same ∙ ap (◌∷◌ x) outs, held)
session-Holds _ s h (reset {cs = cs} a) = session-Holds cs (clear s) (clear-Holds h) a
