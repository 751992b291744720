-- ===== src/Utils/IntStack.antt =====
-- utils/IntStack.java: a growable array that is emptied from either end.
pub mod Deque
pub mod Session
use fapra_osm_routing.Prelude.{
  ℕ, suc, zero, ◌+◌, ◌-◌, List, [], ◌∷◌, Bool, Word32, Run, ok, throw, index_out_of_bounds, ◌>>=◌,
  load, store, copy_of, replicate, length, ◌==◌, if◌then◌else◌,
}

pub record IntStack : Type 0 where
  pub elements : List Word32
  pub next_idx : ℕ
  pub fifo_idx : ℕ
  pub size_increase : ℕ

-- The constructor.
pub new : ℕ → IntStack
new size = record { elements = replicate size 0; next_idx = 0; fifo_idx = 0; size_increase = size }

pub clear : IntStack → IntStack
clear s = record s { next_idx = 0; fifo_idx = 0 }

pub pop_fifo : IntStack → Run (Word32 × IntStack)
pop_fifo s = do
  ret_val ← load s.elements s.fifo_idx
  ok (ret_val, record s { fifo_idx = s.fifo_idx + 1 })

-- With `next_idx` 0 the read is at the index -1.
pub pop : IntStack → Run (Word32 × IntStack)
pop s =
    if s.next_idx == 0
    then throw index_out_of_bounds
    else do top ← load s.elements (s.next_idx - 1); ok (top, record s { next_idx = s.next_idx - 1 })

grow : IntStack → IntStack
grow s = record s { elements = copy_of s.elements s.size_increase 0 }

-- The part of `push` behind its test.
put : IntStack → Word32 → Run IntStack
put s to_add = do
  written ← store s.elements s.next_idx to_add
  ok (record s { elements = written; next_idx = s.next_idx + 1 })

pub push : IntStack → Word32 → Run IntStack
unfolding grow put
push s to_add = put (if s.next_idx == length s.elements then grow s else s) to_add

pub is_empty : IntStack → Bool
is_empty s = s.next_idx == s.fifo_idx
