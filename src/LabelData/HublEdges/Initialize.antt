-- ===== src/LabelData/HublEdges/Initialize.antt =====
-- The router's edges are those of the preprocessing.
use fapra_osm_routing.Prelude.{
  ℕ, ◌+◌, ◌-◌, ◌*◌, ◌≤◌, ◌<◌, ◌≡◌, refl, sym, ap, ◌∙◌, List, [], ◌++◌, append-nil, map, Word32, ok,
  Returns, returns, Returns-map, load, arraycopy, arraycopy-ok, length, length-append,
  length-replicate, length-drop, replicate, arith, take, drop, take-append, drop_past, true, ◌↔◌,
}
use fapra_osm_routing.Prelude.Buffer.{IsBuffer, IsBuffer-length}
use fapra_osm_routing.Creation.Edges
use fapra_osm_routing.Creation.Edges.{Edges, add_shortcut_edge}
use fapra_osm_routing.Creation.Edges.Shortcuts.{
  Shortcut, parts, Holds, get_dest-Holds, get_dist-Holds,
}
use fapra_osm_routing.LabelData.HublEdges.{HublEdges, get_dest, get_dist, is_shortcut, initialize}

-- A copy of the entries in use over the end of an array.
copy_to_end :
    {a : List Word32} {n : ℕ} {xs : List Word32} (before zeros : List Word32) (to : ℕ)
    → IsBuffer a n xs
    → to ≡ length before
    → length zeros ≡ n
    → arraycopy a 0 (before ++ zeros) to n ≡ ok (before ++ xs)
copy_to_end {a} {n} {xs} before zeros to b at size =
    let whole = length-append before zeros in
    arraycopy-ok a 0 (before ++ zeros) to n (omega (arith, IsBuffer-length b)) (omega arith)
    ∙ ap ok (
        rw
          (
            take-append before zeros to at,
            drop_past (to + n) (before ++ zeros) (omega arith),
            append-nil,
          )
          (ap (λ t. before ++ take n t) b.stored
            ∙ ap (λ t. before ++ t) (take-append xs b.spare n b.counted)))

-- A copy of a whole array over the start of a blank one.
copy_to_start :
    (a : List Word32) (n total : ℕ)
    → length a ≡ n
    → n ≤ total
    → arraycopy a 0 (replicate total 0) 0 n ≡ ok (a ++ drop n (replicate total 0))
copy_to_start a n total size h =
    arraycopy-ok a 0 (replicate total 0) 0 n (omega arith)
      (omega (arith, length-replicate {A = Word32} total 0))
    ∙ ap ok (
        rw (ap {A = List Word32} (take n) (sym (append-nil a)), take-append a [] n (sym size))
          (ap (λ k. a ++ drop k (replicate total 0)) (omega arith)))

-- The router's tables hold the original edges and, behind them, the shortcuts.
pub record Mirrors (e : Edges) (ss : List Shortcut) (r : HublEdges) : Type 0 where
  pub dests : r.dest ≡ e.original_edge_dest ++ map (λ s. s.dest) ss
  pub dists : r.dist ≡ e.original_edge_dist ++ map (λ s. s.dist) ss
  pub border : r.first_shortcut_idx ≡ e.num_of_original_edges
  pub halves : r.shortcut_parts ≡ parts ss

pub initialize-Mirrors :
    (e : Edges) (ss : List Shortcut) → Holds e ss → Returns (Mirrors e ss) (initialize e)
unfolding initialize
initialize-Mirrors e ss h =
    let n = e.num_of_original_edges in
    let count : e.next_shortcut_id - n ≡ length ss = omega (arith, h.next) in
    let blank = replicate {A = Word32} e.next_shortcut_id 0 in
    let size : length (drop n blank) ≡ length ss =
      omega
        (arith, length-drop n blank, length-replicate {A = Word32} e.next_shortcut_id 0, h.next) in
    rw
      (
        count,
        copy_to_start e.original_edge_dest n e.next_shortcut_id h.full_dest (omega (arith, h.next)),
        copy_to_start e.original_edge_dist n e.next_shortcut_id h.full_dist (omega (arith, h.next)),
        copy_to_end e.original_edge_dest (drop n blank) n h.dests (sym h.full_dest) size,
        copy_to_end e.original_edge_dist (drop n blank) n h.dists (sym h.full_dist) size,
        copy_to_end [] (replicate (length ss * 2) 0) 0 h.halves refl
            (length-replicate (length ss * 2) 0),
      )
      (returns (record { dests = refl; dists = refl; border = refl; halves = refl }))

-- The router's edges agree with the preprocessing's: every edge leads to the same node over the
-- same distance, and exactly the ids of shortcuts are shortcuts.
pub record Agrees (e : Edges) (r : HublEdges) : Type 0 where
  pub dests : (i : ℕ) → i < e.next_shortcut_id → get_dest r i ≡ Edges.get_dest e i
  pub dists : (i : ℕ) → i < e.next_shortcut_id → get_dist r i ≡ Edges.get_dist e i
  pub shortcuts : (i : ℕ) → (is_shortcut r i ≡ true) ↔ (e.num_of_original_edges ≤ i)

-- On edges that hold some shortcuts, HubLEdges.initialize returns, and then HubLEdges agrees with
-- Edges: getDest and getDist of every id below the next one are the same, and the shortcuts are
-- the ids from the number of original edges on.
pub initialize-Agrees :
    (e : Edges) (ss : List Shortcut) → Holds e ss → Returns (Agrees e) (initialize e)
unfolding get_dest get_dist is_shortcut
initialize-Agrees e ss h = Returns-map (initialize-Mirrors e ss h) λ r m. record {
  dests = λ i known. ap (λ t. load t i) m.dests ∙ sym (get_dest-Holds h i known);
  dists = λ i known. ap (λ t. load t i) m.dists ∙ sym (get_dist-Holds h i known);
  shortcuts = λ i. ground (arith, m.border);
}
