-- ===== src/Creation/DynamicGrid/Removal.antt =====
-- removeBackwardsEdge takes the first edge that leads back out of a node's current edges.
use fapra_osm_routing.Prelude.{
  ℕ, zero, suc, ◌+◌, ◌-◌, ◌<◌, ◌≡◌, ◌≢◌, refl, sym, ap, ◌∙◌, subst, List, [], ◌∷◌, ◌++◌,
  append_assoc, Word32, some, ok, load, load-set_other, store-ok, set, set-append, length,
  length-append, length-set, ◌==◌, arith, true, false, Returns, returns, All,
}
use fapra_osm_routing.Prelude.Buffer.{IsBuffer, IsBuffer-length, load-IsBuffer}
use fapra_osm_routing.Creation.Edges
use fapra_osm_routing.Creation.Edges.{Edges}
use fapra_osm_routing.Creation.DynamicGrid.{
  DynamicGrid, get_current_edges, get_current_edge_count, get_all_edges, get_all_edge_count,
  find_backwards, index_or_fail, remove_backwards_edge,
}
use fapra_osm_routing.Creation.DynamicGrid.Changes.{HasEdges, SameElsewhere, write-Written}

-- The edge leads to another node than `start`.
abbrev pub LeadsElsewhere : Edges → Word32 → Word32 → Type 0
LeadsElsewhere e start edge = (d : Word32) × (Edges.get_dest e edge ≡ ok d) × (d ≢ start)

-- The last entry of `x ∷ xs`, and the entries before it.
abbrev pub last_of : Word32 → List Word32 → Word32
last_of x [] = x
last_of x (y ∷ ys) = last_of y ys

abbrev pub before_last : Word32 → List Word32 → List Word32
before_last x [] = []
before_last x (y ∷ ys) = x ∷ before_last y ys

-- The entries with the last one moved to the front.
abbrev pub last_first : List Word32 → List Word32
last_first [] = []
last_first (x ∷ xs) = last_of x xs ∷ before_last x xs

last_of-snoc : (x : Word32) (xs : List Word32) → x ∷ xs ≡ before_last x xs ++ last_of x xs ∷ []
last_of-snoc x [] = refl
last_of-snoc x (y ∷ ys) = ap (◌∷◌ x) (last_of-snoc y ys)

-- The last entry over the first one leaves the last place free.
last_of-moved :
    (x : Word32) (xs : List Word32) → last_of x xs ∷ xs ≡ last_first xs ++ last_of x xs ∷ []
last_of-moved x [] = refl
last_of-moved x (y ∷ ys) = ap (◌∷◌ (last_of y ys)) (last_of-snoc y ys)

module _ (e : Edges) {ids : List Word32} {n : ℕ} (start x : Word32) (q : List Word32)
    (leads : Edges.get_dest e x ≡ ok start) where
  find_backwards-first :
      (visited p : List Word32) (i left : ℕ)
      → IsBuffer ids n (visited ++ (p ++ x ∷ q))
      → i ≡ length visited
      → left ≡ length p + suc (length q)
      → All (LeadsElsewhere e start) p
      → find_backwards e ids start left i ≡ ok (some (i + length p))
  unfolding find_backwards
  find_backwards-first visited p i zero b at size others = absurd (omega arith)
  find_backwards-first visited [] i (suc left) b at size others =
      let same : (start == start) ≡ true = ground arith in
      rw (load-IsBuffer visited x q i b at, leads, same) (ap (λ k. ok (some k)) (omega arith))
  find_backwards-first visited (y ∷ p) i (suc left) b at size ((d, reads, other), others) =
      let differs : (d == start) ≡ false = ground arith in
      rw (load-IsBuffer visited y (p ++ x ∷ q) i b at, reads, differs)
        (find_backwards-first (visited ++ y ∷ []) p (i + 1) left
            (subst (IsBuffer ids n) (sym (append_assoc visited (y ∷ []) (p ++ x ∷ q))) b)
            (omega (arith, length-append visited (y ∷ []))) (omega arith) others
          ∙ ap (λ k. ok (some k)) (omega arith))

-- The array after the last id was written over the removed one.
closed-IsBuffer :
    {ids : List Word32} {n : ℕ} (p : List Word32) (x : Word32) (q : List Word32)
    → IsBuffer ids n (p ++ x ∷ q)
    → IsBuffer (set ids (length p) (last_of x q)) (n - 1) (p ++ last_first q)
closed-IsBuffer {ids} {n} p x q b =
    let l = last_of x q in
    record {
      spare = l ∷ b.spare;
      stored =
          ap (λ t. set t (length p) l) (b.stored ∙ append_assoc p (x ∷ q) b.spare)
          ∙ set-append p x (q ++ b.spare) (length p) l refl
          ∙ ap (λ t. p ++ (t ++ b.spare)) (last_of-moved x q)
          ∙ ap (λ t. p ++ t) (append_assoc (last_first q) (l ∷ []) b.spare)
          ∙ sym (append_assoc p (last_first q) (l ∷ b.spare));
      counted = omega (
        arith,
        b.counted,
        length-append p (x ∷ q),
        length-append p (last_first q),
        ap length (last_of-moved x q),
        length-append (last_first q) (l ∷ []),
      );
    }

-- On a node whose arrays are not empty, where `x` is the first of its current edges that leads to
-- the start, and the destinations of the current edges before `x` can be read, removeBackwardsEdge
-- returns: `x` is gone, the last current edge, where `x` was not the last itself, has its place,
-- and the others stay where they are; all edges of the node are the same, and so are the edges of
-- the other nodes.
pub remove_backwards_edge-HasEdges :
    (e : Edges) {g : DynamicGrid} {v : ℕ} (start : Word32) (p : List Word32) (x : Word32)
    (q : List Word32) {all : List Word32}
    → HasEdges g v (p ++ x ∷ q) all
    → All (LeadsElsewhere e start) p
    → Edges.get_dest e x ≡ ok start
    → Returns
        (λ g'. HasEdges g' v (p ++ last_first q) all × SameElsewhere v g g')
        (remove_backwards_edge e start v g)
unfolding remove_backwards_edge index_or_fail get_current_edges get_current_edge_count get_all_edges
    get_all_edge_count
remove_backwards_edge-HasEdges e {g} {v} start p x q {all} h others leads =
    let row = h.current_row in
    let b = row.buffer in
    let size : row.count ≡ length p + suc (length q) =
      omega (arith, b.counted, length-append p (x ∷ q)) in
    let inside : length p < length row.array = omega (arith, IsBuffer-length b) in
    let l = last_of x q in
    let found : find_backwards e row.array start row.count 0 ≡ ok (some (length p)) =
      find_backwards-first e {ids = row.array} {n = row.count} start x q leads [] p 0 row.count b
        refl size others
      ∙ ap (λ k. ok (some k)) (omega arith) in
    let snoc : p ++ x ∷ q ≡ (p ++ before_last x q) ++ l ∷ [] =
      ap (λ t. p ++ t) (last_of-snoc x q) ∙ sym (append_assoc p (before_last x q) (l ∷ [])) in
    let last : load row.array (row.count - 1) ≡ ok l =
      load-IsBuffer (p ++ before_last x q) l [] (row.count - 1)
        (subst (IsBuffer row.array row.count) snoc b)
        (omega (arith, b.counted, ap length snoc, length-append (p ++ before_last x q) (l ∷ []))) in
    let written = store-ok row.array (length p) l inside in
    let w =
      write-Written (set row.array (length p) l) (row.count - 1) (p ++ last_first q) row
        (closed-IsBuffer p x q b) (omega (arith, length-set row.array (length p) l)) in
    rw (row.counted, row.row, found, last, written, w.ids_stored, w.count_stored)
      (returns (
        record { current_row = w.new_row; all_row = h.all_row },
        λ u other. (
          load-set_other g.current_edge_ids v u _ other,
          load-set_other g.current_edge_count v u _ other,
          refl,
          refl,
        ),
      ))
