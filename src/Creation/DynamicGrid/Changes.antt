-- ===== src/Creation/DynamicGrid/Changes.antt =====
-- How addEdge and removeBackwardsEdge change the edges of a node.
use fapra_osm_routing.Prelude.{
  ℕ, ◌+◌, ◌<◌, ◌≡◌, ◌≢◌, List, [], ◌∷◌, ◌++◌, Word32, Option, some, ok, load, load-past,
  load-set_same, load-set_other, store, store-ok, set, length, length-append, length-replicate,
  replicate, ◌==◌, ltb, arith, Returns, Returns-inv, returns, Bool-cases, inl, inr,
}
use fapra_osm_routing.Prelude.Buffer.{IsBuffer, IsBuffer-length, IsBuffer-grow, store-IsBuffer}
use fapra_osm_routing.Creation.DynamicGrid.{
  DynamicGrid, get_current_edges, get_current_edge_count, get_all_edges, get_all_edge_count, grow,
  add_edge,
}

-- The row of the node `v` holds the ids `xs`; doubling its array makes room.
pub record HasRow (ids : List (Option (List Word32))) (counts : List ℕ) (v : ℕ) (xs : List Word32)
    : Type 0 where
  pub array : List Word32
  pub count : ℕ
  pub row : load ids v ≡ ok (some array)
  pub counted : load counts v ≡ ok count
  pub buffer : IsBuffer array count xs
  pub can_grow : 0 < length array

-- The node `v` has the current edges `current` and the edges `all`.
pub record HasEdges (g : DynamicGrid) (v : ℕ) (current all : List Word32) : Type 0 where
  pub current_row : HasRow g.current_edge_ids g.current_edge_count v current
  pub all_row : HasRow g.all_edge_ids g.all_edge_count v all

-- The other nodes have the same edges.
abbrev pub SameElsewhere : ℕ → DynamicGrid → DynamicGrid → Type 0
SameElsewhere v g g' =
    (w : ℕ)
    → v ≢ w
    → (get_current_edges g' w ≡ get_current_edges g w)
      × (get_current_edge_count g' w ≡ get_current_edge_count g w)
      × (get_all_edges g' w ≡ get_all_edges g w)
      × (get_all_edge_count g' w ≡ get_all_edge_count g w)

load-bound : {A : Type 0} (a : List A) (i : ℕ) {x : A} → load a i ≡ ok x → i < length a
load-bound a i {x} e = elim (Bool-cases (ltb i (length a))) [
  | inl inside ↦ ground arith
  | inr past ↦ absurd (let out = load-past a i (ground arith) in ground arith)
]

-- A row that is written with its count.
pub record Written (ids : List (Option (List Word32))) (counts : List ℕ) (v : ℕ) (a : List Word32)
    (n : ℕ) (xs : List Word32) : Type 0 where
  pub ids_stored : store ids v (some a) ≡ ok (set ids v (some a))
  pub count_stored : store counts v n ≡ ok (set counts v n)
  pub new_row : HasRow (set ids v (some a)) (set counts v n) v xs

pub write-Written :
    {ids : List (Option (List Word32))} {counts : List ℕ} {v : ℕ} {before : List Word32}
    (a : List Word32) (n : ℕ) (xs : List Word32)
    → HasRow ids counts v before
    → IsBuffer a n xs
    → 0 < length a
    → Written ids counts v a n xs
write-Written {ids} {counts} {v} a n xs h b cells =
    let in_ids = load-bound ids v h.row in
    let in_counts = load-bound counts v h.counted in
    record {
      ids_stored = store-ok ids v (some a) in_ids;
      count_stored = store-ok counts v n in_counts;
      new_row = record {
        array = a;
        count = n;
        row = load-set_same ids v (some a) in_ids;
        counted = load-set_same counts v n in_counts;
        buffer = b;
        can_grow = cells;
      };
    }

-- A row that can grow has room for one more id afterwards.
grow-room :
    {a : List Word32} {n : ℕ} {xs : List Word32}
    → IsBuffer a n xs
    → 0 < length a
    → IsBuffer (grow a n) n xs × (n < length (grow a n))
unfolding grow
grow-room {a} {n} {xs} b h = elim (Bool-cases (length a == n)) [
  | inl full ↦ rw full (
    IsBuffer-grow b (length a) 0,
    ground (
      arith,
      length-append a (replicate (length a) 0),
      length-replicate {A = Word32} (length a) 0,
    ),
  )
  | inr free ↦ rw free (b, ground (arith, IsBuffer-length b))
]

-- On a node with the current edges `current` and the edges `all`, in arrays that are not empty,
-- addEdge returns, also where an array has to grow first: the node has the new edge behind its
-- current edges and behind all its edges, and the other nodes have the same edges.
pub add_edge-HasEdges :
    {g : DynamicGrid} {v : ℕ} {current all : List Word32} (edge : Word32)
    → HasEdges g v current all
    → Returns
        (λ g'. HasEdges g' v (current ++ edge ∷ []) (all ++ edge ∷ []) × SameElsewhere v g g')
        (add_edge g v edge)
unfolding add_edge get_current_edges get_current_edge_count get_all_edges get_all_edge_count
add_edge-HasEdges {g} {v} {current} {all} edge h =
    let (b, free) = grow-room h.current_row.buffer h.current_row.can_grow in
    let (c, free') = grow-room h.all_row.buffer h.all_row.can_grow in
    let (a, stored, held) = Returns-inv (store-IsBuffer edge b free) in
    let (a', stored', held') = Returns-inv (store-IsBuffer edge c free') in
    let n = h.current_row.count + 1 in
    let m = h.all_row.count + 1 in
    let w =
      write-Written a n (current ++ edge ∷ []) h.current_row held
        (omega (arith, IsBuffer-length held)) in
    let w' =
      write-Written a' m (all ++ edge ∷ []) h.all_row held'
        (omega (arith, IsBuffer-length held')) in
    rw
      (
        h.current_row.row, h.current_row.counted, h.all_row.row, h.all_row.counted, stored,
        w.ids_stored, w.count_stored, stored', w'.ids_stored, w'.count_stored,
      )
      (returns (
        record { current_row = w.new_row; all_row = w'.new_row },
        λ u other. (
          load-set_other g.current_edge_ids v u (some a) other,
          load-set_other g.current_edge_count v u n other,
          load-set_other g.all_edge_ids v u (some a') other,
          load-set_other g.all_edge_count v u m other,
        ),
      ))
