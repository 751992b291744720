-- ===== src/LabelData/HublEdges/Shortcuts.antt =====
-- The shortcuts of the preprocessing as the router's edges give them back.
use fapra_osm_routing.Prelude.{
  ℕ, ◌+◌, ◌-◌, ◌*◌, ◌≡◌, refl, sym, ap, ◌∙◌, subst, List, [], ◌∷◌, ◌++◌, append_assoc, append-nil,
  map, map-append, length-map, Word32, Run, ok, ◌>>=◌, Returns, returns, Returns-map, Returns-bind,
  load, length, length-append, arith, get_elem?-append, true,
}
use fapra_osm_routing.Creation.Edges.{Edges, add_shortcut_edge}
use fapra_osm_routing.Creation.Edges.Shortcuts.{
  Shortcut, parts, length-parts, parts-append, Holds, add_shortcut_edge-Added,
}
use fapra_osm_routing.LabelData.HublEdges.{
  HublEdges, get_dest, get_dist, get_first_shortcut, get_second_shortcut, is_shortcut, initialize,
}
use fapra_osm_routing.LabelData.HublEdges.Initialize.{Mirrors, initialize-Mirrors}

load_entry :
    (xs : List Word32) (y : Word32) (ys : List Word32) (j : ℕ)
    → j ≡ length xs
    → load (xs ++ y ∷ ys) j ≡ ok y
load_entry xs y ys j k = rw (get_elem?-append xs y ys j k, load)

-- The parts of the shortcut `s` behind the shortcuts `p`.
pub Mirrors-parts :
    {e : Edges} {r : HublEdges} (p : List Shortcut) (s : Shortcut) (q : List Shortcut) (i : ℕ)
    → Mirrors e (p ++ s ∷ q) r
    → i ≡ e.num_of_original_edges + length p
    → (get_second_shortcut r i ≡ ok s.first) × (get_first_shortcut r i ≡ ok s.second)
unfolding get_second_shortcut get_first_shortcut
Mirrors-parts {e} {r} p s q i m at =
    let same : r.shortcut_parts ≡ parts p ++ s.first ∷ s.second ∷ parts q =
      m.halves ∙ parts-append p (s ∷ q) in
    let k : (i - r.first_shortcut_idx) * 2 ≡ length (parts p) =
      omega (arith, m.border, length-parts p) in
    (
      ap (λ t. load t ((i - r.first_shortcut_idx) * 2)) same
          ∙ load_entry (parts p) s.first (s.second ∷ parts q) ((i - r.first_shortcut_idx) * 2) k,
      ap (λ t. load t ((i - r.first_shortcut_idx) * 2 + 1))
            (same ∙ sym (append_assoc (parts p) (s.first ∷ []) (s.second ∷ parts q)))
          ∙ load_entry (parts p ++ s.first ∷ []) s.second (parts q)
              ((i - r.first_shortcut_idx) * 2 + 1)
              (omega (arith, k, length-append (parts p) (s.first ∷ []))),
    )

-- The destination and the distance of the same shortcut.
Mirrors-ends :
    {e : Edges} {r : HublEdges} (p : List Shortcut) (s : Shortcut) (q : List Shortcut) (i : ℕ)
    → Holds e (p ++ s ∷ q)
    → Mirrors e (p ++ s ∷ q) r
    → i ≡ e.num_of_original_edges + length p
    → (get_dest r i ≡ ok s.dest) × (get_dist r i ≡ ok s.dist)
unfolding get_dest get_dist
Mirrors-ends {e} {r} p s q i h m at = (
  behind (λ t. t.dest) e.original_edge_dest r.dest m.dests (omega (arith, h.full_dest)),
  behind (λ t. t.dist) e.original_edge_dist r.dist m.dists (omega (arith, h.full_dist)),
)
  where
    behind :
        (f : Shortcut → Word32) (original table : List Word32)
        → table ≡ original ++ map f (p ++ s ∷ q)
        → i ≡ length original + length p
        → load table i ≡ ok (f s)
    behind f original table same k =
        ap (λ t. load t i)
          (same
            ∙ ap (λ t. original ++ t) (map-append f p (s ∷ q))
            ∙ sym (append_assoc original (map f p) (f s ∷ map f q)))
        ∙ load_entry (original ++ map f p) (f s) (map f q) i
            (omega (arith, length-append original (map f p), length-map f p))

-- The calls of addShortcutEdge for some shortcuts, one after the other.
abbrev pub add_all : List Shortcut → Edges → Run Edges
add_all [] e = ok e
add_all (s ∷ ss) e = do
  (id, added) ← add_shortcut_edge e s.start s.dest s.dist s.first s.second
  add_all ss added

add_all-Holds :
    {e : Edges} {ss : List Shortcut} (ts : List Shortcut)
    → Holds e ss
    → Returns
        (λ r. Holds r (ss ++ ts) × (r.num_of_original_edges ≡ e.num_of_original_edges))
        (add_all ts e)
add_all-Holds {e} {ss} [] h = returns (subst (Holds e) (sym (append-nil ss)) h, refl)
add_all-Holds {e} {ss} (t ∷ ts) h =
    Returns-bind (add_shortcut_edge-Added t h) λ r (_, held, same, _, _).
      Returns-map (add_all-Holds ts held)
        λ u (held', same'). (subst (Holds u) (append_assoc ss (t ∷ []) ts) held', same' ∙ same)

-- The edge `i` of the router is the shortcut `s`: the second edge is what addShortcutEdge takes as
-- the first one used.
pub record IsCopy (s : Shortcut) (i : ℕ) (r : HublEdges) : Type 0 where
  pub compound : is_shortcut r i ≡ true
  pub to_dest : get_dest r i ≡ ok s.dest
  pub to_dist : get_dist r i ≡ ok s.dist
  pub second_part : get_second_shortcut r i ≡ ok s.first
  pub first_part : get_first_shortcut r i ≡ ok s.second

-- On edges that hold some shortcuts, addShortcutEdge of a shortcut, then of any further ones, and
-- then HubLEdges.initialize return, and in the router's edges the id that the first call returned
-- is a shortcut with the destination and the distance that this call was given; its
-- getSecondShortcut is the call's first edge, and its getFirstShortcut the call's second edge.
pub initialize-add_shortcut_edge :
    {e : Edges} {ss : List Shortcut} (s : Shortcut) (ts : List Shortcut)
    → Holds e ss
    → Returns
        (λ (i, r). IsCopy s i r)
        (do
          (i, added) ← add_shortcut_edge e s.start s.dest s.dist s.first s.second
          all ← add_all ts added
          r ← initialize all
          ok (i, r))
unfolding is_shortcut
initialize-add_shortcut_edge {e} {ss} s ts h =
    Returns-bind (add_shortcut_edge-Added s h) λ (i, added) (is_next, held, same, _, _).
      Returns-bind (add_all-Holds ts held) λ all (held', same').
        let whole = subst (Holds all) (append_assoc ss (s ∷ []) ts) held' in
        let at : i ≡ all.num_of_original_edges + length ss =
          omega (arith, is_next, h.next, same, same') in
        Returns-bind (initialize-Mirrors all (ss ++ s ∷ ts) whole) λ r m.
          let (second, first) = Mirrors-parts ss s ts i m at in
          let (dest, dist) = Mirrors-ends ss s ts i whole m at in
          returns (record {
            compound = ground (arith, m.border);
            to_dest = dest;
            to_dist = dist;
            second_part = second;
            first_part = first;
          })
