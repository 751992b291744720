-- ===== src/Creation/Edges/Shortcuts.antt =====
-- The shortcuts that Edges holds.
use fapra_osm_routing.Prelude.{
  ℕ, ◌+◌, ◌-◌, ◌*◌, ◌/◌, ◌≤◌, ◌<◌, ◌≡◌, refl, sym, ap, ◌∙◌, List, [], ◌∷◌, ◌++◌, append_assoc, map,
  map-append, Word32, Returns, returns, Returns-bind, load, get_elem?-append_left,
  get_elem?-append_right, if◌then◌else◌, length, length-append, length-replicate, replicate, ltb,
  leb, arith, copy_of, copy_to-copy_of, Bool-cases, inl, inr,
}
use fapra_osm_routing.Prelude.Buffer.{
  IsBuffer, IsBuffer-length, IsBuffer-grow, IsBuffer-cast, store_in_place,
}
use fapra_osm_routing.Creation.Edges.{
  Edges, get_dest, get_dist, initialize_for_shortcut_edges, grow, put, add_shortcut_edge,
}

pub record Shortcut : Type 0 where
  pub start : Word32
  pub dest : Word32
  pub dist : Word32
  pub first : Word32
  pub second : Word32

-- The entries of shortcutEdgeParts.
abbrev pub parts : List Shortcut → List Word32
parts [] = []
parts (s ∷ ss) = s.first ∷ s.second ∷ parts ss

pub parts-append : (ss ts : List Shortcut) → parts (ss ++ ts) ≡ parts ss ++ parts ts
parts-append [] ts = refl
parts-append (s ∷ ss) ts = ap (λ t. s.first ∷ s.second ∷ t) (parts-append ss ts)

pub length-parts : (ss : List Shortcut) → length (parts ss) ≡ length ss * 2
length-parts [] = refl
length-parts (s ∷ ss) = omega (arith, length-parts ss)

-- The state holds the shortcuts `ss`, the oldest first, over original edges whose arrays are full.
pub record Holds (e : Edges) (ss : List Shortcut) : Type 0 where
  pub starts : IsBuffer e.shortcut_edge_start (length ss) (map (λ s. s.start) ss)
  pub dests : IsBuffer e.shortcut_edge_dest (length ss) (map (λ s. s.dest) ss)
  pub dists : IsBuffer e.shortcut_edge_dist (length ss) (map (λ s. s.dist) ss)
  pub halves : IsBuffer e.shortcut_edge_parts (length ss * 2) (parts ss)
  pub next : e.next_shortcut_id ≡ e.num_of_original_edges + length ss
  pub same_start : length e.shortcut_edge_start ≡ length e.shortcut_edge_dist
  pub same_dest : length e.shortcut_edge_dest ≡ length e.shortcut_edge_dist
  pub twice : length e.shortcut_edge_parts ≡ length e.shortcut_edge_dist * 2
  pub grows : 0 < e.shortcut_edge_size_increase
  pub full_dest : length e.original_edge_dest ≡ e.num_of_original_edges
  pub full_dist : length e.original_edge_dist ≡ e.num_of_original_edges

-- The state that initializeForShortcutEdges leaves holds no shortcut; with fewer than two
-- original edges it could not grow.
pub initialize-Holds :
    (e : Edges) (n : ℕ)
    → 2 ≤ n
    → length e.original_edge_dest ≡ n
    → length e.original_edge_dist ≡ n
    → Holds (initialize_for_shortcut_edges e n) []
unfolding initialize_for_shortcut_edges
initialize-Holds e n h p q =
    let size = length-replicate {A = Word32} (n / 2) 0 in
    record {
      starts = record { spare = _; stored = refl; counted = refl };
      dests = record { spare = _; stored = refl; counted = refl };
      dists = record { spare = _; stored = refl; counted = refl };
      halves = record { spare = _; stored = refl; counted = refl };
      next = omega arith;
      same_start = refl;
      same_dest = refl;
      twice = omega (arith, length-replicate {A = Word32} (n / 2 * 2) 0);
      grows = omega arith;
      full_dest = p;
      full_dist = q;
    }

length-copy : (a : List Word32) (n : ℕ) → length (a ++ replicate n 0) ≡ length a + n
length-copy a n = omega (arith, length-append a (replicate n 0), length-replicate {A = Word32} n 0)

-- The arrays after grow, where they had room for the same shortcuts before.
abbrev grown : Edges → Edges
grown e = record e {
  shortcut_edge_start = copy_of e.shortcut_edge_start e.shortcut_edge_size_increase 0;
  shortcut_edge_dest = copy_of e.shortcut_edge_dest e.shortcut_edge_size_increase 0;
  shortcut_edge_dist = copy_of e.shortcut_edge_dist e.shortcut_edge_size_increase 0;
  shortcut_edge_parts = copy_of e.shortcut_edge_parts (e.shortcut_edge_size_increase * 2) 0;
}

grown-Holds : {e : Edges} {ss : List Shortcut} → Holds e ss → Holds (grown e) ss
grown-Holds {e} {ss} h =
    let n = e.shortcut_edge_size_increase in
    record {
      starts = IsBuffer-grow h.starts n 0;
      dests = IsBuffer-grow h.dests n 0;
      dists = IsBuffer-grow h.dists n 0;
      halves = IsBuffer-grow h.halves (n * 2) 0;
      next = h.next;
      same_start = omega (
        arith,
        length-copy e.shortcut_edge_start n,
        length-copy e.shortcut_edge_dist n,
        h.same_start,
      );
      same_dest = omega (
        arith,
        length-copy e.shortcut_edge_dest n,
        length-copy e.shortcut_edge_dist n,
        h.same_dest,
      );
      twice = omega (
        arith,
        length-copy e.shortcut_edge_parts (n * 2),
        length-copy e.shortcut_edge_dist n,
        h.twice,
      );
      grows = h.grows;
      full_dest = h.full_dest;
      full_dist = h.full_dist;
    }

grow-Holds : {e : Edges} {ss : List Shortcut} → Holds e ss → Holds (grow e) ss
unfolding grow
grow-Holds {e} h =
    let n = e.shortcut_edge_size_increase in
    let new_len = length e.shortcut_edge_dist + n in
    rw
      (
        copy_to-copy_of e.shortcut_edge_start n new_len 0 (omega (arith, h.same_start)),
        copy_to-copy_of e.shortcut_edge_dest n new_len 0 (omega (arith, h.same_dest)),
        copy_to-copy_of e.shortcut_edge_dist n new_len 0 refl,
        copy_to-copy_of e.shortcut_edge_parts (n * 2) (new_len * 2) 0 (omega (arith, h.twice)),
      )
      (grown-Holds h)

length-grow :
    {e : Edges} {ss : List Shortcut}
    → Holds e ss
    → length (grow e).shortcut_edge_dist
      ≡ length e.shortcut_edge_dist + e.shortcut_edge_size_increase
unfolding grow
length-grow {e} h =
    let n = e.shortcut_edge_size_increase in
    rw (copy_to-copy_of e.shortcut_edge_dist n (length e.shortcut_edge_dist + n) 0 refl)
      (length-copy e.shortcut_edge_dist n)

-- The new id, and the state with the new shortcut behind the old ones.
abbrev pub Added : Edges → List Shortcut → Shortcut → ℕ × Edges → Type 0
Added e ss s r =
    (r.0 ≡ e.next_shortcut_id)
    × Holds r.1 (ss ++ s ∷ [])
    × (r.1.num_of_original_edges ≡ e.num_of_original_edges)
    × (r.1.original_edge_dest ≡ e.original_edge_dest)
    × (r.1.original_edge_dist ≡ e.original_edge_dist)

put-Added :
    {e : Edges} {ss : List Shortcut} (s : Shortcut)
    → Holds e ss
    → length ss < length e.shortcut_edge_dist
    → Returns (Added e ss s) (put e s.start s.dest s.dist s.first s.second)
unfolding put
put-Added {e} {ss} s h room =
    let n = length ss in
    let size : length (ss ++ s ∷ []) ≡ n + 1 = length-append ss (s ∷ []) in
    let position : e.next_shortcut_id - e.num_of_original_edges ≡ n = omega (arith, h.next) in
    rw position (
      Returns-bind (store_in_place s.start h.starts (omega (arith, h.same_start)))
        λ starts (starts', l₁).
          Returns-bind (store_in_place s.dest h.dests (omega (arith, h.same_dest)))
            λ dests (dests', l₂).
              Returns-bind (store_in_place s.dist h.dists room) λ dists (dists', l₃).
                Returns-bind (store_in_place s.first h.halves (omega (arith, h.twice)))
                  λ half (half', l₄).
                    Returns-bind (store_in_place s.second half' (omega (arith, h.twice)))
                      λ full (full', l₅). returns (
                        refl,
                        record {
                          starts =
                              IsBuffer-cast _ _ starts' (sym size) (sym (map-append _ ss (s ∷ [])));
                          dests =
                              IsBuffer-cast _ _ dests' (sym size) (sym (map-append _ ss (s ∷ [])));
                          dists =
                              IsBuffer-cast _ _ dists' (sym size) (sym (map-append _ ss (s ∷ [])));
                          halves = IsBuffer-cast _ _ full' (omega (arith, size)) (
                              append_assoc (parts ss) (s.first ∷ []) (s.second ∷ [])
                              ∙ sym (parts-append ss (s ∷ [])));
                          next = omega (arith, h.next, size);
                          same_start = omega (arith, h.same_start);
                          same_dest = omega (arith, h.same_dest);
                          twice = omega (arith, h.twice);
                          grows = h.grows;
                          full_dest = h.full_dest;
                          full_dist = h.full_dist;
                        },
                        refl,
                        refl,
                        refl,
                      ))

-- On a state that holds the shortcuts `ss`, addShortcutEdge returns the next id, also where the
-- arrays have to grow first; the new state holds `ss` and behind them the new shortcut, and has
-- the same original edges.
pub add_shortcut_edge-Added :
    {e : Edges} {ss : List Shortcut} (s : Shortcut)
    → Holds e ss
    → Returns (Added e ss s) (add_shortcut_edge e s.start s.dest s.dist s.first s.second)
unfolding add_shortcut_edge
add_shortcut_edge-Added {e} {ss} s h =
    elim (Bool-cases
      (leb (length e.shortcut_edge_dist) (e.next_shortcut_id - e.num_of_original_edges))) [
        | inl full ↦ rw full (
            put-Added {e = grow e} s (grow-Holds h)
              (ground (arith, h.next, h.grows, length-grow h, IsBuffer-length h.dists)))
        | inr free ↦ rw free (put-Added s h (ground (arith, h.next)))
      ]

load-prefix : (xs ys : List Word32) (i : ℕ) → i < length xs → load (xs ++ ys) i ≡ load xs i
load-prefix xs ys i h = rw (get_elem?-append_left xs ys i h, load)

load-suffix : (xs ys : List Word32) (i j : ℕ) → i ≡ length xs + j → load (xs ++ ys) i ≡ load ys j
load-suffix xs ys i j h = rw (get_elem?-append_right xs ys i j h, load)

-- One array of each kind, split at `n` as getDest and getDist split it.
load_split :
    (original shortcuts full : List Word32) (n i k : ℕ)
    → length original ≡ n
    → IsBuffer full k shortcuts
    → i < n + k
    → (if ltb i n then load original i else load full (i - n)) ≡ load (original ++ shortcuts) i
load_split original shortcuts full n i k size b h = elim (Bool-cases (ltb i n)) [
  | inl old ↦ rw old (sym (load-prefix original shortcuts i (ground arith)))
  | inr new ↦
      let j = i - n in
      let at : i ≡ length original + j = ground arith in
      rw new (
        ap (λ t. load t j) b.stored
        ∙ load-prefix shortcuts b.spare j (omega (arith, b.counted))
        ∙ sym (load-suffix original shortcuts i j at))
]

module _ {e : Edges} {ss : List Shortcut} (h : Holds e ss) (i : ℕ)
    (known : i < e.next_shortcut_id) where
  -- getDest reads the original destinations and, behind them, those of the shortcuts.
  pub get_dest-Holds : get_dest e i ≡ load (e.original_edge_dest ++ map (λ s. s.dest) ss) i
  unfolding get_dest
  get_dest-Holds =
      load_split e.original_edge_dest (map (λ s. s.dest) ss) e.shortcut_edge_dest
        e.num_of_original_edges i (length ss) h.full_dest h.dests (omega (arith, h.next))

  -- getDist reads the original distances and, behind them, those of the shortcuts.
  pub get_dist-Holds : get_dist e i ≡ load (e.original_edge_dist ++ map (λ s. s.dist) ss) i
  unfolding get_dist
  get_dist-Holds =
      load_split e.original_edge_dist (map (λ s. s.dist) ss) e.shortcut_edge_dist
        e.num_of_original_edges i (length ss) h.full_dist h.dists (omega (arith, h.next))
