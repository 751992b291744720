-- ===== src/Router/Unpack/Layers.antt =====
-- What the shortcuts of the preprocessing stand for, and the routes that calculateRoute makes of
-- them.
use fapra_osm_routing.Prelude.{
  ℕ, suc, ◌+◌, ◌*◌, ◌≤◌, ◌<◌, ◌≡◌, refl, sym, ap, ◌∙◌, subst, List, [], ◌∷◌, ◌++◌, append_assoc,
  map, length, length-append, length-map, Word32, ◌>>=◌, Returns, Returns-bind, Returns-map, get_or,
  get_or-append_left, if◌then◌else◌, ◌==◌, arith, Bool-cases, inl, inr, All, All-append,
}
use fapra_osm_routing.Prelude.Ascending.{All-imply}
use fapra_osm_routing.Creation.Edges.{Edges}
use fapra_osm_routing.Creation.Edges.Shortcuts.{Shortcut, Holds}
use fapra_osm_routing.LabelData.HublEdges.{
  HublEdges, is_shortcut, get_first_shortcut, get_second_shortcut, initialize,
}
use fapra_osm_routing.LabelData.HublEdges.Initialize.{Mirrors, initialize-Mirrors}
use fapra_osm_routing.LabelData.HublEdges.Shortcuts.{Mirrors-parts}
use fapra_osm_routing.Router.Unpack.{Stacks, calculate_route}
use fapra_osm_routing.Router.Unpack.Original.{Unpacks, original, shortcut}
use fapra_osm_routing.Router.Unpack.Expand.{dest_of}
use fapra_osm_routing.Router.Unpack.Route.{UnpacksAll, Held, route_nodes, calculate_route-Held}

-- The shortcuts, of which the first has the id `n`, join edges that were there before them.
abbrev pub JoinOlder : ℕ → List Shortcut → Type 0
JoinOlder n [] = Unit
JoinOlder n (s ∷ ss) = (s.first < n) × (s.second < n) × JoinOlder (suc n) ss

-- The original edges that an edge stands for, where the shortcuts from the id `n` on are added to
-- edges of which `t` says what they stand for.
abbrev pub extended : ℕ → List Shortcut → (ℕ → List ℕ) → ℕ → List ℕ
extended n [] t = t
extended n (s ∷ ss) t = extended (suc n) ss (λ i. if i == n then t s.second ++ t s.first else t i)

-- The original edges that the edges stand for, one after the other; there are `n` original ones.
abbrev pub originals : ℕ → List Shortcut → List ℕ → List ℕ
originals n ss [] = []
originals n ss (i ∷ is) = extended n ss (λ j. j ∷ []) i ++ originals n ss is

module _ (e : Edges) (whole : List Shortcut) (r : HublEdges) (m : Mirrors e whole r) where
  -- In the router's edges, `es` are what the edge `i` stands for.
  abbrev StandsFor : ℕ → List ℕ → Type 0
  StandsFor i es =
      Unpacks r (get_first_shortcut r) (get_second_shortcut r) i es
      × All (λ j. j < e.num_of_original_edges) es

  StandsFor-new :
      (p : List Shortcut) (s : Shortcut) (q : List Shortcut) (i : ℕ) {ns fs : List ℕ}
      → p ++ s ∷ q ≡ whole
      → i ≡ e.num_of_original_edges + length p
      → StandsFor s.second ns
      → StandsFor s.first fs
      → StandsFor i (ns ++ fs)
  unfolding is_shortcut
  StandsFor-new p s q i {ns} {fs} eq at (u, known) (v, known') =
      let (second, first) = Mirrors-parts p s q i (subst (λ t. Mirrors e t r) (sym eq) m) at in
      (
        shortcut s.second s.first ns fs (ground (arith, m.border)) first second u v refl,
        All-append (λ j. j < e.num_of_original_edges) ns fs known known',
      )

  extended-StandsFor :
      (n : ℕ) (p q : List Shortcut) (t : ℕ → List ℕ)
      → p ++ q ≡ whole
      → n ≡ e.num_of_original_edges + length p
      → JoinOlder n q
      → ((i : ℕ) → i < n → StandsFor i (t i))
      → (i : ℕ) → i < n + length q
      → StandsFor i (extended n q t i)
  extended-StandsFor n p [] t eq at older stands i h = stands i (omega arith)
  extended-StandsFor n p (s ∷ q) t eq at (old_first, old_second, older) stands i h =
      extended-StandsFor (suc n) (p ++ s ∷ []) q _ (append_assoc p (s ∷ []) q ∙ eq)
        (omega (arith, at, length-append p (s ∷ []))) older
        (λ j below. elim (Bool-cases (j == n)) [
          | inl new ↦ rw new (
              StandsFor-new p s q j eq (ground (arith, at)) (stands s.second old_second)
                (stands s.first old_first))
          | inr old ↦ rw old (stands j (ground arith))
        ])
        i (omega arith)

  original-StandsFor : (i : ℕ) → i < e.num_of_original_edges → StandsFor i (i ∷ [])
  unfolding is_shortcut
  original-StandsFor i h = (original (ground (arith, m.border)) refl, (h, tt))

  originals-UnpacksAll :
      (is : List ℕ)
      → JoinOlder e.num_of_original_edges whole
      → All (λ i. i < e.num_of_original_edges + length whole) is
      → UnpacksAll r
          (get_first_shortcut r)
          (get_second_shortcut r)
          is
          (originals e.num_of_original_edges whole is)
        × All (λ j. j < e.num_of_original_edges) (originals e.num_of_original_edges whole is)
  originals-UnpacksAll [] older known = (refl, tt)
  originals-UnpacksAll (i ∷ is) older (h, known) =
      let n = e.num_of_original_edges in
      let (u, a) =
        extended-StandsFor n [] whole (λ j. j ∷ []) refl (omega arith) older original-StandsFor i
          h in
      let (us, b) = originals-UnpacksAll is older known in
      ((_, _, u, us, refl), All-append (λ j. j < n) _ _ a b)

-- The node that an original edge leads to.
abbrev pub original_dest : Edges → ℕ → Word32
original_dest e i = get_or e.original_edge_dest i 0

-- The router's edges lead to the same nodes.
map-dest_of :
    {e : Edges} {ss : List Shortcut} {r : HublEdges} (es : List ℕ)
    → Holds e ss
    → Mirrors e ss r
    → All (λ j. j < e.num_of_original_edges) es
    → map (dest_of r) es ≡ map (original_dest e) es
map-dest_of [] h m known = refl
map-dest_of {e} {ss} {r} (j ∷ es) h m (below, known) =
    let same =
      ap (λ t. get_or t j 0) m.dests
      ∙ get_or-append_left e.original_edge_dest (map (λ s. s.dest) ss) j 0
          (omega (arith, h.full_dest)) in
    rw (same, map-dest_of es h m known) refl

-- The nodes of the route over the original edges that `ls` and `rs` stand for.
abbrev pub unpacked_nodes : Edges → List Shortcut → Word32 → Word32 → List ℕ → List ℕ → List Word32
unpacked_nodes e ss start dest ls rs =
    route_nodes start dest (map (original_dest e) (originals e.num_of_original_edges ss ls))
      (map (original_dest e) (originals e.num_of_original_edges ss rs))

-- On edges that hold shortcuts, each of which joins edges that were there before it,
-- HubLEdges.initialize returns, and then calculateRoute returns for all known edges on the two
-- side stacks: the side stacks are empty, and resultNodes holds the nodes of the path over the
-- original edges that they stand for. The other stacks are empty before, and the fuel exceeds the
-- edges on either side and is at least twice the number of original edges on either side.
pub calculate_route-initialize :
    (e : Edges) (ss : List Shortcut) (start dest : Word32) (ls rs : List ℕ) (fuel : ℕ) (s : Stacks)
    → Holds e ss
    → JoinOlder e.num_of_original_edges ss
    → All (λ i. i < e.next_shortcut_id) ls
    → All (λ i. i < e.next_shortcut_id) rs
    → length ls < fuel
    → length rs < fuel
    → 2 * length (originals e.num_of_original_edges ss ls) ≤ fuel
    → 2 * length (originals e.num_of_original_edges ss rs) ≤ fuel
    → Held s ls rs []
    → Returns
        (λ t. Held t [] [] (unpacked_nodes e ss start dest ls rs))
        (initialize e >>= λ r. calculate_route r fuel start dest s)
calculate_route-initialize e ss start dest ls rs fuel s h older kl kr f f' g g' held =
    let n = e.num_of_original_edges in
    Returns-bind (initialize-Mirrors e ss h) λ r m.
      let known = λ (is : List ℕ). subst (λ k. All (λ i. i < k) is) h.next in
      let (us, a) = originals-UnpacksAll e ss r m ls older (known ls kl) in
      let (vs, b) = originals-UnpacksAll e ss r m rs older (known rs kr) in
      let total : length r.dest ≡ n + length ss = omega (
        arith,
        ap length m.dests,
        length-append e.original_edge_dest (map (λ s. s.dest) ss),
        length-map (λ s. s.dest) ss,
        h.full_dest,
      ) in
      let within = λ (es : List ℕ).
        All-imply {P = λ j. j < n} {Q = λ j. j < length r.dest} es (λ j low. omega arith) in
      Returns-map
        (calculate_route-Held r start dest ls rs (originals n ss ls) (originals n ss rs) fuel s us
          vs (within (originals n ss ls) a) (within (originals n ss rs) b) f f' g g' held)
        λ t done.
          rw
            (
              sym (map-dest_of (originals n ss ls) h m a),
              sym (map-dest_of (originals n ss rs) h m b),
            )
            done
