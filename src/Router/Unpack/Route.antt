-- ===== src/Router/Unpack/Route.antt =====
-- The nodes that calculateRoute puts together from both sides.
use mathlib.Core.List.{reverse, reverse-append, reverse-reverse}
use fapra_osm_routing.Prelude.{
  ℕ, zero, suc, ◌*◌, ◌≤◌, ◌<◌, ◌≡◌, refl, sym, ap, ◌∙◌, subst, List, [], ◌∷◌, ◌++◌, map, map-append,
  append_assoc, append-nil, length, length-append, Word32, Run, Returns, Returns-inv, Returns-bind,
  Returns-map, returns, false, arith, All, All-split, All-append,
}
use fapra_osm_routing.Utils.IntStack.{is_empty}
use fapra_osm_routing.Utils.IntStack.Deque.{
  Holds, push-Holds, pop-Holds, pop_fifo-Holds, is_empty_iff,
}
use fapra_osm_routing.LabelData.HublEdges.{HublEdges, get_first_shortcut, get_second_shortcut}
use fapra_osm_routing.Router.Unpack.{Stacks, unpack_left, unpack_right, calculate_route}
use fapra_osm_routing.Router.Unpack.Original.{Unpacks, Unpacks-reverse}
use fapra_osm_routing.Router.Unpack.Expand.{dest_of, expand-Holds, Holds-nonempty, Holds-cons}

-- The edges `is`, one after the other, stand for the original edges `es`.
abbrev pub UnpacksAll : (e : HublEdges) (near far : ℕ → Run Word32) → List ℕ → List ℕ → Type 0
UnpacksAll e near far [] es = es ≡ []
UnpacksAll e near far (i ∷ is) es =
    (fs : List ℕ) × (gs : List ℕ) × Unpacks e near far i fs
    × UnpacksAll e near far is gs
    × (es ≡ fs ++ gs)

module _ (e : HublEdges) (near far : ℕ → Run Word32) where
  UnpacksAll-append :
      (is es js fs : List ℕ)
      → UnpacksAll e near far is es
      → UnpacksAll e near far js fs
      → UnpacksAll e near far (is ++ js) (es ++ fs)
  UnpacksAll-append [] es js fs p q = rw p q
  UnpacksAll-append (i ∷ is) es js fs (gs, hs, u, p, h) q = (
    gs,
    hs ++ fs,
    u,
    UnpacksAll-append is hs js fs p q,
    ap (λ t. t ++ fs) h ∙ append_assoc gs hs fs,
  )

reverse-cons : (x : ℕ) (xs : List ℕ) → reverse (x ∷ xs) ≡ reverse xs ++ x ∷ []
reverse-cons x xs = reverse-append (x ∷ []) xs

UnpacksAll-reverse :
    (e : HublEdges) (near far : ℕ → Run Word32) (is es : List ℕ)
    → UnpacksAll e near far is es
    → UnpacksAll e far near (reverse is) (reverse es)
UnpacksAll-reverse e near far [] es p = ap reverse p
UnpacksAll-reverse e near far (i ∷ is) es (fs, gs, u, p, h) =
    rw (reverse-cons i is, h, reverse-append fs gs)
      (UnpacksAll-append e far near (reverse is) (reverse gs) (i ∷ []) (reverse fs)
        (UnpacksAll-reverse e near far is gs p)
        (reverse fs, [], Unpacks-reverse u, refl, sym (append-nil (reverse fs))))

pub length-reverse : (xs : List ℕ) → length (reverse xs) ≡ length xs
length-reverse [] = refl
length-reverse (x ∷ xs) =
    omega
      (arith, ap length (reverse-cons x xs), length-append (reverse xs) (x ∷ []), length-reverse xs)

All-reverse {κ} : (P : ℕ → Type κ) (xs : List ℕ) → All P xs → All P (reverse xs)
All-reverse P [] h = tt
All-reverse P (x ∷ xs) h =
    rw (reverse-cons x xs) (All-append P (reverse xs) (x ∷ []) (All-reverse P xs h.1) (h.0, tt))

-- What the stacks hold; the auxiliary one is empty between the rounds.
pub record Held (s : Stacks) (left right nodes : List ℕ) : Type 0 where
  pub on_left : Holds s.edges_left left
  pub on_right : Holds s.edges_right right
  pub on_result : Holds s.result_nodes nodes
  pub on_calc : Holds s.edge_calc_stack []

module _ (e : HublEdges) where
  abbrev IsKnown : List ℕ → Type 0
  IsKnown es = All (λ j. j < length e.dest) es

  abbrev nodes_of : List ℕ → List Word32
  nodes_of es = map (dest_of e) es

  joined :
      (nodes : List Word32) (es fs gs : List ℕ)
      → es ≡ fs ++ gs
      → (nodes ++ nodes_of fs) ++ nodes_of gs ≡ nodes ++ nodes_of es
  joined nodes es fs gs h =
      append_assoc nodes (nodes_of fs) (nodes_of gs)
      ∙ ap (λ t. nodes ++ t) (sym (map-append (dest_of e) fs gs) ∙ ap (map (dest_of e)) (sym h))

  unpack_left-Held :
      (is es : List ℕ) (fuel inner : ℕ) (s : Stacks) (right nodes : List ℕ)
      → UnpacksAll e (get_first_shortcut e) (get_second_shortcut e) is es
      → IsKnown es
      → length is < fuel
      → 2 * length es ≤ inner
      → Held s is right nodes
      → Returns (λ t. Held t [] right (nodes ++ nodes_of es)) (unpack_left e fuel inner s)
  unfolding unpack_left
  unpack_left-Held is es zero inner s right nodes u k f g h = absurd (omega arith)
  unpack_left-Held [] es (suc fuel) inner s right nodes u k f g h =
      rw ((is_empty_iff h.on_left).1 refl) (
        returns (record {
          on_left = h.on_left;
          on_right = h.on_right;
          on_result =
              subst (Holds s.result_nodes)
                (sym (ap (λ t. nodes ++ nodes_of t) u ∙ append-nil nodes)) h.on_result;
          on_calc = h.on_calc;
        }))
  unpack_left-Held (i ∷ is) es (suc fuel) inner s right nodes (fs, gs, u, us, eq) k f g h =
      let (known, known') = All-split (λ j. j < length e.dest) fs gs (subst IsKnown eq k) in
      let size = length-append fs gs in
      let (r, popped, (same, hl)) = Returns-inv (pop_fifo-Holds i h.on_left) in
      let (calc, pushed, hc) = Returns-inv (push-Holds i h.on_calc) in
      let (x, expanded, (hc', hr)) = Returns-inv (
        expand-Holds e (get_first_shortcut e) (get_second_shortcut e) inner nodes u known
          (omega (arith, ap length eq)) hc h.on_result) in
      let more : is_empty s.edges_left ≡ false = Holds-cons i is h.on_left in
      rw (more, popped, same, pushed, expanded)
        (Returns-map
          (unpack_left-Held is gs fuel inner
            (record s { result_nodes = x.1; edges_left = r.1; edge_calc_stack = x.0 }) right
            (nodes ++ nodes_of fs) us known' (omega arith) (omega (arith, ap length eq))
            (record { on_left = hl; on_right = h.on_right; on_result = hr; on_calc = hc' }))
          λ t. subst (Held t [] right) (joined nodes es fs gs eq))

  unpack_right-Held :
      (is es : List ℕ) (fuel inner : ℕ) (s : Stacks) (left nodes : List ℕ)
      → UnpacksAll e (get_second_shortcut e) (get_first_shortcut e) is es
      → IsKnown es
      → length is < fuel
      → 2 * length es ≤ inner
      → Held s left (reverse is) nodes
      → Returns (λ t. Held t left [] (nodes ++ nodes_of es)) (unpack_right e fuel inner s)
  unfolding unpack_right
  unpack_right-Held is es zero inner s left nodes u k f g h = absurd (omega arith)
  unpack_right-Held [] es (suc fuel) inner s left nodes u k f g h =
      rw ((is_empty_iff h.on_right).1 refl) (
        returns (record {
          on_left = h.on_left;
          on_right = h.on_right;
          on_result =
              subst (Holds s.result_nodes)
                (sym (ap (λ t. nodes ++ nodes_of t) u ∙ append-nil nodes)) h.on_result;
          on_calc = h.on_calc;
        }))
  unpack_right-Held (i ∷ is) es (suc fuel) inner s left nodes (fs, gs, u, us, eq) k f g h =
      let (known, known') = All-split (λ j. j < length e.dest) fs gs (subst IsKnown eq k) in
      let size = length-append fs gs in
      let on_right = subst (Holds s.edges_right) (reverse-cons i is) h.on_right in
      let (r, popped, (same, hl)) = Returns-inv (pop-Holds (reverse is) i on_right) in
      let (calc, pushed, hc) = Returns-inv (push-Holds i h.on_calc) in
      let (x, expanded, (hc', hr)) = Returns-inv (
        expand-Holds e (get_second_shortcut e) (get_first_shortcut e) inner nodes u known
          (omega (arith, ap length eq)) hc h.on_result) in
      rw (Holds-nonempty (reverse is) i on_right, popped, same, pushed, expanded)
        (Returns-map
          (unpack_right-Held is gs fuel inner
            (record s { result_nodes = x.1; edges_right = r.1; edge_calc_stack = x.0 }) left
            (nodes ++ nodes_of fs) us known' (omega arith) (omega (arith, ap length eq))
            (record { on_left = h.on_left; on_right = hl; on_result = hr; on_calc = hc' }))
          λ t. subst (Held t left []) (joined nodes es fs gs eq))

-- All entries but the last.
abbrev pub without_last : List Word32 → List Word32
without_last [] = []
without_last (x ∷ []) = []
without_last (x ∷ y ∷ ys) = x ∷ without_last (y ∷ ys)

without_last-snoc :
    (x : Word32) (xs : List Word32) → (l : Word32) × (x ∷ xs ≡ without_last (x ∷ xs) ++ l ∷ [])
without_last-snoc x [] = (x, refl)
without_last-snoc x (y ∷ ys) = let (l, e) = without_last-snoc y ys in (l, ap (◌∷◌ x) e)

-- The nodes of a path: from `start` to where the sides meet, and back along the right side.
abbrev pub route_nodes : Word32 → Word32 → List Word32 → List Word32 → List Word32
route_nodes start dest left right = (without_last (start ∷ left) ++ reverse right) ++ dest ∷ []

map-reverse : (f : ℕ → Word32) (xs : List ℕ) → map f (reverse xs) ≡ reverse (map f xs)
map-reverse f [] = refl
map-reverse f (x ∷ xs) =
    ap (map f) (reverse-cons x xs)
    ∙ map-append f (reverse xs) (x ∷ [])
    ∙ ap (λ t. t ++ f x ∷ []) (map-reverse f xs)
    ∙ sym (reverse-cons (f x) (map f xs))

-- Where the edges on the two side stacks unpack, through the shortcuts' parts, into known original
-- edges `es` and `fs`, the fuel covers them, and the other stacks are empty, calculateRoute
-- returns with the side stacks empty and with the nodes of the path on resultNodes: the start, the
-- nodes that `es` lead to but for the last, those that `fs` lead to in reverse order, and the
-- destination.
pub calculate_route-Held :
    (e : HublEdges) (start dest : Word32) (ls rs es fs : List ℕ) (fuel : ℕ) (s : Stacks)
    → UnpacksAll e (get_first_shortcut e) (get_second_shortcut e) ls es
    → UnpacksAll e (get_first_shortcut e) (get_second_shortcut e) rs fs
    → All (λ j. j < length e.dest) es
    → All (λ j. j < length e.dest) fs
    → length ls < fuel
    → length rs < fuel
    → 2 * length es ≤ fuel
    → 2 * length fs ≤ fuel
    → Held s ls rs []
    → Returns
        (λ t. Held t [] [] (route_nodes start dest (map (dest_of e) es) (map (dest_of e) fs)))
        (calculate_route e fuel start dest s)
unfolding calculate_route
calculate_route-Held e start dest ls rs es fs fuel s ul ur kl kr f f' g g' h =
    let (l, snoc) = without_last-snoc start (map (dest_of e) es) in
    let front = without_last (start ∷ map (dest_of e) es) in
    Returns-bind (push-Holds start h.on_result) λ pushed h₁.
      Returns-bind
        (unpack_left-Held e ls es fuel fuel (record s { result_nodes = pushed }) rs (start ∷ []) ul
          kl f g
          (record {
            on_left = h.on_left;
            on_right = h.on_right;
            on_result = h₁;
            on_calc = h.on_calc;
          }))
        λ t h₂.
          Returns-bind (pop-Holds front l (subst (Holds t.result_nodes) snoc h₂.on_result))
            λ r (_, h₃).
              Returns-bind
                (unpack_right-Held e (reverse rs) (reverse fs) fuel fuel
                  (record t { result_nodes = r.1 }) [] front
                  (UnpacksAll-reverse e (get_first_shortcut e) (get_second_shortcut e) rs fs ur)
                  (All-reverse (λ j. j < length e.dest) fs kr) (omega (arith, length-reverse rs))
                  (omega (arith, length-reverse fs))
                  (record {
                    on_left = h₂.on_left;
                    on_right = subst (Holds t.edges_right) (sym (reverse-reverse rs)) h₂.on_right;
                    on_result = h₃;
                    on_calc = h₂.on_calc;
                  }))
                λ u h₄. Returns-bind (push-Holds dest h₄.on_result) λ finished h₅. returns (record {
                  on_left = h₄.on_left;
                  on_right = h₄.on_right;
                  on_result =
                      subst (λ t. Holds finished ((front ++ t) ++ dest ∷ []))
                        (map-reverse (dest_of e) fs) h₅;
                  on_calc = h₄.on_calc;
                })
