-- ===== src/Router/TwoLabels/Shortest.antt =====
-- What route2Lbl returns.
use mathlib.Core.List.{reverse}
use fapra_osm_routing.Prelude.{
  ℕ, zero, suc, ◌+◌, ◌*◌, ◌≤◌, ◌<◌, ◌≡◌, ◌≢◌, ◌⊎◌, inl, inr, refl, ap, sym, ◌∙◌, subst, List, [],
  ◌∷◌, ◌++◌, map, length, length-append, length-map, get_or, All, Word32, Option, none, some,
  Returns, Returns-inv, Returns-map, Returns-bind, returns, ◌==◌, ◌||◌, true, false, Bool-cases,
  arith, minus_one,
}
use fapra_osm_routing.Utils.IntStack.{IntStack}
use fapra_osm_routing.Utils.IntStack.Deque.{Holds, pop_fifo-Holds, is_empty_iff}
use fapra_osm_routing.LabelData.HublEdges.{HublEdges, get_first_shortcut, get_second_shortcut}
use fapra_osm_routing.LabelData.HublNodes.{HublNodes}
use fapra_osm_routing.Router.BestLabel.{Meet}
use fapra_osm_routing.Router.BestLabel.Least.{IsMeet, best_common_label-IsBest}
use fapra_osm_routing.Router.Unpack.{Stacks}
use fapra_osm_routing.Router.Unpack.Expand.{dest_of, Holds-cons}
use fapra_osm_routing.Router.Unpack.Route.{
  UnpacksAll, Held, route_nodes, without_last, length-reverse, calculate_route-Held,
}
use fapra_osm_routing.Router.TwoLabels.{RoutingResult, drain, path_over, over_meet, route_2_lbl}
use fapra_osm_routing.Router.TwoLabels.Climb.{HasLabels, labels_of, Climbs, side_edges-Holds}

pub drain-Holds :
    (fuel : ℕ) (xs : List Word32) {s : IntStack}
    → length xs < fuel
    → Holds s xs
    → Returns (λ r. (r.0 ≡ xs) × Holds r.1 []) (drain fuel s)
unfolding drain
drain-Holds zero xs f h = absurd (omega arith)
drain-Holds (suc fuel) [] f h = rw ((is_empty_iff h).1 refl) (returns (refl, h))
drain-Holds (suc fuel) (x ∷ xs) {s} f h =
    let (r, popped, (same, held)) = Returns-inv (pop_fifo-Holds x h) in
    rw (Holds-cons x xs h, popped)
      (Returns-bind (drain-Holds fuel xs (omega arith) held)
        λ u (rest, empty). returns (ap (λ t. t ∷ u.0) same ∙ ap (◌∷◌ x) rest, empty))

length-without_last : (x : Word32) (xs : List Word32) → length (without_last (x ∷ xs)) ≡ length xs
length-without_last x [] = refl
length-without_last x (y ∷ ys) = ap suc (length-without_last y ys)

-- The edges from the node `v` up to `highest`: the labels' edges, the original edges that they
-- stand for, and fuel for both.
pub record Leads (n : HublNodes) (e : HublEdges) (fuel : ℕ) (v : ℕ) (highest : Word32)
    : Type 0 where
  pub label_edges : List ℕ
  pub edges : List ℕ
  pub climbs : Climbs n e highest v label_edges
  pub unpacks : UnpacksAll e (get_first_shortcut e) (get_second_shortcut e) label_edges edges
  pub known : All (λ j. j < length e.dest) edges
  pub enough_climb : length label_edges < fuel
  pub enough_unpack : 2 * length edges + 2 ≤ fuel

-- The nodes that the original edges lead to.
abbrev pub nodes_over :
    {n : HublNodes} {e : HublEdges} {fuel v : ℕ} {highest : Word32}
    → Leads n e fuel v highest
    → List Word32
nodes_over {e = e} l = map (dest_of e) l.edges

-- The labels as the arrays hold them.
abbrev pub node_at : HublNodes → ℕ → Word32
node_at n i = get_or n.label_node i 0

abbrev pub dist_at : HublNodes → ℕ → Word32
dist_at n i = get_or n.label_dist i 0

module _ (n : HublNodes) (e : HublEdges) (fuel start_id dest_id a₀ a₁ b₀ b₁ : ℕ) where
  -- The path runs over the label of least distance that both nodes have.
  pub record Shortest (r : RoutingResult) : Type 0 where
    pub idx_a : ℕ
    pub idx_b : ℕ
    pub in_a : (a₀ ≤ idx_a) × (idx_a < a₁)
    pub in_b : (b₀ ≤ idx_b) × (idx_b < b₁)
    pub highest : Word32
    pub at_a : node_at n idx_a ≡ highest
    pub at_b : node_at n idx_b ≡ highest
    pub found : r.route_found ≡ true
    pub distance : r.overall_distance ≡ dist_at n idx_a + dist_at n idx_b
    pub least :
        (k l : ℕ)
        → a₀ ≤ k
        → k < a₁
        → b₀ ≤ l
        → l < b₁
        → node_at n k ≡ node_at n l
        → r.overall_distance ≤ dist_at n k + dist_at n l
    pub left : Leads n e fuel start_id highest
    pub right : Leads n e fuel dest_id highest
    pub path : r.path ≡ route_nodes start_id dest_id (nodes_over left) (nodes_over right)

  -- No route is reported only where the nodes have no label in common.
  abbrev pub NoCommon : RoutingResult → Type 0
  NoCommon r =
      (r.route_found ≡ false)
      × ((k l : ℕ) → a₀ ≤ k → k < a₁ → b₀ ≤ l → l < b₁ → node_at n k ≢ node_at n l)

  module _ (s : Stacks) (m : Meet) (left : Leads n e fuel start_id m.node)
      (right : Leads n e fuel dest_id m.node) where
    abbrev nodes : List Word32
    nodes = route_nodes start_id dest_id (nodes_over left) (nodes_over right)

    length-nodes : length nodes < fuel
    length-nodes = omega (
      arith,
      left.enough_unpack,
      right.enough_unpack,
      length-append (without_last (start_id ∷ nodes_over left) ++ reverse (nodes_over right))
          (dest_id ∷ []),
      length-append (without_last (start_id ∷ nodes_over left)) (reverse (nodes_over right)),
      length-without_last start_id (nodes_over left),
      length-reverse (nodes_over right),
      length-map (dest_of e) left.edges,
      length-map (dest_of e) right.edges,
    )

    path_over-nodes :
        (d : Word32)
        → HasLabels n start_id a₀ a₁
        → HasLabels n dest_id b₀ b₁
        → (a₀ ≤ m.idx_a) × (m.idx_a < a₁)
        → (b₀ ≤ m.idx_b) × (m.idx_b < b₁)
        → node_at n m.idx_a ≡ m.node
        → node_at n m.idx_b ≡ m.node
        → Held s [] [] []
        → Returns
            (λ r.
              (r.0.path ≡ nodes)
              × (r.0.overall_distance ≡ d)
              × (r.0.route_found ≡ true)
              × Held r.1 [] [] [])
            (path_over n e fuel start_id dest_id s m d)
    unfolding path_over
    path_over-nodes d la lb (p, p') (q, q') same_a same_b h =
        Returns-bind
          (side_edges-Holds fuel m.idx_b right.climbs lb q q' same_b
            (omega (arith, right.enough_climb)) h.on_right)
          λ on_right h₁.
            Returns-bind
              (side_edges-Holds fuel m.idx_a left.climbs la p p' same_a
                (omega (arith, left.enough_climb)) h.on_left)
              λ on_left h₂.
                Returns-bind
                  (calculate_route-Held e start_id dest_id left.label_edges right.label_edges
                    left.edges right.edges fuel
                    (record s { edges_right = on_right; edges_left = on_left }) left.unpacks
                    right.unpacks left.known right.known left.enough_climb right.enough_climb
                    (omega (arith, left.enough_unpack)) (omega (arith, right.enough_unpack))
                    (record {
                      on_left = h₂;
                      on_right = h₁;
                      on_result = h.on_result;
                      on_calc = h.on_calc;
                    }))
                  λ t h₃.
                    Returns-bind (drain-Holds fuel nodes length-nodes h₃.on_result)
                      λ r (path, drained). returns (
                        path,
                        refl,
                        refl,
                        record {
                          on_left = h₃.on_left;
                          on_right = h₃.on_right;
                          on_result = drained;
                          on_calc = h₃.on_calc;
                        },
                      )

  no_common_empty :
      (a₀ ≡ a₁) ⊎ (b₀ ≡ b₁)
      → (k l : ℕ) → a₀ ≤ k
      → k < a₁
      → b₀ ≤ l
      → l < b₁
      → node_at n k ≢ node_at n l
  no_common_empty empty k l p p' q q' = absurd (ground arith)

  abbrev pub Result : RoutingResult × Stacks → Type 0
  Result r = (Shortest r.0 ⊎ NoCommon r.0) × Held r.1 [] [] []

  by_meet :
      (s : Stacks) (la : HasLabels n start_id a₀ a₁) (lb : HasLabels n dest_id b₀ b₁)
      → ((i : ℕ) → a₀ ≤ i → i < a₁ → Leads n e fuel start_id (node_at n i))
      → ((j : ℕ) → b₀ ≤ j → j < b₁ → Leads n e fuel dest_id (node_at n j))
      → Held s [] [] []
      → (d : Word32) (o : Option Meet) → IsMeet (labels_of la) (labels_of lb) d o
      → ((k l : ℕ)
          → a₀ ≤ k
          → k < a₁
          → b₀ ≤ l
          → l < b₁
          → node_at n k ≡ node_at n l
          → d ≤ dist_at n k + dist_at n l)
      → Returns Result (over_meet n e fuel start_id dest_id s o d)
  by_meet s la lb reach_a reach_b h d none is_meet least = returns (
    inr (
      refl,
      λ k l p p' q q' same.
          omega (arith, least k l p p' q q' same, la.small_dist k p p', lb.small_dist l q q'),
    ),
    h,
  )
  by_meet s la lb reach_a reach_b h d (some m) (p, p', q, q', same_a, same_b, sum) least =
      let left = subst (Leads n e fuel start_id) same_a (reach_a m.idx_a p p') in
      let right = subst (Leads n e fuel dest_id) same_b (reach_b m.idx_b q q') in
      let known : (m.node == minus_one) ≡ false =
        ground (arith, la.small_node m.idx_a p p', ap (λ k. k) same_a) in
      rw known (
        Returns-map (path_over-nodes s m left right d la lb (p, p') (q, q') same_a same_b h)
          λ r (path, distance, found, held). (
            inl (record {
              idx_a = m.idx_a;
              idx_b = m.idx_b;
              in_a = (p, p');
              in_b = (q, q');
              highest = m.node;
              at_a = same_a;
              at_b = same_b;
              found = found;
              distance = distance ∙ sym sum;
              least = λ k l x x' y y' same. omega (arith, distance, least k l x x' y y' same);
              left = left;
              right = right;
              path = path;
            }),
            held,
          ))

  -- Where both nodes have labels by strictly ascending nodes below Integer.MAX_VALUE, with
  -- distances below 2^30 and a cell behind the last label, the labels' edges lead to their nodes,
  -- the fuel covers these edges and all stacks are empty, route2Lbl returns: either a found route
  -- whose distance is that of a common label, is the least of all common labels, and whose path is
  -- start, the nodes of the unpacked edges of both sides, and dest; or no route, and then the
  -- nodes have no label in common. The stacks are empty again.
  pub route_2_lbl-Shortest :
      (s : Stacks)
      → HasLabels n start_id a₀ a₁
      → HasLabels n dest_id b₀ b₁
      → ((i : ℕ) → a₀ ≤ i → i < a₁ → Leads n e fuel start_id (node_at n i))
      → ((j : ℕ) → b₀ ≤ j → j < b₁ → Leads n e fuel dest_id (node_at n j))
      → Held s [] [] []
      → Returns Result (route_2_lbl n e fuel start_id dest_id s)
  unfolding route_2_lbl
  route_2_lbl-Shortest s la lb reach_a reach_b h =
      rw (la.offset, lb.offset, la.offset_next, lb.offset_next)
        (elim (Bool-cases (a₀ == a₁ || b₀ == b₁)) [
          | inl empty ↦ rw empty (returns (inr (refl, no_common_empty (ground arith)), h))
          | inr some_label ↦ rw some_label (
              Returns-bind (best_common_label-IsBest (labels_of la) (labels_of lb)) λ best found.
                by_meet s la lb reach_a reach_b h best.distance best.meet found.is_meet found.least)
        ])
