-- ===== src/Router/TempLabels/Order.antt =====
-- The order in which addEdges leaves the edges.
use fapra_osm_routing.Prelude.{
  ℕ, zero, suc, ◌<◌, ◌≡◌, ◌≢◌, refl, sym, subst, List, [], ◌∷◌, ◌++◌, append_assoc, append-nil,
  length, Word32, true, false, ok, ◌==◌, Returns, Returns-inv, Returns-bind, Returns-map, returns,
  arith,
}
use fapra_osm_routing.Search.{found}
use fapra_osm_routing.Utils.IntStack.{IntStack}
use fapra_osm_routing.Utils.IntStack.Deque.{
  Holds, new-Holds, push-Holds, pop_fifo-Holds, is_empty_iff,
}
use fapra_osm_routing.Utils.OrderedIntSet.{get, get_idx}
use fapra_osm_routing.Router.Unpack.Expand.{Holds-cons}
use fapra_osm_routing.Router.TempLabels.{TempLabels, collect_edges, move_all, add_edges}

-- From the node down to `stop`, over the edge and the previous node of each entry.
pub data Descends (l : TempLabels) (stop : Word32) : Word32 → List Word32 → Type 0 where
  bottom : {v : Word32} → v ≡ stop → Descends l stop v []
  down :
      {v : Word32} {es : List Word32} (i : ℕ) (edge_id prev : Word32)
      → v ≢ stop
      → get_idx l.label v ≡ ok (found i)
      → get l.edge i ≡ ok edge_id
      → get l.add_info i ≡ ok prev
      → Descends l stop prev es
      → Descends l stop v (edge_id ∷ es)

module _ {l : TempLabels} {stop : Word32} where
  collect_edges-Holds :
      (fuel : ℕ) (xs : List Word32) {v : Word32} {es : List Word32} {s : IntStack}
      → Descends l stop v es
      → length es < fuel
      → Holds s xs
      → Returns (λ t. Holds t (xs ++ es)) (collect_edges fuel l v stop s)
  unfolding collect_edges
  collect_edges-Holds zero xs d f h = absurd (omega arith)
  collect_edges-Holds (suc fuel) xs {v} {s = s} (bottom e) f h =
      let here : (v == stop) ≡ true = ground arith in
      rw here (returns (subst (Holds s) (sym (append-nil xs)) h))
  collect_edges-Holds (suc fuel) xs {v} {s = s}
        (down {es = es} i edge_id prev differ at edge info d) f h =
      let away : (v == stop) ≡ false = ground arith in
      let (t, pushed, held) = Returns-inv (push-Holds edge_id h) in
      let ih = collect_edges-Holds fuel (xs ++ edge_id ∷ []) d (omega arith) held in
      rw (away, at, edge, pushed, info)
        (Returns-map ih λ u. subst (Holds u) (append_assoc xs (edge_id ∷ []) es))

move_all-Holds :
    (fuel : ℕ) (xs ys : List Word32) {from to : IntStack}
    → length xs < fuel
    → Holds from xs
    → Holds to ys
    → Returns (λ t. Holds t (ys ++ xs)) (move_all fuel from to)
unfolding move_all
move_all-Holds zero xs ys f h k = absurd (omega arith)
move_all-Holds (suc fuel) [] ys {to = to} f h k =
    rw ((is_empty_iff h).1 refl) (returns (subst (Holds to) (sym (append-nil ys)) k))
move_all-Holds (suc fuel) (x ∷ xs) ys f h k =
    let (r, popped, (same, held)) = Returns-inv (pop_fifo-Holds x h) in
    rw (Holds-cons x xs h, popped, same)
      (Returns-bind (push-Holds x k) λ t pushed.
        Returns-map (move_all-Holds fuel xs (ys ++ x ∷ []) (omega arith) held pushed)
          λ u. subst (Holds u) (append_assoc ys (x ∷ []) xs))

-- Where the entries lead from a node over the edges `es` down to the node where the search began,
-- and the fuel exceeds their number, addEdges returns and appends `es` to the stack as they are,
-- shortcuts included, and in this order: the edge of the first entry, which is the last on the way
-- up, comes first.
pub add_edges-Holds :
    {l : TempLabels} {stop v : Word32} {es : List Word32} (fuel : ℕ) (xs : List Word32)
    {s : IntStack}
    → Descends l stop v es
    → length es < fuel
    → Holds s xs
    → Returns (λ t. Holds t (xs ++ es)) (add_edges fuel l s v stop)
unfolding add_edges
add_edges-Holds {es = es} fuel xs d f h =
    Returns-bind (collect_edges-Holds fuel [] d f (new-Holds 20 (omega arith)))
      λ t held. move_all-Holds fuel es xs f held h
