-- ===== src/Router/Unpack/Expand.antt =====
-- The inner loop of calculateRoute replaces an edge by the original edges that it stands for.
use fapra_osm_routing.Prelude.{
  ℕ, suc, ◌+◌, ◌-◌, ◌*◌, ◌≤◌, ◌<◌, ◌≡◌, refl, sym, ap, ◌∙◌, subst, List, [], ◌∷◌, ◌++◌, map,
  map-append, append_assoc, length, length-append, get_or, Word32, Run, ok, Returns, Returns-inv,
  load-ok, true, false, arith, Bool-cases, inl, inr, All, All-split, returns,
}
use fapra_osm_routing.Utils.IntStack.{IntStack, is_empty}
use fapra_osm_routing.Utils.IntStack.Deque.{Holds, push-Holds, pop-Holds, is_empty_iff}
use fapra_osm_routing.LabelData.HublEdges.{HublEdges, get_dest, is_shortcut}
use fapra_osm_routing.Router.Unpack.{push_parts, expand}
use fapra_osm_routing.Router.Unpack.Original.{Unpacks, original, shortcut, Unpacks-nonempty}

-- The node that an edge leads to.
abbrev pub dest_of : HublEdges → ℕ → Word32
dest_of e i = get_or e.dest i 0

-- The rounds that the loop makes for an edge that stands for `es`.
abbrev pub rounds : List ℕ → ℕ
rounds es = 2 * length es - 1

pub Holds-nonempty :
    {s : IntStack} (live : List Word32) (x : Word32) → Holds s (live ++ x ∷ []) → is_empty s ≡ false
Holds-nonempty {s} live x h = elim (Bool-cases (is_empty s)) [
  | inl empty ↦
      absurd (omega (arith, ap length ((is_empty_iff h).0 empty), length-append live (x ∷ [])))
  | inr more ↦ more
]

pub Holds-cons :
    {s : IntStack} (x : Word32) (live : List Word32) → Holds s (x ∷ live) → is_empty s ≡ false
Holds-cons {s} x live h = elim (Bool-cases (is_empty s)) [
  | inl empty ↦ absurd (omega (arith, ap length ((is_empty_iff h).0 empty)))
  | inr more ↦ more
]

module _ (e : HublEdges) (near far : ℕ → Run Word32) where
  -- The loop on `calc` and `result` goes on, after `n - m` rounds, as on other stacks, which
  -- hold `live` and `nodes`.
  pub record Continues (n m : ℕ) (calc result : IntStack) (live nodes : List Word32) : Type 0 where
    pub calc' : IntStack
    pub result' : IntStack
    pub goes : expand e near far n calc result ≡ expand e near far m calc' result'
    pub calc_holds : Holds calc' live
    pub result_holds : Holds result' nodes

  expand_original :
      (i : ℕ) (m : ℕ) {calc result : IntStack} (live nodes : List Word32)
      → is_shortcut e i ≡ false
      → i < length e.dest
      → Holds calc (live ++ i ∷ [])
      → Holds result nodes
      → Continues (suc m) m calc result live (nodes ++ dest_of e i ∷ [])
  unfolding expand get_dest
  expand_original i m {calc} {result} live nodes plain known hc hr =
      let (r, popped, (same, hc')) = Returns-inv (pop-Holds live i hc) in
      let (result', pushed, hr') = Returns-inv (push-Holds (dest_of e i) hr) in
      record {
        calc' = r.1;
        result' = result';
        goes = rw (Holds-nonempty live i hc, popped, same, plain, load-ok e.dest i 0 known, pushed);
        calc_holds = hc';
        result_holds = hr';
      }

  expand_shortcut :
      (i n f m : ℕ) {calc : IntStack} (result : IntStack) (live : List Word32)
      → is_shortcut e i ≡ true
      → near i ≡ ok n
      → far i ≡ ok f
      → Holds calc (live ++ i ∷ [])
      → (calc' : IntStack) × (expand e near far (suc m) calc result
          ≡ expand e near far m calc' result)
        × Holds calc' ((live ++ f ∷ []) ++ n ∷ [])
  unfolding expand push_parts
  expand_shortcut i n f m {calc} result live compound p q hc =
      let (r, popped, (same, hc₁)) = Returns-inv (pop-Holds live i hc) in
      let (calc₂, pushed, hc₂) = Returns-inv (push-Holds f hc₁) in
      let (calc₃, pushed', hc₃) = Returns-inv (push-Holds n hc₂) in
      (calc₃, rw (Holds-nonempty live i hc, popped, same, compound, q, pushed, p, pushed'), hc₃)

  pub expand_edge :
      {i : ℕ} {es : List ℕ} (n m : ℕ) {calc result : IntStack} (live nodes : List Word32)
      → Unpacks e near far i es
      → All (λ j. j < length e.dest) es
      → n ≡ rounds es + m
      → Holds calc (live ++ i ∷ [])
      → Holds result nodes
      → Continues n m calc result live (nodes ++ map (dest_of e) es)
  expand_edge {i} n m live nodes (original s h) known k hc hr =
      let one : rounds (i ∷ []) ≡ 1 = refl in
      let e' : n ≡ suc m = omega (arith, ap length h) in
      let k' = subst (All (λ j. j < length e.dest)) h known in
      rw (h, e') (expand_original i m live nodes s k'.0 hc hr)
  expand_edge {i} n m {calc} {result} live nodes (shortcut n' f ns fs s p q a b h) known k hc hr =
      let size = length-append ns fs in
      let some_near = Unpacks-nonempty a in
      let some_far = Unpacks-nonempty b in
      let m' = rounds fs + m in
      let (known_near, known_far) =
        All-split (λ j. j < length e.dest) ns fs (subst (All (λ j. j < length e.dest)) h known) in
      let n₁ = rounds ns + m' in
      let e' : n ≡ suc n₁ = omega (arith, ap length h) in
      let (calc₁, goes, hc₁) = expand_shortcut i n' f n₁ result live s p q hc in
      let c = expand_edge n₁ m' (live ++ f ∷ []) nodes a known_near refl hc₁ hr in
      let d =
        expand_edge m' m live (nodes ++ map (dest_of e) ns) b known_far refl c.calc_holds
          c.result_holds in
      record {
        calc' = d.calc';
        result' = d.result';
        goes = ap (λ t. expand e near far t calc result) e' ∙ goes ∙ c.goes ∙ d.goes;
        calc_holds = d.calc_holds;
        result_holds =
            subst (Holds d.result')
              (append_assoc nodes (map (dest_of e) ns) (map (dest_of e) fs)
                ∙ ap (λ t. nodes ++ t)
                    (sym (map-append (dest_of e) ns fs) ∙ ap (map (dest_of e)) (sym h)))
              d.result_holds;
      }

  -- With enough fuel the loop ends with an empty stack, and has appended the nodes.
  pub expand-Holds :
      {i : ℕ} {es : List ℕ} (fuel : ℕ) {calc result : IntStack} (nodes : List Word32)
      → Unpacks e near far i es
      → All (λ j. j < length e.dest) es
      → 2 * length es ≤ fuel
      → Holds calc (i ∷ [])
      → Holds result nodes
      → Returns
          (λ r. Holds r.0 [] × Holds r.1 (nodes ++ map (dest_of e) es))
          (expand e near far fuel calc result)
  unfolding expand
  expand-Holds {i} {es} fuel nodes u known enough hc hr =
      let m = fuel - rounds es - 1 in
      let some_edge = Unpacks-nonempty u in
      let c = expand_edge fuel (suc m) [] nodes u known (omega arith) hc hr in
      rw (c.goes, (is_empty_iff c.calc_holds).1 refl) (returns (c.calc_holds, c.result_holds))
