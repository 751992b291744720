-- ===== src/Creation/HlDijkstra/Rows.antt =====
-- The three sets of the search as one list of rows.
use fapra_osm_routing.Prelude.{
  ℕ, zero, suc, get_or, ◌<◌, ◌≡◌, ◌≢◌, refl, sym, ap, ◌∙◌, subst, List, [], ◌∷◌, ◌++◌, map,
  map-append, Word32, max_value, rank, ok, Returns, Returns-map, load, length, length-map, All,
  arith, get_elem?-append, if◌then◌else◌, lt_int, Bool-cases, inl, inr, minus_one,
}
use fapra_osm_routing.Prelude.Members.{Has, All-Has}
use fapra_osm_routing.Search.{Position, found, missing}
use fapra_osm_routing.Search.Sets.{Answers}
use fapra_osm_routing.Utils.OrderedIntSet.{get_idx}
use fapra_osm_routing.Utils.OrderedIntSet.Sequence.{Holds}
use fapra_osm_routing.Utils.OrderedIntSet.Ordered.{IsOrdered, get_idx-Answers}
use fapra_osm_routing.Creation.HlDijkstra.{HlDijkstra}

-- A label in the making.
pub record Row : Type 0 where
  pub id : Word32
  pub dist : Word32
  pub edge : Word32

abbrev pub ids : List Row → List Word32
ids rows = map (λ r. r.id) rows

abbrev pub dists : List Row → List Word32
dists rows = map (λ r. r.dist) rows

abbrev pub edges : List Row → List Word32
edges rows = map (λ r. r.edge) rows

abbrev pub own_row : Word32 → Row
own_row node_id = record { id = node_id; dist = 0; edge = minus_one }

-- The sets hold the rows, by ascending ids; `order` is the order that the thread was made with.
pub record Carries (order : List Word32) (t : HlDijkstra) (rows : List Row) : Type 0 where
  pub same_order : t.calc_order ≡ order
  pub has_ids : IsOrdered t.found_ids (ids rows)
  pub has_dists : Holds t.distances (dists rows)
  pub has_edges : Holds t.first_edge_id (edges rows)

module _ (f : Row → Word32) where
  length-column : (rows : List Row) → length (map f rows) ≡ length rows
  length-column rows = length-map f rows

  pub column-insert :
      (p : List Row) (r : Row) (q : List Row) → map f (p ++ r ∷ q) ≡ map f p ++ f r ∷ map f q
  column-insert p r q = map-append f p (r ∷ q)

  pub column-split :
      (rows : List Row) (p q : List Word32)
      → map f rows ≡ p ++ q
      → (a : List Row) × (b : List Row) × (rows ≡ a ++ b) × (map f a ≡ p) × (map f b ≡ q)
  column-split rows [] q e = ([], rows, refl, refl, e)
  column-split [] (x ∷ p) q e = absurd (ground arith)
  column-split (r ∷ rows) (x ∷ p) q e =
      let (first, others) : (f r ≡ x) × (map f rows ≡ p ++ q) = ground arith in
      let (a, b, at, pa, qb) = column-split rows p q others in
      (r ∷ a, b, ap (◌∷◌ r) at, ap (λ t. f r ∷ t) pa ∙ ap (λ y. y ∷ p) first, qb)

-- What a search for a row finds.
abbrev pub Finds : List Row → Word32 → Position → Type 0
Finds rows x (found i) =
    (p : List Row) × (r : Row) × (q : List Row) × (rows ≡ p ++ r ∷ q) × (r.id ≡ x) × (i ≡ length p)
Finds rows x (missing i) =
    (p : List Row) × (q : List Row) × (rows ≡ p ++ q)
    × (i ≡ length p)
    × All (λ y. rank y < rank x) (ids p)
    × All (λ y. rank x < rank y) (ids q)

Answers-Finds :
    (rows : List Row) (x : Word32) (at : Position) → Answers (ids rows) x at → Finds rows x at
Answers-Finds rows x (found i) (p, q, e, l) = pick (column-split (λ r. r.id) rows p (x ∷ q) e)
  where
    pick :
        (a : List Row) × (b : List Row) × (rows ≡ a ++ b) × (ids a ≡ p) × (ids b ≡ x ∷ q)
        → Finds rows x (found i)
    pick (a, [], at, pa, qb) = absurd (ground arith)
    pick (a, r ∷ b, at, pa, qb) =
        (a, r, b, at, ground arith, l ∙ sym (ap length pa) ∙ length-column (λ r. r.id) a)
Answers-Finds rows x (missing i) (p, q, e, l, lower, upper) =
    let (a, b, at, pa, qb) = column-split (λ r. r.id) rows p q e in
    (
      a,
      b,
      at,
      l ∙ sym (ap length pa) ∙ length-column (λ r. r.id) a,
      subst (All (λ y. rank y < rank x)) (sym pa) lower,
      subst (All (λ y. rank x < rank y)) (sym qb) upper,
    )

-- An id that belongs between the rows is none of theirs.
pub not_between :
    (p q : List Row) (x y : Word32)
    → All (λ y. rank y < rank x) (ids p)
    → All (λ y. rank x < rank y) (ids q)
    → Has (ids (p ++ q)) y
    → x ≢ y
not_between [] q x y l u h e =
    let above : rank x < rank y = All-Has (λ y. rank x < rank y) (ids q) y u h in
    omega (arith, ap rank e)
not_between (r ∷ p) q x y l u (inl at) e = omega (arith, ap rank e, ap rank at, l.0)
not_between (r ∷ p) q x y l u (inr h) e = not_between p q x y l.1 u h e

-- A row that is there is found.
pub row_of :
    (rows : List Row) (x : Word32) (at : Position)
    → Has (ids rows) x
    → Finds rows x at
    → (i : ℕ) × (p : List Row) × (r : Row) × (q : List Row) × (at ≡ found i)
      × (rows ≡ p ++ r ∷ q)
      × (r.id ≡ x)
      × (i ≡ length p)
row_of rows x (found i) h (p, r, q, split, same, place) = (i, p, r, q, refl, split, same, place)
row_of rows x (missing i) h (p, q, split, place, lower, upper) =
    absurd (not_between p q x x lower upper (subst (λ l. Has (ids l) x) split h) refl)

module _ {order : List Word32} {t : HlDijkstra} {rows : List Row} (c : Carries order t rows) where
  pub get_idx-Finds : (x : Word32) → x < max_value → Returns (Finds rows x) (get_idx t.found_ids x)
  get_idx-Finds x small =
      Returns-map (get_idx-Answers x c.has_ids small) λ at a. Answers-Finds rows x at a

-- What is left of a row when a distance is offered: the id stays, and the smaller distance counts.
abbrev pub closer : Row → Word32 → Word32 → Row
closer r d e = if lt_int d r.dist then record { id = r.id; dist = d; edge = e } else r

pub closer-ids :
    (p : List Row) (r : Row) (q : List Row) (d e : Word32)
    → ids (p ++ r ∷ q) ≡ ids (p ++ closer r d e ∷ q)
closer-ids p r q d e = elim (Bool-cases (lt_int d r.dist)) [
  | inl near ↦ rw near (
      column-insert (λ r. r.id) p r q
      ∙ sym (column-insert (λ r. r.id) p (record { id = r.id; dist = d; edge = e }) q))
  | inr far ↦ rw far refl
]

-- The index in a column.
pub index_in :
    (p : List Row) (idx : ℕ) → idx ≡ length p → (f : Row → Word32) → idx ≡ length (map f p)
index_in p idx at f = at ∙ sym (length-column f p)

-- A cell of a column.
pub load-column :
    (f : Row → Word32) (rows : List Row) (i : ℕ)
    → i < length rows
    → load (map f rows) i ≡ ok (f (get_or rows i (own_row 0)))
load-column f [] i h = absurd (omega arith)
load-column f (r ∷ rows) zero h = refl
load-column f (r ∷ rows) (suc i) h = load-column f rows i (omega arith)

pub All-column {κ} :
    (P : Word32 → Type κ) (f : Row → Word32) (rows : List Row)
    → All (λ r. P (f r)) rows
    → All P (map f rows)
All-column P f [] h = tt
All-column P f (r ∷ rows) h = (h.0, All-column P f rows h.1)

-- The rows that are not `r` are still there without it.
pub Has-ids-remove :
    (p : List Row) (r : Row) (q : List Row) (x : Word32)
    → Has (ids (p ++ r ∷ q)) x
    → r.id ≢ x
    → Has (ids (p ++ q)) x
Has-ids-remove [] r q x (inl at) differ = absurd (differ at)
Has-ids-remove [] r q x (inr h) differ = h
Has-ids-remove (y ∷ p) r q x (inl at) differ = inl at
Has-ids-remove (y ∷ p) r q x (inr h) differ = inr (Has-ids-remove p r q x h differ)

pub load-insert :
    (f : Row → Word32) (p : List Row) (r : Row) (q : List Row)
    → load (map f (p ++ r ∷ q)) (length p) ≡ ok (f r)
load-insert f p r q = rw (
  column-insert f p r q,
  get_elem?-append (map f p) (f r) (map f q) (length p) (index_in p (length p) refl f),
  load,
)
