-- ===== src/Tests/Browser.antt =====
-- Numbers and a map for the page, to run it: whole numbers and NaN, and a history of layers.
use fapra_osm_routing.Prelude.{
  ℕ, ◌+◌, ◌-◌, ◌*◌, ◌/◌, ◌%◌, ◌<◌, ◌≡◌, ◌≢◌, ◌⊎◌, inl, inr, refl, ap, sym, ◌∙◌, subst, Bool, true,
  false, ◌&&◌, ltb, ◌==◌, if◌then◌else◌, List, [], ◌∷◌, ◌++◌, Option, none, some, All-append, zero,
  suc, arith,
}
use fapra_osm_routing.Frontend.Text.{Text, codes, Lacks}
use fapra_osm_routing.Frontend.Numbers.{Numbers}
use fapra_osm_routing.Frontend.Numbers
use fapra_osm_routing.Frontend.Leaflet.{Leaflet, Content, tiles, marker_at, line_along}
use fapra_osm_routing.Frontend.Leaflet
use fapra_osm_routing.Frontend.Request.Points.{append-ne-nil}
use fapra_osm_routing.Frontend.Longitude.Whole.{
  Whole, plus, minus, magnitude, less, remainder, sum, HoldsWhole,
}

abbrev pub Double : Type 0
Double = Option Whole

-- At most twenty digits.
abbrev decimal : ℕ → ℕ → Text
decimal zero a = (48 + a % 10) ∷ []
decimal (suc k) a =
    let rest = decimal k (a / 10) in if ltb a 10 then (48 + a) ∷ [] else rest ++ (48 + a % 10) ∷ []

abbrev shown : Double → Text
shown none = codes "NaN"
shown (some (plus a)) = decimal 20 a
shown (some (minus a)) = if a == 0 then decimal 20 a else b'-' ∷ decimal 20 a

abbrev digits : ℕ → Text → Double
digits a [] = some (plus a)
digits a (c ∷ t) = digits (a * 10 + (c - 48)) t

abbrev negated : Double → Double
negated (some (plus a)) = some (minus a)
negated _ = none

abbrev read : Text → Double
read [] = none
read (c ∷ t) =
    if c == b'-' then negated (digits 0 t) else if ltb 57 c then none else digits 0 (c ∷ t)

abbrev lifted : (Whole → Whole → Double) → Double → Double → Double
lifted f (some x) (some y) = f x y
lifted f _ _ = none

abbrev tested : Double → Double → Bool
tested (some x) (some y) = less x y
tested _ _ = false

instance abbrev pub doubles : Numbers Double
doubles = record {
  lt = tested;
  rem = lifted (λ x y. if magnitude y == 0 then none else some (remainder x (magnitude y)));
  add = lifted (λ x y. some (sum x y));
  one = some (plus 1);
  minus_180 = some (minus 180);
  plus_180 = some (plus 180);
  nan = none;
  show = shown;
  parse_float = read;
  to_number = read;
}

decimal-ne-nil : (k a : ℕ) → decimal k a ≢ []
decimal-ne-nil zero a e = cc
decimal-ne-nil (suc k) a e = by_test (ltb a 10) e
  where
    by_test :
        (b : Bool) → (if b then (48 + a) ∷ [] else decimal k (a / 10) ++ (48 + a % 10) ∷ []) ≢ []
    by_test true e = cc
    by_test false e = append-ne-nil (decimal k (a / 10)) [] (48 + a % 10) e

decimal-Lacks : (k a : ℕ) → Lacks b' ' (decimal k a)
decimal-Lacks zero a = (omega arith, tt)
decimal-Lacks (suc k) a = by_test (ltb a 10) (decimal-Lacks k (a / 10))
  where
    by_test :
        (b : Bool)
        → Lacks b' ' (decimal k (a / 10))
        → Lacks b' ' (if b then (48 + a) ∷ [] else decimal k (a / 10) ++ (48 + a % 10) ∷ [])
    by_test true h = (omega arith, tt)
    by_test false h = All-append _ (decimal k (a / 10)) _ h (omega arith, tt)

pub doubles-IsLawful : Numbers.IsLawful Double
doubles-IsLawful = record { show-ne-nil = not_nil; show-Lacks = lacks }
  where
    not_nil : (x : Double) → shown x ≢ []
    not_nil none e = cc
    not_nil (some (plus a)) e = decimal-ne-nil 20 a e
    not_nil (some (minus a)) e = by_test (a == 0) e
      where
        by_test : (b : Bool) → (if b then decimal 20 a else b'-' ∷ decimal 20 a) ≢ []
        by_test true e = decimal-ne-nil 20 a e
        by_test false e = cc

    lacks : (x : Double) → Lacks b' ' (shown x)
    lacks none = (omega arith, (omega arith, (omega arith, tt)))
    lacks (some (plus a)) = decimal-Lacks 20 a
    lacks (some (minus a)) = by_test (a == 0)
      where
        by_test : (b : Bool) → Lacks b' ' (if b then decimal 20 a else b'-' ∷ decimal 20 a)
        by_test true = decimal-Lacks 20 a
        by_test false = (omega arith, decimal-Lacks 20 a)

abbrev pub whole_doubles : HoldsWhole Double
whole_doubles = record {
  of = some;
  lt_of = λ x y h k. refl;
  rem_of = λ x d h differ. nonzero x d differ;
  add_of = λ x y h k l. refl;
  minus_180_of = refl;
  plus_180_of = refl;
}
  where
    nonzero :
        (x : Whole) (d : ℕ)
        → d ≢ 0
        → (if d == 0 then none else some (remainder x d)) ≡ some (remainder x d)
    nonzero x d h = let e : (d == 0) ≡ false = ground arith in rw e refl

-- A map is the history of its layers, the newest change first.
pub data Change : Type 0 where
  put away : ℕ × Content Double → Change

abbrev pub HasLayer : List Change → ℕ × Content Double → Type 0
HasLayer [] k = ⊥
HasLayer (put l ∷ m) k = HasLayer m k ⊎ (k ≡ l)
HasLayer (away l ∷ m) k = HasLayer m k × (k ≢ l)

-- A number that no layer has yet.
abbrev pub next : List Change → ℕ
next [] = 0
next (put l ∷ m) = 1 + l.0 + next m
next (away l ∷ m) = next m

abbrev pub place : Bool → Content Double → List Change → Option ((ℕ × Content Double) × List Change)
place true c m = some ((next m, c), put (next m, c) ∷ m)
place false c m = none

abbrev pub is_number : Double → Bool
is_number none = false
is_number (some x) = true

abbrev pub all_numbers : List (Double × Double) → Bool
all_numbers [] = true
all_numbers (p ∷ ps) = is_number p.0 && is_number p.1 && all_numbers ps

abbrev pub history : Leaflet Double
history = record {
  World = List Change;
  Layer = ℕ × Content Double;
  set_up = ((0, tiles), put (0, tiles) ∷ []);
  add_marker = λ lat long t m. place (is_number lat && is_number long) (marker_at lat long t) m;
  add_polyline = λ ps t m. place (all_numbers ps) (line_along ps t) m;
  remove = λ l m. away l ∷ m;
  Shown = HasLayer;
  content = λ l. l.1;
}

next-new : (m : List Change) (k : ℕ × Content Double) → HasLayer m k → k.0 < next m
next-new [] k h = absurd h
next-new (put l ∷ m) k (inl h) = omega (arith, next-new m k h)
next-new (put l ∷ m) k (inr e) = omega (arith, ap (λ p. p.0) e)
next-new (away l ∷ m) k h = next-new m k h.0

placed :
    (b : Bool) (c : Content Double) (m : List Change) {l : ℕ × Content Double} {m' : List Change}
    → place b c m ≡ some (l, m')
    → (l ≡ (next m, c)) × (m' ≡ put (next m, c) ∷ m)
placed false c m e = cc
placed true c m e = (cc, cc)

added :
    (b : Bool) (c : Content Double) (m : List Change) {l : ℕ × Content Double} {m' : List Change}
    → place b c m ≡ some (l, m')
    → HasLayer m' l × (l.1 ≡ c)
added b c m {l} e =
    let (el, em) = placed b c m e in (subst (λ w. HasLayer w l) (sym em) (inr el), ap (λ p. p.1) el)

others :
    (b : Bool) (c : Content Double) (m : List Change) {l : ℕ × Content Double} {m' : List Change}
    → place b c m ≡ some (l, m')
    → (k : ℕ × Content Double)
    → (HasLayer m' k → HasLayer m k ⊎ (k ≡ l)) × (HasLayer m k → HasLayer m' k × (k ≢ l))
others b c m e k =
    let (el, em) = placed b c m e in
    (
      λ h. elim (subst (λ w. HasLayer w k) em h) [
        | inl old ↦ inl old
        | inr new ↦ inr (new ∙ sym el)
      ],
      λ h. (
        subst (λ w. HasLayer w k) (sym em) (inl h),
        λ same. omega (arith, next-new m k h, ap (λ p. p.0) (same ∙ el)),
      ),
    )

pub history-IsLawful : Leaflet.IsLawful history
history-IsLawful = record {
  set_up-Shown = λ k. elim [ inl h ↦ absurd h | inr e ↦ e ];
  marker_added = λ lat long t m e. added (is_number lat && is_number long) _ m e;
  marker_others = λ lat long t m e. others (is_number lat && is_number long) _ m e;
  polyline_added = λ ps t m e. added (all_numbers ps) _ m e;
  polyline_others = λ ps t m e. others (all_numbers ps) _ m e;
  removed = λ l m k. (λ h. h, λ h differ. (h, differ));
}
