-- ===== src/Prelude/Java.antt =====
-- How a call ends, and Java's arrays: a read or a write outside of an array throws.
use Prim.Native.Nat.{ℕ, zero, suc, ◌+◌, ◌-◌, ◌≤◌, ◌<◌}
use mathlib.Core.Path.{◌≡◌, refl, ap}
use mathlib.Core.Logic.{◌≢◌}
use mathlib.Core.Bool.{Bool, true, false, ◌&&◌}
use mathlib.Core.Option.{Option, none, some}
use mathlib.Core.List.{List, [], ◌∷◌, ◌++◌}
use native.Mathlib.Omega.{arith}
use fapra_osm_routing.Prelude.Tests.{ltb, leb, if◌then◌else◌}
use fapra_osm_routing.Prelude.Lists.{
  length, get_elem?, get_or, set, take, drop, replicate, get_elem?-get_or, get_elem?-past, take-all,
  length-append, length-replicate,
}

-- The exceptions that the modelled code can raise.
pub data Exception : Type 0 where
  index_out_of_bounds null_pointer illegal_state illegal_argument number_format : Exception

-- The model's fuel running out, an exception, or a returned value.
pub data Run {ℓ} (Value : Type ℓ) : Type ℓ where
  out_of_fuel : Run Value
  throw : Exception → Run Value
  ok : Value → Run Value

-- The rest of a call gets the value; otherwise the call ends as its part did.
infixl 5 ◌>>=◌
abbrev pub ◌>>=◌ {a b} : {X : Type a} {Y : Type b} → Run X → (X → Run Y) → Run Y
out_of_fuel >>= rest = out_of_fuel
throw failure >>= rest = throw failure
ok x >>= rest = rest x

-- The call returns a value with the property `Post`.
pub data Returns {ℓ κ} {A : Type ℓ} (Post : A → Type κ) : Run A → Type (ℓ ⊔ κ) where
  returns : {result : A} → Post result → Returns Post (ok result)

module _ {ℓ κ} {A : Type ℓ} {P : A → Type κ} where
  pub Returns-inv : {call : Run A} → Returns P call → (x : A) × (call ≡ ok x) × P x
  Returns-inv (returns known) = (_, refl, known)

  pub Returns-map {l} :
      {Post : A → Type l} {call : Run A}
      → Returns P call
      → ((x : A) → P x → Post x)
      → Returns Post call
  Returns-map (returns known) imply = returns (imply _ known)

  pub Returns-bind {k l} :
      {B : Type k} {Post : B → Type l} {call : Run A} {rest : A → Run B}
      → Returns P call
      → ((x : A) → P x → Returns Post (rest x))
      → Returns Post (call >>= rest)
  Returns-bind (returns known) go_on = go_on _ known

  pub Returns-ok : {a : A} → Returns P (ok a) → P a
  Returns-ok {a} r = go (ok a) r
    where
      value : Run A → A
      value (ok b) = b
      value (throw e) = a
      value out_of_fuel = a

      go : (m : Run A) → Returns P m → P (value m)
      go m (returns p) = p

-- The call does not run out of fuel: it throws, or returns a value with the property `Post`.
pub data Ends {ℓ κ} {A : Type ℓ} (Post : A → Type κ) : Run A → Type (ℓ ⊔ κ) where
  fails : {e : Exception} → Ends Post (throw e)
  ends : {result : A} → Post result → Ends Post (ok result)

abbrev pub Anything {ℓ} : {A : Type ℓ} → A → Type 0
Anything x = Unit

module _ {ℓ κ} {A : Type ℓ} {P : A → Type κ} where
  pub Ends-bind {k l} :
      {B : Type k} {Post : B → Type l} {call : Run A} {rest : A → Run B}
      → Ends P call
      → ((x : A) → P x → Ends Post (rest x))
      → Ends Post (call >>= rest)
  Ends-bind fails go_on = fails
  Ends-bind (ends known) go_on = go_on _ known

  pub Ends-if :
      (b : Bool) {x y : Run A}
      → (b ≡ true → Ends P x)
      → (b ≡ false → Ends P y)
      → Ends P (if b then x else y)
  Ends-if true p q = p refl
  Ends-if false p q = q refl

  pub Ends-fueled : {call : Run A} → Ends P call → call ≢ out_of_fuel
  Ends-fueled fails e = absurd (ground arith)
  Ends-fueled (ends known) e = absurd (ground arith)

module _ {ℓ} {A : Type ℓ} where
  -- `a[i]`
  abbrev pub load : List A → ℕ → Run A
  load a i = elim (get_elem? a i) [ some x ↦ ok x | none ↦ throw index_out_of_bounds ]

  -- `a[i] = v`
  abbrev pub store : List A → ℕ → A → Run (List A)
  store a i v = if ltb i (length a) then ok (set a i v) else throw index_out_of_bounds

  -- Arrays.copyOf to a length that is `more` larger; `cell` is the value of a new cell
  abbrev pub copy_of : List A → ℕ → A → List A
  copy_of a more cell = a ++ replicate more cell

  -- Arrays.copyOf to the length `n`
  abbrev pub copy_to : List A → ℕ → A → List A
  copy_to a n cell = take n (a ++ replicate (n - length a) cell)

  -- Arrays.fill from `from` on
  abbrev pub fill : List A → ℕ → A → List A
  fill a from v = take from a ++ replicate (length a - from) v

  -- System.arraycopy(src, from, dst, to, n), also for src = dst
  pub arraycopy : List A → ℕ → List A → ℕ → ℕ → Run (List A)
  arraycopy src from dst to n =
      if leb (from + n) (length src) && leb (to + n) (length dst)
      then ok (take to dst ++ take n (drop from src) ++ drop (to + n) dst)
      else throw index_out_of_bounds

  pub copy_to-copy_of :
      (a : List A) (more n : ℕ) (fill : A)
      → n ≡ length a + more
      → copy_to a n fill ≡ copy_of a more fill
  copy_to-copy_of a more n fill e =
      let rest : n - length a ≡ more = omega arith in
      rw rest (
        take-all n (a ++ replicate more fill)
          (omega (arith, length-append a (replicate more fill), length-replicate more fill)))

  pub load-ok : (a : List A) (i : ℕ) (d : A) → i < length a → load a i ≡ ok (get_or a i d)
  load-ok a i d h = rw (get_elem?-get_or a i d h, load)

  pub load-past : (a : List A) (i : ℕ) → length a ≤ i → load a i ≡ throw index_out_of_bounds
  load-past a i h = rw (get_elem?-past a i h, load)

  pub load-set_same : (a : List A) (i : ℕ) (x : A) → i < length a → load (set a i x) i ≡ ok x
  load-set_same [] i x h = absurd (omega arith)
  load-set_same (y ∷ a) zero x h = refl
  load-set_same (y ∷ a) (suc i) x h = load-set_same a i x (omega arith)

  pub load-set_other : (a : List A) (i j : ℕ) (x : A) → i ≢ j → load (set a i x) j ≡ load a j
  load-set_other [] i j x h = refl
  load-set_other (y ∷ a) zero zero x h = absurd (h refl)
  load-set_other (y ∷ a) zero (suc j) x h = refl
  load-set_other (y ∷ a) (suc i) zero x h = refl
  load-set_other (y ∷ a) (suc i) (suc j) x h = load-set_other a i j x (λ e. h (ap suc e))

  pub store-ok : (a : List A) (i : ℕ) (v : A) → i < length a → store a i v ≡ ok (set a i v)
  store-ok a i v h = ground arith

  pub load-Ends : (a : List A) (i : ℕ) → Ends Anything (load a i)
  load-Ends a i = by_cell (get_elem? a i)
    where
      by_cell :
          (o : Option A)
          → Ends Anything (elim o [ some x ↦ ok x | none ↦ throw index_out_of_bounds ])
      by_cell none = fails
      by_cell (some x) = ends tt

  pub store-Ends : (a : List A) (i : ℕ) (v : A) → Ends Anything (store a i v)
  store-Ends a i v = Ends-if (ltb i (length a)) (λ _. ends tt) (λ _. fails)

  pub arraycopy-Ends :
      (src : List A) (from : ℕ) (dst : List A) (to n : ℕ)
      → Ends Anything (arraycopy src from dst to n)
  unfolding arraycopy
  arraycopy-Ends src from dst to n =
      Ends-if (leb (from + n) (length src) && leb (to + n) (length dst)) (λ _. ends tt) (λ _. fails)

  pub arraycopy-ok :
      (src : List A) (from : ℕ) (dst : List A) (to n : ℕ)
      → from + n ≤ length src
      → to + n ≤ length dst
      → arraycopy src from dst to n
        ≡ ok (take to dst ++ take n (drop from src) ++ drop (to + n) dst)
  unfolding arraycopy
  arraycopy-ok src from dst to n p q = ground arith
