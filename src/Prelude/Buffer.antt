-- ===== src/Prelude/Buffer.antt =====
-- Arrays of which the first cells are in use, as the growable containers keep them.
pub mod Shift
use Prim.Native.Nat.{ℕ, zero, suc, ◌+◌, ◌≤◌, ◌<◌}
use mathlib.Core.Path.{◌≡◌, refl, ap, ◌∙◌}
use mathlib.Core.List.{List, [], ◌∷◌, ◌++◌, append_assoc, append-nil}
use mathlib.Core.Option.{some}
use native.Mathlib.Omega.{arith}
use fapra_osm_routing.Prelude.Lists.{
  length, get_elem?, set, replicate, length-append, length-set, set-append, get_elem?-append,
}
use fapra_osm_routing.Prelude.Word.{Word32}
use fapra_osm_routing.Prelude.Java.{copy_of, load, store, ok, Returns, returns, store-ok}

-- The array `a` holds `xs` in its first `n` cells.
pub record IsBuffer (a : List Word32) (n : ℕ) (xs : List Word32) : Type 0 where
  pub spare : List Word32
  pub stored : a ≡ xs ++ spare
  pub counted : n ≡ length xs

-- A cell that is free.
pub spare_cons :
    (spare : List Word32) → 0 < length spare → (y : Word32) × (ys : List Word32) × (spare ≡ y ∷ ys)
spare_cons [] h = absurd (omega arith)
spare_cons (y ∷ ys) h = (y, ys, refl)

module _ {a : List Word32} {n : ℕ} {xs : List Word32} (b : IsBuffer a n xs) where
  pub IsBuffer-length : length a ≡ n + length b.spare
  IsBuffer-length = omega (arith, ap length b.stored, length-append xs b.spare, b.counted)

  pub IsBuffer-grow : (more : ℕ) (fill : Word32) → IsBuffer (copy_of a more fill) n xs
  IsBuffer-grow more fill = record {
    spare = b.spare ++ replicate more fill;
    stored = ap (λ c. c ++ replicate more fill) b.stored ∙ append_assoc xs b.spare _;
    counted = b.counted;
  }

  pub IsBuffer-set : (v : Word32) → n < length a → IsBuffer (set a n v) (n + 1) (xs ++ v ∷ [])
  IsBuffer-set v h =
      let (y, ys, e) = spare_cons b.spare (omega (arith, IsBuffer-length)) in
      record {
        spare = ys;
        stored = rw (b.stored, e, set-append xs y ys n v b.counted, append_assoc);
        counted = omega (arith, b.counted, length-append xs (v ∷ []));
      }

-- The cell behind a prefix.
pub IsBuffer-get :
    {a : List Word32} {n : ℕ} (xs : List Word32) (x : Word32) (ys : List Word32) (i : ℕ)
    → IsBuffer a n (xs ++ x ∷ ys)
    → i ≡ length xs
    → get_elem? a i ≡ some x
IsBuffer-get xs x ys i b h = rw (b.stored, append_assoc) (get_elem?-append xs x (ys ++ b.spare) i h)

pub load-IsBuffer :
    {a : List Word32} {n : ℕ} (xs : List Word32) (x : Word32) (ys : List Word32) (i : ℕ)
    → IsBuffer a n (xs ++ x ∷ ys)
    → i ≡ length xs
    → load a i ≡ ok x
load-IsBuffer xs x ys i b h = rw (IsBuffer-get xs x ys i b h, load)

-- A store into the first free cell, whatever is done with the new array.
pub store-IsBuffer :
    {a : List Word32} {n : ℕ} {xs : List Word32} (v : Word32)
    → IsBuffer a n xs
    → n < length a
    → Returns (λ c. IsBuffer c (n + 1) (xs ++ v ∷ [])) (store a n v)
store-IsBuffer {a} {n} v b h = rw (store-ok a n v h) (returns (IsBuffer-set b v h))

pub IsBuffer-cast :
    {a : List Word32} {n : ℕ} {xs : List Word32} (m : ℕ) (ys : List Word32)
    → IsBuffer a n xs
    → n ≡ m
    → xs ≡ ys
    → IsBuffer a m ys
IsBuffer-cast m ys b p q = record {
  spare = b.spare;
  stored = b.stored ∙ ap (λ t. t ++ b.spare) q;
  counted = omega (arith, b.counted, ap length q);
}

-- The same of the array's length.
pub store_in_place :
    {a : List Word32} {n : ℕ} {xs : List Word32} (v : Word32)
    → IsBuffer a n xs
    → n < length a
    → Returns (λ c. IsBuffer c (n + 1) (xs ++ v ∷ []) × (length c ≡ length a)) (store a n v)
store_in_place {a} {n} v b h =
    rw (store-ok a n v h) (returns (IsBuffer-set b v h, length-set a n v))

-- A full array is the list it holds.
pub IsBuffer-full :
    {a : List Word32} {n : ℕ} {xs : List Word32} → IsBuffer a n xs → length a ≡ n → a ≡ xs
IsBuffer-full {a} {n} {xs} b full = b.stored ∙ go b.spare (omega (arith, IsBuffer-length b))
  where
    go : (spare : List Word32) → length spare ≡ 0 → xs ++ spare ≡ xs
    go [] h = append-nil xs
    go (y ∷ ys) h = absurd (omega arith)
