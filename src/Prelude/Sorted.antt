-- ===== src/Prelude/Sorted.antt =====
-- `std::map`'s order of keys, and sums over its values.
use Prim.Native.Nat.{ℕ, ◌+◌}
use mathlib.Core.Path.{◌≡◌, refl}
use mathlib.Core.Bool.{true}
use mathlib.Core.Option.{Option, none, some}
use mathlib.Core.List.{[], ◌∷◌}
use native.Mathlib.Omega.{arith}
use wisp.Prelude.ByteString.{Bytes, bytes_eq, bytes_beq_iff, before, before_total, before_asymm}
use wisp.Prelude.Map.{Map, lookup, insert_ordered, erase}

before_trans : (a b c : Bytes) → before a b ≡ true → before b c ≡ true → before a c ≡ true
unfolding before
before_trans [] b [] h k = ground arith
before_trans [] b (z ∷ zs) h k = refl
before_trans (x ∷ xs) [] c h k = cc
before_trans (x ∷ xs) (y ∷ ys) [] h k = cc
before_trans (x ∷ xs) (y ∷ ys) (z ∷ zs) h k = ground (arith, before_trans xs ys zs)

module _ {ℓ} {V : Type ℓ} where
  -- Every key stands behind this one.
  abbrev pub Above : Bytes → Map V → Type 0
  Above k [] = Unit {0}
  Above k ((j, v) ∷ m) = (before k j ≡ true) × Above k m

  abbrev pub Ordered : Map V → Type 0
  Ordered [] = Unit {0}
  Ordered ((k, v) ∷ m) = Above k m × Ordered m

  Above-trans : (k j : Bytes) (m : Map V) → before k j ≡ true → Above j m → Above k m
  Above-trans k j [] h a = tt
  Above-trans k j ((i, v) ∷ m) h a = (before_trans k j i h a.0, Above-trans k j m h a.1)

  insert_ordered-Above :
      (j k : Bytes) (v : V) (m : Map V)
      → before j k ≡ true
      → Above j m
      → Above j (insert_ordered k v m)
  unfolding insert_ordered
  insert_ordered-Above j k v [] h a = (h, tt)
  insert_ordered-Above j k v ((i, w) ∷ m) h a =
      ground (arith, insert_ordered-Above j k v m, bytes_beq_iff i k)

  pub insert_ordered-Ordered :
      (k : Bytes) (v : V) (m : Map V) → Ordered m → Ordered (insert_ordered k v m)
  unfolding insert_ordered
  insert_ordered-Ordered k v [] o = (tt, tt)
  insert_ordered-Ordered k v ((j, w) ∷ m) o = ground (
    arith,
    insert_ordered-Ordered k v m,
    insert_ordered-Above j k v m,
    bytes_beq_iff j k,
    before_total j k,
    Above-trans k j m,
  )

  erase-Above : (j k : Bytes) (m : Map V) → Above j m → Above j (erase k m)
  unfolding erase
  erase-Above j k [] a = tt
  erase-Above j k ((i, w) ∷ m) a = ground (arith, erase-Above j k m)

  pub erase-Ordered : (k : Bytes) (m : Map V) → Ordered m → Ordered (erase k m)
  unfolding erase
  erase-Ordered k [] o = tt
  erase-Ordered k ((j, w) ∷ m) o = ground (arith, erase-Ordered k m, erase-Above j k m)

  lookup-Above : (k : Bytes) (m : Map V) → Above k m → lookup k m ≡ none
  unfolding lookup
  lookup-Above k [] a = refl
  lookup-Above k ((j, w) ∷ m) a =
      ground (arith, lookup-Above k m, bytes_beq_iff j k, before_asymm k j)

  module _ (f : V → ℕ) where
    abbrev pub total : Map V → ℕ
    total [] = 0
    total ((k, v) ∷ m) = f v + total m

    abbrev pub at : Option V → ℕ
    at none = 0
    at (some v) = f v

    pub total-insert_ordered :
        (k : Bytes) (v : V) (m : Map V)
        → Ordered m
        → total (insert_ordered k v m) + at (lookup k m) ≡ total m + f v
    unfolding insert_ordered lookup
    total-insert_ordered k v [] o = ground arith
    total-insert_ordered k v ((j, w) ∷ m) o =
        ground (arith, total-insert_ordered k v m o.1, lookup-Above k m, Above-trans k j m)

    pub total-erase :
        (k : Bytes) (m : Map V) → Ordered m → total (erase k m) + at (lookup k m) ≡ total m
    unfolding erase lookup
    total-erase k [] o = ground arith
    total-erase k ((j, w) ∷ m) o =
        ground (arith, total-erase k m o.1, lookup-Above j m o.0, bytes_beq_iff j k)
