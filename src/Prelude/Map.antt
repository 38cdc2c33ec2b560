-- ===== src/Prelude/Map.antt =====
-- `std::map` and `std::unordered_map` with string keys: an association list. The laws hold for
-- every order of the entries; `insert_ordered` keeps the order in which `std::map` iterates.
use mathlib.Core.Logic.{◌≢◌}
use Prim.Native.Nat.{suc}
use mathlib.Core.Path.{◌≡◌, refl}
use mathlib.Core.Bool.{Bool, true, false}
use wisp.Prelude.Lists.{length}
use mathlib.Core.Option.{Option, none, some}
use mathlib.Core.List.{List, [], ◌∷◌}
use native.Mathlib.Omega.{arith}
use wisp.Prelude.Tests.{◌==◌, if◌then◌else◌, is_some}
use wisp.Prelude.ByteString.{Bytes, bytes_eq, bytes_beq_iff, before}

abbrev pub Map {ℓ} : Type ℓ → Type ℓ
Map V = List (Bytes × V)

module _ {ℓ} {V : Type ℓ} where
  unfoldable pub lookup : Bytes → Map V → Option V
  lookup k [] = none
  lookup k ((j, w) ∷ rest) = if j == k then some w else lookup k rest

  -- `m[k] = v`
  unfoldable pub insert : Bytes → V → Map V → Map V
  insert k v [] = (k, v) ∷ []
  insert k v ((j, w) ∷ rest) = if j == k then (k, v) ∷ rest else (j, w) ∷ insert k v rest

  -- `m[k] = v` on a map that iterates in the order of its keys
  unfoldable pub insert_ordered : Bytes → V → Map V → Map V
  insert_ordered k v [] = (k, v) ∷ []
  insert_ordered k v ((j, w) ∷ m) =
      if j == k
      then (k, v) ∷ m
      else if before k j
      then (k, v) ∷ (j, w) ∷ m
      else (j, w) ∷ insert_ordered k v m

  -- `m.erase(k)`
  unfoldable pub erase : Bytes → Map V → Map V
  erase k [] = []
  erase k ((j, v) ∷ m) = let rest = erase k m in if j == k then rest else (j, v) ∷ rest

  unfoldable pub contains : Bytes → Map V → Bool
  contains k m = is_some (lookup k m)

  unfoldable pub keys : Map V → List Bytes
  keys [] = []
  keys ((k, v) ∷ m) = k ∷ keys m

  pub lookup-insert :
      (k j : Bytes) (v : V) (m : Map V)
      → lookup j (insert k v m) ≡ (if k == j then some v else lookup j m)
  unfolding lookup insert
  lookup-insert k j v [] = refl
  lookup-insert k j v ((i, w) ∷ rest) =
      ground
        (arith, lookup-insert k j v rest, bytes_beq_iff i j, bytes_beq_iff i k, bytes_beq_iff k j)

  pub lookup-insert_ordered :
      (k j : Bytes) (v : V) (m : Map V)
      → lookup j (insert_ordered k v m) ≡ (if k == j then some v else lookup j m)
  unfolding lookup insert_ordered
  lookup-insert_ordered k j v [] = refl
  lookup-insert_ordered k j v ((i, w) ∷ m) = ground (
    arith,
    bytes_beq_iff k j,
    bytes_beq_iff i k,
    bytes_beq_iff i j,
    lookup-insert_ordered k j v m,
  )

  pub lookup-erase :
      (k j : Bytes) (m : Map V) → lookup j (erase k m) ≡ (if k == j then none else lookup j m)
  unfolding lookup erase
  lookup-erase k j [] = ground arith
  lookup-erase k j ((i, v) ∷ m) =
      ground (arith, lookup-erase k j m, bytes_beq_iff i k, bytes_beq_iff i j, bytes_beq_iff k j)

  pub insert-ne-nil : (k : Bytes) (v : V) (m : Map V) → insert k v m ≢ []
  unfolding insert
  insert-ne-nil k v [] e = cc
  insert-ne-nil k v ((j, w) ∷ m) e = ground arith

  pub insert_ordered-ne-nil : (k : Bytes) (v : V) (m : Map V) → insert_ordered k v m ≢ []
  unfolding insert_ordered
  insert_ordered-ne-nil k v [] e = cc
  insert_ordered-ne-nil k v ((j, w) ∷ m) e = ground arith

  -- No key stands twice.
  abbrev pub Distinct : Map V → Type 0
  Distinct [] = Unit {0}
  Distinct ((k, v) ∷ m) = (contains k m ≡ false) × Distinct m

  pub contains-insert :
      (k j : Bytes) (v : V) (m : Map V)
      → contains j (insert k v m) ≡ (if k == j then true else contains j m)
  unfolding contains
  contains-insert k j v m = ground (arith, lookup-insert k j v m)

  pub contains-erase :
      (k j : Bytes) (m : Map V) → contains j (erase k m) ≡ (if k == j then false else contains j m)
  unfolding contains
  contains-erase k j m = ground (arith, lookup-erase k j m)

  pub insert-Distinct : (k : Bytes) (v : V) (m : Map V) → Distinct m → Distinct (insert k v m)
  unfolding insert contains lookup
  insert-Distinct k v [] d = (refl, tt)
  insert-Distinct k v ((j, w) ∷ m) d = ground (
    arith,
    insert-Distinct k v m d.1,
    contains-insert k j v m,
    bytes_beq_iff j k,
    bytes_beq_iff k j,
  )

  pub length-insert :
      (k : Bytes) (v : V) (m : Map V)
      → length (insert k v m) ≡ (if contains k m then length m else suc (length m))
  unfolding insert contains lookup
  length-insert k v [] = refl
  length-insert k v ((j, w) ∷ m) = ground (arith, length-insert k v m)
