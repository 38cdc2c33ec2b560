-- ===== src/Prelude/ByteString.antt =====
-- `std::string` is a sequence of bytes: a list of numbers below 256, compared byte by byte.
use Prim.Native.Nat.{ℕ}
use Prim.Native.Char.{code}
use Prim.Native.String.{String}
use mathlib.Core.Path.{◌≡◌, refl}
use mathlib.Core.Logic.{◌↔◌, ◌⊎◌, inl, inr}
use mathlib.Core.Bool.{Bool, true, false, ◌&&◌}
use mathlib.Core.List.{List, [], ◌∷◌}
use native.Mathlib.Omega.{arith}
use wisp.Prelude.Tests.{Eq, ltb, nat_beq, if◌then◌else◌}

abbrev pub Bytes : Type 0
Bytes = List ℕ

-- The bytes of an ASCII literal.
abbrev pub codes : String → Bytes
codes String.[] = []
codes (String.◌∷◌ c s) = code c ∷ codes s

unfoldable pub bytes_beq : Bytes → Bytes → Bool
bytes_beq [] [] = true
bytes_beq [] (y ∷ ys) = false
bytes_beq (x ∷ xs) [] = false
bytes_beq (x ∷ xs) (y ∷ ys) = nat_beq x y && bytes_beq xs ys

eq_of_beq : (a b : Bytes) → bytes_beq a b ≡ true → a ≡ b
unfolding bytes_beq
eq_of_beq [] [] h = refl
eq_of_beq [] (y ∷ ys) h = cc
eq_of_beq (x ∷ xs) [] h = cc
eq_of_beq (x ∷ xs) (y ∷ ys) h = ground (arith, eq_of_beq xs ys)

pub beq_refl : (a : Bytes) → bytes_beq a a ≡ true
unfolding bytes_beq
beq_refl [] = refl
beq_refl (x ∷ xs) = ground (arith, beq_refl xs)

pub bytes_beq_iff : (a b : Bytes) → (bytes_beq a b ≡ true) ↔ (a ≡ b)
bytes_beq_iff a b = (eq_of_beq a b, λ e. rw e (beq_refl b))

instance abbrev pub bytes_eq : Eq Bytes
bytes_eq = record { same = bytes_beq; same_iff = bytes_beq_iff }

-- `std::string::operator<`: lexicographic, by unsigned bytes.
unfoldable pub before : Bytes → Bytes → Bool
before [] [] = false
before [] (y ∷ ys) = true
before (x ∷ xs) [] = false
before (x ∷ xs) (y ∷ ys) = if ltb x y then true else (nat_beq x y && before xs ys)

-- `s.rfind(prefix, 0) == 0`
unfoldable pub starts_with : Bytes → Bytes → Bool
starts_with [] s = true
starts_with (p ∷ ps) [] = false
starts_with (p ∷ ps) (c ∷ s) = nat_beq p c && starts_with ps s

-- `s.find(c) != npos`
unfoldable pub has_byte : ℕ → Bytes → Bool
has_byte c [] = false
has_byte c (x ∷ xs) = if nat_beq x c then true else has_byte c xs

-- The order of strings is total and strict.
pub before_total : (a b : Bytes) → (before a b ≡ true) ⊎ (a ≡ b) ⊎ (before b a ≡ true)
unfolding before
before_total [] [] = inr (inl refl)
before_total [] (y ∷ ys) = inl refl
before_total (x ∷ xs) [] = inr (inr refl)
before_total (x ∷ xs) (y ∷ ys) = ground (arith, before_total xs ys)

pub before_asymm : (a b : Bytes) → before a b ≡ true → before b a ≡ false
unfolding before
before_asymm [] [] h = cc
before_asymm [] (y ∷ ys) h = refl
before_asymm (x ∷ xs) [] h = cc
before_asymm (x ∷ xs) (y ∷ ys) h = ground (arith, before_asymm xs ys)
