-- ===== src/Beacon/Fields.antt =====
-- common/beacon.cpp: splitting a beacon at the bars.
use wisp.Prelude.{
  ℕ, ◌≡◌, refl, inl, inr, Bool-cases, true, false, List, [], ◌∷◌, ◌++◌, if◌then◌else◌, arith, Bytes,
  nat_eq, ◌==◌, has_byte,
}
use wisp.Beacon.{fields_of, bar, extend}

pub has_byte-append :
    (c : ℕ) (a b : Bytes) → has_byte c (a ++ b) ≡ (if has_byte c a then true else has_byte c b)
unfolding has_byte
has_byte-append c [] b = refl
has_byte-append c (x ∷ a) b = ground (arith, has_byte-append c a b)

-- The first field ends at the first bar.
pub fields_of-bar :
    (a s : Bytes) → has_byte bar a ≡ false → fields_of (a ++ bar ∷ s) ≡ a ∷ fields_of s
unfolding fields_of has_byte
fields_of-bar [] s h = refl
fields_of-bar (c ∷ a) s h = ground (arith, fields_of-bar a s)

pub fields_of-last : (a : Bytes) → has_byte bar a ≡ false → fields_of a ≡ a ∷ []
unfolding fields_of has_byte
fields_of-last [] h = refl
fields_of-last (c ∷ a) h = ground (arith, fields_of-last a)

-- No field holds a bar.
abbrev pub NoBars : List Bytes → Type 0
NoBars [] = Unit {0}
NoBars (f ∷ fs) = (has_byte bar f ≡ false) × NoBars fs

extend-NoBars : (c : ℕ) (fs : List Bytes) → (c == bar) ≡ false → NoBars fs → NoBars (extend c fs)
unfolding has_byte
extend-NoBars c [] h n = ground arith
extend-NoBars c (f ∷ fs) h n = ground arith

pub fields_of-NoBars : (s : Bytes) → NoBars (fields_of s)
unfolding fields_of has_byte
fields_of-NoBars [] = (refl, tt)
fields_of-NoBars (c ∷ s) = elim (Bool-cases (c == bar)) [
  | inl e ↦ rw e (refl, fields_of-NoBars s)
  | inr e ↦ rw e (extend-NoBars c (fields_of s) e (fields_of-NoBars s))
]
