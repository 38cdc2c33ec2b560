-- ===== src/Beacon/Port.antt =====
-- common/config.h: `parsePort` and the decimal text of a port.
use wisp.Prelude.{
  ℕ, zero, suc, ◌+◌, ◌*◌, ◌/◌, ◌%◌, ◌^◌, ◌≤◌, ◌<◌, ◌≡◌, refl, ap, ◌∙◌, inl, inr, Bool-cases, true,
  false, Bool, some, [], ◌∷◌, ◌++◌, append_assoc, ltb, if◌then◌else◌, arith, Bytes, nat_eq,
  Option-cases,
}
use wisp.Beacon.{is_digit, digits_value, stoi, port_of, parse_port, digits_of, to_string}

-- Nothing more of the number follows.
abbrev pub StopsNumber : Bytes → Type 0
StopsNumber [] = Unit {0}
StopsNumber (c ∷ s) = is_digit c ≡ false

digits_value-stop : (acc : ℕ) (s : Bytes) → StopsNumber s → digits_value acc s ≡ acc
unfolding digits_value
digits_value-stop acc [] h = refl
digits_value-stop acc (c ∷ s) h = rw h

digits_value-digit :
    (acc d : ℕ) (s : Bytes)
    → d < 10
    → digits_value acc ((b'0' + d) ∷ s) ≡ digits_value (acc * 10 + d) s
unfolding digits_value
digits_value-digit acc d s h = ground arith

pub digits_of_small : (fuel n : ℕ) → ltb n 10 ≡ true → digits_of (suc fuel) n ≡ (b'0' + n) ∷ []
unfolding digits_of
digits_of_small fuel n h = rw (h, digits_of)

pub digits_of_large :
    (fuel n : ℕ)
    → ltb n 10 ≡ false
    → digits_of (suc fuel) n ≡ digits_of fuel (n / 10) ++ (b'0' + n % 10) ∷ []
unfolding digits_of
digits_of_large fuel n h = rw (h, digits_of)

digits_value-digits_of :
    (fuel n : ℕ) (rest : Bytes)
    → n < fuel
    → digits_value 0 (digits_of fuel n ++ rest) ≡ digits_value n rest
digits_value-digits_of zero n rest h = absurd (omega arith)
digits_value-digits_of (suc fuel) n rest h = elim (Bool-cases (ltb n 10)) [
  | inl small ↦ rw (digits_of_small fuel n small) (
      digits_value-digit 0 n rest (ground arith)
      ∙ ap (λ (v : ℕ). digits_value v rest) (omega arith))
  | inr large ↦ rw (digits_of_large fuel n large) (
      rw (append_assoc (digits_of fuel (n / 10)) ((b'0' + n % 10) ∷ []) rest) (
        digits_value-digits_of fuel (n / 10) ((b'0' + n % 10) ∷ rest) (ground arith)
        ∙ digits_value-digit (n / 10) (n % 10) rest (omega arith)
        ∙ ap (λ (v : ℕ). digits_value v rest) (omega arith)))
]

-- The text begins with a digit.
abbrev pub StartsDigit : Bytes → Type 0
StartsDigit [] = ⊥
StartsDigit (c ∷ s) = is_digit c ≡ true

StartsDigit-append : (a b : Bytes) → StartsDigit a → StartsDigit (a ++ b)
StartsDigit-append [] b h = absurd h
StartsDigit-append (c ∷ a) b h = h

digits_of-StartsDigit : (fuel n : ℕ) → n < fuel → StartsDigit (digits_of fuel n)
unfolding is_digit
digits_of-StartsDigit zero n h = absurd (omega arith)
digits_of-StartsDigit (suc fuel) n h = elim (Bool-cases (ltb n 10)) [
  | inl small ↦ rw (digits_of_small fuel n small) (ground arith)
  | inr large ↦ rw (digits_of_large fuel n large) (
      StartsDigit-append (digits_of fuel (n / 10)) _
        (digits_of-StartsDigit fuel (n / 10) (ground arith)))
]

stoi-digits :
    (s : Bytes) (v : ℕ)
    → StartsDigit s
    → digits_value 0 s ≡ v
    → v < 2 ^ 31
    → stoi s ≡ some (record { negative = false; magnitude = v })
unfolding stoi is_digit
stoi-digits [] v h e lt = absurd h
stoi-digits (c ∷ s) v h e lt = ground arith

-- A port number is read back from its decimal text, whatever text that is no digit follows: the
-- rest is not looked at.
pub parse_port-to_string :
    (n : ℕ) (rest : Bytes) (zero_allowed : Bool)
    → StopsNumber rest
    → n ≤ 65535
    → (if zero_allowed then 0 else 1) ≤ n
    → parse_port (to_string n ++ rest) zero_allowed ≡ some n
unfolding parse_port to_string port_of
parse_port-to_string n rest zero_allowed stops hi lo =
    let value =
      stoi-digits (digits_of (suc n) n ++ rest) n
        (StartsDigit-append (digits_of (suc n) n) rest
          (digits_of-StartsDigit (suc n) n (omega arith)))
        (digits_value-digits_of (suc n) n rest (omega arith) ∙ digits_value-stop n rest stops)
        (omega arith) in
    rw value (ground arith)

-- Every number that is accepted is in range.
pub parse_port_range :
    (text : Bytes) (zero_allowed : Bool) (n : ℕ)
    → parse_port text zero_allowed ≡ some n
    → (n ≤ 65535) × ((if zero_allowed then 0 else 1) ≤ n)
unfolding parse_port port_of
parse_port_range text zero_allowed n h = elim (Option-cases (stoi text)) [
  | inl e ↦ absurd (ground (arith, e))
  | inr (p, e) ↦ ground (arith, e)
]
