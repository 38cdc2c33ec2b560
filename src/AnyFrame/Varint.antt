-- ===== src/AnyFrame/Varint.antt =====
-- common/anyframe.h, `readVarint`, and the length that `appendLengthDelimited` writes.
use native.Mathlib.Nat.{add-mul, mul_comm, mul_assoc, pow-suc, pow-zero}
use wisp.Prelude.{
  ◌≡◌, sym, ap, ◌∙◌, inl, inr, Bool-cases, ℕ, zero, suc, ◌+◌, ◌*◌, ◌/◌, ◌%◌, ◌^◌, ◌<◌, some, ◌++◌,
  ltb, Bytes, arith, true, false,
}
use wisp.AnyFrame.{read_varint_from, read_varint, varint}

split : (n p : ℕ) → n % 128 * p + n / 128 * (p * 128) ≡ n * p
split n p =
    ap (λ x. n % 128 * p + x)
      (ap (λ x. n / 128 * x) (mul_comm p 128) ∙ sym (mul_assoc (n / 128) 128 p))
    ∙ sym (add-mul (n % 128) (n / 128 * 128) p)
    ∙ ap (λ x. x * p) (omega arith)

-- The last byte of a number, and one before it.
last_byte : (n p out : ℕ) → n < 128 → n * p < 2 ^ 64 → out + n % 128 * p % 2 ^ 64 ≡ out + n * p
last_byte n p out h small = ap (λ x. out + x * p % 2 ^ 64) same ∙ omega (arith, small)
  where
    same : n % 128 ≡ n
    same = omega (arith, h)

other_byte :
    (n p out : ℕ)
    → n * p < 2 ^ 64
    → out + (n % 128 + 128) % 128 * p % 2 ^ 64 + n / 128 * (p * 128) ≡ out + n * p
other_byte n p out small =
    ap (λ x. out + x * p % 2 ^ 64 + n / 128 * (p * 128)) same ∙ omega (arith, split n p, small)
  where
    same : (n % 128 + 128) % 128 ≡ n % 128
    same = omega arith

flagged : (n : ℕ) → ltb (n % 128 + 128) 128 ≡ false
flagged n = ground arith

-- What is written of a number within the bytes and bits that are left is read back.
read_varint_from-varint :
    (fuel n p out : ℕ) (rest : Bytes)
    → n < 128 ^ suc fuel
    → n * p < 2 ^ 64
    → read_varint_from (suc fuel) p (varint (suc fuel) n ++ rest) out ≡ some (out + n * p, rest)
unfolding read_varint_from varint
read_varint_from-varint zero n p out rest fits small =
    rw (only, only) (ap (λ x. some (x, rest)) (last_byte n p out (ground (arith, only)) small))
  where
    only : ltb n 128 ≡ true
    only = ground (arith, fits, pow-suc 128 0, pow-zero 128)
read_varint_from-varint (suc left) n p out rest fits small = elim (Bool-cases (ltb n 128)) [
  | inl last ↦
      rw (last, last) (ap (λ x. some (x, rest)) (last_byte n p out (ground (arith, last)) small))
  | inr more ↦
      rw (more, flagged n)
        (read_varint_from-varint left (n / 128) (p * 128) (out + (n % 128 + 128) % 128 * p % 2 ^ 64)
            rest (omega (arith, fits, pow-suc 128 (suc left))) (omega (arith, split n p, small))
          ∙ ap (λ x. some (x, rest)) (other_byte n p out small))
]

pub read_varint-varint :
    (n : ℕ) (rest : Bytes) → n < 2 ^ 64 → read_varint (varint 10 n ++ rest) ≡ some (n, rest)
unfolding read_varint
read_varint-varint n rest h =
    read_varint_from-varint 9 n 1 0 rest (omega (arith, h)) (omega (arith, h))
    ∙ ap (λ x. some (x, rest)) (omega arith)
