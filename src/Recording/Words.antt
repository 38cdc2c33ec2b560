-- ===== src/Recording/Words.antt =====
-- cli/recording.cpp: the fixed little-endian words.
use wisp.Prelude.{ℕ, zero, suc, ◌+◌, ◌*◌, ◌/◌, ◌%◌, ◌^◌, ◌<◌, ◌≡◌, refl, ap, arith, length}
use wisp.Recording.{le_bytes, le_value, append_le64, append_le32}

pub length-le_bytes : (n value : ℕ) → length (le_bytes n value) ≡ n
unfolding le_bytes
length-le_bytes zero value = refl
length-le_bytes (suc n) value = ap suc (length-le_bytes n (value / 256))

le_value-bytes :
    (n value : ℕ)
    → le_value (le_bytes (suc n) value) ≡ value % 256 + 256 * le_value (le_bytes n (value / 256))
unfolding le_bytes le_value
le_value-bytes n value = refl

le_value-none : (value : ℕ) → le_value (le_bytes 0 value) ≡ 0
unfolding le_bytes le_value
le_value-none value = refl

-- A 32-bit word is read back as it was written.
pub le_value-append_le32 : (v : ℕ) → v < 2 ^ 32 → le_value (append_le32 v) ≡ v
unfolding append_le32 le_bytes le_value
le_value-append_le32 v h = omega arith

-- So is a 64-bit word.
pub le_value-append_le64 : (v : ℕ) → v < 2 ^ 64 → le_value (append_le64 v) ≡ v
unfolding append_le64 le_bytes le_value
le_value-append_le64 v h = omega arith
