-- ===== src/Bytes.antt =====
-- Reading and writing big-endian numbers in byte strings: `parse_u16`, `parse_u24`, `parse_u32` of
-- common/src/lib.rs, `round_up_to_multiple_of` of common/src/math.rs, and slices. A byte is a
-- number, and a reader that is handed too few bytes panics in the source: the callers of this
-- development test the length first, and the reader gives 0.
mod Slices
pub use Slices.*
use signal_calling_service.Prelude.{
  ℕ, ◌+◌, ◌-◌, ◌*◌, ◌/◌, ◌%◌, ◌<◌, ◌≤◌, ◌≡◌, refl, List, [], ◌∷◌, ◌++◌, length, take, drop, arith,
}

-- `to_be_bytes` of u16, U24 and u32.
abbrev pub be16 : ℕ → List ℕ
be16 n = (n / 256 % 256) ∷ (n % 256) ∷ []

abbrev pub be24 : ℕ → List ℕ
be24 n = (n / 65536 % 256) ∷ (n / 256 % 256) ∷ (n % 256) ∷ []

abbrev pub be32 : ℕ → List ℕ
be32 n = (n / 16777216 % 256) ∷ (n / 65536 % 256) ∷ (n / 256 % 256) ∷ (n % 256) ∷ []

-- U48 and u64.
abbrev pub be48 : ℕ → List ℕ
be48 n = be16 (n / 4294967296) ++ be32 n

abbrev pub be64 : ℕ → List ℕ
be64 n = be32 (n / 4294967296) ++ be32 n

abbrev pub parse_u16 : List ℕ → ℕ
parse_u16 (a ∷ b ∷ rest) = a * 256 + b
parse_u16 _ = 0

abbrev pub parse_u24 : List ℕ → ℕ
parse_u24 (a ∷ b ∷ c ∷ rest) = (a * 256 + b) * 256 + c
parse_u24 _ = 0

abbrev pub parse_u32 : List ℕ → ℕ
parse_u32 (a ∷ b ∷ c ∷ d ∷ rest) = ((a * 256 + b) * 256 + c) * 256 + d
parse_u32 _ = 0

-- `round_up_to_multiple_of::<M>`
abbrev pub round_up_to_multiple_of : ℕ → ℕ → ℕ
round_up_to_multiple_of m n = (n + (m - 1)) / m * m

pub parse_u16-be16 : (n : ℕ) (rest : List ℕ) → n < 65536 → parse_u16 (be16 n ++ rest) ≡ n
parse_u16-be16 n rest h = omega arith

pub parse_u24-be24 : (n : ℕ) (rest : List ℕ) → n < 16777216 → parse_u24 (be24 n ++ rest) ≡ n
parse_u24-be24 n rest h = omega arith

pub parse_u32-be32 : (n : ℕ) (rest : List ℕ) → n < 4294967296 → parse_u32 (be32 n ++ rest) ≡ n
parse_u32-be32 n rest h = omega arith

pub ≤-round_up_to_multiple_of : (n : ℕ) → n ≤ round_up_to_multiple_of 4 n
≤-round_up_to_multiple_of n = omega arith
