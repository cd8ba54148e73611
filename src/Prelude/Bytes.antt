-- ===== src/Prelude/Bytes.antt =====
-- Bytes and machine words as native numbers: ranges, wrap-around and the byte vectors' accessors.
use ezfadvance_iii.Prelude.Lists.{get_or, All}
use Prim.Native.Nat.{ℕ, zero, suc, ◌%◌, ◌<◌}
use mathlib.Core.List.{List, [], ◌∷◌}
use native.Mathlib.Omega.{arith}

abbrev pub IsByte : ℕ → Type 0
IsByte b = b < 256

abbrev pub IsU16 : ℕ → Type 0
IsU16 n = n < 65536

abbrev pub IsU32 : ℕ → Type 0
IsU32 n = n < 4294967296

abbrev pub u8 : ℕ → ℕ
u8 n = n % 256

abbrev pub u16 : ℕ → ℕ
u16 n = n % 65536

abbrev pub u32 : ℕ → ℕ
u32 n = n % 4294967296

-- `bytes[i]`; the code reads in range only.
abbrev pub byte_at : List ℕ → ℕ → ℕ
byte_at bytes i = get_or bytes i 0

pub byte_at-IsByte : (bytes : List ℕ) (i : ℕ) → All IsByte bytes → IsByte (byte_at bytes i)
byte_at-IsByte [] i h = omega arith
byte_at-IsByte (x ∷ xs) zero h = h.0
byte_at-IsByte (x ∷ xs) (suc i) h = byte_at-IsByte xs i h.1
