-- ===== src/CartridgeFormat/Words.antt =====
-- Little-endian words: what is written is read back.
use ezfadvance_iii.Prelude.{
  ℕ, zero, suc, ◌+◌, ◌/◌, ◌%◌, ◌≤◌, ◌<◌, ◌≡◌, ◌≢◌, ◌⊎◌, ◌∙◌, refl, ap, List, [], ◌∷◌, length, set,
  arith, length-set, All,
}
use ezfadvance_iii.Prelude.Bytes.{byte_at, IsByte, IsU32, byte_at-IsByte}
use ezfadvance_iii.CartridgeFormat.{read_le32, write_le32}

pub byte_at-set : (xs : List ℕ) (i j v : ℕ) → i < length xs → i ≡ j → byte_at (set xs i v) j ≡ v
byte_at-set [] i j v h e = absurd (omega arith)
byte_at-set (x ∷ xs) zero zero v h e = refl
byte_at-set (x ∷ xs) zero (suc j) v h e = absurd (omega arith)
byte_at-set (x ∷ xs) (suc i) zero v h e = absurd (omega arith)
byte_at-set (x ∷ xs) (suc i) (suc j) v h e = byte_at-set xs i j v (omega arith) (omega arith)

pub byte_at-set_ne : (xs : List ℕ) (i j v : ℕ) → i ≢ j → byte_at (set xs i v) j ≡ byte_at xs j
byte_at-set_ne [] i j v h = refl
byte_at-set_ne (x ∷ xs) zero zero v h = absurd (h refl)
byte_at-set_ne (x ∷ xs) zero (suc j) v h = refl
byte_at-set_ne (x ∷ xs) (suc i) zero v h = refl
byte_at-set_ne (x ∷ xs) (suc i) (suc j) v h = byte_at-set_ne xs i j v (λ e. h (ap suc e))

-- Whatever was read is a 32-bit word.
pub read_le32-IsU32 : (bytes : List ℕ) (off : ℕ) → All IsByte bytes → IsU32 (read_le32 bytes off)
unfolding read_le32
read_le32-IsU32 bytes off h = omega (
  arith,
  byte_at-IsByte bytes off h,
  byte_at-IsByte bytes (off + 1) h,
  byte_at-IsByte bytes (off + 2) h,
  byte_at-IsByte bytes (off + 3) h,
)

pub length-write_le32 : (v : List ℕ) (off x : ℕ) → length (write_le32 v off x) ≡ length v
unfolding write_le32
length-write_le32 v off x = simp length-set

module _ (v : List ℕ) (off x j : ℕ) where
  -- Bytes outside the four that are written stay.
  pub byte_at-write_le32_ne :
      (j < off) ⊎ (off + 4 ≤ j) → byte_at (write_le32 v off x) j ≡ byte_at v j
  unfolding write_le32
  byte_at-write_le32_ne h =
      byte_at-set_ne _ (off + 3) j _ (λ e. ground arith)
      ∙ byte_at-set_ne _ (off + 2) j _ (λ e. ground arith)
      ∙ byte_at-set_ne _ (off + 1) j _ (λ e. ground arith)
      ∙ byte_at-set_ne _ off j _ (λ e. ground arith)

module _ (v : List ℕ) (off x : ℕ) (fits : off + 4 ≤ length v) where
  written_first : byte_at (write_le32 v off x) off ≡ x % 256
  unfolding write_le32
  written_first =
      byte_at-set_ne _ (off + 3) off _ (λ e. omega arith)
      ∙ byte_at-set_ne _ (off + 2) off _ (λ e. omega arith)
      ∙ byte_at-set_ne _ (off + 1) off _ (λ e. omega arith)
      ∙ byte_at-set _ off off _ (omega arith) refl

  written_second : byte_at (write_le32 v off x) (off + 1) ≡ x / 256 % 256
  unfolding write_le32
  written_second =
      byte_at-set_ne _ (off + 3) (off + 1) _ (λ e. omega arith)
      ∙ byte_at-set_ne _ (off + 2) (off + 1) _ (λ e. omega arith)
      ∙ byte_at-set _ (off + 1) (off + 1) _ (simp length-set (omega arith)) refl

  written_third : byte_at (write_le32 v off x) (off + 2) ≡ x / 65536 % 256
  unfolding write_le32
  written_third =
      byte_at-set_ne _ (off + 3) (off + 2) _ (λ e. omega arith)
      ∙ byte_at-set _ (off + 2) (off + 2) _ (simp length-set (omega arith)) refl

  written_fourth : byte_at (write_le32 v off x) (off + 3) ≡ x / 16777216 % 256
  unfolding write_le32
  written_fourth = byte_at-set _ (off + 3) (off + 3) _ (simp length-set (omega arith)) refl

  -- A 32-bit word that is written inside the vector is read back.
  pub read_le32-write_le32 : IsU32 x → read_le32 (write_le32 v off x) off ≡ x
  unfolding read_le32
  read_le32-write_le32 h =
      omega (arith, written_first, written_second, written_third, written_fourth)

  -- A word that is read elsewhere stays.
  pub read_le32-write_le32_ne :
      (j : ℕ) → (j + 4 ≤ off) ⊎ (off + 4 ≤ j) → read_le32 (write_le32 v off x) j ≡ read_le32 v j
  unfolding read_le32
  read_le32-write_le32_ne j h = ground (
    arith,
    byte_at-write_le32_ne v off x j,
    byte_at-write_le32_ne v off x (j + 1),
    byte_at-write_le32_ne v off x (j + 2),
    byte_at-write_le32_ne v off x (j + 3),
  )

-- The word that is read at the front of one vector, written at the front of another, gives the
-- first vector's bytes.
pub byte_at-write_le32-read_le32 :
    (v w : List ℕ) (j : ℕ)
    → 4 ≤ length v
    → All IsByte w
    → j < 4
    → byte_at (write_le32 v 0 (read_le32 w 0)) j ≡ byte_at w j
unfolding read_le32
byte_at-write_le32-read_le32 v w zero fits h lt =
    omega (arith, written_first v 0 (read_le32 w 0) fits, byte_at-IsByte w 0 h)
byte_at-write_le32-read_le32 v w (suc zero) fits h lt =
    omega
      (arith, written_second v 0 (read_le32 w 0) fits, byte_at-IsByte w 0 h, byte_at-IsByte w 1 h)
byte_at-write_le32-read_le32 v w (suc (suc zero)) fits h lt = omega (
  arith,
  written_third v 0 (read_le32 w 0) fits,
  byte_at-IsByte w 0 h,
  byte_at-IsByte w 1 h,
  byte_at-IsByte w 2 h,
)
byte_at-write_le32-read_le32 v w (suc (suc (suc zero))) fits h lt = omega (
  arith,
  written_fourth v 0 (read_le32 w 0) fits,
  byte_at-IsByte w 0 h,
  byte_at-IsByte w 1 h,
  byte_at-IsByte w 2 h,
  byte_at-IsByte w 3 h,
)
byte_at-write_le32-read_le32 v w (suc (suc (suc (suc j)))) fits h lt = absurd (omega arith)
