-- ===== src/Prelude/Bits.antt =====
-- `bit_and` with masks: a mask of low ones is a remainder, a mask without its low bits rounds down.
use Prim.Native.Nat.{
  ℕ, zero, suc, ◌+◌, ◌-◌, ◌*◌, ◌/◌, ◌%◌, ◌^◌, ◌≤◌, ◌<◌, min, bit_and, digits, bit_and-bitwise,
}
use mathlib.Core.Path.{◌≡◌, refl, ap, ◌∙◌}
use native.Mathlib.Omega.{arith}

-- What `bit_and` stands for, with its rounds counted.
abbrev folded : ℕ → ℕ → ℕ → ℕ
folded rounds x y = digits (λ z. zero) min rounds x y

-- One round more than the first number changes nothing.
folded_more : (rounds x y : ℕ) → x ≤ rounds → folded (suc rounds) x y ≡ folded rounds x y
folded_more zero zero y h = refl
folded_more zero (suc x) y h = absurd (omega arith)
folded_more (suc rounds) zero y h = refl
folded_more (suc rounds) (suc x) y h =
    omega (arith, folded_more rounds (suc x / 2) (y / 2) (omega arith))

folded_add : (extra rounds x y : ℕ) → x ≤ rounds → folded (extra + rounds) x y ≡ folded rounds x y
folded_add zero rounds x y h = let e : 0 + rounds ≡ rounds = omega arith in ap (λ n. folded n x y) e
folded_add (suc extra) rounds x y h =
    let e : suc extra + rounds ≡ suc (extra + rounds) = omega arith in
    ap (λ n. folded n x y) e
    ∙ folded_more (extra + rounds) x y (omega arith)
    ∙ folded_add extra rounds x y h

-- `bit_and` one digit at a time, from the lowest.
bit_and-halves : (x y : ℕ) → bit_and x y ≡ 2 * bit_and (x / 2) (y / 2) + min (x % 2) (y % 2)
bit_and-halves zero y = omega (arith, bit_and-bitwise 0 y, bit_and-bitwise 0 (y / 2))
bit_and-halves (suc x) y =
    let half = suc x / 2 in
    let e : x ≡ (x - half) + half = omega arith in
    let shorter : folded x half (y / 2) ≡ folded half half (y / 2) =
      ap (λ n. folded n half (y / 2)) e ∙ folded_add (x - half) half half (y / 2) (omega arith) in
    omega (arith, bit_and-bitwise (suc x) y, bit_and-bitwise half (y / 2), shorter)

-- `n` ones.
abbrev pub ones : ℕ → ℕ
ones zero = 0
ones (suc n) = ones n * 2 + 1

-- A number below `2 ^ n` under `n` ones is itself.
pub bit_and-ones : (n a : ℕ) → a ≤ ones n → bit_and a (ones n) ≡ a
bit_and-ones zero zero h = refl
bit_and-ones zero (suc a) h = absurd (omega arith)
bit_and-ones (suc n) a h =
    let half : (ones n * 2 + 1) / 2 ≡ ones n = omega arith in
    let ih : bit_and (a / 2) ((ones n * 2 + 1) / 2) ≡ a / 2 =
      rw half (bit_and-ones n (a / 2) (omega arith)) in
    omega (arith, bit_and-halves a (ones n * 2 + 1), ih)

-- A mask of `m` ones and `k` zeros below them.
abbrev pub mask : ℕ → ℕ → ℕ
mask m zero = ones m
mask m (suc k) = mask m k * 2

abbrev pub low_bits : ℕ → ℕ
low_bits zero = 1
low_bits (suc k) = low_bits k * 2

abbrev pub shifted : ℕ → ℕ → ℕ
shifted zero a = a
shifted (suc k) a = shifted k (a / 2)

abbrev pub unshifted : ℕ → ℕ → ℕ
unshifted zero a = a
unshifted (suc k) a = unshifted k a * 2

-- The low bits are cleared.
pub bit_and-mask :
    (m k a : ℕ) → shifted k a ≤ ones m → bit_and a (mask m k) ≡ unshifted k (shifted k a)
bit_and-mask m zero a h = bit_and-ones m a h
bit_and-mask m (suc k) a h =
    let half : mask m k * 2 / 2 ≡ mask m k = omega arith in
    let ih : bit_and (a / 2) (mask m k * 2 / 2) ≡ unshifted k (shifted k (a / 2)) =
      rw half (bit_and-mask m k (a / 2) h) in
    omega (arith, bit_and-halves a (mask m k * 2), ih)

-- `x & ~15` in 64 bits.
pub bit_and_sixteen : (a : ℕ) → a < 2 ^ 64 → bit_and a (2 ^ 64 - 1 - 15) ≡ a / 16 * 16
bit_and_sixteen a h = omega (arith, bit_and-mask 60 4 a (omega arith))

-- `x & ~15` in 32 bits.
pub bit_and_sixteen_u32 : (a : ℕ) → a < 2 ^ 32 → bit_and a (2 ^ 32 - 1 - 15) ≡ a / 16 * 16
bit_and_sixteen_u32 a h = omega (arith, bit_and-mask 28 4 a (omega arith))

-- `x & ~0xFF` in 64 bits.
pub bit_and_byte : (a : ℕ) → a < 2 ^ 64 → bit_and a (2 ^ 64 - 1 - 0xFF) ≡ a / 256 * 256
bit_and_byte a h = omega (arith, bit_and-mask 56 8 a (omega arith))
