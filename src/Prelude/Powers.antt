-- ===== src/Prelude/Powers.antt =====
-- `bit_or` of shifted numbers, and masks at a variable power of two.
use Prim.Native.Nat.{
  ℕ, zero, suc, ◌+◌, ◌-◌, ◌*◌, ◌/◌, ◌%◌, ◌^◌, ◌≤◌, ◌<◌, min, max, bit_and, bit_or, digits,
  bit_or-bitwise,
}
use mathlib.Core.Path.{◌≡◌, refl, ap, sym, ◌∙◌}
use mathlib.Core.Logic.{◌⊎◌, inl, inr}
use native.Mathlib.Omega.{arith}
use ezfadvance_iii.Prelude.Tests.{leb, Bool-cases}
use ezfadvance_iii.Prelude.Bits.{ones, mask, low_bits, shifted, unshifted, bit_and-mask}

-- What `bit_or` stands for, with its rounds counted.
abbrev joined : ℕ → ℕ → ℕ → ℕ
joined rounds x y = digits (λ z. z) max rounds x y

joined_more : (rounds x y : ℕ) → x ≤ rounds → joined (suc rounds) x y ≡ joined rounds x y
joined_more zero zero y h = refl
joined_more zero (suc x) y h = absurd (omega arith)
joined_more (suc rounds) zero y h = refl
joined_more (suc rounds) (suc x) y h =
    omega (arith, joined_more rounds (suc x / 2) (y / 2) (omega arith))

joined_add : (extra rounds x y : ℕ) → x ≤ rounds → joined (extra + rounds) x y ≡ joined rounds x y
joined_add zero rounds x y h = let e : 0 + rounds ≡ rounds = omega arith in ap (λ n. joined n x y) e
joined_add (suc extra) rounds x y h =
    let e : suc extra + rounds ≡ suc (extra + rounds) = omega arith in
    ap (λ n. joined n x y) e
    ∙ joined_more (extra + rounds) x y (omega arith)
    ∙ joined_add extra rounds x y h

bit_or-zero : (y : ℕ) → bit_or 0 y ≡ y
bit_or-zero y = bit_or-bitwise 0 y

pub bit_or-halves : (x y : ℕ) → bit_or x y ≡ 2 * bit_or (x / 2) (y / 2) + max (x % 2) (y % 2)
bit_or-halves zero y = omega (arith, bit_or-zero y, bit_or-zero (y / 2))
bit_or-halves (suc x) y =
    let half = suc x / 2 in
    let e : x ≡ (x - half) + half = omega arith in
    let shorter : joined x half (y / 2) ≡ joined half half (y / 2) =
      ap (λ n. joined n half (y / 2)) e ∙ joined_add (x - half) half half (y / 2) (omega arith) in
    omega (arith, bit_or-bitwise (suc x) y, bit_or-bitwise half (y / 2), shorter)

ones-half : (n : ℕ) → (ones n * 2 + 1) / 2 ≡ ones n
ones-half n = omega arith

-- Ones over at most as many ones.
bit_or-ones-ones : (h m : ℕ) → m ≤ h → bit_or (ones h) (ones m) ≡ ones h
bit_or-ones-ones zero m h = let e : m ≡ 0 = omega arith in ap (λ n. bit_or 0 (ones n)) e
bit_or-ones-ones (suc h) zero le =
    let ih : bit_or ((ones h * 2 + 1) / 2) 0 ≡ ones h =
      ap (λ x. bit_or x 0) (ones-half h) ∙ bit_or-ones-ones h zero (omega arith) in
    omega (arith, bit_or-halves (ones h * 2 + 1) 0, ih)
bit_or-ones-ones (suc h) (suc m) le =
    let ih : bit_or ((ones h * 2 + 1) / 2) ((ones m * 2 + 1) / 2) ≡ ones h =
      ap (λ x. bit_or x ((ones m * 2 + 1) / 2)) (ones-half h)
      ∙ ap (λ y. bit_or (ones h) y) (ones-half m)
      ∙ bit_or-ones-ones h m (omega arith) in
    omega (arith, bit_or-halves (ones h * 2 + 1) (ones m * 2 + 1), ih)

-- Ones fill the low digits of a number whose high digits are ones.
bit_or-ones :
    (l h m u : ℕ) → shifted l u ≡ ones h → l ≤ m → m ≤ h + l → bit_or u (ones m) ≡ ones (h + l)
bit_or-ones zero h m u top low high =
    let e : h ≡ h + 0 = omega arith in
    ap (λ v. bit_or v (ones m)) top ∙ bit_or-ones-ones h m (omega arith) ∙ ap ones e
bit_or-ones (suc l) h zero u top low high = absurd (omega arith)
bit_or-ones (suc l) h (suc m) u top low high =
    let ih : bit_or (u / 2) ((ones m * 2 + 1) / 2) ≡ ones (h + l) =
      ap (λ y. bit_or (u / 2) y) (ones-half m)
      ∙ bit_or-ones l h m (u / 2) top (omega arith) (omega arith) in
    let e : h + suc l ≡ suc (h + l) = omega arith in
    let more : bit_or u (ones m * 2 + 1) ≡ ones (h + l) * 2 + 1 =
      omega (arith, bit_or-halves u (ones m * 2 + 1), ih) in
    more ∙ ap ones (sym e)

shifted-bit_or : (j a b : ℕ) → shifted j (bit_or a b) ≡ bit_or (shifted j a) (shifted j b)
shifted-bit_or zero a b = refl
shifted-bit_or (suc j) a b =
    let half : bit_or a b / 2 ≡ bit_or (a / 2) (b / 2) = omega (arith, bit_or-halves a b) in
    ap (shifted j) half ∙ shifted-bit_or j (a / 2) (b / 2)

shifted_add : (i j a : ℕ) → shifted i (shifted j a) ≡ shifted (j + i) a
shifted_add i zero a = let e : i ≡ 0 + i = omega arith in ap (λ n. shifted n a) e
shifted_add i (suc j) a =
    let e : suc (j + i) ≡ suc j + i = omega arith in
    shifted_add i j (a / 2) ∙ ap (λ n. shifted n a) e

shifted-ones : (d h : ℕ) → shifted d (ones h) ≡ ones (h - d)
shifted-ones zero h = let e : h ≡ h - 0 = omega arith in ap ones e
shifted-ones (suc d) zero =
    shifted-ones d zero ∙ (let e : 0 - d ≡ 0 - suc d = omega arith in ap ones e)
shifted-ones (suc d) (suc h) =
    let e : h - d ≡ suc h - suc d = omega arith in
    ap (shifted d) (ones-half h) ∙ shifted-ones d h ∙ ap ones e

-- A number with `h` leading ones and `l` digits behind them, joined with itself shifted by at most
-- `h` digits, has as many leading ones more.
pub smeared :
    (n l h y : ℕ)
    → shifted l y ≡ ones h
    → (n ≤ h) ⊎ (l ≡ 0)
    → shifted (l - n) (bit_or y (shifted n y)) ≡ ones (h + min n l)
smeared n l h y top enough = elim (Bool-cases (leb l n)) [
  | inl e ↦
      let none_left : l - n ≡ 0 = ground arith in
      let e' : l + (n - l) ≡ n = ground arith in
      let low : shifted n y ≡ ones (h - (n - l)) =
        ap (λ k. shifted k y) (sym e')
        ∙ sym (shifted_add (n - l) l y)
        ∙ ap (shifted (n - l)) top
        ∙ shifted-ones (n - l) h in
      let same : h + l ≡ h + min n l = ground arith in
      ap (λ k. shifted k (bit_or y (shifted n y))) none_left
      ∙ ap (bit_or y) low
      ∙ bit_or-ones l h (h - (n - l)) y top (ground arith) (ground arith)
      ∙ ap ones same
  | inr e ↦
      let u = shifted (l - n) y in
      let e' : (l - n) + n ≡ l = ground arith in
      let e'' : n + (l - n) ≡ l = ground arith in
      let below : shifted n u ≡ ones h = shifted_add n (l - n) y ∙ ap (λ k. shifted k y) e' ∙ top in
      let low : shifted (l - n) (shifted n y) ≡ ones h =
        shifted_add (l - n) n y ∙ ap (λ k. shifted k y) e'' ∙ top in
      let same : h + n ≡ h + min n l = ground arith in
      shifted-bit_or (l - n) y (shifted n y)
      ∙ ap (bit_or u) low
      ∙ bit_or-ones n h h u below (ground arith) (omega arith)
      ∙ ap ones same
]

pub low_bits-le : (i j : ℕ) → i ≤ j → low_bits i ≤ low_bits j
low_bits-le zero zero h = omega arith
low_bits-le zero (suc j) h = omega (arith, low_bits-le zero j (omega arith))
low_bits-le (suc i) zero h = absurd (omega arith)
low_bits-le (suc i) (suc j) h = omega (arith, low_bits-le i j (omega arith))

pub ones-low_bits : (n : ℕ) → ones n + 1 ≡ low_bits n
ones-low_bits zero = refl
ones-low_bits (suc n) = omega (arith, ones-low_bits n)

-- The leading digit of a number.
pub leading : (b y : ℕ) → 0 < y → y < low_bits b → (k : ℕ) × (k < b) × (shifted k y ≡ 1)
leading zero y some_ small = absurd (omega arith)
leading (suc b) zero some_ small = absurd (omega arith)
leading (suc b) (suc zero) some_ small = (zero, omega arith, refl)
leading (suc b) (suc (suc y)) some_ small =
    let (k, lt, e) = leading b (suc (suc y) / 2) (omega arith) (omega arith) in
    (suc k, omega arith, e)

pub shifted_one : (k y : ℕ) → shifted k y ≡ 1 → (low_bits k ≤ y) × (y < low_bits k * 2)
shifted_one zero y h = (omega arith, omega arith)
shifted_one (suc k) y h = let (lo, hi) = shifted_one k (y / 2) h in (omega arith, omega arith)

-- Clearing the low digits goes down by less than the power of two.
unshifted-le :
    (k a : ℕ) → (unshifted k (shifted k a) ≤ a) × (a < unshifted k (shifted k a) + low_bits k)
unshifted-le zero a = (omega arith, omega arith)
unshifted-le (suc k) a = let (lo, hi) = unshifted-le k (a / 2) in (omega arith, omega arith)

shifted_small : (k m a : ℕ) → a < low_bits (k + m) → shifted k a < low_bits m
shifted_small zero m a h =
    let e : 0 + m ≡ m = omega arith in
    let same : low_bits (0 + m) ≡ low_bits m = ap low_bits e in omega arith
shifted_small (suc k) m a h =
    let e : suc k + m ≡ suc (k + m) = omega arith in
    let same : low_bits (suc k + m) ≡ low_bits (k + m) * 2 = ap low_bits e in
    shifted_small k m (a / 2) (omega arith)

mask_sum : (m k : ℕ) → mask m k + low_bits k ≡ low_bits (k + m)
mask_sum m zero = let e : m ≡ 0 + m = omega arith in ones-low_bits m ∙ ap low_bits e
mask_sum m (suc k) =
    let e : suc (k + m) ≡ suc k + m = omega arith in
    let twice : mask m k * 2 + low_bits k * 2 ≡ low_bits (k + m) * 2 =
      omega (arith, mask_sum m k) in
    twice ∙ ap low_bits e

-- `a & ~(2 ^ k - 1)` in 64 bits.
pub bit_and-power :
    (k a : ℕ)
    → k ≤ 64
    → a < 2 ^ 64
    → (bit_and a (2 ^ 64 - 1 - (low_bits k - 1)) ≤ a)
      × (a < bit_and a (2 ^ 64 - 1 - (low_bits k - 1)) + low_bits k)
bit_and-power k a small fits =
    let e : k + (64 - k) ≡ 64 = omega arith in
    let sum : mask (64 - k) k + low_bits k ≡ low_bits 64 = mask_sum (64 - k) k ∙ ap low_bits e in
    let one_ : 1 ≤ low_bits k = low_bits-le zero k (omega arith) in
    let same : mask (64 - k) k ≡ 2 ^ 64 - 1 - (low_bits k - 1) = omega arith in
    let high : shifted k a < low_bits (64 - k) =
      shifted_small k (64 - k) a
        (let same_ : low_bits (k + (64 - k)) ≡ low_bits 64 = ap low_bits e in omega arith) in
    let under : shifted k a ≤ ones (64 - k) = omega (arith, ones-low_bits (64 - k)) in
    let cleared : bit_and a (2 ^ 64 - 1 - (low_bits k - 1)) ≡ unshifted k (shifted k a) =
      ap (bit_and a) (sym same) ∙ bit_and-mask (64 - k) k a under in
    let (lo, hi) = unshifted-le k a in (omega arith, omega arith)
