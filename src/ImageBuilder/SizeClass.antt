-- ===== src/ImageBuilder/SizeClass.antt =====
-- next_power_of_two_u32, multi_rom_size_class_alignment and align_up_u64 of
-- src/cartridge_image_builder.cpp.
use Prim.Native.Nat.{bit_or}
use ezfadvance_iii.Prelude.{
  ℕ, suc, ◌+◌, ◌-◌, ◌/◌, ◌^◌, ◌≤◌, min, ◌≡◌, ◌⊎◌, inl, inr, refl, sym, ◌∙◌, ap, leb, Bool-cases,
  arith,
}
use ezfadvance_iii.Prelude.Bits.{ones, low_bits, shifted}
use ezfadvance_iii.Prelude.Powers.{smeared, low_bits-le, ones-low_bits, leading, shifted_one}
use ezfadvance_iii.ImageBuilder.{smear, next_power_of_two_u32}

-- A number with `h` leading ones and `l` digits behind them, `n` of the ones at least.
Led : ℕ → ℕ → ℕ → Type 0
Led n total y = (l h : ℕ) × (shifted l y ≡ ones h) × (h + l ≡ total) × ((n ≤ h) ⊎ (l ≡ 0))

smear-Led :
    (n total y : ℕ) → shifted n y ≡ y / 2 ^ n → Led n total y → Led (n + n) total (smear n y)
unfolding Led
smear-Led n total y shift (l, h, top, sum, enough) =
    let twice : ((n + n) ≤ h + min n l) ⊎ (l - n ≡ 0) = elim (Bool-cases (leb l n)) [
      | inl e ↦ inr (ground arith)
      | inr e ↦ inl (ground arith)
    ] in
    (
      l - n,
      h + min n l,
      ap (λ v. shifted (l - n) (bit_or y v)) (sym shift) ∙ smeared n l h y top enough,
      omega arith,
      twice,
    )

smears-ones :
    (k y : ℕ)
    → shifted k y ≡ 1
    → k ≤ 31
    → smear 16 (smear 8 (smear 4 (smear 2 (smear 1 y)))) ≡ ones (k + 1)
unfolding Led
smears-ones k y top small =
    let a = smear 1 y in
    let b = smear 2 a in
    let c = smear 4 b in
    let d = smear 8 c in
    let start : Led 1 (k + 1) y = (k, 1, top, omega arith, inl (omega arith)) in
    let one_ : Led 2 (k + 1) a = smear-Led 1 (k + 1) y (omega arith) start in
    let two_ : Led 4 (k + 1) b = smear-Led 2 (k + 1) a (omega arith) one_ in
    let four_ : Led 8 (k + 1) c = smear-Led 4 (k + 1) b (omega arith) two_ in
    let eight_ : Led 16 (k + 1) d = smear-Led 8 (k + 1) c (omega arith) four_ in
    let (l, h, end, sum, enough) : Led 32 (k + 1) (smear 16 d) =
      smear-Led 16 (k + 1) d (omega arith) eight_ in
    let over : l ≡ 0 = ground arith in
    let all_ : h ≡ k + 1 = omega arith in
    ap (λ n. shifted n (smear 16 d)) (sym over) ∙ end ∙ ap ones all_

-- For a number of at most 2 ^ 31 the rounding gives the least power of two that is not below it;
-- `low_bits k` is 2 to the power `k`.
pub next_power_of_two_u32_least :
    (x : ℕ)
    → x ≤ 2 ^ 31
    → (k : ℕ) × (k ≤ 31)
      × (next_power_of_two_u32 x ≡ low_bits k)
      × (x ≤ low_bits k)
      × ((j : ℕ) → x ≤ low_bits j → low_bits k ≤ low_bits j)
unfolding next_power_of_two_u32
next_power_of_two_u32_least x small = elim (Bool-cases (leb x 1)) [
  | inl e ↦ rw e (0, omega arith, refl, ground arith, λ j h. low_bits-le 0 j (omega arith))
  | inr e ↦
      let y = x - 1 in
      let (k, lt, top) = leading 31 y (ground arith) (ground arith) in
      let (lo, hi) = shifted_one k y top in
      let all_ = smears-ones k y top (omega arith) in
      let next : suc k ≡ k + 1 = omega arith in
      let power : ones (k + 1) + 1 ≡ low_bits (suc k) =
        ones-low_bits (k + 1) ∙ ap low_bits (sym next) in
      rw (e, all_)
        (
          suc k,
          omega arith,
          omega arith,
          ground arith,
          λ j h. elim (Bool-cases (leb (suc k) j)) [
            | inl le ↦ low_bits-le (suc k) j (ground arith)
            | inr gt ↦ let under = low_bits-le j k (ground arith) in absurd (omega arith)
          ],
        )
]
