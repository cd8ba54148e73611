-- ===== src/SaveBanks/Selector.antt =====
-- SaveBankSelector of src/save_bank_selector.cpp: which texts name a bank, and what fits behind it.
use ezfadvance_iii.Prelude.{
  ℕ, ◌+◌, ◌-◌, ◌*◌, ◌/◌, ◌%◌, ◌≤◌, ◌<◌, ◌≡◌, ◌⊎◌, ◌↔◌, inl, inr, refl, true, Option, none, some,
  List, arith,
}
use ezfadvance_iii.Prelude.Text.{whole_number}
use ezfadvance_iii.SaveBanks.{
  check_selector, parse_selector, accommodates, hex16, first_selector, last_selector, stride,
  bank_size,
}

-- One of 0x0900, 0x0910, 0x0920 and 0x0930.
pub record IsSelector (s : ℕ) : Type 0 where
  pub from_first : first_selector ≤ s
  pub to_last : s ≤ last_selector
  pub on_stride : (s - first_selector) % stride ≡ 0

check_selector-IsSelector :
    (number : Option ℕ) (s : ℕ) → check_selector number ≡ some s → IsSelector s
unfolding check_selector
check_selector-IsSelector none s h = cc
check_selector-IsSelector (some value) s h = ground arith

-- Every selector that parsing accepts is one of the four proven ones, whatever the text.
pub parse_selector-IsSelector :
    (text : List ℕ) (s : ℕ) → parse_selector text ≡ some s → IsSelector s
unfolding parse_selector
parse_selector-IsSelector text s h =
    ground (arith, check_selector-IsSelector (whole_number 10 text) s)

IsSelector-cases :
    (s : ℕ) → IsSelector s → (s ≡ 0x0900) ⊎ ((s ≡ 0x0910) ⊎ ((s ≡ 0x0920) ⊎ (s ≡ 0x0930)))
IsSelector-cases s v = omega arith

-- The text that the messages print for a selector is accepted, and gives that selector again.
pub parse_selector-hex16 : (s : ℕ) → IsSelector s → parse_selector (hex16 s) ≡ some s
unfolding parse_selector hex16 whole_number
parse_selector-hex16 s v = elim (IsSelector-cases s v) [
  | inl e ↦ rw e refl
  | inr (inl e) ↦ rw e refl
  | inr (inr (inl e)) ↦ rw e refl
  | inr (inr (inr e)) ↦ rw e refl
]

-- For one of the four selectors and a size below 4 TiB: the size fits exactly when it is a
-- positive number of whole banks and the last of them has a selector of at most 0x0930.
pub accommodates_iff :
    (s save_size : ℕ)
    → IsSelector s
    → save_size < 0x400_0000_0000
    → (accommodates s save_size ≡ true) ↔ (
        (banks : ℕ) × (1 ≤ banks)
        × (save_size ≡ banks * bank_size)
        × (s + (banks - 1) * stride ≤ last_selector))
unfolding accommodates
accommodates_iff s save_size v small = (
  λ h. (save_size / bank_size, ground arith, ground arith, ground arith),
  λ (banks, some_bank, whole, fits). ground arith,
)
