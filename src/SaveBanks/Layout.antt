-- ===== src/SaveBanks/Layout.antt =====
-- allocateSaveBanks of include/ezfadvance/save_bank_layout.hpp against the sum of its predecessors.
use ezfadvance_iii.Prelude.{
  Bool, true, false, if◌then◌else◌, ℕ, zero, suc, ◌+◌, ◌-◌, ◌*◌, ◌%◌, ◌≤◌, ◌<◌, ◌≡◌, ◌↔◌, inl, inr,
  ap, Option, none, some, List, [], ◌∷◌, length, arith, Bool-cases, get_elem?, Option-cases, leb,
}
use native.Mathlib.Nat.{add-zero}
use ezfadvance_iii.SaveBanks.{
  selected, save_bank_count_for_marker, banks_loop, allocate_save_banks, first_selector,
  last_selector, stride,
}

-- The first bank of ROM `k` and its number of banks, when `bank` banks stand before the list: each
-- ROM takes the banks behind those of its predecessors.
pub bank_range : List (List ℕ) → ℕ → ℕ → Option (ℕ × ℕ)
bank_range [] k bank = none
bank_range (marker ∷ markers) zero bank = elim (save_bank_count_for_marker marker) [
  | none ↦ none
  | some count ↦ some (bank, count)
]
bank_range (marker ∷ markers) (suc k) bank = elim (save_bank_count_for_marker marker) [
  | none ↦ none
  | some count ↦ bank_range markers k (bank + count)
]

small_count :
    (a b c : Bool) (count : ℕ)
    → (if a then some 4 else if b then some 2 else if c then some 1 else none) ≡ some count
    → (1 ≤ count) × (count ≤ 4)
small_count true b c count h = ground arith
small_count false true c count h = ground arith
small_count false false true count h = ground arith
small_count false false false count h = absurd (let k = h in cc)

count_pos :
    (marker : List ℕ) (count : ℕ)
    → save_bank_count_for_marker marker ≡ some count
    → (1 ≤ count) × (count ≤ 4)
unfolding save_bank_count_for_marker
count_pos marker count h = small_count _ _ _ count h

bank_range-le :
    (markers : List (List ℕ)) (k bank lo count : ℕ)
    → bank_range markers k bank ≡ some (lo, count)
    → (bank ≤ lo) × (1 ≤ count) × (count ≤ 4)
unfolding bank_range
bank_range-le [] k bank lo count h = cc
bank_range-le (marker ∷ markers) zero bank lo count h = ground (arith, count_pos marker count)
bank_range-le (marker ∷ markers) (suc k) bank lo count h =
    elim (Option-cases (save_bank_count_for_marker marker)) [
      | inl e ↦ absurd (ground arith)
      | inr (c, e) ↦ ground (arith, bank_range-le markers k (bank + c) lo count)
    ]

pub bank_range-lt-length :
    (markers : List (List ℕ)) (k bank lo count : ℕ)
    → bank_range markers k bank ≡ some (lo, count)
    → k < length markers
unfolding bank_range
bank_range-lt-length [] k bank lo count h = cc
bank_range-lt-length (marker ∷ markers) zero bank lo count h = omega arith
bank_range-lt-length (marker ∷ markers) (suc k) bank lo count h =
    elim (Option-cases (save_bank_count_for_marker marker)) [
      | inl e ↦ absurd (ground arith)
      | inr (c, e) ↦ ground (arith, bank_range-lt-length markers k (bank + c) lo count)
    ]

banks_loop_selected :
    (markers : List (List ℕ)) (k rom available bank lo count : ℕ)
    → bank_range markers k bank ≡ some (lo, count)
    → lo + count ≤ available
    → banks_loop markers rom (k + rom) available bank ≡ record {
      status = selected;
      selector = (first_selector + lo * 0x10) % 65536;
      first_unknown_rom = 0;
    }
unfolding bank_range banks_loop
banks_loop_selected [] k rom available bank lo count h fits = cc
banks_loop_selected (marker ∷ markers) zero rom available bank lo count h fits = ground arith
banks_loop_selected (marker ∷ markers) (suc k) rom available bank lo count h fits =
    elim (Option-cases (save_bank_count_for_marker marker)) [
      | inl e ↦ absurd (ground arith)
      | inr (c, e) ↦
          let later : bank_range markers k (bank + c) ≡ some (lo, count) = ground arith in
          let (le, _, _) = bank_range-le markers k (bank + c) lo count later in
          let shift : k + (rom + 1) ≡ suc k + rom = omega arith in
          ground (
            arith,
            shift,
            banks_loop_selected markers k (rom + 1) available (bank + c) lo count later fits,
          )
    ]

banks_loop_sound :
    (markers : List (List ℕ)) (k rom available bank : ℕ)
    → (banks_loop markers rom (k + rom) available bank).status ≡ selected
    → (lo count : ℕ) × (bank_range markers k bank ≡ some (lo, count)) × (lo + count ≤ available)
unfolding bank_range banks_loop
banks_loop_sound [] k rom available bank h = absurd (cc)
banks_loop_sound (marker ∷ markers) zero rom available bank h =
    elim (Option-cases (save_bank_count_for_marker marker)) [
      | inl e ↦ absurd (ground arith)
      | inr (c, e) ↦ (bank, c, ground arith, ground arith)
    ]
banks_loop_sound (marker ∷ markers) (suc k) rom available bank h =
    elim (Option-cases (save_bank_count_for_marker marker)) [
      | inl e ↦ absurd (ground arith)
      | inr (c, e) ↦
          let shift : k + (rom + 1) ≡ suc k + rom = omega arith in
          let (lo, count, f, g) =
            banks_loop_sound markers k (rom + 1) available (bank + c) (ground arith) in
          (lo, count, ground arith, g)
    ]

allocate_save_banks_selected :
    (markers : List (List ℕ)) (rom available lo count : ℕ)
    → bank_range markers rom 0 ≡ some (lo, count)
    → lo + count ≤ available
    → allocate_save_banks markers rom available ≡ record {
      status = selected;
      selector = (first_selector + lo * 0x10) % 65536;
      first_unknown_rom = 0;
    }
unfolding allocate_save_banks
allocate_save_banks_selected markers rom available lo count h fits =
    let inside = bank_range-lt-length markers rom 0 lo count h in
    let found = rw add-zero at (banks_loop_selected markers rom 0 available 0 lo count h fits) in
    ground (arith, inside, found)

allocate_save_banks_sound :
    (markers : List (List ℕ)) (rom available : ℕ)
    → (allocate_save_banks markers rom available).status ≡ selected
    → (lo count : ℕ) × (bank_range markers rom 0 ≡ some (lo, count)) × (lo + count ≤ available)
unfolding allocate_save_banks
allocate_save_banks_sound markers rom available h = elim (Bool-cases (leb (length markers) rom)) [
  | inl out ↦ absurd (ground arith)
  | inr inside ↦ banks_loop_sound markers rom 0 available 0 (rw (add-zero) (ground arith))
]

-- A ROM gets a selector exactly when all ROMs up to it have a known number of banks and the banks of
-- all of them fit: then the selector is that of the first bank behind its predecessors' banks.
pub allocate_save_banks_iff :
    (markers : List (List ℕ)) (rom available : ℕ)
    → ((allocate_save_banks markers rom available).status ≡ selected) ↔ (
        (lo count : ℕ) × (bank_range markers rom 0 ≡ some (lo, count))
        × (lo + count ≤ available)
        × ((allocate_save_banks markers rom available).selector
            ≡ (first_selector + lo * 0x10) % 65536))
allocate_save_banks_iff markers rom available = (
  λ h.
      let (lo, count, range, fits) = allocate_save_banks_sound markers rom available h in
      let found = allocate_save_banks_selected markers rom available lo count range fits in
      (lo, count, range, fits, ap (λ l. l.selector) found),
  λ (lo, count, range, fits, _).
      ap (λ l. l.status) (allocate_save_banks_selected markers rom available lo count range fits),
)

-- A later ROM's banks begin behind an earlier one's.
bank_range_later :
    (markers : List (List ℕ)) (i j bank lo count lo' count' : ℕ)
    → i < j
    → bank_range markers i bank ≡ some (lo, count)
    → bank_range markers j bank ≡ some (lo', count')
    → lo + count ≤ lo'
unfolding bank_range
bank_range_later [] i j bank lo count lo' count' lt h k = cc
bank_range_later (marker ∷ markers) i zero bank lo count lo' count' lt h k = absurd (omega arith)
bank_range_later (marker ∷ markers) zero (suc j) bank lo count lo' count' lt h k =
    elim (Option-cases (save_bank_count_for_marker marker)) [
      | inl e ↦ absurd (ground arith)
      | inr (c, e) ↦ ground (arith, bank_range-le markers j (bank + c) lo' count')
    ]
bank_range_later (marker ∷ markers) (suc i) (suc j) bank lo count lo' count' lt h k =
    elim (Option-cases (save_bank_count_for_marker marker)) [
      | inl e ↦ absurd (ground arith)
      | inr (c, e) ↦ ground (arith, bank_range_later markers i j (bank + c) lo count lo' count')
    ]

pub bank_range-count :
    (markers : List (List ℕ)) (k bank lo count : ℕ) (marker : List ℕ)
    → bank_range markers k bank ≡ some (lo, count)
    → get_elem? markers k ≡ some marker
    → save_bank_count_for_marker marker ≡ some count
unfolding bank_range
bank_range-count [] k bank lo count marker h at = cc
bank_range-count (m ∷ markers) zero bank lo count marker h at =
    elim (Option-cases (save_bank_count_for_marker m)) [
      | inl e ↦ absurd (ground arith)
      | inr (c, e) ↦ ground arith
    ]
bank_range-count (m ∷ markers) (suc k) bank lo count marker h at =
    elim (Option-cases (save_bank_count_for_marker m)) [
      | inl e ↦ absurd (ground arith)
      | inr (c, e) ↦ bank_range-count markers k (bank + c) lo count marker (ground arith) at
    ]

-- Of two ROMs that both get a selector among the four banks, the earlier one's banks all lie before
-- the later one's first bank, and the banks of both lie within selectors 0x0900 to 0x0930.
pub allocate_save_banks_disjoint :
    (markers : List (List ℕ)) (i j count count' : ℕ) (marker marker' : List ℕ)
    → i < j
    → (allocate_save_banks markers i 4).status ≡ selected
    → (allocate_save_banks markers j 4).status ≡ selected
    → get_elem? markers i ≡ some marker
    → get_elem? markers j ≡ some marker'
    → save_bank_count_for_marker marker ≡ some count
    → save_bank_count_for_marker marker' ≡ some count'
    → (first_selector ≤ (allocate_save_banks markers i 4).selector)
      × ((allocate_save_banks markers i 4).selector + count * stride
          ≤ (allocate_save_banks markers j 4).selector)
      × ((allocate_save_banks markers j 4).selector + (count' - 1) * stride ≤ last_selector)
allocate_save_banks_disjoint markers i j count count' marker marker' lt hi hj mi mj ci cj =
    let (lo, c, range, fits, s) = (allocate_save_banks_iff markers i 4).0 hi in
    let (lo', c', range', fits', s') = (allocate_save_banks_iff markers j 4).0 hj in
    let before = bank_range_later markers i j 0 lo c lo' c' lt range range' in
    let same : c ≡ count = cc (bank_range-count markers i 0 lo c marker range mi) in
    let same' : c' ≡ count' = cc (bank_range-count markers j 0 lo' c' marker' range' mj) in
    omega (arith, bank_range-le markers j 0 lo' c' range')
