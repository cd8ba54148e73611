-- ===== src/SaveAccess/Planner.antt =====
-- SaveAccessPlanner::plan of src/save_access_planner.cpp.
use ezfadvance_iii.Prelude.{
  ◌++◌, ◌∙◌, ◌⊎◌, Bool, false, if◌then◌else◌, ℕ, zero, suc, ◌+◌, ◌-◌, ◌*◌, ◌≤◌, ◌<◌, ◌≡◌, ◌≢◌, inl,
  inr, refl, ap, true, Option, none, some, List, [], ◌∷◌, get_or, length, get_elem?-get_or, is_some,
  arith, Bool-cases, Option-cases,
}
use native.Mathlib.Nat.{zero-add}
use ezfadvance_iii.Prelude.Text.{codes, same_text-eq, starts_with-eq}
use ezfadvance_iii.SaveBanks.{
  LayoutStatus, save_bank_count_for_marker, supported_save_size_for_marker, allocate_save_banks,
  bank_size, stride, last_selector,
}
use ezfadvance_iii.SaveBanks.Selector.{IsSelector, accommodates_iff}
use ezfadvance_iii.SaveBanks.Layout.{
  bank_range-lt-length, allocate_save_banks_iff, bank_range-count,
}
use ezfadvance_iii.SaveAccess.{
  Request, Plan, PlanStatus, SelectionStatus, multiple_supported_candidates, ambiguous_selection,
  selected_size_unknown, plan_direct, plan_explicit, plan_layout, plan_rom, plan_selection,
  plan_catalog, plan, direct_size, direct_save_access_size, supported_indices, contains,
  select_save_rom, is_direct_save_bank_access,
}
use ezfadvance_iii.SaveAccess.Selection.{select_save_rom-selected_iff, select_save_rom-ne-multiple}

-- What the command line gives: a parsed selector, one to four banks, and a file size that fits an
-- address space.
pub record RequestIsValid (request : Request) : Type 0 where
  pub bank : (b : ℕ) → request.explicit_bank ≡ some b → IsSelector b
  pub count : (n : ℕ) → request.consecutive_bank_count ≡ some n → n ≤ 4
  pub size : (n : ℕ) → request.write_size ≡ some n → n < 0x400_0000_0000

-- The access covers whole banks, all among the four.
abbrev pub InRange : Plan → Type 0
InRange p =
    IsSelector p.selector
    × ((banks : ℕ) × (1 ≤ banks)
        × (p.access_size ≡ banks * bank_size)
        × (p.selector + (banks - 1) * stride ≤ last_selector))

plan_direct-InRange :
    (bank : ℕ) (consecutive write_size : Option ℕ)
    → IsSelector bank
    → direct_size consecutive write_size < 0x400_0000_0000
    → (plan_direct bank consecutive write_size).status ≡ PlanStatus.selected
    → InRange (plan_direct bank consecutive write_size)
unfolding plan_direct
plan_direct-InRange bank consecutive write_size v small h =
    (v, (accommodates_iff bank (direct_size consecutive write_size) v small).0 (ground arith))

plan_explicit-InRange :
    (bank rom access_size : ℕ)
    → IsSelector bank
    → access_size < 0x400_0000_0000
    → (plan_explicit bank rom access_size).status ≡ PlanStatus.selected
    → InRange (plan_explicit bank rom access_size)
unfolding plan_explicit
plan_explicit-InRange bank rom access_size v small h =
    (v, (accommodates_iff bank access_size v small).0 (ground arith))

size_cases :
    (a b : Bool) (size : ℕ)
    → (if a then some 0x8000 else if b then some 0x10000 else none) ≡ some size
    → ((a ≡ true) × (size ≡ 0x8000)) ⊎ ((b ≡ true) × (size ≡ 0x10000))
size_cases true b size h = inl (refl, ground arith)
size_cases false true size h = inr (refl, ground arith)
size_cases false false size h = absurd (let k = h in cc)

supported_size_cases :
    (marker : List ℕ) (size : ℕ)
    → supported_save_size_for_marker marker ≡ some size
    → ((marker ≡ codes "SRAM_V111") × (size ≡ 0x8000))
      ⊎ (((rest : List ℕ) × (marker ≡ codes "FLASH512" ++ rest)) × (size ≡ 0x10000))
unfolding supported_save_size_for_marker
supported_size_cases marker size h = elim (size_cases _ _ size h) [
  | inl (e, same) ↦ inl (same_text-eq marker (codes "SRAM_V111") e, same)
  | inr (e, same) ↦ inr (starts_with-eq (codes "FLASH512") marker e, same)
]

sram_count : save_bank_count_for_marker (codes "SRAM_V111") ≡ some 1
unfolding save_bank_count_for_marker
sram_count = refl

flash_count : (rest : List ℕ) → save_bank_count_for_marker (codes "FLASH512" ++ rest) ≡ some 2
unfolding save_bank_count_for_marker
flash_count rest = refl

-- A supported size is that of the banks that the layout gives the marker.
supported_size_banks :
    (marker : List ℕ) (size : ℕ)
    → supported_save_size_for_marker marker ≡ some size
    → (count : ℕ) × (save_bank_count_for_marker marker ≡ some count)
      × (1 ≤ count)
      × (count ≤ 2)
      × (size ≡ count * bank_size)
supported_size_banks marker size h = elim (supported_size_cases marker size h) [
  | inl (exact, same) ↦
      (1, ap save_bank_count_for_marker exact ∙ sram_count, omega arith, omega arith, omega arith)
  | inr ((rest, exact), same) ↦ (
    2,
    ap save_bank_count_for_marker exact ∙ flash_count rest,
    omega arith,
    omega arith,
    omega arith,
  )
]

plan_layout-InRange :
    (markers : List (List ℕ)) (rom access_size : ℕ)
    → supported_save_size_for_marker (get_or markers rom []) ≡ some access_size
    → (plan_layout (allocate_save_banks markers rom 4) rom access_size).status ≡ PlanStatus.selected
    → InRange (plan_layout (allocate_save_banks markers rom 4) rom access_size)
unfolding plan_layout
plan_layout-InRange markers rom access_size size h =
    let layout = allocate_save_banks markers rom 4 in
    let chosen : layout.status ≡ LayoutStatus.selected = ground arith in
    let (lo, count, range, fits, selector) = (allocate_save_banks_iff markers rom 4).0 chosen in
    let inside = bank_range-lt-length markers rom 0 lo count range in
    let counted =
      bank_range-count markers rom 0 lo count _ range (get_elem?-get_or markers rom [] inside) in
    let (banks, same, some_bank, few, whole) = supported_size_banks _ access_size size in
    let agree : banks ≡ count = cc in
    rw (chosen) (
      record { from_first = omega arith; to_last = omega arith; on_stride = omega arith },
      (banks, some_bank, whole, omega arith),
    )

plan_rom-InRange :
    (explicit_bank : Option ℕ) (markers : List (List ℕ)) (rom : ℕ)
    → ((b : ℕ) → explicit_bank ≡ some b → IsSelector b)
    → (plan_rom explicit_bank markers rom).status ≡ PlanStatus.selected
    → InRange (plan_rom explicit_bank markers rom)
unfolding plan_rom
plan_rom-InRange none markers rom v h =
    elim (Option-cases (supported_save_size_for_marker (get_or markers rom []))) [
      | inl e ↦ absurd (ground arith)
      | inr (size, e) ↦
          rw (e, plan_rom) (plan_layout-InRange markers rom size e (rw (e, plan_rom) at h))
    ]
plan_rom-InRange (some bank) markers rom v h =
    elim (Option-cases (supported_save_size_for_marker (get_or markers rom []))) [
      | inl e ↦ absurd (ground arith)
      | inr (size, e) ↦
          let small : size < 0x400_0000_0000 = omega (arith, supported_size_banks _ size e) in
          rw (e, plan_rom)
            (plan_explicit-InRange bank rom size (v bank refl) small (rw (e, plan_rom) at h))
    ]

plan_selection-InRange :
    (explicit_bank : Option ℕ) (markers : List (List ℕ)) (status : SelectionStatus) (index : ℕ)
    → ((b : ℕ) → explicit_bank ≡ some b → IsSelector b)
    → let p = plan_selection explicit_bank markers (record { status = status; index = index }) in
      p.status ≡ PlanStatus.selected → InRange p
unfolding plan_selection
plan_selection-InRange bank markers SelectionStatus.selected index v h =
    plan_rom-InRange bank markers index v h
plan_selection-InRange bank markers _ index v h = absurd (cc)

abbrev request_of : Option ℕ → Option ℕ → Option ℕ → Option ℕ → Request
request_of rom bank consecutive write_size = record {
  rom_number = rom;
  explicit_bank = bank;
  consecutive_bank_count = consecutive;
  write_size = write_size;
}

direct_size-lt :
    (rom bank consecutive write_size : Option ℕ)
    → RequestIsValid (request_of rom bank consecutive write_size)
    → direct_size consecutive write_size < 0x400_0000_0000
unfolding direct_size direct_save_access_size
direct_size-lt rom bank none none v = omega arith
direct_size-lt rom bank none (some n) v = v.size n refl
direct_size-lt rom bank (some n) write_size v = omega (arith, v.count n refl)

plan_fields-InRange :
    (rom bank consecutive write_size : Option ℕ) (markers : List (List ℕ))
    → let request = request_of rom bank consecutive write_size in
      RequestIsValid request
      → (plan request markers).status ≡ PlanStatus.selected
      → InRange (plan request markers)
unfolding plan plan_catalog is_direct_save_bank_access
plan_fields-InRange none (some bank) consecutive write_size markers v h =
    plan_direct-InRange bank consecutive write_size (v.bank bank refl)
      (direct_size-lt none (some bank) consecutive write_size v) h
plan_fields-InRange none none consecutive write_size markers v h =
    plan_selection-InRange none markers _ _ v.bank h
plan_fields-InRange (some n) none consecutive write_size markers v h =
    plan_selection-InRange none markers _ _ v.bank h
plan_fields-InRange (some n) (some bank) consecutive write_size markers v h =
    plan_selection-InRange (some bank) markers _ _ v.bank h

-- Every plan that is selected stays within the save memory: its selector is one of the four, and
-- its size is that of a positive number of whole banks from there, the last at most 0x0930. This
-- holds for any markers and any request of a parsed selector, at most four banks and a file size
-- below 4 TiB.
pub plan-InRange :
    (request : Request) (markers : List (List ℕ))
    → RequestIsValid request
    → (plan request markers).status ≡ PlanStatus.selected
    → InRange (plan request markers)
plan-InRange request markers v h =
    plan_fields-InRange request.rom_number request.explicit_bank request.consecutive_bank_count
      request.write_size markers v h

supported_indices-ge :
    (markers : List (List ℕ)) (from i : ℕ)
    → contains (supported_indices from markers) i ≡ true
    → from ≤ i
unfolding supported_indices contains
supported_indices-ge [] from i h = cc
supported_indices-ge (marker ∷ markers) from i h =
    ground (arith, supported_indices-ge markers (from + 1) i)

-- The indices that are found have a supported marker.
supported_indices_sound :
    (markers : List (List ℕ)) (from j : ℕ)
    → contains (supported_indices from markers) (from + j) ≡ true
    → is_some (supported_save_size_for_marker (get_or markers j [])) ≡ true
unfolding supported_indices contains
supported_indices_sound [] from j h = cc
supported_indices_sound (marker ∷ markers) from zero h =
    ground (arith, supported_indices-ge markers (from + 1) (from + 0))
supported_indices_sound (marker ∷ markers) from (suc j) h =
    let shift : from + 1 + j ≡ from + suc j = omega arith in
    ground (
      arith,
      supported_indices_sound markers (from + 1) j,
      ap (contains (supported_indices (from + 1) markers)) shift,
    )

plan_direct_status :
    (bank : ℕ) (consecutive write_size : Option ℕ)
    → ((plan_direct bank consecutive write_size).status ≢ ambiguous_selection)
      × ((plan_direct bank consecutive write_size).status ≢ selected_size_unknown)
unfolding plan_direct
plan_direct_status bank consecutive write_size = (λ e. ground arith, λ e. ground arith)

plan_rom_status :
    (bank : Option ℕ) (markers : List (List ℕ)) (rom : ℕ)
    → is_some (supported_save_size_for_marker (get_or markers rom [])) ≡ true
    → ((plan_rom bank markers rom).status ≢ ambiguous_selection)
      × ((plan_rom bank markers rom).status ≢ selected_size_unknown)
unfolding plan_rom plan_explicit plan_layout
plan_rom_status bank markers rom h = (λ e. ground arith, λ e. ground arith)

plan_selection_status :
    (bank : Option ℕ) (markers : List (List ℕ)) (requested : Option ℕ) (status : SelectionStatus)
    (index : ℕ)
    → select_save_rom (length markers) (supported_indices 0 markers) requested
      ≡ record { status = status; index = index }
    → let p = plan_selection bank markers (record { status = status; index = index }) in
      (p.status ≢ ambiguous_selection) × (p.status ≢ selected_size_unknown)
unfolding plan_selection
plan_selection_status bank markers requested SelectionStatus.selected index h =
    let (_, found, _) = (select_save_rom-selected_iff _ _ requested index).0 h in
    plan_rom_status bank markers index (supported_indices_sound markers 0 index (rw zero-add found))
plan_selection_status bank markers requested multiple_supported_candidates index h =
    absurd (select_save_rom-ne-multiple _ _ requested (ap (λ s. s.status) h))
plan_selection_status bank markers requested _ index h = (λ e. cc, λ e. cc)

-- The planner never returns the statuses for an ambiguous selection and for an unknown size of
-- the selected ROM, whatever the request and the markers.
pub plan_ne :
    (request : Request) (markers : List (List ℕ))
    → ((plan request markers).status ≢ ambiguous_selection)
      × ((plan request markers).status ≢ selected_size_unknown)
unfolding plan plan_catalog
plan_ne request markers =
    elim (Bool-cases
      (is_direct_save_bank_access request.rom_number (is_some request.explicit_bank))) [
        | inl e ↦ rw e (plan_direct_status _ _ _)
        | inr e ↦ rw e (plan_selection_status _ markers request.rom_number _ _ refl)
      ]
