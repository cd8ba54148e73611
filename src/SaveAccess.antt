-- ===== src/SaveAccess.antt =====
-- Which ROM and which save banks an access uses: include/ezfadvance/save_selection.hpp and
-- src/save_access_planner.cpp.
pub mod Selection
pub mod Planner
use ezfadvance_iii.Prelude.{
  ℕ, zero, suc, ◌+◌, ◌-◌, ◌*◌, Bool, true, false, not, ◌&&◌, ◌||◌, Option, none, some, List, [],
  ◌∷◌, reverse, map, ltb, leb, ◌==◌, ◌!=◌, if◌then◌else◌, length, get_or, is_some,
}
use ezfadvance_iii.Prelude.Text.{codes, same_text, is_empty, whole_number}
use ezfadvance_iii.SaveBanks
use ezfadvance_iii.SaveBanks.{
  SaveBankLayout, LayoutStatus, supported_save_size_for_marker, allocate_save_banks, accommodates,
  bank_size,
}

pub data SelectionStatus : Type 0 where
  selected rom_required out_of_range no_supported_candidate multiple_supported_candidates
        requested_rom_mismatch :
      SelectionStatus

pub record SaveSelection : Type 0 where
  pub status : SelectionStatus
  pub index : ℕ

-- `saveWritePathsConflict`
unfoldable pub save_write_paths_conflict : Option (List ℕ) → Option (List ℕ) → Bool
save_write_paths_conflict (some input) (some backup) = same_text input backup
save_write_paths_conflict _ _ = false

-- `std::isspace` and `std::tolower` in the C locale.
abbrev is_space : ℕ → Bool
is_space c = (c == 0x20) || (leb 0x09 c && leb c 0x0D)

abbrev to_lower : ℕ → ℕ
to_lower c = if leb b'A' c && leb c b'Z' then c + 32 else c

skip_spaces : List ℕ → List ℕ
skip_spaces [] = []
skip_spaces (c ∷ text) = let rest = skip_spaces text in if is_space c then rest else (c ∷ text)

-- `confirmsDestructiveOperation`
unfoldable pub confirms_destructive_operation : List ℕ → Bool
unfolding skip_spaces
confirms_destructive_operation answer =
    let trimmed = reverse (skip_spaces (reverse (skip_spaces answer))) in
    if (length trimmed != 1) && (length trimmed != 3)
    then false
    else let normalized = map to_lower trimmed in
      same_text normalized (codes "y") || same_text normalized (codes "yes")

abbrev pub value_or {ℓ} : {A : Type ℓ} → Option A → A → A
value_or none d = d
value_or (some a) d = a

-- `directSaveAccessSize`
unfoldable pub direct_save_access_size : Option ℕ → ℕ
direct_save_access_size write_size = value_or write_size 0x8000

-- `isDirectSaveBankAccess`
unfoldable pub is_direct_save_bank_access : Option ℕ → Bool → Bool
is_direct_save_bank_access requested_rom has_requested_bank =
    has_requested_bank && not (is_some requested_rom)

abbrev bank_count_in_range : Option ℕ → Option ℕ
bank_count_in_range none = none
bank_count_in_range (some count) = if ltb count 1 || ltb 4 count then none else some count

-- `parseConsecutiveBankCount`
unfoldable pub parse_consecutive_bank_count : List ℕ → Option ℕ
parse_consecutive_bank_count text = bank_count_in_range (whole_number 10 text)

-- The search loop of `selectSaveRom`.
unfoldable pub contains : List ℕ → ℕ → Bool
contains [] index = false
contains (candidate ∷ candidates) index =
    let later = contains candidates index in if candidate == index then true else later

abbrev bad_request : ℕ → Option ℕ → Bool
bad_request rom_count none = false
bad_request rom_count (some number) = (number == 0) || ltb rom_count number

abbrev requested_index : Option ℕ → ℕ
requested_index none = 0
requested_index (some number) = number - 1

abbrev no_candidate : Option ℕ → ℕ → SaveSelection
no_candidate none index = record { status = no_supported_candidate; index = 0 }
no_candidate (some number) index = record { status = requested_rom_mismatch; index = index }

-- `selectSaveRom`
unfoldable pub select_save_rom : ℕ → List ℕ → Option ℕ → SaveSelection
select_save_rom rom_count supported_candidates requested_rom =
    if (rom_count == 0) || bad_request rom_count requested_rom
    then record { status = out_of_range; index = 0 }
    else if ltb 1 rom_count && not (is_some requested_rom)
    then record { status = rom_required; index = 0 }
    else let index = requested_index requested_rom in
      if is_empty supported_candidates
      then no_candidate requested_rom index
      else if not (contains supported_candidates index)
      then record { status = requested_rom_mismatch; index = index }
      else record { status = selected; index = index }

-- `boundedSaveScanSpan`
unfoldable pub bounded_save_scan_span : ℕ → ℕ → ℕ → ℕ
bounded_save_scan_span start allocation_end evidence_limit =
    if leb evidence_limit start || leb allocation_end start
    then 0
    else (if ltb allocation_end evidence_limit then allocation_end else evidence_limit) - start

-- The planner. A bank selector is its value.
pub record Request : Type 0 where
  pub rom_number : Option ℕ
  pub explicit_bank : Option ℕ
  pub consecutive_bank_count : Option ℕ
  pub write_size : Option ℕ

pub data PlanStatus : Type 0 where
  selected rom_out_of_range rom_required no_supported_rom ambiguous_selection
        requested_rom_unsupported selected_size_unknown direct_range_exceeded
        explicit_range_exceeded unknown_predecessor_capacity capacity_exceeded :
      PlanStatus

pub record Plan : Type 0 where
  pub status : PlanStatus
  pub selected_rom : Option ℕ
  pub access_size : ℕ
  pub selector : ℕ
  pub direct : Bool
  pub explicit_override : Bool
  pub first_unknown_rom : ℕ

-- The aggregate with the fields behind the first four at their defaults.
abbrev pub brief : PlanStatus → Option ℕ → ℕ → ℕ → Plan
brief status selected_rom access_size selector = record {
  status = status;
  selected_rom = selected_rom;
  access_size = access_size;
  selector = selector;
  direct = false;
  explicit_override = false;
  first_unknown_rom = 0;
}

direct_size : Option ℕ → Option ℕ → ℕ
direct_size none write_size = direct_save_access_size write_size
direct_size (some count) write_size = count * bank_size

plan_direct : ℕ → Option ℕ → Option ℕ → Plan
unfolding direct_size
plan_direct bank consecutive write_size =
    let access_size = direct_size consecutive write_size in
    record (brief
      (if accommodates bank access_size then PlanStatus.selected else direct_range_exceeded) none
      access_size bank) { direct = true; explicit_override = true }

-- The indices of the markers with a supported size, from `index` on.
supported_indices : ℕ → List (List ℕ) → List ℕ
supported_indices index [] = []
supported_indices index (marker ∷ markers) =
    let rest = supported_indices (index + 1) markers in
    if is_some (supported_save_size_for_marker marker) then index ∷ rest else rest

plan_explicit : ℕ → ℕ → ℕ → Plan
plan_explicit bank rom access_size =
    record (brief
      (if accommodates bank access_size then PlanStatus.selected else explicit_range_exceeded)
      (some rom) access_size bank) { explicit_override = true }

plan_layout : SaveBankLayout → ℕ → ℕ → Plan
plan_layout layout rom access_size = elim layout.status [
  | LayoutStatus.unknown_predecessor_capacity ↦
      record (brief PlanStatus.unknown_predecessor_capacity (some rom) access_size 0) {
        first_unknown_rom = layout.first_unknown_rom;
      }
  | LayoutStatus.capacity_exceeded ↦ brief PlanStatus.capacity_exceeded (some rom) access_size 0
  | LayoutStatus.selected_rom_out_of_range ↦ brief rom_out_of_range none 0 0
  | LayoutStatus.selected ↦ brief PlanStatus.selected (some rom) access_size layout.selector
]

plan_rom : Option ℕ → List (List ℕ) → ℕ → Plan
unfolding plan_explicit plan_layout
plan_rom explicit_bank save_markers rom =
    elim (supported_save_size_for_marker (get_or save_markers rom [])) [
      | none ↦ brief selected_size_unknown (some rom) 0 0
      | some access_size ↦ elim explicit_bank [
        | some bank ↦ plan_explicit bank rom access_size
        | none ↦ plan_layout (allocate_save_banks save_markers rom 4) rom access_size
      ]
    ]

plan_selection : Option ℕ → List (List ℕ) → SaveSelection → Plan
unfolding plan_rom
plan_selection explicit_bank save_markers selection = elim selection.status [
  | out_of_range ↦ brief rom_out_of_range none 0 0
  | rom_required ↦ brief PlanStatus.rom_required none 0 0
  | no_supported_candidate ↦ brief no_supported_rom none 0 0
  | multiple_supported_candidates ↦ brief ambiguous_selection none 0 0
  | requested_rom_mismatch ↦ brief requested_rom_unsupported (some selection.index) 0 0
  | selected ↦ plan_rom explicit_bank save_markers selection.index
]

plan_catalog : Request → List (List ℕ) → Plan
unfolding plan_selection supported_indices
plan_catalog request save_markers =
    plan_selection request.explicit_bank save_markers
      (select_save_rom (length save_markers) (supported_indices 0 save_markers) request.rom_number)

-- `SaveAccessPlanner::plan`
unfoldable pub plan : Request → List (List ℕ) → Plan
unfolding plan_direct plan_catalog
plan request save_markers =
    if is_direct_save_bank_access request.rom_number (is_some request.explicit_bank)
    then plan_direct (value_or request.explicit_bank 0) request.consecutive_bank_count
        request.write_size
    else plan_catalog request save_markers
