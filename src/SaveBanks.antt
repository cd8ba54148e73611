-- ===== src/SaveBanks.antt =====
-- Save-bank geometry: include/ezfadvance/save_bank_layout.hpp,
-- include/ezfadvance/save_bank_selector.hpp and src/save_bank_selector.cpp.
pub mod Layout
pub mod Selector
use ezfadvance_iii.Prelude.{
  ℕ, zero, suc, ◌+◌, ◌-◌, ◌*◌, ◌/◌, ◌%◌, Bool, true, false, ◌&&◌, ◌||◌, Option, none, some, List,
  [], ◌∷◌, ltb, leb, ◌==◌, ◌!=◌, if◌then◌else◌, length, drop,
}
use ezfadvance_iii.Prelude.Bytes.{byte_at, u16, u32}
use ezfadvance_iii.Prelude.Text.{codes, starts_with, same_text, is_empty, whole_number}

pub data LayoutStatus : Type 0 where
  selected selected_rom_out_of_range unknown_predecessor_capacity capacity_exceeded : LayoutStatus

pub record SaveBankLayout : Type 0 where
  pub status : LayoutStatus
  pub selector : ℕ
  pub first_unknown_rom : ℕ

-- `saveBankCountForMarker`
unfoldable pub save_bank_count_for_marker : List ℕ → Option ℕ
save_bank_count_for_marker marker =
    if starts_with (codes "FLASH1M") marker
    then some 4
    else if starts_with (codes "FLASH512") marker || starts_with (codes "FLASH_V") marker
    then some 2
    else if starts_with (codes "SRAM") marker || starts_with (codes "EEPROM") marker
    then some 1
    else none

-- `supportedSaveSizeForMarker`
unfoldable pub supported_save_size_for_marker : List ℕ → Option ℕ
supported_save_size_for_marker marker =
    if same_text marker (codes "SRAM_V111")
    then some 0x8000
    else if starts_with (codes "FLASH512") marker
    then some 0x10000
    else none

abbrev pub failed_layout : LayoutStatus → ℕ → SaveBankLayout
failed_layout why rom = record { status = why; selector = 0; first_unknown_rom = rom }

abbrev pub first_selector : ℕ
first_selector = 0x0900

-- The loop of `allocateSaveBanks` from `rom` on; the list holds the markers from there.
banks_loop : List (List ℕ) → ℕ → ℕ → ℕ → ℕ → SaveBankLayout
banks_loop [] rom selected_rom available bank = failed_layout selected_rom_out_of_range 0
banks_loop (marker ∷ markers) rom selected_rom available bank =
    elim (save_bank_count_for_marker marker) [
      | none ↦ failed_layout unknown_predecessor_capacity rom
      | some count ↦
          let rest = banks_loop markers (rom + 1) selected_rom available (bank + count) in
          if ltb available bank || ltb (available - bank) count
          then failed_layout capacity_exceeded rom
          else if rom == selected_rom
          then record {
            status = selected;
            selector = u16 (first_selector + bank * 0x10);
            first_unknown_rom = 0;
          }
          else rest
    ]

-- `allocateSaveBanks`
unfoldable pub allocate_save_banks : List (List ℕ) → ℕ → ℕ → SaveBankLayout
unfolding banks_loop
allocate_save_banks markers selected_rom available =
    if leb (length markers) selected_rom
    then failed_layout selected_rom_out_of_range 0
    else banks_loop markers 0 selected_rom available 0

abbrev pub last_selector : ℕ
last_selector = 0x0930

abbrev pub stride : ℕ
stride = 0x0010

abbrev pub bank_size : ℕ
bank_size = 0x8000

-- The tests of `SaveBankSelector::parse` behind the number.
check_selector : Option ℕ → Option ℕ
check_selector none = none
check_selector (some value) =
    if ltb 0xFFFF value
    then none
    else if ltb value first_selector
        || ltb last_selector value
        || ((value - first_selector) % stride != 0)
    then none
    else some value

abbrev has_hex_prefix : List ℕ → Bool
has_hex_prefix text =
    ltb 2 (length text)
    && (byte_at text 0 == b'0')
    && ((byte_at text 1 == b'x') || (byte_at text 1 == b'X'))

-- `SaveBankSelector::parse`; a selector is its value.
unfoldable pub parse_selector : List ℕ → Option ℕ
unfolding check_selector
parse_selector text =
    if has_hex_prefix text
    then check_selector (whole_number 16 (drop 2 text))
    else check_selector (whole_number 10 text)

-- `SaveBankSelector::accommodates`; the span of the banks is computed in uint32_t.
unfoldable pub accommodates : ℕ → ℕ → Bool
accommodates selector save_size =
    if save_size == 0 || (save_size % bank_size != 0)
    then false
    else leb (u32 (selector + u32 ((save_size / bank_size - 1) * stride))) last_selector

abbrev hex_digit : ℕ → ℕ
hex_digit d = if ltb d 10 then b'0' + d else (b'a' + d - 10)

-- `hex16` of src/save_bank_workflow.cpp: "0x" and four lower-case digits.
unfoldable pub hex16 : ℕ → List ℕ
hex16 value =
    b'0'
    ∷ b'x'
    ∷ hex_digit (value / 4096 % 16)
    ∷ hex_digit (value / 256 % 16)
    ∷ hex_digit (value / 16 % 16)
    ∷ hex_digit (value % 16)
    ∷ []
