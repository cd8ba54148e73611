-- ===== src/Examples/Saves.antt =====
-- Save banks, their selection and their transfers, on concrete inputs.
use ezfadvance_iii.Prelude.{
  zero, suc, ap, take, map, ◌++◌, length, ℕ, ◌+◌, ◌-◌, ◌*◌, ◌%◌, length-replicate, ◌≤◌, ◌<◌, ◌≡◌,
  ◌≢◌, ◌⊎◌, ◌↔◌, refl, true, false, none, some, List, [], ◌∷◌, replicate, arith,
}
use ezfadvance_iii.Prelude.Text.{codes}
use ezfadvance_iii.Prelude.Result.{ok}
use ezfadvance_iii.Usb.{World}
use ezfadvance_iii.Usb.{Answer, wrote, received}
use ezfadvance_iii.Usb.Traces.{Performs, Fulfils, event_of}
use ezfadvance_iii.Protocol.{command92_two}
use ezfadvance_iii.SaveMemory.{read}
use ezfadvance_iii.SaveMemory.Bank.{read_script}
use ezfadvance_iii.SaveMemory.Reading.{HasRead, read_sound, read_complete}
use ezfadvance_iii.SaveBanks
use ezfadvance_iii.SaveBanks.{
  allocate_save_banks, save_bank_count_for_marker, first_selector, last_selector, stride, bank_size,
  parse_selector, hex16, accommodates,
}
use ezfadvance_iii.SaveBanks.Layout.{
  bank_range, allocate_save_banks_iff, allocate_save_banks_disjoint,
}
use ezfadvance_iii.SaveBanks.Selector.{IsSelector, parse_selector-hex16, accommodates_iff}
use ezfadvance_iii.SaveAccess
use ezfadvance_iii.SaveAccess.{
  Request, contains, select_save_rom, bounded_save_scan_span, plan, ambiguous_selection,
  selected_size_unknown,
}
use ezfadvance_iii.SaveAccess.Selection.{Chosen, select_save_rom-selected_iff}
use ezfadvance_iii.SaveAccess.Planner.{RequestIsValid, InRange, plan-InRange, plan_ne}
use ezfadvance_iii.SaveMemory.{bank_bytes, write, clear_range}
use ezfadvance_iii.SaveMemory.Scripts.{
  write_script, write-Performs, ClearInRange, clear_script, clear_range-Performs,
}

-- The last bank.
last_bank : IsSelector 0x0930
last_bank = record { from_first = omega arith; to_last = omega arith; on_stride = refl }

-- A ROM with a Flash save before one with an SRAM save.
abbrev two_markers : List (List ℕ)
two_markers = codes "FLASH512_V131" ∷ codes "SRAM_V111" ∷ []

allocate_save_banks_iff_example :
    ((allocate_save_banks two_markers 1 4).status ≡ SaveBanks.selected) ↔ (
      (lo count : ℕ) × (bank_range two_markers 1 0 ≡ some (lo, count))
      × (lo + count ≤ 4)
      × ((allocate_save_banks two_markers 1 4).selector ≡ (first_selector + lo * 0x10) % 65536))
allocate_save_banks_iff_example = allocate_save_banks_iff two_markers 1 4

allocate_save_banks_disjoint_example :
    (first_selector ≤ (allocate_save_banks two_markers 0 4).selector)
    × ((allocate_save_banks two_markers 0 4).selector + 2 * stride
        ≤ (allocate_save_banks two_markers 1 4).selector)
    × ((allocate_save_banks two_markers 1 4).selector + (1 - 1) * stride ≤ last_selector)
unfolding allocate_save_banks save_bank_count_for_marker
allocate_save_banks_disjoint_example =
    allocate_save_banks_disjoint two_markers 0 1 2 1 (codes "FLASH512_V131") (codes "SRAM_V111")
      (omega arith) refl refl refl refl refl refl

parse_selector-hex16_example : parse_selector (hex16 0x0930) ≡ some 0x0930
parse_selector-hex16_example = parse_selector-hex16 0x0930 last_bank

accommodates_iff_example : (accommodates 0x0930 0x8000 ≡ true) ↔ (
    (banks : ℕ) × (1 ≤ banks)
    × (0x8000 ≡ banks * bank_size)
    × (0x0930 + (banks - 1) * stride ≤ last_selector))
accommodates_iff_example = accommodates_iff 0x0930 0x8000 last_bank (omega arith)

select_save_rom-selected_iff_example :
    (select_save_rom 2 (0 ∷ 1 ∷ []) (some 2)
      ≡ record { status = SaveAccess.SelectionStatus.selected; index = 1 })
    ↔ ((1 < 2) × (contains (0 ∷ 1 ∷ []) 1 ≡ true) × Chosen 2 (some 2) 1)
select_save_rom-selected_iff_example = select_save_rom-selected_iff 2 (0 ∷ 1 ∷ []) (some 2) 1

-- The save of the second ROM.
abbrev second_rom : Request
second_rom = record {
  rom_number = some 2;
  explicit_bank = none;
  consecutive_bank_count = none;
  write_size = none;
}

second_rom-RequestIsValid : RequestIsValid second_rom
second_rom-RequestIsValid = record {
  bank = λ b e. absurd (let k = e in cc);
  count = λ n e. absurd (let k = e in cc);
  size = λ n e. absurd (let k = e in cc);
}

second_rom_selected : (plan second_rom two_markers).status ≡ SaveAccess.PlanStatus.selected
unfolding plan SaveAccess.is_direct_save_bank_access select_save_rom
    SaveBanks.supported_save_size_for_marker contains allocate_save_banks save_bank_count_for_marker
second_rom_selected = refl

plan-InRange_example : InRange (plan second_rom two_markers)
plan-InRange_example =
    plan-InRange second_rom two_markers second_rom-RequestIsValid second_rom_selected

plan_ne_example :
    ((plan second_rom two_markers).status ≢ ambiguous_selection)
    × ((plan second_rom two_markers).status ≢ selected_size_unknown)
plan_ne_example = plan_ne second_rom two_markers

-- A save of one bank.
abbrev one_bank : List ℕ
one_bank = replicate bank_bytes 0x5A

write-Performs_example : Performs (write 0x0910 one_bank) (write_script 1 0x0910 one_bank)
write-Performs_example =
    write-Performs 0x0910 1 one_bank (omega arith) (omega arith) (omega arith)
      (length-replicate {A = ℕ} bank_bytes 0x5A)

clear_range-Performs_example :
    (ClearInRange 0x0910 2 × Performs (clear_range 0x0910 2) (clear_script 2 0x0910))
    ⊎ ((¬ ClearInRange 0x0910 2) × ((w : World) → clear_range 0x0910 2 w ≡ (false, w)))
clear_range-Performs_example = clear_range-Performs 0x0910 2

-- A device that answers the selector transition and then returns one bank.
abbrev echoes : ℕ → List Answer → List Answer
echoes zero answers = answers
echoes (suc pairs) answers = wrote 13 ∷ wrote 2 ∷ received command92_two ∷ echoes pairs answers

abbrev one_bank_device : World
one_bank_device = record { answers = echoes 8 (wrote 13 ∷ received one_bank ∷ []); log = [] }

take_bank : (n : ℕ) → take {A = ℕ} n (replicate n 0x5A) ≡ replicate n 0x5A
take_bank zero = refl
take_bank (suc n) = ap (λ t. 0x5A ∷ t) (take_bank n)

device_answers : Fulfils (read_script 0x0910 (one_bank ∷ [])) one_bank_device.answers []
device_answers = (
  refl,
  (
    refl,
    (
      refl,
      (
        refl,
        (
          refl,
          (
            refl,
            (
              refl,
              (
                refl,
                (
                  refl,
                  (
                    refl,
                    (
                      refl,
                      (
                        refl,
                        (
                          refl,
                          (
                            refl,
                            (
                              refl,
                              (
                                refl,
                                (
                                  refl,
                                  (
                                    refl,
                                    (
                                      refl,
                                      (
                                        refl,
                                        (
                                          refl,
                                          (
                                            refl,
                                            (refl, (refl, (refl, (take_bank bank_bytes, refl)))),
                                          ),
                                        ),
                                      ),
                                    ),
                                  ),
                                ),
                              ),
                            ),
                          ),
                        ),
                      ),
                    ),
                  ),
                ),
              ),
            ),
          ),
        ),
      ),
    ),
  ),
)

abbrev after_one_bank : World
after_one_bank = record { answers = []; log = map event_of (read_script 0x0910 (one_bank ∷ [])) }

read_complete_example :
    read (1 * bank_bytes) 0x0910 one_bank_device ≡ ok (some (one_bank ++ []), after_one_bank)
read_complete_example =
    read_complete (one_bank ∷ []) 0x0910 one_bank_device [] (omega arith) (omega arith)
      (length-replicate {A = ℕ} bank_bytes 0x5A, tt) (omega arith) device_answers

read-one_bank :
    read (1 * bank_bytes) 0x0910 one_bank_device ≡ ok (some (one_bank ++ []), after_one_bank)
read-one_bank =
    read_complete (one_bank ∷ []) 0x0910 one_bank_device [] (omega arith) (omega arith)
      (length-replicate {A = ℕ} bank_bytes 0x5A, tt) (omega arith) device_answers

read_sound_example :
    HasRead 1 0x0910 [] (one_bank ++ []) one_bank_device after_one_bank
    × (length (one_bank ++ []) ≡ 1 * bank_bytes)
read_sound_example =
    read_sound 1 0x0910 one_bank_device after_one_bank (one_bank ++ []) (omega arith) (omega arith)
      (omega arith) read-one_bank
