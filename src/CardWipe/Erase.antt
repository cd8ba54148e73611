-- ===== src/CardWipe/Erase.antt =====
-- The transfers of a bank's erase and of the blank check in src/card_wipe_workflow.cpp.
use ezfadvance_iii.Prelude.{
  ℕ, ◌+◌, ◌*◌, ◌%◌, ◌≤◌, true, ◌≡◌, refl, false, ◌||◌, List, [], ◌∷◌, ◌++◌, ◌==◌, ◌!=◌, length,
  replicate, if◌then◌else◌, arith, Bool-cases, inl, inr,
}
use mathlib.Core.Path.{subst}
use ezfadvance_iii.Usb.Traces.{Step, put, expect, Performs, &&&-Performs, Performs-done}
use ezfadvance_iii.Usb.Transfers.{bulk_out-Performs}
use ezfadvance_iii.Protocol.Scripts.{two, one, tx92_two-Performs}
use ezfadvance_iii.FlashWindow.{wipe_timing, options_of, select}
use ezfadvance_iii.FlashWindow.Scripts.{window_script, select-Performs, finish_operation-Performs}
use ezfadvance_iii.CardWipe.{
  wipe_timeout_ms, wipe_options, erase_command, erase_sector, erase_sectors, sectors_of,
  bottom_boot_sector_addresses, top_boot_sector_addresses, addresses_from, erase_bank, read_region,
  verify_blank_like_capture, final_cleanup,
}
use ezfadvance_iii.CardWipe.Transfers.{checking-Performs, erase_accepted-Accepts, blank-Accepts}

abbrev pub erase_script : List ℕ → List Step
erase_script [] = []
erase_script (address ∷ addresses) =
    put wipe_timeout_ms (erase_command address)
    ∷ expect wipe_timeout_ms 64 (erase_command address)
    ∷ erase_script addresses

erase_sectors-Performs :
    (addresses : List ℕ) → Performs (erase_sectors addresses) (erase_script addresses)
unfolding erase_sectors erase_sector
erase_sectors-Performs [] = Performs-done
erase_sectors-Performs (address ∷ addresses) =
    &&&-Performs
      (&&&-Performs (bulk_out-Performs (erase_command address) wipe_timeout_ms) (
        checking-Performs 64 wipe_timeout_ms _ (erase_command address)
          (erase_accepted-Accepts address)))
      (erase_sectors-Performs addresses)

-- The sizes of a bank's sectors in order: 8 small ones stand at the bottom of the even banks and at
-- the top of the odd ones, and 127 large ones elsewhere.
abbrev pub sector_sizes : ℕ → List ℕ
sector_sizes bank =
    if bank % 2 == 0
    then replicate 8 0x1000 ++ replicate 127 0x8000
    else replicate 127 0x8000 ++ replicate 8 0x1000

-- Where sectors of these sizes start that follow each other from an address on.
abbrev pub sector_starts : ℕ → List ℕ → List ℕ
sector_starts start [] = []
sector_starts start (size ∷ sizes) = start ∷ sector_starts (start + size) sizes

sectors_of_lem : (bank : ℕ) → bank ≤ 3 → sectors_of bank ≡ sector_starts 0 (sector_sizes bank)
unfolding sectors_of bottom_boot_sector_addresses top_boot_sector_addresses addresses_from
sectors_of_lem bank small = elim (Bool-cases (bank % 2 == 0)) [
  | inl even ↦ let p : ((bank == 0) || (bank == 2)) ≡ true = ground arith in rw (p, even) refl
  | inr odd ↦ let p : ((bank == 0) || (bank == 2)) ≡ false = ground arith in rw (p, odd) refl
]

-- The window of the bank, each sector's erase with its acknowledgement, and the status sequence.
abbrev pub erase_bank_script : ℕ → List Step
erase_bank_script bank =
    window_script wipe_timing (if bank == 0 then 0x00 else 0x02) (bank * 0x40)
    ++ (erase_script (sector_starts 0 (sector_sizes bank))
        ++ (two (options_of wipe_timing) 0xFF 0xFF
            ++ (one (options_of wipe_timing) 0x01 0x04
                ++ (one (options_of wipe_timing) 0x00 0x00
                    ++ one (options_of wipe_timing) 0x00 0x00))))

sectors_count : (bank : ℕ) → length (sectors_of bank) ≡ 135
unfolding sectors_of bottom_boot_sector_addresses top_boot_sector_addresses addresses_from
sectors_count bank = elim (Bool-cases ((bank == 0) || (bank == 2))) [
  | inl yes_ ↦ rw yes_ refl
  | inr no_ ↦ rw no_ refl
]

select_small-Performs :
    (bank : ℕ)
    → bank ≤ 3
    → Performs
        (select wipe_timing bank)
        (window_script wipe_timing (if bank == 0 then 0x00 else 0x02) (bank * 0x40))
select_small-Performs bank small = elim (select-Performs wipe_timing bank) [
  | inl (_, performs) ↦ performs
  | inr (large, _) ↦ absurd (omega arith)
]

-- A bank of the four is erased by exactly its script: its 135 sectors, which follow each
-- other from 0 on, 8 of 0x1000 at the bottom of the even banks and at the top of the odd ones and
-- 127 of 0x8000, in order, each acknowledged by its command with status 0 before the next one is sent.
pub erase_bank-Performs :
    (bank : ℕ) → bank ≤ 3 → Performs (erase_bank bank) (erase_bank_script bank)
unfolding erase_bank
erase_bank-Performs bank small =
    let test : (length (sectors_of bank) != 135) ≡ false =
      let n = sectors_count bank in ground (arith, n) in
    let sectors : Performs (erase_sectors (sectors_of bank))
        (erase_script (sector_starts 0 (sector_sizes bank))) =
      subst (λ s. Performs (erase_sectors (sectors_of bank)) (erase_script s))
        (sectors_of_lem bank small) (erase_sectors-Performs (sectors_of bank)) in
    rw test (
      &&&-Performs (select_small-Performs bank small)
        (&&&-Performs sectors (finish_operation-Performs wipe_timing)))

abbrev pub blank_script : List Step
blank_script =
    put wipe_timeout_ms (0x5A ∷ 0xA5 ∷ 0x91 ∷ 0 ∷ 0 ∷ 0 ∷ 0 ∷ 0 ∷ 0xAC ∷ 0 ∷ 0 ∷ 0 ∷ 0 ∷ [])
    ∷ expect 10000 172 (replicate 172 0xFF)
    ∷ put wipe_timeout_ms (0x5A ∷ 0xA5 ∷ 0x91 ∷ 0 ∷ 2 ∷ 0 ∷ 0 ∷ 2 ∷ 0x20 ∷ 0 ∷ 0 ∷ 0 ∷ 0 ∷ [])
    ∷ expect 10000 32 (replicate 32 0xFF)
    ∷ []

read_region-Performs :
    (command : List ℕ) (n : ℕ)
    → Performs
        (read_region command n)
        (put wipe_timeout_ms command ∷ expect 10000 n (replicate n 0xFF) ∷ [])
unfolding read_region
read_region-Performs command n =
    &&&-Performs (bulk_out-Performs command wipe_timeout_ms)
      (checking-Performs n 10000 _ (replicate n 0xFF) (blank-Accepts n))

-- The blank check passes exactly where both regions read as 0xFF in every byte.
pub verify_blank-Performs : Performs verify_blank_like_capture blank_script
unfolding verify_blank_like_capture
verify_blank-Performs = &&&-Performs (read_region-Performs _ 172) (read_region-Performs _ 32)

abbrev pub cleanup_script : List Step
cleanup_script =
    two wipe_options 0x55 0xAA
    ++ (two wipe_options 0 0 ++ (two wipe_options 0 0 ++ two wipe_options 0 0))

pub final_cleanup-Performs : Performs final_cleanup cleanup_script
unfolding final_cleanup
final_cleanup-Performs =
    let pair = tx92_two-Performs wipe_options in
    &&&-Performs (pair 0x55 0xAA) (&&&-Performs (pair 0 0) (&&&-Performs (pair 0 0) (pair 0 0)))
