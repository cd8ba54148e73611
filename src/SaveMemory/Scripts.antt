-- ===== src/SaveMemory/Scripts.antt =====
-- The transfers of save writes and clears (src/save_memory_writer.cpp, src/save_bank_cleaner.cpp).
use ezfadvance_iii.Prelude.{
  ℕ, zero, suc, ◌+◌, ◌-◌, ◌*◌, ◌/◌, ◌%◌, ◌≤◌, ◌<◌, ◌≡◌, ◌≢◌, ◌⊎◌, refl, sym, false, ◌||◌, List, [],
  ◌∷◌, ◌++◌, ltb, ◌==◌, ◌!=◌, length, take, drop, arith, Bool-cases, length-take, length-drop, inl,
  inr,
}
use mathlib.Core.Path.{subst}
use ezfadvance_iii.Prelude.Bytes.{u16}
use ezfadvance_iii.Usb.{World}
use ezfadvance_iii.Usb.Traces.{Step, put, expect, Performs, &&&-Performs, Performs-done}
use ezfadvance_iii.Usb.Transfers.{bulk_out-Performs, reading-Performs}
use ezfadvance_iii.Protocol.{default_options}
use ezfadvance_iii.Protocol.Scripts.{
  transaction, two, tx92_two-Performs, command_data_echo-Performs,
}
use ezfadvance_iii.SaveBanks.Selector.{IsSelector}
use ezfadvance_iii.SaveMemory.{
  timeout_ms, bank_bytes, select_bank, write_command, write_bank, write_banks, write, zeros,
  clear_banks, refused, clear_range,
}

-- The selector transition: unlock, the selector's two bytes, and pairs of zeros around it.
abbrev pub selector_script : ℕ → List Step
selector_script bank_value =
    let pair = two default_options in
    pair 0x55 0xAA
    ++ (pair 0 0
        ++ (pair 0 0
            ++ (pair (bank_value % 256) (bank_value / 256)
                ++ (pair 0 0 ++ (pair 0 0 ++ (pair 0 0 ++ pair 0 0))))))

pub select_bank-Performs :
    (bank_value : ℕ) → Performs (select_bank bank_value) (selector_script bank_value)
unfolding select_bank
select_bank-Performs bank_value =
    let pair = tx92_two-Performs default_options in
    &&&-Performs (pair 0x55 0xAA) (
      &&&-Performs (pair 0 0) (
        &&&-Performs (pair 0 0) (
          &&&-Performs (pair (bank_value % 256) (bank_value / 256)) (
            &&&-Performs (pair 0 0)
              (&&&-Performs (pair 0 0) (&&&-Performs (pair 0 0) (pair 0 0)))))))

-- One bank: its selector, the command, the 32 KiB, and the command as the echo.
abbrev pub write_bank_script : ℕ → List ℕ → List Step
write_bank_script bank_value save =
    selector_script bank_value
    ++ (put timeout_ms write_command
        ∷ put timeout_ms save
        ∷ expect timeout_ms 64 write_command
        ∷ [])

write_bank-Performs :
    (bank_value : ℕ) (save : List ℕ)
    → length save ≡ bank_bytes
    → Performs (write_bank bank_value save) (write_bank_script bank_value save)
unfolding write_bank
write_bank-Performs bank_value save whole =
    let test : (length save != bank_bytes) ≡ false = ground arith in
    rw test (
      &&&-Performs (select_bank-Performs bank_value) (
        &&&-Performs (bulk_out-Performs write_command timeout_ms) (
          &&&-Performs (bulk_out-Performs save timeout_ms)
            (reading-Performs timeout_ms 64 write_command))))

-- `left` consecutive banks, 0x10 apart, each with its 32 KiB of the save.
abbrev pub write_script : ℕ → ℕ → List ℕ → List Step
write_script zero bank_value save = []
write_script (suc left) bank_value save =
    write_bank_script bank_value (take bank_bytes save)
    ++ write_script left (bank_value + 0x10) (drop bank_bytes save)

write_banks-Performs :
    (left index first_bank : ℕ) (save : List ℕ)
    → length save ≡ left * bank_bytes
    → first_bank + (index + left) * 0x10 < 65536
    → Performs
        (write_banks left index first_bank save)
        (write_script left (first_bank + index * 0x10) save)
unfolding write_banks
write_banks-Performs zero index first_bank save whole word = Performs-done
write_banks-Performs (suc left) index first_bank save whole word =
    let front : length (take bank_bytes save) ≡ bank_bytes =
      omega (arith, length-take bank_bytes save) in
    let back : length (drop bank_bytes save) ≡ left * bank_bytes =
      omega (arith, length-drop bank_bytes save) in
    let plain : u16 (first_bank + index * 0x10) ≡ first_bank + index * 0x10 = omega arith in
    let next : first_bank + (index + 1) * 0x10 ≡ first_bank + index * 0x10 + 0x10 = omega arith in
    let this : Performs (write_bank (u16 (first_bank + index * 0x10)) (take bank_bytes save))
        (write_bank_script (first_bank + index * 0x10) (take bank_bytes save)) =
      subst
        (λ b.
          Performs (write_bank b (take bank_bytes save))
            (write_bank_script (first_bank + index * 0x10) (take bank_bytes save)))
        (sym plain)
        (write_bank-Performs (first_bank + index * 0x10) (take bank_bytes save) front) in
    let others : Performs (write_banks left (index + 1) first_bank (drop bank_bytes save))
        (write_script left (first_bank + index * 0x10 + 0x10) (drop bank_bytes save)) =
      subst
        (λ b.
          Performs (write_banks left (index + 1) first_bank (drop bank_bytes save))
            (write_script left b (drop bank_bytes save)))
        next
        (write_banks-Performs left (index + 1) first_bank (drop bank_bytes save) back
          (omega arith)) in
    &&&-Performs this others

-- A save of one to four whole banks, to selectors within 16 bits, is written to consecutive
-- selectors from the first on, 32 KiB each, in order, each bank acknowledged before the next.
pub write-Performs :
    (first_bank banks : ℕ) (save : List ℕ)
    → first_bank + banks * 0x10 < 65536
    → 1 ≤ banks
    → banks ≤ 4
    → length save ≡ banks * bank_bytes
    → Performs (write first_bank save) (write_script banks first_bank save)
unfolding write
write-Performs first_bank banks save word some_bank few whole =
    let test : (length save == 0
          || (length save % bank_bytes != 0)
          || ltb (4 * bank_bytes) (length save))
        ≡ false =
      ground arith in
    let count : length save / bank_bytes ≡ banks = omega arith in
    let start : first_bank + 0 * 0x10 ≡ first_bank = omega arith in
    rw (test, count)
      (subst (λ b. Performs (write_banks banks 0 first_bank save) (write_script banks b save)) start
        (write_banks-Performs banks 0 first_bank save whole (omega arith)))

-- A save that is not one to four whole banks is refused, and nothing is sent.
pub write_refused :
    (first_bank : ℕ) (save : List ℕ) (w : World)
    → ((banks : ℕ) → 1 ≤ banks → banks ≤ 4 → length save ≢ banks * bank_bytes)
    → write first_bank save w ≡ (false, w)
unfolding write
write_refused first_bank save w odd =
    elim (Bool-cases
      (length save == 0 || (length save % bank_bytes != 0) || ltb (4 * bank_bytes) (length save))) [
        | inl yes_ ↦ rw yes_ refl
        | inr no_ ↦
            absurd (odd (length save / bank_bytes) (ground arith) (ground arith) (ground arith))
      ]

-- Consecutive banks that are each filled with zeros.
abbrev pub clear_script : ℕ → ℕ → List Step
clear_script zero bank_value = []
clear_script (suc left) bank_value =
    selector_script bank_value
    ++ (transaction default_options write_command zeros ++ clear_script left (bank_value + 0x10))

clear_banks-Performs :
    (left bank first_selector : ℕ)
    → first_selector + (bank + left) * 0x10 < 65536
    → Performs
        (clear_banks left bank first_selector)
        (clear_script left (first_selector + bank * 0x10))
unfolding clear_banks
clear_banks-Performs zero bank first_selector word = Performs-done
clear_banks-Performs (suc left) bank first_selector word =
    let plain : first_selector + bank * 0x10 ≡ u16 (first_selector + bank * 0x10) = omega arith in
    let next : first_selector + (bank + 1) * 0x10 ≡ first_selector + bank * 0x10 + 0x10 =
      omega arith in
    &&&-Performs
      (subst (λ b. Performs (select_bank b) (selector_script (first_selector + bank * 0x10))) plain
        (select_bank-Performs (first_selector + bank * 0x10)))
      (&&&-Performs (command_data_echo-Performs default_options write_command zeros) (
        subst (λ b. Performs (clear_banks left (bank + 1) first_selector) (clear_script left b))
          next (clear_banks-Performs left (bank + 1) first_selector (omega arith))))

-- The banks of a clear lie among the four.
abbrev pub ClearInRange : ℕ → ℕ → Type 0
ClearInRange first_selector bank_count =
    IsSelector first_selector
    × (1 ≤ bank_count)
    × (first_selector + (bank_count - 1) * 0x10 ≤ 0x0930)

in_range-ClearInRange :
    (first_selector bank_count : ℕ)
    → refused first_selector bank_count ≡ false
    → ClearInRange first_selector bank_count
in_range-ClearInRange first_selector bank_count good = (
  record { from_first = ground arith; to_last = ground arith; on_stride = ground arith },
  ground arith,
  ground arith,
)

-- A range among the four banks is cleared bank by bank, each selected and filled with zeros; for
-- any other range nothing is sent, and the result is false.
pub clear_range-Performs :
    (first_selector bank_count : ℕ)
    → (ClearInRange first_selector bank_count
        × Performs (clear_range first_selector bank_count) (clear_script bank_count first_selector))
      ⊎ ((¬ ClearInRange first_selector bank_count)
          × ((w : World) → clear_range first_selector bank_count w ≡ (false, w)))
unfolding clear_range
clear_range-Performs first_selector bank_count =
    elim (Bool-cases (refused first_selector bank_count)) [
      | inl bad ↦ inr (
        λ (v, some_bank, fits).
            let f = v.from_first in
            let t = v.to_last in let o = v.on_stride in absurd (ground (arith, f, t, o)),
        λ w. rw bad refl,
      )
      | inr good ↦
          let start : first_selector + 0 * 0x10 ≡ first_selector = omega arith in
          inl (
            in_range-ClearInRange first_selector bank_count good,
            rw good (
                subst
                  (λ b.
                    Performs (clear_banks bank_count 0 first_selector) (clear_script bank_count b))
                  start
                  (clear_banks-Performs bank_count 0 first_selector (
                    let (v, some_bank, fits) =
                      in_range-ClearInRange first_selector bank_count good in
                    omega arith))),
          )
    ]
