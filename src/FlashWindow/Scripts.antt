-- ===== src/FlashWindow/Scripts.antt =====
-- The transactions of src/flash_window_selector.cpp, as scripts.
use ezfadvance_iii.Prelude.{
  ℕ, ◌*◌, ◌≤◌, ◌<◌, ◌≡◌, refl, false, List, ◌++◌, ltb, ◌==◌, if◌then◌else◌, arith, ◌⊎◌, inl, inr,
  Bool-cases,
}
use mathlib.Core.Path.{subst}
use ezfadvance_iii.Prelude.Bytes.{u8}
use ezfadvance_iii.Usb.{World}
use ezfadvance_iii.Usb.Traces.{Step, Performs, &&&-Performs}
use ezfadvance_iii.Usb.Transfers.{pauses, wait_unless_zero-Performs}
use ezfadvance_iii.Protocol.Scripts.{two, one, tx92_two-Performs, tx92_one-Performs}
use ezfadvance_iii.FlashWindow.{
  Timing, options_of, bank_mode, tx_two, tx_one, select_in_range, select, finish_operation,
}

module _ (timing : Timing) where
  tx_two-Performs :
      (first second : ℕ)
      → Performs (tx_two timing first second) (two (options_of timing) (u8 first) (u8 second))
  unfolding tx_two
  tx_two-Performs first second = tx92_two-Performs (options_of timing) (u8 first) (u8 second)

  tx_one-Performs :
      (selector value : ℕ)
      → Performs (tx_one timing selector value) (one (options_of timing) (u8 selector) (u8 value))
  unfolding tx_one
  tx_one-Performs selector value = tx92_one-Performs (options_of timing) (u8 selector) (u8 value)

  -- The bytes of the window selection in the order of the capture: unlock, mode, window in the two
  -- top bits, settle, relock and the three one-byte writes.
  abbrev pub window_script : ℕ → ℕ → List Step
  window_script mode high =
      two (options_of timing) 0x55 0xAA
      ++ (two (options_of timing) mode 0x00
          ++ (two (options_of timing) 0x00 high
              ++ (two (options_of timing) 0x00 0x00
                  ++ (pauses timing.pre_unlock_settle_us
                      ++ (two (options_of timing) 0xAA 0x55
                          ++ (two (options_of timing) 0x00 0x00
                              ++ (two (options_of timing) 0x00 0x00
                                  ++ (two (options_of timing) 0x00 0x00
                                      ++ (one (options_of timing) 0x00 0xAA
                                          ++ (one (options_of timing) 0x00 0x55
                                              ++ one (options_of timing) 0x01 0x06))))))))))

  select_in_range-Performs :
      (window : ℕ)
      → Performs
          (select_in_range timing window)
          (window_script (u8 (bank_mode window)) (u8 (window * 0x40)))
  unfolding select_in_range
  select_in_range-Performs window = &&&-Performs (tx_two-Performs 0x55 0xAA) (
      &&&-Performs (tx_two-Performs (bank_mode window) 0x00) (
        &&&-Performs (tx_two-Performs 0x00 (window * 0x40)) (
          &&&-Performs (tx_two-Performs 0x00 0x00) (
            &&&-Performs (wait_unless_zero-Performs timing.pre_unlock_settle_us) (
              &&&-Performs (tx_two-Performs 0xAA 0x55) (
                &&&-Performs (tx_two-Performs 0x00 0x00) (
                  &&&-Performs (tx_two-Performs 0x00 0x00) (
                    &&&-Performs (tx_two-Performs 0x00 0x00) (
                      &&&-Performs (tx_one-Performs 0x00 0xAA) (
                        &&&-Performs (tx_one-Performs 0x00 0x55)
                          (tx_one-Performs 0x01 0x06)))))))))))

  -- A window of at most 3 is selected by exactly the captured script, with mode 2 and the window
  -- times 0x40 for the windows behind the first; any other window is refused, and nothing is sent.
  pub select-Performs :
      (window : ℕ)
      → ((window ≤ 3)
          × Performs
              (select timing window)
              (window_script (if window == 0 then 0x00 else 0x02) (window * 0x40)))
        ⊎ ((3 < window) × ((w : World) → select timing window w ≡ (false, w)))
  unfolding select
  select-Performs window = elim (Bool-cases (ltb 3 window)) [
    | inl large ↦ inr (ground arith, λ w. rw large refl)
    | inr small ↦
        let mode : u8 (bank_mode window) ≡ (if window == 0 then 0x00 else 0x02) = ground arith in
        let high : u8 (window * 0x40) ≡ window * 0x40 = ground arith in
        inl (
          ground arith,
          rw small (
              subst
                (λ b. Performs (select_in_range timing window) (window_script b (window * 0x40)))
                mode
                (subst
                  (λ b.
                    Performs (select_in_range timing window)
                      (window_script (u8 (bank_mode window)) b))
                  high (select_in_range-Performs window))),
        )
  ]

  -- The status sequence behind an operation: two bytes 0xFF, and three one-byte writes.
  pub finish_operation-Performs : Performs (finish_operation timing) (
      two (options_of timing) 0xFF 0xFF
      ++ (one (options_of timing) 0x01 0x04
          ++ (one (options_of timing) 0x00 0x00 ++ one (options_of timing) 0x00 0x00)))
  unfolding finish_operation
  finish_operation-Performs = &&&-Performs (tx_two-Performs 0xFF 0xFF) (
      &&&-Performs (tx_one-Performs 0x01 0x04)
        (&&&-Performs (tx_one-Performs 0x00 0x00) (tx_one-Performs 0x00 0x00)))
