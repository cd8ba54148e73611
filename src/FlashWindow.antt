-- ===== src/FlashWindow.antt =====
-- Flash-window selection of src/flash_window_selector.cpp. The report stream is left out.
pub mod Scripts
use ezfadvance_iii.Prelude.{ℕ, ◌*◌, false, ltb, ◌==◌, if◌then◌else◌}
use ezfadvance_iii.Prelude.Bytes.{u8}
use ezfadvance_iii.Usb.{Action, ◌&&&◌, wait_unless_zero}
use ezfadvance_iii.Protocol.{EchoOptions, tx92_two, tx92_one}

pub record Timing : Type 0 where
  pub timeout_ms : ℕ
  pub command_data_settle_us : ℕ
  pub pre_unlock_settle_us : ℕ

-- `writerTiming`
abbrev pub writer_timing : Timing
writer_timing = record {
  timeout_ms = 15000;
  command_data_settle_us = 750;
  pre_unlock_settle_us = 125000;
}

-- `wipeTiming`
abbrev pub wipe_timing : Timing
wipe_timing = record { timeout_ms = 5000; command_data_settle_us = 0; pre_unlock_settle_us = 0 }

abbrev pub options_of : Timing → EchoOptions
options_of timing = record {
  timeout_ms = timing.timeout_ms;
  settle_us = timing.command_data_settle_us;
}

-- `txTwo`
unfoldable pub tx_two : Timing → ℕ → ℕ → Action
tx_two timing first second = tx92_two (options_of timing) (u8 first) (u8 second)

-- `txOne`
unfoldable pub tx_one : Timing → ℕ → ℕ → Action
tx_one timing selector value = tx92_one (options_of timing) (u8 selector) (u8 value)

abbrev bank_mode : ℕ → ℕ
bank_mode window = if window == 0 then 0x00 else 0x02

-- The transactions of `select` for a window in range; `bank_select_high` is `window * 0x40`.
select_in_range : Timing → ℕ → Action
select_in_range timing window =
    tx_two timing 0x55 0xAA
    &&& tx_two timing (bank_mode window) 0x00
    &&& tx_two timing 0x00 (window * 0x40)
    &&& tx_two timing 0x00 0x00
    &&& wait_unless_zero timing.pre_unlock_settle_us
    &&& tx_two timing 0xAA 0x55
    &&& tx_two timing 0x00 0x00
    &&& tx_two timing 0x00 0x00
    &&& tx_two timing 0x00 0x00
    &&& tx_one timing 0x00 0xAA
    &&& tx_one timing 0x00 0x55
    &&& tx_one timing 0x01 0x06

-- `FlashWindowSelector::select`
unfoldable pub select : Timing → ℕ → Action
unfolding select_in_range
select timing window = if ltb 3 window then (λ w. (false, w)) else select_in_range timing window

-- `FlashWindowSelector::finishOperation`
unfoldable pub finish_operation : Timing → Action
finish_operation timing =
    tx_two timing 0xFF 0xFF
    &&& tx_one timing 0x01 0x04
    &&& tx_one timing 0x00 0x00
    &&& tx_one timing 0x00 0x00
