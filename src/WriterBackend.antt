-- ===== src/WriterBackend.antt =====
-- The transfers of src/libusb_writer_backend.cpp: the manager's start and its probes, and the
-- backend's methods. Console output is left out; a duration is in microseconds.
pub mod Erase
pub mod Coverage
pub mod Program
pub mod Plan
use ezfadvance_iii.Prelude.{
  ℕ, zero, suc, ◌+◌, Bool, true, false, Option, none, some, List, [], ◌∷◌, ◌==◌, if◌then◌else◌,
  length,
}
use ezfadvance_iii.Prelude.Bytes.{byte_at, u32}
use ezfadvance_iii.Prelude.Text.{same_text}
use ezfadvance_iii.CartridgeFormat.{write_le32}
use ezfadvance_iii.Usb.{World, Action, ◌&&&◌, done, bulk_out, in_exact, wait}
use ezfadvance_iii.Protocol.{default_options, command92_two, command_data_echo, tx92_two, tx92_one}
use ezfadvance_iii.CardWipe.{command97, command98, command99, polls}

abbrev pub usb_timeout_ms : ℕ
usb_timeout_ms = 15000

-- `tx92_2`, `tx92_1` and the manager's names for them: a command, 750 microseconds, data and echo.
unfoldable pub manager_tx92_2 : ℕ → ℕ → Action
manager_tx92_2 a b = tx92_two default_options a b

unfoldable pub manager_tx92_1 : ℕ → ℕ → Action
manager_tx92_1 selector value = tx92_one default_options selector value

-- `manager_tx92_2_at`
unfoldable pub manager_tx92_2_at : ℕ → ℕ → ℕ → Action
manager_tx92_2_at word_address a b =
    command_data_echo default_options (write_le32 command92_two 4 word_address) (a ∷ b ∷ [])

-- `bulk_in_exact` and a test of what was read.
abbrev passes : (List ℕ → Bool) → Option (List ℕ) → Bool
passes test none = false
passes test (some bytes) = test bytes

unfoldable pub exactly : ℕ → ℕ → (List ℕ → Bool) → Action
exactly wanted timeout test w =
    let (bytes, w') = in_exact wanted timeout w in (passes test bytes, w')

-- `manager_read91_sub2_4`; what it reads is only printed.
unfoldable pub manager_read91_sub2_4 : Action
manager_read91_sub2_4 =
    bulk_out (0x5A ∷ 0xA5 ∷ 0x91 ∷ 0x02 ∷ 0 ∷ 0 ∷ 0 ∷ 0 ∷ 0x04 ∷ 0 ∷ 0 ∷ 0 ∷ 0 ∷ []) usb_timeout_ms
    &&& exactly 4 usb_timeout_ms (λ bytes. true)

-- `manager_read91_normal`
unfoldable pub manager_read91_normal : ℕ → ℕ → Action
manager_read91_normal word_address length_ =
    bulk_out
      (write_le32
        (write_le32 (0x5A ∷ 0xA5 ∷ 0x91 ∷ 0 ∷ 0 ∷ 0 ∷ 0 ∷ 0 ∷ 0 ∷ 0 ∷ 0 ∷ 0 ∷ 0 ∷ []) 4
          word_address)
        8 (u32 length_))
      usb_timeout_ms
    &&& exactly length_ usb_timeout_ms (λ bytes. true)

-- The first byte of a reply of one byte.
abbrev reply_byte : Option (List ℕ) → Option ℕ
reply_byte none = none
reply_byte (some bytes) = some (byte_at bytes 0)

abbrev ready_reply : Bool × World → Option ℕ × World
ready_reply (false, w) = (none, w)
ready_reply (true, w) = let (bytes, w') = in_exact 1 usb_timeout_ms w in (reply_byte bytes, w')

-- A readiness command 0x98 and its reply.
unfoldable pub readiness_poll : World → Option ℕ × World
readiness_poll w = ready_reply (bulk_out command98 usb_timeout_ms w)

-- `original_bridge_startup_979899`; the loop is that of `polls`, with five attempts.
unfoldable pub original_bridge_startup : Action
original_bridge_startup =
    bulk_out command97 usb_timeout_ms
    &&& exactly 1 usb_timeout_ms (λ bytes. byte_at bytes 0 == 0x00)
    &&& polls readiness_poll 5
    &&& bulk_out command99 usb_timeout_ms
    &&& exactly 13 usb_timeout_ms (λ bytes. same_text bytes command99)

-- `manager_probe_unlock_tail`
unfoldable pub manager_probe_unlock_tail : Action
manager_probe_unlock_tail =
    manager_tx92_2 0xAA 0x55
    &&& manager_tx92_2 0x00 0x00
    &&& manager_tx92_2 0x00 0x00
    &&& manager_tx92_2 0x00 0x00
    &&& manager_tx92_1 0x00 0xAA
    &&& manager_tx92_1 0x00 0x55
    &&& manager_tx92_1 0x01 0x06

-- `manager_probe_prefix`, with its three words.
unfoldable pub manager_probe_prefix : ℕ × ℕ → ℕ × ℕ → ℕ × ℕ → Bool → Action
manager_probe_prefix (a0, a1) (b0, b1) (c0, c1) include_tail =
    manager_tx92_2 0x55 0xAA
    &&& manager_tx92_2 a0 a1
    &&& manager_tx92_2 b0 b1
    &&& manager_tx92_2 c0 c1
    &&& wait 125000
    &&& (if include_tail then manager_probe_unlock_tail else done)

-- `manager_probe_reset_after_id`
unfoldable pub manager_probe_reset_after_id : Bool → Action
manager_probe_reset_after_id use_f0 =
    manager_tx92_2 (if use_f0 then 0xF0 else 0xFF) (if use_f0 then 0x00 else 0xFF)
    &&& manager_tx92_1 0x01 0x04
    &&& manager_tx92_1 0x00 0x00
    &&& manager_tx92_1 0x00 0x00

-- `manager_flash_id_probe`
unfoldable pub manager_flash_id_probe : ℕ × ℕ → ℕ × ℕ → ℕ × ℕ → Action
manager_flash_id_probe a b c =
    manager_probe_prefix a b c true
    &&& manager_tx92_2 0x90 0x00
    &&& manager_read91_sub2_4
    &&& manager_probe_reset_after_id false

abbrev command95 : List ℕ
command95 = 0x5A ∷ 0xA5 ∷ 0x95 ∷ 0x00 ∷ 0x80 ∷ 0 ∷ 0 ∷ 0 ∷ 0 ∷ 0 ∷ 0 ∷ 0 ∷ 0 ∷ []

-- `original_manager_initialize_and_check`, the backend's `preflight`.
unfoldable pub original_manager_initialize_and_check : Action
original_manager_initialize_and_check =
    original_bridge_startup
    &&& manager_probe_prefix (0, 0) (0, 0) (0, 0) true
    &&& manager_tx92_2_at 0x555 0xAA 0x00
    &&& manager_tx92_2_at 0x2AA 0x55 0x00
    &&& manager_tx92_2_at 0x555 0x90 0x00
    &&& manager_read91_sub2_4
    &&& manager_tx92_2 0x90 0x00
    &&& manager_probe_reset_after_id true
    &&& manager_flash_id_probe (0x00, 0x00) (0x00, 0x00) (0x00, 0x00)
    &&& manager_flash_id_probe (0x02, 0x00) (0x00, 0x40) (0x00, 0x00)
    &&& manager_flash_id_probe (0x02, 0x00) (0x00, 0x80) (0x00, 0x00)
    &&& manager_flash_id_probe (0x02, 0x00) (0x00, 0xC0) (0x00, 0x00)
    &&& manager_flash_id_probe (0x00, 0x00) (0x00, 0x00) (0x02, 0x00)
    &&& manager_probe_prefix (0, 0) (0, 0) (0, 0) false
    &&& bulk_out command95 usb_timeout_ms
    &&& exactly 13 usb_timeout_ms (λ bytes. same_text bytes command95)
    &&& manager_read91_normal 0 0xAC

-- A poll of `initialize_bridge`.
unfoldable pub bridge_poll : Action
bridge_poll = bulk_out command98 5000 &&& exactly 1 5000 (λ bytes. byte_at bytes 0 == 0x01)

-- `initialize_bridge`: three polls a second apart, and a second behind them.
unfoldable pub initialize_bridge : Action
initialize_bridge =
    bridge_poll &&& wait 1000000 &&& bridge_poll &&& wait 1000000 &&& bridge_poll &&& wait 1000000
