-- ===== src/Protocol.antt =====
-- The EZ3 command, data and echo transaction of src/protocol.cpp.
pub mod Scripts
use ezfadvance_iii.Prelude.{
  ℕ, Bool, true, false, Option, none, some, List, [], ◌∷◌, ◌==◌, if◌then◌else◌,
}
use ezfadvance_iii.Usb.{World, Action, ◌&&&◌, bulk_out, wait_unless_zero, read_and_compare}

pub record EchoOptions : Type 0 where
  pub timeout_ms : ℕ
  pub settle_us : ℕ

-- The defaults of `CommandEchoOptions`.
abbrev pub default_options : EchoOptions
default_options = record { timeout_ms = 15000; settle_us = 750 }

-- `Protocol::command92Two`
abbrev pub command92_two : List ℕ
command92_two =
    0x5A ∷ 0xA5 ∷ 0x92 ∷ 0x02 ∷ 0x00 ∷ 0x00 ∷ 0x00 ∷ 0x00 ∷ 0x02 ∷ 0x00 ∷ 0x00 ∷ 0x00 ∷ 0x00 ∷ []

-- `Protocol::command92One`
abbrev pub command92_one : ℕ → List ℕ
command92_one selector =
    0x5A ∷ 0xA5 ∷ 0x92 ∷ 0x01 ∷ selector ∷ 0x00 ∷ 0x00 ∷ 0x00 ∷ 0x01 ∷ 0x00 ∷ 0x00 ∷ 0x00 ∷ 0x00
    ∷ []

-- `Protocol::commandDataEcho`: the delay stands between the command and the data, and the echo of
-- at most 64 bytes is compared with the command.
unfoldable pub command_data_echo : EchoOptions → List ℕ → List ℕ → Action
command_data_echo options command payload =
    bulk_out command options.timeout_ms
    &&& wait_unless_zero options.settle_us
    &&& bulk_out payload options.timeout_ms
    &&& read_and_compare options.timeout_ms 64 command

-- `Protocol::tx92Two`
unfoldable pub tx92_two : EchoOptions → ℕ → ℕ → Action
tx92_two options first second = command_data_echo options command92_two (first ∷ second ∷ [])

-- `Protocol::tx92One`
unfoldable pub tx92_one : EchoOptions → ℕ → ℕ → Action
tx92_one options selector value = command_data_echo options (command92_one selector) (value ∷ [])
