-- ===== src/CardWipe.antt =====
-- The erase of a whole card: src/card_wipe_workflow.cpp, and the readiness polls that it shares
-- with src/read_session_transition.cpp. Console output is left out.
pub mod Transfers
pub mod Erase
pub mod Polls
pub mod Execute
pub mod Session
use ezfadvance_iii.Prelude.{
  ℕ, zero, suc, ◌+◌, ◌*◌, ◌/◌, ◌%◌, Bool, true, false, ◌&&◌, ◌||◌, not, Option, none, some, List,
  [], ◌∷◌, ◌++◌, ltb, ◌==◌, ◌!=◌, if◌then◌else◌, length, take, get_or,
}
use ezfadvance_iii.Prelude.Bytes.{byte_at}
use ezfadvance_iii.Prelude.Text.{same_text}
use ezfadvance_iii.Usb.{
  World, Action, ◌&&&◌, done, bulk_out, in_max, in_exact, wait, read_and_compare,
}
use ezfadvance_iii.Protocol.{EchoOptions, tx92_two}
use ezfadvance_iii.FlashWindow.{wipe_timing, select, finish_operation}
use ezfadvance_iii.SaveMemory.{clear_all}

abbrev pub wipe_timeout_ms : ℕ
wipe_timeout_ms = 5000

-- The addresses `first`, `first + stride`, … , `count` of them.
unfoldable pub addresses_from : ℕ → ℕ → ℕ → List ℕ
addresses_from zero first stride = []
addresses_from (suc count) first stride = first ∷ addresses_from count (first + stride) stride

-- `bottomBootSectorAddresses`: 4-KiB sectors up to 0x8000, 32-KiB sectors up to 0x3F8000.
unfoldable pub bottom_boot_sector_addresses : List ℕ
unfolding addresses_from
bottom_boot_sector_addresses = addresses_from 9 0 0x1000 ++ addresses_from 126 0x10000 0x8000

-- `topBootSectorAddresses`: 32-KiB sectors up to 0x3F8000, 4-KiB sectors up to 0x3FF000.
unfoldable pub top_boot_sector_addresses : List ℕ
unfolding addresses_from
top_boot_sector_addresses = addresses_from 128 0 0x8000 ++ addresses_from 7 0x3F9000 0x1000

-- `allErased`
unfoldable pub all_erased : List ℕ → Bool
all_erased [] = true
all_erased (byte ∷ bytes) = (byte == 0xFF) && all_erased bytes

-- `inMax` into a vector that is then tested.
tested : (List ℕ → Bool) → Option (List ℕ) → Bool
tested test none = false
tested test (some response) = test response

unfoldable pub checking : ℕ → ℕ → (List ℕ → Bool) → Action
unfolding tested
checking maximum timeout test w =
    let (response, w') = in_max maximum timeout w in (tested test response, w')

abbrev pub command97 : List ℕ
command97 = 0x5A ∷ 0xA5 ∷ 0x97 ∷ 0 ∷ 0 ∷ 0 ∷ 0 ∷ 0 ∷ 0 ∷ 0 ∷ 0 ∷ 0 ∷ 0 ∷ []

abbrev pub command98 : List ℕ
command98 = 0x5A ∷ 0xA5 ∷ 0x98 ∷ 0 ∷ 0 ∷ 0 ∷ 0 ∷ 0 ∷ 0 ∷ 0 ∷ 0 ∷ 0 ∷ 0 ∷ []

abbrev pub command99 : List ℕ
command99 = 0x5A ∷ 0xA5 ∷ 0x99 ∷ 0 ∷ 1 ∷ 0 ∷ 0 ∷ 0 ∷ 0 ∷ 0 ∷ 0 ∷ 0 ∷ 0 ∷ []

-- The byte of a reply of one byte.
only_byte : Option (List ℕ) → Option ℕ
only_byte none = none
only_byte (some []) = none
only_byte (some (byte ∷ [])) = some byte
only_byte (some (byte ∷ next ∷ bytes)) = none

-- A readiness command and its reply, read with `inMax`.
unfoldable pub wipe_poll : World → Option ℕ × World
unfolding only_byte
wipe_poll w =
    let (good, w1) = bulk_out command98 wipe_timeout_ms w in
    if good
    then (let (response, w2) = in_max 1 wipe_timeout_ms w1 in (only_byte response, w2))
    else (none, w1)

-- What a poll's reply leads to, with `left` attempts to go: ready at 1, another try behind 100 ms at
-- 0 while attempts are left, and an end at a failure or any other byte.
next_poll : ℕ → Action → Option ℕ × World → Bool × World
next_poll left retry (none, w) = (false, w)
next_poll left retry (some byte, w) =
    if byte == 1
    then (true, w)
    else if byte != 0
    then (false, w)
    else retry (if left == 0 then w else (wait 100000 w).1)

-- The poll loops.
unfoldable pub polls : (World → Option ℕ × World) → ℕ → Action
unfolding next_poll
polls poll zero w = (false, w)
polls poll (suc left) w = next_poll left (λ u. polls poll left u) (poll w)

-- `CardWipeWorkflow::cartridgeReadyPreflight`
unfoldable pub cartridge_ready_preflight : Action
unfolding polls wipe_poll
cartridge_ready_preflight =
    bulk_out command97 wipe_timeout_ms
    &&& checking 1 wipe_timeout_ms
        (λ response. (length response == 1) && (get_or response 0 0 == 0))
    &&& polls wipe_poll 5
    &&& bulk_out command99 wipe_timeout_ms
    &&& read_and_compare wipe_timeout_ms 13 command99

-- `CardWipeWorkflow::finalCleanup`, with the transactions of `tx92Two`.
abbrev pub wipe_options : EchoOptions
wipe_options = record { timeout_ms = wipe_timeout_ms; settle_us = 0 }

unfoldable pub final_cleanup : Action
final_cleanup =
    tx92_two wipe_options 0x55 0xAA
    &&& tx92_two wipe_options 0 0
    &&& tx92_two wipe_options 0 0
    &&& tx92_two wipe_options 0 0

abbrev pub erase_command : ℕ → List ℕ
erase_command address =
    0x5A
    ∷ 0xA5
    ∷ 0x96
    ∷ 0
    ∷ address % 256
    ∷ address / 256 % 256
    ∷ address / 65536 % 256
    ∷ address / 16777216 % 256
    ∷ 0
    ∷ 0
    ∷ 0
    ∷ 0
    ∷ 0
    ∷ []

-- The tests on the reply of `eraseSector`: 13 bytes, the command's first twelve, status 0.
unfoldable pub erase_accepted : List ℕ → List ℕ → Bool
erase_accepted command response =
    if (length response != 13) || not (same_text (take 12 command) (take 12 response))
    then false
    else get_or response 12 0 == 0

-- `CardWipeWorkflow::eraseSector`
unfoldable pub erase_sector : ℕ → Action
unfolding erase_accepted
erase_sector address =
    bulk_out (erase_command address) wipe_timeout_ms
    &&& checking 64 wipe_timeout_ms (erase_accepted (erase_command address))

-- The loop of `eraseBank`.
erase_sectors : List ℕ → Action
erase_sectors [] = done
erase_sectors (address ∷ addresses) = erase_sector address &&& (λ w. erase_sectors addresses w)

-- The sectors of a bank.
unfoldable pub sectors_of : ℕ → List ℕ
sectors_of bank =
    if (bank == 0) || (bank == 2) then bottom_boot_sector_addresses else top_boot_sector_addresses

-- `CardWipeWorkflow::eraseBank`
unfoldable pub erase_bank : ℕ → Action
unfolding erase_sectors
erase_bank bank =
    if length (sectors_of bank) != 135
    then (λ w. (false, w))
    else (select wipe_timing bank
        &&& erase_sectors (sectors_of bank)
        &&& finish_operation wipe_timing)

-- `CardWipeWorkflow::readRegion` with the test of `verifyBlankLikeCapture` on what it read.
read_region : List ℕ → ℕ → Action
unfolding all_erased
read_region command expected_length =
    bulk_out command wipe_timeout_ms
    &&& checking expected_length 10000
        (λ result. (length result == expected_length) && all_erased result)

-- `CardWipeWorkflow::verifyBlankLikeCapture`
unfoldable pub verify_blank_like_capture : Action
unfolding read_region
verify_blank_like_capture =
    read_region (0x5A ∷ 0xA5 ∷ 0x91 ∷ 0 ∷ 0 ∷ 0 ∷ 0 ∷ 0 ∷ 0xAC ∷ 0 ∷ 0 ∷ 0 ∷ 0 ∷ []) 172
    &&& read_region (0x5A ∷ 0xA5 ∷ 0x91 ∷ 0 ∷ 2 ∷ 0 ∷ 0 ∷ 2 ∷ 0x20 ∷ 0 ∷ 0 ∷ 0 ∷ 0 ∷ []) 32

-- `CardWipeWorkflow::execute`
unfoldable pub execute : Action
execute =
    cartridge_ready_preflight
    &&& erase_bank 0
    &&& erase_bank 1
    &&& erase_bank 2
    &&& erase_bank 3
    &&& clear_all
    &&& final_cleanup
    &&& verify_blank_like_capture

-- `ReadSessionTransition::pollReady`: the command, and a reply of one byte read with `inExact`.
session_timeout_ms : ℕ
session_timeout_ms = 15000

session_poll : World → Option ℕ × World
unfolding only_byte session_timeout_ms
session_poll w =
    let (good, w1) = bulk_out command98 session_timeout_ms w in
    if good
    then (let (response, w2) = in_exact 1 session_timeout_ms w1 in (only_byte response, w2))
    else (none, w1)

is_one : Option ℕ → Bool
is_one none = false
is_one (some byte) = byte == 1

unfoldable pub poll_ready : Action
unfolding session_poll is_one
poll_ready w = let (reply, w') = session_poll w in (is_one reply, w')

-- `ReadSessionTransition::waitUntilReady`
unfoldable pub wait_until_ready : ℕ → Action
unfolding polls session_poll
wait_until_ready attempts = polls session_poll attempts

-- `ReadSessionTransition::finishReadinessTransition`
unfoldable pub finish_readiness_transition : Action
finish_readiness_transition = poll_ready &&& poll_ready &&& poll_ready &&& wait 1000000
