-- ===== src/Protocol/Scripts.antt =====
-- What a transaction of src/protocol.cpp sends and expects.
use ezfadvance_iii.Prelude.{ℕ, List, [], ◌∷◌, ◌++◌}
use ezfadvance_iii.Usb.Traces.{Step, put, expect, Performs, &&&-Performs}
use ezfadvance_iii.Usb.Transfers.{
  pauses, wait_unless_zero-Performs, bulk_out-Performs, reading-Performs,
}
use ezfadvance_iii.Protocol.{
  EchoOptions, command92_one, command92_two, command_data_echo, tx92_one, tx92_two,
}

-- The command, the settling time, the data, and the command once more as the echo.
abbrev pub transaction : EchoOptions → List ℕ → List ℕ → List Step
transaction options command payload =
    put options.timeout_ms command
    ∷ (pauses options.settle_us
        ++ (put options.timeout_ms payload ∷ expect options.timeout_ms 64 command ∷ []))

-- A transaction sends the command, waits, sends the data and wants the command echoed; it gives true
-- exactly when every transfer is complete and the echo is the command, and stops at the first
-- that is not.
pub command_data_echo-Performs :
    (options : EchoOptions) (command payload : List ℕ)
    → Performs (command_data_echo options command payload) (transaction options command payload)
unfolding command_data_echo
command_data_echo-Performs options command payload =
    &&&-Performs (bulk_out-Performs command options.timeout_ms) (
      &&&-Performs (wait_unless_zero-Performs options.settle_us) (
        &&&-Performs (bulk_out-Performs payload options.timeout_ms)
          (reading-Performs options.timeout_ms 64 command)))

-- The transaction that writes two bytes, and the one that writes one.
abbrev pub two : EchoOptions → ℕ → ℕ → List Step
two options first second = transaction options command92_two (first ∷ second ∷ [])

abbrev pub one : EchoOptions → ℕ → ℕ → List Step
one options selector value = transaction options (command92_one selector) (value ∷ [])

pub tx92_two-Performs :
    (options : EchoOptions) (first second : ℕ)
    → Performs (tx92_two options first second) (two options first second)
unfolding tx92_two
tx92_two-Performs options first second = command_data_echo-Performs options _ _

pub tx92_one-Performs :
    (options : EchoOptions) (selector value : ℕ)
    → Performs (tx92_one options selector value) (one options selector value)
unfolding tx92_one
tx92_one-Performs options selector value = command_data_echo-Performs options _ _
