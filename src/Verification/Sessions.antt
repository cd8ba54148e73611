-- ===== src/Verification/Sessions.antt =====
-- The nine ways of src/verification_session.cpp to verify an image, and
-- LibusbWriterBackend::verify of src/libusb_writer_backend.cpp, which picks one.
pub mod Scripts
pub mod Decides
use ezfadvance_iii.Prelude.{ℕ, Bool, true, false, List, ◌!=◌, if◌then◌else◌, length}
use ezfadvance_iii.Prelude.Result.{Result, ok, err}
use ezfadvance_iii.Usb.{Action, ◌&&&◌, wait}
use ezfadvance_iii.Protocol.{default_options, tx92_two, tx92_one}
use ezfadvance_iii.CardWriter.{
  VerificationMode, partial_first_window, exact_8_mib, partial_12_mib, exact_16_mib,
  tiny_tail_above_16_mib, partial_20_mib, exact_24_mib, partial_28_mib, exact_32_mib,
  unsupported_partial_higher_window,
}
use ezfadvance_iii.Verification.{
  VerifyError, wrong_size, first_window_size, two_window_size, partial_first_window_extent,
  tiny_tail_above_16_mib_extent, verify_linear,
}

-- `protocol_.tx92Two` and `protocol_.tx92One`, with the default options.
abbrev pub tx_two : ℕ → ℕ → Action
tx_two first second = tx92_two default_options first second

abbrev pub tx_one : ℕ → ℕ → Action
tx_one selector value = tx92_one default_options selector value

-- `VerificationSession::statusSequence`
unfoldable pub status_sequence : Action
status_sequence = tx_two 0xFF 0xFF

-- The status transactions that the longer ways write out.
unfoldable pub status_tail : Action
status_tail = tx_two 0xFF 0xFF &&& tx_one 0x01 0x04 &&& tx_one 0x00 0x00 &&& tx_one 0x00 0x00

-- The four transactions before the reads.
unfoldable pub read_prefix : Action
read_prefix = tx_two 0x55 0xAA &&& tx_two 0x00 0x00 &&& tx_two 0x00 0x00 &&& tx_two 0x00 0x00

-- The transition to a mapping: four transactions, a wait, and four more.
unfoldable pub mapping_transition : ℕ → ℕ → ℕ → Action
mapping_transition mode high last =
    tx_two 0x55 0xAA
    &&& tx_two mode 0x00
    &&& tx_two 0x00 high
    &&& tx_two last 0x00
    &&& wait 125000
    &&& tx_two 0xAA 0x55
    &&& tx_two 0x00 0x00
    &&& tx_two 0x00 0x00
    &&& tx_two 0x00 0x00

-- The three transactions behind it.
unfoldable pub selector_tail : Action
selector_tail = tx_one 0x00 0xAA &&& tx_one 0x00 0x55 &&& tx_one 0x01 0x06

-- The guard on the image's size.
abbrev pub of_exact_size : List ℕ → ℕ → Action → Result VerifyError Action
of_exact_size image size act = if length image != size then err wrong_size else ok act

abbrev pub first_window_action : List ℕ → Result VerifyError ℕ → Result VerifyError Action
first_window_action image (err e) = err e
first_window_action image (ok verify_size) =
    ok (status_sequence &&& verify_linear image verify_size true)

-- `VerificationSession::verifyPartialFirstWindow`
unfoldable pub verify_partial_first_window : List ℕ → Result VerifyError Action
verify_partial_first_window image =
    first_window_action image (partial_first_window_extent (length image))

-- `VerificationSession::verifyExact8MiB`
unfoldable pub verify_exact_8_mib : List ℕ → Result VerifyError Action
verify_exact_8_mib image = of_exact_size image first_window_size (
    status_sequence
    &&& mapping_transition 0x02 0x40 0x00
    &&& status_sequence
    &&& read_prefix
    &&& verify_linear image (length image) true)

-- `VerificationSession::verifyExact16MiB`
unfoldable pub verify_exact_16_mib : List ℕ → Result VerifyError Action
verify_exact_16_mib image = of_exact_size image two_window_size (
    status_tail
    &&& mapping_transition 0x02 0x80 0x00
    &&& selector_tail
    &&& status_tail
    &&& read_prefix
    &&& verify_linear image (length image) true)

-- `VerificationSession::verifyPartial12MiB`
unfoldable pub verify_partial_12_mib : List ℕ → Result VerifyError Action
verify_partial_12_mib image =
    of_exact_size image 0xC00000
      (status_tail &&& read_prefix &&& verify_linear image (length image) true)

abbrev pub tiny_tail_action : List ℕ → Result VerifyError ℕ → Result VerifyError Action
tiny_tail_action image (err e) = err e
tiny_tail_action image (ok verify_size) =
    ok (status_tail &&& read_prefix &&& verify_linear image verify_size false)

-- `VerificationSession::verifyTinyTailAbove16MiB`
unfoldable pub verify_tiny_tail_above_16_mib : List ℕ → Result VerifyError Action
verify_tiny_tail_above_16_mib image =
    tiny_tail_action image (tiny_tail_above_16_mib_extent (length image))

-- `VerificationSession::verifyExact24MiB`
unfoldable pub verify_exact_24_mib : List ℕ → Result VerifyError Action
verify_exact_24_mib image = of_exact_size image 0x1800000 (
    status_tail
    &&& mapping_transition 0x02 0xC0 0x00
    &&& selector_tail
    &&& status_tail
    &&& read_prefix
    &&& verify_linear image (length image) true)

-- `VerificationSession::verifyPartial20MiB`
unfoldable pub verify_partial_20_mib : List ℕ → Result VerifyError Action
verify_partial_20_mib image =
    of_exact_size image 0x1400000
      (status_tail &&& read_prefix &&& verify_linear image (length image) true)

-- `VerificationSession::verifyExact32MiB`
unfoldable pub verify_exact_32_mib : List ℕ → Result VerifyError Action
verify_exact_32_mib image = of_exact_size image 0x2000000 (
    status_tail
    &&& mapping_transition 0x00 0x00 0x02
    &&& selector_tail
    &&& status_tail
    &&& read_prefix
    &&& verify_linear image (length image) true)

-- `VerificationSession::verifyPartial28MiB`
unfoldable pub verify_partial_28_mib : List ℕ → Result VerifyError Action
verify_partial_28_mib image =
    of_exact_size image 0x1C00000
      (status_tail &&& read_prefix &&& verify_linear image (length image) true)

-- `LibusbWriterBackend::verify`
unfoldable pub backend_verify : VerificationMode → List ℕ → Result VerifyError Action
backend_verify partial_first_window image = verify_partial_first_window image
backend_verify exact_8_mib image = verify_exact_8_mib image
backend_verify partial_12_mib image = verify_partial_12_mib image
backend_verify exact_16_mib image = verify_exact_16_mib image
backend_verify tiny_tail_above_16_mib image = verify_tiny_tail_above_16_mib image
backend_verify partial_20_mib image = verify_partial_20_mib image
backend_verify exact_24_mib image = verify_exact_24_mib image
backend_verify partial_28_mib image = verify_partial_28_mib image
backend_verify exact_32_mib image = verify_exact_32_mib image
backend_verify unsupported_partial_higher_window image = ok (λ w. (false, w))
