-- ===== src/CardWriter.antt =====
-- The order of a cartridge write: src/card_writer.cpp and src/verification_policy.cpp. The abstract
-- class WriterBackend is the list of the answers that its methods will give, one to a call; the
-- log holds the calls. The report's text is left out.
pub mod Runs
pub mod Order
pub mod Success
use ezfadvance_iii.Prelude.{
  ℕ, ◌+◌, Bool, true, false, ◌&&◌, List, [], ◌∷◌, ◌++◌, ltb, leb, ◌==◌, if◌then◌else◌, length,
}

-- `VerificationMode`
pub data VerificationMode : Type 0 where
  partial_first_window : VerificationMode
  exact_8_mib : VerificationMode
  partial_12_mib : VerificationMode
  exact_16_mib : VerificationMode
  tiny_tail_above_16_mib : VerificationMode
  partial_20_mib : VerificationMode
  exact_24_mib : VerificationMode
  partial_28_mib : VerificationMode
  exact_32_mib : VerificationMode
  unsupported_partial_higher_window : VerificationMode

-- `VerificationPolicy::modeFor`
unfoldable pub mode_for : ℕ → VerificationMode
mode_for size =
    if size == 0x2000000
    then exact_32_mib
    else if size == 0x1C00000
    then partial_28_mib
    else if size == 0x1800000
    then exact_24_mib
    else if size == 0x1400000
    then partial_20_mib
    else if size == 0x1000000
    then exact_16_mib
    else if size == 0xC00000
    then partial_12_mib
    else if size == 0x800000
    then exact_8_mib
    else if ltb size 0x800000
    then partial_first_window
    else if ltb 0x1000000 size && leb size (0x1000000 + 0x10000)
    then tiny_tail_above_16_mib
    else unsupported_partial_higher_window

-- The methods of `WriterBackend`.
pub data Call : Type 0 where
  preflight : Call
  initialize_bridge : Call
  prepare_global_write : Call
  clear_save_banks : Call
  select_window_zero_for_erase : Call
  erase : ℕ → Call
  finalize_flash_state : Call
  select_window_zero_for_program : Call
  program : List ℕ → Call
  verify : VerificationMode → List ℕ → Call

pub record Backend : Type 0 where
  pub answers : List Bool
  pub calls : List Call

-- A call; a backend without an answer left gives false.
abbrev pub call_answer : Call → List Call → List Bool → Bool × Backend
call_answer c calls [] = (false, record { answers = []; calls = calls ++ (c ∷ []) })
call_answer c calls (answer ∷ answers) =
    (answer, record { answers = answers; calls = calls ++ (c ∷ []) })

abbrev pub call : Call → Backend → Bool × Backend
call c b = call_answer c b.calls b.answers

-- `if (ok) ok = backend_.c()`
abbrev pub step : Call → Bool × Backend → Bool × Backend
step c (true, b) = call c b
step c (false, b) = (false, b)

-- `CardWriteStatus`
pub data CardWriteStatus : Type 0 where
  success : CardWriteStatus
  preflight_failed : CardWriteStatus
  operation_failed : CardWriteStatus

-- `CardWriteResult`
pub record CardWriteResult : Type 0 where
  pub status : CardWriteStatus
  pub verification_completed : Bool
  pub verification_skipped_by_user : Bool
  pub verification_skipped_unproven : Bool

abbrev pub new_result : CardWriteResult
new_result = record {
  status = operation_failed;
  verification_completed = false;
  verification_skipped_by_user = false;
  verification_skipped_unproven = false;
}

unfoldable pub unsupported : VerificationMode → Bool
unsupported unsupported_partial_higher_window = true
unsupported mode = false

-- The stage between `program` and the final clear.
verified : List ℕ → Bool → Bool × Backend → (Bool × Backend) × CardWriteResult
unfolding unsupported
verified image skip_verification (false, b) = ((false, b), new_result)
verified image true (true, b) =
    let (ok, b') = call finalize_flash_state b in
    ((ok, b'), record new_result { verification_skipped_by_user = ok })
verified image false (true, b) =
    if unsupported (mode_for (length image))
    then (let (ok, b') = call finalize_flash_state b in
        ((ok, b'), record new_result { verification_skipped_unproven = ok }))
    else (let (ok, b') = call (verify (mode_for (length image)) image) b in
        ((ok, b'), record new_result { verification_completed = ok }))

abbrev with_status : Bool → CardWriteResult → CardWriteResult
with_status ok result = record result { status = if ok then success else operation_failed }

-- The final clear of the save banks, and the result.
cleared : Bool → (Bool × Backend) × CardWriteResult → CardWriteResult × Backend
cleared false ((ok, b), result) = (with_status ok result, b)
cleared true ((ok, b), result) =
    let (clear_ok, b') = call clear_save_banks b in (with_status (ok && clear_ok) result, b')

programmed : List ℕ → Bool × Backend → Bool × Backend
programmed image primed = step (program image) (
    step select_window_zero_for_program (
      step finalize_flash_state
        (step (erase (length image)) (step select_window_zero_for_erase primed))))

write_after_preflight : List ℕ → Bool → Bool × Backend → CardWriteResult × Backend
unfolding cleared verified programmed
write_after_preflight image skip_verification (false, b) =
    (record new_result { status = preflight_failed }, b)
write_after_preflight image skip_verification (true, b) =
    let primed = step prepare_global_write (call initialize_bridge b) in
    cleared primed.0 (verified image skip_verification (programmed image primed))

-- `CardWriter::write`
unfoldable pub card_write : List ℕ → Bool → Backend → CardWriteResult × Backend
unfolding write_after_preflight
card_write image skip_verification b =
    write_after_preflight image skip_verification (call preflight b)
