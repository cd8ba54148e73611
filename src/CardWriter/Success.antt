-- ===== src/CardWriter/Success.antt =====
-- A card write whose backend calls all give true.
use ezfadvance_iii.Prelude.{
  ℕ, ◌≡◌, inl, inr, refl, Bool, true, false, ◌&&◌, not, List, ◌++◌, length, replicate, Bool-cases,
}
use mathlib.Core.List.{append_assoc}
use ezfadvance_iii.CardWriter.{
  mode_for, unsupported, Call, success, CardWriteResult, verified, cleared, programmed,
  write_after_preflight, card_write,
}
use ezfadvance_iii.CardWriter.Order.{calls_made}

-- What the flags of a write that succeeds are.
abbrev pub success_result : List ℕ → Bool → CardWriteResult
success_result image skip_verification =
    let skipped = unsupported (mode_for (length image)) in
    record {
      status = success;
      verification_completed = not skip_verification && not skipped;
      verification_skipped_by_user = skip_verification;
      verification_skipped_unproven = not skip_verification && skipped;
    }

-- Where all ten calls give true the write succeeds, the calls are the whole plan and the clear, and
-- exactly one flag is set: verified, skipped by the user, or skipped for want of a read mapping.
pub card_write-success :
    (image : List ℕ) (skip_verification : Bool) (answers : List Bool) (calls : List Call)
    → card_write image skip_verification
        (record { answers = replicate 10 true ++ answers; calls = calls })
      ≡ (
        success_result image skip_verification,
        record { answers = answers; calls = calls ++ calls_made 9 image skip_verification },
      )
unfolding card_write write_after_preflight cleared verified programmed
card_write-success image true answers calls =
    rw
      (
        append_assoc, append_assoc, append_assoc, append_assoc, append_assoc, append_assoc,
        append_assoc, append_assoc, append_assoc,
      )
      refl
card_write-success image false answers calls =
    elim (Bool-cases (unsupported (mode_for (length image)))) [
      | inl yes_ ↦
          rw
            (
              yes_, append_assoc, append_assoc, append_assoc, append_assoc, append_assoc,
              append_assoc, append_assoc, append_assoc, append_assoc,
            )
            refl
      | inr no_ ↦
          rw
            (
              no_, append_assoc, append_assoc, append_assoc, append_assoc, append_assoc,
              append_assoc, append_assoc, append_assoc, append_assoc,
            )
            refl
    ]
