-- ===== src/CardWipe/Execute.antt =====
-- The whole wipe of src/card_wipe_workflow.cpp.
use ezfadvance_iii.Prelude.{
  ℕ, ◌<◌, ◌≡◌, ◌↔◌, refl, sym, ap, ◌∙◌, true, ◌&&◌, List, [], ◌∷◌, ◌++◌, map, ◌==◌, length, get_or,
  arith, inl, inr,
}
use ezfadvance_iii.Usb.{World}
use ezfadvance_iii.Usb.Traces.{Step, put, expect, event_of, Fulfils, Performs, &&&-Performs}
use ezfadvance_iii.Usb.Transfers.{bulk_out-Performs, reading-Performs}
use ezfadvance_iii.SaveMemory.{clear_all}
use ezfadvance_iii.SaveMemory.Scripts.{clear_script, clear_range-Performs}
use ezfadvance_iii.CardWipe.{
  wipe_timeout_ms, command97, command99, cartridge_ready_preflight, execute,
}
use ezfadvance_iii.Usb.Choice.{PerformsSome, after-PerformsSome, PerformsSome-then}
use ezfadvance_iii.CardWipe.Polls.{ready_script, polls_sound, polls_complete}
use ezfadvance_iii.CardWipe.Transfers.{Accepts, checking-Performs}
use ezfadvance_iii.CardWipe.Erase.{
  erase_bank_script, erase_bank-Performs, blank_script, verify_blank-Performs, cleanup_script,
  final_cleanup-Performs,
}

-- What the preflight sends and expects, with `k` polls that read 0.
abbrev pub preflight_script : ℕ → List Step
preflight_script k =
    put wipe_timeout_ms command97
    ∷ expect wipe_timeout_ms 1 (0 ∷ [])
    ∷ (ready_script k ++ (put wipe_timeout_ms command99 ∷ expect wipe_timeout_ms 13 command99 ∷ []))

reset_Accepts : Accepts (λ response. (length response == 1) && (get_or response 0 0 == 0)) (0 ∷ [])
reset_Accepts = record { only = only; these = refl }
  where
    only :
        (response : List ℕ)
        → ((length response == 1) && (get_or response 0 0 == 0)) ≡ true
        → response ≡ 0 ∷ []
    only [] h = absurd (let k = h in cc)
    only (x ∷ []) h = let z : x ≡ 0 = ground arith in rw z refl
    only (x ∷ y ∷ response) h = absurd (ground arith)

preflight-PerformsSome : PerformsSome cartridge_ready_preflight 5 preflight_script
unfolding cartridge_ready_preflight
preflight-PerformsSome = after-PerformsSome (bulk_out-Performs command97 wipe_timeout_ms) (
    after-PerformsSome (checking-Performs 1 wipe_timeout_ms _ (0 ∷ []) reset_Accepts) (
      PerformsSome-then
        (record {
          sound = polls_sound 5;
          complete = λ k w rest small e. polls_complete 5 k w rest small e;
        })
        (&&&-Performs (bulk_out-Performs command99 wipe_timeout_ms)
          (reading-Performs wipe_timeout_ms 13 command99))))

-- The whole wipe behind the preflight.
abbrev pub wipe_script : List Step
wipe_script =
    erase_bank_script 0
    ++ (erase_bank_script 1
        ++ (erase_bank_script 2
            ++ (erase_bank_script 3
                ++ (clear_script 4 0x0900 ++ (cleanup_script ++ blank_script)))))

clear_all-Performs : Performs clear_all (clear_script 4 0x0900)
unfolding clear_all
clear_all-Performs = elim (clear_range-Performs 0x0900 4) [
  | inl (inside, performs) ↦ performs
  | inr (outside, _) ↦ absurd (
      outside (
        record { from_first = omega arith; to_last = omega arith; on_stride = refl },
        omega arith,
        omega arith,
      ))
]

-- The wipe reports success exactly when the device answers the whole script, and then it has done
-- exactly that: the preflight with at most four polls that read 0, the erase of the four banks of
-- 135 sectors in order, the clear of the four save banks, the cleanup, and two blank regions.
pub execute_iff :
    (w w' : World)
    → (execute w ≡ (true, w')) ↔ (
        (k : ℕ) × (k < 5)
        × Fulfils (preflight_script k ++ wipe_script) w.answers w'.answers
        × (w'.log ≡ w.log ++ map event_of (preflight_script k ++ wipe_script)))
unfolding execute
execute_iff w w' =
    let all = PerformsSome-then preflight-PerformsSome (
      &&&-Performs (erase_bank-Performs 0 (omega arith)) (
        &&&-Performs (erase_bank-Performs 1 (omega arith)) (
          &&&-Performs (erase_bank-Performs 2 (omega arith)) (
            &&&-Performs (erase_bank-Performs 3 (omega arith)) (
              &&&-Performs clear_all-Performs
                (&&&-Performs final_cleanup-Performs verify_blank-Performs)))))) in
    (
      λ e. all.sound w w' e,
      λ (k, small, x, l).
          all.complete k w w'.answers small x
          ∙ ap (λ t. (true, record { answers = w'.answers; log = t })) (sym l),
    )
