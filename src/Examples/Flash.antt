-- ===== src/Examples/Flash.antt =====
-- Erasing, programming and verifying a card, on concrete inputs.
use ezfadvance_iii.Prelude.{
  ℕ, ◌+◌, ◌%◌, ◌/◌, ◌≤◌, ◌≡◌, ◌≢◌, ◌↔◌, refl, true, map, List, [], ◌∷◌, ◌++◌, length, replicate,
  length-append, length-replicate, arith,
}
use ezfadvance_iii.Prelude.Result.{ok}
use ezfadvance_iii.Usb.{Action, Answer, wrote, received}
use ezfadvance_iii.Usb.Traces.{event_of, Fulfils, Performs}
use ezfadvance_iii.Protocol.{command92_two}
use ezfadvance_iii.CardWriter.{partial_first_window, unsupported_partial_higher_window, mode_for}
use ezfadvance_iii.Verification.{block_size}
use ezfadvance_iii.Verification.Commands.{read_events}
use ezfadvance_iii.Verification.Contents.{Agrees, served}
use ezfadvance_iii.Verification.Sessions.{backend_verify}
use ezfadvance_iii.Verification.Sessions.Decides.{
  script_of, strict_of, extent_of, backend_verify_iff,
}
use ezfadvance_iii.WriterBackend.Erase.{flash_window_size}
use ezfadvance_iii.WriterBackend.Coverage.{ErasedAt, erase_groups-ErasedAt}
use ezfadvance_iii.WriterBackend.Program.{program_image}
use ezfadvance_iii.WriterBackend.Plan.{plan, plan_script, Tiles, program_image-Performs}

abbrev image : List ℕ
image = 1 ∷ 2 ∷ 3 ∷ 4 ∷ []

abbrev memory : List ℕ
memory = image ++ replicate 65532 0xFF

abbrev served_blocks : List Answer
served_blocks = served memory (extent_of 4) (extent_of 4 / block_size + 1) 0

abbrev answers : List Answer
answers = wrote 13 ∷ wrote 2 ∷ received command92_two ∷ served_blocks

mode : mode_for (length image) ≡ partial_first_window
unfolding mode_for
mode = refl

supported : mode_for (length image) ≢ unsupported_partial_higher_window
unfolding mode_for
supported = λ e. ground arith

answers_status : Fulfils (script_of (mode_for (length image))) answers served_blocks
unfolding mode_for
answers_status = (refl, (refl, (refl, refl)))

room : extent_of (length image) ≤ length memory
room =
    omega (arith, length-append image (replicate 65532 0xFF), length-replicate {A = ℕ} 65532 0xFF)

backend_verify_iff_example :
    (act : Action) × (backend_verify (mode_for (length image)) image ≡ ok act)
    × (((act (record { answers = answers; log = [] })).0 ≡ true)
        ↔ Agrees image memory (strict_of (mode_for (length image))) 0 (extent_of (length image)))
    × ((act (record { answers = answers; log = [] }) ≡ (
      true,
      record {
        answers = [];
        log =
            ([] ++ map event_of (script_of (mode_for (length image))))
            ++ read_events (extent_of (length image)) (extent_of (length image) / block_size + 1) 0;
      },
    ))
        ↔ Agrees image memory (strict_of (mode_for (length image))) 0 (extent_of (length image)))
backend_verify_iff_example =
    backend_verify_iff image memory answers [] (omega arith) supported room answers_status

-- The byte 0x123 of the tail behind 16 MiB.
erase_groups-ErasedAt_example :
    ErasedAt 0x1000700 (0x1000123 / flash_window_size) (0x1000123 % flash_window_size)
erase_groups-ErasedAt_example =
    erase_groups-ErasedAt 0x1000700 0x1000123 (omega arith) (omega arith)

program_image-Performs_example :
    Performs (program_image image) (plan_script 0 (plan image)) × Tiles image 0 (plan image)
program_image-Performs_example = program_image-Performs image (omega arith)
