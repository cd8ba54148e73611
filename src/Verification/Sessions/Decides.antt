-- ===== src/Verification/Sessions/Decides.antt =====
-- What every way of src/verification_session.cpp, and LibusbWriterBackend::verify of
-- src/libusb_writer_backend.cpp, decides.
use ezfadvance_iii.Prelude.{
  ℕ, ◌+◌, ◌-◌, ◌*◌, ◌/◌, ◌%◌, ◌≤◌, ◌<◌, ◌≡◌, ◌≢◌, ◌↔◌, ◌∙◌, refl, ap, Bool, true, false, List, [],
  map, ◌++◌, ◌==◌, ◌!=◌, ltb, leb, ◌||◌, if◌then◌else◌, length, inl, inr, Bool-cases, arith,
}
use ezfadvance_iii.Prelude.Bits.{bit_and-mask}
use ezfadvance_iii.Prelude.Result.{ok, err}
use ezfadvance_iii.Usb.{Action, Answer, Event, ◌&&&◌}
use ezfadvance_iii.Usb.Traces.{Step, event_of, Fulfils, Performs}
use ezfadvance_iii.Protocol.{default_options}
use ezfadvance_iii.Protocol.Scripts.{tx92_two-Performs}
use ezfadvance_iii.CardWriter.{
  VerificationMode, partial_first_window, exact_8_mib, partial_12_mib, exact_16_mib,
  tiny_tail_above_16_mib, partial_20_mib, exact_24_mib, partial_28_mib, exact_32_mib,
  unsupported_partial_higher_window, mode_for,
}
use ezfadvance_iii.Verification.{
  wrong_size, block_size, partial_first_window_extent, tiny_tail_above_16_mib_extent,
  rounded_to_block, verify_linear,
}
use ezfadvance_iii.Verification.Sessions.{
  status_sequence, status_tail, read_prefix, mapping_transition, selector_tail, backend_verify,
  verify_partial_first_window, verify_exact_8_mib, verify_exact_16_mib, verify_partial_12_mib,
  verify_tiny_tail_above_16_mib, verify_exact_24_mib, verify_partial_20_mib, verify_exact_32_mib,
  verify_partial_28_mib, of_exact_size,
}
use ezfadvance_iii.Verification.Commands.{read_events}
use ezfadvance_iii.Verification.Contents.{Agrees, served, verify_linear_iff}
use ezfadvance_iii.Verification.Sessions.Scripts.{
  two_bytes, status_script, prefix_script, transition_script, selector_script, status_tail-Performs,
  read_prefix-Performs, mapping_transition-Performs, selector_tail-Performs, Leads, Leads-last,
  Leads-next,
}

-- What a way sends before its reads.
abbrev pub script_of : VerificationMode → List Step
script_of partial_first_window = two_bytes 0xFF 0xFF
script_of exact_8_mib =
    two_bytes 0xFF 0xFF
    ++ (transition_script 0x02 0x40 0x00 ++ (two_bytes 0xFF 0xFF ++ prefix_script))
script_of exact_16_mib =
    status_script
    ++ (transition_script 0x02 0x80 0x00 ++ (selector_script ++ (status_script ++ prefix_script)))
script_of exact_24_mib =
    status_script
    ++ (transition_script 0x02 0xC0 0x00 ++ (selector_script ++ (status_script ++ prefix_script)))
script_of exact_32_mib =
    status_script
    ++ (transition_script 0x00 0x00 0x02 ++ (selector_script ++ (status_script ++ prefix_script)))
script_of partial_12_mib = status_script ++ prefix_script
script_of partial_20_mib = status_script ++ prefix_script
script_of partial_28_mib = status_script ++ prefix_script
script_of tiny_tail_above_16_mib = status_script ++ prefix_script
script_of unsupported_partial_higher_window = []

-- Whether a way wants 0xFF behind the image.
abbrev pub strict_of : VerificationMode → Bool
strict_of tiny_tail_above_16_mib = false
strict_of mode = true

-- The size rounded up to a block.
abbrev pub extent_of : ℕ → ℕ
extent_of size = (size + 0xFFFF) / 0x10000 * 0x10000

rounded_to_block_lem : (size : ℕ) → size ≤ 0x2000000 → rounded_to_block size ≡ extent_of size
rounded_to_block_lem size h =
    omega (arith, bit_and-mask 48 16 (size + block_size - 1) (omega arith))

status_sequence-Performs : Performs status_sequence (two_bytes 0xFF 0xFF)
unfolding status_sequence
status_sequence-Performs = tx92_two-Performs default_options 0xFF 0xFF

-- The policy supports no image above 32 MiB.
mode_for_small : (size : ℕ) → mode_for size ≢ unsupported_partial_higher_window → size ≤ 0x2000000
unfolding mode_for
mode_for_small size h = elim (Bool-cases (leb size 0x2000000)) [
  | inl e ↦ ground arith
  | inr e ↦
      let large : mode_for size ≡ unsupported_partial_higher_window = ground arith in
      absurd (h large)
]

module _ (image : List ℕ) where
  abbrev reads : Bool → Action
  reads strict = verify_linear image (extent_of (length image)) strict

  -- The way does not throw, and behind its script it is the linear verification.
  abbrev LeadsTo : VerificationMode → Type 0
  LeadsTo mode =
      (act : Action) × (backend_verify mode image ≡ ok act)
      × Leads act (script_of mode) (reads (strict_of mode))

  -- A way for one size.
  LeadsTo-exact :
      (size : ℕ) (mode : VerificationMode) (act : Action → Action)
      → length image ≡ size
      → size % 0x10000 ≡ 0
      → backend_verify mode image
        ≡ of_exact_size image size (act (verify_linear image (length image) true))
      → ((rest : Action) → Leads (act rest) (script_of mode) rest)
      → strict_of mode ≡ true
      → LeadsTo mode
  LeadsTo-exact size mode act e whole h f s =
      let same : length image ≡ extent_of (length image) = omega arith in
      let test : (length image != size) ≡ false = ground arith in
      let h' : backend_verify mode image ≡ ok (act (verify_linear image (length image) true)) =
        h
        ∙ ap (λ b. if b then err wrong_size else ok (act (verify_linear image (length image) true)))
            test in
      (
        act (reads true),
        h' ∙ ap (λ n. ok (act (verify_linear image n true))) same,
        rw s (f (reads true)),
      )

  short-Leads :
      (rest : Action)
      → Leads (status_tail &&& read_prefix &&& rest) (status_script ++ prefix_script) rest
  short-Leads rest = Leads-next status_tail-Performs (Leads-last rest read_prefix-Performs)

  long-Leads :
      (mode high last : ℕ) (rest : Action)
      → Leads
          (status_tail
            &&& mapping_transition mode high last
            &&& selector_tail
            &&& status_tail
            &&& read_prefix
            &&& rest)
          (status_script
            ++ (transition_script mode high last
                ++ (selector_script ++ (status_script ++ prefix_script))))
          rest
  long-Leads mode high last rest = Leads-next status_tail-Performs (
      Leads-next (mapping_transition-Performs mode high last)
        (Leads-next selector_tail-Performs (short-Leads rest)))

  abbrev long : ℕ → ℕ → ℕ → Action → Action
  long mode high last rest =
      status_tail
      &&& mapping_transition mode high last
      &&& selector_tail
      &&& status_tail
      &&& read_prefix
      &&& rest

  LeadsTo-size :
      (mode : VerificationMode)
      → mode_for (length image) ≡ mode
      → 0 < length image
      → mode ≢ unsupported_partial_higher_window
      → LeadsTo mode
  unfolding mode_for backend_verify verify_partial_12_mib verify_partial_20_mib
      verify_partial_28_mib verify_exact_8_mib verify_exact_16_mib verify_exact_24_mib
      verify_exact_32_mib verify_partial_first_window verify_tiny_tail_above_16_mib
      partial_first_window_extent tiny_tail_above_16_mib_extent
  LeadsTo-size partial_first_window h some_bytes ok_mode =
      let small : length image < 0x800000 = ground arith in
      let test : ((length image == 0) || leb 0x800000 (length image)) ≡ false = ground arith in
      (
        status_sequence &&& reads true,
        rw (test, rounded_to_block_lem (length image) (omega arith)) refl,
        Leads-last (reads true) status_sequence-Performs,
      )
  LeadsTo-size exact_8_mib h some_bytes ok_mode =
      LeadsTo-exact 0x800000 exact_8_mib
        (λ rest.
          status_sequence
          &&& mapping_transition 0x02 0x40 0x00
          &&& status_sequence
          &&& read_prefix
          &&& rest)
        (ground arith) refl refl
        (λ rest. Leads-next status_sequence-Performs (
          Leads-next (mapping_transition-Performs 0x02 0x40 0x00)
            (Leads-next status_sequence-Performs (Leads-last rest read_prefix-Performs))))
        refl
  LeadsTo-size partial_12_mib h some_bytes ok_mode =
      LeadsTo-exact 0xC00000 partial_12_mib (λ rest. status_tail &&& read_prefix &&& rest)
        (ground arith) refl refl short-Leads refl
  LeadsTo-size exact_16_mib h some_bytes ok_mode =
      LeadsTo-exact 0x1000000 exact_16_mib (long 0x02 0x80 0x00) (ground arith) refl refl
        (long-Leads 0x02 0x80 0x00) refl
  LeadsTo-size tiny_tail_above_16_mib h some_bytes ok_mode =
      let inside : (0x1000000 < length image) × (length image ≤ 0x1010000) = ground arith in
      let test : (leb (length image) 0x1000000 || ltb 0x1010000 (length image)) ≡ false =
        ground arith in
      (
        status_tail &&& read_prefix &&& reads false,
        rw (test, rounded_to_block_lem (length image) (omega (arith, inside))) refl,
        short-Leads (reads false),
      )
  LeadsTo-size partial_20_mib h some_bytes ok_mode =
      LeadsTo-exact 0x1400000 partial_20_mib (λ rest. status_tail &&& read_prefix &&& rest)
        (ground arith) refl refl short-Leads refl
  LeadsTo-size exact_24_mib h some_bytes ok_mode =
      LeadsTo-exact 0x1800000 exact_24_mib (long 0x02 0xC0 0x00) (ground arith) refl refl
        (long-Leads 0x02 0xC0 0x00) refl
  LeadsTo-size partial_28_mib h some_bytes ok_mode =
      LeadsTo-exact 0x1C00000 partial_28_mib (λ rest. status_tail &&& read_prefix &&& rest)
        (ground arith) refl refl short-Leads refl
  LeadsTo-size exact_32_mib h some_bytes ok_mode =
      LeadsTo-exact 0x2000000 exact_32_mib (long 0x00 0x00 0x02) (ground arith) refl refl
        (long-Leads 0x00 0x00 0x02) refl
  LeadsTo-size unsupported_partial_higher_window h some_bytes ok_mode = absurd (ok_mode refl)

-- For a nonempty image of a size that the policy supports, the backend's verification throws
-- nothing. Let the device answer the way's script, and then serve its memory block by block. Then
-- the verification succeeds exactly when the memory holds every byte of the image, and, but for the
-- tiny tail above 16 MiB, 0xFF behind it up to the next multiple of 64 KiB; and it has then done the
-- script and read each block at the block's own address, in order, and nothing else.
pub backend_verify_iff :
    (image memory : List ℕ) (answers : List Answer) (log : List Event)
    → 0 < length image
    → mode_for (length image) ≢ unsupported_partial_higher_window
    → extent_of (length image) ≤ length memory
    → Fulfils
        (script_of (mode_for (length image)))
        answers
        (served memory (extent_of (length image)) (extent_of (length image) / block_size + 1) 0)
    → (act : Action) × (backend_verify (mode_for (length image)) image ≡ ok act)
      × (((act (record { answers = answers; log = log })).0 ≡ true)
          ↔ Agrees image memory (strict_of (mode_for (length image))) 0 (extent_of (length image)))
      × ((act (record { answers = answers; log = log }) ≡ (
        true,
        record {
          answers = [];
          log =
              (log ++ map event_of (script_of (mode_for (length image))))
              ++ read_events
                  (extent_of (length image))
                  (extent_of (length image) / block_size + 1)
                  0;
        },
      ))
          ↔ Agrees image memory (strict_of (mode_for (length image))) 0 (extent_of (length image)))
backend_verify_iff image memory answers log some_bytes supported room fulfils =
    let mode = mode_for (length image) in
    let (act, throws_not, led) = LeadsTo-size image mode refl some_bytes supported in
    let served_ =
      served memory (extent_of (length image)) (extent_of (length image) / block_size + 1) 0 in
    let e = led.leads answers served_ log fulfils in
    let small = mode_for_small (length image) supported in
    let (decided, logged) =
      verify_linear_iff image memory (extent_of (length image)) (strict_of mode)
        (log ++ map event_of (script_of mode)) (omega arith) room in
    (act, throws_not, rw e decided, rw e logged)
