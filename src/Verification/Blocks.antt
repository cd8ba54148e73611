-- ===== src/Verification/Blocks.antt =====
-- What the linear verification of src/verification_session.cpp reads and compares.
use ezfadvance_iii.Prelude.Text.{same_text}
use ezfadvance_iii.Prelude.{
  ℕ, zero, suc, ◌+◌, ◌-◌, ◌/◌, ◌%◌, ◌^◌, ◌≤◌, ◌≡◌, ◌⊎◌, inl, inr, refl, sym, ◌∙◌, ap, true, false,
  Option, none, some, List, [], ◌∷◌, ltb, leb, ◌==◌, if◌then◌else◌, length, min, Bool-cases, arith,
}
use mathlib.Core.Path.{subst}
use ezfadvance_iii.Prelude.Result.{ok}
use ezfadvance_iii.Usb.{in_max, in_exact, of_size, compared, read_and_compare}
use ezfadvance_iii.Usb.Traces.{Step, put, expect, Performs, &&&-Performs, Performs-done}
use ezfadvance_iii.Usb.Transfers.{bulk_out-Performs, reading-Performs}
use ezfadvance_iii.Verification.{
  block_size, usb_timeout_ms, read_bytes, read_command, expected_byte, compare_block, matches,
  read_block, verify_loop, verify_linear,
}

-- The image's bytes from `offset` on, with 0xFF behind the image.
abbrev pub padded : List ℕ → ℕ → ℕ → List ℕ
padded image offset zero = []
padded image offset (suc count) = expected_byte image offset ∷ padded image (offset + 1) count

compare_block-same_text :
    (image : List ℕ) (got : List ℕ) (offset count : ℕ)
    → (if length got == count then compare_block image offset got true else false)
      ≡ same_text got (padded image offset count)
unfolding compare_block
compare_block-same_text image [] offset zero = refl
compare_block-same_text image [] offset (suc count) = ground arith
compare_block-same_text image (b ∷ got) offset zero = ground arith
compare_block-same_text image (b ∷ got) offset (suc count) =
    ground (arith, compare_block-same_text image got (offset + 1) count)

matches-compared :
    (image : List ℕ) (offset count : ℕ) (o : Option (List ℕ))
    → matches image offset true (of_size count o) ≡ compared (padded image offset count) o
matches-compared image offset count none = refl
matches-compared image offset count (some got) = elim (Bool-cases (length got == count)) [
  | inl e ↦ rw e (
      ap (λ x. if x then compare_block image offset got true else false) (sym e)
      ∙ compare_block-same_text image got offset count)
  | inr e ↦ rw e (
      ap (λ x. if x then compare_block image offset got true else false) (sym e)
      ∙ compare_block-same_text image got offset count)
]

-- With the padding wanted a block is read as the expected bytes.
read_block-Performs :
    (image : List ℕ) (offset count : ℕ)
    → Performs
        (read_block image offset count true)
        (expect usb_timeout_ms count (padded image offset count) ∷ [])
unfolding in_exact
read_block-Performs image offset count =
    let same : read_and_compare usb_timeout_ms count (padded image offset count)
        ≡ read_block image offset count true =
      λ i w. (
        sym (matches-compared image offset count (in_max count usb_timeout_ms w).0) i,
        (in_max count usb_timeout_ms w).1,
      ) in
    subst (λ act. Performs act (expect usb_timeout_ms count (padded image offset count) ∷ [])) same
      (reading-Performs usb_timeout_ms count (padded image offset count))

pub read_command-ok :
    (offset count : ℕ)
    → offset % 2 ≡ 0
    → offset ≤ 2 ^ 32
    → count ≤ block_size
    → read_command offset count ≡ ok (read_bytes (offset / 2) count)
unfolding read_command
read_command-ok offset count even small block = ground arith

-- The commands and the expected answers of a linear verification.
abbrev pub linear_script : List ℕ → ℕ → ℕ → ℕ → List Step
linear_script image verify_size zero offset = []
linear_script image verify_size (suc rounds) offset =
    let count = min block_size (verify_size - offset) in
    let rest = linear_script image verify_size rounds (offset + count) in
    if ltb offset verify_size
    then (put usb_timeout_ms (read_bytes (offset / 2) count)
        ∷ expect usb_timeout_ms count (padded image offset count)
        ∷ rest)
    else []

-- An offset of the loop: a multiple of the block size, or the end.
abbrev pub LoopOffset : ℕ → ℕ → Type 0
LoopOffset verify_size offset = (offset % block_size ≡ 0) ⊎ (verify_size ≤ offset)

pub LoopOffset-next :
    (verify_size offset : ℕ)
    → LoopOffset verify_size offset
    → LoopOffset verify_size (offset + min block_size (verify_size - offset))
LoopOffset-next verify_size offset at =
    let count = min block_size (verify_size - offset) in
    elim (Bool-cases (leb verify_size (offset + count))) [
      | inl e ↦ inr (ground arith)
      | inr e ↦ inl (ground arith)
    ]

verify_loop-Performs :
    (image : List ℕ) (verify_size rounds offset : ℕ)
    → verify_size ≤ 2 ^ 32
    → LoopOffset verify_size offset
    → Performs
        (verify_loop image verify_size true rounds offset)
        (linear_script image verify_size rounds offset)
unfolding verify_loop
verify_loop-Performs image verify_size zero offset small at = Performs-done
verify_loop-Performs image verify_size (suc rounds) offset small at =
    let count = min block_size (verify_size - offset) in
    let next = LoopOffset-next verify_size offset at in
    elim (Bool-cases (ltb offset verify_size)) [
      | inl e ↦
          let command = read_command-ok offset count (ground arith) (ground arith) (omega arith) in
          rw (e, command)
            (&&&-Performs (bulk_out-Performs (read_bytes (offset / 2) count) usb_timeout_ms) (
              &&&-Performs (read_block-Performs image offset count)
                (verify_loop-Performs image verify_size rounds (offset + count) small next)))
      | inr e ↦ rw e Performs-done
    ]

pub verify_linear-Performs :
    (image : List ℕ) (verify_size : ℕ)
    → verify_size ≤ 2 ^ 32
    → Performs
        (verify_linear image verify_size true)
        (linear_script image verify_size (verify_size / block_size + 1) 0)
unfolding verify_linear
verify_linear-Performs image verify_size small =
    verify_loop-Performs image verify_size (verify_size / block_size + 1) 0 small (inl refl)
