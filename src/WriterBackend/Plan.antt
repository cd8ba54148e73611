-- ===== src/WriterBackend/Plan.antt =====
-- The programming of src/libusb_writer_backend.cpp against its plan: the image's blocks in order.
use ezfadvance_iii.Prelude.{
  ℕ, zero, suc, ◌+◌, ◌-◌, ◌*◌, ◌/◌, ◌%◌, ◌≤◌, ◌<◌, ◌≡◌, ◌⊎◌, inl, inr, refl, true, false, ◌&&◌,
  List, [], ◌∷◌, ◌++◌, ltb, leb, ◌==◌, ◌!=◌, if◌then◌else◌, arith, Bool-cases, length, take, drop,
  set, min, length-take, length-drop,
}
use ezfadvance_iii.Prelude.Bytes.{u32}
use ezfadvance_iii.Usb.{Action}
use ezfadvance_iii.Usb.Traces.{Step, put, expect, pause, Performs, &&&-Performs, Performs-done}
use ezfadvance_iii.Usb.Transfers.{bulk_out-Performs, wait-Performs, reading-Performs}
use ezfadvance_iii.WriterBackend.{usb_timeout_ms}
use ezfadvance_iii.WriterBackend.Erase.{flash_window_size, switch_script, switched-Performs}
use ezfadvance_iii.WriterBackend.Program.{
  program_block, program_bytes, make_program_command, program_transaction_single, window_change,
  program_loop, program_image,
}

-- The plan of a programming: each block with its window and its place in the window.
pub record Block : Type 0 where
  pub window : ℕ
  pub local_off : ℕ
  pub bytes : List ℕ

abbrev pub plan_loop : List ℕ → ℕ → ℕ → List Block
plan_loop image zero off = []
plan_loop image (suc rounds) off =
    let n = min program_block (length image - off) in
    let rest = plan_loop image rounds (off + n) in
    if ltb off (length image)
    then (record {
      window = off / flash_window_size;
      local_off = off % flash_window_size;
      bytes = take n (drop off image);
    }
        ∷ rest)
    else []

abbrev pub plan : List ℕ → List Block
plan image = plan_loop image (length image / program_block + 1) 0

-- A block's command with its last byte 0x41, 750 microseconds, its bytes, and the command with its
-- last byte 0 as the answer.
abbrev pub block_script : Block → List Step
block_script b =
    put usb_timeout_ms (program_bytes (b.local_off / 2) (length b.bytes) 0x41)
    ∷ pause 750
    ∷ put usb_timeout_ms b.bytes
    ∷ expect usb_timeout_ms 64 (set (program_bytes (b.local_off / 2) (length b.bytes) 0x41) 12 0x00)
    ∷ []

-- The transfers of a plan, from a window on: a change of the window where a block is in another.
abbrev pub plan_script : ℕ → List Block → List Step
plan_script window [] = []
plan_script window (b ∷ blocks) =
    (if b.window == window then [] else switch_script b.window)
    ++ (block_script b ++ plan_script b.window blocks)

-- The blocks are the image from `off` on, in order, none crosses the end of its window, and each
-- has an even place.
abbrev pub Tiles : List ℕ → ℕ → List Block → Type 0
Tiles image off [] = length image ≤ off
Tiles image off (b ∷ blocks) =
    (b.window * flash_window_size + b.local_off ≡ off)
    × (b.local_off + length b.bytes ≤ flash_window_size)
    × (b.local_off % 2 ≡ 0)
    × (0 < length b.bytes)
    × (length b.bytes ≤ program_block)
    × (b.bytes ≡ take (length b.bytes) (drop off image))
    × Tiles image (off + length b.bytes) blocks

-- An offset of the loop: a multiple of the block size, or the end.
abbrev At : List ℕ → ℕ → Type 0
At image off = (off % program_block ≡ 0) ⊎ (length image ≤ off)

At-next :
    (image : List ℕ) (off : ℕ)
    → At image off
    → At image (off + min program_block (length image - off))
At-next image off at = elim (Bool-cases (leb (length image) (off + program_block))) [
  | inl e ↦ inr (ground arith)
  | inr e ↦ inl (ground arith)
]

length-block :
    (image : List ℕ) (off : ℕ)
    → length (take (min program_block (length image - off)) (drop off image))
      ≡ min program_block (length image - off)
length-block image off = omega (
  arith,
  length-take (min program_block (length image - off)) (drop off image),
  length-drop off image,
)

plan_loop-Tiles :
    (image : List ℕ) (rounds off : ℕ)
    → At image off
    → length image ≤ off + rounds * program_block
    → Tiles image off (plan_loop image rounds off)
plan_loop-Tiles image zero off at enough = omega arith
plan_loop-Tiles image (suc rounds) off at enough =
    let n = min program_block (length image - off) in
    let long = length-block image off in
    elim (Bool-cases (ltb off (length image))) [
      | inr e ↦ rw e (ground arith)
      | inl e ↦
          let whole : off % program_block ≡ 0 = ground arith in
          let some_bytes : 0 < n = ground arith in
          rw (e, long)
            (
              omega arith,
              omega arith,
              omega arith,
              some_bytes,
              omega arith,
              refl,
              plan_loop-Tiles image rounds (off + n) (At-next image off at) (omega arith),
            )
    ]

-- The plan tiles the image.
pub plan-Tiles : (image : List ℕ) → Tiles image 0 (plan image)
plan-Tiles image =
    plan_loop-Tiles image (length image / program_block + 1) 0 (inl refl) (omega arith)

-- The window that is selected before the block at `off`.
abbrev Selected : ℕ → ℕ → Type 0
Selected off window =
    ((off ≡ 0) × (window ≡ 0)) ⊎ ((0 < off) × (window ≡ (off - 1) / flash_window_size))

window_change-Performs :
    (off window : ℕ) {rest : Action} {t : List Step}
    → Selected off window
    → off % program_block ≡ 0
    → off < 0x2000000
    → Performs rest t
    → Performs (window_change off rest) (
        (if off / flash_window_size == window then [] else switch_script (off / flash_window_size))
        ++ t)
window_change-Performs off window {rest} {t} selected whole small p =
    elim (Bool-cases ((off != 0) && (off % flash_window_size == 0))) [
      | inl change ↦
          let other : (off / flash_window_size == window) ≡ false = ground arith in
          let known : ltb 3 (off / flash_window_size) ≡ false = ground arith in
          rw (change, other, known) (switched-Performs (off / flash_window_size) (ground arith) p)
      | inr stay ↦
          let same : (off / flash_window_size == window) ≡ true = ground arith in rw (stay, same) p
    ]

block-Performs :
    (local_off : ℕ) (block : List ℕ)
    → local_off % 2 ≡ 0
    → local_off < 0x800000
    → length block ≤ program_block
    → (window : ℕ)
    → Performs
        (program_transaction_single (u32 local_off) block)
        (block_script (record { window = window; local_off = local_off; bytes = block }))
unfolding program_transaction_single make_program_command
block-Performs local_off block even small short window =
    let place : u32 local_off ≡ local_off = omega arith in
    let size : u32 (length block) ≡ length block = omega arith in
    let test : (local_off % 2 != 0) ≡ false = ground arith in
    let cmd = program_bytes (local_off / 2) (length block) 0x41 in
    rw (place, size, test)
      (&&&-Performs (bulk_out-Performs cmd usb_timeout_ms) (
        &&&-Performs (wait-Performs 750) (
          &&&-Performs (bulk_out-Performs block usb_timeout_ms)
            (reading-Performs usb_timeout_ms 64 (set cmd 12 0x00)))))

program_loop-Performs :
    (image : List ℕ) (rounds off window : ℕ)
    → length image ≤ 0x2000000
    → At image off
    → Selected off window
    → Performs (program_loop image rounds off) (plan_script window (plan_loop image rounds off))
unfolding program_loop
program_loop-Performs image zero off window fits at selected = Performs-done
program_loop-Performs image (suc rounds) off window fits at selected =
    let n = min program_block (length image - off) in
    let long = length-block image off in
    elim (Bool-cases (ltb off (length image))) [
      | inr e ↦ rw e Performs-done
      | inl e ↦
          let whole : off % program_block ≡ 0 = ground arith in
          let some_bytes : 0 < n = ground arith in
          let next : Selected (off + n) (off / flash_window_size) =
            inr (omega arith, omega arith) in
          rw e (
            window_change-Performs off window selected whole (ground arith) (
              &&&-Performs
                (block-Performs (off % flash_window_size) (take n (drop off image)) (omega arith)
                  (omega arith) (omega arith) (off / flash_window_size))
                (program_loop-Performs image rounds (off + n) (off / flash_window_size) fits
                  (At-next image off at) next)))
    ]

-- The programming of an image of at most 32 MiB sends exactly the plan's blocks, and the plan is the
-- image: its blocks are the image's bytes in order, each within one window at an even place and
-- with at most 64 KiB, and a window is finished and the next one selected where the blocks reach
-- it.
pub program_image-Performs :
    (image : List ℕ)
    → length image ≤ 0x2000000
    → Performs (program_image image) (plan_script 0 (plan image)) × Tiles image 0 (plan image)
unfolding program_image
program_image-Performs image fits = (
  program_loop-Performs image (length image / program_block + 1) 0 0 fits (inl refl)
      (inl (refl, refl)),
  plan-Tiles image,
)
