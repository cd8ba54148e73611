-- ===== src/WriterBackend/Program.antt =====
-- The programming of src/libusb_writer_backend.cpp: make_program_command,
-- program_transaction_single and program_image, and the backend's methods.
use ezfadvance_iii.Prelude.{
  ℕ, zero, suc, ◌+◌, ◌-◌, ◌/◌, ◌%◌, false, ◌&&◌, List, [], ◌∷◌, ltb, ◌==◌, ◌!=◌, if◌then◌else◌,
  length, take, drop, set, min,
}
use ezfadvance_iii.Prelude.Bytes.{u32}
use ezfadvance_iii.Prelude.Result.{Result, ok, err}
use ezfadvance_iii.CartridgeFormat.{write_le32}
use ezfadvance_iii.Usb.{Action, ◌&&&◌, done, bulk_out, wait, read_and_compare}
use ezfadvance_iii.FlashWindow.{writer_timing, select, finish_operation}
use ezfadvance_iii.SaveMemory.{clear_all}
use ezfadvance_iii.WriterBackend.{usb_timeout_ms}
use ezfadvance_iii.WriterBackend.Erase.{flash_window_size}

-- The exception of `make_program_command`.
pub data ProgramError : Type 0 where
  odd_address : ProgramError

abbrev pub program_block : ℕ
program_block = 0x10000

abbrev pub program_bytes : ℕ → ℕ → ℕ → List ℕ
program_bytes word_address length_ final_byte =
    write_le32
      (write_le32 (0x5A ∷ 0xA5 ∷ 0x92 ∷ 0x00 ∷ 0 ∷ 0 ∷ 0 ∷ 0 ∷ 0 ∷ 0 ∷ 0 ∷ 0 ∷ final_byte ∷ []) 4
        word_address)
      8 length_

-- `make_program_command`; `& 1` is the remainder modulo 2.
unfoldable pub make_program_command : ℕ → ℕ → ℕ → Result ProgramError (List ℕ)
make_program_command byte_address length_ final_byte =
    if byte_address % 2 != 0
    then err odd_address
    else ok (program_bytes (byte_address / 2) length_ final_byte)

-- `program_transaction_single` from its command on; an exception is taken for a failure.
abbrev pub with_command : List ℕ → Result ProgramError (List ℕ) → Action
with_command block (err e) = (λ w. (false, w))
with_command block (ok cmd) =
    bulk_out cmd usb_timeout_ms
    &&& wait 750
    &&& bulk_out block usb_timeout_ms
    &&& read_and_compare usb_timeout_ms 64 (set cmd 12 0x00)

-- `program_transaction_single`
unfoldable pub program_transaction_single : ℕ → List ℕ → Action
program_transaction_single byte_address block =
    with_command block (make_program_command byte_address (u32 (length block)) 0x41)

-- The change of the window before a block.
abbrev pub window_change : ℕ → Action → Action
window_change off rest =
    if (off != 0) && (off % flash_window_size == 0)
    then (if ltb 3 (off / flash_window_size)
        then (λ w. (false, w))
        else (finish_operation writer_timing
            &&& select writer_timing (off / flash_window_size)
            &&& rest))
    else rest

-- The loop of `program_image`. A round takes a block, or what is left.
unfoldable pub program_loop : List ℕ → ℕ → ℕ → Action
program_loop image zero off = done
program_loop image (suc rounds) off =
    let n = min program_block (length image - off) in
    let rest = program_loop image rounds (off + n) in
    if ltb off (length image)
    then window_change off (
        program_transaction_single (u32 (off % flash_window_size)) (take n (drop off image))
        &&& rest)
    else done

-- `program_image`
unfoldable pub program_image : List ℕ → Action
program_image image = program_loop image (length image / program_block + 1) 0

-- The other methods of `LibusbWriterBackend`.
unfoldable pub prepare_global_write : Action
prepare_global_write = clear_all

unfoldable pub clear_save_banks : Action
clear_save_banks = clear_all

unfoldable pub select_window_zero_for_erase : Action
select_window_zero_for_erase = select writer_timing 0

unfoldable pub finalize_flash_state : Action
finalize_flash_state = finish_operation writer_timing

unfoldable pub select_window_zero_for_program : Action
select_window_zero_for_program = select writer_timing 0
