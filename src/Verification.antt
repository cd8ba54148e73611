-- ===== src/Verification.antt =====
-- Reading back what was written: VerificationSession of src/verification_session.cpp. The messages
-- and the callback that reports a verified block are left out.
pub mod Blocks
pub mod Commands
pub mod Compare
pub mod Contents
pub mod Sessions
use Prim.Native.Nat.{bit_and}
use ezfadvance_iii.Prelude.{
  ℕ, zero, suc, ◌+◌, ◌-◌, ◌*◌, ◌/◌, ◌%◌, ◌^◌, Bool, true, false, not, ◌&&◌, ◌||◌, Option, none,
  some, List, [], ◌∷◌, ltb, leb, ◌==◌, ◌!=◌, if◌then◌else◌, length, min,
}
use ezfadvance_iii.Prelude.Bytes.{byte_at, u32}
use ezfadvance_iii.Prelude.Result.{Result, ok, err}
use ezfadvance_iii.CartridgeFormat.{write_le32}
use ezfadvance_iii.Usb.{World, Action, ◌&&&◌, done, bulk_out, in_exact, wait}
use ezfadvance_iii.Protocol.{default_options, tx92_two, tx92_one}

-- The exceptions of the session.
pub data VerifyError : Type 0 where
  size_outside wrong_size odd_address out_of_range : VerifyError

abbrev pub block_size : ℕ
block_size = 0x10000

abbrev pub first_window_size : ℕ
first_window_size = 0x800000

abbrev pub two_window_size : ℕ
two_window_size = 0x1000000

abbrev pub usb_timeout_ms : ℕ
usb_timeout_ms = 15000

-- `(image_size + block_size - 1) & ~(block_size - 1)`
abbrev pub rounded_to_block : ℕ → ℕ
rounded_to_block size = bit_and (size + block_size - 1) (2 ^ 64 - 1 - (block_size - 1))

-- `VerificationSession::partialFirstWindowExtent`
unfoldable pub partial_first_window_extent : ℕ → Result VerifyError ℕ
partial_first_window_extent size =
    if (size == 0) || leb first_window_size size
    then err size_outside
    else ok (rounded_to_block size)

-- `VerificationSession::tinyTailAbove16MiBExtent`
unfoldable pub tiny_tail_above_16_mib_extent : ℕ → Result VerifyError ℕ
tiny_tail_above_16_mib_extent size =
    if leb size two_window_size || ltb (two_window_size + block_size) size
    then err size_outside
    else ok (rounded_to_block size)

abbrev pub read_bytes : ℕ → ℕ → List ℕ
read_bytes word_address length_ =
    write_le32
      (write_le32
        (0x5A ∷ 0xA5 ∷ 0x91 ∷ 0x00 ∷ 0x00 ∷ 0x00 ∷ 0x00 ∷ 0x00 ∷ 0x00 ∷ 0x00 ∷ 0x00 ∷ 0x00 ∷ 0x00
          ∷ [])
        4 (u32 word_address))
      8 (u32 length_)

-- `VerificationSession::readCommand`; `& 1` is the remainder modulo 2.
unfoldable pub read_command : ℕ → ℕ → Result VerifyError (List ℕ)
read_command byte_address length_ =
    if byte_address % 2 != 0
    then err odd_address
    else if ltb 0xFFFFFFFF (byte_address / 2) || ltb 0xFFFFFFFF length_
    then err out_of_range
    else ok (read_bytes (byte_address / 2) length_)

-- `absolute < image.size() ? image[absolute] : 0xFF`
abbrev pub expected_byte : List ℕ → ℕ → ℕ
expected_byte image absolute = if ltb absolute (length image) then byte_at image absolute else 0xFF

-- `VerificationSession::compareBlock`
unfoldable pub compare_block : List ℕ → ℕ → List ℕ → Bool → Bool
compare_block image offset [] require_erased_padding = true
compare_block image offset (b ∷ received) require_erased_padding =
    let rest = compare_block image (offset + 1) received require_erased_padding in
    if leb (length image) offset && not require_erased_padding
    then rest
    else if b != expected_byte image offset
    then false
    else rest

abbrev pub matches : List ℕ → ℕ → Bool → Option (List ℕ) → Bool
matches image offset require_erased_padding none = false
matches image offset require_erased_padding (some received) =
    compare_block image offset received require_erased_padding

abbrev pub read_block : List ℕ → ℕ → ℕ → Bool → Action
read_block image offset length_ require_erased_padding w =
    let (received, w') = in_exact length_ usb_timeout_ms w in
    (matches image offset require_erased_padding received, w')

-- The command of a block; an exception is taken for a failure.
abbrev pub send_command : Result VerifyError (List ℕ) → Action
send_command (ok command) = bulk_out command usb_timeout_ms
send_command (err e) = (λ w. (false, w))

-- The loop of `verifyLinear`. A round takes a block, or what is left.
unfoldable pub verify_loop : List ℕ → ℕ → Bool → ℕ → ℕ → Action
verify_loop image verify_size require_erased_padding zero offset = done
verify_loop image verify_size require_erased_padding (suc rounds) offset =
    let length_ = min block_size (verify_size - offset) in
    let rest = verify_loop image verify_size require_erased_padding rounds (offset + length_) in
    if ltb offset verify_size
    then (send_command (read_command offset length_)
        &&& read_block image offset length_ require_erased_padding
        &&& rest)
    else done

-- `VerificationSession::verifyLinear`
unfoldable pub verify_linear : List ℕ → ℕ → Bool → Action
unfolding verify_loop
verify_linear image verify_size require_erased_padding =
    verify_loop image verify_size require_erased_padding (verify_size / block_size + 1) 0
