-- ===== src/CartridgeFormat/Checksum.antt =====
-- The header checksum of src/cartridge_format.cpp.
use ezfadvance_iii.Prelude.{
  ℕ, zero, suc, ◌+◌, ◌-◌, ◌%◌, ◌≤◌, ◌<◌, ◌≡◌, ◌↔◌, true, List, length, All, arith,
}
use ezfadvance_iii.Prelude.Bytes.{byte_at, IsByte, byte_at-IsByte}
use ezfadvance_iii.CartridgeFormat.{checksum_loop, gba_header_checksum_valid}

-- The sum of `count` bytes from `i` on.
pub byte_sum : ℕ → ℕ → List ℕ → ℕ
byte_sum zero i bytes = 0
byte_sum (suc count) i bytes = byte_at bytes i + byte_sum count (i + 1) bytes

-- The loop subtracts that sum in uint8_t.
checksum_loop-byte_sum :
    (count i : ℕ) (bytes : List ℕ) (checksum : ℕ)
    → All IsByte bytes
    → checksum < 256
    → ((checksum_loop count i bytes checksum + byte_sum count i bytes) % 256 ≡ checksum)
      × (checksum_loop count i bytes checksum < 256)
unfolding checksum_loop byte_sum
checksum_loop-byte_sum zero i bytes checksum h k = (omega arith, k)
checksum_loop-byte_sum (suc count) i bytes checksum h k =
    let b = byte_at-IsByte bytes i h in
    let (ih, lt) =
      checksum_loop-byte_sum count (i + 1) bytes ((checksum + 256 - byte_at bytes i) % 256) h
        (omega arith) in
    (omega arith, lt)

-- For a byte vector of at least 0xC0 bytes the header checksum is valid exactly when the header
-- bytes 0xA0 to 0xBC, the constant 0x19 and the checksum byte add up to 0 modulo 256.
pub gba_header_checksum_valid_iff :
    (bytes : List ℕ)
    → All IsByte bytes
    → 0xC0 ≤ length bytes
    → (gba_header_checksum_valid bytes ≡ true)
      ↔ ((byte_sum 29 0xA0 bytes + 0x19 + byte_at bytes 0xBD) % 256 ≡ 0)
unfolding gba_header_checksum_valid
gba_header_checksum_valid_iff bytes h long =
    let (e, lt) = checksum_loop-byte_sum 29 0xA0 bytes 0 h (omega arith) in
    let b = byte_at-IsByte bytes 0xBD h in (λ v. ground arith, λ v. ground arith)
