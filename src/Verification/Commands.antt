-- ===== src/Verification/Commands.antt =====
-- The read commands that the linear verification of src/verification_session.cpp sends.
use ezfadvance_iii.Prelude.{
  ℕ, zero, suc, ◌+◌, ◌-◌, ◌/◌, ◌%◌, ◌≡◌, List, [], ◌∷◌, ltb, if◌then◌else◌, min, arith,
}
use ezfadvance_iii.CartridgeFormat.{write_le32}
use ezfadvance_iii.Usb.{Event, sent, asked}
use ezfadvance_iii.Verification.{block_size, usb_timeout_ms, read_bytes}

-- The bytes of a read command: the address in words and the size, each little-endian.
abbrev pub command_at : ℕ → ℕ → List ℕ
command_at word count =
    0x5A
    ∷ 0xA5
    ∷ 0x91
    ∷ 0x00
    ∷ (word % 256)
    ∷ (word / 256 % 256)
    ∷ (word / 65536 % 256)
    ∷ (word / 16777216 % 256)
    ∷ (count % 256)
    ∷ (count / 256 % 256)
    ∷ (count / 65536 % 256)
    ∷ (count / 16777216 % 256)
    ∷ 0x00
    ∷ []

pub read_bytes-command_at : (word count : ℕ) → read_bytes word count ≡ command_at word count
unfolding write_le32
read_bytes-command_at word count =
    let byte : (n : ℕ) → n % 4294967296 % 256 ≡ n % 256 = λ n. omega arith in
    let second : (n : ℕ) → n % 4294967296 / 256 % 256 ≡ n / 256 % 256 = λ n. omega arith in
    let third : (n : ℕ) → n % 4294967296 / 65536 % 256 ≡ n / 65536 % 256 = λ n. omega arith in
    let fourth : (n : ℕ) → n % 4294967296 / 16777216 % 256 ≡ n / 16777216 % 256 =
      λ n. omega arith in
    λ i.
      0x5A
      ∷ 0xA5
      ∷ 0x91
      ∷ 0x00
      ∷ byte word i
      ∷ second word i
      ∷ third word i
      ∷ fourth word i
      ∷ byte count i
      ∷ second count i
      ∷ third count i
      ∷ fourth count i
      ∷ 0x00
      ∷ []

-- The transfers of a linear read: for each block from the offset on, the command for the block's own
-- address and size, and the read of that size.
abbrev pub read_events : ℕ → ℕ → ℕ → List Event
read_events verify_size zero offset = []
read_events verify_size (suc rounds) offset =
    let count = min block_size (verify_size - offset) in
    let rest = read_events verify_size rounds (offset + count) in
    if ltb offset verify_size
    then (sent usb_timeout_ms (command_at (offset / 2) count) ∷ asked usb_timeout_ms count ∷ rest)
    else []
