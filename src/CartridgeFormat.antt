-- ===== src/CartridgeFormat.antt =====
-- src/cartridge_format.cpp, include/ezfadvance/cartridge_format.hpp: byte-level reading of
-- cartridge images. A byte vector is a list of numbers; `operator|` of disjoint fields is a sum.
pub mod Words
pub mod Branches
pub mod Checksum
pub mod Sizes
pub mod Reconstruct
use ezfadvance_iii.Prelude.{
  ℕ, zero, suc, ◌+◌, ◌-◌, ◌*◌, ◌/◌, ◌%◌, ◌^◌, Bool, true, false, not, ◌&&◌, ◌||◌, Option, none,
  some, List, [], ◌∷◌, ◌++◌, reverse, ltb, leb, ◌==◌, ◌!=◌, if◌then◌else◌, length, take, drop, set,
  fill,
}
use ezfadvance_iii.Prelude.{min, max}
use ezfadvance_iii.Prelude.Bytes.{byte_at, u8, u32}
use ezfadvance_iii.Prelude.Int.{ℤ, pos, negsuc, pos_part, neg_part, sub_ℕ, sign_extend}
use ezfadvance_iii.Prelude.Result.{Result, ok, err}

-- `readLe16(bytes + offset)`
unfoldable pub read_le16 : List ℕ → ℕ → ℕ
read_le16 bytes offset = byte_at bytes offset + byte_at bytes (offset + 1) * 2 ^ 8

unfoldable pub read_le32 : List ℕ → ℕ → ℕ
read_le32 bytes offset =
    byte_at bytes offset
    + byte_at bytes (offset + 1) * 2 ^ 8
    + byte_at bytes (offset + 2) * 2 ^ 16
    + byte_at bytes (offset + 3) * 2 ^ 24

abbrev is_printable : ℕ → Bool
is_printable value = leb 0x20 value && leb value 0x7E

-- The `for` loop of `cleanAscii`, up to its `break`.
unfoldable pub clean_scan : List ℕ → List ℕ
clean_scan [] = []
clean_scan (value ∷ rest) =
    let more = clean_scan rest in
    if value == 0x00 || value == 0xFF
    then []
    else ((if is_printable value then value else b'.') ∷ more)

-- `while (!result.empty() && result.back() == ' ') result.pop_back()`, on the reversed string.
unfoldable pub pop_spaces : List ℕ → List ℕ
pop_spaces [] = []
pop_spaces (c ∷ rest) = let more = pop_spaces rest in if c == b' ' then more else (c ∷ rest)

-- `cleanAscii(bytes + offset, size)`
unfoldable pub clean_ascii : List ℕ → ℕ → ℕ → List ℕ
unfolding clean_scan pop_spaces
clean_ascii bytes offset size =
    reverse (pop_spaces (reverse (clean_scan (take size (drop offset bytes)))))

-- The checksum loop over `count` bytes from `i` on, in uint8_t.
checksum_loop : ℕ → ℕ → List ℕ → ℕ → ℕ
checksum_loop zero i bytes checksum = checksum
checksum_loop (suc count) i bytes checksum =
    checksum_loop count (i + 1) bytes (u8 (checksum + 256 - byte_at bytes i))

unfoldable pub gba_header_checksum_valid : List ℕ → Bool
unfolding checksum_loop
gba_header_checksum_valid bytes =
    if ltb (length bytes) 0xC0
    then false
    else (u8 (checksum_loop 29 0xA0 bytes 0 + 256 - 0x19) == byte_at bytes 0xBD)

unfoldable pub valid_gba_rom_header : List ℕ → Bool
unfolding gba_header_checksum_valid
valid_gba_rom_header bytes =
    leb 0xC0 (length bytes) && (byte_at bytes 0xB2 == 0x96) && gba_header_checksum_valid bytes

-- `while (end != 0 && bytes[end - 1] == 0xFF) --end`
meaningful_end : List ℕ → ℕ → ℕ
meaningful_end bytes zero = zero
meaningful_end bytes (suc end) =
    let less = meaningful_end bytes end in if byte_at bytes end == 0xFF then less else suc end

abbrev pub supported_sizes : List ℕ
supported_sizes = 0x00100000 ∷ 0x00200000 ∷ 0x00400000 ∷ 0x00800000 ∷ 0x01000000 ∷ 0x02000000 ∷ []

first_size : ℕ → ℕ → List ℕ → Option ℕ
first_size used available [] = none
first_size used available (size ∷ sizes) =
    let later = first_size used available sizes in
    if leb used size && leb size available then some size else later

unfoldable pub trimmed_gba_rom_size : List ℕ → Option ℕ
unfolding meaningful_end first_size
trimmed_gba_rom_size bytes =
    let used = meaningful_end bytes (length bytes) in
    if used == 0 then none else first_size used (length bytes) supported_sizes

-- int64_t target = 8 + immediate * 4
abbrev branch_target : ℤ → ℤ
branch_target immediate = sub_ℕ (8 + pos_part immediate * 4) (neg_part immediate * 4)

abbrev to_u32 : ℤ → Option ℕ
to_u32 (negsuc n) = none
to_u32 (pos n) = if ltb 0xFFFFFFFF n then none else some n

unfoldable pub arm_branch_target : ℕ → Option ℕ
arm_branch_target instruction =
    if instruction / 2 ^ 24 != 0xEA
    then none
    else to_u32 (branch_target (sign_extend 24 (instruction % 2 ^ 24)))

pub data BranchError : Type 0 where
  invalid_argument out_of_range : BranchError

unfoldable pub make_arm_branch : ℕ → Result BranchError ℕ
make_arm_branch target =
    if ltb target 8 || ((target - 8) % 4 != 0)
    then err invalid_argument
    else let immediate = (target - 8) / 4 in
      if leb (2 ^ 23) immediate then err out_of_range else ok (0xEA000000 + immediate % 2 ^ 24)

pub record CatalogEntry : Type 0 where
  pub name : List ℕ
  pub type : ℕ
  pub mapping : ℕ
  pub packed_start : ℕ
  pub start : ℕ
  pub target_or_start : ℕ

-- `rom[0] = (uint8_t)x; … rom[3] = (uint8_t)(x >> 24)`, and `write_le32` of the image builder.
unfoldable pub write_le32 : List ℕ → ℕ → ℕ → List ℕ
write_le32 v off x =
    set (set (set (set v off (u8 x)) (off + 1) (u8 (x / 2 ^ 8))) (off + 2) (u8 (x / 2 ^ 16)))
      (off + 3) (u8 (x / 2 ^ 24))

abbrev restored : List ℕ → Result BranchError ℕ → Bool × List ℕ
restored rom (ok instruction) = (true, write_le32 rom 0 instruction)
restored rom (err e) = (false, rom)

-- The result and the vector that the reference parameter holds afterwards.
unfoldable pub restore_ez3_entry : List ℕ → CatalogEntry → Bool → Bool × List ℕ
restore_ez3_entry rom entry first =
    if not first
    then (true, rom)
    else if ltb (length rom) 4
    then (false, rom)
    else restored rom (make_arm_branch entry.target_or_start)

-- The part of the ROM's extent that the loader overlaps, filled with 0xFF.
unfoldable pub erase_overlap : List ℕ → ℕ → ℕ → ℕ → List ℕ
erase_overlap rom rom_start loader_start loader_length =
    let overlap_begin = max rom_start loader_start in
    let overlap_end = min (rom_start + length rom) (loader_start + loader_length) in
    if ltb overlap_begin overlap_end
    then fill (overlap_begin - rom_start) (overlap_end - overlap_begin) 0xFF rom
    else rom

unfoldable pub reconstruct_ez3_rom : List ℕ → CatalogEntry → Bool → ℕ → ℕ → ℕ → Bool × List ℕ
reconstruct_ez3_rom rom entry first rom_start loader_start loader_length =
    restore_ez3_entry (erase_overlap rom rom_start loader_start loader_length) entry first

unfoldable pub required_linear_read_limit : ℕ → Option ℕ
required_linear_read_limit inclusive_end =
    if ltb inclusive_end 0x00800000
    then some 0x00800000
    else if ltb inclusive_end 0x01000000
    then some 0x01000000
    else if ltb inclusive_end 0x01800000
    then some 0x01800000
    else if ltb inclusive_end 0x02000000
    then some 0x02000000
    else none
