-- ===== src/ImageBuilder.antt =====
-- The helpers of the image builder: src/cartridge_image_builder.cpp and its header. The reports are
-- left out. The two loader templates are arguments: the bytes that `decode_base64` gives.
pub mod Slots
pub mod Search
pub mod Lengths
pub mod SizeClass
pub mod Multi
pub mod Packing
pub mod Single
pub mod Names
pub mod Entries
pub mod SingleCatalog
pub mod SinglePlace
pub mod SingleImage
pub mod SingleRoundTrip
use Prim.Native.Nat.{bit_and, bit_or}
use ezfadvance_iii.Prelude.{
  ℕ, zero, suc, ◌+◌, ◌-◌, ◌*◌, ◌/◌, ◌%◌, ◌^◌, Bool, true, false, ◌&&◌, ◌||◌, Option, none, some,
  List, [], ◌∷◌, ltb, leb, ◌==◌, ◌!=◌, if◌then◌else◌, length, take, fill, copy_at, set, max, min,
}
use ezfadvance_iii.Prelude.Bytes.{u8, u16, u32, byte_at}
use ezfadvance_iii.Prelude.Result.{Result, ok, err}
use ezfadvance_iii.CartridgeFormat.{read_le32, write_le32}

-- `RomInfo`
pub record RomInfo : Type 0 where
  pub path : List ℕ
  pub name : List ℕ
  pub data_ : List ℕ
  pub start : ℕ
  pub original_entry_target : ℕ
  pub entry_type : ℕ
  pub entry_type_overridden : Bool
  pub mapping_flag : ℕ
  pub mapping_flag_overridden : Bool

-- The exceptions of the builder.
pub data BuildError : Type 0 where
  invalid_base64 exceeds_capacity size_class_exceeds entry_outside wrong_rom_count template_length
        no_single_slot relocation_count image_too_large branch_target too_many_roms
        placement_exceeds roms_overlap no_multi_slot loader_overlaps :
      BuildError

abbrev pub program_block : ℕ
program_block = 0x10000

abbrev pub card_half_size : ℕ
card_half_size = 0x1000000

abbrev pub max_card_image : ℕ
max_card_image = 0x2000000

abbrev pub multi_template_len : ℕ
multi_template_len = 0x7080

-- `write_le16`
unfoldable pub write_le16 : List ℕ → ℕ → ℕ → List ℕ
write_le16 v off x = set (set v off (u8 x)) (off + 1) (u8 (x / 2 ^ 8))

-- `align_up_u32`: `~(a - 1)` in 32 bits.
unfoldable pub align_up_u32 : ℕ → ℕ → ℕ
align_up_u32 x a = bit_and (u32 (x + a + (2 ^ 32 - 1))) (2 ^ 32 - 1 - (a - 1))

-- `align_up_u64`
unfoldable pub align_up_u64 : ℕ → ℕ → ℕ
align_up_u64 x a = bit_and ((x + a + (2 ^ 64 - 1)) % 2 ^ 64) (2 ^ 64 - 1 - (a - 1))

base64_value : ℕ → Option ℕ
base64_value c =
    if leb b'A' c && leb c b'Z'
    then some (c - b'A')
    else if leb b'a' c && leb c b'z'
    then some (c - b'a' + 26)
    else if leb b'0' c && leb c b'9'
    then some (c - b'0' + 52)
    else if c == b'+'
    then some 62
    else if c == b'/'
    then some 63
    else none

prepended : Option ℕ → Result BuildError (List ℕ) → Result BuildError (List ℕ)
prepended none rest = rest
prepended (some byte) (ok bytes) = ok (byte ∷ bytes)
prepended (some byte) (err e) = err e

-- The loop of `decode_base64`, with `accum` in 32 bits.
decode_loop : ℕ → ℕ → List ℕ → Result BuildError (List ℕ)
unfolding base64_value prepended
decode_loop accum bits [] = ok []
decode_loop accum bits (c ∷ text) = elim (base64_value c) [
  | none ↦
      let rest = decode_loop accum bits text in
      if c == b'='
      then ok []
      else if (c == 0x20) || (leb 0x09 c && leb c 0x0D)
      then rest
      else err invalid_base64
  | some value ↦
      let accum' = u32 (accum * 64) + value in
      let byte = u8 (accum' / 2 ^ (bits + 6 - 8)) in
      let more = leb 8 (bits + 6) in
      prepended (if more then some byte else none)
        (decode_loop accum' (if more then bits + 6 - 8 else bits + 6) text)
]

-- `decode_base64`
unfoldable pub decode_base64 : List ℕ → Result BuildError (List ℕ)
unfolding decode_loop
decode_base64 text = decode_loop 0 0 text

-- The loop of `meaningful_rom_end`.
rom_end_loop : List ℕ → ℕ → ℕ
rom_end_loop rom zero = zero
rom_end_loop rom (suc end) =
    let less = rom_end_loop rom end in
    if ltb 0xC0 (suc end) && (byte_at rom end == 0xFF) then less else suc end

-- `meaningful_rom_end`
unfoldable pub meaningful_rom_end : List ℕ → ℕ
unfolding rom_end_loop
meaningful_rom_end rom = rom_end_loop rom (length rom)

abbrev pub smear : ℕ → ℕ → ℕ
smear n x = bit_or x (x / 2 ^ n)

-- `next_power_of_two_u32`
unfoldable pub next_power_of_two_u32 : ℕ → ℕ
next_power_of_two_u32 x =
    if leb x 1 then 1 else u32 (smear 16 (smear 8 (smear 4 (smear 2 (smear 1 (x - 1))))) + 1)

-- `multi_rom_size_class_alignment`
unfoldable pub multi_rom_size_class_alignment : ℕ → Result BuildError ℕ
multi_rom_size_class_alignment file_size =
    if ltb max_card_image file_size
    then err exceeds_capacity
    else let a = next_power_of_two_u32 (u32 (max program_block file_size)) in
      if (a == 0) || ltb max_card_image a then err size_class_exceeds else ok a

-- `while (i < limit && image[i] != 0xFF) ++i`, with `left` bytes to the limit.
pub skip_data : List ℕ → ℕ → ℕ → ℕ
skip_data image zero i = i
skip_data image (suc left) i =
    let next = skip_data image left (i + 1) in if byte_at image i != 0xFF then next else i

-- `while (i < limit && image[i] == 0xFF) ++i`
pub skip_erased : List ℕ → ℕ → ℕ → ℕ
skip_erased image zero i = i
skip_erased image (suc left) i =
    let next = skip_erased image left (i + 1) in if byte_at image i == 0xFF then next else i

-- The outer loop of the two searches, with the rounding of a run's start and the size to reserve.
-- A round moves on by at least one byte, so as many rounds as bytes are enough.
slot_loop : (ℕ → ℕ) → ℕ → List ℕ → ℕ → ℕ → ℕ → Option ℕ
unfolding skip_data skip_erased
slot_loop aligned reserve image limit zero i = none
slot_loop aligned reserve image limit (suc rounds) i =
    let run_start = skip_data image (limit - i) i in
    let run_end = skip_erased image (limit - run_start) run_start in
    let later = slot_loop aligned reserve image limit rounds run_end in
    if leb limit i
    then none
    else if leb run_end run_start
    then later
    else if leb (aligned run_start) run_end && leb reserve (run_end - aligned run_start)
    then some (u32 (aligned run_start))
    else later

-- `(run_start + 15u) & ~15u`
abbrev pub at_boundary : ℕ → ℕ
at_boundary run_start = bit_and (run_start + 15) (2 ^ 64 - 1 - 15)

-- `(run_start + 16u) & ~15u`
abbrev pub next_boundary : ℕ → ℕ
next_boundary run_start = bit_and (run_start + 16) (2 ^ 64 - 1 - 15)

-- `find_ff_slot_in_image`
unfoldable pub find_ff_slot_in_image : List ℕ → ℕ → Option ℕ
unfolding slot_loop
find_ff_slot_in_image image required_size =
    let limit = min (length image) max_card_image in
    slot_loop at_boundary required_size image limit limit 0xC0

-- `find_internal_ff_loader_slot`
unfoldable pub find_internal_ff_loader_slot : List ℕ → ℕ → Option ℕ
unfolding slot_loop
find_internal_ff_loader_slot rom required_size =
    let limit = min (length rom) max_card_image in
    slot_loop next_boundary (max required_size multi_template_len) rom limit limit 0xC0

-- The loop of `relocate_template`, with `left` words to go.
relocate_loop : ℕ → ℕ → ℕ → ℕ → ℕ → ℕ → List ℕ → ℕ × List ℕ
relocate_loop lo hi original_base new_base zero off t = (0, t)
relocate_loop lo hi original_base new_base (suc left) off t =
    let v = read_le32 t off in
    if leb lo v && leb v hi
    then (let (count, t') =
          relocate_loop lo hi original_base new_base left (off + 4)
            (write_le32 t off ((v + new_base + (2 ^ 32 - original_base)) % 2 ^ 32)) in
        (count + 1, t'))
    else relocate_loop lo hi original_base new_base left (off + 4) t

-- `relocate_template`: the number of words that it moved, and the template.
unfoldable pub relocate_template : List ℕ → ℕ → ℕ → ℕ × List ℕ
unfolding relocate_loop
relocate_template t original_base new_base =
    let lo = u32 (0x0800_0000 + original_base) in
    relocate_loop lo (u32 (lo + length t)) original_base new_base (length t / 4) 0 t

-- `write_catalog_entry`
unfoldable pub write_catalog_entry : List ℕ → ℕ → RomInfo → Bool → Result BuildError (List ℕ)
write_catalog_entry t off r first =
    if ltb (length t) (off + 28)
    then err entry_outside
    else let named = copy_at off (take 16 r.name) (fill off 28 0 t) in
      let typed = write_le32 named (off + 16) (u32 (r.entry_type * 2 ^ 24)) in
      let placed = write_le32 typed (off + 20) (u32 (r.start / 2 * 2 ^ 8) + r.mapping_flag % 256) in
      ok (write_le32 placed (off + 24) (if first then r.original_entry_target else r.start))
