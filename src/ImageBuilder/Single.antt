-- ===== src/ImageBuilder/Single.antt =====
-- build_single_image and build_direct_boot_image of src/cartridge_image_builder.cpp.
use Prim.Native.Nat.{bit_and}
use ezfadvance_iii.Prelude.{
  ℕ, ◌+◌, ◌-◌, ◌^◌, Bool, true, false, ◌&&◌, Option, none, some, List, [], ◌∷◌, ltb, leb, ◌==◌,
  ◌!=◌, if◌then◌else◌, length, take, drop, fill, copy_at, replicate, max,
}
use ezfadvance_iii.Prelude.Bytes.{u32}
use ezfadvance_iii.Prelude.Result.{Result, ok, err}
use ezfadvance_iii.CartridgeFormat.{BranchError, make_arm_branch, write_le32}
use ezfadvance_iii.ImageBuilder.{
  RomInfo, BuildError, template_length, no_single_slot, relocation_count, image_too_large,
  branch_target, wrong_rom_count, card_half_size, max_card_image, multi_template_len, align_up_u32,
  meaningful_rom_end, find_internal_ff_loader_slot, relocate_template, write_le16,
  write_catalog_entry,
}

abbrev pub single_template_len : ℕ
single_template_len = 0x660

-- `std::all_of(…, [](uint8_t b) { return b == 0xFF; })`
abbrev pub all_erased : List ℕ → Bool
all_erased [] = true
all_erased (b ∷ bytes) = (b == 0xFF) && all_erased bytes

-- `loader_fits_in_padding`
abbrev pub fits_in_padding : List ℕ → ℕ → ℕ → Bool
fits_in_padding rom loader_start reserve =
    leb loader_start (length rom)
    && leb (loader_start + reserve) (length rom)
    && all_erased (take reserve (drop loader_start rom))

-- An internal slot, or what the code does without one.
abbrev pub slot_or : Option ℕ → Result BuildError (ℕ × Bool) → Result BuildError (ℕ × Bool)
slot_or none otherwise = otherwise
slot_or (some internal) otherwise = ok (internal, false)

-- `loader_start` and `loader_in_second_half`, for a template of the size.
unfoldable pub single_loader_place : List ℕ → ℕ → Result BuildError (ℕ × Bool)
single_loader_place rom template_size =
    let padding = align_up_u32 (u32 (meaningful_rom_end rom)) 16 in
    let appended = align_up_u32 (u32 (length rom)) 16 in
    if fits_in_padding rom padding (max template_size multi_template_len)
    then ok (padding, false)
    else if length rom == card_half_size
    then slot_or (find_internal_ff_loader_slot rom template_size) (ok (card_half_size + 0x10, true))
    else if ltb max_card_image (appended + template_size)
    then slot_or (find_internal_ff_loader_slot rom template_size) (err no_single_slot)
    else ok (appended, false)

-- The image's size, from the loader's start.
unfoldable pub single_image_size : List ℕ → ℕ → ℕ → Bool → ℕ
single_image_size rom loader_start template_size in_second_half =
    let image_size = max (length rom) (loader_start + template_size) in
    if in_second_half then bit_and (image_size + 0xFF) (2 ^ 64 - 1 - 0xFF) else image_size

-- The ROM on the erased image, with the gap before a loader in the second half.
unfoldable pub single_base : List ℕ → ℕ → ℕ → Bool → List ℕ
single_base rom image_size loader_start in_second_half =
    let image = copy_at 0 rom (replicate image_size 0xFF) in
    if in_second_half then fill card_half_size (loader_start - card_half_size) 0 image else image

abbrev pub branched : ℕ → List ℕ → List ℕ → Result BranchError ℕ → Result BuildError (List ℕ)
branched loader_start t image (err e) = err branch_target
branched loader_start t image (ok patched) =
    ok (copy_at loader_start t (write_le32 image 0 patched))

-- `build_single_image` from the image's size on.
unfoldable pub finish_single : List ℕ → ℕ → Bool → List ℕ → Result BuildError (List ℕ)
finish_single rom loader_start in_second_half t =
    let image_size = single_image_size rom loader_start (length t) in_second_half in
    if ltb max_card_image image_size
    then err image_too_large
    else branched loader_start t (single_base rom image_size loader_start in_second_half)
        (make_arm_branch loader_start)

abbrev pub with_entry : List ℕ → ℕ → Bool → Result BuildError (List ℕ) → Result BuildError (List ℕ)
with_entry rom loader_start in_second_half (err e) = err e
with_entry rom loader_start in_second_half (ok t) = finish_single rom loader_start in_second_half t

-- The template's relocation, header and catalog entry.
unfoldable pub single_template : List ℕ → RomInfo → ℕ → Result BuildError (List ℕ)
single_template template r loader_start =
    let (reloc_count, t) = relocate_template template 0xD3B0 loader_start in
    if reloc_count != 13
    then err relocation_count
    else write_catalog_entry (write_le16 (write_le16 t 0x4E8 1) 0x4F6 1) 0x4F8 r true

abbrev pub place_single :
    List ℕ → RomInfo → Result BuildError (ℕ × Bool) → Result BuildError (List ℕ)
place_single template r (err e) = err e
place_single template r (ok (loader_start, in_second_half)) =
    with_entry r.data_ loader_start in_second_half (single_template template r loader_start)

-- `build_single_image`; it sets the ROM's start to 0.
unfoldable pub build_single_image : List ℕ → List RomInfo → Result BuildError (List ℕ)
build_single_image template (rom ∷ []) =
    let r = record rom { start = 0 } in
    if length template != single_template_len
    then err template_length
    else place_single template r (single_loader_place r.data_ (length template))
build_single_image template [] = err wrong_rom_count
build_single_image template (r ∷ s ∷ roms) = err wrong_rom_count

-- `build_direct_boot_image`
unfoldable pub build_direct_boot_image : List RomInfo → Result BuildError (List ℕ)
build_direct_boot_image (rom ∷ []) = ok rom.data_
build_direct_boot_image [] = err wrong_rom_count
build_direct_boot_image (r ∷ s ∷ roms) = err wrong_rom_count
