-- ===== src/ImageBuilder/Multi.antt =====
-- build_multi_image and CartridgeImageBuilder::build of src/cartridge_image_builder.cpp.
use ezfadvance_iii.Prelude.{
  ℕ, zero, suc, ◌+◌, ◌-◌, ◌*◌, Bool, true, false, ◌&&◌, ◌||◌, Option, none, some, List, [], ◌∷◌,
  ◌++◌, ltb, leb, ◌==◌, ◌!=◌, if◌then◌else◌, length, take, drop, fill, copy_at, replicate, max,
}
use ezfadvance_iii.Prelude.Bytes.{u16, u32}
use ezfadvance_iii.Prelude.Result.{Result, ok, err, ◌>>=◌}
use ezfadvance_iii.CartridgeFormat.{BranchError, make_arm_branch, write_le32}
use ezfadvance_iii.ImageBuilder.{
  RomInfo, BuildError, template_length, relocation_count, image_too_large, branch_target,
  wrong_rom_count, too_many_roms, placement_exceeds, roms_overlap, no_multi_slot, loader_overlaps,
  program_block, max_card_image, multi_template_len, align_up_u64, meaningful_rom_end,
  multi_rom_size_class_alignment, find_ff_slot_in_image, relocate_template, write_le16,
  write_catalog_entry,
}
use ezfadvance_iii.ImageBuilder.Single.{build_single_image, build_direct_boot_image}

-- `std::stable_sort` by descending size: a ROM stands before those that are not larger.
abbrev pub insert_rom : RomInfo → List RomInfo → List RomInfo
insert_rom r [] = r ∷ []
insert_rom r (s ∷ roms) =
    let later = insert_rom r roms in
    if leb (length s.data_) (length r.data_) then r ∷ s ∷ roms else s ∷ later

abbrev pub sort_roms : List RomInfo → List RomInfo
sort_roms [] = []
sort_roms (r ∷ roms) = insert_rom r (sort_roms roms)

-- A ROM's start from the alignment of its size class, with the test of the card's size.
abbrev pub checked_start : ℕ → ℕ → Result BuildError ℕ
checked_start start size =
    if ltb 0xFFFFFFFF start || ltb max_card_image (start + size)
    then err placement_exceeds
    else ok start

abbrev pub rom_start : Bool → ℕ → RomInfo → Result BuildError ℕ
rom_start first cursor r = multi_rom_size_class_alignment (length r.data_) >>= λ alignment.
    checked_start (if first then 0 else align_up_u64 cursor alignment) (length r.data_)

-- The placement loop, with `meaningful_cursor`.
unfoldable pub place_roms : Bool → ℕ → List RomInfo → Result BuildError (List RomInfo)
place_roms first cursor [] = ok []
place_roms first cursor (r ∷ roms) = rom_start first cursor r >>= λ start.
    place_roms false (max cursor (start + meaningful_rom_end r.data_)) roms >>= λ placed.
    ok (record r { start = start } ∷ placed)

abbrev pub base_image_size : List RomInfo → ℕ
base_image_size [] = 0
base_image_size (r ∷ roms) = max (r.start + length r.data_) (base_image_size roms)

-- `occupied_non_ff` behind the copy of a ROM to `start`, or none where it would overlap.
abbrev pub mark : Bool → ℕ → Option (List Bool) → Option (List Bool)
mark occupied byte none = none
mark occupied byte (some rest) =
    if occupied && (byte != 0xFF) then none else some ((occupied || (byte != 0xFF)) ∷ rest)

abbrev pub skip_mark : Bool → Option (List Bool) → Option (List Bool)
skip_mark occupied none = none
skip_mark occupied (some rest) = some (occupied ∷ rest)

unfoldable pub occupy : ℕ → List ℕ → List Bool → Option (List Bool)
occupy start [] occupied = some occupied
occupy start (byte ∷ data_) [] = some []
occupy zero (byte ∷ data_) (o ∷ occupied) = mark o byte (occupy zero data_ occupied)
occupy (suc start) (byte ∷ data_) (o ∷ occupied) =
    skip_mark o (occupy start (byte ∷ data_) occupied)

abbrev pub occupied_or : Option (List Bool) → Result BuildError (List Bool)
occupied_or none = err roms_overlap
occupied_or (some occupied) = ok occupied

-- The copy of the ROMs into the image, with `occupied_non_ff`.
unfoldable pub copy_roms :
    List RomInfo → List ℕ → List Bool → Result BuildError (List ℕ × List Bool)
copy_roms [] image occupied = ok (image, occupied)
copy_roms (r ∷ roms) image occupied = occupied_or (occupy r.start r.data_ occupied) >>= λ occupied'.
    copy_roms roms (copy_at r.start r.data_ image) occupied'

-- `resize`, to at least the size.
abbrev pub grown {ℓ} : {A : Type ℓ} → List A → ℕ → A → List A
grown xs size a = xs ++ replicate (size - length xs) a

-- `MULTI_CAPTURE_GAP_BYTES`
abbrev pub multi_capture_gap_bytes : List ℕ
multi_capture_gap_bytes =
    0x00 ∷ 0x00 ∷ 0x00 ∷ 0x06 ∷ 0x00 ∷ 0x00 ∷ 0x00 ∷ 0x06 ∷ 0x00 ∷ 0x00 ∷ 0x00 ∷ 0x06 ∷ 0x00 ∷ 0x00
    ∷ 0x00 ∷ 0x05 ∷ 0x00 ∷ 0x02 ∷ 0x00 ∷ 0x05 ∷ 0x00 ∷ 0x00 ∷ 0x00 ∷ 0x07 ∷ 0x00 ∷ 0x00 ∷ 0x01
    ∷ 0x06 ∷ []

-- The loader's start, the image and `occupied_non_ff`: in an erased slot, or behind the image.
unfoldable pub place_loader : List ℕ → List Bool → ℕ → Result BuildError (ℕ × List ℕ × List Bool)
place_loader image occupied loader_copy_len = elim (find_ff_slot_in_image image loader_copy_len) [
  | some slot ↦ ok (slot, image, occupied)
  | none ↦
      let appended = align_up_u64 (length image) 16 in
      if ltb max_card_image (appended + loader_copy_len)
      then err no_multi_slot
      else let size = u32 appended + loader_copy_len in
        ok (u32 appended, grown image size 0xFF, grown occupied size false)
]

-- The catalog entries, from the index of the first of these ROMs on.
unfoldable pub write_entries : List ℕ → ℕ → List RomInfo → Result BuildError (List ℕ)
write_entries t i [] = ok t
write_entries t i (r ∷ roms) =
    write_catalog_entry t (0x476E + i * 28) r (i == 0) >>= λ t'. write_entries t' (i + 1) roms

-- The unused third entry of two ROMs and the erased tail, and the zero tail of four or more.
abbrev two_rom_patch : List ℕ → List ℕ
two_rom_patch t =
    fill 0x6F26 (0x6F80 - 0x6F26) 0xFF
      (fill (0x476E + 2 * 28 + 1) 15 0x20 (fill (0x476E + 2 * 28) 28 0x00 t))

unfoldable pub patched_tail : ℕ → List ℕ → List ℕ
patched_tail count t =
    let two = if count == 2 then two_rom_patch t else t in
    if leb 4 count then fill 0x7066 (multi_template_len - 0x7066) 0x00 two else two

-- The template's gap, relocation, header and catalog.
unfoldable pub multi_template : List ℕ → List RomInfo → ℕ → Result BuildError (List ℕ)
multi_template template roms loader_start =
    let (reloc_count, t) =
      relocate_template (copy_at 0x5764 multi_capture_gap_bytes template) 0x4A880 loader_start in
    let headed =
      write_le16 (write_le16 t 0x475E (u16 (length roms))) (0x475E + 14) (u16 (length roms)) in
    if reloc_count != 125
    then err relocation_count
    else (write_entries (fill 0x476E (3 * 28) 0x00 headed) 0 roms >>= λ entered.
        ok (patched_tail (length roms) entered))

abbrev pub any_occupied : List Bool → Bool
any_occupied [] = false
any_occupied (o ∷ occupied) = o || any_occupied occupied

abbrev branched : ℕ → List ℕ → List ℕ → Result BranchError ℕ → Result BuildError (List ℕ)
branched loader_start loader image (err e) = err branch_target
branched loader_start loader image (ok patched) =
    ok (copy_at loader_start loader (write_le32 image 0 patched))

-- The check of the loader's place, the branch and the copy of the loader.
unfoldable pub finish_multi : ℕ → List ℕ → List ℕ → List Bool → Result BuildError (List ℕ)
finish_multi loader_start loader image occupied =
    if any_occupied (take (length loader) (drop loader_start occupied))
    then err loader_overlaps
    else branched loader_start loader (grown image (loader_start + length loader) 0xFF)
        (make_arm_branch loader_start)

-- `build_multi_image` for the sorted and placed ROMs.
unfoldable pub assemble_multi : List ℕ → List RomInfo → Result BuildError (List ℕ)
assemble_multi template roms =
    let size = base_image_size roms in
    let loader_copy_len = if length roms == 2 then 0x6F80 else length template in
    if ltb max_card_image size
    then err image_too_large
    else (copy_roms roms (replicate size 0xFF) (replicate size false) >>= λ copied.
        if length template != multi_template_len
        then err template_length
        else (place_loader copied.0 copied.1 loader_copy_len >>= λ at.
            multi_template template roms at.0 >>= λ t.
            finish_multi at.0 (take loader_copy_len t) at.1 at.2))

-- `build_multi_image`
unfoldable pub build_multi_image : List ℕ → List RomInfo → Result BuildError (List ℕ)
build_multi_image template roms =
    if ltb (length roms) 2
    then err wrong_rom_count
    else if ltb 120 (length roms)
    then err too_many_roms
    else (place_roms true 0 (sort_roms roms) >>= λ placed. assemble_multi template placed)

-- What `CartridgeImageBuilder::build` makes of the bytes: none where they do not fit the card, else
-- the bytes up to `programmed_size`.
unfoldable pub programmed_bytes : List ℕ → Option (List ℕ)
programmed_bytes bytes =
    let programmed = align_up_u64 (max program_block (length bytes)) 0x100 in
    if ltb max_card_image (length bytes)
    then none
    else if ltb max_card_image programmed
    then none
    else some (grown bytes programmed 0xFF)

-- `CartridgeImageBuilder::build`, with the two loader templates.
unfoldable pub build_image :
    List ℕ → List ℕ → List RomInfo → Bool → Result BuildError (Option (List ℕ))
build_image single_template multi_template_ roms direct_boot_single_rom =
    (if (length roms == 1) && direct_boot_single_rom
      then build_direct_boot_image roms
      else if length roms == 1
      then build_single_image single_template roms
      else build_multi_image multi_template_ roms)
    >>= λ bytes. ok (programmed_bytes bytes)
