-- ===== src/ImageBuilder/SingleRoundTrip.antt =====
-- The image of build_single_image of src/cartridge_image_builder.cpp, and the ROM that
-- src/cartridge_format.cpp reads back from it.
use ezfadvance_iii.Prelude.{
  ℕ, ◌+◌, ◌-◌, ◌/◌, ◌^◌, ◌++◌, refl, ◌≤◌, ◌<◌, ◌≡◌, inl, inr, sym, ◌∙◌, ap, Bool, true, false, List,
  [], ◌∷◌, some, length, length-take, get_or-take, ltb, if◌then◌else◌, Bool-cases, take, drop,
  arith, copy_at, length-copy_at, get_or-copy_at_ne, take-drop-copy_at, ◌⊎◌, All, same_elements,
}
use ezfadvance_iii.Prelude.Bytes.{byte_at, IsByte, IsU32}
use ezfadvance_iii.Prelude.Result.{ok}
use ezfadvance_iii.CartridgeFormat.{
  make_arm_branch, write_le32, read_le32, CatalogEntry, arm_branch_target, reconstruct_ez3_rom,
}
use ezfadvance_iii.CartridgeFormat.Words.{
  length-write_le32, byte_at-write_le32_ne, byte_at-write_le32-read_le32, read_le32-write_le32,
}
use ezfadvance_iii.ImageBuilder.{RomInfo, max_card_image}
use ezfadvance_iii.ImageBuilder.Single.{
  single_loader_place, single_image_size, single_base, single_template, build_single_image,
  single_template_len,
}
use ezfadvance_iii.CartridgeFormat.{erase_overlap}
use ezfadvance_iii.CartridgeFormat.Branches.{
  arm_branch_target-make_arm_branch, make_arm_branch-arm_branch_target,
}
use ezfadvance_iii.CartridgeFormat.Reconstruct.{
  in_loader, restore_ez3_entry_first, length-erase_overlap, byte_at-erase_overlap,
}
use ezfadvance_iii.Catalog.{single, stored_end, parse_catalog}
use ezfadvance_iii.ImageBuilder.Names.{IsMenuName}
use ezfadvance_iii.ImageBuilder.SingleCatalog.{
  entry_of, length-single_template, single_template-parse_catalog,
}
use ezfadvance_iii.ImageBuilder.SingleImage.{
  Built, SomeBuilt, build_single_image-Built, single_image_size-room, length-single_base,
  byte_at-single_base,
}
use ezfadvance_iii.ImageBuilder.SinglePlace.{single_loader_place-Placed, single_loader_place_half}

read_le32-copy_at :
    (start : ℕ) (xs ys : List ℕ) (off : ℕ)
    → off + 4 ≤ start
    → read_le32 (copy_at start xs ys) off ≡ read_le32 ys off
unfolding read_le32
read_le32-copy_at start xs ys off h = omega (
  arith,
  get_or-copy_at_ne start xs ys off 0 (inl (omega arith)),
  get_or-copy_at_ne start xs ys (off + 1) 0 (inl (omega arith)),
  get_or-copy_at_ne start xs ys (off + 2) 0 (inl (omega arith)),
  get_or-copy_at_ne start xs ys (off + 3) 0 (inl (omega arith)),
)

module _ (template : List ℕ) (r : RomInfo) (image : List ℕ) (start : ℕ) (second : Bool) (t : List ℕ)
    (patched : ℕ) (b : Built template r image start second t patched) where
  abbrev total : ℕ
  total = single_image_size r.data_ start (length t) second

  abbrev base : List ℕ
  base = single_base r.data_ total start second

  Built-length : length t ≡ single_template_len
  Built-length = length-single_template template r start t b.entered ∙ b.size

  Built-room : (length r.data_ ≤ total) × (start + length t ≤ total)
  Built-room =
      single_image_size-room r.data_ (length template) start (length t) second b.place
        (omega (arith, Built-length)) b.fits

  Built-image-length : length image ≡ total
  Built-image-length =
      ap length b.made
      ∙ length-copy_at start t (write_le32 base 0 patched)
      ∙ length-write_le32 base 0 patched
      ∙ length-single_base r.data_ total start second

  -- The loader stands at its place.
  Built-loader : take single_template_len (drop start image) ≡ t
  Built-loader =
      let written = write_le32 base 0 patched in
      let room : start + length t ≤ length written = omega (
        arith,
        Built-room,
        length-write_le32 base 0 patched,
        length-single_base r.data_ total start second,
      ) in
      ap (λ v. take single_template_len (drop start v)) b.made
      ∙ ap (λ n. take n (drop start (copy_at start t written))) (sym Built-length)
      ∙ take-drop-copy_at start t written room

  -- From byte 4 on and outside the loader the ROM's bytes are unchanged.
  Built-byte :
      (i : ℕ)
      → 4 ≤ i
      → i < length r.data_
      → (i < start) ⊎ (start + length t ≤ i)
      → byte_at image i ≡ byte_at r.data_ i
  Built-byte i low high outside =
      ap (λ v. byte_at v i) b.made
      ∙ get_or-copy_at_ne start t (write_le32 base 0 patched) i 0 outside
      ∙ byte_at-write_le32_ne base 0 patched i (inr low)
      ∙ byte_at-single_base r.data_ total start second i
          (λ e.
            (let place : single_loader_place r.data_ (length template) ≡ ok (start, true) =
                b.place ∙ ap (λ s. ok (start, s)) e in
              (single_loader_place_half r.data_ (length template) start place).0))
          Built-room.0 high

  -- The first word is a branch to the loader.
  Built-branch : arm_branch_target (read_le32 image 0) ≡ some start
  unfolding make_arm_branch
  Built-branch =
      let written = write_le32 base 0 patched in
      let far : 8 ≤ start = ground (arith, b.branch) in
      let (back, word) = arm_branch_target-make_arm_branch start b.branch in
      let long : 0 + 4 ≤ length base =
        omega (arith, length-single_base r.data_ total start second, Built-room) in
      let kept : read_le32 (copy_at start t written) 0 ≡ read_le32 written 0 =
        read_le32-copy_at start t written 0 (omega arith) in
      ap (λ v. arm_branch_target (read_le32 v 0)) b.made
      ∙ ap arm_branch_target (kept ∙ read_le32-write_le32 base 0 patched long word)
      ∙ back

  -- The part of the image that the reader takes for the ROM, with the loader erased.
  abbrev kept : List ℕ
  kept = erase_overlap (take (length r.data_) image) 0 start single_template_len

  Built-taken-length : length (take (length r.data_) image) ≡ length r.data_
  Built-taken-length =
      omega (arith, length-take (length r.data_) image, Built-image-length, Built-room)

  Built-kept-length : length kept ≡ length r.data_
  Built-kept-length =
      length-erase_overlap (take (length r.data_) image) 0 start single_template_len
      ∙ Built-taken-length

  Built-kept : (i : ℕ) → 4 ≤ i → i < length r.data_ → byte_at kept i ≡ byte_at r.data_ i
  Built-kept i low high =
      let taken = take (length r.data_) image in
      let small : length r.data_ ≤ max_card_image = omega (arith, Built-room, b.fits) in
      let placed =
        single_loader_place-Placed r.data_ (length template) start second small b.place in
      let erased : byte_at kept i
          ≡ (if in_loader (0 + i) start single_template_len then 0xFF else byte_at taken i) =
        byte_at-erase_overlap taken 0 start single_template_len i
          (omega (arith, Built-taken-length)) in
      let same : byte_at taken i ≡ byte_at image i =
        ground (arith, get_or-take (length r.data_) image i 0) in
      elim (Bool-cases (in_loader (0 + i) start single_template_len)) [
        | inl e ↦
            let there : byte_at kept i ≡ 0xFF = rw e at erased in
            let was : byte_at r.data_ i ≡ 0xFF =
              placed.erased i (ground arith) high (ground (arith, b.size)) in
            there ∙ sym was
        | inr e ↦
            let there : byte_at kept i ≡ byte_at taken i = rw e at erased in
            there ∙ same ∙ Built-byte i low high (ground (arith, Built-length))
      ]

  -- The reader gives the ROM back.
  Built-reconstruct :
      (entry : CatalogEntry)
      → All IsByte r.data_
      → 4 ≤ length r.data_
      → arm_branch_target (read_le32 r.data_ 0) ≡ some entry.target_or_start
      → 8 ≤ entry.target_or_start
      → reconstruct_ez3_rom (take (length r.data_) image) entry true 0 start single_template_len
        ≡ (true, r.data_)
  unfolding reconstruct_ez3_rom
  Built-reconstruct entry bytes long decodes far =
      let word = read_le32 r.data_ 0 in
      let encodes : make_arm_branch entry.target_or_start ≡ ok word =
        make_arm_branch-arm_branch_target word decodes far in
      let fits : 4 ≤ length kept = omega (arith, Built-kept-length) in
      let same : write_le32 kept 0 word ≡ r.data_ =
        same_elements 0 (write_le32 kept 0 word) r.data_
          (length-write_le32 kept 0 word ∙ Built-kept-length)
          (λ i lt. elim (Bool-cases (ltb i 4)) [
            | inl e ↦ byte_at-write_le32-read_le32 kept r.data_ i fits bytes (ground arith)
            | inr e ↦
                byte_at-write_le32_ne kept 0 word i (inr (ground arith))
                ∙ Built-kept i (ground arith)
                    (omega (arith, lt, length-write_le32 kept 0 word, Built-kept-length))
          ]) in
      restore_ez3_entry_first kept entry word fits encodes ∙ ap (λ v. (true, v)) same

target-IsU32 :
    (instruction : ℕ) {target : ℕ} → arm_branch_target instruction ≡ some target → IsU32 target
unfolding arm_branch_target
target-IsU32 instruction h = ground arith

class_end :
    (r : RomInfo)
    → r.entry_type ≤ 9
    → length r.data_ ≡ 0x2000000 / 2 ^ r.entry_type
    → 0 < length r.data_
    → length r.data_ ≤ 0x2000000
    → stored_end (entry_of r) 0x2000000 ≡ some (length r.data_ - 1)
unfolding stored_end
class_end r small size some_bytes fits =
    let typed : ltb 9 r.entry_type ≡ false = ground arith in rw (typed, ← size) (ground arith)

-- A single-ROM image that is built fits the 32 MiB card, holds the relocated loader at `start`, and
-- its first word branches there. Take a ROM of the size of its type, from 64 KiB to 32 MiB, whose
-- first word branches to its entry target of at least 8, with a name of one to 16 printable
-- characters that does not end in a space. Then the card reader finds a single-ROM catalog in the
-- loader, whatever the card holds behind it; the one entry has the ROM's name, type, mapping flag
-- and target and starts at 0; the entry's stored extent is the ROM's size; and the reconstruction
-- with that entry gives the ROM back, byte for byte.
pub build_single_image-reconstruct_ez3_rom :
    (template : List ℕ) (rom : RomInfo) (image : List ℕ)
    → build_single_image template (rom ∷ []) ≡ ok image
    → All IsByte rom.data_
    → 4 ≤ length rom.data_
    → arm_branch_target (read_le32 rom.data_ 0) ≡ some rom.original_entry_target
    → 8 ≤ rom.original_entry_target
    → IsMenuName rom.name
    → IsByte rom.mapping_flag
    → rom.entry_type ≤ 9
    → length rom.data_ ≡ 0x2000000 / 2 ^ rom.entry_type
    → (start : ℕ) × (single_template template (record rom { start = 0 }) start
        ≡ ok (take single_template_len (drop start image)))
      × (arm_branch_target (read_le32 image 0) ≡ some start)
      × (length image ≤ max_card_image)
      × ((behind : List ℕ)
          → parse_catalog (take single_template_len (drop start image) ++ behind) 0x2000000
            ≡ ok (some (record { kind = single; entries = entry_of rom ∷ [] })))
      × (stored_end (entry_of rom) 0x2000000 ≡ some (length rom.data_ - 1))
      × (reconstruct_ez3_rom
            (take (length rom.data_) image)
            (entry_of rom)
            true
            0
            start
            single_template_len
          ≡ (true, rom.data_))
unfolding SomeBuilt
build_single_image-reconstruct_ez3_rom template rom image h bytes long decodes far name flag_ok
      type_ok size =
    let (start, second, t, patched, b) = build_single_image-Built template rom image h in
    let r = record rom { start = 0 } in
    let loader = Built-loader template r image start second t patched b in
    (
      start,
      b.entered ∙ ap ok (sym loader),
      Built-branch template r image start second t patched b,
      omega (arith, Built-image-length template r image start second t patched b, b.fits),
      λ behind.
          ap (λ l. parse_catalog (l ++ behind) 0x2000000) loader
          ∙ single_template-parse_catalog template r start t behind b.entered b.size refl name
              (omega arith) flag_ok (target-IsU32 (read_le32 rom.data_ 0) decodes),
      class_end rom type_ok size (omega arith)
          (omega (arith, Built-room template r image start second t patched b, b.fits)),
      Built-reconstruct template r image start second t patched b (entry_of rom) bytes long decodes
          far,
    )
