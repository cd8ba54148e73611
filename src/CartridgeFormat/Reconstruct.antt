-- ===== src/CartridgeFormat/Reconstruct.antt =====
-- reconstructEz3Rom and restoreEz3Entry of src/cartridge_format.cpp.
use ezfadvance_iii.Prelude.{
  ℕ, ◌+◌, ◌-◌, ◌≤◌, ◌<◌, ◌≡◌, inr, refl, ◌∙◌, some, Bool, true, false, ◌&&◌, List, length,
  length-fill, get_or-fill, if◌then◌else◌, ltb, leb, min, max, arith,
}
use ezfadvance_iii.Prelude.Bytes.{byte_at}
use ezfadvance_iii.Prelude.Result.{ok}
use ezfadvance_iii.CartridgeFormat.{
  CatalogEntry, arm_branch_target, make_arm_branch, write_le32, read_le32, erase_overlap,
  restore_ez3_entry, reconstruct_ez3_rom,
}
use ezfadvance_iii.CartridgeFormat.Branches.{arm_branch_target-make_arm_branch}
use ezfadvance_iii.CartridgeFormat.Words.{
  length-write_le32, byte_at-write_le32_ne, read_le32-write_le32,
}

-- Whether the cartridge address of byte `i` lies in the loader.
abbrev pub in_loader : ℕ → ℕ → ℕ → Bool
in_loader address loader_start loader_length =
    leb loader_start address && ltb address (loader_start + loader_length)

pub restore_ez3_entry_first :
    (rom : List ℕ) (entry : CatalogEntry) (instruction : ℕ)
    → 4 ≤ length rom
    → make_arm_branch entry.target_or_start ≡ ok instruction
    → restore_ez3_entry rom entry true ≡ (true, write_le32 rom 0 instruction)
unfolding restore_ez3_entry
restore_ez3_entry_first rom entry instruction long h = ground arith

module _ (rom : List ℕ) (rom_start loader_start loader_length : ℕ) where
  pub length-erase_overlap :
      length (erase_overlap rom rom_start loader_start loader_length) ≡ length rom
  unfolding erase_overlap
  length-erase_overlap = ground (
    arith,
    length-fill (max rom_start loader_start - rom_start)
        (min (rom_start + length rom) (loader_start + loader_length) - max rom_start loader_start)
        0xFF rom,
  )

  pub byte_at-erase_overlap :
      (i : ℕ)
      → i < length rom
      → byte_at (erase_overlap rom rom_start loader_start loader_length) i
        ≡ (if in_loader (rom_start + i) loader_start loader_length then 0xFF else byte_at rom i)
  unfolding erase_overlap
  byte_at-erase_overlap i h = ground (
    arith,
    get_or-fill (max rom_start loader_start - rom_start)
        (min (rom_start + length rom) (loader_start + loader_length) - max rom_start loader_start)
        0xFF rom i 0,
  )

  -- A later ROM: the reconstruction succeeds, keeps the length, erases exactly the bytes whose
  -- cartridge address lies in the loader, and changes no other byte.
  pub reconstruct_ez3_rom_later :
      (entry : CatalogEntry)
      → let (done, rebuilt) =
          reconstruct_ez3_rom rom entry false rom_start loader_start loader_length in
        (done ≡ true)
        × (length rebuilt ≡ length rom)
        × ((i : ℕ)
            → i < length rom
            → byte_at rebuilt i ≡ (
                if in_loader (rom_start + i) loader_start loader_length
                then 0xFF
                else byte_at rom i))
  unfolding reconstruct_ez3_rom restore_ez3_entry
  reconstruct_ez3_rom_later entry = (refl, length-erase_overlap, byte_at-erase_overlap)

  -- The first ROM, of at least four bytes, with an entry target that a branch can encode: the
  -- reconstruction succeeds, the first word decodes to a branch to the entry target, and from byte
  -- 4 on the bytes in the loader are erased and the others kept.
  pub reconstruct_ez3_rom_first :
      (entry : CatalogEntry) (instruction : ℕ)
      → 4 ≤ length rom
      → make_arm_branch entry.target_or_start ≡ ok instruction
      → let (done, rebuilt) =
          reconstruct_ez3_rom rom entry true rom_start loader_start loader_length in
        (done ≡ true)
        × (length rebuilt ≡ length rom)
        × (arm_branch_target (read_le32 rebuilt 0) ≡ some entry.target_or_start)
        × ((i : ℕ)
            → 4 ≤ i
            → i < length rom
            → byte_at rebuilt i ≡ (
                if in_loader (rom_start + i) loader_start loader_length
                then 0xFF
                else byte_at rom i))
  unfolding reconstruct_ez3_rom
  reconstruct_ez3_rom_first entry instruction long h =
      let kept = erase_overlap rom rom_start loader_start loader_length in
      let fits : 4 ≤ length kept = rw length-erase_overlap long in
      let (target, word) = arm_branch_target-make_arm_branch entry.target_or_start h in
      rw (restore_ez3_entry_first kept entry instruction fits) (
        refl,
        length-write_le32 kept 0 instruction ∙ length-erase_overlap,
        rw (read_le32-write_le32 kept 0 instruction fits word) target,
        λ i low high.
            byte_at-write_le32_ne kept 0 instruction i (inr low) ∙ byte_at-erase_overlap i high,
      )
