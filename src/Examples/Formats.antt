-- ===== src/Examples/Formats.antt =====
-- Branches, headers, catalog entries and command lines, on concrete inputs.
use ezfadvance_iii.Prelude.{
  ℕ, zero, suc, ◌+◌, ◌%◌, ◌/◌, ◌≤◌, ◌<◌, ◌≡◌, ◌≢◌, ◌⊎◌, ◌↔◌, refl, true, false, none, some, List,
  [], ◌∷◌, All, length, replicate, get_elem?, if◌then◌else◌, arith,
}
use ezfadvance_iii.Prelude.Bytes.{IsByte, IsU32, byte_at}
use ezfadvance_iii.Prelude.Text.{codes}
use ezfadvance_iii.Prelude.Result.{ok}
use ezfadvance_iii.CartridgeFormat.{
  CatalogEntry, read_le32, arm_branch_target, make_arm_branch, gba_header_checksum_valid,
  reconstruct_ez3_rom,
}
use ezfadvance_iii.CartridgeFormat.Branches.{arm_branch_target-make_arm_branch}
use ezfadvance_iii.CartridgeFormat.Checksum.{byte_sum, gba_header_checksum_valid_iff}
use ezfadvance_iii.CartridgeFormat.Reconstruct.{
  in_loader, reconstruct_ez3_rom_first, reconstruct_ez3_rom_later,
}
use ezfadvance_iii.Catalog.{Layout, stored_end, allocation_end, parse_catalog}
use ezfadvance_iii.Catalog.Allocation.{Extent, allocation_end-Extent, allocation_end_disjoint}
use ezfadvance_iii.Catalog.Parsing.{Accepted, parse_catalog_total}

abbrev rom : List ℕ
rom = 1 ∷ 2 ∷ 3 ∷ 4 ∷ 5 ∷ 6 ∷ 7 ∷ 8 ∷ []

abbrev entry_at : ℕ → ℕ → CatalogEntry
entry_at type start = record {
  name = codes "GAME";
  type = type;
  mapping = 0;
  packed_start = start / 8;
  start = start;
  target_or_start = 0xC0;
}

branch_of : make_arm_branch 0xC0 ≡ ok 0xEA00_002E
unfolding make_arm_branch
branch_of = refl

target_of : arm_branch_target 0xEA00_002E ≡ some 0xC0
unfolding arm_branch_target
target_of = refl

reconstruct_ez3_rom_first_example :
    let (done, rebuilt) = reconstruct_ez3_rom rom (entry_at 5 0) true 0 6 4 in
    (done ≡ true)
    × (length rebuilt ≡ 8)
    × (arm_branch_target (read_le32 rebuilt 0) ≡ some 0xC0)
    × ((i : ℕ)
        → 4 ≤ i
        → i < 8
        → byte_at rebuilt i ≡ (if in_loader (0 + i) 6 4 then 0xFF else byte_at rom i))
reconstruct_ez3_rom_first_example =
    reconstruct_ez3_rom_first rom 0 6 4 (entry_at 5 0) 0xEA00_002E (omega arith) branch_of

reconstruct_ez3_rom_later_example :
    let (done, rebuilt) = reconstruct_ez3_rom rom (entry_at 5 0x100) false 0x100 0x104 2 in
    (done ≡ true)
    × (length rebuilt ≡ 8)
    × ((i : ℕ)
        → i < 8
        → byte_at rebuilt i ≡ (if in_loader (0x100 + i) 0x104 2 then 0xFF else byte_at rom i))
reconstruct_ez3_rom_later_example = reconstruct_ez3_rom_later rom 0x100 0x104 2 (entry_at 5 0x100)

arm_branch_target-make_arm_branch_example :
    (arm_branch_target 0xEA00_002E ≡ some 0xC0) × IsU32 0xEA00_002E
arm_branch_target-make_arm_branch_example = arm_branch_target-make_arm_branch 0xC0 branch_of

abbrev blank_header : List ℕ
blank_header = replicate 0xC0 0

bytes_of_zeros : (n : ℕ) → All IsByte (replicate n 0)
bytes_of_zeros zero = tt
bytes_of_zeros (suc n) = (omega arith, bytes_of_zeros n)

gba_header_checksum_valid_iff_example :
    (gba_header_checksum_valid blank_header ≡ true)
    ↔ ((byte_sum 29 0xA0 blank_header + 0x19 + byte_at blank_header 0xBD) % 256 ≡ 0)
gba_header_checksum_valid_iff_example =
    gba_header_checksum_valid_iff blank_header (bytes_of_zeros 0xC0) (omega arith)

-- Two ROMs of 1 MiB.
abbrev two_entries : List CatalogEntry
two_entries = entry_at 5 0 ∷ entry_at 5 0x10_0000 ∷ []

two_words : (i : ℕ) (e : CatalogEntry) → get_elem? two_entries i ≡ some e → IsU32 e.start
two_words zero e h = ground arith
two_words (suc zero) e h = ground arith
two_words (suc (suc i)) e h = absurd (let k = h in cc)

allocation_end-Extent_example :
    Extent (entry_at 5 0) (get_elem? two_entries 1) 0x20_0000 0x200_0000 0x10_0000
unfolding allocation_end stored_end
allocation_end-Extent_example =
    allocation_end-Extent two_entries 0 0x20_0000 0x200_0000 0x10_0000 (entry_at 5 0) refl
      (omega arith) (omega arith) refl

none_between : (k : ℕ) → 0 < k → k < 1 → allocation_end two_entries k 0x20_0000 0x200_0000 ≢ none
none_between k low high = absurd (omega arith)

allocation_end_disjoint_example : 0x10_0000 ≤ 0x10_0000
unfolding allocation_end stored_end
allocation_end_disjoint_example =
    allocation_end_disjoint two_entries 0x20_0000 0x200_0000 (omega arith) two_words 1 0 0x10_0000
      (entry_at 5 0x10_0000) (omega arith) refl none_between refl

-- A loader without a catalog.
abbrev plain_loader : List ℕ
plain_loader = replicate 0x600 0

parse_catalog_total_example :
    (parse_catalog plain_loader 0x200_0000 ≡ ok none)
    ⊎ ((layout : Layout) × (parse_catalog plain_loader 0x200_0000 ≡ ok (some layout))
        × (◌≢◌ {A = ℕ} 0x200_0000 0)
        × Accepted plain_loader 0x200_0000 layout)
parse_catalog_total_example = parse_catalog_total plain_loader 0x200_0000
