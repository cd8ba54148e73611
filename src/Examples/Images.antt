-- ===== src/Examples/Images.antt =====
-- Building images and reading them back, on concrete inputs.
use ezfadvance_iii.Prelude.{
  ℕ, zero, suc, ◌+◌, ◌-◌, length-replicate, ◌≤◌, ◌<◌, ◌≡◌, ◌⊎◌, refl, true, false, some, Bool, List,
  [], ◌∷◌, ◌++◌, All, length, replicate, take, drop, min, max, map, arith,
}
use ezfadvance_iii.Prelude.Bits.{low_bits}
use ezfadvance_iii.Prelude.Bytes.{byte_at, IsByte}
use ezfadvance_iii.Prelude.Text.{codes}
use ezfadvance_iii.Prelude.Result.{Result, ok, err}
use ezfadvance_iii.CartridgeFormat.{
  read_le32, write_le32, arm_branch_target, make_arm_branch, reconstruct_ez3_rom,
}
use ezfadvance_iii.Catalog.{parse_entry, parse_catalog, stored_end, single}
use ezfadvance_iii.ImageBuilder.{
  RomInfo, BuildError, align_up_u32, meaningful_rom_end, find_internal_ff_loader_slot,
  relocate_template, write_le16, write_catalog_entry, multi_template_len, max_card_image,
  next_power_of_two_u32, multi_rom_size_class_alignment, align_up_u64,
}
use ezfadvance_iii.ImageBuilder.Single.{
  single_loader_place, single_image_size, single_base, finish_single, single_template,
  build_single_image, single_template_len,
}
use ezfadvance_iii.ImageBuilder.SingleRoundTrip.{build_single_image-reconstruct_ez3_rom}
use ezfadvance_iii.ImageBuilder.Entries.{parse_entry-write_catalog_entry}
use ezfadvance_iii.ImageBuilder.Names.{IsMenuName}
use ezfadvance_iii.ImageBuilder.SingleCatalog.{entry_of}
use ezfadvance_iii.ImageBuilder.Search.{FirstSlot, find_internal_ff_loader_slot_first}
use ezfadvance_iii.ImageBuilder.SizeClass.{next_power_of_two_u32_least}
use ezfadvance_iii.ImageBuilder.Multi.{place_roms, base_image_size, copy_roms}
use ezfadvance_iii.ImageBuilder.Packing.{Separate, Stands, copy_roms-place_roms}

abbrev is_ok : Result BuildError (List ℕ) → Bool
is_ok (ok bytes) = true
is_ok (err e) = false

abbrev from_ok : Result BuildError (List ℕ) → List ℕ
from_ok (ok bytes) = bytes
from_ok (err e) = []

is_ok-from_ok : (r : Result BuildError (List ℕ)) → is_ok r ≡ true → r ≡ ok (from_ok r)
is_ok-from_ok (ok bytes) h = refl
is_ok-from_ok (err e) h = absurd (cc)

-- A template with the 13 words that are relocated.
abbrev relocated_words : ℕ → List ℕ
relocated_words zero = []
relocated_words (suc n) = 0xB0 ∷ 0xD3 ∷ 0x00 ∷ 0x08 ∷ relocated_words n

abbrev template : List ℕ
template = relocated_words 13 ++ replicate 1580 0

-- A ROM of 64 KiB that branches to 0xC0.
abbrev small_rom : RomInfo
small_rom = record {
  path = codes "a.gba";
  name = codes "A";
  data_ = 0x2E ∷ 0x00 ∷ 0x00 ∷ 0xEA ∷ replicate 65532 1;
  start = 0;
  original_entry_target = 0xC0;
  entry_type = 9;
  entry_type_overridden = false;
  mapping_flag = 3;
  mapping_flag_overridden = false;
}

builds : is_ok (build_single_image template (small_rom ∷ [])) ≡ true
unfolding build_single_image single_loader_place single_image_size single_base finish_single
    single_template align_up_u32 meaningful_rom_end find_internal_ff_loader_slot relocate_template
    write_le16 write_catalog_entry write_le32 read_le32 make_arm_branch
builds = refl

abbrev built : List ℕ
built = from_ok (build_single_image template (small_rom ∷ []))

small_target : arm_branch_target (read_le32 small_rom.data_ 0) ≡ some 0xC0
unfolding arm_branch_target read_le32
small_target = refl

ones : (n : ℕ) → All IsByte (replicate n 1)
ones zero = tt
ones (suc n) = (omega arith, ones n)

small_bytes : All IsByte small_rom.data_
small_bytes = (omega arith, (omega arith, (omega arith, (omega arith, ones 65532))))

small_size : length small_rom.data_ ≡ 65536
small_size = omega (arith, length-replicate {A = ℕ} 65532 1)

small_name : IsMenuName small_rom.name
small_name = record {
  front = [];
  last = b'A';
  ends = refl;
  no_space = λ e. omega arith;
  all_printable = ((omega arith, omega arith), tt);
  short = omega arith;
}

build_single_image-reconstruct_ez3_rom_example :
    (start : ℕ) × (single_template template small_rom start
      ≡ ok (take single_template_len (drop start built)))
    × (arm_branch_target (read_le32 built 0) ≡ some start)
    × (length built ≤ max_card_image)
    × ((behind : List ℕ)
        → parse_catalog (take single_template_len (drop start built) ++ behind) 0x2000000
          ≡ ok (some (record { kind = single; entries = entry_of small_rom ∷ [] })))
    × (stored_end (entry_of small_rom) 0x2000000 ≡ some (length small_rom.data_ - 1))
    × (reconstruct_ez3_rom
          (take (length small_rom.data_) built)
          (entry_of small_rom)
          true
          0
          start
          single_template_len
        ≡ (true, small_rom.data_))
build_single_image-reconstruct_ez3_rom_example =
    build_single_image-reconstruct_ez3_rom template small_rom built
      (is_ok-from_ok (build_single_image template (small_rom ∷ [])) builds) small_bytes
      (omega (arith, small_size)) small_target (omega arith) small_name (omega arith) (omega arith)
      small_size

abbrev blank : List ℕ
blank = replicate 40 0xFF

abbrev entered : List ℕ
entered = from_ok (write_catalog_entry blank 4 small_rom true)

enters : is_ok (write_catalog_entry blank 4 small_rom true) ≡ true
unfolding write_catalog_entry write_le32
enters = refl

parse_entry-write_catalog_entry_example :
    (parse_entry entered 4 true
      ≡ ok (record {
        name = codes "A";
        type = 9;
        packed_start = 3;
        mapping = 3;
        start = 0;
        target_or_start = 0xC0;
      }))
    × ((j : ℕ) → (j < 4) ⊎ (4 + 28 ≤ j) → byte_at entered j ≡ byte_at blank j)
parse_entry-write_catalog_entry_example =
    parse_entry-write_catalog_entry blank entered 4 small_rom true
      (is_ok-from_ok (write_catalog_entry blank 4 small_rom true) enters) small_name (omega arith)
      (omega arith) refl (omega arith) (omega arith)

-- A ROM with an erased run behind its header.
abbrev gapped : List ℕ
gapped = replicate 0xC4 0 ++ replicate 0x7100 0xFF

find_internal_ff_loader_slot_first_example :
    FirstSlot 1
      (max 0x660 multi_template_len)
      gapped
      0xC0
      (min (length gapped) max_card_image)
      (find_internal_ff_loader_slot gapped 0x660)
find_internal_ff_loader_slot_first_example = find_internal_ff_loader_slot_first gapped 0x660

next_power_of_two_u32_least_example :
    (k : ℕ) × (k ≤ 31)
    × (next_power_of_two_u32 0x18000 ≡ low_bits k)
    × (0x18000 ≤ low_bits k)
    × ((j : ℕ) → 0x18000 ≤ low_bits j → low_bits k ≤ low_bits j)
next_power_of_two_u32_least_example = next_power_of_two_u32_least 0x18000 (omega arith)

abbrev two_roms : List RomInfo
two_roms = small_rom ∷ small_rom ∷ []

abbrev two_placed : List RomInfo
two_placed = small_rom ∷ record small_rom { start = 0x10000 } ∷ []

places : place_roms true 0 two_roms ≡ ok two_placed
unfolding place_roms multi_rom_size_class_alignment next_power_of_two_u32 align_up_u64
    meaningful_rom_end
places = refl

copy_roms-place_roms_example :
    (image : List ℕ) × (occupied : List Bool) × (copy_roms two_placed
        (replicate (base_image_size two_placed) 0xFF)
        (replicate (base_image_size two_placed) false)
      ≡ ok (image, occupied))
    × (map (λ r. r.data_) two_placed ≡ map (λ r. r.data_) two_roms)
    × Separate 0 two_placed
    × All (λ r. r.start + length r.data_ ≤ max_card_image) two_placed
    × All (Stands image) two_placed
copy_roms-place_roms_example = copy_roms-place_roms two_roms two_placed places
