-- ===== src/Catalog.antt =====
-- The ROM header and the EZ3 loader catalog: GbaHeader and CatalogEntry of
-- src/cartridge_format.cpp, Ez3CatalogLayout and Ez3CatalogParser of src/ez3_catalog.cpp.
pub mod Allocation
pub mod Parsing
pub mod Single
use ezfadvance_iii.Prelude.{
  ℕ, zero, suc, ◌+◌, ◌-◌, ◌*◌, ◌/◌, ◌%◌, ◌^◌, Bool, true, false, not, ◌&&◌, ◌||◌, Option, none,
  some, List, [], ◌∷◌, ◌++◌, ltb, leb, ◌==◌, ◌!=◌, if◌then◌else◌, length, get_elem?,
}
use ezfadvance_iii.Prelude.Bytes.{byte_at, u8, u32}
use ezfadvance_iii.Prelude.Result.{Result, ok, err, ◌>>=◌}
use ezfadvance_iii.CartridgeFormat.{
  CatalogEntry, read_le16, read_le32, clean_ascii, gba_header_checksum_valid,
}

pub record GbaHeader : Type 0 where
  pub readable : Bool
  pub checksum_ok : Bool
  pub title : List ℕ
  pub game_code : List ℕ
  pub maker_code : List ℕ
  pub version : ℕ

abbrev pub no_header : GbaHeader
no_header = record {
  readable = false;
  checksum_ok = false;
  title = [];
  game_code = [];
  maker_code = [];
  version = 0;
}

-- `GbaHeader::parse`
unfoldable pub parse_gba_header : List ℕ → GbaHeader
parse_gba_header bytes = if ltb (length bytes) 0xC0 then no_header else record {
  readable = true;
  title = clean_ascii bytes 0xA0 12;
  game_code = clean_ascii bytes 0xAC 4;
  maker_code = clean_ascii bytes 0xB0 2;
  version = byte_at bytes 0xBC;
  checksum_ok = gba_header_checksum_valid bytes;
}

-- The `std::runtime_error` of `CatalogEntry::parse`.
pub data EntryError : Type 0 where
  outside_loader : EntryError

-- The fields that `CatalogEntry::parse` reads at an offset.
unfoldable pub entry_fields : List ℕ → ℕ → Bool → CatalogEntry
entry_fields loader offset first =
    let packed = read_le32 loader (offset + 20) in
    record {
      name = clean_ascii loader offset 16;
      type = u8 (read_le32 loader (offset + 16) / 2 ^ 24);
      packed_start = packed;
      mapping = packed % 256;
      start = if first then 0 else u32 (packed / 2 ^ 8 * 2);
      target_or_start = read_le32 loader (offset + 24);
    }

-- `CatalogEntry::parse`
unfoldable pub parse_entry : List ℕ → ℕ → Bool → Result EntryError CatalogEntry
parse_entry loader offset first =
    if ltb (length loader) (offset + 28)
    then err outside_loader
    else ok (entry_fields loader offset first)

abbrev is_empty : List ℕ → Bool
is_empty [] = true
is_empty (c ∷ name) = false

unfoldable pub plausible : CatalogEntry → ℕ → Bool → Bool
plausible entry image_limit first =
    if is_empty entry.name || leb image_limit entry.start
    then false
    else (first || (entry.start % 2 ^ 16 == 0))

-- `size_class - 1` wraps in uint64_t when the class is 0.
unfoldable pub stored_end : CatalogEntry → ℕ → Option ℕ
stored_end entry image_limit =
    if ltb 9 entry.type
    then none
    else let end = (entry.start + image_limit / 2 ^ entry.type + 2 ^ 64 - 1) % 2 ^ 64 in
      if leb image_limit end then none else some (u32 end)

pub data CatalogKind : Type 0 where
  single multi : CatalogKind

pub record Layout : Type 0 where
  pub kind : CatalogKind
  pub entries : List CatalogEntry

abbrev nonempty_span : ℕ → ℕ → Option ℕ
nonempty_span start end = if ltb start end then some end else none

-- The branches of `allocationEnd` on the following entry, from `end = *stored_end + 1` on.
bounded_end : ℕ → ℕ → ℕ → Option CatalogEntry → Option ℕ
bounded_end start end loader_start (some next) =
    if leb next.start start
    then none
    else nonempty_span start (if ltb next.start end then next.start else end)
bounded_end start end loader_start none =
    nonempty_span start
      (if ltb start loader_start && ltb loader_start end then loader_start else end)

entry_end : CatalogEntry → Option CatalogEntry → ℕ → ℕ → Option ℕ
unfolding bounded_end
entry_end entry next loader_start image_limit = elim (stored_end entry image_limit) [
  | none ↦ none
  | some stored ↦ bounded_end entry.start (u32 (stored + 1)) loader_start next
]

-- `Ez3CatalogLayout::allocationEnd`
unfoldable pub allocation_end : List CatalogEntry → ℕ → ℕ → ℕ → Option ℕ
unfolding entry_end
allocation_end entries index loader_start image_limit = elim (get_elem? entries index) [
  | none ↦ none
  | some entry ↦ entry_end entry (get_elem? entries (index + 1)) loader_start image_limit
]

abbrev pub entry_size : ℕ
entry_size = 28

abbrev pub structural_slot_count : ℕ
structural_slot_count = 120

-- The loop of `parseEntries` with `left` rounds to go.
entries_loop :
    ℕ → ℕ → List ℕ → ℕ → ℕ → List CatalogEntry → Result EntryError (Option (List CatalogEntry))
entries_loop zero index loader entry_offset image_limit entries = ok (some entries)
entries_loop (suc left) index loader entry_offset image_limit entries =
    parse_entry loader (entry_offset + index * entry_size) (index == 0) >>= λ entry.
    let rest =
      entries_loop left (index + 1) loader entry_offset image_limit (entries ++ (entry ∷ [])) in
    if plausible entry image_limit (index == 0) then rest else ok none

abbrev as_layout : CatalogKind → Option (List CatalogEntry) → Option Layout
as_layout kind none = none
as_layout kind (some entries) = some (record { kind = kind; entries = entries })

unfoldable pub parse_entries : CatalogKind → List ℕ → ℕ → ℕ → ℕ → Result EntryError (Option Layout)
unfolding entries_loop
parse_entries kind loader entry_offset count image_limit =
    if count == 0
      || ltb structural_slot_count count
      || ltb (length loader) entry_offset
      || ltb ((length loader - entry_offset) / entry_size) count
    then ok none
    else (entries_loop count 0 loader entry_offset image_limit [] >>= λ found.
        ok (as_layout kind found))

abbrev pub single_entry_offset : ℕ
single_entry_offset = 0x4F8

abbrev pub multi_entry_offset : ℕ
multi_entry_offset = 0x476E

-- From the test of the multi-ROM header on.
parse_multi : List ℕ → ℕ → Result EntryError (Option Layout)
parse_multi loader image_limit =
    if ltb (length loader) (0x475E + 16)
    then ok none
    else let count = read_le16 loader 0x475E in
      if ltb count 2 || ltb structural_slot_count count || (count != read_le16 loader (0x475E + 14))
      then ok none
      else parse_entries multi loader multi_entry_offset count image_limit

abbrev or_else :
    Result EntryError (Option Layout)
    → Result EntryError (Option Layout)
    → Result EntryError (Option Layout)
or_else (ok (some layout)) other = ok (some layout)
or_else (ok none) other = other
or_else (err e) other = err e

-- `Ez3CatalogParser::parse`
unfoldable pub parse_catalog : List ℕ → ℕ → Result EntryError (Option Layout)
unfolding parse_multi
parse_catalog loader image_limit =
    if image_limit == 0
    then ok none
    else if leb (single_entry_offset + entry_size) (length loader)
        && (read_le16 loader 0x4E8 == 1)
        && (read_le16 loader 0x4F6 == 1)
    then or_else (parse_entries single loader single_entry_offset 1 image_limit)
        (parse_multi loader image_limit)
    else parse_multi loader image_limit
