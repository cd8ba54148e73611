-- ===== src/Catalog/Single.antt =====
-- A single-ROM loader for Ez3CatalogParser::parse of src/ez3_catalog.cpp.
use ezfadvance_iii.Prelude.{
  ℕ, ◌-◌, ◌/◌, ◌≤◌, ◌≡◌, ◌≢◌, refl, true, false, some, List, [], ◌∷◌, length, ltb, leb, ◌==◌, arith,
}
use ezfadvance_iii.Prelude.Result.{ok}
use ezfadvance_iii.CartridgeFormat.{CatalogEntry, read_le16}
use ezfadvance_iii.Catalog.{
  single, parse_entry, plausible, entries_loop, parse_entries, parse_catalog, single_entry_offset,
}

module _ (loader : List ℕ) (image_limit : ℕ) (entry : CatalogEntry) (long : 0x514 ≤ length loader)
    (parsed : parse_entry loader single_entry_offset true ≡ ok entry)
    (good : plausible entry image_limit true ≡ true) where
  parse_entries-single :
      parse_entries single loader single_entry_offset 1 image_limit
      ≡ ok (some (record { kind = single; entries = entry ∷ [] }))
  unfolding parse_entries entries_loop
  parse_entries-single =
      let a : ltb (length loader) 0x4F8 ≡ false = ground arith in
      let b : ltb ((length loader - 0x4F8) / 28) 1 ≡ false = ground arith in
      rw (a, b, parsed, good) refl

  -- A loader with both single-ROM counts and a plausible entry has just that entry.
  pub parse_catalog-single :
      image_limit ≢ 0
      → read_le16 loader 0x4E8 ≡ 1
      → read_le16 loader 0x4F6 ≡ 1
      → parse_catalog loader image_limit
        ≡ ok (some (record { kind = single; entries = entry ∷ [] }))
  unfolding parse_catalog
  parse_catalog-single positive first second =
      let a : (image_limit == 0) ≡ false = ground arith in
      let b : leb 0x514 (length loader) ≡ true = ground arith in
      rw (a, b, first, second, parse_entries-single) refl
