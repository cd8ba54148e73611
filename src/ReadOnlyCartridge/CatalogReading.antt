-- ===== src/ReadOnlyCartridge/CatalogReading.antt =====
-- What the catalog reader of src/ez3_catalog_reader.cpp returns.
use ezfadvance_iii.Prelude.{
  ℕ, ◌<◌, ◌≤◌, ◌+◌, ◌-◌, ◌/◌, ◌%◌, ◌≡◌, ◌≢◌, refl, inl, inr, Bool, true, false, ◌||◌, Bool-cases,
  Option, none, some, List, [], leb, ltb, length, arith, min,
}
use ezfadvance_iii.Prelude.Bytes.{u32, IsU32}
use ezfadvance_iii.Prelude.Result.{Result, ok}
use ezfadvance_iii.CartridgeFormat.{arm_branch_target, read_le32}
use ezfadvance_iii.Catalog.{Layout}
use ezfadvance_iii.Catalog.Parsing.{Accepted, parse_catalog_total}
use ezfadvance_iii.Usb.{World}
use ezfadvance_iii.ReadOnlyCartridge.{
  Session, CartridgeError, CatalogRead, loaded, read_failed, read, read_pieces,
  prepare_linear_for_address, loader_from, read_loader, parsed, at_branch, read_catalog, no_catalog,
  probe_of, read_arm_branch,
}
use ezfadvance_iii.ReadOnlyCartridge.Mapping.{Mapping, prepare_linear_for_address-Mapping}

even_target :
    (instruction : ℕ) {target : ℕ} → arm_branch_target instruction ≡ some target → target % 2 ≡ 0
unfolding arm_branch_target
even_target instruction h = ground arith

read_even :
    (address n : ℕ) (s : Session)
    → address % 2 ≡ 0
    → (output : Option (List ℕ)) × (w : World) × (read address n s
        ≡ ok (output, record s { world = w }))
unfolding read
read_even address n s even =
    let (output, w) = read_pieces address n (n / 0x10000 + 1) 0 [] s.world in
    (output, w, rw even refl)

-- A catalog that the reader has loaded: its loader starts within the image, behind the header,
-- was read whole below the mapped limit, parses to the catalog, and the catalog has no more
-- entries than asked.
pub record IsLoaded (image_limit entry_limit : ℕ) (result : CatalogRead) (s : Session)
    : Type 0 where
  pub layout : Layout
  pub loader : List ℕ
  pub before : Session
  pub read_length : ℕ
  pub with_status : result.status ≡ loaded
  pub with_layout : result.catalog ≡ some layout
  pub behind_header : 0xC0 ≤ result.loader_start
  pub inside : result.loader_start + read_length ≤ image_limit
  pub not_empty : 0 < read_length
  pub last : result.loader_end ≡ result.loader_start + (read_length - 1)
  pub is_mapped : result.loader_end < s.linear_read_limit
  pub was_read : read result.loader_start read_length before ≡ ok (some loader, s)
  pub accepted : Accepted loader image_limit layout
  pub few_enough : length layout.entries ≤ entry_limit

-- What a run of the catalog reader comes to.
pub data Outcome (image_limit entry_limit : ℕ)
    : Result CartridgeError (CatalogRead × Session) → Type 0 where
  was_loaded :
      {result : CatalogRead} {s : Session}
      → IsLoaded image_limit entry_limit result s
      → Outcome image_limit entry_limit (ok (result, s))
  not_loaded :
      {result : CatalogRead} {s : Session}
      → result.status ≢ loaded
      → result.catalog ≡ none
      → Outcome image_limit entry_limit (ok (result, s))

is_ready :
    {address : ℕ} {s : Session} (s1 : Session)
    → Mapping address s (true, s1)
    → address < s1.linear_read_limit
is_ready s1 (Mapping.mapped_before small h) = h
is_ready s1 (Mapping.mapped_now words e h run) = omega (arith, e)

module _ (image_limit entry_limit : ℕ) where
  -- The end of a read whose loader is `loader`.
  loader_known :
      (result : CatalogRead) (n : ℕ) (before s : Session) (loader : List ℕ)
      → result.status ≡ read_failed
      → result.catalog ≡ none
      → 0xC0 ≤ result.loader_start
      → result.loader_start + n ≤ image_limit
      → 0 < n
      → result.loader_end ≡ result.loader_start + (n - 1)
      → result.loader_end < s.linear_read_limit
      → read result.loader_start n before ≡ ok (some loader, s)
      → Outcome image_limit entry_limit (parsed image_limit entry_limit result (some loader, s))
  unfolding parsed
  loader_known result n before s loader failed_ none_ header inside positive last mapped e =
      elim (parse_catalog_total loader image_limit) [
        | inl p ↦ rw p (Outcome.not_loaded (λ q. cc) none_)
        | inr (layout, p, nonzero, accepted) ↦
            elim (Bool-cases (ltb entry_limit (length layout.entries))) [
              | inl q ↦ rw (p, q) (Outcome.not_loaded (λ r. cc) none_)
              | inr q ↦
                  rw (p, q)
                    (Outcome.was_loaded (record {
                      layout = layout;
                      loader = loader;
                      before = before;
                      read_length = n;
                      with_status = refl;
                      with_layout = refl;
                      behind_header = header;
                      inside = inside;
                      not_empty = positive;
                      last = last;
                      is_mapped = mapped;
                      was_read = e;
                      accepted = accepted;
                      few_enough = ground arith;
                    }))
            ]
      ]

  -- The read of the loader, when its last address is mapped or not.
  loader_from-Outcome :
      (result : CatalogRead) (n : ℕ) (s : Session) (got : Bool × Session)
      → result.status ≡ read_failed
      → result.catalog ≡ none
      → 0xC0 ≤ result.loader_start
      → result.loader_start % 2 ≡ 0
      → result.loader_start + n ≤ image_limit
      → 0 < n
      → result.loader_end ≡ result.loader_start + (n - 1)
      → Mapping result.loader_end s got
      → Outcome image_limit entry_limit (loader_from image_limit entry_limit n result got)
  unfolding parsed
  loader_from-Outcome result n s (false, s1) failed_ none_ header even inside positive last m =
      Outcome.not_loaded (rw failed_ (λ q. cc)) none_
  loader_from-Outcome result n s (true, s1) failed_ none_ header even inside positive last m =
      let mapped : result.loader_end < s1.linear_read_limit = is_ready s1 m in
      let (output, w, e) = read_even result.loader_start n s1 even in
      rw e (
        elim output
            as (λ o.
              read result.loader_start n s1 ≡ ok (o, record s1 { world = w })
              → Outcome image_limit entry_limit
                  (parsed image_limit entry_limit result (o, record s1 { world = w }))) [
                    | none ↦ λ f. Outcome.not_loaded (rw failed_ (λ q. cc)) none_
                    | some loader ↦ λ f.
                        loader_known result n s1 (record s1 { world = w }) loader failed_ none_
                          header inside positive last mapped f
                  ]
          e)

  read_loader-Outcome :
      (result : CatalogRead) (s : Session)
      → IsU32 image_limit
      → s.linear_read_limit % 0x00800000 ≡ 0
      → 0 < s.linear_read_limit
      → result.status ≡ read_failed
      → result.catalog ≡ none
      → 0xC0 ≤ result.loader_start
      → result.loader_start < image_limit
      → result.loader_start % 2 ≡ 0
      → Outcome image_limit entry_limit (read_loader image_limit entry_limit result s)
  unfolding read_loader
  read_loader-Outcome result s word aligned positive failed_ none_ header inside even =
      let n = min 0x7080 (image_limit - result.loader_start) in
      let some_byte : 0 < n = ground arith in
      let fits : result.loader_start + n ≤ image_limit = ground arith in
      let end_ = u32 (result.loader_start + (n - 1)) in
      loader_from-Outcome (record result { loader_end = end_ }) n s
        (prepare_linear_for_address end_ s) failed_ none_ header even fits some_byte
        (ground (arith, some_byte, fits, word))
        (prepare_linear_for_address-Mapping end_ s aligned positive)

  at_branch-Outcome :
      (bytes : List ℕ) (target : Option ℕ) (s : Session)
      → IsU32 image_limit
      → s.linear_read_limit % 0x00800000 ≡ 0
      → 0 < s.linear_read_limit
      → ((start : ℕ) → target ≡ some start → start % 2 ≡ 0)
      → Outcome image_limit entry_limit
          (at_branch image_limit entry_limit (some (record { bytes = bytes; target = target }), s))
  at_branch-Outcome bytes none s word aligned positive even = Outcome.not_loaded (λ q. cc) refl
  at_branch-Outcome bytes (some start) s word aligned positive even =
      elim (Bool-cases (ltb start 0xC0 || leb image_limit start)) [
        | inl p ↦ rw p (Outcome.not_loaded (λ q. cc) refl)
        | inr p ↦ rw p (
            read_loader-Outcome (record no_catalog { first_bytes = bytes; loader_start = start }) s
              word aligned positive refl refl (ground arith) (ground arith) (even start refl))
      ]

  -- A read of the catalog in a session whose limit is a positive multiple of 8 MiB, for an image
  -- limit of 32 bits: it throws nothing, and its status is `loaded` exactly when it has a catalog.
  -- A loaded catalog comes from a loader that starts behind the cartridge header, lies within the
  -- image limit and below the mapped limit, and was read in whole by one read; it is accepted by
  -- the parser for these bytes and has at most as many entries as asked.
  pub read_catalog-Outcome :
      (s : Session)
      → IsU32 image_limit
      → s.linear_read_limit % 0x00800000 ≡ 0
      → 0 < s.linear_read_limit
      → Outcome image_limit entry_limit (read_catalog image_limit entry_limit s)
  unfolding read_catalog read_arm_branch
  read_catalog-Outcome s word aligned positive =
      let (output, w, e) = read_even 0 4 s refl in
      rw e
        (elim output
          as (λ o.
            Outcome image_limit entry_limit
              (at_branch image_limit entry_limit (probe_of o, record s { world = w }))) [
                | none ↦ Outcome.not_loaded (λ q. cc) refl
                | some bytes ↦
                    at_branch-Outcome bytes (arm_branch_target (read_le32 bytes 0))
                      (record s { world = w }) word aligned positive
                      (λ start. even_target (read_le32 bytes 0))
              ])
