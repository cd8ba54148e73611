-- ===== src/Catalog/Parsing.antt =====
-- What Ez3CatalogParser::parse of src/ez3_catalog.cpp accepts.
use ezfadvance_iii.Prelude.{
  ℕ, zero, suc, ◌+◌, ◌-◌, ◌*◌, ◌/◌, ◌≤◌, ◌≡◌, ◌≢◌, ◌⊎◌, inl, inr, refl, Bool, true, ◌&&◌, ◌||◌,
  none, some, List, [], ◌∷◌, ◌++◌, length, length-append, arith, Bool-cases, ltb, leb, ◌==◌, ◌!=◌,
}
use ezfadvance_iii.Prelude.Result.{ok}
use ezfadvance_iii.CartridgeFormat.{CatalogEntry, read_le16}
use native.Mathlib.Nat.{add-zero, zero-add}
use ezfadvance_iii.Catalog.{
  CatalogKind, Layout, single, multi, entry_fields, parse_entry, plausible, entries_loop,
  parse_entries, parse_multi, parse_catalog, entry_size, structural_slot_count, single_entry_offset,
  multi_entry_offset,
}

-- `entry` is what the loader holds in slot `k` of a catalog at `offset`, and it is plausible.
pub record Slot (loader : List ℕ) (offset image_limit k : ℕ) (entry : CatalogEntry) : Type 0 where
  pub parsed : parse_entry loader (offset + k * entry_size) (k == 0) ≡ ok entry
  pub is_plausible : plausible entry image_limit (k == 0) ≡ true

-- The entries are those of the slots from `k` on.
abbrev pub Slots : List ℕ → ℕ → ℕ → ℕ → List CatalogEntry → Type 0
Slots loader offset image_limit k [] = Unit {0}
Slots loader offset image_limit k (entry ∷ entries) =
    Slot loader offset image_limit k entry × Slots loader offset image_limit (suc k) entries

module _ (loader : List ℕ) (offset image_limit : ℕ) where
  parse_entry_ok :
      (at : ℕ) (first : Bool)
      → at + 28 ≤ length loader
      → parse_entry loader at first ≡ ok (entry_fields loader at first)
  unfolding parse_entry
  parse_entry_ok at first h = ground arith

  Slots-append :
      (k : ℕ) (entries : List CatalogEntry) (entry : CatalogEntry)
      → Slots loader offset image_limit k entries
      → Slot loader offset image_limit (length entries + k) entry
      → Slots loader offset image_limit k (entries ++ (entry ∷ []))
  Slots-append k [] entry h s = (rw zero-add at s, tt)
  Slots-append k (e ∷ entries) entry (p, h) s =
      let shift : suc (length entries) + k ≡ length entries + suc k = omega arith in
      (p, Slots-append (suc k) entries entry h (rw shift at s))

  -- The loop ends with a verdict, and the entries that it collects are those of the slots.
  entries_loop_lem :
      (left index : ℕ) (entries : List CatalogEntry)
      → offset + (left + index) * entry_size ≤ length loader
      → Slots loader offset image_limit 0 entries
      → length entries ≡ index
      → (entries_loop left index loader offset image_limit entries ≡ ok none)
        ⊎ ((all : List CatalogEntry) × (entries_loop left index loader offset image_limit entries
              ≡ ok (some all))
            × Slots loader offset image_limit 0 all
            × (length all ≡ left + index))
  unfolding entries_loop
  entries_loop_lem zero index entries fits s e = inr (entries, refl, s, omega arith)
  entries_loop_lem (suc left) index entries fits s e =
      let entry = entry_fields loader (offset + index * entry_size) (index == 0) in
      let read = parse_entry_ok (offset + index * entry_size) (index == 0) (omega arith) in
      elim (Bool-cases (plausible entry image_limit (index == 0))) [
        | inl good ↦
            let slot : Slot loader offset image_limit (length entries + 0) entry =
              rw (add-zero, e) (record { parsed = read; is_plausible = good }) in
            rw (read, good)
              (let r =
                  entries_loop_lem left (index + 1) (entries ++ (entry ∷ [])) (omega arith)
                    (Slots-append 0 entries entry s slot)
                    (omega (arith, length-append entries (entry ∷ []))) in
                elim r [ inl n ↦ inl n | inr (all, f, g, l) ↦ inr (all, f, g, omega arith) ])
        | inr bad ↦ inl (rw (read, bad))
      ]

  -- What is accepted of a catalog of `kind`.
  pub record IsParsed (kind : CatalogKind) (count : ℕ) (layout : Layout) : Type 0 where
    pub kind_as_asked : layout.kind ≡ kind
    pub slots : Slots loader offset image_limit 0 layout.entries
    pub entry_count : length layout.entries ≡ count
    pub count_in_range : (1 ≤ count) × (count ≤ structural_slot_count)
    pub inside : offset + count * entry_size ≤ length loader

  -- The parser of one catalog form never throws: it gives no layout, or one that is parsed.
  parse_entries_lem :
      (kind : CatalogKind) (count : ℕ)
      → (parse_entries kind loader offset count image_limit ≡ ok none)
        ⊎ ((layout : Layout) × (parse_entries kind loader offset count image_limit
              ≡ ok (some layout))
            × IsParsed kind count layout)
  unfolding parse_entries
  parse_entries_lem kind count =
      elim (Bool-cases (
        count == 0
        || ltb structural_slot_count count
        || ltb (length loader) offset
        || ltb ((length loader - offset) / entry_size) count)) [
          | inl refused ↦ inl (rw refused)
          | inr open_ ↦
              let fits : offset + count * entry_size ≤ length loader = ground arith in
              rw open_ (elim (entries_loop_lem count 0 [] (omega arith) tt refl) [
                | inl n ↦ inl (rw n)
                | inr (all, f, g, l) ↦ inr (
                  record { kind = kind; entries = all },
                  rw f,
                  record {
                    kind_as_asked = refl;
                    slots = g;
                    entry_count = omega arith;
                    count_in_range = ground arith;
                    inside = fits;
                  },
                )
              ])
        ]

-- The layout is that of a single-ROM loader, or of a multi-ROM loader of at least two ROMs whose
-- two counts agree with the number of entries.
pub data Accepted (loader : List ℕ) (image_limit : ℕ) (layout : Layout) : Type 0 where
  as_single :
      IsParsed loader single_entry_offset image_limit single 1 layout
      → Accepted loader image_limit layout
  as_multi :
      (count : ℕ)
      → 2 ≤ count
      → read_le16 loader 0x475E ≡ count
      → read_le16 loader 0x476C ≡ count
      → IsParsed loader multi_entry_offset image_limit multi count layout
      → Accepted loader image_limit layout

module _ (loader : List ℕ) (image_limit : ℕ) where
  parse_multi_lem :
      (parse_multi loader image_limit ≡ ok none)
      ⊎ ((layout : Layout) × (parse_multi loader image_limit ≡ ok (some layout))
          × Accepted loader image_limit layout)
  unfolding parse_multi
  parse_multi_lem = elim (Bool-cases (ltb (length loader) (0x475E + 16))) [
    | inl short ↦ inl (rw short)
    | inr long ↦
        elim (Bool-cases (
          ltb (read_le16 loader 0x475E) 2
          || ltb structural_slot_count (read_le16 loader 0x475E)
          || (read_le16 loader 0x475E != read_le16 loader 0x476C))) [
            | inl refused ↦ inl (rw (long, refused))
            | inr agree ↦
                rw (long, agree)
                  (elim (parse_entries_lem loader multi_entry_offset image_limit multi
                    (read_le16 loader 0x475E)) [
                      | inl n ↦ inl n
                      | inr (layout, f, p) ↦ inr (
                        layout,
                        f,
                        as_multi (read_le16 loader 0x475E) (ground arith) refl (ground arith) p,
                      )
                    ])
          ]
  ]

  -- On any bytes the catalog parser returns and never throws: it finds no catalog, or a layout whose
  -- entries are those of a single-ROM or multi-ROM loader that lie inside the bytes, are all
  -- plausible, and are as many as the header counts say, at most 120. The image limit is then not 0.
  pub parse_catalog_total :
      (parse_catalog loader image_limit ≡ ok none)
      ⊎ ((layout : Layout) × (parse_catalog loader image_limit ≡ ok (some layout))
          × (image_limit ≢ 0)
          × Accepted loader image_limit layout)
  unfolding parse_catalog
  parse_catalog_total = elim (Bool-cases (image_limit == 0)) [
    | inl z ↦ inl (rw z)
    | inr nz ↦
        let positive : image_limit ≢ 0 = λ e. ground arith in
        let tried =
          elim parse_multi_lem
            as (λ _.
              (parse_multi loader image_limit ≡ ok none)
              ⊎ ((layout : Layout) × (parse_multi loader image_limit ≡ ok (some layout))
                  × (image_limit ≢ 0)
                  × Accepted loader image_limit layout)) [
                    | inl n ↦ inl n
                    | inr (layout, f, a) ↦ inr (layout, f, positive, a)
                  ] in
        elim (Bool-cases (
          leb (single_entry_offset + entry_size) (length loader)
          && (read_le16 loader 0x4E8 == 1)
          && (read_le16 loader 0x4F6 == 1))) [
            | inr other ↦ rw (nz, other) tried
            | inl marked ↦
                rw (nz, marked)
                  (elim (parse_entries_lem loader single_entry_offset image_limit single 1) [
                    | inl n ↦ rw n tried
                    | inr (layout, f, p) ↦ inr (layout, rw f, positive, as_single p)
                  ])
          ]
  ]
