-- ===== src/ImageBuilder/Entries.antt =====
-- write_catalog_entry of src/cartridge_image_builder.cpp against CatalogEntry::parse of
-- src/cartridge_format.cpp.
use ezfadvance_iii.Prelude.{
  ℕ, ◌+◌, ◌-◌, ◌*◌, ◌/◌, ◌%◌, ◌^◌, ◌≤◌, ◌<◌, ◌≡◌, ◌⊎◌, inl, inr, refl, sym, ◌∙◌, ap, Bool, false,
  List, length, ltb, if◌then◌else◌, Bool-cases, fill, take, copy_at, length-copy_at, length-fill,
  length-take, get_or-copy_at, get_or-copy_at_ne, get_or-fill, get_or_past, arith,
}
use ezfadvance_iii.Prelude.Bytes.{byte_at, u8, u32, IsByte, IsU32}
use ezfadvance_iii.Prelude.Result.{ok, err}
use ezfadvance_iii.CartridgeFormat.{read_le32, write_le32, clean_ascii}
use ezfadvance_iii.CartridgeFormat.Words.{
  length-write_le32, read_le32-write_le32, read_le32-write_le32_ne, byte_at-write_le32_ne,
}
use ezfadvance_iii.Catalog.{entry_fields, parse_entry}
use ezfadvance_iii.ImageBuilder.{RomInfo, entry_outside, write_catalog_entry}
use ezfadvance_iii.ImageBuilder.Names.{IsMenuName, clean_ascii-name, padded_name}
use ezfadvance_iii.ImageBuilder.Lengths.{length-write_catalog_entry}

-- The three words of an entry, and its name before them.
abbrev words : List ℕ → ℕ → ℕ → ℕ → ℕ → List ℕ
words named off a b c =
    write_le32 (write_le32 (write_le32 named (off + 16) a) (off + 20) b) (off + 24) c

module _ (named : List ℕ) (off a b c : ℕ) (fits : off + 28 ≤ length named) where
  words-lengths :
      (length (write_le32 named (off + 16) a) ≡ length named)
      × (length (write_le32 (write_le32 named (off + 16) a) (off + 20) b) ≡ length named)
  words-lengths = (
    length-write_le32 named (off + 16) a,
    length-write_le32 (write_le32 named (off + 16) a) (off + 20) b
        ∙ length-write_le32 named (off + 16) a,
  )

  read_le32-words :
      IsU32 a
      → IsU32 b
      → IsU32 c
      → (read_le32 (words named off a b c) (off + 16) ≡ a)
        × (read_le32 (words named off a b c) (off + 20) ≡ b)
        × (read_le32 (words named off a b c) (off + 24) ≡ c)
  read_le32-words ha hb hc =
      let (l, l') = words-lengths in
      let one = write_le32 named (off + 16) a in
      let two = write_le32 one (off + 20) b in
      (
        read_le32-write_le32_ne two (off + 24) c (omega arith) (off + 16) (inl (omega arith))
            ∙ read_le32-write_le32_ne one (off + 20) b (omega arith) (off + 16) (inl (omega arith))
            ∙ read_le32-write_le32 named (off + 16) a (omega arith) ha,
        read_le32-write_le32_ne two (off + 24) c (omega arith) (off + 20) (inl (omega arith))
            ∙ read_le32-write_le32 one (off + 20) b (omega arith) hb,
        read_le32-write_le32 two (off + 24) c (omega arith) hc,
      )

  byte_at-words :
      (j : ℕ)
      → (j < off + 16) ⊎ (off + 28 ≤ j)
      → byte_at (words named off a b c) j ≡ byte_at named j
  byte_at-words j h =
      let one = write_le32 named (off + 16) a in
      let two = write_le32 one (off + 20) b in
      byte_at-write_le32_ne two (off + 24) c j (ground arith)
      ∙ byte_at-write_le32_ne one (off + 20) b j (ground arith)
      ∙ byte_at-write_le32_ne named (off + 16) a j (ground arith)

-- The cleared entry with its name.
abbrev named_entry : List ℕ → ℕ → List ℕ → List ℕ
named_entry t off name = copy_at off (take 16 name) (fill off 28 0 t)

byte_at-named_entry :
    (t : List ℕ) (off : ℕ) (name : List ℕ) (i : ℕ)
    → off + 28 ≤ length t
    → i < 16
    → byte_at (named_entry t off name) (off + i) ≡ byte_at (take 16 name) i
byte_at-named_entry t off name i fits lt =
    let copied = get_or-copy_at off (take 16 name) (fill off 28 0 t) (off + i) 0 in
    let filled = get_or-fill off 28 0 t (off + i) 0 in
    let e : off + i - off ≡ i = omega arith in
    let long = length-fill off 28 0 t in
    elim (Bool-cases (ltb i (length (take 16 name)))) [
      | inl short ↦
          let there : byte_at (named_entry t off name) (off + i)
              ≡ byte_at (take 16 name) (off + i - off) =
            ground arith in
          there ∙ ap (byte_at (take 16 name)) e
      | inr past ↦
          let there : byte_at (named_entry t off name) (off + i) ≡ 0 = ground arith in
          there ∙ sym (get_or_past (take 16 name) i 0 (ground arith))
    ]

byte_at-fill_ne :
    (t : List ℕ) (off j : ℕ)
    → (j < off) ⊎ (off + 28 ≤ j)
    → byte_at (fill off 28 0 t) j ≡ byte_at t j
byte_at-fill_ne t off j h = ground (arith, get_or-fill off 28 0 t j 0)

-- What stands at a written entry, and that nothing else changes.
written_entry :
    (t t' : List ℕ) (off : ℕ) (r : RomInfo) (first : Bool)
    → write_catalog_entry t off r first ≡ ok t'
    → IsByte r.entry_type
    → IsByte r.mapping_flag
    → r.start % 2 ≡ 0
    → r.start < 0x2000000
    → IsU32 r.original_entry_target
    → (parse_entry t' off first ≡ ok (entry_fields t' off first))
      × (off + 28 ≤ length t')
      × ((i : ℕ) → i < 16 → byte_at t' (off + i) ≡ byte_at (take 16 r.name) i)
      × (read_le32 t' (off + 16) ≡ u32 (r.entry_type * 2 ^ 24))
      × (read_le32 t' (off + 20) ≡ u32 (r.start / 2 * 2 ^ 8) + r.mapping_flag % 256)
      × (read_le32 t' (off + 24) ≡ (if first then r.original_entry_target else r.start))
      × ((j : ℕ) → (j < off) ⊎ (off + 28 ≤ j) → byte_at t' j ≡ byte_at t j)
unfolding write_catalog_entry parse_entry entry_fields
written_entry t t' off r first h type_ok flag_ok even small target_ok =
    elim (Bool-cases (ltb (length t) (off + 28))) [
      | inl e ↦ let q : err entry_outside ≡ ok t' = rw e at h in absurd (ground arith)
      | inr e ↦
          let a = u32 (r.entry_type * 2 ^ 24) in
          let b = u32 (r.start / 2 * 2 ^ 8) + r.mapping_flag % 256 in
          let c = if first then r.original_entry_target else r.start in
          let named = named_entry t off r.name in
          let q : ok (words named off a b c) ≡ ok t' = rw e at h in
          let made : words named off a b c ≡ t' = cc q in
          let long : length named ≡ length t =
            length-copy_at off (take 16 r.name) (fill off 28 0 t) ∙ length-fill off 28 0 t in
          let fits : off + 28 ≤ length named = ground arith in
          let full = length-write_catalog_entry t t' off r first h in
          let (ra, rb, rc) =
            read_le32-words named off a b c fits (omega arith) (omega arith) (ground arith) in
          let ra' : read_le32 t' (off + 16) ≡ a =
            ap (λ v. read_le32 v (off + 16)) (sym made) ∙ ra in
          let rb' : read_le32 t' (off + 20) ≡ b =
            ap (λ v. read_le32 v (off + 20)) (sym made) ∙ rb in
          let rc' : read_le32 t' (off + 24) ≡ c =
            ap (λ v. read_le32 v (off + 24)) (sym made) ∙ rc in
          let parses : ltb (length t') (off + 28) ≡ false = ground arith in
          (
            rw parses refl,
            ground arith,
            λ i lt.
                ap (λ v. byte_at v (off + i)) (sym made)
                ∙ byte_at-words named off a b c fits (off + i) (inl (omega arith))
                ∙ byte_at-named_entry t off r.name i (ground arith) lt,
            ra',
            rb',
            rc',
            λ j outside.
                ap (λ v. byte_at v j) (sym made)
                ∙ byte_at-words named off a b c fits j (ground arith)
                ∙ get_or-copy_at_ne off (take 16 r.name) (fill off 28 0 t) j 0
                    (ground (arith, length-take 16 r.name))
                ∙ byte_at-fill_ne t off j outside,
          )
    ]

-- A catalog entry that the builder writes is the one that the reader parses, field by field: the
-- name, for a name of one to 16 printable characters that does not end in a space, the type, the
-- mapping flag, the start and the target, for a type and a mapping flag of a byte, an even start
-- below 32 MiB (0 for the first ROM, whose start the reader takes for 0) and a 32-bit target.
-- Outside the entry's 28 bytes nothing changes.
pub parse_entry-write_catalog_entry :
    (t t' : List ℕ) (off : ℕ) (r : RomInfo) (first : Bool)
    → write_catalog_entry t off r first ≡ ok t'
    → IsMenuName r.name
    → IsByte r.entry_type
    → IsByte r.mapping_flag
    → r.start % 2 ≡ 0
    → r.start < 0x2000000
    → IsU32 r.original_entry_target
    → (parse_entry t' off first
        ≡ ok (record {
          name = r.name;
          type = r.entry_type;
          packed_start = r.start / 2 * 256 + r.mapping_flag;
          mapping = r.mapping_flag;
          start = if first then 0 else r.start;
          target_or_start = if first then r.original_entry_target else r.start;
        }))
      × ((j : ℕ) → (j < off) ⊎ (off + 28 ≤ j) → byte_at t' j ≡ byte_at t j)
unfolding entry_fields
parse_entry-write_catalog_entry t t' off r first h name type_ok flag_ok even small target_ok =
    let (parsed, long, bytes, a, b, c, outside) =
      written_entry t t' off r first h type_ok flag_ok even small target_ok in
    let name_read : clean_ascii t' off 16 ≡ r.name =
      clean_ascii-name t' off (16 - length r.name) r.name name
        (padded_name t' off r.name name.short (omega arith) bytes) in
    let type_read : u8 (read_le32 t' (off + 16) / 2 ^ 24) ≡ r.entry_type = omega (arith, a) in
    let packed_read : read_le32 t' (off + 20) ≡ r.start / 2 * 256 + r.mapping_flag =
      omega (arith, b) in
    let flag_read : read_le32 t' (off + 20) % 256 ≡ r.mapping_flag = omega (arith, b) in
    let start_read : (if first then 0 else u32 (read_le32 t' (off + 20) / 2 ^ 8 * 2))
        ≡ (if first then 0 else r.start) =
      ground (arith, packed_read) in
    (
      parsed ∙ (λ i. ok (record {
        name = name_read i;
        type = type_read i;
        packed_start = packed_read i;
        mapping = flag_read i;
        start = start_read i;
        target_or_start = c i;
      })),
      outside,
    )
