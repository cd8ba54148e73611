-- ===== src/ImageBuilder/SingleCatalog.antt =====
-- The catalog that build_single_image of src/cartridge_image_builder.cpp writes, as
-- Ez3CatalogParser::parse of src/ez3_catalog.cpp reads it.
use ezfadvance_iii.Prelude.{
  ℕ, zero, suc, ◌+◌, ◌*◌, ◌/◌, ◌^◌, ◌≤◌, ◌<◌, ◌≡◌, ◌≢◌, ◌⊎◌, inl, inr, refl, sym, ◌∙◌, ap, Bool,
  true, false, Bool-cases, some, List, [], ◌∷◌, ◌++◌, length, length-append, take, drop, set,
  length-set, ltb, ◌!=◌, arith,
}
use mathlib.Core.Path.{subst}
use ezfadvance_iii.Prelude.Bytes.{byte_at, u8, IsByte, IsU32}
use ezfadvance_iii.Prelude.Result.{ok, err}
use ezfadvance_iii.CartridgeFormat.{CatalogEntry, read_le16, read_le32, clean_ascii}
use ezfadvance_iii.Catalog.{single, entry_fields, parse_entry, plausible, parse_catalog}
use ezfadvance_iii.Catalog.Single.{parse_catalog-single}
use ezfadvance_iii.ImageBuilder.{
  RomInfo, relocate_template, write_le16, write_catalog_entry, relocation_count,
}
use ezfadvance_iii.ImageBuilder.Single.{single_template, single_template_len}
use ezfadvance_iii.ImageBuilder.Lengths.{
  length-write_le16, length-relocate_template, length-write_catalog_entry,
}
use ezfadvance_iii.ImageBuilder.Names.{IsMenuName}
use ezfadvance_iii.ImageBuilder.Entries.{parse_entry-write_catalog_entry}

byte_at-append : (xs ys : List ℕ) (i : ℕ) → i < length xs → byte_at (xs ++ ys) i ≡ byte_at xs i
byte_at-append [] ys i h = absurd (omega arith)
byte_at-append (x ∷ xs) ys zero h = refl
byte_at-append (x ∷ xs) ys (suc i) h = byte_at-append xs ys i (omega arith)

take-append : (n : ℕ) (xs ys : List ℕ) → n ≤ length xs → take n (xs ++ ys) ≡ take n xs
take-append zero xs ys h = refl
take-append (suc n) [] ys h = absurd (omega arith)
take-append (suc n) (x ∷ xs) ys h = ap (λ zs. x ∷ zs) (take-append n xs ys (omega arith))

-- The slice of the name does not reach behind the loader.
slice-append :
    (off : ℕ) (xs ys : List ℕ)
    → off + 16 ≤ length xs
    → take 16 (drop off (xs ++ ys)) ≡ take 16 (drop off xs)
slice-append zero xs ys h = take-append 16 xs ys (omega arith)
slice-append (suc off) [] ys h = absurd (omega arith)
slice-append (suc off) (x ∷ xs) ys h = slice-append off xs ys (omega arith)

module _ (t behind : List ℕ) where
  read_le16-append : (off : ℕ) → off + 2 ≤ length t → read_le16 (t ++ behind) off ≡ read_le16 t off
  unfolding read_le16
  read_le16-append off h = omega (
    arith,
    byte_at-append t behind off (omega arith),
    byte_at-append t behind (off + 1) (omega arith),
  )

  read_le32-append : (off : ℕ) → off + 4 ≤ length t → read_le32 (t ++ behind) off ≡ read_le32 t off
  unfolding read_le32
  read_le32-append off h = omega (
    arith,
    byte_at-append t behind off (omega arith),
    byte_at-append t behind (off + 1) (omega arith),
    byte_at-append t behind (off + 2) (omega arith),
    byte_at-append t behind (off + 3) (omega arith),
  )

  -- An entry within the loader is the same with the card's bytes behind it.
  parse_entry-append :
      (off : ℕ) (first : Bool)
      → off + 28 ≤ length t
      → parse_entry (t ++ behind) off first ≡ parse_entry t off first
  unfolding parse_entry entry_fields clean_ascii
  parse_entry-append off first h =
      let long : ltb (length (t ++ behind)) (off + 28) ≡ false =
        let n = length-append t behind in ground (arith, n) in
      let fits : ltb (length t) (off + 28) ≡ false = ground arith in
      rw
        (
          long,
          fits,
          read_le32-append (off + 16) (omega arith),
          read_le32-append (off + 20) (omega arith),
          read_le32-append (off + 24) (omega arith),
          slice-append off t behind (omega arith),
        )
        refl

byte_at-set : (v : List ℕ) (off x : ℕ) → off < length v → byte_at (set v off x) off ≡ x
byte_at-set [] off x h = absurd (omega arith)
byte_at-set (c ∷ v) zero x h = refl
byte_at-set (c ∷ v) (suc off) x h = byte_at-set v off x (omega arith)

byte_at-set_ne : (v : List ℕ) (off x i : ℕ) → i ≢ off → byte_at (set v off x) i ≡ byte_at v i
byte_at-set_ne [] off x i h = refl
byte_at-set_ne (c ∷ v) zero x zero h = absurd (h refl)
byte_at-set_ne (c ∷ v) zero x (suc i) h = refl
byte_at-set_ne (c ∷ v) (suc off) x zero h = refl
byte_at-set_ne (c ∷ v) (suc off) x (suc i) h = byte_at-set_ne v off x i (λ e. h (omega arith))

read_le16-write_le16 :
    (v : List ℕ) (off x : ℕ)
    → off + 2 ≤ length v
    → x < 65536
    → read_le16 (write_le16 v off x) off ≡ x
unfolding read_le16 write_le16
read_le16-write_le16 v off x h small =
    let low = set v off (u8 x) in
    let a = byte_at-set_ne low (off + 1) (u8 (x / 2 ^ 8)) off (λ e. omega arith) in
    let b = byte_at-set v off (u8 x) (omega arith) in
    let c = byte_at-set low (off + 1) (u8 (x / 2 ^ 8)) (omega (arith, length-set v off (u8 x))) in
    omega (arith, a, b, c)

read_le16-write_le16_ne :
    (v : List ℕ) (off x i : ℕ)
    → (i + 2 ≤ off) ⊎ (off + 2 ≤ i)
    → read_le16 (write_le16 v off x) i ≡ read_le16 v i
unfolding read_le16 write_le16
read_le16-write_le16_ne v off x i h =
    let low = set v off (u8 x) in
    let a = byte_at-set_ne low (off + 1) (u8 (x / 2 ^ 8)) i (λ e. ground arith) in
    let b = byte_at-set_ne v off (u8 x) i (λ e. ground arith) in
    let c = byte_at-set_ne low (off + 1) (u8 (x / 2 ^ 8)) (i + 1) (λ e. ground arith) in
    let d = byte_at-set_ne v off (u8 x) (i + 1) (λ e. ground arith) in omega (arith, a, b, c, d)

-- The entry of the one ROM, which starts at 0.
abbrev pub entry_of : RomInfo → CatalogEntry
entry_of r = record {
  name = r.name;
  type = r.entry_type;
  packed_start = r.mapping_flag;
  mapping = r.mapping_flag;
  start = 0;
  target_or_start = r.original_entry_target;
}

-- The loader as relocated, with its two counts.
abbrev headed : List ℕ → List ℕ
headed moved = write_le16 (write_le16 moved 0x4E8 1) 0x4F6 1

length-headed : (moved : List ℕ) → length (headed moved) ≡ length moved
length-headed moved =
    length-write_le16 (write_le16 moved 0x4E8 1) 0x4F6 1 ∙ length-write_le16 moved 0x4E8 1

single_template-entered :
    (template : List ℕ) (r : RomInfo) (start : ℕ) (t : List ℕ)
    → single_template template r start ≡ ok t
    → write_catalog_entry (headed (relocate_template template 0xD3B0 start).1) 0x4F8 r true ≡ ok t
unfolding single_template
single_template-entered template r start t h =
    elim (Bool-cases ((relocate_template template 0xD3B0 start).0 != 13)) [
      | inl e ↦ let q : err relocation_count ≡ ok t = rw e at h in absurd (ground arith)
      | inr e ↦ rw e at h
    ]

pub length-single_template :
    (template : List ℕ) (r : RomInfo) (start : ℕ) (t : List ℕ)
    → single_template template r start ≡ ok t
    → length t ≡ length template
length-single_template template r start t h =
    let moved = (relocate_template template 0xD3B0 start).1 in
    length-write_catalog_entry (headed moved) t 0x4F8 r true
      (single_template-entered template r start t h)
    ∙ length-headed moved
    ∙ length-relocate_template template 0xD3B0 start

IsMenuName-plausible :
    (r : RomInfo) → IsMenuName r.name → plausible (entry_of r) 0x2000000 true ≡ true
unfolding plausible
IsMenuName-plausible r m =
    subst (λ n. plausible (record (entry_of r) { name = n }) 0x2000000 true ≡ true) (sym m.ends)
      (go m.front)
  where
    go :
        (front : List ℕ)
        → plausible (record (entry_of r) { name = front ++ (m.last ∷ []) }) 0x2000000 true ≡ true
    go [] = refl
    go (c ∷ front) = refl

read_le16_same :
    (a b : List ℕ) (off : ℕ)
    → byte_at a off ≡ byte_at b off
    → byte_at a (off + 1) ≡ byte_at b (off + 1)
    → read_le16 a off ≡ read_le16 b off
unfolding read_le16
read_le16_same a b off p q = omega (arith, p, q)

-- Both counts are 1.
headed-counts :
    (moved : List ℕ)
    → length moved ≡ 0x660
    → (read_le16 (headed moved) 0x4E8 ≡ 1) × (read_le16 (headed moved) 0x4F6 ≡ 1)
headed-counts moved long =
    let first = write_le16 moved 0x4E8 1 in
    (
      read_le16-write_le16_ne first 0x4F6 1 0x4E8 (inl (omega arith))
          ∙ read_le16-write_le16 moved 0x4E8 1 (omega (arith, long)) (omega arith),
      read_le16-write_le16 first 0x4F6 1 (omega (arith, long, length-write_le16 moved 0x4E8 1))
          (omega arith),
    )

-- The parser finds just the ROM's entry in the loader, whatever the card holds behind it.
pub single_template-parse_catalog :
    (template : List ℕ) (r : RomInfo) (start : ℕ) (t behind : List ℕ)
    → single_template template r start ≡ ok t
    → length template ≡ single_template_len
    → r.start ≡ 0
    → IsMenuName r.name
    → IsByte r.entry_type
    → IsByte r.mapping_flag
    → IsU32 r.original_entry_target
    → parse_catalog (t ++ behind) 0x2000000
      ≡ ok (some (record { kind = single; entries = entry_of r ∷ [] }))
single_template-parse_catalog template r start t behind h size zero_start name type_ok flag_ok
      target_ok =
    let moved = (relocate_template template 0xD3B0 start).1 in
    let entered = single_template-entered template r start t h in
    let long = length-single_template template r start t h in
    let moved_long : length moved ≡ 0x660 = length-relocate_template template 0xD3B0 start ∙ size in
    let (parsed, outside) =
      parse_entry-write_catalog_entry (headed moved) t 0x4F8 r true entered name type_ok flag_ok
        (omega (arith, zero_start)) (omega (arith, zero_start)) target_ok in
    let counts = headed-counts moved moved_long in
    let kept : (off : ℕ) → off + 2 ≤ 0x4F8 → read_le16 t off ≡ read_le16 (headed moved) off =
      λ off low.
        read_le16_same t (headed moved) off (outside off (inl (omega arith)))
          (outside (off + 1) (inl (omega arith))) in
    let packed : r.start / 2 * 256 + r.mapping_flag ≡ r.mapping_flag = omega (arith, zero_start) in
    let read : parse_entry t 0x4F8 true ≡ ok (entry_of r) =
      parsed ∙ ap (λ p. ok (record (entry_of r) { packed_start = p })) packed in
    parse_catalog-single (t ++ behind) 0x2000000 (entry_of r)
      (omega (arith, length-append t behind, long))
      (parse_entry-append t behind 0x4F8 true (omega (arith, long)) ∙ read)
      (IsMenuName-plausible r name) (λ e. omega arith)
      (read_le16-append t behind 0x4E8 (omega (arith, long)) ∙ kept 0x4E8 (omega arith) ∙ counts.0)
      (read_le16-append t behind 0x4F6 (omega (arith, long)) ∙ kept 0x4F6 (omega arith) ∙ counts.1)
