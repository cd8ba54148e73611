-- ===== src/ImageBuilder/Packing.antt =====
-- The packing of build_multi_image of src/cartridge_image_builder.cpp keeps every ROM's data.
use ezfadvance_iii.Prelude.{
  ℕ, zero, suc, ◌+◌, ◌-◌, ◌%◌, ◌^◌, ◌≤◌, ◌<◌, ◌≡◌, ◌≢◌, inl, inr, refl, sym, ◌∙◌, ap, Bool, true,
  false, ◌&&◌, ◌||◌, some, List, [], ◌∷◌, ltb, leb, ◌==◌, ◌!=◌, if◌then◌else◌, length, get_or,
  copy_at, replicate, max, All, All-map, map, Bool-cases, length-copy_at, get_or-copy_at,
  get_or-copy_at_ne, length-replicate, arith,
}
use ezfadvance_iii.Prelude.Bits.{low_bits}
use ezfadvance_iii.Prelude.Powers.{bit_and-power, low_bits-le}
use ezfadvance_iii.Prelude.Bytes.{byte_at, u32}
use ezfadvance_iii.Prelude.Result.{ok, err, Result-cases}
use ezfadvance_iii.ImageBuilder.{
  RomInfo, align_up_u64, rom_end_loop, meaningful_rom_end, multi_rom_size_class_alignment,
  max_card_image, program_block, exceeds_capacity, size_class_exceeds, next_power_of_two_u32,
}
use ezfadvance_iii.ImageBuilder.Lengths.{meaningful_rom_end-le}
use ezfadvance_iii.ImageBuilder.SizeClass.{next_power_of_two_u32_least}
use ezfadvance_iii.ImageBuilder.Multi.{
  rom_start, checked_start, place_roms, base_image_size, occupy, copy_roms,
}

abbrev Free : List Bool → ℕ → Type 0
Free occupied from = (i : ℕ) → from ≤ i → get_or occupied i false ≡ false

-- A copy to a free place is allowed, and occupies nothing behind its last byte that is not 0xFF.
occupy-Free :
    (start : ℕ) (bytes : List ℕ) (occupied : List Bool)
    → Free occupied start
    → (occupied' : List Bool) × (occupy start bytes occupied ≡ some occupied')
      × ((end : ℕ)
          → Free occupied end
          → ((j : ℕ) → j < length bytes → end ≤ start + j → byte_at bytes j ≡ 0xFF)
          → Free occupied' end)
unfolding occupy
occupy-Free start [] occupied h = (occupied, refl, λ end free erased. free)
occupy-Free start (b ∷ bytes) [] h = ([], refl, λ end free erased i le. refl)
occupy-Free zero (b ∷ bytes) (o ∷ occupied) h =
    let clear : o ≡ false = h 0 (omega arith) in
    let (rest, e, free_rest) = occupy-Free zero bytes occupied (λ i le. h (suc i) (omega arith)) in
    (
      (o || (b != 0xFF)) ∷ rest,
      rw (e, clear) refl,
      λ end free erased i le.
          behind b o rest clear end i le (λ le'. erased 0 (omega arith) (omega arith))
            (λ k.
              free_rest (end - 1) (λ i' le'. free (suc i') (omega arith))
                (λ j lt le'. erased (suc j) (omega arith) (omega arith)) k),
    )
  where
    behind :
        (b : ℕ) (o : Bool) (rest : List Bool)
        → o ≡ false
        → (end i : ℕ) → end ≤ i
        → (end ≤ 0 → b ≡ 0xFF)
        → ((k : ℕ) → end - 1 ≤ k → get_or rest k false ≡ false)
        → get_or ((o || (b != 0xFF)) ∷ rest) i false ≡ false
    behind b o rest clear end zero le first later = let e = first le in rw clear (ground arith)
    behind b o rest clear end (suc i) le first later = later i (omega arith)
occupy-Free (suc start) (b ∷ bytes) (o ∷ occupied) h =
    let (rest, e, free_rest) =
      occupy-Free start (b ∷ bytes) occupied (λ i le. h (suc i) (omega arith)) in
    (
      o ∷ rest,
      rw e refl,
      λ end free erased i le.
          behind o rest end i le (λ le'. free 0 le')
            (free_rest (end - 1) (λ i' le'. free (suc i') (omega arith))
              (λ j lt le'. erased j lt (omega arith))),
    )
  where
    behind :
        (o : Bool) (rest : List Bool) (end i : ℕ)
        → end ≤ i
        → (end ≤ 0 → o ≡ false)
        → ((k : ℕ) → end - 1 ≤ k → get_or rest k false ≡ false)
        → get_or (o ∷ rest) i false ≡ false
    behind o rest end zero le first later = first le
    behind o rest end (suc i) le first later = later i (omega arith)

rom_end_loop_erased :
    (rom : List ℕ) (n j : ℕ) → rom_end_loop rom n ≤ j → j < n → byte_at rom j ≡ 0xFF
unfolding rom_end_loop
rom_end_loop_erased rom zero j h lt = absurd (omega arith)
rom_end_loop_erased rom (suc n) j h lt =
    elim (Bool-cases (ltb 0xC0 (suc n) && (byte_at rom n == 0xFF))) [
      | inl e ↦ elim (Bool-cases (j == n)) [
        | inl same ↦ let p : j ≡ n = ground arith in rw p (ground arith)
        | inr other ↦ rom_end_loop_erased rom n j (rw e at h) (ground arith)
      ]
      | inr e ↦ absurd (let p : suc n ≤ j = rw e at h in omega arith)
    ]

-- Behind the meaningful end a ROM is erased.
meaningful_rom_end_erased :
    (rom : List ℕ) (j : ℕ) → meaningful_rom_end rom ≤ j → j < length rom → byte_at rom j ≡ 0xFF
unfolding meaningful_rom_end
meaningful_rom_end_erased rom j h lt = rom_end_loop_erased rom (length rom) j h lt

-- Every ROM starts at or behind the meaningful ends of those before it.
abbrev pub Separate : ℕ → List RomInfo → Type 0
Separate cursor [] = Unit
Separate cursor (r ∷ roms) =
    (cursor ≤ r.start) × Separate (max cursor (r.start + meaningful_rom_end r.data_)) roms

-- The ROM lies within the image.
abbrev pub Fits : List ℕ → RomInfo → Type 0
Fits image r = r.start + length r.data_ ≤ length image

-- Every byte of the ROM that is not 0xFF stands in the image.
abbrev pub Stands : List ℕ → RomInfo → Type 0
Stands image r =
    (j : ℕ)
    → j < length r.data_
    → byte_at r.data_ j ≢ 0xFF
    → byte_at image (r.start + j) ≡ byte_at r.data_ j

byte_at-copied :
    (start j : ℕ) (bytes image : List ℕ)
    → j < length bytes
    → start + length bytes ≤ length image
    → byte_at (copy_at start bytes image) (start + j) ≡ byte_at bytes j
byte_at-copied start j bytes image lt fit =
    let e : start + j - start ≡ j = omega arith in
    let there : byte_at (copy_at start bytes image) (start + j)
        ≡ byte_at bytes (start + j - start) =
      ground (arith, get_or-copy_at start bytes image (start + j) 0) in
    there ∙ ap (byte_at bytes) e

copy_roms-Stands :
    (roms : List RomInfo) (cursor : ℕ) (image : List ℕ) (occupied : List Bool)
    → Separate cursor roms
    → Free occupied cursor
    → All (Fits image) roms
    → (image' : List ℕ) × (occupied' : List Bool) × (copy_roms roms image occupied
        ≡ ok (image', occupied'))
      × (length image' ≡ length image)
      × ((i : ℕ) → i < cursor → byte_at image' i ≡ byte_at image i)
      × All (Stands image') roms
unfolding copy_roms
copy_roms-Stands [] cursor image occupied separate free fits =
    (image, occupied, refl, refl, λ i lt. refl, tt)
copy_roms-Stands (r ∷ roms) cursor image occupied (behind, separate) free (fit, fits) =
    let meaningful = meaningful_rom_end r.data_ in
    let next = max cursor (r.start + meaningful) in
    let image1 = copy_at r.start r.data_ image in
    let (occupied1, marked, freed) =
      occupy-Free r.start r.data_ occupied (λ i le. free i (omega arith)) in
    let free1 : Free occupied1 next =
      freed next (λ i le. free i (omega arith))
        (λ j lt le. meaningful_rom_end_erased r.data_ j (omega arith) lt) in
    let long : length image1 ≡ length image = length-copy_at r.start r.data_ image in
    let (image', occupied', e, same_size, kept, stand) =
      copy_roms-Stands roms next image1 occupied1 separate free1
        (All-map {P = Fits image} {Q = Fits image1} (λ s f. omega arith) roms fits) in
    (
      image',
      occupied',
      rw (marked, e) refl,
      same_size ∙ long,
      λ i lt.
          kept i (omega arith) ∙ get_or-copy_at_ne r.start r.data_ image i 0 (inl (omega arith)),
      (
        λ j lt data_byte.
            kept (r.start + j) (elim (Bool-cases (leb meaningful j)) [
              | inl past ↦
                  absurd (data_byte (meaningful_rom_end_erased r.data_ j (ground arith) lt))
              | inr within ↦ ground arith
            ])
            ∙ byte_at-copied r.start j r.data_ image lt fit,
        stand,
      ),
    )

-- The size class of a ROM is a power of two.
alignment_power :
    (size : ℕ) {alignment : ℕ}
    → multi_rom_size_class_alignment size ≡ ok alignment
    → (k : ℕ) × (k ≤ 31) × (alignment ≡ low_bits k)
unfolding multi_rom_size_class_alignment
alignment_power size {alignment} h = elim (Bool-cases (ltb max_card_image size)) [
  | inl e ↦ let q : err exceeds_capacity ≡ ok alignment = rw e at h in absurd (ground arith)
  | inr e ↦
      let whole = u32 (max program_block size) in
      let a = next_power_of_two_u32 whole in
      let (k, small, power, above, others) = next_power_of_two_u32_least whole (ground arith) in
      elim (Bool-cases ((a == 0) || ltb max_card_image a)) [
        | inl f ↦
            let q : err size_class_exceeds ≡ ok alignment = rw (e, f) at h in absurd (ground arith)
        | inr f ↦
            let q : ok a ≡ ok alignment = rw (e, f) at h in
            let same : a ≡ alignment = cc q in (k, small, sym same ∙ power)
      ]
]

align_up_u64-le :
    (cursor k : ℕ) → cursor ≤ 0x4000000 → k ≤ 31 → cursor ≤ align_up_u64 cursor (low_bits k)
unfolding align_up_u64
align_up_u64-le cursor k small le =
    let least = low_bits-le 0 k (omega arith) in
    let most : low_bits k ≤ low_bits 31 = low_bits-le k 31 le in
    let raised : (cursor + low_bits k + (2 ^ 64 - 1)) % 2 ^ 64 ≡ cursor + low_bits k - 1 =
      omega arith in
    let (lo, hi) =
      bit_and-power k ((cursor + low_bits k + (2 ^ 64 - 1)) % 2 ^ 64) (omega arith) (omega arith) in
    omega arith

rom_start-behind :
    (first : Bool) (cursor : ℕ) (r : RomInfo) (start : ℕ)
    → cursor ≤ 0x4000000
    → (first ≡ true → cursor ≡ 0)
    → rom_start first cursor r ≡ ok start
    → (cursor ≤ start) × (start + length r.data_ ≤ max_card_image)
rom_start-behind first cursor r start small zeroth h =
    elim (Result-cases (multi_rom_size_class_alignment (length r.data_))) [
      | inr (x, e) ↦ let q : err x ≡ ok start = rw e at h in absurd (ground arith)
      | inl (alignment, e) ↦
          let (k, le, power) = alignment_power (length r.data_) e in
          let at = if first then 0 else align_up_u64 cursor alignment in
          let q : checked_start at (length r.data_) ≡ ok start = rw e at h in
          let up : cursor ≤ align_up_u64 cursor alignment =
            rw power (align_up_u64-le cursor k small le) in
          elim (Bool-cases first) [
            | inl f ↦ let z = zeroth f in ground (arith, q, f)
            | inr f ↦ ground (arith, q, f, up)
          ]
    ]

place_roms-Separate :
    (first : Bool) (cursor : ℕ) (roms placed : List RomInfo)
    → cursor ≤ 0x4000000
    → (first ≡ true → cursor ≡ 0)
    → place_roms first cursor roms ≡ ok placed
    → Separate cursor placed
      × All (λ r. r.start + length r.data_ ≤ max_card_image) placed
      × (map (λ r. r.data_) placed ≡ map (λ r. r.data_) roms)
unfolding place_roms
place_roms-Separate first cursor [] placed small zeroth h =
    let e : [] ≡ placed = cc in rw (← e) (tt, tt, refl)
place_roms-Separate first cursor (r ∷ roms) placed small zeroth h =
    elim (Result-cases (rom_start first cursor r)) [
      | inr (x, e) ↦ let q : err x ≡ ok placed = rw e at h in absurd (ground arith)
      | inl (start, e) ↦
          let next = max cursor (start + meaningful_rom_end r.data_) in
          let (behind, fit) = rom_start-behind first cursor r start small zeroth e in
          let short = meaningful_rom_end-le r.data_ in
          elim (Result-cases (place_roms false next roms)) [
            | inr (x, f) ↦ let q : err x ≡ ok placed = rw (e, f) at h in absurd (ground arith)
            | inl (rest, f) ↦
                let q : ok (record r { start = start } ∷ rest) ≡ ok placed = rw (e, f) at h in
                let same : record r { start = start } ∷ rest ≡ placed = cc q in
                let (separate, fits, datas) =
                  place_roms-Separate false next roms rest (omega arith) (λ w. absurd (cc)) f in
                rw (← same) ((behind, separate), (fit, fits), ap (λ ds. r.data_ ∷ ds) datas)
          ]
    ]

base_image_size-Fits :
    (roms : List RomInfo) (size : ℕ)
    → base_image_size roms ≤ size
    → All (λ r. r.start + length r.data_ ≤ size) roms
base_image_size-Fits [] size h = tt
base_image_size-Fits (r ∷ roms) size h = (omega arith, base_image_size-Fits roms size (omega arith))

get_or-false : (n i : ℕ) → get_or (replicate n false) i false ≡ false
get_or-false zero i = refl
get_or-false (suc n) zero = refl
get_or-false (suc n) (suc i) = get_or-false n i

-- Packing several ROMs keeps their data: when the placement succeeds, every ROM lies within the card
-- and starts at or behind the meaningful ends of those before it, the check for overlaps never
-- fires, and in the copied image every byte of every ROM that is not 0xFF stands at its place.
pub copy_roms-place_roms :
    (roms placed : List RomInfo)
    → place_roms true 0 roms ≡ ok placed
    → (image : List ℕ) × (occupied : List Bool) × (copy_roms placed
          (replicate (base_image_size placed) 0xFF)
          (replicate (base_image_size placed) false)
        ≡ ok (image, occupied))
      × (map (λ r. r.data_) placed ≡ map (λ r. r.data_) roms)
      × Separate 0 placed
      × All (λ r. r.start + length r.data_ ≤ max_card_image) placed
      × All (Stands image) placed
copy_roms-place_roms roms placed h =
    let (separate, fits, datas) =
      place_roms-Separate true 0 roms placed (omega arith) (λ e. refl) h in
    let size = base_image_size placed in
    let blank : List ℕ = replicate size 0xFF in
    let long : length blank ≡ size = length-replicate {A = ℕ} size 0xFF in
    let (image, occupied, e, same_size, kept, stand) =
      copy_roms-Stands placed 0 blank (replicate size false) separate (λ i le. get_or-false size i)
        (All-map {P = λ r. r.start + length r.data_ ≤ size} {Q = Fits blank} (λ r f. omega arith)
          placed (base_image_size-Fits placed size (omega arith))) in
    (image, occupied, e, datas, separate, fits, stand)
