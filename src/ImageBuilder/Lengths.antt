-- ===== src/ImageBuilder/Lengths.antt =====
-- The sizes that the helpers of src/cartridge_image_builder.cpp keep.
use ezfadvance_iii.Prelude.{
  ℕ, zero, suc, ◌+◌, ◌-◌, ◌*◌, ◌/◌, ◌%◌, ◌^◌, ◌≤◌, ◌≡◌, inl, inr, refl, ◌∙◌, Bool, List, length,
  length-set, length-fill, length-copy_at, ltb, if◌then◌else◌, Bool-cases, fill, take, copy_at,
  arith,
}
use ezfadvance_iii.Prelude.Bytes.{u32}
use ezfadvance_iii.Prelude.Bits.{bit_and_sixteen_u32}
use ezfadvance_iii.Prelude.Result.{ok, err}
use ezfadvance_iii.CartridgeFormat.{read_le32, write_le32}
use ezfadvance_iii.CartridgeFormat.Words.{length-write_le32}
use ezfadvance_iii.ImageBuilder.{
  RomInfo, write_le16, align_up_u32, rom_end_loop, meaningful_rom_end, relocate_loop,
  relocate_template, write_catalog_entry, entry_outside,
}

pub length-write_le16 : (v : List ℕ) (off x : ℕ) → length (write_le16 v off x) ≡ length v
unfolding write_le16
length-write_le16 v off x = simp length-set

length-relocate_loop :
    (lo hi base new left off : ℕ) (t : List ℕ)
    → length (relocate_loop lo hi base new left off t).1 ≡ length t
unfolding relocate_loop
length-relocate_loop lo hi base new zero off t = refl
length-relocate_loop lo hi base new (suc left) off t = ground (
  arith,
  length-relocate_loop lo hi base new left (off + 4)
      (write_le32 t off ((read_le32 t off + new + (2 ^ 32 - base)) % 2 ^ 32)),
  length-relocate_loop lo hi base new left (off + 4) t,
  length-write_le32 t off ((read_le32 t off + new + (2 ^ 32 - base)) % 2 ^ 32),
)

pub length-relocate_template :
    (t : List ℕ) (base new : ℕ) → length (relocate_template t base new).1 ≡ length t
unfolding relocate_template
length-relocate_template t base new = length-relocate_loop _ _ base new (length t / 4) 0 t

pub length-write_catalog_entry :
    (t t' : List ℕ) (off : ℕ) (r : RomInfo) (first : Bool)
    → write_catalog_entry t off r first ≡ ok t'
    → length t' ≡ length t
unfolding write_catalog_entry
length-write_catalog_entry t t' off r first h = elim (Bool-cases (ltb (length t) (off + 28))) [
  | inl e ↦ let q : err entry_outside ≡ ok t' = rw e at h in cc
  | inr e ↦
      let named = copy_at off (take 16 r.name) (fill off 28 0 t) in
      let typed = write_le32 named (off + 16) (u32 (r.entry_type * 2 ^ 24)) in
      let placed = write_le32 typed (off + 20) (u32 (r.start / 2 * 2 ^ 8) + r.mapping_flag % 256) in
      let made =
        write_le32 placed (off + 24) (if first then r.original_entry_target else r.start) in
      let q : ok made ≡ ok t' = rw e at h in
      let same : length made ≡ length t' = cc in
      let made_long : length made ≡ length t =
        length-write_le32 placed (off + 24) _
        ∙ length-write_le32 typed (off + 20) _
        ∙ length-write_le32 named (off + 16) _
        ∙ length-copy_at off (take 16 r.name) (fill off 28 0 t)
        ∙ length-fill off 28 0 t in
      omega arith
]

rom_end_loop-le : (rom : List ℕ) (n : ℕ) → rom_end_loop rom n ≤ n
unfolding rom_end_loop
rom_end_loop-le rom zero = omega arith
rom_end_loop-le rom (suc n) = ground (arith, rom_end_loop-le rom n)

pub meaningful_rom_end-le : (rom : List ℕ) → meaningful_rom_end rom ≤ length rom
unfolding meaningful_rom_end
meaningful_rom_end-le rom = rom_end_loop-le rom (length rom)

-- Up to the card's capacity the rounding is the least multiple of 16 at or above.
pub align_up_u32_sixteen : (x : ℕ) → x ≤ 0x2000000 → align_up_u32 x 16 ≡ (x + 15) / 16 * 16
unfolding align_up_u32
align_up_u32_sixteen x h =
    omega (arith, bit_and_sixteen_u32 (u32 (x + 16 + (2 ^ 32 - 1))) (omega arith))
