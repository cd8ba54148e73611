-- ===== src/ImageBuilder/SinglePlace.antt =====
-- Where build_single_image of src/cartridge_image_builder.cpp puts the loader.
use ezfadvance_iii.Prelude.{
  ℕ, zero, suc, ◌+◌, ◌-◌, ◌*◌, ◌/◌, ◌%◌, ◌≤◌, ◌<◌, ◌≡◌, inl, inr, refl, sym, ◌∙◌, ap, Bool, true,
  false, List, [], ◌∷◌, Option, none, some, length, length-take, length-drop, get_or-take,
  get_or-drop, ltb, ◌==◌, Bool-cases, Option-cases, take, drop, min, max, arith,
}
use ezfadvance_iii.Prelude.Bytes.{byte_at, u32}
use ezfadvance_iii.Prelude.Result.{Result, ok, err}
use ezfadvance_iii.ImageBuilder.{
  BuildError, align_up_u32, meaningful_rom_end, find_internal_ff_loader_slot, card_half_size,
  max_card_image, multi_template_len, no_single_slot,
}
use ezfadvance_iii.ImageBuilder.Single.{all_erased, fits_in_padding, slot_or, single_loader_place}
use ezfadvance_iii.ImageBuilder.Slots.{Erased}
use ezfadvance_iii.ImageBuilder.Search.{FirstSlot, find_internal_ff_loader_slot_first}
use ezfadvance_iii.ImageBuilder.Lengths.{meaningful_rom_end-le, align_up_u32_sixteen}

all_erased_sound :
    (xs : List ℕ) (i : ℕ) → all_erased xs ≡ true → i < length xs → byte_at xs i ≡ 0xFF
all_erased_sound [] i h lt = absurd (omega arith)
all_erased_sound (x ∷ xs) zero h lt = ground arith
all_erased_sound (x ∷ xs) (suc i) h lt = all_erased_sound xs i (ground arith) (omega arith)

fits_in_padding-Erased :
    (rom : List ℕ) (start reserve : ℕ)
    → fits_in_padding rom start reserve ≡ true
    → Erased rom start (start + reserve)
fits_in_padding-Erased rom start reserve h k low high =
    let window = take reserve (drop start rom) in
    let clean : all_erased window ≡ true = ground arith in
    let room : start + reserve ≤ length rom = ground arith in
    let long : length window ≡ reserve =
      omega (arith, length-take reserve (drop start rom), length-drop start rom) in
    let there : byte_at window (k - start) ≡ 0xFF =
      all_erased_sound window (k - start) clean (omega arith) in
    let taken : byte_at window (k - start) ≡ byte_at (drop start rom) (k - start) =
      ground (arith, get_or-take reserve (drop start rom) (k - start) 0) in
    let e : start + (k - start) ≡ k = omega arith in
    ap (byte_at rom) (sym e) ∙ sym (get_or-drop start rom (k - start) 0) ∙ sym taken ∙ there

-- The loader stands at a multiple of 16 where the ROM has only erased bytes or none.
pub record Placed (rom : List ℕ) (size start : ℕ) (second : Bool) : Type 0 where
  pub multiple : start % 16 ≡ 0
  pub erased : (k : ℕ) → start ≤ k → k < length rom → k < start + size → byte_at rom k ≡ 0xFF
  pub half : second ≡ true → (length rom ≡ card_half_size) × (start ≡ card_half_size + 0x10)

-- A place behind the ROM.
Placed-behind :
    (rom : List ℕ) (size start : ℕ) (second : Bool)
    → start % 16 ≡ 0
    → length rom ≤ start
    → (second ≡ true → (length rom ≡ card_half_size) × (start ≡ card_half_size + 0x10))
    → Placed rom size start second
Placed-behind rom size start second m le h = record {
  multiple = m;
  erased = λ k low high near. absurd (omega arith);
  half = h;
}

Placed-Erased :
    (rom : List ℕ) (size start reserve : ℕ)
    → start % 16 ≡ 0
    → size ≤ reserve
    → Erased rom start (start + reserve)
    → Placed rom size start false
Placed-Erased rom size start reserve m le h = record {
  multiple = m;
  erased = λ k low high near. h k low (omega arith);
  half = λ e. cc;
}

slot_or-Placed :
    (rom : List ℕ) (size start : ℕ) (second : Bool) (otherwise : Result BuildError (ℕ × Bool))
    → (otherwise ≡ ok (start, second) → Placed rom size start second)
    → slot_or (find_internal_ff_loader_slot rom size) otherwise ≡ ok (start, second)
    → Placed rom size start second
slot_or-Placed rom size start second otherwise f h =
    let first = find_internal_ff_loader_slot_first rom size in
    elim (Option-cases (find_internal_ff_loader_slot rom size)) [
      | inl e ↦ f (rw e at h)
      | inr (s, e) ↦
          let q : ok (s, false) ≡ ok (start, second) = rw e at h in
          let (slot, least) : FirstSlot 1 (max size multi_template_len) rom 0xC0
              (min (length rom) max_card_image) (some s) =
            rw e at first in
          let p : s ≡ start = cc in
          let p' : false ≡ second = cc in
          rw (← p, ← p')
            (Placed-Erased rom size s (max size multi_template_len) slot.multiple (omega arith)
              (λ k low high. slot.erased k (omega arith) high))
    ]

pub single_loader_place-Placed :
    (rom : List ℕ) (size start : ℕ) (second : Bool)
    → length rom ≤ max_card_image
    → single_loader_place rom size ≡ ok (start, second)
    → Placed rom size start second
unfolding single_loader_place
single_loader_place-Placed rom size start second fits h =
    let padding = align_up_u32 (u32 (meaningful_rom_end rom)) 16 in
    let appended = align_up_u32 (u32 (length rom)) 16 in
    let le = meaningful_rom_end-le rom in
    let pad : padding ≡ (meaningful_rom_end rom + 15) / 16 * 16 =
      let same : u32 (meaningful_rom_end rom) ≡ meaningful_rom_end rom = omega arith in
      rw same (align_up_u32_sixteen (meaningful_rom_end rom) (omega arith)) in
    let app : appended ≡ (length rom + 15) / 16 * 16 =
      let same : u32 (length rom) ≡ length rom = omega arith in
      rw same (align_up_u32_sixteen (length rom) (omega arith)) in
    let behind : ok (appended, false) ≡ ok (start, second) → Placed rom size start second = λ q.
      (let p : appended ≡ start = cc q in
        let p' : false ≡ second = cc q in
        rw (← p, ← p')
          (Placed-behind rom size appended false (omega arith) (omega arith) (λ f. cc))) in
    elim (Bool-cases (fits_in_padding rom padding (max size multi_template_len))) [
      | inl a ↦
          let q : ok (padding, false) ≡ ok (start, second) = rw a at h in
          let p : padding ≡ start = cc in
          let p' : false ≡ second = cc in
          rw (← p, ← p')
            (Placed-Erased rom size padding (max size multi_template_len) (omega arith)
              (omega arith) (fits_in_padding-Erased rom padding (max size multi_template_len) a))
      | inr a ↦ elim (Bool-cases (length rom == card_half_size)) [
        | inl b ↦
            slot_or-Placed rom size start second (ok (card_half_size + 0x10, true))
              (λ q.
                (let p : card_half_size + 0x10 ≡ start = cc in
                  let p' : true ≡ second = cc in
                  rw (← p, ← p')
                    (Placed-behind rom size (card_half_size + 0x10) true (omega arith)
                      (ground arith) (λ f. (ground arith, refl)))))
              (rw (a, b) at h)
        | inr b ↦ elim (Bool-cases (ltb max_card_image (appended + size))) [
          | inl c ↦
              slot_or-Placed rom size start second (err no_single_slot) (λ q. cc)
                (rw (a, b, c) at h)
          | inr c ↦ behind (rw (a, b, c) at h)
        ]
      ]
    ]

slot_or_half :
    (found : Option ℕ) (otherwise : Result BuildError (ℕ × Bool)) (start : ℕ)
    → slot_or found otherwise ≡ ok (start, true)
    → otherwise ≡ ok (start, true)
slot_or_half none otherwise start h = h
slot_or_half (some s) otherwise start h = let q : false ≡ true = cc in cc

-- The second half is used for a ROM of 16 MiB only.
pub single_loader_place_half :
    (rom : List ℕ) (size start : ℕ)
    → single_loader_place rom size ≡ ok (start, true)
    → (length rom ≡ card_half_size) × (start ≡ card_half_size + 0x10)
unfolding single_loader_place
single_loader_place_half rom size start h =
    let padding = align_up_u32 (u32 (meaningful_rom_end rom)) 16 in
    let appended = align_up_u32 (u32 (length rom)) 16 in
    elim (Bool-cases (fits_in_padding rom padding (max size multi_template_len))) [
      | inl a ↦ let q : ok (padding, false) ≡ ok (start, true) = rw a at h in (cc q, cc q)
      | inr a ↦ elim (Bool-cases (length rom == card_half_size)) [
        | inl b ↦
            let q : ok (card_half_size + 0x10, true) ≡ ok (start, true) =
              slot_or_half (find_internal_ff_loader_slot rom size) _ start (rw (a, b) at h) in
            let p : card_half_size + 0x10 ≡ start = cc q in (ground arith, sym p)
        | inr b ↦ elim (Bool-cases (ltb max_card_image (appended + size))) [
          | inl c ↦
              let q : err no_single_slot ≡ ok (start, true) =
                slot_or_half (find_internal_ff_loader_slot rom size) _ start (rw (a, b, c) at h) in
              (cc q, cc q)
          | inr c ↦
              let q : ok (appended, false) ≡ ok (start, true) = rw (a, b, c) at h in (cc q, cc q)
        ]
      ]
    ]
