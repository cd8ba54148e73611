-- ===== src/ImageBuilder/Search.antt =====
-- find_internal_ff_loader_slot and find_ff_slot_in_image of src/cartridge_image_builder.cpp find
-- the first slot.
use ezfadvance_iii.Prelude.{
  ℕ, zero, suc, ◌+◌, ◌-◌, ◌%◌, ◌≤◌, ◌<◌, min, max, false, ◌≡◌, ◌≢◌, inl, inr, refl, Option, none,
  some, List, length, leb, Bool-cases, Option-cases, sym, ◌∙◌, arith,
}
use ezfadvance_iii.Prelude.Bytes.{u32, byte_at}
use ezfadvance_iii.ImageBuilder.{
  skip_data, skip_erased, slot_loop, find_ff_slot_in_image, find_internal_ff_loader_slot,
  multi_template_len, max_card_image,
}
use ezfadvance_iii.ImageBuilder.Slots.{
  skip_data-le, skip_data_passed, skip_erased-le, skip_erased_end, skip_data_end, Erased, Boundary,
  Slot, run_fits, Slot-of_run, at_boundary-Boundary, next_boundary-Boundary,
}

-- A search gives the first slot, or none when there is none.
abbrev pub FirstSlot : ℕ → ℕ → List ℕ → ℕ → ℕ → Option ℕ → Type 0
FirstSlot gap reserve image low limit none = (t : ℕ) → ¬ (Slot gap reserve image low limit t)
FirstSlot gap reserve image low limit (some s) =
    Slot gap reserve image low limit s × ((t : ℕ) → Slot gap reserve image low limit t → s ≤ t)

module _ {gap : ℕ} {aligned : ℕ → ℕ} (b : Boundary gap aligned) (reserve : ℕ) (image : List ℕ)
    (limit : ℕ) (small : limit ≤ 0x2000000) where
  -- A slot above a later start is one above an earlier start.
  Slot-weaken :
      (low low' s : ℕ)
      → low ≤ low'
      → Slot gap reserve image low' limit s
      → Slot gap reserve image low limit s
  Slot-weaken low low' s le t = record {
    multiple = t.multiple;
    within = t.within;
    before = omega (arith, t.before);
    erased = t.erased;
  }

  slot_loop_sound :
      (rounds i s : ℕ)
      → slot_loop aligned reserve image limit rounds i ≡ some s
      → Slot gap reserve image i limit s
  unfolding slot_loop
  slot_loop_sound zero i s h = cc
  slot_loop_sound (suc rounds) i s h =
      let run_start = skip_data image (limit - i) i in
      let run_end = skip_erased image (limit - run_start) run_start in
      let (lo, hi) = skip_data-le image (limit - i) i in
      let (lo', hi') = skip_erased-le image (limit - run_start) run_start in
      let later : slot_loop aligned reserve image limit rounds run_end ≡ some s
          → Slot gap reserve image i limit s =
        λ e. Slot-weaken i run_end s (omega arith) (slot_loop_sound rounds run_end s e) in
      elim (Bool-cases (leb limit i)) [
        | inl over ↦ let q : none ≡ some s = rw over at h in cc
        | inr under ↦ elim (Bool-cases (leb run_end run_start)) [
          | inl empty ↦ later (rw (under, empty) at h)
          | inr run ↦ elim (Bool-cases (run_fits b reserve image limit small run_start run_end)) [
            | inl fits ↦
                let q : some (u32 (aligned run_start)) ≡ some s = rw (under, run, fits) at h in
                Slot-of_run b reserve image limit small i s (ground arith) fits (ground arith)
            | inr fails ↦ later (rw (under, run, fails) at h)
          ]
        ]
      ]

  -- A window of erased bytes from `w` on with a slot at `w + gap` is found, or an earlier one is.
  slot_loop_complete :
      (rounds i w : ℕ)
      → i ≤ w
      → limit ≤ i + rounds
      → 0 < reserve
      → w + gap + reserve ≤ limit
      → (w + gap) % 16 ≡ 0
      → Erased image w (w + gap + reserve)
      → (s : ℕ) × (slot_loop aligned reserve image limit rounds i ≡ some s) × (s ≤ w + gap)
  unfolding slot_loop
  slot_loop_complete zero i w le enough some_bytes within multiple erased = absurd (omega arith)
  slot_loop_complete (suc rounds) i w le enough some_bytes within multiple erased =
      let run_start = skip_data image (limit - i) i in
      let run_end = skip_erased image (limit - run_start) run_start in
      let (lo, hi) = skip_data-le image (limit - i) i in
      let (lo', hi') = skip_erased-le image (limit - run_start) run_start in
      let starts : run_start ≤ w = elim (Bool-cases (leb run_start w)) [
        | inl e ↦ ground arith
        | inr e ↦ absurd (
            skip_data_passed image (limit - i) i w le (ground arith)
              (erased w (omega arith) (omega arith)))
      ] in
      let first : byte_at image run_start ≡ 0xFF =
        skip_data_end image (limit - i) i (omega arith) in
      let under : leb limit i ≡ false = ground arith in
      let stops : (run_end < limit → byte_at image run_end ≢ 0xFF) =
        λ lt. skip_erased_end image (limit - run_start) run_start (omega arith) in
      let run : leb run_end run_start ≡ false = elim (Bool-cases (leb run_end run_start)) [
        | inl e ↦
            let same : run_end ≡ run_start = ground arith in
            absurd (stops (omega arith) (rw same first))
        | inr e ↦ e
      ] in
      elim (Bool-cases (run_fits b reserve image limit small run_start run_end)) [
        | inl fits ↦
            let ab = b.above run_start (omega arith) in
            let lst = b.least run_start (w + gap) (omega arith) (omega arith) multiple in
            (u32 (aligned run_start), rw (under, run, fits) refl, omega arith)
        | inr fails ↦
            let ends : run_end ≤ w = elim (Bool-cases (leb run_end w)) [
              | inl e ↦ ground arith
              | inr e ↦ elim (Bool-cases (leb (w + gap + reserve) run_end)) [
                | inl past ↦
                    let lst = b.least run_start (w + gap) (omega arith) (omega arith) multiple in
                    absurd (ground arith)
                | inr short ↦
                    absurd (stops (ground arith) (erased run_end (ground arith) (ground arith)))
              ]
            ] in
            rw (under, run, fails)
              (slot_loop_complete rounds run_end w ends (ground arith) some_bytes within multiple
                erased)
      ]

  slot_loop_first :
      (rounds i : ℕ)
      → limit ≤ i + rounds
      → 0 < reserve
      → FirstSlot gap reserve image i limit (slot_loop aligned reserve image limit rounds i)
  slot_loop_first rounds i enough some_bytes =
      let at_or_before : (t : ℕ)
          → Slot gap reserve image i limit t
          → (s : ℕ) × (slot_loop aligned reserve image limit rounds i ≡ some s)
            × (s ≤ (t - gap) + gap) =
        λ t slot.
          (let same : t ≡ (t - gap) + gap = omega (arith, slot.before) in
            slot_loop_complete rounds i (t - gap) (omega (arith, slot.before)) enough some_bytes
              (omega (arith, slot.within, slot.before)) (omega (arith, slot.multiple, slot.before))
              (λ k low high. slot.erased k low (omega (arith, slot.before)))) in
      elim (Option-cases (slot_loop aligned reserve image limit rounds i)) [
        | inl e ↦ rw e (λ t slot.
            (let (s, found, le) = at_or_before t slot in
              let q : none ≡ some s = sym e ∙ found in cc))
        | inr (s, e) ↦ rw e (
          slot_loop_sound rounds i s e,
          λ t slot.
              (let (s', found, le) = at_or_before t slot in
                let q : some s ≡ some s' = sym e ∙ found in
                let q' : s ≡ s' = ground arith in omega (arith, slot.before)),
        )
      ]

-- The single loader's slot in the ROM: the search gives the first multiple of 16 from 0xC1 on,
-- within the ROM and 32 MiB, that has the required size, or that of the multi-ROM loader if it is
-- larger, erased behind it and an erased byte before it; and it gives none exactly when there is no
-- such slot.
pub find_internal_ff_loader_slot_first :
    (rom : List ℕ) (required_size : ℕ)
    → FirstSlot 1
        (max required_size multi_template_len)
        rom
        0xC0
        (min (length rom) max_card_image)
        (find_internal_ff_loader_slot rom required_size)
unfolding find_internal_ff_loader_slot
find_internal_ff_loader_slot_first rom required_size =
    slot_loop_first next_boundary-Boundary (max required_size multi_template_len) rom
      (min (length rom) max_card_image) (omega arith) (min (length rom) max_card_image) 0xC0
      (omega arith) (omega arith)

-- For a size above 0 the search in a built image gives the first multiple of 16 from 0xC0 on,
-- within the image and 32 MiB, with that many erased bytes behind it, and none exactly when there
-- is no such slot.
pub find_ff_slot_in_image_first :
    (image : List ℕ) (required_size : ℕ)
    → 0 < required_size
    → FirstSlot 0 required_size image 0xC0
        (min (length image) max_card_image)
        (find_ff_slot_in_image image required_size)
unfolding find_ff_slot_in_image
find_ff_slot_in_image_first image required_size some_bytes =
    slot_loop_first at_boundary-Boundary required_size image (min (length image) max_card_image)
      (omega arith) (min (length image) max_card_image) 0xC0 (omega arith) some_bytes
