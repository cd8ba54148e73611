-- ===== src/ImageBuilder/SingleImage.antt =====
-- What a successful build_single_image of src/cartridge_image_builder.cpp went through, and the
-- bytes of the image before the loader is written.
use ezfadvance_iii.Prelude.{
  ℕ, ◌+◌, ◌-◌, ◌≤◌, ◌<◌, ◌≡◌, inl, inr, Bool, true, false, List, [], ◌∷◌, length, ltb, ◌!=◌,
  Bool-cases, max, arith, copy_at, replicate, length-copy_at, length-fill, length-replicate,
  get_or-copy_at, get_or-fill,
}
use ezfadvance_iii.Prelude.Bytes.{byte_at}
use ezfadvance_iii.Prelude.Bits.{bit_and_byte}
use ezfadvance_iii.Prelude.Result.{ok, err, Result-cases}
use ezfadvance_iii.CartridgeFormat.{make_arm_branch, write_le32}
use ezfadvance_iii.ImageBuilder.{
  RomInfo, card_half_size, max_card_image, template_length, image_too_large, branch_target,
}
use ezfadvance_iii.ImageBuilder.Single.{
  single_loader_place, single_image_size, single_base, branched, finish_single, with_entry,
  single_template, place_single, build_single_image, single_template_len,
}
use ezfadvance_iii.ImageBuilder.SinglePlace.{single_loader_place_half}

-- What a successful build went through.
pub record Built (template : List ℕ) (r : RomInfo) (image : List ℕ) (start : ℕ) (second : Bool)
    (t : List ℕ) (patched : ℕ) : Type 0 where
  pub size : length template ≡ single_template_len
  pub place : single_loader_place r.data_ (length template) ≡ ok (start, second)
  pub entered : single_template template r start ≡ ok t
  pub fits : single_image_size r.data_ start (length t) second ≤ max_card_image
  pub branch : make_arm_branch start ≡ ok patched
  pub made :
      image
      ≡ copy_at start t (
          write_le32
            (single_base r.data_ (single_image_size r.data_ start (length t) second) start second)
            0
            patched)

unfoldable pub SomeBuilt : List ℕ → RomInfo → List ℕ → Type 0
SomeBuilt template r image =
    (start : ℕ) × (second : Bool) × (t : List ℕ) × (patched : ℕ) × Built template r image start
      second t patched

module _ (template : List ℕ) (r : RomInfo) (image : List ℕ)
    (size : length template ≡ single_template_len) where
  finish_single-Built :
      (start : ℕ) (second : Bool) (t : List ℕ)
      → single_loader_place r.data_ (length template) ≡ ok (start, second)
      → single_template template r start ≡ ok t
      → finish_single r.data_ start second t ≡ ok image
      → SomeBuilt template r image
  unfolding finish_single SomeBuilt
  finish_single-Built start second t place entered h =
      let total = single_image_size r.data_ start (length t) second in
      elim (Bool-cases (ltb max_card_image total)) [
        | inl e ↦ let q : err image_too_large ≡ ok image = rw e at h in absurd (ground arith)
        | inr e ↦
            let base = single_base r.data_ total start second in
            let q : branched start t base (make_arm_branch start) ≡ ok image = rw e at h in
            elim (Result-cases (make_arm_branch start)) [
              | inl (patched, b) ↦
                  let made : ok (copy_at start t (write_le32 base 0 patched)) ≡ ok image =
                    rw b at q in
                  (
                    start,
                    second,
                    t,
                    patched,
                    record {
                      size = size;
                      place = place;
                      entered = entered;
                      fits = ground arith;
                      branch = b;
                      made = cc made;
                    },
                  )
              | inr (x, b) ↦
                  let q' : err branch_target ≡ ok image = rw b at q in absurd (ground arith)
            ]
      ]

  place_single-Built :
      place_single template r (single_loader_place r.data_ (length template)) ≡ ok image
      → SomeBuilt template r image
  place_single-Built h = elim (Result-cases (single_loader_place r.data_ (length template))) [
    | inl ((start, second), place) ↦
        let q : with_entry r.data_ start second (single_template template r start) ≡ ok image =
          rw place at h in
        elim (Result-cases (single_template template r start)) [
          | inl (t, entered) ↦
              let q' : finish_single r.data_ start second t ≡ ok image = rw entered at q in
              finish_single-Built start second t place entered q'
          | inr (x, failed) ↦ let q' : err x ≡ ok image = rw failed at q in absurd (ground arith)
        ]
    | inr (x, failed) ↦ let q : err x ≡ ok image = rw failed at h in absurd (ground arith)
  ]

pub build_single_image-Built :
    (template : List ℕ) (rom : RomInfo) (image : List ℕ)
    → build_single_image template (rom ∷ []) ≡ ok image
    → SomeBuilt template (record rom { start = 0 }) image
unfolding build_single_image
build_single_image-Built template rom image h =
    elim (Bool-cases (length template != single_template_len)) [
      | inl e ↦ let q : err template_length ≡ ok image = rw e at h in absurd (ground arith)
      | inr e ↦
          place_single-Built template (record rom { start = 0 }) image (ground arith) (rw e at h)
    ]

-- The image's size has room for the ROM and the loader, and the ROM's size has a bound.
pub single_image_size-room :
    (rom : List ℕ) (template_size start size : ℕ) (second : Bool)
    → single_loader_place rom template_size ≡ ok (start, second)
    → size ≤ 0x10000
    → single_image_size rom start size second ≤ max_card_image
    → (length rom ≤ single_image_size rom start size second)
      × (start + size ≤ single_image_size rom start size second)
unfolding single_image_size
single_image_size-room rom template_size start size false place small h = (omega arith, omega arith)
single_image_size-room rom template_size start size true place small h =
    let (e, f) = single_loader_place_half rom template_size start place in
    let rounded = bit_and_byte (max (length rom) (start + size) + 0xFF) (omega arith) in
    (omega arith, omega arith)

module _ (rom : List ℕ) (size start : ℕ) (second : Bool) where
  pub length-single_base : length (single_base rom size start second) ≡ size
  unfolding single_base
  length-single_base = ground (
    arith,
    length-fill card_half_size (start - card_half_size) 0 (copy_at 0 rom (replicate size 0xFF)),
    length-copy_at 0 rom (replicate size 0xFF),
    length-replicate {A = ℕ} size 0xFF,
  )

  -- The ROM's bytes stand on the image.
  pub byte_at-single_base :
      (i : ℕ)
      → (second ≡ true → length rom ≡ card_half_size)
      → length rom ≤ size
      → i < length rom
      → byte_at (single_base rom size start second) i ≡ byte_at rom i
  unfolding single_base
  byte_at-single_base i half room lt = ground (
    arith,
    get_or-fill card_half_size (start - card_half_size) 0 (copy_at 0 rom (replicate size 0xFF)) i 0,
    get_or-copy_at 0 rom (replicate size 0xFF) i 0,
    length-replicate {A = ℕ} size 0xFF,
  )
