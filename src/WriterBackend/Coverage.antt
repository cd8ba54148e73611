-- ===== src/WriterBackend/Coverage.antt =====
-- The sectors that src/libusb_writer_backend.cpp erases cover the image that it programs.
use ezfadvance_iii.Prelude.{
  ℕ, zero, suc, ◌+◌, ◌-◌, ◌*◌, ◌/◌, ◌%◌, ◌≤◌, ◌<◌, ◌≡◌, inl, inr, refl, true, false, ◌&&◌, List, [],
  ◌∷◌, ◌++◌, ltb, leb, ◌==◌, if◌then◌else◌, arith, Bool-cases,
}
use mathlib.Core.List.{Memᴰ}
use ezfadvance_iii.CardWipe.{addresses_from}
use ezfadvance_iii.WriterBackend.Erase.{
  flash_window_size, card_half_size, selective_loop, selective_bank0_erase_addresses,
  full_128mb_bank0_erase_addresses, full_128mb_bank1_erase_addresses, erase_groups,
}

-- The word address of the flash sector that a byte of a window lies in: the even windows have eight
-- sectors of 8 KiB at the bottom, the odd ones at the top, and all others have 64 KiB.
abbrev pub sector_of : ℕ → ℕ → ℕ
sector_of window byte =
    if (if window % 2 == 0 then ltb byte 0x10000 else leb 0x7F0000 byte)
    then byte / 0x2000 * 0x1000
    else byte / 0x10000 * 0x8000

module _ {ℓ} {A : Type ℓ} where
  Memᴰ-left : {x : A} (xs ys : List A) → Memᴰ x xs → Memᴰ x (xs ++ ys)
  Memᴰ-left [] ys m = elim m [ ]
  Memᴰ-left (y ∷ xs) ys (Memᴰ.head e) = Memᴰ.head e
  Memᴰ-left (y ∷ xs) ys (Memᴰ.tail m) = Memᴰ.tail (Memᴰ-left xs ys m)

  Memᴰ-right : {x : A} (xs ys : List A) → Memᴰ x ys → Memᴰ x (xs ++ ys)
  Memᴰ-right [] ys m = m
  Memᴰ-right (y ∷ xs) ys m = Memᴰ.tail (Memᴰ-right xs ys m)

addresses_from-Memᴰ :
    (count first stride k a : ℕ)
    → k < count
    → a ≡ first + k * stride
    → Memᴰ a (addresses_from count first stride)
unfolding addresses_from
addresses_from-Memᴰ zero first stride k a lt e = absurd (omega arith)
addresses_from-Memᴰ (suc count) first stride zero a lt e = Memᴰ.head (omega arith)
addresses_from-Memᴰ (suc count) first stride (suc k) a lt e =
    let e' : a ≡ first + stride + k * stride = ground arith in
    Memᴰ.tail (addresses_from-Memᴰ count (first + stride) stride k a (omega arith) e')

selective_loop-Memᴰ :
    (size rounds start byte : ℕ)
    → start ≤ byte
    → byte < size
    → start % 0x10000 ≡ 0
    → size ≤ start + rounds * 0x10000
    → size ≤ 0x800000
    → Memᴰ (byte / 0x10000 * 0x8000) (selective_loop size rounds start)
unfolding selective_loop
selective_loop-Memᴰ size zero start byte lo hi whole enough small = absurd (omega arith)
selective_loop-Memᴰ size (suc rounds) start byte lo hi whole enough small =
    let goes : ltb start size ≡ true = ground arith in
    elim (Bool-cases (ltb byte (start + 0x10000))) [
      | inl e ↦ rw goes (Memᴰ.head (ground arith))
      | inr e ↦ rw goes (
          Memᴰ.tail (
            selective_loop-Memᴰ size rounds (start + 0x10000) byte (ground arith) hi (omega arith)
              (omega arith) small))
    ]

-- The boot sectors and the first large one.
boot-Memᴰ : (byte : ℕ) → byte < 0x20000 → Memᴰ (sector_of 0 byte) (addresses_from 9 0 0x1000)
boot-Memᴰ byte lt = elim (Bool-cases (ltb byte 0x10000)) [
  | inl e ↦ rw e (addresses_from-Memᴰ 9 0 0x1000 (byte / 0x2000) _ (ground arith) (omega arith))
  | inr e ↦ rw e (addresses_from-Memᴰ 9 0 0x1000 8 _ (omega arith) (ground arith))
]

selective-Memᴰ :
    (size byte : ℕ)
    → byte < size
    → size ≤ 0x800000
    → Memᴰ (sector_of 0 byte) (selective_bank0_erase_addresses size)
unfolding selective_bank0_erase_addresses
selective-Memᴰ size byte lt small = elim (Bool-cases (ltb byte 0x20000)) [
  | inl e ↦ Memᴰ-left _ _ (boot-Memᴰ byte (ground arith))
  | inr e ↦
      let far : ltb byte 0x10000 ≡ false = ground arith in
      rw far (
        Memᴰ-right (addresses_from 9 0 0x1000) _ (
          selective_loop-Memᴰ size (size / 0x10000 + 1) 0x20000 byte (ground arith) lt refl
            (omega arith) small))
]

even-Memᴰ : (byte : ℕ) → byte < 0x800000 → Memᴰ (sector_of 0 byte) full_128mb_bank0_erase_addresses
unfolding full_128mb_bank0_erase_addresses
even-Memᴰ byte lt = elim (Bool-cases (ltb byte 0x20000)) [
  | inl e ↦ Memᴰ-left _ _ (boot-Memᴰ byte (ground arith))
  | inr e ↦
      let far : ltb byte 0x10000 ≡ false = ground arith in
      rw far (
        Memᴰ-right (addresses_from 9 0 0x1000) _ (
          addresses_from-Memᴰ 126 0x10000 0x8000 (byte / 0x10000 - 2) _ (ground arith)
            (ground arith)))
]

odd-Memᴰ : (byte : ℕ) → byte < 0x800000 → Memᴰ (sector_of 1 byte) full_128mb_bank1_erase_addresses
unfolding full_128mb_bank1_erase_addresses
odd-Memᴰ byte lt = elim (Bool-cases (leb 0x7F0000 byte)) [
  | inr e ↦ rw e (
      Memᴰ-left _ _
        (addresses_from-Memᴰ 128 0 0x8000 (byte / 0x10000) _ (omega arith) (omega arith)))
  | inl e ↦ elim (Bool-cases (ltb byte 0x7F2000)) [
    | inl f ↦
        rw e (Memᴰ-left _ _ (addresses_from-Memᴰ 128 0 0x8000 127 _ (omega arith) (ground arith)))
    | inr f ↦ rw e (
        Memᴰ-right (addresses_from 128 0 0x8000) _ (
          addresses_from-Memᴰ 7 0x3F9000 0x1000 (byte / 0x2000 - 0x3F9) _ (ground arith)
            (ground arith)))
  ]
]

-- A group for the window with the byte's sector.
abbrev pub ErasedAt : ℕ → ℕ → ℕ → Type 0
ErasedAt size window byte =
    (addresses : List ℕ) × Memᴰ (window, addresses) (erase_groups size)
    × Memᴰ (sector_of window byte) addresses

module _ (size : ℕ) (large : leb size flash_window_size ≡ false) where
  first_windows : (byte : ℕ) → byte < 0x800000 → ErasedAt size 0 byte × ErasedAt size 1 byte
  unfolding erase_groups
  first_windows byte lt = rw large (
    (full_128mb_bank0_erase_addresses, Memᴰ.head refl, even-Memᴰ byte lt),
    (full_128mb_bank1_erase_addresses, Memᴰ.tail (Memᴰ.head refl), odd-Memᴰ byte lt),
  )

  third_window : (byte : ℕ) → byte < 0x800000 → card_half_size + byte < size → ErasedAt size 2 byte
  unfolding erase_groups
  third_window byte lt inside =
      let half : ltb card_half_size size ≡ true = ground arith in
      let here = ltb card_half_size size && leb size (card_half_size + 0x2000) in
      elim (Bool-cases here) [
        | inl tiny ↦
            let first : byte / 0x2000 * 0x1000 ≡ 0 = ground arith in
            let near : ltb byte 0x10000 ≡ true = ground arith in
            rw (large, tiny, half, near)
              (0x0000 ∷ [], Memᴰ.tail (Memᴰ.tail (Memᴰ.head refl)), Memᴰ.head first)
        | inr full ↦
            rw (large, full, half)
              (
                full_128mb_bank0_erase_addresses,
                Memᴰ.tail (Memᴰ.tail (Memᴰ.head refl)),
                even-Memᴰ byte lt,
              )
      ]

  fourth_window :
      (byte : ℕ)
      → byte < 0x800000
      → card_half_size + flash_window_size + byte < size
      → ErasedAt size 3 byte
  unfolding erase_groups
  fourth_window byte lt inside =
      let half : ltb card_half_size size ≡ true = ground arith in
      let last : ltb (card_half_size + flash_window_size) size ≡ true = ground arith in
      rw (large, half, last)
        (
          full_128mb_bank1_erase_addresses,
          Memᴰ.tail (Memᴰ.tail (Memᴰ.tail (Memᴰ.head refl))),
          odd-Memᴰ byte lt,
        )

-- Before an image of at most 32 MiB is programmed every byte of it is erased: the erase has a group
-- for the byte's window, and the group has the sector that the byte lies in.
pub erase_groups-ErasedAt :
    (size card_byte : ℕ)
    → card_byte < size
    → size ≤ 0x2000000
    → ErasedAt size (card_byte / flash_window_size) (card_byte % flash_window_size)
unfolding erase_groups
erase_groups-ErasedAt size card_byte inside fits =
    let window = card_byte / flash_window_size in
    let byte = card_byte % flash_window_size in
    let lt : byte < 0x800000 = omega arith in
    elim (Bool-cases (leb size flash_window_size)) [
      | inl small ↦
          let zeroth : window ≡ 0 = ground arith in
          let same : byte ≡ card_byte = ground arith in
          rw (zeroth, same, small)
            (
              selective_bank0_erase_addresses size,
              Memᴰ.head refl,
              selective-Memᴰ size card_byte inside (ground arith),
            )
      | inr large ↦ elim (Bool-cases (leb window 1)) [
        | inl low ↦ elim (Bool-cases (window == 0)) [
          | inl w0 ↦ let e : window ≡ 0 = ground arith in rw e (first_windows size large byte lt).0
          | inr w1 ↦ let e : window ≡ 1 = ground arith in rw e (first_windows size large byte lt).1
        ]
        | inr high ↦ elim (Bool-cases (window == 2)) [
          | inl w2 ↦
              let e : window ≡ 2 = ground arith in
              rw e (third_window size large byte lt (omega arith))
          | inr w3 ↦
              let e : window ≡ 3 = ground arith in
              rw e (fourth_window size large byte lt (omega arith))
        ]
      ]
    ]
