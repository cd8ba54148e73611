-- ===== src/WriterBackend/Erase.antt =====
-- The erase of src/libusb_writer_backend.cpp: its sectors, and the windows that it selects.
use ezfadvance_iii.Prelude.{
  ℕ, zero, suc, ◌+◌, ◌*◌, ◌/◌, ◌≤◌, ◌≡◌, refl, Bool, true, false, ◌&&◌, List, [], ◌∷◌, ◌++◌, ltb,
  leb, ◌==◌, if◌then◌else◌, arith, Bool-cases, inl, inr, All,
}
use mathlib.Core.Path.{subst}
use ezfadvance_iii.Prelude.Bytes.{u32}
use ezfadvance_iii.CardWipe.Erase.{erase_script}
use ezfadvance_iii.Usb.{World, Action, ◌&&&◌, done, bulk_out}
use ezfadvance_iii.Usb.Traces.{Step, Performs, &&&-Performs, Performs-done}
use ezfadvance_iii.Usb.Transfers.{bulk_out-Performs}
use ezfadvance_iii.Protocol.Scripts.{two, one}
use ezfadvance_iii.FlashWindow.{writer_timing, options_of, select, finish_operation}
use ezfadvance_iii.FlashWindow.Scripts.{window_script, select-Performs, finish_operation-Performs}
use ezfadvance_iii.CardWipe.{addresses_from, checking, erase_command, erase_accepted}
use ezfadvance_iii.CardWipe.Transfers.{checking-Performs, erase_accepted-Accepts}

abbrev pub flash_window_size : ℕ
flash_window_size = 0x800000

abbrev pub card_half_size : ℕ
card_half_size = 0x1000000

-- `erase_sector`: the command, and a reply of 13 bytes that repeats it with status 0.
unfoldable pub writer_erase_sector : ℕ → Action
writer_erase_sector word_address =
    bulk_out (erase_command word_address) 5000
    &&& checking 64 5000 (erase_accepted (erase_command word_address))

-- The second loop of `selective_bank0_erase_addresses`.
unfoldable pub selective_loop : ℕ → ℕ → ℕ → List ℕ
selective_loop programmed_size zero byte_start = []
selective_loop programmed_size (suc rounds) byte_start =
    let rest = selective_loop programmed_size rounds (byte_start + 0x10000) in
    if ltb byte_start programmed_size then (u32 (byte_start / 2) ∷ rest) else []

-- `selective_bank0_erase_addresses`
unfoldable pub selective_bank0_erase_addresses : ℕ → List ℕ
selective_bank0_erase_addresses programmed_size =
    addresses_from 9 0 0x1000
    ++ selective_loop programmed_size (programmed_size / 0x10000 + 1) 0x20000

-- `full_128mb_bank0_erase_addresses`
unfoldable pub full_128mb_bank0_erase_addresses : List ℕ
full_128mb_bank0_erase_addresses = addresses_from 9 0 0x1000 ++ addresses_from 126 0x10000 0x8000

-- `full_128mb_bank1_erase_addresses`
unfoldable pub full_128mb_bank1_erase_addresses : List ℕ
full_128mb_bank1_erase_addresses = addresses_from 128 0 0x8000 ++ addresses_from 7 0x3F9000 0x1000

-- The groups of `erase_image_capture_faithful`, each a window with its addresses.
unfoldable pub erase_groups : ℕ → List (ℕ × List ℕ)
erase_groups programmed_size =
    let tiny_window2_tail =
      ltb card_half_size programmed_size && leb programmed_size (card_half_size + 0x2000) in
    let even_window = full_128mb_bank0_erase_addresses in
    let odd_window = full_128mb_bank1_erase_addresses in
    if leb programmed_size flash_window_size
    then ((0, selective_bank0_erase_addresses programmed_size) ∷ [])
    else (0, even_window)
      ∷ (1, odd_window)
      ∷ ((if ltb card_half_size programmed_size
            then ((2, if tiny_window2_tail then 0x0000 ∷ [] else even_window) ∷ [])
            else [])
          ++ (if ltb (card_half_size + flash_window_size) programmed_size
              then ((3, odd_window) ∷ [])
              else []))

-- The sectors of a group.
unfoldable pub erase_addresses : List ℕ → Action
erase_addresses [] = done
erase_addresses (a ∷ addresses) = writer_erase_sector a &&& (λ w. erase_addresses addresses w)

-- The groups behind the first, each in its window.
unfoldable pub erase_later : List (ℕ × List ℕ) → Action
erase_later [] = done
erase_later ((window, addresses) ∷ groups) =
    finish_operation writer_timing
    &&& select writer_timing window
    &&& erase_addresses addresses
    &&& (λ w. erase_later groups w)

-- The loop over the groups; the first is erased in the window that is selected.
unfoldable pub erase_all : List (ℕ × List ℕ) → Action
erase_all [] = done
erase_all ((window, addresses) ∷ groups) = erase_addresses addresses &&& erase_later groups

-- `erase_image_capture_faithful`
unfoldable pub erase_image_capture_faithful : ℕ → Action
erase_image_capture_faithful programmed_size = erase_all (erase_groups programmed_size)

-- The status sequence behind an operation.
abbrev pub finish_script : List Step
finish_script =
    two (options_of writer_timing) 0xFF 0xFF
    ++ (one (options_of writer_timing) 0x01 0x04
        ++ (one (options_of writer_timing) 0x00 0x00 ++ one (options_of writer_timing) 0x00 0x00))

-- A change of the window: the status sequence and the selection.
abbrev pub switch_script : ℕ → List Step
switch_script window =
    finish_script
    ++ window_script writer_timing (if window == 0 then 0x00 else 0x02) (window * 0x40)

abbrev pub later_script : List (ℕ × List ℕ) → List Step
later_script [] = []
later_script ((window, addresses) ∷ groups) =
    switch_script window ++ (erase_script addresses ++ later_script groups)

abbrev pub groups_script : List (ℕ × List ℕ) → List Step
groups_script [] = []
groups_script ((window, addresses) ∷ groups) = erase_script addresses ++ later_script groups

erase_addresses-Performs :
    (addresses : List ℕ) → Performs (erase_addresses addresses) (erase_script addresses)
unfolding erase_addresses writer_erase_sector
erase_addresses-Performs [] = Performs-done
erase_addresses-Performs (a ∷ addresses) =
    &&&-Performs
      (&&&-Performs (bulk_out-Performs (erase_command a) 5000)
        (checking-Performs 64 5000 _ (erase_command a) (erase_accepted-Accepts a)))
      (erase_addresses-Performs addresses)

pub switch-Performs :
    (window : ℕ)
    → window ≤ 3
    → Performs
        (finish_operation writer_timing &&& select writer_timing window)
        (switch_script window)
switch-Performs window small = elim (select-Performs writer_timing window) [
  | inl (_, performs) ↦ &&&-Performs (finish_operation-Performs writer_timing) performs
  | inr (large, _) ↦ absurd (omega arith)
]

-- Conjunctions associate.
&&&-assoc : (a b c : Action) → (a &&& b) &&& c ≡ a &&& b &&& c
&&&-assoc a b c i w = go (a w) i
  where
    go :
        (r : Bool × World)
        → (let (good, w') = (let (good, w') = r in if good then b w' else (false, w')) in
            if good then c w' else (false, w'))
          ≡ (let (good, w') = r in if good then (b &&& c) w' else (false, w'))
    go (true, u) = refl
    go (false, u) = refl

pub switched-Performs :
    {rest : Action} {t : List Step} (window : ℕ)
    → window ≤ 3
    → Performs rest t
    → Performs
        (finish_operation writer_timing &&& select writer_timing window &&& rest)
        (switch_script window ++ t)
switched-Performs {rest} {t} window small p =
    subst (λ act. Performs act (switch_script window ++ t))
      (&&&-assoc (finish_operation writer_timing) (select writer_timing window) rest)
      (&&&-Performs (switch-Performs window small) p)

InRange : List (ℕ × List ℕ) → Type 0
InRange groups = All (λ g. g.0 ≤ 3) groups

erase_later-Performs :
    (groups : List (ℕ × List ℕ))
    → InRange groups
    → Performs (erase_later groups) (later_script groups)
unfolding erase_later InRange
erase_later-Performs [] h = Performs-done
erase_later-Performs ((window, addresses) ∷ groups) (small, h) =
    switched-Performs window small
      (&&&-Performs (erase_addresses-Performs addresses) (erase_later-Performs groups h))

erase_groups-InRange : (size : ℕ) → InRange (erase_groups size)
unfolding erase_groups InRange
erase_groups-InRange size = elim (Bool-cases (leb size flash_window_size)) [
  | inl e ↦ rw e (omega arith, tt)
  | inr e ↦ rw e (
    omega arith,
    (
      omega arith,
      elim (Bool-cases (ltb card_half_size size)) [
        | inl f ↦ rw f (omega arith, last size)
        | inr f ↦ rw f (last size)
      ],
    ),
  )
]
  where
    last :
        (size : ℕ)
        → All {A = ℕ × List ℕ}
            (λ g. g.0 ≤ 3)
            (if ltb (card_half_size + flash_window_size) size
              then ((3, full_128mb_bank1_erase_addresses) ∷ [])
              else [])
    last size = elim (Bool-cases (ltb (card_half_size + flash_window_size) size)) [
      | inl g ↦ rw g (omega arith, tt)
      | inr g ↦ rw g tt
    ]

-- The erase of an image sends exactly the erase command of every address of its groups, in order,
-- each acknowledged before the next, with the status sequence and the selection of the window
-- before every group but the first.
pub erase_image-Performs :
    (size : ℕ) → Performs (erase_image_capture_faithful size) (groups_script (erase_groups size))
unfolding erase_image_capture_faithful erase_all InRange
erase_image-Performs size = all_groups (erase_groups size) (erase_groups-InRange size)
  where
    all_groups :
        (groups : List (ℕ × List ℕ))
        → InRange groups
        → Performs (erase_all groups) (groups_script groups)
    all_groups [] h = Performs-done
    all_groups ((window, addresses) ∷ groups) (small, h) =
        &&&-Performs (erase_addresses-Performs addresses) (erase_later-Performs groups h)
