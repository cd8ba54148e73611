-- ===== src/Verification/Contents.antt =====
-- The linear verification of src/verification_session.cpp against the contents of a card.
use ezfadvance_iii.Prelude.{
  ℕ, zero, suc, ◌+◌, ◌-◌, ◌*◌, ◌/◌, ◌^◌, ◌≤◌, ◌<◌, ◌≡◌, ◌↔◌, inl, inr, refl, sym, ◌∙◌, ap, Bool,
  true, false, List, [], ◌∷◌, ◌++◌, ltb, ◌==◌, if◌then◌else◌, length, take, drop, min, Bool-cases,
  length-take, length-drop, get_or-take, get_or-drop, arith,
}
use mathlib.Core.List.{append-nil, append_assoc}
use ezfadvance_iii.Prelude.Bytes.{byte_at, u32}
use ezfadvance_iii.Prelude.Result.{ok}
use ezfadvance_iii.CartridgeFormat.Words.{length-write_le32}
use ezfadvance_iii.Usb.{
  World, Action, Answer, Event, wrote, received, sent, asked, ◌&&&◌, bulk_out, in_max, in_exact,
}
use ezfadvance_iii.Verification.{
  block_size, usb_timeout_ms, read_bytes, expected_byte, compare_block, read_block, send_command,
  verify_loop, verify_linear,
}
use ezfadvance_iii.Verification.Compare.{Compared, compare_block_sound, compare_block_complete}
use ezfadvance_iii.Verification.Commands.{read_bytes-command_at, read_events}
use ezfadvance_iii.Verification.Blocks.{read_command-ok, LoopOffset, LoopOffset-next}

-- The card's memory agrees with the image on the compared bytes from `start` to before `end`.
abbrev pub Agrees : List ℕ → List ℕ → Bool → ℕ → ℕ → Type 0
Agrees image memory strict start end =
    (i : ℕ)
    → start ≤ i
    → i < end
    → Compared image strict i
    → byte_at memory i ≡ expected_byte image i

take_all : (n : ℕ) (xs : List ℕ) → length xs ≡ n → take n xs ≡ xs
take_all zero [] h = refl
take_all zero (x ∷ xs) h = absurd (omega arith)
take_all (suc n) [] h = absurd (omega arith)
take_all (suc n) (x ∷ xs) h = ap (λ ys. x ∷ ys) (take_all n xs (omega arith))

-- The answers of a card that serves its memory: every command is taken, and every read gives the
-- block at its offset.
abbrev pub served : List ℕ → ℕ → ℕ → ℕ → List Answer
served memory verify_size zero offset = []
served memory verify_size (suc rounds) offset =
    let count = min block_size (verify_size - offset) in
    let rest = served memory verify_size rounds (offset + count) in
    if ltb offset verify_size
    then (wrote 13 ∷ received (take count (drop offset memory)) ∷ rest)
    else []

length-read_bytes : (word count : ℕ) → length (read_bytes word count) ≡ 13
length-read_bytes word count = length-write_le32 _ 8 (u32 count) ∙ length-write_le32 _ 4 (u32 word)

module _ (image : List ℕ) (offset count : ℕ) (strict : Bool) (block : List ℕ)
    (full : length block ≡ count) where
  read_block-served :
      (more : List Answer) (log : List Event)
      → read_block image offset count strict (record { answers = received block ∷ more; log = log })
        ≡ (
          compare_block image offset block strict,
          record { answers = more; log = log ++ (asked usb_timeout_ms count ∷ []) },
        )
  unfolding in_exact in_max
  read_block-served more log =
      let whole : take count block ≡ block = take_all count block full in
      let test : (length block == count) ≡ true = ground arith in rw (whole, test) refl

  -- The world behind the two transfers.
  abbrev read_world : ℕ → List Answer → List Event → World
  read_world word more log = record {
    answers = more;
    log =
        (log ++ (sent usb_timeout_ms (read_bytes word count) ∷ []))
        ++ (asked usb_timeout_ms count ∷ []);
  }

  step-served :
      (word : ℕ) (rest : Action) (more : List Answer) (log : List Event)
      → (send_command (ok (read_bytes word count))
            &&& read_block image offset count strict
            &&& rest)
          (record { answers = wrote 13 ∷ received block ∷ more; log = log })
        ≡ (if compare_block image offset block strict
            then rest (read_world word more log)
            else (false, read_world word more log))
  unfolding bulk_out
  step-served word rest more log =
      let long : (13 == length (read_bytes word count)) ≡ true =
        ground (arith, length-read_bytes word count) in
      let reads =
        read_block-served more (log ++ (sent usb_timeout_ms (read_bytes word count) ∷ [])) in
      rw long (ap (λ (p : Bool × World). if p.0 then rest p.1 else (false, p.1)) reads)

module _ (image memory : List ℕ) (verify_size : ℕ) (strict : Bool) (small : verify_size ≤ 2 ^ 32)
    (room : verify_size ≤ length memory) where
  -- The block at an offset of the loop.
  abbrev count_at : ℕ → ℕ
  count_at offset = min block_size (verify_size - offset)

  abbrev block_at : ℕ → List ℕ
  block_at offset = take (count_at offset) (drop offset memory)

  length-block_at : (offset : ℕ) → offset < verify_size → length (block_at offset) ≡ count_at offset
  length-block_at offset lt =
      omega (arith, length-take (count_at offset) (drop offset memory), length-drop offset memory)

  byte_at-block_at :
      (offset k : ℕ)
      → k < count_at offset
      → byte_at (block_at offset) k ≡ byte_at memory (offset + k)
  byte_at-block_at offset k lt =
      let taken : byte_at (block_at offset) k ≡ byte_at (drop offset memory) k =
        ground (arith, get_or-take (count_at offset) (drop offset memory) k 0) in
      taken ∙ get_or-drop offset memory k 0

  verify_loop-served :
      (rounds offset : ℕ) (log : List Event)
      → LoopOffset verify_size offset
      → verify_size ≤ offset + rounds * block_size
      → ((verify_loop image verify_size strict rounds offset
            (record { answers = served memory verify_size rounds offset; log = log })).0
          ≡ true)
        ↔ Agrees image memory strict offset verify_size
  unfolding verify_loop
  verify_loop-served zero offset log at enough = (λ h i low high c. absurd (omega arith), λ h. refl)
  verify_loop-served (suc rounds) offset log at enough =
      let count = count_at offset in
      let more = served memory verify_size rounds (offset + count) in
      let rest = verify_loop image verify_size strict rounds (offset + count) in
      elim (Bool-cases (ltb offset verify_size)) [
        | inr e ↦ rw e (λ h i low high c. absurd (ground arith), λ h. refl)
        | inl e ↦
            let lt : offset < verify_size = ground arith in
            let full = length-block_at offset lt in
            let command =
              read_command-ok offset count (ground arith) (ground arith) (omega arith) in
            let w =
              read_world image offset count strict (block_at offset) full (offset / 2) more log in
            let (to, from) =
              verify_loop-served rounds (offset + count) w.log
                (LoopOffset-next verify_size offset at) (omega arith) in
            let step =
              step-served image offset count strict (block_at offset) full (offset / 2) rest more
                log in
            elim (Bool-cases (compare_block image offset (block_at offset) strict)) [
              | inl same ↦
                  rw (e, command, step, same)
                    (
                      λ h i low high c. elim (Bool-cases (ltb i (offset + count))) [
                        | inl near ↦
                            let k = i - offset in
                            let at_k : offset + k ≡ i = omega arith in
                            let inside : k < count = ground arith in
                            let there =
                              compare_block_sound image (block_at offset) offset strict k same
                                (omega arith) (rw at_k c) in
                            ap (byte_at memory) (sym at_k)
                            ∙ sym (byte_at-block_at offset k inside)
                            ∙ there
                            ∙ ap (expected_byte image) at_k
                        | inr far ↦ to h i (ground arith) high c
                      ],
                      λ h. from (λ i low high c. h i (omega arith) high c),
                    )
              | inr other ↦
                  rw (e, command, step, other)
                    (
                      λ h. absurd (ground arith),
                      λ h. absurd (
                          let same : compare_block image offset (block_at offset) strict ≡ true =
                            compare_block_complete image (block_at offset) offset strict (λ k lt c.
                              (let inside : k < count = omega arith in
                                byte_at-block_at offset k inside
                                ∙ h (offset + k) (omega arith) (omega arith) c)) in
                          ground arith),
                    )
            ]
      ]

  -- A verification that succeeds has read each block at its own address, and nothing else.
  verify_loop_log :
      (rounds offset : ℕ) (log : List Event)
      → LoopOffset verify_size offset
      → verify_size ≤ offset + rounds * block_size
      → (verify_loop image verify_size strict rounds offset
          (record { answers = served memory verify_size rounds offset; log = log })).0
        ≡ true
      → verify_loop image verify_size strict rounds offset
          (record { answers = served memory verify_size rounds offset; log = log })
        ≡ (true, record { answers = []; log = log ++ read_events verify_size rounds offset })
  unfolding verify_loop
  verify_loop_log zero offset log at enough h = rw append-nil refl
  verify_loop_log (suc rounds) offset log at enough h =
      let count = count_at offset in
      let more = served memory verify_size rounds (offset + count) in
      let rest = verify_loop image verify_size strict rounds (offset + count) in
      elim (Bool-cases (ltb offset verify_size)) [
        | inr e ↦ rw (e, append-nil) refl
        | inl e ↦
            let lt : offset < verify_size = ground arith in
            let full = length-block_at offset lt in
            let command =
              read_command-ok offset count (ground arith) (ground arith) (omega arith) in
            let w =
              read_world image offset count strict (block_at offset) full (offset / 2) more log in
            let step =
              step-served image offset count strict (block_at offset) full (offset / 2) rest more
                log in
            elim (Bool-cases (compare_block image offset (block_at offset) strict)) [
              | inl same ↦
                  let others =
                    verify_loop_log rounds (offset + count) w.log
                      (LoopOffset-next verify_size offset at) (omega arith)
                      (rw (e, command, step, same) at h) in
                  rw (e, command, step, same)
                    (others
                      ∙ rw (append_assoc, append_assoc)
                          (ap
                            (λ (c : List ℕ). (
                              true,
                              record {
                                answers = [];
                                log =
                                    log
                                    ++ (sent usb_timeout_ms c
                                        ∷ asked usb_timeout_ms count
                                        ∷ read_events verify_size rounds (offset + count));
                              },
                            ))
                            (read_bytes-command_at (offset / 2) count)))
              | inr other ↦ absurd (let k = rw (e, command, step, other) at h in cc)
            ]
      ]

-- A linear verification of at most 4 GiB against a card that serves its memory succeeds exactly
-- when the memory agrees with the image on every byte that is compared: on every byte of the image,
-- and, where the padding is wanted, on 0xFF behind it up to the verified size. It has then read each
-- block at its own address, in order, and done nothing else.
pub verify_linear_iff :
    (image memory : List ℕ) (verify_size : ℕ) (strict : Bool) (log : List Event)
    → verify_size ≤ 2 ^ 32
    → verify_size ≤ length memory
    → let w : World = record {
      answers = served memory verify_size (verify_size / block_size + 1) 0;
      log = log;
    } in
      (((verify_linear image verify_size strict w).0 ≡ true)
        ↔ Agrees image memory strict 0 verify_size)
      × ((verify_linear image verify_size strict w ≡ (
        true,
        record {
          answers = [];
          log = log ++ read_events verify_size (verify_size / block_size + 1) 0;
        },
      ))
          ↔ Agrees image memory strict 0 verify_size)
unfolding verify_linear
verify_linear_iff image memory verify_size strict log small room =
    let rounds = verify_size / block_size + 1 in
    let (to, from) =
      verify_loop-served image memory verify_size strict small room rounds 0 log (inl refl)
        (omega arith) in
    (
      (to, from),
      (
        λ e. to (ap (λ p. p.0) e),
        λ h.
            verify_loop_log image memory verify_size strict small room rounds 0 log (inl refl)
              (omega arith) (from h),
      ),
    )
