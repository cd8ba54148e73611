-- ===== src/Verification/Compare.antt =====
-- What compareBlock of src/verification_session.cpp decides of the bytes of a block.
use ezfadvance_iii.Prelude.{
  ℕ, zero, suc, ◌+◌, ◌<◌, ◌≡◌, ◌⊎◌, inl, inr, refl, Bool, true, false, not, ◌&&◌, List, [], ◌∷◌,
  leb, ◌!=◌, if◌then◌else◌, length, Bool-cases, arith,
}
use ezfadvance_iii.Prelude.Bytes.{byte_at}
use ezfadvance_iii.Verification.{expected_byte, compare_block}

-- Whether a byte is compared: bytes behind the image only when the padding is wanted.
abbrev pub Compared : List ℕ → Bool → ℕ → Type 0
Compared image strict i = (i < length image) ⊎ (strict ≡ true)

pub compare_block_sound :
    (image got : List ℕ) (offset : ℕ) (strict : Bool) (k : ℕ)
    → compare_block image offset got strict ≡ true
    → k < length got
    → Compared image strict (offset + k)
    → byte_at got k ≡ expected_byte image (offset + k)
unfolding compare_block
compare_block_sound image [] offset strict k h lt c = absurd (omega arith)
compare_block_sound image (b ∷ got) offset strict zero h lt c =
    let e : offset + 0 ≡ offset = omega arith in
    rw e (elim (Bool-cases (leb (length image) offset && not strict)) [
      | inl skipped ↦ absurd (ground arith)
      | inr compared ↦
          let h' : (if b != expected_byte image offset
                then false
                else compare_block image (offset + 1) got strict)
              ≡ true =
            rw compared at h in
          ground arith
    ])
compare_block_sound image (b ∷ got) offset strict (suc k) h lt c =
    let rest : compare_block image (offset + 1) got strict ≡ true = ground arith in
    let e : offset + suc k ≡ offset + 1 + k = omega arith in
    rw e (compare_block_sound image got (offset + 1) strict k rest (omega arith) (rw e at c))

pub compare_block_complete :
    (image got : List ℕ) (offset : ℕ) (strict : Bool)
    → ((k : ℕ)
        → k < length got
        → Compared image strict (offset + k)
        → byte_at got k ≡ expected_byte image (offset + k))
    → compare_block image offset got strict ≡ true
unfolding compare_block
compare_block_complete image [] offset strict h = refl
compare_block_complete image (b ∷ got) offset strict h =
    let rest : compare_block image (offset + 1) got strict ≡ true =
      compare_block_complete image got (offset + 1) strict (λ k lt c.
        (let e : offset + 1 + k ≡ offset + suc k = omega arith in
          rw e (h (suc k) (omega arith) (rw e at c)))) in
    elim (Bool-cases (leb (length image) offset && not strict)) [
      | inl skipped ↦ rw (skipped, rest) refl
      | inr compared ↦
          let e : offset + 0 ≡ offset = omega arith in
          let c : Compared image strict offset = elim (Bool-cases strict) [
            | inl s ↦ inr s
            | inr s ↦ inl (ground arith)
          ] in
          let first : b ≡ expected_byte image (offset + 0) = h 0 (omega arith) (rw e c) in
          let same : (b != expected_byte image offset) ≡ false =
            let first' : b ≡ expected_byte image offset = rw e at first in
            rw first' (ground arith) in
          rw (compared, same, rest) refl
    ]
