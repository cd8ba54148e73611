-- ===== src/ImageBuilder/Slots.antt =====
-- The slot search of src/cartridge_image_builder.cpp, find_internal_ff_loader_slot and
-- find_ff_slot_in_image: a slot lies in an erased run, and a search that finds none had none.
use ezfadvance_iii.Prelude.{
  ℕ, zero, suc, ◌+◌, ◌-◌, ◌%◌, ◌≤◌, ◌<◌, Bool, true, ◌&&◌, ◌≡◌, ◌≢◌, inl, inr, List, leb, ◌==◌,
  ◌!=◌, Bool-cases, arith,
}
use ezfadvance_iii.Prelude.Bits.{bit_and_sixteen}
use ezfadvance_iii.Prelude.Bytes.{u32, byte_at}
use ezfadvance_iii.ImageBuilder.{skip_data, skip_erased, at_boundary, next_boundary}

module _ (image : List ℕ) where
  pub skip_data-le :
      (left i : ℕ) → (i ≤ skip_data image left i) × (skip_data image left i ≤ i + left)
  unfolding skip_data
  skip_data-le zero i = (omega arith, omega arith)
  skip_data-le (suc left) i = let (lo, hi) = skip_data-le left (i + 1) in ground arith

  pub skip_data_passed :
      (left i k : ℕ) → i ≤ k → k < skip_data image left i → byte_at image k ≢ 0xFF
  unfolding skip_data
  skip_data_passed zero i k lo hi = absurd (omega arith)
  skip_data_passed (suc left) i k lo hi = elim (Bool-cases (byte_at image i != 0xFF)) [
    | inl e ↦ elim (Bool-cases (i == k)) [
      | inl same ↦ rw (← (let p : i ≡ k = ground arith in p)) (λ f. ground arith)
      | inr other ↦ skip_data_passed left (i + 1) k (ground arith) (rw e at hi)
    ]
    | inr e ↦ absurd (let p : k < i = rw e at hi in omega arith)
  ]

  pub skip_erased-le :
      (left i : ℕ) → (i ≤ skip_erased image left i) × (skip_erased image left i ≤ i + left)
  unfolding skip_erased
  skip_erased-le zero i = (omega arith, omega arith)
  skip_erased-le (suc left) i = let (lo, hi) = skip_erased-le left (i + 1) in ground arith

  pub skip_erased_passed :
      (left i k : ℕ) → i ≤ k → k < skip_erased image left i → byte_at image k ≡ 0xFF
  unfolding skip_erased
  skip_erased_passed zero i k lo hi = absurd (omega arith)
  skip_erased_passed (suc left) i k lo hi = elim (Bool-cases (byte_at image i == 0xFF)) [
    | inl e ↦ elim (Bool-cases (i == k)) [
      | inl same ↦ rw (← (let p : i ≡ k = ground arith in p)) (ground arith)
      | inr other ↦ skip_erased_passed left (i + 1) k (ground arith) (rw e at hi)
    ]
    | inr e ↦ absurd (let p : k < i = rw e at hi in omega arith)
  ]

  -- The run ends at the limit or at a byte that is not erased.
  pub skip_erased_end :
      (left i : ℕ)
      → skip_erased image left i < i + left
      → byte_at image (skip_erased image left i) ≢ 0xFF
  unfolding skip_erased
  skip_erased_end zero i h = absurd (omega arith)
  skip_erased_end (suc left) i h = elim (Bool-cases (byte_at image i == 0xFF)) [
    | inl e ↦ rw e (skip_erased_end left (i + 1) (omega (arith, rw e at h)))
    | inr e ↦ rw e (λ f. ground arith)
  ]

  -- The skip stops at an erased byte or at the limit.
  pub skip_data_end :
      (left i : ℕ)
      → skip_data image left i < i + left
      → byte_at image (skip_data image left i) ≡ 0xFF
  unfolding skip_data
  skip_data_end zero i h = absurd (omega arith)
  skip_data_end (suc left) i h = elim (Bool-cases (byte_at image i != 0xFF)) [
    | inl e ↦ rw e (skip_data_end left (i + 1) (omega (arith, rw e at h)))
    | inr e ↦ rw e (ground arith)
  ]

-- Every byte from `start` to before `end` is erased.
abbrev pub Erased : List ℕ → ℕ → ℕ → Type 0
Erased image start end = (k : ℕ) → start ≤ k → k < end → byte_at image k ≡ 0xFF

-- A rounding of a run's start that leaves `gap` bytes at least: the least multiple of 16 that does.
pub record Boundary (gap : ℕ) (aligned : ℕ → ℕ) : Type 0 where
  pub above : (r : ℕ) → r ≤ 0x2000000 → r + gap ≤ aligned r
  pub multiple : (r : ℕ) → r ≤ 0x2000000 → aligned r % 16 ≡ 0
  pub least : (r s : ℕ) → r ≤ 0x2000000 → r + gap ≤ s → s % 16 ≡ 0 → aligned r ≤ s

pub at_boundary-Boundary : Boundary 0 at_boundary
at_boundary-Boundary = record {
  above = λ r h. omega (arith, bit_and_sixteen (r + 15) (omega arith));
  multiple = λ r h. omega (arith, bit_and_sixteen (r + 15) (omega arith));
  least = λ r s h le m. omega (arith, bit_and_sixteen (r + 15) (omega arith));
}

pub next_boundary-Boundary : Boundary 1 next_boundary
next_boundary-Boundary = record {
  above = λ r h. omega (arith, bit_and_sixteen (r + 16) (omega arith));
  multiple = λ r h. omega (arith, bit_and_sixteen (r + 16) (omega arith));
  least = λ r s h le m. omega (arith, bit_and_sixteen (r + 16) (omega arith));
}

-- A slot of `reserve` erased bytes at a multiple of 16, with `gap` erased bytes before it.
pub record Slot (gap reserve : ℕ) (image : List ℕ) (low limit s : ℕ) : Type 0 where
  pub multiple : s % 16 ≡ 0
  pub within : s + reserve ≤ limit
  pub before : low + gap ≤ s
  pub erased : Erased image (s - gap) (s + reserve)

module _ {gap : ℕ} {aligned : ℕ → ℕ} (b : Boundary gap aligned) (reserve : ℕ) (image : List ℕ)
    (limit : ℕ) (small : limit ≤ 0x2000000) where
  -- Whether the run holds a slot.
  abbrev pub run_fits : ℕ → ℕ → Bool
  run_fits run_start run_end =
      leb (aligned run_start) run_end && leb reserve (run_end - aligned run_start)

  pub Slot-of_run :
      (i s : ℕ)
      → let run_start = skip_data image (limit - i) i in
        let run_end = skip_erased image (limit - run_start) run_start in
        i ≤ limit
        → run_fits run_start run_end ≡ true
        → u32 (aligned run_start) ≡ s
        → Slot gap reserve image i limit s
  Slot-of_run i s le fits e =
      let run_start = skip_data image (limit - i) i in
      let (lo, hi) = skip_data-le image (limit - i) i in
      let (lo', hi') = skip_erased-le image (limit - run_start) run_start in
      let ab = b.above run_start (omega arith) in
      let f : (aligned run_start ≤ skip_erased image (limit - run_start) run_start)
          × (reserve ≤ skip_erased image (limit - run_start) run_start - aligned run_start) =
        ground arith in
      let same : s ≡ aligned run_start = omega (arith, f) in
      rw same record {
        multiple = b.multiple run_start (omega arith);
        within = omega (arith, f);
        before = omega arith;
        erased = λ k low high.
            skip_erased_passed image (limit - run_start) run_start k (omega arith)
              (omega (arith, f));
      }
