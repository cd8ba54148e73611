-- ===== src/CartridgeFormat/Sizes.antt =====
-- trimmedGbaRomSize and requiredLinearReadLimit of src/cartridge_format.cpp.
use ezfadvance_iii.Prelude.{
  ℕ, zero, suc, ◌+◌, ◌*◌, ◌/◌, ◌≤◌, ◌<◌, ◌≡◌, ◌≢◌, inl, inr, refl, sym, List, [], ◌∷◌, none, some,
  length, All, All-map, arith, Bool-cases, leb, ltb, ◌==◌, ◌&&◌, if◌then◌else◌,
}
use ezfadvance_iii.Prelude.Bytes.{byte_at}
use ezfadvance_iii.CartridgeFormat.{
  meaningful_end, first_size, supported_sizes, trimmed_gba_rom_size, required_linear_read_limit,
}
use mathlib.Core.List.{Memᴰ}
use native.Mathlib.Nat.{le_trans}

-- The limit is the least multiple of 8 MiB above the address; from 32 MiB on there is none.
pub required_linear_read_limit_lem :
    (inclusive_end : ℕ)
    → required_linear_read_limit inclusive_end ≡ (
        if ltb inclusive_end 0x02000000
        then some ((inclusive_end / 0x00800000 + 1) * 0x00800000)
        else none)
unfolding required_linear_read_limit
required_linear_read_limit_lem inclusive_end = ground arith

meaningful_end-le : (bytes : List ℕ) (n : ℕ) → meaningful_end bytes n ≤ n
unfolding meaningful_end
meaningful_end-le bytes zero = omega arith
meaningful_end-le bytes (suc n) = ground (arith, meaningful_end-le bytes n)

-- Behind the meaningful end there is only 0xFF.
meaningful_end_erased :
    (bytes : List ℕ) (n i : ℕ) → meaningful_end bytes n ≤ i → i < n → byte_at bytes i ≡ 0xFF
unfolding meaningful_end
meaningful_end_erased bytes zero i h k = absurd (omega arith)
meaningful_end_erased bytes (suc n) i h k = elim (Bool-cases (byte_at bytes n == 0xFF)) [
  | inl e ↦ elim (Bool-cases (i == n)) [
    | inl same ↦ rw (let p : i ≡ n = ground arith in p) (ground arith)
    | inr other ↦ meaningful_end_erased bytes n i (rw e at h) (ground arith)
  ]
  | inr e ↦ absurd (let p : suc n ≤ i = rw e at h in omega arith)
]

-- The last meaningful byte is not 0xFF.
meaningful_end_last :
    (bytes : List ℕ) (n k : ℕ) → meaningful_end bytes n ≡ suc k → byte_at bytes k ≢ 0xFF
unfolding meaningful_end
meaningful_end_last bytes zero k h = λ e. omega arith
meaningful_end_last bytes (suc n) k h = elim (Bool-cases (byte_at bytes n == 0xFF)) [
  | inl e ↦ meaningful_end_last bytes n k (rw e at h)
  | inr e ↦
      let p : n ≡ k = let q : suc n ≡ suc k = rw e at h in omega arith in
      rw (← p) (λ f. ground arith)
]

first_size_fits :
    (used available : ℕ) (sizes : List ℕ) {size : ℕ}
    → first_size used available sizes ≡ some size
    → Memᴰ size sizes × (used ≤ size) × (size ≤ available)
unfolding first_size
first_size_fits used available [] h = cc
first_size_fits used available (t ∷ sizes) {size} h =
    elim (Bool-cases (leb used t && leb t available)) [
      | inl e ↦
          let same : t ≡ size = let q : some t ≡ some size = rw e at h in ground arith in
          (Memᴰ.head (sym same), ground arith, ground arith)
      | inr e ↦
          let (m, lo, hi) = first_size_fits used available sizes (rw e at h) in
          (Memᴰ.tail m, lo, hi)
    ]

first_size_least :
    (used available size : ℕ)
    → first_size used available supported_sizes ≡ some size
    → All (λ t. t < size → t < used) supported_sizes
unfolding first_size
first_size_least used available size h = (
  ground arith,
  (ground arith, (ground arith, (ground arith, (ground arith, (ground arith, tt))))),
)

-- A byte at or behind `t` that is not erased.
abbrev pub Reaches : List ℕ → ℕ → Type 0
Reaches bytes t = (i : ℕ) × (t ≤ i) × (i < length bytes) × (byte_at bytes i ≢ 0xFF)

Reaches-of_lt : (bytes : List ℕ) (t : ℕ) → t < meaningful_end bytes (length bytes) → Reaches bytes t
Reaches-of_lt bytes t h = go (meaningful_end bytes (length bytes)) refl
  where
    go : (k : ℕ) → meaningful_end bytes (length bytes) ≡ k → Reaches bytes t
    go zero e = absurd (omega arith)
    go (suc k) e = (
      k,
      omega arith,
      omega (arith, meaningful_end-le bytes (length bytes)),
      meaningful_end_last bytes (length bytes) k e,
    )

-- A trimmed size is one of the supported sizes, lies within the image, has only 0xFF behind it, and
-- is the least such: any smaller supported size would cut off a byte that is not 0xFF. The image
-- has a byte that is not 0xFF.
pub trimmed_gba_rom_size_sound :
    (bytes : List ℕ) (size : ℕ)
    → trimmed_gba_rom_size bytes ≡ some size
    → Memᴰ size supported_sizes
      × (size ≤ length bytes)
      × ((i : ℕ) → size ≤ i → i < length bytes → byte_at bytes i ≡ 0xFF)
      × All (λ t. t < size → Reaches bytes t) supported_sizes
      × Reaches bytes 0
unfolding trimmed_gba_rom_size
trimmed_gba_rom_size_sound bytes size h =
    elim (Bool-cases (meaningful_end bytes (length bytes) == 0)) [
      | inl e ↦ let q : none ≡ some size = rw e at h in cc
      | inr e ↦
          let found : first_size (meaningful_end bytes (length bytes)) (length bytes)
                supported_sizes
              ≡ some size =
            rw e at h in
          let (m, lo, hi) = first_size_fits _ _ supported_sizes found in
          let least = first_size_least _ _ size found in
          let below : meaningful_end bytes (length bytes) ≤ size = lo in
          (
            m,
            hi,
            λ i a b. meaningful_end_erased bytes (length bytes) i (le_trans below a) b,
            All-map {P = λ t. t < size → t < meaningful_end bytes (length bytes)}
                {Q = λ t. t < size → Reaches bytes t} (λ t f lt. Reaches-of_lt bytes t (f lt))
                supported_sizes least,
            Reaches-of_lt bytes 0 (ground arith),
          )
    ]
