-- ===== src/ReadOnlyCartridge/Mapping.antt =====
-- The linear read mappings of src/read_only_cartridge.cpp: which address can be read after
-- `prepareLinearForAddress`.
use ezfadvance_iii.Prelude.{
  ℕ, ◌<◌, ◌≤◌, ◌+◌, ◌*◌, ◌/◌, ◌%◌, ◌≡◌, refl, inl, inr, Bool, true, false, Bool-cases, leb, ltb,
  arith,
}
use ezfadvance_iii.CartridgeFormat.{required_linear_read_limit}
use ezfadvance_iii.Usb.{World}
use ezfadvance_iii.ReadOnlyCartridge.{
  Session, mapped, prepare, map_linear, prepare_linear_16_mib, prepare_linear_24_mib,
  prepare_linear_32_mib, prepare_linear_for_address,
}

-- The words of the mapping of a limit.
pub data MappingWords : ℕ → ℕ → ℕ → ℕ → Type 0 where
  mib_16 : MappingWords 0x01000000 2 0x80 0
  mib_24 : MappingWords 0x01800000 2 0xC0 0
  mib_32 : MappingWords 0x02000000 0 0 2

-- What the preparation of an address comes to. A new limit is the least multiple of 8 MiB above
-- the address.
pub data Mapping (address : ℕ) (s : Session) : Bool × Session → Type 0 where
  out_of_card : 0x02000000 ≤ address → Mapping address s (false, s)
  mapped_before : address < 0x02000000 → address < s.linear_read_limit → Mapping address s (true, s)
  mapped_now :
      {mode high last limit : ℕ} {w : World}
      → MappingWords limit mode high last
      → limit ≡ (address / 0x00800000 + 1) * 0x00800000
      → s.linear_read_limit ≤ address
      → map_linear mode high last s.world ≡ (true, w)
      → Mapping address s (true, record s { world = w; linear_read_limit = limit })
  failed :
      {mode high last limit : ℕ} {w : World}
      → MappingWords limit mode high last
      → limit ≡ (address / 0x00800000 + 1) * 0x00800000
      → s.linear_read_limit ≤ address
      → map_linear mode high last s.world ≡ (false, w)
      → Mapping address s (false, record s { world = w })

run-Mapping :
    (address limit mode high last : ℕ) (s : Session) (got : Bool × World)
    → MappingWords limit mode high last
    → limit ≡ (address / 0x00800000 + 1) * 0x00800000
    → s.linear_read_limit ≤ address
    → map_linear mode high last s.world ≡ got
    → Mapping address s (mapped limit (got.0, record s { world = got.1 }))
run-Mapping address limit mode high last s (true, w) words e h run =
    Mapping.mapped_now words e h run
run-Mapping address limit mode high last s (false, w) words e h run = Mapping.failed words e h run

prepare-Mapping :
    (address limit mode high last : ℕ) (s : Session)
    → MappingWords limit mode high last
    → address < 0x02000000
    → limit ≡ (address / 0x00800000 + 1) * 0x00800000
    → s.linear_read_limit % 0x00800000 ≡ 0
    → Mapping address s (prepare limit (map_linear mode high last) s)
prepare-Mapping address limit mode high last s words small e aligned =
    elim (Bool-cases (leb limit s.linear_read_limit)) [
      | inl p ↦ rw p (Mapping.mapped_before small (ground arith))
      | inr p ↦ rw p (
          run-Mapping address limit mode high last s (map_linear mode high last s.world) words e
            (ground arith) refl)
    ]

pub prepare_linear_for_address-Mapping :
    (address : ℕ) (s : Session)
    → s.linear_read_limit % 0x00800000 ≡ 0
    → 0 < s.linear_read_limit
    → Mapping address s (prepare_linear_for_address address s)
unfolding prepare_linear_for_address prepare_linear_16_mib prepare_linear_24_mib
    prepare_linear_32_mib required_linear_read_limit
prepare_linear_for_address-Mapping address s aligned positive =
    elim (Bool-cases (ltb address 0x00800000)) [
      | inl p ↦ rw p (Mapping.mapped_before (ground arith) (ground arith))
      | inr p ↦ elim (Bool-cases (ltb address 0x01000000)) [
        | inl q ↦
            rw (p, q)
              (prepare-Mapping address 0x01000000 2 0x80 0 s mib_16 (ground arith) (ground arith)
                aligned)
        | inr q ↦ elim (Bool-cases (ltb address 0x01800000)) [
          | inl r ↦
              rw (p, q, r)
                (prepare-Mapping address 0x01800000 2 0xC0 0 s mib_24 (ground arith) (ground arith)
                  aligned)
          | inr r ↦ elim (Bool-cases (ltb address 0x02000000)) [
            | inl t ↦
                rw (p, q, r, t)
                  (prepare-Mapping address 0x02000000 0 0 2 s mib_32 (ground arith) (ground arith)
                    aligned)
            | inr t ↦ rw (p, q, r, t) (Mapping.out_of_card (ground arith))
          ]
        ]
      ]
    ]
