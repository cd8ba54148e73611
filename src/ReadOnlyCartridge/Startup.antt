-- ===== src/ReadOnlyCartridge/Startup.antt =====
-- The start of a read session and the classification of the cartridge:
-- `classifyCartridgeContent`, `initialize` and `finishSession` of src/read_only_cartridge.cpp.
use ezfadvance_iii.Prelude.{ℕ, Bool, true, false, Option, none, some, List, [], ◌∷◌}
use ezfadvance_iii.Prelude.Text.{same_text}
use ezfadvance_iii.Prelude.Result.{Result, ok, ◌>>=◌}
use ezfadvance_iii.Catalog.{structural_slot_count}
use ezfadvance_iii.Usb.{Action, ◌&&&◌, bulk_out}
use ezfadvance_iii.CardWipe.{finish_readiness_transition}
use ezfadvance_iii.Options.CardReader.{CartridgeKind, unknown, ez3_flash, official_gba_rom}
use ezfadvance_iii.ReadOnlyCartridge.{
  Session, CartridgeError, ReadStatus, loaded, read_failed, missing_branch, branch_out_of_range,
  invalid_catalog, entry_limit_exceeded, CatalogRead, timeout_ms, transfer, two, reply, startup,
  probe_prefix, probe_reset, tx92_two_at, read91_sub2_four, classify_probe_behavior,
  classify_content_header, read, read_catalog,
}

abbrev kind_of_header : Option (List ℕ) → CartridgeKind
kind_of_header none = unknown
kind_of_header (some header) = classify_content_header header

abbrev classify_content_of : ReadStatus → Session → Result CartridgeError (CartridgeKind × Session)
classify_content_of loaded s = ok (ez3_flash, s)
classify_content_of read_failed s = read 0 0xC0 s >>= λ got. ok (kind_of_header got.0, got.1)
classify_content_of missing_branch s = read 0 0xC0 s >>= λ got. ok (kind_of_header got.0, got.1)
classify_content_of branch_out_of_range s =
    read 0 0xC0 s >>= λ got. ok (kind_of_header got.0, got.1)
classify_content_of invalid_catalog s = read 0 0xC0 s >>= λ got. ok (kind_of_header got.0, got.1)
classify_content_of entry_limit_exceeded s =
    read 0 0xC0 s >>= λ got. ok (kind_of_header got.0, got.1)

-- `ReadOnlyCartridge::classifyCartridgeContent`
unfoldable pub classify_cartridge_content :
    Session → Result CartridgeError (CartridgeKind × Session)
classify_cartridge_content s = read_catalog 0x02000000 structural_slot_count s >>= λ found.
    classify_content_of (CatalogRead.status found.0) found.1

abbrev of_kind : CartridgeKind → Session → Result CartridgeError (CartridgeKind × Session)
of_kind unknown s = classify_cartridge_content s
of_kind ez3_flash s = ok (ez3_flash, s)
of_kind official_gba_rom s = ok (official_gba_rom, s)

abbrev pub command95 : List ℕ
command95 = 0x5A ∷ 0xA5 ∷ 0x95 ∷ 0 ∷ 0x80 ∷ 0 ∷ 0 ∷ 0 ∷ 0 ∷ 0 ∷ 0 ∷ 0 ∷ 0 ∷ []

-- The first transactions, up to the first flash identifier.
unfoldable pub probe_first : Action
probe_first =
    startup
    &&& probe_prefix
    &&& tx92_two_at 0x555 0xAA 0
    &&& tx92_two_at 0x2AA 0x55 0
    &&& tx92_two_at 0x555 0x90 0

-- The transactions between the two flash identifiers.
unfoldable pub probe_second : Action
probe_second = two 0x90 0 &&& probe_reset true &&& probe_prefix &&& two 0x90 0

-- The command 0x95 and its echo.
unfoldable pub prime : Action
prime = bulk_out command95 timeout_ms &&& reply 13 (λ echo. same_text echo command95)

abbrev is_some : Option (List ℕ) → Bool
is_some none = false
is_some (some bytes) = true

abbrev primed : Bool × Session → Result CartridgeError (Bool × Session)
primed (false, s) = ok (false, s)
primed (true, s) = read 0 0xAC s >>= λ got. ok (is_some got.0, got.1)

-- The end of `initialize`, from the kind on.
abbrev with_kind : CartridgeKind × Session → Result CartridgeError (Bool × Session)
with_kind (unknown, s) = ok (false, record s { kind = unknown })
with_kind (official_gba_rom, s) = ok (true, record s { kind = official_gba_rom })
with_kind (ez3_flash, s) = primed (transfer prime (record s { kind = ez3_flash }))

abbrev with_second_id : List ℕ → Bool × Session → Result CartridgeError (Bool × Session)
with_second_id after (false, s) = ok (false, s)
with_second_id after (true, s) = of_kind (classify_probe_behavior after) s >>= with_kind

abbrev second_id : Bool × Session → Result CartridgeError (Bool × Session)
second_id (false, s) = ok (false, s)
second_id (true, s) =
    let (id, w) = read91_sub2_four s.world in
    elim id [
      | none ↦ ok (false, record s { world = w })
      | some after ↦ with_second_id after (transfer (probe_reset false) (record s { world = w }))
    ]

abbrev first_id : Bool × Session → Result CartridgeError (Bool × Session)
first_id (false, s) = ok (false, s)
first_id (true, s) =
    let (id, w) = read91_sub2_four s.world in
    elim id [
      | none ↦ ok (false, record s { world = w })
      | some before ↦ second_id (transfer probe_second (record s { world = w }))
    ]

-- `ReadOnlyCartridge::initialize`
unfoldable pub initialize : Session → Result CartridgeError (Bool × Session)
initialize s =
    first_id (transfer probe_first (record s { kind = unknown; linear_read_limit = 0x00800000 }))

-- `ReadOnlyCartridge::finishSession`
unfoldable pub finish_session : Session → Bool × Session
finish_session s = transfer finish_readiness_transition s
