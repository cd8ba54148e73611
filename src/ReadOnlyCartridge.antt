-- ===== src/ReadOnlyCartridge.antt =====
-- The read session of src/read_only_cartridge.cpp and the catalog reader of
-- src/ez3_catalog_reader.cpp. Console output is left out; a duration is in microseconds.
pub mod Mapping
pub mod Startup
pub mod CatalogReading
pub mod Linear
use ezfadvance_iii.Prelude.{
  ℕ, zero, suc, ◌+◌, ◌-◌, ◌*◌, ◌/◌, ◌%◌, Bool, true, false, not, ◌&&◌, ◌||◌, Option, none, some,
  List, [], ◌∷◌, ◌++◌, ltb, leb, ◌==◌, ◌!=◌, if◌then◌else◌, length, take, min,
}
use ezfadvance_iii.Prelude.Bytes.{byte_at, u32}
use ezfadvance_iii.Prelude.Text.{same_text}
use ezfadvance_iii.Prelude.Result.{Result, ok, err, ◌>>=◌}
use ezfadvance_iii.CartridgeFormat.{
  read_le32, write_le32, arm_branch_target, required_linear_read_limit, valid_gba_rom_header,
}
use ezfadvance_iii.Catalog.{
  Layout, EntryError, GbaHeader, parse_gba_header, parse_catalog, structural_slot_count,
}
use ezfadvance_iii.Usb.{World, Action, ◌&&&◌, done, bulk_out, in_exact, wait}
use ezfadvance_iii.Protocol.{default_options, command92_two, command_data_echo, tx92_two}
use ezfadvance_iii.CardWipe.{command97, command99, wait_until_ready}
use ezfadvance_iii.Options.CardReader.{CartridgeKind, unknown, ez3_flash, official_gba_rom}

abbrev pub timeout_ms : ℕ
timeout_ms = 15000

-- The exceptions of a read.
pub data CartridgeError : Type 0 where
  unaligned_address catalog_entry : CartridgeError

-- The members of `ReadOnlyCartridge` that change.
pub record Session : Type 0 where
  pub world : World
  pub kind : CartridgeKind
  pub linear_read_limit : ℕ

-- A transfer in a session.
abbrev pub transfer : Action → Session → Bool × Session
transfer act s = let (good, w) = act s.world in (good, record s { world = w })

abbrev pub read_command : ℕ → ℕ → List ℕ
read_command address piece =
    write_le32
      (write_le32 (0x5A ∷ 0xA5 ∷ 0x91 ∷ 0x00 ∷ 0 ∷ 0 ∷ 0 ∷ 0 ∷ 0 ∷ 0 ∷ 0 ∷ 0 ∷ 0x00 ∷ []) 4
        (address / 2))
      8 (u32 piece)

unfoldable pub read_piece : ℕ → ℕ → World → Option (List ℕ) × World
read_piece address piece w =
    let (good, w') = bulk_out (read_command address piece) timeout_ms w in
    if good then in_exact piece timeout_ms w' else (none, w')

-- The loop of `read`. A round takes 64 KiB, or what is left.
unfoldable pub read_pieces : ℕ → ℕ → ℕ → ℕ → List ℕ → World → Option (List ℕ) × World
read_pieces byte_address length_ zero done_ output w = (some output, w)
read_pieces byte_address length_ (suc rounds) done_ output w =
    let piece = min 0x10000 (length_ - done_) in
    let (input, w') = read_piece (u32 (byte_address + done_)) piece w in
    if leb length_ done_ then (some output, w) else elim input [
      | none ↦ (none, w')
      | some bytes ↦ read_pieces byte_address length_ rounds (done_ + piece) (output ++ bytes) w'
    ]

-- `ReadOnlyCartridge::read`; `& 1` is the remainder modulo 2.
unfoldable pub read : ℕ → ℕ → Session → Result CartridgeError (Option (List ℕ) × Session)
read byte_address length_ s =
    if byte_address % 2 != 0
    then err unaligned_address
    else let (output, w) = read_pieces byte_address length_ (length_ / 0x10000 + 1) 0 [] s.world in
      ok (output, record s { world = w })

-- `ArmBranchProbe`
pub record ArmBranchProbe : Type 0 where
  pub bytes : List ℕ
  pub target : Option ℕ

abbrev pub probe_of : Option (List ℕ) → Option ArmBranchProbe
probe_of none = none
probe_of (some bytes) =
    some (record { bytes = bytes; target = arm_branch_target (read_le32 bytes 0) })

-- `ReadOnlyCartridge::readArmBranch`
unfoldable pub read_arm_branch :
    ℕ → Session → Result CartridgeError (Option ArmBranchProbe × Session)
read_arm_branch byte_address s = read byte_address 4 s >>= λ got. ok (probe_of got.0, got.1)

abbrev header_of : Option (List ℕ) → Option GbaHeader
header_of none = none
header_of (some bytes) = some (parse_gba_header bytes)

-- `ReadOnlyCartridge::readGbaHeader`
unfoldable pub read_gba_header : ℕ → Session → Result CartridgeError (Option GbaHeader × Session)
read_gba_header byte_address s = read byte_address 0xC0 s >>= λ got. ok (header_of got.0, got.1)

abbrev tests : (List ℕ → Bool) → Option (List ℕ) → Bool
tests test none = false
tests test (some bytes) = test bytes

abbrev pub reply : ℕ → (List ℕ → Bool) → Action
reply wanted test w = let (bytes, w') = in_exact wanted timeout_ms w in (tests test bytes, w')

-- `ReadOnlyCartridge::startup`
unfoldable pub startup : Action
startup =
    bulk_out command97 timeout_ms
    &&& reply 1 (λ bytes. byte_at bytes 0 == 0)
    &&& wait_until_ready 5
    &&& bulk_out command99 timeout_ms
    &&& reply 13 (λ bytes. same_text bytes command99)

abbrev pub two : ℕ → ℕ → Action
two first second = tx92_two default_options first second

-- `ReadOnlyCartridge::probeUnlockTail`
unfoldable pub probe_unlock_tail : Action
probe_unlock_tail = two 0xAA 0x55 &&& two 0 0 &&& two 0 0 &&& two 0 0

-- `ReadOnlyCartridge::probePrefix`, with its three words 0 and its tail, as it is called.
unfoldable pub probe_prefix : Action
probe_prefix =
    two 0x55 0xAA &&& two 0 0 &&& two 0 0 &&& two 0 0 &&& wait 125000 &&& probe_unlock_tail

-- `ReadOnlyCartridge::probeReset`
unfoldable pub probe_reset : Bool → Action
probe_reset use_f0 = two (if use_f0 then 0xF0 else 0xFF) (if use_f0 then 0x00 else 0xFF)

-- `ReadOnlyCartridge::tx92TwoAt`
unfoldable pub tx92_two_at : ℕ → ℕ → ℕ → Action
tx92_two_at address first second =
    command_data_echo default_options (write_le32 command92_two 4 address) (first ∷ second ∷ [])

-- `ReadOnlyCartridge::read91Sub2Four`
unfoldable pub read91_sub2_four : World → Option (List ℕ) × World
read91_sub2_four w =
    let (good, w') =
      bulk_out (0x5A ∷ 0xA5 ∷ 0x91 ∷ 0x02 ∷ 0 ∷ 0 ∷ 0 ∷ 0 ∷ 4 ∷ 0 ∷ 0 ∷ 0 ∷ 0 ∷ []) timeout_ms w in
    if good then in_exact 4 timeout_ms w' else (none, w')

-- `ReadOnlyCartridge::classifyProbeBehavior`; the first argument of the source is not used.
unfoldable pub classify_probe_behavior : List ℕ → CartridgeKind
classify_probe_behavior after_flash_id =
    if same_text after_flash_id (0x1C ∷ 0x00 ∷ 0xB8 ∷ 0x00 ∷ [])
      || same_text after_flash_id (0x1C ∷ 0x00 ∷ 0xB9 ∷ 0x00 ∷ [])
    then ez3_flash
    else unknown

abbrev all_erased : List ℕ → Bool
all_erased [] = true
all_erased (byte ∷ bytes) = (byte == 0xFF) && all_erased bytes

-- `ReadOnlyCartridge::classifyContentHeader`
unfoldable pub classify_content_header : List ℕ → CartridgeKind
classify_content_header header =
    if leb 0xC0 (length header) && all_erased (take 0xC0 header)
    then ez3_flash
    else if valid_gba_rom_header header
    then official_gba_rom
    else unknown

-- `ReadOnlyCartridge::flashStatus`
unfoldable pub flash_status : Action
flash_status = two 0xFF 0xFF

-- `ReadOnlyCartridge::finishReadMapping`
unfoldable pub finish_read_mapping : Action
finish_read_mapping = flash_status &&& two 0x55 0xAA &&& two 0 0 &&& two 0 0 &&& two 0 0

-- The transactions of the three mappings, which differ in two of their words.
unfoldable pub map_linear : ℕ → ℕ → ℕ → Action
map_linear mode high last =
    flash_status
    &&& two 0x55 0xAA
    &&& two mode 0
    &&& two 0 high
    &&& two last 0
    &&& wait 125000
    &&& two 0xAA 0x55
    &&& two 0 0
    &&& two 0 0
    &&& two 0 0
    &&& finish_read_mapping

-- The limit is set when the mapping is done.
abbrev pub mapped : ℕ → Bool × Session → Bool × Session
mapped mapping_limit (false, s) = (false, s)
mapped mapping_limit (true, s) = (true, record s { linear_read_limit = mapping_limit })

abbrev pub prepare : ℕ → Action → Session → Bool × Session
prepare mapping_limit act s =
    if leb mapping_limit s.linear_read_limit
    then (true, s)
    else mapped mapping_limit (transfer act s)

-- `ReadOnlyCartridge::prepareLinear16MiB`
unfoldable pub prepare_linear_16_mib : Session → Bool × Session
prepare_linear_16_mib s = prepare 0x01000000 (map_linear 2 0x80 0) s

-- `ReadOnlyCartridge::prepareLinear24MiB`
unfoldable pub prepare_linear_24_mib : Session → Bool × Session
prepare_linear_24_mib s = prepare 0x01800000 (map_linear 2 0xC0 0) s

-- `ReadOnlyCartridge::prepareLinear32MiB`
unfoldable pub prepare_linear_32_mib : Session → Bool × Session
prepare_linear_32_mib s = prepare 0x02000000 (map_linear 0 0 2) s

abbrev pub for_limit : Option ℕ → Session → Bool × Session
for_limit none s = (false, s)
for_limit (some limit) s =
    if limit == 0x00800000
    then (true, s)
    else if limit == 0x01000000
    then prepare_linear_16_mib s
    else if limit == 0x01800000
    then prepare_linear_24_mib s
    else if limit == 0x02000000
    then prepare_linear_32_mib s
    else (false, s)

-- `ReadOnlyCartridge::prepareLinearForAddress`
unfoldable pub prepare_linear_for_address : ℕ → Session → Bool × Session
prepare_linear_for_address address s = for_limit (required_linear_read_limit address) s

-- `Ez3CatalogReadStatus`
pub data ReadStatus : Type 0 where
  loaded read_failed missing_branch branch_out_of_range invalid_catalog entry_limit_exceeded :
      ReadStatus

-- `Ez3CatalogReadResult`
pub record CatalogRead : Type 0 where
  pub status : ReadStatus
  pub first_bytes : List ℕ
  pub loader_start : ℕ
  pub loader_end : ℕ
  pub catalog : Option Layout

abbrev pub no_catalog : CatalogRead
no_catalog = record {
  status = read_failed;
  first_bytes = 0 ∷ 0 ∷ 0 ∷ 0 ∷ [];
  loader_start = 0;
  loader_end = 0;
  catalog = none;
}

-- The end of `Ez3CatalogReader::read`, from the parsed catalog on.
abbrev with_catalog : ℕ → CatalogRead → Option Layout → CatalogRead
with_catalog entry_limit result none = record result { status = invalid_catalog }
with_catalog entry_limit result (some layout) =
    if ltb entry_limit (length layout.entries)
    then record result { status = entry_limit_exceeded }
    else record result { status = loaded; catalog = some layout }

abbrev pub of_parse :
    ℕ
    → CatalogRead
    → Session
    → Result EntryError (Option Layout)
    → Result CartridgeError (CatalogRead × Session)
of_parse entry_limit result s (err e) = err catalog_entry
of_parse entry_limit result s (ok found) = ok (with_catalog entry_limit result found, s)

unfoldable pub parsed :
    ℕ → ℕ → CatalogRead → Option (List ℕ) × Session → Result CartridgeError (CatalogRead × Session)
parsed image_limit entry_limit result (none, s) = ok (result, s)
parsed image_limit entry_limit result (some loader, s) =
    of_parse entry_limit result s (parse_catalog loader image_limit)

-- The read of the loader, once its last address is mapped.
abbrev pub loader_from :
    ℕ → ℕ → ℕ → CatalogRead → Bool × Session → Result CartridgeError (CatalogRead × Session)
loader_from image_limit entry_limit read_length result (false, s) = ok (result, s)
loader_from image_limit entry_limit read_length result (true, s) =
    read result.loader_start read_length s >>= λ got. parsed image_limit entry_limit result got

-- The read of the loader at a branch target within the image limit.
unfoldable pub read_loader :
    ℕ → ℕ → CatalogRead → Session → Result CartridgeError (CatalogRead × Session)
read_loader image_limit entry_limit result s =
    let read_length = min 0x7080 (image_limit - result.loader_start) in
    let found = record result { loader_end = u32 (result.loader_start + (read_length - 1)) } in
    loader_from image_limit entry_limit read_length found
      (prepare_linear_for_address found.loader_end s)

abbrev pub at_branch :
    ℕ → ℕ → Option ArmBranchProbe × Session → Result CartridgeError (CatalogRead × Session)
at_branch image_limit entry_limit (none, s) = ok (no_catalog, s)
at_branch image_limit entry_limit (some probe, s) =
    let result = record no_catalog { first_bytes = probe.bytes } in
    elim probe.target [
      | none ↦ ok (record result { status = missing_branch }, s)
      | some target ↦
          let found = record result { loader_start = target } in
          if ltb target 0xC0 || leb image_limit target
          then ok (record found { status = branch_out_of_range }, s)
          else read_loader image_limit entry_limit found s
    ]

-- `Ez3CatalogReader::read`
unfoldable pub read_catalog : ℕ → ℕ → Session → Result CartridgeError (CatalogRead × Session)
read_catalog image_limit entry_limit s =
    read_arm_branch 0 s >>= λ branch. at_branch image_limit entry_limit branch
