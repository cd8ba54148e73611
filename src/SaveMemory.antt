-- ===== src/SaveMemory.antt =====
-- Access to the 32-KiB save banks: src/save_bank_access.cpp, src/save_memory_reader.cpp,
-- src/save_memory_writer.cpp and src/save_bank_cleaner.cpp. Console output is left out.
pub mod Scripts
pub mod Bank
pub mod Reading
use ezfadvance_iii.Prelude.{
  ℕ, zero, suc, ◌+◌, ◌-◌, ◌*◌, ◌/◌, ◌%◌, Bool, true, false, ◌||◌, Option, none, some, List, [], ◌∷◌,
  ◌++◌, ltb, ◌==◌, ◌!=◌, if◌then◌else◌, length, take, drop, replicate,
}
use ezfadvance_iii.Prelude.Bytes.{u16}
use ezfadvance_iii.Prelude.Result.{Result, ok, err}
use ezfadvance_iii.Usb.{World, Action, ◌&&&◌, done, bulk_out, in_exact, read_and_compare}
use ezfadvance_iii.Protocol.{default_options, command_data_echo, tx92_two}

abbrev pub timeout_ms : ℕ
timeout_ms = 15000

abbrev pub bank_bytes : ℕ
bank_bytes = 0x8000

-- `SaveBankAccess::select`
unfoldable pub select_bank : ℕ → Action
select_bank bank_value =
    tx92_two default_options 0x55 0xAA
    &&& tx92_two default_options 0 0
    &&& tx92_two default_options 0 0
    &&& tx92_two default_options (bank_value % 256) (bank_value / 256)
    &&& tx92_two default_options 0 0
    &&& tx92_two default_options 0 0
    &&& tx92_two default_options 0 0
    &&& tx92_two default_options 0 0

abbrev pub read_command : List ℕ
read_command = 0x5A ∷ 0xA5 ∷ 0x91 ∷ 0x01 ∷ 0 ∷ 0 ∷ 0 ∷ 0 ∷ 0 ∷ 0x80 ∷ 0 ∷ 0 ∷ 0 ∷ []

abbrev pub write_command : List ℕ
write_command = 0x5A ∷ 0xA5 ∷ 0x92 ∷ 0x01 ∷ 0 ∷ 0 ∷ 0 ∷ 0 ∷ 0 ∷ 0x80 ∷ 0 ∷ 0 ∷ 0 ∷ []

abbrev read_after : Bool × World → Option (List ℕ) × World
read_after (true, w) = in_exact bank_bytes timeout_ms w
read_after (false, w) = (none, w)

-- `SaveMemoryReader::readBank32KiB`
unfoldable pub read_bank : ℕ → World → Option (List ℕ) × World
read_bank bank_value w =
    read_after ((select_bank bank_value &&& bulk_out read_command timeout_ms) w)

-- The loop of `SaveMemoryReader::read`, with `left` banks to go from `index` on.
read_banks : ℕ → ℕ → ℕ → List ℕ → World → Option (List ℕ) × World
read_banks zero index first_bank save w = (some save, w)
read_banks (suc left) index first_bank save w =
    let (bank, w') = read_bank (u16 (first_bank + index * 0x10)) w in
    elim bank [
      | none ↦ (none, w')
      | some bytes ↦ read_banks left (index + 1) first_bank (save ++ bytes) w'
    ]

abbrev of_length : ℕ → Option (List ℕ) × World → Option (List ℕ) × World
of_length size (none, w) = (none, w)
of_length size (some save, w) = (if length save == size then some save else none, w)

-- The `std::runtime_error` of `SaveMemoryReader::read`.
pub data ReadError : Type 0 where
  unsupported_size : ReadError

-- `SaveMemoryReader::read`
unfoldable pub read : ℕ → ℕ → World → Result ReadError (Option (List ℕ) × World)
unfolding read_banks
read save_size first_bank w =
    if save_size == 0 || ltb (4 * bank_bytes) save_size || (save_size % bank_bytes != 0)
    then err unsupported_size
    else ok (of_length save_size (read_banks (save_size / bank_bytes) 0 first_bank [] w))

-- `SaveMemoryWriter::write32KiB`
unfoldable pub write_bank : ℕ → List ℕ → Action
write_bank bank_value save =
    if length save != bank_bytes
    then (λ w. (false, w))
    else (select_bank bank_value
        &&& bulk_out write_command timeout_ms
        &&& bulk_out save timeout_ms
        &&& read_and_compare timeout_ms 64 write_command)

-- The loop of `SaveMemoryWriter::write`: `left` banks to go, the rest of the save from `index` on.
write_banks : ℕ → ℕ → ℕ → List ℕ → Action
write_banks zero index first_bank save = done
write_banks (suc left) index first_bank save =
    write_bank (u16 (first_bank + index * 0x10)) (take bank_bytes save)
    &&& (λ w. write_banks left (index + 1) first_bank (drop bank_bytes save) w)

-- `SaveMemoryWriter::write`
unfoldable pub write : ℕ → List ℕ → Action
unfolding write_banks
write first_bank save =
    if length save == 0 || (length save % bank_bytes != 0) || ltb (4 * bank_bytes) (length save)
    then (λ w. (false, w))
    else write_banks (length save / bank_bytes) 0 first_bank save

-- `std::vector<std::uint8_t> zeros(0x8000, 0)`
unfoldable pub zeros : List ℕ
zeros = replicate bank_bytes 0

-- The loop of `SaveBankCleaner::clearRange`.
clear_banks : ℕ → ℕ → ℕ → Action
clear_banks zero bank first_selector = done
clear_banks (suc left) bank first_selector =
    select_bank (u16 (first_selector + bank * 0x10))
    &&& command_data_echo default_options write_command zeros
    &&& (λ w. clear_banks left (bank + 1) first_selector w)

-- The guard of `SaveBankCleaner::clearRange`.
abbrev refused : ℕ → ℕ → Bool
refused first_selector bank_count =
    bank_count == 0
    || ltb 4 bank_count
    || ltb first_selector 0x0900
    || ltb 0x0930 first_selector
    || ((first_selector - 0x0900) % 0x0010 != 0)
    || ltb 0x0930 (first_selector + (bank_count - 1) * 0x0010)

-- `SaveBankCleaner::clearRange`
unfoldable pub clear_range : ℕ → ℕ → Action
unfolding clear_banks
clear_range first_selector bank_count =
    if refused first_selector bank_count
    then (λ w. (false, w))
    else clear_banks bank_count 0 first_selector

-- `SaveBankCleaner::clearAll`
unfoldable pub clear_all : Action
clear_all = clear_range 0x0900 4
