-- ===== src/Examples/Cards.antt =====
-- Transactions, whole-card operations and the writer's options, on concrete inputs.
use ezfadvance_iii.Prelude.{
  ℕ, ◌*◌, ◌≤◌, ◌<◌, ◌≡◌, ◌≢◌, ◌⊎◌, ◌↔◌, refl, true, false, none, some, List, [], ◌∷◌, ◌++◌, All,
  map, replicate, if◌then◌else◌, ◌==◌, arith,
}
use ezfadvance_iii.Prelude.Text.{codes, whole_number}
use ezfadvance_iii.SaveBanks.{parse_selector}
use ezfadvance_iii.SaveAccess.{save_write_paths_conflict}
use ezfadvance_iii.Usb.{World, wrote, received, failed}
use ezfadvance_iii.Usb.Traces.{Performs, Fulfils, event_of}
use ezfadvance_iii.Protocol.{default_options, command92_one, command_data_echo}
use ezfadvance_iii.Protocol.Scripts.{transaction, command_data_echo-Performs}
use ezfadvance_iii.FlashWindow.{writer_timing, select}
use ezfadvance_iii.FlashWindow.Scripts.{window_script, select-Performs}
use ezfadvance_iii.CardWriter.{card_write}
use ezfadvance_iii.CardWriter.Order.{WriteOrder, card_write-WriteOrder, calls_made}
use ezfadvance_iii.CardWriter.Success.{success_result, card_write-success}
use ezfadvance_iii.CardWipe.{erase_bank, execute}
use ezfadvance_iii.CardWipe.Erase.{erase_bank_script, erase_bank-Performs}
use ezfadvance_iii.CardWipe.Execute.{preflight_script, wipe_script, execute_iff}
use ezfadvance_iii.Options.SaveReader
use ezfadvance_iii.Options.SaveReader.{SaveReaderOptions, parse_save_reader_options}
use ezfadvance_iii.Options.SaveReader.Consistent.{
  IsConsistent, parse_save_reader_options-IsConsistent,
}
use ezfadvance_iii.Options.Writer.{parse_decimal, parse_writer_options, default_writer_options}
use ezfadvance_iii.Options.Writer.Decimal.{IsDigit, decimal_value, parse_decimal_iff}
use ezfadvance_iii.Options.Writer.Valid.{
  IsValid, Steps, parse_writer_options-IsValid, default-IsValid,
}

command_data_echo-Performs_example :
    Performs
      (command_data_echo default_options (command92_one 1) (6 ∷ []))
      (transaction default_options (command92_one 1) (6 ∷ []))
command_data_echo-Performs_example =
    command_data_echo-Performs default_options (command92_one 1) (6 ∷ [])

select-Performs_example :
    ((2 ≤ 3)
      × Performs
          (select writer_timing 2)
          (window_script writer_timing (if 2 == 0 then 0x00 else 0x02) (2 * 0x40)))
    ⊎ ((3 < 2) × ((w : World) → select writer_timing 2 w ≡ (false, w)))
select-Performs_example = select-Performs writer_timing 2

erase_bank-Performs_example : Performs (erase_bank 2) (erase_bank_script 2)
erase_bank-Performs_example = erase_bank-Performs 2 (omega arith)

-- A device that resets and then fails.
abbrev failing : World
failing = record { answers = wrote 13 ∷ received (0 ∷ []) ∷ failed 1 ∷ []; log = [] }

abbrev failed_world : World
failed_world = record { answers = []; log = [] }

execute_iff_example : (execute failing ≡ (true, failed_world)) ↔ (
    (k : ℕ) × (k < 5)
    × Fulfils (preflight_script k ++ wipe_script) failing.answers failed_world.answers
    × (failed_world.log ≡ failing.log ++ map event_of (preflight_script k ++ wipe_script)))
execute_iff_example = execute_iff failing failed_world

-- An image of four bytes, and a backend whose erase fails.
abbrev image : List ℕ
image = 1 ∷ 2 ∷ 3 ∷ 4 ∷ []

card_write-WriteOrder_example :
    WriteOrder image false
      (record { answers = true ∷ true ∷ true ∷ true ∷ false ∷ true ∷ []; calls = [] })
      (card_write image false
        (record { answers = true ∷ true ∷ true ∷ true ∷ false ∷ true ∷ []; calls = [] }))
card_write-WriteOrder_example =
    card_write-WriteOrder image false
      (record { answers = true ∷ true ∷ true ∷ true ∷ false ∷ true ∷ []; calls = [] })

card_write-success_example :
    card_write image false (record { answers = replicate 10 true ++ []; calls = [] })
    ≡ (success_result image false, record { answers = []; calls = calls_made 9 image false })
card_write-success_example = card_write-success image false [] []

-- A write of a file to the second bank.
abbrev write_arguments : List (List ℕ)
write_arguments =
    codes "--write"
    ∷ codes "new.sav"
    ∷ codes "--save-bank"
    ∷ codes "0x0910"
    ∷ codes "--yes-really-write"
    ∷ []

abbrev write_options : SaveReaderOptions
write_options = record {
  output_path = none;
  rom_number = none;
  save_bank = some 0x0910;
  consecutive_bank_count = none;
  write_path = some (codes "new.sav");
  backup_path = none;
  authorize_write = true;
  erase = false;
  inspection_only = false;
}

write_parsed : parse_save_reader_options write_arguments ≡ SaveReader.run write_options
unfolding parse_save_reader_options SaveReader.flag_of parse_selector whole_number
    save_write_paths_conflict
write_parsed = refl

parse_save_reader_options-IsConsistent_example : IsConsistent write_options
parse_save_reader_options-IsConsistent_example =
    parse_save_reader_options-IsConsistent write_arguments write_options write_parsed

parse_writer_options-IsValid_example :
    IsValid (parse_writer_options default_writer_options (codes "--type2=7" ∷ codes "a.gba" ∷ [])).0
    × Steps default_writer_options
        (codes "--type2=7" ∷ codes "a.gba" ∷ [])
        (parse_writer_options default_writer_options (codes "--type2=7" ∷ codes "a.gba" ∷ []))
parse_writer_options-IsValid_example =
    parse_writer_options-IsValid (codes "--type2=7" ∷ codes "a.gba" ∷ []) default_writer_options
      default-IsValid

parse_decimal_iff_example : (parse_decimal (codes "120") 255 ≡ some 120) ↔ (
    (codes "120" ≢ [])
    × All IsDigit (codes "120")
    × (decimal_value 0 (codes "120") ≡ 120)
    × (120 ≤ 255))
parse_decimal_iff_example = parse_decimal_iff (codes "120") 255 120
