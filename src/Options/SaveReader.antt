-- ===== src/Options/SaveReader.antt =====
-- The options of the save reader: src/save_reader_options.cpp. Arguments are lists of character
-- codes; the messages are left out.
pub mod Consistent
use ezfadvance_iii.Prelude.{
  ℕ, ◌*◌, Bool, true, false, ◌&&◌, ◌||◌, not, Option, none, some, is_some, List, [], ◌∷◌, ◌==◌,
  if◌then◌else◌,
}
use ezfadvance_iii.Prelude.Text.{codes, same_text, whole_number}
use ezfadvance_iii.SaveBanks.{bank_size, parse_selector, accommodates}
use ezfadvance_iii.SaveAccess.{parse_consecutive_bank_count, save_write_paths_conflict}

-- `SaveReaderOptions`
pub record SaveReaderOptions : Type 0 where
  pub output_path : Option (List ℕ)
  pub rom_number : Option ℕ
  pub save_bank : Option ℕ
  pub consecutive_bank_count : Option ℕ
  pub write_path : Option (List ℕ)
  pub backup_path : Option (List ℕ)
  pub authorize_write : Bool
  pub erase : Bool
  pub inspection_only : Bool

-- `SaveReaderParseStatus`, with the options that a run has.
pub data Parsed : Type 0 where
  run : SaveReaderOptions → Parsed
  help : Parsed
  error : Parsed

not_zero : Option ℕ → Option ℕ
not_zero none = none
not_zero (some value) = if value == 0 then none else some value

-- `parsePositiveNumber`
unfoldable pub parse_positive_number : List ℕ → Option ℕ
unfolding not_zero
parse_positive_number text = not_zero (whole_number 10 text)

-- The branches of the loop's chain of tests.
pub data Flag : Type 0 where
  output : Flag
  rom : Flag
  write : Flag
  save_bank : Flag
  consecutive_bank : Flag
  backup : Flag
  yes_really_write : Flag
  erase : Flag
  help : Flag
  unknown : Flag

unfoldable pub flag_of : List ℕ → Flag
flag_of argument =
    if same_text argument (codes "--output")
    then output
    else if same_text argument (codes "--rom")
    then rom
    else if same_text argument (codes "--write")
    then write
    else if same_text argument (codes "--save-bank")
    then save_bank
    else if same_text argument (codes "--consecutive-bank")
    then consecutive_bank
    else if same_text argument (codes "--backup")
    then backup
    else if same_text argument (codes "--yes-really-write")
    then yes_really_write
    else if same_text argument (codes "--erase")
    then erase
    else if same_text argument (codes "--help") || same_text argument (codes "-h")
    then help
    else unknown

-- The branches that take no value.
set_switch : Flag → SaveReaderOptions → Option SaveReaderOptions
set_switch yes_really_write options = some (record options { authorize_write = true })
set_switch erase options = some (record options { erase = true })
set_switch flag options = none

with_rom : SaveReaderOptions → Option ℕ → Option SaveReaderOptions
with_rom options none = none
with_rom options (some number) = some (record options { rom_number = some number })

with_bank : SaveReaderOptions → Option ℕ → Option SaveReaderOptions
with_bank options none = none
with_bank options (some selector) = some (record options { save_bank = some selector })

with_count : SaveReaderOptions → Option ℕ → Option SaveReaderOptions
with_count options none = none
with_count options (some count) = some (record options { consecutive_bank_count = some count })

-- The branches that take the next argument as their value.
set_value : Flag → List ℕ → SaveReaderOptions → Option SaveReaderOptions
unfolding with_rom with_bank with_count
set_value output value options = some (record options { output_path = some value })
set_value rom value options = with_rom options (parse_positive_number value)
set_value write value options = some (record options { write_path = some value })
set_value save_bank value options = with_bank options (parse_selector value)
set_value consecutive_bank value options = with_count options (parse_consecutive_bank_count value)
set_value backup value options = some (record options { backup_path = some value })
set_value flag value options = none

takes_value : Flag → Bool
takes_value output = true
takes_value rom = true
takes_value write = true
takes_value save_bank = true
takes_value consecutive_bank = true
takes_value backup = true
takes_value flag = false

is_help : Flag → Bool
is_help help = true
is_help flag = false

-- The loop over the arguments; a flag at the end that wants a value is an error.
parse_arguments : SaveReaderOptions → List (List ℕ) → Parsed
unfolding set_switch takes_value is_help set_value
parse_arguments options [] = run options
parse_arguments options (argument ∷ []) =
    if is_help (flag_of argument)
    then help
    else elim (set_switch (flag_of argument) options) [ none ↦ error | some changed ↦ run changed ]
parse_arguments options (argument ∷ value ∷ rest) = elim (takes_value (flag_of argument)) [
  | true ↦ elim (set_value (flag_of argument) value options) [
    | none ↦ error
    | some changed ↦ parse_arguments changed rest
  ]
  | false ↦
      if is_help (flag_of argument) then help else elim (set_switch (flag_of argument) options) [
        | none ↦ error
        | some changed ↦ parse_arguments changed (value ∷ rest)
      ]
]

-- The range test on consecutive banks, where both options are given.
exceeds : Option ℕ → Option ℕ → Bool
exceeds (some count) (some selector) = not (accommodates selector (count * bank_size))
exceeds _ _ = false

-- The tests behind the loop.
checked : SaveReaderOptions → Parsed
unfolding exceeds
checked options =
    if is_some options.write_path && is_some options.output_path
    then error
    else if options.erase
        && (is_some options.write_path
            || is_some options.output_path
            || is_some options.rom_number
            || options.authorize_write)
    then error
    else if is_some options.consecutive_bank_count && not (is_some options.save_bank)
    then error
    else if is_some options.consecutive_bank_count && is_some options.rom_number
    then error
    else if exceeds options.consecutive_bank_count options.save_bank
    then error
    else if not (is_some options.write_path)
        && not options.erase
        && (is_some options.backup_path || options.authorize_write)
    then error
    else if is_some options.write_path && not options.authorize_write
    then error
    else if save_write_paths_conflict options.write_path options.backup_path
    then error
    else run options

checked_after : Parsed → Parsed
unfolding checked
checked_after (run options) = checked options
checked_after help = help
checked_after error = error

no_arguments : List (List ℕ) → Bool
no_arguments [] = true
no_arguments (argument ∷ arguments) = false

abbrev pub no_options : SaveReaderOptions
no_options = record {
  output_path = none;
  rom_number = none;
  save_bank = none;
  consecutive_bank_count = none;
  write_path = none;
  backup_path = none;
  authorize_write = false;
  erase = false;
  inspection_only = true;
}

-- `parseSaveReaderOptions`
unfoldable pub parse_save_reader_options : List (List ℕ) → Parsed
unfolding parse_arguments checked_after no_arguments
parse_save_reader_options arguments =
    checked_after
      (parse_arguments (record no_options { inspection_only = no_arguments arguments }) arguments)
