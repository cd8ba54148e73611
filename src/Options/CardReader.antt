-- ===== src/Options/CardReader.antt =====
-- The options of the card reader, and what it does with a cartridge: src/card_reader_options.cpp.
-- The messages are left out.
use ezfadvance_iii.Prelude.{
  ℕ, ◌-◌, ◌%◌, Bool, true, false, ◌&&◌, ◌||◌, not, Option, none, some, is_some, List, [], ◌∷◌, leb,
  ◌==◌, if◌then◌else◌,
}
use ezfadvance_iii.Prelude.Text.{codes, same_text, starts_with, is_empty, whole_number}

-- `CardReaderOptions`
pub record CardReaderOptions : Type 0 where
  pub extract : Bool
  pub verbose : Bool
  pub rom_number : Option ℕ
  pub output_path : List ℕ

-- `CardReaderParseStatus`, with the options that a run has.
pub data Parsed : Type 0 where
  run : CardReaderOptions → Parsed
  help : Parsed
  error : Parsed

skip_spaces : List ℕ → List ℕ
skip_spaces [] = []
skip_spaces (c ∷ text) =
    let rest = skip_spaces text in
    if (c == 0x20) || (leb 0x09 c && leb c 0x0D) then rest else (c ∷ text)

negated : Option ℕ → Option ℕ
negated none = none
negated (some value) = some ((0x1_0000_0000_0000_0000 - value) % 0x1_0000_0000_0000_0000)

signed : List ℕ → Option ℕ
unfolding negated
signed [] = none
signed (c ∷ text) =
    if c == b'-'
    then negated (whole_number 10 text)
    else if c == b'+'
    then whole_number 10 text
    else whole_number 10 (c ∷ text)

-- `std::stoul(text, &consumed, 10)` where it consumes the whole text: white space and a sign may
-- stand before the digits, and a minus sign negates in the 64-bit word.
unfoldable pub whole_stoul : List ℕ → Option ℕ
unfolding skip_spaces signed
whole_stoul text = signed (skip_spaces text)

not_zero : Option ℕ → Option ℕ
not_zero none = none
not_zero (some value) = if value == 0 then none else some value

is_extract : List ℕ → Bool
is_extract argument = same_text argument (codes "--extract") || same_text argument (codes "--dump")

abbrev extracting : CardReaderOptions → Option ℕ → List ℕ → CardReaderOptions
extracting options number path = record options {
  extract = true;
  rom_number = number;
  output_path = path;
}

-- The branches without a value.
pub data Switched : Type 0 where
  continue_with : CardReaderOptions → Switched
  stop : Parsed → Switched

switch : CardReaderOptions → List ℕ → Switched
switch options argument =
    if same_text argument (codes "--verbose")
    then continue_with (record options { verbose = true })
    else if same_text argument (codes "--help") || same_text argument (codes "-h")
    then stop help
    else stop error

-- The loop of `parseCardReaderOptions`. Behind an extraction come a path, or a number and a path
-- where the second value does not look like an option.
parse_loop : CardReaderOptions → List (List ℕ) → Parsed
unfolding is_extract switch not_zero
parse_loop options [] = run options
parse_loop options (argument ∷ []) =
    if is_extract argument then error else elim (switch options argument) [
      | continue_with changed ↦ run changed
      | stop result ↦ result
    ]
parse_loop options (argument ∷ first_value ∷ []) = elim (is_extract argument) [
  | true ↦
      if options.extract || is_empty first_value
      then error
      else run (extracting options options.rom_number first_value)
  | false ↦ elim (switch options argument) [
    | continue_with changed ↦ parse_loop changed (first_value ∷ [])
    | stop result ↦ result
  ]
]
parse_loop options (argument ∷ first_value ∷ second_value ∷ rest) = elim (is_extract argument) [
  | true ↦ elim (options.extract) [
    | true ↦ error
    | false ↦ elim (starts_with (codes "--") second_value) [
      | true ↦ elim (is_empty first_value) [
        | true ↦ error
        | false ↦
            parse_loop (extracting options options.rom_number first_value) (second_value ∷ rest)
      ]
      | false ↦ elim (not_zero (whole_stoul first_value)) [
        | none ↦ error
        | some number ↦ elim (is_empty second_value) [
          | true ↦ error
          | false ↦ parse_loop (extracting options (some number) second_value) rest
        ]
      ]
    ]
  ]
  | false ↦ elim (switch options argument) [
    | continue_with changed ↦ parse_loop changed (first_value ∷ second_value ∷ rest)
    | stop result ↦ result
  ]
]

-- The test behind the loop.
checked : Parsed → Parsed
checked (run options) = if options.verbose && not options.extract then error else run options
checked help = help
checked error = error

abbrev pub no_options : CardReaderOptions
no_options = record { extract = false; verbose = false; rom_number = none; output_path = [] }

-- `parseCardReaderOptions`
unfoldable pub parse_card_reader_options : List (List ℕ) → Parsed
unfolding parse_loop checked
parse_card_reader_options arguments = checked (parse_loop no_options arguments)

-- `CartridgeKind` of include/ezfadvance/read_only_cartridge.hpp
pub data CartridgeKind : Type 0 where
  unknown : CartridgeKind
  ez3_flash : CartridgeKind
  official_gba_rom : CartridgeKind

-- `CardReaderAction`
pub data CardReaderAction : Type 0 where
  inspect_official : CardReaderAction
  extract_official : CardReaderAction
  inspect_ez3 : CardReaderAction
  extract_ez3 : CardReaderAction
  reject : CardReaderAction

-- `options.rom_number.value_or(1)`
first_unless : Option ℕ → ℕ
first_unless none = 1
first_unless (some number) = number

-- `decideCardReaderAction`: the action and the ROM's number.
unfoldable pub decide_card_reader_action : CartridgeKind → CardReaderOptions → CardReaderAction × ℕ
unfolding first_unless
decide_card_reader_action official_gba_rom options =
    if is_some options.rom_number
    then (reject, 0)
    else ((if options.extract then extract_official else inspect_official), 0)
decide_card_reader_action ez3_flash options =
    if not options.extract then (inspect_ez3, 0) else (extract_ez3, first_unless options.rom_number)
decide_card_reader_action unknown options = (reject, 0)
