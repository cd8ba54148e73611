-- ===== src/Options/Writer.antt =====
-- The options of the writer: src/writer_options.cpp. The messages are left out.
pub mod Decimal
pub mod Parts
pub mod Accepts
pub mod Complete
pub mod Valid
use ezfadvance_iii.Prelude.{
  ℕ, zero, suc, ◌+◌, ◌-◌, ◌*◌, ◌/◌, Bool, true, false, ◌&&◌, ◌||◌, not, Option, none, some, List,
  [], ◌∷◌, ◌++◌, ltb, leb, ◌==◌, if◌then◌else◌, length, take, drop, set, replicate,
}
use ezfadvance_iii.Prelude.Text.{codes, same_text, starts_with, is_empty}

abbrev pub catalog_slots : ℕ
catalog_slots = 120

-- `WriterOptions`
pub record WriterOptions : Type 0 where
  pub write : Bool
  pub skip_verify : Bool
  pub verbose : Bool
  pub experimental_direct_boot : Bool
  pub type_overrides : List (Option ℕ)
  pub mapping_overrides : List (Option ℕ)
  pub title_overrides : List (Option (List ℕ))
  pub rom_paths : List (List ℕ)

-- `WriterParseResult`
pub record WriterParseResult : Type 0 where
  pub ok : Bool
  pub show_usage : Bool

-- The loop of `parseDecimal`.
decimal_digits : ℕ → ℕ → List ℕ → Option ℕ
decimal_digits maximum parsed [] = some parsed
decimal_digits maximum parsed (c ∷ text) =
    let digit = c - b'0' in
    let rest = decimal_digits maximum (parsed * 10 + digit) text in
    if ltb c b'0' || ltb b'9' c
    then none
    else if ltb maximum digit || ltb ((maximum - digit) / 10) parsed
    then none
    else rest

-- `parseDecimal`
unfoldable pub parse_decimal : List ℕ → ℕ → Option ℕ
unfolding decimal_digits
parse_decimal text maximum = if is_empty text then none else decimal_digits maximum 0 text

-- `argument.find('=')`
unfoldable pub find_equals : List ℕ → Option ℕ
find_equals [] = none
find_equals (c ∷ text) =
    let rest = find_equals text in
    if c == b'=' then some 0 else elim rest [ none ↦ none | some i ↦ some (i + 1) ]

slot_not_zero : Option ℕ → Option ℕ
slot_not_zero none = none
slot_not_zero (some slot) = if slot == 0 then none else some slot

-- `parseOverrideSlot`
unfoldable pub parse_override_slot : List ℕ → ℕ → ℕ → Option ℕ
unfolding slot_not_zero
parse_override_slot argument prefix_size equals =
    if ltb prefix_size equals
    then slot_not_zero
        (parse_decimal (take (equals - prefix_size) (drop prefix_size argument)) catalog_slots)
    else none

printable : List ℕ → Bool
printable [] = true
printable (c ∷ title) = if ltb c 0x20 || ltb 0x7E c then false else printable title

-- `validMenuTitle`
unfoldable pub valid_menu_title : List ℕ → Bool
unfolding printable
valid_menu_title title = if is_empty title || ltb 16 (length title) then false else printable title

-- What one argument does: the options go on, or the parse ends.
pub data Step : Type 0 where
  continue_with : WriterOptions → Step
  stop : WriterParseResult → Step

abbrev bad_value : Step
bad_value = stop (record { ok = false; show_usage = false })

abbrev bad_usage : Step
bad_usage = stop (record { ok = false; show_usage = true })

title_at : WriterOptions → List ℕ → Option ℕ → Step
title_at options title none = bad_value
title_at options title (some slot) =
    if valid_menu_title title
    then continue_with
        (record options { title_overrides = set options.title_overrides (slot - 1) (some title) })
    else bad_value

title_branch : WriterOptions → List ℕ → Option ℕ → Step
unfolding title_at
title_branch options argument none = bad_value
title_branch options argument (some equals) =
    title_at options (drop (equals + 1) argument) (parse_override_slot argument 7 equals)

type_at : WriterOptions → Option ℕ → Option ℕ → Step
type_at options none value = bad_value
type_at options (some slot) none = bad_value
type_at options (some slot) (some value) =
    continue_with
      (record options { type_overrides = set options.type_overrides (slot - 1) (some value) })

mapping_at : WriterOptions → Option ℕ → Option ℕ → Step
mapping_at options none value = bad_value
mapping_at options (some slot) none = bad_value
mapping_at options (some slot) (some value) =
    continue_with
      (record options { mapping_overrides = set options.mapping_overrides (slot - 1) (some value) })

-- The branches of `--type` and `--map`, with the prefix's size and what stores the value.
byte_branch :
    (WriterOptions → Option ℕ → Option ℕ → Step) → ℕ → WriterOptions → List ℕ → Option ℕ → Step
byte_branch store prefix_size options argument none = bad_usage
byte_branch store prefix_size options argument (some equals) =
    if leb equals prefix_size || leb (length argument) (equals + 1)
    then bad_usage
    else store options (parse_override_slot argument prefix_size equals)
        (parse_decimal (drop (equals + 1) argument) 255)

-- The chain of tests on one argument.
unfoldable pub parse_argument : WriterOptions → List ℕ → Step
unfolding title_branch type_at mapping_at byte_branch
parse_argument options argument =
    if same_text argument (codes "--yes-really-write")
    then continue_with (record options { write = true })
    else if same_text argument (codes "--skip-verify")
    then continue_with (record options { skip_verify = true })
    else if same_text argument (codes "--verbose")
    then continue_with (record options { verbose = true })
    else if same_text argument (codes "--experimental-direct-boot")
    then continue_with (record options { experimental_direct_boot = true })
    else if starts_with (codes "--title") argument
    then title_branch options argument (find_equals argument)
    else if starts_with (codes "--type") argument
    then byte_branch type_at 6 options argument (find_equals argument)
    else if starts_with (codes "--map") argument
    then byte_branch mapping_at 5 options argument (find_equals argument)
    else if starts_with (b'-' ∷ []) argument
    then bad_usage
    else continue_with (record options { rom_paths = options.rom_paths ++ (argument ∷ []) })

-- The loop of `WriterOptions::parse`, over the arguments behind the program's name.
parse_loop : WriterOptions → List (List ℕ) → WriterOptions × WriterParseResult
parse_loop options [] = (options, record { ok = true; show_usage = false })
parse_loop options (argument ∷ arguments) = elim (parse_argument options argument) [
  | continue_with changed ↦ parse_loop changed arguments
  | stop result ↦ (options, result)
]

abbrev pub default_writer_options : WriterOptions
default_writer_options = record {
  write = false;
  skip_verify = false;
  verbose = false;
  experimental_direct_boot = false;
  type_overrides = replicate catalog_slots none;
  mapping_overrides = replicate catalog_slots none;
  title_overrides = replicate catalog_slots none;
  rom_paths = [];
}

-- `WriterOptions::parse`
unfoldable pub parse_writer_options :
    WriterOptions → List (List ℕ) → WriterOptions × WriterParseResult
unfolding parse_loop
parse_writer_options options arguments = parse_loop options arguments
