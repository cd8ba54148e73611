-- ===== src/Options/SaveReader/Consistent.antt =====
-- What the options of the save reader guarantee to the rest of it.
use ezfadvance_iii.Prelude.{
  ℕ, ◌*◌, ◌≡◌, ap, true, false, ◌||◌, not, Option, some, is_some, List, arith,
}
use mathlib.Core.Path.{subst}
use ezfadvance_iii.SaveBanks.{bank_size, accommodates}
use ezfadvance_iii.SaveAccess.{save_write_paths_conflict}
use ezfadvance_iii.Options.SaveReader.{
  SaveReaderOptions, Parsed, run, help, error, exceeds, checked, checked_after, parse_arguments,
  parse_save_reader_options, no_options, no_arguments,
}

-- What a run of the save reader may count on.
pub record IsConsistent (options : SaveReaderOptions) : Type 0 where
  pub authorized : is_some options.write_path ≡ true → options.authorize_write ≡ true
  pub not_output : is_some options.write_path ≡ true → is_some options.output_path ≡ false
  pub erase_alone :
      options.erase ≡ true
      → (is_some options.write_path ≡ false)
        × (is_some options.output_path ≡ false)
        × (is_some options.rom_number ≡ false)
        × (options.authorize_write ≡ false)
  pub needs_target :
      (is_some options.backup_path || options.authorize_write) ≡ true
      → (is_some options.write_path || options.erase) ≡ true
  pub fits :
      (count selector : ℕ)
      → options.consecutive_bank_count ≡ some count
      → options.save_bank ≡ some selector
      → accommodates selector (count * bank_size) ≡ true
  pub direct :
      is_some options.consecutive_bank_count ≡ true
      → (is_some options.save_bank ≡ true) × (is_some options.rom_number ≡ false)
  pub no_conflict : save_write_paths_conflict options.write_path options.backup_path ≡ false

fits_unless :
    (c s : Option ℕ) (count selector : ℕ)
    → exceeds c s ≡ false
    → c ≡ some count
    → s ≡ some selector
    → accommodates selector (count * bank_size) ≡ true
unfolding exceeds
fits_unless c s count selector no_ e f =
    let h : not (accommodates selector (count * bank_size)) ≡ false = rw (e, f) at no_ in
    ground arith

checked-IsConsistent :
    (o result : SaveReaderOptions) → checked o ≡ run result → IsConsistent o × (o ≡ result)
unfolding checked
checked-IsConsistent o result e = (
  record {
    authorized = λ h. ground (arith);
    not_output = λ h. ground (arith);
    erase_alone = λ h. ground (arith);
    needs_target = λ h. ground arith;
    fits = λ c s. fits_unless _ _ c s (ground arith);
    direct = λ h. ground arith;
    no_conflict = ground arith;
  },
  ground arith,
)

checked_after-IsConsistent :
    (r : Parsed) (result : SaveReaderOptions)
    → checked_after r ≡ run result
    → IsConsistent result × (r ≡ run result)
unfolding checked_after
checked_after-IsConsistent (run o) result e =
    let (good, same) = checked-IsConsistent o result e in
    (subst IsConsistent same good, ap (λ x. run x) same)
checked_after-IsConsistent help result e = absurd (let k = e in cc)
checked_after-IsConsistent error result e = absurd (let k = e in cc)

-- A command line that the save reader runs is consistent: a write is authorised and is no
-- extraction, an erase stands alone, an authorisation or a backup has a write or an erase to serve, a
-- count of banks comes with a first bank from which so many banks fit, and without a ROM number, and
-- the backup does not overwrite the input.
pub parse_save_reader_options-IsConsistent :
    (arguments : List (List ℕ)) (result : SaveReaderOptions)
    → parse_save_reader_options arguments ≡ run result
    → IsConsistent result
unfolding parse_save_reader_options
parse_save_reader_options-IsConsistent arguments result e =
    (checked_after-IsConsistent
      (parse_arguments (record no_options { inspection_only = no_arguments arguments }) arguments)
      result e).0
