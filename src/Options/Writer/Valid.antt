-- ===== src/Options/Writer/Valid.antt =====
-- What the parse of src/writer_options.cpp leaves, and how it comes to it.
use ezfadvance_iii.Prelude.{
  ℕ, zero, suc, ◌-◌, ◌≤◌, ◌≡◌, refl, sym, ◌∙◌, true, false, Option, none, some, List, [], ◌∷◌, All,
  set, length, length-set, replicate,
}
use ezfadvance_iii.Options.Writer.{
  default_writer_options, WriterOptions, WriterParseResult, catalog_slots, Step, continue_with,
  stop, parse_argument, parse_loop, parse_writer_options,
}
use ezfadvance_iii.Options.Writer.Complete.{Accepts-taken}
use ezfadvance_iii.Options.Writer.Parts.{IsTitle}
use ezfadvance_iii.Options.Writer.Accepts.{Accepts, Follows, parse_argument-Follows}

abbrev pub IsByteOverride : Option ℕ → Type 0
IsByteOverride none = Unit
IsByteOverride (some value) = value ≤ 255

abbrev pub IsTitleOverride : Option (List ℕ) → Type 0
IsTitleOverride none = Unit
IsTitleOverride (some title) = IsTitle title

-- An override for each of the 120 structural slots, each one in the range that the catalog has for
-- it.
pub record IsValid (options : WriterOptions) : Type 0 where
  pub type_slots : length options.type_overrides ≡ 120
  pub mapping_slots : length options.mapping_overrides ≡ 120
  pub title_slots : length options.title_overrides ≡ 120
  pub types : All IsByteOverride options.type_overrides
  pub mappings : All IsByteOverride options.mapping_overrides
  pub titles : All IsTitleOverride options.title_overrides

-- The arguments are taken one after the other, each in an accepted form, up to their end with
-- success, or up to the first one that has no accepted form, at which the parse fails.
pub data Steps : WriterOptions → List (List ℕ) → WriterOptions × WriterParseResult → Type 0 where
  finished : {o : WriterOptions} → Steps o [] (o, record { ok = true; show_usage = false })
  accepted :
      {o u : WriterOptions} {argument : List ℕ} {arguments : List (List ℕ)}
      {result : WriterOptions × WriterParseResult}
      → Accepts o argument u
      → Steps u arguments result
      → Steps o (argument ∷ arguments) result
  refused :
      {o : WriterOptions} {argument : List ℕ} {arguments : List (List ℕ)}
      {result : WriterParseResult}
      → result.ok ≡ false
      → ((u : WriterOptions) → ¬ Accepts o argument u)
      → Steps o (argument ∷ arguments) (o, result)

module _ {A : Type 0} (P : A → Type 0) where
  All-set : (xs : List A) (i : ℕ) (v : A) → All P xs → P v → All P (set xs i v)
  All-set [] i v h p = tt
  All-set (x ∷ xs) zero v (h, hs) p = (p, hs)
  All-set (x ∷ xs) (suc i) v (h, hs) p = (h, All-set xs i v hs p)

-- An override of a valid title, type or mapping keeps the options valid.
Accepts-IsValid :
    (o : WriterOptions) (argument : List ℕ) (u : WriterOptions)
    → IsValid o
    → Accepts o argument u
    → IsValid u
Accepts-IsValid o argument _ valid (Accepts.sets_write e) = record {
  type_slots = valid.type_slots;
  mapping_slots = valid.mapping_slots;
  title_slots = valid.title_slots;
  types = valid.types;
  mappings = valid.mappings;
  titles = valid.titles;
}
Accepts-IsValid o argument _ valid (Accepts.sets_skip e) = record {
  type_slots = valid.type_slots;
  mapping_slots = valid.mapping_slots;
  title_slots = valid.title_slots;
  types = valid.types;
  mappings = valid.mappings;
  titles = valid.titles;
}
Accepts-IsValid o argument _ valid (Accepts.sets_verbose e) = record {
  type_slots = valid.type_slots;
  mapping_slots = valid.mapping_slots;
  title_slots = valid.title_slots;
  types = valid.types;
  mappings = valid.mappings;
  titles = valid.titles;
}
Accepts-IsValid o argument _ valid (Accepts.sets_direct e) = record {
  type_slots = valid.type_slots;
  mapping_slots = valid.mapping_slots;
  title_slots = valid.title_slots;
  types = valid.types;
  mappings = valid.mappings;
  titles = valid.titles;
}
Accepts-IsValid o argument _ valid (Accepts.adds_path e) = record {
  type_slots = valid.type_slots;
  mapping_slots = valid.mapping_slots;
  title_slots = valid.title_slots;
  types = valid.types;
  mappings = valid.mappings;
  titles = valid.titles;
}
Accepts-IsValid o argument _ valid (Accepts.sets_title slot title parts good) = record {
  type_slots = valid.type_slots;
  mapping_slots = valid.mapping_slots;
  title_slots = length-set o.title_overrides (slot - 1) (some title) ∙ valid.title_slots;
  types = valid.types;
  mappings = valid.mappings;
  titles = All-set IsTitleOverride o.title_overrides (slot - 1) (some title) valid.titles good;
}
Accepts-IsValid o argument _ valid (Accepts.sets_type slot value text parts number good) = record {
  type_slots = length-set o.type_overrides (slot - 1) (some value) ∙ valid.type_slots;
  mapping_slots = valid.mapping_slots;
  title_slots = valid.title_slots;
  types = All-set IsByteOverride o.type_overrides (slot - 1) (some value) valid.types good;
  mappings = valid.mappings;
  titles = valid.titles;
}
Accepts-IsValid o argument _ valid (Accepts.sets_mapping slot value text parts number good) =
    record {
      type_slots = valid.type_slots;
      mapping_slots = length-set o.mapping_overrides (slot - 1) (some value) ∙ valid.mapping_slots;
      title_slots = valid.title_slots;
      types = valid.types;
      mappings =
          All-set IsByteOverride o.mapping_overrides (slot - 1) (some value) valid.mappings good;
      titles = valid.titles;
    }

parse_loop-Steps :
    (arguments : List (List ℕ)) (o : WriterOptions)
    → IsValid o
    → IsValid (parse_loop o arguments).0 × Steps o arguments (parse_loop o arguments)
unfolding parse_loop
parse_loop-Steps [] o valid = (valid, Steps.finished)
parse_loop-Steps (argument ∷ arguments) o valid =
    go (parse_argument o argument) refl (parse_argument-Follows o argument)
      (parse_loop-Steps arguments)
  where
    go :
        (s : Step)
        → parse_argument o argument ≡ s
        → Follows o argument s
        → ((u : WriterOptions)
            → IsValid u
            → IsValid (parse_loop u arguments).0 × Steps u arguments (parse_loop u arguments))
        → let r = elim s as (λ x. WriterOptions × WriterParseResult) [
          | continue_with changed ↦ parse_loop changed arguments
          | stop result ↦ (o, result)
        ] in
          IsValid r.0 × Steps o (argument ∷ arguments) r
    go (continue_with changed) e good rest =
        let (valid', steps) = rest changed (Accepts-IsValid o argument changed valid good) in
        (valid', Steps.accepted good steps)
    go (stop result) e bad rest = (
      valid,
      Steps.refused bad (λ u taken.
          (let clash : stop result ≡ continue_with u = sym e ∙ Accepts-taken o argument u taken in
            cc)),
    )

-- Whatever the arguments, the parse of valid options takes them one after the other: each that it
-- takes is a switch, a path without a leading minus, or an override, whose decimal slot is one of 1
-- to 120 and which changes just that slot's entry, to a decimal value of at most 255 or to a title
-- of 1 to 16 printable characters. It ends with success behind the last one, or with a failure at
-- the first one that has none of these forms. It leaves valid options: an override for each of the
-- 120 slots and no more, each in range.
pub parse_writer_options-IsValid :
    (arguments : List (List ℕ)) (o : WriterOptions)
    → IsValid o
    → IsValid (parse_writer_options o arguments).0
      × Steps o arguments (parse_writer_options o arguments)
unfolding parse_writer_options
parse_writer_options-IsValid arguments o valid = parse_loop-Steps arguments o valid

pub default-IsValid : IsValid default_writer_options
default-IsValid = record {
  type_slots = refl;
  mapping_slots = refl;
  title_slots = refl;
  types = unset IsByteOverride tt catalog_slots;
  mappings = unset IsByteOverride tt catalog_slots;
  titles = unset IsTitleOverride tt catalog_slots;
}
  where
    unset : {A : Type 0} (P : Option A → Type 0) → P none → (n : ℕ) → All P (replicate n none)
    unset P p zero = tt
    unset P p (suc n) = (p, unset P p n)
