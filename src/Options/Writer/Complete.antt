-- ===== src/Options/Writer/Complete.antt =====
-- Every accepted form of an argument is taken by src/writer_options.cpp.
use ezfadvance_iii.Prelude.{
  ℕ, suc, ◌+◌, ◌-◌, ◌≤◌, ◌<◌, ◌≡◌, ◌≢◌, refl, sym, ap, ◌∙◌, Bool, true, false, ◌||◌, Option, some,
  List, [], ◌∷◌, ◌++◌, All, set, length, length-append, ltb, leb, ◌==◌, if◌then◌else◌, take, drop,
  Bool-cases, inl, inr, arith,
}
use mathlib.Core.List.{append_assoc}
use ezfadvance_iii.Prelude.Text.{codes, same_text, starts_with}
use ezfadvance_iii.Options.Writer.{
  find_equals, WriterOptions, catalog_slots, printable, valid_menu_title, parse_override_slot,
  slot_not_zero, Step, continue_with, title_at, title_branch, type_at, mapping_at, byte_branch,
  parse_argument,
}
use ezfadvance_iii.Options.Writer.Decimal.{IsDigit, parse_decimal_iff}
use ezfadvance_iii.Options.Writer.Accepts.{ForSlot, Accepts}
use ezfadvance_iii.Options.Writer.Parts.{IsNumber, IsTitle}

-- The characters of `front` are not an equals sign.
abbrev NoEquals : List ℕ → Type 0
NoEquals front = All (λ c. c ≢ b'=') front

abbrev no_equals : List ℕ → Bool
no_equals [] = true
no_equals (c ∷ front) = if c == b'=' then false else no_equals front

no_equals-NoEquals : (front : List ℕ) → no_equals front ≡ true → NoEquals front
no_equals-NoEquals [] h = tt
no_equals-NoEquals (c ∷ front) h = elim (Bool-cases (c == b'=')) [
  | inl e ↦ absurd (let f : ◌≡◌ {A = Bool} false true = rw e at h in cc)
  | inr e ↦ (λ same. ground arith, no_equals-NoEquals front (rw e at h))
]

digits-NoEquals : (text : List ℕ) → All IsDigit text → NoEquals text
digits-NoEquals [] h = tt
digits-NoEquals (c ∷ text) ((low, high), h) = (λ e. omega arith, digits-NoEquals text h)

find_equals-append :
    (front behind : List ℕ)
    → NoEquals front
    → find_equals (front ++ (b'=' ∷ behind)) ≡ some (length front)
unfolding find_equals
find_equals-append [] behind h = refl
find_equals-append (c ∷ front) behind (h, hs) =
    let other : (c == b'=') ≡ false = ground (arith, h) in
    let one : length front + 1 ≡ suc (length front) = omega arith in
    rw (other, find_equals-append front behind hs) (ap (λ n. some n) one)

take-front : (front behind : List ℕ) → take (length front) (front ++ behind) ≡ front
take-front [] behind = refl
take-front (c ∷ front) behind = ap (λ t. c ∷ t) (take-front front behind)

drop-front :
    (front : List ℕ) (c : ℕ) (behind : List ℕ)
    → drop (length front + 1) (front ++ (c ∷ behind)) ≡ behind
drop-front [] c behind = refl
drop-front (d ∷ front) c behind =
    let one : suc (length front + 1) ≡ suc (length front) + 1 = omega arith in
    ap (λ n. drop n (d ∷ (front ++ (c ∷ behind)))) (sym one) ∙ drop-front front c behind

printable-true :
    (title : List ℕ) → All (λ c. (0x20 ≤ c) × (c ≤ 0x7E)) title → printable title ≡ true
unfolding printable
printable-true [] h = refl
printable-true (c ∷ title) ((low, high), h) =
    let inside : (ltb c 0x20 || ltb 0x7E c) ≡ false = ground arith in
    rw (inside, printable-true title h) refl

valid_menu_title-true : (title : List ℕ) → IsTitle title → valid_menu_title title ≡ true
unfolding valid_menu_title
valid_menu_title-true [] (some_char, short, h) = absurd (omega arith)
valid_menu_title-true (c ∷ title) (some_char, short, h) =
    let fits : ltb 16 (length (c ∷ title)) ≡ false = ground arith in
    rw (fits, printable-true (c ∷ title) h) refl

drop-prefix : (name behind : List ℕ) → drop (length name) (name ++ behind) ≡ behind
drop-prefix [] behind = refl
drop-prefix (c ∷ name) behind = drop-prefix name behind

All-append : (xs ys : List ℕ) → NoEquals xs → NoEquals ys → NoEquals (xs ++ ys)
All-append [] ys h k = k
All-append (x ∷ xs) ys (h, hs) k = (h, All-append xs ys hs k)

some_digit : (text : List ℕ) → text ≢ [] → 0 < length text
some_digit [] h = absurd (h refl)
some_digit (c ∷ text) h = omega arith

-- How an argument of the form is taken apart.
record IsSplit (argument name text : List ℕ) (slot equals : ℕ) : Type 0 where
  found : find_equals argument ≡ some equals
  slot_parsed : parse_override_slot argument (length name) equals ≡ some slot
  text_behind : drop (equals + 1) argument ≡ text
  behind_name : length name < equals
  ends : length argument ≡ equals + 1 + length text

ForSlot-IsSplit :
    (argument name text : List ℕ) (slot : ℕ)
    → NoEquals name
    → ForSlot argument name text slot
    → (equals : ℕ) × IsSplit argument name text slot equals
unfolding parse_override_slot slot_not_zero
ForSlot-IsSplit argument name text slot plain p =
    let front = name ++ p.slot_text in
    let equals = length front in
    let (nonempty, digits, same) = p.slot_number in
    let long = length-append name p.slot_text in
    let more = some_digit p.slot_text nonempty in
    let whole : argument ≡ front ++ (b'=' ∷ text) =
      p.reads ∙ sym (append_assoc name p.slot_text (b'=' ∷ text)) in
    let size : equals - length name ≡ length p.slot_text = omega (arith, long) in
    let inside : ltb (length name) equals ≡ true = ground (arith, long, more) in
    let cut : take (equals - length name) (drop (length name) argument) ≡ p.slot_text =
      ap (λ a. take (equals - length name) (drop (length name) a)) p.reads
      ∙ ap (λ b. take (equals - length name) b) (drop-prefix name (p.slot_text ++ (b'=' ∷ text)))
      ∙ ap (λ n. take n (p.slot_text ++ (b'=' ∷ text))) size
      ∙ take-front p.slot_text (b'=' ∷ text) in
    let parsed =
      (parse_decimal_iff p.slot_text catalog_slots slot).1 (nonempty, digits, same, p.slot_last) in
    let other : (slot == 0) ≡ false = let f = p.slot_first in ground (arith, f) in
    (
      equals,
      record {
        found =
            ap find_equals whole
            ∙ find_equals-append front text
                (All-append name p.slot_text plain (digits-NoEquals p.slot_text digits));
        slot_parsed = rw (inside, cut, parsed, other) refl;
        text_behind = ap (λ a. drop (equals + 1) a) whole ∙ drop-front front b'=' text;
        behind_name = omega (arith, long, more);
        ends = ap length whole ∙ (let l = length-append front (b'=' ∷ text) in omega (arith, l));
      },
    )

module _ (o : WriterOptions) (argument : List ℕ) where
  title_branch-true :
      (title : List ℕ) (slot : ℕ)
      → ForSlot argument (codes "--title") title slot
      → IsTitle title
      → title_branch o argument (find_equals argument)
        ≡ continue_with
            (record o { title_overrides = set o.title_overrides (slot - 1) (some title) })
  unfolding title_branch title_at
  title_branch-true title slot p good =
      let plain : NoEquals (codes "--title") = no_equals-NoEquals (codes "--title") refl in
      let (equals, parts) = ForSlot-IsSplit argument (codes "--title") title slot plain p in
      rw (parts.found, parts.slot_parsed, parts.text_behind, valid_menu_title-true title good) refl

  byte_branch-true :
      (store : WriterOptions → Option ℕ → Option ℕ → Step) (name text : List ℕ) (slot value : ℕ)
      → NoEquals name
      → ForSlot argument name text slot
      → IsNumber text value
      → value ≤ 255
      → byte_branch store (length name) o argument (find_equals argument)
        ≡ store o (some slot) (some value)
  unfolding byte_branch
  byte_branch-true store name text slot value plain p (nonempty, digits, same) small =
      let (equals, parts) = ForSlot-IsSplit argument name text slot plain p in
      let open_ : (leb equals (length name) || leb (length argument) (equals + 1)) ≡ false =
        ground (arith, parts.behind_name, parts.ends, some_digit text nonempty) in
      rw
        (
          parts.found,
          open_,
          parts.slot_parsed,
          parts.text_behind,
          (parse_decimal_iff text 255 value).1 (nonempty, digits, same, small),
        )
        refl

path-taken :
    (o : WriterOptions) (argument : List ℕ)
    → starts_with (b'-' ∷ []) argument ≡ false
    → parse_argument o argument
      ≡ continue_with (record o { rom_paths = o.rom_paths ++ (argument ∷ []) })
unfolding parse_argument
path-taken o [] h = refl
path-taken o (c ∷ argument) h =
    let first : (b'-' == c) ≡ false = ground arith in
    let other : (c == b'-') ≡ false = ground arith in rw (first, other) refl

-- An argument in an accepted form is taken, and changes just what its form says.
pub Accepts-taken :
    (o : WriterOptions) (argument : List ℕ) (u : WriterOptions)
    → Accepts o argument u
    → parse_argument o argument ≡ continue_with u
unfolding parse_argument type_at mapping_at
Accepts-taken o argument _ (Accepts.sets_write e) = rw e refl
Accepts-taken o argument _ (Accepts.sets_skip e) = rw e refl
Accepts-taken o argument _ (Accepts.sets_verbose e) = rw e refl
Accepts-taken o argument _ (Accepts.sets_direct e) = rw e refl
Accepts-taken o argument _ (Accepts.sets_title slot title p good) =
    let a : same_text argument (codes "--yes-really-write") ≡ false = rw p.reads refl in
    let b : same_text argument (codes "--skip-verify") ≡ false = rw p.reads refl in
    let c : same_text argument (codes "--verbose") ≡ false = rw p.reads refl in
    let d : same_text argument (codes "--experimental-direct-boot") ≡ false = rw p.reads refl in
    let e : starts_with (codes "--title") argument ≡ true = rw p.reads refl in
    rw (a, b, c, d, e) (title_branch-true o argument title slot p good)
Accepts-taken o argument _ (Accepts.sets_type slot value text p number small) =
    let a : same_text argument (codes "--yes-really-write") ≡ false = rw p.reads refl in
    let b : same_text argument (codes "--skip-verify") ≡ false = rw p.reads refl in
    let c : same_text argument (codes "--verbose") ≡ false = rw p.reads refl in
    let d : same_text argument (codes "--experimental-direct-boot") ≡ false = rw p.reads refl in
    let e : starts_with (codes "--title") argument ≡ false = rw p.reads refl in
    let f : starts_with (codes "--type") argument ≡ true = rw p.reads refl in
    rw (a, b, c, d, e, f)
      (byte_branch-true o argument type_at (codes "--type") text slot value
        (no_equals-NoEquals (codes "--type") refl) p number small)
Accepts-taken o argument _ (Accepts.sets_mapping slot value text p number small) =
    let a : same_text argument (codes "--yes-really-write") ≡ false = rw p.reads refl in
    let b : same_text argument (codes "--skip-verify") ≡ false = rw p.reads refl in
    let c : same_text argument (codes "--verbose") ≡ false = rw p.reads refl in
    let d : same_text argument (codes "--experimental-direct-boot") ≡ false = rw p.reads refl in
    let e : starts_with (codes "--title") argument ≡ false = rw p.reads refl in
    let f : starts_with (codes "--type") argument ≡ false = rw p.reads refl in
    let g : starts_with (codes "--map") argument ≡ true = rw p.reads refl in
    rw (a, b, c, d, e, f, g)
      (byte_branch-true o argument mapping_at (codes "--map") text slot value
        (no_equals-NoEquals (codes "--map") refl) p number small)
Accepts-taken o argument _ (Accepts.adds_path h) = path-taken o argument h
