-- ===== src/Options/Writer/Accepts.antt =====
-- What one argument of src/writer_options.cpp may change.
use ezfadvance_iii.Prelude.{
  ℕ, ◌+◌, ◌-◌, ◌≤◌, ◌≡◌, refl, Bool, true, false, ◌||◌, Option, none, some, List, [], ◌∷◌, ◌++◌,
  set, length, leb, if◌then◌else◌, take, drop, arith,
}
use ezfadvance_iii.Prelude.Text.{codes, same_text, same_text-eq, starts_with}
use ezfadvance_iii.Options.Writer.{
  find_equals, WriterOptions, parse_decimal, valid_menu_title, parse_override_slot, Step,
  continue_with, stop, title_at, title_branch, type_at, mapping_at, byte_branch, parse_argument,
}
use ezfadvance_iii.Options.Writer.Parts.{
  IsNumber, IsTitle, split_argument, parse_override_slot-IsNumber, valid_menu_title-IsTitle,
}
use ezfadvance_iii.Options.Writer.Decimal.{parse_decimal_iff}

-- `argument` is the name, the number of a catalog slot, `=` and the value.
pub record ForSlot (argument name value_text : List ℕ) (slot : ℕ) : Type 0 where
  pub slot_text : List ℕ
  pub reads : argument ≡ name ++ (slot_text ++ (b'=' ∷ value_text))
  pub slot_number : IsNumber slot_text slot
  pub slot_first : 1 ≤ slot
  pub slot_last : slot ≤ 120

-- What an argument that is taken changes, and nothing else.
pub data Accepts (o : WriterOptions) (argument : List ℕ) : WriterOptions → Type 0 where
  sets_write :
      argument ≡ codes "--yes-really-write" → Accepts o argument (record o { write = true })
  sets_skip :
      argument ≡ codes "--skip-verify" → Accepts o argument (record o { skip_verify = true })
  sets_verbose : argument ≡ codes "--verbose" → Accepts o argument (record o { verbose = true })
  sets_direct :
      argument ≡ codes "--experimental-direct-boot"
      → Accepts o argument (record o { experimental_direct_boot = true })
  sets_title :
      (slot : ℕ) (title : List ℕ)
      → ForSlot argument (codes "--title") title slot
      → IsTitle title
      → Accepts o argument
          (record o { title_overrides = set o.title_overrides (slot - 1) (some title) })
  sets_type :
      (slot value : ℕ) (text : List ℕ)
      → ForSlot argument (codes "--type") text slot
      → IsNumber text value
      → value ≤ 255
      → Accepts o argument
          (record o { type_overrides = set o.type_overrides (slot - 1) (some value) })
  sets_mapping :
      (slot value : ℕ) (text : List ℕ)
      → ForSlot argument (codes "--map") text slot
      → IsNumber text value
      → value ≤ 255
      → Accepts o argument
          (record o { mapping_overrides = set o.mapping_overrides (slot - 1) (some value) })
  adds_path :
      starts_with (b'-' ∷ []) argument ≡ false
      → Accepts o argument (record o { rom_paths = o.rom_paths ++ (argument ∷ []) })

-- What the loop goes on with was accepted, and where it stops there is no success.
abbrev pub Follows : WriterOptions → List ℕ → Step → Type 0
Follows o argument (continue_with changed) = Accepts o argument changed
Follows o argument (stop result) = result.ok ≡ false

module _ (o : WriterOptions) (argument : List ℕ) where
  if-Follows :
      (test : Bool) (yes_ no_ : Step)
      → (test ≡ true → Follows o argument yes_)
      → (test ≡ false → Follows o argument no_)
      → Follows o argument (if test then yes_ else no_)
  if-Follows true yes_ no_ h k = h refl
  if-Follows false yes_ no_ h k = k refl

  -- The parts of an argument whose slot was parsed.
  parse_override_slot-ForSlot :
      (name : List ℕ) (equals slot : ℕ)
      → starts_with name argument ≡ true
      → find_equals argument ≡ some equals
      → parse_override_slot argument (length name) equals ≡ some slot
      → ForSlot argument name (drop (equals + 1) argument) slot
  parse_override_slot-ForSlot name equals slot starts found parsed =
      let (behind, number, first, last) =
        parse_override_slot-IsNumber argument (length name) equals slot parsed in
      record {
        slot_text = take (equals - length name) (drop (length name) argument);
        reads = split_argument name argument equals starts found (omega arith);
        slot_number = number;
        slot_first = first;
        slot_last = last;
      }

  title_branch-Follows :
      starts_with (codes "--title") argument ≡ true
      → (equals : Option ℕ) → find_equals argument ≡ equals
      → Follows o argument (title_branch o argument equals)
  unfolding title_branch title_at
  title_branch-Follows starts none found = refl
  title_branch-Follows starts (some equals) found = go (parse_override_slot argument 7 equals) refl
    where
      title : List ℕ
      title = drop (equals + 1) argument

      go :
          (slot : Option ℕ)
          → parse_override_slot argument 7 equals ≡ slot
          → Follows o argument (title_at o (drop (equals + 1) argument) slot)
      go none e = refl
      go (some slot) e =
          if-Follows (valid_menu_title (drop (equals + 1) argument)) _ _
            (λ good.
              Accepts.sets_title slot (drop (equals + 1) argument)
                (parse_override_slot-ForSlot (codes "--title") equals slot starts found e)
                (valid_menu_title-IsTitle (drop (equals + 1) argument) good))
            (λ bad. refl)

  -- The branches of a byte, with what a slot and a value come to.
  byte_branch-Follows :
      (store : WriterOptions → Option ℕ → Option ℕ → Step) (name : List ℕ) (equals : Option ℕ)
      → starts_with name argument ≡ true
      → find_equals argument ≡ equals
      → ((value : Option ℕ) → Follows o argument (store o none value))
      → ((slot : ℕ) → Follows o argument (store o (some slot) none))
      → ((slot value : ℕ) (text : List ℕ)
          → ForSlot argument name text slot
          → IsNumber text value
          → value ≤ 255
          → Follows o argument (store o (some slot) (some value)))
      → Follows o argument (byte_branch store (length name) o argument equals)
  unfolding byte_branch
  byte_branch-Follows store name none starts found no_slot no_value both = refl
  byte_branch-Follows store name (some equals) starts found no_slot no_value both =
      if-Follows (leb equals (length name) || leb (length argument) (equals + 1)) _ _ (λ bad. refl)
        (λ good.
          go (parse_override_slot argument (length name) equals)
            (parse_decimal (drop (equals + 1) argument) 255) refl refl)
    where
      go :
          (slot value : Option ℕ)
          → parse_override_slot argument (length name) equals ≡ slot
          → parse_decimal (drop (equals + 1) argument) 255 ≡ value
          → Follows o argument (store o slot value)
      go none value e f = no_slot value
      go (some slot) none e f = no_value slot
      go (some slot) (some value) e f =
          let text = drop (equals + 1) argument in
          let (nonempty, digits, number, most) = (parse_decimal_iff text 255 value).0 f in
          both slot value text (parse_override_slot-ForSlot name equals slot starts found e)
            (nonempty, digits, number) most

  -- Whatever an argument is taken for, it is one of the accepted forms.
  pub parse_argument-Follows : Follows o argument (parse_argument o argument)
  unfolding parse_argument type_at mapping_at
  parse_argument-Follows =
      let named = λ (name : List ℕ). same_text-eq argument name in
      if-Follows (same_text argument (codes "--yes-really-write")) _ _
        (λ e. Accepts.sets_write (named (codes "--yes-really-write") e))
        (λ a.
          if-Follows (same_text argument (codes "--skip-verify")) _ _
            (λ e. Accepts.sets_skip (named (codes "--skip-verify") e))
            (λ b.
              if-Follows (same_text argument (codes "--verbose")) _ _
                (λ e. Accepts.sets_verbose (named (codes "--verbose") e))
                (λ c.
                  if-Follows (same_text argument (codes "--experimental-direct-boot")) _ _
                    (λ e. Accepts.sets_direct (named (codes "--experimental-direct-boot") e))
                    (λ d.
                      if-Follows (starts_with (codes "--title") argument) _ _
                        (λ e. title_branch-Follows e (find_equals argument) refl)
                        (λ f.
                          if-Follows (starts_with (codes "--type") argument) _ _
                            (λ e.
                              byte_branch-Follows type_at (codes "--type") (find_equals argument) e
                                refl (λ value. refl) (λ slot. refl)
                                (λ slot value text parts number small.
                                  Accepts.sets_type slot value text parts number small))
                            (λ g.
                              if-Follows (starts_with (codes "--map") argument) _ _
                                (λ e.
                                  byte_branch-Follows mapping_at (codes "--map")
                                    (find_equals argument) e refl (λ value. refl) (λ slot. refl)
                                    (λ slot value text parts number small.
                                      Accepts.sets_mapping slot value text parts number small))
                                (λ k.
                                  if-Follows (starts_with (b'-' ∷ []) argument) _ _ (λ e. refl)
                                    (λ e. Accepts.adds_path e))))))))
