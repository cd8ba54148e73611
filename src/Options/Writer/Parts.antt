-- ===== src/Options/Writer/Parts.antt =====
-- The parts of an override in src/writer_options.cpp: its slot, its number and its title.
use ezfadvance_iii.Prelude.{
  ℕ, zero, suc, ◌+◌, ◌-◌, ◌≤◌, ◌<◌, ◌≡◌, ◌≢◌, sym, ap, ◌∙◌, Bool, true, false, ◌||◌, Option, none,
  some, Option-cases, List, [], ◌∷◌, ◌++◌, All, length, ltb, ◌==◌, take, drop, Bool-cases, inl, inr,
  arith,
}
use mathlib.Core.Path.{subst}
use mathlib.Core.List.{append_assoc}
use ezfadvance_iii.Prelude.Text.{starts_with, starts_with-eq}
use ezfadvance_iii.Options.Writer.{
  find_equals, catalog_slots, printable, parse_decimal, valid_menu_title, parse_override_slot,
  slot_not_zero,
}
use ezfadvance_iii.Options.Writer.Decimal.{IsDigit, decimal_value, parse_decimal_iff}

-- A number in decimal digits.
abbrev pub IsNumber : List ℕ → ℕ → Type 0
IsNumber text value = (text ≢ []) × All IsDigit text × (decimal_value 0 text ≡ value)

-- A title of 1 to 16 printable characters.
abbrev pub IsTitle : List ℕ → Type 0
IsTitle title = (1 ≤ length title) × (length title ≤ 16) × All (λ c. (0x20 ≤ c) × (c ≤ 0x7E)) title

take-prefix :
    (p rest : List ℕ) (k : ℕ)
    → length p ≤ k
    → take k (p ++ rest) ≡ p ++ take (k - length p) (drop (length p) (p ++ rest))
take-prefix [] rest k h = let e : k ≡ k - 0 = omega arith in ap (λ n. take n rest) e
take-prefix (c ∷ p) rest zero h = absurd (omega arith)
take-prefix (c ∷ p) rest (suc k) h =
    let e : k - length p ≡ suc k - suc (length p) = omega arith in
    ap (λ t. c ∷ t)
      (take-prefix p rest k (omega arith) ∙ ap (λ n. p ++ take n (drop (length p) (p ++ rest))) e)

find_equals-some :
    (text : List ℕ) (k : ℕ)
    → find_equals text ≡ some k
    → text ≡ take k text ++ (b'=' ∷ drop (k + 1) text)
unfolding find_equals
find_equals-some [] k h = absurd (let f = h in cc)
find_equals-some (c ∷ text) k h = elim (Bool-cases (c == b'=')) [
  | inl e ↦
      (let same : c ≡ b'=' = ground arith in
        let found : ◌≡◌ {A = Option ℕ} (some 0) (some k) = rw e at h in
        let first : 0 ≡ k = cc found in
        subst (λ n. c ∷ text ≡ take n (c ∷ text) ++ (b'=' ∷ drop (n + 1) (c ∷ text))) first
          (ap (λ x. x ∷ text) same))
  | inr e ↦ elim (Option-cases (find_equals text)) [
    | inl n ↦ absurd (let f : ◌≡◌ {A = Option ℕ} none (some k) = rw (e, n) at h in cc)
    | inr (i, found) ↦
        let f : ◌≡◌ {A = Option ℕ} (some (i + 1)) (some k) = rw (e, found) at h in
        let next : i + 1 ≡ k = cc f in
        let one : suc i ≡ i + 1 = omega arith in
        subst (λ n. c ∷ text ≡ take n (c ∷ text) ++ (b'=' ∷ drop (n + 1) (c ∷ text))) (one ∙ next)
          (let shift : suc (i + 1) ≡ suc i + 1 = omega arith in
            ap (λ t. c ∷ t) (find_equals-some text i found)
            ∙ ap (λ n. c ∷ (take i text ++ (b'=' ∷ drop n (c ∷ text)))) shift)
  ]
]

-- An argument with a name and an equals sign behind it, in its parts.
pub split_argument :
    (p argument : List ℕ) (k : ℕ)
    → starts_with p argument ≡ true
    → find_equals argument ≡ some k
    → length p ≤ k
    → argument
      ≡ p ++ (take (k - length p) (drop (length p) argument) ++ (b'=' ∷ drop (k + 1) argument))
split_argument p argument k h e long =
    let (rest, same) = starts_with-eq p argument h in
    (let front : take k argument ≡ p ++ take (k - length p) (drop (length p) argument) =
        subst (λ a. take k a ≡ p ++ take (k - length p) (drop (length p) a)) (sym same)
          (take-prefix p rest k long) in
      find_equals-some argument k e
      ∙ ap (λ t. t ++ (b'=' ∷ drop (k + 1) argument)) front
      ∙ append_assoc p (take (k - length p) (drop (length p) argument))
          (b'=' ∷ drop (k + 1) argument))

pub parse_override_slot-IsNumber :
    (argument : List ℕ) (prefix_size equals slot : ℕ)
    → parse_override_slot argument prefix_size equals ≡ some slot
    → (prefix_size < equals)
      × IsNumber (take (equals - prefix_size) (drop prefix_size argument)) slot
      × (1 ≤ slot)
      × (slot ≤ 120)
unfolding parse_override_slot slot_not_zero
parse_override_slot-IsNumber argument prefix_size equals slot h =
    elim (Bool-cases (ltb prefix_size equals)) [
      | inr e ↦ absurd (let f = rw e at h in cc)
      | inl e ↦
          let text = take (equals - prefix_size) (drop prefix_size argument) in
          elim (Option-cases (parse_decimal text catalog_slots)) [
            | inl n ↦ absurd (let f : ◌≡◌ {A = Option ℕ} none (some slot) = rw (e, n) at h in cc)
            | inr (value, found) ↦ elim (Bool-cases (value == 0)) [
              | inl z ↦
                  absurd (let f : ◌≡◌ {A = Option ℕ} none (some slot) = rw (e, found, z) at h in cc)
              | inr nz ↦
                  let f : ◌≡◌ {A = Option ℕ} (some value) (some slot) = rw (e, found, nz) at h in
                  let same : value ≡ slot = cc f in
                  let (nonempty, digits, number, most) =
                    (parse_decimal_iff text catalog_slots value).0 found in
                  (ground arith, (nonempty, digits, number ∙ same), ground arith, omega arith)
            ]
          ]
    ]

printable-All : (title : List ℕ) → printable title ≡ true → All (λ c. (0x20 ≤ c) × (c ≤ 0x7E)) title
unfolding printable
printable-All [] h = tt
printable-All (c ∷ title) h = elim (Bool-cases (ltb c 0x20 || ltb 0x7E c)) [
  | inl e ↦ absurd (let f : ◌≡◌ {A = Bool} false true = rw e at h in cc)
  | inr e ↦ (ground arith, printable-All title (rw e at h))
]

pub valid_menu_title-IsTitle : (title : List ℕ) → valid_menu_title title ≡ true → IsTitle title
unfolding valid_menu_title
valid_menu_title-IsTitle [] h = absurd (cc)
valid_menu_title-IsTitle (c ∷ title) h = elim (Bool-cases (ltb 16 (length (c ∷ title)))) [
  | inl e ↦ absurd (let f : ◌≡◌ {A = Bool} false true = rw e at h in cc)
  | inr e ↦
      let f : printable (c ∷ title) ≡ true = rw e at h in
      (omega arith, ground arith, printable-All (c ∷ title) f)
]
