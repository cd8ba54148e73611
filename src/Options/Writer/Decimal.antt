-- ===== src/Options/Writer/Decimal.antt =====
-- The decimal numbers of src/writer_options.cpp.
use ezfadvance_iii.Prelude.{
  ℕ, ◌+◌, ◌-◌, ◌*◌, ◌/◌, ◌≤◌, ◌≡◌, ◌≢◌, inl, inr, refl, ap, ◌∙◌, false, ◌||◌, some, List, [], ◌∷◌,
  All, ltb, arith, Bool-cases, ◌↔◌,
}
use ezfadvance_iii.Options.Writer.{decimal_digits, parse_decimal}

abbrev pub IsDigit : ℕ → Type 0
IsDigit c = (b'0' ≤ c) × (c ≤ b'9')

-- The number that digits write behind the digits of `front`.
abbrev pub decimal_value : ℕ → List ℕ → ℕ
decimal_value front [] = front
decimal_value front (c ∷ text) = decimal_value (front * 10 + (c - b'0')) text

decimal_value_grows : (front : ℕ) (text : List ℕ) → front ≤ decimal_value front text
decimal_value_grows front [] = omega arith
decimal_value_grows front (c ∷ text) =
    omega (arith, decimal_value_grows (front * 10 + (c - b'0')) text)

digits_sound :
    (maximum parsed value : ℕ) (text : List ℕ)
    → parsed ≤ maximum
    → decimal_digits maximum parsed text ≡ some value
    → All IsDigit text × (decimal_value parsed text ≡ value) × (value ≤ maximum)
unfolding decimal_digits
digits_sound maximum parsed value [] small e = ground arith
digits_sound maximum parsed value (c ∷ text) small e =
    let digit = c - b'0' in
    elim (Bool-cases (ltb c b'0' || ltb b'9' c)) [
      | inl yes_ ↦ absurd (let k = rw yes_ at e in cc)
      | inr no_ ↦ elim (Bool-cases (ltb maximum digit || ltb ((maximum - digit) / 10) parsed)) [
        | inl over ↦ absurd (let k = rw (no_, over) at e in cc)
        | inr fits ↦
            let bound : parsed * 10 + digit ≤ maximum = ground arith in
            let (digits, same, most) =
              digits_sound maximum (parsed * 10 + digit) value text bound (rw (no_, fits) at e) in
            ((ground arith, digits), same, most)
      ]
    ]

digits_complete :
    (maximum parsed : ℕ) (text : List ℕ)
    → All IsDigit text
    → decimal_value parsed text ≤ maximum
    → decimal_digits maximum parsed text ≡ some (decimal_value parsed text)
unfolding decimal_digits
digits_complete maximum parsed [] digits most = refl
digits_complete maximum parsed (c ∷ text) ((low, high), digits) most =
    let digit = c - b'0' in
    let grows = decimal_value_grows (parsed * 10 + digit) text in
    let no_ : (ltb c b'0' || ltb b'9' c) ≡ false = ground arith in
    let fits : (ltb maximum digit || ltb ((maximum - digit) / 10) parsed) ≡ false = ground arith in
    rw (no_, fits) (digits_complete maximum (parsed * 10 + digit) text digits most)

-- A text is read as a number exactly when it is digits alone, at least one, that write a number
-- up to the maximum; and then that number is the result.
pub parse_decimal_iff :
    (text : List ℕ) (maximum value : ℕ)
    → (parse_decimal text maximum ≡ some value)
      ↔ ((text ≢ []) × All IsDigit text × (decimal_value 0 text ≡ value) × (value ≤ maximum))
unfolding parse_decimal
parse_decimal_iff [] maximum value =
    (λ e. absurd (let k = e in cc), λ (nonempty, digits, same, most). absurd (nonempty refl))
parse_decimal_iff (c ∷ text) maximum value = (
  λ e.
      let (digits, same, most) = digits_sound maximum 0 value (c ∷ text) (omega arith) e in
      (λ h. absurd (let k = h in cc), digits, same, most),
  λ (nonempty, digits, same, most).
      digits_complete maximum 0 (c ∷ text) digits (omega arith) ∙ ap (λ x. some x) same,
)
