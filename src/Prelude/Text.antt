-- ===== src/Prelude/Text.antt =====
-- Texts as lists of character codes, and the number parsing of the C++ standard library.
use ezfadvance_iii.Prelude.Tests.{ltb, leb, ◌==◌, if◌then◌else◌}
use Prim.Native.Nat.{ℕ, ◌+◌, ◌-◌, ◌*◌}
use Prim.Native.Char.{code}
use Prim.Native.String.{String}
use mathlib.Core.Path.{◌≡◌, refl}
use mathlib.Core.Bool.{Bool, true, false, ◌&&◌}
use mathlib.Core.Option.{Option, none, some}
use mathlib.Core.List.{List, [], ◌∷◌, ◌++◌}
use native.Mathlib.Omega.{arith}

abbrev pub codes : String → List ℕ
codes String.[] = []
codes (String.◌∷◌ c s) = code c ∷ codes s

-- `text.rfind(prefix, 0) == 0`
abbrev pub starts_with : List ℕ → List ℕ → Bool
starts_with [] text = true
starts_with (p ∷ prefix) [] = false
starts_with (p ∷ prefix) (c ∷ text) = (p == c) && starts_with prefix text

abbrev pub same_text : List ℕ → List ℕ → Bool
same_text [] [] = true
same_text [] (d ∷ b) = false
same_text (c ∷ a) [] = false
same_text (c ∷ a) (d ∷ b) = (c == d) && same_text a b

abbrev pub is_empty : List ℕ → Bool
is_empty [] = true
is_empty (c ∷ text) = false

-- The value of a digit in a base up to 16, in either case.
abbrev pub digit_value : ℕ → ℕ → Option ℕ
digit_value base c =
    if leb b'0' c && leb c b'9' && ltb (c - b'0') base
    then some (c - b'0')
    else if leb b'a' c && ltb c (b'a' + base - 10) && ltb 10 base
    then some (c - b'a' + 10)
    else if leb b'A' c && ltb c (b'A' + base - 10) && ltb 10 base
    then some (c - b'A' + 10)
    else none

-- The digits at the front, as a number, and what follows them.
unfoldable pub scan_digits : ℕ → ℕ → List ℕ → ℕ × List ℕ
scan_digits base value [] = (value, [])
scan_digits base value (c ∷ text) = elim (digit_value base c) [
  | none ↦ (value, c ∷ text)
  | some digit ↦ scan_digits base (value * base + digit) text
]

abbrev in_word : ℕ × List ℕ → Option (ℕ × List ℕ)
in_word (value, rest) = if ltb value 0x1_0000_0000_0000_0000 then some (value, rest) else none

-- `std::from_chars` into a 64-bit unsigned number: the value and the text behind it. There is none
-- where no digit stands at the front, or where the value does not fit.
unfoldable pub from_chars : ℕ → List ℕ → Option (ℕ × List ℕ)
unfolding scan_digits
from_chars base [] = none
from_chars base (c ∷ text) = elim (digit_value base c) [
  | none ↦ none
  | some digit ↦ in_word (scan_digits base digit text)
]

abbrev whole : Option (ℕ × List ℕ) → Option ℕ
whole none = none
whole (some (value, rest)) = if is_empty rest then some value else none

-- The idiom `result.ec == std::errc{} && result.ptr == end`: the text is one number.
unfoldable pub whole_number : ℕ → List ℕ → Option ℕ
unfolding from_chars
whole_number base text = whole (from_chars base text)

pub same_text-eq : (a b : List ℕ) → same_text a b ≡ true → a ≡ b
same_text-eq [] [] h = refl
same_text-eq [] (d ∷ b) h = cc
same_text-eq (c ∷ a) [] h = cc
same_text-eq (c ∷ a) (d ∷ b) h = ground (arith, same_text-eq a b)

pub same_text_refl : (a : List ℕ) → same_text a a ≡ true
same_text_refl [] = refl
same_text_refl (c ∷ a) = ground (arith, same_text_refl a)

pub starts_with-eq :
    (p text : List ℕ) → starts_with p text ≡ true → (rest : List ℕ) × (text ≡ p ++ rest)
starts_with-eq [] text h = (text, refl)
starts_with-eq (c ∷ p) [] h = absurd (cc)
starts_with-eq (c ∷ p) (d ∷ text) h =
    let (rest, e) = starts_with-eq p text (ground arith) in (rest, ground arith)
