-- ===== src/ImageBuilder/Names.antt =====
-- The name of a catalog entry, as src/cartridge_image_builder.cpp pads it and cleanAscii of
-- src/cartridge_format.cpp reads it.
use ezfadvance_iii.Prelude.{
  ℕ, zero, suc, ◌+◌, ◌-◌, ◌≤◌, ◌<◌, ◌≡◌, ◌≢◌, refl, sym, ◌∙◌, ap, true, false, ◌&&◌, ◌||◌, List, [],
  ◌∷◌, ◌++◌, reverse, length, All, leb, ◌==◌, take, drop, replicate, length-take, length-drop,
  length-append, length-replicate, same_elements, get_or-take, get_or-drop, arith,
}
use mathlib.Core.List.{reverse-append, reverse-reverse}
use ezfadvance_iii.Prelude.Bytes.{byte_at}
use ezfadvance_iii.CartridgeFormat.{clean_ascii, clean_scan, pop_spaces}

abbrev pub IsPrintable : ℕ → Type 0
IsPrintable c = (0x20 ≤ c) × (c ≤ 0x7E)

-- A name that an entry keeps: one to 16 printable characters, the last one not a space.
pub record IsMenuName (name : List ℕ) : Type 0 where
  pub front : List ℕ
  pub last : ℕ
  pub ends : name ≡ front ++ (last ∷ [])
  pub no_space : last ≢ b' '
  pub all_printable : All IsPrintable name
  pub short : length name ≤ 16

clean_scan-name :
    (name : List ℕ) (padding : ℕ)
    → All IsPrintable name
    → clean_scan (name ++ replicate padding 0) ≡ name
unfolding clean_scan
clean_scan-name [] zero h = refl
clean_scan-name [] (suc k) h = refl
clean_scan-name (c ∷ name) k ((low, high), h) =
    let stop : ((c == 0x00) || (c == 0xFF)) ≡ false = ground arith in
    let kept : (leb 0x20 c && leb c 0x7E) ≡ true = ground arith in
    rw (stop, kept, clean_scan-name name k h) refl

-- The padded name of an entry is read as the name.
pub clean_ascii-name :
    (t : List ℕ) (off padding : ℕ) (name : List ℕ)
    → IsMenuName name
    → take 16 (drop off t) ≡ name ++ replicate padding 0
    → clean_ascii t off 16 ≡ name
unfolding clean_ascii pop_spaces
clean_ascii-name t off padding name m h =
    let space : (m.last == b' ') ≡ false = let n = m.no_space in ground (arith, n) in
    let back : reverse name ≡ m.last ∷ reverse m.front =
      ap reverse m.ends ∙ reverse-append m.front (m.last ∷ []) in
    rw (h, clean_scan-name name padding m.all_printable, back, space)
      (ap reverse (sym back) ∙ reverse-reverse name)

byte_at-zeros : (k i : ℕ) → byte_at (replicate k 0) i ≡ 0
byte_at-zeros zero i = refl
byte_at-zeros (suc k) zero = refl
byte_at-zeros (suc k) (suc i) = byte_at-zeros k i

byte_at-padded : (xs : List ℕ) (k i : ℕ) → byte_at (xs ++ replicate k 0) i ≡ byte_at xs i
byte_at-padded [] k i = byte_at-zeros k i
byte_at-padded (x ∷ xs) k zero = refl
byte_at-padded (x ∷ xs) k (suc i) = byte_at-padded xs k i

-- Sixteen bytes that are the name's, and 0 behind it, are the padded name.
pub padded_name :
    (t : List ℕ) (off : ℕ) (name : List ℕ)
    → length name ≤ 16
    → off + 16 ≤ length t
    → ((i : ℕ) → i < 16 → byte_at t (off + i) ≡ byte_at (take 16 name) i)
    → take 16 (drop off t) ≡ name ++ replicate (16 - length name) 0
padded_name t off name short long h =
    let n : length (take 16 (drop off t)) ≡ 16 =
      omega (arith, length-take 16 (drop off t), length-drop off t) in
    same_elements 0 (take 16 (drop off t)) (name ++ replicate (16 - length name) 0)
      (omega (
        arith,
        n,
        length-append name (replicate (16 - length name) 0),
        length-replicate {A = ℕ} (16 - length name) 0,
      ))
      (λ i lt.
        let inside : i < 16 = omega (arith, n) in
        let taken : byte_at (take 16 (drop off t)) i ≡ byte_at (drop off t) i =
          ground (arith, get_or-take 16 (drop off t) i 0) in
        let cut : byte_at (take 16 name) i ≡ byte_at name i =
          ground (arith, get_or-take 16 name i 0) in
        taken
        ∙ get_or-drop off t i 0
        ∙ h i inside
        ∙ cut
        ∙ sym (byte_at-padded name (16 - length name) i))
