-- ===== src/SaveAccess/Selection.antt =====
-- selectSaveRom and boundedSaveScanSpan of include/ezfadvance/save_selection.hpp.
use ezfadvance_iii.Prelude.{
  ℕ, zero, suc, ◌-◌, ◌<◌, ◌≡◌, ◌≢◌, ◌⊎◌, ◌↔◌, inl, inr, ap, true, Option, none, some, List, [], ◌∷◌,
  min, arith,
}
use ezfadvance_iii.SaveAccess.{
  selected, multiple_supported_candidates, contains, select_save_rom, bounded_save_scan_span,
}

-- Why a ROM may be chosen: its number was given, or there is only one ROM.
abbrev pub Chosen : ℕ → Option ℕ → ℕ → Type 0
Chosen rom_count requested index =
    (requested ≡ some (suc index)) ⊎ ((requested ≡ none) × (rom_count ≡ 1) × (index ≡ 0))

select_save_rom_sound :
    (rom_count : ℕ) (candidates : List ℕ) (requested : Option ℕ) (index : ℕ)
    → select_save_rom rom_count candidates requested ≡ record { status = selected; index = index }
    → (index < rom_count) × (contains candidates index ≡ true) × Chosen rom_count requested index
unfolding select_save_rom contains
select_save_rom_sound rom_count [] none index h = ground arith
select_save_rom_sound rom_count [] (some zero) index h = ground arith
select_save_rom_sound rom_count [] (some (suc n)) index h = ground arith
select_save_rom_sound rom_count (c ∷ cs) none index h =
    (ground arith, ground arith, inr (ground arith))
select_save_rom_sound rom_count (c ∷ cs) (some zero) index h = ground arith
select_save_rom_sound rom_count (c ∷ cs) (some (suc n)) index h =
    (ground arith, ground arith, inl (ground arith))

select_save_rom_complete :
    (rom_count : ℕ) (candidates : List ℕ) (requested : Option ℕ) (index : ℕ)
    → index < rom_count
    → contains candidates index ≡ true
    → Chosen rom_count requested index
    → select_save_rom rom_count candidates requested ≡ record { status = selected; index = index }
unfolding select_save_rom
select_save_rom_complete rom_count [] requested index lt c (inl e) = unfold contains in cc
select_save_rom_complete rom_count [] requested index lt c (inr e) = unfold contains in cc
select_save_rom_complete rom_count (d ∷ ds) requested index lt c (inl e) =
    let same : suc index - 1 ≡ index = omega arith in
    rw e (ground (arith, ap (contains (d ∷ ds)) same))
select_save_rom_complete rom_count (d ∷ ds) requested index lt c (inr (e, one, z)) =
    rw (e, one, z) (rw (rw z at c))

-- A ROM is selected exactly when it is in range, a supported candidate, and either its one-based
-- number was requested, or none was and it is the only ROM.
pub select_save_rom-selected_iff :
    (rom_count : ℕ) (candidates : List ℕ) (requested : Option ℕ) (index : ℕ)
    → (select_save_rom rom_count candidates requested ≡ record { status = selected; index = index })
      ↔ ((index < rom_count)
          × (contains candidates index ≡ true)
          × Chosen rom_count requested index)
select_save_rom-selected_iff rom_count candidates requested index = (
  select_save_rom_sound rom_count candidates requested index,
  λ (lt, c, why). select_save_rom_complete rom_count candidates requested index lt c why,
)

pub select_save_rom-ne-multiple :
    (rom_count : ℕ) (candidates : List ℕ) (requested : Option ℕ)
    → (select_save_rom rom_count candidates requested).status ≢ multiple_supported_candidates
unfolding select_save_rom
select_save_rom-ne-multiple rom_count candidates none h = ground arith
select_save_rom-ne-multiple rom_count candidates (some n) h = ground arith

-- The span reaches from the start to the nearer of the two bounds, and is 0 behind either.
pub bounded_save_scan_span_lem :
    (start allocation_end evidence_limit : ℕ)
    → bounded_save_scan_span start allocation_end evidence_limit
      ≡ min allocation_end evidence_limit - start
unfolding bounded_save_scan_span
bounded_save_scan_span_lem start allocation_end evidence_limit = ground arith
