-- ===== src/SaveMemory/Bank.antt =====
-- The read of one save bank in src/save_memory_reader.cpp.
use ezfadvance_iii.Prelude.{
  ℕ, ◌+◌, ◌≡◌, refl, sym, ap, ◌∙◌, Bool, true, false, Option, none, some, List, [], ◌∷◌, ◌++◌, map,
  ◌==◌, length, arith,
}
use mathlib.Core.List.{append_assoc, map-append}
use ezfadvance_iii.Usb.{
  Answer, Event, World, failed, wrote, received, asked, ◌&&&◌, bulk_out, in_max, in_exact,
}
use ezfadvance_iii.Usb.Traces.{
  Step, put, expect, event_of, Fulfils, Fulfils-append, Fulfils-split, Performs, &&&-Performs,
}
use ezfadvance_iii.Usb.Transfers.{bulk_out-Performs}
use ezfadvance_iii.SaveMemory.{
  timeout_ms, bank_bytes, select_bank, read_command, read_after, read_bank,
}
use ezfadvance_iii.SaveMemory.Scripts.{selector_script, select_bank-Performs}

-- The read of one bank that returns `bytes`.
abbrev pub read_bank_script : ℕ → List ℕ → List Step
read_bank_script bank_value bytes =
    (selector_script bank_value ++ (put timeout_ms read_command ∷ []))
    ++ (expect timeout_ms bank_bytes bytes ∷ [])

-- Consecutive banks, 0x10 apart, that return these chunks.
abbrev pub read_script : ℕ → List (List ℕ) → List Step
read_script bank_value [] = []
read_script bank_value (chunk ∷ chunks) =
    read_bank_script bank_value chunk ++ read_script (bank_value + 0x10) chunks

abbrev pub joined : List (List ℕ) → List ℕ
joined [] = []
joined (chunk ∷ chunks) = chunk ++ joined chunks

abbrev pub IsBank : List ℕ → Type 0
IsBank chunk = length chunk ≡ bank_bytes

in_exact_sound :
    (n t : ℕ) (answers : List Answer) (log : List Event) (bytes : List ℕ) (w' : World)
    → in_exact n t (record { answers = answers; log = log }) ≡ (some bytes, w')
    → (length bytes ≡ n)
      × Fulfils (expect t n bytes ∷ []) answers w'.answers
      × (w'.log ≡ log ++ (asked t n ∷ []))
unfolding in_exact in_max
in_exact_sound n t [] log bytes w' e = absurd (let f = ap (λ p. p.0) e in cc)
in_exact_sound n t (failed rc ∷ answers) log bytes w' e = absurd (let f = ap (λ p. p.0) e in cc)
in_exact_sound n t (wrote k ∷ answers) log bytes w' e = absurd (let f = ap (λ p. p.0) e in cc)
in_exact_sound n t (received got ∷ answers) log bytes w' e =
    let f = ap (λ p. p.0) e in
    (ground arith, (ground arith, ap (λ p. p.1.answers) e), sym (ap (λ p. p.1.log) e))

pub in_exact_complete :
    (n t : ℕ) (answers : List Answer) (log : List Event) (bytes : List ℕ) (rest : List Answer)
    → length bytes ≡ n
    → Fulfils (expect t n bytes ∷ []) answers rest
    → in_exact n t (record { answers = answers; log = log })
      ≡ (some bytes, record { answers = rest; log = log ++ (asked t n ∷ []) })
unfolding in_exact in_max
in_exact_complete n t [] log bytes rest l h = absurd h
in_exact_complete n t (failed rc ∷ answers) log bytes rest l h = absurd h
in_exact_complete n t (wrote k ∷ answers) log bytes rest l h = absurd h
in_exact_complete n t (received got ∷ answers) log bytes rest l (same, left) =
    let test : (length bytes == n) ≡ true = ground arith in rw (same, test, left)

select_and_ask :
    (bank_value : ℕ)
    → Performs
        (select_bank bank_value &&& bulk_out read_command timeout_ms)
        (selector_script bank_value ++ (put timeout_ms read_command ∷ []))
select_and_ask bank_value =
    &&&-Performs (select_bank-Performs bank_value) (bulk_out-Performs read_command timeout_ms)

bank_log :
    (bank_value : ℕ) (bytes : List ℕ)
    → map event_of (selector_script bank_value ++ (put timeout_ms read_command ∷ []))
        ++ (asked timeout_ms bank_bytes ∷ [])
      ≡ map event_of (read_bank_script bank_value bytes)
bank_log bank_value bytes = sym (
    map-append event_of (selector_script bank_value ++ (put timeout_ms read_command ∷ []))
      (expect timeout_ms bank_bytes bytes ∷ []))

pub read_bank_sound :
    (bank_value : ℕ) (w w' : World) (bytes : List ℕ)
    → read_bank bank_value w ≡ (some bytes, w')
    → IsBank bytes
      × Fulfils (read_bank_script bank_value bytes) w.answers w'.answers
      × (w'.log ≡ w.log ++ map event_of (read_bank_script bank_value bytes))
unfolding read_bank
read_bank_sound bank_value w w' bytes e =
    go ((select_bank bank_value &&& bulk_out read_command timeout_ms) w) refl (e)
  where
    go :
        (r : Bool × World)
        → (select_bank bank_value &&& bulk_out read_command timeout_ms) w ≡ r
        → read_after ((select_bank bank_value &&& bulk_out read_command timeout_ms) w)
          ≡ (some bytes, w')
        → IsBank bytes
          × Fulfils (read_bank_script bank_value bytes) w.answers w'.answers
          × (w'.log ≡ w.log ++ map event_of (read_bank_script bank_value bytes))
    go (false, u) f g =
        let h : ◌≡◌ {A = Option (List ℕ) × World} (none, u) (some bytes, w') = rw f at g in
        absurd (let k = ap (λ p. p.0) h in cc)
    go (true, u) f g =
        let h : in_exact bank_bytes timeout_ms u ≡ (some bytes, w') = rw f at g in
        let (x, l) = (select_and_ask bank_value).sound w u f in
        let (n, y, m) = in_exact_sound bank_bytes timeout_ms u.answers u.log bytes w' h in
        (
          n,
          Fulfils-append (selector_script bank_value ++ (put timeout_ms read_command ∷ []))
              (expect timeout_ms bank_bytes bytes ∷ []) w.answers u.answers w'.answers x y,
          rw (m, l, append_assoc, ap (λ t. w.log ++ t) (bank_log bank_value bytes)) refl,
        )

pub read_bank_complete :
    (bank_value : ℕ) (w : World) (bytes : List ℕ) (rest : List Answer)
    → IsBank bytes
    → Fulfils (read_bank_script bank_value bytes) w.answers rest
    → read_bank bank_value w ≡ (
      some bytes,
      record { answers = rest; log = w.log ++ map event_of (read_bank_script bank_value bytes) },
    )
unfolding read_bank
read_bank_complete bank_value w bytes rest n h =
    let ask = selector_script bank_value ++ (put timeout_ms read_command ∷ []) in
    let (mid, x, y) =
      Fulfils-split ask (expect timeout_ms bank_bytes bytes ∷ []) w.answers rest h in
    rw ((select_and_ask bank_value).complete w mid x) (
      in_exact_complete bank_bytes timeout_ms mid (w.log ++ map event_of ask) bytes rest n y
      ∙ rw append_assoc (
          ap (λ t. (some bytes, record { answers = rest; log = w.log ++ t }))
            (bank_log bank_value bytes)))
