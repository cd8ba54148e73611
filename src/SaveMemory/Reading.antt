-- ===== src/SaveMemory/Reading.antt =====
-- What a save read of src/save_memory_reader.cpp returns.
use ezfadvance_iii.Prelude.{
  ℕ, zero, suc, ◌+◌, ◌*◌, ◌/◌, ◌%◌, ◌≤◌, ◌<◌, ◌≡◌, inl, inr, refl, sym, ap, ◌∙◌, true, false, ◌||◌,
  Option, none, some, List, [], ◌∷◌, ◌++◌, map, ltb, ◌==◌, ◌!=◌, length, length-append, All, arith,
  Bool-cases,
}
use mathlib.Core.Path.{subst}
use mathlib.Core.List.{append-nil, append_assoc, map-append}
use ezfadvance_iii.Prelude.Bytes.{u16}
use ezfadvance_iii.Prelude.Result.{Result, ok, err}
use ezfadvance_iii.Usb.{Answer, World}
use ezfadvance_iii.Usb.Traces.{event_of, Fulfils, Fulfils-append, Fulfils-split}
use ezfadvance_iii.SaveMemory.{bank_bytes, read_bank, read_banks, of_length, read}
use ezfadvance_iii.SaveMemory.Bank.{
  read_bank_script, read_script, joined, IsBank, read_bank_sound, read_bank_complete,
}

-- What a successful read of `banks` consecutive banks has done: `save` holds what the banks
-- returned, in order, behind what was read before.
pub record HasRead (banks bank_value : ℕ) (before save : List ℕ) (w w' : World) : Type 0 where
  pub chunks : List (List ℕ)
  pub one_each : length chunks ≡ banks
  pub whole : All IsBank chunks
  pub in_order : save ≡ before ++ joined chunks
  pub answered : Fulfils (read_script bank_value chunks) w.answers w'.answers
  pub logged : w'.log ≡ w.log ++ map event_of (read_script bank_value chunks)

one_bank :
    (left index first_bank : ℕ) (before bytes save : List ℕ) (w u w' : World)
    → first_bank + index * 0x10 < 65536
    → read_bank (u16 (first_bank + index * 0x10)) w ≡ (some bytes, u)
    → HasRead left (first_bank + (index + 1) * 0x10) (before ++ bytes) save u w'
    → HasRead (suc left) (first_bank + index * 0x10) before save w w'
one_bank left index first_bank before bytes save w u w' word e others =
    let start = first_bank + index * 0x10 in
    let plain : u16 start ≡ start = omega arith in
    let next : first_bank + (index + 1) * 0x10 ≡ start + 0x10 = omega arith in
    let (n, x, l) =
      read_bank_sound start w u bytes (subst (λ b. read_bank b w ≡ (some bytes, u)) plain e) in
    record {
      chunks = bytes ∷ others.chunks;
      one_each = ap suc others.one_each;
      whole = (n, others.whole);
      in_order = others.in_order ∙ append_assoc before bytes (joined others.chunks);
      answered =
          Fulfils-append (read_bank_script start bytes) (read_script (start + 0x10) others.chunks)
            w.answers u.answers w'.answers x
            (subst (λ b. Fulfils (read_script b others.chunks) u.answers w'.answers) next
              others.answered);
      logged =
          others.logged
          ∙ ap (λ b. u.log ++ map event_of (read_script b others.chunks)) next
          ∙ ap (λ t. t ++ map event_of (read_script (start + 0x10) others.chunks)) l
          ∙ append_assoc w.log (map event_of (read_bank_script start bytes))
              (map event_of (read_script (start + 0x10) others.chunks))
          ∙ ap (λ t. w.log ++ t)
              (sym (
                map-append event_of (read_bank_script start bytes)
                  (read_script (start + 0x10) others.chunks)));
    }

read_banks_sound :
    (left index first_bank : ℕ) (before : List ℕ) (w w' : World) (save : List ℕ)
    → first_bank + (index + left) * 0x10 < 65536
    → read_banks left index first_bank before w ≡ (some save, w')
    → HasRead left (first_bank + index * 0x10) before save w w'
unfolding read_banks
read_banks_sound zero index first_bank before w w' save word e =
    let same : some before ≡ some save = ap (λ p. p.0) e in
    record {
      chunks = [];
      one_each = refl;
      whole = tt;
      in_order = rw append-nil (ground (arith, same));
      answered = ap (λ p. p.1.answers) e;
      logged = rw append-nil (sym (ap (λ p. p.1.log) e));
    }
read_banks_sound (suc left) index first_bank before w w' save word e =
    go (read_bank (u16 (first_bank + index * 0x10)) w) refl (λ bytes u.
      read_banks_sound left (index + 1) first_bank (before ++ bytes) u w' save (omega arith))
  where
    go :
        (r : Option (List ℕ) × World)
        → read_bank (u16 (first_bank + index * 0x10)) w ≡ r
        → ((bytes : List ℕ) (u : World)
            → read_banks left (index + 1) first_bank (before ++ bytes) u ≡ (some save, w')
            → HasRead left (first_bank + (index + 1) * 0x10) (before ++ bytes) save u w')
        → HasRead (suc left) (first_bank + index * 0x10) before save w w'
    go (none, u) f others =
        let h = rw (f, read_banks) at e in absurd (let k = ap (λ p. p.0) h in cc)
    go (some bytes, u) f others =
        one_bank left index first_bank before bytes save w u w' (omega arith) f (
          let h = rw (f, read_banks) at e in
          others bytes u (
            subst
              (λ x. read_banks left (index + 1) first_bank (before ++ bytes) x ≡ (some save, w'))
              (ap (λ p. p.1) f) h))

length-joined :
    (chunks : List (List ℕ))
    → All IsBank chunks
    → length (joined chunks) ≡ length chunks * bank_bytes
length-joined [] whole = refl
length-joined (chunk ∷ chunks) (n, whole) =
    omega (arith, length-joined chunks whole, n, length-append chunk (joined chunks))

unfoldable from_ok : {E A : Type 0} → A → Result E A → A
from_ok default (ok a) = a
from_ok default (err e) = default

of_length-some :
    (size : ℕ) (r : Option (List ℕ) × World) (save : List ℕ) (w' : World)
    → of_length size r ≡ (some save, w')
    → (r ≡ (some save, w')) × (length save ≡ size)
of_length-some size (none, u) save w' e = absurd (let k = ap (λ p. p.0) e in cc)
of_length-some size (some got, u) save w' e = elim (Bool-cases (length got == size)) [
  | inl yes_ ↦
      let h : ◌≡◌ {A = Option (List ℕ) × World} (some got, u) (some save, w') = rw yes_ at e in
      let k = ap (λ p. p.0) h in (h, ground arith)
  | inr no_ ↦
      let h : ◌≡◌ {A = Option (List ℕ) × World} (none, u) (some save, w') = rw no_ at e in
      absurd (let k = ap (λ p. p.0) h in cc)
]

-- A read of one to four whole banks that returns a save has asked consecutive selectors, from the
-- first on, for 32 KiB each, and the save is what they returned, in order, of the size asked for.
pub read_sound :
    (banks first_bank : ℕ) (w w' : World) (save : List ℕ)
    → 1 ≤ banks
    → banks ≤ 4
    → first_bank + banks * 0x10 < 65536
    → read (banks * bank_bytes) first_bank w ≡ ok (some save, w')
    → HasRead banks first_bank [] save w w' × (length save ≡ banks * bank_bytes)
unfolding read from_ok
read_sound banks first_bank w w' save some_bank few word e =
    let size = banks * bank_bytes in
    let test : (size == 0 || ltb (4 * bank_bytes) size || (size % bank_bytes != 0)) ≡ false =
      ground arith in
    let count : size / bank_bytes ≡ banks = omega arith in
    let h = rw (test, count) at e in
    let (f, n) =
      of_length-some size (read_banks banks 0 first_bank [] w) save w' (ap (from_ok (none, w)) h) in
    let start : first_bank + 0 * 0x10 ≡ first_bank = omega arith in
    (
      subst (λ b. HasRead banks b [] save w w') start
          (read_banks_sound banks 0 first_bank [] w w' save (omega arith) f),
      n,
    )

read_banks_complete :
    (chunks : List (List ℕ)) (index first_bank : ℕ) (before : List ℕ) (w : World)
    (rest : List Answer)
    → All IsBank chunks
    → first_bank + (index + length chunks) * 0x10 < 65536
    → Fulfils (read_script (first_bank + index * 0x10) chunks) w.answers rest
    → read_banks (length chunks) index first_bank before w ≡ (
      some (before ++ joined chunks),
      record {
        answers = rest;
        log = w.log ++ map event_of (read_script (first_bank + index * 0x10) chunks);
      },
    )
unfolding read_banks
read_banks_complete [] index first_bank before w rest whole word h =
    rw (append-nil, append-nil, ← h) refl
read_banks_complete (chunk ∷ chunks) index first_bank before w rest (n, whole) word h =
    let start = first_bank + index * 0x10 in
    let plain : start ≡ u16 start = omega arith in
    let next : start + 0x10 ≡ first_bank + (index + 1) * 0x10 = omega arith in
    let (mid, x, y) =
      Fulfils-split (read_bank_script start chunk) (read_script (start + 0x10) chunks) w.answers
        rest h in
    let u : World = record {
      answers = mid;
      log = w.log ++ map event_of (read_bank_script start chunk);
    } in
    let this : read_bank (u16 start) w ≡ (some chunk, u) =
      subst (λ b. read_bank b w ≡ (some chunk, u)) plain
        (read_bank_complete start w chunk mid n x) in
    let others =
      read_banks_complete chunks (index + 1) first_bank (before ++ chunk) u rest whole (omega arith)
        (subst (λ b. Fulfils (read_script b chunks) mid rest) next y) in
    rw (this, read_banks)
      (ap (λ v. read_banks (length chunks) (index + 1) first_bank (before ++ chunk) v)
          (ap (λ p. p.1) this)
        ∙ others
        ∙ ap
            (λ b. (
              some ((before ++ chunk) ++ joined chunks),
              record { answers = rest; log = u.log ++ map event_of (read_script b chunks) },
            ))
            (sym next)
        ∙ rw (append_assoc, append_assoc)
            (ap
              (λ t. (
                some (before ++ (chunk ++ joined chunks)),
                record { answers = rest; log = w.log ++ t },
              ))
              (sym (
                map-append event_of (read_bank_script start chunk)
                  (read_script (start + 0x10) chunks)))))

-- Where the device answers the script of one to four whole banks from a selector on, a read of so
-- many bytes returns what the banks hold, in order, and has done exactly that script.
pub read_complete :
    (chunks : List (List ℕ)) (first_bank : ℕ) (w : World) (rest : List Answer)
    → 1 ≤ length chunks
    → length chunks ≤ 4
    → All IsBank chunks
    → first_bank + length chunks * 0x10 < 65536
    → Fulfils (read_script first_bank chunks) w.answers rest
    → read (length chunks * bank_bytes) first_bank w
      ≡ ok (
        some (joined chunks),
        record { answers = rest; log = w.log ++ map event_of (read_script first_bank chunks) },
      )
unfolding read
read_complete chunks first_bank w rest some_bank few whole word h =
    let size = length chunks * bank_bytes in
    let test : (size == 0 || ltb (4 * bank_bytes) size || (size % bank_bytes != 0)) ≡ false =
      ground arith in
    let count : size / bank_bytes ≡ length chunks = omega arith in
    let start : first_bank ≡ first_bank + 0 * 0x10 = omega arith in
    let all : (length (joined chunks) == size) ≡ true =
      let n = length-joined chunks whole in ground (arith, n) in
    let back : first_bank + 0 * 0x10 ≡ first_bank = omega arith in
    rw (test, count)
      (ap (λ r. ok (of_length size r))
          (read_banks_complete chunks 0 first_bank [] w rest whole (omega arith)
            (subst (λ b. Fulfils (read_script b chunks) w.answers rest) start h))
        ∙ rw all (
            ap
              (λ b. ok (
                some (joined chunks),
                record { answers = rest; log = w.log ++ map event_of (read_script b chunks) },
              ))
              back))
