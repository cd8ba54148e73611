-- ===== src/CardWipe/Transfers.antt =====
-- The reads of src/card_wipe_workflow.cpp that are tested on what they return.
use ezfadvance_iii.Prelude.{
  ℕ, zero, suc, ◌≡◌, refl, sym, ap, ◌∙◌, Bool, true, false, ◌&&◌, List, [], ◌∷◌, ◌++◌, ◌==◌, length,
  take, get_or, replicate, arith,
}
use mathlib.Core.Bool.{false≢true}
use ezfadvance_iii.Prelude.Text.{same_text, same_text-eq, same_text_refl}
use ezfadvance_iii.Usb.{Answer, Event, World, failed, wrote, received, asked, in_max}
use ezfadvance_iii.Usb.Traces.{expect, Fulfils, Performs}
use ezfadvance_iii.CardWipe.{checking, erase_command, erase_accepted, all_erased}

-- A test that only the wanted bytes pass.
pub record Accepts (test : List ℕ → Bool) (bytes : List ℕ) : Type 0 where
  pub only : (response : List ℕ) → test response ≡ true → response ≡ bytes
  pub these : test bytes ≡ true

module _ (maximum timeout : ℕ) (test : List ℕ → Bool) (bytes : List ℕ)
    (accepts : Accepts test bytes) where
  sound :
      (answers : List Answer) (log : List Event) (w' : World)
      → checking maximum timeout test (record { answers = answers; log = log }) ≡ (true, w')
      → Fulfils (expect timeout maximum bytes ∷ []) answers w'.answers
        × (w'.log ≡ log ++ (asked timeout maximum ∷ []))
  unfolding checking in_max
  sound [] log w' e = absurd (false≢true (ap (λ p. p.0) e))
  sound (failed rc ∷ answers) log w' e = absurd (false≢true (ap (λ p. p.0) e))
  sound (wrote n ∷ answers) log w' e = absurd (false≢true (ap (λ p. p.0) e))
  sound (received got ∷ answers) log w' e = (
    (accepts.only (take maximum got) (ap (λ p. p.0) e), ap (λ p. p.1.answers) e),
    sym (ap (λ p. p.1.log) e),
  )

  complete :
      (answers : List Answer) (log : List Event) (rest : List Answer)
      → Fulfils (expect timeout maximum bytes ∷ []) answers rest
      → checking maximum timeout test (record { answers = answers; log = log })
        ≡ (true, record { answers = rest; log = log ++ (asked timeout maximum ∷ []) })
  unfolding checking in_max
  complete [] log rest e = absurd e
  complete (failed rc ∷ answers) log rest e = absurd e
  complete (wrote n ∷ answers) log rest e = absurd e
  complete (received got ∷ answers) log rest (same, left) = rw (same, accepts.these, left)

  stops :
      (answers : List Answer) (log : List Event) (w' : World)
      → checking maximum timeout test (record { answers = answers; log = log }) ≡ (false, w')
      → w'.log ≡ log ++ (asked timeout maximum ∷ [])
  unfolding checking in_max
  stops [] log w' e = sym (ap (λ p. p.1.log) e)
  stops (failed rc ∷ answers) log w' e = sym (ap (λ p. p.1.log) e)
  stops (wrote n ∷ answers) log w' e = sym (ap (λ p. p.1.log) e)
  stops (received got ∷ answers) log w' e = sym (ap (λ p. p.1.log) e)

  pub checking-Performs :
      Performs (checking maximum timeout test) (expect timeout maximum bytes ∷ [])
  checking-Performs = record {
    sound = λ w w' e. sound w.answers w.log w' e;
    complete = λ w rest e. complete w.answers w.log rest e;
    stops = λ w w' e. (expect timeout maximum bytes ∷ [], [], refl, stops w.answers w.log w' e);
  }

last_split :
    (n : ℕ) (bytes : List ℕ)
    → length bytes ≡ suc n
    → bytes ≡ take n bytes ++ (get_or bytes n 0 ∷ [])
last_split n [] e = absurd (omega arith)
last_split zero (x ∷ []) e = refl
last_split zero (x ∷ y ∷ bytes) e = absurd (omega arith)
last_split (suc n) (x ∷ bytes) e = ap (λ t. x ∷ t) (last_split n bytes (omega arith))

-- A sector's erase is acknowledged by its command and nothing else.
pub erase_accepted-Accepts :
    (address : ℕ) → Accepts (erase_accepted (erase_command address)) (erase_command address)
unfolding erase_accepted
erase_accepted-Accepts address = record {
  only = λ response h.
      let command = erase_command address in
      let front : same_text (take 12 command) (take 12 response) ≡ true = ground arith in
      let long : length response ≡ 13 = ground arith in
      let last : get_or response 12 0 ≡ 0 = ground arith in
      last_split 12 response long
      ∙ rw (last, ← same_text-eq (take 12 command) (take 12 response) front) refl;
  these = let same = same_text_refl (take 12 (erase_command address)) in ground (arith, same);
}

erased_replicate :
    (bytes : List ℕ) → all_erased bytes ≡ true → bytes ≡ replicate (length bytes) 0xFF
unfolding all_erased
erased_replicate [] h = refl
erased_replicate (byte ∷ bytes) h =
    let others = erased_replicate bytes (ground arith) in
    let this : byte ≡ 0xFF = ground arith in rw this (ap (λ t. 0xFF ∷ t) others)

replicate_erased :
    (n : ℕ) → (all_erased (replicate n 0xFF) ≡ true) × (length {A = ℕ} (replicate n 0xFF) ≡ n)
unfolding all_erased
replicate_erased zero = (refl, refl)
replicate_erased (suc n) = let (e, l) = replicate_erased n in ground (arith, e, l)

-- Only erased bytes, all of them, pass as a blank region.
pub blank-Accepts :
    (n : ℕ) → Accepts (λ result. (length result == n) && all_erased result) (replicate n 0xFF)
blank-Accepts n = record {
  only = λ response h.
      let long : length response ≡ n = ground arith in
      let erased : all_erased response ≡ true = ground arith in
      erased_replicate response erased ∙ ap (λ k. replicate k 0xFF) long;
  these = let (e, l) = replicate_erased n in ground (arith, e, l);
}
