-- ===== src/Usb/Transfers.antt =====
-- The transfers of the bulk transport as scripts of one step.
use ezfadvance_iii.Prelude.{
  ℕ, ◌≡◌, refl, sym, ap, true, false, List, [], ◌∷◌, ◌++◌, map, ◌==◌, length, take, arith,
  if◌then◌else◌, Bool-cases, inl, inr,
}
use ezfadvance_iii.Prelude.Text.{same_text-eq, same_text_refl}
use ezfadvance_iii.Usb.{
  Answer, Event, World, Action, failed, wrote, received, sent, asked, bulk_out, in_max, wait,
  wait_unless_zero, read_and_compare,
}
use ezfadvance_iii.Usb.Traces.{Step, put, expect, pause, event_of, Fulfils, Performs, Performs-done}
use mathlib.Core.Bool.{false≢true, true≢false}

-- The steps of `wait_unless_zero`.
abbrev pub pauses : ℕ → List Step
pauses us = if us == 0 then [] else (pause us ∷ [])

pub wait-Performs : (us : ℕ) → Performs (wait us) (pause us ∷ [])
wait-Performs us = record {
  sound = λ w w' e. (ap (λ p. p.1.answers) e, sym (ap (λ p. p.1.log) e));
  complete = λ w rest e. rw (← e) refl;
  stops = λ w w' e. absurd (true≢false (ap (λ p. p.0) e));
}

pub wait_unless_zero-Performs : (us : ℕ) → Performs (wait_unless_zero us) (pauses us)
wait_unless_zero-Performs us = elim (Bool-cases (us == 0)) [
  | inl z ↦ rw z Performs-done
  | inr n ↦ rw n (wait-Performs us)
]

pub bulk_out-Performs :
    (bytes : List ℕ) (timeout : ℕ) → Performs (bulk_out bytes timeout) (put timeout bytes ∷ [])
unfolding bulk_out
bulk_out-Performs bytes timeout = record {
  sound = λ w w' e. sound w.answers w.log w' e;
  complete = λ w rest e. complete w.answers w.log rest e;
  stops = λ w w' e. stops w.answers w.log w' e;
}
  where
    sound :
        (answers : List Answer) (log : List Event) (w' : World)
        → bulk_out bytes timeout (record { answers = answers; log = log }) ≡ (true, w')
        → Fulfils (put timeout bytes ∷ []) answers w'.answers
          × (w'.log ≡ log ++ (sent timeout bytes ∷ []))
    sound [] log w' e = absurd (false≢true (ap (λ p. p.0) e))
    sound (failed rc ∷ answers) log w' e = absurd (false≢true (ap (λ p. p.0) e))
    sound (received got ∷ answers) log w' e = absurd (false≢true (ap (λ p. p.0) e))
    sound (wrote n ∷ answers) log w' e =
        ((ground (arith, ap (λ p. p.0) e), ap (λ p. p.1.answers) e), sym (ap (λ p. p.1.log) e))

    complete :
        (answers : List Answer) (log : List Event) (rest : List Answer)
        → Fulfils (put timeout bytes ∷ []) answers rest
        → bulk_out bytes timeout (record { answers = answers; log = log })
          ≡ (true, record { answers = rest; log = log ++ (sent timeout bytes ∷ []) })
    complete [] log rest e = absurd e
    complete (failed rc ∷ answers) log rest e = absurd e
    complete (received got ∷ answers) log rest e = absurd e
    complete (wrote n ∷ answers) log rest (same, left) =
        let test : (n == length bytes) ≡ true = ground arith in rw (test, left)

    stops :
        (answers : List Answer) (log : List Event) (w' : World)
        → bulk_out bytes timeout (record { answers = answers; log = log }) ≡ (false, w')
        → (front back : List Step) × (put timeout bytes ∷ [] ≡ front ++ back)
          × (w'.log ≡ log ++ map event_of front)
    stops [] log w' e = (put timeout bytes ∷ [], [], refl, sym (ap (λ p. p.1.log) e))
    stops (failed rc ∷ answers) log w' e =
        (put timeout bytes ∷ [], [], refl, sym (ap (λ p. p.1.log) e))
    stops (received got ∷ answers) log w' e =
        (put timeout bytes ∷ [], [], refl, sym (ap (λ p. p.1.log) e))
    stops (wrote n ∷ answers) log w' e =
        (put timeout bytes ∷ [], [], refl, sym (ap (λ p. p.1.log) e))

module _ (timeout maximum : ℕ) (bytes : List ℕ) where
  abbrev reading : Action
  reading = read_and_compare timeout maximum bytes

  read_sound :
      (answers : List Answer) (log : List Event) (w' : World)
      → reading (record { answers = answers; log = log }) ≡ (true, w')
      → Fulfils (expect timeout maximum bytes ∷ []) answers w'.answers
        × (w'.log ≡ log ++ (asked timeout maximum ∷ []))
  unfolding in_max
  read_sound [] log w' e = absurd (false≢true (ap (λ p. p.0) e))
  read_sound (failed rc ∷ answers) log w' e = absurd (false≢true (ap (λ p. p.0) e))
  read_sound (wrote n ∷ answers) log w' e = absurd (false≢true (ap (λ p. p.0) e))
  read_sound (received got ∷ answers) log w' e = (
    (same_text-eq (take maximum got) bytes (ap (λ p. p.0) e), ap (λ p. p.1.answers) e),
    sym (ap (λ p. p.1.log) e),
  )

  read_complete :
      (answers : List Answer) (log : List Event) (rest : List Answer)
      → Fulfils (expect timeout maximum bytes ∷ []) answers rest
      → reading (record { answers = answers; log = log })
        ≡ (true, record { answers = rest; log = log ++ (asked timeout maximum ∷ []) })
  unfolding in_max
  read_complete [] log rest e = absurd e
  read_complete (failed rc ∷ answers) log rest e = absurd e
  read_complete (wrote n ∷ answers) log rest e = absurd e
  read_complete (received got ∷ answers) log rest (same, left) =
      rw (same, same_text_refl bytes, left)

  read_stops :
      (answers : List Answer) (log : List Event) (w' : World)
      → reading (record { answers = answers; log = log }) ≡ (false, w')
      → w'.log ≡ log ++ (asked timeout maximum ∷ [])
  unfolding in_max
  read_stops [] log w' e = sym (ap (λ p. p.1.log) e)
  read_stops (failed rc ∷ answers) log w' e = sym (ap (λ p. p.1.log) e)
  read_stops (wrote n ∷ answers) log w' e = sym (ap (λ p. p.1.log) e)
  read_stops (received got ∷ answers) log w' e = sym (ap (λ p. p.1.log) e)

  pub reading-Performs : Performs reading (expect timeout maximum bytes ∷ [])
  reading-Performs = record {
    sound = λ w w' e. read_sound w.answers w.log w' e;
    complete = λ w rest e. read_complete w.answers w.log rest e;
    stops =
        λ w w' e. (expect timeout maximum bytes ∷ [], [], refl, read_stops w.answers w.log w' e);
  }
