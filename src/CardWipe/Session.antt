-- ===== src/CardWipe/Session.antt =====
-- The end of the readiness transition in src/read_session_transition.cpp.
use ezfadvance_iii.Prelude.{
  ℕ, ◌≡◌, refl, sym, ◌∙◌, Bool, true, false, Option, none, some, List, [], ◌∷◌, ◌++◌, ◌==◌, length,
  if◌then◌else◌, arith, Bool-cases, inl, inr,
}
use ezfadvance_iii.Usb.{World, Action, ◌&&&◌, bulk_out, in_max, in_exact, of_size}
use ezfadvance_iii.Usb.Traces.{Step, put, expect, pause, Performs, &&&-Performs}
use ezfadvance_iii.Usb.Transfers.{bulk_out-Performs, wait-Performs}
use ezfadvance_iii.CardWipe.{
  command98, only_byte, is_one, session_poll, session_timeout_ms, poll_ready,
  finish_readiness_transition, checking, tested,
}
use ezfadvance_iii.CardWipe.Transfers.{Accepts, checking-Performs}

-- A reply of one byte, 1.
abbrev ready_reply : List ℕ → Bool
ready_reply response = is_one (only_byte (if length response == 1 then some response else none))

abbrev checked_poll : Action
checked_poll = bulk_out command98 15000 &&& checking 1 15000 ready_reply

poll_ready_checked : (w : World) → poll_ready w ≡ checked_poll w
unfolding poll_ready session_poll session_timeout_ms checking tested in_exact is_one only_byte
poll_ready_checked w = go (bulk_out command98 15000 w)
  where
    reply :
        (r : Option (List ℕ) × World)
        → ◌≡◌ {A = Bool × World}
            (is_one (only_byte (of_size 1 r.0)), r.1)
            (tested ready_reply r.0, r.1)
    reply (none, u) = refl
    reply (some response, u) = refl

    go :
        (r : Bool × World)
        → ◌≡◌ {A = Bool × World}
            (let answer : Option ℕ × World =
                if r.0
                then (only_byte (in_exact 1 15000 r.1).0, (in_exact 1 15000 r.1).1)
                else (none, r.1) in
              (is_one answer.0, answer.1))
            (if r.0 then checking 1 15000 ready_reply r.1 else (false, r.1))
    go (false, u) = refl
    go (true, u) = reply (in_max 1 15000 u)

ready_reply-Accepts : Accepts ready_reply (1 ∷ [])
unfolding only_byte is_one
ready_reply-Accepts = record { only = only; these = refl }
  where
    only : (response : List ℕ) → ready_reply response ≡ true → response ≡ 1 ∷ []
    only [] h = absurd (let k = h in cc)
    only (x ∷ []) h = let z : x ≡ 1 = ground arith in rw z refl
    only (x ∷ y ∷ response) h = elim (Bool-cases (length (x ∷ y ∷ response) == 1)) [
      | inl yes_ ↦ absurd (ground arith)
      | inr no_ ↦ let k : false ≡ true = rw no_ at h in absurd (let l = k in cc)
    ]

-- A poll that wants the cartridge ready.
abbrev pub session_poll_script : List Step
session_poll_script = put 15000 command98 ∷ expect 15000 1 (1 ∷ []) ∷ []

poll_ready-Performs : Performs poll_ready session_poll_script
poll_ready-Performs =
    let p =
      &&&-Performs (bulk_out-Performs command98 15000)
        (checking-Performs 1 15000 ready_reply (1 ∷ []) ready_reply-Accepts) in
    record {
      sound = λ w w' e. p.sound w w' (sym (poll_ready_checked w) ∙ e);
      complete = λ w rest e. poll_ready_checked w ∙ p.complete w rest e;
      stops = λ w w' e. p.stops w w' (sym (poll_ready_checked w) ∙ e);
    }

-- The readiness transition succeeds exactly when three polls in a row read the byte 1, and then it
-- has sent these three commands and waited one second.
pub finish_readiness_transition-Performs :
    Performs finish_readiness_transition (
      session_poll_script ++ (session_poll_script ++ (session_poll_script ++ (pause 1000000 ∷ []))))
unfolding finish_readiness_transition
finish_readiness_transition-Performs =
    &&&-Performs poll_ready-Performs
      (&&&-Performs poll_ready-Performs (&&&-Performs poll_ready-Performs (wait-Performs 1000000)))
