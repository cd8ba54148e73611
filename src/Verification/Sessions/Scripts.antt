-- ===== src/Verification/Sessions/Scripts.antt =====
-- What every way of src/verification_session.cpp sends before its reads.
use ezfadvance_iii.Prelude.{ℕ, ◌≡◌, refl, sym, ap, ◌∙◌, List, [], ◌∷◌, ◌++◌, map}
use mathlib.Core.List.{append_assoc, map-append}
use ezfadvance_iii.Usb.{Action, Answer, Event, ◌&&&◌}
use ezfadvance_iii.Usb.Traces.{
  Step, pause, event_of, Fulfils, Fulfils-split, Performs, &&&-Performs,
}
use ezfadvance_iii.Usb.Transfers.{wait-Performs}
use ezfadvance_iii.Protocol.{default_options, tx92_two}
use ezfadvance_iii.Protocol.Scripts.{two, one, tx92_two-Performs, tx92_one-Performs}
use ezfadvance_iii.Verification.Sessions.{
  status_tail, read_prefix, mapping_transition, selector_tail,
}

abbrev pub two_bytes : ℕ → ℕ → List Step
two_bytes first second = two default_options first second

abbrev pub one_byte : ℕ → ℕ → List Step
one_byte selector value = one default_options selector value

abbrev pub status_script : List Step
status_script =
    two_bytes 0xFF 0xFF ++ (one_byte 0x01 0x04 ++ (one_byte 0x00 0x00 ++ one_byte 0x00 0x00))

abbrev pub prefix_script : List Step
prefix_script =
    two_bytes 0x55 0xAA ++ (two_bytes 0x00 0x00 ++ (two_bytes 0x00 0x00 ++ two_bytes 0x00 0x00))

abbrev pub transition_script : ℕ → ℕ → ℕ → List Step
transition_script mode high last =
    two_bytes 0x55 0xAA
    ++ (two_bytes mode 0x00
        ++ (two_bytes 0x00 high
            ++ (two_bytes last 0x00
                ++ ((pause 125000 ∷ [])
                    ++ (two_bytes 0xAA 0x55
                        ++ (two_bytes 0x00 0x00
                            ++ (two_bytes 0x00 0x00 ++ two_bytes 0x00 0x00)))))))

abbrev pub selector_script : List Step
selector_script = one_byte 0x00 0xAA ++ (one_byte 0x00 0x55 ++ one_byte 0x01 0x06)

pub status_tail-Performs : Performs status_tail status_script
unfolding status_tail
status_tail-Performs = &&&-Performs (tx92_two-Performs default_options 0xFF 0xFF) (
    &&&-Performs (tx92_one-Performs default_options 0x01 0x04) (
      &&&-Performs (tx92_one-Performs default_options 0x00 0x00)
        (tx92_one-Performs default_options 0x00 0x00)))

zeros-Performs :
    Performs
      (tx92_two default_options 0x00 0x00 &&& tx92_two default_options 0x00 0x00)
      (two_bytes 0x00 0x00 ++ two_bytes 0x00 0x00)
zeros-Performs =
    &&&-Performs (tx92_two-Performs default_options 0x00 0x00)
      (tx92_two-Performs default_options 0x00 0x00)

pub read_prefix-Performs : Performs read_prefix prefix_script
unfolding read_prefix
read_prefix-Performs =
    &&&-Performs (tx92_two-Performs default_options 0x55 0xAA)
      (&&&-Performs (tx92_two-Performs default_options 0x00 0x00) zeros-Performs)

pub mapping_transition-Performs :
    (mode high last : ℕ)
    → Performs (mapping_transition mode high last) (transition_script mode high last)
unfolding mapping_transition
mapping_transition-Performs mode high last =
    &&&-Performs (tx92_two-Performs default_options 0x55 0xAA) (
      &&&-Performs (tx92_two-Performs default_options mode 0x00) (
        &&&-Performs (tx92_two-Performs default_options 0x00 high) (
          &&&-Performs (tx92_two-Performs default_options last 0x00) (
            &&&-Performs (wait-Performs 125000) (
              &&&-Performs (tx92_two-Performs default_options 0xAA 0x55)
                (&&&-Performs (tx92_two-Performs default_options 0x00 0x00) zeros-Performs))))))

pub selector_tail-Performs : Performs selector_tail selector_script
unfolding selector_tail
selector_tail-Performs = &&&-Performs (tx92_one-Performs default_options 0x00 0xAA) (
    &&&-Performs (tx92_one-Performs default_options 0x00 0x55)
      (tx92_one-Performs default_options 0x01 0x06))

-- Behind the script the action is the rest.
pub record Leads (act : Action) (steps : List Step) (rest : Action) : Type 0 where
  pub leads :
      (answers mid : List Answer) (log : List Event)
      → Fulfils steps answers mid
      → act (record { answers = answers; log = log })
        ≡ rest (record { answers = mid; log = log ++ map event_of steps })

pub Leads-last : (b : Action) {a : Action} {s : List Step} → Performs a s → Leads (a &&& b) s b
Leads-last b {a} {s} p = record {
  leads = λ answers mid log h. rw (p.complete (record { answers = answers; log = log }) mid h) refl;
}

pub Leads-next :
    {a b c : Action} {s t : List Step} → Performs a s → Leads b t c → Leads (a &&& b) (s ++ t) c
Leads-next {a} {b} {c} {s} {t} p q = record {
  leads = λ answers mid log h.
      let (between, f, g) = Fulfils-split s t answers mid h in
      rw (p.complete (record { answers = answers; log = log }) between f) (
        q.leads between mid (log ++ map event_of s) g
        ∙ ap (λ l. c (record { answers = mid; log = l }))
            (append_assoc log (map event_of s) (map event_of t)
              ∙ ap (λ l. log ++ l) (sym (map-append event_of s t))));
}
