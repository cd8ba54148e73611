-- ===== src/CardWipe/Polls.antt =====
-- The readiness polls of src/card_wipe_workflow.cpp.
use ezfadvance_iii.Prelude.{
  ℕ, zero, suc, ◌<◌, ◌≡◌, refl, sym, ap, ◌∙◌, Bool, true, false, Option, none, some, List, [], ◌∷◌,
  ◌++◌, map, ◌==◌, ◌!=◌, if◌then◌else◌, arith, Bool-cases, inl, inr,
}
use mathlib.Core.Path.{subst}
use mathlib.Core.List.{append_assoc}
use ezfadvance_iii.Usb.{
  Answer, Event, World, failed, wrote, received, sent, asked, waited, bulk_out, in_max, wait,
}
use ezfadvance_iii.Usb.Traces.{
  Step, put, expect, pause, event_of, Fulfils, Fulfils-append, Fulfils-split,
}
use ezfadvance_iii.Usb.Transfers.{bulk_out-Performs}
use ezfadvance_iii.CardWipe.{wipe_timeout_ms, command98, only_byte, wipe_poll, next_poll, polls}

-- One poll that reads this byte.
abbrev pub ask_script : ℕ → List Step
ask_script byte = put wipe_timeout_ms command98 ∷ expect wipe_timeout_ms 1 (byte ∷ []) ∷ []

-- Polls that read 0, 100 ms apart, and then one that reads 1.
abbrev pub ready_script : ℕ → List Step
ready_script zero = ask_script 1
ready_script (suc k) = ask_script 0 ++ (pause 100000 ∷ ready_script k)

reply_sound :
    (answers : List Answer) (log : List Event) (w' : World) (byte : ℕ)
    → ◌≡◌ {A = Option ℕ × World}
        (
          only_byte (in_max 1 wipe_timeout_ms (record { answers = answers; log = log })).0,
          (in_max 1 wipe_timeout_ms (record { answers = answers; log = log })).1,
        )
        (some byte, w')
    → Fulfils (expect wipe_timeout_ms 1 (byte ∷ []) ∷ []) answers w'.answers
      × (w'.log ≡ log ++ (asked wipe_timeout_ms 1 ∷ []))
unfolding in_max only_byte
reply_sound [] log w' byte e = absurd (let k = ap (λ p. p.0) e in cc)
reply_sound (failed rc ∷ answers) log w' byte e = absurd (let k = ap (λ p. p.0) e in cc)
reply_sound (wrote n ∷ answers) log w' byte e = absurd (let k = ap (λ p. p.0) e in cc)
reply_sound (received [] ∷ answers) log w' byte e = absurd (let k = ap (λ p. p.0) e in cc)
reply_sound (received (x ∷ got) ∷ answers) log w' byte e =
    let same : some x ≡ some byte = ap (λ p. p.0) e in
    ((ground (arith, same), ap (λ p. p.1.answers) e), sym (ap (λ p. p.1.log) e))

poll_sound :
    (w w' : World) (byte : ℕ)
    → wipe_poll w ≡ (some byte, w')
    → Fulfils (ask_script byte) w.answers w'.answers
      × (w'.log ≡ w.log ++ map event_of (ask_script byte))
unfolding wipe_poll
poll_sound w w' byte e = go (bulk_out command98 wipe_timeout_ms w) refl
  where
    go :
        (r : Bool × World)
        → bulk_out command98 wipe_timeout_ms w ≡ r
        → Fulfils (ask_script byte) w.answers w'.answers
          × (w'.log ≡ w.log ++ map event_of (ask_script byte))
    go (false, u) f =
        let h : ◌≡◌ {A = Option ℕ × World} (none, u) (some byte, w') = rw f at e in
        absurd (let k = ap (λ p. p.0) h in cc)
    go (true, u) f =
        let (x, l) = (bulk_out-Performs command98 wipe_timeout_ms).sound w u f in
        let h = rw f at e in
        let (y, m) = reply_sound u.answers u.log w' byte h in
        (
          Fulfils-append (put wipe_timeout_ms command98 ∷ [])
              (expect wipe_timeout_ms 1 (byte ∷ []) ∷ []) w.answers u.answers w'.answers x y,
          rw (m, l, append_assoc) refl,
        )

reply_complete :
    (answers : List Answer) (log : List Event) (byte : ℕ) (rest : List Answer)
    → Fulfils (expect wipe_timeout_ms 1 (byte ∷ []) ∷ []) answers rest
    → in_max 1 wipe_timeout_ms (record { answers = answers; log = log })
      ≡ (some (byte ∷ []), record { answers = rest; log = log ++ (asked wipe_timeout_ms 1 ∷ []) })
unfolding in_max
reply_complete [] log byte rest e = absurd e
reply_complete (failed rc ∷ answers) log byte rest e = absurd e
reply_complete (wrote n ∷ answers) log byte rest e = absurd e
reply_complete (received got ∷ answers) log byte rest (same, left) = rw (same, left) refl

poll_complete :
    (w : World) (byte : ℕ) (rest : List Answer)
    → Fulfils (ask_script byte) w.answers rest
    → wipe_poll w
      ≡ (some byte, record { answers = rest; log = w.log ++ map event_of (ask_script byte) })
unfolding wipe_poll only_byte
poll_complete w byte rest e =
    let (mid, x, y) =
      Fulfils-split (put wipe_timeout_ms command98 ∷ []) (expect wipe_timeout_ms 1 (byte ∷ []) ∷ [])
        w.answers rest e in
    rw
      (
        (bulk_out-Performs command98 wipe_timeout_ms).complete w mid x,
        reply_complete mid (w.log ++ (sent wipe_timeout_ms command98 ∷ [])) byte rest y,
        append_assoc,
      )
      refl

pub polls_complete :
    (n k : ℕ) (w : World) (rest : List Answer)
    → k < n
    → Fulfils (ready_script k) w.answers rest
    → polls wipe_poll n w
      ≡ (true, record { answers = rest; log = w.log ++ map event_of (ready_script k) })
unfolding polls next_poll
polls_complete zero k w rest small e = absurd (omega arith)
polls_complete (suc left) zero w rest small e =
    ap (next_poll left (polls wipe_poll left)) (poll_complete w 1 rest e)
polls_complete (suc left) (suc k) w rest small e =
    let (mid, x, y) =
      Fulfils-split (ask_script 0) (pause 100000 ∷ ready_script k) w.answers rest e in
    let more : (left == 0) ≡ false = ground arith in
    ap (next_poll left (polls wipe_poll left)) (poll_complete w 0 mid x)
    ∙ rw more (
        polls_complete left k
          (record {
            answers = mid;
            log = (w.log ++ map event_of (ask_script 0)) ++ (waited 100000 ∷ []);
          })
          rest (omega arith) y
        ∙ rw (append_assoc, append_assoc) refl)

-- One of the first `n` scripts of polls lies between the two worlds.
abbrev pub Readied : ℕ → World → World → Type 0
Readied n w w' =
    (k : ℕ) × (k < n)
    × Fulfils (ready_script k) w.answers w'.answers
    × (w'.log ≡ w.log ++ map event_of (ready_script k))

resume :
    (left : ℕ) (u w' : World)
    → polls wipe_poll left (if left == 0 then u else (wait 100000 u).1) ≡ (true, w')
    → ((v v' : World) → polls wipe_poll left v ≡ (true, v') → Readied left v v')
    → Readied left (wait 100000 u).1 w'
unfolding polls
resume zero u w' g others = absurd (let k = ap (λ p. p.0) g in cc)
resume (suc left) u w' g others =
    let more : (suc left == 0) ≡ false = ground arith in
    others (wait 100000 u).1 w' (
      subst (λ b. polls wipe_poll (suc left) (if b then u else (wait 100000 u).1) ≡ (true, w')) more
        g)

-- A poll that reads 0, the wait, and the polls behind it.
one_more :
    (left : ℕ) (w u w' : World)
    → Fulfils (ask_script 0) w.answers u.answers
    → u.log ≡ w.log ++ map event_of (ask_script 0)
    → Readied left (wait 100000 u).1 w'
    → Readied (suc left) w w'
one_more left w u w' x l (k, small, y, m) = (
  suc k,
  omega arith,
  Fulfils-append (ask_script 0) (pause 100000 ∷ ready_script k) w.answers u.answers w'.answers x y,
  rw (m, l, append_assoc, append_assoc) refl,
)

pub polls_sound : (n : ℕ) (w w' : World) → polls wipe_poll n w ≡ (true, w') → Readied n w w'
unfolding polls next_poll
polls_sound zero w w' e = absurd (let k = ap (λ p. p.0) e in cc)
polls_sound (suc left) w w' e = go (wipe_poll w) refl (polls_sound left)
  where
    go :
        (r : Option ℕ × World)
        → wipe_poll w ≡ r
        → ((u u' : World) → polls wipe_poll left u ≡ (true, u') → Readied left u u')
        → Readied (suc left) w w'
    go (none, u) f others =
        let h = sym (ap (next_poll left (polls wipe_poll left)) f) ∙ e in
        absurd (let k = ap (λ p. p.0) h in cc)
    go (some byte, u) f others =
        let h = sym (ap (next_poll left (polls wipe_poll left)) f) ∙ e in
        elim (Bool-cases (byte == 1)) [
          | inl yes_ ↦
              let one_ : byte ≡ 1 = ground arith in
              let (x, l) = poll_sound w u 1 (subst (λ b. wipe_poll w ≡ (some b, u)) one_ f) in
              let same : ◌≡◌ {A = Bool × World} (true, u) (true, w') = rw yes_ at h in
              let end : u ≡ w' = ap (λ p. p.1) same in
              (
                0,
                omega arith,
                subst (λ v. Fulfils (ready_script 0) w.answers v.answers) end x,
                subst (λ v. v.log ≡ w.log ++ map event_of (ready_script 0)) end l,
              )
          | inr no_ ↦ elim (Bool-cases (byte != 0)) [
            | inl other ↦
                let g : ◌≡◌ {A = Bool × World} (false, u) (true, w') = rw (no_, other) at h in
                absurd (let k = ap (λ p. p.0) g in cc)
            | inr again ↦
                let zero_ : byte ≡ 0 = ground arith in
                let (x, l) = poll_sound w u 0 (subst (λ b. wipe_poll w ≡ (some b, u)) zero_ f) in
                let g : polls wipe_poll left (if left == 0 then u else (wait 100000 u).1)
                    ≡ (true, w') =
                  rw (no_, again) at h in
                one_more left w u w' x l (resume left u w' g others)
          ]
        ]
