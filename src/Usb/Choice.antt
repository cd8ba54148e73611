-- ===== src/Usb/Choice.antt =====
-- Actions that perform one of several scripts of transfers.
use ezfadvance_iii.Prelude.{ℕ, ◌<◌, ◌≡◌, refl, ◌∙◌, true, List, ◌++◌, map}
use mathlib.Core.List.{append_assoc, map-append}
use ezfadvance_iii.Usb.{Answer, World, Action, ◌&&&◌}
use ezfadvance_iii.Usb.Traces.{
  Step, event_of, Fulfils, Fulfils-append, Fulfils-split, Performs, &&&-true,
}

-- The action succeeds exactly when the device answers one of the first `n` scripts, and then it has
-- done exactly that one.
pub record PerformsSome (act : Action) (n : ℕ) (scripts : ℕ → List Step) : Type 0 where
  pub sound :
      (w w' : World)
      → act w ≡ (true, w')
      → (k : ℕ) × (k < n)
        × Fulfils (scripts k) w.answers w'.answers
        × (w'.log ≡ w.log ++ map event_of (scripts k))
  pub complete :
      (k : ℕ) (w : World) (rest : List Answer)
      → k < n
      → Fulfils (scripts k) w.answers rest
      → act w ≡ (true, record { answers = rest; log = w.log ++ map event_of (scripts k) })

pub after-PerformsSome :
    {a b : Action} {n : ℕ} {s : List Step} {scripts : ℕ → List Step}
    → Performs a s
    → PerformsSome b n scripts
    → PerformsSome (a &&& b) n (λ k. s ++ scripts k)
after-PerformsSome {a} {b} {n} {s} {scripts} p q = record {
  sound = λ w w' e.
      let (u, f, g) = &&&-true a b w w' e in
      let (x, l) = p.sound w u f in
      let (k, small, y, m) = q.sound u w' g in
      (
        k,
        small,
        Fulfils-append s (scripts k) w.answers u.answers w'.answers x y,
        rw (m, l, append_assoc, ← map-append),
      );
  complete = λ k w rest small e.
      let (mid, x, y) = Fulfils-split s (scripts k) w.answers rest e in
      rw (p.complete w mid x) (
        q.complete k (record { answers = mid; log = w.log ++ map event_of s }) rest small y
        ∙ rw (append_assoc, ← map-append) refl);
}

pub PerformsSome-then :
    {a b : Action} {n : ℕ} {t : List Step} {scripts : ℕ → List Step}
    → PerformsSome a n scripts
    → Performs b t
    → PerformsSome (a &&& b) n (λ k. scripts k ++ t)
PerformsSome-then {a} {b} {n} {t} {scripts} p q = record {
  sound = λ w w' e.
      let (u, f, g) = &&&-true a b w w' e in
      let (k, small, x, l) = p.sound w u f in
      let (y, m) = q.sound u w' g in
      (
        k,
        small,
        Fulfils-append (scripts k) t w.answers u.answers w'.answers x y,
        rw (m, l, append_assoc, ← map-append),
      );
  complete = λ k w rest small e.
      let (mid, x, y) = Fulfils-split (scripts k) t w.answers rest e in
      rw (p.complete k w mid small x) (
        q.complete (record { answers = mid; log = w.log ++ map event_of (scripts k) }) rest y
        ∙ rw (append_assoc, ← map-append) refl);
}
