-- ===== src/Usb/Traces.antt =====
-- Scripts of transfers, and what it means that an action performs one.
use ezfadvance_iii.Prelude.{
  ℕ, ◌≡◌, refl, sym, ap, ◌∙◌, Bool, true, false, List, [], ◌∷◌, ◌++◌, map, length, ◌⊎◌, inl, inr,
  take,
}
use ezfadvance_iii.Usb.{
  Answer, Event, World, Action, failed, wrote, received, sent, asked, waited, ◌&&&◌, done,
}
use mathlib.Core.Bool.{false≢true, true≢false}
use mathlib.Core.List.{append-nil, append_assoc, map-append}

-- Write these bytes; read at most so many and expect these; wait.
pub data Step : Type 0 where
  put : ℕ → List ℕ → Step
  expect : ℕ → ℕ → List ℕ → Step
  pause : ℕ → Step

abbrev pub event_of : Step → Event
event_of (put timeout bytes) = sent timeout bytes
event_of (expect timeout maximum bytes) = asked timeout maximum
event_of (pause us) = waited us

-- The device answers all the steps as they want, and `rest` are the answers behind.
abbrev pub Fulfils : List Step → List Answer → List Answer → Type 0
Fulfils [] answers rest = answers ≡ rest
Fulfils (put timeout bytes ∷ steps) (wrote n ∷ answers) rest =
    (n ≡ length bytes) × Fulfils steps answers rest
Fulfils (put timeout bytes ∷ steps) (failed rc ∷ answers) rest = ⊥
Fulfils (put timeout bytes ∷ steps) (received got ∷ answers) rest = ⊥
Fulfils (put timeout bytes ∷ steps) [] rest = ⊥
Fulfils (expect timeout maximum bytes ∷ steps) (received got ∷ answers) rest =
    (take maximum got ≡ bytes) × Fulfils steps answers rest
Fulfils (expect timeout maximum bytes ∷ steps) (failed rc ∷ answers) rest = ⊥
Fulfils (expect timeout maximum bytes ∷ steps) (wrote n ∷ answers) rest = ⊥
Fulfils (expect timeout maximum bytes ∷ steps) [] rest = ⊥
Fulfils (pause us ∷ steps) answers rest = Fulfils steps answers rest

-- The action succeeds exactly when the device answers all the steps as they want; then it has done
-- exactly the steps, in order. When it fails it has done some of the steps from the front, in
-- order, and nothing else.
pub record Performs (act : Action) (steps : List Step) : Type 0 where
  pub sound :
      (w w' : World)
      → act w ≡ (true, w')
      → Fulfils steps w.answers w'.answers × (w'.log ≡ w.log ++ map event_of steps)
  pub complete :
      (w : World) (rest : List Answer)
      → Fulfils steps w.answers rest
      → act w ≡ (true, record { answers = rest; log = w.log ++ map event_of steps })
  pub stops :
      (w w' : World)
      → act w ≡ (false, w')
      → (front back : List Step) × (steps ≡ front ++ back) × (w'.log ≡ w.log ++ map event_of front)

pub Fulfils-append :
    (s t : List Step) (answers mid rest : List Answer)
    → Fulfils s answers mid
    → Fulfils t mid rest
    → Fulfils (s ++ t) answers rest
Fulfils-append [] t answers mid rest e h = rw e h
Fulfils-append (put timeout bytes ∷ s) t [] mid rest e h = absurd e
Fulfils-append (put timeout bytes ∷ s) t (failed rc ∷ answers) mid rest e h = absurd e
Fulfils-append (put timeout bytes ∷ s) t (wrote n ∷ answers) mid rest (x, e) h =
    (x, Fulfils-append s t answers mid rest e h)
Fulfils-append (put timeout bytes ∷ s) t (received got ∷ answers) mid rest e h = absurd e
Fulfils-append (expect timeout maximum bytes ∷ s) t [] mid rest e h = absurd e
Fulfils-append (expect timeout maximum bytes ∷ s) t (failed rc ∷ answers) mid rest e h = absurd e
Fulfils-append (expect timeout maximum bytes ∷ s) t (wrote n ∷ answers) mid rest e h = absurd e
Fulfils-append (expect timeout maximum bytes ∷ s) t (received got ∷ answers) mid rest (x, e) h =
    (x, Fulfils-append s t answers mid rest e h)
Fulfils-append (pause us ∷ s) t answers mid rest e h = Fulfils-append s t answers mid rest e h

-- The answers that are left behind the first part of a script.
pub Fulfils-split :
    (s t : List Step) (answers rest : List Answer)
    → Fulfils (s ++ t) answers rest
    → (mid : List Answer) × Fulfils s answers mid × Fulfils t mid rest
Fulfils-split [] t answers rest h = (answers, refl, h)
Fulfils-split (put timeout bytes ∷ s) t [] rest h = absurd h
Fulfils-split (put timeout bytes ∷ s) t (failed rc ∷ answers) rest h = absurd h
Fulfils-split (put timeout bytes ∷ s) t (wrote n ∷ answers) rest (x, h) =
    let (mid, f, g) = Fulfils-split s t answers rest h in (mid, (x, f), g)
Fulfils-split (put timeout bytes ∷ s) t (received got ∷ answers) rest h = absurd h
Fulfils-split (expect timeout maximum bytes ∷ s) t [] rest h = absurd h
Fulfils-split (expect timeout maximum bytes ∷ s) t (failed rc ∷ answers) rest h = absurd h
Fulfils-split (expect timeout maximum bytes ∷ s) t (wrote n ∷ answers) rest h = absurd h
Fulfils-split (expect timeout maximum bytes ∷ s) t (received got ∷ answers) rest (x, h) =
    let (mid, f, g) = Fulfils-split s t answers rest h in (mid, (x, f), g)
Fulfils-split (pause us ∷ s) t answers rest h = Fulfils-split s t answers rest h

module _ (a b : Action) (w w' : World) where
  pub &&&-true : (a &&& b) w ≡ (true, w') → (u : World) × (a w ≡ (true, u)) × (b u ≡ (true, w'))
  &&&-true e = go (a w) refl
    where
      go : (r : Bool × World) → a w ≡ r → (u : World) × (a w ≡ (true, u)) × (b u ≡ (true, w'))
      go (true, u) f = (u, f, rw f at e)
      go (false, u) f =
          let g : ◌≡◌ {A = Bool × World} (false, u) (true, w') = rw f at e in
          absurd (false≢true (ap (λ p. p.0) g))

  &&&-false :
      (a &&& b) w ≡ (false, w')
      → (a w ≡ (false, w')) ⊎ ((u : World) × (a w ≡ (true, u)) × (b u ≡ (false, w')))
  &&&-false e = go (a w) refl
    where
      go :
          (r : Bool × World)
          → a w ≡ r
          → (a w ≡ (false, w')) ⊎ ((u : World) × (a w ≡ (true, u)) × (b u ≡ (false, w')))
      go (true, u) f = inr (u, f, rw f at e)
      go (false, u) f = inl (f ∙ (rw f at e))

pub Performs-done : Performs done []
Performs-done = record {
  sound = λ w w' e. (ap (λ p. p.1.answers) e, sym (ap (λ p. p.1.log) e) ∙ sym (append-nil w.log));
  complete = λ w rest e. rw (append-nil, ← e) refl;
  stops = λ w w' e. absurd (true≢false (ap (λ p. p.0) e));
}

-- A conjunction performs the one script and then the other.
pub &&&-Performs :
    {a b : Action} {s t : List Step} → Performs a s → Performs b t → Performs (a &&& b) (s ++ t)
&&&-Performs {a} {b} {s} {t} p q = record {
  sound = λ w w' e.
      let (u, f, g) = &&&-true a b w w' e in
      let (x, k) = p.sound w u f in
      let (y, l) = q.sound u w' g in
      (
        Fulfils-append s t w.answers u.answers w'.answers x y,
        rw (l, k, append_assoc, ← map-append),
      );
  complete = λ w rest e.
      let (mid, x, y) = Fulfils-split s t w.answers rest e in
      rw (p.complete w mid x) (
        q.complete (record { answers = mid; log = w.log ++ map event_of s }) rest y
        ∙ rw (append_assoc, ← map-append) refl);
  stops = λ w w' e. elim (&&&-false a b w w' e) [
    | inl f ↦
        let (front, back, x, y) = p.stops w w' f in (front, back ++ t, rw (x, append_assoc), y)
    | inr (u, f, g) ↦
        let (front, back, x, y) = q.stops u w' g in
        let (_, k) = p.sound w u f in
        (s ++ front, back, rw (x, append_assoc), rw (y, k, append_assoc, ← map-append))
  ];
}
