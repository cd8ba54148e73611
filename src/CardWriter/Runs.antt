-- ===== src/CardWriter/Runs.antt =====
-- Runs of backend calls up to the first that fails.
use ezfadvance_iii.Prelude.{
  ℕ, suc, ◌≤◌, ◌<◌, ◌≡◌, refl, sym, ap, ◌∙◌, Bool, true, false, List, [], ◌∷◌, ◌++◌, if◌then◌else◌,
  length, take, arith,
}
use mathlib.Core.List.{append-nil, append_assoc}
use ezfadvance_iii.CardWriter.{Call, Backend, call, call_answer, step}

-- Calls one after another, up to the first that gives false.
pub run : List Call → Backend → Bool × Backend
run [] b = (true, b)
run (c ∷ cs) b = let (ok, b') = call c b in let rest = run cs b' in if ok then rest else (false, b')

pub call-calls : (c : Call) (b : Backend) → (call c b).1.calls ≡ b.calls ++ (c ∷ [])
call-calls c b = go b.answers
  where
    go : (answers : List Bool) → (call_answer c b.calls answers).1.calls ≡ b.calls ++ (c ∷ [])
    go [] = refl
    go (answer ∷ answers) = refl

pub step-run :
    (c : Call) (cs : List Call) (b : Backend) → step c (run cs b) ≡ run (cs ++ (c ∷ [])) b
unfolding run
step-run c [] b = go (call c b)
  where
    go : (r : Bool × Backend) → r ≡ (if r.0 then (true, r.1) else (false, r.1))
    go (true, b') = refl
    go (false, b') = refl
step-run c (d ∷ cs) b = go (step-run c cs) (call d b)
  where
    go :
        ((u : Backend) → step c (run cs u) ≡ run (cs ++ (c ∷ [])) u)
        → (r : Bool × Backend)
        → step c (if r.0 then run cs r.1 else (false, r.1))
          ≡ (if r.0 then run (cs ++ (c ∷ [])) r.1 else (false, r.1))
    go others (true, b') = others b'
    go others (false, b') = refl

-- The calls that a run made: all of them, or the front up to the one that gave false.
pub record Ran (cs : List Call) (b : Backend) (r : Bool × Backend) : Type 0 where
  pub n : ℕ
  pub logged : r.1.calls ≡ b.calls ++ take n cs
  pub all_made : r.0 ≡ true → n ≡ length cs
  pub at_most : n ≤ length cs
  pub some_made : 0 < length cs → 1 ≤ n

pub run-Ran : (cs : List Call) (b : Backend) → Ran cs b (run cs b)
unfolding run
run-Ran [] b = record {
  n = 0;
  logged = sym (append-nil b.calls);
  all_made = λ h. refl;
  at_most = omega arith;
  some_made = λ h. h;
}
run-Ran (c ∷ cs) b = go (run-Ran cs) (call c b) (call-calls c b)
  where
    go :
        ((u : Backend) → Ran cs u (run cs u))
        → (r : Bool × Backend) → r.1.calls ≡ b.calls ++ (c ∷ [])
        → Ran (c ∷ cs) b (if r.0 then run cs r.1 else (false, r.1))
    go rest (true, b') e =
        let others = rest b' in
        record {
          n = suc others.n;
          logged = others.logged ∙ rw (e, append_assoc) refl;
          all_made = λ h. ap suc (others.all_made h);
          at_most = omega (arith, others.at_most);
          some_made = λ h. omega arith;
        }
    go rest (false, b') e = record {
      n = 1;
      logged = e;
      all_made = λ h. absurd (let k = h in cc);
      at_most = omega arith;
      some_made = λ h. omega arith;
    }

pub run-one : (c : Call) (b : Backend) → call c b ≡ run (c ∷ []) b
unfolding run
run-one c b = go (call c b)
  where
    go : (r : Bool × Backend) → r ≡ (if r.0 then (true, r.1) else (false, r.1))
    go (true, b') = refl
    go (false, b') = refl
