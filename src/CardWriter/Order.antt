-- ===== src/CardWriter/Order.antt =====
-- The order of the backend's calls in `CardWriter::write`.
use ezfadvance_iii.Prelude.{
  ℕ, zero, suc, ◌≤◌, ◌≡◌, inl, inr, refl, sym, ap, ◌∙◌, Bool, true, false, ◌&&◌, List, [], ◌∷◌,
  ◌++◌, if◌then◌else◌, length, take, drop, ltb, arith, Bool-cases,
}
use mathlib.Core.Path.{subst}
use mathlib.Core.List.{append_assoc}
use ezfadvance_iii.CardWriter.{
  mode_for, unsupported, Call, preflight, initialize_bridge, prepare_global_write, clear_save_banks,
  select_window_zero_for_erase, erase, finalize_flash_state, select_window_zero_for_program,
  program, verify, Backend, call, step, success, operation_failed, CardWriteResult, verified,
  cleared, programmed, write_after_preflight, card_write,
}
use ezfadvance_iii.CardWriter.Runs.{run, call-calls, step-run, Ran, run-Ran, run-one}

-- The call that ends the programming: a verification, or the status cleanup where that is skipped.
abbrev pub last_call : List ℕ → Bool → Call
last_call image skip_verification =
    if skip_verification
    then finalize_flash_state
    else if unsupported (mode_for (length image))
    then finalize_flash_state
    else verify (mode_for (length image)) image

-- The calls of a write that succeeds, before the final clear.
abbrev pub write_plan : List ℕ → Bool → List Call
write_plan image skip_verification =
    preflight
    ∷ initialize_bridge
    ∷ prepare_global_write
    ∷ select_window_zero_for_erase
    ∷ erase (length image)
    ∷ finalize_flash_state
    ∷ select_window_zero_for_program
    ∷ program image
    ∷ last_call image skip_verification
    ∷ []

-- The calls of one write: the front of the plan, and behind it the clear where the bridge was
-- prepared, that is where the plan went on beyond its third call.
abbrev pub calls_made : ℕ → List ℕ → Bool → List Call
calls_made count image skip_verification =
    take count (write_plan image skip_verification)
    ++ (if ltb 3 count then clear_save_banks ∷ [] else [])

pub record WriteOrder (image : List ℕ) (skip_verification : Bool) (b : Backend)
    (result : CardWriteResult × Backend) : Type 0 where
  pub count : ℕ
  pub at_most : (1 ≤ count) × (count ≤ 9)
  pub logged : result.1.calls ≡ b.calls ++ calls_made count image skip_verification
  pub whole_plan : result.0.status ≡ success → count ≡ 9

-- The end of the programming and the verification, as one more call.
verified-step :
    (image : List ℕ) (skip_verification : Bool) (r : Bool × Backend)
    → (verified image skip_verification r).0 ≡ step (last_call image skip_verification) r
unfolding verified
verified-step image skip (false, b) = refl
verified-step image true (true, b) = refl
verified-step image false (true, b) = elim (Bool-cases (unsupported (mode_for (length image)))) [
  | inl yes_ ↦ rw yes_ refl
  | inr no_ ↦ rw no_ refl
]

-- What the final clear adds, whatever came before.
cleared-calls :
    (r : (Bool × Backend) × CardWriteResult)
    → ((cleared true r).1.calls ≡ r.0.1.calls ++ (clear_save_banks ∷ []))
      × ((cleared true r).0.status ≡ success → r.0.0 ≡ true)
unfolding cleared
cleared-calls ((ok, b), result) = (call-calls clear_save_banks b, go ok (call clear_save_banks b).0)
  where
    go : (x y : Bool) → (if x && y then success else operation_failed) ≡ success → x ≡ true
    go true y e = refl
    go false y e = absurd (let k = e in cc)

-- The calls that follow the preparation, up to the final clear.
abbrev flash_plan : List ℕ → Bool → List Call
flash_plan image skip_verification = drop 3 (write_plan image skip_verification)

flash-run :
    (image : List ℕ) (skip_verification : Bool) (b : Backend)
    → (verified image skip_verification (programmed image (true, b))).0
      ≡ run (flash_plan image skip_verification) b
unfolding programmed
flash-run image skip b =
    verified-step image skip (programmed image (true, b))
    ∙ rw
        (
          run-one select_window_zero_for_erase b,
          step-run (erase (length image)),
          step-run finalize_flash_state,
          step-run select_window_zero_for_program,
          step-run (program image),
          step-run (last_call image skip),
        )
        refl

early_calls :
    (n : ℕ) (image : List ℕ) (skip_verification : Bool) (b b1 b2 : Backend)
    → n ≤ 2
    → b1.calls ≡ b.calls ++ (preflight ∷ [])
    → b2.calls ≡ b1.calls ++ take n (initialize_bridge ∷ prepare_global_write ∷ [])
    → b2.calls ≡ b.calls ++ calls_made (suc n) image skip_verification
early_calls zero image skip b b1 b2 few e l = rw (l, e, append_assoc) refl
early_calls (suc zero) image skip b b1 b2 few e l = rw (l, e, append_assoc) refl
early_calls (suc (suc zero)) image skip b b1 b2 few e l = rw (l, e, append_assoc) refl
early_calls (suc (suc (suc n))) image skip b b1 b2 few e l = absurd (omega arith)

late_calls :
    (n : ℕ) (image : List ℕ) (skip_verification : Bool) (b b1 b2 b3 : Backend)
    → 1 ≤ n
    → b1.calls ≡ b.calls ++ (preflight ∷ [])
    → b2.calls ≡ b1.calls ++ (initialize_bridge ∷ prepare_global_write ∷ [])
    → b3.calls ≡ b2.calls ++ take n (flash_plan image skip_verification)
    → b3.calls ++ (clear_save_banks ∷ [])
      ≡ b.calls ++ calls_made (suc (suc (suc n))) image skip_verification
late_calls n image skip b b1 b2 b3 some_call e l k =
    let beyond : ltb 3 (suc (suc (suc n))) ≡ true = ground arith in
    rw (beyond, k, l, e, append_assoc, append_assoc, append_assoc) refl

-- Behind the preflight and the two calls that prime the bridge.
primed-order :
    (image : List ℕ) (skip_verification : Bool) (b b1 : Backend) (r : Bool × Backend)
    → b1.calls ≡ b.calls ++ (preflight ∷ [])
    → Ran (initialize_bridge ∷ prepare_global_write ∷ []) b1 r
    → WriteOrder image skip_verification b
        (cleared r.0 (verified image skip_verification (programmed image r)))
unfolding cleared verified programmed
primed-order image skip b b1 (false, b2) e ran = record {
  count = suc ran.n;
  at_most = omega (arith, ran.at_most);
  logged = early_calls ran.n image skip b b1 b2 ran.at_most e ran.logged;
  whole_plan = λ h. absurd (let k = h in cc);
}
primed-order image skip b b1 (true, b2) e ran =
    let six = run-Ran (flash_plan image skip) b2 in
    let same = flash-run image skip b2 in
    let (log, all) = cleared-calls (verified image skip (programmed image (true, b2))) in
    record {
      count = suc (suc (suc six.n));
      at_most = omega (arith, six.at_most);
      logged =
          log
          ∙ ap (λ x. x.1.calls ++ (clear_save_banks ∷ [])) same
          ∙ late_calls six.n image skip b b1 b2 (run (flash_plan image skip) b2).1
              (six.some_made (omega arith)) e
              (subst
                (λ k. b2.calls ≡ b1.calls ++ take k (initialize_bridge ∷ prepare_global_write ∷ []))
                (ran.all_made refl) ran.logged)
              six.logged;
      whole_plan =
          λ h. ap (λ k. suc (suc (suc k))) (six.all_made (sym (ap (λ x. x.0) same) ∙ all h));
    }

-- The calls of a write are a front of its plan of nine calls, in order and at least one. Where
-- more than three of them were made, that is behind the preparation of the bridge, a clear of
-- the save banks follows as the last call; otherwise there is none. A write that reports success
-- has made all nine.
pub card_write-WriteOrder :
    (image : List ℕ) (skip_verification : Bool) (b : Backend)
    → WriteOrder image skip_verification b (card_write image skip_verification b)
unfolding card_write write_after_preflight
card_write-WriteOrder image skip b = go (call preflight b) (call-calls preflight b)
  where
    go :
        (r : Bool × Backend)
        → r.1.calls ≡ b.calls ++ (preflight ∷ [])
        → WriteOrder image skip b (write_after_preflight image skip r)
    go (false, b1) e = record {
      count = 1;
      at_most = omega arith;
      logged = e;
      whole_plan = λ h. absurd (let k = h in cc);
    }
    go (true, b1) e =
        let primed : step prepare_global_write (call initialize_bridge b1)
            ≡ run (initialize_bridge ∷ prepare_global_write ∷ []) b1 =
          rw (run-one initialize_bridge b1, step-run prepare_global_write) refl in
        rw primed (
          primed-order image skip b b1 _ e
            (run-Ran (initialize_bridge ∷ prepare_global_write ∷ []) b1))
