-- ===== src/Commands/Start/Waiting.antt =====
-- How long `waitForVM` waits.
use cfdev.Common.{
  ◌≡◌, refl, ℕ, zero, suc, ◌<◌, ◌∙◌, Option, none, some, List, ◌∷◌, arith, ◌⊎◌, inl, inr,
  Option-cases,
}
use cfdev.Errors.{Error}
use cfdev.Runtime.{Call, ping, sleep, World, ok, err, ◌>>=◌}
use cfdev.Commands.Start.{wait_for_vm}

-- The attempts of a loop that made all of `n`, each failed, latest first.
abbrev pub gave_up : ℕ → List Call → List Call
gave_up zero h = h
gave_up (suc n) h = gave_up n (sleep ∷ ping ∷ h)

-- Attempt number `k` of those from the history `h` on, counted from 0, is answered.
abbrev pub Answered : World → ℕ → List Call → Type 0
Answered w k h = w.fails (gave_up k h) ping ≡ none

module _ (w : World) where
  after_failure :
      (h : List Call) (e : Error) (n : ℕ) (last : Option Error)
      → w.fails h ping ≡ some e
      → wait_for_vm w (suc n) last h ≡ wait_for_vm w n (some e) (sleep ∷ ping ∷ h)
  unfolding wait_for_vm ◌>>=◌
  after_failure h e n last failed = rw failed

  after_answer :
      (h : List Call) (n : ℕ) (last : Option Error)
      → w.fails h ping ≡ none
      → wait_for_vm w (suc n) last h ≡ (ok tt, ping ∷ h)
  unfolding wait_for_vm ◌>>=◌
  after_answer h n last answered = rw answered

  -- The first answer ends the wait.
  abbrev pub Stopped : ℕ → Option Error → List Call → Type 0
  Stopped n last h =
      (k : ℕ) × (k < n) × Answered w k h × (wait_for_vm w n last h ≡ (ok tt, ping ∷ gave_up k h))

  -- No attempt was answered, and an error is returned.
  abbrev pub Exhausted : ℕ → Option Error → List Call → Type 0
  Exhausted n last h =
      ((k : ℕ) → k < n → ¬ Answered w k h)
      × ((e : Error) × (wait_for_vm w n last h ≡ (err e, gave_up n h)))

  wait-step :
      (n : ℕ) (last : Option Error) (h : List Call) (e : Error)
      → w.fails h ping ≡ some e
      → Stopped n (some e) (sleep ∷ ping ∷ h) ⊎ Exhausted n (some e) (sleep ∷ ping ∷ h)
      → Stopped (suc n) last h ⊎ Exhausted (suc n) last h
  wait-step n last h e failed (inl (k, below, answered, eq)) =
      inl (suc k, omega arith, answered, after_failure h e n last failed ∙ eq)
  wait-step n last h e failed (inr (never, (x, eq))) =
      inr (missed, (x, after_failure h e n last failed ∙ eq))
    where
      missed : (k : ℕ) → k < suc n → ¬ Answered w k h
      missed zero below a = cc
      missed (suc k) below a = never k (omega arith) a

  wait_total_some :
      (n : ℕ) (e : Error) (h : List Call) → Stopped n (some e) h ⊎ Exhausted n (some e) h
  unfolding wait_for_vm ◌>>=◌
  wait_total_some zero e h = inr (λ k below. elim below [ ], (e, refl))
  wait_total_some (suc n) e h = elim (Option-cases (w.fails h ping)) [
    | inl answered ↦ inl (zero, omega arith, answered, after_answer h n (some e) answered)
    | inr (x, failed) ↦ wait-step n (some e) h x failed (wait_total_some n x (sleep ∷ ping ∷ h))
  ]

-- A wait of at least one attempt ends. Either some attempt within the limit is answered: the wait
-- returns no error and makes no further attempt. Or none of them is, and the wait returns an error
-- after all of them.
pub wait_for_vm_total :
    (w : World) (n : ℕ) (h : List Call) → Stopped w (suc n) none h ⊎ Exhausted w (suc n) none h
wait_for_vm_total w n h = elim (Option-cases (w.fails h ping)) [
  | inl answered ↦ inl (zero, omega arith, answered, after_answer w h n none answered)
  | inr (x, failed) ↦ wait-step w n none h x failed (wait_total_some w n x (sleep ∷ ping ∷ h))
]
