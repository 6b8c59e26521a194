-- ===== src/Daemons/Watch/Lively.antt =====
-- When the loop of `Watch` ends, for any daemon runner that keeps its promises.
use cfdev.Common.{
  ◌≡◌, ◌≤◌, ◌<◌, refl, sym, ◌∙◌, inl, inr, ℕ, zero, suc, String, Bool, true, false, List, ◌∷◌,
  arith, Bool-cases,
}
use cfdev.Runtime.{Result, ok, err}
use cfdev.System.{Op, sleep, send}
use cfdev.Daemons.{DaemonRunner}
use cfdev.Daemons.Contract.{Registry, Implements}
use cfdev.Daemons.Watch.{has_ended, watch}

-- An answer that ends the loop.
has_ended_ok : (r : Result Bool) → has_ended r ≡ true → r ≡ ok false
unfolding has_ended
has_ended_ok (ok true) e = cc e
has_ended_ok (ok false) e = refl
has_ended_ok (err x) e = cc e

module _ (runner : DaemonRunner) (label name : String) where
  -- The history after so many polls, each with its pause.
  abbrev pub after_rounds : ℕ → List Op → List Op
  after_rounds zero h = h
  after_rounds (suc n) h = after_rounds n (sleep 5 ∷ (runner.is_running label h).1)

  -- The loop has ended after a poll that found the daemon ended, as the last of up to `n` rounds.
  abbrev EndsBy : ℕ → ℕ → List Op → Type 0
  EndsBy n fuel h =
      (m : ℕ) × (m ≤ n)
      × (has_ended (runner.is_running label (after_rounds m h)).0 ≡ true)
      × (watch runner label name fuel h
          ≡ (true, send name ∷ (runner.is_running label (after_rounds m h)).1))

  watch-EndsBy :
      (n fuel : ℕ) (h : List Op)
      → n < fuel
      → has_ended (runner.is_running label (after_rounds n h)).0 ≡ true
      → EndsBy n fuel h
  unfolding watch
  watch-EndsBy n zero h enough ended = absurd (omega arith)
  watch-EndsBy zero (suc fuel) h enough ended = (0, omega arith, ended, rw (ended, watch) refl)
  watch-EndsBy (suc n) (suc fuel) h enough ended =
      elim (Bool-cases (has_ended (runner.is_running label h).0)) [
        | inl e ↦ (0, omega arith, e, rw (e, watch) refl)
        | inr e ↦
            let (m, within, found, ends) =
              watch-EndsBy n fuel (sleep 5 ∷ (runner.is_running label h).1) (omega arith) ended in
            (suc m, omega arith, found, rw (e, watch) ends)
      ]

  -- If after `n` polls the daemon does not run and the next poll answers without an error, then the
  -- loop has ended by that poll: it has sent the name after a poll, the last operation before it,
  -- at which the daemon did not run. For any runner that keeps its promises.
  pub watch_ends :
      (y : Registry)
      → Implements runner y
      → y.IsName label
      → (n fuel : ℕ) (h : List Op) (b : Bool) → n < fuel
      → (runner.is_running label (after_rounds n h)).0 ≡ ok b
      → y.runs (after_rounds n h) label ≡ false
      → (m : ℕ) × (m ≤ n)
        × (y.runs (after_rounds m h) label ≡ false)
        × (watch runner label name fuel h
            ≡ (true, send name ∷ (runner.is_running label (after_rounds m h)).1))
  watch_ends y keeps named n fuel h b enough answer stopped =
      let (is_so, same) = keeps.answers label (after_rounds n h) b named answer in
      let (m, within, found, ends) =
        watch-EndsBy n fuel h enough (seen b answer (is_so ∙ stopped)) in
      (
        m,
        within,
        sym (keeps.answers label (after_rounds m h) false named (has_ended_ok _ found)).0,
        ends,
      )
    where
      seen :
          (b : Bool)
          → (runner.is_running label (after_rounds n h)).0 ≡ ok b
          → b ≡ false
          → has_ended (runner.is_running label (after_rounds n h)).0 ≡ true
      seen true a e = cc e
      seen false a e = rw a (unfold has_ended in refl)
