-- ===== src/Network/Darwin/Connecting.antt =====
-- How often `Start` of network/vpnkit_darwin.go dials.
use cfdev.Common.{
  ◌≡◌, ◌≢◌, ◌≤◌, ◌⊎◌, refl, inl, inr, ℕ, zero, suc, String, none, some, List, ◌∷◌, arith,
  Option-cases,
}
use cfdev.Errors.{plain, safe_wrap}
use cfdev.Runtime.{ok, err}
use cfdev.System.{System, Op, Fault, message, dial, sleep}
use cfdev.Network.Darwin.{connect}

module _ (s : System) (path : String) where
  -- The history after so many dials that failed, each with its pause.
  abbrev pub after_dials : ℕ → List Op → List Op
  after_dials zero h = h
  after_dials (suc n) h = after_dials n (sleep 1 ∷ dial path ∷ h)

  -- The first dial that succeeds is the last.
  abbrev pub Connected : ℕ → List Op → Type 0
  Connected left h =
      (k : ℕ) × (k ≤ left)
      × (s.fault (after_dials k h) (dial path) ≡ none)
      × (connect s path left h ≡ (ok tt, dial path ∷ after_dials k h))

  -- Every dial fails, and the error of the last one is returned.
  abbrev pub Refused : ℕ → List Op → Type 0
  Refused left h =
      ((k : ℕ) → k ≤ left → s.fault (after_dials k h) (dial path) ≢ none)
      × ((e : Fault) × (s.fault (after_dials left h) (dial path) ≡ some e)
          × (connect s path left h ≡ (
            err (safe_wrap (plain (message e)) "connect to vpnkit"),
            dial path ∷ after_dials left h,
          )))

  -- With `left` retries left the loop ends: it connects by one of the next `left + 1` dials, and
  -- makes none after it; or all of them fail and it returns the error of the last, wrapped.
  pub connect_ends : (left : ℕ) (h : List Op) → Connected left h ⊎ Refused left h
  unfolding connect
  connect_ends zero h = elim (Option-cases (s.fault h (dial path))) [
    | inl f ↦ inl (0, omega arith, f, rw (f, connect) refl)
    | inr (e, f) ↦ inr (only e f, (e, f, rw (f, connect) refl))
  ]
    where
      only :
          (e : Fault)
          → s.fault h (dial path) ≡ some e
          → (k : ℕ) → k ≤ 0
          → s.fault (after_dials k h) (dial path) ≢ none
      only e f zero l c = cc (f, c)
      only e f (suc k) l c = absurd (omega arith)
  connect_ends (suc left) h = elim (Option-cases (s.fault h (dial path))) [
    | inl f ↦ inl (0, omega arith, f, rw (f, connect) refl)
    | inr (e, f) ↦ elim (connect_ends left (sleep 1 ∷ dial path ∷ h)) [
      | inl (k, within, found, ends) ↦ inl (suc k, omega arith, found, rw (f, connect) ends)
      | inr (never, (last, failed, ends)) ↦
          inr (all e f never, (last, failed, rw (f, connect) ends))
    ]
  ]
    where
      all :
          (e : Fault)
          → s.fault h (dial path) ≡ some e
          → ((k : ℕ)
              → k ≤ left
              → s.fault (after_dials k (sleep 1 ∷ dial path ∷ h)) (dial path) ≢ none)
          → (k : ℕ) → k ≤ suc left
          → s.fault (after_dials k h) (dial path) ≢ none
      all e f never zero l c = cc (f, c)
      all e f never (suc k) l c = never k (omega arith) c
