-- ===== src/Analyticsd/Polling/Clock.antt =====
-- The time up to which the analytics daemon has seen the events.
use cfdev.Common.{◌≡◌, ℕ, Option, none, some, List, [], ◌∷◌, ◌++◌, ltb, if◌then◌else◌}
use cfdev.Errors.{Error}
use cfdev.Analyticsd.{Event, Cloud, State, Daemon}
use cfdev.Analyticsd.Handlers.{new}
use cfdev.Analyticsd.Polling.{save_latest_time, handle_known, handle_events}

-- The latest of a time and those of the events.
abbrev pub latest_time : List Event → ℕ → ℕ
latest_time [] t = t
latest_time (e ∷ es) t = latest_time es (if ltb t e.timestamp then e.timestamp else t)

module _ (y : Cloud) (d : Daemon) where
  -- All events of the batch were handled.
  abbrev pub AllHandled : List Event → State → Option Error × State → Type 0
  AllHandled es s r = (r.0 ≡ none) × (r.1.last_time ≡ latest_time es s.last_time)

  -- The events before one were handled, and the handling of that one failed, after the daemon's time
  -- had moved to it. Nothing is left to the events after it.
  abbrev pub FailedAt : List Event → State → Option Error × State → Type 0
  FailedAt es s r =
      (before : List Event) × (e : Event) × (rest : List Event) × (x : Error) × (es
        ≡ before ++ (e ∷ rest))
      × ((handle_events y d before s).0 ≡ none)
      × (handle_known y d (new e.kind) e
            (save_latest_time e.timestamp (handle_events y d before s).1)
          ≡ (some x, r.1))
      × (r.0 ≡ some x)
      × (r.1.last_time ≡ latest_time (before ++ (e ∷ [])) s.last_time)
