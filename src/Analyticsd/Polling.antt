-- ===== src/Analyticsd/Polling.antt =====
-- analyticsd/daemon/daemon.go: one poll, and the time up to which events have been seen.
pub mod Anonymous
pub mod Clock
use cfdev.Common.{ℕ, zero, suc, Option, none, some, List, [], ◌∷◌, ltb, if◌then◌else◌}
use cfdev.Errors.{Error}
use cfdev.Runtime.{Result, ok, err}
use cfdev.Analyticsd.{Event, Cloud, State, Daemon, fetch_events, fetch_latest_time}
use cfdev.Analyticsd.Handlers.{Command, new, handle_response}

-- `saveLatestTime`
pub save_latest_time : ℕ → State → State
save_latest_time t s = if ltb s.last_time t then record s { last_time = t } else s

module _ (y : Cloud) (d : Daemon) where
  -- What one event comes to: nothing where it has no handler.
  pub handle_known : Option Command → Event → State → Option Error × State
  handle_known none e s = (none, s)
  handle_known (some c) e s = handle_response y d c e s

  -- The loop of `do`, which ends at the first failure.
  pub handle_events : List Event → State → Option Error × State
  unfolding save_latest_time handle_known
  handle_events [] s = (none, s)
  handle_events (e ∷ es) s =
      let (failed, s') = handle_known (new e.kind) e (save_latest_time e.timestamp s) in
      let rest = handle_events es s' in elim failed [ some x ↦ (some x, s') | none ↦ rest ]

  handle_fetched : Result (List Event) → State → Option Error × State
  unfolding handle_events
  handle_fetched (err x) s = (some x, s)
  handle_fetched (ok events) s = handle_events events s

  after_fetch : Option (Result (List Event)) → State → Option (Option Error) × State
  unfolding handle_fetched
  after_fetch none s = (none, s)
  after_fetch (some r) s = let (failed, s') = handle_fetched r s in (some failed, s')

  -- `do`, where the cloud controller has no more than so many pages; `none` means it has more.
  pub poll : ℕ → State → Option (Option Error) × State
  unfolding after_fetch
  poll pages s = let (r, s') = fetch_events y d pages s.last_time s in after_fetch r s'

  -- What `Start` does before it waits for the ticker.
  pub prepare : State → State
  unfolding save_latest_time
  prepare s = let (t, s') = fetch_latest_time y d s in save_latest_time t s'

  -- The ticks of `Start`, each of which polls and logs the error: so many polls in turn.
  pub poll_times : ℕ → ℕ → State → State
  unfolding poll
  poll_times zero pages s = s
  poll_times (suc n) pages s = poll_times n pages (poll pages s).1

  -- `Start`, up to so many ticks.
  pub start : ℕ → ℕ → State → State
  unfolding prepare poll_times
  start ticks pages s = poll_times ticks pages (prepare s)

  -- `Stop`: a last poll, whose error is logged, and the end of `Start`.
  stop : ℕ → State → State
  unfolding poll
  stop pages s = (poll pages s).1
