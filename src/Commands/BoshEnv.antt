-- ===== src/Commands/BoshEnv.antt =====
-- cmd/bosh/bosh.go: `cf dev bosh env` prints how a shell reaches the BOSH director.
use cfdev.Common.{String, Bool, List}
use cfdev.Bosh.{fetch_config}
use cfdev.Bosh.Shell.{prepare}
use cfdev.Configuration.{Config}
use cfdev.Runtime.{◌>>=◌, pure, wrapping}
use cfdev.System.{System, Run, print, ignoring, observing}

-- `Env`. The event that analytics are told of, whose error is dropped, is a parameter; the goroutine
-- that exits on a signal is left out.
bosh_env : System → Config → Bool → List String → Run (Unit {0}) → Run (Unit {0})
unfolding fetch_config prepare ignoring observing
bosh_env s c is_windows environ event = do
  b ← wrapping "failed to fetch bosh configuration" (fetch_config s c)
  _told ← observing event
  _shown ← ignoring s (print (prepare is_windows environ b))
  pure tt
