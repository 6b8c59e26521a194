-- ===== src/Analyticsd/Handlers/Dispatch.antt =====
-- Which events the daemon asks the cloud controller for, and which it handles.
use cfdev.Common.{
  ◌≡◌, String, Bool, true, false, ◌||◌, Option, none, some, List, [], ◌∷◌, ◌=s◌, arith,
}
use cfdev.Analyticsd.{event_types}
use cfdev.Analyticsd.Handlers.{Command, new}

abbrev pub is_handled : Option Command → Bool
is_handled none = false
is_handled (some c) = true

abbrev pub is_one_of : String → List String → Bool
is_one_of t [] = false
is_one_of t (u ∷ us) = (t =s u) || is_one_of t us

-- The event types that the daemon asks for are exactly those that have a handler.
pub new-event_types : (t : String) → is_handled (new t) ≡ is_one_of t event_types
unfolding new
new-event_types t = ground arith
