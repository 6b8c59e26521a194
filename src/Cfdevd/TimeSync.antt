-- ===== src/Cfdevd/TimeSync.antt =====
-- `syncTime` of cfdevd/main.go: the connections that make the host send its time.
use cfdev.Common.{ℕ, zero, suc, String, ◌<>◌, none, some, List, ◌∷◌, ◌=s◌, if◌then◌else◌}
use cfdev.System.{System, Op, missing, other, message, stat, dial, print}

module _ (s : System) (socket : String) where
  -- The connection, once the socket may be there.
  connect_to : List Op → List Op
  connect_to h = elim (s.fault h (dial socket)) [
    | none ↦ dial socket ∷ h
    | some e ↦ print ("Timesync Error: " <> message e <> "\n") ∷ dial socket ∷ h
  ]

  -- One tick of five seconds.
  tick : List Op → List Op
  unfolding connect_to
  tick h = elim (s.fault h (stat socket)) [
    | none ↦ connect_to (stat socket ∷ h)
    | some e ↦ elim e [ missing t ↦ stat socket ∷ h | other t ↦ connect_to (stat socket ∷ h) ]
  ]

  -- The loop, with so many ticks before the end is signalled.
  ticks_then_done : ℕ → List Op → List Op
  unfolding tick
  ticks_then_done zero h = print "Terminating time sync..." ∷ h
  ticks_then_done (suc n) h = ticks_then_done n (tick h)

  sync_time : ℕ → List Op → List Op
  unfolding ticks_then_done
  sync_time n h = if socket =s "" then h else ticks_then_done n h
