-- ===== src/Runtime/Steps.antt =====
-- The rules for the order of calls, read off their premises.
use cfdev.Common.{◌≡◌, String, Bool, true, false, List, ◌∷◌, if◌then◌else◌}
use cfdev.Runtime.{Call, World, Result, ◌>>=◌, wrapping, call, ignoring}
use cfdev.Runtime.Protocol.{Kind, kind, covers}
use cfdev.Runtime.Keeps.{Keeps, Keeps-call, Keeps-ignoring, Keeps-wrapping, Keeps-bind}

-- The rule for `>>=`, read off its premises.
pub chain {ℓ κ} :
    {w : World} {requires : Kind → List Kind} {A : Type ℓ} {B : Type κ} {ks : List Kind}
    {m : List Call → Result A × List Call} {f : A → List Call → Result B × List Call}
    {mid : A → List Kind} {after : B → List Kind}
    → Keeps w requires ks m mid
    → ((a : A) → Keeps w requires (mid a) (f a) after)
    → Keeps w requires ks (m >>= f) after
chain {w} {requires} {ks} {m} {f} {mid} {after} km kf = Keeps-bind w requires f mid after kf ks m km

-- A call whose error is wrapped and returned.
pub called :
    {w : World} {requires : Kind → List Kind} {ks : List Kind} (msg : String) (c : Call)
    → covers (requires (kind c)) ks ≡ true
    → Keeps w requires ks (wrapping msg (call w c)) (λ _. kind c ∷ ks)
called {w} {requires} {ks} msg c allowed =
    Keeps-wrapping w requires ks (call w c) _ msg (Keeps-call w requires ks c allowed)

-- A call whose error nobody looks at.
pub shown :
    {w : World} {requires : Kind → List Kind} {ks : List Kind} (c : Call)
    → covers (requires (kind c)) ks ≡ true
    → Keeps w requires ks (ignoring w c) (λ _. ks)
shown {w} {requires} {ks} c allowed = Keeps-ignoring w requires ks c allowed

pub branch {ℓ} :
    {w : World} {requires : Kind → List Kind} {A : Type ℓ} {ks : List Kind}
    {m n : List Call → Result A × List Call} {after : A → List Kind} (b : Bool)
    → Keeps w requires ks m after
    → Keeps w requires ks n after
    → Keeps w requires ks (if b then m else n) after
branch true km kn = km
branch false km kn = kn
