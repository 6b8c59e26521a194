-- ===== src/Network/Aliases/Answering.antt =====
-- What AddLoopbackAliases of network/ip_aliaser_windows.go has seen when it returns no error.
use cfdev.Common.{
  ◌≡◌, ◌≢◌, ◌⊎◌, refl, sym, ap, ◌∙◌, inl, inr, ℕ, zero, suc, String, Bool, true, false, none, List,
  [], ◌∷◌, All, arith, Option-cases, if◌then◌else◌,
}
use cfdev.Common.Text.{codes, contains}
use cfdev.Runtime.{Result, ok, err, ◌>>=◌, ◌>>◌, pure}
use cfdev.System.{System, Op, print, ignoring, run, sleep, powershell}
use cfdev.System.Preserves.{Preserves, Preserves-pure, Preserves-bind, Preserves-if}
use cfdev.System.Leads.{
  Happened, Leads, powershell_op, Leads-first, Leads-then, Leads-either, Preserves-powershell,
}
use cfdev.Network.Aliases.{
  HostNet, notice, turn, netsh, seen, alias_exists, wait_from, wait_for_alias, add_alias, add_each,
  create_switch_if_not_exist, add_loopback_aliases,
}

-- The listing of ipconfig had the address in it.
abbrev pub Answers : System → String → List Op → Type 0
Answers s addr = Happened (λ h o.
    (o ≡ powershell_op "ipconfig")
    × (s.fault h o ≡ none)
    × (contains (codes (s.output h o)) (codes addr) ≡ true))

seen-ok : (r : Result Bool) → seen r ≡ true → r ≡ ok true
unfolding seen
seen-ok (ok b) e = rw e refl
seen-ok (err x) e = cc

module _ (s : System) (n : HostNet) (addr : String) where
  abbrev P : List Op → Type 0
  P = Answers s addr

  kept : (o : Op) (h : List Op) → P h → P (o ∷ h)
  kept o h q = inr q

  Preserves-alias_exists : (a : String) → Preserves P (alias_exists s n a)
  unfolding alias_exists
  Preserves-alias_exists a =
      Preserves-bind P (powershell s "ipconfig") _
        (Preserves-powershell P s "ipconfig" (kept (powershell_op "ipconfig")))
        (λ out. Preserves-pure P (contains (codes out) (codes a)))

  alias_exists-Answers :
      (h : List Op) → (alias_exists s n addr h).0 ≡ ok true → P (alias_exists s n addr h).1
  unfolding alias_exists powershell ◌>>=◌
  alias_exists-Answers h e = elim (Option-cases (s.fault h (powershell_op "ipconfig"))) [
    | inr (x, f) ↦ absurd (ground (arith, f, e))
    | inl f ↦
        let seen' : contains (codes (s.output h (powershell_op "ipconfig"))) (codes addr) ≡ true =
          ground (arith, f, e) in
        rw (f, powershell) (inl (refl, f, seen'))
  ]

  turn-keeps :
      {A : Type 0} (fired there : Bool) (over found rest : A × List Op)
      → P over.1
      → P found.1
      → P rest.1
      → P (turn fired there over found rest).1
  unfolding turn
  turn-keeps true there over found rest p q r = p
  turn-keeps false true over found rest p q r = q
  turn-keeps false false over found rest p q r = r

  turn-leads :
      (fired there : Bool) (over found rest : Result (Unit {0}) × List Op)
      → over.0 ≢ ok tt
      → (there ≡ true → P found.1)
      → (rest.0 ≡ ok tt → P rest.1)
      → (turn fired there over found rest).0 ≡ ok tt
      → P (turn fired there over found rest).1
  unfolding turn
  turn-leads true there over found rest p q r e = absurd (p e)
  turn-leads false true over found rest p q r e = q refl
  turn-leads false false over found rest p q r e = r e

  Preserves-wait_from : (left : ℕ) (a : String) → Preserves P (wait_from s n left a)
  unfolding wait_from
  Preserves-wait_from zero a h q = q
  Preserves-wait_from (suc left) a h q =
      let p = Preserves-alias_exists a h q in
      turn-keeps (s.fired h) (seen (alias_exists s n a h).0) _ _ _ q p
        (Preserves-wait_from left a (sleep 3 ∷ (alias_exists s n a h).1) (inr p))

  wait_from-Answers : (left : ℕ) → Leads P (wait_from s n left addr)
  unfolding wait_from
  wait_from-Answers zero h u e = cc
  wait_from-Answers (suc left) h u e =
      let polled = alias_exists s n addr h in
      turn-leads (s.fired h) (seen polled.0) _ _ _ (λ e. cc)
        (λ y. alias_exists-Answers h (seen-ok polled.0 y))
        (wait_from-Answers left (sleep 3 ∷ polled.1) tt) e

  Preserves-add_alias : (a : String) → Preserves P (add_alias s n a)
  unfolding add_alias wait_for_alias
  Preserves-add_alias a h q = elim (Option-cases (s.fault h (run (netsh n a)))) [
    | inl f ↦ rw (f, add_alias) (Preserves-wait_from 20 a (run (netsh n a) ∷ h) (inr q))
    | inr (x, f) ↦ rw (f, add_alias) (inr q)
  ]

  add_alias_waits :
      (a : String) (h : List Op)
      → s.fault h (run (netsh n a)) ≡ none
      → add_alias s n a h ≡ wait_from s n 20 a (run (netsh n a) ∷ h)
  unfolding add_alias wait_for_alias
  add_alias_waits a h f = rw (f, add_alias) refl

  add_alias-Answers : Leads P (add_alias s n addr)
  unfolding add_alias
  add_alias-Answers h u e = elim (Option-cases (s.fault h (run (netsh n addr)))) [
    | inl f ↦
        let w = add_alias_waits addr h f in
        rw w (wait_from-Answers 20 (run (netsh n addr) ∷ h) u (sym (ap (λ r. r.0) w) ∙ e))
    | inr (x, f) ↦ absurd (ground (arith, f, e))
  ]

  Preserves-turn : (a : String) (b : Bool) → Preserves P (if b then pure tt else add_alias s n a)
  Preserves-turn a b =
      Preserves-if P b (pure tt) (add_alias s n a) (Preserves-pure P tt) (Preserves-add_alias a)

  Preserves-add_each : (addrs : List String) → Preserves P (add_each s n addrs)
  unfolding add_each
  Preserves-add_each [] = Preserves-pure P tt
  Preserves-add_each (a ∷ addrs) =
      Preserves-bind P (alias_exists s n a) _ (Preserves-alias_exists a) (λ b.
        Preserves-bind P (if b then pure tt else add_alias s n a) _ (Preserves-turn a b)
          (λ u. Preserves-add_each addrs))

  there_or_added :
      (addrs : List String) (b : Bool)
      → (((h : List Op) → (alias_exists s n addr h).0 ≡ ok b → P (alias_exists s n addr h).1)
          × Preserves P ((if b then pure tt else add_alias s n addr) >> add_each s n addrs))
        ⊎ Leads P ((if b then pure tt else add_alias s n addr) >> add_each s n addrs)
  there_or_added addrs true = inl (
    alias_exists-Answers,
    Preserves-bind P (pure tt) _ (Preserves-pure P tt) (λ u. Preserves-add_each addrs),
  )
  there_or_added addrs false =
      inr (Leads-first P (add_alias s n addr) _ add_alias-Answers (λ u. Preserves-add_each addrs))

  first : (addrs : List String) → Leads P (add_each s n (addr ∷ addrs))
  unfolding add_each
  first addrs = Leads-either P (alias_exists s n addr) _ (there_or_added addrs)

module _ (s : System) (n : HostNet) where
  AllAnswer : List String → List Op → Type 0
  AllAnswer addrs h = All (λ a. Answers s a h) addrs

  add_each-AllAnswer : (addrs : List String) → Leads (AllAnswer addrs) (add_each s n addrs)
  unfolding AllAnswer add_each
  add_each-AllAnswer [] h u e = tt
  add_each-AllAnswer (a ∷ addrs) h u e = (
    first s n a addrs h u e,
    Leads-then (AllAnswer addrs) (alias_exists s n a) _
        (λ b. Leads-then (AllAnswer addrs) _ _ (λ u. add_each-AllAnswer addrs)) h u e,
  )

  -- When AddLoopbackAliases returns no error, each address has been seen in a listing of ipconfig
  -- that came to no error.
  pub add_loopback_aliases-Answers :
      (addrs : List String) (h : List Op)
      → (add_loopback_aliases s n addrs h).0 ≡ ok tt
      → All (λ a. Answers s a (add_loopback_aliases s n addrs h).1) addrs
  unfolding add_loopback_aliases AllAnswer
  add_loopback_aliases-Answers addrs h e =
      Leads-then (AllAnswer addrs) (ignoring s (print notice)) _
        (λ t.
          Leads-then (AllAnswer addrs) (create_switch_if_not_exist s n) _
            (λ u. add_each-AllAnswer addrs))
        h tt e
