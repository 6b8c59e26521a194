-- ===== src/Network/Aliases.antt =====
-- network/ip_aliaser_windows.go and network/ip_aliaser_darwin.go: the addresses that the host answers
-- to, on a virtual switch of Hyper-V or by the privileged helper.
pub mod Answering
pub mod Examples
use cfdev.Common.{
  ℕ, zero, suc, String, ◌<>◌, Bool, true, false, not, none, some, List, [], ◌∷◌, ◌=s◌,
  if◌then◌else◌,
}
use cfdev.Common.Text.{codes, contains}
use cfdev.Errors.{Error, plain}
use cfdev.Runtime.{Result, ok, err, ◌>>=◌, ◌>>◌, pure}
use cfdev.System.{System, Op, Run, message, run, sleep, print, powershell, ignoring}

-- `HostNet` of Windows.
pub record HostNet : Type 0 where
  pub vm_switch_name : String

abbrev notice : String
notice =
    "Setting up IP aliases for the BOSH Director & CF Router (requires administrator privileges)\n"

-- `loopback`
loopback : HostNet → String
loopback n = "vEthernet (" <> n.vm_switch_name <> ")"

abbrev timed_out : String → Error
timed_out addr = plain ("timed out waiting for alias " <> addr)

abbrev switch_query : HostNet → String
switch_query n = "Get-VMSwitch " <> n.vm_switch_name <> "*"

abbrev netsh : HostNet → String → List String
netsh n alias =
    "netsh" ∷ "interface" ∷ "ip" ∷ "add" ∷ "address" ∷ loopback n ∷ alias ∷ "255.255.255.255" ∷ []

seen : Result Bool → Bool
seen (ok b) = b
seen (err e) = false

-- A turn of the wait: whether the minute is over, whether the address is there, and what follows.
turn : {A : Type 0} → Bool → Bool → A → A → A → A
turn true there over found rest = over
turn false true over found rest = found
turn false false over found rest = rest

module _ (s : System) (n : HostNet) where
  -- `switchExists`
  switch_exists : Run Bool
  unfolding powershell
  switch_exists = do out ← powershell s (switch_query n); pure (not (out =s ""))

  -- `createSwitchIfNotExist`
  create_switch_if_not_exist : Run (Unit {0})
  unfolding powershell
  create_switch_if_not_exist = do
    there ← switch_exists
    if there
        then pure ""
        else powershell s (
            "New-VMSwitch -Name " <> n.vm_switch_name
            <> " -SwitchType Internal -Notes 'Switch for CF Dev Networking'")
    pure tt

  -- `aliasExists`
  alias_exists : String → Run Bool
  unfolding powershell
  alias_exists alias = do out ← powershell s "ipconfig"; pure (contains (codes out) (codes alias))

  -- `waitForAlias`: the poll against the timer of one minute. An error of a poll counts as an
  -- address that is not there. After `left` more pauses of three seconds the minute is over.
  wait_from : ℕ → String → List Op → Result (Unit {0}) × List Op
  unfolding alias_exists seen turn
  wait_from zero addr h = (err (timed_out addr), h)
  wait_from (suc left) addr h =
      let polled = alias_exists addr h in
      turn (s.fired h) (seen polled.0) (err (timed_out addr), h) (ok tt, polled.1)
        (wait_from left addr (sleep 3 ∷ polled.1))

  wait_for_alias : String → Run (Unit {0})
  unfolding wait_from
  wait_for_alias addr = wait_from 20 addr

  netsh_failure : String → String → String → Error
  unfolding loopback
  netsh_failure alias e out =
      plain
        ("failed to add network alias: " <> loopback n <> ", " <> alias <> ", " <> e <> ", " <> out)

  -- `addAlias`
  add_alias : String → Run (Unit {0})
  unfolding wait_for_alias netsh_failure loopback
  add_alias alias h =
      let o = run (netsh n alias) in
      elim (s.fault h o) [
        | some e ↦ (err (netsh_failure alias (message e) (s.output h o)), o ∷ h)
        | none ↦ wait_for_alias alias (o ∷ h)
      ]

  -- The loop of `AddLoopbackAliases`.
  add_each : List String → Run (Unit {0})
  unfolding alias_exists add_alias
  add_each [] = pure tt
  add_each (addr ∷ addrs) = do
    there ← alias_exists addr
    if there then pure tt else add_alias addr
    add_each addrs

  -- `AddLoopbackAliases`
  pub add_loopback_aliases : List String → Run (Unit {0})
  unfolding ignoring create_switch_if_not_exist add_each
  add_loopback_aliases addrs = do
    _shown ← ignoring s (print notice)
    create_switch_if_not_exist
    add_each addrs

  -- `RemoveLoopbackAliases`
  remove_loopback_aliases : List String → Run (Unit {0})
  unfolding switch_exists powershell
  remove_loopback_aliases addrs = do
    there ← switch_exists
    if there
        then powershell s ("Remove-VMSwitch -Name " <> n.vm_switch_name <> " -force")
        else pure ""
    pure tt

-- On macOS the client of cfdevd sets the aliases; what its calls return is a parameter.
module _ (s : System) where
  add_by_cfdevd : Run String → Run (Unit {0})
  unfolding ignoring
  add_by_cfdevd add_ip_alias = do
    _shown ← ignoring s (print notice)
    _status ← add_ip_alias
    pure tt

  remove_by_cfdevd : Run String → Run (Unit {0})
  remove_by_cfdevd remove_ip_alias = do _status ← remove_ip_alias; pure tt
