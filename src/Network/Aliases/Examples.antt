-- ===== src/Network/Aliases/Examples.antt =====
-- The theorem on the aliases of Windows at a host that has one of two addresses.
use cfdev.Common.{refl, All, String, none, List, [], ◌∷◌, length, ltb, if◌then◌else◌}
use cfdev.Runtime.{◌>>=◌}
use cfdev.System.Sample.{host_with}
use cfdev.System.{System, Op}
use cfdev.Network.Aliases.{
  HostNet, alias_exists, wait_from, turn, seen, add_alias, add_each, create_switch_if_not_exist,
  switch_exists, add_loopback_aliases,
}
use cfdev.Network.Aliases.Answering.{Answers, add_loopback_aliases-Answers}

-- The second address is there after five operations, the last of them by netsh.
abbrev listed : List Op → String
listed h = if ltb (length h) 5 then "10.144.0.2" else "10.144.0.2 10.144.0.4"

abbrev host : System
host = host_with (λ h o. none) (λ h o. listed h)

abbrev switch : HostNet
switch = record { vm_switch_name = "cfdev" }

abbrev addrs : List String
addrs = "10.144.0.2" ∷ "10.144.0.4" ∷ []

add_loopback_aliases-Answers_example :
    All (λ a. Answers host a (add_loopback_aliases host switch addrs []).1) addrs
unfolding add_loopback_aliases ◌>>=◌ create_switch_if_not_exist switch_exists add_each add_alias
    alias_exists wait_from turn seen
add_loopback_aliases-Answers_example = add_loopback_aliases-Answers host switch addrs [] refl
