-- ===== src/Commands/Start/Order.antt =====
-- The order in which `cf dev start` may act, and the proof that it does.
use cfdev.Common.{refl, String, Bool, List, []}
use cfdev.Resource.{Item}
use cfdev.Runtime.{
  say, event, set_prop, toggle_enabled, available_memory, total_memory, check_requirements,
  vm_is_running, analyticsd_start, World,
}
use cfdev.Runtime.Protocol.{Kind, covers}
use cfdev.Runtime.Keeps.{
  Ordered, Post, Keeps-call, Keeps-ask, Keeps-peek, Keeps-return, Keeps-wrapping, Keeps-weaken,
}
use cfdev.Runtime.Steps.{chain, shown, branch}
use cfdev.Commands.Protocol.{host_ready, start_requires, InOrder}
use cfdev.Commands.Provision
use cfdev.Commands.Stop.Order.{run_e-InOrder}
use cfdev.Commands.Provision.Order.{before_provision, deployed}
use cfdev.Commands.Provision.{Args, compatibility_version}
use cfdev.Commands.Start.{
  Outcome, already_running, not_provisioned, provisioned, report_telemetry, provision_vm, bring_up,
  execute,
}
use cfdev.Commands.Start.Phases.{
  vm_ready, choose_deps-InOrder, set_up-InOrder, read_assets-InOrder, launch-InOrder,
}

-- What has surely succeeded at each of the ways in which a start ends without an error.
abbrev pub achieved : Outcome → List Kind
achieved already_running = host_ready
achieved not_provisioned = vm_ready
achieved provisioned = deployed

module _ (w : World) where
  provision_vm-InOrder : (args : Args) → InOrder w vm_ready (provision_vm w args) achieved
  unfolding provision_vm report_telemetry covers
  provision_vm-InOrder args =
      branch args.no_provision
        (chain (shown (say _) refl) λ _. Keeps-return w start_requires not_provisioned achieved)
        (chain
          (Keeps-weaken w start_requires before_provision vm_ready _ _ refl
            (Provision.Order.execute-InOrder w args))
          λ _. chain (Keeps-peek w start_requires _ toggle_enabled refl w.flag) λ enabled.
            chain
              (branch enabled (shown analyticsd_start refl)
                (Keeps-return w start_requires tt (λ _. deployed)))
              λ _.
                chain (shown (event _) refl)
                  λ _. Keeps-return w start_requires provisioned achieved)

  bring_up-InOrder :
      (darwin : Bool) (args : Args) (name : String) (deps : List Item)
      → InOrder w host_ready (bring_up w darwin args name deps) achieved
  unfolding bring_up
  bring_up-InOrder darwin args name deps =
      chain (Keeps-wrapping w start_requires _ _ _ _ (run_e-InOrder w darwin)) λ _.
        chain (set_up-InOrder w darwin deps) λ _.
          chain (read_assets-InOrder w args name)
            λ metadata. chain (launch-InOrder w args metadata) λ _. provision_vm-InOrder args

  execute-InOrder :
      (darwin : Bool) (deps : List Item) (args : Args)
      → InOrder w [] (execute w darwin deps args) achieved
  unfolding execute covers
  execute-InOrder darwin deps args = chain (choose_deps-InOrder w args deps) λ chosen.
      chain (shown (set_prop _ _) refl) λ _. chain (shown available_memory refl) λ _.
        chain (shown total_memory refl) λ _.
          chain (Keeps-call w start_requires [] check_requirements refl) λ _.
            chain
              (Keeps-wrapping w start_requires _ _ _ _
                (Keeps-ask w start_requires _ vm_is_running refl w.flag))
              λ running.
                branch running
                  (chain (shown (say _) refl) λ _.
                    chain (shown (event _) refl)
                      λ _. Keeps-return w start_requires already_running achieved)
                  (bring_up-InOrder darwin args chosen.0 chosen.1)

-- On every host, platform and command line, `cf dev start` makes each call only after the calls
-- that `start_requires` names for it have succeeded: a virtual machine is created only after the
-- old one and its network have been torn down and the assets have been fetched, unpacked and read;
-- vpnkit starts before the machine, the machine before it is pinged, and the deployments follow
-- one another. A start that returns no error has achieved what its outcome says.
pub execute-IsOrdered :
    (w : World) (darwin : Bool) (dependencies : List Item) (args : Args)
    → let (r, h) = execute w darwin dependencies args [] in
      Ordered w start_requires h × Post w achieved r h
execute-IsOrdered w darwin dependencies args =
    (execute-InOrder w darwin dependencies args).at [] tt tt
