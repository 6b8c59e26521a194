-- ===== src/Bosh/Progress.antt =====
-- GetVMProgress of bosh/bosh.go: how far a deployment is. What the director answers is a parameter.
use cfdev.Common.{
  ℕ, zero, suc, ◌+◌, String, Bool, true, false, ◌&&◌, Option, none, some, List, [], ◌∷◌, ◌=s◌, ltb,
  length, arith, ◌≤◌, if◌then◌else◌,
}
use cfdev.Errors.{Error}
use cfdev.Runtime.{Result, ok, err}

-- A machine of a deployment: the state of its process, and how many processes it has.
pub record VmInfo : Type 0 where
  pub process_state : String
  pub processes : ℕ

pub record Director : Type 0 where
  -- The error of each try to find the deployment.
  pub find_deployment : ℕ → Option Error
  pub vm_infos : Result (List VmInfo)
  pub releases : Result ℕ

-- `VMProgress`, without the duration.
pub data VmProgress : Type 0 where
  uploading_releases : ℕ → VmProgress
  deploying : ℕ → ℕ → VmProgress
  running_errand : VmProgress

is_done : VmInfo → Bool
is_done v = v.process_state =s "running" && ltb 0 v.processes

count_done : List VmInfo → ℕ
unfolding is_done
count_done [] = 0
count_done (v ∷ vs) = let rest = count_done vs in if is_done v then suc rest else rest

-- The machines; an error of the director leaves none.
infos_or_none : Result (List VmInfo) → List VmInfo
infos_or_none (ok vs) = vs
infos_or_none (err e) = []

machines : List VmInfo → VmProgress
unfolding count_done
machines vs = deploying (count_done vs) (length vs)

-- Without machines, the releases that are there; if these cannot be had, no machine of none.
without_machines : Result ℕ → VmProgress
without_machines (ok n) = uploading_releases n
without_machines (err e) = deploying 0 0

progress_of : List VmInfo → Result ℕ → VmProgress
unfolding machines without_machines
progress_of [] releases = without_machines releases
progress_of (v ∷ vs) releases = machines (v ∷ vs)

module _ (d : Director) where
  -- The loop that looks for the deployment, for up to `fuel` tries after `n` of them.
  found : ℕ → ℕ → Bool
  found zero n = false
  found (suc fuel) n = elim (d.find_deployment n) [ none ↦ true | some e ↦ found fuel (n + 1) ]

  -- `GetVMProgress`; `none` means that the deployment is still looked for.
  get_vm_progress : ℕ → Bool → Option VmProgress
  unfolding found infos_or_none progress_of
  get_vm_progress fuel is_errand =
      if is_errand
      then some running_errand
      else (if found fuel 0 then some (progress_of (infos_or_none d.vm_infos) d.releases) else none)

-- A progress that says how many machines are done never says more than there are.
count_done-le : (vs : List VmInfo) → count_done vs ≤ length vs
unfolding count_done
count_done-le [] = omega arith
count_done-le (v ∷ vs) = ground (arith, count_done-le vs)
