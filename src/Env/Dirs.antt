-- ===== src/Env/Dirs.antt =====
-- What CreateDirs of env/env.go does to the disk.
use cfdev.Common.{◌≡◌, refl, ◌∙◌, ap, subst, inl, inr, none, List, [], ◌∷◌, arith, Option-cases}
use cfdev.Runtime.{Result, ok, err}
use cfdev.Configuration.{Config}
use cfdev.Env.{
  Action, remove_all, mkdir_all, Disk, each, remove_dir_alls, mkdir_alls, after_removal,
  create_dirs,
}

-- All actions in turn.
abbrev pub history_of : List Action → List Action → List Action
history_of [] h = h
history_of (a ∷ actions) h = history_of actions (a ∷ h)

module _ (disk : Disk) where
  -- Each action in turn has succeeded.
  abbrev pub AllDone : List Action → List Action → Type 0
  AllDone [] h = Unit
  AllDone (a ∷ actions) h = (disk h a ≡ none) × AllDone actions (a ∷ h)

  each-AllDone :
      (actions h : List Action)
      → (each disk actions h).0 ≡ ok tt
      → ((each disk actions h).1 ≡ history_of actions h) × AllDone actions h
  unfolding each
  each-AllDone [] h done = (refl, tt)
  each-AllDone (a ∷ actions) h done = elim (Option-cases (disk h a)) [
    | inr (x, e) ↦ absurd (ground (arith, e, done))
    | inl e ↦
        let (history, all) = each-AllDone actions (a ∷ h) (ground (arith, e, done)) in
        (rw (e, each) history, (e, all))
  ]

abbrev pub removals : Config → List Action
removals c = remove_all c.log_dir ∷ remove_all c.services_dir ∷ remove_all c.state_dir ∷ []

abbrev pub creations : Config → List Action
creations c =
    mkdir_all c.cfdev_home
    ∷ mkdir_all c.cache_dir
    ∷ mkdir_all c.vpnkit_state_dir
    ∷ mkdir_all c.state_linuxkit
    ∷ mkdir_all c.state_bosh
    ∷ mkdir_all c.services_dir
    ∷ mkdir_all c.log_dir
    ∷ []

after_removal-AllDone :
    (disk : Disk) (c : Config) (r : Result (Unit {0})) (h : List Action)
    → (after_removal disk c r h).0 ≡ ok tt
    → (r ≡ ok tt)
      × ((after_removal disk c r h).1 ≡ history_of (creations c) h)
      × AllDone disk (creations c) h
unfolding after_removal mkdir_alls
after_removal-AllDone disk c (err e) h done = absurd (ground (arith, done))
after_removal-AllDone disk c (ok tt) h done =
    let (history, all) = each-AllDone disk (creations c) h done in (refl, history, all)

-- If `CreateDirs` returns no error, then the logs, the services and the state of an earlier run
-- were removed first, every directory was made after that, and nothing else was done.
pub create_dirs-AllDone :
    (disk : Disk) (c : Config) (h : List Action)
    → (create_dirs disk c h).0 ≡ ok tt
    → ((create_dirs disk c h).1 ≡ history_of (creations c) (history_of (removals c) h))
      × AllDone disk (removals c) h
      × AllDone disk (creations c) (history_of (removals c) h)
unfolding create_dirs remove_dir_alls
create_dirs-AllDone disk c h done =
    let removed = remove_dir_alls disk (c.log_dir ∷ c.services_dir ∷ c.state_dir ∷ []) h in
    let (passed, made, all_made) = after_removal-AllDone disk c (removed.0) (removed.1) done in
    let (history, all_removed) = each-AllDone disk (removals c) h passed in
    (
      made ∙ ap (history_of (creations c)) history,
      all_removed,
      subst (AllDone disk (creations c)) history all_made,
    )
