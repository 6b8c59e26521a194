-- ===== src/Network/CfdevD.antt =====
-- network/cfdevd.go: whether cfdevd is installed, and its installation by sudo.
use cfdev.Common.{
  String, ◌<>◌, Bool, true, false, not, none, some, List, [], ◌∷◌, ◌=s◌, if◌then◌else◌,
}
use cfdev.Runtime.{◌>>=◌}
use cfdev.System.{System, Op, Run, missing, other, run, read_file, dial, print, step, ignoring}

-- `CFDevD`
pub record CfdevD : Type 0 where
  pub executable_path : String
  pub time_sync_socket : String

-- The MD5 of a file's contents is a parameter.
module _ (s : System) (md5 : String → String) where
  answers : String → List Op → Bool × List Op
  answers sock_path h = elim (s.fault h (dial sock_path)) [
    | none ↦ (true, dial sock_path ∷ h)
    | some e ↦ (false, dial sock_path ∷ h)
  ]

  -- `IsCFDevDInstalled`
  is_cfdevd_installed : String → String → String → List Op → Bool × List Op
  unfolding answers
  is_cfdevd_installed sock_path bin_path expected h =
      let o = read_file bin_path in
      elim (s.fault h o) [
        | some (missing e) ↦ (false, o ∷ h)
        | some (other e) ↦ (false, print ("failed to get md5  " <> bin_path <> "\n") ∷ o ∷ h)
        | none ↦
            if not (md5 (s.output h o) =s expected)
            then (false, o ∷ h)
            else answers sock_path (o ∷ h)
      ]

module _ (s : System) where
  -- `Install`
  install : CfdevD → Run (Unit {0})
  unfolding ignoring step
  install c = do
    _shown ← ignoring s (print "Installing networking components (requires root privileges)\n")
    step s (
        run (
          "sudo" ∷ "-S" ∷ c.executable_path ∷ "install" ∷ "--timesyncSock" ∷ c.time_sync_socket
          ∷ []))
