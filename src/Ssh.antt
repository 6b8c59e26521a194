-- ===== src/Ssh.antt =====
-- ssh/ssh.go: commands and files over SSH.
use cfdev.Common.{ℕ, zero, suc, String, ◌<>◌, true, false, Option, none, some, List, ◌∷◌}
use cfdev.Common.Decimal.{show_nat}
use cfdev.Common.Paths.{dir_name}
use cfdev.Errors.{plain}
use cfdev.Runtime.{Result, ok, err, ◌>>=◌, ◌>>◌, raise}
use cfdev.System.{
  Fault, System, Op, Run, message, read_file, create, ssh_dial, ssh_session, ssh_run, sleep, step,
}

-- `SSHAddress`
pub record SshAddress : Type 0 where
  pub ip : String
  pub port : String

contents_or_empty : Option Fault → String → String
contents_or_empty none text = text
contents_or_empty (some e) text = ""

-- The error of parsing a private key, and the number of bytes of a text, are parameters.
module _ (s : System) (key_error : String → Option String) (bytes : String → ℕ) where
  -- The loop of `waitForSSH`: tries until one succeeds or the timer has fired, a second apart, so
  -- that after `left` more pauses the time is over. `failure` is the text of the last error.
  unfoldable pub dial_from : ℕ → String → String → List Op → Result (Unit {0}) × List Op
  dial_from zero failure address h = (err (plain ("ssh connection timed out: " <> failure)), h)
  dial_from (suc left) failure address h = elim (s.fired h) [
    | true ↦ (err (plain ("ssh connection timed out: " <> failure)), h)
    | false ↦ elim (s.fault h (ssh_dial address)) [
      | none ↦ (ok tt, ssh_dial address ∷ h)
      | some e ↦ dial_from left (message e) address (sleep 1 ∷ ssh_dial address ∷ h)
    ]
  ]

  -- `waitForSSH`. Go prints an error that is nil so.
  unfoldable pub wait_for_ssh : SshAddress → String → ℕ → Run (Unit {0})
  unfolding dial_from
  wait_for_ssh address key timeout = elim (key_error key) [
    | some e ↦ raise (plain ("could not parse private key: " <> e))
    | none ↦ dial_from timeout "%!s(<nil>)" (address.ip <> ":" <> address.port)
  ]

  -- `newSession`
  unfoldable pub new_session : SshAddress → String → ℕ → Run (Unit {0})
  unfolding wait_for_ssh step
  new_session address key timeout = do wait_for_ssh address key timeout; step s ssh_session

  -- The contents of a local file; an error leaves none.
  local_contents : String → List Op → Result String × List Op
  unfolding contents_or_empty
  local_contents path h =
      let o = read_file path in (ok (contents_or_empty (s.fault h o) (s.output h o)), o ∷ h)

  -- What `scp` reads.
  scp_input : String → String → String
  scp_input contents remote =
      "C0755 " <> show_nat (bytes contents) <> " " <> remote <> "\n" <> contents <> "\0\n"

  -- `CopyFile`
  unfoldable pub copy_file : String → String → SshAddress → String → ℕ → Run (Unit {0})
  unfolding new_session local_contents scp_input step
  copy_file path remote address key timeout = do
    new_session address key timeout
    contents ← local_contents path
    step s (ssh_run ("/usr/bin/scp -qt " <> dir_name remote) (scp_input contents remote))

  -- `RetrieveFile`
  unfoldable pub retrieve_file : String → String → SshAddress → String → ℕ → Run (Unit {0})
  unfolding new_session step
  retrieve_file path remote address key timeout = do
    new_session address key timeout
    step s (create path)
    step s (ssh_run ("cat " <> remote) "")

  -- `RunSSHCommand`
  unfoldable pub run_ssh_command : String → SshAddress → String → ℕ → Run (Unit {0})
  unfolding new_session step
  run_ssh_command command address key timeout = do
    new_session address key timeout
    step s (ssh_run command "")
