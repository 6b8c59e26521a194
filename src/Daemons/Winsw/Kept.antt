-- ===== src/Daemons/Winsw/Kept.antt =====
-- winsw_windows.go keeps what a `DaemonRunner` promises, over the documented behaviour of winsw.exe
-- and of `Get-Service`.
use cfdev.Common.{
  ◌≡◌, refl, sym, ◌∙◌, ap, inl, inr, String, Bool, true, false, none, List, [], ◌∷◌, arith,
  Bool-cases, Option-cases,
}
use cfdev.Runtime.{Result, ok, err, ◌>>=◌, continue}
use cfdev.System.{System, Op, run, mkdir_all, step, reading, ignoring, observing}
use cfdev.Daemons.{DaemonSpec}
use cfdev.Daemons.Contract.{Implements}
use cfdev.Daemons.Launchd.{is_sure}
use cfdev.Daemons.Winsw.{
  Config, WinSw, winsw, get_service_paths, installed_query, says_running, says_installed,
  executable_path, run_command, copy_binary, create_xml, add_daemon, is_installed, remove_daemon,
  start, status, is_running, stop,
}
use cfdev.Daemons.Winsw.Services.{Services, registry, status_text}

says_running-status_text : (b : Bool) → says_running (status_text b) ≡ b
unfolding says_running
says_running-status_text true = refl
says_running-status_text false = refl

module _ (s : System) (encode : Config → String) (w : WinSw)
    (installed runs : List Op → String → Bool) (y : Services s w installed runs) where
  -- A command that returned no error met no fault, and is the latest operation.
  commanded :
      (path verb : String) (h : List Op)
      → (run_command s encode w path verb h).0 ≡ ok tt
      → (s.fault h (run (path ∷ verb ∷ [])) ≡ none)
        × ((run_command s encode w path verb h).1 ≡ run (path ∷ verb ∷ []) ∷ h)
  unfolding run_command
  commanded path verb h e = elim (Option-cases (s.fault h (run (path ∷ verb ∷ [])))) [
    | inl f ↦ (f, rw (f, run_command) refl)
    | inr (x, f) ↦ absurd (ground (arith, f, e))
  ]

  is_installed_lem :
      (label : String) (h : List Op)
      → is_installed s encode w label h ≡ (ok (installed h label), run (installed_query label) ∷ h)
  unfolding is_installed ◌>>=◌ ignoring says_installed
  is_installed_lem label h = elim (Bool-cases (installed h label)) [
    | inl e ↦ rw (e, y.speaks h label e) refl
    | inr e ↦ rw (e, y.silent h label e) refl
  ]

  module _ (label : String) (h : List Op) where
    abbrev asked : List Op
    asked = run (installed_query label) ∷ h

    asked_runs : runs asked label ≡ runs h label
    asked_runs = (y.query_keeps h label).1

    when_absent : installed h label ≡ false → is_running s encode w label h ≡ (ok false, asked)
    unfolding is_running ◌>>=◌
    when_absent i = rw (is_installed_lem label h, i) refl

    when_present :
        installed h label ≡ true → is_running s encode w label h ≡ status s encode w label asked
    unfolding is_running ◌>>=◌
    when_present i = rw (is_installed_lem label h, i) refl

    status_says :
        (b : Bool)
        → (status s encode w label asked).0 ≡ ok b
        → (b ≡ runs asked label) × (runs (status s encode w label asked).1 label ≡ runs asked label)
    unfolding status ◌>>=◌ reading
    status_says b e =
        elim (Option-cases (s.fault asked (run (executable_path w label ∷ "status" ∷ [])))) [
          | inr (x, f) ↦ absurd (ground (arith, f, e))
          | inl f ↦
              let e' : says_running (s.output asked (run (executable_path w label ∷ "status" ∷ [])))
                  ≡ b =
                ground (arith, f, e) in
              (
                sym e'
                    ∙ ap says_running (y.status asked label f)
                    ∙ says_running-status_text (runs asked label),
                rw f (y.status_keeps asked label),
              )
        ]

    answered :
        (b : Bool)
        → (is_running s encode w label h).0 ≡ ok b
        → (b ≡ runs h label) × (runs (is_running s encode w label h).1 label ≡ runs h label)
    answered b e = elim (Bool-cases (installed h label)) [
      | inl i ↦
          let (said, kept) = status_says b (rw (when_present i) at e) in
          (
            said ∙ asked_runs,
            ap (λ (r : Result Bool × List Op). runs r.1 label) (when_present i) ∙ kept ∙ asked_runs,
          )
      | inr i ↦
          let e' : false ≡ b = ground (arith, when_absent i, e) in
          (
            sym e' ∙ sym (y.only_installed h label i),
            ap (λ (r : Result Bool × List Op). runs r.1 label) (when_absent i) ∙ asked_runs,
          )
    ]

    stopping :
        (b : Bool)
        → (is_running s encode w label h).0 ≡ ok b
        → (stop s encode w label h).0 ≡ ok tt
        → runs (stop s encode w label h).1 label ≡ false
    unfolding stop ◌>>=◌ observing is_sure
    stopping true a e =
        let h' = (is_running s encode w label h).1 in
        let (f, history) = commanded (executable_path w label) "stop" h' (rw a at e) in
        rw a (ap (λ (k : List Op). runs k label) history ∙ y.stops h' label f)
    stopping false a e = let (is_so, kept) = answered false a in rw a (kept ∙ sym is_so)

    removing :
        (remove_daemon s encode w label h).0 ≡ ok tt
        → installed (remove_daemon s encode w label h).1 label ≡ false
    unfolding remove_daemon ◌>>=◌
    removing e = elim (Bool-cases (installed h label)) [
      | inl i ↦
          let (f, history) =
            commanded (executable_path w label) "uninstall" asked
              (rw (is_installed_lem label h, i) at e) in
          rw (is_installed_lem label h, i)
            (ap (λ (k : List Op). installed k label) history ∙ y.uninstalls asked label f)
      | inr i ↦ rw (is_installed_lem label h, i) ((y.query_keeps h label).0 ∙ i)
    ]

  module _ (label : String) where
    started :
        (h : List Op)
        → (start s encode w label h).0 ≡ ok tt
        → runs (start s encode w label h).1 label ≡ true
    unfolding start
    started h e =
        let (f, history) = commanded (executable_path w label) "start" h e in
        ap (λ (k : List Op). runs k label) history ∙ y.starts h label f

    -- A promise of the last part holds of the whole.
    through :
        (f : List Op → Result (Unit {0}) × List Op)
        → ((h : List Op) → (f h).0 ≡ ok tt → installed (f h).1 label ≡ true)
        → (r : Result (Unit {0})) (h : List Op) → (continue r (λ u. f) h).0 ≡ ok tt
        → installed (continue r (λ u. f) h).1 label ≡ true
    through f last (err x) h e = cc e
    through f last (ok tt) h e = last h e

    installed_by :
        (h : List Op)
        → (run_command s encode w (executable_path w label) "install" h).0 ≡ ok tt
        → installed (run_command s encode w (executable_path w label) "install" h).1 label ≡ true
    installed_by h e =
        let (f, history) = commanded (executable_path w label) "install" h e in
        ap (λ (k : List Op). installed k label) history ∙ y.installs h label f

  adding :
      (spec : DaemonSpec) (h : List Op)
      → (add_daemon s encode w spec h).0 ≡ ok tt
      → installed (add_daemon s encode w spec h).1 spec.label ≡ true
  unfolding add_daemon ◌>>=◌
  adding spec h e =
      let label = spec.label in
      let dst = (get_service_paths label w.services_dir).0 in
      through label _
        (λ h.
          through label _
            (λ h.
              through label _ (installed_by label) (create_xml s encode w dst spec h).0
                (create_xml s encode w dst spec h).1)
            (copy_binary s encode w w.binary_path (executable_path w label) h).0
            (copy_binary s encode w w.binary_path (executable_path w label) h).1)
        (step s (mkdir_all dst) h).0 (step s (mkdir_all dst) h).1 e

  -- WinSW keeps what a `DaemonRunner` promises, if winsw.exe and `Get-Service` do what they are
  -- documented to do.
  pub winsw-Implements : Implements (winsw s encode w) (registry installed runs)
  unfolding winsw
  winsw-Implements = record {
    answers = λ label h b named e. answered label h b e;
    adds = λ spec h named e. adding spec h e;
    starts = λ label h named e. started label h e;
    stops = λ label h b named a e. stopping label h b a e;
    removes = λ label h named e. removing label h e;
  }
