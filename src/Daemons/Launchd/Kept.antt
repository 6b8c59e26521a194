-- ===== src/Daemons/Launchd/Kept.antt =====
-- launchd_darwin.go keeps what a `DaemonRunner` promises, over the documented behaviour of launchctl.
use cfdev.Common.{
  ◌≡◌, ◌≢◌, refl, sym, ◌∙◌, ap, inl, inr, String, Bool, true, false, List, [], ◌∷◌, arith,
  Option-cases,
}
use cfdev.Common.Text.{codes, contains, split}
use cfdev.Runtime.{continue, Result, ok, err, ◌>>=◌}
use cfdev.System.{System, Op, run, create, write_file, step, reading, observing, result-none}
use cfdev.Daemons.{DaemonSpec}
use cfdev.Daemons.Contract.{Implements}
use cfdev.Daemons.Launchd.{
  plist, plist_path, Launchd, launchd, running_in, is_sure, list, is_running, is_loaded, remove,
  load, write_plist, add_daemon, remove_plist, remove_daemon, start, stop,
}
use cfdev.Daemons.Launchd.Table.{Job, table, runs, has_job, running_in-table, unlisted}
use cfdev.Daemons.Launchd.Launchctl.{Launchctl, registry}

module _ (s : System) (jobs : List Op → List Job) (y : Launchctl s jobs) where
  abbrev listing_op : Op
  listing_op = run ("launchctl" ∷ "list" ∷ [])

  answered :
      (label : String) (h : List Op) (b : Bool)
      → label ≢ "Label"
      → (is_running s label h).0 ≡ ok b
      → (b ≡ runs (jobs h) label) × ((is_running s label h).1 ≡ listing_op ∷ h)
  unfolding is_running ◌>>=◌ list reading
  answered label h b other e = elim (Option-cases (s.fault h listing_op)) [
    | inr (x, f) ↦ absurd (ground (arith, f, e))
    | inl f ↦
        let e' : running_in (split b'\n' (s.output h listing_op)) label ≡ b =
          ground (arith, f, e) in
        (
          sym e'
              ∙ ap (λ t. running_in (split b'\n' t) label) (y.listing h f)
              ∙ running_in-table (jobs h) label (y.rows_are_words h) other,
          rw f refl,
        )
  ]

  still :
      (label : String) (h h' : List Op)
      → h' ≡ listing_op ∷ h
      → runs (jobs h') label ≡ runs (jobs h) label
  still label h h' e =
      ap (λ k. runs (jobs k) label) e ∙ ap (λ js. runs js label) (y.listing_keeps h)

  kept_start :
      (label : String) (h : List Op)
      → (start s label h).0 ≡ ok tt
      → runs (jobs (start s label h).1) label ≡ true
  unfolding start step
  kept_start label h e = y.starts h label (result-none _ _ e)

  module _ (label : String) (h : List Op) where
    stopping :
        (b : Bool)
        → (is_running s label h).0 ≡ ok b
        → (is_running s label h).1 ≡ listing_op ∷ h
        → b ≡ runs (jobs h) label
        → (stop s label h).0 ≡ ok tt
        → runs (jobs (stop s label h).1) label ≡ false
    unfolding stop ◌>>=◌ observing is_sure step
    stopping true a k r e =
        rw a (y.stops (is_running s label h).1 label (result-none _ tt (rw a at e)))
    stopping false a k r e = rw a (still label h (is_running s label h).1 k ∙ sym r)

  -- What is left of `RemoveDaemon` changes no job.
  unplist :
      (path label : String) (h : List Op)
      → has_job (jobs h) label ≡ false
      → has_job (jobs (remove_plist s path h).1) label ≡ false
  unfolding remove_plist
  unplist path label h e = ap (λ js. has_job js label) (y.removal_keeps h path) ∙ e

  loaded_query :
      (label : String) (h : List Op) (b : Bool)
      → (is_loaded s label h).0 ≡ ok b
      → (b ≡ contains (codes (table (jobs h))) (codes label))
        × ((is_loaded s label h).1 ≡ listing_op ∷ h)
  unfolding is_loaded ◌>>=◌ list reading
  loaded_query label h b e = elim (Option-cases (s.fault h listing_op)) [
    | inr (x, f) ↦ absurd (ground (arith, f, e))
    | inl f ↦
        let e' : contains (codes (s.output h listing_op)) (codes label) ≡ b =
          ground (arith, f, e) in
        (sym e' ∙ ap (λ t. contains (codes t) (codes label)) (y.listing h f), rw f refl)
  ]

  module _ (l : Launchd) (label : String) where
    removed_after :
        (r : Result (Unit {0})) (h : List Op)
        → (r ≡ ok tt → has_job (jobs h) label ≡ false)
        → (continue r (λ u. remove_plist s (plist_path l label)) h).0 ≡ ok tt
        → has_job (jobs (continue r (λ u. remove_plist s (plist_path l label)) h).1) label ≡ false
    removed_after (err x) h gone e = cc e
    removed_after (ok tt) h gone e = unplist (plist_path l label) label h (gone refl)

    gone_by_command :
        (h : List Op)
        → (remove s label h).0 ≡ ok tt
        → has_job (jobs (remove s label h).1) label ≡ false
    unfolding remove step
    gone_by_command h e = y.removes h label (result-none _ tt e)

    not_loaded :
        (h : List Op)
        → (is_loaded s label h).0 ≡ ok false
        → has_job (jobs (is_loaded s label h).1) label ≡ false
    not_loaded h e =
        let (unseen, history) = loaded_query label h false e in
        ap (λ k. has_job (jobs k) label) history
        ∙ ap (λ js. has_job js label) (y.listing_keeps h)
        ∙ unlisted (jobs h) label (sym unseen)

    removing :
        (h : List Op) (r : Result Bool)
        → (is_loaded s label h).0 ≡ r
        → (remove_daemon s l label h).0 ≡ ok tt
        → has_job (jobs (remove_daemon s l label h).1) label ≡ false
    unfolding remove_daemon ◌>>=◌
    removing h (err x) q e = cc (rw q at e)
    removing h (ok true) q e =
        let h' = (is_loaded s label h).1 in
        rw q (
          removed_after (remove s label h').0 (remove s label h').1 (gone_by_command h')
            (rw q at e))
    removing h (ok false) q e =
        rw q (unplist (plist_path l label) label (is_loaded s label h).1 (not_loaded h q))

  module _ (l : Launchd) (spec : DaemonSpec) where
    abbrev path : String
    path = plist_path l spec.label

    loaded :
        (r : Result (Unit {0})) (h : List Op)
        → (continue r (λ u. load s path spec) (write_file path (plist spec) ∷ h)).0 ≡ ok tt
        → has_job
            (jobs (continue r (λ u. load s path spec) (write_file path (plist spec) ∷ h)).1)
            spec.label
          ≡ true
    unfolding load step
    loaded (err x) h e = cc e
    loaded (ok tt) h e = y.loads h path spec (result-none _ tt e)

    adding :
        (h : List Op)
        → (add_daemon s l spec h).0 ≡ ok tt
        → has_job (jobs (add_daemon s l spec h).1) spec.label ≡ true
    unfolding add_daemon ◌>>=◌ observing write_plist step
    adding h e = elim (Option-cases (s.fault (remove s spec.label h).1 (create path))) [
      | inr (x, f) ↦ absurd (ground (arith, f, e))
      | inl f ↦ rw f (loaded _ (create path ∷ (remove s spec.label h).1) (rw f at e))
    ]

  -- `Launchd` keeps what a `DaemonRunner` promises, if launchctl does what its manual says and
  -- prints its jobs without white space in a field; for every label but the word over the column.
  pub launchd-Implements : (l : Launchd) → Implements (launchd s l) (registry jobs)
  unfolding launchd
  launchd-Implements l = record {
    answers = λ label h b other e.
        let (is_so, history) = answered label h b other e in (is_so, still label h _ history);
    adds = λ spec h other e. adding l spec h e;
    starts = λ label h other e. kept_start label h e;
    stops = λ label h b other a e.
        let (is_so, history) = answered label h b other a in stopping label h b a history is_so e;
    removes = λ label h other e. removing l label h (is_loaded s label h).0 refl e;
  }
