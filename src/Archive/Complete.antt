-- ===== src/Archive/Complete.antt =====
-- What `Untar` of resource/tar_util.go has written when it returns no error.
use cfdev.Common.{
  ◌≡◌, ◌∙◌, subst, refl, sym, ap, inl, inr, String, Bool, true, false, not, ◌&&◌, Option, none,
  some, List, [], ◌∷◌, ◌==◌, ◌=s◌, length, Among, arith, Bool-cases, Option-cases, if◌then◌else◌,
}
use cfdev.Errors.{Error}
use cfdev.Runtime.{Result, ok, err, ◌>>=◌, pure, continue}
use cfdev.System.{System, Op, open_file, write_file, step}
use cfdev.Archive.{
  TarOpts, Entry, Place, place, make, copy, copy_at, copy_if_match, copy_current_file_if_match,
  untar_entries,
}
use cfdev.Archive.Placed.{entries_kept}

-- Where the first option that wants a member puts it.
abbrev pub first_place : List TarOpts → Entry → Option Place
first_place [] e = none
first_place (t ∷ opts) e = elim (place t e) [ some p ↦ some p | none ↦ first_place opts e ]

module _ (s : System) (e : Entry) (p : Place) where
  abbrev written : Op
  written = write_file p.target e.contents

  copy-written :
      (b b' : Bool) (d : Result (Unit {0})) (h : List Op)
      → (continue d (λ u. copy s e p.target >>= λ v. pure b) h).0 ≡ ok b'
      → Among written (continue d (λ u. copy s e p.target >>= λ v. pure b) h).1
  unfolding copy ◌>>=◌ step
  copy-written b b' (err x) h done = cc done
  copy-written b b' (ok u) h done = elim (Option-cases (s.fault h (open_file p.target e.mode))) [
    | inr (x, f) ↦ absurd (ground (arith, f, done))
    | inl f ↦ elim (Option-cases (s.fault (open_file p.target e.mode ∷ h) written)) [
      | inl g ↦ rw (f, g) (inl refl)
      | inr (x, g) ↦ rw (f, g) (inl refl)
    ]
  ]

  module _ (file : e.is_dir ≡ false) (named : (p.target =s "") ≡ false) (single : Bool) where
    -- The step of the loop at an option.
    at_option :
        (t : TarOpts) (opts : List TarOpts) (o : Option Place)
        → place t e ≡ o
        → copy_if_match s single (t ∷ opts) e
          ≡ copy_at s single (copy_if_match s single opts e) t e o
    unfolding copy_if_match
    at_option t opts o q =
        ap
          (λ (b : Bool).
            if b
            then pure false
            else copy_at s single (copy_if_match s single opts e) t e (place t e))
          file
        ∙ ap (copy_at s single (copy_if_match s single opts e) t e) q

    at_place :
        (rest : List Op → Result Bool × List Op) (t : TarOpts) (h : List Op) (b : Bool)
        → (copy_at s single rest t e (some p) h).0 ≡ ok b
        → Among written (copy_at s single rest t e (some p) h).1
    unfolding copy_at ◌>>=◌
    at_place rest t h b done = rw named (
        copy-written (single && not (t.include_file =s "")) b (make s p.directory h).0
          (make s p.directory h).1 (rw named at done))

    entry-written :
        (opts : List TarOpts) (h : List Op) (b : Bool)
        → first_place opts e ≡ some p
        → (copy_if_match s single opts e h).0 ≡ ok b
        → Among written (copy_if_match s single opts e h).1
    unfolding copy_at
    entry-written [] h b first done = cc first
    entry-written (t ∷ opts) h b first done = elim (Option-cases (place t e)) [
      | inl q ↦
          let same = at_option t opts none q in
          rw same (
            unfold copy_at in
            entry-written opts h b (rw (q, first_place) at first)
              (unfold copy_at in rw same at done))
      | inr (p', q) ↦
          let is_p : some p' ≡ some p = rw (q, first_place) at first in
          let same = at_option t opts (some p) (q ∙ is_p) in
          rw same (at_place (copy_if_match s single opts e) t h b (rw same at done))
    ]

module _ (s : System) where
  goes_on_after :
      (o : Bool) (d : Result (Unit {0})) (e : Entry) (target : String) (h : List Op) {b : Bool}
      → (continue d (λ u. copy s e target >>= λ v. pure (false && o)) h).0 ≡ ok b
      → b ≡ false
  unfolding copy ◌>>=◌ step
  goes_on_after o (err x) e target h done = cc done
  goes_on_after o (ok u) e target h done = ground (arith, done)

  module _ (rest : List Op → Result Bool × List Op)
      (kept : (h : List Op) (b : Bool) → (rest h).0 ≡ ok b → b ≡ false) (t : TarOpts)
      (e : Entry) where
    rest_after :
        (d : Result (Unit {0})) (h : List Op) (b : Bool)
        → (continue d (λ u. rest) h).0 ≡ ok b
        → b ≡ false
    rest_after (err x) h b done = cc done
    rest_after (ok u) h b done = kept h b done

    going :
        (is_dir : Bool) (q : Option Place) (h : List Op) (b : Bool)
        → ((if is_dir then pure false else copy_at s false rest t e q) h).0 ≡ ok b
        → b ≡ false
    unfolding copy_at pure ◌>>=◌
    going true q h b done = cc done
    going false none h b done = kept h b done
    going false (some p) h b done = elim (Bool-cases (p.target =s "")) [
      | inl n ↦ rest_after (make s p.directory h).0 (make s p.directory h).1 b (rw n at done)
      | inr n ↦
          goes_on_after (not (t.include_file =s "")) (make s p.directory h).0 e p.target
            (make s p.directory h).1 (rw n at done)
    ]

  -- An option that is not the only one never ends the reading.
  goes_on :
      (opts : List TarOpts) (e : Entry) (h : List Op) (b : Bool)
      → (copy_if_match s false opts e h).0 ≡ ok b
      → b ≡ false
  unfolding copy_if_match pure
  goes_on [] e h b done = cc done
  goes_on (t ∷ opts) e h b done =
      going (copy_if_match s false opts e) (goes_on opts e) t e e.is_dir (place t e) h b done

  module _ (opts : List TarOpts) (ending : Option Error)
      (several : (length opts == 1) ≡ false) where
    next :
        (es : List Entry) (r : Result Bool) (h : List Op)
        → ((b : Bool) → r ≡ ok b → b ≡ false)
        → (continue r (λ found. if found then pure tt else untar_entries s opts ending es) h).0
          ≡ ok tt
        → (continue r (λ found. if found then pure tt else untar_entries s opts ending es) h)
          ≡ untar_entries s opts ending es h
    next es (err x) h on done = cc done
    next es (ok true) h on done = cc (on true refl)
    next es (ok false) h on done = refl

    unrolled :
        (e : Entry) (es : List Entry) (h : List Op)
        → (untar_entries s opts ending (e ∷ es) h).0 ≡ ok tt
        → untar_entries s opts ending (e ∷ es) h
          ≡ untar_entries s opts ending es (copy_if_match s false opts e h).1
    unfolding untar_entries copy_current_file_if_match ◌>>=◌
    unrolled e es h done = rw several (
        next es (copy_if_match s false opts e h).0 (copy_if_match s false opts e h).1
          (goes_on opts e h) (rw several at done))

    -- The member's own step made no error either.
    own_step :
        (e : Entry) (es : List Entry) (h : List Op)
        → (untar_entries s opts ending (e ∷ es) h).0 ≡ ok tt
        → (b : Bool) × ((copy_if_match s false opts e h).0 ≡ ok b)
    unfolding untar_entries copy_current_file_if_match ◌>>=◌
    own_step e es h done = found (copy_if_match s false opts e h).0 refl (rw several at done)
      where
        found :
            (r : Result Bool)
            → (copy_if_match s false opts e h).0 ≡ r
            → (continue
                (copy_if_match s false opts e h).0
                (λ found. if found then pure tt else untar_entries s opts ending es)
                (copy_if_match s false opts e h).1).0
              ≡ ok tt
            → (b : Bool) × ((copy_if_match s false opts e h).0 ≡ ok b)
        found (ok b) q d = (b, q)
        found (err x) q d = absurd (ground (arith, q, d))

    pub entries-written :
        (e : Entry) (p : Place)
        → e.is_dir ≡ false
        → (p.target =s "") ≡ false
        → first_place opts e ≡ some p
        → (es : List Entry) (h : List Op) → Among e es
        → (untar_entries s opts ending es h).0 ≡ ok tt
        → Among (write_file p.target e.contents) (untar_entries s opts ending es h).1
    entries-written e p file named first [] h m done = absurd m
    entries-written e p file named first (e' ∷ es) h m done =
        let w = write_file p.target e.contents in
        let step_of = unrolled e' es h done in
        elim m [
          | inl same ↦
              let (b, own) = own_step e' es h done in
              rw step_of (
                entries_kept s (Among w) opts ending es (λ o placed h' a. inr a)
                  (copy_if_match s false opts e' h).1
                  (subst (λ (x : Entry). Among w (copy_if_match s false opts x h).1) (sym same)
                    (entry-written s e p file named false opts h b first
                      (subst (λ (x : Entry). (copy_if_match s false opts x h).0 ≡ ok b) same own))))
          | inr m' ↦ rw step_of (
              entries-written e p file named first es (copy_if_match s false opts e' h).1 m'
                (rw step_of at done))
        ]
