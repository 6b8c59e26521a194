-- ===== src/Archive/Placed.antt =====
-- What `Untar` of resource/tar_util.go does to the disk.
use cfdev.Common.{
  ◌≡◌, ◌⊎◌, refl, inl, inr, String, Bool, true, false, not, ◌&&◌, Option, none, some, List, [], ◌∷◌,
  ◌==◌, ◌=s◌, length, Among, if◌then◌else◌,
}
use cfdev.Errors.{Error}
use cfdev.Runtime.{Result, ok, pure}
use cfdev.System.{System, Op, open_file, mkdir_all, write_file, step}
use cfdev.System.Preserves.{
  Preserves, Preserves-pure, Preserves-raise, Preserves-step, Preserves-bind, Preserves-if,
}
use cfdev.Archive.{
  TarOpts, Entry, Archive, Place, place, make, copy, copy_at, copy_if_match,
  copy_current_file_if_match, at_end, untar_entries, untar,
}

-- The operation is one of those that put the member where the place says: nothing else is written,
-- and nothing is written elsewhere.
abbrev Puts : Entry → Place → Op → Type 0
Puts e p o =
    (o ≡ open_file p.target e.mode)
    ⊎ (o ≡ write_file p.target e.contents)
    ⊎ ((d : String) × (p.directory ≡ some d) × (o ≡ mkdir_all d))

-- The operation puts one of the members where one of the options wants it.
abbrev pub Placed : List TarOpts → List Entry → Op → Type 0
Placed opts es o =
    (e : Entry) × (t : TarOpts) × (p : Place) × Among e es
    × Among t opts
    × (e.is_dir ≡ false)
    × (place t e ≡ some p)
    × Puts e p o

module _ (s : System) (Q : List Op → Type 0) where
  module _ (e : Entry) (p : Place)
      (keep : (o : Op) → Puts e p o → (h : List Op) → Q h → Q (o ∷ h)) where
    made : (d : Option String) → p.directory ≡ d → Preserves Q (make s d)
    unfolding make
    made none q = Preserves-pure Q tt
    made (some d) q = Preserves-step Q s (mkdir_all d) (keep (mkdir_all d) (inr (inr (d, q, refl))))

    copied : Preserves Q (copy s e p.target)
    unfolding copy
    copied =
        Preserves-bind Q (step s (open_file p.target e.mode)) _
          (Preserves-step Q s (open_file p.target e.mode) (keep _ (inl refl)))
          (λ u. Preserves-step Q s (write_file p.target e.contents) (keep _ (inr (inl refl))))

  module _ (e : Entry) where
    matched :
        (single : Bool) (opts : List TarOpts)
        → ((t : TarOpts) (p : Place) (o : Op)
            → Among t opts
            → e.is_dir ≡ false
            → place t e ≡ some p
            → Puts e p o
            → (h : List Op) → Q h
            → Q (o ∷ h))
        → Preserves Q (copy_if_match s single opts e)
    unfolding copy_if_match copy_at
    matched single [] keep = Preserves-pure Q false
    matched single (t ∷ opts) keep =
        placed (copy_if_match s single opts e)
          (matched single opts (λ t' p o m d q u. keep t' p o (inr m) d q u)) e.is_dir refl
          (place t e) refl
      where
        placed :
            (rest : List Op → Result Bool × List Op)
            → Preserves Q rest
            → (d : Bool) → e.is_dir ≡ d
            → (q : Option Place) → place t e ≡ q
            → Preserves Q (if d then pure false else copy_at s single rest t e q)
        placed rest kept true a q b = Preserves-pure Q false
        placed rest kept false a none b = kept
        placed rest kept false a (some p) b =
            let puts = λ (o : Op). keep t p o (inl refl) a b in
            Preserves-bind Q (make s p.directory) _ (made e p puts p.directory refl) (λ u.
              Preserves-if Q (p.target =s "") _ _ kept (
                Preserves-bind Q (copy s e p.target) _ (copied e p puts)
                  (λ v. Preserves-pure Q (single && not (t.include_file =s "")))))

  ended : (ending : Option Error) → Preserves Q (at_end s ending)
  unfolding at_end
  ended none = Preserves-pure Q tt
  ended (some e) = Preserves-raise Q (Unit {0}) e

  -- Whatever every operation that puts a member in a place keeps, unpacking keeps.
  pub entries_kept :
      (opts : List TarOpts) (ending : Option Error) (es : List Entry)
      → ((o : Op) → Placed opts es o → (h : List Op) → Q h → Q (o ∷ h))
      → Preserves Q (untar_entries s opts ending es)
  unfolding untar_entries copy_current_file_if_match
  entries_kept opts ending [] keep = ended ending
  entries_kept opts ending (e ∷ es) keep =
      Preserves-bind Q (copy_if_match s (length opts == 1) opts e) _
        (matched e (length opts == 1) opts
          (λ t p o m d q u. keep o (e, t, p, inl refl, m, d, q, u)))
        (λ found. Preserves-if Q found _ _ (Preserves-pure Q tt) (
          entries_kept opts ending es (λ o placed.
            let (e', t, p, m, n, d, q, u) = placed in keep o (e', t, p, inr m, n, d, q, u))))

  pub untar-Preserves :
      (open_archive : String → Result Archive) (src : String) (opts : List TarOpts) (a : Archive)
      → open_archive src ≡ ok a
      → ((o : Op) → Placed opts a.entries o → (h : List Op) → Q h → Q (o ∷ h))
      → Preserves Q (untar s open_archive src opts)
  unfolding untar
  untar-Preserves open_archive src opts a opened keep =
      rw (opened, untar) (entries_kept opts a.ending a.entries keep)
