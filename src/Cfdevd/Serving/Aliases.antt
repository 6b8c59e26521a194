-- ===== src/Cfdevd/Serving/Aliases.antt =====
-- The removal of the loopback aliases by cfdevd.
use cfdev.Common.{
  ◌≡◌, refl, sym, ap, subst, ◌∙◌, ◌⊎◌, inl, inr, String, ℕ, ◌+◌, Bool, true, false, none, List, [],
  ◌∷◌, arith, Option-cases,
}
use cfdev.Runtime.{Result, ok, err}
use cfdev.Cfdevd.Serving.{Host, alias_exists, after_lookup, remove_loopback_aliases}

module _ (y : Host) where
  -- The alias was found not to exist, or was removed, by the answers from `n` on; the answers after
  -- it start with `m`.
  abbrev pub IsGone : String → ℕ → ℕ → Type 0
  IsGone addr n m =
      ((alias_exists y n addr ≡ ok false) × (m ≡ n + 1))
      ⊎ ((alias_exists y n addr ≡ ok true)
          × (y.remove_alias_error (n + 1) addr ≡ none)
          × (m ≡ n + 1 + 1))

  -- Every alias in turn.
  abbrev pub AreGone : List String → ℕ → ℕ → Type 0
  AreGone [] n m = n ≡ m
  AreGone (addr ∷ addrs) n m = (k : ℕ) × IsGone addr n k × AreGone addrs k m

  after_lookup-IsGone :
      (addr : String) (addrs : List String) (n : ℕ) (r : Result Bool)
      → alias_exists y n addr ≡ r
      → (after_lookup y addr (remove_loopback_aliases y addrs) r (n + 1)).0 ≡ none
      → (k : ℕ) × IsGone addr n k
        × (after_lookup y addr (remove_loopback_aliases y addrs) r (n + 1)
            ≡ remove_loopback_aliases y addrs k)
  unfolding after_lookup
  after_lookup-IsGone addr addrs n (err e) found done = absurd (ground arith)
  after_lookup-IsGone addr addrs n (ok false) found done = (n + 1, inl (found, refl), refl)
  after_lookup-IsGone addr addrs n (ok true) found done =
      elim (Option-cases (y.remove_alias_error (n + 1) addr)) [
        | inl e ↦ (n + 1 + 1, inr (found, e, refl), rw (e, after_lookup) refl)
        | inr (x, e) ↦ absurd (ground (arith, e, done))
      ]

  -- If the removal returns no error, then each alias was found not to exist or was removed, one
  -- after the other.
  pub remove_loopback_aliases-AreGone :
      (addrs : List String) (n : ℕ)
      → (remove_loopback_aliases y addrs n).0 ≡ none
      → AreGone addrs n (remove_loopback_aliases y addrs n).1
  unfolding remove_loopback_aliases
  remove_loopback_aliases-AreGone [] n done = refl
  remove_loopback_aliases-AreGone (addr ∷ addrs) n done =
      let (k, gone, same) = after_lookup-IsGone addr addrs n (alias_exists y n addr) refl done in
      let rest = remove_loopback_aliases-AreGone addrs k (ap (λ r. r.0) (sym same) ∙ done) in
      (k, gone, subst (λ r. AreGone addrs k (r.1)) (sym same) rest)
