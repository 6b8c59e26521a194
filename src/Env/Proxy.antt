-- ===== src/Env/Proxy.antt =====
-- Which hosts bypass the proxy, in env/env.go.
use cfdev.Common.{
  ℕ, List, [], ◌∷◌, ◌++◌, ap, ◌⊎◌, ◌≡◌, refl, sym, ◌∙◌, String, ◌<>◌, true, not, ◌&&◌, ◌=s◌, inl,
  inr, Bool-cases,
}
use cfdev.Common.Environment.{Environ}
use mathlib.Core.List.{append-nil, append_assoc}
use cfdev.Common.Text.{codes, contains, has_prefix}
use cfdev.Common.Text.Joined.{codes-append, has_prefix_self, has_prefix_refl, has_prefix_trans}
use cfdev.Env.{either, exclude, build_proxy_config}

-- The list begins with another.
abbrev pub Extends : String → String → Type 0
Extends longer shorter = has_prefix (codes longer) (codes shorter) ≡ true

Extends-trans : (a b c : String) → Extends a b → Extends b c → Extends a c
Extends-trans a b c = has_prefix_trans (codes a) (codes b) (codes c)

exclude-Extends : (ip no_proxy : String) → Extends (exclude ip no_proxy) no_proxy
unfolding exclude
exclude-Extends ip no_proxy =
    elim (Bool-cases (not (ip =s "") && not (contains (codes no_proxy) (codes ip)))) [
      | inr e ↦ rw (e, exclude) (has_prefix_refl (codes no_proxy))
      | inl e ↦
          rw (e, exclude)
            (rw (codes-append no_proxy ("," <> ip)) (has_prefix_self (codes no_proxy) _))
    ]

-- The address is an entry of the list: it stands between commas, or after the last.
abbrev IsEntry : String → String → Type 0
IsEntry no_proxy ip =
    (before : List ℕ) × (after : List ℕ) × (codes no_proxy ≡ before ++ (b',' ∷ (codes ip ++ after)))
    × ((after ≡ []) ⊎ ((more : List ℕ) × (after ≡ b',' ∷ more)))

-- What becomes of an address that is to be added to a list: it is empty, or an entry of the final list,
-- or its text was in the list already.
abbrev pub IsNamed : String → String → String → Type 0
IsNamed final earlier ip =
    ((ip =s "") ≡ true) ⊎ IsEntry final ip ⊎ (contains (codes earlier) (codes ip) ≡ true)

appended-IsEntry : (ip no_proxy : String) → IsEntry (no_proxy <> ("," <> ip)) ip
appended-IsEntry ip no_proxy = (
  codes no_proxy,
  [],
  codes-append no_proxy ("," <> ip)
      ∙ ap (λ r. codes no_proxy ++ r)
          (codes-append "," ip ∙ ap (λ r. b',' ∷ r) (sym (append-nil (codes ip)))),
  inl refl,
)

exclude-IsNamed : (ip no_proxy : String) → IsNamed (exclude ip no_proxy) no_proxy ip
unfolding exclude
exclude-IsNamed ip no_proxy = elim (Bool-cases (ip =s "")) [
  | inl e ↦ inl e
  | inr named ↦ elim (Bool-cases (contains (codes no_proxy) (codes ip))) [
    | inl there ↦ inr (inr there)
    | inr new ↦ inr (inl (rw (named, new, exclude) (appended-IsEntry ip no_proxy)))
  ]
]

followed :
    (after more : List ℕ)
    → (after ≡ []) ⊎ ((m : List ℕ) × (after ≡ b',' ∷ m))
    → (after ++ (b',' ∷ more) ≡ []) ⊎ ((m : List ℕ) × (after ++ (b',' ∷ more) ≡ b',' ∷ m))
followed after more (inl e) = inr (more, ap (λ r. r ++ (b',' ∷ more)) e)
followed after more (inr (m, e)) = inr (m ++ (b',' ∷ more), ap (λ r. r ++ (b',' ∷ more)) e)

exclude-IsEntry :
    (ip no_proxy other : String) → IsEntry no_proxy other → IsEntry (exclude ip no_proxy) other
unfolding exclude
exclude-IsEntry ip no_proxy other (before, after, e, bounded) =
    elim (Bool-cases (not (ip =s "") && not (contains (codes no_proxy) (codes ip)))) [
      | inr unchanged ↦ rw (unchanged, exclude) (before, after, e, bounded)
      | inl added ↦
          rw (added, exclude)
            (
              before,
              after ++ (b',' ∷ codes ip),
              codes-append no_proxy ("," <> ip)
                  ∙ ap (λ r. codes no_proxy ++ r) (codes-append "," ip)
                  ∙ ap (λ r. r ++ (b',' ∷ codes ip)) e
                  ∙ append_assoc before (b',' ∷ (codes other ++ after)) (b',' ∷ codes ip)
                  ∙ ap (λ r. before ++ (b',' ∷ r))
                      (append_assoc (codes other) after (b',' ∷ codes ip)),
              followed after (codes ip) bounded,
            )
    ]

exclude-keeps_name :
    (ip no_proxy earlier other : String)
    → IsNamed no_proxy earlier other
    → IsNamed (exclude ip no_proxy) earlier other
exclude-keeps_name ip no_proxy earlier other (inl blank) = inl blank
exclude-keeps_name ip no_proxy earlier other (inr (inl entry)) =
    inr (inl (exclude-IsEntry ip no_proxy other entry))
exclude-keeps_name ip no_proxy earlier other (inr (inr there)) = inr (inr there)

-- The list of hosts that bypass the proxy begins with the user's own list. Each of the addresses of
-- the BOSH director, the router and the host, in this order, is empty, or becomes an entry of the
-- list, or its text was somewhere in the list that came of the user's and the addresses before it.
pub build_proxy_config-IsNamed :
    (bosh router host : String) (env : Environ)
    → let own = either "NO_PROXY" "no_proxy" env in
      let final = (build_proxy_config bosh router host env).no_proxy in
      Extends final own
      × IsNamed final own bosh
      × IsNamed final (build_proxy_config bosh "" "" env).no_proxy router
      × IsNamed final (build_proxy_config bosh router "" env).no_proxy host
unfolding build_proxy_config exclude
build_proxy_config-IsNamed bosh router host env =
    let own = either "NO_PROXY" "no_proxy" env in
    let one = exclude bosh own in
    let two = exclude router one in
    (
      Extends-trans (exclude host two) two own (exclude-Extends host two)
          (Extends-trans two one own (exclude-Extends router one) (exclude-Extends bosh own)),
      exclude-keeps_name host two own bosh
          (exclude-keeps_name router one own bosh (exclude-IsNamed bosh own)),
      exclude-keeps_name host two one router (exclude-IsNamed router one),
      exclude-IsNamed host two,
    )
