-- ===== src/Env/Variables.antt =====
-- What the plugin makes of the NO_PROXY of the user, in main.go.
use cfdev.Common.{
  ℕ, List, [], ◌∷◌, ◌++◌, ap, ◌==◌, ==_iff, ◌≡◌, refl, sym, ◌∙◌, String, ◌<>◌, false, ◌=s◌, inl,
  inr, Bool-cases,
}
use cfdev.Common.Dict.{Dict}
use cfdev.Common.Environment.{unix, windows, getenv, setenv, getenv-setenv}
use Prim.Native.Char.{Char, code}
use cfdev.Common.Text.{codes, split, push_front}
use cfdev.Common.Text.Joined.{codes-append}
use cfdev.Env.{join, bypassing, set_white_listed_proxy_variables}

-- What the plugin adds to the list.
abbrev pub additions : List ℕ
additions = codes ",10.144.0.4,10.144.0.34,.dev.cfdev.sh"

join-cons :
    (p x : String) (l xs : List String)
    → join (p ∷ (l ++ (x ∷ xs))) ≡ p <> ("," <> join (l ++ (x ∷ xs)))
unfolding join
join-cons p x [] xs = refl
join-cons p x (q ∷ l) xs = refl

codes-join-cons :
    (p x : String) (l xs : List String)
    → codes (join (p ∷ (l ++ (x ∷ xs)))) ≡ codes p ++ (b',' ∷ codes (join (l ++ (x ∷ xs))))
codes-join-cons p x l xs =
    ap codes (join-cons p x l xs)
    ∙ codes-append p ("," <> join (l ++ (x ∷ xs)))
    ∙ ap (λ r. codes p ++ r) (codes-append "," (join (l ++ (x ∷ xs))))

codes-join-push :
    (c : Char) (p x : String) (l xs : List String)
    → codes (join (String.◌∷◌ c p ∷ (l ++ (x ∷ xs)))) ≡ code c ∷ codes (join (p ∷ (l ++ (x ∷ xs))))
codes-join-push c p x l xs =
    codes-join-cons (String.◌∷◌ c p) x l xs ∙ ap (λ r. code c ∷ r) (sym (codes-join-cons p x l xs))

-- The pieces of a text, joined again with more pieces after them.
Rejoined : String → List String → List String → Type 0
Rejoined s pieces more =
    (p : String) × (l : List String) × (pieces ≡ p ∷ l)
    × (codes (join (pieces ++ more)) ≡ codes s ++ (b',' ∷ codes (join more)))

split-Rejoined : (s x : String) (xs : List String) → Rejoined s (split b',' s) (x ∷ xs)
unfolding Rejoined
split-Rejoined String.[] x xs = ("", [], refl, codes-join-cons "" x [] xs)
split-Rejoined (String.◌∷◌ c s) x xs =
    let (p, l, e, joined) = split-Rejoined s x xs in
    elim (Bool-cases (code c == b',')) [
      | inl is_comma ↦ rw is_comma (
        "",
        split b',' s,
        refl,
        codes-join-cons "" x (split b',' s) xs
            ∙ ap (λ r. b',' ∷ r) joined
            ∙ ap (λ (n : ℕ). n ∷ (codes s ++ (b',' ∷ codes (join (x ∷ xs)))))
                (sym ((==_iff (code c) b',').0 is_comma)),
      )
      | inr is_other ↦ rw is_other (
        String.◌∷◌ c p,
        l,
        ap (push_front c) e,
        ap (λ q. codes (join (push_front c q ++ (x ∷ xs)))) e
            ∙ codes-join-push c p x l xs
            ∙ ap (λ r. code c ∷ r) (sym (ap (λ q. codes (join (q ++ (x ∷ xs)))) e) ∙ joined),
      )
    ]

bypassing-additions : (list : String) → codes (bypassing list) ≡ codes list ++ additions
unfolding bypassing Rejoined join
bypassing-additions list =
    (split-Rejoined list "10.144.0.4" ("10.144.0.34" ∷ ".dev.cfdev.sh" ∷ [])).3

-- The list that the plugin puts into NO_PROXY is not that of a nonempty NO_PROXY, which it drops, but
-- that of no_proxy, with the addresses and the domain of CF Dev; on Windows, where these are one
-- variable, it is the user's value of NO_PROXY with these.
pub set_white_listed_proxy_variables_forgets :
    (v : String) (variables : Dict String)
    → (v =s "") ≡ false
    → (codes (
          getenv "NO_PROXY"
            (set_white_listed_proxy_variables (setenv "NO_PROXY" v (unix variables))))
        ≡ codes (getenv "no_proxy" (unix variables)) ++ additions)
      × (codes (
            getenv "NO_PROXY"
              (set_white_listed_proxy_variables (setenv "NO_PROXY" v (windows variables))))
          ≡ codes v ++ additions)
unfolding set_white_listed_proxy_variables
set_white_listed_proxy_variables_forgets v variables some_v =
    let at_unix = setenv "NO_PROXY" v (unix variables) in
    let at_windows = setenv "NO_PROXY" v (windows variables) in
    (
      rw
          (
            getenv-setenv "NO_PROXY" "NO_PROXY" v (unix variables),
            getenv-setenv "NO_PROXY" "no_proxy" v (unix variables),
            some_v,
          )
          (ap codes (
              getenv-setenv "NO_PROXY" "NO_PROXY" (bypassing (getenv "no_proxy" (unix variables)))
                at_unix)
            ∙ bypassing-additions (getenv "no_proxy" (unix variables))),
      rw (getenv-setenv "NO_PROXY" "NO_PROXY" v (windows variables), some_v)
          (ap codes (getenv-setenv "NO_PROXY" "NO_PROXY" (bypassing v) at_windows)
            ∙ bypassing-additions v),
    )
